-- ===== src/Tests/Values.antt =====
-- The witnesses on reports, nonces, blobs, devices, dates, metrics and the log.
use tex_attestation_server.Prelude.{
  ℕ, ◌<◌, ◌≤◌, ◌≡◌, ◌≢◌, ◌↔◌, refl, true, false, none, some, [], ◌∷◌, replicate, length, arith,
}
use tex_attestation_server.Prelude.Result.{ok}
use tex_attestation_server.Text.{Bytes, Text, equal, to_ascii_lowercase}
use tex_attestation_server.Text.Trim.{trim}
use tex_attestation_server.Attestation.{
  reportdata_len, tdreport_len, tdx_success, report_data_from, generate_tdx_report,
  tdreport_reportdata, verify_tdx_report,
}
use tex_attestation_server.Attestation.Binding.{
  padded, IsInvalidInput, report_data_from_lem, generate_tdx_report-binds,
}
use tex_attestation_server.Attestation.Verdict.{Answered, verify_tdx_report-Answered}
use tex_attestation_server.Report.{parse_tdreport}
use tex_attestation_server.Report.Layout.{
  TdReport, IsLayout, assemble, decoded, parse_tdreport-assemble,
}
use tex_attestation_server.Attestation.{to_le_bytes}
use tex_attestation_server.Tpm.Nonce.{
  max_qualifying_data_len, normalize_nonce, choose_value, resolved_nonce,
}
use tex_attestation_server.Tpm.Nonce.Laws.{request_of, normalize_nonce_idem, resolved_nonce-both}
use tex_attestation_server.Tests.Codec.{test_crates, hex_encode, hex_decode, hex_laws}
use tex_attestation_server.Tests.Host.{test_system, test_driver, the_ok, is_ok, is_ok_lem}

abbrev three : Bytes
three = 1 ∷ 2 ∷ 3 ∷ []

report_data_from_lem_example :
    (3 ≤ reportdata_len
      → (report_data_from three ≡ ok (padded three)) × (length (padded three) ≡ reportdata_len))
    × (reportdata_len < 3 → IsInvalidInput (report_data_from three))
report_data_from_lem_example = report_data_from_lem three

generate_succeeds : is_ok (generate_tdx_report test_system three tt).0 ≡ true
unfolding generate_tdx_report report_data_from
generate_succeeds = refl

abbrev generated : Bytes
generated = the_ok (generate_tdx_report test_system three tt).0 []

generate_tdx_report-binds_example :
    (3 ≤ reportdata_len)
    × (length generated ≡ tdreport_len)
    × (tdreport_reportdata generated ≡ ok (padded three))
generate_tdx_report-binds_example =
    generate_tdx_report-binds test_system three generated tt tt test_driver
      (is_ok_lem (generate_tdx_report test_system three tt).0 tt [] generate_succeeds)

abbrev zeros : Bytes
zeros = replicate tdreport_len 0

verify_tdx_report-Answered_example :
    ((verify_tdx_report test_system zeros tt).0 ≡ ok true
      ↔ Answered test_system zeros tt tdx_success)
    × ((verify_tdx_report test_system zeros tt).0 ≡ ok false
        ↔ ((status : ℕ) × Answered test_system zeros tt status × (status ≢ tdx_success)))
verify_tdx_report-Answered_example = verify_tdx_report-Answered test_system zeros tt

abbrev hash48 : ℕ → Bytes
hash48 n = replicate 48 n

abbrev sample : TdReport
sample = record {
  mac_head = replicate 128 1;
  report_data = replicate 64 2;
  mac_gap = replicate 32 3;
  mac = replicate 32 4;
  valid = 511;
  tee_tcb_svn = replicate 16 5;
  mrseam = hash48 6;
  mrsignerseam = hash48 7;
  seamattributes = 0;
  svn2_low = 268435456;
  svn2_high = 399;
  tcb_rest = replicate 112 8;
  attributes = 268435457;
  xfam = 231;
  mrtd = hash48 9;
  mrconfigid = hash48 10;
  mrowner = hash48 11;
  mrownerconfig = hash48 12;
  rtmr0 = hash48 13;
  rtmr1 = hash48 14;
  rtmr2 = hash48 15;
  rtmr3 = hash48 16;
  servtd_hash = hash48 17;
  td_rest = replicate 64 18;
}

sample-IsLayout : IsLayout sample
unfolding to_le_bytes
sample-IsLayout = record {
  fits = (
    refl,
    (
      refl,
      (
        refl,
        (
          refl,
          (
            refl,
            (
              refl,
              (
                refl,
                (
                  refl,
                  (
                    refl,
                    (
                      refl,
                      (
                        refl,
                        (
                          refl,
                          (
                            refl,
                            (
                              refl,
                              (
                                refl,
                                (
                                  refl,
                                  (
                                    refl,
                                    (refl, (refl, (refl, (refl, (refl, (refl, (refl, tt))))))),
                                  ),
                                ),
                              ),
                            ),
                          ),
                        ),
                      ),
                    ),
                  ),
                ),
              ),
            ),
          ),
        ),
      ),
    ),
  );
  words = (omega arith, omega arith, omega arith, omega arith, omega arith, omega arith);
}

parse_tdreport-assemble_example :
    parse_tdreport test_crates (assemble sample) ≡ ok (decoded test_crates sample)
parse_tdreport-assemble_example = parse_tdreport-assemble test_crates sample sample-IsLayout

abbrev spaced : Text
spaced = b' ' ∷ b'0' ∷ b'A' ∷ []

normal : normalize_nonce test_crates spaced ≡ ok (b'0' ∷ b'a' ∷ [], 1)
unfolding normalize_nonce trim hex_decode hex_encode
normal = refl

normalize_nonce_idem_example :
    (b'0' ∷ b'a' ∷ [] ≡ to_ascii_lowercase (trim spaced))
    × (length {A = ℕ} (b'0' ∷ b'a' ∷ []) ≡ 2)
    × ((1 ≤ 1) × (1 ≤ max_qualifying_data_len))
    × (normalize_nonce test_crates (b'0' ∷ b'a' ∷ []) ≡ ok (b'0' ∷ b'a' ∷ [], 1))
normalize_nonce_idem_example =
    normalize_nonce_idem test_crates hex_laws spaced (b'0' ∷ b'a' ∷ []) 1 normal

abbrev upper : Text
upper = b'0' ∷ b'A' ∷ []

resolved :
    resolved_nonce test_crates (request_of (some spaced) (some upper)) ≡ ok (b'0' ∷ b'a' ∷ [])
unfolding resolved_nonce normalize_nonce trim hex_decode hex_encode to_ascii_lowercase equal
    choose_value
resolved = refl

resolved_nonce-both_example :
    (resolved_nonce test_crates (request_of (some spaced) none) ≡ ok (b'0' ∷ b'a' ∷ []))
    × (resolved_nonce test_crates (request_of none (some upper)) ≡ ok (b'0' ∷ b'a' ∷ []))
resolved_nonce-both_example =
    resolved_nonce-both test_crates hex_laws spaced upper (b'0' ∷ b'a' ∷ []) resolved
