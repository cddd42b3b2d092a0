-- ===== src/Tests/RoundTrip.antt =====
-- Tests of evidence that is handed back.
use tex_attestation_server.Prelude.{◌≡◌, refl, true, false, none, [], ◌∷◌, replicate}
use tex_attestation_server.Prelude.Result.{Result, ok}
use tex_attestation_server.Text.{lit, equal, to_ascii_lowercase, lower_byte}
use tex_attestation_server.Attestation.{from_le_bytes}
use tex_attestation_server.Tpm.Types.{TpmError, AttestationAllResponse, VerifyAllResponse}
use tex_attestation_server.Tpm.Machine.{Machine}
use tex_attestation_server.Tpm.Command.{binary_of}
use tex_attestation_server.Tpm.Cycle.{quote_args, evidence_of}
use tex_attestation_server.Tpm.Combined.{checkquote_args}
use tex_attestation_server.Tpm.Combined.Trust.{Accepted, verify_all-trusted}
use tex_attestation_server.Tpm.Combined.Verdict.{Answer, verify_all-Answer}
use tex_attestation_server.Tpm.Combined.Answering.{Available, verify_all-answers}
use tex_attestation_server.Tpm.Types.{TdxEvidence}
use tex_attestation_server.Prelude.Monad.{map_err-ok}
use tex_attestation_server.Prelude.{some, length-replicate, ℕ, arith}
use tex_attestation_server.Tests.Codec.{test_crates, hex_laws, replicate-IsByte}
use tex_attestation_server.Text.Trim.{trim}
use tex_attestation_server.Text.Utf8.{utf8_valid, from_utf8_lossy}
use tex_attestation_server.Text.Search.{ends_with, lines}
use tex_attestation_server.Text.Decimal.{decimal}
use tex_attestation_server.Tpm.Nonce.{normalize_nonce}
use tex_attestation_server.Tpm.Machine.{with_scratch, scratch_dir, join, arg}
use tex_attestation_server.Tpm.Folder.{
  measure_folder, collect_regular_files, child_paths, visit_all, visit, sort, measure_entries,
  frame,
}
use tex_attestation_server.Tpm.Command.{
  ensure_ready, tpm2, outcome, reset_pcr, extend_pcr, read_pcr, ensure_ak, create_ak, lists_handle,
  flush_transient, ak_pubkey,
}
use tex_attestation_server.Tpm.Cycle.{
  measure_and_extend, create_quote, read_blob, as_tpm_measurement, pubkey_or_empty,
}
use tex_attestation_server.Tpm.Combined.{
  attestation_all, attestation_body, tdx_evidence, verify_all, required_tdx, decode_report,
  verify_quote, verify_quote_body, decode_blob, write_file, run_checkquote,
}
use tex_attestation_server.Attestation.{
  generate_tdx_report, report_data_from, verify_tdx_report, check_length,
}
use tex_attestation_server.Tests.Codec.{hex_laws, hex_encode, hex_decode, digest}
use tex_attestation_server.Tests.Evidence.{blank_all, nonce_text}
use tex_attestation_server.Tests.Host.{test_config, the_ok, is_ok, is_ok_lem}
use tex_attestation_server.Tests.Store.{Store, check, spawned, store_host, store_files, store_tool}

abbrev pub start : Machine Store
start = record { world = λ path. b'7' ∷ []; scratch_counter = 0; ak_pubkey = none }

abbrev all_run : Result TpmError AttestationAllResponse × Machine Store
all_run = attestation_all store_host test_config nonce_text start

all_succeeds : is_ok all_run.0 ≡ true
unfolding attestation_all attestation_body tdx_evidence generate_tdx_report report_data_from
    normalize_nonce trim hex_decode with_scratch measure_and_extend measure_folder
    collect_regular_files child_paths visit_all visit sort measure_entries ensure_ready tpm2 outcome
    reset_pcr extend_pcr read_pcr arg join scratch_dir utf8_valid ends_with decimal from_utf8_lossy
    ensure_ak create_ak lists_handle lines flush_transient create_quote read_blob hex_encode
    as_tpm_measurement pubkey_or_empty ak_pubkey lit spawned equal binary_of quote_args frame digest
all_succeeds = refl

abbrev answered : AttestationAllResponse
answered = the_ok all_run.0 blank_all

abbrev distrusted : VerifyAllResponse
distrusted = record { trusted = false; tpm_trusted = false; tdx_trusted = false }

abbrev verify_run : Result TpmError VerifyAllResponse × Machine Store
verify_run = verify_all store_host test_config answered start

verify_succeeds : is_ok verify_run.0 ≡ true
unfolding verify_all required_tdx decode_report verify_tdx_report check_length verify_quote
    verify_quote_body decode_blob write_file from_le_bytes run_checkquote checkquote_args
    attestation_all attestation_body tdx_evidence generate_tdx_report report_data_from
    normalize_nonce trim hex_decode with_scratch measure_and_extend measure_folder
    collect_regular_files child_paths visit_all visit sort measure_entries ensure_ready tpm2 outcome
    reset_pcr extend_pcr read_pcr arg join scratch_dir utf8_valid ends_with decimal from_utf8_lossy
    ensure_ak create_ak lists_handle lines flush_transient create_quote read_blob hex_encode
    as_tpm_measurement pubkey_or_empty ak_pubkey lit spawned equal binary_of quote_args frame digest
    evidence_of
verify_succeeds = refl

pub store_can : Available store_host test_config start.scratch_counter
unfolding scratch_dir join decimal ends_with utf8_valid lit
store_can = record {
  sig_name = refl;
  msg_name = refl;
  ak_name = refl;
  creates = λ w. refl;
  writes_sig = λ bytes w. refl;
  writes_msg = λ bytes w. refl;
  writes_ak = λ bytes w. refl;
  runs = λ evidence w. (_, refl);
  opens = λ w. (3, refl);
  answers = λ fd report w opened sized. (replicate 1088 0, refl);
}

verify_trusts : (the_ok verify_run.0 distrusted).trusted ≡ true
unfolding verify_all required_tdx decode_report verify_tdx_report check_length verify_quote
    verify_quote_body decode_blob write_file from_le_bytes run_checkquote checkquote_args
    attestation_all attestation_body tdx_evidence generate_tdx_report report_data_from
    normalize_nonce trim hex_decode with_scratch measure_and_extend measure_folder
    collect_regular_files child_paths visit_all visit sort measure_entries ensure_ready tpm2 outcome
    reset_pcr extend_pcr read_pcr arg join scratch_dir utf8_valid ends_with decimal from_utf8_lossy
    ensure_ak create_ak lists_handle lines flush_transient create_quote read_blob hex_encode
    as_tpm_measurement pubkey_or_empty ak_pubkey lit spawned equal binary_of quote_args frame digest
    evidence_of to_ascii_lowercase lower_byte
verify_trusts = refl

verify_all-trusted_example : Accepted store_host test_config store_files answered start
verify_all-trusted_example =
    verify_all-trusted store_host test_config store_files answered start verify_run.1
      (the_ok verify_run.0 distrusted)
      (is_ok_lem verify_run.0 verify_run.1 distrusted verify_succeeds) verify_trusts

verify_all-Answer_example :
    Answer store_host test_config store_files check store_tool answered start
      (the_ok verify_run.0 distrusted)
verify_all-Answer_example =
    verify_all-Answer store_host test_config store_files check store_tool answered start
      verify_run.1 (the_ok verify_run.0 distrusted)
      (is_ok_lem verify_run.0 verify_run.1 distrusted verify_succeeds)

abbrev zero_report : TdxEvidence
zero_report = record { report = hex_encode (replicate 1024 0); nonce = []; nonce_size = 0 }

abbrev well_formed : AttestationAllResponse
well_formed = record blank_all { evidence = record blank_all.evidence { tdx = some zero_report } }

signature_decodes : decode_blob test_crates well_formed.evidence.tpm.signature ≡ ok (7 ∷ [])
unfolding decode_blob trim hex_decode utf8_valid
signature_decodes = refl

message_decodes : decode_blob test_crates well_formed.evidence.tpm.message ≡ ok (8 ∷ [])
unfolding decode_blob trim hex_decode utf8_valid
message_decodes = refl

report_decodes : decode_report test_crates zero_report ≡ ok (replicate 1024 0)
unfolding decode_report
report_decodes =
    map_err-ok _ (hex_laws.decode-encode (replicate 1024 0) (replicate-IsByte 1024 0 (omega arith)))

verify_all-answers_example :
    (v : VerifyAllResponse) × ((verify_all store_host test_config well_formed start).0 ≡ ok v)
verify_all-answers_example =
    verify_all-answers store_host test_config well_formed start zero_report (replicate 1024 0)
      (7 ∷ []) (8 ∷ []) store_can refl report_decodes (length-replicate {A = ℕ} 1024 0)
      signature_decodes message_decodes

-- The counter, before and after it wraps; the world changes in between, and one more directory is made.
abbrev last_counter : Machine Store
last_counter = record start { scratch_counter = 18446744073709551615 }

abbrev wrapped : Machine Store
wrapped = record { world = start.world; scratch_counter = 1; ak_pubkey = some [] }
