-- ===== src/Tests/Evidence.antt =====
-- The witnesses on quotes and evidence: one challenge, answered and verified on the small host.
use tex_attestation_server.Prelude.{◌≡◌, refl, true, none, some, [], ◌∷◌}
use tex_attestation_server.Prelude.Result.{Result}
use tex_attestation_server.Text.{Text, lit}
use tex_attestation_server.Tpm.Types.{
  TpmError, FolderMeasurement, QuoteTpmResponse, AttestationAllResponse,
}
use tex_attestation_server.Tpm.Machine.{Machine}
use tex_attestation_server.Tpm.Machine.Recording.{Noted, noting}
use tex_attestation_server.Attestation.{generate_tdx_report, report_data_from}
use tex_attestation_server.Text.Trim.{trim}
use tex_attestation_server.Text.Utf8.{utf8_valid, from_utf8_lossy}
use tex_attestation_server.Text.Search.{ends_with, lines}
use tex_attestation_server.Text.Decimal.{decimal}
use tex_attestation_server.Tpm.Nonce.{normalize_nonce}
use tex_attestation_server.Tpm.Machine.{with_scratch, scratch_dir, join, arg}
use tex_attestation_server.Tpm.Folder.{
  measure_folder, collect_regular_files, child_paths, visit_all, visit, sort, measure_entries,
}
use tex_attestation_server.Tpm.Command.{
  ensure_ready, tpm2, outcome, reset_pcr, extend_pcr, read_pcr, ensure_ak, create_ak, lists_handle,
  flush_transient, ak_pubkey,
}
use tex_attestation_server.Tpm.Cycle.{
  measure_and_extend, create_quote, read_blob, as_tpm_measurement, pubkey_or_empty, quote_body,
  quote_tpm,
}
use tex_attestation_server.Tpm.Combined.{attestation_all, attestation_body, tdx_evidence}
use tex_attestation_server.Tests.Codec.{hex_decode, hex_encode}
use tex_attestation_server.Tpm.Cycle.Order.{QuotedOnce, quote_tpm-notes}
use tex_attestation_server.Tpm.Combined.Challenge.{OneChallenge, attestation_all-binds}
use tex_attestation_server.Tests.Host.{
  test_host, test_config, test_driver, the_ok, is_ok, is_ok_lem,
}

abbrev start : Machine (Noted (Unit {0}))
start = record { world = (tt, []); scratch_counter = 0; ak_pubkey = none }

abbrev pub nonce_text : Text
nonce_text = b'0' ∷ b'A' ∷ []

-- A response with nothing in it, for the places where there is none.
abbrev pub blank : QuoteTpmResponse
blank = record {
  status = 1;
  measurement = record { time_stamp = []; measurement = []; total_hash = [] };
  pcr_value = [];
  pcr_index = 0;
  hash_algorithm = [];
  evidence = record {
    tpm = record {
      quote = [];
      quote_size = 0;
      signature = b'3' ∷ b'0' ∷ b'3' ∷ b'7' ∷ [];
      message = b'3' ∷ b'0' ∷ b'3' ∷ b'8' ∷ [];
      pcrs = [];
      signature_size = 0;
      message_size = 0;
      nonce = b'0' ∷ b'a' ∷ [];
      nonce_size = 1;
      pcr_index = 0;
      hash_algorithm = [];
      ak_handle = [];
    };
    tdx = some (record { report = []; nonce = []; nonce_size = 0 });
  };
  ak_pubkey = [];
}

abbrev pub blank_all : AttestationAllResponse
blank_all = record {
  status = blank.status;
  measurement = blank.measurement;
  pcr_value = blank.pcr_value;
  pcr_index = blank.pcr_index;
  hash_algorithm = blank.hash_algorithm;
  evidence = blank.evidence;
  ak_pubkey = blank.ak_pubkey;
}

abbrev all_run : Result TpmError AttestationAllResponse × Machine (Noted (Unit {0}))
all_run = attestation_all (noting test_host) test_config nonce_text start

all_succeeds : is_ok all_run.0 ≡ true
unfolding attestation_all attestation_body tdx_evidence generate_tdx_report report_data_from
    normalize_nonce trim hex_decode with_scratch measure_and_extend measure_folder
    collect_regular_files child_paths visit_all visit sort measure_entries ensure_ready tpm2 outcome
    reset_pcr extend_pcr read_pcr arg join scratch_dir utf8_valid ends_with decimal from_utf8_lossy
    ensure_ak create_ak lists_handle lines flush_transient create_quote read_blob hex_encode
    as_tpm_measurement pubkey_or_empty ak_pubkey lit
all_succeeds = refl

attestation_all-binds_example :
    OneChallenge test_host test_config nonce_text start all_run.1 (the_ok all_run.0 blank_all)
attestation_all-binds_example =
    attestation_all-binds test_host test_config nonce_text start all_run.1
      (the_ok all_run.0 blank_all) test_driver
      (is_ok_lem all_run.0 all_run.1 blank_all all_succeeds)

abbrev quote_run : Result TpmError QuoteTpmResponse × Machine (Noted (Unit {0}))
quote_run = quote_tpm (noting test_host) test_config nonce_text start

quote_succeeds : is_ok quote_run.0 ≡ true
unfolding quote_tpm quote_body normalize_nonce trim hex_decode with_scratch measure_and_extend
    measure_folder collect_regular_files child_paths visit_all visit sort measure_entries
    ensure_ready tpm2 outcome reset_pcr extend_pcr read_pcr arg join scratch_dir utf8_valid
    ends_with decimal from_utf8_lossy ensure_ak create_ak lists_handle lines flush_transient
    create_quote read_blob hex_encode as_tpm_measurement pubkey_or_empty ak_pubkey lit
quote_succeeds = refl

quote_tpm-notes_example :
    QuotedOnce test_host test_config nonce_text start quote_run.1 (the_ok quote_run.0 blank)
quote_tpm-notes_example =
    quote_tpm-notes test_host test_config nonce_text start quote_run.1 (the_ok quote_run.0 blank)
      (is_ok_lem quote_run.0 quote_run.1 blank quote_succeeds)

abbrev measure_run : Result TpmError (FolderMeasurement × Text) × Machine (Noted (Unit {0}))
measure_run = measure_and_extend (noting test_host) test_config (b'/' ∷ b't' ∷ []) start

measure_succeeds : is_ok measure_run.0 ≡ true
unfolding measure_and_extend measure_folder collect_regular_files child_paths visit_all visit sort
    measure_entries ensure_ready tpm2 outcome reset_pcr extend_pcr read_pcr arg join utf8_valid
    ends_with decimal from_utf8_lossy lit
measure_succeeds = refl
