-- ===== src/Tests/Pcr.antt =====
-- Tests of the PCR: a TPM whose world is the value of its PCR, and whose hash keeps all it is given.
use tex_attestation_server.Prelude.{
  ◌≡◌, refl, sym, ap, true, false, none, some, List, [], ◌∷◌, ◌++◌, arith, drop, replicate,
  if◌then◌else◌,
}
use tex_attestation_server.Prelude.Result.{Result, ok, ok-inj}
use tex_attestation_server.Text.{Bytes, Text, lit, equal}
use tex_attestation_server.Text.Decimal.{decimal}
use tex_attestation_server.Outside.{System, Output}
use tex_attestation_server.Tpm.Types.{TpmError, QuoteTpmResponse, AttestationAllResponse}
use tex_attestation_server.Tpm.Machine.{Host, Machine}
use tex_attestation_server.Tpm.Machine.Keeping.{is_noted}
use tex_attestation_server.Tpm.Command.{binary_of, extend_spec}
use tex_attestation_server.Tpm.Cycle.Pcr.{PcrLaws}
use tex_attestation_server.Tpm.Cycle.Refinement.{Extended, quote_tpm-Extended}
use tex_attestation_server.Tpm.Machine.Scratch.{Tracked, tracking}
use tex_attestation_server.Attestation.{generate_tdx_report, report_data_from}
use tex_attestation_server.Tpm.Combined.{
  attestation_all, verify_all, attestation_body, tdx_evidence,
}
use tex_attestation_server.Tpm.Combined.Keeping.{DevicesKeep}
use tex_attestation_server.Tpm.Combined.Refinement.{attestation_all-Extended}
use tex_attestation_server.Tpm.Combined.Cleanup.{LeavesNone, transactions-LeavesNone}
use tex_attestation_server.Text.Trim.{trim}
use tex_attestation_server.Text.Utf8.{utf8_valid, from_utf8_lossy}
use tex_attestation_server.Text.Search.{ends_with, lines}
use tex_attestation_server.Tpm.Nonce.{normalize_nonce}
use tex_attestation_server.Tpm.Machine.{with_scratch, scratch_dir, join, arg}
use tex_attestation_server.Tpm.Folder.{
  frame, measure_folder, collect_regular_files, child_paths, visit_all, visit, sort,
  measure_entries,
}
use tex_attestation_server.Tpm.Command.{
  ensure_ready, tpm2, outcome, reset_pcr, extend_pcr, read_pcr, ensure_ak, create_ak, lists_handle,
  flush_transient, ak_pubkey,
}
use tex_attestation_server.Tpm.Cycle.{
  measure_and_extend, create_quote, read_blob, as_tpm_measurement, pubkey_or_empty, quote_body,
  quote_tpm, information_tpm,
}
use tex_attestation_server.Tests.Evidence.{blank, blank_all, nonce_text}
use tex_attestation_server.Tests.Codec.{
  test_crates, hex_laws, sha_laws, hex_encode, hex_decode, digest,
}
use tex_attestation_server.Tests.Host.{test_files, test_host, test_config, the_ok, is_ok, is_ok_lem}

abbrev zeros : Bytes
zeros = replicate 32 0

-- The digest of the argument "16:sha=<digest>".
abbrev extended : List Text → Bytes → Bytes
extended [] pcr = pcr
extended (spec ∷ rest) pcr = pcr ++ the_ok (test_crates.hex_decode (drop 7 spec)) []

run_program : Text → List Text → Bytes → Bytes
run_program binary args pcr =
    if equal binary (lit "tpm2_pcrreset")
    then zeros
    else if equal binary (lit "tpm2_pcrextend")
    then extended args pcr
    else pcr

abbrev success : Output
success = record { success = true; status = []; stdout = []; stderr = [] }

abbrev pcr_system : System Bytes
pcr_system = record {
  spawn = λ binary args pcr. (ok success, run_program binary args pcr);
  read = λ path pcr. ok pcr;
  write = λ path bytes pcr. (ok tt, pcr);
  create_dir_all = λ path pcr. (ok tt, pcr);
  remove_dir_all = λ path pcr. (ok tt, pcr);
  open_device = λ path pcr. (ok 3, pcr);
  ioctl = λ fd request bytes pcr. (ok bytes, pcr);
  urandom = λ n pcr. (ok (replicate n 9), pcr);
  temp_dir = b'/' ∷ b't' ∷ [];
  process_id = 41;
  now = λ pcr. some 0;
}

abbrev pcr_host : Host Bytes
pcr_host = record { crates = test_crates; system = pcr_system; disk = λ pcr. test_files; depth = 4 }

abbrev value : Bytes → Bytes
value pcr = pcr

not_noted :
    (binary : Text) (args : List Text) (pcr : Bytes)
    → is_noted binary ≡ false
    → run_program binary args pcr ≡ pcr
unfolding is_noted run_program
not_noted binary args pcr h = ground arith

pcr_laws : PcrLaws pcr_host test_config value (λ b. b) zeros
unfolding run_program binary_of lit equal extend_spec decimal
pcr_laws = record {
  keeps = record { spawn_keeps = not_noted };
  quote_keeps = λ args pcr. refl;
  scratch_keeps = record { create_keeps = λ dir pcr. refl; remove_keeps = λ dir pcr. refl };
  resets = λ pcr s. refl;
  extends = λ digest_hex digest pcr d s. ap (λ r. pcr ++ the_ok r []) d;
  reads = λ path bytes pcr s r. ok-inj (sym r);
}

abbrev start : Machine Bytes
start = record { world = 7 ∷ []; scratch_counter = 0; ak_pubkey = none }

abbrev quote_run : Result TpmError QuoteTpmResponse × Machine Bytes
quote_run = quote_tpm pcr_host test_config nonce_text start

quote_succeeds : is_ok quote_run.0 ≡ true
unfolding quote_tpm quote_body normalize_nonce trim hex_decode with_scratch measure_and_extend
    measure_folder collect_regular_files child_paths visit_all visit sort measure_entries
    ensure_ready tpm2 outcome reset_pcr extend_pcr read_pcr arg join scratch_dir utf8_valid
    ends_with decimal from_utf8_lossy ensure_ak create_ak lists_handle lines flush_transient
    create_quote read_blob hex_encode as_tpm_measurement pubkey_or_empty ak_pubkey lit run_program
    equal binary_of extend_spec frame digest
quote_succeeds = refl

abbrev quoted : QuoteTpmResponse
quoted = the_ok quote_run.0 blank

quote_tpm-Extended_example :
    Extended pcr_host test_config value
      (λ b. b)
      zeros
      quoted.measurement.total_hash
      quoted.pcr_value
      quote_run.1.world
quote_tpm-Extended_example =
    quote_tpm-Extended pcr_host test_config value (λ b. b) zeros hex_laws sha_laws pcr_laws
      nonce_text start quote_run.1 quoted (is_ok_lem quote_run.0 quote_run.1 blank quote_succeeds)

abbrev all_run : Result TpmError AttestationAllResponse × Machine Bytes
all_run = attestation_all pcr_host test_config nonce_text start

all_succeeds : is_ok all_run.0 ≡ true
unfolding attestation_all attestation_body tdx_evidence generate_tdx_report report_data_from
    normalize_nonce trim hex_decode with_scratch measure_and_extend measure_folder
    collect_regular_files child_paths visit_all visit sort measure_entries ensure_ready tpm2 outcome
    reset_pcr extend_pcr read_pcr arg join scratch_dir utf8_valid ends_with decimal from_utf8_lossy
    ensure_ak create_ak lists_handle lines flush_transient create_quote read_blob hex_encode
    as_tpm_measurement pubkey_or_empty ak_pubkey lit run_program equal binary_of extend_spec frame
    digest
all_succeeds = refl

devices_keep : DevicesKeep pcr_system value
devices_keep = record { open_keeps = λ path w. refl; ioctl_keeps = λ fd request bytes w. refl }

attestation_all-Extended_example :
    Extended pcr_host test_config value
      (λ b. b)
      zeros
      (the_ok all_run.0 blank_all).measurement.total_hash
      (the_ok all_run.0 blank_all).pcr_value
      all_run.1.world
attestation_all-Extended_example =
    attestation_all-Extended pcr_host test_config value (λ b. b) zeros hex_laws sha_laws pcr_laws
      devices_keep nonce_text start all_run.1 (the_ok all_run.0 blank_all)
      (is_ok_lem all_run.0 all_run.1 blank_all all_succeeds)

-- Another transaction has a directory at the time.
abbrev busy : Machine (Tracked (Unit {0}))
busy = record { world = (tt, (b'/' ∷ b'x' ∷ []) ∷ []); scratch_counter = 5; ak_pubkey = none }

transactions-LeavesNone_example :
    LeavesNone test_host test_config (information_tpm (tracking test_host) test_config) busy
    × LeavesNone test_host test_config (quote_tpm (tracking test_host) test_config nonce_text) busy
    × LeavesNone test_host test_config
        (attestation_all (tracking test_host) test_config nonce_text)
        busy
    × LeavesNone test_host test_config (verify_all (tracking test_host) test_config blank_all) busy
transactions-LeavesNone_example =
    transactions-LeavesNone test_host test_config nonce_text blank_all busy
