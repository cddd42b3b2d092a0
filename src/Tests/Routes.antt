-- ===== src/Tests/Routes.antt =====
-- The witnesses on the routes that attest and verify.
use tex_attestation_server.Prelude.{◌≡◌, ◌≢◌, refl, true, none, some, [], ◌∙◌, inl}
use tex_attestation_server.Prelude.Result.{Result, ok, err}
use tex_attestation_server.Text.{Text, lit, equal}
use tex_attestation_server.Attestation.{generate_tdx_report, report_data_from}
use tex_attestation_server.Tpm.Types.{AttestationAllResponse, VerifyAllResponse}
use tex_attestation_server.Tpm.Machine.{Machine, with_scratch, scratch_dir, join, arg}
use tex_attestation_server.Tpm.Machine.Recording.{Noted, noting}
use tex_attestation_server.Text.Trim.{trim}
use tex_attestation_server.Text.Utf8.{utf8_valid, from_utf8_lossy}
use tex_attestation_server.Text.Search.{ends_with, lines}
use tex_attestation_server.Text.Decimal.{decimal}
use tex_attestation_server.Tpm.Nonce.{normalize_nonce, resolved_nonce, choose_value}
use tex_attestation_server.Tpm.Folder.{
  measure_folder, collect_regular_files, child_paths, visit_all, visit, sort, measure_entries,
  frame,
}
use tex_attestation_server.Tpm.Command.{
  ensure_ready, tpm2, outcome, reset_pcr, extend_pcr, read_pcr, ensure_ak, create_ak, lists_handle,
  flush_transient, ak_pubkey, binary_of,
}
use tex_attestation_server.Tpm.Cycle.{
  measure_and_extend, create_quote, read_blob, as_tpm_measurement, pubkey_or_empty, quote_args,
}
use tex_attestation_server.Tpm.Combined
use tex_attestation_server.Tpm.Combined.{attestation_body, tdx_evidence}
use tex_attestation_server.Tpm.Combined.Challenge.{OneChallenge}
use tex_attestation_server.Api.{ApiError, Json, read_body, parse_json, attestation_all, verify_all}
use tex_attestation_server.Api.{from_tpm}
use tex_attestation_server.Tpm.Machine.{Host}
use tex_attestation_server.Tests.Host.{the_err}
use tex_attestation_server.Tests.Store.{store_system}
use tex_attestation_server.Api.Refusal.{Refused, attestation_all-Refused}
use tex_attestation_server.Api.Evidence.{
  Challenged, attestation_all-Challenged, verify_all-attestation_all,
}
use tex_attestation_server.Tests.Codec.{hex_laws, base64_laws, hex_encode, hex_decode, digest}
use tex_attestation_server.Tests.Evidence.{blank_all, nonce_text}
use tex_attestation_server.Tests.Host.{
  test_host, test_config, test_driver, the_ok, is_ok, is_ok_lem,
}
use tex_attestation_server.Tests.Store.{
  Store, key_name, check, spawned, store_host, store_files, store_tool, store_signer, store_mac,
}
use tex_attestation_server.Tests.RoundTrip.{start, store_can}

-- Bodies that hold the nonce alone.
abbrev asking : AttestationAllResponse → Json
asking answer = record {
  report_field = λ text. err text;
  quote_request =
      λ text. ok (record { nonce = some text; challenge = none; nonce_size = none; mask = none });
  all_response = λ text. ok answer;
}

abbrev quiet : Machine (Noted (Unit {0}))
quiet = record { world = (tt, []); scratch_counter = 0; ak_pubkey = none }

abbrev noted_run : Result ApiError AttestationAllResponse × Machine (Noted (Unit {0}))
noted_run = attestation_all (noting test_host) test_config (asking blank_all) (ok nonce_text) quiet

noted_succeeds : is_ok noted_run.0 ≡ true
unfolding attestation_all read_body parse_json resolved_nonce choose_value Combined.attestation_all
    attestation_body tdx_evidence generate_tdx_report report_data_from normalize_nonce trim
    hex_decode with_scratch measure_and_extend measure_folder collect_regular_files child_paths
    visit_all visit sort measure_entries ensure_ready tpm2 outcome reset_pcr extend_pcr read_pcr arg
    join scratch_dir utf8_valid ends_with decimal from_utf8_lossy ensure_ak create_ak lists_handle
    lines flush_transient create_quote read_blob hex_encode as_tpm_measurement pubkey_or_empty
    ak_pubkey lit
noted_succeeds = refl

attestation_all-Challenged_example :
    (nonce : Text) × Challenged test_host (asking blank_all) (ok nonce_text) nonce
    × OneChallenge test_host test_config nonce quiet noted_run.1 (the_ok noted_run.0 blank_all)
attestation_all-Challenged_example =
    attestation_all-Challenged test_host test_config (asking blank_all) (ok nonce_text) quiet
      noted_run.1 (the_ok noted_run.0 blank_all) test_driver
      (is_ok_lem noted_run.0 noted_run.1 blank_all noted_succeeds)

abbrev route_run : Result ApiError AttestationAllResponse × Machine Store
route_run = attestation_all store_host test_config (asking blank_all) (ok nonce_text) start

route_succeeds : is_ok route_run.0 ≡ true
unfolding attestation_all read_body parse_json resolved_nonce choose_value Combined.attestation_all
    attestation_body tdx_evidence generate_tdx_report report_data_from normalize_nonce trim
    hex_decode with_scratch measure_and_extend measure_folder collect_regular_files child_paths
    visit_all visit sort measure_entries ensure_ready tpm2 outcome reset_pcr extend_pcr read_pcr arg
    join scratch_dir utf8_valid ends_with decimal from_utf8_lossy ensure_ak create_ak lists_handle
    lines flush_transient create_quote read_blob hex_encode as_tpm_measurement pubkey_or_empty
    ak_pubkey lit spawned equal binary_of quote_args frame digest
route_succeeds = refl

abbrev answer : AttestationAllResponse
answer = the_ok route_run.0 blank_all

answer_key : answer.ak_pubkey ≡ key_name
unfolding attestation_all read_body parse_json resolved_nonce choose_value Combined.attestation_all
    attestation_body tdx_evidence generate_tdx_report report_data_from normalize_nonce trim
    hex_decode with_scratch measure_and_extend measure_folder collect_regular_files child_paths
    visit_all visit sort measure_entries ensure_ready tpm2 outcome reset_pcr extend_pcr read_pcr arg
    join scratch_dir utf8_valid ends_with decimal from_utf8_lossy ensure_ak create_ak lists_handle
    lines flush_transient create_quote read_blob hex_encode as_tpm_measurement pubkey_or_empty
    ak_pubkey lit spawned equal binary_of quote_args frame digest
answer_key = refl

answer_filled : answer.ak_pubkey ≢ []
answer_filled e = cc (answer_key, e)

-- What the body of the answer holds does not matter to the challenge.
same_route :
    attestation_all store_host test_config (asking answer) (ok nonce_text) start ≡ route_run
unfolding attestation_all
same_route = refl

verify_all-attestation_all_example :
    (v : VerifyAllResponse) × ((verify_all store_host test_config (asking answer) (ok []) start).0
      ≡ ok v)
    × (v.trusted ≡ true)
verify_all-attestation_all_example =
    verify_all-attestation_all store_host test_config (asking answer) key_name check store_signer
      hex_laws base64_laws store_mac store_files store_tool (ok nonce_text) [] start route_run.1
      start answer (inl refl)
      (same_route ∙ is_ok_lem route_run.0 route_run.1 blank_all route_succeeds) answer_filled refl
      store_can

-- A host without the programs of tpm2-tools.
abbrev bare_host : Host Store
bare_host = record store_host {
  system = record store_system {
    spawn = λ binary args w. (err (record { is_not_found = true; message = [] }), w);
  };
}

abbrev bare_run : Result ApiError AttestationAllResponse × Machine Store
bare_run = attestation_all bare_host test_config (asking blank_all) (ok nonce_text) start

abbrev refused : ApiError
refused = the_err bare_run.0 (record { status = 0; message = [] })

bare_fails : bare_run.0 ≡ err refused
unfolding attestation_all read_body parse_json resolved_nonce choose_value Combined.attestation_all
    attestation_body normalize_nonce trim hex_decode with_scratch measure_and_extend measure_folder
    collect_regular_files child_paths visit_all visit sort measure_entries ensure_ready tpm2 outcome
    arg join scratch_dir utf8_valid ends_with decimal from_utf8_lossy hex_encode lit equal binary_of
    frame digest from_tpm
bare_fails = refl

attestation_all-Refused_example :
    Refused bare_host
      (asking blank_all)
      (Combined.attestation_all bare_host test_config)
      (ok nonce_text)
      start
      refused
attestation_all-Refused_example =
    attestation_all-Refused bare_host test_config (asking blank_all) (ok nonce_text) start refused
      bare_fails
