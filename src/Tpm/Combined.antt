-- ===== src/Tpm/Combined.antt =====
-- `attestation_all` and `verify_all` of src/tpm.rs: the TPM quote and the TDX report together.
pub mod Keeping
pub mod Cleanup
pub mod Refinement
pub mod Challenge
pub mod Checking
pub mod Trust
pub mod Scope
pub mod Verdict
pub mod Answering
pub mod Genuine
pub mod RoundTrip
pub mod Blob
use tex_attestation_server.Prelude.{
  ℕ, ◌≡◌, Bool, true, false, ◌&&◌, Option, none, some, List, [], ◌∷◌, ◌++◌, if◌then◌else◌,
}
use tex_attestation_server.Prelude.Result.{Result, ok, err, map_err}
use tex_attestation_server.Prelude.Result
use tex_attestation_server.Prelude.Monad.{M, pure, raise, ◌>>=◌, ◌>>◌, lift}
use tex_attestation_server.Text.{Bytes, Text, lit}
use tex_attestation_server.Text.Utf8.{utf8_valid}
use tex_attestation_server.Text.Trim.{trim}
use tex_attestation_server.Outside.{Crates, System, IoError, Output}
use tex_attestation_server.Attestation.{generate_tdx_report, verify_tdx_report}
use tex_attestation_server.Tpm.Types.{
  TpmError, not_implemented, invalid_input, internal, from_attestation, TdxEvidence, TpmEvidence,
  AttestationAllResponse, VerifyAllResponse, rc_success,
}
use tex_attestation_server.Tpm.Config.{TpmConfig}
use tex_attestation_server.Tpm.Nonce.{normalize_nonce}
use tex_attestation_server.Tpm.Machine.{Host, Machine, Tpm, on_world, arg, with_scratch}
use tex_attestation_server.Tpm.Command.{ensure_ak}
use tex_attestation_server.Tpm.Cycle.{
  measure_and_extend, create_quote, as_tpm_measurement, pubkey_or_empty,
}

-- `decode_blob`: back from `base64(hex(bytes))`.
unfoldable pub decode_blob : Crates → Text → Result TpmError Bytes
decode_blob c value =
    Result.◌>>=◌
      (map_err (λ e. invalid_input (lit "blob is not valid base64: " ++ e))
        (c.base64_decode (trim value)))
      λ inner.
        if utf8_valid inner
        then map_err (λ e. invalid_input (lit "blob is not valid hex: " ++ e))
            (c.hex_decode (trim inner))
        else err (invalid_input (lit "blob is not valid UTF-8"))

-- The raw bytes of the report in the evidence.
unfoldable pub decode_report : Crates → TdxEvidence → Result TpmError Bytes
decode_report c tdx =
    map_err (λ e. invalid_input (lit "'evidence.tdx.report' is not valid hex: " ++ e))
      (c.hex_decode tdx.report)

module _ {W : Type 0} (h : Host W) (config : TpmConfig) where
  -- The TDX half: the report for the challenge, on the same request.
  unfoldable pub tdx_evidence : Text → ℕ → Tpm W TdxEvidence
  tdx_evidence nonce nonce_size = do
    nonce_bytes ← lift (
        map_err (λ e. invalid_input (lit "the nonce is not valid hex: " ++ e))
          (h.crates.hex_decode nonce))
    report ← on_world (generate_tdx_report h.system nonce_bytes) from_attestation
    pure (record { report = h.crates.hex_encode report; nonce = nonce; nonce_size = nonce_size })

  unfoldable pub attestation_body : Text → ℕ → Bytes → Tpm W AttestationAllResponse
  attestation_body nonce nonce_size scratch = do
    (measurement, pcr_value) ← measure_and_extend h config scratch
    ensure_ak h config scratch
    (tpm, _) ← create_quote h config nonce scratch
    tdx ← tdx_evidence nonce nonce_size
    pem ← pubkey_or_empty h config scratch
    block ← as_tpm_measurement h config measurement
    pure (record {
      status = rc_success;
      measurement = block;
      pcr_value = pcr_value;
      pcr_index = config.pcr_index;
      hash_algorithm = config.hash_algorithm;
      evidence = record { tpm = tpm; tdx = some tdx };
      ak_pubkey = pem;
    })

  unfoldable pub attestation_all : Text → Tpm W AttestationAllResponse
  attestation_all nonce_hex = do
    (nonce, nonce_size) ← lift (normalize_nonce h.crates nonce_hex)
    with_scratch h (attestation_body nonce nonce_size)

  -- `fs::write`
  unfoldable pub write_file : Text → Bytes → Text → Tpm W (Unit {0})
  write_file path bytes problem =
      on_world (h.system.write path bytes) (λ e. internal (problem ++ e.message))

  -- `tpm2_checkquote`, which takes no `--tcti`.
  unfoldable pub checkquote_args : TpmEvidence → Text → Text → Text → List Text
  checkquote_args evidence ak_path msg_path sig_path =
      lit "-u"
      ∷ ak_path
      ∷ lit "-g"
      ∷ evidence.hash_algorithm
      ∷ lit "-m"
      ∷ msg_path
      ∷ lit "-s"
      ∷ sig_path
      ∷ lit "-q"
      ∷ evidence.nonce
      ∷ []

  abbrev pub verdict : Result IoError Output → Result TpmError Bool
  verdict (ok output) = ok output.success
  verdict (err e) =
      if e.is_not_found
      then err (
          not_implemented
            (lit "`tpm2_checkquote` was not found; install tpm2-tools to verify TPM quotes"))
      else err (internal (lit "`tpm2_checkquote` could not be executed: " ++ e.message))

  unfoldable pub run_checkquote : List Text → Tpm W Bool
  run_checkquote args m =
      let (answer, w) = h.system.spawn (lit "tpm2_checkquote") args m.world in
      (verdict answer, record m { world = w })

  unfoldable pub verify_quote_body : AttestationAllResponse → Bytes → Tpm W Bool
  verify_quote_body request scratch = do
    signature ← lift (decode_blob h.crates request.evidence.tpm.signature)
    message ← lift (decode_blob h.crates request.evidence.tpm.message)
    sig_path ← arg scratch (lit "verify.sig")
    msg_path ← arg scratch (lit "verify.msg")
    ak_path ← arg scratch (lit "verify.ak.pem")
    write_file sig_path signature (lit "quote signature cannot be written: ")
    write_file msg_path message (lit "quote message cannot be written: ")
    write_file ak_path request.ak_pubkey (lit "Attestation Key public part cannot be written: ")
    run_checkquote (checkquote_args request.evidence.tpm ak_path msg_path sig_path)

  unfoldable pub verify_quote : AttestationAllResponse → Tpm W Bool
  verify_quote request = with_scratch h (verify_quote_body request)

  unfoldable pub required_tdx : Option TdxEvidence → Result TpmError TdxEvidence
  required_tdx none = err (invalid_input (lit "the evidence block has no 'tdx' field"))
  required_tdx (some tdx) = ok tdx

  unfoldable pub verify_all : AttestationAllResponse → Tpm W VerifyAllResponse
  verify_all request = do
    tdx ← lift (required_tdx request.evidence.tdx)
    report ← lift (decode_report h.crates tdx)
    tdx_trusted ← on_world (verify_tdx_report h.system report) from_attestation
    tpm_trusted ← verify_quote request
    pure (record {
      trusted = tpm_trusted && tdx_trusted;
      tpm_trusted = tpm_trusted;
      tdx_trusted = tdx_trusted;
    })
