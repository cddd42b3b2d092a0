-- ===== src/Tpm/Combined/Scope.antt =====
-- What of a request `verify_all` of src/tpm.rs looks at.
use tex_attestation_server.Prelude.{◌≡◌, refl, some}
use tex_attestation_server.Text.{Text}
use tex_attestation_server.Tpm.Types.{TdxEvidence, TpmMeasurement, AttestationAllResponse}
use tex_attestation_server.Tpm.Config.{TpmConfig}
use tex_attestation_server.Tpm.Machine.{Host}
use tex_attestation_server.Tpm.Combined.{
  verify_all, verify_quote, verify_quote_body, required_tdx, decode_report, checkquote_args,
}

-- A request with the evidence of another one, but for the nonce that its TDX half names, and with a
-- measurement and a PCR value of its own.
abbrev pub relabelled :
    AttestationAllResponse → TdxEvidence → Text → TpmMeasurement → Text → AttestationAllResponse
relabelled request tdx nonce measurement pcr_value = record request {
  measurement = measurement;
  pcr_value = pcr_value;
  evidence = record request.evidence { tdx = some (record tdx { nonce = nonce }) };
}

module _ {W : Type 0} (h : Host W) (config : TpmConfig) where
  -- The verdict looks neither at the measurement, nor at the PCR value, nor at the nonce of the TDX
  -- half: with any others in their place, verify_all does and answers the same. So a trusted answer
  -- says nothing of them.
  verify_all-relabelled :
      (request : AttestationAllResponse) (tdx : TdxEvidence) (nonce : Text)
      (measurement : TpmMeasurement) (pcr_value : Text)
      → verify_all h config (relabelled request tdx nonce measurement pcr_value)
        ≡ verify_all h config
            (relabelled request tdx tdx.nonce request.measurement request.pcr_value)
  unfolding verify_all verify_quote verify_quote_body required_tdx decode_report checkquote_args
  verify_all-relabelled request tdx nonce measurement pcr_value = refl
