-- ===== src/Tpm/Cycle/Keeping.antt =====
-- What a quote of src/tpm.rs leaves as it was.
use tex_attestation_server.Prelude.{refl}
use tex_attestation_server.Prelude.Result.{ok}
use tex_attestation_server.Text.{Bytes, Text, lit}
use tex_attestation_server.Tpm.Types.{FolderMeasurement}
use tex_attestation_server.Tpm.Config.{TpmConfig}
use tex_attestation_server.Tpm.Nonce.{normalize_nonce}
use tex_attestation_server.Tpm.Machine.{Host}
use tex_attestation_server.Tpm.Machine.Keeping.{Kept, Keeps, >>=-Kept, lift-Kept, arg-Kept}
use tex_attestation_server.Tpm.Command.Keeping.{
  ProgramKeeps, program-Kept, reset_pcr-Kept, extend_pcr-Kept, read_output-Kept, ensure_ready-Kept,
  flush_transient-Kept, read_pcr-Kept, ensure_ak-Kept, ak_pubkey-Kept,
}
use tex_attestation_server.Tpm.Cycle.{
  read_blob, collect_quote, create_quote, measure, measure_and_extend, as_tpm_measurement,
  try_pubkey, information_body, pubkey_or_empty, quote_body,
}

module _ {W X : Type 0} (h : Host W) (config : TpmConfig) (obs : W → X) where
  read_blob-Kept : (scratch : Bytes) (name : Text) → Kept obs (read_blob h config scratch name)
  unfolding read_blob
  read_blob-Kept scratch name = >>=-Kept (read_output-Kept h config obs _ _ _) λ bytes. lift-Kept _

  pub collect_quote-Kept :
      (scratch : Bytes) (nonce : Text) → Kept obs (collect_quote h config scratch nonce)
  unfolding collect_quote
  collect_quote-Kept scratch nonce = >>=-Kept (read_blob-Kept scratch _) λ s.
      >>=-Kept (read_blob-Kept scratch _) λ m.
        >>=-Kept (read_blob-Kept scratch _)
          λ p. >>=-Kept (lift-Kept (normalize_nonce h.crates nonce)) λ z. lift-Kept _

  measure-Kept : Kept obs (measure h config)
  unfolding measure
  measure-Kept = record { kept = λ m. refl }

  pub as_tpm_measurement-Kept : (f : FolderMeasurement) → Kept obs (as_tpm_measurement h config f)
  unfolding as_tpm_measurement
  as_tpm_measurement-Kept f = record { kept = λ m. refl }

  module _ (keeps : Keeps h obs) where
    pub create_quote-Kept :
        (nonce : Text) (scratch : Bytes)
        → ProgramKeeps h config obs (lit "quote")
        → Kept obs (create_quote h config nonce scratch)
    unfolding create_quote
    create_quote-Kept nonce scratch k = >>=-Kept (flush_transient-Kept h config obs keeps) λ _.
        >>=-Kept (arg-Kept scratch _) λ s. >>=-Kept (arg-Kept scratch _) λ g.
          >>=-Kept (arg-Kept scratch _) λ p.
            >>=-Kept (program-Kept h config obs (lit "quote") _ k)
              λ _. collect_quote-Kept scratch nonce

    pub pubkey_or_empty-Kept : (scratch : Bytes) → Kept obs (pubkey_or_empty h config scratch)
    unfolding pubkey_or_empty
    pubkey_or_empty-Kept scratch = record {
      kept = (ak_pubkey-Kept h config obs keeps scratch).kept;
    }

    pub try_pubkey-Kept : (scratch : Bytes) → Kept obs (try_pubkey h config scratch)
    unfolding try_pubkey
    try_pubkey-Kept scratch = record {
      kept =
          (>>=-Kept (ensure_ak-Kept h config obs keeps scratch)
            λ _. ak_pubkey-Kept h config obs keeps scratch).kept;
    }

    -- A host whose programs all keep what is observed.
    module _ (resets : ProgramKeeps h config obs (lit "pcrreset"))
        (extends : ProgramKeeps h config obs (lit "pcrextend"))
        (quotes : ProgramKeeps h config obs (lit "quote")) where
      pub measure_and_extend-Kept :
          (scratch : Bytes) → Kept obs (measure_and_extend h config scratch)
      unfolding measure_and_extend
      measure_and_extend-Kept scratch = >>=-Kept measure-Kept λ f.
          >>=-Kept (ensure_ready-Kept h config obs keeps) λ _.
            >>=-Kept (reset_pcr-Kept h config obs resets) λ _.
              >>=-Kept (extend_pcr-Kept h config obs f.total_hash extends)
                λ _. >>=-Kept (read_pcr-Kept h config obs keeps scratch) λ p. lift-Kept (ok (f, p))

      pub information_body-Kept : (scratch : Bytes) → Kept obs (information_body h config scratch)
      unfolding information_body
      information_body-Kept scratch = >>=-Kept (measure_and_extend-Kept scratch) λ r.
          >>=-Kept (try_pubkey-Kept scratch)
            λ pem. >>=-Kept (as_tpm_measurement-Kept r.0) λ block. lift-Kept _

      pub quote_body-Kept :
          (nonce : Text) (scratch : Bytes) → Kept obs (quote_body h config nonce scratch)
      unfolding quote_body
      quote_body-Kept nonce scratch = >>=-Kept (measure_and_extend-Kept scratch) λ r.
          >>=-Kept (ensure_ak-Kept h config obs keeps scratch) λ _.
            >>=-Kept (create_quote-Kept nonce scratch quotes) λ e.
              >>=-Kept (pubkey_or_empty-Kept scratch)
                λ pem. >>=-Kept (as_tpm_measurement-Kept r.0) λ block. lift-Kept _
