-- ===== src/Tpm/Combined/Refinement.antt =====
-- `attestation_all` of src/tpm.rs as one step of an abstract PCR.
use tex_attestation_server.Prelude.{ℕ, ◌≡◌, sym, ap, ◌∙◌}
use tex_attestation_server.Prelude.Result.{ok}
use tex_attestation_server.Prelude.Monad.{>>=-split, lift, ok-injective}
use tex_attestation_server.Text.{Bytes, Text}
use tex_attestation_server.Outside.{HexLaws, ShaLaws}
use tex_attestation_server.Tpm.Types.{AttestationAllResponse}
use tex_attestation_server.Tpm.Config.{TpmConfig}
use tex_attestation_server.Tpm.Nonce.{normalize_nonce}
use tex_attestation_server.Tpm.Machine.{Host, Machine}
use tex_attestation_server.Tpm.Machine.Keeping.{with_scratch-kept}
use tex_attestation_server.Tpm.Command.{ensure_ak}
use tex_attestation_server.Tpm.Command.Keeping.{ensure_ak-Kept}
use tex_attestation_server.Tpm.Cycle.{
  measure_and_extend, create_quote, as_tpm_measurement, pubkey_or_empty,
}
use tex_attestation_server.Tpm.Cycle.Keeping.{create_quote-Kept, pubkey_or_empty-Kept}
use tex_attestation_server.Tpm.Cycle.Pcr.{PcrLaws}
use tex_attestation_server.Tpm.Cycle.Refinement.{Extended, measure_and_extend-Extended}
use tex_attestation_server.Tpm.Combined.{tdx_evidence, attestation_body, attestation_all}
use tex_attestation_server.Tpm.Combined.Keeping.{DevicesKeep, tdx_evidence-Kept}

module _ {W : Type 0} (h : Host W) (config : TpmConfig) (pcr : W → Bytes) (hash : Bytes → Bytes)
    (initial : Bytes) (hex : HexLaws h.crates) (sha : ShaLaws h.crates)
    (laws : PcrLaws h config pcr hash initial) (devices : DevicesKeep h.system pcr) where
  attestation_body-Extended :
      (nonce : Text) (size : ℕ) (scratch : Bytes) (m m' : Machine W) (r : AttestationAllResponse)
      → attestation_body h config nonce size scratch m ≡ (ok r, m')
      → Extended h config pcr hash initial r.measurement.total_hash r.pcr_value m'.world
  unfolding attestation_body as_tpm_measurement
  attestation_body-Extended nonce size scratch m m' r e =
      let ((f, value), m1, e1, h1) = >>=-split (measure_and_extend h config scratch) _ m e in
      let (_, m2, e2, h2) = >>=-split (ensure_ak h config scratch) _ m1 h1 in
      let ((ev, n), m3, e3, h3) = >>=-split (create_quote h config nonce scratch) _ m2 h2 in
      let (t, m4, e4, h4) = >>=-split (tdx_evidence h config nonce size) _ m3 h3 in
      let (pem, m5, e5, h5) = >>=-split (pubkey_or_empty h config scratch) _ m4 h4 in
      let (same, last) = ok-injective h5 in
      let (digest, d, holds, reported) =
        measure_and_extend-Extended h config pcr hash initial hex sha laws scratch m m1 f value
          e1 in
      let rest : pcr m'.world ≡ pcr m1.world =
        ap (λ (v : Machine W). pcr v.world) (sym last)
        ∙ (λ i. pcr (sym e5 i).1.world)
        ∙ (pubkey_or_empty-Kept h config pcr laws.keeps scratch).kept m4
        ∙ (λ i. pcr (sym e4 i).1.world)
        ∙ (tdx_evidence-Kept h config pcr devices nonce size).kept m3
        ∙ (λ i. pcr (sym e3 i).1.world)
        ∙ (create_quote-Kept h config pcr laws.keeps nonce scratch laws.quote_keeps).kept m2
        ∙ (λ i. pcr (sym e2 i).1.world)
        ∙ (ensure_ak-Kept h config pcr laws.keeps scratch).kept m1 in
      (
        digest,
        ap h.crates.hex_decode (λ i. (sym same i).measurement.total_hash) ∙ d,
        rest ∙ holds,
        (λ i. (sym same i).pcr_value) ∙ reported,
      )

  -- A successful attestation_all leaves the PCR with one extension of its initial value by the total
  -- digest that the response reports, and reports that value of the PCR: the TDX half does not
  -- change it. The programs of tpm2-tools are taken to do as they document, and the TDX devices to
  -- leave the PCR.
  pub attestation_all-Extended :
      (nonce_hex : Text) (m m' : Machine W) (r : AttestationAllResponse)
      → attestation_all h config nonce_hex m ≡ (ok r, m')
      → Extended h config pcr hash initial r.measurement.total_hash r.pcr_value m'.world
  unfolding attestation_all
  attestation_all-Extended nonce_hex m m' r e =
      let ((nonce, size), m1, e1, h1) =
        >>=-split (lift (normalize_nonce h.crates nonce_hex)) _ m e in
      let (dir, n, n', body, before, after) =
        with_scratch-kept h pcr (attestation_body h config nonce size) m1 m' r laws.scratch_keeps
          h1 in
      let (digest, d, holds, reported) = attestation_body-Extended nonce size dir n n' r body in
      (digest, d, sym after ∙ holds, reported)
