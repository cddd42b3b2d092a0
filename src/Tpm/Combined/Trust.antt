-- ===== src/Tpm/Combined/Trust.antt =====
-- When evidence is trusted: `verify_quote` and `verify_all` of src/tpm.rs.
use tex_attestation_server.Prelude.{◌≡◌, ap, ◌∙◌, Bool, true, ◌&&◌, Option, none, some, arith}
use tex_attestation_server.Prelude.Result.{ok}
use tex_attestation_server.Prelude.Monad.{lift, >>=-split, ok-injective, map_err-eq-ok}
use tex_attestation_server.Text.{Bytes}
use tex_attestation_server.Outside.{FileLaws}
use tex_attestation_server.Attestation.{tdx_success, verify_tdx_report}
use tex_attestation_server.Attestation.Verdict.{Answered, verify_tdx_report-Answered}
use tex_attestation_server.Tpm.Types.{
  from_attestation, TdxEvidence, AttestationAllResponse, VerifyAllResponse,
}
use tex_attestation_server.Tpm.Config.{TpmConfig}
use tex_attestation_server.Tpm.Machine.{Host, Machine, on_world}
use tex_attestation_server.Tpm.Combined.Checking.{Checked, quote-Checked}
use tex_attestation_server.Tpm.Combined.{decode_report, verify_quote, required_tdx, verify_all}

module _ {W : Type 0} (h : Host W) (config : TpmConfig) (files : FileLaws h.system)
    (request : AttestationAllResponse) where
  required_tdx-ok :
      (o : Option TdxEvidence) (t : TdxEvidence) → required_tdx h config o ≡ ok t → o ≡ some t
  unfolding required_tdx
  required_tdx-ok none t e = cc
  required_tdx-ok (some s) t e = ap some (ground arith)

  decode_report-ok :
      (tdx : TdxEvidence) (report : Bytes)
      → decode_report h.crates tdx ≡ ok report
      → h.crates.hex_decode tdx.report ≡ ok report
  unfolding decode_report
  decode_report-ok tdx report e = map_err-eq-ok _ _ e

  both : (b a : Bool) → (b && a) ≡ true → (b ≡ true) × (a ≡ true)
  both b a e = ground arith

  -- Both verifiers accepted their half of the evidence.
  abbrev pub Accepted : Machine W → Type 0
  Accepted m =
      (tdx : TdxEvidence) × (report : Bytes) × (request.evidence.tdx ≡ some tdx)
      × (h.crates.hex_decode tdx.report ≡ ok report)
      × Answered h.system report m.world tdx_success
      × Checked h config request true

  -- Evidence is trusted only if it has a TDX report, the TDX module answered `TDX_SUCCESS` for that
  -- very report, and `tpm2_checkquote` accepted the nonce of the evidence on three files that held the
  -- key of the request and the signature and the message of the evidence. Assumed: what is written to
  -- a file is read back, and the other files are as before.
  pub verify_all-trusted :
      (m m' : Machine W) (v : VerifyAllResponse)
      → verify_all h config request m ≡ (ok v, m')
      → v.trusted ≡ true
      → Accepted m
  unfolding verify_all
  verify_all-trusted m m' v eq good =
      let (tdx, m1, e1, h1) =
        >>=-split (lift (required_tdx h config request.evidence.tdx)) _ m eq in
      let (report, m2, e2, h2) = >>=-split (lift (decode_report h.crates tdx)) _ m1 h1 in
      let (a, m3, e3, h3) =
        >>=-split (on_world (verify_tdx_report h.system report) from_attestation) _ m2 h2 in
      let (b, m4, e4, h4) = >>=-split (verify_quote h config request) _ m3 h3 in
      let (same, _) = ok-injective h4 in
      let same_world : m.world ≡ m2.world = (λ i. (e1 i).1.world) ∙ (λ i. (e2 i).1.world) in
      let (quoted, accepted) = both b a ((λ i. (same i).trusted) ∙ good) in
      (
        tdx,
        report,
        required_tdx-ok request.evidence.tdx tdx (λ i. (e1 i).0),
        decode_report-ok tdx report (λ i. (e2 i).0),
        (verify_tdx_report-Answered h.system report m.world).0.0 (
            ap (λ w. (verify_tdx_report h.system report w).0) same_world
            ∙ map_err-eq-ok _ _ (λ i. (e3 i).0)
            ∙ ap ok accepted),
        quote-Checked h config files request m3 m4 true (e4 ∙ λ i. (ok (quoted i), m4)),
      )
