-- ===== src/Tpm/Combined/Verdict.antt =====
-- What `verify_all` of src/tpm.rs answers, by the contents of the files that it writes.
use tex_attestation_server.Prelude.{◌≡◌, sym, ap, ◌∙◌, Bool, ◌&&◌, Option, none, some, arith}
use tex_attestation_server.Prelude.Result.{ok}
use tex_attestation_server.Prelude.Monad.{lift, >>=-split, ok-injective, map_err-eq-ok}
use tex_attestation_server.Text.{Bytes, Text, lit}
use tex_attestation_server.Outside.{Output, FileLaws}
use tex_attestation_server.Attestation.{verify_tdx_report}
use tex_attestation_server.Tpm.Types.{
  from_attestation, TdxEvidence, TpmEvidence, AttestationAllResponse, VerifyAllResponse,
}
use tex_attestation_server.Tpm.Config.{TpmConfig}
use tex_attestation_server.Tpm.Machine.{Host, Machine, on_world}
use tex_attestation_server.Tpm.Combined.Checking.{quote-Checked}
use tex_attestation_server.Tpm.Combined.{
  decode_blob, checkquote_args, decode_report, verify_quote, required_tdx, verify_all,
}

module _ {W : Type 0} (h : Host W) (config : TpmConfig) where
  -- `tpm2_checkquote` decides by the contents of the three files, the nonce and the hash algorithm.
  pub record CheckquoteLaws (check : Bytes → Bytes → Bytes → Text → Text → Bool) : Type 0 where
    pub decides :
        (evidence : TpmEvidence) (ak_path msg_path sig_path : Text) (ak msg sig : Bytes) (w : W)
        (output : Output)
        → h.system.read ak_path w ≡ ok ak
        → h.system.read msg_path w ≡ ok msg
        → h.system.read sig_path w ≡ ok sig
        → (h.system.spawn
            (lit "tpm2_checkquote")
            (checkquote_args h config evidence ak_path msg_path sig_path)
            w).0
          ≡ ok output
        → output.success ≡ check ak msg sig evidence.nonce evidence.hash_algorithm

  module _ (files : FileLaws h.system) where
    module _ (check : Bytes → Bytes → Bytes → Text → Text → Bool) (tool : CheckquoteLaws check)
        (request : AttestationAllResponse) where
      -- The verdict on the quote of the request.
      abbrev pub Judged : Bool → Type 0
      Judged trusted =
          (signature message : Bytes) × (decode_blob h.crates request.evidence.tpm.signature
            ≡ ok signature)
          × (decode_blob h.crates request.evidence.tpm.message ≡ ok message)
          × (trusted
              ≡ check request.ak_pubkey message signature request.evidence.tpm.nonce
                  request.evidence.tpm.hash_algorithm)

      quote-Judged :
          (m m' : Machine W) (trusted : Bool)
          → verify_quote h config request m ≡ (ok trusted, m')
          → Judged trusted
      quote-Judged m m' trusted eq =
          let c = quote-Checked h config files request m m' trusted eq in
          (
            c.signature,
            c.message,
            c.decoded_signature,
            c.decoded_message,
            sym c.exit
                ∙ tool.decides request.evidence.tpm c.ak_path c.msg_path c.sig_path
                    request.ak_pubkey c.message c.signature c.before.world c.output c.ak_read
                    c.msg_read c.sig_read c.ran,
          )

      -- The answer to a request: each half is what its verifier says of the evidence, and the whole is
      -- both.
      abbrev pub Answer : Machine W → VerifyAllResponse → Type 0
      Answer m v =
          (tdx : TdxEvidence) × (report : Bytes) × (request.evidence.tdx ≡ some tdx)
          × (h.crates.hex_decode tdx.report ≡ ok report)
          × ((verify_tdx_report h.system report m.world).0 ≡ ok v.tdx_trusted)
          × Judged v.tpm_trusted
          × (v.trusted ≡ (v.tpm_trusted && v.tdx_trusted))

      required_tdx-some :
          (o : Option TdxEvidence) (t : TdxEvidence) → required_tdx h config o ≡ ok t → o ≡ some t
      unfolding required_tdx
      required_tdx-some none t e = cc
      required_tdx-some (some s) t e = ap some (ground arith)

      decode_report-hex :
          (tdx : TdxEvidence) (report : Bytes)
          → decode_report h.crates tdx ≡ ok report
          → h.crates.hex_decode tdx.report ≡ ok report
      unfolding decode_report
      decode_report-hex tdx report e = map_err-eq-ok _ _ e

      -- An answer of verify_all is determined by the evidence: the TDX half is what verify_tdx_report
      -- says of the decoded report, the TPM half is what tpm2_checkquote says of the signature, the
      -- message and the key of the request for the nonce and the hash algorithm of its evidence,
      -- whatever the scratch files held before, and the whole is trusted if both are. Assumed: what is
      -- written to a file is read back, and tpm2_checkquote decides by the contents of its files.
      pub verify_all-Answer :
          (m m' : Machine W) (v : VerifyAllResponse)
          → verify_all h config request m ≡ (ok v, m')
          → Answer m v
      unfolding verify_all
      verify_all-Answer m m' v eq =
          let (tdx, m1, e1, h1) =
            >>=-split (lift (required_tdx h config request.evidence.tdx)) _ m eq in
          let (report, m2, e2, h2) = >>=-split (lift (decode_report h.crates tdx)) _ m1 h1 in
          let (a, m3, e3, h3) =
            >>=-split (on_world (verify_tdx_report h.system report) from_attestation) _ m2 h2 in
          let (b, m4, e4, h4) = >>=-split (verify_quote h config request) _ m3 h3 in
          let (same, _) = ok-injective h4 in
          let (s, g, ds, dg, judged) = quote-Judged m3 m4 b e4 in
          let world : m.world ≡ m2.world = (λ i. (e1 i).1.world) ∙ (λ i. (e2 i).1.world) in
          (
            tdx,
            report,
            required_tdx-some request.evidence.tdx tdx (λ i. (e1 i).0),
            decode_report-hex tdx report (λ i. (e2 i).0),
            ap (λ w. (verify_tdx_report h.system report w).0) world
                ∙ map_err-eq-ok _ _ (λ i. (e3 i).0)
                ∙ (λ i. ok (same i).tdx_trusted),
            (s, g, ds, dg, (λ i. (sym same i).tpm_trusted) ∙ judged),
            (λ i. (sym same i).trusted) ∙ (λ i. (same i).tpm_trusted && (same i).tdx_trusted),
          )
