-- ===== src/Tpm/Combined/RoundTrip.antt =====
-- Evidence of `attestation_all` that is handed to `verify_all`: src/tpm.rs.
use tex_attestation_server.Prelude.{ℕ, ◌≡◌, ◌≢◌, sym, ap, ◌∙◌, Bool, true, ◌&&◌, [], All, inl, inr}
use mathlib.Core.Path.{subst}
use tex_attestation_server.Prelude.Result.{ok, ok-inj}
use tex_attestation_server.Prelude.Monad.{>>=-split, lift, ok-injective}
use tex_attestation_server.Text.{Bytes, Text, to_ascii_lowercase, to_ascii_lowercase_idem}
use tex_attestation_server.Text.Trim.{trim}
use tex_attestation_server.Outside.{HexLaws, Base64Laws, FileLaws, IsByte}
use tex_attestation_server.Tpm.Types.{AttestationAllResponse, VerifyAllResponse}
use tex_attestation_server.Tpm.Config.{TpmConfig}
use tex_attestation_server.Tpm.Nonce.{normalize_nonce}
use tex_attestation_server.Tpm.Nonce.Laws.{normalize_nonce_idem}
use tex_attestation_server.Tpm.Machine.{Host, Machine, with_scratch, new_scratch}
use tex_attestation_server.Tpm.Command.{ensure_ak}
use tex_attestation_server.Tpm.Command.Cache.{ensure_ak-Leaves}
use tex_attestation_server.Tpm.Cycle.{
  measure_and_extend, create_quote, as_tpm_measurement, pubkey_or_empty,
}
use tex_attestation_server.Tpm.Cycle.Leaving.{measure_and_extend-Leaves, create_quote-Leaves}
use tex_attestation_server.Tpm.Cycle.Signed.{
  encoded, SignerLaws, Signed, create_quote-Signed, Current, pubkey_or_empty-pem,
}
use tex_attestation_server.Tpm.Combined.{
  tdx_evidence, attestation_body, attestation_all, decode_blob, verify_all,
}
use tex_attestation_server.Tpm.Combined.Blob.{decode_blob-encode}
use tex_attestation_server.Tpm.Combined.Verdict.{CheckquoteLaws, verify_all-Answer}
use tex_attestation_server.Tpm.Combined.Genuine.{
  MacLaws, Genuine, tdx_evidence-Genuine, tdx_evidence-Leaves, Genuine-trusted, Genuine-decodes,
}
use tex_attestation_server.Tpm.Combined.Answering.{Available, verify_all-answers}

module _ {W : Type 0} (h : Host W) (config : TpmConfig) where
  module _ (pem : Text) (check : Bytes → Bytes → Bytes → Text → Text → Bool)
      (signer : SignerLaws h config pem check) where
    -- The evidence of a response: a quote that `check` accepts, a report that the module made, and the
    -- key, if it names one.
    record Attested (nonce : Text) (r : AttestationAllResponse) : Type 0 where
      signed : Signed h config pem check nonce r.evidence.tpm
      genuine : Genuine h config r.evidence.tdx
      key_is : r.ak_pubkey ≢ [] → r.ak_pubkey ≡ pem

    attestation_body-Attested :
        (nonce : Text) (size : ℕ) (scratch : Bytes) (m m' : Machine W) (r : AttestationAllResponse)
        → Current h config pem check signer m
        → attestation_body h config nonce size scratch m ≡ (ok r, m')
        → Attested nonce r
    unfolding attestation_body as_tpm_measurement
    attestation_body-Attested nonce size scratch m m' r current e =
        let ((f, value), m1, e1, h1) = >>=-split (measure_and_extend h config scratch) _ m e in
        let (_, m2, e2, h2) = >>=-split (ensure_ak h config scratch) _ m1 h1 in
        let ((ev, n), m3, e3, h3) = >>=-split (create_quote h config nonce scratch) _ m2 h2 in
        let (t, m4, e4, h4) = >>=-split (tdx_evidence h config nonce size) _ m3 h3 in
        let (key, m5, e5, h5) = >>=-split (pubkey_or_empty h config scratch) _ m4 h4 in
        let (same, _) = ok-injective h5 in
        let cached : m4.ak_pubkey ≡ m.ak_pubkey =
          (λ i. (sym e4 i).1.ak_pubkey)
          ∙ (tdx_evidence-Leaves h config nonce size).left m3
          ∙ (λ i. (sym e3 i).1.ak_pubkey)
          ∙ (create_quote-Leaves h config nonce scratch).left m2
          ∙ (λ i. (sym e2 i).1.ak_pubkey)
          ∙ (ensure_ak-Leaves h config scratch).left m1
          ∙ (λ i. (sym e1 i).1.ak_pubkey)
          ∙ (measure_and_extend-Leaves h config scratch).left m in
        let now : Current h config pem check signer m4 = elim current [
          | inl nothing ↦ inl (cached ∙ nothing)
          | inr read ↦ inr (cached ∙ read)
        ] in
        record {
          signed =
              subst (λ (q : AttestationAllResponse). Signed h config pem check nonce q.evidence.tpm)
                same (create_quote-Signed h config pem check signer nonce scratch m2 m3 ev n e3);
          genuine =
              subst (λ (q : AttestationAllResponse). Genuine h config q.evidence.tdx) same
                (tdx_evidence-Genuine h config nonce size m3 m4 t e4);
          key_is =
              subst (λ (q : AttestationAllResponse). q.ak_pubkey ≢ [] → q.ak_pubkey ≡ pem) same
                (pubkey_or_empty-pem h config pem check signer scratch m4 m5 key now e5);
        }

    module _ (hex : HexLaws h.crates) (b64 : Base64Laws h.crates) (mac : MacLaws h.system) where
      blob-decodes :
          (text : Text) (bytes : Bytes)
          → text ≡ encoded h.crates bytes
          → All IsByte bytes
          → decode_blob h.crates text ≡ ok bytes
      blob-decodes text bytes is whole =
          ap (decode_blob h.crates) is ∙ decode_blob-encode h.crates bytes hex b64 whole

      blob-same :
          (text : Text) (bytes bytes' : Bytes)
          → text ≡ encoded h.crates bytes
          → All IsByte bytes
          → decode_blob h.crates text ≡ ok bytes'
          → bytes' ≡ bytes
      blob-same text bytes bytes' is whole decoded =
          ok-inj (sym decoded ∙ blob-decodes text bytes is whole)

      lowercase :
          (s nonce : Text) (size : ℕ)
          → normalize_nonce h.crates s ≡ ok (nonce, size)
          → to_ascii_lowercase nonce ≡ nonce
      lowercase s nonce size e =
          let is = (normalize_nonce_idem h.crates hex s nonce size e).0 in
          ap to_ascii_lowercase is ∙ to_ascii_lowercase_idem (trim s) ∙ sym is

      -- The evidence of a response decodes, to a report of 1024 bytes and to what was signed.
      Attested-answers :
          (nonce : Text) (r : AttestationAllResponse) (n : Machine W)
          → Attested nonce r
          → Available h config n.scratch_counter
          → (v : VerifyAllResponse) × ((verify_all h config r n).0 ≡ ok v)
      Attested-answers nonce r n att can =
          let (s, g, is_s, is_g, is_nonce, is_alg, whole_s, whole_g, accepted) = att.signed in
          let genuine = att.genuine in
          let (decoded, sized) = Genuine-decodes h config hex mac r.evidence.tdx genuine in
          verify_all-answers h config r n genuine.half genuine.report s g can genuine.there decoded
            sized (blob-decodes r.evidence.tpm.signature s is_s whole_s)
            (blob-decodes r.evidence.tpm.message g is_g whole_g)

      attestation_all-Attested :
          (nonce_hex : Text) (m m' : Machine W) (r : AttestationAllResponse)
          → Current h config pem check signer m
          → attestation_all h config nonce_hex m ≡ (ok r, m')
          → (nonce : Text) × (to_ascii_lowercase nonce ≡ nonce) × Attested nonce r
      unfolding attestation_all with_scratch new_scratch
      attestation_all-Attested nonce_hex m m' r current e =
          let ((nonce, size), m1, e1, h1) =
            >>=-split (lift (normalize_nonce h.crates nonce_hex)) _ m e in
          let (dir, m2, e2, h2) = >>=-split (new_scratch h) _ m1 h1 in
          let cached : m2.ak_pubkey ≡ m.ak_pubkey =
            (λ i. (sym e2 i).1.ak_pubkey) ∙ λ i. (sym e1 i).1.ak_pubkey in
          let now : Current h config pem check signer m2 = elim current [
            | inl nothing ↦ inl (cached ∙ nothing)
            | inr read ↦ inr (cached ∙ read)
          ] in
          (
            nonce,
            lowercase nonce_hex nonce size λ i. (e1 i).0,
            attestation_body-Attested nonce size dir m2
                (attestation_body h config nonce size dir m2).1 r now
                λ i. ((h2 i).0, (attestation_body h config nonce size dir m2).1),
          )

      module _ (files : FileLaws h.system) (tool : CheckquoteLaws h config check) where
        Attested-trusted :
            (nonce : Text) (r : AttestationAllResponse) (n n' : Machine W) (v : VerifyAllResponse)
            → to_ascii_lowercase nonce ≡ nonce
            → Attested nonce r
            → r.ak_pubkey ≢ []
            → verify_all h config r n ≡ (ok v, n')
            → v.trusted ≡ true
        Attested-trusted nonce r n n' v lower att filled e =
            let (tdx, report, there, decoded, verdict, (s', g', ds, dg, judged), both) =
              verify_all-Answer h config files check tool r n n' v e in
            let (s, g, is_s, is_g, is_nonce, is_alg, whole_s, whole_g, accepted) = att.signed in
            let same_s = blob-same r.evidence.tpm.signature s s' is_s whole_s ds in
            let same_g = blob-same r.evidence.tpm.message g g' is_g whole_g dg in
            let key = att.key_is filled in
            let quoted : v.tpm_trusted ≡ true =
              judged
              ∙ (λ i. check (key i) (same_g i) (same_s i) ((is_nonce ∙ lower) i) (is_alg i))
              ∙ accepted in
            let reported =
              Genuine-trusted h config hex mac r.evidence.tdx tdx report n.world v.tdx_trusted
                att.genuine there decoded verdict in
            both ∙ λ i. quoted i && reported i

        -- Whenever and by whatever machine it is verified, an answer says that what attestation_all
        -- answered with a key is trusted.
        attestation_all-trusted :
            (nonce_hex : Text) (m m' n n' : Machine W) (r : AttestationAllResponse)
            (v : VerifyAllResponse)
            → Current h config pem check signer m
            → attestation_all h config nonce_hex m ≡ (ok r, m')
            → r.ak_pubkey ≢ []
            → verify_all h config r n ≡ (ok v, n')
            → v.trusted ≡ true
        attestation_all-trusted nonce_hex m m' n n' r v current e filled verified =
            let (nonce, lower, att) = attestation_all-Attested nonce_hex m m' r current e in
            Attested-trusted nonce r n n' v lower att filled verified

        -- What attestation_all answers with a key, verify_all answers to be trusted, whenever it is
        -- handed in and whatever was done in between, on a machine that can verify. Assumed: the laws
        -- of the crates and of files, that tpm2_checkquote decides by the contents of its files and
        -- accepts what tpm2_quote writes for the Attestation Key, whose public part is what was
        -- cached, if anything was, and that the TDX module accepts the MAC of its reports.
        -- The TPM keeps one Attestation Key throughout: a key replaced in between is excluded.
        pub attestation_all-verify_all :
            (nonce_hex : Text) (m m' n : Machine W) (r : AttestationAllResponse)
            → Current h config pem check signer m
            → attestation_all h config nonce_hex m ≡ (ok r, m')
            → r.ak_pubkey ≢ []
            → Available h config n.scratch_counter
            → (v : VerifyAllResponse) × ((verify_all h config r n).0 ≡ ok v) × (v.trusted ≡ true)
        attestation_all-verify_all nonce_hex m m' n r current e filled can =
            let (nonce, lower, att) = attestation_all-Attested nonce_hex m m' r current e in
            let (v, answered) = Attested-answers nonce r n att can in
            (
              v,
              answered,
              Attested-trusted nonce r n (verify_all h config r n).1 v lower att filled
                  λ i. (answered i, (verify_all h config r n).1),
            )
