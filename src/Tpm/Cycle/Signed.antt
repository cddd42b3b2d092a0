-- ===== src/Tpm/Cycle/Signed.antt =====
-- The evidence of a quote of src/tpm.rs, where the TPM signs with one Attestation Key.
use tex_attestation_server.Prelude.{
  ℕ, ◌≡◌, ◌≢◌, refl, sym, ap, ◌∙◌, Bool, true, none, some, [], ◌∷◌, ◌⊎◌, inl, inr, All, arith,
}
use tex_attestation_server.Prelude.Result.{Result, ok, err}
use tex_attestation_server.Prelude.Monad.{>>=-split, lift, ok-injective}
use tex_attestation_server.Text.{Bytes, Text, lit, to_ascii_lowercase}
use tex_attestation_server.Outside.{Crates, IsByte}
use tex_attestation_server.Tpm.Types.{TpmError, TpmEvidence}
use tex_attestation_server.Tpm.Config.{TpmConfig}
use tex_attestation_server.Tpm.Nonce.{normalize_nonce}
use tex_attestation_server.Tpm.Machine.{Host, Machine, arg, join}
use tex_attestation_server.Tpm.Machine.Keeping.{arg-ok}
use tex_attestation_server.Tpm.Command.{
  tpm2, flush_transient, read_output, ak_pubkey, fetch_pubkey, cache_pubkey,
}
use tex_attestation_server.Tpm.Command.Cache.{miss}
use tex_attestation_server.Tpm.Cycle.{
  read_blob, evidence_of, quote_args, collect_quote, create_quote, pubkey_or_empty, or_empty,
}
use tex_attestation_server.Tpm.Cycle.Cached.{pubkey_or_empty-cached}
use tex_attestation_server.Tpm.Cycle.Pcr.{run, Succeeds, tpm2-eq-ok, read_output-eq-ok}

abbrev pub encoded : Crates → Bytes → Text
encoded c bytes = c.base64_encode (c.hex_encode bytes)

module _ {W : Type 0} (h : Host W) (config : TpmConfig) where
  -- A TPM whose Attestation Key has the public part `pem`, and what `check` accepts: `tpm2_quote`
  -- writes a signature by that key over a message that holds the nonce, and `tpm2_readpublic` writes
  -- the public part of the key.
  pub record SignerLaws (pem : Text) (check : Bytes → Bytes → Bytes → Text → Text → Bool)
      : Type 0 where
    pub signs :
        (nonce sig_path msg_path pcrs_path : Text) (signature message : Bytes) (w : W)
        → Succeeds h config (lit "quote") (quote_args h config nonce sig_path msg_path pcrs_path) w
        → h.system.read sig_path
            (run h config (lit "quote") (quote_args h config nonce sig_path msg_path pcrs_path) w).1
          ≡ ok signature
        → h.system.read msg_path
            (run h config (lit "quote") (quote_args h config nonce sig_path msg_path pcrs_path) w).1
          ≡ ok message
        → (check pem message signature nonce config.hash_algorithm ≡ true)
          × All IsByte signature
          × All IsByte message
    pub publishes :
        (path : Text) (text : Bytes) (w : W)
        → Succeeds h config
            (lit "readpublic")
            (lit "-c" ∷ config.ak_handle ∷ lit "-o" ∷ path ∷ lit "-f" ∷ lit "pem" ∷ [])
            w
        → h.system.read path
            (run h config
              (lit "readpublic")
              (lit "-c" ∷ config.ak_handle ∷ lit "-o" ∷ path ∷ lit "-f" ∷ lit "pem" ∷ [])
              w).1
          ≡ ok text
        → text ≡ pem

  read_blob-ok :
      (scratch : Bytes) (name : Text) (m m' : Machine W) (blob : Text × ℕ)
      → read_blob h config scratch name m ≡ (ok blob, m')
      → (bytes : Bytes) × (h.system.read (join scratch name) m.world ≡ ok bytes)
        × (blob.0 ≡ encoded h.crates bytes)
        × (m'.world ≡ m.world)
  unfolding read_blob
  read_blob-ok scratch name m m' blob e =
      let (bytes, m1, e1, h1) = >>=-split (read_output h config (join scratch name) _ _) _ m e in
      let (read, same) = read_output-eq-ok h config (join scratch name) _ _ m m1 bytes e1 in
      let (is, last) = ok-injective h1 in
      (bytes, read, (λ i. (sym is i).0), ap (λ (v : Machine W). v.world) (sym last) ∙ same)

  -- The evidence made of the files of a quote, in the world `w`.
  record Collected (scratch : Bytes) (nonce : Text) (w : W) (evidence : TpmEvidence) : Type 0 where
    signature : Bytes
    message : Bytes
    read_signature : h.system.read (join scratch (lit "quote.sig")) w ≡ ok signature
    read_message : h.system.read (join scratch (lit "quote.msg")) w ≡ ok message
    signature_is : evidence.signature ≡ encoded h.crates signature
    message_is : evidence.message ≡ encoded h.crates message
    nonce_is : evidence.nonce ≡ to_ascii_lowercase nonce
    hash_algorithm_is : evidence.hash_algorithm ≡ config.hash_algorithm

  collect_quote-Collected :
      (scratch : Bytes) (nonce : Text) (m m' : Machine W) (evidence : TpmEvidence) (size : ℕ)
      → collect_quote h config scratch nonce m ≡ (ok (evidence, size), m')
      → Collected scratch nonce m.world evidence
  unfolding collect_quote evidence_of
  collect_quote-Collected scratch nonce m m' evidence size e =
      let (sig, m1, e1, h1) = >>=-split (read_blob h config scratch (lit "quote.sig")) _ m e in
      let (msg, m2, e2, h2) = >>=-split (read_blob h config scratch (lit "quote.msg")) _ m1 h1 in
      let (pcrs, m3, e3, h3) = >>=-split (read_blob h config scratch (lit "quote.pcrs")) _ m2 h2 in
      let ((_, n), m4, e4, h4) = >>=-split (lift (normalize_nonce h.crates nonce)) _ m3 h3 in
      let (same, _) = ok-injective h4 in
      let (s, read_s, is_s, world_s) = read_blob-ok scratch (lit "quote.sig") m m1 sig e1 in
      let (g, read_g, is_g, _) = read_blob-ok scratch (lit "quote.msg") m1 m2 msg e2 in
      record {
        signature = s;
        message = g;
        read_signature = read_s;
        read_message =
            (λ i. h.system.read (join scratch (lit "quote.msg")) (sym world_s i)) ∙ read_g;
        signature_is = (λ i. (sym same i).0.signature) ∙ is_s;
        message_is = (λ i. (sym same i).0.message) ∙ is_g;
        nonce_is = λ i. (sym same i).0.nonce;
        hash_algorithm_is = λ i. (sym same i).0.hash_algorithm;
      }

  -- A signature and a message in the evidence that `check` accepts for its nonce.
  abbrev pub Signed :
      Text → (Bytes → Bytes → Bytes → Text → Text → Bool) → Text → TpmEvidence → Type 0
  Signed pem check nonce evidence =
      (signature message : Bytes) × (evidence.signature ≡ encoded h.crates signature)
      × (evidence.message ≡ encoded h.crates message)
      × (evidence.nonce ≡ to_ascii_lowercase nonce)
      × (evidence.hash_algorithm ≡ config.hash_algorithm)
      × All IsByte signature
      × All IsByte message
      × (check pem message signature nonce config.hash_algorithm ≡ true)

  module _ (pem : Text) (check : Bytes → Bytes → Bytes → Text → Text → Bool)
      (laws : SignerLaws pem check) where
    pub create_quote-Signed :
        (nonce : Text) (scratch : Bytes) (m m' : Machine W) (evidence : TpmEvidence) (size : ℕ)
        → create_quote h config nonce scratch m ≡ (ok (evidence, size), m')
        → Signed pem check nonce evidence
    unfolding create_quote
    create_quote-Signed nonce scratch m m' evidence size e =
        let (_, m1, e1, h1) = >>=-split (flush_transient h config) _ m e in
        let (sp, m2, e2, h2) = >>=-split (arg scratch (lit "quote.sig")) _ m1 h1 in
        let (gp, m3, e3, h3) = >>=-split (arg scratch (lit "quote.msg")) _ m2 h2 in
        let (pp, m4, e4, h4) = >>=-split (arg scratch (lit "quote.pcrs")) _ m3 h3 in
        let (t, m5, e5, h5) =
          >>=-split (tpm2 h config (lit "quote") (quote_args h config nonce sp gp pp)) _ m4 h4 in
        let (success, world) =
          tpm2-eq-ok h config (lit "quote") (quote_args h config nonce sp gp pp) m4 m5 t e5 in
        let c = collect_quote-Collected scratch nonce m5 m' evidence size h5 in
        let at_s = arg-ok scratch (lit "quote.sig") sp m1 λ i. (e2 i).0 in
        let at_g = arg-ok scratch (lit "quote.msg") gp m2 λ i. (e3 i).0 in
        let (accepted, whole_s, whole_g) =
          laws.signs nonce sp gp pp c.signature c.message m4.world success
            ((λ i. h.system.read (at_s i) (sym world i)) ∙ c.read_signature)
            ((λ i. h.system.read (at_g i) (sym world i)) ∙ c.read_message) in
        (
          c.signature, c.message, c.signature_is, c.message_is, c.nonce_is, c.hash_algorithm_is,
          whole_s, whole_g, accepted,
        )

    cache_pubkey-read :
        (scratch : Bytes) (m m' : Machine W) (key : Text)
        → cache_pubkey h config scratch m ≡ (ok key, m')
        → h.system.read (join scratch (lit "ak.pem")) m.world ≡ ok key
    unfolding cache_pubkey
    cache_pubkey-read scratch m m' key e = ground (arith, e)

    fetch_pubkey-pem :
        (scratch : Bytes) (m m' : Machine W) (key : Text)
        → fetch_pubkey h config scratch m ≡ (ok key, m')
        → key ≡ pem
    unfolding fetch_pubkey
    fetch_pubkey-pem scratch m m' key e =
        let (_, m1, e1, h1) = >>=-split (flush_transient h config) _ m e in
        let (path, m2, e2, h2) = >>=-split (arg scratch (lit "ak.pem")) _ m1 h1 in
        let (t, m3, e3, h3) =
          >>=-split
            (tpm2 h config (lit "readpublic")
              (lit "-c" ∷ config.ak_handle ∷ lit "-o" ∷ path ∷ lit "-f" ∷ lit "pem" ∷ []))
            _ m2 h2 in
        let (success, world) =
          tpm2-eq-ok h config (lit "readpublic")
            (lit "-c" ∷ config.ak_handle ∷ lit "-o" ∷ path ∷ lit "-f" ∷ lit "pem" ∷ []) m2 m3 t
            e3 in
        let at_path = arg-ok scratch (lit "ak.pem") path m1 λ i. (e2 i).0 in
        laws.publishes path key m2.world success
          ((λ i. h.system.read (at_path i) (sym world i)) ∙ cache_pubkey-read scratch m3 m' key h3)

    -- A public part that was read before is that of the key.
    abbrev pub Current : Machine W → Type 0
    Current m = (m.ak_pubkey ≡ none) ⊎ (m.ak_pubkey ≡ some pem)

    answered-pem :
        (r : Result TpmError Text) (text : Text)
        → ((key : Text) → r ≡ ok key → key ≡ pem)
        → or_empty h config r ≡ text
        → text ≢ []
        → text ≡ pem
    answered-pem (ok key) text is e filled = sym e ∙ is key refl
    answered-pem (err _) text is e filled = absurd (filled (sym e))

    pub pubkey_or_empty-pem :
        (scratch : Bytes) (m m' : Machine W) (text : Text)
        → Current m
        → pubkey_or_empty h config scratch m ≡ (ok text, m')
        → text ≢ []
        → text ≡ pem
    unfolding pubkey_or_empty
    pubkey_or_empty-pem scratch m m' text (inr cached) e filled =
        pubkey_or_empty-cached h config scratch m m' pem text cached e
    pubkey_or_empty-pem scratch m m' text (inl nothing) e filled =
        let read = miss h config scratch m nothing in
        answered-pem (ak_pubkey h config scratch m).0 text
          (λ key is.
            fetch_pubkey-pem scratch m (ak_pubkey h config scratch m).1 key
              (sym read ∙ λ i. (is i, (ak_pubkey h config scratch m).1)))
          (ok-injective e).0 filled
