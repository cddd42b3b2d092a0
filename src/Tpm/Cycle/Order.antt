-- ===== src/Tpm/Cycle/Order.antt =====
-- The order of the PCR commands in a measurement and a quote: src/tpm.rs.
use tex_attestation_server.Prelude.{ℕ, ◌≡◌, refl, sym, ap, ◌∙◌, List, [], ◌∷◌, ◌++◌, append_assoc}
use tex_attestation_server.Prelude.Result.{ok}
use tex_attestation_server.Prelude.Monad.{>>=-eq-ok, >>=-split, lift, ok-injective}
use tex_attestation_server.Text.{Bytes, Text, lit, to_ascii_lowercase}
use tex_attestation_server.Text.Decimal.{decimal}
use tex_attestation_server.Tpm.Types.{
  FolderMeasurement, TpmMeasurement, TpmEvidence, QuoteTpmResponse,
}
use tex_attestation_server.Tpm.Config.{TpmConfig}
use tex_attestation_server.Tpm.Nonce.{normalize_nonce}
use tex_attestation_server.Tpm.Folder.{measure_folder}
use tex_attestation_server.Tpm.Machine.{Host, Machine, arg, join}
use tex_attestation_server.Tpm.Machine.Recording.{
  Command, Noted, noting, noting-Keeps, notes, noted, with_scratch-notes,
}
use tex_attestation_server.Tpm.Machine.Keeping.{is_noted, arg-Kept, arg-ok}
use tex_attestation_server.Tpm.Command.{
  binary_of, tpm2, ensure_ready, flush_transient, reset_pcr, extend_spec, extend_pcr, read_pcr,
  ensure_ak,
}
use tex_attestation_server.Tpm.Command.Laws.{command, tpm2-notes, reset_pcr-notes, extend_pcr-notes}
use tex_attestation_server.Tpm.Command.Keeping.{
  ensure_ready-Kept, flush_transient-Kept, read_pcr-Kept, ensure_ak-Kept,
}
use tex_attestation_server.Tpm.Cycle.Keeping.{collect_quote-Kept, pubkey_or_empty-Kept}
use tex_attestation_server.Tpm.Cycle.{
  measure, measure_and_extend, read_blob, evidence_of, quote_args, collect_quote, create_quote,
  as_tpm_measurement, pubkey_or_empty, quote_body, quote_tpm,
}

grow :
    (l0 : List Command) {l1 l2 : List Command} (xs ys : List Command)
    → l1 ≡ l0 ++ xs
    → l2 ≡ l1 ++ ys
    → l2 ≡ l0 ++ (xs ++ ys)
grow l0 xs ys p q = q ∙ ap (λ l. l ++ ys) p ∙ append_assoc l0 xs ys

module _ {W : Type 0} (h : Host W) (config : TpmConfig) where
  abbrev reset_command : List Command
  reset_command = command h config (lit "pcrreset") (decimal config.pcr_index ∷ []) ∷ []

  -- The commands that a measurement notes.
  abbrev pub extend_commands : Text → List Command
  extend_commands total_hash =
      command h config (lit "pcrreset") (decimal config.pcr_index ∷ [])
      ∷ command h config (lit "pcrextend") (extend_spec (noting h) config total_hash ∷ [])
      ∷ []

  -- The command that quotes the PCR for a nonce.
  abbrev pub quote_command : Text → Bytes → Command
  quote_command nonce scratch = command h config (lit "quote") (
      quote_args (noting h) config nonce (join scratch (lit "quote.sig"))
        (join scratch (lit "quote.msg")) (join scratch (lit "quote.pcrs")))

  pub rest-notes :
      (t t' nonce : Text) (scratch : Bytes) (m m1 m2 m3 m' : Machine (Noted W))
      → notes m1 ≡ notes m ++ extend_commands t
      → notes m2 ≡ notes m1
      → notes m3 ≡ notes m2 ++ quote_command nonce scratch ∷ []
      → notes m' ≡ notes m3
      → t ≡ t'
      → notes m' ≡ notes m ++ (extend_commands t' ++ quote_command nonce scratch ∷ [])
  rest-notes t t' nonce scratch m m1 m2 m3 m' e1 e2 e3 e4 same =
      e4
      ∙ e3
      ∙ ap (λ l. l ++ quote_command nonce scratch ∷ []) (e2 ∙ e1)
      ∙ append_assoc (notes m) (extend_commands t) _
      ∙ ap (λ d. notes m ++ (extend_commands d ++ quote_command nonce scratch ∷ [])) same

  -- A successful `measure_and_extend` measures the directory as it stands, then resets the PCR, then
  -- extends it with exactly the total digest of that measurement, once.
  pub measure_and_extend-notes :
      (scratch : Bytes) (m m' : Machine (Noted W)) (folder : FolderMeasurement) (pcr : Text)
      → measure_and_extend (noting h) config scratch m ≡ (ok (folder, pcr), m')
      → (measure_folder h.crates (h.disk m.world.0) h.depth config.measure_dir ≡ ok folder)
        × (notes m' ≡ notes m ++ extend_commands folder.total_hash)
  unfolding measure_and_extend measure
  measure_and_extend-notes scratch m m' folder pcr e =
      let (f, e1, h1) = >>=-eq-ok (measure (noting h) config) _ m e in
      let (_, e2, h2) = >>=-eq-ok (ensure_ready (noting h) config) _ m h1 in
      let (_, e3, h3) = >>=-eq-ok (reset_pcr (noting h) config) _ _ h2 in
      let (_, e4, h4) = >>=-eq-ok (extend_pcr (noting h) config f.total_hash) _ _ h3 in
      let (p, e5, h5) = >>=-eq-ok (read_pcr (noting h) config scratch) _ _ h4 in
      let (same, last) = ok-injective h5 in
      let folder_is : f ≡ folder = λ i. (same i).0 in
      (
        e1 ∙ ap ok folder_is,
        sym (ap notes last)
            ∙ (read_pcr-Kept (noting h) config noted (noting-Keeps h) scratch).kept _
            ∙ grow (notes m) reset_command _
                (reset_pcr-notes h config _
                  ∙ ap (λ l. l ++ reset_command)
                      ((ensure_ready-Kept (noting h) config noted (noting-Keeps h)).kept m))
                (extend_pcr-notes h config f.total_hash _)
            ∙ ap (λ (d : FolderMeasurement). notes m ++ extend_commands d.total_hash) folder_is,
      )

  collect_quote-nonce :
      (nonce : Text) (scratch : Bytes) (m m' : Machine (Noted W)) (e : TpmEvidence) (size : ℕ)
      → collect_quote (noting h) config scratch nonce m ≡ (ok (e, size), m')
      → e.nonce ≡ to_ascii_lowercase nonce
  unfolding collect_quote evidence_of
  collect_quote-nonce nonce scratch m m' e size eq =
      let (s, e1, h1) = >>=-eq-ok (read_blob (noting h) config scratch (lit "quote.sig")) _ m eq in
      let (g, e2, h2) = >>=-eq-ok (read_blob (noting h) config scratch (lit "quote.msg")) _ _ h1 in
      let (p, e3, h3) = >>=-eq-ok (read_blob (noting h) config scratch (lit "quote.pcrs")) _ _ h2 in
      let ((_, n), e4, h4) = >>=-eq-ok (lift (normalize_nonce h.crates nonce)) _ _ h3 in
      sym (λ i. ((ok-injective h4).0 i).0.nonce)

  pub create_quote-notes :
      (nonce : Text) (scratch : Bytes) (m m' : Machine (Noted W)) (e : TpmEvidence) (size : ℕ)
      → create_quote (noting h) config nonce scratch m ≡ (ok (e, size), m')
      → (notes m' ≡ notes m ++ quote_command nonce scratch ∷ [])
        × (e.nonce ≡ to_ascii_lowercase nonce)
  unfolding create_quote is_noted binary_of lit
  create_quote-notes nonce scratch m m' e size eq =
      let (_, e0, h0) = >>=-eq-ok (flush_transient (noting h) config) _ m eq in
      let (s, e1, h1) = >>=-eq-ok (arg scratch (lit "quote.sig")) _ _ h0 in
      let (g, e2, h2) = >>=-eq-ok (arg scratch (lit "quote.msg")) _ _ h1 in
      let (p, e3, h3) = >>=-eq-ok (arg scratch (lit "quote.pcrs")) _ _ h2 in
      let (_, e4, h4) = >>=-eq-ok (tpm2 (noting h) config (lit "quote") _) _ _ h3 in
      let same : command h config (lit "quote") (quote_args (noting h) config nonce s g p)
          ≡ quote_command nonce scratch =
        λ i. command h config (lit "quote") (
          quote_args (noting h) config nonce (arg-ok scratch _ s _ e1 i) (arg-ok scratch _ g _ e2 i)
            (arg-ok scratch _ p _ e3 i)) in
      let before =
        (arg-Kept {obs = noted} scratch (lit "quote.pcrs")).kept _
        ∙ (arg-Kept {obs = noted} scratch (lit "quote.msg")).kept _
        ∙ (arg-Kept {obs = noted} scratch (lit "quote.sig")).kept _
        ∙ (flush_transient-Kept (noting h) config noted (noting-Keeps h)).kept m in
      (
        sym (ap notes (λ i. (h4 i).1))
            ∙ (collect_quote-Kept (noting h) config noted scratch nonce).kept _
            ∙ tpm2-notes h config (lit "quote") _ _ refl
            ∙ ap
                (λ l.
                  l
                  ++ command h config (lit "quote") (quote_args (noting h) config nonce s g p) ∷ [])
                before
            ∙ ap (λ d. notes m ++ d ∷ []) same,
        collect_quote-nonce nonce scratch _ m' e size h4,
      )

  pub as_tpm_measurement-ok :
      (f : FolderMeasurement) (m m' : Machine (Noted W)) (b : TpmMeasurement)
      → as_tpm_measurement (noting h) config f m ≡ (ok b, m')
      → (notes m ≡ notes m') × (f.measurement ≡ b.measurement) × (f.total_hash ≡ b.total_hash)
  unfolding as_tpm_measurement
  as_tpm_measurement-ok f m m' b eq =
      let (same, last) = ok-injective eq in
      (ap notes last, λ i. (same i).measurement, λ i. (same i).total_hash)

  -- The commands that a quote notes: for a measurement, a nonce and a scratch directory.
  abbrev pub quote_commands : Text → Text → Bytes → List Command
  quote_commands total_hash nonce scratch =
      extend_commands total_hash ++ quote_command nonce scratch ∷ []

  quote_body-notes :
      (nonce : Text) (scratch : Bytes) (m m' : Machine (Noted W)) (r : QuoteTpmResponse)
      → quote_body (noting h) config nonce scratch m ≡ (ok r, m')
      → (notes m' ≡ notes m ++ quote_commands r.measurement.total_hash nonce scratch)
        × (r.evidence.tpm.nonce ≡ to_ascii_lowercase nonce)
  unfolding quote_body
  quote_body-notes nonce scratch m m' r eq =
      let ((f, pcr), m1, e1, h1) =
        >>=-split (measure_and_extend (noting h) config scratch) _ m eq in
      let (_, m2, e2, h2) = >>=-split (ensure_ak (noting h) config scratch) _ m1 h1 in
      let ((ev, size), m3, e3, h3) =
        >>=-split (create_quote (noting h) config nonce scratch) _ m2 h2 in
      let (pem, m4, e4, h4) = >>=-split (pubkey_or_empty (noting h) config scratch) _ m3 h3 in
      let (block, m5, e5, h5) = >>=-split (as_tpm_measurement (noting h) config f) _ m4 h4 in
      let (same, last) = ok-injective h5 in
      let measured = measure_and_extend-notes scratch m m1 f pcr e1 in
      let quoted = create_quote-notes nonce scratch m2 m3 ev size e3 in
      let stamped = as_tpm_measurement-ok f m4 m5 block e5 in
      (
        rest-notes f.total_hash r.measurement.total_hash nonce scratch m m1 m2 m3 m' measured.1
            (ap notes (λ i. (sym e2 i).1)
              ∙ (ensure_ak-Kept (noting h) config noted (noting-Keeps h) scratch).kept m1)
            quoted.0
            (sym (ap notes last)
              ∙ sym stamped.0
              ∙ ap notes (λ i. (sym e4 i).1)
              ∙ (pubkey_or_empty-Kept (noting h) config noted (noting-Keeps h) scratch).kept m3)
            (stamped.2 ∙ λ i. (same i).measurement.total_hash),
        (λ i. (sym same i).evidence.tpm.nonce) ∙ quoted.1,
      )

  -- The nonce of a quote, and the commands of its transaction.
  abbrev pub QuotedOnce : Text → Machine (Noted W) → Machine (Noted W) → QuoteTpmResponse → Type 0
  QuotedOnce nonce_hex m m' r =
      (nonce : Text) × (size : ℕ) × (scratch : Bytes) × (normalize_nonce h.crates nonce_hex
        ≡ ok (nonce, size))
      × (r.evidence.tpm.nonce ≡ to_ascii_lowercase nonce)
      × (notes m' ≡ notes m ++ quote_commands r.measurement.total_hash nonce scratch)

  -- A quote that succeeds was made for the normal form of the challenge, which its evidence names,
  -- and after the reset and the one extension of the PCR by the total digest that the response
  -- reports; nothing else resets, extends or quotes a PCR in the transaction.
  pub quote_tpm-notes :
      (nonce_hex : Text) (m m' : Machine (Noted W)) (r : QuoteTpmResponse)
      → quote_tpm (noting h) config nonce_hex m ≡ (ok r, m')
      → QuotedOnce nonce_hex m m' r
  unfolding quote_tpm
  quote_tpm-notes nonce_hex m m' r eq =
      let ((nonce, size), m1, e1, h1) =
        >>=-split (lift (normalize_nonce h.crates nonce_hex)) _ m eq in
      let (dir, n, n', body, before, after) =
        with_scratch-notes h (quote_body (noting h) config nonce) m1 m' r h1 in
      let (noted, same) = quote_body-notes nonce dir n n' r body in
      (
        nonce,
        size,
        dir,
        (λ i. (e1 i).0),
        same,
        sym after
            ∙ noted
            ∙ ap (λ l. l ++ quote_commands r.measurement.total_hash nonce dir)
                (before ∙ λ i. notes (sym e1 i).1),
      )
