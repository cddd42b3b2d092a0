-- ===== src/Tpm/Cycle/Refinement.antt =====
-- The transactions of src/tpm.rs as one step of an abstract PCR.
use tex_attestation_server.Prelude.{ℕ, ◌≡◌, sym, ap, ◌∙◌, ◌++◌, if◌then◌else◌}
use tex_attestation_server.Prelude.Result.{Result, ok, err, map_err}
use tex_attestation_server.Prelude.Result
use tex_attestation_server.Prelude.Monad.{>>=-split, lift, ok-injective}
use tex_attestation_server.Text.{Bytes, Text}
use tex_attestation_server.Outside.{Crates, HexLaws, ShaLaws}
use tex_attestation_server.Tpm.Types.{FolderMeasurement, InformationTpmResponse, QuoteTpmResponse}
use tex_attestation_server.Tpm.Config.{TpmConfig}
use tex_attestation_server.Tpm.Nonce.{normalize_nonce}
use tex_attestation_server.Tpm.Folder.{
  Files, measure_folder, collect_regular_files, measure_entries,
}
use tex_attestation_server.Tpm.Machine.{Host, Machine}
use tex_attestation_server.Tpm.Machine.Keeping.{with_scratch-kept}
use tex_attestation_server.Tpm.Command.{ensure_ready, ensure_ak, reset_pcr, extend_pcr, read_pcr}
use tex_attestation_server.Tpm.Command.Keeping.{ensure_ak-Kept}
use tex_attestation_server.Tpm.Cycle.Keeping.{
  create_quote-Kept, pubkey_or_empty-Kept, try_pubkey-Kept,
}
use tex_attestation_server.Tpm.Cycle.{
  measure, measure_and_extend, create_quote, as_tpm_measurement, try_pubkey, information_body,
  information_tpm, pubkey_or_empty, quote_body, quote_tpm,
}
use tex_attestation_server.Tpm.Cycle.Pcr.{
  PcrLaws, reset_pcr-initial, extend_pcr-extends, read_pcr-reads,
}

total_hash-decodes :
    (c : Crates) (hex : HexLaws c) (sha : ShaLaws c) (fs : Files) (depth : ℕ) (dir : Bytes)
    (folder : FolderMeasurement)
    → measure_folder c fs depth dir ≡ ok folder
    → (digest : Bytes) × (c.hex_decode folder.total_hash ≡ ok digest)
unfolding measure_folder
total_hash-decodes c hex sha fs depth dir folder e =
    let (is_dir, e1, h1) = Result.>>=-eq-ok (map_err _ (fs.root_is_dir dir)) _ e in
    let (_, e2, h2) = Result.>>=-eq-ok (if is_dir then ok tt else err _) _ h1 in
    let (root, e3, h3) = Result.>>=-eq-ok (map_err _ (fs.root_path dir)) _ h2 in
    let (files, e4, h4) = Result.>>=-eq-ok (collect_regular_files fs root depth root) _ h3 in
    let ((fed, rows), e5, h5) = Result.>>=-eq-ok (measure_entries c fs _) _ h4 in
    (
      c.sha256 fed,
      ap c.hex_decode (λ i. (Result.ok-inj (sym h5) i).total_hash)
          ∙ hex.decode-encode (c.sha256 fed) (sha.sha256-IsByte fed),
    )

module _ {W : Type 0} (h : Host W) (config : TpmConfig) (pcr : W → Bytes) (hash : Bytes → Bytes)
    (initial : Bytes) where
  -- The PCR holds one extension of its initial value by a total digest, and a reported value is that
  -- of the PCR.
  abbrev pub Extended : Text → Text → W → Type 0
  Extended total_hash value w =
      (digest : Bytes) × (h.crates.hex_decode total_hash ≡ ok digest)
      × (pcr w ≡ hash (initial ++ digest))
      × (value ≡ h.crates.hex_encode (hash (initial ++ digest)))

  module _ (hex : HexLaws h.crates) (sha : ShaLaws h.crates)
      (laws : PcrLaws h config pcr hash initial) where
    pub measure_and_extend-Extended :
        (scratch : Bytes) (m m' : Machine W) (folder : FolderMeasurement) (value : Text)
        → measure_and_extend h config scratch m ≡ (ok (folder, value), m')
        → Extended folder.total_hash value m'.world
    unfolding measure_and_extend measure
    measure_and_extend-Extended scratch m m' folder value e =
        let (f, m0, e0, h0) = >>=-split (measure h config) _ m e in
        let (_, m1, e1, h1) = >>=-split (ensure_ready h config) _ m0 h0 in
        let (_, m2, e2, h2) = >>=-split (reset_pcr h config) _ m1 h1 in
        let (_, m3, e3, h3) = >>=-split (extend_pcr h config f.total_hash) _ m2 h2 in
        let (v, m4, e4, h4) = >>=-split (read_pcr h config scratch) _ m3 h3 in
        let (same, last) = ok-injective h4 in
        let (digest, d) =
          total_hash-decodes h.crates hex sha (h.disk m.world) h.depth config.measure_dir f
            λ i. (e0 i).0 in
        let reset = reset_pcr-initial h config pcr hash initial laws m1 m2 e2 in
        let extended : pcr m3.world ≡ hash (initial ++ digest) =
          extend_pcr-extends h config pcr hash initial laws f.total_hash digest m2 m3 d e3
          ∙ ap (λ b. hash (b ++ digest)) reset in
        let (value_is, kept) = read_pcr-reads h config pcr hash initial laws scratch m3 m4 v e4 in
        (
          digest,
          ap h.crates.hex_decode (λ i. (sym same i).0.total_hash) ∙ d,
          ap (λ (v : Machine W). pcr v.world) (sym last) ∙ kept ∙ extended,
          (λ i. (sym same i).1) ∙ value_is ∙ ap h.crates.hex_encode extended,
        )

    quote_body-Extended :
        (nonce : Text) (scratch : Bytes) (m m' : Machine W) (r : QuoteTpmResponse)
        → quote_body h config nonce scratch m ≡ (ok r, m')
        → Extended r.measurement.total_hash r.pcr_value m'.world
    unfolding quote_body as_tpm_measurement
    quote_body-Extended nonce scratch m m' r e =
        let ((f, value), m1, e1, h1) = >>=-split (measure_and_extend h config scratch) _ m e in
        let (_, m2, e2, h2) = >>=-split (ensure_ak h config scratch) _ m1 h1 in
        let ((ev, size), m3, e3, h3) = >>=-split (create_quote h config nonce scratch) _ m2 h2 in
        let (pem, m4, e4, h4) = >>=-split (pubkey_or_empty h config scratch) _ m3 h3 in
        let (same, last) = ok-injective h4 in
        let (digest, d, holds, reported) = measure_and_extend-Extended scratch m m1 f value e1 in
        let rest : pcr m'.world ≡ pcr m1.world =
          ap (λ (v : Machine W). pcr v.world) (sym last)
          ∙ (λ i. pcr (sym e4 i).1.world)
          ∙ (pubkey_or_empty-Kept h config pcr laws.keeps scratch).kept m3
          ∙ (λ i. pcr (sym e3 i).1.world)
          ∙ (create_quote-Kept h config pcr laws.keeps nonce scratch laws.quote_keeps).kept m2
          ∙ (λ i. pcr (sym e2 i).1.world)
          ∙ (ensure_ak-Kept h config pcr laws.keeps scratch).kept m1 in
        (
          digest,
          ap h.crates.hex_decode (λ i. (sym same i).measurement.total_hash) ∙ d,
          rest ∙ holds,
          (λ i. (sym same i).pcr_value) ∙ reported,
        )

    -- A successful quote refines one step of an abstract PCR: whatever the PCR held before, after
    -- the transaction it holds the hash of its initial value and the total digest that the response
    -- reports, and the reported PCR value is that one. The programs of tpm2-tools are taken to reset,
    -- extend and read the PCR as they document.
    pub quote_tpm-Extended :
        (nonce_hex : Text) (m m' : Machine W) (r : QuoteTpmResponse)
        → quote_tpm h config nonce_hex m ≡ (ok r, m')
        → Extended r.measurement.total_hash r.pcr_value m'.world
    unfolding quote_tpm
    quote_tpm-Extended nonce_hex m m' r e =
        let ((nonce, size), m1, e1, h1) =
          >>=-split (lift (normalize_nonce h.crates nonce_hex)) _ m e in
        let (dir, n, n', body, before, after) =
          with_scratch-kept h pcr (quote_body h config nonce) m1 m' r laws.scratch_keeps h1 in
        let (digest, d, holds, reported) = quote_body-Extended nonce dir n n' r body in
        (digest, d, sym after ∙ holds, reported)

    information_body-Extended :
        (scratch : Bytes) (m m' : Machine W) (r : InformationTpmResponse)
        → information_body h config scratch m ≡ (ok r, m')
        → Extended r.measurement.total_hash r.pcr_value m'.world
    unfolding information_body as_tpm_measurement
    information_body-Extended scratch m m' r e =
        let ((f, value), m1, e1, h1) = >>=-split (measure_and_extend h config scratch) _ m e in
        let (pem, m2, e2, h2) = >>=-split (try_pubkey h config scratch) _ m1 h1 in
        let (same, last) = ok-injective h2 in
        let (digest, d, holds, reported) = measure_and_extend-Extended scratch m m1 f value e1 in
        let rest : pcr m'.world ≡ pcr m1.world =
          ap (λ (v : Machine W). pcr v.world) (sym last)
          ∙ (λ i. pcr (sym e2 i).1.world)
          ∙ (try_pubkey-Kept h config pcr laws.keeps scratch).kept m1 in
        (
          digest,
          ap h.crates.hex_decode (λ i. (sym same i).measurement.total_hash) ∙ d,
          rest ∙ holds,
          (λ i. (sym same i).pcr_value) ∙ reported,
        )

    -- The information of the TPM does the same: the PCR holds one extension by the reported total
    -- digest, and the reported value is that of the PCR.
    information_tpm-Extended :
        (m m' : Machine W) (r : InformationTpmResponse)
        → information_tpm h config m ≡ (ok r, m')
        → Extended r.measurement.total_hash r.pcr_value m'.world
    unfolding information_tpm
    information_tpm-Extended m m' r e =
        let (dir, n, n', body, before, after) =
          with_scratch-kept h pcr (information_body h config) m m' r laws.scratch_keeps e in
        let (digest, d, holds, reported) = information_body-Extended dir n n' r body in
        (digest, d, sym after ∙ holds, reported)
