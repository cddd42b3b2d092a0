-- ===== src/Tpm/Combined/Challenge.antt =====
-- One challenge for both halves of the evidence: `attestation_all` of src/tpm.rs.
use tex_attestation_server.Prelude.{ℕ, ◌≡◌, refl, sym, ap, ◌∙◌, Option, some, ◌++◌}
use tex_attestation_server.Prelude.Result.{ok}
use tex_attestation_server.Prelude.Monad.{lift, >>=-split, ok-injective, map_err-eq-ok}
use tex_attestation_server.Text.{Bytes, Text, to_ascii_lowercase}
use tex_attestation_server.Outside.{System}
use tex_attestation_server.Attestation.{generate_tdx_report, tdreport_reportdata}
use tex_attestation_server.Attestation.Binding.{GuestDriver, padded, generate_tdx_report-binds}
use tex_attestation_server.Tpm.Types.{TdxEvidence, AttestationAllResponse}
use tex_attestation_server.Tpm.Config.{TpmConfig}
use tex_attestation_server.Tpm.Nonce.{normalize_nonce}
use tex_attestation_server.Tpm.Machine.{Host, Machine, on_world}
use tex_attestation_server.Tpm.Machine.Recording.{
  Noted, noting, noting_system, noting-Keeps, notes, noted, with_scratch-notes,
}
use tex_attestation_server.Tpm.Command.{ensure_ak}
use tex_attestation_server.Tpm.Command.Keeping.{ensure_ak-Kept}
use tex_attestation_server.Tpm.Cycle.Keeping.{pubkey_or_empty-Kept}
use tex_attestation_server.Tpm.Cycle.{
  measure_and_extend, create_quote, as_tpm_measurement, pubkey_or_empty,
}
use tex_attestation_server.Tpm.Cycle.Order.{
  quote_commands, measure_and_extend-notes, create_quote-notes, rest-notes, as_tpm_measurement-ok,
}
use tex_attestation_server.Tpm.Combined.Keeping.{DevicesKeep, tdx_evidence-Kept}
use tex_attestation_server.Tpm.Combined.{tdx_evidence, attestation_body, attestation_all}

module _ {W : Type 0} (sys : System W) where
  noting-DevicesKeep : DevicesKeep (noting_system sys) noted
  noting-DevicesKeep = record {
    open_keeps = λ path w. refl;
    ioctl_keeps = λ fd request bytes w. refl;
  }

  noting-GuestDriver : GuestDriver sys → GuestDriver (noting_system sys)
  noting-GuestDriver driver = record {
    echoes = λ fd data_in req w. driver.echoes fd data_in req w.0;
  }

module _ {W : Type 0} (h : Host W) (config : TpmConfig) where
  -- The TDX half: the report is one for the bytes of the nonce.
  abbrev pub BoundReport : Text → ℕ → Option TdxEvidence → Type 0
  BoundReport nonce size evidence =
      (bytes report : Bytes) × (h.crates.hex_decode nonce ≡ ok bytes)
      × (evidence
          ≡ some (record { report = h.crates.hex_encode report; nonce = nonce; nonce_size = size }))
      × (tdreport_reportdata report ≡ ok (padded bytes))

  tdx_evidence-binds :
      (nonce : Text) (size : ℕ) (m m' : Machine (Noted W)) (t : TdxEvidence)
      → GuestDriver h.system
      → tdx_evidence (noting h) config nonce size m ≡ (ok t, m')
      → BoundReport nonce size (some t)
  unfolding tdx_evidence
  tdx_evidence-binds nonce size m m' t driver eq =
      let (bytes, m1, e1, h1) = >>=-split (lift _) _ m eq in
      let (report, m2, e2, h2) =
        >>=-split (on_world (generate_tdx_report (noting_system h.system) bytes) _) _ m1 h1 in
      let bound =
        generate_tdx_report-binds (noting_system h.system) bytes report m1.world _
          (noting-GuestDriver h.system driver)
          (λ i. (
            map_err-eq-ok _ _ (λ j. (e2 j).0) i,
            (generate_tdx_report (noting_system h.system) bytes m1.world).1,
          )) in
      (bytes, report, map_err-eq-ok _ _ (λ i. (e1 i).0), ap some (sym (ok-injective h2).0), bound.2)

  attestation_body-binds :
      (nonce : Text) (size : ℕ) (scratch : Bytes) (m m' : Machine (Noted W))
      (r : AttestationAllResponse)
      → GuestDriver h.system
      → attestation_body (noting h) config nonce size scratch m ≡ (ok r, m')
      → (notes m' ≡ notes m ++ quote_commands h config r.measurement.total_hash nonce scratch)
        × (r.evidence.tpm.nonce ≡ to_ascii_lowercase nonce)
        × BoundReport nonce size r.evidence.tdx
  unfolding attestation_body
  attestation_body-binds nonce size scratch m m' r driver eq =
      let ((f, pcr), m1, e1, h1) =
        >>=-split (measure_and_extend (noting h) config scratch) _ m eq in
      let (_, m2, e2, h2) = >>=-split (ensure_ak (noting h) config scratch) _ m1 h1 in
      let ((ev, n), m3, e3, h3) =
        >>=-split (create_quote (noting h) config nonce scratch) _ m2 h2 in
      let (t, m4, e4, h4) = >>=-split (tdx_evidence (noting h) config nonce size) _ m3 h3 in
      let (pem, m5, e5, h5) = >>=-split (pubkey_or_empty (noting h) config scratch) _ m4 h4 in
      let (block, m6, e6, h6) = >>=-split (as_tpm_measurement (noting h) config f) _ m5 h5 in
      let (same, last) = ok-injective h6 in
      let measured = measure_and_extend-notes h config scratch m m1 f pcr e1 in
      let quoted = create_quote-notes h config nonce scratch m2 m3 ev n e3 in
      let stamped = as_tpm_measurement-ok h config f m5 m6 block e6 in
      let (bytes, report, decoded, is, bound) = tdx_evidence-binds nonce size m3 m4 t driver e4 in
      (
        rest-notes h config f.total_hash r.measurement.total_hash nonce scratch m m1 m2 m3 m'
            measured.1
            (ap notes (λ i. (sym e2 i).1)
              ∙ (ensure_ak-Kept (noting h) config noted (noting-Keeps h) scratch).kept m1)
            quoted.0
            (sym (ap notes last)
              ∙ sym stamped.0
              ∙ ap notes (λ i. (sym e5 i).1)
              ∙ (pubkey_or_empty-Kept (noting h) config noted (noting-Keeps h) scratch).kept m4
              ∙ ap notes (λ i. (sym e4 i).1)
              ∙ (tdx_evidence-Kept (noting h) config noted (noting-DevicesKeep h.system) nonce
                    size).kept
                  m3)
            (stamped.2 ∙ λ i. (same i).measurement.total_hash),
        (λ i. (sym same i).evidence.tpm.nonce) ∙ quoted.1,
        (bytes, report, decoded, (λ i. (sym same i).evidence.tdx) ∙ is, bound),
      )

  -- The nonce of a challenge, in the command of the quote, in the evidence of the TPM and in the
  -- report, with the commands noted in between.
  abbrev pub OneChallenge :
      Text → Machine (Noted W) → Machine (Noted W) → AttestationAllResponse → Type 0
  OneChallenge nonce_hex m m' r =
      (nonce : Text) × (size : ℕ) × (scratch : Bytes) × (normalize_nonce h.crates nonce_hex
        ≡ ok (nonce, size))
      × (notes m' ≡ notes m ++ quote_commands h config r.measurement.total_hash nonce scratch)
      × (r.evidence.tpm.nonce ≡ to_ascii_lowercase nonce)
      × BoundReport nonce size r.evidence.tdx

  -- Both halves of the evidence answer one challenge. If `attestation_all` succeeds, the TPM quote
  -- was asked for the normal form of the nonce, and the TDX report holds the same nonce, decoded and
  -- padded with zeros, in its REPORTDATA; in between the PCR was reset and extended once, by the
  -- total digest that the response reports. Assumed: the guest driver keeps the size of its struct
  -- and echoes REPORTDATA.
  pub attestation_all-binds :
      (nonce_hex : Text) (m m' : Machine (Noted W)) (r : AttestationAllResponse)
      → GuestDriver h.system
      → attestation_all (noting h) config nonce_hex m ≡ (ok r, m')
      → OneChallenge nonce_hex m m' r
  unfolding attestation_all
  attestation_all-binds nonce_hex m m' r driver eq =
      let ((nonce, size), m1, e1, h1) =
        >>=-split (lift (normalize_nonce h.crates nonce_hex)) _ m eq in
      let (dir, n, n', body, before, after) =
        with_scratch-notes h (attestation_body (noting h) config nonce size) m1 m' r h1 in
      let (noted, same, bound) = attestation_body-binds nonce size dir n n' r driver body in
      (
        nonce,
        size,
        dir,
        (λ i. (e1 i).0),
        sym after
            ∙ noted
            ∙ ap (λ l. l ++ quote_commands h config r.measurement.total_hash nonce dir)
                (before ∙ λ i. notes (sym e1 i).1),
        same,
        bound,
      )
