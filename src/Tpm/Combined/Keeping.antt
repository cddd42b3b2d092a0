-- ===== src/Tpm/Combined/Keeping.antt =====
-- What a TDX report leaves as it was: src/attestation.rs, called from src/tpm.rs.
use tex_attestation_server.Prelude.{ℕ, ◌≡◌, refl, ◌∙◌, List, ◌&&◌}
use tex_attestation_server.Prelude.Result.{Result, ok, err}
use tex_attestation_server.Prelude.Monad.{M, continue, ◌>>=◌, lift}
use tex_attestation_server.Text.{Bytes, Text, lit}
use tex_attestation_server.Outside.{System}
use tex_attestation_server.Attestation.{
  open_device, ioctl, report_data_from, generate_tdx_report, check_length,
  verify_tdx_report_hardware, verify_tdx_report,
}
use tex_attestation_server.Tpm.Types.{from_attestation, AttestationAllResponse}
use tex_attestation_server.Tpm.Config.{TpmConfig}
use tex_attestation_server.Tpm.Machine.{Host, on_world}
use tex_attestation_server.Tpm.Machine.Keeping.{
  is_noted, Kept, Keeps, arg-Kept, >>=-Kept, lift-Kept,
}
use tex_attestation_server.Tpm.Command.Keeping.{ProgramKeeps, ensure_ak-Kept}
use tex_attestation_server.Tpm.Cycle.Keeping.{
  measure_and_extend-Kept, create_quote-Kept, pubkey_or_empty-Kept, as_tpm_measurement-Kept,
}
use tex_attestation_server.Tpm.Combined.{
  decode_blob, checkquote_args, required_tdx, decode_report, tdx_evidence, attestation_body,
  write_file, run_checkquote, verify_quote_body, verify_quote, verify_all,
}

-- A call of the TDX backend that keeps what is observed.
record Still {W X E A : Type 0} (obs : W → X) (f : M W E A) : Type 0 where
  still : (w : W) → obs (f w).1 ≡ obs w

-- Devices that keep what is observed.
pub record DevicesKeep {W X : Type 0} (sys : System W) (obs : W → X) : Type 0 where
  pub open_keeps : (path : Text) (w : W) → obs (sys.open_device path w).1 ≡ obs w
  pub ioctl_keeps :
      (fd request : ℕ) (bytes : Bytes) (w : W) → obs (sys.ioctl fd request bytes w).1 ≡ obs w

-- A host on which a file is written without a change of what is observed.
abbrev pub WritesKeep : {W X : Type 0} → Host W → (W → X) → Type 0
WritesKeep h obs =
    (path : Text) (bytes : Bytes) (w : _) → obs (h.system.write path bytes w).1 ≡ obs w

module _ {W X : Type 0} {obs : W → X} where
  continue-Still :
      {E A B : Type 0} (r : Result E A) (f : A → M W E B) (w : W)
      → ((a : A) → Still obs (f a))
      → obs (continue r f w).1 ≡ obs w
  continue-Still (ok a) f w q = (q a).still w
  continue-Still (err e) f w q = refl

  >>=-Still :
      {E A B : Type 0} {f : M W E A} {g : A → M W E B}
      → Still obs f
      → ((a : A) → Still obs (g a))
      → Still obs (f >>= g)
  >>=-Still q r = record { still = λ w. continue-Still _ _ _ r ∙ q.still w }

  lift-Still : {E A : Type 0} (r : Result E A) → Still obs (lift r)
  lift-Still r = record { still = λ w. refl }

module _ {W X : Type 0} (sys : System W) (obs : W → X) (keeps : DevicesKeep sys obs) where
  open-Still : (path : Text) → Still obs (open_device sys path)
  unfolding open_device
  open-Still path = record { still = λ w. keeps.open_keeps path w }

  ioctl-Still :
      (fd request : ℕ) (bytes : Bytes) (what : Text) → Still obs (ioctl sys fd request bytes what)
  unfolding ioctl
  ioctl-Still fd request bytes what = record { still = λ w. keeps.ioctl_keeps fd request bytes w }

  generate-Still : (nonce : Bytes) → Still obs (generate_tdx_report sys nonce)
  unfolding generate_tdx_report
  generate-Still nonce =
      >>=-Still (lift-Still (report_data_from nonce)) λ data_in.
        >>=-Still (open-Still _) λ fd. >>=-Still (ioctl-Still _ _ _ _) λ req. lift-Still _

  verify-Still : (report : Bytes) → Still obs (verify_tdx_report sys report)
  unfolding verify_tdx_report verify_tdx_report_hardware
  verify-Still report =
      >>=-Still
        (>>=-Still (lift-Still (check_length report))
          λ u. >>=-Still (open-Still _) λ fd. >>=-Still (ioctl-Still _ _ _ _) λ req. lift-Still _)
        λ status. lift-Still _

  verify-Kept :
      (report : Bytes) → Kept obs (on_world (verify_tdx_report sys report) from_attestation)
  verify-Kept report = record { kept = λ m. (verify-Still report).still m.world }

  generate-Kept :
      (bytes : Bytes) → Kept obs (on_world (generate_tdx_report sys bytes) from_attestation)
  generate-Kept bytes = record { kept = λ m. (generate-Still bytes).still m.world }

module _ {W X : Type 0} (h : Host W) (config : TpmConfig) (obs : W → X)
    (keeps : DevicesKeep h.system obs) where
  pub tdx_evidence-Kept : (nonce : Text) (size : ℕ) → Kept obs (tdx_evidence h config nonce size)
  unfolding tdx_evidence
  tdx_evidence-Kept nonce size =
      >>=-Kept (lift-Kept _)
        λ bytes. >>=-Kept (generate-Kept h.system obs keeps bytes) λ report. lift-Kept _

  write_file-Kept :
      (path : Text) (bytes : Bytes) (problem : Text)
      → WritesKeep h obs
      → Kept obs (write_file h config path bytes problem)
  unfolding write_file
  write_file-Kept path bytes problem k = record { kept = λ m. k path bytes m.world }

  run_checkquote-Kept : (args : List Text) → Keeps h obs → Kept obs (run_checkquote h config args)
  unfolding run_checkquote is_noted lit
  run_checkquote-Kept args k = record {
    kept = λ m. k.spawn_keeps (lit "tpm2_checkquote") args m.world refl;
  }

  pub verify_quote_body-Kept :
      (request : AttestationAllResponse) (scratch : Bytes)
      → Keeps h obs
      → WritesKeep h obs
      → Kept obs (verify_quote_body h config request scratch)
  unfolding verify_quote_body
  verify_quote_body-Kept request scratch k w =
      let tpm = request.evidence.tpm in
      >>=-Kept (lift-Kept (decode_blob h.crates tpm.signature)) λ s.
        >>=-Kept (lift-Kept (decode_blob h.crates tpm.message)) λ g.
          >>=-Kept (arg-Kept scratch (lit "verify.sig")) λ p.
            >>=-Kept (arg-Kept scratch (lit "verify.msg")) λ q.
              >>=-Kept (arg-Kept scratch (lit "verify.ak.pem")) λ a.
                >>=-Kept (write_file-Kept p s (lit "quote signature cannot be written: ") w) λ _.
                  >>=-Kept (write_file-Kept q g (lit "quote message cannot be written: ") w) λ _.
                    >>=-Kept
                      (write_file-Kept a request.ak_pubkey
                        (lit "Attestation Key public part cannot be written: ") w)
                      λ _. run_checkquote-Kept (checkquote_args h config tpm a q p) k

  pub verify_all-Kept :
      (request : AttestationAllResponse)
      → Kept obs (verify_quote h config request)
      → Kept obs (verify_all h config request)
  unfolding verify_all
  verify_all-Kept request k =
      >>=-Kept (lift-Kept (required_tdx h config request.evidence.tdx)) λ tdx.
        >>=-Kept (lift-Kept (decode_report h.crates tdx)) λ report.
          >>=-Kept (verify-Kept h.system obs keeps report) λ t.
            >>=-Kept k
              λ q. lift-Kept (ok (record { trusted = q && t; tpm_trusted = q; tdx_trusted = t }))

  pub attestation_body-Kept :
      (nonce : Text) (size : ℕ) (scratch : Bytes)
      → Keeps h obs
      → ((sub : Text) → ProgramKeeps h config obs sub)
      → Kept obs (attestation_body h config nonce size scratch)
  unfolding attestation_body
  attestation_body-Kept nonce size scratch k all =
      >>=-Kept (measure_and_extend-Kept h config obs k (all _) (all _) (all _) scratch) λ r.
        >>=-Kept (ensure_ak-Kept h config obs k scratch) λ _.
          >>=-Kept (create_quote-Kept h config obs k nonce scratch (all _)) λ e.
            >>=-Kept (tdx_evidence-Kept nonce size) λ t.
              >>=-Kept (pubkey_or_empty-Kept h config obs k scratch)
                λ pem. >>=-Kept (as_tpm_measurement-Kept h config obs r.0) λ block. lift-Kept _
