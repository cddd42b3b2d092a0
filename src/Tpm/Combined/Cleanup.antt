-- ===== src/Tpm/Combined/Cleanup.antt =====
-- The scratch directories of the transactions of src/tpm.rs.
use tex_attestation_server.Prelude.{◌≡◌, refl}
use tex_attestation_server.Text.{Text, lit}
use tex_attestation_server.Tpm.Types.{AttestationAllResponse}
use tex_attestation_server.Tpm.Config.{TpmConfig}
use tex_attestation_server.Tpm.Nonce.{normalize_nonce}
use tex_attestation_server.Tpm.Machine.{Host, Machine, Tpm}
use tex_attestation_server.Tpm.Machine.Keeping.{Kept, Keeps, >>=-Kept, lift-Kept}
use tex_attestation_server.Tpm.Machine.Scratch.{Tracked, tracking, left, with_scratch-Kept}
use tex_attestation_server.Tpm.Command.Keeping.{ProgramKeeps}
use tex_attestation_server.Tpm.Cycle.{information_tpm, quote_tpm}
use tex_attestation_server.Tpm.Cycle.Keeping.{information_body-Kept, quote_body-Kept}
use tex_attestation_server.Tpm.Combined.{attestation_all, verify_quote, verify_all}
use tex_attestation_server.Tpm.Combined.Keeping.{
  DevicesKeep, attestation_body-Kept, verify_quote_body-Kept, verify_all-Kept,
}

module _ {W : Type 0} (h : Host W) (config : TpmConfig) where
  tracking-Keeps : Keeps (tracking h) left
  tracking-Keeps = record { spawn_keeps = λ binary args w e. refl }

  tracking-DevicesKeep : DevicesKeep (tracking h).system left
  tracking-DevicesKeep = record {
    open_keeps = λ path w. refl;
    ioctl_keeps = λ fd request bytes w. refl;
  }

  tracking-ProgramKeeps : (sub : Text) → ProgramKeeps (tracking h) config left sub
  tracking-ProgramKeeps sub args w = refl

  information_tpm-Kept : Kept left (information_tpm (tracking h) config)
  unfolding information_tpm
  information_tpm-Kept = with_scratch-Kept h _ λ dir.
      information_body-Kept (tracking h) config left tracking-Keeps
        (tracking-ProgramKeeps (lit "pcrreset")) (tracking-ProgramKeeps (lit "pcrextend"))
        (tracking-ProgramKeeps (lit "quote")) dir

  quote_tpm-Kept : (nonce : Text) → Kept left (quote_tpm (tracking h) config nonce)
  unfolding quote_tpm
  quote_tpm-Kept nonce = >>=-Kept (lift-Kept (normalize_nonce h.crates nonce)) λ n.
      with_scratch-Kept h _ λ dir.
        quote_body-Kept (tracking h) config left tracking-Keeps
          (tracking-ProgramKeeps (lit "pcrreset")) (tracking-ProgramKeeps (lit "pcrextend"))
          (tracking-ProgramKeeps (lit "quote")) n.0 dir

  attestation_all-Kept : (nonce : Text) → Kept left (attestation_all (tracking h) config nonce)
  unfolding attestation_all
  attestation_all-Kept nonce = >>=-Kept (lift-Kept (normalize_nonce h.crates nonce)) λ n.
      with_scratch-Kept h _ λ dir.
        attestation_body-Kept (tracking h) config left tracking-DevicesKeep n.0 n.1 dir
          tracking-Keeps tracking-ProgramKeeps

  verify_quote-Kept :
      (request : AttestationAllResponse) → Kept left (verify_quote (tracking h) config request)
  unfolding verify_quote
  verify_quote-Kept request = with_scratch-Kept h _ λ dir.
      verify_quote_body-Kept (tracking h) config left tracking-DevicesKeep request dir
        tracking-Keeps (λ path bytes w. refl)

  -- The directories that a transaction leaves behind are those that were there.
  abbrev pub LeavesNone : {A : Type 0} → Tpm (Tracked W) A → Machine (Tracked W) → Type 0
  LeavesNone f m = left (f m).1.world ≡ left m.world

  -- No transaction leaves a scratch directory behind: whatever the programs, the files and the devices
  -- answer, the removal of every directory that the information, a quote, a combined attestation or
  -- a verification created was asked for when it ends, with a result or with an error.
  pub transactions-LeavesNone :
      (nonce : Text) (request : AttestationAllResponse) (m : Machine (Tracked W))
      → LeavesNone (information_tpm (tracking h) config) m
        × LeavesNone (quote_tpm (tracking h) config nonce) m
        × LeavesNone (attestation_all (tracking h) config nonce) m
        × LeavesNone (verify_all (tracking h) config request) m
  transactions-LeavesNone nonce request m = (
    information_tpm-Kept.kept m,
    (quote_tpm-Kept nonce).kept m,
    (attestation_all-Kept nonce).kept m,
    (verify_all-Kept (tracking h) config left tracking-DevicesKeep request
          (verify_quote-Kept request)).kept
        m,
  )
