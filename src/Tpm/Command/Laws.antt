-- ===== src/Tpm/Command/Laws.antt =====
-- What the commands of src/tpm.rs note on a host that notes the PCR commands.
use tex_attestation_server.Prelude.{◌≡◌, refl, ◌∙◌, true, List, [], ◌∷◌, ◌++◌}
use tex_attestation_server.Prelude.Result.{ok}
use tex_attestation_server.Text.{Text, lit}
use tex_attestation_server.Text.Decimal.{decimal}
use tex_attestation_server.Tpm.Config.{TpmConfig}
use tex_attestation_server.Tpm.Machine.{Host, Machine}
use tex_attestation_server.Tpm.Machine.Keeping.{is_noted, continue_at, lift-Kept}
use tex_attestation_server.Tpm.Machine.Recording.{Command, Noted, noting, notes, noted}
use tex_attestation_server.Tpm.Command.{
  binary_of, tcti_option, tpm2, reset_pcr, extend_spec, extend_pcr,
}

module _ {W : Type 0} (h : Host W) (config : TpmConfig) where
  -- A command of the module, as it is noted.
  abbrev pub command : Text → List Text → Command
  command sub args = (binary_of sub, args ++ tcti_option config ∷ [])

  pub tpm2-notes :
      (sub : Text) (args : List Text) (m : Machine (Noted W))
      → is_noted (binary_of sub) ≡ true
      → notes (tpm2 (noting h) config sub args m).1 ≡ notes m ++ command sub args ∷ []
  unfolding tpm2
  tpm2-notes sub args m e = rw e

  pub reset_pcr-notes :
      (m : Machine (Noted W))
      → notes (reset_pcr (noting h) config m).1
        ≡ notes m ++ command (lit "pcrreset") (decimal config.pcr_index ∷ []) ∷ []
  unfolding reset_pcr is_noted binary_of lit
  reset_pcr-notes m = tpm2-notes (lit "pcrreset") _ m refl

  pub extend_pcr-notes :
      (digest : Text) (m : Machine (Noted W))
      → notes (extend_pcr (noting h) config digest m).1
        ≡ notes m ++ command (lit "pcrextend") (extend_spec (noting h) config digest ∷ []) ∷ []
  unfolding extend_pcr is_noted binary_of lit
  extend_pcr-notes digest m =
      let args = extend_spec (noting h) config digest ∷ [] in
      continue_at {obs = noted} (tpm2 (noting h) config (lit "pcrextend") args) _ m
        (λ _. lift-Kept (ok tt))
      ∙ tpm2-notes (lit "pcrextend") args m refl
