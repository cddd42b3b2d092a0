-- ===== src/Tpm/Command/Keeping.antt =====
-- What the commands of src/tpm.rs leave as it was.
use tex_attestation_server.Prelude.{
  ◌≡◌, refl, inl, inr, Bool-cases, Option-cases, false, none, List, ◌++◌, arith,
}
use tex_attestation_server.Prelude.Result.{ok}
use tex_attestation_server.Text.{Bytes, Text, lit}
use tex_attestation_server.Text.Decimal.{decimal}
use tex_attestation_server.Tpm.Config.{TpmConfig}
use tex_attestation_server.Tpm.Machine.{Host, join}
use tex_attestation_server.Tpm.Machine.Keeping.{
  is_noted, Kept, Keeps, >>=-Kept, lift-Kept, arg-Kept,
}
use tex_attestation_server.Tpm.Command.{
  binary_of, tpm2, ensure_ready, flush_transient, reset_pcr, extend_pcr, read_output, read_pcr,
  create_ak, ensure_ak, lists_handle, cache_pubkey, fetch_pubkey, ak_pubkey,
}

module _ {W X : Type 0} (h : Host W) (config : TpmConfig) (obs : W → X) where
  -- A program that keeps what is observed, whatever its arguments are.
  abbrev pub ProgramKeeps : Text → Type 0
  ProgramKeeps sub =
      (args : List Text) (w : W) → obs (h.system.spawn (binary_of sub) args w).1 ≡ obs w

  pub program-Kept :
      (sub : Text) (args : List Text) → ProgramKeeps sub → Kept obs (tpm2 h config sub args)
  unfolding tpm2
  program-Kept sub args k = record { kept = λ m. k _ m.world }

  pub reset_pcr-Kept : ProgramKeeps (lit "pcrreset") → Kept obs (reset_pcr h config)
  unfolding reset_pcr
  reset_pcr-Kept k = record { kept = (program-Kept (lit "pcrreset") _ k).kept }

  pub extend_pcr-Kept :
      (digest : Text) → ProgramKeeps (lit "pcrextend") → Kept obs (extend_pcr h config digest)
  unfolding extend_pcr
  extend_pcr-Kept digest k = >>=-Kept (program-Kept (lit "pcrextend") _ k) λ _. lift-Kept (ok tt)

  pub read_output-Kept : (path : Bytes) (a b : Text) → Kept obs (read_output h config path a b)
  unfolding read_output
  read_output-Kept path a b = record { kept = λ m. ground arith }

  cache_pubkey-Kept : (scratch : Bytes) → Kept obs (cache_pubkey h config scratch)
  unfolding cache_pubkey
  cache_pubkey-Kept scratch = record { kept = λ m. ground arith }

  module _ (keeps : Keeps h obs) where
    pub tpm2-Kept :
        (sub : Text) (args : List Text)
        → is_noted (binary_of sub) ≡ false
        → Kept obs (tpm2 h config sub args)
    tpm2-Kept sub args e = program-Kept sub args λ a w. keeps.spawn_keeps (binary_of sub) a w e

    pub ensure_ready-Kept : Kept obs (ensure_ready h config)
    unfolding ensure_ready is_noted binary_of lit
    ensure_ready-Kept = record { kept = (tpm2-Kept (lit "startup") _ refl).kept }

    pub flush_transient-Kept : Kept obs (flush_transient h config)
    unfolding flush_transient is_noted binary_of lit
    flush_transient-Kept = record { kept = (tpm2-Kept (lit "flushcontext") _ refl).kept }

    pub pcrread-Kept : (args : List Text) → Kept obs (tpm2 h config (lit "pcrread") args)
    unfolding is_noted binary_of lit
    pcrread-Kept args = tpm2-Kept (lit "pcrread") args refl

    pub read_pcr-Kept : (scratch : Bytes) → Kept obs (read_pcr h config scratch)
    unfolding read_pcr
    read_pcr-Kept scratch = >>=-Kept (arg-Kept scratch _) λ output. >>=-Kept (pcrread-Kept _) λ _.
        >>=-Kept
          (read_output-Kept (join scratch (lit "pcr.bin"))
            (lit "PCR " ++ (decimal config.pcr_index ++ lit " output cannot be read: "))
            (lit "PCR " ++ (decimal config.pcr_index ++ lit " read returned no data")))
          λ bytes. lift-Kept (ok (h.crates.hex_encode bytes))

    create_ak-Kept : (scratch : Bytes) → Kept obs (create_ak h config scratch)
    unfolding create_ak is_noted binary_of lit
    create_ak-Kept scratch = >>=-Kept (arg-Kept scratch _) λ _. >>=-Kept (arg-Kept scratch _) λ _.
        >>=-Kept (arg-Kept scratch _) λ _. >>=-Kept (arg-Kept scratch _) λ _.
          >>=-Kept flush_transient-Kept λ _. >>=-Kept (tpm2-Kept (lit "createek") _ refl) λ _.
            >>=-Kept flush_transient-Kept λ _. >>=-Kept (tpm2-Kept (lit "createak") _ refl) λ _.
              >>=-Kept flush_transient-Kept
                λ _. >>=-Kept (tpm2-Kept (lit "evictcontrol") _ refl) λ _. flush_transient-Kept

    pub ensure_ak-Kept : (scratch : Bytes) → Kept obs (ensure_ak h config scratch)
    unfolding ensure_ak is_noted binary_of lit
    ensure_ak-Kept scratch = >>=-Kept (tpm2-Kept (lit "getcap") _ refl) λ handles.
        elim (Bool-cases (lists_handle handles config.ak_handle)) [
          | inl present ↦ rw present (lift-Kept (ok tt))
          | inr absent ↦ rw absent (create_ak-Kept scratch)
        ]

    fetch_pubkey-Kept : (scratch : Bytes) → Kept obs (fetch_pubkey h config scratch)
    unfolding fetch_pubkey is_noted binary_of lit
    fetch_pubkey-Kept scratch = >>=-Kept flush_transient-Kept λ _.
        >>=-Kept (arg-Kept scratch _)
          λ path. >>=-Kept (tpm2-Kept (lit "readpublic") _ refl) λ _. cache_pubkey-Kept scratch

    pub ak_pubkey-Kept : (scratch : Bytes) → Kept obs (ak_pubkey h config scratch)
    unfolding ak_pubkey
    ak_pubkey-Kept scratch = record {
      kept = λ m. elim (Option-cases m.ak_pubkey) [
        | inl nothing ↦
            rw nothing ((fetch_pubkey-Kept scratch).kept (record m { ak_pubkey = none }))
        | inr (key, cached) ↦ rw cached refl
      ];
    }
