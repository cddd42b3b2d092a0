-- ===== src/Tpm/Machine.antt =====
-- The state behind the TPM backend of src/tpm.rs, and its scratch directory. One transaction holds
-- the lock of `TpmState` from its start to its end, so it is a function on this state.
pub mod Recording
pub mod Keeping
pub mod Scratch
pub mod Leaving
pub mod Apart
use tex_attestation_server.Prelude.{
  ℕ, ◌+◌, ◌^◌, ◌%◌, ◌≡◌, Bool, true, false, Option, none, some, List, [], ◌∷◌, ◌++◌, if◌then◌else◌,
}
use tex_attestation_server.Prelude.Result
use tex_attestation_server.Prelude.Result.{Result, ok, err, map_err}
use tex_attestation_server.Prelude.Monad.{M, pure, raise, ◌>>=◌, lift}
use tex_attestation_server.Text.{Bytes, Text, lit}
use tex_attestation_server.Text.Utf8.{utf8_valid, from_utf8_lossy}
use tex_attestation_server.Text.Search.{ends_with}
use tex_attestation_server.Text.Decimal.{decimal}
use tex_attestation_server.Outside.{Crates, System, IoError}
use tex_attestation_server.Tpm.Types.{TpmError, internal}
use tex_attestation_server.Tpm.Folder.{Files}

-- All that the backend calls: the crates, the system, and the disk at a state of the world, whose
-- directories are nested `depth` deep at most.
pub record Host (W : Type 0) : Type 0 where
  pub crates : Crates
  pub system : System W
  pub disk : W → Files
  pub depth : ℕ

-- `SCRATCH_COUNTER`, and `TpmInner` behind the lock.
pub record Machine (W : Type 0) : Type 0 where
  pub world : W
  pub scratch_counter : ℕ
  pub ak_pubkey : Option Text

abbrev pub Tpm : Type 0 → Type 0 → Type 0
Tpm W A = M (Machine W) TpmError A

-- A call of the system, in the world of the machine.
abbrev pub on_world : {W A E : Type 0} → (W → Result E A × W) → (E → TpmError) → Tpm W A
on_world f wrap m = let (r, w) = f m.world in (map_err wrap r, record m { world = w })

-- `dir.join(name)` for a relative name.
unfoldable pub join : Bytes → Text → Bytes
join dir name = if ends_with dir (b'/' ∷ []) then dir ++ name else dir ++ b'/' ∷ name

-- The scratch directory that a counter value names.
unfoldable pub scratch_dir : {W : Type 0} → Host W → ℕ → Bytes
scratch_dir h counter =
    join h.system.temp_dir
      (lit "tdx-tpm-" ++ (decimal h.system.process_id ++ b'-' ∷ decimal counter))

-- `Scratch::path` and `Scratch::arg`; the error leaves out the debug print of the path.
unfoldable pub arg : {W : Type 0} → Bytes → Text → Tpm W Text
arg dir name =
    if utf8_valid (join dir name)
    then pure (join dir name)
    else raise (internal (lit "temporary path is not valid UTF-8"))

module _ {W : Type 0} (h : Host W) where
  abbrev create_error : Bytes → IoError → TpmError
  create_error dir e = internal (
      lit "temporary directory "
      ++ (from_utf8_lossy dir ++ (lit " cannot be created: " ++ e.message)))

  -- `Scratch::new`. The counter is an `AtomicU64`.
  unfoldable pub new_scratch : Tpm W Bytes
  new_scratch m =
      let dir = scratch_dir h m.scratch_counter in
      let counted = record m { scratch_counter = (m.scratch_counter + 1) % 2 ^ 64 } in
      let (r, m') = on_world (h.system.create_dir_all dir) (create_error dir) counted in
      (Result.map (λ _. dir) r, m')

  -- `Drop for Scratch`: the error is ignored.
  unfoldable pub drop_scratch : Bytes → Machine W → Machine W
  drop_scratch dir m = record m { world = (h.system.remove_dir_all dir m.world).1 }

  -- A body with a scratch directory of its own, which is dropped however the body ends.
  unfoldable pub with_scratch : {A : Type 0} → (Bytes → Tpm W A) → Tpm W A
  unfolding new_scratch drop_scratch
  with_scratch body = do
    dir ← new_scratch
    λ m. let (r, m') = body dir m in (r, drop_scratch dir m')
