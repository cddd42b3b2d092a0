-- ===== src/Tpm/Machine/Scratch.antt =====
-- The scratch directories of src/tpm.rs: a host that also keeps the directories that were created
-- and whose removal was not yet asked for.
use tex_attestation_server.Prelude.{◌≡◌, refl, ap, ◌∙◌, List, [], ◌∷◌, if◌then◌else◌, inl, inr}
use tex_attestation_server.Prelude.Result.{Result, ok, err, Result-cases}
use tex_attestation_server.Text.{Bytes, equal, equal_iff}
use tex_attestation_server.Outside.{System}
use tex_attestation_server.Tpm.Machine.{
  Host, Tpm, new_scratch, drop_scratch, with_scratch, scratch_dir,
}
use tex_attestation_server.Tpm.Machine.Keeping.{Kept}

-- The world with the directories.
abbrev pub Tracked : Type 0 → Type 0
Tracked W = W × List Bytes

abbrev created : {E A : Type 0} → Result E A → Bytes → List Bytes → List Bytes
created (ok _) dir dirs = dir ∷ dirs
created (err _) dir dirs = dirs

-- Without the first such directory.
unfoldable pub removed : Bytes → List Bytes → List Bytes
removed dir [] = []
removed dir (d ∷ dirs) = if equal d dir then dirs else d ∷ removed dir dirs

abbrev aside : {W A E : Type 0} → (W → Result E A × W) → Tracked W → Result E A × Tracked W
aside f (w, dirs) = let (r, w') = f w in (r, (w', dirs))

abbrev pub tracking_system : {W : Type 0} → System W → System (Tracked W)
tracking_system sys = record {
  spawn = λ binary args. aside (sys.spawn binary args);
  read = λ path w. sys.read path w.0;
  write = λ path bytes. aside (sys.write path bytes);
  create_dir_all =
      λ path w. let (r, w') = sys.create_dir_all path w.0 in (r, (w', created r path w.1));
  remove_dir_all =
      λ path w. let (r, w') = sys.remove_dir_all path w.0 in (r, (w', removed path w.1));
  open_device = λ path. aside (sys.open_device path);
  ioctl = λ fd request bytes. aside (sys.ioctl fd request bytes);
  urandom = λ n. aside (sys.urandom n);
  temp_dir = sys.temp_dir;
  process_id = sys.process_id;
  now = λ w. sys.now w.0;
}

abbrev pub tracking : {W : Type 0} → Host W → Host (Tracked W)
tracking h = record {
  crates = h.crates;
  system = tracking_system h.system;
  disk = λ w. h.disk w.0;
  depth = h.depth;
}

-- The directories that are left.
abbrev pub left : {W : Type 0} → Tracked W → List Bytes
left w = w.1

removed-first : (dir : Bytes) (dirs : List Bytes) → removed dir (dir ∷ dirs) ≡ dirs
unfolding removed
removed-first dir dirs = rw ((equal_iff dir dir).1 refl) refl

-- A body that leaves the directories alone, in a scratch directory of its own, leaves them alone.
pub with_scratch-Kept :
    {W A : Type 0} (h : Host W) (body : Bytes → Tpm (Tracked W) A)
    → ((dir : Bytes) → Kept left (body dir))
    → Kept left (with_scratch (tracking h) body)
unfolding with_scratch new_scratch drop_scratch
with_scratch-Kept h body k = record {
  kept = λ m.
      elim (Result-cases
        (h.system.create_dir_all (scratch_dir (tracking h) m.scratch_counter) m.world.0).0) [
          | inr (e, bad) ↦ rw bad refl
          | inl (u, good) ↦ rw good (
              let dir = scratch_dir (tracking h) m.scratch_counter in
              ap (removed dir) ((k dir).kept _) ∙ removed-first dir m.world.1)
        ];
}
