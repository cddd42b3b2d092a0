-- ===== src/Tpm/Machine/Recording.antt =====
-- A host that also notes the commands that change or attest the PCRs, in the order of their calls.
use tex_attestation_server.Prelude.{◌≡◌, refl, List, [], ◌∷◌, ◌++◌, if◌then◌else◌}
use tex_attestation_server.Prelude.Result.{Result, ok}
use tex_attestation_server.Text.{Bytes, Text}
use tex_attestation_server.Outside.{System}
use tex_attestation_server.Tpm.Machine.Keeping.{is_noted, Keeps, with_scratch-kept}
use tex_attestation_server.Tpm.Machine.{Host, Machine, Tpm, with_scratch}

-- A program and its arguments.
abbrev pub Command : Type 0
Command = Text × List Text

-- The world with the notes.
abbrev pub Noted : Type 0 → Type 0
Noted W = W × List Command

abbrev note : Text → List Text → List Command → List Command
note binary args log = if is_noted binary then log ++ (binary, args) ∷ [] else log

-- A call that notes nothing.
abbrev aside : {W A E : Type 0} → (W → Result E A × W) → Noted W → Result E A × Noted W
aside f (w, log) = let (r, w') = f w in (r, (w', log))

abbrev pub noting_system : {W : Type 0} → System W → System (Noted W)
noting_system sys = record {
  spawn =
      λ binary args w. let (r, w') = sys.spawn binary args w.0 in (r, (w', note binary args w.1));
  read = λ path w. sys.read path w.0;
  write = λ path bytes. aside (sys.write path bytes);
  create_dir_all = λ path. aside (sys.create_dir_all path);
  remove_dir_all = λ path. aside (sys.remove_dir_all path);
  open_device = λ path. aside (sys.open_device path);
  ioctl = λ fd request bytes. aside (sys.ioctl fd request bytes);
  urandom = λ n. aside (sys.urandom n);
  temp_dir = sys.temp_dir;
  process_id = sys.process_id;
  now = λ w. sys.now w.0;
}

abbrev pub noting : {W : Type 0} → Host W → Host (Noted W)
noting h = record {
  crates = h.crates;
  system = noting_system h.system;
  disk = λ w. h.disk w.0;
  depth = h.depth;
}

abbrev pub notes : {W : Type 0} → Machine (Noted W) → List Command
notes m = m.world.1

-- What is observed of a noting host.
abbrev pub noted : {W : Type 0} → Noted W → List Command
noted w = w.1

pub noting-Keeps : {W : Type 0} (h : Host W) → Keeps (noting h) noted
noting-Keeps h = record { spawn_keeps = λ binary args w e. rw e refl }

module _ {W : Type 0} where
  pub with_scratch-notes :
      {A : Type 0} (h : Host W) (body : Bytes → Tpm (Noted W) A) (m m' : Machine (Noted W)) (a : A)
      → with_scratch (noting h) body m ≡ (ok a, m')
      → (dir : Bytes) × (n n' : Machine (Noted W)) × (body dir n ≡ (ok a, n'))
        × (notes n ≡ notes m)
        × (notes n' ≡ notes m')
  with_scratch-notes h body m m' a e =
      with_scratch-kept (noting h) noted body m m' a
        (record { create_keeps = λ dir w. refl; remove_keeps = λ dir w. refl }) e
