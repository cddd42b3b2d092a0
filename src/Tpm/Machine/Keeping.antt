-- ===== src/Tpm/Machine/Keeping.antt =====
-- What the backend of src/tpm.rs leaves as it was: an observation of the world that a computation
-- keeps, however it ends.
use tex_attestation_server.Prelude.{◌≡◌, refl, sym, ◌∙◌, ap, Bool, false, any, List, [], ◌∷◌, arith}
use tex_attestation_server.Prelude.Result.{Result, ok, err}
use tex_attestation_server.Prelude.Monad.{◌>>=◌, continue, lift, >>=-eq-ok}
use tex_attestation_server.Text.{Bytes, Text, lit, equal}
use tex_attestation_server.Tpm.Types.{TpmError}
use tex_attestation_server.Tpm.Machine.{
  Host, Machine, Tpm, arg, join, new_scratch, drop_scratch, with_scratch,
}

-- The commands that reset, extend and quote a PCR.
unfoldable pub is_noted : Text → Bool
unfolding lit equal
is_noted binary =
    any (equal binary) (lit "tpm2_pcrreset" ∷ lit "tpm2_pcrextend" ∷ lit "tpm2_quote" ∷ [])

-- A computation that keeps what is observed of the world.
pub record Kept {W X A : Type 0} (obs : W → X) (f : Tpm W A) : Type 0 where
  pub kept : (m : Machine W) → obs (f m).1.world ≡ obs m.world

-- A host whose programs, but for those that change or quote a PCR, keep what is observed.
pub record Keeps {W X : Type 0} (h : Host W) (obs : W → X) : Type 0 where
  pub spawn_keeps :
      (binary : Text) (args : List Text) (w : W)
      → is_noted binary ≡ false
      → obs (h.system.spawn binary args w).1 ≡ obs w

arg-world :
    {W : Type 0} (dir : Bytes) (name : Text) (m : Machine W) → (arg dir name m).1.world ≡ m.world
unfolding arg
arg-world dir name m = ground arith

pub arg-ok :
    {W : Type 0} (dir : Bytes) (name p : Text) (m : Machine W)
    → (arg dir name m).0 ≡ ok p
    → p ≡ join dir name
unfolding arg
arg-ok dir name p m h = ground arith

module _ {W X : Type 0} {obs : W → X} where
  continue-Kept :
      {A B : Type 0} (r : Result TpmError A) (g : A → Tpm W B) (m : Machine W)
      → ((a : A) → Kept obs (g a))
      → obs (continue r g m).1.world ≡ obs m.world
  continue-Kept (ok a) g m k = (k a).kept m
  continue-Kept (err e) g m k = refl

  pub continue_at :
      {A B : Type 0} (f : Tpm W A) (g : A → Tpm W B) (m : Machine W)
      → ((a : A) → Kept obs (g a))
      → obs ((f >>= g) m).1.world ≡ obs (f m).1.world
  continue_at f g m k = continue-Kept (f m).0 g (f m).1 k

  pub >>=-Kept :
      {A B : Type 0} {f : Tpm W A} {g : A → Tpm W B}
      → Kept obs f
      → ((a : A) → Kept obs (g a))
      → Kept obs (f >>= g)
  >>=-Kept k l = record { kept = λ m. continue-Kept _ _ _ l ∙ k.kept m }

  pub lift-Kept : {A : Type 0} (r : Result TpmError A) → Kept obs (lift r)
  lift-Kept r = record { kept = λ m. refl }

  pub arg-Kept : (dir : Bytes) (name : Text) → Kept obs (arg dir name)
  arg-Kept dir name = record { kept = λ m. ap obs (arg-world dir name m) }

-- A host on which a scratch directory comes and goes without a change of what is observed.
pub record ScratchKeeps {W X : Type 0} (h : Host W) (obs : W → X) : Type 0 where
  pub create_keeps : (dir : Bytes) (w : W) → obs (h.system.create_dir_all dir w).1 ≡ obs w
  pub remove_keeps : (dir : Bytes) (w : W) → obs (h.system.remove_dir_all dir w).1 ≡ obs w

-- A transaction that succeeds: its body succeeds, and what is observed around it is the same.
pub with_scratch-kept :
    {W X A : Type 0} (h : Host W) (obs : W → X) (body : Bytes → Tpm W A) (m m' : Machine W) (a : A)
    → ScratchKeeps h obs
    → with_scratch h body m ≡ (ok a, m')
    → (dir : Bytes) × (n n' : Machine W) × (body dir n ≡ (ok a, n'))
      × (obs n.world ≡ obs m.world)
      × (obs n'.world ≡ obs m'.world)
unfolding with_scratch new_scratch drop_scratch
with_scratch-kept h obs body m m' a keeps e =
    let (dir, e1, e2) = >>=-eq-ok (new_scratch h) _ m e in
    let n = (new_scratch h m).1 in
    (
      dir,
      n,
      (body dir n).1,
      λ i. ((e2 i).0, (body dir n).1),
      keeps.create_keeps _ m.world,
      sym (keeps.remove_keeps dir (body dir n).1.world) ∙ λ i. obs (e2 i).1.world,
    )
