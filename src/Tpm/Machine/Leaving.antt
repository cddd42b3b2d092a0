-- ===== src/Tpm/Machine/Leaving.antt =====
-- What of the backend of src/tpm.rs leaves the cache of the Attestation Key as it is.
use tex_attestation_server.Prelude.{◌≡◌, refl, ◌∙◌, arith}
use tex_attestation_server.Prelude.Result.{Result, ok, err}
use tex_attestation_server.Prelude.Monad.{◌>>=◌, continue, lift}
use tex_attestation_server.Text.{Bytes, Text}
use tex_attestation_server.Tpm.Types.{TpmError}
use tex_attestation_server.Tpm.Machine.{Machine, Tpm, arg, on_world}

-- A computation that leaves the cache as it is.
pub record Leaves {W A : Type 0} (f : Tpm W A) : Type 0 where
  pub left : (m : Machine W) → (f m).1.ak_pubkey ≡ m.ak_pubkey

continue-left :
    {W A B : Type 0} (r : Result TpmError A) (g : A → Tpm W B) (m : Machine W)
    → ((a : A) → Leaves (g a))
    → (continue r g m).1.ak_pubkey ≡ m.ak_pubkey
continue-left (ok a) g m l = (l a).left m
continue-left (err e) g m l = refl

pub >>=-Leaves :
    {W A B : Type 0} {f : Tpm W A} {g : A → Tpm W B}
    → Leaves f
    → ((a : A) → Leaves (g a))
    → Leaves (f >>= g)
>>=-Leaves k l = record { left = λ m. continue-left _ _ _ l ∙ k.left m }

pub arg-Leaves : {W : Type 0} (dir : Bytes) (name : Text) → Leaves {W = W} (arg dir name)
unfolding arg
arg-Leaves dir name = record { left = λ m. ground arith }

pub lift-Leaves : {W A : Type 0} (r : Result TpmError A) → Leaves {W = W} (lift r)
lift-Leaves r = record { left = λ m. refl }

pub on_world-Leaves :
    {W A E : Type 0} (f : W → Result E A × W) (wrap : E → TpmError) → Leaves (on_world f wrap)
on_world-Leaves f wrap = record { left = λ m. refl }
