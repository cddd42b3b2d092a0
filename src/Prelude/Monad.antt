-- ===== src/Prelude/Monad.antt =====
-- Functions that return a `Result` and change the world around them, with `?` as the bind.
use mathlib.Core.Path.{◌≡◌, refl, ap}
use native.Mathlib.Omega.{arith}
use tex_attestation_server.Prelude.Result.{Result, ok, err, map_err}

-- A computation in the world `W`. What was done before an error stays done.
abbrev pub M : Type 0 → Type 0 → Type 0 → Type 0
M W E A = W → Result E A × W

abbrev pub continue : {W E A B : Type 0} → Result E A → (A → M W E B) → M W E B
continue (ok a) f w = f a w
continue (err e) f w = (err e, w)

infixl 5 ◌>>=◌ ◌>>◌
abbrev pub ◌>>=◌ : {W E A B : Type 0} → M W E A → (A → M W E B) → M W E B
◌>>=◌ m f w = let (r, w') = m w in continue r f w'

abbrev pub ◌>>◌ : {W E A B : Type 0} → M W E A → M W E B → M W E B
m >> k = m >>= λ _. k

abbrev pub pure : {W E A : Type 0} → A → M W E A
pure a w = (ok a, w)

abbrev pub raise : {W E A : Type 0} → E → M W E A
raise e w = (err e, w)

abbrev pub lift : {W E A : Type 0} → Result E A → M W E A
lift r w = (r, w)

-- A read of the world.
abbrev pub gets : {W E A : Type 0} → (W → Result E A) → M W E A
gets f w = (f w, w)

-- The error of the callee, converted by `From`.
abbrev pub convert : {W E F A : Type 0} → (E → F) → M W E A → M W F A
convert f m w = let (r, w') = m w in (map_err f r, w')

module _ {W E A B : Type 0} where
  continue-eq-ok :
      (r : Result E A) (f : A → M W E B) (w : W) {b : B} {v : W}
      → continue r f w ≡ (ok b, v)
      → (a : A) × (r ≡ ok a) × (f a w ≡ (ok b, v))
  continue-eq-ok (ok a) f w h = (a, refl, h)
  continue-eq-ok (err e) f w h = cc

  -- A successful sequence: the first part succeeds, and the second goes on from its world.
  pub >>=-eq-ok :
      (m : M W E A) (f : A → M W E B) (w : W) {b : B} {v : W}
      → (m >>= f) w ≡ (ok b, v)
      → (a : A) × ((m w).0 ≡ ok a) × (f a (m w).1 ≡ (ok b, v))
  >>=-eq-ok m f w h = continue-eq-ok (m w).0 f (m w).1 h

  -- The same, with the state between the parts.
  pub >>=-split :
      (m : M W E A) (f : A → M W E B) (w : W) {b : B} {u : W}
      → (m >>= f) w ≡ (ok b, u)
      → (a : A) × (v : W) × (m w ≡ (ok a, v)) × (f a v ≡ (ok b, u))
  >>=-split m f w h = let (a, e, g) = >>=-eq-ok m f w h in (a, (m w).1, λ i. (e i, (m w).1), g)

  continue-fst-ok :
      (r : Result E A) (f : A → M W E B) (w : W) {b : B}
      → (continue r f w).0 ≡ ok b
      → (a : A) × (r ≡ ok a) × ((f a w).0 ≡ ok b)
  continue-fst-ok (ok a) f w h = (a, refl, h)
  continue-fst-ok (err e) f w h = cc

  -- The same where the last world does not matter.
  pub >>=-fst-ok :
      (m : M W E A) (f : A → M W E B) (w : W) {b : B}
      → ((m >>= f) w).0 ≡ ok b
      → (a : A) × ((m w).0 ≡ ok a) × ((f a (m w).1).0 ≡ ok b)
  >>=-fst-ok m f w h = continue-fst-ok (m w).0 f (m w).1 h

module _ {W E A B : Type 0} where
  continue-ok :
      (r : Result E A) (f : A → M W E B) (w : W) {a : A} {b : B}
      → r ≡ ok a
      → (f a w).0 ≡ ok b
      → (continue r f w).0 ≡ ok b
  continue-ok r f w e h = rw e h

  -- A sequence whose parts succeed does.
  pub >>=-ok :
      (m : M W E A) (f : A → M W E B) (w : W) {a : A} {b : B}
      → (m w).0 ≡ ok a
      → (f a (m w).1).0 ≡ ok b
      → ((m >>= f) w).0 ≡ ok b
  >>=-ok m f w e h = continue-ok (m w).0 f (m w).1 e h

pub map_err-ok :
    {E F A : Type 0} (f : E → F) {r : Result E A} {a : A} → r ≡ ok a → map_err f r ≡ ok a
map_err-ok f e = ap (map_err f) e

pub map_err-eq-ok :
    {E F A : Type 0} (f : E → F) (r : Result E A) {a : A} → map_err f r ≡ ok a → r ≡ ok a
map_err-eq-ok f (ok a) h = ground arith
map_err-eq-ok f (err e) h = ground arith

-- The parts of an equation of two successes.
pub ok-injective :
    {W E A : Type 0} {a b : A} {v w : W}
    → ◌≡◌ {A = Result E A × W} (ok a, v) (ok b, w)
    → (a ≡ b) × (v ≡ w)
ok-injective h = (cc h, λ i. (h i).1)
