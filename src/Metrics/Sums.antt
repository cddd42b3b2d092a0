-- ===== src/Metrics/Sums.antt =====
-- The sums of a timing record: `Buckets` of src/metrics.rs, and the time that no stage accounts for.
use tex_attestation_server.Prelude.{
  ℕ, ◌+◌, ◌≡◌, refl, ap, ◌∙◌, true, false, Option, none, some, [], ◌∷◌, arith, if◌then◌else◌, inl,
  inr, Bool-cases,
}
use tex_attestation_server.Text.{Text, equal, equal_iff}
use tex_attestation_server.Metrics.{Buckets, add, get, total}

abbrev or_zero : Option ℕ → ℕ
or_zero none = 0
or_zero (some v) = v

-- A name that has no sum yet counts as 0.
abbrev pub sum_of : Text → Buckets → ℕ
sum_of name b = or_zero (get name b)

equal_refl : (s : Text) → equal s s ≡ true
equal_refl s = (equal_iff s s).1 refl

the_sum : (us : ℕ) → us ≡ 0 + us
the_sum us = omega arith

get-add_same :
    (name : Text) (us : ℕ) (b : Buckets) → get name (add name us b) ≡ some (sum_of name b + us)
unfolding get add
get-add_same name us [] = rw (equal_refl name) (ap some (the_sum us))
get-add_same name us ((n, v) ∷ rest) = elim (Bool-cases (equal n name)) [
  | inl same ↦ rw same rw same refl
  | inr other ↦ rw other rw other (get-add_same name us rest)
]

get-add_other :
    (name other : Text) (us : ℕ) (b : Buckets)
    → equal name other ≡ false
    → get other (add name us b) ≡ get other b
unfolding get add
get-add_other name other us [] h = rw h refl
get-add_other name other us ((n, v) ∷ rest) h = elim (Bool-cases (equal n name)) [
  | inl same ↦ rw same rw (ap (λ x. equal x other) ((equal_iff n name).0 same) ∙ h) refl
  | inr differ ↦
      rw differ (ap (λ o. if equal n other then some v else o) (get-add_other name other us rest h))
]

total-add : (name : Text) (us : ℕ) (b : Buckets) → total (add name us b) ≡ total b + us
unfolding total add
total-add name us [] = omega arith
total-add name us ((n, v) ∷ rest) = elim (Bool-cases (equal n name)) [
  | inl same ↦ rw same (omega arith)
  | inr other ↦ rw other (omega (arith, total-add name us rest))
]

-- Adding to a name adds to its sum, creates the sum where there was none, leaves the sum of every
-- other name as it was, and adds to the total.
add_lem :
    (name : Text) (us : ℕ) (b : Buckets)
    → (get name (add name us b) ≡ some (sum_of name b + us))
      × ((other : Text) → equal name other ≡ false → get other (add name us b) ≡ get other b)
      × (total (add name us b) ≡ total b + us)
add_lem name us b =
    (get-add_same name us b, λ other h. get-add_other name other us b h, total-add name us b)
