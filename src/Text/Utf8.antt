-- ===== src/Text/Utf8.antt =====
-- `String::from_utf8` and `String::from_utf8_lossy`: well-formed UTF-8 by the table of the Unicode
-- standard, and the replacement of each maximal ill-formed part by U+FFFD.
use tex_attestation_server.Prelude.{
  ℕ, ◌≡◌, refl, Bool, true, false, Option, none, some, List, [], ◌∷◌, ◌++◌, arith, ltb, between,
  ◌==◌, if◌then◌else◌,
}

-- What must follow: nothing, or continuation bytes, the first of them in a range of its own.
pub data Need : Type 0 where
  start last two_more three_more : Need
  after_e0 after_ed after_f0 after_f4 : Need

-- The need behind a first byte.
lead : ℕ → Option Need
lead b =
    if ltb b 0x80
    then some start
    else if between 0xC2 0xDF b
    then some last
    else if b == 0xE0
    then some after_e0
    else if b == 0xED
    then some after_ed
    else if between 0xE1 0xEF b
    then some two_more
    else if b == 0xF0
    then some after_f0
    else if b == 0xF4
    then some after_f4
    else if between 0xF1 0xF3 b
    then some three_more
    else none

-- The need behind a byte, where it is allowed.
step : Need → ℕ → Option Need
step start b = lead b
step last b = if between 0x80 0xBF b then some start else none
step two_more b = if between 0x80 0xBF b then some last else none
step three_more b = if between 0x80 0xBF b then some two_more else none
step after_e0 b = if between 0xA0 0xBF b then some last else none
step after_ed b = if between 0x80 0x9F b then some last else none
step after_f0 b = if between 0x90 0xBF b then some two_more else none
step after_f4 b = if between 0x80 0x8F b then some two_more else none

valid_from : Need → List ℕ → Bool
valid_from start [] = true
valid_from _ [] = false
valid_from n (b ∷ s) = elim (step n b) [ none ↦ false | some m ↦ valid_from m s ]

-- `from_utf8` succeeds.
unfoldable pub utf8_valid : List ℕ → Bool
unfolding valid_from step lead
utf8_valid s = valid_from start s

abbrev replacement : List ℕ
replacement = 0xEF ∷ 0xBF ∷ 0xBD ∷ []

-- The argument `part` is the sequence that is being read, in order.
lossy_from : Need → List ℕ → List ℕ → List ℕ
lossy_from start part [] = part
lossy_from _ part [] = replacement
lossy_from n part (b ∷ s) = elim (step n b) [
  | some start ↦ part ++ b ∷ lossy_from start [] s
  | some m ↦ lossy_from m (part ++ b ∷ []) s
  | none ↦ elim n [
    | start ↦ replacement ++ lossy_from start [] s
    | _ ↦ replacement ++ elim (lead b) [
      | none ↦ replacement ++ lossy_from start [] s
      | some start ↦ b ∷ lossy_from start [] s
      | some m ↦ lossy_from m (b ∷ []) s
    ]
  ]
]

-- `from_utf8_lossy`
unfoldable pub from_utf8_lossy : List ℕ → List ℕ
unfolding lossy_from step lead
from_utf8_lossy s = lossy_from start [] s

valid_from-ascii :
    (b : ℕ) (s : List ℕ) → ltb b 0x80 ≡ true → valid_from start (b ∷ s) ≡ valid_from start s
unfolding valid_from step lead
valid_from-ascii b s h = ground arith

-- An ASCII byte in front changes nothing.
pub utf8_valid-ascii : (b : ℕ) (s : List ℕ) → ltb b 0x80 ≡ true → utf8_valid (b ∷ s) ≡ utf8_valid s
unfolding utf8_valid
utf8_valid-ascii b s h = valid_from-ascii b s h

pub utf8_valid-nil : utf8_valid [] ≡ true
unfolding utf8_valid
utf8_valid-nil = refl

lossy_tests :
    (from_utf8_lossy (0x61 ∷ 0xFF ∷ 0x62 ∷ []) ≡ 0x61 ∷ 0xEF ∷ 0xBF ∷ 0xBD ∷ 0x62 ∷ [])
    × (from_utf8_lossy (0xE2 ∷ 0x80 ∷ 0x61 ∷ []) ≡ 0xEF ∷ 0xBF ∷ 0xBD ∷ 0x61 ∷ [])
    × (from_utf8_lossy (0xC3 ∷ 0xA9 ∷ []) ≡ 0xC3 ∷ 0xA9 ∷ [])
    × (utf8_valid (0xED ∷ 0xA0 ∷ 0x80 ∷ []) ≡ false)
unfolding from_utf8_lossy utf8_valid
lossy_tests = (refl, refl, refl, refl)
