-- ===== src/Text/Decimal.antt =====
-- Decimal and hexadecimal numbers as text: `to_string`, `{:02}` and its like, `parse::<u32>`.
pub mod Padded
use tex_attestation_server.Prelude.{
  ℕ, zero, suc, ◌+◌, ◌-◌, ◌*◌, ◌/◌, ◌%◌, ◌^◌, ◌≤◌, ◌<◌, ◌≡◌, refl, ◌∙◌, Bool, true, false, ◌&&◌,
  Option, none, some, List, [], ◌∷◌, ◌++◌, arith, ltb, between, ◌==◌, if◌then◌else◌, Bool-cases,
  ltb→lt, inl, inr, length, replicate, All, length-append, length-replicate, All-append,
}

-- The digits of `n` to a base, with fuel.
digits : ℕ → (ℕ → ℕ) → ℕ → ℕ → List ℕ
digits base symbol zero n = []
digits base symbol (suc fuel) n =
    let more = digits base symbol fuel (n / base) ++ symbol (n % base) ∷ [] in
    if ltb n base then symbol n ∷ [] else more

abbrev decimal_symbol : ℕ → ℕ
decimal_symbol d = b'0' + d

abbrev pub hex_symbol : ℕ → ℕ
hex_symbol d = if ltb d 10 then b'0' + d else b'a' + (d - 10)

-- `to_string` of an unsigned number. Each round divides by 10, so `n + 1` rounds are enough.
unfoldable pub decimal : ℕ → List ℕ
unfolding digits
decimal n = digits 10 decimal_symbol (suc n) n

-- `{:x}`
unfoldable pub hexadecimal : ℕ → List ℕ
unfolding digits
hexadecimal n = digits 16 hex_symbol (suc n) n

-- A width with zeros in front, as in `{:02}`.
unfoldable pub pad : ℕ → List ℕ → List ℕ
pad width s = replicate (width - length s) b'0' ++ s

abbrev pub is_digit : ℕ → Bool
is_digit c = between b'0' b'9' c

-- The value of decimal digits behind `acc`, or nothing for another character or a value of
-- `limit` or more.
parse_from : ℕ → ℕ → List ℕ → Option ℕ
parse_from limit acc [] = some acc
parse_from limit acc (c ∷ s) =
    let next = acc * 10 + (c - b'0') in
    let more = parse_from limit next s in if is_digit c && ltb next limit then more else none

parse_digits : ℕ → List ℕ → Option ℕ
parse_digits limit [] = none
parse_digits limit (c ∷ s) = parse_from limit 0 (c ∷ s)

-- `parse::<u32>`, which takes one `+` in front.
unfoldable pub parse_u32 : List ℕ → Option ℕ
unfolding parse_digits parse_from
parse_u32 [] = none
parse_u32 (c ∷ s) = if c == b'+' then parse_digits (2 ^ 32) s else parse_digits (2 ^ 32) (c ∷ s)

parse_from-append :
    (limit acc : ℕ) (s t : List ℕ) (n : ℕ)
    → parse_from limit acc s ≡ some n
    → parse_from limit acc (s ++ t) ≡ parse_from limit n t
unfolding parse_from
parse_from-append limit acc [] t n h = ground arith
parse_from-append limit acc (c ∷ s) t n h =
    ground (arith, parse_from-append limit (acc * 10 + (c - b'0')) s t n)

parse_from-symbol :
    (limit n : ℕ) → n < limit → parse_from limit (n / 10) (decimal_symbol (n % 10) ∷ []) ≡ some n
unfolding parse_from
parse_from-symbol limit n l = ground arith

parse_from-small :
    (limit n : ℕ) → n < limit → n < 10 → parse_from limit 0 (decimal_symbol n ∷ []) ≡ some n
unfolding parse_from
parse_from-small limit n l h = ground arith

parse_from-digits :
    (limit fuel n : ℕ)
    → n < fuel
    → n < limit
    → parse_from limit 0 (digits 10 decimal_symbol fuel n) ≡ some n
unfolding digits
parse_from-digits limit zero n h l = elim h [ ]
parse_from-digits limit (suc fuel) n h l = elim (Bool-cases (ltb n 10)) [
  | inl small ↦ rw small (parse_from-small limit n l (ltb→lt n 10 small))
  | inr big ↦
      let ih = parse_from-digits limit fuel (n / 10) (ground arith) (omega arith) in
      rw big (
        parse_from-append limit 0 (digits 10 decimal_symbol fuel (n / 10)) _ (n / 10) ih
        ∙ parse_from-symbol limit n l)
]

symbol-is_digit : (d : ℕ) → d < 10 → is_digit (decimal_symbol d) ≡ true
symbol-is_digit d h = ground arith

digits-All : (fuel n : ℕ) → All (λ c. is_digit c ≡ true) (digits 10 decimal_symbol fuel n)
unfolding digits
digits-All zero n = tt
digits-All (suc fuel) n = elim (Bool-cases (ltb n 10)) [
  | inl small ↦ rw small (symbol-is_digit n (ltb→lt n 10 small), tt)
  | inr big ↦ rw big (
      All-append (λ c. is_digit c ≡ true) (digits 10 decimal_symbol fuel (n / 10)) _
        (digits-All fuel (n / 10)) (symbol-is_digit (n % 10) (omega arith), tt))
]

-- A printed number is digits only.
pub decimal-All : (n : ℕ) → All (λ c. is_digit c ≡ true) (decimal n)
unfolding decimal
decimal-All n = digits-All (suc n) n

-- The first number with more than `w` digits.
abbrev pub beyond : ℕ → ℕ
beyond zero = 1
beyond (suc w) = 10 * beyond w

digits-length : (w fuel n : ℕ) → n < beyond w → 1 ≤ w → length (digits 10 decimal_symbol fuel n) ≤ w
unfolding digits
digits-length zero fuel n l p = elim p [ ]
digits-length (suc w) zero n l p = omega arith
digits-length (suc w) (suc fuel) n l p = elim (Bool-cases (ltb n 10)) [
  | inl small ↦ rw small (omega arith)
  | inr big ↦ rw big (
      rw (length-append (digits 10 decimal_symbol fuel (n / 10)) _) (elim (Bool-cases (w == 0)) [
        | inl none_left ↦ absurd (one_digit w n none_left l big)
        | inr some_left ↦ omega (arith, digits-length w fuel (n / 10) (omega arith) (ground arith))
      ]))
]
  where
    one_digit : (w n : ℕ) → (w == 0) ≡ true → n < 10 * beyond w → ltb n 10 ≡ false → ⊥
    one_digit zero n e h b = ground arith
    one_digit (suc w) n e h b = ground arith

-- A number below `beyond w`, padded to the width `w`, takes `w` characters.
pub length-pad : (w n : ℕ) → n < beyond w → 1 ≤ w → length (pad w (decimal n)) ≡ w
unfolding pad decimal
length-pad w n l p = rw (length-append (replicate (w - length (decimal n)) b'0') (decimal n)) (
    rw (length-replicate {A = ℕ} (w - length (decimal n)) b'0')
      (omega (arith, digits-length w (suc n) n l p)))

parse_u32-digits :
    (s : List ℕ) (n : ℕ)
    → parse_from (2 ^ 32) 0 s ≡ some n
    → All (λ c. is_digit c ≡ true) s
    → 1 ≤ length s
    → parse_u32 s ≡ some n
unfolding parse_u32
parse_u32-digits [] n h d p = elim p [ ]
parse_u32-digits (c ∷ r) n h d p = ground arith

digits-pos : (fuel n : ℕ) → n < fuel → 1 ≤ length (digits 10 decimal_symbol fuel n)
unfolding digits
digits-pos zero n h = elim h [ ]
digits-pos (suc fuel) n h = elim (Bool-cases (ltb n 10)) [
  | inl small ↦ rw small (omega arith)
  | inr big ↦ rw big (rw (length-append (digits 10 decimal_symbol fuel (n / 10)) _) (omega arith))
]

-- `parse::<u32>` reads back what `to_string` prints.
pub parse_u32-decimal : (n : ℕ) → n < 2 ^ 32 → parse_u32 (decimal n) ≡ some n
unfolding decimal
parse_u32-decimal n l =
    parse_u32-digits (digits 10 decimal_symbol (suc n) n) n
      (parse_from-digits (2 ^ 32) (suc n) n (omega arith) l) (digits-All (suc n) n)
      (digits-pos (suc n) n (omega arith))

decimal_tests :
    (decimal 0 ≡ b'0' ∷ [])
    × (decimal 4207 ≡ b'4' ∷ b'2' ∷ b'0' ∷ b'7' ∷ [])
    × (pad 4 (hexadecimal 0x1f) ≡ b'0' ∷ b'0' ∷ b'1' ∷ b'f' ∷ [])
    × (parse_u32 (b'+' ∷ b'4' ∷ b'2' ∷ []) ≡ some 42)
    × (parse_u32 (decimal (2 ^ 32)) ≡ none)
unfolding decimal hexadecimal pad parse_u32
decimal_tests = (refl, refl, refl, refl, refl)
