-- ===== src/Text/Decimal/Padded.antt =====
-- Numbers with zeros in front, as in `{:06}`.
use tex_attestation_server.Prelude.{
  ℕ, zero, suc, ◌+◌, ◌-◌, ◌≤◌, ◌<◌, ◌≡◌, refl, sym, ap, ◌∙◌, true, some, List, ◌++◌, arith, length,
  replicate, All, All-append,
}
use tex_attestation_server.Text.Decimal.{
  decimal, pad, is_digit, parse_from, parse_from-digits, decimal-All,
}

parse_from-zeros :
    (limit k : ℕ) (s : List ℕ)
    → 1 ≤ limit
    → parse_from limit 0 (replicate k b'0' ++ s) ≡ parse_from limit 0 s
unfolding parse_from
parse_from-zeros limit zero s h = refl
parse_from-zeros limit (suc k) s h = ground (arith, parse_from-zeros limit k s h)

parse_from-pad : (limit w n : ℕ) → n < limit → parse_from limit 0 (pad w (decimal n)) ≡ some n
unfolding pad decimal
parse_from-pad limit w n h =
    parse_from-zeros limit (w - length (decimal n)) (decimal n) (omega arith)
    ∙ parse_from-digits limit (suc n) n (omega arith) h

-- Different numbers have different padded forms.
pub pad-decimal-injective : (w n m : ℕ) → pad w (decimal n) ≡ pad w (decimal m) → n ≡ m
pad-decimal-injective w n m e =
    let limit = suc (n + m) in
    let same : some n ≡ some m =
      sym (parse_from-pad limit w n (omega arith))
      ∙ ap (parse_from limit 0) e
      ∙ parse_from-pad limit w m (omega arith) in
    cc same

zeros-All : (k : ℕ) → All (λ c. is_digit c ≡ true) (replicate k b'0')
zeros-All zero = tt
zeros-All (suc k) = (refl, zeros-All k)

-- A padded number is digits only.
pub pad-All : (w n : ℕ) → All (λ c. is_digit c ≡ true) (pad w (decimal n))
unfolding pad
pad-All w n =
    All-append _ (replicate (w - length (decimal n)) b'0') (decimal n)
      (zeros-All (w - length (decimal n))) (decimal-All n)
