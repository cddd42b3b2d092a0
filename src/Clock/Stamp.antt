-- ===== src/Clock/Stamp.antt =====
-- The timestamps of the log lines: `utc_timestamp` of src/logging.rs.
use tex_attestation_server.Prelude.{
  ℕ, ◌+◌, ◌/◌, ◌%◌, ◌^◌, ◌<◌, ◌≡◌, refl, sym, ◌∙◌, true, false, some, [], ◌∷◌, ◌++◌, ltb, arith,
  All,
}
use tex_attestation_server.Prelude.Int.{pos}
use tex_attestation_server.Text.{Text}
use tex_attestation_server.Text.Decimal.{decimal, pad, is_digit}
use tex_attestation_server.Text.Decimal.Padded.{pad-decimal-injective, pad-All}
use tex_attestation_server.Clock.{
  civil_from_days, as_i64, div_euclid, rem_euclid, year_text, two, stamp_of, log_timestamp,
}
use tex_attestation_server.Clock.Calendar.{day_number}
use tex_attestation_server.Clock.Civil.{civil_from_days-day_number}

abbrev Digits : Text → Type 0
Digits = All (λ c. is_digit c ≡ true)

-- The digits in front of another character, and what is behind it.
cut :
    (a b t u : Text) (c : ℕ)
    → is_digit c ≡ false
    → Digits a
    → Digits b
    → a ++ c ∷ t ≡ b ++ c ∷ u
    → (a ≡ b) × (t ≡ u)
cut [] [] t u c n ha hb e = (refl, cc e)
cut [] (y ∷ b) t u c n ha hb e = let same : c ≡ y = cc e in absurd (cc (hb.0, n, same))
cut (x ∷ a) [] t u c n ha hb e = let same : x ≡ c = cc e in absurd (cc (ha.0, n, same))
cut (x ∷ a) (y ∷ b) t u c n ha hb e =
    let (rest, behind) = cut a b t u c n ha.1 hb.1 (cc e) in
    let same : x ≡ y = cc e in (λ i. same i ∷ rest i, behind)

-- A padded number in front of another character.
number :
    (w n m c : ℕ) (t u : Text)
    → is_digit c ≡ false
    → pad w (decimal n) ++ c ∷ t ≡ pad w (decimal m) ++ c ∷ u
    → (n ≡ m) × (t ≡ u)
number w n m c t u h e =
    let (same, behind) =
      cut (pad w (decimal n)) (pad w (decimal m)) t u c h (pad-All w n) (pad-All w m) e in
    (pad-decimal-injective w n m same, behind)

-- `YYYY-MM-DDTHH:MM:SSZ`
abbrev written : ℕ → ℕ → ℕ → ℕ → ℕ → ℕ → Text
written y mo d h mi s =
    pad 4 (decimal y)
    ++ b'-'
      ∷ (pad 2 (decimal mo)
          ++ b'-'
            ∷ (pad 2 (decimal d)
                ++ b'T'
                  ∷ (pad 2 (decimal h)
                      ++ b':' ∷ (pad 2 (decimal mi) ++ b':' ∷ (pad 2 (decimal s) ++ b'Z' ∷ [])))))

written-injective :
    (y mo d h mi s y' mo' d' h' mi' s' : ℕ)
    → written y mo d h mi s ≡ written y' mo' d' h' mi' s'
    → (y ≡ y') × (mo ≡ mo') × (d ≡ d') × (h ≡ h') × (mi ≡ mi') × (s ≡ s')
written-injective y mo d h mi s y' mo' d' h' mi' s' e =
    let (ey, r1) = number 4 y y' b'-' _ _ refl e in
    let (emo, r2) = number 2 mo mo' b'-' _ _ refl r1 in
    let (ed, r3) = number 2 d d' b'T' _ _ refl r2 in
    let (eh, r4) = number 2 h h' b':' _ _ refl r3 in
    let (emi, r5) = number 2 mi mi' b':' _ _ refl r4 in
    let (es, r6) = number 2 s s' b'Z' [] [] refl r5 in (ey, emo, ed, eh, emi, es)

-- The date and the time of day, in the text.
record Stamped (s : ℕ) : Type 0 where
  year : ℕ
  month : ℕ
  day : ℕ
  dated : day_number year month day ≡ s / 86400 + day_number 1970 1 1
  text_is :
      log_timestamp (some s)
      ≡ written year month day (s % 86400 / 3600) (s % 86400 % 3600 / 60) (s % 86400 % 60)

stamped : (s : ℕ) → s < 2 ^ 63 → Stamped s
unfolding log_timestamp stamp_of year_text two as_i64 div_euclid rem_euclid
stamped s h =
    let date = civil_from_days (pos (s / 86400)) in
    let (y, is, valid, number) = civil_from_days-day_number (s / 86400) in
    let small : ltb s (2 ^ 63) ≡ true = ground arith in
    record { year = y; month = date.1; day = date.2; dated = number; text_is = rw (small, is) refl }

-- Before the year 292 277 026 596, where the seconds leave 63 bits, two log lines have the same
-- timestamp only if they were written in the same second.
pub log_timestamp-injective :
    (s t : ℕ) → s < 2 ^ 63 → t < 2 ^ 63 → log_timestamp (some s) ≡ log_timestamp (some t) → s ≡ t
log_timestamp-injective s t hs ht e =
    let a = stamped s hs in
    let b = stamped t ht in
    let (ey, emo, ed, eh, emi, es) =
      written-injective a.year a.month a.day (s % 86400 / 3600) (s % 86400 % 3600 / 60)
        (s % 86400 % 60) b.year b.month b.day (t % 86400 / 3600) (t % 86400 % 3600 / 60)
        (t % 86400 % 60) (sym a.text_is ∙ e ∙ b.text_is) in
    let days : s / 86400 + day_number 1970 1 1 ≡ t / 86400 + day_number 1970 1 1 =
      sym a.dated ∙ (λ i. day_number (ey i) (emo i) (ed i)) ∙ b.dated in
    omega (arith, days, eh, emi, es)
