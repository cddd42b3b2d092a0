-- ===== src/Metrics/Json.antt =====
-- The strings in the JSON file of src/metrics.rs, against a reader of JSON strings by RFC 8259.
use tex_attestation_server.Prelude.{
  ℕ, zero, suc, ◌+◌, ◌-◌, ◌*◌, ◌≡◌, refl, sym, ap, ◌∙◌, Bool, true, false, ◌&&◌, ◌||◌, Option, none,
  some, [], ◌∷◌, ◌++◌, arith, ltb, between, ◌==◌, if◌then◌else◌, inl, inr, Bool-cases, ==_iff,
  append_assoc,
}
use tex_attestation_server.Text.{Text, equal, equal_iff}
use tex_attestation_server.Text.Decimal.{hexadecimal, pad}
use tex_attestation_server.Metrics.{escape, escape_byte}

-- Where a reader is: between characters, behind a backslash, before the last digits of a number with
-- what was read of it, or at an error.
data Mode : Type 0 where
  plain escaped refused : Mode
  code : ℕ → ℕ → Mode

abbrev digit_of : ℕ → Option ℕ
digit_of c =
    if between b'0' b'9' c
    then some (c - b'0')
    else if between b'a' b'f' c
    then some (c - b'a' + 10)
    else if between b'A' b'F' c
    then some (c - b'A' + 10)
    else none

abbrev after_digit : ℕ → ℕ → Mode × Text
after_digit zero value = (plain, value ∷ [])
after_digit (suc more) value = (code more value, [])

-- One byte: the next mode, and what is read. A quote or a control character must be escaped.
unfoldable next : Mode → ℕ → Mode × Text
next plain c =
    if c == b'\\'
    then (escaped, [])
    else if (c == b'"') || ltb c 0x20
    then (refused, [])
    else (plain, c ∷ [])
next escaped c =
    if (c == b'"') || ((c == b'\\') || (c == b'/'))
    then (plain, c ∷ [])
    else if c == b'n'
    then (plain, b'\n' ∷ [])
    else if c == b'r'
    then (plain, b'\r' ∷ [])
    else if c == b't'
    then (plain, b'\t' ∷ [])
    else if c == b'b'
    then (plain, 8 ∷ [])
    else if c == b'f'
    then (plain, 12 ∷ [])
    else if c == b'u'
    then (code 3 0, [])
    else (refused, [])
next (code more value) c = elim (digit_of c) [
  | none ↦ (refused, [])
  | some d ↦ after_digit more (value * 16 + d)
]
next refused c = (refused, [])

unfoldable read : Mode → Text → Mode × Text
unfolding next
read mode [] = (mode, [])
read mode (c ∷ s) =
    let (mode', here) = next mode c in let (last, rest) = read mode' s in (last, here ++ rest)

abbrev whole : Mode × Text → Option Text
whole (plain, text) = some text
whole (_, text) = none

-- The text that the inside of a JSON string stands for.
pub unescape : Text → Option Text
unfolding read
unescape s = whole (read plain s)

read-append :
    (mode : Mode) (s t : Text)
    → read mode (s ++ t)
      ≡ ((read (read mode s).0 t).0, (read mode s).1 ++ (read (read mode s).0 t).1)
unfolding read
read-append mode [] t = refl
read-append mode (c ∷ s) t =
    ap (λ (r : Mode × Text). (r.0, (next mode c).1 ++ r.1)) (read-append (next mode c).0 s t) ∙ λ i.
    (
      (read (read (next mode c).0 s).0 t).0,
      sym
          (append_assoc (next mode c).1 (read (next mode c).0 s).1
            (read (read (next mode c).0 s).0 t).1)
          i,
    )

abbrev is_plain : Mode → Bool
is_plain plain = true
is_plain _ = false

is_plain_lem : (mode : Mode) → is_plain mode ≡ true → mode ≡ plain
is_plain_lem plain h = refl
is_plain_lem escaped h = absurd (cc h)
is_plain_lem refused h = absurd (cc h)
is_plain_lem (code more value) h = absurd (cc h)

-- An escaped byte is read back alone.
reads_back : ℕ → Bool
unfolding read
reads_back c = let r = read plain (escape_byte c) in is_plain r.0 && equal r.1 (c ∷ [])

below : (ℕ → Bool) → ℕ → Bool
below p zero = true
below p (suc n) = p n && below p n

below_lem : (p : ℕ → Bool) (n c : ℕ) → below p n ≡ true → ltb c n ≡ true → p c ≡ true
unfolding below
below_lem p zero c h less = absurd (ground (arith, less))
below_lem p (suc n) c h less = elim (Bool-cases (c == n)) [
  | inl same ↦ rw ((==_iff c n).0 same) (ground (arith, h))
  | inr differ ↦ below_lem p n c (ground (arith, h)) (ground (arith, less, differ))
]

control_reads_back : below reads_back 0x20 ≡ true
unfolding below reads_back read next escape_byte pad hexadecimal equal
control_reads_back = refl

plain_reads_back :
    (c : ℕ)
    → ltb c 0x20 ≡ false
    → (c == b'\\') ≡ false
    → (c == b'"') ≡ false
    → read plain (escape_byte c) ≡ (plain, c ∷ [])
unfolding read next escape_byte
plain_reads_back c visible backslash quote = ground (arith, visible, backslash, quote)

backslash_read : read plain (escape_byte b'\\') ≡ (plain, b'\\' ∷ [])
unfolding read next escape_byte
backslash_read = refl

quote_read : read plain (escape_byte b'"') ≡ (plain, b'"' ∷ [])
unfolding read next escape_byte
quote_read = refl

read-nil : read plain [] ≡ (plain, [])
unfolding read
read-nil = refl

control-read : (c : ℕ) → ltb c 0x20 ≡ true → read plain (escape_byte c) ≡ (plain, c ∷ [])
unfolding reads_back
control-read c less =
    let r = read plain (escape_byte c) in
    let back = below_lem reads_back 0x20 c control_reads_back less in
    let ended = is_plain_lem r.0 (ground (arith, back)) in
    let same = (equal_iff r.1 (c ∷ [])).0 (ground (arith, back)) in λ i. (ended i, same i)

escape_byte-read : (c : ℕ) → read plain (escape_byte c) ≡ (plain, c ∷ [])
escape_byte-read c = elim (Bool-cases (ltb c 0x20)) [
  | inl less ↦ control-read c less
  | inr visible ↦ elim (Bool-cases (c == b'\\')) [
    | inl backslash ↦ rw ((==_iff c b'\\').0 backslash) backslash_read
    | inr other ↦ elim (Bool-cases (c == b'"')) [
      | inl quote ↦ rw ((==_iff c b'"').0 quote) quote_read
      | inr neither ↦ plain_reads_back c visible other neither
    ]
  ]
]

escape-read : (s : Text) → read plain (escape s) ≡ (plain, s)
unfolding escape
escape-read [] = read-nil
escape-read (c ∷ s) =
    read-append plain (escape_byte c) (escape s) ∙ rw (escape_byte-read c, escape-read s) refl

-- Every text that is printed in the JSON file is read back as it was, by a reader of JSON strings
-- that refuses a quote or a control character that is not escaped.
pub unescape-escape : (s : Text) → unescape (escape s) ≡ some s
unfolding unescape
unescape-escape s = rw (escape-read s) refl
