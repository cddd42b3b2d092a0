-- ===== src/Tests/Codec.antt =====
-- Executable versions of the functions of the crates, with their laws, for the tests.
use tex_attestation_server.Prelude.{
  ℕ, zero, suc, ◌+◌, ◌-◌, ◌*◌, ◌/◌, ◌%◌, ◌<◌, ◌≡◌, refl, sym, ap, ◌∙◌, Option, none, some, [], ◌∷◌,
  arith, length, replicate, All, between, if◌then◌else◌, length-replicate, true,
}
use mathlib.Core.Path.{subst}
use tex_attestation_server.Prelude.Result.{Result, ok, err, ok-inj}
use tex_attestation_server.Text.{Bytes, Text, lower_byte, to_ascii_lowercase}
use tex_attestation_server.Text.Decimal.{hex_symbol}
use tex_attestation_server.Outside.{
  Crates, HexLaws, Base64Laws, ShaLaws, IsByte, is_hex_digit, is_base64_char,
}

nibble : ℕ → Option ℕ
nibble c =
    if between b'0' b'9' c
    then some (c - b'0')
    else if between b'a' b'f' c
    then some (c - b'a' + 10)
    else if between b'A' b'F' c
    then some (c - b'A' + 10)
    else none

unfoldable pub hex_encode : Bytes → Text
hex_encode [] = []
hex_encode (b ∷ s) = hex_symbol (b / 16 % 16) ∷ hex_symbol (b % 16) ∷ hex_encode s

cons_ok : ℕ → Result Text Bytes → Result Text Bytes
cons_ok b (ok s) = ok (b ∷ s)
cons_ok b (err e) = err e

pair : Option ℕ → Option ℕ → Result Text Bytes → Result Text Bytes
unfolding cons_ok
pair (some h) (some l) rest = cons_ok (h * 16 + l) rest
pair _ _ rest = err []

unfoldable pub hex_decode : Text → Result Text Bytes
unfolding nibble pair
hex_decode [] = ok []
hex_decode (c ∷ []) = err []
hex_decode (c ∷ d ∷ s) = pair (nibble c) (nibble d) (hex_decode s)

-- A digest of the right size, for a test.
unfoldable pub digest : Bytes → Bytes
digest b = replicate 32 (length b % 256)

nibble-symbol : (d : ℕ) → d < 16 → nibble (hex_symbol d) ≡ some d
unfolding nibble
nibble-symbol d h = ground arith

nibble-lower : (c : ℕ) → nibble (lower_byte c) ≡ nibble c
unfolding nibble lower_byte
nibble-lower c = ground arith

nibble-inverse : (c d : ℕ) → nibble c ≡ some d → (d < 16) × (hex_symbol d ≡ lower_byte c)
unfolding nibble lower_byte
nibble-inverse c d h = ground arith

decode-encode : (b : Bytes) → All IsByte b → hex_decode (hex_encode b) ≡ ok b
unfolding hex_decode hex_encode
decode-encode [] h = refl
decode-encode (b ∷ s) (l, h) =
    rw (nibble-symbol (b / 16 % 16) (omega arith)) rw (nibble-symbol (b % 16) (omega arith)) rw
      (decode-encode s h) (ap (λ x. ok (x ∷ s)) (whole b l))
  where
    whole : (b : ℕ) → b < 256 → b / 16 % 16 * 16 + b % 16 ≡ b
    whole b l = omega arith

decode-lower : (s : Text) → hex_decode (to_ascii_lowercase s) ≡ hex_decode s
unfolding hex_decode to_ascii_lowercase lower_byte
decode-lower [] = refl
decode-lower (c ∷ []) = refl
decode-lower (c ∷ d ∷ s) = λ i. pair (nibble-lower c i) (nibble-lower d i) (decode-lower s i)

-- The parts of a text that decodes.
record Pair (c d : ℕ) (s : Text) (b : Bytes) : Type 0 where
  high : ℕ
  low : ℕ
  rest : Bytes
  high_is : nibble c ≡ some high
  low_is : nibble d ≡ some low
  rest_is : hex_decode s ≡ ok rest
  whole : (high * 16 + low) ∷ rest ≡ b

split : (c d : ℕ) (s : Text) (b : Bytes) → hex_decode (c ∷ d ∷ s) ≡ ok b → Pair c d s b
unfolding hex_decode
split c d s b e = go (nibble c) (nibble d) (hex_decode s) refl refl refl e
  where
    go :
        (x y : Option ℕ) (r : Result Text Bytes)
        → nibble c ≡ x
        → nibble d ≡ y
        → hex_decode s ≡ r
        → pair x y r ≡ ok b
        → Pair c d s b
    go (some h) (some l) (ok t) ex ey er e = record {
      high = h;
      low = l;
      rest = t;
      high_is = ex;
      low_is = ey;
      rest_is = er;
      whole = ok-inj e;
    }
    go (some h) (some l) (err t) ex ey er e = absurd (cc e)
    go none y r ex ey er e = absurd (cc e)
    go (some h) none r ex ey er e = absurd (cc e)

high_part : (h l : ℕ) → h < 16 → l < 16 → hex_symbol ((h * 16 + l) / 16 % 16) ≡ hex_symbol h
high_part h l a b = ap hex_symbol (omega arith)

low_part : (h l : ℕ) → h < 16 → l < 16 → hex_symbol ((h * 16 + l) % 16) ≡ hex_symbol l
low_part h l a b = ap hex_symbol (omega arith)

encode-decode : (s : Text) (b : Bytes) → hex_decode s ≡ ok b → hex_encode b ≡ to_ascii_lowercase s
unfolding hex_decode hex_encode to_ascii_lowercase
encode-decode [] b e = ap hex_encode (sym (ok-inj e))
encode-decode (c ∷ []) b e = absurd (cc e)
encode-decode (c ∷ d ∷ s) b e =
    let p = split c d s b e in
    let (h, eh) = nibble-inverse c p.high p.high_is in
    let (l, el) = nibble-inverse d p.low p.low_is in
    ap hex_encode (sym p.whole)
    ∙ (λ i. high_part p.high p.low h l i ∷ low_part p.high p.low h l i ∷ hex_encode p.rest)
    ∙ λ i. eh i ∷ el i ∷ encode-decode s p.rest p.rest_is i

decode-IsByte : (s : Text) (b : Bytes) → hex_decode s ≡ ok b → All IsByte b
unfolding hex_decode
decode-IsByte [] b e = subst (All IsByte) (ok-inj e) tt
decode-IsByte (c ∷ []) b e = absurd (cc e)
decode-IsByte (c ∷ d ∷ s) b e =
    let p = split c d s b e in
    let h = (nibble-inverse c p.high p.high_is).0 in
    let l = (nibble-inverse d p.low p.low_is).0 in
    subst (All IsByte) p.whole (omega arith, decode-IsByte s p.rest p.rest_is)

decode-length : (s : Text) (b : Bytes) → hex_decode s ≡ ok b → length s ≡ 2 * length b
unfolding hex_decode
decode-length [] b e = subst (λ (b : Bytes). 0 ≡ 2 * length b) (ok-inj e) (omega arith)
decode-length (c ∷ []) b e = absurd (cc e)
decode-length (c ∷ d ∷ s) b e =
    let p = split c d s b e in
    subst (λ (b : Bytes). length (c ∷ d ∷ s) ≡ 2 * length b) p.whole
      (omega (arith, decode-length s p.rest p.rest_is))

encode-length : (b : Bytes) → length (hex_encode b) ≡ 2 * length b
unfolding hex_encode
encode-length [] = refl
encode-length (b ∷ s) = omega (arith, encode-length s)

symbol-digit : (d : ℕ) → d < 16 → is_hex_digit (hex_symbol d) ≡ true
symbol-digit d h = ground arith

encode-digits : (b : Bytes) → All (λ d. is_hex_digit d ≡ true) (hex_encode b)
unfolding hex_encode
encode-digits [] = tt
encode-digits (b ∷ s) = (
  symbol-digit (b / 16 % 16) (omega arith),
  (symbol-digit (b % 16) (omega arith), encode-digits s),
)

-- The crates of the tests. The hexadecimal digits are base64 characters too, so they stand in for
-- its alphabet.
abbrev pub test_crates : Crates
test_crates = record {
  hex_encode = hex_encode;
  hex_decode = hex_decode;
  base64_encode = hex_encode;
  base64_decode = hex_decode;
  sha256 = digest;
}

pub hex_laws : HexLaws test_crates
hex_laws = record {
  decode-encode = decode-encode;
  encode-decode = encode-decode;
  decode_case = λ s t b e h. sym (decode-lower t) ∙ ap hex_decode (sym e) ∙ decode-lower s ∙ h;
  decode-IsByte = decode-IsByte;
  decode-length = decode-length;
  encode-length = encode-length;
  encode-digits = encode-digits;
}

hex-base64 : (s : Text) → All (λ d. is_hex_digit d ≡ true) s → All (λ d. is_base64_char d ≡ true) s
hex-base64 [] h = tt
hex-base64 (c ∷ s) h = (ground arith, hex-base64 s h.1)

pub base64_laws : Base64Laws test_crates
base64_laws = record {
  decode-encode = decode-encode;
  encode-chars = λ b. hex-base64 (hex_encode b) (encode-digits b);
}

pub replicate-IsByte : (n b : ℕ) → IsByte b → All IsByte (replicate n b)
replicate-IsByte zero b h = tt
replicate-IsByte (suc n) b h = (h, replicate-IsByte n b h)

pub sha_laws : ShaLaws test_crates
unfolding digest
sha_laws = record {
  sha256-length = λ b. length-replicate {A = ℕ} 32 (length b % 256);
  sha256-IsByte = λ b. replicate-IsByte 32 (length b % 256) (omega arith);
}
