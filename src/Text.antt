-- ===== src/Text.antt =====
-- Rust's `str` and `String` as the list of their UTF-8 bytes, and what the source calls of the
-- standard library on them. Literals are native strings, which are ASCII throughout.
pub mod Search
pub mod Utf8
pub mod Trim
pub mod Decimal
use Prim.Native.Char.{code}
use tex_attestation_server.Prelude.{
  ℕ, ◌+◌, ◌-◌, ◌≡◌, refl, ◌↔◌, Bool, true, false, ◌&&◌, String, List, [], ◌∷◌, map, arith, ◌==◌,
  between, if◌then◌else◌,
}

abbrev pub Bytes : Type 0
Bytes = List ℕ

abbrev pub Text : Type 0
Text = List ℕ

codes : String → Text
codes String.[] = []
codes (String.◌∷◌ c s) = code c ∷ codes s

-- An ASCII literal.
unfoldable pub lit : String → Text
unfolding codes
lit s = codes s

-- `==` on strings and byte slices.
unfoldable pub equal : Text → Text → Bool
equal [] [] = true
equal (a ∷ s) (b ∷ t) = (a == b) && equal s t
equal _ _ = false

pub equal_iff : (s t : Text) → (equal s t ≡ true) ↔ (s ≡ t)
unfolding equal
equal_iff (a ∷ s) (b ∷ t) = ground (arith, equal_iff s t)
equal_iff _ _ = ground arith

-- `to_ascii_lowercase`
unfoldable pub lower_byte : ℕ → ℕ
lower_byte c = if between b'A' b'Z' c then c + 32 else c

unfoldable pub to_ascii_lowercase : Text → Text
unfolding lower_byte
to_ascii_lowercase s = map lower_byte s

lower_byte_idem : (c : ℕ) → lower_byte (lower_byte c) ≡ lower_byte c
unfolding lower_byte
lower_byte_idem c = ground arith

pub to_ascii_lowercase_idem :
    (s : Text) → to_ascii_lowercase (to_ascii_lowercase s) ≡ to_ascii_lowercase s
unfolding to_ascii_lowercase
to_ascii_lowercase_idem [] = refl
to_ascii_lowercase_idem (c ∷ s) = cc (lower_byte_idem c, to_ascii_lowercase_idem s)
