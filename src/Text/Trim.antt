-- ===== src/Text/Trim.antt =====
-- `char::is_whitespace` (the Unicode property White_Space) on UTF-8 bytes, and `str::trim`.
use mathlib.Core.List.{reverse-append, reverse-reverse}
use tex_attestation_server.Prelude.{
  ℕ, zero, suc, ◌≤◌, ◌<◌, ◌≡◌, ◌≢◌, refl, sym, ap, ◌∙◌, ◌++◌, arith, All, All-append, Bool, true,
  false, ◌&&◌, ◌||◌, List, [], ◌∷◌, reverse, between, ◌==◌, if◌then◌else◌, inl, inr, Bool-cases,
}

-- U+0009 to U+000D and U+0020
abbrev pub is_ascii_space : ℕ → Bool
is_ascii_space c = between 9 13 c || c == 32

-- U+0085 and U+00A0
is_space2 : ℕ → ℕ → Bool
is_space2 a b = a == 0xC2 && (b == 0x85 || b == 0xA0)

-- U+1680, U+2000 to U+200A, U+2028, U+2029, U+202F, U+205F and U+3000
is_space3 : ℕ → ℕ → ℕ → Bool
is_space3 a b c =
    (a == 0xE1 && b == 0x9A && c == 0x80)
    || (a == 0xE2 && b == 0x80 && (between 0x80 0x8A c || between 0xA8 0xA9 c || c == 0xAF))
    || (a == 0xE2 && b == 0x81 && c == 0x9F)
    || (a == 0xE3 && b == 0x80 && c == 0x80)

-- The length of the whitespace character at the front, or 0.
space_front : List ℕ → ℕ
space_front [] = 0
space_front (a ∷ []) = if is_ascii_space a then 1 else 0
space_front (a ∷ b ∷ []) = if is_ascii_space a then 1 else if is_space2 a b then 2 else 0
space_front (a ∷ b ∷ c ∷ _) =
    if is_ascii_space a then 1 else if is_space2 a b then 2 else if is_space3 a b c then 3 else 0

-- The same at the front of a reversed string.
space_back : List ℕ → ℕ
space_back [] = 0
space_back (a ∷ []) = if is_ascii_space a then 1 else 0
space_back (a ∷ b ∷ []) = if is_ascii_space a then 1 else if is_space2 b a then 2 else 0
space_back (a ∷ b ∷ c ∷ _) =
    if is_ascii_space a then 1 else if is_space2 b a then 2 else if is_space3 c b a then 3 else 0

-- Drops `n` bytes, and then whole whitespace characters.
trim_with : (List ℕ → ℕ) → ℕ → List ℕ → List ℕ
trim_with space n [] = []
trim_with space (suc n) (c ∷ s) = trim_with space n s
trim_with space zero (c ∷ s) = elim (space (c ∷ s)) [ zero ↦ c ∷ s | suc n ↦ trim_with space n s ]

unfoldable pub trim_start : List ℕ → List ℕ
unfolding trim_with space_front is_space2 is_space3
trim_start s = trim_with space_front 0 s

unfoldable pub trim_end : List ℕ → List ℕ
unfolding trim_with space_back is_space2 is_space3
trim_end s = reverse (trim_with space_back 0 (reverse s))

-- `str::trim`
unfoldable pub trim : List ℕ → List ℕ
unfolding trim_start trim_end
trim s = trim_end (trim_start s)

-- `chars().any(char::is_whitespace)`
unfoldable pub has_whitespace : List ℕ → Bool
unfolding space_front is_space2 is_space3
has_whitespace [] = false
has_whitespace (c ∷ s) = elim (space_front (c ∷ s)) [ zero ↦ has_whitespace s | suc _ ↦ true ]

-- `trim_start_matches` and `trim_end_matches` of an ASCII character
unfoldable pub trim_start_matches : ℕ → List ℕ → List ℕ
trim_start_matches d [] = []
trim_start_matches d (c ∷ s) = let rest = trim_start_matches d s in if c == d then rest else c ∷ s

unfoldable pub trim_end_matches : ℕ → List ℕ → List ℕ
unfolding trim_start_matches
trim_end_matches d s = reverse (trim_start_matches d (reverse s))

-- A printable ASCII character.
abbrev pub IsPlain : ℕ → Type 0
IsPlain c = (33 ≤ c) × (c < 128)

space_front-plain : (c : ℕ) (s : List ℕ) → IsPlain c → space_front (c ∷ s) ≡ 0
unfolding space_front is_space2 is_space3
space_front-plain c [] h = ground arith
space_front-plain c (d ∷ []) h = ground arith
space_front-plain c (d ∷ e ∷ s) h = ground arith

space_back-plain : (c : ℕ) (s : List ℕ) → IsPlain c → space_back (c ∷ s) ≡ 0
unfolding space_back is_space2 is_space3
space_back-plain c [] h = ground arith
space_back-plain c (d ∷ []) h = ground arith
space_back-plain c (d ∷ e ∷ s) h = ground arith

trim_with-plain :
    (space : List ℕ → ℕ) (s : List ℕ)
    → ((c : ℕ) (r : List ℕ) → IsPlain c → space (c ∷ r) ≡ 0)
    → All IsPlain s
    → trim_with space 0 s ≡ s
unfolding trim_with
trim_with-plain space [] h p = refl
trim_with-plain space (c ∷ s) h p = rw (h c s p.0, trim_with)

All-reverse : (s : List ℕ) → All IsPlain s → All IsPlain (reverse s)
All-reverse [] p = tt
All-reverse (c ∷ s) p =
    rw (reverse-append (c ∷ []) s)
      (All-append IsPlain (reverse s) (c ∷ []) (All-reverse s p.1) (p.0, tt))

-- A string of printable ASCII characters is trimmed to itself.
pub trim-plain : (s : List ℕ) → All IsPlain s → trim s ≡ s
unfolding trim trim_start trim_end
trim-plain s p = rw (trim_with-plain space_front s space_front-plain p) (
    rw (trim_with-plain space_back (reverse s) space_back-plain (All-reverse s p))
      (reverse-reverse s))

space_front-ascii : (c : ℕ) (s : List ℕ) → is_ascii_space c ≡ true → space_front (c ∷ s) ≡ 1
unfolding space_front
space_front-ascii c [] h = rw h refl
space_front-ascii c (d ∷ []) h = rw h refl
space_front-ascii c (d ∷ e ∷ s) h = rw h refl

-- A text without whitespace has no ASCII whitespace at its front, nor any behind.
pub has_whitespace-cons :
    (c : ℕ) (s : List ℕ)
    → has_whitespace (c ∷ s) ≡ false
    → (is_ascii_space c ≡ false) × (has_whitespace s ≡ false)
unfolding has_whitespace
has_whitespace-cons c s h = elim (Bool-cases (is_ascii_space c)) [
  | inl space ↦ absurd (cc (rw (has_whitespace, space_front-ascii c s space) at h))
  | inr plain ↦ (plain, by_front (space_front (c ∷ s)) h)
]
  where
    by_front :
        (n : ℕ)
        → ◌≡◌ {A = Bool} (elim n [ zero ↦ has_whitespace s | suc _ ↦ true ]) false
        → has_whitespace s ≡ false
    by_front zero e = e
    by_front (suc n) e = absurd (cc e)

trim_with-front :
    (space : List ℕ → ℕ) (s rest : List ℕ)
    → ((c : ℕ) (r : List ℕ) → IsPlain c → space (c ∷ r) ≡ 0)
    → All IsPlain s
    → s ≢ []
    → trim_with space 0 (s ++ rest) ≡ s ++ rest
unfolding trim_with
trim_with-front space [] rest h p some = absurd (some refl)
trim_with-front space (c ∷ s) rest h p some = rw (h c (s ++ rest) p.0, trim_with)

reverse-nonempty : (s : List ℕ) → s ≢ [] → reverse s ≢ []
reverse-nonempty s some e = some (sym (reverse-reverse s) ∙ ap reverse e)

-- A dash, a space and a printable text are trimmed to themselves.
pub trim-item : (s : List ℕ) → All IsPlain s → s ≢ [] → trim (b'-' ∷ b' ' ∷ s) ≡ b'-' ∷ b' ' ∷ s
unfolding trim trim_start trim_end
trim-item s p some =
    let item = b'-' ∷ b' ' ∷ s in
    let turned : reverse item ≡ reverse s ++ b' ' ∷ b'-' ∷ [] =
      reverse-append (b'-' ∷ b' ' ∷ []) s in
    rw
      (trim_with-front space_front (b'-' ∷ []) (b' ' ∷ s) space_front-plain (omega arith, tt)
        λ e. cc e)
      (ap reverse (
          ap (trim_with space_back 0) turned
          ∙ trim_with-front space_back (reverse s) (b' ' ∷ b'-' ∷ []) space_back-plain
              (All-reverse s p) (reverse-nonempty s some)
          ∙ sym turned)
        ∙ reverse-reverse item)

trim_with-one :
    (space : List ℕ → ℕ) (c : ℕ) (s : List ℕ)
    → space (c ∷ s) ≡ 1
    → trim_with space 0 (c ∷ s) ≡ trim_with space 0 s
unfolding trim_with
trim_with-one space c s h = rw (h, trim_with) refl

-- A space in front of a printable text is trimmed.
pub trim-space : (s : List ℕ) → All IsPlain s → trim (b' ' ∷ s) ≡ s
unfolding trim trim_start trim_end
trim-space s p =
    ap (λ t. reverse (trim_with space_back 0 (reverse t)))
      (trim_with-one space_front b' ' s (space_front-ascii b' ' s refl)
        ∙ trim_with-plain space_front s space_front-plain p)
    ∙ ap reverse (trim_with-plain space_back (reverse s) space_back-plain (All-reverse s p))
    ∙ reverse-reverse s
