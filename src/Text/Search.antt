-- ===== src/Text/Search.antt =====
-- Tests on the parts of a string, splits, lines and replacement.
use mathlib.Core.List.{reverse-append}
use tex_attestation_server.Prelude.{
  ℕ, Bool, true, false, ◌&&◌, ◌||◌, Option, none, some, List, [], ◌∷◌, map, reverse, ◌==◌,
  if◌then◌else◌, ◌≡◌, refl, sym, ap, ◌∙◌, ◌++◌, All, append-nil, append_assoc,
}

abbrev Text : Type 0
Text = List ℕ

-- `starts_with`
unfoldable pub starts_with : Text → Text → Bool
starts_with s [] = true
starts_with [] (p ∷ ps) = false
starts_with (c ∷ s) (p ∷ ps) = (c == p) && starts_with s ps

-- `ends_with`
unfoldable pub ends_with : Text → Text → Bool
unfolding starts_with
ends_with s p = starts_with (reverse s) (reverse p)

-- `contains`
unfoldable pub contains : Text → Text → Bool
unfolding starts_with
contains [] p = starts_with [] p
contains (c ∷ s) p = starts_with (c ∷ s) p || contains s p

-- `strip_prefix`
unfoldable pub strip_prefix : Text → Text → Option Text
strip_prefix s [] = some s
strip_prefix [] (p ∷ ps) = none
strip_prefix (c ∷ s) (p ∷ ps) = if c == p then strip_prefix s ps else none

cons_first : ℕ → Option (Text × Text) → Option (Text × Text)
cons_first c none = none
cons_first c (some (a, b)) = some (c ∷ a, b)

-- `split_once` at an ASCII character
unfoldable pub split_once : ℕ → Text → Option (Text × Text)
unfolding cons_first
split_once d [] = none
split_once d (c ∷ s) = if c == d then some ([], s) else cons_first c (split_once d s)

-- The part in front of the first `d`: `split(d).next()`.
unfoldable pub before : ℕ → Text → Text
before d [] = []
before d (c ∷ s) = if c == d then [] else c ∷ before d s

-- `replace` of one ASCII character by another
unfoldable pub replace : ℕ → ℕ → Text → Text
replace a b s = map (λ c. if c == a then b else c) s

-- A line that ends in "\r\n" loses the '\r' too.
drop_cr : Text → Text
drop_cr [] = []
drop_cr (c ∷ s) = if c == b'\r' then s else c ∷ s

-- The argument `line` is the current line, last byte first.
lines_from : Text → Text → List Text
lines_from [] [] = []
lines_from (c ∷ line) [] = reverse (c ∷ line) ∷ []
lines_from line (c ∷ s) =
    let more = lines_from (c ∷ line) s in
    let next = reverse (drop_cr line) ∷ lines_from [] s in if c == b'\n' then next else more

-- `str::lines`
unfoldable pub lines : Text → List Text
unfolding lines_from drop_cr
lines s = lines_from [] s

-- A byte that ends no line.
abbrev pub IsInLine : ℕ → Type 0
IsInLine c = ((c == b'\n') ≡ false) × ((c == b'\r') ≡ false)

lines_from-line :
    (line s rest : Text)
    → All IsInLine s
    → drop_cr line ≡ line
    → lines_from line (s ++ b'\n' ∷ rest) ≡ (reverse line ++ s) ∷ lines rest
unfolding lines lines_from
lines_from-line line [] rest h e =
    λ i. (ap reverse e ∙ sym (append-nil (reverse line))) i ∷ lines_from [] rest
lines_from-line line (c ∷ s) rest h e = rw h.0.0 (
    lines_from-line (c ∷ line) s rest h.1 (rw (h.0.1, drop_cr) refl) ∙ λ i.
    (ap (λ t. t ++ s) (reverse-append (c ∷ []) line) ∙ append_assoc (reverse line) (c ∷ []) s) i
    ∷ lines rest)

-- The first line of a text.
pub lines-line : (s rest : Text) → All IsInLine s → lines (s ++ b'\n' ∷ rest) ≡ s ∷ lines rest
unfolding lines drop_cr
lines-line s rest h = lines_from-line [] s rest h refl
