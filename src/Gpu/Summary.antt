-- ===== src/Gpu/Summary.antt =====
-- Which line decides about the GPUs: the verdict of src/gpu.rs.
use tex_attestation_server.Prelude.{
  ◌≡◌, refl, ap, ◌∙◌, true, false, none, some, List, [], ◌∷◌, ◌++◌, All,
}
use tex_attestation_server.Text.{Text, lit, equal, to_ascii_lowercase}
use tex_attestation_server.Text.Trim.{trim}
use tex_attestation_server.Text.Search.{contains, strip_prefix, split_once}
use tex_attestation_server.Gpu.{Parser, start, parse_line, parse_lines, says_successful, finish}

-- A line that is no device header and no `key: value`.
pub record IsPlainLine (line : Text) : Type 0 where
  pub some_left : equal (trim line) [] ≡ false
  pub no_header : strip_prefix (trim line) (lit "- Device ") ≡ none
  pub no_colon : split_once b':' (trim line) ≡ none

parse_lines-append :
    (p : Parser) (before after : List Text)
    → parse_lines p (before ++ after) ≡ parse_lines (parse_lines p before) after
unfolding parse_lines
parse_lines-append p [] after = refl
parse_lines-append p (line ∷ rest) after = parse_lines-append (parse_line p line) rest after

-- The parser after blank lines is the parser before them.
parse_line-blank : (p : Parser) (line : Text) → equal (trim line) [] ≡ true → parse_line p line ≡ p
unfolding parse_line
parse_line-blank p line h = rw h refl

parse_lines-blank :
    (p : Parser) (blank : List Text)
    → All (λ line. equal (trim line) [] ≡ true) blank
    → parse_lines p blank ≡ p
unfolding parse_lines
parse_lines-blank p [] h = refl
parse_lines-blank p (line ∷ rest) h =
    ap (λ q. parse_lines q rest) (parse_line-blank p line h.0) ∙ parse_lines-blank p rest h.1

parse_line-plain :
    (p : Parser) (line : Text) → IsPlainLine line → (parse_line p line).summary ≡ some (trim line)
unfolding parse_line
parse_line-plain p line h = rw h.some_left rw h.no_header rw h.no_colon refl

finish_lem :
    (p : Parser) (s : Text)
    → p.summary ≡ some s
    → ((finish p).summary ≡ some s)
      × ((finish p).successful ≡ contains (to_ascii_lowercase s) (lit "successful"))
unfolding finish says_successful
finish_lem p s h = (h, rw h refl)

-- A plain line that only blank lines follow decides: it is the summary, and the GPUs are attested if
-- and only if it contains `successful`, in any case of letters. The lines before it do not matter.
pub finish-last :
    (before after : List Text) (line : Text)
    → IsPlainLine line
    → All (λ blank. equal (trim blank) [] ≡ true) after
    → ((finish (parse_lines start (before ++ line ∷ after))).summary ≡ some (trim line))
      × ((finish (parse_lines start (before ++ line ∷ after))).successful
          ≡ contains (to_ascii_lowercase (trim line)) (lit "successful"))
unfolding parse_lines
finish-last before after line plain blank =
    finish_lem (parse_lines start (before ++ line ∷ after)) (trim line) (
      ap (λ (q : Parser). q.summary)
        (parse_lines-append start before (line ∷ after)
          ∙ parse_lines-blank (parse_line (parse_lines start before) line) after blank)
      ∙ parse_line-plain (parse_lines start before) line plain)
