-- ===== src/Tpm/Command/Listing.antt =====
-- The list of handles that `tpm2_getcap` prints, and how src/tpm.rs reads it.
use tex_attestation_server.Prelude.{
  ◌≡◌, ◌≢◌, refl, ap, ◌∙◌, List, [], ◌∷◌, ◌++◌, ◌||◌, any, All, arith,
}
use tex_attestation_server.Text.{Text, equal, to_ascii_lowercase}
use tex_attestation_server.Text.Trim.{IsPlain, trim, trim_start_matches, trim-item, trim-space}
use tex_attestation_server.Text.Search.{lines, IsInLine, lines-line}
use tex_attestation_server.Tpm.Command.{handle_of, lists_handle}

-- A handle, in printable characters.
abbrev pub IsHandle : Text → Type 0
IsHandle handle = All IsPlain handle × (handle ≢ [])

-- The YAML list that tpm2-tools documents: a line of a dash, a space and the handle for each.
unfoldable pub listed : List Text → Text
listed [] = []
listed (handle ∷ rest) = b'-' ∷ b' ' ∷ (handle ++ b'\n' ∷ listed rest)

plain-IsInLine : (s : Text) → All IsPlain s → All IsInLine s
plain-IsInLine [] h = tt
plain-IsInLine (c ∷ s) h = ((ground (arith, h), ground (arith, h)), plain-IsInLine s h.1)

handle_of-item :
    (handle : Text) → IsHandle handle → handle_of (b'-' ∷ b' ' ∷ handle) ≡ to_ascii_lowercase handle
unfolding handle_of trim_start_matches
handle_of-item handle h =
    ap (λ t. to_ascii_lowercase (trim (trim_start_matches b'-' t))) (trim-item handle h.0 h.1)
    ∙ ap to_ascii_lowercase (trim-space handle h.0)

-- Whether a handle is in the list, as the server reads it: whatever the case of its letters.
pub lists_handle-listed :
    (handles : List Text) (wanted : Text)
    → All IsHandle handles
    → lists_handle (listed handles) wanted
      ≡ any (λ handle. equal (to_ascii_lowercase handle) (to_ascii_lowercase (trim wanted))) handles
unfolding lists_handle listed lines
lists_handle-listed [] wanted h = refl
lists_handle-listed (handle ∷ rest) wanted h =
    let target = to_ascii_lowercase (trim wanted) in
    let item = b'-' ∷ b' ' ∷ handle in
    let in_line : All IsInLine item = ((refl, refl), ((refl, refl), plain-IsInLine handle h.0.0)) in
    (λ i. any (λ line. equal (handle_of line) target) (lines-line item (listed rest) in_line i))
    ∙ λ i. equal (handle_of-item handle h.0 i) target || lists_handle-listed rest wanted h.1 i
