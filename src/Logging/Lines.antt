-- ===== src/Logging/Lines.antt =====
-- Reading the audit log back: the values of src/logging.rs, out of their quotes.
use tex_attestation_server.Prelude.{
  ℕ, ◌≡◌, refl, Bool, true, false, [], ◌∷◌, ◌++◌, ◌==◌, if◌then◌else◌, inl, inr, Bool-cases, List,
  Option, none, some, ◌||◌, All, All-append, append_assoc, sym, ap, ◌∙◌,
}
use tex_attestation_server.Text.{Text}
use tex_attestation_server.Text.Trim.{is_ascii_space}
use tex_attestation_server.Logging.{
  escape_quotes, needs_quotes, quote_if_needed, Field, fields_text, event_line,
}

cons_read : ℕ → Option (Text × Text) → Option (Text × Text)
cons_read c none = none
cons_read c (some (value, rest)) = some (c ∷ value, rest)

-- A reader of the text behind an opening quote, up to the closing one, with what is behind that: a
-- backslash takes the next character as it is. The flag says that a backslash came just before.
pub inside : Bool → Text → Option (Text × Text)
inside _ [] = none
inside true (c ∷ s) = cons_read c (inside false s)
inside false (c ∷ s) =
    let plain = inside false s in
    let escaped = inside true s in
    if c == b'"' then some ([], s) else if c == b'\\' then escaped else cons_read c plain

-- A reader of a bare value: it ends in front of ASCII whitespace, and a quote or a `=` is refused in it.
pub bare : Text → Option (Text × Text)
bare [] = some ([], [])
bare (c ∷ s) =
    let rest = bare s in
    if is_ascii_space c
    then some ([], c ∷ s)
    else if (c == b'"') || (c == b'=')
    then none
    else cons_read c rest

-- A reader of one value in a line, with what is behind it.
pub read_value : Text → Option (Text × Text)
read_value [] = bare []
read_value (c ∷ s) = let quoted = inside false s in if c == b'"' then quoted else bare (c ∷ s)

-- What is behind a value in a line: nothing, or whitespace.
abbrev pub Behind : Text → Type 0
Behind [] = Unit
Behind (c ∷ _) = is_ascii_space c ≡ true

-- A text without a line break.
abbrev pub NoBreak : Text → Type 0
NoBreak = All (λ c. (c == b'\n') ≡ false)

NoBreak-append : (s t : Text) → NoBreak s → NoBreak t → NoBreak (s ++ t)
NoBreak-append s t = All-append (λ c. (c == b'\n') ≡ false) s t

escape_quotes-NoBreak : (s : Text) → NoBreak s → NoBreak (escape_quotes s)
unfolding escape_quotes
escape_quotes-NoBreak [] h = tt
escape_quotes-NoBreak (c ∷ s) h = elim (Bool-cases (c == b'\\')) [
  | inl slash ↦ rw slash (refl, (refl, escape_quotes-NoBreak s h.1))
  | inr other ↦ elim (Bool-cases (c == b'"')) [
    | inl quote ↦ rw (other, quote) (refl, (refl, escape_quotes-NoBreak s h.1))
    | inr plain ↦ rw (other, plain) (h.0, escape_quotes-NoBreak s h.1)
  ]
]

quote_if_needed-NoBreak : (value : Text) → NoBreak value → NoBreak (quote_if_needed value)
unfolding quote_if_needed
quote_if_needed-NoBreak [] h = (refl, (refl, tt))
quote_if_needed-NoBreak (c ∷ s) h = elim (Bool-cases (needs_quotes (c ∷ s))) [
  | inl quoted ↦
      rw quoted (
        refl,
        NoBreak-append (escape_quotes (c ∷ s)) _ (escape_quotes-NoBreak (c ∷ s) h) (refl, tt),
      )
  | inr plain ↦ rw plain h
]

-- Keys and values without a line break.
abbrev pub FieldsNoBreak : List Field → Type 0
FieldsNoBreak = All (λ (f : Field). NoBreak f.0 × NoBreak f.1)

fields_text-NoBreak : (fields : List Field) → FieldsNoBreak fields → NoBreak (fields_text fields)
unfolding fields_text
fields_text-NoBreak [] h = tt
fields_text-NoBreak ((key, value) ∷ rest) h = (
  refl,
  NoBreak-append key _ h.0.0 (
    refl,
    NoBreak-append (quote_if_needed value) _ (quote_if_needed-NoBreak value h.0.1)
        (fields_text-NoBreak rest h.1),
  ),
)

-- An event is one line: where no part of it has a line break, its text is a text without line breaks
-- and one line break at the end, so that the lines of the log are its events.
event_line-NoBreak :
    (stamp level message : Text) (fields : List Field)
    → NoBreak stamp
    → NoBreak level
    → NoBreak message
    → FieldsNoBreak fields
    → (line : Text) × NoBreak line × (event_line stamp level message fields ≡ line ++ b'\n' ∷ [])
unfolding event_line
event_line-NoBreak stamp level message fields hs hl hm hf =
    let parts = message ++ fields_text fields in
    (
      stamp ++ b' ' ∷ (level ++ b' ' ∷ parts),
      NoBreak-append stamp _ hs (
        refl,
        NoBreak-append level _ hl
            (refl, NoBreak-append message _ hm (fields_text-NoBreak fields hf)),
      ),
      sym (
          append_assoc stamp (b' ' ∷ (level ++ b' ' ∷ parts)) (b'\n' ∷ [])
          ∙ ap (λ t. stamp ++ b' ' ∷ t)
              (append_assoc level (b' ' ∷ parts) (b'\n' ∷ [])
                ∙ ap (λ t. level ++ b' ' ∷ t)
                    (append_assoc message (fields_text fields) (b'\n' ∷ [])))),
    )
