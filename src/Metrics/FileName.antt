-- ===== src/Metrics/FileName.antt =====
-- The names of the timing files of one process: `record_response` of src/metrics.rs.
use tex_attestation_server.Prelude.{
  ℕ, ◌≡◌, refl, sym, ap, ◌∙◌, true, [], ◌∷◌, ◌++◌, append_assoc, arith, length, length-append, take,
  take-append, All,
}
use mathlib.Core.Path.{subst}
use tex_attestation_server.Text.{Text, lit}
use tex_attestation_server.Text.Decimal.{decimal, pad, is_digit}
use tex_attestation_server.Text.Decimal.Padded.{pad-decimal-injective, pad-All}
use tex_attestation_server.Metrics.Scope.{file_name}

abbrev Digits : Text → Type 0
Digits = All (λ c. is_digit c ≡ true)

-- Digits hold no `-`.
no_dash : (s t : Text) → Digits (s ++ b'-' ∷ t) → {B : Type 0} → B
no_dash [] t h = absurd (ground (arith, h.0))
no_dash (c ∷ s) t h = no_dash s t h.1

-- The digits behind the last `-` of a text are determined by it.
behind_dash : (s s' t t' : Text) → Digits t → Digits t' → s ++ b'-' ∷ t ≡ s' ++ b'-' ∷ t' → t ≡ t'
behind_dash [] [] t t' h h' e = cc e
behind_dash [] (c ∷ s') t t' h h' e =
    let inner : t ≡ s' ++ b'-' ∷ t' = cc e in no_dash s' t' (subst Digits inner h)
behind_dash (c ∷ s) [] t t' h h' e =
    let inner : s ++ b'-' ∷ t ≡ t' = cc e in no_dash s t (subst Digits (sym inner) h')
behind_dash (c ∷ s) (c' ∷ s') t t' h h' e = behind_dash s s' t t' h h' (cc e)

without_end : (s t ending : Text) → s ++ ending ≡ t ++ ending → s ≡ t
without_end s t ending e =
    let same : length t ≡ length s =
      omega (arith, length-append s ending, length-append t ending, ap length e) in
    sym (take-append (length s) s ending refl)
    ∙ ap (take (length s)) e
    ∙ take-append (length s) t ending same

regrouped :
    (compact : Text) (process_id seq : ℕ)
    → file_name compact process_id seq
      ≡ ((compact ++ b'-' ∷ decimal process_id) ++ b'-' ∷ pad 6 (decimal seq)) ++ lit ".json"
unfolding file_name
regrouped compact process_id seq =
    let front = compact ++ b'-' ∷ decimal process_id in
    let number = pad 6 (decimal seq) in
    sym (append_assoc compact (b'-' ∷ decimal process_id) (b'-' ∷ (number ++ lit ".json")))
    ∙ sym (append_assoc front (b'-' ∷ number) (lit ".json"))

-- Two responses of one process never write the same file: the sequence number can be read off the
-- name, whatever the times of the responses are.
file_name-injective :
    (compact compact' : Text) (process_id seq seq' : ℕ)
    → file_name compact process_id seq ≡ file_name compact' process_id seq'
    → seq ≡ seq'
file_name-injective compact compact' process_id seq seq' e =
    let cut =
      without_end ((compact ++ b'-' ∷ decimal process_id) ++ b'-' ∷ pad 6 (decimal seq))
        ((compact' ++ b'-' ∷ decimal process_id) ++ b'-' ∷ pad 6 (decimal seq')) (lit ".json")
        (sym (regrouped compact process_id seq) ∙ e ∙ regrouped compact' process_id seq') in
    pad-decimal-injective 6 seq seq' (
      behind_dash (compact ++ b'-' ∷ decimal process_id) (compact' ++ b'-' ∷ decimal process_id) _ _
        (pad-All 6 seq) (pad-All 6 seq') cut)
