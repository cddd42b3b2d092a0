-- ===== src/Api/Refusal.antt =====
-- Why the routes of src/api.rs that take a challenge refuse a request, and with which status.
use tex_attestation_server.Prelude.{
  ℕ, ◌≡◌, refl, sym, ap, ◌∙◌, ◌⊎◌, inl, inr, not, Bool, true, false, Option, some, none,
  if◌then◌else◌, ◌==◌, ◌++◌, ◌%◌, length, ltb,
}
use tex_attestation_server.Prelude.Result.{Result, ok, err, ok-inj, map_err, Result-cases}
use mathlib.Core.Path.{subst}
use tex_attestation_server.Prelude.Result
use tex_attestation_server.Prelude.Monad.{M}
use tex_attestation_server.Text.{Text, Bytes, lit, equal, to_ascii_lowercase}
use tex_attestation_server.Text.Trim.{trim}
use tex_attestation_server.Outside.{Crates}
use tex_attestation_server.Tpm.Types.{
  TpmError, not_implemented, invalid_input, internal, QuoteTpmRequest,
}
use tex_attestation_server.Tpm.Config.{TpmConfig}
use tex_attestation_server.Tpm.Nonce.{
  max_qualifying_data_len, check_bytes, normalize_nonce, choose_value, resolved_nonce,
}
use tex_attestation_server.Tpm.Machine.{Host, Machine}
use tex_attestation_server.Tpm.Cycle
use tex_attestation_server.Tpm.Combined
use tex_attestation_server.Api.{
  ApiError, Json, from_tpm, read_body, parse_json, quote_tpm, attestation_all,
}
use tex_attestation_server.Api.Evidence.{Challenged, challenge_of}

-- The status of an error of the backend, by the documents of the server: 501 where the host has no TPM
-- or no TDX, 400 where the input is at fault, and 500 otherwise.
pub status_of : TpmError → ℕ
status_of (not_implemented _) = 501
status_of (invalid_input _) = 400
status_of (internal _) = 500

pub message_of : TpmError → Text
message_of (not_implemented message) = message
message_of (invalid_input message) = message
message_of (internal message) = message

from_tpm-status_of : (t : TpmError) → (from_tpm t).status ≡ status_of t
unfolding from_tpm status_of
from_tpm-status_of (not_implemented message) = refl
from_tpm-status_of (invalid_input message) = refl
from_tpm-status_of (internal message) = refl

from_tpm-message_of : (t : TpmError) → (from_tpm t).message ≡ message_of t
unfolding from_tpm message_of
from_tpm-message_of (not_implemented message) = refl
from_tpm-message_of (invalid_input message) = refl
from_tpm-message_of (internal message) = refl

-- An error, if it is one, that the input is at fault for.
abbrev OnlyInvalid : {A : Type 0} → Result TpmError A → Type 0
OnlyInvalid (ok _) = Unit
OnlyInvalid (err t) = status_of t ≡ 400

>>=-OnlyInvalid :
    {A B : Type 0} (first : Result TpmError A) (next : A → Result TpmError B)
    → OnlyInvalid first
    → ((a : A) → OnlyInvalid (next a))
    → OnlyInvalid (Result.◌>>=◌ first next)
>>=-OnlyInvalid (ok a) next h k = k a
>>=-OnlyInvalid (err t) next h k = h

if-OnlyInvalid :
    {A : Type 0} (test : Bool) (a b : Result TpmError A)
    → OnlyInvalid a
    → OnlyInvalid b
    → OnlyInvalid (if test then a else b)
if-OnlyInvalid true a b ha hb = ha
if-OnlyInvalid false a b ha hb = hb

map_err-OnlyInvalid :
    {A E : Type 0} (message : E → Text) (r : Result E A)
    → OnlyInvalid (map_err (λ e. invalid_input (message e)) r)
unfolding status_of
map_err-OnlyInvalid message (ok a) = tt
map_err-OnlyInvalid message (err e) = refl

choose_value-OnlyInvalid : (a b : Option Text) → OnlyInvalid (choose_value a b)
unfolding choose_value status_of
choose_value-OnlyInvalid (some a) (some b) =
    if-OnlyInvalid (not (equal (to_ascii_lowercase (trim a)) (to_ascii_lowercase (trim b)))) _ _
      refl tt
choose_value-OnlyInvalid (some a) none = tt
choose_value-OnlyInvalid none (some b) = tt
choose_value-OnlyInvalid none none = refl

check_bytes-OnlyInvalid : (c : Crates) (bytes : Bytes) → OnlyInvalid (check_bytes c bytes)
unfolding check_bytes status_of
check_bytes-OnlyInvalid c bytes =
    if-OnlyInvalid (length bytes == 0) _ _ refl
      (if-OnlyInvalid (ltb max_qualifying_data_len (length bytes)) _ _ refl tt)

normalize_nonce-OnlyInvalid : (c : Crates) (nonce : Text) → OnlyInvalid (normalize_nonce c nonce)
unfolding normalize_nonce status_of
normalize_nonce-OnlyInvalid c nonce = if-OnlyInvalid (length (trim nonce) == 0) _ _ refl (
    if-OnlyInvalid (not (length (trim nonce) % 2 == 0)) _ _ refl (
      >>=-OnlyInvalid _ _
        (map_err-OnlyInvalid (λ e. lit "the nonce is not valid hex: " ++ e)
          (c.hex_decode (trim nonce)))
        λ bytes. check_bytes-OnlyInvalid c bytes))

-- A challenge is refused as invalid input only.
resolved_nonce-OnlyInvalid :
    (c : Crates) (request : QuoteTpmRequest) → OnlyInvalid (resolved_nonce c request)
unfolding resolved_nonce
resolved_nonce-OnlyInvalid c request =
    >>=-OnlyInvalid _ _ (choose_value-OnlyInvalid request.nonce request.challenge)
      λ value. >>=-OnlyInvalid _ _ (normalize_nonce-OnlyInvalid c value) λ n. tt

err-inj : {E A : Type 0} {a b : E} → ◌≡◌ {A = Result E A} (err a) (err b) → a ≡ b
err-inj h = cc h

module _ {W : Type 0} (h : Host W) (json : Json) {A : Type 0}
    (backend : Text → M (Machine W) TpmError A) (request_body : Result Text Text)
    (m : Machine W) where
  -- Why there is an error: the request names no challenge, and the status is 400; or the backend
  -- refused the challenge, and the status and the message are those of its error.
  abbrev pub Refused : ApiError → Type 0
  Refused e =
      (((nonce : Text) → ¬ Challenged h json request_body nonce) × (e.status ≡ 400))
      ⊎ ((nonce : Text) × (t : TpmError) × Challenged h json request_body nonce
          × ((backend nonce m).0 ≡ err t)
          × (e.status ≡ status_of t)
          × (e.message ≡ message_of t))

  challenge_of-Refused :
      (e : ApiError) → (challenge_of h json backend request_body m).0 ≡ err e → Refused e
  unfolding read_body parse_json
  challenge_of-Refused e is = elim (Result-cases request_body) [
    | inr (x, bad) ↦ inl (
      λ nonce (body, request, r, j, n). cc (bad, r),
      ap (λ (a : ApiError). a.status) (sym (err-inj (rw bad at is))),
    )
    | inl (body, read) ↦ elim (Result-cases (json.quote_request body)) [
      | inr (x, bad) ↦ inl (
        λ nonce (body', request, r, j, n).
            let same = ok-inj (sym read ∙ r) in cc (bad, ap json.quote_request same, j),
        ap (λ (a : ApiError). a.status) (sym (err-inj (rw (read, bad) at is))),
      )
      | inl (request, parsed) ↦ elim (Result-cases (resolved_nonce h.crates request)) [
        | inr (x, bad) ↦ inl (
          λ nonce (body', request', r, j, n).
              let same = ok-inj (sym parsed ∙ ap json.quote_request (ok-inj (sym read ∙ r)) ∙ j) in
              cc (bad, ap (resolved_nonce h.crates) same, n),
          ap (λ (a : ApiError). a.status) (sym (err-inj (rw (read, parsed, bad) at is)))
              ∙ from_tpm-status_of x
              ∙ subst OnlyInvalid bad (resolved_nonce-OnlyInvalid h.crates request),
        )
        | inl (nonce, resolved) ↦ elim (Result-cases (backend nonce m).0) [
          | inl (a, done) ↦ absurd (cc (rw (read, parsed, resolved, done) at is))
          | inr (t, failed) ↦
              let same = err-inj (rw (read, parsed, resolved, failed) at is) in
              inr (
                nonce,
                t,
                (body, request, read, parsed, resolved),
                failed,
                ap (λ (a : ApiError). a.status) (sym same) ∙ from_tpm-status_of t,
                ap (λ (a : ApiError). a.message) (sym same) ∙ from_tpm-message_of t,
              )
        ]
      ]
    ]
  ]

module _ {W : Type 0} (h : Host W) (config : TpmConfig) (json : Json)
    (request_body : Result Text Text) (m : Machine W) where
  -- The same for the route quote_tpm.
  quote_tpm-Refused :
      (e : ApiError)
      → (quote_tpm h config json request_body m).0 ≡ err e
      → Refused h json (Cycle.quote_tpm h config) request_body m e
  unfolding quote_tpm
  quote_tpm-Refused e is =
      challenge_of-Refused h json (Cycle.quote_tpm h config) request_body m e is

  -- An error of the route attestation_all has one of two reasons. Either the body cannot be read, is no
  -- JSON of a request, or names no challenge in hex, and the status is 400; or the backend refused
  -- that challenge, and the answer has the message of its error and the status that stands for it,
  -- 501 for what the host has not, 400 for invalid input and 500 for the rest.
  pub attestation_all-Refused :
      (e : ApiError)
      → (attestation_all h config json request_body m).0 ≡ err e
      → Refused h json (Combined.attestation_all h config) request_body m e
  unfolding attestation_all
  attestation_all-Refused e is =
      challenge_of-Refused h json (Combined.attestation_all h config) request_body m e is
