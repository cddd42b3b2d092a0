-- ===== src/Api/Routes.antt =====
-- The routes and catchers that src/lib.rs mounts, with the methods and paths that src/api.rs gives them.
-- What route of those Rocket takes a request to, by its method and path, is a parameter.
use mathlib.Core.Option.{some-injective}
use tex_attestation_server.Prelude.{
  sym, ◌∙◌, ℕ, ◌≡◌, refl, Bool, ◌&&◌, Option, none, some, List, [], ◌∷◌, ◌==◌, if◌then◌else◌,
}
use tex_attestation_server.Prelude.Result.{Result, ok, err}
use tex_attestation_server.Text.{Bytes, Text, lit, equal}
use tex_attestation_server.Report.{ParseReportResponse}
use tex_attestation_server.Tpm.Types.{
  InformationTpmResponse, QuoteTpmResponse, AttestationAllResponse, VerifyAllResponse,
}
use tex_attestation_server.Tpm.Config.{TpmConfig}
use tex_attestation_server.Tpm.Machine.{Host, Machine}
use tex_attestation_server.Api
use tex_attestation_server.Api.{
  AttestationResponse, VerifyReportResponse, ErrorResponse, GpuAttestationResponse, ApiError,
  respond_to, Caught, malformed, not_found, unprocessable, panicked, caught_error, Json,
}

pub data Route : Type 0 where
  ping attestation_with_random_number verify_report parse_report gpu_attestation : Route
  information_tpm quote_tpm attestation_all verify_all : Route

-- `routes!` of `rocket`
unfoldable pub routes : List Route
routes =
    ping ∷ attestation_with_random_number ∷ verify_report ∷ parse_report ∷ gpu_attestation
    ∷ information_tpm ∷ quote_tpm ∷ attestation_all ∷ verify_all ∷ []

unfoldable pub method_of : Route → Text
method_of ping = lit "GET"
method_of attestation_with_random_number = lit "GET"
method_of verify_report = lit "POST"
method_of parse_report = lit "POST"
method_of gpu_attestation = lit "GET"
method_of information_tpm = lit "GET"
method_of quote_tpm = lit "POST"
method_of attestation_all = lit "POST"
method_of verify_all = lit "POST"

unfoldable pub path_of : Route → Text
path_of ping = lit "/ping"
path_of attestation_with_random_number = lit "/attestation-with-randomnumber"
path_of verify_report = lit "/verify-report"
path_of parse_report = lit "/parse-report"
path_of gpu_attestation = lit "/gpu-attestation"
path_of information_tpm = lit "/information_tpm"
path_of quote_tpm = lit "/quote_tpm"
path_of attestation_all = lit "/attestation_all"
path_of verify_all = lit "/verify_all"

-- `catchers!` of `rocket`
unfoldable pub catcher : ℕ → Option Caught
catcher code =
    if code == 400
    then some malformed
    else if code == 404
    then some not_found
    else if code == 422
    then some unprocessable
    else if code == 500
    then some panicked
    else none

-- What Rocket does with a request: it forwards it to a route, or fails it with a code before a route
-- answers, for no route matches, or the request or its parameters cannot be parsed, or a panic.
pub data Routed : Type 0 where
  forwarded : Route → Routed
  failed_with : ℕ → Routed

-- A request that Rocket has read: its path and its URI, the parameter `rn`, and the body.
pub record Incoming : Type 0 where
  pub method : Text
  pub path : Text
  pub uri : Text
  pub rn : Option Text
  pub body : Result Text Text

pub data Payload : Type 0 where
  pong : Text → Payload
  attested : AttestationResponse → Payload
  verified : VerifyReportResponse → Payload
  parsed : ParseReportResponse → Payload
  gpu : GpuAttestationResponse → Payload
  information : InformationTpmResponse → Payload
  quoted : QuoteTpmResponse → Payload
  combined : AttestationAllResponse → Payload
  judged : VerifyAllResponse → Payload
  failed : ErrorResponse → Payload
  -- the page of Rocket for a code without a catcher
  default_page : Payload

abbrev pub Reply : Type 0
Reply = ℕ × Payload

-- The GPU script: its path, and whether it is a file.
abbrev pub Script : Type 0
Script = Text × Bool

module _ (sink : Option Bytes) (stamp : Text) (req : Incoming) where
  -- An error, logged and answered.
  unfoldable pub refuse : ApiError → Option Bytes × Reply
  refuse e =
      let (sink', (status, body)) = respond_to e sink stamp req.method req.uri in
      (sink', (status, failed body))

  -- The answer of a handler.
  unfoldable pub reply : {A : Type 0} → (A → Payload) → Result ApiError A → Option Bytes × Reply
  unfolding refuse
  reply wrap (ok a) = (sink, (200, wrap a))
  reply wrap (err e) = refuse e

  -- The answer to a code, by its catcher.
  unfoldable pub answer_failed : ℕ → Option Caught → Option Bytes × Reply
  unfolding refuse
  answer_failed code (some caught) = refuse (caught_error caught)
  answer_failed code none = (sink, (code, default_page))

  module _ {W : Type 0} (h : Host W) (config : TpmConfig) (json : Json) (script : Script) where
    -- The handler that a route names, on the state that the requests share.
    unfoldable pub handle : Route → Machine W → (Option Bytes × Reply) × Machine W
    unfolding reply
    handle ping m = ((sink, (200, pong Api.ping)), m)
    handle attestation_with_random_number m =
        let (r, m') = Api.attestation_with_random_number h config json req.rn m in
        (reply attested r, m')
    handle verify_report m =
        let (r, m') = Api.verify_report h config json req.body m in (reply verified r, m')
    handle parse_report m =
        let (r, m') = Api.parse_report h config json req.body m in (reply parsed r, m')
    handle gpu_attestation m =
        let (r, m') = Api.gpu_attestation h config json script.0 script.1 m in (reply gpu r, m')
    handle information_tpm m =
        let (r, m') = Api.information_tpm h config json m in (reply information r, m')
    handle quote_tpm m =
        let (r, m') = Api.quote_tpm h config json req.body m in (reply quoted r, m')
    handle attestation_all m =
        let (r, m') = Api.attestation_all h config json req.body m in (reply combined r, m')
    handle verify_all m =
        let (r, m') = Api.verify_all h config json req.body m in (reply judged r, m')

    -- A request that fails is answered by the catcher of its code, or by a page of Rocket.
    unfoldable pub dispatch : Routed → Machine W → (Option Bytes × Reply) × Machine W
    unfolding handle answer_failed
    dispatch (forwarded r) m = handle r m
    dispatch (failed_with code) m = (answer_failed code (catcher code), m)

    -- One request, on the route that Rocket finds among those mounted.
    unfoldable pub serve :
        (List Route → Text → Text → Routed) → Machine W → (Option Bytes × Reply) × Machine W
    unfolding dispatch
    serve router m = dispatch (router routes req.method req.path) m

-- The first route of a list with a method and a path.
unfoldable pub find_route : Text → Text → List Route → Option Route
find_route method path [] = none
find_route method path (r ∷ rest) =
    if equal (method_of r) method && equal (path_of r) path
    then some r
    else find_route method path rest

find_route-path_of : (r : Route) → find_route (method_of r) (path_of r) routes ≡ some r
unfolding find_route method_of path_of routes lit equal
find_route-path_of ping = refl
find_route-path_of attestation_with_random_number = refl
find_route-path_of verify_report = refl
find_route-path_of parse_report = refl
find_route-path_of gpu_attestation = refl
find_route-path_of information_tpm = refl
find_route-path_of quote_tpm = refl
find_route-path_of attestation_all = refl
find_route-path_of verify_all = refl

-- No two mounted routes have the same method and the same path, so that no request fits two of them.
path_of-injective : (r r' : Route) → method_of r ≡ method_of r' → path_of r ≡ path_of r' → r ≡ r'
path_of-injective r r' same_method same_path = some-injective r r' (
    sym (find_route-path_of r)
    ∙ (λ i. find_route (same_method i) (same_path i) routes)
    ∙ find_route-path_of r')
