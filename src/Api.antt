-- ===== src/Api.antt =====
-- src/api.rs: the error responses and the route handlers. Rocket decides the route, reads the body
-- and writes the response; a handler is a function from the parameters to the response.
pub mod Trust
pub mod Evidence
pub mod Refusal
pub mod Routes
pub mod Logged
pub mod Launch
use tex_attestation_server.Prelude.{
  ℕ, Bool, true, false, Option, none, some, [], ◌∷◌, ◌++◌, if◌then◌else◌,
}
use tex_attestation_server.Prelude.Result
use tex_attestation_server.Prelude.Result.{Result, ok, err, map_err}
use tex_attestation_server.Prelude.Monad.{M, pure, ◌>>=◌, lift, convert}
use tex_attestation_server.Text.{Bytes, Text, lit}
use tex_attestation_server.Outside.{Crates, IoError, Output}
use tex_attestation_server.Attestation
use tex_attestation_server.Attestation.{AttestationError, generate_tdx_report, verify_tdx_report}
use tex_attestation_server.Report.{ParseReportResponse, parse_tdreport}
use tex_attestation_server.Logging.{log_error}
use tex_attestation_server.Gpu
use tex_attestation_server.Gpu.{GpuError, GpuAttestation}
use tex_attestation_server.Tpm.Types
use tex_attestation_server.Tpm.Types.{
  TpmError, QuoteTpmRequest, InformationTpmResponse, QuoteTpmResponse, AttestationAllResponse,
  VerifyAllResponse,
}
use tex_attestation_server.Tpm.Config.{TpmConfig}
use tex_attestation_server.Tpm.Nonce.{resolved_nonce}
use tex_attestation_server.Tpm.Machine.{Host, Machine}
use tex_attestation_server.Tpm.Cycle
use tex_attestation_server.Tpm.Combined

-- The payloads of the routes.
pub record AttestationResponse : Type 0 where
  pub report : Text

pub record VerifyReportResponse : Type 0 where
  pub trusted : Bool

pub record ErrorResponse : Type 0 where
  pub error : Text

pub record GpuAttestationResponse : Type 0 where
  pub gpu_attestation : GpuAttestation

pub record ApiError : Type 0 where
  pub status : ℕ
  pub message : Text

abbrev pub api_error : ℕ → Text → ApiError
api_error s m = record { status = s; message = m }

abbrev pub bad_request : Text → ApiError
bad_request m = api_error 400 m

-- `From<AttestationError>`
unfoldable pub from_attestation : AttestationError → ApiError
from_attestation Attestation.not_implemented =
    api_error 501 (lit "TDX attestation is not implemented on this host")
from_attestation (Attestation.invalid_input msg) = api_error 400 msg
from_attestation (Attestation.internal msg) = api_error 500 msg

-- `From<TpmError>`
unfoldable pub from_tpm : TpmError → ApiError
from_tpm (Types.not_implemented msg) = api_error 501 msg
from_tpm (Types.invalid_input msg) = api_error 400 msg
from_tpm (Types.internal msg) = api_error 500 msg

-- `From<GpuError>`
unfoldable pub from_gpu : GpuError → ApiError
from_gpu (Gpu.not_implemented msg) = api_error 501 msg
from_gpu (Gpu.internal msg) = api_error 500 msg

-- The `Responder`: the error is logged, and its message is the JSON body.
unfoldable pub respond_to :
    ApiError → Option Bytes → Text → Text → Text → Option Bytes × (ℕ × ErrorResponse)
respond_to e sink stamp method uri =
    (log_error sink stamp method uri e.status e.message, (e.status, record { error = e.message }))

-- The catchers, for requests that reach no route or end in a panic.
pub data Caught : Type 0 where
  malformed not_found unprocessable panicked : Caught

unfoldable pub caught_error : Caught → ApiError
caught_error malformed =
    api_error 400 (lit "the request could not be understood (malformed syntax)")
caught_error not_found = api_error 404 (lit "resource not found")
caught_error unprocessable = api_error 422 (lit "the request parameters could not be processed")
caught_error panicked = api_error 500 (lit "internal server error")

-- A handler on the state that the requests share.
abbrev pub Handler : Type 0 → Type 0 → Type 0
Handler W A = M (Machine W) ApiError A

unfoldable pub ping : Text
ping = lit "pong"

-- The body of a request as text, or the message of the error of reading it.
unfoldable pub read_body : Result Text Text → Result ApiError Text
read_body body = map_err (λ e. bad_request (lit "could not read body: " ++ e)) body

-- `hex::decode` of the field `report`.
unfoldable pub decode_report : Crates → Text → Result ApiError Bytes
decode_report c report =
    map_err (λ e. bad_request (lit "'report' is not a valid hex string: " ++ e))
      (c.hex_decode report)

-- A call of the TDX backend, in the world of the machine.
abbrev pub on_tdx : {W A : Type 0} → M W AttestationError A → Handler W A
on_tdx f m = let (r, w) = f m.world in (map_err from_attestation r, record m { world = w })

unfoldable pub required_rn : Option Text → Result ApiError Text
required_rn none = err (bad_request (lit "missing query parameter 'rn'"))
required_rn (some rn) = ok rn

-- What `serde_json::from_str` reads, for the type of each request.
pub record Json : Type 0 where
  pub report_field : Text → Result Text Text
  pub quote_request : Text → Result Text QuoteTpmRequest
  pub all_response : Text → Result Text AttestationAllResponse

unfoldable pub parse_json : {A : Type 0} → (Text → Result Text A) → Text → Result ApiError A
parse_json from_str body =
    map_err (λ e. bad_request (lit "invalid JSON body: " ++ e)) (from_str body)

module _ {W : Type 0} (h : Host W) (config : TpmConfig) (json : Json) where
  unfoldable pub attestation_with_random_number : Option Text → Handler W AttestationResponse
  attestation_with_random_number query = do
    rn ← lift (required_rn query)
    random_number ← lift (
        map_err (λ e. bad_request (lit "'rn' is not a valid hex string: " ++ e))
          (h.crates.hex_decode rn))
    report ← on_tdx (generate_tdx_report h.system random_number)
    pure (record { report = h.crates.hex_encode report })

  unfoldable pub verify_report : Result Text Text → Handler W VerifyReportResponse
  verify_report request_body = do
    body ← lift (read_body request_body)
    request ← lift (parse_json json.report_field body)
    report ← lift (decode_report h.crates request)
    trusted ← on_tdx (verify_tdx_report h.system report)
    pure (record { trusted = trusted })

  unfoldable pub parse_report : Result Text Text → Handler W ParseReportResponse
  parse_report request_body = do
    body ← lift (read_body request_body)
    request ← lift (parse_json json.report_field body)
    report ← lift (decode_report h.crates request)
    lift (map_err from_attestation (parse_tdreport h.crates report))

  -- `script` is the path of the script, and `present` says whether it is a file. The working
  -- directory of the call, which is that of the script, is left out.
  unfoldable pub gpu_attestation : Text → Bool → Handler W GpuAttestationResponse
  gpu_attestation script present m =
      let (answer, w) = h.system.spawn (lit "sh") (script ∷ []) m.world in
      let world' = if present then w else m.world in
      (
        Result.map (λ a. record { gpu_attestation = a })
            (map_err from_gpu (Gpu.gpu_attestation script present answer)),
        record m { world = world' },
      )

  unfoldable pub information_tpm : Handler W InformationTpmResponse
  information_tpm = convert from_tpm (Cycle.information_tpm h config)

  unfoldable pub quote_tpm : Result Text Text → Handler W QuoteTpmResponse
  quote_tpm request_body = do
    body ← lift (read_body request_body)
    request ← lift (parse_json json.quote_request body)
    nonce ← lift (map_err from_tpm (resolved_nonce h.crates request))
    convert from_tpm (Cycle.quote_tpm h config nonce)

  unfoldable pub attestation_all : Result Text Text → Handler W AttestationAllResponse
  attestation_all request_body = do
    body ← lift (read_body request_body)
    request ← lift (parse_json json.quote_request body)
    nonce ← lift (map_err from_tpm (resolved_nonce h.crates request))
    convert from_tpm (Combined.attestation_all h config nonce)

  unfoldable pub verify_all : Result Text Text → Handler W VerifyAllResponse
  verify_all request_body = do
    body ← lift (read_body request_body)
    request ← lift (parse_json json.all_response body)
    convert from_tpm (Combined.verify_all h config request)
