-- ===== src/Logging/Sink.antt =====
-- src/logging.rs: the process-wide sink, the panic hook and the request fairing. The contents of the
-- log file are the text that the sink holds; the standard streams are left out.
use tex_attestation_server.Prelude.{
  ℕ, ◌-◌, ◌/◌, ◌==◌, Bool, true, false, Option, none, some, List, [], ◌∷◌, ◌++◌, if◌then◌else◌,
}
use tex_attestation_server.Prelude.Result.{Result, ok, err}
use tex_attestation_server.Text.{Bytes, Text, lit}
use tex_attestation_server.Text.Utf8.{from_utf8_lossy}
use tex_attestation_server.Text.Decimal.{decimal}
use tex_attestation_server.Outside.{System, IoError}
use tex_attestation_server.Tpm.Config.{Env}
use tex_attestation_server.Tpm.Machine.{join}
use tex_attestation_server.Logging.{Field, event, log_request, log_response}
use tex_attestation_server.Metrics.Scope.{Scope, Arrival, begin_request, record_response}

unfoldable pub log_file_path : Bytes → Env → Bytes
log_file_path manifest_dir env = elim (env (lit "TDX_LOG_FILE")) [
  | some path ↦ path
  | none ↦
      let dir : Bytes = elim (env (lit "TDX_LOG_DIR")) [
        | some d ↦ d
        | none ↦ join manifest_dir (lit "log")
      ] in
      join dir (lit "tdx-attestation.log")
]

-- `std::fs::OpenOptions`, which truncates a file only when it is asked to.
pub record OpenOptions : Type 0 where
  pub create : Bool
  pub append : Bool
  pub truncate : Bool

-- `OpenOptions::new().create(true).append(true)`
abbrev pub log_options : OpenOptions
log_options = record { create = true; append = true; truncate = false }

-- `std::path` and `std::fs`: the parent of a path, the creation of a directory, the opening of a file
-- with what it holds then, and what the files of a world hold, a missing one nothing.
pub record LogFiles (W : Type 0) : Type 0 where
  pub parent : Bytes → Option Bytes
  pub create_dir_all : Bytes → W → Result IoError (Unit {0}) × W
  pub open_file : OpenOptions → Bytes → W → Result IoError Text × W
  pub contents : Bytes → W → Text

-- The `?` on the creation of the directory, and the opening.
abbrev pub open_after :
    {W : Type 0} → LogFiles W → Bytes → Result IoError (Unit {0}) × W → Result IoError Text × W
open_after fs path (err e, w) = (err e, w)
open_after fs path (ok _, w) = fs.open_file log_options path w

abbrev pub open_below :
    {W : Type 0} → LogFiles W → Option Bytes → Bytes → W → Result IoError Text × W
open_below fs none path w = fs.open_file log_options path w
open_below fs (some []) path w = fs.open_file log_options path w
open_below fs (some (c ∷ dir)) path w = open_after fs path (fs.create_dir_all (c ∷ dir) w)

unfoldable pub open_log_file : {W : Type 0} → LogFiles W → Bytes → W → Result IoError Text × W
open_log_file fs path w = open_below fs (fs.parent path) path w

-- `SINK` and the hook: nothing before the first `init`, and no file if it could not be opened.
pub record Log : Type 0 where
  pub sink : Option (Option Text)
  pub hooked : Bool

-- `event`, `info`, `warn` and `error` on the sink.
unfoldable pub log_event : Text → Text → Text → List Field → Log → Log
log_event stamp level message fields log = elim log.sink [
  | none ↦ log
  | some file ↦ record log { sink = some (event file stamp level message fields) }
]

unfoldable pub info : Text → Text → List Field → Log → Log
info stamp message fields log = log_event stamp (lit "INFO") message fields log

unfoldable pub warn : Text → Text → List Field → Log → Log
warn stamp message fields log = log_event stamp (lit "WARN") message fields log

unfoldable pub error : Text → Text → List Field → Log → Log
error stamp message fields log = log_event stamp (lit "ERROR") message fields log

abbrev pub file_of : Result IoError Text → Option Text
file_of (ok text) = some text
file_of (err _) = none

-- `SINK.get_or_init`
unfoldable pub get_or_init : {W : Type 0} → LogFiles W → Bytes → Log × W → Log × W
unfolding open_log_file
get_or_init fs path (log, w) = elim log.sink [
  | some file ↦ (log, w)
  | none ↦ let (r, w') = open_log_file fs path w in (record log { sink = some (file_of r) }, w')
]

-- The end of `init`, by what the sink is: the event of the startup, if there is a file.
unfoldable pub announce : Option (Option Text) → Text → Bytes → Log → Option Bytes × Log
announce none stamp path log = (none, log)
announce (some none) stamp path log = (none, log)
announce (some (some text)) stamp path log =
    (some path, info stamp (lit "event=startup") ((lit "log_file", from_utf8_lossy path) ∷ []) log)

unfoldable pub after_open : Text → Bytes → Log → Option Bytes × Log
unfolding announce
after_open stamp path log = announce log.sink stamp path (record log { hooked = true })

unfoldable pub init :
    {W : Type 0} → LogFiles W → Bytes → Env → Text → Log × W → Option Bytes × (Log × W)
unfolding get_or_init after_open
init fs manifest_dir env stamp s =
    let path = log_file_path manifest_dir env in
    let (log, w) = get_or_init fs path s in
    let (opened, log') = after_open stamp path log in (opened, (log', w))

-- What `downcast_ref` finds in a panic.
pub data Payload : Type 0 where
  str string : Text → Payload
  other : Payload

unfoldable pub panic_payload : Payload → Text
panic_payload (str s) = s
panic_payload (string s) = s
panic_payload other = lit "<non-string panic payload>"

pub record Location : Type 0 where
  pub file : Text
  pub line : ℕ
  pub column : ℕ

abbrev location_text : Option Location → Text
location_text none = lit "unknown"
location_text (some l) = l.file ++ b':' ∷ (decimal l.line ++ b':' ∷ decimal l.column)

abbrev thread_text : Option Text → Text
thread_text none = lit "<unnamed>"
thread_text (some name) = name

-- The hook of `install_panic_hook`; the default hook that it calls then prints to the console.
unfoldable pub panic_hook : Text → Option Text → Option Location → Payload → Log → Log
panic_hook stamp thread location payload log =
    if log.hooked
    then error stamp (lit "event=panic")
        ((lit "thread", thread_text thread)
          ∷ (lit "location", location_text location)
          ∷ (lit "message", panic_payload payload)
          ∷ [])
        log
    else log

-- A request, as the fairing sees it.
pub record Request : Type 0 where
  pub id : ℕ
  pub method : Text
  pub uri : Text
  pub client : Option Text

-- What the fairing changes: the log, the start of each request in its local cache, and the timing
-- records of a debug build.
pub record Server : Type 0 where
  pub log : Log
  pub started : ℕ → Option ℕ
  pub timing : Scope

-- An event on the file, where there is one.
abbrev pub on_sink : (Option Text → Option Text) → Log → Log
on_sink f log = elim log.sink [ none ↦ log | some file ↦ record log { sink = some (f file) } ]

-- `local_cache(Instant::now)`: the first call sets it.
unfoldable pub started_at : ℕ → ℕ → Server → ℕ × Server
started_at id instant s = elim (s.started id) [
  | some first ↦ (first, s)
  | none ↦ (
    instant,
    record s { started = λ other. if id == other then some instant else s.started other },
  )
]

unfoldable pub on_request : Request → Text → Arrival → Server → Server
unfolding started_at
on_request req stamp at s =
    let (_, s') = started_at req.id at.1 s in
    record s' {
      timing = begin_request req.id req.uri at s'.timing;
      log = on_sink (λ file. log_request file stamp req.method req.uri req.client) s'.log;
    }

-- `on_response`, whose latency is in milliseconds, at an instant in microseconds.
unfoldable pub on_response :
    {W : Type 0} → System W → Bytes → Env → Request → ℕ → Text → Arrival → Server × W → Server × W
unfolding started_at
on_response sys manifest_dir env req status stamp at (s, w) =
    let (started, s') = started_at req.id at.1 s in
    let (timing, w') = record_response sys manifest_dir env req.id status at (s'.timing, w) in
    let latency_ms = (at.1 - started) / 1000 in
    (
      record s' {
        timing = timing;
        log = on_sink (λ file. log_response file stamp req.method req.uri status latency_ms) s'.log;
      },
      w',
    )
