-- ===== src/Metrics/Scope.antt =====
-- src/metrics.rs: the recorders of the requests, the request that a thread handles, and the points
-- that measure it. A request and a thread are numbers; a recorder is the one that the local cache of
-- its request keeps, and a lock that a panic poisoned still gives it.
use tex_attestation_server.Prelude.{
  ℕ, ◌+◌, ◌-◌, ◌^◌, ◌%◌, Option, none, some, [], ◌∷◌, ◌++◌, ◌==◌, if◌then◌else◌,
}
use tex_attestation_server.Prelude.Result.{ok, err}
use tex_attestation_server.Text.{Bytes, Text, lit}
use tex_attestation_server.Text.Decimal.{decimal, pad}
use tex_attestation_server.Clock.{metrics_timestamp}
use tex_attestation_server.Outside.{System}
use tex_attestation_server.Tpm.Config.{Env}
use tex_attestation_server.Tpm.Machine.{join}
use tex_attestation_server.Metrics
use tex_attestation_server.Metrics.{
  Recorder, new_recorder, Kind, stage, unit, finish_span, route_of, render,
}

-- The local caches, `CURRENT` of each thread, `INFLIGHT` and `FILE_SEQ`.
pub record Scope : Type 0 where
  pub cache : ℕ → Option Recorder
  pub current : ℕ → Option ℕ
  pub inflight : ℕ
  pub file_seq : ℕ

unfoldable pub set_at {ℓ} : {A : Type ℓ} → (ℕ → A) → ℕ → A → ℕ → A
set_at f i a j = if i == j then a else f j

-- When a recorder is made: the wall clock and the monotonic clock.
abbrev pub Arrival : Type 0
Arrival = Option ℕ × ℕ

-- `recorder`: the first call makes it.
unfoldable pub recorder : ℕ → Arrival → Scope → Recorder × Scope
recorder req (now, instant) s = elim (s.cache req) [
  | some rec ↦ (rec, s)
  | none ↦
      let rec = new_recorder now instant s.inflight in
      (rec, record s { cache = set_at s.cache req (some rec) })
]

unfoldable pub put : ℕ → Recorder → Scope → Scope
unfolding set_at
put req rec s = record s { cache = set_at s.cache req (some rec) }

abbrev pub named : Text → Recorder → Recorder
named uri rec = record rec { route = elim rec.route [ [] ↦ route_of uri | _ ∷ _ ↦ rec.route ] }

-- `begin`, on the thread of the handler.
unfoldable pub begin : ℕ → ℕ → Text → Arrival → Scope → Scope
unfolding recorder put
begin thread req uri at s =
    let (rec, s') = recorder req at s in
    let s'' = put req (named uri rec) s' in
    record s'' { current = set_at s''.current thread (some req) }

-- `end`: the guard is dropped when the handler returns.
unfoldable pub end : ℕ → Scope → Scope
unfolding set_at
end thread s = record s { current = set_at s.current thread none }

-- A change of the recorder of a request.
unfoldable pub change : ℕ → (Recorder → Recorder) → Scope → Scope
unfolding put
change req f s = elim (s.cache req) [ none ↦ s | some rec ↦ put req (f rec) s ]

-- `with_current`
unfoldable pub with_current : ℕ → (Recorder → Recorder) → Scope → Scope
unfolding change
with_current thread f s = elim (s.current thread) [ none ↦ s | some req ↦ change req f s ]

pub record Span : Type 0 where
  pub name : Text
  pub kind : Kind
  pub started : Option ℕ
  pub rec : Option ℕ

-- `start`, which `span` and `unit` call.
unfoldable pub start : ℕ → Text → Kind → ℕ → Scope → Span
start thread name kind now s = record {
  name = name;
  kind = kind;
  started = some now;
  rec = s.current thread;
}

-- `Span::finish`, which `end` and `Drop` call: it takes the start and the recorder out of the span.
unfoldable pub finish : ℕ → Span → Scope → Span × Scope
unfolding change
finish now span s =
    let taken : Span = record { name = span.name; kind = span.kind; started = none; rec = none } in
    elim span.started [
      | none ↦ (taken, s)
      | some started ↦ elim span.rec [
        | none ↦ (taken, s)
        | some req ↦ (taken, change req (finish_span span.kind span.name started now) s)
      ]
    ]

unfoldable pub count : ℕ → Text → ℕ → Scope → Scope
count thread name value = with_current thread (Metrics.count name value)

unfoldable pub mark_cold : ℕ → Scope → Scope
mark_cold thread = with_current thread Metrics.mark_cold

unfoldable pub enter_handler : ℕ → ℕ → Scope → Scope
enter_handler thread now = with_current thread (Metrics.enter_handler now)

-- `measure_json`: the text is thrown away, and the time it took is a stage.
unfoldable pub measure_json : ℕ → ℕ → ℕ → Scope → Scope
measure_json thread started ended s =
    (finish ended (start thread (lit "serialize_us") stage started s) s).1

-- `begin_request`
unfoldable pub begin_request : ℕ → Text → Arrival → Scope → Scope
unfolding recorder put
begin_request req uri at s =
    let (rec, s') = recorder req at s in
    let (inflight, rec') = Metrics.begin_request uri (s.inflight, rec) in
    record (put req rec' s') { inflight = inflight }

-- The name of the file of a response.
unfoldable pub file_name : Text → ℕ → ℕ → Text
file_name compact process_id seq =
    compact ++ b'-' ∷ (decimal process_id ++ b'-' ∷ (pad 6 (decimal seq) ++ lit ".json"))

-- `timing_dir`: the build sets `CARGO_MANIFEST_DIR`.
unfoldable pub timing_dir : Bytes → Env → Bytes
timing_dir manifest_dir env = elim (env (lit "TDX_TIMING_DIR")) [
  | some dir ↦ dir
  | none ↦ join manifest_dir (lit "log/json")
]

-- The write of the file, whose errors are ignored.
unfoldable pub write_sample : {W : Type 0} → System W → Bytes → Text → Text → W → W
write_sample sys dir name body w =
    let (r, w') = sys.create_dir_all dir w in
    elim r [ err _ ↦ w' | ok _ ↦ (sys.write (join dir name) body w').1 ]

-- `record_response`
unfoldable pub record_response :
    {W : Type 0} → System W → Bytes → Env → ℕ → ℕ → Arrival → Scope × W → Scope × W
unfolding recorder write_sample timing_dir file_name
record_response sys manifest_dir env req status (now, instant) (s, w) =
    let (rec, s') = recorder req (now, instant) s in
    let (ts, compact) = metrics_timestamp rec.started_at in
    let body = render rec status (instant - rec.start) ts in
    let name = file_name compact sys.process_id s.file_seq in
    (
      record s' { file_seq = (s.file_seq + 1) % 2 ^ 64 },
      write_sample sys (timing_dir manifest_dir env) name body w,
    )
