-- ===== src/Logging/Append.antt =====
-- The audit log of src/logging.rs grows at its end only, and its file is opened once.
use tex_attestation_server.Prelude.{
  ℕ, ◌≡◌, refl, sym, ap, ◌∙◌, Bool, true, false, Option, none, some, List, [], ◌∷◌, ◌++◌,
  append-nil, append_assoc, if◌then◌else◌, inl, inr, Option-cases,
}
use tex_attestation_server.Prelude.Result.{ok}
use tex_attestation_server.Logging.Opening.{FilesKept, open_log_file-kept}
use mathlib.Core.Path.{subst}
use tex_attestation_server.Text.{Bytes, Text}
use tex_attestation_server.Outside.{System}
use tex_attestation_server.Tpm.Config.{Env}
use tex_attestation_server.Logging.{Field, event, event_line, log_request, log_response}
use tex_attestation_server.Metrics.Scope.{Arrival}
use tex_attestation_server.Logging.Sink.{
  Log, LogFiles, log_event, info, error, get_or_init, announce, after_open, init, Payload, Location,
  panic_hook, Request, Server, on_sink, started_at, on_request, on_response, log_file_path,
  open_log_file,
}

-- What happens to the log of a server, in a world with its files.
pub data Happens : Type 0 where
  opened : Env → Text → Happens
  logged : Text → Text → Text → List Field → Happens
  requested : Request → Text → Arrival → Happens
  responded : Env → Request → ℕ → Text → Arrival → Happens
  panicked : Text → Option Text → Option Location → Payload → Happens

-- The log file holds the text.
abbrev pub Holds : Text → Log → Type 0
Holds text log = log.sink ≡ some (some text)

-- What the first log file holds, the second one holds with something behind it.
abbrev pub Extends : Log → Log → Type 0
Extends log log' = (text : Text) → Holds text log → (more : Text) × Holds (text ++ more) log'

module _ {W : Type 0} (fs : LogFiles W) (sys : System W) (manifest_dir : Bytes) where
  unfoldable pub step : Happens → Server × W → Server × W
  step (opened env stamp) (s, w) =
      let (_, (log, w')) = init fs manifest_dir env stamp (s.log, w) in (record s { log = log }, w')
  step (logged stamp level message fields) (s, w) =
      (record s { log = log_event stamp level message fields s.log }, w)
  step (requested req stamp at) (s, w) = (on_request req stamp at s, w)
  step (responded env req status stamp at) s =
      on_response sys manifest_dir env req status stamp at s
  step (panicked stamp thread location payload) (s, w) =
      (record s { log = panic_hook stamp thread location payload s.log }, w)

  unfoldable pub run : List Happens → Server × W → Server × W
  unfolding step
  run [] s = s
  run (h ∷ rest) s = run rest (step h s)

get_or_init-Holds :
    {W : Type 0} (fs : LogFiles W)
    → FilesKept fs
    → (path : Bytes) (log : Log) (w : W) (file : Text) → log.sink ≡ none
    → (open_log_file fs path w).0 ≡ ok file
    → Holds (fs.contents path w) (get_or_init fs path (log, w)).0
unfolding get_or_init
get_or_init-Holds fs kept path log w file fresh opens =
    let same = open_log_file-kept fs kept path w file opens in
    rw (fresh, get_or_init, opens) (ap (λ t. some (some t)) same)

same-Extends : (log : Log) → Extends log log
same-Extends log text h = ([], h ∙ ap (λ t. some (some t)) (sym (append-nil text)))

trans-Extends : (a b c : Log) → Extends a b → Extends b c → Extends a c
trans-Extends a b c f g text h =
    let (more, h1) = f text h in
    let (rest, h2) = g (text ++ more) h1 in
    (more ++ rest, h2 ∙ ap (λ t. some (some t)) (append_assoc text more rest))

log_event-Extends :
    (stamp level message : Text) (fields : List Field) (log : Log)
    → Extends log (log_event stamp level message fields log)
unfolding log_event event
log_event-Extends stamp level message fields log text h =
    (event_line stamp level message fields, rw (h, log_event) refl)

on_sink-Extends :
    (f : Option Text → Option Text) (log : Log)
    → ((text : Text) → (more : Text) × (f (some text) ≡ some (text ++ more)))
    → Extends log (on_sink f log)
on_sink-Extends f log adds text h = let (more, e) = adds text in (more, rw h (ap some e))

either-Extends :
    (test : Bool) (log a b : Log)
    → Extends log a
    → Extends log b
    → Extends log (if test then a else b)
either-Extends true log a b f g = f
either-Extends false log a b f g = g

panic_hook-Extends :
    (stamp : Text) (thread : Option Text) (location : Option Location) (payload : Payload)
    (log : Log)
    → Extends log (panic_hook stamp thread location payload log)
unfolding panic_hook error
panic_hook-Extends stamp thread location payload log =
    either-Extends log.hooked log _ log (log_event-Extends stamp _ _ _ log) (same-Extends log)

announce-Extends :
    (sink : Option (Option Text)) (stamp : Text) (path : Bytes) (log : Log)
    → Extends log (announce sink stamp path log).1
unfolding announce info
announce-Extends none stamp path log = same-Extends log
announce-Extends (some none) stamp path log = same-Extends log
announce-Extends (some (some text)) stamp path log = log_event-Extends stamp _ _ _ log

get_or_init-Extends :
    {W : Type 0} (fs : LogFiles W) (path : Bytes) (log : Log) (w : W)
    → Extends log (get_or_init fs path (log, w)).0
unfolding get_or_init
get_or_init-Extends fs path log w text h =
    ([], rw (h, get_or_init) (h ∙ ap (λ t. some (some t)) (sym (append-nil text))))

module _ {W : Type 0} (fs : LogFiles W) (sys : System W) (manifest_dir : Bytes) where
  init-Extends :
      (env : Env) (stamp : Text) (log : Log) (w : W)
      → Extends log (init fs manifest_dir env stamp (log, w)).1.0
  unfolding init after_open
  init-Extends env stamp log w =
      let path = log_file_path manifest_dir env in
      let got = (get_or_init fs path (log, w)).0 in
      trans-Extends log got (announce got.sink stamp path (record got { hooked = true })).1
        (get_or_init-Extends fs path log w)
        (announce-Extends got.sink stamp path (record got { hooked = true }))

  started_at-log : (id instant : ℕ) (s : Server) → (started_at id instant s).1.log ≡ s.log
  unfolding started_at
  started_at-log id instant s = elim (Option-cases (s.started id)) [
    | inl nothing ↦ rw (nothing, started_at) refl
    | inr (first, is) ↦ rw (is, started_at) refl
  ]

  on_request-Extends :
      (req : Request) (stamp : Text) (at : Arrival) (s : Server)
      → Extends s.log (on_request req stamp at s).log
  unfolding on_request log_request event
  on_request-Extends req stamp at s =
      subst (λ log. Extends log (on_request req stamp at s).log) (started_at-log req.id at.1 s)
        (on_sink-Extends _ _ λ text. (_, refl))

  on_response-Extends :
      (env : Env) (req : Request) (status : ℕ) (stamp : Text) (at : Arrival) (s : Server) (w : W)
      → Extends s.log (on_response sys manifest_dir env req status stamp at (s, w)).0.log
  unfolding on_response log_response event
  on_response-Extends env req status stamp at s w =
      subst (λ log. Extends log (on_response sys manifest_dir env req status stamp at (s, w)).0.log)
        (started_at-log req.id at.1 s) (on_sink-Extends _ _ λ text. (_, refl))

  step-Extends :
      (happens : Happens) (s : Server × W)
      → Extends s.0.log (step fs sys manifest_dir happens s).0.log
  unfolding step
  step-Extends (opened env stamp) (s, w) = init-Extends env stamp s.log w
  step-Extends (logged stamp level message fields) (s, w) =
      log_event-Extends stamp level message fields s.log
  step-Extends (requested req stamp at) (s, w) = on_request-Extends req stamp at s
  step-Extends (responded env req status stamp at) (s, w) =
      on_response-Extends env req status stamp at s w
  step-Extends (panicked stamp thread location payload) (s, w) =
      panic_hook-Extends stamp thread location payload s.log

  runs-Extends :
      (all : List Happens) (s : Server × W) → Extends s.0.log (run fs sys manifest_dir all s).0.log
  unfolding run
  runs-Extends [] s = same-Extends s.0.log
  runs-Extends (h ∷ rest) s =
      trans-Extends s.0.log (step fs sys manifest_dir h s).0.log
        (run fs sys manifest_dir rest (step fs sys manifest_dir h s)).0.log (step-Extends h s)
        (runs-Extends rest (step fs sys manifest_dir h s))

  -- The first start takes over what the file at the path of the log held.
  init-Holds :
      FilesKept fs
      → (env : Env) (stamp : Text) (log : Log) (w : W) (file : Text) → log.sink ≡ none
      → (open_log_file fs (log_file_path manifest_dir env) w).0 ≡ ok file
      → (more : Text) × Holds
          (fs.contents (log_file_path manifest_dir env) w ++ more)
          (init fs manifest_dir env stamp (log, w)).1.0
  unfolding init after_open get_or_init
  init-Holds kept env stamp log w file fresh opens =
      let path = log_file_path manifest_dir env in
      let got = (get_or_init fs path (log, w)).0 in
      announce-Extends got.sink stamp path (record got { hooked = true }) (fs.contents path w)
        (get_or_init-Holds fs kept path log w file fresh opens)

  -- Nothing that was logged is lost: on the first start of a server, once the file at the path of the
  -- log can be opened, and after whatever happens then, in whatever order, starts, events, requests,
  -- responses and panics, the log file has what it held before the start in front, and whatever
  -- happens later only adds to it. Assumed: a file that is opened to append, and not to truncate, is
  -- opened with what it holds, and the creation of a directory changes no file.
  pub run-Extends :
      FilesKept fs
      → (env : Env) (stamp : Text) (all later : List Happens) (s : Server) (w : W) (file : Text)
      → s.log.sink ≡ none
      → (open_log_file fs (log_file_path manifest_dir env) w).0 ≡ ok file
      → ((more : Text) × Holds
            (fs.contents (log_file_path manifest_dir env) w ++ more)
            (run fs sys manifest_dir (opened env stamp ∷ all) (s, w)).0.log)
        × Extends
            (run fs sys manifest_dir (opened env stamp ∷ all) (s, w)).0.log
            (run fs sys manifest_dir later
              (run fs sys manifest_dir (opened env stamp ∷ all) (s, w))).0.log
  unfolding run step
  run-Extends kept env stamp all later s w file fresh opens =
      let before = fs.contents (log_file_path manifest_dir env) w in
      let first = step fs sys manifest_dir (opened env stamp) (s, w) in
      let (started, holds) = init-Holds kept env stamp s.log w file fresh opens in
      let (more, held) = runs-Extends all first (before ++ started) holds in
      (
        (started ++ more, held ∙ ap (λ t. some (some t)) (append_assoc before started more)),
        runs-Extends later (run fs sys manifest_dir all first),
      )
