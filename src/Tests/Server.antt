-- ===== src/Tests/Server.antt =====
-- Tests of the server around the backends: routes, log, timing records and the commands of the TPM.
use tex_attestation_server.Prelude.{
  ℕ, ◌≡◌, refl, sym, false, Option, none, some, List, [], ◌∷◌, ◌++◌, ◌==◌, arith, if◌then◌else◌,
}
use tex_attestation_server.Prelude.Result.{ok, err, ok-inj}
use tex_attestation_server.Text.{Bytes, Text, lit, equal}
use tex_attestation_server.Tpm.Machine.{Machine}
use tex_attestation_server.Logging.Sink.{LogFiles, Server, Request, open_log_file}
use tex_attestation_server.Logging.Append.{
  Happens, opened, requested, responded, Holds, Extends, run, run-Extends,
}
use tex_attestation_server.Logging.Opening.{FilesKept}
use tex_attestation_server.Metrics.{Recorder, new_recorder, route_of, stage}
use tex_attestation_server.Metrics.Scope.{
  Span, start, finish, begin, begin_request, recorder, put, set_at, file_name,
}
use tex_attestation_server.Metrics.Scope
use tex_attestation_server.Metrics.Isolation
use tex_attestation_server.Metrics.Isolation.{Point, counter, timed, HandledBy, own, run-own}
use tex_attestation_server.Api.{Json}
use tex_attestation_server.Api.Routes.{Route, quote_tpm, Incoming, Routed, forwarded, failed_with}
use tex_attestation_server.Api.Logged.{Logged}
use tex_attestation_server.Tests.Host.{test_system}

abbrev no_requests : Json
no_requests = record {
  report_field = λ text. err text;
  quote_request = λ text. err text;
  all_response = λ text. err text;
}

abbrev posted : Incoming
posted = record {
  method = b'P' ∷ b'O' ∷ b'S' ∷ b'T' ∷ [];
  path = b'/' ∷ b'x' ∷ [];
  uri = b'/' ∷ b'x' ∷ [];
  rn = none;
  body = ok [];
}

abbrev idle : Machine (Unit {0})
idle = record { world = tt; scratch_counter = 0; ak_pubkey = none }

-- A router that takes every POST request to the quote, and finds no route for another.
abbrev posts_quote : List Route → Text → Text → Routed
posts_quote mounted method path =
    if equal method (lit "POST") then forwarded quote_tpm else failed_with 404

abbrev old_log : Text
old_log = b'x' ∷ []

-- A disk on which the log can be opened and has one byte.
abbrev test_logs : LogFiles (Unit {0})
test_logs = record {
  parent = λ path. some (b'l' ∷ []);
  create_dir_all = λ dir w. (ok tt, w);
  open_file = λ options path w. (ok (if options.truncate then [] else old_log), w);
  contents = λ path w. old_log;
}

test_logs-FilesKept : FilesKept test_logs
test_logs-FilesKept = record {
  beside = λ dir path w. refl;
  appends = λ path w text h. sym (ok-inj h);
}

abbrev nothing_set : Text → Option Bytes
nothing_set name = none

abbrev no_scope : Scope.Scope
no_scope = record { cache = λ r. none; current = λ t. none; inflight = 0; file_seq = 0 }

abbrev starting : Server
starting = record {
  log = record { sink = none; hooked = false };
  started = λ r. none;
  timing = no_scope;
}

abbrev ping_request : Request
ping_request = record { id = 4; method = b'G' ∷ []; uri = b'/' ∷ b'p' ∷ []; client = none }

abbrev happened : List Happens
happened =
    requested ping_request (b'T' ∷ []) (some 0, 5)
    ∷ responded nothing_set ping_request 200 (b'T' ∷ []) (some 0, 9)
    ∷ []

abbrev later : List Happens
later = opened nothing_set (b'U' ∷ []) ∷ happened

run-Extends_example :
    ((more : Text) × Holds
        (old_log ++ more)
        (run test_logs test_system
          (b'/' ∷ [])
          (opened nothing_set (b'T' ∷ []) ∷ happened)
          (starting, tt)).0.log)
    × Extends
        (run test_logs test_system
          (b'/' ∷ [])
          (opened nothing_set (b'T' ∷ []) ∷ happened)
          (starting, tt)).0.log
        (run test_logs test_system (b'/' ∷ []) later (
          run test_logs test_system
            (b'/' ∷ [])
            (opened nothing_set (b'T' ∷ []) ∷ happened)
            (starting, tt))).0.log
unfolding open_log_file
run-Extends_example =
    run-Extends test_logs test_system (b'/' ∷ []) test_logs-FilesKept nothing_set (b'T' ∷ [])
      happened later starting tt old_log refl refl

-- Thread 1 handles request 4, and thread 2 handles request 6.
abbrev two_threads : Scope.Scope
two_threads =
    begin 2 6 (b'/' ∷ b'b' ∷ []) (some 0, 2) (begin 1 4 (b'/' ∷ b'a' ∷ []) (some 0, 1) no_scope)

abbrev first_recorder : Recorder
first_recorder = record (new_recorder (some 0) 1 0) { route = route_of (b'/' ∷ b'a' ∷ []) }

first_kept : two_threads.cache 4 ≡ some first_recorder
unfolding begin recorder put set_at new_recorder
first_kept = refl

first_only : (t r : ℕ) → (t == 1) ≡ false → two_threads.current t ≡ some r → (r == 4) ≡ false
unfolding begin recorder put set_at
first_only t r differ is = ground arith

first_handled : HandledBy 1 4 two_threads
unfolding begin recorder put set_at
first_handled = record { here = refl; nowhere_else = λ t differ r is. first_only t r differ is }

abbrev steps : List (ℕ × Point)
steps =
    (2, counter (b'f' ∷ []) 3) ∷ (1, timed (b's' ∷ []) stage 4 9) ∷ (2, counter (b'f' ∷ []) 1) ∷ []

run-own_example : (Isolation.run steps two_threads).cache 4 ≡ some (own 1 steps first_recorder)
run-own_example = run-own 1 4 steps two_threads first_recorder first_handled first_kept
