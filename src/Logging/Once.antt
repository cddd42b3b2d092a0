-- ===== src/Logging/Once.antt =====
-- The second `init` of src/logging.rs.
use tex_attestation_server.Prelude.{
  ◌≡◌, refl, true, Option, none, some, List, inl, inr, Option-cases,
}
use tex_attestation_server.Text.{Bytes, Text}
use tex_attestation_server.Tpm.Config.{Env}
use tex_attestation_server.Logging.{Field, event}
use tex_attestation_server.Logging.Sink.{
  Log, LogFiles, log_event, info, get_or_init, announce, after_open, init, log_file_path, file_of,
  open_log_file,
}

module _ {W : Type 0} (fs : LogFiles W) (manifest_dir : Bytes) where
  reopened :
      (path : Bytes) (log : Log) (w : W) (file : Option Text)
      → log.sink ≡ some file
      → (get_or_init fs path (log, w)).1 ≡ w
  unfolding get_or_init
  reopened path log w file h = rw (h, get_or_init) refl

  first_open :
      (path : Bytes) (log : Log) (w : W)
      → (file : Option Text) × ((get_or_init fs path (log, w)).0.sink ≡ some file)
  unfolding get_or_init
  first_open path log w = elim (Option-cases log.sink) [
    | inl nothing ↦ (file_of (open_log_file fs path w).0, rw (nothing, get_or_init) refl)
    | inr (file, is) ↦ (file, rw (is, get_or_init) is)
  ]

  log_event-sink :
      (stamp level message : Text) (fields : List Field) (log : Log) (file : Option Text)
      → log.sink ≡ some file
      → (after : Option Text) × ((log_event stamp level message fields log).sink ≡ some after)
  unfolding log_event
  log_event-sink stamp level message fields log file h =
      (event file stamp level message fields, rw (h, log_event) refl)

  announce-sink :
      (sink : Option (Option Text)) (stamp : Text) (path : Bytes) (log : Log) (file : Option Text)
      → log.sink ≡ some file
      → (after : Option Text) × ((announce sink stamp path log).1.sink ≡ some after)
  unfolding announce info
  announce-sink none stamp path log file h = (file, h)
  announce-sink (some none) stamp path log file h = (file, h)
  announce-sink (some (some text)) stamp path log file h = log_event-sink stamp _ _ _ log file h

  -- The file is opened once: a second start, whatever the environment is then, opens no file and
  -- creates no directory, whether the first one could open its file or not.
  init_twice :
      (env env' : Env) (stamp stamp' : Text) (s : Log × W)
      → (init fs manifest_dir env' stamp' (init fs manifest_dir env stamp s).1).1.1
        ≡ (init fs manifest_dir env stamp s).1.1
  unfolding init after_open
  init_twice env env' stamp stamp' (log, w) =
      let path = log_file_path manifest_dir env in
      let got = get_or_init fs path (log, w) in
      let (file, is) = first_open path log w in
      let (after, is') =
        announce-sink got.0.sink stamp path (record got.0 { hooked = true }) file is in
      reopened (log_file_path manifest_dir env') _ got.1 after is'
