-- ===== src/Api/Launch.antt =====
-- `rocket` of src/lib.rs: what is set up before the first request.
use tex_attestation_server.Prelude.{ℕ, ◌*◌, none, false}
use tex_attestation_server.Text.{Bytes, Text}
use tex_attestation_server.Tpm.Config.{TpmConfig, Env, from_env}
use tex_attestation_server.Tpm.Machine.{Machine}
use tex_attestation_server.Logging.Sink.{Log, LogFiles, init}

-- `TpmState`: the configuration, and what is behind the lock.
pub record TpmState (W : Type 0) : Type 0 where
  pub config : TpmConfig
  pub inner : Machine W

-- `TpmState::new`, whose line on the console is left out.
unfoldable pub new_state : {W : Type 0} → TpmConfig → W → TpmState W
new_state config w = record {
  config = config;
  inner = record { world = w; scratch_counter = 0; ak_pubkey = none };
}

-- The limit of a body that is read as a string.
abbrev pub string_limit : ℕ
string_limit = 2 * 1024 * 1024

-- The log is opened first, and the configuration is read from the environment.
unfoldable pub rocket : {W : Type 0} → LogFiles W → Bytes → Env → Text → W → Log × TpmState W
unfolding new_state
rocket fs manifest_dir env stamp w =
    let fresh : Log = record { sink = none; hooked = false } in
    let (_, (log, w')) = init fs manifest_dir env stamp (fresh, w) in
    (log, new_state (from_env manifest_dir env) w')
