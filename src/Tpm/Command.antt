-- ===== src/Tpm/Command.antt =====
-- The commands of src/tpm.rs: each runs one `tpm2-*` program.
pub mod Laws
pub mod Keeping
pub mod Cache
pub mod Listing
pub mod Key
use tex_attestation_server.Prelude.{
  ℕ, Bool, not, ◌&&◌, ◌||◌, none, some, List, [], ◌∷◌, ◌++◌, any, if◌then◌else◌,
}
use tex_attestation_server.Prelude.Result.{Result, ok, err, map_err}
use tex_attestation_server.Prelude.Monad.{M, pure, raise, ◌>>=◌, ◌>>◌, lift}
use tex_attestation_server.Text.{Bytes, Text, lit, equal, to_ascii_lowercase}
use tex_attestation_server.Text.Utf8.{utf8_valid, from_utf8_lossy}
use tex_attestation_server.Text.Trim.{trim, trim_start_matches}
use tex_attestation_server.Text.Search.{starts_with, contains, lines}
use tex_attestation_server.Text.Decimal.{decimal}
use tex_attestation_server.Outside.{Crates, System, IoError, Output}
use tex_attestation_server.Tpm.Types.{TpmError, not_implemented, internal, display_error}
use tex_attestation_server.Tpm.Config.{TpmConfig, pcr_selection}
use tex_attestation_server.Tpm.Machine.{Host, Machine, Tpm, on_world, join, arg}

-- The first trimmed line that is an error or a warning.
unfoldable pub first_diagnostic : List Text → Text
first_diagnostic [] = lit "no diagnostic output"
first_diagnostic (line ∷ rest) =
    let l = trim line in
    if not (equal l []) && (starts_with l (lit "ERROR") || starts_with l (lit "WARNING"))
    then l
    else first_diagnostic rest

-- The messages of a TPM that cannot be reached.
unfoldable pub unreachable_markers : List Text
unreachable_markers =
    lit "connection refused"
    ∷ lit "could not connect"
    ∷ lit "no route to host"
    ∷ lit "failed to connect"
    ∷ lit "could not load tcti"
    ∷ lit "failed to instantiate tcti"
    ∷ lit "could not initialize tcti file"
    ∷ []

unfoldable pub is_unreachable : Text → Bool
is_unreachable stderr =
    let lowered = to_ascii_lowercase stderr in
    any (λ marker. contains lowered marker) unreachable_markers

unfoldable pub classify_failure : TpmConfig → Text → Bytes → TpmError
classify_failure config binary stderr_bytes =
    let stderr = from_utf8_lossy stderr_bytes in
    let detail = first_diagnostic (lines stderr) in
    if is_unreachable stderr
    then not_implemented (
        lit "TPM is not reachable through `"
        ++ (binary ++ (lit "` (tcti=" ++ (config.tcti ++ (lit "): " ++ detail)))))
    else internal (lit "`" ++ (binary ++ (lit "` failed: " ++ detail)))

unfoldable pub binary_of : Text → Text
binary_of subcommand = lit "tpm2_" ++ subcommand

unfoldable pub tcti_option : TpmConfig → Text
tcti_option config = lit "--tcti=" ++ config.tcti

-- What the answer of a program means.
unfoldable pub outcome : TpmConfig → Text → Result IoError Output → Result TpmError Text
outcome config binary (err e) =
    if e.is_not_found
    then err (
        not_implemented (
          lit "`"
          ++ (binary ++ lit "` was not found; install tpm2-tools to enable TPM attestation")))
    else err (internal (lit "`" ++ (binary ++ (lit "` could not be executed: " ++ e.message))))
outcome config binary (ok output) =
    if output.success
    then ok (from_utf8_lossy output.stdout)
    else err (classify_failure config binary output.stderr)

reset_error : TpmConfig → TpmError → TpmError
reset_error config (not_implemented msg) = not_implemented msg
reset_error config e = internal (
    lit "PCR "
    ++ (decimal config.pcr_index
        ++ (lit " could not be reset, so repeated measurements would not be deterministic: "
            ++ display_error e)))

-- The handle that a line of `tpm2_getcap` names.
unfoldable pub handle_of : Text → Text
handle_of line = to_ascii_lowercase (trim (trim_start_matches b'-' (trim line)))

unfoldable pub lists_handle : Text → Text → Bool
unfolding handle_of
lists_handle handles ak_handle =
    let wanted = to_ascii_lowercase (trim ak_handle) in
    any (λ line. equal (handle_of line) wanted) (lines handles)

module _ {W : Type 0} (h : Host W) (config : TpmConfig) where
  unfoldable pub tpm2 : Text → List Text → Tpm W Text
  tpm2 subcommand args m =
      let binary = binary_of subcommand in
      let (answer, w) = h.system.spawn binary (args ++ tcti_option config ∷ []) m.world in
      (outcome config binary answer, record m { world = w })

  -- A started TPM refuses a second `TPM2_Startup`, which is expected.
  abbrev tolerate : Result TpmError Text → Result TpmError (Unit {0})
  tolerate (ok _) = ok tt
  tolerate (err (not_implemented msg)) = err (not_implemented msg)
  tolerate (err _) = ok tt

  unfoldable pub ensure_ready : Tpm W (Unit {0})
  ensure_ready m = let (r, m') = tpm2 (lit "startup") (lit "-c" ∷ []) m in (tolerate r, m')

  unfoldable pub flush_transient : Tpm W (Unit {0})
  flush_transient m = let (r, m') = tpm2 (lit "flushcontext") (lit "-t" ∷ []) m in (ok tt, m')

  unfoldable pub reset_pcr : Tpm W (Unit {0})
  unfolding reset_error
  reset_pcr m =
      let (r, m') = tpm2 (lit "pcrreset") (decimal config.pcr_index ∷ []) m in
      (map_err (reset_error config) (elim r [ ok _ ↦ ok tt | err e ↦ err e ]), m')

  unfoldable pub extend_spec : Text → Text
  extend_spec digest_hex =
      decimal config.pcr_index ++ b':' ∷ (config.hash_algorithm ++ b'=' ∷ digest_hex)

  unfoldable pub extend_pcr : Text → Tpm W (Unit {0})
  extend_pcr digest_hex = do _ ← tpm2 (lit "pcrextend") (extend_spec digest_hex ∷ []); pure tt

  -- `fs::read` of a file that a command wrote; an empty one is an error.
  unfoldable pub read_output : Bytes → Text → Text → Tpm W Bytes
  read_output path unreadable empty m = elim (h.system.read path m.world) [
    | err e ↦ (err (internal (unreadable ++ e.message)), m)
    | ok [] ↦ (err (internal empty), m)
    | ok (b ∷ bytes) ↦ (ok (b ∷ bytes), m)
  ]

  unfoldable pub read_pcr : Bytes → Tpm W Text
  unfolding read_output
  read_pcr scratch = do
    output ← arg scratch (lit "pcr.bin")
    _ ← tpm2 (lit "pcrread") (pcr_selection config ∷ lit "-o" ∷ output ∷ [])
    bytes ←
        read_output (join scratch (lit "pcr.bin"))
          (lit "PCR " ++ (decimal config.pcr_index ++ lit " output cannot be read: "))
          (lit "PCR " ++ (decimal config.pcr_index ++ lit " read returned no data"))
    pure (h.crates.hex_encode bytes)

  -- The part of `ensure_ak` that makes a key.
  unfoldable pub create_ak : Bytes → Tpm W (Unit {0})
  create_ak scratch = do
    ek_ctx ← arg scratch (lit "ek.ctx")
    ek_pub ← arg scratch (lit "ek.pub")
    ak_ctx ← arg scratch (lit "ak.ctx")
    ak_pub ← arg scratch (lit "ak.pub")
    flush_transient
    _ ← tpm2 (lit "createek") (lit "-G" ∷ lit "rsa" ∷ lit "-c" ∷ ek_ctx ∷ lit "-u" ∷ ek_pub ∷ [])
    flush_transient
    _ ← tpm2 (lit "createak") (
        lit "-C"
        ∷ ek_ctx
        ∷ lit "-c"
        ∷ ak_ctx
        ∷ lit "-G"
        ∷ lit "rsa"
        ∷ lit "-g"
        ∷ lit "sha256"
        ∷ lit "-s"
        ∷ lit "rsassa"
        ∷ lit "-u"
        ∷ ak_pub
        ∷ [])
    flush_transient
    _ ← tpm2 (lit "evictcontrol") (lit "-C" ∷ lit "o" ∷ lit "-c" ∷ ak_ctx ∷ config.ak_handle ∷ [])
    flush_transient

  unfoldable pub ensure_ak : Bytes → Tpm W (Unit {0})
  unfolding create_ak
  ensure_ak scratch = do
    handles ← tpm2 (lit "getcap") (lit "handles-persistent" ∷ [])
    if lists_handle handles config.ak_handle then pure tt else create_ak scratch

  -- The end of `ak_pubkey`: the key file, which is kept in the cache.
  unfoldable pub cache_pubkey : Bytes → Tpm W Text
  cache_pubkey scratch m = elim (h.system.read (join scratch (lit "ak.pem")) m.world) [
    | err e ↦ (err (internal (lit "Attestation Key public part cannot be read: " ++ e.message)), m)
    | ok pem ↦ if utf8_valid pem then (ok pem, record m { ak_pubkey = some pem }) else (
      err (
          internal
            (lit "Attestation Key public part cannot be read: stream did not contain valid UTF-8")),
      m,
    )
  ]

  -- The miss of `ak_pubkey`: reads the key and caches it.
  unfoldable pub fetch_pubkey : Bytes → Tpm W Text
  unfolding cache_pubkey
  fetch_pubkey scratch = do
    flush_transient
    path ← arg scratch (lit "ak.pem")
    _ ←
        tpm2 (lit "readpublic")
          (lit "-c" ∷ config.ak_handle ∷ lit "-o" ∷ path ∷ lit "-f" ∷ lit "pem" ∷ [])
    cache_pubkey scratch

  unfoldable pub ak_pubkey : Bytes → Tpm W Text
  unfolding fetch_pubkey
  ak_pubkey scratch m = elim m.ak_pubkey [
    | some cached ↦ (ok cached, m)
    | none ↦ fetch_pubkey scratch m
  ]
