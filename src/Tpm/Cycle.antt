-- ===== src/Tpm/Cycle.antt =====
-- `measure_and_extend`, `create_quote`, `information_tpm` and `quote_tpm` of src/tpm.rs.
pub mod Keeping
pub mod Leaving
pub mod Cached
pub mod Signed
pub mod Order
pub mod Pcr
pub mod Refinement
use tex_attestation_server.Prelude.{
  ℕ, ◌≡◌, Bool, true, false, Option, none, some, List, [], ◌∷◌, ◌++◌, if◌then◌else◌, length,
}
use tex_attestation_server.Prelude.Result.{Result, ok, err, map_err}
use tex_attestation_server.Prelude.Monad.{M, pure, raise, ◌>>=◌, ◌>>◌, lift}
use tex_attestation_server.Text.{Bytes, Text, lit, to_ascii_lowercase}
use tex_attestation_server.Text.Utf8.{from_utf8_lossy}
use tex_attestation_server.Clock.{tpm_timestamp}
use tex_attestation_server.Tpm.Types.{
  TpmError, internal, FolderMeasurement, TpmMeasurement, InformationTpmResponse, TpmEvidence,
  QuoteTpmResponse, rc_success,
}
use tex_attestation_server.Tpm.Config.{TpmConfig, pcr_selection}
use tex_attestation_server.Tpm.Nonce.{normalize_nonce}
use tex_attestation_server.Tpm.Folder.{measure_folder}
use tex_attestation_server.Tpm.Machine.{Host, Machine, Tpm, join, arg, with_scratch}
use tex_attestation_server.Tpm.Command.{
  tpm2, ensure_ready, flush_transient, reset_pcr, extend_pcr, read_output, read_pcr, ensure_ak,
  ak_pubkey,
}

-- The three blobs, joined by `:`.
unfoldable pub join_blobs : Text → Text → Text → Text
join_blobs signature message pcrs = signature ++ b':' ∷ (message ++ b':' ∷ pcrs)

module _ {W : Type 0} (h : Host W) (config : TpmConfig) where
  unfoldable pub read_blob : Bytes → Text → Tpm W (Text × ℕ)
  read_blob scratch name = do
    let path = join scratch name
    bytes ←
        read_output h config path (from_utf8_lossy path ++ lit " cannot be read: ")
          (from_utf8_lossy path ++ lit " is empty; the TPM did not produce any data")
    pure (h.crates.base64_encode (h.crates.hex_encode bytes), length bytes)

  -- The evidence made of the three blobs.
  unfoldable pub evidence_of : Text → ℕ → Text × ℕ → Text × ℕ → Text × ℕ → TpmEvidence
  evidence_of nonce_hex size signature message pcrs =
      let joined = join_blobs signature.0 message.0 pcrs.0 in
      record {
        quote = joined;
        quote_size = length joined;
        signature = signature.0;
        message = message.0;
        pcrs = pcrs.0;
        signature_size = signature.1;
        message_size = message.1;
        nonce = to_ascii_lowercase nonce_hex;
        nonce_size = size;
        pcr_index = config.pcr_index;
        hash_algorithm = config.hash_algorithm;
        ak_handle = config.ak_handle;
      }

  -- The arguments of `tpm2_quote`.
  unfoldable pub quote_args : Text → Text → Text → Text → List Text
  quote_args nonce_hex signature_path message_path pcrs_path =
      lit "-c"
      ∷ config.ak_handle
      ∷ lit "-g"
      ∷ config.hash_algorithm
      ∷ lit "-l"
      ∷ pcr_selection config
      ∷ lit "-q"
      ∷ nonce_hex
      ∷ lit "-s"
      ∷ signature_path
      ∷ lit "-m"
      ∷ message_path
      ∷ lit "-o"
      ∷ pcrs_path
      ∷ []

  -- The blobs of a quote that was just made, and the evidence.
  unfoldable pub collect_quote : Bytes → Text → Tpm W (TpmEvidence × ℕ)
  unfolding read_blob
  collect_quote scratch nonce_hex = do
    signature ← read_blob scratch (lit "quote.sig")
    message ← read_blob scratch (lit "quote.msg")
    pcrs ← read_blob scratch (lit "quote.pcrs")
    (_, nonce_size) ← lift (normalize_nonce h.crates nonce_hex)
    pure (evidence_of nonce_hex nonce_size signature message pcrs, nonce_size)

  unfoldable pub create_quote : Text → Bytes → Tpm W (TpmEvidence × ℕ)
  unfolding collect_quote
  create_quote nonce_hex scratch = do
    flush_transient h config
    signature_path ← arg scratch (lit "quote.sig")
    message_path ← arg scratch (lit "quote.msg")
    pcrs_path ← arg scratch (lit "quote.pcrs")
    _ ← tpm2 h config (lit "quote") (quote_args nonce_hex signature_path message_path pcrs_path)
    collect_quote scratch nonce_hex

  -- `measure_folder` on the disk as it stands.
  unfoldable pub measure : Tpm W FolderMeasurement
  measure m = (measure_folder h.crates (h.disk m.world) h.depth config.measure_dir, m)

  unfoldable pub measure_and_extend : Bytes → Tpm W (FolderMeasurement × Text)
  unfolding measure
  measure_and_extend scratch = do
    measurement ← measure
    ensure_ready h config
    reset_pcr h config
    extend_pcr h config measurement.total_hash
    pcr_value ← read_pcr h config scratch
    pure (measurement, pcr_value)

  -- `as_tpm_measurement`, at the time of the call.
  unfoldable pub as_tpm_measurement : FolderMeasurement → Tpm W TpmMeasurement
  as_tpm_measurement folder m = (
    ok (record {
      time_stamp = tpm_timestamp (h.system.now m.world);
      measurement = folder.measurement;
      total_hash = folder.total_hash;
    }),
    m,
  )

  abbrev unavailable : {A : Type 0} → Result TpmError A → Option A
  unavailable (ok a) = some a
  unavailable (err _) = none

  -- The public key for `information_tpm`: an error is only logged.
  unfoldable pub try_pubkey : Bytes → Tpm W (Option Text)
  try_pubkey scratch m =
      let (r, m') = (ensure_ak h config scratch >> ak_pubkey h config scratch) m in
      (ok (unavailable r), m')

  unfoldable pub information_body : Bytes → Tpm W InformationTpmResponse
  information_body scratch = do
    (measurement, pcr_value) ← measure_and_extend scratch
    pem ← try_pubkey scratch
    block ← as_tpm_measurement measurement
    pure (record {
      backend = lit "tpm2-tools";
      simulator = from_utf8_lossy config.simulator_dir;
      tcti = config.tcti;
      measured_directory = measurement.directory;
      hash_algorithm = config.hash_algorithm;
      pcr_index = config.pcr_index;
      measurement = block;
      pcr_value = pcr_value;
      ak_handle = config.ak_handle;
      ak_pubkey = pem;
    })

  unfoldable pub information_tpm : Tpm W InformationTpmResponse
  information_tpm = with_scratch h information_body

  abbrev pub or_empty : Result TpmError Text → Text
  or_empty (ok pem) = pem
  or_empty (err _) = []

  -- `ak_pubkey(..).unwrap_or_else(..)`
  unfoldable pub pubkey_or_empty : Bytes → Tpm W Text
  pubkey_or_empty scratch m = let (r, m') = ak_pubkey h config scratch m in (ok (or_empty r), m')

  unfoldable pub quote_body : Text → Bytes → Tpm W QuoteTpmResponse
  quote_body nonce scratch = do
    (measurement, pcr_value) ← measure_and_extend scratch
    ensure_ak h config scratch
    (evidence, _) ← create_quote nonce scratch
    pem ← pubkey_or_empty scratch
    block ← as_tpm_measurement measurement
    pure (record {
      status = rc_success;
      measurement = block;
      pcr_value = pcr_value;
      pcr_index = config.pcr_index;
      hash_algorithm = config.hash_algorithm;
      evidence = record { tpm = evidence; tdx = none };
      ak_pubkey = pem;
    })

  unfoldable pub quote_tpm : Text → Tpm W QuoteTpmResponse
  quote_tpm nonce_hex = do
    (nonce, _) ← lift (normalize_nonce h.crates nonce_hex)
    with_scratch h (quote_body nonce)
