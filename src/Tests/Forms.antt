-- ===== src/Tests/Forms.antt =====
-- Tests of measurements, timestamps and keys that were read before.
use tex_attestation_server.Prelude.{◌≡◌, refl, true, some, [], ◌∷◌, ℕ, arith}
use tex_attestation_server.Prelude.Result.{Result}
use tex_attestation_server.Text.{Text}
use tex_attestation_server.Clock.Stamp.{log_timestamp-injective}
use tex_attestation_server.Tpm.Types.{TpmError, FolderMeasurement, QuoteTpmResponse}
use tex_attestation_server.Tpm.Folder.{
  measure_folder, collect_regular_files, child_paths, visit_all, visit, sort, measure_entries,
}
use tex_attestation_server.Tpm.Folder.Form.{IsCanonical, measure_folder-IsCanonical}
use tex_attestation_server.Tpm.Machine.{Machine}
use tex_attestation_server.Tpm.Command.{ak_pubkey}
use tex_attestation_server.Tpm.Cycle.{quote_tpm}
use tex_attestation_server.Tests.Codec.{test_crates, hex_laws, sha_laws}
use tex_attestation_server.Tests.Evidence.{nonce_text}
use tex_attestation_server.Tests.Host.{test_files, test_host, test_config, the_ok, is_ok, ok_lem}

abbrev measured : Result TpmError FolderMeasurement
measured = measure_folder test_crates test_files 4 (b'/' ∷ [])

abbrev nothing_measured : FolderMeasurement
nothing_measured = record { directory = []; hash_algorithm = []; measurement = []; total_hash = [] }

measured_ok : is_ok measured ≡ true
unfolding measure_folder collect_regular_files child_paths visit_all visit sort measure_entries
measured_ok = refl

measure_folder-IsCanonical_example :
    IsCanonical test_crates hex_laws sha_laws (the_ok measured nothing_measured)
measure_folder-IsCanonical_example =
    measure_folder-IsCanonical test_crates hex_laws sha_laws test_files 4 (b'/' ∷ [])
      (the_ok measured nothing_measured) (ok_lem measured nothing_measured measured_ok)

abbrev moment : ℕ
moment = 1700000000

log_timestamp-injective_example : moment ≡ moment
log_timestamp-injective_example =
    log_timestamp-injective moment moment (omega arith) (omega arith) refl

-- A machine that read a key before, which is not the key that the host has now.
abbrev old_key : Text
old_key = b'O' ∷ []

abbrev cached : Machine (Unit {0})
cached = record { world = tt; scratch_counter = 0; ak_pubkey = some old_key }

abbrev quote_run : Result TpmError QuoteTpmResponse × Machine (Unit {0})
quote_run = quote_tpm test_host test_config nonce_text cached
