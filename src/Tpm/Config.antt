-- ===== src/Tpm/Config.antt =====
-- `TpmConfig` of src/tpm.rs. The environment is a function from names to values.
use tex_attestation_server.Prelude.{ℕ, Option, none, some, [], ◌∷◌, ◌++◌, if◌then◌else◌}
use tex_attestation_server.Text.{Bytes, Text, lit, equal}
use tex_attestation_server.Text.Utf8.{utf8_valid}
use tex_attestation_server.Text.Trim.{trim}
use tex_attestation_server.Text.Decimal.{decimal, parse_u32}

pub record TpmConfig : Type 0 where
  pub measure_dir : Bytes
  pub pcr_index : ℕ
  pub hash_algorithm : Text
  pub tcti : Text
  pub ak_handle : Text
  pub simulator_dir : Bytes

abbrev pub default_pcr_index : ℕ
default_pcr_index = 16

unfoldable pub default_hash_algorithm : Text
default_hash_algorithm = lit "sha256"

-- `CARGO_MANIFEST_DIR` is set by the build.
unfoldable pub default_measure_dir : Bytes → Bytes
default_measure_dir manifest_dir = manifest_dir ++ lit "/src"

unfoldable pub default_config : Bytes → TpmConfig
default_config manifest_dir = record {
  measure_dir = default_measure_dir manifest_dir;
  pcr_index = default_pcr_index;
  hash_algorithm = default_hash_algorithm;
  tcti = lit "mssim:host=127.0.0.1,port=2321";
  ak_handle = lit "0x81010002";
  simulator_dir = lit "tpm-simu";
}

abbrev pub Env : Type 0
Env = Text → Option Bytes

-- `std::env::var`: the value, if it is set and is UTF-8.
unfoldable pub var : Env → Text → Option Text
var env name = elim (env name) [ none ↦ none | some v ↦ if utf8_valid v then some v else none ]

abbrev unwrap_or {ℓ} : {A : Type ℓ} → Option A → A → A
unwrap_or none d = d
unwrap_or (some a) d = a

-- `filter(|v| !v.trim().is_empty())`
abbrev non_blank : Option Text → Option Text
non_blank none = none
non_blank (some v) = if equal (trim v) [] then none else some v

unfoldable pub from_env : Bytes → Env → TpmConfig
from_env manifest_dir env =
    let defaults = default_config manifest_dir in
    record {
      measure_dir = unwrap_or (env (lit "TPM_MEASURE_DIR")) defaults.measure_dir;
      pcr_index = elim (var env (lit "TPM_PCR_INDEX")) [
        | none ↦ defaults.pcr_index
        | some raw ↦ unwrap_or (parse_u32 (trim raw)) defaults.pcr_index
      ];
      hash_algorithm =
          unwrap_or (non_blank (var env (lit "TPM_HASH_ALGORITHM"))) defaults.hash_algorithm;
      tcti = unwrap_or (non_blank (var env (lit "TPM_TCTI"))) defaults.tcti;
      ak_handle = unwrap_or (non_blank (var env (lit "TPM_AK_HANDLE"))) defaults.ak_handle;
      simulator_dir = unwrap_or (env (lit "TPM_SIMULATOR_DIR")) defaults.simulator_dir;
    }

unfoldable pub pcr_selection : TpmConfig → Text
pcr_selection c = c.hash_algorithm ++ b':' ∷ decimal c.pcr_index
