-- ===== src/Gpu.antt =====
-- src/gpu.rs: the attestation script, and the parser of its output. A `BTreeMap` is its list of
-- entries in the order of the keys.
pub mod Devices
pub mod Summary
use tex_attestation_server.Tpm.Config.{Env}
use tex_attestation_server.Tpm.Machine.{join}
use tex_attestation_server.Prelude.{
  ℕ, ◌%◌, ◌^◌, Bool, true, false, Option, none, some, List, [], ◌∷◌, ◌++◌, if◌then◌else◌, length,
}
use mathlib.Core.List.{foldl}
use tex_attestation_server.Prelude.Result.{Result, ok, err, map_err}
use tex_attestation_server.Text.{Bytes, Text, lit, equal, to_ascii_lowercase}
use tex_attestation_server.Text.Utf8.{from_utf8_lossy}
use tex_attestation_server.Text.Trim.{trim, trim_end_matches}
use tex_attestation_server.Text.Search.{contains, ends_with, strip_prefix, split_once, lines}
use tex_attestation_server.Text.Decimal.{parse_u32}
use tex_attestation_server.Outside.{IoError, Output}
use tex_attestation_server.Tpm.Folder.{bytes_le}

pub data GpuError : Type 0 where
  not_implemented : Text → GpuError
  internal : Text → GpuError

unfoldable pub display_error : GpuError → Text
display_error (not_implemented msg) = lit "GPU attestation unavailable: " ++ msg
display_error (internal msg) = lit "internal GPU attestation error: " ++ msg

pub record GpuCertChain : Type 0 where
  pub status : Option Text
  pub ocsp : Option Text
  pub expires : Option Text

abbrev pub Chains : Type 0
Chains = List (Text × GpuCertChain)

pub record GpuDevice : Type 0 where
  pub index : ℕ
  pub device_type : Option Text
  pub hardware_model : Option Text
  pub ueid : Option Text
  pub vbios_version : Option Text
  pub driver_version : Option Text
  pub measurement_result : Option Text
  pub cert_chains : Chains

pub record GpuAttestation : Type 0 where
  pub successful : Bool
  pub summary : Option Text
  pub devices : List GpuDevice

abbrev pub default_chain : GpuCertChain
default_chain = record { status = none; ocsp = none; expires = none }

abbrev pub new_device : ℕ → GpuDevice
new_device n = record {
  index = n;
  device_type = none;
  hardware_model = none;
  ueid = none;
  vbios_version = none;
  driver_version = none;
  measurement_result = none;
  cert_chains = [];
}

-- `entry(key).or_default()`
unfoldable pub or_default : Text → Chains → Chains
or_default key [] = (key, default_chain) ∷ []
or_default key ((k, c) ∷ rest) =
    if equal key k
    then (k, c) ∷ rest
    else if bytes_le key k
    then (key, default_chain) ∷ (k, c) ∷ rest
    else (k, c) ∷ or_default key rest

-- `get`
unfoldable pub chain_of : Text → Chains → Option GpuCertChain
chain_of key [] = none
chain_of key ((k, c) ∷ rest) = if equal key k then some c else chain_of key rest

-- A write through `get_mut`
unfoldable pub put_chain : Text → GpuCertChain → Chains → Chains
put_chain key new [] = []
put_chain key new ((k, c) ∷ rest) =
    if equal key k then (k, new) ∷ rest else (k, c) ∷ put_chain key new rest

unfoldable pub split_status_ocsp : Text → Text × Option Text
split_status_ocsp value = elim (split_once b',' value) [
  | none ↦ (trim value, none)
  | some (status, rest) ↦ (
    trim status,
    elim (strip_prefix (trim rest) (lit "OCSP:")) [ none ↦ none | some ocsp ↦ some (trim ocsp) ],
  )
]

pub record Parser : Type 0 where
  pub summary : Option Text
  pub devices : List GpuDevice
  pub current : Option GpuDevice
  pub current_chain : Option Text

abbrev pub start : Parser
start = record { summary = none; devices = []; current = none; current_chain = none }

-- `if let Some(device) = current.take() { devices.push(device) }`
abbrev pub flushed : List GpuDevice → Option GpuDevice → List GpuDevice
flushed devices none = devices
flushed devices (some device) = devices ++ device ∷ []

-- The index that a header line gives, or the number of devices so far.
unfoldable pub header_index : Text → ℕ → ℕ
header_index rest count = elim (parse_u32 (trim (trim_end_matches b':' rest))) [
  | none ↦ count % 2 ^ 32
  | some n ↦ n
]

unfoldable pub device_header : Parser → Text → Parser
device_header p rest =
    let devices = flushed p.devices p.current in
    record {
      summary = p.summary;
      devices = devices;
      current = some (new_device (header_index rest (length devices)));
      current_chain = none;
    }

unfoldable pub chain_header : Parser → Text → Parser
chain_header p key = record p {
  current = elim p.current [
    | none ↦ none
    | some device ↦ some (record device { cert_chains = or_default key device.cert_chains })
  ];
  current_chain = some key;
}

-- `Status`, `OCSP` and `Expires` of a chain, and nothing for another key.
unfoldable pub chain_field : GpuCertChain → Text → Text → Option GpuCertChain
chain_field entry key value =
    if equal key (lit "Status")
    then (let (status, ocsp) = split_status_ocsp value in
        some (record entry {
          status = some status;
          ocsp = elim ocsp [ none ↦ entry.ocsp | some o ↦ some o ];
        }))
    else if equal key (lit "OCSP")
    then some (record entry { ocsp = some value })
    else if equal key (lit "Expires")
    then some (record entry { expires = some value })
    else none

-- The device with the field of its current chain set, if the key is one of a chain.
unfoldable pub in_chain : GpuDevice → Option Text → Text → Text → Option GpuDevice
in_chain device none key value = none
in_chain device (some chain) key value = elim (chain_of chain device.cert_chains) [
  | none ↦ none
  | some entry ↦ elim (chain_field entry key value) [
    | none ↦ none
    | some new ↦ some (record device { cert_chains = put_chain chain new device.cert_chains })
  ]
]

unfoldable pub device_field : GpuDevice → Text → Text → Option GpuDevice
device_field device key value =
    if equal key (lit "Device Type")
    then some (record device { device_type = some value })
    else if equal key (lit "Hardware Model")
    then some (record device { hardware_model = some value })
    else if equal key (lit "UEID")
    then some (record device { ueid = some value })
    else if equal key (lit "VBIOS Version")
    then some (record device { vbios_version = some value })
    else if equal key (lit "Driver Version")
    then some (record device { driver_version = some value })
    else if equal key (lit "Measurement Result")
    then some (record device { measurement_result = some value })
    else none

abbrev or_else {ℓ} : {A : Type ℓ} → Option A → Option A → Option A
or_else (some a) _ = some a
or_else none o = o

-- The current device after a `key: value` line, if the line is one of its fields.
unfoldable pub known_field : Parser → Text → Text → Option GpuDevice
known_field p key value = elim p.current [
  | none ↦ none
  | some device ↦
      or_else (in_chain device p.current_chain key value) (device_field device key value)
]

unfoldable pub key_value : Parser → Text → Text → Text → Parser
key_value p trimmed key value =
    if ends_with key (lit "Cert Chain")
    then chain_header p key
    else elim (known_field p key value) [
      | some device ↦ record p { current = some device }
      | none ↦ record p { summary = some trimmed }
    ]

-- One round of the loop.
unfoldable pub parse_line : Parser → Text → Parser
parse_line p raw_line =
    let trimmed = trim raw_line in
    if equal trimmed [] then p else elim (strip_prefix trimmed (lit "- Device ")) [
      | some rest ↦ device_header p rest
      | none ↦ elim (split_once b':' trimmed) [
        | some (key, value) ↦ key_value p trimmed (trim key) (trim value)
        | none ↦ record p { summary = some trimmed }
      ]
    ]

unfoldable pub parse_lines : Parser → List Text → Parser
parse_lines p [] = p
parse_lines p (line ∷ rest) = parse_lines (parse_line p line) rest

unfoldable pub says_successful : Option Text → Bool
says_successful none = false
says_successful (some summary) = contains (to_ascii_lowercase summary) (lit "successful")

unfoldable pub finish : Parser → GpuAttestation
finish p = record {
  successful = says_successful p.summary;
  summary = p.summary;
  devices = flushed p.devices p.current;
}

unfoldable pub parse_gpu_attestation : Text → GpuAttestation
parse_gpu_attestation text = finish (parse_lines start (lines text))

-- The build sets `CARGO_MANIFEST_DIR`.
unfoldable pub default_gpu_attest_script : Bytes → Bytes
default_gpu_attest_script manifest_dir = join manifest_dir (lit "gpu-attest/gpu_local_attest.sh")

unfoldable pub gpu_attest_script_path : Bytes → Env → Bytes
gpu_attest_script_path manifest_dir env = elim (env (lit "GPU_ATTEST_SCRIPT")) [
  | some path ↦ path
  | none ↦ default_gpu_attest_script manifest_dir
]

-- What `run_script` makes of the answer of `sh`. `present` is `script.is_file()`.
unfoldable pub run_script : Text → Bool → Result IoError Output → Result GpuError Text
run_script script false answer =
    err (not_implemented (lit "the GPU attestation script `" ++ (script ++ lit "` was not found")))
run_script script true (err e) =
    let message =
      lit "the GPU attestation script `"
      ++ (script ++ (lit "` could not be executed: " ++ e.message)) in
    if e.is_not_found then err (not_implemented message) else err (internal message)
run_script script true (ok output) =
    let combined = from_utf8_lossy output.stdout ++ from_utf8_lossy output.stderr in
    let trimmed = trim combined in
    let detail = if equal trimmed [] then lit "no diagnostic output" else trimmed in
    if output.success
    then ok combined
    else err (
        internal (
          lit "the GPU attestation script `"
          ++ (script ++ (lit "` failed with " ++ (output.status ++ (lit ": " ++ detail))))))

unfoldable pub gpu_attestation :
    Text → Bool → Result IoError Output → Result GpuError GpuAttestation
gpu_attestation script present answer = elim (run_script script present answer) [
  | err e ↦ err e
  | ok text ↦ ok (parse_gpu_attestation text)
]
