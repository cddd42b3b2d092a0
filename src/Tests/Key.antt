-- ===== src/Tests/Key.antt =====
-- Tests of the Attestation Key: a TPM whose world says whether a key is stored.
use tex_attestation_server.Prelude.{
  ◌≡◌, refl, sym, ap, ◌∙◌, Bool, true, false, none, [], ◌∷◌, if◌then◌else◌,
}
use tex_attestation_server.Prelude.Result.{Result, ok, ok-inj}
use tex_attestation_server.Text.{Bytes, Text, lit, equal, to_ascii_lowercase}
use tex_attestation_server.Text.Trim.{trim}
use tex_attestation_server.Text.Utf8.{utf8_valid, from_utf8_lossy}
use tex_attestation_server.Text.Search.{ends_with, lines}
use tex_attestation_server.Outside.{System, Output}
use tex_attestation_server.Tpm.Types.{TpmError}
use tex_attestation_server.Tpm.Machine.{Host, Machine, arg, join}
use tex_attestation_server.Tpm.Command.{
  binary_of, tpm2, outcome, flush_transient, lists_handle, create_ak, ensure_ak,
}
use tex_attestation_server.Tpm.Command.Listing.{IsHandle, listed}
use tex_attestation_server.Prelude.{List, any, All, arith}
use tex_attestation_server.Tpm.Command.Key.{KeyLaws, ReusedOrMade, ensure_ak-stored}
use tex_attestation_server.Tests.Codec.{test_crates}
use tex_attestation_server.Tests.Host.{test_files, test_config, is_ok, is_ok_lem}

-- The line "- 0x8" for a stored key.
abbrev handles : Bool → Bytes
handles true = b'-' ∷ b' ' ∷ b'0' ∷ b'x' ∷ b'8' ∷ b'\n' ∷ []
handles false = []

abbrev answer : Text → Bool → Output
answer binary stored = record {
  success = true;
  status = [];
  stdout = if equal binary (lit "tpm2_getcap") then handles stored else [];
  stderr = [];
}

abbrev key_system : System Bool
key_system = record {
  spawn = λ binary args stored.
      (ok (answer binary stored), if equal binary (lit "tpm2_evictcontrol") then true else stored);
  read = λ path stored. ok (7 ∷ []);
  write = λ path bytes stored. (ok tt, stored);
  create_dir_all = λ path stored. (ok tt, stored);
  remove_dir_all = λ path stored. (ok tt, stored);
  open_device = λ path stored. (ok 3, stored);
  ioctl = λ fd request bytes stored. (ok bytes, stored);
  urandom = λ n stored. (ok [], stored);
  temp_dir = b'/' ∷ b't' ∷ [];
  process_id = 41;
  now = λ stored. none;
}

abbrev key_host : Host Bool
key_host = record { crates = test_crates; system = key_system; disk = λ w. test_files; depth = 4 }

abbrev is_stored : Bool → Bool
is_stored stored = stored

abbrev names_of : Bool → List Text
names_of true = (b'0' ∷ b'x' ∷ b'8' ∷ []) ∷ []
names_of false = []

names_are : (stored : Bool) → All IsHandle (names_of stored)
names_are true = (
  (
    ((omega arith, omega arith), ((omega arith, omega arith), ((omega arith, omega arith), tt))),
    λ e. cc e,
  ),
  tt,
)
names_are false = tt

handles-printed : (stored : Bool) → from_utf8_lossy (handles stored) ≡ listed (names_of stored)
unfolding from_utf8_lossy listed
handles-printed true = refl
handles-printed false = refl

handles-stored :
    (stored : Bool)
    → stored
      ≡ any
          (λ handle.
            equal (to_ascii_lowercase handle) (to_ascii_lowercase (trim test_config.ak_handle)))
          (names_of stored)
unfolding trim equal to_ascii_lowercase
handles-stored true = refl
handles-stored false = refl

key_laws : KeyLaws key_host test_config is_stored
unfolding binary_of lit equal
key_laws = record {
  lists = λ out stored ran success. (
    names_of stored,
    names_are stored,
    ap (λ (o : Output). from_utf8_lossy o.stdout) (ok-inj (sym ran)) ∙ handles-printed stored,
    handles-stored stored,
  );
  getcap_keeps = λ args stored. refl;
  flush_keeps = λ args stored. refl;
  stores = λ context stored s. refl;
}

abbrev empty : Machine Bool
empty = record { world = false; scratch_counter = 0; ak_pubkey = none }

abbrev dir : Bytes
dir = b'/' ∷ b't' ∷ []

abbrev key_run : Result TpmError (Unit {0}) × Machine Bool
key_run = ensure_ak key_host test_config dir empty

key_made : is_ok key_run.0 ≡ true
unfolding ensure_ak create_ak tpm2 outcome flush_transient arg join utf8_valid ends_with lit
    binary_of equal lists_handle from_utf8_lossy lines
key_made = refl

ensure_ak-stored_example :
    (is_stored key_run.1.world ≡ true)
    × ReusedOrMade key_host test_config is_stored key_laws dir empty key_run.1
ensure_ak-stored_example =
    ensure_ak-stored key_host test_config is_stored key_laws dir empty key_run.1
      (is_ok_lem key_run.0 key_run.1 tt key_made)
