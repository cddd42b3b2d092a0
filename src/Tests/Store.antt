-- ===== src/Tests/Store.antt =====
-- A host of the tests whose TPM has a key that signs by writing its name and the nonce, and whose files
-- keep what is written.
use tex_attestation_server.Prelude.{
  ℕ, ◌%◌, ◌≡◌, ◌≢◌, refl, sym, ap, ◌∙◌, Bool, true, false, ◌&&◌, some, List, [], ◌∷◌, ◌++◌, map,
  All, arith, replicate, if◌then◌else◌, inl, inr, Bool-cases, take, drop, length, length-replicate,
}
use mathlib.Core.Path.{subst}
use tex_attestation_server.Prelude.Result.{ok, ok-inj}
use tex_attestation_server.Text.{Bytes, Text, lit, equal, equal_iff}
use tex_attestation_server.Outside.{System, Output, FileLaws, IsByte}
use tex_attestation_server.Attestation.{from_le_bytes}
use tex_attestation_server.Tpm.Machine.{Host}
use tex_attestation_server.Tpm.Command.{binary_of}
use tex_attestation_server.Tpm.Cycle.{quote_args}
use tex_attestation_server.Tpm.Cycle.Signed.{SignerLaws}
use tex_attestation_server.Tpm.Combined.{checkquote_args}
use tex_attestation_server.Tpm.Combined.Verdict.{CheckquoteLaws}
use tex_attestation_server.Tpm.Combined.Genuine.{MacLaws}
use tex_attestation_server.Tests.Codec.{test_crates, replicate-IsByte}
use tex_attestation_server.Tests.Host.{test_files, test_config}

-- The contents of every file.
abbrev pub Store : Type 0
Store = Text → Bytes

abbrev stored : Text → Bytes → Store → Store
stored path bytes w p = if equal path p then bytes else w p

abbrev pub key_name : Text
key_name = b'P' ∷ []

abbrev signature_of : Text → Text → Bytes
signature_of pem nonce = map (λ b. b % 256) (pem ++ nonce)

-- The files that `tpm2_quote` and `tpm2_readpublic` write, by their arguments.
abbrev quoted_files : List Text → Store → Store
quoted_files (_ ∷ _ ∷ _ ∷ _ ∷ _ ∷ _ ∷ _ ∷ nonce ∷ _ ∷ sig ∷ _ ∷ msg ∷ _) w =
    stored sig (signature_of key_name nonce) (stored msg (signature_of key_name nonce) w)
quoted_files _ w = w

abbrev public_file : List Text → Store → Store
public_file (_ ∷ _ ∷ _ ∷ path ∷ _) w = stored path key_name w
public_file _ w = w

abbrev pub check : Bytes → Bytes → Bytes → Text → Text → Bool
check pem message signature nonce algorithm =
    equal message (signature_of pem nonce) && equal signature (signature_of pem nonce)

-- `tpm2_checkquote`, by its arguments.
abbrev checks : List Text → Store → Bool
checks (_ ∷ ak ∷ _ ∷ algorithm ∷ _ ∷ msg ∷ _ ∷ sig ∷ _ ∷ nonce ∷ _) w =
    check (w ak) (w msg) (w sig) nonce algorithm
checks _ w = false

abbrev pub output : Bool → Output
output success = record { success = success; status = []; stdout = []; stderr = [] }

unfoldable pub spawned : Text → List Text → Store → Bool × Store
spawned binary args w =
    if equal binary (lit "tpm2_checkquote")
    then (checks args w, w)
    else if equal binary (lit "tpm2_quote")
    then (true, quoted_files args w)
    else if equal binary (lit "tpm2_readpublic")
    then (true, public_file args w)
    else (true, w)

abbrev pub store_system : System Store
store_system = record {
  spawn = λ binary args w. let (success, w') = spawned binary args w in (ok (output success), w');
  read = λ path w. ok (w path);
  write = λ path bytes w. (ok tt, stored path bytes w);
  create_dir_all = λ path w. (ok tt, w);
  remove_dir_all = λ path w. (ok tt, w);
  open_device = λ path w. (ok 3, w);
  ioctl = λ fd request bytes w. (ok (replicate 1088 0), w);
  urandom = λ n w. (ok [], w);
  temp_dir = b'/' ∷ b't' ∷ [];
  process_id = 41;
  now = λ w. some 0;
}

abbrev pub store_host : Host Store
store_host = record {
  crates = test_crates;
  system = store_system;
  disk = λ w. test_files;
  depth = 4;
}

same_text : (s : Text) → equal s s ≡ true
same_text s = (equal_iff s s).1 refl

other_text : (s t : Text) → s ≢ t → equal s t ≡ false
unfolding equal
other_text s t differ = elim (Bool-cases (equal s t)) [
  | inl same ↦ absurd (differ ((equal_iff s t).0 same))
  | inr f ↦ f
]

pub store_files : FileLaws store_system
store_files = record {
  written = λ path bytes w h. rw (same_text path) refl;
  others = λ path other bytes w differ. rw (other_text path other differ) refl;
}

pub store_tool : CheckquoteLaws store_host test_config check
unfolding spawned checkquote_args equal lit
store_tool = record {
  decides = λ evidence ak_path msg_path sig_path ak msg sig w out ea em es ran.
      ap (λ (o : Output). o.success) (ok-inj (sym ran)) ∙ λ i.
      check (ok-inj ea i) (ok-inj em i) (ok-inj es i) evidence.nonce evidence.hash_algorithm;
}

first_file :
    (sig msg : Text) (bytes : Bytes) (w : Store) → stored sig bytes (stored msg bytes w) sig ≡ bytes
first_file sig msg bytes w = rw (same_text sig) refl

second_file :
    (sig msg : Text) (bytes : Bytes) (w : Store) → stored sig bytes (stored msg bytes w) msg ≡ bytes
second_file sig msg bytes w = elim (Bool-cases (equal sig msg)) [
  | inl same ↦ rw same refl
  | inr differ ↦ rw (differ, same_text msg) refl
]

mapped-IsByte : (s : Text) → All IsByte (map (λ b. b % 256) s)
mapped-IsByte [] = tt
mapped-IsByte (c ∷ s) = (omega arith, mapped-IsByte s)

accepts :
    (nonce : Text) (m s : Bytes)
    → signature_of key_name nonce ≡ s
    → signature_of key_name nonce ≡ m
    → (check key_name m s nonce test_config.hash_algorithm ≡ true) × All IsByte s × All IsByte m
accepts nonce m s es em =
    let signature = signature_of key_name nonce in
    let whole = mapped-IsByte (key_name ++ nonce) in
    (
      (λ i. equal (sym em i) signature && equal (sym es i) signature)
          ∙ (λ i. same_text signature i && same_text signature i),
      subst (All IsByte) es whole,
      subst (All IsByte) em whole,
    )

pub store_signer : SignerLaws store_host test_config key_name check
unfolding spawned binary_of equal lit quote_args
store_signer = record {
  signs = λ nonce sig msg pcrs s m w success rs rm.
      accepts nonce m s (sym (first_file sig msg (signature_of key_name nonce) w) ∙ ok-inj rs)
        (sym (second_file sig msg (signature_of key_name nonce) w) ∙ ok-inj rm);
  publishes = λ path text w success r. sym (ok-inj r) ∙ rw (same_text path) refl;
}

zeros_status : from_le_bytes (take 8 (drop 1024 (replicate 1088 0))) ≡ 0
unfolding from_le_bytes
zeros_status = refl

pub store_mac : MacLaws store_system
store_mac = record {
  authentic = λ fd fd' data_in req reply w w' made asked.
      ap (λ b. from_le_bytes (take 8 (drop 1024 b))) (ok-inj (sym asked)) ∙ zeros_status;
  holds_bytes = λ fd data_in req w made.
      subst (All IsByte) (ok-inj made) (replicate-IsByte 1088 0 (omega arith));
  sized = λ fd data_in req w made. ap length (sym (ok-inj made)) ∙ length-replicate {A = ℕ} 1088 0;
}
