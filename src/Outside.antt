-- ===== src/Outside.antt =====
-- What the server calls and does not implement: the crates `hex`, `base64` and `sha2`, the file
-- system, other programs, devices and the clock. All of it is a parameter of the model; the laws
-- that a theorem rests on are the records below, each a documented behaviour of its crate.
use tex_attestation_server.Prelude.{
  ℕ, ◌*◌, ◌<◌, ◌≡◌, ◌≢◌, Bool, true, ◌||◌, Option, List, length, All, between,
}
use tex_attestation_server.Prelude.Result.{Result, ok}
use tex_attestation_server.Text.{Bytes, Text, to_ascii_lowercase}

abbrev pub IsByte : ℕ → Type 0
IsByte b = b < 256

-- A lowercase hexadecimal digit.
abbrev pub is_hex_digit : ℕ → Bool
is_hex_digit c = between b'0' b'9' c || between b'a' b'f' c

-- A character that `base64::STANDARD` writes.
abbrev pub is_base64_char : ℕ → Bool
is_base64_char c =
    between b'a' b'z' c || between b'A' b'Z' c || between b'+' b'9' c || between b'=' b'=' c

-- The functions of the crates. An error is its message.
pub record Crates : Type 0 where
  pub hex_encode : Bytes → Text
  pub hex_decode : Text → Result Text Bytes
  pub base64_encode : Bytes → Text
  pub base64_decode : Text → Result Text Bytes
  pub sha256 : Bytes → Bytes

-- `hex`: two lowercase digits for each byte; `decode` takes both cases and an even length only.
pub record HexLaws (c : Crates) : Type 0 where
  pub decode-encode : (b : Bytes) → All IsByte b → c.hex_decode (c.hex_encode b) ≡ ok b
  pub encode-decode :
      (s : Text) (b : Bytes) → c.hex_decode s ≡ ok b → c.hex_encode b ≡ to_ascii_lowercase s
  pub decode_case :
      (s t : Text) (b : Bytes)
      → to_ascii_lowercase s ≡ to_ascii_lowercase t
      → c.hex_decode s ≡ ok b
      → c.hex_decode t ≡ ok b
  pub decode-IsByte : (s : Text) (b : Bytes) → c.hex_decode s ≡ ok b → All IsByte b
  pub decode-length : (s : Text) (b : Bytes) → c.hex_decode s ≡ ok b → length s ≡ 2 * length b
  pub encode-length : (b : Bytes) → length (c.hex_encode b) ≡ 2 * length b
  pub encode-digits : (b : Bytes) → All (λ d. is_hex_digit d ≡ true) (c.hex_encode b)

-- `base64` with the standard alphabet and padding.
pub record Base64Laws (c : Crates) : Type 0 where
  pub decode-encode : (b : Bytes) → All IsByte b → c.base64_decode (c.base64_encode b) ≡ ok b
  pub encode-chars : (b : Bytes) → All (λ d. is_base64_char d ≡ true) (c.base64_encode b)

-- `sha2`: a digest has 32 bytes.
pub record ShaLaws (c : Crates) : Type 0 where
  pub sha256-length : (b : Bytes) → length (c.sha256 b) ≡ 32
  pub sha256-IsByte : (b : Bytes) → All IsByte (c.sha256 b)

-- `std::io::Error`: whether its kind is `NotFound`, and its message.
pub record IoError : Type 0 where
  pub is_not_found : Bool
  pub message : Text

-- `std::process::Output`
pub record Output : Type 0 where
  pub success : Bool
  pub status : Text
  pub stdout : Bytes
  pub stderr : Bytes

-- The operating system, in the world `W`: programs, files, devices, clock.
pub record System (W : Type 0) : Type 0 where
  -- `Command::new(binary).args(args).output()`
  pub spawn : Text → List Text → W → Result IoError Output × W
  pub read : Text → W → Result IoError Bytes
  pub write : Text → Bytes → W → Result IoError (Unit {0}) × W
  pub create_dir_all : Text → W → Result IoError (Unit {0}) × W
  pub remove_dir_all : Text → W → Result IoError (Unit {0}) × W
  -- `OpenOptions::new().read(true).write(true).open(path)`, which yields a file descriptor
  pub open_device : Text → W → Result IoError ℕ × W
  -- `ioctl(fd, request, arg)`, with the bytes of the struct before and after
  pub ioctl : ℕ → ℕ → Bytes → W → Result IoError Bytes × W
  -- `n` bytes of `/dev/urandom`
  pub urandom : ℕ → W → Result IoError Bytes × W
  pub temp_dir : Text
  pub process_id : ℕ
  -- seconds since the epoch, if the clock stands behind it
  pub now : W → Option ℕ

-- `std::fs::write` and `read`: a file that was written has the bytes, and the others are as before.
pub record FileLaws {W : Type 0} (sys : System W) : Type 0 where
  pub written :
      (path : Text) (bytes : Bytes) (w : W)
      → (sys.write path bytes w).0 ≡ ok tt
      → sys.read path (sys.write path bytes w).1 ≡ ok bytes
  pub others :
      (path other : Text) (bytes : Bytes) (w : W)
      → path ≢ other
      → sys.read other (sys.write path bytes w).1 ≡ sys.read other w
