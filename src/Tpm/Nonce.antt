-- ===== src/Tpm/Nonce.antt =====
-- The challenge of src/tpm.rs: `normalize_nonce` and `resolved_nonce`.
pub mod Laws
use tex_attestation_server.Prelude.{
  ℕ, ◌%◌, Bool, not, Option, none, some, List, [], ◌++◌, ltb, ◌==◌, if◌then◌else◌, length,
}
use tex_attestation_server.Prelude.Result.{Result, ok, err, ◌>>=◌, map_err}
use tex_attestation_server.Text.{Bytes, Text, lit, equal, to_ascii_lowercase}
use tex_attestation_server.Text.Trim.{trim}
use tex_attestation_server.Text.Decimal.{decimal}
use tex_attestation_server.Outside.{Crates}
use tex_attestation_server.Tpm.Types.{TpmError, invalid_input, QuoteTpmRequest}

abbrev pub max_qualifying_data_len : ℕ
max_qualifying_data_len = 64

-- The tests on the decoded bytes.
unfoldable pub check_bytes : Crates → Bytes → Result TpmError (Text × ℕ)
check_bytes c bytes =
    if length bytes == 0
    then err (invalid_input (lit "the nonce must not be empty"))
    else if ltb max_qualifying_data_len (length bytes)
    then err (
        invalid_input (
          lit "the nonce is "
          ++ (decimal (length bytes) ++ lit " bytes, but TPM qualifying data holds at most 64")))
    else ok (c.hex_encode bytes, length bytes)

unfoldable pub normalize_nonce : Crates → Text → Result TpmError (Text × ℕ)
unfolding check_bytes
normalize_nonce c nonce_hex =
    let trimmed = trim nonce_hex in
    let decoded = do
      bytes ←
          map_err (λ e. invalid_input (lit "the nonce is not valid hex: " ++ e))
            (c.hex_decode trimmed)
      check_bytes c bytes
    in if length trimmed == 0
      then err (invalid_input (lit "the nonce must not be empty"))
      else if not (length trimmed % 2 == 0)
      then err (
          invalid_input (
            lit "the nonce must have an even number of hex characters, got "
            ++ decimal (length trimmed)))
      else decoded

-- The value that the request carries, under one name or the other.
unfoldable pub choose_value : Option Text → Option Text → Result TpmError Text
choose_value (some a) (some b) =
    if not (equal (to_ascii_lowercase (trim a)) (to_ascii_lowercase (trim b)))
    then err (invalid_input (lit "'nonce' and 'challenge' are both present but differ"))
    else ok a
choose_value (some a) none = ok a
choose_value none (some b) = ok b
choose_value none none =
    err (invalid_input (lit "missing required field 'nonce' (alias: 'challenge')"))

unfoldable pub resolved_nonce : Crates → QuoteTpmRequest → Result TpmError Text
resolved_nonce c request = do
  value ← choose_value request.nonce request.challenge
  (normalized, _) ← normalize_nonce c value
  ok normalized
