-- ===== src/Tpm/Combined/Blob.antt =====
-- The blobs of a quote, back from their encoding: `read_blob` and `decode_blob` of src/tpm.rs.
use tex_attestation_server.Prelude.{◌≡◌, refl, ◌∙◌, true, [], ◌∷◌, arith, All}
use tex_attestation_server.Prelude.Result.{ok}
use tex_attestation_server.Text.{Bytes, Text}
use tex_attestation_server.Text.Utf8.{utf8_valid, utf8_valid-ascii, utf8_valid-nil}
use tex_attestation_server.Text.Trim.{trim-plain, IsPlain}
use tex_attestation_server.Outside.{
  Crates, HexLaws, Base64Laws, IsByte, is_hex_digit, is_base64_char,
}
use tex_attestation_server.Tpm.Nonce.Laws.{hex_digits-IsPlain}
use tex_attestation_server.Tpm.Combined.{decode_blob}

base64-IsPlain : (s : Text) → All (λ d. is_base64_char d ≡ true) s → All IsPlain s
base64-IsPlain [] h = tt
base64-IsPlain (c ∷ s) h = (ground arith, base64-IsPlain s h.1)

hex-IsByte : (s : Text) → All (λ d. is_hex_digit d ≡ true) s → All IsByte s
hex-IsByte [] h = tt
hex-IsByte (c ∷ s) h = (ground arith, hex-IsByte s h.1)

hex-utf8_valid : (s : Text) → All (λ d. is_hex_digit d ≡ true) s → utf8_valid s ≡ true
hex-utf8_valid [] h = utf8_valid-nil
hex-utf8_valid (c ∷ s) h = utf8_valid-ascii c s (ground arith) ∙ hex-utf8_valid s h.1

-- `decode_blob` gives back the bytes that `read_blob` encoded as hex in base64. Assumed: the laws of
-- the two crates.
pub decode_blob-encode :
    (c : Crates) (bytes : Bytes)
    → HexLaws c
    → Base64Laws c
    → All IsByte bytes
    → decode_blob c (c.base64_encode (c.hex_encode bytes)) ≡ ok bytes
unfolding decode_blob
decode_blob-encode c bytes hex b64 h =
    let digits = hex.encode-digits bytes in
    rw (trim-plain (c.base64_encode (c.hex_encode bytes)) (base64-IsPlain _ (b64.encode-chars _)))
      rw (b64.decode-encode (c.hex_encode bytes) (hex-IsByte _ digits)) rw
      (hex-utf8_valid (c.hex_encode bytes) digits) rw
      (trim-plain (c.hex_encode bytes) (hex_digits-IsPlain _ digits)) rw (hex.decode-encode bytes h)
      refl
