-- ===== src/Tpm/Nonce/Laws.antt =====
-- What a challenge is after `normalize_nonce`, and how the two names of the field agree.
use tex_attestation_server.Prelude.{
  ℕ, ◌*◌, ◌%◌, ◌≤◌, ◌≡◌, ◌∙◌, true, false, Option, none, some, [], ◌∷◌, arith, ◌==◌, length, All,
  ◌⊎◌, inl, inr, Bool-cases,
}
use tex_attestation_server.Prelude.Result.{ok, err, map_err, >>=-eq-ok}
use tex_attestation_server.Prelude.Monad.{map_err-eq-ok}
use tex_attestation_server.Text.{Bytes, Text, lit, equal_iff, to_ascii_lowercase}
use tex_attestation_server.Text.Trim.{trim, trim-plain, IsPlain}
use tex_attestation_server.Outside.{Crates, HexLaws, is_hex_digit}
use tex_attestation_server.Tpm.Types.{invalid_input, QuoteTpmRequest}
use tex_attestation_server.Tpm.Nonce.{
  max_qualifying_data_len, check_bytes, normalize_nonce, choose_value, resolved_nonce,
}

-- The nonce `n` of `k` bytes is the canonical form of the text `s`.
pub record IsCanonical (c : Crates) (s n : Text) (k : ℕ) : Type 0 where
  pub bytes : Bytes
  pub decoded : c.hex_decode (trim s) ≡ ok bytes
  pub encoded : n ≡ c.hex_encode bytes
  pub size : k ≡ length bytes
  pub fits : (1 ≤ k) × (k ≤ max_qualifying_data_len)

pub hex_digits-IsPlain : (s : Text) → All (λ d. is_hex_digit d ≡ true) s → All IsPlain s
hex_digits-IsPlain [] h = tt
hex_digits-IsPlain (c ∷ s) h = (ground arith, hex_digits-IsPlain s h.1)

check_bytes-ok :
    (c : Crates) (bytes : Bytes) (n : Text) (k : ℕ)
    → check_bytes c bytes ≡ ok (n, k)
    → (n ≡ c.hex_encode bytes) × (k ≡ length bytes) × (1 ≤ k) × (k ≤ max_qualifying_data_len)
unfolding check_bytes
check_bytes-ok c bytes n k h = ground arith

check_bytes-fits :
    (c : Crates) (bytes : Bytes) (n : Text) (k : ℕ)
    → n ≡ c.hex_encode bytes
    → k ≡ length bytes
    → 1 ≤ k
    → k ≤ max_qualifying_data_len
    → check_bytes c bytes ≡ ok (n, k)
unfolding check_bytes
check_bytes-fits c bytes n k e s a b = ground arith

-- How two spellings of one challenge agree.
choose_value-both :
    (a b : Text)
    → ((to_ascii_lowercase (trim a) ≡ to_ascii_lowercase (trim b))
        × (choose_value (some a) (some b) ≡ ok a))
      ⊎ (choose_value (some a) (some b)
          ≡ err (invalid_input (lit "'nonce' and 'challenge' are both present but differ")))
unfolding choose_value
choose_value-both a b =
    ground (arith, equal_iff (to_ascii_lowercase (trim a)) (to_ascii_lowercase (trim b)))

-- A request with the challenge under one name, the other or both.
abbrev pub request_of : Option Text → Option Text → QuoteTpmRequest
request_of a b = record { nonce = a; challenge = b; nonce_size = none; mask = none }

module _ (c : Crates) (laws : HexLaws c) where
  trim-hex_encode : (bytes : Bytes) → trim (c.hex_encode bytes) ≡ c.hex_encode bytes
  trim-hex_encode bytes =
      trim-plain (c.hex_encode bytes) (hex_digits-IsPlain _ (laws.encode-digits bytes))

  normalize-IsCanonical :
      (s n : Text) (k : ℕ) → normalize_nonce c s ≡ ok (n, k) → IsCanonical c s n k
  unfolding normalize_nonce
  normalize-IsCanonical s n k h = elim (Bool-cases (length (trim s) == 0)) [
    | inl empty ↦ absurd (cc (rw empty at h))
    | inr some_left ↦ elim (Bool-cases (length (trim s) % 2 == 0)) [
      | inr odd ↦ absurd (cc (rw odd at rw some_left at h))
      | inl even ↦
          let h1 = rw even at rw some_left at h in
          let (bytes, e, h2) = >>=-eq-ok (map_err _ (c.hex_decode (trim s))) _ h1 in
          let facts = check_bytes-ok c bytes n k h2 in
          record {
            bytes = bytes;
            decoded = map_err-eq-ok _ _ e;
            encoded = facts.0;
            size = facts.1;
            fits = (facts.2, facts.3);
          }
    ]
  ]

  -- A canonical nonce is its own canonical form.
  IsCanonical-normalize :
      (s n : Text) (k : ℕ) → IsCanonical c s n k → normalize_nonce c n ≡ ok (n, k)
  unfolding normalize_nonce check_bytes
  IsCanonical-normalize s n k i =
      let same : trim n ≡ n = rw i.encoded (trim-hex_encode i.bytes) in
      let size : length n ≡ 2 * k = rw i.encoded rw i.size (laws.encode-length i.bytes) in
      let back : c.hex_decode n ≡ ok i.bytes =
        rw i.encoded (laws.decode-encode i.bytes (laws.decode-IsByte _ _ i.decoded)) in
      let some_left : (length n == 0) ≡ false = ground (arith, i.fits.0) in
      let even : (length n % 2 == 0) ≡ true = ground arith in
      rw same rw some_left rw even rw back
        (check_bytes-fits c i.bytes n k i.encoded i.size i.fits.0 i.fits.1)

  -- A normalised nonce is the lowercase form of the trimmed input, 1 to 64 bytes long in two digits
  -- each, and normalising it again changes nothing. Assumed: the laws of the hex crate.
  pub normalize_nonce_idem :
      (s n : Text) (k : ℕ)
      → normalize_nonce c s ≡ ok (n, k)
      → (n ≡ to_ascii_lowercase (trim s))
        × (length n ≡ 2 * k)
        × ((1 ≤ k) × (k ≤ max_qualifying_data_len))
        × (normalize_nonce c n ≡ ok (n, k))
  normalize_nonce_idem s n k h =
      let i = normalize-IsCanonical s n k h in
      (
        i.encoded ∙ laws.encode-decode (trim s) i.bytes i.decoded,
        rw i.encoded rw i.size (laws.encode-length i.bytes),
        i.fits,
        IsCanonical-normalize s n k i,
      )

  same_case-normalize :
      (a b n : Text) (k : ℕ)
      → to_ascii_lowercase (trim a) ≡ to_ascii_lowercase (trim b)
      → normalize_nonce c a ≡ ok (n, k)
      → normalize_nonce c b ≡ ok (n, k)
  unfolding normalize_nonce
  same_case-normalize a b n k e h =
      let i = normalize-IsCanonical a n k h in
      let decoded = laws.decode_case (trim a) (trim b) i.bytes e i.decoded in
      let size : length (trim b) ≡ 2 * k = rw i.size (laws.decode-length _ _ decoded) in
      let some_left : (length (trim b) == 0) ≡ false = ground (arith, i.fits.0) in
      let even : (length (trim b) % 2 == 0) ≡ true = ground arith in
      rw some_left rw even rw decoded
        (check_bytes-fits c i.bytes n k i.encoded i.size i.fits.0 i.fits.1)

  -- A request that gives the challenge under both names gets the nonce that either name alone gives.
  -- Assumed: the laws of the hex crate.
  pub resolved_nonce-both :
      (a b n : Text)
      → resolved_nonce c (request_of (some a) (some b)) ≡ ok n
      → (resolved_nonce c (request_of (some a) none) ≡ ok n)
        × (resolved_nonce c (request_of none (some b)) ≡ ok n)
  unfolding resolved_nonce choose_value
  resolved_nonce-both a b n h = elim (choose_value-both a b) [
    | inr differ ↦ absurd (cc (rw differ at h))
    | inl (same, chosen) ↦
        let h1 = rw chosen at h in
        let ((m, k), e, h2) = >>=-eq-ok (normalize_nonce c a) _ h1 in
        (h1, rw (same_case-normalize a b m k same e) h2)
  ]
