-- ===== src/Api/Evidence.antt =====
-- The routes of src/api.rs that quote, attest and verify: how they reach the backend of src/tpm.rs.
use tex_attestation_server.Prelude.{◌≡◌, ◌≢◌, ap, ◌∙◌, true, Bool, []}
use tex_attestation_server.Prelude.Result.{Result, ok, map_err}
use tex_attestation_server.Prelude.Monad.{
  M, >>=-split, map_err-eq-ok, map_err-ok, lift, convert, ◌>>=◌,
}
use tex_attestation_server.Text.{Bytes, Text}
use tex_attestation_server.Outside.{HexLaws, Base64Laws, FileLaws}
use tex_attestation_server.Tpm.Types.{
  TpmError, QuoteTpmRequest, QuoteTpmResponse, AttestationAllResponse, VerifyAllResponse,
}
use tex_attestation_server.Tpm.Config.{TpmConfig}
use tex_attestation_server.Tpm.Nonce.{resolved_nonce}
use tex_attestation_server.Tpm.Machine.{Host, Machine}
use tex_attestation_server.Tpm.Machine.Recording.{Noted, noting}
use tex_attestation_server.Tpm.Cycle
use tex_attestation_server.Tpm.Cycle.Order.{QuotedOnce, quote_tpm-notes}
use tex_attestation_server.Tpm.Cycle.Signed.{SignerLaws, Current}
use tex_attestation_server.Tpm.Combined
use tex_attestation_server.Tpm.Combined.Challenge.{OneChallenge, attestation_all-binds}
use tex_attestation_server.Tpm.Combined.Verdict.{CheckquoteLaws}
use tex_attestation_server.Tpm.Combined.Genuine.{MacLaws}
use tex_attestation_server.Tpm.Combined.Answering.{Available}
use tex_attestation_server.Tpm.Combined.RoundTrip
use tex_attestation_server.Attestation.Binding.{GuestDriver}
use tex_attestation_server.Api.{
  ApiError, Json, from_tpm, read_body, parse_json, quote_tpm, attestation_all, verify_all,
}

convert-ok :
    {W A : Type 0} (f : TpmError → ApiError) (k : M W TpmError A) (m m' : W) (a : A)
    → convert f k m ≡ (ok a, m')
    → k m ≡ (ok a, m')
convert-ok f k m m' a e =
    let is : (k m).0 ≡ ok a = map_err-eq-ok f (k m).0 (λ i. (e i).0) in λ i. (is i, (e i).1)

module _ {W : Type 0} (h : Host W) (json : Json) where
  -- The body of a request was read, and is JSON that names the challenge.
  abbrev pub Challenged : Result Text Text → Text → Type 0
  Challenged request_body nonce =
      (body : Text) × (request : QuoteTpmRequest) × (request_body ≡ ok body)
      × (json.quote_request body ≡ ok request)
      × (resolved_nonce h.crates request ≡ ok nonce)

  -- The three reads in front of a backend that takes the challenge.
  module _ {A : Type 0} (backend : Text → M (Machine W) TpmError A) where
    abbrev pub challenge_of : Result Text Text → M (Machine W) ApiError A
    challenge_of request_body = do
      body ← lift (read_body request_body)
      request ← lift (parse_json json.quote_request body)
      nonce ← lift (map_err from_tpm (resolved_nonce h.crates request))
      convert from_tpm (backend nonce)

    challenge_of-reached :
        (request_body : Result Text Text) (m m' : Machine W) (a : A)
        → challenge_of request_body m ≡ (ok a, m')
        → (nonce : Text) × Challenged request_body nonce × (backend nonce m ≡ (ok a, m'))
    unfolding read_body parse_json
    challenge_of-reached request_body m m' a e =
        let (body, m1, e1, h1) = >>=-split (lift (read_body request_body)) _ m e in
        let (request, m2, e2, h2) = >>=-split (lift (parse_json json.quote_request body)) _ m1 h1 in
        let (nonce, m3, e3, h3) =
          >>=-split (lift (map_err from_tpm (resolved_nonce h.crates request))) _ m2 h2 in
        let same : m ≡ m3 = (λ i. (e1 i).1) ∙ (λ i. (e2 i).1) ∙ (λ i. (e3 i).1) in
        (
          nonce,
          (
            body,
            request,
            map_err-eq-ok _ request_body (λ i. (e1 i).0),
            map_err-eq-ok _ (json.quote_request body) (λ i. (e2 i).0),
            map_err-eq-ok _ (resolved_nonce h.crates request) (λ i. (e3 i).0),
          ),
          ap (backend nonce) same ∙ convert-ok from_tpm (backend nonce) m3 m' a h3,
        )

module _ {W : Type 0} (h : Host W) (config : TpmConfig) (json : Json) where
  -- The route quote_tpm answers a quote only for the challenge of its request: the body was read, is
  -- JSON that names the challenge, and the quote is for that one, after one reset and one extension.
  quote_tpm-Challenged :
      (request_body : Result Text Text) (m m' : Machine (Noted W)) (r : QuoteTpmResponse)
      → quote_tpm (noting h) config json request_body m ≡ (ok r, m')
      → (nonce : Text) × Challenged h json request_body nonce × QuotedOnce h config nonce m m' r
  unfolding quote_tpm
  quote_tpm-Challenged request_body m m' r e =
      let (nonce, challenged, done) =
        challenge_of-reached (noting h) json (Cycle.quote_tpm (noting h) config) request_body m m' r
          e in
      (nonce, challenged, quote_tpm-notes h config nonce m m' r done)

  -- The route attestation_all answers evidence only for the challenge of its request: the body was
  -- read, is JSON that names the challenge, both halves of the evidence are bound to that one, and
  -- the PCR was reset and extended once, by the reported total digest. Assumed: the guest driver
  -- keeps the size of its struct and echoes REPORTDATA.
  pub attestation_all-Challenged :
      (request_body : Result Text Text) (m m' : Machine (Noted W)) (r : AttestationAllResponse)
      → GuestDriver h.system
      → attestation_all (noting h) config json request_body m ≡ (ok r, m')
      → (nonce : Text) × Challenged h json request_body nonce × OneChallenge h config nonce m m' r
  unfolding attestation_all
  attestation_all-Challenged request_body m m' r driver e =
      let (nonce, challenged, done) =
        challenge_of-reached (noting h) json (Combined.attestation_all (noting h) config)
          request_body m m' r e in
      (nonce, challenged, attestation_all-binds h config nonce m m' r driver done)

  -- The route verify_all answers what the backend says of the evidence that the body holds.
  verify_all-reaches :
      (body : Text) (request : AttestationAllResponse) (m : Machine W) (v : VerifyAllResponse)
      → json.all_response body ≡ ok request
      → (Combined.verify_all h config request m).0 ≡ ok v
      → (verify_all h config json (ok body) m).0 ≡ ok v
  unfolding verify_all read_body parse_json
  verify_all-reaches body request m v is e =
      rw is (map_err-ok from_tpm {r = (Combined.verify_all h config request m).0} e)

  module _ (pem : Text) (check : Bytes → Bytes → Bytes → Text → Text → Bool)
      (signer : SignerLaws h config pem check) (hex : HexLaws h.crates) (b64 : Base64Laws h.crates)
      (mac : MacLaws h.system) (files : FileLaws h.system)
      (tool : CheckquoteLaws h config check) where
    -- What the route attestation_all answers with a key, the route verify_all answers to be trusted
    -- when it is posted there, in any JSON text that is read as it, on a machine that can verify.
    -- Assumed: the laws of the crates and of files, that tpm2_checkquote decides by the contents of
    -- its files and accepts what tpm2_quote writes for the Attestation Key, whose public part is what
    -- was cached, if anything was, and that the TDX module accepts the MAC of its reports.
    -- The TPM has one and the same Attestation Key throughout and no other one is cached: a key that
    -- is replaced while the server runs is excluded.
    pub verify_all-attestation_all :
        (request_body : Result Text Text) (posted : Text) (m m' n : Machine W)
        (r : AttestationAllResponse)
        → Current h config pem check signer m
        → attestation_all h config json request_body m ≡ (ok r, m')
        → r.ak_pubkey ≢ []
        → json.all_response posted ≡ ok r
        → Available h config n.scratch_counter
        → (v : VerifyAllResponse) × ((verify_all h config json (ok posted) n).0 ≡ ok v)
          × (v.trusted ≡ true)
    unfolding attestation_all
    verify_all-attestation_all request_body posted m m' n r current e filled is can =
        let (nonce, _, done) =
          challenge_of-reached h json (Combined.attestation_all h config) request_body m m' r e in
        let (v, answered, trusted) =
          RoundTrip.attestation_all-verify_all h config pem check signer hex b64 mac files tool
            nonce m m' n r current done filled can in
        (v, verify_all-reaches posted r n v is answered, trusted)
