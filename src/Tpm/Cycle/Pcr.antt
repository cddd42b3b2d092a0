-- ===== src/Tpm/Cycle/Pcr.antt =====
-- The value of the PCR after a measurement: src/tpm.rs against a TPM whose PCR is one value.
use tex_attestation_server.Prelude.{
  ◌≡◌, refl, sym, ap, ◌∙◌, true, false, List, [], ◌∷◌, ◌++◌, arith, inl, inr, Bool-cases,
}
use tex_attestation_server.Prelude.Result.{Result, ok, err, map_err}
use tex_attestation_server.Prelude.Monad.{>>=-split, ok-injective}
use tex_attestation_server.Text.{Bytes, Text, lit}
use tex_attestation_server.Text.Decimal.{decimal}
use tex_attestation_server.Outside.{IoError, Output}
use tex_attestation_server.Tpm.Types.{TpmError}
use tex_attestation_server.Tpm.Config.{TpmConfig, pcr_selection}
use tex_attestation_server.Tpm.Machine.{Host, Machine, arg, join}
use tex_attestation_server.Tpm.Machine.Keeping.{is_noted, Keeps, ScratchKeeps, arg-Kept, arg-ok}
use tex_attestation_server.Tpm.Command.{
  binary_of, tcti_option, outcome, tpm2, reset_pcr, extend_spec, extend_pcr, read_output, read_pcr,
}
use tex_attestation_server.Tpm.Command.Keeping.{ProgramKeeps, read_pcr-Kept}

module _ {W : Type 0} (h : Host W) (config : TpmConfig) where
  -- The answer of a `tpm2-*` program and the world after it.
  abbrev pub run : Text → List Text → W → Result IoError Output × W
  run sub args w = h.system.spawn (binary_of sub) (args ++ tcti_option config ∷ []) w

  -- A program that ran and exited with success.
  abbrev pub Succeeds : Text → List Text → W → Type 0
  Succeeds sub args w = (out : Output) × ((run sub args w).0 ≡ ok out) × (out.success ≡ true)

  -- A TPM with one PCR, whose value is `pcr`: what tpm2-tools documents of its programs. A reset
  -- sets the PCR to `initial`, an extension hashes its value and the digest, and no other program
  -- changes it.
  pub record PcrLaws (pcr : W → Bytes) (hash : Bytes → Bytes) (initial : Bytes) : Type 0 where
    pub keeps : Keeps h pcr
    pub quote_keeps : ProgramKeeps h config pcr (lit "quote")
    pub scratch_keeps : ScratchKeeps h pcr
    pub resets :
        (w : W)
        → Succeeds (lit "pcrreset") (decimal config.pcr_index ∷ []) w
        → pcr (run (lit "pcrreset") (decimal config.pcr_index ∷ []) w).1 ≡ initial
    pub extends :
        (digest_hex : Text) (digest : Bytes) (w : W)
        → h.crates.hex_decode digest_hex ≡ ok digest
        → Succeeds (lit "pcrextend") (extend_spec h config digest_hex ∷ []) w
        → pcr (run (lit "pcrextend") (extend_spec h config digest_hex ∷ []) w).1
          ≡ hash (pcr w ++ digest)
    pub reads :
        (path : Text) (bytes : Bytes) (w : W)
        → Succeeds (lit "pcrread") (pcr_selection config ∷ lit "-o" ∷ path ∷ []) w
        → h.system.read path (run (lit "pcrread") (pcr_selection config ∷ lit "-o" ∷ path ∷ []) w).1
          ≡ ok bytes
        → bytes ≡ pcr (run (lit "pcrread") (pcr_selection config ∷ lit "-o" ∷ path ∷ []) w).1

failed-absurd :
    (config : TpmConfig) (binary : Text) (out : Output) {text : Text} {B : Type 0}
    → out.success ≡ false
    → outcome config binary (ok out) ≡ ok text
    → B
unfolding outcome
failed-absurd config binary out failed h = absurd (ground (arith, failed, h))

outcome-eq-ok :
    (config : TpmConfig) (binary : Text) (answer : Result IoError Output) (text : Text)
    → outcome config binary answer ≡ ok text
    → (out : Output) × (answer ≡ ok out) × (out.success ≡ true)
unfolding outcome
outcome-eq-ok config binary (err e) text h = absurd (ground (arith, h))
outcome-eq-ok config binary (ok out) text h = elim (Bool-cases out.success) [
  | inl success ↦ (out, refl, success)
  | inr failed ↦ failed-absurd config binary out failed h
]

pcrread_not_noted : is_noted (binary_of (lit "pcrread")) ≡ false
unfolding is_noted binary_of lit
pcrread_not_noted = refl

forget-eq-ok :
    (f : TpmError → TpmError) (r : Result TpmError Text)
    → ◌≡◌ {A = Result TpmError (Unit {0})}
        (map_err f (elim r [ ok _ ↦ ok tt | err e ↦ err e ]))
        (ok tt)
    → (t : Text) × (r ≡ ok t)
forget-eq-ok f (ok t) h = (t, refl)
forget-eq-ok f (err e) h = absurd (cc h)

module _ {W : Type 0} (h : Host W) (config : TpmConfig) where
  pub tpm2-eq-ok :
      (sub : Text) (args : List Text) (m m' : Machine W) (text : Text)
      → tpm2 h config sub args m ≡ (ok text, m')
      → Succeeds h config sub args m.world × (m'.world ≡ (run h config sub args m.world).1)
  unfolding tpm2
  tpm2-eq-ok sub args m m' text e = (
    outcome-eq-ok config (binary_of sub) (run h config sub args m.world).0 text (λ i. (e i).0),
    λ i. (sym e i).1.world,
  )

  pub read_output-eq-ok :
      (path : Bytes) (a b : Text) (m m' : Machine W) (bytes : Bytes)
      → read_output h config path a b m ≡ (ok bytes, m')
      → (h.system.read path m.world ≡ ok bytes) × (m'.world ≡ m.world)
  unfolding read_output
  read_output-eq-ok path a b m m' bytes e = ground arith

  module _ (pcr : W → Bytes) (hash : Bytes → Bytes) (initial : Bytes)
      (laws : PcrLaws h config pcr hash initial) where
    pub reset_pcr-initial :
        (m m' : Machine W) → reset_pcr h config m ≡ (ok tt, m') → pcr m'.world ≡ initial
    unfolding reset_pcr
    reset_pcr-initial m m' e =
        let ran = tpm2 h config (lit "pcrreset") (decimal config.pcr_index ∷ []) m in
        let (t, same) = forget-eq-ok _ ran.0 λ i. (e i).0 in
        let (success, world) = tpm2-eq-ok (lit "pcrreset") _ m ran.1 t (λ i. (same i, ran.1)) in
        ap (λ (r : Result TpmError (Unit {0}) × Machine W). pcr r.1.world) (sym e)
        ∙ ap pcr world
        ∙ laws.resets m.world success

    pub extend_pcr-extends :
        (digest_hex : Text) (digest : Bytes) (m m' : Machine W)
        → h.crates.hex_decode digest_hex ≡ ok digest
        → extend_pcr h config digest_hex m ≡ (ok tt, m')
        → pcr m'.world ≡ hash (pcr m.world ++ digest)
    unfolding extend_pcr
    extend_pcr-extends digest_hex digest m m' d e =
        let (t, m1, e1, e2) =
          >>=-split (tpm2 h config (lit "pcrextend") (extend_spec h config digest_hex ∷ [])) _ m
            e in
        let (success, world) = tpm2-eq-ok (lit "pcrextend") _ m m1 t e1 in
        ap (λ (v : Machine W). pcr v.world) (sym (ok-injective e2).1)
        ∙ ap pcr world
        ∙ laws.extends digest_hex digest m.world d success

    pub read_pcr-reads :
        (scratch : Bytes) (m m' : Machine W) (value : Text)
        → read_pcr h config scratch m ≡ (ok value, m')
        → (value ≡ h.crates.hex_encode (pcr m.world)) × (pcr m'.world ≡ pcr m.world)
    unfolding read_pcr
    read_pcr-reads scratch m m' value e =
        let (path, m1, e1, h1) = >>=-split (arg scratch (lit "pcr.bin")) _ m e in
        let (t, m2, e2, h2) =
          >>=-split (tpm2 h config (lit "pcrread") (pcr_selection config ∷ lit "-o" ∷ path ∷ [])) _
            m1 h1 in
        let (bytes, m3, e3, h3) =
          >>=-split
            (read_output h config (join scratch (lit "pcr.bin"))
              (lit "PCR " ++ (decimal config.pcr_index ++ lit " output cannot be read: "))
              (lit "PCR " ++ (decimal config.pcr_index ++ lit " read returned no data")))
            _ m2 h2 in
        let (success, world) = tpm2-eq-ok (lit "pcrread") _ m1 m2 t e2 in
        let (read, same) = read_output-eq-ok _ _ _ m2 m3 bytes e3 in
        let is = arg-ok scratch (lit "pcr.bin") path m λ i. (e1 i).0 in
        let seen : bytes ≡ pcr m2.world =
          laws.reads path bytes m1.world success
            (ap (h.system.read path) (sym world) ∙ ap (λ p. h.system.read p m2.world) is ∙ read)
          ∙ ap pcr (sym world) in
        let during : pcr m2.world ≡ pcr m1.world =
          ap pcr world ∙ laws.keeps.spawn_keeps _ _ m1.world pcrread_not_noted in
        let before : pcr m1.world ≡ pcr m.world =
          (λ i. pcr (sym e1 i).1.world) ∙ (arg-Kept {obs = pcr} scratch (lit "pcr.bin")).kept m in
        (
          sym (ok-injective h3).0 ∙ ap h.crates.hex_encode (seen ∙ during ∙ before),
          (λ i. pcr (sym e i).1.world) ∙ (read_pcr-Kept h config pcr laws.keeps scratch).kept m,
        )
