-- ===== src/Tpm/Command/Key.antt =====
-- The Attestation Key of src/tpm.rs at its persistent handle: `ensure_ak` against a TPM that says
-- whether a key is stored there.
use tex_attestation_server.Prelude.{
  ◌≡◌, refl, sym, ap, ◌∙◌, Bool, true, false, List, any, All, [], ◌∷◌, inl, inr, ◌⊎◌, arith,
  Bool-cases,
}
use tex_attestation_server.Prelude.Result.{Result, ok}
use tex_attestation_server.Prelude.Monad.{>>=-split, ok-injective}
use tex_attestation_server.Text.{Bytes, Text, lit, equal, to_ascii_lowercase}
use tex_attestation_server.Text.Trim.{trim}
use tex_attestation_server.Tpm.Command.Listing.{IsHandle, listed, lists_handle-listed}
use tex_attestation_server.Text.Utf8.{from_utf8_lossy}
use tex_attestation_server.Outside.{Output}
use tex_attestation_server.Tpm.Types.{TpmError}
use tex_attestation_server.Tpm.Config.{TpmConfig}
use tex_attestation_server.Tpm.Machine.{Host, Machine, arg}
use tex_attestation_server.Tpm.Command.{
  binary_of, outcome, tpm2, flush_transient, lists_handle, create_ak, ensure_ak,
}
use tex_attestation_server.Tpm.Command.Keeping.{ProgramKeeps, program-Kept}
use tex_attestation_server.Tpm.Cycle.Pcr.{run, Succeeds, tpm2-eq-ok}

outcome-stdout :
    (config : TpmConfig) (binary : Text) (out : Output) {text : Text}
    → out.success ≡ true
    → outcome config binary (ok out) ≡ ok text
    → text ≡ from_utf8_lossy out.stdout
unfolding outcome
outcome-stdout config binary out success e = ground (arith, success, e)

module _ {W : Type 0} (h : Host W) (config : TpmConfig) where
  -- What tpm2-tools documents of the handle: `tpm2_getcap handles-persistent` prints the list of the
  -- handles, where a key is stored if its handle is among them, in any case, and changes nothing, `tpm2_evictcontrol` stores a key there, and a flush of the
  -- transient objects leaves the stored keys.
  pub record KeyLaws (stored : W → Bool) : Type 0 where
    pub lists :
        (out : Output) (w : W)
        → (run h config (lit "getcap") (lit "handles-persistent" ∷ []) w).0 ≡ ok out
        → out.success ≡ true
        → (handles : List Text) × All IsHandle handles
          × (from_utf8_lossy out.stdout ≡ listed handles)
          × (stored w
              ≡ any
                  (λ handle.
                    equal (to_ascii_lowercase handle) (to_ascii_lowercase (trim config.ak_handle)))
                  handles)
    pub getcap_keeps : ProgramKeeps h config stored (lit "getcap")
    pub flush_keeps : ProgramKeeps h config stored (lit "flushcontext")
    pub stores :
        (context : Text) (w : W)
        → Succeeds h config
            (lit "evictcontrol")
            (lit "-C" ∷ lit "o" ∷ lit "-c" ∷ context ∷ config.ak_handle ∷ [])
            w
        → stored
            (run h config
              (lit "evictcontrol")
              (lit "-C" ∷ lit "o" ∷ lit "-c" ∷ context ∷ config.ak_handle ∷ [])
              w).1
          ≡ true

  module _ (stored : W → Bool) (laws : KeyLaws stored) where
    flush-stored :
        (m m' : Machine W)
        → flush_transient h config m ≡ (ok tt, m')
        → stored m'.world ≡ stored m.world
    unfolding flush_transient
    flush-stored m m' e =
        (λ i. stored (sym e i).1.world)
        ∙ (program-Kept h config stored (lit "flushcontext") (lit "-t" ∷ []) laws.flush_keeps).kept
            m

    create_ak-stored :
        (scratch : Bytes) (m m' : Machine W)
        → create_ak h config scratch m ≡ (ok tt, m')
        → stored m'.world ≡ true
    unfolding create_ak
    create_ak-stored scratch m m' e =
        let (_, m1, _, h1) = >>=-split (arg scratch (lit "ek.ctx")) _ m e in
        let (_, m2, _, h2) = >>=-split (arg scratch (lit "ek.pub")) _ m1 h1 in
        let (ctx, m3, _, h3) = >>=-split (arg scratch (lit "ak.ctx")) _ m2 h2 in
        let (_, m4, _, h4) = >>=-split (arg scratch (lit "ak.pub")) _ m3 h3 in
        let (_, m5, _, h5) = >>=-split (flush_transient h config) _ m4 h4 in
        let (_, m6, _, h6) = >>=-split (tpm2 h config (lit "createek") _) _ m5 h5 in
        let (_, m7, _, h7) = >>=-split (flush_transient h config) _ m6 h6 in
        let (_, m8, _, h8) = >>=-split (tpm2 h config (lit "createak") _) _ m7 h7 in
        let (_, m9, _, h9) = >>=-split (flush_transient h config) _ m8 h8 in
        let (t, last, e10, flushed) =
          >>=-split
            (tpm2 h config (lit "evictcontrol")
              (lit "-C" ∷ lit "o" ∷ lit "-c" ∷ ctx ∷ config.ak_handle ∷ []))
            _ m9 h9 in
        let (success, world) = tpm2-eq-ok h config (lit "evictcontrol") _ m9 last t e10 in
        flush-stored last m' flushed ∙ ap stored world ∙ laws.stores ctx m9.world success

    -- The list of the handles, and the state after it.
    abbrev listing : Machine W → Result TpmError Text × Machine W
    listing = tpm2 h config (lit "getcap") (lit "handles-persistent" ∷ [])

    listing-stored :
        (m m1 : Machine W) (handles : Text)
        → listing m ≡ (ok handles, m1)
        → (lists_handle handles config.ak_handle ≡ stored m.world)
          × (stored m1.world ≡ stored m.world)
    unfolding tpm2
    listing-stored m m1 handles e =
        let ((out, ran, success), world) =
          tpm2-eq-ok h config (lit "getcap") (lit "handles-persistent" ∷ []) m m1 handles e in
        let (all, are_handles, printed, is_stored) = laws.lists out m.world ran success in
        let text =
          outcome-stdout config (binary_of (lit "getcap")) out success
            (ap (outcome config (binary_of (lit "getcap"))) (sym ran) ∙ λ i. (e i).0) in
        (
          ap (λ t. lists_handle t config.ak_handle) (text ∙ printed)
              ∙ lists_handle-listed all config.ak_handle are_handles
              ∙ sym is_stored,
          ap stored world ∙ laws.getcap_keeps _ m.world,
        )

    -- A stored key was reused, by the list of the handles alone, or none was stored and one was made.
    abbrev pub ReusedOrMade : Bytes → Machine W → Machine W → Type 0
    ReusedOrMade scratch m m' =
        ((stored m.world ≡ true) × (m' ≡ (listing m).1))
        ⊎ ((stored m.world ≡ false) × (m' ≡ (create_ak h config scratch (listing m).1).1))

    -- After ensure_ak succeeds, a key is stored at the handle. If one was stored before, the only
    -- program that ran is the one that lists the handles; a new key is made only if none was.
    pub ensure_ak-stored :
        (scratch : Bytes) (m m' : Machine W)
        → ensure_ak h config scratch m ≡ (ok tt, m')
        → (stored m'.world ≡ true) × ReusedOrMade scratch m m'
    unfolding ensure_ak
    ensure_ak-stored scratch m m' e =
        let (handles, m1, e1, h1) = >>=-split listing _ m e in
        let (lists, kept) = listing-stored m m1 handles e1 in
        elim (Bool-cases (lists_handle handles config.ak_handle)) [
          | inl present ↦
              let reused : (ok tt, m1) ≡ (ok tt, m') = sym (rw present refl) ∙ h1 in
              let same = (ok-injective reused).1 in
              (
                ap (λ (v : Machine W). stored v.world) (sym same) ∙ kept ∙ sym lists ∙ present,
                inl (sym lists ∙ present, sym same ∙ λ i. (sym e1 i).1),
              )
          | inr absent ↦
              let made : create_ak h config scratch m1 ≡ (ok tt, m') = sym (rw absent refl) ∙ h1 in
              (
                create_ak-stored scratch m1 m' made,
                inr (
                  sym lists ∙ absent,
                  (λ i. (sym made i).1) ∙ λ i. (create_ak h config scratch (sym e1 i).1).1,
                ),
              )
        ]
