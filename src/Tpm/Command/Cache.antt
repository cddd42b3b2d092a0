-- ===== src/Tpm/Command/Cache.antt =====
-- The cache of the Attestation Key's public part, and what makes a command unavailable: src/tpm.rs.
use tex_attestation_server.Prelude.{
  ◌≡◌, refl, sym, ap, ◌∙◌, Bool, true, false, not, ◌&&◌, Option, none, some, List, [], ◌∷◌, arith,
  inl, inr, Bool-cases, Option-cases,
}
use tex_attestation_server.Prelude.Result.{Result, ok, err}
use mathlib.Core.Path.{subst}
use tex_attestation_server.Prelude.Monad.{>>=-split, ok-injective}
use tex_attestation_server.Text.{Bytes, Text, lit}
use tex_attestation_server.Text.Utf8.{from_utf8_lossy}
use tex_attestation_server.Outside.{IoError, Output}
use tex_attestation_server.Tpm.Types.{TpmError, not_implemented}
use tex_attestation_server.Tpm.Config.{TpmConfig}
use tex_attestation_server.Tpm.Machine.{Host, Machine, arg}
use tex_attestation_server.Tpm.Machine.Leaving.{Leaves, >>=-Leaves, arg-Leaves}
use tex_attestation_server.Tpm.Command.{
  is_unreachable, classify_failure, outcome, tpm2, flush_transient, cache_pubkey, fetch_pubkey,
  ak_pubkey, create_ak, ensure_ak, lists_handle,
}

-- The answer of a program that is not there, or that could not reach the TPM.
pub is_unavailable : Result IoError Output → Bool
is_unavailable (err e) = e.is_not_found
is_unavailable (ok out) = not out.success && is_unreachable (from_utf8_lossy out.stderr)

-- A result that the routes turn into 501.
pub is_not_implemented : Result TpmError Text → Bool
is_not_implemented (err (not_implemented msg)) = true
is_not_implemented _ = false

failure-is_unavailable :
    (config : TpmConfig) (binary : Text) (stderr : Bytes)
    → is_not_implemented (err (classify_failure config binary stderr))
      ≡ is_unreachable (from_utf8_lossy stderr)
unfolding is_not_implemented classify_failure
failure-is_unavailable config binary stderr =
    elim (Bool-cases (is_unreachable (from_utf8_lossy stderr))) [
      | inl far ↦ rw far refl
      | inr near ↦ rw near refl
    ]

-- A command is answered by 501 exactly if its program was not found, or failed with one of the
-- messages of a TPM that cannot be reached; every other failure is an internal error.
outcome-is_unavailable :
    (config : TpmConfig) (binary : Text) (answer : Result IoError Output)
    → is_not_implemented (outcome config binary answer) ≡ is_unavailable answer
unfolding outcome is_not_implemented is_unavailable
outcome-is_unavailable config binary (err e) = elim (Bool-cases e.is_not_found) [
  | inl absent ↦ rw absent refl
  | inr other ↦ rw other refl
]
outcome-is_unavailable config binary (ok out) = elim (Bool-cases out.success) [
  | inl success ↦ rw success refl
  | inr failed ↦ rw failed (failure-is_unavailable config binary out.stderr)
]

module _ {W : Type 0} (h : Host W) (config : TpmConfig) where
  cache_pubkey-cached :
      (scratch : Bytes) (m m' : Machine W) (key : Text)
      → cache_pubkey h config scratch m ≡ (ok key, m')
      → m'.ak_pubkey ≡ some key
  unfolding cache_pubkey
  cache_pubkey-cached scratch m m' key e = ground (arith, e)

  fetch_pubkey-cached :
      (scratch : Bytes) (m m' : Machine W) (key : Text)
      → fetch_pubkey h config scratch m ≡ (ok key, m')
      → m'.ak_pubkey ≡ some key
  unfolding fetch_pubkey
  fetch_pubkey-cached scratch m m' key e =
      let (_, m1, e1, h1) = >>=-split (flush_transient h config) _ m e in
      let (path, m2, e2, h2) = >>=-split (arg scratch (lit "ak.pem")) _ m1 h1 in
      let (_, m3, e3, h3) =
        >>=-split
          (tpm2 h config (lit "readpublic")
            (lit "-c" ∷ config.ak_handle ∷ lit "-o" ∷ path ∷ lit "-f" ∷ lit "pem" ∷ []))
          _ m2 h2 in
      cache_pubkey-cached scratch m3 m' key h3

  pub hit :
      (scratch : Bytes) (m : Machine W) (key : Text)
      → m.ak_pubkey ≡ some key
      → ak_pubkey h config scratch m ≡ (ok key, m)
  unfolding ak_pubkey
  hit scratch m key is = rw is refl

  pub miss :
      (scratch : Bytes) (m : Machine W)
      → m.ak_pubkey ≡ none
      → ak_pubkey h config scratch m ≡ fetch_pubkey h config scratch m
  unfolding ak_pubkey
  miss scratch m is =
      let fetched = fetch_pubkey h config scratch m in
      subst
        (λ (o : Option Text).
          ◌≡◌ {A = Result TpmError Text × Machine W}
            (elim o [ some key ↦ (ok key, m) | none ↦ fetched ]) fetched)
        (sym is) refl

  -- The Attestation Key is read once: after a read that succeeds, another one gives the same key and
  -- runs no program, in whatever scratch directory.
  ak_pubkey_twice :
      (scratch scratch' : Bytes) (m m' : Machine W) (key : Text)
      → ak_pubkey h config scratch m ≡ (ok key, m')
      → ak_pubkey h config scratch' m' ≡ (ok key, m')
  unfolding ak_pubkey
  ak_pubkey_twice scratch scratch' m m' key e = elim (Option-cases m.ak_pubkey) [
    | inl nothing ↦
        hit scratch' m' key
          (fetch_pubkey-cached scratch m m' key (sym (miss scratch m nothing) ∙ e))
    | inr (cached, is) ↦ hit scratch' m' key (
        let same = sym (hit scratch m cached is) ∙ e in
        (λ i. (sym same i).1.ak_pubkey) ∙ is ∙ ap some (ok-injective same).0)
  ]

  pub tpm2-Leaves : (sub : Text) (args : List Text) → Leaves (tpm2 h config sub args)
  unfolding tpm2
  tpm2-Leaves sub args = record { left = λ m. refl }

  pub flush_transient-Leaves : Leaves (flush_transient h config)
  unfolding flush_transient
  flush_transient-Leaves = record { left = (tpm2-Leaves (lit "flushcontext") _).left }

  create_ak-Leaves : (scratch : Bytes) → Leaves (create_ak h config scratch)
  unfolding create_ak
  create_ak-Leaves scratch = >>=-Leaves (arg-Leaves scratch _) λ _.
      >>=-Leaves (arg-Leaves scratch _) λ _. >>=-Leaves (arg-Leaves scratch _) λ _.
        >>=-Leaves (arg-Leaves scratch _) λ _. >>=-Leaves flush_transient-Leaves λ _.
          >>=-Leaves (tpm2-Leaves (lit "createek") _) λ _. >>=-Leaves flush_transient-Leaves λ _.
            >>=-Leaves (tpm2-Leaves (lit "createak") _) λ _.
              >>=-Leaves flush_transient-Leaves
                λ _. >>=-Leaves (tpm2-Leaves (lit "evictcontrol") _) λ _. flush_transient-Leaves

  pub ensure_ak-Leaves : (scratch : Bytes) → Leaves (ensure_ak h config scratch)
  unfolding ensure_ak
  ensure_ak-Leaves scratch = >>=-Leaves (tpm2-Leaves (lit "getcap") _) λ handles.
      elim (Bool-cases (lists_handle handles config.ak_handle)) [
        | inl present ↦ rw present (record { left = λ m. refl })
        | inr absent ↦ rw absent (create_ak-Leaves scratch)
      ]
