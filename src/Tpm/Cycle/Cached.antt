-- ===== src/Tpm/Cycle/Cached.antt =====
-- The Attestation Key that a response of src/tpm.rs names, when its public part was read before.
use tex_attestation_server.Prelude.{◌≡◌, sym, some}
use tex_attestation_server.Prelude.Result.{ok}
use tex_attestation_server.Prelude.Monad.{ok-injective}
use tex_attestation_server.Text.{Bytes, Text}
use tex_attestation_server.Tpm.Config.{TpmConfig}
use tex_attestation_server.Tpm.Machine.{Host, Machine}
use tex_attestation_server.Tpm.Command.Cache.{hit}
use tex_attestation_server.Tpm.Cycle.{pubkey_or_empty}

module _ {W : Type 0} (h : Host W) (config : TpmConfig) where
  pub pubkey_or_empty-cached :
      (scratch : Bytes) (m m' : Machine W) (key pem : Text)
      → m.ak_pubkey ≡ some key
      → pubkey_or_empty h config scratch m ≡ (ok pem, m')
      → pem ≡ key
  unfolding pubkey_or_empty
  pubkey_or_empty-cached scratch m m' key pem is e =
      let same = hit h config scratch m key is in
      let read : (ok key, m) ≡ (ok pem, m') = rw same at e in sym (ok-injective read).0
