-- ===== src/Tpm/Cycle/Leaving.antt =====
-- What of the cycle of src/tpm.rs leaves the cache of the Attestation Key as it is.
use tex_attestation_server.Prelude.{refl, ◌++◌, arith}
use tex_attestation_server.Prelude.Result.{ok}
use tex_attestation_server.Text.{Bytes, Text, lit}
use tex_attestation_server.Text.Decimal.{decimal}
use tex_attestation_server.Tpm.Config.{TpmConfig}
use tex_attestation_server.Tpm.Machine.{Host, join}
use tex_attestation_server.Tpm.Machine.Leaving.{Leaves, >>=-Leaves, arg-Leaves, lift-Leaves}
use tex_attestation_server.Tpm.Command.{ensure_ready, reset_pcr, extend_pcr, read_output, read_pcr}
use tex_attestation_server.Tpm.Command.Cache.{tpm2-Leaves, flush_transient-Leaves}
use tex_attestation_server.Tpm.Cycle.{
  read_blob, collect_quote, create_quote, measure, measure_and_extend,
}

module _ {W : Type 0} (h : Host W) (config : TpmConfig) where
  ensure_ready-Leaves : Leaves (ensure_ready h config)
  unfolding ensure_ready
  ensure_ready-Leaves = record { left = (tpm2-Leaves h config (lit "startup") _).left }

  reset_pcr-Leaves : Leaves (reset_pcr h config)
  unfolding reset_pcr
  reset_pcr-Leaves = record { left = (tpm2-Leaves h config (lit "pcrreset") _).left }

  extend_pcr-Leaves : (digest : Text) → Leaves (extend_pcr h config digest)
  unfolding extend_pcr
  extend_pcr-Leaves digest =
      >>=-Leaves (tpm2-Leaves h config (lit "pcrextend") _) λ _. lift-Leaves (ok tt)

  read_output-Leaves : (path : Bytes) (a b : Text) → Leaves (read_output h config path a b)
  unfolding read_output
  read_output-Leaves path a b = record { left = λ m. ground arith }

  read_pcr-Leaves : (scratch : Bytes) → Leaves (read_pcr h config scratch)
  unfolding read_pcr
  read_pcr-Leaves scratch = >>=-Leaves (arg-Leaves scratch _) λ output.
      >>=-Leaves (tpm2-Leaves h config (lit "pcrread") _) λ _.
        >>=-Leaves
          (read_output-Leaves (join scratch (lit "pcr.bin"))
            (lit "PCR " ++ (decimal config.pcr_index ++ lit " output cannot be read: "))
            (lit "PCR " ++ (decimal config.pcr_index ++ lit " read returned no data")))
          λ bytes. lift-Leaves (ok (h.crates.hex_encode bytes))

  pub measure_and_extend-Leaves : (scratch : Bytes) → Leaves (measure_and_extend h config scratch)
  unfolding measure_and_extend measure
  measure_and_extend-Leaves scratch =
      >>=-Leaves (record { left = λ m. refl })
        λ f. >>=-Leaves ensure_ready-Leaves λ _. >>=-Leaves reset_pcr-Leaves λ _.
          >>=-Leaves (extend_pcr-Leaves f.total_hash)
            λ _. >>=-Leaves (read_pcr-Leaves scratch) λ value. lift-Leaves (ok (f, value))

  read_blob-Leaves : (scratch : Bytes) (name : Text) → Leaves (read_blob h config scratch name)
  unfolding read_blob
  read_blob-Leaves scratch name =
      >>=-Leaves (read_output-Leaves (join scratch name) _ _) λ bytes. lift-Leaves (ok _)

  collect_quote-Leaves :
      (scratch : Bytes) (nonce : Text) → Leaves (collect_quote h config scratch nonce)
  unfolding collect_quote
  collect_quote-Leaves scratch nonce = >>=-Leaves (read_blob-Leaves scratch _) λ s.
      >>=-Leaves (read_blob-Leaves scratch _) λ g.
        >>=-Leaves (read_blob-Leaves scratch _)
          λ p. >>=-Leaves (lift-Leaves _) λ n. lift-Leaves (ok _)

  pub create_quote-Leaves :
      (nonce : Text) (scratch : Bytes) → Leaves (create_quote h config nonce scratch)
  unfolding create_quote
  create_quote-Leaves nonce scratch = >>=-Leaves (flush_transient-Leaves h config) λ _.
      >>=-Leaves (arg-Leaves scratch _) λ s. >>=-Leaves (arg-Leaves scratch _) λ g.
        >>=-Leaves (arg-Leaves scratch _) λ p.
          >>=-Leaves (tpm2-Leaves h config (lit "quote") _) λ _. collect_quote-Leaves scratch nonce
