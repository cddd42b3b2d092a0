-- ===== src/Tpm/Machine/Apart.antt =====
-- The names of the scratch directories of one process: `Scratch::new` of src/tpm.rs.
use tex_attestation_server.Prelude.{
  ℕ, ◌+◌, ◌≡◌, sym, ap, ◌∙◌, ◌∷◌, ◌++◌, [], drop, drop-append, length, refl, inl, inr, Bool-cases,
  Option,
}
use tex_attestation_server.Text.{Bytes, Text}
use tex_attestation_server.Text.Search.{ends_with}
use tex_attestation_server.Tpm.Machine.{Host, Machine, join, new_scratch}

pub append_cancel : (s : Text) {a b : Text} → s ++ a ≡ s ++ b → a ≡ b
append_cancel s {a} {b} e =
    sym (drop-append (length s) s a refl) ∙ ap (drop (length s)) e ∙ drop-append (length s) s b refl

pub join-injective : (dir : Bytes) {a b : Text} → join dir a ≡ join dir b → a ≡ b
unfolding join
join-injective dir {a} {b} e = elim (Bool-cases (ends_with dir (b'/' ∷ []))) [
  | inl slash ↦ append_cancel dir (rw slash at e)
  | inr plain ↦ let inner : b'/' ∷ a ≡ b'/' ∷ b = append_cancel dir (rw plain at e) in cc inner
]

module _ {W : Type 0} (h : Host W) where
  -- What may happen to the machine while `n` scratch directories are made, by any transactions in any
  -- order: the world and the cached key become whatever they do.
  pub data Making (m : Machine W) : Machine W → ℕ → Type 0 where
    nothing : Making m m 0
    made : (m' : Machine W) (n : ℕ) → Making m m' n → Making m (new_scratch h m').1 (n + 1)
    changed :
        (m' : Machine W) (n : ℕ) (world : W) (key : Option Text)
        → Making m m' n
        → Making m (record m' { world = world; ak_pubkey = key }) n
