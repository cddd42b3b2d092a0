-- ===== src/Kmod/Pages.antt =====
-- The pages that the handler of kmod/tdx_verify.c takes of the kernel.
use tex_attestation_server.Prelude.{
  ℕ, ◌≡◌, ◌≢◌, refl, sym, ◌∙◌, Bool, true, false, Option, none, some, inl, inr, Bool-cases,
  Option-cases, ◌==◌, ==_iff,
}
use tex_attestation_server.Text.{Bytes}
use tex_attestation_server.Kmod.{
  Kernel, tdx_verify_ioctl, verify_in_page, tdx_mcall_verify_report, tdx_verify_report_cmd, page_of,
}

-- What the kernel documents of its page allocator, with `held` for the pages that are allocated: a page
-- that is handed out was not, an allocated page may be freed, and no other page changes. The TDCALL
-- allocates and frees nothing.
pub record PageLaws {W : Type 0} (k : Kernel W) (held : W → ℕ → Bool) : Type 0 where
  pub was_free : (kbuf : ℕ) (w : W) → (k.get_free_page w).0 ≡ some kbuf → held w kbuf ≡ false
  pub takes :
      (kbuf : ℕ) (w : W)
      → (k.get_free_page w).0 ≡ some kbuf
      → held (k.get_free_page w).1 kbuf ≡ true
  pub takes_other :
      (kbuf page : ℕ) (w : W)
      → (k.get_free_page w).0 ≡ some kbuf
      → page ≢ kbuf
      → held (k.get_free_page w).1 page ≡ held w page
  pub takes_none :
      (page : ℕ) (w : W)
      → (k.get_free_page w).0 ≡ none
      → held (k.get_free_page w).1 page ≡ held w page
  pub frees : (kbuf : ℕ) (w : W) → held w kbuf ≡ true → held (k.free_page kbuf w) kbuf ≡ false
  pub frees_other :
      (kbuf page : ℕ) (w : W)
      → held w kbuf ≡ true
      → page ≢ kbuf
      → held (k.free_page kbuf w) page ≡ held w page
  pub calls :
      (leaf gpa page : ℕ) (contents : Bytes) (w : W)
      → held (k.tdcall leaf gpa contents w).1 page ≡ held w page

module _ {W : Type 0} (k : Kernel W) (held : W → ℕ → Bool) (laws : PageLaws k held) where
  in_page-held :
      (kbuf page : ℕ) (request : Bytes) (w : W)
      → held (verify_in_page k kbuf request w).1 page ≡ held w page
  unfolding verify_in_page tdx_mcall_verify_report
  in_page-held kbuf page request w = elim (Bool-cases (k.copies w)) [
    | inl c ↦
        let ran = (k.tdcall 22 (k.virt_to_phys kbuf) (page_of k request) w).1 in
        elim (Bool-cases (k.puts ran)) [
          | inl p ↦ rw (c, p) (laws.calls _ _ page _ w)
          | inr f ↦ rw (c, f) (laws.calls _ _ page _ w)
        ]
    | inr f ↦ rw f refl
  ]

  -- A page that was taken, used and freed.
  freed :
      (kbuf page : ℕ) (request : Bytes) (w : W)
      → (k.get_free_page w).0 ≡ some kbuf
      → held (k.free_page kbuf (verify_in_page k kbuf request (k.get_free_page w).1).1) page
        ≡ held w page
  freed kbuf page request w a =
      let taken = (k.get_free_page w).1 in
      let there = in_page-held kbuf kbuf request taken ∙ laws.takes kbuf w a in
      elim (Bool-cases (page == kbuf)) [
        | inl same ↦
            let is = (==_iff page kbuf).0 same in
            rw is (laws.frees kbuf _ there ∙ sym (laws.was_free kbuf w a))
        | inr differ ↦
            let other : page ≢ kbuf = λ is. cc (differ, (==_iff page kbuf).1 is) in
            laws.frees_other kbuf page _ there other
            ∙ in_page-held kbuf page request taken
            ∙ laws.takes_other kbuf page w a other
      ]

  -- However a request ends, with the status or with an error, exactly the pages are allocated that
  -- were before: the page that the module took is free again, and no other page was freed or taken.
  pub tdx_verify_ioctl-held :
      (cmd : ℕ) (arg : Option Bytes) (w : W) (page : ℕ)
      → held (tdx_verify_ioctl k cmd arg w).1 page ≡ held w page
  unfolding tdx_verify_ioctl
  tdx_verify_ioctl-held cmd none w page = elim (Bool-cases (cmd == tdx_verify_report_cmd)) [
    | inl known ↦ rw known refl
    | inr unknown ↦ rw unknown refl
  ]
  tdx_verify_ioctl-held cmd (some request) w page =
      elim (Bool-cases (cmd == tdx_verify_report_cmd)) [
        | inl known ↦ elim (Option-cases (k.get_free_page w).0) [
          | inl full ↦ rw (known, full) (laws.takes_none page w full)
          | inr (kbuf, a) ↦ rw (known, a) (freed kbuf page request w a)
        ]
        | inr unknown ↦ rw unknown refl
      ]
