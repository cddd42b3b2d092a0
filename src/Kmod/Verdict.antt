-- ===== src/Kmod/Verdict.antt =====
-- src/attestation.rs on a machine with the module of kmod/tdx_verify.c: what the answer of
-- `verify_tdx_report` says of the TDCALL.
use tex_attestation_server.Prelude.{
  ℕ, ◌-◌, ◌^◌, ◌%◌, ◌≡◌, ◌≢◌, ◌↔◌, refl, sym, ap, ◌∙◌, true, false, Option, none, some, ◌++◌, ◌==◌,
  if◌then◌else◌, arith, take, drop, length, replicate, take-append, take-all, drop-append, ==_iff,
  inl, inr, Bool-cases, Option-cases,
}
use tex_attestation_server.Prelude.Result.{Result, ok, err, ok-inj}
use tex_attestation_server.Text.{Bytes, Text, equal, equal_iff}
use tex_attestation_server.Outside.{System, IoError}
use tex_attestation_server.Attestation.{
  tdreport_len, tdx_success, tdx_verify_device, tdx_verify_report, verify_tdx_report, ioc,
  from_le_bytes, to_le_bytes,
}
use tex_attestation_server.Attestation.Binding.{from_le_bytes-to_le_bytes, length-to_le_bytes}
use tex_attestation_server.Attestation.Verdict.{Answered, request, verify_tdx_report-Answered}
use tex_attestation_server.Kmod.{
  Kernel, Errno, tdx_verify_ioctl, verify_in_page, tdx_mcall_verify_report, page_of, with_status,
  tdx_verify_report_cmd, tdg_mr_verifyreport,
}

-- The answer of a system call: 0, or an error number with its message.
abbrev answer : (Errno → Text) → Option Errno × Bytes → Result IoError Bytes
answer message (none, struct) = ok struct
answer message (some e, struct) = err (record { is_not_found = false; message = message e })

-- A machine on which the module serves the descriptor `fd` of /dev/tdx_verify.
abbrev pub with_module : {W : Type 0} → Kernel W → (Errno → Text) → ℕ → System W → System W
with_module k message fd sys = record sys {
  open_device =
      λ path w. if equal path tdx_verify_device then (ok fd, w) else sys.open_device path w;
  ioctl = λ d cmd struct w.
      if d == fd
      then (let (r, w') = tdx_verify_ioctl k cmd (some struct) w in (answer message r, w'))
      else sys.ioctl d cmd struct w;
}

module _ {W : Type 0} (k : Kernel W) (report : Bytes) (w : W) where
  -- The module ran the TDCALL on a page that starts with the report, and could hand out its status.
  pub record Processed (status : ℕ) : Type 0 where
    pub sized : length report ≡ tdreport_len
    pub kbuf : ℕ
    pub allocated : (k.get_free_page w).0 ≡ some kbuf
    pub copied : k.copies (k.get_free_page w).1 ≡ true
    pub status_is :
        (k.tdcall tdg_mr_verifyreport
            (k.virt_to_phys kbuf)
            (report ++ replicate 3072 0)
            (k.get_free_page w).1).0
          % 2 ^ 64
        ≡ status
    pub stored :
        k.puts
          (k.tdcall tdg_mr_verifyreport
            (k.virt_to_phys kbuf)
            (report ++ replicate 3072 0)
            (k.get_free_page w).1).1
        ≡ true

-- The server and the module agree on the number of the request.
same_cmd : (tdx_verify_report == tdx_verify_report_cmd) ≡ true
unfolding tdx_verify_report tdx_verify_report_cmd ioc
same_cmd = refl

same_path : equal tdx_verify_device tdx_verify_device ≡ true
same_path = (equal_iff tdx_verify_device tdx_verify_device).1 refl

answer-ok :
    (message : Errno → Text) (r : Option Errno × Bytes) (reply : Bytes)
    → answer message r ≡ ok reply
    → r ≡ (none, reply)
answer-ok message (none, struct) reply h = ap (λ b. (none, b)) (ok-inj h)
answer-ok message (some e, struct) reply h = absurd (cc h)

module _ {W : Type 0} (k : Kernel W) (struct : Bytes) (w : W) where
  -- The TDCALL on the page at `kbuf`.
  abbrev call : ℕ → ℕ × W
  call kbuf =
      k.tdcall tdg_mr_verifyreport (k.virt_to_phys kbuf) (page_of k struct) (k.get_free_page w).1

  record Handled (reply : Bytes) : Type 0 where
    kbuf : ℕ
    allocated : (k.get_free_page w).0 ≡ some kbuf
    copied : k.copies (k.get_free_page w).1 ≡ true
    stored : k.puts (call kbuf).1 ≡ true
    reply_is : with_status k struct ((call kbuf).0 % 2 ^ 64) ≡ reply

  in_page :
      (kbuf : ℕ) (reply : Bytes)
      → (k.get_free_page w).0 ≡ some kbuf
      → (verify_in_page k kbuf struct (k.get_free_page w).1).0 ≡ (none, reply)
      → Handled reply
  unfolding verify_in_page tdx_mcall_verify_report
  in_page kbuf reply a h = elim (Bool-cases (k.copies (k.get_free_page w).1)) [
    | inl c ↦ elim (Bool-cases (k.puts (call kbuf).1)) [
      | inl p ↦ record {
        kbuf = kbuf;
        allocated = a;
        copied = c;
        stored = p;
        reply_is = ap (λ (r : Option Errno × Bytes). r.1) (rw (c, p) at h);
      }
      | inr f ↦ absurd (cc (rw (c, f) at h))
    ]
    | inr f ↦ absurd (cc (rw f at h))
  ]

  handled :
      (reply : Bytes)
      → (tdx_verify_ioctl k tdx_verify_report (some struct) w).0 ≡ (none, reply)
      → Handled reply
  unfolding tdx_verify_ioctl
  handled reply h = elim (Option-cases (k.get_free_page w).0) [
    | inl full ↦ absurd (cc (rw (same_cmd, full) at h))
    | inr (kbuf, a) ↦ in_page kbuf reply a (rw (same_cmd, a) at h)
  ]

  handles :
      (reply : Bytes)
      → Handled reply
      → (tdx_verify_ioctl k tdx_verify_report (some struct) w).0 ≡ (none, reply)
  unfolding tdx_verify_ioctl verify_in_page tdx_mcall_verify_report
  handles reply d = rw (same_cmd, d.allocated, d.copied, d.stored) λ i. (none, d.reply_is i)

module _ {W : Type 0} (k : Kernel W) (message : Errno → Text) (fd : ℕ) (sys : System W)
    (report : Bytes) (w : W) where
  page_of-request :
      length report ≡ tdreport_len → page_of k (request report) ≡ report ++ replicate 3072 0
  page_of-request sized =
      ap (λ s. s ++ replicate 3072 0)
        (take-append tdreport_len report (to_le_bytes 8 (2 ^ 64 - 1)) sized)

  status-read :
      (status : ℕ)
      → length report ≡ tdreport_len
      → from_le_bytes
          (take 8 (drop tdreport_len (with_status k (request report) (status % 2 ^ 64))))
        ≡ status % 2 ^ 64
  status-read status sized =
      let s = status % 2 ^ 64 in
      let kept = take-append tdreport_len report (to_le_bytes 8 (2 ^ 64 - 1)) sized in
      ap (λ t. from_le_bytes (take 8 (drop tdreport_len (t ++ to_le_bytes 8 s)))) kept
      ∙ ap (λ t. from_le_bytes (take 8 t)) (drop-append tdreport_len report (to_le_bytes 8 s) sized)
      ∙ ap from_le_bytes (take-all 8 (to_le_bytes 8 s) (length-to_le_bytes 8 s))
      ∙ from_le_bytes-to_le_bytes 8 s (omega arith)

  abbrev machine : System W
  machine = with_module k message fd sys

  opens : machine.open_device tdx_verify_device w ≡ (ok fd, w)
  opens = rw same_path refl

  serves :
      (struct : Bytes)
      → (machine.ioctl fd tdx_verify_report struct w).0
        ≡ answer message (tdx_verify_ioctl k tdx_verify_report (some struct) w).0
  serves struct = rw ((==_iff fd fd).1 refl) refl

  Answered-Processed : (status : ℕ) → Answered machine report w status → Processed k report w status
  Answered-Processed status a =
      let same : fd ≡ a.fd = ok-inj (sym (λ i. (opens i).0) ∙ a.opened) in
      let handed : Handled k (request report) w a.reply = handled k (request report) w a.reply (
        answer-ok message _ a.reply (
          sym (serves (request report))
          ∙ (λ i. (machine.ioctl (same i) tdx_verify_report (request report) ((sym opens) i).1).0)
          ∙ a.answered)) in
      let page = page_of-request a.sized in
      let call = λ (p : Bytes).
        k.tdcall tdg_mr_verifyreport (k.virt_to_phys handed.kbuf) p (k.get_free_page w).1 in
      record {
        sized = a.sized;
        kbuf = handed.kbuf;
        allocated = handed.allocated;
        copied = handed.copied;
        status_is =
            ap (λ p. (call p).0 % 2 ^ 64) (sym page)
            ∙ sym (status-read (call (page_of k (request report))).0 a.sized)
            ∙ ap (λ r. from_le_bytes (take 8 (drop tdreport_len r))) handed.reply_is
            ∙ a.status_is;
        stored = ap (λ p. k.puts (call p).1) (sym page) ∙ handed.stored;
      }

  Processed-Answered : (status : ℕ) → Processed k report w status → Answered machine report w status
  Processed-Answered status p =
      let call = λ (b : Bytes).
        k.tdcall tdg_mr_verifyreport (k.virt_to_phys p.kbuf) b (k.get_free_page w).1 in
      let page = page_of-request p.sized in
      let reply = with_status k (request report) ((call (page_of k (request report))).0 % 2 ^ 64) in
      let ran = handles k (request report) w reply (record {
        kbuf = p.kbuf;
        allocated = p.allocated;
        copied = p.copied;
        stored = ap (λ b. k.puts (call b).1) page ∙ p.stored;
        reply_is = refl;
      }) in
      record {
        sized = p.sized;
        fd = fd;
        opened = λ i. (opens i).0;
        reply = reply;
        answered =
            (λ i. (machine.ioctl fd tdx_verify_report (request report) (opens i).1).0)
            ∙ serves (request report)
            ∙ ap (answer message) ran;
        status_is =
            status-read (call (page_of k (request report))).0 p.sized
            ∙ ap (λ b. (call b).0 % 2 ^ 64) page
            ∙ p.status_is;
      }

  -- On a machine with the module, the server reports a TDREPORT of 1024 bytes as verified exactly if
  -- the module ran the TDCALL on a page that starts with that very report, and the TDX module
  -- returned TDX_SUCCESS; it reports it as not verified exactly if another code was returned. A
  -- request that the module could not process is neither.
  pub verify_tdx_report-Processed :
      ((verify_tdx_report machine report w).0 ≡ ok true ↔ Processed k report w tdx_success)
      × ((verify_tdx_report machine report w).0 ≡ ok false
          ↔ ((status : ℕ) × Processed k report w status × (status ≢ tdx_success)))
  verify_tdx_report-Processed =
      let (good, bad) = verify_tdx_report-Answered machine report w in
      (
        (λ h. Answered-Processed _ (good.0 h), λ p. good.1 (Processed-Answered _ p)),
        (
          λ h. let (status, a, other) = bad.0 h in (status, Answered-Processed status a, other),
          λ (status, p, other). bad.1 (status, Processed-Answered status p, other),
        ),
      )
