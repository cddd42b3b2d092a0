-- ===== src/Kmod.antt =====
-- kmod/tdx_verify.c and kmod/tdx_verify_uapi.h: the kernel module behind /dev/tdx_verify. What it
-- calls of the kernel, and the TDCALL instruction, are parameters. A struct in the memory of a process
-- is its bytes, and a page is its contents.
pub mod Verdict
pub mod Pages
use tex_attestation_server.Prelude.{
  ℕ, ◌+◌, ◌-◌, ◌*◌, ◌^◌, ◌%◌, Bool, true, false, not, Option, none, some, List, [], ◌∷◌, ◌++◌, ◌==◌,
  if◌then◌else◌, take, drop, length, replicate,
}
use tex_attestation_server.Text.{Bytes}
use tex_attestation_server.Attestation.{to_le_bytes, ioc}
use Prim.Native.Nat.{bit_or}

abbrev pub tdx_verify_report_len : ℕ
tdx_verify_report_len = 1024

-- `_IOWR('T', 2, struct tdx_verify_request)`, on a report and a `__u64`
unfoldable pub tdx_verify_report_cmd : ℕ
tdx_verify_report_cmd = ioc (bit_or 2 1) b'T' 2 (tdx_verify_report_len + 8)

abbrev pub tdg_mr_verifyreport : ℕ
tdg_mr_verifyreport = 22

abbrev page_size : ℕ
page_size = 4096

pub data Errno : Type 0 where
  enotty efault enomem enodev ebusy : Errno

-- The kernel: `__get_free_page` and `free_page`, whether `copy_from_user` and `put_user` reach the
-- memory of the process, and TDCALL, by its leaf, on a physical address and the page there.
pub record Kernel (W : Type 0) : Type 0 where
  pub get_free_page : W → Option ℕ × W
  pub free_page : ℕ → W → W
  pub copies : W → Bool
  pub puts : W → Bool
  pub virt_to_phys : ℕ → ℕ
  pub tdcall : ℕ → ℕ → Bytes → W → ℕ × W

module _ {W : Type 0} (k : Kernel W) where
  -- The return code of the TDX module is the 64 bits of RAX.
  unfoldable pub tdx_mcall_verify_report : ℕ → Bytes → W → ℕ × W
  tdx_mcall_verify_report gpa page w =
      let (rax, w') = k.tdcall tdg_mr_verifyreport gpa page w in (rax % 2 ^ 64, w')

  -- The page with the report of a request at its start.
  abbrev pub page_of : Bytes → Bytes
  page_of request =
      take tdx_verify_report_len request ++ replicate (page_size - tdx_verify_report_len) 0

  -- The request with the field `status` set.
  abbrev pub with_status : Bytes → ℕ → Bytes
  with_status request status = take tdx_verify_report_len request ++ to_le_bytes 8 status

  -- What is done with the page at `kbuf`, up to the label `out`.
  unfoldable pub verify_in_page : ℕ → Bytes → W → (Option Errno × Bytes) × W
  unfolding tdx_mcall_verify_report
  verify_in_page kbuf request w =
      let (status, w') = tdx_mcall_verify_report (k.virt_to_phys kbuf) (page_of request) w in
      if k.copies w
      then (if k.puts w'
          then ((none, with_status request status), w')
          else ((some efault, request), w'))
      else ((some efault, request), w)

  -- The handler: an error or none, the struct afterwards, and the next world. The page is freed on
  -- every path behind its allocation.
  unfoldable pub tdx_verify_ioctl : ℕ → Option Bytes → W → (Option Errno × Bytes) × W
  unfolding verify_in_page
  tdx_verify_ioctl cmd none w =
      if not (cmd == tdx_verify_report_cmd) then ((some enotty, []), w) else ((some efault, []), w)
  tdx_verify_ioctl cmd (some request) w =
      if not (cmd == tdx_verify_report_cmd)
      then ((some enotty, request), w)
      else let (page, w1) = k.get_free_page w in
        elim page [
          | none ↦ ((some enomem, request), w1)
          | some kbuf ↦ let (r, w2) = verify_in_page kbuf request w1 in (r, k.free_page kbuf w2)
        ]

-- `tdx_verify_init`, by the feature of the processor and the answer of `misc_register`: an error, or
-- the device is there.
unfoldable pub tdx_verify_init : Bool → Option Errno → Option Errno
tdx_verify_init has_tdx_guest registered = if not has_tdx_guest then some enodev else registered
