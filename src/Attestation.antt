-- ===== src/Attestation.antt =====
-- src/attestation.rs: TDX reports from `/dev/tdx_guest`, and their verification by the TDX module
-- through `/dev/tdx_verify`.
pub mod Binding
pub mod Verdict
use Prim.Native.Nat.{bit_or}
use tex_attestation_server.Prelude.{
  ℕ, ◌+◌, ◌-◌, ◌*◌, ◌^◌, ◌%◌, ◌/◌, Bool, true, false, not, zero, suc, List, [], ◌∷◌, ◌++◌, length,
  take, drop, replicate, ltb, ◌==◌, if◌then◌else◌,
}
use tex_attestation_server.Prelude.Result
use tex_attestation_server.Prelude.Result.{Result, ok, err, map_err}
use tex_attestation_server.Prelude.Monad.{M, ◌>>=◌, lift, pure}
use tex_attestation_server.Text.{Bytes, Text, lit}
use tex_attestation_server.Text.Decimal.{decimal}
use tex_attestation_server.Outside.{IoError, System}

abbrev pub reportdata_len : ℕ
reportdata_len = 64

abbrev pub tdreport_len : ℕ
tdreport_len = 1024

abbrev pub tdreport_reportdata_offset : ℕ
tdreport_reportdata_offset = 0x80

abbrev pub tdreport_mac_offset : ℕ
tdreport_mac_offset = 0xE0

abbrev pub tdreport_mac_len : ℕ
tdreport_mac_len = 32

unfoldable pub tdx_guest_device : Text
unfolding lit
tdx_guest_device = lit "/dev/tdx_guest"

unfoldable pub tdx_verify_device : Text
unfolding lit
tdx_verify_device = lit "/dev/tdx_verify"

abbrev pub tdg_mr_verifyreport_leaf : ℕ
tdg_mr_verifyreport_leaf = 22

abbrev pub tdx_success : ℕ
tdx_success = 0

pub data AttestationError : Type 0 where
  not_implemented : AttestationError
  invalid_input : Text → AttestationError
  internal : Text → AttestationError

-- `Display`
unfoldable pub display_error : AttestationError → Text
unfolding lit
display_error not_implemented = lit "TDX attestation is not implemented in this environment"
display_error (invalid_input msg) = lit "invalid attestation input: " ++ msg
display_error (internal msg) = lit "internal attestation error: " ++ msg

abbrev ioc_nrshift : ℕ
ioc_nrshift = 0

abbrev ioc_typeshift : ℕ
ioc_typeshift = ioc_nrshift + 8

abbrev ioc_sizeshift : ℕ
ioc_sizeshift = ioc_typeshift + 8

abbrev ioc_dirshift : ℕ
ioc_dirshift = ioc_sizeshift + 14

abbrev ioc_read : ℕ
ioc_read = 2

abbrev ioc_write : ℕ
ioc_write = 1

-- `x << k` on `u64`
abbrev shl : ℕ → ℕ → ℕ
shl x k = x * 2 ^ k % 2 ^ 64

unfoldable pub ioc : ℕ → ℕ → ℕ → ℕ → ℕ
ioc dir ty nr size =
    bit_or (bit_or (bit_or (shl dir ioc_dirshift) (shl size ioc_sizeshift)) (shl ty ioc_typeshift))
      (shl nr ioc_nrshift)

unfoldable pub tdx_cmd_get_report0 : ℕ
unfolding ioc
tdx_cmd_get_report0 = ioc (bit_or ioc_read ioc_write) b'T' 1 (reportdata_len + tdreport_len)

unfoldable pub tdx_verify_report : ℕ
unfolding ioc
tdx_verify_report = ioc (bit_or ioc_read ioc_write) b'T' 2 (tdreport_len + 8)

-- `u64::from_le_bytes`
unfoldable pub from_le_bytes : Bytes → ℕ
from_le_bytes [] = 0
from_le_bytes (b ∷ s) = b + 256 * from_le_bytes s

-- `to_le_bytes` of a number of `n` bytes
unfoldable pub to_le_bytes : ℕ → ℕ → Bytes
to_le_bytes zero v = []
to_le_bytes (suc n) v = v % 256 ∷ to_le_bytes n (v / 256)

length_message : Text → ℕ → Text → Text
length_message what n expected = what ++ decimal n ++ expected

unfoldable pub report_data_from : Bytes → Result AttestationError Bytes
unfolding length_message
report_data_from nonce =
    if ltb reportdata_len (length nonce)
    then err (
        invalid_input (
          length_message (lit "random number is ") (length nonce)
            (lit " bytes, but REPORTDATA holds at most 64")))
    else ok (nonce ++ drop (length nonce) (replicate reportdata_len 0))

-- The length test that `tdreport_reportdata`, `verify_tdx_report_hardware` and `parse_tdreport`
-- open with, and its message.
unfoldable pub check_length : Bytes → Result AttestationError (Unit {0})
unfolding length_message
check_length report =
    if length report == tdreport_len
    then ok tt
    else err (
        invalid_input
          (length_message (lit "report is ") (length report) (lit " bytes, expected 1024")))

unfoldable pub tdreport_reportdata : Bytes → Result AttestationError Bytes
tdreport_reportdata report =
    Result.◌>>=◌ (check_length report)
      λ _. ok (take reportdata_len (drop tdreport_reportdata_offset report))

module _ {W : Type 0} (sys : System W) where
  -- The error of `open_device`.
  abbrev open_error : Text → IoError → AttestationError
  open_error path e =
      if e.is_not_found
      then not_implemented
      else internal (lit "cannot open " ++ path ++ lit ": " ++ e.message)

  unfoldable pub open_device : Text → M W AttestationError ℕ
  open_device path w = let (r, w') = sys.open_device path w in (map_err (open_error path) r, w')

  -- `ioctl`, with the message that its callers put in front of the error.
  unfoldable pub ioctl : ℕ → ℕ → Bytes → Text → M W AttestationError Bytes
  ioctl fd request arg what w =
      let (r, w') = sys.ioctl fd request arg w in
      (map_err (λ e. internal (what ++ lit ": " ++ e.message)) r, w')

  unfoldable pub generate_tdx_report : Bytes → M W AttestationError Bytes
  unfolding open_device ioctl
  generate_tdx_report random_number = do
    reportdata ← lift (report_data_from random_number)
    fd ← open_device tdx_guest_device
    req ←
        ioctl fd tdx_cmd_get_report0 (reportdata ++ replicate tdreport_len 0)
          (lit "TDCALL[TDG.MR.REPORT] failed via /dev/tdx_guest")
    pure (take tdreport_len (drop reportdata_len req))

  unfoldable pub verify_tdx_report_hardware : Bytes → M W AttestationError ℕ
  unfolding open_device ioctl
  verify_tdx_report_hardware report = do
    _ ← lift (check_length report)
    fd ← open_device tdx_verify_device
    req ←
        ioctl fd tdx_verify_report (report ++ to_le_bytes 8 (2 ^ 64 - 1))
          (lit "TDCALL[TDG.MR.VERIFYREPORT] (leaf 22) failed via /dev/tdx_verify")
    pure (from_le_bytes (take 8 (drop tdreport_len req)))

  unfoldable pub verify_tdx_report : Bytes → M W AttestationError Bool
  unfolding verify_tdx_report_hardware
  verify_tdx_report report = do
    status ← verify_tdx_report_hardware report
    pure (status == tdx_success)

  unfoldable pub random_nonce : ℕ → M W AttestationError Bytes
  random_nonce n w =
      let (r, w') = sys.urandom n w in
      (map_err (λ e. internal (lit "cannot read /dev/urandom: " ++ e.message)) r, w')
