-- ===== src/Tests/Kernel.antt =====
-- Tests of the kernel module: a kernel with one page, whose world says whether it is taken.
use tex_attestation_server.Prelude.{
  ℕ, ◌≡◌, Bool, ◌&&◌, ◌==◌, if◌then◌else◌, arith, ◌≢◌, ◌↔◌, refl, true, false, some, none, [], ◌∷◌,
  replicate,
}
use tex_attestation_server.Prelude.Result.{ok}
use tex_attestation_server.Text.{Bytes, Text}
use tex_attestation_server.Outside.{System}
use tex_attestation_server.Attestation.{tdreport_len, tdx_success, verify_tdx_report}
use tex_attestation_server.Kmod.{Kernel, Errno, tdx_verify_ioctl, tdx_verify_report_cmd}
use tex_attestation_server.Kmod.Verdict.{Processed, with_module, verify_tdx_report-Processed}
use tex_attestation_server.Kmod.Pages.{PageLaws, tdx_verify_ioctl-held}

-- The TDX module accepts every report.
abbrev test_kernel : Kernel Bool
test_kernel = record {
  get_free_page = λ w. if w then (none, w) else (some 4096, true);
  free_page = λ page w. if page == 4096 then false else w;
  copies = λ w. true;
  puts = λ w. true;
  virt_to_phys = λ page. page;
  tdcall = λ leaf gpa page w. (0, w);
}

abbrev bare_system : System Bool
bare_system = record {
  spawn =
      λ binary args w. (ok (record { success = true; status = []; stdout = []; stderr = [] }), w);
  read = λ path w. ok [];
  write = λ path bytes w. (ok tt, w);
  create_dir_all = λ path w. (ok tt, w);
  remove_dir_all = λ path w. (ok tt, w);
  open_device = λ path w. (ok 3, w);
  ioctl = λ fd request bytes w. (ok bytes, w);
  urandom = λ n w. (ok [], w);
  temp_dir = [];
  process_id = 1;
  now = λ w. none;
}

abbrev message : Errno → Text
message e = b'E' ∷ []

abbrev zeros : Bytes
zeros = replicate tdreport_len 0

verify_tdx_report-Processed_example :
    ((verify_tdx_report (with_module test_kernel message 7 bare_system) zeros false).0 ≡ ok true
      ↔ Processed test_kernel zeros false tdx_success)
    × ((verify_tdx_report (with_module test_kernel message 7 bare_system) zeros false).0 ≡ ok false
        ↔ ((status : ℕ) × Processed test_kernel zeros false status × (status ≢ tdx_success)))
verify_tdx_report-Processed_example =
    verify_tdx_report-Processed test_kernel message 7 bare_system zeros false

abbrev held : Bool → ℕ → Bool
held w page = page == 4096 && w

page_laws : PageLaws test_kernel held
page_laws = record {
  was_free = λ kbuf w h. ground (arith, h);
  takes = λ kbuf w h. ground (arith, h);
  takes_other = λ kbuf page w h differ. ground (arith, h, differ);
  takes_none = λ page w h. ground (arith, h);
  frees = λ kbuf w h. ground (arith, h);
  frees_other = λ kbuf page w h differ. ground (arith, h, differ);
  calls = λ leaf gpa page contents w. refl;
}

tdx_verify_ioctl-held_example :
    held (tdx_verify_ioctl test_kernel tdx_verify_report_cmd (some zeros) false).1 4096 ≡ false
tdx_verify_ioctl-held_example =
    tdx_verify_ioctl-held test_kernel held page_laws tdx_verify_report_cmd (some zeros) false 4096
