-- ===== src/Attestation/Verdict.antt =====
-- When a report is trusted: src/attestation.rs, the verification half.
use tex_attestation_server.Prelude.{
  ℕ, ◌-◌, ◌^◌, ◌≡◌, ◌≢◌, ap, ◌∙◌, ◌↔◌, true, false, ◌++◌, arith, length, take, drop,
}
use tex_attestation_server.Prelude.Result.{ok}
use tex_attestation_server.Prelude.Monad.{>>=-fst-ok, map_err-eq-ok, lift}
use tex_attestation_server.Text.{Bytes}
use tex_attestation_server.Outside.{System}
use tex_attestation_server.Attestation.{
  tdreport_len, tdx_success, tdx_verify_device, tdx_verify_report, check_length, open_device, ioctl,
  verify_tdx_report_hardware, verify_tdx_report, from_le_bytes, to_le_bytes,
}
use tex_attestation_server.Attestation.Binding.{check_length-ok, check_length-length}

-- The request that the verifier hands to the module: the report, and a status of `u64::MAX`.
abbrev pub request : Bytes → Bytes
request report = report ++ to_le_bytes 8 (2 ^ 64 - 1)

-- The TDX module answered: the device opened, and its `ioctl` on the report came back.
pub record Answered {W : Type 0} (sys : System W) (report : Bytes) (w : W) (status : ℕ)
    : Type 0 where
  pub sized : length report ≡ tdreport_len
  pub fd : ℕ
  pub opened : (sys.open_device tdx_verify_device w).0 ≡ ok fd
  pub reply : Bytes
  pub answered :
      (sys.ioctl fd tdx_verify_report (request report) (sys.open_device tdx_verify_device w).1).0
      ≡ ok reply
  pub status_is : from_le_bytes (take 8 (drop tdreport_len reply)) ≡ status

module _ {W : Type 0} (sys : System W) (report : Bytes) (w : W) where
  hardware-Answered :
      (status : ℕ)
      → (verify_tdx_report_hardware sys report w).0 ≡ ok status
      → Answered sys report w status
  unfolding verify_tdx_report_hardware
  hardware-Answered status h =
      let (_, e1, h1) = >>=-fst-ok (lift (check_length report)) _ w h in
      let (fd, e2, h2) = >>=-fst-ok (open_device sys tdx_verify_device) _ w h1 in
      let (reply, e3, h3) = >>=-fst-ok (ioctl sys fd tdx_verify_report _ _) _ _ h2 in
      record {
        sized = check_length-length report e1;
        fd = fd;
        opened = map_err-eq-ok _ _ e2;
        reply = reply;
        answered = map_err-eq-ok _ _ e3;
        status_is = ground arith;
      }

  Answered-hardware :
      (status : ℕ)
      → Answered sys report w status
      → (verify_tdx_report_hardware sys report w).0 ≡ ok status
  unfolding verify_tdx_report_hardware
  Answered-hardware status a =
      rw (check_length-ok report a.sized) (rw a.opened (rw a.answered (ap ok a.status_is)))

  accepted : (verify_tdx_report sys report w).0 ≡ ok true → Answered sys report w tdx_success
  unfolding verify_tdx_report
  accepted h =
      let (status, e, h1) = >>=-fst-ok (verify_tdx_report_hardware sys report) _ w h in
      hardware-Answered tdx_success (e ∙ ground arith)

  accept : Answered sys report w tdx_success → (verify_tdx_report sys report w).0 ≡ ok true
  unfolding verify_tdx_report
  accept a = rw (Answered-hardware tdx_success a)

  abbrev Rejected : Type 0
  Rejected = (status : ℕ) × Answered sys report w status × (status ≢ tdx_success)

  refused : (verify_tdx_report sys report w).0 ≡ ok false → Rejected
  unfolding verify_tdx_report
  refused h =
      let (status, e, h1) = >>=-fst-ok (verify_tdx_report_hardware sys report) _ w h in
      (status, hardware-Answered status e, ground arith)

  refuse : Rejected → (verify_tdx_report sys report w).0 ≡ ok false
  unfolding verify_tdx_report
  refuse (status, a, ne) = rw (Answered-hardware status a) (ground arith)

  -- `Ok(true)` means exactly that the TDX module answered `TDX_SUCCESS` for this very report, of
  -- 1024 bytes; `Ok(false)` means exactly that it answered another status.
  pub verify_tdx_report-Answered :
      ((verify_tdx_report sys report w).0 ≡ ok true ↔ Answered sys report w tdx_success)
      × ((verify_tdx_report sys report w).0 ≡ ok false
          ↔ ((status : ℕ) × Answered sys report w status × (status ≢ tdx_success)))
  verify_tdx_report-Answered = ((accepted, accept), (refused, refuse))
