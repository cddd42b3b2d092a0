-- ===== src/Attestation/Binding.antt =====
-- Reports and the challenge that they are bound to: src/attestation.rs, the generation half.
use native.Mathlib.Nat.{sub-zero, zero-sub, suc-sub-suc, pow-zero, pow-suc}
use tex_attestation_server.Prelude.{
  ℕ, zero, suc, ◌+◌, ◌-◌, ◌*◌, ◌/◌, ◌^◌, ◌≤◌, ◌<◌, ◌≡◌, refl, sym, ap, ◌∙◌, ◌++◌, arith, ltb,
  length, take, drop, replicate, length-append, length-replicate, length-drop, take-all, drop-add,
  Bool-cases, inl, inr, leb, ltb→lt, lt→ltb, leb→le,
}
use tex_attestation_server.Prelude.Result.{Result, ok, err}
use tex_attestation_server.Prelude.Monad.{>>=-eq-ok, map_err-eq-ok, lift}
use tex_attestation_server.Text.{Bytes}
use tex_attestation_server.Outside.{System}
use tex_attestation_server.Attestation.{
  AttestationError, invalid_input, reportdata_len, tdreport_len, tdreport_reportdata_offset,
  tdx_guest_device, tdx_cmd_get_report0, report_data_from, check_length, tdreport_reportdata,
  open_device, ioctl, generate_tdx_report, from_le_bytes, to_le_bytes,
}

drop-replicate : (n m a : ℕ) → drop n (replicate m a) ≡ replicate (m - n) a
drop-replicate zero m a = rw (sub-zero m)
drop-replicate (suc n) zero a = rw (zero-sub (suc n))
drop-replicate (suc n) (suc m) a = rw (suc-sub-suc m n) (drop-replicate n m a)

abbrev pub IsInvalidInput : {A : Type 0} → Result AttestationError A → Type 0
IsInvalidInput (err (invalid_input _)) = Unit
IsInvalidInput _ = ⊥

-- REPORTDATA for a nonce: the nonce, and zeros up to 64 bytes.
abbrev pub padded : Bytes → Bytes
padded nonce = nonce ++ replicate (reportdata_len - length nonce) 0

report_data_from-fits :
    (nonce : Bytes) → length nonce ≤ reportdata_len → report_data_from nonce ≡ ok (padded nonce)
unfolding report_data_from
report_data_from-fits nonce h = elim (Bool-cases (ltb reportdata_len (length nonce))) [
  | inl long ↦ absurd (omega (arith, ltb→lt _ _ long))
  | inr fits ↦ rw fits (ap (λ z. ok (nonce ++ z)) (drop-replicate (length nonce) reportdata_len 0))
]

length-padded :
    (nonce : Bytes) → length nonce ≤ reportdata_len → length (padded nonce) ≡ reportdata_len
length-padded nonce h =
    rw (length-append nonce (replicate (reportdata_len - length nonce) 0))
      (rw (length-replicate {A = ℕ} (reportdata_len - length nonce) 0) (omega arith))

-- A nonce is accepted just when it has 64 bytes at most. It is then padded with zeros to exactly
-- 64 bytes, and a longer one is `InvalidInput`.
pub report_data_from_lem :
    (nonce : Bytes)
    → (length nonce ≤ reportdata_len
        → (report_data_from nonce ≡ ok (padded nonce)) × (length (padded nonce) ≡ reportdata_len))
      × (reportdata_len < length nonce → IsInvalidInput (report_data_from nonce))
report_data_from_lem nonce = (
  λ h. (report_data_from-fits nonce h, length-padded nonce h),
  λ h. unfold report_data_from in rw (lt→ltb reportdata_len (length nonce) h) tt,
)

-- Eight bytes at most hold a number below 2 ^ 64, and so on: the bytes give the number back.
pub from_le_bytes-to_le_bytes : (n v : ℕ) → v < 256 ^ n → from_le_bytes (to_le_bytes n v) ≡ v
unfolding from_le_bytes to_le_bytes
from_le_bytes-to_le_bytes zero v h = omega (arith, rw (pow-zero 256) at h)
from_le_bytes-to_le_bytes (suc n) v h =
    let bound : v < 256 ^ n * 256 = rw (pow-suc 256 n) at h in
    omega (arith, from_le_bytes-to_le_bytes n (v / 256) (omega arith))

pub length-to_le_bytes : (n v : ℕ) → length (to_le_bytes n v) ≡ n
unfolding to_le_bytes
length-to_le_bytes zero v = refl
length-to_le_bytes (suc n) v = ap suc (length-to_le_bytes n (v / 256))

-- What the guest driver and the TDX module document of `TDX_CMD_GET_REPORT0`: the struct keeps its
-- size, and REPORTDATA is echoed at its offset in the report.
pub record GuestDriver {W : Type 0} (sys : System W) : Type 0 where
  pub echoes :
      (fd : ℕ) (data_in req : Bytes) (w : W)
      → length data_in ≡ reportdata_len
      → (sys.ioctl fd tdx_cmd_get_report0 (data_in ++ replicate tdreport_len 0) w).0 ≡ ok req
      → (length req ≡ reportdata_len + tdreport_len)
        × (take reportdata_len (drop (reportdata_len + tdreport_reportdata_offset) req) ≡ data_in)

pub check_length-ok : (r : Bytes) → length r ≡ tdreport_len → check_length r ≡ ok tt
unfolding check_length
check_length-ok r h = rw h

pub check_length-length : (r : Bytes) → check_length r ≡ ok tt → length r ≡ tdreport_len
unfolding check_length
check_length-length r h = ground arith

report_data_from-ok :
    (nonce data_in : Bytes)
    → report_data_from nonce ≡ ok data_in
    → (length nonce ≤ reportdata_len) × (data_in ≡ padded nonce)
report_data_from-ok nonce data_in h = elim (Bool-cases (leb (length nonce) reportdata_len)) [
  | inl fits ↦
      let le = leb→le (length nonce) reportdata_len fits in
      (le, cc (h, report_data_from-fits nonce le))
  | inr long ↦ absurd (rw h at ((report_data_from_lem nonce).1 (ground arith)))
]

tdreport_reportdata-ok :
    (r : Bytes)
    → length r ≡ tdreport_len
    → tdreport_reportdata r ≡ ok (take reportdata_len (drop tdreport_reportdata_offset r))
unfolding tdreport_reportdata
tdreport_reportdata-ok r h = rw (check_length-ok r h, tdreport_reportdata)

-- How a generated report came about: the nonce fits, and one `ioctl` on its REPORTDATA succeeded.
pub record Generated {W : Type 0} (sys : System W) (nonce report : Bytes) : Type 0 where
  pub fits : length nonce ≤ reportdata_len
  pub fd : ℕ
  pub req : Bytes
  pub before : W
  pub answered :
      (sys.ioctl fd tdx_cmd_get_report0 (padded nonce ++ replicate tdreport_len 0) before).0
      ≡ ok req
  pub cut : report ≡ take tdreport_len (drop reportdata_len req)

pub generate-Generated :
    {W : Type 0} (sys : System W) (nonce report : Bytes) (w w' : W)
    → generate_tdx_report sys nonce w ≡ (ok report, w')
    → Generated sys nonce report
unfolding generate_tdx_report
generate-Generated sys nonce report w w' h =
    let (data_in, e1, h1) = >>=-eq-ok (lift (report_data_from nonce)) _ w h in
    let (fd, e2, h2) = >>=-eq-ok (open_device sys tdx_guest_device) _ w h1 in
    let (req, e3, h3) = >>=-eq-ok (ioctl sys fd tdx_cmd_get_report0 _ _) _ _ h2 in
    let (le, same) = report_data_from-ok nonce data_in e1 in
    record {
      fits = le;
      fd = fd;
      req = req;
      before = (open_device sys tdx_guest_device w).1;
      answered = rw (← same) (map_err-eq-ok _ _ e3);
      cut = ground arith;
    }

-- A report that was generated for a nonce has 1024 bytes, and its REPORTDATA is that nonce, padded
-- with zeros to 64 bytes; so the nonce had 64 bytes at most. Assumed: the guest driver keeps the
-- size of its struct and echoes REPORTDATA.
pub generate_tdx_report-binds :
    {W : Type 0} (sys : System W) (nonce report : Bytes) (w w' : W)
    → GuestDriver sys
    → generate_tdx_report sys nonce w ≡ (ok report, w')
    → (length nonce ≤ reportdata_len)
      × (length report ≡ tdreport_len)
      × (tdreport_reportdata report ≡ ok (padded nonce))
generate_tdx_report-binds sys nonce report w w' driver h =
    let g = generate-Generated sys nonce report w w' h in
    let (size, echo) =
      driver.echoes g.fd (padded nonce) g.req g.before (length-padded nonce g.fits) g.answered in
    let whole : report ≡ drop reportdata_len g.req =
      g.cut
      ∙ take-all tdreport_len (drop reportdata_len g.req)
          (omega (arith, length-drop reportdata_len g.req)) in
    let len : length report ≡ tdreport_len =
      ap length whole ∙ omega (arith, length-drop reportdata_len g.req) in
    (
      g.fits,
      len,
      tdreport_reportdata-ok report len
          ∙ ap (λ (r : Bytes). ok (take reportdata_len (drop tdreport_reportdata_offset r))) whole
          ∙ ap (λ (r : Bytes). ok (take reportdata_len r))
              (sym (drop-add reportdata_len tdreport_reportdata_offset g.req))
          ∙ ap ok echo,
    )
