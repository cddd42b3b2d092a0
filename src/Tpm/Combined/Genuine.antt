-- ===== src/Tpm/Combined/Genuine.antt =====
-- The TDX half of the evidence of `attestation_all`, when it is verified: src/tpm.rs.
use tex_attestation_server.Prelude.{
  ℕ, ◌≡◌, refl, sym, ap, ◌∙◌, Bool, true, false, Option, some, ◌++◌, take, drop, All, All-take,
  All-drop, length, length-drop, length-take_le, arith, ◌+◌,
}
use tex_attestation_server.Prelude.Result.{Result, ok, ok-inj, map_err}
use tex_attestation_server.Prelude.Monad.{>>=-split, lift, ok-injective, map_err-eq-ok, map_err-ok}
use tex_attestation_server.Text.{Bytes, Text, lit}
use mathlib.Core.Option.{some-injective}
use tex_attestation_server.Outside.{System, HexLaws, IsByte}
use tex_attestation_server.Attestation.{
  tdreport_len, reportdata_len, tdx_success, tdx_verify_device, tdx_cmd_get_report0,
  tdx_verify_report, from_le_bytes, generate_tdx_report, verify_tdx_report,
}
use tex_attestation_server.Attestation.Binding.{Generated, generate-Generated}
use tex_attestation_server.Attestation.Verdict.{Answered, request, verify_tdx_report-Answered}
use tex_attestation_server.Tpm.Types.{TpmError, invalid_input, from_attestation, TdxEvidence}
use tex_attestation_server.Tpm.Config.{TpmConfig}
use tex_attestation_server.Tpm.Machine.{Host, Machine, on_world}
use tex_attestation_server.Tpm.Machine.Leaving.{Leaves, >>=-Leaves, lift-Leaves, on_world-Leaves}
use tex_attestation_server.Tpm.Combined.{tdx_evidence, decode_report}

-- What the TDX module documents of its reports: the MAC of a report that it made is right whenever it
-- is asked to verify it. The struct of a request keeps its length, and holds bytes.
pub record MacLaws {W : Type 0} (sys : System W) : Type 0 where
  pub authentic :
      (fd fd' : ℕ) (data_in req reply : Bytes) (w w' : W)
      → (sys.ioctl fd tdx_cmd_get_report0 data_in w).0 ≡ ok req
      → (sys.ioctl fd' tdx_verify_report
          (request (take tdreport_len (drop reportdata_len req)))
          w').0
        ≡ ok reply
      → from_le_bytes (take 8 (drop tdreport_len reply)) ≡ tdx_success
  pub holds_bytes :
      (fd : ℕ) (data_in req : Bytes) (w : W)
      → (sys.ioctl fd tdx_cmd_get_report0 data_in w).0 ≡ ok req
      → All IsByte req
  pub sized :
      (fd : ℕ) (data_in req : Bytes) (w : W)
      → (sys.ioctl fd tdx_cmd_get_report0 data_in w).0 ≡ ok req
      → length req ≡ reportdata_len + tdreport_len

module _ {W : Type 0} (sys : System W) (mac : MacLaws sys) (nonce report : Bytes)
    (g : Generated sys nonce report) where
  report-IsByte : All IsByte report
  report-IsByte = rw g.cut (
      All-take IsByte tdreport_len (drop reportdata_len g.req)
        (All-drop IsByte reportdata_len g.req (mac.holds_bytes g.fd _ g.req g.before g.answered)))

  report-length : length report ≡ tdreport_len
  report-length =
      let whole = mac.sized g.fd _ g.req g.before g.answered in
      let cut = length-drop reportdata_len g.req in
      ap length g.cut
      ∙ length-take_le tdreport_len (drop reportdata_len g.req) (omega (arith, whole, cut))

  status-success : (w : W) (status : ℕ) → Answered sys report w status → status ≡ tdx_success
  status-success w status a =
      sym a.status_is
      ∙ mac.authentic g.fd a.fd _ g.req a.reply g.before (sys.open_device tdx_verify_device w).1
          g.answered
          ((λ i.
              (sys.ioctl a.fd tdx_verify_report (request (sym g.cut i))
                (sys.open_device tdx_verify_device w).1).0)
            ∙ a.answered)

  -- Wherever such a report is verified, it is accepted.
  generated-accepted :
      (w : W) (trusted : Bool) → (verify_tdx_report sys report w).0 ≡ ok trusted → trusted ≡ true
  generated-accepted w true h = refl
  generated-accepted w false h =
      let (status, a, other) = (verify_tdx_report-Answered sys report w).1.0 h in
      absurd (other (status-success w status a))

module _ {W : Type 0} (h : Host W) (config : TpmConfig) where
  -- The TDX half of the evidence holds a report that the module made.
  pub record Genuine (evidence : Option TdxEvidence) : Type 0 where
    pub half : TdxEvidence
    pub bytes : Bytes
    pub report : Bytes
    pub made : Generated h.system bytes report
    pub there : evidence ≡ some half
    pub encodes : half.report ≡ h.crates.hex_encode report

  abbrev nonce_bytes : Text → Result TpmError Bytes
  nonce_bytes nonce =
      map_err (λ e. invalid_input (lit "the nonce is not valid hex: " ++ e))
        (h.crates.hex_decode nonce)

  pub tdx_evidence-Genuine :
      (nonce : Text) (size : ℕ) (m m' : Machine W) (t : TdxEvidence)
      → tdx_evidence h config nonce size m ≡ (ok t, m')
      → Genuine (some t)
  unfolding tdx_evidence
  tdx_evidence-Genuine nonce size m m' t e =
      let (bytes, m1, e1, h1) = >>=-split (lift (nonce_bytes nonce)) _ m e in
      let (report, m2, e2, h2) =
        >>=-split (on_world (generate_tdx_report h.system bytes) from_attestation) _ m1 h1 in
      record {
        half = t;
        bytes = bytes;
        report = report;
        made =
            generate-Generated h.system bytes report m1.world
              (generate_tdx_report h.system bytes m1.world).1
              (λ i. (
                map_err-eq-ok _ _ (λ j. (e2 j).0) i,
                (generate_tdx_report h.system bytes m1.world).1,
              ));
        there = refl;
        encodes = ap (λ (q : TdxEvidence). q.report) (sym (ok-injective h2).0);
      }

  pub tdx_evidence-Leaves : (nonce : Text) (size : ℕ) → Leaves (tdx_evidence h config nonce size)
  unfolding tdx_evidence
  tdx_evidence-Leaves nonce size = >>=-Leaves (lift-Leaves (nonce_bytes nonce)) λ bytes.
      >>=-Leaves (on_world-Leaves (generate_tdx_report h.system bytes) from_attestation) λ report.
        lift-Leaves
          (ok (record { report = h.crates.hex_encode report; nonce = nonce; nonce_size = size }))

  module _ (hex : HexLaws h.crates) (mac : MacLaws h.system) where
    pub Genuine-decodes :
        (evidence : Option TdxEvidence) (g : Genuine evidence)
        → (decode_report h.crates g.half ≡ ok g.report) × (length g.report ≡ tdreport_len)
    unfolding decode_report
    Genuine-decodes evidence g =
        let whole = report-IsByte h.system mac g.bytes g.report g.made in
        (
          map_err-ok _ (ap h.crates.hex_decode g.encodes ∙ hex.decode-encode g.report whole),
          report-length h.system mac g.bytes g.report g.made,
        )

    pub Genuine-trusted :
        (evidence : Option TdxEvidence) (tdx : TdxEvidence) (report : Bytes) (w : W)
        (trusted : Bool)
        → Genuine evidence
        → evidence ≡ some tdx
        → h.crates.hex_decode tdx.report ≡ ok report
        → (verify_tdx_report h.system report w).0 ≡ ok trusted
        → trusted ≡ true
    Genuine-trusted evidence tdx report w trusted g is decoded verdict =
        let half : g.half ≡ tdx = some-injective g.half tdx (sym g.there ∙ is) in
        let whole = report-IsByte h.system mac g.bytes g.report g.made in
        let same : g.report ≡ report = ok-inj (
          sym (hex.decode-encode g.report whole)
          ∙ ap h.crates.hex_decode (sym g.encodes ∙ λ i. (half i).report)
          ∙ decoded) in
        generated-accepted h.system mac g.bytes g.report g.made w trusted
          ((λ i. (verify_tdx_report h.system (same i) w).0) ∙ verdict)
