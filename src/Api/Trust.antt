-- ===== src/Api/Trust.antt =====
-- When the route of src/api.rs that verifies a report answers that it is trusted.
use tex_attestation_server.Prelude.{◌≡◌, refl, ◌↔◌, ap, ◌∙◌, true}
use tex_attestation_server.Prelude.Result.{Result, ok, ok-inj}
use tex_attestation_server.Prelude.Monad.{>>=-fst-ok, map_err-eq-ok, lift}
use tex_attestation_server.Text.{Bytes, Text}
use tex_attestation_server.Attestation.{tdx_success, verify_tdx_report}
use tex_attestation_server.Attestation.Verdict.{Answered, verify_tdx_report-Answered}
use tex_attestation_server.Tpm.Config.{TpmConfig}
use tex_attestation_server.Tpm.Machine.{Host, Machine}
use tex_attestation_server.Api.{Json, read_body, parse_json, decode_report, on_tdx, verify_report}

module _ {W : Type 0} (h : Host W) (config : TpmConfig) (json : Json)
    (request_body : Result Text Text) (m : Machine W) where
  -- The report of a request, which was read, is JSON, and holds hex.
  pub record Asks (report : Bytes) : Type 0 where
    pub body : Text
    pub is_read : request_body ≡ ok body
    pub field : Text
    pub is_json : json.report_field body ≡ ok field
    pub is_hex : h.crates.hex_decode field ≡ ok report

  abbrev pub Trusted : Type 0
  Trusted = (report : Bytes) × Asks report × Answered h.system report m.world tdx_success

  trusted-Answered :
      (verify_report h config json request_body m).0 ≡ ok (record { trusted = true }) → Trusted
  unfolding verify_report read_body parse_json decode_report
  trusted-Answered e =
      let (body, e1, h1) = >>=-fst-ok (lift (read_body request_body)) _ m e in
      let (field, e2, h2) = >>=-fst-ok (lift (parse_json json.report_field body)) _ m h1 in
      let (report, e3, h3) = >>=-fst-ok (lift (decode_report h.crates field)) _ m h2 in
      let (verdict, e4, h4) = >>=-fst-ok (on_tdx (verify_tdx_report h.system report)) _ m h3 in
      let is_true : verdict ≡ true = λ i. (ok-inj h4 i).trusted in
      (
        report,
        record {
          body = body;
          is_read = map_err-eq-ok _ request_body e1;
          field = field;
          is_json = map_err-eq-ok _ (json.report_field body) e2;
          is_hex = map_err-eq-ok _ (h.crates.hex_decode field) e3;
        },
        (verify_tdx_report-Answered h.system report m.world).0.0
            (map_err-eq-ok _ (verify_tdx_report h.system report m.world).0 e4 ∙ ap ok is_true),
      )

  answered-Trusted :
      Trusted → (verify_report h config json request_body m).0 ≡ ok (record { trusted = true })
  unfolding verify_report read_body parse_json decode_report
  answered-Trusted (report, asks, answered) =
      rw
        (
          asks.is_read,
          asks.is_json,
          asks.is_hex,
          (verify_tdx_report-Answered h.system report m.world).0.1 answered,
        )
        refl

  -- The route answers that a report is trusted exactly if the request was read, is JSON that holds a
  -- report in hex, and the TDX module answered TDX_SUCCESS for that report, of 1024 bytes.
  pub verify_report-Trusted :
      (verify_report h config json request_body m).0 ≡ ok (record { trusted = true }) ↔ Trusted
  verify_report-Trusted = (trusted-Answered, answered-Trusted)
