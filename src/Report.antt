-- ===== src/Report.antt =====
-- src/report.rs: the fields of a `TDREPORT`, decoded.
pub mod Layout
use tex_attestation_server.Prelude.{ℕ, ◌+◌, List, length, take, drop}
use tex_attestation_server.Prelude.Result.{Result, ok, ◌>>=◌}
use tex_attestation_server.Text.{Bytes, Text}
use tex_attestation_server.Outside.{Crates}
use tex_attestation_server.Attestation.{
  AttestationError, tdreport_reportdata_offset, reportdata_len, tdreport_mac_offset,
  tdreport_mac_len, check_length, from_le_bytes,
}

abbrev pub tee_tcb_info_offset : ℕ
tee_tcb_info_offset = 0x100

abbrev pub tdinfo_offset : ℕ
tdinfo_offset = 0x200

-- `TEE_TCB_INFO_STRUCT`, behind `tee_tcb_info_offset`
abbrev pub tee_tcb_info_valid_offset : ℕ
tee_tcb_info_valid_offset = 0

abbrev pub tee_tcb_info_tee_tcb_svn_offset : ℕ
tee_tcb_info_tee_tcb_svn_offset = 8

abbrev pub tee_tcb_info_tee_tcb_svn_len : ℕ
tee_tcb_info_tee_tcb_svn_len = 16

abbrev pub tee_tcb_info_tee_tcb_hash_offset : ℕ
tee_tcb_info_tee_tcb_hash_offset = 24

-- `TDINFO_STRUCT`, behind `tdinfo_offset`
abbrev pub tdinfo_attributes_offset : ℕ
tdinfo_attributes_offset = 0

abbrev pub tdinfo_xfam_offset : ℕ
tdinfo_xfam_offset = 8

abbrev pub tdinfo_mrtd_offset : ℕ
tdinfo_mrtd_offset = 16

abbrev pub tdinfo_mrtd_len : ℕ
tdinfo_mrtd_len = 48

abbrev pub tdinfo_mrconfigid_offset : ℕ
tdinfo_mrconfigid_offset = 64

abbrev pub tdinfo_mrconfigid_len : ℕ
tdinfo_mrconfigid_len = 48

abbrev pub tdinfo_mrowner_offset : ℕ
tdinfo_mrowner_offset = 112

abbrev pub tdinfo_mrowner_len : ℕ
tdinfo_mrowner_len = 48

abbrev pub tdinfo_mrownerconfig_offset : ℕ
tdinfo_mrownerconfig_offset = 160

abbrev pub tdinfo_mrownerconfig_len : ℕ
tdinfo_mrownerconfig_len = 48

abbrev pub tdinfo_rtmr0_offset : ℕ
tdinfo_rtmr0_offset = 208

abbrev pub tdinfo_rtmr0_len : ℕ
tdinfo_rtmr0_len = 48

abbrev pub tdinfo_rtmr1_offset : ℕ
tdinfo_rtmr1_offset = 256

abbrev pub tdinfo_rtmr1_len : ℕ
tdinfo_rtmr1_len = 48

abbrev pub tdinfo_rtmr2_offset : ℕ
tdinfo_rtmr2_offset = 304

abbrev pub tdinfo_rtmr2_len : ℕ
tdinfo_rtmr2_len = 48

abbrev pub tdinfo_rtmr3_offset : ℕ
tdinfo_rtmr3_offset = 352

abbrev pub tdinfo_rtmr3_len : ℕ
tdinfo_rtmr3_len = 48

abbrev pub tdinfo_servtd_hash_offset : ℕ
tdinfo_servtd_hash_offset = 400

abbrev pub tdinfo_servtd_hash_len : ℕ
tdinfo_servtd_hash_len = 48

pub record ReportMacStruct : Type 0 where
  pub report_data : Text
  pub mac : Text

pub record TeeTcbInfo : Type 0 where
  pub valid : ℕ
  pub tee_tcb_svn : Text
  pub mrseam : Text
  pub mrsignerseam : Text
  pub seamattributes : ℕ
  pub tdattributes : ℕ
  pub xfd : ℕ

pub record TdInfo : Type 0 where
  pub attributes : ℕ
  pub xfam : ℕ
  pub mrtd : Text
  pub mrconfigid : Text
  pub mrowner : Text
  pub mrownerconfig : Text
  pub rtmr0 : Text
  pub rtmr1 : Text
  pub rtmr2 : Text
  pub rtmr3 : Text
  pub servtd_hash : Text

pub record ParseReportResponse : Type 0 where
  pub report_len : ℕ
  pub report_mac_struct : ReportMacStruct
  pub tee_tcb_info : TeeTcbInfo
  pub tdinfo : TdInfo

-- `&report[offset..offset + len]`
abbrev pub slice : Bytes → ℕ → ℕ → Bytes
slice report offset len = take len (drop offset report)

unfoldable pub read_u64 : Bytes → ℕ → ℕ
read_u64 report offset = from_le_bytes (slice report offset 8)

unfoldable pub read_hex : Crates → Bytes → ℕ → ℕ → Text
read_hex c report offset len = c.hex_encode (slice report offset len)

-- The body of `parse_tdreport` behind its length test.
unfoldable pub parse_fields : Crates → Bytes → ParseReportResponse
unfolding read_u64 read_hex
parse_fields c report =
    let tcb = tee_tcb_info_offset in
    let hash = tcb + tee_tcb_info_tee_tcb_hash_offset in
    let td = tdinfo_offset in
    record {
      report_len = length report;
      report_mac_struct = record {
        report_data = read_hex c report tdreport_reportdata_offset reportdata_len;
        mac = read_hex c report tdreport_mac_offset tdreport_mac_len;
      };
      tee_tcb_info = record {
        valid = read_u64 report (tcb + tee_tcb_info_valid_offset);
        tee_tcb_svn =
            read_hex c report (tcb + tee_tcb_info_tee_tcb_svn_offset) tee_tcb_info_tee_tcb_svn_len;
        mrseam = read_hex c report hash 48;
        mrsignerseam = read_hex c report (hash + 48) 48;
        seamattributes = read_u64 report (hash + 96);
        tdattributes = read_u64 report (hash + 104);
        xfd = read_u64 report (hash + 112);
      };
      tdinfo = record {
        attributes = read_u64 report (td + tdinfo_attributes_offset);
        xfam = read_u64 report (td + tdinfo_xfam_offset);
        mrtd = read_hex c report (td + tdinfo_mrtd_offset) tdinfo_mrtd_len;
        mrconfigid = read_hex c report (td + tdinfo_mrconfigid_offset) tdinfo_mrconfigid_len;
        mrowner = read_hex c report (td + tdinfo_mrowner_offset) tdinfo_mrowner_len;
        mrownerconfig =
            read_hex c report (td + tdinfo_mrownerconfig_offset) tdinfo_mrownerconfig_len;
        rtmr0 = read_hex c report (td + tdinfo_rtmr0_offset) tdinfo_rtmr0_len;
        rtmr1 = read_hex c report (td + tdinfo_rtmr1_offset) tdinfo_rtmr1_len;
        rtmr2 = read_hex c report (td + tdinfo_rtmr2_offset) tdinfo_rtmr2_len;
        rtmr3 = read_hex c report (td + tdinfo_rtmr3_offset) tdinfo_rtmr3_len;
        servtd_hash = read_hex c report (td + tdinfo_servtd_hash_offset) tdinfo_servtd_hash_len;
      };
    }

unfoldable pub parse_tdreport : Crates → Bytes → Result AttestationError ParseReportResponse
unfolding parse_fields
parse_tdreport c report = do _ ← check_length report; ok (parse_fields c report)
