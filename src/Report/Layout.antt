-- ===== src/Report/Layout.antt =====
-- The layout of a `TDREPORT` by the ABI, written down as the list of its fields in order, and what
-- `parse_tdreport` of src/report.rs reads from it.
use tex_attestation_server.Prelude.{
  ℕ, zero, suc, ◌+◌, ◌^◌, ◌<◌, ◌≡◌, refl, sym, ap, ◌∙◌, List, [], ◌∷◌, ◌++◌, arith, length,
  length-append, take-append, drop-append, drop-add,
}
use tex_attestation_server.Prelude.Result.{ok}
use tex_attestation_server.Text.{Bytes}
use tex_attestation_server.Outside.{Crates}
use tex_attestation_server.Attestation.{tdreport_len, from_le_bytes, to_le_bytes}
use tex_attestation_server.Attestation.Binding.{from_le_bytes-to_le_bytes, check_length-ok}
use tex_attestation_server.Report.{
  ParseReportResponse, slice, read_u64, read_hex, parse_fields, parse_tdreport,
}

-- The segments of a report, and their sizes.
abbrev join : List Bytes → Bytes
join [] = []
join (s ∷ rest) = s ++ join rest

abbrev Fits : List ℕ → List Bytes → Type 0
Fits [] [] = Unit {0}
Fits (n ∷ ns) (s ∷ rest) = (length s ≡ n) × Fits ns rest
Fits _ _ = ⊥

-- The offset and the size of segment `k`, and the segment itself.
abbrev offset : List ℕ → ℕ → ℕ
offset (n ∷ ns) (suc k) = n + offset ns k
offset _ _ = 0

abbrev size : List ℕ → ℕ → ℕ
size [] k = 0
size (n ∷ ns) zero = n
size (n ∷ ns) (suc k) = size ns k

abbrev segment : List Bytes → ℕ → Bytes
segment [] k = []
segment (s ∷ rest) zero = s
segment (s ∷ rest) (suc k) = segment rest k

slice-join :
    (ns : List ℕ) (segs : List Bytes) (k : ℕ)
    → Fits ns segs
    → slice (join segs) (offset ns k) (size ns k) ≡ segment segs k
slice-join [] [] zero f = refl
slice-join [] [] (suc k) f = refl
slice-join [] (s ∷ rest) k f = absurd f
slice-join (n ∷ ns) [] k f = absurd f
slice-join (n ∷ ns) (s ∷ rest) zero f = take-append n s (join rest) f.0
slice-join (n ∷ ns) (s ∷ rest) (suc k) f =
    rw (drop-add n (offset ns k) (s ++ join rest))
      (rw (drop-append n s (join rest) f.0) (slice-join ns rest k f.1))

abbrev total : List ℕ → ℕ
total [] = 0
total (n ∷ ns) = n + total ns

length-join : (ns : List ℕ) (segs : List Bytes) → Fits ns segs → length (join segs) ≡ total ns
length-join [] [] f = refl
length-join [] (s ∷ rest) f = absurd f
length-join (n ∷ ns) [] f = absurd f
length-join (n ∷ ns) (s ∷ rest) f =
    omega (arith, length-append s (join rest), length-join ns rest f.1, f.0)

-- A report by the names of the ABI: `TDREPORT_STRUCT` with the fields that nobody decodes. The 16
-- bytes of TEE_TCB_SVN2, behind ATTRIBUTES, are given as two words, the lower one first.
pub record TdReport : Type 0 where
  pub mac_head : Bytes
  pub report_data : Bytes
  pub mac_gap : Bytes
  pub mac : Bytes
  pub valid : ℕ
  pub tee_tcb_svn : Bytes
  pub mrseam : Bytes
  pub mrsignerseam : Bytes
  pub seamattributes : ℕ
  pub svn2_low : ℕ
  pub svn2_high : ℕ
  pub tcb_rest : Bytes
  pub attributes : ℕ
  pub xfam : ℕ
  pub mrtd : Bytes
  pub mrconfigid : Bytes
  pub mrowner : Bytes
  pub mrownerconfig : Bytes
  pub rtmr0 : Bytes
  pub rtmr1 : Bytes
  pub rtmr2 : Bytes
  pub rtmr3 : Bytes
  pub servtd_hash : Bytes
  pub td_rest : Bytes

abbrev le64 : ℕ → Bytes
le64 v = to_le_bytes 8 v

abbrev sizes : List ℕ
sizes =
    128 ∷ 64 ∷ 32 ∷ 32 ∷ 8 ∷ 16 ∷ 48 ∷ 48 ∷ 8 ∷ 8 ∷ 8 ∷ 112 ∷ 8 ∷ 8 ∷ 48 ∷ 48 ∷ 48 ∷ 48 ∷ 48 ∷ 48
    ∷ 48 ∷ 48 ∷ 48 ∷ 64 ∷ []

abbrev segments : TdReport → List Bytes
segments t =
    t.mac_head
    ∷ t.report_data
    ∷ t.mac_gap
    ∷ t.mac
    ∷ le64 t.valid
    ∷ t.tee_tcb_svn
    ∷ t.mrseam
    ∷ t.mrsignerseam
    ∷ le64 t.seamattributes
    ∷ le64 t.svn2_low
    ∷ le64 t.svn2_high
    ∷ t.tcb_rest
    ∷ le64 t.attributes
    ∷ le64 t.xfam
    ∷ t.mrtd
    ∷ t.mrconfigid
    ∷ t.mrowner
    ∷ t.mrownerconfig
    ∷ t.rtmr0
    ∷ t.rtmr1
    ∷ t.rtmr2
    ∷ t.rtmr3
    ∷ t.servtd_hash
    ∷ t.td_rest
    ∷ []

-- The raw bytes.
pub assemble : TdReport → Bytes
assemble t = join (segments t)

pub record IsLayout (t : TdReport) : Type 0 where
  pub fits : Fits sizes (segments t)
  pub words :
      (t.valid < 2 ^ 64)
      × (t.seamattributes < 2 ^ 64)
      × (t.svn2_low < 2 ^ 64)
      × (t.svn2_high < 2 ^ 64)
      × (t.attributes < 2 ^ 64)
      × (t.xfam < 2 ^ 64)

-- The document that a report stands for: numbers as they are, everything else in hex, and the halves
-- of TEE_TCB_SVN2 under the names that the decoder gives them.
pub decoded : Crates → TdReport → ParseReportResponse
decoded c t = record {
  report_len = tdreport_len;
  report_mac_struct = record { report_data = c.hex_encode t.report_data; mac = c.hex_encode t.mac };
  tee_tcb_info = record {
    valid = t.valid;
    tee_tcb_svn = c.hex_encode t.tee_tcb_svn;
    mrseam = c.hex_encode t.mrseam;
    mrsignerseam = c.hex_encode t.mrsignerseam;
    seamattributes = t.seamattributes;
    tdattributes = t.svn2_low;
    xfd = t.svn2_high;
  };
  tdinfo = record {
    attributes = t.attributes;
    xfam = t.xfam;
    mrtd = c.hex_encode t.mrtd;
    mrconfigid = c.hex_encode t.mrconfigid;
    mrowner = c.hex_encode t.mrowner;
    mrownerconfig = c.hex_encode t.mrownerconfig;
    rtmr0 = c.hex_encode t.rtmr0;
    rtmr1 = c.hex_encode t.rtmr1;
    rtmr2 = c.hex_encode t.rtmr2;
    rtmr3 = c.hex_encode t.rtmr3;
    servtd_hash = c.hex_encode t.servtd_hash;
  };
}

module _ (c : Crates) (t : TdReport) (layout : IsLayout t) where
  length-assemble : length (assemble t) ≡ tdreport_len
  unfolding assemble
  length-assemble = length-join sizes (segments t) layout.fits

  hex_at :
      (k : ℕ)
      → read_hex c (assemble t) (offset sizes k) (size sizes k)
        ≡ c.hex_encode (segment (segments t) k)
  unfolding assemble read_hex
  hex_at k = ap c.hex_encode (slice-join sizes (segments t) k layout.fits)

  word_at :
      (k v : ℕ)
      → size sizes k ≡ 8
      → segment (segments t) k ≡ le64 v
      → v < 2 ^ 64
      → read_u64 (assemble t) (offset sizes k) ≡ v
  unfolding assemble read_u64
  word_at k v eight is bound =
      ap (λ n. from_le_bytes (slice (join (segments t)) (offset sizes k) n)) (sym eight)
      ∙ ap from_le_bytes (slice-join sizes (segments t) k layout.fits ∙ is)
      ∙ from_le_bytes-to_le_bytes 8 v bound

  parse_fields-assemble : parse_fields c (assemble t) ≡ decoded c t
  unfolding parse_fields decoded
  parse_fields-assemble = λ i. record {
    report_len = length-assemble i;
    report_mac_struct = record { report_data = hex_at 1 i; mac = hex_at 3 i };
    tee_tcb_info = record {
      valid = word_at 4 t.valid refl refl layout.words.0 i;
      tee_tcb_svn = hex_at 5 i;
      mrseam = hex_at 6 i;
      mrsignerseam = hex_at 7 i;
      seamattributes = word_at 8 t.seamattributes refl refl layout.words.1 i;
      tdattributes = word_at 9 t.svn2_low refl refl layout.words.2 i;
      xfd = word_at 10 t.svn2_high refl refl layout.words.3 i;
    };
    tdinfo = record {
      attributes = word_at 12 t.attributes refl refl layout.words.4 i;
      xfam = word_at 13 t.xfam refl refl layout.words.5 i;
      mrtd = hex_at 14 i;
      mrconfigid = hex_at 15 i;
      mrowner = hex_at 16 i;
      mrownerconfig = hex_at 17 i;
      rtmr0 = hex_at 18 i;
      rtmr1 = hex_at 19 i;
      rtmr2 = hex_at 20 i;
      rtmr3 = hex_at 21 i;
      servtd_hash = hex_at 22 i;
    };
  }

  -- Decoding the raw bytes of a report, laid out by the ABI, gives exactly its fields: every field is
  -- read at its place and at its size, little-endian words included. But what is answered as
  -- tdattributes and xfd is the lower and the upper half of TEE_TCB_SVN2, since the ABI has no such
  -- fields there. The fields have the sizes of the ABI, and a word is below 2 ^ 64.
  pub parse_tdreport-assemble : parse_tdreport c (assemble t) ≡ ok (decoded c t)
  unfolding parse_tdreport
  parse_tdreport-assemble =
      rw (check_length-ok (assemble t) length-assemble) (ap ok parse_fields-assemble)
