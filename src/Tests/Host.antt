-- ===== src/Tests/Host.antt =====
-- A small host for the tests: every program succeeds, every file that is read has one byte, and the
-- TDX devices echo REPORTDATA and answer success.
use mathlib.Core.Path.{subst}
use tex_attestation_server.Prelude.{
  ℕ, ◌+◌, ◌≡◌, refl, sym, ap, ◌∙◌, Bool, true, false, some, [], ◌∷◌, ◌++◌, arith, length, take,
  drop, replicate, length-append, length-replicate, take-append, drop-append, drop-add,
}
use tex_attestation_server.Prelude.Result.{Result, ok, err, ok-inj}
use tex_attestation_server.Text.{Bytes}
use tex_attestation_server.Outside.{System}
use tex_attestation_server.Attestation.{reportdata_len, tdreport_len, tdreport_reportdata_offset}
use tex_attestation_server.Attestation.Binding.{GuestDriver}
use tex_attestation_server.Tpm.Config.{TpmConfig}
use tex_attestation_server.Tpm.Folder.{Files, file}
use tex_attestation_server.Tpm.Machine.{Host}
use tex_attestation_server.Tests.Codec.{test_crates}

-- The struct after the call: REPORTDATA in front, and again at its place in the report.
abbrev echo : Bytes → Bytes
echo d = d ++ (replicate tdreport_reportdata_offset 0 ++ (d ++ replicate 832 0))

abbrev pub test_system : System (Unit {0})
test_system = record {
  spawn =
      λ binary args w. (ok (record { success = true; status = []; stdout = []; stderr = [] }), w);
  read = λ path w. ok (7 ∷ []);
  write = λ path bytes w. (ok tt, w);
  create_dir_all = λ path w. (ok tt, w);
  remove_dir_all = λ path w. (ok tt, w);
  open_device = λ path w. (ok 3, w);
  ioctl = λ fd request bytes w. (ok (echo (take reportdata_len bytes)), w);
  urandom = λ n w. (ok (replicate n 9), w);
  temp_dir = b'/' ∷ b't' ∷ [];
  process_id = 41;
  now = λ w. some 0;
}

-- One directory with one file.
abbrev pub test_files : Files
test_files = record {
  root_is_dir = λ dir. ok true;
  root_path = λ dir. ok ((b'/' ∷ []) ∷ (b's' ∷ []) ∷ []);
  read_dir = λ dir. ok (ok (b'a' ∷ []) ∷ []);
  symlink_metadata = λ path. ok file;
  canonicalize = λ path. ok path;
  is_file = λ path. ok true;
  read = λ path. ok (1 ∷ 2 ∷ []);
}

abbrev pub test_host : Host (Unit {0})
test_host = record { crates = test_crates; system = test_system; disk = λ w. test_files; depth = 4 }

abbrev pub test_config : TpmConfig
test_config = record {
  measure_dir = b'/' ∷ b's' ∷ [];
  pcr_index = 16;
  hash_algorithm = b's' ∷ b'h' ∷ b'a' ∷ [];
  tcti = b'm' ∷ [];
  ak_handle = b'0' ∷ b'x' ∷ b'8' ∷ [];
  simulator_dir = b's' ∷ [];
}

length-echo :
    (d : Bytes) → length d ≡ reportdata_len → length (echo d) ≡ reportdata_len + tdreport_len
length-echo d h = omega (
  arith,
  length-append d (replicate tdreport_reportdata_offset 0 ++ (d ++ replicate 832 0)),
  length-append {A = ℕ} (replicate tdreport_reportdata_offset 0) (d ++ replicate 832 0),
  length-append d (replicate 832 0),
  length-replicate {A = ℕ} tdreport_reportdata_offset 0,
  length-replicate {A = ℕ} 832 0,
)

take-echo :
    (d : Bytes)
    → length d ≡ reportdata_len
    → take reportdata_len (drop (reportdata_len + tdreport_reportdata_offset) (echo d)) ≡ d
take-echo d h =
    ap (take reportdata_len) (
      drop-add reportdata_len tdreport_reportdata_offset (echo d)
      ∙ ap (drop tdreport_reportdata_offset) (
          drop-append reportdata_len d
            (replicate tdreport_reportdata_offset 0 ++ (d ++ replicate 832 0)) h)
      ∙ drop-append tdreport_reportdata_offset (replicate tdreport_reportdata_offset 0)
          (d ++ replicate 832 0) (length-replicate {A = ℕ} tdreport_reportdata_offset 0))
    ∙ take-append reportdata_len d (replicate 832 0) h

pub test_driver : GuestDriver test_system
test_driver = record {
  echoes = λ fd data_in req w h e.
      let same : echo data_in ≡ req =
        ap echo (sym (take-append reportdata_len data_in (replicate tdreport_len 0) h))
        ∙ ok-inj e in
      (
        subst (λ (r : Bytes). length r ≡ reportdata_len + tdreport_len) same
            (length-echo data_in h),
        subst
            (λ (r : Bytes).
              take reportdata_len (drop (reportdata_len + tdreport_reportdata_offset) r) ≡ data_in)
            same (take-echo data_in h),
      );
}

-- The value of a result that is known to be one.
abbrev pub the_ok : {E A : Type 0} → Result E A → A → A
the_ok (ok a) d = a
the_ok (err e) d = d

abbrev pub the_err : {E A : Type 0} → Result E A → E → E
the_err (ok a) d = d
the_err (err e) d = e

abbrev pub is_ok : {E A : Type 0} → Result E A → Bool
is_ok (ok a) = true
is_ok (err e) = false

pub is_ok_lem :
    {W E A : Type 0} (r : Result E A) (w : W) (d : A)
    → is_ok r ≡ true
    → ◌≡◌ {A = Result E A × W} (r, w) (ok (the_ok r d), w)
is_ok_lem (ok a) w d h = refl
is_ok_lem (err e) w d h = absurd (cc h)

pub ok_lem : {E A : Type 0} (r : Result E A) (d : A) → is_ok r ≡ true → r ≡ ok (the_ok r d)
ok_lem (ok a) d h = refl
ok_lem (err e) d h = absurd (cc h)
