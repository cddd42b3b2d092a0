-- ===== src/Tests/Parts.antt =====
-- The witnesses on the folder, devices, dates, metrics, the log and the handlers.
use tex_attestation_server.Prelude.{
  ℕ, ◌+◌, ◌≡◌, refl, true, none, some, List, [], ◌∷◌, map, length, All, arith,
}
use tex_attestation_server.Prelude.Int.{pos}
use tex_attestation_server.Text.{Bytes, Text, lit, equal, to_ascii_lowercase}
use tex_attestation_server.Text.Trim.{trim}
use tex_attestation_server.Text.Search.{contains, lines, strip_prefix, split_once}
use tex_attestation_server.Clock.{civil_from_days}
use tex_attestation_server.Clock.Calendar.{IsDate, day_number}
use tex_attestation_server.Clock.Civil.{civil_from_days-day_number}
use tex_attestation_server.Tpm.Types.{MeasuredFile}
use tex_attestation_server.Tpm.Folder.{
  Entry, FilePath, measure_entries, collect_regular_files, child_paths, visit_all, visit,
  visit_kind, sort,
}
use tex_attestation_server.Tpm.Folder.Walk.{Measurable, collect_regular_files-Measurable}
use tex_attestation_server.Tpm.Folder.Digest.{named, measure_entries-injective}
use tex_attestation_server.Gpu.{start, parse_lines, finish, parse_gpu_attestation}
use tex_attestation_server.Gpu.Devices.{count_headers, parse_gpu_attestation-devices}
use tex_attestation_server.Gpu.Summary.{IsPlainLine, finish-last}
use tex_attestation_server.Metrics.{Recorder, new_recorder, begin_request}
use tex_attestation_server.Metrics.Inflight.{
  Reachable, idle, arrive, begins, counted_in, Reachable-counted,
}
use tex_attestation_server.Tests.Codec.{test_crates, sha_laws}
use tex_attestation_server.Tests.Host.{test_files, the_ok, is_ok, ok_lem}

abbrev one_file : List Entry
one_file = (b'a' ∷ [], []) ∷ []

abbrev same_file : List Entry
same_file = (b'a' ∷ [], (b'c' ∷ []) ∷ []) ∷ []

abbrev fed_by : List Entry → Bytes × List MeasuredFile
fed_by entries = the_ok (measure_entries test_crates test_files entries) ([], [])

measure_succeeds : is_ok (measure_entries test_crates test_files one_file) ≡ true
unfolding measure_entries
measure_succeeds = refl

measure_succeeds_again : is_ok (measure_entries test_crates test_files same_file) ≡ true
unfolding measure_entries
measure_succeeds_again = refl

fed_same : (fed_by one_file).0 ≡ (fed_by same_file).0
unfolding measure_entries
fed_same = refl

measure_entries-injective_example : map named (fed_by one_file).1 ≡ map named (fed_by same_file).1
measure_entries-injective_example =
    measure_entries-injective test_crates test_files test_files one_file same_file
      (fed_by one_file).0 (fed_by same_file).0 (fed_by one_file).1 (fed_by same_file).1 sha_laws
      (omega arith, tt) (omega arith, tt) (ok_lem _ ([], []) measure_succeeds)
      (ok_lem _ ([], []) measure_succeeds_again) fed_same

abbrev found_files : List FilePath
found_files = the_ok (collect_regular_files test_files ((b's' ∷ []) ∷ []) 3 ((b's' ∷ []) ∷ [])) []

walk_succeeds :
    is_ok (collect_regular_files test_files ((b's' ∷ []) ∷ []) 3 ((b's' ∷ []) ∷ [])) ≡ true
unfolding collect_regular_files child_paths visit_all visit visit_kind sort
walk_succeeds = refl

collect_regular_files-Measurable_example :
    All (Measurable test_files ((b's' ∷ []) ∷ [])) found_files
collect_regular_files-Measurable_example =
    collect_regular_files-Measurable test_files ((b's' ∷ []) ∷ []) 3 ((b's' ∷ []) ∷ []) found_files
      (ok_lem _ [] walk_succeeds)

abbrev output : Text
output = lit "- Device 0:\n  UEID: 12\nGPU Attestation is Successful\n"

parse_gpu_attestation-devices_example :
    length (parse_gpu_attestation output).devices ≡ count_headers (lines output)
parse_gpu_attestation-devices_example = parse_gpu_attestation-devices output

abbrev verdict_line : Text
verdict_line = b'S' ∷ b'u' ∷ b'c' ∷ b'c' ∷ b'e' ∷ b's' ∷ b's' ∷ b'f' ∷ b'u' ∷ b'l' ∷ []

verdict_plain : IsPlainLine verdict_line
unfolding trim equal strip_prefix split_once lit
verdict_plain = record { some_left = refl; no_header = refl; no_colon = refl }

blank_after : All (λ blank. equal (trim blank) [] ≡ true) ((b' ' ∷ []) ∷ [])
unfolding trim equal
blank_after = (refl, tt)

finish-last_example :
    ((finish (parse_lines start (verdict_line ∷ (b' ' ∷ []) ∷ []))).summary
      ≡ some (trim verdict_line))
    × ((finish (parse_lines start (verdict_line ∷ (b' ' ∷ []) ∷ []))).successful
        ≡ contains (to_ascii_lowercase (trim verdict_line)) (lit "successful"))
finish-last_example = finish-last [] ((b' ' ∷ []) ∷ []) verdict_line verdict_plain blank_after

civil_from_days-day_number_example :
    let (year, month, day) = civil_from_days (pos 19782) in
    (y : ℕ) × (year ≡ pos y)
    × IsDate y month day
    × (day_number y month day ≡ 19782 + day_number 1970 1 1)
civil_from_days-day_number_example = civil_from_days-day_number 19782

abbrev fresh : Recorder
fresh = new_recorder none 5 0

one_begun :
    Reachable
      ((begin_request (b'/' ∷ []) (0, fresh)).0, (begin_request (b'/' ∷ []) (0, fresh)).1 ∷ [])
unfolding new_recorder
one_begun = begins (b'/' ∷ []) 0 [] fresh [] (arrive none 5 0 [] idle) refl (omega arith)

Reachable-counted_example :
    (begin_request (b'/' ∷ []) (0, fresh)).0
    ≡ counted_in ((begin_request (b'/' ∷ []) (0, fresh)).1 ∷ [])
Reachable-counted_example = Reachable-counted _ one_begun
