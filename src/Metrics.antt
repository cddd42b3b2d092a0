-- ===== src/Metrics.antt =====
-- src/metrics.rs: the timing record of a request, in debug builds, and the JSON file made of it.
-- Durations are numbers of microseconds; their sums are taken to stay below 2 ^ 63, beyond which
-- the debug build would panic.
pub mod Sums
pub mod Inflight
pub mod Scope
pub mod Isolation
pub mod FileName
pub mod Json
use tex_attestation_server.Prelude.{
  ℕ, suc, ◌+◌, ◌-◌, ◌/◌, ◌%◌, ◌^◌, max, Bool, true, false, ◌&&◌, ◌||◌, Option, none, some, List, [],
  ◌∷◌, ◌++◌, ltb, leb, ◌==◌, if◌then◌else◌, length,
}
use tex_attestation_server.Prelude.Int.{ℤ, pos, negsuc, ◌-ℤ◌, unsigned_abs}
use tex_attestation_server.Text.{Text, lit, equal}
use tex_attestation_server.Text.Search.{starts_with, before}
use tex_attestation_server.Text.Decimal.{decimal, hexadecimal, pad}

abbrev pub Item : Type 0
Item = Text × ℕ

-- `Buckets`: names with their sums, in the order of insertion.
abbrev pub Buckets : Type 0
Buckets = List Item

unfoldable pub add : Text → ℕ → Buckets → Buckets
add name us [] = (name, us) ∷ []
add name us ((n, v) ∷ rest) = if equal n name then (n, v + us) ∷ rest else (n, v) ∷ add name us rest

unfoldable pub get : Text → Buckets → Option ℕ
get name [] = none
get name ((n, v) ∷ rest) = if equal n name then some v else get name rest

unfoldable pub total : Buckets → ℕ
total [] = 0
total ((n, v) ∷ rest) = v + total rest

pub record Recorder : Type 0 where
  pub started_at : Option ℕ
  pub start : ℕ
  pub route : Text
  pub warm : Bool
  pub concurrency : ℕ
  pub counted : Bool
  pub handler_entered : Bool
  pub stages : Buckets
  pub units : Buckets
  pub counters : Buckets

-- `Recorder::new`, at a time, with the number of requests in flight.
unfoldable pub new_recorder : Option ℕ → ℕ → ℕ → Recorder
new_recorder now instant inflight = record {
  started_at = now;
  start = instant;
  route = [];
  warm = true;
  concurrency = inflight;
  counted = false;
  handler_entered = false;
  stages = [];
  units = [];
  counters = [];
}

pub data Kind : Type 0 where
  stage unit : Kind

-- `Span::finish`: the span is consumed, so it records once.
unfoldable pub finish_span : Kind → Text → ℕ → ℕ → Recorder → Recorder
finish_span stage name started now rec = record rec { stages = add name (now - started) rec.stages }
finish_span unit name started now rec = record rec { units = add name (now - started) rec.units }

unfoldable pub count : Text → ℕ → Recorder → Recorder
count name value rec = record rec { counters = add name value rec.counters }

unfoldable pub mark_cold : Recorder → Recorder
mark_cold rec = record rec { warm = false }

unfoldable pub enter_handler : ℕ → Recorder → Recorder
enter_handler now rec = if rec.handler_entered then rec else record rec {
  handler_entered = true;
  stages = add (lit "http_body_read_us") (now - rec.start) rec.stages;
}

-- The path of a URI.
unfoldable pub route_of : Text → Text
route_of uri = before b'?' uri

-- `on_request`, on the counter of requests in flight and the recorder.
unfoldable pub begin_request : Text → ℕ × Recorder → ℕ × Recorder
begin_request uri (inflight, rec) =
    let now_inflight = (inflight + 1) % 2 ^ 64 in
    (
      now_inflight,
      record rec {
        counted = true;
        concurrency = now_inflight;
        route = elim rec.route [ [] ↦ route_of uri | _ ∷ _ ↦ rec.route ];
      },
    )

-- `Drop for Recorder`
unfoldable pub drop_recorder : ℕ → Recorder → ℕ
drop_recorder inflight rec = if rec.counted then (inflight + 2 ^ 64 - 1) % 2 ^ 64 else inflight

unfoldable pub unattributed : Recorder → ℕ → ℤ
unattributed rec e2e_us = pos e2e_us -ℤ pos (total rec.stages)

unfoldable pub tolerance : ℕ → ℕ
tolerance e2e_us = max 1000 (e2e_us / 20)

-- The sum of the units of the TPM programs.
unfoldable pub tpm_total : Buckets → ℕ
tpm_total [] = 0
tpm_total ((n, v) ∷ rest) = (if starts_with n (lit "tpm2_") then v else 0) + tpm_total rest

-- A part is compared only where all of the values were measured.
unfoldable pub folder_ok : ℕ → Option ℕ → Option ℕ → Option ℕ → Bool
folder_ok tol (some parent) (some a) (some b) = leb (a + b) (parent + max tol (parent / 20))
folder_ok tol _ _ _ = true

unfoldable pub report_ok : ℕ → Option ℕ → Option ℕ → Bool
report_ok tol (some parent) (some child) = leb child (parent + tol)
report_ok tol _ _ = true

-- `saturating_add`
abbrev pub saturating_add : ℕ → ℕ → ℕ
saturating_add a b = if ltb (a + b) (2 ^ 64) then a + b else 2 ^ 64 - 1

unfoldable pub checksum_ok : Recorder → ℕ → ℤ → ℕ → Bool
checksum_ok rec e2e_us unattr sum_units =
    let tol = tolerance e2e_us in
    leb (unsigned_abs unattr) tol
    && (folder_ok tol (get (lit "measure_folder_us") rec.units)
          (get (lit "collect_regular_files_us") rec.units)
          (get (lit "read_and_hash_loop_us") rec.units)
        && (report_ok tol (get (lit "tdx_report_us") rec.stages)
              (get (lit "ioctl_get_report_us") rec.units)
            && (leb (tpm_total rec.units) (saturating_add e2e_us tol)
                && leb sum_units (saturating_add e2e_us tol))))

-- `escape`, on the bytes of a string: all but ASCII is copied.
unfoldable pub escape_byte : ℕ → Text
escape_byte c =
    if c == b'"'
    then b'\\' ∷ b'"' ∷ []
    else if c == b'\\'
    then b'\\' ∷ b'\\' ∷ []
    else if c == b'\n'
    then b'\\' ∷ b'n' ∷ []
    else if c == b'\r'
    then b'\\' ∷ b'r' ∷ []
    else if c == b'\t'
    then b'\\' ∷ b't' ∷ []
    else if ltb c 0x20
    then b'\\' ∷ b'u' ∷ pad 4 (hexadecimal c)
    else c ∷ []

unfoldable pub escape : Text → Text
escape [] = []
escape (c ∷ s) = escape_byte c ++ escape s

abbrev pub ending : Bool → Text
ending true = b',' ∷ b'\n' ∷ []
ending false = b'\n' ∷ []

unfoldable pub field_str : Text → Text → Bool → Text
field_str key value comma =
    lit "  \"" ++ (key ++ (lit "\": \"" ++ (escape value ++ (b'"' ∷ ending comma))))

-- `push_field_u64` and `push_field_bool`, with the value as text
unfoldable pub field_plain : Text → Text → Bool → Text
field_plain key value comma = lit "  \"" ++ (key ++ (lit "\": " ++ (value ++ ending comma)))

abbrev pub bool_text : Bool → Text
bool_text true = lit "true"
bool_text false = lit "false"

unfoldable pub int_text : ℤ → Text
int_text (pos n) = decimal n
int_text (negsuc n) = b'-' ∷ decimal (suc n)

-- `    "name": value`
unfoldable pub item_text : Item → Text
item_text (name, value) = lit "    \"" ++ (escape name ++ (lit "\": " ++ decimal value))

-- The lines of `push_map`, where the last one has no comma.
unfoldable pub map_lines : Buckets → Text
map_lines [] = []
map_lines (item ∷ []) = item_text item ++ b'\n' ∷ []
map_lines (item ∷ next ∷ rest) = item_text item ++ (b',' ∷ b'\n' ∷ map_lines (next ∷ rest))

unfoldable pub push_map : Text → Buckets → Bool → Text
push_map key [] comma = lit "  \"" ++ (key ++ (lit "\": " ++ (lit "{}" ++ ending comma)))
push_map key (item ∷ rest) comma =
    lit "  \""
    ++ (key
        ++ (lit "\": " ++ (lit "{\n" ++ (map_lines (item ∷ rest) ++ (lit "  }" ++ ending comma)))))

-- The items of `push_units`, each but the first behind a comma.
unfoldable pub unit_items : Bool → Buckets → Text
unit_items first [] = []
unit_items first (item ∷ rest) =
    (if first then [] else b',' ∷ b'\n' ∷ []) ++ (item_text item ++ unit_items false rest)

unfoldable pub push_units : Recorder → Text
push_units rec = elim (rec.units ++ rec.counters) [
  | [] ↦ lit "  \"units\": {},\n"
  | item ∷ rest ↦ lit "  \"units\": {\n" ++ (unit_items true (item ∷ rest) ++ lit "\n  },\n")
]

unfoldable pub render : Recorder → ℕ → ℕ → Text → Text
render rec status e2e_us ts =
    let unattr = unattributed rec e2e_us in
    lit "{\n"
    ++ (field_str (lit "ts") ts true
        ++ (field_str (lit "route") rec.route true
            ++ (field_plain (lit "http_status") (decimal status) true
                ++ (field_plain (lit "warm") (bool_text rec.warm) true
                    ++ (field_plain (lit "concurrency") (decimal rec.concurrency) true
                        ++ (field_plain (lit "e2e_server_us") (decimal e2e_us) true
                            ++ (lit "  \"e2e_client_us\": null,\n"
                                ++ (push_map (lit "stages") rec.stages true
                                    ++ (push_units rec
                                        ++ (lit "  \"unattributed_us\": "
                                            ++ (int_text unattr
                                                ++ (lit ",\n"
                                                    ++ (lit "  \"checksum_ok\": "
                                                        ++ (bool_text (
                                                            checksum_ok rec e2e_us unattr
                                                            (total rec.units))
                                                            ++ lit "\n}\n"))))))))))))))
