-- ===== src/Clock.antt =====
-- The UTC timestamps of src/tpm.rs, src/logging.rs and src/metrics.rs. The three files have the
-- same `civil_from_days`, on `i64`; a number of seconds is a `u64` that is cast to `i64`.
pub mod Calendar
pub mod Civil
pub mod Stamp
use tex_attestation_server.Prelude.{
  ℕ, ◌+◌, ◌-◌, ◌*◌, ◌/◌, ◌%◌, ◌^◌, Option, none, some, List, [], ◌∷◌, ◌++◌, ltb, leb, if◌then◌else◌,
}
use tex_attestation_server.Prelude.Int.{
  ℤ, pos, negsuc, pos_part, ◌+ℤ◌, ◌-ℤ◌, scale, div_trunc, is_nonneg,
}
use tex_attestation_server.Text.{Text}
use tex_attestation_server.Text.Decimal.{decimal, pad}

unfoldable pub civil_from_days : ℤ → ℤ × ℕ × ℕ
civil_from_days days =
    let z = days +ℤ pos 719468 in
    let era = div_trunc (if is_nonneg z then z else z -ℤ pos 146096) 146097 in
    let doe = pos_part (z -ℤ scale era 146097) in
    let yoe = (doe - doe / 1460 + doe / 36524 - doe / 146096) / 365 in
    let year = pos yoe +ℤ scale era 400 in
    let doy = doe - (365 * yoe + yoe / 4 - yoe / 100) in
    let mp = (5 * doy + 2) / 153 in
    let day = doy - (153 * mp + 2) / 5 + 1 in
    let month = if ltb mp 10 then mp + 3 else mp - 9 in
    (if leb month 2 then year +ℤ pos 1 else year, month, day)

-- `x as i64` for a `u64`
unfoldable pub as_i64 : ℕ → ℤ
as_i64 v = if ltb v (2 ^ 63) then pos v else negsuc (2 ^ 64 - v - 1)

-- `div_euclid` and `rem_euclid` by a positive number
unfoldable pub div_euclid : ℤ → ℕ → ℤ
div_euclid (pos n) k = pos (n / k)
div_euclid (negsuc n) k = negsuc (n / k)

unfoldable pub rem_euclid : ℤ → ℕ → ℕ
rem_euclid (pos n) k = n % k
rem_euclid (negsuc n) k = k - 1 - n % k

-- `{year:04}`
unfoldable pub year_text : ℤ → Text
year_text (pos n) = pad 4 (decimal n)
year_text (negsuc n) = b'-' ∷ pad 3 (decimal (n + 1))

-- `{:02}`
unfoldable pub two : ℕ → Text
two n = pad 2 (decimal n)

-- The characters between the parts of a timestamp.
pub record Separators : Type 0 where
  pub dates : Text
  pub middle : Text
  pub times : Text
  pub tail : Text

unfoldable pub stamp_of : Separators → ℤ → Text
unfolding year_text
stamp_of sep seconds =
    let days = div_euclid seconds 86400 in
    let sod = rem_euclid seconds 86400 in
    let (year, month, day) = civil_from_days days in
    year_text year
    ++ (sep.dates
        ++ (two month
            ++ (sep.dates
                ++ (two day
                    ++ (sep.middle
                        ++ (two (sod / 3600)
                            ++ (sep.times
                                ++ (two (sod % 3600 / 60)
                                    ++ (sep.times ++ (two (sod % 60) ++ sep.tail))))))))))

-- `duration_since(UNIX_EPOCH).map(..).unwrap_or(0)`
abbrev seconds_of : Option ℕ → ℤ
seconds_of none = pos 0
seconds_of (some s) = as_i64 s

abbrev sep : Text → Text → Text → Text → Separators
sep d m t e = record { dates = d; middle = m; times = t; tail = e }

-- `utc_timestamp` of src/tpm.rs: `YYYY.MM.DD HH:MM:SS`
unfoldable pub tpm_timestamp : Option ℕ → Text
unfolding stamp_of
tpm_timestamp now = stamp_of (sep (b'.' ∷ []) (b' ' ∷ []) (b':' ∷ []) []) (seconds_of now)

-- `utc_timestamp` of src/logging.rs: `YYYY-MM-DDTHH:MM:SSZ`
unfoldable pub log_timestamp : Option ℕ → Text
unfolding stamp_of
log_timestamp now = stamp_of (sep (b'-' ∷ []) (b'T' ∷ []) (b':' ∷ []) (b'Z' ∷ [])) (seconds_of now)

-- `timestamp` of src/metrics.rs: the same, and without separators
unfoldable pub metrics_timestamp : Option ℕ → Text × Text
unfolding stamp_of
metrics_timestamp at = (
  stamp_of (sep (b'-' ∷ []) (b'T' ∷ []) (b':' ∷ []) (b'Z' ∷ [])) (seconds_of at),
  stamp_of (sep [] (b'T' ∷ []) [] (b'Z' ∷ [])) (seconds_of at),
)
