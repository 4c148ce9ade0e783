-- ===== src/Civil.antt =====
-- Calendar dates as days since 1970-01-01: `SplitMicros` and `CivilFromDays` of
-- src/oracle_encoding.cpp, `DaysFromCivil` of src/oracle_decoding.cpp. The int64_t values are in ℤ;
-- the uint32_t ones are numbers, and those of CivilFromDays never wrap (`Civil.Era`).
pub mod Era
pub mod RoundTrip
pub mod Calendar
use oraduck.Prelude.Int.{
  ℤ, pos, negsuc, ◌+ℤ◌, ◌-ℤ◌, ◌*ℤ◌, div_trunc, mod_trunc, to_u32, is_negative,
}
use oraduck.Prelude.{
  ℕ, zero, suc, ◌+◌, ◌-◌, ◌*◌, ◌/◌, ◌%◌, ◌^◌, ◌≤◌, ◌<◌, ◌≡◌, refl, sym, ap, ◌∙◌, ◌≢◌, ◌↔◌, ◌⊎◌, inl,
  inr, Bool, true, false, not, ◌&&◌, ◌||◌, Option, none, some, List, [], ◌∷◌, ◌++◌, map, reverse,
  arith, ltb, leb, ◌==◌, if◌then◌else◌, ltb→lt, lt→ltb, ==_iff, ==_refl, Bool-cases, Option-cases,
  length, get_or, take, drop, replicate, is_empty, count_if, All, length-append, count_if-append,
  length-replicate, length-map, All-append, AllPairs, All-map, Bytes, codes, bytes_eq, is_upper,
  is_lower, is_alpha, is_digit, is_alnum, is_space, to_upper, to_lower, has_byte, starts_with,
  has_text, last_byte, but_last, to_decimal, bytes_eq→eq, bytes_eq_refl, all_below, all_below_sound,
  Result, ok, err, ◌>>=◌, ◌>>◌, throw_if, >>=-eq-ok, ok_inj,
}

abbrev pub micros_per_second : ℕ
micros_per_second = 1000000

abbrev pub micros_per_day : ℕ
micros_per_day = 86400000000

-- SplitMicros: the days, and the microseconds of the day.
unfoldable pub split_micros : ℤ → ℤ × ℤ
unfolding div_trunc mod_trunc ◌+ℤ◌ ◌-ℤ◌
split_micros micros =
    let days = div_trunc micros micros_per_day in
    let micros_of_day = mod_trunc micros micros_per_day in
    if is_negative micros_of_day
    then (days -ℤ pos 1, micros_of_day +ℤ pos micros_per_day)
    else (days, micros_of_day)

pub record CivilDate : Type 0 where
  pub year : ℤ
  pub month : ℕ
  pub day : ℕ

-- The day of the era, 400 years of the calendar, and the era: a division that rounds down.
pub era_of : ℤ → ℕ → ℤ
unfolding div_trunc ◌-ℤ◌
era_of z length_of_era =
    div_trunc (if is_negative z then z -ℤ pos (length_of_era - 1) else z) length_of_era

pub rest_of_era : ℤ → ℕ → ℕ
unfolding era_of to_u32 ◌*ℤ◌
rest_of_era z length_of_era = to_u32 (z -ℤ era_of z length_of_era *ℤ length_of_era)

-- yoe
pub year_of_era : ℕ → ℕ
year_of_era doe = (doe - doe / 1460 + doe / 36524 - doe / 146096) / 365

-- The days of an era before a year of it.
pub days_before : ℕ → ℕ
days_before yoe = 365 * yoe + yoe / 4 - yoe / 100

-- mp: months are counted from March.
pub month_of_year : ℕ → ℕ
month_of_year doy = (5 * doy + 2) / 153

-- The days of a year, from March, before a month.
pub days_before_month : ℕ → ℕ
days_before_month mp = (153 * mp + 2) / 5

unfoldable pub civil_from_days : ℤ → CivilDate
civil_from_days days =
    let z = days +ℤ pos 719468 in
    let era = era_of z 146097 in
    let doe = rest_of_era z 146097 in
    let yoe = year_of_era doe in
    let doy = doe - days_before yoe in
    let mp = month_of_year doy in
    let month = if ltb mp 10 then mp + 3 else mp - 9 in
    record {
      year = pos yoe +ℤ era *ℤ 400 +ℤ pos (if leb month 2 then 1 else 0);
      month = month;
      day = doy - days_before_month mp + 1;
    }

-- `doy` of DaysFromCivil, in uint32_t arithmetic.
pub day_of_year : ℕ → ℕ → ℕ
unfolding days_before_month
day_of_year month day =
    (days_before_month (if ltb 2 month then month - 3 else month + 9) + day + 2 ^ 32 - 1) % 2 ^ 32

unfoldable pub days_from_civil : ℤ → ℕ → ℕ → ℤ
days_from_civil year month day =
    let y = year -ℤ pos (if leb month 2 then 1 else 0) in
    let era = era_of y 400 in
    let yoe = rest_of_era y 400 in
    let doe = (days_before yoe + day_of_year month day) % 2 ^ 32 in
    era *ℤ 146097 +ℤ pos doe -ℤ pos 719468

-- Opens all that the two conversions call.
unfoldable pub conversions : Unit {0}
unfolding split_micros civil_from_days days_from_civil rest_of_era year_of_era days_before
    month_of_year days_before_month day_of_year ◌+ℤ◌ ◌-ℤ◌ ◌*ℤ◌
conversions = tt
