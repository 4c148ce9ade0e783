-- ===== src/Dates.antt =====
-- The DATE and TIMESTAMP formats of Oracle and their text: `EncodeOracleDate`,
-- `EncodeOracleTimestamp` and `FormatDateTimeText` of src/oracle_encoding.cpp, `DecodeOracleDate` and
-- `DecodeOracleTimestamp` of src/oracle_decoding.cpp. The int64_t values are in ℤ. A function that
-- fills a buffer returns its bytes, and `none` where it returns false or 0.
pub mod RoundTrip
pub mod Accepts
use oraduck.Prelude.Int.{
  ℤ, pos, negsuc, ◌+ℤ◌, ◌-ℤ◌, ◌*ℤ◌, div_trunc, mod_trunc, to_u32, to_u8, ltb_ℤ, eq_ℤ, is_negative,
}
use oraduck.Civil.{
  CivilDate, civil_from_days, days_from_civil, split_micros, micros_per_second, micros_per_day,
  conversions,
}
use oraduck.Prelude.{
  ℕ, zero, suc, ◌+◌, ◌-◌, ◌*◌, ◌/◌, ◌%◌, ◌^◌, ◌≤◌, ◌<◌, ◌≡◌, refl, sym, ap, ◌∙◌, ◌≢◌, ◌↔◌, ◌⊎◌, inl,
  inr, Bool, true, false, not, ◌&&◌, ◌||◌, Option, none, some, List, [], ◌∷◌, ◌++◌, map, reverse,
  arith, ltb, leb, ◌==◌, if◌then◌else◌, ltb→lt, lt→ltb, ==_iff, ==_refl, Bool-cases, Option-cases,
  length, get_or, take, drop, replicate, is_empty, count_if, All, length-append, count_if-append,
  length-replicate, length-map, All-append, AllPairs, All-map, Bytes, codes, bytes_eq, is_upper,
  is_lower, is_alpha, is_digit, is_alnum, is_space, to_upper, to_lower, has_byte, starts_with,
  has_text, last_byte, but_last, to_decimal, bytes_eq→eq, bytes_eq_refl, all_below, all_below_sound,
  Result, ok, err, ◌>>=◌, ◌>>◌, throw_if, >>=-eq-ok, ok_inj,
}

abbrev pub oracle_date_bytes : ℕ
oracle_date_bytes = 7

abbrev pub oracle_timestamp_bytes : ℕ
oracle_timestamp_bytes = 11

-- year < 1 || year > 9999
pub year_out_of_range : ℤ → Bool
year_out_of_range year = ltb_ℤ year (pos 1) || ltb_ℤ (pos 9999) year

pub date_bytes : CivilDate → ℤ → Bytes
date_bytes c seconds =
    to_u8 (div_trunc c.year 100 +ℤ pos 100)
    ∷ to_u8 (mod_trunc c.year 100 +ℤ pos 100)
    ∷ c.month % 256
    ∷ c.day % 256
    ∷ to_u8 (div_trunc seconds 3600 +ℤ pos 1)
    ∷ to_u8 (mod_trunc (div_trunc seconds 60) 60 +ℤ pos 1)
    ∷ to_u8 (mod_trunc seconds 60 +ℤ pos 1)
    ∷ []

pub encode_oracle_date : ℤ → ℤ → Option Bytes
encode_oracle_date days micros_of_day =
    let c = civil_from_days days in
    if year_out_of_range c.year
    then none
    else some (date_bytes c (div_trunc micros_of_day micros_per_second))

pub nanos_bytes : ℕ → Bytes
nanos_bytes nanos =
    (nanos / 2 ^ 24 % 256) ∷ (nanos / 2 ^ 16 % 256) ∷ (nanos / 2 ^ 8 % 256) ∷ (nanos % 256) ∷ []

pub nanos_of : ℤ → ℕ
nanos_of micros_of_day = to_u32 (mod_trunc micros_of_day micros_per_second) * 1000 % 2 ^ 32

pub encode_oracle_timestamp : ℤ → ℤ → Option Bytes
encode_oracle_timestamp days micros_of_day =
    let nanos = nanos_of micros_of_day in
    elim (encode_oracle_date days micros_of_day) [
      | none ↦ none
      | some date ↦ if nanos == 0 then some date else some (date ++ nanos_bytes nanos)
    ]

-- Two digits.
pub put2 : ℕ → Bytes
put2 v = ((b'0' + v / 10) % 256) ∷ ((b'0' + v % 10) % 256) ∷ []

pub format_date_time_text : ℤ → ℤ → Option Bytes
format_date_time_text days micros_of_day =
    let c = civil_from_days days in
    let seconds = to_u32 (div_trunc micros_of_day micros_per_second) in
    let micros = to_u32 (mod_trunc micros_of_day micros_per_second) in
    if year_out_of_range c.year
    then none
    else some (
        put2 (to_u32 (div_trunc c.year 100))
        ++ put2 (to_u32 (mod_trunc c.year 100))
        ++ (b'-' ∷ [])
        ++ put2 c.month
        ++ (b'-' ∷ [])
        ++ put2 c.day
        ++ (b' ' ∷ [])
        ++ put2 (seconds / 3600)
        ++ (b':' ∷ [])
        ++ put2 (seconds / 60 % 60)
        ++ (b':' ∷ [])
        ++ put2 (seconds % 60)
        ++ (b'.' ∷ [])
        ++ put2 (micros / 10000)
        ++ put2 (micros / 100 % 100)
        ++ put2 (micros % 100))

-- The fields of the seven bytes: `oracle_year`, and the year counted with a year 0.
pub oracle_year : ℕ → ℕ → ℤ
oracle_year century year = (pos century -ℤ pos 100) *ℤ 100 +ℤ (pos year -ℤ pos 100)

pub astronomical_year : ℤ → ℤ
astronomical_year y = if is_negative y then y +ℤ pos 1 else y

pub bad_year : ℤ → Bool
bad_year y = eq_ℤ y (pos 0) || ltb_ℤ y (negsuc 4711) || ltb_ℤ (pos 9999) y

-- The test of the month, the day and the time of day; the bytes of the time count from 1.
pub bad_fields : ℕ → ℕ → ℤ → ℤ → ℤ → Bool
bad_fields month day hour minute second =
    ltb month 1
    || ltb 12 month
    || ltb day 1
    || ltb 31 day
    || is_negative hour
    || ltb_ℤ (pos 23) hour
    || is_negative minute
    || ltb_ℤ (pos 59) minute
    || is_negative second
    || ltb_ℤ (pos 59) second

-- The decoder, on the bytes named one by one.
pub decode_fields : ℕ → ℕ → ℕ → ℕ → ℕ → ℕ → ℕ → Option ℤ
decode_fields b0 b1 month day b4 b5 b6 =
    let y = oracle_year b0 b1 in
    let year = astronomical_year y in
    let hour = pos b4 -ℤ pos 1 in
    let minute = pos b5 -ℤ pos 1 in
    let second = pos b6 -ℤ pos 1 in
    let days = days_from_civil year month day in
    let check = civil_from_days days in
    if bad_year y
    then none
    else if bad_fields month day hour minute second
    then none
    else if not (eq_ℤ check.year year) || not (check.month == month) || not (check.day == day)
    then none
    else some
        (days *ℤ micros_per_day +ℤ ((hour *ℤ 60 +ℤ minute) *ℤ 60 +ℤ second) *ℤ micros_per_second)

pub decode_oracle_date : Bytes → Option ℤ
decode_oracle_date bytes =
    decode_fields (get_or bytes 0 0) (get_or bytes 1 0) (get_or bytes 2 0) (get_or bytes 3 0)
      (get_or bytes 4 0) (get_or bytes 5 0) (get_or bytes 6 0)

pub nanos_value : Bytes → ℕ
nanos_value bytes =
    get_or bytes 7 0 * 2 ^ 24
    + get_or bytes 8 0 * 2 ^ 16
    + get_or bytes 9 0 * 2 ^ 8
    + get_or bytes 10 0

pub add_nanos : Bytes → ℤ → Option ℤ
add_nanos bytes value =
    let nanos = nanos_value bytes in
    if length bytes == oracle_timestamp_bytes
    then (if leb 1000000000 nanos then none else some (value +ℤ pos (nanos / 1000)))
    else some value

pub decode_oracle_timestamp : Bytes → Option ℤ
decode_oracle_timestamp bytes =
    if not (length bytes == oracle_date_bytes) && not (length bytes == oracle_timestamp_bytes)
    then none
    else elim (decode_oracle_date bytes) [ none ↦ none | some value ↦ add_nanos bytes value ]

-- Opens all that the codec calls.
unfoldable pub date_codec : Unit {0}
unfolding conversions year_out_of_range put2 encode_oracle_date encode_oracle_timestamp
    format_date_time_text date_bytes nanos_bytes nanos_of decode_oracle_date decode_oracle_timestamp
    decode_fields oracle_year astronomical_year bad_year bad_fields nanos_value add_nanos ◌+ℤ◌ ◌-ℤ◌
    ◌*ℤ◌ div_trunc mod_trunc to_u32 to_u8
date_codec = tt
