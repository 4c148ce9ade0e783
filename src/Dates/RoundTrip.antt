-- ===== src/Dates/RoundTrip.antt =====
-- What is written as a DATE or a TIMESTAMP is read back.
use oraduck.Prelude.Int.{
  ℤ, pos, negsuc, pos_part, neg_part, ◌+ℤ◌, ◌-ℤ◌, ◌*ℤ◌, ◌≤ℤ◌, div_trunc, mod_trunc, to_u32, to_u8,
  eq_ℤ,
}
use oraduck.Civil.{CivilDate, civil_from_days, split_micros, micros_per_second, micros_per_day}
use oraduck.Civil.RoundTrip.{days_from_civil-civil_from_days}
use oraduck.Civil.Calendar.{IsDate, days_in_month, civil_from_days-IsDate}
use oraduck.Dates.{
  year_out_of_range, date_bytes, encode_oracle_date, nanos_bytes, nanos_of, encode_oracle_timestamp,
  oracle_year, astronomical_year, bad_year, bad_fields, decode_fields, decode_oracle_date,
  nanos_value, add_nanos, decode_oracle_timestamp,
}
use mathlib.Core.Path.{subst}
use oraduck.Prelude.{
  ℕ, ◌*◌, ◌/◌, ◌%◌, ◌^◌, ◌≤◌, ◌<◌, ◌≡◌, refl, sym, ap, ◌∙◌, ◌⊎◌, inl, inr, true, false, none, some,
  ◌++◌, arith, leb, ◌==◌, ==_refl, Bool-cases, some_inj, length, Bytes,
}

-- SplitMicros divides by the microseconds of a day and rounds down, before 1970 too: the rest is at
-- least 0 and less than a day, and days and rest make the number again.
pub split_micros_lem :
    (m : ℤ)
    → (neg_part (split_micros m).1 ≡ 0)
      × (pos_part (split_micros m).1 < micros_per_day)
      × (m ≡ (split_micros m).0 *ℤ micros_per_day +ℤ (split_micros m).1)
unfolding split_micros ◌*ℤ◌
split_micros_lem (pos n) = ground arith
split_micros_lem (negsuc n) = ground arith

-- The bytes of a century and a year of the Christian era.
year_bytes :
    (y : ℤ)
    → year_out_of_range y ≡ false
    → oracle_year (to_u8 (div_trunc y 100 +ℤ pos 100)) (to_u8 (mod_trunc y 100 +ℤ pos 100)) ≡ y
unfolding year_out_of_range oracle_year div_trunc mod_trunc to_u8 ◌+ℤ◌ ◌-ℤ◌ ◌*ℤ◌
year_bytes (pos n) h = ground arith
year_bytes (negsuc n) h = ground arith

in_range-year :
    (y : ℤ) → year_out_of_range y ≡ false → (bad_year y ≡ false) × (astronomical_year y ≡ y)
unfolding year_out_of_range bad_year astronomical_year
in_range-year y h = ground arith

pub eq_ℤ_refl : (a : ℤ) → eq_ℤ a a ≡ true
eq_ℤ_refl a = ground arith

-- The time of day in seconds, from its three bytes.
abbrev hour_byte : ℕ → ℕ
hour_byte s = to_u8 (div_trunc (pos s) 3600 +ℤ pos 1)

abbrev minute_byte : ℕ → ℕ
minute_byte s = to_u8 (mod_trunc (div_trunc (pos s) 60) 60 +ℤ pos 1)

abbrev second_byte : ℕ → ℕ
second_byte s = to_u8 (mod_trunc (pos s) 60 +ℤ pos 1)

time_bytes :
    (s : ℕ)
    → s < 86400
    → ((pos (hour_byte s) -ℤ pos 1) *ℤ 60 +ℤ (pos (minute_byte s) -ℤ pos 1)) *ℤ 60
        +ℤ (pos (second_byte s) -ℤ pos 1)
      ≡ pos s
unfolding div_trunc mod_trunc to_u8 ◌+ℤ◌ ◌-ℤ◌ ◌*ℤ◌
time_bytes s h = ground arith

good_fields :
    (m d s : ℕ)
    → (1 ≤ m) × (m ≤ 12)
    → (1 ≤ d) × (d ≤ 31)
    → s < 86400
    → bad_fields m d
        (pos (hour_byte s) -ℤ pos 1)
        (pos (minute_byte s) -ℤ pos 1)
        (pos (second_byte s) -ℤ pos 1)
      ≡ false
unfolding bad_fields div_trunc mod_trunc to_u8 ◌+ℤ◌ ◌-ℤ◌
good_fields m d s hm hd h = ground arith

pub IsDate-31 : (y : ℤ) (m d : ℕ) → IsDate y m d → d ≤ 31
unfolding days_in_month
IsDate-31 y m d v = ground arith

div_pos : (n : ℕ) → div_trunc (pos n) micros_per_second ≡ pos (n / micros_per_second)
unfolding div_trunc
div_pos n = refl

nanos_of-pos : (k : ℕ) → nanos_of (pos k) ≡ k % micros_per_second * 1000
unfolding nanos_of mod_trunc to_u32
nanos_of-pos k = omega arith

-- A whole number of seconds and the rest.
seconds_and_rest :
    (d : ℤ) (k : ℕ)
    → d +ℤ pos (k / micros_per_second) *ℤ micros_per_second +ℤ pos (k % micros_per_second)
      ≡ d +ℤ pos k
unfolding ◌+ℤ◌ ◌*ℤ◌
seconds_and_rest d k = ground arith

add_none :
    (d : ℤ) (k : ℕ)
    → k % micros_per_second ≡ 0
    → d +ℤ pos (k / micros_per_second) *ℤ micros_per_second ≡ d +ℤ pos k
unfolding ◌+ℤ◌ ◌*ℤ◌
add_none d k h = ground arith

length-date_bytes : (c : CivilDate) (s : ℤ) → length (date_bytes c s) ≡ 7
unfolding date_bytes
length-date_bytes c s = refl

length-timestamp : (c : CivilDate) (s : ℤ) (n : ℕ) → length (date_bytes c s ++ nanos_bytes n) ≡ 11
unfolding date_bytes nanos_bytes
length-timestamp c s n = refl

decode-prefix :
    (c : CivilDate) (s : ℤ) (r : Bytes)
    → decode_oracle_date (date_bytes c s ++ r) ≡ decode_oracle_date (date_bytes c s)
unfolding decode_oracle_date date_bytes
decode-prefix c s r = refl

nanos_value-bytes :
    (c : CivilDate) (s : ℤ) (n : ℕ) → n < 2 ^ 32 → nanos_value (date_bytes c s ++ nanos_bytes n) ≡ n
unfolding nanos_value date_bytes nanos_bytes
nanos_value-bytes c s n h = omega arith

small_nanos : (k : ℕ) → leb 1000000000 (k % micros_per_second * 1000) ≡ false
small_nanos k = ground arith

nanos_thousand : (k : ℕ) → k % micros_per_second * 1000 / 1000 ≡ k % micros_per_second
nanos_thousand k = omega arith

no_nanos : (k : ℕ) → (k % micros_per_second * 1000 == 0) ≡ true → k % micros_per_second ≡ 0
no_nanos k h = ground arith

module _ (days : ℤ) where
  abbrev civil : CivilDate
  civil = civil_from_days days

  small : (civil.month % 256 ≡ civil.month) × (civil.day % 256 ≡ civil.day)
  small =
      let v = civil_from_days-IsDate days in
      omega (arith, v.month_in, v.day_in, IsDate-31 civil.year civil.month civil.day v)

  -- The seven bytes of a day and a second of it.
  decode-date_bytes :
      (s : ℕ)
      → year_out_of_range civil.year ≡ false
      → s < 86400
      → decode_oracle_date (date_bytes civil (pos s))
        ≡ some (days *ℤ micros_per_day +ℤ pos s *ℤ micros_per_second)
  unfolding decode_oracle_date date_bytes decode_fields
  decode-date_bytes s y h =
      let v = civil_from_days-IsDate days in
      let (good, same) = in_range-year civil.year y in
      rw (year_bytes civil.year y, small.0, small.1, good, same)
        (rw
          (
            good_fields civil.month civil.day s v.month_in (v.day_in.0, IsDate-31 _ _ _ v) h,
            days_from_civil-civil_from_days days,
            time_bytes s h,
          )
          (rw (eq_ℤ_refl civil.year, ==_refl civil.month, ==_refl civil.day)))

  encode_date-cases :
      (k : ℕ)
      → (encode_oracle_date days (pos k) ≡ none)
        ⊎ ((year_out_of_range civil.year ≡ false)
            × (encode_oracle_date days (pos k)
                ≡ some (date_bytes civil (pos (k / micros_per_second)))))
  unfolding encode_oracle_date
  encode_date-cases k = elim (Bool-cases (year_out_of_range civil.year)) [
    | inl out ↦ inl (rw out)
    | inr fits ↦ inr (fits, rw (fits, div_pos k))
  ]

  -- A DATE keeps the whole seconds.
  decode-encode_date :
      (k : ℕ) (bytes : Bytes)
      → k < micros_per_day
      → encode_oracle_date days (pos k) ≡ some bytes
      → decode_oracle_date bytes
        ≡ some (days *ℤ micros_per_day +ℤ pos (k / micros_per_second) *ℤ micros_per_second)
  decode-encode_date k bytes h e = elim (encode_date-cases k) [
    | inl out ↦ cc
    | inr (fits, is) ↦
        subst
          (λ b.
            decode_oracle_date b
            ≡ some (days *ℤ micros_per_day +ℤ pos (k / micros_per_second) *ℤ micros_per_second))
          (some_inj (sym is ∙ e)) (decode-date_bytes (k / micros_per_second) fits (omega arith))
  ]

  abbrev seconds_bytes : ℕ → Bytes
  seconds_bytes k = date_bytes civil (pos (k / micros_per_second))

  decode_whole :
      (k : ℕ)
      → k < micros_per_day
      → year_out_of_range civil.year ≡ false
      → k % micros_per_second ≡ 0
      → decode_oracle_timestamp (seconds_bytes k) ≡ some (days *ℤ micros_per_day +ℤ pos k)
  unfolding decode_oracle_timestamp add_nanos
  decode_whole k h fits z =
      rw (decode-date_bytes (k / micros_per_second) fits (omega arith), length-date_bytes)
        (ap some (add_none (days *ℤ micros_per_day) k z))

  decode_part :
      (k : ℕ)
      → k < micros_per_day
      → year_out_of_range civil.year ≡ false
      → decode_oracle_timestamp (seconds_bytes k ++ nanos_bytes (k % micros_per_second * 1000))
        ≡ some (days *ℤ micros_per_day +ℤ pos k)
  unfolding decode_oracle_timestamp add_nanos
  decode_part k h fits =
      rw
        (
          decode-prefix,
          decode-date_bytes (k / micros_per_second) fits (omega arith),
          length-timestamp,
          nanos_value-bytes civil (pos (k / micros_per_second)) (k % micros_per_second * 1000)
              (omega arith),
        )
        (rw (small_nanos k, ap (λ (n : ℕ). n) (nanos_thousand k))
          (ap some (seconds_and_rest (days *ℤ micros_per_day) k)))

  encode_timestamp-cases :
      (k : ℕ)
      → (encode_oracle_timestamp days (pos k) ≡ none)
        ⊎ ((year_out_of_range civil.year ≡ false)
            × (((k % micros_per_second ≡ 0)
                  × (encode_oracle_timestamp days (pos k) ≡ some (seconds_bytes k)))
                ⊎ (encode_oracle_timestamp days (pos k)
                    ≡ some (seconds_bytes k ++ nanos_bytes (k % micros_per_second * 1000)))))
  unfolding encode_oracle_timestamp
  encode_timestamp-cases k = elim (encode_date-cases k) [
    | inl out ↦ inl (rw (out, encode_oracle_timestamp))
    | inr (fits, is) ↦ inr (
      fits,
      elim (Bool-cases (k % micros_per_second * 1000 == 0)) [
        | inl whole ↦
            inl (no_nanos k whole, rw (is, encode_oracle_timestamp) (rw (nanos_of-pos k, whole)))
        | inr part ↦ inr (rw (is, encode_oracle_timestamp) (rw (nanos_of-pos k, part)))
      ],
    )
  ]

  -- A TIMESTAMP keeps the microseconds.
  decode-encode_timestamp :
      (k : ℕ) (bytes : Bytes)
      → k < micros_per_day
      → encode_oracle_timestamp days (pos k) ≡ some bytes
      → decode_oracle_timestamp bytes ≡ some (days *ℤ micros_per_day +ℤ pos k)
  decode-encode_timestamp k bytes h e = elim (encode_timestamp-cases k) [
    | inl out ↦ cc
    | inr (fits, inl (z, is)) ↦
        subst (λ b. decode_oracle_timestamp b ≡ some (days *ℤ micros_per_day +ℤ pos k))
          (some_inj (sym is ∙ e)) (decode_whole k h fits z)
    | inr (fits, inr is) ↦
        subst (λ b. decode_oracle_timestamp b ≡ some (days *ℤ micros_per_day +ℤ pos k))
          (some_inj (sym is ∙ e)) (decode_part k h fits)
  ]

to_nat : (z : ℤ) → neg_part z ≡ 0 → z ≡ pos (pos_part z)
to_nat (pos n) h = refl
to_nat (negsuc n) h = cc

decode-written_timestamp :
    (micros : ℤ) (bytes : Bytes)
    → encode_oracle_timestamp (split_micros micros).0 (split_micros micros).1 ≡ some bytes
    → decode_oracle_timestamp bytes ≡ some micros
decode-written_timestamp micros bytes e =
    let (day, rest) = split_micros micros in
    let (nonneg, fits, whole) = split_micros_lem micros in
    let r = to_nat rest nonneg in
    decode-encode_timestamp day (pos_part rest) bytes fits (rw r at e)
    ∙ ap some (sym (whole ∙ ap (λ x. day *ℤ micros_per_day +ℤ x) r))

in_range : (year : ℤ) → pos 1 ≤ℤ year → year ≤ℤ pos 9999 → year_out_of_range year ≡ false
unfolding year_out_of_range
in_range year low high = ground arith

encode_date-some :
    (days rest : ℤ)
    → year_out_of_range (civil_from_days days).year ≡ false
    → encode_oracle_date days rest
      ≡ some (date_bytes (civil_from_days days) (div_trunc rest micros_per_second))
unfolding encode_oracle_date
encode_date-some days rest fits = rw fits refl

encode_timestamp-some :
    (days rest : ℤ)
    → year_out_of_range (civil_from_days days).year ≡ false
    → (bytes : Bytes) × (encode_oracle_timestamp days rest ≡ some bytes)
unfolding encode_oracle_timestamp
encode_timestamp-some days rest fits =
    let e = encode_date-some days rest fits in
    elim (Bool-cases (nanos_of rest == 0)) [
      | inl whole ↦ rw (encode_oracle_timestamp, e, whole) (_, refl)
      | inr part ↦ rw (encode_oracle_timestamp, e, part) (_, refl)
    ]

-- For every number of microseconds since 1970 whose day is in the years 1 to 9999: its split is
-- written as a TIMESTAMP, and the bytes, 7 or 11 of them, decode to the same number of microseconds.
pub decode-encode_oracle_timestamp :
    (micros : ℤ)
    → pos 1 ≤ℤ (civil_from_days (split_micros micros).0).year
    → (civil_from_days (split_micros micros).0).year ≤ℤ pos 9999
    → (bytes : Bytes) × (encode_oracle_timestamp (split_micros micros).0 (split_micros micros).1
        ≡ some bytes)
      × (decode_oracle_timestamp bytes ≡ some micros)
decode-encode_oracle_timestamp micros low high =
    let (bytes, e) =
      encode_timestamp-some (split_micros micros).0 (split_micros micros).1
        (in_range (civil_from_days (split_micros micros).0).year low high) in
    (bytes, e, decode-written_timestamp micros bytes e)
