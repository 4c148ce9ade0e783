-- ===== src/Civil/Calendar.antt =====
-- The days of the proleptic Gregorian calendar: civil_from_days undoes days_from_civil on each of them
-- and gives nothing else.
use oraduck.Prelude.Int.{ℤ, pos, negsuc, pos_part, neg_part, ◌+ℤ◌, ◌-ℤ◌, ◌*ℤ◌, int_laws}
use oraduck.Civil.{
  CivilDate, civil_from_days, days_from_civil, era_of, rest_of_era, year_of_era, days_before,
  month_of_year, days_before_month, day_of_year,
}
use oraduck.Civil.Era.{
  year_of_era_lem, year_of_era-days_before, era_400, era_146097, era_of-146097, rest_of-146097,
  IsLeap,
}
use oraduck.Civil.RoundTrip.{
  calendar_month, early, shifted, doe, yoe, doy, mp, civil_year, civil_month, civil_day,
  days_from_era,
}
use mathlib.Core.Path.{subst}
use native.Mathlib.Decide.{dec_le}
use oraduck.Prelude.{
  ℕ, ◌+◌, ◌-◌, ◌%◌, ◌≤◌, ◌<◌, ◌≡◌, refl, sym, ap, ◌∙◌, ◌≢◌, ◌⊎◌, inl, inr, Bool, true, false, not,
  ◌&&◌, ◌||◌, arith, ltb, ◌==◌, if◌then◌else◌,
}

-- The remainder of a floor division.
unfoldable pub mod_400 : ℤ → ℕ
mod_400 (pos n) = n % 400
mod_400 (negsuc n) = 399 - n % 400

-- A year is a leap year of the proleptic Gregorian calendar.
unfoldable pub is_leap_year : ℤ → Bool
unfolding mod_400
is_leap_year y = let r = mod_400 y in (r % 4 == 0) && (not (r % 100 == 0) || (r == 0))

unfoldable pub days_in_month : ℤ → ℕ → ℕ
days_in_month y m =
    if m == 2
    then (if is_leap_year y then 29 else 28)
    else if (m == 4) || (m == 6) || (m == 9) || (m == 11)
    then 30
    else 31

-- A date of the calendar.
pub record IsDate (y : ℤ) (m d : ℕ) : Type 0 where
  pub month_in : (1 ≤ m) × (m ≤ 12)
  pub day_in : (1 ≤ d) × (d ≤ days_in_month y m)

-- Months counted from March.
abbrev month_from_march : ℕ → ℕ
month_from_march m = if ltb 2 m then m - 3 else m + 9

mod_400-era :
    (era : ℤ) (r e : ℕ) → r < 400 → e ≤ 1 → mod_400 (pos r +ℤ era *ℤ 400 +ℤ pos e) ≡ (r + e) % 400
unfolding mod_400 ◌+ℤ◌ ◌*ℤ◌
mod_400-era (pos n) r e h k = ground arith
mod_400-era (negsuc n) r e h k = ground arith

IsLeap-february :
    (r m : ℕ) (era : ℤ)
    → r < 400
    → (is_leap_year (pos r +ℤ era *ℤ 400 +ℤ pos (early m)) ≡ false) ⊎ (m ≢ 2) ⊎ IsLeap (r + 1)
unfolding is_leap_year
IsLeap-february r m era h = ground (arith, mod_400-era era r (early m) h)

-- What a date says of its day of the year, counted from March.
day_of_year-range :
    (r m d : ℕ) (era : ℤ)
    → r < 400
    → IsDate (pos r +ℤ era *ℤ 400 +ℤ pos (early m)) m d
    → (day_of_year m d ≡ days_before_month (month_from_march m) + (d - 1))
      × (day_of_year m d ≤ 365)
      × ((day_of_year m d ≤ 364) ⊎ IsLeap (r + 1))
unfolding day_of_year days_before_month days_in_month
day_of_year-range r m d era h v = ground (arith, IsLeap-february r m era h)

month_inverse :
    (y : ℤ) (m d : ℕ)
    → IsDate y m d
    → (month_of_year (days_before_month (month_from_march m) + (d - 1)) ≡ month_from_march m)
      × (calendar_month (month_from_march m) ≡ m)
unfolding month_of_year days_before_month days_in_month
month_inverse y m d v = ground arith

civil_path :
    (c : CivilDate) (y : ℤ) (m d : ℕ)
    → c.year ≡ y
    → c.month ≡ m
    → c.day ≡ d
    → c ≡ record { year = y; month = m; day = d }
civil_path c y m d p q r = λ i. record { year = p i; month = q i; day = r i }

era_last : (r x : ℕ) → r < 400 → x ≤ 365 → days_before r + x < 146097
unfolding days_before
era_last r x h k = omega arith

unshift : (a : ℤ) (n : ℕ) → a +ℤ pos n -ℤ pos 719468 +ℤ pos 719468 ≡ a +ℤ pos n
unshift a n = omega int_laws

cancel_days : (a b : ℕ) → a + b - a ≡ b
cancel_days a b = omega arith

-- The date on day number E * 146097 + (the days of the era before it) - 719468.
civil_of_era :
    (era : ℤ) (r m d : ℕ)
    → r < 400
    → IsDate (pos r +ℤ era *ℤ 400 +ℤ pos (early m)) m d
    → civil_from_days (era *ℤ 146097 +ℤ pos (days_before r + day_of_year m d) -ℤ pos 719468)
      ≡ record { year = pos r +ℤ era *ℤ 400 +ℤ pos (early m); month = m; day = d }
civil_of_era era r m d h v =
    civil_path (civil_from_days z) _ m d (civil_year z ∙ rw (month_is, yoe_is, shifted_is, is_era))
      month_is (civil_day z ∙ rw (mp_is, doy_is) (omega (arith, range.0, v.day_in)))
  where
    range :
        (day_of_year m d ≡ days_before_month (month_from_march m) + (d - 1))
        × (day_of_year m d ≤ 365)
        × ((day_of_year m d ≤ 364) ⊎ IsLeap (r + 1))
    range = day_of_year-range r m d era h v

    z : ℤ
    z = era *ℤ 146097 +ℤ pos (days_before r + day_of_year m d) -ℤ pos 719468

    shifted_is : shifted z ≡ era *ℤ 146097 +ℤ pos (days_before r + day_of_year m d)
    shifted_is = unshift (era *ℤ 146097) (days_before r + day_of_year m d)

    fits : days_before r + day_of_year m d < 146097
    fits = era_last r (day_of_year m d) h range.1

    is_era : era_of (era *ℤ 146097 +ℤ pos (days_before r + day_of_year m d)) 146097 ≡ era
    is_era = era_of-146097 era _ fits

    doe_is : doe z ≡ days_before r + day_of_year m d
    doe_is = rw shifted_is (rest_of-146097 era _ fits)

    yoe_is : yoe z ≡ r
    yoe_is = rw doe_is (year_of_era-days_before r (day_of_year m d) h range.1 range.2)

    doy_is : doy z ≡ day_of_year m d
    doy_is = rw (yoe_is, doe_is) (cancel_days (days_before r) (day_of_year m d))

    mp_is : mp z ≡ month_from_march m
    mp_is = rw (doy_is, range.0) (month_inverse _ m d v).0

    month_is : (civil_from_days z).month ≡ m
    month_is = civil_month z ∙ rw mp_is (month_inverse _ m d v).1

regroup : (y a : ℤ) (r e : ℕ) → y -ℤ pos e ≡ a +ℤ pos r → pos r +ℤ a +ℤ pos e ≡ y
regroup y a r e h = omega (int_laws, ap pos_part h, ap neg_part h)

-- On every date of the proleptic Gregorian calendar, before and after year 0, CivilFromDays finds the
-- date again from its day number.
pub civil_from_days-days_from_civil :
    (y : ℤ) (m d : ℕ)
    → IsDate y m d
    → civil_from_days (days_from_civil y m d) ≡ record { year = y; month = m; day = d }
civil_from_days-days_from_civil y m d v =
    let era = era_of y' 400 in
    let r = rest_of_era y' 400 in
    let e = era_400 y' in
    let v' = subst (λ x. IsDate x m d) (sym (whole e.1)) v in
    let range = day_of_year-range r m d era e.0 v' in
    subst (λ x. civil_from_days (days_from_civil x m d) ≡ record { year = x; month = m; day = d })
      (whole e.1)
      (rw (days_from_era era r m d (day_of_year m d) e.0 range.1 refl)
        (civil_of_era era r m d e.0 v'))
  where
    y' : ℤ
    y' = y -ℤ pos (early m)

    whole :
        y' ≡ era_of y' 400 *ℤ 400 +ℤ pos (rest_of_era y' 400)
        → pos (rest_of_era y' 400) +ℤ era_of y' 400 *ℤ 400 +ℤ pos (early m) ≡ y
    whole e = regroup y (era_of y' 400 *ℤ 400) (rest_of_era y' 400) (early m) e

last_day-IsLeap :
    (x : ℕ) → x < 146097 → x - days_before (year_of_era x) ≡ 365 → IsLeap (year_of_era x + 1)
unfolding year_of_era days_before
last_day-IsLeap x h e = ground arith

leap_converse :
    (r m : ℕ) (era : ℤ)
    → r < 400
    → m ≡ 2
    → IsLeap (r + 1)
    → is_leap_year (pos r +ℤ era *ℤ 400 +ℤ pos (early m)) ≡ true
unfolding is_leap_year
leap_converse r m era h e l = ground (arith, mod_400-era era r (early m) h)

february :
    (x m : ℕ) (era : ℤ)
    → x < 146097
    → m ≡ 2
    → (x - days_before (year_of_era x) ≤ 364)
      ⊎ (is_leap_year (pos (year_of_era x) +ℤ era *ℤ 400 +ℤ pos (early m)) ≡ true)
february x m era h e =
    let y = year_of_era_lem x h in
    elim (dec_le (x - days_before (year_of_era x)) 364) [
      | yes p ↦ inl p
      | no n ↦
          inr (leap_converse (year_of_era x) m era y.0 e (last_day-IsLeap x h (omega (arith, y.2))))
    ]

IsDate-of_day :
    (y : ℤ) (d : ℕ)
    → d ≤ 365
    → (calendar_month (month_of_year d) ≡ 2 → (d ≤ 364) ⊎ (is_leap_year y ≡ true))
    → IsDate y (calendar_month (month_of_year d)) (d - days_before_month (month_of_year d) + 1)
unfolding month_of_year days_before_month days_in_month
IsDate-of_day y d h f = ground arith

-- The parts that CivilFromDays finds make a date.
IsDate-of_parts :
    (x : ℕ) (era : ℤ)
    → x < 146097
    → (let d = x - days_before (year_of_era x) in
        let m = calendar_month (month_of_year d) in
        IsDate
          (pos (year_of_era x) +ℤ era *ℤ 400 +ℤ pos (early m))
          m
          (d - days_before_month (month_of_year d) + 1))
IsDate-of_parts x era h =
    let d = x - days_before (year_of_era x) in
    let y = year_of_era_lem x h in
    let f = february x (calendar_month (month_of_year d)) era h in
    IsDate-of_day
      (pos (year_of_era x) +ℤ era *ℤ 400 +ℤ pos (early (calendar_month (month_of_year d)))) d y.2 f

-- For every day number, before and after 1970, CivilFromDays gives a month from 1 to 12 and a day that
-- this month of this year has.
pub civil_from_days-IsDate :
    (z : ℤ) → IsDate (civil_from_days z).year (civil_from_days z).month (civil_from_days z).day
civil_from_days-IsDate z =
    rw (civil_year, civil_month, civil_day)
      (IsDate-of_parts (doe z) (era_of (shifted z) 146097) (era_146097 (shifted z)).0)
