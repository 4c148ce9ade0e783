-- ===== src/Civil/RoundTrip.antt =====
-- civil_from_days and days_from_civil undo one another.
use oraduck.Prelude.Int.{ℤ, pos, ◌+ℤ◌, ◌-ℤ◌, ◌*ℤ◌, int_laws}
use oraduck.Civil.{
  civil_from_days, days_from_civil, era_of, rest_of_era, year_of_era, days_before, month_of_year,
  days_before_month, day_of_year,
}
use oraduck.Civil.Era.{year_of_era_lem, month_of_year_lem, era_146097, era_of-400, rest_of-400}
use native.Mathlib.Nat.{mod-eq_of_lt}
use oraduck.Prelude.{ℕ, ◌+◌, ◌-◌, ◌^◌, ◌≤◌, ◌<◌, ◌≡◌, refl, ◌∙◌, arith, ltb, leb, if◌then◌else◌}

-- The calendar month of a month counted from March.
abbrev pub calendar_month : ℕ → ℕ
calendar_month mp = if ltb mp 10 then mp + 3 else mp - 9

abbrev pub early : ℕ → ℕ
early month = if leb month 2 then 1 else 0

day_of_year-calendar_month :
    (mp d : ℕ)
    → mp < 12
    → d ≤ 30
    → day_of_year (calendar_month mp) (d + 1) ≡ days_before_month mp + d
unfolding day_of_year days_before_month
day_of_year-calendar_month mp d h k = ground arith

pub days_before-lt : (yoe doy : ℕ) → yoe < 400 → doy ≤ 365 → days_before yoe + doy < 2 ^ 32
unfolding days_before
days_before-lt yoe doy h k = omega arith

pub year_shift :
    (yoe e : ℕ) (era : ℤ) → pos yoe +ℤ era *ℤ 400 +ℤ pos e -ℤ pos e ≡ era *ℤ 400 +ℤ pos yoe
year_shift yoe e era = omega int_laws

-- DaysFromCivil on a year of an era and a month with its early months shifted to the next year.
pub days_from_era :
    (era : ℤ) (yoe month day doy : ℕ)
    → yoe < 400
    → doy ≤ 365
    → day_of_year month day ≡ doy
    → days_from_civil (pos yoe +ℤ era *ℤ 400 +ℤ pos (early month)) month day
      ≡ era *ℤ 146097 +ℤ pos (days_before yoe + doy) -ℤ pos 719468
unfolding days_from_civil
days_from_era era yoe month day doy h k e =
    rw (year_shift yoe (early month) era, era_of-400 era yoe h, rest_of-400 era yoe h, e)
      (rw (mod-eq_of_lt (days_before-lt yoe doy h k)))

back : (z : ℤ) (a b : ℤ) → z +ℤ pos 719468 ≡ a +ℤ b → a +ℤ b -ℤ pos 719468 ≡ z
back z a b e = rw (← e) (omega int_laws)

-- The parts of a day number, in the order in which CivilFromDays finds them.
module _ (z : ℤ) where
  abbrev pub shifted : ℤ
  shifted = z +ℤ pos 719468

  abbrev pub doe : ℕ
  doe = rest_of_era shifted 146097

  abbrev pub yoe : ℕ
  yoe = year_of_era doe

  abbrev pub doy : ℕ
  doy = doe - days_before yoe

  abbrev pub mp : ℕ
  mp = month_of_year doy

  pub civil_year :
      (civil_from_days z).year
      ≡ pos yoe +ℤ era_of shifted 146097 *ℤ 400 +ℤ pos (early (civil_from_days z).month)
  unfolding civil_from_days
  civil_year = refl

  pub civil_month : (civil_from_days z).month ≡ calendar_month mp
  unfolding civil_from_days
  civil_month = refl

  pub civil_day : (civil_from_days z).day ≡ doy - days_before_month mp + 1
  unfolding civil_from_days
  civil_day = refl

  pub civil_day_of_year : day_of_year (civil_from_days z).month (civil_from_days z).day ≡ doy
  civil_day_of_year =
      let y = year_of_era_lem doe (era_146097 shifted).0 in
      let m = month_of_year_lem doy y.2 in
      rw (civil_month, civil_day)
        (day_of_year-calendar_month mp (doy - days_before_month mp) m.0 m.2 ∙ omega (arith, m.1))

  -- The day that CivilFromDays computes, counted back by DaysFromCivil, is the day it was given: for
  -- every day number, before and after 1970.
  pub days_from_civil-civil_from_days :
      days_from_civil (civil_from_days z).year (civil_from_days z).month (civil_from_days z).day ≡ z
  days_from_civil-civil_from_days =
      let e = era_146097 shifted in
      let y = year_of_era_lem doe e.0 in
      rw civil_year (
        days_from_era (era_of shifted 146097) yoe (civil_from_days z).month (civil_from_days z).day
          doy y.0 y.2 civil_day_of_year
        ∙ rw (whole y.1) (back z (era_of shifted 146097 *ℤ 146097) (pos doe) e.1))
    where
      whole : days_before yoe ≤ doe → days_before yoe + (doe - days_before yoe) ≡ doe
      whole h = omega arith
