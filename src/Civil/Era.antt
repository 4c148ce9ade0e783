-- ===== src/Civil/Era.antt =====
-- The arithmetic of an era: 146097 days, 400 years that begin in March.
use oraduck.Prelude.Int.{ℤ, pos, negsuc, ◌+ℤ◌, ◌-ℤ◌, ◌*ℤ◌, to_u32, int_laws}
use oraduck.Civil.{era_of, rest_of_era, year_of_era, days_before, month_of_year, days_before_month}
use oraduck.Prelude.{ℕ, ◌+◌, ◌-◌, ◌%◌, ◌^◌, ◌≤◌, ◌<◌, ◌≡◌, refl, ◌≢◌, ◌⊎◌, arith}

-- The year that the formula finds holds the day.
pub year_of_era_lem :
    (doe : ℕ)
    → doe < 146097
    → (year_of_era doe < 400)
      × (days_before (year_of_era doe) ≤ doe)
      × (doe - days_before (year_of_era doe) ≤ 365)
unfolding year_of_era days_before
year_of_era_lem doe h = omega arith

-- A year counted from March ends with the February of the next calendar year.
abbrev pub IsLeap : ℕ → Type 0
IsLeap y = (y % 4 ≡ 0) × ((y % 100 ≢ 0) ⊎ (y % 400 ≡ 0))

-- Each day of each year of the era is found in that year.
pub year_of_era-days_before :
    (yoe doy : ℕ)
    → yoe < 400
    → doy ≤ 365
    → (doy ≤ 364) ⊎ IsLeap (yoe + 1)
    → year_of_era (days_before yoe + doy) ≡ yoe
unfolding year_of_era days_before
year_of_era-days_before yoe doy h k leap = omega arith

pub month_of_year_lem :
    (doy : ℕ)
    → doy ≤ 365
    → (month_of_year doy < 12)
      × (days_before_month (month_of_year doy) ≤ doy)
      × (doy - days_before_month (month_of_year doy) ≤ 30)
unfolding month_of_year days_before_month
month_of_year_lem doy h = omega arith

pub era_400 :
    (z : ℤ) → (rest_of_era z 400 < 400) × (z ≡ era_of z 400 *ℤ 400 +ℤ pos (rest_of_era z 400))
unfolding rest_of_era ◌+ℤ◌
era_400 (pos n) = ground arith
era_400 (negsuc n) = ground arith

pub era_146097 :
    (z : ℤ)
    → (rest_of_era z 146097 < 146097)
      × (z ≡ era_of z 146097 *ℤ 146097 +ℤ pos (rest_of_era z 146097))
unfolding rest_of_era ◌+ℤ◌
era_146097 (pos n) = ground arith
era_146097 (negsuc n) = ground arith

-- The era of a number in it.
pub era_of-400 : (era : ℤ) (r : ℕ) → r < 400 → era_of (era *ℤ 400 +ℤ pos r) 400 ≡ era
unfolding rest_of_era ◌+ℤ◌
era_of-400 (pos n) r h = ground arith
era_of-400 (negsuc n) r h = ground arith

pub era_of-146097 : (era : ℤ) (r : ℕ) → r < 146097 → era_of (era *ℤ 146097 +ℤ pos r) 146097 ≡ era
unfolding rest_of_era ◌+ℤ◌
era_of-146097 (pos n) r h = ground arith
era_of-146097 (negsuc n) r h = ground arith

rest_of_era_lem : (z : ℤ) (k : ℕ) → rest_of_era z k ≡ to_u32 (z -ℤ era_of z k *ℤ k)
unfolding rest_of_era
rest_of_era_lem z k = refl

to_u32-pos : (n : ℕ) → n < 2 ^ 32 → to_u32 (pos n) ≡ n
unfolding to_u32
to_u32-pos n h = omega arith

add_sub : (a : ℤ) (r : ℕ) → a +ℤ pos r -ℤ a ≡ pos r
add_sub a r = omega int_laws

pub rest_of-400 : (era : ℤ) (r : ℕ) → r < 400 → rest_of_era (era *ℤ 400 +ℤ pos r) 400 ≡ r
rest_of-400 era r h =
    rw (rest_of_era_lem, era_of-400 era r h, add_sub (era *ℤ 400) r) (to_u32-pos r (omega arith))

pub rest_of-146097 :
    (era : ℤ) (r : ℕ) → r < 146097 → rest_of_era (era *ℤ 146097 +ℤ pos r) 146097 ≡ r
rest_of-146097 era r h =
    rw (rest_of_era_lem, era_of-146097 era r h, add_sub (era *ℤ 146097) r)
      (to_u32-pos r (omega arith))
