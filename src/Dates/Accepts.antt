-- ===== src/Dates/Accepts.antt =====
-- Which seven bytes are a DATE.
use oraduck.Prelude.Int.{
  ℤ, pos, negsuc, pos_part, neg_part, ◌+ℤ◌, ◌-ℤ◌, ◌*ℤ◌, ◌≤ℤ◌, eq_ℤ, eq_of_parts,
}
use oraduck.Civil.{CivilDate, civil_from_days, days_from_civil, micros_per_second, micros_per_day}
use oraduck.Civil.Calendar.{IsDate, civil_from_days-IsDate, civil_from_days-days_from_civil}
use oraduck.Dates.{
  oracle_year, astronomical_year, bad_year, bad_fields, decode_fields, decode_oracle_date,
}
use oraduck.Dates.RoundTrip.{eq_ℤ_refl, IsDate-31}
use mathlib.Core.Path.{subst₃}
use oraduck.Prelude.{
  ℕ, ◌+◌, ◌-◌, ◌*◌, ◌≤◌, ◌≡◌, sym, ap, ◌∙◌, ◌≢◌, ◌↔◌, inl, inr, Bool, false, not, ◌||◌, some, [],
  ◌∷◌, arith, ◌==◌, ==_refl, Bool-cases, some_inj, Bytes,
}

-- A year that Oracle has: from -4712 to 9999, and not 0.
abbrev pub IsYear : ℤ → Type 0
IsYear y = (negsuc 4711 ≤ℤ y) × (y ≤ℤ pos 9999) × (pos_part y + neg_part y ≢ 0)

IsYear-good : (y : ℤ) → IsYear y → bad_year y ≡ false
unfolding bad_year
IsYear-good y h = ground arith

good-IsYear : (y : ℤ) → bad_year y ≡ false → IsYear y
unfolding bad_year
good-IsYear y h = ground arith

-- What the seven bytes of a DATE say. There is no year 0, and the time bytes count from 1.
pub record IsOracleDate (b0 b1 b2 b3 b4 b5 b6 : ℕ) : Type 0 where
  pub year_in : IsYear (oracle_year b0 b1)
  pub date_in : IsDate (astronomical_year (oracle_year b0 b1)) b2 b3
  pub hour_in : (1 ≤ b4) × (b4 ≤ 24)
  pub minute_in : (1 ≤ b5) × (b5 ≤ 60)
  pub second_in : (1 ≤ b6) × (b6 ≤ 60)

-- The microseconds since 1970 of those bytes.
pub date_micros : ℕ → ℕ → ℕ → ℕ → ℕ → ℕ → ℕ → ℤ
date_micros b0 b1 b2 b3 b4 b5 b6 =
    days_from_civil (astronomical_year (oracle_year b0 b1)) b2 b3 *ℤ micros_per_day
    +ℤ pos (((b4 - 1) * 60 + (b5 - 1)) * 60 + (b6 - 1)) *ℤ micros_per_second

good_fields :
    (m d b4 b5 b6 : ℕ)
    → bad_fields m d (pos b4 -ℤ pos 1) (pos b5 -ℤ pos 1) (pos b6 -ℤ pos 1) ≡ false
    → (1 ≤ b4) × (b4 ≤ 24) × (1 ≤ b5) × (b5 ≤ 60) × (1 ≤ b6) × (b6 ≤ 60)
unfolding bad_fields ◌-ℤ◌
good_fields m d b4 b5 b6 h = ground arith

fields_good :
    (m d b4 b5 b6 : ℕ)
    → (1 ≤ m) × (m ≤ 12)
    → (1 ≤ d) × (d ≤ 31)
    → (1 ≤ b4) × (b4 ≤ 24)
    → (1 ≤ b5) × (b5 ≤ 60)
    → (1 ≤ b6) × (b6 ≤ 60)
    → bad_fields m d (pos b4 -ℤ pos 1) (pos b5 -ℤ pos 1) (pos b6 -ℤ pos 1) ≡ false
unfolding bad_fields ◌-ℤ◌
fields_good m d b4 b5 b6 hm hd h4 h5 h6 = ground arith

time_of_day :
    (b4 b5 b6 : ℕ)
    → 1 ≤ b4
    → 1 ≤ b5
    → 1 ≤ b6
    → ((pos b4 -ℤ pos 1) *ℤ 60 +ℤ (pos b5 -ℤ pos 1)) *ℤ 60 +ℤ (pos b6 -ℤ pos 1)
      ≡ pos (((b4 - 1) * 60 + (b5 - 1)) * 60 + (b6 - 1))
unfolding ◌-ℤ◌ ◌+ℤ◌ ◌*ℤ◌
time_of_day b4 b5 b6 h4 h5 h6 = ground arith

differs : CivilDate → ℤ → ℕ → ℕ → Bool
differs c y m d = not (eq_ℤ c.year y) || not (c.month == m) || not (c.day == d)

differs_not :
    (c : CivilDate) (y : ℤ) (m d : ℕ)
    → differs c y m d ≡ false
    → (c.year ≡ y) × (c.month ≡ m) × (c.day ≡ d)
unfolding differs
differs_not c y m d h = ground (arith, eq_of_parts c.year y)

module _ (b0 b1 b2 b3 b4 b5 b6 : ℕ) where
  abbrev bytes : Bytes
  bytes = b0 ∷ b1 ∷ b2 ∷ b3 ∷ b4 ∷ b5 ∷ b6 ∷ []

  abbrev year : ℤ
  year = astronomical_year (oracle_year b0 b1)

  accepts :
      IsOracleDate b0 b1 b2 b3 b4 b5 b6
      → decode_oracle_date bytes ≡ some (date_micros b0 b1 b2 b3 b4 b5 b6)
  unfolding decode_oracle_date decode_fields date_micros
  accepts v =
      rw
        (
          IsYear-good (oracle_year b0 b1) v.year_in,
          fields_good b2 b3 b4 b5 b6 v.date_in.month_in
              (v.date_in.day_in.0, IsDate-31 year b2 b3 v.date_in) v.hour_in v.minute_in
              v.second_in,
        )
        (rw (
          civil_from_days-days_from_civil year b2 b3 v.date_in,
          eq_ℤ_refl year,
          ==_refl b2,
          ==_refl b3,
          time_of_day b4 b5 b6 v.hour_in.0 v.minute_in.0 v.second_in.0,
        ))

  only : (m : ℤ) → decode_oracle_date bytes ≡ some m → IsOracleDate b0 b1 b2 b3 b4 b5 b6
  unfolding decode_oracle_date decode_fields
  only m e = elim (Bool-cases (bad_year (oracle_year b0 b1))) [
    | inl bad ↦ let e' = rw bad at e in cc
    | inr y ↦
        elim (Bool-cases (bad_fields b2 b3 (pos b4 -ℤ pos 1) (pos b5 -ℤ pos 1) (pos b6 -ℤ pos 1))) [
          | inl bad ↦ let e' = rw (y, bad) at e in cc
          | inr f ↦
              elim (Bool-cases
                (differs (civil_from_days (days_from_civil year b2 b3)) year b2 b3)) [
                  | inl bad ↦
                      let e' = rw (y, f) at e in (unfold differs in let e'' = rw bad at e' in cc)
                  | inr same ↦
                      found y f
                        (differs_not (civil_from_days (days_from_civil year b2 b3)) year b2 b3 same)
                ]
        ]
  ]
    where
      found :
          bad_year (oracle_year b0 b1) ≡ false
          → bad_fields b2 b3 (pos b4 -ℤ pos 1) (pos b5 -ℤ pos 1) (pos b6 -ℤ pos 1) ≡ false
          → (((civil_from_days (days_from_civil year b2 b3)).year ≡ year)
              × ((civil_from_days (days_from_civil year b2 b3)).month ≡ b2)
              × ((civil_from_days (days_from_civil year b2 b3)).day ≡ b3))
          → IsOracleDate b0 b1 b2 b3 b4 b5 b6
      found y f s =
          let g = good_fields b2 b3 b4 b5 b6 f in
          record {
            year_in = good-IsYear (oracle_year b0 b1) y;
            date_in =
                subst₃ IsDate s.0 s.1 s.2 (civil_from_days-IsDate (days_from_civil year b2 b3));
            hour_in = (g.0, g.1);
            minute_in = (g.2, g.3);
            second_in = (g.4, g.5);
          }

  -- The decoder of a DATE accepts seven bytes exactly when their year is from -4712 to 9999 and not 0,
  -- their day is a day of that month in the proleptic Gregorian calendar, and their time is one of the
  -- day; it then gives the microseconds since 1970 of those fields.
  pub decode_oracle_date_iff :
      (m : ℤ)
      → (decode_oracle_date bytes ≡ some m)
        ↔ (IsOracleDate b0 b1 b2 b3 b4 b5 b6 × (m ≡ date_micros b0 b1 b2 b3 b4 b5 b6))
  decode_oracle_date_iff m = (
    λ e. let v = only m e in (v, some_inj (sym e ∙ accepts v)),
    λ p. accepts p.0 ∙ ap some (sym p.1),
  )
