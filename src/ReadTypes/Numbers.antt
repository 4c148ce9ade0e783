-- ===== src/ReadTypes/Numbers.antt =====
-- The DuckDB type chosen for a NUMBER column holds every value of the column.
use oraduck.Prelude.Int.{pos, pos_part, neg_part, ltb_ℤ, is_negative}
use oraduck.Names.{OracleColumn}
use oraduck.ReadTypes.{
  DuckTypeId, DuckTypeSpec, UnconstrainedNumber, ReadColumnPlan, set_decimal, set_double,
  plan_scaled, plan_number, parse_unconstrained_number, decimal_setting, decimal_inner,
  bad_unconstrained, parse_uint, split_comma, upper, strip_spaces, read_types,
}
use mathlib.Core.Path.{subst}
use oraduck.Prelude.{
  ℕ, ◌+◌, ◌-◌, ◌^◌, ◌≤◌, ◌<◌, ◌≡◌, refl, ◌⊎◌, inl, inr, Bool, true, false, ◌&&◌, Option, none, some,
  arith, leb, ◌==◌, if◌then◌else◌, Bool-cases, length, take, drop, Bytes, codes, bytes_eq,
  starts_with, last_byte, all_below, all_below_sound, Result, ok, err, ◌++◌, ◌↔◌, ==_iff,
  to_decimal,
}

-- A type holds the numbers k * 10 ^ -s with k below 10 ^ p in absolute value, or, for a DOUBLE, the
-- column has no DECIMAL type: DuckDB's have 38 digits at most. `s` is `up` or -`down`.
abbrev pub Holds : DuckTypeSpec → ℕ → ℕ → ℕ → Type 0
Holds t p up down = elim t.id [
  | DuckTypeId.smallint ↦ (up ≡ 0) × (down ≡ 0) × (10 ^ p ≤ 2 ^ 15)
  | DuckTypeId.integer ↦ (up ≡ 0) × (down ≡ 0) × (10 ^ p ≤ 2 ^ 31)
  | DuckTypeId.bigint ↦ (up ≡ 0) × (down ≡ 0) × (10 ^ p ≤ 2 ^ 63)
  | DuckTypeId.decimal ↦ (t.width ≤ 38) × (up ≤ t.width) × (t.scale ≡ up) × (p + down ≤ t.width)
  | DuckTypeId.double ↦ (38 < up) ⊎ (38 < p + down)
  | _ ↦ ⊥
]

-- 10 ^ p stays below a bound when it does for the largest p.
power_table : (m bound : ℕ) → Bool
power_table m bound = all_below m (λ p. leb (10 ^ p) bound)

power_bound : (m bound p : ℕ) → power_table m bound ≡ true → p < m → 10 ^ p ≤ bound
unfolding power_table
power_bound m bound p t h =
    let e = all_below_sound m (λ q. leb (10 ^ q) bound) p t h in ground arith

fits_smallint : (p : ℕ) → p ≤ 4 → 10 ^ p ≤ 2 ^ 15
unfolding power_table all_below
fits_smallint p h = power_bound 5 (2 ^ 15) p refl (omega arith)

fits_integer : (p : ℕ) → p ≤ 9 → 10 ^ p ≤ 2 ^ 31
unfolding power_table all_below
fits_integer p h = power_bound 10 (2 ^ 31) p refl (omega arith)

fits_bigint : (p : ℕ) → p ≤ 18 → 10 ^ p ≤ 2 ^ 63
unfolding power_table all_below
fits_bigint p h = power_bound 19 (2 ^ 63) p refl (omega arith)

-- The precision that PlanNumber goes by: 38 digits when the dictionary has none.
abbrev pub digits_of : OracleColumn → ℕ
digits_of c = if ltb_ℤ (pos 0) c.precision then pos_part c.precision else 38

plan_scaled-Holds :
    (plan : ReadColumnPlan) (p s : ℕ) (known : Bool)
    → p ≤ 38
    → Holds (plan_scaled plan p s known).duck_type p s 0
unfolding plan_scaled set_decimal set_double
plan_scaled-Holds plan p s known h = ground (arith, fits_smallint p, fits_integer p, fits_bigint p)

scale_below :
    (plan : ReadColumnPlan) (down up p : ℕ)
    → up ≡ 0
    → p ≤ 38
    → Holds
        (if leb (p + down) 38 then set_decimal plan (p + down) 0 else set_double plan).duck_type
        p
        up
        down
unfolding set_decimal set_double
scale_below plan down up p e h = ground arith

-- For a NUMBER column that has a precision or a scale, with at most 38 digits, every branch of the
-- planning picks a type that holds all the values of the column; it falls back on DOUBLE only when the
-- values have more than 38 digits, or more than 38 decimals.
pub plan_number-Holds :
    (plan : ReadColumnPlan) (c : OracleColumn) (u : UnconstrainedNumber)
    → digits_of c ≤ 38
    → (is_negative c.precision && is_negative c.scale) ≡ false
    → Holds
        (plan_number plan c u false).duck_type
        (digits_of c)
        (pos_part c.scale)
        (neg_part c.scale)
unfolding plan_number
plan_number-Holds plan c u h k = elim (Bool-cases (is_negative c.scale)) [
  | inr up ↦
      rw (k, up)
        (subst
          (λ n.
            Holds
              (plan_scaled plan (digits_of c) (pos_part c.scale)
                (ltb_ℤ (pos 0) c.precision)).duck_type
              (digits_of c) (pos_part c.scale) n)
          (not_negative up)
          (plan_scaled-Holds plan (digits_of c) (pos_part c.scale) (ltb_ℤ (pos 0) c.precision) h))
  | inl down ↦
      rw (k, down)
        (scale_below plan (neg_part c.scale) (pos_part c.scale) (digits_of c) (negative down) h)
]
  where
    not_negative : is_negative c.scale ≡ false → 0 ≡ neg_part c.scale
    not_negative e = ground arith

    negative : is_negative c.scale ≡ true → pos_part c.scale ≡ 0
    negative e = ground arith

decimal_setting_bounds :
    (text : Bytes) (a b : Option ℕ) (p s : ℕ)
    → decimal_setting text a b ≡ ok (UnconstrainedNumber.decimal p s)
    → (1 ≤ p) × (p ≤ 38) × (s ≤ p)
unfolding decimal_setting bad_unconstrained
decimal_setting_bounds text (some x) (some y) p s h = ground arith
decimal_setting_bounds text (some x) none p s h = cc
decimal_setting_bounds text none b p s h = cc

decimal_inner_bounds :
    (text : Bytes) (o : Option (Bytes × Bytes)) (p s : ℕ)
    → decimal_inner text o ≡ ok (UnconstrainedNumber.decimal p s)
    → (1 ≤ p) × (p ≤ 38) × (s ≤ p)
unfolding decimal_inner bad_unconstrained
decimal_inner_bounds text none p s h = cc
decimal_inner_bounds text (some (x, y)) p s h =
    decimal_setting_bounds text (parse_uint x) (parse_uint y) p s h

parse_unconstrained_number_bounds :
    (text : Bytes) (p s : ℕ)
    → parse_unconstrained_number text ≡ ok (UnconstrainedNumber.decimal p s)
    → (1 ≤ p) × (p ≤ 38) × (s ≤ p)
unfolding parse_unconstrained_number bad_unconstrained
parse_unconstrained_number_bounds text p s h = elim (Bool-cases (bytes_eq t (codes "DOUBLE"))) [
  | inl d ↦ let h' = rw d at h in cc
  | inr nd ↦ elim (Bool-cases (bytes_eq t (codes "VARCHAR"))) [
    | inl v ↦ let h' = rw (nd, v) at h in cc
    | inr nv ↦ elim (Bool-cases (starts_with t (codes "DECIMAL(") && (last_byte t == b')'))) [
      | inl dec ↦
          decimal_inner_bounds text (split_comma (take (length t - 9) (drop 8 t))) p s
            (rw (nd, nv, dec) at h)
      | inr other ↦ let h' = rw (nd, nv, other, bad_unconstrained) at h in cc
    ]
  ]
]
  where
    t : Bytes
    t = upper (strip_spaces text)

-- The text of a DECIMAL setting.
abbrev pub setting_text : ℕ → ℕ → Bytes
setting_text p s = codes "DECIMAL(" ++ (to_decimal p ++ (codes "," ++ (to_decimal s ++ codes ")")))

abbrev is_decimal : ℕ → ℕ → Result UnconstrainedNumber → Bool
is_decimal p s (ok (UnconstrainedNumber.decimal p' s')) = (p' == p) && (s' == s)
is_decimal p s (ok UnconstrainedNumber.double) = false
is_decimal p s (ok UnconstrainedNumber.varchar) = false
is_decimal p s (err message) = false

is_decimal→eq :
    (p s : ℕ) (r : Result UnconstrainedNumber)
    → is_decimal p s r ≡ true
    → r ≡ ok (UnconstrainedNumber.decimal p s)
is_decimal→eq p s (ok (UnconstrainedNumber.decimal p' s')) h =
    let p_same : p' ≡ p = (==_iff p' p).0 (ground (arith, h)) in
    let s_same : s' ≡ s = (==_iff s' s).0 (ground (arith, h)) in cc
is_decimal→eq p s (ok UnconstrainedNumber.double) h = cc
is_decimal→eq p s (ok UnconstrainedNumber.varchar) h = cc
is_decimal→eq p s (err message) h = cc

-- All settings, by computation.
all_decimals :
    all_below 38 (λ p.
      all_below
        (p + 2)
        (λ s. is_decimal (p + 1) s (parse_unconstrained_number (setting_text (p + 1) s))))
    ≡ true
unfolding read_types all_below to_decimal
all_decimals = refl

-- For any precision and scale: ParseUnconstrainedNumber reads the text DECIMAL(p,s) as that setting exactly when the
-- precision is from 1 to 38 and the scale at most the precision.
pub parse_unconstrained_number_iff :
    (p s : ℕ)
    → (parse_unconstrained_number (setting_text p s) ≡ ok (UnconstrainedNumber.decimal p s))
      ↔ ((1 ≤ p) × (p ≤ 38) × (s ≤ p))
parse_unconstrained_number_iff p s = (
  parse_unconstrained_number_bounds (setting_text p s) p s,
  λ (some_digits, few, within).
      let before : ℕ = p - 1 in
      let p_is : before + 1 ≡ p = omega (arith, some_digits) in
      let scales = all_below_sound 38 _ before all_decimals (omega (arith, some_digits, few)) in
      subst
        (λ q. parse_unconstrained_number (setting_text q s) ≡ ok (UnconstrainedNumber.decimal q s))
        p_is
        (is_decimal→eq (before + 1) s _
          (all_below_sound (before + 2) _ s scales (omega (arith, p_is, within)))),
)
