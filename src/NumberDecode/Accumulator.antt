-- ===== src/NumberDecode/Accumulator.antt =====
-- The 128-bit accumulator computes exactly, or says that the number does not fit.
use oraduck.NumberDecode.{mul64, Accumulator128, mul_add_low, mul_add_high, mul_add, increment}
use native.Mathlib.Nat.{mul-le-mul_left, mul-le-mul_right, le_trans, le-pred_of_lt}
use mathlib.Core.Path.{ap₂, subst}
use oraduck.Prelude.{
  ℕ, ◌+◌, ◌-◌, ◌*◌, ◌/◌, ◌%◌, ◌^◌, ◌≤◌, ◌<◌, ◌≡◌, sym, ◌∙◌, inl, inr, Option, none, some, arith,
  ◌==◌, ==_iff, Bool-cases,
}

pub value128 : Accumulator128 → ℕ
value128 acc = acc.hi * 2 ^ 64 + acc.lo

-- Both halves have 64 bits.
pub record IsAccumulator (acc : Accumulator128) : Type 0 where
  pub hi_in : acc.hi < 2 ^ 64
  pub lo_in : acc.lo < 2 ^ 64

half_product : (a b : ℕ) → a < 2 ^ 32 → b < 2 ^ 32 → a * b ≤ (2 ^ 32 - 1) * (2 ^ 32 - 1)
half_product a b h k =
    le_trans (mul-le-mul_right b (le-pred_of_lt h)) (mul-le-mul_left (2 ^ 32 - 1) (le-pred_of_lt k))

-- The schoolbook product of two numbers of two halves.
split_product :
    (a0 a1 b0 b1 : ℕ)
    → (a1 * 2 ^ 32 + a0) * (b1 * 2 ^ 32 + b0)
      ≡ a1 * b1 * 2 ^ 64 + (a0 * b1 + a1 * b0) * 2 ^ 32 + a0 * b0
split_product a0 a1 b0 b1 = omega arith

-- The sum of the partial products, in halves.
halves :
    (p00 p01 p10 p11 : ℕ)
    → p00 ≤ (2 ^ 32 - 1) * (2 ^ 32 - 1)
    → p01 ≤ (2 ^ 32 - 1) * (2 ^ 32 - 1)
    → p10 ≤ (2 ^ 32 - 1) * (2 ^ 32 - 1)
    → p11 ≤ (2 ^ 32 - 1) * (2 ^ 32 - 1)
    → (let mid = p00 / 2 ^ 32 + p01 % 2 ^ 32 + p10 % 2 ^ 32 in
        let hi = (p11 + p01 / 2 ^ 32 + p10 / 2 ^ 32 + mid / 2 ^ 32) % 2 ^ 64 in
        let lo = mid * 2 ^ 32 % 2 ^ 64 + p00 % 2 ^ 32 in
        (hi * 2 ^ 64 + lo ≡ p11 * 2 ^ 64 + (p01 + p10) * 2 ^ 32 + p00)
        × (hi < 2 ^ 64)
        × (lo < 2 ^ 64))
halves p00 p01 p10 p11 h0 h1 h2 h3 = omega arith

-- For two 64-bit numbers: the high and the low half that Mul64 returns fit 64 bits each, and make the
-- product.
pub mul64_lem :
    (a b : ℕ)
    → a < 2 ^ 64
    → b < 2 ^ 64
    → ((mul64 a b).0 * 2 ^ 64 + (mul64 a b).1 ≡ a * b)
      × ((mul64 a b).0 < 2 ^ 64)
      × ((mul64 a b).1 < 2 ^ 64)
unfolding mul64
mul64_lem a b h k =
    let a0 = a % 2 ^ 32 in
    let a1 = a / 2 ^ 32 in
    let b0 = b % 2 ^ 32 in
    let b1 = b / 2 ^ 32 in
    let s =
      halves (a0 * b0) (a0 * b1) (a1 * b0) (a1 * b1)
        (half_product a0 b0 (omega arith) (omega arith))
        (half_product a0 b1 (omega arith) (omega arith))
        (half_product a1 b0 (omega arith) (omega arith))
        (half_product a1 b1 (omega arith) (omega arith)) in
    (
      s.0 ∙ sym (split_product a0 a1 b0 b1) ∙ ap₂ (λ (x y : ℕ). x * y) (omega arith) (omega arith),
      s.1,
      s.2,
    )

-- What an operation of the accumulator returns for the number `n`: that number, or `none` when it has
-- more than 128 bits.
abbrev pub IsExact : ℕ → Option Accumulator128 → Type 0
IsExact n none = 2 ^ 128 ≤ n
IsExact n (some acc) = IsAccumulator acc × (value128 acc ≡ n)

module _ (acc : Accumulator128) (multiplier addend : ℕ) (v : IsAccumulator acc)
    (m : multiplier < 2 ^ 64) (a : addend < 2 ^ 64) where
  mul_add_low-IsExact :
      acc.hi ≡ 0 → IsExact (acc.lo * multiplier + addend) (mul_add_low acc multiplier addend)
  unfolding mul_add_low value128
  mul_add_low-IsExact z = let p = mul64_lem acc.lo multiplier v.lo_in m in ground arith

  mul_add_high-IsExact :
      IsExact
        (acc.hi * multiplier * 2 ^ 64 + acc.lo * multiplier + addend)
        (mul_add_high acc multiplier addend)
  unfolding mul_add_high value128
  mul_add_high-IsExact =
      let h = mul64_lem acc.hi multiplier v.hi_in m in
      let p = mul64_lem acc.lo multiplier v.lo_in m in ground arith

  -- For an accumulator of two 64-bit halves and 64-bit operands: MulAdd returns false only when
  -- acc * multiplier + addend does not fit 128 bits, and otherwise leaves exactly that in two 64-bit
  -- halves.
  pub mul_add-IsExact : IsExact (value128 acc * multiplier + addend) (mul_add acc multiplier addend)
  unfolding mul_add value128
  mul_add-IsExact = elim (Bool-cases (acc.hi == 0)) [
    | inr high ↦ rw high (
        subst (λ n. IsExact n (mul_add_high acc multiplier addend)) (omega arith)
          mul_add_high-IsExact)
    | inl low ↦
        let z : acc.hi ≡ 0 = (==_iff acc.hi 0).0 low in
        elim (Bool-cases (acc.lo == 0)) [
          | inl none_yet ↦ rw (low, none_yet) (both_zero z ((==_iff acc.lo 0).0 none_yet))
          | inr some_lo ↦
              rw (low, some_lo)
                (subst (λ n. IsExact n (mul_add_low acc multiplier addend)) (rw z (omega arith))
                  (mul_add_low-IsExact z))
        ]
  ]
    where
      both_zero :
          acc.hi ≡ 0
          → acc.lo ≡ 0
          → IsExact
              ((acc.hi * 2 ^ 64 + acc.lo) * multiplier + addend)
              (some (record { hi = 0; lo = addend }))
      both_zero h l = (record { hi_in = omega arith; lo_in = a }, rw (h, l) (omega arith))

-- For an accumulator of two 64-bit halves: Increment adds 1 exactly, and it returns false only when
-- that reaches 2 ^ 128.
pub increment-IsExact :
    (acc : Accumulator128) → IsAccumulator acc → IsExact (value128 acc + 1) (increment acc)
unfolding increment value128
increment-IsExact acc v = ground arith
