-- ===== src/Binds/Totals.antt =====
-- A bind of a DECIMAL stands for its value.
use oraduck.Prelude.Int.{ℤ}
use oraduck.NumberEncode.{OracleUint128, encode_oracle_number128}
use oraduck.NumberEncode.Digits.{encode_oracle_number128-some}
use oraduck.Oci.{sqlt_num}
use oraduck.Binds.{OracleInt128, BindValue, decimal_text, bind_number, bind_decimal, number_bind}
use oraduck.Prelude.{
  ℕ, ◌+◌, ◌-◌, ◌*◌, ◌%◌, ◌^◌, ◌≤◌, ◌<◌, ◌≡◌, refl, ◌⊎◌, inl, inr, Bool, true, false, some, arith,
  leb, ◌==◌, if◌then◌else◌, Bool-cases, ok,
}

-- The sign and the magnitude of a value in two's complement.
abbrev pub Signed : OracleInt128 → Bool → OracleUint128 → Type 0
Signed value negative m =
    ((value.hi < 2 ^ 63)
      × (negative ≡ false)
      × (m.hi * 2 ^ 64 + m.lo ≡ value.hi * 2 ^ 64 + value.lo))
    ⊎ ((2 ^ 63 ≤ value.hi)
        × (negative ≡ true)
        × (m.hi * 2 ^ 64 + m.lo + (value.hi * 2 ^ 64 + value.lo) ≡ 2 ^ 128))

-- A bind is the NUMBER of a sign and a magnitude, and is shown as its text.
abbrev pub BindsNumber : OracleUint128 → Bool → ℕ → BindValue → Type 0
BindsNumber m negative scale b =
    (b.dty ≡ sqlt_num)
    × (encode_oracle_number128 m negative scale ≡ some b.bytes)
    × (b.display ≡ decimal_text m negative scale)

number_bind-BindsNumber :
    (m : OracleUint128) (negative : Bool) (scale : ℕ)
    → (b : BindValue) × (number_bind m negative scale ≡ ok b) × BindsNumber m negative scale b
unfolding number_bind
number_bind-BindsNumber m negative scale =
    let (bytes, e) = encode_oracle_number128-some m negative scale in
    (
      record { dty = sqlt_num; bytes = bytes; display = decimal_text m negative scale },
      rw (number_bind, e) refl,
      (refl, e, refl),
    )

-- A bind of an integer is always made.
pub bind_number-ok : (value : ℤ) → (b : BindValue) × (bind_number value ≡ ok b)
unfolding bind_number
bind_number-ok value = let (b, made, binds) = number_bind-BindsNumber _ _ 0 in (b, made)

-- The negation of the halves, with the carry.
negated :
    (hi lo : ℕ)
    → hi < 2 ^ 64
    → lo < 2 ^ 64
    → 2 ^ 63 ≤ hi
    → let low = (2 ^ 64 - 1 - lo + 1) % 2 ^ 64 in
      let high = (2 ^ 64 - 1 - hi + (if low == 0 then 1 else 0)) % 2 ^ 64 in
      high * 2 ^ 64 + low + (hi * 2 ^ 64 + lo) ≡ 2 ^ 128
negated hi lo h l n = ground (arith, h, l, n)

-- For any value of two 64-bit halves and any scale: BindDecimal makes a bind, the NUMBER of the sign and the
-- magnitude that the value has in two's complement, at that scale, and shows it as their decimal text.
pub bind_decimal-BindsNumber :
    (value : OracleInt128) (scale : ℕ)
    → value.hi < 2 ^ 64
    → value.lo < 2 ^ 64
    → (b : BindValue) × (m : OracleUint128) × (negative : Bool) × (bind_decimal value scale ≡ ok b)
      × Signed value negative m
      × BindsNumber m negative scale b
unfolding bind_decimal
bind_decimal-BindsNumber value scale h l = elim (Bool-cases (leb (2 ^ 63) value.hi)) [
  | inl negative ↦
      let (b, made, binds) = number_bind-BindsNumber _ true scale in
      (
        b,
        _,
        true,
        rw (bind_decimal, negative) made,
        inr (
          ground (arith, negative),
          refl,
          negated value.hi value.lo h l (ground (arith, negative)),
        ),
        binds,
      )
  | inr positive ↦
      let (b, made, binds) =
        number_bind-BindsNumber (record { hi = value.hi; lo = value.lo }) false scale in
      (
        b,
        record { hi = value.hi; lo = value.lo },
        false,
        rw (bind_decimal, positive) made,
        inl (ground (arith, positive), refl, refl),
        binds,
      )
]
