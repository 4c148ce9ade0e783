-- ===== src/NumberEncode.antt =====
-- Oracle's NUMBER format, written: `DecimalDigits`, `EncodeFromDigits` and `EncodeOracleNumber` of
-- src/oracle_encoding.cpp. Digits stand least significant first, as in the source.
pub mod Digits
use oraduck.Prelude.{
  ℕ, zero, suc, ◌+◌, ◌-◌, ◌*◌, ◌/◌, ◌%◌, ◌^◌, ◌≤◌, ◌<◌, ◌≡◌, refl, sym, ap, ◌∙◌, ◌≢◌, ◌↔◌, ◌⊎◌, inl,
  inr, Bool, true, false, not, ◌&&◌, ◌||◌, Option, none, some, List, [], ◌∷◌, ◌++◌, map, reverse,
  arith, ltb, leb, ◌==◌, if◌then◌else◌, ltb→lt, lt→ltb, ==_iff, ==_refl, Bool-cases, Option-cases,
  some_inj, length, get_or, take, drop, replicate, is_empty, count_if, All, length-append,
  count_if-append, length-replicate, length-map, All-append, AllPairs, All-map, Bytes, codes,
  bytes_eq, is_upper, is_lower, is_alpha, is_digit, is_alnum, is_space, to_upper, to_lower,
  has_byte, starts_with, has_text, last_byte, but_last, to_decimal, bytes_eq→eq, bytes_eq_refl,
  all_below, all_below_sound, Result, ok, err, ◌>>=◌, ◌>>◌, throw_if, >>=-eq-ok, ok_inj,
}

-- DecimalDigits of a uint64_t: 20 rounds are enough.
pub decimal_digits : ℕ → ℕ → List ℕ
decimal_digits zero magnitude = []
decimal_digits (suc fuel) magnitude =
    let rest = decimal_digits fuel (magnitude / 10) in
    if magnitude == 0 then [] else (magnitude % 10) ∷ rest

-- OracleUint128 of src/include/oraduck/oracle_encoding.hpp.
pub record OracleUint128 : Type 0 where
  pub hi : ℕ
  pub lo : ℕ

-- The four 32-bit limbs, most significant first.
pub record Limbs : Type 0 where
  pub l0 : ℕ
  pub l1 : ℕ
  pub l2 : ℕ
  pub l3 : ℕ

pub limbs_of : OracleUint128 → Limbs
limbs_of m = record {
  l0 = m.hi / 2 ^ 32 % 2 ^ 32;
  l1 = m.hi % 2 ^ 32;
  l2 = m.lo / 2 ^ 32 % 2 ^ 32;
  l3 = m.lo % 2 ^ 32;
}

-- One round of the division by 10: the new limbs and the remainder. `(remainder << 32) | limb` is a sum,
-- since a limb has 32 bits.
pub divide_limbs : Limbs → Limbs × ℕ
divide_limbs l =
    let c0 = l.l0 in
    let c1 = c0 % 10 * 2 ^ 32 + l.l1 in
    let c2 = c1 % 10 * 2 ^ 32 + l.l2 in
    let c3 = c2 % 10 * 2 ^ 32 + l.l3 in
    (record { l0 = c0 / 10; l1 = c1 / 10; l2 = c2 / 10; l3 = c3 / 10 }, c3 % 10)

-- (limbs[0] | limbs[1] | limbs[2] | limbs[3]) == 0
pub limbs_zero : Limbs → Bool
limbs_zero l = (l.l0 == 0) && (l.l1 == 0) && (l.l2 == 0) && (l.l3 == 0)

-- DecimalDigits of 128 bits: 39 rounds are enough.
pub limb_digits : ℕ → Limbs → List ℕ
limb_digits zero l = []
limb_digits (suc fuel) l =
    let rest = limb_digits fuel (divide_limbs l).0 in
    if limbs_zero l then [] else (divide_limbs l).1 ∷ rest

-- Digits two by two, after a zero is put behind an odd number of them.
pub pair_digits : List ℕ → List ℕ
pair_digits [] = []
pair_digits (a ∷ []) = a ∷ []
pair_digits (a ∷ b ∷ ds) = (a + 10 * b) ∷ pair_digits ds

-- `base100`: the digits aligned to the decimal point.
pub base100_digits : List ℕ → ℕ → List ℕ
base100_digits dec scale = pair_digits (if scale % 2 == 0 then dec else 0 ∷ dec)

-- The digits up to `hi`: without the zeros at the most significant end.
pub drop_high_zeros : List ℕ → List ℕ
drop_high_zeros [] = []
drop_high_zeros (d ∷ ds) =
    let rest = drop_high_zeros ds in if is_empty rest && (d == 0) then [] else d ∷ rest

-- The digits from `lo` on.
pub drop_low_zeros : List ℕ → List ℕ
drop_low_zeros [] = []
drop_low_zeros (d ∷ ds) = if d == 0 then drop_low_zeros ds else d ∷ ds

-- EncodeFromDigits: `hi` and the fraction digits give the exponent, which is hi - 1 - frac / 2. The
-- bytes 0xC1 + exponent and 0x3E - exponent are taken modulo 256.
pub encode_from_digits : List ℕ → Bool → ℕ → Option Bytes
encode_from_digits dec negative scale =
    let kept = drop_high_zeros (base100_digits dec scale) in
    let mantissa = drop_low_zeros kept in
    let hi = length kept in
    let half_frac = (scale + scale % 2) / 2 in
    if ltb 20 (length mantissa)
    then none
    else if negative
    then some (
        ((0x3E + 1 + half_frac + 256 - hi) % 256)
        ∷ (map (λ d. 101 - d) (reverse mantissa)
            ++ (if ltb (length mantissa) 20 then 102 ∷ [] else [])))
    else some (((0xC1 + hi - 1 - half_frac) % 256) ∷ map (λ d. d + 1) (reverse mantissa))

pub encode_oracle_number64 : ℕ → Bool → ℕ → Option Bytes
encode_oracle_number64 magnitude negative scale =
    if magnitude == 0
    then some (0x80 ∷ [])
    else encode_from_digits (decimal_digits 20 magnitude) negative scale

pub encode_oracle_number128 : OracleUint128 → Bool → ℕ → Option Bytes
encode_oracle_number128 magnitude negative scale =
    if (magnitude.hi == 0) && (magnitude.lo == 0)
    then some (0x80 ∷ [])
    else encode_from_digits (limb_digits 39 (limbs_of magnitude)) negative scale

-- Opens all that the encoder calls.
unfoldable pub number_encoder : Unit {0}
unfolding decimal_digits limbs_of divide_limbs limbs_zero limb_digits pair_digits base100_digits
    drop_high_zeros drop_low_zeros encode_from_digits encode_oracle_number64 encode_oracle_number128
number_encoder = tt
