-- ===== src/NumberEncode/Digits.antt =====
-- The decimal digits of a magnitude: what they stand for, and that every magnitude has an encoding.
use oraduck.NumberEncode.{
  OracleUint128, Limbs, limbs_of, divide_limbs, limbs_zero, limb_digits, pair_digits,
  base100_digits, drop_high_zeros, drop_low_zeros, encode_from_digits, encode_oracle_number128,
}
use oraduck.Prelude.{
  ℕ, zero, suc, ◌+◌, ◌*◌, ◌%◌, ◌^◌, ◌≤◌, ◌<◌, ◌≡◌, refl, sym, ◌∙◌, inl, inr, Bool, true, false,
  ◌&&◌, some, List, [], ◌∷◌, arith, ltb, ◌==◌, Bool-cases, length, is_empty, Bytes,
}

-- The number that digits, least significant first, stand for.
pub value10 : List ℕ → ℕ
value10 [] = 0
value10 (d ∷ ds) = d + 10 * value10 ds

limbs_value : Limbs → ℕ
limbs_value l = ((l.l0 * 2 ^ 32 + l.l1) * 2 ^ 32 + l.l2) * 2 ^ 32 + l.l3

-- One round divides by ten.
divide_limbs_lem :
    (l : Limbs) → limbs_value l ≡ (divide_limbs l).1 + 10 * limbs_value (divide_limbs l).0
unfolding limbs_value divide_limbs
divide_limbs_lem l = omega arith

limbs_zero-value : (l : Limbs) → limbs_zero l ≡ true → limbs_value l ≡ 0
unfolding limbs_value limbs_zero
limbs_zero-value l h = ground arith

limb_digits-below :
    (fuel : ℕ) (l : Limbs)
    → limbs_value l < 10 ^ fuel
    → value10 (limb_digits fuel l) ≡ limbs_value l
unfolding limb_digits value10
limb_digits-below zero l h = omega arith
limb_digits-below (suc f) l h = elim (Bool-cases (limbs_zero l)) [
  | inl e ↦ rw e (sym (limbs_zero-value l e))
  | inr e ↦
      let d = divide_limbs_lem l in
      let r = limb_digits-below f (divide_limbs l).0 (omega arith) in rw e (rw r (sym d))
]

limbs_of-value :
    (m : OracleUint128)
    → m.hi < 2 ^ 64
    → m.lo < 2 ^ 64
    → limbs_value (limbs_of m) ≡ m.hi * 2 ^ 64 + m.lo
unfolding limbs_value limbs_of
limbs_of-value m h k = omega arith

-- For both halves of a magnitude below 2^64: 39 rounds of the division by ten give digits that stand for the whole
-- 128-bit magnitude.
pub limb_digits_lem :
    (hi lo : ℕ)
    → hi < 2 ^ 64
    → lo < 2 ^ 64
    → value10 (limb_digits 39 (limbs_of (record { hi = hi; lo = lo }))) ≡ hi * 2 ^ 64 + lo
limb_digits_lem hi lo h k =
    let m : OracleUint128 = record { hi = hi; lo = lo } in
    limb_digits-below 39 (limbs_of m) (rw (limbs_of-value m h k) (omega arith))
    ∙ limbs_of-value m h k

length-limb_digits : (fuel : ℕ) (l : Limbs) → length (limb_digits fuel l) ≤ fuel
unfolding limb_digits
length-limb_digits zero l = omega arith
length-limb_digits (suc f) l =
    let r = length-limb_digits f (divide_limbs l).0 in
    elim (Bool-cases (limbs_zero l)) [ inl e ↦ rw e (omega arith) | inr e ↦ rw e (omega arith) ]

length-pair_digits : (ds : List ℕ) → 2 * length (pair_digits ds) ≤ length ds + 1
unfolding pair_digits
length-pair_digits [] = omega arith
length-pair_digits (a ∷ []) = omega arith
length-pair_digits (a ∷ b ∷ ds) = let r = length-pair_digits ds in omega arith

length-drop_high_zeros : (ds : List ℕ) → length (drop_high_zeros ds) ≤ length ds
unfolding drop_high_zeros
length-drop_high_zeros [] = omega arith
length-drop_high_zeros (d ∷ ds) =
    let r = length-drop_high_zeros ds in
    elim (Bool-cases (is_empty (drop_high_zeros ds) && (d == 0))) [
      | inl e ↦ rw e (omega arith)
      | inr e ↦ rw e (omega arith)
    ]

length-drop_low_zeros : (ds : List ℕ) → length (drop_low_zeros ds) ≤ length ds
unfolding drop_low_zeros
length-drop_low_zeros [] = omega arith
length-drop_low_zeros (d ∷ ds) =
    let r = length-drop_low_zeros ds in
    elim (Bool-cases (d == 0)) [ inl e ↦ rw e (omega arith) | inr e ↦ rw e (omega arith) ]

length-base100_digits :
    (dec : List ℕ) (scale : ℕ) → length dec ≤ 39 → length (base100_digits dec scale) ≤ 20
unfolding base100_digits
length-base100_digits dec scale h = elim (Bool-cases (scale % 2 == 0)) [
  | inl e ↦ rw e (let r = length-pair_digits dec in omega arith)
  | inr e ↦ rw e (let r = length-pair_digits (0 ∷ dec) in omega arith)
]

-- At most 39 digits are written.
encode_from_digits-some :
    (dec : List ℕ) (negative : Bool) (scale : ℕ)
    → length dec ≤ 39
    → (bytes : Bytes) × (encode_from_digits dec negative scale ≡ some bytes)
unfolding encode_from_digits
encode_from_digits-some dec negative scale h =
    let kept = drop_high_zeros (base100_digits dec scale) in
    let a = length-base100_digits dec scale h in
    let b = length-drop_high_zeros (base100_digits dec scale) in
    let c = length-drop_low_zeros kept in
    let fits : ltb 20 (length (drop_low_zeros kept)) ≡ false = ground arith in
    elim (Bool-cases negative) [ inl e ↦ rw (fits, e) (_, refl) | inr e ↦ rw (fits, e) (_, refl) ]

-- For any magnitude of 128 bits, either sign and any scale: the encoder answers with bytes; its branch for a mantissa
-- that is too long is never taken.
pub encode_oracle_number128-some :
    (m : OracleUint128) (negative : Bool) (scale : ℕ)
    → (bytes : Bytes) × (encode_oracle_number128 m negative scale ≡ some bytes)
unfolding encode_oracle_number128
encode_oracle_number128-some m negative scale = elim (Bool-cases ((m.hi == 0) && (m.lo == 0))) [
  | inl e ↦ rw e (_, refl)
  | inr e ↦ rw e (encode_from_digits-some _ negative scale (length-limb_digits 39 (limbs_of m)))
]
