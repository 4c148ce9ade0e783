-- ===== src/NumberDecode.antt =====
-- Oracle's NUMBER format, read: src/oracle_decoding.cpp up to `DecodeOracleNumberText`. The uint64_t
-- operations are taken modulo 2 ^ 64; `(x << 32) | y` with y below 2 ^ 32 is a sum, and the exclusive
-- or of a byte with 0xFF is 255 - x.
pub mod Accumulator
use oraduck.Prelude.Int.{ℤ, pos, negsuc, pos_part, neg_part, ◌+ℤ◌, ◌-ℤ◌, ltb_ℤ, is_negative}
use oraduck.Prelude.{
  ℕ, zero, suc, ◌+◌, ◌-◌, ◌*◌, ◌/◌, ◌%◌, ◌^◌, ◌≤◌, ◌<◌, ◌≡◌, refl, sym, ap, ◌∙◌, ◌≢◌, ◌↔◌, ◌⊎◌, inl,
  inr, Bool, true, false, not, ◌&&◌, ◌||◌, Option, none, some, List, [], ◌∷◌, ◌++◌, map, reverse,
  arith, ltb, leb, ◌==◌, if◌then◌else◌, ltb→lt, lt→ltb, ==_iff, ==_refl, Bool-cases, Option-cases,
  some_inj, length, get_or, take, drop, replicate, is_empty, count_if, All, length-append,
  count_if-append, length-replicate, length-map, All-append, AllPairs, All-map, Bytes, codes,
  bytes_eq, is_upper, is_lower, is_alpha, is_digit, is_alnum, is_space, to_upper, to_lower,
  has_byte, starts_with, has_text, last_byte, but_last, to_decimal, bytes_eq→eq, bytes_eq_refl,
  all_below, all_below_sound, Result, ok, err, ◌>>=◌, ◌>>◌, throw_if, >>=-eq-ok, ok_inj,
}

-- ParsedNumber: `pairs` are the base-100 digits, most significant first.
pub record ParsedNumber : Type 0 where
  pub negative : Bool
  pub infinity : Bool
  pub zero_value : Bool
  pub point : ℤ
  pub lead : ℕ
  pub size : ℕ
  pub pairs : List ℕ

abbrev pub fresh_number : ParsedNumber
fresh_number = record {
  negative = false;
  infinity = false;
  zero_value = false;
  point = pos 0;
  lead = 0;
  size = 0;
  pairs = [];
}

-- A base-100 digit of a mantissa byte; more than 99 is malformed.
pub digit_of_byte : Bool → ℕ → ℕ
digit_of_byte negative b = if negative then 255 - (b + 256 - 102) % 256 else (b + 256 - 1) % 256

pub digit_is_bad : ℕ → Bool
digit_is_bad d = ltb 99 d

pub any_bad : List ℕ → Bool
any_bad [] = false
any_bad (d ∷ ds) = digit_is_bad d || any_bad ds

-- How many zeros the digits begin with.
pub leading_zeros : List ℕ → ℕ
leading_zeros [] = 0
leading_zeros (d ∷ ds) = if d == 0 then suc (leading_zeros ds) else 0

-- How many digits are left without the zeros at the end.
pub significant_count : List ℕ → ℕ
significant_count [] = 0
significant_count (d ∷ ds) =
    let rest = significant_count ds in if (rest == 0) && (d == 0) then 0 else suc rest

abbrev pub malformed {ℓ} : {A : Type ℓ} → Bytes → Result A
malformed what = err (codes "malformed Oracle NUMBER (" ++ what ++ codes ")")

-- The number of mantissa bytes: a negative mantissa of fewer than 20 digits ends in the byte 102.
pub mantissa_count : Bool → Bytes → ℕ
mantissa_count negative bytes =
    let count = length bytes - 1 in
    if negative && ltb 0 count && (last_byte bytes == 102) then count - 1 else count

pub exponent_of : Bool → ℕ → ℤ
exponent_of negative b0 = if negative then pos 0x3E -ℤ pos b0 else pos b0 -ℤ pos 0xC1

-- The last part of ParseNumber, once the digits are read.
pub place_digits : Bool → ℤ → List ℕ → ParsedNumber
place_digits negative exponent digits =
    let first = leading_zeros digits in
    let count = significant_count digits in
    let lead = 2 * first + (if ltb (get_or digits first 0) 10 then 1 else 0) in
    let odd_end = if get_or digits (count - 1) 0 % 10 == 0 then 1 else 0 in
    if first == length digits
    then record fresh_number { zero_value = true }
    else record fresh_number {
      negative = negative;
      point = (exponent +ℤ pos 1) +ℤ (exponent +ℤ pos 1) -ℤ pos lead;
      lead = lead;
      size = 2 * count - odd_end - lead;
      pairs = digits;
    }

pub parse_mantissa : Bytes → Result ParsedNumber
parse_mantissa bytes =
    let b0 = get_or bytes 0 0 in
    let negative = ltb b0 0x80 in
    let count = mantissa_count negative bytes in
    let digits = map (digit_of_byte negative) (take count (drop 1 bytes)) in
    if (count == 0) || ltb 20 count
    then malformed (codes "mantissa")
    else if any_bad digits
    then malformed (codes "digit")
    else ok (place_digits negative (exponent_of negative b0) digits)

pub parse_number : Bytes → Result ParsedNumber
parse_number bytes =
    let b0 = get_or bytes 0 0 in
    let b1 = get_or bytes 1 0 in
    let len = length bytes in
    if (len == 0) || ltb 22 len
    then malformed (codes "length " ++ to_decimal len)
    else if b0 == 0x80
    then (if not (len == 1)
        then malformed (codes "zero with digits")
        else ok (record fresh_number { zero_value = true }))
    else if (len == 1) && (b0 == 0)
    then ok (record fresh_number { negative = true; infinity = true })
    else if (len == 2) && (b0 == 0xFF) && (b1 == 0x65)
    then ok (record fresh_number { infinity = true })
    else parse_mantissa bytes

-- StreamDigit
pub stream_digit : List ℕ → ℕ → ℕ
stream_digit pairs i =
    let pair = get_or pairs (i / 2) 0 in if i % 2 == 0 then pair / 10 else pair % 10

-- The loop over four pairs at a time, with the rounds left.
pub group_loop : ℕ → List ℕ → ℕ → ℕ → ℕ
group_loop zero pairs p whole = whole
group_loop (suc rounds) pairs p whole = group_loop rounds pairs (p + 4) (
    (whole * 100000000
      + ((get_or pairs p 0 * 100 + get_or pairs (p + 1) 0) * 10000
          + (get_or pairs (p + 2) 0 * 100 + get_or pairs (p + 3) 0)))
    % 2 ^ 64)

-- The loop over the pairs that are left.
pub pair_loop : ℕ → List ℕ → ℕ → ℕ → ℕ
pair_loop zero pairs p whole = whole
pair_loop (suc count) pairs p whole =
    pair_loop count pairs (p + 1) ((whole * 100 + get_or pairs p 0) % 2 ^ 64)

-- ChunkValue: the value of `digits` digits of the stream from `from` on.
pub chunk_value : List ℕ → ℕ → ℕ → ℕ
chunk_value pairs from digits =
    let end = from + digits in
    let odd_start = from % 2 in
    let head = if odd_start == 0 then 0 else get_or pairs (from / 2) 0 % 10 in
    let p = (from + odd_start) / 2 in
    let count = (end - (from + odd_start)) / 2 in
    let whole =
      pair_loop (count % 4) pairs (p + 4 * (count / 4)) (group_loop (count / 4) pairs p 0) in
    let value = (head * 10 ^ (2 * count) + whole) % 2 ^ 64 in
    if ltb (from + odd_start + 2 * count) end
    then (value * 10 + get_or pairs ((from + odd_start + 2 * count) / 2) 0 / 10) % 2 ^ 64
    else value

-- Mul64: the high and the low half of a product.
pub mul64 : ℕ → ℕ → ℕ × ℕ
mul64 a b =
    let a0 = a % 2 ^ 32 in
    let a1 = a / 2 ^ 32 in
    let b0 = b % 2 ^ 32 in
    let b1 = b / 2 ^ 32 in
    let p00 = a0 * b0 in
    let p01 = a0 * b1 in
    let p10 = a1 * b0 in
    let p11 = a1 * b1 in
    let mid = p00 / 2 ^ 32 + p01 % 2 ^ 32 + p10 % 2 ^ 32 in
    (
      (p11 + p01 / 2 ^ 32 + p10 / 2 ^ 32 + mid / 2 ^ 32) % 2 ^ 64,
      mid * 2 ^ 32 % 2 ^ 64 + p00 % 2 ^ 32,
    )

-- Acc: an unsigned number of 128 bits.
pub record Accumulator128 : Type 0 where
  pub hi : ℕ
  pub lo : ℕ

-- MulAdd, `none` where it returns false.
pub mul_add_low : Accumulator128 → ℕ → ℕ → Option Accumulator128
mul_add_low acc multiplier addend =
    let (p_hi, p_lo) = mul64 acc.lo multiplier in
    let lo = (p_lo + addend) % 2 ^ 64 in
    if ltb lo addend
    then (let hi = (p_hi + 1) % 2 ^ 64 in
        if hi == 0 then none else some (record { hi = hi; lo = lo }))
    else some (record { hi = p_hi; lo = lo })

pub mul_add_high : Accumulator128 → ℕ → ℕ → Option Accumulator128
mul_add_high acc multiplier addend =
    let (h_hi, h_lo) = mul64 acc.hi multiplier in
    let (p_hi, p_lo) = mul64 acc.lo multiplier in
    let new_hi = (h_lo + p_hi) % 2 ^ 64 in
    let new_lo = (p_lo + addend) % 2 ^ 64 in
    let carry = if ltb new_lo addend then 1 else 0 in
    if not (h_hi == 0)
    then none
    else if ltb new_hi h_lo
    then none
    else if ltb new_lo addend && ((new_hi + 1) % 2 ^ 64 == 0)
    then none
    else some (record { hi = (new_hi + carry) % 2 ^ 64; lo = new_lo })

pub mul_add : Accumulator128 → ℕ → ℕ → Option Accumulator128
mul_add acc multiplier addend =
    if acc.hi == 0
    then (if acc.lo == 0
        then some (record { hi = 0; lo = addend })
        else mul_add_low acc multiplier addend)
    else mul_add_high acc multiplier addend

pub increment : Accumulator128 → Option Accumulator128
increment acc =
    let lo = (acc.lo + 1) % 2 ^ 64 in
    let hi = (acc.hi + 1) % 2 ^ 64 in
    if lo == 0
    then (if hi == 0 then none else some (record { hi = hi; lo = lo }))
    else some (record { hi = acc.hi; lo = lo })

-- NumberDecodeStatus, with the accumulator beside kOk.
pub data Decoded (A : Type 0) : Type 0 where
  done : A → Decoded A
  overflow inexact infinite : Decoded A

abbrev pub chunk_digits : ℕ
chunk_digits = 18

-- The loop over the chunks of the digits from `from` to `end`; a chunk takes a digit at least.
pub chunk_loop : ℕ → List ℕ → ℕ → ℕ → Accumulator128 → Option Accumulator128
chunk_loop zero pairs from end acc = some acc
chunk_loop (suc fuel) pairs from end acc =
    let digits = if ltb (end - from) chunk_digits then end - from else chunk_digits in
    let next = mul_add acc (10 ^ digits) (chunk_value pairs from digits) in
    let rest : Option Accumulator128 = elim next [
      | none ↦ none
      | some acc' ↦ chunk_loop fuel pairs (from + digits) end acc'
    ] in
    if ltb from end then rest else some acc

-- The loop over the trailing zeros of the integer part.
pub pad_loop : ℕ → ℕ → Accumulator128 → Option Accumulator128
pad_loop zero pad acc = some acc
pad_loop (suc fuel) pad acc =
    let step = if ltb pad chunk_digits then pad else chunk_digits in
    let rest : Option Accumulator128 = elim (mul_add acc (10 ^ step) 0) [
      | none ↦ none
      | some acc' ↦ pad_loop fuel (pad - step) acc'
    ] in
    if ltb 0 pad then rest else some acc

-- Rounding, once the kept digits are in the accumulator.
pub finish_scaled : ParsedNumber → ℤ → Bool → Accumulator128 → Decoded Accumulator128
finish_scaled n keep round acc =
    let up =
      if is_negative keep then false else leb 5 (stream_digit n.pairs (n.lead + pos_part keep)) in
    if not (ltb_ℤ keep (pos n.size))
    then done acc
    else if not round
    then inexact
    else if up
    then elim (increment acc) [ none ↦ overflow | some acc' ↦ done acc' ]
    else done acc

-- ScaledMagnitude. There are 40 digits at most, and 40 zeros.
pub scaled_magnitude : ParsedNumber → ℕ → Bool → Decoded Accumulator128
scaled_magnitude n scale round =
    let keep = n.point +ℤ pos scale in
    let taken = if ltb_ℤ keep (pos n.size) then pos_part keep else n.size in
    let zero_acc : Accumulator128 = record { hi = 0; lo = 0 } in
    let digits_in = chunk_loop 40 n.pairs n.lead (n.lead + taken) zero_acc in
    if n.infinity
    then infinite
    else if n.zero_value
    then done zero_acc
    else if ltb_ℤ (pos 40) keep
    then overflow
    else elim digits_in [
      | none ↦ overflow
      | some acc ↦ elim (pad_loop 40 (pos_part (keep -ℤ pos taken)) acc) [
        | none ↦ overflow
        | some acc' ↦ finish_scaled n keep round acc'
      ]
    ]

-- The range test and the sign of DecodeOracleNumberScaled64; the int64_t as its bit pattern.
pub finish64 : Bool → Accumulator128 → Decoded ℕ
finish64 negative acc =
    let limit = 2 ^ 63 - 1 + (if negative then 1 else 0) in
    if not (acc.hi == 0) || ltb limit acc.lo
    then overflow
    else done (if negative then (2 ^ 64 - 1 - acc.lo + 1) % 2 ^ 64 else acc.lo)

-- The same of DecodeOracleNumberScaled128: the two halves of a two's complement number.
pub finish128 : Bool → Accumulator128 → Decoded Accumulator128
finish128 negative acc =
    let top = 2 ^ 63 in
    let lo = (2 ^ 64 - 1 - acc.lo + 1) % 2 ^ 64 in
    let hi = (2 ^ 64 - 1 - acc.hi + (if lo == 0 then 1 else 0)) % 2 ^ 64 in
    if ltb top acc.hi || ((acc.hi == top) && (not negative || not (acc.lo == 0)))
    then overflow
    else done (if negative then record { hi = hi; lo = lo } else acc)

infixl 5 ◌>>=ᵈ◌
abbrev pub ◌>>=ᵈ◌ : {A B : Type 0} → Decoded A → (A → Decoded B) → Decoded B
done a >>=ᵈ f = f a
overflow >>=ᵈ f = overflow
inexact >>=ᵈ f = inexact
infinite >>=ᵈ f = infinite

pub decode_oracle_number_scaled64 : Bytes → ℕ → Bool → Result (Decoded ℕ)
decode_oracle_number_scaled64 bytes scale round = do
  n ← parse_number bytes
  ok (scaled_magnitude n scale round >>=ᵈ finish64 n.negative)

pub decode_oracle_number_scaled128 : Bytes → ℕ → Bool → Result (Decoded Accumulator128)
decode_oracle_number_scaled128 bytes scale round = do
  n ← parse_number bytes
  ok (scaled_magnitude n scale round >>=ᵈ finish128 n.negative)

-- append_digits from `i`, `count` of them.
pub append_digits : ParsedNumber → ℕ → ℕ → Bytes
append_digits n i zero = []
append_digits n i (suc count) =
    (b'0' + stream_digit n.pairs (n.lead + i)) ∷ append_digits n (i + 1) count

pub number_text : ParsedNumber → Bytes
number_text n =
    let sign = if n.negative then b'-' ∷ [] else [] in
    let whole = pos_part n.point in
    if n.infinity
    then (if n.negative then codes "-Infinity" else codes "Infinity")
    else if n.zero_value
    then codes "0"
    else if not (ltb_ℤ (pos 0) n.point)
    then sign ++ (codes "0." ++ (replicate (neg_part n.point) b'0' ++ append_digits n 0 n.size))
    else if not (ltb_ℤ n.point (pos n.size))
    then sign ++ (append_digits n 0 n.size ++ replicate (whole - n.size) b'0')
    else sign ++ (append_digits n 0 whole ++ (b'.' ∷ append_digits n whole (n.size - whole)))

pub decode_oracle_number_text : Bytes → Result Bytes
decode_oracle_number_text bytes = do n ← parse_number bytes; ok (number_text n)

-- Opens all that the decoder calls.
unfoldable pub number_decoder : Unit {0}
unfolding digit_of_byte digit_is_bad any_bad leading_zeros significant_count mantissa_count
    exponent_of place_digits parse_mantissa parse_number stream_digit group_loop pair_loop
    chunk_value mul64 mul_add_low mul_add_high mul_add increment chunk_loop pad_loop finish_scaled
    scaled_magnitude finish64 finish128 decode_oracle_number_scaled64 decode_oracle_number_scaled128
    append_digits number_text decode_oracle_number_text last_byte to_decimal ◌+ℤ◌ ◌-ℤ◌
number_decoder = tt
