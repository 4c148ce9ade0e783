-- ===== src/Binds.antt =====
-- Bind variables: src/sql_binds.cpp and src/include/oraduck/sql_binds.hpp. A double is its 64-bit
-- pattern, and its text is snprintf's, a parameter. The machine is little-endian (x86-64, arm64).
pub mod Literal
pub mod Totals
use oraduck.Prelude.Int.{ℤ, pos, pos_part, neg_part, div_trunc, is_negative}
use oraduck.Civil.{split_micros, micros_per_second}
use oraduck.Dates.{encode_oracle_date, format_date_time_text, date_codec}
use oraduck.NumberEncode.{
  OracleUint128, limbs_of, limb_digits, encode_oracle_number128, number_encoder,
}
use oraduck.Oci.{sqlt_chr, sqlt_num, sqlt_dat, sqlt_bdouble, sqlt_lvc}
use oraduck.Prelude.{
  ℕ, zero, suc, ◌+◌, ◌-◌, ◌*◌, ◌/◌, ◌%◌, ◌^◌, ◌≤◌, ◌<◌, ◌≡◌, refl, sym, ap, ◌∙◌, ◌≢◌, ◌↔◌, ◌⊎◌, inl,
  inr, Bool, true, false, not, ◌&&◌, ◌||◌, Option, none, some, List, [], ◌∷◌, ◌++◌, map, reverse,
  arith, ltb, leb, ◌==◌, if◌then◌else◌, ltb→lt, lt→ltb, ==_iff, ==_refl, Bool-cases, Option-cases,
  some_inj, length, get_or, take, drop, replicate, is_empty, count_if, All, length-append,
  count_if-append, length-replicate, length-map, All-append, AllPairs, All-map, Bytes, codes,
  bytes_eq, is_upper, is_lower, is_alpha, is_digit, is_alnum, is_space, to_upper, to_lower,
  has_byte, starts_with, has_text, last_byte, but_last, to_decimal, bytes_eq→eq, bytes_eq_refl,
  all_below, all_below_sound, Result, ok, err, ◌>>=◌, ◌>>◌, throw_if, >>=-eq-ok, ok_inj,
}

pub record BindValue : Type 0 where
  pub dty : ℕ
  pub bytes : Bytes
  pub display : Bytes

pub record SqlFragment : Type 0 where
  pub sql : Bytes
  pub binds : List BindValue
  pub display : Bytes

pub record SqlStatement : Type 0 where
  pub sql : Bytes
  pub binds : List BindValue

-- OracleInt128: two's complement, `hi` by its bits.
pub record OracleInt128 : Type 0 where
  pub lo : ℕ
  pub hi : ℕ

-- The digits of DecimalText, least significant first, with zeros up to the point and one before it.
pub text_digits : OracleUint128 → ℕ → Bytes
text_digits magnitude scale =
    let digits = map (λ d. b'0' + d) (limb_digits 39 (limbs_of magnitude)) in
    digits ++ replicate (scale + 1 - length digits) b'0'

-- The last loop of DecimalText, with `i` digits to go.
pub emit_digits : ℕ → Bytes → ℕ → Bytes
emit_digits zero digits scale = []
emit_digits (suc i) digits scale =
    get_or digits i 0
    ∷ ((if (i == scale) && ltb 0 scale then b'.' ∷ [] else []) ++ emit_digits i digits scale)

pub decimal_text : OracleUint128 → Bool → ℕ → Bytes
decimal_text magnitude negative scale =
    let digits = text_digits magnitude scale in
    (if negative then b'-' ∷ [] else []) ++ emit_digits (length digits) digits scale

pub number_bind : OracleUint128 → Bool → ℕ → Result BindValue
number_bind magnitude negative scale = elim (encode_oracle_number128 magnitude negative scale) [
  | none ↦ err (codes "value not representable as an Oracle NUMBER bind")
  | some bytes ↦
      ok (record { dty = sqlt_num; bytes = bytes; display = decimal_text magnitude negative scale })
]

-- The magnitude of an int64_t is 0 - value in uint64_t when it is negative.
pub bind_number : ℤ → Result BindValue
bind_number value =
    number_bind (record { hi = 0; lo = pos_part value + neg_part value }) (is_negative value) 0

pub bind_decimal : OracleInt128 → ℕ → Result BindValue
bind_decimal value scale =
    let negative = leb (2 ^ 63) value.hi in
    let lo = (2 ^ 64 - 1 - value.lo + 1) % 2 ^ 64 in
    let hi = (2 ^ 64 - 1 - value.hi + (if lo == 0 then 1 else 0)) % 2 ^ 64 in
    number_bind
      (if negative then record { hi = hi; lo = lo } else record { hi = value.hi; lo = value.lo })
      negative scale

-- The loop of SqlStringLiteral.
pub double_quotes : Bytes → Bytes
double_quotes [] = []
double_quotes (c ∷ s) = if c == 39 then 39 ∷ c ∷ double_quotes s else c ∷ double_quotes s

pub sql_string_literal : Bytes → Bytes
sql_string_literal value = 39 ∷ (double_quotes value ++ (39 ∷ []))

pub bind_text : Bytes → BindValue
bind_text value = record { dty = sqlt_chr; bytes = value; display = sql_string_literal value }

-- The bytes of a number in memory.
pub little_endian : ℕ → ℕ → Bytes
little_endian zero n = []
little_endian (suc k) n = (n % 256) ∷ little_endian k (n / 256)

pub bind_varchar : Bytes → Result BindValue
bind_varchar value =
    if ltb (2 ^ 31 - 1 - 4) (length value)
    then err (codes "text too long for a bind")
    else ok (record {
      dty = sqlt_lvc;
      bytes = little_endian 4 (length value) ++ value;
      display = sql_string_literal value;
    })

-- The text of FormatDateTimeText, which has the same range as EncodeOracleDate.
pub text_or_empty : Option Bytes → Bytes
text_or_empty none = []
text_or_empty (some t) = t

pub bind_date : ℤ → Result BindValue
bind_date micros =
    let (days, micros_of_day) = split_micros micros in
    let text = text_or_empty (format_date_time_text days micros_of_day) in
    elim (encode_oracle_date days micros_of_day) [
      | none ↦ err (codes "date outside the Oracle DATE range")
      | some buf ↦ ok (record {
        dty = sqlt_dat;
        bytes = buf;
        display =
            if ltb (pos_part micros_of_day) micros_per_second
            then codes "DATE '" ++ (take 10 text ++ codes "'")
            else codes "TO_DATE('" ++ (take 19 text ++ codes "', 'YYYY-MM-DD HH24:MI:SS')");
      })
    ]

-- snprintf with "%.17g"
pub bind_double : (ℕ → Bytes) → ℕ → BindValue
bind_double print bits = record {
  dty = sqlt_bdouble;
  bytes = little_endian 8 bits;
  display = print bits ++ codes "d";
}

-- Opens all that the binds call.
unfoldable pub sql_binds : Unit {0}
unfolding text_digits emit_digits decimal_text number_bind bind_number bind_decimal double_quotes
    sql_string_literal bind_text little_endian bind_varchar text_or_empty bind_date bind_double
    date_codec number_encoder
sql_binds = tt
