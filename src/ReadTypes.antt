-- ===== src/ReadTypes.antt =====
-- How the columns of a table are read: src/read_types.cpp and src/include/oraduck/read_types.hpp.
pub mod Numbers
use oraduck.Prelude.Int.{ℤ, pos, negsuc, pos_part, neg_part, ◌+ℤ◌, ◌-ℤ◌, ltb_ℤ, is_negative}
use oraduck.Names.{OracleColumn}
use oraduck.Oci.{
  sqlt_chr, sqlt_num, sqlt_int, sqlt_dat, sqlt_bin, sqlt_bfloat, sqlt_bdouble, sqlt_clob, sqlt_blob,
  internal_timestamp,
}
use oraduck.Prelude.{
  ℕ, zero, suc, ◌+◌, ◌-◌, ◌*◌, ◌/◌, ◌%◌, ◌^◌, ◌≤◌, ◌<◌, ◌≡◌, refl, sym, ap, ◌∙◌, ◌≢◌, ◌↔◌, ◌⊎◌, inl,
  inr, Bool, true, false, not, ◌&&◌, ◌||◌, Option, none, some, List, [], ◌∷◌, ◌++◌, map, reverse,
  arith, ltb, leb, ◌==◌, if◌then◌else◌, ltb→lt, lt→ltb, ==_iff, ==_refl, Bool-cases, Option-cases,
  some_inj, length, get_or, take, drop, replicate, is_empty, count_if, All, length-append,
  count_if-append, length-replicate, length-map, All-append, AllPairs, All-map, Bytes, codes,
  bytes_eq, is_upper, is_lower, is_alpha, is_digit, is_alnum, is_space, to_upper, to_lower,
  has_byte, starts_with, has_text, last_byte, but_last, to_decimal, bytes_eq→eq, bytes_eq_refl,
  all_below, all_below_sound, Result, ok, err, ◌>>=◌, ◌>>◌, throw_if, >>=-eq-ok, ok_inj,
}

pub data DuckTypeId : Type 0 where
  smallint integer bigint decimal float double varchar timestamp timestamp_tz blob : DuckTypeId

pub record DuckTypeSpec : Type 0 where
  pub id : DuckTypeId
  pub width : ℕ
  pub scale : ℕ

pub data FetchDecoder : Type 0 where
  number_int64 number_decimal64 number_decimal128 number_text native_int64 native_double
        native_float string binary date timestamp timestamp_text unsupported :
      FetchDecoder

-- UnconstrainedNumber, whose width and scale count for kDecimal alone.
pub data UnconstrainedNumber : Type 0 where
  double varchar : UnconstrainedNumber
  decimal : ℕ → ℕ → UnconstrainedNumber

pub record ReadColumnPlan : Type 0 where
  pub name : Bytes
  pub select_expr : Bytes
  pub duck_type : DuckTypeSpec
  pub decoder : FetchDecoder
  pub dty : ℕ
  pub define_bytes : ℕ
  pub national : Bool
  pub lob : Bool
  pub scale : ℕ
  pub round : Bool
  pub unsupported : Bytes

pub upper : Bytes → Bytes
upper s = map to_upper s

pub strip_spaces : Bytes → Bytes
strip_spaces [] = []
strip_spaces (c ∷ s) = if is_space c then strip_spaces s else c ∷ strip_spaces s

pub all_digits : Bytes → Bool
all_digits [] = true
all_digits (c ∷ s) = is_digit c && all_digits s

-- std::atoi of digits.
pub atoi_loop : ℕ → Bytes → ℕ
atoi_loop n [] = n
atoi_loop n (c ∷ s) = atoi_loop (n * 10 + (c - b'0')) s

pub parse_uint : Bytes → Option ℕ
parse_uint s =
    if is_empty s || ltb 4 (length s)
    then none
    else if all_digits s
    then some (atoi_loop 0 s)
    else none

-- The parts of `inner` before and after its first comma.
pub split_comma : Bytes → Option (Bytes × Bytes)
split_comma [] = none
split_comma (c ∷ s) =
    if c == b','
    then some ([], s)
    else elim (split_comma s) [ none ↦ none | some (p, q) ↦ some (c ∷ p, q) ]

pub bad_unconstrained : Bytes → Result UnconstrainedNumber
bad_unconstrained text = err (
    codes "invalid value for the unconstrained NUMBER setting: '"
    ++ (text
        ++ codes "' (accepted: DOUBLE, VARCHAR, DECIMAL(p,s) with 1 <= p <= 38 and 0 <= s <= p)"))

-- The test of DECIMAL(p,s), on p and s as parsed.
pub decimal_setting : Bytes → Option ℕ → Option ℕ → Result UnconstrainedNumber
decimal_setting text (some p) (some s) =
    if leb 1 p && leb p 38 && leb s p
    then ok (UnconstrainedNumber.decimal p s)
    else bad_unconstrained text
decimal_setting text (some p) none = bad_unconstrained text
decimal_setting text none s = bad_unconstrained text

pub decimal_inner : Bytes → Option (Bytes × Bytes) → Result UnconstrainedNumber
decimal_inner text none = bad_unconstrained text
decimal_inner text (some (p, s)) = decimal_setting text (parse_uint p) (parse_uint s)

pub parse_unconstrained_number : Bytes → Result UnconstrainedNumber
parse_unconstrained_number text =
    let t = upper (strip_spaces text) in
    if bytes_eq t (codes "DOUBLE")
    then ok UnconstrainedNumber.double
    else if bytes_eq t (codes "VARCHAR")
    then ok UnconstrainedNumber.varchar
    else if starts_with t (codes "DECIMAL(") && (last_byte t == b')')
    then decimal_inner text (split_comma (take (length t - 9) (drop 8 t)))
    else bad_unconstrained text

pub is_utf8_charset : Bytes → Bool
is_utf8_charset charset =
    let c = upper charset in bytes_eq c (codes "AL32UTF8") || bytes_eq c (codes "UTF8")

-- Base
pub base_plan : OracleColumn → ReadColumnPlan
base_plan c = record {
  name = c.name;
  select_expr = b'"' ∷ (c.name ++ (b'"' ∷ []));
  duck_type = record { id = DuckTypeId.varchar; width = 0; scale = 0 };
  decoder = FetchDecoder.unsupported;
  dty = 0;
  define_bytes = 0;
  national = false;
  lob = false;
  scale = 0;
  round = false;
  unsupported = [];
}

abbrev pub plain_type : DuckTypeId → DuckTypeSpec
plain_type id = record { id = id; width = 0; scale = 0 }

-- The casts of width and scale to uint8_t.
pub set_decimal : ReadColumnPlan → ℕ → ℕ → ReadColumnPlan
set_decimal plan width scale = record plan {
  duck_type = record { id = DuckTypeId.decimal; width = width % 256; scale = scale % 256 };
  decoder = if leb width 18 then FetchDecoder.number_decimal64 else FetchDecoder.number_decimal128;
  dty = sqlt_num;
  define_bytes = 22;
  scale = scale % 256;
}

pub set_double : ReadColumnPlan → ReadColumnPlan
set_double plan = record plan {
  duck_type = plain_type DuckTypeId.double;
  decoder = FetchDecoder.native_double;
  dty = sqlt_bdouble;
  define_bytes = 8;
}

-- A NUMBER without precision and scale, and a FLOAT.
pub plan_unconstrained : ReadColumnPlan → UnconstrainedNumber → ReadColumnPlan
plan_unconstrained plan UnconstrainedNumber.double = set_double plan
plan_unconstrained plan UnconstrainedNumber.varchar = record plan {
  duck_type = plain_type DuckTypeId.varchar;
  decoder = FetchDecoder.number_text;
  dty = sqlt_num;
  define_bytes = 22;
}
plan_unconstrained plan (UnconstrainedNumber.decimal width scale) =
    record (set_decimal plan width scale) { round = true }

-- PlanNumber once the precision `p` and a scale that is not negative are known.
pub plan_scaled : ReadColumnPlan → ℕ → ℕ → Bool → ReadColumnPlan
plan_scaled plan p s has_precision =
    if ltb p s
    then (if leb s 38 then set_decimal plan s s else set_double plan)
    else if (s == 0) && has_precision && leb p 18
    then record plan {
      duck_type = record plan.duck_type {
        id =
            if leb p 4
            then DuckTypeId.smallint
            else if leb p 9
            then DuckTypeId.integer
            else DuckTypeId.bigint;
      };
      decoder = FetchDecoder.native_int64;
      dty = sqlt_int;
      define_bytes = 8;
    }
    else set_decimal plan p s

-- PlanNumber
pub plan_number : ReadColumnPlan → OracleColumn → UnconstrainedNumber → Bool → ReadColumnPlan
plan_number plan c u is_float =
    let has_precision = ltb_ℤ (pos 0) c.precision in
    let p = if has_precision then pos_part c.precision else 38 in
    if is_float || (is_negative c.precision && is_negative c.scale)
    then plan_unconstrained plan u
    else if is_negative c.scale
    then (if leb (p + neg_part c.scale) 38
        then set_decimal plan (p + neg_part c.scale) 0
        else set_double plan)
    else plan_scaled plan p (pos_part c.scale) has_precision

pub plan_timestamp : ReadColumnPlan → Bytes → ReadColumnPlan
plan_timestamp plan type =
    let q = plan.select_expr in
    let base = record plan {
      decoder = FetchDecoder.timestamp;
      dty = internal_timestamp;
      define_bytes = 11;
    } in
    if has_text type (codes "WITH LOCAL TIME ZONE")
    then record base {
      duck_type = plain_type DuckTypeId.timestamp_tz;
      select_expr = codes "SYS_EXTRACT_UTC(CAST(" ++ (q ++ codes " AS TIMESTAMP WITH TIME ZONE))");
    }
    else if has_text type (codes "WITH TIME ZONE")
    then record base {
      duck_type = plain_type DuckTypeId.timestamp_tz;
      select_expr = codes "SYS_EXTRACT_UTC(" ++ (q ++ codes ")");
    }
    else record base { duck_type = plain_type DuckTypeId.timestamp }

pub plan_text : ReadColumnPlan → Bool → ℕ → ReadColumnPlan
plan_text plan national bytes = record plan {
  duck_type = plain_type DuckTypeId.varchar;
  decoder = FetchDecoder.string;
  dty = sqlt_chr;
  national = national;
  define_bytes = bytes;
}

pub plan_lob : ReadColumnPlan → DuckTypeId → FetchDecoder → ℕ → Bool → ReadColumnPlan
plan_lob plan id decoder dty national = record plan {
  duck_type = plain_type id;
  decoder = decoder;
  dty = dty;
  lob = true;
  define_bytes = 8;
  national = national;
}

-- The products of uint32_t.
pub times3 : ℕ → ℕ
times3 n = n * 3 % 2 ^ 32

pub plan_read_column : OracleColumn → UnconstrainedNumber → Bytes → ReadColumnPlan
plan_read_column column unconstrained db_charset =
    let plan = base_plan column in
    let type = upper column.data_type in
    let q = plan.select_expr in
    let is = λ (t : Bytes). bytes_eq type t in
    if is (codes "NUMBER") || is (codes "FLOAT")
    then plan_number plan column unconstrained (is (codes "FLOAT"))
    else if is (codes "BINARY_FLOAT")
    then record plan {
      duck_type = plain_type DuckTypeId.float;
      decoder = FetchDecoder.native_float;
      dty = sqlt_bfloat;
      define_bytes = 4;
    }
    else if is (codes "BINARY_DOUBLE")
    then set_double plan
    else if is (codes "DATE")
    then record plan {
      duck_type = plain_type DuckTypeId.timestamp;
      decoder = FetchDecoder.date;
      dty = sqlt_dat;
      define_bytes = 7;
    }
    else if starts_with type (codes "TIMESTAMP")
    then plan_timestamp plan type
    else if is (codes "VARCHAR2") || is (codes "CHAR")
    then plan_text plan false
        (if is_utf8_charset db_charset then column.data_length else times3 column.data_length)
    else if is (codes "NVARCHAR2") || is (codes "NCHAR")
    then plan_text plan true ((times3 column.data_length + 1) % 2 ^ 32 / 2)
    else if is (codes "CLOB") || is (codes "NCLOB")
    then plan_lob plan DuckTypeId.varchar FetchDecoder.string sqlt_clob (is (codes "NCLOB"))
    else if is (codes "RAW")
    then record plan {
      duck_type = plain_type DuckTypeId.blob;
      decoder = FetchDecoder.binary;
      dty = sqlt_bin;
      define_bytes = column.data_length;
    }
    else if is (codes "BLOB")
    then plan_lob plan DuckTypeId.blob FetchDecoder.binary sqlt_blob false
    else if is (codes "ROWID") || is (codes "UROWID")
    then record (plan_text plan false 4000) {
      select_expr =
          if is (codes "ROWID")
          then codes "ROWIDTOCHAR(" ++ (q ++ codes ")")
          else codes "CAST(" ++ (q ++ codes " AS VARCHAR2(4000))");
    }
    else record plan {
      duck_type = plain_type DuckTypeId.varchar;
      decoder = FetchDecoder.unsupported;
      unsupported =
          codes "column "
          ++ (q
              ++ (codes " has Oracle type "
                  ++ (column.data_type ++ codes ", which oraduck_scan does not read")));
    }

-- Opens all that the planning calls.
unfoldable pub read_types : Unit {0}
unfolding upper strip_spaces all_digits atoi_loop parse_uint split_comma bad_unconstrained
    decimal_setting decimal_inner parse_unconstrained_number is_utf8_charset base_plan set_decimal
    set_double plan_unconstrained plan_scaled plan_number plan_timestamp plan_text plan_lob times3
    plan_read_column bytes_eq starts_with has_text last_byte
read_types = tt
