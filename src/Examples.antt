-- ===== src/Examples.antt =====
-- Concrete runs of the models, and their theorems at concrete inputs.
use oraduck.Prelude.Int.{ℤ, ◌≤ℤ◌, pos, negsuc, pos_part, neg_part, ◌+ℤ◌, ◌*ℤ◌}
use oraduck.Names.{OracleColumn, OracleTypeFamily, parse_target_name}
use oraduck.Names.RoundTrip.{parse-print-parse, print_target_name}
use oraduck.Slice.{SliceKind, Slice}
use oraduck.Rowid.{SegmentExtent, object_units, encode_rowid, build_rowid_slices}
use oraduck.Rowid.Key.{IsRowid, rowid_key-encode, rowid_key, row_number, place}
use oraduck.Rowid.Sorting.{IsExtent}
use oraduck.Rowid.Groups.{ApartInObject, has_extent}
use oraduck.Rowid.Units.{in_slice, one_if}
use oraduck.Rowid.Coverage.{build_rowid_slices-once}
use oraduck.Rowid.Sizes.{AreDealt, object_units-AreDealt, extent_blocks}
use oraduck.Civil.{civil_from_days, days_from_civil, split_micros, micros_per_day, conversions}
use oraduck.Civil.Calendar.{
  IsDate, days_in_month, is_leap_year, mod_400, civil_from_days-days_from_civil,
  civil_from_days-IsDate,
}
use oraduck.Civil.RoundTrip.{days_from_civil-civil_from_days}
use oraduck.Dates.{
  encode_oracle_date, encode_oracle_timestamp, decode_oracle_date, decode_oracle_timestamp,
  format_date_time_text, date_codec,
}
use oraduck.Dates.RoundTrip.{decode-encode_oracle_timestamp, split_micros_lem}
use oraduck.Dates.Accepts.{decode_oracle_date_iff, IsOracleDate, date_micros}
use oraduck.NumberEncode.{
  OracleUint128, limbs_of, limb_digits, encode_oracle_number64, encode_oracle_number128,
  number_encoder,
}
use oraduck.NumberEncode.Digits.{value10, limb_digits_lem, encode_oracle_number128-some}
use oraduck.NumberDecode.{
  Accumulator128, mul64, mul_add, increment, number_decoder, decode_oracle_number_scaled64,
  decode_oracle_number_text, done, inexact,
}
use oraduck.NumberDecode.Accumulator.{
  IsAccumulator, IsExact, mul64_lem, mul_add-IsExact, increment-IsExact, value128,
}
use oraduck.ReadTypes.{
  UnconstrainedNumber, parse_unconstrained_number, bad_unconstrained, base_plan, plan_number,
  read_types,
}
use oraduck.ReadTypes.Numbers.{
  Holds, plan_number-Holds, setting_text, parse_unconstrained_number_iff,
}
use oraduck.Binds.{
  SqlFragment, BindValue, SqlStatement, OracleInt128, bind_decimal, bind_date, bind_text,
  sql_string_literal, sql_binds,
}
use oraduck.Binds.Literal.{read_literal, read_literal-sql_string_literal, starts_quote}
use oraduck.Binds.Totals.{Signed, BindsNumber, bind_decimal-BindsNumber}
use oraduck.ReadSql.{ScanSqlInput, shift_placeholders, build_scan_sql, snapshot_binds, read_sql}
use oraduck.ReadSql.Statement.{build_scan_sql-binds, slice_binds, filter_binds}
use oraduck.Names.{TableDescription}
use oraduck.ColumnPlan.{
  LogicalTypeId, LogicalType, CellRepr, PlannedColumn, build_column_plan, column_plan,
}
use oraduck.ColumnPlan.Required.{IsGiven, target_names, Plans, IsDistinct, build_column_plan-Plans}
use oraduck.FilterSql.{
  ConstantKind, FilterConstant, FilterOp, FilterNode, filter_node, no_nodes, more_nodes,
  translate_filter, filter_sql,
}
use oraduck.FilterSql.Binds.{node_operands, translate_filter-binds}
use oraduck.Prelude.{
  Bool, bytes_eq, length, ◌+◌, ◌-◌, ◌*◌, ◌^◌, ◌≤◌, ◌<◌, ◌≡◌, refl, ◌↔◌, true, false, none, some,
  List, [], ◌∷◌, ◌++◌, arith, drop, count_if, All, AllPairs, Bytes, codes, ok,
}

lower_case :
    parse_target_name (codes " my_schema.T1 ")
    ≡ ok (record { owner = codes "MY_SCHEMA"; table = codes "T1" })
unfolding parse_target_name
lower_case = refl

first_rowid : encode_rowid 73404 4 171 0 ≡ codes "AAAR68AAEAAAACrAAA"
unfolding encode_rowid
first_rowid = refl

civil_tests :
    (civil_from_days (pos 0) ≡ record { year = pos 1970; month = 1; day = 1 })
    × (civil_from_days (negsuc 0) ≡ record { year = pos 1969; month = 12; day = 31 })
    × (days_from_civil (pos 2024) 2 29 ≡ pos 19782)
    × (days_from_civil (pos 1) 1 1 ≡ negsuc 719161)
unfolding conversions
civil_tests = (refl, refl, refl, refl)

date_runs :
    (encode_oracle_date (pos 19850) (pos 45296000000)
      ≡ some (120 ∷ 124 ∷ 5 ∷ 7 ∷ 13 ∷ 35 ∷ 57 ∷ []))
    × (format_date_time_text (pos 19850) (pos 45296123456)
        ≡ some (codes "2024-05-07 12:34:56.123456"))
    × (decode_oracle_date (120 ∷ 124 ∷ 2 ∷ 30 ∷ 1 ∷ 1 ∷ 1 ∷ []) ≡ none)
unfolding date_codec
date_runs = (refl, refl, refl)

encoder_runs :
    (encode_oracle_number64 12345 false 2 ≡ some (0xC2 ∷ 2 ∷ 24 ∷ 46 ∷ []))
    × (encode_oracle_number64 12345 true 2 ≡ some (0x3D ∷ 100 ∷ 78 ∷ 56 ∷ 102 ∷ []))
    × (encode_oracle_number128 (record { hi = 1; lo = 0 }) false 0
        ≡ some (0xCA ∷ 19 ∷ 45 ∷ 68 ∷ 45 ∷ 8 ∷ 38 ∷ 10 ∷ 56 ∷ 17 ∷ 17 ∷ []))
unfolding number_encoder
encoder_runs = (refl, refl, refl)

decoder_runs :
    (decode_oracle_number_scaled64 (0xC2 ∷ 2 ∷ 24 ∷ 46 ∷ []) 2 false ≡ ok (done 12345))
    × (decode_oracle_number_scaled64 (0xC2 ∷ 2 ∷ 24 ∷ 46 ∷ []) 1 true ≡ ok (done 1235))
    × (decode_oracle_number_scaled64 (0xC2 ∷ 2 ∷ 24 ∷ 46 ∷ []) 1 false ≡ ok inexact)
    × (decode_oracle_number_text (0x3D ∷ 100 ∷ 78 ∷ 56 ∷ 102 ∷ []) ≡ ok (codes "-123.45"))
unfolding number_decoder
decoder_runs = (refl, refl, refl, refl)

setting_runs :
    (parse_unconstrained_number (codes " decimal( 38 , 10 )")
      ≡ ok (UnconstrainedNumber.decimal 38 10))
    × (parse_unconstrained_number (codes "DECIMAL(5,6)") ≡ bad_unconstrained (codes "DECIMAL(5,6)"))
unfolding read_types
setting_runs = (refl, refl)

bind_runs :
    (bind_decimal (record { lo = 2 ^ 64 - 5; hi = 2 ^ 64 - 1 }) 2
      ≡ ok (record { dty = 2; bytes = 0x3F ∷ 96 ∷ 102 ∷ []; display = codes "-0.05" }))
    × (bind_date (pos 0)
        ≡ ok (record {
          dty = 12;
          bytes = 119 ∷ 170 ∷ 1 ∷ 1 ∷ 1 ∷ 1 ∷ 1 ∷ [];
          display = codes "DATE '1970-01-01'";
        }))
unfolding sql_binds
bind_runs = (refl, refl)

shift_run :
    shift_placeholders (codes "(\"a:b1\" = :b1 AND x = ':b2' OR y = :b10)") 3
    ≡ codes "(\"a:b1\" = :b4 AND x = ':b2' OR y = :b13)"
unfolding read_sql
shift_run = refl

-- Two extents of a table, in one file.
abbrev first_extent : SegmentExtent
first_extent = record { data_object_id = 73404; relative_fno = 4; block_id = 168; blocks = 8 }

abbrev second_extent : SegmentExtent
second_extent = record { data_object_id = 73404; relative_fno = 4; block_id = 200; blocks = 16 }

abbrev table_extents : List SegmentExtent
table_extents = second_extent ∷ first_extent ∷ []

table_extents-AreExtents : All IsExtent table_extents
table_extents-AreExtents = (
  record { object_in = ground arith; some_blocks = ground arith; placed = ground arith },
  (record { object_in = ground arith; some_blocks = ground arith; placed = ground arith }, tt),
)

table_extents-AreApart : AllPairs ApartInObject table_extents
table_extents-AreApart = (((λ _. ground arith), tt), (tt, tt))

row_address-IsRowid : IsRowid 73404 4 171 5
row_address-IsRowid = record {
  object_in = ground arith;
  place_in = ground arith;
  row_in = ground arith;
}

build_rowid_slices-once_example :
    count_if
      (in_slice (rowid_key (encode_rowid 73404 4 171 5)))
      (build_rowid_slices table_extents 4)
    ≡ one_if (has_extent 73404 table_extents)
build_rowid_slices-once_example =
    build_rowid_slices-once table_extents 4 73404 4 171 5 table_extents-AreExtents
      table_extents-AreApart row_address-IsRowid

rowid_key-encode_example : rowid_key (encode_rowid 73404 4 171 5) ≡ row_number 73404 (place 4 171) 5
rowid_key-encode_example = rowid_key-encode 73404 4 171 5 row_address-IsRowid

object_units-AreDealt_example :
    AreDealt 10 (extent_blocks table_extents) (object_units 10 (73404, table_extents))
object_units-AreDealt_example = object_units-AreDealt 10 73404 table_extents (ground arith)

abbrev moment : ℤ
moment = pos 1715085296123456

moment-after : pos 1 ≤ℤ (civil_from_days (split_micros moment).0).year
unfolding conversions
moment-after = ground arith

moment-before : (civil_from_days (split_micros moment).0).year ≤ℤ pos 9999
unfolding conversions
moment-before = ground arith

decode-encode_oracle_timestamp_example :
    (bytes : Bytes) × (encode_oracle_timestamp (split_micros moment).0 (split_micros moment).1
      ≡ some bytes)
    × (decode_oracle_timestamp bytes ≡ some moment)
decode-encode_oracle_timestamp_example =
    decode-encode_oracle_timestamp moment moment-after moment-before

leap_day-IsDate : IsDate (pos 2024) 2 29
unfolding days_in_month is_leap_year mod_400
leap_day-IsDate = record { month_in = ground arith; day_in = ground arith }

civil_from_days-days_from_civil_example :
    civil_from_days (days_from_civil (pos 2024) 2 29)
    ≡ record { year = pos 2024; month = 2; day = 29 }
civil_from_days-days_from_civil_example =
    civil_from_days-days_from_civil (pos 2024) 2 29 leap_day-IsDate

days_from_civil-civil_from_days_example :
    days_from_civil
      (civil_from_days (negsuc 719161)).year
      (civil_from_days (negsuc 719161)).month
      (civil_from_days (negsuc 719161)).day
    ≡ negsuc 719161
days_from_civil-civil_from_days_example = days_from_civil-civil_from_days (negsuc 719161)

civil_from_days-IsDate_example :
    IsDate
      (civil_from_days (pos 19782)).year
      (civil_from_days (pos 19782)).month
      (civil_from_days (pos 19782)).day
civil_from_days-IsDate_example = civil_from_days-IsDate (pos 19782)

decode_oracle_date_iff_example :
    (decode_oracle_date (120 ∷ 124 ∷ 2 ∷ 30 ∷ 1 ∷ 1 ∷ 1 ∷ []) ≡ some (pos 0))
    ↔ (IsOracleDate 120 124 2 30 1 1 1 × (pos 0 ≡ date_micros 120 124 2 30 1 1 1))
decode_oracle_date_iff_example = decode_oracle_date_iff 120 124 2 30 1 1 1 (pos 0)

split_micros_lem_example :
    (neg_part (split_micros (negsuc 0)).1 ≡ 0)
    × (pos_part (split_micros (negsuc 0)).1 < micros_per_day)
    × (negsuc 0 ≡ (split_micros (negsuc 0)).0 *ℤ micros_per_day +ℤ (split_micros (negsuc 0)).1)
split_micros_lem_example = split_micros_lem (negsuc 0)

abbrev some_accumulator : Accumulator128
some_accumulator = record { hi = 2 ^ 57; lo = 3 }

some_accumulator-IsAccumulator : IsAccumulator some_accumulator
some_accumulator-IsAccumulator = record { hi_in = ground arith; lo_in = ground arith }

mul_add-IsExact_example :
    IsExact (value128 some_accumulator * 100 + 99) (mul_add some_accumulator 100 99)
mul_add-IsExact_example =
    mul_add-IsExact some_accumulator 100 99 some_accumulator-IsAccumulator (ground arith)
      (ground arith)

increment-IsExact_example : IsExact (value128 some_accumulator + 1) (increment some_accumulator)
increment-IsExact_example = increment-IsExact some_accumulator some_accumulator-IsAccumulator

mul64_lem_example :
    ((mul64 (2 ^ 63) 100).0 * 2 ^ 64 + (mul64 (2 ^ 63) 100).1 ≡ 2 ^ 63 * 100)
    × ((mul64 (2 ^ 63) 100).0 < 2 ^ 64)
    × ((mul64 (2 ^ 63) 100).1 < 2 ^ 64)
mul64_lem_example = mul64_lem (2 ^ 63) 100 (ground arith) (ground arith)

parse-print-parse_example :
    parse_target_name (print_target_name (record { owner = codes "MY_SCHEMA"; table = codes "T1" }))
    ≡ ok (record { owner = codes "MY_SCHEMA"; table = codes "T1" })
parse-print-parse_example =
    parse-print-parse (codes " my_schema.T1 ")
      (record { owner = codes "MY_SCHEMA"; table = codes "T1" }) lower_case

parse_unconstrained_number_iff_example :
    (parse_unconstrained_number (setting_text 38 10) ≡ ok (UnconstrainedNumber.decimal 38 10))
    ↔ ((1 ≤ 38) × (38 ≤ 38) × (10 ≤ 38))
parse_unconstrained_number_iff_example = parse_unconstrained_number_iff 38 10

read_literal-sql_string_literal_example :
    read_literal (drop 1 (sql_string_literal (codes "it's") ++ codes ", 1)"))
    ≡ some (codes "it's", codes ", 1)")
unfolding starts_quote
read_literal-sql_string_literal_example =
    read_literal-sql_string_literal (codes "it's") (codes ", 1)") refl

limb_digits_lem_example :
    value10 (limb_digits 39 (limbs_of (record { hi = 1; lo = 7 }))) ≡ 1 * 2 ^ 64 + 7
limb_digits_lem_example = limb_digits_lem 1 7 (ground arith) (ground arith)

encode_oracle_number128-some_example :
    (bytes : Bytes) × (encode_oracle_number128 (record { hi = 2 ^ 64 - 1; lo = 2 ^ 64 - 1 }) true 1
      ≡ some bytes)
encode_oracle_number128-some_example =
    encode_oracle_number128-some (record { hi = 2 ^ 64 - 1; lo = 2 ^ 64 - 1 }) true 1

abbrev minus_five : OracleInt128
minus_five = record { lo = 2 ^ 64 - 5; hi = 2 ^ 64 - 1 }

bind_decimal-BindsNumber_example :
    (b : BindValue) × (m : OracleUint128) × (negative : Bool) × (bind_decimal minus_five 2 ≡ ok b)
    × Signed minus_five negative m
    × BindsNumber m negative 2 b
bind_decimal-BindsNumber_example = bind_decimal-BindsNumber minus_five 2 (omega arith) (omega arith)

abbrev price_column : OracleColumn
price_column = record {
  name = codes "PRICE";
  data_type = codes "NUMBER";
  family = OracleTypeFamily.number;
  data_length = 22;
  precision = pos 10;
  scale = pos 2;
  nullable = true;
  char_length = 0;
  national = false;
  collation = [];
}

plan_number-Holds_example :
    Holds
      (plan_number (base_plan price_column) price_column UnconstrainedNumber.double false).duck_type
      10
      2
      0
plan_number-Holds_example =
    plan_number-Holds (base_plan price_column) price_column UnconstrainedNumber.double
      (ground arith) refl

abbrev scan_input : ScanSqlInput
scan_input = record {
  owner = codes "HR";
  object = codes "T";
  columns = base_plan price_column ∷ [];
  filters =
      record { sql = codes "\"A\" = :b1"; binds = bind_text (codes "x") ∷ []; display = [] } ∷ [];
  snapshot_scn = codes "123";
}

abbrev fourth_bucket : Slice
fourth_bucket = record {
  kind = SliceKind.hash;
  rowid_lo = [];
  rowid_hi = [];
  hi_inclusive = false;
  hash_buckets = 4;
  hash_bucket = 3;
}

build_scan_sql-binds_example :
    (st : SqlStatement) × (b : List BindValue) × (build_scan_sql scan_input fourth_bucket ≡ ok st)
    × (slice_binds fourth_bucket ≡ ok b)
    × (st.binds ≡ snapshot_binds scan_input ++ (filter_binds scan_input.filters ++ b))
build_scan_sql-binds_example = build_scan_sql-binds scan_input fourth_bucket

abbrev name_column : OracleColumn
name_column = record price_column {
  name = codes "NAME";
  data_type = codes "VARCHAR2";
  family = OracleTypeFamily.varchar;
}

abbrev five : FilterConstant
five = record {
  kind = ConstantKind.integer;
  i64 = pos 5;
  i128 = record { lo = 0; hi = 0 };
  scale = 0;
  f64 = 0;
  text = [];
}

abbrev name_text : FilterConstant
name_text = record five { kind = ConstantKind.string; text = codes "x" }

-- PRICE = 5 AND NAME IN ('x', 'x')
abbrev price_and_name : FilterNode
price_and_name = filter_node FilterOp.conj 0 [] (
    more_nodes (filter_node FilterOp.eq 0 (five ∷ []) no_nodes)
      (more_nodes (filter_node FilterOp.in_list 1 (name_text ∷ name_text ∷ []) no_nodes) no_nodes))

abbrev text_bind : BindValue
text_bind = record { dty = 94; bytes = 1 ∷ 0 ∷ 0 ∷ 0 ∷ b'x' ∷ []; display = codes "'x'" }

abbrev pushed_filter : SqlFragment
pushed_filter = record {
  sql = codes "((\"PRICE\" = :b1) AND (\"NAME\" IN (:b2, :b3)))";
  binds =
      record { dty = 2; bytes = 0xC1 ∷ 6 ∷ []; display = codes "5" } ∷ text_bind ∷ text_bind ∷ [];
  display = codes "((\"PRICE\" = 5) AND (\"NAME\" IN ('x', 'x')))";
}

filter_run :
    translate_filter
      (λ bits. [])
      price_and_name
      (price_column ∷ name_column ∷ [])
      (codes "AL32UTF8")
    ≡ some pushed_filter
unfolding filter_sql
filter_run = refl

translate_filter-binds_example : length pushed_filter.binds ≡ node_operands price_and_name
translate_filter-binds_example =
    translate_filter-binds (λ bits. []) price_and_name (price_column ∷ name_column ∷ [])
      (codes "AL32UTF8") pushed_filter filter_run

abbrev price_table : TableDescription
price_table = record {
  owner = codes "HR";
  table = codes "PRICES";
  columns = record price_column { nullable = false } ∷ name_column ∷ [];
  index_count = 0;
}

abbrev double_type : LogicalType
double_type = record {
  id = LogicalTypeId.double;
  decimal_scale = 0;
  text = codes "DOUBLE";
  physical_bytes = 8;
}

abbrev price_plan : List PlannedColumn
price_plan =
    record {
      source_index = 0;
      source_type = double_type;
      target = record price_column { nullable = false };
      repr = CellRepr.native;
      spec = record { name = codes "PRICE"; external_type = 4; max_size = 8; date_format = [] };
      scale = 0;
      scratch_width = 0;
      check_finite = true;
    }
    ∷ []

column_plan_run :
    build_column_plan bytes_eq ((codes "PRICE", double_type) ∷ []) price_table ≡ ok price_plan
unfolding column_plan
column_plan_run = refl

build_column_plan-Plans_example :
    Plans bytes_eq price_table 0 ((codes "PRICE", double_type) ∷ []) price_plan
    × IsDistinct bytes_eq price_table (target_names price_plan)
    × All (IsGiven (target_names price_plan)) price_table.columns
build_column_plan-Plans_example =
    build_column_plan-Plans bytes_eq price_table ((codes "PRICE", double_type) ∷ []) price_plan
      column_plan_run
