-- ===== src/ColumnPlan.antt =====
-- The plan of a load: src/column_plan.cpp and src/include/oraduck/column_plan.hpp. What DuckDB answers
-- about a LogicalType (id, scale of a DECIMAL, text, bytes of its physical type) is a record;
-- StringUtil::CIEquals is a parameter. A thrown BinderException is the err of Result.
pub mod Required
use oraduck.Prelude.Int.{ℤ, pos, ltb_ℤ}
use oraduck.Names.{OracleTypeFamily, OracleColumn, TableDescription}
use oraduck.Oci.{
  sqlt_chr, sqlt_num, sqlt_int, sqlt_flt, sqlt_dat, sqlt_bfloat, sqlt_bdouble, sqlt_uin,
  internal_timestamp,
}
use oraduck.Dates.{oracle_date_bytes, oracle_timestamp_bytes}
use oraduck.Prelude.{
  ℕ, zero, suc, ◌+◌, ◌-◌, ◌*◌, ◌/◌, ◌%◌, ◌^◌, ◌≤◌, ◌<◌, ◌≡◌, refl, sym, ap, ◌∙◌, ◌≢◌, ◌↔◌, ◌⊎◌, inl,
  inr, Bool, true, false, not, ◌&&◌, ◌||◌, Option, none, some, List, [], ◌∷◌, ◌++◌, map, reverse,
  arith, ltb, leb, ◌==◌, if◌then◌else◌, ltb→lt, lt→ltb, ==_iff, ==_refl, Bool-cases, Option-cases,
  some_inj, length, get_or, take, drop, replicate, is_empty, count_if, All, length-append,
  count_if-append, length-replicate, length-map, All-append, AllPairs, All-map, Bytes, codes,
  bytes_eq, is_upper, is_lower, is_alpha, is_digit, is_alnum, is_space, to_upper, to_lower,
  has_byte, starts_with, has_text, last_byte, but_last, to_decimal, bytes_eq→eq, bytes_eq_refl,
  all_below, all_below_sound, Result, ok, err, ◌>>=◌, ◌>>◌, throw_if, >>=-eq-ok, ok_inj,
}

-- The ids that the plan tells apart.
pub data LogicalTypeId : Type 0 where
  varchar boolean tinyint smallint integer bigint utinyint usmallint uinteger ubigint :
      LogicalTypeId
  decimal float double date timestamp other : LogicalTypeId

pub record LogicalType : Type 0 where
  pub id : LogicalTypeId
  pub decimal_scale : ℕ
  pub text : Bytes
  pub physical_bytes : ℕ

pub data CellRepr : Type 0 where
  string native number_encoded date_dat date_time_text timestamp_internal : CellRepr

pub record DirPathColumnSpec : Type 0 where
  pub name : Bytes
  pub external_type : ℕ
  pub max_size : ℕ
  pub date_format : Bytes

pub record PlannedColumn : Type 0 where
  pub source_index : ℕ
  pub source_type : LogicalType
  pub target : OracleColumn
  pub repr : CellRepr
  pub spec : DirPathColumnSpec
  pub scale : ℕ
  pub scratch_width : ℕ
  pub check_finite : Bool

pub qualified : TableDescription → Bytes
qualified t = t.owner ++ (codes "." ++ t.table)

-- The last column of that very name.
pub exact_match : Bytes → List OracleColumn → Option OracleColumn
exact_match name [] = none
exact_match name (c ∷ cs) = elim (exact_match name cs) [
  | some found ↦ some found
  | none ↦ if bytes_eq c.name name then some c else none
]

pub insensitive_matches : (Bytes → Bytes → Bool) → Bytes → List OracleColumn → List OracleColumn
insensitive_matches same name [] = []
insensitive_matches same name (c ∷ cs) =
    let rest = insensitive_matches same name cs in if same c.name name then c ∷ rest else rest

pub only_match : Bytes → TableDescription → List OracleColumn → Result OracleColumn
only_match name table [] =
    err (codes "OraDuck: column \"" ++ (name ++ (codes "\" does not exist in " ++ qualified table)))
only_match name table (c ∷ []) = ok c
only_match name table (c ∷ d ∷ cs) = err (
    codes "OraDuck: column \""
    ++ (name
        ++ (codes "\" matches several columns of "
            ++ (qualified table ++ codes " (different case)"))))

pub match_column : (Bytes → Bytes → Bool) → Bytes → TableDescription → Result OracleColumn
match_column same name table = elim (exact_match name table.columns) [
  | some c ↦ ok c
  | none ↦ only_match name table (insensitive_matches same name table.columns)
]

pub is_signed_integer : LogicalTypeId → Bool
is_signed_integer id = elim id [
  | LogicalTypeId.tinyint ↦ true
  | LogicalTypeId.smallint ↦ true
  | LogicalTypeId.integer ↦ true
  | LogicalTypeId.bigint ↦ true
  | _ ↦ false
]

pub mismatch : PlannedColumn → Result PlannedColumn
mismatch pc = err (
    codes "OraDuck: DuckDB type "
    ++ (pc.source_type.text
        ++ (codes " is not compatible with Oracle column "
            ++ (pc.target.name ++ (codes " (" ++ (pc.target.data_type ++ codes ")"))))))

pub with_spec : PlannedColumn → CellRepr → ℕ → ℕ → PlannedColumn
with_spec pc repr external_type max_size = record pc {
  repr = repr;
  spec = record pc.spec { external_type = external_type; max_size = max_size };
}

pub plan_varchar : PlannedColumn → Result PlannedColumn
plan_varchar pc = elim pc.target.family [
  | OracleTypeFamily.varchar ↦ ok (with_spec pc CellRepr.string sqlt_chr pc.target.data_length)
  | _ ↦ mismatch pc
]

pub plan_integer : PlannedColumn → Result PlannedColumn
plan_integer pc = elim pc.target.family [
  | OracleTypeFamily.number ↦ ok (
      with_spec pc CellRepr.native
        (if is_signed_integer pc.source_type.id then sqlt_int else sqlt_uin)
        pc.source_type.physical_bytes)
  | _ ↦ mismatch pc
]

-- kOracleNumberMaxBytes
abbrev pub oracle_number_max_bytes : ℕ
oracle_number_max_bytes = 22

-- kDateTimeTextBytes
abbrev pub date_time_text_bytes : ℕ
date_time_text_bytes = 26

pub plan_decimal : PlannedColumn → Result PlannedColumn
plan_decimal pc = elim pc.target.family [
  | OracleTypeFamily.number ↦
      ok (record (with_spec pc CellRepr.number_encoded sqlt_num oracle_number_max_bytes) {
        scale = pc.source_type.decimal_scale;
        scratch_width = oracle_number_max_bytes;
      })
  | _ ↦ mismatch pc
]

pub plan_float : Bool → PlannedColumn → Result PlannedColumn
plan_float is_double pc =
    let size = if is_double then 8 else 4 in
    let native_cell = λ (external : ℕ) (finite : Bool).
      (ok (record (with_spec pc CellRepr.native external size) { check_finite = finite })) in
    elim pc.target.family [
      | OracleTypeFamily.binary_double ↦
          native_cell (if is_double then sqlt_bdouble else sqlt_flt) false
      | OracleTypeFamily.binary_float ↦
          native_cell (if is_double then sqlt_flt else sqlt_bfloat) false
      | OracleTypeFamily.number ↦ native_cell sqlt_flt true
      | _ ↦ mismatch pc
    ]

pub plan_moment : PlannedColumn → Result PlannedColumn
plan_moment pc = elim pc.target.family [
  | OracleTypeFamily.date ↦ ok (record (with_spec pc CellRepr.date_dat sqlt_dat oracle_date_bytes) {
    scratch_width = oracle_date_bytes;
  })
  | OracleTypeFamily.timestamp ↦
      (if not (ltb_ℤ pc.target.scale (pos 6))
        then ok
            (record (with_spec pc CellRepr.timestamp_internal internal_timestamp
              oracle_timestamp_bytes) { scratch_width = oracle_timestamp_bytes })
        else ok (record pc {
          repr = CellRepr.date_time_text;
          spec = record pc.spec {
            external_type = sqlt_chr;
            max_size = date_time_text_bytes;
            date_format = codes "YYYY-MM-DD HH24:MI:SS.FF6";
          };
          scratch_width = date_time_text_bytes;
        }))
  | _ ↦ mismatch pc
]

pub plan_column_type : PlannedColumn → Result PlannedColumn
plan_column_type pc = elim pc.source_type.id [
  | LogicalTypeId.varchar ↦ plan_varchar pc
  | LogicalTypeId.decimal ↦ plan_decimal pc
  | LogicalTypeId.float ↦ plan_float false pc
  | LogicalTypeId.double ↦ plan_float true pc
  | LogicalTypeId.date ↦ plan_moment pc
  | LogicalTypeId.timestamp ↦ plan_moment pc
  | LogicalTypeId.other ↦ err (
      codes "OraDuck: unsupported DuckDB type "
      ++ (pc.source_type.text
          ++ (codes " (column " ++ (pc.target.name ++ codes "); convert the column with CAST"))))
  | _ ↦ plan_integer pc
]

-- std::set, as the names that were put into it.
pub is_used : Bytes → List Bytes → Bool
is_used name [] = false
is_used name (n ∷ ns) = bytes_eq name n || is_used name ns

pub new_column : ℕ → LogicalType → OracleColumn → PlannedColumn
new_column index type target = record {
  source_index = index;
  source_type = type;
  target = target;
  repr = CellRepr.string;
  spec = record { name = target.name; external_type = 0; max_size = 0; date_format = [] };
  scale = 0;
  scratch_width = 0;
  check_finite = false;
}

-- The first loop, over the query's columns: the names are `used` before each. The plan, and the names at the end.
pub plan_loop :
    (Bytes → Bytes → Bool)
    → TableDescription
    → ℕ
    → List Bytes
    → List (Bytes × LogicalType)
    → Result (List PlannedColumn × List Bytes)
plan_loop same table index used [] = ok ([], used)
plan_loop same table index used ((name, type) ∷ cs) = do
  target ← match_column same name table
  throw_if (is_used target.name used)
      (codes "OraDuck: several query columns target Oracle column " ++ target.name)
  pc ← plan_column_type (new_column index type target)
  (rest, all) ← plan_loop same table (index + 1) (target.name ∷ used) cs
  ok (pc ∷ rest, all)

-- The second loop, over the table's columns.
pub check_required : List Bytes → List OracleColumn → Result (Unit {0})
check_required used [] = ok tt
check_required used (c ∷ cs) = do
  throw_if (not c.nullable && not (is_used c.name used)) (
      codes "OraDuck: Oracle column "
      ++ (c.name ++ codes " is NOT NULL but missing from the query"))
  check_required used cs

pub build_column_plan :
    (Bytes → Bytes → Bool)
    → List (Bytes × LogicalType)
    → TableDescription
    → Result (List PlannedColumn)
build_column_plan same columns table = do
  (plan, used) ← plan_loop same table 0 [] columns
  check_required used table.columns
  ok plan

-- Opens all that the plan calls.
unfoldable pub column_plan : Unit {0}
unfolding qualified exact_match insensitive_matches only_match match_column is_signed_integer
    mismatch with_spec plan_varchar plan_integer plan_decimal plan_float plan_moment
    plan_column_type is_used new_column plan_loop check_required build_column_plan bytes_eq
column_plan = tt
