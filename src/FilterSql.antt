-- ===== src/FilterSql.antt =====
-- Filters pushed to Oracle: src/filter_sql.cpp and src/include/oraduck/filter_sql.hpp. The fragment that
-- the Builder holds is threaded as its binds; an unpushable part and a thrown error are both `none`,
-- since TranslateFilter answers nullopt to either and drops the Builder. A double is its bits.
pub mod Operands
pub mod Binds
use oraduck.Prelude.Numerals.{leading_number, skip_spaces}
use oraduck.Prelude.Int.{ℤ, pos, negsuc, ◌*ℤ◌, mod_trunc, eq_ℤ, ltb_ℤ}
use oraduck.Names.{OracleColumn}
use oraduck.Civil.{split_micros, micros_per_second, micros_per_day, days_from_civil}
use oraduck.Dates.{format_date_time_text, date_codec}
use oraduck.ReadTypes.{
  DuckTypeId, UnconstrainedNumber, ReadColumnPlan, upper, is_utf8_charset, plan_read_column,
  read_types,
}
use oraduck.Binds.{
  BindValue, SqlFragment, OracleInt128, bind_number, bind_decimal, bind_double, bind_date,
  bind_text, bind_varchar, sql_string_literal, sql_binds,
}
use oraduck.ReadSql.{quote_identifier, next_placeholder, read_sql}
use oraduck.Prelude.{
  ℕ, zero, suc, ◌+◌, ◌-◌, ◌*◌, ◌/◌, ◌%◌, ◌^◌, ◌≡◌, refl, Bool, true, false, not, ◌&&◌, ◌||◌, Option,
  none, some, List, [], ◌∷◌, ◌++◌, ltb, leb, ◌==◌, if◌then◌else◌, length, get_or, is_empty, Bytes,
  codes, bytes_eq, is_digit, is_space, has_byte, starts_with, has_text, Result, ok, err,
}

infixl 5 ◌>>=◌ ◌>>◌
abbrev pub ◌>>=◌ {ℓ κ} : {A : Type ℓ} {B : Type κ} → Option A → (A → Option B) → Option B
none >>= f = none
some a >>= f = f a

abbrev pub ◌>>◌ {ℓ} : {B : Type ℓ} → Option (Unit {0}) → Option B → Option B
m >> k = m >>= λ _. k

-- `if (bad) return false;`
abbrev pub refuse_if : Bool → Option (Unit {0})
refuse_if bad = if bad then none else some tt

pub data ConstantKind : Type 0 where
  integer decimal double string timestamp date : ConstantKind

pub record FilterConstant : Type 0 where
  pub kind : ConstantKind
  pub i64 : ℤ
  pub i128 : OracleInt128
  pub scale : ℕ
  pub f64 : ℕ
  pub text : Bytes

-- `conj` and `disj` are kAnd and kOr.
pub data FilterOp : Type 0 where
  conj disj eq ne lt le gt ge in_list is_null is_not_null date_eq : FilterOp

mutual
  pub data FilterNode : Type 0 where
    filter_node : FilterOp → ℕ → List FilterConstant → FilterNodes → FilterNode

  pub data FilterNodes : Type 0 where
    no_nodes : FilterNodes
    more_nodes : FilterNode → FilterNodes → FilterNodes

pub data ColumnKind : Type 0 where
  number binary_float binary_double date timestamp char lob other : ColumnKind

pub record ColumnInfo : Type 0 where
  pub kind : ColumnKind
  pub national : Bool
  pub binary_collation : Bool

abbrev pub max_in_list : ℕ
max_in_list = 1000

abbrev pub max_bind_text_bytes : ℕ
max_bind_text_bytes = 4000

-- The text behind the first '('.
pub after_open : Bytes → Option Bytes
after_open [] = none
after_open (c ∷ s) = let rest = after_open s in if c == b'(' then some s else rest

-- std::atoi, whose result is unspecified beyond an int.
pub signed_number : Bytes → ℤ
signed_number [] = pos 0
signed_number (c ∷ s) =
    if c == b'-'
    then (if leading_number 0 s == 0 then pos 0 else negsuc (leading_number 0 s - 1))
    else if c == b'+'
    then pos (leading_number 0 s)
    else pos (leading_number 0 (c ∷ s))

pub atoi : Bytes → ℤ
atoi s = signed_number (skip_spaces s)

pub fractional_digits : Bytes → ℤ
fractional_digits t = elim (after_open t) [ none ↦ pos 6 | some s ↦ atoi s ]

pub is_exact : DuckTypeId → Bool
is_exact id = elim id [
  | DuckTypeId.smallint ↦ true
  | DuckTypeId.integer ↦ true
  | DuckTypeId.bigint ↦ true
  | DuckTypeId.decimal ↦ true
  | _ ↦ false
]

-- The kind of a column. A NUMBER counts when the scan maps it to an exact type.
pub kind_of_column : OracleColumn → Bytes → ColumnKind
kind_of_column c db_charset =
    let t = c.data_type in
    let is = λ (name : Bytes). bytes_eq t name in
    if is (codes "NUMBER")
    then (if is_exact (plan_read_column c UnconstrainedNumber.double db_charset).duck_type.id
        then ColumnKind.number
        else ColumnKind.other)
    else if is (codes "BINARY_FLOAT")
    then ColumnKind.binary_float
    else if is (codes "BINARY_DOUBLE")
    then ColumnKind.binary_double
    else if is (codes "DATE")
    then ColumnKind.date
    else if starts_with t (codes "TIMESTAMP")
    then (if not (has_text t (codes "WITH")) && not (ltb_ℤ (pos 6) (fractional_digits t))
        then ColumnKind.timestamp
        else ColumnKind.other)
    else if is (codes "VARCHAR2")
        || is (codes "NVARCHAR2")
        || is (codes "CHAR")
        || is (codes "NCHAR")
    then ColumnKind.char
    else if is (codes "CLOB") || is (codes "NCLOB") || is (codes "BLOB")
    then ColumnKind.lob
    else ColumnKind.other

pub is_char : ColumnKind → Bool
is_char ColumnKind.char = true
is_char _ = false

pub classify : OracleColumn → Bytes → ColumnInfo
classify c db_charset =
    let collation = upper c.collation in
    let kind = kind_of_column c db_charset in
    record {
      kind = kind;
      national = c.national || (is_char kind && (get_or c.data_type 0 0 == b'N'));
      binary_collation =
          is_empty collation
          || bytes_eq collation (codes "USING_NLS_COMP")
          || bytes_eq collation (codes "BINARY");
    }

-- SQL and display of a part of the filter, and the binds of the fragment with its own.
pub record Piece : Type 0 where
  pub sql : Bytes
  pub display : Bytes
  pub binds : List BindValue

-- AddBind, to an empty text; a bind that throws gives `none`.
pub add_bind : List BindValue → Result BindValue → Option Piece
add_bind binds (err e) = none
add_bind binds (ok b) =
    some (record { sql = next_placeholder binds; display = b.display; binds = binds ++ (b ∷ []) })

pub is_ascii : Bytes → Bool
is_ascii [] = true
is_ascii (c ∷ s) = ltb c 0x80 && is_ascii s

pub is_range : FilterOp → Bool
is_range FilterOp.lt = true
is_range FilterOp.le = true
is_range FilterOp.gt = true
is_range FilterOp.ge = true
is_range _ = false

-- std::isfinite
pub is_finite : ℕ → Bool
is_finite bits = not (bits / 2 ^ 52 % 2 ^ 11 == 2047)

pub date_micros_of : FilterConstant → Option ℤ
date_micros_of k = elim k.kind [
  | ConstantKind.timestamp ↦ some k.i64
  | ConstantKind.date ↦
      (if ltb_ℤ (pos 4000000) k.i64 || ltb_ℤ k.i64 (negsuc 3999999)
        then none
        else some (k.i64 *ℤ micros_per_day))
  | _ ↦ none
]

-- The parts of the Builder that do not change, and the text of a double.
pub record Builder : Type 0 where
  pub columns : List OracleColumn
  pub db_charset : Bytes
  pub utf8 : Bool
  pub al32utf8 : Bool
  pub print : ℕ → Bytes

pub number_operand : List BindValue → FilterConstant → Option Piece
number_operand binds k = elim k.kind [
  | ConstantKind.integer ↦ add_bind binds (bind_number k.i64)
  | ConstantKind.decimal ↦ add_bind binds (bind_decimal k.i128 k.scale)
  | _ ↦ none
]

pub double_operand : (ℕ → Bytes) → List BindValue → FilterConstant → Option Piece
double_operand print binds k = elim k.kind [
  | ConstantKind.double ↦
      if is_finite k.f64 then add_bind binds (ok (bind_double print k.f64)) else none
  | _ ↦ none
]

pub date_operand : List BindValue → FilterConstant → Option Piece
date_operand binds k = do
  micros ← date_micros_of k
  refuse_if (not (eq_ℤ (mod_trunc micros micros_per_second) (pos 0)))
  add_bind binds (bind_date micros)

pub timestamp_operand : List BindValue → FilterConstant → Option Piece
timestamp_operand binds k = do
  micros ← date_micros_of k
  value ← format_date_time_text (split_micros micros).0 (split_micros micros).1
  some (record {
    sql =
        codes "TO_TIMESTAMP(" ++ (next_placeholder binds ++ codes ", 'YYYY-MM-DD HH24:MI:SS.FF6')");
    display = codes "TIMESTAMP " ++ sql_string_literal value;
    binds = binds ++ (bind_text value ∷ []);
  })

pub is_string : ConstantKind → Bool
is_string ConstantKind.string = true
is_string _ = false

pub char_operand : Builder → ColumnInfo → FilterOp → List BindValue → FilterConstant → Option Piece
char_operand b info op binds k = do
  refuse_if (
      not (is_string k.kind)
      || is_empty k.text
      || ltb max_bind_text_bytes (length k.text)
      || has_byte 0 k.text
      || not info.binary_collation)
  refuse_if (is_range op && (not b.al32utf8 || info.national))
  refuse_if (not b.utf8 && not (is_ascii k.text))
  add_bind binds (bind_varchar k.text)

pub operand : Builder → ColumnInfo → FilterOp → List BindValue → FilterConstant → Option Piece
operand b info op binds k = elim info.kind [
  | ColumnKind.number ↦ number_operand binds k
  | ColumnKind.binary_float ↦ double_operand b.print binds k
  | ColumnKind.binary_double ↦ double_operand b.print binds k
  | ColumnKind.date ↦ date_operand binds k
  | ColumnKind.timestamp ↦ timestamp_operand binds k
  | ColumnKind.char ↦ char_operand b info op binds k
  | _ ↦ none
]

pub null_test : Bytes → Bytes → ColumnInfo → OracleColumn → List BindValue → Option Piece
null_test test quoted info column binds =
    let text = codes "(" ++ (quoted ++ test) in
    let piece : Piece = record { sql = text; display = text; binds = binds } in
    elim info.kind [
      | ColumnKind.other ↦ if bytes_eq column.data_type (codes "NUMBER") then some piece else none
      | _ ↦ some piece
    ]

pub not_comparable : ColumnKind → Bool
not_comparable ColumnKind.lob = true
not_comparable ColumnKind.other = true
not_comparable _ = false

pub is_date_column : ColumnKind → Bool
is_date_column ColumnKind.date = true
is_date_column _ = false

pub is_date_constant : ConstantKind → Bool
is_date_constant ConstantKind.date = true
is_date_constant _ = false

pub day_text : Bytes → Bytes → Bytes → Bytes
day_text quoted first second =
    codes "("
    ++ (quoted
        ++ (codes " >= "
            ++ (first
                ++ (codes " AND " ++ (quoted ++ (codes " < " ++ (second ++ codes " + 1)")))))))

pub date_test : Bytes → ColumnInfo → List BindValue → List FilterConstant → Option Piece
date_test quoted info binds [] = none
date_test quoted info binds (k ∷ l ∷ ks) = none
date_test quoted info binds (k ∷ []) = do
  refuse_if (not (is_date_column info.kind) || not (is_date_constant k.kind))
  micros ← date_micros_of k
  refuse_if (not (ltb_ℤ k.i64 (days_from_civil (pos 9999) 12 31)))
  first ← add_bind binds (bind_date micros)
  second ← add_bind first.binds (bind_date micros)
  some (record {
    sql = day_text quoted first.sql second.sql;
    display = day_text quoted first.display second.display;
    binds = second.binds;
  })

-- The loop of an IN list.
pub in_items : Builder → ColumnInfo → Bytes → List BindValue → List FilterConstant → Option Piece
in_items b info glue binds [] = some (record { sql = []; display = []; binds = binds })
in_items b info glue binds (k ∷ ks) = do
  p ← operand b info FilterOp.in_list binds k
  rest ← in_items b info (codes ", ") p.binds ks
  some (record {
    sql = glue ++ (p.sql ++ rest.sql);
    display = glue ++ (p.display ++ rest.display);
    binds = rest.binds;
  })

pub in_test : Builder → Bytes → ColumnInfo → List BindValue → List FilterConstant → Option Piece
in_test b quoted info binds ks = do
  refuse_if (is_empty ks || ltb max_in_list (length ks))
  items ← in_items b info [] binds ks
  some (record {
    sql = codes "(" ++ (quoted ++ (codes " IN (" ++ (items.sql ++ codes "))")));
    display = codes "(" ++ (quoted ++ (codes " IN (" ++ (items.display ++ codes "))")));
    binds = items.binds;
  })

pub comparison :
    Builder
    → Bytes
    → Bytes
    → ColumnInfo
    → FilterOp
    → List BindValue
    → List FilterConstant
    → Option Piece
comparison b symbol quoted info op binds [] = none
comparison b symbol quoted info op binds (k ∷ l ∷ ks) = none
comparison b symbol quoted info op binds (k ∷ []) = do
  p ← operand b info op binds k
  some (record {
    sql = codes "(" ++ (quoted ++ (codes " " ++ (symbol ++ (codes " " ++ (p.sql ++ codes ")")))));
    display =
        codes "(" ++ (quoted ++ (codes " " ++ (symbol ++ (codes " " ++ (p.display ++ codes ")")))));
    binds = p.binds;
  })

pub nth_column : List OracleColumn → ℕ → Option OracleColumn
nth_column [] i = none
nth_column (c ∷ cs) zero = some c
nth_column (c ∷ cs) (suc i) = nth_column cs i

-- Leaf, behind the lookup of the column.
pub leaf_test :
    Builder → FilterOp → OracleColumn → List BindValue → List FilterConstant → Option Piece
leaf_test b op column binds ks =
    let info = classify column b.db_charset in
    let quoted = quote_identifier column.name in
    let compared = λ (symbol : Bytes).
      (if not_comparable info.kind then none else comparison b symbol quoted info op binds ks) in
    elim op [
      | FilterOp.conj ↦ none
      | FilterOp.disj ↦ none
      | FilterOp.is_null ↦ null_test (codes " IS NULL)") quoted info column binds
      | FilterOp.is_not_null ↦ null_test (codes " IS NOT NULL)") quoted info column binds
      | FilterOp.date_eq ↦ if not_comparable info.kind then none else date_test quoted info binds ks
      | FilterOp.in_list ↦ if not_comparable info.kind then none else in_test b quoted info binds ks
      | FilterOp.eq ↦ compared (codes "=")
      | FilterOp.ne ↦ compared (codes "<>")
      | FilterOp.lt ↦ compared (codes "<")
      | FilterOp.le ↦ compared (codes "<=")
      | FilterOp.gt ↦ compared (codes ">")
      | FilterOp.ge ↦ compared (codes ">=")
    ]

pub leaf : Builder → FilterOp → ℕ → List FilterConstant → List BindValue → Option Piece
leaf b op column ks binds = do c ← nth_column b.columns column; leaf_test b op c binds ks

pub parenthesized : Piece → Piece
parenthesized p = record {
  sql = codes "(" ++ (p.sql ++ codes ")");
  display = codes "(" ++ (p.display ++ codes ")");
  binds = p.binds;
}

mutual
  pub node : Builder → FilterNode → List BindValue → Option Piece
  node b (filter_node op column ks children) binds = elim op [
    | FilterOp.conj ↦ junction b (codes " AND ") children binds
    | FilterOp.disj ↦ junction b (codes " OR ") children binds
    | o ↦ leaf b o column ks binds
  ]

  pub junction : Builder → Bytes → FilterNodes → List BindValue → Option Piece
  junction b glue no_nodes binds = none
  junction b glue (more_nodes n ns) binds = do
    first ← node b n binds
    rest ← node_list b glue ns first.binds
    some (
        parenthesized (record {
          sql = first.sql ++ rest.sql;
          display = first.display ++ rest.display;
          binds = rest.binds;
        }))

  -- The rounds of the loop behind the first child.
  pub node_list : Builder → Bytes → FilterNodes → List BindValue → Option Piece
  node_list b glue no_nodes binds = some (record { sql = []; display = []; binds = binds })
  node_list b glue (more_nodes n ns) binds = do
    first ← node b n binds
    rest ← node_list b glue ns first.binds
    some (record {
      sql = glue ++ (first.sql ++ rest.sql);
      display = glue ++ (first.display ++ rest.display);
      binds = rest.binds;
    })

pub translate_filter : (ℕ → Bytes) → FilterNode → List OracleColumn → Bytes → Option SqlFragment
translate_filter print n columns db_charset = do
  p ←
      node
        (record {
          columns = columns;
          db_charset = db_charset;
          utf8 = is_utf8_charset db_charset;
          al32utf8 = bytes_eq (upper db_charset) (codes "AL32UTF8");
          print = print;
        })
        n []
  some (record { sql = p.sql; binds = p.binds; display = p.display })

-- Opens all that the translation calls.
unfoldable pub filter_sql : Unit {0}
unfolding after_open leading_number signed_number skip_spaces atoi fractional_digits is_exact
    kind_of_column is_char classify add_bind is_ascii is_range is_finite date_micros_of
    number_operand double_operand date_operand timestamp_operand is_string char_operand operand
    null_test not_comparable is_date_column is_date_constant day_text date_test in_items in_test
    comparison has_byte nth_column leaf_test leaf parenthesized node junction node_list
    translate_filter read_sql read_types days_from_civil
filter_sql = tt
