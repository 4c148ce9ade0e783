-- ===== src/DescribeSource.antt =====
-- Tables and views to read: src/describe_source.cpp and src/include/oraduck/describe_source.hpp.
pub mod Kept
pub mod Schema
pub mod Synonyms
use oraduck.Prelude.Int.{ℤ, pos, negsuc}
use oraduck.Prelude.Numerals.{stoul, stoi}
use oraduck.Names.{TargetName, OracleColumn, classify_oracle_type}
use oraduck.Session.{
  Call, query, execute, Fault, oracle_error, oraduck_error, source_not_found, other_error, Rows,
  Database, Answer, rows, fails, Outcome, done, fault, Action, pure, throw, ◌>>=◌, ◌>>◌, catch,
  or_throw, query_strings, execute_sql, first_value, field,
}
use oraduck.Prelude.{
  ℕ, zero, suc, ◌+◌, ◌-◌, ◌*◌, ◌/◌, ◌%◌, ◌^◌, ◌≤◌, ◌<◌, ◌≡◌, refl, sym, ap, ◌∙◌, ◌≢◌, ◌↔◌, ◌⊎◌, inl,
  inr, Bool, true, false, not, ◌&&◌, ◌||◌, Option, none, some, List, [], ◌∷◌, ◌++◌, map, reverse,
  arith, ltb, leb, ◌==◌, if◌then◌else◌, ltb→lt, lt→ltb, ==_iff, ==_refl, Bool-cases, Option-cases,
  some_inj, length, get_or, take, drop, replicate, is_empty, count_if, All, length-append,
  count_if-append, length-replicate, length-map, All-append, AllPairs, All-map, Bytes, codes,
  bytes_eq, is_upper, is_lower, is_alpha, is_digit, is_alnum, is_space, to_upper, to_lower,
  has_byte, starts_with, has_text, last_byte, but_last, to_decimal, bytes_eq→eq, bytes_eq_refl,
  all_below, all_below_sound,
}

pub data SourceKind : Type 0 where
  table view : SourceKind

pub record OracleTableDescription : Type 0 where
  pub owner : Bytes
  pub name : Bytes
  pub kind : SourceKind
  pub partitioned : Bool
  pub num_rows : ℤ
  pub owned_by_session_user : Bool
  pub db_charset : Bytes
  pub nchar_charset : Bytes
  pub columns : List OracleColumn

-- OracleTableDescription()
abbrev pub empty_description : OracleTableDescription
empty_description = record {
  owner = [];
  name = [];
  kind = SourceKind.table;
  partitioned = false;
  num_rows = negsuc 0;
  owned_by_session_user = false;
  db_charset = [];
  nchar_charset = [];
  columns = [];
}

-- MAX_SYNONYM_DEPTH
abbrev pub max_synonym_depth : ℕ
max_synonym_depth = 8

abbrev pub column_fields : Bytes
column_fields =
    codes
      "column_name, data_type, data_length, NVL(data_precision, -1), NVL(data_scale, -1), nullable, char_length, character_set_name, collation"

-- static_cast<uint32_t>(std::stoul(text)), and std::stoi and std::stoll.
pub read_uint32 : Bytes → Action ℕ
read_uint32 text = do n ← or_throw (codes "stoul") (stoul text); pure (n % 2 ^ 32)

pub read_int : ℕ → Bytes → Action ℤ
read_int width text = or_throw (codes "stoi") (stoi width text)

-- The column that row[first], row[first + 1], ... describe.
pub column_from_row : List Bytes → ℕ → Action OracleColumn
column_from_row row first = do
  data_length ← read_uint32 (field row (first + 2))
  precision ← read_int 32 (field row (first + 3))
  scale ← read_int 32 (field row (first + 4))
  char_length ← read_uint32 (field row (first + 6))
  pure (record {
    name = field row first;
    data_type = field row (first + 1);
    family = classify_oracle_type (field row (first + 1));
    data_length = data_length;
    precision = precision;
    scale = scale;
    nullable = bytes_eq (field row (first + 5)) (codes "Y");
    char_length = char_length;
    national = bytes_eq (field row (first + 7)) (codes "NCHAR_CS");
    collation = field row (first + 8);
  })

pub columns_from_rows : Rows → Action (List OracleColumn)
columns_from_rows [] = pure []
columns_from_rows (row ∷ rs) = do
  column ← column_from_row row 0
  columns ← columns_from_rows rs
  pure (column ∷ columns)

-- rows.at(0).at(0) of a query.
pub query_value : Database → Bytes → Action Bytes
query_value db sql = do
  rs ← query_strings db sql []
  or_throw (codes "vector::_M_range_check") (first_value rs)

pub session_user : Database → Action Bytes
session_user db = query_value db (codes "SELECT USER FROM dual")

abbrev pub current_schema_sql : Bytes
current_schema_sql = codes "SELECT SYS_CONTEXT('USERENV', 'CURRENT_SCHEMA') FROM dual"

pub current_schema : Database → Action Bytes
current_schema db = query_value db current_schema_sql

abbrev pub charsets_sql : Bytes
charsets_sql =
    codes
      "SELECT parameter, value FROM nls_database_parameters WHERE parameter IN ('NLS_CHARACTERSET', 'NLS_NCHAR_CHARACTERSET')"

pub set_charsets : Rows → OracleTableDescription → OracleTableDescription
set_charsets [] description = description
set_charsets (row ∷ rs) description = set_charsets rs (
    if bytes_eq (field row 0) (codes "NLS_CHARACTERSET")
    then record description { db_charset = field row 1 }
    else record description { nchar_charset = field row 1 })

pub read_charsets : Database → OracleTableDescription → Action OracleTableDescription
read_charsets db description = do
  rs ← query_strings db charsets_sql []
  pure (set_charsets rs description)

pub prepare_read_session : Database → Action (Unit {0})
prepare_read_session db =
    execute_sql db
      (codes "ALTER SESSION SET NLS_COMP = 'BINARY' NLS_SORT = 'BINARY' NLS_CALENDAR = 'GREGORIAN'")

abbrev pub object_type_sql : Bytes
object_type_sql =
    codes
      "SELECT object_type FROM all_objects WHERE owner = :1 AND object_name = :2 AND object_type IN ('TABLE', 'VIEW', 'MATERIALIZED VIEW', 'SYNONYM')"

pub type_or_empty : Rows → Bytes
type_or_empty [] = []
type_or_empty (row ∷ rs) = field row 0

pub find_object_type : Database → Bytes → Bytes → Action Bytes
find_object_type db owner name = do
  rs ← query_strings db object_type_sql (owner ∷ name ∷ [])
  pure (type_or_empty rs)

abbrev pub synonym_sql : Bytes
synonym_sql =
    codes
      "SELECT table_owner, table_name, db_link FROM all_synonyms WHERE owner = :1 AND synonym_name = :2"

abbrev pub public : Bytes
public = codes "PUBLIC"

-- The owner and the type of an object, looked for among the public ones where that is allowed.
pub look_further : Database → Bytes → Bytes → Bytes → Bool → Action (Bytes × Bytes)
look_further db owner object type false = pure (owner, type)
look_further db owner object type true = do
  public_type ← find_object_type db public object
  pure (if is_empty public_type then (owner, public_type) else (public, public_type))

pub look_up : Database → Bool → Bytes → Bytes → Action (Bytes × Bytes)
look_up db public_allowed owner object = do
  type ← find_object_type db owner object
  look_further db owner object type (public_allowed && is_empty type)

-- What is asked for, for the messages.
pub not_found : Bytes → Bytes → Fault
not_found requested_owner wanted = source_not_found (
    codes "Oracle table or view not found or not accessible: "
    ++ (requested_owner ++ (codes "." ++ wanted)))

pub too_deep : Bytes → Fault
too_deep wanted = oraduck_error (codes "Oracle synonym chain too deep or circular: " ++ wanted)

pub over_link : Bytes → Bytes → Fault
over_link owner object = oraduck_error (
    codes "Oracle synonym over a database link is not supported: "
    ++ (owner ++ (codes "." ++ object)))

-- Where a synonym leads.
pub synonym_target : Bytes → Bytes → Bytes → Bytes → Rows → Action (Bytes × Bytes)
synonym_target requested_owner wanted owner object [] = throw (not_found requested_owner wanted)
synonym_target requested_owner wanted owner object (row ∷ rs) = elim (is_empty (field row 2)) [
  | true ↦ pure (field row 0, field row 1)
  | false ↦ throw (over_link owner object)
]

pub follow_synonym : Database → Bytes → Bytes → Bytes → Bytes → Action (Bytes × Bytes)
follow_synonym db requested_owner wanted owner object = do
  rs ← query_strings db synonym_sql (owner ∷ object ∷ [])
  synonym_target requested_owner wanted owner object rs

-- What a type says of the search: it goes on at a synonym.
pub data Found : Type 0 where
  absent reached synonym : Found

pub found_of : Bytes → Found
found_of type =
    if is_empty type
    then Found.absent
    else if bytes_eq type (codes "SYNONYM")
    then Found.synonym
    else Found.reached

-- The end of the search, or `go_on` at a synonym.
pub settle :
    Bytes
    → Bytes
    → Bytes
    → Bytes
    → Bytes
    → Action (Bytes × Bytes × Bytes)
    → Found
    → Action (Bytes × Bytes × Bytes)
settle requested_owner wanted owner object type go_on Found.absent =
    throw (not_found requested_owner wanted)
settle requested_owner wanted owner object type go_on Found.reached = pure (owner, object, type)
settle requested_owner wanted owner object type go_on Found.synonym = go_on

-- The loop over the synonyms with `left` = max_synonym_depth - depth: the owner, the object and its type.
pub resolve : Database → Bytes → Bytes → Bool → Bytes → Bytes → ℕ → Action (Bytes × Bytes × Bytes)
resolve db requested_owner wanted public_allowed owner object zero = do
  (owner', type) ← look_up db public_allowed owner object
  settle requested_owner wanted owner' object type (throw (too_deep wanted)) (found_of type)
resolve db requested_owner wanted public_allowed owner object (suc left) = do
  (owner', type) ← look_up db public_allowed owner object
  settle requested_owner wanted owner' object type
      (do
        (next_owner, next_object) ← follow_synonym db requested_owner wanted owner' object
        resolve db requested_owner wanted false next_owner next_object left)
      (found_of type)

abbrev pub columns_sql : Bytes
columns_sql =
    codes "SELECT "
    ++ (column_fields
        ++ codes " FROM all_tab_columns WHERE owner = :1 AND table_name = :2 ORDER BY column_id")

abbrev pub table_sql : Bytes
table_sql =
    codes
      "SELECT partitioned, NVL(num_rows, -1) FROM all_tables WHERE owner = :1 AND table_name = :2"

pub set_table : Rows → OracleTableDescription → Action OracleTableDescription
set_table [] description = pure description
set_table (row ∷ rs) description = do
  num_rows ← read_int 64 (field row 1)
  pure (record description {
    partitioned = bytes_eq (field row 0) (codes "YES");
    num_rows = num_rows;
  })

pub describe_table : Database → OracleTableDescription → Action OracleTableDescription
describe_table db description = elim description.kind [
  | SourceKind.view ↦ pure description
  | SourceKind.table ↦ do
    rs ← query_strings db table_sql (description.owner ∷ description.name ∷ [])
    set_table rs description
]

pub kind_of_type : Bytes → SourceKind
kind_of_type type = if bytes_eq type (codes "VIEW") then SourceKind.view else SourceKind.table

pub source_owner : Database → TargetName → Action Bytes
source_owner db name = elim (is_empty name.owner) [
  | true ↦ current_schema db
  | false ↦ pure name.owner
]

-- The description of a resolved object.
pub describe_object : Database → Bytes → Bytes → Bytes → Action OracleTableDescription
describe_object db owner object type = do
  user ← session_user db
  column_rows ← query_strings db columns_sql (owner ∷ object ∷ [])
  columns ← columns_from_rows column_rows
  description ← describe_table db (record empty_description {
    owner = owner;
    name = object;
    kind = kind_of_type type;
    owned_by_session_user = bytes_eq owner user;
    columns = columns;
  })
  read_charsets db description

pub describe_source : Database → TargetName → Action OracleTableDescription
describe_source db name = do
  owner ← source_owner db name
  (found_owner, object, type) ←
      resolve db owner name.table (is_empty name.owner) owner name.table max_synonym_depth
  describe_object db found_owner object type

-- Opens what describes a table.
unfoldable pub describe_calls : Unit {0}
unfolding read_uint32 read_int column_from_row columns_from_rows query_value session_user
    current_schema set_charsets read_charsets prepare_read_session type_or_empty find_object_type
    look_further look_up not_found too_deep over_link synonym_target follow_synonym found_of settle
    resolve set_table describe_table kind_of_type source_owner describe_object describe_source
describe_calls = tt
