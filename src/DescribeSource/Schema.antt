-- ===== src/DescribeSource/Schema.antt =====
-- All tables and views of a schema: DescribeSchema of src/describe_source.cpp. The std::map is a list of the
-- descriptions, ascending by their names.
pub mod Ordered
pub mod Kinds
pub mod Columns
pub mod Listed
use oraduck.Prelude.Int.{ℤ}
use oraduck.Names.{OracleColumn}
use oraduck.DescribeSource.{
  SourceKind, OracleTableDescription, empty_description, column_fields, read_int, column_from_row,
  session_user, read_charsets, kind_of_type, describe_calls,
}
use oraduck.Session.{Rows, Database, Action, pure, ◌>>=◌, query_strings, field}
use oraduck.Prelude.{
  Bool, true, false, ◌&&◌, ◌||◌, Option, none, some, List, [], ◌∷◌, ◌++◌, map, ltb, ◌==◌,
  if◌then◌else◌, is_empty, Bytes, codes, bytes_eq,
}

abbrev pub SchemaObjects : Type 0
SchemaObjects = List OracleTableDescription

-- The order of std::string.
pub bytes_lt : Bytes → Bytes → Bool
bytes_lt s [] = false
bytes_lt [] (d ∷ t) = true
bytes_lt (c ∷ s) (d ∷ t) = ltb c d || ((c == d) && bytes_lt s t)

-- objects[name], with the kind that its row says.
pub put_object : Bytes → SourceKind → SchemaObjects → SchemaObjects
put_object name kind [] = record empty_description { name = name; kind = kind } ∷ []
put_object name kind (o ∷ objects) =
    let later = o ∷ put_object name kind objects in
    if bytes_lt name o.name
    then record empty_description { name = name; kind = kind } ∷ (o ∷ objects)
    else if bytes_eq name o.name
    then record o { name = name; kind = kind } ∷ objects
    else later

pub put_objects : Rows → SchemaObjects → SchemaObjects
put_objects [] objects = objects
put_objects (row ∷ rs) objects =
    put_objects rs (put_object (field row 0) (kind_of_type (field row 1)) objects)

pub with_common : Bytes → OracleTableDescription → OracleTableDescription → OracleTableDescription
with_common owner common o = record o {
  owner = owner;
  owned_by_session_user = common.owned_by_session_user;
  db_charset = common.db_charset;
  nchar_charset = common.nchar_charset;
}

pub has_object : Bytes → SchemaObjects → Bool
has_object name [] = false
has_object name (o ∷ objects) = bytes_eq name o.name || has_object name objects

pub add_column : Bytes → OracleColumn → SchemaObjects → SchemaObjects
add_column name column [] = []
add_column name column (o ∷ objects) =
    (if bytes_eq name o.name then record o { columns = o.columns ++ (column ∷ []) } else o)
    ∷ add_column name column objects

-- The columns of the objects that are there.
pub add_columns : Rows → SchemaObjects → Action SchemaObjects
add_columns [] objects = pure objects
add_columns (row ∷ rs) objects = elim (has_object (field row 0) objects) [
  | false ↦ add_columns rs objects
  | true ↦ do
    column ← column_from_row row 1
    add_columns rs (add_column (field row 0) column objects)
]

pub is_table : SourceKind → Bool
is_table SourceKind.table = true
is_table SourceKind.view = false

pub find_kind : Bytes → SchemaObjects → Option SourceKind
find_kind name [] = none
find_kind name (o ∷ objects) = if bytes_eq name o.name then some o.kind else find_kind name objects

pub erase_object : Bytes → SchemaObjects → SchemaObjects
erase_object name [] = []
erase_object name (o ∷ objects) =
    let rest = erase_object name objects in if bytes_eq name o.name then rest else o ∷ rest

pub set_statistics : Bytes → Bool → ℤ → SchemaObjects → SchemaObjects
set_statistics name partitioned num_rows [] = []
set_statistics name partitioned num_rows (o ∷ objects) =
    (if bytes_eq name o.name
      then record o { partitioned = partitioned; num_rows = num_rows }
      else o)
    ∷ set_statistics name partitioned num_rows objects

-- A row of ALL_TABLES.
pub add_statistics : List Bytes → SchemaObjects → Action SchemaObjects
add_statistics row objects = elim (bytes_eq (field row 3) (codes "YES")) [
  | true ↦ pure (erase_object (field row 0) objects)
  | false ↦ do
    num_rows ← read_int 64 (field row 2)
    pure (set_statistics (field row 0) (bytes_eq (field row 1) (codes "YES")) num_rows objects)
]

pub is_known_table : Bytes → SchemaObjects → Bool
is_known_table name objects = elim (find_kind name objects) [
  | none ↦ false
  | some kind ↦ is_table kind
]

pub add_tables : Rows → SchemaObjects → Action SchemaObjects
add_tables [] objects = pure objects
add_tables (row ∷ rs) objects = elim (is_known_table (field row 0) objects) [
  | false ↦ add_tables rs objects
  | true ↦ do objects' ← add_statistics row objects; add_tables rs objects'
]

abbrev pub schema_objects_sql : Bytes
schema_objects_sql =
    codes
      "SELECT object_name, object_type FROM all_objects WHERE owner = :1 AND object_type IN ('TABLE', 'VIEW', 'MATERIALIZED VIEW') AND generated = 'N'"

abbrev pub schema_columns_sql : Bytes
schema_columns_sql =
    codes "SELECT table_name, "
    ++ (column_fields
        ++ codes " FROM all_tab_columns WHERE owner = :1 ORDER BY table_name, column_id")

abbrev pub schema_tables_sql : Bytes
schema_tables_sql =
    codes
      "SELECT table_name, partitioned, NVL(num_rows, -1), dropped FROM all_tables WHERE owner = :1"

-- The objects that are not empty, described.
pub describe_objects : Database → Bytes → SchemaObjects → Action SchemaObjects
describe_objects db owner objects = do
  user ← session_user db
  common ←
      read_charsets db (record empty_description { owned_by_session_user = bytes_eq owner user })
  column_rows ← query_strings db schema_columns_sql (owner ∷ [])
  with_columns ← add_columns column_rows (map (with_common owner common) objects)
  table_rows ← query_strings db schema_tables_sql (owner ∷ [])
  add_tables table_rows with_columns

pub describe_schema : Database → Bytes → Action SchemaObjects
describe_schema db owner = do
  object_rows ← query_strings db schema_objects_sql (owner ∷ [])
  let objects = put_objects object_rows []
  elim (is_empty objects) [ true ↦ pure [] | false ↦ describe_objects db owner objects ]

-- Opens what describes a schema.
unfoldable pub schema_calls : Unit {0}
unfolding describe_calls bytes_lt put_object put_objects with_common has_object add_column
    add_columns is_table find_kind erase_object set_statistics add_statistics is_known_table
    add_tables describe_objects describe_schema
schema_calls = tt
