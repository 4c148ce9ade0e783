-- ===== src/DescribeTarget.antt =====
-- The table of a load: src/describe_target.cpp.
use oraduck.Names.{TargetName, OracleColumn, TableDescription, classify_oracle_type}
use oraduck.DescribeSource.{read_uint32, read_int, current_schema}
use oraduck.Session.{
  Fault, oraduck_error, Rows, Database, Action, pure, throw, ◌>>=◌, or_throw, query_strings,
  first_value, field,
}
use oraduck.Prelude.{ℕ, true, false, List, [], ◌∷◌, ◌++◌, is_empty, Bytes, codes, bytes_eq}

abbrev pub target_columns_sql : Bytes
target_columns_sql =
    codes
      "SELECT column_name, data_type, data_length, NVL(data_precision, -1), NVL(data_scale, -1), nullable FROM all_tab_columns WHERE owner = :1 AND table_name = :2 ORDER BY column_id"

abbrev pub index_count_sql : Bytes
index_count_sql =
    codes "SELECT COUNT(*) FROM all_indexes WHERE table_owner = :1 AND table_name = :2"

-- The fields that are not read stay as OracleColumn() has them.
pub target_column : List Bytes → Action OracleColumn
target_column row = do
  data_length ← read_uint32 (field row 2)
  precision ← read_int 32 (field row 3)
  scale ← read_int 32 (field row 4)
  pure (record {
    name = field row 0;
    data_type = field row 1;
    family = classify_oracle_type (field row 1);
    data_length = data_length;
    precision = precision;
    scale = scale;
    nullable = bytes_eq (field row 5) (codes "Y");
    char_length = 0;
    national = false;
    collation = [];
  })

pub target_columns : Rows → Action (List OracleColumn)
target_columns [] = pure []
target_columns (row ∷ rs) = do
  column ← target_column row
  columns ← target_columns rs
  pure (column ∷ columns)

pub target_owner : Database → TargetName → Action Bytes
target_owner db name = elim (is_empty name.owner) [
  | true ↦ current_schema db
  | false ↦ pure name.owner
]

pub table_missing : Bytes → Bytes → Fault
table_missing owner table =
    oraduck_error
      (codes "Oracle table not found or not accessible: " ++ (owner ++ (codes "." ++ table)))

pub count_indexes : Database → Bytes → Bytes → Action ℕ
count_indexes db owner table = do
  rs ← query_strings db index_count_sql (owner ∷ table ∷ [])
  value ← or_throw (codes "vector::_M_range_check") (first_value rs)
  read_uint32 value

pub describe_rows : Database → Bytes → Bytes → Rows → Action TableDescription
describe_rows db owner table rs = elim (is_empty rs) [
  | true ↦ throw (table_missing owner table)
  | false ↦ do
    columns ← target_columns rs
    index_count ← count_indexes db owner table
    pure (record { owner = owner; table = table; columns = columns; index_count = index_count })
]

pub describe_target : Database → TargetName → Action TableDescription
describe_target db name = do
  owner ← target_owner db name
  rs ← query_strings db target_columns_sql (owner ∷ name.table ∷ [])
  describe_rows db owner name.table rs
