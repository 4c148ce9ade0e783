-- ===== src/DirectPathLoader/Open.antt =====
-- The constructor of a loader: what it sets up in OCI, and the column array that it may write to.
pub mod Opened
use oraduck.ColumnPlan.{DirPathColumnSpec}
use oraduck.OciCalls.{
  dirpath_ctx, column_array, dirpath_stream, column, Attribute, handle_alloc, set_text, set_number,
  get_number, param_get, descriptor_free, row_get, dirpath_prepare, Oci,
}
use oraduck.DirectPathLoader.{
  LoaderOptions, Loader, Load, get_loader, change, ask, checked, release, loader_calls,
}
use oraduck.Stateful.{pure, throw, ◌>>=◌, ◌>>◌, catch}
use oraduck.Prelude.{
  ℕ, ◌+◌, ◌-◌, ◌*◌, ◌%◌, ◌^◌, Bool, true, false, ◌&&◌, ◌||◌, List, [], ◌∷◌, ◌++◌, map, ltb, ◌==◌,
  if◌then◌else◌, length, is_empty, Bytes, codes,
}

pub dir_path_identifier : Bytes → Bytes
dir_path_identifier name = codes "\"" ++ (name ++ codes "\"")

-- The members as they are before the body of the constructor, `contiguous_` and the counts included.
pub new_loader : Bytes → Bytes → List DirPathColumnSpec → LoaderOptions → Loader
new_loader owner table columns options = record {
  options = options;
  owner = dir_path_identifier owner;
  table = dir_path_identifier table;
  column_names = map (λ c. dir_path_identifier c.name) columns;
  date_formats = map (λ c. c.date_format) columns;
  ctx = false;
  ca = false;
  stream = false;
  row_capacity = 0;
  column_count = 0;
  contiguous = false;
  entries = [];
  is_done = false;
  stream_pending = false;
  rows_in_stream = 0;
  rows_loaded = 0;
  trace = [];
}

pub set_date_format : Oci → ℕ → Bytes → Bool → Load (Unit {0})
set_date_format oci n format true = pure tt
set_date_format oci n format false = do
  checked oci (codes "OCI_ATTR_DATEFORMAT") (set_text (column n) Attribute.dateformat format)
  pure tt

-- The attributes of the columns, from the number `n` on.
pub set_column : Oci → ℕ → DirPathColumnSpec → Load (Unit {0})
set_column oci n spec = do
  checked oci (codes "OCIParamGet(column)") (param_get n)
  checked oci (codes "OCI_ATTR_NAME (column)")
      (set_text (column n) Attribute.name (dir_path_identifier spec.name))
  checked oci (codes "OCI_ATTR_DATA_TYPE")
      (set_number (column n) Attribute.data_type spec.external_type)
  checked oci (codes "OCI_ATTR_DATA_SIZE") (set_number (column n) Attribute.data_size spec.max_size)
  set_date_format oci n spec.date_format (is_empty spec.date_format)
  ask oci (descriptor_free n)
  pure tt

pub set_columns : Oci → ℕ → List DirPathColumnSpec → Load (Unit {0})
set_columns oci n [] = pure tt
set_columns oci n (spec ∷ specs) = do set_column oci n spec; set_columns oci (n + 1) specs

-- Whether the arrays of the rows 0, 1 and rows - 1 lie as those of one array do; by elements.
pub is_contiguous : ℕ → ℕ → ℕ × ℕ × ℕ → ℕ × ℕ × ℕ → ℕ × ℕ × ℕ → Bool
is_contiguous rows_there columns (v0, l0, f0) (v1, l1, f1) (vl, ll, fl) =
    let last = (rows_there - 1) * columns in
    (v1 == v0 + columns)
    && ((l1 == l0 + columns)
        && ((f1 == f0 + columns)
            && ((vl == v0 + last) && ((ll == l0 + last) && (fl == f0 + last)))))

pub detect_rows : Oci → Loader → Bool → Load (Unit {0})
detect_rows oci s true = change (λ l. record l { contiguous = false })
detect_rows oci s false = do
  first ← checked oci (codes "OCIDirPathColArrayRowGet(0)") (row_get 0)
  second ← checked oci (codes "OCIDirPathColArrayRowGet(1)") (row_get 1)
  last ← checked oci (codes "OCIDirPathColArrayRowGet(n-1)") (row_get (s.row_capacity - 1))
  change (λ l. record l {
    contiguous = is_contiguous s.row_capacity s.column_count first.row second.row last.row;
  })

pub detect_contiguous_arrays : Oci → Load (Unit {0})
detect_contiguous_arrays oci = do
  s ← get_loader
  detect_rows oci s (s.options.force_entry_set || ltb s.row_capacity 2)

pub skip_indexes : Oci → Bool → Load (Unit {0})
skip_indexes oci false = pure tt
skip_indexes oci true = do
  checked oci (codes "OCI_ATTR_DIRPATH_SKIPINDEX_METHOD")
      (set_number dirpath_ctx Attribute.skipindex_method 4)
  pure tt

-- The attributes of the context.
pub set_context : Oci → ℕ → Load (Unit {0})
set_context oci columns = do
  s ← get_loader
  checked oci (codes "OCI_ATTR_NAME (table)") (set_text dirpath_ctx Attribute.name s.table)
  checked oci (codes "OCI_ATTR_SCHEMA_NAME") (set_text dirpath_ctx Attribute.schema_name s.owner)
  checked oci (codes "OCI_ATTR_DIRPATH_PARALLEL")
      (set_number dirpath_ctx Attribute.parallel (if s.options.parallel then 1 else 0))
  skip_indexes oci s.options.skip_index_maintenance
  checked oci (codes "OCI_ATTR_BUF_SIZE")
      (set_number dirpath_ctx Attribute.buf_size s.options.stream_buffer_bytes)
  checked oci (codes "OCI_ATTR_NUM_ROWS")
      (set_number dirpath_ctx Attribute.num_rows s.options.column_array_rows)
  checked oci (codes "OCI_ATTR_NUM_COLS")
      (set_number dirpath_ctx Attribute.num_cols (columns % 2 ^ 16))
  checked oci (codes "OCI_ATTR_LIST_COLUMNS") (get_number dirpath_ctx Attribute.list_columns)
  pure tt

pub open_context : Oci → Load (Unit {0})
open_context oci = do
  checked oci (codes "OCIHandleAlloc(DIRPATH_CTX)") (handle_alloc dirpath_ctx)
  change (λ l. record l { ctx = true })

pub open_column_array : Oci → Load (Unit {0})
open_column_array oci = do
  checked oci (codes "OCIHandleAlloc(COLUMN_ARRAY)") (handle_alloc column_array)
  change (λ l. record l { ca = true })

pub open_stream : Oci → Load (Unit {0})
open_stream oci = do
  checked oci (codes "OCIHandleAlloc(STREAM)") (handle_alloc dirpath_stream)
  change (λ l. record l { stream = true })

pub prepare : Oci → Load (Unit {0})
prepare oci = do checked oci (codes "OCIDirPathPrepare") dirpath_prepare; pure tt

-- The size of the column array.
pub read_sizes : Oci → Load (Unit {0})
read_sizes oci = do
  rows_there ←
      checked oci (codes "OCI_ATTR_NUM_ROWS (column array)")
        (get_number column_array Attribute.num_rows)
  change (λ l. record l { row_capacity = rows_there.number })
  columns_there ←
      checked oci (codes "OCI_ATTR_NUM_COLS (column array)")
        (get_number column_array Attribute.num_cols)
  change (λ l. record l { column_count = columns_there.number })

pub open_body : Oci → List DirPathColumnSpec → Load (Unit {0})
open_body oci columns = do
  open_context oci
  set_context oci (length columns)
  set_columns oci 1 columns
  prepare oci
  open_column_array oci
  open_stream oci
  read_sizes oci
  detect_contiguous_arrays oci

-- DirectPathLoader: a failure releases what is there.
pub open_loader : Oci → List DirPathColumnSpec → Load (Unit {0})
open_loader oci columns = catch (open_body oci columns) (λ e. do release oci true; throw e)

-- Opens the constructor.
unfoldable pub open_calls : Unit {0}
unfolding loader_calls dir_path_identifier new_loader set_date_format set_column set_columns
    is_contiguous detect_rows detect_contiguous_arrays skip_indexes set_context open_context
    open_column_array open_stream prepare read_sizes open_body open_loader
open_calls = tt
