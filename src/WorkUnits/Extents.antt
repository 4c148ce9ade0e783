-- ===== src/WorkUnits/Extents.antt =====
-- ROWID ranges of a table: SlicesFromDbaExtents, SlicesFromParallelExecute and PlanExtents of
-- src/work_units.cpp. The random name of the task is a parameter.
pub mod Task
use oraduck.Prelude.Numerals.{stoul}
use oraduck.Rowid.{SegmentExtent, target_blocks, build_rowid_slices}
use oraduck.Slice.{SliceKind, Slice, empty_slice}
use oraduck.Binds.{sql_string_literal, sql_binds}
use oraduck.ReadSql.{SplitStrategy, SnapshotMode, quote_identifier}
use oraduck.DescribeSource.{SourceKind, OracleTableDescription}
use oraduck.Session.{
  Fault, oracle_error, oraduck_error, source_not_found, other_error, Rows, Database, Outcome, done,
  fault, Action, pure, throw, ◌>>=◌, ◌>>◌, catch, or_throw, query_strings, execute_sql, first_value,
  field,
}
use oraduck.WorkUnits.{
  WorkPlan, empty_plan, table_not_found, insufficient_privileges, duplicate_task_name,
  blocks_without_statistics, oracle_message, oracle_code, append_note, add_note, display_name,
  object_sql, read_scn, plan_snapshot, plan_single, work_notes,
}
use oraduck.Prelude.{
  ℕ, zero, suc, ◌+◌, ◌-◌, ◌*◌, ◌/◌, ◌%◌, ◌^◌, ◌≤◌, ◌<◌, ◌≡◌, refl, sym, ap, ◌∙◌, ◌≢◌, ◌↔◌, ◌⊎◌, inl,
  inr, Bool, true, false, not, ◌&&◌, ◌||◌, Option, none, some, List, [], ◌∷◌, ◌++◌, map, reverse,
  arith, ltb, leb, ◌==◌, if◌then◌else◌, ltb→lt, lt→ltb, ==_iff, ==_refl, Bool-cases, Option-cases,
  some_inj, length, get_or, take, drop, replicate, is_empty, count_if, All, length-append,
  count_if-append, length-replicate, length-map, All-append, AllPairs, All-map, Bytes, codes,
  bytes_eq, is_upper, is_lower, is_alpha, is_digit, is_alnum, is_space, to_upper, to_lower,
  has_byte, starts_with, has_text, last_byte, but_last, to_decimal, bytes_eq→eq, bytes_eq_refl,
  all_below, all_below_sound,
}

abbrev pub non_heap_sql : Bytes
non_heap_sql =
    codes
      "SELECT iot_type, cluster_name, external, hybrid FROM all_all_tables WHERE owner = :1 AND table_name = :2"

pub non_heap_of : Rows → Bytes
non_heap_of [] = codes "not in ALL_ALL_TABLES"
non_heap_of (row ∷ rs) =
    if not (is_empty (field row 0))
    then codes "an index-organized table"
    else if not (is_empty (field row 1))
    then codes "a clustered table"
    else if bytes_eq (field row 2) (codes "YES")
    then codes "an external table"
    else if bytes_eq (field row 3) (codes "YES")
    then codes "a hybrid partitioned table"
    else []

pub non_heap_reason : Database → OracleTableDescription → Action Bytes
non_heap_reason db source = do
  rs ← query_strings db non_heap_sql (source.owner ∷ source.name ∷ [])
  pure (non_heap_of rs)

abbrev pub extents_sql : Bytes
extents_sql =
    codes
      "SELECT segment_type, partition_name, TO_CHAR(relative_fno), TO_CHAR(block_id), TO_CHAR(blocks) FROM dba_extents WHERE owner = :1 AND segment_name = :2 AND segment_type IN ('TABLE', 'TABLE PARTITION', 'TABLE SUBPARTITION')"

abbrev pub objects_sql : Bytes
objects_sql =
    codes
      "SELECT object_type, subobject_name, TO_CHAR(data_object_id) FROM all_objects WHERE owner = :1 AND object_name = :2 AND object_type IN ('TABLE', 'TABLE PARTITION', 'TABLE SUBPARTITION') AND data_object_id IS NOT NULL"

-- static_cast<uint32_t>(std::stoul(text))
pub to_uint32 : Bytes → Action ℕ
to_uint32 text = do n ← or_throw (codes "stoul") (stoul text); pure (n % 2 ^ 32)

-- std::map from the segment type and the partition name, the newest entry first.
abbrev pub ObjectIds : Type 0
ObjectIds = List (Bytes × Bytes × ℕ)

pub read_objects : Rows → ObjectIds → Action ObjectIds
read_objects [] objects = pure objects
read_objects (row ∷ rs) objects = do
  id ← to_uint32 (field row 2)
  read_objects rs ((field row 0, field row 1, id) ∷ objects)

pub find_object : Bytes → Bytes → ObjectIds → Option ℕ
find_object type partition [] = none
find_object type partition ((t, p, id) ∷ objects) =
    if bytes_eq t type && bytes_eq p partition then some id else find_object type partition objects

-- object_blocks[object] += blocks, and the new sum.
pub count_blocks : ℕ → ℕ → List (ℕ × ℕ) → List (ℕ × ℕ) × ℕ
count_blocks object blocks [] = ((object, blocks) ∷ [], blocks)
count_blocks object blocks ((o, n) ∷ counts) =
    let (counts', total) = count_blocks object blocks counts in
    let sum = (n + blocks) % 2 ^ 64 in
    if o == object then ((o, sum) ∷ counts, sum) else ((o, n) ∷ counts', total)

abbrev pub larger : ℕ → ℕ → ℕ
larger a b = if ltb a b then b else a

pub read_extent : ℕ → List Bytes → Action SegmentExtent
read_extent object row = do
  file ← to_uint32 (field row 2)
  block ← to_uint32 (field row 3)
  blocks ← to_uint32 (field row 4)
  pure (record { data_object_id = object; relative_fno = file; block_id = block; blocks = blocks })

-- The extents and the blocks of the largest object; `none` when a segment has no object.
pub read_extents : ObjectIds → Rows → List (ℕ × ℕ) → ℕ → Action (Option (List SegmentExtent × ℕ))
read_extents objects [] counts largest = pure (some ([], largest))
read_extents objects (row ∷ rs) counts largest =
    elim (find_object (field row 0) (field row 1) objects) [
      | none ↦ pure none
      | some object ↦ do
        extent ← read_extent object row
        let sums = count_blocks object extent.blocks counts
        rest ← read_extents objects rs sums.0 (larger largest sums.1)
        pure (elim rest [ none ↦ none | some (extents, l) ↦ some (extent ∷ extents, l) ])
    ]

-- `none` is `false`.
pub slices_from_dba_extents : Database → OracleTableDescription → ℕ → Action (Option (List Slice))
slices_from_dba_extents db source sessions = do
  extent_rows ← query_strings db extents_sql (source.owner ∷ source.name ∷ [])
  elim (is_empty extent_rows) [
    | true ↦ pure (some [])
    | false ↦ do
      object_rows ← query_strings db objects_sql (source.owner ∷ source.name ∷ [])
      objects ← read_objects object_rows []
      read ← read_extents objects extent_rows [] 0
      pure (elim read [
        | none ↦ none
        | some (extents, largest) ↦
            some (build_rowid_slices extents (target_blocks largest sessions))
      ])
  ]

abbrev pub statistic_sql : Bytes
statistic_sql =
    codes
      "SELECT TO_CHAR(COALESCE((SELECT MAX(blocks) FROM all_tab_subpartitions WHERE table_owner = :1 AND table_name = :2), (SELECT MAX(blocks) FROM all_tab_partitions WHERE table_owner = :3 AND table_name = :4), (SELECT blocks FROM all_tables WHERE owner = :5 AND table_name = :6), "
    ++ (to_decimal blocks_without_statistics ++ codes ")) FROM dual")

pub statistic_binds : OracleTableDescription → List Bytes
statistic_binds source =
    source.owner ∷ source.name ∷ source.owner ∷ source.name ∷ source.owner ∷ source.name ∷ []

pub largest_segment_statistic : Database → OracleTableDescription → Action ℕ
largest_segment_statistic db source = do
  rs ← query_strings db statistic_sql (statistic_binds source)
  value ← or_throw (codes "vector::_M_range_check") (first_value rs)
  or_throw (codes "stoull") (stoul value)

pub drop_sql : Bytes → Bytes
drop_sql task =
    codes "BEGIN DBMS_PARALLEL_EXECUTE.DROP_TASK(" ++ (sql_string_literal task ++ codes "); END;")

pub drop_task : Database → Bytes → Action (Unit {0})
drop_task db task = execute_sql db (drop_sql task)

pub drop_task_quietly : Database → Bytes → Action (Unit {0})
drop_task_quietly db task = catch (drop_task db task) (λ e. pure tt)

pub create_sql : Bytes → OracleTableDescription → ℕ → Bytes
create_sql task source chunk_blocks =
    codes "BEGIN DBMS_PARALLEL_EXECUTE.CREATE_TASK("
    ++ (sql_string_literal task
        ++ (codes "); DBMS_PARALLEL_EXECUTE.CREATE_CHUNKS_BY_ROWID("
            ++ (sql_string_literal task
                ++ (codes ", "
                    ++ (sql_string_literal source.owner
                        ++ (codes ", "
                            ++ (sql_string_literal source.name
                                ++ (codes ", FALSE, "
                                    ++ (to_decimal chunk_blocks ++ codes "); END;")))))))))

abbrev pub chunks_sql : Bytes
chunks_sql =
    codes
      "SELECT ROWIDTOCHAR(start_rowid), ROWIDTOCHAR(end_rowid) FROM user_parallel_execute_chunks WHERE task_name = :1 ORDER BY chunk_id"

-- The first try block: the chunks, with the task dropped on a failure unless it is another session's.
pub abandon_task : Database → Bytes → Fault → Action Rows
abandon_task db task (oracle_error code what) = elim (code == duplicate_task_name) [
  | true ↦ throw (oracle_error code what)
  | false ↦ do drop_task_quietly db task; throw (oracle_error code what)
]
abandon_task db task (oraduck_error what) = do drop_task_quietly db task; throw (oraduck_error what)
abandon_task db task (source_not_found what) = do
  drop_task_quietly db task
  throw (source_not_found what)
abandon_task db task (other_error what) = do drop_task_quietly db task; throw (other_error what)

pub ask_chunks : Database → OracleTableDescription → ℕ → Bytes → Action Rows
ask_chunks db source chunk_blocks task = do
  execute_sql db (create_sql task source chunk_blocks)
  query_strings db chunks_sql (task ∷ [])

pub make_chunks : Database → OracleTableDescription → ℕ → Bytes → Action Rows
make_chunks db source chunk_blocks task =
    catch (ask_chunks db source chunk_blocks task) (abandon_task db task)

pub chunk_slice : List Bytes → Slice
chunk_slice row = record empty_slice {
  kind = SliceKind.rowid_range;
  rowid_lo = field row 0;
  rowid_hi = field row 1;
  hi_inclusive = true;
}

-- The second try block, around the drop: what could not be dropped.
pub keep_chunks : Bytes → Fault → Action Bytes
keep_chunks task (oracle_error code what) =
    pure (codes "task " ++ (task ++ (codes " not dropped: " ++ oracle_message what)))
keep_chunks task (oraduck_error what) = throw (oraduck_error what)
keep_chunks task (source_not_found what) = throw (source_not_found what)
keep_chunks task (other_error what) = throw (other_error what)

pub drop_made : Database → Bytes → Action Bytes
drop_made db task = do drop_task db task; pure []

-- The slices, and why the task was not dropped.
pub slices_from_parallel_execute :
    Database → OracleTableDescription → ℕ → Bytes → Action (List Slice × Bytes)
slices_from_parallel_execute db source sessions task = do
  largest ← largest_segment_statistic db source
  chunks ← make_chunks db source (target_blocks largest sessions) task
  drop_failure ← catch (drop_made db task) (keep_chunks task)
  pure (map chunk_slice chunks, drop_failure)

-- Opens the parts of the plan that stand here.
unfoldable pub extent_calls : Unit {0}
unfolding non_heap_of non_heap_reason to_uint32 read_objects find_object count_blocks read_extent
    read_extents slices_from_dba_extents statistic_binds largest_segment_statistic drop_sql
    drop_task drop_task_quietly create_sql abandon_task ask_chunks make_chunks chunk_slice
    keep_chunks drop_made slices_from_parallel_execute
extent_calls = tt
