-- ===== src/WorkUnits/Plan.antt =====
-- The choice of a split and its fallbacks: PlanExtents, PlanUnits and PlanWork of src/work_units.cpp.
pub mod Cover
pub mod Shape
use oraduck.WorkUnits.Extents.{
  non_heap_sql, non_heap_of, non_heap_reason, to_uint32, read_objects, find_object, count_blocks,
  read_extent, read_extents, slices_from_dba_extents, largest_segment_statistic, drop_sql,
  drop_task, drop_task_quietly, create_sql, abandon_task, make_chunks, chunk_slice, keep_chunks,
  slices_from_parallel_execute, extent_calls,
}
use oraduck.Prelude.Numerals.{stoul}
use oraduck.Rowid.{SegmentExtent, target_blocks, build_rowid_slices}
use oraduck.Slice.{SliceKind, Slice, empty_slice}
use oraduck.Binds.{sql_string_literal, sql_binds}
use oraduck.ReadSql.{SplitStrategy, SnapshotMode, quote_identifier}
use oraduck.DescribeSource.{SourceKind, OracleTableDescription}
use oraduck.Session.{
  Fault, oracle_error, oraduck_error, source_not_found, other_error, Rows, Database, Outcome, done,
  fault, Action, pure, throw, ◌>>=◌, ◌>>◌, catch, or_throw, query_strings, execute_sql,
  session_calls, first_value, field,
}
use oraduck.WorkUnits.{
  WorkPlan, empty_plan, table_not_found, insufficient_privileges, duplicate_task_name,
  blocks_without_statistics, oracle_message, oracle_code, append_note, add_note, display_name,
  object_sql, read_scn, plan_snapshot, plan_single, work_notes,
}
use oraduck.Prelude.{
  ℕ, zero, suc, ◌+◌, ◌-◌, ◌*◌, ◌/◌, ◌%◌, ◌^◌, ◌≤◌, ◌<◌, ◌≡◌, refl, sym, ap, ◌∙◌, ◌≢◌, ◌↔◌, ◌⊎◌, inl,
  inr, Bool, true, false, not, ◌&&◌, ◌||◌, Option, none, some, List, [], ◌∷◌, ◌++◌, map, reverse,
  arith, ltb, leb, ◌==◌, if◌then◌else◌, ltb→lt, lt→ltb, ==_iff, ==_refl, Bool-cases, Option-cases,
  some_inj, length, get_or, take, drop, replicate, is_empty, count_if, All, length-append,
  count_if-append, length-replicate, length-map, All-append, AllPairs, All-map, Bytes, codes,
  bytes_eq, is_upper, is_lower, is_alpha, is_digit, is_alnum, is_space, to_upper, to_lower,
  has_byte, starts_with, has_text, last_byte, but_last, to_decimal, bytes_eq→eq, bytes_eq_refl,
  all_below, all_below_sound,
}

-- What DBA_EXTENTS gave, or why it gave nothing: the message and the code.
pub data DbaSlices : Type 0 where
  found : List Slice → DbaSlices
  missing : Bytes → Bytes → DbaSlices

-- `true` with the plan, or `false` with the error and the note.
pub data ExtentPlan : Type 0 where
  planned : WorkPlan → ExtentPlan
  refused : Bytes → Bytes → ExtentPlan

pub dba_answer : Option (List Slice) → DbaSlices
dba_answer (some slices) = found slices
dba_answer none =
    missing (codes "segments without a data object in ALL_OBJECTS")
      (codes "segments without a data object in ALL_OBJECTS")

pub dba_refused : Fault → Action DbaSlices
dba_refused (oracle_error code what) =
    elim ((code == table_not_found) || (code == insufficient_privileges)) [
      | true ↦ pure (missing (oracle_message what) (oracle_code code what))
      | false ↦ throw (oracle_error code what)
    ]
dba_refused (oraduck_error what) = throw (oraduck_error what)
dba_refused (source_not_found what) = throw (source_not_found what)
dba_refused (other_error what) = throw (other_error what)

pub dba_slices : Database → OracleTableDescription → ℕ → Action DbaSlices
dba_slices db source sessions =
    catch (do slices ← slices_from_dba_extents db source sessions; pure (dba_answer slices))
      dba_refused

pub parallel_plan : WorkPlan → Bytes → List Slice × Bytes → WorkPlan
parallel_plan plan dba_code (slices, drop_failure) =
    let noted =
      add_note (record plan { slices = slices; strategy = SplitStrategy.extents })
        (codes "extents from DBMS_PARALLEL_EXECUTE (DBA_EXTENTS: " ++ (dba_code ++ codes ")")) in
    if is_empty drop_failure
    then noted
    else add_note noted (codes "DBMS_PARALLEL_EXECUTE " ++ drop_failure)

pub parallel_refused : Bytes → Bytes → Fault → Action ExtentPlan
parallel_refused message dba_code (oracle_error code what) = pure (
    refused
      (codes "split 'extents' needs DBA_EXTENTS or DBMS_PARALLEL_EXECUTE: DBA_EXTENTS: "
        ++ (message ++ (codes "; DBMS_PARALLEL_EXECUTE: " ++ oracle_message what)))
      (codes "extents: DBA_EXTENTS "
        ++ (dba_code ++ (codes ", DBMS_PARALLEL_EXECUTE " ++ oracle_code code what))))
parallel_refused message dba_code (oraduck_error what) = throw (oraduck_error what)
parallel_refused message dba_code (source_not_found what) = throw (source_not_found what)
parallel_refused message dba_code (other_error what) = throw (other_error what)

pub try_parallel :
    Database → OracleTableDescription → ℕ → Bytes → WorkPlan → Bytes → Action ExtentPlan
try_parallel db source sessions task plan dba_code = do
  made ← slices_from_parallel_execute db source sessions task
  pure (planned (parallel_plan plan dba_code made))

pub from_dba :
    Database → OracleTableDescription → ℕ → Bytes → WorkPlan → DbaSlices → Action ExtentPlan
from_dba db source sessions task plan (found slices) = pure (
    planned (
      add_note (record plan { slices = slices; strategy = SplitStrategy.extents })
        (codes "extents from DBA_EXTENTS")))
from_dba db source sessions task plan (missing message dba_code) =
    catch (try_parallel db source sessions task plan dba_code) (parallel_refused message dba_code)

pub not_a_heap : OracleTableDescription → Bytes → ExtentPlan
not_a_heap source reason =
    refused
      (codes "split 'extents' needs a heap table: "
        ++ (display_name source ++ (codes " is " ++ reason)))
      (codes "extents: " ++ (display_name source ++ (codes " is " ++ reason)))

pub plan_extents : Database → OracleTableDescription → ℕ → Bytes → WorkPlan → Action ExtentPlan
plan_extents db source sessions task plan = do
  reason ← non_heap_reason db source
  elim (is_empty reason) [
    | false ↦ pure (not_a_heap source reason)
    | true ↦ do dba ← dba_slices db source sessions; from_dba db source sessions task plan dba
  ]

pub hash_slice : ℕ → ℕ → Slice
hash_slice buckets bucket = record empty_slice {
  kind = SliceKind.hash;
  hash_buckets = buckets;
  hash_bucket = bucket;
}

-- The loop over the buckets from `bucket` on, `left` of them.
pub hash_slices : ℕ → ℕ → ℕ → List Slice
hash_slices zero buckets bucket = []
hash_slices (suc left) buckets bucket =
    hash_slice buckets bucket ∷ hash_slices left buckets (bucket + 1)

pub hash_probe : OracleTableDescription → Bytes
hash_probe source =
    codes "SELECT 1 FROM "
    ++ (object_sql source ++ codes " WHERE ORA_HASH(ROWID, 1) = 0 AND ROWNUM < 1")

pub is_hash : SplitStrategy → Bool
is_hash SplitStrategy.hash = true
is_hash _ = false

pub is_auto : SplitStrategy → Bool
is_auto SplitStrategy.auto = true
is_auto _ = false

pub is_extents : SplitStrategy → Bool
is_extents SplitStrategy.extents = true
is_extents _ = false

pub is_none : SplitStrategy → Bool
is_none SplitStrategy.none = true
is_none _ = false

pub is_view : OracleTableDescription → Bool
is_view source = elim source.kind [ SourceKind.view ↦ true | SourceKind.table ↦ false ]

pub hash_refused : OracleTableDescription → SplitStrategy → WorkPlan → Fault → Action WorkPlan
hash_refused source split plan (oracle_error code what) = elim (is_hash split) [
  | true ↦ throw (
      oracle_error code (
        codes "split 'hash' needs ORA_HASH(ROWID) on "
        ++ (display_name source ++ (codes ": " ++ oracle_message what))))
  | false ↦ pure (
      plan_single
        (add_note plan (codes "hash: " ++ (oracle_code code what ++ codes ", using one session"))))
]
hash_refused source split plan (oraduck_error what) = throw (oraduck_error what)
hash_refused source split plan (source_not_found what) = throw (source_not_found what)
hash_refused source split plan (other_error what) = throw (other_error what)

pub try_hash : Database → OracleTableDescription → ℕ → WorkPlan → Action WorkPlan
try_hash db source sessions plan = do
  query_strings db (hash_probe source) []
  pure (record plan { strategy = SplitStrategy.hash; slices = hash_slices sessions sessions 0 })

pub plan_hash : Database → OracleTableDescription → SplitStrategy → ℕ → WorkPlan → Action WorkPlan
plan_hash db source split sessions plan =
    catch (try_hash db source sessions plan) (hash_refused source split plan)

pub after_extents :
    Database → OracleTableDescription → SplitStrategy → ℕ → WorkPlan → ExtentPlan → Action WorkPlan
after_extents db source split sessions plan (planned made) = pure made
after_extents db source split sessions plan (refused error note) = elim (is_extents split) [
  | true ↦ throw (oraduck_error error)
  | false ↦ plan_hash db source split sessions (add_note plan (note ++ codes ", using hash"))
]

pub plan_units :
    Database → OracleTableDescription → SplitStrategy → ℕ → Bytes → WorkPlan → Action WorkPlan
plan_units db source split sessions task plan = elim (is_extents split && is_view source) [
  | true ↦ throw (
      oraduck_error
        (codes "split 'extents' needs a table: " ++ (display_name source ++ codes " is a view")))
  | false ↦ elim (is_extents split || (is_auto split && not (is_view source))) [
    | true ↦ do
      made ← plan_extents db source sessions task plan
      after_extents db source split sessions plan made
    | false ↦ plan_hash db source split sessions plan
  ]
]

pub wants_snapshot : SnapshotMode → Bool
wants_snapshot SnapshotMode.none = false
wants_snapshot _ = true

-- The SCN, read only where a snapshot is wanted.
pub early_scn : Database → SnapshotMode → Action (Bytes × Bytes)
early_scn db snapshot = elim (wants_snapshot snapshot) [
  | true ↦ read_scn db
  | false ↦ pure ([], [])
]

-- What PlanWork does with a plan of units.
pub with_snapshot :
    Database → OracleTableDescription → SnapshotMode → Bytes → Bytes → WorkPlan → Action WorkPlan
with_snapshot db source mode scn failures plan =
    elim (wants_snapshot mode && ltb 1 (length plan.slices)) [
      | true ↦ plan_snapshot db source mode scn failures plan
      | false ↦ pure plan
    ]

pub several_units :
    Database → OracleTableDescription → SplitStrategy → SnapshotMode → ℕ → Bytes → Action WorkPlan
several_units db source split snapshot sessions task = do
  (scn, failures) ← early_scn db snapshot
  plan ← plan_units db source split sessions task empty_plan
  with_snapshot db source snapshot scn failures plan

pub plan_work :
    Database → OracleTableDescription → SplitStrategy → SnapshotMode → ℕ → Bytes → Action WorkPlan
plan_work db source split snapshot sessions task = elim (leb sessions 1 || is_none split) [
  | true ↦ pure (plan_single empty_plan)
  | false ↦ several_units db source split snapshot sessions task
]

-- Opens all that the plan calls.
unfoldable pub work_units : Unit {0}
unfolding work_notes extent_calls session_calls sql_binds stoul dba_answer dba_refused dba_slices
    parallel_plan parallel_refused try_parallel from_dba not_a_heap plan_extents hash_slice
    hash_slices hash_probe is_hash is_auto is_extents is_none is_view hash_refused try_hash
    plan_hash after_extents plan_units wants_snapshot early_scn with_snapshot several_units
    plan_work target_blocks build_rowid_slices bytes_eq
work_units = tt
