-- ===== src/WorkUnits.antt =====
-- The plan of a scan's units: src/work_units.cpp and src/include/oraduck/work_units.hpp.
pub mod Extents
pub mod Plan
use oraduck.Rowid.{SegmentExtent, target_blocks, build_rowid_slices}
use oraduck.Slice.{SliceKind, Slice, empty_slice}
use oraduck.Binds.{sql_string_literal}
use oraduck.ReadSql.{SplitStrategy, SnapshotMode, quote_identifier}
use oraduck.DescribeSource.{SourceKind, OracleTableDescription}
use oraduck.Session.{
  Fault, oracle_error, oraduck_error, source_not_found, other_error, Rows, Database, Outcome, done,
  fault, Action, pure, throw, ◌>>=◌, ◌>>◌, catch, or_throw, query_strings, execute_sql, first_value,
  field,
}
use oraduck.Prelude.{
  ℕ, zero, suc, ◌+◌, ◌-◌, ◌*◌, ◌/◌, ◌%◌, ◌^◌, ◌≤◌, ◌<◌, ◌≡◌, refl, sym, ap, ◌∙◌, ◌≢◌, ◌↔◌, ◌⊎◌, inl,
  inr, Bool, true, false, not, ◌&&◌, ◌||◌, Option, none, some, List, [], ◌∷◌, ◌++◌, map, reverse,
  arith, ltb, leb, ◌==◌, if◌then◌else◌, ltb→lt, lt→ltb, ==_iff, ==_refl, Bool-cases, Option-cases,
  some_inj, length, get_or, take, drop, replicate, is_empty, count_if, All, length-append,
  count_if-append, length-replicate, length-map, All-append, AllPairs, All-map, Bytes, codes,
  bytes_eq, is_upper, is_lower, is_alpha, is_digit, is_alnum, is_space, to_upper, to_lower,
  has_byte, starts_with, has_text, last_byte, but_last, to_decimal, bytes_eq→eq, bytes_eq_refl,
  all_below, all_below_sound,
}

pub record WorkPlan : Type 0 where
  pub strategy : SplitStrategy
  pub slices : List Slice
  pub scn : Bytes
  pub notes : Bytes

-- WorkPlan()
abbrev pub empty_plan : WorkPlan
empty_plan = record { strategy = SplitStrategy.none; slices = []; scn = []; notes = [] }

abbrev pub table_not_found : ℕ
table_not_found = 942

abbrev pub insufficient_privileges : ℕ
insufficient_privileges = 1031

abbrev pub duplicate_task_name : ℕ
duplicate_task_name = 29497

abbrev pub blocks_without_statistics : ℕ
blocks_without_statistics = 1024

-- kScnSources: the name of a source and its query.
abbrev pub scn_sources : List (Bytes × Bytes)
scn_sources =
    (
      codes "DBMS_FLASHBACK",
      codes "SELECT TO_CHAR(DBMS_FLASHBACK.GET_SYSTEM_CHANGE_NUMBER) FROM dual",
    )
    ∷ (codes "V$DATABASE", codes "SELECT TO_CHAR(current_scn) FROM v$database")
    ∷ []

abbrev pub scn_grants : Bytes
scn_grants = codes "needs EXECUTE ON DBMS_FLASHBACK or SELECT ON V_$DATABASE"

-- The text from "ORA-" on, the whole text if it is not there.
pub from_ora : Bytes → Bytes → Bytes
from_ora whole [] = whole
from_ora whole (c ∷ s) =
    let rest = from_ora whole s in if starts_with (c ∷ s) (codes "ORA-") then c ∷ s else rest

-- The lines, without their ends; `line` is the one that is being read.
pub lines : Bytes → Bytes → List Bytes
lines line [] = line ∷ []
lines line (c ∷ s) =
    let next = line ∷ lines [] s in
    let same = lines (line ++ (c ∷ [])) s in if c == 10 then next else same

pub join_lines : Bytes → List Bytes → Bytes
join_lines message [] = message
join_lines message (l ∷ ls) =
    let kept = not (is_empty l) && not (starts_with l (codes "ORA-06512")) in
    join_lines
      (if kept then message ++ ((if is_empty message then [] else codes " ") ++ l) else message) ls

pub oracle_message : Bytes → Bytes
oracle_message what = join_lines [] (lines [] (from_ora what what))

-- snprintf with "ORA-%05d".
pub oracle_code : ℕ → Bytes → Bytes
oracle_code ora_code what =
    let digits = to_decimal ora_code in
    if ora_code == 0
    then oracle_message what
    else codes "ORA-" ++ (replicate (5 - length digits) b'0' ++ digits)

-- A note behind the others.
pub append_note : Bytes → Bytes → Bytes
append_note notes note = notes ++ ((if is_empty notes then [] else codes "; ") ++ note)

pub add_note : WorkPlan → Bytes → WorkPlan
add_note plan note = record plan { notes = append_note plan.notes note }

pub add_snapshot_note : WorkPlan → Bytes → WorkPlan
add_snapshot_note plan note = record plan {
  notes = note ++ (if is_empty plan.notes then [] else codes "; " ++ plan.notes);
}

pub display_name : OracleTableDescription → Bytes
display_name source = source.owner ++ (codes "." ++ source.name)

pub object_sql : OracleTableDescription → Bytes
object_sql source = quote_identifier source.owner ++ (codes "." ++ quote_identifier source.name)

-- The value of rows[0][0], empty when there is none.
pub value_or_empty : Rows → Bytes
value_or_empty [] = []
value_or_empty (row ∷ rs) = field row 0

pub add_failure : Bytes → Bytes → Bytes → Bytes
add_failure failures source what =
    failures ++ ((if is_empty failures then [] else codes ", ") ++ (source ++ (codes ": " ++ what)))

-- The SCN, empty when no source has it, and why.
pub read_scn_from : Database → List (Bytes × Bytes) → Bytes → Action (Bytes × Bytes)
read_scn_from db [] failures = pure ([], failures)
read_scn_from db ((name, sql) ∷ sources) failures =
    let ask : Action (Bytes × Bytes) = (do
      rs ← query_strings db sql []
      pure (value_or_empty rs, codes "no value")) in
    let refused : Fault → Action (Bytes × Bytes) = (λ e. elim e [
      | oracle_error code what ↦ pure ([], oracle_code code what)
      | other ↦ throw other
    ]) in
    (do
      (scn, why) ← catch ask refused
      elim (is_empty scn) [
        | false ↦ pure (scn, failures)
        | true ↦ read_scn_from db sources (add_failure failures name why)
      ])

pub read_scn : Database → Action (Bytes × Bytes)
read_scn db = read_scn_from db scn_sources []

pub read_current_scn : Database → Action Bytes
read_current_scn db = do (scn, failures) ← read_scn db; pure scn

pub snapshot_probe : OracleTableDescription → Bytes
snapshot_probe source =
    codes "SELECT 1 FROM "
    ++ (object_sql source ++ codes " AS OF SCN TO_NUMBER(:b1) WHERE ROWNUM < 1")

-- Without a snapshot: an error where it was asked for, else a note.
pub fall_back : SnapshotMode → Fault → WorkPlan → Bytes → Action WorkPlan
fall_back SnapshotMode.scn error plan note = throw error
fall_back SnapshotMode.auto error plan note = pure (add_snapshot_note plan note)
fall_back SnapshotMode.none error plan note = pure (add_snapshot_note plan note)

pub snapshot_refused :
    OracleTableDescription → SnapshotMode → Bytes → WorkPlan → Fault → Action WorkPlan
snapshot_refused source mode scn plan (oracle_error code what) =
    fall_back mode
      (oracle_error code (
        codes "snapshot 'scn' cannot read "
        ++ (display_name source
            ++ (codes " AS OF SCN " ++ (scn ++ (codes ": " ++ oracle_message what))))))
      plan (codes "snapshot: per session (AS OF SCN: " ++ (oracle_message what ++ codes ")"))
snapshot_refused source mode scn plan (oraduck_error what) = throw (oraduck_error what)
snapshot_refused source mode scn plan (source_not_found what) = throw (source_not_found what)
snapshot_refused source mode scn plan (other_error what) = throw (other_error what)

pub no_scn : SnapshotMode → Bytes → WorkPlan → Action WorkPlan
no_scn mode failures plan =
    fall_back mode
      (oraduck_error (
        codes "snapshot 'scn' cannot read the current SCN: "
        ++ (scn_grants ++ (codes " (" ++ (failures ++ codes ")")))))
      plan (codes "snapshot: per session (no current SCN: " ++ (scn_grants ++ codes ")"))

pub try_snapshot : Database → OracleTableDescription → Bytes → WorkPlan → Action WorkPlan
try_snapshot db source scn plan = do
  query_strings db (snapshot_probe source) (scn ∷ [])
  pure (record plan { scn = scn })

pub plan_snapshot :
    Database → OracleTableDescription → SnapshotMode → Bytes → Bytes → WorkPlan → Action WorkPlan
plan_snapshot db source mode scn failures plan = elim (is_empty scn) [
  | true ↦ no_scn mode failures plan
  | false ↦ catch (try_snapshot db source scn plan) (snapshot_refused source mode scn plan)
]

pub plan_single : WorkPlan → WorkPlan
plan_single plan = record plan { strategy = SplitStrategy.none; slices = empty_slice ∷ [] }

-- Opens the parts of the plan that stand here.
unfoldable pub work_notes : Unit {0}
unfolding from_ora lines join_lines oracle_message oracle_code append_note add_note
    add_snapshot_note display_name object_sql value_or_empty add_failure read_scn_from read_scn
    read_current_scn snapshot_probe fall_back snapshot_refused no_scn try_snapshot plan_snapshot
    plan_single
work_notes = tt
