-- ===== src/WorkUnits/Plan/Shape.antt =====
-- What a plan looks like, whatever the database answers.
pub mod Slices
pub mod Units
pub mod Snapshot
use mathlib.Core.Path.{subst}
use oraduck.Session.{Call, query, rows, fails}
use oraduck.WorkUnits.Plan.Shape.Slices.{
  FromExtents, WithoutExtents, not_wanted, of_view, failed, plan_extents-IsExtents,
}
use oraduck.Session.Inversion.{
  Returned, Threw, >>=-Returned, >>=-Threw, query_strings-Threw, query_strings-log, catch-Returned,
  done_inj, query_strings-Returned,
}
use oraduck.WorkUnits.{
  scn_grants, oracle_message, snapshot_probe, snapshot_refused, no_scn, add_snapshot_note,
  fall_back, try_snapshot,
}
use oraduck.WorkUnits.Plan.{
  DbaSlices, found, missing, ExtentPlan, planned, refused, dba_slices, parallel_plan,
  parallel_refused, try_parallel, from_dba, not_a_heap, plan_extents, hash_slices, hash_probe,
  is_hash, is_auto, is_extents, is_none, is_view, hash_refused, try_hash, plan_hash, after_extents,
  plan_units, wants_snapshot, early_scn, with_snapshot, several_units, plan_work,
}
use oraduck.WorkUnits.Extents.{non_heap_reason, slices_from_parallel_execute}
use oraduck.Slice.{Slice, empty_slice}
use oraduck.ReadSql.{SplitStrategy, SnapshotMode}
use oraduck.DescribeSource.{OracleTableDescription}
use oraduck.Session.{
  Fault, oracle_error, oraduck_error, source_not_found, other_error, Rows, Database, query_strings,
}
use oraduck.WorkUnits.{WorkPlan, empty_plan, add_note, plan_snapshot, plan_single}
use oraduck.Prelude.{
  ℕ, ◌≤◌, ◌<◌, ◌≡◌, refl, sym, ◌∙◌, ◌≢◌, ◌⊎◌, inl, inr, Bool, true, false, not, ◌&&◌, ◌||◌, List,
  [], ◌∷◌, ◌++◌, arith, ltb, leb, ltb→lt, Bool-cases, length, is_empty, Bytes, codes,
}
use oraduck.WorkUnits.Plan.Shape.Units.{Reads, plan_units-IsUnits}
use oraduck.WorkUnits.Plan.Shape.Snapshot.{Agrees, with_snapshot-IsPlan}

-- A plan, made with the calls from `log` to `log'`.
pub data IsPlanned (db : Database) (source : OracleTableDescription) (split : SplitStrategy)
    (mode : SnapshotMode) (sessions : ℕ) (task : Bytes) (log : List Call) (plan : WorkPlan)
    (log' : List Call) : Type 0 where
  one_session :
      (leb sessions 1 || is_none split) ≡ true
      → plan ≡ plan_single empty_plan
      → log' ≡ log
      → IsPlanned db source split mode sessions task log plan log'
  several_sessions :
      (scn failures : Bytes) (scn_log units_log : List Call)
      → (leb sessions 1 || is_none split) ≡ false
      → Returned (early_scn db mode) log (scn, failures) scn_log
      → Reads db source split sessions task scn_log plan units_log
      → Agrees db source mode scn plan units_log log'
      → IsPlanned db source split mode sessions task log plan log'

-- For any answers of the database, a plan that PlanWork returns is one of these. For one session or the split
-- 'none': one slice, and no call. For several: the SCN is read first, if a snapshot is wanted. The slices are then
-- by extents, for a table and the split 'extents' or 'auto', as one of the two sources of extents gave them; or the
-- hash slices of all sessions, where a query by ORA_HASH was answered, and 'hash' was forced, or the split is 'auto'
-- and the source is a view or PlanExtents refused; or one slice, only for 'auto', where extents were no choice in
-- this sense and Oracle refused the query by ORA_HASH. The plan has an SCN exactly where a snapshot is wanted, there
-- are several slices, the SCN was read, and a query of the source as of it, the last call, was answered, and it is
-- that SCN; where it is missing for several slices, no snapshot was wanted, or the mode was 'auto' and the SCN was
-- not read or Oracle refused that query.
pub plan_work-Reads :
    (db : Database) (source : OracleTableDescription) (split : SplitStrategy) (mode : SnapshotMode)
    (sessions : ℕ) (task : Bytes) (log : List Call) {made : WorkPlan} {log' : List Call}
    → Returned (plan_work db source split mode sessions task) log made log'
    → IsPlanned db source split mode sessions task log made log'
unfolding plan_work several_units
plan_work-Reads db source split mode sessions task log {log' = log'} h =
    elim (Bool-cases (leb sessions 1 || is_none split)) [
      | inl one ↦
          let h' = rw (plan_work, one) at h in
          let same : log ≡ log' = cc in
          one_session one (sym (done_inj (plan_single empty_plan) log h')) (sym same)
      | inr several ↦
          let ((scn, failures), scn_log, e, rest) =
            >>=-Returned (early_scn db mode) _ log (rw (plan_work, several) at h) in
          let (plan, units_log, f, last) =
            >>=-Returned (plan_units db source split sessions task empty_plan) _ scn_log rest in
          let (z, r) =
            plan_units-IsUnits db source split sessions task (ground (arith, several)) scn_log f in
          let (reads, agrees) =
            with_snapshot-IsPlan db source split sessions task scn_log units_log mode scn failures
              plan z r last in
          several_sessions scn failures scn_log units_log several e reads agrees
    ]
