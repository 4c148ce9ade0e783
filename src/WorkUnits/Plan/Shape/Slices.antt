-- ===== src/WorkUnits/Plan/Shape/Slices.antt =====
-- Where the slices by extents come from, and what stands for having none.
use mathlib.Core.Path.{subst}
use oraduck.Session.{
  Call, Fault, oracle_error, oraduck_error, source_not_found, other_error, Database, pure, ◌>>=◌,
}
use oraduck.Session.Inversion.{Returned, >>=-Returned, catch-Returned, done_inj}
use oraduck.WorkUnits.{WorkPlan, empty_plan, table_not_found, insufficient_privileges, add_note}
use oraduck.WorkUnits.Plan.{
  DbaSlices, found, missing, ExtentPlan, planned, refused, dba_answer, dba_refused, dba_slices,
  parallel_plan, parallel_refused, try_parallel, from_dba, not_a_heap, plan_extents, is_hash,
  is_auto, is_view,
}
use oraduck.WorkUnits.Extents.{
  non_heap_reason, slices_from_dba_extents, slices_from_parallel_execute,
}
use oraduck.Slice.{Slice}
use oraduck.ReadSql.{SplitStrategy}
use oraduck.DescribeSource.{OracleTableDescription}
use oraduck.Prelude.{
  ℕ, ◌≡◌, refl, ◌⊎◌, inl, inr, true, false, ◌||◌, ◌==◌, Option, none, some, List, [], Bool-cases,
  is_empty, Bytes,
}

-- Slices that one of the two sources of extents gave, ending at `after`.
abbrev pub FromExtents :
    Database → OracleTableDescription → ℕ → Bytes → List Slice → List Call → Type 0
FromExtents db source sessions task slices after =
    (before : List Call) × (Returned (slices_from_dba_extents db source sessions) before
        (some slices) after
      ⊎ ((failure : Bytes) × Returned (slices_from_parallel_execute db source sessions task) before
            (slices, failure) after))

-- Why a source is not read by extents, when the units are planned from `scn_log` on.
pub data WithoutExtents (db : Database) (source : OracleTableDescription) (split : SplitStrategy)
    (sessions : ℕ) (task : Bytes) (scn_log before : List Call) : Type 0 where
  not_wanted :
      is_hash split ≡ true
      → before ≡ scn_log
      → WithoutExtents db source split sessions task scn_log before
  of_view :
      is_auto split ≡ true
      → is_view source ≡ true
      → before ≡ scn_log
      → WithoutExtents db source split sessions task scn_log before
  failed :
      (error note : Bytes)
      → is_auto split ≡ true
      → is_view source ≡ false
      → Returned
          (plan_extents db source sessions task empty_plan)
          scn_log
          (refused error note)
          before
      → WithoutExtents db source split sessions task scn_log before

dba_refused-missing :
    (e : Fault) (log : List Call) {slices : List Slice} {log' : List Call}
    → Returned (dba_refused e) log (found slices) log'
    → ⊥
unfolding dba_refused
dba_refused-missing (oracle_error code what) log h =
    elim (Bool-cases ((code == table_not_found) || (code == insufficient_privileges))) [
      | inl e ↦ let h' = rw (dba_refused, e) at h in cc
      | inr e ↦ let h' = rw (dba_refused, e) at h in cc
    ]
dba_refused-missing (oraduck_error what) log h = cc
dba_refused-missing (source_not_found what) log h = cc
dba_refused-missing (other_error what) log h = cc

dba_answer-found :
    (answer : Option (List Slice)) (slices : List Slice)
    → dba_answer answer ≡ found slices
    → answer ≡ some slices
unfolding dba_answer
dba_answer-found none slices h = cc
dba_answer-found (some l) slices h = cc

module _ (db : Database) (source : OracleTableDescription) (sessions : ℕ) (task : Bytes) where
  dba_slices-found :
      (log : List Call) {slices : List Slice} {log' : List Call}
      → Returned (dba_slices db source sessions) log (found slices) log'
      → Returned (slices_from_dba_extents db source sessions) log (some slices) log'
  unfolding dba_slices
  dba_slices-found log {slices = slices} {log' = log'} h =
      elim (catch-Returned
        (◌>>=◌ (slices_from_dba_extents db source sessions) (λ answer. pure (dba_answer answer)))
        dba_refused log h) [
          | inr (e, mid, t, r) ↦ absurd (dba_refused-missing e mid r)
          | inl r ↦
              let (answer, mid, e, last) =
                >>=-Returned (slices_from_dba_extents db source sessions) _ log r in
              let is_some : answer ≡ some slices =
                dba_answer-found answer slices (done_inj (dba_answer answer) mid last) in
              let same : mid ≡ log' = cc in
              let m = slices_from_dba_extents db source sessions in
              subst (λ l. Returned m log (some slices) l) same
                (subst (λ a. Returned m log a mid) is_some e)
        ]

  abbrev pub IsExtents : ExtentPlan → List Call → Type 0
  IsExtents (planned plan) log =
      (plan.scn ≡ [])
      × (plan.strategy ≡ SplitStrategy.extents)
      × FromExtents db source sessions task plan.slices log
  IsExtents (refused error note) log = Unit {0}

  parallel_plan-IsExtents :
      (plan : WorkPlan) (code : Bytes) (slices : List Slice) (failure : Bytes)
      (before log : List Call)
      → plan.scn ≡ []
      → Returned (slices_from_parallel_execute db source sessions task) before (slices, failure) log
      → IsExtents (planned (parallel_plan plan code (slices, failure))) log
  unfolding parallel_plan add_note
  parallel_plan-IsExtents plan code slices failure before log z h =
      elim (Bool-cases (is_empty failure)) [
        | inl e ↦ rw (parallel_plan, e) (z, refl, (before, inr (failure, h)))
        | inr e ↦ rw (parallel_plan, e) (z, refl, (before, inr (failure, h)))
      ]

  parallel_refused-IsExtents :
      (message code : Bytes) (e : Fault) (log : List Call) {made : ExtentPlan} {log' : List Call}
      → Returned (parallel_refused message code e) log made log'
      → IsExtents made log'
  unfolding parallel_refused
  parallel_refused-IsExtents message code (oracle_error n what) log {log' = log'} h =
      subst (λ p. IsExtents p log') (done_inj _ log h) tt
  parallel_refused-IsExtents message code (oraduck_error what) log h = cc
  parallel_refused-IsExtents message code (source_not_found what) log h = cc
  parallel_refused-IsExtents message code (other_error what) log h = cc

  from_dba-IsExtents :
      (plan : WorkPlan) (dba : DbaSlices) (start log : List Call) {made : ExtentPlan}
      {log' : List Call}
      → plan.scn ≡ []
      → Returned (dba_slices db source sessions) start dba log
      → Returned (from_dba db source sessions task plan dba) log made log'
      → IsExtents made log'
  unfolding from_dba try_parallel add_note
  from_dba-IsExtents plan (found slices) start log {log' = log'} z d h =
      let same : log ≡ log' = cc in
      subst (λ p. IsExtents p log') (done_inj _ log h)
        (
          z,
          refl,
          (
            start,
            inl (
                subst
                  (λ l. Returned (slices_from_dba_extents db source sessions) start (some slices) l)
                  same (dba_slices-found start d)),
          ),
        )
  from_dba-IsExtents plan (missing message code) start log {log' = log'} z d h =
      elim (catch-Returned (try_parallel db source sessions task plan code)
        (parallel_refused message code) log h) [
          | inl r ↦
              let ((slices, failure), mid, e, last) =
                >>=-Returned (slices_from_parallel_execute db source sessions task) _ log r in
              let same : mid ≡ log' = cc in
              subst (λ p. IsExtents p log') (done_inj _ mid last)
                (subst (λ l. IsExtents (planned (parallel_plan plan code (slices, failure))) l) same
                  (parallel_plan-IsExtents plan code slices failure log mid z e))
          | inr (x, mid, e, r) ↦ parallel_refused-IsExtents message code x mid r
        ]

  pub plan_extents-IsExtents :
      (plan : WorkPlan) (log : List Call) {made : ExtentPlan} {log' : List Call}
      → plan.scn ≡ []
      → Returned (plan_extents db source sessions task plan) log made log'
      → IsExtents made log'
  unfolding plan_extents not_a_heap
  plan_extents-IsExtents plan log {log' = log'} z h =
      let (reason, mid, e, rest) = >>=-Returned (non_heap_reason db source) _ log h in
      elim (Bool-cases (is_empty reason)) [
        | inr why ↦ subst (λ p. IsExtents p log') (done_inj _ mid (rw why at rest)) tt
        | inl heap ↦
            let (dba, mid', f, last) =
              >>=-Returned (dba_slices db source sessions) _ mid (rw heap at rest) in
            from_dba-IsExtents plan dba mid mid' z f last
      ]
