-- ===== src/WorkUnits/Plan/Shape/Units.antt =====
-- How the slices of a plan are chosen: PlanUnits of src/work_units.cpp.
use mathlib.Core.Path.{subst}
use oraduck.Session.{Call, query, rows, fails}
use oraduck.WorkUnits.Plan.Shape.Slices.{
  FromExtents, WithoutExtents, not_wanted, of_view, failed, plan_extents-IsExtents,
}
use oraduck.Session.Inversion.{
  Returned, Threw, >>=-Returned, >>=-Threw, query_strings-Threw, query_strings-log, catch-Returned,
  done_inj, query_strings-Returned,
}
use oraduck.WorkUnits.Plan.{
  ExtentPlan, planned, refused, plan_extents, hash_slices, hash_probe, is_hash, is_auto, is_extents,
  is_none, is_view, hash_refused, try_hash, plan_hash, after_extents, plan_units,
}
use oraduck.Slice.{empty_slice}
use oraduck.ReadSql.{SplitStrategy}
use oraduck.DescribeSource.{OracleTableDescription}
use oraduck.Session.{
  Fault, oracle_error, oraduck_error, source_not_found, other_error, Rows, Database, query_strings,
}
use oraduck.WorkUnits.{WorkPlan, empty_plan, add_note, plan_single}
use oraduck.Prelude.{
  ℕ, ◌≡◌, refl, sym, ◌∙◌, ◌⊎◌, inl, inr, true, false, not, ◌&&◌, ◌||◌, List, [], ◌∷◌, ◌++◌, arith,
  Bool-cases, Bytes,
}

-- What is asked to find out whether ORA_HASH can be used.
abbrev pub hash_call : OracleTableDescription → Call
hash_call source = query (hash_probe source) []

-- How several sessions read the source, when the SCN was read until `scn_log` and the units are planned at
-- `units_log`.
pub data Reads (db : Database) (source : OracleTableDescription) (split : SplitStrategy)
    (sessions : ℕ) (task : Bytes) (scn_log : List Call) (plan : WorkPlan) (units_log : List Call)
    : Type 0 where
  by_extents :
      plan.strategy ≡ SplitStrategy.extents
      → (is_extents split || is_auto split) ≡ true
      → is_view source ≡ false
      → FromExtents db source sessions task plan.slices units_log
      → Reads db source split sessions task scn_log plan units_log
  by_hash :
      (before : List Call) (answer : Rows)
      → plan.strategy ≡ SplitStrategy.hash
      → plan.slices ≡ hash_slices sessions sessions 0
      → WithoutExtents db source split sessions task scn_log before
      → db before (hash_call source) ≡ rows answer
      → units_log ≡ before ++ (hash_call source ∷ [])
      → Reads db source split sessions task scn_log plan units_log
  by_one :
      (before : List Call) (code : ℕ) (what : Bytes)
      → plan.strategy ≡ SplitStrategy.none
      → plan.slices ≡ empty_slice ∷ []
      → is_auto split ≡ true
      → WithoutExtents db source split sessions task scn_log before
      → db before (hash_call source) ≡ fails (oracle_error code what)
      → units_log ≡ before ++ (hash_call source ∷ [])
      → Reads db source split sessions task scn_log plan units_log

only_auto :
    (split : SplitStrategy)
    → is_none split ≡ false
    → is_extents split ≡ false
    → is_hash split ≡ false
    → is_auto split ≡ true
unfolding is_none is_extents is_hash is_auto
only_auto SplitStrategy.auto n e h = refl
only_auto SplitStrategy.extents n e h = cc
only_auto SplitStrategy.hash n e h = cc
only_auto SplitStrategy.none n e h = cc

hash_or_auto :
    (split : SplitStrategy)
    → is_none split ≡ false
    → is_extents split ≡ false
    → (is_hash split ≡ true) ⊎ (is_auto split ≡ true)
unfolding is_none is_extents is_hash is_auto
hash_or_auto SplitStrategy.auto n e = inr refl
hash_or_auto SplitStrategy.extents n e = cc
hash_or_auto SplitStrategy.hash n e = inl refl
hash_or_auto SplitStrategy.none n e = cc

module _ (db : Database) (source : OracleTableDescription) (split : SplitStrategy) (sessions : ℕ)
    (task : Bytes) (several : is_none split ≡ false) (scn_log : List Call) where
  -- A plan of units, before its snapshot.
  abbrev pub IsUnits : WorkPlan → List Call → Type 0
  IsUnits plan log = (plan.scn ≡ []) × Reads db source split sessions task scn_log plan log

  hash_refused-IsUnits :
      (plan : WorkPlan) (e : Fault) (before log : List Call) {made : WorkPlan} {log' : List Call}
      → plan.scn ≡ []
      → is_extents split ≡ false
      → WithoutExtents db source split sessions task scn_log before
      → db before (hash_call source) ≡ fails e
      → log ≡ before ++ (hash_call source ∷ [])
      → Returned (hash_refused source split plan e) log made log'
      → IsUnits made log'
  unfolding hash_refused plan_single add_note
  hash_refused-IsUnits plan (oracle_error code what) before log {log' = log'} z x w a m h =
      elim (Bool-cases (is_hash split)) [
        | inl forced ↦ let h' = rw (hash_refused, forced) at h in cc
        | inr free ↦
            let h' = rw (hash_refused, free) at h in
            let same : log ≡ log' = cc in
            subst (λ p. IsUnits p log') (done_inj _ log h')
              (
                z,
                by_one before code what refl refl (only_auto split several x free) w a
                    (sym same ∙ m),
              )
      ]
  hash_refused-IsUnits plan (oraduck_error what) before log z x w a m h = cc
  hash_refused-IsUnits plan (source_not_found what) before log z x w a m h = cc
  hash_refused-IsUnits plan (other_error what) before log z x w a m h = cc

  try_hash-Threw :
      (plan : WorkPlan) (before : List Call) {e : Fault} {mid : List Call}
      → Threw (try_hash db source sessions plan) before e mid
      → (db before (hash_call source) ≡ fails e) × (mid ≡ before ++ (hash_call source ∷ []))
  unfolding try_hash
  try_hash-Threw plan before h =
      elim (>>=-Threw (query_strings db (hash_probe source) []) _ before h) [
        | inl x ↦ (
          query_strings-Threw db (hash_probe source) [] before x,
          query_strings-log db (hash_probe source) [] before x,
        )
        | inr (answer, mid, r, x) ↦ cc
      ]

  plan_hash-IsUnits :
      (plan : WorkPlan) (before : List Call) {made : WorkPlan} {log' : List Call}
      → plan.scn ≡ []
      → is_extents split ≡ false
      → WithoutExtents db source split sessions task scn_log before
      → Returned (plan_hash db source split sessions plan) before made log'
      → IsUnits made log'
  unfolding plan_hash try_hash
  plan_hash-IsUnits plan before {log' = log'} z x w h =
      elim (catch-Returned (try_hash db source sessions plan) (hash_refused source split plan)
        before h) [
          | inl r ↦
              let (answer, mid, e, last) =
                >>=-Returned (query_strings db (hash_probe source) []) _ before r in
              let (told, asked) = query_strings-Returned db (hash_probe source) [] before e in
              let same : mid ≡ log' = cc in
              subst (λ p. IsUnits p log') (done_inj _ mid last)
                (z, by_hash before answer refl refl w told (sym same ∙ asked))
          | inr (e, mid, f, r) ↦
              let (told, asked) = try_hash-Threw plan before f in
              hash_refused-IsUnits plan e before mid z x w told asked r
        ]

  after_extents-IsUnits :
      (plan : WorkPlan) (extents : ExtentPlan) (log : List Call) {made : WorkPlan}
      {log' : List Call}
      → plan.scn ≡ []
      → (is_extents split || is_auto split) ≡ true
      → is_view source ≡ false
      → Returned (plan_extents db source sessions task empty_plan) scn_log extents log
      → Returned (after_extents db source split sessions plan extents) log made log'
      → IsUnits made log'
  unfolding after_extents add_note
  after_extents-IsUnits plan (planned p) log {log' = log'} z k v e h =
      let (s, x, slices) =
        plan_extents-IsExtents db source sessions task empty_plan scn_log refl e in
      let same : log ≡ log' = cc in
      subst (λ q. IsUnits q log') (done_inj _ log h)
        (s, by_extents x k v (subst (FromExtents db source sessions task p.slices) same slices))
  after_extents-IsUnits plan (refused error note) log z k v e h =
      elim (Bool-cases (is_extents split)) [
        | inl forced ↦ let h' = rw (after_extents, forced) at h in cc
        | inr free ↦
            plan_hash-IsUnits _ log z free (failed error note (ground (arith, free, k)) v e)
              (rw (after_extents, free) at h)
      ]

  pub plan_units-IsUnits :
      {made : WorkPlan} {log' : List Call}
      → Returned (plan_units db source split sessions task empty_plan) scn_log made log'
      → IsUnits made log'
  unfolding plan_units
  plan_units-IsUnits h = elim (Bool-cases (is_extents split && is_view source)) [
    | inl bad ↦ let h' = rw (plan_units, bad) at h in cc
    | inr good ↦ elim (Bool-cases (is_extents split || (is_auto split && not (is_view source)))) [
      | inl extents ↦
          let (p, mid, e, rest) =
            >>=-Returned (plan_extents db source sessions task empty_plan) _ scn_log
              (rw (plan_units, good, extents) at h) in
          after_extents-IsUnits empty_plan p mid refl (ground (arith, good, extents))
            (ground (arith, good, extents)) e rest
      | inr other ↦
          let no_extents : is_extents split ≡ false = ground (arith, other) in
          plan_hash-IsUnits empty_plan scn_log refl no_extents
            (elim (hash_or_auto split several no_extents) [
              | inl hash ↦ not_wanted hash refl
              | inr auto ↦ of_view auto (ground (arith, auto, other)) refl
            ])
            (rw (plan_units, good, other) at h)
    ]
  ]
