-- ===== src/WorkUnits/Plan/Shape/Snapshot.antt =====
-- How a plan gets its SCN: PlanSnapshot of src/work_units.cpp.
use mathlib.Core.Path.{subst}
use oraduck.Session.{Call, query, rows, fails}
use oraduck.Session.Inversion.{
  Returned, Threw, >>=-Returned, >>=-Threw, query_strings-Threw, query_strings-log, catch-Returned,
  done_inj, query_strings-Returned,
}
use oraduck.WorkUnits.{
  scn_grants, oracle_message, snapshot_probe, snapshot_refused, no_scn, add_snapshot_note,
  fall_back, try_snapshot,
}
use oraduck.WorkUnits.Plan.{wants_snapshot, with_snapshot}
use oraduck.ReadSql.{SplitStrategy, SnapshotMode}
use oraduck.DescribeSource.{OracleTableDescription}
use oraduck.Session.{
  Fault, oracle_error, oraduck_error, source_not_found, other_error, Rows, Database, query_strings,
}
use oraduck.WorkUnits.{WorkPlan, plan_snapshot}
use oraduck.Prelude.{
  ℕ, ◌≤◌, ◌<◌, ◌≡◌, refl, sym, ◌∙◌, ◌≢◌, inl, inr, true, false, List, [], ◌∷◌, ◌++◌, arith, ltb,
  ltb→lt, Bool-cases, length, is_empty, Bytes, codes,
}
use oraduck.WorkUnits.Plan.Shape.Units.{Reads, by_extents, by_hash, by_one}

-- What is asked to find out whether the source can be read as of an SCN.
abbrev pub snapshot_call : OracleTableDescription → Bytes → Call
snapshot_call source scn = query (snapshot_probe source) (scn ∷ [])

-- How the sessions of a plan agree on what they read, given the SCN that was read before the units.
pub data Agrees (db : Database) (source : OracleTableDescription) (mode : SnapshotMode)
    (scn : Bytes) (plan : WorkPlan) (units_log log : List Call) : Type 0 where
  alone :
      plan.scn ≡ []
      → length plan.slices ≤ 1
      → log ≡ units_log
      → Agrees db source mode scn plan units_log log
  unwanted :
      plan.scn ≡ []
      → mode ≡ SnapshotMode.none
      → log ≡ units_log
      → Agrees db source mode scn plan units_log log
  unread :
      plan.scn ≡ []
      → 1 < length plan.slices
      → mode ≡ SnapshotMode.auto
      → is_empty scn ≡ true
      → log ≡ units_log
      → Agrees db source mode scn plan units_log log
  unsupported :
      (code : ℕ) (what : Bytes)
      → plan.scn ≡ []
      → 1 < length plan.slices
      → mode ≡ SnapshotMode.auto
      → is_empty scn ≡ false
      → db units_log (snapshot_call source scn) ≡ fails (oracle_error code what)
      → log ≡ units_log ++ (snapshot_call source scn ∷ [])
      → Agrees db source mode scn plan units_log log
  at_scn :
      (answer : Rows)
      → plan.scn ≡ scn
      → 1 < length plan.slices
      → mode ≢ SnapshotMode.none
      → is_empty scn ≡ false
      → db units_log (snapshot_call source scn) ≡ rows answer
      → log ≡ units_log ++ (snapshot_call source scn ∷ [])
      → Agrees db source mode scn plan units_log log

wants_snapshot-true : (mode : SnapshotMode) → wants_snapshot mode ≡ true → mode ≢ SnapshotMode.none
unfolding wants_snapshot
wants_snapshot-true SnapshotMode.auto h e = cc
wants_snapshot-true SnapshotMode.scn h e = cc
wants_snapshot-true SnapshotMode.none h e = cc

wants_snapshot-false :
    (mode : SnapshotMode) → wants_snapshot mode ≡ false → mode ≡ SnapshotMode.none
unfolding wants_snapshot
wants_snapshot-false SnapshotMode.auto h = cc
wants_snapshot-false SnapshotMode.scn h = cc
wants_snapshot-false SnapshotMode.none h = refl

module _ (db : Database) (source : OracleTableDescription) (split : SplitStrategy) (sessions : ℕ)
    (task : Bytes) (scn_log units_log : List Call) where
  abbrev pub Chosen : WorkPlan → Type 0
  Chosen plan = Reads db source split sessions task scn_log plan units_log

  Reads-at_scn : (plan : WorkPlan) (scn : Bytes) → Chosen plan → Chosen (record plan { scn = scn })
  Reads-at_scn plan scn (by_extents s k v f) = by_extents s k v f
  Reads-at_scn plan scn (by_hash b r s e w a m) = by_hash b r s e w a m
  Reads-at_scn plan scn (by_one b c t s e k w a m) = by_one b c t s e k w a m

  Reads-add_snapshot_note :
      (plan : WorkPlan) (note : Bytes) → Chosen plan → Chosen (add_snapshot_note plan note)
  unfolding add_snapshot_note
  Reads-add_snapshot_note plan note (by_extents s k v f) = by_extents s k v f
  Reads-add_snapshot_note plan note (by_hash b r s e w a m) = by_hash b r s e w a m
  Reads-add_snapshot_note plan note (by_one b c t s e k w a m) = by_one b c t s e k w a m

  -- A plan with its snapshot.
  abbrev pub IsPlan : SnapshotMode → Bytes → WorkPlan → List Call → Type 0
  IsPlan mode scn plan log = Chosen plan × Agrees db source mode scn plan units_log log

  -- What a fallback to one snapshot for each session leaves.
  fall_back-Returned :
      (mode : SnapshotMode) (error : Fault) (plan : WorkPlan) (note : Bytes) (log : List Call)
      {made : WorkPlan} {log' : List Call}
      → mode ≢ SnapshotMode.none
      → Returned (fall_back mode error plan note) log made log'
      → (mode ≡ SnapshotMode.auto) × (add_snapshot_note plan note ≡ made) × (log ≡ log')
  unfolding fall_back
  fall_back-Returned SnapshotMode.auto error plan note log w h = (refl, done_inj _ log h, cc)
  fall_back-Returned SnapshotMode.scn error plan note log w h = cc
  fall_back-Returned SnapshotMode.none error plan note log w h = absurd (w refl)

  snapshot_refused-IsPlan :
      (mode : SnapshotMode) (scn : Bytes) (plan : WorkPlan) (e : Fault) (log : List Call)
      {made : WorkPlan} {log' : List Call}
      → plan.scn ≡ []
      → Chosen plan
      → mode ≢ SnapshotMode.none
      → 1 < length plan.slices
      → is_empty scn ≡ false
      → db units_log (snapshot_call source scn) ≡ fails e
      → log ≡ units_log ++ (snapshot_call source scn ∷ [])
      → Returned (snapshot_refused source mode scn plan e) log made log'
      → IsPlan mode scn made log'
  unfolding snapshot_refused add_snapshot_note
  snapshot_refused-IsPlan mode scn plan (oracle_error code what) log {log' = log'} z r w n x a m h =
      let (auto, same, ends) = fall_back-Returned mode _ plan _ log w h in
      subst (λ p. IsPlan mode scn p log') same
        (
          Reads-add_snapshot_note plan
              (codes "snapshot: per session (AS OF SCN: " ++ (oracle_message what ++ codes ")")) r,
          unsupported code what z n auto x a (sym ends ∙ m),
        )
  snapshot_refused-IsPlan mode scn plan (oraduck_error what) log z r w n x a m h = cc
  snapshot_refused-IsPlan mode scn plan (source_not_found what) log z r w n x a m h = cc
  snapshot_refused-IsPlan mode scn plan (other_error what) log z r w n x a m h = cc

  try_snapshot-Threw :
      (scn : Bytes) (plan : WorkPlan) {e : Fault} {mid : List Call}
      → Threw (try_snapshot db source scn plan) units_log e mid
      → (db units_log (snapshot_call source scn) ≡ fails e)
        × (mid ≡ units_log ++ (snapshot_call source scn ∷ []))
  unfolding try_snapshot
  try_snapshot-Threw scn plan h =
      elim (>>=-Threw (query_strings db (snapshot_probe source) (scn ∷ [])) _ units_log h) [
        | inl x ↦ (
          query_strings-Threw db (snapshot_probe source) (scn ∷ []) units_log x,
          query_strings-log db (snapshot_probe source) (scn ∷ []) units_log x,
        )
        | inr (answer, mid, r, x) ↦ cc
      ]

  try_snapshot-IsPlan :
      (mode : SnapshotMode) (scn : Bytes) (plan : WorkPlan) {made : WorkPlan} {log' : List Call}
      → Chosen plan
      → mode ≢ SnapshotMode.none
      → 1 < length plan.slices
      → is_empty scn ≡ false
      → Returned (try_snapshot db source scn plan) units_log made log'
      → IsPlan mode scn made log'
  unfolding try_snapshot
  try_snapshot-IsPlan mode scn plan {log' = log'} r w n x h =
      let (answer, mid, e, last) =
        >>=-Returned (query_strings db (snapshot_probe source) (scn ∷ [])) _ units_log h in
      let (told, asked) =
        query_strings-Returned db (snapshot_probe source) (scn ∷ []) units_log e in
      let same : mid ≡ log' = cc in
      subst (λ p. IsPlan mode scn p log') (done_inj _ mid last)
        (Reads-at_scn plan scn r, at_scn answer refl n w x told (sym same ∙ asked))

  plan_snapshot-IsPlan :
      (mode : SnapshotMode) (scn failures : Bytes) (plan : WorkPlan) {made : WorkPlan}
      {log' : List Call}
      → plan.scn ≡ []
      → Chosen plan
      → mode ≢ SnapshotMode.none
      → 1 < length plan.slices
      → Returned (plan_snapshot db source mode scn failures plan) units_log made log'
      → IsPlan mode scn made log'
  unfolding plan_snapshot no_scn add_snapshot_note
  plan_snapshot-IsPlan mode scn failures plan {log' = log'} z r w n h =
      elim (Bool-cases (is_empty scn)) [
        | inl nothing ↦
            let (auto, same, ends) =
              fall_back-Returned mode _ plan _ units_log w
                (rw (plan_snapshot, nothing, no_scn) at h) in
            subst (λ p. IsPlan mode scn p log') same
              (
                Reads-add_snapshot_note plan
                    (codes "snapshot: per session (no current SCN: " ++ (scn_grants ++ codes ")"))
                    r,
                unread z n auto nothing (sym ends),
              )
        | inr some_scn ↦
            elim (catch-Returned (try_snapshot db source scn plan)
              (snapshot_refused source mode scn plan) units_log
              (rw (plan_snapshot, some_scn) at h)) [
                | inl t ↦ try_snapshot-IsPlan mode scn plan r w n some_scn t
                | inr (e, mid, f, t) ↦
                    let (told, asked) = try_snapshot-Threw scn plan f in
                    snapshot_refused-IsPlan mode scn plan e mid z r w n some_scn told asked t
              ]
      ]

  pub with_snapshot-IsPlan :
      (mode : SnapshotMode) (scn failures : Bytes) (plan : WorkPlan) {made : WorkPlan}
      {log' : List Call}
      → plan.scn ≡ []
      → Chosen plan
      → Returned (with_snapshot db source mode scn failures plan) units_log made log'
      → IsPlan mode scn made log'
  unfolding with_snapshot
  with_snapshot-IsPlan mode scn failures plan {log' = log'} z r h =
      elim (Bool-cases (wants_snapshot mode)) [
        | inr free ↦
            let h' = rw (with_snapshot, free) at h in
            let same : units_log ≡ log' = cc in
            subst (λ p. IsPlan mode scn p log') (done_inj _ units_log h')
              (r, unwanted z (wants_snapshot-false mode free) (sym same))
        | inl wanted ↦ elim (Bool-cases (ltb 1 (length plan.slices))) [
          | inr few ↦
              let h' = rw (with_snapshot, wanted, few) at h in
              let same : units_log ≡ log' = cc in
              subst (λ p. IsPlan mode scn p log') (done_inj _ units_log h')
                (r, alone z (ground (arith, few)) (sym same))
          | inl many ↦
              plan_snapshot-IsPlan mode scn failures plan z r (wants_snapshot-true mode wanted)
                (ltb→lt 1 (length plan.slices) many) (rw (with_snapshot, wanted, many) at h)
        ]
      ]
