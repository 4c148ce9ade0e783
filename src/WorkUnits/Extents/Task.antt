-- ===== src/WorkUnits/Extents/Task.antt =====
-- The task of DBMS_PARALLEL_EXECUTE on every path of SlicesFromParallelExecute.
use mathlib.Core.Path.{subst}
use oraduck.Session.{
  Call, query, execute, Fault, oracle_error, oraduck_error, source_not_found, other_error, Rows,
  Database, Outcome, fails, pure, throw, ◌>>◌, catch, or_throw, query_strings, execute_sql,
  first_value,
}
use oraduck.Session.Inversion.{
  Returned, Threw, >>=-Returned, catch-Returned, >>=-always, catch-always, >>=-Threw, catch-Threw,
  query_strings-log, query_strings-Returned, execute_sql-log, query_strings-Threw,
  execute_sql-Threw,
}
use oraduck.Rowid.{target_blocks}
use oraduck.DescribeSource.{OracleTableDescription}
use oraduck.WorkUnits.{duplicate_task_name}
use oraduck.WorkUnits.Extents.{
  statistic_sql, statistic_binds, largest_segment_statistic, drop_sql, drop_task, drop_task_quietly,
  create_sql, chunks_sql, abandon_task, ask_chunks, make_chunks, drop_made, keep_chunks,
  slices_from_parallel_execute,
}
use oraduck.Prelude.Numerals.{stoul}
use oraduck.Prelude.{
  ℕ, ◌≡◌, refl, sym, ap, ◌∙◌, inl, inr, Option, none, some, List, [], ◌∷◌, ◌++◌, codes, ◌==◌, false,
  ==_iff, Bool-cases, Bytes,
}

-- The two calls that need the task, and what was asked before.
pub data Asked (source : OracleTableDescription) (task : Bytes) (log before : List Call)
    (call : Call) : Type 0 where
  creating :
      (chunk_blocks : ℕ)
      → before ≡ log ++ (query statistic_sql (statistic_binds source) ∷ [])
      → call ≡ execute (create_sql task source chunk_blocks)
      → Asked source task log before call
  listing :
      (chunk_blocks : ℕ)
      → before
        ≡ (log ++ (query statistic_sql (statistic_binds source) ∷ []))
          ++ (execute (create_sql task source chunk_blocks) ∷ [])
      → call ≡ query chunks_sql (task ∷ [])
      → Asked source task log before call

-- A call that is refused since another session has a task of that name.
abbrev pub WasTaken : Database → List Call → Call → Type 0
WasTaken db before call =
    (what : Bytes) × (db before call ≡ fails (oracle_error duplicate_task_name what))

-- What was asked of the database, from `log` on to `log'`.
pub data Settled (db : Database) (source : OracleTableDescription) (task : Bytes)
    (log log' : List Call) : Type 0 where
  not_asked :
      log' ≡ log ++ (query statistic_sql (statistic_binds source) ∷ [])
      → Settled db source task log log'
  not_ours :
      (before : List Call) (call : Call)
      → Asked source task log before call
      → WasTaken db before call
      → log' ≡ before ++ (call ∷ [])
      → Settled db source task log log'
  dropped :
      (before : List Call) (call : Call)
      → Asked source task log before call
      → ¬ WasTaken db before call
      → log' ≡ (before ++ (call ∷ [])) ++ (execute (drop_sql task) ∷ [])
      → Settled db source task log log'

or_throw-log :
    {A : Type 0} (what : Bytes) (o : Option A) (log : List Call) {r : Outcome A} {mid : List Call}
    → or_throw what o log ≡ (r, mid)
    → mid ≡ log
or_throw-log what none log h = cc
or_throw-log what (some a) log h = cc

or_throw-end :
    {A : Type 0} (what : Bytes) (o : Option A) (log : List Call) → (or_throw what o log).1 ≡ log
or_throw-end what none log = refl
or_throw-end what (some a) log = refl

module _ (db : Database) (source : OracleTableDescription) (task : Bytes) (log : List Call) where
  abbrev Ends : List Call → Type 0
  Ends log' = Settled db source task log log'

  -- The log after a call that needs the task, which no other session has.
  abbrev IsOurs : List Call → Type 0
  IsOurs mid =
      (before : List Call) × (call : Call) × Asked source task log before call
      × (¬ WasTaken db before call)
      × (mid ≡ before ++ (call ∷ []))

  drop_task-Ends :
      (mid : List Call) {o : Outcome (Unit {0})} {mid' : List Call}
      → IsOurs mid
      → drop_task db task mid ≡ (o, mid')
      → Ends mid'
  unfolding drop_task
  drop_task-Ends mid (before, call, asked, ours, m) h =
      dropped before call asked ours
        (execute_sql-log db (drop_sql task) mid h ∙ ap (λ l. l ++ (execute (drop_sql task) ∷ [])) m)

  -- Dropped and thrown.
  quietly-Ends :
      (mid : List Call) (e : Fault)
      → IsOurs mid
      → Ends ((◌>>◌ (drop_task_quietly db task) (throw {A = Rows} e) mid).1)
  unfolding drop_task_quietly
  quietly-Ends mid e ours =
      >>=-always Ends (drop_task_quietly db task) _ mid (λ x m h. quiet h) (λ u m h. quiet h)
    where
      quiet :
          {o : Outcome (Unit {0})} {mid' : List Call}
          → drop_task_quietly db task mid ≡ (o, mid')
          → Ends mid'
      quiet h = subst Ends (ap (λ r. r.1) h) (
          catch-always Ends (drop_task db task) (λ x. pure tt) mid
            (λ u m d. drop_task-Ends mid ours d) (λ x m d. drop_task-Ends mid ours d))

  -- A call of the first try block has failed.
  abandon_task-Ends :
      (before : List Call) (call : Call) (e : Fault) (mid : List Call)
      → Asked source task log before call
      → mid ≡ before ++ (call ∷ [])
      → db before call ≡ fails e
      → Ends ((abandon_task db task e mid).1)
  unfolding abandon_task
  abandon_task-Ends before call (oracle_error code what) mid asked m a =
      elim (Bool-cases (code == duplicate_task_name)) [
        | inl taken ↦
            let is_taken : code ≡ duplicate_task_name = (==_iff code duplicate_task_name).0 taken in
            rw (abandon_task, taken) (not_ours before call asked (what, rw (sym is_taken) a) m)
        | inr other ↦
            rw (abandon_task, other)
              (quietly-Ends mid (oracle_error code what)
                (before, call, asked, λ (w, t). refused_otherwise code what w other (sym a ∙ t), m))
      ]
    where
      refused_otherwise :
          (code : ℕ) (what w : Bytes)
          → (code == duplicate_task_name) ≡ false
          → fails (oracle_error code what) ≡ fails (oracle_error duplicate_task_name w)
          → ⊥
      refused_otherwise code what w other h = cc
  abandon_task-Ends before call (oraduck_error what) mid asked m a =
      quietly-Ends mid (oraduck_error what) (before, call, asked, λ (w, t). cc, m)
  abandon_task-Ends before call (source_not_found what) mid asked m a =
      quietly-Ends mid (source_not_found what) (before, call, asked, λ (w, t). cc, m)
  abandon_task-Ends before call (other_error what) mid asked m a =
      quietly-Ends mid (other_error what) (before, call, asked, λ (w, t). cc, m)

  ask_chunks-Threw :
      (chunk_blocks : ℕ) (start : List Call) {e : Fault} {mid : List Call}
      → start ≡ log ++ (query statistic_sql (statistic_binds source) ∷ [])
      → Threw (ask_chunks db source chunk_blocks task) start e mid
      → (before : List Call) × (call : Call) × Asked source task log before call
        × (mid ≡ before ++ (call ∷ []))
        × (db before call ≡ fails e)
  unfolding ask_chunks
  ask_chunks-Threw chunk_blocks start s h =
      let sql = create_sql task source chunk_blocks in
      elim (>>=-Threw (execute_sql db sql) _ start h) [
        | inl x ↦ (
          start,
          execute sql,
          creating chunk_blocks s refl,
          execute_sql-log db sql start x,
          execute_sql-Threw db sql start x,
        )
        | inr (u, mid, r, x) ↦ (
          mid,
          query chunks_sql (task ∷ []),
          listing chunk_blocks
              (execute_sql-log db sql start r ∙ ap (λ l. l ++ (execute sql ∷ [])) s) refl,
          query_strings-log db chunks_sql (task ∷ []) mid x,
          query_strings-Threw db chunks_sql (task ∷ []) mid x,
        )
      ]

  make_chunks-Threw :
      (chunk_blocks : ℕ) (start : List Call) {e : Fault} {mid : List Call}
      → start ≡ log ++ (query statistic_sql (statistic_binds source) ∷ [])
      → Threw (make_chunks db source chunk_blocks task) start e mid
      → Ends mid
  unfolding make_chunks
  make_chunks-Threw chunk_blocks start s h =
      let (x, mid, t, r) =
        catch-Threw (ask_chunks db source chunk_blocks task) (abandon_task db task) start h in
      let (before, call, asked, m, a) = ask_chunks-Threw chunk_blocks start s t in
      subst Ends (ap (λ p. p.1) r) (abandon_task-Ends before call x mid asked m a)

  abandon_task-Returned :
      (e : Fault) (start : List Call) {rs : Rows} {mid : List Call}
      → Returned (abandon_task db task e) start rs mid
      → ⊥
  unfolding abandon_task
  abandon_task-Returned (oracle_error code what) start h =
      elim (Bool-cases (code == duplicate_task_name)) [
        | inl taken ↦ let h' = rw (abandon_task, taken) at h in cc
        | inr other ↦
            let (u, m, d, t) =
              >>=-Returned (drop_task_quietly db task) _ start (rw (abandon_task, other) at h) in
            cc
      ]
  abandon_task-Returned (oraduck_error what) start h =
      let (u, m, d, t) = >>=-Returned (drop_task_quietly db task) _ start h in cc
  abandon_task-Returned (source_not_found what) start h =
      let (u, m, d, t) = >>=-Returned (drop_task_quietly db task) _ start h in cc
  abandon_task-Returned (other_error what) start h =
      let (u, m, d, t) = >>=-Returned (drop_task_quietly db task) _ start h in cc

  make_chunks-IsOurs :
      (chunk_blocks : ℕ) (start : List Call) {rs : Rows} {mid : List Call}
      → start ≡ log ++ (query statistic_sql (statistic_binds source) ∷ [])
      → Returned (make_chunks db source chunk_blocks task) start rs mid
      → IsOurs mid
  unfolding make_chunks ask_chunks
  make_chunks-IsOurs chunk_blocks start s h =
      elim (catch-Returned (ask_chunks db source chunk_blocks task) (abandon_task db task) start
        h) [
          | inr (e, mid, t, r) ↦ absurd (abandon_task-Returned e mid r)
          | inl r ↦
              let sql = create_sql task source chunk_blocks in
              let (u, mid, made, listed) = >>=-Returned (execute_sql db sql) _ start r in
              let (told, asked) = query_strings-Returned db chunks_sql (task ∷ []) mid listed in
              (
                mid,
                query chunks_sql (task ∷ []),
                listing chunk_blocks
                    (execute_sql-log db sql start made ∙ ap (λ l. l ++ (execute sql ∷ [])) s) refl,
                λ (w, t). cc,
                asked,
              )
        ]

  keep_chunks-log : (e : Fault) (mid : List Call) → (keep_chunks task e mid).1 ≡ mid
  unfolding keep_chunks
  keep_chunks-log (oracle_error code what) mid = refl
  keep_chunks-log (oraduck_error what) mid = refl
  keep_chunks-log (source_not_found what) mid = refl
  keep_chunks-log (other_error what) mid = refl

  drop_made-Ends :
      (start : List Call) {o : Outcome Bytes} {mid : List Call}
      → IsOurs start
      → drop_made db task start ≡ (o, mid)
      → Ends mid
  unfolding drop_made
  drop_made-Ends start ours h = subst Ends (ap (λ r. r.1) h) (
      >>=-always Ends (drop_task db task) _ start (λ x m d. drop_task-Ends start ours d)
        (λ u m d. drop_task-Ends start ours d))

  drop_kept-Ends :
      (start : List Call) {o : Outcome Bytes} {mid : List Call}
      → IsOurs start
      → catch (drop_made db task) (keep_chunks task) start ≡ (o, mid)
      → Ends mid
  drop_kept-Ends start ours h = subst Ends (ap (λ r. r.1) h) (
      catch-always Ends (drop_made db task) (keep_chunks task) start
        (λ u m d. drop_made-Ends start ours d)
        (λ x m d. subst Ends (sym (keep_chunks-log x m)) (drop_made-Ends start ours d)))

  abbrev Is : List Call → Type 0
  Is mid = mid ≡ log ++ (query statistic_sql (statistic_binds source) ∷ [])

  statistic-log :
      {o : Outcome ℕ} {mid : List Call}
      → largest_segment_statistic db source log ≡ (o, mid)
      → mid ≡ log ++ (query statistic_sql (statistic_binds source) ∷ [])
  unfolding largest_segment_statistic
  statistic-log h = subst Is (ap (λ r. r.1) h) (
      >>=-always Is (query_strings db statistic_sql (statistic_binds source)) _ log
        (λ e m d. query_strings-log db statistic_sql (statistic_binds source) log d)
        (λ rs m d.
          let asked = query_strings-log db statistic_sql (statistic_binds source) log d in
          >>=-always Is (or_throw (codes "vector::_M_range_check") (first_value rs)) _ m
            (λ e m' d'. or_throw-log _ (first_value rs) m d' ∙ asked)
            (λ v m' d'.
              or_throw-end _ (stoul v) m' ∙ or_throw-log _ (first_value rs) m d' ∙ asked)))

  -- For any answers of the database, and whether SlicesFromParallelExecute returns or throws: it has asked for no
  -- task, only for the statistics; or the last call was that which creates the task or lists its chunks, refused
  -- with ORA-29497, and the task, which is another session's, is not dropped; or that call was not refused so, and
  -- the one call after it, the last, drops the task.
  pub slices_from_parallel_execute-Settled :
      (sessions : ℕ)
      → Settled db source task log ((slices_from_parallel_execute db source sessions task log).1)
  unfolding slices_from_parallel_execute
  slices_from_parallel_execute-Settled sessions =
      >>=-always Ends (largest_segment_statistic db source) _ log
        (λ e m h. not_asked (statistic-log h))
        (λ largest m h.
          >>=-always Ends (make_chunks db source (target_blocks largest sessions) task) _ m
            (λ e m' h'. make_chunks-Threw _ m (statistic-log h) h')
            (λ chunks m' h'.
              let ours = make_chunks-IsOurs _ m (statistic-log h) h' in
              >>=-always Ends (catch (drop_made db task) (keep_chunks task)) _ m'
                (λ e m'' h''. drop_kept-Ends m' ours h'')
                (λ failure m'' h''. drop_kept-Ends m' ours h'')))
