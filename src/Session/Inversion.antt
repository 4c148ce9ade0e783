-- ===== src/Session/Inversion.antt =====
-- What the calls of a session have asked and what the database answered.
pub use oraduck.Stateful.Inversion.{
  Returned, Threw, >>=-Returned, catch-Returned, done_inj, >>=-always, catch-always, >>=-Threw,
  catch-Threw,
}
use oraduck.Session.{
  Call, query, execute, execute_sql, done_of, Fault, Rows, Answer, rows, fails, Database, Outcome,
  done, fault, answer_of, query_strings,
}
use oraduck.Prelude.{◌≡◌, List, [], ◌∷◌, ◌++◌, Bytes}

-- A query that returned: what the database answered.
pub query_strings-Returned :
    (db : Database) (sql : Bytes) (binds : List Bytes) (log : List Call) {rs : Rows}
    {log' : List Call}
    → Returned (query_strings db sql binds) log rs log'
    → (db log (query sql binds) ≡ rows rs) × (log' ≡ log ++ (query sql binds ∷ []))
unfolding query_strings
query_strings-Returned db sql binds log h = (answered (db log (query sql binds)) (cc), cc)
  where
    answered : (a : Answer) {r : Rows} → answer_of a ≡ done r → a ≡ rows r
    answered (rows r) e = cc
    answered (fails x) e = cc

-- A call is on the log, whatever its answer.
pub query_strings-log :
    (db : Database) (sql : Bytes) (binds : List Bytes) (log : List Call) {o : Outcome Rows}
    {mid : List Call}
    → query_strings db sql binds log ≡ (o, mid)
    → mid ≡ log ++ (query sql binds ∷ [])
unfolding query_strings
query_strings-log db sql binds log h = cc

pub execute_sql-log :
    (db : Database) (sql : Bytes) (log : List Call) {o : Outcome (Unit {0})} {mid : List Call}
    → execute_sql db sql log ≡ (o, mid)
    → mid ≡ log ++ (execute sql ∷ [])
unfolding execute_sql
execute_sql-log db sql log h = cc

-- The fault of a call is the one that the database answered.
pub query_strings-Threw :
    (db : Database) (sql : Bytes) (binds : List Bytes) (log : List Call) {e : Fault}
    {mid : List Call}
    → Threw (query_strings db sql binds) log e mid
    → db log (query sql binds) ≡ fails e
unfolding query_strings
query_strings-Threw db sql binds log h = failed (db log (query sql binds)) (cc)
  where
    failed : (a : Answer) {e : Fault} → answer_of a ≡ fault e → a ≡ fails e
    failed (rows r) x = cc
    failed (fails y) x = cc

pub execute_sql-Threw :
    (db : Database) (sql : Bytes) (log : List Call) {e : Fault} {mid : List Call}
    → Threw (execute_sql db sql) log e mid
    → db log (execute sql) ≡ fails e
unfolding execute_sql
execute_sql-Threw db sql log h = failed (db log (execute sql)) (cc)
  where
    failed : (a : Answer) {e : Fault} → done_of a ≡ fault e → a ≡ fails e
    failed (rows r) x = cc
    failed (fails y) x = cc

pub query_strings-answered :
    (db : Database) (sql : Bytes) (binds : List Bytes) (log : List Call) {rs : Rows}
    → db log (query sql binds) ≡ rows rs
    → query_strings db sql binds log ≡ (done rs, log ++ (query sql binds ∷ []))
unfolding query_strings
query_strings-answered db sql binds log h = cc
