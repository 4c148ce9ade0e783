-- ===== src/Session.antt =====
-- A session with Oracle as the planner sees it: OciSession of src/oci_session.cpp and the errors of
-- src/include/oraduck/errors.hpp. What the database answers is a parameter, which may depend on all that was
-- asked before; the state is the list of those calls, oldest first.
pub mod Inversion
pub use oraduck.Stateful.{
  Fault, oracle_error, oraduck_error, source_not_found, other_error, Outcome, done, fault, Stateful,
  pure, throw, resume, rescue, ◌>>=◌, ◌>>◌, catch, or_throw,
}
use oraduck.Prelude.{
  ℕ, zero, suc, ◌+◌, ◌-◌, ◌*◌, ◌/◌, ◌%◌, ◌^◌, ◌≤◌, ◌<◌, ◌≡◌, refl, sym, ap, ◌∙◌, ◌≢◌, ◌↔◌, ◌⊎◌, inl,
  inr, Bool, true, false, not, ◌&&◌, ◌||◌, Option, none, some, List, [], ◌∷◌, ◌++◌, map, reverse,
  arith, ltb, leb, ◌==◌, if◌then◌else◌, ltb→lt, lt→ltb, ==_iff, ==_refl, Bool-cases, Option-cases,
  some_inj, length, get_or, take, drop, replicate, is_empty, count_if, All, length-append,
  count_if-append, length-replicate, length-map, All-append, AllPairs, All-map, Bytes, codes,
  bytes_eq, is_upper, is_lower, is_alpha, is_digit, is_alnum, is_space, to_upper, to_lower,
  has_byte, starts_with, has_text, last_byte, but_last, to_decimal, bytes_eq→eq, bytes_eq_refl,
  all_below, all_below_sound,
}

pub data Call : Type 0 where
  query : Bytes → List Bytes → Call
  execute : Bytes → Call

-- A value of a text column, NULL read as "".
abbrev pub Rows : Type 0
Rows = List (List Bytes)

pub data Answer : Type 0 where
  rows : Rows → Answer
  fails : Fault → Answer

abbrev pub Database : Type 0
Database = List Call → Call → Answer

abbrev pub Action : Type 0 → Type 0
Action A = Stateful (List Call) A

abbrev pub answer_of : Answer → Outcome Rows
answer_of (rows r) = done r
answer_of (fails e) = fault e

abbrev pub done_of : Answer → Outcome (Unit {0})
done_of (rows r) = done tt
done_of (fails e) = fault e

-- QueryStrings and Execute.
pub query_strings : Database → Bytes → List Bytes → Action Rows
query_strings db sql binds log =
    (answer_of (db log (query sql binds)), log ++ (query sql binds ∷ []))

pub execute_sql : Database → Bytes → Action (Unit {0})
execute_sql db sql log = (done_of (db log (execute sql)), log ++ (execute sql ∷ []))

-- rows.at(0).at(0)
pub first_value : Rows → Option Bytes
first_value [] = none
first_value ([] ∷ rs) = none
first_value ((v ∷ vs) ∷ rs) = some v

-- row[i], of a row with enough columns.
abbrev pub field : List Bytes → ℕ → Bytes
field row i = get_or row i []

-- Opens the two calls.
unfoldable pub session_calls : Unit {0}
unfolding query_strings execute_sql first_value
session_calls = tt
