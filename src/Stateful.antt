-- ===== src/Stateful.antt =====
-- Code that changes a state and throws: the exceptions of src/include/oraduck/errors.hpp, and a throw that keeps
-- the state it happens in.
pub mod Inversion
use oraduck.Prelude.{
  ℕ, zero, suc, ◌+◌, ◌-◌, ◌*◌, ◌/◌, ◌%◌, ◌^◌, ◌≤◌, ◌<◌, ◌≡◌, refl, sym, ap, ◌∙◌, ◌≢◌, ◌↔◌, ◌⊎◌, inl,
  inr, Bool, true, false, not, ◌&&◌, ◌||◌, Option, none, some, List, [], ◌∷◌, ◌++◌, map, reverse,
  arith, ltb, leb, ◌==◌, if◌then◌else◌, ltb→lt, lt→ltb, ==_iff, ==_refl, Bool-cases, Option-cases,
  some_inj, length, get_or, take, drop, replicate, is_empty, count_if, All, length-append,
  count_if-append, length-replicate, length-map, All-append, AllPairs, All-map, Bytes, codes,
  bytes_eq, is_upper, is_lower, is_alpha, is_digit, is_alnum, is_space, to_upper, to_lower,
  has_byte, starts_with, has_text, last_byte, but_last, to_decimal, bytes_eq→eq, bytes_eq_refl,
  all_below, all_below_sound,
}

-- OracleError with its code, OraduckError, its SourceNotFoundError, and any other std::exception.
pub data Fault : Type 0 where
  oracle_error : ℕ → Bytes → Fault
  oraduck_error : Bytes → Fault
  source_not_found : Bytes → Fault
  other_error : Bytes → Fault

pub data Outcome (A : Type 0) : Type 0 where
  done : A → Outcome A
  fault : Fault → Outcome A

abbrev pub Stateful : Type 0 → Type 0 → Type 0
Stateful S A = S → Outcome A × S

abbrev pub pure : {S A : Type 0} → A → Stateful S A
pure a s = (done a, s)

abbrev pub throw : {S A : Type 0} → Fault → Stateful S A
throw f s = (fault f, s)

-- What follows a step, and what follows a throw.
abbrev pub resume : {S A B : Type 0} → (A → Stateful S B) → Outcome A × S → Outcome B × S
resume f (done a, s) = f a s
resume f (fault e, s) = (fault e, s)

abbrev pub rescue : {S A : Type 0} → (Fault → Stateful S A) → Outcome A × S → Outcome A × S
rescue handler (done a, s) = (done a, s)
rescue handler (fault e, s) = handler e s

infixl 5 ◌>>=◌ ◌>>◌
abbrev pub ◌>>=◌ : {S A B : Type 0} → Stateful S A → (A → Stateful S B) → Stateful S B
◌>>=◌ m f s = resume f (m s)

abbrev pub ◌>>◌ : {S A B : Type 0} → Stateful S A → Stateful S B → Stateful S B
m >> k = m >>= λ _. k

-- try { m } catch (...) { handler }: what was done before the throw stays done.
abbrev pub catch : {S A : Type 0} → Stateful S A → (Fault → Stateful S A) → Stateful S A
catch m handler s = rescue handler (m s)

-- A throw of the C++ library.
abbrev pub or_throw : {S A : Type 0} → Bytes → Option A → Stateful S A
or_throw what none = throw (Fault.other_error what)
or_throw what (some a) = pure a
