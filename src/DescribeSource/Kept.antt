-- ===== src/DescribeSource/Kept.antt =====
-- What the rest of a description leaves as it was.
use mathlib.Core.Path.{subst}
use oraduck.DescribeSource.{
  SourceKind, OracleTableDescription, read_int, columns_from_rows, session_user, read_charsets,
  set_charsets, charsets_sql, set_table, table_sql, columns_sql, describe_table, kind_of_type,
  source_owner, current_schema, current_schema_sql, query_value, describe_object,
}
use oraduck.Names.{TargetName}
use oraduck.Session.Inversion.{Returned, >>=-Returned, done_inj, query_strings-Returned}
use oraduck.Session.{Call, query, rows, Rows, Database, query_strings, first_value, or_throw, field}
use oraduck.Prelude.{
  ◌≡◌, refl, sym, ◌∙◌, ◌⊎◌, inl, inr, Option, none, some, true, false, List, [], ◌∷◌, Bool-cases,
  is_empty, Bytes, codes, bytes_eq,
}

-- What describes an object keeps its owner, its name and its kind.
abbrev IsSame : OracleTableDescription → OracleTableDescription → Type 0
IsSame a b = (a.owner ≡ b.owner) × (a.name ≡ b.name) × (a.kind ≡ b.kind)

set_charsets-IsSame :
    (rs : Rows) (a b : OracleTableDescription) → IsSame a b → IsSame a (set_charsets rs b)
unfolding set_charsets
set_charsets-IsSame [] a b k = k
set_charsets-IsSame (row ∷ rs) a b k =
    elim (Bool-cases (bytes_eq (field row 0) (codes "NLS_CHARACTERSET"))) [
      | inl e ↦
          rw (set_charsets, e) (set_charsets-IsSame rs a (record b { db_charset = field row 1 }) k)
      | inr e ↦
          rw (set_charsets, e)
            (set_charsets-IsSame rs a (record b { nchar_charset = field row 1 }) k)
    ]

module _ (db : Database) where
  read_charsets-IsSame :
      (a : OracleTableDescription) (log : List Call) {b : OracleTableDescription} {log' : List Call}
      → Returned (read_charsets db a) log b log'
      → IsSame a b
  unfolding read_charsets
  read_charsets-IsSame a log h =
      let (rs, mid, e, last) = >>=-Returned (query_strings db charsets_sql []) _ log h in
      subst (IsSame a) (done_inj _ mid last) (set_charsets-IsSame rs a a (refl, refl, refl))

  set_table-IsSame :
      (rs : Rows) (a : OracleTableDescription) (log : List Call) {b : OracleTableDescription}
      {log' : List Call}
      → Returned (set_table rs a) log b log'
      → IsSame a b
  unfolding set_table
  set_table-IsSame [] a log h = subst (IsSame a) (done_inj _ log h) (refl, refl, refl)
  set_table-IsSame (row ∷ rs) a log h =
      let (n, mid, e, last) = >>=-Returned (read_int 64 (field row 1)) _ log h in
      subst (IsSame a) (done_inj _ mid last) (refl, refl, refl)

  describe_table-IsSame :
      (a : OracleTableDescription) (log : List Call) {b : OracleTableDescription} {log' : List Call}
      → Returned (describe_table db a) log b log'
      → IsSame a b
  unfolding describe_table
  describe_table-IsSame a log h = by_kind a a.kind refl log h
    where
      by_kind :
          (a : OracleTableDescription) (kind : SourceKind)
          → a.kind ≡ kind
          → (log : List Call) {b : OracleTableDescription} {log' : List Call}
          → Returned (describe_table db a) log b log'
          → IsSame a b
      by_kind a SourceKind.view k log h =
          subst (IsSame a) (done_inj _ log (rw (describe_table, k) at h)) (refl, refl, refl)
      by_kind a SourceKind.table k log h =
          let (rs, mid, e, last) =
            >>=-Returned (query_strings db table_sql (a.owner ∷ a.name ∷ [])) _ log
              (rw (describe_table, k) at h) in
          set_table-IsSame rs a mid last

  pub describe_object_lem :
      (owner object type : Bytes) (log : List Call) {made : OracleTableDescription}
      {log' : List Call}
      → Returned (describe_object db owner object type) log made log'
      → (owner ≡ made.owner) × (object ≡ made.name) × (kind_of_type type ≡ made.kind)
  unfolding describe_object
  describe_object_lem owner object type log h =
      let (user, l1, e1, h1) = >>=-Returned (session_user db) _ log h in
      let (rs, l2, e2, h2) =
        >>=-Returned (query_strings db columns_sql (owner ∷ object ∷ [])) _ l1 h1 in
      let (columns, l3, e3, h3) = >>=-Returned (columns_from_rows rs) _ l2 h2 in
      let (described, l4, e4, h4) = >>=-Returned (describe_table db _) _ l3 h3 in
      let (o, n, k) = describe_table-IsSame _ l3 e4 in
      let (o', n', k') = read_charsets-IsSame described l4 h4 in (o ∙ o', n ∙ n', k ∙ k')

  or_throw-Returned :
      (what : Bytes) (o : Option Bytes) (log : List Call) {v : Bytes} {log' : List Call}
      → Returned (or_throw what o) log v log'
      → o ≡ some v
  or_throw-Returned what none log h = cc
  or_throw-Returned what (some a) log h = cc

  -- The owner of a name, or what the database says the current schema is.
  abbrev pub IsOwner : TargetName → List Call → Bytes → Type 0
  IsOwner name log owner =
      ((is_empty name.owner ≡ false) × (owner ≡ name.owner))
      ⊎ ((is_empty name.owner ≡ true)
          × ((answer : Rows) × (db log (query current_schema_sql []) ≡ rows answer)
              × (first_value answer ≡ some owner)))

  pub source_owner_lem :
      (name : TargetName) (log : List Call) {owner : Bytes} {log' : List Call}
      → Returned (source_owner db name) log owner log'
      → IsOwner name log owner
  unfolding source_owner current_schema query_value
  source_owner_lem name log h = elim (Bool-cases (is_empty name.owner)) [
    | inr e ↦ inl (e, sym (done_inj _ log (rw (source_owner, e) at h)))
    | inl e ↦
        let (answer, mid, asked, last) =
          >>=-Returned (query_strings db current_schema_sql []) _ log (rw (source_owner, e) at h) in
        inr (
          e,
          (
            answer,
            (query_strings-Returned db current_schema_sql [] log asked).0,
            or_throw-Returned _ (first_value answer) mid last,
          ),
        )
  ]
