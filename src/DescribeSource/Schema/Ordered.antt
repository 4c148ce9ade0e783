-- ===== src/DescribeSource/Schema/Ordered.antt =====
-- The objects of a schema, ascending and each once.
use mathlib.Core.Path.{subst}
use oraduck.Prelude.Int.{ℤ}
use oraduck.Names.{OracleColumn}
use oraduck.Session.{Call, Rows, Database, query_strings, field}
use oraduck.Session.Inversion.{Returned, >>=-Returned, done_inj}
use oraduck.DescribeSource.{
  SourceKind, OracleTableDescription, session_user, read_charsets, read_int, column_from_row,
}
use oraduck.DescribeSource.Schema.{
  SchemaObjects, bytes_lt, put_object, put_objects, with_common, has_object, add_column,
  add_columns, is_known_table, erase_object, set_statistics, add_statistics, add_tables,
  schema_objects_sql, schema_columns_sql, schema_tables_sql, describe_objects, describe_schema,
}
use oraduck.Prelude.{
  ◌≡◌, refl, sym, ap, inl, inr, Bool, true, false, List, [], ◌∷◌, map, arith, Bool-cases, is_empty,
  All, AllPairs, All-map, Bytes, codes, bytes_eq, bytes_eq→eq,
}

abbrev pub names : SchemaObjects → List Bytes
names objects = map (λ o. o.name) objects

-- Each name is below all that follow.
abbrev pub IsAscending : List Bytes → Type 0
IsAscending l = AllPairs (λ a b. bytes_lt a b ≡ true) l

bytes_lt_trans : (s t u : Bytes) → bytes_lt s t ≡ true → bytes_lt t u ≡ true → bytes_lt s u ≡ true
unfolding bytes_lt
bytes_lt_trans s [] u h k = cc
bytes_lt_trans s (d ∷ t) [] h k = cc
bytes_lt_trans [] (d ∷ t) (e ∷ u) h k = refl
bytes_lt_trans (c ∷ s) (d ∷ t) (e ∷ u) h k = ground (arith, h, k, bytes_lt_trans s t u)

bytes_lt_total : (s t : Bytes) → bytes_lt s t ≡ false → bytes_eq s t ≡ false → bytes_lt t s ≡ true
unfolding bytes_lt bytes_eq
bytes_lt_total [] [] h k = cc
bytes_lt_total [] (d ∷ t) h k = cc
bytes_lt_total (c ∷ s) [] h k = refl
bytes_lt_total (c ∷ s) (d ∷ t) h k = ground (arith, h, k, bytes_lt_total s t)

below-All :
    (x y : Bytes) (l : List Bytes)
    → bytes_lt x y ≡ true
    → All (λ n. bytes_lt y n ≡ true) l
    → All (λ n. bytes_lt x n ≡ true) l
below-All x y l h a = All-map (λ n k. bytes_lt_trans x y n h k) l a

put_object-below :
    (x name : Bytes) (kind : SourceKind) (objects : SchemaObjects)
    → bytes_lt x name ≡ true
    → All (λ n. bytes_lt x n ≡ true) (names objects)
    → All (λ n. bytes_lt x n ≡ true) (names (put_object name kind objects))
unfolding put_object
put_object-below x name kind [] h a = (h, tt)
put_object-below x name kind (o ∷ objects) h (p, a) = elim (Bool-cases (bytes_lt name o.name)) [
  | inl lt ↦ rw (put_object, lt) (h, (p, a))
  | inr ge ↦ elim (Bool-cases (bytes_eq name o.name)) [
    | inl eq ↦ rw (put_object, ge, eq) (h, a)
    | inr ne ↦ rw (put_object, ge, ne) (p, put_object-below x name kind objects h a)
  ]
]

put_object-IsAscending :
    (name : Bytes) (kind : SourceKind) (objects : SchemaObjects)
    → IsAscending (names objects)
    → IsAscending (names (put_object name kind objects))
unfolding put_object
put_object-IsAscending name kind [] a = (tt, tt)
put_object-IsAscending name kind (o ∷ objects) (first, rest) =
    elim (Bool-cases (bytes_lt name o.name)) [
      | inl lt ↦
          rw (put_object, lt) ((lt, below-All name o.name (names objects) lt first), (first, rest))
      | inr ge ↦ elim (Bool-cases (bytes_eq name o.name)) [
        | inl eq ↦
            let same : name ≡ o.name = bytes_eq→eq name o.name eq in
            rw (put_object, ge, eq)
              (subst (λ x. All (λ n. bytes_lt x n ≡ true) (names objects)) (sym same) first, rest)
        | inr ne ↦
            rw (put_object, ge, ne)
              (
                put_object-below o.name name kind objects (bytes_lt_total name o.name ge ne) first,
                put_object-IsAscending name kind objects rest,
              )
      ]
    ]

put_objects-IsAscending :
    (rs : Rows) (objects : SchemaObjects)
    → IsAscending (names objects)
    → IsAscending (names (put_objects rs objects))
unfolding put_objects
put_objects-IsAscending [] objects a = a
put_objects-IsAscending (row ∷ rs) objects a =
    put_objects-IsAscending rs _ (put_object-IsAscending (field row 0) _ objects a)

add_column-names :
    (name : Bytes) (column : OracleColumn) (objects : SchemaObjects)
    → names (add_column name column objects) ≡ names objects
unfolding add_column
add_column-names name column [] = refl
add_column-names name column (o ∷ objects) = elim (Bool-cases (bytes_eq name o.name)) [
  | inl e ↦ rw (add_column, e) (ap (λ l. o.name ∷ l) (add_column-names name column objects))
  | inr e ↦ rw (add_column, e) (ap (λ l. o.name ∷ l) (add_column-names name column objects))
]

set_statistics-names :
    (name : Bytes) (partitioned : Bool) (n : ℤ) (objects : SchemaObjects)
    → names (set_statistics name partitioned n objects) ≡ names objects
unfolding set_statistics
set_statistics-names name partitioned n [] = refl
set_statistics-names name partitioned n (o ∷ objects) = elim (Bool-cases (bytes_eq name o.name)) [
  | inl e ↦
      rw (set_statistics, e)
        (ap (λ l. o.name ∷ l) (set_statistics-names name partitioned n objects))
  | inr e ↦
      rw (set_statistics, e)
        (ap (λ l. o.name ∷ l) (set_statistics-names name partitioned n objects))
]

with_common-names :
    (owner : Bytes) (common : OracleTableDescription) (objects : SchemaObjects)
    → names (map (with_common owner common) objects) ≡ names objects
unfolding with_common
with_common-names owner common [] = refl
with_common-names owner common (o ∷ objects) =
    ap (λ l. o.name ∷ l) (with_common-names owner common objects)

erase_object-below :
    (x name : Bytes) (objects : SchemaObjects)
    → All (λ n. bytes_lt x n ≡ true) (names objects)
    → All (λ n. bytes_lt x n ≡ true) (names (erase_object name objects))
unfolding erase_object
erase_object-below x name [] a = tt
erase_object-below x name (o ∷ objects) (p, a) = elim (Bool-cases (bytes_eq name o.name)) [
  | inl e ↦ rw (erase_object, e) (erase_object-below x name objects a)
  | inr e ↦ rw (erase_object, e) (p, erase_object-below x name objects a)
]

erase_object-IsAscending :
    (name : Bytes) (objects : SchemaObjects)
    → IsAscending (names objects)
    → IsAscending (names (erase_object name objects))
unfolding erase_object
erase_object-IsAscending name [] a = tt
erase_object-IsAscending name (o ∷ objects) (first, rest) =
    elim (Bool-cases (bytes_eq name o.name)) [
      | inl e ↦ rw (erase_object, e) (erase_object-IsAscending name objects rest)
      | inr e ↦
          rw (erase_object, e)
            (
              erase_object-below o.name name objects first,
              erase_object-IsAscending name objects rest,
            )
    ]

add_columns-IsAscending :
    (rs : Rows) (objects : SchemaObjects) (log : List Call) {made : SchemaObjects}
    {log' : List Call}
    → IsAscending (names objects)
    → Returned (add_columns rs objects) log made log'
    → IsAscending (names made)
unfolding add_columns
add_columns-IsAscending [] objects log a h = subst (λ o. IsAscending (names o)) (done_inj _ log h) a
add_columns-IsAscending (row ∷ rs) objects log a h =
    elim (Bool-cases (has_object (field row 0) objects)) [
      | inr e ↦ add_columns-IsAscending rs objects log a (rw (add_columns, e) at h)
      | inl e ↦
          let (column, mid, f, rest) =
            >>=-Returned (column_from_row row 1) _ log (rw (add_columns, e) at h) in
          add_columns-IsAscending rs (add_column (field row 0) column objects) mid
            (subst IsAscending (sym (add_column-names (field row 0) column objects)) a) rest
    ]

add_statistics-IsAscending :
    (row : List Bytes) (objects : SchemaObjects) (log : List Call) {made : SchemaObjects}
    {log' : List Call}
    → IsAscending (names objects)
    → Returned (add_statistics row objects) log made log'
    → IsAscending (names made)
unfolding add_statistics
add_statistics-IsAscending row objects log a h =
    elim (Bool-cases (bytes_eq (field row 3) (codes "YES"))) [
      | inl e ↦
          subst (λ o. IsAscending (names o)) (done_inj _ log (rw (add_statistics, e) at h))
            (erase_object-IsAscending (field row 0) objects a)
      | inr e ↦
          let (n, mid, f, rest) =
            >>=-Returned (read_int 64 (field row 2)) _ log (rw (add_statistics, e) at h) in
          subst (λ o. IsAscending (names o)) (done_inj _ mid rest)
            (subst IsAscending (sym (set_statistics-names (field row 0) _ n objects)) a)
    ]

add_tables-IsAscending :
    (rs : Rows) (objects : SchemaObjects) (log : List Call) {made : SchemaObjects}
    {log' : List Call}
    → IsAscending (names objects)
    → Returned (add_tables rs objects) log made log'
    → IsAscending (names made)
unfolding add_tables
add_tables-IsAscending [] objects log a h = subst (λ o. IsAscending (names o)) (done_inj _ log h) a
add_tables-IsAscending (row ∷ rs) objects log a h =
    elim (Bool-cases (is_known_table (field row 0) objects)) [
      | inr e ↦ add_tables-IsAscending rs objects log a (rw (add_tables, e) at h)
      | inl e ↦
          let (objects', mid, f, rest) =
            >>=-Returned (add_statistics row objects) _ log (rw (add_tables, e) at h) in
          add_tables-IsAscending rs objects' mid (add_statistics-IsAscending row objects log a f)
            rest
    ]

describe_objects-IsAscending :
    (db : Database) (owner : Bytes) (objects : SchemaObjects) (log : List Call)
    {made : SchemaObjects} {log' : List Call}
    → IsAscending (names objects)
    → Returned (describe_objects db owner objects) log made log'
    → IsAscending (names made)
unfolding describe_objects
describe_objects-IsAscending db owner objects log a h =
    let (user, l1, e1, h1) = >>=-Returned (session_user db) _ log h in
    let (common, l2, e2, h2) = >>=-Returned (read_charsets db _) _ l1 h1 in
    let (column_rows, l3, e3, h3) =
      >>=-Returned (query_strings db schema_columns_sql (owner ∷ [])) _ l2 h2 in
    let (columned, l4, e4, h4) =
      >>=-Returned (add_columns column_rows (map (with_common owner common) objects)) _ l3 h3 in
    let (table_rows, l5, e5, h5) =
      >>=-Returned (query_strings db schema_tables_sql (owner ∷ [])) _ l4 h4 in
    add_tables-IsAscending table_rows columned l5
      (add_columns-IsAscending column_rows (map (with_common owner common) objects) l3
        (subst IsAscending (sym (with_common-names owner common objects)) a) e4)
      h5

-- The descriptions that DescribeSchema returns, whatever the database answers and in whatever order it lists the
-- objects, their columns and their tables, have strictly ascending names, so that an object that is listed twice is
-- there once.
pub describe_schema-IsAscending :
    (db : Database) (owner : Bytes) (log : List Call) {made : SchemaObjects} {log' : List Call}
    → Returned (describe_schema db owner) log made log'
    → IsAscending (names made)
unfolding describe_schema
describe_schema-IsAscending db owner log h =
    let (rs, mid, e, rest) =
      >>=-Returned (query_strings db schema_objects_sql (owner ∷ [])) _ log h in
    elim (Bool-cases (is_empty (put_objects rs []))) [
      | inl none_there ↦
          subst (λ o. IsAscending (names o))
            (done_inj {A = SchemaObjects} [] mid (rw (describe_schema, none_there) at rest)) tt
      | inr some_there ↦
          describe_objects-IsAscending db owner (put_objects rs []) mid
            (put_objects-IsAscending rs [] tt) (rw (describe_schema, some_there) at rest)
    ]
