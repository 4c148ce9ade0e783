-- ===== src/DescribeSource/Schema/Kinds.antt =====
-- Which objects a schema has, and of which kind.
use mathlib.Core.Path.{subst}
use oraduck.Prelude.Int.{ℤ}
use oraduck.Names.{OracleColumn}
use oraduck.Session.{Call, Rows, field}
use oraduck.Session.Inversion.{Returned, >>=-Returned, done_inj}
use oraduck.DescribeSource.{
  SourceKind, OracleTableDescription, read_int, column_from_row, kind_of_type,
}
use oraduck.DescribeSource.Schema.{
  SchemaObjects, bytes_lt, put_object, put_objects, with_common, has_object, add_column,
  add_columns, is_table, find_kind, is_known_table, erase_object, set_statistics, add_statistics,
  add_tables,
}
use oraduck.Prelude.{
  ◌≡◌, refl, sym, ap, ◌∙◌, inl, inr, Bool, true, false, ◌&&◌, ◌||◌, Option, none, some, List, [],
  ◌∷◌, map, arith, if◌then◌else◌, Bool-cases, is_empty, Bytes, codes, bytes_eq, bytes_eq→eq,
  bytes_eq_refl,
}

-- The kind that the last row of a name says.
pub last_kind : Bytes → Rows → Option SourceKind
last_kind n [] = none
last_kind n (row ∷ rs) = elim (last_kind n rs) [
  | some kind ↦ some kind
  | none ↦ if bytes_eq n (field row 0) then some (kind_of_type (field row 1)) else none
]

-- A table of that name is in the recycle bin.
pub is_dropped : Bytes → Rows → Bool
is_dropped n [] = false
is_dropped n (row ∷ rs) =
    (bytes_eq n (field row 0) && bytes_eq (field row 3) (codes "YES")) || is_dropped n rs

-- A dropped table is left out.
pub kept_kind : Option SourceKind → Bool → Option SourceKind
kept_kind none dropped = none
kept_kind (some SourceKind.view) dropped = some SourceKind.view
kept_kind (some SourceKind.table) dropped = if dropped then none else some SourceKind.table

or_else : Option SourceKind → Option SourceKind → Option SourceKind
or_else none other = other
or_else (some kind) other = some kind

put_object-find_kind :
    (n name : Bytes) (kind : SourceKind) (objects : SchemaObjects)
    → find_kind n (put_object name kind objects)
      ≡ (if bytes_eq n name then some kind else find_kind n objects)
unfolding put_object find_kind
put_object-find_kind n name kind [] = refl
put_object-find_kind n name kind (o ∷ objects) = elim (Bool-cases (bytes_lt name o.name)) [
  | inl lt ↦ rw (put_object, lt) refl
  | inr ge ↦ elim (Bool-cases (bytes_eq name o.name)) [
    | inl eq ↦
        let same : name ≡ o.name = bytes_eq→eq name o.name eq in
        rw (put_object, ge, eq)
          (rw same
            (elim (Bool-cases (bytes_eq n o.name)) [ inl e ↦ rw e refl | inr e ↦ rw e refl ]))
    | inr ne ↦
        rw (put_object, ge, ne)
          (elim (Bool-cases (bytes_eq n o.name)) [
            | inr e ↦ rw e (put_object-find_kind n name kind objects)
            | inl e ↦
                let same : n ≡ o.name = bytes_eq→eq n o.name e in
                elim (Bool-cases (bytes_eq n name)) [
                  | inr e' ↦ rw (e, e') refl
                  | inl e' ↦
                      let other : n ≡ name = bytes_eq→eq n name e' in
                      let ne' = rw (sym other, sym same) at ne in absurd (apart n ne')
                ]
          ])
  ]
]
  where
    apart : (s : Bytes) → bytes_eq s s ≡ false → ⊥
    apart s h = let r = bytes_eq_refl s in cc

put_objects-find_kind :
    (n : Bytes) (rs : Rows) (objects : SchemaObjects)
    → find_kind n (put_objects rs objects) ≡ or_else (last_kind n rs) (find_kind n objects)
unfolding put_objects last_kind or_else
put_objects-find_kind n [] objects = refl
put_objects-find_kind n (row ∷ rs) objects =
    put_objects-find_kind n rs _
    ∙ (rw (put_object-find_kind n (field row 0) (kind_of_type (field row 1)) objects) (
        choose (last_kind n rs) (bytes_eq n (field row 0)) (kind_of_type (field row 1))
          (find_kind n objects)))
  where
    choose :
        (later : Option SourceKind) (here : Bool) (kind : SourceKind) (old : Option SourceKind)
        → or_else later (if here then some kind else old)
          ≡ or_else (elim later [ some k ↦ some k | none ↦ if here then some kind else none ]) old
    choose (some k) here kind old = refl
    choose none true kind old = refl
    choose none false kind old = refl

pub put_objects-nothing : (n : Bytes) (rs : Rows) → find_kind n (put_objects rs []) ≡ last_kind n rs
unfolding or_else find_kind
put_objects-nothing n rs = put_objects-find_kind n rs [] ∙ or_nothing (last_kind n rs)
  where
    or_nothing : (k : Option SourceKind) → or_else k none ≡ k
    or_nothing none = refl
    or_nothing (some kind) = refl

pub empty_kind :
    (n : Bytes) (objects : SchemaObjects) → is_empty objects ≡ true → find_kind n objects ≡ none
unfolding find_kind
empty_kind n [] e = refl
empty_kind n (o ∷ objects) e = cc

pub with_common-find_kind :
    (n owner : Bytes) (common : OracleTableDescription) (objects : SchemaObjects)
    → find_kind n (map (with_common owner common) objects) ≡ find_kind n objects
unfolding with_common find_kind
with_common-find_kind n owner common [] = refl
with_common-find_kind n owner common (o ∷ objects) =
    ap (λ r. if bytes_eq n o.name then some o.kind else r)
      (with_common-find_kind n owner common objects)

add_column-find_kind :
    (n name : Bytes) (column : OracleColumn) (objects : SchemaObjects)
    → find_kind n (add_column name column objects) ≡ find_kind n objects
unfolding add_column find_kind
add_column-find_kind n name column [] = refl
add_column-find_kind n name column (o ∷ objects) = elim (Bool-cases (bytes_eq name o.name)) [
  | inl e ↦
      rw (add_column, e)
        (ap (λ r. if bytes_eq n o.name then some o.kind else r)
          (add_column-find_kind n name column objects))
  | inr e ↦
      rw (add_column, e)
        (ap (λ r. if bytes_eq n o.name then some o.kind else r)
          (add_column-find_kind n name column objects))
]

set_statistics-find_kind :
    (n name : Bytes) (partitioned : Bool) (count : ℤ) (objects : SchemaObjects)
    → find_kind n (set_statistics name partitioned count objects) ≡ find_kind n objects
unfolding set_statistics find_kind
set_statistics-find_kind n name partitioned count [] = refl
set_statistics-find_kind n name partitioned count (o ∷ objects) =
    elim (Bool-cases (bytes_eq name o.name)) [
      | inl e ↦
          rw (set_statistics, e)
            (ap (λ r. if bytes_eq n o.name then some o.kind else r)
              (set_statistics-find_kind n name partitioned count objects))
      | inr e ↦
          rw (set_statistics, e)
            (ap (λ r. if bytes_eq n o.name then some o.kind else r)
              (set_statistics-find_kind n name partitioned count objects))
    ]

erase_object-find_kind :
    (n name : Bytes) (objects : SchemaObjects)
    → find_kind n (erase_object name objects)
      ≡ (if bytes_eq n name then none else find_kind n objects)
unfolding erase_object find_kind
erase_object-find_kind n name [] = ground arith
erase_object-find_kind n name (o ∷ objects) =
    let rest = erase_object-find_kind n name objects in
    elim (Bool-cases (bytes_eq name o.name)) [
      | inl e ↦
          let same : name ≡ o.name = bytes_eq→eq name o.name e in
          rw (erase_object, e) (rest ∙ (rw same (ground arith)))
      | inr e ↦
          rw (erase_object, e)
            (elim (Bool-cases (bytes_eq n name)) [
              | inl e' ↦
                  let same : n ≡ name = bytes_eq→eq n name e' in
                  let other : bytes_eq n o.name ≡ false = rw same e in
                  rw (other, e') (rw e' at rest)
              | inr e' ↦
                  rw e' (ap (λ r. if bytes_eq n o.name then some o.kind else r) (rw e' at rest))
            ])
    ]

-- What the row of a table that is known does.
known :
    (n : Bytes) (objects : SchemaObjects) (name : Bytes)
    → is_known_table name objects ≡ true
    → bytes_eq n name ≡ true
    → find_kind n objects ≡ some SourceKind.table
unfolding is_known_table is_table
known n objects name h e =
    let same : n ≡ name = bytes_eq→eq n name e in rw same (by_kind (find_kind name objects) refl)
  where
    by_kind : (k : Option SourceKind) → find_kind name objects ≡ k → k ≡ some SourceKind.table
    by_kind none f = let h' = rw (is_known_table, f) at h in cc
    by_kind (some SourceKind.view) f = let h' = rw (is_known_table, f, is_table) at h in cc
    by_kind (some SourceKind.table) f = refl

not_known :
    (n : Bytes) (objects : SchemaObjects) (name : Bytes) (dropped : Bool)
    → is_known_table name objects ≡ false
    → bytes_eq n name ≡ true
    → kept_kind (find_kind n objects) dropped ≡ find_kind n objects
unfolding is_known_table is_table kept_kind
not_known n objects name dropped h e =
    let same : n ≡ name = bytes_eq→eq n name e in rw same (by_kind (find_kind name objects) refl)
  where
    by_kind : (k : Option SourceKind) → find_kind name objects ≡ k → kept_kind k dropped ≡ k
    by_kind none f = refl
    by_kind (some SourceKind.view) f = refl
    by_kind (some SourceKind.table) f = let h' = rw (is_known_table, f, is_table) at h in cc

kept_false : (k : Option SourceKind) → kept_kind k false ≡ k
unfolding kept_kind
kept_false none = refl
kept_false (some SourceKind.view) = refl
kept_false (some SourceKind.table) = refl

add_statistics-find_kind :
    (n : Bytes) (row : List Bytes) (objects : SchemaObjects) (log : List Call)
    {made : SchemaObjects} {log' : List Call}
    → is_known_table (field row 0) objects ≡ true
    → Returned (add_statistics row objects) log made log'
    → find_kind n made
      ≡ kept_kind
          (find_kind n objects)
          (bytes_eq n (field row 0) && bytes_eq (field row 3) (codes "YES"))
unfolding add_statistics kept_kind
add_statistics-find_kind n row objects log k h =
    elim (Bool-cases (bytes_eq (field row 3) (codes "YES"))) [
      | inl dropped ↦ subst Is (done_inj _ log (rw (add_statistics, dropped) at h)) (
          erase_object-find_kind n (field row 0) objects
          ∙ elim (Bool-cases (bytes_eq n (field row 0))) [
            | inl e ↦ rw (e, dropped, known n objects (field row 0) k e) refl
            | inr e ↦ rw e (sym (kept_false (find_kind n objects)))
          ])
      | inr live ↦
          let (count, mid, f, rest) =
            >>=-Returned (read_int 64 (field row 2)) _ log (rw (add_statistics, live) at h) in
          subst Is (done_inj _ mid rest) (
            set_statistics-find_kind n (field row 0) _ count objects
            ∙ (rw live (elim (Bool-cases (bytes_eq n (field row 0))) [
              | inl e ↦ rw e (sym (kept_false (find_kind n objects)))
              | inr e ↦ rw e (sym (kept_false (find_kind n objects)))
            ])))
    ]
  where
    Is : SchemaObjects → Type 0
    Is made =
        find_kind n made
        ≡ kept_kind (find_kind n objects)
            (bytes_eq n (field row 0) && bytes_eq (field row 3) (codes "YES"))

kept_twice :
    (k : Option SourceKind) (a b : Bool) → kept_kind (kept_kind k a) b ≡ kept_kind k (a || b)
unfolding kept_kind
kept_twice none a b = refl
kept_twice (some SourceKind.view) a b = refl
kept_twice (some SourceKind.table) true b = refl
kept_twice (some SourceKind.table) false b = refl

pub add_tables-find_kind :
    (n : Bytes) (rs : Rows) (objects : SchemaObjects) (log : List Call) {made : SchemaObjects}
    {log' : List Call}
    → Returned (add_tables rs objects) log made log'
    → find_kind n made ≡ kept_kind (find_kind n objects) (is_dropped n rs)
unfolding add_tables is_dropped
add_tables-find_kind n [] objects log h =
    subst (λ made. find_kind n made ≡ kept_kind (find_kind n objects) false) (done_inj _ log h)
      (sym (kept_false (find_kind n objects)))
add_tables-find_kind n (row ∷ rs) objects log h =
    elim (Bool-cases (is_known_table (field row 0) objects)) [
      | inr other ↦
          add_tables-find_kind n rs objects log (rw (add_tables, other) at h)
          ∙ elim (Bool-cases (bytes_eq n (field row 0))) [
            | inr e ↦ rw e refl
            | inl e ↦
                not_known n objects (field row 0) (is_dropped n rs) other e
                ∙ sym (not_known n objects (field row 0) _ other e)
          ]
      | inl table ↦
          let (objects', mid, f, rest) =
            >>=-Returned (add_statistics row objects) _ log (rw (add_tables, table) at h) in
          add_tables-find_kind n rs objects' mid rest
          ∙ ap (λ k. kept_kind k (is_dropped n rs))
              (add_statistics-find_kind n row objects log table f)
          ∙ kept_twice (find_kind n objects) _ (is_dropped n rs)
    ]

pub add_columns-find_kind :
    (n : Bytes) (rs : Rows) (objects : SchemaObjects) (log : List Call) {made : SchemaObjects}
    {log' : List Call}
    → Returned (add_columns rs objects) log made log'
    → find_kind n made ≡ find_kind n objects
unfolding add_columns
add_columns-find_kind n [] objects log h = ap (find_kind n) (sym (done_inj objects log h))
add_columns-find_kind n (row ∷ rs) objects log h =
    elim (Bool-cases (has_object (field row 0) objects)) [
      | inr e ↦ add_columns-find_kind n rs objects log (rw (add_columns, e) at h)
      | inl e ↦
          let (column, mid, f, rest) =
            >>=-Returned (column_from_row row 1) _ log (rw (add_columns, e) at h) in
          add_columns-find_kind n rs _ mid rest
          ∙ add_column-find_kind n (field row 0) column objects
    ]
