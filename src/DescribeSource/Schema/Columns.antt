-- ===== src/DescribeSource/Schema/Columns.antt =====
-- Which columns the objects of a schema have.
use mathlib.Core.Path.{subst}
use mathlib.Core.List.{append-nil, append_assoc}
use oraduck.Prelude.Int.{ℤ}
use oraduck.Names.{OracleColumn}
use oraduck.Session.{Call, Rows, field}
use oraduck.Session.Inversion.{Returned, >>=-Returned, done_inj}
use oraduck.DescribeSource.{SourceKind, OracleTableDescription, read_int, column_from_row}
use oraduck.DescribeSource.Schema.{
  SchemaObjects, bytes_lt, put_object, put_objects, with_common, has_object, add_column,
  add_columns, is_known_table, erase_object, set_statistics, add_statistics, add_tables,
}
use oraduck.Prelude.{
  ◌≡◌, refl, sym, inl, inr, Bool, true, false, List, [], ◌∷◌, ◌++◌, map, arith, Bool-cases, All,
  Bytes, codes, bytes_eq,
}

-- The columns that the rows of a name describe, in their order.
pub data Gathers (n : Bytes) : Rows → List OracleColumn → Type 0 where
  nothing : Gathers n [] []
  skipped :
      (row : List Bytes) {rs : Rows} {columns : List OracleColumn}
      → bytes_eq (field row 0) n ≡ false
      → Gathers n rs columns
      → Gathers n (row ∷ rs) columns
  described :
      (row : List Bytes) {rs : Rows} (column : OracleColumn) {columns : List OracleColumn}
      (log log' : List Call)
      → bytes_eq (field row 0) n ≡ true
      → Returned (column_from_row row 1) log column log'
      → Gathers n rs columns
      → Gathers n (row ∷ rs) (column ∷ columns)

snoc_skipped :
    {n : Bytes} {seen : Rows} {columns : List OracleColumn} (row : List Bytes)
    → bytes_eq (field row 0) n ≡ false
    → Gathers n seen columns
    → Gathers n (seen ++ (row ∷ [])) columns
snoc_skipped row e nothing = skipped row e nothing
snoc_skipped row e (skipped r f g) = skipped r f (snoc_skipped row e g)
snoc_skipped row e (described r c l l' f h g) = described r c l l' f h (snoc_skipped row e g)

snoc_described :
    {n : Bytes} {seen : Rows} {columns : List OracleColumn} (row : List Bytes)
    (column : OracleColumn) (log log' : List Call)
    → bytes_eq (field row 0) n ≡ true
    → Returned (column_from_row row 1) log column log'
    → Gathers n seen columns
    → Gathers n (seen ++ (row ∷ [])) (columns ++ (column ∷ []))
snoc_described row c l l' e h nothing = described row c l l' e h nothing
snoc_described row c l l' e h (skipped r f g) = skipped r f (snoc_described row c l l' e h g)
snoc_described row c l l' e h (described r d m m' f k g) =
    described r d m m' f k (snoc_described row c l l' e h g)

-- The objects have the columns of the rows seen.
abbrev pub HaveColumns : Rows → SchemaObjects → Type 0
HaveColumns seen objects = All (λ o. Gathers o.name seen o.columns) objects

put_object-HaveColumns :
    (name : Bytes) (kind : SourceKind) (objects : SchemaObjects)
    → All (λ o. o.columns ≡ []) objects
    → All (λ o. o.columns ≡ []) (put_object name kind objects)
unfolding put_object
put_object-HaveColumns name kind [] h = (refl, tt)
put_object-HaveColumns name kind (o ∷ objects) (p, h) = elim (Bool-cases (bytes_lt name o.name)) [
  | inl lt ↦ rw (put_object, lt) (refl, (p, h))
  | inr ge ↦ elim (Bool-cases (bytes_eq name o.name)) [
    | inl eq ↦ rw (put_object, ge, eq) (p, h)
    | inr ne ↦ rw (put_object, ge, ne) (p, put_object-HaveColumns name kind objects h)
  ]
]

pub put_objects-HaveColumns :
    (rs : Rows) (objects : SchemaObjects)
    → All (λ o. o.columns ≡ []) objects
    → All (λ o. o.columns ≡ []) (put_objects rs objects)
unfolding put_objects
put_objects-HaveColumns [] objects h = h
put_objects-HaveColumns (row ∷ rs) objects h =
    put_objects-HaveColumns rs _ (put_object-HaveColumns (field row 0) _ objects h)

pub with_common-HaveColumns :
    (owner : Bytes) (common : OracleTableDescription) (objects : SchemaObjects)
    → All (λ o. o.columns ≡ []) objects
    → HaveColumns [] (map (with_common owner common) objects)
unfolding with_common
with_common-HaveColumns owner common [] h = tt
with_common-HaveColumns owner common (o ∷ objects) (p, h) =
    (subst (Gathers o.name []) (sym p) nothing, with_common-HaveColumns owner common objects h)

add_column-HaveColumns :
    (seen : Rows) (row : List Bytes) (column : OracleColumn) (log log' : List Call)
    (objects : SchemaObjects)
    → Returned (column_from_row row 1) log column log'
    → HaveColumns seen objects
    → HaveColumns (seen ++ (row ∷ [])) (add_column (field row 0) column objects)
unfolding add_column
add_column-HaveColumns seen row column log log' [] r h = tt
add_column-HaveColumns seen row column log log' (o ∷ objects) r (p, h) =
    elim (Bool-cases (bytes_eq (field row 0) o.name)) [
      | inl e ↦
          rw (add_column, e)
            (
              snoc_described row column log log' e r p,
              add_column-HaveColumns seen row column log log' objects r h,
            )
      | inr e ↦
          rw (add_column, e)
            (snoc_skipped row e p, add_column-HaveColumns seen row column log log' objects r h)
    ]

unknown-HaveColumns :
    (seen : Rows) (row : List Bytes) (objects : SchemaObjects)
    → has_object (field row 0) objects ≡ false
    → HaveColumns seen objects
    → HaveColumns (seen ++ (row ∷ [])) objects
unfolding has_object
unknown-HaveColumns seen row [] e h = tt
unknown-HaveColumns seen row (o ∷ objects) e (p, h) = (
  snoc_skipped row (ground (arith, e)) p,
  unknown-HaveColumns seen row objects (ground (arith, e)) h,
)

pub add_columns-HaveColumns :
    (seen rs : Rows) (objects : SchemaObjects) (log : List Call) {made : SchemaObjects}
    {log' : List Call}
    → HaveColumns seen objects
    → Returned (add_columns rs objects) log made log'
    → HaveColumns (seen ++ rs) made
unfolding add_columns
add_columns-HaveColumns seen [] objects log c h =
    subst (HaveColumns (seen ++ [])) (done_inj _ log h)
      (subst (λ l. HaveColumns l objects) (sym (append-nil seen)) c)
add_columns-HaveColumns seen (row ∷ rs) objects log {made = made} c h =
    subst (λ l. HaveColumns l made) (append_assoc seen (row ∷ []) rs)
      (elim (Bool-cases (has_object (field row 0) objects)) [
        | inr e ↦
            add_columns-HaveColumns (seen ++ (row ∷ [])) rs objects log
              (unknown-HaveColumns seen row objects e c) (rw (add_columns, e) at h)
        | inl e ↦
            let (column, mid, f, rest) =
              >>=-Returned (column_from_row row 1) _ log (rw (add_columns, e) at h) in
            add_columns-HaveColumns (seen ++ (row ∷ [])) rs _ mid
              (add_column-HaveColumns seen row column log mid objects f c) rest
      ])

erase_object-HaveColumns :
    (seen : Rows) (name : Bytes) (objects : SchemaObjects)
    → HaveColumns seen objects
    → HaveColumns seen (erase_object name objects)
unfolding erase_object
erase_object-HaveColumns seen name [] h = tt
erase_object-HaveColumns seen name (o ∷ objects) (p, h) = elim (Bool-cases (bytes_eq name o.name)) [
  | inl e ↦ rw (erase_object, e) (erase_object-HaveColumns seen name objects h)
  | inr e ↦ rw (erase_object, e) (p, erase_object-HaveColumns seen name objects h)
]

set_statistics-HaveColumns :
    (seen : Rows) (name : Bytes) (partitioned : Bool) (count : ℤ) (objects : SchemaObjects)
    → HaveColumns seen objects
    → HaveColumns seen (set_statistics name partitioned count objects)
unfolding set_statistics
set_statistics-HaveColumns seen name partitioned count [] h = tt
set_statistics-HaveColumns seen name partitioned count (o ∷ objects) (p, h) =
    elim (Bool-cases (bytes_eq name o.name)) [
      | inl e ↦
          rw (set_statistics, e)
            (p, set_statistics-HaveColumns seen name partitioned count objects h)
      | inr e ↦
          rw (set_statistics, e)
            (p, set_statistics-HaveColumns seen name partitioned count objects h)
    ]

add_statistics-HaveColumns :
    (seen : Rows) (row : List Bytes) (objects : SchemaObjects) (log : List Call)
    {made : SchemaObjects} {log' : List Call}
    → HaveColumns seen objects
    → Returned (add_statistics row objects) log made log'
    → HaveColumns seen made
unfolding add_statistics
add_statistics-HaveColumns seen row objects log c h =
    elim (Bool-cases (bytes_eq (field row 3) (codes "YES"))) [
      | inl e ↦
          subst (HaveColumns seen) (done_inj _ log (rw (add_statistics, e) at h))
            (erase_object-HaveColumns seen (field row 0) objects c)
      | inr e ↦
          let (n, mid, f, rest) =
            >>=-Returned (read_int 64 (field row 2)) _ log (rw (add_statistics, e) at h) in
          subst (HaveColumns seen) (done_inj _ mid rest)
            (set_statistics-HaveColumns seen (field row 0) _ n objects c)
    ]

pub add_tables-HaveColumns :
    (seen rs : Rows) (objects : SchemaObjects) (log : List Call) {made : SchemaObjects}
    {log' : List Call}
    → HaveColumns seen objects
    → Returned (add_tables rs objects) log made log'
    → HaveColumns seen made
unfolding add_tables
add_tables-HaveColumns seen [] objects log c h = subst (HaveColumns seen) (done_inj _ log h) c
add_tables-HaveColumns seen (row ∷ rs) objects log c h =
    elim (Bool-cases (is_known_table (field row 0) objects)) [
      | inr e ↦ add_tables-HaveColumns seen rs objects log c (rw (add_tables, e) at h)
      | inl e ↦
          let (objects', mid, f, rest) =
            >>=-Returned (add_statistics row objects) _ log (rw (add_tables, e) at h) in
          add_tables-HaveColumns seen rs objects' mid
            (add_statistics-HaveColumns seen row objects log c f) rest
    ]
