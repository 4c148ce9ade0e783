-- ===== src/DescribeSource/Schema/Listed.antt =====
-- What DescribeSchema returns, against what the data dictionary lists.
use oraduck.Session.{Call, query, Rows, rows, Database, query_strings}
use oraduck.Session.Inversion.{Returned, >>=-Returned, done_inj, query_strings-Returned}
use oraduck.DescribeSource.{session_user, read_charsets}
use oraduck.DescribeSource.Schema.{
  SchemaObjects, put_objects, with_common, add_columns, find_kind, schema_objects_sql,
  schema_columns_sql, schema_tables_sql, describe_objects, describe_schema,
}
use oraduck.DescribeSource.Schema.Ordered.{names, IsAscending, describe_schema-IsAscending}
use oraduck.Prelude.{
  ◌≡◌, sym, ap, ◌∙◌, ◌⊎◌, inl, inr, none, List, [], ◌∷◌, map, Bool-cases, is_empty, Bytes,
}
use oraduck.DescribeSource.Schema.Kinds.{
  last_kind, is_dropped, kept_kind, put_objects-nothing, empty_kind, with_common-find_kind,
  add_tables-find_kind, add_columns-find_kind,
}
use oraduck.DescribeSource.Schema.Columns.{
  HaveColumns, put_objects-HaveColumns, with_common-HaveColumns, add_columns-HaveColumns,
  add_tables-HaveColumns,
}

module _ (db : Database) (owner : Bytes) where
  -- A query of the schema was answered at some point.
  abbrev pub WasAnswered : Bytes → Rows → Type 0
  WasAnswered sql answer = (before : List Call) × (db before (query sql (owner ∷ [])) ≡ rows answer)

  -- The description of the objects that are listed.
  abbrev pub Describes : Rows → SchemaObjects → Type 0
  Describes listed made =
      (column_rows : Rows) × (table_rows : Rows) × WasAnswered schema_columns_sql column_rows
      × WasAnswered schema_tables_sql table_rows
      × ((n : Bytes) → find_kind n made ≡ kept_kind (last_kind n listed) (is_dropped n table_rows))
      × HaveColumns column_rows made

  abbrev pub ListsNothing : Rows → SchemaObjects → Type 0
  ListsNothing listed made = (made ≡ []) × ((n : Bytes) → last_kind n listed ≡ none)

  describe_objects-Describes :
      (listed : Rows) (log : List Call) {made : SchemaObjects} {log' : List Call}
      → Returned (describe_objects db owner (put_objects listed [])) log made log'
      → Describes listed made
  unfolding describe_objects
  describe_objects-Describes listed log h =
      let objects = put_objects listed [] in
      let (user, l1, e1, h1) = >>=-Returned (session_user db) _ log h in
      let (common, l2, e2, h2) = >>=-Returned (read_charsets db _) _ l1 h1 in
      let (column_rows, l3, e3, h3) =
        >>=-Returned (query_strings db schema_columns_sql (owner ∷ [])) _ l2 h2 in
      let (columned, l4, e4, h4) =
        >>=-Returned (add_columns column_rows (map (with_common owner common) objects)) _ l3 h3 in
      let (table_rows, l5, e5, h5) =
        >>=-Returned (query_strings db schema_tables_sql (owner ∷ [])) _ l4 h4 in
      (
        column_rows,
        table_rows,
        (l2, (query_strings-Returned db schema_columns_sql (owner ∷ []) l2 e3).0),
        (l4, (query_strings-Returned db schema_tables_sql (owner ∷ []) l4 e5).0),
        λ n.
            add_tables-find_kind n table_rows columned l5 h5
            ∙ ap (λ k. kept_kind k (is_dropped n table_rows))
                (add_columns-find_kind n column_rows _ l3 e4
                  ∙ with_common-find_kind n owner common objects
                  ∙ put_objects-nothing n listed),
        add_tables-HaveColumns column_rows table_rows columned l5
            (add_columns-HaveColumns [] column_rows _ l3
              (with_common-HaveColumns owner common objects (put_objects-HaveColumns listed [] tt))
              e4)
            h5,
      )

  -- The descriptions that DescribeSchema returns, whatever the database answers and in whatever order it lists the
  -- objects, their columns and their tables: their names are strictly ascending, so that an object that is listed
  -- twice is there once. If nothing is listed there are none. Otherwise an object is there exactly if it is listed and
  -- is not a table of which ALL_TABLES says that it is dropped; it is of the kind that its last row says; and its
  -- columns are those that the rows of its name describe, in their order.
  pub describe_schema-Describes :
      (log : List Call) {made : SchemaObjects} {log' : List Call}
      → Returned (describe_schema db owner) log made log'
      → (listed : Rows) × (db log (query schema_objects_sql (owner ∷ [])) ≡ rows listed)
        × IsAscending (names made)
        × (ListsNothing listed made ⊎ Describes listed made)
  unfolding describe_schema
  describe_schema-Describes log {made = made} h =
      let (listed, mid, e, rest) =
        >>=-Returned (query_strings db schema_objects_sql (owner ∷ [])) _ log h in
      (
        listed,
        (query_strings-Returned db schema_objects_sql (owner ∷ []) log e).0,
        describe_schema-IsAscending db owner log h,
        elim (Bool-cases (is_empty (put_objects listed []))) [
          | inl none_there ↦ inl (
            sym (done_inj {A = SchemaObjects} [] mid (rw (describe_schema, none_there) at rest)),
            λ n.
                sym (put_objects-nothing n listed)
                ∙ empty_kind n (put_objects listed []) none_there,
          )
          | inr some_there ↦
              inr (describe_objects-Describes listed mid (rw (describe_schema, some_there) at rest))
        ],
      )
