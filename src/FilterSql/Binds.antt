-- ===== src/FilterSql/Binds.antt =====
-- How many binds a filter makes.
use oraduck.FilterSql.Operands.{Adds, >>=-eq-some, add_bind-Adds, refuse, operand-Adds}
use mathlib.Core.List.{append-nil, append_assoc}
use oraduck.Names.{OracleColumn}
use oraduck.Binds.{BindValue, SqlFragment, bind_date}
use oraduck.ReadSql.{quote_identifier}
use oraduck.FilterSql.{
  date_micros_of, FilterConstant, FilterOp, FilterNode, FilterNodes, filter_node, no_nodes,
  more_nodes, ColumnKind, ColumnInfo, classify, Piece, add_bind, Builder, operand, null_test,
  not_comparable, nth_column, date_test, in_items, in_test, comparison, leaf_test, leaf,
  parenthesized, node, junction, node_list, translate_filter,
}
use oraduck.Prelude.{
  ℕ, ◌+◌, ◌≡◌, refl, sym, ap, ◌∙◌, inl, inr, Bool, true, false, Option, none, some, List, [], ◌∷◌,
  ◌++◌, arith, if◌then◌else◌, Bool-cases, some_inj, length, length-append, Bytes, codes, bytes_eq,
}

-- One step behind another.
add_up :
    {n m : ℕ} (binds : List BindValue) (p q : Piece)
    → Adds n binds p
    → Adds m p.binds q
    → Adds (n + m) binds q
add_up {n} {m} binds p q (new, e, l) (more, f, k) = (
  new ++ more,
  f ∙ ap (λ x. x ++ more) e ∙ append_assoc binds new more,
  length-append new more ∙ omega (arith, l, k),
)

in_items-Adds :
    (b : Builder) (info : ColumnInfo) (glue : Bytes) (binds : List BindValue)
    (ks : List FilterConstant) {p : Piece}
    → in_items b info glue binds ks ≡ some p
    → Adds (length ks) binds p
unfolding in_items
in_items-Adds b info glue binds [] h =
    ([], ap Piece.binds (sym (some_inj h)) ∙ sym (append-nil binds), refl)
in_items-Adds b info glue binds (k ∷ ks) h =
    let (p, e, rest) = >>=-eq-some (operand b info FilterOp.in_list binds k) _ h in
    let (q, f, last) = >>=-eq-some (in_items b info (codes ", ") p.binds ks) _ rest in
    let (new, g, l) =
      add_up binds p q (operand-Adds b info FilterOp.in_list binds k info.kind refl e)
        (in_items-Adds b info (codes ", ") p.binds ks f) in
    (new, ap Piece.binds (sym (some_inj last)) ∙ g, omega (arith, l))

in_test-Adds :
    (b : Builder) (quoted : Bytes) (info : ColumnInfo) (binds : List BindValue)
    (ks : List FilterConstant) {p : Piece}
    → in_test b quoted info binds ks ≡ some p
    → Adds (length ks) binds p
unfolding in_test
in_test-Adds b quoted info binds ks h =
    let (q, f, last) = >>=-eq-some (in_items b info [] binds ks) _ (refuse _ _ h) in
    let (new, g, l) = in_items-Adds b info [] binds ks f in
    (new, ap Piece.binds (sym (some_inj last)) ∙ g, l)

comparison-Adds :
    (b : Builder) (symbol quoted : Bytes) (info : ColumnInfo) (op : FilterOp)
    (binds : List BindValue) (ks : List FilterConstant) {p : Piece}
    → comparison b symbol quoted info op binds ks ≡ some p
    → Adds 1 binds p
unfolding comparison
comparison-Adds b symbol quoted info op binds [] h = cc
comparison-Adds b symbol quoted info op binds (k ∷ l ∷ ks) h = cc
comparison-Adds b symbol quoted info op binds (k ∷ []) h =
    let (q, f, last) = >>=-eq-some (operand b info op binds k) _ h in
    let (new, g, l) = operand-Adds b info op binds k info.kind refl f in
    (new, ap Piece.binds (sym (some_inj last)) ∙ g, l)

date_test-Adds :
    (quoted : Bytes) (info : ColumnInfo) (binds : List BindValue) (ks : List FilterConstant)
    {p : Piece}
    → date_test quoted info binds ks ≡ some p
    → Adds 2 binds p
unfolding date_test
date_test-Adds quoted info binds [] h = cc
date_test-Adds quoted info binds (k ∷ l ∷ ks) h = cc
date_test-Adds quoted info binds (k ∷ []) h =
    let (micros, e, rest) = >>=-eq-some (date_micros_of k) _ (refuse _ _ h) in
    let (p, f, more) = >>=-eq-some (add_bind binds (bind_date micros)) _ (refuse _ _ rest) in
    let (q, g, last) = >>=-eq-some (add_bind p.binds (bind_date micros)) _ more in
    let (new, j, l) =
      add_up binds p q (add_bind-Adds binds (bind_date micros) f)
        (add_bind-Adds p.binds (bind_date micros) g) in
    (new, ap Piece.binds (sym (some_inj last)) ∙ j, l)

null_test-Adds :
    (test quoted : Bytes) (info : ColumnInfo) (column : OracleColumn) (binds : List BindValue)
    (kind : ColumnKind) {p : Piece}
    → info.kind ≡ kind
    → null_test test quoted info column binds ≡ some p
    → p.binds ≡ binds
unfolding null_test
null_test-Adds test quoted info column binds ColumnKind.other e h =
    elim (Bool-cases (bytes_eq column.data_type (codes "NUMBER"))) [
      | inl n ↦ ap Piece.binds (sym (some_inj (rw (e, n) at h)))
      | inr n ↦ let h' = rw (e, n) at h in cc
    ]
null_test-Adds test quoted info column binds ColumnKind.number e h =
    ap Piece.binds (sym (some_inj (rw e at h)))
null_test-Adds test quoted info column binds ColumnKind.binary_float e h =
    ap Piece.binds (sym (some_inj (rw e at h)))
null_test-Adds test quoted info column binds ColumnKind.binary_double e h =
    ap Piece.binds (sym (some_inj (rw e at h)))
null_test-Adds test quoted info column binds ColumnKind.date e h =
    ap Piece.binds (sym (some_inj (rw e at h)))
null_test-Adds test quoted info column binds ColumnKind.timestamp e h =
    ap Piece.binds (sym (some_inj (rw e at h)))
null_test-Adds test quoted info column binds ColumnKind.char e h =
    ap Piece.binds (sym (some_inj (rw e at h)))
null_test-Adds test quoted info column binds ColumnKind.lob e h =
    ap Piece.binds (sym (some_inj (rw e at h)))

-- How many values a leaf compares with.
pub operands : FilterOp → List FilterConstant → ℕ
operands op ks = elim op [
  | FilterOp.is_null ↦ 0
  | FilterOp.is_not_null ↦ 0
  | FilterOp.date_eq ↦ 2
  | FilterOp.in_list ↦ length ks
  | _ ↦ 1
]

mutual
  pub node_operands : FilterNode → ℕ
  node_operands (filter_node op column ks children) = elim op [
    | FilterOp.conj ↦ nodes_operands children
    | FilterOp.disj ↦ nodes_operands children
    | o ↦ operands o ks
  ]

  pub nodes_operands : FilterNodes → ℕ
  nodes_operands no_nodes = 0
  nodes_operands (more_nodes n ns) = node_operands n + nodes_operands ns

none_added : (binds : List BindValue) (p : Piece) → p.binds ≡ binds → Adds 0 binds p
none_added binds p e = ([], e ∙ sym (append-nil binds), refl)

-- A test that a column's kind may rule out.
comparable :
    (bad : Bool) (t : Option Piece) {p : Piece} → (if bad then none else t) ≡ some p → t ≡ some p
comparable true t h = cc
comparable false t h = h

compared :
    (b : Builder) (op : FilterOp) (c : OracleColumn) (binds : List BindValue)
    (ks : List FilterConstant) (symbol : Bytes) {p : Piece}
    → (if not_comparable (classify c b.db_charset).kind
        then none
        else comparison b symbol (quote_identifier c.name) (classify c b.db_charset) op binds ks)
      ≡ some p
    → Adds 1 binds p
compared b op c binds ks symbol h =
    let info = classify c b.db_charset in
    comparison-Adds b symbol _ info op binds ks (comparable (not_comparable info.kind) _ h)

leaf_test-Adds :
    (b : Builder) (op : FilterOp) (c : OracleColumn) (binds : List BindValue)
    (ks : List FilterConstant) {p : Piece}
    → leaf_test b op c binds ks ≡ some p
    → Adds (operands op ks) binds p
unfolding leaf_test operands
leaf_test-Adds b FilterOp.conj c binds ks h = cc
leaf_test-Adds b FilterOp.disj c binds ks h = cc
leaf_test-Adds b FilterOp.is_null c binds ks {p} h =
    let info = classify c b.db_charset in
    none_added binds p (null_test-Adds _ _ info c binds info.kind refl h)
leaf_test-Adds b FilterOp.is_not_null c binds ks {p} h =
    let info = classify c b.db_charset in
    none_added binds p (null_test-Adds _ _ info c binds info.kind refl h)
leaf_test-Adds b FilterOp.date_eq c binds ks h =
    let info = classify c b.db_charset in
    date_test-Adds _ info binds ks (comparable (not_comparable info.kind) _ h)
leaf_test-Adds b FilterOp.in_list c binds ks h =
    let info = classify c b.db_charset in
    in_test-Adds b _ info binds ks (comparable (not_comparable info.kind) _ h)
leaf_test-Adds b FilterOp.eq c binds ks h = compared b FilterOp.eq c binds ks _ h
leaf_test-Adds b FilterOp.ne c binds ks h = compared b FilterOp.ne c binds ks _ h
leaf_test-Adds b FilterOp.lt c binds ks h = compared b FilterOp.lt c binds ks _ h
leaf_test-Adds b FilterOp.le c binds ks h = compared b FilterOp.le c binds ks _ h
leaf_test-Adds b FilterOp.gt c binds ks h = compared b FilterOp.gt c binds ks _ h
leaf_test-Adds b FilterOp.ge c binds ks h = compared b FilterOp.ge c binds ks _ h

leaf-Adds :
    (b : Builder) (op : FilterOp) (column : ℕ) (ks : List FilterConstant) (binds : List BindValue)
    {p : Piece}
    → leaf b op column ks binds ≡ some p
    → Adds (operands op ks) binds p
unfolding leaf
leaf-Adds b op column ks binds h =
    let (c, e, rest) = >>=-eq-some (nth_column b.columns column) _ h in
    leaf_test-Adds b op c binds ks rest

mutual
  unfolding node junction node_list parenthesized node_operands nodes_operands

  node-Adds :
      (b : Builder) (n : FilterNode) (binds : List BindValue) {p : Piece}
      → node b n binds ≡ some p
      → Adds (node_operands n) binds p
  node-Adds b (filter_node FilterOp.conj column ks children) binds h =
      junction-Adds b (codes " AND ") children binds h
  node-Adds b (filter_node FilterOp.disj column ks children) binds h =
      junction-Adds b (codes " OR ") children binds h
  node-Adds b (filter_node FilterOp.is_null column ks children) binds h =
      leaf-Adds b FilterOp.is_null column ks binds h
  node-Adds b (filter_node FilterOp.is_not_null column ks children) binds h =
      leaf-Adds b FilterOp.is_not_null column ks binds h
  node-Adds b (filter_node FilterOp.date_eq column ks children) binds h =
      leaf-Adds b FilterOp.date_eq column ks binds h
  node-Adds b (filter_node FilterOp.in_list column ks children) binds h =
      leaf-Adds b FilterOp.in_list column ks binds h
  node-Adds b (filter_node FilterOp.eq column ks children) binds h =
      leaf-Adds b FilterOp.eq column ks binds h
  node-Adds b (filter_node FilterOp.ne column ks children) binds h =
      leaf-Adds b FilterOp.ne column ks binds h
  node-Adds b (filter_node FilterOp.lt column ks children) binds h =
      leaf-Adds b FilterOp.lt column ks binds h
  node-Adds b (filter_node FilterOp.le column ks children) binds h =
      leaf-Adds b FilterOp.le column ks binds h
  node-Adds b (filter_node FilterOp.gt column ks children) binds h =
      leaf-Adds b FilterOp.gt column ks binds h
  node-Adds b (filter_node FilterOp.ge column ks children) binds h =
      leaf-Adds b FilterOp.ge column ks binds h

  junction-Adds :
      (b : Builder) (glue : Bytes) (ns : FilterNodes) (binds : List BindValue) {p : Piece}
      → junction b glue ns binds ≡ some p
      → Adds (nodes_operands ns) binds p
  junction-Adds b glue no_nodes binds h = cc
  junction-Adds b glue (more_nodes n ns) binds h =
      let (p, e, rest) = >>=-eq-some (node b n binds) _ h in
      let (q, f, last) = >>=-eq-some (node_list b glue ns p.binds) _ rest in
      let (new, g, l) =
        add_up binds p q (node-Adds b n binds e) (node_list-Adds b glue ns p.binds f) in
      (new, ap Piece.binds (sym (some_inj last)) ∙ g, l)

  node_list-Adds :
      (b : Builder) (glue : Bytes) (ns : FilterNodes) (binds : List BindValue) {p : Piece}
      → node_list b glue ns binds ≡ some p
      → Adds (nodes_operands ns) binds p
  node_list-Adds b glue no_nodes binds {p} h =
      none_added binds p (ap Piece.binds (sym (some_inj h)))
  node_list-Adds b glue (more_nodes n ns) binds h =
      let (p, e, rest) = >>=-eq-some (node b n binds) _ h in
      let (q, f, last) = >>=-eq-some (node_list b glue ns p.binds) _ rest in
      let (new, g, l) =
        add_up binds p q (node-Adds b n binds e) (node_list-Adds b glue ns p.binds f) in
      (new, ap Piece.binds (sym (some_inj last)) ∙ g, l)

-- A filter that is pushed makes one bind for each value that its comparisons and lists name, two for
-- a comparison with a day, and none for a test of null.
pub translate_filter-binds :
    (print : ℕ → Bytes) (n : FilterNode) (columns : List OracleColumn) (db_charset : Bytes)
    (f : SqlFragment)
    → translate_filter print n columns db_charset ≡ some f
    → length f.binds ≡ node_operands n
unfolding translate_filter
translate_filter-binds print n columns db_charset f h =
    let (p, e, last) = >>=-eq-some (node _ n []) _ h in
    let (new, g, l) = node-Adds _ n [] e in
    ap (λ x. length (SqlFragment.binds x)) (sym (some_inj last)) ∙ ap length g ∙ l
