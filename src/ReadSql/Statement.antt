-- ===== src/ReadSql/Statement.antt =====
-- The binds of the statement of a scan, and that it is always built.
use mathlib.Core.List.{append-nil, append_assoc}
use oraduck.Prelude.Int.{pos, ◌-ℤ◌}
use oraduck.Slice.{SliceKind, Slice}
use oraduck.Binds.Totals.{bind_number-ok}
use oraduck.Binds.{BindValue, SqlFragment, SqlStatement, bind_text, bind_number}
use oraduck.ReadSql.{ScanSqlInput, Where, add_filters, add_slice, snapshot_binds, build_scan_sql}
use oraduck.Prelude.{◌≡◌, refl, sym, ap, ◌∙◌, List, [], ◌∷◌, ◌++◌, Result, ok, ◌>>=◌}

-- The binds of the filters, in their order.
pub filter_binds : List SqlFragment → List BindValue
filter_binds [] = []
filter_binds (f ∷ fs) = f.binds ++ filter_binds fs

add_filters-binds :
    (fs : List SqlFragment) (w : Where) → (add_filters fs w).binds ≡ w.binds ++ filter_binds fs
unfolding add_filters filter_binds
add_filters-binds [] w = sym (append-nil w.binds)
add_filters-binds (f ∷ fs) w =
    add_filters-binds fs _ ∙ append_assoc w.binds f.binds (filter_binds fs)

-- The binds that a slice stands for.
pub slice_binds : Slice → Result (List BindValue)
slice_binds slice = elim slice.kind [
  | SliceKind.none ↦ ok []
  | SliceKind.rowid_range ↦ ok (bind_text slice.rowid_lo ∷ bind_text slice.rowid_hi ∷ [])
  | SliceKind.hash ↦ do
    mask ← bind_number (pos slice.hash_buckets -ℤ pos 1)
    bucket ← bind_number (pos slice.hash_bucket)
    ok (mask ∷ bucket ∷ [])
]

sliced_as :
    (slice : Slice) (w : Where) (k : SliceKind)
    → slice.kind ≡ k
    → (v : Where) × (b : List BindValue) × (add_slice slice w ≡ ok v)
      × (slice_binds slice ≡ ok b)
      × (v.binds ≡ w.binds ++ b)
unfolding add_slice slice_binds
sliced_as slice w SliceKind.none h = rw h (_, _, refl, refl, sym (append-nil w.binds))
sliced_as slice w SliceKind.rowid_range h = rw h (_, _, refl, refl, append_assoc w.binds _ _)
sliced_as slice w SliceKind.hash h =
    let (mask, m) = bind_number-ok (pos slice.hash_buckets -ℤ pos 1) in
    let (bucket, b) = bind_number-ok (pos slice.hash_bucket) in
    rw (h, m, b) (_, _, refl, refl, refl)

-- For any columns, filters, snapshot and slice: the statement is built without an error, and its binds are the snapshot's, then
-- those of every filter in order, then the slice's.
pub build_scan_sql-binds :
    (input : ScanSqlInput) (slice : Slice)
    → (st : SqlStatement) × (b : List BindValue) × (build_scan_sql input slice ≡ ok st)
      × (slice_binds slice ≡ ok b)
      × (st.binds ≡ snapshot_binds input ++ (filter_binds input.filters ++ b))
unfolding build_scan_sql
build_scan_sql-binds input slice =
    let w : Where = record { conditions = []; binds = snapshot_binds input } in
    let (v, b, added, expected, appended) =
      sliced_as slice (add_filters input.filters w) slice.kind refl in
    let binds : v.binds ≡ snapshot_binds input ++ (filter_binds input.filters ++ b) =
      appended
      ∙ ap (λ l. l ++ b) (add_filters-binds input.filters w)
      ∙ append_assoc (snapshot_binds input) (filter_binds input.filters) b in
    rw added (_, b, refl, expected, binds)
