-- ===== src/Rowid/Coverage.antt =====
-- build_rowid_slices reads every row of every object exactly once.
use oraduck.Slice.{Slice}
use oraduck.Rowid.{
  SegmentExtent, WorkUnit, Groups, group_loop, all_units, encode_rowid, build_rowid_slices,
}
use oraduck.Rowid.Key.{rowid_key, place, rowid_key-encode, IsRowid}
use oraduck.Rowid.Sorting.{IsExtent, count_units, count_units-sort_units}
use oraduck.Rowid.Groups.{
  ApartInObject, has_extent, has_key, IsAscending, IsGood, group_loop-start, has_key-group_loop,
}
use oraduck.Rowid.Units.{in_slice, one_if, Row, IsRow, key_of, object_units-count}
use Prim.Native.Nat.{max}
use oraduck.Prelude.{
  ℕ, ◌+◌, ◌/◌, ◌%◌, ◌^◌, ◌<◌, ◌≡◌, refl, ap, ◌∙◌, Bool, true, false, ◌||◌, List, [], ◌∷◌, ◌++◌,
  arith, ◌==◌, if◌then◌else◌, ==_iff, count_if, All, AllPairs,
}

count_units-append :
    (p : Slice → Bool) (us vs : List WorkUnit)
    → count_units p (us ++ vs) ≡ count_units p us + count_units p vs
count_units-append p [] vs = omega arith
count_units-append p (u ∷ us) vs = omega (arith, count_units-append p us vs)

absent : (o p : ℕ) (gs : Groups) → o ≡ p → All (λ g. p < g.0) gs → has_key o gs ≡ false
unfolding has_key
absent o p [] e h = refl
absent o p (g ∷ gs) e (lt, h) = ground (arith, absent o p gs)

one_if_sum : (a b : Bool) → (a ≡ true → b ≡ false) → one_if a + one_if b ≡ one_if (a || b)
one_if_sum true b h = rw (h refl)
one_if_sum false b h = omega arith

module _ (r : Row) (v : IsRow r) (target : ℕ) where
  all_units-count :
      (gs : Groups)
      → IsAscending gs
      → All IsGood gs
      → count_units (in_slice (key_of r)) (all_units target gs) ≡ one_if (has_key r.object gs)
  unfolding all_units has_key
  all_units-count [] a h = refl
  all_units-count ((o, l) ∷ gs) (lt, a) (g, h) =
      rw (count_units-append, object_units-count r v o target g.0 l g.1 g.2, all_units-count gs a h)
        (one_if_sum (r.object == o) (has_key r.object gs)
          (λ e. absent r.object o gs ((==_iff _ _).0 e) lt))

slices-count :
    (r : Row) (v : IsRow r) (extents : List SegmentExtent) (target : ℕ)
    → All IsExtent extents
    → AllPairs ApartInObject extents
    → count_if (in_slice (key_of r)) (build_rowid_slices extents target)
      ≡ one_if (has_extent r.object extents)
unfolding build_rowid_slices has_key
slices-count r v extents target ve va =
    let gs = group_loop [] extents in
    let h = group_loop-start extents ve va in
    count_units-sort_units (in_slice (key_of r)) (all_units (max target 1) gs)
    ∙ all_units-count r v (max target 1) gs h.ascending h.good
    ∙ ap one_if (has_key-group_loop r.object [] extents)

row_of : ℕ → ℕ → ℕ → ℕ → Row
row_of object fno block row = record {
  object = object;
  file = if fno == 1024 then block / 2 ^ 22 else fno;
  block = if fno == 1024 then block % 2 ^ 22 else block;
  row = row;
}

row_of-IsRow :
    (object fno block row : ℕ) → IsRowid object fno block row → IsRow (row_of object fno block row)
unfolding row_of
row_of-IsRow object fno block row v = ground arith

row_of-key :
    (object fno block row : ℕ)
    → IsRowid object fno block row
    → rowid_key (encode_rowid object fno block row) ≡ key_of (row_of object fno block row)
unfolding row_of place
row_of-key object fno block row v = rowid_key-encode object fno block row v ∙ ground arith

-- For extents of the data dictionary that share no block, and any target size: a ROWID lies in
-- exactly one of the slices when its object has an extent, and in none when it has not.
pub build_rowid_slices-once :
    (extents : List SegmentExtent) (target object fno block row : ℕ)
    → All IsExtent extents
    → AllPairs ApartInObject extents
    → IsRowid object fno block row
    → count_if
        (in_slice (rowid_key (encode_rowid object fno block row)))
        (build_rowid_slices extents target)
      ≡ one_if (has_extent object extents)
build_rowid_slices-once extents target object fno block row ve va vr =
    rw (row_of-key object fno block row vr) (
      slices-count (row_of object fno block row) (row_of-IsRow object fno block row vr) extents
        target ve va
      ∙ unfold row_of in refl)
