-- ===== src/Rowid/Sizes.antt =====
-- How many blocks the units of an object hold.
use oraduck.Rowid.{
  SegmentExtent, WorkUnit, Filling, cut, take_blocks, add_blocks, fill_loop, fill_extents,
  sort_extents, insert_extent, extent_before, first_filling, close_slice, object_units,
}
use mathlib.Core.Path.{subst}
use oraduck.Prelude.{
  ℕ, zero, suc, ◌+◌, ◌-◌, ◌≤◌, ◌<◌, ◌≡◌, refl, ◌∙◌, inl, inr, true, false, List, [], ◌∷◌, ◌++◌,
  arith, ltb, leb, ltb→lt, Bool-cases, All, All-append,
}

pub total_blocks : List WorkUnit → ℕ
total_blocks [] = 0
total_blocks (u ∷ us) = u.blocks + total_blocks us

pub extent_blocks : List SegmentExtent → ℕ
extent_blocks [] = 0
extent_blocks (e ∷ es) = e.blocks + extent_blocks es

total_blocks-snoc :
    (us : List WorkUnit) (u : WorkUnit) → total_blocks (us ++ (u ∷ [])) ≡ total_blocks us + u.blocks
unfolding total_blocks
total_blocks-snoc [] u = omega arith
total_blocks-snoc (x ∷ us) u = omega (arith, total_blocks-snoc us u)

extent_blocks-insert :
    (e : SegmentExtent) (es : List SegmentExtent)
    → extent_blocks (insert_extent e es) ≡ e.blocks + extent_blocks es
unfolding extent_blocks insert_extent
extent_blocks-insert e [] = refl
extent_blocks-insert e (x ∷ es) = elim (Bool-cases (extent_before x e)) [
  | inl t ↦ rw t (omega (arith, extent_blocks-insert e es))
  | inr f ↦ rw f
]

extent_blocks-sort : (es : List SegmentExtent) → extent_blocks (sort_extents es) ≡ extent_blocks es
unfolding extent_blocks sort_extents
extent_blocks-sort [] = refl
extent_blocks-sort (e ∷ es) =
    omega (arith, extent_blocks-insert e (sort_extents es), extent_blocks-sort es)

-- The closed units are full, and `n` blocks have been dealt out.
record Deals (target n : ℕ) (s : Filling) : Type 0 where
  full : All (λ u. u.blocks ≡ target) s.units
  room : s.current.blocks ≤ target
  dealt : total_blocks s.units + s.current.blocks ≡ n

module _ (target object : ℕ) (some_target : 0 < target) where
  cut-Deals :
      (n offset : ℕ) (e : SegmentExtent) (s : Filling)
      → Deals target n s
      → Deals target n (cut target object e offset s)
        × ((cut target object e offset s).current.blocks < target)
  unfolding cut
  cut-Deals n offset e s d = elim (Bool-cases (leb target s.current.blocks)) [
    | inl t ↦ rw t (
      record {
        full = All-append (λ u. u.blocks ≡ target) s.units _ d.full (leb_full t, tt);
        room = omega arith;
        dealt = rw total_blocks-snoc (omega (arith, d.dealt));
      },
      some_target,
    )
    | inr f ↦ rw f (d, not_full f)
  ]
    where
      leb_full : leb target s.current.blocks ≡ true → s.current.blocks ≡ target
      leb_full t = ground (arith, d.room)

      not_full : leb target s.current.blocks ≡ false → s.current.blocks < target
      not_full f = ground arith

  fill_loop-Deals :
      (fuel offset n : ℕ) (e : SegmentExtent) (s : Filling)
      → e.blocks ≤ offset + fuel
      → offset ≤ e.blocks
      → Deals target n s
      → Deals target (n + (e.blocks - offset)) (fill_loop fuel target object e offset s)
  unfolding fill_loop take_blocks add_blocks
  fill_loop-Deals zero offset n e s h le d = record {
    full = d.full;
    room = d.room;
    dealt = omega (arith, d.dealt);
  }
  fill_loop-Deals (suc fuel) offset n e s h le d = elim (Bool-cases (ltb offset e.blocks)) [
    | inl more ↦
        let inside = ltb→lt offset e.blocks more in
        let s' = cut target object e offset s in
        let (d', free) = cut-Deals n offset e s d in
        let m = take_blocks target e offset s' in
        rw more (
          subst
            (λ k. Deals target k (fill_loop fuel target object e (offset + m) (add_blocks m s')))
            (omega arith)
            (fill_loop-Deals fuel (offset + m) (n + m) e (add_blocks m s') (omega arith)
              (omega arith)
              (record { full = d'.full; room = omega arith; dealt = omega (arith, d'.dealt) })))
    | inr done ↦
        rw done
          (record { full = d.full; room = d.room; dealt = omega (arith, d.dealt, none_left done) })
  ]
    where
      none_left : ltb offset e.blocks ≡ false → e.blocks ≤ offset
      none_left f = ground arith

  fill_extents-Deals :
      (es : List SegmentExtent) (n : ℕ) (s : Filling)
      → Deals target n s
      → Deals target (n + extent_blocks es) (fill_extents target object es s)
  unfolding fill_extents extent_blocks
  fill_extents-Deals [] n s d = record {
    full = d.full;
    room = d.room;
    dealt = omega (arith, d.dealt);
  }
  fill_extents-Deals (e ∷ es) n s d =
      subst
        (λ k.
          Deals target k (fill_extents target object es (fill_loop e.blocks target object e 0 s)))
        (omega arith)
        (fill_extents-Deals es (n + e.blocks) (fill_loop e.blocks target object e 0 s) (
          subst (λ k. Deals target (n + k) (fill_loop e.blocks target object e 0 s)) (omega arith)
            (fill_loop-Deals e.blocks 0 n e s (omega arith) (omega arith) d)))

start : (target object : ℕ) → Deals target 0 (first_filling object)
unfolding first_filling total_blocks
start target object = record { full = tt; room = omega arith; dealt = omega arith }

-- What the units of an object hold.
pub record AreDealt (target n : ℕ) (units : List WorkUnit) : Type 0 where
  pub full_units : List WorkUnit
  pub last_unit : WorkUnit
  pub split : units ≡ full_units ++ (last_unit ∷ [])
  pub full : All (λ u. u.blocks ≡ target) full_units
  pub room : last_unit.blocks ≤ target
  pub total : total_blocks units ≡ n

-- For a target of one block or more, every unit of an object but the last holds exactly the target,
-- the last at most that, and together they hold the blocks of all the extents: the loops end with
-- nothing left over.
pub object_units-AreDealt :
    (target object : ℕ) (l : List SegmentExtent)
    → 0 < target
    → AreDealt target (extent_blocks l) (object_units target (object, l))
unfolding object_units
object_units-AreDealt target object l h =
    let s = fill_extents target object (sort_extents l) (first_filling object) in
    let d =
      fill_extents-Deals target object h (sort_extents l) 0 (first_filling object)
        (start target object) in
    record {
      full_units = s.units;
      last_unit = record s.current { slice = close_slice object s.current.slice };
      split = refl;
      full = d.full;
      room = d.room;
      total =
          total_blocks-snoc s.units
            (record s.current { slice = close_slice object s.current.slice })
          ∙ omega (arith, d.dealt, extent_blocks-sort l);
    }
