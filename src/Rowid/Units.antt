-- ===== src/Rowid/Units.antt =====
-- The units of one object: their slices follow one another with no gap, from the first ROWID of the
-- object to its last.
use oraduck.Slice.{Slice}
use oraduck.Rowid.{
  SegmentExtent, WorkUnit, Filling, encode_rowid, sort_extents, cut, take_blocks, add_blocks,
  fill_loop, fill_extents, close_slice, first_filling, object_units,
}
use oraduck.Rowid.Key.{rowid_key, place, row_number, rowid_key-encode, place_mono, place-lt}
use oraduck.Rowid.Sorting.{
  IsPlaced, IsExtent, Apart, Follows, count_units, sort_extents-Follows, All-sort_extents,
}
use native.Mathlib.Nat.{le_trans, add-zero}
use oraduck.Prelude.{
  ℕ, zero, suc, ◌+◌, ◌-◌, ◌*◌, ◌%◌, ◌^◌, ◌≤◌, ◌<◌, ◌≡◌, refl, ◌∙◌, ◌⊎◌, inl, inr, Bool, false, ◌&&◌,
  List, [], ◌∷◌, ◌++◌, arith, ltb, leb, ◌==◌, if◌then◌else◌, ltb→lt, ==_iff, Bool-cases, All,
  AllPairs, All-map,
}

-- The ROWIDs that the statement of a slice reads: ROWID >= lo, and ROWID < hi or ROWID <= hi.
abbrev pub in_slice : ℕ → Slice → Bool
in_slice k s =
    leb (rowid_key s.rowid_lo) k
    && (if s.hi_inclusive then leb k (rowid_key s.rowid_hi) else ltb k (rowid_key s.rowid_hi))

abbrev pub between : ℕ → ℕ → ℕ → Bool
between a b k = leb a k && ltb k b

abbrev pub one_if : Bool → ℕ
one_if b = if b then 1 else 0

-- The key of the place where `current` begins.
abbrev start : Filling → ℕ
start s = rowid_key s.current.slice.rowid_lo

-- The closed units hold each ROWID of the object before the start of `current` once, and that start
-- is not past the place `top`.
record Covers (k object top : ℕ) (s : Filling) : Type 0 where
  open_end : s.current.slice.hi_inclusive ≡ false
  lower : row_number object 0 0 ≤ start s
  upper : start s ≤ row_number object top 0
  once : count_units (in_slice k) s.units ≡ one_if (between (row_number object 0 0) (start s) k)

-- The place of the last block of an extent.
abbrev last_place : SegmentExtent → ℕ
last_place e = place e.relative_fno (e.block_id + (e.blocks - 1))

abbrev first_place : SegmentExtent → ℕ
first_place e = place e.relative_fno e.block_id

abbrev last_bound : ℕ
last_bound = 1024 * 64 ^ 6 - 1

between_join :
    (a b c k : ℕ)
    → a ≤ b
    → b ≤ c
    → one_if (between a b k) + one_if (between b c k) ≡ one_if (between a c k)
between_join a b c k h h' = ground arith

count_units-snoc :
    (p : Slice → Bool) (us : List WorkUnit) (u : WorkUnit)
    → count_units p (us ++ (u ∷ [])) ≡ count_units p us + one_if (p u.slice)
count_units-snoc p [] u = omega arith
count_units-snoc p (x ∷ us) u = omega (arith, count_units-snoc p us u)

module _ (k object target : ℕ) (object_in : object < 2 ^ 32) where
  Covers-le : (s : Filling) (a b : ℕ) → a ≤ b → Covers k object a s → Covers k object b s
  Covers-le s a b h c = record {
    open_end = c.open_end;
    lower = c.lower;
    upper = omega arith;
    once = c.once;
  }

  boundary_key :
      (e : SegmentExtent) (offset : ℕ)
      → IsExtent e
      → offset < e.blocks
      → rowid_key (encode_rowid object e.relative_fno ((e.block_id + offset) % 2 ^ 32) 0)
        ≡ row_number object (place e.relative_fno (e.block_id + offset)) 0
  boundary_key e offset v h = rw wraps (
      rowid_key-encode object e.relative_fno (e.block_id + offset) 0
        (record { object_in = object_in; place_in = in_range v.placed; row_in = omega arith }))
    where
      wraps : (e.block_id + offset) % 2 ^ 32 ≡ e.block_id + offset
      wraps = omega arith

      in_range :
          IsPlaced e.relative_fno (e.block_id + e.blocks)
          → ((e.relative_fno < 1024) × (e.block_id + offset < 2 ^ 22))
            ⊎ ((e.relative_fno ≡ 1024) × (e.block_id + offset < 2 ^ 32))
      in_range p = omega arith

  cut-Covers :
      (e : SegmentExtent) (offset : ℕ) (s : Filling)
      → IsExtent e
      → offset < e.blocks
      → Covers k object (place e.relative_fno (e.block_id + offset)) s
      → Covers k object (place e.relative_fno (e.block_id + offset)) (cut target object e offset s)
  unfolding cut
  cut-Covers e offset s v h c = elim (Bool-cases (leb target s.current.blocks)) [
    | inl full ↦ rw full (record {
      open_end = refl;
      lower = omega (arith, boundary_key e offset v h);
      upper = omega (arith, boundary_key e offset v h);
      once =
          rw (count_units-snoc, c.open_end, boundary_key e offset v h, c.once)
            (between_join (row_number object 0 0) (start s)
              (row_number object (place e.relative_fno (e.block_id + offset)) 0) k c.lower c.upper);
    })
    | inr room ↦ rw room c
  ]

  -- Blocks are added with no change of the slices.
  add_blocks-Covers :
      (n top : ℕ) (s : Filling) → Covers k object top s → Covers k object top (add_blocks n s)
  unfolding add_blocks
  add_blocks-Covers n top s c = record {
    open_end = c.open_end;
    lower = c.lower;
    upper = c.upper;
    once = c.once;
  }

  fill_loop-Covers :
      (fuel offset low top : ℕ) (e : SegmentExtent) (s : Filling)
      → IsExtent e
      → (offset < e.blocks → low ≤ place e.relative_fno (e.block_id + offset))
      → low ≤ top
      → ((m : ℕ) → m < e.blocks → place e.relative_fno (e.block_id + m) ≤ top)
      → Covers k object low s
      → Covers k object top (fill_loop fuel target object e offset s)
  unfolding fill_loop
  fill_loop-Covers zero offset low top e s v h lt hp c = Covers-le s low top lt c
  fill_loop-Covers (suc fuel) offset low top e s v h lt hp c =
      elim (Bool-cases (ltb offset e.blocks)) [
        | inl more ↦
            let inside = ltb→lt offset e.blocks more in
            let here = place e.relative_fno (e.block_id + offset) in
            let s' = cut target object e offset s in
            let n = take_blocks target e offset s' in
            rw more (
              fill_loop-Covers fuel (offset + n) here top e (add_blocks n s') v
                (λ _.
                  place_mono e.relative_fno (e.block_id + offset) (e.block_id + (offset + n))
                    (omega arith))
                (hp offset inside) hp
                (add_blocks-Covers n here s'
                  (cut-Covers e offset s v inside (Covers-le s low here (h inside) c))))
        | inr done ↦ rw done (Covers-le s low top lt c)
      ]

  fill_extents-Covers :
      (es : List SegmentExtent) (low : ℕ) (s : Filling)
      → All IsExtent es
      → AllPairs Follows es
      → All (λ e. low ≤ first_place e) es
      → low ≤ last_bound
      → Covers k object low s
      → Covers k object last_bound (fill_extents target object es s)
  unfolding fill_extents
  fill_extents-Covers [] low s v f b lt c = Covers-le s low last_bound lt c
  fill_extents-Covers (e ∷ es) low s (v, vs) (f, fs) (b, bs) lt c =
      fill_extents-Covers es (last_place e) (fill_loop e.blocks target object e 0 s) vs fs
        (All-map (λ x g. g (e.blocks - 1) (omega (arith, v.some_blocks))) es f)
        (omega (arith, place-lt e.relative_fno (e.block_id + (e.blocks - 1)) (last_in v.placed)))
        (fill_loop-Covers e.blocks 0 low (last_place e) e s v (λ _. rw add-zero b)
          (le_trans b
            (place_mono e.relative_fno e.block_id (e.block_id + (e.blocks - 1)) (omega arith)))
          (λ m h.
            place_mono e.relative_fno (e.block_id + m) (e.block_id + (e.blocks - 1)) (omega arith))
          c)
    where
      last_in :
          IsPlaced e.relative_fno (e.block_id + e.blocks)
          → ((e.relative_fno < 1024) × (e.block_id + (e.blocks - 1) < 2 ^ 22))
            ⊎ ((e.relative_fno ≡ 1024) × (e.block_id + (e.blocks - 1) < 2 ^ 32))
      last_in p = omega (arith, v.some_blocks)

-- A ROWID of a row: its object, file, block and row numbers.
pub record Row : Type 0 where
  pub object : ℕ
  pub file : ℕ
  pub block : ℕ
  pub row : ℕ

pub record IsRow (r : Row) : Type 0 where
  pub object_in : r.object < 2 ^ 32
  pub file_in : r.file < 1024
  pub block_in : r.block < 2 ^ 22
  pub row_in : r.row < 2 ^ 16

abbrev pub key_of : Row → ℕ
key_of r = row_number r.object (r.file * 64 ^ 6 + r.block) r.row

first_key :
    (object : ℕ) → object < 2 ^ 32 → rowid_key (encode_rowid object 0 0 0) ≡ row_number object 0 0
unfolding place
first_key object h =
    rowid_key-encode object 0 0 0
      (record { object_in = h; place_in = inl (omega arith); row_in = omega arith })

last_key :
    rowid_key (encode_rowid 0xFFFFFFFF 1023 0x3FFFFF 65535)
    ≡ row_number 0xFFFFFFFF (1023 * 64 ^ 6 + 0x3FFFFF) 65535
unfolding place
last_key =
    rowid_key-encode 0xFFFFFFFF 1023 0x3FFFFF 65535
      (record { object_in = omega arith; place_in = inl (omega arith); row_in = omega arith })

zero_below : (es : List SegmentExtent) → All (λ e. 0 ≤ first_place e) es
zero_below [] = tt
zero_below (e ∷ es) = (omega arith, zero_below es)

-- Below the next object's first ROWID lie the rows of the object.
low_count :
    (r : Row) (v : IsRow r) (object b : ℕ)
    → row_number object 0 0 ≤ b
    → b ≤ row_number object last_bound 0
    → one_if (between (row_number object 0 0) b (key_of r))
        + one_if (leb b (key_of r) && ltb (key_of r) (row_number (object + 1) 0 0))
      ≡ one_if (r.object == object)
low_count r v object b h h' = ground arith

-- No ROWID of an object is past block 2 ^ 22 - 1 of file 1023.
top_count :
    (r : Row) (v : IsRow r) (object b : ℕ)
    → object ≡ 0xFFFFFFFF
    → row_number object 0 0 ≤ b
    → b ≤ row_number object last_bound 0
    → one_if (between (row_number 0xFFFFFFFF 0 0) b (key_of r))
        + one_if (
            leb b (key_of r)
            && leb (key_of r) (row_number 0xFFFFFFFF (1023 * 64 ^ 6 + 0x3FFFFF) 65535))
      ≡ one_if (r.object == 0xFFFFFFFF)
top_count r v object b o h h' = ground arith

module _ (r : Row) (v : IsRow r) (object target : ℕ) (object_in : object < 2 ^ 32) where
  first_filling-Covers : Covers (key_of r) object 0 (first_filling object)
  unfolding first_filling
  first_filling-Covers = record {
    open_end = refl;
    lower = omega (arith, first_key object object_in);
    upper = omega (arith, first_key object object_in);
    once = rw (first_key object object_in) (ground arith);
  }

  -- The last unit takes the rest of the object.
  close-count :
      (s : Filling)
      → Covers (key_of r) object last_bound s
      → count_units (in_slice (key_of r)) s.units
          + one_if (in_slice (key_of r) (close_slice object s.current.slice))
        ≡ one_if (r.object == object)
  unfolding close_slice
  close-count s c = elim (Bool-cases (object == 0xFFFFFFFF)) [
    | inl top ↦
        let o : object ≡ 0xFFFFFFFF = (==_iff _ _).0 top in
        rw (top, c.once, o, last_key) (top_count r v object (start s) o c.lower c.upper)
    | inr low ↦
        rw (low, c.once, c.open_end, first_key (object + 1) (below_top low))
          (low_count r v object (start s) c.lower c.upper)
  ]
    where
      below_top : (object == 0xFFFFFFFF) ≡ false → object + 1 < 2 ^ 32
      below_top e = ground arith

  -- The slices of an object hold a ROWID once if it is the object's, and never if it is not.
  pub object_units-count :
      (l : List SegmentExtent)
      → All IsExtent l
      → AllPairs Apart l
      → count_units (in_slice (key_of r)) (object_units target (object, l))
        ≡ one_if (r.object == object)
  unfolding object_units
  object_units-count l ve a =
      let s = fill_extents target object (sort_extents l) (first_filling object) in
      count_units-snoc (in_slice (key_of r)) s.units
        (record s.current { slice = close_slice object s.current.slice })
      ∙ close-count s (
          fill_extents-Covers (key_of r) object target object_in (sort_extents l) 0
            (first_filling object) (All-sort_extents IsExtent l ve) (sort_extents-Follows l ve a)
            (zero_below (sort_extents l)) (omega arith) first_filling-Covers)
