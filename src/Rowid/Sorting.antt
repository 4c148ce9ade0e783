-- ===== src/Rowid/Sorting.antt =====
-- The two sorts of build_rowid_slices: of the extents of an object by place, of the units by size.
use oraduck.Slice.{Slice}
use oraduck.Rowid.{
  SegmentExtent, WorkUnit, extent_before, insert_extent, sort_extents, insert_unit, sort_units,
}
use oraduck.Rowid.Key.{place}
use oraduck.Prelude.{
  ℕ, ◌+◌, ◌^◌, ◌≤◌, ◌<◌, ◌≡◌, refl, sym, ◌≢◌, ◌↔◌, ◌⊎◌, inl, inr, Bool, true, false, List, [], ◌∷◌,
  map, arith, ltb, Bool-cases, count_if, All, AllPairs, All-map,
}

-- Whether the blocks of a file lie in a bigfile tablespace.
abbrev pub IsPlaced : ℕ → ℕ → Type 0
IsPlaced fno last = ((fno < 1024) × (last ≤ 2 ^ 22)) ⊎ ((fno ≡ 1024) × (last ≤ 2 ^ 32))

-- An extent that Oracle's data dictionary can show.
pub record IsExtent (e : SegmentExtent) : Type 0 where
  pub object_in : e.data_object_id < 2 ^ 32
  pub some_blocks : 0 < e.blocks
  pub placed : IsPlaced e.relative_fno (e.block_id + e.blocks)

-- Two extents of one object share no block, and lie both in a bigfile tablespace or neither.
abbrev pub Apart : SegmentExtent → SegmentExtent → Type 0
Apart a b =
    ((a.relative_fno ≡ 1024) ↔ (b.relative_fno ≡ 1024))
    × ((a.relative_fno ≢ b.relative_fno)
        ⊎ (a.block_id + a.blocks ≤ b.block_id)
        ⊎ (b.block_id + b.blocks ≤ a.block_id))

abbrev pub NotAfter : SegmentExtent → SegmentExtent → Type 0
NotAfter a b =
    (a.relative_fno < b.relative_fno)
    ⊎ ((a.relative_fno ≡ b.relative_fno) × (a.block_id ≤ b.block_id))

-- All blocks of `a` come before the blocks of `b`.
abbrev pub Follows : SegmentExtent → SegmentExtent → Type 0
Follows a b =
    (offset : ℕ)
    → offset < a.blocks
    → place a.relative_fno (a.block_id + offset) ≤ place b.relative_fno b.block_id

Apart-sym : (a b : SegmentExtent) → Apart a b → Apart b a
Apart-sym a b (s, inl n) = ((s.1, s.0), inl (λ e. n (sym e)))
Apart-sym a b (s, inr (inl l)) = ((s.1, s.0), inr (inr l))
Apart-sym a b (s, inr (inr r)) = ((s.1, s.0), inr (inl r))

Apart-Follows :
    (a b : SegmentExtent) → IsExtent a → IsExtent b → Apart a b → NotAfter a b → Follows a b
unfolding place
Apart-Follows a b va vb p n offset h = ground arith

module _ {κ} (P : SegmentExtent → Type κ) where
  All-insert_extent :
      (e : SegmentExtent) (xs : List SegmentExtent) → P e → All P xs → All P (insert_extent e xs)
  unfolding insert_extent
  All-insert_extent e [] p h = (p, h)
  All-insert_extent e (x ∷ xs) p (q, h) = elim (Bool-cases (extent_before x e)) [
    | inl t ↦ rw t (q, All-insert_extent e xs p h)
    | inr f ↦ rw f (p, (q, h))
  ]

  pub All-sort_extents : (xs : List SegmentExtent) → All P xs → All P (sort_extents xs)
  unfolding sort_extents
  All-sort_extents [] h = h
  All-sort_extents (x ∷ xs) (p, h) = All-insert_extent x (sort_extents xs) p (All-sort_extents xs h)

module _ {κ} {R : SegmentExtent → SegmentExtent → Type κ}
    (flip : (a b : SegmentExtent) → R a b → R b a) where
  AllPairs-insert_extent :
      (e : SegmentExtent) (xs : List SegmentExtent)
      → All (R e) xs
      → AllPairs R xs
      → AllPairs R (insert_extent e xs)
  unfolding insert_extent
  AllPairs-insert_extent e [] h p = (h, p)
  AllPairs-insert_extent e (x ∷ xs) (r, h) (rs, p) = elim (Bool-cases (extent_before x e)) [
    | inl t ↦ rw t (All-insert_extent (R x) e xs (flip e x r) rs, AllPairs-insert_extent e xs h p)
    | inr f ↦ rw f ((r, h), (rs, p))
  ]

  AllPairs-sort_extents : (xs : List SegmentExtent) → AllPairs R xs → AllPairs R (sort_extents xs)
  unfolding sort_extents
  AllPairs-sort_extents [] h = h
  AllPairs-sort_extents (x ∷ xs) (r, p) =
      AllPairs-insert_extent x (sort_extents xs) (All-sort_extents (R x) xs r)
        (AllPairs-sort_extents xs p)

before→NotAfter : (a b : SegmentExtent) → extent_before a b ≡ true → NotAfter a b
unfolding extent_before
before→NotAfter a b h = ground arith

not_before→NotAfter : (a b : SegmentExtent) → extent_before a b ≡ false → NotAfter b a
unfolding extent_before
not_before→NotAfter a b h = ground arith

NotAfter-trans : (a b c : SegmentExtent) → NotAfter a b → NotAfter b c → NotAfter a c
NotAfter-trans a b c p q = omega arith

IsSorted-insert_extent :
    (e : SegmentExtent) (xs : List SegmentExtent)
    → AllPairs NotAfter xs
    → AllPairs NotAfter (insert_extent e xs)
unfolding insert_extent
IsSorted-insert_extent e [] h = (tt, tt)
IsSorted-insert_extent e (x ∷ xs) (r, p) = elim (Bool-cases (extent_before x e)) [
  | inl t ↦
      rw t (
        All-insert_extent (NotAfter x) e xs (before→NotAfter x e t) r,
        IsSorted-insert_extent e xs p,
      )
  | inr f ↦ rw f (
    (
      not_before→NotAfter x e f,
      All-map (λ y. NotAfter-trans e x y (not_before→NotAfter x e f)) xs r,
    ),
    (r, p),
  )
]

IsSorted-sort_extents : (xs : List SegmentExtent) → AllPairs NotAfter (sort_extents xs)
unfolding sort_extents
IsSorted-sort_extents [] = tt
IsSorted-sort_extents (x ∷ xs) =
    IsSorted-insert_extent x (sort_extents xs) (IsSorted-sort_extents xs)

join :
    (x : SegmentExtent) (xs : List SegmentExtent)
    → IsExtent x
    → All IsExtent xs
    → All (Apart x) xs
    → All (NotAfter x) xs
    → All (Follows x) xs
join x [] v vs a n = tt
join x (y ∷ ys) v (vy, vs) (a, as_) (n, ns) = (Apart-Follows x y v vy a n, join x ys v vs as_ ns)

follow-All :
    (xs : List SegmentExtent)
    → All IsExtent xs
    → AllPairs Apart xs
    → AllPairs NotAfter xs
    → AllPairs Follows xs
follow-All [] v a n = tt
follow-All (x ∷ xs) (v, vs) (a, ps) (n, ns) = (join x xs v vs a n, follow-All xs vs ps ns)

-- Sorted extents that share no block follow one another.
pub sort_extents-Follows :
    (xs : List SegmentExtent)
    → All IsExtent xs
    → AllPairs Apart xs
    → AllPairs Follows (sort_extents xs)
sort_extents-Follows xs v a =
    follow-All (sort_extents xs) (All-sort_extents IsExtent xs v)
      (AllPairs-sort_extents Apart-sym xs a) (IsSorted-sort_extents xs)

module _ (p : Slice → Bool) where
  -- How many slices of the units pass the test.
  abbrev pub count_units : List WorkUnit → ℕ
  count_units us = count_if p (map (λ u. u.slice) us)

  count_units-insert_unit :
      (u : WorkUnit) (us : List WorkUnit) → count_units (insert_unit u us) ≡ count_units (u ∷ us)
  unfolding insert_unit
  count_units-insert_unit u [] = refl
  count_units-insert_unit u (x ∷ xs) = elim (Bool-cases (ltb u.blocks x.blocks)) [
    | inl t ↦ rw t (omega (arith, count_units-insert_unit u xs))
    | inr f ↦ rw f
  ]

  -- The units keep their slices under the sort.
  pub count_units-sort_units : (us : List WorkUnit) → count_units (sort_units us) ≡ count_units us
  unfolding sort_units
  count_units-sort_units [] = refl
  count_units-sort_units (u ∷ us) =
      omega (arith, count_units-insert_unit u (sort_units us), count_units-sort_units us)
