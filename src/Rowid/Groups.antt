-- ===== src/Rowid/Groups.antt =====
-- The map of build_rowid_slices: the extents by object, each entry in the order of the input.
use oraduck.Rowid.{SegmentExtent, Groups, group_insert, group_loop}
use oraduck.Rowid.Sorting.{IsExtent, Apart}
use mathlib.Core.Path.{subst}
use oraduck.Prelude.{
  ℕ, ◌^◌, ◌<◌, ◌≡◌, refl, sym, inl, inr, Bool, false, ◌||◌, List, [], ◌∷◌, ◌++◌, arith, ltb, ◌==◌,
  ltb→lt, ==_iff, Bool-cases, All, All-append, AllPairs, All-map,
}

-- Two extents of one object share no block.
abbrev pub ApartInObject : SegmentExtent → SegmentExtent → Type 0
ApartInObject a b = a.data_object_id ≡ b.data_object_id → Apart a b

-- Whether the object has an extent in the list.
pub has_extent : ℕ → List SegmentExtent → Bool
has_extent o [] = false
has_extent o (e ∷ es) = (o == e.data_object_id) || has_extent o es

unfoldable pub has_key : ℕ → Groups → Bool
has_key o [] = false
has_key o (g ∷ gs) = (o == g.0) || has_key o gs

abbrev pub IsAscending : Groups → Type 0
IsAscending = AllPairs (λ g h. g.0 < h.0)

abbrev pub IsGood : ℕ × List SegmentExtent → Type 0
IsGood g = (g.0 < 2 ^ 32) × All IsExtent g.1 × AllPairs Apart g.1

-- `e` can join its entry.
abbrev Joins : SegmentExtent → ℕ × List SegmentExtent → Type 0
Joins e g = e.data_object_id ≡ g.0 → All (λ x. Apart x e) g.1

All-zip {ℓ κ μ} :
    {A : Type ℓ} (P : A → Type κ) (Q : A → Type μ) (xs : List A)
    → All P xs
    → All Q xs
    → All (λ x. P x × Q x) xs
All-zip P Q [] p q = tt
All-zip P Q (x ∷ xs) (p, ps) (q, qs) = ((p, q), All-zip P Q xs ps qs)

AllPairs-snoc :
    (xs : List SegmentExtent) (e : SegmentExtent)
    → AllPairs Apart xs
    → All (λ x. Apart x e) xs
    → AllPairs Apart (xs ++ (e ∷ []))
AllPairs-snoc [] e p a = (tt, tt)
AllPairs-snoc (x ∷ xs) e (r, p) (a, as_) =
    (All-append (Apart x) xs (e ∷ []) r (a, tt), AllPairs-snoc xs e p as_)

module _ {κ μ} (P : ℕ × List SegmentExtent → Type κ) (Q : ℕ × List SegmentExtent → Type μ)
    (e : SegmentExtent) (weaken : (g : ℕ × List SegmentExtent) → P g → Q g)
    (joined : (l : List SegmentExtent)
      → P (e.data_object_id, l)
      → Q (e.data_object_id, l ++ (e ∷ [])))
    (alone : Q (e.data_object_id, e ∷ [])) where
  All-group_insert : (gs : Groups) → All P gs → All Q (group_insert e gs)
  unfolding group_insert
  All-group_insert [] h = (alone, tt)
  All-group_insert ((o, l) ∷ gs) (p, h) = elim (Bool-cases (e.data_object_id == o)) [
    | inl same ↦
        let eq : e.data_object_id ≡ o = (==_iff _ _).0 same in
        rw same
          (subst (λ o'. P (o', l) → Q (o', l ++ (e ∷ []))) eq (joined l) p, All-map weaken gs h)
    | inr other ↦ rw other (elim (Bool-cases (ltb e.data_object_id o)) [
      | inl here ↦ rw here (alone, (weaken (o, l) p, All-map weaken gs h))
      | inr later ↦ rw later (weaken (o, l) p, All-group_insert gs h)
    ])
  ]

IsAscending-group_insert :
    (e : SegmentExtent) (gs : Groups) → IsAscending gs → IsAscending (group_insert e gs)
unfolding group_insert
IsAscending-group_insert e [] h = (tt, tt)
IsAscending-group_insert e ((o, l) ∷ gs) (r, h) = elim (Bool-cases (e.data_object_id == o)) [
  | inl same ↦ rw same (r, h)
  | inr other ↦ rw other (elim (Bool-cases (ltb e.data_object_id o)) [
    | inl here ↦
        rw here ((ltb→lt _ _ here, All-map (λ g lt. omega (arith, ltb→lt _ _ here)) gs r), (r, h))
    | inr later ↦ rw later (
      All-group_insert (λ g. o < g.0) (λ g. o < g.0) e (λ g p. p) (λ l' p. p) (ground arith) gs r,
      IsAscending-group_insert e gs h,
    )
  ])
]

has_key-group_insert :
    (o : ℕ) (e : SegmentExtent) (gs : Groups)
    → has_key o (group_insert e gs) ≡ (o == e.data_object_id) || has_key o gs
unfolding group_insert has_key
has_key-group_insert o e [] = refl
has_key-group_insert o e ((p, l) ∷ gs) = ground (arith, has_key-group_insert o e gs)

-- What the loop over the extents keeps: the entries so far, and how those to come fit them.
pub record IsLoop (gs : Groups) (es : List SegmentExtent) : Type 0 where
  pub ascending : IsAscending gs
  pub good : All IsGood gs
  pub valid : All IsExtent es
  pub apart : AllPairs ApartInObject es
  pub joins : All (λ e. All (Joins e) gs) es

step-Joins :
    (e : SegmentExtent) (gs : Groups) (es : List SegmentExtent)
    → All (ApartInObject e) es
    → All (λ x. All (Joins x) gs) es
    → All (λ x. All (Joins x) (group_insert e gs)) es
step-Joins e gs [] a j = tt
step-Joins e gs (x ∷ es) (a, as_) (j, js) = (
  All-group_insert (Joins x) (Joins x) e (λ g p. p)
      (λ l p eq. All-append (λ y. Apart y x) l (e ∷ []) (p eq) (a (sym eq), tt))
      (λ eq. (a (sym eq), tt)) gs j,
  step-Joins e gs es as_ js,
)

IsLoop-step :
    (e : SegmentExtent) (gs : Groups) (es : List SegmentExtent)
    → IsLoop gs (e ∷ es)
    → IsLoop (group_insert e gs) es
IsLoop-step e gs es h = record {
  ascending = IsAscending-group_insert e gs h.ascending;
  good =
      All-group_insert (λ g. IsGood g × Joins e g) IsGood e (λ g p. p.0)
        (λ l p. (
          p.0.0,
          All-append IsExtent l (e ∷ []) p.0.1 (h.valid.0, tt),
          AllPairs-snoc l e p.0.2 (p.1 refl),
        ))
        (h.valid.0.object_in, (h.valid.0, tt), (tt, tt)) gs
        (All-zip IsGood (Joins e) gs h.good h.joins.0);
  valid = h.valid.1;
  apart = h.apart.1;
  joins = step-Joins e gs es h.apart.0 h.joins.1;
}

pub group_loop-IsLoop :
    (gs : Groups) (es : List SegmentExtent) → IsLoop gs es → IsLoop (group_loop gs es) []
unfolding group_loop
group_loop-IsLoop gs [] h = h
group_loop-IsLoop gs (e ∷ es) h = group_loop-IsLoop (group_insert e gs) es (IsLoop-step e gs es h)

start-Joins : (es : List SegmentExtent) → All (λ e. All (Joins e) []) es
start-Joins [] = tt
start-Joins (e ∷ es) = (tt, start-Joins es)

-- The entries of the map hold valid extents that share no block, under ascending objects.
pub group_loop-start :
    (es : List SegmentExtent)
    → All IsExtent es
    → AllPairs ApartInObject es
    → IsLoop (group_loop [] es) []
group_loop-start es v a =
    group_loop-IsLoop [] es
      (record { ascending = tt; good = tt; valid = v; apart = a; joins = start-Joins es })

-- An object has an entry when it has an entry already or an extent to come.
pub has_key-group_loop :
    (o : ℕ) (gs : Groups) (es : List SegmentExtent)
    → has_key o (group_loop gs es) ≡ has_key o gs || has_extent o es
unfolding group_loop has_extent
has_key-group_loop o gs [] = ground arith
has_key-group_loop o gs (e ∷ es) =
    ground (arith, has_key-group_loop o (group_insert e gs) es, has_key-group_insert o e gs)
