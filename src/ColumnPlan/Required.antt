-- ===== src/ColumnPlan/Required.antt =====
-- Which columns a plan of a load has.
use mathlib.Core.Path.{subst}
use oraduck.Names.{OracleColumn, TableDescription}
use oraduck.ColumnPlan.{
  LogicalType, PlannedColumn, match_column, mismatch, with_spec, plan_varchar, plan_integer,
  plan_decimal, plan_float, plan_moment, plan_column_type, new_column, is_used, plan_loop,
  check_required, build_column_plan,
}
use oraduck.Prelude.{
  ℕ, ◌+◌, ◌≡◌, refl, sym, ap, ◌∙◌, Bool, true, false, not, ◌&&◌, ◌||◌, List, [], ◌∷◌, map, All,
  AllPairs, All-map, Bytes, bytes_eq, Result, ok, err, ◌>>◌, throw_if, >>=-eq-ok, ok_inj, arith,
}

abbrev pub IsGiven : List Bytes → OracleColumn → Type 0
IsGiven used c = c.nullable ≡ false → is_used c.name used ≡ true

passed :
    (bad : Bool) (message : Bytes) (rest : Result (Unit {0})) {u : Unit {0}}
    → (throw_if bad message >> rest) ≡ ok u
    → (bad ≡ false) × (rest ≡ ok u)
passed true message rest h = cc
passed false message rest h = (refl, h)

given : (nullable used : Bool) → (not nullable && not used) ≡ false → nullable ≡ false → used ≡ true
given true used h e = cc
given false true h e = refl
given false false h e = cc

both_passed {ℓ} :
    {A : Type ℓ} (step : Result (Unit {0})) (next : Result A) {result : A}
    → (step >> next) ≡ ok result
    → (step ≡ ok tt) × (next ≡ ok result)
both_passed (err message) next h = cc
both_passed (ok tt) next h = (refl, h)

check_required-All :
    (used : List Bytes) (cs : List OracleColumn) {u : Unit {0}}
    → check_required used cs ≡ ok u
    → All (IsGiven used) cs
unfolding check_required
check_required-All used [] h = tt
check_required-All used (c ∷ cs) h =
    let (fine, rest) = passed (not c.nullable && not (is_used c.name used)) _ _ h in
    (given c.nullable (is_used c.name used) fine, check_required-All used cs rest)

abbrev pub target_names : List PlannedColumn → List Bytes
target_names plan = map (λ pc. pc.target.name) plan

-- What the type of a column leaves as it was.
abbrev Keeps : PlannedColumn → PlannedColumn → Type 0
Keeps pc made =
    (made.source_index ≡ pc.source_index)
    × (made.source_type ≡ pc.source_type)
    × (made.target ≡ pc.target)

plan_column_type-Keeps :
    (pc : PlannedColumn) {made : PlannedColumn} → plan_column_type pc ≡ ok made → Keeps pc made
unfolding plan_column_type plan_varchar plan_integer plan_decimal plan_float plan_moment mismatch
    with_spec
plan_column_type-Keeps pc h = ground (arith, h)

module _ (same : Bytes → Bytes → Bool) (table : TableDescription) where
  -- The columns of a query, from `index` on, and those of its plan, one for one.
  abbrev pub Plans : ℕ → List (Bytes × LogicalType) → List PlannedColumn → Type 0
  Plans index [] [] = Unit {0}
  Plans index [] (p ∷ ps) = ⊥
  Plans index (c ∷ cs) [] = ⊥
  Plans index ((name, type) ∷ cs) (p ∷ ps) =
      (p.source_index ≡ index)
      × (p.source_type ≡ type)
      × (match_column same name table ≡ ok p.target)
      × Plans (index + 1) cs ps

  -- No two of the names are the same.
  abbrev pub IsDistinct : List Bytes → Type 0
  IsDistinct names = AllPairs (λ a b. bytes_eq b a ≡ false) names

  abbrev Fresh : List Bytes → List Bytes → Type 0
  Fresh used names = All (λ n. is_used n used ≡ false) names

  unused_parts :
      (t : Bytes) (used names : List Bytes)
      → Fresh (t ∷ used) names
      → All (λ n. bytes_eq n t ≡ false) names × Fresh used names
  unfolding is_used
  unused_parts t used [] h = (tt, tt)
  unused_parts t used (n ∷ names) (h, hs) =
      let (others, rest) = unused_parts t used names hs in
      ((ground (arith, h), others), (ground (arith, h), rest))

  -- What the first loop has made of the columns, given the names `used` before and `all` after it.
  abbrev IsMade :
      ℕ → List Bytes → List (Bytes × LogicalType) → List PlannedColumn → List Bytes → Type 0
  IsMade index used columns plan all =
      Plans index columns plan
      × IsDistinct (target_names plan)
      × Fresh used (target_names plan)
      × ((n : Bytes) → is_used n all ≡ (is_used n used || is_used n (target_names plan)))

  plan_loop-IsMade :
      (index : ℕ) (used : List Bytes) (columns : List (Bytes × LogicalType))
      {plan : List PlannedColumn} {all : List Bytes}
      → plan_loop same table index used columns ≡ ok (plan, all)
      → IsMade index used columns plan all
  unfolding plan_loop is_used new_column
  plan_loop-IsMade index used [] h =
      subst (λ r. IsMade index used [] r.0 r.1) (ok_inj h) (tt, tt, tt, λ n. ground arith)
  plan_loop-IsMade index used ((name, type) ∷ cs) {plan = plan} {all = all} h =
      let (target, matched, h1) = >>=-eq-ok (match_column same name table) _ h in
      let (new, h2) = both_passed (throw_if (is_used target.name used) _) _ h1 in
      let (pc, typed, h3) = >>=-eq-ok (plan_column_type (new_column index type target)) _ h2 in
      let ((rest, all'), made, last) =
        >>=-eq-ok (plan_loop same table (index + 1) (target.name ∷ used) cs) _ h3 in
      let (plans, distinct, fresh, end) =
        plan_loop-IsMade (index + 1) (target.name ∷ used) cs made in
      let (i, t, kept) = plan_column_type-Keeps (new_column index type target) typed in
      let (others, unused) = unused_parts target.name used (target_names rest) fresh in
      let not_used : is_used target.name used ≡ false =
        not_thrown (is_used target.name used) _ new in
      let named : pc.target.name ≡ target.name = ap (λ c. c.name) kept in
      subst (λ r. IsMade index used ((name, type) ∷ cs) r.0 r.1) (ok_inj last)
        (
          (i, t, rw kept matched, plans),
          (rw named others, distinct),
          (rw named not_used, unused),
          λ n. rw named (ground (arith, end n)),
        )
    where
      not_thrown : (bad : Bool) (message : Bytes) → throw_if bad message ≡ ok tt → bad ≡ false
      not_thrown true message h = cc
      not_thrown false message h = refl

  same_names :
      (used names : List Bytes) (cs : List OracleColumn)
      → ((n : Bytes) → is_used n used ≡ is_used n names)
      → All (IsGiven used) cs
      → All (IsGiven names) cs
  same_names used names cs e h = All-map (λ c g n. sym (e c.name) ∙ g n) cs h

  -- A plan that BuildColumnPlan makes has one column for each column of the query, in its order, with its index, its
  -- type and the column of the table that MatchColumn finds for its name; no two of them have the same target; and
  -- every column of the table that is NOT NULL is the target of one of them.
  pub build_column_plan-Plans :
      (columns : List (Bytes × LogicalType)) (plan : List PlannedColumn)
      → build_column_plan same columns table ≡ ok plan
      → Plans 0 columns plan
        × IsDistinct (target_names plan)
        × All (IsGiven (target_names plan)) table.columns
  unfolding build_column_plan is_used
  build_column_plan-Plans columns plan h =
      let ((made, used), e, rest) = >>=-eq-ok (plan_loop same table 0 [] columns) _ h in
      let (f, last) = both_passed (check_required used table.columns) _ rest in
      let (plans, distinct, fresh, end) = plan_loop-IsMade 0 [] columns e in
      subst
        (λ p.
          Plans 0 columns p
          × IsDistinct (target_names p)
          × All (IsGiven (target_names p)) table.columns)
        (ok_inj last)
        (
          plans,
          distinct,
          same_names used (target_names made) table.columns (λ n. end n)
              (check_required-All used table.columns f),
        )
