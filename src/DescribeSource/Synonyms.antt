-- ===== src/DescribeSource/Synonyms.antt =====
-- The object that DescribeSource finds for a name.
use oraduck.DescribeSource.{
  OracleTableDescription, max_synonym_depth, object_type_sql, type_or_empty, find_object_type,
  synonym_sql, public, look_further, look_up, too_deep, synonym_target, follow_synonym, Found,
  found_of, settle, resolve, kind_of_type, source_owner, describe_source,
}
use oraduck.Names.{TargetName}
use oraduck.DescribeSource.Kept.{IsOwner, describe_object_lem, source_owner_lem}
use oraduck.Session.Inversion.{Returned, >>=-Returned, done_inj, query_strings-answered}
use oraduck.Session.{Call, query, Rows, Database, rows, done, Action, throw}
use oraduck.Prelude.{
  ℕ, zero, suc, ◌≤◌, ◌≡◌, refl, sym, ap, ◌∙◌, ◌↔◌, inl, inr, Bool, true, false, not, ◌&&◌, Option,
  none, some, List, [], ◌∷◌, ◌++◌, arith, if◌then◌else◌, Bool-cases, is_empty, Bytes, codes,
  bytes_eq,
}

-- What the dictionary views say while a name is resolved: the types of the objects of a name in the order of the
-- rows, of which a materialized view has two, and the owner, the name and the link of a synonym.
pub record Dictionary : Type 0 where
  pub types_of : Bytes → Bytes → List Bytes
  pub synonym_of : Bytes → Bytes → Option (Bytes × Bytes × Bytes)

abbrev pub first_type : List Bytes → Bytes
first_type [] = []
first_type (type ∷ types) = type

-- The type of the first row, empty where there is none.
abbrev pub type_of : Dictionary → Bytes → Bytes → Bytes
type_of d owner name = first_type (d.types_of owner name)

abbrev pub type_rows : List Bytes → Rows
type_rows [] = []
type_rows (type ∷ types) = (type ∷ []) ∷ type_rows types

abbrev pub synonym_rows : Option (Bytes × Bytes × Bytes) → Rows
synonym_rows none = []
synonym_rows (some (owner, name, link)) = (owner ∷ name ∷ link ∷ []) ∷ []

-- A database that answers the two queries from a dictionary, whatever was asked before.
pub record Serves (db : Database) (d : Dictionary) : Type 0 where
  pub types :
      (log : List Call) (owner name : Bytes)
      → db log (query object_type_sql (owner ∷ name ∷ []))
        ≡ rows (type_rows (d.types_of owner name))
  pub synonyms :
      (log : List Call) (owner name : Bytes)
      → db log (query synonym_sql (owner ∷ name ∷ []))
        ≡ rows (synonym_rows (d.synonym_of owner name))

-- `steps` synonyms lead from one object to another, which is no synonym and exists.
abbrev pub Leads : Dictionary → ℕ → Bytes → Bytes → Bytes → Bytes → Type 0
Leads d zero owner name owner' name' =
    (owner ≡ owner')
    × (name ≡ name')
    × (is_empty (type_of d owner name) ≡ false)
    × (bytes_eq (type_of d owner name) (codes "SYNONYM") ≡ false)
Leads d (suc steps) owner name owner' name' =
    (next_owner : Bytes) × (next_name : Bytes) × (bytes_eq (type_of d owner name) (codes "SYNONYM")
      ≡ true)
    × (d.synonym_of owner name ≡ some (next_owner, next_name, []))
    × Leads d steps next_owner next_name owner' name'

-- Where the search begins: among the public objects if that is allowed and only there the name is found.
abbrev pub first_owner : Dictionary → Bool → Bytes → Bytes → Bytes
first_owner d public_allowed owner name =
    if public_allowed && (is_empty (type_of d owner name) && not (is_empty (type_of d public name)))
    then public
    else owner

type_rows_lem : (types : List Bytes) → type_or_empty (type_rows types) ≡ first_type types
unfolding type_or_empty
type_rows_lem [] = refl
type_rows_lem (type ∷ types) = refl

empty→nil : (s : Bytes) → is_empty s ≡ true → s ≡ []
empty→nil [] h = refl
empty→nil (c ∷ s) h = cc

found_of-reached :
    (type : Bytes)
    → is_empty type ≡ false
    → bytes_eq type (codes "SYNONYM") ≡ false
    → found_of type ≡ Found.reached
unfolding found_of
found_of-reached type e s = rw (e, s) refl

found_of-synonym :
    (type : Bytes) → bytes_eq type (codes "SYNONYM") ≡ true → found_of type ≡ Found.synonym
unfolding found_of bytes_eq
found_of-synonym [] s = cc
found_of-synonym (c ∷ type) s = rw s refl

-- What the test says of a type.
abbrev Says : Bytes → Found → Type 0
Says type Found.absent = Unit {0}
Says type Found.reached = (is_empty type ≡ false) × (bytes_eq type (codes "SYNONYM") ≡ false)
Says type Found.synonym = bytes_eq type (codes "SYNONYM") ≡ true

found_of-Says : (type : Bytes) → Says type (found_of type)
unfolding found_of
found_of-Says type = elim (Bool-cases (is_empty type)) [
  | inl e ↦ rw e tt
  | inr e ↦ elim (Bool-cases (bytes_eq type (codes "SYNONYM"))) [
    | inl s ↦ rw (e, s) s
    | inr s ↦ rw (e, s) (e, s)
  ]
]

module _ (db : Database) (d : Dictionary) (serves : Serves db d) where
  find_object_type_lem :
      (owner name : Bytes) (log : List Call)
      → find_object_type db owner name log
        ≡ (done (type_of d owner name), log ++ (query object_type_sql (owner ∷ name ∷ []) ∷ []))
  unfolding find_object_type
  find_object_type_lem owner name log =
      rw
        (
          query_strings-answered db object_type_sql (owner ∷ name ∷ []) log
              (serves.types log owner name),
          type_rows_lem (d.types_of owner name),
        )
        refl

  look_up_lem :
      (public_allowed : Bool) (owner name : Bytes) (log : List Call)
      → (log' : List Call) × Returned
          (look_up db public_allowed owner name)
          log
          (
            first_owner d public_allowed owner name,
            type_of d (first_owner d public_allowed owner name) name,
          )
          log'
  unfolding look_up look_further
  look_up_lem false owner name log = (
    log ++ (query object_type_sql (owner ∷ name ∷ []) ∷ []),
    rw (look_up, look_further, find_object_type_lem owner name log) refl,
  )
  look_up_lem true owner name log = elim (Bool-cases (is_empty (type_of d owner name))) [
    | inr e ↦ (
      log ++ (query object_type_sql (owner ∷ name ∷ []) ∷ []),
      rw (look_up, find_object_type_lem owner name log, e, look_further) refl,
    )
    | inl e ↦
        let mid = log ++ (query object_type_sql (owner ∷ name ∷ []) ∷ []) in
        (
          mid ++ (query object_type_sql (public ∷ name ∷ []) ∷ []),
          elim (Bool-cases (is_empty (type_of d public name))) [
            | inl e' ↦
                rw
                  (
                    look_up,
                    find_object_type_lem owner name log,
                    e,
                    look_further,
                    find_object_type_lem public name mid,
                    e',
                    empty→nil (type_of d public name) e',
                  )
                  (rw (empty→nil (type_of d owner name) e) refl)
            | inr e' ↦
                rw
                  (
                    look_up,
                    find_object_type_lem owner name log,
                    e,
                    look_further,
                    find_object_type_lem public name mid,
                    e',
                  )
                  refl
          ],
        )
  ]

  follow_synonym_lem :
      (requested_owner wanted owner name next_owner next_name : Bytes) (log : List Call)
      → d.synonym_of owner name ≡ some (next_owner, next_name, [])
      → (log' : List Call) × Returned
          (follow_synonym db requested_owner wanted owner name)
          log
          (next_owner, next_name)
          log'
  unfolding follow_synonym synonym_target
  follow_synonym_lem requested_owner wanted owner name next_owner next_name log e = (
    log ++ (query synonym_sql (owner ∷ name ∷ []) ∷ []),
    rw
        (
          follow_synonym,
          query_strings-answered db synonym_sql (owner ∷ name ∷ []) log
              (serves.synonyms log owner name),
          e,
          synonym_target,
        )
        refl,
  )

  -- The search ends where the synonyms lead, if `left` allows for so many.
  resolve-Leads :
      (requested_owner wanted : Bytes) (left steps : ℕ) (public_allowed : Bool)
      (owner name owner' name' : Bytes) (log : List Call)
      → steps ≤ left
      → Leads d steps (first_owner d public_allowed owner name) name owner' name'
      → (log' : List Call) × Returned
          (resolve db requested_owner wanted public_allowed owner name left)
          log
          (owner', name', type_of d owner' name')
          log'
  unfolding resolve settle
  resolve-Leads r t zero zero p owner name owner' name' log le (o, n, e, s) =
      let (mid, looked) = look_up_lem p owner name log in
      (mid, rw (looked, found_of-reached _ e s, o, n) refl)
  resolve-Leads r t zero (suc steps) p owner name owner' name' log le l = absurd (omega (arith, le))
  resolve-Leads r t (suc left) zero p owner name owner' name' log le (o, n, e, s) =
      let (mid, looked) = look_up_lem p owner name log in
      (mid, rw (looked, found_of-reached _ e s, o, n) refl)
  resolve-Leads r t (suc left) (suc steps) p owner name owner' name' log le (o, n, s, e, l) =
      let (mid, looked) = look_up_lem p owner name log in
      let (mid', followed) = follow_synonym_lem r t (first_owner d p owner name) name o n mid e in
      let (log', rest) = resolve-Leads r t left steps false o n owner' name' mid' (omega arith) l in
      (log', rw (looked, found_of-synonym _ s, followed) rest)

  -- At most `most` synonyms lead to an object of a type.
  abbrev Led : ℕ → Bytes → Bytes → Bytes → Bytes → Bytes → Type 0
  Led most owner name owner' name' type' =
      (steps : ℕ) × (steps ≤ most)
      × Leads d steps owner name owner' name'
      × (type' ≡ type_of d owner' name')

  settle-Led :
      (requested_owner wanted owner name type : Bytes) (go_on : Action (Bytes × Bytes × Bytes))
      (f : Found) (most : ℕ) (log : List Call) {owner' name' type' : Bytes} {log' : List Call}
      → type ≡ type_of d owner name
      → Says type f
      → (bytes_eq (type_of d owner name) (codes "SYNONYM") ≡ true
          → Returned go_on log (owner', name', type') log'
          → Led most owner name owner' name' type')
      → Returned
          (settle requested_owner wanted owner name type go_on f)
          log
          (owner', name', type')
          log'
      → Led most owner name owner' name' type'
  unfolding settle
  settle-Led r t owner name type go_on Found.absent most log y w further h = cc
  settle-Led r t owner name type go_on Found.reached most log {owner' = o'} {name' = n'}
        {type' = t'} y (e, s) further h =
      let same : (owner, name, type) ≡ (o', n', t') = done_inj (owner, name, type) log h in
      let o : owner ≡ o' = cc in
      let n : name ≡ n' = cc in
      (0, omega arith, (o, n, rw (sym y) e, rw (sym y) s), rw (sym o, sym n, sym y) (cc))
  settle-Led r t owner name type go_on Found.synonym most log y s further h =
      further (rw (sym y) s) h

  synonym_target-Returned :
      (requested_owner wanted owner name : Bytes) (found : Option (Bytes × Bytes × Bytes))
      (log : List Call) {o n : Bytes} {log' : List Call}
      → Returned
          (synonym_target requested_owner wanted owner name (synonym_rows found))
          log
          (o, n)
          log'
      → found ≡ some (o, n, [])
  unfolding synonym_target
  synonym_target-Returned r t owner name none log h = cc
  synonym_target-Returned r t owner name (some (o', n', [])) log h = cc
  synonym_target-Returned r t owner name (some (o', n', c ∷ link)) log h = cc

  follow_synonym-Returned :
      (requested_owner wanted owner name : Bytes) (log : List Call) {o n : Bytes} {log' : List Call}
      → Returned (follow_synonym db requested_owner wanted owner name) log (o, n) log'
      → d.synonym_of owner name ≡ some (o, n, [])
  unfolding follow_synonym
  follow_synonym-Returned r t owner name log h =
      synonym_target-Returned r t owner name (d.synonym_of owner name)
        (log ++ (query synonym_sql (owner ∷ name ∷ []) ∷ []))
        (rw
          (
            follow_synonym,
            query_strings-answered db synonym_sql (owner ∷ name ∷ []) log
                (serves.synonyms log owner name),
          )
          at h)

  -- What the search returns is where the synonyms lead.
  resolve-Led :
      (requested_owner wanted : Bytes) (left : ℕ) (public_allowed : Bool) (owner name : Bytes)
      (log : List Call) {owner' name' type' : Bytes} {log' : List Call}
      → Returned
          (resolve db requested_owner wanted public_allowed owner name left)
          log
          (owner', name', type')
          log'
      → Led left (first_owner d public_allowed owner name) name owner' name' type'
  unfolding resolve
  resolve-Led r t zero p owner name log h =
      let (mid, looked) = look_up_lem p owner name log in
      settle-Led r t (first_owner d p owner name) name _ (throw (too_deep t)) _ 0 mid refl
        (found_of-Says _) (λ s x. cc) (rw looked at h)
  resolve-Led r t (suc left) p owner name log h =
      let (mid, looked) = look_up_lem p owner name log in
      settle-Led r t (first_owner d p owner name) name _ _ _ (suc left) mid refl (found_of-Says _)
        (λ s x.
          let ((o, n), mid', followed, rest) =
            >>=-Returned (follow_synonym db r t (first_owner d p owner name) name) _ mid x in
          let (steps, le, leads, ty) = resolve-Led r t left false o n mid' rest in
          (
            suc steps,
            omega arith,
            (o, n, s, follow_synonym-Returned r t _ name mid followed, leads),
            ty,
          ))
        (rw looked at h)

  -- The search of DescribeSource, over a database whose two queries answer from a dictionary, a row for each type of
  -- an object, ends at an object exactly when at most eight synonyms lead there from the name, begun among the
  -- public objects only if that is allowed and the name is found only there: the loop ends on every chain, a circular
  -- one too, and returns an object that exists and is no synonym.
  pub resolve_iff :
      (requested_owner wanted : Bytes) (public_allowed : Bool) (owner name owner' name' : Bytes)
      (log : List Call)
      → ((log' : List Call) × Returned
            (resolve db requested_owner wanted public_allowed owner name max_synonym_depth)
            log
            (owner', name', type_of d owner' name')
            log')
        ↔ ((steps : ℕ) × (steps ≤ max_synonym_depth)
            × Leads d steps (first_owner d public_allowed owner name) name owner' name')
  resolve_iff r t p owner name owner' name' log = (
    λ (log', h).
        let (steps, le, leads, ty) = resolve-Led r t max_synonym_depth p owner name log h in
        (steps, le, leads),
    λ (steps, le, leads).
        resolve-Leads r t max_synonym_depth steps p owner name owner' name' log le leads,
  )

  -- A description that DescribeSource returns, over a database whose two queries answer from a dictionary, is of an
  -- object to which at most eight synonyms lead from the name (public ones only where the name has no owner), looked
  -- for in its owner, or in the current schema, as the database answered it, where it has none; it is described as a
  -- view exactly if the first of its types is VIEW.
  pub describe_source-Led :
      (name : TargetName) (log : List Call) {made : OracleTableDescription} {log' : List Call}
      → Returned (describe_source db name) log made log'
      → (owner : Bytes) × IsOwner db name log owner
        × ((steps : ℕ) × (steps ≤ max_synonym_depth)
            × Leads d steps
                (first_owner d (is_empty name.owner) owner name.table)
                name.table
                made.owner
                made.name)
        × (made.kind ≡ kind_of_type (type_of d made.owner made.name))
  unfolding describe_source
  describe_source-Led name log {made = made} h =
      let (owner, l1, e1, h1) = >>=-Returned (source_owner db name) _ log h in
      let ((o, n, type), l2, e2, h2) =
        >>=-Returned
          (resolve db owner name.table (is_empty name.owner) owner name.table max_synonym_depth) _
          l1 h1 in
      let (eo, en, ek) = describe_object_lem db o n type l2 h2 in
      let (steps, le, leads, ty) =
        resolve-Led owner name.table max_synonym_depth (is_empty name.owner) owner name.table l1
          e2 in
      (
        owner,
        source_owner_lem db name log e1,
        (steps, le, rw (eo, en) at leads),
        sym ek ∙ ap kind_of_type ty ∙ (rw (eo, en) refl),
      )
