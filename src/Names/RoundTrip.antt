-- ===== src/Names/RoundTrip.antt =====
-- A parsed target name, printed with quoted identifiers, parses to itself.
use oraduck.Names.{
  TargetName, is_identifier_char, upper_identifier, is_quoted, normalize_identifier, is_blank,
  trim_left, trim_right, split_step, split_loop, target_of_parts, empty_split, parse_target_name,
}
use mathlib.Core.Path.{subst}
use mathlib.Core.List.{append-nil, append_assoc}
use oraduck.Prelude.{
  ℕ, ◌≡◌, refl, ap, ◌∙◌, ◌⊎◌, inl, inr, true, false, List, [], ◌∷◌, ◌++◌, arith, ◌==◌,
  if◌then◌else◌, Bool-cases, is_empty, length-append, Bytes, to_upper, has_byte, last_byte,
  but_last, ok, >>=-eq-ok, ok_inj,
}

-- The normal form of a name: "OWNER"."TABLE", or "TABLE" in the current schema.
abbrev quoted : Bytes → Bytes
quoted s = b'"' ∷ (s ++ (b'"' ∷ []))

pub print_target_name : TargetName → Bytes
print_target_name r =
    if is_empty r.owner then quoted r.table else quoted r.owner ++ (b'.' ∷ quoted r.table)

-- A name that a quoted identifier can hold.
abbrev pub IsPlain : Bytes → Type 0
IsPlain s = (is_empty s ≡ false) × (has_byte b'"' s ≡ false)

-- The table is named, and the owner is absent or named.
abbrev pub IsNormal : TargetName → Type 0
IsNormal r = IsPlain r.table × ((r.owner ≡ []) ⊎ IsPlain r.owner)

last_byte-append : (s : Bytes) (c : ℕ) → last_byte (s ++ (c ∷ [])) ≡ c
unfolding last_byte
last_byte-append [] c = refl
last_byte-append (a ∷ []) c = refl
last_byte-append (a ∷ b ∷ s) c = last_byte-append (b ∷ s) c

but_last-append : (s : Bytes) (c : ℕ) → but_last (s ++ (c ∷ [])) ≡ s
unfolding but_last
but_last-append [] c = refl
but_last-append (a ∷ []) c = refl
but_last-append (a ∷ b ∷ s) c = ap (λ (r : Bytes). a ∷ r) (but_last-append (b ∷ s) c)

is_quoted-quoted : (s : Bytes) → is_quoted (quoted s) ≡ true
unfolding is_quoted
is_quoted-quoted s = ground (arith, length-append s (b'"' ∷ []), last_byte-append (b'"' ∷ s) b'"')

normalize_identifier-quoted :
    (s text : Bytes) → IsPlain s → normalize_identifier (quoted s) text ≡ ok s
unfolding normalize_identifier
normalize_identifier-quoted s text h = ground (arith, is_quoted-quoted s, but_last-append s b'"')

-- The rest of a quoted identifier, up to the closing quote.
split_loop_inside :
    (s rest : Bytes) (parts : List Bytes) (cur : Bytes)
    → has_byte b'"' s ≡ false
    → split_loop (record { parts = parts; current = cur; in_quotes = true }) (s ++ rest)
      ≡ split_loop (record { parts = parts; current = cur ++ s; in_quotes = true }) rest
unfolding split_loop split_step has_byte
split_loop_inside [] rest parts cur h = rw append-nil
split_loop_inside (c ∷ s) rest parts cur h =
    ground (arith, append_assoc cur (c ∷ []) s, split_loop_inside s rest parts (cur ++ (c ∷ [])))

split_loop-quoted :
    (s rest : Bytes) (parts : List Bytes)
    → has_byte b'"' s ≡ false
    → split_loop (record { parts = parts; current = []; in_quotes = false }) (quoted s ++ rest)
      ≡ split_loop (record { parts = parts; current = quoted s; in_quotes = false }) rest
unfolding split_loop split_step
split_loop-quoted s rest parts h =
    rw (append_assoc s (b'"' ∷ []) rest) (split_loop_inside s (b'"' ∷ rest) parts (b'"' ∷ []) h)

is_empty-snoc : (s : Bytes) (c : ℕ) → is_empty (s ++ (c ∷ [])) ≡ false
is_empty-snoc [] c = refl
is_empty-snoc (d ∷ s) c = refl

trim_right_closed : (s : Bytes) → trim_right (s ++ (b'"' ∷ [])) ≡ s ++ (b'"' ∷ [])
unfolding trim_right is_blank
trim_right_closed [] = refl
trim_right_closed (c ∷ s) = rw (trim_right_closed s, is_empty-snoc s b'"')

-- `parse_target_name` on a text with no blanks round it and whose quotes are closed.
parse_of_split :
    (s : Bytes) (parts : List Bytes) (cur : Bytes)
    → trim_left s ≡ s
    → trim_right s ≡ s
    → is_empty s ≡ false
    → split_loop empty_split s ≡ record { parts = parts; current = cur; in_quotes = false }
    → parse_target_name s ≡ target_of_parts (parts ++ (cur ∷ [])) s
unfolding parse_target_name
parse_of_split s parts cur tl tr ne sp = rw (tl, tr, ne, sp)

parse-quoted :
    (t : Bytes) → IsPlain t → parse_target_name (quoted t) ≡ ok (record { owner = []; table = t })
unfolding trim_left is_blank target_of_parts
parse-quoted t h =
    parse_of_split (quoted t) [] (quoted t) refl (trim_right_closed (b'"' ∷ t)) refl split
    ∙ rw (normalize_identifier-quoted t (quoted t) h)
  where
    split :
        split_loop empty_split (quoted t)
        ≡ record { parts = []; current = quoted t; in_quotes = false }
    split = unfold split_loop in (rw append-nil at (split_loop-quoted t [] [] h.1))

parse-quoted_pair :
    (o t : Bytes)
    → IsPlain o
    → IsPlain t
    → parse_target_name (quoted o ++ (b'.' ∷ quoted t)) ≡ ok (record { owner = o; table = t })
unfolding trim_left is_blank target_of_parts
parse-quoted_pair o t ho ht =
    parse_of_split text (quoted o ∷ []) (quoted t) refl trimmed refl split
    ∙ rw (normalize_identifier-quoted o text ho, normalize_identifier-quoted t text ht)
  where
    text : Bytes
    text = quoted o ++ (b'.' ∷ quoted t)

    trimmed : trim_right text ≡ text
    trimmed =
        rw (append_assoc (quoted o) (b'.' ∷ b'"' ∷ t) (b'"' ∷ [])) at
          (trim_right_closed (quoted o ++ (b'.' ∷ b'"' ∷ t)))

    split :
        split_loop empty_split text
        ≡ record { parts = quoted o ∷ []; current = quoted t; in_quotes = false }
    split =
        split_loop-quoted o (b'.' ∷ quoted t) [] ho.1
        ∙ (unfold split_loop split_step in
            rw append-nil at (split_loop-quoted t [] (quoted o ∷ []) ht.1))

parse-print : (r : TargetName) → IsNormal r → parse_target_name (print_target_name r) ≡ ok r
unfolding print_target_name
parse-print r (ht, inl e) = rw e (parse-quoted r.table ht)
parse-print r (ht, inr ho) = rw ho.0 (parse-quoted_pair r.owner r.table ho ht)

to_upper-ne-quote : (c : ℕ) → is_identifier_char c ≡ true → (b'"' == to_upper c) ≡ false
unfolding is_identifier_char
to_upper-ne-quote c h = ground arith

upper_identifier-IsPlain :
    (s text r : Bytes)
    → upper_identifier s text ≡ ok r
    → (is_empty r ≡ is_empty s) × (has_byte b'"' r ≡ false)
unfolding upper_identifier has_byte
upper_identifier-IsPlain [] text r h = rw (← ok_inj h) (refl, refl)
upper_identifier-IsPlain (c ∷ s) text r h = elim (Bool-cases (is_identifier_char c)) [
  | inl good ↦
      let h' = rw good at h in
      let (u, eu, e) = >>=-eq-ok (upper_identifier s text) _ h' in
      rw (← ok_inj e, to_upper-ne-quote c good) (refl, (upper_identifier-IsPlain s text u eu).1)
  | inr bad ↦ let h' = rw bad at h in cc
]

normalize_identifier-IsPlain : (s text r : Bytes) → normalize_identifier s text ≡ ok r → IsPlain r
unfolding normalize_identifier
normalize_identifier-IsPlain s text r h = ground (arith, upper_identifier-IsPlain s text r)

target_of_parts-IsNormal :
    (parts : List Bytes) (text : Bytes) (r : TargetName)
    → target_of_parts parts text ≡ ok r
    → IsNormal r
unfolding target_of_parts
target_of_parts-IsNormal [] text r h = cc
target_of_parts-IsNormal (p ∷ []) text r h =
    let (t, et, e) = >>=-eq-ok (normalize_identifier p text) _ h in
    subst IsNormal (ok_inj e) (normalize_identifier-IsPlain p text t et, inl refl)
target_of_parts-IsNormal (p ∷ q ∷ []) text r h =
    let (o, eo, h') = >>=-eq-ok (normalize_identifier p text) _ h in
    let (t, et, e) = >>=-eq-ok (normalize_identifier q text) _ h' in
    subst IsNormal (ok_inj e)
      (normalize_identifier-IsPlain q text t et, inr (normalize_identifier-IsPlain p text o eo))
target_of_parts-IsNormal (p ∷ q ∷ x ∷ more) text r h = cc

parse-parts :
    (text : Bytes) (r : TargetName)
    → parse_target_name text ≡ ok r
    → (parts : List Bytes) × (target_of_parts parts text ≡ ok r)
unfolding parse_target_name
parse-parts text r h = elim (Bool-cases (is_empty (trim_left text))) [
  | inl empty ↦ let h' = rw empty at h in cc
  | inr full ↦ elim (Bool-cases (split_loop empty_split (trim_right (trim_left text))).in_quotes) [
    | inl open_quote ↦ let h' = rw (full, open_quote) at h in cc
    | inr closed ↦ (
      (split_loop empty_split (trim_right (trim_left text))).parts
          ++ ((split_loop empty_split (trim_right (trim_left text))).current ∷ []),
      rw (full, closed) at h,
    )
  ]
]

-- Whatever text was accepted, the normalized names, printed in double quotes, parse to the same
-- names again.
pub parse-print-parse :
    (text : Bytes) (r : TargetName)
    → parse_target_name text ≡ ok r
    → parse_target_name (print_target_name r) ≡ ok r
parse-print-parse text r h =
    let (parts, e) = parse-parts text r h in parse-print r (target_of_parts-IsNormal parts text r e)
