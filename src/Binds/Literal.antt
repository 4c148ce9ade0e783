-- ===== src/Binds/Literal.antt =====
-- SQL string literals hold the text exactly.
use mathlib.Core.List.{append_assoc}
use oraduck.Binds.{double_quotes, sql_string_literal}
use oraduck.Prelude.{
  ℕ, ◌≡◌, refl, inl, inr, Bool, true, false, Option, none, some, [], ◌∷◌, ◌++◌, ◌==◌, if◌then◌else◌,
  ==_iff, Bool-cases, drop, Bytes,
}

-- How SQL reads the rest of a literal after its opening quote: two quotes stand for one, and a quote
-- followed by anything else ends it. The rest of the statement is returned.
pub read_literal : Bytes → Option (Bytes × Bytes)
read_literal [] = none
read_literal (c ∷ []) = if c == 39 then some ([], []) else none
read_literal (c ∷ d ∷ s) =
    let after = read_literal s in
    let next = read_literal (d ∷ s) in
    if c == 39
    then (if d == 39
        then elim after [ none ↦ none | some (t, rest) ↦ some (39 ∷ t, rest) ]
        else some ([], d ∷ s))
    else elim next [ none ↦ none | some (t, rest) ↦ some (c ∷ t, rest) ]

-- A byte that is no quote is read as it stands.
plain_byte :
    (c : ℕ) (x : Bytes) {t rest : Bytes}
    → (c == 39) ≡ false
    → read_literal x ≡ some (t, rest)
    → read_literal (c ∷ x) ≡ some (c ∷ t, rest)
unfolding read_literal
plain_byte c [] h r = cc
plain_byte c (d ∷ s) h r = rw (h, r) refl

unfoldable pub starts_quote : Bytes → Bool
starts_quote [] = false
starts_quote (c ∷ s) = c == 39

ends : (rest : Bytes) → starts_quote rest ≡ false → read_literal (39 ∷ rest) ≡ some ([], rest)
unfolding read_literal starts_quote
ends [] h = refl
ends (c ∷ s) h = rw h refl

quote_byte :
    (c : ℕ) (s rest : Bytes)
    → (c == 39) ≡ true
    → read_literal (double_quotes s ++ (39 ∷ rest)) ≡ some (s, rest)
    → read_literal (double_quotes (c ∷ s) ++ (39 ∷ rest)) ≡ some (c ∷ s, rest)
unfolding read_literal double_quotes
quote_byte c s rest e r = let q = (==_iff c 39).0 e in rw q (rw r refl)

body :
    (s rest : Bytes)
    → starts_quote rest ≡ false
    → read_literal (double_quotes s ++ (39 ∷ rest)) ≡ some (s, rest)
unfolding read_literal double_quotes
body [] rest h = ends rest h
body (c ∷ s) rest h = elim (Bool-cases (c == 39)) [
  | inl e ↦ quote_byte c s rest e (body s rest h)
  | inr e ↦ rw e (plain_byte c (double_quotes s ++ (39 ∷ rest)) e (body s rest h))
]

-- SQL reads the literal made of a text as that very text, whatever bytes it holds, and goes on right
-- after it, when what follows does not start with a quote.
pub read_literal-sql_string_literal :
    (s rest : Bytes)
    → starts_quote rest ≡ false
    → read_literal (drop 1 (sql_string_literal s ++ rest)) ≡ some (s, rest)
unfolding sql_string_literal
read_literal-sql_string_literal s rest h =
    rw (append_assoc (double_quotes s) (39 ∷ []) rest) (body s rest h)
