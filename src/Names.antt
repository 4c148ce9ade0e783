-- ===== src/Names.antt =====
-- Target table names, the column descriptions and the type families: src/oracle_names.cpp and
-- src/include/oraduck/oracle_names.hpp.
pub mod RoundTrip
use oraduck.Prelude.Int.{ℤ}
use oraduck.Prelude.{
  ℕ, zero, suc, ◌+◌, ◌-◌, ◌*◌, ◌/◌, ◌%◌, ◌^◌, ◌≤◌, ◌<◌, ◌≡◌, refl, sym, ap, ◌∙◌, ◌≢◌, ◌↔◌, ◌⊎◌, inl,
  inr, Bool, true, false, not, ◌&&◌, ◌||◌, Option, none, some, List, [], ◌∷◌, ◌++◌, map, reverse,
  arith, ltb, leb, ◌==◌, if◌then◌else◌, ltb→lt, lt→ltb, ==_iff, ==_refl, Bool-cases, Option-cases,
  length, get_or, take, drop, replicate, is_empty, count_if, All, length-append, count_if-append,
  length-replicate, length-map, All-append, Bytes, codes, bytes_eq, is_upper, is_lower, is_alpha,
  is_digit, is_alnum, is_space, to_upper, to_lower, has_byte, starts_with, has_text, last_byte,
  but_last, to_decimal, bytes_eq→eq, bytes_eq_refl, all_below, all_below_sound, Result, ok, err,
  ◌>>=◌, ◌>>◌, throw_if, >>=-eq-ok,
}

pub record TargetName : Type 0 where
  pub owner : Bytes
  pub table : Bytes

pub data OracleTypeFamily : Type 0 where
  number binary_float binary_double varchar date timestamp unsupported : OracleTypeFamily

-- The nullable dictionary columns PRECISION and SCALE are -1 when NULL; a scale may be negative
-- otherwise too.
pub record OracleColumn : Type 0 where
  pub name : Bytes
  pub data_type : Bytes
  pub family : OracleTypeFamily
  pub data_length : ℕ
  pub precision : ℤ
  pub scale : ℤ
  pub nullable : Bool
  pub char_length : ℕ
  pub national : Bool
  pub collation : Bytes

pub record TableDescription : Type 0 where
  pub owner : Bytes
  pub table : Bytes
  pub columns : List OracleColumn
  pub index_count : ℕ

pub is_identifier_char : ℕ → Bool
is_identifier_char c = is_alnum c || (c == b'_') || (c == b'$') || (c == b'#')

-- The loop of NormalizeIdentifier over an unquoted part.
upper_identifier : Bytes → Bytes → Result Bytes
unfolding is_identifier_char
upper_identifier [] text = ok []
upper_identifier (c ∷ part) text =
    if not (is_identifier_char c)
    then err (codes "invalid character in the target table name: " ++ text)
    else do rest ← upper_identifier part text; ok (to_upper c ∷ rest)

-- part[0]
abbrev first_byte : Bytes → ℕ
first_byte [] = 0
first_byte (c ∷ s) = c

is_quoted : Bytes → Bool
is_quoted part = leb 2 (length part) && (first_byte part == b'"') && (last_byte part == b'"')

normalize_identifier : Bytes → Bytes → Result Bytes
unfolding is_quoted upper_identifier
normalize_identifier part text =
    let inner = but_last (drop 1 part) in
    if is_quoted part
    then (if is_empty inner || has_byte b'"' inner
        then err (codes "invalid quoted identifier in the target table name: " ++ text)
        else ok inner)
    else if is_empty part || not (is_alpha (first_byte part))
    then err (codes "invalid target table name (expected TABLE or SCHEMA.TABLE): " ++ text)
    else upper_identifier part text

is_blank : ℕ → Bool
is_blank c = (c == 32) || (c == 9)

-- text.substr(text.find_first_not_of(" \t")), empty when there is no such byte
trim_left : Bytes → Bytes
unfolding is_blank
trim_left [] = []
trim_left (c ∷ s) = if is_blank c then trim_left s else c ∷ s

-- Up to the byte find_last_not_of(" \t").
trim_right : Bytes → Bytes
unfolding is_blank
trim_right [] = []
trim_right (c ∷ s) = let rest = trim_right s in if is_empty rest && is_blank c then [] else c ∷ rest

-- The variables of the loop that splits at the dots outside quotes.
record Split : Type 0 where
  parts : List Bytes
  current : Bytes
  in_quotes : Bool

split_step : Split → ℕ → Split
split_step s c =
    if c == b'"'
    then record s { in_quotes = not s.in_quotes; current = s.current ++ (c ∷ []) }
    else if (c == b'.') && not s.in_quotes
    then record s { parts = s.parts ++ (s.current ∷ []); current = [] }
    else record s { current = s.current ++ (c ∷ []) }

split_loop : Split → Bytes → Split
unfolding split_step
split_loop s [] = s
split_loop s (c ∷ rest) = split_loop (split_step s c) rest

-- `parts` after the last push_back.
target_of_parts : List Bytes → Bytes → Result TargetName
unfolding normalize_identifier
target_of_parts [] text = err []
target_of_parts (p ∷ []) text = do
  t ← normalize_identifier p text
  ok (record { owner = []; table = t })
target_of_parts (p ∷ q ∷ []) text = do
  o ← normalize_identifier p text
  t ← normalize_identifier q text
  ok (record { owner = o; table = t })
target_of_parts (p ∷ q ∷ r ∷ more) text =
    err (codes "invalid target table name (expected TABLE or SCHEMA.TABLE): " ++ text)

abbrev empty_split : Split
empty_split = record { parts = []; current = []; in_quotes = false }

unfoldable pub parse_target_name : Bytes → Result TargetName
unfolding trim_left trim_right split_loop target_of_parts
parse_target_name text =
    let trimmed = trim_right (trim_left text) in
    let s = split_loop empty_split trimmed in
    if is_empty (trim_left text)
    then err (codes "empty target table name")
    else if s.in_quotes
    then err (codes "unterminated double quote in the target table name: " ++ text)
    else target_of_parts (s.parts ++ (s.current ∷ [])) text

unfoldable pub classify_oracle_type : Bytes → OracleTypeFamily
classify_oracle_type data_type =
    if bytes_eq data_type (codes "NUMBER") || bytes_eq data_type (codes "FLOAT")
    then OracleTypeFamily.number
    else if bytes_eq data_type (codes "BINARY_FLOAT")
    then OracleTypeFamily.binary_float
    else if bytes_eq data_type (codes "BINARY_DOUBLE")
    then OracleTypeFamily.binary_double
    else if bytes_eq data_type (codes "VARCHAR2") || bytes_eq data_type (codes "CHAR")
    then OracleTypeFamily.varchar
    else if bytes_eq data_type (codes "DATE")
    then OracleTypeFamily.date
    else if starts_with data_type (codes "TIMESTAMP") && not (has_text data_type (codes "WITH"))
    then OracleTypeFamily.timestamp
    else OracleTypeFamily.unsupported
