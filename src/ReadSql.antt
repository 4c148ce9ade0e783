-- ===== src/ReadSql.antt =====
-- The statement of a scan: src/read_sql.cpp and src/include/oraduck/read_sql.hpp.
pub mod Statement
use oraduck.Prelude.Int.{ℤ, pos, ◌-ℤ◌}
use oraduck.Slice.{SliceKind, Slice}
use oraduck.ReadTypes.{ReadColumnPlan, read_types}
use oraduck.Binds.{BindValue, SqlFragment, SqlStatement, bind_text, bind_number, sql_binds}
use oraduck.Prelude.{
  ℕ, zero, suc, ◌+◌, ◌-◌, ◌*◌, ◌/◌, ◌%◌, ◌^◌, ◌≤◌, ◌<◌, ◌≡◌, refl, sym, ap, ◌∙◌, ◌≢◌, ◌↔◌, ◌⊎◌, inl,
  inr, Bool, true, false, not, ◌&&◌, ◌||◌, List, [], ◌∷◌, ◌++◌, map, reverse, arith, ltb, leb, ◌==◌,
  if◌then◌else◌, ltb→lt, lt→ltb, ==_iff, ==_refl, Bool-cases, Option-cases, some_inj, length,
  get_or, take, drop, replicate, is_empty, count_if, All, length-append, count_if-append,
  length-replicate, length-map, All-append, AllPairs, All-map, Bytes, codes, bytes_eq, is_upper,
  is_lower, is_alpha, is_digit, is_alnum, is_space, to_upper, to_lower, has_byte, starts_with,
  has_text, last_byte, but_last, to_decimal, bytes_eq→eq, bytes_eq_refl, all_below, all_below_sound,
  Result, ok, err, ◌>>=◌, ◌>>◌, throw_if, >>=-eq-ok, ok_inj,
}

pub data SplitStrategy : Type 0 where
  auto extents hash none : SplitStrategy

pub data SnapshotMode : Type 0 where
  auto scn none : SnapshotMode

pub lower : Bytes → Bytes
lower s = map to_lower s

-- The digits of a placeholder's number, and what follows them; size_t arithmetic.
pub read_number : ℕ → Bytes → ℕ × Bytes
read_number n [] = (n, [])
read_number n (c ∷ s) =
    let rest = read_number ((n * 10 + (c - b'0')) % 2 ^ 64) s in
    if is_digit c then rest else (n, c ∷ s)

-- Whether a placeholder follows the ':'.
pub is_placeholder : Bytes → Bool
is_placeholder [] = false
is_placeholder (b ∷ []) = false
is_placeholder (b ∷ d ∷ s) = (b == b'b') && is_digit d

-- The loop of ShiftPlaceholders; `quote` is 0 outside quotes. A round takes a byte at least.
pub shift_loop : ℕ → Bytes → ℕ → ℕ → Bytes
shift_loop zero sql offset quote = []
shift_loop (suc fuel) [] offset quote = []
shift_loop (suc fuel) (c ∷ s) offset quote =
    let (n, after) = read_number 0 (drop 1 s) in
    let inside = c ∷ shift_loop fuel s offset (if c == quote then 0 else quote) in
    let opens = c ∷ shift_loop fuel s offset c in
    let shifted =
      codes ":b" ++ (to_decimal ((n + offset) % 2 ^ 64) ++ shift_loop fuel after offset 0) in
    let plain = c ∷ shift_loop fuel s offset 0 in
    if not (quote == 0)
    then inside
    else if (c == b'"') || (c == 39)
    then opens
    else if (c == b':') && is_placeholder s
    then shifted
    else plain

pub shift_placeholders : Bytes → ℕ → Bytes
shift_placeholders sql offset = shift_loop (length sql) sql offset 0

pub parse_split_strategy : Bytes → Result SplitStrategy
parse_split_strategy text =
    let v = lower text in
    if bytes_eq v (codes "auto")
    then ok SplitStrategy.auto
    else if bytes_eq v (codes "extents")
    then ok SplitStrategy.extents
    else if bytes_eq v (codes "hash")
    then ok SplitStrategy.hash
    else if bytes_eq v (codes "none")
    then ok SplitStrategy.none
    else err (
        codes "invalid value for split: '"
        ++ (text ++ codes "' (accepted: auto, extents, hash, none)"))

pub parse_snapshot_mode : Bytes → Result SnapshotMode
parse_snapshot_mode text =
    let v = lower text in
    if bytes_eq v (codes "auto")
    then ok SnapshotMode.auto
    else if bytes_eq v (codes "scn")
    then ok SnapshotMode.scn
    else if bytes_eq v (codes "none")
    then ok SnapshotMode.none
    else err
        (codes "invalid value for snapshot: '" ++ (text ++ codes "' (accepted: auto, scn, none)"))

pub quote_identifier : Bytes → Bytes
quote_identifier name = b'"' ∷ (name ++ (b'"' ∷ []))

pub record ScanSqlInput : Type 0 where
  pub owner : Bytes
  pub object : Bytes
  pub columns : List ReadColumnPlan
  pub filters : List SqlFragment
  pub snapshot_scn : Bytes

-- The lambda `next`.
pub next_placeholder : List BindValue → Bytes
next_placeholder binds = codes ":b" ++ to_decimal (length binds + 1)

pub select_list : List ReadColumnPlan → Bytes
select_list [] = codes "1"
select_list (c ∷ []) = c.select_expr
select_list (c ∷ d ∷ cs) = c.select_expr ++ (codes ", " ++ select_list (d ∷ cs))

-- The conditions and the binds so far.
pub record Where : Type 0 where
  pub conditions : List Bytes
  pub binds : List BindValue

pub add_filters : List SqlFragment → Where → Where
add_filters [] w = w
add_filters (f ∷ fs) w = add_filters fs (record {
  conditions = w.conditions ++ (shift_placeholders f.sql (length w.binds) ∷ []);
  binds = w.binds ++ f.binds;
})

pub rowid_condition : Bool → Bytes → Bytes → Bytes
rowid_condition hi_inclusive lo hi =
    if hi_inclusive
    then codes "ROWID BETWEEN CHARTOROWID("
      ++ (lo ++ (codes ") AND CHARTOROWID(" ++ (hi ++ codes ")")))
    else codes "ROWID >= CHARTOROWID("
      ++ (lo ++ (codes ") AND ROWID < CHARTOROWID(" ++ (hi ++ codes ")")))

-- The `switch` over the kind of the slice. `hash_buckets` is converted to int64_t before 1 is taken
-- off, so that 0 buckets give -1.
pub add_slice : Slice → Where → Result Where
add_slice slice w =
    let lo = next_placeholder w.binds in
    let rowid_binds = w.binds ++ (bind_text slice.rowid_lo ∷ []) in
    let hi = next_placeholder rowid_binds in
    elim slice.kind [
      | SliceKind.none ↦ ok w
      | SliceKind.rowid_range ↦ ok (record {
        conditions = w.conditions ++ (rowid_condition slice.hi_inclusive lo hi ∷ []);
        binds = rowid_binds ++ (bind_text slice.rowid_hi ∷ []);
      })
      | SliceKind.hash ↦ do
        buckets ← bind_number (pos slice.hash_buckets -ℤ pos 1)
        bucket ← bind_number (pos slice.hash_bucket)
        ok (record {
          conditions =
              w.conditions
              ++ ((codes "ORA_HASH(ROWID, "
                    ++ (lo ++ (codes ") = " ++ next_placeholder (w.binds ++ (buckets ∷ [])))))
                  ∷ []);
          binds = w.binds ++ (buckets ∷ bucket ∷ []);
        })
    ]

pub join_conditions : Bytes → List Bytes → Bytes
join_conditions glue [] = []
join_conditions glue (c ∷ cs) = glue ++ (c ++ join_conditions (codes " AND ") cs)

pub snapshot_binds : ScanSqlInput → List BindValue
snapshot_binds input = if is_empty input.snapshot_scn then [] else bind_text input.snapshot_scn ∷ []

pub snapshot_clause : ScanSqlInput → Bytes
snapshot_clause input =
    if is_empty input.snapshot_scn
    then []
    else codes " AS OF SCN TO_NUMBER(" ++ (next_placeholder [] ++ codes ")")

pub build_scan_sql : ScanSqlInput → Slice → Result SqlStatement
build_scan_sql input slice = do
  w ←
      add_slice slice
        (add_filters input.filters (record { conditions = []; binds = snapshot_binds input }))
  ok (record {
    sql =
        codes "SELECT /* oraduck_scan */ "
        ++ (select_list input.columns
            ++ (codes " FROM "
                ++ (quote_identifier input.owner
                    ++ (codes "."
                        ++ (quote_identifier input.object
                            ++ (snapshot_clause input
                                ++ join_conditions (codes " WHERE ") w.conditions))))));
    binds = w.binds;
  })

-- Opens all that the statement calls.
unfoldable pub read_sql : Unit {0}
unfolding lower read_number is_placeholder shift_loop shift_placeholders parse_split_strategy
    parse_snapshot_mode quote_identifier next_placeholder select_list add_filters rowid_condition
    add_slice join_conditions snapshot_binds snapshot_clause build_scan_sql to_decimal bytes_eq
    sql_binds ◌-ℤ◌
read_sql = tt
