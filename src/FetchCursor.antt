-- ===== src/FetchCursor.antt =====
-- The batches of a cursor and the values of LOBs: src/fetch_cursor.cpp and src/include/oraduck/fetch_cursor.hpp.
-- What OCI answers, past CheckOci, is a parameter: the rows of a batch, the length of a LOB and its pieces.
pub mod Batches
pub mod Fetch
pub mod Lobs
use oraduck.Oci.{sqlt_blob, sqlt_int}
use oraduck.ReadTypes.{ReadColumnPlan}
use oraduck.Prelude.Int.{ℤ, pos, negsuc}
use oraduck.Stateful.{
  Fault, oracle_error, oraduck_error, other_error, Outcome, done, fault, Stateful, pure, throw,
  resume, ◌>>=◌, ◌>>◌, catch,
}
use oraduck.Prelude.{
  ℕ, zero, suc, ◌+◌, ◌-◌, ◌*◌, ◌/◌, ◌%◌, ◌^◌, ◌≤◌, ◌<◌, ◌≡◌, refl, sym, ap, ◌∙◌, ◌≢◌, ◌↔◌, ◌⊎◌, inl,
  inr, Bool, true, false, not, ◌&&◌, ◌||◌, Option, none, some, List, [], ◌∷◌, ◌++◌, map, reverse,
  arith, ltb, leb, ◌==◌, if◌then◌else◌, ltb→lt, lt→ltb, ==_iff, ==_refl, Bool-cases, Option-cases,
  some_inj, length, get_or, take, drop, replicate, is_empty, count_if, All, length-append,
  count_if-append, length-replicate, length-map, All-append, AllPairs, All-map, Bytes, codes,
  bytes_eq, is_upper, is_lower, is_alpha, is_digit, is_alnum, is_space, to_upper, to_lower,
  has_byte, starts_with, has_text, last_byte, but_last, to_decimal, bytes_eq→eq, bytes_eq_refl,
  all_below, all_below_sound,
}

abbrev pub initial_lob_bytes : ℕ
initial_lob_bytes = 64 * 1024

abbrev pub max_utf8_bytes_per_char : ℕ
max_utf8_bytes_per_char = 4

abbrev pub lob_row_bytes : ℕ
lob_row_bytes = 12 * 1024

-- The LOB values are (row, offset, length), the newest first.
pub record Column : Type 0 where
  pub name : Bytes
  pub dty : ℕ
  pub lob : Bool
  pub ind : List ℤ
  pub rcode : List ℕ
  pub lob_values : List (ℕ × ℕ × ℕ)

-- `lob_data` is what is written, its length is `lob_used_`; `batches` is how many fetches there were.
pub record FetchCursor : Type 0 where
  pub columns : List Column
  pub budget : ℕ
  pub row_bytes : ℕ
  pub max_rows : ℕ
  pub next_rows : ℕ
  pub lob_read_chunk : ℕ
  pub is_done : Bool
  pub has_lobs : Bool
  pub lob_data : Bytes
  pub lob_capacity : ℕ
  pub batches : ℕ

abbrev pub Fetching : Type 0 → Type 0
Fetching A = Stateful FetchCursor A

-- OCIStmtFetch2 of so many rows, after so many batches: whether it was the last, and the columns with what was
-- written into them; OCI_ATTR_ROWS_FETCHED of a batch; OCILobGetLength2 of a column and a row; OCILobRead2 of a column and a row, with
-- the bytes and the characters to read, the offset and the room: what it wrote, and the characters.
-- `memory` is the largest buffer that `new` gives.
pub record CursorApi : Type 0 where
  pub fetch_rows : ℕ → ℕ → List Column → Outcome (Bool × List Column)
  pub rows_fetched : ℕ → Outcome ℕ
  pub lob_length : ℕ → ℕ → Outcome ℕ
  pub lob_read : ℕ → ℕ → ℕ → ℕ → ℕ → ℕ → Outcome (Bytes × ℕ)
  pub memory : ℕ

abbrev pub get_cursor : Fetching FetchCursor
get_cursor c = (done c, c)

abbrev pub change_cursor : (FetchCursor → FetchCursor) → Fetching (Unit {0})
change_cursor f c = (done tt, f c)

abbrev pub answered : {A : Type 0} → Outcome A → Fetching A
answered o c = (o, c)

abbrev pub max : ℕ → ℕ → ℕ
max a b = if ltb a b then b else a

abbrev pub min : ℕ → ℕ → ℕ
min a b = if ltb b a then b else a

pub sum_row_bytes : List ReadColumnPlan → ℕ
sum_row_bytes [] = 0
sum_row_bytes (column ∷ columns) =
    ((if column.lob then lob_row_bytes else column.define_bytes + 8) + sum_row_bytes columns)
    % 2 ^ 64

pub row_bytes_of : List ReadColumnPlan → ℕ
row_bytes_of columns = max (sum_row_bytes columns) 1

pub first_batch_lob_bytes : List ReadColumnPlan → ℕ → ℕ
first_batch_lob_bytes [] prefetch = 0
first_batch_lob_bytes (column ∷ columns) prefetch =
    ((if column.lob
        then prefetch * (if column.dty == sqlt_blob then 1 else max_utf8_bytes_per_char)
        else 0)
      + first_batch_lob_bytes columns prefetch)
    % 2 ^ 64

pub rows_within : ℕ → ℕ → ℕ → ℕ
rows_within budget row_bytes most = min (max (budget / row_bytes) 1) most % 2 ^ 32

-- rows_ and next_rows_ as the constructor sets them, from the columns that it defines.
pub rows_at_first : ℕ → ℕ → ℕ → List ReadColumnPlan → ℕ × ℕ
rows_at_first budget most prefetch columns =
    let row_bytes = row_bytes_of columns in
    let rows_there = rows_within budget row_bytes (max most 1) in
    (
      rows_there,
      rows_within budget ((row_bytes + first_batch_lob_bytes columns prefetch) % 2 ^ 64) rows_there,
    )

-- A new buffer with what was written, if there is memory for it.
pub allocate : ℕ → Bool → Fetching (Unit {0})
allocate capacity true = throw (other_error (codes "std::bad_alloc"))
allocate capacity false = change_cursor (λ c. record c { lob_capacity = capacity })

pub enlarge : CursorApi → ℕ → Bool → Fetching (Unit {0})
enlarge api capacity true = pure tt
enlarge api capacity false = allocate capacity (ltb api.memory capacity)

-- ReserveLob
pub reserve_lob : CursorApi → ℕ → Fetching (Unit {0})
reserve_lob api bytes = do
  c ← get_cursor
  enlarge api
      (max ((length c.lob_data + bytes) % 2 ^ 64)
        (max (2 * c.lob_capacity % 2 ^ 64) initial_lob_bytes))
      (leb bytes ((2 ^ 64 + c.lob_capacity - length c.lob_data) % 2 ^ 64))

-- The error of a value that is truncated or not converted, of one column.
pub bad_value : Bytes → ℕ → Fault
bad_value name rcode =
    let code = if rcode == 0 then 1406 else rcode in
    let digits = to_decimal code in
    oracle_error code (
      codes "OCIStmtFetch2: column \""
      ++ (name
          ++ (codes "\": value truncated or not converted (ORA-"
              ++ (replicate (5 - length digits) b'0' ++ (digits ++ codes ")")))))

abbrev pub is_null : ℤ → Bool
is_null (ℤ.pos n) = false
is_null (ℤ.negsuc n) = n == 0

abbrev pub is_zero : ℤ → Bool
is_zero (ℤ.pos n) = n == 0
is_zero (ℤ.negsuc n) = false

-- The first `left` rows of a column.
pub check_column : Bytes → ℕ → List ℤ → List ℕ → Outcome (Unit {0})
check_column name zero inds rcodes = done tt
check_column name (suc left) [] rcodes = done tt
check_column name (suc left) (i ∷ inds) [] = done tt
check_column name (suc left) (i ∷ inds) (code ∷ rcodes) =
    if not (is_null i) && (not (is_zero i) || not (code == 0))
    then fault (bad_value name code)
    else check_column name left inds rcodes

pub check_values : List Column → ℕ → Outcome (Unit {0})
check_values [] rows_there = done tt
check_values (column ∷ columns) rows_there =
    elim (check_column column.name rows_there column.ind column.rcode) [
      | done u ↦ check_values columns rows_there
      | fault e ↦ fault e
    ]

abbrev pub chunk_of : ℕ → ℕ → ℕ
chunk_of chunk left = if chunk == 0 then left else min left chunk

pub too_large : Bytes → Fault
too_large name =
    oraduck_error (codes "value of column \"" ++ (name ++ codes "\" larger than 4 GiB"))

pub unexpected_read : Bytes → ℕ → ℕ → Fault
unexpected_read name bytes offset = oraduck_error (
    codes "OCILobRead2: column \""
    ++ (name
        ++ (codes "\": unexpected read of "
            ++ (to_decimal bytes ++ (codes " bytes at offset " ++ to_decimal offset)))))

-- What a LOB is, for its reads: column and row, name, whether it has characters, its length and its room.
pub record LobValue : Type 0 where
  pub column : ℕ
  pub row : ℕ
  pub name : Bytes
  pub characters : Bool
  pub total : ℕ
  pub capacity : ℕ

-- One OCILobRead2 behind `value`, of `read` characters or bytes so far.
pub lob_piece : CursorApi → ℕ → LobValue → ℕ → Bytes → Outcome (Bytes × ℕ)
lob_piece api chunk v read value =
    let wanted = chunk_of chunk (v.total - read) in
    api.lob_read v.column v.row (if v.characters then 0 else wanted)
      (if v.characters then wanted else 0) (read + 1) (v.capacity - length value)

-- Its progress, unless it is refused: none, or more than the room.
pub after_piece : LobValue → ℕ → Bytes → Outcome (Bytes × ℕ) → Outcome (ℕ × Bytes)
after_piece v read value (fault e) = fault e
after_piece v read value (done (piece, chars)) =
    let progress = if v.characters then chars else length piece in
    if (progress == 0) || ltb (v.capacity - length value) (length piece)
    then fault (unexpected_read v.name (length piece) (read + 1))
    else done (read + progress, value ++ piece)

-- What follows a piece.
pub next_piece : (ℕ → Bytes → Outcome (Option Bytes)) → Outcome (ℕ × Bytes) → Outcome (Option Bytes)
next_piece next (fault e) = fault e
next_piece next (done (read, value)) = next read value

pub piece_round :
    CursorApi
    → ℕ
    → LobValue
    → ℕ
    → Bytes
    → (ℕ → Bytes → Outcome (Option Bytes))
    → Bool
    → Outcome (Option Bytes)
piece_round api chunk v read value next false = done (some value)
piece_round api chunk v read value next true =
    next_piece next (after_piece v read value (lob_piece api chunk v read value))

-- The loop of ReadLob: `none` if the fuel does not suffice.
pub read_pieces : CursorApi → ℕ → LobValue → ℕ → ℕ → Bytes → Outcome (Option Bytes)
read_pieces api chunk v zero read value = if ltb read v.total then done none else done (some value)
read_pieces api chunk v (suc fuel) read value =
    piece_round api chunk v read value (read_pieces api chunk v fuel) (ltb read v.total)

abbrev pub most_uint32 : ℕ
most_uint32 = 4294967295

-- column.lob_offset[row] and column.lob_length[row].
pub set_value : ℕ → ℕ → ℕ × ℕ → List Column → List Column
set_value n row (offset, len) [] = []
set_value zero row (offset, len) (c ∷ columns) =
    record c { lob_values = (row, offset, len) ∷ c.lob_values } ∷ columns
set_value (suc n) row (offset, len) (c ∷ columns) = c ∷ set_value n row (offset, len) columns

pub store_value : LobValue → Bytes → FetchCursor → FetchCursor
store_value v value c = record c {
  columns = set_value v.column v.row (length c.lob_data, length value) c.columns;
  lob_data = c.lob_data ++ value;
}

-- The end of ReadLob.
pub store_small : LobValue → Bytes → Bool → Fetching Bool
store_small v value true = throw (too_large v.name)
store_small v value false = do change_cursor (store_value v value); pure true

pub keep_value : LobValue → Option Bytes → Fetching Bool
keep_value v none = pure false
keep_value v (some value) = store_small v value (ltb most_uint32 (length value))

-- ReadLob of a value that is not too long.
pub read_value : CursorApi → LobValue → Fetching Bool
read_value api v = do
  reserve_lob api v.capacity
  c ← get_cursor
  value ← answered (read_pieces api c.lob_read_chunk v v.total 0 [])
  keep_value v value

pub lob_value : ℕ → ℕ → Column → ℕ → LobValue
lob_value n row column total =
    let characters = not (column.dty == sqlt_blob) in
    record {
      column = n;
      row = row;
      name = column.name;
      characters = characters;
      total = total;
      capacity = total * (if characters then max_utf8_bytes_per_char else 1);
    }

pub read_small : CursorApi → ℕ → ℕ → Column → ℕ → Bool → Fetching Bool
read_small api n row column total true = throw (too_large column.name)
read_small api n row column total false = read_value api (lob_value n row column total)

-- Whether the fuel sufficed.
pub read_lob : CursorApi → ℕ → Column → ℕ → Fetching Bool
read_lob api n column row = do
  total ← answered (api.lob_length n row)
  read_small api n row column total (ltb most_uint32 total)

pub read_unless : CursorApi → ℕ → Column → ℕ → Bool → Fetching Bool
read_unless api n column row true = pure true
read_unless api n column row false = read_lob api n column row

-- The values of a column, from a row on.
pub read_column : CursorApi → ℕ → Column → ℕ → ℕ → List ℤ → Fetching Bool
read_column api n column row zero inds = pure true
read_column api n column row (suc left) [] = pure true
read_column api n column row (suc left) (i ∷ inds) = do
  first ← read_unless api n column row (is_null i)
  rest ← read_column api n column (row + 1) left inds
  pure (first && rest)

pub read_if : CursorApi → ℕ → Column → ℕ → Bool → Fetching Bool
read_if api n column rows_there true = read_column api n column 0 rows_there column.ind
read_if api n column rows_there false = pure true

pub read_columns : CursorApi → ℕ → List Column → ℕ → Fetching Bool
read_columns api n [] rows_there = pure true
read_columns api n (column ∷ columns) rows_there = do
  first ← read_if api n column rows_there column.lob
  rest ← read_columns api (n + 1) columns rows_there
  pure (first && rest)

-- lob_used_ = 0, and an oversized buffer is given back.
pub shrink : CursorApi → ℕ → Bool → Fetching (Unit {0})
shrink api keep false = pure tt
shrink api keep true = do change_cursor (λ c. record c { lob_capacity = 0 }); reserve_lob api keep

pub reset_lobs : CursorApi → Fetching (Unit {0})
reset_lobs api = do
  change_cursor (λ c. record c { lob_data = [] })
  c ← get_cursor
  let keep = max (2 * c.budget % 2 ^ 64) initial_lob_bytes
  shrink api keep (ltb keep c.lob_capacity)

pub read_lobs : CursorApi → ℕ → Fetching Bool
read_lobs api rows_there = do
  reset_lobs api
  c ← get_cursor
  read_columns api 0 c.columns rows_there

-- The rows of the next batch, from the bytes of this one.
pub plan_rows : ℕ → FetchCursor → FetchCursor
plan_rows fetched c =
    let per_row = (length c.lob_data + fetched - 1) / fetched in
    let planned : FetchCursor = record c {
      next_rows = rows_within c.budget ((c.row_bytes + per_row) % 2 ^ 64) c.max_rows;
    } in
    if c.has_lobs && ltb 0 fetched then planned else c

abbrev pub batch_fetched : Bool → List Column → FetchCursor → FetchCursor
batch_fetched last columns c = record c {
  is_done = last;
  columns = columns;
  batches = c.batches + 1;
}

-- Fetch of a cursor that is not done: the rows, and whether the fuel sufficed.
pub fetch_batch : CursorApi → Fetching (ℕ × Bool)
fetch_batch api = do
  c ← get_cursor
  (last, columns) ← answered (api.fetch_rows c.batches c.next_rows c.columns)
  change_cursor (batch_fetched last columns)
  fetched ← answered (api.rows_fetched c.batches)
  answered (check_values columns fetched)
  ended ← read_lobs api fetched
  change_cursor (plan_rows fetched)
  pure (fetched, ended)

pub fetch_unless : CursorApi → Bool → Fetching (ℕ × Bool)
fetch_unless api true = pure (0, true)
fetch_unless api false = fetch_batch api

pub fetch : CursorApi → Fetching (ℕ × Bool)
fetch api = do c ← get_cursor; fetch_unless api c.is_done

-- Opens the cursor.
unfoldable pub cursor_calls : Unit {0}
unfolding sum_row_bytes row_bytes_of first_batch_lob_bytes rows_within rows_at_first allocate
    enlarge reserve_lob bad_value check_column check_values too_large unexpected_read lob_piece
    after_piece next_piece piece_round read_pieces set_value store_value store_small keep_value
    read_value lob_value read_small read_lob read_unless read_column read_if read_columns shrink
    reset_lobs read_lobs plan_rows fetch_batch fetch_unless fetch
cursor_calls = tt
