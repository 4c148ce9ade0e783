-- ===== src/FetchCursor/Fetch.antt =====
-- What a fetch keeps: the buffer of the LOB values and the size of the next batch.
use oraduck.Stateful.{Outcome, done, fault, pure, resume, ◌>>=◌}
use oraduck.Stateful.Inversion.{Keeps, >>=-Keeps}
use oraduck.Prelude.Int.{ℤ}
use oraduck.FetchCursor.{
  Column, FetchCursor, CursorApi, LobValue, Fetching, change_cursor, answered, max, allocate,
  enlarge, reserve_lob, check_values, read_pieces, store_value, store_small, keep_value, read_value,
  lob_value, read_small, read_lob, read_unless, read_column, read_if, read_columns, is_null, shrink,
  reset_lobs, read_lobs, plan_rows, batch_fetched, fetch_batch, fetch_unless, fetch, most_uint32,
  initial_lob_bytes,
}
use oraduck.FetchCursor.Batches.{rows_within_bounds}
use oraduck.FetchCursor.Lobs.{Reads, read_pieces-Reads}
use oraduck.Prelude.{
  ℕ, zero, suc, ◌+◌, ◌-◌, ◌*◌, ◌/◌, ◌%◌, ◌^◌, ◌≤◌, ◌<◌, ◌≡◌, refl, inl, inr, Bool, true, false,
  ◌&&◌, Option, none, some, List, [], ◌∷◌, arith, ltb, leb, Bool-cases, length, length-append,
  Bytes,
}

-- What is written fits the buffer, the buffer is within the memory, and the next batch asks for one row at least
-- and for no more than the columns have room for.
pub record IsSound (memory most : ℕ) (c : FetchCursor) : Type 0 where
  pub written : length c.lob_data ≤ c.lob_capacity
  pub within : c.lob_capacity ≤ memory
  pub most_rows : c.max_rows ≡ most
  pub some_rows : 0 < c.next_rows
  pub few_rows : c.next_rows ≤ most

module _ (api : CursorApi) (most : ℕ) (enough : api.memory < 2 ^ 62) (row : 0 < most)
    (few : most < 2 ^ 32) where
  abbrev Sound : FetchCursor → Type 0
  Sound c = IsSound api.memory most c

  -- Room for so many bytes more, unless there was no memory.
  abbrev Roomy : ℕ → Outcome (Unit {0}) × FetchCursor → Type 0
  Roomy bytes (done u, c) = Sound c × (length c.lob_data + bytes ≤ c.lob_capacity)
  Roomy bytes (fault e, c) = Sound c

  allocate-Roomy :
      (bytes capacity : ℕ) (c : FetchCursor)
      → Sound c
      → length c.lob_data + bytes ≤ capacity
      → Roomy bytes (allocate capacity (ltb api.memory capacity) c)
  unfolding allocate
  allocate-Roomy bytes capacity c s big = elim (Bool-cases (ltb api.memory capacity)) [
    | inl none_left ↦ rw (allocate, none_left) s
    | inr fits ↦
        rw (allocate, fits)
          (
            record {
              written = omega (arith, big);
              within = ground (arith, fits);
              most_rows = s.most_rows;
              some_rows = s.some_rows;
              few_rows = s.few_rows;
            },
            big,
          )
  ]

  reserve_lob-Roomy :
      (bytes : ℕ) (c : FetchCursor)
      → Sound c
      → length c.lob_data + bytes < 2 ^ 64
      → Roomy bytes (reserve_lob api bytes c)
  unfolding reserve_lob enlarge
  reserve_lob-Roomy bytes c s small =
      let capacity =
        max ((length c.lob_data + bytes) % 2 ^ 64)
          (max (2 * c.lob_capacity % 2 ^ 64) initial_lob_bytes) in
      let left = (2 ^ 64 + c.lob_capacity - length c.lob_data) % 2 ^ 64 in
      let left_lem : left ≡ c.lob_capacity - length c.lob_data =
        omega (arith, s.written, s.within, enough) in
      elim (Bool-cases (leb bytes left)) [
        | inl room ↦
            let le : bytes ≤ left = ground (arith, room) in
            rw (reserve_lob, room, enlarge) (s, omega (arith, le, left_lem, s.written))
        | inr none_left ↦
            rw (reserve_lob, none_left, enlarge)
              (allocate-Roomy bytes capacity c s (larger (length c.lob_data + bytes) _ small))
      ]
    where
      larger : (n m : ℕ) → n < 2 ^ 64 → n ≤ max (n % 2 ^ 64) m
      larger n m small = ground (arith, small)

  -- After room was made, what follows keeps the rest.
  after_room :
      {A : Type 0} (bytes : ℕ) (f : Unit {0} → Fetching A) (r : Outcome (Unit {0}) × FetchCursor)
      → Roomy bytes r
      → ((c : FetchCursor)
          → Sound c
          → length c.lob_data + bytes ≤ c.lob_capacity
          → Sound ((f tt c).1))
      → Sound ((resume f r).1)
  after_room bytes f (done u, c) (s, room) go = go c s room
  after_room bytes f (fault e, c) s go = s

  store_small-Sound :
      (v : LobValue) (value : Bytes) (b : Bool) (c : FetchCursor)
      → Sound c
      → length c.lob_data + length value ≤ c.lob_capacity
      → Sound ((store_small v value b c).1)
  unfolding store_small store_value
  store_small-Sound v value true c s room = s
  store_small-Sound v value false c s room = record {
    written = omega (arith, length-append c.lob_data value, room);
    within = s.within;
    most_rows = s.most_rows;
    some_rows = s.some_rows;
    few_rows = s.few_rows;
  }

  kept-Sound :
      (v : LobValue) (o : Outcome (Option Bytes)) (c : FetchCursor)
      → Reads v [] o
      → Sound c
      → length c.lob_data + v.capacity ≤ c.lob_capacity
      → Sound ((answered o >>= keep_value v) c).1
  unfolding keep_value
  kept-Sound v (fault e) c r s room = s
  kept-Sound v (done none) c r s room = s
  kept-Sound v (done (some value)) c (fits, whole) s room =
      store_small-Sound v value (ltb most_uint32 (length value)) c s (omega (arith, fits, room))

  read_value-Sound : (v : LobValue) → v.capacity < 2 ^ 63 → Keeps Sound (read_value api v)
  unfolding read_value
  read_value-Sound v small c s =
      after_room v.capacity _ (reserve_lob api v.capacity c)
        (reserve_lob-Roomy v.capacity c s (omega (arith, small, s.written, s.within, enough)))
        (λ mid s' room.
          kept-Sound v (read_pieces api mid.lob_read_chunk v v.total 0 []) mid
            (read_pieces-Reads api mid.lob_read_chunk v v.total 0 [] (omega arith) (omega arith)) s'
            room)

  answered_kept : {A : Type 0} (o : Outcome A) → Keeps Sound (answered o)
  answered_kept o c s = s

  read_small-Sound :
      (n r : ℕ) (column : Column) (total : ℕ) (b : Bool)
      → ltb most_uint32 total ≡ b
      → Keeps Sound (read_small api n r column total b)
  unfolding read_small lob_value
  read_small-Sound n r column total true e = λ c s. s
  read_small-Sound n r column total false e =
      read_value-Sound (lob_value n r column total) (ground (arith, e))

  read_lob-Sound : (n : ℕ) (column : Column) (r : ℕ) → Keeps Sound (read_lob api n column r)
  unfolding read_lob
  read_lob-Sound n column r =
      >>=-Keeps Sound (answered (api.lob_length n r)) _ (answered_kept (api.lob_length n r))
        (λ total. read_small-Sound n r column total (ltb most_uint32 total) refl)

  read_unless-Sound :
      (n : ℕ) (column : Column) (r : ℕ) (b : Bool) → Keeps Sound (read_unless api n column r b)
  unfolding read_unless
  read_unless-Sound n column r true = λ c s. s
  read_unless-Sound n column r false = read_lob-Sound n column r

  read_column-Sound :
      (n : ℕ) (column : Column) (r left : ℕ) (inds : List ℤ)
      → Keeps Sound (read_column api n column r left inds)
  unfolding read_column
  read_column-Sound n column r zero inds = λ c s. s
  read_column-Sound n column r (suc left) [] = λ c s. s
  read_column-Sound n column r (suc left) (i ∷ inds) =
      >>=-Keeps Sound (read_unless api n column r (is_null i)) _
        (read_unless-Sound n column r (is_null i))
        (λ first.
          >>=-Keeps Sound (read_column api n column (r + 1) left inds)
            (λ rest. pure (first && rest)) (read_column-Sound n column (r + 1) left inds)
            (λ rest c s. s))

  read_if-Sound :
      (n : ℕ) (column : Column) (rows_there : ℕ) (b : Bool)
      → Keeps Sound (read_if api n column rows_there b)
  unfolding read_if
  read_if-Sound n column rows_there true = read_column-Sound n column 0 rows_there column.ind
  read_if-Sound n column rows_there false = λ c s. s

  read_columns-Sound :
      (n : ℕ) (columns : List Column) (rows_there : ℕ)
      → Keeps Sound (read_columns api n columns rows_there)
  unfolding read_columns
  read_columns-Sound n [] rows_there = λ c s. s
  read_columns-Sound n (column ∷ columns) rows_there =
      >>=-Keeps Sound (read_if api n column rows_there column.lob) _
        (read_if-Sound n column rows_there column.lob)
        (λ first.
          >>=-Keeps Sound (read_columns api (n + 1) columns rows_there)
            (λ rest. pure (first && rest)) (read_columns-Sound (n + 1) columns rows_there)
            (λ rest c s. s))

  Roomy-Sound : (bytes : ℕ) (r : Outcome (Unit {0}) × FetchCursor) → Roomy bytes r → Sound r.1
  Roomy-Sound bytes (done u, c) (s, room) = s
  Roomy-Sound bytes (fault e, c) s = s

  shrink-Sound :
      (keep : ℕ) (b : Bool) (c : FetchCursor)
      → keep < 2 ^ 64
      → length c.lob_data ≡ 0
      → Sound c
      → Sound ((shrink api keep b c).1)
  unfolding shrink
  shrink-Sound keep false c small empty s = s
  shrink-Sound keep true c small empty s =
      let freed : FetchCursor = record c { lob_capacity = 0 } in
      Roomy-Sound keep (reserve_lob api keep freed) (
        reserve_lob-Roomy keep freed
          (record {
            written = omega (arith, empty);
            within = omega arith;
            most_rows = s.most_rows;
            some_rows = s.some_rows;
            few_rows = s.few_rows;
          })
          (omega (arith, empty, small)))

  reset_lobs-Sound : Keeps Sound (reset_lobs api)
  unfolding reset_lobs
  reset_lobs-Sound c s =
      let emptied : FetchCursor = record c { lob_data = [] } in
      let keep = max (2 * c.budget % 2 ^ 64) initial_lob_bytes in
      shrink-Sound keep (ltb keep c.lob_capacity) emptied (below (2 * c.budget)) refl (record {
        written = omega arith;
        within = s.within;
        most_rows = s.most_rows;
        some_rows = s.some_rows;
        few_rows = s.few_rows;
      })
    where
      below : (n : ℕ) → max (n % 2 ^ 64) initial_lob_bytes < 2 ^ 64
      below n = ground arith

  read_lobs-Sound : (rows_there : ℕ) → Keeps Sound (read_lobs api rows_there)
  unfolding read_lobs
  read_lobs-Sound rows_there =
      >>=-Keeps Sound (reset_lobs api) _ reset_lobs-Sound
        (λ u c s. read_columns-Sound 0 c.columns rows_there c s)

  plan_rows-Sound : (fetched : ℕ) (c : FetchCursor) → Sound c → Sound (plan_rows fetched c)
  unfolding plan_rows
  plan_rows-Sound fetched c s = elim (Bool-cases (c.has_lobs && ltb 0 fetched)) [
    | inr keep ↦ rw (plan_rows, keep) s
    | inl plan ↦
        let per_row = (length c.lob_data + fetched - 1) / fetched in
        let (some_row, at_most, within) =
          rows_within_bounds c.budget ((c.row_bytes + per_row) % 2 ^ 64) c.max_rows
            (omega (arith, s.most_rows, row)) (omega (arith, s.most_rows, few)) in
        rw (plan_rows, plan)
          (record {
            written = s.written;
            within = s.within;
            most_rows = s.most_rows;
            some_rows = some_row;
            few_rows = omega (arith, at_most, s.most_rows);
          })
  ]

  fetch_batch-Sound : Keeps Sound (fetch_batch api)
  unfolding fetch_batch
  fetch_batch-Sound c s =
      >>=-Keeps Sound (answered (api.fetch_rows c.batches c.next_rows c.columns)) _
        (answered_kept (api.fetch_rows c.batches c.next_rows c.columns))
        (λ got mid s1.
          >>=-Keeps Sound (answered (api.rows_fetched c.batches)) _
            (answered_kept (api.rows_fetched c.batches))
            (λ fetched mid2 s2.
              >>=-Keeps Sound (answered (check_values got.1 fetched)) _
                (answered_kept (check_values got.1 fetched))
                (λ u.
                  >>=-Keeps Sound (read_lobs api fetched)
                    (λ ended. change_cursor (plan_rows fetched) >>= λ w. pure (fetched, ended))
                    (read_lobs-Sound fetched) (λ ended m s4. plan_rows-Sound fetched m s4))
                mid2 s2)
            (batch_fetched got.0 got.1 mid)
            (record {
              written = s1.written;
              within = s1.within;
              most_rows = s1.most_rows;
              some_rows = s1.some_rows;
              few_rows = s1.few_rows;
            }))
        c s

  fetch_unless-Sound : (b : Bool) → Keeps Sound (fetch_unless api b)
  unfolding fetch_unless
  fetch_unless-Sound true = λ c s. s
  fetch_unless-Sound false = fetch_batch-Sound

  -- Fetch keeps, returned or thrown and for any rows and LOB pieces that OCI gives: the LOB values that are written
  -- fit their buffer, the buffer is within the memory (of less than 2^62 bytes), and the next batch asks for one row
  -- at least and for no more than the define buffers hold (one at least, fewer than 2^32).
  pub fetch-IsSound :
      (c : FetchCursor) → IsSound api.memory most c → IsSound api.memory most ((fetch api c).1)
  unfolding fetch
  fetch-IsSound c s = fetch_unless-Sound c.is_done c s
