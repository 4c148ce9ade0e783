-- ===== src/DirectPathLoader.antt =====
-- A direct path load: src/direct_path_loader.cpp and src/include/oraduck/direct_path_loader.hpp.
pub mod Cells
pub mod Open
pub mod Rows
pub mod Traces
pub mod Ends
use oraduck.OciCalls.{
  Handle, dirpath_ctx, column_array, dirpath_stream, column, Attribute, OciCall, handle_alloc,
  handle_free, set_text, set_number, get_number, param_get, descriptor_free, row_get, entry_set,
  to_stream, error_get, dirpath_prepare, load_stream, stream_reset, dirpath_finish, dirpath_abort,
  Status, success, success_with_info, need_data, no_data, still_executing, invalid_handle,
  continue_, other, Reply, Trace, Oci, is_ok, known_error, error_reply, oci_calls,
}
use oraduck.Stateful.{
  Fault, oracle_error, oraduck_error, Outcome, done, fault, Stateful, pure, throw, resume, ◌>>=◌,
  ◌>>◌, catch,
}
use oraduck.Prelude.{
  ℕ, zero, suc, ◌+◌, ◌-◌, ◌*◌, ◌/◌, ◌%◌, ◌^◌, ◌≤◌, ◌<◌, ◌≡◌, refl, sym, ap, ◌∙◌, ◌≢◌, ◌↔◌, ◌⊎◌, inl,
  inr, Bool, true, false, not, ◌&&◌, ◌||◌, Option, none, some, List, [], ◌∷◌, ◌++◌, map, reverse,
  arith, ltb, leb, ◌==◌, if◌then◌else◌, ltb→lt, lt→ltb, ==_iff, ==_refl, Bool-cases, Option-cases,
  some_inj, length, get_or, take, drop, replicate, is_empty, count_if, All, length-append,
  count_if-append, length-replicate, length-map, All-append, AllPairs, All-map, Bytes, codes,
  bytes_eq, is_upper, is_lower, is_alpha, is_digit, is_alnum, is_space, to_upper, to_lower,
  has_byte, starts_with, has_text, last_byte, but_last, to_decimal, bytes_eq→eq, bytes_eq_refl,
  all_below, all_below_sound,
}

pub record LoaderOptions : Type 0 where
  pub stream_buffer_bytes : ℕ
  pub column_array_rows : ℕ
  pub parallel : Bool
  pub skip_index_maintenance : Bool
  pub accumulate_stream : Bool
  pub force_entry_set : Bool

-- A cell as the program writes it: the data (none for NULL), its length and its flag.
abbrev pub Entry : Type 0
Entry = Option Bytes × ℕ × ℕ

-- `ctx`, `ca` and `stream` say whether the pointer is set; `entries` are the writes into the arrays of OCI, the
-- newest first; `trace` is what has been called.
pub record Loader : Type 0 where
  pub options : LoaderOptions
  pub owner : Bytes
  pub table : Bytes
  pub column_names : List Bytes
  pub date_formats : List Bytes
  pub ctx : Bool
  pub ca : Bool
  pub stream : Bool
  pub row_capacity : ℕ
  pub column_count : ℕ
  pub contiguous : Bool
  pub entries : List (ℕ × Entry)
  pub is_done : Bool
  pub stream_pending : Bool
  pub rows_in_stream : ℕ
  pub rows_loaded : ℕ
  pub trace : Trace

abbrev pub Load : Type 0 → Type 0
Load A = Stateful Loader A

abbrev pub get_loader : Load Loader
get_loader s = (done s, s)

abbrev pub change : (Loader → Loader) → Load (Unit {0})
change f s = (done tt, f s)

abbrev pub called : Loader → OciCall → Reply → Loader
called s call reply = record s { trace = s.trace ++ ((call, reply) ∷ []) }

-- A call of OCI.
pub ask : Oci → OciCall → Load Reply
ask oci call s = (done (oci s.trace call), called s call (oci s.trace call))

-- OciErrorText, with an error handle.
pub text_or_ask : Oci → Status → Option Bytes → Load (Bytes × ℕ)
text_or_ask oci status (some text) = pure (text, 0)
text_or_ask oci status none = do reply ← ask oci error_get; pure (error_reply status reply)

pub error_text : Oci → Status → Load (Bytes × ℕ)
error_text oci status = text_or_ask oci status (known_error status)

pub fail : Oci → Bytes → Status → {A : Type 0} → Load A
fail oci what status = do
  (text, code) ← error_text oci status
  throw (oracle_error code (what ++ text))

-- A call whose status CheckOci checks.
pub check_reply : Oci → Bytes → Reply → Bool → Load Reply
check_reply oci what reply true = pure reply
check_reply oci what reply false = fail oci (what ++ codes ": ") reply.status

pub checked : Oci → Bytes → OciCall → Load Reply
checked oci what call = do reply ← ask oci call; check_reply oci what reply (is_ok reply.status)

-- The statuses that LoadStream goes on with.
pub is_loaded : Status → Bool
is_loaded need_data = true
is_loaded success = true
is_loaded success_with_info = true
is_loaded no_data = false
is_loaded still_executing = false
is_loaded invalid_handle = false
is_loaded continue_ = false
is_loaded (other n) = false

abbrev pub stream_sent : Loader → Loader
stream_sent s = record s {
  rows_loaded = (s.rows_loaded + s.rows_in_stream) % 2 ^ 64;
  rows_in_stream = 0;
  stream_pending = false;
}

-- LoadStream, when the stream was sent or not; of a stream that is pending.
pub reset_stream : Oci → Reply → Bool → Load (Unit {0})
reset_stream oci reply false =
    fail oci (codes "direct path stream rejected by Oracle: ") reply.status
reset_stream oci reply true = do
  checked oci (codes "OCIDirPathStreamReset") stream_reset
  change stream_sent

pub send_stream : Oci → Bool → Load (Unit {0})
send_stream oci false = pure tt
send_stream oci true = do
  reply ← ask oci load_stream
  reset_stream oci reply (is_loaded reply.status)

pub load_stream_of : Oci → Load (Unit {0})
load_stream_of oci = do s ← get_loader; send_stream oci s.stream_pending

pub flush : Oci → Load (Unit {0})
flush oci = load_stream_of oci

-- kMaxStreamsWithoutProgress
abbrev pub max_streams_without_progress : ℕ
max_streams_without_progress = 4096

abbrev pub rows_streamed : ℕ → Loader → Loader
rows_streamed n s = record s {
  stream_pending = true;
  rows_in_stream = (s.rows_in_stream + n) % 2 ^ 64;
}

pub column_text : List Bytes → ℕ → Bytes
column_text names n = if ltb n (length names) then get_or names n [] else codes "#" ++ to_decimal n

-- The error of a row that cannot be converted.
pub conversion_failed : Oci → ℕ → Status → Load Bool
conversion_failed oci row_offset status = do
  (text, code) ← error_text oci status
  bad_row ← ask oci (get_number column_array Attribute.row_count)
  bad_col ← ask oci (get_number column_array Attribute.col_count)
  s ← get_loader
  throw (
      oracle_error code (
        codes "direct path conversion failed (row "
        ++ (to_decimal ((row_offset + bad_row.number) % 2 ^ 32)
            ++ (codes " of the batch, column "
                ++ (column_text s.column_names bad_col.number ++ (codes "): " ++ text))))))

pub no_progress : Loader → Fault
no_progress s = oraduck_error (
    codes "a row does not fit in the direct path stream buffer ("
    ++ (to_decimal s.options.stream_buffer_bytes ++ codes " bytes): increase STREAM_SIZE"))

abbrev pub stalled : ℕ → ℕ → ℕ
stalled converted without_progress = if converted == 0 then without_progress + 1 else 0

-- A full stream of `n` rows is sent, unless there were too many without a row.
pub send_rows : Oci → ℕ → ℕ → Bool → Load (ℕ × ℕ)
send_rows oci n without_progress true = do s ← get_loader; throw (no_progress s)
send_rows oci n without_progress false = do
  change (rows_streamed n)
  load_stream_of oci
  pure (n, without_progress)

-- The rows that it has, and the rounds without any.
pub send_full : Oci → ℕ → Load (ℕ × ℕ)
send_full oci without_progress = do
  counted ← checked oci (codes "OCI_ATTR_ROW_COUNT") (get_number column_array Attribute.row_count)
  send_rows oci counted.number (stalled counted.number without_progress)
      (ltb max_streams_without_progress (stalled counted.number without_progress))

-- What the status of a conversion makes of a round.
pub data Round : Type 0 where
  last full failed : Round

pub round_of : Status → Round
round_of success = Round.last
round_of continue_ = Round.full
round_of success_with_info = Round.failed
round_of need_data = Round.failed
round_of no_data = Round.failed
round_of still_executing = Round.failed
round_of invalid_handle = Round.failed
round_of (other n) = Round.failed

-- A round; `next` goes on from the rows that were sent and the rounds without progress.
pub end_round : Oci → ℕ → ℕ → ℕ → (ℕ × ℕ → Load Bool) → Status → Round → Load Bool
end_round oci rows_given row_offset without_progress next status Round.last = do
  change (rows_streamed (rows_given - row_offset))
  pure true
end_round oci rows_given row_offset without_progress next status Round.full = do
  send_full oci without_progress >>= next
end_round oci rows_given row_offset without_progress next status Round.failed =
    conversion_failed oci row_offset status

pub convert_round : Oci → ℕ → ℕ → ℕ → (ℕ × ℕ → Load Bool) → Bool → Load Bool
convert_round oci rows_given row_offset without_progress next false = pure true
convert_round oci rows_given row_offset without_progress next true = do
  reply ← ask oci (to_stream rows_given row_offset)
  end_round oci rows_given row_offset without_progress next reply.status (round_of reply.status)

-- The loop of ConvertAndLoad; `false` if the fuel does not suffice.
pub convert : Oci → ℕ → ℕ → ℕ → ℕ → Load Bool
convert oci zero rows_given row_offset without_progress = pure false
convert oci (suc fuel) rows_given row_offset without_progress =
    convert_round oci rows_given row_offset without_progress
      (λ (sent, stalls). convert oci fuel rows_given ((row_offset + sent) % 2 ^ 32) stalls)
      (ltb row_offset rows_given)

-- More rounds than the loop makes.
abbrev pub convert_fuel : ℕ → ℕ
convert_fuel rows_given = rows_given * 4097 + 4097

pub load_unless : Oci → Bool → Load (Unit {0})
load_unless oci true = pure tt
load_unless oci false = load_stream_of oci

pub convert_and_load : Oci → ℕ → Load Bool
convert_and_load oci rows_given = do
  ended ← convert oci (convert_fuel rows_given) rows_given 0 0
  s ← get_loader
  load_unless oci s.options.accumulate_stream
  pure ended

-- Frees a handle, if it is set.
pub free : Oci → Bool → Handle → Load (Unit {0})
free oci false handle = pure tt
free oci true handle = do ask oci (handle_free handle); pure tt

pub abort_load : Oci → Bool → Load (Unit {0})
abort_load oci false = pure tt
abort_load oci true = do ask oci dirpath_abort; pure tt

abbrev pub cleared : Loader → Loader
cleared s = record s { ca = false; stream = false; ctx = false; contiguous = false; entries = [] }

-- Release
pub release : Oci → Bool → Load (Unit {0})
release oci abort = do
  s ← get_loader
  abort_load oci (abort && (s.ctx && not s.is_done))
  change (λ l. record l { is_done = true })
  free oci s.ca column_array
  free oci s.stream dirpath_stream
  free oci s.ctx dirpath_ctx
  change cleared

pub finish_load : Oci → Load (Unit {0})
finish_load oci = do
  flush oci
  checked oci (codes "OCIDirPathFinish") dirpath_finish
  change (λ l. record l { is_done = true })
  release oci false

pub finish_once : Oci → Bool → Load (Unit {0})
finish_once oci true = throw (oraduck_error (codes "direct path load already finished"))
finish_once oci false = finish_load oci

pub finish : Oci → Load (Unit {0})
finish oci = do s ← get_loader; finish_once oci s.is_done

pub abort : Oci → Load (Unit {0})
abort oci = release oci true

-- ~DirectPathLoader
pub destroy : Oci → Load (Unit {0})
destroy oci = release oci true

-- Opens the loader.
unfoldable pub loader_calls : Unit {0}
unfolding oci_calls ask text_or_ask error_text fail check_reply checked is_loaded reset_stream
    send_stream load_stream_of flush column_text conversion_failed no_progress send_rows send_full
    round_of end_round convert_round convert load_unless convert_and_load free abort_load release
    finish_load finish_once finish abort destroy
loader_calls = tt
