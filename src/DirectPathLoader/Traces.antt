-- ===== src/DirectPathLoader/Traces.antt =====
-- What the operations of a load do to the calls that are counted.
use oraduck.Stateful.Inversion.{Keeps, >>=-Keeps}
use oraduck.OciCalls.{
  dirpath_ctx, column_array, dirpath_stream, Attribute, OciCall, handle_free, get_number, to_stream,
  error_get, load_stream, stream_reset, dirpath_finish, dirpath_abort, Status, Reply, Oci, is_ok,
  known_error,
}
use oraduck.DirectPathLoader.{
  Loader, Load, change, called, ask, text_or_ask, error_text, fail, check_reply, checked, is_loaded,
  stream_sent, reset_stream, send_stream, load_stream_of, rows_streamed, conversion_failed, stalled,
  send_rows, send_full, Round, round_of, end_round, convert_round, convert, load_unless,
  convert_fuel, convert_and_load,
}
use oraduck.Stateful.{pure, ◌>>=◌}
use oraduck.Prelude.{
  ℕ, zero, suc, ◌+◌, ◌-◌, ◌%◌, ◌^◌, ◌≡◌, refl, ap, ◌∙◌, Bool, true, false, Option, none, some, [],
  ◌∷◌, ◌++◌, arith, ltb, if◌then◌else◌, count_if, count_if-append, Bytes, codes,
}

-- The calls that are counted.
pub data Counted : Type 0 where
  aborts commits ctx_frees ca_frees stream_frees : Counted

unfoldable pub is_commit : OciCall → Status → Bool
unfolding is_ok
is_commit dirpath_finish status = is_ok status
is_commit _ status = false

unfoldable pub is_abort : OciCall → Bool
is_abort dirpath_abort = true
is_abort _ = false

-- Whether a call frees a handle: of the context, the column array, the stream.
unfoldable pub freed_kind : OciCall → Bool × Bool × Bool
freed_kind (handle_free dirpath_ctx) = (true, false, false)
freed_kind (handle_free column_array) = (false, true, false)
freed_kind (handle_free dirpath_stream) = (false, false, true)
freed_kind _ = (false, false, false)

unfoldable pub counts : Counted → OciCall × Reply → Bool
unfolding is_commit is_abort freed_kind
counts Counted.aborts (call, reply) = is_abort call
counts Counted.commits (call, reply) = is_commit call reply.status
counts Counted.ctx_frees (call, reply) = (freed_kind call).0
counts Counted.ca_frees (call, reply) = (freed_kind call).1
counts Counted.stream_frees (call, reply) = (freed_kind call).2

-- How often, up to now.
abbrev pub times : Counted → Loader → ℕ
times k s = count_if (counts k) s.trace

pub times-called :
    (k : Counted) (s : Loader) (call : OciCall) (reply : Reply)
    → times k (called s call reply) ≡ times k s + (if counts k (call, reply) then 1 else 0)
times-called k s call reply = omega (arith, count_if-append (counts k) s.trace ((call, reply) ∷ []))

-- Nothing that is counted has happened since.
pub record Quiet (before s : Loader) : Type 0 where
  pub same_times : (k : Counted) → times k s ≡ times k before
  pub same_done : s.is_done ≡ before.is_done
  pub same_ctx : s.ctx ≡ before.ctx
  pub same_ca : s.ca ≡ before.ca
  pub same_stream : s.stream ≡ before.stream

pub Quiet-refl : (s : Loader) → Quiet s s
Quiet-refl s = record {
  same_times = λ k. refl;
  same_done = refl;
  same_ctx = refl;
  same_ca = refl;
  same_stream = refl;
}

abbrev pub Silent : OciCall → Type 0
Silent call = (k : Counted) (reply : Reply) → counts k (call, reply) ≡ false

pub silent :
    (call : OciCall)
    → is_abort call ≡ false
    → ((status : Status) → is_commit call status ≡ false)
    → freed_kind call ≡ (false, false, false)
    → Silent call
unfolding counts
silent call a c f Counted.aborts reply = a
silent call a c f Counted.commits reply = c reply.status
silent call a c f Counted.ctx_frees reply = ap (λ t. t.0) f
silent call a c f Counted.ca_frees reply = ap (λ t. t.1) f
silent call a c f Counted.stream_frees reply = ap (λ t. t.2) f

module _ (oci : Oci) (before : Loader) where
  -- An operation that counts nothing.
  abbrev pub IsQuiet : {A : Type 0} → Load A → Type 0
  IsQuiet m = Keeps (Quiet before) m

  pub change-Quiet :
      (f : Loader → Loader)
      → ((s : Loader) → (f s).trace ≡ s.trace)
      → ((s : Loader)
          → ((f s).is_done ≡ s.is_done)
            × ((f s).ctx ≡ s.ctx)
            × ((f s).ca ≡ s.ca)
            × ((f s).stream ≡ s.stream))
      → IsQuiet (change f)
  change-Quiet f t h s q = record {
    same_times = λ k. ap (count_if (counts k)) (t s) ∙ q.same_times k;
    same_done = (h s).0 ∙ q.same_done;
    same_ctx = (h s).1 ∙ q.same_ctx;
    same_ca = (h s).2 ∙ q.same_ca;
    same_stream = (h s).3 ∙ q.same_stream;
  }

  pub ask-Quiet : (call : OciCall) → Silent call → IsQuiet (ask oci call)
  unfolding ask
  ask-Quiet call silent s q = record {
    same_times = λ k.
        times-called k s call (oci s.trace call)
        ∙ (rw (silent k (oci s.trace call)) (omega (arith, q.same_times k)));
    same_done = q.same_done;
    same_ctx = q.same_ctx;
    same_ca = q.same_ca;
    same_stream = q.same_stream;
  }

  -- OCIDirPathFinish that is refused counts nothing.
  pub refused-Quiet :
      (s : Loader) (reply : Reply)
      → is_ok reply.status ≡ false
      → Quiet before s
      → Quiet before (called s dirpath_finish reply)
  unfolding counts is_abort is_commit freed_kind
  refused-Quiet s reply bad q = record {
    same_times = λ k. times-called k s dirpath_finish reply ∙ (uncounted k ∙ q.same_times k);
    same_done = q.same_done;
    same_ctx = q.same_ctx;
    same_ca = q.same_ca;
    same_stream = q.same_stream;
  }
    where
      uncounted :
          (k : Counted)
          → times k s + (if counts k (dirpath_finish, reply) then 1 else 0) ≡ times k s
      uncounted Counted.aborts = omega arith
      uncounted Counted.commits = rw bad (omega arith)
      uncounted Counted.ctx_frees = omega arith
      uncounted Counted.ca_frees = omega arith
      uncounted Counted.stream_frees = omega arith

  text_or_ask-Quiet :
      (status : Status) (known : Option Bytes) → IsQuiet (text_or_ask oci status known)
  unfolding text_or_ask is_abort is_commit freed_kind
  text_or_ask-Quiet status (some text) = λ s q. q
  text_or_ask-Quiet status none =
      >>=-Keeps (Quiet before) (ask oci error_get) _
        (ask-Quiet error_get (silent error_get refl (λ x. refl) refl)) (λ r s q. q)

  error_text-Quiet : (status : Status) → IsQuiet (error_text oci status)
  unfolding error_text
  error_text-Quiet status = text_or_ask-Quiet status (known_error status)

  pub fail-Quiet :
      (A : Type 0) (what : Bytes) (status : Status) → IsQuiet {A = A} (fail oci what status)
  unfolding fail
  fail-Quiet A what status =
      >>=-Keeps (Quiet before) (error_text oci status) _ (error_text-Quiet status) (λ r s q. q)

  check_reply-Quiet :
      (what : Bytes) (reply : Reply) (b : Bool) → IsQuiet (check_reply oci what reply b)
  unfolding check_reply
  check_reply-Quiet what reply true = λ s q. q
  check_reply-Quiet what reply false = fail-Quiet Reply (what ++ codes ": ") reply.status

  pub checked-Quiet :
      (what : Bytes) (call : OciCall) → Silent call → IsQuiet (checked oci what call)
  unfolding checked
  checked-Quiet what call silent_call =
      >>=-Keeps (Quiet before) (ask oci call) _ (ask-Quiet call silent_call)
        (λ r. check_reply-Quiet what r (is_ok r.status))

  reset_stream-Quiet : (reply : Reply) (b : Bool) → IsQuiet (reset_stream oci reply b)
  unfolding reset_stream is_abort is_commit freed_kind
  reset_stream-Quiet reply false =
      fail-Quiet (Unit {0}) (codes "direct path stream rejected by Oracle: ") reply.status
  reset_stream-Quiet reply true =
      >>=-Keeps (Quiet before) (checked oci (codes "OCIDirPathStreamReset") stream_reset) _
        (checked-Quiet (codes "OCIDirPathStreamReset") stream_reset
          (silent stream_reset refl (λ x. refl) refl))
        (λ r. change-Quiet stream_sent (λ s. refl) (λ s. (refl, refl, refl, refl)))

  send_stream-Quiet : (b : Bool) → IsQuiet (send_stream oci b)
  unfolding send_stream is_abort is_commit freed_kind
  send_stream-Quiet false = λ s q. q
  send_stream-Quiet true =
      >>=-Keeps (Quiet before) (ask oci load_stream) _
        (ask-Quiet load_stream (silent load_stream refl (λ x. refl) refl))
        (λ r. reset_stream-Quiet r (is_loaded r.status))

  pub load_stream_of-Quiet : IsQuiet (load_stream_of oci)
  unfolding load_stream_of
  load_stream_of-Quiet s = send_stream-Quiet s.stream_pending s

  send_rows-Quiet : (n stalls : ℕ) (b : Bool) → IsQuiet (send_rows oci n stalls b)
  unfolding send_rows
  send_rows-Quiet n stalls true = λ s q. q
  send_rows-Quiet n stalls false =
      >>=-Keeps (Quiet before) (change (rows_streamed n))
        (λ u. load_stream_of oci >>= λ v. pure (n, stalls))
        (change-Quiet (rows_streamed n) (λ s. refl) (λ s. (refl, refl, refl, refl)))
        (λ u.
          >>=-Keeps (Quiet before) (load_stream_of oci) (λ v. pure (n, stalls)) load_stream_of-Quiet
            (λ v s q. q))

  send_full-Quiet : (stalls : ℕ) → IsQuiet (send_full oci stalls)
  unfolding send_full is_abort is_commit freed_kind
  send_full-Quiet stalls =
      let count = get_number column_array Attribute.row_count in
      >>=-Keeps (Quiet before) (checked oci (codes "OCI_ATTR_ROW_COUNT") count) _
        (checked-Quiet (codes "OCI_ATTR_ROW_COUNT") count (silent count refl (λ x. refl) refl))
        (λ r. send_rows-Quiet r.number (stalled r.number stalls) _)

  conversion_failed-Quiet :
      (row_offset : ℕ) (status : Status) → IsQuiet (conversion_failed oci row_offset status)
  unfolding conversion_failed is_abort is_commit freed_kind
  conversion_failed-Quiet row_offset status =
      let rows_of = get_number column_array Attribute.row_count in
      let cols_of = get_number column_array Attribute.col_count in
      >>=-Keeps (Quiet before) (error_text oci status) _ (error_text-Quiet status) (λ t.
        >>=-Keeps (Quiet before) (ask oci rows_of) _
          (ask-Quiet rows_of (silent rows_of refl (λ x. refl) refl))
          (λ r.
            >>=-Keeps (Quiet before) (ask oci cols_of) _
              (ask-Quiet cols_of (silent cols_of refl (λ x. refl) refl)) (λ c s q. q)))

  end_round-Quiet :
      (rows_given row_offset stalls : ℕ) (next : ℕ × ℕ → Load Bool) (status : Status) (r : Round)
      → ((x : ℕ × ℕ) → IsQuiet (next x))
      → IsQuiet (end_round oci rows_given row_offset stalls next status r)
  unfolding end_round
  end_round-Quiet rows_given row_offset stalls next status Round.last h =
      >>=-Keeps (Quiet before) (change (rows_streamed (rows_given - row_offset))) (λ u. pure true)
        (change-Quiet (rows_streamed (rows_given - row_offset)) (λ s. refl)
          (λ s. (refl, refl, refl, refl)))
        (λ u s q. q)
  end_round-Quiet rows_given row_offset stalls next status Round.full h =
      >>=-Keeps (Quiet before) (send_full oci stalls) next (send_full-Quiet stalls) h
  end_round-Quiet rows_given row_offset stalls next status Round.failed h =
      conversion_failed-Quiet row_offset status

  convert_round-Quiet :
      (rows_given row_offset stalls : ℕ) (next : ℕ × ℕ → Load Bool) (b : Bool)
      → ((x : ℕ × ℕ) → IsQuiet (next x))
      → IsQuiet (convert_round oci rows_given row_offset stalls next b)
  unfolding convert_round is_abort is_commit freed_kind
  convert_round-Quiet rows_given row_offset stalls next false h = λ s q. q
  convert_round-Quiet rows_given row_offset stalls next true h =
      let call = to_stream rows_given row_offset in
      >>=-Keeps (Quiet before) (ask oci call) _ (ask-Quiet call (silent call refl (λ x. refl) refl))
        (λ r. end_round-Quiet rows_given row_offset stalls next r.status (round_of r.status) h)

  convert-Quiet :
      (fuel rows_given row_offset stalls : ℕ)
      → IsQuiet (convert oci fuel rows_given row_offset stalls)
  unfolding convert
  convert-Quiet zero rows_given row_offset stalls = λ s q. q
  convert-Quiet (suc fuel) rows_given row_offset stalls =
      convert_round-Quiet rows_given row_offset stalls _ (ltb row_offset rows_given)
        (λ x. convert-Quiet fuel rows_given ((row_offset + x.0) % 2 ^ 32) x.1)

  load_unless-Quiet : (b : Bool) → IsQuiet (load_unless oci b)
  unfolding load_unless
  load_unless-Quiet true = λ s q. q
  load_unless-Quiet false = load_stream_of-Quiet

  pub convert_and_load-Quiet : (rows_given : ℕ) → IsQuiet (convert_and_load oci rows_given)
  unfolding convert_and_load
  convert_and_load-Quiet rows_given =
      >>=-Keeps (Quiet before) (convert oci (convert_fuel rows_given) rows_given 0 0) _
        (convert-Quiet (convert_fuel rows_given) rows_given 0 0)
        (λ ended s q.
          >>=-Keeps (Quiet before) (load_unless oci s.options.accumulate_stream) (λ u. pure ended)
            (load_unless-Quiet s.options.accumulate_stream) (λ u t p. p) s q)
