-- ===== src/DirectPathLoader/Rows.antt =====
-- The rows of ConvertAndLoad: none is lost, and the loop ends.
use mathlib.Core.Path.{subst}
use oraduck.Stateful.Inversion.{Returned, >>=-Returned, done_inj}
use oraduck.OciCalls.{
  column_array, Attribute, OciCall, get_number, to_stream, load_stream, stream_reset, Status, Reply,
  Trace, Oci, is_ok,
}
use oraduck.DirectPathLoader.{
  Loader, Load, called, ask, error_text, fail, check_reply, checked, is_loaded, stream_sent,
  reset_stream, send_stream, load_stream_of, max_streams_without_progress, rows_streamed,
  conversion_failed, stalled, send_rows, send_full, Round, round_of, end_round, convert_round,
  convert, load_unless, convert_fuel, convert_and_load,
}
use oraduck.Stateful.{Fault, oracle_error, Outcome, done, fault, throw, resume}
use oraduck.Prelude.{
  ℕ, zero, suc, ◌+◌, ◌-◌, ◌*◌, ◌%◌, ◌^◌, ◌≤◌, ◌<◌, ◌≡◌, refl, sym, ap, ◌∙◌, Bool, true, false, [],
  ◌∷◌, ◌++◌, arith, ltb, ltb→lt, Bytes, codes,
}

-- The documented OCI_ATTR_ROW_COUNT: a conversion of the rows from `offset` on converts none but those.
abbrev pub CountsRows : Oci → Type 0
CountsRows oci =
    (before : Trace) (rows_given offset : ℕ) (reply : Reply)
    → (oci (before ++ ((to_stream rows_given offset, reply) ∷ []))
        (get_number column_array Attribute.row_count)).number
      ≤ rows_given - offset

-- The rows that were converted so far, sent or not.
abbrev pub total : Loader → ℕ
total s = s.rows_loaded + s.rows_in_stream

module _ (oci : Oci) where
  thrown :
      {A B : Type 0} (g : A → Fault) (r : Outcome A × Loader) {b : B} {s' : Loader}
      → resume (λ a. throw (g a)) r ≡ (done b, s')
      → ⊥
  thrown g (done a, s) h = cc
  thrown g (fault e, s) h = cc

  fail-throws :
      {A : Type 0} (what : Bytes) (status : Status) (s : Loader) {a : A} {s' : Loader}
      → Returned (fail oci what status) s a s'
      → ⊥
  unfolding fail
  fail-throws what status s h =
      thrown (λ (t, c). oracle_error c (what ++ t)) (error_text oci status s) h

  check_reply-Returned :
      (what : Bytes) (reply : Reply) (b : Bool) (s : Loader) {r : Reply} {s' : Loader}
      → Returned (check_reply oci what reply b) s r s'
      → (r ≡ reply) × (s' ≡ s)
  unfolding check_reply
  check_reply-Returned what reply true s h = (cc, cc)
  check_reply-Returned what reply false s h =
      absurd (fail-throws (what ++ codes ": ") reply.status s h)

  -- A call that passed its check.
  checked-Returned :
      (what : Bytes) (call : OciCall) (s : Loader) {r : Reply} {s' : Loader}
      → Returned (checked oci what call) s r s'
      → (r ≡ oci s.trace call) × (s' ≡ called s call (oci s.trace call))
  unfolding checked ask
  checked-Returned what call s h =
      check_reply-Returned what (oci s.trace call) (is_ok (oci s.trace call).status)
        (called s call (oci s.trace call)) h

  reset_stream-total :
      (reply : Reply) (b : Bool) (s : Loader) {u : Unit {0}} {s' : Loader}
      → total s < 2 ^ 64
      → Returned (reset_stream oci reply b) s u s'
      → total s' ≡ total s
  unfolding reset_stream
  reset_stream-total reply false s small h =
      absurd (fail-throws (codes "direct path stream rejected by Oracle: ") reply.status s h)
  reset_stream-total reply true s small h =
      let (r, mid, e, last) =
        >>=-Returned (checked oci (codes "OCIDirPathStreamReset") stream_reset) _ s h in
      let (same_reply, same_state) =
        checked-Returned (codes "OCIDirPathStreamReset") stream_reset s e in
      let sent : stream_sent mid ≡ _ = ap (λ p. p.1) last in
      let loaded = ap (λ l. l.rows_loaded) same_state in
      let waiting = ap (λ l. l.rows_in_stream) same_state in
      sym (ap total sent) ∙ omega (arith, loaded, waiting, small)

  send_stream-total :
      (b : Bool) (s : Loader) {u : Unit {0}} {s' : Loader}
      → total s < 2 ^ 64
      → Returned (send_stream oci b) s u s'
      → total s' ≡ total s
  unfolding send_stream ask
  send_stream-total false s small h = sym (ap (λ p. total p.1) h)
  send_stream-total true s small h =
      let reply = oci s.trace load_stream in
      reset_stream-total reply (is_loaded reply.status) (called s load_stream reply) small h

  load_stream_of-total :
      (s : Loader) {u : Unit {0}} {s' : Loader}
      → total s < 2 ^ 64
      → Returned (load_stream_of oci) s u s'
      → total s' ≡ total s
  unfolding load_stream_of
  load_stream_of-total s small h = send_stream-total s.stream_pending s small h

  send_rows-Returned :
      (n stalls : ℕ) (b : Bool) (s : Loader) {c stalls' : ℕ} {s' : Loader}
      → total s + n < 2 ^ 64
      → Returned (send_rows oci n stalls b) s (c, stalls') s'
      → (b ≡ false) × (c ≡ n) × (stalls' ≡ stalls) × (total s' ≡ total s + n)
  unfolding send_rows
  send_rows-Returned n stalls true s small h = cc
  send_rows-Returned n stalls false s {c = c} {stalls' = stalls'} small h =
      let (u, mid, e, last) = >>=-Returned (load_stream_of oci) _ (rows_streamed n s) h in
      let same : (n, stalls) ≡ (c, stalls') = done_inj (n, stalls) mid last in
      let state : mid ≡ _ = ap (λ p. p.1) last in
      (
        refl,
        cc,
        cc,
        sym (ap total state)
            ∙ load_stream_of-total (rows_streamed n s) (omega (arith, small)) e
            ∙ omega (arith, small),
      )

  send_full-Returned :
      (stalls : ℕ) (s : Loader) {c stalls' : ℕ} {s' : Loader}
      → total s + (oci s.trace (get_number column_array Attribute.row_count)).number < 2 ^ 64
      → Returned (send_full oci stalls) s (c, stalls') s'
      → (c ≡ (oci s.trace (get_number column_array Attribute.row_count)).number)
        × (stalls' ≡ stalled c stalls)
        × (stalls' ≤ max_streams_without_progress)
        × (total s' ≡ total s + c)
  unfolding send_full
  send_full-Returned stalls s {c = c} small h =
      let count = get_number column_array Attribute.row_count in
      let n = (oci s.trace count).number in
      let (r, mid, e, last) = >>=-Returned (checked oci (codes "OCI_ATTR_ROW_COUNT") count) _ s h in
      let (reply, state) = checked-Returned (codes "OCI_ATTR_ROW_COUNT") count s e in
      let number : r.number ≡ n = ap (λ q. q.number) reply in
      let kept : total mid ≡ total s = ap total state in
      let (few, sent, stall, sum) =
        send_rows-Returned r.number (stalled r.number stalls)
          (ltb max_streams_without_progress (stalled r.number stalls)) mid
          (omega (arith, number, kept, small)) last in
      let counted : c ≡ r.number = sent in
      (
        sent ∙ number,
        stall ∙ ap (λ x. stalled x stalls) (sym sent),
        not_more (stalled r.number stalls) few stall,
        omega (arith, sum, kept, counted),
      )
    where
      not_more :
          (x : ℕ) {y : ℕ}
          → ltb max_streams_without_progress x ≡ false
          → y ≡ x
          → y ≤ max_streams_without_progress
      not_more x f e = ground (arith, f, e)

  failed-throws :
      (offset : ℕ) (status : Status) (s : Loader) {b : Bool} {s' : Loader}
      → Returned (conversion_failed oci offset status) s b s'
      → ⊥
  unfolding conversion_failed ask
  failed-throws offset status s h =
      let ((text, code), mid, e, last) = >>=-Returned (error_text oci status) _ s h in cc

  -- What a round or the whole loop gives, from a state, an offset and the rounds without progress on.
  abbrev Converts : ℕ → ℕ → ℕ → Loader → Bool → Loader → Type 0
  Converts fuel rows_given offset s b s' = (b ≡ true) × (total s' ≡ total s + (rows_given - offset))

  -- The rounds that are left, at most.
  abbrev rounds : ℕ → ℕ → ℕ → ℕ
  rounds rows_given offset stalls = (rows_given - offset) * 4097 + (4096 - stalls)

  fewer :
      (rows_given c offset stalls stalls' fuel : ℕ)
      → offset < rows_given
      → stalls ≤ 4096
      → rounds rows_given offset stalls < suc fuel
      → c ≤ rows_given - offset
      → stalls' ≡ stalled c stalls
      → stalls' ≤ 4096
      → rounds rows_given (offset + c) stalls' < fuel
  fewer rows_given c offset stalls stalls' fuel o st m within stall bound = ground arith

  module _ (counts_rows : CountsRows oci) (rows_given : ℕ) (few : rows_given < 2 ^ 32) where
    -- One round of the loop, where the rest of the loop does what it should.
    end_round-Converts :
        (fuel offset stalls : ℕ) (next : ℕ × ℕ → Load Bool) (before : Trace) (reply : Reply)
        (r : Round) (s : Loader) {b : Bool} {s' : Loader}
        → s.trace ≡ before ++ ((to_stream rows_given offset, reply) ∷ [])
        → offset < rows_given
        → stalls ≤ 4096
        → rounds rows_given offset stalls < suc fuel
        → total s + (rows_given - offset) < 2 ^ 64
        → ((c stalls' : ℕ) (mid : Loader)
            → offset + c ≤ rows_given
            → stalls' ≤ 4096
            → rounds rows_given (offset + c) stalls' < fuel
            → total mid + (rows_given - (offset + c)) < 2 ^ 64
            → Returned (next (c, stalls')) mid b s'
            → Converts fuel rows_given (offset + c) mid b s')
        → Returned (end_round oci rows_given offset stalls next reply.status r) s b s'
        → Converts (suc fuel) rows_given offset s b s'
    unfolding end_round
    end_round-Converts fuel offset stalls next before reply Round.last s {s' = s'} t o st m small go
          h =
        let state : rows_streamed (rows_given - offset) s ≡ s' = ap (λ p. p.1) h in
        (sym (done_inj _ _ h), sym (ap total state) ∙ omega (arith, small))
    end_round-Converts fuel offset stalls next before reply Round.full s {b = b} {s' = s'} t o st m
          small go h =
        let ((c, stalls'), mid, e, last) = >>=-Returned (send_full oci stalls) next s h in
        let count = get_number column_array Attribute.row_count in
        let at_most : (oci s.trace count).number ≤ rows_given - offset =
          subst (λ x. (oci x count).number ≤ rows_given - offset) (sym t)
            (counts_rows before rows_given offset reply) in
        let (counted, stall, bound, sum) =
          send_full-Returned stalls s (omega (arith, at_most, small)) e in
        let within : c ≤ rows_given - offset = omega (arith, counted, at_most) in
        let (ended, whole) =
          go c stalls' mid (omega (arith, within, o)) bound
            (fewer rows_given c offset stalls stalls' fuel o st m within stall bound)
            (omega (arith, sum, within, o, small)) last in
        (ended, whole ∙ omega (arith, sum, within, o))
    end_round-Converts fuel offset stalls next before reply Round.failed s t o st m small go h =
        absurd (failed-throws offset reply.status s h)

    round-Converts :
        (fuel offset stalls : ℕ) (next : ℕ × ℕ → Load Bool) (more : Bool) (s : Loader) {b : Bool}
        {s' : Loader}
        → ltb offset rows_given ≡ more
        → offset ≤ rows_given
        → stalls ≤ 4096
        → rounds rows_given offset stalls < suc fuel
        → total s + (rows_given - offset) < 2 ^ 64
        → ((c stalls' : ℕ) (mid : Loader)
            → offset + c ≤ rows_given
            → stalls' ≤ 4096
            → rounds rows_given (offset + c) stalls' < fuel
            → total mid + (rows_given - (offset + c)) < 2 ^ 64
            → Returned (next (c, stalls')) mid b s'
            → Converts fuel rows_given (offset + c) mid b s')
        → Returned (convert_round oci rows_given offset stalls next more) s b s'
        → Converts (suc fuel) rows_given offset s b s'
    unfolding convert_round ask
    round-Converts fuel offset stalls next false s e o st m small go h =
        let done_before : rows_given ≤ offset = ground (arith, e) in
        (sym (done_inj _ s h), sym (ap (λ p. total p.1) h) ∙ omega (arith, done_before))
    round-Converts fuel offset stalls next true s e o st m small go h =
        let call = to_stream rows_given offset in
        let reply = oci s.trace call in
        end_round-Converts fuel offset stalls next s.trace reply (round_of reply.status)
          (called s call reply) refl (ltb→lt offset rows_given e) st m small go h

    convert-Converts :
        (fuel offset stalls : ℕ) (s : Loader) {b : Bool} {s' : Loader}
        → offset ≤ rows_given
        → stalls ≤ 4096
        → rounds rows_given offset stalls < fuel
        → total s + (rows_given - offset) < 2 ^ 64
        → Returned (convert oci fuel rows_given offset stalls) s b s'
        → Converts fuel rows_given offset s b s'
    unfolding convert
    convert-Converts zero offset stalls s o st m small h = absurd (omega (arith, m))
    convert-Converts (suc fuel) offset stalls s {b = b} {s' = s'} o st m small h =
        round-Converts fuel offset stalls _ (ltb offset rows_given) s refl o st m small
          (λ c stalls' mid o' st' m' small' h'.
            let unwrapped : (offset + c) % 2 ^ 32 ≡ offset + c = omega (arith, o', few) in
            convert-Converts fuel (offset + c) stalls' mid o' st' m' small'
              (subst (λ x. Returned (convert oci fuel rows_given x stalls') mid b s') unwrapped h'))
          h

    load_unless-total :
        (b : Bool) (s : Loader) {u : Unit {0}} {s' : Loader}
        → total s < 2 ^ 64
        → Returned (load_unless oci b) s u s'
        → total s' ≡ total s
    unfolding load_unless
    load_unless-total true s small h = sym (ap (λ p. total p.1) h)
    load_unless-total false s small h = load_stream_of-total s small h

    -- A ConvertAndLoad that returns, of less than 2^32 rows and with fewer than 2^64 rows in all, has ended its loop
    -- within its rounds and has added exactly the rows of the batch to those loaded or waiting in the stream, if OCI
    -- counts as converted no row but those from the given offset on; so the loop cannot go on for ever without
    -- progress, and no row is lost or counted twice when a stream is full.
    pub convert_and_load-Converts :
        (s : Loader) {b : Bool} {s' : Loader}
        → total s + rows_given < 2 ^ 64
        → Returned (convert_and_load oci rows_given) s b s'
        → (b ≡ true) × (total s' ≡ total s + rows_given)
    unfolding convert_and_load
    convert_and_load-Converts s {b = b} {s' = s'} small h =
        let (ended, mid, e, rest) =
          >>=-Returned (convert oci (convert_fuel rows_given) rows_given 0 0) _ s h in
        let (finished, sum) =
          convert-Converts (convert_fuel rows_given) 0 0 s (omega arith) (omega arith) (omega arith)
            (omega (arith, small)) e in
        let (u, mid', e', last) =
          >>=-Returned (load_unless oci mid.options.accumulate_stream) _ mid rest in
        let state : mid' ≡ s' = ap (λ p. p.1) last in
        (
          sym (done_inj _ mid' last) ∙ finished,
          sym (ap total state)
              ∙ load_unless-total mid.options.accumulate_stream mid (omega (arith, sum, small)) e'
              ∙ omega (arith, sum),
        )
