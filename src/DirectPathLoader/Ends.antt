-- ===== src/DirectPathLoader/Ends.antt =====
-- How a load ends: once, committed or aborted.
use mathlib.Core.Path.{subst}
use oraduck.Stateful.Inversion.{>>=-always}
use oraduck.DirectPathLoader.Traces.{
  Counted, counts, is_abort, is_commit, freed_kind, times, times-called, Quiet, Quiet-refl,
  fail-Quiet, refused-Quiet, load_stream_of-Quiet, convert_and_load-Quiet,
}
use oraduck.DirectPathLoader.Cells.{set_entry, set_entry-Quiet}
use oraduck.OciCalls.{
  Handle, dirpath_ctx, column_array, dirpath_stream, handle_free, dirpath_finish, dirpath_abort,
  Status, Reply, Oci, is_ok,
}
use oraduck.DirectPathLoader.{
  Loader, Load, change, called, ask, error_text, fail, check_reply, checked, load_stream_of, flush,
  convert_and_load, free, abort_load, cleared, release, finish_load, finish_once, finish, abort,
  destroy,
}
use oraduck.Stateful.{oracle_error, Outcome, done, fault, throw, resume, ◌>>=◌, ◌>>◌}
use oraduck.Prelude.{
  ℕ, ◌+◌, ◌≡◌, refl, sym, ap, ◌∙◌, ◌⊎◌, inl, inr, Bool, true, false, not, ◌&&◌, Option, List, [],
  ◌∷◌, ◌++◌, arith, if◌then◌else◌, Bytes, codes,
}

-- An open load: all handles are there, and nothing is committed, aborted or freed yet.
pub record Alive (s : Loader) : Type 0 where
  pub open_done : s.is_done ≡ false
  pub open_ctx : s.ctx ≡ true
  pub open_ca : s.ca ≡ true
  pub open_stream : s.stream ≡ true
  pub open_times : (k : Counted) → times k s ≡ 0

-- A load that has ended: by one commit or one abort, and each handle was freed once.
pub record Closed (s : Loader) : Type 0 where
  pub shut_done : s.is_done ≡ true
  pub shut_ctx : s.ctx ≡ false
  pub shut_ca : s.ca ≡ false
  pub shut_stream : s.stream ≡ false
  pub one_end : times Counted.aborts s + times Counted.commits s ≡ 1
  pub one_ctx_free : times Counted.ctx_frees s ≡ 1
  pub one_ca_free : times Counted.ca_frees s ≡ 1
  pub one_stream_free : times Counted.stream_frees s ≡ 1

Quiet-Alive : {before s : Loader} → Alive before → Quiet before s → Alive s
Quiet-Alive a q = record {
  open_done = q.same_done ∙ a.open_done;
  open_ctx = q.same_ctx ∙ a.open_ctx;
  open_ca = q.same_ca ∙ a.open_ca;
  open_stream = q.same_stream ∙ a.open_stream;
  open_times = λ k. q.same_times k ∙ a.open_times k;
}

Quiet-Closed : {before s : Loader} → Closed before → Quiet before s → Closed s
Quiet-Closed c q = record {
  shut_done = q.same_done ∙ c.shut_done;
  shut_ctx = q.same_ctx ∙ c.shut_ctx;
  shut_ca = q.same_ca ∙ c.shut_ca;
  shut_stream = q.same_stream ∙ c.shut_stream;
  one_end = omega (arith, q.same_times Counted.aborts, q.same_times Counted.commits, c.one_end);
  one_ctx_free = q.same_times Counted.ctx_frees ∙ c.one_ctx_free;
  one_ca_free = q.same_times Counted.ca_frees ∙ c.one_ca_free;
  one_stream_free = q.same_times Counted.stream_frees ∙ c.one_stream_free;
}

-- A load is open, or it has ended in one way.
abbrev pub Inv : Loader → Type 0
Inv s = Alive s ⊎ Closed s

module _ (oci : Oci) where
  abbrev with_free : Bool → Handle → Loader → Loader
  with_free b h s = if b then called s (handle_free h) (oci s.trace (handle_free h)) else s

  abbrev with_abort : Bool → Loader → Loader
  with_abort b s = if b then called s dirpath_abort (oci s.trace dirpath_abort) else s

  free_lem : (b : Bool) (h : Handle) (s : Loader) → free oci b h s ≡ (done tt, with_free b h s)
  unfolding free ask
  free_lem false h s = refl
  free_lem true h s = refl

  abort_load_lem : (b : Bool) (s : Loader) → abort_load oci b s ≡ (done tt, with_abort b s)
  unfolding abort_load ask
  abort_load_lem false s = refl
  abort_load_lem true s = refl

  times-with_free :
      (k : Counted) (b : Bool) (h : Handle) (s : Loader)
      → times k (with_free b h s)
        ≡ times k s + (if b && counts k (handle_free h, oci s.trace (handle_free h)) then 1 else 0)
  times-with_free k false h s = omega arith
  times-with_free k true h s = times-called k s (handle_free h) (oci s.trace (handle_free h))

  with_free-is_done : (b : Bool) (h : Handle) (s : Loader) → (with_free b h s).is_done ≡ s.is_done
  with_free-is_done false h s = refl
  with_free-is_done true h s = refl

  times-with_abort :
      (k : Counted) (b : Bool) (s : Loader)
      → times k (with_abort b s)
        ≡ times k s + (if b && counts k (dirpath_abort, oci s.trace dirpath_abort) then 1 else 0)
  times-with_abort k false s = omega arith
  times-with_abort k true s = times-called k s dirpath_abort (oci s.trace dirpath_abort)

  -- What Release leaves.
  abbrev released : Bool → Loader → Loader
  released by_abort s = cleared (
      with_free s.ctx dirpath_ctx (
        with_free s.stream dirpath_stream (
          with_free s.ca column_array
            (record (with_abort (by_abort && (s.ctx && not s.is_done)) s) { is_done = true }))))

  release_lem :
      (by_abort : Bool) (s : Loader) → release oci by_abort s ≡ (done tt, released by_abort s)
  unfolding release
  release_lem by_abort s =
      rw
        (
          abort_load_lem (by_abort && (s.ctx && not s.is_done)) s,
          free_lem s.ca column_array,
          free_lem s.stream dirpath_stream,
          free_lem s.ctx dirpath_ctx,
        )
        refl

  released-Closed :
      (by_abort : Bool) (s : Loader)
      → s.ctx ≡ true
      → s.ca ≡ true
      → s.stream ≡ true
      → times Counted.aborts s
          + (times Counted.commits s + (if by_abort && not s.is_done then 1 else 0))
        ≡ 1
      → times Counted.ctx_frees s ≡ 0
      → times Counted.ca_frees s ≡ 0
      → times Counted.stream_frees s ≡ 0
      → Closed (released by_abort s)
  unfolding counts is_abort is_commit freed_kind
  released-Closed by_abort s x a t e fx fa ft =
      let aborting = by_abort && (s.ctx && not s.is_done) in
      let s1 : Loader = record (with_abort aborting s) { is_done = true } in
      let s2 = with_free s.ca column_array s1 in
      let s3 = with_free s.stream dirpath_stream s2 in
      let q0 = λ (k : Counted). times-with_abort k aborting s in
      let q1 = λ (k : Counted). times-with_free k s.ca column_array s1 in
      let q2 = λ (k : Counted). times-with_free k s.stream dirpath_stream s2 in
      let q3 = λ (k : Counted). times-with_free k s.ctx dirpath_ctx s3 in
      record {
        shut_done =
            with_free-is_done s.ctx dirpath_ctx s3
            ∙ with_free-is_done s.stream dirpath_stream s2
            ∙ with_free-is_done s.ca column_array s1;
        shut_ctx = refl;
        shut_ca = refl;
        shut_stream = refl;
        one_end = ground (
          arith,
          q0 Counted.aborts,
          q1 Counted.aborts,
          q2 Counted.aborts,
          q3 Counted.aborts,
          q0 Counted.commits,
          q1 Counted.commits,
          q2 Counted.commits,
          q3 Counted.commits,
          x,
          e,
        );
        one_ctx_free = ground (
          arith,
          q0 Counted.ctx_frees,
          q1 Counted.ctx_frees,
          q2 Counted.ctx_frees,
          q3 Counted.ctx_frees,
          x,
          a,
          t,
          fx,
        );
        one_ca_free = ground (
          arith,
          q0 Counted.ca_frees,
          q1 Counted.ca_frees,
          q2 Counted.ca_frees,
          q3 Counted.ca_frees,
          x,
          a,
          t,
          fa,
        );
        one_stream_free = ground (
          arith,
          q0 Counted.stream_frees,
          q1 Counted.stream_frees,
          q2 Counted.stream_frees,
          q3 Counted.stream_frees,
          x,
          a,
          t,
          ft,
        );
      }

  with_free-shut : (b : Bool) (h : Handle) (s : Loader) → b ≡ false → with_free b h s ≡ s
  with_free-shut b h s e = rw e refl

  -- Release of a load that has ended does nothing that counts.
  release_again : (by_abort : Bool) (s : Loader) → Closed s → Closed ((release oci by_abort s).1)
  release_again by_abort s c =
      let aborting = by_abort && (s.ctx && not s.is_done) in
      let s1 : Loader = record (with_abort aborting s) { is_done = true } in
      let s2 = with_free s.ca column_array s1 in
      let s3 = with_free s.stream dirpath_stream s2 in
      let idle : aborting ≡ false = ground (arith, c.shut_ctx) in
      let left : with_free s.ctx dirpath_ctx s3 ≡ s1 =
        with_free-shut s.ctx dirpath_ctx s3 c.shut_ctx
        ∙ with_free-shut s.stream dirpath_stream s2 c.shut_stream
        ∙ with_free-shut s.ca column_array s1 c.shut_ca in
      let same : (k : Counted) → times k (with_free s.ctx dirpath_ctx s3) ≡ times k s =
        (λ k. ap (times k) left ∙ times-with_abort k aborting s ∙ (rw idle (omega arith))) in
      rw (release_lem by_abort s) (record {
        shut_done = ap (λ l. l.is_done) left;
        shut_ctx = refl;
        shut_ca = refl;
        shut_stream = refl;
        one_end = omega (arith, same Counted.aborts, same Counted.commits, c.one_end);
        one_ctx_free = same Counted.ctx_frees ∙ c.one_ctx_free;
        one_ca_free = same Counted.ca_frees ∙ c.one_ca_free;
        one_stream_free = same Counted.stream_frees ∙ c.one_stream_free;
      })

  -- An open load that is released with an abort.
  release_open : (s : Loader) → Alive s → Closed ((release oci true s).1)
  release_open s a = rw (release_lem true s) (
      released-Closed true s a.open_ctx a.open_ca a.open_stream
        (ground (arith, a.open_times Counted.aborts, a.open_times Counted.commits, a.open_done))
        (a.open_times Counted.ctx_frees) (a.open_times Counted.ca_frees)
        (a.open_times Counted.stream_frees))

  -- A load whose OCIDirPathFinish succeeded.
  release_committed :
      (s : Loader) (reply : Reply)
      → Alive s
      → is_ok reply.status ≡ true
      → Closed ((release oci false (record (called s dirpath_finish reply) { is_done = true })).1)
  unfolding counts is_abort is_commit freed_kind
  release_committed s reply a ok =
      let t : Loader = record (called s dirpath_finish reply) { is_done = true } in
      let count = λ (k : Counted). times-called k s dirpath_finish reply in
      rw (release_lem false t) (
        released-Closed false t a.open_ctx a.open_ca a.open_stream
          (ground (
            arith,
            count Counted.aborts,
            count Counted.commits,
            ok,
            a.open_times Counted.aborts,
            a.open_times Counted.commits,
          ))
          (count Counted.ctx_frees ∙ (omega (arith, a.open_times Counted.ctx_frees)))
          (count Counted.ca_frees ∙ (omega (arith, a.open_times Counted.ca_frees)))
          (count Counted.stream_frees ∙ (omega (arith, a.open_times Counted.stream_frees))))

  fail_stops :
      {A B : Type 0} (what : Bytes) (status : Status) (f : A → Load B) (s : Loader)
      → ((fail oci what status >>= f) s).1 ≡ (fail oci what status {A = B} s).1
  unfolding fail
  fail_stops {A} {B} what status f s = stops (error_text oci status s)
    where
      stops :
          (r : Outcome (Bytes × ℕ) × Loader)
          → (resume f (resume (λ (t, c). throw (oracle_error c (what ++ t))) r)).1
            ≡ (resume {B = B} (λ (t, c). throw (oracle_error c (what ++ t))) r).1
      stops (done (t, c), s) = refl
      stops (fault e, s) = refl

  -- What Finish does when the last stream is sent.
  abbrev commit : Load (Unit {0})
  commit =
      checked oci (codes "OCIDirPathFinish") dirpath_finish
      >> (change (λ l. record l { is_done = true }) >> release oci false)

  commit-Inv : (s : Loader) → Alive s → Inv ((commit s).1)
  unfolding checked check_reply ask
  commit-Inv s a = by_reply (is_ok reply.status) refl
    where
      reply : Reply
      reply = oci s.trace dirpath_finish

      by_reply :
          (b : Bool)
          → is_ok reply.status ≡ b
          → Inv (
              (◌>>◌
                (check_reply oci (codes "OCIDirPathFinish") reply b)
                (change (λ l. record l { is_done = true }) >> release oci false)
                (called s dirpath_finish reply)).1)
      by_reply true ok = inr (release_committed s reply a ok)
      by_reply false bad =
          subst Inv
            (sym (
              fail_stops (codes "OCIDirPathFinish" ++ codes ": ") reply.status _
                (called s dirpath_finish reply)))
            (inl (
              Quiet-Alive a (
                fail-Quiet oci s (Unit {0}) (codes "OCIDirPathFinish" ++ codes ": ") reply.status
                  (called s dirpath_finish reply)
                  (refused-Quiet oci s s reply bad (Quiet-refl s)))))

  finish_load-Inv : (s : Loader) → Alive s → Inv ((finish_load oci s).1)
  unfolding finish_load flush
  finish_load-Inv s a =
      >>=-always Inv (load_stream_of oci) (λ u. commit) s
        (λ e mid h. inl (flushed mid (ap (λ r. r.1) h)))
        (λ u mid h. commit-Inv mid (flushed mid (ap (λ r. r.1) h)))
    where
      flushed : (mid : Loader) → (load_stream_of oci s).1 ≡ mid → Alive mid
      flushed mid h = subst Alive h (Quiet-Alive a (load_stream_of-Quiet oci s s (Quiet-refl s)))

  finish_once-Inv : (b : Bool) (s : Loader) → s.is_done ≡ b → Inv s → Inv ((finish_once oci b s).1)
  unfolding finish_once
  finish_once-Inv true s e i = i
  finish_once-Inv false s e (inl a) = finish_load-Inv s a
  finish_once-Inv false s e (inr c) = let clash : true ≡ false = sym c.shut_done ∙ e in cc

  finish-Inv : (s : Loader) → Inv s → Inv ((finish oci s).1)
  unfolding finish
  finish-Inv s i = finish_once-Inv s.is_done s refl i

  release-Closed : (s : Loader) → Inv s → Closed ((release oci true s).1)
  release-Closed s (inl a) = release_open s a
  release-Closed s (inr c) = release_again true s c

  Quiet-Inv : (s s' : Loader) → Inv s → Quiet s s' → Inv s'
  Quiet-Inv s s' (inl a) q = inl (Quiet-Alive a q)
  Quiet-Inv s s' (inr c) q = inr (Quiet-Closed c q)

-- What is done with a load between its constructor and its destructor.
pub data Use : Type 0 where
  set_cell : ℕ → ℕ → Option Bytes → ℕ → ℕ → Use
  load_rows : ℕ → Use
  flush_stream finish_it abort_it : Use

-- The state after a use, returned or thrown.
pub after_use : Oci → Use → Loader → Loader
after_use oci (set_cell row col bytes len flag) s = (set_entry oci row col bytes len flag s).1
after_use oci (load_rows n) s = (convert_and_load oci n s).1
after_use oci flush_stream s = (flush oci s).1
after_use oci finish_it s = (finish oci s).1
after_use oci abort_it s = (abort oci s).1

pub after_uses : Oci → List Use → Loader → Loader
after_uses oci [] s = s
after_uses oci (u ∷ us) s = after_uses oci us (after_use oci u s)

after_use-Inv : (oci : Oci) (u : Use) (s : Loader) → Inv s → Inv (after_use oci u s)
unfolding after_use flush abort
after_use-Inv oci (set_cell row col bytes len flag) s i =
    Quiet-Inv oci s _ i (set_entry-Quiet oci s row col bytes len flag s (Quiet-refl s))
after_use-Inv oci (load_rows n) s i =
    Quiet-Inv oci s _ i (convert_and_load-Quiet oci s n s (Quiet-refl s))
after_use-Inv oci flush_stream s i =
    Quiet-Inv oci s _ i (load_stream_of-Quiet oci s s (Quiet-refl s))
after_use-Inv oci finish_it s i = finish-Inv oci s i
after_use-Inv oci abort_it s i = inr (release-Closed oci s i)

after_uses-Inv : (oci : Oci) (us : List Use) (s : Loader) → Inv s → Inv (after_uses oci us s)
unfolding after_uses
after_uses-Inv oci [] s i = i
after_uses-Inv oci (u ∷ us) s i =
    after_uses-Inv oci us (after_use oci u s) (after_use-Inv oci u s i)

-- An open load that is used and destroyed has ended in one way.
pub destroy-Closed :
    (oci : Oci) (us : List Use) (s : Loader)
    → Alive s
    → Closed ((destroy oci (after_uses oci us s)).1)
unfolding destroy
destroy-Closed oci us s a =
    release-Closed oci (after_uses oci us s) (after_uses-Inv oci us s (inl a))
