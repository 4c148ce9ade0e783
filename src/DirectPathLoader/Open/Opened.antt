-- ===== src/DirectPathLoader/Open/Opened.antt =====
-- What a constructor that returned leaves: an open load.
use mathlib.Core.Path.{subst}
use oraduck.Stateful.{pure, throw, ◌>>=◌, ◌>>◌}
use oraduck.Stateful.Inversion.{Returned, >>=-Keeps, >>=-Returned, catch-Returned}
use oraduck.ColumnPlan.{DirPathColumnSpec}
use oraduck.OciCalls.{
  dirpath_ctx, column_array, dirpath_stream, column, Attribute, OciCall, handle_alloc, set_text,
  set_number, get_number, param_get, descriptor_free, row_get, dirpath_prepare, Reply, Status, Oci,
}
use oraduck.DirectPathLoader.{LoaderOptions, Loader, Load, ask, checked, release, destroy}
use oraduck.DirectPathLoader.Traces.{
  Counted, is_abort, is_commit, freed_kind, times, Quiet, Quiet-refl, silent, IsQuiet, change-Quiet,
  ask-Quiet, checked-Quiet,
}
use oraduck.DirectPathLoader.Ends.{Alive, Closed, Use, after_uses, destroy-Closed}
use oraduck.DirectPathLoader.Open.{
  dir_path_identifier, new_loader, set_column, set_columns, detect_contiguous_arrays, detect_rows,
  skip_indexes, set_context, open_context, open_column_array, open_stream, prepare, read_sizes,
  open_body, open_loader, set_date_format,
}
use oraduck.Prelude.{
  ℕ, ◌+◌, ◌-◌, ◌%◌, ◌^◌, ◌≡◌, refl, ap, ◌∙◌, inl, inr, Bool, true, false, ◌||◌, List, [], ◌∷◌, ltb,
  if◌then◌else◌, length, is_empty, Bytes, codes,
}

-- A call that is no abort, no commit and frees nothing.
abbrev Plain : OciCall → Type 0
Plain call =
    (is_abort call ≡ false)
    × ((status : Status) → is_commit call status ≡ false)
    × (freed_kind call ≡ (false, false, false))

module _ (oci : Oci) (before : Loader) where
  -- A checked call of the constructor and what follows it.
  checked_then :
      {A : Type 0} (what : Bytes) (call : OciCall) (f : Reply → Load A)
      → Plain call
      → ((r : Reply) → IsQuiet oci before (f r))
      → IsQuiet oci before (checked oci what call >>= f)
  checked_then what call f s go =
      >>=-Keeps (Quiet before) (checked oci what call) f
        (checked-Quiet oci before what call (silent call s.0 s.1 s.2)) go

  set_date_format-Quiet :
      (n : ℕ) (t : Bytes) (b : Bool) → IsQuiet oci before (set_date_format oci n t b)
  unfolding set_date_format is_abort is_commit freed_kind
  set_date_format-Quiet n t true = λ s q. q
  set_date_format-Quiet n t false =
      checked_then _ (set_text (column n) Attribute.dateformat t) _ (refl, λ x. refl, refl)
        (λ r s q. q)

  skip_indexes-Quiet : (b : Bool) → IsQuiet oci before (skip_indexes oci b)
  unfolding skip_indexes is_abort is_commit freed_kind
  skip_indexes-Quiet false = λ s q. q
  skip_indexes-Quiet true =
      checked_then _ (set_number dirpath_ctx Attribute.skipindex_method 4) _ (refl, λ x. refl, refl)
        (λ r s q. q)

  set_column-Quiet : (n : ℕ) (spec : DirPathColumnSpec) → IsQuiet oci before (set_column oci n spec)
  unfolding set_column is_abort is_commit freed_kind
  set_column-Quiet n spec =
      checked_then _ (param_get n) _ (refl, λ x. refl, refl)
        (λ r1.
          checked_then _ (set_text (column n) Attribute.name (dir_path_identifier spec.name)) _
            (refl, λ x. refl, refl)
            (λ r2.
              checked_then _ (set_number (column n) Attribute.data_type spec.external_type) _
                (refl, λ x. refl, refl)
                (λ r3.
                  checked_then _ (set_number (column n) Attribute.data_size spec.max_size) _
                    (refl, λ x. refl, refl)
                    (λ r4.
                      >>=-Keeps (Quiet before)
                        (set_date_format oci n spec.date_format (is_empty spec.date_format)) _
                        (set_date_format-Quiet n spec.date_format (is_empty spec.date_format))
                        (λ u.
                          >>=-Keeps (Quiet before) (ask oci (descriptor_free n)) (λ r. pure tt)
                            (ask-Quiet oci before (descriptor_free n)
                              (silent (descriptor_free n) refl (λ x. refl) refl))
                            (λ r s q. q))))))

  set_columns-Quiet :
      (n : ℕ) (specs : List DirPathColumnSpec) → IsQuiet oci before (set_columns oci n specs)
  unfolding set_columns
  set_columns-Quiet n [] = λ s q. q
  set_columns-Quiet n (spec ∷ specs) =
      >>=-Keeps (Quiet before) (set_column oci n spec) _ (set_column-Quiet n spec)
        (λ u. set_columns-Quiet (n + 1) specs)

  detect_rows-Quiet : (t : Loader) (b : Bool) → IsQuiet oci before (detect_rows oci t b)
  unfolding detect_rows is_abort is_commit freed_kind
  detect_rows-Quiet t true = change-Quiet oci before _ (λ s. refl) (λ s. (refl, refl, refl, refl))
  detect_rows-Quiet t false =
      checked_then _ (row_get 0) _ (refl, λ x. refl, refl)
        (λ r1.
          checked_then _ (row_get 1) _ (refl, λ x. refl, refl)
            (λ r2.
              checked_then _ (row_get (t.row_capacity - 1)) _ (refl, λ x. refl, refl)
                (λ r3. change-Quiet oci before _ (λ s. refl) (λ s. (refl, refl, refl, refl)))))

  set_context-Quiet : (columns : ℕ) → IsQuiet oci before (set_context oci columns)
  unfolding set_context is_abort is_commit freed_kind
  set_context-Quiet columns t q =
      checked_then _ (set_text dirpath_ctx Attribute.name t.table) _ (refl, λ x. refl, refl)
        (λ r1.
          checked_then _ (set_text dirpath_ctx Attribute.schema_name t.owner) _
            (refl, λ x. refl, refl)
            (λ r2.
              checked_then _
                (set_number dirpath_ctx Attribute.parallel (if t.options.parallel then 1 else 0)) _
                (refl, λ x. refl, refl)
                (λ r3.
                  >>=-Keeps (Quiet before) (skip_indexes oci t.options.skip_index_maintenance) _
                    (skip_indexes-Quiet t.options.skip_index_maintenance)
                    (λ u.
                      checked_then _
                        (set_number dirpath_ctx Attribute.buf_size t.options.stream_buffer_bytes) _
                        (refl, λ x. refl, refl)
                        (λ r4.
                          checked_then _
                            (set_number dirpath_ctx Attribute.num_rows t.options.column_array_rows)
                            _ (refl, λ x. refl, refl)
                            (λ r5.
                              checked_then _
                                (set_number dirpath_ctx Attribute.num_cols (columns % 2 ^ 16)) _
                                (refl, λ x. refl, refl)
                                (λ r6.
                                  checked_then _ (get_number dirpath_ctx Attribute.list_columns) _
                                    (refl, λ x. refl, refl) (λ r7 s q'. q'))))))))
        t q

  prepare-Quiet : IsQuiet oci before (prepare oci)
  unfolding prepare is_abort is_commit freed_kind
  prepare-Quiet = checked_then _ dirpath_prepare _ (refl, λ x. refl, refl) (λ r s q. q)

  read_sizes-Quiet : IsQuiet oci before (read_sizes oci)
  unfolding read_sizes is_abort is_commit freed_kind
  read_sizes-Quiet =
      checked_then _ (get_number column_array Attribute.num_rows) _ (refl, λ x. refl, refl)
        (λ r s q.
          checked_then _ (get_number column_array Attribute.num_cols) _ (refl, λ x. refl, refl)
            (λ r'. change-Quiet oci before _ (λ t. refl) (λ t. (refl, refl, refl, refl)))
            (record s { row_capacity = r.number })
            (change-Quiet oci before (λ l. record l { row_capacity = r.number }) (λ t. refl)
              (λ t. (refl, refl, refl, refl)) s q))

-- Nothing has been counted, the load is not done, and it has these handles.
pub record Stage (has_ctx has_ca has_stream : Bool) (s : Loader) : Type 0 where
  pub not_done : s.is_done ≡ false
  pub uncounted : (k : Counted) → times k s ≡ 0
  pub stage_ctx : s.ctx ≡ has_ctx
  pub stage_ca : s.ca ≡ has_ca
  pub stage_stream : s.stream ≡ has_stream

Quiet-Stage :
    {c a t : Bool} {before s : Loader} → Stage c a t before → Quiet before s → Stage c a t s
Quiet-Stage g q = record {
  not_done = q.same_done ∙ g.not_done;
  uncounted = λ k. q.same_times k ∙ g.uncounted k;
  stage_ctx = q.same_ctx ∙ g.stage_ctx;
  stage_ca = q.same_ca ∙ g.stage_ca;
  stage_stream = q.same_stream ∙ g.stage_stream;
}

module _ (oci : Oci) where
  -- After an operation that counts nothing and returned.
  passed :
      {A : Type 0} {c a t : Bool} (m : Load A) (s : Loader) {r : A} {s' : Loader}
      → Stage c a t s
      → IsQuiet oci s m
      → Returned m s r s'
      → Stage c a t s'
  passed {c = c} {a = a} {t = t} m s g keeps h =
      subst (Stage c a t) (ap (λ r. r.1) h) (Quiet-Stage g (keeps s (Quiet-refl s)))

  passed_checked :
      {c a t : Bool} (what : Bytes) (call : OciCall) (s : Loader) {r : Reply} {s' : Loader}
      → Plain call
      → Stage c a t s
      → Returned (checked oci what call) s r s'
      → Stage c a t s'
  passed_checked what call s p g h =
      passed (checked oci what call) s g (checked-Quiet oci s what call (silent call p.0 p.1 p.2)) h

  open_context-Stage :
      (s : Loader) {u : Unit {0}} {s' : Loader}
      → Stage false false false s
      → Returned (open_context oci) s u s'
      → Stage true false false s'
  unfolding open_context is_abort is_commit freed_kind
  open_context-Stage s g h =
      let (r, m, e, last) =
        >>=-Returned (checked oci (codes "OCIHandleAlloc(DIRPATH_CTX)") (handle_alloc dirpath_ctx))
          _ s h in
      let g' = passed_checked _ (handle_alloc dirpath_ctx) s (refl, λ x. refl, refl) g e in
      subst (Stage true false false) (ap (λ p. p.1) last) (record {
        not_done = g'.not_done;
        uncounted = g'.uncounted;
        stage_ctx = refl;
        stage_ca = g'.stage_ca;
        stage_stream = g'.stage_stream;
      })

  open_column_array-Stage :
      (s : Loader) {u : Unit {0}} {s' : Loader}
      → Stage true false false s
      → Returned (open_column_array oci) s u s'
      → Stage true true false s'
  unfolding open_column_array is_abort is_commit freed_kind
  open_column_array-Stage s g h =
      let (r, m, e, last) =
        >>=-Returned
          (checked oci (codes "OCIHandleAlloc(COLUMN_ARRAY)") (handle_alloc column_array)) _ s h in
      let g' = passed_checked _ (handle_alloc column_array) s (refl, λ x. refl, refl) g e in
      subst (Stage true true false) (ap (λ p. p.1) last) (record {
        not_done = g'.not_done;
        uncounted = g'.uncounted;
        stage_ctx = g'.stage_ctx;
        stage_ca = refl;
        stage_stream = g'.stage_stream;
      })

  open_stream-Stage :
      (s : Loader) {u : Unit {0}} {s' : Loader}
      → Stage true true false s
      → Returned (open_stream oci) s u s'
      → Stage true true true s'
  unfolding open_stream is_abort is_commit freed_kind
  open_stream-Stage s g h =
      let (r, m, e, last) =
        >>=-Returned (checked oci (codes "OCIHandleAlloc(STREAM)") (handle_alloc dirpath_stream)) _
          s h in
      let g' = passed_checked _ (handle_alloc dirpath_stream) s (refl, λ x. refl, refl) g e in
      subst (Stage true true true) (ap (λ p. p.1) last) (record {
        not_done = g'.not_done;
        uncounted = g'.uncounted;
        stage_ctx = g'.stage_ctx;
        stage_ca = g'.stage_ca;
        stage_stream = refl;
      })

  Stage-Alive : (s : Loader) → Stage true true true s → Alive s
  Stage-Alive s g = record {
    open_done = g.not_done;
    open_ctx = g.stage_ctx;
    open_ca = g.stage_ca;
    open_stream = g.stage_stream;
    open_times = g.uncounted;
  }

  detect-Quiet : (before : Loader) → IsQuiet oci before (detect_contiguous_arrays oci)
  unfolding detect_contiguous_arrays
  detect-Quiet before s q =
      detect_rows-Quiet oci before s (s.options.force_entry_set || ltb s.row_capacity 2) s q

  -- The part of the constructor behind the column attributes.
  arrays-Alive :
      (s : Loader) {u : Unit {0}} {s' : Loader}
      → Stage true false false s
      → Returned
          (prepare oci
            >> (open_column_array oci
                >> (open_stream oci >> (read_sizes oci >> detect_contiguous_arrays oci))))
          s
          u
          s'
      → Alive s'
  arrays-Alive s {s' = s'} g h =
      let (u1, m1, e1, h1) = >>=-Returned (prepare oci) _ s h in
      let (u2, m2, e2, h2) = >>=-Returned (open_column_array oci) _ m1 h1 in
      let (u3, m3, e3, h3) = >>=-Returned (open_stream oci) _ m2 h2 in
      let (u4, m4, e4, h4) = >>=-Returned (read_sizes oci) _ m3 h3 in
      let g1 = passed (prepare oci) s g (prepare-Quiet oci s) e1 in
      let g3 = open_stream-Stage m2 (open_column_array-Stage m1 g1 e2) e3 in
      let g4 = passed (read_sizes oci) m3 g3 (read_sizes-Quiet oci m3) e4 in
      Stage-Alive s' (passed (detect_contiguous_arrays oci) m4 g4 (detect-Quiet m4) h4)

  open_body-Alive :
      (columns : List DirPathColumnSpec) (s : Loader) {u : Unit {0}} {s' : Loader}
      → Stage false false false s
      → Returned (open_body oci columns) s u s'
      → Alive s'
  unfolding open_body
  open_body-Alive columns s g h =
      let (u1, m1, e1, h1) = >>=-Returned (open_context oci) _ s h in
      let (u2, m2, e2, h2) = >>=-Returned (set_context oci (length columns)) _ m1 h1 in
      let (u3, m3, e3, h3) = >>=-Returned (set_columns oci 1 columns) _ m2 h2 in
      let g1 = open_context-Stage s g e1 in
      let g2 =
        passed (set_context oci (length columns)) m1 g1 (set_context-Quiet oci m1 (length columns))
          e2 in
      arrays-Alive m3
        (passed (set_columns oci 1 columns) m2 g2 (set_columns-Quiet oci m2 1 columns) e3) h3

  open_loader-Alive :
      (columns : List DirPathColumnSpec) (s : Loader) {u : Unit {0}} {s' : Loader}
      → Stage false false false s
      → Returned (open_loader oci columns) s u s'
      → Alive s'
  unfolding open_loader
  open_loader-Alive columns s g h =
      elim (catch-Returned (open_body oci columns) (λ e. release oci true >> throw e) s h) [
        | inl r ↦ open_body-Alive columns s g r
        | inr (e, mid, t, r) ↦
            let (w, m, a, thrown) =
              >>=-Returned (release oci true) (λ x. throw {A = Unit {0}} e) mid r in
            cc
      ]

  new_loader-Stage :
      (owner table : Bytes) (columns : List DirPathColumnSpec) (options : LoaderOptions)
      → Stage false false false (new_loader owner table columns options)
  unfolding new_loader
  new_loader-Stage owner table columns options = record {
    not_done = refl;
    uncounted = λ k. refl;
    stage_ctx = refl;
    stage_ca = refl;
    stage_stream = refl;
  }

  -- A load whose constructor returned, used in any way and destroyed, whatever OCI answers and whichever of the uses
  -- throw, is either committed once and never aborted, or aborted once and never committed, and each of its three
  -- handles is freed exactly once; a Finish after an Abort, a second Finish or a second Abort changes nothing of
  -- this.
  pub load-Closed :
      (owner table : Bytes) (columns : List DirPathColumnSpec) (options : LoaderOptions)
      (uses : List Use) {u : Unit {0}} {s : Loader}
      → Returned (open_loader oci columns) (new_loader owner table columns options) u s
      → Closed ((destroy oci (after_uses oci uses s)).1)
  load-Closed owner table columns options uses {s = s} h = destroy-Closed oci uses s (
      open_loader-Alive columns (new_loader owner table columns options)
        (new_loader-Stage owner table columns options) h)
