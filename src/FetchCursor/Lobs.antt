-- ===== src/FetchCursor/Lobs.antt =====
-- The bytes of LOB values.
use oraduck.Stateful.{Outcome, done, fault}
use oraduck.FetchCursor.{
  CursorApi, LobValue, lob_piece, after_piece, next_piece, piece_round, read_pieces,
}
use oraduck.Prelude.{
  ℕ, zero, suc, ◌+◌, ◌-◌, ◌≤◌, ◌<◌, ◌≡◌, refl, sym, ap, ◌∙◌, inl, inr, ◌||◌, Option, none, some, [],
  ◌∷◌, ◌++◌, arith, ltb, ◌==◌, if◌then◌else◌, Bool-cases, length, length-append, Bytes,
}

-- What a value has grown to: within its room, with what was read before in front.
abbrev pub Grown : LobValue → Bytes → Bytes → Type 0
Grown v value whole = (length whole ≤ v.capacity) × ((more : Bytes) × (whole ≡ value ++ more))

outcome_inj : {A : Type 0} {a b : A} → ◌≡◌ {A = Outcome A} (done a) (done b) → a ≡ b
outcome_inj h = cc

append_assoc : (s t u : Bytes) → (s ++ t) ++ u ≡ s ++ (t ++ u)
append_assoc [] t u = refl
append_assoc (c ∷ s) t u = ap (λ r. c ∷ r) (append_assoc s t u)

append_nil : (s : Bytes) → s ++ [] ≡ s
append_nil [] = refl
append_nil (c ∷ s) = ap (λ r. c ∷ r) (append_nil s)

after_piece-done :
    (v : LobValue) (read : ℕ) (value : Bytes) (o : Outcome (Bytes × ℕ)) {read' : ℕ} {value' : Bytes}
    → length value ≤ v.capacity
    → after_piece v read value o ≡ done (read', value')
    → (read < read') × Grown v value value'
unfolding after_piece
after_piece-done v read value (fault e) room h = cc
after_piece-done v read value (done (piece, chars)) {read' = read'} {value' = value'} room h =
    elim (Bool-cases ((progress == 0) || ltb (v.capacity - length value) (length piece))) [
      | inl bad ↦ let h' = rw (after_piece, bad) at h in cc
      | inr good ↦
          let same : (read + progress, value ++ piece) ≡ (read', value') =
            outcome_inj (rw (after_piece, good) at h) in
          let further : read + progress ≡ read' = ap (λ p. p.0) same in
          let longer : value ++ piece ≡ value' = ap (λ p. p.1) same in
          let some_progress : 0 < progress = ground (arith, good) in
          let fits : length piece ≤ v.capacity - length value = ground (arith, good) in
          (
            omega (arith, further, some_progress),
            (
              rw (sym longer) (omega (arith, length-append value piece, fits, room)),
              (piece, sym longer),
            ),
          )
    ]
  where
    progress : ℕ
    progress = if v.characters then chars else length piece

-- What the loop of ReadLob gives.
abbrev pub Reads : LobValue → Bytes → Outcome (Option Bytes) → Type 0
Reads v value (fault e) = Unit {0}
Reads v value (done none) = ⊥
Reads v value (done (some whole)) = Grown v value whole

next_piece-Reads :
    (v : LobValue) (read : ℕ) (value : Bytes) (next : ℕ → Bytes → Outcome (Option Bytes))
    (o : Outcome (ℕ × Bytes))
    → ((read' : ℕ) (value' : Bytes)
        → o ≡ done (read', value')
        → Grown v value value' × Reads v value' (next read' value'))
    → Reads v value (next_piece next o)
unfolding next_piece
next_piece-Reads v read value next (fault e) go = tt
next_piece-Reads v read value next (done (read', value')) go =
    let ((room, (more, e)), rest) = go read' value' refl in
    extend (next read' value') value' more e rest
  where
    extend :
        (r : Outcome (Option Bytes)) (value' more : Bytes)
        → value' ≡ value ++ more
        → Reads v value' r
        → Reads v value r
    extend (fault x) value' more e h = tt
    extend (done none) value' more e h = h
    extend (done (some whole)) value' more e (room, (rest, w)) =
        (room, (more ++ rest, w ∙ ap (λ t. t ++ rest) e ∙ append_assoc value more rest))

module _ (api : CursorApi) (chunk : ℕ) (v : LobValue) where
  -- The loop of ReadLob over the rest of a value, for any pieces that OCI gives: with fuel for the characters or
  -- bytes that are left it ends, by an error or with a value that fits its room and begins with what was read
  -- before.
  pub read_pieces-Reads :
      (fuel read : ℕ) (value : Bytes)
      → v.total ≤ read + fuel
      → length value ≤ v.capacity
      → Reads v value (read_pieces api chunk v fuel read value)
  unfolding read_pieces piece_round
  read_pieces-Reads zero read value enough room = elim (Bool-cases (ltb read v.total)) [
    | inl more ↦ absurd (ground (arith, more, enough))
    | inr ended ↦ rw (read_pieces, ended) (room, ([], sym (append_nil value)))
  ]
  read_pieces-Reads (suc fuel) read value enough room = elim (Bool-cases (ltb read v.total)) [
    | inr ended ↦ rw (read_pieces, ended, piece_round) (room, ([], sym (append_nil value)))
    | inl more ↦
        rw (read_pieces, more, piece_round)
          (next_piece-Reads v read value (read_pieces api chunk v fuel) _ (λ read' value' h.
            let (further, grown) =
              after_piece-done v read value (lob_piece api chunk v read value) room h in
            (grown, read_pieces-Reads fuel read' value' (omega (arith, further, enough)) grown.0)))
  ]
