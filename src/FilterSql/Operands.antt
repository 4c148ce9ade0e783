-- ===== src/FilterSql/Operands.antt =====
-- An operand that was pushed makes one bind, of whatever kind its column is.
use oraduck.Civil.{split_micros}
use oraduck.Dates.{format_date_time_text}
use oraduck.Binds.{
  BindValue, bind_number, bind_decimal, bind_double, bind_date, bind_text, bind_varchar,
}
use oraduck.FilterSql.{
  ◌>>=◌, ◌>>◌, refuse_if, is_finite, is_string, is_range, is_ascii, max_bind_text_bytes,
  date_micros_of, FilterConstant, ConstantKind, FilterOp, ColumnKind, ColumnInfo, Piece, add_bind,
  Builder, number_operand, double_operand, date_operand, timestamp_operand, char_operand, operand,
}
use oraduck.Prelude.{
  ℕ, ◌≡◌, refl, sym, ap, inl, inr, Bool, true, false, not, ◌&&◌, ◌||◌, Option, none, some, List, [],
  ◌∷◌, ◌++◌, ltb, Bool-cases, some_inj, length, is_empty, Bytes, has_byte, Result, ok, err,
}

-- What a step adds to the binds: `n` of them, behind those that were there.
abbrev pub Adds : ℕ → List BindValue → Piece → Type 0
Adds n binds p = (new : List BindValue) × (p.binds ≡ binds ++ new) × (length new ≡ n)

module _ {ℓ κ} {A : Type ℓ} {B : Type κ} where
  -- Inversion of a step that was not refused.
  pub >>=-eq-some :
      (m : Option A) (f : A → Option B) {b : B}
      → (m >>= f) ≡ some b
      → (a : A) × (m ≡ some a) × (f a ≡ some b)
  >>=-eq-some none f h = cc
  >>=-eq-some (some a) f h = (a, refl, h)

pub add_bind-Adds :
    (binds : List BindValue) (r : Result BindValue) {p : Piece}
    → add_bind binds r ≡ some p
    → Adds 1 binds p
unfolding add_bind
add_bind-Adds binds (err e) h = cc
add_bind-Adds binds (ok b) h = (b ∷ [], ap Piece.binds (sym (some_inj h)), refl)

pub refuse {ℓ} :
    {A : Type ℓ} (bad : Bool) (k : Option A) {a : A} → (refuse_if bad >> k) ≡ some a → k ≡ some a
refuse true k h = cc
refuse false k h = h

number_operand-Adds :
    (binds : List BindValue) (k : FilterConstant) (t : ConstantKind) {p : Piece}
    → k.kind ≡ t
    → number_operand binds k ≡ some p
    → Adds 1 binds p
unfolding number_operand
number_operand-Adds binds k ConstantKind.integer e h =
    add_bind-Adds binds (bind_number k.i64) (rw e at h)
number_operand-Adds binds k ConstantKind.decimal e h =
    add_bind-Adds binds (bind_decimal k.i128 k.scale) (rw e at h)
number_operand-Adds binds k ConstantKind.double e h = let h' = rw e at h in cc
number_operand-Adds binds k ConstantKind.string e h = let h' = rw e at h in cc
number_operand-Adds binds k ConstantKind.timestamp e h = let h' = rw e at h in cc
number_operand-Adds binds k ConstantKind.date e h = let h' = rw e at h in cc

double_operand-Adds :
    (print : ℕ → Bytes) (binds : List BindValue) (k : FilterConstant) (t : ConstantKind) {p : Piece}
    → k.kind ≡ t
    → double_operand print binds k ≡ some p
    → Adds 1 binds p
unfolding double_operand
double_operand-Adds print binds k ConstantKind.double e h = elim (Bool-cases (is_finite k.f64)) [
  | inl f ↦ add_bind-Adds binds (ok (bind_double print k.f64)) (rw (e, f) at h)
  | inr f ↦ let h' = rw (e, f) at h in cc
]
double_operand-Adds print binds k ConstantKind.integer e h = let h' = rw e at h in cc
double_operand-Adds print binds k ConstantKind.decimal e h = let h' = rw e at h in cc
double_operand-Adds print binds k ConstantKind.string e h = let h' = rw e at h in cc
double_operand-Adds print binds k ConstantKind.timestamp e h = let h' = rw e at h in cc
double_operand-Adds print binds k ConstantKind.date e h = let h' = rw e at h in cc

date_operand-Adds :
    (binds : List BindValue) (k : FilterConstant) {p : Piece}
    → date_operand binds k ≡ some p
    → Adds 1 binds p
unfolding date_operand
date_operand-Adds binds k h =
    let (micros, e, rest) = >>=-eq-some (date_micros_of k) _ h in
    add_bind-Adds binds (bind_date micros) (refuse _ _ rest)

timestamp_operand-Adds :
    (binds : List BindValue) (k : FilterConstant) {p : Piece}
    → timestamp_operand binds k ≡ some p
    → Adds 1 binds p
unfolding timestamp_operand
timestamp_operand-Adds binds k h =
    let (micros, e, rest) = >>=-eq-some (date_micros_of k) _ h in
    let (value, f, last) =
      >>=-eq-some (format_date_time_text (split_micros micros).0 (split_micros micros).1) _ rest in
    (bind_text value ∷ [], ap Piece.binds (sym (some_inj last)), refl)

char_operand-Adds :
    (b : Builder) (info : ColumnInfo) (op : FilterOp) (binds : List BindValue) (k : FilterConstant)
    {p : Piece}
    → char_operand b info op binds k ≡ some p
    → Adds 1 binds p
unfolding char_operand
char_operand-Adds b info op binds k h =
    let unfit =
      not (is_string k.kind)
      || is_empty k.text
      || ltb max_bind_text_bytes (length k.text)
      || has_byte 0 k.text
      || not info.binary_collation in
    let unordered = is_range op && (not b.al32utf8 || info.national) in
    let foreign = not b.utf8 && not (is_ascii k.text) in
    add_bind-Adds binds (bind_varchar k.text)
      (refuse foreign _ (refuse unordered _ (refuse unfit _ h)))

pub operand-Adds :
    (b : Builder) (info : ColumnInfo) (op : FilterOp) (binds : List BindValue) (k : FilterConstant)
    (kind : ColumnKind) {p : Piece}
    → info.kind ≡ kind
    → operand b info op binds k ≡ some p
    → Adds 1 binds p
unfolding operand
operand-Adds b info op binds k ColumnKind.number e h =
    number_operand-Adds binds k k.kind refl (rw e at h)
operand-Adds b info op binds k ColumnKind.binary_float e h =
    double_operand-Adds b.print binds k k.kind refl (rw e at h)
operand-Adds b info op binds k ColumnKind.binary_double e h =
    double_operand-Adds b.print binds k k.kind refl (rw e at h)
operand-Adds b info op binds k ColumnKind.date e h = date_operand-Adds binds k (rw e at h)
operand-Adds b info op binds k ColumnKind.timestamp e h = timestamp_operand-Adds binds k (rw e at h)
operand-Adds b info op binds k ColumnKind.char e h =
    char_operand-Adds b (record info { kind = ColumnKind.char }) op binds k (rw e at h)
operand-Adds b info op binds k ColumnKind.lob e h = let h' = rw e at h in cc
operand-Adds b info op binds k ColumnKind.other e h = let h' = rw e at h in cc
