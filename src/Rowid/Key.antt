-- ===== src/Rowid/Key.antt =====
-- The order of ROWIDs: a ROWID read as a number in base 64, which orders them by object, file, block
-- and row. This is the specification that encode_rowid is held against.
use oraduck.Rowid.{alphabet, base64_char, append_base64, encode_rowid}
use oraduck.Prelude.{
  ℕ, suc, ◌+◌, ◌*◌, ◌/◌, ◌%◌, ◌^◌, ◌≤◌, ◌<◌, ◌≡◌, refl, ◌⊎◌, true, [], ◌∷◌, ◌++◌, arith, ◌==◌,
  if◌then◌else◌, ==_iff, Bytes, all_below, all_below_sound,
}

-- The place of a character in the alphabet, 64 if it is not there.
index_of : ℕ → Bytes → ℕ
index_of c [] = 0
index_of c (d ∷ s) = if c == d then 0 else suc (index_of c s)

read_base64 : ℕ → Bytes → ℕ
unfolding index_of
read_base64 n [] = n
read_base64 n (c ∷ s) = read_base64 (n * 64 + index_of c alphabet) s

pub rowid_key : Bytes → ℕ
unfolding read_base64
rowid_key s = read_base64 0 s

-- Where a block of a file lies among the blocks of its object. A file number of 1024 stands for a
-- bigfile tablespace, whose block numbers have 32 bits.
unfoldable pub place : ℕ → ℕ → ℕ
place fno block =
    if fno == 1024 then block / 2 ^ 22 * 64 ^ 6 + block % 2 ^ 22 else fno * 64 ^ 6 + block

-- The number of the ROWID of a row.
abbrev pub row_number : ℕ → ℕ → ℕ → ℕ
row_number object p row = object * 64 ^ 12 + p * 64 ^ 3 + row

char_table : all_below 64 (λ d. index_of (base64_char d) alphabet == d) ≡ true
unfolding all_below index_of base64_char
char_table = refl

index_of-base64_char : (d : ℕ) → d < 64 → index_of (base64_char d) alphabet ≡ d
index_of-base64_char d h =
    (==_iff _ d).0 (all_below_sound 64 (λ x. index_of (base64_char x) alphabet == x) d char_table h)

read_base64-snoc :
    (s : Bytes) (n d : ℕ)
    → d < 64
    → read_base64 n (s ++ (base64_char d ∷ [])) ≡ read_base64 n s * 64 + d
unfolding read_base64
read_base64-snoc [] n d h = rw (index_of-base64_char d h)
read_base64-snoc (c ∷ s) n d h = read_base64-snoc s (n * 64 + index_of c alphabet) d h

read_base64_step :
    (out : Bytes) (value i : ℕ)
    → read_base64 0 (out ++ (base64_char (value / 64 ^ i % 64) ∷ []))
      ≡ read_base64 0 out * 64 + value / 64 ^ i % 64
read_base64_step out value i = read_base64-snoc out 0 (value / 64 ^ i % 64) (omega arith)

append_three :
    (out : Bytes) (value : ℕ)
    → read_base64 0 (append_base64 out value 3) ≡ read_base64 0 out * 64 ^ 3 + value % 64 ^ 3
unfolding append_base64
append_three out value = rw (read_base64_step, read_base64_step, read_base64_step) (omega arith)

append_six :
    (out : Bytes) (value : ℕ)
    → read_base64 0 (append_base64 out value 6) ≡ read_base64 0 out * 64 ^ 6 + value % 64 ^ 6
unfolding append_base64
append_six out value =
    rw
      (
        read_base64_step, read_base64_step, read_base64_step, read_base64_step, read_base64_step,
        read_base64_step,
      )
      (omega arith)

-- The range of the arguments of encode_rowid.
pub record IsRowid (object fno block row : ℕ) : Type 0 where
  pub object_in : object < 2 ^ 32
  pub place_in : ((fno < 1024) × (block < 2 ^ 22)) ⊎ ((fno ≡ 1024) × (block < 2 ^ 32))
  pub row_in : row < 2 ^ 16

-- For an object, a file, a block and a row in the ranges of their fields, or a 32-bit block in a
-- bigfile tablespace: the text of EncodeRowid, read in base 64, is the number made of the object, the
-- place of the block in it, and the row.
pub rowid_key-encode :
    (object fno block row : ℕ)
    → IsRowid object fno block row
    → rowid_key (encode_rowid object fno block row) ≡ row_number object (place fno block) row
unfolding rowid_key encode_rowid place
rowid_key-encode object fno block row v =
    rw (append_three, append_six, append_three, append_six) (unfold read_base64 in ground arith)

-- Of two blocks in one tablespace the later place is the later block.
pub place_mono : (fno a b : ℕ) → a ≤ b → place fno a ≤ place fno b
unfolding place
place_mono fno a b h = ground arith

-- The places of an object's rows.
pub place-lt :
    (fno block : ℕ)
    → ((fno < 1024) × (block < 2 ^ 22)) ⊎ ((fno ≡ 1024) × (block < 2 ^ 32))
    → place fno block < 1024 * 64 ^ 6
unfolding place
place-lt fno block v = ground arith
