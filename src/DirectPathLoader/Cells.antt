-- ===== src/DirectPathLoader/Cells.antt =====
-- The cells of the column array: SetCell, SetNull and SetCellSlow.
use oraduck.Stateful.Inversion.{>>=-Keeps}
use oraduck.DirectPathLoader.Traces.{
  is_abort, is_commit, freed_kind, Quiet, silent, IsQuiet, change-Quiet, checked-Quiet,
}
use oraduck.OciCalls.{entry_set, Oci}
use oraduck.DirectPathLoader.{Entry, Loader, Load, get_loader, change, checked}
use oraduck.Stateful.{pure, ◌>>=◌, ◌>>◌}
use oraduck.Prelude.{
  ℕ, ◌+◌, ◌*◌, refl, Bool, true, false, Option, none, some, ◌∷◌, length, Bytes, codes,
}

abbrev pub col_complete : ℕ
col_complete = 0

abbrev pub col_null : ℕ
col_null = 1

-- size_t(row) * ncols_ + col
abbrev pub cell_index : ℕ → ℕ → ℕ → ℕ
cell_index columns row col = row * columns + col

pub put_entry : ℕ → ℕ → Entry → Loader → Loader
put_entry row col entry s = record s {
  entries = (cell_index s.column_count row col, entry) ∷ s.entries;
}

pub set_cell_slow : Oci → ℕ → ℕ → Option Bytes → ℕ → ℕ → Load (Unit {0})
set_cell_slow oci row col bytes len flag = do
  checked oci (codes "OCIDirPathColArrayEntrySet") (entry_set row col bytes len flag)
  pure tt

pub write_entry : Oci → ℕ → ℕ → Option Bytes → ℕ → ℕ → Bool → Load (Unit {0})
write_entry oci row col bytes len flag true = change (put_entry row col (bytes, len, flag))
write_entry oci row col bytes len flag false = set_cell_slow oci row col bytes len flag

pub set_entry : Oci → ℕ → ℕ → Option Bytes → ℕ → ℕ → Load (Unit {0})
set_entry oci row col bytes len flag = do
  s ← get_loader
  write_entry oci row col bytes len flag s.contiguous

pub set_cell : Oci → ℕ → ℕ → Bytes → Load (Unit {0})
set_cell oci row col bytes = set_entry oci row col (some bytes) (length bytes) col_complete

pub set_null : Oci → ℕ → ℕ → Load (Unit {0})
set_null oci row col = set_entry oci row col none 0 col_null

slowly-Quiet :
    (oci : Oci) (before : Loader) (row col : ℕ) (bytes : Option Bytes) (len flag : ℕ)
    → IsQuiet oci before (set_cell_slow oci row col bytes len flag)
unfolding set_cell_slow is_abort is_commit freed_kind
slowly-Quiet oci before row col bytes len flag =
    let call = entry_set row col bytes len flag in
    >>=-Keeps (Quiet before) (checked oci (codes "OCIDirPathColArrayEntrySet") call) (λ r. pure tt)
      (checked-Quiet oci before (codes "OCIDirPathColArrayEntrySet") call
        (silent call refl (λ x. refl) refl))
      (λ r s q. q)

-- Writing a cell counts nothing.
pub set_entry-Quiet :
    (oci : Oci) (before : Loader) (row col : ℕ) (bytes : Option Bytes) (len flag : ℕ)
    → IsQuiet oci before (set_entry oci row col bytes len flag)
unfolding set_entry write_entry put_entry
set_entry-Quiet oci before row col bytes len flag s = written s.contiguous s
  where
    written : (b : Bool) → IsQuiet oci before (write_entry oci row col bytes len flag b)
    written true =
        change-Quiet oci before (put_entry row col (bytes, len, flag)) (λ t. refl)
          (λ t. (refl, refl, refl, refl))
    written false = slowly-Quiet oci before row col bytes len flag
