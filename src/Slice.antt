-- ===== src/Slice.antt =====
-- The slices of a scan: `SliceKind` and `Slice` of src/include/oraduck/read_sql.hpp.
use oraduck.Prelude.{ℕ, Bool, false, [], Bytes}

pub data SliceKind : Type 0 where
  none rowid_range hash : SliceKind

pub record Slice : Type 0 where
  pub kind : SliceKind
  pub rowid_lo : Bytes
  pub rowid_hi : Bytes
  pub hi_inclusive : Bool
  pub hash_buckets : ℕ
  pub hash_bucket : ℕ

-- Slice()
abbrev pub empty_slice : Slice
empty_slice = record {
  kind = SliceKind.none;
  rowid_lo = [];
  rowid_hi = [];
  hi_inclusive = false;
  hash_buckets = 0;
  hash_bucket = 0;
}
