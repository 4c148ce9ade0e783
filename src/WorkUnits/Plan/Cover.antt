-- ===== src/WorkUnits/Plan/Cover.antt =====
-- The hash slices of PlanUnits, read by ORA_HASH(ROWID, buckets - 1) = bucket as ReadSql writes it.
use oraduck.Slice.{Slice}
use oraduck.WorkUnits.Plan.{hash_slice, hash_slices}
use oraduck.Prelude.{
  ℕ, zero, suc, ◌+◌, ◌-◌, ◌≤◌, ◌<◌, ◌≡◌, Bool, arith, ◌==◌, count_if, ltb, leb, ◌&&◌, if◌then◌else◌,
}

-- Whether a row is in the slice; `ora_hash` is ORA_HASH of its ROWID by the largest bucket.
abbrev pub in_slice : (ℕ → ℕ) → Slice → Bool
in_slice ora_hash slice = ora_hash (slice.hash_buckets - 1) == slice.hash_bucket

hash_slices-count :
    (ora_hash : ℕ → ℕ) (left buckets bucket : ℕ)
    → count_if (in_slice ora_hash) (hash_slices left buckets bucket) ≡ (
        if leb bucket (ora_hash (buckets - 1)) && ltb (ora_hash (buckets - 1)) (bucket + left)
        then 1
        else 0)
unfolding hash_slices hash_slice
hash_slices-count ora_hash zero buckets bucket = ground arith
hash_slices-count ora_hash (suc left) buckets bucket =
    ground (arith, hash_slices-count ora_hash left buckets (bucket + 1))

-- Every row is in exactly one of the hash slices of any number of sessions, where ORA_HASH by a largest bucket
-- gives no larger one.
pub hash_slices-cover :
    (ora_hash : ℕ → ℕ) (sessions : ℕ)
    → ((largest : ℕ) → ora_hash largest ≤ largest)
    → 0 < sessions
    → count_if (in_slice ora_hash) (hash_slices sessions sessions 0) ≡ 1
hash_slices-cover ora_hash sessions bounded some_session =
    ground (arith, hash_slices-count ora_hash sessions sessions 0, bounded (sessions - 1))
