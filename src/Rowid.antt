-- ===== src/Rowid.antt =====
-- ROWID ranges for the units of a parallel scan: src/rowid_ranges.cpp. The C++ integers are
-- unsigned; `>>` by k is `/ 2 ^ k` and `&` with 2 ^ k - 1 is `% 2 ^ k`.
pub mod Key
pub mod Sorting
pub mod Groups
pub mod Units
pub mod Coverage
pub mod Sizes
use oraduck.Slice.{SliceKind, Slice, empty_slice}
use Prim.Native.Nat.{min, max}
use oraduck.Prelude.{
  ℕ, zero, suc, ◌+◌, ◌-◌, ◌*◌, ◌/◌, ◌%◌, ◌^◌, ◌≤◌, ◌<◌, ◌≡◌, refl, sym, ap, ◌∙◌, ◌≢◌, ◌↔◌, ◌⊎◌, inl,
  inr, Bool, true, false, not, ◌&&◌, ◌||◌, Option, none, some, List, [], ◌∷◌, ◌++◌, map, reverse,
  arith, ltb, leb, ◌==◌, if◌then◌else◌, ltb→lt, lt→ltb, ==_iff, ==_refl, Bool-cases, Option-cases,
  length, get_or, take, drop, replicate, is_empty, count_if, All, length-append, count_if-append,
  length-replicate, length-map, All-append, Bytes, codes, bytes_eq, is_upper, is_lower, is_alpha,
  is_digit, is_alnum, is_space, to_upper, to_lower, has_byte, starts_with, has_text, last_byte,
  but_last, to_decimal, bytes_eq→eq, bytes_eq_refl, all_below, all_below_sound, Result, ok, err,
  ◌>>=◌, ◌>>◌, throw_if, >>=-eq-ok, ok_inj,
}

abbrev pub alphabet : Bytes
alphabet = codes "ABCDEFGHIJKLMNOPQRSTUVWXYZabcdefghijklmnopqrstuvwxyz0123456789+/"

pub base64_char : ℕ → ℕ
base64_char d = get_or alphabet d 0

-- AppendBase64, with the digits left as the loop's counter.
pub append_base64 : Bytes → ℕ → ℕ → Bytes
unfolding base64_char
append_base64 out value zero = out
append_base64 out value (suc i) =
    append_base64 (out ++ (base64_char (value / 64 ^ i % 64) ∷ [])) value i

unfoldable pub encode_rowid : ℕ → ℕ → ℕ → ℕ → Bytes
unfolding append_base64
encode_rowid data_object_id relative_fno block row =
    let file = if relative_fno == 1024 then block / 2 ^ 22 else relative_fno in
    let block_field = if relative_fno == 1024 then block % 2 ^ 22 else block in
    append_base64
      (append_base64 (append_base64 (append_base64 [] data_object_id 6) file 3) block_field 6) row 3

pub record SegmentExtent : Type 0 where
  pub data_object_id : ℕ
  pub relative_fno : ℕ
  pub block_id : ℕ
  pub blocks : ℕ

abbrev pub min_unit_blocks : ℕ
min_unit_blocks = 1024

-- uint64_t arithmetic: the sum may wrap.
unfoldable pub target_blocks : ℕ → ℕ → ℕ
target_blocks largest_segment_blocks sessions =
    let divisor = 4 * max sessions 1 in
    max ((largest_segment_blocks + divisor - 1) % 2 ^ 64 / divisor) min_unit_blocks

-- The struct Unit: a slice and how many blocks it holds.
pub record WorkUnit : Type 0 where
  pub slice : Slice
  pub blocks : ℕ

-- by_object[e.data_object_id].push_back(e), the map being the list of its entries in key order
abbrev pub Groups : Type 0
Groups = List (ℕ × List SegmentExtent)

pub group_insert : SegmentExtent → Groups → Groups
group_insert e [] = (e.data_object_id, e ∷ []) ∷ []
group_insert e ((o, l) ∷ gs) =
    if e.data_object_id == o
    then (o, l ++ (e ∷ [])) ∷ gs
    else if ltb e.data_object_id o
    then (e.data_object_id, e ∷ []) ∷ (o, l) ∷ gs
    else (o, l) ∷ group_insert e gs

pub group_loop : Groups → List SegmentExtent → Groups
unfolding group_insert
group_loop gs [] = gs
group_loop gs (e ∷ es) = group_loop (group_insert e gs) es

-- The comparator of the std::sort over the extents of one object.
pub extent_before : SegmentExtent → SegmentExtent → Bool
extent_before a b =
    if not (a.relative_fno == b.relative_fno)
    then ltb a.relative_fno b.relative_fno
    else ltb a.block_id b.block_id

-- std::sort, as a sort by insertion: which of two equal extents comes first is not specified.
pub insert_extent : SegmentExtent → List SegmentExtent → List SegmentExtent
unfolding extent_before
insert_extent e [] = e ∷ []
insert_extent e (x ∷ xs) = if extent_before x e then x ∷ insert_extent e xs else e ∷ x ∷ xs

pub sort_extents : List SegmentExtent → List SegmentExtent
unfolding insert_extent
sort_extents [] = []
sort_extents (e ∷ es) = insert_extent e (sort_extents es)

-- The variables of the loop over the extents of one object.
pub record Filling : Type 0 where
  pub current : WorkUnit
  pub units : List WorkUnit

-- `current.blocks >= target_blocks`: close the unit at the block reached and open the next one.
pub cut : ℕ → ℕ → SegmentExtent → ℕ → Filling → Filling
cut target object e offset s =
    let boundary = encode_rowid object e.relative_fno ((e.block_id + offset) % 2 ^ 32) 0 in
    let slice = record s.current.slice { rowid_hi = boundary } in
    if leb target s.current.blocks
    then record {
      current = record {
        slice = record empty_slice { kind = SliceKind.rowid_range; rowid_lo = boundary };
        blocks = 0;
      };
      units = s.units ++ (record s.current { slice = slice } ∷ []);
    }
    else s

-- `take` of the loop.
pub take_blocks : ℕ → SegmentExtent → ℕ → Filling → ℕ
take_blocks target e offset s = min (e.blocks - offset) (target - s.current.blocks)

pub add_blocks : ℕ → Filling → Filling
add_blocks n s = record s { current = record s.current { blocks = s.current.blocks + n } }

-- The while loop over one extent. A round takes a block at least, so `e.blocks` rounds are enough.
pub fill_loop : ℕ → ℕ → ℕ → SegmentExtent → ℕ → Filling → Filling
unfolding cut take_blocks add_blocks
fill_loop zero target object e offset s = s
fill_loop (suc fuel) target object e offset s =
    let s' = cut target object e offset s in
    let n = take_blocks target e offset s' in
    let rest = fill_loop fuel target object e (offset + n) (add_blocks n s') in
    if ltb offset e.blocks then rest else s

pub fill_extents : ℕ → ℕ → List SegmentExtent → Filling → Filling
unfolding fill_loop
fill_extents target object [] s = s
fill_extents target object (e ∷ es) s =
    fill_extents target object es (fill_loop e.blocks target object e 0 s)

-- The upper bound of the last unit of an object.
pub close_slice : ℕ → Slice → Slice
close_slice object s =
    if object == 0xFFFFFFFF
    then record s { rowid_hi = encode_rowid object 1023 0x3FFFFF 65535; hi_inclusive = true }
    else record s { rowid_hi = encode_rowid (object + 1) 0 0 0 }

pub first_filling : ℕ → Filling
first_filling object = record {
  current = record {
    slice = record empty_slice {
      kind = SliceKind.rowid_range;
      rowid_lo = encode_rowid object 0 0 0;
    };
    blocks = 0;
  };
  units = [];
}

-- The units of one entry of the map.
pub object_units : ℕ → ℕ × List SegmentExtent → List WorkUnit
unfolding sort_extents fill_extents close_slice first_filling
object_units target (object, list) =
    let s = fill_extents target object (sort_extents list) (first_filling object) in
    s.units ++ (record s.current { slice = close_slice object s.current.slice } ∷ [])

pub all_units : ℕ → Groups → List WorkUnit
unfolding object_units
all_units target [] = []
all_units target (g ∷ gs) = object_units target g ++ all_units target gs

-- std::stable_sort by decreasing blocks.
pub insert_unit : WorkUnit → List WorkUnit → List WorkUnit
insert_unit u [] = u ∷ []
insert_unit u (x ∷ xs) = if ltb u.blocks x.blocks then x ∷ insert_unit u xs else u ∷ x ∷ xs

pub sort_units : List WorkUnit → List WorkUnit
unfolding insert_unit
sort_units [] = []
sort_units (u ∷ us) = insert_unit u (sort_units us)

unfoldable pub build_rowid_slices : List SegmentExtent → ℕ → List Slice
unfolding encode_rowid group_loop all_units sort_units
build_rowid_slices extents target_blocks =
    map (λ u. u.slice) (sort_units (all_units (max target_blocks 1) (group_loop [] extents)))
