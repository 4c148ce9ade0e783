-- ===== src/Prelude/Numerals.antt =====
-- Numbers read from text, by the functions of the C++ library that the program calls.
use Prim.Native.Nat.{ℕ, ◌+◌, ◌-◌, ◌*◌, ◌%◌, ◌^◌}
use mathlib.Core.Bool.{Bool, true, false}
use mathlib.Core.Option.{Option, none, some}
use mathlib.Core.List.{[], ◌∷◌}
use oraduck.Prelude.Tests.{ltb, ◌==◌, if◌then◌else◌}
use oraduck.Prelude.Text.{Bytes, is_digit, is_space}
use oraduck.Prelude.Int.{ℤ, pos, negsuc}

-- The number that the digits at the front make, read behind `n`.
unfoldable pub leading_number : ℕ → Bytes → ℕ
leading_number n [] = n
leading_number n (c ∷ s) =
    let rest = leading_number (n * 10 + (c - b'0')) s in if is_digit c then rest else n

unfoldable pub skip_spaces : Bytes → Bytes
skip_spaces [] = []
skip_spaces (c ∷ s) = let rest = skip_spaces s in if is_space c then rest else c ∷ s

unfoldable pub starts_digit : Bytes → Bool
starts_digit [] = false
starts_digit (c ∷ s) = is_digit c

-- A sign and what is behind it.
unfoldable pub signed_text : Bytes → Bool × Bytes
signed_text [] = (false, [])
signed_text (c ∷ s) =
    if c == b'-' then (true, s) else if c == b'+' then (false, s) else (false, c ∷ s)

abbrev pub to_signed : Bool → ℕ → ℤ
to_signed negative n = if negative then (if n == 0 then pos 0 else negsuc (n - 1)) else pos n

-- std::stoul and std::stoull, of 64 bits: `none` is std::invalid_argument or std::out_of_range.
unfoldable pub stoul : Bytes → Option ℕ
unfolding leading_number skip_spaces starts_digit signed_text
stoul s =
    let (negative, digits) = signed_text (skip_spaces s) in
    let n = leading_number 0 digits in
    if starts_digit digits
    then (if ltb n (2 ^ 64) then some (if negative then (2 ^ 64 - n) % 2 ^ 64 else n) else none)
    else none

-- std::stoi (w = 32) and std::stoll (w = 64).
unfoldable pub stoi : ℕ → Bytes → Option ℤ
unfolding leading_number skip_spaces starts_digit signed_text
stoi w s =
    let (negative, digits) = signed_text (skip_spaces s) in
    let n = leading_number 0 digits in
    if starts_digit digits
    then (if ltb n (2 ^ (w - 1) + (if negative then 1 else 0))
        then some (to_signed negative n)
        else none)
    else none
