-- ===== src/Prelude/Text.antt =====
-- `std::string` as its list of bytes, with the members of the class that the program calls.
use Prim.Native.Nat.{ℕ, zero, suc, ◌+◌, ◌-◌, ◌/◌, ◌%◌}
use Prim.Native.Char.{code}
use Prim.Native.String.{String}
use mathlib.Core.Path.{◌≡◌, refl}
use mathlib.Core.Bool.{Bool, true, false, ◌&&◌, ◌||◌}
use mathlib.Core.List.{List, [], ◌∷◌}
use native.Mathlib.Omega.{arith}
use oraduck.Prelude.Tests.{ltb, leb, ◌==◌, if◌then◌else◌}

abbrev pub Bytes : Type 0
Bytes = List ℕ

-- The bytes of an ASCII text.
abbrev pub codes : String → Bytes
codes String.[] = []
codes (String.◌∷◌ c s) = code c ∷ codes s

-- s == t
unfoldable pub bytes_eq : Bytes → Bytes → Bool
bytes_eq [] [] = true
bytes_eq [] (c ∷ t) = false
bytes_eq (c ∷ s) [] = false
bytes_eq (c ∷ s) (d ∷ t) = (c == d) && bytes_eq s t

-- The `isupper`, `islower`, `isalpha`, `isdigit`, `isalnum`, `isspace`, `toupper` and `tolower` of
-- the "C" locale.
abbrev pub is_upper : ℕ → Bool
is_upper c = leb b'A' c && leb c b'Z'

abbrev pub is_lower : ℕ → Bool
is_lower c = leb b'a' c && leb c b'z'

abbrev pub is_alpha : ℕ → Bool
is_alpha c = is_upper c || is_lower c

abbrev pub is_digit : ℕ → Bool
is_digit c = leb b'0' c && leb c b'9'

abbrev pub is_alnum : ℕ → Bool
is_alnum c = is_alpha c || is_digit c

abbrev pub is_space : ℕ → Bool
is_space c = (c == 32) || (leb 9 c && leb c 13)

abbrev pub to_upper : ℕ → ℕ
to_upper c = if is_lower c then c - 32 else c

abbrev pub to_lower : ℕ → ℕ
to_lower c = if is_upper c then c + 32 else c

-- s.find(c) != npos
unfoldable pub has_byte : ℕ → Bytes → Bool
has_byte c [] = false
has_byte c (d ∷ s) = (c == d) || has_byte c s

-- s.compare(0, prefix.size(), prefix) == 0, and s.rfind(prefix, 0) == 0
unfoldable pub starts_with : Bytes → Bytes → Bool
starts_with s [] = true
starts_with [] (p ∷ ps) = false
starts_with (c ∷ s) (p ∷ ps) = (c == p) && starts_with s ps

-- s.find(t) != npos
unfoldable pub has_text : Bytes → Bytes → Bool
unfolding starts_with
has_text [] t = starts_with [] t
has_text (c ∷ s) t = starts_with (c ∷ s) t || has_text s t

-- s.back(), 0 on the empty text
unfoldable pub last_byte : Bytes → ℕ
last_byte [] = 0
last_byte (c ∷ []) = c
last_byte (c ∷ d ∷ s) = last_byte (d ∷ s)

-- All but the last byte.
unfoldable pub but_last : Bytes → Bytes
but_last [] = []
but_last (c ∷ []) = []
but_last (c ∷ d ∷ s) = c ∷ but_last (d ∷ s)

-- std::to_string of an unsigned number, least significant digit first, with fuel.
decimal_loop : ℕ → ℕ → Bytes → Bytes
decimal_loop zero n out = out
decimal_loop (suc fuel) n out =
    let c = b'0' + n % 10 in
    let rest = decimal_loop fuel (n / 10) (c ∷ out) in if ltb n 10 then c ∷ out else rest

unfoldable pub to_decimal : ℕ → Bytes
unfolding decimal_loop
to_decimal n = decimal_loop 40 n []

pub bytes_eq→eq : (s t : Bytes) → bytes_eq s t ≡ true → s ≡ t
unfolding bytes_eq
bytes_eq→eq [] [] h = refl
bytes_eq→eq [] (d ∷ t) h = cc
bytes_eq→eq (c ∷ s) [] h = cc
bytes_eq→eq (c ∷ s) (d ∷ t) h = ground (arith, bytes_eq→eq s t)

pub bytes_eq_refl : (s : Bytes) → bytes_eq s s ≡ true
unfolding bytes_eq
bytes_eq_refl [] = refl
bytes_eq_refl (c ∷ s) = ground (arith, bytes_eq_refl s)
