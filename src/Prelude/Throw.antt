-- ===== src/Prelude/Throw.antt =====
-- What a function that may throw returns (oraduck/errors.hpp). The exception carries its message.
use mathlib.Core.Path.{◌≡◌, refl}
use oraduck.Prelude.Text.{Bytes}
use oraduck.Prelude.Tests.{if◌then◌else◌}
use mathlib.Core.Bool.{Bool}

-- `err` is `throw OraduckError(message)`.
pub data Result {ℓ} (A : Type ℓ) : Type ℓ where
  ok : A → Result A
  err : Bytes → Result A

infixl 5 ◌>>=◌ ◌>>◌
abbrev pub ◌>>=◌ {ℓ κ} :
    {From : Type ℓ} {To : Type κ} → Result From → (From → Result To) → Result To
err message >>= next = err message
ok value >>= next = next value

-- A statement whose value is dropped.
abbrev pub ◌>>◌ {κ} : {To : Type κ} → Result (Unit {0}) → Result To → Result To
err message >> next = err message
ok done >> next = next

-- `if (bad) throw OraduckError(message);`
abbrev pub throw_if : Bool → Bytes → Result (Unit {0})
throw_if bad message = if bad then err message else ok tt

-- A chain that returned: its first step did, and so did the rest.
pub >>=-eq-ok {ℓ κ} :
    {From : Type ℓ} {To : Type κ} (step : Result From) (next : From → Result To) {result : To}
    → (step >>= next) ≡ ok result
    → (value : From) × (step ≡ ok value) × (next value ≡ ok result)
>>=-eq-ok (err message) next e = cc
>>=-eq-ok (ok value) next e = (value, refl, e)

pub ok_inj {ℓ} : {A : Type ℓ} {a b : A} → ok a ≡ ok b → a ≡ b
ok_inj h = cc
