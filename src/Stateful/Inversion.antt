-- ===== src/Stateful/Inversion.antt =====
-- What code that returned or threw has done.
use oraduck.Stateful.{Fault, Outcome, done, fault, Stateful, pure, resume, rescue, ◌>>=◌, catch}
use oraduck.Prelude.{◌≡◌, refl, ◌⊎◌, inl, inr}

abbrev pub Returned : {S A : Type 0} → Stateful S A → S → A → S → Type 0
Returned m log a log' = m log ≡ (done a, log')

abbrev pub Threw : {S A : Type 0} → Stateful S A → S → Fault → S → Type 0
Threw m log e log' = m log ≡ (fault e, log')

resumed :
    {S A B : Type 0} (f : A → Stateful S B) (r : Outcome A × S) {b : B} {log' : S}
    → resume f r ≡ (done b, log')
    → (a : A) × (mid : S) × (r ≡ (done a, mid)) × Returned (f a) mid b log'
resumed f (done a, mid) h = (a, mid, refl, h)
resumed f (fault e, mid) h = cc

rescued :
    {S A : Type 0} (handler : Fault → Stateful S A) (r : Outcome A × S) {b : A} {log' : S}
    → rescue handler r ≡ (done b, log')
    → (r ≡ (done b, log'))
      ⊎ ((e : Fault) × (mid : S) × (r ≡ (fault e, mid)) × Returned (handler e) mid b log')
rescued handler (done a, mid) h = inl h
rescued handler (fault e, mid) h = inr (e, mid, refl, h)

-- The steps of a chain that returned.
pub >>=-Returned :
    {S A B : Type 0} (m : Stateful S A) (f : A → Stateful S B) (log : S) {b : B} {log' : S}
    → Returned (m >>= f) log b log'
    → (a : A) × (mid : S) × Returned m log a mid × Returned (f a) mid b log'
>>=-Returned m f log h = resumed f (m log) h

-- A try block returned, or its handler did.
pub catch-Returned :
    {S A : Type 0} (m : Stateful S A) (handler : Fault → Stateful S A) (log : S) {b : A} {log' : S}
    → Returned (catch m handler) log b log'
    → Returned m log b log'
      ⊎ ((e : Fault) × (mid : S) × Threw m log e mid × Returned (handler e) mid b log')
catch-Returned m handler log h = rescued handler (m log) h

pub done_inj : {S A : Type 0} (a : A) (l : S) {b : A} {m : S} → Returned (pure a) l b m → a ≡ b
done_inj a l h = cc

always_resumed :
    {S A B : Type 0} (P : S → Type 0) (f : A → Stateful S B) (r : Outcome A × S)
    → ((e : Fault) (mid : S) → r ≡ (fault e, mid) → P mid)
    → ((a : A) (mid : S) → r ≡ (done a, mid) → P ((f a mid).1))
    → P ((resume f r).1)
always_resumed P f (done a, mid) stop go = go a mid refl
always_resumed P f (fault e, mid) stop go = stop e mid refl

always_rescued :
    {S A : Type 0} (P : S → Type 0) (handler : Fault → Stateful S A) (r : Outcome A × S)
    → ((a : A) (mid : S) → r ≡ (done a, mid) → P mid)
    → ((e : Fault) (mid : S) → r ≡ (fault e, mid) → P ((handler e mid).1))
    → P ((rescue handler r).1)
always_rescued P handler (done a, mid) stop go = stop a mid refl
always_rescued P handler (fault e, mid) stop go = go e mid refl

-- What holds of the state at the end, of a chain and of a try block, returned or thrown.
pub >>=-always :
    {S A B : Type 0} (P : S → Type 0) (m : Stateful S A) (f : A → Stateful S B) (log : S)
    → ((e : Fault) (mid : S) → Threw m log e mid → P mid)
    → ((a : A) (mid : S) → Returned m log a mid → P ((f a mid).1))
    → P ((◌>>=◌ m f log).1)
>>=-always P m f log stop go = always_resumed P f (m log) stop go

pub catch-always :
    {S A : Type 0} (P : S → Type 0) (m : Stateful S A) (handler : Fault → Stateful S A) (log : S)
    → ((a : A) (mid : S) → Returned m log a mid → P mid)
    → ((e : Fault) (mid : S) → Threw m log e mid → P ((handler e mid).1))
    → P ((catch m handler log).1)
catch-always P m handler log stop go = always_rescued P handler (m log) stop go

resumed_fault :
    {S A B : Type 0} (f : A → Stateful S B) (r : Outcome A × S) {e : Fault} {log' : S}
    → resume f r ≡ (fault e, log')
    → (r ≡ (fault e, log')) ⊎ ((a : A) × (mid : S) × (r ≡ (done a, mid)) × Threw (f a) mid e log')
resumed_fault f (done a, mid) h = inr (a, mid, refl, h)
resumed_fault f (fault x, mid) h = inl (cc)

rescued_fault :
    {S A : Type 0} (handler : Fault → Stateful S A) (r : Outcome A × S) {e : Fault} {log' : S}
    → rescue handler r ≡ (fault e, log')
    → (x : Fault) × (mid : S) × (r ≡ (fault x, mid)) × Threw (handler x) mid e log'
rescued_fault handler (done a, mid) h = cc
rescued_fault handler (fault x, mid) h = (x, mid, refl, h)

-- Which step of a chain threw.
pub >>=-Threw :
    {S A B : Type 0} (m : Stateful S A) (f : A → Stateful S B) (log : S) {e : Fault} {log' : S}
    → Threw (◌>>=◌ m f) log e log'
    → Threw m log e log' ⊎ ((a : A) × (mid : S) × Returned m log a mid × Threw (f a) mid e log')
>>=-Threw m f log h = resumed_fault f (m log) h

-- A try block threw: its handler did, for what the body threw.
pub catch-Threw :
    {S A : Type 0} (m : Stateful S A) (handler : Fault → Stateful S A) (log : S) {e : Fault}
    {log' : S}
    → Threw (catch m handler) log e log'
    → (x : Fault) × (mid : S) × Threw m log x mid × Threw (handler x) mid e log'
catch-Threw m handler log h = rescued_fault handler (m log) h

-- What code leaves true, returned or thrown.
abbrev pub Keeps : {S A : Type 0} → (S → Type 0) → Stateful S A → Type 0
Keeps {S = S} P m = (s : S) → P s → P ((m s).1)

kept_resumed :
    {S A B : Type 0} (P : S → Type 0) (f : A → Stateful S B) (r : Outcome A × S)
    → ((a : A) → Keeps P (f a))
    → P r.1
    → P ((resume f r).1)
kept_resumed P f (done a, s) go p = go a s p
kept_resumed P f (fault e, s) go p = p

pub >>=-Keeps :
    {S A B : Type 0} (P : S → Type 0) (m : Stateful S A) (f : A → Stateful S B)
    → Keeps P m
    → ((a : A) → Keeps P (f a))
    → Keeps P (◌>>=◌ m f)
>>=-Keeps P m f first go s p = kept_resumed P f (m s) go (first s p)
