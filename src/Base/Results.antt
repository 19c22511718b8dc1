-- ===== src/Base/Results.antt =====
-- Results of the C++ functions: a value, or the failure value (-1 or NULL) with what the function
-- itself stores in errno. `fault` is a failure that stores nothing there, and `out_of_fuel` is no C++
-- result: a loop of the model used up its rounds.

use Prim.Native.Nat.{ℕ}
use mathlib.Core.Path.{◌≡◌, refl, ap}
use mathlib.Core.Logic.{◌≢◌}
use mathlib.Core.Bool.{Bool, true, false}
use arthur.Base.Tests.{if◌then◌else◌}

pub data Error : Type 0 where
  ebadf einval eio ebusy eproto eoverflow efbig enospc enametoolong fault out_of_fuel : Error

pub data Result {ℓ} (A : Type ℓ) : Type ℓ where
  ok : A → Result A
  err : Error → Result A

-- Goes on with the value and the state of a method that succeeded; the state of one that failed stays.
abbrev pub and_then {ℓ κ μ} :
    {A : Type ℓ} {B : Type κ} {S : Type μ} → Result A × S → (A → S → Result B × S) → Result B × S
and_then (ok a, s) f = f a s
and_then (err e, s) f = (err e, s)

-- Inversion of a sequence that succeeded.
pub and_then-eq-ok {ℓ κ μ} :
    {A : Type ℓ} {B : Type κ} {S : Type μ} (p : Result A × S) (f : A → S → Result B × S) {b : B}
    {t : S}
    → and_then p f ≡ (ok b, t)
    → (a : A) × (s : S) × (p ≡ (ok a, s)) × (f a s ≡ (ok b, t))
and_then-eq-ok (ok a, s) f h = (a, s, refl, h)
and_then-eq-ok (err e, s) f h = cc

-- A sequence goes on behind a call that succeeded.
pub and_then-ok {ℓ κ μ} :
    {A : Type ℓ} {B : Type κ} {S : Type μ} {p : Result A × S} (f : A → S → Result B × S) {a : A}
    {s : S}
    → p ≡ (ok a, s)
    → and_then p f ≡ f a s
and_then-ok f h = ap (λ p. and_then p f) h

-- A call that succeeded passed its guard.
pub past_guard {ℓ μ} :
    {A : Type ℓ} {S : Type μ} (b : Bool) (e : Error) (s : S) (p : Result A × S) {a : A} {t : S}
    → (if b then (err e, s) else p) ≡ (ok a, t)
    → p ≡ (ok a, t)
past_guard true e s p h = cc
past_guard false e s p h = h

-- The number that a call returned, 0 for a failure.
abbrev pub count_of : Result ℕ → ℕ
count_of (ok n) = n
count_of (err e) = 0

pub guard_off {ℓ μ} :
    {A : Type ℓ} {S : Type μ} (b : Bool) (e : Error) (s : S) (p : Result A × S) {a : A} {t : S}
    → (if b then (err e, s) else p) ≡ (ok a, t)
    → b ≡ false
guard_off true e s p h = cc
guard_off false e s p h = refl

-- What each step keeps of the object, a sequence and a conditional keep.
module _ {ℓ κ μ} {A : Type ℓ} {S : Type μ} (P : S → Type κ) where
  pub and_then-keep {ν} :
      {B : Type ν} (p : Result A × S) (f : A → S → Result B × S)
      → P p.1
      → ((a : A) (s : S) → P s → P (f a s).1)
      → P (and_then p f).1
  and_then-keep (ok a, s) f h k = k a s h
  and_then-keep (err e, s) f h k = h

  pub if-keep : (b : Bool) (p q : Result A × S) → P p.1 → P q.1 → P (if b then p else q).1
  if-keep true p q h k = h
  if-keep false p q h k = k

  -- The same, where a branch knows its test.
  pub if-keep_known :
      (b : Bool) (p q : Result A × S)
      → (b ≡ true → P p.1)
      → (b ≡ false → P q.1)
      → P (if b then p else q).1
  if-keep_known true p q h k = h refl
  if-keep_known false p q h k = k refl

-- A result that is none of the model's own.
pub record Ends {A S : Type 0} (p : Result A × S) : Type 0 where
  pub enough : p.0 ≢ err Error.out_of_fuel

pub and_then-Ends :
    {A B S : Type 0} (p : Result A × S) (f : A → S → Result B × S)
    → Ends p
    → ((a : A) (s : S) → Ends (f a s))
    → Ends (and_then p f)
and_then-Ends (ok a, s) f h k = k a s
and_then-Ends (err e, s) f h k = record { enough = λ q. h.enough (cc) }

pub if-Ends :
    {A S : Type 0} (b : Bool) (p q : Result A × S)
    → (b ≡ true → Ends p)
    → (b ≡ false → Ends q)
    → Ends (if b then p else q)
if-Ends true p q h k = h refl
if-Ends false p q h k = k refl

-- `Q` of the value and the object where a call succeeded.
abbrev pub After : {A S : Type 0} → (A → S → Type 0) → Result A × S → Type 0
After Q (ok a, s) = Q a s
After Q (err e, s) = Unit {0}

pub and_then-After :
    {A B S : Type 0} (Q : A → S → Type 0) (R : B → S → Type 0) (p : Result A × S)
    (f : A → S → Result B × S)
    → After Q p
    → ((a : A) (s : S) → Q a s → After R (f a s))
    → After R (and_then p f)
and_then-After Q R (ok a, s) f h k = k a s h
and_then-After Q R (err e, s) f h k = tt

pub if-After :
    {A S : Type 0} (Q : A → S → Type 0) (b : Bool) (p q : Result A × S)
    → (b ≡ true → After Q p)
    → (b ≡ false → After Q q)
    → After Q (if b then p else q)
if-After Q true p q h k = h refl
if-After Q false p q h k = k refl

pub After-map :
    {A S : Type 0} (Q R : A → S → Type 0) (p : Result A × S)
    → ((a : A) (s : S) → Q a s → R a s)
    → After Q p
    → After R p
After-map Q R (ok a, s) f h = f a s h
After-map Q R (err e, s) f h = tt
