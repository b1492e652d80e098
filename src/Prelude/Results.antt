-- ===== src/Prelude/Results.antt =====
-- Results of code that can fail: an exception, an abort, or an access that C++ leaves undefined.
use mathlib.Core.Path.{◌≡◌, refl, subst}
use mathlib.Core.Logic.{◌⊎◌, inl, inr}
use mathlib.Core.Bool.{Bool, true, false}
use mathlib.Core.Option.{Option, none, some}

-- `no_fuel` is the end of the fuel of a loop. `bad_read` and `bad_write` are accesses outside a buffer, `dangling` a use of a deleted object;
-- `length_error`, `out_of_range` and `runtime_error` are the standard exceptions of these names,
-- and `fatal` is `qFatal`, which aborts the program.
pub data Failure : Type 0 where
  no_fuel bad_read bad_write dangling length_error out_of_range runtime_error fatal : Failure

pub data Result {ℓ} (A : Type ℓ) : Type ℓ where
  ok : A → Result A
  err : Failure → Result A

infixl 5 ◌>>=◌ ◌>>◌
abbrev pub ◌>>=◌ {ℓ κ} : {A : Type ℓ} {B : Type κ} → Result A → (A → Result B) → Result B
ok x >>= next = next x
err why >>= next = err why

abbrev pub ◌>>◌ {ℓ} : {B : Type ℓ} → Result (Unit {0}) → Result B → Result B
first >> second = first >>= λ _. second

abbrev pub guard : Bool → Failure → Result (Unit {0})
guard true why = ok tt
guard false why = err why

-- Inversion of a successful bind.
pub >>=-eq-ok {ℓ κ} :
    {A : Type ℓ} {B : Type κ} (first : Result A) (next : A → Result B) {y : B}
    → (first >>= next) ≡ ok y
    → (x : A) × (first ≡ ok x) × (next x ≡ ok y)
>>=-eq-ok (ok x) next returned = (x, refl, returned)
>>=-eq-ok (err why) next returned = cc

pub ok_injective {ℓ} : {A : Type ℓ} {a b : A} → ◌≡◌ {A = Result A} (ok a) (ok b) → a ≡ b
ok_injective h = cc

abbrev pub or_fail {ℓ} : {A : Type ℓ} → Option A → Failure → Result A
or_fail none e = err e
or_fail (some a) e = ok a

-- The type with no element, at any level.
pub data Never {κ} : Type κ where

-- The code returns, and what it returns satisfies `P`.
abbrev pub Returns {ℓ κ} : {A : Type ℓ} → (A → Type κ) → Result A → Type κ
Returns P (ok a) = P a
Returns P (err e) = Never

pub Returns-bind {ℓ κ μ ν} :
    {A : Type ℓ} {B : Type κ} (Q : A → Type μ) (P : B → Type ν) (m : Result A) (f : A → Result B)
    → Returns Q m
    → ((a : A) → Q a → Returns P (f a))
    → Returns P (m >>= f)
Returns-bind Q P (ok a) f h k = k a h
Returns-bind Q P (err e) f h k = elim h [ ]

pub Returns-ok {ℓ κ} :
    {A : Type ℓ} (P : A → Type κ) (m : Result A) → Returns P m → (a : A) × (m ≡ ok a) × P a
Returns-ok P (ok a) h = (a, refl, h)
Returns-ok P (err e) h = elim h [ ]

-- If the code returns, what it returns satisfies `P`.
abbrev pub Ensures {ℓ κ} : {A : Type ℓ} → (A → Type κ) → Result A → Type κ
Ensures P (ok a) = P a
Ensures P (err e) = Unit

pub Ensures-bind {ℓ κ μ} :
    {A : Type ℓ} {B : Type κ} (P : B → Type μ) (m : Result A) (f : A → Result B)
    → ((a : A) → Ensures P (f a))
    → Ensures P (m >>= f)
Ensures-bind P (ok a) f k = k a
Ensures-bind P (err e) f k = tt

pub Returns→Ensures {ℓ κ} : {A : Type ℓ} (P : A → Type κ) (m : Result A) → Returns P m → Ensures P m
Returns→Ensures P (ok a) h = h
Returns→Ensures P (err e) h = tt

pub Ensures-both {ℓ κ μ} :
    {A : Type ℓ} (P : A → Type κ) (Q : A → Type μ) (m : Result A)
    → Ensures P m
    → Ensures Q m
    → Ensures (λ a. P a × Q a) m
Ensures-both P Q (ok a) h k = (h, k)
Ensures-both P Q (err e) h k = tt

pub Ensures-map {ℓ κ μ} :
    {A : Type ℓ} (P : A → Type κ) (Q : A → Type μ) (m : Result A)
    → Ensures P m
    → ((a : A) → P a → Q a)
    → Ensures Q m
Ensures-map P Q (ok a) h k = k a h
Ensures-map P Q (err e) h k = tt

pub Ensures-of {ℓ κ} : {A : Type ℓ} {P : A → Type κ} (m : Result A) → ((a : A) → P a) → Ensures P m
Ensures-of (ok a) h = h a
Ensures-of (err e) h = tt

pub Ensures-bind_of {ℓ κ μ ν} :
    {A : Type ℓ} {B : Type κ} (Q : A → Type μ) (P : B → Type ν) (m : Result A) (f : A → Result B)
    → Ensures Q m
    → ((a : A) → Q a → Ensures P (f a))
    → Ensures P (m >>= f)
Ensures-bind_of Q P (ok a) f h k = k a h
Ensures-bind_of Q P (err e) f h k = tt

pub Ensures-ok {ℓ κ} :
    {A : Type ℓ} (P : A → Type κ) (m : Result A) {a : A} → Ensures P m → m ≡ ok a → P a
Ensures-ok P m h e = subst (Ensures P) e h

pub >>=_assoc {ℓ κ μ} :
    {A : Type ℓ} {B : Type κ} {C : Type μ} (m : Result A) (f : A → Result B) (g : B → Result C)
    → ((m >>= f) >>= g) ≡ (m >>= λ a. (f a >>= g))
>>=_assoc (ok a) f g = refl
>>=_assoc (err e) f g = refl

pub >>=_cong {ℓ κ} :
    {A : Type ℓ} {B : Type κ} (m : Result A) (f g : A → Result B)
    → ((a : A) → f a ≡ g a)
    → (m >>= f) ≡ (m >>= g)
>>=_cong (ok a) f g h = h a
>>=_cong (err e) f g h = refl

pub Result-cases {ℓ} :
    {A : Type ℓ} (m : Result A) → ((x : Failure) × (m ≡ err x)) ⊎ ((a : A) × (m ≡ ok a))
Result-cases (ok a) = inr (a, refl)
Result-cases (err x) = inl (x, refl)
