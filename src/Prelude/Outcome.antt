-- ===== src/Prelude/Outcome.antt =====
-- What the parser of a frame does: an access outside an array, which C leaves undefined, an early
-- `return -1`, which leaves everything as it was, or a normal end.
use mathlib.Core.Path.{◌≡◌, refl}
use mathlib.Core.Bool.{Bool, true, false}
use mathlib.Core.Option.{Option, none, some}
use khorjin.Prelude.Options.{Gives, gives}

pub data Outcome {ℓ} (A : Type ℓ) : Type ℓ where
  fault : Outcome A
  rejected : Outcome A
  done : A → Outcome A

infixl 5 ◌>>=◌ ◌>>◌
abbrev pub ◌>>=◌ {ℓ κ} : {A : Type ℓ} {B : Type κ} → Outcome A → (A → Outcome B) → Outcome B
fault >>= f = fault
rejected >>= f = rejected
done a >>= f = f a

abbrev pub ◌>>◌ {ℓ} : {B : Type ℓ} → Outcome (Unit {0}) → Outcome B → Outcome B
m >> k = m >>= λ _. k

abbrev pub access {ℓ} : {A : Type ℓ} → Option A → Outcome A
access none = fault
access (some a) = done a

abbrev pub require : Bool → Outcome (Unit {0})
require true = done tt
require false = rejected

-- Inversion of a normal end.
pub >>=-eq-done {ℓ κ} :
    {A : Type ℓ} {B : Type κ} (m : Outcome A) (f : A → Outcome B) {b : B}
    → (m >>= f) ≡ done b
    → (a : A) × (m ≡ done a) × (f a ≡ done b)
>>=-eq-done fault f h = cc
>>=-eq-done rejected f h = cc
>>=-eq-done (done a) f h = (a, refl, h)

pub access-eq-done {ℓ} : {A : Type ℓ} (o : Option A) {a : A} → access o ≡ done a → o ≡ some a
access-eq-done none h = cc
access-eq-done (some x) h = cc

pub require-eq-done : (b : Bool) {u : Unit {0}} → require b ≡ done u → b ≡ true
require-eq-done true h = refl
require-eq-done false h = cc

-- No access outside an array, and what a normal end is like.
pub data Settles {ℓ κ} {A : Type ℓ} (P : A → Type κ) : Outcome A → Type (ℓ ⊔ κ) where
  refuses : Settles P rejected
  settles : {a : A} → P a → Settles P (done a)

pub Settles-access {ℓ κ μ} :
    {A : Type ℓ} {B : Type ℓ} {P : A → Type κ} (Q : B → Type μ) (m : Option A) (f : A → Outcome B)
    → Gives P m
    → ((a : A) → P a → Settles Q (f a))
    → Settles Q (access m >>= f)
Settles-access Q m f (gives x) h = h _ x

pub Settles-require {ℓ κ} :
    {B : Type ℓ} (Q : B → Type κ) (b : Bool) (k : Outcome B)
    → Settles Q k
    → Settles Q (require b >>= λ _. k)
Settles-require Q true k h = h
Settles-require Q false k h = refuses

pub Settles-of {ℓ κ} :
    {A : Type ℓ} {P : A → Type κ} {m : Option A} → Gives P m → Settles P (access m)
Settles-of (gives x) = settles x

pub Settles-not_fault {ℓ κ} :
    {A : Type ℓ} {P : A → Type κ} {o : Outcome A} → Settles P o → ¬ (o ≡ fault)
Settles-not_fault refuses e = cc
Settles-not_fault (settles x) e = cc
