-- ===== src/Prelude/Options.antt =====
-- `Option` as the monad of code that may read or write outside an array: `none` is that fault.
use mathlib.Core.Path.{◌≡◌, refl, subst}
use mathlib.Core.Option.{Option, none, some}
use mathlib.Core.Bool.{Bool, true, false}
use khorjin.Prelude.Tests.{if◌then◌else◌}

infixl 5 ◌>>=◌
abbrev pub ◌>>=◌ {ℓ κ} : {A : Type ℓ} {B : Type κ} → Option A → (A → Option B) → Option B
none >>= f = none
some a >>= f = f a

-- What the result of code that may fault is like, if there is one.
pub data Yields {ℓ κ} {A : Type ℓ} (P : A → Type κ) : Option A → Type (ℓ ⊔ κ) where
  faults : Yields P none
  gives : {a : A} → P a → Yields P (some a)

pub Yields->>= {ℓ κ} :
    {A : Type ℓ} {B : Type ℓ} (P : B → Type κ) (m : Option A) (f : A → Option B)
    → ((a : A) → Yields P (f a))
    → Yields P (m >>= f)
Yields->>= P none f h = faults
Yields->>= P (some a) f h = h a

pub Yields->>=_with {ℓ κ μ} :
    {A : Type ℓ} {B : Type ℓ} {P : A → Type κ} (Q : B → Type μ) (m : Option A) (f : A → Option B)
    → Yields P m
    → ((a : A) → P a → Yields Q (f a))
    → Yields Q (m >>= f)
Yields->>=_with Q m f faults h = faults
Yields->>=_with Q m f (gives x) h = h _ x

pub Yields-inv {ℓ κ} :
    {A : Type ℓ} {P : A → Type κ} (m : Option A) {a : A} → Yields P m → m ≡ some a → P a
Yields-inv none faults e = cc
Yields-inv {P = P} (some b) {a} (gives x) e = let same : b ≡ a = cc in subst P same x

-- Code that does not fault, and what its result is like.
pub data Gives {ℓ κ} {A : Type ℓ} (P : A → Type κ) : Option A → Type (ℓ ⊔ κ) where
  gives : {a : A} → P a → Gives P (some a)

pub Gives->>= {ℓ κ μ} :
    {A : Type ℓ} {B : Type ℓ} {P : A → Type κ} (Q : B → Type μ) (m : Option A) (f : A → Option B)
    → Gives P m
    → ((a : A) → P a → Gives Q (f a))
    → Gives Q (m >>= f)
Gives->>= Q m f (gives x) h = h _ x

pub Yields->>=_by {ℓ κ} :
    {A : Type ℓ} {B : Type ℓ} (P : B → Type κ) (m : Option A) (f : A → Option B)
    → ((a : A) → m ≡ some a → Yields P (f a))
    → Yields P (m >>= f)
Yields->>=_by P none f h = faults
Yields->>=_by P (some a) f h = h a refl

pub Yields-none {ℓ κ} :
    {A : Type ℓ} {P : A → Type κ} {m : Option A} → Yields P m → ((a : A) → ¬ P a) → m ≡ none
Yields-none faults h = refl
Yields-none (gives x) h = absurd (h _ x)

pub Yields-if {ℓ κ} :
    {A : Type ℓ} {P : A → Type κ} (b : Bool) {x y : Option A}
    → Yields P x
    → Yields P y
    → Yields P (if b then x else y)
Yields-if true u v = u
Yields-if false u v = v
