-- ===== src/Pal.antt =====
-- The platform abstraction layer that src/ieeeC37_118/ieeeC37_118.c calls: pal_socket.h, pal_time.h and
-- pal_thread.h, over a state of the world. A socket is the handle that `TcpSocket_create` returns.
use khorjin.Prelude.{ℕ, Bool, true, false, List, Option, none, some, ◌≡◌, if◌then◌else◌}
use mathlib.Core.Path.{subst}
use khorjin.Prelude.Int.{ℤ}

pub record Pal : Type 1 where
  pub World : Type 0
  pub socket_create : World → ℕ × World
  pub set_connect_timeout : ℕ → ℕ → World → World
  pub socket_connect : ℕ → List ℕ → ℤ → World → Bool × World
  -- The buffer with what was received in it, and the number of bytes, 0 for none or -1.
  pub socket_read : ℕ → List ℕ → ℕ → World → List ℕ × ℤ × World
  pub socket_write : ℕ → List ℕ → ℕ → World → ℤ × World
  pub socket_destroy : ℕ → World → World
  pub get_time_in_ms : World → ℕ × World
  pub thread_sleep : ℕ → World → World

-- A call of the library: an access outside an array, a loop that waits for the world and is still in
-- it after the rounds that were looked at, or a return.
pub data Call {ℓ} (A : Type ℓ) : Type ℓ where
  fault : Call A
  waiting : Call A
  returns : A → Call A

infixl 5 ◌>>=◌
abbrev pub ◌>>=◌ {ℓ κ} : {A : Type ℓ} {B : Type κ} → Call A → (A → Call B) → Call B
fault >>= f = fault
waiting >>= f = waiting
returns a >>= f = f a

abbrev pub access {ℓ} : {A : Type ℓ} → Option A → Call A
access none = fault
access (some a) = returns a

-- What the return of a call is like, if there is one.
pub data Returns {ℓ κ} {A : Type ℓ} (P : A → Type κ) : Call A → Type (ℓ ⊔ κ) where
  breaks : Returns P fault
  waits : Returns P waiting
  gives : {a : A} → P a → Returns P (returns a)

pub Returns->>= {ℓ κ μ} :
    {A : Type ℓ} {B : Type ℓ} {P : A → Type κ} (Q : B → Type μ) (m : Call A) (f : A → Call B)
    → Returns P m
    → ((a : A) → P a → Returns Q (f a))
    → Returns Q (m >>= f)
Returns->>= Q m f breaks h = breaks
Returns->>= Q m f waits h = waits
Returns->>= Q m f (gives x) h = h _ x

pub Returns->>=_any {ℓ κ} :
    {A : Type ℓ} {B : Type ℓ} (Q : B → Type κ) (m : Call A) (f : A → Call B)
    → ((a : A) → Returns Q (f a))
    → Returns Q (m >>= f)
Returns->>=_any Q fault f h = breaks
Returns->>=_any Q waiting f h = waits
Returns->>=_any Q (returns a) f h = h a

pub Returns-inv {ℓ κ} :
    {A : Type ℓ} {P : A → Type κ} (m : Call A) {a : A} → Returns P m → m ≡ returns a → P a
Returns-inv fault breaks e = cc
Returns-inv waiting waits e = cc
Returns-inv {P = P} (returns b) {a} (gives x) e = let same : b ≡ a = cc in subst P same x

pub Returns-map {ℓ κ μ} :
    {A : Type ℓ} {P : A → Type κ} {Q : A → Type μ} {m : Call A}
    → Returns P m
    → ((a : A) → P a → Q a)
    → Returns Q m
Returns-map breaks f = breaks
Returns-map waits f = waits
Returns-map (gives x) f = gives (f _ x)

pub Returns-if {ℓ κ} :
    {A : Type ℓ} {P : A → Type κ} (b : Bool) {x y : Call A}
    → Returns P x
    → Returns P y
    → Returns P (if b then x else y)
Returns-if true u v = u
Returns-if false u v = v

-- No access outside an array, and what the return is like, if there is one.
pub data Safe {ℓ κ} {A : Type ℓ} (P : A → Type κ) : Call A → Type (ℓ ⊔ κ) where
  waits : Safe P waiting
  gives : {a : A} → P a → Safe P (returns a)

pub Safe->>= {ℓ κ μ} :
    {A : Type ℓ} {B : Type ℓ} {P : A → Type κ} (Q : B → Type μ) (m : Call A) (f : A → Call B)
    → Safe P m
    → ((a : A) → P a → Safe Q (f a))
    → Safe Q (m >>= f)
Safe->>= Q m f waits h = waits
Safe->>= Q m f (gives x) h = h _ x

pub Safe-if {ℓ κ} :
    {A : Type ℓ} {P : A → Type κ} (b : Bool) {x y : Call A}
    → Safe P x
    → Safe P y
    → Safe P (if b then x else y)
Safe-if true u v = u
Safe-if false u v = v

pub Safe-not_fault {ℓ κ} : {A : Type ℓ} {P : A → Type κ} {m : Call A} → Safe P m → ¬ (m ≡ fault)
Safe-not_fault waits e = cc
Safe-not_fault (gives x) e = cc

pub Safe-inv {ℓ κ} :
    {A : Type ℓ} {P : A → Type κ} (m : Call A) {a : A} → Safe P m → m ≡ returns a → P a
Safe-inv fault s e = elim s [ ]
Safe-inv waiting waits e = cc
Safe-inv {P = P} (returns b) {a} (gives x) e = let same : b ≡ a = cc in subst P same x
