-- ===== src/Prelude/Options.antt =====
-- Chains of fallible steps, as a monad on `Option`.
use mathlib.Core.Path.{◌≡◌, refl, subst}
use mathlib.Core.Bool.{Bool, true, false}
use mathlib.Core.Option.{Option, none, some}

infixl 5 ◌>>=◌ ◌>>◌
abbrev pub ◌>>=◌ {ℓ κ} : {A : Type ℓ} {B : Type κ} → Option A → (A → Option B) → Option B
none >>= f = none
some a >>= f = f a

abbrev pub ◌>>◌ {ℓ} : {B : Type ℓ} → Option (Unit {0}) → Option B → Option B
m >> k = m >>= λ _. k

-- Inversion of a successful chain.
pub bind-eq-some {ℓ κ} :
    {A : Type ℓ} {B : Type κ} (m : Option A) (f : A → Option B) {b : B}
    → (m >>= f) ≡ some b
    → (a : A) × (m ≡ some a) × (f a ≡ some b)
bind-eq-some none f h = cc
bind-eq-some (some a) f h = (a, refl, h)

abbrev pub guard : Bool → Option (Unit {0})
guard true = some tt
guard false = none

-- Two chains are related where their first steps are, and their continuations.
pub bind-related {ℓ κ μ ν} :
    {A : Type ℓ} {B : Type κ} (S : A → A → Type μ) (R : B → B → Type ν) (m n : Option A)
    (f g : A → Option B) {b : B}
    → ((a : A) → m ≡ some a → (c : A) × (n ≡ some c) × S a c)
    → ((a c : A) → S a c → f a ≡ some b → (d : B) × (g c ≡ some d) × R b d)
    → (m >>= f) ≡ some b
    → (d : B) × ((n >>= g) ≡ some d) × R b d
bind-related S R m n f g first next h =
    let (a, e, k) = bind-eq-some m f h in
    let (c, e', s) = first a e in let (d, e'', r) = next a c s k in (d, rw e' e'', r)

-- The same where they begin with one step.
pub bind-same {ℓ κ ν} :
    {A : Type ℓ} {B : Type κ} (R : B → B → Type ν) (m : Option A) (f g : A → Option B) {b : B}
    → ((a : A) → f a ≡ some b → (d : B) × (g a ≡ some d) × R b d)
    → (m >>= f) ≡ some b
    → (d : B) × ((m >>= g) ≡ some d) × R b d
bind-same R none f g next h = cc
bind-same R (some a) f g next h = next a h

-- What a successful chain gives has a property where its continuation gives it.
pub bind-holds {ℓ κ ν} :
    {A : Type ℓ} {B : Type κ} (P : B → Type ν) (m : Option A) (f : A → Option B) {b : B}
    → ((a : A) → m ≡ some a → f a ≡ some b → P b)
    → (m >>= f) ≡ some b
    → P b
bind-holds P none f next h = cc
bind-holds P (some a) f next h = next a refl h

pub some-holds {ℓ ν} : {A : Type ℓ} (P : A → Type ν) {a b : A} → some a ≡ some b → P a → P b
some-holds P h x = subst P (cc) x
