-- ===== src/Prelude/Options.antt =====
-- `Option` as a monad: `?` on an option, and `unwrap`, whose panic is `none`.
use mathlib.Core.Path.{◌≡◌, refl, subst}
use mathlib.Core.Option.{Option, none, some}

infixl 5 ◌>>=◌
abbrev pub ◌>>=◌ {ℓ κ} : {A : Type ℓ} {B : Type κ} → Option A → (A → Option B) → Option B
none >>= f = none
some a >>= f = f a

-- The first of two values that is there (`Option::or`).
abbrev pub or_else {ℓ} : {A : Type ℓ} → Option A → Option A → Option A
or_else none b = b
or_else (some a) b = some a

-- `Option::map`
abbrev pub map_option {ℓ κ} : {A : Type ℓ} {B : Type κ} → (A → B) → Option A → Option B
map_option f none = none
map_option f (some a) = some (f a)

-- What a successful chain passed on.
pub >>=-eq-some {ℓ κ} :
    {A : Type ℓ} {B : Type κ} (m : Option A) (f : A → Option B) {b : B}
    → (m >>= f) ≡ some b
    → (a : A) × (m ≡ some a) × (f a ≡ some b)
>>=-eq-some none f h = cc
>>=-eq-some (some a) f h = (a, refl, h)

-- The value, if there is one, has the property.
abbrev pub Each {ℓ κ} : {A : Type ℓ} → (A → Type κ) → Option A → Type κ
Each P none = Unit
Each P (some a) = P a

pub Each->>= {ℓ κ υ} :
    {A : Type ℓ} {B : Type κ} (P : B → Type υ) (m : Option A) (f : A → Option B)
    → ((a : A) → m ≡ some a → Each P (f a))
    → Each P (m >>= f)
Each->>= P none f h = tt
Each->>= P (some a) f h = h a refl

pub Each-value {ℓ κ} :
    {A : Type ℓ} (P : A → Type κ) (m : Option A) (a : A) → Each P m → m ≡ some a → P a
Each-value P m a h e = subst (Each P) e h

-- A chain whose steps keep the property.
pub Each-chain {ℓ κ} :
    {A : Type ℓ} (P : A → Type κ) (m : Option A) (f : A → Option A)
    → Each P m
    → ((a : A) → P a → Each P (f a))
    → Each P (m >>= f)
Each-chain P none f k h = tt
Each-chain P (some a) f k h = h a k
