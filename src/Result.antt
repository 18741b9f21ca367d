-- ===== src/Result.antt =====
-- Go's pair of a value and an error, where exactly one of them is set.
use mini_sms.Prelude.{◌≡◌, refl, Bool, true, false}

pub data Result {ℓ} (X : Type 0) (A : Type ℓ) : Type ℓ where
  ok : A → Result X A
  err : X → Result X A

-- fmt.Errorf("…: %w", err)
abbrev pub wrap {ℓ} : {X Y : Type 0} {A : Type ℓ} → (X → Y) → Result X A → Result Y A
wrap f (ok a) = ok a
wrap f (err x) = err (f x)

abbrev pub IsOk {ℓ} : {X : Type 0} {A : Type ℓ} → Result X A → Type 0
IsOk (ok a) = Unit
IsOk (err x) = ⊥

infixl 5 ◌>>=◌
abbrev pub ◌>>=◌ {ℓ κ} :
    {X : Type 0} {A : Type ℓ} {B : Type κ} → Result X A → (A → Result X B) → Result X B
ok a >>= f = f a
err x >>= f = err x

-- The value that the first step hands on, in a chain that succeeds.
pub >>=-eq-ok {ℓ κ} :
    {X : Type 0} {A : Type ℓ} {B : Type κ} {b : B} (f : A → Result X B) (m : Result X A)
    → (m >>= f) ≡ ok b
    → (v : A) × (f v ≡ ok b) × (m ≡ ok v)
>>=-eq-ok f (err x) h = absurd (cc)
>>=-eq-ok f (ok v) h = (v, h, refl)

pub wrap-eq-ok {ℓ} :
    {X Y : Type 0} {A : Type ℓ} (f : X → Y) (m : Result X A) {a : A} → wrap f m ≡ ok a → m ≡ ok a
wrap-eq-ok f (ok a) h = cc
wrap-eq-ok f (err x) h = absurd (cc)

-- A chain succeeds if its first step does, and then the rest does.
pub IsOk-bind {ℓ κ} :
    {X : Type 0} {A : Type ℓ} {B : Type κ} (m : Result X A) (f : A → Result X B)
    → IsOk m
    → ((a : A) → m ≡ ok a → IsOk (f a))
    → IsOk (m >>= f)
IsOk-bind (ok a) f h k = k a refl
IsOk-bind (err x) f h k = elim h [ ]

-- A step that only fails or goes on.
abbrev pub demand : {X : Type 0} → Bool → X → Result X (Unit {0})
demand true x = ok tt
demand false x = err x
