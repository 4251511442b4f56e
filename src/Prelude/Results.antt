-- ===== src/Prelude/Results.antt =====
-- Python functions that may raise: the exception's class is kept, its message is not.
use mathlib.Core.Path.{◌≡◌, refl, ap}
use mathlib.Core.Bool.{Bool, true, false}
use mathlib.Core.List.{List, [], ◌∷◌}

pub data Raised : Type 0 where
  value_error type_error runtime_error key_error file_not_found os_error attribute_error : Raised

pub data Result {κ} (T : Type κ) : Type κ where
  err : Raised → Result T
  ok : T → Result T

-- `if not test: raise e`
abbrev pub guard : Bool → Raised → Result (Unit {0})
guard false raised = err raised
guard true raised = ok tt

infixl 5 ◌>>=◌ ◌>>◌
abbrev pub ◌>>=◌ {κ μ} : {T : Type κ} {U : Type μ} → Result T → (T → Result U) → Result U
err raised >>= next = err raised
ok t >>= next = next t

-- a step whose value is not used
abbrev pub ◌>>◌ {μ} : {U : Type μ} → Result (Unit {0}) → Result U → Result U
first >> second = first >>= λ _. second

-- A comprehension over a function that may raise: the first exception ends it.
abbrev pub traverse {ℓ κ} : {A : Type ℓ} {B : Type κ} → (A → Result B) → List A → Result (List B)
traverse f [] = ok []
traverse f (x ∷ xs) = f x >>= λ y. traverse f xs >>= λ ys. ok (y ∷ ys)

-- What a chain of fallible steps that returned has done first.
pub >>=-eq-ok {κ μ} :
    {T : Type κ} {U : Type μ} (step : Result T) (next : T → Result U) {u : U}
    → (step >>= next) ≡ ok u
    → (t : T) × (step ≡ ok t) × (next t ≡ ok u)
>>=-eq-ok (err raised) next returned = cc
>>=-eq-ok (ok t) next returned = (t, refl, returned)

-- A property of all that the rest of a chain returns is one of all that the chain returns.
pub >>=-returns {κ μ ν} :
    {T : Type κ} {U : Type μ} (P : U → Type ν) (step : Result T) (next : T → Result U)
    → ((t : T) → step ≡ ok t → (u : U) → next t ≡ ok u → P u)
    → (u : U) → (step >>= next) ≡ ok u
    → P u
>>=-returns P (err raised) next h u returned = absurd (cc returned)
>>=-returns P (ok t) next h u returned = h t refl u returned

-- Chains of fallible steps are compared step by step.
pub bind_cong {ℓ κ} :
    {A : Type ℓ} {B : Type κ} (m : Result A) {f g : A → Result B}
    → ((a : A) → f a ≡ g a)
    → (m >>= f) ≡ (m >>= g)
bind_cong (ok a) h = h a
bind_cong (err e) h = refl

-- The same, where the steps may use that the first one returned.
pub bind_cong_ok {ℓ κ} :
    {A : Type ℓ} {B : Type κ} (m : Result A) {f g : A → Result B}
    → ((a : A) → m ≡ ok a → f a ≡ g a)
    → (m >>= f) ≡ (m >>= g)
bind_cong_ok (ok a) h = h a refl
bind_cong_ok (err e) h = refl

pub bind_assoc {ℓ κ μ} :
    {A : Type ℓ} {B : Type κ} {C : Type μ} (m : Result A) (f : A → Result B) (g : B → Result C)
    → (m >>= f >>= g) ≡ (m >>= λ a. f a >>= g)
bind_assoc (ok a) f g = refl
bind_assoc (err e) f g = refl

abbrev ok_or {ℓ} : {A : Type ℓ} → A → Result A → A
ok_or d (ok a) = a
ok_or d (err e) = d

pub ok_injective {ℓ} : {A : Type ℓ} {a b : A} → ok a ≡ ok b → a ≡ b
ok_injective {a = a} p = ap (ok_or a) p
