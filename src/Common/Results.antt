-- ===== src/Common/Results.antt =====
-- Outcomes of Rust code: `Ok`, `Err`, or a panic that unwinds the thread.
use Prim.Native.String.{String}
use mathlib.Core.Logic.{◌⊎◌, inl, inr}
use mathlib.Core.Path.{◌≡◌, refl}

pub data Result {ℓ κ} (E : Type κ) (A : Type ℓ) : Type (ℓ ⊔ κ) where
  ok : A → Result E A
  err : E → Result E A
  panic : String → Result E A

infixl 5 ◌>>=◌
abbrev pub ◌>>=◌ {ℓ κ μ} :
    {E : Type κ} {A : Type ℓ} {B : Type μ} → Result E A → (A → Result E B) → Result E B
outcome >>= next = elim outcome [ ok a ↦ next a | err e ↦ err e | panic text ↦ panic text ]

pub Result-cases {ℓ κ} :
    {E : Type κ} {A : Type ℓ} (outcome : Result E A)
    → ((a : A) × (outcome ≡ ok a))
      ⊎ (((e : E) × (outcome ≡ err e)) ⊎ ((text : String) × (outcome ≡ panic text)))
Result-cases (ok a) = inl (a, refl)
Result-cases (err e) = inr (inl (e, refl))
Result-cases (panic text) = inr (inr (text, refl))

-- A chain whose first step succeeds.
pub >>=-ok {ℓ κ μ} :
    {E : Type κ} {A : Type ℓ} {B : Type μ} {outcome : Result E A} {a : A} (next : A → Result E B)
    → outcome ≡ ok a
    → (outcome >>= next) ≡ next a
>>=-ok next e = rw e refl

-- What a chain that succeeds says of its first step.
pub >>=-eq-ok {ℓ κ μ} :
    {E : Type κ} {A : Type ℓ} {B : Type μ} (outcome : Result E A) (next : A → Result E B) {last : B}
    → (outcome >>= next) ≡ ok last
    → (first : A) × (outcome ≡ ok first) × (next first ≡ ok last)
>>=-eq-ok (ok first) next e = (first, refl, e)
>>=-eq-ok (err _) next e = cc
>>=-eq-ok (panic _) next e = cc

pub ok-injective {ℓ κ} :
    {E : Type κ} {A : Type ℓ} {a b : A} → ◌≡◌ {A = Result E A} (ok a) (ok b) → a ≡ b
ok-injective h = cc

-- Code that does not fail, inside code that may.
abbrev pub lift {ℓ κ} : {E : Type κ} {A : Type ℓ} → Result ⊥ A → Result E A
lift outcome = elim outcome [ ok a ↦ ok a | err e ↦ absurd e | panic text ↦ panic text ]

-- A function on the value of an outcome.
abbrev pub mapped {ℓ κ μ} :
    {E : Type κ} {A : Type ℓ} {B : Type μ} → (A → B) → Result E A → Result E B
mapped f outcome = outcome >>= λ a. ok (f a)
