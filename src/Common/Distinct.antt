-- ===== src/Common/Distinct.antt =====
-- Lists of numbers without repetition, and how long they can be.
use Prim.Native.Nat.{ℕ, zero, suc, ◌+◌, ◌≤◌, ◌<◌}
use mathlib.Core.Path.{◌≡◌, refl, sym, ap, subst}
use mathlib.Core.Logic.{◌≢◌, ◌⊎◌, inl, inr}
use mathlib.Core.List.{List, [], ◌∷◌}
use native.Mathlib.Omega.{arith}
use native.Mathlib.Decide.{ℕ_discrete}
use bitcoin_query_py.Common.Lists.{length}

abbrev pub IsIn : List ℕ → ℕ → Type 0
IsIn [] h = ⊥
IsIn (x ∷ xs) h = (x ≡ h) ⊎ IsIn xs h

abbrev pub IsDistinct : List ℕ → Type 0
IsDistinct [] = Unit {0}
IsDistinct (x ∷ xs) = (¬ IsIn xs x) × IsDistinct xs

pub is_in : (xs : List ℕ) (h : ℕ) → Dec (IsIn xs h)
is_in [] h = no (λ k. k)
is_in (x ∷ xs) h = elim (ℕ_discrete x h) [
  | yes p ↦ yes (inl p)
  | no n ↦ elim (is_in xs h) [
    | yes later ↦ yes (inr later)
    | no m ↦ no (λ k. elim k [ inl p ↦ n p | inr later ↦ m later ])
  ]
]

-- An element in front, unless it is dropped.
abbrev kept : {k x : ℕ} → Dec (x ≡ k) → List ℕ → List ℕ
kept (yes _) rest = rest
kept {x = x} (no _) rest = x ∷ rest

without : ℕ → List ℕ → List ℕ
without k [] = []
without k (x ∷ xs) = let rest = without k xs in kept (ℕ_discrete x k) rest

kept-IsIn :
    {k x : ℕ} (d : Dec (x ≡ k)) (rest xs : List ℕ) (y : ℕ)
    → (IsIn rest y → IsIn xs y × (y ≢ k))
    → IsIn (kept d rest) y
    → IsIn (x ∷ xs) y × (y ≢ k)
kept-IsIn (yes p) rest xs y later h = let (there, ne) = later h in (inr there, ne)
kept-IsIn (no n) rest xs y later (inl p) = (inl p, λ q. n (omega (arith, p, q)))
kept-IsIn (no n) rest xs y later (inr h) = let (there, ne) = later h in (inr there, ne)

without-IsIn : (k : ℕ) (xs : List ℕ) (y : ℕ) → IsIn (without k xs) y → IsIn xs y × (y ≢ k)
unfolding without
without-IsIn k [] y h = absurd h
without-IsIn k (x ∷ xs) y h = kept-IsIn (ℕ_discrete x k) (without k xs) xs y (without-IsIn k xs y) h

without-IsDistinct : (k : ℕ) (xs : List ℕ) → IsDistinct xs → IsDistinct (without k xs)
unfolding without
without-IsDistinct k [] apart = tt
without-IsDistinct k (x ∷ xs) (fresh, apart) =
    elim (ℕ_discrete x k) as (λ d. IsDistinct (kept d (without k xs))) [
      | yes p ↦ without-IsDistinct k xs apart
      | no n ↦ ((λ h. fresh (without-IsIn k xs x h).0), without-IsDistinct k xs apart)
    ]

without-absent : (k : ℕ) (xs : List ℕ) → ¬ IsIn xs k → without k xs ≡ xs
unfolding without
without-absent k [] absent = refl
without-absent k (x ∷ xs) absent = elim (ℕ_discrete x k) as (λ d. kept d (without k xs) ≡ x ∷ xs) [
  | yes p ↦ absurd (absent (inl p))
  | no n ↦ ap (◌∷◌ x) (without-absent k xs (λ h. absent (inr h)))
]

length-without : (k : ℕ) (xs : List ℕ) → IsDistinct xs → length xs ≤ length (without k xs) + 1
unfolding without
length-without k [] apart = omega arith
length-without k (x ∷ xs) (fresh, apart) =
    elim (ℕ_discrete x k) as (λ d. length (x ∷ xs) ≤ length (kept d (without k xs)) + 1) [
      | yes p ↦
          let same = ap length (without-absent k xs (λ h. fresh (rw p h))) in omega (arith, same)
      | no n ↦ omega (arith, length-without k xs apart)
    ]

-- Different numbers below `n` are at most `n` of them.
pub length-le_of_below :
    (n : ℕ) (xs : List ℕ) → IsDistinct xs → ((y : ℕ) → IsIn xs y → y < n) → length xs ≤ n
length-le_of_below zero [] apart below = omega arith
length-le_of_below zero (x ∷ xs) apart below =
    absurd (let h = below x (inl refl) in omega (arith, h))
length-le_of_below (suc n) xs apart below = omega (
  arith,
  length-without n xs apart,
  length-le_of_below n (without n xs) (without-IsDistinct n xs apart) (λ y h.
      let (there, ne) = without-IsIn n xs y h in
      let small = below y there in omega (arith, small, ne)),
)

without-other : (k : ℕ) (xs : List ℕ) (y : ℕ) → IsIn xs y → y ≢ k → IsIn (without k xs) y
unfolding without
without-other k [] y there other = absurd there
without-other k (x ∷ xs) y there other =
    elim (ℕ_discrete x k) as (λ d. IsIn (kept d (without k xs)) y) [
      | yes p ↦ elim there [
        | inl q ↦ absurd (other (omega (arith, p, q)))
        | inr later ↦ without-other k xs y later other
      ]
      | no n ↦ elim there [ inl q ↦ inl q | inr later ↦ inr (without-other k xs y later other) ]
    ]

length-without-le : (k : ℕ) (xs : List ℕ) → length (without k xs) ≤ length xs
unfolding without
length-without-le k [] = omega arith
length-without-le k (x ∷ xs) =
    elim (ℕ_discrete x k) as (λ d. length (kept d (without k xs)) ≤ length (x ∷ xs)) [
      | yes p ↦ omega (arith, length-without-le k xs)
      | no n ↦ omega (arith, length-without-le k xs)
    ]

length-without-lt : (k : ℕ) (xs : List ℕ) → IsIn xs k → length (without k xs) < length xs
unfolding without
length-without-lt k [] there = absurd there
length-without-lt k (x ∷ xs) there =
    elim (ℕ_discrete x k) as (λ d. length (kept d (without k xs)) < length (x ∷ xs)) [
      | yes p ↦ omega (arith, length-without-le k xs)
      | no n ↦ elim there [
        | inl q ↦ absurd (n q)
        | inr later ↦ omega (arith, length-without-lt k xs later)
      ]
    ]

-- A list with all numbers below `n` has at least `n` elements.
pub length-ge_of_all : (n : ℕ) (xs : List ℕ) → ((y : ℕ) → y < n → IsIn xs y) → n ≤ length xs
length-ge_of_all zero xs all = omega arith
length-ge_of_all (suc n) xs all =
    let last = length-without-lt n xs (all n (omega arith)) in
    let others = length-ge_of_all n (without n xs) (λ y low.
      without-other n xs y (all y (omega (arith, low))) (λ e. absurd (omega (arith, e, low)))) in
    omega (arith, last, others)

-- A property that can be decided holds of all numbers below `n`, or there is one of which it does not.
pub find_below {ℓ} :
    (P : ℕ → Type ℓ)
    → ((h : ℕ) → Dec (P h))
    → (n : ℕ) → ((h : ℕ) × (h < n) × (¬ P h)) ⊎ ((h : ℕ) → h < n → P h)
find_below P decide zero = inr (λ h low. absurd (omega (arith, low)))
find_below P decide (suc n) = elim (find_below P decide n) [
  | inl (h, low, not_here) ↦ inl (h, omega (arith, low), not_here)
  | inr all ↦ elim (decide n) [
    | no not_here ↦ inl (n, omega arith, not_here)
    | yes here ↦ inr (λ h low. elim (ℕ_discrete h n) [
      | yes p ↦ subst P (sym p) here
      | no other ↦ all h (omega (arith, low, other))
    ])
  ]
]
