-- ===== src/Common/Snoc.antt =====
-- Lists with one element more at their end, and lists read backwards.
use Prim.Native.Nat.{ℕ, zero, suc}
use mathlib.Core.Path.{◌≡◌, refl, ap}
use mathlib.Core.Logic.{◌⊎◌, inl, inr}
use mathlib.Core.List.{List, [], ◌∷◌, ◌++◌, reverse, reverse-append}
use mathlib.Core.Option.{some, some_inj}
use native.Mathlib.Omega.{arith}
use bitcoin_query_py.Common.Lists.{length, length-append, get_elem?, All}

module _ {ℓ} {A : Type ℓ} where
  -- What stands at a place of a list with one element more.
  pub get_elem?-snoc :
      (xs : List A) (x : A) (i : ℕ) {y : A}
      → get_elem? (xs ++ x ∷ []) i ≡ some y
      → (get_elem? xs i ≡ some y) ⊎ ((i ≡ length xs) × (x ≡ y))
  get_elem?-snoc [] x zero h = inr (refl, ground arith)
  get_elem?-snoc [] x (suc i) h = cc
  get_elem?-snoc (z ∷ xs) x zero h = inl h
  get_elem?-snoc (z ∷ xs) x (suc i) h = elim (get_elem?-snoc xs x i h) [
    | inl p ↦ inl p
    | inr (p, q) ↦ inr (ap suc p, q)
  ]

  pub get_elem?-append_left :
      (xs ys : List A) (i : ℕ) {y : A} → get_elem? xs i ≡ some y → get_elem? (xs ++ ys) i ≡ some y
  get_elem?-append_left [] ys i h = cc
  get_elem?-append_left (x ∷ xs) ys zero h = h
  get_elem?-append_left (x ∷ xs) ys (suc i) h = get_elem?-append_left xs ys i h

  pub get_elem?-snoc_last : (xs : List A) (x : A) → get_elem? (xs ++ x ∷ []) (length xs) ≡ some x
  get_elem?-snoc_last [] x = refl
  get_elem?-snoc_last (z ∷ xs) x = get_elem?-snoc_last xs x

  pub reverse-cons : (x : A) (xs : List A) → reverse (x ∷ xs) ≡ reverse xs ++ x ∷ []
  reverse-cons x xs = reverse-append (x ∷ []) xs

  pub length-reverse : (xs : List A) → length (reverse xs) ≡ length xs
  length-reverse [] = refl
  length-reverse (x ∷ xs) =
      rw reverse-cons (omega (arith, length-append (reverse xs) (x ∷ []), length-reverse xs))

module _ {ℓ κ} {A : Type ℓ} (P : A → Type κ) where
  pub All-snoc : (xs : List A) (x : A) → All P xs → P x → All P (xs ++ x ∷ [])
  All-snoc [] x all p = (p, tt)
  All-snoc (y ∷ xs) x (q, all) p = (q, All-snoc xs x all p)

  pub All-reverse : (xs : List A) → All P xs → All P (reverse xs)
  All-reverse [] all = tt
  All-reverse (x ∷ xs) (p, all) =
      rw (reverse-cons x xs) (All-snoc (reverse xs) x (All-reverse xs all) p)

  pub All-last : (xs : List A) (x : A) → All P (xs ++ x ∷ []) → P x
  All-last [] x (p, _) = p
  All-last (y ∷ xs) x (_, all) = All-last xs x all

  pub All-get_elem? : (xs : List A) (i : ℕ) {x : A} → All P xs → get_elem? xs i ≡ some x → P x
  All-get_elem? [] i all h = cc
  All-get_elem? (x ∷ xs) zero (p, _) h = rw (some_inj.0 h) at p
  All-get_elem? (x ∷ xs) (suc i) (_, all) h = All-get_elem? xs i all h

  pub All-map : (Q : A → Type κ) (xs : List A) → ((x : A) → P x → Q x) → All P xs → All Q xs
  All-map Q [] f all = tt
  All-map Q (x ∷ xs) f (p, all) = (f x p, All-map Q xs f all)
