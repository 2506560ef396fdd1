-- ===== src/Common/InsertAll.antt =====
-- A loop that inserts an entry for each element of a list, as the reverse indices are built.
use mathlib.Core.Path.{◌≡◌, refl, ap, ◌∙◌}
use mathlib.Core.Logic.{◌≢◌, ◌⊎◌, inl, inr}
use mathlib.Core.Option.{none, some}
use mathlib.Core.List.{List, [], ◌∷◌, ◌++◌}
use Prim.Native.Nat.{ℕ, zero, suc}
use bitcoin_query_py.Common.Lists.{get_elem?}
use bitcoin_query_py.Common.Maps.{get, insert, get-insert_self, get-insert_ne, get-insert_cases}

module _ {A K V : Type 0} (dec : Discrete K) (key : A → K) (value : A → V) where
  unfoldable pub insert_all : List A → List (K × V) → List (K × V)
  insert_all [] m = m
  insert_all (x ∷ xs) m = insert_all xs (insert dec (key x) (value x) m)

  -- Every element of the key has the value.
  abbrev pub Agrees : List A → K → V → Type 0
  Agrees xs k v = (i : ℕ) (x : A) → get_elem? xs i ≡ some x → key x ≡ k → value x ≡ v

  insert_all-keep :
      (xs : List A) (m : List (K × V)) (k : K) (v : V)
      → Agrees xs k v
      → get dec k m ≡ some v
      → get dec k (insert_all xs m) ≡ some v
  unfolding insert_all
  insert_all-keep [] m k v agrees held = held
  insert_all-keep (x ∷ xs) m k v agrees held =
      insert_all-keep xs (insert dec (key x) (value x) m) k v (λ i y h. agrees (suc i) y h)
        (elim (dec (key x) k) [
          | yes p ↦ rw (← p) (get-insert_self dec (key x) (value x) m ∙ ap some (agrees 0 x refl p))
          | no n ↦ get-insert_ne dec (key x) k (value x) m n ∙ held
        ])

  pub insert_all-found :
      (xs : List A) (m : List (K × V)) (k : K) (v : V) (i : ℕ) (x : A)
      → Agrees xs k v
      → get_elem? xs i ≡ some x
      → key x ≡ k
      → get dec k (insert_all xs m) ≡ some v
  unfolding insert_all
  insert_all-found [] m k v i x agrees h same = cc
  insert_all-found (y ∷ ys) m k v zero x agrees h same =
      let head : y ≡ x = cc in
      let at : key y ≡ k = ap key head ∙ same in
      insert_all-keep ys (insert dec (key y) (value y) m) k v (λ i z p. agrees (suc i) z p)
        (rw (← at) (get-insert_self dec (key y) (value y) m ∙ ap some (agrees 0 y refl at)))
  insert_all-found (y ∷ ys) m k v (suc i) x agrees h same =
      insert_all-found ys _ k v i x (λ j z p. agrees (suc j) z p) h same

  pub insert_all-absent :
      (xs : List A) (m : List (K × V)) (k : K)
      → ((i : ℕ) (x : A) → get_elem? xs i ≡ some x → key x ≢ k)
      → get dec k m ≡ none
      → get dec k (insert_all xs m) ≡ none
  unfolding insert_all
  insert_all-absent [] m k other held = held
  insert_all-absent (x ∷ xs) m k other held =
      insert_all-absent xs _ k (λ i y h. other (suc i) y h)
        (get-insert_ne dec (key x) k (value x) m (other 0 x refl) ∙ held)

  -- What such a loop leaves in the map comes from an element, or was there before.
  pub insert_all_cases :
      (xs : List A) (m : List (K × V)) (k : K) (v : V)
      → get dec k (insert_all xs m) ≡ some v
      → ((i : ℕ) × (x : A) × (get_elem? xs i ≡ some x) × (key x ≡ k) × (value x ≡ v))
        ⊎ (get dec k m ≡ some v)
  unfolding insert_all
  insert_all_cases [] m k v held = inr held
  insert_all_cases (x ∷ xs) m k v held = elim (insert_all_cases xs _ k v held) [
    | inl (i, y, at, same, stands) ↦ inl (suc i, y, at, same, stands)
    | inr stored ↦ elim (get-insert_cases dec (key x) k (value x) m stored) [
      | inl (same, at) ↦ inl (0, x, refl, same, at)
      | inr (_, old) ↦ inr old
    ]
  ]

  pub insert_all-other :
      (xs : List A) (m : List (K × V)) (k : K)
      → ((i : ℕ) (x : A) → get_elem? xs i ≡ some x → key x ≢ k)
      → get dec k (insert_all xs m) ≡ get dec k m
  unfolding insert_all
  insert_all-other [] m k other = refl
  insert_all-other (x ∷ xs) m k other =
      insert_all-other xs (insert dec (key x) (value x) m) k (λ i y h. other (suc i) y h)
      ∙ get-insert_ne dec (key x) k (value x) m (other 0 x refl)

  pub insert_all-append :
      (xs ys : List A) (m : List (K × V))
      → insert_all (xs ++ ys) m ≡ insert_all ys (insert_all xs m)
  unfolding insert_all
  insert_all-append [] ys m = refl
  insert_all-append (x ∷ xs) ys m = insert_all-append xs ys (insert dec (key x) (value x) m)
