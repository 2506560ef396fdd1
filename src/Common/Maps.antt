-- ===== src/Common/Maps.antt =====
-- Maps of the standard library (`HashMap`, `BTreeMap`) as association lists without repeated keys.
-- `insert` replaces, `remove` takes the entry out and hands back its value.
use mathlib.Core.Path.{◌≡◌, refl, sym, ◌∙◌}
use mathlib.Core.Logic.{◌≢◌, ◌⊎◌, inl, inr, ite}
use mathlib.Core.Option.{Option, none, some}
use mathlib.Core.List.{List, [], ◌∷◌}
use native.Mathlib.Omega.{arith}

module _ {ℓ} {K V : Type ℓ} (dec : Discrete K) where
  unfoldable pub get : K → List (K × V) → Option V
  get k [] = none
  get k ((j, v) ∷ m) = ite (dec j k) (some v) (get k m)

  -- Every entry of the key goes.
  unfoldable pub delete : K → List (K × V) → List (K × V)
  delete k [] = []
  delete k ((j, v) ∷ m) = ite (dec j k) (delete k m) ((j, v) ∷ delete k m)

  unfoldable pub insert : K → V → List (K × V) → List (K × V)
  unfolding delete
  insert k v m = (k, v) ∷ delete k m

  pub get-delete_self : (k : K) (m : List (K × V)) → get k (delete k m) ≡ none
  unfolding get delete
  get-delete_self k [] = refl
  get-delete_self k ((j, v) ∷ m) = ground (arith, get-delete_self k m)

  pub get-delete_ne : (k i : K) (m : List (K × V)) → k ≢ i → get i (delete k m) ≡ get i m
  unfolding get delete
  get-delete_ne k i [] ne = refl
  get-delete_ne k i ((j, v) ∷ m) ne = ground (arith, get-delete_ne k i m ne)

  pub get-insert_self : (k : K) (v : V) (m : List (K × V)) → get k (insert k v m) ≡ some v
  unfolding get insert
  get-insert_self k v m = ground arith

  pub get-insert_ne : (k i : K) (v : V) (m : List (K × V)) → k ≢ i → get i (insert k v m) ≡ get i m
  unfolding get insert
  get-insert_ne k i v m ne = ground (arith, get-delete_ne k i m ne)

  -- What a map holds after an insertion is the new entry or an old one.
  pub get-insert_cases :
      (k i : K) (v : V) (m : List (K × V)) {w : V}
      → get i (insert k v m) ≡ some w
      → (k ≡ i) × (v ≡ w) ⊎ (k ≢ i) × (get i m ≡ some w)
  get-insert_cases k i v m h = elim (dec k i) [
    | yes p ↦ inl (p, cc (rw p at (get-insert_self k v m), rw p at h))
    | no n ↦ inr (n, sym (get-insert_ne k i v m n) ∙ h)
  ]

  -- An insertion keeps every key.
  pub get-insert-some :
      (k i : K) (v : V) (m : List (K × V)) {w : V}
      → get i m ≡ some w
      → (u : V) × (get i (insert k v m) ≡ some u)
  get-insert-some k i v m {w} h = elim (dec k i) [
    | yes p ↦ (v, rw (← p) (get-insert_self k v m))
    | no n ↦ (w, get-insert_ne k i v m n ∙ h)
  ]
