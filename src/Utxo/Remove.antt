-- ===== src/Utxo/Remove.antt =====
-- `VecMap`: its size is the number of outputs that are left.
use bitcoin_query_py.Common.{
  ℕ, zero, suc, ◌+◌, ◌-◌, ◌%◌, ◌^◌, ◌≤◌, ◌≡◌, ◌≢◌, refl, sym, ap, arith, List, [], ◌∷◌, true, ok,
  Option, none, some, length, get_elem?, set, Option-cases, inl, inr,
}
use bitcoin_query_py.Common.Int.{IsU32}
use mathlib.Core.Option.{some_inj}
use bitcoin_query_py.Utxo.{VecMap, is_empty, remove}

module _ {T : Type 0} where
  abbrev pub count : List (Option T) → ℕ
  count [] = 0
  count (none ∷ xs) = count xs
  count (some _ ∷ xs) = suc (count xs)

  abbrev pub IsCounted : VecMap T → Type 0
  IsCounted m = (m.size ≡ count m.inner) × IsU32 (length m.inner)

  -- The output of a number, if it is left.
  abbrev pub output_of : VecMap T → ℕ → Option T
  output_of m n = elim (get_elem? m.inner n) [ none ↦ none | some o ↦ o ]

  pub count-le : (xs : List (Option T)) → count xs ≤ length xs
  count-le [] = omega arith
  count-le (none ∷ xs) = omega (arith, count-le xs)
  count-le (some _ ∷ xs) = omega (arith, count-le xs)

  count-set :
      (xs : List (Option T)) (n : ℕ) {x : T}
      → get_elem? xs n ≡ some (some x)
      → count xs ≡ suc (count (set xs n none))
  count-set [] n h = cc
  count-set (none ∷ xs) zero h = cc
  count-set (some y ∷ xs) zero h = refl
  count-set (none ∷ xs) (suc n) h = count-set xs n h
  count-set (some y ∷ xs) (suc n) h = ap suc (count-set xs n h)

  length-set : (xs : List (Option T)) (n : ℕ) (v : Option T) → length (set xs n v) ≡ length xs
  length-set [] n v = refl
  length-set (x ∷ xs) zero v = refl
  length-set (x ∷ xs) (suc n) v = ap suc (length-set xs n v)

  get_elem?-set_ne :
      (xs : List (Option T)) (n i : ℕ) (v : Option T)
      → i ≢ n
      → get_elem? (set xs n v) i ≡ get_elem? xs i
  get_elem?-set_ne [] n i v ne = refl
  get_elem?-set_ne (x ∷ xs) zero zero v ne = absurd (ne refl)
  get_elem?-set_ne (x ∷ xs) zero (suc i) v ne = refl
  get_elem?-set_ne (x ∷ xs) (suc n) zero v ne = refl
  get_elem?-set_ne (x ∷ xs) (suc n) (suc i) v ne =
      get_elem?-set_ne xs n i v (λ same. ne (ap suc same))

  get_elem?-set_self :
      (xs : List (Option T)) (n : ℕ) {o : Option T} (v : Option T)
      → get_elem? xs n ≡ some o
      → get_elem? (set xs n v) n ≡ some v
  get_elem?-set_self [] n v h = cc
  get_elem?-set_self (x ∷ xs) zero v h = refl
  get_elem?-set_self (x ∷ xs) (suc n) v h = get_elem?-set_self xs n v h

  none_left :
      (xs : List (Option T)) (n : ℕ) {o : Option T}
      → count xs ≡ 0
      → get_elem? xs n ≡ some o
      → o ≡ none
  none_left [] n e h = cc
  none_left (none ∷ xs) zero e h = sym (some_inj.0 h)
  none_left (none ∷ xs) (suc n) e h = none_left xs n e h
  none_left (some x ∷ xs) n e h = absurd (omega arith)

  -- What taking an output out leaves.
  pub record IsRemoved (m m' : VecMap T) (n : ℕ) : Type 0 where
    pub counted : IsCounted m'
    pub gone : output_of m' n ≡ none
    pub others : (i : ℕ) → i ≢ n → output_of m' i ≡ output_of m i

  -- An output that is left is taken out, and nothing else.
  pub remove-IsRemoved :
      (m : VecMap T) (n : ℕ) (x : T)
      → IsCounted m
      → get_elem? m.inner n ≡ some (some x)
      → (m' : VecMap T) × (remove m n ≡ ok (some x, m')) × IsRemoved m m' n
  unfolding remove
  remove-IsRemoved m n x counted held =
      let inner' = set m.inner n none in
      let less = count-set m.inner n held in
      let m' : VecMap T = record { size = (m.size + (2 ^ 32 - 1)) % 2 ^ 32; inner = inner' } in
      (
        m',
        rw (held, remove) refl,
        record {
          counted = (
            omega (arith, counted.0, counted.1, less, count-le m.inner),
            rw (length-set m.inner n none) (counted.1),
          );
          gone = rw (output_of, get_elem?-set_self m.inner n none held) refl;
          others = λ i ne. rw (output_of, get_elem?-set_ne m.inner n i none ne) refl;
        },
      )

  -- A map that is empty has no output.
  pub is_empty-none :
      (m : VecMap T) (n : ℕ) → IsCounted m → is_empty m ≡ true → output_of m n ≡ none
  unfolding is_empty
  is_empty-none m n counted empty = elim (Option-cases (get_elem? m.inner n)) [
    | inl outside ↦ rw (output_of, outside) refl
    | inr (o, held) ↦ rw (output_of, held) (none_left m.inner n (ground (arith, counted.0)) held)
  ]
