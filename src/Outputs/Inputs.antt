-- ===== src/Outputs/Inputs.antt =====
-- Which outputs the inputs of transactions spend.
use bitcoin_query_py.Common.{
  ℕ, ◌≡◌, ◌⊎◌, ◌↔◌, refl, List, [], ◌∷◌, ◌++◌, inl, inr, regroup, regroup_back, Bool-cases,
}
use mathlib.Core.Path.{ap₂}
use bitcoin_query_py.Bitcoin.{Transactions}
use bitcoin_query_py.Outputs.{
  Spends, SpendsOnce, OutputSet, outputs_of, outputs_of_block, inputs_of,
}

module _ (txs : Transactions) where
  open txs use {Txid, TxIn, Transaction, input, is_null, previous_txid, previous_vout}

  pub Spends-append :
      (xs ys : List TxIn) (t : Txid) (n : ℕ)
      → Spends txs (xs ++ ys) t n ↔ (Spends txs xs t n ⊎ Spends txs ys t n)
  Spends-append [] ys t n =
      (λ h. inr h, λ h. elim h [ inl none_left ↦ absurd none_left | inr k ↦ k ])
  Spends-append (x ∷ xs) ys t n =
      let both = Spends-append xs ys t n in
      (
        λ h. elim h [ inl first ↦ inl (inl first) | inr later ↦ regroup_back (inr (both.0 later)) ],
        λ h. elim (regroup h) [ inl first ↦ inl first | inr later ↦ inr (both.1 later) ],
      )

  pub SpendsOnce-append :
      (xs ys : List TxIn)
      → SpendsOnce txs xs
      → SpendsOnce txs ys
      → ((t : Txid) (n : ℕ) → Spends txs xs t n → ¬ Spends txs ys t n)
      → SpendsOnce txs (xs ++ ys)
  SpendsOnce-append [] ys once_xs once_ys apart = once_ys
  SpendsOnce-append (x ∷ xs) ys (fresh, once_xs) once_ys apart = (
    λ real again. elim ((Spends-append xs ys (previous_txid x) (previous_vout x)).0 again) [
      | inl k ↦ fresh real k
      | inr k ↦ apart (previous_txid x) (previous_vout x) (inl (real, refl, refl)) k
    ],
    SpendsOnce-append xs ys once_xs once_ys (λ t n h. apart t n (inr h)),
  )

  -- The converse: a list that spends once does so in both its parts, which are apart.
  pub SpendsOnce-split :
      (xs ys : List TxIn)
      → SpendsOnce txs (xs ++ ys)
      → SpendsOnce txs xs
        × SpendsOnce txs ys
        × ((t : Txid) (n : ℕ) → Spends txs xs t n → ¬ Spends txs ys t n)
  SpendsOnce-split [] ys once = (tt, once, λ t n h. absurd h)
  SpendsOnce-split (x ∷ xs) ys (fresh, once) =
      let (front, back, apart) = SpendsOnce-split xs ys once in
      (
        ((λ real h. fresh real ((Spends-append xs ys _ _).1 (inl h))), front),
        back,
        λ t n h k. elim h [
          | inl (real, p, q) ↦ fresh real ((Spends-append xs ys _ _).1 (inr (rw (← p, ← q) at k)))
          | inr later ↦ apart t n later k
        ],
      )

  module _ {TOut : Type 0} (set set' : OutputSet txs TOut) where
    -- The outputs depend on the set only at what is spent.
    pub outputs_of-agree :
        (xs : List TxIn)
        → ((t : Txid) (n : ℕ) → Spends txs xs t n → set t n ≡ set' t n)
        → outputs_of txs set xs ≡ outputs_of txs set' xs
    outputs_of-agree [] same = refl
    outputs_of-agree (x ∷ xs) same = elim (Bool-cases (is_null x)) [
      | inl null ↦ rw null (outputs_of-agree xs (λ t n h. same t n (inr h)))
      | inr real ↦
          rw
            (
              real,
              same (previous_txid x) (previous_vout x) (inl (real, refl, refl)),
              outputs_of-agree xs (λ t n h. same t n (inr h)),
            )
            refl
    ]

    pub outputs_of_block-agree :
        (ts : List Transaction)
        → ((t : Txid) (n : ℕ) → Spends txs (inputs_of txs ts) t n → set t n ≡ set' t n)
        → outputs_of_block txs set ts ≡ outputs_of_block txs set' ts
    outputs_of_block-agree [] same = refl
    outputs_of_block-agree (tx ∷ rest) same =
        let parts = Spends-append (input tx) (inputs_of txs rest) in
        ap₂ ◌∷◌ (outputs_of-agree (input tx) (λ t n h. same t n ((parts t n).1 (inl h))))
          (outputs_of_block-agree rest (λ t n h. same t n ((parts t n).1 (inr h))))
