-- ===== src/Utxo/Spend.antt =====
-- The store of unspent outputs as a set: what spending an output does to it.
use bitcoin_query_py.Common.{
  ℕ, ◌≡◌, ◌≢◌, refl, sym, ap, ◌∙◌, true, ok, Option, none, some, get_elem?, Option-cases,
  Bool-cases, inl, inr,
}
use bitcoin_query_py.Common.Maps.{
  get, insert, delete, get-insert_self, get-insert_ne, get-delete_self, get-delete_ne,
}
use mathlib.Core.Option.{some_inj}
use bitcoin_query_py.Bitcoin.{Transactions}
use bitcoin_query_py.Utxo.{VecMap, is_empty, Unspent, put_back, spend_output}
use bitcoin_query_py.Utxo.Remove.{IsCounted, output_of, IsRemoved, remove-IsRemoved, is_empty-none}

module _ (txs : Transactions) {TOut : Type 0} (into : txs.TxOut → TOut) where
  open txs use {Txid, txid_discrete}

  -- The set that a store stands for: the output of a transaction and a number, if it is unspent.
  abbrev pub lookup : Unspent txs into → Txid → ℕ → Option TOut
  lookup unspent t n = elim (get txid_discrete t unspent) [ none ↦ none | some m ↦ output_of m n ]

  -- Every size is the number of outputs that are left.
  abbrev pub IsStore : Unspent txs into → Type 0
  IsStore unspent =
      (t : Txid) (m : VecMap TOut) → get txid_discrete t unspent ≡ some m → IsCounted m

  -- The store without one output.
  pub record IsSpent (unspent left : Unspent txs into) (t : Txid) (n : ℕ) : Type 0 where
    pub store : IsStore left
    pub gone : lookup left t n ≡ none
    pub others : (s : Txid) (i : ℕ) → ((s ≡ t) → i ≢ n) → lookup left s i ≡ lookup unspent s i

  lookup-some :
      (unspent : Unspent txs into) (t : Txid) (n : ℕ) {x : TOut}
      → lookup unspent t n ≡ some x
      → (m : VecMap TOut) × (get txid_discrete t unspent ≡ some m)
        × (get_elem? m.inner n ≡ some (some x))
  lookup-some unspent t n h = elim (Option-cases (get txid_discrete t unspent)) [
    | inl nothing ↦ cc (rw (lookup, nothing) at h)
    | inr (m, held) ↦ elim (Option-cases (get_elem? m.inner n)) [
      | inl outside ↦ cc (rw (lookup, held, output_of, outside) at h)
      | inr (o, at) ↦ (m, held, at ∙ ap some (rw (lookup, held, output_of, at) at h))
    ]
  ]

  pub lookup-stored :
      (unspent : Unspent txs into) (t : Txid) (n : ℕ) (m : VecMap TOut)
      → get txid_discrete t unspent ≡ some m
      → lookup unspent t n ≡ output_of m n
  lookup-stored unspent t n m held = rw (lookup, held) refl

  lookup-absent :
      (unspent : Unspent txs into) (t : Txid) (n : ℕ)
      → get txid_discrete t unspent ≡ none
      → lookup unspent t n ≡ none
  lookup-absent unspent t n nothing = rw (lookup, nothing) refl

  pub lookup-same :
      (u v : Unspent txs into) (t : Txid) (n : ℕ)
      → get txid_discrete t u ≡ get txid_discrete t v
      → lookup u t n ≡ lookup v t n
  lookup-same u v t n e = rw (lookup, e) refl

  -- Both ways to put a transaction back leave the set without the output.
  insert-IsSpent :
      (unspent : Unspent txs into) (t : Txid) (n : ℕ) (m m' : VecMap TOut)
      → IsStore unspent
      → get txid_discrete t unspent ≡ some m
      → IsRemoved m m' n
      → IsSpent unspent (insert txid_discrete t m' unspent) t n
  insert-IsSpent unspent t n m m' store held removed = record {
    store = λ s k h. elim (txid_discrete t s) [
      | yes p ↦
          rw (some_inj.0 (sym (get-insert_self txid_discrete t m' unspent) ∙ (rw (← p) at h))) at
            removed.counted
      | no ne ↦ store s k (sym (get-insert_ne txid_discrete t s m' unspent ne) ∙ h)
    ];
    gone = lookup-stored _ t n m' (get-insert_self txid_discrete t m' unspent) ∙ removed.gone;
    others = λ s i ne. elim (txid_discrete t s) [
      | yes p ↦ rw (← p) (
          lookup-stored _ t i m' (get-insert_self txid_discrete t m' unspent)
          ∙ removed.others i (ne (sym p))
          ∙ sym (lookup-stored unspent t i m held))
      | no other ↦ lookup-same _ unspent s i (get-insert_ne txid_discrete t s m' unspent other)
    ];
  }

  delete-IsSpent :
      (unspent : Unspent txs into) (t : Txid) (n : ℕ) (m m' : VecMap TOut)
      → IsStore unspent
      → get txid_discrete t unspent ≡ some m
      → IsRemoved m m' n
      → is_empty m' ≡ true
      → IsSpent unspent (delete txid_discrete t unspent) t n
  delete-IsSpent unspent t n m m' store held removed empty = record {
    store = λ s k h. elim (txid_discrete t s) [
      | yes p ↦ cc (sym (get-delete_self txid_discrete t unspent) ∙ (rw (← p) at h))
      | no ne ↦ store s k (sym (get-delete_ne txid_discrete t s unspent ne) ∙ h)
    ];
    gone = lookup-absent _ t n (get-delete_self txid_discrete t unspent);
    others = λ s i ne. elim (txid_discrete t s) [
      | yes p ↦ rw (← p) (
          lookup-absent _ t i (get-delete_self txid_discrete t unspent)
          ∙ sym (
              lookup-stored unspent t i m held
              ∙ sym (removed.others i (ne (sym p)))
              ∙ is_empty-none m' i removed.counted empty))
      | no other ↦ lookup-same _ unspent s i (get-delete_ne txid_discrete t s unspent other)
    ];
  }

  put_back-IsSpent :
      (unspent : Unspent txs into) (t : Txid) (n : ℕ) (m m' : VecMap TOut)
      → IsStore unspent
      → get txid_discrete t unspent ≡ some m
      → IsRemoved m m' n
      → IsSpent unspent (put_back txs into unspent t m') t n
  put_back-IsSpent unspent t n m m' store held removed = elim (Bool-cases (is_empty m')) [
    | inl empty ↦ rw empty (delete-IsSpent unspent t n m m' store held removed empty)
    | inr more ↦ rw more (insert-IsSpent unspent t n m m' store held removed)
  ]

  -- An unspent output is found and taken out of the set, every other output stays, and every size is
  -- still the number of outputs that are left.
  pub spend_output-IsSpent :
      (unspent : Unspent txs into) (t : Txid) (n : ℕ) (out : TOut)
      → IsStore unspent
      → lookup unspent t n ≡ some out
      → (left : Unspent txs into) × (spend_output txs into unspent t n ≡ ok (out, left))
        × IsSpent unspent left t n
  unfolding spend_output
  spend_output-IsSpent unspent t n out store found =
      let (m, held, at) = lookup-some unspent t n found in
      let (m', taken, removed) = remove-IsRemoved m n out (store t m held) at in
      (
        put_back txs into unspent t m',
        rw (held, spend_output, taken) refl,
        put_back-IsSpent unspent t n m m' store held removed,
      )
