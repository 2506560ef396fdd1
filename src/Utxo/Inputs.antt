-- ===== src/Utxo/Inputs.antt =====
-- The inputs of a transaction against the set of unspent outputs.
use bitcoin_query_py.Common.{
  ℕ, ◌≡◌, refl, sym, ap, ◌∙◌, List, [], ◌∷◌, true, false, ok, none, some, get_elem?, Option-cases,
  Bool-cases, inl, inr, >>=-eq-ok, subst, ok-injective,
}
use bitcoin_query_py.Common.Maps.{get}
use bitcoin_query_py.Bitcoin.{Transactions}
use bitcoin_query_py.Outputs.{Spends, SpendsOnce, Holds, outputs_of}
use bitcoin_query_py.Outputs.Inputs.{outputs_of-agree}
use bitcoin_query_py.Utxo.{VecMap, remove, Unspent, spend_output, spend_inputs}
use bitcoin_query_py.Utxo.Remove.{output_of}
use bitcoin_query_py.Utxo.Spend.{lookup, IsStore, IsSpent, spend_output-IsSpent}

module _ (txs : Transactions) {TOut : Type 0} (into : txs.TxOut → TOut) where
  open txs use {
    Txid, TxIn, TxOut, Transaction, txid_discrete, previous_txid, previous_vout, is_null, output,
  }

  remove-taken :
      (unspent left : Unspent txs into) (t : Txid) (n : ℕ) (m : VecMap TOut) (out : TOut)
      → get txid_discrete t unspent ≡ some m
      → spend_output txs into unspent t n ≡ ok (out, left)
      → lookup txs into unspent t n ≡ some out
  unfolding spend_output remove
  remove-taken unspent left t n m out held e = elim (Option-cases (get_elem? m.inner n)) [
    | inl outside ↦ cc (rw (spend_output, held, remove, outside) at e)
    | inr (none, at) ↦ cc (rw (spend_output, held, remove, at) at e)
    | inr (some x, at) ↦
        rw (lookup, held, output_of, at)
          (ap some (ap (λ p. p.0) (ok-injective (rw (spend_output, held, remove, at) at e))))
  ]

  spend_output-lookup :
      (unspent left : Unspent txs into) (t : Txid) (n : ℕ) (out : TOut)
      → spend_output txs into unspent t n ≡ ok (out, left)
      → lookup txs into unspent t n ≡ some out
  unfolding spend_output
  spend_output-lookup unspent left t n out e = elim (Option-cases (get txid_discrete t unspent)) [
    | inl nothing ↦ cc (rw (spend_output, nothing) at e)
    | inr (m, held) ↦ remove-taken unspent left t n m out held e
  ]

  -- The inputs spend outputs of the set, each once, and nothing else leaves it.
  pub record AreSpent (unspent last : Unspent txs into) (xs : List TxIn) : Type 0 where
    pub store : IsStore txs into last
    pub once : SpendsOnce txs xs
    pub before :
        (t : Txid) (n : ℕ)
        → Spends txs xs t n
        → (out : TOut) × (lookup txs into unspent t n ≡ some out)
    pub gone : (t : Txid) (n : ℕ) → Spends txs xs t n → lookup txs into last t n ≡ none
    pub others :
        (t : Txid) (n : ℕ)
        → ¬ Spends txs xs t n
        → lookup txs into last t n ≡ lookup txs into unspent t n

  spend_output-found :
      (unspent left : Unspent txs into) (t : Txid) (n : ℕ) (out : TOut)
      → IsStore txs into unspent
      → spend_output txs into unspent t n ≡ ok (out, left)
      → (lookup txs into unspent t n ≡ some out) × IsSpent txs into unspent left t n
  spend_output-found unspent left t n out store e =
      let found = spend_output-lookup unspent left t n out e in
      let (other, spent, is_spent) = spend_output-IsSpent txs into unspent t n out store found in
      let same : other ≡ left = ap (λ p. p.1) (ok-injective (sym spent ∙ e)) in
      (found, rw same at is_spent)

  pub AreSpent-nil :
      (unspent : Unspent txs into) → IsStore txs into unspent → AreSpent unspent unspent []
  AreSpent-nil unspent store = record {
    store = store;
    once = tt;
    before = λ t n h. absurd h;
    gone = λ t n h. absurd h;
    others = λ t n h. refl;
  }

  AreSpent-null :
      (unspent last : Unspent txs into) (x : TxIn) (xs : List TxIn)
      → is_null x ≡ true
      → AreSpent unspent last xs
      → AreSpent unspent last (x ∷ xs)
  AreSpent-null unspent last x xs null rest = record {
    store = rest.store;
    once = ((λ real. absurd (cc)), rest.once);
    before = λ t n h. elim h [ inl (real, _, _) ↦ absurd (cc) | inr later ↦ rest.before t n later ];
    gone = λ t n h. elim h [ inl (real, _, _) ↦ absurd (cc) | inr later ↦ rest.gone t n later ];
    others = λ t n h. rest.others t n (λ later. h (inr later));
  }

  AreSpent-cons :
      (unspent left last : Unspent txs into) (x : TxIn) (xs : List TxIn) (out : TOut)
      → is_null x ≡ false
      → lookup txs into unspent (previous_txid x) (previous_vout x) ≡ some out
      → IsSpent txs into unspent left (previous_txid x) (previous_vout x)
      → AreSpent left last xs
      → AreSpent unspent last (x ∷ xs)
  AreSpent-cons unspent left last x xs out real found spent rest =
      let again : ¬ Spends txs xs (previous_txid x) (previous_vout x) =
        λ later. let (o, still) = rest.before _ _ later in absurd (cc (spent.gone, still)) in
      record {
        store = rest.store;
        once = ((λ _. again), rest.once);
        before = λ t n h. elim h [
          | inl (_, p, q) ↦ (out, rw (← p, ← q) found)
          | inr later ↦
              let (o, still) = rest.before t n later in
              (o, sym (spent.others t n (λ p q. again (rw (p, q) at later))) ∙ still)
        ];
        gone = λ t n h. elim h [
          | inl (_, p, q) ↦ rw (← p, ← q) (rest.others _ _ again ∙ spent.gone)
          | inr later ↦ rest.gone t n later
        ];
        others = λ t n h.
            rest.others t n (λ later. h (inr later))
            ∙ spent.others t n (λ p q. h (inl (real, sym p, sym q)));
      }

  -- If the inputs of a transaction are connected, they spent unspent outputs, each of them once, and
  -- every other output is as it was.
  pub spend_inputs-AreSpent :
      (unspent last : Unspent txs into) (xs : List TxIn) (outs : List TOut)
      → IsStore txs into unspent
      → spend_inputs txs into unspent xs ≡ ok (outs, last)
      → AreSpent unspent last xs
  unfolding spend_inputs
  spend_inputs-AreSpent unspent last [] outs store e =
      subst (λ u. AreSpent unspent u []) (ap (λ p. p.1) (ok-injective e))
        (AreSpent-nil unspent store)
  spend_inputs-AreSpent unspent last (x ∷ xs) outs store e = elim (Bool-cases (is_null x)) [
    | inl null ↦
        AreSpent-null unspent last x xs null
          (spend_inputs-AreSpent unspent last xs outs store (rw null at e))
    | inr real ↦
        let ((out, left), first, later) =
          >>=-eq-ok (spend_output txs into unspent (previous_txid x) (previous_vout x)) _
            (rw real at e) in
        let ((more, end), rest, built) = >>=-eq-ok (spend_inputs txs into left xs) _ later in
        let (found, spent) = spend_output-found unspent left _ _ out store first in
        let same : end ≡ last = ap (λ p. p.1) (ok-injective built) in
        rw same at (
          AreSpent-cons unspent left end x xs out real found spent
            (spend_inputs-AreSpent left end xs more spent.store rest))
  ]

  -- If the inputs of a transaction spend unspent outputs, no output twice, they are all connected, and
  -- to these outputs in their order.
  pub spend_inputs_total :
      (unspent : Unspent txs into) (xs : List TxIn)
      → IsStore txs into unspent
      → SpendsOnce txs xs
      → Holds txs (lookup txs into unspent) xs
      → (last : Unspent txs into) × (spend_inputs txs into unspent xs
          ≡ ok (outputs_of txs (lookup txs into unspent) xs, last))
  unfolding spend_inputs
  spend_inputs_total unspent [] store once before = (unspent, refl)
  spend_inputs_total unspent (x ∷ xs) store (fresh, once) before = elim (Bool-cases (is_null x)) [
    | inl null ↦
        let (last, e) = spend_inputs_total unspent xs store once (λ t n h. before t n (inr h)) in
        (last, rw null e)
    | inr real ↦
        let (out, found) = before (previous_txid x) (previous_vout x) (inl (real, refl, refl)) in
        let (left, taken, spent) =
          spend_output-IsSpent txs into unspent (previous_txid x) (previous_vout x) out store
            found in
        let same : (t : Txid) (n : ℕ)
            → Spends txs xs t n
            → lookup txs into left t n ≡ lookup txs into unspent t n =
          λ t n h. spent.others t n (λ p q. fresh real (rw (p, q) at h)) in
        let (last, e) =
          spend_inputs_total left xs spent.store once
            (λ t n h. let (o, was) = before t n (inr h) in (o, same t n h ∙ was)) in
        (
          last,
          rw (real, taken, e, found, outputs_of-agree txs _ (lookup txs into unspent) xs same) refl,
        )
  ]
