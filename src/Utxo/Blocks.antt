-- ===== src/Utxo/Blocks.antt =====
-- The transactions of a block against the set of unspent outputs.
use bitcoin_query_py.Common.{
  ℕ, ◌≡◌, sym, ap, ◌∙◌, List, [], ◌∷◌, ◌++◌, ok, inl, inr, >>=-eq-ok, ok-injective, subst,
}
use bitcoin_query_py.Bitcoin.{Transactions}
use bitcoin_query_py.Utxo.{Unspent, spend_inputs, connect_outpoints}
use bitcoin_query_py.Utxo.Spend.{IsStore}
use bitcoin_query_py.Outputs.{Spends, inputs_of}
use bitcoin_query_py.Outputs.Inputs.{Spends-append, SpendsOnce-append}
use bitcoin_query_py.Utxo.Inputs.{AreSpent, AreSpent-nil, spend_inputs-AreSpent}

module _ (txs : Transactions) {TOut : Type 0} (into : txs.TxOut → TOut) where
  open txs use {Txid, TxIn, Transaction, input, is_null, previous_txid, previous_vout}

  AreSpent-append :
      (u v w : Unspent txs into) (xs ys : List TxIn)
      → AreSpent txs into u v xs
      → AreSpent txs into v w ys
      → AreSpent txs into u w (xs ++ ys)
  AreSpent-append u v w xs ys first second =
      let apart : (t : Txid) (n : ℕ) → Spends txs xs t n → ¬ Spends txs ys t n =
        λ t n h k. let (o, still) = second.before t n k in absurd (cc (first.gone t n h, still)) in
      record {
        store = second.store;
        once = SpendsOnce-append txs xs ys first.once second.once apart;
        before = λ t n h. elim ((Spends-append txs xs ys t n).0 h) [
          | inl k ↦ first.before t n k
          | inr k ↦
              let (o, still) = second.before t n k in
              (o, sym (first.others t n (λ early. apart t n early k)) ∙ still)
        ];
        gone = λ t n h. elim ((Spends-append txs xs ys t n).0 h) [
          | inl k ↦ second.others t n (apart t n k) ∙ first.gone t n k
          | inr k ↦ second.gone t n k
        ];
        others = λ t n h.
            second.others t n (λ k. h ((Spends-append txs xs ys t n).1 (inr k)))
            ∙ first.others t n (λ k. h ((Spends-append txs xs ys t n).1 (inl k)));
      }

  -- If the transactions of a block are connected, all their inputs together spent unspent outputs, each
  -- of them once in the whole block, and every other output is as it was.
  pub connect_outpoints-AreSpent :
      (unspent last : Unspent txs into) (ts : List Transaction) (outs : List (List TOut))
      → IsStore txs into unspent
      → connect_outpoints txs into unspent ts ≡ ok (outs, last)
      → AreSpent txs into unspent last (inputs_of txs ts)
  unfolding connect_outpoints
  connect_outpoints-AreSpent unspent last [] outs store e =
      subst (λ u. AreSpent txs into unspent u []) (ap (λ p. p.1) (ok-injective e))
        (AreSpent-nil txs into unspent store)
  connect_outpoints-AreSpent unspent last (tx ∷ rest) outs store e =
      let ((mine, left), first, later) = >>=-eq-ok (spend_inputs txs into unspent (input tx)) _ e in
      let ((more, end), next, built) = >>=-eq-ok (connect_outpoints txs into left rest) _ later in
      let spent = spend_inputs-AreSpent txs into unspent left (input tx) mine store first in
      let others = connect_outpoints-AreSpent left end rest more spent.store next in
      subst (λ u. AreSpent txs into unspent u (inputs_of txs (tx ∷ rest)))
        (ap (λ p. p.1) (ok-injective built))
        (AreSpent-append unspent left end (input tx) (inputs_of txs rest) spent others)
