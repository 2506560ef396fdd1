-- ===== src/Utxo/Implements.antt =====
-- The store in memory does what a store of unspent outputs promises.
use bitcoin_query_py.Common.{ℕ, ◌≡◌, refl, ◌∙◌, List, [], ◌∷◌, ok, none, inl, inr}
use bitcoin_query_py.Common.Maps.{get}
use bitcoin_query_py.Bitcoin.{Transactions}
use bitcoin_query_py.Outputs.{Spends, SpendsOnce, inputs_of, Holds, outputs_of_block}
use bitcoin_query_py.Outputs.Inputs.{Spends-append, SpendsOnce-split, outputs_of_block-agree}
use bitcoin_query_py.Outputs.Store.{OutputStore}
use bitcoin_query_py.Utxo.{Unspent, connect_outpoints, add_transactions}
use bitcoin_query_py.Utxo.Spend.{lookup, IsStore}
use bitcoin_query_py.Utxo.Inputs.{spend_inputs_total, spend_inputs-AreSpent}
use bitcoin_query_py.Utxo.Blocks.{connect_outpoints-AreSpent}
use bitcoin_query_py.Utxo.Add.{add_transactions-AreAdded}

module _ (txs : Transactions) {TOut : Type 0} (into : txs.TxOut → TOut) where
  open txs use {Txid, Transaction, input}

  -- A block whose inputs name unspent outputs, no output twice, is connected, and each transaction
  -- gets the outputs that its inputs name, in their order.
  pub connect_outpoints_total :
      (unspent : Unspent txs into) (ts : List Transaction)
      → IsStore txs into unspent
      → SpendsOnce txs (inputs_of txs ts)
      → Holds txs (lookup txs into unspent) (inputs_of txs ts)
      → (last : Unspent txs into) × (connect_outpoints txs into unspent ts
          ≡ ok (outputs_of_block txs (lookup txs into unspent) ts, last))
  unfolding connect_outpoints
  connect_outpoints_total unspent [] store once holds = (unspent, refl)
  connect_outpoints_total unspent (tx ∷ rest) store once holds =
      let (front, back, apart) = SpendsOnce-split txs (input tx) (inputs_of txs rest) once in
      let parts = Spends-append txs (input tx) (inputs_of txs rest) in
      let (left, first) =
        spend_inputs_total txs into unspent (input tx) store front
          (λ t n h. holds t n ((parts t n).1 (inl h))) in
      let spent = spend_inputs-AreSpent txs into unspent left (input tx) _ store first in
      let same : (t : Txid) (n : ℕ)
          → Spends txs (inputs_of txs rest) t n
          → lookup txs into left t n ≡ lookup txs into unspent t n =
        λ t n h. spent.others t n (λ early. apart t n early h) in
      let (last, later) =
        connect_outpoints_total left rest spent.store back
          (λ t n h. let (o, was) = holds t n ((parts t n).1 (inr h)) in (o, same t n h ∙ was)) in
      (
        last,
        rw
            (
              first,
              later,
              outputs_of_block-agree txs (lookup txs into left) (lookup txs into unspent) rest same,
            )
            refl,
      )

  pub nil-IsStore : IsStore txs into []
  unfolding get
  nil-IsStore t m h = cc

  pub lookup-nil : (t : Txid) (n : ℕ) → lookup txs into [] t n ≡ none
  unfolding get
  lookup-nil t n = refl

  abbrev pub in_memory : OutputStore txs into
  in_memory = record {
    Store = Unspent txs into;
    content = lookup txs into;
    IsValid = IsStore txs into;
    empty = [];
    add = λ s ts. ok (add_transactions txs into s ts);
    connect = connect_outpoints txs into;
    empty_lem = (nil-IsStore, lookup-nil);
    add_lem = λ s ts store fresh few.
        let added = add_transactions-AreAdded txs into s ts store few in
        (
          add_transactions txs into s ts,
          refl,
          added.store,
          record { added = added.added; others = added.others },
        );
    connect_lem = λ s ts store once holds.
        let (last, e) = connect_outpoints_total s ts store once holds in
        let spent = connect_outpoints-AreSpent txs into s last ts _ store e in
        (last, e, spent.store, record { gone = spent.gone; others = spent.others });
  }
