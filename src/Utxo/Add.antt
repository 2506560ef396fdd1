-- ===== src/Utxo/Add.antt =====
-- The outputs of a block that has been read.
use bitcoin_query_py.Common.{
  ℕ, zero, suc, ◌≡◌, ◌≢◌, refl, ap, ◌∙◌, arith, List, [], ◌∷◌, map, some, get_elem?, length, inl,
  inr, All-get_elem?, All,
}
use mathlib.Core.Option
use bitcoin_query_py.Common.Int.{IsU32}
use bitcoin_query_py.Common.InsertAll.{insert_all-found, insert_all_cases, insert_all-other}
use bitcoin_query_py.Bitcoin.{Transactions}
use bitcoin_query_py.Utxo.{VecMap, from_slice, Unspent, add_transactions}
use bitcoin_query_py.Utxo.Remove.{IsCounted, count, output_of}
use bitcoin_query_py.Utxo.Spend.{lookup, IsStore, lookup-stored, lookup-same}

module _ (txs : Transactions) {TOut : Type 0} (into : txs.TxOut → TOut) where
  open txs use {Txid, TxOut, Transaction, txid_discrete, output}

  abbrev outs_of : Transaction → VecMap TOut
  outs_of tx = from_slice (map (λ o. some (into o)) (output tx))

  count-map :
      (os : List TxOut)
      → (count (map (λ o. some (into o)) os) ≡ length os)
        × (length (map (λ o. some (into o)) os) ≡ length os)
  count-map [] = (refl, refl)
  count-map (o ∷ os) = (ap suc (count-map os).0, ap suc (count-map os).1)

  outs_of-IsCounted : (tx : Transaction) → IsU32 (length (output tx)) → IsCounted (outs_of tx)
  unfolding from_slice
  outs_of-IsCounted tx few = (
    omega (arith, (count-map (output tx)).0, (count-map (output tx)).1),
    omega (arith, (count-map (output tx)).1),
  )

  output_of-outs_of :
      (tx : Transaction) (n : ℕ)
      → output_of (outs_of tx) n ≡ Option.map into (get_elem? (output tx) n)
  unfolding from_slice
  output_of-outs_of tx n = by_place (output tx) n
    where
      by_place :
          (os : List TxOut) (n : ℕ)
          → output_of (from_slice (map (λ o. some (into o)) os)) n
            ≡ Option.map into (get_elem? os n)
      by_place [] n = refl
      by_place (o ∷ os) zero = refl
      by_place (o ∷ os) (suc n) = by_place os n

  -- The transactions are in the set with all their outputs, and every other one is as it was.
  pub record AreAdded (unspent last : Unspent txs into) (ts : List Transaction) : Type 0 where
    pub store : IsStore txs into last
    pub added :
        (i : ℕ) (tx : Transaction) (n : ℕ)
        → get_elem? ts i ≡ some tx
        → ((j : ℕ) (other : Transaction)
            → get_elem? ts j ≡ some other
            → txs.txid other ≡ txs.txid tx
            → other ≡ tx)
        → lookup txs into last (txs.txid tx) n ≡ Option.map into (get_elem? (output tx) n)
    pub others :
        (t : Txid) (n : ℕ)
        → ((i : ℕ) (tx : Transaction) → get_elem? ts i ≡ some tx → txs.txid tx ≢ t)
        → lookup txs into last t n ≡ lookup txs into unspent t n

  -- Reading a block adds all outputs of its transactions to the set, and nothing else; no transaction
  -- has 2 ^ 32 outputs.
  pub add_transactions-AreAdded :
      (unspent : Unspent txs into) (ts : List Transaction)
      → IsStore txs into unspent
      → All (λ tx. IsU32 (length (output tx))) ts
      → AreAdded unspent (add_transactions txs into unspent ts) ts
  unfolding add_transactions
  add_transactions-AreAdded unspent ts store few = record {
    store = λ t m h. elim (insert_all_cases txid_discrete txs.txid outs_of ts unspent t m h) [
      | inl (i, tx, at, _, same) ↦
          rw same at
            (outs_of-IsCounted tx (All-get_elem? (λ tx. IsU32 (length (output tx))) ts i few at))
      | inr old ↦ store t m old
    ];
    added = λ i tx n at unique.
        lookup-stored txs into _ (txs.txid tx) n (outs_of tx) (
          insert_all-found txid_discrete txs.txid outs_of ts unspent (txs.txid tx) (outs_of tx) i tx
            (λ j other k same. ap outs_of (unique j other k same)) at refl)
        ∙ output_of-outs_of tx n;
    others = λ t n absent.
        lookup-same txs into _ unspent t n
          (insert_all-other txid_discrete txs.txid outs_of ts unspent t absent);
  }
