-- ===== src/Outputs/Store.antt =====
-- The interface of a store of unspent outputs: its operations, and their laws against the set of outputs
-- that it stands for. `Err(())` is the error without a value.
use bitcoin_query_py.Common.{ℕ, ◌≡◌, List, Result, ok, none, length, All}
use bitcoin_query_py.Common.Int.{IsU32}
use bitcoin_query_py.Bitcoin.{Transactions}
use bitcoin_query_py.Outputs.{
  OutputSet, SpendsOnce, inputs_of, Holds, IsFresh, outputs_of_block, IsTaken, IsAdded,
}

pub record OutputStore (txs : Transactions) {TOut : Type 0} (into : txs.TxOut → TOut) : Type 1 where
  pub Store : Type 0
  pub content : Store → OutputSet txs TOut
  pub IsValid : Store → Type 0
  pub empty : Store
  -- `update_unspent_cache` on the transactions of a block, and `connect_outpoints`.
  pub add : Store → List txs.Transaction → Result (Unit {0}) Store
  pub connect : Store → List txs.Transaction → Result (Unit {0}) (List (List TOut) × Store)
  pub empty_lem : IsValid empty × ((t : txs.Txid) (n : ℕ) → content empty t n ≡ none)
  pub add_lem :
      (s : Store) (ts : List txs.Transaction)
      → IsValid s
      → IsFresh txs (content s) ts
      → All (λ tx. IsU32 (length (txs.output tx))) ts
      → (s' : Store) × (add s ts ≡ ok s')
        × IsValid s'
        × IsAdded txs into (content s) (content s') ts
  pub connect_lem :
      (s : Store) (ts : List txs.Transaction)
      → IsValid s
      → SpendsOnce txs (inputs_of txs ts)
      → Holds txs (content s) (inputs_of txs ts)
      → (s' : Store) × (connect s ts ≡ ok (outputs_of_block txs (content s) ts, s'))
        × IsValid s'
        × IsTaken txs (content s) (content s') (inputs_of txs ts)
