-- ===== src/IterConnected.antt =====
-- src/iter/iter_connected.rs and src/iter/fetch_connected_async.rs: the iteration over connected blocks,
-- whose worker threads update the store of unspent outputs with blocks and connect blocks.
-- A call of `update_unspent_cache` or `connect_outpoints` is one step. `par_iter_sync` runs the updates
-- in any order, and hands the second stage its blocks in the order of their heights; so when a block is
-- connected, all blocks up to its height have been read. The blocks are connected in any order.
pub mod Chain
pub mod Invariant
pub mod Schedule
pub mod Failure
pub mod Finite
pub mod Complete
pub mod Cache
pub mod Assemble
pub mod Agree
pub mod Format
pub mod Full
pub mod Simple
pub mod Handed
pub mod Whole
pub mod WholeSimple
use bitcoin_query_py.Common.{ℕ, ◌≡◌, ◌≤◌, ◌<◌, ◌⊎◌, List, [], ◌∷◌, Result, ok, err, panic, ◌>>=◌}
pub use bitcoin_query_py.Common.Distinct.{IsIn}
use bitcoin_query_py.Errors.{OpResult}
use bitcoin_query_py.Bitcoin.{Transactions}
use bitcoin_query_py.Outputs.Store.{OutputStore}

module _ (txs : Transactions) {TOut : Type 0} (into : txs.TxOut → TOut)
    (unspent : OutputStore txs into) (get_block : ℕ → OpResult txs.Block) where
  open txs use {Block, txdata}
  open unspent use {Store, add, connect, empty}

  -- `db` is the function `get_block` of the database.
  unfoldable pub update_unspent_cache : Store → ℕ → Result (Unit {0}) (Block × Store)
  update_unspent_cache s height = elim (get_block height) [
    | ok block ↦ add s (txdata block) >>= λ left. ok (block, left)
    | err _ ↦ err tt
    | panic text ↦ panic text
  ]

  -- The store that the threads share, the heights that have been read, and the blocks that have been
  -- connected, each transaction with the outputs that its inputs spend.
  pub record Threads : Type 0 where
    pub store : Store
    pub read : List ℕ
    pub connected : List (ℕ × List (List TOut))

  abbrev pub IsConnected : List (ℕ × List (List TOut)) → ℕ → Type 0
  IsConnected [] h = ⊥
  IsConnected ((i, outs) ∷ rest) h = (i ≡ h) ⊎ IsConnected rest h

  -- `new`: an empty store, and nothing done.
  unfoldable pub start : Threads
  start = record { store = empty; read = []; connected = [] }

  -- The steps of the worker threads, for the heights below `end`.
  pub data Step (end : ℕ) : Threads → Threads → Type 0 where
    update :
        (s : Threads) (height : ℕ) (block : Block) (left : Store)
        → height < end
        → ¬ IsIn s.read height
        → update_unspent_cache s.store height ≡ ok (block, left)
        → Step end s (record s { store = left; read = height ∷ s.read })
    connect_block :
        (s : Threads) (height : ℕ) (block : Block) (outs : List (List TOut)) (left : Store)
        → height < end
        → ((i : ℕ) → i ≤ height → IsIn s.read i)
        → ¬ IsConnected s.connected height
        → get_block height ≡ ok block
        → connect s.store (txdata block) ≡ ok (outs, left)
        → Step end s (record s { store = left; connected = (height, outs) ∷ s.connected })

  -- The states that some order of the steps leads to.
  pub data Reach (end : ℕ) : Threads → Type 0 where
    begin : Reach end start
    then_ : {s t : Threads} → Reach end s → Step end s t → Reach end t
