-- ===== src/IterConnected/Invariant.antt =====
-- What holds after each step of the worker threads, on a chain of blocks that are all readable.
pub mod Update
pub mod Connect
use bitcoin_query_py.Common.{
  ℕ, ◌≡◌, ◌≢◌, ◌≤◌, refl, sym, ap, ◌∙◌, subst, List, ◌∷◌, none, some, ok, get_elem?, All, inl, inr,
}
use mathlib.Core.Option
use mathlib.Core.Option.{some_inj}
use bitcoin_query_py.Errors.{OpResult}
use bitcoin_query_py.Bitcoin.{Transactions}
use bitcoin_query_py.Outputs.{Spends, inputs_of, IsFresh, outputs_of_block}
use bitcoin_query_py.Outputs.Inputs.{outputs_of_block-agree}
use bitcoin_query_py.Outputs.Store.{OutputStore}
use bitcoin_query_py.IterConnected.{IsIn, update_unspent_cache, Threads, IsConnected, start}
use bitcoin_query_py.IterConnected.Chain.{IsAt, SpentBy, IsChain, all_outputs, IsChain-all_outputs}

module _ (txs : Transactions) {TOut : Type 0} (into : txs.TxOut → TOut)
    (unspent : OutputStore txs into) (get_block : ℕ → OpResult txs.Block)
    (blocks : List txs.Block) where
  open txs use {Txid, Transaction, Block, txid, output, txdata}
  open unspent use {Store, content, IsValid, add, connect}

  abbrev pub State : Type 0
  State = Threads txs into unspent get_block

  abbrev ConnectedAt : List (ℕ × List (List TOut)) → ℕ → Type 0
  ConnectedAt = IsConnected txs into unspent get_block

  -- Every block of the chain is read by `get_block`.
  abbrev pub IsServed : Type 0
  IsServed = (h : ℕ) (block : Block) → get_elem? blocks h ≡ some block → get_block h ≡ ok block

  -- The outputs that the block of the height spends, as the chain has them.
  abbrev pub IsResult : ℕ × List (List TOut) → Type 0
  IsResult (h, outs) =
      (block : Block) × (get_elem? blocks h ≡ some block)
      × (outs ≡ outputs_of_block txs (all_outputs txs into blocks) (txdata block))

  pub record IsSound (s : State) : Type 0 where
    pub valid : IsValid s.store
    -- Of a block that has not been read, nothing is in the store.
    pub fresh :
        (h : ℕ) (tx : Transaction) (n : ℕ)
        → IsAt txs blocks h tx
        → ¬ IsIn s.read h
        → content s.store (txid tx) n ≡ none
    -- Of a block that has been read, what no connected block spends is in the store.
    pub present :
        (h : ℕ) (tx : Transaction) (n : ℕ)
        → IsAt txs blocks h tx
        → IsIn s.read h
        → ((i : ℕ) → ConnectedAt s.connected i → ¬ SpentBy txs blocks i (txid tx) n)
        → content s.store (txid tx) n ≡ Option.map into (get_elem? (output tx) n)
    -- What a connected block spends is not.
    pub gone :
        (i : ℕ) (t : Txid) (n : ℕ)
        → ConnectedAt s.connected i
        → SpentBy txs blocks i t n
        → content s.store t n ≡ none
    -- Nor is an output of a transaction that is not in the chain.
    pub foreign :
        (t : Txid) (n : ℕ)
        → ((h : ℕ) (tx : Transaction) → IsAt txs blocks h tx → txid tx ≢ t)
        → content s.store t n ≡ none
    -- Below a connected block all blocks have been read.
    pub ready : (i j : ℕ) → ConnectedAt s.connected i → j ≤ i → IsIn s.read j
    pub results : All IsResult s.connected

  pub start-IsSound : IsSound (start txs into unspent get_block)
  unfolding start
  start-IsSound = record {
    valid = unspent.empty_lem.0;
    fresh = λ h tx n is_at unread. unspent.empty_lem.1 (txid tx) n;
    present = λ h tx n is_at read unspent_yet. absurd read;
    gone = λ i t n done spent. absurd done;
    foreign = λ t n none_here. unspent.empty_lem.1 t n;
    ready = λ i j done below. absurd done;
    results = tt;
  }
