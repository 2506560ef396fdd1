-- ===== src/IterConnected/Handed.antt =====
-- The outputs of a connected block in a run of the worker threads, by the chain before conversion.
use bitcoin_query_py.Common.{ℕ, ◌≡◌, sym, ap, ◌∙◌, List, some, get_elem?, length, All-get_elem?}
use mathlib.Core.Option.{some_inj}
use bitcoin_query_py.Errors.{OpResult}
use bitcoin_query_py.Bitcoin.{Transactions}
use bitcoin_query_py.Outputs.{outputs_of_block}
use bitcoin_query_py.Outputs.Inputs.{outputs_of_block-agree}
use bitcoin_query_py.Outputs.Store.{OutputStore}
use bitcoin_query_py.IterConnected.{Threads, Reach}
use bitcoin_query_py.IterConnected.Chain.{IsChain, all_outputs, all_outputs-converted}
use bitcoin_query_py.IterConnected.Invariant.{IsServed, IsResult}
use bitcoin_query_py.IterConnected.Schedule.{Reach-IsSound}
use bitcoin_query_py.IterConnected.Agree.{converted}

module _ (txs : Transactions) {TOut : Type 0} (into : txs.TxOut → TOut) where
  open txs use {Block, txdata}

  -- Each connected block has the outputs that its inputs spend, each the conversion of the output that
  -- the chain has.
  pub Reach-outputs_of_block :
      (get_block : ℕ → OpResult Block) (blocks : List Block) (unspent : OutputStore txs into)
      {s : Threads txs into unspent get_block} (h i : ℕ) (block : Block) {outs : List (List TOut)}
      → IsChain txs blocks
      → IsServed txs into unspent get_block blocks
      → Reach txs into unspent get_block (length blocks) s
      → get_elem? s.connected i ≡ some (h, outs)
      → get_elem? blocks h ≡ some block
      → outs
        ≡ outputs_of_block txs (converted txs into (all_outputs txs (λ o. o) blocks)) (txdata block)
  Reach-outputs_of_block get_block blocks unspent {s} h i block chain served reached here known =
      let (known_block, at, is) =
        All-get_elem? (IsResult txs into unspent get_block blocks) s.connected i
          (Reach-IsSound txs into get_block blocks chain unspent served reached).results here in
      let same = some_inj.0 (sym at ∙ known) in
      is
      ∙ ap (λ b. outputs_of_block txs (all_outputs txs into blocks) (txdata b)) same
      ∙ outputs_of_block-agree txs (all_outputs txs into blocks)
          (converted txs into (all_outputs txs (λ o. o) blocks)) (txdata block)
          (λ t n spends. all_outputs-converted txs into blocks t n)
