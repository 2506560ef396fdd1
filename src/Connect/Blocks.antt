-- ===== src/Connect/Blocks.antt =====
-- `connect_block_inputs` against the connection of one transaction after the other.
use bitcoin_query_py.Common.{
  ℕ, suc, Result, lift, ◌≡◌, refl, sym, ap, ◌∙◌, List, [], ◌∷◌, ◌++◌, map, ok, err, panic, ◌>>=◌,
  Option, none, some, ◌==◌, length, String, Bool-cases, inl, inr,
}
use mathlib.Core.List.{map-append}
use bitcoin_query_py.Errors.{OpResult, from_str}
use bitcoin_query_py.Bitcoin.{Headers, Transactions}
use bitcoin_query_py.BlockIndex.{BlockIndex}
use bitcoin_query_py.BlkFile.{FileSystem, Files}
use bitcoin_query_py.TxIndex.{TxDb}
use bitcoin_query_py.Connect.{
  connect_input, connect_all, found, outpoints_count, connect_tx_inputs, all_inputs, pop_outputs,
  with_inputs, reconstruct, connect_block_inputs,
}

-- The error of a whole block in place of that of a transaction.
abbrev pub for_block : {A : Type 0} → OpResult A → OpResult A
for_block outcome = elim outcome [
  | ok a ↦ ok a
  | err _ ↦ err (from_str "some outpoints aren't found, tx_index is not fully synced")
  | panic text ↦ panic text
]

length-map : {A B : Type 0} (f : A → B) (xs : List A) → length (map f xs) ≡ length xs
length-map f [] = refl
length-map f (x ∷ xs) = ap suc (length-map f xs)

module _ (lib : Headers) (fs : FileSystem) (txs : Transactions) (tx_db : TxDb)
    (blk_index : BlockIndex lib) (blk_file : Files fs) where
  open txs use {TxIn, TxOut, Transaction, input, is_coin_base}

  module _ {Tx : Type 0} (from : Transaction → Result ⊥ Tx) (add_input : Tx → TxOut → Result ⊥ Tx)
      (text : ℕ → ℕ → String) where
    -- One transaction after the other, by `connect_tx_inputs`.
    unfoldable pub connect_each : List Transaction → OpResult (List Tx)
    connect_each [] = ok []
    connect_each (tx ∷ rest) = do
      outs ←
          for_block (
            connect_tx_inputs lib fs txs tx_db blk_index blk_file text (input tx) (is_coin_base tx))
      connected ← lift (with_inputs lib fs txs tx_db blk_index blk_file from add_input tx outs)
      more ← connect_each rest
      ok (connected ∷ more)

  -- Each input gives an output or none, without a panic.
  module _ (connected : TxIn → Option TxOut)
      (runs : (x : TxIn)
        → connect_input lib fs txs tx_db blk_index blk_file x ≡ ok (connected x)) where
    pub connect_all-map :
        (xs : List TxIn)
        → connect_all lib fs txs tx_db blk_index blk_file xs ≡ ok (map connected xs)
    unfolding connect_all
    connect_all-map [] = refl
    connect_all-map (x ∷ xs) = rw (runs x, connect_all-map xs) refl

    pop_outputs-append :
        (outs queue : List (Option TxOut))
        → pop_outputs lib fs txs tx_db blk_index blk_file (length outs) (outs ++ queue)
          ≡ ok (found lib fs txs tx_db blk_index blk_file outs, queue)
    unfolding pop_outputs found
    pop_outputs-append [] queue = refl
    pop_outputs-append (none ∷ outs) queue = pop_outputs-append outs queue
    pop_outputs-append (some out ∷ outs) queue = rw (pop_outputs-append outs queue) refl

    pop_outputs-map :
        (xs : List TxIn) (queue : List (Option TxOut))
        → pop_outputs lib fs txs tx_db blk_index blk_file (length xs) (map connected xs ++ queue)
          ≡ ok (found lib fs txs tx_db blk_index blk_file (map connected xs), queue)
    pop_outputs-map xs queue =
        ap (λ n. pop_outputs lib fs txs tx_db blk_index blk_file n (map connected xs ++ queue))
          (sym (length-map connected xs))
        ∙ pop_outputs-append (map connected xs) queue

    module _ {Tx : Type 0} (from : Transaction → Result ⊥ Tx) (add_input : Tx → TxOut → Result ⊥ Tx)
        (text : ℕ → ℕ → String) where
      reconstruct-each :
          (ts : List Transaction)
          → reconstruct lib fs txs tx_db blk_index blk_file from add_input ts
              (map connected (all_inputs lib fs txs tx_db blk_index blk_file ts))
            ≡ connect_each from add_input text ts
      unfolding reconstruct connect_each all_inputs connect_tx_inputs
      reconstruct-each [] = refl
      reconstruct-each (tx ∷ rest) =
          let outs = found lib fs txs tx_db blk_index blk_file (map connected (input tx)) in
          let count =
            outpoints_count lib fs txs tx_db blk_index blk_file (is_coin_base tx) (input tx) in
          rw
            (
              map-append connected (input tx) (all_inputs lib fs txs tx_db blk_index blk_file rest),
              pop_outputs-map (input tx),
              connect_all-map (input tx),
            )
            (elim (Bool-cases (length outs == count)) [
              | inl all_found ↦ rw (all_found, reconstruct-each rest) refl
              | inr missing ↦ rw missing refl
            ])

      -- If connecting an input gives an output or none, the inputs of a block are connected as those of
      -- its transactions one after the other: the same transactions with the same outputs in the same
      -- order, or an error in the same cases.
      pub connect_block_inputs-connect_each :
          (ts : List Transaction)
          → connect_block_inputs lib fs txs tx_db blk_index blk_file from add_input ts
            ≡ connect_each from add_input text ts
      unfolding connect_block_inputs
      connect_block_inputs-connect_each ts =
          rw (connect_all-map (all_inputs lib fs txs tx_db blk_index blk_file ts))
            (reconstruct-each ts)
