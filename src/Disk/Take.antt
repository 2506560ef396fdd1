-- ===== src/Disk/Take.antt =====
-- The loop that hands the outputs that were read to the inputs of a block.
use bitcoin_query_py.Common.{
  ℕ, suc, ◌+◌, ◌≡◌, refl, arith, List, [], ◌∷◌, ◌++◌, Option, some, ok, get_elem?, inl, inr,
  Bool-cases,
}
use bitcoin_query_py.Reader.{Bytes}
use bitcoin_query_py.Bitcoin.{Transactions}
use bitcoin_query_py.Outputs.{Holds, inputs_of, outputs_of, outputs_of_block}
use bitcoin_query_py.Outputs.Inputs.{Spends-append}
use bitcoin_query_py.Disk.{
  RocksDb, OutputCodec, Reads, txo_key, decoded, input_keys, block_keys, prev_txo, take_inputs,
  take_block,
}
use bitcoin_query_py.Disk.Keys.{IsCodec, IsHealthy}
use bitcoin_query_py.Disk.Write.{value_at, stored_output, stored_output-some}
use bitcoin_query_py.Disk.Outpoints.{AreRead}

module _ (txs : Transactions) (codec : OutputCodec txs) (is_codec : IsCodec txs codec)
    {TOut : Type 0} (into : txs.TxOut → TOut) (rocks : RocksDb) (healthy : IsHealthy rocks) where
  open txs use {Txid, TxIn, TxOut, Transaction, input, is_null, previous_txid, previous_vout}
  open rocks use {Db}

  abbrev held : Db → Txid → ℕ → Option TOut
  held db = stored_output txs codec is_codec into rocks healthy db

  abbrev ReadsAt : Db → Reads → ℕ → List Bytes → Type 0
  ReadsAt db reads pos keys = AreRead txs codec into rocks healthy db reads pos keys

  prev_txo_lem :
      (reads : Reads) (pos : ℕ) (value : Option Bytes) {o : TxOut}
      → get_elem? reads pos ≡ some (inr value)
      → decoded txs codec value ≡ some o
      → prev_txo txs codec reads pos ≡ ok o
  unfolding prev_txo
  prev_txo_lem reads pos value at found = rw (at, prev_txo, found) refl

  take_inputs_lem :
      (db : Db) (reads : Reads) (xs : List TxIn) (pos : ℕ) (back : List Bytes)
      → Holds txs (held db) xs
      → ReadsAt db reads pos (input_keys txs codec xs ++ back)
      → (end : ℕ) × (take_inputs txs codec into reads pos xs
          ≡ ok (outputs_of txs (held db) xs, end))
        × ReadsAt db reads end back
  unfolding take_inputs input_keys
  take_inputs_lem db reads [] pos back holds at = (pos, refl, at)
  take_inputs_lem db reads (x ∷ xs) pos back holds at = elim (Bool-cases (is_null x)) [
    | inl null ↦
        let (end, runs, rest) =
          take_inputs_lem db reads xs pos back (λ t n h. holds t n (inr h)) (rw null at at) in
        (end, rw null runs, rest)
    | inr real ↦
        let at' : ReadsAt db reads pos (
            txo_key txs codec (previous_txid x) (previous_vout x)
            ∷ (input_keys txs codec xs ++ back)) =
          rw real at at in
        let (out, found) = holds (previous_txid x) (previous_vout x) (inl (real, refl, refl)) in
        let (small, o, is_o, same) =
          stored_output-some txs codec is_codec into rocks healthy db _ _ found in
        let here : pos + 0 ≡ pos = omega arith in
        let first =
          prev_txo_lem reads pos (value_at txs codec is_codec into rocks healthy db _ _)
            (rw here at (at' 0)) is_o in
        let (end, runs, rest) =
          take_inputs_lem db reads xs (pos + 1) back (λ t n h. holds t n (inr h))
            (λ i. let next : (pos + 1) + i ≡ pos + suc i = omega arith in rw next (at' (suc i))) in
        (end, rw (real, first, runs, found, same) refl, rest)
  ]

  -- If the set has what the inputs of a block name, and the reads are those of its keys, each
  -- transaction gets the outputs that its inputs name.
  pub take_block_lem :
      (db : Db) (reads : Reads) (ts : List Transaction) (pos : ℕ)
      → Holds txs (held db) (inputs_of txs ts)
      → ReadsAt db reads pos (block_keys txs codec ts)
      → take_block txs codec into reads pos ts ≡ ok (outputs_of_block txs (held db) ts)
  unfolding take_block block_keys
  take_block_lem db reads [] pos holds at = refl
  take_block_lem db reads (tx ∷ rest) pos holds at =
      let parts = Spends-append txs (input tx) (inputs_of txs rest) in
      let (end, runs, later) =
        take_inputs_lem db reads (input tx) pos (block_keys txs codec rest)
          (λ t n h. holds t n ((parts t n).1 (inl h))) at in
      rw (runs, take_block_lem db reads rest end (λ t n h. holds t n ((parts t n).1 (inr h))) later)
        refl
