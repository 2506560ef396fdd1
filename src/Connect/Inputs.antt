-- ===== src/Connect/Inputs.antt =====
-- `connect_input` on an input whose transaction is stored.
use bitcoin_query_py.Common.{
  ℕ, ◌≡◌, ◌≢◌, refl, arith, true, false, ok, none, length, get_elem?, get_elem?-lt, leb,
  Option-cases, Bool-cases, get_elem?-some, inl, inr, List,
}
use bitcoin_query_py.Common.Int.{IsU32, to_u32}
use bitcoin_query_py.Bitcoin.{Headers, Transactions}
use bitcoin_query_py.BlockIndex.{BlockIndex}
use bitcoin_query_py.BlkFile.{FileSystem, Files}
use bitcoin_query_py.BlkFile.Read.{read_transaction_lem}
use bitcoin_query_py.TxIndex.{TxDb, TransactionRecord}
use bitcoin_query_py.TxIndex.Record.{IsStored, get_tx_record_lem}
use bitcoin_query_py.TxIndex.Heights.{is_genesis_tx-ne}
use bitcoin_query_py.Api.Stored.{HasTransaction}
use bitcoin_query_py.Connect.{connect_input, output_at, swap_remove}

module _ (lib : Headers) (fs : FileSystem) (txs : Transactions) (tx_db : TxDb)
    (blk_index : BlockIndex lib) (blk_file : Files fs) where
  open txs use {
    TxIn, TxOut, Transaction, previous_txid, previous_vout, is_null, output, decode_transaction,
  }

  output_at-get_elem? :
      (n : ℕ) (tx : Transaction)
      → IsU32 (length (output tx))
      → output_at lib fs txs tx_db blk_index blk_file n tx ≡ ok (get_elem? (output tx) n)
  output_at-get_elem? n tx few = elim (Option-cases (get_elem? (output tx) n)) [
    | inl outside ↦ rw (outside, past_the_end n (output tx) few outside) refl
    | inr (out, at) ↦
        let inside : leb (to_u32 (length (output tx))) n ≡ false =
          ground (arith, get_elem?-lt (output tx) n at) in
        rw (inside, swap_remove, at) refl
  ]
    where
      past_the_end :
          (n : ℕ) (outs : List TxOut)
          → IsU32 (length outs)
          → get_elem? outs n ≡ none
          → leb (to_u32 (length outs)) n ≡ true
      past_the_end n outs few outside = elim (Bool-cases (leb (to_u32 (length outs)) n)) [
        | inl past ↦ past
        | inr before ↦ let (out, at) = get_elem?-some outs n (ground arith) in absurd (cc)
      ]

  -- An input that is not null and spends a transaction other than the genesis one, which the
  -- transaction index has and which lies on the disk, is replaced by the output of its number, or by
  -- none if the transaction has fewer outputs.
  pub connect_input-get_elem? :
      (x : TxIn) (r : TransactionRecord txs) (tx : Transaction)
      → is_null x ≡ false
      → previous_txid x ≡ r.txid
      → r.txid ≢ txs.genesis_txid
      → IsStored txs tx_db r
      → HasTransaction lib fs blk_index blk_file txs r tx
      → IsU32 (length (output tx))
      → connect_input lib fs txs tx_db blk_index blk_file x
        ≡ ok (get_elem? (output tx) (previous_vout x))
  unfolding connect_input
  connect_input-get_elem? x r tx real spends other stored has few =
      rw
        (
          real,
          spends,
          is_genesis_tx-ne txs r.txid other,
          get_tx_record_lem txs tx_db r stored,
          read_transaction_lem fs decode_transaction blk_file r.n_file r.n_pos r.n_tx_offset
              has.front has.rest has.file has.bytes stored.place stored.offset has.place
              has.decodes,
        )
        (output_at-get_elem? (previous_vout x) tx few)
