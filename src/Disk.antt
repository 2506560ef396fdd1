-- ===== src/Disk.antt =====
-- src/iter/fetch_connected_async.rs with the feature on-disk-utxo (the default): the store of unspent
-- outputs in a rocksdb database.
-- An output stands under its transaction and number, encoded. A block is read by writing all its outputs
-- in one batch; it is connected by reading all outputs that its inputs name, and deleting them.
-- `to_ne_bytes` is that of a target with the lowest byte first. `Err(())` ends the iteration, so an
-- error keeps no database.
pub mod Keys
pub mod Batch
pub mod Write
pub mod Outpoints
pub mod Take
pub mod Implements
pub mod Twice
use bitcoin_query_py.Common.{
  ℕ, ◌+◌, List, [], ◌∷◌, ◌++◌, String, Result, ok, err, panic, ◌>>=◌, Option, none, some,
  if◌then◌else◌, get_elem?, ◌⊎◌, inl, inr,
}
use bitcoin_query_py.Reader.{Bytes}
use bitcoin_query_py.BlkFile.Read.{to_le_bytes}
use bitcoin_query_py.Bitcoin.{Transactions}

-- What `multi_get` gives: for each key an error, or the value if there is one.
abbrev pub Reads : Type 0
Reads = List (String ⊎ Option Bytes)

-- `rocksdb::DB`, by the functions that the code calls. `open_db` is `DB::open` of a new folder, and a
-- `WriteBatch` is the list of its puts.
pub record RocksDb : Type 1 where
  pub Db : Type 0
  pub open_db : String ⊎ Db
  pub write_without_wal : List (Bytes × Bytes) → Db → String ⊎ Db
  pub delete : Bytes → Db → String ⊎ Db
  pub multi_get : List Bytes → Db → Reads

-- `consensus_encode` of a `TxOut` into a `Vec`, which does not fail, and `consensus_decode`.
pub record OutputCodec (txs : Transactions) : Type 0 where
  pub consensus_encode : txs.TxOut → Bytes
  pub consensus_decode : Bytes → Option txs.TxOut

module _ (txs : Transactions) (codec : OutputCodec txs) where
  open txs use {
    Txid, TxIn, TxOut, Transaction, as_inner, txid, previous_txid, previous_vout, is_null, input,
    output,
  }

  unfoldable pub txo_key : Txid → ℕ → Bytes
  txo_key t n = as_inner t ++ to_le_bytes n

  unfoldable pub txo_to_u8 : TxOut → Bytes
  txo_to_u8 txo = codec.consensus_encode txo

  unfoldable pub txo_from_u8 : Bytes → Option TxOut
  txo_from_u8 bytes = codec.consensus_decode bytes

  -- The loop over the outputs of a transaction, from the output `n` on.
  unfoldable pub put_outputs : Txid → ℕ → List TxOut → List (Bytes × Bytes)
  put_outputs t n [] = []
  put_outputs t n (o ∷ os) = (txo_key t n, txo_to_u8 o) ∷ put_outputs t (n + 1) os

  unfoldable pub batch_of : List Transaction → List (Bytes × Bytes)
  batch_of [] = []
  batch_of (tx ∷ rest) = put_outputs (txid tx) 0 (output tx) ++ batch_of rest

  -- `collect rocks db keys`, of the inputs of one transaction and of a block.
  unfoldable pub input_keys : List TxIn → List Bytes
  input_keys [] = []
  input_keys (x ∷ xs) =
      let rest = input_keys xs in
      if is_null x then rest else txo_key (previous_txid x) (previous_vout x) ∷ rest

  unfoldable pub block_keys : List Transaction → List Bytes
  block_keys [] = []
  block_keys (tx ∷ rest) = input_keys (input tx) ++ block_keys rest

  -- What a read gives, `tx_outs.get(pos).unwrap()`. A failed read and bytes that cannot be decoded are
  -- taken for an output that is not there.
  abbrev pub decoded : Option Bytes → Option TxOut
  decoded none = none
  decoded (some bytes) = txo_from_u8 bytes

  abbrev pub decoded_read : String ⊎ Option Bytes → Option TxOut
  decoded_read outcome = elim outcome [ inl _ ↦ none | inr bytes ↦ decoded bytes ]

  unfoldable pub prev_txo : Reads → ℕ → Result (Unit {0}) TxOut
  prev_txo tx_outs pos = elim (get_elem? tx_outs pos) [
    | none ↦ panic "called `Option::unwrap()` on a `None` value"
    | some outcome ↦ elim (decoded_read outcome) [ none ↦ err tt | some out ↦ ok out ]
  ]

  module _ {TOut : Type 0} (into : TxOut → TOut) where
    -- The inputs of one transaction, from the read position `pos` on.
    unfoldable pub take_inputs : Reads → ℕ → List TxIn → Result (Unit {0}) (List TOut × ℕ)
    take_inputs tx_outs pos [] = ok ([], pos)
    take_inputs tx_outs pos (x ∷ xs) =
        if is_null x
        then take_inputs tx_outs pos xs
        else (prev_txo tx_outs pos >>= λ out.
            take_inputs tx_outs (pos + 1) xs >>= λ (outs, end). ok (into out ∷ outs, end))

    unfoldable pub take_block : Reads → ℕ → List Transaction → Result (Unit {0}) (List (List TOut))
    take_block tx_outs pos [] = ok []
    take_block tx_outs pos (tx ∷ rest) = do
      (outs, end) ← take_inputs tx_outs pos (input tx)
      more ← take_block tx_outs end rest
      ok (outs ∷ more)

    module _ (rocks : RocksDb) where
      open rocks use {Db, write_without_wal, delete, multi_get}

      -- `update_unspent_cache` on the transactions of a block that has been read.
      unfoldable pub update_cache : Db → List Transaction → Result (Unit {0}) Db
      update_cache db ts = elim (write_without_wal (batch_of ts) db) [
        | inl _ ↦ err tt
        | inr written ↦ ok written
      ]

      -- `remove keys`
      unfoldable pub delete_keys : List Bytes → Db → Result (Unit {0}) Db
      delete_keys [] db = ok db
      delete_keys (key ∷ keys) db = elim (delete key db) [
        | inl _ ↦ err tt
        | inr left ↦ delete_keys keys left
      ]

      -- `connect_outpoints` on the transactions of a block.
      unfoldable pub connect_on_disk :
          Db → List Transaction → Result (Unit {0}) (List (List TOut) × Db)
      connect_on_disk db ts = do
        let tx_outs = multi_get (block_keys ts) db
        left ← delete_keys (block_keys ts) db
        outs ← take_block tx_outs 0 ts
        ok (outs, left)
