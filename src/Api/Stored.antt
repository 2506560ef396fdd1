-- ===== src/Api/Stored.antt =====
-- The queries for blocks and transactions, from the bytes on the disk to what they return.
use bitcoin_query_py.Common.{
  ℕ, ◌+◌, ◌≡◌, ◌≢◌, refl, arith, List, ◌∷◌, ◌++◌, true, some, ok, length, get_elem?,
}
use bitcoin_query_py.Common.Int.{ℤ_discrete, IsU32}
use bitcoin_query_py.Common.Maps.{get}
use bitcoin_query_py.Reader.{Bytes}
use bitcoin_query_py.Bitcoin.{Headers, Transactions}
use bitcoin_query_py.BlockIndex.{Record, BlockIndex}
use bitcoin_query_py.BlkFile.{FileSystem, Files}
use bitcoin_query_py.BlkFile.Read.{
  to_le_bytes, read_raw_block_lem, read_block_lem, read_transaction_lem,
}
use bitcoin_query_py.TxIndex.{
  TxDb, Database, is_open, is_genesis_tx, TransactionRecord, get_block_height_of_tx,
}
use bitcoin_query_py.TxIndex.Record.{IsStored, get_tx_record_lem}
use bitcoin_query_py.TxIndex.Heights.{is_genesis_tx-ne}
use bitcoin_query_py.Api.{get_raw_block, get_block, get_transaction, get_height_of_transaction}

is_open-some : (tx_db : TxDb) {db : Database} → tx_db.db ≡ some db → is_open tx_db ≡ true
unfolding is_open
is_open-some tx_db e = rw e refl

module _ (lib : Headers) (fs : FileSystem) (index : BlockIndex lib) (files : Files fs) where
  open fs use {PathBuf, open_file}

  -- The block of a height lies in its file behind its size, at the position that the index has.
  pub record HasBlock (height : ℕ) (block : Bytes) : Type 0 where
    pub b : Record lib
    pub known : get_elem? index.records height ≡ some b
    pub path : PathBuf
    pub file : get ℤ_discrete b.n_file files ≡ some path
    pub front : Bytes
    pub back : Bytes
    pub bytes : open_file path ≡ ok (front ++ (to_le_bytes (length block) ++ (block ++ back)))
    pub size : IsU32 (length block)
    pub place : b.n_data_pos ≡ length front + 4
    pub fits : IsU32 (length front + 4)

  pub get_raw_block_lem :
      (height : ℕ) (block : Bytes)
      → HasBlock height block
      → get_raw_block lib fs index files height ≡ ok block
  unfolding get_raw_block
  get_raw_block_lem height block has =
      rw (has.known, get_raw_block, has.place)
        (read_raw_block_lem fs files has.b.n_file has.front block has.back has.file has.bytes
          has.size has.fits)

  module _ (txs : Transactions) where
    open txs use {Txid, Transaction, Block, decode_block, decode_transaction}

    -- A block that lies in its file behind its size, where the index says, is returned, raw and as what
    -- the decoder makes of it; its size and its position fit 32 bits.
    pub get_block_lem :
        {T : Type 0} (into : Block → T) (height : ℕ) (block : Bytes) {decoded : Block}
        {left : Bytes}
        → HasBlock height block
        → decode_block block ≡ some (decoded, left)
        → (get_raw_block lib fs index files height ≡ ok block)
          × (get_block lib fs index files txs into height ≡ ok (into decoded))
    unfolding get_block
    get_block_lem into height block has decodes = (
      get_raw_block_lem height block has,
      rw
          (
            has.known,
            get_block,
            has.place,
            read_block_lem fs files has.b.n_file has.front block has.back has.file has.bytes
                has.size decode_block has.fits decodes,
          )
          refl,
    )

    -- The transaction lies in its file at the place of its record.
    pub record HasTransaction (r : TransactionRecord txs) (tx : Transaction) : Type 0 where
      pub path : PathBuf
      pub file : get ℤ_discrete r.n_file files ≡ some path
      pub front : Bytes
      pub rest : Bytes
      pub left : Bytes
      pub bytes : open_file path ≡ ok (front ++ rest)
      pub place : length front ≡ r.n_pos + 80 + r.n_tx_offset
      pub decodes : decode_transaction rest ≡ some (tx, left)

    -- A transaction that the transaction index has, and that lies on the disk at the place of its
    -- record, is the one that is returned, if it is not the genesis one.
    pub get_transaction_lem :
        {T : Type 0} (into : Transaction → T) (tx_db : TxDb) (r : TransactionRecord txs)
        (tx : Transaction)
        → r.txid ≢ txs.genesis_txid
        → IsStored txs tx_db r
        → HasTransaction r tx
        → get_transaction lib fs index files txs into tx_db r.txid ≡ ok (into tx)
    unfolding get_transaction
    get_transaction_lem into tx_db r tx other stored has =
        rw
          (
            is_open-some tx_db stored.opened,
            get_transaction,
            is_genesis_tx-ne txs r.txid other,
            get_tx_record_lem txs tx_db r stored,
            read_transaction_lem fs decode_transaction files r.n_file r.n_pos r.n_tx_offset
                has.front has.rest has.file has.bytes stored.place stored.offset has.place
                has.decodes,
          )
          refl

    is_genesis_tx-genesis_txid : is_genesis_tx txs txs.genesis_txid ≡ true
    unfolding is_genesis_tx
    is_genesis_tx-genesis_txid = ground arith

    -- With an open transaction index, whatever it has, the genesis transaction is the first one of the
    -- stored and decoded block of height 0, and its height is 0.
    pub get_transaction-genesis_txid :
        {T : Type 0} (into : Transaction → T) (tx_db : TxDb) (db : Database) (block : Bytes)
        {decoded : Block} {left : Bytes} (tx : Transaction) (more : List Transaction)
        → tx_db.db ≡ some db
        → HasBlock 0 block
        → decode_block block ≡ some (decoded, left)
        → txs.txdata decoded ≡ tx ∷ more
        → (get_transaction lib fs index files txs into tx_db txs.genesis_txid ≡ ok (into tx))
          × (get_height_of_transaction txs tx_db txs.genesis_txid ≡ ok 0)
    unfolding get_transaction get_height_of_transaction get_block_height_of_tx
    get_transaction-genesis_txid into tx_db db block tx more opened has decodes first = (
      rw
          (
            is_open-some tx_db opened,
            get_transaction,
            is_genesis_tx-genesis_txid,
            (get_block_lem (λ b. b) 0 block has decodes).1,
            first,
          )
          refl,
      rw
          (
            is_open-some tx_db opened,
            get_height_of_transaction,
            get_block_height_of_tx,
            is_genesis_tx-genesis_txid,
          )
          refl,
    )
