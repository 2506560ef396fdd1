-- ===== src/TxIndex/Heights.antt =====
-- `get_block_height_of_tx` on a database opened beside a loaded block index.
use bitcoin_query_py.Common.{
  ℕ, ◌≡◌, ◌≢◌, refl, sym, ap, ◌∙◌, List, [], false, some, ok, >>=-eq-ok, ok-injective, arith,
  get_elem?, inl, inr, Option-cases,
}
use bitcoin_query_py.Common.Int.{ℤ, pos}
use bitcoin_query_py.Common.Maps.{get}
use bitcoin_query_py.Common.InsertAll.{insert_all-found, insert_all_cases}
use bitcoin_query_py.Bitcoin.{Headers, Transactions}
use bitcoin_query_py.BlockIndex.{Record, Entry, BlockIndex}
use bitcoin_query_py.BlockIndex as Index
use bitcoin_query_py.BlockIndex.HashIndex.{IsIndexed, new-IsIndexed}
use bitcoin_query_py.TxIndex.{
  Position, position, position_discrete, Database, new, TransactionRecord, index_positions,
  is_genesis_tx, get_tx_record, height_at, get_block_height_of_tx,
}
use bitcoin_query_py.TxIndex.Record.{IsStored, get_tx_record_lem}

pub is_genesis_tx-ne :
    (lib : Transactions) (txid : lib.Txid)
    → txid ≢ lib.genesis_txid
    → is_genesis_tx lib txid ≡ false
unfolding is_genesis_tx
is_genesis_tx-ne lib txid other = ground arith

module _ (headers : Headers) (lib : Transactions) where
  -- The block of a height stands at the position of the record.
  abbrev pub IsAt : BlockIndex headers → TransactionRecord lib → ℕ → Type 0
  IsAt index r h =
      (b : Record headers) × (get_elem? index.records h ≡ some b)
      × (◌≡◌ {A = Position} (position b) (r.n_file, r.n_pos))

  position-some :
      (es : List (Entry headers)) (index : BlockIndex headers) (r : TransactionRecord lib) (h : ℕ)
      → IsIndexed headers es index
      → ((i j : ℕ) → IsAt index r i → IsAt index r j → i ≡ j)
      → IsAt index r h
      → get position_discrete (r.n_file, r.n_pos) (index_positions index.records) ≡ some (pos h)
  unfolding index_positions
  position-some es index r h indexed apart (b, found, at) =
      insert_all-found position_discrete position (λ b. b.n_height) index.records []
        (r.n_file, r.n_pos) (pos h) h b
        (λ j c k same.
          indexed.longest.chain.heights j c k ∙ ap pos (apart j h (c, k, same) (b, found, at)))
        found at

  position-IsAt :
      (es : List (Entry headers)) (index : BlockIndex headers) (r : TransactionRecord lib) (v : ℤ)
      → IsIndexed headers es index
      → get position_discrete (r.n_file, r.n_pos) (index_positions index.records) ≡ some v
      → (h : ℕ) × (v ≡ pos h) × IsAt index r h
  unfolding index_positions get
  position-IsAt es index r v indexed held =
      elim (insert_all_cases position_discrete position (λ b. b.n_height) index.records []
        (r.n_file, r.n_pos) v held) [
          | inl (i, b, found, at, level) ↦
              (i, sym level ∙ indexed.longest.chain.heights i b found, (b, found, at))
          | inr nothing ↦ cc
        ]

  -- On a database opened beside a loaded block index, a stored transaction that is not the genesis
  -- one has the height of the block at its position, if no two heights have a block there.
  pub get_block_height_of_tx_lem :
      (es : List (Entry headers)) (index : BlockIndex headers) (db : Database)
      (r : TransactionRecord lib) (h : ℕ)
      → Index.new headers (ok es) ≡ ok index
      → r.txid ≢ lib.genesis_txid
      → IsStored lib (new headers (some db) index) r
      → ((i j : ℕ) → IsAt index r i → IsAt index r j → i ≡ j)
      → IsAt index r h
      → get_block_height_of_tx lib (new headers (some db) index) r.txid ≡ ok h
  unfolding get_block_height_of_tx
  get_block_height_of_tx_lem es index db r h loaded other stored apart at =
      rw
        (
          is_genesis_tx-ne lib r.txid other,
          get_tx_record_lem lib (new headers (some db) index) r stored,
        )
        (unfold new in
          rw
            (height_at, position-some es index r h (new-IsIndexed headers es index loaded) apart at)
            refl)

  height_at-IsAt :
      (es : List (Entry headers)) (index : BlockIndex headers) (db : Database)
      (r : TransactionRecord lib) (h : ℕ)
      → IsIndexed headers es index
      → height_at lib (new headers (some db) index) r ≡ ok h
      → IsAt index r h
  unfolding new
  height_at-IsAt es index db r h indexed e =
      elim (Option-cases
        (get position_discrete (r.n_file, r.n_pos) (index_positions index.records))) [
          | inl nothing ↦ cc (rw (height_at, nothing) at e)
          | inr (v, held) ↦
              let (i, level, at) = position-IsAt es index r v indexed held in
              let same : i ≡ h = ok-injective (rw (height_at, held, level) at e) in rw (← same) at
        ]

  -- On a database opened beside a loaded block index, a height that is returned for a transaction that
  -- is not the genesis one is that of a block at the position of the transaction's record.
  pub get_block_height_of_tx-IsAt :
      (es : List (Entry headers)) (index : BlockIndex headers) (db : Database) (txid : lib.Txid)
      (h : ℕ)
      → Index.new headers (ok es) ≡ ok index
      → txid ≢ lib.genesis_txid
      → get_block_height_of_tx lib (new headers (some db) index) txid ≡ ok h
      → (r : TransactionRecord lib) × (get_tx_record lib (new headers (some db) index) txid ≡ ok r)
        × IsAt index r h
  unfolding get_block_height_of_tx
  get_block_height_of_tx-IsAt es index db txid h loaded other e =
      let tx_db = new headers (some db) index in
      let (r, found, level) =
        >>=-eq-ok (get_tx_record lib tx_db txid) (height_at lib tx_db)
          (rw (get_block_height_of_tx, is_genesis_tx-ne lib txid other) at e) in
      (r, found, height_at-IsAt es index db r h (new-IsIndexed headers es index loaded) level)
