-- ===== src/Tests/Open.antt =====
-- A data folder, opened with and without its transaction index, and blocks by their heights.
use bitcoin_query_py.Common.{
  ℕ, ◌+◌, ◌<◌, ◌≡◌, ◌≢◌, ◌↔◌, refl, [], ◌∷◌, true, false, ok, err, panic, mapped, String, some,
  ◌==◌, arith, get_elem?, leb, if◌then◌else◌,
}
use bitcoin_query_py.Errors.{OpResult, from_str}
use bitcoin_query_py.TxIndex
use bitcoin_query_py.TxIndex.{Database, is_open}
use bitcoin_query_py.Api.Open.{
  DataDir, InnerDb, new, opened, IsOpening, try_open_db, open_tx_db, new-tx_index,
}
use bitcoin_query_py.IterBlock.{
  until_error, ParIterSync, IsSync, range, read_task, from_range, iter_block,
}
use bitcoin_query_py.IterBlock
use bitcoin_query_py.IterBlock.Order.{iter_block_iff}
use bitcoin_query_py.Tests.Files.{fs, files, scanned}
use bitcoin_query_py.Tests.Index.{lib, entries, index, indexed}
use bitcoin_query_py.Tests.Stored.{db, tx_db}

-- The folder 4 has its blocks in 3, and in 5 its transaction index, whose database is `db`.
abbrev dir : DataDir lib fs
dir = record {
  exists = λ p. if p == 4 then true else p == 5;
  join = λ p name. if p == 4 then 3 else 5;
  open_entries = λ p. ok entries;
  open_database = λ p. ok db;
}

new-tx_index_example :
    (mapped (opened lib fs dir) (new lib fs dir 4 true)
      ≡ mapped (opened lib fs dir) (new lib fs dir 4 false))
    × ((d : InnerDb lib fs dir) → new lib fs dir 4 false ≡ ok d → is_open d.tx_db ≡ false)
    × ((d : InnerDb lib fs dir) (found : Database)
        → new lib fs dir 4 true ≡ ok d
        → (d.tx_db.db ≡ some found) ↔ IsOpening lib fs dir 5 found)
new-tx_index_example = new-tx_index lib fs dir 4 (λ text e. cc (e))

-- The folder opens, with its transaction index.
opens_index :
    new lib fs dir 4 true ≡ ok (record { block_index = index; blk_file = files; tx_db = tx_db })
unfolding new try_open_db open_tx_db
opens_index = rw (indexed, scanned) refl

is_opened : is_open tx_db ≡ true
unfolding is_open TxIndex.new
is_opened = refl

-- The same folder, where opening that database panics.
panics_with_index :
    new lib fs (record dir { open_database = λ p. panic "no library" }) 4 true ≡ panic "no library"
unfolding new try_open_db open_tx_db
panics_with_index = rw indexed refl

-- The iterator, one task after the other.
abbrev par : ParIterSync
par = record { into_par_iter_sync = λ {I} {O} tasks f. until_error f tasks }

par-IsSync : IsSync par
par-IsSync I O tasks f returns = refl

-- There are three blocks.
abbrev get_block : ℕ → OpResult ℕ
get_block h = if leb 3 h then err (from_str "height not found") else ok (h + 10)

get_block_returns : (h : ℕ) (text : String) → get_block h ≢ panic text
get_block_returns h text e = ground arith

-- The iteration from 1 to 9 stops behind the last block.
last_two : iter_block par get_block 1 9 ≡ 11 ∷ 12 ∷ []
unfolding iter_block from_range IterBlock.new until_error range read_task
last_two = refl

iter_block_iff_example : (get_elem? (iter_block par get_block 1 9) 1 ≡ some 12) ↔ (
    (1 + 1 < 9)
    × (get_block (1 + 1) ≡ ok 12)
    × ((j : ℕ) → j < 1 → (c : ℕ) × (get_block (1 + j) ≡ ok c)))
iter_block_iff_example = iter_block_iff par par-IsSync get_block get_block_returns 1 9 1 12
