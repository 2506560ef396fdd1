-- ===== src/Tests/Stored.antt =====
-- A block and its transaction in a blk file, with their records.
use bitcoin_query_py.Common.{
  ℕ, zero, suc, ◌+◌, ◌*◌, false, ◌≡◌, ◌≢◌, refl, sym, ap, ◌∙◌, List, [], ◌∷◌, ◌++◌, Option, none,
  some, ok, arith, ℕ_discrete, ◌==◌, if◌then◌else◌, drop, length,
}
use bitcoin_query_py.Common.Int.{pos, ℤ_discrete}
use bitcoin_query_py.Common.Maps.{get}
use bitcoin_query_py.Reader.{Bytes}
use mathlib.Core.Option.{some_inj}
use bitcoin_query_py.Bitcoin.{Transactions}
use bitcoin_query_py.BlockIndex.{BlockIndex}
use bitcoin_query_py.BlkFile.Read.{to_le_bytes}
use bitcoin_query_py.TxIndex.{
  TxDb, Database, new, TransactionRecord, get_tx_record, get_block_height_of_tx,
}
use bitcoin_query_py.TxIndex.Record.{write_position, IsStored}
use bitcoin_query_py.TxIndex.Heights.{IsAt, get_block_height_of_tx_lem, get_block_height_of_tx-IsAt}
use bitcoin_query_py.Api.{get_raw_block, get_block, get_transaction, get_height_of_transaction}
use bitcoin_query_py.Api.Stored.{
  HasBlock, HasTransaction, get_block_lem, get_transaction_lem, get_transaction-genesis_txid,
}
use bitcoin_query_py.Connect.{connect_input}
use bitcoin_query_py.Connect.Inputs.{connect_input-get_elem?}
use bitcoin_query_py.Tests.Files.{fs, files, block, magic, zeros}
use bitcoin_query_py.Tests.Index.{lib, first, entries, index, indexed}

-- A transaction is its number, with two outputs and an input that spends the one before it.
abbrev decode_tx : Bytes → Option (ℕ × Bytes)
decode_tx [] = none
decode_tx (t ∷ rest) = some (t, rest)

abbrev id_of : Bytes → Option ℕ
id_of [] = none
id_of (t ∷ _) = some t

abbrev pub txs : Transactions
txs = record {
  Txid = ℕ;
  TxIn = ℕ × ℕ;
  TxOut = ℕ;
  Transaction = ℕ;
  Block = List ℕ;
  txid_discrete = ℕ_discrete;
  as_inner = λ t. t ∷ [];
  txid_from_slice = id_of;
  txid_text = λ t. "txid";
  genesis_txid = 7;
  previous_txid = λ x. x.0;
  previous_vout = λ x. x.1;
  is_null = λ x. x.0 == 0;
  txid = λ t. t;
  input = λ t. (9, t) ∷ [];
  output = λ t. (10 * t) ∷ (10 * t + 1) ∷ [];
  is_coin_base = λ t. false;
  txdata = λ b. b;
  decode_transaction = decode_tx;
  decode_block = λ bytes. some (drop 81 bytes, []);
}

abbrev pub r : TransactionRecord txs
r = record { txid = 9; n_file = pos 0; n_pos = 8; n_tx_offset = 1 }

abbrev pub db : Database
db [] = ok none
db (_ ∷ key) = if length key == 1 then ok (some (write_position (pos 0) 8 1)) else ok none

abbrev pub tx_db : TxDb
tx_db = new lib (some db) index

r-IsStored : IsStored txs tx_db r
unfolding new
r-IsStored = record {
  file = (omega arith, omega arith);
  place = omega arith;
  offset = omega arith;
  id = refl;
  db = db;
  opened = refl;
  stored = refl;
}

not_genesis : ◌≢◌ {A = ℕ} 9 7
not_genesis h = absurd (omega arith)

only_first : (i : ℕ) → IsAt lib txs index r i → i ≡ 1
only_first zero (b, found, at) =
    absurd (cc (ap (λ p. p.0) at, ap (λ b. b.n_file) (some_inj.0 found)))
only_first (suc zero) (b, found, at) = refl
only_first (suc (suc i)) (b, found, at) = cc

get_block_height_of_tx_lem_example : get_block_height_of_tx txs tx_db 9 ≡ ok 1
get_block_height_of_tx_lem_example =
    get_block_height_of_tx_lem lib txs entries index db r 1 indexed not_genesis r-IsStored
      (λ i j p q. only_first i p ∙ sym (only_first j q)) (first, refl, refl)

height : get_block_height_of_tx txs tx_db 9 ≡ ok 1
height =
    get_block_height_of_tx_lem lib txs entries index db r 1 indexed not_genesis r-IsStored
      (λ i j p q. only_first i p ∙ sym (only_first j q)) (first, refl, refl)

get_block_height_of_tx-IsAt_example :
    (s : TransactionRecord txs) × (get_tx_record txs tx_db 9 ≡ ok s) × IsAt lib txs index s 1
get_block_height_of_tx-IsAt_example =
    get_block_height_of_tx-IsAt lib txs entries index db 9 1 indexed not_genesis height

block-HasBlock : HasBlock lib fs index files 1 block
unfolding get ℤ_discrete ℕ_discrete
block-HasBlock = record {
  b = first;
  known = refl;
  path = 0;
  file = refl;
  front = magic;
  back = [];
  bytes = refl;
  size = omega arith;
  place = refl;
  fits = omega arith;
}

get_block_lem_example :
    (get_raw_block lib fs index files 1 ≡ ok block)
    × (get_block lib fs index files txs (λ b. length b) 1 ≡ ok 1)
get_block_lem_example =
    get_block_lem lib fs index files txs (λ b. length b) 1 block block-HasBlock refl

pub r-HasTransaction : HasTransaction lib fs index files txs r 9
unfolding get ℤ_discrete ℕ_discrete
r-HasTransaction = record {
  path = 0;
  file = refl;
  front = magic ++ (to_le_bytes 82 ++ (zeros 80 ++ 1 ∷ []));
  rest = 9 ∷ [];
  left = [];
  bytes = refl;
  place = refl;
  decodes = refl;
}

get_transaction_lem_example : get_transaction lib fs index files txs (λ t. t + 1) tx_db 9 ≡ ok 10
get_transaction_lem_example =
    get_transaction_lem lib fs index files txs (λ t. t + 1) tx_db r 9 not_genesis r-IsStored
      r-HasTransaction

-- An index whose first block is the stored one.
abbrev stored_index : BlockIndex lib
stored_index = record { records = first ∷ []; hash_to_height = [] }

first-HasBlock : HasBlock lib fs stored_index files 0 block
unfolding get ℤ_discrete ℕ_discrete
first-HasBlock = record {
  b = first;
  known = refl;
  path = 0;
  file = refl;
  front = magic;
  back = [];
  bytes = refl;
  size = omega arith;
  place = refl;
  fits = omega arith;
}

is_opened : tx_db.db ≡ some db
unfolding new
is_opened = refl

get_transaction-genesis_txid_example :
    (get_transaction lib fs stored_index files txs (λ t. t + 1) tx_db 7 ≡ ok 10)
    × (get_height_of_transaction txs tx_db 7 ≡ ok 0)
get_transaction-genesis_txid_example =
    get_transaction-genesis_txid lib fs stored_index files txs (λ t. t + 1) tx_db db block 9 []
      is_opened first-HasBlock refl refl

connect_input-get_elem?_example : connect_input lib fs txs tx_db index files (9, 1) ≡ ok (some 91)
connect_input-get_elem?_example =
    connect_input-get_elem? lib fs txs tx_db index files (9, 1) r 9 refl refl not_genesis r-IsStored
      r-HasTransaction (omega arith)
