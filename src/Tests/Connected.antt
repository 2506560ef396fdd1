-- ===== src/Tests/Connected.antt =====
-- The inputs of a block whose transactions spend the outputs of the stored transaction.
use bitcoin_query_py.Common.{
  ℕ, ◌≡◌, refl, sym, ap, ◌∙◌, arith, [], ◌∷◌, true, false, ok, Option, none, inl, inr, ◌==◌,
  if◌then◌else◌, get_elem?, Bool-cases, ℕ_discrete,
}
use bitcoin_query_py.Common.Int.{pos, ℤ_discrete}
use bitcoin_query_py.Common.Maps.{get}
use bitcoin_query_py.BlkFile.{read_block, read_raw_block}
use bitcoin_query_py.TxIndex.{new, TransactionRecord, is_genesis_tx}
use bitcoin_query_py.TxIndex.Record.{IsStored}
use bitcoin_query_py.Api.Stored.{HasTransaction}
use bitcoin_query_py.Connect.{connect_input, connect_block_inputs, genesis_output}
use bitcoin_query_py.Connect.Blocks.{connect_each, connect_block_inputs-connect_each}
use bitcoin_query_py.Connect.Inputs.{connect_input-get_elem?}
use bitcoin_query_py.Tests.Files.{fs, files}
use bitcoin_query_py.Tests.Stored.{txs, db, tx_db, r-HasTransaction}
use bitcoin_query_py.Tests.Index.{lib, index}

-- The database has the same place for every transaction.
abbrev record_of : ℕ → TransactionRecord txs
record_of t = record { txid = t; n_file = pos 0; n_pos = 8; n_tx_offset = 1 }

record_of-IsStored : (t : ℕ) → IsStored txs tx_db (record_of t)
unfolding new
record_of-IsStored t = record {
  file = (omega arith, omega arith);
  place = omega arith;
  offset = omega arith;
  id = refl;
  db = db;
  opened = refl;
  stored = refl;
}

record_of-HasTransaction : (t : ℕ) → HasTransaction lib fs index files txs (record_of t) 9
record_of-HasTransaction t = record {
  path = r-HasTransaction.path;
  file = r-HasTransaction.file;
  front = r-HasTransaction.front;
  rest = r-HasTransaction.rest;
  left = r-HasTransaction.left;
  bytes = r-HasTransaction.bytes;
  place = r-HasTransaction.place;
  decodes = r-HasTransaction.decodes;
}

-- The genesis block has no data here.
no_genesis : genesis_output lib fs txs tx_db index files ≡ ok none
unfolding read_block read_raw_block get ℤ_discrete ℕ_discrete
no_genesis = refl

abbrev connected : ℕ × ℕ → Option ℕ
connected (t, n) = if t == 0 then none else if t == 7 then none else get_elem? (90 ∷ 91 ∷ []) n

genesis_runs : (n : ℕ) → connect_input lib fs txs tx_db index files (7, n) ≡ ok none
unfolding connect_input is_genesis_tx ℕ_discrete
genesis_runs n = no_genesis

null_runs :
    (t n : ℕ) → (t == 0) ≡ true → connect_input lib fs txs tx_db index files (t, n) ≡ ok none
unfolding connect_input
null_runs t n null = rw null refl

connected-null : (t n : ℕ) → (t == 0) ≡ true → connected (t, n) ≡ none
connected-null t n null = rw null refl

connected-other :
    (t n : ℕ) → (t == 0) ≡ false → (t == 7) ≡ false → connected (t, n) ≡ get_elem? (90 ∷ 91 ∷ []) n
connected-other t n real other = rw (real, other) refl

runs : (x : ℕ × ℕ) → connect_input lib fs txs tx_db index files x ≡ ok (connected x)
runs (t, n) = elim (Bool-cases (t == 0)) [
  | inl null ↦ null_runs t n null ∙ ap ok (sym (connected-null t n null))
  | inr real ↦ elim (ℕ_discrete t 7) [
    | yes p ↦ rw p (genesis_runs n)
    | no other ↦
        connect_input-get_elem? lib fs txs tx_db index files (t, n) (record_of t) 9 real refl other
          (record_of-IsStored t) (record_of-HasTransaction t) (omega arith)
        ∙ ap ok (sym (connected-other t n real (ground arith)))
  ]
]

connect_block_inputs-connect_each_example :
    connect_block_inputs lib fs txs tx_db index files
      (λ t. ok [])
      (λ tx o. ok (o ∷ tx))
      (0 ∷ 1 ∷ [])
    ≡ connect_each lib fs txs tx_db index files
        (λ t. ok [])
        (λ tx o. ok (o ∷ tx))
        (λ e n. "missing")
        (0 ∷ 1 ∷ [])
connect_block_inputs-connect_each_example =
    connect_block_inputs-connect_each lib fs txs tx_db index files connected runs (λ t. ok [])
      (λ tx o. ok (o ∷ tx)) (λ e n. "missing") (0 ∷ 1 ∷ [])
