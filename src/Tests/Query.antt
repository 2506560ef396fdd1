-- ===== src/Tests/Query.antt =====
-- The chain of the tests with a transaction index and a run of the worker threads.
use bitcoin_query_py.Common.{
  ℕ, zero, suc, ◌≡◌, ◌≤◌, refl, sym, ap, ◌∙◌, arith, List, [], ◌∷◌, true, false, ok, Option, some,
  none, ℕ_discrete, inl, inr, get_elem?, ◌==◌, if◌then◌else◌, Bool-cases,
}
use bitcoin_query_py.Common.Int.{pos, ℤ_discrete}
use bitcoin_query_py.Common.Maps.{get, insert, delete}
use bitcoin_query_py.Common.InsertAll.{insert_all}
use bitcoin_query_py.Bitcoin.{Fields, Instruction}
use bitcoin_query_py.BlkFile.{read_block, read_raw_block}
use bitcoin_query_py.TxIndex.{new, TransactionRecord, is_genesis_tx}
use bitcoin_query_py.TxIndex.Record.{IsStored}
use bitcoin_query_py.Script.{
  evaluate_script, evaluate_other, is_multisig, has_multisig_form, read_chunks, from_vec,
  not_recognised,
}
use bitcoin_query_py.Script
use bitcoin_query_py.Api.Stored.{HasTransaction}
use bitcoin_query_py.Connect.{connect_input, genesis_output}
use bitcoin_query_py.Connect.Inputs.{connect_input-get_elem?}
use mathlib.Core.Option.{some_inj}
use bitcoin_query_py.Proto.Full
use bitcoin_query_py.Proto.Full.{FTxOut}
use bitcoin_query_py.Proto.Simple
use bitcoin_query_py.Proto.Simple.{STxOut}
use bitcoin_query_py.Outputs.Store.{OutputStore}
use bitcoin_query_py.Utxo.{
  from_slice, is_empty, remove, add_transactions, spend_output, spend_inputs, connect_outpoints,
}
use bitcoin_query_py.Utxo.Implements.{in_memory}
use bitcoin_query_py.IterConnected.{
  IsIn, Threads, Step, update, connect_block, Reach, begin, then_, start, update_unspent_cache,
}
use bitcoin_query_py.IterConnected.Chain.{all_outputs}
use bitcoin_query_py.IterConnected.Invariant.{IsServed}
use bitcoin_query_py.IterConnected.Agree.{FindsAll}
use bitcoin_query_py.Tests.Files.{fs, files}
use bitcoin_query_py.Tests.Index.{lib, index}
use bitcoin_query_py.Tests.Scripts
use bitcoin_query_py.Tests.Stored.{db, tx_db, r-HasTransaction}
use bitcoin_query_py.Tests.Chain.{txs, mined, paid, blocks, get_block}

-- Every transaction of the index is the first one.
abbrev record_of : ℕ → TransactionRecord txs
record_of t = record { txid = t; n_file = pos 0; n_pos = 8; n_tx_offset = 1 }

record_of-IsStored : (t : ℕ) → IsStored txs tx_db (record_of t)
unfolding new
record_of-IsStored t = record {
  file = (omega arith, omega arith);
  place = omega arith;
  offset = omega arith;
  id = refl;
  db = db;
  opened = refl;
  stored = refl;
}

record_of-HasTransaction : (t : ℕ) → HasTransaction lib fs index files txs (record_of t) mined
record_of-HasTransaction t = record {
  path = r-HasTransaction.path;
  file = r-HasTransaction.file;
  front = r-HasTransaction.front;
  rest = r-HasTransaction.rest;
  left = [];
  bytes = r-HasTransaction.bytes;
  place = r-HasTransaction.place;
  decodes = refl;
}

no_genesis : genesis_output lib fs txs tx_db index files ≡ ok none
unfolding read_block read_raw_block get ℤ_discrete ℕ_discrete
no_genesis = refl

abbrev pub connected : ℕ × ℕ → Option ℕ
connected (t, n) = if t == 0 then none else if t == 7 then none else get_elem? (10 ∷ 11 ∷ []) n

genesis_runs : (n : ℕ) → connect_input lib fs txs tx_db index files (7, n) ≡ ok none
unfolding connect_input is_genesis_tx ℕ_discrete
genesis_runs n = no_genesis

null_runs :
    (t n : ℕ) → (t == 0) ≡ true → connect_input lib fs txs tx_db index files (t, n) ≡ ok none
unfolding connect_input
null_runs t n null = rw null refl

connected-null : (t n : ℕ) → (t == 0) ≡ true → connected (t, n) ≡ none
connected-null t n null = rw null refl

connected-other :
    (t n : ℕ) → (t == 0) ≡ false → (t == 7) ≡ false → connected (t, n) ≡ get_elem? (10 ∷ 11 ∷ []) n
connected-other t n real other = rw (real, other) refl

pub runs : (x : ℕ × ℕ) → connect_input lib fs txs tx_db index files x ≡ ok (connected x)
runs (t, n) = elim (Bool-cases (t == 0)) [
  | inl null ↦ null_runs t n null ∙ ap ok (sym (connected-null t n null))
  | inr real ↦ elim (ℕ_discrete t 7) [
    | yes p ↦ rw p (genesis_runs n)
    | no other ↦
        connect_input-get_elem? lib fs txs tx_db index files (t, n) (record_of t) mined real refl
          other (record_of-IsStored t) (record_of-HasTransaction t) (omega arith)
        ∙ ap ok (sym (connected-other t n real (ground arith)))
  ]
]

abbrev no_script : ℕ → List (Option Instruction)
no_script o = []

abbrev pub fields : Fields lib txs Scripts.lib
fields = record {
  TxMerkleNode = ℕ;
  header = λ b. (3, 2);
  header_version = λ h. pos 1;
  merkle_root = λ h. 5;
  time = λ h. 6;
  bits = λ h. 7;
  nonce = λ h. 8;
  version = λ t. pos 2;
  lock_time = λ t. 0;
  value = λ o. o;
  script_pubkey = no_script;
}

abbrev pub full_into : ℕ → FTxOut lib txs Scripts.lib fields
full_into o = record {
  value = o;
  script_pubkey = no_script o;
  script_type = not_recognised;
  addresses = [];
}

pub full_into_runs : (o : ℕ) → Full.from_tx_out lib txs Scripts.lib fields o ≡ ok (full_into o)
unfolding Full.from_tx_out evaluate_script evaluate_other is_multisig has_multisig_form read_chunks
    Script.new
full_into_runs o = refl

abbrev pub simple_into : ℕ → STxOut lib txs Scripts.lib fields
simple_into o = record { value = o; addresses = [] }

pub simple_into_runs :
    (o : ℕ) → Simple.from_tx_out lib txs Scripts.lib fields o ≡ ok (simple_into o)
unfolding Simple.from_tx_out evaluate_script evaluate_other is_multisig has_multisig_form
    read_chunks Script.new
simple_into_runs o = refl

pub memory : {TOut : Type 0} → (into : ℕ → TOut) → OutputStore txs into
memory into = in_memory txs into

program : Unit {0}
unfolding memory add_transactions insert_all from_slice is_empty remove spend_output spend_inputs
    connect_outpoints get insert delete ℕ_discrete update_unspent_cache start all_outputs
program = tt

pub blocks-IsServed :
    {TOut : Type 0} (into : ℕ → TOut) → IsServed txs into (memory into) get_block blocks
blocks-IsServed into zero block known = ap ok (some_inj.0 known)
blocks-IsServed into (suc zero) block known = ap ok (some_inj.0 known)
blocks-IsServed into (suc (suc h)) block known = absurd (cc (known))

below_two : (i : ℕ) → i ≤ 1 → IsIn (0 ∷ 1 ∷ []) i
below_two zero h = inl refl
below_two (suc zero) h = inr (inl refl)
below_two (suc (suc i)) h = absurd (omega arith)

pub memory_reach :
    {TOut : Type 0} (into : ℕ → TOut)
    → (s : Threads txs into (memory into) get_block) × Reach txs into (memory into) get_block 2 s
      × (get_elem? s.connected 0 ≡ some (1, (into 11 ∷ []) ∷ []))
unfolding program
memory_reach into =
    let one : Step txs into (memory into) get_block 2 (start txs into (memory into) get_block) _ =
      update _ 1 (paid ∷ []) _ (omega arith) (λ k. k) refl in
    let two : Step txs into (memory into) get_block 2 _ _ =
      update _ 0 (mined ∷ []) _ (omega arith)
        (λ k. elim k [ inl p ↦ absurd (omega (arith, p)) | inr none_left ↦ none_left ]) refl in
    let three : Step txs into (memory into) get_block 2 _ _ =
      connect_block _ 1 (paid ∷ []) _ _ (omega arith) below_two (λ k. k) refl refl in
    (_, then_ (then_ (then_ begin one) two) three, refl)

pub paid-FindsAll : FindsAll txs connected (all_outputs txs (λ o. o) blocks) (paid ∷ [])
unfolding program
paid-FindsAll zero tx at = rw (← some_inj.0 at) (refl, (refl, tt))
paid-FindsAll (suc i) tx at = absurd (cc (at))
