-- ===== src/Tests/Threads.antt =====
-- The chain read and connected out of order, with the store in memory and with a database.
use bitcoin_query_py.Common.{
  ◌*◌, ◌<◌, ◌⊎◌, ℕ, zero, suc, ◌≡◌, ◌≢◌, ◌≤◌, refl, ap, arith, List, [], ◌∷◌, map, ok, Option, none,
  ℕ_discrete, inl, inr, get_elem?, ◌+◌,
}
use mathlib.Core.Option.{some_inj}
use bitcoin_query_py.Common.Maps.{get, insert, delete}
use bitcoin_query_py.Common.InsertAll.{insert_all}
use bitcoin_query_py.Reader.{Bytes}
use bitcoin_query_py.Outputs.{
  SpendsOnce, Holds, inputs_of, outputs_of_block, IsTaken, IsAdded, IsFresh,
}
use bitcoin_query_py.Outputs.Store.{OutputStore}
use bitcoin_query_py.Utxo.{
  Unspent, from_slice, is_empty, remove, add_transactions, spend_output, spend_inputs,
  connect_outpoints,
}
use bitcoin_query_py.Utxo.Implements.{in_memory, nil-IsStore}
use bitcoin_query_py.Disk.Twice.{connect_on_disk-connect_outpoints}
use bitcoin_query_py.Disk.{
  RocksDb, OutputCodec, txo_key, txo_to_u8, txo_from_u8, put_outputs, batch_of, input_keys,
  block_keys, prev_txo, take_inputs, take_block, update_cache, delete_keys, connect_on_disk,
}
use bitcoin_query_py.Disk.Keys.{bytes_discrete, IsHealthy, IsCodec}
use bitcoin_query_py.Disk.Implements.{on_disk, held, connect_on_disk-IsTaken}
use bitcoin_query_py.Disk.Write.{update_cache-IsAdded}
use bitcoin_query_py.IterConnected.{
  IsIn, Threads, IsConnected, Step, update, connect_block, Reach, begin, then_, start,
  update_unspent_cache,
}
use bitcoin_query_py.IterConnected.Invariant.{IsServed, IsSound}
use bitcoin_query_py.IterConnected.Failure.{Reach-stops}
use bitcoin_query_py.IterConnected.Finite.{count_steps}
use bitcoin_query_py.IterConnected.Complete.{IsDone, Reach-ends}
use bitcoin_query_py.IterConnected.Schedule.{Reach-IsSound, Reach-progress, Reach-agree}
use bitcoin_query_py.Tests.Chain.{
  txs, Tx, mined, paid, blocks, get_block, spends_only, blocks-IsChain,
}

abbrev first_byte : Bytes → Option ℕ
first_byte bytes = get_elem? bytes 0

abbrev codec : OutputCodec txs
codec = record { consensus_encode = λ o. o ∷ []; consensus_decode = first_byte }

codec-IsCodec : IsCodec txs codec
codec-IsCodec = record {
  same_length = λ s t. refl;
  inner_injective = λ s t same. some_inj.0 (ap first_byte same);
  decode-encode = λ o. refl;
}

-- A database as a list of its entries.
abbrev rocks : RocksDb
rocks = record {
  Db = List (Bytes × Bytes);
  open_db = inr [];
  write_without_wal = λ batch db. inr (insert_all bytes_discrete (λ p. p.0) (λ p. p.1) batch db);
  delete = λ key db. inr (delete bytes_discrete key db);
  multi_get = λ keys db. map (λ key. inr (get bytes_discrete key db)) keys;
}

get-nil : (key : Bytes) → get {V = Bytes} bytes_discrete key [] ≡ none
unfolding get
get-nil key = refl

rocks-IsHealthy : IsHealthy rocks
rocks-IsHealthy = record {
  content = λ db. db;
  open_lem = ([], refl, get-nil);
  write_lem = λ batch db. (_, refl, λ key. refl);
  delete_lem = λ key db. (_, refl, λ other. refl);
  multi_get_lem = λ keys db. refl;
}

program : Unit {0}
unfolding add_transactions insert_all from_slice is_empty remove spend_output spend_inputs
    connect_outpoints get insert delete ℕ_discrete txo_key txo_to_u8 txo_from_u8 put_outputs
    batch_of input_keys block_keys prev_txo take_inputs take_block update_cache delete_keys
    connect_on_disk update_unspent_cache start rocks-IsHealthy bytes_discrete
program = tt

abbrev into : ℕ → ℕ
into o = o + 100

abbrev memory : OutputStore txs into
memory = in_memory txs into

abbrev disk : OutputStore txs into
disk = on_disk txs codec codec-IsCodec into rocks rocks-IsHealthy

blocks-IsServed : (unspent : OutputStore txs into) → IsServed txs into unspent get_block blocks
blocks-IsServed unspent zero block known = ap ok (some_inj.0 known)
blocks-IsServed unspent (suc zero) block known = ap ok (some_inj.0 known)
blocks-IsServed unspent (suc (suc h)) block known = absurd (cc (known))

below_two : (i : ℕ) → i ≤ 1 → IsIn (0 ∷ 1 ∷ []) i
below_two zero h = inl refl
below_two (suc zero) h = inr (inl refl)
below_two (suc (suc i)) h = absurd (omega arith)

not_one : ¬ IsIn (1 ∷ []) 0
not_one (inl p) = absurd (omega (arith, p))
not_one (inr none_left) = none_left

-- The second block is read first; both have been read when it is connected, before the first one.
disk_reach :
    (s : Threads txs into disk get_block) × Reach txs into disk get_block 2 s
    × (s.read ≡ 0 ∷ 1 ∷ [])
    × (s.connected ≡ (0, [] ∷ []) ∷ (1, (111 ∷ []) ∷ []) ∷ [])
unfolding program
disk_reach =
    let one : Step txs into disk get_block 2 (start txs into disk get_block) _ =
      update _ 1 (paid ∷ []) _ (omega arith) (λ k. k) refl in
    let two : Step txs into disk get_block 2 _ _ =
      update _ 0 (mined ∷ []) _ (omega arith) not_one refl in
    let three : Step txs into disk get_block 2 _ _ =
      connect_block _ 1 (paid ∷ []) _ _ (omega arith) below_two (λ k. k) refl refl in
    let four : Step txs into disk get_block 2 _ _ =
      connect_block _ 0 (mined ∷ []) _ _ (omega arith) (λ i h. below_two i (omega arith)) not_one
        refl refl in
    (_, then_ (then_ (then_ (then_ begin one) two) three) four, refl, refl)

-- In memory the same chain, up to the second block.
memory_reach :
    (s : Threads txs into memory get_block) × Reach txs into memory get_block 2 s
    × (s.connected ≡ (1, (111 ∷ []) ∷ []) ∷ [])
unfolding program
memory_reach =
    let one : Step txs into memory get_block 2 (start txs into memory get_block) _ =
      update _ 1 (paid ∷ []) _ (omega arith) (λ k. k) refl in
    let two : Step txs into memory get_block 2 _ _ =
      update _ 0 (mined ∷ []) _ (omega arith) not_one refl in
    let three : Step txs into memory get_block 2 _ _ =
      connect_block _ 1 (paid ∷ []) _ _ (omega arith) below_two (λ k. k) refl refl in
    (_, then_ (then_ (then_ begin one) two) three, refl)

Reach-IsSound_example : IsSound txs into disk get_block blocks disk_reach.0
Reach-IsSound_example =
    Reach-IsSound txs into get_block blocks blocks-IsChain disk (blocks-IsServed disk) disk_reach.1

no_step :
    (s t : Threads txs into disk get_block)
    → s.read ≡ 0 ∷ 1 ∷ []
    → s.connected ≡ (0, [] ∷ []) ∷ (1, (111 ∷ []) ∷ []) ∷ []
    → ¬ Step txs into disk get_block 2 s t
no_step s t read done (update _ h block left within absent runs) =
    absent (rw read (below_two h (omega arith)))
no_step s t read done (connect_block _ h block outs left within ready absent got runs) =
    absent (rw done (below_two h (omega arith)))

Reach-progress_example :
    IsIn disk_reach.0.read 1 × IsConnected txs into disk get_block disk_reach.0.connected 1
Reach-progress_example =
    Reach-progress txs into get_block blocks blocks-IsChain disk (blocks-IsServed disk) 1
      disk_reach.1 (omega arith) (λ t. no_step disk_reach.0 t disk_reach.2 disk_reach.3)

Reach-agree_example : ◌≡◌ {A = List (List ℕ)} ((111 ∷ []) ∷ []) ((111 ∷ []) ∷ [])
Reach-agree_example =
    Reach-agree txs into get_block blocks blocks-IsChain memory disk 1 0 1 (blocks-IsServed memory)
      memory_reach.1 disk_reach.1 (ap (λ l. get_elem? l 0) memory_reach.2)
      (ap (λ l. get_elem? l 1) disk_reach.3)

-- The first block's outputs are written, and the second block takes one of them.
abbrev after_first : List (Bytes × Bytes)
after_first = (1 ∷ 1 ∷ 0 ∷ 0 ∷ 0 ∷ [], 11 ∷ []) ∷ (1 ∷ 0 ∷ 0 ∷ 0 ∷ 0 ∷ [], 10 ∷ []) ∷ []

abbrev stored : List (Bytes × Bytes) → ℕ → ℕ → Option ℕ
stored db = held txs codec codec-IsCodec into rocks rocks-IsHealthy db

empty-IsFresh : IsFresh txs (stored []) (mined ∷ [])
unfolding program
empty-IsFresh i tx n here = disk.empty_lem.1 (tx.id) n

update_cache-IsAdded_example :
    (last : List (Bytes × Bytes)) × (update_cache txs codec into rocks [] (mined ∷ []) ≡ ok last)
    × IsAdded txs into (stored []) (stored last) (mined ∷ [])
update_cache-IsAdded_example =
    update_cache-IsAdded txs codec codec-IsCodec into rocks rocks-IsHealthy [] (mined ∷ [])
      empty-IsFresh (omega arith, tt)

after_first-Holds : Holds txs (stored after_first) (inputs_of txs (paid ∷ []))
unfolding program
after_first-Holds t n spends = let (p, q) = spends_only t n spends in (111, rw (p, q) refl)

connect_on_disk-IsTaken_example :
    (last : List (Bytes × Bytes)) × (connect_on_disk txs codec into rocks after_first (paid ∷ [])
      ≡ ok (outputs_of_block txs (stored after_first) (paid ∷ []), last))
    × IsTaken txs (stored after_first) (stored last) (inputs_of txs (paid ∷ []))
connect_on_disk-IsTaken_example =
    connect_on_disk-IsTaken txs codec codec-IsCodec into rocks rocks-IsHealthy after_first
      (paid ∷ []) after_first-Holds

-- A transaction that spends the output 1 of the first one twice.
abbrev greedy : Tx
greedy = record { id = 3; spends = (1, 1) ∷ (1, 1) ∷ []; makes = [] }

greedy-Holds : Holds txs (stored after_first) (inputs_of txs (greedy ∷ []))
unfolding program
greedy-Holds t n (inl (_, p, q)) = (111, rw (← p, ← q) refl)
greedy-Holds t n (inr (inl (_, p, q))) = (111, rw (← p, ← q) refl)
greedy-Holds t n (inr (inr none_left)) = absurd none_left

greedy_twice : ¬ SpendsOnce txs (inputs_of txs (greedy ∷ []))
greedy_twice (fresh, _) = fresh refl (inl (refl, refl, refl))

connect_on_disk-connect_outpoints_example :
    ((last : List (Bytes × Bytes)) × (connect_on_disk txs codec into rocks after_first (greedy ∷ [])
        ≡ ok (outputs_of_block txs (stored after_first) (greedy ∷ []), last)))
    × ((outs : List (List ℕ)) (left : Unspent txs into)
        → connect_outpoints txs into [] (greedy ∷ []) ≢ ok (outs, left))
connect_on_disk-connect_outpoints_example =
    connect_on_disk-connect_outpoints txs codec codec-IsCodec into rocks rocks-IsHealthy after_first
      [] (greedy ∷ []) (nil-IsStore txs into) greedy-Holds greedy_twice

-- The chain ends at the height 2, and an iteration to 9 does not come there.
longer_reach :
    (s : Threads txs into disk get_block) × Reach txs into disk get_block 9 s
    × (s.connected ≡ (0, [] ∷ []) ∷ [])
unfolding program
longer_reach =
    let one : Step txs into disk get_block 9 (start txs into disk get_block) _ =
      update _ 0 (mined ∷ []) _ (omega arith) (λ k. k) refl in
    let two : Step txs into disk get_block 9 _ _ =
      connect_block _ 0 (mined ∷ []) _ _ (omega arith) only_zero (λ k. k) refl refl in
    (_, then_ (then_ begin one) two, refl)
  where
    only_zero : (i : ℕ) → i ≤ 0 → IsIn (0 ∷ []) i
    only_zero zero h = inl refl
    only_zero (suc i) h = absurd (omega arith)

Reach-stops_example : ¬ IsConnected txs into disk get_block longer_reach.0.connected 3
Reach-stops_example =
    Reach-stops txs into disk get_block 9 2 3 longer_reach.1 (λ block e. cc) (omega arith)

Reach-ends_example :
    ((count_steps txs into disk get_block 2 disk_reach.1 < 2 * 2)
      × (t : Threads txs into disk get_block) × Step txs into disk get_block 2 disk_reach.0 t)
    ⊎ ((count_steps txs into disk get_block 2 disk_reach.1 ≡ 2 * 2)
        × IsDone txs into get_block blocks blocks-IsChain disk (blocks-IsServed disk) disk_reach.0)
Reach-ends_example =
    Reach-ends txs into get_block blocks blocks-IsChain disk (blocks-IsServed disk) disk_reach.1
