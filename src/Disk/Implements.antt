-- ===== src/Disk/Implements.antt =====
-- The store on disk does what a store of unspent outputs promises.
use bitcoin_query_py.Common.{
  ℕ, ◌+◌, ◌≡◌, refl, arith, List, ok, none, inl, inr, Option, ltb, Bool-cases, ◌^◌,
}
use bitcoin_query_py.Common.Int.{IsU32}
use bitcoin_query_py.Reader.{Bytes}
use bitcoin_query_py.Bitcoin.{Transactions}
use bitcoin_query_py.Outputs.{Spends, inputs_of, Holds, outputs_of_block, IsTaken}
use bitcoin_query_py.Outputs.Store.{OutputStore}
use bitcoin_query_py.Disk.{RocksDb, OutputCodec, txo_key, block_keys, update_cache, connect_on_disk}
use bitcoin_query_py.Disk.Keys.{IsCodec, IsHealthy}
use bitcoin_query_py.Disk.Write.{
  value_at, stored_output, stored_output-some, stored_output-same, update_cache-IsAdded,
}
use bitcoin_query_py.Disk.Outpoints.{
  Spends-IsAmong, IsAmong-Spends, block_keys-inputs_of, delete_keys_lem, AreRead,
}
use bitcoin_query_py.Disk.Take.{take_block_lem}

module _ (txs : Transactions) (codec : OutputCodec txs) (is_codec : IsCodec txs codec)
    {TOut : Type 0} (into : txs.TxOut → TOut) (rocks : RocksDb) (healthy : IsHealthy rocks) where
  open txs use {Txid, TxOut, Transaction}
  open rocks use {Db}

  abbrev pub held : Db → Txid → ℕ → Option TOut
  held db = stored_output txs codec is_codec into rocks healthy db

  reads-AreRead :
      (db : Db) (keys : List Bytes)
      → AreRead txs codec into rocks healthy db (rocks.multi_get keys db) 0 keys
  reads-AreRead db keys i =
      let z : 0 + i ≡ i = omega arith in rw (z, healthy.multi_get_lem keys db) refl

  -- On a database that works, a block whose inputs name outputs of the set is connected, each
  -- transaction with the outputs that its inputs name, in their order, and exactly these outputs leave
  -- the set.
  pub connect_on_disk-IsTaken :
      (db : Db) (ts : List Transaction)
      → Holds txs (held db) (inputs_of txs ts)
      → (last : Db) × (connect_on_disk txs codec into rocks db ts
          ≡ ok (outputs_of_block txs (held db) ts, last))
        × IsTaken txs (held db) (held last) (inputs_of txs ts)
  unfolding connect_on_disk
  connect_on_disk-IsTaken db ts holds =
      let keys = block_keys txs codec ts in
      let (last, runs, gone, others) = delete_keys_lem txs codec into rocks healthy keys db in
      let taken =
        take_block_lem txs codec is_codec into rocks healthy db (rocks.multi_get keys db) ts 0 holds
          (reads-AreRead db keys) in
      let named = block_keys-inputs_of txs codec ts in
      let small : (s : Txid) (i : ℕ) → Spends txs (inputs_of txs ts) s i → IsU32 i = λ s i h.
        let (out, found) = holds s i h in
        (stored_output-some txs codec is_codec into rocks healthy db s i found).0 in
      (
        last,
        rw (runs, taken) refl,
        record {
          gone = λ t n h.
              gone_at last t n
                (gone _ (rw named (Spends-IsAmong txs codec (inputs_of txs ts) t n h)));
          others = λ t n h. elim (Bool-cases (ltb n (2 ^ 32))) [
            | inl below ↦ stored_output-same txs codec is_codec into rocks healthy last db t n (
                others _ (λ among. h (
                  IsAmong-Spends txs codec is_codec (inputs_of txs ts) t n (ground arith) small
                    (rw named at among))))
            | inr large ↦ rw large refl
          ];
        },
      )
    where
      gone_at :
          (last : Db) (t : Txid) (n : ℕ)
          → value_at txs codec is_codec into rocks healthy last t n ≡ none
          → held last t n ≡ none
      gone_at last t n nothing = elim (Bool-cases (ltb n (2 ^ 32))) [
        | inl below ↦ rw (below, nothing) refl
        | inr large ↦ rw large refl
      ]

  pub opened-none : (t : Txid) (n : ℕ) → held healthy.open_lem.0 t n ≡ none
  opened-none t n =
      let nothing = healthy.open_lem.2 (txo_key txs codec t n) in
      elim (Bool-cases (ltb n (2 ^ 32))) [
        | inl below ↦ rw (below, nothing) refl
        | inr large ↦ rw large refl
      ]

  abbrev pub on_disk : OutputStore txs into
  on_disk = record {
    Store = Db;
    content = held;
    IsValid = λ db. Unit {0};
    empty = healthy.open_lem.0;
    add = update_cache txs codec into rocks;
    connect = connect_on_disk txs codec into rocks;
    empty_lem = (tt, opened-none);
    add_lem = λ db ts valid fresh few.
        let (last, runs, added) =
          update_cache-IsAdded txs codec is_codec into rocks healthy db ts fresh few in
        (last, runs, tt, added);
    connect_lem = λ db ts valid once holds.
        let (last, runs, taken) = connect_on_disk-IsTaken db ts holds in (last, runs, tt, taken);
  }
