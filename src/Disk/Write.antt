-- ===== src/Disk/Write.antt =====
-- The set of outputs that a database stands for, and a block that is written to it.
use bitcoin_query_py.Common.{
  ℕ, ◌≡◌, ◌^◌, refl, ap, ◌∙◌, arith, List, Option, none, some, ok, length, get_elem?,
  get_elem?-none, get_elem?-lt, All, All-get_elem?, inl, inr, if◌then◌else◌, ltb, ltb_of_lt,
  Option-cases, Bool-cases,
}
use mathlib.Core.Option
use bitcoin_query_py.Common.Int.{IsU32}
use bitcoin_query_py.Common.Maps.{get}
use bitcoin_query_py.Reader.{Bytes}
use bitcoin_query_py.Bitcoin.{Transactions}
use bitcoin_query_py.Outputs.{OutputSet, IsOnly, IsAdded, IsFresh}
use bitcoin_query_py.Disk.{
  RocksDb, OutputCodec, txo_key, txo_to_u8, txo_from_u8, decoded, batch_of, update_cache,
}
use bitcoin_query_py.Disk.Keys.{bytes_discrete, IsCodec, IsHealthy}
use bitcoin_query_py.Disk.Batch.{written, batch_of-other, batch_of-found, batch_of-beyond}

module _ (txs : Transactions) (codec : OutputCodec txs) (is_codec : IsCodec txs codec)
    {TOut : Type 0} (into : txs.TxOut → TOut) (rocks : RocksDb) (healthy : IsHealthy rocks) where
  open txs use {Txid, TxOut, Transaction, txid, output}
  open rocks use {Db}

  abbrev pub value_at : Db → Txid → ℕ → Option Bytes
  value_at db t n = get bytes_discrete (txo_key txs codec t n) (healthy.content db)

  -- An output has a number below 2 ^ 32.
  abbrev pub stored_output : Db → OutputSet txs TOut
  stored_output db t n =
      if ltb n (2 ^ 32) then Option.map into (decoded txs codec (value_at db t n)) else none

  pub stored_output-same :
      (a b : Db) (t : Txid) (n : ℕ)
      → value_at a t n ≡ value_at b t n
      → stored_output a t n ≡ stored_output b t n
  stored_output-same a b t n same =
      ap (λ v. if ltb n (2 ^ 32) then Option.map into (decoded txs codec v) else none) same

  -- What is there has a number below 2 ^ 32 and a value that is decoded.
  pub stored_output-some :
      (db : Db) (t : Txid) (n : ℕ) {out : TOut}
      → stored_output db t n ≡ some out
      → IsU32 n × (o : TxOut) × (decoded txs codec (value_at db t n) ≡ some o) × (into o ≡ out)
  stored_output-some db t n h = elim (Bool-cases (ltb n (2 ^ 32))) [
    | inl small ↦ elim (Option-cases (decoded txs codec (value_at db t n))) [
      | inl nothing ↦ absurd (cc (rw (small, nothing) at h))
      | inr (o, found) ↦ (ground arith, o, found, Option.some_inj.0 (rw (small, found) at h))
    ]
    | inr large ↦ absurd (cc (rw large at h))
  ]

  stored_output-value :
      (db : Db) (t : Txid) (n : ℕ) (o : TxOut)
      → IsU32 n
      → value_at db t n ≡ some (txo_to_u8 txs codec o)
      → stored_output db t n ≡ some (into o)
  unfolding txo_to_u8 txo_from_u8
  stored_output-value db t n o small held =
      rw (ltb_of_lt n (2 ^ 32) small, held, is_codec.decode-encode o) refl

  -- On a database that works, and that has no output of the transactions of a block, each with fewer
  -- than 2 ^ 32 outputs, the batch of the block is written. It adds the outputs of each transaction that
  -- is the only one of its id in the block, and no output of any other id.
  pub update_cache-IsAdded :
      (db : Db) (ts : List Transaction)
      → IsFresh txs (stored_output db) ts
      → All (λ tx. IsU32 (length (output tx))) ts
      → (last : Db) × (update_cache txs codec into rocks db ts ≡ ok last)
        × IsAdded txs into (stored_output db) (stored_output last) ts
  unfolding update_cache
  update_cache-IsAdded db ts fresh few =
      let (last, runs, holds) = healthy.write_lem (batch_of txs codec ts) db in
      (
        last,
        rw (runs, update_cache) refl,
        record {
          added = λ i tx n at only.
              let small : IsU32 (length (output tx)) =
                All-get_elem? (λ tx. IsU32 (length (output tx))) ts i few at in
              elim (Option-cases (get_elem? (output tx) n)) [
                | inl beyond ↦ rw beyond (
                    missing db last ts i tx n fresh at only small beyond
                      (holds (txo_key txs codec (txid tx) n)))
                | inr (o, found) ↦
                    let below = get_elem?-lt (output tx) n found in
                    rw found (
                      stored_output-value last (txid tx) n o (omega arith) (
                        holds (txo_key txs codec (txid tx) n)
                        ∙ batch_of-found txs codec is_codec ts (healthy.content db) tx n only small
                            found (inr (i, at))))
              ];
          others = λ t n absent. stored_output-same last db t n (
              holds (txo_key txs codec t n)
              ∙ batch_of-other txs codec is_codec ts (healthy.content db) t n absent);
        },
      )
    where
      missing :
          (db last : Db) (ts : List Transaction) (i : ℕ) (tx : Transaction) (n : ℕ)
          → IsFresh txs (stored_output db) ts
          → get_elem? ts i ≡ some tx
          → IsOnly txs ts tx
          → IsU32 (length (output tx))
          → get_elem? (output tx) n ≡ none
          → value_at last (txid tx) n
            ≡ get bytes_discrete
                (txo_key txs codec (txid tx) n)
                (written (batch_of txs codec ts) (healthy.content db))
          → stored_output last (txid tx) n ≡ none
      missing db last ts i tx n fresh at only few beyond same = elim (Bool-cases (ltb n (2 ^ 32))) [
        | inl small ↦
            stored_output-same last db (txid tx) n (
              same
              ∙ batch_of-beyond txs codec is_codec ts (healthy.content db) tx n only few
                  (ground arith) (get_elem?-none (output tx) n beyond))
            ∙ fresh i tx n at
        | inr large ↦ rw large refl
      ]
