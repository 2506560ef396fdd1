-- ===== src/Utxo.antt =====
-- src/iter/util.rs and src/iter/fetch_connected_async.rs without the feature on-disk-utxo: the store of
-- unspent outputs in memory.
-- The store maps a transaction to its outputs. A call holds the locks one after the other; here one call
-- runs at a time, so the outputs behind an `Arc` are the entry of the map. `Err(())` ends the iteration,
-- so an error keeps no store.
pub mod Remove
pub mod Spend
pub mod Inputs
pub mod Blocks
pub mod Add
pub mod Implements
use bitcoin_query_py.Common.{
  ℕ, ◌+◌, ◌-◌, ◌%◌, ◌^◌, List, [], ◌∷◌, map, Bool, Result, ok, err, panic, ◌>>=◌, lift, Option,
  none, some, ◌==◌, if◌then◌else◌, length, get_elem?, set,
}
use bitcoin_query_py.Common.Int.{to_u32}
use bitcoin_query_py.Common.Maps.{get, insert, delete}
use bitcoin_query_py.Common.InsertAll.{insert_all}
use bitcoin_query_py.Bitcoin.{Transactions}

pub record VecMap (T : Type 0) : Type 0 where
  pub size : ℕ
  pub inner : List (Option T)

module _ {T : Type 0} where
  unfoldable pub from_slice : List (Option T) → VecMap T
  from_slice slice = record { size = to_u32 (length slice); inner = slice }

  unfoldable pub is_empty : VecMap T → Bool
  is_empty m = m.size == 0

  -- `self.size -= 1` on a `u32`, and `element.take()`.
  unfoldable pub remove : VecMap T → ℕ → Result ⊥ (Option T × VecMap T)
  remove m n = elim (get_elem? m.inner n) [
    | none ↦ panic "index out of bounds"
    | some none ↦ ok (none, m)
    | some (some x) ↦
        ok (some x, record { size = (m.size + (2 ^ 32 - 1)) % 2 ^ 32; inner = set m.inner n none })
  ]

module _ (txs : Transactions) {TOut : Type 0} (into : txs.TxOut → TOut) where
  open txs use {
    Txid, TxIn, Transaction, txid_discrete, previous_txid, previous_vout, is_null, input, output,
  }

  abbrev pub Unspent : Type 0
  Unspent = List (Txid × VecMap TOut)

  -- The transactions of a block that has been read (`update_unspent_cache`).
  unfoldable pub add_transactions : Unspent → List Transaction → Unspent
  add_transactions unspent transactions =
      insert_all txid_discrete txs.txid (λ tx. from_slice (map (λ o. some (into o)) (output tx)))
        transactions unspent

  -- The store after an output has been taken: a transaction without outputs goes.
  abbrev pub put_back : Unspent → Txid → VecMap TOut → Unspent
  put_back unspent prev_txid m =
      if is_empty m
      then delete txid_discrete prev_txid unspent
      else insert txid_discrete prev_txid m unspent

  -- `cannot find previous outpoint, bad data`
  abbrev pub taken : Option TOut → Unspent → Result (Unit {0}) (TOut × Unspent)
  taken none unspent = err tt
  taken (some out) unspent = ok (out, unspent)

  -- What `connect_outpoints` does for an input that is not null.
  unfoldable pub spend_output : Unspent → Txid → ℕ → Result (Unit {0}) (TOut × Unspent)
  spend_output unspent prev_txid n = elim (get txid_discrete prev_txid unspent) [
    | none ↦ err tt
    | some prev_tx ↦ elim (remove prev_tx n) [
      | ok (tx_out, m) ↦ taken tx_out (put_back unspent prev_txid m)
      | err e ↦ absurd e
      | panic text ↦ panic text
    ]
  ]

  -- The inputs of one transaction.
  unfoldable pub spend_inputs : Unspent → List TxIn → Result (Unit {0}) (List TOut × Unspent)
  spend_inputs unspent [] = ok ([], unspent)
  spend_inputs unspent (x ∷ xs) =
      if is_null x
      then spend_inputs unspent xs
      else (spend_output unspent (previous_txid x) (previous_vout x) >>= λ (out, left).
          spend_inputs left xs >>= λ (outs, last). ok (out ∷ outs, last))

  -- `connect_outpoints` on the transactions of a block: the outputs that each of them spends.
  unfoldable pub connect_outpoints :
      Unspent → List Transaction → Result (Unit {0}) (List (List TOut) × Unspent)
  connect_outpoints unspent [] = ok ([], unspent)
  connect_outpoints unspent (tx ∷ rest) = do
    (outs, left) ← spend_inputs unspent (input tx)
    (more, last) ← connect_outpoints left rest
    ok (outs ∷ more, last)
