-- ===== src/Outputs.antt =====
-- What a store of unspent outputs promises: the specification that src/iter/fetch_connected_async.rs
-- implements twice, in memory and on disk.
-- A store stands for a set of outputs. Adding the transactions of a block adds their outputs, and
-- connecting a block takes out the outputs that its inputs name, null inputs aside.
pub mod Inputs
pub mod Store
use bitcoin_query_py.Common.{
  ℕ, ◌≡◌, ◌≢◌, ◌⊎◌, List, [], ◌∷◌, ◌++◌, false, Option, none, some, get_elem?, if◌then◌else◌, map,
  ◌&&◌, Bool, true,
}
use mathlib.Core.Option
use bitcoin_query_py.Bitcoin.{Transactions}

abbrev pub prepend : {A : Type 0} → Option A → List A → List A
prepend none rest = rest
prepend (some a) rest = a ∷ rest

module _ (txs : Transactions) where
  open txs use {
    Txid, TxIn, TxOut, Transaction, previous_txid, previous_vout, is_null, input, output,
  }

  -- An input that is not null spends the output.
  abbrev pub Spends : List TxIn → Txid → ℕ → Type 0
  Spends [] t n = ⊥
  Spends (x ∷ xs) t n =
      (is_null x ≡ false) × (previous_txid x ≡ t) × (previous_vout x ≡ n) ⊎ Spends xs t n

  -- No two inputs spend the same output.
  abbrev pub SpendsOnce : List TxIn → Type 0
  SpendsOnce [] = Unit {0}
  SpendsOnce (x ∷ xs) =
      (is_null x ≡ false → ¬ Spends xs (previous_txid x) (previous_vout x)) × SpendsOnce xs

  -- All inputs of a block.
  abbrev pub inputs_of : List Transaction → List TxIn
  inputs_of [] = []
  inputs_of (tx ∷ rest) = input tx ++ inputs_of rest

  -- The transactions of a list that have the id of `tx` are `tx`.
  abbrev pub IsOnly : List Transaction → Transaction → Type 0
  IsOnly ts tx =
      (i : ℕ) (other : Transaction)
      → get_elem? ts i ≡ some other
      → txs.txid other ≡ txs.txid tx
      → other ≡ tx

  -- A set of outputs, by transaction and number.
  abbrev pub OutputSet : Type 0 → Type 0
  OutputSet TOut = Txid → ℕ → Option TOut

  module _ {TOut : Type 0} (set : OutputSet TOut) where
    -- The outputs that the inputs name, in their order.
    abbrev pub outputs_of : List TxIn → List TOut
    outputs_of [] = []
    outputs_of (x ∷ xs) =
        let rest = outputs_of xs in
        if is_null x then rest else prepend (set (previous_txid x) (previous_vout x)) rest

    -- Those of each transaction of a block.
    abbrev pub outputs_of_block : List Transaction → List (List TOut)
    outputs_of_block [] = []
    outputs_of_block (tx ∷ rest) = outputs_of (input tx) ∷ outputs_of_block rest

    -- No output of the transactions is in the set.
    abbrev pub IsFresh : List Transaction → Type 0
    IsFresh ts =
        (i : ℕ) (tx : Transaction) (n : ℕ) → get_elem? ts i ≡ some tx → set (txs.txid tx) n ≡ none

    -- Every output that the inputs name is in the set.
    abbrev pub Holds : List TxIn → Type 0
    Holds xs = (t : Txid) (n : ℕ) → Spends xs t n → (out : TOut) × (set t n ≡ some out)

  -- `last` is `set` without what the inputs name.
  pub record IsTaken {TOut : Type 0} (set last : OutputSet TOut) (xs : List TxIn) : Type 0 where
    pub gone : (t : Txid) (n : ℕ) → Spends xs t n → last t n ≡ none
    pub others : (t : Txid) (n : ℕ) → ¬ Spends xs t n → last t n ≡ set t n

  -- `last` is `set` with the outputs of the transactions, converted.
  pub record IsAdded {TOut : Type 0} (into : TxOut → TOut) (set last : OutputSet TOut)
      (ts : List Transaction) : Type 0 where
    pub added :
        (i : ℕ) (tx : Transaction) (n : ℕ)
        → get_elem? ts i ≡ some tx
        → IsOnly ts tx
        → last (txs.txid tx) n ≡ Option.map into (get_elem? (output tx) n)
    pub others :
        (t : Txid) (n : ℕ)
        → ((i : ℕ) (tx : Transaction) → get_elem? ts i ≡ some tx → txs.txid tx ≢ t)
        → last t n ≡ set t n
