-- ===== src/IterConnected/Agree.antt =====
-- The iteration over connected blocks against the query for one connected block.
use bitcoin_query_py.Common.{
  ℕ, suc, ◌≡◌, refl, sym, ap, List, [], ◌∷◌, ◌++◌, map, Result, ok, String, Option, none, some,
  if◌then◌else◌, Bool-cases, inl, inr, get_elem?, length, ==_self, Option-cases, All,
}
use mathlib.Core.Option
use mathlib.Core.List.{append-nil, append_assoc}
use bitcoin_query_py.Bitcoin.{Headers, Transactions}
use bitcoin_query_py.BlockIndex.{BlockIndex}
use bitcoin_query_py.BlkFile.{FileSystem, Files}
use bitcoin_query_py.TxIndex.{TxDb}
use bitcoin_query_py.Outputs.{OutputSet, outputs_of, outputs_of_block}
use bitcoin_query_py.Connect.{connect_input, found, connect_tx_inputs}
use bitcoin_query_py.Connect.Blocks.{connect_each, connect_all-map}
use bitcoin_query_py.Proto.{convert_all}
use bitcoin_query_py.Proto.Blocks.{from_of, push_of, add_inputs_lem}
use bitcoin_query_py.IterConnected.Assemble.{add_all, assemble}

module _ (txs : Transactions) where
  open txs use {
    Txid, TxIn, TxOut, Transaction, is_null, previous_txid, previous_vout, input, output,
    is_coin_base,
  }

  module _ {O : Type 0} (into : TxOut → O) (raw : OutputSet txs TxOut) where
    abbrev pub converted : OutputSet txs O
    converted t n = Option.map into (raw t n)

    outputs_of-converted :
        (xs : List TxIn) → outputs_of txs converted xs ≡ map into (outputs_of txs raw xs)
    outputs_of-converted [] = refl
    outputs_of-converted (x ∷ xs) = elim (Bool-cases (is_null x)) [
      | inl null ↦ rw null (outputs_of-converted xs)
      | inr real ↦ elim (Option-cases (raw (previous_txid x) (previous_vout x))) [
        | inl missing ↦ rw (real, missing) (outputs_of-converted xs)
        | inr (o, there) ↦ rw (real, there) (ap (◌∷◌ (into o)) (outputs_of-converted xs))
      ]
    ]

  -- The output that an input spends, if it is not null.
  abbrev pub output_of_input : OutputSet txs TxOut → TxIn → Option TxOut
  output_of_input raw x = if is_null x then none else raw (previous_txid x) (previous_vout x)

  -- The index gives for each input of the transactions the output of the set, and finds all of them, but
  -- for coinbases none.
  abbrev pub FindsAll : (TxIn → Option TxOut) → OutputSet txs TxOut → List Transaction → Type 0
  FindsAll connected raw ts =
      (i : ℕ) (tx : Transaction)
      → get_elem? ts i ≡ some tx
      → (length (outputs_of txs raw (input tx))
          ≡ (if is_coin_base tx then 0 else length (input tx)))
        × All (λ x. connected x ≡ output_of_input raw x) (input tx)

module _ (lib : Headers) (fs : FileSystem) (txs : Transactions) (tx_db : TxDb)
    (blk_index : BlockIndex lib) (blk_file : Files fs) (raw : OutputSet txs txs.TxOut)
    (connected : txs.TxIn → Option txs.TxOut)
    (runs : (x : txs.TxIn)
      → connect_input lib fs txs tx_db blk_index blk_file x ≡ ok (connected x)) where
  open txs use {
    TxIn, TxOut, Transaction, is_null, previous_txid, previous_vout, input, output, is_coin_base,
  }

  found-outputs_of :
      (xs : List TxIn)
      → All (λ x. connected x ≡ output_of_input txs raw x) xs
      → found lib fs txs tx_db blk_index blk_file (map connected xs) ≡ outputs_of txs raw xs
  unfolding found
  found-outputs_of [] same = refl
  found-outputs_of (x ∷ xs) (first, same) = elim (Bool-cases (is_null x)) [
    | inl null ↦ rw (first, null, found) (found-outputs_of xs same)
    | inr real ↦ elim (Option-cases (raw (previous_txid x) (previous_vout x))) [
      | inl missing ↦ rw (first, real, missing, found) (found-outputs_of xs same)
      | inr (o, there) ↦ rw (first, real, there, found) (ap (◌∷◌ o) (found-outputs_of xs same))
    ]
  ]

  connect_tx_inputs-outputs_of :
      (text : ℕ → ℕ → String) (tx : Transaction)
      → length (outputs_of txs raw (input tx)) ≡ (if is_coin_base tx then 0 else length (input tx))
      → All (λ x. connected x ≡ output_of_input txs raw x) (input tx)
      → connect_tx_inputs lib fs txs tx_db blk_index blk_file text (input tx) (is_coin_base tx)
        ≡ ok (outputs_of txs raw (input tx))
  unfolding connect_tx_inputs
  connect_tx_inputs-outputs_of text tx count same =
      rw
        (
          connect_all-map lib fs txs tx_db blk_index blk_file connected runs (input tx),
          found-outputs_of (input tx) same,
          count,
          ==_self (if is_coin_base tx then 0 else length (input tx)),
        )
        refl

  module _ {O Tx TBlock : Type 0} (conv : TxOut → Result ⊥ O)
      (make : Transaction → List O → List O → Tx) (push : Tx → O → Tx)
      (pushes : (tx : Transaction) (ins outs : List O) (o : O)
        → push (make tx ins outs) o ≡ make tx (ins ++ o ∷ []) outs)
      (into : TxOut → O) (conv_into : (o : TxOut) → conv o ≡ ok (into o))
      (add_tx : TBlock → Tx → TBlock) where
    abbrev pub with_all : TBlock → List Tx → TBlock
    with_all block [] = block
    with_all block (tx ∷ rest) = with_all (add_tx block tx) rest

    abbrev pub total : (o : TxOut) → (c : O) × (conv o ≡ ok c)
    total o = (into o, conv_into o)

    convert_all-map : (os : List TxOut) → convert_all conv os ≡ ok (map into os)
    convert_all-map [] = refl
    convert_all-map (o ∷ os) = rw (conv_into o, convert_all-map os) refl

    add_all_lem :
        (tx : Transaction) (ins outs more : List O)
        → add_all
            (from_of lib fs txs tx_db blk_index blk_file conv make push pushes total)
            push
            add_tx
            (make tx ins outs)
            more
          ≡ make tx (ins ++ more) outs
    unfolding add_all
    add_all_lem tx ins outs [] = ap (λ l. make tx l outs) (sym (append-nil ins))
    add_all_lem tx ins outs (o ∷ more) =
        rw (pushes tx ins outs o, add_all_lem tx (ins ++ o ∷ []) outs more)
          (ap (λ l. make tx l outs) (append_assoc ins (o ∷ []) more))

    -- The connected transactions, the same in both ways.
    abbrev pub built : List Transaction → List Tx
    built [] = []
    built (tx ∷ rest) =
        make tx (map into (outputs_of txs raw (input tx))) (map into (output tx)) ∷ built rest

    pub connect_each-built :
        (text : ℕ → ℕ → String) (ts : List Transaction)
        → FindsAll txs connected raw ts
        → connect_each lib fs txs tx_db blk_index blk_file
            (from_of lib fs txs tx_db blk_index blk_file conv make push pushes total)
            (push_of lib fs txs tx_db blk_index blk_file conv make push pushes total)
            text
            ts
          ≡ ok (built ts)
    unfolding connect_each
    connect_each-built text [] finds = refl
    connect_each-built text (tx ∷ rest) finds =
        rw
          (
            connect_tx_inputs-outputs_of text tx (finds 0 tx refl).0 (finds 0 tx refl).1,
            convert_all-map (output tx),
            add_inputs_lem lib fs txs tx_db blk_index blk_file conv make push pushes total tx []
                (map into (output tx)) (outputs_of txs raw (input tx))
                (convert_all-map (outputs_of txs raw (input tx))),
            connect_each-built text rest (λ i y at. finds (suc i) y at),
          )
          refl

    pub assemble-built :
        (ts : List Transaction) (block : TBlock)
        → assemble
            (from_of lib fs txs tx_db blk_index blk_file conv make push pushes total)
            push
            add_tx
            block
            ts
            (outputs_of_block txs (converted txs into raw) ts)
          ≡ ok (with_all block (built ts))
    unfolding assemble
    assemble-built [] block = refl
    assemble-built (tx ∷ rest) block =
        rw
          (
            convert_all-map (output tx),
            outputs_of-converted txs into raw (input tx),
            add_all_lem tx [] (map into (output tx)) (map into (outputs_of txs raw (input tx))),
          )
          (assemble-built rest _)
