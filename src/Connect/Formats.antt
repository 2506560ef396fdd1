-- ===== src/Connect/Formats.antt =====
-- Connecting a block in two formats, one of which is the other with fields left out.
use bitcoin_query_py.Common.{
  ◌≡◌, refl, List, [], ◌∷◌, map, Result, ok, ◌>>=◌, mapped, Result-cases, lift, Option, ◌==◌,
  length, Bool-cases, inl, inr,
}
use bitcoin_query_py.Errors.{OpResult}
use bitcoin_query_py.Bitcoin.{Headers, Transactions}
use bitcoin_query_py.BlockIndex.{BlockIndex}
use bitcoin_query_py.BlkFile.{FileSystem, Files}
use bitcoin_query_py.TxIndex.{TxDb}
use bitcoin_query_py.Connect.{
  connect_all, all_inputs, outpoints_count, pop_outputs, add_inputs, with_inputs, reconstruct,
  connect_block_inputs,
}

-- A head that may panic, in front of a list.
chain_mapped :
    {A B : Type 0} (f : A → B) (large : Result ⊥ A) (larges : OpResult (List A))
    {small : Result ⊥ B} {smalls : OpResult (List B)}
    → small ≡ mapped f large
    → smalls ≡ mapped (map f) larges
    → (lift small >>= λ b. smalls >>= λ bs. ok (b ∷ bs))
      ≡ mapped (map f) (lift large >>= λ a. larges >>= λ as_. ok (a ∷ as_))
chain_mapped f large larges p q = elim (Result-cases large) [
  | inl (a, e) ↦ elim (Result-cases larges) [
    | inl (as_, k) ↦ rw (p, e, q, k) refl
    | inr (inl (_, k)) ↦ rw (p, e, q, k) refl
    | inr (inr (_, k)) ↦ rw (p, e, q, k) refl
  ]
  | inr (inl (impossible, e)) ↦ absurd impossible
  | inr (inr (text, e)) ↦ rw (p, e) refl
]

module _ (lib : Headers) (fs : FileSystem) (txs : Transactions) (tx_db : TxDb)
    (blk_index : BlockIndex lib) (blk_file : Files fs) where
  open txs use {TxIn, TxOut, Transaction, input, is_coin_base}

  module _ {Tx Small : Type 0} (forget : Tx → Small) (from : Transaction → Result ⊥ Tx)
      (add_input : Tx → TxOut → Result ⊥ Tx) (from' : Transaction → Result ⊥ Small)
      (add_input' : Small → TxOut → Result ⊥ Small)
      (from_same : (tx : Transaction) → from' tx ≡ mapped forget (from tx))
      (add_same : (tx : Tx) (o : TxOut)
        → add_input' (forget tx) o ≡ mapped forget (add_input tx o)) where
    add_inputs-mapped :
        (tx : Tx) (outs : List TxOut)
        → add_inputs lib fs txs tx_db blk_index blk_file from' add_input' (forget tx) outs
          ≡ mapped forget (add_inputs lib fs txs tx_db blk_index blk_file from add_input tx outs)
    unfolding add_inputs
    add_inputs-mapped tx [] = refl
    add_inputs-mapped tx (o ∷ outs) = elim (Result-cases (add_input tx o)) [
      | inl (next, e) ↦ rw (add_same tx o, e) (add_inputs-mapped next outs)
      | inr (inl (impossible, e)) ↦ absurd impossible
      | inr (inr (text, e)) ↦ rw (add_same tx o, e) refl
    ]

    with_inputs-mapped :
        (tx : Transaction) (outs : List TxOut)
        → with_inputs lib fs txs tx_db blk_index blk_file from' add_input' tx outs
          ≡ mapped forget (with_inputs lib fs txs tx_db blk_index blk_file from add_input tx outs)
    with_inputs-mapped tx outs = elim (Result-cases (from tx)) [
      | inl (blank, e) ↦ rw (from_same tx, e) (add_inputs-mapped blank outs)
      | inr (inl (impossible, e)) ↦ absurd impossible
      | inr (inr (text, e)) ↦ rw (from_same tx, e) refl
    ]

    reconstruct-mapped :
        (ts : List Transaction) (queue : List (Option TxOut))
        → reconstruct lib fs txs tx_db blk_index blk_file from' add_input' ts queue
          ≡ mapped
              (map forget)
              (reconstruct lib fs txs tx_db blk_index blk_file from add_input ts queue)
    unfolding reconstruct
    reconstruct-mapped [] queue = refl
    reconstruct-mapped (tx ∷ rest) queue =
        elim (Result-cases
          (pop_outputs lib fs txs tx_db blk_index blk_file (length (input tx)) queue)) [
            | inl ((outs, left), e) ↦
                let count =
                  outpoints_count lib fs txs tx_db blk_index blk_file (is_coin_base tx)
                    (input tx) in
                rw e (elim (Bool-cases (length outs == count)) [
                  | inl found ↦ rw found (
                      chain_mapped forget _ _ (with_inputs-mapped tx outs)
                        (reconstruct-mapped rest left))
                  | inr missing ↦ rw missing refl
                ])
            | inr (inl (impossible, e)) ↦ absurd impossible
            | inr (inr (text, e)) ↦ rw e refl
          ]

    -- The inputs of a block in the smaller format are those of the larger one, with the fields left
    -- out; so are the errors and panics.
    pub connect_block_inputs-mapped :
        (ts : List Transaction)
        → connect_block_inputs lib fs txs tx_db blk_index blk_file from' add_input' ts
          ≡ mapped
              (map forget)
              (connect_block_inputs lib fs txs tx_db blk_index blk_file from add_input ts)
    unfolding connect_block_inputs
    connect_block_inputs-mapped ts =
        elim (Result-cases (
          connect_all lib fs txs tx_db blk_index blk_file
            (all_inputs lib fs txs tx_db blk_index blk_file ts))) [
              | inl (queue, e) ↦ rw e (reconstruct-mapped ts queue)
              | inr (inl (impossible, e)) ↦ absurd impossible
              | inr (inr (text, e)) ↦ rw e refl
            ]
