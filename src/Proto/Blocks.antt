-- ===== src/Proto/Blocks.antt =====
-- A connected block against its connected transactions.
use bitcoin_query_py.Common.{
  ℕ, ◌≡◌, refl, sym, ap, ◌∙◌, List, [], ◌∷◌, ◌++◌, Result, ok, ◌>>=◌, lift, String, Option,
  ok-injective, Result-cases, inl, inr,
}
use mathlib.Core.List.{append-nil, append_assoc}
use bitcoin_query_py.Errors.{OpResult}
use bitcoin_query_py.Bitcoin.{Headers, Transactions, Scripts, Fields}
use bitcoin_query_py.BlockIndex.{BlockIndex}
use bitcoin_query_py.BlkFile.{FileSystem, Files}
use bitcoin_query_py.TxIndex.{TxDb}
use bitcoin_query_py.Script.Evaluate.{StartsWithPush}
use bitcoin_query_py.Connect.{connect_input, connect_tx_inputs, add_inputs}
use bitcoin_query_py.Connect.Blocks.{for_block, connect_each, connect_block_inputs-connect_each}
use bitcoin_query_py.Proto.{convert_all}
use bitcoin_query_py.Proto.Total.{convert_all_total, full_out_total}
use bitcoin_query_py.Proto.FConnected
use bitcoin_query_py.Proto.FConnected.{FConnectedTransaction, FConnectedBlock}
use bitcoin_query_py.Proto.Full

module _ (lib : Headers) (fs : FileSystem) (txs : Transactions) (tx_db : TxDb)
    (blk_index : BlockIndex lib) (blk_file : Files fs) where
  open txs use {TxIn, TxOut, Transaction, Block, input, is_coin_base, output, txdata}

  -- A format: the conversion of an output, a transaction from its inputs and outputs, and what adds an
  -- input behind the others.
  module _ {O Tx : Type 0} (conv : TxOut → Result ⊥ O) (make : Transaction → List O → List O → Tx)
      (push : Tx → O → Tx)
      (pushes : (tx : Transaction) (ins outs : List O) (o : O)
        → push (make tx ins outs) o ≡ make tx (ins ++ o ∷ []) outs)
      (total : (o : TxOut) → (c : O) × (conv o ≡ ok c)) where
    abbrev pub from_of : Transaction → Result ⊥ Tx
    from_of tx = convert_all conv (output tx) >>= λ outs. ok (make tx [] outs)

    abbrev pub push_of : Tx → TxOut → Result ⊥ Tx
    push_of tx o = conv o >>= λ c. ok (push tx c)

    abbrev connect_of : (ℕ → ℕ → String) → Transaction → OpResult Tx
    connect_of text tx =
        connect_tx_inputs lib fs txs tx_db blk_index blk_file text (input tx) (is_coin_base tx)
        >>= λ found. lift (convert_all conv found) >>= λ ins.
            lift (convert_all conv (output tx)) >>= λ outs. ok (make tx ins outs)

    pub add_inputs_lem :
        (tx : Transaction) (ins outs : List O) (found : List TxOut) {new : List O}
        → convert_all conv found ≡ ok new
        → add_inputs lib fs txs tx_db blk_index blk_file from_of push_of (make tx ins outs) found
          ≡ ok (make tx (ins ++ new) outs)
    unfolding add_inputs
    add_inputs_lem tx ins outs [] e =
        ap (λ l. ok (make tx l outs)) (sym (append-nil ins) ∙ ap (λ l. ins ++ l) (ok-injective e))
    add_inputs_lem tx ins outs (o ∷ found) e =
        let (c, first) = total o in
        let (cs, rest, _) = convert_all_total conv found total in
        rw (first, pushes tx ins outs c, add_inputs_lem tx (ins ++ c ∷ []) outs found rest)
          (ap (λ l. ok (make tx l outs))
            (append_assoc ins (c ∷ []) cs
              ∙ ap (λ l. ins ++ l) (ok-injective (rw (first, rest) at e))))

    connect_each-connect_of :
        (text : ℕ → ℕ → String) (ts : List Transaction)
        → connect_each lib fs txs tx_db blk_index blk_file from_of push_of text ts
          ≡ convert_all (λ tx. for_block (connect_of text tx)) ts
    unfolding connect_each
    connect_each-connect_of text [] = refl
    connect_each-connect_of text (tx ∷ rest) =
        elim (Result-cases (
          connect_tx_inputs lib fs txs tx_db blk_index blk_file text (input tx)
            (is_coin_base tx))) [
              | inl (found, e) ↦
                  let (outs, made, _) = convert_all_total conv (output tx) total in
                  let (ins, taken, _) = convert_all_total conv found total in
                  rw
                    (
                      e,
                      taken,
                      made,
                      add_inputs_lem tx [] outs found taken,
                      connect_each-connect_of text rest,
                    )
                    refl
              | inr (inl (_, e)) ↦ rw e refl
              | inr (inr (_, e)) ↦ rw e refl
            ]

  module _ (scripts : Scripts) (fields : Fields lib txs scripts) (starts : StartsWithPush scripts)
      (connected : TxIn → Option TxOut)
      (runs : (x : TxIn)
        → connect_input lib fs txs tx_db blk_index blk_file x ≡ ok (connected x)) where
    -- If connecting an input gives an output or none, and pay-to-public-key scripts start with a push,
    -- a connected block in the full format has the header of the block, and as its transactions what
    -- connecting each of them alone gives; or an error in the same cases.
    pub full-connect_block :
        (text : ℕ → ℕ → String) (block : Block)
        → FConnected.connect_block lib txs scripts fields fs tx_db blk_index blk_file block ≡ (
            convert_all
              (λ tx.
                for_block (
                  FConnected.connect_tx lib txs scripts fields fs tx_db blk_index blk_file text tx))
              (txdata block)
            >>= λ each. ok (record {
              header =
                  Full.parse lib txs scripts fields
                    (fields.header block)
                    (lib.block_hash (fields.header block));
              txdata = each;
            }))
    unfolding FConnected.connect_block FConnected.connect_tx FConnected.from_tx
        FConnected.add_output FConnected.add_input
    full-connect_block text block =
        ap
          (λ outcome. outcome >>= λ each. ok (record {
            header =
                Full.parse lib txs scripts fields (fields.header block)
                  (lib.block_hash (fields.header block));
            txdata = each;
          }))
          (connect_block_inputs-connect_each lib fs txs tx_db blk_index blk_file connected runs _ _
              text (txdata block)
            ∙ connect_each-connect_of (Full.from_tx_out lib txs scripts fields)
                (λ tx ins outs. record {
                  version = fields.version tx;
                  lock_time = fields.lock_time tx;
                  txid = txs.txid tx;
                  input = ins;
                  output = outs;
                })
                (FConnected.add_input lib txs scripts fields) (λ tx ins outs o. refl)
                (full_out_total lib txs scripts fields starts) text (txdata block))
