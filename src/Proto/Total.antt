-- ===== src/Proto/Total.antt =====
-- The conversions to the formats do not panic, where `evaluate_script` does not.
use bitcoin_query_py.Common.{◌≡◌, refl, List, [], ◌∷◌, Result, ok, length, >>=-ok, arith}
use bitcoin_query_py.Bitcoin.{Headers, Transactions, Scripts, Fields}
use bitcoin_query_py.Script.Evaluate.{StartsWithPush, evaluate_script_total}
use bitcoin_query_py.Proto.{convert_all}
use bitcoin_query_py.Proto.Full
use bitcoin_query_py.Proto.Full.{FTxOut, FTransaction, FBlock}
use bitcoin_query_py.Proto.Simple
use bitcoin_query_py.Proto.Simple.{STxOut}

pub convert_all_total :
    {A B : Type 0} (convert : A → Result ⊥ B) (as_ : List A)
    → ((a : A) → (b : B) × (convert a ≡ ok b))
    → (bs : List B) × (convert_all convert as_ ≡ ok bs) × (length bs ≡ length as_)
convert_all_total convert [] total = ([], refl, refl)
convert_all_total convert (a ∷ as_) total =
    let (b, first) = total a in
    let (bs, rest, same) = convert_all_total convert as_ total in
    (b ∷ bs, rw (first, rest) refl, omega (arith, same))

module _ (lib : Headers) (txs : Transactions) (scripts : Scripts) (fields : Fields lib txs scripts)
    (starts : StartsWithPush scripts) where
  open txs use {TxOut, Transaction, Block, txdata, output}

  pub full_out_total :
      (o : TxOut)
      → (c : FTxOut lib txs scripts fields) × (Full.from_tx_out lib txs scripts fields o ≡ ok c)
  unfolding Full.from_tx_out
  full_out_total o =
      let (info, e) =
        evaluate_script_total scripts starts (fields.script_pubkey o) scripts.bitcoin in
      (_, >>=-ok _ e)

  pub simple_out_total :
      (o : TxOut)
      → (c : STxOut lib txs scripts fields) × (Simple.from_tx_out lib txs scripts fields o ≡ ok c)
  unfolding Simple.from_tx_out
  simple_out_total o =
      let (info, e) =
        evaluate_script_total scripts starts (fields.script_pubkey o) scripts.bitcoin in
      (_, >>=-ok _ e)

  full_transaction_total :
      (tx : Transaction)
      → (c : FTransaction lib txs scripts fields) × (Full.from_transaction lib txs scripts fields tx
          ≡ ok c)
  unfolding Full.from_transaction
  full_transaction_total tx =
      let (outs, e, _) =
        convert_all_total (Full.from_tx_out lib txs scripts fields) (output tx) full_out_total in
      (_, >>=-ok _ e)

  -- A block is converted to the full format without a panic, with as many transactions, if
  -- pay-to-public-key scripts start with a push.
  pub from_block_total :
      (block : Block)
      → (converted : FBlock lib txs scripts fields) × (Full.from_block lib txs scripts fields block
          ≡ ok converted)
        × (length converted.txdata ≡ length (txdata block))
  unfolding Full.from_block
  from_block_total block =
      let (converted, e, same) =
        convert_all_total (Full.from_transaction lib txs scripts fields) (txdata block)
          full_transaction_total in
      (_, >>=-ok _ e, same)
