-- ===== src/Proto/Forget.antt =====
-- The simple formats are the full ones with fields left out.
use bitcoin_query_py.Common.{
  ◌≡◌, refl, List, [], ◌∷◌, map, Result, mapped, Result-cases, inl, inr, Bool-cases,
}
use bitcoin_query_py.Bitcoin.{Headers, Transactions, Scripts, Fields}
use bitcoin_query_py.Script.{evaluate_script}
use bitcoin_query_py.Proto.{convert_all}
use bitcoin_query_py.Proto.Full
use bitcoin_query_py.Proto.Full.{FBlockHeader, FTxOut, FTransaction, FBlock}
use bitcoin_query_py.Proto.Simple
use bitcoin_query_py.Proto.Simple.{SBlockHeader, STxOut, STransaction, SBlock}
use bitcoin_query_py.Proto.FConnected.{FConnectedTransaction, FConnectedBlock}
use bitcoin_query_py.Proto.SConnected.{SConnectedTransaction, SConnectedBlock}

pub convert_all-mapped :
    {A B C : Type 0} (large : A → Result ⊥ B) (small : A → Result ⊥ C) (f : B → C) (as_ : List A)
    → ((a : A) → small a ≡ mapped f (large a))
    → convert_all small as_ ≡ mapped (map f) (convert_all large as_)
convert_all-mapped large small f [] same = refl
convert_all-mapped large small f (a ∷ as_) same =
    let rest = convert_all-mapped large small f as_ same in
    elim (Result-cases (large a)) [
      | inl (b, e) ↦ elim (Result-cases (convert_all large as_)) [
        | inl (bs, k) ↦ rw (same a, e, rest, k) refl
        | inr (inl (impossible, k)) ↦ absurd impossible
        | inr (inr (text, k)) ↦ rw (same a, e, rest, k) refl
      ]
      | inr (inl (impossible, e)) ↦ absurd impossible
      | inr (inr (text, e)) ↦ rw (same a, e) refl
    ]

module _ (lib : Headers) (txs : Transactions) (scripts : Scripts)
    (fields : Fields lib txs scripts) where
  open txs use {TxOut, Transaction, Block, txdata, output, input, is_coin_base}

  abbrev pub forget_header :
      FBlockHeader lib txs scripts fields → SBlockHeader lib txs scripts fields
  forget_header h = record { block_hash = h.block_hash; time = h.time }

  abbrev pub forget_out : FTxOut lib txs scripts fields → STxOut lib txs scripts fields
  forget_out o = record { value = o.value; addresses = o.addresses }

  abbrev pub forget_transaction :
      FTransaction lib txs scripts fields → STransaction lib txs scripts fields
  forget_transaction tx = record {
    txid = tx.txid;
    input = map (Simple.from_tx_in lib txs scripts fields) tx.input;
    output = map forget_out tx.output;
  }

  abbrev pub forget_block : FBlock lib txs scripts fields → SBlock lib txs scripts fields
  forget_block b = record {
    header = forget_header b.header;
    txdata = map forget_transaction b.txdata;
  }

  abbrev pub forget_connected :
      FConnectedTransaction lib txs scripts fields → SConnectedTransaction lib txs scripts fields
  forget_connected tx = record {
    txid = tx.txid;
    input = map forget_out tx.input;
    output = map forget_out tx.output;
  }

  abbrev pub forget_connected_block :
      FConnectedBlock lib txs scripts fields → SConnectedBlock lib txs scripts fields
  forget_connected_block b = record {
    header = forget_header b.header;
    txdata = map forget_connected b.txdata;
  }

  pub from_tx_out-mapped :
      (o : TxOut)
      → Simple.from_tx_out lib txs scripts fields o
        ≡ mapped forget_out (Full.from_tx_out lib txs scripts fields o)
  unfolding Simple.from_tx_out Full.from_tx_out
  from_tx_out-mapped o =
      elim (Result-cases (evaluate_script scripts (fields.script_pubkey o) scripts.bitcoin)) [
        | inl (eval, e) ↦ rw e refl
        | inr (inl (impossible, e)) ↦ absurd impossible
        | inr (inr (text, e)) ↦ rw e refl
      ]

  pub outs-mapped :
      (os : List TxOut)
      → convert_all (Simple.from_tx_out lib txs scripts fields) os
        ≡ mapped (map forget_out) (convert_all (Full.from_tx_out lib txs scripts fields) os)
  outs-mapped os =
      convert_all-mapped (Full.from_tx_out lib txs scripts fields)
        (Simple.from_tx_out lib txs scripts fields) forget_out os from_tx_out-mapped

  from_transaction-mapped :
      (tx : Transaction)
      → Simple.from_transaction lib txs scripts fields tx
        ≡ mapped forget_transaction (Full.from_transaction lib txs scripts fields tx)
  unfolding Simple.from_transaction Full.from_transaction
  from_transaction-mapped tx =
      elim (Result-cases (convert_all (Full.from_tx_out lib txs scripts fields) (output tx))) [
        | inl (outs, e) ↦ elim (Bool-cases (is_coin_base tx)) [
          | inl first ↦ rw (outs-mapped (output tx), e, first) refl
          | inr other ↦ rw (outs-mapped (output tx), e, other) refl
        ]
        | inr (inl (impossible, e)) ↦ absurd impossible
        | inr (inr (text, e)) ↦ rw (outs-mapped (output tx), e) refl
      ]

  -- The simple format of a block is its full format with the fields left out that the simple format
  -- does not have; a conversion that panics does so in both.
  pub from_block-forget_block :
      (block : Block)
      → Simple.from_block lib txs scripts fields block
        ≡ mapped forget_block (Full.from_block lib txs scripts fields block)
  unfolding Simple.from_block Full.from_block Simple.parse Full.parse
  from_block-forget_block block =
      let same =
        convert_all-mapped (Full.from_transaction lib txs scripts fields)
          (Simple.from_transaction lib txs scripts fields) forget_transaction (txdata block)
          from_transaction-mapped in
      elim (Result-cases
        (convert_all (Full.from_transaction lib txs scripts fields) (txdata block))) [
          | inl (converted, e) ↦ rw (same, e) refl
          | inr (inl (impossible, e)) ↦ absurd impossible
          | inr (inr (text, e)) ↦ rw (same, e) refl
        ]
