-- ===== src/Proto/Simple.antt =====
-- src/parser/proto/simple_proto.rs.
use bitcoin_query_py.Common.{ℕ, List, [], map, Result, ok, ◌>>=◌, if◌then◌else◌}
use bitcoin_query_py.Bitcoin.{Headers, Transactions, Scripts, Fields, Address}
use bitcoin_query_py.Script.{evaluate_script}
use bitcoin_query_py.Proto.{convert_all}

module _ (lib : Headers) (txs : Transactions) (scripts : Scripts)
    (fields : Fields lib txs scripts) where
  open lib use {BlockHash, BlockHeader, block_hash}
  open txs use {
    Txid, TxIn, TxOut, Transaction, Block, txid, is_coin_base, input, output, txdata, previous_txid,
    previous_vout,
  }
  open scripts use {Payload, Network, bitcoin}

  pub record SBlockHeader : Type 0 where
    pub block_hash : BlockHash
    pub time : ℕ

  pub record STxIn : Type 0 where
    pub txid : Txid
    pub vout : ℕ

  pub record STxOut : Type 0 where
    pub value : ℕ
    pub addresses : List (Address Payload Network)

  pub record STransaction : Type 0 where
    pub txid : Txid
    pub input : List STxIn
    pub output : List STxOut

  pub record SBlock : Type 0 where
    pub header : SBlockHeader
    pub txdata : List STransaction

  unfoldable pub parse : BlockHeader → BlockHash → SBlockHeader
  parse blk hash = record { block_hash = hash; time = fields.time blk }

  -- `From<TxIn>`, `From<TxOut>`, `From<Transaction>` and `From<Block>`.
  unfoldable pub from_tx_in : TxIn → STxIn
  from_tx_in tx_in = record { txid = previous_txid tx_in; vout = previous_vout tx_in }

  unfoldable pub from_tx_out : TxOut → Result ⊥ STxOut
  from_tx_out out = do
    eval ← evaluate_script scripts (fields.script_pubkey out) bitcoin
    ok (record { value = fields.value out; addresses = eval.addresses })

  unfoldable pub from_transaction : Transaction → Result ⊥ STransaction
  from_transaction tx = do
    let kept = if is_coin_base tx then [] else map from_tx_in (input tx)
    outs ← convert_all from_tx_out (output tx)
    ok (record { txid = txid tx; input = kept; output = outs })

  unfoldable pub from_block : Block → Result ⊥ SBlock
  from_block block = do
    converted ← convert_all from_transaction (txdata block)
    ok (record {
      header = parse (fields.header block) (block_hash (fields.header block));
      txdata = converted;
    })
