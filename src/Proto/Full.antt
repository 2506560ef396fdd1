-- ===== src/Proto/Full.antt =====
-- src/parser/proto/full_proto.rs.
use bitcoin_query_py.Common.{ℕ, List, [], Result, ok, ◌>>=◌, if◌then◌else◌}
use bitcoin_query_py.Common.Int.{ℤ}
use bitcoin_query_py.Bitcoin.{Headers, Transactions, Scripts, Fields, Address}
use bitcoin_query_py.Script.{ScriptType, evaluate_script}
use bitcoin_query_py.Proto.{convert_all}

module _ (lib : Headers) (txs : Transactions) (scripts : Scripts)
    (fields : Fields lib txs scripts) where
  open lib use {BlockHash, BlockHeader, block_hash, prev_blockhash}
  open txs use {Txid, TxIn, TxOut, Transaction, Block, txid, is_coin_base, input, output, txdata}
  open scripts use {Script, Payload, Network, bitcoin}

  pub record FBlockHeader : Type 0 where
    pub version : ℤ
    pub block_hash : BlockHash
    pub prev_blockhash : BlockHash
    pub merkle_root : fields.TxMerkleNode
    pub time : ℕ
    pub bits : ℕ
    pub nonce : ℕ

  pub record FTxOut : Type 0 where
    pub value : ℕ
    pub script_pubkey : Script
    pub script_type : ScriptType
    pub addresses : List (Address Payload Network)

  pub record FTransaction : Type 0 where
    pub version : ℤ
    pub lock_time : ℕ
    pub txid : Txid
    pub input : List TxIn
    pub output : List FTxOut

  pub record FBlock : Type 0 where
    pub header : FBlockHeader
    pub txdata : List FTransaction

  unfoldable pub parse : BlockHeader → BlockHash → FBlockHeader
  parse b hash = record {
    version = fields.header_version b;
    block_hash = hash;
    prev_blockhash = prev_blockhash b;
    merkle_root = fields.merkle_root b;
    time = fields.time b;
    bits = fields.bits b;
    nonce = fields.nonce b;
  }

  -- `From<TxOut>`, `From<Transaction>` and `From<Block>`.
  unfoldable pub from_tx_out : TxOut → Result ⊥ FTxOut
  from_tx_out out = do
    eval ← evaluate_script scripts (fields.script_pubkey out) bitcoin
    ok (record {
      value = fields.value out;
      script_pubkey = fields.script_pubkey out;
      script_type = eval.pattern;
      addresses = eval.addresses;
    })

  unfoldable pub from_transaction : Transaction → Result ⊥ FTransaction
  from_transaction tx = do
    let kept = if is_coin_base tx then [] else input tx
    outs ← convert_all from_tx_out (output tx)
    ok (record {
      version = fields.version tx;
      lock_time = fields.lock_time tx;
      txid = txid tx;
      input = kept;
      output = outs;
    })

  unfoldable pub from_block : Block → Result ⊥ FBlock
  from_block block = do
    converted ← convert_all from_transaction (txdata block)
    ok (record {
      header = parse (fields.header block) (block_hash (fields.header block));
      txdata = converted;
    })
