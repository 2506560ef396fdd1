-- ===== src/Bitcoin.antt =====
-- The `bitcoin` crate, as far as the modelled code uses it. Its types are abstract, and what the
-- program reads of them is a function here.
use bitcoin_query_py.Common.{ℕ, Bool, String, Option, List}
use bitcoin_query_py.Common.Int.{ℤ}
use bitcoin_query_py.Reader.{Bytes}

-- `BlockHash`, `BlockHeader`, and the hash, the field and the decoder that the code uses.
pub record Headers : Type 1 where
  pub BlockHash : Type 0
  pub BlockHeader : Type 0
  pub hash_discrete : Discrete BlockHash
  pub block_hash : BlockHeader → BlockHash
  pub prev_blockhash : BlockHeader → BlockHash
  pub decode_header : Bytes → Option (BlockHeader × Bytes)

-- `Txid`, `Transaction`, `TxIn`, `TxOut` and `Block`, by the fields and functions that the code uses.
-- `previous_txid` and `previous_vout` are the fields of a `TxIn`'s `previous_output`.
pub record Transactions : Type 1 where
  pub Txid : Type 0
  pub TxIn : Type 0
  pub TxOut : Type 0
  pub Transaction : Type 0
  pub Block : Type 0
  pub txid_discrete : Discrete Txid
  pub as_inner : Txid → Bytes
  pub txid_from_slice : Bytes → Option Txid
  pub txid_text : Txid → String
  -- `Txid::from_str(GENESIS_TXID).unwrap()`
  pub genesis_txid : Txid
  pub previous_txid : TxIn → Txid
  pub previous_vout : TxIn → ℕ
  pub is_null : TxIn → Bool
  pub txid : Transaction → Txid
  pub input : Transaction → List TxIn
  pub output : Transaction → List TxOut
  pub is_coin_base : Transaction → Bool
  pub txdata : Block → List Transaction
  pub decode_transaction : Bytes → Option (Transaction × Bytes)
  pub decode_block : Bytes → Option (Block × Bytes)

-- `opcodes::All` is its byte.
abbrev pub All : Type 0
All = ℕ

abbrev pub op_pushbytes_0 : All
op_pushbytes_0 = 0x00

abbrev pub op_pushnum_neg1 : All
op_pushnum_neg1 = 0x4f

abbrev pub op_pushnum_1 : All
op_pushnum_1 = 0x51

abbrev pub op_pushnum_16 : All
op_pushnum_16 = 0x60

abbrev pub op_checkmultisig : All
op_checkmultisig = 0xae

abbrev pub op_checkmultisigverify : All
op_checkmultisigverify = 0xaf

-- `script::Instruction`, with its two constructors.
pub data Instruction : Type 0 where
  push_bytes : Bytes → Instruction
  op : All → Instruction

-- `Address`, by its two fields.
pub record Address (Payload Network : Type 0) : Type 0 where
  pub payload : Payload
  pub network : Network

-- `Script`, `PublicKey`, `PubkeyHash`, `Payload` and `Network`, by what the code calls of them. An
-- instruction that cannot be parsed is `none`. `pubkey_hash_payload` is `Payload::PubkeyHash`, and
-- `bitcoin` is `Network::Bitcoin`.
pub record Scripts : Type 1 where
  pub Script : Type 0
  pub PublicKey : Type 0
  pub PubkeyHash : Type 0
  pub Payload : Type 0
  pub Network : Type 0
  pub bitcoin : Network
  pub pubkey_hash_payload : PubkeyHash → Payload
  pub instructions : Script → List (Option Instruction)
  pub is_p2pk : Script → Bool
  pub is_p2pkh : Script → Bool
  pub is_p2sh : Script → Bool
  pub is_v0_p2wpkh : Script → Bool
  pub is_v0_p2wsh : Script → Bool
  pub is_witness_program : Script → Bool
  pub is_op_return : Script → Bool
  pub is_provably_unspendable : Script → Bool
  pub from_script : Script → Network → Option (Address Payload Network)
  pub public_key_from_slice : Bytes → Option PublicKey
  pub pubkey_hash : PublicKey → PubkeyHash
  pub hash160 : Bytes → Bytes
  pub pubkey_hash_from_slice : Bytes → Option PubkeyHash

-- The fields of blocks, headers, transactions and outputs that the formats of the program copy.
pub record Fields (lib : Headers) (txs : Transactions) (scripts : Scripts) : Type 1 where
  pub TxMerkleNode : Type 0
  pub header : txs.Block → lib.BlockHeader
  pub header_version : lib.BlockHeader → ℤ
  pub merkle_root : lib.BlockHeader → TxMerkleNode
  pub time : lib.BlockHeader → ℕ
  pub bits : lib.BlockHeader → ℕ
  pub nonce : lib.BlockHeader → ℕ
  pub version : txs.Transaction → ℤ
  pub lock_time : txs.Transaction → ℕ
  pub value : txs.TxOut → ℕ
  pub script_pubkey : txs.TxOut → scripts.Script
