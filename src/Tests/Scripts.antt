-- ===== src/Tests/Scripts.antt =====
-- A script of two keys that must both sign, and one of a single key.
use bitcoin_query_py.Common.{
  ℕ, ◌≡◌, ◌↔◌, refl, arith, List, [], ◌∷◌, map, Bool, true, false, ok, Option, none, some, inl,
}
use bitcoin_query_py.Reader.{Bytes}
use bitcoin_query_py.Bitcoin.{Scripts, Instruction, push_bytes, op}
use bitcoin_query_py.Script.{ScriptInfo, is_multisig, multisig_addresses, evaluate_script}
use bitcoin_query_py.Script.Multisig.{IsMultisig}
use bitcoin_query_py.Script.Addresses.{is_multisig_iff, multisig_addresses_lem}
use bitcoin_query_py.Script.Evaluate.{evaluate_script_total, StartsWithPush}

abbrev starts_with_push : List (Option Instruction) → Bool
starts_with_push (some (push_bytes _) ∷ is) = true
starts_with_push (some (op _) ∷ is) = false
starts_with_push (none ∷ is) = false
starts_with_push [] = false

abbrev key_of : Bytes → Option ℕ
key_of [] = none
key_of (k ∷ _) = some k

abbrev pub lib : Scripts
lib = record {
  Script = List (Option Instruction);
  PublicKey = ℕ;
  PubkeyHash = ℕ;
  Payload = ℕ;
  Network = Bool;
  bitcoin = true;
  pubkey_hash_payload = λ h. h;
  instructions = λ s. s;
  is_p2pk = starts_with_push;
  is_p2pkh = λ s. false;
  is_p2sh = λ s. false;
  is_v0_p2wpkh = λ s. false;
  is_v0_p2wsh = λ s. false;
  is_witness_program = λ s. false;
  is_op_return = λ s. false;
  is_provably_unspendable = λ s. false;
  from_script = λ s n. none;
  public_key_from_slice = key_of;
  pubkey_hash = λ k. k;
  hash160 = λ bytes. bytes;
  pubkey_hash_from_slice = key_of;
}

abbrev chunks : List Instruction
chunks = op 0x52 ∷ push_bytes (2 ∷ []) ∷ push_bytes (3 ∷ []) ∷ op 0x52 ∷ op 0xae ∷ []

chunks-IsMultisig : IsMultisig chunks
chunks-IsMultisig = record {
  m = 2;
  keys = (2 ∷ []) ∷ (3 ∷ []) ∷ [];
  check = 0xae;
  form = refl;
  required = (omega arith, omega arith);
  given = (omega arith, omega arith);
  checks = inl refl;
}

is_multisig_iff_example :
    (is_multisig lib (map some chunks) ≡ ok true)
    ↔ ((cs : List Instruction) × (map some chunks ≡ map some cs) × IsMultisig cs)
is_multisig_iff_example = is_multisig_iff lib (map some chunks)

multisig_addresses_lem_example :
    multisig_addresses lib (map some chunks)
    ≡ ok (record { payload = 2; network = true } ∷ record { payload = 3; network = true } ∷ [])
unfolding chunks-IsMultisig
multisig_addresses_lem_example =
    multisig_addresses_lem lib (map some chunks) chunks chunks-IsMultisig refl

pub starts : StartsWithPush lib
starts [] h = cc
starts (none ∷ is) h = cc
starts (some (op o) ∷ is) h = cc
starts (some (push_bytes b) ∷ is) h = (b, is, refl)

evaluate_script_total_example :
    (info : ScriptInfo lib) × (evaluate_script lib (map some chunks) true ≡ ok info)
evaluate_script_total_example = evaluate_script_total lib starts (map some chunks) true
