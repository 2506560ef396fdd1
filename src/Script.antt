-- ===== src/Script.antt =====
-- src/parser/script.rs: the pattern of an output script and the addresses that it pays.
pub mod Chunks
pub mod Multisig
pub mod Addresses
pub mod Evaluate
use bitcoin_query_py.Common.{
  ℕ, zero, suc, ◌+◌, ◌-◌, List, [], ◌∷◌, Bool, true, false, ◌&&◌, ◌||◌, not, Result, ok, err, panic,
  ◌>>=◌, Option, none, some, ltb, leb, ◌==◌, if◌then◌else◌, length, get_elem?, take, drop, ◌++◌,
  ◌^◌, ◌%◌,
}
use bitcoin_query_py.Common.Int.{ℤ, pos, negsuc, ltb_ℤ, eqb_ℤ, to_usize}
use bitcoin_query_py.Reader.{Bytes}
use bitcoin_query_py.Bitcoin.{
  All, op_pushbytes_0, op_pushnum_neg1, op_pushnum_1, op_pushnum_16, op_checkmultisig,
  op_checkmultisigverify, Instruction, push_bytes, op, Address, Scripts,
}

pub data ScriptType : Type 0 where
  op_return : ScriptType
  pay_to_multi_sig : ScriptType
  pay_to_public_key : ScriptType
  pay_to_public_key_hash : ScriptType
  pay_to_script_hash : ScriptType
  pay_to_witness_public_key_hash : ScriptType
  pay_to_witness_script_hash : ScriptType
  witness_program : ScriptType
  unspendable : ScriptType
  not_recognised : ScriptType

-- The difference of two numbers as an `i32`; both are far below its bounds.
abbrev pub difference : ℕ → ℕ → ℤ
difference a b = if leb b a then pos (a - b) else negsuc (b - a - 1)

unfoldable pub decode_from_op_n : All → ℤ
decode_from_op_n o =
    if o == op_pushbytes_0
    then pos 0
    else if o == op_pushnum_neg1
    then negsuc 0
    else difference (o + 1) op_pushnum_1

unfoldable pub get_num_keys : Instruction → Option ℤ
get_num_keys (push_bytes _) = none
get_num_keys (op o) =
    if o == op_pushnum_neg1 || o == op_pushbytes_0 || leb op_pushnum_1 o && leb o op_pushnum_16
    then some (decode_from_op_n o)
    else none

-- `Option::unwrap`
abbrev pub unwrap : {A : Type 0} → Option A → Result ⊥ A
unwrap none = panic "called `Option::unwrap()` on a `None` value"
unwrap (some a) = ok a

-- The loop over the instructions, which gives up at the first that cannot be parsed.
unfoldable pub read_chunks : List (Option Instruction) → Option (List Instruction)
read_chunks [] = some []
read_chunks (none ∷ is) = none
read_chunks (some i ∷ is) = elim (read_chunks is) [ none ↦ none | some chunks ↦ some (i ∷ chunks) ]

unfoldable pub is_check_multisig : Instruction → Bool
is_check_multisig (push_bytes _) = false
is_check_multisig (op o) = o == op_checkmultisig || o == op_checkmultisigverify

-- At least one key, and as many data chunks as keys beside the three others.
unfoldable pub counts_chunks : Option ℤ → ℕ → Bool
counts_chunks none count = false
counts_chunks (some (negsuc _)) count = false
counts_chunks (some (pos n)) count = leb 1 n && (n + 3) == count

unfoldable pub at_least_one : Option ℤ → Bool
at_least_one none = false
at_least_one (some n) = not (ltb_ℤ n (pos 1))

unfoldable pub all_data : List Instruction → Bool
all_data [] = true
all_data (push_bytes _ ∷ is) = all_data is
all_data (op _ ∷ is) = false

-- The tests of `is_multisig` on the chunks, in their order.
unfoldable pub has_multisig_form : List Instruction → Result ⊥ Bool
has_multisig_form chunks =
    if ltb (length chunks) 4
    then ok false
    else (unwrap (get_elem? chunks (length chunks - 1)) >>= λ last.
        if is_check_multisig last
        then (unwrap (get_elem? chunks (length chunks - 2)) >>= λ second_last.
            if counts_chunks (get_num_keys second_last) (length chunks)
              && all_data (take (length chunks - 3) (drop 1 chunks))
            then (unwrap (get_elem? chunks 0) >>= λ first. ok (at_least_one (get_num_keys first)))
            else ok false)
        else ok false)

-- `filter_map(|o| o.ok())`
unfoldable pub parsed : List (Option Instruction) → List Instruction
parsed [] = []
parsed (none ∷ is) = parsed is
parsed (some i ∷ is) = i ∷ parsed is

module _ (lib : Scripts) where
  open lib use {
    Script, PublicKey, PubkeyHash, Payload, Network, bitcoin, pubkey_hash_payload, instructions,
    is_p2pk, is_p2pkh, is_p2sh, is_v0_p2wpkh, is_v0_p2wsh, is_witness_program, is_op_return,
    is_provably_unspendable, from_script, public_key_from_slice, pubkey_hash, hash160,
    pubkey_hash_from_slice,
  }

  pub record ScriptInfo : Type 0 where
    pub addresses : List (Address Payload Network)
    pub pattern : ScriptType

  abbrev pub from_vec : List (Address Payload Network) → ScriptType → ScriptInfo
  from_vec addresses pattern = record { addresses = addresses; pattern = pattern }

  abbrev pub new : Option (Address Payload Network) → ScriptType → ScriptInfo
  new none pattern = from_vec [] pattern
  new (some address) pattern = from_vec (address ∷ []) pattern

  unfoldable pub is_multisig : Script → Result ⊥ Bool
  is_multisig script = elim (read_chunks (instructions script)) [
    | none ↦ ok false
    | some chunks ↦ has_multisig_form chunks
  ]

  -- The number of keys, off the instruction in front of the last one.
  abbrev pub num_keys_of : Option Instruction → Result ⊥ ℤ
  num_keys_of (some (op o)) = ok (decode_from_op_n o)
  num_keys_of (some (push_bytes _)) = panic "internal error: entered unreachable code"
  num_keys_of none = panic "internal error: entered unreachable code"

  abbrev pub key_address : PublicKey → Address Payload Network
  key_address pk = record { payload = pubkey_hash_payload (pubkey_hash pk); network = bitcoin }

  -- The loop over the keys; one that is no public key empties the result.
  unfoldable pub read_keys :
      List Instruction → List (Address Payload Network) → Result ⊥ (List (Address Payload Network))
  read_keys [] public_keys = ok public_keys
  read_keys (op _ ∷ ops) public_keys = panic "internal error: entered unreachable code"
  read_keys (push_bytes data_bytes ∷ ops) public_keys = elim (public_key_from_slice data_bytes) [
    | none ↦ ok []
    | some pk ↦ read_keys ops (public_keys ++ key_address pk ∷ [])
  ]

  -- `Vec::with_capacity(num_keys as usize)`
  abbrev pub with_capacity : ℤ → Result ⊥ (List (Address Payload Network))
  with_capacity (pos n) = ok []
  with_capacity (negsuc n) = panic "capacity overflow"

  -- From the instructions on. `ops.len() - 2` wraps below 0.
  unfoldable pub addresses_of : List Instruction → Result ⊥ (List (Address Payload Network))
  addresses_of ops = do
    num_keys ← num_keys_of (get_elem? ops ((length ops + (2 ^ 64 - 2)) % 2 ^ 64))
    public_keys ← with_capacity num_keys
    read_keys (take (to_usize num_keys) (drop 1 ops)) public_keys

  unfoldable pub multisig_addresses : Script → Result ⊥ (List (Address Payload Network))
  multisig_addresses script = is_multisig script >>= λ multisig.
      if multisig
      then addresses_of (parsed (instructions script))
      else panic "assertion failed: is_multisig(script)"

  abbrev pub hashed_address : Bytes → Option (Address Payload Network)
  hashed_address pk = elim (pubkey_hash_from_slice (hash160 pk)) [
    | none ↦ none
    | some h ↦ some (record { payload = pubkey_hash_payload h; network = bitcoin })
  ]

  -- `script.instructions().next()`, where a push is wanted.
  abbrev pub hash_first : List (Option Instruction) → Result ⊥ (Option (Address Payload Network))
  hash_first (some (push_bytes pk) ∷ is) = ok (hashed_address pk)
  hash_first (some (op _) ∷ is) = panic "internal error: entered unreachable code"
  hash_first (none ∷ is) = panic "internal error: entered unreachable code"
  hash_first [] = panic "internal error: entered unreachable code"

  unfoldable pub p2pk_to_address : Script → Result ⊥ (Option (Address Payload Network))
  p2pk_to_address script =
      if is_p2pk script
      then hash_first (instructions script)
      else panic "assertion failed: script.is_p2pk()"

  -- The last two branches.
  unfoldable pub evaluate_other : Script → Option (Address Payload Network) → Result ⊥ ScriptInfo
  evaluate_other script address = is_multisig script >>= λ multisig.
      if multisig
      then (do addresses ← multisig_addresses script; ok (from_vec addresses pay_to_multi_sig))
      else ok (new address not_recognised)

  unfoldable pub evaluate_script : Script → Network → Result ⊥ ScriptInfo
  evaluate_script script net =
      let address = from_script script net in
      if is_p2pk script
      then (do found ← p2pk_to_address script; ok (new found pay_to_public_key))
      else if is_p2pkh script
      then ok (new address pay_to_public_key_hash)
      else if is_p2sh script
      then ok (new address pay_to_script_hash)
      else if is_v0_p2wpkh script
      then ok (new address pay_to_witness_public_key_hash)
      else if is_v0_p2wsh script
      then ok (new address pay_to_witness_script_hash)
      else if is_witness_program script
      then ok (new address witness_program)
      else if is_op_return script
      then ok (new address op_return)
      else if is_provably_unspendable script
      then ok (new address unspendable)
      else evaluate_other script address
