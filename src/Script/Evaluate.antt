-- ===== src/Script/Evaluate.antt =====
-- `evaluate_script` on every script.
use bitcoin_query_py.Common.{
  ◌≡◌, refl, List, ◌∷◌, map, Bool, true, false, Result, ok, Option, some, if◌then◌else◌, Bool-cases,
  Option-cases, inl, inr,
}
use bitcoin_query_py.Reader.{Bytes}
use bitcoin_query_py.Bitcoin.{Instruction, push_bytes, Address, Scripts}
use bitcoin_query_py.Script.{
  ScriptInfo, from_vec, new, pay_to_multi_sig, pay_to_public_key, read_chunks, is_multisig,
  hashed_address, p2pk_to_address, evaluate_other, evaluate_script, not_recognised,
  pay_to_public_key_hash, pay_to_script_hash, pay_to_witness_public_key_hash,
  pay_to_witness_script_hash, witness_program, op_return, unspendable,
}
use bitcoin_query_py.Script.Multisig.{IsMultisig, has_multisig_form_total}
use bitcoin_query_py.Script.Addresses.{is_multisig_iff, addresses_or_none, multisig_addresses_lem}

-- A branch of two total branches.
if_total :
    {A : Type 0} (b : Bool) {x y : Result ⊥ A}
    → (a : A) × (x ≡ ok a)
    → (a : A) × (y ≡ ok a)
    → (a : A) × ((if b then x else y) ≡ ok a)
if_total true p q = p
if_total false p q = q

module _ (lib : Scripts) where
  open lib use {
    Script, Payload, Network, instructions, is_p2pk, is_p2pkh, is_p2sh, is_v0_p2wpkh, is_v0_p2wsh,
    is_witness_program, is_op_return, is_provably_unspendable, from_script,
  }

  is_multisig_total : (script : Script) → (b : Bool) × (is_multisig lib script ≡ ok b)
  unfolding is_multisig
  is_multisig_total script = elim (Option-cases (read_chunks (instructions script))) [
    | inl stopped ↦ (false, rw (is_multisig, stopped) refl)
    | inr (chunks, read) ↦
        let (b, e) = has_multisig_form_total chunks in (b, rw (is_multisig, read) e)
  ]

  -- A script of the form m, keys, n, check that fits no pattern before it is a multisig script, with the
  -- addresses of its keys.
  evaluate_other-IsMultisig :
      (script : Script) (chunks : List Instruction) (f : IsMultisig chunks)
      (address : Option (Address Payload Network))
      → instructions script ≡ map some chunks
      → evaluate_other lib script address
        ≡ ok (from_vec lib (addresses_or_none lib f.keys) pay_to_multi_sig)
  unfolding evaluate_other
  evaluate_other-IsMultisig script chunks f address e =
      rw
        (
          (is_multisig_iff lib script).1 (chunks, e, f),
          evaluate_other,
          multisig_addresses_lem lib script chunks f e,
        )
        refl

  evaluate_other_total :
      (script : Script) (address : Option (Address Payload Network))
      → (info : ScriptInfo lib) × (evaluate_other lib script address ≡ ok info)
  unfolding evaluate_other
  evaluate_other_total script address =
      let (multisig, e) = is_multisig_total script in by_test multisig e
    where
      by_test :
          (b : Bool)
          → is_multisig lib script ≡ ok b
          → (info : ScriptInfo lib) × (evaluate_other lib script address ≡ ok info)
      by_test true e =
          let (chunks, parsed, f) = (is_multisig_iff lib script).0 e in
          (
            from_vec lib (addresses_or_none lib f.keys) pay_to_multi_sig,
            evaluate_other-IsMultisig script chunks f address parsed,
          )
      by_test false e = (new lib address not_recognised, rw (e, evaluate_other) refl)

  -- What the crate tests of a pay-to-public-key script: it starts with a push.
  abbrev pub StartsWithPush : Type 0
  StartsWithPush =
      (script : Script)
      → is_p2pk script ≡ true
      → (pk : Bytes) × (is : List (Option Instruction)) × (instructions script
          ≡ some (push_bytes pk) ∷ is)

  p2pk_total :
      (script : Script) (net : Network)
      → is_p2pk script ≡ true
      → (pk : Bytes) × (is : List (Option Instruction)) × (instructions script
          ≡ some (push_bytes pk) ∷ is)
      → (info : ScriptInfo lib) × (evaluate_script lib script net ≡ ok info)
  unfolding evaluate_script p2pk_to_address
  p2pk_total script net p2pk (pk, is, e) = (
    new lib (hashed_address lib pk) pay_to_public_key,
    rw (p2pk, evaluate_script, p2pk_to_address, e) refl,
  )

  -- `evaluate_script` never panics, if pay-to-public-key scripts start with a push.
  pub evaluate_script_total :
      StartsWithPush
      → (script : Script) (net : Network)
      → (info : ScriptInfo lib) × (evaluate_script lib script net ≡ ok info)
  unfolding evaluate_script
  evaluate_script_total starts script net = elim (Bool-cases (is_p2pk script)) [
    | inl p2pk ↦ p2pk_total script net p2pk (starts script p2pk)
    | inr other ↦
        let found = from_script script net in
        let (info, e) =
          if_total (is_p2pkh script) (new lib found pay_to_public_key_hash, refl)
            (if_total (is_p2sh script) (new lib found pay_to_script_hash, refl)
              (if_total (is_v0_p2wpkh script) (new lib found pay_to_witness_public_key_hash, refl)
                (if_total (is_v0_p2wsh script) (new lib found pay_to_witness_script_hash, refl)
                  (if_total (is_witness_program script) (new lib found witness_program, refl)
                    (if_total (is_op_return script) (new lib found op_return, refl)
                      (if_total (is_provably_unspendable script) (new lib found unspendable, refl)
                        (evaluate_other_total script found))))))) in
        (info, rw (other, evaluate_script) e)
  ]
