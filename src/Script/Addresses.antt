-- ===== src/Script/Addresses.antt =====
-- The addresses of a multisig script.
use bitcoin_query_py.Common.{
  ℕ, suc, ◌+◌, ◌-◌, ◌%◌, ◌^◌, ◌≤◌, ◌≡◌, ◌↔◌, refl, sym, ap, ◌∙◌, arith, List, [], ◌∷◌, ◌++◌, map,
  true, ok, Option, none, some, length, take, length-append, take_append, Option-cases, inl, inr,
}
use mathlib.Core.Option.{some_inj}
use mathlib.Core.List.{append_assoc, append-nil}
use bitcoin_query_py.Common.Int.{pos}
use bitcoin_query_py.Reader.{Bytes}
use bitcoin_query_py.Bitcoin.{Instruction, push_bytes, op, Address, Scripts}
use bitcoin_query_py.Script.{
  decode_from_op_n, read_chunks, parsed, is_multisig, key_address, read_keys, addresses_of,
  multisig_addresses,
}
use bitcoin_query_py.Script.Multisig.{
  IsMultisig, has_multisig_form_iff, length-map_push, get_elem?-end,
}

read_chunks-map : (chunks : List Instruction) → read_chunks (map some chunks) ≡ some chunks
unfolding read_chunks
read_chunks-map [] = refl
read_chunks-map (c ∷ chunks) = rw (read_chunks-map chunks) refl

read_chunks-some :
    (is : List (Option Instruction)) (chunks : List Instruction)
    → read_chunks is ≡ some chunks
    → is ≡ map some chunks
unfolding read_chunks
read_chunks-some [] chunks e = rw (← some_inj.0 e) refl
read_chunks-some (none ∷ is) chunks e = cc
read_chunks-some (some i ∷ is) chunks e = elim (Option-cases (read_chunks is)) [
  | inl stopped ↦ cc (rw stopped at e)
  | inr (more, read) ↦
      rw (← some_inj.0 (rw read at e)) (ap (◌∷◌ (some i)) (read_chunks-some is more read))
]

parsed-map : (chunks : List Instruction) → parsed (map some chunks) ≡ chunks
unfolding parsed
parsed-map [] = refl
parsed-map (c ∷ chunks) = ap (◌∷◌ c) (parsed-map chunks)

decode_from_op_n-number : (n : ℕ) → n ≤ 16 → 1 ≤ n → decode_from_op_n (n + 0x50) ≡ pos n
unfolding decode_from_op_n
decode_from_op_n-number n few some_key = ground arith

module _ (lib : Scripts) where
  open lib use {Script, Payload, Network, instructions, public_key_from_slice}

  -- A script is taken for a multisig script exactly if all its instructions can be parsed and have the
  -- form m, n keys, n, check, with m and n between 1 and 16.
  pub is_multisig_iff :
      (script : Script)
      → (is_multisig lib script ≡ ok true) ↔ (
          (chunks : List Instruction) × (instructions script ≡ map some chunks) × IsMultisig chunks)
  unfolding is_multisig
  is_multisig_iff script = (
    λ accepted. elim (Option-cases (read_chunks (instructions script))) [
      | inl stopped ↦ cc (rw (is_multisig, stopped) at accepted)
      | inr (chunks, read) ↦ (
        chunks,
        read_chunks-some (instructions script) chunks read,
        (has_multisig_form_iff chunks).0 (rw (is_multisig, read) at accepted),
      )
    ],
    λ (chunks, e, form).
        rw (is_multisig, e, read_chunks-map chunks) ((has_multisig_form_iff chunks).1 form),
  )

  -- The addresses of all keys, if each is a public key.
  abbrev pub addresses_of_keys : List Bytes → Option (List (Address Payload Network))
  addresses_of_keys [] = some []
  addresses_of_keys (k ∷ keys) = elim (public_key_from_slice k) [
    | none ↦ none
    | some pk ↦ elim (addresses_of_keys keys) [
      | none ↦ none
      | some addresses ↦ some (key_address lib pk ∷ addresses)
    ]
  ]

  -- All of them, or none.
  abbrev pub addresses_or_none : List Bytes → List (Address Payload Network)
  addresses_or_none keys = elim (addresses_of_keys keys) [ none ↦ [] | some addresses ↦ addresses ]

  read_keys-map :
      (keys : List Bytes) (front : List (Address Payload Network))
      → read_keys lib (map push_bytes keys) front
        ≡ ok (elim (addresses_of_keys keys) [ none ↦ [] | some addresses ↦ front ++ addresses ])
  unfolding read_keys
  read_keys-map [] front = ap ok (sym (append-nil front))
  read_keys-map (k ∷ keys) front = elim (Option-cases (public_key_from_slice k)) [
    | inl no_key ↦ rw no_key refl
    | inr (pk, key) ↦
        rw (key, read_keys-map keys (front ++ (key_address lib pk ∷ [])))
          (elim (Option-cases (addresses_of_keys keys)) [
            | inl stopped ↦ rw stopped refl
            | inr (more, rest) ↦ rw rest (ap ok (append_assoc front (key_address lib pk ∷ []) more))
          ])
  ]

  addresses_of-form :
      (a : Instruction) (keys : List Bytes) (check : Instruction)
      → (1 ≤ length keys) × (length keys ≤ 16)
      → addresses_of lib (a ∷ (map push_bytes keys ++ (op (length keys + 0x50) ∷ check ∷ [])))
        ≡ ok (addresses_or_none keys)
  unfolding addresses_of
  addresses_of-form a keys check (some_key, few) =
      let mid = map push_bytes keys in
      let tail = op (length keys + 0x50) ∷ check ∷ [] in
      let same = length-map_push keys in
      let place : (length (a ∷ (mid ++ tail)) + (2 ^ 64 - 2)) % 2 ^ 64 ≡ suc (length mid) =
        omega (arith, length-append mid tail) in
      let key_chunks : take (length keys) (mid ++ tail) ≡ mid =
        ap (λ k. take k (mid ++ tail)) (sym same) ∙ take_append mid tail in
      rw
        (
          place,
          (get_elem?-end mid (op (length keys + 0x50)) check).0,
          decode_from_op_n-number (length keys) few some_key,
          key_chunks,
        )
        (read_keys-map keys [])

  addresses_of-IsMultisig :
      (chunks : List Instruction) (f : IsMultisig chunks)
      → addresses_of lib chunks ≡ ok (addresses_or_none f.keys)
  addresses_of-IsMultisig chunks f =
      ap (addresses_of lib) f.form ∙ addresses_of-form (op (f.m + 0x50)) f.keys (op f.check) f.given

  -- The addresses of a multisig script are those of its keys, in their order, and none if one of them
  -- is no public key.
  pub multisig_addresses_lem :
      (script : Script) (chunks : List Instruction) (f : IsMultisig chunks)
      → instructions script ≡ map some chunks
      → multisig_addresses lib script ≡ ok (addresses_or_none f.keys)
  unfolding multisig_addresses
  multisig_addresses_lem script chunks f e =
      rw
        (
          (is_multisig_iff script).1 (chunks, e, f),
          multisig_addresses,
          e,
          parsed-map chunks,
          addresses_of-IsMultisig chunks f,
        )
        refl
