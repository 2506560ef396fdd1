-- ===== src/Script/Chunks.antt =====
-- What each test of `is_multisig` says of a chunk.
use bitcoin_query_py.Common.{
  ℕ, ◌+◌, ◌-◌, ◌≤◌, ◌≡◌, ◌↔◌, ◌⊎◌, inl, inr, refl, ap, arith, List, [], ◌∷◌, map, true,
}
use bitcoin_query_py.Reader.{Bytes}
use bitcoin_query_py.Bitcoin.{Instruction, push_bytes, op}
use bitcoin_query_py.Script.{
  decode_from_op_n, get_num_keys, is_check_multisig, counts_chunks, at_least_one, all_data,
}

op-injective : {a b : ℕ} → op a ≡ op b → a ≡ b
op-injective h = cc

-- What each test says.
pub is_check_multisig_iff :
    (l : Instruction)
    → (is_check_multisig l ≡ true)
      ↔ ((check : ℕ) × (l ≡ op check) × ((check ≡ 0xae) ⊎ (check ≡ 0xaf)))
unfolding is_check_multisig
is_check_multisig_iff (push_bytes b) = (λ h. cc, λ (c, e, _). cc)
is_check_multisig_iff (op o) = (
  λ h. (o, refl, ground arith),
  λ (c, e, k).
      let same : o ≡ c = op-injective e in elim k [ inl p ↦ ground arith | inr p ↦ ground arith ],
)

pub counts_chunks_iff :
    (s : Instruction) (n : ℕ)
    → (counts_chunks (get_num_keys s) (n + 3) ≡ true) ↔ ((s ≡ op (n + 0x50)) × (1 ≤ n) × (n ≤ 16))
unfolding counts_chunks get_num_keys decode_from_op_n
counts_chunks_iff (push_bytes b) n = (λ h. cc, λ (e, _, _). cc)
counts_chunks_iff (op o) n = (
  λ h.
      let number : (o ≡ n + 0x50) × (1 ≤ n) × (n ≤ 16) = ground arith in
      (ap op (number.0), number.1, number.2),
  λ (e, low, high). let same : o ≡ n + 0x50 = op-injective e in ground arith,
)

pub at_least_one_iff :
    (a : Instruction)
    → (at_least_one (get_num_keys a) ≡ true) ↔ ((m : ℕ) × (a ≡ op (m + 0x50)) × (1 ≤ m) × (m ≤ 16))
unfolding at_least_one get_num_keys decode_from_op_n
at_least_one_iff (push_bytes b) = (λ h. cc, λ (m, e, _, _). cc)
at_least_one_iff (op o) = (
  λ h.
      let number : (0x51 ≤ o) × (o ≤ 0x60) = ground arith in
      (o - 0x50, ap op (omega arith), omega arith, omega arith),
  λ (m, e, low, high). let same : o ≡ m + 0x50 = op-injective e in ground arith,
)

pub all_data_iff :
    (mid : List Instruction)
    → (all_data mid ≡ true) ↔ ((keys : List Bytes) × (mid ≡ map push_bytes keys))
unfolding all_data
all_data_iff mid = (λ h. keys_of mid h, λ (keys, e). rw e (all_data-map keys))
  where
    keys_of :
        (mid : List Instruction)
        → all_data mid ≡ true
        → (keys : List Bytes) × (mid ≡ map push_bytes keys)
    keys_of [] h = ([], refl)
    keys_of (push_bytes b ∷ mid) h =
        let (keys, e) = keys_of mid h in (b ∷ keys, ap (◌∷◌ (push_bytes b)) e)
    keys_of (op o ∷ mid) h = cc

    all_data-map : (keys : List Bytes) → all_data (map push_bytes keys) ≡ true
    all_data-map [] = refl
    all_data-map (k ∷ keys) = all_data-map keys
