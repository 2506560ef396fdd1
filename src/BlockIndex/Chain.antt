-- ===== src/BlockIndex/Chain.antt =====
-- What a chain of blocks is: heights from 0 on, and each block names the one before it.
use bitcoin_query_py.Common.{
  ℕ, suc, ◌≡◌, sym, arith, List, [], ◌∷◌, ◌++◌, some, length, get_elem?, get_elem?-lt, inl, inr,
  get_elem?-snoc,
}
use bitcoin_query_py.Common.Int.{pos}
use bitcoin_query_py.Bitcoin.{Headers}
use bitcoin_query_py.BlockIndex.{Record}

module _ (lib : Headers) where
  open lib use {block_hash, prev_blockhash}

  pub record IsChain (rs : List (Record lib)) : Type 0 where
    pub heights : (i : ℕ) (r : Record lib) → get_elem? rs i ≡ some r → r.n_height ≡ pos i
    pub linked :
        (i : ℕ) (r s : Record lib)
        → get_elem? rs i ≡ some r
        → get_elem? rs (suc i) ≡ some s
        → prev_blockhash s.block_header ≡ block_hash r.block_header

  -- The last block of a chain has the hash; a chain with no block fits any.
  abbrev pub EndsAt : List (Record lib) → lib.BlockHash → Type 0
  EndsAt rs hash =
      (i : ℕ) (r : Record lib)
      → suc i ≡ length rs
      → get_elem? rs i ≡ some r
      → block_hash r.block_header ≡ hash

  pub IsChain-nil : IsChain []
  IsChain-nil = record { heights = λ i r h. cc; linked = λ i r s h k. cc }

  pub IsChain-snoc :
      (rs : List (Record lib)) (r : Record lib)
      → IsChain rs
      → EndsAt rs (prev_blockhash r.block_header)
      → r.n_height ≡ pos (length rs)
      → IsChain (rs ++ r ∷ [])
  IsChain-snoc rs r c ends height = record {
    heights = λ i s h. elim (get_elem?-snoc rs r i h) [ inl p ↦ c.heights i s p | inr (p, q) ↦ cc ];
    linked = λ i s t h k. elim (get_elem?-snoc rs r (suc i) k) [
      | inl p ↦ elim (get_elem?-snoc rs r i h) [
        | inl q ↦ c.linked i s t q p
        | inr (e, _) ↦ absurd (omega (arith, get_elem?-lt rs (suc i) p))
      ]
      | inr (p, q) ↦ elim (get_elem?-snoc rs r i h) [
        | inl m ↦ rw (← q) (sym (ends i s p m))
        | inr (e, _) ↦ absurd (omega arith)
      ]
    ];
  }
