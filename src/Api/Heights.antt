-- ===== src/Api/Heights.antt =====
-- Heights, hashes and the block count of an index that `BlockIndex::new` built.
use bitcoin_query_py.Common.{
  ℕ, zero, suc, ◌+◌, ◌≤◌, ◌<◌, ◌≡◌, ◌≢◌, ◌↔◌, ◌⊎◌, refl, sym, ap, ◌∙◌, arith, List, [], ◌∷◌, none,
  some, inl, inr, ok, err, length, get_elem?, ok-injective, Option-cases,
}
use bitcoin_query_py.Common.Int.{ℤ, pos, to_usize}
use bitcoin_query_py.Common.Maps.{get}
use bitcoin_query_py.Errors.{from_str}
use bitcoin_query_py.Bitcoin.{Headers}
use bitcoin_query_py.BlockIndex.{Record, Entry, BlockIndex, new}
use bitcoin_query_py.BlockIndex.HashIndex.{IsIndexed, new-IsIndexed}
use bitcoin_query_py.Api.{count_from, get_block_count, get_hash_from_height, get_height_from_hash}

module _ (lib : Headers) where
  open lib use {BlockHash, hash_discrete, block_hash}

  get_hash_from_height-some :
      (index : BlockIndex lib) (h : ℕ) (r : Record lib)
      → get_elem? index.records h ≡ some r
      → get_hash_from_height lib index h ≡ ok (block_hash r.block_header)
  unfolding get_hash_from_height
  get_hash_from_height-some index h r found = rw (found, get_hash_from_height)

  get_hash_from_height-ok :
      (index : BlockIndex lib) (h : ℕ) (hash : BlockHash)
      → get_hash_from_height lib index h ≡ ok hash
      → (r : Record lib) × (get_elem? index.records h ≡ some r) × (block_hash r.block_header ≡ hash)
  unfolding get_hash_from_height
  get_hash_from_height-ok index h hash e = elim (Option-cases (get_elem? index.records h)) [
    | inl missing ↦ absurd (cc (rw (missing, get_hash_from_height) at e))
    | inr (r, found) ↦ (r, found, ok-injective (rw (found, get_hash_from_height) at e))
  ]

  get_height_from_hash-some :
      (index : BlockIndex lib) (hash : BlockHash) (z : ℤ)
      → get hash_discrete hash index.hash_to_height ≡ some z
      → get_height_from_hash lib index hash ≡ ok (to_usize z)
  unfolding get_height_from_hash
  get_height_from_hash-some index hash z found = rw (found, get_height_from_hash)

  get_height_from_hash-none :
      (index : BlockIndex lib) (hash : BlockHash)
      → get hash_discrete hash index.hash_to_height ≡ none
      → get_height_from_hash lib index hash ≡ err (from_str "hash not found")
  unfolding get_height_from_hash
  get_height_from_hash-none index hash missing = rw (missing, get_height_from_hash)

  -- A record of the hash, or the proof that there is none.
  find_hash :
      (rs : List (Record lib)) (k : BlockHash)
      → ((i : ℕ) × (r : Record lib) × (get_elem? rs i ≡ some r) × (block_hash r.block_header ≡ k))
        ⊎ ((i : ℕ) (r : Record lib) → get_elem? rs i ≡ some r → block_hash r.block_header ≢ k)
  find_hash [] k = inr (λ i r h. cc)
  find_hash (x ∷ rs) k = elim (hash_discrete (block_hash x.block_header) k) [
    | yes p ↦ inl (0, x, refl, p)
    | no n ↦ elim (find_hash rs k) [
      | inl (i, r, found, same) ↦ inl (suc i, r, found, same)
      | inr absent ↦ inr (not_in x rs k n absent)
    ]
  ]
    where
      not_in :
          (x : Record lib) (rs : List (Record lib)) (k : BlockHash)
          → block_hash x.block_header ≢ k
          → ((i : ℕ) (r : Record lib) → get_elem? rs i ≡ some r → block_hash r.block_header ≢ k)
          → (i : ℕ) (r : Record lib) → get_elem? (x ∷ rs) i ≡ some r
          → block_hash r.block_header ≢ k
      not_in x rs k n absent zero r h = λ same. n (cc)
      not_in x rs k n absent (suc i) r h = absent i r h

  height_of_hash :
      (es : List (Entry lib)) (index : BlockIndex lib) (h : ℕ) (hash : BlockHash)
      → IsIndexed lib es index
      → get_height_from_hash lib index hash ≡ ok h
      → get_hash_from_height lib index h ≡ ok hash
  height_of_hash es index h hash indexed e = elim (find_hash index.records hash) [
    | inl (i, r, found, same) ↦
        let stored = rw same at (indexed.found i r found) in
        let level : i ≡ h =
          ok-injective (sym (get_height_from_hash-some index hash (pos i) stored) ∙ e) in
        rw (← level) (get_hash_from_height-some index i r found ∙ ap ok same)
    | inr other ↦ absurd (cc (get_height_from_hash-none index hash (indexed.absent hash other), e))
  ]

  -- On an index built from a database the two queries are inverse to one another: a height gives a
  -- hash exactly when that hash gives the height.
  pub get_height_from_hash_iff :
      (es : List (Entry lib)) (index : BlockIndex lib) (h : ℕ) (hash : BlockHash)
      → new lib (ok es) ≡ ok index
      → (get_hash_from_height lib index h ≡ ok hash) ↔ (get_height_from_hash lib index hash ≡ ok h)
  get_height_from_hash_iff es index h hash e =
      let indexed = new-IsIndexed lib es index e in
      (
        λ from_height.
            let (r, found, same) = get_hash_from_height-ok index h hash from_height in
            let stored = rw same at (indexed.found h r found) in
            get_height_from_hash-some index hash (pos h) stored,
        height_of_hash es index h hash indexed,
      )

  -- The block that stops the count, if any, is the first without transactions.
  pub record IsCount (rs : List (Record lib)) (n : ℕ) : Type 0 where
    pub within : n ≤ length rs
    pub downloaded : (i : ℕ) (r : Record lib) → get_elem? rs i ≡ some r → i < n → r.n_tx ≢ 0
    pub first_missing : (r : Record lib) → get_elem? rs n ≡ some r → r.n_tx ≡ 0

  count_from-within :
      (h : ℕ) (rs : List (Record lib))
      → (h ≤ count_from lib h rs) × (count_from lib h rs ≤ h + length rs)
  unfolding count_from
  count_from-within h [] = omega arith
  count_from-within h (x ∷ rs) = ground (arith, count_from-within (h + 1) rs)

  count_from-downloaded :
      (h : ℕ) (rs : List (Record lib)) (i : ℕ) (r : Record lib)
      → get_elem? rs i ≡ some r
      → h + i < count_from lib h rs
      → r.n_tx ≢ 0
  unfolding count_from
  count_from-downloaded h [] i r p below = cc
  count_from-downloaded h (x ∷ rs) zero r p below = ground arith
  count_from-downloaded h (x ∷ rs) (suc i) r p below =
      ground (arith, count_from-downloaded (h + 1) rs i r)

  count_from-missing :
      (h : ℕ) (rs : List (Record lib)) (i : ℕ) (r : Record lib)
      → get_elem? rs i ≡ some r
      → h + i ≡ count_from lib h rs
      → r.n_tx ≡ 0
  unfolding count_from
  count_from-missing h [] i r p at = cc
  count_from-missing h (x ∷ rs) zero r p at = ground (arith, count_from-within (h + 1) rs)
  count_from-missing h (x ∷ rs) (suc i) r p at = ground (arith, count_from-missing (h + 1) rs i r)

  -- `get_block_count` is the number of blocks in front of the first one without transactions, or of
  -- all blocks.
  pub get_block_count-IsCount :
      (index : BlockIndex lib) → IsCount index.records (get_block_count lib index)
  unfolding get_block_count
  get_block_count-IsCount index = record {
    within = omega (arith, count_from-within 0 index.records);
    downloaded = λ i r p below. count_from-downloaded 0 index.records i r p (omega arith);
    first_missing = λ r p. count_from-missing 0 index.records _ r p (omega arith);
  }
