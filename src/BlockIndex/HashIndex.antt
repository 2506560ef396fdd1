-- ===== src/BlockIndex/HashIndex.antt =====
-- `BlockIndex::new`: the map from hashes to heights.
use bitcoin_query_py.Common.{
  ℕ, ◌≡◌, ◌≢◌, refl, ap, ◌∙◌, List, [], none, some, ok, >>=-eq-ok, ok-injective, get_elem?,
}
use bitcoin_query_py.Common.Int.{pos}
use bitcoin_query_py.Common.Maps.{get}
use bitcoin_query_py.Common.InsertAll.{Agrees, insert_all-found, insert_all-absent}
use bitcoin_query_py.Bitcoin.{Headers}
use bitcoin_query_py.BlockIndex.{Record, Entry, BlockIndex, index_hashes, load_block_index, new}
use bitcoin_query_py.BlockIndex.Load.{IsLongest, load_block_index-IsLongest}

module _ (lib : Headers) where
  open lib use {BlockHash, hash_discrete, block_hash}

  -- What `new` gives: the longest chain, and a map that finds each of its blocks by its hash.
  pub record IsIndexed (es : List (Entry lib)) (index : BlockIndex lib) : Type 0 where
    pub longest : IsLongest lib es index.records
    pub found :
        (i : ℕ) (r : Record lib)
        → get_elem? index.records i ≡ some r
        → get hash_discrete (block_hash r.block_header) index.hash_to_height ≡ some (pos i)
    pub absent :
        (k : BlockHash)
        → ((i : ℕ) (r : Record lib)
            → get_elem? index.records i ≡ some r
            → block_hash r.block_header ≢ k)
        → get hash_discrete k index.hash_to_height ≡ none

  Agrees-IsLongest :
      (es : List (Entry lib)) (rs : List (Record lib)) (i : ℕ) (r : Record lib)
      → IsLongest lib es rs
      → get_elem? rs i ≡ some r
      → Agrees hash_discrete
          (λ b. block_hash b.block_header)
          (λ b. b.n_height)
          rs
          (block_hash r.block_header)
          (pos i)
  Agrees-IsLongest es rs i r l h j s k same =
      l.chain.heights j s k ∙ ap pos (l.distinct j i s r k h same)

  pub new-IsIndexed :
      (es : List (Entry lib)) (index : BlockIndex lib)
      → new lib (ok es) ≡ ok index
      → IsIndexed es index
  unfolding new index_hashes
  new-IsIndexed es index e =
      let (rs, loaded, built) = >>=-eq-ok (load_block_index lib (ok es)) _ e in
      let l = load_block_index-IsLongest lib es rs loaded in
      rw (← ok-injective built) (record {
        longest = l;
        found = λ i r h.
            insert_all-found hash_discrete (λ b. block_hash b.block_header) (λ b. b.n_height) rs []
              _ (pos i) i r (Agrees-IsLongest es rs i r l h) h refl;
        absent = λ k other.
            insert_all-absent hash_discrete (λ b. block_hash b.block_header) (λ b. b.n_height) rs []
              k other (unfold get in refl);
      })
