-- ===== src/BlockIndex/Load.antt =====
-- `load_block_index` as a whole: the chain that it returns, and when it returns one.
use bitcoin_query_py.Common.{
  ℕ, zero, suc, ◌≡◌, sym, ap, ◌∙◌, arith, List, [], reverse, Option, none, some, inl, inr, ok,
  >>=-eq-ok, ok-injective, length, get_elem?,
}
use bitcoin_query_py.Common.Int.{ℤ, pos, negsuc, ◌≤ℤ◌, ◌<ℤ◌, pos-injective}
use bitcoin_query_py.Common.Maps.{get}
use bitcoin_query_py.Bitcoin.{Headers}
use bitcoin_query_py.BlockIndex.{
  Record, Entry, Collected, build_chain, longest_chain, load_entries, load_block_index,
}
use bitcoin_query_py.BlockIndex.Chain.{IsChain, IsChain-nil}
use bitcoin_query_py.BlockIndex.Walk.{IsWalk, DownFrom-IsWalk, DownFrom-build_chain}
use bitcoin_query_py.BlockIndex.Collect.{Offers, IsMax, Tracks, Tracks-iff, load_entries-Tracks}

module _ (lib : Headers) where
  open lib use {BlockHash, hash_discrete, block_hash}

  abbrev pub nothing : Collected lib
  nothing = record { by_hash = []; max_height = none }

  nothing-Tracks : Tracks lib (λ _. ⊥) nothing
  unfolding get
  nothing-Tracks = record {
    keyed = λ k r h. cc;
    met = λ k r h. cc;
    covers = λ r p. absurd p;
    highest = λ r p. p;
  }

  pub Tracks-Offers :
      (es : List (Entry lib)) (s : Collected lib)
      → load_entries lib es nothing ≡ ok s
      → Tracks lib (Offers lib es) s
  Tracks-Offers es s loaded =
      Tracks-iff lib _ _ s (λ r p. elim p [ inl none_yet ↦ absurd none_yet | inr o ↦ o ])
        (λ r o. inr o) (load_entries-Tracks lib (λ _. ⊥) es nothing s nothing-Tracks loaded)

  -- The longest chain of what a database offers.
  pub record IsLongest (es : List (Entry lib)) (rs : List (Record lib)) : Type 0 where
    pub chain : IsChain lib rs
    pub offered : (i : ℕ) (r : Record lib) → get_elem? rs i ≡ some r → Offers lib es r
    pub tallest : (r : Record lib) → Offers lib es r → r.n_height <ℤ pos (length rs)
    pub distinct :
        (i j : ℕ) (r s : Record lib)
        → get_elem? rs i ≡ some r
        → get_elem? rs j ≡ some s
        → block_hash r.block_header ≡ block_hash s.block_header
        → i ≡ j

  IsLongest-nil :
      (es : List (Entry lib))
      → ((r : Record lib) → Offers lib es r → r.n_height <ℤ pos 0)
      → IsLongest es []
  IsLongest-nil es low = record {
    chain = IsChain-nil lib;
    offered = λ i r h. cc;
    tallest = low;
    distinct = λ i j r s h k e. cc;
  }

  IsLongest-walk :
      (es : List (Entry lib)) (s : Collected lib) (h : ℕ) (hash : BlockHash)
      (rs : List (Record lib))
      → Tracks lib (Offers lib es) s
      → ((r : Record lib) → Offers lib es r → r.n_height ≤ℤ pos h)
      → IsWalk lib (suc h) hash s.by_hash rs
      → IsLongest es rs
  IsLongest-walk es s h hash rs t low w = record {
    chain = w.chain;
    offered = λ i r p. t.met _ r (w.held i r p);
    tallest = λ r o. rw w.size (omega (arith, low r o));
    distinct = λ i j r r' p q e.
        let found = rw e at (w.held i r p) in
        let same : r ≡ r' = cc (w.held j r' q) in
        pos-injective
          (sym (w.chain.heights i r p) ∙ ap (λ x. x.n_height) same ∙ w.chain.heights j r' q);
  }

  longest_chain-IsLongest :
      (es : List (Entry lib)) (s : Collected lib) (rs : List (Record lib))
      (max : Option (BlockHash × ℤ))
      → Tracks lib (Offers lib es) s
      → IsMax lib max (Offers lib es)
      → longest_chain lib max s.by_hash ≡ ok rs
      → IsLongest es rs
  unfolding longest_chain build_chain
  longest_chain-IsLongest es s rs none t m e =
      rw (← ok-injective e) (IsLongest-nil es (λ r o. absurd (m r o)))
  longest_chain-IsLongest es s rs (some (hash, pos h)) t m e =
      let (built, walked, out) = >>=-eq-ok (build_chain lib (suc h) hash s.by_hash []) _ e in
      let (down, d, same) = DownFrom-build_chain lib (suc h) hash s.by_hash [] built walked in
      let whole : reverse down ≡ rs = ap reverse (sym same) ∙ ok-injective out in
      rw (← whole) (
        IsLongest-walk es s h hash (reverse down) t m.0
          (DownFrom-IsWalk lib (suc h) hash s.by_hash down t.keyed d))
  longest_chain-IsLongest es s rs (some (hash, negsuc zero)) t m e =
      rw (← ok-injective e) (IsLongest-nil es (λ r o. omega (arith, m.0 r o)))
  longest_chain-IsLongest es s rs (some (hash, negsuc (suc h))) t m e = absurd (cc)

  -- A load that succeeds returns the longest chain of what the database offers: heights count from
  -- 0, each block names the one before it, every block stands in the database, no offered block is
  -- as high as the chain is long, and no hash occurs twice.
  pub load_block_index-IsLongest :
      (es : List (Entry lib)) (rs : List (Record lib))
      → load_block_index lib (ok es) ≡ ok rs
      → IsLongest es rs
  unfolding load_block_index
  load_block_index-IsLongest es rs e =
      let (s, loaded, built) = >>=-eq-ok (load_entries lib es nothing) _ e in
      let t = Tracks-Offers es s loaded in
      longest_chain-IsLongest es s rs s.max_height t t.highest built
