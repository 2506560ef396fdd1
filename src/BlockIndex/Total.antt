-- ===== src/BlockIndex/Total.antt =====
-- When `load_block_index` returns, and what: the case in which none of its panics is met, and the
-- database that cannot be decoded.
use bitcoin_query_py.Common.{
  ℕ, zero, suc, ◌≤◌, ◌≡◌, refl, sym, ap, ◌∙◌, arith, List, [], ◌∷◌, ◌++◌, reverse, Option, true,
  none, some, ok, err, length, length-append, All, All-map, All-reverse, All-last, reverse-cons,
  length-reverse, get_elem?-append_left, get_elem?-snoc_last,
}
use mathlib.Core.List.{reverse-reverse}
use bitcoin_query_py.Common.Int.{ℤ, pos, ◌≤ℤ◌, ≤ℤ_antisymm, pos-injective}
use bitcoin_query_py.Common.Maps.{get, delete, get-delete_ne}
use bitcoin_query_py.Errors.{OpError}
use bitcoin_query_py.Reader.{Bytes}
use bitcoin_query_py.Bitcoin.{Headers}
use bitcoin_query_py.BlockIndex.{
  Record, Entry, Collected, is_block_index_record, from, longest_chain, load_block_index,
}
use bitcoin_query_py.BlockIndex.Chain.{IsChain, EndsAt}
use bitcoin_query_py.BlockIndex.Walk.{Map, DownFrom, build_chain-DownFrom}
use bitcoin_query_py.BlockIndex.Collect.{
  Offers, Decodes, IsMax, Tracks, load_entries_total, load_entries_error,
}
use bitcoin_query_py.BlockIndex.Load.{nothing, Tracks-Offers}

module _ (lib : Headers) where
  open lib use {BlockHash, hash_discrete, block_hash, prev_blockhash}

  -- A chain, highest block first, whose highest block has the hash.
  abbrev Descends : ℕ → BlockHash → List (Record lib) → Type 0
  Descends zero hash [] = Unit
  Descends zero hash (r ∷ rs) = ⊥
  Descends (suc n) hash [] = ⊥
  Descends (suc n) hash (r ∷ rs) =
      (block_hash r.block_header ≡ hash)
      × (r.n_height ≡ pos n)
      × Descends n (prev_blockhash r.block_header) rs

  abbrev IsHeld : Map lib → Record lib → Type 0
  IsHeld m r = get hash_discrete (block_hash r.block_header) m ≡ some r

  -- What is left in the map when a higher block has gone.
  IsHeld-below :
      (m : Map lib) (h : Record lib) (n k : ℕ) (hash : BlockHash) (rs : List (Record lib))
      → IsHeld m h
      → h.n_height ≡ pos n
      → k ≤ n
      → Descends k hash rs
      → All (IsHeld m) rs
      → All (IsHeld (delete hash_discrete (block_hash h.block_header) m)) rs
  IsHeld-below m h n zero hash [] held height le d all = tt
  IsHeld-below m h n zero hash (r ∷ rs) held height le d all = absurd d
  IsHeld-below m h n (suc k) hash [] held height le d all = absurd d
  IsHeld-below m h n (suc k) hash (r ∷ rs) held height le (_, low, below) (first, all) = (
    get-delete_ne hash_discrete (block_hash h.block_header) (block_hash r.block_header) m (λ same.
          let found = rw same at held in
          let equal : h ≡ r = cc (found, first) in
          let level : pos n ≡ pos k = sym height ∙ ap (λ x. x.n_height) equal ∙ low in
          omega (arith, pos-injective level))
        ∙ first,
    IsHeld-below m h n k _ rs held height (omega arith) below all,
  )

  DownFrom-Descends :
      (n : ℕ) (hash : BlockHash) (m : Map lib) (rs : List (Record lib))
      → Descends n hash rs
      → All (IsHeld m) rs
      → DownFrom lib n hash m rs
  DownFrom-Descends zero hash m [] d all = tt
  DownFrom-Descends zero hash m (r ∷ rs) d all = absurd d
  DownFrom-Descends (suc n) hash m [] d all = absurd d
  DownFrom-Descends (suc n) hash m (r ∷ rs) (same, height, below) (first, all) = (
    rw same at first,
    height,
    DownFrom-Descends n _ _ rs below
        (rw same at (IsHeld-below m r n n _ rs first height (omega arith) below all)),
  )

  IsChain-front :
      (rs : List (Record lib)) (r : Record lib) → IsChain lib (rs ++ r ∷ []) → IsChain lib rs
  IsChain-front rs r c = record {
    heights = λ i s h. c.heights i s (get_elem?-append_left rs (r ∷ []) i h);
    linked = λ i s t h k.
        c.linked i s t (get_elem?-append_left rs (r ∷ []) i h)
          (get_elem?-append_left rs (r ∷ []) (suc i) k);
  }

  -- A chain read from its end descends.
  Descends-reverse :
      (ds : List (Record lib)) (hash : BlockHash)
      → IsChain lib (reverse ds)
      → EndsAt lib (reverse ds) hash
      → Descends (length ds) hash ds
  Descends-reverse [] hash c ends = tt
  Descends-reverse (r ∷ ds) hash c ends =
      let rs = reverse ds in
      let chain : IsChain lib (rs ++ r ∷ []) = rw (reverse-cons r ds) at c in
      let last : EndsAt lib (rs ++ r ∷ []) hash = rw (reverse-cons r ds) at ends in
      let size : length (rs ++ r ∷ []) ≡ suc (length rs) =
        omega (arith, length-append rs (r ∷ [])) in
      (
        last (length rs) r (sym size) (get_elem?-snoc_last rs r),
        chain.heights (length rs) r (get_elem?-snoc_last rs r) ∙ ap pos (length-reverse ds),
        Descends-reverse ds (prev_blockhash r.block_header) (IsChain-front rs r chain)
            (λ i s end found. sym (
              chain.linked i s r (get_elem?-append_left rs (r ∷ []) i found)
                (rw end (get_elem?-snoc_last rs r)))),
      )

  -- The database holds the whole of one chain, whose last block is the only one of the greatest
  -- height, and no two offered blocks have one hash.
  pub record HoldsChain (es : List (Entry lib)) (front : List (Record lib)) (tip : Record lib)
      : Type 0 where
    pub decodes : Decodes lib es
    pub chain : IsChain lib (front ++ tip ∷ [])
    pub stored : All (Offers lib es) (front ++ tip ∷ [])
    pub tallest : (r : Record lib) → Offers lib es r → r.n_height ≤ℤ tip.n_height
    pub only_tip : (r : Record lib) → Offers lib es r → r.n_height ≡ tip.n_height → r ≡ tip
    pub no_collision :
        (r s : Record lib)
        → Offers lib es r
        → Offers lib es s
        → block_hash r.block_header ≡ block_hash s.block_header
        → r ≡ s

  Tracks-IsHeld :
      (es : List (Entry lib)) (s : Collected lib)
      → Tracks lib (Offers lib es) s
      → ((r r' : Record lib)
          → Offers lib es r
          → Offers lib es r'
          → block_hash r.block_header ≡ block_hash r'.block_header
          → r ≡ r')
      → (r : Record lib) → Offers lib es r
      → IsHeld s.by_hash r
  Tracks-IsHeld es s t unique r o =
      let (r', found) = t.covers r o in
      let same : r' ≡ r = unique r' r (t.met _ r' found) o (t.keyed _ r' found) in rw same at found

  EndsAt-snoc :
      (rs : List (Record lib)) (r : Record lib)
      → EndsAt lib (rs ++ r ∷ []) (block_hash r.block_header)
  EndsAt-snoc rs r i s last h =
      let end : i ≡ length rs = omega (arith, length-append rs (r ∷ [])) in
      cc (rw end at h, get_elem?-snoc_last rs r)

  longest_chain-HoldsChain :
      (es : List (Entry lib)) (front : List (Record lib)) (tip : Record lib) (s : Collected lib)
      (max : Option (BlockHash × ℤ))
      → HoldsChain es front tip
      → Tracks lib (Offers lib es) s
      → IsMax lib max (Offers lib es)
      → longest_chain lib max s.by_hash ≡ ok (front ++ tip ∷ [])
  unfolding longest_chain
  longest_chain-HoldsChain es front tip s none h t m =
      absurd (m tip (All-last (Offers lib es) front tip h.stored))
  longest_chain-HoldsChain es front tip s (some (hash, height)) h t (above, (best, o, same, top)) =
      let all = front ++ tip ∷ [] in
      let n = length front in
      let level : tip.n_height ≡ pos n = h.chain.heights n tip (get_elem?-snoc_last front tip) in
      let equal : best.n_height ≡ tip.n_height =
        ≤ℤ_antisymm _ _ (h.tallest best o)
          (rw top (above tip (All-last (Offers lib es) front tip h.stored))) in
      let at_tip : block_hash tip.block_header ≡ hash =
        ap (λ r. block_hash r.block_header) (sym (h.only_tip best o equal)) ∙ same in
      let high : height ≡ pos n = sym top ∙ equal ∙ level in
      let size : length (reverse all) ≡ suc n =
        length-reverse all ∙ omega (arith, length-append front (tip ∷ [])) in
      let twice : reverse (reverse all) ≡ all = reverse-reverse all in
      let down : Descends (suc n) hash (reverse all) = rw (sym size) (
        Descends-reverse (reverse all) hash (rw twice h.chain)
          (rw (twice, ← at_tip) (EndsAt-snoc front tip))) in
      let held : All (IsHeld s.by_hash) (reverse all) = All-reverse (IsHeld s.by_hash) all (
        All-map (Offers lib es) (IsHeld s.by_hash) all (Tracks-IsHeld es s t h.no_collision)
          h.stored) in
      let walked =
        build_chain-DownFrom lib (suc n) hash s.by_hash [] (reverse all)
          (DownFrom-Descends (suc n) hash s.by_hash (reverse all) down held) in
      rw high (rw walked (ap ok twice))

  -- On a database that holds the whole of one chain, whose last block is the only one of the greatest
  -- height, where every record can be decoded and no two offered blocks have one hash, the load
  -- succeeds, meets no panic, and returns exactly that chain.
  pub load_block_index-HoldsChain :
      (es : List (Entry lib)) (front : List (Record lib)) (tip : Record lib)
      → HoldsChain es front tip
      → load_block_index lib (ok es) ≡ ok (front ++ tip ∷ [])
  unfolding load_block_index
  load_block_index-HoldsChain es front tip h =
      let (s, loaded) = load_entries_total lib es (nothing lib) h.decodes in
      let t = Tracks-Offers lib es s loaded in
      rw loaded (longest_chain-HoldsChain es front tip s s.max_height h t t.highest)

  -- The first block index record that cannot be decoded ends the load with its error, and so does a
  -- database that cannot be opened.
  pub load_block_index_error :
      (es later : List (Entry lib)) (key value : Bytes) (x : OpError)
      → Decodes lib es
      → is_block_index_record key ≡ true
      → from lib value ≡ err x
      → (load_block_index lib (ok (es ++ (key, value) ∷ later)) ≡ err x)
        × (load_block_index lib (err x) ≡ err x)
  unfolding load_block_index
  load_block_index_error es later key value x d block bad =
      (rw (load_entries_error lib es later key value (nothing lib) x d block bad), refl)
