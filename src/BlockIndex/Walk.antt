-- ===== src/BlockIndex/Walk.antt =====
-- The walk from the highest block down: what it takes out of the map.
use bitcoin_query_py.Common.{
  ℕ, zero, suc, ◌≡◌, refl, sym, ap, ◌∙◌, arith, List, [], ◌∷◌, ◌++◌, reverse, some, length,
  length-append, get_elem?, get_elem?-lt, inl, inr, ok, Option-cases, Bool-cases, ok-injective,
  get_elem?-snoc, reverse-cons,
}
use mathlib.Core.List.{append_assoc, append-nil}
use bitcoin_query_py.Common.Int.{pos, eqb_ℤ, eqb_ℤ_iff}
use bitcoin_query_py.Common.Maps.{get, delete, get-delete_self, get-delete_ne}
use bitcoin_query_py.Bitcoin.{Headers}
use bitcoin_query_py.BlockIndex.{Record, build_chain}
use bitcoin_query_py.BlockIndex.Chain.{IsChain, EndsAt, IsChain-nil, IsChain-snoc}

module _ (lib : Headers) where
  open lib use {BlockHash, hash_discrete, block_hash, prev_blockhash}

  abbrev pub Map : Type 0
  Map = List (BlockHash × Record lib)

  -- The blocks of `n` rounds from `hash` on, highest first: each is in the map under the hash asked
  -- for and leaves it, has the height of its round, and its parent is asked for next.
  abbrev pub DownFrom : ℕ → BlockHash → Map → List (Record lib) → Type 0
  DownFrom zero hash m [] = Unit
  DownFrom zero hash m (r ∷ rs) = ⊥
  DownFrom (suc n) hash m [] = ⊥
  DownFrom (suc n) hash m (r ∷ rs) =
      (get hash_discrete hash m ≡ some r)
      × (r.n_height ≡ pos n)
      × DownFrom n (prev_blockhash r.block_header) (delete hash_discrete hash m) rs

  build_chain-suc :
      (n : ℕ) (hash : BlockHash) (m : Map) (out : List (Record lib)) {r : Record lib}
      → get hash_discrete hash m ≡ some r
      → r.n_height ≡ pos n
      → build_chain lib (suc n) hash m out
        ≡ build_chain lib n
            (prev_blockhash r.block_header)
            (delete hash_discrete hash m)
            (out ++ r ∷ [])
  unfolding build_chain
  build_chain-suc n hash m out {r} found height =
      rw (found, build_chain) (rw ((eqb_ℤ_iff (pos n) r.n_height).1 (sym height)) refl)

  -- The walk returns once every block that it asks for is there at its height.
  pub build_chain-DownFrom :
      (n : ℕ) (hash : BlockHash) (m : Map) (out rs : List (Record lib))
      → DownFrom n hash m rs
      → build_chain lib n hash m out ≡ ok (out ++ rs)
  unfolding build_chain
  build_chain-DownFrom zero hash m out [] d = ap ok (sym (append-nil out))
  build_chain-DownFrom zero hash m out (r ∷ rs) d = absurd d
  build_chain-DownFrom (suc n) hash m out [] d = absurd d
  build_chain-DownFrom (suc n) hash m out (r ∷ rs) (found, height, below) =
      build_chain-suc n hash m out found height
      ∙ build_chain-DownFrom n _ _ (out ++ r ∷ []) rs below
      ∙ ap ok (append_assoc out (r ∷ []) rs)

  build_chain_round :
      (n : ℕ) (hash : BlockHash) (m : Map) (out built : List (Record lib))
      → build_chain lib (suc n) hash m out ≡ ok built
      → (r : Record lib) × (get hash_discrete hash m ≡ some r) × (r.n_height ≡ pos n)
  unfolding build_chain
  build_chain_round n hash m out built e = elim (Option-cases (get hash_discrete hash m)) [
    | inl missing ↦ absurd (cc (rw (missing, build_chain) at e))
    | inr (r, found) ↦ elim (Bool-cases (eqb_ℤ (pos n) r.n_height)) [
      | inl same ↦ (r, found, sym ((eqb_ℤ_iff (pos n) r.n_height).0 same))
      | inr other ↦ absurd (cc (rw (other) at (rw (found, build_chain) at e)))
    ]
  ]

  -- And only then: a walk that returns has taken such blocks.
  pub DownFrom-build_chain :
      (n : ℕ) (hash : BlockHash) (m : Map) (out built : List (Record lib))
      → build_chain lib n hash m out ≡ ok built
      → (rs : List (Record lib)) × DownFrom n hash m rs × (built ≡ out ++ rs)
  unfolding build_chain
  DownFrom-build_chain zero hash m out built e =
      ([], tt, sym (ok-injective e) ∙ sym (append-nil out))
  DownFrom-build_chain (suc n) hash m out built e =
      let (r, found, height) = build_chain_round n hash m out built e in
      let (rs, below, whole) =
        DownFrom-build_chain n (prev_blockhash r.block_header) (delete hash_discrete hash m)
          (out ++ r ∷ []) built (sym (build_chain-suc n hash m out found height) ∙ e) in
      (r ∷ rs, (found, height, below), whole ∙ append_assoc out (r ∷ []) rs)

  -- Every entry stands under the hash of its own header.
  abbrev pub IsKeyed : Map → Type 0
  IsKeyed m =
      (k : BlockHash) (r : Record lib)
      → get hash_discrete k m ≡ some r
      → block_hash r.block_header ≡ k

  pub get_of_delete :
      (m : Map) (h k : BlockHash) (r : Record lib)
      → get hash_discrete k (delete hash_discrete h m) ≡ some r
      → get hash_discrete k m ≡ some r
  get_of_delete m h k r e = elim (hash_discrete h k) [
    | yes p ↦ absurd (cc (rw p at e, get-delete_self hash_discrete k m))
    | no n ↦ sym (get-delete_ne hash_discrete h k m n) ∙ e
  ]

  IsKeyed-delete : (m : Map) (h : BlockHash) → IsKeyed m → IsKeyed (delete hash_discrete h m)
  IsKeyed-delete m h keyed k r e = keyed k r (get_of_delete m h k r e)

  -- What a walk gives, lowest block first.
  pub record IsWalk (n : ℕ) (hash : BlockHash) (m : Map) (rs : List (Record lib)) : Type 0 where
    pub chain : IsChain lib rs
    pub size : length rs ≡ n
    pub ends : EndsAt lib rs hash
    pub held :
        (i : ℕ) (r : Record lib)
        → get_elem? rs i ≡ some r
        → get hash_discrete (block_hash r.block_header) m ≡ some r

  IsWalk-snoc :
      (n : ℕ) (hash : BlockHash) (m : Map) (rs : List (Record lib)) (r : Record lib)
      → IsKeyed m
      → get hash_discrete hash m ≡ some r
      → r.n_height ≡ pos n
      → IsWalk n (prev_blockhash r.block_header) (delete hash_discrete hash m) rs
      → IsWalk (suc n) hash m (rs ++ r ∷ [])
  IsWalk-snoc n hash m rs r keyed found height w = record {
    chain = IsChain-snoc lib rs r w.chain w.ends (height ∙ ap pos (sym w.size));
    size = omega (arith, length-append rs (r ∷ []), w.size);
    ends = λ i s last h. elim (get_elem?-snoc rs r i h) [
      | inl p ↦ absurd (omega (arith, get_elem?-lt rs i p, length-append rs (r ∷ [])))
      | inr (_, q) ↦ rw (← q) (keyed hash r found)
    ];
    held = λ i s h. elim (get_elem?-snoc rs r i h) [
      | inl p ↦ get_of_delete m hash _ s (w.held i s p)
      | inr (_, q) ↦ rw (← q) (rw (keyed hash r found) found)
    ];
  }

  pub DownFrom-IsWalk :
      (n : ℕ) (hash : BlockHash) (m : Map) (rs : List (Record lib))
      → IsKeyed m
      → DownFrom n hash m rs
      → IsWalk n hash m (reverse rs)
  DownFrom-IsWalk zero hash m [] keyed d = record {
    chain = IsChain-nil lib;
    size = refl;
    ends = λ i r last h. absurd (omega arith);
    held = λ i r h. cc;
  }
  DownFrom-IsWalk zero hash m (r ∷ rs) keyed d = absurd d
  DownFrom-IsWalk (suc n) hash m [] keyed d = absurd d
  DownFrom-IsWalk (suc n) hash m (r ∷ rs) keyed (found, height, below) = rw (reverse-cons r rs) (
      IsWalk-snoc n hash m (reverse rs) r keyed found height
        (DownFrom-IsWalk n _ _ rs (IsKeyed-delete m hash keyed) below))
