-- ===== src/IterConnected/Invariant/Update.antt =====
-- A block is read.
use bitcoin_query_py.Common.{
  ℕ, ◌≡◌, ◌≢◌, refl, sym, ap, ◌∙◌, List, ◌∷◌, some, ok, get_elem?, inl, inr,
}
use mathlib.Core.Option.{some_inj}
use bitcoin_query_py.Errors.{OpResult}
use bitcoin_query_py.Bitcoin.{Transactions}
use bitcoin_query_py.Outputs.{IsFresh}
use bitcoin_query_py.Outputs.Store.{OutputStore}
use bitcoin_query_py.IterConnected.{IsIn, update_unspent_cache}
use bitcoin_query_py.IterConnected.Chain.{IsAt, IsChain}
use bitcoin_query_py.IterConnected.Invariant.{State, IsServed, IsSound}

module _ (txs : Transactions) {TOut : Type 0} (into : txs.TxOut → TOut)
    (unspent : OutputStore txs into) (get_block : ℕ → OpResult txs.Block) (blocks : List txs.Block)
    (chain : IsChain txs blocks) (served : IsServed txs into unspent get_block blocks) where
  open txs use {Txid, Transaction, Block, txid, output, txdata}
  open unspent use {Store, content, IsValid, add, connect}

  update_unspent_cache-add :
      (s left : Store) (h : ℕ) (block : Block)
      → get_elem? blocks h ≡ some block
      → add s (txdata block) ≡ ok left
      → update_unspent_cache txs into unspent get_block s h ≡ ok (block, left)
  unfolding update_unspent_cache
  update_unspent_cache-add s left h block known runs =
      rw (served h block known, update_unspent_cache, runs) refl

  at :
      (h i : ℕ) (tx : Transaction) (block : Block)
      → get_elem? blocks h ≡ some block
      → get_elem? (txdata block) i ≡ some tx
      → IsAt txs blocks h tx
  at h i tx block known here = record { block = block; known = known; place = i; here = here }

  -- A block that has not been read is read, whatever has been done before, and the state stays sound.
  pub update-IsSound :
      (s : State txs into unspent get_block blocks) (h : ℕ) (block : Block)
      → IsSound txs into unspent get_block blocks s
      → get_elem? blocks h ≡ some block
      → ¬ IsIn s.read h
      → (left : Store) × (update_unspent_cache txs into unspent get_block s.store h
          ≡ ok (block, left))
        × IsSound txs into unspent get_block blocks (record s { store = left; read = h ∷ s.read })
  update-IsSound s h block sound known absent =
      let new : IsFresh txs (content s.store) (txdata block) =
        λ i tx n here. sound.fresh h tx n (at h i tx block known here) absent in
      let (left, runs, valid, added) =
        unspent.add_lem s.store (txdata block) sound.valid new (chain.few h block known) in
      let elsewhere : (i : ℕ) (tx : Transaction) (n : ℕ)
          → IsAt txs blocks i tx
          → h ≢ i
          → content left (txid tx) n ≡ content s.store (txid tx) n =
        λ i tx n is_at other.
          added.others (txid tx) n (λ j y here same.
            other (chain.ids h i y tx (at h j y block known here) is_at same).0) in
      (
        left,
        update_unspent_cache-add s.store left h block known runs,
        record {
          valid = valid;
          fresh = λ i tx n is_at unread.
              elsewhere i tx n is_at (λ e. unread (inl e))
              ∙ sound.fresh i tx n is_at (λ h. unread (inr h));
          present = λ i tx n is_at read unspent_yet. elim read [
            | inl same ↦
                let block_is : block ≡ is_at.block =
                  some_inj.0 (sym known ∙ ap (get_elem? blocks) same ∙ is_at.known) in
                added.added is_at.place tx n (rw (← block_is) at is_at.here)
                  (λ j y here e. (chain.ids h i y tx (at h j y block known here) is_at e).1)
            | inr before ↦
                elsewhere i tx n is_at (λ e. absent (rw (← e) at before))
                ∙ sound.present i tx n is_at before unspent_yet
          ];
          gone = λ i t n done spent.
              let (j, tx, o, below, is_at, id, _) = chain.made i t n spent in
              let other : h ≢ j = λ e. absent (rw (← e) at (sound.ready i j done below)) in
              rw (← id) (elsewhere j tx n is_at other ∙ rw (← id) at (sound.gone i t n done spent));
          foreign = λ t n none_here.
              added.others t n (λ j y here. none_here h y (at h j y block known here))
              ∙ sound.foreign t n none_here;
          ready = λ i j done below. inr (sound.ready i j done below);
          results = sound.results;
        },
      )
