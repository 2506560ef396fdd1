-- ===== src/IterConnected/Failure.antt =====
-- A block that cannot be read ends the iteration in front of it.
use bitcoin_query_py.Common.{ℕ, ◌≡◌, ◌≢◌, ◌≤◌, ok, Result-cases, inl, inr}
use bitcoin_query_py.Errors.{OpResult}
use bitcoin_query_py.Bitcoin.{Transactions}
use bitcoin_query_py.Outputs.Store.{OutputStore}
use bitcoin_query_py.IterConnected.{
  IsIn, update_unspent_cache, Threads, IsConnected, update, connect_block, Reach, begin, then_,
  start,
}

module _ (txs : Transactions) {TOut : Type 0} (into : txs.TxOut → TOut)
    (unspent : OutputStore txs into) (get_block : ℕ → OpResult txs.Block) (end : ℕ) where
  -- What has been read is a block, and a block is connected above blocks that have been read.
  pub record IsOrdered (s : Threads txs into unspent get_block) : Type 0 where
    pub blocks : (i : ℕ) → IsIn s.read i → (block : txs.Block) × (get_block i ≡ ok block)
    pub below :
        (h i : ℕ) → IsConnected txs into unspent get_block s.connected h → i ≤ h → IsIn s.read i

  update-ok :
      (s left : unspent.Store) (h : ℕ) (block : txs.Block)
      → update_unspent_cache txs into unspent get_block s h ≡ ok (block, left)
      → (got : txs.Block) × (get_block h ≡ ok got)
  unfolding update_unspent_cache
  update-ok s left h block runs = elim (Result-cases (get_block h)) [
    | inl got ↦ got
    | inr (inl (_, e)) ↦ absurd (cc (rw (e, update_unspent_cache) at runs))
    | inr (inr (_, e)) ↦ absurd (cc (rw (e, update_unspent_cache) at runs))
  ]

  Reach-IsOrdered :
      {s : Threads txs into unspent get_block}
      → Reach txs into unspent get_block end s
      → IsOrdered s
  unfolding start
  Reach-IsOrdered begin = record { blocks = λ i h. absurd h; below = λ h i done. absurd done }
  Reach-IsOrdered (then_ before (update s h block left within absent runs)) =
      let old = Reach-IsOrdered before in
      record {
        blocks = λ i read. elim read [
          | inl same ↦ rw (← same) (update-ok s.store left h block runs)
          | inr earlier ↦ old.blocks i earlier
        ];
        below = λ k i done under. inr (old.below k i done under);
      }
  Reach-IsOrdered (then_ before (connect_block s h block outs left within ready absent got runs)) =
      let old = Reach-IsOrdered before in
      record {
        blocks = old.blocks;
        below = λ k i done under. elim done [
          | inl same ↦ ready i (rw (← same) at under)
          | inr earlier ↦ old.below k i earlier under
        ];
      }

  -- Whatever the order of the steps: if a block cannot be read, neither it nor a block above it is ever
  -- connected.
  pub Reach-stops :
      {s : Threads txs into unspent get_block} (bad h : ℕ)
      → Reach txs into unspent get_block end s
      → ((block : txs.Block) → get_block bad ≢ ok block)
      → bad ≤ h
      → ¬ IsConnected txs into unspent get_block s.connected h
  Reach-stops bad h reached unreadable above done =
      let ordered = Reach-IsOrdered reached in
      let (block, got) = ordered.blocks bad (ordered.below h bad done above) in unreadable block got
