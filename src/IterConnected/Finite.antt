-- ===== src/IterConnected/Finite.antt =====
-- How many steps a run of the worker threads has.
use bitcoin_query_py.Common.{
  ℕ, suc, ◌+◌, ◌*◌, ◌≡◌, ◌≤◌, ◌<◌, refl, arith, List, [], ◌∷◌, length, inl, inr,
}
use bitcoin_query_py.Common.Distinct.{IsDistinct, length-le_of_below, length-ge_of_all}
use bitcoin_query_py.Errors.{OpResult}
use bitcoin_query_py.Bitcoin.{Transactions}
use bitcoin_query_py.Outputs.Store.{OutputStore}
use bitcoin_query_py.IterConnected.{
  IsIn, Threads, IsConnected, update, connect_block, Reach, begin, then_, start,
}

module _ (txs : Transactions) {TOut : Type 0} (into : txs.TxOut → TOut)
    (unspent : OutputStore txs into) (get_block : ℕ → OpResult txs.Block) (end : ℕ) where
  -- The number of steps that lead to a state.
  unfoldable pub count_steps :
      {s : Threads txs into unspent get_block} → Reach txs into unspent get_block end s → ℕ
  count_steps begin = 0
  count_steps (then_ before step) = suc (count_steps before)

  heights : List (ℕ × List (List TOut)) → List ℕ
  heights [] = []
  heights ((h, outs) ∷ rest) = h ∷ heights rest

  heights-IsConnected :
      (cs : List (ℕ × List (List TOut))) (h : ℕ)
      → IsIn (heights cs) h
      → IsConnected txs into unspent get_block cs h
  unfolding heights
  heights-IsConnected [] h k = k
  heights-IsConnected ((i, outs) ∷ rest) h (inl p) = inl p
  heights-IsConnected ((i, outs) ∷ rest) h (inr k) = inr (heights-IsConnected rest h k)

  IsConnected-heights :
      (cs : List (ℕ × List (List TOut))) (h : ℕ)
      → IsConnected txs into unspent get_block cs h
      → IsIn (heights cs) h
  unfolding heights
  IsConnected-heights [] h k = k
  IsConnected-heights ((i, outs) ∷ rest) h (inl p) = inl p
  IsConnected-heights ((i, outs) ∷ rest) h (inr k) = inr (IsConnected-heights rest h k)

  length-heights : (cs : List (ℕ × List (List TOut))) → length (heights cs) ≡ length cs
  unfolding heights
  length-heights [] = refl
  length-heights ((h, outs) ∷ rest) = omega (arith, length-heights rest)

  record IsCounted (s : Threads txs into unspent get_block) (steps : ℕ) : Type 0 where
    counted : steps ≡ length s.read + length s.connected
    read_once : IsDistinct s.read
    read_below : (h : ℕ) → IsIn s.read h → h < end
    connected_once : IsDistinct (heights s.connected)
    connected_below : (h : ℕ) → IsIn (heights s.connected) h → h < end

  Reach-IsCounted :
      {s : Threads txs into unspent get_block} (reached : Reach txs into unspent get_block end s)
      → IsCounted s (count_steps reached)
  unfolding count_steps heights start
  Reach-IsCounted begin = record {
    counted = omega arith;
    read_once = tt;
    read_below = λ h k. absurd k;
    connected_once = tt;
    connected_below = λ h k. absurd k;
  }
  Reach-IsCounted (then_ before (update s h block left within absent runs)) =
      let old = Reach-IsCounted before in
      record {
        counted = omega (arith, old.counted);
        read_once = (absent, old.read_once);
        read_below =
            λ i k. elim k [ inl p ↦ omega (arith, p) | inr later ↦ old.read_below i later ];
        connected_once = old.connected_once;
        connected_below = old.connected_below;
      }
  Reach-IsCounted (then_ before (connect_block s h block outs left within ready absent got runs)) =
      let old = Reach-IsCounted before in
      record {
        counted = omega (arith, old.counted);
        read_once = old.read_once;
        read_below = old.read_below;
        connected_once = ((λ k. absent (heights-IsConnected s.connected h k)), old.connected_once);
        connected_below =
            λ i k. elim k [ inl p ↦ omega (arith, p) | inr later ↦ old.connected_below i later ];
      }

  pub count_steps-le :
      {s : Threads txs into unspent get_block} (reached : Reach txs into unspent get_block end s)
      → count_steps reached ≤ 2 * end
  count_steps-le {s} reached =
      let counted = Reach-IsCounted reached in
      omega (
        arith,
        counted.counted,
        length-heights s.connected,
        length-le_of_below end s.read counted.read_once counted.read_below,
        length-le_of_below end (heights s.connected) counted.connected_once counted.connected_below,
      )

  pub count_steps-ge :
      {s : Threads txs into unspent get_block} (reached : Reach txs into unspent get_block end s)
      → ((h : ℕ) → h < end → IsIn s.read h)
      → ((h : ℕ) → h < end → IsConnected txs into unspent get_block s.connected h)
      → 2 * end ≤ count_steps reached
  count_steps-ge {s} reached all_read all_connected = omega (
    arith,
    (Reach-IsCounted reached).counted,
    length-heights s.connected,
    length-ge_of_all end s.read all_read,
    length-ge_of_all end (heights s.connected)
        (λ h low. IsConnected-heights s.connected h (all_connected h low)),
  )
