-- ===== src/IterConnected/Complete.antt =====
-- A run of the worker threads comes to an end, and not before all its work is done.
use bitcoin_query_py.Common.{
  ℕ, suc, ◌*◌, ◌≡◌, ◌<◌, ◌⊎◌, sym, ap, ◌∙◌, arith, List, [], ◌∷◌, some, length, get_elem?,
  get_elem?-lt, All-get_elem?, inl, inr,
}
use mathlib.Core.Option.{some_inj}
use bitcoin_query_py.Common.Distinct.{is_in, find_below}
use bitcoin_query_py.Errors.{OpResult}
use bitcoin_query_py.Bitcoin.{Transactions}
use bitcoin_query_py.Outputs.{outputs_of_block}
use bitcoin_query_py.Outputs.Store.{OutputStore}
use bitcoin_query_py.IterConnected.{IsIn, Threads, IsConnected, Step, Reach, then_}
use bitcoin_query_py.IterConnected.Chain.{IsChain, all_outputs}
use bitcoin_query_py.IterConnected.Invariant.{IsServed, IsResult}
use bitcoin_query_py.IterConnected.Schedule.{Reach-IsSound, update-Step, connect-Step, is_connected}
use bitcoin_query_py.IterConnected.Finite.{count_steps, count_steps-le, count_steps-ge}

module _ (txs : Transactions) {TOut : Type 0} (into : txs.TxOut → TOut)
    (get_block : ℕ → OpResult txs.Block) (blocks : List txs.Block) (chain : IsChain txs blocks)
    (unspent : OutputStore txs into) (served : IsServed txs into unspent get_block blocks) where
  open txs use {Block, txdata}

  IsConnected-get_elem? :
      (cs : List (ℕ × List (List TOut))) (h : ℕ)
      → IsConnected txs into unspent get_block cs h
      → (i : ℕ) × (outs : List (List TOut)) × (get_elem? cs i ≡ some (h, outs))
  IsConnected-get_elem? [] h k = absurd k
  IsConnected-get_elem? ((j, outs) ∷ rest) h (inl p) = (0, outs, ap (λ x. some (x, outs)) p)
  IsConnected-get_elem? ((j, _) ∷ rest) h (inr k) =
      let (i, outs, there) = IsConnected-get_elem? rest h k in (suc i, outs, there)

  -- Every block of the chain has been connected, to the outputs that it spends.
  abbrev pub IsDone : Threads txs into unspent get_block → Type 0
  IsDone s =
      (h : ℕ) (block : Block)
      → get_elem? blocks h ≡ some block
      → (i : ℕ) × (get_elem? s.connected i
          ≡ some (h, outputs_of_block txs (all_outputs txs into blocks) (txdata block)))

  all_connected-IsDone :
      {s : Threads txs into unspent get_block}
      → Reach txs into unspent get_block (length blocks) s
      → ((h : ℕ) → h < length blocks → IsConnected txs into unspent get_block s.connected h)
      → IsDone s
  all_connected-IsDone {s} reached all h block known =
      let (i, outs, there) =
        IsConnected-get_elem? s.connected h (all h (get_elem?-lt blocks h known)) in
      let (known_block, at, is) =
        All-get_elem? (IsResult txs into unspent get_block blocks) s.connected i
          (Reach-IsSound txs into get_block blocks chain unspent served reached).results there in
      let same = some_inj.0 (sym at ∙ known) in
      (
        i,
        there
            ∙ ap (λ o. some (h, o)) is
            ∙ ap (λ b. some (h, outputs_of_block txs (all_outputs txs into blocks) (txdata b)))
                same,
      )

  step-lt :
      {s t : Threads txs into unspent get_block}
      (reached : Reach txs into unspent get_block (length blocks) s)
      → Step txs into unspent get_block (length blocks) s t
      → count_steps txs into unspent get_block (length blocks) reached < 2 * length blocks
  unfolding count_steps
  step-lt reached step =
      omega (arith, count_steps-le txs into unspent get_block (length blocks) (then_ reached step))

  -- On a chain whose blocks are all readable, whatever the order of the steps and whichever the store: a
  -- run has had fewer than two steps for each block, and there is a next one, or it has had two steps
  -- for each block, and has connected every block to the outputs that the block spends, as the chain
  -- made them.
  pub Reach-ends :
      {s : Threads txs into unspent get_block}
      (reached : Reach txs into unspent get_block (length blocks) s)
      → ((count_steps txs into unspent get_block (length blocks) reached < 2 * length blocks)
          × (t : Threads txs into unspent get_block) × Step txs into unspent get_block
              (length blocks)
              s
              t)
        ⊎ ((count_steps txs into unspent get_block (length blocks) reached ≡ 2 * length blocks)
            × IsDone s)
  Reach-ends {s} reached = elim (find_below (IsIn s.read) (is_in s.read) (length blocks)) [
    | inl (h, within, absent) ↦
        let (t, step) =
          update-Step txs into get_block blocks chain unspent served h reached within absent in
        inl (step-lt reached step, t, step)
    | inr all_read ↦
        elim (find_below (IsConnected txs into unspent get_block s.connected)
          (is_connected txs into get_block blocks chain unspent served s.connected)
          (length blocks)) [
            | inl (h, within, absent) ↦
                let (t, step) =
                  connect-Step txs into get_block blocks chain unspent served h reached within
                    all_read absent in
                inl (step-lt reached step, t, step)
            | inr all ↦ inr (
              omega (
                arith,
                count_steps-le txs into unspent get_block (length blocks) reached,
                count_steps-ge txs into unspent get_block (length blocks) reached all_read all,
              ),
              all_connected-IsDone reached all,
            )
          ]
  ]
