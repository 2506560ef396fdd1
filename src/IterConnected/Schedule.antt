-- ===== src/IterConnected/Schedule.antt =====
-- Every order of the steps of the worker threads, with either store.
use bitcoin_query_py.Common.{
  ℕ, ◌≡◌, ◌≤◌, ◌<◌, sym, ap, ◌∙◌, subst, List, [], ◌∷◌, some, length, get_elem?, get_elem?-some,
  All-get_elem?, inl, inr, arith, ok-injective, ℕ_discrete,
}
use mathlib.Core.Option.{some_inj}
use bitcoin_query_py.Common.Distinct.{is_in}
use bitcoin_query_py.Errors.{OpResult}
use bitcoin_query_py.Bitcoin.{Transactions}
use bitcoin_query_py.Outputs.{outputs_of_block}
use bitcoin_query_py.Outputs.Store.{OutputStore}
use bitcoin_query_py.IterConnected.{
  IsIn, Threads, IsConnected, Step, update, connect_block, Reach, begin, then_,
}
use bitcoin_query_py.IterConnected.Chain.{IsChain, all_outputs}
use bitcoin_query_py.IterConnected.Invariant.{IsServed, IsResult, IsSound, start-IsSound}
use bitcoin_query_py.IterConnected.Invariant.Update.{update-IsSound}
use bitcoin_query_py.IterConnected.Invariant.Connect.{connect-IsSound}

module _ (txs : Transactions) {TOut : Type 0} (into : txs.TxOut → TOut)
    (get_block : ℕ → OpResult txs.Block) (blocks : List txs.Block)
    (chain : IsChain txs blocks) where
  open txs use {Block, txdata}

  module _ (unspent : OutputStore txs into)
      (served : IsServed txs into unspent get_block blocks) where
    pub is_connected :
        (cs : List (ℕ × List (List TOut))) (h : ℕ)
        → Dec (IsConnected txs into unspent get_block cs h)
    is_connected [] h = no (λ k. k)
    is_connected ((i, outs) ∷ cs) h = elim (ℕ_discrete i h) [
      | yes p ↦ yes (inl p)
      | no n ↦ elim (is_connected cs h) [
        | yes later ↦ yes (inr later)
        | no m ↦ no (λ k. elim k [ inl p ↦ n p | inr later ↦ m later ])
      ]
    ]

    Step-IsSound :
        {s t : Threads txs into unspent get_block}
        → Step txs into unspent get_block (length blocks) s t
        → IsSound txs into unspent get_block blocks s
        → IsSound txs into unspent get_block blocks t
    Step-IsSound (update s h block left within absent runs) sound =
        let (known_block, known) = get_elem?-some blocks h within in
        let (left', runs', next) =
          update-IsSound txs into unspent get_block blocks chain served s h known_block sound known
            absent in
        let same : left' ≡ left = ap (λ p. p.1) (ok-injective (sym runs' ∙ runs)) in
        subst
          (λ u.
            IsSound txs into unspent get_block blocks (record s { store = u; read = h ∷ s.read }))
          same next
    Step-IsSound (connect_block s h block outs left within ready absent got runs) sound =
        let (known_block, known) = get_elem?-some blocks h within in
        let block_is : known_block ≡ block =
          ok-injective (sym (served h known_block known) ∙ got) in
        let (left', runs', next) =
          connect-IsSound txs into unspent get_block blocks chain s h known_block sound known ready
            absent in
        let same =
          ok-injective (sym runs' ∙ ap (λ b. unspent.connect s.store (txdata b)) block_is ∙ runs) in
        subst
          (λ p.
            IsSound txs into unspent get_block blocks
              (record s { store = p.1; connected = (h, p.0) ∷ s.connected }))
          same next

    -- On a chain whose blocks are all readable, whatever the order of the steps: the store has exactly
    -- the outputs of the blocks that have been read and that no connected block spends, and each
    -- connected block has the outputs that it spends, as the chain made them.
    pub Reach-IsSound :
        {s : Threads txs into unspent get_block}
        → Reach txs into unspent get_block (length blocks) s
        → IsSound txs into unspent get_block blocks s
    Reach-IsSound begin = start-IsSound txs into unspent get_block blocks
    Reach-IsSound (then_ before step) = Step-IsSound step (Reach-IsSound before)

    -- A block that has not been read can be read next.
    pub update-Step :
        {s : Threads txs into unspent get_block} (h : ℕ)
        → Reach txs into unspent get_block (length blocks) s
        → h < length blocks
        → ¬ IsIn s.read h
        → (t : Threads txs into unspent get_block) × Step txs into unspent get_block
            (length blocks)
            s
            t
    update-Step {s} h reached within absent =
        let (block, known) = get_elem?-some blocks h within in
        let (left, runs, _) =
          update-IsSound txs into unspent get_block blocks chain served s h block
            (Reach-IsSound reached) known absent in
        (_, update s h block left within absent runs)

    -- A block that has not been connected can be connected next, when all blocks have been read.
    pub connect-Step :
        {s : Threads txs into unspent get_block} (h : ℕ)
        → Reach txs into unspent get_block (length blocks) s
        → h < length blocks
        → ((i : ℕ) → i < length blocks → IsIn s.read i)
        → ¬ IsConnected txs into unspent get_block s.connected h
        → (t : Threads txs into unspent get_block) × Step txs into unspent get_block
            (length blocks)
            s
            t
    connect-Step {s} h reached within all_read absent =
        let (block, known) = get_elem?-some blocks h within in
        let ready : (i : ℕ) → i ≤ h → IsIn s.read i = λ i below. all_read i (omega arith) in
        let (left, runs, _) =
          connect-IsSound txs into unspent get_block blocks chain s h block (Reach-IsSound reached)
            known ready absent in
        (_, connect_block s h block _ left within ready absent (served h block known) runs)

    -- On a chain whose blocks are all readable, no order of the steps leads to a dead end: as long as a
    -- block has not been read or has not been connected, there is a next step.
    pub Reach-progress :
        {s : Threads txs into unspent get_block} (h : ℕ)
        → Reach txs into unspent get_block (length blocks) s
        → h < length blocks
        → ((t : Threads txs into unspent get_block)
            → ¬ Step txs into unspent get_block (length blocks) s t)
        → IsIn s.read h × IsConnected txs into unspent get_block s.connected h
    Reach-progress {s} h reached within stuck =
        let all_read : (i : ℕ) → i < length blocks → IsIn s.read i = λ i inside.
          elim (is_in s.read i) [
            | yes done ↦ done
            | no absent ↦
                let (t, step) = update-Step i reached inside absent in absurd (stuck t step)
          ] in
        (
          all_read h within,
          elim (is_connected s.connected h) [
            | yes done ↦ done
            | no absent ↦
                let (t, step) = connect-Step h reached within all_read absent in
                absurd (stuck t step)
          ],
        )

  -- On a chain whose blocks are all readable, two runs, in whatever order and each with a store of
  -- its own, connect a block to the same outputs.
  pub Reach-agree :
      (one two : OutputStore txs into) {s : Threads txs into one get_block}
      {t : Threads txs into two get_block} (h i j : ℕ) {outs others : List (List TOut)}
      → IsServed txs into one get_block blocks
      → Reach txs into one get_block (length blocks) s
      → Reach txs into two get_block (length blocks) t
      → get_elem? s.connected i ≡ some (h, outs)
      → get_elem? t.connected j ≡ some (h, others)
      → outs ≡ others
  Reach-agree one two {s} {t} h i j served first second here there =
      let (block, known, is) =
        All-get_elem? (IsResult txs into one get_block blocks) s.connected i
          (Reach-IsSound one served first).results here in
      let (block', known', is') =
        All-get_elem? (IsResult txs into two get_block blocks) t.connected j
          (Reach-IsSound two served second).results there in
      let same : block ≡ block' = some_inj.0 (sym known ∙ known') in
      is ∙ ap (λ b. outputs_of_block txs (all_outputs txs into blocks) (txdata b)) same ∙ sym is'
