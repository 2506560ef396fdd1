-- ===== src/IterConnected/Invariant/Connect.antt =====
-- A block is connected.
use bitcoin_query_py.Common.{
  ℕ, ◌≡◌, ◌≤◌, refl, sym, ap, ◌∙◌, subst, List, ◌∷◌, some, ok, get_elem?, inl, inr,
}
use mathlib.Core.Option
use mathlib.Core.Option.{some_inj}
use bitcoin_query_py.Errors.{OpResult}
use bitcoin_query_py.Bitcoin.{Transactions}
use bitcoin_query_py.Outputs.{Spends, inputs_of, outputs_of_block}
use bitcoin_query_py.Outputs.Inputs.{outputs_of_block-agree}
use bitcoin_query_py.Outputs.Store.{OutputStore}
use bitcoin_query_py.IterConnected.{IsIn}
use bitcoin_query_py.IterConnected.Chain.{SpentBy, IsChain, all_outputs, IsChain-all_outputs}
use bitcoin_query_py.IterConnected.Invariant.{State, ConnectedAt, IsSound}

module _ (txs : Transactions) {TOut : Type 0} (into : txs.TxOut → TOut)
    (unspent : OutputStore txs into) (get_block : ℕ → OpResult txs.Block) (blocks : List txs.Block)
    (chain : IsChain txs blocks) where
  open txs use {Txid, Transaction, Block, txid, output, txdata}
  open unspent use {Store, content, IsValid, add, connect}

  -- What a block spends is in the store when all blocks up to its height have been read and it has
  -- not been connected: it is the output of the chain.
  spent-present :
      (s : State txs into unspent get_block blocks) (h : ℕ) (t : Txid) (n : ℕ)
      → IsSound txs into unspent get_block blocks s
      → ((i : ℕ) → i ≤ h → IsIn s.read i)
      → ¬ ConnectedAt txs into unspent get_block blocks s.connected h
      → SpentBy txs blocks h t n
      → (out : TOut) × (content s.store t n ≡ some out)
        × (all_outputs txs into blocks t n ≡ some out)
  spent-present s h t n sound ready absent spent =
      let (i, tx, o, below, is_at, id, found) = chain.made h t n spent in
      let alone : (j : ℕ)
          → ConnectedAt txs into unspent get_block blocks s.connected j
          → ¬ SpentBy txs blocks j (txid tx) n =
        λ j done again. absent (
          subst (ConnectedAt txs into unspent get_block blocks s.connected)
            (chain.apart j h t n (rw id at again) spent) done) in
      let there = sound.present i tx n is_at (ready i below) alone in
      (
        into o,
        rw (← id) (there ∙ ap (Option.map into) found),
        rw (← id) (IsChain-all_outputs txs into blocks i tx n chain is_at found),
      )

  -- A block that has not been connected is connected once all blocks up to its height have been read,
  -- with the outputs that it spends, and the state stays sound.
  pub connect-IsSound :
      (s : State txs into unspent get_block blocks) (h : ℕ) (block : Block)
      → IsSound txs into unspent get_block blocks s
      → get_elem? blocks h ≡ some block
      → ((i : ℕ) → i ≤ h → IsIn s.read i)
      → ¬ ConnectedAt txs into unspent get_block blocks s.connected h
      → (left : Store) × (connect s.store (txdata block)
          ≡ ok (outputs_of_block txs (all_outputs txs into blocks) (txdata block), left))
        × IsSound txs into unspent get_block blocks (record s {
          store = left;
          connected =
              (h, outputs_of_block txs (all_outputs txs into blocks) (txdata block)) ∷ s.connected;
        })
  connect-IsSound s h block sound known ready absent =
      let here : (t : Txid) (n : ℕ)
          → Spends txs (inputs_of txs (txdata block)) t n
          → (out : TOut) × (content s.store t n ≡ some out)
            × (all_outputs txs into blocks t n ≡ some out) =
        λ t n spends. spent-present s h t n sound ready absent (block, known, spends) in
      let (left, runs, valid, taken) =
        unspent.connect_lem s.store (txdata block) sound.valid (chain.once h block known)
          (λ t n spends. let (out, there, _) = here t n spends in (out, there)) in
      let same =
        outputs_of_block-agree txs (content s.store) (all_outputs txs into blocks) (txdata block)
          (λ t n spends. let (out, there, made) = here t n spends in there ∙ sym made) in
      (
        left,
        rw (← same) runs,
        record {
          valid = valid;
          fresh = λ i tx n is_at unread.
              taken.others (txid tx) n (λ spends.
                let (j, y, o, below, y_at, id, _) =
                  chain.made h (txid tx) n (block, known, spends) in
                let level = (chain.ids j i y tx y_at is_at id).0 in
                unread (rw level at (ready j below)))
              ∙ sound.fresh i tx n is_at unread;
          present = λ i tx n is_at read unspent_yet.
              taken.others (txid tx) n (λ spends. unspent_yet h (inl refl) (block, known, spends))
              ∙ sound.present i tx n is_at read (λ j done. unspent_yet j (inr done));
          gone = λ i t n done spent. elim done [
            | inl same ↦ taken.gone t n (
                let (b, k, spends) = spent in
                rw (some_inj.0 (sym k ∙ ap (get_elem? blocks) (sym same) ∙ known)) at spends)
            | inr before ↦
                taken.others t n (λ spends. absent (
                  subst (ConnectedAt txs into unspent get_block blocks s.connected)
                    (chain.apart i h t n spent (block, known, spends)) before))
                ∙ sound.gone i t n before spent
          ];
          foreign = λ t n none_here.
              taken.others t n (λ spends.
                let (j, y, o, below, y_at, id, _) = chain.made h t n (block, known, spends) in
                none_here j y y_at id)
              ∙ sound.foreign t n none_here;
          ready = λ i j done below. elim done [
            | inl same ↦ ready j (rw (← same) at below)
            | inr before ↦ sound.ready i j before below
          ];
          results = ((block, known, refl), sound.results);
        },
      )
