-- ===== src/IterConnected/Chain.antt =====
-- A chain of blocks in which each output is spent once, and after it was made.
use bitcoin_query_py.Common.{
  ℕ, zero, suc, ◌≡◌, ◌≤◌, refl, ap, ite, Option-cases, inl, inr, ◌⊎◌, List, [], ◌∷◌, Option, none,
  some, length, get_elem?, All,
}
use mathlib.Core.Option
use mathlib.Core.Logic.{if_pos, if_neg}
use mathlib.Core.Option.{some_inj}
use bitcoin_query_py.Common.Int.{IsU32}
use bitcoin_query_py.Bitcoin.{Transactions}
use bitcoin_query_py.Outputs.{OutputSet, IsOnly, Spends, SpendsOnce, inputs_of}

module _ (txs : Transactions) where
  open txs use {Txid, TxOut, Transaction, Block, txid, txid_discrete, output, txdata}

  module _ (blocks : List Block) where
    -- The transaction stands in the block of the height.
    pub record IsAt (h : ℕ) (tx : Transaction) : Type 0 where
      pub block : Block
      pub known : get_elem? blocks h ≡ some block
      pub place : ℕ
      pub here : get_elem? (txdata block) place ≡ some tx

    abbrev pub SpentBy : ℕ → Txid → ℕ → Type 0
    SpentBy h t n =
        (block : Block) × (get_elem? blocks h ≡ some block)
        × Spends txs (inputs_of txs (txdata block)) t n

    pub record IsChain : Type 0 where
      -- The outputs of a transaction have numbers in 32 bits.
      pub few :
          (h : ℕ) (block : Block)
          → get_elem? blocks h ≡ some block
          → All (λ tx. IsU32 (length (output tx))) (txdata block)
      -- Transactions of one id are one transaction, of one block.
      pub ids :
          (h i : ℕ) (tx other : Transaction)
          → IsAt h tx
          → IsAt i other
          → txid tx ≡ txid other
          → (h ≡ i) × (tx ≡ other)
      -- No two inputs spend one output, in a block and in different blocks.
      pub once :
          (h : ℕ) (block : Block)
          → get_elem? blocks h ≡ some block
          → SpendsOnce txs (inputs_of txs (txdata block))
      pub apart : (h i : ℕ) (t : Txid) (n : ℕ) → SpentBy h t n → SpentBy i t n → h ≡ i
      -- What is spent is an output of this block or of one below.
      pub made :
          (h : ℕ) (t : Txid) (n : ℕ)
          → SpentBy h t n
          → (i : ℕ) × (tx : Transaction) × (o : TxOut) × (i ≤ h)
            × IsAt i tx
            × (txid tx ≡ t)
            × (get_elem? (output tx) n ≡ some o)

  module _ {TOut : Type 0} (into : TxOut → TOut) where
    outputs_made : List Transaction → OutputSet txs TOut
    outputs_made [] t n = none
    outputs_made (tx ∷ rest) t n =
        ite (txid_discrete (txid tx) t) (Option.map into (get_elem? (output tx) n))
          (outputs_made rest t n)

    -- All outputs that the blocks make, whether they are spent or not.
    unfoldable pub all_outputs : List Block → OutputSet txs TOut
    unfolding outputs_made
    all_outputs [] t n = none
    all_outputs (block ∷ rest) t n = elim (outputs_made (txdata block) t n) [
      | none ↦ all_outputs rest t n
      | some out ↦ some out
    ]

    outputs_made-found :
        (ts : List Transaction) (tx : Transaction) (n i : ℕ) {o : TxOut}
        → IsOnly txs ts tx
        → get_elem? ts i ≡ some tx
        → get_elem? (output tx) n ≡ some o
        → outputs_made ts (txid tx) n ≡ some (into o)
    unfolding outputs_made
    outputs_made-found [] tx n i only at found = cc
    outputs_made-found (x ∷ rest) tx n zero only at found =
        rw (if_pos _ (ap txid (some_inj.0 at))) (rw (ap output (some_inj.0 at), found) refl)
    outputs_made-found (x ∷ rest) tx n (suc i) only at found =
        elim (txid_discrete (txid x) (txid tx)) [
          | yes p ↦ rw (if_pos _ p) (rw (ap output (only 0 x refl p), found) refl)
          | no ne ↦
              rw (if_neg _ ne) (outputs_made-found rest tx n i (λ j y h. only (suc j) y h) at found)
        ]

    outputs_made_cases :
        (ts : List Transaction) (tx : Transaction) (n : ℕ) {o : TxOut}
        → IsOnly txs ts tx
        → get_elem? (output tx) n ≡ some o
        → (outputs_made ts (txid tx) n ≡ none) ⊎ (outputs_made ts (txid tx) n ≡ some (into o))
    unfolding outputs_made
    outputs_made_cases [] tx n only found = inl refl
    outputs_made_cases (x ∷ rest) tx n only found = elim (txid_discrete (txid x) (txid tx)) [
      | yes p ↦ inr (rw (if_pos _ p) (rw (ap output (only 0 x refl p), found) refl))
      | no ne ↦ elim (outputs_made_cases rest tx n (λ j y h. only (suc j) y h) found) [
        | inl nothing ↦ inl (rw (if_neg _ ne) nothing)
        | inr out ↦ inr (rw (if_neg _ ne) out)
      ]
    ]

    all_outputs-found :
        (blocks : List Block) (h : ℕ) (tx : Transaction) (n : ℕ) {o : TxOut}
        → ((i : ℕ) (block : Block) → get_elem? blocks i ≡ some block → IsOnly txs (txdata block) tx)
        → IsAt blocks h tx
        → get_elem? (output tx) n ≡ some o
        → all_outputs blocks (txid tx) n ≡ some (into o)
    unfolding all_outputs
    all_outputs-found [] h tx n only at found = absurd (cc (at.known))
    all_outputs-found (block ∷ rest) zero tx n only at found =
        let first =
          outputs_made-found (txdata block) tx n at.place (only 0 block refl)
            (rw (← some_inj.0 at.known) at at.here) found in
        rw (first, all_outputs) refl
    all_outputs-found (block ∷ rest) (suc h) tx n {o} only at found =
        let later =
          all_outputs-found rest h tx n (λ i b k. only (suc i) b k)
            (record { block = at.block; known = at.known; place = at.place; here = at.here })
            found in
        elim (outputs_made_cases (txdata block) tx n (only 0 block refl) found) [
          | inl nothing ↦ rw (nothing, all_outputs) later
          | inr out ↦ rw (out, all_outputs) refl
        ]

    -- In a chain, what a transaction puts out is an output of the chain.
    pub IsChain-all_outputs :
        (blocks : List Block) (h : ℕ) (tx : Transaction) (n : ℕ) {o : TxOut}
        → IsChain blocks
        → IsAt blocks h tx
        → get_elem? (output tx) n ≡ some o
        → all_outputs blocks (txid tx) n ≡ some (into o)
    IsChain-all_outputs blocks h tx n chain at found =
        all_outputs-found blocks h tx n
          (λ i block known j other here same.
            (chain.ids i h other tx
              (record { block = block; known = known; place = j; here = here }) at same).1)
          at found

  module _ {TOut : Type 0} (into : TxOut → TOut) where
    kept : (o : Option TxOut) → Option.map into o ≡ Option.map into (Option.map (λ o. o) o)
    kept none = refl
    kept (some o) = refl

    chosen :
        {P : Type 0} (d : Dec P) (o : Option TxOut) (x : Option TOut) (y : Option TxOut)
        → x ≡ Option.map into y
        → ite d (Option.map into o) x ≡ Option.map into (ite d (Option.map (λ p. p) o) y)
    chosen (yes p) o x y same = kept o
    chosen (no n) o x y same = same

    outputs_made-converted :
        (ts : List Transaction) (t : Txid) (n : ℕ)
        → outputs_made into ts t n ≡ Option.map into (outputs_made (λ o. o) ts t n)
    unfolding outputs_made
    outputs_made-converted [] t n = refl
    outputs_made-converted (tx ∷ rest) t n =
        chosen (txid_discrete (txid tx) t) (get_elem? (output tx) n) _ _
          (outputs_made-converted rest t n)

    -- The outputs, converted, are the conversion of the outputs.
    pub all_outputs-converted :
        (blocks : List Block) (t : Txid) (n : ℕ)
        → all_outputs into blocks t n ≡ Option.map into (all_outputs (λ o. o) blocks t n)
    unfolding all_outputs
    all_outputs-converted [] t n = refl
    all_outputs-converted (block ∷ rest) t n =
        elim (Option-cases (outputs_made (λ o. o) (txdata block) t n)) [
          | inl nothing ↦
              rw (outputs_made-converted (txdata block) t n, nothing, all_outputs)
                (all_outputs-converted rest t n)
          | inr (o, made) ↦ rw (outputs_made-converted (txdata block) t n, made, all_outputs) refl
        ]
