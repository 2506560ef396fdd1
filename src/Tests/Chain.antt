-- ===== src/Tests/Chain.antt =====
-- A chain of two blocks, the second of which spends an output of the first.
use bitcoin_query_py.Common.{
  ℕ, zero, suc, ◌≡◌, refl, sym, ap, ◌∙◌, arith, List, [], ◌∷◌, ok, err, some, none, ℕ_discrete, inl,
  inr, ◌==◌, get_elem?, length, All, ◌⊎◌,
}
use mathlib.Core.Option.{some_inj}
use bitcoin_query_py.Common.Int.{IsU32}
use bitcoin_query_py.Errors.{OpResult, from_str}
use bitcoin_query_py.Bitcoin.{Transactions}
use bitcoin_query_py.Outputs.{Spends, SpendsOnce, inputs_of}
use bitcoin_query_py.IterConnected.Chain.{IsAt, SpentBy, IsChain}

-- A transaction is its number, its inputs and its outputs.
pub record Tx : Type 0 where
  pub id : ℕ
  pub spends : List (ℕ × ℕ)
  pub makes : List ℕ

abbrev pub mined : Tx
mined = record { id = 1; spends = (0, 0) ∷ []; makes = 10 ∷ 11 ∷ [] }

abbrev pub paid : Tx
paid = record { id = 2; spends = (1, 1) ∷ []; makes = 20 ∷ [] }

abbrev pub txs : Transactions
txs = record {
  Txid = ℕ;
  TxIn = ℕ × ℕ;
  TxOut = ℕ;
  Transaction = Tx;
  Block = List Tx;
  txid_discrete = ℕ_discrete;
  as_inner = λ t. t ∷ [];
  txid_from_slice = λ bytes. get_elem? bytes 0;
  txid_text = λ t. "txid";
  genesis_txid = 7;
  previous_txid = λ x. x.0;
  previous_vout = λ x. x.1;
  is_null = λ x. x.0 == 0;
  txid = λ t. t.id;
  input = λ t. t.spends;
  output = λ t. t.makes;
  is_coin_base = λ t. t.id == 1;
  txdata = λ b. b;
  decode_transaction = λ bytes. some (mined, []);
  decode_block = λ bytes. none;
}

abbrev pub blocks : List (List Tx)
blocks = (mined ∷ []) ∷ (paid ∷ []) ∷ []

abbrev pub get_block : ℕ → OpResult (List Tx)
get_block zero = ok (mined ∷ [])
get_block (suc zero) = ok (paid ∷ [])
get_block (suc (suc h)) = err (from_str "height not found")

only_one : {x y : Tx} (i : ℕ) → get_elem? (x ∷ []) i ≡ some y → y ≡ x
only_one zero here = sym (some_inj.0 here)
only_one (suc i) here = absurd (cc (here))

where_is :
    (h : ℕ) (tx : Tx) → IsAt txs blocks h tx → ((h ≡ 0) × (tx ≡ mined)) ⊎ ((h ≡ 1) × (tx ≡ paid))
where_is zero tx at = inl (refl, only_one at.place (rw (← some_inj.0 at.known) at at.here))
where_is (suc zero) tx at = inr (refl, only_one at.place (rw (← some_inj.0 at.known) at at.here))
where_is (suc (suc h)) tx at = absurd (cc (at.known))

-- The only input spends the output 1 of the first transaction.
pub spends_only : (t n : ℕ) → Spends txs (paid.spends) t n → (t ≡ 1) × (n ≡ 1)
spends_only t n (inl (_, p, q)) = (sym p, sym q)
spends_only t n (inr none_left) = absurd none_left

spent_at : (h t n : ℕ) → SpentBy txs blocks h t n → (h ≡ 1) × (t ≡ 1) × (n ≡ 1)
spent_at zero t n (block, known, spends) = absurd (nothing (rw (← some_inj.0 known) at spends))
  where
    nothing : ¬ Spends txs (mined.spends) t n
    nothing (inl (real, _, _)) = cc (real)
    nothing (inr none_left) = none_left
spent_at (suc zero) t n (block, known, spends) =
    let (p, q) = spends_only t n (rw (← some_inj.0 known) at spends) in (refl, p, q)
spent_at (suc (suc h)) t n (block, known, spends) = absurd (cc (known))

pub blocks-IsChain : IsChain txs blocks
blocks-IsChain = record {
  few = few_outputs;
  ids = λ h i tx other at also same. elim (where_is h tx at) [
    | inl (p, q) ↦ elim (where_is i other also) [
      | inl (r, s) ↦ (p ∙ sym r, q ∙ sym s)
      | inr (r, s) ↦ absurd (cc (ap (λ x. x.id) q, ap (λ x. x.id) s))
    ]
    | inr (p, q) ↦ elim (where_is i other also) [
      | inl (r, s) ↦ absurd (cc (ap (λ x. x.id) q, ap (λ x. x.id) s))
      | inr (r, s) ↦ (p ∙ sym r, q ∙ sym s)
    ]
  ];
  once = once_each;
  apart = λ h i t n one two. (spent_at h t n one).0 ∙ sym (spent_at i t n two).0;
  made = λ h t n spent.
      let (p, q, r) = spent_at h t n spent in
      (
        0,
        mined,
        11,
        omega arith,
        record { block = mined ∷ []; known = refl; place = 0; here = refl },
        sym q,
        rw r refl,
      );
}
  where
    few_outputs :
        (h : ℕ) (block : List Tx)
        → get_elem? blocks h ≡ some block
        → All (λ tx. IsU32 (length (tx.makes))) block
    few_outputs zero block known = rw (← some_inj.0 known) (omega arith, tt)
    few_outputs (suc zero) block known = rw (← some_inj.0 known) (omega arith, tt)
    few_outputs (suc (suc h)) block known = absurd (cc (known))

    once_each :
        (h : ℕ) (block : List Tx)
        → get_elem? blocks h ≡ some block
        → SpendsOnce txs (inputs_of txs block)
    once_each zero block known = rw (← some_inj.0 known) ((λ real. absurd (cc (real))), tt)
    once_each (suc zero) block known = rw (← some_inj.0 known) ((λ real h. absurd h), tt)
    once_each (suc (suc h)) block known = absurd (cc (known))
