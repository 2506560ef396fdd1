-- ===== src/Tests/Unspent.antt =====
-- A transaction with two outputs, both of which are spent.
use bitcoin_query_py.Common.{
  ℕ, ◌≡◌, refl, subst, arith, [], ◌∷◌, ok, err, some, ℕ_discrete, inl, inr,
}
use bitcoin_query_py.Common.Maps.{get, insert, delete}
use bitcoin_query_py.Common.InsertAll.{insert_all}
use bitcoin_query_py.Utxo.{
  Unspent, from_slice, is_empty, remove, add_transactions, spend_output, spend_inputs,
  connect_outpoints,
}
use bitcoin_query_py.Utxo.Spend.{lookup, IsStore}
use bitcoin_query_py.Utxo.Inputs.{AreSpent}
use bitcoin_query_py.Outputs.{Spends, SpendsOnce, outputs_of_block}
use bitcoin_query_py.Utxo.Implements.{nil-IsStore, connect_outpoints_total}
use bitcoin_query_py.Utxo.Blocks.{connect_outpoints-AreSpent}
use bitcoin_query_py.Utxo.Add.{AreAdded, add_transactions-AreAdded}
use bitcoin_query_py.Tests.Stored.{txs}

abbrev same : ℕ → ℕ
same o = o

abbrev store : Unspent txs same
store = (9, record { size = 2; inner = some 90 ∷ some 91 ∷ [] }) ∷ []

program : Unit {0}
unfolding add_transactions insert_all from_slice is_empty remove spend_output spend_inputs
    connect_outpoints get insert delete ℕ_discrete
program = tt

added : add_transactions txs same [] (9 ∷ []) ≡ store
unfolding program
added = refl

add_transactions-AreAdded_example :
    AreAdded txs same [] (add_transactions txs same [] (9 ∷ [])) (9 ∷ [])
add_transactions-AreAdded_example =
    add_transactions-AreAdded txs same [] (9 ∷ []) (nil-IsStore txs same) (omega arith, tt)

store-IsStore : IsStore txs same store
store-IsStore =
    subst (IsStore txs same) added
      (add_transactions-AreAdded txs same [] (9 ∷ []) (nil-IsStore txs same)
        (omega arith, tt)).store

-- The second input is null; the transaction leaves the store with its last output.
spent : spend_inputs txs same store ((9, 1) ∷ (0, 5) ∷ (9, 0) ∷ []) ≡ ok (91 ∷ 90 ∷ [], [])
unfolding program
spent = refl

-- The two transactions of a block spend the outputs 0 and 1, and a third spends an output again.
block : connect_outpoints txs same store (0 ∷ 1 ∷ []) ≡ ok ((90 ∷ []) ∷ (91 ∷ []) ∷ [], [])
unfolding program
block = refl

twice : connect_outpoints txs same store (1 ∷ 1 ∷ []) ≡ err tt
unfolding program
twice = refl

connect_outpoints-AreSpent_example : AreSpent txs same store [] ((9, 0) ∷ (9, 1) ∷ [])
connect_outpoints-AreSpent_example =
    connect_outpoints-AreSpent txs same store [] (0 ∷ 1 ∷ []) ((90 ∷ []) ∷ (91 ∷ []) ∷ [])
      store-IsStore block

two_inputs-SpendsOnce : SpendsOnce txs ((9, 1) ∷ (9, 0) ∷ [])
two_inputs-SpendsOnce = ((λ real h. apart h), ((λ real h. absurd h), tt))
  where
    apart : ¬ Spends txs ((9, 0) ∷ []) 9 1
    apart (inl (_, _, q)) = absurd (omega (arith, q))
    apart (inr none_left) = absurd none_left

two_inputs-before :
    (t n : ℕ)
    → Spends txs ((9, 1) ∷ (9, 0) ∷ []) t n
    → (out : ℕ) × (lookup txs same store t n ≡ some out)
unfolding program
two_inputs-before t n (inl (_, p, q)) = (91, rw (← p, ← q) refl)
two_inputs-before t n (inr (inl (_, p, q))) = (90, rw (← p, ← q) refl)
two_inputs-before t n (inr (inr none_left)) = absurd none_left

-- A block whose two transactions spend the outputs 1 and 0.
connect_outpoints_total_example :
    (last : Unspent txs same) × (connect_outpoints txs same store (1 ∷ 0 ∷ [])
      ≡ ok (outputs_of_block txs (lookup txs same store) (1 ∷ 0 ∷ []), last))
connect_outpoints_total_example =
    connect_outpoints_total txs same store (1 ∷ 0 ∷ []) store-IsStore two_inputs-SpendsOnce
      two_inputs-before
