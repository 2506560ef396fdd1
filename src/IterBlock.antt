-- ===== src/IterBlock.antt =====
-- src/iter/iter_block.rs, and `iter_block` and `iter_heights` of src/api/mod.rs: blocks of given heights,
-- read in concurrency and handed out in order.
pub mod Order
use bitcoin_query_py.Common.{
  ℕ, zero, suc, ◌+◌, ◌-◌, ◌≡◌, ◌≢◌, ◌≤◌, ◌<◌, ◌↔◌, ◌⊎◌, refl, sym, ap, ◌∙◌, arith, List, [], ◌∷◌,
  Option, none, some, Result, ok, err, panic, String, leb, ltb, ltb_of_lt, if◌then◌else◌, get_elem?,
  ok-injective, Result-cases, inl, inr, Bool-cases,
}
use mathlib.Core.Option.{some_inj}
use bitcoin_query_py.Errors.{OpResult}

-- The results of the tasks, up to the first that fails.
unfoldable pub until_error : {I O : Type 0} → (I → Result (Unit {0}) O) → List I → List O
until_error f [] = []
until_error f (task ∷ rest) =
    let more = until_error f rest in elim (f task) [ ok o ↦ o ∷ more | err _ ↦ [] | panic _ ↦ [] ]

-- The crate par_iter_sync: `into_par_iter_sync` runs the tasks on several threads. Its documentation
-- says that the results come in the order of the tasks, and that the iterator stops at the first error.
pub record ParIterSync : Type 1 where
  pub into_par_iter_sync : {I O : Type 0} → List I → (I → Result (Unit {0}) O) → List O

abbrev pub IsSync : ParIterSync → Type 1
IsSync par =
    (I O : Type 0) (tasks : List I) (f : I → Result (Unit {0}) O)
    → ((task : I) (text : String) → f task ≢ panic text)
    → par.into_par_iter_sync tasks f ≡ until_error f tasks

-- `start..end`, by its first number and its length.
unfoldable pub range : ℕ → ℕ → List ℕ
range start zero = []
range start (suc n) = start ∷ range (start + 1) n

module _ (par : ParIterSync) {T : Type 0} (get_block : ℕ → OpResult T) where
  -- The task of a height.
  unfoldable pub read_task : ℕ → Result (Unit {0}) T
  read_task h = elim (get_block h) [ ok blk ↦ ok blk | err _ ↦ err tt | panic text ↦ panic text ]

  unfoldable pub new : List ℕ → List T
  new heights = par.into_par_iter_sync heights read_task

  unfoldable pub from_range : ℕ → ℕ → List T
  from_range start end = if leb end start then new [] else new (range start (end - start))

  unfoldable pub iter_block : ℕ → ℕ → List T
  iter_block start end = from_range start end

  unfoldable pub iter_heights : List ℕ → List T
  iter_heights heights = new heights
