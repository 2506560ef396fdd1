-- ===== src/IterConnected/Cache.antt =====
-- src/iter/iter_connected.rs with the feature on-disk-utxo: the database of a new iteration, and the
-- iterator without items that stands for one that cannot be opened.
use bitcoin_query_py.Common.{
  ◌≡◌, ◌⊎◌, inl, inr, List, [], Option, none, some, err, String, ℕ, Result,
}
use bitcoin_query_py.Disk.{RocksDb}
use bitcoin_query_py.IterBlock.{ParIterSync, IsSync, until_error}

-- `TempDir::new`, then `DB::open` in the folder. The options of the database are left out.
unfoldable pub open_cache : (rocks : RocksDb) {Dir : Type 0} → String ⊎ Dir → Option rocks.Db
open_cache rocks (inl _) = none
open_cache rocks (inr cache_dir) = elim rocks.open_db [ inl _ ↦ none | inr db ↦ some db ]

module _ (par : ParIterSync) {TBlock : Type 0} where
  abbrev no_task : ℕ → Result (Unit {0}) TBlock
  no_task height = err tt

  unfoldable pub null : List TBlock
  unfolding no_task
  null = par.into_par_iter_sync [] no_task

  -- The iterator that stands for a failure has no items.
  pub null-nil : IsSync par → null ≡ []
  unfolding null until_error
  null-nil sync = sync ℕ TBlock [] no_task (λ task text e. cc)
