-- ===== src/Api/Open.antt =====
-- src/api/mod.rs: `BitcoinDB::new`, and the addresses of a script in hex.
use bitcoin_query_py.Common.{
  List, Bool, true, false, ok, err, panic, ◌>>=◌, Option, none, some, String, if◌then◌else◌, Result,
  lift, mapped, Result-cases, Bool-cases, inl, inr, ◌≡◌, ◌≢◌, ◌↔◌, refl, sym, ap, ◌∙◌, ok-injective,
}
use mathlib.Core.Option.{some_inj}
use bitcoin_query_py.Errors.{OpResult, from_str, from_hex_error}
use bitcoin_query_py.Bitcoin.{Headers, Scripts}
use bitcoin_query_py.BlockIndex.{BlockIndex, Entry}
use bitcoin_query_py.BlockIndex
use bitcoin_query_py.BlkFile.{FileSystem, Files, scan_path}
use bitcoin_query_py.TxIndex
use bitcoin_query_py.TxIndex.{TxDb, Database, is_open}
use bitcoin_query_py.Script.{ScriptInfo, evaluate_script}

-- The paths and databases of a data folder: `Path::exists` and `join`, the entries of the block index
-- database or the error of opening it, and the opening of the transaction index database.
pub record DataDir (lib : Headers) (fs : FileSystem) : Type 1 where
  pub exists : fs.PathBuf → Bool
  pub join : fs.PathBuf → String → fs.PathBuf
  pub open_entries : fs.PathBuf → OpResult (List (Entry lib))
  pub open_database : fs.PathBuf → Result String Database

module _ (lib : Headers) (fs : FileSystem) (dir : DataDir lib fs) where
  open fs use {PathBuf}
  open dir use {exists, join, open_entries, open_database}

  pub record InnerDb : Type 0 where
    pub block_index : BlockIndex lib
    pub blk_file : Files fs
    pub tx_db : TxDb

  -- A failure to open is logged and counts as none; a panic unwinds.
  unfoldable pub try_open_db : PathBuf → Result ⊥ (Option Database)
  try_open_db path =
      if exists path
      then elim (open_database path) [
        | ok db ↦ ok (some db)
        | err _ ↦ ok none
        | panic text ↦ panic text
      ]
      else ok none

  abbrev pub tx_index_path : PathBuf → PathBuf
  tx_index_path p = join (join p "indexes") "txindex"

  unfoldable pub open_tx_db : Bool → PathBuf → BlockIndex lib → Result ⊥ TxDb
  open_tx_db tx_index p block_index =
      if tx_index
      then (do db ← try_open_db (tx_index_path p); ok (TxIndex.new lib db block_index))
      else ok TxIndex.null

  -- `BitcoinDB::new`
  unfoldable pub new : PathBuf → Bool → OpResult InnerDb
  new p tx_index =
      if exists p
      then (do
        let blk_path = join p "blocks"
        block_index ← BlockIndex.new lib (open_entries (join blk_path "index"))
        tx_db ← lift (open_tx_db tx_index p block_index)
        blk_file ← scan_path fs blk_path
        ok (record { block_index = block_index; blk_file = blk_file; tx_db = tx_db }))
      else err (from_str "data_dir does not exist")

  -- What does not depend on the transaction index.
  abbrev pub opened : InnerDb → BlockIndex lib × Files fs
  opened d = (d.block_index, d.blk_file)

-- `from_hex` is `Script::from_hex`.
module _ (scripts : Scripts) (from_hex : String → Option scripts.Script) where
  unfoldable pub get_addresses_from_script : String → OpResult (ScriptInfo scripts)
  get_addresses_from_script script_pub_key = elim (from_hex script_pub_key) [
    | none ↦ err from_hex_error
    | some script ↦ lift (evaluate_script scripts script scripts.bitcoin)
  ]

  -- The deprecated name.
  unfoldable pub parse_script : String → OpResult (ScriptInfo scripts)
  parse_script script_pub_key = get_addresses_from_script script_pub_key

module _ (lib : Headers) (fs : FileSystem) (dir : DataDir lib fs) where
  open fs use {PathBuf}
  open dir use {exists, join, open_entries, open_database}

  -- That a database is there and opens.
  abbrev pub IsOpening : PathBuf → Database → Type 0
  IsOpening path db = (exists path ≡ true) × (open_database path ≡ ok db)

  try_open_db_returns :
      (path : PathBuf)
      → ((text : String) → open_database path ≢ panic text)
      → (found : Option Database) × (try_open_db lib fs dir path ≡ ok found)
        × ((db : Database) → (found ≡ some db) ↔ IsOpening path db)
  unfolding try_open_db
  try_open_db_returns path returns = elim (Bool-cases (exists path)) [
    | inr missing ↦ (none, rw missing refl, λ db. ((λ e. cc), (λ h. cc (h.0, missing))))
    | inl there ↦ elim (Result-cases (open_database path)) [
      | inl (first, e) ↦ (
        some first,
        rw (there, e) refl,
        λ db.
            ((λ k. (there, e ∙ ap ok (some_inj.0 k))), (λ h. ap some (ok-injective (sym e ∙ h.1)))),
      )
      | inr (inl (_, e)) ↦ (none, rw (there, e) refl, λ db. ((λ k. cc), (λ h. cc (e, h.1))))
      | inr (inr (text, e)) ↦ absurd (returns text e)
    ]
  ]

  new-db :
      (found : Option Database) (index : BlockIndex lib) → (TxIndex.new lib found index).db ≡ found
  unfolding TxIndex.new TxIndex.null
  new-db none index = refl
  new-db (some db) index = refl

  -- If opening the database of the transaction index returns, with a database or an error, then the
  -- transaction index does not decide what else is opened: with it and without it, opening a folder
  -- gives the same block index and the same blk files, or fails with the same error or panic. Without
  -- it, the transaction index is not open. With it, it is open on a database exactly if this is there
  -- and opens.
  pub new-tx_index :
      (p : PathBuf)
      → ((text : String) → open_database (tx_index_path lib fs dir p) ≢ panic text)
      → (mapped (opened lib fs dir) (new lib fs dir p true)
          ≡ mapped (opened lib fs dir) (new lib fs dir p false))
        × ((d : InnerDb lib fs dir) → new lib fs dir p false ≡ ok d → is_open d.tx_db ≡ false)
        × ((d : InnerDb lib fs dir) (db : Database)
            → new lib fs dir p true ≡ ok d
            → (d.tx_db.db ≡ some db) ↔ IsOpening (tx_index_path lib fs dir p) db)
  unfolding new open_tx_db TxIndex.null is_open
  new-tx_index p returns =
      let (found, tried, iff) = try_open_db_returns (tx_index_path lib fs dir p) returns in
      elim (Bool-cases (exists p)) [
        | inr missing ↦ (
          rw missing refl,
          (λ d e. absurd (cc (rw missing at e))),
          λ d db e. absurd (cc (rw missing at e)),
        )
        | inl there ↦
            elim (Result-cases
              (BlockIndex.new lib (open_entries (join (join p "blocks") "index")))) [
                | inr (inl (_, e)) ↦ (
                  rw (there, e) refl,
                  (λ d k. absurd (cc (rw (there, e) at k))),
                  λ d db k. absurd (cc (rw (there, e) at k)),
                )
                | inr (inr (_, e)) ↦ (
                  rw (there, e) refl,
                  (λ d k. absurd (cc (rw (there, e) at k))),
                  λ d db k. absurd (cc (rw (there, e) at k)),
                )
                | inl (index, e) ↦ elim (Result-cases (scan_path fs (join p "blocks"))) [
                  | inr (inl (_, f)) ↦ (
                    rw (there, e, tried, f) refl,
                    (λ d k. absurd (cc (rw (there, e, f) at k))),
                    λ d db k. absurd (cc (rw (there, e, tried, f) at k)),
                  )
                  | inr (inr (_, f)) ↦ (
                    rw (there, e, tried, f) refl,
                    (λ d k. absurd (cc (rw (there, e, f) at k))),
                    λ d db k. absurd (cc (rw (there, e, tried, f) at k)),
                  )
                  | inl (files, f) ↦ (
                    rw (there, e, tried, f) refl,
                    (λ d k. rw (← ok-injective (rw (there, e, f) at k)) refl),
                    λ d db k.
                        rw (← ok-injective (rw (there, e, tried, f) at k))
                          (rw (new-db found index) (iff db)),
                  )
                ]
              ]
      ]
