-- ===== src/BlockIndex.antt =====
-- src/parser/block_index.rs: the record of a block as Bitcoin Core stores it in leveldb, the loop
-- over the database, the walk down the longest chain, and the map from hashes to heights.
-- The database is the list of its entries in the order in which `advance` reaches them.
pub mod Chain
pub mod Walk
pub mod Collect
pub mod Load
pub mod Total
pub mod Record
pub mod HashIndex
use bitcoin_query_py.Common.{
  ℕ, zero, suc, String, List, [], ◌∷◌, ◌++◌, reverse, Bool, true, false, ◌&&◌, ◌||◌, ok, err, panic,
  ◌>>=◌, Option, none, some, ltb, leb, ◌==◌, if◌then◌else◌, bit_and, bit_or,
}
use bitcoin_query_py.Common.Int.{ℤ, pos, negsuc, to_i32, to_u32, ltb_ℤ, eqb_ℤ}
use bitcoin_query_py.Common.Maps.{get, insert, delete}
use bitcoin_query_py.Common.InsertAll.{insert_all}
use bitcoin_query_py.Errors.{OpResult}
use bitcoin_query_py.Reader.{Bytes, read_varint, read_decoded}
use bitcoin_query_py.Bitcoin.{Headers}

abbrev pub block_valid_header : ℕ
block_valid_header = 1

abbrev pub block_valid_tree : ℕ
block_valid_tree = 2

abbrev pub block_valid_transactions : ℕ
block_valid_transactions = 3

abbrev pub block_valid_chain : ℕ
block_valid_chain = 4

abbrev pub block_valid_scripts : ℕ
block_valid_scripts = 5

abbrev pub block_valid_mask : ℕ
block_valid_mask = bit_or block_valid_header (
    bit_or block_valid_tree
      (bit_or block_valid_transactions (bit_or block_valid_chain block_valid_scripts)))

abbrev pub block_have_data : ℕ
block_have_data = 8

abbrev pub block_have_undo : ℕ
block_have_undo = 16

abbrev pub u32_max : ℕ
u32_max = 0xffff_ffff

pub record BlockIndexRecord (BlockHeader : Type 0) : Type 0 where
  pub n_version : ℤ
  pub n_height : ℤ
  pub n_status : ℕ
  pub n_tx : ℕ
  pub n_file : ℤ
  pub n_data_pos : ℕ
  pub n_undo_pos : ℕ
  pub block_header : BlockHeader

-- `data.first() == Some(&b'b')`
unfoldable pub is_block_index_record : Bytes → Bool
is_block_index_record [] = false
is_block_index_record (c ∷ _) = c == b'b'

abbrev pub missing_info : String
missing_info =
    "some block info missing from block index levelDB,delete Bitcoin folder and re-download!"

-- The flags of a status word.
abbrev pub has_flag : ℕ → ℕ → Bool
has_flag status flag = ltb 0 (bit_and status flag)

-- `only add valid block index record that has block data`, and whatever has height 0.
unfoldable pub is_accepted : {BlockHeader : Type 0} → BlockIndexRecord BlockHeader → Bool
is_accepted r =
    eqb_ℤ r.n_height (pos 0)
    || (leb block_valid_scripts (bit_and r.n_status block_valid_mask)
        && has_flag r.n_status block_have_data)

-- An optional field: a variable-length number if the flag is set.
unfoldable pub read_if : {A : Type 0} → Bool → (ℕ → A) → A → Bytes → OpResult (A × Bytes)
read_if b convert other bytes =
    if b then (read_varint bytes >>= λ (n, rest). ok (convert n, rest)) else ok (other, bytes)

module _ (lib : Headers) where
  open lib use {BlockHash, BlockHeader, hash_discrete, block_hash, prev_blockhash, decode_header}

  abbrev pub Record : Type 0
  Record = BlockIndexRecord BlockHeader

  abbrev pub Entry : Type 0
  Entry = Bytes × Bytes

  -- `BlockIndexRecord::from`
  unfoldable pub from : Bytes → OpResult Record
  from values = do
    (version, r₁) ← read_varint values
    (height, r₂) ← read_varint r₁
    (status, r₃) ← read_varint r₂
    let n_status = to_u32 status
    (tx, r₄) ← read_varint r₃
    (n_file, r₅) ←
        read_if (has_flag n_status (bit_or block_have_data block_have_undo)) to_i32 (negsuc 0) r₄
    (n_data_pos, r₆) ← read_if (has_flag n_status block_have_data) to_u32 u32_max r₅
    (n_undo_pos, r₇) ← read_if (has_flag n_status block_have_undo) to_u32 u32_max r₆
    (block_header, r₈) ← read_decoded decode_header r₇
    ok (record {
      n_version = to_i32 version;
      n_height = to_i32 height;
      n_status = n_status;
      n_tx = to_u32 tx;
      n_file = n_file;
      n_data_pos = n_data_pos;
      n_undo_pos = n_undo_pos;
      block_header = block_header;
    })

  -- The locals of the loop over the database.
  pub record Collected : Type 0 where
    pub by_hash : List (BlockHash × Record)
    pub max_height : Option (BlockHash × ℤ)

  -- `max_height_block_hash`: only a greater height replaces the block found so far.
  unfoldable pub update_max : Option (BlockHash × ℤ) → BlockHash → ℤ → Option (BlockHash × ℤ)
  update_max none hash height = some (hash, height)
  update_max (some (old, top)) hash height =
      if ltb_ℤ top height then some (hash, height) else some (old, top)

  unfoldable pub add_record : Collected → Record → Collected
  add_record s r =
      let hash = block_hash r.block_header in
      record {
        by_hash = insert hash_discrete hash r s.by_hash;
        max_height = update_max s.max_height hash r.n_height;
      }

  -- The body of `while iter.advance()`.
  unfoldable pub load_entry : Collected → Entry → OpResult Collected
  load_entry s (key, value) =
      if is_block_index_record key
      then (from value >>= λ r. ok (if is_accepted r then add_record s r else s))
      else ok s

  unfoldable pub load_entries : List Entry → Collected → OpResult Collected
  load_entries [] s = ok s
  load_entries (e ∷ es) s = do s' ← load_entry s e; load_entries es s'

  -- `while current_height >= 0`, by the rounds that are left: `current_height` is one less.
  unfoldable pub build_chain :
      ℕ → BlockHash → List (BlockHash × Record) → List Record → OpResult (List Record)
  build_chain zero current_hash by_hash block_index = ok block_index
  build_chain (suc current_height) current_hash by_hash block_index =
      elim (get hash_discrete current_hash by_hash) [
        | none ↦ panic "block hash not found in block index!"
        | some blk ↦
            if eqb_ℤ (pos current_height) blk.n_height
            then build_chain current_height (prev_blockhash blk.block_header)
                (delete hash_discrete current_hash by_hash) (block_index ++ blk ∷ [])
            else panic missing_info
      ]

  -- The rounds of the loop that starts at a height.
  abbrev pub rounds : ℤ → ℕ
  rounds (pos h) = suc h
  rounds (negsuc _) = 0

  -- `Vec::with_capacity(height as usize + 1)`: the sum wraps to 0 at height -1, and a capacity above
  -- `isize::MAX` bytes panics.
  abbrev pub with_capacity : ℤ → OpResult (List Record)
  with_capacity (pos h) = ok []
  with_capacity (negsuc zero) = ok []
  with_capacity (negsuc (suc _)) = panic "capacity overflow"

  -- `build the longest chain`, from the locals of the loop above.
  unfoldable pub longest_chain :
      Option (BlockHash × ℤ) → List (BlockHash × Record) → OpResult (List Record)
  longest_chain none by_hash = ok []
  longest_chain (some (hash, height)) by_hash = do
    block_index ← with_capacity height
    built ← build_chain (rounds height) hash by_hash block_index
    ok (reverse built)

  -- `load_block_index`; opening the database fails with leveldb's error, or gives its entries.
  unfoldable pub load_block_index : OpResult (List Entry) → OpResult (List Record)
  load_block_index opened = do
    entries ← opened
    collected ← load_entries entries (record { by_hash = []; max_height = none })
    longest_chain collected.max_height collected.by_hash

  pub record BlockIndex : Type 0 where
    pub records : List Record
    pub hash_to_height : List (BlockHash × ℤ)

  -- The loop of `BlockIndex::new`, from a map that is already there.
  unfoldable pub index_hashes : List Record → List (BlockHash × ℤ) → List (BlockHash × ℤ)
  index_hashes records m =
      insert_all hash_discrete (λ b. block_hash b.block_header) (λ b. b.n_height) records m

  unfoldable pub new : OpResult (List Entry) → OpResult BlockIndex
  new opened = do
    records ← load_block_index opened
    ok (record { records = records; hash_to_height = index_hashes records [] })
