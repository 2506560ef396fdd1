-- ===== src/Tests/Index.antt =====
-- A database of two blocks, one of them the genesis block without data, and a file record.
use bitcoin_query_py.Common.{
  ℕ, zero, suc, true, false, ◌≡◌, ◌↔◌, refl, sym, ap, ◌∙◌, List, [], ◌∷◌, Option, none, some, inl,
  inr, ok, err, panic, arith, ok-injective, ℕ_discrete, get_elem?, ◌⊎◌,
}
use bitcoin_query_py.Common.Int.{pos, negsuc, pos-injective}
use bitcoin_query_py.Common.Maps.{get, insert, delete}
use bitcoin_query_py.Common.InsertAll.{insert_all}
use bitcoin_query_py.Errors.{unexpected_eof, from_io}
use bitcoin_query_py.Reader.{Bytes, read_varint, read_decoded}
use bitcoin_query_py.Bitcoin.{Headers}
use bitcoin_query_py.BlockIndex.{
  Record, Entry, BlockIndex, is_block_index_record, is_accepted, read_if, from, update_max,
  add_record, load_entry, load_entries, build_chain, longest_chain, load_block_index, index_hashes,
  new,
}
use bitcoin_query_py.BlockIndex.Collect.{Offers}
use bitcoin_query_py.BlockIndex.Load.{IsLongest, load_block_index-IsLongest}
use bitcoin_query_py.BlockIndex.Total.{
  HoldsChain, load_block_index-HoldsChain, load_block_index_error,
}
use bitcoin_query_py.BlockIndex.Record.{FitsLayout, write_record, from-write_record}
use bitcoin_query_py.BlockIndex.HashIndex.{IsIndexed, new-IsIndexed}
use bitcoin_query_py.Api.{
  count_from, get_block_count, get_header, get_hash_from_height, get_height_from_hash,
  get_max_height,
}
use bitcoin_query_py.Api.Heights.{IsCount, get_height_from_hash_iff, get_block_count-IsCount}

-- A header is its hash and its parent's, a byte each.
abbrev decode : Bytes → Option ((ℕ × ℕ) × Bytes)
decode [] = none
decode (h ∷ []) = none
decode (h ∷ p ∷ rest) = some ((h, p), rest)

abbrev pub lib : Headers
lib = record {
  BlockHash = ℕ;
  BlockHeader = ℕ × ℕ;
  hash_discrete = ℕ_discrete;
  block_hash = λ h. h.0;
  prev_blockhash = λ h. h.1;
  decode_header = decode;
}

abbrev pub genesis : Record lib
genesis = record {
  n_version = pos 1;
  n_height = pos 0;
  n_status = 0;
  n_tx = 1;
  n_file = negsuc 0;
  n_data_pos = 0xffff_ffff;
  n_undo_pos = 0xffff_ffff;
  block_header = (10, 0);
}

abbrev pub first : Record lib
first = record {
  n_version = pos 1;
  n_height = pos 1;
  n_status = 29;
  n_tx = 3;
  n_file = pos 0;
  n_data_pos = 8;
  n_undo_pos = 9;
  block_header = (11, 10);
}

abbrev genesis_value : Bytes
genesis_value = 1 ∷ 0 ∷ 0 ∷ 1 ∷ 10 ∷ 0 ∷ []

abbrev first_value : Bytes
first_value = 1 ∷ 1 ∷ 29 ∷ 3 ∷ 0 ∷ 8 ∷ 9 ∷ 11 ∷ 10 ∷ []

-- The first block comes before the genesis block, and 102 is the letter of a file record.
abbrev pub entries : List (Entry lib)
entries = (b'b' ∷ 11 ∷ [], first_value) ∷ (102 ∷ [], []) ∷ (b'b' ∷ 10 ∷ [], genesis_value) ∷ []

program : Unit {0}
unfolding read_varint read_if read_decoded from is_block_index_record is_accepted update_max
    add_record load_entry load_entries build_chain longest_chain load_block_index index_hashes new
    insert_all get insert delete ℕ_discrete
program = tt

from-first : from lib first_value ≡ ok first
unfolding program
from-first = refl

from-genesis : from lib genesis_value ≡ ok genesis
unfolding program
from-genesis = refl

loaded : load_block_index lib (ok entries) ≡ ok (genesis ∷ first ∷ [])
unfolding program
loaded = refl

-- Without the genesis block the walk panics.
unlinked :
    load_block_index lib (ok ((b'b' ∷ 11 ∷ [], first_value) ∷ []))
    ≡ panic "block hash not found in block index!"
unfolding program
unlinked = refl

abbrev pub index : BlockIndex lib
index = record { records = genesis ∷ first ∷ []; hash_to_height = (11, pos 1) ∷ (10, pos 0) ∷ [] }

pub indexed : new lib (ok entries) ≡ ok index
unfolding program
indexed = refl

is_block :
    (is_block_index_record (b'b' ∷ 11 ∷ []) ≡ true) × (is_block_index_record (102 ∷ []) ≡ false)
unfolding program
is_block = (refl, refl)

is_genesis : is_block_index_record (b'b' ∷ 10 ∷ []) ≡ true
unfolding program
is_genesis = refl

load_block_index-IsLongest_example : IsLongest lib entries (genesis ∷ first ∷ [])
load_block_index-IsLongest_example =
    load_block_index-IsLongest lib entries (genesis ∷ first ∷ []) loaded

offered : (r : Record lib) → Offers lib entries r → (r ≡ genesis) ⊎ (r ≡ first)
offered r (inl (_, p, _)) = inr (ok-injective (sym p ∙ from-first))
offered r (inr (inl (p, _, _))) = absurd (cc (is_block.1))
offered r (inr (inr (inl (_, p, _)))) = inl (ok-injective (sym p ∙ from-genesis))
offered r (inr (inr (inr none_left))) = absurd none_left

cut_value : from lib (1 ∷ []) ≡ err (from_io unexpected_eof)
unfolding program
cut_value = refl

is_linked :
    (i : ℕ) (r s : Record lib)
    → get_elem? (genesis ∷ first ∷ []) i ≡ some r
    → get_elem? (genesis ∷ first ∷ []) (suc i) ≡ some s
    → s.block_header.1 ≡ r.block_header.0
is_linked zero r s h k = cc
is_linked (suc zero) r s h k = cc
is_linked (suc (suc i)) r s h k = cc

has_height :
    (i : ℕ) (r : Record lib) → get_elem? (genesis ∷ first ∷ []) i ≡ some r → r.n_height ≡ pos i
has_height zero r h = cc
has_height (suc zero) r h = cc
has_height (suc (suc i)) r h = cc

accepted : (is_accepted genesis ≡ true) × (is_accepted first ≡ true)
unfolding program
accepted = (refl, refl)

equal_of_hash :
    (r s : Record lib)
    → (r ≡ genesis) ⊎ (r ≡ first)
    → (s ≡ genesis) ⊎ (s ≡ first)
    → r.block_header.0 ≡ s.block_header.0
    → r ≡ s
equal_of_hash r s (inl p) (inl q) same = p ∙ sym q
equal_of_hash r s (inr p) (inr q) same = p ∙ sym q
equal_of_hash r s (inl p) (inr q) same = absurd (omega (arith, rw (p, q) at same))
equal_of_hash r s (inr p) (inl q) same = absurd (omega (arith, rw (p, q) at same))

holds : HoldsChain lib entries (genesis ∷ []) first
holds = record {
  decodes = (
    λ _. (first, from-first),
    (λ block. absurd (cc (is_block.1)), (λ _. (genesis, from-genesis), tt)),
  );
  chain = record { heights = has_height; linked = is_linked };
  stored = (
    inr (inr (inl (is_genesis, from-genesis, accepted.0))),
    (inl (is_block.0, from-first, accepted.1), tt),
  );
  tallest = λ r o. elim (offered r o) [ inl e ↦ rw e (omega arith) | inr e ↦ rw e (omega arith) ];
  only_tip = λ r o level. elim (offered r o) [
    | inl e ↦ absurd (omega (arith, pos-injective (sym (ap (λ x. x.n_height) e) ∙ level)))
    | inr e ↦ e
  ];
  no_collision = λ r s o o' same. equal_of_hash r s (offered r o) (offered s o') same;
}

load_block_index-HoldsChain_example : load_block_index lib (ok entries) ≡ ok (genesis ∷ first ∷ [])
load_block_index-HoldsChain_example =
    load_block_index-HoldsChain lib entries (genesis ∷ []) first holds

load_block_index_error_example :
    (load_block_index lib (ok ((102 ∷ [], []) ∷ (b'b' ∷ 11 ∷ [], 1 ∷ []) ∷ entries))
      ≡ err (from_io unexpected_eof))
    × (load_block_index lib (err (from_io unexpected_eof)) ≡ err (from_io unexpected_eof))
load_block_index_error_example =
    load_block_index_error lib ((102 ∷ [], []) ∷ []) entries (b'b' ∷ 11 ∷ []) (1 ∷ [])
      (from_io unexpected_eof) (λ block. absurd (cc (is_block.1)), tt) is_block.0 cut_value

first-FitsLayout : FitsLayout first
first-FitsLayout = record {
  version = omega arith;
  height = omega arith;
  status = omega arith;
  tx = omega arith;
  file = omega arith;
  data_pos = omega arith;
  undo_pos = omega arith;
  no_file = λ h. absurd (cc);
  no_data = λ h. absurd (cc);
  no_undo = λ h. absurd (cc);
}

from-write_record_example : from lib (write_record first (11 ∷ 10 ∷ [])) ≡ ok first
from-write_record_example = from-write_record lib first (11 ∷ 10 ∷ []) [] first-FitsLayout refl

new-IsIndexed_example : IsIndexed lib entries index
new-IsIndexed_example = new-IsIndexed lib entries index indexed

get_height_from_hash_iff_example :
    (get_hash_from_height lib index 1 ≡ ok 11) ↔ (get_height_from_hash lib index 11 ≡ ok 1)
get_height_from_hash_iff_example = get_height_from_hash_iff lib entries index 1 11 indexed

get_block_count-IsCount_example : IsCount lib (genesis ∷ first ∷ []) (get_block_count lib index)
get_block_count-IsCount_example = get_block_count-IsCount lib index

queries :
    (get_block_count lib index ≡ 2)
    × (get_max_height lib index ≡ 2)
    × (get_header lib index 1 ≡ ok first)
    × (get_height_from_hash lib index 10 ≡ ok 0)
unfolding get_block_count count_from get_max_height get_header get_height_from_hash program
queries = (refl, refl, refl, refl)
