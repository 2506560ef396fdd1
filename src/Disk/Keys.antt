-- ===== src/Disk/Keys.antt =====
-- The keys of outputs: what a key says of the output, and what the documentation of rocksdb and of the
-- `bitcoin` crate promises.
use bitcoin_query_py.Common.{
  ℕ, [], ◌∷◌, arith, get_elem?, ◌≡◌, refl, sym, ap, ◌∙◌, List, ◌++◌, map, inr, none, some, length,
  take, drop, take_append, drop_append, ℕ_discrete,
}
use mathlib.Core.Option.{some_inj}
use bitcoin_query_py.Common.Int.{IsU32}
use bitcoin_query_py.Common.Maps.{get, delete}
use bitcoin_query_py.Common.InsertAll.{insert_all}
use bitcoin_query_py.Reader.{Bytes, from_le_bytes}
use bitcoin_query_py.BlkFile.Read.{to_le_bytes, from_le_bytes-to_le_bytes}
use bitcoin_query_py.Bitcoin.{Transactions}
use bitcoin_query_py.Disk.{RocksDb, OutputCodec, txo_key}

abbrev cons_dec : (x y : ℕ) (xs ys : Bytes) → Dec (x ≡ y) → Dec (xs ≡ ys) → Dec (x ∷ xs ≡ y ∷ ys)
cons_dec x y xs ys (yes p) (yes q) = yes (λ i. p i ∷ q i)
cons_dec x y xs ys (yes p) (no n) = no (λ e. n (ap (drop 1) e))
cons_dec x y xs ys (no n) q = no (λ e. n (some_inj.0 (ap (λ l. get_elem? l 0) e)))

unfoldable pub bytes_discrete : Discrete Bytes
unfolding ℕ_discrete
bytes_discrete [] [] = yes refl
bytes_discrete [] (y ∷ ys) = no (λ e. absurd (omega (arith, ap length e)))
bytes_discrete (x ∷ xs) [] = no (λ e. absurd (omega (arith, ap length e)))
bytes_discrete (x ∷ xs) (y ∷ ys) = cons_dec x y xs ys (ℕ_discrete x y) (bytes_discrete xs ys)

-- A database that works: a new one is empty, a batch is written put after put, a key is deleted, and a
-- read of several keys gives what each has.
pub record IsHealthy (rocks : RocksDb) : Type 1 where
  pub content : rocks.Db → List (Bytes × Bytes)
  pub open_lem :
      (db : rocks.Db) × (rocks.open_db ≡ inr db)
      × ((key : Bytes) → get bytes_discrete key (content db) ≡ none)
  pub write_lem :
      (batch : List (Bytes × Bytes)) (db : rocks.Db)
      → (written : rocks.Db) × (rocks.write_without_wal batch db ≡ inr written)
        × ((key : Bytes)
            → get bytes_discrete key (content written)
              ≡ get bytes_discrete key
                  (insert_all bytes_discrete (λ p. p.0) (λ p. p.1) batch (content db)))
  pub delete_lem :
      (deleted : Bytes) (db : rocks.Db)
      → (left : rocks.Db) × (rocks.delete deleted db ≡ inr left)
        × ((key : Bytes)
            → get bytes_discrete key (content left)
              ≡ get bytes_discrete key (delete bytes_discrete deleted (content db)))
  pub multi_get_lem :
      (keys : List Bytes) (db : rocks.Db)
      → rocks.multi_get keys db ≡ map (λ key. inr (get bytes_discrete key (content db))) keys

-- Transaction ids have one length and their bytes; an encoded output is decoded.
pub record IsCodec (txs : Transactions) (codec : OutputCodec txs) : Type 0 where
  pub same_length : (s t : txs.Txid) → length (txs.as_inner s) ≡ length (txs.as_inner t)
  pub inner_injective : (s t : txs.Txid) → txs.as_inner s ≡ txs.as_inner t → s ≡ t
  pub decode-encode : (o : txs.TxOut) → codec.consensus_decode (codec.consensus_encode o) ≡ some o

module _ (txs : Transactions) (codec : OutputCodec txs) (is_codec : IsCodec txs codec) where
  open txs use {Txid, as_inner}

  -- Different outputs have different keys.
  pub txo_key-injective :
      (s t : Txid) (i n : ℕ)
      → IsU32 i
      → IsU32 n
      → txo_key txs codec s i ≡ txo_key txs codec t n
      → (s ≡ t) × (i ≡ n)
  unfolding txo_key
  txo_key-injective s t i n hi hn same =
      let size = is_codec.same_length s t in
      let cut : take (length (as_inner t)) (as_inner s ++ to_le_bytes i) ≡ as_inner s =
        rw (← size) (take_append (as_inner s) (to_le_bytes i)) in
      let left : drop (length (as_inner t)) (as_inner s ++ to_le_bytes i) ≡ to_le_bytes i =
        rw (← size) (drop_append (as_inner s) (to_le_bytes i)) in
      let front : as_inner s ≡ as_inner t =
        sym cut ∙ ap (take (length (as_inner t))) same ∙ take_append (as_inner t) (to_le_bytes n) in
      let back : to_le_bytes i ≡ to_le_bytes n =
        sym left
        ∙ ap (drop (length (as_inner t))) same
        ∙ drop_append (as_inner t) (to_le_bytes n) in
      (
        is_codec.inner_injective s t front,
        sym (from_le_bytes-to_le_bytes i hi)
            ∙ ap from_le_bytes back
            ∙ from_le_bytes-to_le_bytes n hn,
      )

  pub txo_key-txid : (s t : Txid) (i n : ℕ) → txo_key txs codec s i ≡ txo_key txs codec t n → s ≡ t
  unfolding txo_key
  txo_key-txid s t i n same =
      let size = is_codec.same_length s t in
      let cut : take (length (as_inner t)) (as_inner s ++ to_le_bytes i) ≡ as_inner s =
        rw (← size) (take_append (as_inner s) (to_le_bytes i)) in
      is_codec.inner_injective s t
        (sym cut ∙ ap (take (length (as_inner t))) same ∙ take_append (as_inner t) (to_le_bytes n))
