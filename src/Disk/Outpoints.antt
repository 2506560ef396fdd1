-- ===== src/Disk/Outpoints.antt =====
-- The keys that a block reads and deletes, and the outputs that it takes from what was read.
use bitcoin_query_py.Common.{
  ℕ, ◌+◌, ◌≡◌, ◌⊎◌, refl, sym, ap, ◌∙◌, List, [], ◌∷◌, ◌++◌, map, none, ok, get_elem?, inl, inr,
  Bool-cases,
}
use bitcoin_query_py.Common.Int.{IsU32}
use bitcoin_query_py.Common.Maps.{get, delete, get-delete_self, get-delete_ne}
use bitcoin_query_py.Reader.{Bytes}
use bitcoin_query_py.Bitcoin.{Transactions}
use bitcoin_query_py.Outputs.{Spends, inputs_of}
use bitcoin_query_py.Disk.{
  RocksDb, OutputCodec, Reads, txo_key, input_keys, block_keys, delete_keys,
}
use bitcoin_query_py.Disk.Keys.{bytes_discrete, IsCodec, IsHealthy, txo_key-injective}

-- The key is in the list.
abbrev pub IsAmong : List Bytes → Bytes → Type 0
IsAmong [] key = ⊥
IsAmong (k ∷ keys) key = (k ≡ key) ⊎ IsAmong keys key

is_among : (keys : List Bytes) (key : Bytes) → Dec (IsAmong keys key)
is_among [] key = no (λ h. h)
is_among (k ∷ keys) key = elim (bytes_discrete k key) [
  | yes p ↦ yes (inl p)
  | no n ↦ elim (is_among keys key) [
    | yes later ↦ yes (inr later)
    | no m ↦ no (λ h. elim h [ inl p ↦ n p | inr later ↦ m later ])
  ]
]

module _ (txs : Transactions) (codec : OutputCodec txs) where
  open txs use {Txid, TxIn, Transaction, input, is_null, previous_txid, previous_vout}

  input_keys-append :
      (xs ys : List TxIn)
      → input_keys txs codec (xs ++ ys) ≡ input_keys txs codec xs ++ input_keys txs codec ys
  unfolding input_keys
  input_keys-append [] ys = refl
  input_keys-append (x ∷ xs) ys = elim (Bool-cases (is_null x)) [
    | inl null ↦ rw (null, input_keys-append xs ys) refl
    | inr real ↦ rw (real, input_keys-append xs ys) refl
  ]

  pub block_keys-inputs_of :
      (ts : List Transaction) → block_keys txs codec ts ≡ input_keys txs codec (inputs_of txs ts)
  unfolding block_keys input_keys
  block_keys-inputs_of [] = refl
  block_keys-inputs_of (tx ∷ rest) =
      ap (λ keys. input_keys txs codec (input tx) ++ keys) (block_keys-inputs_of rest)
      ∙ sym (input_keys-append (input tx) (inputs_of txs rest))

  -- The keys are those of the outputs that are spent.
  pub Spends-IsAmong :
      (xs : List TxIn) (t : Txid) (n : ℕ)
      → Spends txs xs t n
      → IsAmong (input_keys txs codec xs) (txo_key txs codec t n)
  unfolding input_keys
  Spends-IsAmong [] t n h = h
  Spends-IsAmong (x ∷ xs) t n h = elim (Bool-cases (is_null x)) [
    | inl null ↦ elim h [
      | inl (real, p, q) ↦ absurd (cc (null, real))
      | inr later ↦ rw null (Spends-IsAmong xs t n later)
    ]
    | inr real ↦ rw real (elim h [
      | inl (_, p, q) ↦ inl (rw (p, q) refl)
      | inr later ↦ inr (Spends-IsAmong xs t n later)
    ])
  ]

  pub IsAmong-Spends :
      (is_codec : IsCodec txs codec) (xs : List TxIn) (t : Txid) (n : ℕ)
      → IsU32 n
      → ((s : Txid) (i : ℕ) → Spends txs xs s i → IsU32 i)
      → IsAmong (input_keys txs codec xs) (txo_key txs codec t n)
      → Spends txs xs t n
  unfolding input_keys
  IsAmong-Spends is_codec [] t n small all_small h = h
  IsAmong-Spends is_codec (x ∷ xs) t n small all_small h = elim (Bool-cases (is_null x)) [
    | inl null ↦
        inr (IsAmong-Spends is_codec xs t n small (λ s i k. all_small s i (inr k)) (rw null at h))
    | inr real ↦
        let found : (txo_key txs codec (previous_txid x) (previous_vout x) ≡ txo_key txs codec t n)
            ⊎ IsAmong (input_keys txs codec xs) (txo_key txs codec t n) =
          rw real at h in
        elim found [
          | inl same ↦
              let (p, q) =
                txo_key-injective txs codec is_codec (previous_txid x) t (previous_vout x) n
                  (all_small _ _ (inl (real, refl, refl))) small same in
              inl (real, p, q)
          | inr later ↦
              inr (IsAmong-Spends is_codec xs t n small (λ s i k. all_small s i (inr k)) later)
        ]
  ]

  module _ {TOut : Type 0} (into : txs.TxOut → TOut) (rocks : RocksDb)
      (healthy : IsHealthy rocks) where
    open rocks use {Db}

    -- Deleting takes out the keys, and nothing else.
    pub delete_keys_lem :
        (keys : List Bytes) (db : Db)
        → (left : Db) × (delete_keys txs codec into rocks keys db ≡ ok left)
          × ((key : Bytes)
              → IsAmong keys key
              → get bytes_discrete key (healthy.content left) ≡ none)
          × ((key : Bytes)
              → ¬ IsAmong keys key
              → get bytes_discrete key (healthy.content left)
                ≡ get bytes_discrete key (healthy.content db))
    unfolding delete_keys
    delete_keys_lem [] db = (db, refl, (λ key h. absurd h), λ key h. refl)
    delete_keys_lem (k ∷ keys) db =
        let (left, runs, same) = healthy.delete_lem k db in
        let (last, more, gone, others) = delete_keys_lem keys left in
        (
          last,
          rw (runs, delete_keys) more,
          (λ key h. gone_too k keys key db left last same gone others h),
          λ key h.
              others key (λ later. h (inr later))
              ∙ same key
              ∙ get-delete_ne bytes_discrete k key (healthy.content db) (λ e. h (inl e)),
        )
      where
        gone_too :
            (k : Bytes) (keys : List Bytes) (key : Bytes) (db left last : Db)
            → ((j : Bytes)
                → get bytes_discrete j (healthy.content left)
                  ≡ get bytes_discrete j (delete bytes_discrete k (healthy.content db)))
            → ((j : Bytes) → IsAmong keys j → get bytes_discrete j (healthy.content last) ≡ none)
            → ((j : Bytes)
                → ¬ IsAmong keys j
                → get bytes_discrete j (healthy.content last)
                  ≡ get bytes_discrete j (healthy.content left))
            → (k ≡ key) ⊎ IsAmong keys key
            → get bytes_discrete key (healthy.content last) ≡ none
        gone_too k keys key db left last same gone others (inr later) = gone key later
        gone_too k keys key db left last same gone others (inl e) = elim (is_among keys key) [
          | yes later ↦ gone key later
          | no absent ↦
              others key absent
              ∙ same key
              ∙ rw (← e) (get-delete_self bytes_discrete k (healthy.content db))
        ]

    -- From the place `pos` on, the reads are those of the keys, at the database `db`.
    abbrev pub AreRead : Db → Reads → ℕ → List Bytes → Type 0
    AreRead db reads pos keys =
        (i : ℕ)
        → get_elem? reads (pos + i)
          ≡ get_elem? (map (λ k. inr (get bytes_discrete k (healthy.content db))) keys) i
