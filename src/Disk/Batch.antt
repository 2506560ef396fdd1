-- ===== src/Disk/Batch.antt =====
-- What a batch of a block leaves under the keys of outputs.
use bitcoin_query_py.Common.{
  ℕ, zero, suc, ◌+◌, ◌≡◌, ◌≢◌, ◌≤◌, ◌<◌, ◌^◌, ◌⊎◌, refl, sym, ap, ◌∙◌, arith, subst, List, [], ◌∷◌,
  some, length, get_elem?, inl, inr,
}
use mathlib.Core.Option.{some_inj}
use bitcoin_query_py.Common.Int.{IsU32}
use bitcoin_query_py.Common.Maps.{get, insert, get-insert_self}
use bitcoin_query_py.Common.InsertAll.{insert_all, insert_all-append, insert_all-other}
use bitcoin_query_py.Reader.{Bytes}
use bitcoin_query_py.Bitcoin.{Transactions}
use bitcoin_query_py.Outputs.{IsOnly}
use bitcoin_query_py.Disk.{OutputCodec, txo_key, txo_to_u8, put_outputs, batch_of}
use bitcoin_query_py.Disk.Keys.{bytes_discrete, IsCodec, txo_key-injective, txo_key-txid}

abbrev pub Content : Type 0
Content = List (Bytes × Bytes)

abbrev pub written : Content → Content → Content
written batch m = insert_all bytes_discrete (λ p. p.0) (λ p. p.1) batch m

module _ (txs : Transactions) (codec : OutputCodec txs) (is_codec : IsCodec txs codec) where
  open txs use {Txid, TxOut, Transaction, txid, output, txid_discrete}

  abbrev key : Txid → ℕ → Bytes
  key = txo_key txs codec

  put_outputs-keys :
      (t : Txid) (k : ℕ) (os : List TxOut) (i : ℕ) {p : Bytes × Bytes}
      → get_elem? (put_outputs txs codec t k os) i ≡ some p
      → (p.0 ≡ key t (k + i)) × (i < length os)
  unfolding put_outputs
  put_outputs-keys t k [] i h = cc
  put_outputs-keys t k (o ∷ os) zero h =
      (ap (λ q. q.0) (sym (some_inj.0 h)) ∙ ap (key t) (omega arith), omega arith)
  put_outputs-keys t k (o ∷ os) (suc i) h =
      let (same, below) = put_outputs-keys t (k + 1) os i h in
      (same ∙ ap (key t) (omega arith), omega arith)

  put_outputs-found :
      (t : Txid) (k : ℕ) (os : List TxOut) (m : Content) (i : ℕ) {o : TxOut}
      → k + length os < 2 ^ 32
      → get_elem? os i ≡ some o
      → get bytes_discrete (key t (k + i)) (written (put_outputs txs codec t k os) m)
        ≡ some (txo_to_u8 txs codec o)
  unfolding put_outputs insert_all
  put_outputs-found t k [] m i few h = cc
  put_outputs-found t k (o ∷ os) m zero few h =
      let at : k + 0 ≡ k = omega arith in
      let m' = insert bytes_discrete (key t k) (txo_to_u8 txs codec o) m in
      rw at (
        insert_all-other bytes_discrete (λ p. p.0) (λ p. p.1) (put_outputs txs codec t (k + 1) os)
          m' (key t k)
          (λ i p h same.
            let (q, below) = put_outputs-keys t (k + 1) os i h in
            let (_, e) =
              txo_key-injective txs codec is_codec t t (k + 1 + i) k (omega arith) (omega arith)
                (sym q ∙ same) in
            absurd (omega (arith, e)))
        ∙ get-insert_self bytes_discrete (key t k) (txo_to_u8 txs codec o) m
        ∙ ap (λ z. some (txo_to_u8 txs codec z)) (some_inj.0 h))
  put_outputs-found t k (o ∷ os) m (suc i) few h =
      let at : k + suc i ≡ (k + 1) + i = omega arith in
      rw at (put_outputs-found t (k + 1) os _ i (omega arith) h)

  put_outputs-other :
      (t s : Txid) (os : List TxOut) (m : Content) (n : ℕ)
      → (t ≢ s) ⊎ (IsU32 (length os) × IsU32 n × (length os ≤ n))
      → get bytes_discrete (key s n) (written (put_outputs txs codec t 0 os) m)
        ≡ get bytes_discrete (key s n) m
  put_outputs-other t s os m n far =
      insert_all-other bytes_discrete (λ p. p.0) (λ p. p.1) (put_outputs txs codec t 0 os) m
        (key s n)
        (λ i p h same.
          let (q, below) = put_outputs-keys t 0 os i h in
          elim far [
            | inl ne ↦ ne (txo_key-txid txs codec is_codec t s (0 + i) n (sym q ∙ same))
            | inr (few, fits, beyond) ↦
                let e : key t (0 + i) ≡ key s n = sym q ∙ same in
                let t_s = txo_key-txid txs codec is_codec t s (0 + i) n e in
                let (_, level) =
                  txo_key-injective txs codec is_codec t s (0 + i) n (omega arith) fits e in
                absurd (omega (arith, level))
          ])

  batch_of-cons :
      (tx : Transaction) (rest : List Transaction) (m : Content)
      → written (batch_of txs codec (tx ∷ rest)) m
        ≡ written
            (batch_of txs codec rest)
            (written (put_outputs txs codec (txid tx) 0 (output tx)) m)
  unfolding batch_of
  batch_of-cons tx rest m =
      insert_all-append bytes_discrete (λ p. p.0) (λ p. p.1)
        (put_outputs txs codec (txid tx) 0 (output tx)) (batch_of txs codec rest) m

  pub batch_of-other :
      (ts : List Transaction) (m : Content) (t : Txid) (n : ℕ)
      → ((i : ℕ) (tx : Transaction) → get_elem? ts i ≡ some tx → txid tx ≢ t)
      → get bytes_discrete (key t n) (written (batch_of txs codec ts) m)
        ≡ get bytes_discrete (key t n) m
  unfolding batch_of insert_all
  batch_of-other [] m t n absent = refl
  batch_of-other (tx ∷ rest) m t n absent =
      ap (get bytes_discrete (key t n)) (batch_of-cons tx rest m)
      ∙ batch_of-other rest _ t n (λ i y h. absent (suc i) y h)
      ∙ put_outputs-other (txid tx) t (output tx) m n (inl (absent 0 tx refl))

  pub batch_of-found :
      (ts : List Transaction) (m : Content) (tx : Transaction) (n : ℕ) {o : TxOut}
      → IsOnly txs ts tx
      → IsU32 (length (output tx))
      → get_elem? (output tx) n ≡ some o
      → (get bytes_discrete (key (txid tx) n) m ≡ some (txo_to_u8 txs codec o))
        ⊎ ((i : ℕ) × (get_elem? ts i ≡ some tx))
      → get bytes_discrete (key (txid tx) n) (written (batch_of txs codec ts) m)
        ≡ some (txo_to_u8 txs codec o)
  unfolding batch_of insert_all
  batch_of-found [] m tx n only few at (inl held) = held
  batch_of-found [] m tx n only few at (inr (i, h)) = cc
  batch_of-found (x ∷ rest) m tx n {o} only few at where_ =
      let step = put_outputs txs codec (txid x) 0 (output x) in
      let next = batch_of-found rest (written step m) tx n (λ j y h. only (suc j) y h) few at in
      ap (get bytes_discrete (key (txid tx) n)) (batch_of-cons x rest m)
      ∙ elim (txid_discrete (txid x) (txid tx)) [
        | yes p ↦
            let same : x ≡ tx = only 0 x refl p in
            let level : 0 + n ≡ n = omega arith in
            let first =
              rw level at (put_outputs-found (txid tx) 0 (output tx) m n (omega arith) at) in
            next (
              inl (
                subst
                  (λ y.
                    get bytes_discrete (key (txid tx) n)
                      (written (put_outputs txs codec (txid y) 0 (output y)) m)
                    ≡ some (txo_to_u8 txs codec o))
                  (sym same) first))
        | no ne ↦ next (elim where_ [
          | inl held ↦ inl (put_outputs-other (txid x) (txid tx) (output x) m n (inl ne) ∙ held)
          | inr (zero, h) ↦ absurd (ne (ap txid (some_inj.0 h)))
          | inr (suc i, h) ↦ inr (i, h)
        ])
      ]

  pub batch_of-beyond :
      (ts : List Transaction) (m : Content) (tx : Transaction) (n : ℕ)
      → IsOnly txs ts tx
      → IsU32 (length (output tx))
      → IsU32 n
      → length (output tx) ≤ n
      → get bytes_discrete (key (txid tx) n) (written (batch_of txs codec ts) m)
        ≡ get bytes_discrete (key (txid tx) n) m
  unfolding batch_of insert_all
  batch_of-beyond [] m tx n only few fits beyond = refl
  batch_of-beyond (x ∷ rest) m tx n only few fits beyond =
      ap (get bytes_discrete (key (txid tx) n)) (batch_of-cons x rest m)
      ∙ batch_of-beyond rest _ tx n (λ j y h. only (suc j) y h) few fits beyond
      ∙ put_outputs-other (txid x) (txid tx) (output x) m n
          (elim (txid_discrete (txid x) (txid tx)) [
            | yes p ↦
                let same : x ≡ tx = only 0 x refl p in
                inr (rw (ap (λ y. length (output y)) same) (few, fits, beyond))
            | no ne ↦ inl ne
          ])
