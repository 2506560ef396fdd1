-- ===== src/BlockIndex/Collect.antt =====
-- The loop over the database: what is in the map after it, and which block is the highest.
use bitcoin_query_py.Common.{
  regroup, regroup_back, ◌≡◌, refl, sym, ◌∙◌, arith, List, [], ◌∷◌, ◌++◌, Option, true, false, none,
  some, ◌⊎◌, inl, inr, ok, err, ◌>>=◌, >>=-eq-ok, ok-injective, if◌then◌else◌, Bool-cases,
}
use bitcoin_query_py.Common.Int.{ℤ, ◌≤ℤ◌, ltb_ℤ, ≤ℤ_trans, le_of_ltb, le_of_not_ltb}
use bitcoin_query_py.Common.Maps.{get, get-insert_self, get-insert_cases, get-insert-some}
use bitcoin_query_py.Errors.{OpError}
use bitcoin_query_py.Reader.{Bytes}
use bitcoin_query_py.Bitcoin.{Headers}
use bitcoin_query_py.BlockIndex.{
  Record, Entry, Collected, is_block_index_record, is_accepted, from, update_max, add_record,
  load_entry, load_entries,
}
use bitcoin_query_py.BlockIndex.Walk.{IsKeyed}

module _ (lib : Headers) where
  open lib use {BlockHash, hash_discrete, block_hash}

  -- The entry is a block index record, decodes to `r`, and passes the filter.
  abbrev pub Gives : Entry lib → Record lib → Type 0
  Gives (key, value) r =
      (is_block_index_record key ≡ true) × (from lib value ≡ ok r) × (is_accepted r ≡ true)

  -- The records that the database offers.
  abbrev pub Offers : List (Entry lib) → Record lib → Type 0
  Offers [] r = ⊥
  Offers (e ∷ es) r = Gives e r ⊎ Offers es r

  -- Every entry that is a block index record decodes.
  abbrev pub Decodes : List (Entry lib) → Type 0
  Decodes [] = Unit
  Decodes ((key, value) ∷ es) =
      (is_block_index_record key ≡ true → (r : Record lib) × (from lib value ≡ ok r)) × Decodes es

  -- The greatest height so far, of a set of records.
  abbrev pub IsMax : Option (BlockHash × ℤ) → (Record lib → Type 0) → Type 0
  IsMax none P = (r : Record lib) → ¬ P r
  IsMax (some (hash, height)) P =
      ((r : Record lib) → P r → r.n_height ≤ℤ height)
      × ((r : Record lib) × P r × (block_hash r.block_header ≡ hash) × (r.n_height ≡ height))

  IsMax-iff :
      (P Q : Record lib → Type 0) (max : Option (BlockHash × ℤ))
      → ((r : Record lib) → P r → Q r)
      → ((r : Record lib) → Q r → P r)
      → IsMax max P
      → IsMax max Q
  IsMax-iff P Q none there back none_met = λ r q. none_met r (back r q)
  IsMax-iff P Q (some (hash, height)) there back (above, (r, p, same, top)) =
      (λ r' q. above r' (back r' q), (r, there r p, same, top))

  -- What holds of the locals when the records `P` have been met.
  pub record Tracks (P : Record lib → Type 0) (s : Collected lib) : Type 0 where
    pub keyed : IsKeyed lib s.by_hash
    pub met : (k : BlockHash) (r : Record lib) → get hash_discrete k s.by_hash ≡ some r → P r
    pub covers :
        (r : Record lib)
        → P r
        → (r' : Record lib) × (get hash_discrete (block_hash r.block_header) s.by_hash ≡ some r')
    pub highest : IsMax s.max_height P

  abbrev pub Or : (Record lib → Type 0) → Record lib → Record lib → Type 0
  Or P r r' = P r' ⊎ (r ≡ r')

  le_of_eq : (r r' : Record lib) → r ≡ r' → r'.n_height ≤ℤ r.n_height
  le_of_eq r r' e = rw e (omega arith)

  IsMax-update :
      (P : Record lib → Type 0) (max : Option (BlockHash × ℤ)) (r : Record lib)
      → IsMax max P
      → IsMax (update_max lib max (block_hash r.block_header) r.n_height) (Or P r)
  unfolding update_max
  IsMax-update P none r none_met = (
    λ r' p. elim p [ inl q ↦ absurd (none_met r' q) | inr e ↦ le_of_eq r r' e ],
    (r, inr refl, refl, refl),
  )
  IsMax-update P (some (old, top)) r (above, (best, p, hash, height)) =
      elim (Bool-cases (ltb_ℤ top r.n_height)) [
        | inl higher ↦ rw higher (
          λ r' q. elim q [
            | inl m ↦
                ≤ℤ_trans r'.n_height top r.n_height (above r' m) (le_of_ltb top r.n_height higher)
            | inr e ↦ le_of_eq r r' e
          ],
          (r, inr refl, refl, refl),
        )
        | inr not_higher ↦ rw not_higher (
          λ r' q. elim q [
            | inl m ↦ above r' m
            | inr e ↦
                ≤ℤ_trans r'.n_height r.n_height top (le_of_eq r r' e)
                  (le_of_not_ltb top r.n_height not_higher)
          ],
          (best, inl p, hash, height),
        )
      ]

  Tracks-add :
      (P : Record lib → Type 0) (s : Collected lib) (r : Record lib)
      → Tracks P s
      → Tracks (Or P r) (add_record lib s r)
  unfolding add_record
  Tracks-add P s r t =
      let hash = block_hash r.block_header in
      record {
        keyed = λ k r' h. elim (get-insert_cases hash_discrete hash k r s.by_hash h) [
          | inl (p, q) ↦ rw (← q) p
          | inr (_, old) ↦ t.keyed k r' old
        ];
        met = λ k r' h. elim (get-insert_cases hash_discrete hash k r s.by_hash h) [
          | inl (_, q) ↦ inr q
          | inr (_, old) ↦ inl (t.met k r' old)
        ];
        covers = λ r' p. elim p [
          | inl m ↦ get-insert-some hash_discrete hash _ r s.by_hash (t.covers r' m).1
          | inr e ↦ (r, rw (← e) (get-insert_self hash_discrete hash r s.by_hash))
        ];
        highest = IsMax-update P s.max_height r t.highest;
      }

  pub Tracks-iff :
      (P Q : Record lib → Type 0) (s : Collected lib)
      → ((r : Record lib) → P r → Q r)
      → ((r : Record lib) → Q r → P r)
      → Tracks P s
      → Tracks Q s
  Tracks-iff P Q s there back t = record {
    keyed = t.keyed;
    met = λ k r h. there r (t.met k r h);
    covers = λ r q. t.covers r (back r q);
    highest = IsMax-iff P Q s.max_height there back t.highest;
  }

  Tracks-skip :
      (P Q : Record lib → Type 0) (s : Collected lib)
      → ((r : Record lib) → ¬ Q r)
      → Tracks P s
      → Tracks (λ r. P r ⊎ Q r) s
  Tracks-skip P Q s none_new t =
      Tracks-iff P (λ r. P r ⊎ Q r) s (λ r p. inl p)
        (λ r q. elim q [ inl p ↦ p | inr new ↦ absurd (none_new r new) ]) t

  load_entry-block :
      (s : Collected lib) (key value : Bytes)
      → is_block_index_record key ≡ true
      → load_entry lib s (key, value)
        ≡ (from lib value >>= λ r. ok (if is_accepted r then add_record lib s r else s))
  unfolding load_entry
  load_entry-block s key value block = rw block

  load_entry-other :
      (s : Collected lib) (key value : Bytes)
      → is_block_index_record key ≡ false
      → load_entry lib s (key, value) ≡ ok s
  unfolding load_entry
  load_entry-other s key value other = rw other

  Gives-unique : (e : Entry lib) (r r' : Record lib) → Gives e r → Gives e r' → r ≡ r'
  Gives-unique (key, value) r r' (_, p, _) (_, q, _) = cc

  not-Gives_rejected :
      (e : Entry lib) (r : Record lib)
      → from lib e.1 ≡ ok r
      → is_accepted r ≡ false
      → (r' : Record lib) → ¬ Gives e r'
  not-Gives_rejected (key, value) r decoded rejected r' (_, q, accepted) =
      let same : r ≡ r' = cc in cc

  -- One round of the loop, where it succeeds.
  load_entry-Tracks :
      (P : Record lib → Type 0) (s s' : Collected lib) (e : Entry lib)
      → Tracks P s
      → load_entry lib s e ≡ ok s'
      → Tracks (λ r. P r ⊎ Gives e r) s'
  load_entry-Tracks P s s' (key, value) t e = elim (Bool-cases (is_block_index_record key)) [
    | inl block ↦
        let (r, decoded, kept) =
          >>=-eq-ok (from lib value) _ (sym (load_entry-block s key value block) ∙ e) in
        elim (Bool-cases (is_accepted r)) [
          | inl accepted ↦
              let done : add_record lib s r ≡ s' = ok-injective (rw accepted at kept) in
              rw (← done) (
                Tracks-iff (Or P r) _ (add_record lib s r)
                  (λ r' p. elim p [
                    | inl m ↦ inl m
                    | inr same ↦ inr (rw (← same) (block, decoded, accepted))
                  ])
                  (λ r' p. elim p [
                    | inl m ↦ inl m
                    | inr g ↦ inr (Gives-unique (key, value) r r' (block, decoded, accepted) g)
                  ])
                  (Tracks-add P s r t))
          | inr rejected ↦
              let done : s ≡ s' = ok-injective (rw rejected at kept) in
              rw (← done) (
                Tracks-skip P (Gives (key, value)) s
                  (not-Gives_rejected (key, value) r decoded rejected) t)
        ]
    | inr other ↦
        let done : s ≡ s' = ok-injective (sym (load_entry-other s key value other) ∙ e) in
        rw (← done) (Tracks-skip P (Gives (key, value)) s (λ r' g. absurd (cc (g.0))) t)
  ]

  -- The whole loop, where it succeeds: it has met what was met before and what the entries offer.
  pub load_entries-Tracks :
      (P : Record lib → Type 0) (es : List (Entry lib)) (s s' : Collected lib)
      → Tracks P s
      → load_entries lib es s ≡ ok s'
      → Tracks (λ r. P r ⊎ Offers es r) s'
  unfolding load_entries
  load_entries-Tracks P [] s s' t e =
      rw (← ok-injective e) (Tracks-skip P (Offers []) s (λ r o. o) t)
  load_entries-Tracks P (x ∷ es) s s' t e =
      let (s₁, round, later) = >>=-eq-ok (load_entry lib s x) _ e in
      Tracks-iff _ _ s' (λ r p. regroup p) (λ r p. regroup_back p)
        (load_entries-Tracks (λ r. P r ⊎ Gives x r) es s₁ s' (load_entry-Tracks P s s₁ x t round)
          later)

  load_entry_total :
      (s : Collected lib) (e : Entry lib) (es : List (Entry lib))
      → Decodes (e ∷ es)
      → (s' : Collected lib) × (load_entry lib s e ≡ ok s')
  load_entry_total s (key, value) es d = elim (Bool-cases (is_block_index_record key)) [
    | inl block ↦
        let (r, decoded) = d.0 block in
        (
          (if is_accepted r then add_record lib s r else s),
          load_entry-block s key value block ∙ rw decoded,
        )
    | inr other ↦ (s, load_entry-other s key value other)
  ]

  -- The loop succeeds if every block index record in the database decodes.
  pub load_entries_total :
      (es : List (Entry lib)) (s : Collected lib)
      → Decodes es
      → (s' : Collected lib) × (load_entries lib es s ≡ ok s')
  unfolding load_entries
  load_entries_total [] s d = (s, refl)
  load_entries_total (e ∷ es) s d =
      let (s₁, round) = load_entry_total s e es d in
      let (s', later) = load_entries_total es s₁ d.1 in (s', rw round later)

  -- The first one that does not ends the loop with its error.
  pub load_entries_error :
      (es later : List (Entry lib)) (key value : Bytes) (s : Collected lib) (x : OpError)
      → Decodes es
      → is_block_index_record key ≡ true
      → from lib value ≡ err x
      → load_entries lib (es ++ (key, value) ∷ later) s ≡ err x
  unfolding load_entries
  load_entries_error [] later key value s x d block bad =
      rw (load_entry-block s key value block, bad)
  load_entries_error (e ∷ es) later key value s x d block bad =
      let (s₁, round) = load_entry_total s e es d in
      rw round (load_entries_error es later key value s₁ x d.1 block bad)
