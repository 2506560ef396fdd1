-- ===== src/IterBlock/Order.antt =====
-- The order of the blocks that the iterators hand out, and where they stop.
use bitcoin_query_py.Common.{
  ℕ, zero, suc, ◌+◌, ◌-◌, ◌≡◌, ◌≢◌, ◌<◌, ◌↔◌, ◌⊎◌, refl, sym, ap, ◌∙◌, arith, List, [], ◌∷◌, none,
  some, Result, ok, panic, String, leb, ltb, ltb_of_lt, if◌then◌else◌, get_elem?, Result-cases, inl,
  inr, Bool-cases,
}
use mathlib.Core.Option.{some_inj}
use bitcoin_query_py.Errors.{OpResult}
use bitcoin_query_py.IterBlock.{
  until_error, ParIterSync, IsSync, range, read_task, new, from_range, iter_block, iter_heights,
}

-- What stands at a place of the results: the result of that task, all tasks in front being done.
abbrev pub IsResultAt : {I O : Type 0} → (I → Result (Unit {0}) O) → List I → ℕ → O → Type 0
IsResultAt {I} {O} f tasks i out =
    ((task : I) × (get_elem? tasks i ≡ some task) × (f task ≡ ok out))
    × ((j : ℕ) (task : I) → j < i → get_elem? tasks j ≡ some task → (o : O) × (f task ≡ ok o))

until_error-ok :
    {I O : Type 0} (f : I → Result (Unit {0}) O) (task : I) (rest : List I) {o : O}
    → f task ≡ ok o
    → until_error f (task ∷ rest) ≡ o ∷ until_error f rest
unfolding until_error
until_error-ok f task rest e = rw (e, until_error) refl

until_error-failed :
    {I O : Type 0} (f : I → Result (Unit {0}) O) (task : I) (rest : List I)
    → ((o : O) → f task ≢ ok o)
    → until_error f (task ∷ rest) ≡ []
unfolding until_error
until_error-failed f task rest failed = elim (Result-cases (f task)) [
  | inl (o, e) ↦ absurd (failed o e)
  | inr (inl (_, e)) ↦ rw (e, until_error) refl
  | inr (inr (_, e)) ↦ rw (e, until_error) refl
]

nothing_at : {O : Type 0} (l : List O) (i : ℕ) {out : O} → l ≡ [] → get_elem? l i ≢ some out
nothing_at l i e h = absurd (cc (ap (λ k. get_elem? k i) e, h))

-- The task in front gives a value, or none.
tried :
    {I O : Type 0} (f : I → Result (Unit {0}) O) (task : I)
    → ((o : O) × (f task ≡ ok o)) ⊎ ((o : O) → f task ≢ ok o)
tried f task = elim (Result-cases (f task)) [
  | inl done ↦ inl done
  | inr (inl (_, e)) ↦ inr (λ o k. absurd (cc (e, k)))
  | inr (inr (_, e)) ↦ inr (λ o k. absurd (cc (e, k)))
]

until_error_iff :
    {I O : Type 0} (f : I → Result (Unit {0}) O) (tasks : List I) (i : ℕ) (out : O)
    → (get_elem? (until_error f tasks) i ≡ some out) ↔ IsResultAt f tasks i out
unfolding until_error
until_error_iff f [] i out = (λ h. absurd (cc h), λ h. absurd (cc (h.0.1)))
until_error_iff f (task ∷ rest) zero out = elim (tried f task) [
  | inl (o, e) ↦ (
    λ h.
        let first = ap (λ l. get_elem? l 0) (sym (until_error-ok f task rest e)) ∙ h in
        ((task, refl, e ∙ ap ok (some_inj.0 first)), λ j t below. absurd (omega arith)),
    λ h.
        let same : f task ≡ ok out = ap f (some_inj.0 h.0.1) ∙ h.0.2 in
        ap (λ l. get_elem? l 0) (until_error-ok f task rest same),
  )
  | inr failed ↦ (
    λ h. absurd (nothing_at _ 0 (until_error-failed f task rest failed) h),
    λ h. absurd (failed out (ap f (some_inj.0 h.0.1) ∙ h.0.2)),
  )
]
until_error_iff f (task ∷ rest) (suc i) out = elim (tried f task) [
  | inl (o, e) ↦
      let later = until_error_iff f rest i out in
      let shift = ap (λ l. get_elem? l (suc i)) (until_error-ok f task rest e) in
      (
        λ h. let (at, front) = later.0 (sym shift ∙ h) in (at, front_cons f task rest i o e front),
        λ h. shift ∙ later.1 (h.0, λ j t below at. h.1 (suc j) t (omega arith) at),
      )
  | inr failed ↦ (
    λ h. absurd (nothing_at _ (suc i) (until_error-failed f task rest failed) h),
    λ h. let (o, k) = h.1 0 task (omega arith) refl in absurd (failed o k),
  )
]
  where
    front_cons :
        {I O : Type 0} (f : I → Result (Unit {0}) O) (task : I) (rest : List I) (i : ℕ) (o : O)
        → f task ≡ ok o
        → ((j : ℕ) (t : I) → j < i → get_elem? rest j ≡ some t → (p : O) × (f t ≡ ok p))
        → (j : ℕ) (t : I) → j < suc i
        → get_elem? (task ∷ rest) j ≡ some t
        → (p : O) × (f t ≡ ok p)
    front_cons f task rest i o e front zero t below at = (o, ap f (sym (some_inj.0 at)) ∙ e)
    front_cons f task rest i o e front (suc j) t below at = front j t (omega arith) at

range-get_elem? :
    (start n i : ℕ) → get_elem? (range start n) i ≡ (if ltb i n then some (start + i) else none)
unfolding range
range-get_elem? start zero i = ground arith
range-get_elem? start (suc n) zero = ground arith
range-get_elem? start (suc n) (suc i) = ground (arith, range-get_elem? (start + 1) n i)

range-some :
    (start n i : ℕ) {h : ℕ} → get_elem? (range start n) i ≡ some h → (i < n) × (start + i ≡ h)
range-some start n i e = elim (Bool-cases (ltb i n)) [
  | inl inside ↦ (ground arith, some_inj.0 (rw inside at (sym (range-get_elem? start n i) ∙ e)))
  | inr outside ↦ absurd (cc (rw outside at (sym (range-get_elem? start n i) ∙ e)))
]

range-inside : (start n i : ℕ) → i < n → get_elem? (range start n) i ≡ some (start + i)
range-inside start n i inside = rw (range-get_elem? start n i, ltb_of_lt i n inside) refl

module _ (par : ParIterSync) (sync : IsSync par) {T : Type 0} (get_block : ℕ → OpResult T)
    (returns : (h : ℕ) (text : String) → get_block h ≢ panic text) where
  read_task-panic : (h : ℕ) (text : String) → read_task par get_block h ≢ panic text
  unfolding read_task
  read_task-panic h text = elim (Result-cases (get_block h)) [
    | inl (b, e) ↦ rw (e, read_task) (λ k. cc)
    | inr (inl (_, e)) ↦ rw (e, read_task) (λ k. cc)
    | inr (inr (t, e)) ↦ absurd (returns h t e)
  ]

  read_task_iff : (h : ℕ) (b : T) → (read_task par get_block h ≡ ok b) ↔ (get_block h ≡ ok b)
  unfolding read_task
  read_task_iff h b = elim (Result-cases (get_block h)) [
    | inl (c, e) ↦ rw (e, read_task) (λ k. cc, λ k. cc)
    | inr (inl (_, e)) ↦ rw (e, read_task) (λ k. absurd (cc k), λ k. absurd (cc k))
    | inr (inr (t, e)) ↦ absurd (returns h t e)
  ]

  -- If reading does not panic, the blocks of `iter_heights` are those of the heights in their order, up
  -- to the first that cannot be read.
  pub iter_heights_iff :
      (heights : List ℕ) (i : ℕ) (b : T)
      → (get_elem? (iter_heights par get_block heights) i ≡ some b) ↔ (
          ((h : ℕ) × (get_elem? heights i ≡ some h) × (get_block h ≡ ok b))
          × ((j h : ℕ) → j < i → get_elem? heights j ≡ some h → (c : T) × (get_block h ≡ ok c)))
  unfolding iter_heights new
  iter_heights_iff heights i b =
      let same = sync ℕ T heights (read_task par get_block) read_task-panic in
      let spec = until_error_iff (read_task par get_block) heights i b in
      (
        λ h.
            let ((task, at, e), front) = spec.0 (ap (λ l. get_elem? l i) (sym same) ∙ h) in
            (
              (task, at, (read_task_iff task b).0 e),
              λ j k below here. let (c, d) = front j k below here in (c, (read_task_iff k c).0 d),
            ),
        λ ((k, at, e), front).
            ap (λ l. get_elem? l i) same
            ∙ spec.1 (
              (k, at, (read_task_iff k b).1 e),
              λ j m below here. let (c, d) = front j m below here in (c, (read_task_iff m c).1 d),
            ),
      )

  iter_block-range :
      (start end : ℕ)
      → iter_block par get_block start end ≡ iter_heights par get_block (range start (end - start))
  unfolding iter_block iter_heights from_range range
  iter_block-range start end = elim (Bool-cases (leb end start)) [
    | inl empty ↦ let none_left : end - start ≡ 0 = ground arith in rw (empty, none_left) refl
    | inr some_left ↦ rw some_left refl
  ]

  -- If reading does not panic, the blocks of `iter_block` are those of the heights from `start` on, below
  -- `end`, up to the first that cannot be read.
  pub iter_block_iff :
      (start end i : ℕ) (b : T)
      → (get_elem? (iter_block par get_block start end) i ≡ some b) ↔ (
          (start + i < end)
          × (get_block (start + i) ≡ ok b)
          × ((j : ℕ) → j < i → (c : T) × (get_block (start + j) ≡ ok c)))
  iter_block_iff start end i b =
      let same = iter_block-range start end in
      let spec = iter_heights_iff (range start (end - start)) i b in
      (
        λ h.
            let ((k, at, e), front) = spec.0 (ap (λ l. get_elem? l i) (sym same) ∙ h) in
            let (inside, level) = range-some start (end - start) i at in
            (
              omega arith,
              rw level e,
              λ j below.
                  front j (start + j) below (range-inside start (end - start) j (omega arith)),
            ),
        λ (inside, e, front).
            ap (λ l. get_elem? l i) same
            ∙ spec.1 (
              (start + i, range-inside start (end - start) i (omega arith), e),
              λ j m below here.
                  let (_, level) = range-some start (end - start) j here in
                  let (c, d) = front j below in (c, rw (← level) d),
            ),
      )
