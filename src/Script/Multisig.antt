-- ===== src/Script/Multisig.antt =====
-- `is_multisig` and `multisig_addresses` against the form of a multisig script.
use bitcoin_query_py.Common.{
  ℕ, suc, ◌+◌, ◌-◌, ◌≤◌, ◌≡◌, ◌↔◌, ◌⊎◌, inl, inr, refl, sym, ap, ◌∙◌, arith, List, [], ◌∷◌, ◌++◌,
  map, Bool, true, false, ◌&&◌, Result, ok, some, ltb, leb, if◌then◌else◌, length, get_elem?,
  length-append, take_append, ok-injective, leb_of_le,
}
use bitcoin_query_py.Reader.{Bytes}
use bitcoin_query_py.Bitcoin.{Instruction, push_bytes, op}
use bitcoin_query_py.Script.Chunks.{
  is_check_multisig_iff, counts_chunks_iff, at_least_one_iff, all_data_iff,
}
use bitcoin_query_py.Script.{
  get_num_keys, is_check_multisig, counts_chunks, at_least_one, all_data, has_multisig_form,
}

-- m, the keys, n and the check: m and n between 1 and 16, and n keys.
pub record IsMultisig (chunks : List Instruction) : Type 0 where
  pub m : ℕ
  pub keys : List Bytes
  pub check : ℕ
  pub form :
      chunks ≡ op (m + 0x50) ∷ (map push_bytes keys ++ (op (length keys + 0x50) ∷ op check ∷ []))
  pub required : (1 ≤ m) × (m ≤ 16)
  pub given : (1 ≤ length keys) × (length keys ≤ 16)
  pub checks : (check ≡ 0xae) ⊎ (check ≡ 0xaf)

abbrev enclosed : Instruction → List Instruction → Instruction → Instruction → List Instruction
enclosed a mid s l = a ∷ (mid ++ (s ∷ l ∷ []))

pub get_elem?-end :
    (mid : List Instruction) (s l : Instruction)
    → (get_elem? (mid ++ (s ∷ l ∷ [])) (length mid) ≡ some s)
      × (get_elem? (mid ++ (s ∷ l ∷ [])) (suc (length mid)) ≡ some l)
get_elem?-end [] s l = (refl, refl)
get_elem?-end (x ∷ mid) s l = get_elem?-end mid s l

split_end :
    (x y : Instruction) (xs : List Instruction)
    → (mid : List Instruction) × (s : Instruction) × (l : Instruction) × (x ∷ y ∷ xs
        ≡ mid ++ (s ∷ l ∷ []))
split_end x y [] = ([], x, y, refl)
split_end x y (z ∷ xs) = let (mid, s, l, e) = split_end y z xs in (x ∷ mid, s, l, ap (◌∷◌ x) e)

-- The tests, as one conjunction.
abbrev all_tests : ℕ → Instruction → List Instruction → Instruction → Instruction → Bool
all_tests n a mid s l =
    leb 1 n
    && (is_check_multisig l
        && ((counts_chunks (get_num_keys s) (n + 3) && all_data mid)
            && at_least_one (get_num_keys a)))

tests_in_order :
    (n : ℕ) (check counts first : Bool)
    → ◌≡◌ {A = Result ⊥ Bool}
        (if ltb (n + 3) 4
          then ok false
          else if check
          then (if counts then ok first else ok false)
          else ok false)
        (ok (leb 1 n && (check && (counts && first))))
tests_in_order n true true first = ground arith
tests_in_order n true false first = ground arith
tests_in_order n false counts first = ground arith

-- The tests of the code on a list with both its ends in view.
has_multisig_form-enclosed :
    (a : Instruction) (mid : List Instruction) (s l : Instruction)
    → has_multisig_form (enclosed a mid s l) ≡ ok (all_tests (length mid) a mid s l)
unfolding has_multisig_form
has_multisig_form-enclosed a mid s l =
    let n = length mid in
    let size : length (enclosed a mid s l) ≡ n + 3 =
      omega (arith, length-append mid (s ∷ l ∷ [])) in
    let at_last : n + 3 - 1 ≡ suc (suc n) = omega arith in
    let at_second : n + 3 - 2 ≡ suc n = omega arith in
    let count : n + 3 - 3 ≡ n = omega arith in
    let (before, end) = get_elem?-end mid s l in
    rw (size, at_last, at_second, count, before, end, take_append mid (s ∷ l ∷ []))
      (tests_in_order n (is_check_multisig l)
        (counts_chunks (get_num_keys s) (n + 3) && all_data mid) (at_least_one (get_num_keys a)))

-- A list that is too short for its ends is refused.
ends_in_view :
    (chunks : List Instruction)
    → (has_multisig_form chunks ≡ ok false)
      ⊎ ((a : Instruction) × (mid : List Instruction) × (s : Instruction) × (l : Instruction)
          × (chunks ≡ enclosed a mid s l))
unfolding has_multisig_form
ends_in_view [] = inl refl
ends_in_view (a ∷ []) = inl refl
ends_in_view (a ∷ b ∷ []) = inl refl
ends_in_view (a ∷ b ∷ c ∷ is) =
    let (mid, s, l, e) = split_end b c is in inr (a, mid, s, l, ap (◌∷◌ a) e)

-- The tests never panic.
pub has_multisig_form_total :
    (chunks : List Instruction) → (b : Bool) × (has_multisig_form chunks ≡ ok b)
has_multisig_form_total chunks = elim (ends_in_view chunks) [
  | inl short ↦ (false, short)
  | inr (a, mid, s, l, e) ↦ (
    all_tests (length mid) a mid s l,
    ap has_multisig_form e ∙ has_multisig_form-enclosed a mid s l,
  )
]

all_true_iff :
    (a b c d e : Bool)
    → ((a && (b && ((c && d) && e))) ≡ true)
      ↔ ((a ≡ true) × (b ≡ true) × (c ≡ true) × (d ≡ true) × (e ≡ true))
all_true_iff true true true true e = (λ h. (refl, refl, refl, refl, h), λ (_, _, _, _, h). h)
all_true_iff true true true false e = (λ h. cc, λ (_, _, _, h, _). cc)
all_true_iff true true false d e = (λ h. cc, λ (_, _, h, _, _). cc)
all_true_iff true false c d e = (λ h. cc, λ (_, h, _, _, _). cc)
all_true_iff false b c d e = (λ h. cc, λ (h, _, _, _, _). cc)

pub length-map_push : (keys : List Bytes) → length (map push_bytes keys) ≡ length keys
length-map_push [] = refl
length-map_push (k ∷ keys) = ap suc (length-map_push keys)

all_tests-IsMultisig :
    (a : Instruction) (mid : List Instruction) (s l : Instruction)
    → all_tests (length mid) a mid s l ≡ true
    → IsMultisig (enclosed a mid s l)
all_tests-IsMultisig a mid s l h =
    let counts = counts_chunks (get_num_keys s) (length mid + 3) in
    let ends = at_least_one (get_num_keys a) in
    let (_, last, second, between, first) =
      (all_true_iff (leb 1 (length mid)) (is_check_multisig l) counts (all_data mid) ends).0 h in
    let (keys, middle) = (all_data_iff mid).0 between in
    let (check, at_l, checks) = (is_check_multisig_iff l).0 last in
    let (m, at_a, low, high) = (at_least_one_iff a).0 first in
    let same : length mid ≡ length keys = ap length middle ∙ length-map_push keys in
    let (at_s, some_key, few) = (counts_chunks_iff s (length mid)).0 second in
    record {
      m = m;
      keys = keys;
      check = check;
      form =
          rw (at_a, middle, at_s, at_l, same)
            (ap (λ n. enclosed (op (m + 0x50)) (map push_bytes keys) (op (n + 0x50)) (op check))
              (omega arith));
      required = (low, high);
      given = (omega arith, omega arith);
      checks = checks;
    }

IsMultisig-all_tests :
    (m check : ℕ) (keys : List Bytes)
    → (1 ≤ m) × (m ≤ 16)
    → (1 ≤ length keys) × (length keys ≤ 16)
    → (check ≡ 0xae) ⊎ (check ≡ 0xaf)
    → all_tests
        (length (map push_bytes keys))
        (op (m + 0x50))
        (map push_bytes keys)
        (op (length keys + 0x50))
        (op check)
      ≡ true
IsMultisig-all_tests m check keys required (some_key, few) checks =
    let mid = map push_bytes keys in
    let same = length-map_push keys in
    let first = (at_least_one_iff (op (m + 0x50))).1 (m, refl, required.0, required.1) in
    let last = (is_check_multisig_iff (op check)).1 (check, refl, checks) in
    let between = (all_data_iff mid).1 (keys, refl) in
    let second =
      (counts_chunks_iff (op (length keys + 0x50)) (length mid)).1
        (ap op (omega arith), omega arith, omega arith) in
    (all_true_iff _ _ _ _ _).1
      (leb_of_le 1 (length mid) (omega arith), last, second, between, first)

-- The tests accept exactly the chunks of the form m, keys, n, check.
pub has_multisig_form_iff :
    (chunks : List Instruction) → (has_multisig_form chunks ≡ ok true) ↔ IsMultisig chunks
has_multisig_form_iff chunks = (
  λ accepted. elim (ends_in_view chunks) [
    | inl short ↦ absurd (cc)
    | inr (a, mid, s, l, e) ↦ rw e (
        all_tests-IsMultisig a mid s l
          (ok-injective (sym (has_multisig_form-enclosed a mid s l) ∙ (rw e at accepted))))
  ],
  λ f.
      ap has_multisig_form f.form
      ∙ has_multisig_form-enclosed _ (map push_bytes f.keys) _ _
      ∙ ap ok (IsMultisig-all_tests f.m f.check f.keys f.required f.given f.checks),
)
