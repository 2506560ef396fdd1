-- ===== src/BlkFile/Name.antt =====
-- `parse_blk_index` on file names.
use bitcoin_query_py.Common.{
  ℕ, suc, ◌+◌, ◌-◌, ◌*◌, ◌^◌, ◌≤◌, ◌<◌, ◌≡◌, refl, ap, subst, ◌∙◌, arith, [], ◌∷◌, ◌++◌, Bool, true,
  false, ◌&&◌, Option, none, some, ok, length, take, drop, reverse, ◌==◌, All, length-append,
  Bool-cases, inl, inr, leb_of_le, take_append,
}
use native.Mathlib.Nat.{pow-suc, one-le-pow}
use mathlib.Core.List.{reverse-append, append_assoc}
use bitcoin_query_py.Common.Int.{ℤ, pos}
use bitcoin_query_py.Reader.{Bytes}
use bitcoin_query_py.BlkFile.{
  starts_with, ends_with, slice, parse_digits, parse_i32, prefix, ext, parse_blk_index,
}

abbrev pub IsDigit : ℕ → Type 0
IsDigit c = (b'0' ≤ c) × (c ≤ b'9')

-- The number that decimal digits stand for, by the places of the digits.
abbrev pub decimal : Bytes → ℕ
decimal [] = 0
decimal (c ∷ cs) = (c - b'0') * 10 ^ length cs + decimal cs

place_value :
    (acc d m rest : ℕ) → (acc * 10 + d) * 10 ^ m + rest ≡ acc * 10 ^ suc m + (d * 10 ^ m + rest)
place_value acc d m rest = rw pow-suc (omega arith)

first_fits : (next m rest limit : ℕ) → next * 10 ^ m + rest ≤ limit → next ≤ limit
first_fits next m rest limit h = grind (arith, one-le-pow m 10)

parse_digits-cons :
    (limit acc c : ℕ) (cs : Bytes)
    → IsDigit c
    → acc * 10 + (c - b'0') ≤ limit
    → parse_digits limit acc (c ∷ cs) ≡ parse_digits limit (acc * 10 + (c - b'0')) cs
unfolding parse_digits
parse_digits-cons limit acc c cs digit fits = ground arith

parse_digits-decimal :
    (limit acc : ℕ) (cs : Bytes)
    → All IsDigit cs
    → acc * 10 ^ length cs + decimal cs ≤ limit
    → parse_digits limit acc cs ≡ some (acc * 10 ^ length cs + decimal cs)
parse_digits-decimal limit acc [] all fits = unfold parse_digits in ap some (omega arith)
parse_digits-decimal limit acc (c ∷ cs) (digit, all) fits =
    let m = length cs in
    let next = acc * 10 + (c - b'0') in
    let same = place_value acc (c - b'0') m (decimal cs) in
    let below : next * 10 ^ m + decimal cs ≤ limit = rw same fits in
    parse_digits-cons limit acc c cs digit (first_fits next m (decimal cs) limit below)
    ∙ parse_digits-decimal limit next cs all below
    ∙ ap some same

-- Digits do not start with a sign.
parse_i32-decimal :
    (cs : Bytes)
    → All IsDigit cs
    → 1 ≤ length cs
    → decimal cs < 2 ^ 31
    → parse_i32 cs ≡ some (pos (decimal cs))
unfolding parse_i32
parse_i32-decimal [] all some_digit fits = absurd (omega arith)
parse_i32-decimal (c ∷ []) all some_digit fits =
    rw (parse_i32, parse_digits-decimal 0x7fff_ffff 0 (c ∷ []) all (omega arith))
      (ap (λ v. some (pos v)) (omega arith))
parse_i32-decimal (c ∷ d ∷ cs) all some_digit fits =
    let not_minus : (c == b'-') ≡ false = ground arith in
    let not_plus : (c == b'+') ≡ false = ground arith in
    rw
      (
        parse_i32,
        not_minus,
        not_plus,
        parse_digits-decimal 0x7fff_ffff 0 (c ∷ d ∷ cs) all (omega arith),
      )
      (ap (λ v. some (pos v)) (omega arith))

and_true : (a b : Bool) → (a && b) ≡ true → (a ≡ true) × (b ≡ true)
and_true a b h = ground arith

starts_with-append : (p text : Bytes) → starts_with (p ++ text) p ≡ true
starts_with-append [] text = starts_with-nil text
  where
    starts_with-nil : (t : Bytes) → starts_with t [] ≡ true
    starts_with-nil t = refl
starts_with-append (c ∷ p) text = ground (arith, starts_with-append p text)

-- What `starts_with` accepts begins with the text, and is at least as long.
starts_with-split :
    (text p : Bytes) → starts_with text p ≡ true → (rest : Bytes) × (text ≡ p ++ rest)
starts_with-split text [] h = (text, refl)
starts_with-split [] (c ∷ p) h = absurd (cc)
starts_with-split (d ∷ text) (c ∷ p) h =
    let (same, later) = both d c text p h in
    let (rest, e) = starts_with-split text p later in (rest, cc)
  where
    both :
        (d c : ℕ) (text p : Bytes)
        → (d == c && starts_with text p) ≡ true
        → (d ≡ c) × (starts_with text p ≡ true)
    both d c text p h = ground arith

ends_with-append : (text suffix : Bytes) → ends_with (text ++ suffix) suffix ≡ true
ends_with-append text suffix =
    rw (reverse-append text suffix) (starts_with-append (reverse suffix) (reverse text))

slice_middle :
    (cs : Bytes)
    → slice (prefix ++ (cs ++ ext)) (length prefix) (length (prefix ++ (cs ++ ext))) (length ext)
      ≡ ok cs
slice_middle cs =
    let size : length (prefix ++ (cs ++ ext)) ≡ length cs + 7 =
      omega (arith, length-append cs ext) in
    let middle : length cs + 7 - 4 - 3 ≡ length cs = omega arith in
    rw (size, leb_of_le 7 (length cs + 7) (omega arith), middle, take_append cs ext)

parse_blk_index-text :
    (name text : Bytes)
    → starts_with name prefix ≡ true
    → ends_with name ext ≡ true
    → slice name (length prefix) (length name) (length ext) ≡ ok text
    → parse_blk_index name ≡ ok (parse_i32 text)
unfolding parse_blk_index
parse_blk_index-text name text begins ends cut = rw (parse_blk_index, begins, ends, cut)

-- "blk", decimal digits for a number below 2 ^ 31, and ".dat" name the file of that number; leading
-- zeros do not matter.
pub parse_blk_index-decimal :
    (cs : Bytes)
    → All IsDigit cs
    → 1 ≤ length cs
    → decimal cs < 2 ^ 31
    → parse_blk_index (prefix ++ (cs ++ ext)) ≡ ok (some (pos (decimal cs)))
parse_blk_index-decimal cs all some_digit fits =
    let ends : ends_with (prefix ++ (cs ++ ext)) ext ≡ true =
      subst (λ x. ends_with x ext ≡ true) (append_assoc prefix cs ext)
        (ends_with-append (prefix ++ cs) ext) in
    parse_blk_index-text (prefix ++ (cs ++ ext)) cs (starts_with-append prefix (cs ++ ext)) ends
      (slice_middle cs)
    ∙ ap ok (parse_i32-decimal cs all some_digit fits)

-- A name with both ends has room for both: they do not overlap.
affixes_apart :
    (name : Bytes) → starts_with name prefix ≡ true → ends_with name ext ≡ true → 7 ≤ length name
affixes_apart name begins ends =
    let (rest, e) = starts_with-split name prefix begins in rw e (long_enough rest (rw e at ends))
  where
    long_enough :
        (rest : Bytes) → ends_with (prefix ++ rest) ext ≡ true → 7 ≤ length (prefix ++ rest)
    long_enough [] h = absurd (cc)
    long_enough (a ∷ []) h = ground arith
    long_enough (a ∷ b ∷ []) h = ground arith
    long_enough (a ∷ b ∷ c ∷ []) h = ground arith
    long_enough (a ∷ b ∷ c ∷ d ∷ rest) h = omega arith

-- Cutting the ends off never panics, whatever the name is: the slice is in range.
parse_blk_index_total : (name : Bytes) → (o : Option ℤ) × (parse_blk_index name ≡ ok o)
unfolding parse_blk_index
parse_blk_index_total name = elim (Bool-cases (starts_with name prefix && ends_with name ext)) [
  | inl both ↦
      let (begins, ends) = and_true _ _ both in
      let room = leb_of_le 7 (length name) (affixes_apart name begins ends) in
      let text = take (length name - 4 - 3) (drop 3 name) in
      (parse_i32 text, parse_blk_index-text name text begins ends (rw room))
  | inr other ↦ (none, rw (parse_blk_index, other))
]
