-- ===== src/Reader/Wrap.antt =====
-- `read_varint` on any bytes: the number that they stand for, without its bits past the 64th.
use native.Mathlib.Nat.{pow-suc, div-add-mod, add-mul-mod_self_left}
use bitcoin_query_py.Common.{
  ℕ, suc, ◌+◌, ◌-◌, ◌*◌, ◌/◌, ◌%◌, ◌^◌, ◌≤◌, ◌<◌, ◌≡◌, refl, sym, ap, ◌∙◌, arith, [], ◌∷◌, ◌++◌, ok,
  err, length, All,
}
use bitcoin_query_py.Common.Int.{IsByte}
use bitcoin_query_py.Errors.{unexpected_eof, from_io}
use bitcoin_query_py.Reader.{Bytes, read_varint_loop, read_varint}
use bitcoin_query_py.Reader.Varint.{read_varint_loop-more, read_varint_loop-last}

-- A byte with its top bit set, which another byte follows.
abbrev pub IsHigher : ℕ → Type 0
IsHigher ch = IsByte ch × (128 ≤ ch)

-- The digits to the base 128 are the seven bits of each byte, each but the last plus one.
unfoldable pub varint_value : Bytes → ℕ → ℕ
varint_value [] last = last
varint_value (ch ∷ front) last = (ch - 127) * 128 ^ suc (length front) + varint_value front last

parts : (m q r p v : ℕ) → (m * q + r) * p + v ≡ r * p + v + m * (q * p)
parts m q r p v = grind arith

wrap_first : (x p v : ℕ) → (x % 2 ^ 64 * p + v) % 2 ^ 64 ≡ (x * p + v) % 2 ^ 64
wrap_first x p v =
    let whole : x * p + v ≡ x % 2 ^ 64 * p + v + 2 ^ 64 * (x / 2 ^ 64 * p) =
      ap (λ y. y * p + v) (sym (div-add-mod x (2 ^ 64)))
      ∙ parts (2 ^ 64) (x / 2 ^ 64) (x % 2 ^ 64) p v in
    sym (
      ap (λ y. y % 2 ^ 64) whole
      ∙ add-mul-mod_self_left (x % 2 ^ 64 * p + v) (2 ^ 64) (x / 2 ^ 64 * p))

next_digit : (acc d p v : ℕ) → (acc * 128 + d) * p + v ≡ acc * (p * 128) + (d * p + v)
next_digit acc d p v = grind arith

read_varint_loop-value :
    (front : Bytes) (acc last : ℕ) (rest : Bytes)
    → All IsHigher front
    → last < 128
    → read_varint_loop acc (front ++ last ∷ rest)
      ≡ ok ((acc * 128 ^ suc (length front) + varint_value front last) % 2 ^ 64, rest)
unfolding varint_value
read_varint_loop-value [] acc last rest all low =
    read_varint_loop-last acc last rest low ∙ ap (λ v. ok (v, rest)) (omega arith)
read_varint_loop-value (ch ∷ front) acc last rest ((byte, high), all) low =
    let p = 128 ^ suc (length front) in
    let v = varint_value front last in
    let x = acc * 128 + (ch - 127) in
    let pushed : (acc % 2 ^ 57 * 128 + ch % 128 + 1) % 2 ^ 64 ≡ x % 2 ^ 64 = omega arith in
    let sum : x * p + v ≡ acc * 128 ^ suc (suc (length front)) + ((ch - 127) * p + v) =
      next_digit acc (ch - 127) p v
      ∙ ap (λ y. acc * y + ((ch - 127) * p + v)) (sym (pow-suc 128 (suc (length front)))) in
    read_varint_loop-more acc ch (front ++ last ∷ rest) byte high
    ∙ ap (λ n. read_varint_loop n (front ++ last ∷ rest)) pushed
    ∙ read_varint_loop-value front (x % 2 ^ 64) last rest all low
    ∙ ap (λ n. ok (n, rest)) (wrap_first x p v ∙ ap (λ n. n % 2 ^ 64) sum)

read_varint_loop-cut :
    (front : Bytes) (acc : ℕ)
    → All IsHigher front
    → read_varint_loop acc front ≡ err (from_io unexpected_eof)
unfolding read_varint_loop
read_varint_loop-cut [] acc all = refl
read_varint_loop-cut (ch ∷ front) acc ((byte, high), all) =
    read_varint_loop-more acc ch front byte high ∙ read_varint_loop-cut front _ all

-- The number ends at the first byte below 128. It is the sum of its digits to the base 128, modulo
-- 2 ^ 64, and the bytes behind it are left; where no byte is below 128, the end of the input is an
-- error.
pub read_varint-varint_value :
    (front : Bytes) (last : ℕ) (rest : Bytes)
    → All IsHigher front
    → last < 128
    → (read_varint (front ++ last ∷ rest) ≡ ok (varint_value front last % 2 ^ 64, rest))
      × (read_varint front ≡ err (from_io unexpected_eof))
unfolding read_varint
read_varint-varint_value front last rest all low =
    let from_zero : 0 * 128 ^ suc (length front) + varint_value front last
        ≡ varint_value front last =
      omega arith in
    (
      read_varint_loop-value front 0 last rest all low ∙ ap (λ n. ok (n % 2 ^ 64, rest)) from_zero,
      read_varint_loop-cut front 0 all,
    )
