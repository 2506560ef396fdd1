-- ===== src/Reader/RoundTrip.antt =====
-- `read_varint` against the format: Bitcoin Core's `WriteVarInt`, which stores the groups of seven
-- bits highest first, each but the last with its top bit set and standing for one more than it says.
use bitcoin_query_py.Common.{
  ℕ, zero, suc, ◌+◌, ◌-◌, ◌*◌, ◌/◌, ◌%◌, ◌^◌, ◌≤◌, ◌<◌, ◌≡◌, refl, sym, ap, ◌∙◌, arith, [], ◌∷◌,
  ◌++◌, ok, err, length, All, if◌then◌else◌, ltb, Bool-cases, inl, inr,
}
use mathlib.Core.List.{append_assoc}
use bitcoin_query_py.Common.Int.{IsByte, IsU64}
use bitcoin_query_py.Reader.{Bytes, read_varint_loop, read_varint}
use bitcoin_query_py.Errors.{OpResult, unexpected_eof, from_io}
use bitcoin_query_py.Reader.Varint.{
  read_varint_loop-more, read_varint_loop_takes, read_varint_loop-last,
}

-- The bytes in front of the last one; `k + 1` of them are enough for `m` below `128 ^ (k + 1)`.
unfoldable pub higher_groups : ℕ → ℕ → Bytes
higher_groups zero m = (m + 128) ∷ []
higher_groups (suc k) m =
    let front = higher_groups k (m / 128 - 1) in
    if ltb m 128 then (m + 128) ∷ [] else front ++ (m % 128 + 128) ∷ []

unfoldable pub write_varint : ℕ → Bytes
write_varint n = if ltb n 128 then n ∷ [] else higher_groups 9 (n / 128 - 1) ++ n % 128 ∷ []

read_varint_loop-higher :
    (k m : ℕ) (bs : Bytes)
    → m < 128 ^ suc k
    → m < 2 ^ 57
    → read_varint_loop 0 (higher_groups k m ++ bs) ≡ read_varint_loop (m + 1) bs
unfolding higher_groups
read_varint_loop-higher zero m bs h fits = ground (arith, read_varint_loop-more 0 (m + 128) bs)
read_varint_loop-higher (suc k) m bs h fits =
    let last = m % 128 + 128 in
    ground (
      arith,
      read_varint_loop-more 0 (m + 128) bs,
      append_assoc (higher_groups k (m / 128 - 1)) (last ∷ []) bs,
      read_varint_loop-higher k (m / 128 - 1) (last ∷ bs) (omega arith) (omega arith),
      read_varint_loop-more (m / 128) last bs,
    )

read_varint_loop-short :
    (n : ℕ) (rest : Bytes) → n < 128 → read_varint_loop 0 (n ∷ rest) ≡ ok (n, rest)
read_varint_loop-short n rest h =
    read_varint_loop-last 0 n rest h ∙ ap (λ v. ok (v, rest)) (omega arith)

read_varint_loop-long :
    (n : ℕ) (rest : Bytes)
    → 128 ≤ n
    → IsU64 n
    → read_varint_loop 0 ((higher_groups 9 (n / 128 - 1) ++ n % 128 ∷ []) ++ rest) ≡ ok (n, rest)
read_varint_loop-long n rest h fits =
    let group : n / 128 - 1 + 1 ≡ n / 128 = omega arith in
    let sum : n / 128 % 2 ^ 57 * 128 + n % 128 ≡ n = omega arith in
    ap (read_varint_loop 0) (append_assoc (higher_groups 9 (n / 128 - 1)) (n % 128 ∷ []) rest)
    ∙ read_varint_loop-higher 9 (n / 128 - 1) (n % 128 ∷ rest) (omega arith) (omega arith)
    ∙ ap (λ v. read_varint_loop v (n % 128 ∷ rest)) group
    ∙ read_varint_loop-last (n / 128) (n % 128) rest (omega arith)
    ∙ ap (λ v. ok (v, rest)) sum

-- What `WriteVarInt` stores for a 64-bit number is read back, and the bytes behind it are left.
pub read_varint-write_varint :
    (n : ℕ) (rest : Bytes) → IsU64 n → read_varint (write_varint n ++ rest) ≡ ok (n, rest)
unfolding read_varint write_varint
read_varint-write_varint n rest h = elim (Bool-cases (ltb n 128)) [
  | inl short ↦ rw short (read_varint_loop-short n rest (ground arith))
  | inr long ↦ rw long (read_varint_loop-long n rest (ground arith) h)
]

-- More rounds than needed change nothing.
higher_groups_enough : (k m : ℕ) → m < 128 ^ suc k → higher_groups (suc k) m ≡ higher_groups k m
unfolding higher_groups
higher_groups_enough zero m h = ground arith
higher_groups_enough (suc k) m h =
    ground (arith, higher_groups_enough k (m / 128 - 1) (omega arith))

-- The values that leave room for `j` more groups in 64 bits.
abbrev room : ℕ → ℕ
room zero = 2 ^ 64
room (suc j) = room j / 128

room-le : (j : ℕ) → room j ≤ 2 ^ 64
room-le zero = omega arith
room-le (suc j) = omega (arith, room-le j)

higher_groups-suc :
    (k v : ℕ)
    → 128 ≤ v
    → higher_groups (suc k) v ≡ higher_groups k (v / 128 - 1) ++ (v % 128 + 128) ∷ []
unfolding higher_groups
higher_groups-suc k v h = ground arith

higher_groups-snoc :
    (m v ch : ℕ)
    → IsByte ch
    → 128 ≤ ch
    → m < 2 ^ 57
    → v ≡ (m + 1) * 128 + ch % 128
    → higher_groups 9 v ≡ higher_groups 9 m ++ ch ∷ []
higher_groups-snoc m v ch byte high fits e =
    let front : v / 128 - 1 ≡ m = omega arith in
    let last : v % 128 + 128 ≡ ch = omega arith in
    higher_groups-suc 8 v (omega arith)
    ∙ ap (λ x. higher_groups 8 x ++ (v % 128 + 128) ∷ []) front
    ∙ ap (λ x. higher_groups 8 m ++ x ∷ []) last
    ∙ ap (λ x. x ++ ch ∷ []) (sym (higher_groups_enough 8 m (omega arith)))

write_varint-long :
    (v : ℕ) → 128 ≤ v → write_varint v ≡ higher_groups 9 (v / 128 - 1) ++ v % 128 ∷ []
unfolding write_varint
write_varint-long v h = ground arith

ok_pair-injective :
    {n m : ℕ} {r s : Bytes}
    → ◌≡◌ {A = OpResult (ℕ × Bytes)} (ok (n, r)) (ok (m, s))
    → (n ≡ m) × (r ≡ s)
ok_pair-injective e = ground arith

read_varint_loop-nil : (n : ℕ) → read_varint_loop n [] ≡ err (from_io unexpected_eof)
unfolding read_varint_loop
read_varint_loop-nil n = refl

write_varint-snoc :
    (m v ch : ℕ) → ch < 128 → v ≡ (m + 1) * 128 + ch → write_varint v ≡ higher_groups 9 m ++ ch ∷ []
write_varint-snoc m v ch low e =
    let front : v / 128 - 1 ≡ m = omega arith in
    let last : v % 128 ≡ ch = omega arith in
    rw front at (rw last at (write_varint-long v (omega arith)))

write_varint-short : (v : ℕ) → v < 128 → write_varint v ≡ v ∷ []
unfolding write_varint
write_varint-short v h = ground arith

higher_groups-short : (ch : ℕ) → IsByte ch → 128 ≤ ch → higher_groups 9 (ch % 128) ≡ ch ∷ []
unfolding higher_groups
higher_groups-short ch byte h = ground arith

canonical_short :
    (n ch : ℕ) (bs rest : Bytes)
    → ch < 128
    → read_varint_loop 0 (ch ∷ bs) ≡ ok (n, rest)
    → ch ∷ bs ≡ write_varint n ++ rest
canonical_short n ch bs rest low e =
    let done = ok_pair-injective (sym (read_varint_loop-short ch bs low) ∙ e) in
    let kept : ch ∷ bs ≡ ch ∷ rest = ap (◌∷◌ ch) done.1 in
    kept ∙ ap (λ x. x ++ rest) (sym (write_varint-short ch low) ∙ ap write_varint done.0)

canonical_last :
    (m n ch : ℕ) (bs rest : Bytes)
    → ch < 128
    → m + 3 ≤ 2 ^ 57
    → read_varint_loop (m + 1) (ch ∷ bs) ≡ ok (n, rest)
    → higher_groups 9 m ++ ch ∷ bs ≡ write_varint n ++ rest
canonical_last m n ch bs rest low small e =
    let done = ok_pair-injective (sym (read_varint_loop-last (m + 1) ch bs low) ∙ e) in
    let sum : n ≡ (m + 1) * 128 + ch = omega (arith, done.0) in
    sym (append_assoc (higher_groups 9 m) (ch ∷ []) bs)
    ∙ ap (λ x. x ++ bs) (sym (write_varint-snoc m n ch low sum))
    ∙ ap (λ x. write_varint n ++ x) done.1

-- `m + 1` was read so far, off the bytes `higher_groups 9 m`.
read_varint_loop_canonical :
    (bs : Bytes) (j m n : ℕ) (rest : Bytes)
    → All IsByte bs
    → m + 3 ≤ room j
    → length bs ≤ length rest + j
    → read_varint_loop (m + 1) bs ≡ ok (n, rest)
    → higher_groups 9 m ++ bs ≡ write_varint n ++ rest
read_varint_loop_canonical [] j m n rest all fits short e = cc (read_varint_loop-nil (m + 1))
read_varint_loop_canonical (ch ∷ bs) zero m n rest all fits short e =
    absurd (omega (arith, read_varint_loop_takes (ch ∷ bs) (m + 1) n rest all e))
read_varint_loop_canonical (ch ∷ bs) (suc j) m n rest (byte, all) fits short e =
    elim (Bool-cases (ltb ch 128)) [
      | inl low ↦ canonical_last m n ch bs rest (ground arith) (omega (arith, room-le j)) e
      | inr high ↦
          let v = (m + 1) * 128 + ch % 128 in
          let small : m + 3 ≤ 2 ^ 57 = omega (arith, room-le j) in
          let wide : 128 ≤ ch = ground arith in
          let read : (m + 1) % 2 ^ 57 * 128 + ch % 128 + 1 ≡ v + 1 = omega arith in
          let next : ((m + 1) % 2 ^ 57 * 128 + ch % 128 + 1) % 2 ^ 64 ≡ v + 1 = omega arith in
          let ends : read_varint_loop (v + 1) bs ≡ ok (n, rest) =
            ap (λ x. read_varint_loop x bs) (sym next)
            ∙ sym (read_varint_loop-more (m + 1) ch bs byte wide)
            ∙ e in
          sym (append_assoc (higher_groups 9 m) (ch ∷ []) bs)
          ∙ ap (λ x. x ++ bs) (sym (higher_groups-snoc m v ch byte wide (omega arith) refl))
          ∙ read_varint_loop_canonical bs j v n rest all (omega arith) (omega arith) ends
    ]

-- A number that was read off at most nine bytes stands there in the form that `WriteVarInt` stores.
pub read_varint_canonical :
    (bytes : Bytes) (n : ℕ) (rest : Bytes)
    → All IsByte bytes
    → length bytes ≤ length rest + 9
    → read_varint bytes ≡ ok (n, rest)
    → bytes ≡ write_varint n ++ rest
unfolding read_varint
read_varint_canonical [] n rest all short e = cc (read_varint_loop-nil 0)
read_varint_canonical (ch ∷ bs) n rest (byte, all) short e = elim (Bool-cases (ltb ch 128)) [
  | inl low ↦ canonical_short n ch bs rest (ground arith) e
  | inr high ↦
      let m = ch % 128 in
      let wide : 128 ≤ ch = ground arith in
      let ends : read_varint_loop (m + 1) bs ≡ ok (n, rest) =
        ap (λ x. read_varint_loop x bs) (omega arith)
        ∙ sym (read_varint_loop-more 0 ch bs byte wide)
        ∙ e in
      ap (λ x. x ++ bs) (sym (higher_groups-short ch byte wide))
      ∙ read_varint_loop_canonical bs 8 m n rest all (omega arith) (omega arith) ends
]
