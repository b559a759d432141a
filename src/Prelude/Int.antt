-- ===== src/Prelude/Int.antt =====
-- Signed integers over the native numbers, under the library's names, and Go's wrap-around at 64
-- bits. Sums and orders go through the two parts of an integer, numbers that `omega` reads.
use gpt2api.Prelude.{
  ℕ, suc, ◌+◌, ◌-◌, ◌%◌, ◌≤◌, ◌<◌, ◌≡◌, Bool, arith, ltb, leb, if◌then◌else◌, true,
}

-- `negsuc n` is -(n + 1).
pub data ℤ : Type 0 where
  pos : ℕ → ℤ
  negsuc : ℕ → ℤ

abbrev pub pos_part : ℤ → ℕ
pos_part (pos n) = n
pos_part (negsuc n) = 0

abbrev pub neg_part : ℤ → ℕ
neg_part (pos n) = 0
neg_part (negsuc n) = suc n

-- a - b, as an integer.
abbrev pub sub_ℕ : ℕ → ℕ → ℤ
sub_ℕ a b = if leb b a then pos (a - b) else negsuc (b - a - 1)

infixl 65 ◌+ℤ◌ ◌-ℤ◌
infix 50 ◌≤ℤ◌ ◌<ℤ◌
unfoldable pub ◌+ℤ◌ : ℤ → ℤ → ℤ
a +ℤ b = sub_ℕ (pos_part a + pos_part b) (neg_part a + neg_part b)

unfoldable pub ◌-ℤ◌ : ℤ → ℤ → ℤ
a -ℤ b = sub_ℕ (pos_part a + neg_part b) (neg_part a + pos_part b)

abbrev pub ◌≤ℤ◌ : ℤ → ℤ → Type 0
a ≤ℤ b = pos_part a + neg_part b ≤ pos_part b + neg_part a

abbrev pub ◌<ℤ◌ : ℤ → ℤ → Type 0
a <ℤ b = pos_part a + neg_part b < pos_part b + neg_part a

abbrev pub ltb_ℤ : ℤ → ℤ → Bool
ltb_ℤ a b = ltb (pos_part a + neg_part b) (pos_part b + neg_part a)

abbrev pub leb_ℤ : ℤ → ℤ → Bool
leb_ℤ a b = leb (pos_part a + neg_part b) (pos_part b + neg_part a)

-- With these the operations can stay shut.
pub +ℤ_parts :
    (a b : ℤ)
    → pos_part (a +ℤ b) + neg_part a + neg_part b ≡ neg_part (a +ℤ b) + pos_part a + pos_part b
unfolding ◌+ℤ◌
+ℤ_parts a b = ground arith

pub -ℤ_parts :
    (a b : ℤ)
    → pos_part (a -ℤ b) + neg_part a + pos_part b ≡ neg_part (a -ℤ b) + pos_part a + neg_part b
unfolding ◌-ℤ◌
-ℤ_parts a b = ground arith

pub eq_of_parts : (a b : ℤ) → pos_part a + neg_part b ≡ pos_part b + neg_part a → a ≡ b
eq_of_parts a b h = ground arith

pub ruleset int_laws = (arith, +ℤ_parts, -ℤ_parts, eq_of_parts)

-- 2 ^ 63 and 2 ^ 64.
abbrev pub half_word : ℕ
half_word = 9_223_372_036_854_775_808

abbrev pub word : ℕ
word = 18_446_744_073_709_551_616

-- A value that an `int64`, and a BIGINT column, can hold.
pub record InInt64 (a : ℤ) : Type 0 where
  pub above : neg_part a ≤ pos_part a + half_word
  pub below : pos_part a < neg_part a + half_word

abbrev pub fits_int64 : ℤ → Bool
fits_int64 (pos n) = ltb n half_word
fits_int64 (negsuc n) = ltb n half_word

-- The `int64` with the bits of `n`, for `n` below 2 ^ 64.
abbrev pub of_word : ℕ → ℤ
of_word n = if ltb n half_word then pos n else negsuc (word - n - 1)

-- What Go's `int64` arithmetic keeps of an exact result.
unfoldable pub wrap64 : ℤ → ℤ
wrap64 (pos n) = of_word (n % word)
wrap64 (negsuc n) = of_word (word - 1 - n % word)

pub wrap64-InInt64_self : (a : ℤ) → InInt64 a → wrap64 a ≡ a
unfolding wrap64
wrap64-InInt64_self (pos n) h = ground arith
wrap64-InInt64_self (negsuc n) h = ground arith

pub fits→InInt64 : (a : ℤ) → fits_int64 a ≡ true → InInt64 a
fits→InInt64 a h = ground arith

pub InInt64→fits : (a : ℤ) → InInt64 a → fits_int64 a ≡ true
InInt64→fits a h = ground arith
