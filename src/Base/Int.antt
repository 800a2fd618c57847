-- ===== src/Base/Int.antt =====
-- Signed C integers over the native numbers, under the library's names.
use parallel_io.Base.{
  ℕ, zero, suc, ◌+◌, ◌-◌, ◌*◌, ◌/◌, ◌%◌, ◌≤◌, ◌<◌, ◌≡◌, refl, ◌↔◌, Bool, true, arith, ltb, leb,
  ◌==◌, if◌then◌else◌,
}

-- `negsuc n` is -(n + 1).
pub data ℤ : Type 0 where
  pos : ℕ → ℤ
  negsuc : ℕ → ℤ

abbrev pub pos_part : ℤ → ℕ
pos_part (pos n) = n
pos_part (negsuc n) = 0

abbrev pub neg_part : ℤ → ℕ
neg_part (pos n) = 0
neg_part (negsuc n) = suc n

abbrev pub sub_ℕ : ℕ → ℕ → ℤ
sub_ℕ a b = if leb b a then pos (a - b) else negsuc (b - a - 1)

infixl 65 ◌+ℤ◌ ◌-ℤ◌
infixl 70 ◌*ℤ◌
unfoldable pub ◌+ℤ◌ : ℤ → ℤ → ℤ
a +ℤ b = sub_ℕ (pos_part a + pos_part b) (neg_part a + neg_part b)

unfoldable pub ◌*ℤ◌ : ℤ → ℤ → ℤ
a *ℤ b =
    sub_ℕ (pos_part a * pos_part b + neg_part a * neg_part b)
      (pos_part a * neg_part b + neg_part a * pos_part b)

pub +ℤ-pos : (a b : ℕ) → pos a +ℤ pos b ≡ pos (a + b)
unfolding ◌+ℤ◌
+ℤ-pos a b = ground arith

pub *ℤ-pos : (a b : ℕ) → pos a *ℤ pos b ≡ pos (a * b)
unfolding ◌*ℤ◌
*ℤ-pos a b = ground arith

unfoldable pub ◌-ℤ◌ : ℤ → ℤ → ℤ
a -ℤ b = sub_ℕ (pos_part a + neg_part b) (neg_part a + pos_part b)

pub -ℤ-pos : (a b : ℕ) → b ≤ a → pos a -ℤ pos b ≡ pos (a - b)
unfolding ◌-ℤ◌
-ℤ-pos a b h = ground arith

infix 50 ◌==ℤ◌
abbrev pub ◌==ℤ◌ : ℤ → ℤ → Bool
a ==ℤ b = pos_part a + neg_part b == pos_part b + neg_part a

abbrev pub ltb_ℤ : ℤ → ℤ → Bool
ltb_ℤ a b = ltb (pos_part a + neg_part b) (pos_part b + neg_part a)

pub ==ℤ_iff : (a b : ℤ) → ((a ==ℤ b) ≡ true) ↔ (a ≡ b)
==ℤ_iff a b = ground arith

abbrev pub abs : ℤ → ℕ
abs (pos n) = n
abs (negsuc n) = suc n

abbrev pub neg : ℕ → ℤ
neg zero = pos 0
neg (suc n) = negsuc n

-- C's `a % b`: the remainder has the sign of `a`.
unfoldable pub rem : ℤ → ℤ → ℤ
rem (pos m) b = pos (m % abs b)
rem (negsuc m) b = neg (suc m % abs b)

-- C's `a / b`, rounded to zero, for a positive `b`.
unfoldable pub quot : ℤ → ℕ → ℤ
quot (pos m) b = pos (m / b)
quot (negsuc m) b = neg (suc m / b)

pub abs-neg : (n : ℕ) → abs (neg n) ≡ n
abs-neg zero = refl
abs-neg (suc n) = refl

pub abs-rem : (a b : ℤ) → abs (rem a b) ≡ abs a % abs b
unfolding rem
abs-rem (pos m) b = refl
abs-rem (negsuc m) b = abs-neg (suc m % abs b)

-- 2 ^ 32 and 2 ^ 31.
abbrev pub word : ℕ
word = 4294967296

abbrev pub half_word : ℕ
half_word = 2147483648

-- Conversion of a long long to a 32-bit int.
unfoldable pub to_int : ℤ → ℤ
to_int a =
    let r = (pos_part a % word + word - neg_part a % word) % word in
    if ltb r half_word then pos r else negsuc (word - r - 1)

pub to_int_small : (n : ℕ) → n < half_word → to_int (pos n) ≡ pos n
unfolding to_int
to_int_small n h = ground arith
