-- ===== src/Base/Xor.antt =====
-- Exclusive or, by its lowest digit.
use Prim.Native.Nat.{digits, differ, bit_xor-bitwise}
use parallel_io.Base.{
  ℕ, zero, suc, ◌+◌, ◌*◌, ◌/◌, ◌%◌, ◌^◌, ◌≤◌, ◌<◌, ◌≡◌, refl, sym, ap, ap₂, ◌∙◌, bit_xor, arith,
}

abbrev xor_digits : ℕ → ℕ → ℕ → ℕ
xor_digits n a b = digits (λ b. b) differ n a b

digits_enough : (n m a b : ℕ) → a ≤ n → a ≤ m → xor_digits n a b ≡ xor_digits m a b
digits_enough zero zero a b p q = refl
digits_enough zero (suc m) zero b p q = refl
digits_enough zero (suc m) (suc a) b p q = absurd (omega arith)
digits_enough (suc n) zero zero b p q = refl
digits_enough (suc n) zero (suc a) b p q = absurd (omega arith)
digits_enough (suc n) (suc m) zero b p q = refl
digits_enough (suc n) (suc m) (suc a) b p q =
    ap (λ d. d * 2 + differ (suc a % 2) (b % 2))
      (digits_enough n m (suc a / 2) (b / 2) (omega arith) (omega arith))

differ_digits : (x y : ℕ) → x < 2 → y < 2 → differ x y ≡ (x + y) % 2
differ_digits zero zero h g = refl
differ_digits zero (suc zero) h g = refl
differ_digits (suc zero) zero h g = refl
differ_digits (suc zero) (suc zero) h g = refl
differ_digits (suc (suc x)) y h g = absurd (omega arith)
differ_digits zero (suc (suc y)) h g = absurd (omega arith)
differ_digits (suc zero) (suc (suc y)) h g = absurd (omega arith)

pub zero-bit_xor : (b : ℕ) → bit_xor 0 b ≡ b
zero-bit_xor b = bit_xor-bitwise 0 b

pub bit_xor_step : (a b : ℕ) → bit_xor a b ≡ bit_xor (a / 2) (b / 2) * 2 + (a % 2 + b % 2) % 2
bit_xor_step zero b = omega (arith, zero-bit_xor b, zero-bit_xor (b / 2))
bit_xor_step (suc a) b = omega (
  arith,
  bit_xor-bitwise (suc a) b,
  bit_xor-bitwise (suc a / 2) (b / 2),
  digits_enough a (suc a / 2) (suc a / 2) (b / 2) (omega arith) (omega arith),
  differ_digits (suc a % 2) (b % 2) (omega arith) (omega arith),
)

xor_comm_fuel : (n a b : ℕ) → a ≤ n → b ≤ n → bit_xor a b ≡ bit_xor b a
xor_comm_fuel zero a b h g = ap₂ bit_xor a_zero b_zero ∙ ap₂ bit_xor (sym b_zero) (sym a_zero)
  where
    a_zero : a ≡ 0
    a_zero = omega arith

    b_zero : b ≡ 0
    b_zero = omega arith
xor_comm_fuel (suc n) a b h g = omega (
  arith,
  bit_xor_step a b,
  bit_xor_step b a,
  xor_comm_fuel n (a / 2) (b / 2) (omega arith) (omega arith),
)

pub bit_xor_comm : (a b : ℕ) → bit_xor a b ≡ bit_xor b a
bit_xor_comm a b = xor_comm_fuel (a + b) a b (omega arith) (omega arith)

twice_fuel : (n a b : ℕ) → a ≤ n → b ≤ n → bit_xor (bit_xor a b) b ≡ a
twice_fuel zero a b h g =
    let a_zero : a ≡ 0 = omega arith in let b_zero : b ≡ 0 = omega arith in rw (a_zero, b_zero) refl
twice_fuel (suc n) a b h g =
    let q = bit_xor a b in
    let half : q / 2 ≡ bit_xor (a / 2) (b / 2) = omega (arith, bit_xor_step a b) in
    let ih = twice_fuel n (a / 2) (b / 2) (omega arith) (omega arith) in
    let up : bit_xor (q / 2) (b / 2) ≡ a / 2 = ap (λ t. bit_xor t (b / 2)) half ∙ ih in
    omega (arith, bit_xor_step q b, up, bit_xor_step a b)

-- The same number twice.
pub bit_xor_twice : (a b : ℕ) → bit_xor (bit_xor a b) b ≡ a
bit_xor_twice a b = twice_fuel (a + b) a b (omega arith) (omega arith)

pub bit_xor_below : (k a b : ℕ) → a < 2 ^ k → b < 2 ^ k → bit_xor a b < 2 ^ k
bit_xor_below zero a b h g =
    let a_zero : a ≡ 0 = omega arith in
    let b_zero : b ≡ 0 = omega arith in rw (a_zero, b_zero) (omega arith)
bit_xor_below (suc k) a b h g =
    omega (arith, bit_xor_step a b, bit_xor_below k (a / 2) (b / 2) (omega arith) (omega arith))

pub bit_xor_self : (a : ℕ) → bit_xor a a ≡ 0
bit_xor_self a = ap (λ t. bit_xor t a) (sym (zero-bit_xor a)) ∙ bit_xor_twice 0 a

pub bit_xor-zero_eq : (a b : ℕ) → bit_xor a b ≡ 0 → a ≡ b
bit_xor-zero_eq a b e = sym (bit_xor_twice a b) ∙ ap (λ t. bit_xor t b) e ∙ zero-bit_xor b
