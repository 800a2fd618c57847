-- ===== src/BoxDecomp/Gcd.antt =====
-- Greatest common divisors, src/clib/pioc_sc.c: `gcd` and `lgcd`.
use mathlib.Core.WellFounded.{Acc, WellFounded}
use native.Mathlib.Bridge.{le_prop}
use native.Mathlib.Nat.{dvd_refl, dvd-zero, dvd-mod_iff}
use parallel_io.Base.{ℕ, zero, suc, ◌<◌, ◌∣◌, ◌%◌, ◌≡◌, refl, arith, dec_lt, dite, dif_pos, dif_neg}
use parallel_io.Base.Int.{ℤ, pos, negsuc, abs, rem, abs-rem}

infix 50 ◌⊏◌
abbrev pub ◌⊏◌ : ℤ → ℤ → Type 0
a ⊏ b = abs a < abs b

Acc_below : (k : ℕ) (a : ℤ) → abs a < k → Acc ◌⊏◌ a
Acc_below zero a h = elim h [ ]
Acc_below (suc k) a h = Acc.intro a (λ b hb. Acc_below k b (omega arith))

⊏_wf : WellFounded ◌⊏◌
unfolding Acc_below
⊏_wf = record { apply = λ a. Acc_below (suc (abs a)) a (omega arith) }

pub rem-⊏ : (b a : ℤ) → 0 < abs a → rem b a ⊏ a
rem-⊏ b a h = omega (arith, abs-rem b a)

-- `a == 0 ? b : gcd(b % a, a)`; the second argument falls in absolute value.
gcd_acc : (a b : ℤ) → Acc ◌⊏◌ a → ℤ
gcd_acc a b (Acc.intro _ smaller) =
    dite (dec_lt 0 (abs a)) (λ h. gcd_acc (rem b a) a (smaller (rem b a) (rem-⊏ b a h))) (λ _. b)

unfoldable pub gcd : ℤ → ℤ → ℤ
unfolding gcd_acc ⊏_wf dec_lt rem
gcd a b = gcd_acc a b (⊏_wf.apply a)

unfoldable pub lgcd : ℤ → ℤ → ℤ
unfolding gcd_acc ⊏_wf dec_lt rem
lgcd a b = gcd_acc a b (⊏_wf.apply a)

-- `g` is the greatest common divisor of `a` and `b`, in the order of divisibility.
pub record IsGcd (g a b : ℕ) : Type 0 where
  pub left : g ∣ a
  pub right : g ∣ b
  pub greatest : (d : ℕ) → d ∣ a → d ∣ b → d ∣ g

IsGcd-zero : (b : ℕ) → IsGcd b 0 b
IsGcd-zero b = record { left = dvd-zero b; right = dvd_refl b; greatest = λ d _ h. h }

IsGcd-mod : {g a b : ℕ} → IsGcd g (b % a) a → IsGcd g a b
IsGcd-mod {g} {a} {b} h = record {
  left = h.right;
  right = (dvd-mod_iff g h.right).0 h.left;
  greatest = λ d p q. h.greatest d ((dvd-mod_iff d p).1 q) p;
}

gcd_acc-IsGcd : (a b : ℤ) (w : Acc ◌⊏◌ a) → IsGcd (abs (gcd_acc a b w)) (abs a) (abs b)
unfolding gcd_acc
gcd_acc-IsGcd a b (Acc.intro _ smaller) = elim (dec_lt 0 (abs a)) [
  | yes h ↦ rw (dif_pos (dec_lt 0 (abs a)) le_prop h) (
      IsGcd-mod (rw (abs-rem b a) at (gcd_acc-IsGcd (rem b a) a (smaller (rem b a) (rem-⊏ b a h)))))
  | no h ↦
      rw (dif_neg (dec_lt 0 (abs a)) h)
        (let e : abs a ≡ 0 = omega arith in rw e (IsGcd-zero (abs b)))
]

pub gcd-IsGcd : (a b : ℤ) → IsGcd (abs (gcd a b)) (abs a) (abs b)
unfolding gcd
gcd-IsGcd a b = gcd_acc-IsGcd a b (⊏_wf.apply a)

-- `lgcd` ends, with the greatest common divisor of the two absolute values.
pub lgcd-IsGcd : (a b : ℤ) → IsGcd (abs (lgcd a b)) (abs a) (abs b)
unfolding lgcd
lgcd-IsGcd a b = gcd_acc-IsGcd a b (⊏_wf.apply a)

abbrev IsNat : ℤ → Type 0
IsNat a = a ≡ pos (abs a)

rem-IsNat : (b a : ℤ) → IsNat b → IsNat (rem b a)
unfolding rem
rem-IsNat (pos m) a e = refl
rem-IsNat (negsuc m) a e = cc

gcd_acc-IsNat : (a b : ℤ) (w : Acc ◌⊏◌ a) → IsNat a → IsNat b → IsNat (gcd_acc a b w)
unfolding gcd_acc
gcd_acc-IsNat a b (Acc.intro _ smaller) p q = elim (dec_lt 0 (abs a)) [
  | yes h ↦
      rw (dif_pos (dec_lt 0 (abs a)) le_prop h)
        (gcd_acc-IsNat (rem b a) a (smaller (rem b a) (rem-⊏ b a h)) (rem-IsNat b a q) p)
  | no h ↦ rw (dif_neg (dec_lt 0 (abs a)) h) q
]

-- On arguments that are not negative the result is not negative.
pub gcd-pos : (a b : ℕ) → gcd (pos a) (pos b) ≡ pos (abs (gcd (pos a) (pos b)))
unfolding gcd
gcd-pos a b = gcd_acc-IsNat (pos a) (pos b) (⊏_wf.apply (pos a)) refl refl

pub lgcd-pos : (a b : ℕ) → lgcd (pos a) (pos b) ≡ pos (abs (lgcd (pos a) (pos b)))
unfolding lgcd
lgcd-pos a b = gcd_acc-IsNat (pos a) (pos b) (⊏_wf.apply (pos a)) refl refl
