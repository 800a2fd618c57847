-- ===== src/BoxDecomp/GcdArray.antt =====
-- `lgcd_array` of src/clib/pioc_sc.c. It calls `gcd`, whose parameters are 32-bit ints, so each
-- argument is converted.
use native.Mathlib.Nat.{dvd_refl, le_of_dvd, pos_of_dvd_of_pos, one-dvd}
use parallel_io.Base.{
  ℕ, ◌<◌, ◌≤◌, ◌∣◌, ◌*◌, ◌≡◌, refl, List, [], ◌∷◌, map, Option, none, some, Bool, true, subst,
  false, ◌||◌, not, arith, if◌then◌else◌, dec_lt, Bool-cases, inl, inr,
}
use parallel_io.Base.Int.{ℤ, pos, abs, ltb_ℤ, to_int, to_int_small, half_word, word}
use parallel_io.BoxDecomp.Gcd.{gcd, IsGcd, gcd-IsGcd, gcd-pos}
use parallel_io.BoxDecomp.GcdList.{IsGcdAll, IsGcdAll-cons, Divides-one}

-- `ain[i] <= 1` for some i.
any_le_one : List ℤ → Bool
any_le_one [] = false
any_le_one (x ∷ xs) = not (ltb_ℤ (pos 1) x) || any_le_one xs

-- The `while` loop; `gcd` is called on ints.
lgcd_loop : ℤ → List ℤ → ℤ
lgcd_loop bsize [] = bsize
lgcd_loop bsize (x ∷ xs) = elim (ltb_ℤ (pos 1) bsize) [
  | true ↦ lgcd_loop (gcd (to_int bsize) (to_int x)) xs
  | false ↦ bsize
]

-- The read of `ain[0]` is out of bounds on an empty array.
lgcd_from_first : List ℤ → Option ℤ
unfolding lgcd_loop
lgcd_from_first [] = none
lgcd_from_first (x ∷ xs) = some (lgcd_loop x xs)

pub lgcd_array : List ℤ → Option ℤ
unfolding any_le_one lgcd_from_first
lgcd_array ain = if any_le_one ain then some (pos 1) else lgcd_from_first ain

-- Positive, and within an int.
abbrev pub Small : List ℕ → Type 0
Small [] = Unit {0}
Small (x ∷ xs) = (0 < x) × (x < half_word) × Small xs

abbrev pub IsResult : List ℕ → ℤ → Type 0
IsResult xs r = (g : ℕ) × (r ≡ pos g) × IsGcdAll g xs

IsGcdAll-single : (b : ℕ) → IsGcdAll b (b ∷ [])
IsGcdAll-single b = record { divides = (dvd_refl b, tt); greatest = λ d h. h.0 }

IsGcdAll-one : (b : ℕ) (xs : List ℕ) → b ≡ 1 → IsGcdAll b (b ∷ xs)
IsGcdAll-one b xs e = rw e (record { divides = Divides-one (1 ∷ xs); greatest = λ d h. h.0 })

lgcd_loop-more :
    (b : ℕ) (x : ℤ) (xs : List ℤ)
    → 1 < b
    → lgcd_loop (pos b) (x ∷ xs) ≡ lgcd_loop (gcd (to_int (pos b)) (to_int x)) xs
unfolding lgcd_loop
lgcd_loop-more b x xs h = ground arith

lgcd_loop-nil : (b : ℤ) → lgcd_loop b [] ≡ b
unfolding lgcd_loop
lgcd_loop-nil b = refl

lgcd_loop-stop : (b : ℕ) (xs : List ℤ) → b ≤ 1 → lgcd_loop (pos b) xs ≡ pos b
unfolding lgcd_loop
lgcd_loop-stop b [] h = refl
lgcd_loop-stop b (x ∷ xs) h = ground arith

lgcd_loop_lem :
    (b : ℕ) (xs : List ℕ)
    → 0 < b
    → b < half_word
    → Small xs
    → IsResult (b ∷ xs) (lgcd_loop (pos b) (map pos xs))
lgcd_loop_lem b [] p q s = (b, lgcd_loop-nil (pos b), IsGcdAll-single b)
lgcd_loop_lem b (x ∷ xs) p q (xp, xq, s) = elim (dec_lt 1 b) [
  | yes more ↦
      let h = abs (gcd (pos b) (pos x)) in
      let fact : IsGcd h b x = gcd-IsGcd (pos b) (pos x) in
      let hp : 0 < h = pos_of_dvd_of_pos fact.left p in
      let (g, e, r) = lgcd_loop_lem h xs hp (omega (arith, le_of_dvd p fact.left)) s in
      (
        g,
        rw
            (
              lgcd_loop-more b (pos x) (map pos xs) more,
              to_int_small b q,
              to_int_small x xq,
              gcd-pos b x,
            )
            e,
        IsGcdAll-cons h g b x xs fact r,
      )
  | no stop ↦
      (b, lgcd_loop-stop b (map pos (x ∷ xs)) (omega arith), IsGcdAll-one b (x ∷ xs) (omega arith))
]

-- A number 1 in the list makes 1 the greatest common divisor.
any_le_one-IsGcdAll : (xs : List ℕ) → any_le_one (map pos xs) ≡ true → Small xs → IsGcdAll 1 xs
unfolding any_le_one
any_le_one-IsGcdAll [] h s = cc
any_le_one-IsGcdAll (x ∷ xs) h (p, q, s) = elim (dec_lt 1 x) [
  | yes big ↦
      let r = any_le_one-IsGcdAll xs (ground arith) s in
      record { divides = (one-dvd x, r.divides); greatest = λ d m. r.greatest d m.1 }
  | no small ↦
      let e : x ≡ 1 = omega arith in
      record { divides = Divides-one (x ∷ xs); greatest = λ d m. subst (◌∣◌ d) e m.0 }
]

-- For an array with an element, of positive ints, the result is the greatest common divisor of all.
pub lgcd_array-IsGcdAll :
    (x : ℕ) (xs : List ℕ)
    → Small (x ∷ xs)
    → (g : ℕ) × (lgcd_array (map pos (x ∷ xs)) ≡ some (pos g)) × IsGcdAll g (x ∷ xs)
unfolding lgcd_array
lgcd_array-IsGcdAll x xs s = elim (Bool-cases (any_le_one (map pos (x ∷ xs)))) [
  | inl one ↦ (1, rw one, any_le_one-IsGcdAll (x ∷ xs) one s)
  | inr more ↦ let (g, e, r) = lgcd_loop_lem x xs s.0 s.1 s.2 in (g, rw (more, e), r)
]

gcd-zero : (b : ℤ) → gcd (pos 0) b ≡ b
unfolding gcd
gcd-zero b = refl

to_int_multiple : (k : ℕ) → to_int (pos (k * word)) ≡ pos 0
unfolding to_int
to_int_multiple k = ground arith

lgcd_array_two :
    (a b : ℕ)
    → 1 < a
    → 1 < b
    → lgcd_array (pos a ∷ pos b ∷ []) ≡ some (lgcd_loop (pos a) (pos b ∷ []))
unfolding lgcd_array
lgcd_array_two a b p q = ground arith

-- A length that is a multiple of 2 ^ 32 is lost in the conversion to int: for such a number followed
-- by a `b` that does not divide it, the result is `b`, which is not a common divisor.
pub lgcd_array_narrows :
    (k b : ℕ)
    → 0 < k
    → 1 < b
    → b < half_word
    → ¬ (b ∣ k * word)
    → (lgcd_array (pos (k * word) ∷ pos b ∷ []) ≡ some (pos b)) × ¬ IsGcdAll b (k * word ∷ b ∷ [])
lgcd_array_narrows k b p q r n = (
  rw (
    lgcd_array_two (k * word) b (omega arith) q,
    lgcd_loop-more (k * word) (pos b) [] (omega arith),
    to_int_multiple k,
    to_int_small b r,
    gcd-zero (pos b),
    lgcd_loop-nil (pos b),
  ),
  λ h. n h.divides.0,
)
