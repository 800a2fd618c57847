-- ===== src/BoxDecomp/GcdList.antt =====
-- The greatest common divisor of a list of numbers, as a specification.
use native.Mathlib.Nat.{dvd-zero, dvd_trans, one-dvd, dvd-add}
use parallel_io.Base.{ℕ, ◌+◌, ◌∣◌, List, [], ◌∷◌}
use parallel_io.BoxDecomp.Gcd.{IsGcd}

-- `d` divides every number of the list.
abbrev pub Divides : ℕ → List ℕ → Type 0
Divides d [] = Unit {0}
Divides d (x ∷ xs) = (d ∣ x) × Divides d xs

-- `g` divides every number of the list, and every such divisor divides `g`.
pub record IsGcdAll (g : ℕ) (xs : List ℕ) : Type 0 where
  pub divides : Divides g xs
  pub greatest : (d : ℕ) → Divides d xs → d ∣ g

pub Divides-trans : (d g : ℕ) (xs : List ℕ) → d ∣ g → Divides g xs → Divides d xs
Divides-trans d g [] p h = tt
Divides-trans d g (x ∷ xs) p (h, hs) = (dvd_trans d p h, Divides-trans d g xs p hs)

pub Divides-one : (xs : List ℕ) → Divides 1 xs
Divides-one [] = tt
Divides-one (x ∷ xs) = (one-dvd x, Divides-one xs)

-- The first two numbers may be replaced by their greatest common divisor.
pub IsGcdAll-cons :
    (h g a b : ℕ) (xs : List ℕ) → IsGcd h a b → IsGcdAll g (h ∷ xs) → IsGcdAll g (a ∷ b ∷ xs)
IsGcdAll-cons h g a b xs p q = record {
  divides = (dvd_trans g q.divides.0 p.left, (dvd_trans g q.divides.0 p.right, q.divides.1));
  greatest = λ d m. q.greatest d (p.greatest d m.0 m.1.0, m.1.1);
}

unfoldable pub sum : List ℕ → ℕ
sum [] = 0
sum (x ∷ xs) = x + sum xs

Divides-sum : (d : ℕ) (xs : List ℕ) → Divides d xs → d ∣ sum xs
unfolding sum
Divides-sum d [] h = dvd-zero d
Divides-sum d (x ∷ xs) (h, hs) = dvd-add d h (Divides-sum d xs hs)

-- The sum of the numbers adds nothing.
pub IsGcdAll-sum : (g : ℕ) (xs : List ℕ) → IsGcdAll g (sum xs ∷ xs) → IsGcdAll g xs
IsGcdAll-sum g xs h = record {
  divides = h.divides.1;
  greatest = λ d p. h.greatest d (Divides-sum d xs p, p);
}
