-- ===== src/Sort/Count.antt =====
-- How often a value stands in a list; a list of offsets in order; and `qsort`.
use parallel_io.Base.{
  dec_lt, ℕ, zero, suc, ◌+◌, ◌<◌, ◌≡◌, refl, inl, inr, Bool, true, false, List, [], ◌∷◌, ◌++◌,
  arith, Bool-cases,
}
use parallel_io.Base.Int.{ℤ, ◌==ℤ◌, ltb_ℤ}
use parallel_io.Base.Ranks.{sum_to-some, concat_to, sum_to}
use parallel_io.Sort.{cmp, insert, qsort}

abbrev pub one_if : Bool → ℕ
one_if true = 1
one_if false = 0

unfoldable pub count : ℤ → List ℤ → ℕ
count x [] = 0
count x (y ∷ ys) = one_if (x ==ℤ y) + count x ys

pub count-append : (x : ℤ) (ys zs : List ℤ) → count x (ys ++ zs) ≡ count x ys + count x zs
unfolding count
count-append x [] zs = omega arith
count-append x (y ∷ ys) zs = omega (arith, count-append x ys zs)

pub count-concat_to :
    (x : ℤ) (n : ℕ) (f : ℕ → List ℤ) → count x (concat_to n f) ≡ sum_to n (λ i. count x (f i))
unfolding concat_to sum_to count
count-concat_to x zero f = refl
count-concat_to x (suc n) f =
    omega (arith, count-append x (concat_to n f) (f n), count-concat_to x n f)

pub in_concat_to :
    (x : ℤ) (n : ℕ) (f : ℕ → List ℤ)
    → 0 < count x (concat_to n f)
    → (i : ℕ) × (i < n) × (0 < count x (f i))
in_concat_to x n f p = sum_to-some n (λ i. count x (f i)) (omega (arith, p, count-concat_to x n f))

-- No entry is less than an earlier one.
abbrev pub NoneBelow : ℤ → List ℤ → Type 0
NoneBelow x ys = (y : ℤ) → 0 < count y ys → ltb_ℤ y x ≡ false

abbrev pub AllBelow : ℤ → List ℤ → Type 0
AllBelow x ys = (y : ℤ) → 0 < count y ys → ltb_ℤ y x ≡ true

unfoldable pub IsSorted : List ℤ → Type 0
IsSorted [] = Unit {0}
IsSorted (x ∷ xs) = NoneBelow x xs × IsSorted xs

-- Every entry of the one list is less than every entry of the other.
abbrev pub Before : List ℤ → List ℤ → Type 0
Before xs ys = (x y : ℤ) → 0 < count x xs → 0 < count y ys → ltb_ℤ x y ≡ true

-- The same entries, equally often.
abbrev pub SameCounts : List ℤ → List ℤ → Type 0
SameCounts xs ys = (x : ℤ) → count x xs ≡ count x ys

pub count-first : (x : ℤ) (xs : List ℤ) → 0 < count x (x ∷ xs)
unfolding count
count-first x xs = ground arith

pub count-other : (x y : ℤ) (ys : List ℤ) → (x ==ℤ y) ≡ false → count x (y ∷ ys) ≡ count x ys
unfolding count
count-other x y ys h = ground arith

count-insert : (x y : ℤ) (ys : List ℤ) → count x (insert y ys) ≡ one_if (x ==ℤ y) + count x ys
unfolding insert cmp count
count-insert x y [] = refl
count-insert x y (z ∷ zs) = let ih = count-insert x y zs in ground arith

pub qsort-SameCounts : (xs : List ℤ) → SameCounts (qsort xs) xs
unfolding qsort count
qsort-SameCounts [] x = refl
qsort-SameCounts (y ∷ ys) x = omega (arith, count-insert x y (qsort ys), qsort-SameCounts ys x)

insert-after : (x y : ℤ) (ys : List ℤ) → ltb_ℤ y x ≡ true → insert x (y ∷ ys) ≡ y ∷ insert x ys
unfolding insert cmp
insert-after x y ys h = ground arith

insert-here : (x y : ℤ) (ys : List ℤ) → ltb_ℤ y x ≡ false → insert x (y ∷ ys) ≡ x ∷ y ∷ ys
unfolding insert cmp
insert-here x y ys h = ground arith

-- No value is below itself, and two that are not below each other are equal.
pub below_trans : (x y z : ℤ) → ltb_ℤ y x ≡ false → ltb_ℤ z y ≡ false → ltb_ℤ z x ≡ false
below_trans x y z p q = ground arith

insert-Sorted : (x : ℤ) (ys : List ℤ) → IsSorted ys → IsSorted (insert x ys)
unfolding IsSorted
insert-Sorted x [] s = unfold insert in unfold count in ((λ y q. absurd (omega arith)), tt)
insert-Sorted x (y ∷ ys) (p, s) = elim (Bool-cases (ltb_ℤ y x)) [
  | inl after ↦ rw (insert-after x y ys after) (
    λ z q. elim (Bool-cases (z ==ℤ x)) [
      | inl same ↦ ground arith
      | inr other ↦ p z (let c = count-insert z x ys in ground arith)
    ],
    insert-Sorted x ys s,
  )
  | inr here ↦ rw (insert-here x y ys here) (
    λ z q. elim (Bool-cases (z ==ℤ y)) [
      | inl same ↦ ground arith
      | inr other ↦ below_trans x y z here (p z (let c = count-other z y ys other in omega arith))
    ],
    (p, s),
  )
]

pub qsort-IsSorted : (xs : List ℤ) → IsSorted (qsort xs)
unfolding qsort IsSorted
qsort-IsSorted [] = tt
qsort-IsSorted (x ∷ xs) = insert-Sorted x (qsort xs) (qsort-IsSorted xs)

pub append-Sorted :
    (xs ys : List ℤ) → IsSorted xs → IsSorted ys → Before xs ys → IsSorted (xs ++ ys)
unfolding IsSorted count
append-Sorted [] ys s t b = t
append-Sorted (x ∷ xs) ys (p, s) t b = (
  λ y q. elim (dec_lt 0 (count y xs)) [
    | yes r ↦ p y r
    | no r ↦
        let g = b x y (count-first x xs) (omega (arith, q, count-append y xs ys)) in ground arith
  ],
  append-Sorted xs ys s t (λ y z p q. b y z (omega (arith, p)) q),
)

pub concat_to-Sorted :
    (n : ℕ) (f : ℕ → List ℤ)
    → ((i : ℕ) → i < n → IsSorted (f i))
    → ((i j : ℕ) → i < j → j < n → Before (f i) (f j))
    → IsSorted (concat_to n f)
unfolding concat_to IsSorted
concat_to-Sorted zero f s b = tt
concat_to-Sorted (suc n) f s b =
    append-Sorted (concat_to n f) (f n)
      (concat_to-Sorted n f (λ i h. s i (omega arith)) (λ i j h g. b i j h (omega arith)))
      (s n (omega arith))
      (λ x y p q. let (i, h, r) = in_concat_to x n f p in b i n h (omega arith) x y r q)
