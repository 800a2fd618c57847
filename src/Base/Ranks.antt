-- ===== src/Base/Ranks.antt =====
-- What the ranks 0, ..., n - 1 of a communicator hold, side by side.
use native.Mathlib.Nat.{mul-le-mul_right}
use parallel_io.Base.{
  sym, dec_lt, ◌*◌, ℕ, zero, suc, ◌+◌, ◌≤◌, ◌<◌, max, ◌≡◌, refl, ap, ◌∙◌, List, [], ◌∷◌, ◌++◌,
  length, length-append, get_or, arith, ℕ_discrete,
}

row_inside : (r n k i : ℕ) → r < n → i < k → r * k + i < n * k
row_inside r n k i h g = omega (arith, mul-le-mul_right k h)

module _ {A : Type 0} where
  unfoldable pub tabulate : ℕ → (ℕ → A) → List A
  tabulate zero f = []
  tabulate (suc n) f = tabulate n f ++ f n ∷ []

  unfoldable pub concat_to : ℕ → (ℕ → List A) → List A
  concat_to zero f = []
  concat_to (suc n) f = concat_to n f ++ f n

  pub get_or-append_left :
      (xs ys : List A) (i : ℕ) (d : A) → i < length xs → get_or (xs ++ ys) i d ≡ get_or xs i d
  get_or-append_left [] ys i d h = absurd (omega arith)
  get_or-append_left (x ∷ xs) ys zero d h = refl
  get_or-append_left (x ∷ xs) ys (suc i) d h = get_or-append_left xs ys i d (omega arith)

  pub get_or-append_right :
      (xs ys : List A) (i j : ℕ) (d : A) → j ≡ length xs + i → get_or (xs ++ ys) j d ≡ get_or ys i d
  get_or-append_right [] ys i j d e = ap (λ k. get_or ys k d) (omega arith)
  get_or-append_right (x ∷ xs) ys i zero d e = absurd (omega arith)
  get_or-append_right (x ∷ xs) ys i (suc j) d e = get_or-append_right xs ys i j d (omega arith)

  pub length-tabulate : (n : ℕ) (f : ℕ → A) → length (tabulate n f) ≡ n
  unfolding tabulate
  length-tabulate zero f = refl
  length-tabulate (suc n) f =
      omega (arith, length-append (tabulate n f) (f n ∷ []), length-tabulate n f)

  pub get_or-tabulate :
      (n : ℕ) (f : ℕ → A) (i : ℕ) (d : A) → i < n → get_or (tabulate n f) i d ≡ f i
  unfolding tabulate
  get_or-tabulate zero f i d h = absurd (omega arith)
  get_or-tabulate (suc n) f i d h = elim (ℕ_discrete i n) [
    | yes e ↦
        get_or-append_right (tabulate n f) (f n ∷ []) 0 i d (omega (arith, length-tabulate n f))
        ∙ ap f (sym e)
    | no o ↦
        get_or-append_left (tabulate n f) (f n ∷ []) i d (omega (arith, length-tabulate n f))
        ∙ get_or-tabulate n f i d (omega arith)
  ]

  pub tabulate-ext :
      (n : ℕ) (f g : ℕ → A) → ((i : ℕ) → i < n → f i ≡ g i) → tabulate n f ≡ tabulate n g
  unfolding tabulate
  tabulate-ext zero f g h = refl
  tabulate-ext (suc n) f g h =
      rw (tabulate-ext n f g (λ i l. h i (omega arith)), h n (omega arith)) refl

  pub concat_to-ext :
      (n : ℕ) (f g : ℕ → List A) → ((i : ℕ) → i < n → f i ≡ g i) → concat_to n f ≡ concat_to n g
  unfolding concat_to
  concat_to-ext zero f g h = refl
  concat_to-ext (suc n) f g h =
      rw (concat_to-ext n f g (λ i l. h i (omega arith)), h n (omega arith)) refl

  length-concat_to :
      (n k : ℕ) (f : ℕ → List A)
      → ((s : ℕ) → s < n → length (f s) ≡ k)
      → length (concat_to n f) ≡ n * k
  unfolding concat_to
  length-concat_to zero k f l = omega arith
  length-concat_to (suc n) k f l =
      let ih = length-concat_to n k f (λ s h. l s (omega arith)) in
      let e = l n (omega arith) in
      let a = length-append (concat_to n f) (f n) in omega (arith, ih, e, a)

  -- Rows of `k` entries, one after the other: row `r` starts at `r * k`.
  pub get_or-concat_to :
      (n k : ℕ) (f : ℕ → List A) (r i : ℕ) (d : A)
      → ((s : ℕ) → s < n → length (f s) ≡ k)
      → r < n
      → i < k
      → get_or (concat_to n f) (r * k + i) d ≡ get_or (f r) i d
  unfolding concat_to
  get_or-concat_to zero k f r i d l h g = absurd (omega arith)
  get_or-concat_to (suc n) k f r i d l h g =
      let len = length-concat_to n k f (λ s h. l s (omega arith)) in
      elim (ℕ_discrete r n) [
        | yes e ↦
            get_or-append_right (concat_to n f) (f n) i (r * k + i) d (rw (e, len) refl)
            ∙ ap (λ s. get_or (f s) i d) (sym e)
        | no o ↦
            get_or-append_left (concat_to n f) (f n) (r * k + i) d
              (omega (arith, len, row_inside r n k i (omega arith) g))
            ∙ get_or-concat_to n k f r i d (λ s h. l s (omega arith)) (omega arith) g
      ]

-- The sum over the ranks, and the greatest value.
unfoldable pub sum_to : ℕ → (ℕ → ℕ) → ℕ
sum_to zero f = 0
sum_to (suc n) f = sum_to n f + f n

unfoldable pub max_to : ℕ → (ℕ → ℕ) → ℕ
max_to zero f = 0
max_to (suc n) f = max (max_to n f) (f n)

pub sum_to-ext : (n : ℕ) (f g : ℕ → ℕ) → ((i : ℕ) → i < n → f i ≡ g i) → sum_to n f ≡ sum_to n g
unfolding sum_to
sum_to-ext zero f g h = refl
sum_to-ext (suc n) f g h =
    omega (arith, sum_to-ext n f g (λ i l. h i (omega arith)), h n (omega arith))

pub sum_to-zero : (n : ℕ) → sum_to n (λ i. 0) ≡ 0
unfolding sum_to
sum_to-zero zero = refl
sum_to-zero (suc n) = omega (arith, sum_to-zero n)

pub sum_to-add : (n : ℕ) (f g : ℕ → ℕ) → sum_to n (λ i. f i + g i) ≡ sum_to n f + sum_to n g
unfolding sum_to
sum_to-add zero f g = refl
sum_to-add (suc n) f g = omega (arith, sum_to-add n f g)

pub sum_to-first : (n : ℕ) (f : ℕ → ℕ) → sum_to (suc n) f ≡ f 0 + sum_to n (λ i. f (suc i))
unfolding sum_to
sum_to-first zero f = omega arith
sum_to-first (suc n) f = omega (arith, sum_to-first n f)

-- Rows first or columns first.
pub sum_to-swap :
    (n m : ℕ) (f : ℕ → ℕ → ℕ)
    → sum_to n (λ i. sum_to m (λ j. f i j)) ≡ sum_to m (λ j. sum_to n (λ i. f i j))
unfolding sum_to
sum_to-swap zero m f = rw (sum_to-zero m) refl
sum_to-swap (suc n) m f =
    omega (arith, sum_to-swap n m f, sum_to-add m (λ j. sum_to n (λ i. f i j)) (f n))

pub le-sum_to : (n : ℕ) (f : ℕ → ℕ) (i : ℕ) → i < n → f i ≤ sum_to n f
unfolding sum_to
le-sum_to zero f i h = absurd (omega arith)
le-sum_to (suc n) f i h = elim (ℕ_discrete i n) [
  | yes e ↦ rw e (omega arith)
  | no o ↦ omega (arith, le-sum_to n f i (omega arith))
]

pub le-max_to : (n : ℕ) (f : ℕ → ℕ) (i : ℕ) → i < n → f i ≤ max_to n f
unfolding max_to
le-max_to zero f i h = absurd (omega arith)
le-max_to (suc n) f i h = elim (ℕ_discrete i n) [
  | yes e ↦ rw e (omega arith)
  | no o ↦ omega (arith, le-max_to n f i (omega arith))
]

pub max_to-one : (n : ℕ) (f : ℕ → ℕ) → 0 < max_to n f → (i : ℕ) × (i < n) × (0 < f i)
unfolding max_to
max_to-one zero f h = absurd (omega arith)
max_to-one (suc n) f h = elim (dec_lt 0 (f n)) [
  | yes g ↦ (n, omega arith, g)
  | no g ↦ let (i, l, p) = max_to-one n f (omega arith) in (i, omega arith, p)
]

-- A sum of numbers of which one at most is not zero.
pub sum_to-one :
    (n : ℕ) (f : ℕ → ℕ)
    → 0 < sum_to n f
    → ((i j : ℕ) → i < j → j < n → 0 < f i → 0 < f j → ⊥)
    → (i : ℕ) × (i < n) × (f i ≡ sum_to n f)
unfolding sum_to
sum_to-one zero f h o = absurd (omega arith)
sum_to-one (suc n) f h o = elim (dec_lt 0 (f n)) [
  | no z ↦
      let (i, l, e) = sum_to-one n f (omega arith) (λ i j h g p q. o i j h (omega arith) p q) in
      (i, omega arith, omega arith)
  | yes p ↦ elim (dec_lt 0 (sum_to n f)) [
    | no z ↦ (n, omega arith, omega arith)
    | yes q ↦
        let (i, l, e) = sum_to-one n f q (λ i j h g p q. o i j h (omega arith) p q) in
        absurd (o i n l (omega arith) (omega arith) p)
  ]
]

pub sum_to-some : (n : ℕ) (f : ℕ → ℕ) → 0 < sum_to n f → (i : ℕ) × (i < n) × (0 < f i)
unfolding sum_to
sum_to-some zero f h = absurd (omega arith)
sum_to-some (suc n) f h = elim (dec_lt 0 (f n)) [
  | yes g ↦ (n, omega arith, g)
  | no g ↦ let (i, l, p) = sum_to-some n f (omega arith) in (i, omega arith, p)
]
