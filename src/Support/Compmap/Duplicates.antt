-- ===== src/Support/Compmap/Duplicates.antt =====
-- What the comparison of `check_compmap` shows of a map, and what it does on a map of holes.
use parallel_io.Base.{
  subst, ℕ, zero, suc, ◌+◌, ◌-◌, ◌≤◌, ◌<◌, ◌≡◌, refl, sym, ap, ◌∙◌, inl, inr, true, false, List, [],
  ◌∷◌, arith, Bool-cases, dec_lt,
}
use parallel_io.Base.Int.{ℤ, pos, negsuc, ◌==ℤ◌, ltb_ℤ, ==ℤ_iff, ◌+ℤ◌, ◌-ℤ◌, -ℤ-pos, +ℤ-pos}
use parallel_io.Base.Ranks.{concat_to, sum_to, sum_to-ext, sum_to-add, le-sum_to}
use parallel_io.Sort.Count.{count, count-first, one_if, in_concat_to}
use parallel_io.Sort.Unique.{HasDuplicate}
use parallel_io.Support.Compmap.{
  Local, scan, scan_start, long_max, allreduce_larger, allreduce_smaller, check_compmap,
}
use parallel_io.Support.Compmap.Scan.{
  mapped, scan-mapped, mapped-concat_to, scan-Spans, larger-up, smaller-down, smaller-positive,
}

-- More entries than values.
sum_to-two : (n : ℕ) (f : ℕ → ℕ) → n < sum_to n f → (i : ℕ) × (i < n) × (2 ≤ f i)
unfolding sum_to
sum_to-two zero f h = absurd (omega arith)
sum_to-two (suc n) f h = elim (dec_lt 1 (f n)) [
  | yes y ↦ (n, omega arith, y)
  | no o ↦ let (i, l, p) = sum_to-two n f (omega arith) in (i, omega arith, p)
]

abbrev pub InRange : ℕ → ℕ → ℤ → Type 0
InRange b n m = (i : ℕ) × (i < n) × (pos (b + i) ≡ m)

pub mapped-sum :
    (b n : ℕ) (xs : List ℤ)
    → ((m : ℤ) → 0 < count m xs → ltb_ℤ (pos 0) m ≡ true → InRange b n m)
    → mapped xs ≤ sum_to n (λ i. count (pos (b + i)) xs)
unfolding mapped count
mapped-sum b n [] h = omega arith
mapped-sum b n (x ∷ xs) h =
    let ih = mapped-sum b n xs (λ m q r. h m (omega arith) r) in
    let split : sum_to n (λ i. count (pos (b + i)) (x ∷ xs))
        ≡ sum_to n (λ i. one_if (pos (b + i) ==ℤ x)) + sum_to n (λ i. count (pos (b + i)) xs) =
      sum_to-add n (λ i. one_if (pos (b + i) ==ℤ x)) (λ i. count (pos (b + i)) xs) in
    elim (Bool-cases (ltb_ℤ (pos 0) x)) [
      | inl p ↦
          let (i, l, e) = h x (count-first x xs) p in
          let here = le-sum_to n (λ j. one_if (pos (b + j) ==ℤ x)) i l in
          let one = ap one_if ((==ℤ_iff (pos (b + i)) x).1 e) in
          let first = ap one_if p in omega (arith, ih, split, here, one, first)
      | inr z ↦ let first = ap one_if z in omega (arith, ih, split, first)
    ]

local : (ℕ → List ℤ) → ℕ → Local
local compmap rank = scan scan_start (compmap rank)

-- The three reduced values, as the code compares them.
length-Spans :
    (last : ℕ) (compmap : ℕ → List ℤ) (m : ℤ)
    → 0 < count m (concat_to (suc last) compmap)
    → ltb_ℤ (pos 0) m ≡ true
    → (ltb_ℤ (allreduce_larger last (λ r. (local compmap r).lmax)) m ≡ false)
      × (ltb_ℤ m (allreduce_smaller last (λ r. (local compmap r).lmin)) ≡ false)
unfolding local
length-Spans last compmap m q p =
    let (r, h, c) = in_concat_to m (suc last) compmap q in
    let s = scan-Spans scan_start (compmap r) refl in
    let up = larger-up last (λ r. (local compmap r).lmax) r h in
    let down = smaller-down last (λ r. (local compmap r).lmin) r h in
    let a = s.below m c p in let b = s.above m c p in (ground arith, ground arith)

total-mapped :
    (last : ℕ) (compmap : ℕ → List ℤ)
    → sum_to (suc last) (λ r. (local compmap r).lmaplen) ≡ mapped (concat_to (suc last) compmap)
unfolding local
total-mapped last compmap =
    sum_to-ext (suc last) (λ r. (local compmap r).lmaplen) (λ r. mapped (compmap r))
      (λ r h. scan-mapped scan_start (compmap r) ∙ omega arith)
    ∙ sym (mapped-concat_to (suc last) compmap)

mapped-some : (xs : List ℤ) → 0 < mapped xs → (m : ℤ) × (0 < count m xs) × (ltb_ℤ (pos 0) m ≡ true)
unfolding mapped count
mapped-some [] h = absurd (omega arith)
mapped-some (x ∷ xs) h = elim (Bool-cases (ltb_ℤ (pos 0) x)) [
  | inl p ↦ (x, count-first x xs, p)
  | inr z ↦
      let first = ap one_if z in
      let (m, q, p) = mapped-some xs (omega (arith, h, first)) in (m, omega arith, p)
]

positive : (z : ℤ) → ltb_ℤ (pos 0) z ≡ true → (a : ℕ) × (z ≡ pos a) × (0 < a)
positive (pos a) h = (a, refl, ground arith)
positive (negsuc a) h = absurd (ground arith)

difference :
    (a b total : ℕ) → b ≤ a → ltb_ℤ (pos a -ℤ pos b +ℤ pos 1) (pos total) ≡ true → a - b + 1 < total
difference a b total h e =
    let d : pos a -ℤ pos b +ℤ pos 1 ≡ pos (a - b + 1) =
      ap (λ z. z +ℤ pos 1) (-ℤ-pos a b h) ∙ +ℤ-pos (a - b) 1 in
    let g : ltb_ℤ (pos (a - b + 1)) (pos total) ≡ true =
      subst (λ z. ltb_ℤ z (pos total) ≡ true) d e in
    ground arith

-- More mapped entries than values from `b` to `a`.
crowded :
    (a b : ℕ) (all : List ℤ)
    → 0 < b
    → ((x : ℤ)
        → 0 < count x all
        → ltb_ℤ (pos 0) x ≡ true
        → (ltb_ℤ (pos a) x ≡ false) × (ltb_ℤ x (pos b) ≡ false))
    → a - b + 1 < mapped all
    → HasDuplicate all
crowded a b all low bounds few =
    let (i, h, two) =
      sum_to-two (a - b + 1) (λ i. count (pos (b + i)) all)
        (omega (arith, few, mapped-sum b (a - b + 1) all range)) in
    (pos (b + i), (λ z. let y = (==ℤ_iff (pos (b + i)) (pos 0)).1 z in ground arith), two)
  where
    range : (x : ℤ) → 0 < count x all → ltb_ℤ (pos 0) x ≡ true → InRange b (a - b + 1) x
    range x q p =
        let (c, e, c_pos) = positive x p in
        let (up, down) = bounds x q p in
        let hi : c ≤ a = ground arith in
        let lo : b ≤ c = ground arith in (c - b, omega arith, ap pos (omega arith) ∙ sym e)

compared :
    (gmax gmin : ℤ) (a b total : ℕ)
    → gmax ≡ pos a
    → gmin ≡ pos b
    → b ≤ a
    → ltb_ℤ (gmax -ℤ gmin +ℤ pos 1) (pos total) ≡ true
    → a - b + 1 < total
compared gmax gmin a b total ea eb h e = difference a b total h (
    subst (λ z. ltb_ℤ (pos a -ℤ z +ℤ pos 1) (pos total) ≡ true) eb
      (subst (λ z. ltb_ℤ (z -ℤ gmin +ℤ pos 1) (pos total) ≡ true) ea e))

-- If a map has a mapped entry and `check_compmap` answers true, some value other than 0 occurs in it
-- twice.
pub check_compmap-HasDuplicate :
    (last : ℕ) (compmap : ℕ → List ℤ)
    → 0 < mapped (concat_to (suc last) compmap)
    → check_compmap last compmap ≡ true
    → HasDuplicate (concat_to (suc last) compmap)
unfolding check_compmap local
check_compmap-HasDuplicate last compmap some_mapped e =
    let all = concat_to (suc last) compmap in
    let gmax = allreduce_larger last (λ r. (local compmap r).lmax) in
    let gmin = allreduce_smaller last (λ r. (local compmap r).lmin) in
    let total = sum_to (suc last) (λ r. (local compmap r).lmaplen) in
    let (m, q, p) = mapped-some all some_mapped in
    let (up, down) = length-Spans last compmap m q p in
    let (b, eb, b_pos) = positive gmin (
      smaller-positive last (λ r. (local compmap r).lmin)
        (λ r. (scan-Spans scan_start (compmap r) refl).least)) in
    let (a, ea, a_pos) = positive gmax (ground arith) in
    let h : b ≤ a = ground arith in
    let few = compared gmax gmin a b total ea eb h e in
    crowded a b all b_pos
      (λ x i j.
        let (u, d) = length-Spans last compmap x i j in
        (subst (λ z. ltb_ℤ z x ≡ false) ea u, subst (λ z. ltb_ℤ x z ≡ false) eb d))
      (omega (arith, few, total-mapped last compmap))

scan-holes : (l : Local) (xs : List ℤ) → mapped xs ≡ 0 → scan l xs ≡ l
unfolding scan mapped
scan-holes l [] h = refl
scan-holes l (x ∷ xs) h = elim (Bool-cases (ltb_ℤ (pos 0) x)) [
  | inl p ↦ let first = ap one_if p in absurd (omega (arith, h, first))
  | inr z ↦ let first = ap one_if z in ground (arith, scan-holes l xs (omega (arith, h, first)))
]

larger-same :
    (n : ℕ) (f : ℕ → ℤ) (z : ℤ) → ((r : ℕ) → r < suc n → f r ≡ z) → allreduce_larger n f ≡ z
unfolding allreduce_larger
larger-same zero f z h = h 0 (omega arith)
larger-same (suc n) f z h =
    rw (h (suc n) (omega arith), larger-same n f z (λ r l. h r (omega arith))) (ground arith)

smaller-same :
    (n : ℕ) (f : ℕ → ℤ) (z : ℤ) → ((r : ℕ) → r < suc n → f r ≡ z) → allreduce_smaller n f ≡ z
unfolding allreduce_smaller
smaller-same zero f z h = h 0 (omega arith)
smaller-same (suc n) f z h =
    rw (h (suc n) (omega arith), smaller-same n f z (λ r l. h r (omega arith))) (ground arith)

-- On a map without a mapped entry `check_compmap` answers true.
pub check_compmap_holes :
    (last : ℕ) (compmap : ℕ → List ℤ)
    → mapped (concat_to (suc last) compmap) ≡ 0
    → check_compmap last compmap ≡ true
unfolding check_compmap local ◌+ℤ◌ ◌-ℤ◌
check_compmap_holes last compmap e =
    let alone = λ (r : ℕ) (h : r < suc last). scan-holes scan_start (compmap r) (
      omega (
        arith,
        e,
        mapped-concat_to (suc last) compmap,
        le-sum_to (suc last) (λ s. mapped (compmap s)) r h,
      )) in
    rw
      (
        larger-same last (λ r. (local compmap r).lmax) (pos 0)
            (λ r h. ap (λ l. l.lmax) (alone r h)),
        smaller-same last (λ r. (local compmap r).lmin) long_max
            (λ r h. ap (λ l. l.lmin) (alone r h)),
        total-mapped last compmap,
        e,
      )
      refl
