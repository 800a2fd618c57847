-- ===== src/Support/Compmap/Scan.antt =====
-- The scan of a map in `check_compmap`, and the reductions over the ranks.
use parallel_io.Base.{
  ℕ, zero, suc, ◌+◌, ◌<◌, ◌≡◌, refl, inl, inr, true, false, List, [], ◌∷◌, ◌++◌, if◌then◌else◌,
  arith, Bool-cases, ℕ_discrete,
}
use parallel_io.Base.Int.{ℤ, pos, ◌==ℤ◌, ltb_ℤ}
use parallel_io.Base.Ranks.{concat_to, sum_to}
use parallel_io.Sort.Count.{count, count-other, one_if}
use parallel_io.Support.Compmap.{Local, larger, smaller, scan, allreduce_larger, allreduce_smaller}

-- How many entries are mapped.
unfoldable pub mapped : List ℤ → ℕ
mapped [] = 0
mapped (m ∷ ms) = one_if (ltb_ℤ (pos 0) m) + mapped ms

pub scan-mapped : (l : Local) (xs : List ℤ) → (scan l xs).lmaplen ≡ l.lmaplen + mapped xs
unfolding scan mapped
scan-mapped l [] = omega arith
scan-mapped l (m ∷ ms) = elim (Bool-cases (ltb_ℤ (pos 0) m)) [
  | inl p ↦ ground (
    arith,
    scan-mapped
        (record { lmaplen = suc l.lmaplen; lmax = larger m l.lmax; lmin = smaller m l.lmin }) ms,
  )
  | inr n ↦ ground (arith, scan-mapped l ms)
]

pub mapped-append : (xs ys : List ℤ) → mapped (xs ++ ys) ≡ mapped xs + mapped ys
unfolding mapped
mapped-append [] ys = omega arith
mapped-append (x ∷ xs) ys = omega (arith, mapped-append xs ys)

pub mapped-concat_to :
    (n : ℕ) (f : ℕ → List ℤ) → mapped (concat_to n f) ≡ sum_to n (λ r. mapped (f r))
unfolding concat_to sum_to mapped
mapped-concat_to zero f = refl
mapped-concat_to (suc n) f =
    omega (arith, mapped-append (concat_to n f) (f n), mapped-concat_to n f)

-- The mapped entries lie between the values that the scan ends with, and the least one is positive.
pub record Spans (l : Local) (xs : List ℤ) : Type 0 where
  pub below : (m : ℤ) → 0 < count m xs → ltb_ℤ (pos 0) m ≡ true → ltb_ℤ l.lmax m ≡ false
  pub above : (m : ℤ) → 0 < count m xs → ltb_ℤ (pos 0) m ≡ true → ltb_ℤ m l.lmin ≡ false
  pub least : ltb_ℤ (pos 0) l.lmin ≡ true

-- The scan only widens the span.
pub record Widens (l k : Local) : Type 0 where
  pub up : ltb_ℤ k.lmax l.lmax ≡ false
  pub down : ltb_ℤ l.lmin k.lmin ≡ false
  pub positive : ltb_ℤ (pos 0) l.lmin ≡ true → ltb_ℤ (pos 0) k.lmin ≡ true

abbrev pub next : Local → ℤ → Local
next l m =
    if ltb_ℤ (pos 0) m
    then record { lmaplen = suc l.lmaplen; lmax = larger m l.lmax; lmin = smaller m l.lmin }
    else l

pub not_above : (a b c : ℤ) → ltb_ℤ b a ≡ false → ltb_ℤ c b ≡ false → ltb_ℤ c a ≡ false
not_above a b c h g = ground arith

pub next-Widens : (l : Local) (m : ℤ) → Widens l (next l m)
next-Widens l m = record { up = ground arith; down = ground arith; positive = λ p. ground arith }

pub scan-Widens : (l : Local) (xs : List ℤ) → Widens l (scan l xs)
unfolding scan
scan-Widens l [] = record { up = ground arith; down = ground arith; positive = λ p. p }
scan-Widens l (m ∷ ms) =
    let a = next-Widens l m in
    let b = scan-Widens (next l m) ms in
    record {
      up = not_above l.lmax ((next l m).lmax) ((scan (next l m) ms).lmax) a.up b.up;
      down = not_above ((scan (next l m) ms).lmin) ((next l m).lmin) l.lmin b.down a.down;
      positive = λ p. b.positive (a.positive p);
    }

pub scan-Spans : (l : Local) (xs : List ℤ) → ltb_ℤ (pos 0) l.lmin ≡ true → Spans (scan l xs) xs
unfolding scan count
scan-Spans l [] p = record {
  below = λ m q. absurd (omega arith);
  above = λ m q. absurd (omega arith);
  least = p;
}
scan-Spans l (x ∷ xs) p =
    let a = next-Widens l x in
    let b = scan-Widens (next l x) xs in
    let c = scan-Spans (next l x) xs (a.positive p) in
    record {
      below = λ m q r. elim (Bool-cases (m ==ℤ x)) [
        | inl same ↦ not_above m ((next l x).lmax) ((scan (next l x) xs).lmax) (ground arith) b.up
        | inr other ↦ c.below m (let k = count-other m x xs other in ground arith) r
      ];
      above = λ m q r. elim (Bool-cases (m ==ℤ x)) [
        | inl same ↦ not_above ((scan (next l x) xs).lmin) ((next l x).lmin) m b.down (ground arith)
        | inr other ↦ c.above m (let k = count-other m x xs other in ground arith) r
      ];
      least = c.least;
    }

-- The reductions.
pub larger-up : (n : ℕ) (f : ℕ → ℤ) (r : ℕ) → r < suc n → ltb_ℤ (allreduce_larger n f) (f r) ≡ false
unfolding allreduce_larger
larger-up zero f r h = let e : r ≡ 0 = omega arith in rw e (ground arith)
larger-up (suc n) f r h = elim (ℕ_discrete r (suc n)) [
  | yes e ↦ rw e (ground arith)
  | no o ↦ let ih = larger-up n f r (omega arith) in ground arith
]

pub smaller-down :
    (n : ℕ) (f : ℕ → ℤ) (r : ℕ) → r < suc n → ltb_ℤ (f r) (allreduce_smaller n f) ≡ false
unfolding allreduce_smaller
smaller-down zero f r h = let e : r ≡ 0 = omega arith in rw e (ground arith)
smaller-down (suc n) f r h = elim (ℕ_discrete r (suc n)) [
  | yes e ↦ rw e (ground arith)
  | no o ↦ let ih = smaller-down n f r (omega arith) in ground arith
]

pub smaller-positive :
    (n : ℕ) (f : ℕ → ℤ)
    → ((r : ℕ) → ltb_ℤ (pos 0) (f r) ≡ true)
    → ltb_ℤ (pos 0) (allreduce_smaller n f) ≡ true
unfolding allreduce_smaller
smaller-positive zero f h = h 0
smaller-positive (suc n) f h = let ih = smaller-positive n f h in let g = h (suc n) in ground arith
