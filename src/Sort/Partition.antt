-- ===== src/Sort/Partition.antt =====
-- The two loops of `partition`.
use parallel_io.Base.{◌+◌, ◌≡◌, refl, inl, inr, true, false, List, [], ◌∷◌, ◌++◌, arith, Bool-cases}
use parallel_io.Base.Int.{ℤ, ◌==ℤ◌, ltb_ℤ}
use parallel_io.Sort.{Segment, skip_below, swap, partition_step, partition_loop, resume, partition}
use parallel_io.Sort.Count.{
  one_if, count, count-append, count-other, NoneBelow, AllBelow, SameCounts,
}

-- The entries of `v`, those below the pivot apart from the others.
pub record Splits (pivot : ℤ) (s : Segment) (v : List ℤ) : Type 0 where
  pub low : AllBelow pivot s.below
  pub high : NoneBelow pivot s.others
  pub same : (x : ℤ) → count x s.below + count x s.others ≡ count x v

AllBelow-snoc :
    (pivot x : ℤ) (xs : List ℤ)
    → AllBelow pivot xs
    → ltb_ℤ x pivot ≡ true
    → AllBelow pivot (xs ++ x ∷ [])
unfolding count
AllBelow-snoc pivot x xs a h y p = elim (Bool-cases (y ==ℤ x)) [
  | inl same ↦ ground arith
  | inr other ↦ a y (let c = count-append y xs (x ∷ []) in ground arith)
]

NoneBelow-snoc :
    (pivot x : ℤ) (xs : List ℤ)
    → NoneBelow pivot xs
    → ltb_ℤ x pivot ≡ false
    → NoneBelow pivot (xs ++ x ∷ [])
unfolding count
NoneBelow-snoc pivot x xs a h y p = elim (Bool-cases (y ==ℤ x)) [
  | inl same ↦ ground arith
  | inr other ↦ a y (let c = count-append y xs (x ∷ []) in ground arith)
]

count-snoc : (x y : ℤ) (ys : List ℤ) → count x (ys ++ y ∷ []) ≡ count x ys + one_if (x ==ℤ y)
unfolding count
count-snoc x y ys = omega (arith, count-append x ys (y ∷ []))

NoneBelow-count :
    (pivot : ℤ) (xs ys : List ℤ) → SameCounts ys xs → NoneBelow pivot xs → NoneBelow pivot ys
NoneBelow-count pivot xs ys c a y p = a y (omega (arith, p, c y))

-- The same array with one more entry at the end.
abbrev OneMore : List ℤ → ℤ → List ℤ → Type 0
OneMore v x w = (y : ℤ) → count y w ≡ count y v + one_if (y ==ℤ x)

moved : (m : ℤ) (ms : List ℤ) → SameCounts (ms ++ m ∷ []) (m ∷ ms)
unfolding count
moved m ms y = omega (arith, count-snoc y m ms)

swap-Splits :
    (pivot x : ℤ) (below others : List ℤ) (v w : List ℤ)
    → AllBelow pivot below
    → NoneBelow pivot others
    → ((y : ℤ) → count y below + count y others ≡ count y v)
    → ltb_ℤ x pivot ≡ true
    → OneMore v x w
    → Splits pivot (swap x below others) w
swap-Splits pivot x below [] v w l g c h o = record {
  low = AllBelow-snoc pivot x below l h;
  high = g;
  same = λ y. omega (arith, count-snoc y x below, c y, o y);
}
swap-Splits pivot x below (m ∷ ms) v w l g c h o = record {
  low = AllBelow-snoc pivot x below l h;
  high = NoneBelow-count pivot (m ∷ ms) (ms ++ m ∷ []) (moved m ms) g;
  same = λ y. omega (arith, count-snoc y x below, c y, o y, moved m ms y);
}

step-low :
    (pivot x : ℤ) (s : Segment)
    → ltb_ℤ x pivot ≡ true
    → partition_step pivot s x ≡ swap x s.below s.others
unfolding partition_step
step-low pivot x s h = ground arith

step-high :
    (pivot x : ℤ) (s : Segment)
    → ltb_ℤ x pivot ≡ false
    → partition_step pivot s x ≡ record s { others = s.others ++ x ∷ [] }
unfolding partition_step
step-high pivot x s h = ground arith

step-Splits :
    (pivot x : ℤ) (s : Segment) (v w : List ℤ)
    → Splits pivot s v
    → OneMore v x w
    → Splits pivot (partition_step pivot s x) w
step-Splits pivot x s v w r o = elim (Bool-cases (ltb_ℤ x pivot)) [
  | inl lower ↦
      rw (step-low pivot x s lower)
        (swap-Splits pivot x s.below s.others v w r.low r.high r.same lower o)
  | inr higher ↦ rw (step-high pivot x s higher) (record {
    low = r.low;
    high = NoneBelow-snoc pivot x s.others r.high higher;
    same = λ y. omega (arith, count-snoc y x s.others, r.same y, o y);
  })
]

loop-Splits :
    (pivot : ℤ) (s : Segment) (v xs w : List ℤ)
    → Splits pivot s v
    → ((y : ℤ) → count y w ≡ count y v + count y xs)
    → Splits pivot (partition_loop pivot s xs) w
unfolding partition_loop count
loop-Splits pivot s v [] w r c = record {
  low = r.low;
  high = r.high;
  same = λ y. omega (arith, r.same y, c y);
}
loop-Splits pivot s v (x ∷ xs) w r c =
    loop-Splits pivot (partition_step pivot s x) (x ∷ v) xs w
      (step-Splits pivot x s v (x ∷ v) r (λ y. omega arith)) (λ y. omega (arith, c y))

skip-stop :
    (pivot x : ℤ) (xs : List ℤ) → ltb_ℤ x pivot ≡ false → skip_below pivot (x ∷ xs) ≡ ([], x ∷ xs)
unfolding skip_below
skip-stop pivot x xs h = ground arith

skip-on :
    (pivot x : ℤ) (xs : List ℤ)
    → ltb_ℤ x pivot ≡ true
    → skip_below pivot (x ∷ xs) ≡ (x ∷ (skip_below pivot xs).0, (skip_below pivot xs).1)
unfolding skip_below
skip-on pivot x xs h = ground arith

abbrev StopsAt : ℤ → List ℤ → Type 0
StopsAt pivot [] = Unit {0}
StopsAt pivot (m ∷ ms) = ltb_ℤ m pivot ≡ false

record Skips (pivot : ℤ) (p : List ℤ × List ℤ) (v : List ℤ) : Type 0 where
  low : AllBelow pivot p.0
  stop : StopsAt pivot p.1
  same : (y : ℤ) → count y p.0 + count y p.1 ≡ count y v

AllBelow-cons :
    (pivot x : ℤ) (xs : List ℤ) → AllBelow pivot xs → ltb_ℤ x pivot ≡ true → AllBelow pivot (x ∷ xs)
AllBelow-cons pivot x xs a h y p = elim (Bool-cases (y ==ℤ x)) [
  | inl same ↦ ground arith
  | inr other ↦ a y (omega (arith, p, count-other y x xs other))
]

skip_below-Skips : (pivot : ℤ) (v : List ℤ) → Skips pivot (skip_below pivot v) v
unfolding count
skip_below-Skips pivot [] =
    unfold skip_below in record { low = λ y q. absurd (omega arith); stop = tt; same = λ y. refl }
skip_below-Skips pivot (x ∷ xs) = elim (Bool-cases (ltb_ℤ x pivot)) [
  | inl lower ↦
      let ih = skip_below-Skips pivot xs in
      rw (skip-on pivot x xs lower) (record {
        low = AllBelow-cons pivot x ((skip_below pivot xs).0) ih.low lower;
        stop = ih.stop;
        same = λ y. omega (arith, ih.same y);
      })
  | inr higher ↦
      rw (skip-stop pivot x xs higher)
        (record { low = λ y q. absurd (omega arith); stop = higher; same = λ y. omega arith })
]

resume-Splits :
    (pivot : ℤ) (p : List ℤ × List ℤ) (v : List ℤ)
    → Skips pivot p v
    → Splits pivot (resume pivot p) v
unfolding resume count
resume-Splits pivot (below, []) v r = record {
  low = r.low;
  high = λ y q. absurd (omega arith);
  same = r.same;
}
resume-Splits pivot (below, m ∷ ms) v r =
    loop-Splits pivot (record { below = below; others = m ∷ [] }) (m ∷ below) ms v
      (record {
        low = r.low;
        high = λ y q. elim (Bool-cases (y ==ℤ m)) [
          | inl same ↦ let h = r.stop in ground arith
          | inr other ↦ ground arith
        ];
        same = λ y. omega arith;
      })
      (λ y. omega (arith, r.same y))

-- `partition` puts the entries below the pivot before the returned pointer and the others from it on,
-- and only moves entries.
pub partition-Splits : (pivot : ℤ) (v : List ℤ) → Splits pivot (partition pivot v) v
unfolding partition
partition-Splits pivot v = resume-Splits pivot (skip_below pivot v) v (skip_below-Skips pivot v)
