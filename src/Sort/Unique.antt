-- ===== src/Sort/Unique.antt =====
-- The check for duplicates.
use parallel_io.Base.{
  dec_lt, ◌⊎◌, ℕ, zero, suc, ◌+◌, ◌≤◌, ◌<◌, ◌≡◌, refl, ◌∙◌, ◌≢◌, ◌↔◌, inl, inr, Bool, true, false,
  Option, none, some, List, [], ◌∷◌, arith, Bool-cases, ltb,
}
use parallel_io.Base.Int.{ℤ, pos, ltb_ℤ, ◌==ℤ◌, ==ℤ_iff}
use parallel_io.Base.Ranks.{concat_to, max_to, le-max_to, max_to-one, le-sum_to, sum_to-one}
use parallel_io.Sort.{
  Comm, unique_loop, is_unique, dups, is_none, stops, parallel_sort, run_unique_check,
}
use parallel_io.Sort.Count.{count, count-concat_to, count-first, count-other, IsSorted}
use parallel_io.Sort.Global.{parallel_sort-Before, parallel_sort-local, parallel_sort-SameCounts}

-- A value, not the 0 of a hole, that stands in the list twice or more.
abbrev pub HasDuplicate : List ℤ → Type 0
HasDuplicate xs = (x : ℤ) × (x ≢ pos 0) × (2 ≤ count x xs)

-- What the check says of a list: whether no value but 0 stands there twice.
abbrev Decides : Option Bool → List ℤ → Type 0
Decides none xs = ⊥
Decides (some true) xs = HasDuplicate xs → ⊥
Decides (some false) xs = HasDuplicate xs

-- One more entry in front, which makes no new duplicate.
Decides-cons :
    (o : Option Bool) (p : ℤ) (xs : List ℤ)
    → ((y : ℤ) → y ≢ pos 0 → 2 ≤ count y (p ∷ xs) → 2 ≤ count y xs)
    → Decides o xs
    → Decides o (p ∷ xs)
unfolding count
Decides-cons none p xs h d = d
Decides-cons (some true) p xs h d = λ w. d (w.0, w.1, h w.0 w.1 w.2)
Decides-cons (some false) p xs h (y, n, c) = (y, n, omega arith)

loop-zero :
    (p x : ℤ) (xs : List ℤ) → (x ==ℤ pos 0) ≡ true → unique_loop p (x ∷ xs) ≡ unique_loop x xs
unfolding unique_loop
loop-zero p x xs h = ground arith

loop-same :
    (p x : ℤ) (xs : List ℤ)
    → (x ==ℤ pos 0) ≡ false
    → (x ==ℤ p) ≡ true
    → unique_loop p (x ∷ xs) ≡ some false
unfolding unique_loop
loop-same p x xs h g = ground arith

loop-above :
    (p x : ℤ) (xs : List ℤ)
    → (x ==ℤ pos 0) ≡ false
    → (x ==ℤ p) ≡ false
    → ltb_ℤ x p ≡ false
    → unique_loop p (x ∷ xs) ≡ unique_loop x xs
unfolding unique_loop
loop-above p x xs h g l = ground arith

-- In a sorted list a value that is less than the first is absent.
absent : (p x : ℤ) (xs : List ℤ) → IsSorted (x ∷ xs) → ltb_ℤ p x ≡ true → count p (x ∷ xs) ≡ 0
unfolding IsSorted
absent p x xs (a, s) l = elim (dec_lt 0 (count p xs)) [
  | yes q ↦ let c = a p q in ground arith
  | no q ↦ omega (arith, q, count-other p x xs (ground arith))
]

one_more : (y p : ℤ) (xs : List ℤ) → count y (p ∷ xs) ≤ 1 + count y xs
unfolding count
one_more y p xs = ground arith

alone : (y p : ℤ) → 2 ≤ count y (p ∷ []) → ⊥
unfolding count
alone y p h = ground arith

IsSorted-tail : (p : ℤ) (xs : List ℤ) → IsSorted (p ∷ xs) → IsSorted xs
unfolding IsSorted
IsSorted-tail p xs s = s.1

in_order : (p x : ℤ) (xs : List ℤ) → IsSorted (p ∷ x ∷ xs) → ltb_ℤ x p ≡ false
unfolding IsSorted
in_order p x xs s = s.0 x (count-first x xs)

no_new :
    (p x : ℤ) (xs : List ℤ)
    → IsSorted (x ∷ xs)
    → (p ≡ pos 0) ⊎ (ltb_ℤ p x ≡ true)
    → (y : ℤ) → y ≢ pos 0
    → 2 ≤ count y (p ∷ x ∷ xs)
    → 2 ≤ count y (x ∷ xs)
no_new p x xs s e y n c = elim (Bool-cases (y ==ℤ p)) [
  | inr other ↦ omega (arith, c, count-other y p (x ∷ xs) other)
  | inl same ↦ elim e [
    | inl zero_p ↦ absurd (n ((==ℤ_iff y p).0 same ∙ zero_p))
    | inr lower ↦
        let z = (==ℤ_iff y p).0 same in
        let q : count y (x ∷ xs) ≡ 0 = rw z (absent p x xs s lower) in
        let b = one_more y p (x ∷ xs) in absurd (omega arith)
  ]
]

twice : (x p : ℤ) (xs : List ℤ) → (x ==ℤ p) ≡ true → 2 ≤ count x (p ∷ x ∷ xs)
unfolding count
twice x p xs h = ground arith

strictly : (p x : ℤ) → (x ==ℤ p) ≡ false → ltb_ℤ x p ≡ false → ltb_ℤ p x ≡ true
strictly p x h g = ground arith

at_zero : (p x : ℤ) → (x ==ℤ pos 0) ≡ true → ltb_ℤ x p ≡ false → (p ≡ pos 0) ⊎ (ltb_ℤ p x ≡ true)
at_zero p x h g = elim (Bool-cases (x ==ℤ p)) [
  | inl same ↦ inl ((==ℤ_iff p (pos 0)).0 (ground arith))
  | inr other ↦ inr (strictly p x other g)
]

unique_loop-Decides :
    (p : ℤ) (xs : List ℤ) → IsSorted (p ∷ xs) → Decides (unique_loop p xs) (p ∷ xs)
unique_loop-Decides p [] s = unfold unique_loop in λ w. alone w.0 p w.2
unique_loop-Decides p (x ∷ xs) s = elim (Bool-cases (x ==ℤ pos 0)) [
  | inl z ↦ rw (loop-zero p x xs z) (
      Decides-cons (unique_loop x xs) p (x ∷ xs)
        (no_new p x xs (IsSorted-tail p (x ∷ xs) s) (at_zero p x z (in_order p x xs s)))
        (unique_loop-Decides x xs (IsSorted-tail p (x ∷ xs) s)))
  | inr z ↦ elim (Bool-cases (x ==ℤ p)) [
    | inl same ↦
        rw (loop-same p x xs z same)
          (x, (λ e. let i = (==ℤ_iff x (pos 0)).1 e in ground arith), twice x p xs same)
    | inr other ↦ rw (loop-above p x xs z other (in_order p x xs s)) (
        Decides-cons (unique_loop x xs) p (x ∷ xs)
          (no_new p x xs (IsSorted-tail p (x ∷ xs) s)
            (inr (strictly p x other (in_order p x xs s))))
          (unique_loop-Decides x xs (IsSorted-tail p (x ∷ xs) s)))
  ]
]

is_unique-loop : (x y : ℤ) (xs : List ℤ) → is_unique (x ∷ y ∷ xs) ≡ unique_loop x (y ∷ xs)
unfolding is_unique
is_unique-loop x y xs = ground arith

-- On a sorted array no assertion of `is_unique` fails, and it finds whether a value but 0 occurs
-- twice.
is_unique-Decides : (xs : List ℤ) → IsSorted xs → Decides (is_unique xs) xs
is_unique-Decides [] s = unfold is_unique in unfold count in λ w. absurd (omega (arith, w.2))
is_unique-Decides (x ∷ []) s = unfold is_unique in λ w. alone w.0 x w.2
is_unique-Decides (x ∷ y ∷ xs) s = rw (is_unique-loop x y xs) (unique_loop-Decides x (y ∷ xs) s)

stops-none :
    (n : ℕ) (f : ℕ → Option Bool) → ((r : ℕ) → r < n → is_none (f r) ≡ false) → stops n f ≡ false
unfolding stops
stops-none zero f h = refl
stops-none (suc n) f h = rw (stops-none n f (λ r l. h r (omega arith)), h n (omega arith)) refl

decided : (o : Option Bool) (xs : List ℤ) → Decides o xs → is_none o ≡ false
decided none xs d = absurd d
decided (some b) xs d = refl

dups-HasDuplicate : (o : Option Bool) (xs : List ℤ) → Decides o xs → 0 < dups o → HasDuplicate xs
dups-HasDuplicate none xs d h = absurd d
dups-HasDuplicate (some true) xs d h = absurd (omega arith)
dups-HasDuplicate (some false) xs d h = d

HasDuplicate-dups : (o : Option Bool) (xs : List ℤ) → Decides o xs → HasDuplicate xs → 0 < dups o
HasDuplicate-dups none xs d h = absurd d
HasDuplicate-dups (some true) xs d h = absurd (d h)
HasDuplicate-dups (some false) xs d h = omega arith

module _ (comm : Comm) (rand : ℕ → ℕ → ℕ) (rand_end : ℕ) (v : ℕ → List ℤ) where
  open comm use {size, allreduce_max, allreduce_max-max}

  abbrev sorted : ℕ → List ℤ
  sorted = parallel_sort comm rand rand_end v

  unique_at : (r : ℕ) → r < size → Decides (is_unique (sorted r)) (sorted r)
  unique_at r h = is_unique-Decides (sorted r) (parallel_sort-local comm rand rand_end v r h)

  abbrev flags : ℕ → ℕ
  flags r = dups (is_unique (sorted r))

  run-result : run_unique_check comm rand rand_end v ≡ some (ltb 0 (max_to size flags))
  unfolding run_unique_check
  run-result =
      let e =
        stops-none size (λ r. is_unique (sorted r))
          (λ r h. decided (is_unique (sorted r)) (sorted r) (unique_at r h)) in
      rw (e, allreduce_max-max flags) refl

  -- A value on one rank twice, and no value on two ranks.
  duplicate_at :
      1 ≤ size → HasDuplicate (concat_to size v) → (r : ℕ) × (r < size) × HasDuplicate (sorted r)
  duplicate_at o (x, n, c) =
      let same = parallel_sort-SameCounts comm rand rand_end v o x in
      let e = count-concat_to x size sorted in
      let (r, l, p) =
        sum_to-one size (λ r. count x (sorted r)) (omega arith)
          (λ i j h g p q.
            let b = parallel_sort-Before comm rand rand_end v o i j h g x x p q in ground arith) in
      (r, l, (x, n, omega arith))

  duplicate_from :
      1 ≤ size → (r : ℕ) → r < size → HasDuplicate (sorted r) → HasDuplicate (concat_to size v)
  duplicate_from o r h (x, n, c) =
      let same = parallel_sort-SameCounts comm rand rand_end v o x in
      let e = count-concat_to x size sorted in
      (x, n, omega (arith, le-sum_to size (λ r. count x (sorted r)) r h))

  -- For one rank or more the check ends without a failed assertion, and reports a duplicate exactly if some value other
  -- than 0 occurs twice in the data of all ranks.
  pub run_unique_check-HasDuplicate :
      1 ≤ size
      → (b : Bool) × (run_unique_check comm rand rand_end v ≡ some b)
        × ((b ≡ true) ↔ HasDuplicate (concat_to size v))
  run_unique_check-HasDuplicate o = (ltb 0 (max_to size flags), run-result, (found, reported))
    where
      found : ltb 0 (max_to size flags) ≡ true → HasDuplicate (concat_to size v)
      found e =
          let (r, h, p) = max_to-one size flags (ground arith) in
          duplicate_from o r h
            (dups-HasDuplicate (is_unique (sorted r)) (sorted r) (unique_at r h) p)

      reported : HasDuplicate (concat_to size v) → ltb 0 (max_to size flags) ≡ true
      reported d =
          let (r, h, w) = duplicate_at o d in
          let p = HasDuplicate-dups (is_unique (sorted r)) (sorted r) (unique_at r h) w in
          let m = le-max_to size flags r h in ground arith
