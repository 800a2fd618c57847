-- ===== src/SortedCopy/RoundTrip.antt =====
-- The two directions of `pio_sorted_copy`, one after the other.
use parallel_io.Base.{
  ℕ, zero, suc, ◌+◌, ◌*◌, ◌<◌, ◌≡◌, refl, subst, ◌∙◌, ◌≢◌, false, some, List, [], ◌∷◌, arith,
  length, get_elem?,
}
use parallel_io.Base.Error.{ok}
use parallel_io.Base.Int.{ℤ, pos, ◌==ℤ◌}
use parallel_io.Support.Types.{PioType}
use parallel_io.SortedCopy.{Cells, copy_in, copy_out, each_var, sorted_copy}
use parallel_io.SortedCopy.Loops.{
  Distinct, copy_in_below, copy_in_at, copy_out_below, copy_out_at, each_var_at,
}

abbrev pub AllBelow : ℕ → List ℕ → Type 0
AllBelow n [] = Unit {0}
AllBelow n (r ∷ remap) = (r < n) × AllBelow n remap

index_lt : (xs : List ℕ) (i : ℕ) {r : ℕ} → get_elem? xs i ≡ some r → i < length xs
index_lt [] i e = cc
index_lt (x ∷ xs) zero e = omega arith
index_lt (x ∷ xs) (suc i) e = omega (arith, index_lt xs i e)

AllBelow-get :
    (n : ℕ) (xs : List ℕ) (i : ℕ) {r : ℕ} → AllBelow n xs → get_elem? xs i ≡ some r → r < n
AllBelow-get n [] i h e = cc
AllBelow-get n (x ∷ xs) zero (lt, h) e = let same : x ≡ _ = some_same e in omega arith
  where
    some_same : {a b : ℕ} → some a ≡ some b → a ≡ b
    some_same p = cc
AllBelow-get n (x ∷ xs) (suc i) (lt, h) e = AllBelow-get n xs i h e

module _ {V : Type 0} (remap : List ℕ) (nvars : ℕ) where
  abbrev gathered : Cells V → Cells V → Cells V
  gathered array sorted =
      each_var (λ base. copy_in remap 0 base array) (length remap) nvars 0 sorted

  abbrev scattered : Cells V → Cells V → Cells V
  scattered array sorted =
      each_var (λ base. copy_out remap 0 base array) (length remap) nvars 0 sorted

  gathered_at :
      (array sorted : Cells V) (i w : ℕ) {r : ℕ}
      → get_elem? remap i ≡ some r
      → w < nvars
      → gathered array sorted (i + length remap * w) ≡ array (r + length remap * w)
  gathered_at array sorted i w {r = r} e lt =
      each_var_at (λ base. copy_in remap 0 base array) (length remap)
        (λ base c cells h. copy_in_below remap 0 base c array cells (omega arith)) nvars 0 w i
        (array (r + length remap * w)) sorted (index_lt remap i e) (omega arith) (omega arith)
        (λ cells.
          let z : 0 + i ≡ i = omega arith in
          subst
            (λ t.
              copy_in remap 0 (length remap * w) array cells (t + length remap * w)
              ≡ array (r + length remap * w))
            z (copy_in_at remap 0 (length remap * w) i array cells e))

  scattered_at :
      (array sorted : Cells V) (i w : ℕ) {r : ℕ}
      → Distinct remap
      → AllBelow (length remap) remap
      → get_elem? remap i ≡ some r
      → w < nvars
      → scattered array sorted (r + length remap * w) ≡ array (i + length remap * w)
  scattered_at array sorted i w {r = r} d below e lt =
      each_var_at (λ base. copy_out remap 0 base array) (length remap)
        (λ base c cells h. copy_out_below remap 0 base c array cells h) nvars 0 w r
        (array (i + length remap * w)) sorted (AllBelow-get (length remap) remap i below e)
        (omega arith) (omega arith)
        (λ cells.
          let z : 0 + i ≡ i = omega arith in
          subst
            (λ t.
              copy_out remap 0 (length remap * w) array cells (r + length remap * w)
              ≡ array (t + length remap * w))
            z (copy_out_at remap 0 (length remap * w) i array cells d e))

  copied_in :
      (t : PioType) (array sorted : Cells V)
      → t ≢ PioType.other
      → sorted_copy t remap array sorted nvars (pos 0) ≡ ok (gathered array sorted)
  unfolding sorted_copy
  copied_in PioType.other array sorted ne = absurd (ne refl)
  copied_in t array sorted ne = refl

  copied_out :
      (t : PioType) (array sorted : Cells V) (direction : ℤ)
      → t ≢ PioType.other
      → (direction ==ℤ pos 0) ≡ false
      → sorted_copy t remap array sorted nvars direction ≡ ok (scattered array sorted)
  unfolding sorted_copy
  copied_out PioType.other array sorted direction ne e = absurd (ne refl)
  copied_out t array sorted direction ne e = rw (e) refl

-- For a PIO type and a remap without repetition whose entries are places in the map, pio_sorted_copy with direction 0
-- brings the element that remap names to each place, for each variable, and with another direction takes it back.
pub sorted_copy-sorted_copy :
    {V : Type 0} (t : PioType) (remap : List ℕ) (nvars : ℕ) (array sorted again : Cells V)
    (direction : ℤ)
    → t ≢ PioType.other
    → Distinct remap
    → AllBelow (length remap) remap
    → (direction ==ℤ pos 0) ≡ false
    → (out : Cells V) × (back : Cells V) × (sorted_copy t remap array sorted nvars (pos 0) ≡ ok out)
      × (sorted_copy t remap out again nvars direction ≡ ok back)
      × ((i w r : ℕ)
          → get_elem? remap i ≡ some r
          → w < nvars
          → (out (i + length remap * w) ≡ array (r + length remap * w))
            × (back (r + length remap * w) ≡ array (r + length remap * w)))
sorted_copy-sorted_copy t remap nvars array sorted again direction ne d below e =
    let out = gathered remap nvars array sorted in
    (
      out,
      scattered remap nvars out again,
      copied_in remap nvars t array sorted ne,
      copied_out remap nvars t out again direction ne e,
      λ i w r at lt. (
        gathered_at remap nvars array sorted i w at lt,
        scattered_at remap nvars out again i w d below at lt
            ∙ gathered_at remap nvars array sorted i w at lt,
      ),
    )
