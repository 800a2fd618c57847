-- ===== src/Sort/Blocks.antt =====
-- The blocks between the pivots.
use parallel_io.Base.{ℕ, zero, suc, ◌<◌, ◌≡◌, refl, ap, ◌∙◌, List, [], ◌∷◌, arith, get_or, length}
use parallel_io.Base.Int.{ℤ, pos}
use parallel_io.Base.Ranks.{le-sum_to, sum_to, sum_to-first}
use parallel_io.Sort.{partition, blocks}
use parallel_io.Sort.Count.{count, NoneBelow, AllBelow}
use parallel_io.Sort.Partition.{partition-Splits}

pub length-blocks : (pivots v : List ℤ) → length (blocks pivots v) ≡ suc (length pivots)
unfolding blocks
length-blocks [] v = refl
length-blocks (p ∷ ps) v = ap suc (length-blocks ps ((partition p v).others))

-- The blocks hold the entries of `v`.
pub blocks-count :
    (pivots v : List ℤ) (x : ℤ)
    → sum_to (suc (length pivots)) (λ i. count x (get_or (blocks pivots v) i [])) ≡ count x v
unfolding blocks
blocks-count [] v x =
    sum_to-first 0 (λ i. count x (get_or (v ∷ []) i [])) ∙ (unfold sum_to in omega arith)
blocks-count (p ∷ ps) v x =
    let s = partition p v in
    let first = sum_to-first (suc (length ps)) (λ i. count x (get_or (blocks (p ∷ ps) v) i [])) in
    first ∙ omega (arith, blocks-count ps s.others x, (partition-Splits p v).same x)

pub blocks-in :
    (pivots v : List ℤ) (i : ℕ) (x : ℤ)
    → i < suc (length pivots)
    → 0 < count x (get_or (blocks pivots v) i [])
    → 0 < count x v
blocks-in pivots v i x h p = omega (
  arith,
  p,
  le-sum_to (suc (length pivots)) (λ i. count x (get_or (blocks pivots v) i [])) i h,
  blocks-count pivots v x,
)

-- Pivot `i` is above block `i`, and not above a later one.
pub blocks-Below :
    (pivots v : List ℤ) (i : ℕ)
    → i < length pivots
    → AllBelow (get_or pivots i (pos 0)) (get_or (blocks pivots v) i [])
unfolding blocks
blocks-Below [] v i h = absurd (omega arith)
blocks-Below (p ∷ ps) v zero h = (partition-Splits p v).low
blocks-Below (p ∷ ps) v (suc i) h = blocks-Below ps ((partition p v).others) i (omega arith)

pub blocks-NoneBelow :
    (pivots v : List ℤ) (i j : ℕ)
    → i < j
    → j < suc (length pivots)
    → NoneBelow (get_or pivots i (pos 0)) (get_or (blocks pivots v) j [])
unfolding blocks
blocks-NoneBelow [] v i j h g = absurd (omega arith)
blocks-NoneBelow (p ∷ ps) v i zero h g = absurd (omega arith)
blocks-NoneBelow (p ∷ ps) v zero (suc j) h g = λ y q.
    let s = partition p v in
    (partition-Splits p v).high y (blocks-in ps s.others j y (omega arith) q)
blocks-NoneBelow (p ∷ ps) v (suc i) (suc j) h g =
    blocks-NoneBelow ps ((partition p v).others) i j (omega arith) (omega arith)
