-- ===== src/Spmd/Peers.antt =====
-- The partners of the exchange: `ceil2`, `pair` and `swapids`.
use parallel_io.Base.{
  ==_iff, ℕ, zero, suc, ◌+◌, ◌-◌, ◌*◌, ◌^◌, ◌≤◌, ◌<◌, ◌≡◌, ◌≢◌, refl, sym, ap, ◌∙◌, Bool, true,
  false, ◌&&◌, ◌||◌, not, some, List, [], ◌∷◌, ◌++◌, ltb, leb, ◌==◌, if◌then◌else◌, arith,
  ℕ_discrete, dec_lt, bit_xor,
}
use parallel_io.Base.Xor.{bit_xor_comm, bit_xor_twice, bit_xor_below, bit_xor_self, bit_xor-zero_eq}
use parallel_io.Spmd.{ceil2_loop, ceil2, pair, swapids}

-- A power of two that is not below `i`, and less than its double.
pub record IsCeiling (i p : ℕ) : Type 0 where
  pub exponent : ℕ
  pub power : p ≡ 2 ^ exponent
  pub enough : i ≤ p
  pub least : p < 2 * i

loop-on : (fuel p i : ℕ) → p < i → ceil2_loop (suc fuel) p i ≡ ceil2_loop fuel (p * 2) i
unfolding ceil2_loop
loop-on fuel p i h = ground arith

loop-end : (fuel p i : ℕ) → i ≤ p → ceil2_loop (suc fuel) p i ≡ p
unfolding ceil2_loop
loop-end fuel p i h = ground arith

loop-IsCeiling :
    (fuel p i a : ℕ)
    → p ≡ 2 ^ a
    → 1 ≤ p
    → p < 2 * i
    → i ≤ p + fuel
    → IsCeiling i (ceil2_loop fuel p i)
loop-IsCeiling zero p i a e o l f =
    unfold ceil2_loop in record { exponent = a; power = e; enough = omega arith; least = l }
loop-IsCeiling (suc fuel) p i a e o l f = elim (dec_lt p i) [
  | yes y ↦ rw (loop-on fuel p i y) (
      loop-IsCeiling fuel (p * 2) i (suc a) (omega arith) (omega arith) (omega arith) (omega arith))
  | no n ↦
      rw (loop-end fuel p i (omega arith))
        (record { exponent = a; power = e; enough = omega arith; least = l })
]

-- For `i` of at least 1, `ceil2` ends, with a power of two that is not below `i`, and less than its double.
pub ceil2-IsCeiling : (i : ℕ) → 1 ≤ i → IsCeiling i (ceil2 i)
unfolding ceil2
ceil2-IsCeiling i h = loop-IsCeiling i 1 i 0 refl (omega arith) (omega arith) (omega arith)

-- In a step, the partner of a rank's partner is the rank.
pub pair-symmetric : (np p k q : ℕ) → k < np → pair np p k ≡ some q → pair np p q ≡ some k
unfolding pair
pair-symmetric np p k q h e =
    let same : bit_xor (p + 1) k ≡ q = ground arith in
    let back : bit_xor (p + 1) q ≡ k =
      ap (bit_xor (p + 1)) (sym same ∙ bit_xor_comm (p + 1) k)
      ∙ bit_xor_comm (p + 1) (bit_xor k (p + 1))
      ∙ bit_xor_twice k (p + 1) in
    ground arith

unfoldable pub occurs : ℕ → List ℕ → ℕ
occurs q [] = 0
occurs q (x ∷ xs) = (if q == x then 1 else 0) + occurs q xs

occurs-snoc :
    (q : ℕ) (xs : List ℕ) (x : ℕ)
    → occurs q (xs ++ x ∷ []) ≡ occurs q xs + (if q == x then 1 else 0)
unfolding occurs
occurs-snoc q [] x = omega arith
occurs-snoc q (y ∷ ys) x = omega (arith, occurs-snoc q ys x)

abbrev pub one_if : Bool → ℕ
one_if true = 1
one_if false = 0

occurs-if :
    (q : ℕ) (xs : List ℕ) (p : ℕ) (b : Bool)
    → occurs q (if b then xs ++ p ∷ [] else xs) ≡ occurs q xs + one_if (b && (q == p))
occurs-if q xs p true = occurs-snoc q xs p ∙ ground arith
occurs-if q xs p false = omega arith

met_now :
    (x n : ℕ) (b c e : Bool)
    → b ≡ c
    → e ≡ true
    → x ≡ suc n
    → one_if ((ltb 0 x && leb x n) && b) + one_if (c && e)
      ≡ one_if ((ltb 0 x && leb x (suc n)) && b)
met_now x n b c e h t m = ground arith

met_before :
    (x n : ℕ) (b c e : Bool)
    → e ≡ false
    → x ≢ suc n
    → one_if ((ltb 0 x && leb x n) && b) + one_if (c && e)
      ≡ one_if ((ltb 0 x && leb x (suc n)) && b)
met_before x n b c e t m = ground arith

module _ (ntasks my_rank : ℕ) (sendcounts recvcounts : ℕ → ℕ) where
  abbrev pub traffic : ℕ → Bool
  traffic q = ltb 0 (sendcounts q) || ltb 0 (recvcounts q)

  abbrev ids : ℕ → List ℕ
  ids n = swapids ntasks my_rank sendcounts recvcounts n

  -- Whether rank `q` is met within `n` steps.
  abbrev met : ℕ → ℕ → Bool
  met n q = ltb 0 (bit_xor q my_rank) && leb (bit_xor q my_rank) n

  abbrev partner : ℕ → ℕ
  partner n = bit_xor (n + 1) my_rank

  ids_step :
      (n : ℕ)
      → 1 ≤ ntasks
      → ids (suc n)
        ≡ (if ltb (partner n) ntasks && traffic (partner n) then ids n ++ partner n ∷ [] else ids n)
  unfolding swapids
  ids_step n h = ground arith

  met_partner : (n q : ℕ) → q ≡ partner n → bit_xor q my_rank ≡ suc n
  met_partner n q e = ap (λ t. bit_xor t my_rank) e ∙ bit_xor_twice (n + 1) my_rank ∙ omega arith

  met_other : (n q : ℕ) → q ≢ partner n → bit_xor q my_rank ≢ suc n
  met_other n q o e = o (
      sym (bit_xor_twice q my_rank)
      ∙ ap (λ t. bit_xor t my_rank) e
      ∙ ap (λ t. bit_xor t my_rank) (omega arith))

  -- Below `n` steps each rank is met once at most.
  ids-occurs :
      (n q : ℕ) → 1 ≤ ntasks → occurs q (ids n) ≡ one_if (met n q && (ltb q ntasks && traffic q))
  ids-occurs zero q h = unfold swapids in unfold occurs in ground arith
  ids-occurs (suc n) q h =
      let ih = ids-occurs n q h in
      let p = partner n in
      ap (occurs q) (ids_step n h)
      ∙ occurs-if q (ids n) p (ltb p ntasks && traffic p)
      ∙ ap (λ t. t + one_if ((ltb p ntasks && traffic p) && (q == p))) ih
      ∙ elim (ℕ_discrete q p) [
        | yes e ↦
            met_now (bit_xor q my_rank) n (ltb q ntasks && traffic q) (ltb p ntasks && traffic p)
              (q == p) (ap (λ t. ltb t ntasks && traffic t) e) ((==_iff q p).1 e)
              (met_partner n q e)
        | no o ↦
            met_before (bit_xor q my_rank) n (ltb q ntasks && traffic q) (ltb p ntasks && traffic p)
              (q == p) (ground arith) (met_other n q o)
      ]

  -- Each other rank of the communicator that there is data to or from is met in one step, and no
  -- other rank is.
  pub swapids-occurs :
      (q : ℕ)
      → my_rank < ntasks
      → occurs q (ids (ceil2 ntasks - 1))
        ≡ one_if (ltb q ntasks && (not (q == my_rank) && traffic q))
  swapids-occurs q h =
      let c = ceil2-IsCeiling ntasks (omega arith) in
      ids-occurs (ceil2 ntasks - 1) q (omega arith) ∙ elim (dec_lt q ntasks) [
        | no far ↦ ground arith
        | yes near ↦
            let pow = c.power in
            let enough = c.enough in
            let below : bit_xor q my_rank < 2 ^ c.exponent =
              bit_xor_below c.exponent q my_rank (omega arith) (omega arith) in
            elim (ℕ_discrete q my_rank) [
              | yes me ↦
                  let z : bit_xor q my_rank ≡ 0 =
                    ap (λ t. bit_xor t my_rank) me ∙ bit_xor_self my_rank in
                  ground arith
              | no you ↦
                  let z : bit_xor q my_rank ≢ 0 = λ e. you (bit_xor-zero_eq q my_rank e) in
                  let low : bit_xor q my_rank ≤ ceil2 ntasks - 1 = omega arith in ground arith
            ]
      ]
