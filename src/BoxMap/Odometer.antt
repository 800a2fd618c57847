-- ===== src/BoxMap/Odometer.antt =====
-- The counters of `PIOc_InitDecomp_bc` run through the coordinates of the box in order.
use parallel_io.Base.{
  dec_lt, ℕ, zero, suc, ◌+◌, ◌*◌, ◌/◌, ◌%◌, ◌<◌, ◌≡◌, refl, sym, ap, ◌∙◌, ◌⊎◌, inl, inr, false,
  List, [], ◌∷◌, arith, ◌==◌,
}
use parallel_io.Base.Dims.{AllPos, product, product-pos}
use parallel_io.Coords.Index.{coords}
use parallel_io.Coords.RoundTrip.{digit_mod, digit_unique}
use parallel_io.BoxMap.{advance}
use native.Mathlib.Nat.{div-add-mod', mod-add-mod}

-- The quotient goes up exactly where the remainder goes back to 0.
div_carry : (n p : ℕ) → 0 < p → (n + 1) % p ≡ 0 → (n + 1) / p ≡ n / p + 1
div_carry n p h e =
    let q = n / p in
    let r = n % p in
    let parts : (n + 1) / p * p ≡ q * p + (r + 1) =
      omega (arith, div-add-mod' n p, div-add-mod' (n + 1) p) in
    elim (dec_lt (r + 1) p) [
      | yes lt ↦
          let (_, zero_rest) = digit_unique ((n + 1) / p) q 0 (r + 1) p h lt (omega arith) in
          absurd (omega arith)
      | no ge ↦
          let top : r + 1 ≡ p = omega arith in
          (digit_unique ((n + 1) / p) (q + 1) 0 0 p h h (omega arith)).0
    ]

div_stays : (n p r : ℕ) → 0 < p → (n + 1) % p ≡ suc r → (n + 1) / p ≡ n / p
div_stays n p r h e =
    let l : r < p = omega arith in
    let eq : (n + 1) / p * p + r ≡ n / p * p + n % p =
      omega (arith, div-add-mod' n p, div-add-mod' (n + 1) p) in
    (digit_unique ((n + 1) / p) (n / p) r (n % p) p l (omega arith) eq).0

same_zero : (a b : ℕ) → (a ≡ 0 → b ≡ 0) → (0 < a → 0 < b) → (a == 0) ≡ (b == 0)
same_zero zero b h k = rw (h refl) refl
same_zero (suc a) b h k = let above : 0 < b = k (omega arith) in ground arith

-- A digit goes back to 0 together with those below it exactly where the index of all of them does.
carry_digit : (n p c : ℕ) → 0 < p → 0 < c → (n % p ≡ 0) → (n / p % c == 0) ≡ (n % (c * p) == 0)
carry_digit n p c hp hc e =
    let d = digit_mod n p c hp hc in
    same_zero (n / p % c) (n % (c * p)) (λ none. grind (arith, d, none))
      (λ some_left. grind (arith, d, some_left))

no_carry : (n p c r : ℕ) → 0 < p → 0 < c → (n % p ≡ suc r) → (n % (c * p) == 0) ≡ false
no_carry n p c r hp hc e =
    let above : 0 < n % (c * p) = omega (arith, digit_mod n p c hp hc) in ground arith

-- The counters go on to the coordinates of the next index.
pub advance-coords :
    (count : List ℕ) (n : ℕ)
    → AllPos count
    → advance count (coords count n) ≡ (coords count (n + 1), (n + 1) % product count == 0)
unfolding advance coords
advance-coords [] n h = let e : (n + 1) % 1 ≡ 0 = omega arith in rw (e) refl
advance-coords (c ∷ count) n (hc, h) =
    let p = product count in
    let hp = product-pos count h in
    let rec = advance-coords count n h in
    elim (split ((n + 1) % p)) [
      | inl e ↦
          let digit : (n / p % c + 1) % c ≡ (n + 1) / p % c =
            mod-add-mod (n / p) c 1 ∙ ap (λ t. t % c) (sym (div_carry n p hp e)) in
          rw (rec, e, digit)
            (ap (λ b. ((n + 1) / p % c ∷ coords count (n + 1), b))
              (carry_digit (n + 1) p c hp hc e))
      | inr (r, e) ↦
          rw (rec, e, no_carry (n + 1) p c r hp hc e, div_stays n p r hp e) (ground arith)
    ]
  where
    split : (m : ℕ) → (m ≡ 0) ⊎ ((r : ℕ) × (m ≡ suc r))
    split zero = inl refl
    split (suc r) = inr (r, refl)
