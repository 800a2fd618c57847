-- ===== src/BoxMap.antt =====
-- The map of a box, `PIOc_InitDecomp_bc` in src/clib/pioc.c. Lists hold the arrays' entries, the outermost dimension
-- first; the arguments are not NULL, and there is a dimension.
pub mod Odometer
pub mod Map
use parallel_io.Base.{
  ℕ, zero, suc, ◌+◌, ◌-◌, ◌*◌, ◌/◌, ◌%◌, ◌^◌, ◌≤◌, ◌<◌, min, max, ◌≡◌, refl, sym, ap, subst, ◌∙◌,
  ◌≢◌, ◌↔◌, ◌⊎◌, inl, inr, Bool, true, false, ◌&&◌, ◌||◌, not, Option, none, some, List, [], ◌∷◌,
  ◌++◌, map, arith, ltb, leb, ◌==◌, if◌then◌else◌, Bool-cases, Option-cases, length, get_elem?, set,
  get_or, take, drop, replicate, length-append, length-drop, length-take, length-map, lt→ltb,
  ltb→lt,
}
use mathlib.Core.Option
use parallel_io.Base.Error.{Result, ok, err, einval, ebadid}
use parallel_io.Base.Int.{ℤ, pos, abs, ltb_ℤ, ◌+ℤ◌}
use parallel_io.Base.Dims.{product}
use parallel_io.Registry.Iosystems.{Iosystem, get_iosystem_from_id}

-- `gdimlen[i] <= 0 || start[i] < 0 || count[i] < 0 || (start[i] + count[i]) > gdimlen[i]` for some `i`.
unfoldable pub box_refused : List ℤ → List ℤ → List ℤ → Bool
unfolding ◌+ℤ◌
box_refused (g ∷ gs) (s ∷ start) (c ∷ count) =
    ltb_ℤ g (pos 1)
    || ltb_ℤ s (pos 0)
    || ltb_ℤ c (pos 0)
    || ltb_ℤ g (s +ℤ c)
    || box_refused gs start count
box_refused gs start count = false

-- `prod`, and the product of all dimensions.
unfoldable pub prods : List ℕ → List ℕ × ℕ
prods [] = ([], 1)
prods (g ∷ gs) = let (ps, p) = prods gs in (p ∷ ps, p * g)

-- The entry for the counters `loc`: the loop from the last dimension to the first, from 1.
unfoldable pub entry : List ℕ → List ℕ → List ℕ → ℕ
entry (s ∷ start) (l ∷ loc) (p ∷ prod) = entry start loc prod + (s + l) * p
entry start loc prod = 1

-- The next counters, and whether the first of them has gone back to 0.
unfoldable pub advance : List ℕ → List ℕ → List ℕ × Bool
advance (c ∷ count) (l ∷ loc) =
    let (loc', carry) = advance count loc in
    let next = (l + 1) % c in if carry then (next ∷ loc', next == 0) else (l ∷ loc', false)
advance count loc = ([], true)

-- The loop over `i`, with the number of entries left.
unfoldable pub entries : ℕ → List ℕ → List ℕ → List ℕ → List ℕ → List ℕ
unfolding entry advance
entries zero count start prod loc = []
entries (suc n) count start prod loc =
    entry start loc prod ∷ entries n count start prod (advance count loc).0

-- The map that PIOc_InitDecomp is called with.
unfoldable pub box_map : List ℕ → List ℕ → List ℕ → List ℕ
unfolding prods entries product
box_map gdimlen start count =
    entries (product count) count start (prods gdimlen).0 (replicate (length count) 0)

unfoldable pub init_decomp_bc : List Iosystem → ℤ → List ℤ → List ℤ → List ℤ → Result (List ℕ)
unfolding box_refused box_map get_iosystem_from_id
init_decomp_bc ios iosysid gdimlen start count = elim (get_iosystem_from_id ios iosysid) [
  | none ↦ err ebadid
  | some p ↦
      if box_refused gdimlen start count
      then err einval
      else ok (box_map (map abs gdimlen) (map abs start) (map abs count))
]
