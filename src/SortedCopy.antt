-- ===== src/SortedCopy.antt =====
-- `pio_sorted_copy` of src/clib/pio_darray_int.c, which puts data into the order of the sorted map and back.
-- `array` and `sortedarray` have a cell for each of the maplen elements of each variable.
pub mod Loops
pub mod RoundTrip
use parallel_io.Base.{
  ℕ, zero, suc, ◌+◌, ◌-◌, ◌*◌, ◌/◌, ◌%◌, ◌^◌, ◌≤◌, ◌<◌, min, max, ◌≡◌, refl, sym, ap, subst, ◌∙◌,
  ◌≢◌, ◌↔◌, ◌⊎◌, inl, inr, Bool, true, false, ◌&&◌, ◌||◌, not, Option, none, some, List, [], ◌∷◌,
  ◌++◌, map, arith, ltb, leb, ◌==◌, if◌then◌else◌, Bool-cases, Option-cases, length, get_elem?, set,
  get_or, take, drop, replicate, length-append, length-drop, length-take, length-map, lt→ltb,
  ltb→lt,
}
use mathlib.Core.Option
use parallel_io.Base.Error.{Result, ok, err, ebadtype}
use parallel_io.Base.Int.{ℤ, pos, ◌==ℤ◌}
use parallel_io.Support.Types.{PioType}

abbrev pub Cells : Type 0 → Type 0
Cells V = ℕ → V

abbrev pub store : {V : Type 0} → Cells V → ℕ → V → Cells V
store cells c x = λ d. if d == c then x else cells d

module _ {V : Type 0} where
  -- The loop over `m` with direction 0, for the rest of `remap`; `base` is `maplen*v`.
  unfoldable pub copy_in : List ℕ → ℕ → ℕ → Cells V → Cells V → Cells V
  copy_in [] m base array sorted = sorted
  copy_in (r ∷ remap) m base array sorted =
      copy_in remap (m + 1) base array (store sorted (m + base) (array (r + base)))

  -- The same with another direction.
  unfoldable pub copy_out : List ℕ → ℕ → ℕ → Cells V → Cells V → Cells V
  copy_out [] m base array sorted = sorted
  copy_out (r ∷ remap) m base array sorted =
      copy_out remap (m + 1) base array (store sorted (r + base) (array (m + base)))

  -- The loop over `v`, with the number of variables left.
  abbrev pub each_var : (ℕ → Cells V → Cells V) → ℕ → ℕ → ℕ → Cells V → Cells V
  each_var copy maplen zero v sorted = sorted
  each_var copy maplen (suc n) v sorted = each_var copy maplen n (v + 1) (copy (maplen * v) sorted)

  unfoldable pub sorted_copy : PioType → List ℕ → Cells V → Cells V → ℕ → ℤ → Result (Cells V)
  unfolding copy_in copy_out
  sorted_copy PioType.other remap array sorted nvars direction = err ebadtype
  sorted_copy t remap array sorted nvars direction =
      if direction ==ℤ pos 0
      then ok (each_var (λ base. copy_in remap 0 base array) (length remap) nvars 0 sorted)
      else ok (each_var (λ base. copy_out remap 0 base array) (length remap) nvars 0 sorted)
