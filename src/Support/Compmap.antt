-- ===== src/Support/Compmap.antt =====
-- `check_compmap` of src/clib/pioc_support.c, as it is built without OLDWAY. Every rank gets the same
-- sum, maximum and minimum from MPI_Allreduce.
pub mod Scan
pub mod Duplicates
use parallel_io.Base.{
  ℕ, zero, suc, ◌+◌, ◌-◌, ◌*◌, ◌≤◌, ◌<◌, ◌≡◌, ◌≢◌, refl, sym, ap, ◌∙◌, ◌↔◌, ◌⊎◌, inl, inr, max, min,
  Bool, true, false, List, [], ◌∷◌, ◌++◌, length, length-append, if◌then◌else◌, arith, Bool-cases,
  ℕ_discrete, dec_lt,
}
use parallel_io.Base.Int.{ℤ, pos, negsuc, pos_part, neg_part, ◌==ℤ◌, ltb_ℤ, ==ℤ_iff, ◌+ℤ◌, ◌-ℤ◌}
use parallel_io.Base.Ranks.{concat_to, sum_to, max_to}

-- LONG_MAX for a long of 64 bits.
abbrev pub long_max : ℤ
long_max = pos 9223372036854775807

-- `lmaplen`, `lmax` and `lmin` of a rank.
pub record Local : Type 0 where
  pub lmaplen : ℕ
  pub lmax : ℤ
  pub lmin : ℤ

abbrev pub larger : ℤ → ℤ → ℤ
larger a b = if ltb_ℤ b a then a else b

abbrev pub smaller : ℤ → ℤ → ℤ
smaller a b = if ltb_ℤ a b then a else b

-- The loop over the map, from the values so far on.
unfoldable pub scan : Local → List ℤ → Local
scan l [] = l
scan l (m ∷ compmap) =
    let next =
      if ltb_ℤ (pos 0) m
      then record { lmaplen = suc l.lmaplen; lmax = larger m l.lmax; lmin = smaller m l.lmin }
      else l in
    scan next compmap

abbrev pub scan_start : Local
scan_start = record { lmaplen = 0; lmax = pos 0; lmin = long_max }

-- MPI_Allreduce with MPI_MAX and MPI_MIN over the ranks below `n`, of which there is one at least.
unfoldable pub allreduce_larger : ℕ → (ℕ → ℤ) → ℤ
allreduce_larger zero f = f 0
allreduce_larger (suc n) f = larger (f (suc n)) (allreduce_larger n f)

unfoldable pub allreduce_smaller : ℕ → (ℕ → ℤ) → ℤ
allreduce_smaller zero f = f 0
allreduce_smaller (suc n) f = smaller (f (suc n)) (allreduce_smaller n f)

-- `compmap rank`, for the ranks 0 to `last`, all of them compute tasks: the value of `readonly`.
unfoldable pub check_compmap : ℕ → (ℕ → List ℤ) → Bool
unfolding scan allreduce_larger allreduce_smaller
check_compmap last compmap =
    let local = λ (rank : ℕ). scan scan_start (compmap rank) in
    let gmaplen = sum_to (suc last) (λ rank. (local rank).lmaplen) in
    let gmax = allreduce_larger last (λ rank. (local rank).lmax) in
    let gmin = allreduce_smaller last (λ rank. (local rank).lmin) in
    ltb_ℤ (gmax -ℤ gmin +ℤ pos 1) (pos gmaplen)
