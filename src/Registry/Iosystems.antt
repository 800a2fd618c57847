-- ===== src/Registry/Iosystems.antt =====
-- The list of IO systems, src/clib/pio_lists.c: `pio_add_to_iosystem_list`,
-- `pio_delete_iosystem_from_list`, `pio_get_iosystem_from_id` and `pio_num_iosystem`. The list stands in
-- the order of the `next` pointers; ids are ints, not bounded here.
pub mod Laws
use parallel_io.Base.{
  ℕ, zero, suc, ◌+◌, ◌-◌, ◌*◌, ◌/◌, ◌%◌, ◌^◌, ◌≤◌, ◌<◌, min, max, ◌≡◌, refl, sym, ap, subst, ◌∙◌,
  ◌≢◌, ◌↔◌, ◌⊎◌, inl, inr, dif_pos, dif_neg, Bool, true, false, ◌&&◌, ◌||◌, not, Option, none, some,
  List, [], ◌∷◌, ◌++◌, map, arith, dec_lt, dec_le, ℕ_discrete, ltb, leb, ◌==◌, if◌then◌else◌,
  Bool-cases, Option-cases, length, get_elem?, set, get_or, take, drop, replicate,
}
use parallel_io.Base.Error.{Result, ok, err, ebadid}
use parallel_io.Base.Int.{ℤ, pos, ◌==ℤ◌}

-- An IO system: the address of its struct, and the id that the list gives it.
pub record Iosystem : Type 0 where
  pub address : ℕ
  pub iosysid : ℤ

-- The new entry goes to the end. It is the `i`-th, and `i << 16` is its id, which is returned.
unfoldable pub add_to_iosystem_list : List Iosystem → ℕ → List Iosystem × ℤ
add_to_iosystem_list ios address =
    let i = length ios + 1 in
    let iosysid = pos (i * 2 ^ 16) in
    (ios ++ record { address = address; iosysid = iosysid } ∷ [], iosysid)

unfoldable pub delete_iosystem_from_list : List Iosystem → ℤ → Result (List Iosystem)
delete_iosystem_from_list [] id = err ebadid
delete_iosystem_from_list (c ∷ cs) id =
    let rest = delete_iosystem_from_list cs id in
    if c.iosysid ==ℤ id then ok cs else (elim rest [ err e ↦ err e | ok r ↦ ok (c ∷ r) ])

-- NULL if there is none.
unfoldable pub get_iosystem_from_id : List Iosystem → ℤ → Option ℕ
get_iosystem_from_id [] id = none
get_iosystem_from_id (c ∷ cs) id =
    if c.iosysid ==ℤ id then some c.address else get_iosystem_from_id cs id

unfoldable pub num_iosystem : List Iosystem → ℕ
num_iosystem ios = length ios
