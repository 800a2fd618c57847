-- ===== src/Registry/Vars.antt =====
-- The variables of a file: `add_to_varlist`, `get_var_desc` and `delete_var_desc` of
-- src/clib/pio_lists.c. `none` is a fault: a read through a pointer to a struct that was freed.
pub mod Laws
use parallel_io.Base.{
  ℕ, zero, suc, ◌+◌, ◌-◌, ◌*◌, ◌/◌, ◌%◌, ◌^◌, ◌≤◌, ◌<◌, min, max, ◌≡◌, refl, sym, ap, subst, ◌∙◌,
  ◌≢◌, ◌↔◌, ◌⊎◌, inl, inr, dif_pos, dif_neg, Bool, true, false, ◌&&◌, ◌||◌, not, Option, none, some,
  List, [], ◌∷◌, ◌++◌, map, arith, dec_lt, dec_le, ℕ_discrete, ltb, leb, ◌==◌, if◌then◌else◌,
  Bool-cases, Option-cases, length, get_elem?, set, get_or, take, drop, replicate,
}
use parallel_io.Base.Error.{Result, ok, err, enotvar, enomem}
use parallel_io.Base.Heap.{Heap, update, free}
use parallel_io.Base.Int.{ℤ, pos, negsuc}
use parallel_io.Registry.Hash.{HashTable}

-- The members of `var_desc_t` that the list functions set or read; the fill value is a pointer.
pub record Var : Type 0 where
  pub varid : ℤ
  pub rec_var : ℤ
  pub pio_type : ℤ
  pub pio_type_size : ℤ
  pub mpi_type : ℕ
  pub mpi_type_size : ℤ
  pub ndims : ℤ
  pub frame : ℤ
  pub fillvalue : Option ℕ

-- The variable structs, and the fill value buffers handed to `free`, the last one first.
pub record VarHeap : Type 0 where
  pub vars : Heap Var
  pub freed : List ℕ

abbrev free_fill : Option ℕ → List ℕ → List ℕ
free_fill none freed = freed
free_fill (some b) freed = b ∷ freed

module _ (hash : HashTable) where
  open hash use {Table, find, add, del, head}

  -- `calloc` gives the address `fresh`, or NULL. The struct is zero but for what is set.
  pub add_to_varlist : VarHeap → Table → Var → Option ℕ → Result (VarHeap × Table)
  add_to_varlist h varlist v none = err enomem
  add_to_varlist h varlist v (some p) =
      let var = record v { frame = negsuc 0; fillvalue = none } in
      ok (record h { vars = update h.vars p (some var) }, add varlist v.varid p)

  pub get_var_desc : ℤ → Table → Result ℕ
  get_var_desc varid varlist = elim (head varlist) [
    | none ↦ err enotvar
    | some first ↦ elim (find varlist varid) [ none ↦ err enotvar | some p ↦ ok p ]
  ]

  -- HASH_DEL reads the key from the struct.
  pub delete_var_desc : VarHeap → ℤ → Table → Option (Result (VarHeap × Table))
  unfolding get_var_desc
  delete_var_desc h varid varlist = elim (head varlist) [
    | none ↦ some (err enotvar)
    | some first ↦ elim (get_var_desc varid varlist) [
      | err e ↦ some (err e)
      | ok p ↦ elim (h.vars p) [
        | none ↦ none
        | some v ↦ some (
            ok (
              record h { vars = free h.vars p; freed = free_fill v.fillvalue h.freed },
              del varlist v.varid p,
            ))
      ]
    ]
  ]

  -- `while (varlist) delete_var_desc(varlist->varid, &varlist)`; `none` is a fault or the fuel's end.
  pub delete_all_vars : ℕ → VarHeap → Table → Option (Result VarHeap)
  unfolding delete_var_desc
  delete_all_vars zero h varlist = none
  delete_all_vars (suc fuel) h varlist = elim (head varlist) [
    | none ↦ some (ok h)
    | some first ↦ elim (h.vars first) [
      | none ↦ none
      | some v ↦ elim (delete_var_desc h v.varid varlist) [
        | none ↦ none
        | some (err e) ↦ some (err e)
        | some (ok (h', varlist')) ↦ delete_all_vars fuel h' varlist'
      ]
    ]
  ]
