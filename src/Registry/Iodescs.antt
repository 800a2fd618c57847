-- ===== src/Registry/Iodescs.antt =====
-- The list of decompositions, src/clib/pio_lists.c: `pio_add_to_iodesc_list`, `pio_get_iodesc_from_id`
-- and `pio_delete_iodesc_from_list`, with the pointer `current_iodesc`. `none` is a fault.
pub mod Laws
use parallel_io.Base.{
  ℕ, zero, suc, ◌+◌, ◌-◌, ◌*◌, ◌/◌, ◌%◌, ◌^◌, ◌≤◌, ◌<◌, min, max, ◌≡◌, refl, sym, ap, subst, ◌∙◌,
  ◌≢◌, ◌↔◌, ◌⊎◌, inl, inr, dif_pos, dif_neg, Bool, true, false, ◌&&◌, ◌||◌, not, Option, none, some,
  List, [], ◌∷◌, ◌++◌, map, arith, dec_lt, dec_le, ℕ_discrete, ltb, leb, ◌==◌, if◌then◌else◌,
  Bool-cases, Option-cases, length, get_elem?, set, get_or, take, drop, replicate,
}
use parallel_io.Base.Error.{Result, ok, err, ebadid}
use parallel_io.Base.Heap.{Heap, free}
use parallel_io.Base.Int.{ℤ, ◌==ℤ◌}
use parallel_io.Registry.Hash.{HashTable}

module _ (hash : HashTable) where
  open hash use {Table, find, add, del, head}

  -- Of an `io_desc_t` the list reads the `ioid`.
  pub record Iodescs : Type 0 where
    pub ioids : Heap ℤ
    pub iodesc_list : Table
    pub current_iodesc : Option ℕ

  pub add_to_iodesc_list : Iodescs → ℕ → Option Iodescs
  add_to_iodesc_list s p = elim (s.ioids p) [
    | none ↦ none
    | some ioid ↦
        some (record s { iodesc_list = add s.iodesc_list ioid p; current_iodesc = some p })
  ]

  -- What HASH_FIND_INT finds is remembered, NULL too.
  abbrev lookup : Iodescs → ℤ → Iodescs × Option ℕ
  lookup s ioid =
      let found = find s.iodesc_list ioid in (record s { current_iodesc = found }, found)

  pub get_iodesc_from_id : Iodescs → ℤ → Option (Iodescs × Option ℕ)
  get_iodesc_from_id s ioid = elim s.current_iodesc [
    | none ↦ some (lookup s ioid)
    | some p ↦ elim (s.ioids p) [
      | none ↦ none
      | some i ↦ some (if i ==ℤ ioid then (s, some p) else lookup s ioid)
    ]
  ]

  -- `if (current_iodesc == ciodesc) current_iodesc = pio_iodesc_list`.
  forget : Option ℕ → ℕ → Table → Option ℕ
  forget none p t = none
  forget (some c) p t = if c == p then head t else some c

  -- HASH_DEL reads the key from the struct.
  remove : Iodescs → ℕ → ℤ → Iodescs
  unfolding forget
  remove s p i =
      let t = del s.iodesc_list i p in
      record {
        ioids = free s.ioids p;
        iodesc_list = t;
        current_iodesc = forget s.current_iodesc p t;
      }

  pub delete_iodesc_from_list : Iodescs → ℤ → Option (Iodescs × Result (Unit {0}))
  unfolding get_iodesc_from_id remove
  delete_iodesc_from_list s ioid = elim (get_iodesc_from_id s ioid) [
    | none ↦ none
    | some (s', none) ↦ some (s', err ebadid)
    | some (s', some p) ↦ elim (s'.ioids p) [ none ↦ none | some i ↦ some (remove s' p i, ok tt) ]
  ]
