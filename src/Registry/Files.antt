-- ===== src/Registry/Files.antt =====
-- The list of open files, src/clib/pio_lists.c: `pio_add_to_file_list`, `pio_get_file` and
-- `pio_delete_file_from_list`, with the pointer `current_file` that remembers the last file. `none` is a
-- fault: a read through a pointer to a struct that was freed.
pub mod Laws
use parallel_io.Base.{
  ℕ, zero, suc, ◌+◌, ◌-◌, ◌*◌, ◌/◌, ◌%◌, ◌^◌, ◌≤◌, ◌<◌, min, max, ◌≡◌, refl, sym, ap, subst, ◌∙◌,
  ◌≢◌, ◌↔◌, ◌⊎◌, inl, inr, dif_pos, dif_neg, Bool, true, false, ◌&&◌, ◌||◌, not, Option, none, some,
  List, [], ◌∷◌, ◌++◌, map, arith, dec_lt, dec_le, ℕ_discrete, ltb, leb, ◌==◌, if◌then◌else◌,
  Bool-cases, Option-cases, length, get_elem?, set, get_or, take, drop, replicate,
}
use parallel_io.Base.Error.{Result, ok, err, ebadid, einval}
use parallel_io.Base.Heap.{Heap, free}
use parallel_io.Base.Int.{ℤ, ◌==ℤ◌}
use parallel_io.Registry.Hash.{HashTable}
use parallel_io.Registry.Vars.{VarHeap, delete_all_vars}

module _ (hash : HashTable) where
  open hash use {Table, find, add, del, head, size}

  -- The members of `file_desc_t` that the list functions read.
  pub record FileDesc : Type 0 where
    pub pio_ncid : ℤ
    pub iosystem : Option ℕ
    pub varlist : Table

  pub record Files : Type 0 where
    pub files : Heap FileDesc
    pub var_heap : VarHeap
    pub file_list : Table
    pub current_file : Option ℕ

  -- `assert(file)`, and the read of the key.
  pub add_to_file_list : Files → ℕ → Option Files
  add_to_file_list s p = elim (s.files p) [
    | none ↦ none
    | some f ↦ some (record s { current_file = some p; file_list = add s.file_list f.pio_ncid p })
  ]

  -- "Find the file pointer": the remembered file, or else the one that the table has.
  locate : Files → ℤ → Option (Option ℕ)
  locate s ncid = elim s.current_file [
    | none ↦ some (find s.file_list ncid)
    | some p ↦ elim (s.files p) [
      | none ↦ none
      | some f ↦ some (if f.pio_ncid ==ℤ ncid then some p else find s.file_list ncid)
    ]
  ]

  -- The test of `iosystem`, when the file was found.
  unfoldable pub check_file : ℕ → FileDesc → Result ℕ
  check_file p f = elim f.iosystem [ none ↦ err einval | some ios ↦ ok p ]

  -- `wanted`: the caller's pointer for the result is not NULL.
  pub get_file : Files → ℤ → Bool → Option (Files × Result ℕ)
  unfolding locate check_file
  get_file s ncid wanted =
      if wanted
      then (elim (locate s ncid) [
        | none ↦ none
        | some none ↦ some (s, err ebadid)
        | some (some p) ↦ elim (s.files p) [
          | none ↦ none
          | some f ↦ some (record s { current_file = some p }, check_file p f)
        ]
      ])
      else some (s, err einval)

  -- `if (current_file == cfile) current_file = pio_file_list`.
  forget : Option ℕ → ℕ → Table → Option ℕ
  forget none p file_list = none
  forget (some c) p file_list = if c == p then head file_list else some c

  -- HASH_DEL, the variables, and the struct.
  drop_file : Files → ℕ → FileDesc → Option (Files × Result (Unit {0}))
  unfolding forget
  drop_file s p f =
      let file_list = del s.file_list f.pio_ncid p in
      let current = forget s.current_file p file_list in
      let unlisted = record s { file_list = file_list; current_file = current } in
      elim (delete_all_vars hash (size f.varlist + 1) s.var_heap f.varlist) [
        | none ↦ none
        | some (err e) ↦ some (unlisted, err e)
        | some (ok var_heap) ↦
            some (record unlisted { var_heap = var_heap; files = free s.files p }, ok tt)
      ]

  pub delete_file_from_list : Files → ℤ → Option (Files × Result (Unit {0}))
  unfolding locate drop_file
  delete_file_from_list s ncid = elim (locate s ncid) [
    | none ↦ none
    | some none ↦ some (s, err ebadid)
    | some (some p) ↦ elim (s.files p) [ none ↦ none | some f ↦ drop_file s p f ]
  ]
