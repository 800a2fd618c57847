-- ===== src/Examples/Registry.antt =====
-- Instances of the theorems on the lists of src/clib/pio_lists.c.
use parallel_io.Base.{
  ap, if◌then◌else◌, subst, ◌*◌, ◌∙◌, inr, inl, Bool-cases, ℕ, zero, suc, ◌≡◌, refl, none, some,
  List, [], ◌∷◌, arith,
}
use parallel_io.Base.Error.{ok}
use parallel_io.Base.Heap.{Heap}
use parallel_io.Base.Int.{ℤ, pos, negsuc, ◌==ℤ◌, ==ℤ_iff}
use parallel_io.Registry.Vars.{Var, VarHeap, get_var_desc, delete_var_desc, delete_all_vars}
use parallel_io.Registry.Vars.Laws.{
  VarsValid, Frees, or_enotvar, get_var_desc-find, delete-get, delete_all_vars-Frees,
}
use parallel_io.Registry.Files.{FileDesc, Files, add_to_file_list, delete_file_from_list}
use parallel_io.Registry.Files.Laws as FileLaws
use parallel_io.Registry.Iodescs.{Iodescs, delete_iodesc_from_list}
use parallel_io.Registry.Iodescs.Laws as IodescLaws
use parallel_io.Registry.Iosystems.{
  Iosystem, add_to_iosystem_list, delete_iosystem_from_list, get_iosystem_from_id,
}
use parallel_io.Registry.Iosystems.Laws.{
  NumberedFrom, add_to_iosystem_list_lem, add_to_iosystem_list_collides,
}
use parallel_io.Examples.HashList.{size, Entries, find, hash_list}

-- Variable 0 has its struct at address 1, with a fill value at address 9.
abbrev a_var : Var
a_var = record {
  varid = pos 0;
  rec_var = pos 0;
  pio_type = pos 4;
  pio_type_size = pos 4;
  mpi_type = 0;
  mpi_type_size = pos 4;
  ndims = pos 1;
  frame = negsuc 0;
  fillvalue = some 9;
}

abbrev at_one : {A : Type 0} → A → Heap A
at_one a (suc zero) = some a
at_one a n = none

abbrev vars : VarHeap
vars = record { vars = at_one a_var; freed = [] }

abbrev var_list : Entries
var_list = (pos 0, 1) ∷ []

-- A table of one entry finds that entry only.
find_one : (i k : ℤ) (p q : ℕ) → hash_list.find ((i, p) ∷ []) k ≡ some q → (i ≡ k) × (p ≡ q)
unfolding find
find_one i k p q e = elim (Bool-cases (i ==ℤ k)) [
  | inl same ↦ ((==ℤ_iff i k).0 same, ground arith)
  | inr other ↦ ground arith
]

found_at : {A : Type 0} (a : A) (p : ℕ) → 1 ≡ p → at_one a p ≡ some a
found_at a p e = subst (λ x. at_one a x ≡ some a) e refl

vars-Valid : VarsValid hash_list vars var_list
vars-Valid k p e = let (i, q) = find_one (pos 0) k 1 p e in (a_var, found_at a_var p q, i)

get_var_desc-find_example : get_var_desc hash_list (pos 0) var_list ≡ ok 1
unfolding find
get_var_desc-find_example = get_var_desc-find hash_list (pos 0) var_list

abbrev other_var : Var
other_var = record a_var { varid = pos 1 }

delete-get_example :
    (h : VarHeap) × (t : Entries) × (delete_var_desc hash_list vars (pos 0) var_list
      ≡ some (ok (h, t)))
    × (h.vars 1 ≡ none)
    × VarsValid hash_list h t
    × ((j : ℤ)
        → get_var_desc hash_list j t
          ≡ or_enotvar hash_list (if pos 0 ==ℤ j then none else find var_list j))
unfolding find
delete-get_example = delete-get hash_list vars var_list (pos 0) 1 vars-Valid refl

delete_all_vars-Frees_example :
    (h : VarHeap) × (delete_all_vars hash_list 2 vars var_list ≡ some (ok h))
    × Frees hash_list vars h var_list
unfolding find size
delete_all_vars-Frees_example =
    delete_all_vars-Frees hash_list 2 vars var_list vars-Valid (omega arith)

-- File 5 has its struct at address 1, which is remembered.
abbrev a_file : FileDesc hash_list
a_file = record { pio_ncid = pos 5; iosystem = some 3; varlist = var_list }

abbrev file_list : Entries
file_list = (pos 5, 1) ∷ []

abbrev files : Files hash_list
files = record {
  files = at_one a_file;
  var_heap = vars;
  file_list = file_list;
  current_file = some 1;
}

remembered : (p : ℕ) → some 1 ≡ some p → (k : ℤ) × (hash_list.find file_list k ≡ some p)
unfolding find
remembered p e = (pos 5, e)

files-IsValid : FileLaws.IsValid hash_list files
files-IsValid = record {
  listed = λ k p e. let (i, q) = find_one (pos 5) k 1 p e in (a_file, found_at a_file p q, i);
  current = λ p e. remembered p e;
}

delete_file_lem_example :
    (s : Files hash_list) × (delete_file_from_list hash_list files (pos 5) ≡ some (s, ok tt))
    × FileLaws.IsValid hash_list s
    × (s.files 1 ≡ none)
    × Frees hash_list vars s.var_heap var_list
    × ((j : ℤ) → find s.file_list j ≡ (if pos 5 ==ℤ j then none else find file_list j))
unfolding find
delete_file_lem_example =
    FileLaws.delete_file_lem hash_list files (pos 5) 1 a_file files-IsValid refl refl vars-Valid

-- The same file, not yet in the list.
abbrev unlisted_file : Files hash_list
unlisted_file = record files { file_list = []; current_file = none }

nothing_listed : (k : ℤ) (p : ℕ) {A : Type 0} → hash_list.find [] k ≡ some p → A
unfolding find
nothing_listed k p e = ground arith

nothing_remembered : (p : ℕ) {A : Type 0} → none ≡ some p → A
nothing_remembered p e = ground arith

unlisted-IsValid : FileLaws.IsValid hash_list unlisted_file
unlisted-IsValid = record {
  listed = λ k p e. nothing_listed k p e;
  current = λ p e. nothing_remembered p e;
}

add_to_file_list_lem_example :
    (s : Files hash_list) × (add_to_file_list hash_list unlisted_file 1 ≡ some s)
    × FileLaws.IsValid hash_list s
    × (s.current_file ≡ some 1)
    × ((j : ℤ) → find s.file_list j ≡ (if pos 5 ==ℤ j then some 1 else find [] j))
unfolding find
add_to_file_list_lem_example =
    FileLaws.add_to_file_list_lem hash_list unlisted_file 1 a_file unlisted-IsValid refl refl

-- Decomposition 512 at address 1.
abbrev iodescs : Iodescs hash_list
iodescs = record {
  ioids = at_one (pos 512);
  iodesc_list = (pos 512, 1) ∷ [];
  current_iodesc = none;
}

iodescs-IsValid : IodescLaws.IsValid hash_list iodescs
iodescs-IsValid = record {
  listed = λ k p e. let (i, q) = find_one (pos 512) k 1 p e in found_at (pos 512) p q ∙ ap some i;
  current = λ p e. nothing_remembered p e;
}

delete_iodesc_lem_example :
    (s : Iodescs hash_list) × (delete_iodesc_from_list hash_list iodescs (pos 512)
      ≡ some (s, ok tt))
    × IodescLaws.IsValid hash_list s
    × (s.ioids 1 ≡ none)
    × ((j : ℤ)
        → find s.iodesc_list j ≡ (if pos 512 ==ℤ j then none else find ((pos 512, 1) ∷ []) j))
unfolding find
delete_iodesc_lem_example =
    IodescLaws.delete_iodesc_lem hash_list iodescs (pos 512) 1 iodescs-IsValid refl

abbrev unlisted_iodesc : Iodescs hash_list
unlisted_iodesc = record iodescs { iodesc_list = [] }

unlisted_iodesc-IsValid : IodescLaws.IsValid hash_list unlisted_iodesc
unlisted_iodesc-IsValid = record {
  listed = λ k p e. nothing_listed k p e;
  current = λ p e. nothing_remembered p e;
}

abbrev system : ℕ → Iosystem
system n = record { address = n; iosysid = pos (n * 65536) }

abbrev two_systems : List Iosystem
two_systems = system 1 ∷ system 2 ∷ []

add_to_iosystem_list_lem_example :
    NumberedFrom 0 (system 1 ∷ system 2 ∷ system 3 ∷ [])
    × (get_iosystem_from_id (system 1 ∷ system 2 ∷ system 3 ∷ []) (pos 196608) ≡ some 3)
    × ((k : ℤ) (b : ℕ)
        → get_iosystem_from_id two_systems k ≡ some b
        → get_iosystem_from_id (system 1 ∷ system 2 ∷ system 3 ∷ []) k ≡ some b)
unfolding add_to_iosystem_list
add_to_iosystem_list_lem_example = add_to_iosystem_list_lem two_systems 3 (refl, (refl, tt))

add_to_iosystem_list_collides_example :
    (delete_iosystem_from_list two_systems (pos 65536) ≡ ok (system 2 ∷ []))
    × (let added = add_to_iosystem_list (system 2 ∷ []) 3 in
        (added.1 ≡ pos 131072) × (get_iosystem_from_id added.0 added.1 ≡ some 2))
add_to_iosystem_list_collides_example =
    add_to_iosystem_list_collides (system 1) (system 2) [] 3 (refl, (refl, tt))
