-- ===== src/Registry/Files/Laws.antt =====
-- Lemmas on the list of open files, `pio_add_to_file_list`, `pio_get_file` and
-- `pio_delete_file_from_list` of src/clib/pio_lists.c, as a map from ids to structs.
use parallel_io.Base.{
  ℕ, ◌+◌, ◌≡◌, refl, sym, subst, ◌∙◌, inl, inr, Option, none, some, arith, ℕ_discrete,
  if◌then◌else◌, Bool-cases, Option-cases,
}
use parallel_io.Base.Error.{Result, ok, err, ebadid}
use parallel_io.Base.Heap.{free}
use parallel_io.Base.Int.{ℤ, ◌==ℤ◌, ==ℤ_iff}
use parallel_io.Registry.Hash.{HashTable}
use parallel_io.Registry.Vars.{VarHeap}
use parallel_io.Registry.Vars.Laws.{VarsValid, Frees, delete_all_vars-Frees}
use parallel_io.Registry.Files.{
  FileDesc, Files, add_to_file_list, locate, check_file, forget, drop_file, delete_file_from_list,
}

module _ (hash : HashTable) where
  open hash use {Table, find, add, del, head, size, find-add, find-del, head-some, head-none}

  -- Every listed struct is allocated under its own id, and the remembered one is listed.
  pub record IsValid (s : Files hash) : Type 0 where
    pub listed :
        (k : ℤ) (p : ℕ)
        → find s.file_list k ≡ some p
        → (f : FileDesc hash) × (s.files p ≡ some f) × (f.pio_ncid ≡ k)
    pub current : (p : ℕ) → s.current_file ≡ some p → (k : ℤ) × (find s.file_list k ≡ some p)

  locate-find :
      (s : Files hash) (ncid : ℤ) → IsValid s → locate hash s ncid ≡ some (find s.file_list ncid)
  unfolding locate
  locate-find s ncid v = elim (Option-cases s.current_file) [
    | inl e ↦ rw (e, locate)
    | inr (p, e) ↦
        let (k, f) = v.current p e in
        let (d, g, i) = v.listed k p f in
        let z = ==ℤ_iff d.pio_ncid ncid in
        elim (Bool-cases (d.pio_ncid ==ℤ ncid)) [
          | inl same ↦
              let j : find s.file_list ncid ≡ some p =
                subst (λ t. find s.file_list t ≡ some p) (sym i ∙ z.0 same) f in
              ground arith
          | inr other ↦ ground arith
        ]
  ]

  -- What a lookup should return: the struct with the id, if it has an IO system.
  abbrev answer_for : Files hash → Option ℕ → Result ℕ
  answer_for s none = err ebadid
  answer_for s (some p) = elim (s.files p) [ none ↦ err ebadid | some f ↦ check_file hash p f ]

  abbrev map_with : Table → ℤ → Option ℕ → ℤ → Option ℕ
  map_with t k o j = if k ==ℤ j then o else find t j

  -- A file with a new id is added to a valid list under it, becomes the remembered file, and is found from then on.
  pub add_to_file_list_lem :
      (s : Files hash) (p : ℕ) (f : FileDesc hash)
      → IsValid s
      → s.files p ≡ some f
      → find s.file_list f.pio_ncid ≡ none
      → (s' : Files hash) × (add_to_file_list hash s p ≡ some s')
        × IsValid s'
        × (s'.current_file ≡ some p)
        × ((j : ℤ) → find s'.file_list j ≡ map_with s.file_list f.pio_ncid (some p) j)
  unfolding add_to_file_list
  add_to_file_list_lem s p f v e new =
      let file_list = add s.file_list f.pio_ncid p in
      let found = λ (j : ℤ). find-add s.file_list f.pio_ncid p j new in
      (
        record s { current_file = some p; file_list = file_list },
        rw (e, add_to_file_list),
        record {
          listed = λ j q d. listed j q d;
          current = λ q d. (
            f.pio_ncid,
            let i = (==ℤ_iff f.pio_ncid f.pio_ncid).1 refl in ground (arith, found f.pio_ncid),
          );
        },
        refl,
        found,
      )
    where
      listed :
          (j : ℤ) (q : ℕ)
          → find (add s.file_list f.pio_ncid p) j ≡ some q
          → (w : FileDesc hash) × (s.files q ≡ some w) × (w.pio_ncid ≡ j)
      listed j q d = elim (Bool-cases (f.pio_ncid ==ℤ j)) [
        | inl same ↦
            let g = find-add s.file_list f.pio_ncid p j new in
            (f, ground arith, (==ℤ_iff f.pio_ncid j).0 same)
        | inr other ↦ let g = find-add s.file_list f.pio_ncid p j new in v.listed j q (ground arith)
      ]

  -- The list without the file `p`, whose variables are gone.
  abbrev dropped : Files hash → ℤ → ℕ → VarHeap → Files hash
  dropped s k p var_heap = record {
    files = free s.files p;
    var_heap = var_heap;
    file_list = del s.file_list k p;
    current_file = forget hash s.current_file p (del s.file_list k p);
  }

  dropped-listed :
      (s : Files hash) (k : ℤ) (p : ℕ) (h : VarHeap)
      → IsValid s
      → find s.file_list k ≡ some p
      → (j : ℤ) (q : ℕ) → find (del s.file_list k p) j ≡ some q
      → (w : FileDesc hash) × (free s.files p q ≡ some w) × (w.pio_ncid ≡ j)
  dropped-listed s k p h v e j q d =
      let g = find-del s.file_list k p j e in
      elim (Bool-cases (k ==ℤ j)) [
        | inl same ↦ absurd (ground arith)
        | inr other ↦
            let (w, f, i) = v.listed j q (ground arith) in
            let (f', f'', i') = v.listed k p e in let z = ==ℤ_iff k j in (w, ground arith, i)
      ]

  dropped-current :
      (s : Files hash) (k : ℤ) (p : ℕ)
      → IsValid s
      → find s.file_list k ≡ some p
      → (q : ℕ) → forget hash s.current_file p (del s.file_list k p) ≡ some q
      → (j : ℤ) × (find (del s.file_list k p) j ≡ some q)
  unfolding forget
  dropped-current s k p v e q c = elim (Option-cases s.current_file) [
    | inl n ↦ absurd (ground arith)
    | inr (r, n) ↦ elim (ℕ_discrete r p) [
      | yes same ↦ head-some (del s.file_list k p) q (ground arith)
      | no other ↦
          let (j, f) = v.current r n in
          let g = find-del s.file_list k p j e in
          let z = ==ℤ_iff k j in
          (
            j,
            elim (Bool-cases (k ==ℤ j)) [
              | inl same ↦
                  let h : find s.file_list j ≡ some p =
                    subst (λ t. find s.file_list t ≡ some p) (z.0 same) e in
                  absurd (other (ground arith))
              | inr apart ↦ ground arith
            ],
          )
    ]
  ]

  -- Deleting an open file, whose variable list is valid, frees its struct and its variables; no
  -- lookup finds its id again, and the remembered file is still listed.
  pub delete_file_lem :
      (s : Files hash) (k : ℤ) (p : ℕ) (f : FileDesc hash)
      → IsValid s
      → find s.file_list k ≡ some p
      → s.files p ≡ some f
      → VarsValid hash s.var_heap f.varlist
      → (s' : Files hash) × (delete_file_from_list hash s k ≡ some (s', ok tt))
        × IsValid s'
        × (s'.files p ≡ none)
        × Frees hash s.var_heap s'.var_heap f.varlist
        × ((j : ℤ) → find s'.file_list j ≡ map_with s.file_list k none j)
  unfolding delete_file_from_list drop_file
  delete_file_lem s k p f v e g vars =
      let (h, d, r) =
        delete_all_vars-Frees hash (size f.varlist + 1) s.var_heap f.varlist vars (omega arith) in
      let l = locate-find s k v in
      let (w, g', i) = v.listed k p e in
      let key : f.pio_ncid ≡ k = ground arith in
      (
        dropped s k p h,
        ground arith,
        record { listed = dropped-listed s k p h v e; current = dropped-current s k p v e },
        ground arith,
        r,
        λ j. find-del s.file_list k p j e,
      )

  -- In a valid list, an id that is not listed is refused, and nothing changes.
  pub delete_file_unknown :
      (s : Files hash) (k : ℤ)
      → IsValid s
      → find s.file_list k ≡ none
      → delete_file_from_list hash s k ≡ some (s, err ebadid)
  unfolding delete_file_from_list
  delete_file_unknown s k v e = let l = locate-find s k v in ground arith
