-- ===== src/Registry/Vars/Laws.antt =====
-- Lemmas on the variable list of a file, src/clib/pio_lists.c, as a map from ids to variables.
use parallel_io.Base.{
  ℕ, zero, suc, ◌<◌, ◌≡◌, refl, ap, ◌∙◌, ◌≢◌, inl, inr, Option, none, some, arith, if◌then◌else◌,
  Bool-cases, Option-cases,
}
use parallel_io.Base.Error.{Result, ok, err, enotvar}
use parallel_io.Base.Heap.{update, free}
use parallel_io.Base.Int.{negsuc, ℤ, ◌==ℤ◌, ==ℤ_iff}
use parallel_io.Registry.Hash.{HashTable}
use parallel_io.Registry.Vars.{
  Var, VarHeap, free_fill, add_to_varlist, get_var_desc, delete_var_desc, delete_all_vars,
}

module _ (hash : HashTable) where
  open hash use {
    Table, find, add, del, head, size, find-add, find-del, size-del, head-some, head-none,
    size-zero,
  }

  abbrev pub or_enotvar : Option ℕ → Result ℕ
  or_enotvar none = err enotvar
  or_enotvar (some p) = ok p

  -- Every listed variable is allocated, under its own id.
  abbrev pub VarsValid : VarHeap → Table → Type 0
  VarsValid h t =
      (k : ℤ) (p : ℕ) → find t k ≡ some p → (v : Var) × (h.vars p ≡ some v) × (v.varid ≡ k)

  -- The check for an empty list changes nothing.
  pub get_var_desc-find : (k : ℤ) (t : Table) → get_var_desc hash k t ≡ or_enotvar (find t k)
  unfolding get_var_desc
  get_var_desc-find k t = elim (Option-cases (head t)) [
    | inl e ↦ rw (e, head-none t k e, get_var_desc)
    | inr (p, e) ↦ ground arith
  ]

  delete_lem :
      (h : VarHeap) (k : ℤ) (t : Table) (p : ℕ) (v : Var)
      → find t k ≡ some p
      → h.vars p ≡ some v
      → v.varid ≡ k
      → delete_var_desc hash h k t
        ≡ some (
            ok
              (record h { vars = free h.vars p; freed = free_fill v.fillvalue h.freed }, del t k p))
  unfolding delete_var_desc
  delete_lem h k t p v e f g = elim (Option-cases (head t)) [
    | inl n ↦ let m = head-none t k n in absurd (ground arith)
    | inr (q, n) ↦ ground (arith, get_var_desc-find k t)
  ]

  -- What a lookup gives after an addition or a deletion.
  abbrev lookup_after : Table → ℤ → Option ℕ → ℤ → Result ℕ
  lookup_after t k o j = or_enotvar (if k ==ℤ j then o else find t j)

  -- In a valid list, a variable with a new id, at an address that was free, is found under its id; the others are
  -- found as before, and the list stays valid.
  pub add-get :
      (h : VarHeap) (t : Table) (v : Var) (p : ℕ)
      → VarsValid h t
      → find t v.varid ≡ none
      → h.vars p ≡ none
      → (h' : VarHeap) × (t' : Table) × (add_to_varlist hash h t v (some p) ≡ ok (h', t'))
        × VarsValid h' t'
        × ((j : ℤ) → get_var_desc hash j t' ≡ lookup_after t v.varid (some p) j)
  unfolding add_to_varlist
  add-get h t v p valid new fresh = (
    _,
    _,
    refl,
    λ j q e. still j q e,
    λ j. get_var_desc-find j _ ∙ ap or_enotvar (find-add t v.varid p j new),
  )
    where
      var : Var
      var = record v { frame = negsuc 0; fillvalue = none }

      still :
          (j : ℤ) (q : ℕ)
          → find (add t v.varid p) j ≡ some q
          → (w : Var) × (update h.vars p (some var) q ≡ some w) × (w.varid ≡ j)
      still j q e = elim (Bool-cases (v.varid ==ℤ j)) [
        | inl same ↦
            let f = find-add t v.varid p j new in (var, ground arith, (==ℤ_iff v.varid j).0 same)
        | inr other ↦
            let f = find-add t v.varid p j new in
            let (w, g, i) = valid j q (ground arith) in (w, ground arith, i)
      ]

  -- The heap after a variable was freed.
  abbrev without : VarHeap → ℕ → Var → VarHeap
  without h p v = record h { vars = free h.vars p; freed = free_fill v.fillvalue h.freed }

  del-VarsValid :
      (h : VarHeap) (t : Table) (k : ℤ) (p : ℕ) (v : Var)
      → VarsValid h t
      → find t k ≡ some p
      → VarsValid (without h p v) (del t k p)
  del-VarsValid h t k p v valid e j q d = elim (Bool-cases (k ==ℤ j)) [
    | inl same ↦ let f = find-del t k p j e in absurd (ground arith)
    | inr other ↦
        let f = find-del t k p j e in
        let (w, g, i) = valid j q (ground arith) in
        let (v, g', i') = valid k p e in let z = ==ℤ_iff k j in (w, ground arith, i)
  ]

  -- Deleting a listed variable frees its struct and its fill value, and no lookup finds it again.
  pub delete-get :
      (h : VarHeap) (t : Table) (k : ℤ) (p : ℕ)
      → VarsValid h t
      → find t k ≡ some p
      → (h' : VarHeap) × (t' : Table) × (delete_var_desc hash h k t ≡ some (ok (h', t')))
        × (h'.vars p ≡ none)
        × VarsValid h' t'
        × ((j : ℤ) → get_var_desc hash j t' ≡ lookup_after t k none j)
  delete-get h t k p valid e =
      let (v, f, g) = valid k p e in
      (
        without h p v,
        del t k p,
        delete_lem h k t p v e f g,
        ground arith,
        del-VarsValid h t k p v valid e,
        λ j. get_var_desc-find j _ ∙ ap or_enotvar (find-del t k p j e),
      )

  delete_all_done :
      (fuel : ℕ) (h : VarHeap) (t : Table)
      → head t ≡ none
      → delete_all_vars hash (suc fuel) h t ≡ some (ok h)
  unfolding delete_all_vars
  delete_all_done fuel h t n = rw (n, delete_all_vars)

  delete_all_step :
      (fuel : ℕ) (h : VarHeap) (t : Table) (k : ℤ) (p : ℕ) (v : Var)
      → head t ≡ some p
      → find t k ≡ some p
      → h.vars p ≡ some v
      → v.varid ≡ k
      → delete_all_vars hash (suc fuel) h t ≡ delete_all_vars hash fuel (without h p v) (del t k p)
  unfolding delete_all_vars
  delete_all_step fuel h t k p v n e f g =
      let d : delete_var_desc hash h v.varid t ≡ some (ok (without h p v, del t k p)) =
        rw g (delete_lem h k t p v e f g) in
      ground arith

  -- Two ids do not share a struct.
  one_id :
      (h : VarHeap) (t : Table) (j k : ℤ) (p : ℕ)
      → VarsValid h t
      → find t j ≡ some p
      → find t k ≡ some p
      → j ≡ k
  one_id h t j k p valid e f = let (v, g, i) = valid j p e in let (w, g', i') = valid k p f in cc

  -- After the deletion of id `k`, its struct is listed no more, and other structs as before.
  unlisted :
      (h : VarHeap) (t : Table) (k j : ℤ) (p : ℕ)
      → VarsValid h t
      → find t k ≡ some p
      → find (del t k p) j ≢ some p
  unlisted h t k j p valid e d = elim (Bool-cases (k ==ℤ j)) [
    | inl same ↦ let f = find-del t k p j e in ground arith
    | inr other ↦
        let f = find-del t k p j e in
        let z = one_id h t j k p valid (ground arith) e in let i = ==ℤ_iff k j in ground arith
  ]

  listed_before :
      (t : Table) (k j : ℤ) (p q : ℕ)
      → find t k ≡ some p
      → find (del t k p) j ≡ some q
      → find t j ≡ some q
  listed_before t k j p q e d = let f = find-del t k p j e in ground arith

  -- What freeing all variables of a list does to the heap.
  pub record Frees (h h' : VarHeap) (t : Table) : Type 0 where
    pub gone : (k : ℤ) (p : ℕ) → find t k ≡ some p → h'.vars p ≡ none
    pub kept : (p : ℕ) → ((k : ℤ) → find t k ≢ some p) → h'.vars p ≡ h.vars p

  Frees-del :
      (h h' : VarHeap) (t : Table) (k : ℤ) (p : ℕ) (v : Var)
      → VarsValid h t
      → find t k ≡ some p
      → Frees (without h p v) h' (del t k p)
      → Frees h h' t
  Frees-del h h' t k p v valid e r = record { gone = λ j q d. gone j q d; kept = λ q o. kept q o }
    where
      first_gone : h'.vars p ≡ none
      first_gone = r.kept p (λ j. unlisted h t k j p valid e) ∙ (ground arith)

      gone : (j : ℤ) (q : ℕ) → find t j ≡ some q → h'.vars q ≡ none
      gone j q d = elim (Bool-cases (k ==ℤ j)) [
        | inl same ↦ let i = ==ℤ_iff k j in ground (arith, first_gone)
        | inr other ↦ let f = find-del t k p j e in r.gone j q (ground arith)
      ]

      kept : (q : ℕ) → ((j : ℤ) → find t j ≢ some q) → h'.vars q ≡ h.vars q
      kept q o = let n = o k in r.kept q (λ j d. o j (listed_before t k j p q e d)) ∙ (ground arith)

  -- With more fuel than the list has variables, freeing those of a valid list ends, and frees every struct that the list names and no other.
  pub delete_all_vars-Frees :
      (fuel : ℕ) (h : VarHeap) (t : Table)
      → VarsValid h t
      → size t < fuel
      → (h' : VarHeap) × (delete_all_vars hash fuel h t ≡ some (ok h')) × Frees h h' t
  delete_all_vars-Frees zero h t valid l = absurd (omega arith)
  delete_all_vars-Frees (suc fuel) h t valid l = elim (Option-cases (head t)) [
    | inl n ↦ (
      h,
      delete_all_done fuel h t n,
      record {
        gone = λ k p e. let m = head-none t k n in absurd (ground arith);
        kept = λ p o. refl;
      },
    )
    | inr (p, n) ↦
        let (k, e) = head-some t p n in
        let (v, f, g) = valid k p e in
        let (h', d, r) =
          delete_all_vars-Frees fuel (without h p v) (del t k p) (del-VarsValid h t k p v valid e)
            (omega (arith, size-del t k p e)) in
        (h', delete_all_step fuel h t k p v n e f g ∙ d, Frees-del h h' t k p v valid e r)
  ]
