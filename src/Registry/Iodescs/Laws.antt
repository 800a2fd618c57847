-- ===== src/Registry/Iodescs/Laws.antt =====
-- Lemmas on the list of decompositions, `pio_add_to_iodesc_list`, `pio_get_iodesc_from_id` and
-- `pio_delete_iodesc_from_list` of src/clib/pio_lists.c, as a map from ids to structs.
use parallel_io.Base.{
  ℕ, ◌≡◌, refl, ap, subst, ◌∙◌, inl, inr, Option, none, some, arith, ℕ_discrete, if◌then◌else◌,
  Bool-cases, Option-cases,
}
use parallel_io.Base.Error.{ok, err, ebadid}
use parallel_io.Base.Heap.{free}
use parallel_io.Base.Int.{ℤ, ◌==ℤ◌, ==ℤ_iff}
use parallel_io.Registry.Hash.{HashTable}
use parallel_io.Registry.Iodescs.{
  Iodescs, add_to_iodesc_list, get_iodesc_from_id, forget, remove, delete_iodesc_from_list,
}

module _ (hash : HashTable) where
  open hash use {Table, find, add, del, head, find-add, find-del, head-some}

  -- Every listed struct is allocated under its own id, and the remembered one is listed.
  pub record IsValid (s : Iodescs hash) : Type 0 where
    pub listed : (k : ℤ) (p : ℕ) → find s.iodesc_list k ≡ some p → s.ioids p ≡ some k
    pub current : (p : ℕ) → s.current_iodesc ≡ some p → (k : ℤ) × (find s.iodesc_list k ≡ some p)

  -- A lookup in a valid list does not fault, returns what the table has, and keeps the list.
  pub get_iodesc_lem :
      (s : Iodescs hash) (ioid : ℤ)
      → IsValid s
      → (s' : Iodescs hash) × (get_iodesc_from_id hash s ioid ≡ some (s', find s.iodesc_list ioid))
        × IsValid s'
        × (s'.iodesc_list ≡ s.iodesc_list)
        × (s'.ioids ≡ s.ioids)
  unfolding get_iodesc_from_id
  get_iodesc_lem s ioid v = elim (Option-cases s.current_iodesc) [
    | inl e ↦ (_, rw (e, get_iodesc_from_id), found, refl, refl)
    | inr (p, e) ↦
        let (k, f) = v.current p e in
        let g = v.listed k p f in
        let z = ==ℤ_iff k ioid in
        elim (Bool-cases (k ==ℤ ioid)) [
          | inl same ↦
              let j : find s.iodesc_list ioid ≡ some p =
                subst (λ t. find s.iodesc_list t ≡ some p) (z.0 same) f in
              (s, ground arith, v, refl, refl)
          | inr other ↦ (
            record s { current_iodesc = find s.iodesc_list ioid },
            ground arith,
            found,
            refl,
            refl,
          )
        ]
  ]
    where
      found : IsValid (record s { current_iodesc = find s.iodesc_list ioid })
      found = record { listed = v.listed; current = λ p e. (ioid, e) }

  abbrev map_with : Table → ℤ → Option ℕ → ℤ → Option ℕ
  map_with t k o j = if k ==ℤ j then o else find t j

  -- A decomposition with a new id is added to a valid list under it, and becomes the remembered one.
  pub add_to_iodesc_list_lem :
      (s : Iodescs hash) (p : ℕ) (ioid : ℤ)
      → IsValid s
      → s.ioids p ≡ some ioid
      → find s.iodesc_list ioid ≡ none
      → (s' : Iodescs hash) × (add_to_iodesc_list hash s p ≡ some s')
        × IsValid s'
        × (s'.current_iodesc ≡ some p)
        × ((j : ℤ) → find s'.iodesc_list j ≡ map_with s.iodesc_list ioid (some p) j)
  unfolding add_to_iodesc_list
  add_to_iodesc_list_lem s p ioid v e new =
      let t = add s.iodesc_list ioid p in
      let found = λ (j : ℤ). find-add s.iodesc_list ioid p j new in
      (
        record s { iodesc_list = t; current_iodesc = some p },
        rw (e, add_to_iodesc_list),
        record {
          listed = λ j q d. listed j q d;
          current = λ q d. (ioid, let i = (==ℤ_iff ioid ioid).1 refl in ground (arith, found ioid));
        },
        refl,
        found,
      )
    where
      listed : (j : ℤ) (q : ℕ) → find (add s.iodesc_list ioid p) j ≡ some q → s.ioids q ≡ some j
      listed j q d =
          let g = find-add s.iodesc_list ioid p j new in
          let z = ==ℤ_iff ioid j in
          elim (Bool-cases (ioid ==ℤ j)) [
            | inl same ↦ let i = z.0 same in ground arith
            | inr other ↦ v.listed j q (ground arith)
          ]

  remove-listed :
      (s : Iodescs hash) (k : ℤ) (p : ℕ)
      → IsValid s
      → find s.iodesc_list k ≡ some p
      → (j : ℤ) (q : ℕ) → find (del s.iodesc_list k p) j ≡ some q
      → free s.ioids p q ≡ some j
  remove-listed s k p v e j q d =
      let g = find-del s.iodesc_list k p j e in
      elim (Bool-cases (k ==ℤ j)) [
        | inl same ↦ absurd (ground arith)
        | inr other ↦
            let f = v.listed j q (ground arith) in
            let f' = v.listed k p e in let z = ==ℤ_iff k j in ground arith
      ]

  remove-current :
      (s : Iodescs hash) (k : ℤ) (p : ℕ)
      → IsValid s
      → find s.iodesc_list k ≡ some p
      → (q : ℕ) → forget hash s.current_iodesc p (del s.iodesc_list k p) ≡ some q
      → (j : ℤ) × (find (del s.iodesc_list k p) j ≡ some q)
  unfolding forget
  remove-current s k p v e q c = elim (Option-cases s.current_iodesc) [
    | inl n ↦ absurd (ground arith)
    | inr (r, n) ↦ elim (ℕ_discrete r p) [
      | yes same ↦ head-some (del s.iodesc_list k p) q (ground arith)
      | no other ↦
          let (j, f) = v.current r n in
          let g = find-del s.iodesc_list k p j e in
          let z = ==ℤ_iff k j in
          (
            j,
            elim (Bool-cases (k ==ℤ j)) [
              | inl same ↦
                  let h : find s.iodesc_list j ≡ some p =
                    subst (λ t. find s.iodesc_list t ≡ some p) (z.0 same) e in
                  absurd (other (ground arith))
              | inr apart ↦ ground arith
            ],
          )
    ]
  ]

  -- Deleting a listed decomposition frees its struct; no lookup finds its id again, and the
  -- remembered one is still listed.
  pub delete_iodesc_lem :
      (s : Iodescs hash) (k : ℤ) (p : ℕ)
      → IsValid s
      → find s.iodesc_list k ≡ some p
      → (s' : Iodescs hash) × (delete_iodesc_from_list hash s k ≡ some (s', ok tt))
        × IsValid s'
        × (s'.ioids p ≡ none)
        × ((j : ℤ) → find s'.iodesc_list j ≡ map_with s.iodesc_list k none j)
  unfolding delete_iodesc_from_list remove
  delete_iodesc_lem s k p v e =
      let (s', f, v', l, h) = get_iodesc_lem s k v in
      let e' : find s'.iodesc_list k ≡ some p = rw l e in
      let i : s'.ioids p ≡ some k = v'.listed k p e' in
      (
        remove hash s' p k,
        ground arith,
        record { listed = remove-listed s' k p v' e'; current = remove-current s' k p v' e' },
        ground arith,
        λ j. find-del s'.iodesc_list k p j e' ∙ ap (λ t. map_with t k none j) l,
      )

  -- An id that is not listed is refused, and the list stays as it was.
  pub delete_iodesc_unknown :
      (s : Iodescs hash) (k : ℤ)
      → IsValid s
      → find s.iodesc_list k ≡ none
      → (s' : Iodescs hash) × (delete_iodesc_from_list hash s k ≡ some (s', err ebadid))
        × IsValid s'
        × (s'.iodesc_list ≡ s.iodesc_list)
  unfolding delete_iodesc_from_list
  delete_iodesc_unknown s k v e =
      let (s', f, v', l, h) = get_iodesc_lem s k v in (s', ground arith, v', l)
