-- ===== src/Registry/Iosystems/Laws.antt =====
-- Lemmas on the ids of the IO systems in the list of src/clib/pio_lists.c.
use parallel_io.Base.{
  length-append, ℕ, ◌+◌, ◌*◌, ◌^◌, ◌<◌, ◌≡◌, refl, sym, ap, ◌∙◌, ◌≢◌, inl, inr, none, some, List,
  [], ◌∷◌, ◌++◌, arith, Bool-cases, length,
}
use parallel_io.Base.Error.{ok}
use parallel_io.Base.Int.{ℤ, pos, ◌==ℤ◌, ==ℤ_iff}
use parallel_io.Registry.Iosystems.{
  Iosystem, add_to_iosystem_list, delete_iosystem_from_list, get_iosystem_from_id,
}

-- The entries have the ids (n + 1) << 16, (n + 2) << 16, ...
abbrev pub NumberedFrom : ℕ → List Iosystem → Type 0
NumberedFrom n [] = Unit {0}
NumberedFrom n (c ∷ cs) = (c.iosysid ≡ pos ((n + 1) * 2 ^ 16)) × NumberedFrom (n + 1) cs

get_above :
    (n m : ℕ) (cs : List Iosystem)
    → NumberedFrom n cs
    → n + length cs < m
    → get_iosystem_from_id cs (pos (m * 2 ^ 16)) ≡ none
unfolding get_iosystem_from_id
get_above n m [] v h = refl
get_above n m (c ∷ cs) (e, v) h = ground (arith, get_above (n + 1) m cs v)

get-append :
    (cs ds : List Iosystem) (k : ℤ)
    → get_iosystem_from_id (cs ++ ds) k
      ≡ (elim (get_iosystem_from_id cs k) [ none ↦ get_iosystem_from_id ds k | some a ↦ some a ])
unfolding get_iosystem_from_id
get-append [] ds k = refl
get-append (c ∷ cs) ds k = ground (arith, get-append cs ds k)

Numbered-append :
    (n : ℕ) (cs : List Iosystem) (d : Iosystem)
    → NumberedFrom n cs
    → d.iosysid ≡ pos ((n + length cs + 1) * 2 ^ 16)
    → NumberedFrom n (cs ++ d ∷ [])
Numbered-append n [] d v e = (e ∙ ap pos (omega arith), tt)
Numbered-append n (c ∷ cs) d (e', v) e =
    (e', Numbered-append (n + 1) cs d v (e ∙ ap pos (omega arith)))

-- While the list is numbered from the first entry on, an added IO system is found under the id
-- that it gets, earlier ids are found as before, and the list stays numbered.
pub add_to_iosystem_list_lem :
    (ios : List Iosystem) (a : ℕ)
    → NumberedFrom 0 ios
    → let added = add_to_iosystem_list ios a in
      NumberedFrom 0 added.0
      × (get_iosystem_from_id added.0 added.1 ≡ some a)
      × ((k : ℤ) (b : ℕ)
          → get_iosystem_from_id ios k ≡ some b
          → get_iosystem_from_id added.0 k ≡ some b)
unfolding add_to_iosystem_list get_iosystem_from_id
add_to_iosystem_list_lem ios a v =
    let n = length ios + 1 in
    let new : Iosystem = record { address = a; iosysid = pos (n * 2 ^ 16) } in
    (
      Numbered-append 0 ios new v (ap pos (omega arith)),
      ground (arith, get-append ios (new ∷ []) new.iosysid, get_above 0 n ios v),
      λ k b e. rw (get-append ios (new ∷ []) k, e),
    )

-- Deleting an id that is found takes away its entry: other ids are found as before.
pub delete_iosystem_lem :
    (ios : List Iosystem) (k : ℤ) (a : ℕ)
    → get_iosystem_from_id ios k ≡ some a
    → (ios' : List Iosystem) × (delete_iosystem_from_list ios k ≡ ok ios')
      × (length ios' + 1 ≡ length ios)
      × ((j : ℤ) → j ≢ k → get_iosystem_from_id ios' j ≡ get_iosystem_from_id ios j)
unfolding delete_iosystem_from_list get_iosystem_from_id
delete_iosystem_lem [] k a e = cc
delete_iosystem_lem (c ∷ cs) k a e = elim (Bool-cases (c.iosysid ==ℤ k)) [
  | inl here ↦
      let z = (==ℤ_iff c.iosysid k).0 here in (cs, ground arith, omega arith, λ j n. other j z n)
  | inr later ↦
      let (r, f, l, g) = delete_iosystem_lem cs k a (ground arith) in
      (c ∷ r, ground arith, omega arith, λ j n. ground (arith, g j n))
]
  where
    other :
        (j : ℤ)
        → c.iosysid ≡ k
        → j ≢ k
        → get_iosystem_from_id cs j ≡ get_iosystem_from_id (c ∷ cs) j
    other j z n =
        let y = ==ℤ_iff c.iosysid j in
        elim (Bool-cases (c.iosysid ==ℤ j)) [
          | inl same ↦ absurd (n (sym (y.0 same) ∙ z))
          | inr apart ↦ ground arith
        ]

Numbered-last :
    (n : ℕ) (cs : List Iosystem) (d : Iosystem)
    → NumberedFrom n (cs ++ d ∷ [])
    → NumberedFrom n cs × (d.iosysid ≡ pos ((n + length cs + 1) * 2 ^ 16))
Numbered-last n [] d (e, v) = (tt, e ∙ ap pos (omega arith))
Numbered-last n (c ∷ cs) d (e, v) =
    let (w, f) = Numbered-last (n + 1) cs d v in ((e, w), f ∙ ap pos (omega arith))

-- After the first of at least two numbered IO systems was deleted, the next one that is added gets
-- the id of the last one, and a lookup of that id finds the old one.
pub add_to_iosystem_list_collides :
    (c d : Iosystem) (cs : List Iosystem) (a : ℕ)
    → NumberedFrom 0 (c ∷ cs ++ d ∷ [])
    → (delete_iosystem_from_list (c ∷ cs ++ d ∷ []) (pos (2 ^ 16)) ≡ ok (cs ++ d ∷ []))
      × (let added = add_to_iosystem_list (cs ++ d ∷ []) a in
          (added.1 ≡ d.iosysid) × (get_iosystem_from_id added.0 added.1 ≡ some d.address))
unfolding delete_iosystem_from_list add_to_iosystem_list get_iosystem_from_id
add_to_iosystem_list_collides c d cs a (e, v) =
    let (w, f) = Numbered-last 1 cs d v in
    let m = length (cs ++ d ∷ []) + 1 in
    let l = length-append cs (d ∷ []) in
    let same : pos (m * 2 ^ 16) ≡ d.iosysid = sym (f ∙ ap pos (omega arith)) in
    let new : Iosystem = record { address = a; iosysid = pos (m * 2 ^ 16) } in
    let z = ==ℤ_iff d.iosysid (pos (m * 2 ^ 16)) in
    let z' = z.1 (sym same) in
    (
      ground arith,
      (
        same,
        ground (
          arith,
          get-append (cs ++ d ∷ []) (new ∷ []) new.iosysid,
          get-append cs (d ∷ []) new.iosysid,
          get_above 1 m cs w,
        ),
      ),
    )
