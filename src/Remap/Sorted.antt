-- ===== src/Remap/Sorted.antt =====
-- What `PIOc_InitDecomp` keeps as `map` and `remap`, and that pio_sorted_copy can use it.
use parallel_io.Base.{
  ℕ, suc, ◌+◌, ◌≤◌, ◌<◌, ◌≡◌, refl, ap, ◌∙◌, true, some, List, [], ◌∷◌, map, arith, length, get_or,
}
use parallel_io.Base.Int.{ℤ, pos}
use parallel_io.SortedCopy.Loops.{Fresh, Distinct}
use parallel_io.SortedCopy.RoundTrip.{AllBelow}
use parallel_io.Remap.{SortMap, needs_sort, tmpsort, sort_maps, remap_of, map_of}
use parallel_io.Remap.Order.{
  places, keys, FromMap, InOrder, put_in-InOrder, put_in-Fresh, put_in-Distinct, put_in-AllBelow,
  put_in-FromMap, length-put_in,
}

tmpsort-Fresh : (r m : ℕ) (xs : List ℤ) → r < m → Fresh r (places (tmpsort m xs))
unfolding tmpsort
tmpsort-Fresh r m [] lt = tt
tmpsort-Fresh r m (x ∷ xs) lt =
    ((λ e. absurd (omega arith)), tmpsort-Fresh r (m + 1) xs (omega arith))

tmpsort-Distinct : (m : ℕ) (xs : List ℤ) → Distinct (places (tmpsort m xs))
unfolding tmpsort
tmpsort-Distinct m [] = tt
tmpsort-Distinct m (x ∷ xs) =
    (tmpsort-Fresh m (m + 1) xs (omega arith), tmpsort-Distinct (m + 1) xs)

tmpsort-AllBelow : (n m : ℕ) (xs : List ℤ) → m + length xs ≤ n → AllBelow n (places (tmpsort m xs))
unfolding tmpsort
tmpsort-AllBelow n m [] le = tt
tmpsort-AllBelow n m (x ∷ xs) le = (omega arith, tmpsort-AllBelow n (m + 1) xs (omega arith))

tmpsort-FromMap :
    (compmap : List ℤ) (m : ℕ) (xs : List ℤ)
    → ((i : ℕ) → get_or compmap (m + i) (pos 0) ≡ get_or xs i (pos 0))
    → FromMap compmap (tmpsort m xs)
unfolding tmpsort
tmpsort-FromMap compmap m [] h = tt
tmpsort-FromMap compmap m (x ∷ xs) h = (
  (let e : m ≡ m + 0 = omega arith in ap (λ t. get_or compmap t (pos 0)) e ∙ h 0),
  tmpsort-FromMap compmap (m + 1) xs (λ i.
      let e : m + 1 + i ≡ m + suc i = omega arith in
      ap (λ t. get_or compmap t (pos 0)) e ∙ h (suc i)),
)

length-tmpsort : (m : ℕ) (xs : List ℤ) → length (places (tmpsort m xs)) ≡ length xs
unfolding tmpsort
length-tmpsort m [] = refl
length-tmpsort m (x ∷ xs) = ap suc (length-tmpsort (m + 1) xs)

sort_maps-InOrder : (maps : List SortMap) → InOrder (keys (sort_maps maps))
unfolding sort_maps
sort_maps-InOrder [] = tt
sort_maps-InOrder ((r, y) ∷ maps) = put_in-InOrder r y (sort_maps maps) (sort_maps-InOrder maps)

sort_maps-Fresh :
    (p : ℕ) (maps : List SortMap) → Fresh p (places maps) → Fresh p (places (sort_maps maps))
unfolding sort_maps
sort_maps-Fresh p [] f = tt
sort_maps-Fresh p ((r, y) ∷ maps) (ne, f) =
    put_in-Fresh p r y (sort_maps maps) ne (sort_maps-Fresh p maps f)

sort_maps-Distinct :
    (maps : List SortMap) → Distinct (places maps) → Distinct (places (sort_maps maps))
unfolding sort_maps
sort_maps-Distinct [] d = tt
sort_maps-Distinct ((r, y) ∷ maps) (f, d) =
    put_in-Distinct r y (sort_maps maps) (sort_maps-Fresh r maps f) (sort_maps-Distinct maps d)

sort_maps-AllBelow :
    (n : ℕ) (maps : List SortMap) → AllBelow n (places maps) → AllBelow n (places (sort_maps maps))
unfolding sort_maps
sort_maps-AllBelow n [] b = tt
sort_maps-AllBelow n ((r, y) ∷ maps) (lt, b) =
    put_in-AllBelow n r y (sort_maps maps) lt (sort_maps-AllBelow n maps b)

sort_maps-FromMap :
    (compmap : List ℤ) (maps : List SortMap)
    → FromMap compmap maps
    → FromMap compmap (sort_maps maps)
unfolding sort_maps
sort_maps-FromMap compmap [] f = tt
sort_maps-FromMap compmap ((r, y) ∷ maps) (e, f) =
    put_in-FromMap compmap r y (sort_maps maps) e (sort_maps-FromMap compmap maps f)

length-sort_maps : (maps : List SortMap) → length (places (sort_maps maps)) ≡ length (places maps)
unfolding sort_maps
length-sort_maps [] = refl
length-sort_maps ((r, y) ∷ maps) =
    length-put_in r y (sort_maps maps) ∙ ap suc (length-sort_maps maps)

map-places : (maps : List SortMap) → map (λ (a : SortMap). a.0) maps ≡ places maps
map-places [] = refl
map-places ((r, y) ∷ maps) = rw (map-places maps) refl

map-keys :
    (compmap : List ℤ) (maps : List SortMap)
    → FromMap compmap maps
    → map (λ (r : ℕ). get_or compmap r (pos 0)) (places maps) ≡ keys maps
map-keys compmap [] f = refl
map-keys compmap ((r, y) ∷ maps) (e, f) = rw (e, map-keys compmap maps f) refl

-- When the map has to be sorted, the remap has as many entries as the map, each of them a place in the map and no two
-- the same, and the map that is kept, the entries at these places, is in order.
pub remap_of-InOrder :
    (compmap : List ℤ)
    → needs_sort compmap ≡ true
    → (remap : List ℕ) × (remap_of compmap ≡ some remap)
      × (length remap ≡ length compmap)
      × Distinct remap
      × AllBelow (length remap) remap
      × InOrder (map_of compmap (some remap))
unfolding remap_of map_of
remap_of-InOrder compmap h =
    let pairs = tmpsort 0 compmap in
    let sorted = sort_maps pairs in
    let len : length (places sorted) ≡ length compmap =
      length-sort_maps pairs ∙ length-tmpsort 0 compmap in
    let zero_first : (i : ℕ) → get_or compmap (0 + i) (pos 0) ≡ get_or compmap i (pos 0) =
      λ i. let e : 0 + i ≡ i = omega arith in ap (λ t. get_or compmap t (pos 0)) e in
    let from_map = sort_maps-FromMap compmap pairs (tmpsort-FromMap compmap 0 compmap zero_first) in
    (
      places sorted,
      rw (h, map-places sorted) refl,
      len,
      sort_maps-Distinct pairs (tmpsort-Distinct 0 compmap),
      rw len (
          sort_maps-AllBelow (length compmap) pairs
            (tmpsort-AllBelow (length compmap) 0 compmap (omega arith))),
      rw (map-keys compmap sorted from_map) (sort_maps-InOrder pairs),
    )
