-- ===== src/Examples/HashList.antt =====
-- A hash table as a list of keys and addresses, for the instances below. It has the documented laws.
use parallel_io.Base.{
  ◌≤◌, ap, false, true, ◌∙◌, inr, inl, Bool-cases, ℕ, ◌+◌, ◌≡◌, refl, Option, none, some, List, [],
  ◌∷◌, if◌then◌else◌, arith,
}
use parallel_io.Base.Int.{ℤ, ◌==ℤ◌, ==ℤ_iff}
use parallel_io.Registry.Hash.{HashTable}

abbrev pub Entries : Type 0
Entries = List (ℤ × ℕ)

unfoldable pub find : Entries → ℤ → Option ℕ
find [] j = none
find ((k, p) ∷ t) j = if k ==ℤ j then some p else find t j

unfoldable pub del : Entries → ℤ → Entries
del [] j = []
del ((k, p) ∷ t) j = let rest = del t j in if k ==ℤ j then rest else (k, p) ∷ rest

abbrev one_if_none : Option ℕ → ℕ
one_if_none none = 1
one_if_none (some p) = 0

-- The keys, each counted once.
unfoldable pub size : Entries → ℕ
unfolding find
size [] = 0
size ((k, p) ∷ t) = one_if_none (find t k) + size t

abbrev pub head : Entries → Option ℕ
head [] = none
head ((k, p) ∷ t) = some p

del-other :
    (i : ℤ) (p : ℕ) (t : Entries) (k : ℤ)
    → (i ==ℤ k) ≡ false
    → del ((i, p) ∷ t) k ≡ (i, p) ∷ del t k
unfolding del
del-other i p t k e = ground arith

del-same : (i : ℤ) (p : ℕ) (t : Entries) (k : ℤ) → (i ==ℤ k) ≡ true → del ((i, p) ∷ t) k ≡ del t k
unfolding del
del-same i p t k e = ground arith

find-other :
    (i : ℤ) (p : ℕ) (t : Entries) (k : ℤ) → (i ==ℤ k) ≡ false → find ((i, p) ∷ t) k ≡ find t k
unfolding find
find-other i p t k e = ground arith

find-same : (i : ℤ) (p : ℕ) (t : Entries) (k : ℤ) → (i ==ℤ k) ≡ true → find ((i, p) ∷ t) k ≡ some p
unfolding find
find-same i p t k e = ground arith

find-cong :
    (t s : Entries) (i : ℤ) (p : ℕ) (j : ℤ)
    → find t j ≡ find s j
    → find ((i, p) ∷ t) j ≡ find ((i, p) ∷ s) j
unfolding find
find-cong t s i p j e = ap (λ r. if i ==ℤ j then some p else r) e

==ℤ-sym : (i j : ℤ) → (i ==ℤ j) ≡ false → (j ==ℤ i) ≡ false
==ℤ-sym i j e = ground arith

==ℤ-trans : (i k j : ℤ) → (i ==ℤ k) ≡ false → (k ==ℤ j) ≡ true → (i ==ℤ j) ≡ false
==ℤ-trans i k j e g = ground arith

==ℤ-trans-left : (i k j : ℤ) → (i ==ℤ k) ≡ true → (k ==ℤ j) ≡ false → (i ==ℤ j) ≡ false
==ℤ-trans-left i k j e g = ground arith

pub find-nil : (j : ℤ) → find [] j ≡ none
unfolding find
find-nil j = refl

del-nil : (j : ℤ) → del [] j ≡ []
unfolding del
del-nil j = refl

find-del-same : (t : Entries) (k j : ℤ) → (k ==ℤ j) ≡ true → find (del t k) j ≡ none
find-del-same [] k j g = rw (del-nil k) (find-nil j)
find-del-same ((i, p) ∷ t) k j g = elim (Bool-cases (i ==ℤ k)) [
  | inl e ↦ rw (del-same i p t k e) (find-del-same t k j g)
  | inr e ↦
      rw (del-other i p t k e, find-other i p (del t k) j (==ℤ-trans i k j e g))
        (find-del-same t k j g)
]

find-del-other : (t : Entries) (k j : ℤ) → (k ==ℤ j) ≡ false → find (del t k) j ≡ find t j
find-del-other [] k j g = rw (del-nil k) refl
find-del-other ((i, p) ∷ t) k j g = elim (Bool-cases (i ==ℤ k)) [
  | inl e ↦
      rw (del-same i p t k e, find-other i p t j (==ℤ-trans-left i k j e g))
        (find-del-other t k j g)
  | inr e ↦ rw (del-other i p t k e) (find-cong (del t k) t i p j (find-del-other t k j g))
]

pub find-del :
    (t : Entries) (k : ℤ) (p : ℕ) (j : ℤ)
    → find t k ≡ some p
    → find (del t k) j ≡ (if k ==ℤ j then none else find t j)
find-del t k p j h = elim (Bool-cases (k ==ℤ j)) [
  | inl e ↦ let f = find-del-same t k j e in ground arith
  | inr e ↦ let f = find-del-other t k j e in ground arith
]

-- The keys, each counted once.
size-cons : (i : ℤ) (p : ℕ) (t : Entries) → size ((i, p) ∷ t) ≡ one_if_none (find t i) + size t
unfolding size
size-cons i p t = refl

size-del_all : (t : Entries) (k : ℤ) → size (del t k) + 1 ≡ size t + one_if_none (find t k)
size-del_all [] k = rw (del-nil k, find-nil k) refl
size-del_all ((i, p) ∷ t) k = elim (Bool-cases (i ==ℤ k)) [
  | inl e ↦
      let a : find t i ≡ find t k = ap (find t) ((==ℤ_iff i k).0 e) in
      let ih = size-del_all t k in
      rw (del-same i p t k e, find-same i p t k e, size-cons i p t, a) (omega arith)
  | inr e ↦
      let ih = size-del_all t k in
      rw
        (
          del-other i p t k e,
          find-other i p t k e,
          size-cons i p t,
          size-cons i p (del t k),
          find-del-other t k i (==ℤ-sym i k e),
        )
        (omega arith)
]

pub size-del : (t : Entries) (k : ℤ) (p : ℕ) → find t k ≡ some p → size (del t k) + 1 ≡ size t
size-del t k p h = let g = size-del_all t k in ground arith

size-pos : (i : ℤ) (p : ℕ) (t : Entries) → 1 ≤ size ((i, p) ∷ t)
size-pos i p [] = rw (size-cons i p [], find-nil i) (omega arith)
size-pos i p ((j, q) ∷ t) = let ih = size-pos j q t in rw (size-cons i p ((j, q) ∷ t)) (omega arith)

pub size-zero : (t : Entries) → size t ≡ 0 → head t ≡ none
size-zero [] h = refl
size-zero ((i, p) ∷ t) h = let g = size-pos i p t in absurd (omega arith)

pub head-some : (t : Entries) (p : ℕ) → head t ≡ some p → (k : ℤ) × (find t k ≡ some p)
head-some [] p h = ground arith
head-some ((i, q) ∷ t) p h = (i, find-same i q t i ((==ℤ_iff i i).1 refl) ∙ h)

pub head-none : (t : Entries) (k : ℤ) → head t ≡ none → find t k ≡ none
head-none [] k h = find-nil k
head-none ((i, q) ∷ t) k h = ground arith

pub find-add :
    (t : Entries) (k : ℤ) (p : ℕ) (j : ℤ)
    → find t k ≡ none
    → find ((k, p) ∷ t) j ≡ (if k ==ℤ j then some p else find t j)
unfolding find
find-add t k p j h = refl

-- The table that the instances run on.
abbrev pub hash_list : HashTable
hash_list = record {
  Table = Entries;
  null = [];
  find = find;
  add = λ t k p. (k, p) ∷ t;
  del = λ t k p. del t k;
  head = head;
  size = size;
  find-null = find-nil;
  find-add = find-add;
  find-del = find-del;
  size-del = size-del;
  head-some = head-some;
  head-none = head-none;
  size-zero = size-zero;
}
