-- ===== src/Registry/Hash.antt =====
-- The hash tables of uthash (src/clib/uthash.h, another project's header), as pio_lists.c uses them: a
-- table of struct addresses under int keys. The laws are what the macros document for tables
-- whose keys are distinct.
use parallel_io.Base.{ℕ, ◌+◌, ◌≡◌, Option, none, some, if◌then◌else◌}
use parallel_io.Base.Int.{ℤ, ◌==ℤ◌}

pub record HashTable : Type 1 where
  pub Table : Type 0
  -- The head pointer NULL.
  pub null : Table
  -- HASH_FIND_INT, HASH_ADD_INT, HASH_DEL, the first struct, and HASH_COUNT.
  pub find : Table → ℤ → Option ℕ
  pub add : Table → ℤ → ℕ → Table
  pub del : Table → ℤ → ℕ → Table
  pub head : Table → Option ℕ
  pub size : Table → ℕ
  pub find-null : (k : ℤ) → find null k ≡ none
  pub find-add :
      (t : Table) (k : ℤ) (p : ℕ) (j : ℤ)
      → find t k ≡ none
      → find (add t k p) j ≡ (if k ==ℤ j then some p else find t j)
  pub find-del :
      (t : Table) (k : ℤ) (p : ℕ) (j : ℤ)
      → find t k ≡ some p
      → find (del t k p) j ≡ (if k ==ℤ j then none else find t j)
  pub size-del : (t : Table) (k : ℤ) (p : ℕ) → find t k ≡ some p → size (del t k p) + 1 ≡ size t
  pub head-some : (t : Table) (p : ℕ) → head t ≡ some p → (k : ℤ) × (find t k ≡ some p)
  pub head-none : (t : Table) (k : ℤ) → head t ≡ none → find t k ≡ none
  pub size-zero : (t : Table) → size t ≡ 0 → head t ≡ none
