-- ===== src/Base/Heap.antt =====
-- Allocated structs by address; an address that is not allocated holds nothing.
use parallel_io.Base.{ℕ, ◌==◌, if◌then◌else◌, Option, none}

abbrev pub Heap {ℓ} : Type ℓ → Type ℓ
Heap A = ℕ → Option A

module _ {ℓ} {A : Type ℓ} where
  abbrev pub update : Heap A → ℕ → Option A → Heap A
  update h p v q = if p == q then v else h q

  -- `free(p)`.
  abbrev pub free : Heap A → ℕ → Heap A
  free h p = update h p none
