-- ===== src/BoxDecomp/BlockSize.antt =====
-- `GCDblocksize` of src/clib/pioc_sc.c, as built with NDEBUG: `pioassert` does nothing.
use parallel_io.Base.{
  ℕ, suc, ◌+◌, ◌≡◌, Bool, true, false, List, [], ◌∷◌, arith, ◌==◌, if◌then◌else◌, length,
}
use parallel_io.Base.Int.{ℤ, pos, ◌-ℤ◌, ◌==ℤ◌}
use parallel_io.BoxDecomp.Gcd.{lgcd}
use parallel_io.BoxDecomp.GcdList.{IsGcdAll, sum}

-- The offset `y` follows `x` with no gap.
is_next : ℤ → ℤ → Bool
is_next x y = y -ℤ x ==ℤ pos 1

-- The `for` loop, at `prev = arr_in[i]`, with the code after it as the last case.
block_loop : ℤ → ℤ → ℕ → List ℤ → ℤ
block_loop prev bsize blk_len [] = lgcd bsize (pos blk_len)
block_loop prev bsize blk_len (y ∷ ys) = elim (is_next prev y) [
  | true ↦ block_loop y bsize (blk_len + 1) ys
  | false ↦ elim (blk_len == 1) [
    | true ↦ pos 1
    | false ↦
        let b = lgcd bsize (pos blk_len) in
        elim (b ==ℤ pos 1) [ true ↦ pos 1 | false ↦ block_loop y b 1 ys ]
  ]
]

pub gcd_block_size : List ℤ → ℤ
unfolding block_loop
gcd_block_size [] = lgcd (pos 0) (pos 1)
gcd_block_size (x ∷ xs) =
    let arrlen = length (x ∷ xs) in if arrlen == 1 then pos 1 else block_loop x (pos arrlen) 1 xs

-- One element more in the first block.
abbrev grow : List ℕ → List ℕ
grow [] = []
grow (l ∷ ls) = suc l ∷ ls

-- The lengths of the longest blocks of offsets without a gap, from the left.
pub block_lengths : List ℤ → List ℕ
block_lengths [] = []
block_lengths (x ∷ []) = 1 ∷ []
block_lengths (x ∷ y ∷ ys) =
    let rest = block_lengths (y ∷ ys) in if is_next x y then grow rest else 1 ∷ rest

sum-grow : (l : ℕ) (ls : List ℕ) → sum (grow (l ∷ ls)) ≡ suc (sum (l ∷ ls))
unfolding sum
sum-grow l ls = omega arith

abbrev IsResult : List ℕ → ℤ → Type 0
IsResult xs r = (g : ℕ) × (r ≡ pos g) × IsGcdAll g xs
