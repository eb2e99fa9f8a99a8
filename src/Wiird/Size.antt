-- ===== src/Wiird/Size.antt =====
-- The sizes of lines that src/wiird.rs and src/wiird_runner.rs compute: of a string write and of
-- the lines that a jump passes over.
use brawllib_rs.Prelude.{ℕ, ◌+◌, ◌-◌, ◌%◌, ◌^◌, ◌≤◌, ◌≡◌, ltb, ◌==◌, if◌then◌else◌, arith}
use brawllib_rs.Outcome.{Outcome, mul_usize, Post, returns, panics, Post-if}

-- `8 + count`, then up to a multiple of 8
unfoldable pub aligned_size : ℕ → ℕ
aligned_size count =
    let count_mod = count % 8 in if count_mod == 0 then 8 + count else 8 + count + (8 - count_mod)

-- `x as usize` for the i16 with these 16 bits: the sign is extended to 64 bits.
unfoldable pub usize_of_i16 : ℕ → ℕ
usize_of_i16 x = if ltb x (2 ^ 15) then x else x + 2 ^ 64 - 2 ^ 16

-- `8 * offset_lines as usize`
unfoldable pub lines_size : ℕ → Outcome ℕ
unfolding usize_of_i16
lines_size offset_lines = mul_usize 8 (usize_of_i16 offset_lines)

-- Whole lines, one at least.
abbrev pub IsLines : ℕ → Type 0
IsLines n = (8 ≤ n) × (n % 8 ≡ 0)

pub aligned_size-IsLines : (n : ℕ) → IsLines (aligned_size n)
unfolding aligned_size
aligned_size-IsLines n = ground arith

pub lines_size-mod : (lines : ℕ) → Post (λ n. n % 8 ≡ 0) (lines_size lines)
unfolding lines_size mul_usize
lines_size-mod lines = Post-if _ (returns (omega arith)) panics
