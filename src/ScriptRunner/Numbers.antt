-- ===== src/ScriptRunner/Numbers.antt =====
-- The numbers of src/script_runner.rs: f32 as a type with the operations that the code uses, and the
-- order and the sums of i32 by their 32 bits. Sums panic on overflow, as Cargo.toml asks for.
use brawllib_rs.Prelude.{ℕ, ◌+◌, ◌-◌, ◌%◌, ◌^◌, Bool, ◌&&◌, ltb, leb, if◌then◌else◌}
use brawllib_rs.Outcome.{Outcome, ok, panic}

pub record Floats (F : Type 0) : Type 0 where
  pub zero : F
  pub one : F
  -- `x as f32` of an i32, and `x as i32` and `x as u16` of an f32.
  pub of_i32 : ℕ → F
  pub to_i32 : F → ℕ
  pub to_u16 : F → ℕ
  pub add : F → F → F
  pub sub : F → F → F
  pub mul : F → F → F
  pub div : F → F → F
  pub lt : F → F → Bool
  pub le : F → F → Bool
  pub eq : F → F → Bool

-- The bits of an i32, moved so that their order is that of the numbers.
abbrev pub shifted : ℕ → ℕ
shifted a = (a + 2 ^ 31) % 2 ^ 32

unfoldable pub lt_i32 : ℕ → ℕ → Bool
lt_i32 a b = ltb (shifted a) (shifted b)

unfoldable pub le_i32 : ℕ → ℕ → Bool
le_i32 a b = leb (shifted a) (shifted b)

-- `a + b` and `a - b`: with both shifted by 2 ^ 31, the sum lies between 2 ^ 31 and 3 * 2 ^ 31.
unfoldable pub add_i32 : ℕ → ℕ → Outcome ℕ
add_i32 a b =
    let sum = shifted a + shifted b in
    if leb (2 ^ 31) sum && ltb sum (2 ^ 32 + 2 ^ 31) then ok ((a + b) % 2 ^ 32) else panic

unfoldable pub sub_i32 : ℕ → ℕ → Outcome ℕ
sub_i32 a b =
    let difference = shifted a + 2 ^ 32 - shifted b in
    if leb (2 ^ 31) difference && ltb difference (2 ^ 32 + 2 ^ 31)
    then ok ((a + 2 ^ 32 - b) % 2 ^ 32)
    else panic
