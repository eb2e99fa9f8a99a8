-- ===== src/WiirdRunner/Decode.antt =====
-- Every arm of the loop of src/wiird_runner.rs leaves its line by one of the effects.
use brawllib_rs.Prelude.{ℕ, zero, suc, ◌+◌, ◌%◌, ◌^◌, ◌<◌, ◌≡◌, sym, Bool, true, false, arith, All}
use brawllib_rs.Outcome.{◌>>=◌, Post, returns, Post-bind, Post-then, Post-eq}
use brawllib_rs.Bytes.{Bytes, get, BigEndian, u16_at, u32_at}
use brawllib_rs.Bytes.Words.{IsBytes}
use brawllib_rs.WiiMemory.Invariant.{get-lt, u16_at-lt, u32_at-lt}
use brawllib_rs.Wiird.Code.{Code, test_bit}
use brawllib_rs.Wiird.Size.{IsLines, aligned_size, aligned_size-IsLines}
use brawllib_rs.WiirdRunner.State.{State, Line, when, advance, target, last_or_true}
use brawllib_rs.WiirdRunner.Fill.{
  read_values, write_and_fill8, write_and_fill16, write_and_fill32, string_write,
}
use brawllib_rs.WiirdRunner.Address.{Operands, operands, with_operands}
use brawllib_rs.WiirdRunner.Register.{set_gecko_register}
use brawllib_rs.WiirdRunner.Effect.{
  Act, fill8, fill16, fill32, write_string, set_register, IsAct, IsFor, perform, idle, acts, Leaves,
  moves,
}

read_values-lt :
    (codeset : Bytes)
    → IsBytes codeset
    → (n k : ℕ) → Post (All (λ v. v < 256)) (read_values codeset n k)
unfolding read_values
read_values-lt codeset bytes zero k = returns tt
read_values-lt codeset bytes (suc n) k =
    Post-bind (get-lt codeset bytes k)
      λ v h. Post-bind (read_values-lt codeset bytes n (k + 1)) λ vs hs. returns (h, hs)

module _ (be : BigEndian) (location : ℕ) (codeset : Bytes) (bytes : IsBytes codeset) (line : Line)
    (s : State) (executes : line.execute ≡ last_or_true s.execution_stack) where
  pub onward : (code : Code) (n : ℕ) → IsLines n → Post (Leaves be location code s) (advance n s)
  unfolding advance
  onward code n h = returns (moves n idle h)

  -- The arm has read its operands; it acts if executing, and goes on by `n` bytes.
  acting_if :
      (execute : Bool) (code : Code) (n : ℕ) (act : Act)
      → execute ≡ last_or_true s.execution_stack
      → IsLines n
      → IsFor code act
      → IsAct act
      → Post (Leaves be location code s) (when execute (perform be location act) s >>= advance n)
  unfolding when advance
  acting_if false code n act e h for fits = returns (moves n idle h)
  acting_if true code n act e h for fits =
      Post-bind (Post-eq (perform be location act s))
        λ t p. returns (moves n (acts act for fits (sym e) p) h)

  pub acting :
      (code : Code) (n : ℕ) (act : Act)
      → IsLines n
      → IsFor code act
      → IsAct act
      → Post
          (Leaves be location code s)
          (when line.execute (perform be location act) s >>= advance n)
  acting code n act = acting_if line.execute code n act executes

  u8-lt : (k : ℕ) → Post (λ v. v < 256) (get codeset k)
  u8-lt = get-lt codeset bytes

  pub u16-lt : (k : ℕ) → Post (λ v. v < 2 ^ 16) (u16_at be codeset k)
  u16-lt = u16_at-lt be codeset bytes

  u32-lt : (k : ℕ) → Post (λ v. v < 2 ^ 32) (u32_at be codeset k)
  u32-lt = u32_at-lt be codeset bytes

  pub write_and_fill8-Leaves :
      Post (Leaves be location Code.write_and_fill8 s) (write_and_fill8 be codeset location line s)
  unfolding write_and_fill8 perform
  write_and_fill8-Leaves = Post-bind (u8-lt (s.offset + 7)) λ v h.
      Post-then (u16_at be codeset (s.offset + 4)) λ n.
        Post-then (target line.use_base_address line.address s)
          λ a. acting Code.write_and_fill8 8 (fill8 (n + 1) a v) (omega arith) tt h

  pub write_and_fill16-Leaves :
      Post
        (Leaves be location Code.write_and_fill16 s)
        (write_and_fill16 be codeset location line s)
  unfolding write_and_fill16 perform
  write_and_fill16-Leaves = Post-bind (u16-lt (s.offset + 6)) λ v h.
      Post-then (u16_at be codeset (s.offset + 4)) λ n.
        Post-then (target line.use_base_address line.address s)
          λ a. acting Code.write_and_fill16 8 (fill16 (n + 1) a v) (omega arith) tt h

  pub write_and_fill32-Leaves :
      Post
        (Leaves be location Code.write_and_fill32 s)
        (write_and_fill32 be codeset location line s)
  unfolding write_and_fill32 perform
  write_and_fill32-Leaves = Post-bind (u32-lt (s.offset + 4)) λ v h.
      Post-then (target line.use_base_address line.address s)
        λ a. acting Code.write_and_fill32 8 (fill32 a v) (omega arith) tt h

  pub string_write-Leaves :
      Post (Leaves be location Code.string_write s) (string_write be codeset location line s)
  unfolding string_write perform
  string_write-Leaves = Post-then (u32_at be codeset (s.offset + 4)) λ n.
      Post-bind (read_values-lt codeset bytes n (s.offset + 8)) λ vs h.
        Post-then (target line.use_base_address line.address s) λ a.
          acting Code.string_write (aligned_size n) (write_string vs a) (aligned_size-IsLines n) tt
            h

  operands-lt : Post (λ o. o.value < 2 ^ 32) (operands be codeset line s)
  unfolding operands
  operands-lt = Post-then (get codeset (s.offset + 1)) λ flags.
      Post-then (get codeset (s.offset + 2)) λ register_flags.
        Post-then (get codeset (s.offset + 3))
          λ register. Post-bind (u32-lt (s.offset + 4)) λ v h. returns h

  -- 40, 42, 44, 48, 4A and 4C differ in the act.
  pub with_operands-Leaves :
      (code : Code) (act : Operands → Act)
      → ((o : Operands) → IsFor code (act o))
      → ((o : Operands) → o.value < 2 ^ 32 → IsAct (act o))
      → Post
          (Leaves be location code s)
          (with_operands be codeset line s (λ o. perform be location (act o)))
  unfolding with_operands
  with_operands-Leaves code act for fits =
      Post-bind operands-lt λ o h. acting code 8 (act o) (omega arith) (for o) (fits o h)

  pub address_to_code-Leaves :
      (code : Code) (act : Act)
      → IsFor code act
      → IsAct act
      → Post (Leaves be location code s) (
          u16_at be codeset (s.offset + 2) >>= λ _.
          when line.execute (perform be location act) s >>= advance 8)
  address_to_code-Leaves code act for fits =
      Post-then (u16_at be codeset (s.offset + 2)) λ _. acting code 8 act (omega arith) for fits

  pub set_gecko_register-Leaves :
      Post (Leaves be location Code.set_gecko_register s) (set_gecko_register be codeset line s)
  unfolding set_gecko_register perform
  set_gecko_register-Leaves = Post-then (get codeset (s.offset + 1)) λ flags.
      Post-then (get codeset (s.offset + 3)) λ r. Post-bind (u32-lt (s.offset + 4)) λ v h.
        acting Code.set_gecko_register 8 (set_register (test_bit flags 4) _ (r % 16) v)
          (omega arith) tt (omega arith)
