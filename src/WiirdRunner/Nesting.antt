-- ===== src/WiirdRunner/Nesting.antt =====
-- The execution stack of src/wiird_runner.rs as nested blocks: E2 closes as many as it counts, E0
-- closes all.
use brawllib_rs.Prelude.{
  ℕ, zero, suc, ◌+◌, ◌≡◌, refl, Bool, true, not, List, [], ◌∷◌, ◌++◌, length, if◌then◌else◌,
}
use brawllib_rs.Outcome.{ok, Post, returns, Post-then}
use brawllib_rs.Bytes.{Bytes, get, BigEndian, u16_at}
use brawllib_rs.Wiird.Code.{test_bit}
use brawllib_rs.WiirdRunner.State.{State, Line, last_or_true, pop, advance}
use brawllib_rs.WiirdRunner.Condition.{pop_many, reset_address_high, endif}
use brawllib_rs.WiirdRunner.Loop.{After}

-- Popping as many flags as were pushed leaves what was below them.
pop_many-append : (flags outer : List Bool) → pop_many (length flags) (flags ++ outer) ≡ outer
unfolding pop_many pop
pop_many-append [] outer = refl
pop_many-append (f ∷ flags) outer = pop_many-append flags outer

pop_many-nil : (n : ℕ) → pop_many n [] ≡ []
unfolding pop_many pop
pop_many-nil zero = refl
pop_many-nil (suc n) = pop_many-nil n

module _ (be : BigEndian) (codeset : Bytes) (line : Line) (s : State) where
  -- E2 with a count closes that many open blocks: the flags pushed since are gone, and what was
  -- below them is the stack again, with the inverse of its last flag on top if the else bit is set.
  pub endif-closes :
      (flags outer : List Bool) (b : ℕ)
      → s.execution_stack ≡ flags ++ outer
      → get codeset (s.offset + 1) ≡ ok b
      → get codeset (s.offset + 3) ≡ ok (length flags)
      → Post
          (After λ t.
            t.execution_stack ≡ (if test_bit b 4 then not (last_or_true outer) ∷ outer else outer))
          (endif be codeset line s)
  unfolding endif advance
  endif-closes flags outer b opened bits count =
      rw (bits, count)
        (Post-then (u16_at be codeset (s.offset + 4)) λ base.
          Post-then (u16_at be codeset (s.offset + 6))
            λ pointer. returns (rw (opened, pop_many-append flags outer) refl))

  -- E0 closes all blocks, whether or not execution is enabled: the stack is empty, so that the
  -- lines after it run.
  reset_address_high-enables :
      Post (After λ t. last_or_true t.execution_stack ≡ true) (reset_address_high be codeset line s)
  unfolding reset_address_high advance last_or_true
  reset_address_high-enables =
      Post-then (u16_at be codeset (s.offset + 4))
        λ base. Post-then (u16_at be codeset (s.offset + 6)) λ pointer. returns refl
