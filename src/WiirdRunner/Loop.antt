-- ===== src/WiirdRunner/Loop.antt =====
-- One rule for the loop of src/wiird_runner.rs: it ends, and an invariant of its rounds holds of
-- the state that it ends in.
use brawllib_rs.Prelude.{
  ℕ, zero, suc, ◌+◌, ◌≤◌, ◌<◌, refl, inl, inr, Bool-cases, some, ltb, ltb→lt, arith,
}
use brawllib_rs.Outcome.{Ends, Outcome, ok, panic, Post, returns, panics}
use brawllib_rs.Bytes.{Bytes, BigEndian}
use brawllib_rs.WiirdRunner.State.{State, Control, next, stop}
use brawllib_rs.WiirdRunner.Step.{step, run}

-- A predicate on the state in which a round leaves the loop's body.
abbrev pub After : (State → Type 0) → Control → Type 0
After P (next s) = P s
After P (stop s) = P s

-- A line that goes on lies 8 bytes or more before the next.
abbrev pub Advances : State → Control → Type 0
Advances s (next s') = s.offset + 8 ≤ s'.offset
Advances s (stop s') = Unit

module _ (be : BigEndian) (codeset : Bytes) (location : ℕ) (P : State → Type 0) where
  -- What follows a round at a line inside the codeset, given that the later rounds end well.
  After-Ends :
      (fuel : ℕ) (s : State)
      → codeset.len < suc fuel + s.offset
      → s.offset < codeset.len
      → ((s' : State)
          → codeset.len < fuel + s'.offset
          → 0 < fuel
          → P s'
          → Ends P (run be codeset location fuel s'))
      → {r : Outcome Control} → Post (λ c. After P c × Advances s c) r
      → Ends P (elim r [
        | panic ↦ some panic
        | ok (stop s') ↦ some (ok s')
        | ok (next s') ↦ run be codeset location fuel s'
      ])
  After-Ends fuel s enough inside later panics = (panic, refl, panics)
  After-Ends fuel s enough inside later (returns {a = stop s'} h) = (ok s', refl, returns h.0)
  After-Ends fuel s enough inside later (returns {a = next s'} h) =
      later s' (omega (arith, h.1)) (omega arith) h.0

  -- With a round for each byte that is left and one more, the loop ends.
  pub run-Ends :
      ((s : State)
        → P s
        → s.offset < codeset.len
        → Post (λ c. After P c × Advances s c) (step be codeset location s))
      → (fuel : ℕ) (s : State) → codeset.len < fuel + s.offset
      → 0 < fuel
      → P s
      → Ends P (run be codeset location fuel s)
  unfolding run
  run-Ends keeps zero s enough pos p = absurd (omega arith)
  run-Ends keeps (suc fuel) s enough pos p = elim (Bool-cases (ltb s.offset codeset.len)) [
    | inl more ↦
        let inside = ltb→lt s.offset codeset.len more in
        rw (more, run) (After-Ends fuel s enough inside (run-Ends keeps fuel) (keeps s p inside))
    | inr done ↦ rw (done, run) (ok s, refl, returns p)
  ]
