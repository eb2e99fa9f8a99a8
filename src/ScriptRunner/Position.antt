-- ===== src/ScriptRunner/Position.antt =====
-- The place of a call of src/script_runner.rs in its block.
use brawllib_rs.Prelude.{ℕ, zero, suc, ◌≡◌, refl, Option, none, some, ◌==◌, if◌then◌else◌, arith}
use brawllib_rs.ScriptAst.Tree.{EventAst, Block, empty, cons}
use brawllib_rs.ScriptRunner.StepStack.{event_at}

module _ {F : Type 0} where
  -- The events of a block from an index on.
  unfoldable pub drop_block : ℕ → Block F → Block F
  drop_block zero b = b
  drop_block (suc i) empty = empty
  drop_block (suc i) (cons e es) = drop_block i es

  pub event_at-drop_block :
      (i : ℕ) (b : Block F) {e : EventAst F} {es : Block F}
      → drop_block i b ≡ cons e es
      → (event_at b i ≡ some e) × (drop_block (suc i) b ≡ es)
  unfolding drop_block event_at
  event_at-drop_block zero empty h = cc
  event_at-drop_block zero (cons e' es') h = (cc, cc)
  event_at-drop_block (suc i) empty h = cc
  event_at-drop_block (suc i) (cons e' es') h = event_at-drop_block i es' h

  pub event_at-empty : (i : ℕ) (b : Block F) → drop_block i b ≡ empty → event_at b i ≡ none
  unfolding drop_block event_at
  event_at-empty zero empty h = refl
  event_at-empty zero (cons e' es') h = cc
  event_at-empty (suc i) empty h = refl
  event_at-empty (suc i) (cons e' es') h = event_at-empty i es' h

-- The script that the event at an index of its block begins.
abbrev pub first_at : Option ℕ → ℕ → Option ℕ
first_at home j = if j == 0 then home else none

pub first_at-suc : (home : Option ℕ) (j : ℕ) → first_at home (suc j) ≡ none
first_at-suc home j = ground arith
