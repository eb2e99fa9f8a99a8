-- ===== src/ScriptAst/Parse.antt =====
-- `process_block` and `ScriptAst::new` of src/script_ast/mod.rs: the loop over the events that the
-- recursive calls share, and what is made of the block that each of them returns.
use brawllib_rs.Prelude.{ℕ, zero, suc, Option, none, some, List, [], ◌∷◌, length}
use brawllib_rs.Outcome.{Outcome, ok, panic}
use brawllib_rs.Script.Argument.{Event, Script}
use brawllib_rs.ScriptAst.Tree.{
  EventAst, Block, no_else, else_block, push, ProcessedBlock, finished, end_for_loop, end_if,
  end_if_and_else, ScriptAst,
}
use brawllib_rs.ScriptAst.Arms.{
  Opener, loop, condition, otherwise, otherwise_if, plain, opens, end_loop, end_condition,
  nesting_of, event_ast,
}

-- How the loop's body is left: to the next event with the events so far, or by `return`.
pub data Exit (F : Type 0) : Type 0 where
  go : Block F → Exit F
  leave : ProcessedBlock F → Exit F

module _ {F : Type 0} (event : Event F) (event_asts : Block F) where
  -- The `match process_block(events)` of the arms of a loop, an if, an else and an else-if.
  unfoldable pub close_block : Opener F → ProcessedBlock F → Exit F
  close_block (loop iterations) (end_for_loop block) =
      go (push event_asts (EventAst.for_loop iterations block))
  close_block (loop iterations) _ = go (push event_asts (EventAst.unknown event))
  close_block (condition test) (end_if then_branch) =
      go (push event_asts (EventAst.if_statement test then_branch no_else))
  close_block (condition test) (end_if_and_else then_branch else_branch) =
      go (push event_asts (EventAst.if_statement test then_branch else_branch))
  close_block (condition test) _ = go (push event_asts (EventAst.unknown event))
  close_block otherwise (end_if else_branch) =
      leave (end_if_and_else event_asts (else_block else_branch))
  close_block otherwise _ = go (push event_asts (EventAst.unknown event))
  close_block (otherwise_if test) (end_if then_branch) = leave (
      end_if_and_else event_asts
        (else_block (Block.cons (EventAst.if_statement test then_branch no_else) Block.empty)))
  close_block (otherwise_if test) (end_if_and_else then_branch else_branch) = leave (
      end_if_and_else event_asts
        (else_block (Block.cons (EventAst.if_statement test then_branch else_branch) Block.empty)))
  close_block (otherwise_if test) _ = leave (finished event_asts)

module _ {F : Type 0} (as_f32 : ℕ → F) where
  abbrev pub Processed : Type 0
  Processed = Option (Outcome (ProcessedBlock F × List (Event F)))

  -- `while let Some(event) = events.next()`, with fuel; `none` means that the fuel ran out. The
  -- events that are left are those that the iterator is left with.
  unfoldable pub process_events : ℕ → List (Event F) → Block F → Processed
  process_events zero events event_asts = none
  process_events (suc fuel) [] event_asts = some (ok (finished event_asts, []))
  process_events (suc fuel) (event ∷ events) event_asts = elim (nesting_of event) [
    | plain ↦ elim (event_ast as_f32 event) [
      | panic ↦ some panic
      | ok e ↦ process_events fuel events (push event_asts e)
    ]
    | opens o ↦ elim (process_events fuel events Block.empty) [
      | none ↦ none
      | some panic ↦ some panic
      | some (ok (inner, rest)) ↦ elim (close_block event event_asts o inner) [
        | go event_asts' ↦ process_events fuel rest event_asts'
        | leave r ↦ some (ok (r, rest))
      ]
    ]
    | end_loop ↦ some (ok (end_for_loop event_asts, events))
    | end_condition ↦ some (ok (end_if event_asts, events))
  ]

  -- Every round, nested or not, takes an event: a round for each event and one more is enough.
  unfoldable pub process_block : List (Event F) → Processed
  process_block events = process_events (suc (length events)) events Block.empty

  -- `if let ProcessedBlock::Finished(events) = .. { events } else { Block { events: vec!() } }`
  unfoldable pub finished_block : ProcessedBlock F → Block F
  finished_block (finished events) = events
  finished_block _ = Block.empty

  -- `ScriptAst::new`
  unfoldable pub script_ast : Script F → Option (Outcome (ScriptAst F))
  script_ast script = elim (process_block script.events) [
    | none ↦ none
    | some panic ↦ some panic
    | some (ok (r, rest)) ↦ some (ok (record { block = finished_block r; offset = script.offset }))
  ]
