-- ===== src/ScriptAst/Sizes.antt =====
-- The tree of src/script_ast/mod.rs has no more events than the script that it is made from.
use brawllib_rs.Prelude.{
  ℕ, zero, suc, ◌+◌, ◌≤◌, ◌≡◌, refl, Option, none, some, List, [], ◌∷◌, length, arith,
}
use brawllib_rs.Outcome.{Ends, Outcome, ok, panic, Post, Post-ok, returns, panics}
use brawllib_rs.Script.Argument.{Event, Script}
use brawllib_rs.ScriptAst.Tree.{
  EventAst, Block, no_else, push, ProcessedBlock, finished, end_for_loop, end_if, end_if_and_else,
  ScriptAst,
}
use brawllib_rs.ScriptAst.Arms.{
  Opener, loop, condition, otherwise, otherwise_if, Nesting, plain, opens, end_loop, end_condition,
  nesting_of, event_ast,
}
use brawllib_rs.ScriptAst.Parse.{
  Exit, go, leave, close_block, Processed, process_events, process_block, finished_block,
  script_ast,
}
use brawllib_rs.ScriptAst.Ends.{Settles, process_block-Settles}
use brawllib_rs.ScriptAst.Leaves.{count, count_event, count_else}
use brawllib_rs.ScriptAst.LeafEvents.{event_ast-count}

count-push :
    {F : Type 0} (block : Block F) (e : EventAst F)
    → count (push block e) ≡ count block + count_event e
unfolding count push
count-push Block.empty e = omega arith
count-push (Block.cons x block) e = omega (arith, count-push block e)

-- The events in what a call returns.
abbrev size : {F : Type 0} → ProcessedBlock F → ℕ
size (finished block) = count block
size (end_for_loop block) = count block
size (end_if block) = count block
size (end_if_and_else block other) = count block + count_else other

-- What the loop has made and the events that are left are no more than the events before.
abbrev IsSmall : {F : Type 0} → ℕ → ProcessedBlock F × List (Event F) → Type 0
IsSmall n (r, rest) = size r + length rest ≤ n

abbrev IsSmallExit : {F : Type 0} → (n rest : ℕ) → Exit F → Type 0
IsSmallExit n rest (go block) = count block + rest ≤ n
IsSmallExit n rest (leave r) = size r + rest ≤ n

close_block-IsSmallExit :
    {F : Type 0} (event : Event F) (block : Block F) (o : Opener F) (inner : ProcessedBlock F)
    (n rest : ℕ)
    → size inner + rest ≤ n
    → IsSmallExit (count block + suc n) rest (close_block event block o inner)
unfolding close_block count
close_block-IsSmallExit event block (loop iterations) (end_for_loop body) n rest h =
    omega (arith, count-push block (EventAst.for_loop iterations body))
close_block-IsSmallExit event block (condition test) (end_if body) n rest h =
    omega (arith, count-push block (EventAst.if_statement test body no_else))
close_block-IsSmallExit event block (condition test) (end_if_and_else body other) n rest h =
    omega (arith, count-push block (EventAst.if_statement test body other))
close_block-IsSmallExit event block otherwise (end_if body) n rest h = omega arith
close_block-IsSmallExit event block (otherwise_if test) (end_if body) n rest h = omega arith
close_block-IsSmallExit event block (otherwise_if test) (end_if_and_else body other) n rest h =
    omega arith
close_block-IsSmallExit event block (otherwise_if test) (finished body) n rest h = omega arith
close_block-IsSmallExit event block (otherwise_if test) (end_for_loop body) n rest h = omega arith
close_block-IsSmallExit event block o inner n rest h =
    omega (arith, count-push block (EventAst.unknown event))

-- A result of the loop satisfies `P`, if there is one.
abbrev Reading {ℓ} : {A : Type ℓ} → (A → Type 0) → Option (Outcome A) → Type ℓ
Reading P none = Unit
Reading P (some r) = Post P r

module _ {F : Type 0} (as_f32 : ℕ → F) where
  abbrev Earlier : ℕ → Type 0
  Earlier fuel =
      (events : List (Event F)) (block : Block F) (n : ℕ)
      → count block + length events ≤ n
      → Reading (IsSmall n) (process_events as_f32 fuel events block)

  module _ (event : Event F) (events : List (Event F)) (fuel : ℕ) (block : Block F)
      (earlier : Earlier fuel) (n : ℕ) (room : count block + suc (length events) ≤ n) where
    plain-IsSmall :
        (e : Outcome (EventAst F))
        → Post (λ e. count_event e ≡ 1) e
        → Reading (IsSmall n) (elim e [
          | panic ↦ some panic
          | ok e ↦ process_events as_f32 fuel events (push block e)
        ])
    plain-IsSmall panic h = panics
    plain-IsSmall (ok e) h =
        earlier events (push block e) n (omega (arith, count-push block e, Post-ok h))

    exit-IsSmall :
        (x : Exit F) (rest : List (Event F))
        → IsSmallExit (count block + suc (length events)) (length rest) x
        → Reading (IsSmall n) (elim x [
          | go block' ↦ process_events as_f32 fuel rest block'
          | leave r ↦ some (ok (r, rest))
        ])
    exit-IsSmall (go block') rest h = earlier rest block' n (omega (arith, h))
    exit-IsSmall (leave r) rest h = returns (omega (arith, h))

    nest-IsSmall :
        (o : Opener F) (inner : Processed as_f32)
        → Reading (IsSmall (length events)) inner
        → Reading (IsSmall n) (elim inner [
          | none ↦ none
          | some panic ↦ some panic
          | some (ok (inner, rest)) ↦ elim (close_block event block o inner) [
            | go block' ↦ process_events as_f32 fuel rest block'
            | leave r ↦ some (ok (r, rest))
          ]
        ])
    nest-IsSmall o none h = tt
    nest-IsSmall o (some panic) h = panics
    nest-IsSmall o (some (ok (inner, rest))) h =
        exit-IsSmall (close_block event block o inner) rest
          (close_block-IsSmallExit event block o inner (length events) (length rest) (Post-ok h))

    nesting-IsSmall :
        (k : Nesting F)
        → Reading (IsSmall n) (elim k [
          | plain ↦ elim (event_ast as_f32 event) [
            | panic ↦ some panic
            | ok e ↦ process_events as_f32 fuel events (push block e)
          ]
          | opens o ↦ elim (process_events as_f32 fuel events Block.empty) [
            | none ↦ none
            | some panic ↦ some panic
            | some (ok (inner, rest)) ↦ elim (close_block event block o inner) [
              | go block' ↦ process_events as_f32 fuel rest block'
              | leave r ↦ some (ok (r, rest))
            ]
          ]
          | end_loop ↦ some (ok (end_for_loop block, events))
          | end_condition ↦ some (ok (end_if block, events))
        ])
    unfolding count
    nesting-IsSmall plain = plain-IsSmall _ (event_ast-count as_f32 event)
    nesting-IsSmall (opens o) =
        nest-IsSmall o _ (earlier events Block.empty (length events) (omega arith))
    nesting-IsSmall end_loop = returns (omega arith)
    nesting-IsSmall end_condition = returns (omega arith)

  process_events-IsSmall : (fuel : ℕ) → Earlier fuel
  unfolding process_events
  process_events-IsSmall zero events block n room = tt
  process_events-IsSmall (suc fuel) [] block n room = returns room
  process_events-IsSmall (suc fuel) (event ∷ events) block n room =
      nesting-IsSmall event events fuel block (process_events-IsSmall fuel) n room
        (nesting_of event)

  finished-IsSmall : (r : ProcessedBlock F) → count (finished_block as_f32 r) ≤ size r
  unfolding finished_block count
  finished-IsSmall (finished block) = omega arith
  finished-IsSmall (end_for_loop block) = omega arith
  finished-IsSmall (end_if block) = omega arith
  finished-IsSmall (end_if_and_else block other) = omega arith

  small_script :
      (script : Script F) (r : Processed as_f32)
      → Settles as_f32 script.events r
      → Reading (IsSmall (length script.events)) r
      → Ends
          (λ (ast : ScriptAst F). count ast.block ≤ length script.events)
          (elim r [
            | none ↦ none
            | some panic ↦ some panic
            | some (ok (r, rest)) ↦
                some (ok (record { block = finished_block as_f32 r; offset = script.offset }))
          ])
  small_script script none (x, e, _, _) h = absurd cc
  small_script script (some panic) settles h = (panic, refl, panics)
  small_script script (some (ok (r, rest))) settles h =
      (ok _, refl, returns (omega (arith, finished-IsSmall r, Post-ok h)))

  -- `ScriptAst::new` ends on every script, and the tree that it returns, if it does not panic, has no
  -- more events than the script, those in nested blocks counted as well.
  pub script_ast-Ends :
      (script : Script F)
      → Ends
          (λ (ast : ScriptAst F). count ast.block ≤ length script.events)
          (script_ast as_f32 script)
  unfolding script_ast process_block count
  script_ast-Ends script = small_script script _ (process_block-Settles as_f32 script.events) (
      process_events-IsSmall (suc (length script.events)) script.events Block.empty
        (length script.events) (omega arith))
