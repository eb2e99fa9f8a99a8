-- ===== src/ScriptRunner/StepStack.antt =====
-- `step_event` of src/script_runner.rs, and the loop of `step_script` that runs one call stack until it
-- waits or is empty.
use brawllib_rs.Prelude.{
  ℕ, zero, suc, ◌^◌, Bool, true, false, not, ◌&&◌, Option, none, some, List, [], ◌∷◌, ◌++◌,
  replicate, ltb, ◌==◌, if◌then◌else◌,
}
use brawllib_rs.Outcome.{Outcome, ok, panic, ◌>>=◌}
use brawllib_rs.ScriptAst.Tree.{EventAst, Block, empty, cons, no_else, else_block}
use brawllib_rs.ScriptRunner.Numbers.{Floats}
use brawllib_rs.ScriptRunner.HitBoxes.{step_boxes}
use brawllib_rs.ScriptRunner.StepVariables.{step_variables}
use brawllib_rs.ScriptRunner.Maps.{insert}
use brawllib_rs.ScriptRunner.State.{
  Located, Scripts, Call, CallStack, CallEveryFrame, Flow, State, plain_call,
}
use brawllib_rs.ScriptRunner.StepBody.{test_holds, step_body}
use brawllib_rs.ScriptRunner.StepFlow.{
  StepEventResult, wait_until, new_for_loop, new_call, new_if_statement,
  if_statement_disable_execution, goto, subroutine, call_every_frame, return, nothing, step_flow,
}

-- `for _ in 0..iterations { .. push .. }`, where a negative number has no rounds.
unfoldable pub rounds_of : ℕ → ℕ
rounds_of iterations = if ltb iterations (2 ^ 31) then iterations else 0

module _ {F : Type 0} where
  -- `call.block.events.get(call.index)`
  unfoldable pub event_at : Block F → ℕ → Option (EventAst F)
  event_at empty i = none
  event_at (cons e events) zero = some e
  event_at (cons e events) (suc i) = event_at events i

  -- The script whose first event is at this place.
  unfoldable pub first_of : Call F → Option ℕ
  first_of c = if c.index == 0 then c.home else none

  unfoldable pub script_call : Located F → Bool → Call F
  unfolding plain_call
  script_call x external = plain_call x.script.block (some x.address) external

  -- `IfStatementDisableExecution`
  unfoldable pub disable_execution : Call F → Call F
  disable_execution c = if c.if_statement then record c { execute = true } else c

  -- What a result does to the stack whose last call, the one of the event, is `c`.
  unfoldable pub result_calls : StepEventResult F → Call F → List (Call F) → List (Call F)
  unfolding plain_call script_call rounds_of disable_execution
  result_calls (wait_until v) c cs = c ∷ cs
  result_calls (new_for_loop block iterations) c cs =
      replicate (rounds_of iterations) (plain_call block none c.external) ++ (c ∷ cs)
  result_calls (new_call block) c cs = plain_call block none c.external ∷ c ∷ cs
  result_calls (new_if_statement then_branch else_branch execute) c cs =
      record (plain_call then_branch none c.external) {
        else_branch = else_branch;
        if_statement = true;
        execute = execute;
      }
      ∷ c
      ∷ cs
  result_calls if_statement_disable_execution c cs = disable_execution c ∷ cs
  result_calls (goto x external) c cs = script_call x external ∷ cs
  result_calls (subroutine x external) c cs =
      record (script_call x external) { subroutine = true } ∷ c ∷ cs
  result_calls (call_every_frame x external thread_id) c cs = c ∷ cs
  -- `run` is false before the loop that would pop calls.
  result_calls return c cs = c ∷ cs
  result_calls nothing c cs = c ∷ cs

  unfoldable pub result_wait : StepEventResult F → F → F
  result_wait (wait_until v) w = v
  result_wait _ w = w

  unfoldable pub result_flow : StepEventResult F → Flow F → Flow F
  result_flow (call_every_frame x external thread_id) w =
      let entry : CallEveryFrame F = record {
        block = x.script.block;
        home = some x.address;
        external = external;
      } in
      record w { call_every_frame = insert thread_id entry w.call_every_frame }
  result_flow _ w = w

  -- The arm of the end of a block: the else branch comes next, if there is one.
  unfoldable pub end_calls : Call F → List (Call F) → List (Call F)
  end_calls c cs = elim c.else_branch [
    | else_block block ↦
        record c {
          block = block;
          home = none;
          index = 0;
          else_branch = no_else;
          execute = not c.execute;
        }
        ∷ cs
    | no_else ↦ cs
  ]

  -- Without execution an event may only resume it.
  unfoldable pub resumes : Floats F → EventAst F → (if_statement : Bool) → State F → Outcome Bool
  resumes fl (EventAst.if_statement_or test) if_statement s =
      test_holds fl s.vars test >>= λ b. ok (b && if_statement)
  resumes fl _ if_statement s = ok false

  module _ (fl : Floats F) (t : Scripts F) where
    -- Each event changes one of the four parts, and all arms read the state before it.
    unfoldable pub step_event :
        (external : Bool) (first : Option ℕ)
        → EventAst F
        → State F
        → Outcome (StepEventResult F × State F)
    step_event external first e s = do
      vars ← step_variables fl s.vars e
      boxes ← step_boxes fl s.vars e s.boxes
      body ← step_body fl s.vars e s.body
      (result, flow) ← step_flow t fl s.vars external first e s.flow
      ok (result, record { vars = vars; boxes = boxes; body = body; flow = flow })

    -- The arm of an event, whose call `c` has moved on to the next one.
    unfoldable pub process_event :
        (first : Option ℕ)
        → EventAst F
        → (c : Call F) (cs : List (Call F)) → F
        → State F
        → Outcome (CallStack F × State F)
    unfolding resumes
    process_event first e c cs wait s = elim c.execute [
      | true ↦ step_event c.external first e s >>= λ (result, s'). ok (
        record { calls = result_calls result c cs; wait_until = result_wait result wait },
        record s' { flow = result_flow result s'.flow },
      )
      | false ↦ resumes fl e c.if_statement s >>= λ b.
          ok (record { calls = record c { execute = b } ∷ cs; wait_until = wait }, s)
    ]

    -- The body of the loop.
    unfoldable pub step_call :
        (c : Call F) (cs : List (Call F)) → F → State F → Outcome (CallStack F × State F)
    unfolding process_event end_calls first_of
    step_call c cs wait s = elim (event_at c.block c.index) [
      | some e ↦ process_event (first_of c) e (record c { index = suc c.index }) cs wait s
      | none ↦ ok (record { calls = end_calls c cs; wait_until = wait }, s)
    ]

    -- `while !self.call_stacks[i].calls.is_empty() { .. }`. Out of fuel there is no result.
    unfoldable pub run_calls :
        (fuel : ℕ) (calls : List (Call F)) → F → State F → Option (Outcome (CallStack F × State F))
    unfolding step_call
    run_calls zero calls wait s = none
    run_calls (suc fuel) [] wait s = some (ok (record { calls = []; wait_until = wait }, s))
    run_calls (suc fuel) (c ∷ cs) wait s = elim (fl.lt s.vars.frame_index wait) [
      | true ↦ some (ok (record { calls = c ∷ cs; wait_until = wait }, s))
      | false ↦ elim (step_call c cs wait s) [
        | panic ↦ some panic
        | ok (stack, s') ↦ run_calls fuel stack.calls stack.wait_until s'
      ]
    ]
