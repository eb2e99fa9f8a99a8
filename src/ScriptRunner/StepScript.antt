-- ===== src/ScriptRunner/StepScript.antt =====
-- `step_script` of src/script_runner.rs: one frame of the scripts of a subaction.
use brawllib_rs.Prelude.{ℕ, false, Option, none, some, List, [], ◌∷◌, ◌++◌, take, if◌then◌else◌}
use brawllib_rs.Outcome.{Outcome, ok, ◌>>=◌, and_then}
use brawllib_rs.ScriptAst.Switches.{DisableMovement, enable, disable_vertical, disable_horizontal}
use brawllib_rs.ScriptAst.Expression.{Interrupt}
use brawllib_rs.ScriptRunner.Numbers.{Floats}
use brawllib_rs.ScriptRunner.Variables.{Variables}
use brawllib_rs.ScriptRunner.Frame.{begin_frame}
use brawllib_rs.ScriptRunner.Maps.{values}
use brawllib_rs.ScriptRunner.State.{
  Scripts, Call, CallStack, CallEveryFrame, ChangeSubaction, VelModify, Body, State, plain_call,
}
use brawllib_rs.ScriptRunner.StepBody.{test_holds}
use brawllib_rs.ScriptRunner.StepStack.{run_calls}

-- A runner between two frames.
pub record Runner (F : Type 0) : Type 0 where
  pub call_stacks : List (CallStack F)
  pub state : State F
  pub frame_count : ℕ

module _ {F : Type 0} where
  -- The resets that begin a frame.
  unfoldable pub reset_body : Body F → Body F
  reset_body b = record b {
    throw_activate = false;
    rumble = none;
    x_vel_modify = VelModify.none;
    y_vel_modify = VelModify.none;
    reverse_direction = false;
  }

  unfoldable pub reset_state : State F → State F
  unfolding reset_body
  reset_state s = record s {
    boxes = begin_frame s.boxes;
    body = reset_body s.body;
    flow = record s.flow { visited_gotos = [] };
  }

  module _ (fl : Floats F) where
    -- `for interrupt in self.interrupts.clone() { .. }`
    unfoldable pub check_interrupts :
        Variables F → List (Interrupt F) → ChangeSubaction → Outcome ChangeSubaction
    check_interrupts s [] change = ok change
    check_interrupts s (i ∷ is) change = do
      succeeds ← test_holds fl s i.test
      check_interrupts s is (if succeeds then ChangeSubaction.interrupt i.action else change)

    -- `wait_until: -1.0`
    unfoldable pub new_stack : Call F → CallStack F
    new_stack c = record { calls = c ∷ []; wait_until = fl.of_i32 0xFFFFFFFF }

    -- The stacks of the blocks that are called in every frame.
    unfoldable pub thread_stacks : List (CallEveryFrame F) → List (CallStack F)
    unfolding new_stack plain_call
    thread_stacks [] = []
    thread_stacks (thread ∷ threads) =
        new_stack (plain_call thread.block thread.home thread.external) ∷ thread_stacks threads

    -- `match self.disable_movement { .. }`
    unfoldable pub move_body : Body F → Body F
    move_body b = elim b.disable_movement [
      | enable ↦ record b { x = fl.add b.x b.x_vel; y = fl.add b.y b.y_vel }
      | disable_vertical ↦ record b { x = fl.add b.x b.x_vel }
      | disable_horizontal ↦ record b { y = fl.add b.y b.y_vel }
      | DisableMovement.unknown _ ↦ b
    ]

    -- What follows the call stacks.
    unfoldable pub end_frame : State F → State F
    unfolding move_body
    end_frame s =
        let stopped =
          if fl.eq s.vars.frame_speed_modifier fl.zero
          then record s.body { change_subaction = ChangeSubaction.infinite_loop }
          else s.body in
        record s { body = move_body stopped }

    module _ (t : Scripts F) where
      -- `for i in 0..self.call_stacks.len() { .. }`, each with the same fuel.
      unfoldable pub run_stacks :
          (fuel : ℕ)
          → List (CallStack F)
          → State F
          → Option (Outcome (List (CallStack F) × State F))
      run_stacks fuel [] s = some (ok ([], s))
      run_stacks fuel (stack ∷ stacks) s =
          and_then (run_calls fl t fuel stack.calls stack.wait_until s) λ (stack', s').
            and_then (run_stacks fuel stacks s') λ (stacks', s''). some (ok (stack' ∷ stacks', s''))

      -- The order in which a HashMap gives its values is not specified: it is `order`.
      module _ (order : List (CallEveryFrame F) → List (CallEveryFrame F)) where
        unfoldable pub frame_stacks : Runner F → List (CallStack F)
        unfolding thread_stacks
        frame_stacks r =
            r.call_stacks ++ thread_stacks (order (values r.state.flow.call_every_frame))

        -- The frame after the interrupts.
        unfoldable pub run_frame :
            (fuel frame_count : ℕ) → List (CallStack F) → State F → Option (Outcome (Runner F))
        unfolding end_frame
        run_frame fuel frame_count stacks s = and_then (run_stacks fuel stacks s) λ (stacks', s').
            some (
              ok (record {
                call_stacks = take 4 stacks';
                state = end_frame s';
                frame_count = frame_count;
              }))

        unfoldable pub step_script : (fuel : ℕ) → Runner F → Option (Outcome (Runner F))
        unfolding reset_state check_interrupts frame_stacks
        step_script fuel r =
            let s = reset_state r.state in
            and_then (some (check_interrupts s.vars s.body.interrupts s.body.change_subaction))
              λ change.
                run_frame fuel r.frame_count (frame_stacks r)
                  (record s { body = record s.body { change_subaction = change } })
