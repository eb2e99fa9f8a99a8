-- ===== src/ScriptRunner/RunTests.antt =====
-- Frames of src/script_runner.rs on small scripts.
use mathlib.Core.Path.{subst}
use brawllib_rs.Prelude.{ℕ, ◌<◌, ◌≡◌, refl, false, some, List, [], ◌∷◌, arith}
use brawllib_rs.Outcome.{ok, Ends}
use brawllib_rs.ScriptAst.Tree.{EventAst, empty, cons}
use brawllib_rs.ScriptRunner.State.{Located, CallEveryFrame, State, plain_call}
use brawllib_rs.ScriptRunner.Work.{block_work, call_work, calls_work, rest_work, room, gotos_room}
use brawllib_rs.ScriptRunner.StepStack.{
  event_at, run_calls, step_call, first_of, process_event, step_event, result_calls, result_wait,
  result_flow, script_call, end_calls,
}
use brawllib_rs.ScriptRunner.StepVariables.{step_variables}
use brawllib_rs.ScriptRunner.HitBoxes.{step_boxes}
use brawllib_rs.ScriptRunner.StepBody.{step_body}
use brawllib_rs.ScriptRunner.Visibility.{ModelVisibility, invisible_bones}
use brawllib_rs.ScriptRunner.VisibilityLaws.{invisible_bones-none}
use brawllib_rs.ScriptRunner.Maps.{values}
use brawllib_rs.ScriptRunner.FrameEnds.{IsFrame, stacks_work}
use brawllib_rs.ScriptRunner.StepFlow.{
  is_in, step_flow, step_subroutine, external_script, all_scripts, section_of, callee_at,
  begins_with_event,
}
use brawllib_rs.ScriptRunner.NewState.{new_state, new_variables, first_ledge_grab}
use brawllib_rs.ScriptRunner.Run.{new, step, run_init, script_stacks, next_frame}
use brawllib_rs.ScriptRunner.StepScript.{
  Runner, step_script, end_frame, reset_state, run_frame, run_stacks, frame_stacks, thread_stacks,
  new_stack,
}
use brawllib_rs.ScriptRunner.RunEnds.{
  begins, StartsWith, StepsWith, frame_work, initial, IsRun-Ends,
}
use brawllib_rs.ScriptRunner.StackTests.{signed, scripts, bounds, scripts-IsBounded}

-- A subaction with one script, which calls the short one, then waits for a frame.
abbrev main : Located ℕ
main = record {
  address = 3;
  script = record {
    block =
        cons (EventAst.subroutine (record { offset = 5; origin = 0 }))
          (cons (EventAst.sync_wait 1) (cons EventAst.nop empty));
    offset = 9;
  };
}

-- A group of one reference has two bones, and the second default names a group that is not there.
abbrev visibility : ModelVisibility
visibility = record {
  references =
      record { bone_switches = record { groups = record { bones = 7 ∷ 8 ∷ [] } ∷ [] } ∷ [] } ∷ [];
  defaults =
      record { switch_index = 0; group_index = 0 }
      ∷ record { switch_index = 0xFFFFFFFF; group_index = 0 }
      ∷ [];
}

invisible_bones-none_example : invisible_bones visibility ≡ []
invisible_bones-none_example = invisible_bones-none visibility

abbrev as_listed : List (CallEveryFrame ℕ) → List (CallEveryFrame ℕ)
as_listed threads = threads

abbrev first_state : State ℕ
first_state = new_state signed (first_ledge_grab "Wait1") (invisible_bones visibility)

-- After the first frame, which waits for the next one.
abbrev first_runner : Runner ℕ
first_runner = record {
  call_stacks =
      record {
        calls = record (plain_call main.script.block (some 3) false) { index = 2 } ∷ [];
        wait_until = 1;
      }
      ∷ [];
  state = end_frame signed (reset_state first_state);
  frame_count = 0;
}

first_runner-new :
    new signed scripts as_listed 100 "Wait1" (main ∷ []) empty visibility ≡ some (ok first_runner)
unfolding new run_init step_script frame_stacks thread_stacks run_frame run_stacks run_calls
    step_call event_at first_of process_event step_event step_variables step_boxes step_body
    step_flow step_subroutine external_script all_scripts section_of callee_at begins_with_event
    result_calls result_wait result_flow script_call end_calls plain_call new_stack values
    new_variables new_state
first_runner-new = refl

initial-work :
    frame_work signed bounds scripts scripts-IsBounded as_listed "Wait1"
      (main ∷ [])
      empty
      visibility
      0
      []
      (initial signed bounds scripts scripts-IsBounded as_listed "Wait1"
        (main ∷ [])
        empty
        visibility
        0
        []
        first_state)
    ≡ 34
unfolding script_stacks frame_stacks thread_stacks values new_state stacks_work calls_work call_work
    rest_work block_work plain_call new_stack gotos_room room is_in
initial-work = refl

first_runner-starts :
    StartsWith signed bounds scripts scripts-IsBounded as_listed "Wait1"
      (main ∷ [])
      empty
      visibility
      0
      []
      100
unfolding run_init
first_runner-starts s same =
    let eq : first_state ≡ s = cc in
    subst
      (λ (x : State ℕ).
        frame_work signed bounds scripts scripts-IsBounded as_listed "Wait1" (main ∷ []) empty
          visibility 0 []
          (initial signed bounds scripts scripts-IsBounded as_listed "Wait1" (main ∷ []) empty
            visibility 0 [] x)
        < 100)
      eq (rw initial-work (omega arith))

next-work :
    (count : ℕ)
    → frame_work signed bounds scripts scripts-IsBounded as_listed "Wait1"
        (main ∷ [])
        empty
        visibility
        0
        []
        (next_frame signed 0 [] first_runner count)
      ≡ 12
unfolding next_frame end_frame reset_state first_ledge_grab frame_stacks thread_stacks values
    new_state stacks_work calls_work call_work rest_work block_work plain_call new_stack gotos_room
    room is_in
next-work count = refl

first_runner-steps :
    StepsWith signed bounds scripts scripts-IsBounded as_listed "Wait1"
      (main ∷ [])
      empty
      visibility
      0
      []
      first_runner
      100
first_runner-steps count same = rw (next-work count) (omega arith)

IsRun-Ends_example :
    Ends IsFrame (new signed scripts as_listed 100 "Wait1" (main ∷ []) empty visibility)
    × Ends IsFrame (step signed scripts as_listed 100 0 [] first_runner)
IsRun-Ends_example =
    IsRun-Ends signed bounds scripts scripts-IsBounded as_listed "Wait1" (main ∷ []) empty
      visibility 0 [] 100 100 first_runner first_runner-starts
      (begins 100 first_runner-starts first_runner-new) first_runner-steps
