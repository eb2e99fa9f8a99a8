-- ===== src/ScriptRunner/StackTests.antt =====
-- Call stacks of src/script_runner.rs on small scripts, with f32 taken as ℕ and a negative number as 0.
use brawllib_rs.Prelude.{
  Option, some, Bool, true, ◌+◌, ℕ, ◌^◌, ◌≡◌, refl, false, none, [], ◌∷◌, ltb, if◌then◌else◌, arith,
}
use brawllib_rs.Outcome.{Ends}
use brawllib_rs.ScriptAst.Switches.{LedgeGrabEnable}
use brawllib_rs.ScriptAst.Tree.{EventAst, Block, empty, cons, Iterations}
use brawllib_rs.ScriptRunner.Numbers.{Floats}
use brawllib_rs.ScriptRunner.Tests.{numbers, boxes, boxes-IsBoxes}
use brawllib_rs.ScriptRunner.State.{Located, Scripts, State, plain_call}
use brawllib_rs.ScriptRunner.Work.{
  Bounds, IsBounded, block_work, call_work, calls_work, rest_work, room, gotos_room,
}
use brawllib_rs.ScriptRunner.StackEnds.{left, Halts, run_calls-Ends}
use brawllib_rs.ScriptRunner.StepStack.{event_at, rounds_of, run_calls}
use brawllib_rs.ScriptRunner.StepFlow.{
  is_in, step_subroutine, external_script, all_scripts, section_of, callee_at, begins_with_event,
}
use brawllib_rs.ScriptRunner.Walk.{
  ended, Walks, next, ends, skips, steps, loops, branches, enters, never, again, either,
}
use brawllib_rs.ScriptRunner.WalkLaws.{Walks-run_calls}
use brawllib_rs.ScriptRunner.StepStack.{step_event, resumes, result_flow}
use brawllib_rs.ScriptRunner.StepVariables.{step_variables}
use brawllib_rs.ScriptRunner.HitBoxes.{step_boxes}
use brawllib_rs.ScriptRunner.StepBody.{step_body, test_holds}
use brawllib_rs.ScriptRunner.StepFlow.{step_flow}
use brawllib_rs.ScriptRunner.Expressions.{evaluate_expression, unwrap_bool}
use brawllib_rs.ScriptAst.Tree.{else_block}
use brawllib_rs.ScriptAst.Expression.{Expression}
use brawllib_rs.ScriptRunner.Recursion.{Leads, callee, run_calls-recursive}
use brawllib_rs.ScriptRunner.NewState.{new_state, new_variables}

abbrev pub signed : Floats ℕ
signed = record numbers { of_i32 = λ x. if ltb x (2 ^ 31) then x else 0 }

-- The script at 5 of a fighter, and a block that calls it.
abbrev pub short : Located ℕ
short = record { address = 1; script = record { block = cons EventAst.nop empty; offset = 5 } }

abbrev pub scripts : Scripts ℕ
scripts = record { fighter_scripts = short ∷ []; common_scripts = []; section_scripts = [] }

abbrev pub bounds : Bounds
bounds = record { cost = λ external offset. 10; section_cost = 10; goto_cost = 10 }

pub scripts-IsBounded : IsBounded bounds scripts
unfolding block_work
scripts-IsBounded = record {
  fighter_calls = (omega arith, tt);
  common_calls = tt;
  sections = tt;
  fighter_gotos = (omega arith, tt);
  common_gotos = tt;
}

abbrev calling : Block ℕ
calling =
    cons (EventAst.for_loop (Iterations.finite 2) (cons EventAst.nop empty))
      (cons (EventAst.subroutine (record { offset = 5; origin = 0 })) empty)

abbrev fresh : State ℕ
fresh = record (new_state signed LedgeGrabEnable.disable []) { boxes = boxes }

calling-left :
    left bounds signed scripts scripts-IsBounded (plain_call calling none false ∷ []) fresh ≡ 37
unfolding new_state calls_work call_work rest_work block_work plain_call gotos_room room is_in
    rounds_of
calling-left = refl

run_calls-Ends_example :
    Ends
      (Halts bounds signed scripts scripts-IsBounded 40)
      (run_calls signed scripts 50 (plain_call calling none false ∷ []) 0 fresh)
run_calls-Ends_example =
    run_calls-Ends bounds signed scripts scripts-IsBounded 40 50
      (plain_call calling none false ∷ []) 0 fresh boxes-IsBoxes (rw calling-left (omega arith))
      (rw calling-left (omega arith))

-- Two scripts that call each other.
abbrev ping : Located ℕ
ping = record {
  address = 1;
  script = record {
    block = cons (EventAst.subroutine (record { offset = 6; origin = 0 })) empty;
    offset = 5;
  };
}

abbrev pong : Located ℕ
pong = record {
  address = 2;
  script = record {
    block = cons (EventAst.subroutine (record { offset = 5; origin = 0 })) empty;
    offset = 6;
  };
}

abbrev mutually : Scripts ℕ
mutually = record { fighter_scripts = ping ∷ pong ∷ []; common_scripts = []; section_scripts = [] }

ping-Leads : Leads signed mutually false ping pong
unfolding event_at step_subroutine external_script all_scripts section_of callee_at
    begins_with_event
ping-Leads = record { offset = record { offset = 6; origin = 0 }; begins = refl; leads = refl }

pong-Leads : Leads signed mutually false pong ping
unfolding event_at step_subroutine external_script all_scripts section_of callee_at
    begins_with_event
pong-Leads = record { offset = record { offset = 5; origin = 0 }; begins = refl; leads = refl }

fresh-late : signed.lt fresh.vars.frame_index 0 ≡ false
unfolding new_state new_variables
fresh-late = refl

run_calls-recursive_example :
    run_calls signed mutually 1000 (callee signed mutually false ping ∷ []) 0 fresh ≡ none
run_calls-recursive_example =
    run_calls-recursive signed mutually false ping pong 0 fresh ping-Leads pong-Leads fresh-late
      1000 []

-- A condition that holds, a loop of one round and a subroutine.
abbrev tour : Block ℕ
tour =
    cons
      (EventAst.if_statement (Expression.value 1) (cons EventAst.nop empty)
        (else_block (cons EventAst.nop empty)))
      (cons (EventAst.for_loop (Iterations.finite 1) (cons EventAst.nop empty))
        (cons (EventAst.subroutine (record { offset = 5; origin = 0 })) empty))

nop-Walks :
    (x inside : Bool) (first : Option ℕ)
    → Walks signed scripts 0 x inside first true (cons EventAst.nop empty) fresh (ended true) fresh
unfolding step_event step_variables step_boxes step_body step_flow result_flow new_state
    new_variables
nop-Walks x inside first = steps refl refl next (ends refl)

tour-Walks : Walks signed scripts 0 false false none true tour fresh (ended true) fresh
unfolding step_event step_variables step_boxes step_body step_flow result_flow new_state
    new_variables test_holds evaluate_expression unwrap_bool resumes rounds_of step_subroutine
    external_script all_scripts section_of callee_at begins_with_event
tour-Walks = branches refl refl (either (nop-Walks false true none) (skips refl refl (ends refl))) (
    loops refl refl (again (nop-Walks false false none) never)
      (enters refl refl (nop-Walks false false (some 1)) (ends refl)))

Walks-run_calls_example :
    (rounds : ℕ) × ((fuel : ℕ)
      → run_calls signed scripts (rounds + fuel) (plain_call tour none false ∷ []) 0 fresh
        ≡ run_calls signed scripts fuel [] 0 fresh)
Walks-run_calls_example =
    Walks-run_calls signed scripts 0 tour none false [] (ended true) fresh fresh tour-Walks
