-- ===== src/ScriptRunner/Recursion.antt =====
-- The loop of `step_script` in src/script_runner.rs does not end on subroutines that call each other.
use brawllib_rs.Prelude.{ℕ, zero, suc, ◌≡◌, refl, Bool, true, false, none, some, List, ◌∷◌}
use brawllib_rs.Outcome.{ok}
use brawllib_rs.Script.Argument.{Offset}
use brawllib_rs.ScriptAst.Tree.{EventAst}
use brawllib_rs.ScriptRunner.Numbers.{Floats}
use brawllib_rs.ScriptRunner.HitBoxes.{step_boxes}
use brawllib_rs.ScriptRunner.StepVariables.{step_variables}
use brawllib_rs.ScriptRunner.State.{Located, Scripts, Call, State, plain_call}
use brawllib_rs.ScriptRunner.StepBody.{step_body}
use brawllib_rs.ScriptRunner.StepFlow.{subroutine, step_subroutine, step_flow}
use brawllib_rs.ScriptRunner.StepStack.{
  event_at, first_of, script_call, result_calls, result_wait, result_flow, step_event,
  process_event, step_call, run_calls,
}

module _ {F : Type 0} (fl : Floats F) (t : Scripts F) (external : Bool) where
  -- A script that begins with a subroutine event, which leads to another one.
  pub record Leads (a b : Located F) : Type 0 where
    pub offset : Offset
    pub begins : event_at a.script.block 0 ≡ some (EventAst.subroutine offset)
    pub leads : step_subroutine t external (some a.address) offset ≡ subroutine b external

  abbrev pub callee : Located F → Call F
  callee b = record (script_call b external) { subroutine = true }

  step_call-Leads :
      (a b : Located F) (cs : List (Call F)) (wait : F) (s : State F)
      → Leads a b
      → (c : Call F) × (step_call fl t (callee a) cs wait s
          ≡ ok (record { calls = callee b ∷ c ∷ cs; wait_until = wait }, s))
  unfolding step_call script_call plain_call first_of process_event step_event step_variables
      step_boxes step_body step_flow result_calls result_wait result_flow
  step_call-Leads a b cs wait s l =
      (record (callee a) { index = 1 }, rw (l.begins, step_call) (rw (l.leads) refl))

  -- Two scripts of which each begins with a subroutine event that leads to the other are run for ever,
  -- unless the stack waits: no fuel is enough, from a call of one of them on.
  pub run_calls-recursive :
      (a b : Located F) (wait : F) (s : State F)
      → Leads a b
      → Leads b a
      → fl.lt s.vars.frame_index wait ≡ false
      → (fuel : ℕ) (cs : List (Call F)) → run_calls fl t fuel (callee a ∷ cs) wait s ≡ none
  unfolding run_calls
  run_calls-recursive a b wait s l k late zero cs = refl
  run_calls-recursive a b wait s l k late (suc fuel) cs =
      let (c, next) = step_call-Leads a b cs wait s l in
      rw (late, next, run_calls) (run_calls-recursive b a wait s k l late fuel (c ∷ cs))
