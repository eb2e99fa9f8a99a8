-- ===== src/ScriptRunner/Walk.antt =====
-- What the scripts of src/script_runner.rs mean without call stacks: a walk over the tree of a script, for
-- events that do not wait.
use brawllib_rs.Prelude.{ℕ, zero, suc, ◌≡◌, Bool, true, false, not, Option, none, some}
use brawllib_rs.Outcome.{ok}
use brawllib_rs.ScriptAst.Tree.{EventAst, Block, empty, cons, ElseBranch, no_else, else_block}
use brawllib_rs.ScriptRunner.Numbers.{Floats}
use brawllib_rs.ScriptRunner.State.{Located, Scripts, State}
use brawllib_rs.ScriptRunner.StepFlow.{
  StepEventResult, new_for_loop, new_call, new_if_statement, if_statement_disable_execution,
  subroutine, call_every_frame, goto, return, nothing,
}
use brawllib_rs.ScriptRunner.StepStack.{rounds_of, result_flow, resumes, step_event}

-- A result that leads to the next event. That a failed test does so too is what the code does.
pub data LeadsOn {F : Type 0} : StepEventResult F → Type 0 where
  next : LeadsOn nothing
  returned : LeadsOn return
  failed : LeadsOn if_statement_disable_execution
  registered :
      (script : Located F) (external : Bool) (thread_id : ℕ)
      → LeadsOn (call_every_frame script external thread_id)

-- How a block is left: at its end, with execution or without it, or by a goto.
pub data Exit : Type 0 where
  ended : (run : Bool) → Exit
  gone : Exit

module _ {F : Type 0} (fl : Floats F) (t : Scripts F) (wait : F) where
  -- The stack does not wait.
  abbrev pub IsDue : State F → Type 0
  IsDue s = fl.lt s.vars.frame_index wait ≡ false

  abbrev pub StepsTo : Bool → Option ℕ → EventAst F → State F → StepEventResult F → State F → Type 0
  StepsTo x first e s r s' = step_event fl t x first e s ≡ ok (r, s')

  mutual
    -- The events of a block take a state to another one, where `run` says whether they are executed
    -- before. `inside` is true in the branches of a condition, `first` the script that the
    -- first event begins.
    pub data Walks
        : (x inside : Bool) (first : Option ℕ) (run : Bool)
          → Block F
          → State F
          → Exit
          → State F
          → Type 0 where
      ends :
          {x i : Bool} {first : Option ℕ} {run : Bool} {s : State F}
          → IsDue s
          → Walks x i first run empty s (ended run) s
      skips :
          {x i : Bool} {first : Option ℕ} {e : EventAst F} {es : Block F} {s s' : State F}
          {run : Bool} {exit : Exit}
          → IsDue s
          → resumes fl e i s ≡ ok run
          → Walks x i none run es s exit s'
          → Walks x i first false (cons e es) s exit s'
      steps :
          {x i : Bool} {first : Option ℕ} {e : EventAst F} {es : Block F} {s s₁ s' : State F}
          {exit : Exit} {r : StepEventResult F}
          → IsDue s
          → StepsTo x first e s r s₁
          → LeadsOn r
          → Walks x i none true es (record s₁ { flow = result_flow r s₁.flow }) exit s'
          → Walks x i first true (cons e es) s exit s'
      loops :
          {x i : Bool} {first : Option ℕ} {e : EventAst F} {es block : Block F}
          {s s₁ s₂ s' : State F} {exit : Exit} {n : ℕ}
          → IsDue s
          → StepsTo x first e s (new_for_loop block n) s₁
          → Repeats x (rounds_of n) block s₁ s₂
          → Walks x i none true es s₂ exit s'
          → Walks x i first true (cons e es) s exit s'
      calls :
          {x i : Bool} {first : Option ℕ} {e : EventAst F} {es block : Block F}
          {s s₁ s₂ s' : State F} {exit : Exit}
          → IsDue s
          → StepsTo x first e s (new_call block) s₁
          → Repeats x 1 block s₁ s₂
          → Walks x i none true es s₂ exit s'
          → Walks x i first true (cons e es) s exit s'
      branches :
          {x i : Bool} {first : Option ℕ} {e : EventAst F} {es then_branch : Block F}
          {else_branch : ElseBranch F} {s s₁ s₂ s' : State F} {run : Bool} {exit : Exit}
          → IsDue s
          → StepsTo x first e s (new_if_statement then_branch else_branch run) s₁
          → Chooses x then_branch else_branch run s₁ s₂
          → Walks x i none true es s₂ exit s'
          → Walks x i first true (cons e es) s exit s'
      enters :
          {x y i : Bool} {first : Option ℕ} {e : EventAst F} {es : Block F} {script : Located F}
          {s s₁ s₂ s' : State F} {inner exit : Exit}
          → IsDue s
          → StepsTo x first e s (subroutine script y) s₁
          → Walks y false (some script.address) true script.script.block s₁ inner s₂
          → Walks x i none true es s₂ exit s'
          → Walks x i first true (cons e es) s exit s'
      -- The rest of the block is not run, and its else branch neither.
      goes :
          {x y i : Bool} {first : Option ℕ} {e : EventAst F} {es : Block F} {script : Located F}
          {s s₁ s' : State F} {inner : Exit}
          → IsDue s
          → StepsTo x first e s (goto script y) s₁
          → Walks y false (some script.address) true script.script.block s₁ inner s'
          → Walks x i first true (cons e es) s gone s'

    -- A block that is walked a number of times.
    pub data Repeats : (x : Bool) → ℕ → Block F → State F → State F → Type 0 where
      never : {x : Bool} {block : Block F} {s : State F} → Repeats x zero block s s
      again :
          {x : Bool} {block : Block F} {n : ℕ} {s s₁ s' : State F} {exit : Exit}
          → Walks x false none true block s exit s₁
          → Repeats x n block s₁ s'
          → Repeats x (suc n) block s s'

    -- The branches of a condition. After one that ends with execution the other one is walked without,
    -- and after one without it with.
    pub data Chooses : (x : Bool) → Block F → ElseBranch F → Bool → State F → State F → Type 0 where
      alone :
          {x run : Bool} {exit : Exit} {then_branch : Block F} {s s' : State F}
          → Walks x true none run then_branch s exit s'
          → Chooses x then_branch no_else run s s'
      either :
          {x run run₁ : Bool} {exit : Exit} {then_branch block : Block F} {s s₁ s' : State F}
          → Walks x true none run then_branch s (ended run₁) s₁
          → Walks x true none (not run₁) block s₁ exit s'
          → Chooses x then_branch (else_block block) run s s'
      leaves :
          {x run : Bool} {then_branch : Block F} {else_branch : ElseBranch F} {s s' : State F}
          → Walks x true none run then_branch s gone s'
          → Chooses x then_branch else_branch run s s'
