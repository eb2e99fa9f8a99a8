-- ===== src/ScriptRunner/Reaches.antt =====
-- Rounds of the loop of `step_script` in src/script_runner.rs over a call stack, one after the other.
use brawllib_rs.Prelude.{
  ℕ, suc, ◌+◌, ◌≡◌, refl, ap, ◌∙◌, Bool, true, false, Option, none, some, List, ◌∷◌, arith,
}
use brawllib_rs.Outcome.{ok}
use brawllib_rs.ScriptAst.Tree.{EventAst, Block, ElseBranch}
use brawllib_rs.ScriptRunner.Numbers.{Floats}
use brawllib_rs.ScriptRunner.State.{Scripts, Call, State}
use brawllib_rs.ScriptRunner.StepFlow.{StepEventResult}
use brawllib_rs.ScriptRunner.StepStack.{
  event_at, first_of, disable_execution, result_calls, result_wait, result_flow, resumes,
  process_event, end_calls, step_call, run_calls,
}
use brawllib_rs.ScriptRunner.Walk.{LeadsOn, next, returned, failed, registered, IsDue, StepsTo}
use brawllib_rs.ScriptRunner.Position.{first_at}

module _ {F : Type 0} (fl : Floats F) (t : Scripts F) (wait : F) where
  -- The loop takes a stack and a state to others in some rounds, with whatever fuel is left.
  pub record Reaches (cs : List (Call F)) (s : State F) (ds : List (Call F)) (s' : State F)
      : Type 0 where
    pub rounds : ℕ
    pub runs :
        (fuel : ℕ) → run_calls fl t (rounds + fuel) cs wait s ≡ run_calls fl t fuel ds wait s'

  pub Reaches-refl : (cs : List (Call F)) (s : State F) → Reaches cs s cs s
  Reaches-refl cs s = record {
    rounds = 0;
    runs = λ fuel.
        let same : 0 + fuel ≡ fuel = omega arith in ap (λ n. run_calls fl t n cs wait s) same;
  }

  pub Reaches-trans :
      {cs ds es : List (Call F)} {s s₁ s' : State F}
      → Reaches cs s ds s₁
      → Reaches ds s₁ es s'
      → Reaches cs s es s'
  Reaches-trans {cs} {s = s} p q = record {
    rounds = p.rounds + q.rounds;
    runs = λ fuel.
        let same : p.rounds + q.rounds + fuel ≡ p.rounds + (q.rounds + fuel) = omega arith in
        ap (λ n. run_calls fl t n cs wait s) same ∙ (p.runs (q.rounds + fuel) ∙ q.runs fuel);
  }

  step-Reaches :
      (c : Call F) (cs ds : List (Call F)) {s s' : State F}
      → IsDue fl t wait s
      → step_call fl t c cs wait s ≡ ok (record { calls = ds; wait_until = wait }, s')
      → Reaches (c ∷ cs) s ds s'
  unfolding run_calls
  step-Reaches c cs ds {s} {s'} due step = record {
    rounds = 1;
    runs = λ fuel.
        let same : 1 + fuel ≡ suc fuel = omega arith in
        ap (λ n. run_calls fl t n (c ∷ cs) wait s) same ∙ rw (due, step, run_calls) refl;
  }

  -- A call inside a block.
  abbrev pub call_at :
      Block F
      → Option ℕ
      → ElseBranch F
      → (subroutine external inside : Bool) → (index : ℕ) → (run : Bool) → Call F
  call_at block home else_branch sub x i j run = record {
    block = block;
    home = home;
    else_branch = else_branch;
    index = j;
    subroutine = sub;
    external = x;
    if_statement = i;
    execute = run;
  }

  module _ (block : Block F) (home : Option ℕ) (else_branch : ElseBranch F) (sub : Bool)
      (cs : List (Call F)) where
    abbrev pub here : (x i : Bool) (j : ℕ) (run : Bool) → List (Call F)
    here x i j run = call_at block home else_branch sub x i j run ∷ cs

    -- An event that is not executed.
    pub skip-Reaches :
        {x i run : Bool} {j : ℕ} {e : EventAst F} {s : State F}
        → IsDue fl t wait s
        → event_at block j ≡ some e
        → resumes fl e i s ≡ ok run
        → Reaches (here x i j false) s (here x i (suc j) run) s
    unfolding step_call process_event
    skip-Reaches due at r = step-Reaches _ _ _ due (rw (at, step_call) (rw (r) refl))

    -- An event that is executed, with what its result does to the stack.
    pub event-Reaches :
        {x i : Bool} {j : ℕ} {first : Option ℕ} {e : EventAst F} {r : StepEventResult F}
        {s s₁ : State F}
        → IsDue fl t wait s
        → event_at block j ≡ some e
        → first_at home j ≡ first
        → StepsTo fl t wait x first e s r s₁
        → result_wait r wait ≡ wait
        → Reaches
            (here x i j true)
            s
            (result_calls r (call_at block home else_branch sub x i (suc j) true) cs)
            (record s₁ { flow = result_flow r s₁.flow })
    unfolding step_call process_event first_of
    event-Reaches due at f r same =
        step-Reaches _ _ _ due (rw (at, step_call) (rw (f, r, same) refl))

    pub next-Reaches :
        {x i : Bool} {j : ℕ} {first : Option ℕ} {e : EventAst F} {r : StepEventResult F}
        {s s₁ : State F}
        → IsDue fl t wait s
        → event_at block j ≡ some e
        → first_at home j ≡ first
        → StepsTo fl t wait x first e s r s₁
        → LeadsOn r
        → Reaches
            (here x i j true)
            s
            (here x i (suc j) true)
            (record s₁ { flow = result_flow r s₁.flow })
    unfolding result_calls result_wait disable_execution
    next-Reaches due at f r next = event-Reaches due at f r refl
    next-Reaches due at f r returned = event-Reaches due at f r refl
    next-Reaches {i = true} due at f r failed = event-Reaches due at f r refl
    next-Reaches {i = false} due at f r failed = event-Reaches due at f r refl
    next-Reaches due at f r (registered _ _ _) = event-Reaches due at f r refl

    -- The last round of a block without an else branch, and with one.
    pub end-Reaches :
        {x i run : Bool} {j : ℕ} {s : State F}
        → IsDue fl t wait s
        → event_at block j ≡ none
        → Reaches (here x i j run) s (end_calls (call_at block home else_branch sub x i j run) cs) s
    unfolding step_call
    end-Reaches due at = step-Reaches _ _ _ due (rw (at, step_call) refl)
