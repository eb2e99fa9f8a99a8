-- ===== src/ScriptRunner/StackEnds.antt =====
-- The loop of `step_script` in src/script_runner.rs over one call stack ends, and how it ends.
use brawllib_rs.Prelude.{
  ℕ, zero, suc, ◌+◌, ◌<◌, ◌≤◌, ◌≡◌, refl, ◌⊎◌, inl, inr, Bool, true, false, Option, none, some,
  List, [], ◌∷◌, not, Bool-cases, arith,
}
use brawllib_rs.Outcome.{
  Outcome, ok, panic, ◌>>=◌, Post, returns, panics, Post-then, Post-bind, Post-mono, Ends,
}
use brawllib_rs.ScriptAst.Tree.{EventAst, ElseBranch, no_else, else_block}
use brawllib_rs.ScriptRunner.Numbers.{Floats}
use brawllib_rs.ScriptRunner.BoxLaws.{IsBoxes, step_boxes-IsBoxes}
use brawllib_rs.ScriptRunner.StepVariables.{step_variables}
use brawllib_rs.ScriptRunner.State.{Scripts, Call, CallStack, Flow, State, plain_call}
use brawllib_rs.ScriptRunner.StepBody.{step_body}
use brawllib_rs.ScriptRunner.StepFlow.{
  StepEventResult, new_for_loop, new_call, new_if_statement, if_statement_disable_execution, goto,
  subroutine, call_every_frame,
}
use brawllib_rs.ScriptRunner.StepStack.{
  event_at, first_of, rounds_of, script_call, disable_execution, result_calls, result_wait,
  result_flow, step_event, resumes, process_event, end_calls, step_call, run_calls,
}
use brawllib_rs.ScriptRunner.Work.{
  Bounds, event_work, else_work, call_work, calls_work, gotos_room, IsBounded, result_work,
  rest_work_start, rest_work-event_at, call_work-plain_call, calls_work-replicate,
}
use brawllib_rs.ScriptRunner.Descent.{step_flow-le}

module _ (B : Bounds) {F : Type 0} where
  disable_execution-work : (c : Call F) → call_work B (disable_execution c) ≡ call_work B c
  unfolding disable_execution call_work
  disable_execution-work c = elim (Bool-cases c.if_statement) [
    | inl e ↦ rw e refl
    | inr e ↦ rw e refl
  ]

  result_calls-le :
      (r : StepEventResult F) (c : Call F) (cs : List (Call F))
      → calls_work B (result_calls r c cs)
        ≤ result_work B c.external r + call_work B c + calls_work B cs
  unfolding result_calls result_work calls_work script_call else_work
  result_calls-le (new_for_loop block n) c cs =
      let call = plain_call block none c.external in
      rw
        (
          calls_work-replicate B (rounds_of n) call (c ∷ cs),
          call_work-plain_call B block none c.external,
        )
        (omega arith)
  result_calls-le (new_call block) c cs =
      omega (arith, call_work-plain_call B block none c.external)
  result_calls-le (new_if_statement then_branch else_branch execute) c cs =
      omega (arith, rest_work_start B c.external then_branch)
  result_calls-le if_statement_disable_execution c cs = omega (arith, disable_execution-work c)
  result_calls-le (goto x external) c cs =
      omega (arith, call_work-plain_call B x.script.block (some x.address) external)
  result_calls-le (subroutine x external) c cs =
      omega (arith, rest_work_start B external x.script.block)
  result_calls-le _ c cs = omega arith

  result_flow-visited :
      (r : StepEventResult F) (w : Flow F) → (result_flow r w).visited_gotos ≡ w.visited_gotos
  unfolding result_flow
  result_flow-visited (call_every_frame x external thread_id) w = refl
  result_flow-visited _ w = refl

  end_calls-lt :
      (c : Call F) (cs : List (Call F)) (e : ElseBranch F)
      → calls_work B (elim e as (λ _. List (Call F)) [
        | else_block block ↦
            record c {
              block = block;
              home = none;
              index = 0;
              else_branch = no_else;
              execute = not c.execute;
            }
            ∷ cs
        | no_else ↦ cs
      ])
        ≤ else_work B c.external e + calls_work B cs
  unfolding calls_work else_work
  end_calls-lt c cs no_else = omega arith
  end_calls-lt c cs (else_block block) = omega (arith, rest_work_start B c.external block)

  module _ (fl : Floats F) (t : Scripts F) (h : IsBounded B t) where
    -- The work of calls, and what is left to go to.
    abbrev pub left : List (Call F) → State F → ℕ
    left calls s = calls_work B calls + gotos_room B t s.flow.visited_gotos

    -- A round leaves at most so much, and keeps the boxes.
    abbrev Leaves : ℕ → CallStack F × State F → Type 0
    Leaves n (stack, s) = (left stack.calls s ≤ n) × IsBoxes s.boxes

    step_event-le :
        (x : Bool) (first : Option ℕ) (e : EventAst F) (s : State F)
        → IsBoxes s.boxes
        → Post
            (λ (p : StepEventResult F × State F).
              (result_work B x p.0 + gotos_room B t p.1.flow.visited_gotos
                ≤ event_work B x e + gotos_room B t s.flow.visited_gotos)
              × IsBoxes p.1.boxes)
            (step_event fl t x first e s)
    unfolding step_event
    step_event-le x first e s b = Post-then (step_variables fl s.vars e) λ vars.
        Post-bind (step_boxes-IsBoxes fl s.vars e s.boxes b) λ boxes b'.
          Post-then (step_body fl s.vars e s.body) λ body.
            Post-bind (step_flow-le B t h fl s.vars x first e s.flow) λ p bound. returns (bound, b')

    module _ (first : Option ℕ) (e : EventAst F) (c : Call F) (cs : List (Call F)) (wait : F)
        (s : State F) (b : IsBoxes s.boxes) where
      -- What the event and the rest of the stack may leave.
      abbrev bound : ℕ
      bound = event_work B c.external e + (call_work B c + left cs s)

      result-Leaves :
          (p : StepEventResult F × State F)
          → (result_work B c.external p.0 + gotos_room B t p.1.flow.visited_gotos
              ≤ event_work B c.external e + gotos_room B t s.flow.visited_gotos)
            × IsBoxes p.1.boxes
          → Leaves bound (
            record { calls = result_calls p.0 c cs; wait_until = result_wait p.0 wait },
            record p.1 { flow = result_flow p.0 p.1.flow },
          )
      result-Leaves (r, s') k =
          let visited = result_flow-visited r s'.flow in
          (rw visited (omega (arith, k.0, result_calls-le r c cs)), k.1)

      resumed-work : (x : Bool) → call_work B (record c { execute = x }) ≡ call_work B c
      unfolding call_work
      resumed-work x = refl

      executed-le :
          (x : Bool)
          → Post (Leaves bound) (elim x as (λ _. Outcome (CallStack F × State F)) [
            | true ↦ step_event fl t c.external first e s >>= λ (result, s'). ok (
              record { calls = result_calls result c cs; wait_until = result_wait result wait },
              record s' { flow = result_flow result s'.flow },
            )
            | false ↦ resumes fl e c.if_statement s >>= λ b.
                ok (record { calls = record c { execute = b } ∷ cs; wait_until = wait }, s)
          ])
      unfolding calls_work
      executed-le true =
          Post-bind (step_event-le c.external first e s b) λ p k. returns (result-Leaves p k)
      executed-le false =
          Post-then (resumes fl e c.if_statement s) λ x. returns (omega (arith, resumed-work x), b)

      process_event-le : Post (Leaves bound) (process_event fl t first e c cs wait s)
      unfolding process_event
      process_event-le = executed-le c.execute

    module _ (c : Call F) (cs : List (Call F)) (wait : F) (s : State F) (b : IsBoxes s.boxes) where
      passed-work :
          {e : EventAst F}
          → event_at c.block c.index ≡ some e
          → call_work B c
            ≡ suc (event_work B c.external e + call_work B (record c { index = suc c.index }))
      unfolding call_work
      passed-work {e} found =
          omega (arith, rest_work-event_at B c.external c.block c.index {e = e} found)

      ended-work : calls_work B (end_calls c cs) < call_work B c + calls_work B cs
      unfolding end_calls call_work
      ended-work = omega (arith, end_calls-lt c cs c.else_branch)

      -- A round leaves less than there was.
      abbrev Lowers : CallStack F × State F → Type 0
      Lowers (stack, s') = (left stack.calls s' < left (c ∷ cs) s) × IsBoxes s'.boxes

      found-Lowers :
          (found : Option (EventAst F))
          → event_at c.block c.index ≡ found
          → Post Lowers (elim found as (λ _. Outcome (CallStack F × State F)) [
            | some e ↦
                process_event fl t (first_of c) e (record c { index = suc c.index }) cs wait s
            | none ↦ ok (record { calls = end_calls c cs; wait_until = wait }, s)
          ])
      unfolding calls_work
      found-Lowers none e = returns (omega (arith, ended-work), b)
      found-Lowers (some e) found =
          Post-mono (process_event-le (first_of c) e (record c { index = suc c.index }) cs wait s b)
            λ p k. (omega (arith, k.0, passed-work found), k.1)

      step_call-Lowers : Post Lowers (step_call fl t c cs wait s)
      unfolding step_call
      step_call-Lowers = found-Lowers (event_at c.block c.index) refl

    -- A stack that is left: it is empty, or it waits.
    abbrev pub IsHalted : CallStack F × State F → Type 0
    IsHalted (stack, s) = (stack.calls ≡ []) ⊎ (fl.lt s.vars.frame_index stack.wait_until ≡ true)

    abbrev pub Halts : ℕ → CallStack F × State F → Type 0
    Halts n p = IsHalted p × IsBoxes p.1.boxes × (left p.0.calls p.1 ≤ n)

    next-Runs :
        (n fuel : ℕ) {Q : CallStack F × State F → Type 0} (m : Outcome (CallStack F × State F))
        → Post Q m
        → ((p : CallStack F × State F)
            → Q p
            → Ends (Halts n) (run_calls fl t fuel p.0.calls p.0.wait_until p.1))
        → Ends (Halts n) (elim m as (λ _. Option (Outcome (CallStack F × State F))) [
          | panic ↦ some panic
          | ok (stack, s') ↦ run_calls fl t fuel stack.calls stack.wait_until s'
        ])
    next-Runs n fuel (ok p) (returns q) go = go p q
    next-Runs n fuel panic panics go = (panic, refl, panics)

    waits-Runs :
        (n fuel : ℕ) (c : Call F) (cs : List (Call F)) (wait : F) (s : State F) (waits : Bool)
        → fl.lt s.vars.frame_index wait ≡ waits
        → IsBoxes s.boxes
        → left (c ∷ cs) s ≤ n
        → ((p : CallStack F × State F)
            → (left p.0.calls p.1 < left (c ∷ cs) s) × IsBoxes p.1.boxes
            → Ends (Halts n) (run_calls fl t fuel p.0.calls p.0.wait_until p.1))
        → Ends (Halts n) (elim waits as (λ _. Option (Outcome (CallStack F × State F))) [
          | true ↦ some (ok (record { calls = c ∷ cs; wait_until = wait }, s))
          | false ↦
              elim (step_call fl t c cs wait s) as (λ _. Option (Outcome (CallStack F × State F))) [
                | panic ↦ some panic
                | ok (stack, s') ↦ run_calls fl t fuel stack.calls stack.wait_until s'
              ]
        ])
    waits-Runs n fuel c cs wait s true e b k go = (_, refl, returns (inr e, b, k))
    waits-Runs n fuel c cs wait s false e b k go =
        next-Runs n fuel (step_call fl t c cs wait s) (step_call-Lowers c cs wait s b) go

    -- Where every script has a cost above its work, which the calls of subroutines count, and with more
    -- fuel than there is work and room for gotos, a call stack is run to its end: it panics, or it is empty or
    -- waits for a later frame. The slots of the collision boxes are kept, and so is the bound on what
    -- is left to do.
    pub run_calls-Ends :
        (n fuel : ℕ) (calls : List (Call F)) (wait : F) (s : State F)
        → IsBoxes s.boxes
        → left calls s ≤ n
        → left calls s < fuel
        → Ends (Halts n) (run_calls fl t fuel calls wait s)
    unfolding run_calls
    run_calls-Ends n zero calls wait s b k enough = absurd (omega (arith, enough))
    run_calls-Ends n (suc fuel) [] wait s b k enough = (_, refl, returns (inl refl, b, k))
    run_calls-Ends n (suc fuel) (c ∷ cs) wait s b k enough =
        waits-Runs n fuel c cs wait s (fl.lt s.vars.frame_index wait) refl b k λ p q.
          run_calls-Ends n fuel p.0.calls p.0.wait_until p.1 q.1 (omega (arith, k, q.0))
            (omega (arith, enough, q.0))
