-- ===== src/ScriptRunner/Descent.antt =====
-- An event of src/script_runner.rs leads to no more work than it stands for.
use brawllib_rs.Prelude.{
  ℕ, ◌+◌, ◌<◌, ◌≤◌, ◌≡◌, refl, Bool, true, false, Option, none, some, List, ◌∷◌, Bool-cases, inl,
  inr, if◌then◌else◌, arith,
}
use brawllib_rs.Outcome.{Post, returns, Post-then}
use brawllib_rs.Script.Argument.{Offset}
use brawllib_rs.ScriptAst.Tree.{EventAst, Block, Iterations, finite, infinite}
use brawllib_rs.ScriptRunner.Numbers.{Floats}
use brawllib_rs.ScriptRunner.Variables.{Variables}
use brawllib_rs.ScriptRunner.State.{Located, Scripts, Flow}
use brawllib_rs.ScriptRunner.StepBody.{test_holds}
use brawllib_rs.ScriptRunner.StepFlow.{
  StepEventResult, if_statement_disable_execution, nothing, is_in, section_of, script_at, callee_at,
  external_script, all_scripts, step_subroutine, goto_script, step_goto, step_call_every_frame,
  step_flow,
}
use brawllib_rs.ScriptRunner.Work.{
  Bounds, section_work, event_work, block_work, gotos_room, IsBounded, result_work,
}
use brawllib_rs.ScriptRunner.WorkLaws.{
  AllFound, section_of-All, script_at-All, callee_at-All, room-le, room-script_at,
}

module _ (B : Bounds) {F : Type 0} where
  abbrev Costs : Bool → ℕ → Located F → Type 0
  Costs x k s = block_work B x s.script.block < k

  -- A subroutine that is found, or none.
  callee-le :
      (x y : Bool) (k : ℕ) (found : Option (Located F))
      → AllFound (Costs y k) found
      → result_work B x (elim found as (λ _. StepEventResult F) [
        | some s ↦ StepEventResult.subroutine s y
        | none ↦ nothing
      ])
        ≤ k
  unfolding result_work
  callee-le x y k none h = omega arith
  callee-le x y k (some s) h = omega (arith, h)

  module _ (t : Scripts F) (h : IsBounded B t) where
    subroutine_callee-le :
        (x : Bool) (first : Option ℕ) (o : Offset)
        → AllFound (Costs x (B.cost x o.offset)) (callee_at first o.offset (all_scripts t x))
    unfolding all_scripts
    subroutine_callee-le true first o =
        callee_at-All (λ k s. Costs true (B.cost true k) s) first o.offset t.common_scripts
          h.common_calls
    subroutine_callee-le false first o =
        callee_at-All (λ k s. Costs false (B.cost false k) s) first o.offset t.fighter_scripts
          h.fighter_calls

    section-le :
        (x : Bool) (first : Option ℕ) (o : Offset) (found : Option (Located F))
        → AllFound (Costs true B.section_cost) found
        → result_work B x (elim found as (λ _. StepEventResult F) [
          | some s ↦ StepEventResult.subroutine s true
          | none ↦
              elim (callee_at first o.offset (all_scripts t false)) as (λ _. StepEventResult F) [
                | some s ↦ StepEventResult.subroutine s false
                | none ↦ nothing
              ]
        ])
          ≤ B.cost false o.offset + B.section_cost
    unfolding result_work
    section-le x first o none k =
        let callee =
          callee-le x false (B.cost false o.offset) (callee_at first o.offset (all_scripts t false))
            (subroutine_callee-le false first o) in
        omega (arith, callee)
    section-le x first o (some s) k = omega (arith, k)

    subroutine-le :
        (x : Bool) (first : Option ℕ) (o : Offset)
        → result_work B x (step_subroutine t x first o) ≤ B.cost x o.offset + section_work B x
    unfolding step_subroutine external_script
    subroutine-le true first o =
        let callee =
          callee-le true true (B.cost true o.offset) (callee_at first o.offset (all_scripts t true))
            (subroutine_callee-le true first o) in
        omega (arith, callee)
    subroutine-le false first o =
        section-le false first o (section_of o.origin t.section_scripts)
          (section_of-All (Costs true B.section_cost) o.origin t.section_scripts h.sections)

    -- What an event leads to, and what is left to go to after it.
    abbrev pub after : Bool → StepEventResult F × Flow F → ℕ
    after x (r, w) = result_work B x r + gotos_room B t w.visited_gotos

    gotos_room-le :
        (o : ℕ) (visited : List ℕ) → gotos_room B t (o ∷ visited) ≤ gotos_room B t visited
    unfolding gotos_room
    gotos_room-le o visited =
        omega (arith, room-le B t.fighter_scripts o visited, room-le B t.common_scripts o visited)

    gotos_room-script_at :
        (x : Bool) (o : ℕ) (visited : List ℕ) {s : Located F}
        → is_in o visited ≡ false
        → script_at o (all_scripts t x) ≡ some s
        → gotos_room B t (o ∷ visited) + B.goto_cost ≤ gotos_room B t visited
    unfolding gotos_room all_scripts
    gotos_room-script_at true o visited {s} new found = omega (
      arith,
      room-le B t.fighter_scripts o visited,
      room-script_at B t.common_scripts o visited {x = s} new found,
    )
    gotos_room-script_at false o visited {s} new found = omega (
      arith,
      room-le B t.common_scripts o visited,
      room-script_at B t.fighter_scripts o visited {x = s} new found,
    )

    goto-Costs : (x : Bool) (o : ℕ) → AllFound (Costs x B.goto_cost) (script_at o (all_scripts t x))
    unfolding all_scripts
    goto-Costs true o = script_at-All (Costs true B.goto_cost) o t.common_scripts h.common_gotos
    goto-Costs false o = script_at-All (Costs false B.goto_cost) o t.fighter_scripts h.fighter_gotos

    -- A script that is gone to takes the room that it leaves.
    gone-le :
        (x : Bool) (o : Offset) (w : Flow F) (found : Option (Located F))
        → is_in o.offset w.visited_gotos ≡ false
        → script_at o.offset (all_scripts t x) ≡ found
        → AllFound (Costs x B.goto_cost) found
        → after x (elim found as (λ _. StepEventResult F × Flow F) [
          | some s ↦
              (StepEventResult.goto s x, record w { visited_gotos = o.offset ∷ w.visited_gotos })
          | none ↦ (nothing, record w { visited_gotos = o.offset ∷ w.visited_gotos })
        ])
          ≤ gotos_room B t w.visited_gotos
    unfolding result_work
    gone-le x o w none new e k = omega (arith, gotos_room-le o.offset w.visited_gotos)
    gone-le x o w (some s) new e k =
        omega (arith, k, gotos_room-script_at x o.offset w.visited_gotos {s = s} new e)

    goto_script-le :
        (x : Bool) (o : Offset) (w : Flow F)
        → after x (goto_script t x o w) ≤ gotos_room B t w.visited_gotos
    unfolding goto_script result_work
    goto_script-le x o w = elim (Bool-cases (is_in o.offset w.visited_gotos)) [
      | inl e ↦ rw (e, goto_script) (omega arith)
      | inr e ↦
          let bound =
            gone-le x o w (script_at o.offset (all_scripts t x)) e refl (goto-Costs x o.offset) in
          rw (e, goto_script) bound
    ]

    section_goto-le :
        (o : Offset) (w : Flow F) (found : Option (Located F))
        → AllFound (Costs true B.section_cost) found
        → after false (elim found as (λ _. StepEventResult F × Flow F) [
          | some s ↦ (StepEventResult.goto s true, w)
          | none ↦ goto_script t false o w
        ])
          ≤ B.section_cost + gotos_room B t w.visited_gotos
    unfolding result_work
    section_goto-le o w none k = omega (arith, goto_script-le false o w)
    section_goto-le o w (some s) k = omega (arith, k)

    goto-le :
        (x : Bool) (o : Offset) (w : Flow F)
        → after x (step_goto t x o w) ≤ section_work B x + gotos_room B t w.visited_gotos
    unfolding step_goto external_script
    goto-le true o w = omega (arith, goto_script-le true o w)
    goto-le false o w =
        section_goto-le o w (section_of o.origin t.section_scripts)
          (section_of-All (Costs true B.section_cost) o.origin t.section_scripts h.sections)

    thread-work :
        (x : Bool) (thread_id : ℕ) (o : Offset)
        → result_work B x (step_call_every_frame t x thread_id o) ≡ 0
    unfolding step_call_every_frame result_work
    thread-work x thread_id o =
        elim (external_script t x o)
          as (λ found.
            result_work B x (elim found as (λ _. StepEventResult F) [
              | some s ↦ StepEventResult.call_every_frame s true thread_id
              | none ↦ elim (script_at o.offset (all_scripts t x)) as (λ _. StepEventResult F) [
                | some s ↦ StepEventResult.call_every_frame s x thread_id
                | none ↦ nothing
              ]
            ])
            ≡ 0) [
              | some s ↦ refl
              | none ↦
                  elim (script_at o.offset (all_scripts t x))
                    as (λ found.
                      result_work B x (elim found as (λ _. StepEventResult F) [
                        | some s ↦ StepEventResult.call_every_frame s x thread_id
                        | none ↦ nothing
                      ])
                      ≡ 0) [ some s ↦ refl | none ↦ refl ]
            ]

    loop-le :
        (fl : Floats F) (s : Variables F) (x : Bool) (first : Option ℕ) (i : Iterations)
        (b : Block F) (w : Flow F)
        → Post
            (λ (p : StepEventResult F × Flow F).
              after x p ≤ event_work B x (EventAst.for_loop i b) + gotos_room B t w.visited_gotos)
            (step_flow t fl s x first (EventAst.for_loop i b) w)
    unfolding step_flow event_work result_work
    loop-le fl s x first (finite n) b w = returns (omega arith)
    loop-le fl s x first infinite b w = returns (omega arith)

    disable-work :
        (x b : Bool)
        → result_work B x
            (if◌then◌else◌ {A = StepEventResult F} b nothing if_statement_disable_execution)
          ≡ 0
    unfolding result_work
    disable-work x true = refl
    disable-work x false = refl

    -- The work of what an event leads to is that of the event, but for gotos, which take room.
    pub step_flow-le :
        (fl : Floats F) (s : Variables F) (x : Bool) (first : Option ℕ) (e : EventAst F)
        (w : Flow F)
        → Post
            (λ (p : StepEventResult F × Flow F).
              after x p ≤ event_work B x e + gotos_room B t w.visited_gotos)
            (step_flow t fl s x first e w)
    unfolding step_flow event_work result_work
    step_flow-le fl s x first (EventAst.for_loop i b) w = loop-le fl s x first i b w
    step_flow-le fl s x first (EventAst.subroutine o) w =
        returns (omega (arith, subroutine-le x first o))
    step_flow-le fl s x first (EventAst.goto o) w = returns (goto-le x o w)
    step_flow-le fl s x first (EventAst.if_statement test then_branch else_branch) w =
        Post-then (test_holds fl s test) λ b. returns (omega arith)
    step_flow-le fl s x first (EventAst.if_statement_and test) w =
        Post-then (test_holds fl s test) λ b. returns (omega (arith, disable-work x b))
    step_flow-le fl s x first (EventAst.call_every_frame thread_id o) w =
        returns (omega (arith, thread-work x thread_id o))
    step_flow-le fl s x first _ w = returns (omega arith)
