-- ===== src/ScriptRunner/StepFlow.antt =====
-- The arms of `step_event` in src/script_runner.rs that lead to other blocks, and `StepEventResult`.
use brawllib_rs.Prelude.{
  ℕ, Bool, true, false, Option, none, some, List, [], ◌∷◌, ◌==◌, if◌then◌else◌,
}
use brawllib_rs.Outcome.{Outcome, ok, ◌>>=◌}
use brawllib_rs.Script.Argument.{Offset}
use brawllib_rs.ScriptAst.Tree.{EventAst, Block, ElseBranch, finite, infinite}
use brawllib_rs.ScriptRunner.Numbers.{Floats}
use brawllib_rs.ScriptRunner.Variables.{Variables}
use brawllib_rs.ScriptRunner.Maps.{remove}
use brawllib_rs.ScriptRunner.State.{Located, SectionScriptAst, Scripts, Flow}
use brawllib_rs.ScriptRunner.StepBody.{test_holds}

pub data StepEventResult (F : Type 0) : Type 0 where
  wait_until : F → StepEventResult F
  new_for_loop : (block : Block F) (iterations : ℕ) → StepEventResult F
  new_call : (block : Block F) → StepEventResult F
  new_if_statement :
      (then_branch : Block F) (else_branch : ElseBranch F) (execute : Bool) → StepEventResult F
  if_statement_disable_execution : StepEventResult F
  goto : (script : Located F) (external : Bool) → StepEventResult F
  subroutine : (script : Located F) (external : Bool) → StepEventResult F
  call_every_frame : (script : Located F) (external : Bool) (thread_id : ℕ) → StepEventResult F
  return : StepEventResult F
  nothing : StepEventResult F

-- `contains`, and `iter().any(|x| *x == offset)`
unfoldable pub is_in : ℕ → List ℕ → Bool
is_in x [] = false
is_in x (y ∷ ys) = if y == x then true else is_in x ys

module _ {F : Type 0} where
  -- `section_scripts.iter().find(|x| x.callers.contains(&offset.origin))`
  unfoldable pub section_of : ℕ → List (SectionScriptAst F) → Option (Located F)
  unfolding is_in
  section_of origin [] = none
  section_of origin (x ∷ xs) =
      if is_in origin x.callers then some x.script else section_of origin xs

  -- `for script in all_scripts.iter() { if script.offset == offset.offset { return .. } }`
  unfoldable pub script_at : ℕ → List (Located F) → Option (Located F)
  script_at offset [] = none
  script_at offset (x ∷ xs) = if x.script.offset == offset then some x else script_at offset xs

  -- `&script.block.events[0] as *const _ == event as *const _`, where the event is the first of the
  -- script with the address `first`, if it is the first of a script.
  unfoldable pub begins_with_event : Option ℕ → Located F → Bool
  begins_with_event none x = false
  begins_with_event (some address) x = elim x.script.block [
    | Block.empty ↦ false
    | Block.cons _ _ ↦ x.address == address
  ]

  -- The same for a subroutine, which skips a script that begins with the event.
  unfoldable pub callee_at : Option ℕ → ℕ → List (Located F) → Option (Located F)
  unfolding begins_with_event
  callee_at first offset [] = none
  callee_at first offset (x ∷ xs) =
      let rest = callee_at first offset xs in
      if x.script.offset == offset then if begins_with_event first x then rest else some x else rest

  module _ (t : Scripts F) where
    -- `if !external { .. find .. }`
    unfoldable pub external_script : Bool → Offset → Option (Located F)
    unfolding section_of
    external_script external o = if external then none else section_of o.origin t.section_scripts

    unfoldable pub all_scripts : Bool → List (Located F)
    all_scripts external = if external then t.common_scripts else t.fighter_scripts

    unfoldable pub step_subroutine : Bool → Option ℕ → Offset → StepEventResult F
    unfolding external_script all_scripts callee_at
    step_subroutine external first o = elim (external_script external o) [
      | some x ↦ StepEventResult.subroutine x true
      | none ↦ elim (callee_at first o.offset (all_scripts external)) [
        | some x ↦ StepEventResult.subroutine x external
        | none ↦ nothing
      ]
    ]

    -- The rest of the arm, which finds the script unless its offset has been gone to.
    unfoldable pub goto_script : Bool → Offset → Flow F → StepEventResult F × Flow F
    unfolding all_scripts script_at is_in
    goto_script external o w = elim (is_in o.offset w.visited_gotos) [
      | true ↦ (nothing, w)
      | false ↦
          let w' = record w { visited_gotos = o.offset ∷ w.visited_gotos } in
          elim (script_at o.offset (all_scripts external)) [
            | some x ↦ (StepEventResult.goto x external, w')
            | none ↦ (nothing, w')
          ]
    ]

    unfoldable pub step_goto : Bool → Offset → Flow F → StepEventResult F × Flow F
    unfolding external_script goto_script
    step_goto external o w = elim (external_script external o) [
      | some x ↦ (StepEventResult.goto x true, w)
      | none ↦ goto_script external o w
    ]

    unfoldable pub step_call_every_frame : Bool → ℕ → Offset → StepEventResult F
    unfolding external_script all_scripts script_at
    step_call_every_frame external thread_id o = elim (external_script external o) [
      | some x ↦ StepEventResult.call_every_frame x true thread_id
      | none ↦ elim (script_at o.offset (all_scripts external)) [
        | some x ↦ StepEventResult.call_every_frame x external thread_id
        | none ↦ nothing
      ]
    ]

    -- Every other event leads to the next one.
    unfoldable pub step_flow :
        (fl : Floats F) (s : Variables F) (external : Bool) (first : Option ℕ)
        → EventAst F
        → Flow F
        → Outcome (StepEventResult F × Flow F)
    unfolding step_subroutine step_goto step_call_every_frame
    step_flow fl s external first (EventAst.sync_wait v) w =
        ok (StepEventResult.wait_until (fl.add s.frame_index v), w)
    step_flow fl s external first (EventAst.async_wait v) w = ok (StepEventResult.wait_until v, w)
    step_flow fl s external first (EventAst.for_loop iterations block) w = elim iterations [
      | finite n ↦ ok (new_for_loop block n, w)
      | infinite ↦ ok (new_call block, w)
    ]
    step_flow fl s external first (EventAst.subroutine o) w =
        ok (step_subroutine external first o, w)
    step_flow fl s external first EventAst.return w = ok (StepEventResult.return, w)
    step_flow fl s external first (EventAst.goto o) w = ok (step_goto external o w)
    step_flow fl s external first (EventAst.if_statement test then_branch else_branch) w =
        test_holds fl s test >>= λ b. ok (new_if_statement then_branch else_branch b, w)
    step_flow fl s external first (EventAst.if_statement_and test) w =
        test_holds fl s test >>= λ b. ok (if b then nothing else if_statement_disable_execution, w)
    step_flow fl s external first (EventAst.call_every_frame thread_id o) w =
        ok (step_call_every_frame external thread_id o, w)
    step_flow fl s external first (EventAst.remove_call_every_frame thread_id) w =
        ok (nothing, record w { call_every_frame = remove thread_id w.call_every_frame })
    step_flow fl s external first _ w = ok (nothing, w)
