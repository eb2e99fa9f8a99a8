-- ===== src/ScriptRunner/Run.antt =====
-- `ScriptRunner::new` and `ScriptRunner::step` of src/script_runner.rs.
use Prim.Native.String.{String}
use brawllib_rs.Prelude.{
  ℕ, ◌+◌, ◌^◌, Bool, false, not, ◌&&◌, Option, none, some, List, [], ◌∷◌, ltb, leb, ◌==◌,
  if◌then◌else◌,
}
use brawllib_rs.Outcome.{Outcome, ok, panic, ◌>>=◌, and_then}
use brawllib_rs.ScriptAst.Tree.{Block, empty, cons}
use brawllib_rs.ScriptRunner.Numbers.{Floats}
use brawllib_rs.ScriptRunner.Variables.{Variables}
use brawllib_rs.ScriptRunner.State.{Located, Scripts, CallStack, CallEveryFrame, State, plain_call}
use brawllib_rs.ScriptRunner.Visibility.{ModelVisibility, invisible_bones}
use brawllib_rs.ScriptRunner.StepStack.{step_event}
use brawllib_rs.ScriptRunner.StepScript.{Runner, new_stack, step_script}
use brawllib_rs.ScriptRunner.NewState.{first_ledge_grab, new_state}

-- `WiiRDFrameSpeedModifier` of src/fighter.rs
pub record WiirdFrameSpeedModifier (F : Type 0) : Type 0 where
  pub action : Bool
  pub action_subaction_id : ℕ
  pub frame : ℕ
  pub frame_speed : F

-- `self.frame_count += 1`
unfoldable pub next_count : ℕ → Outcome ℕ
next_count n = if ltb (n + 1) (2 ^ 64) then ok (n + 1) else panic

module _ {F : Type 0} (fl : Floats F) where
  -- `for script in subaction_scripts { .. }`
  unfoldable pub script_stacks : List (Located F) → List (CallStack F)
  unfolding plain_call new_stack
  script_stacks [] = []
  script_stacks (x ∷ xs) =
      new_stack fl (plain_call x.script.block (some x.address) false) ∷ script_stacks xs

  -- `for event in &init_hack_script.events { runner.step_event(event, false, &[], &[], &[]); }`
  unfoldable pub run_init : Block F → State F → Outcome (State F)
  run_init empty s = ok s
  run_init (cons e events) s =
      step_event fl (record { fighter_scripts = []; common_scripts = []; section_scripts = [] })
        false none e s
      >>= λ (result, s'). run_init events s'

  -- `fsms.sort_by_key(|x| x.frame)`, which keeps the order of equal frames.
  unfoldable pub insert_fsm :
      WiirdFrameSpeedModifier F
      → List (WiirdFrameSpeedModifier F)
      → List (WiirdFrameSpeedModifier F)
  insert_fsm x [] = x ∷ []
  insert_fsm x (y ∷ ys) =
      let rest = insert_fsm x ys in if leb x.frame y.frame then x ∷ y ∷ ys else y ∷ rest

  unfoldable pub sort_fsms : List (WiirdFrameSpeedModifier F) → List (WiirdFrameSpeedModifier F)
  unfolding insert_fsm
  sort_fsms [] = []
  sort_fsms (x ∷ xs) = insert_fsm x (sort_fsms xs)

  unfoldable pub last_fsm : List (WiirdFrameSpeedModifier F) → Option (WiirdFrameSpeedModifier F)
  last_fsm [] = none
  last_fsm (x ∷ []) = some x
  last_fsm (x ∷ y ∷ ys) = last_fsm (y ∷ ys)

  module _ (subaction_index : ℕ) (s : Variables F) where
    -- The modifiers of this subaction whose frame has come.
    unfoldable pub active_fsms : List (WiirdFrameSpeedModifier F) → List (WiirdFrameSpeedModifier F)
    active_fsms [] = []
    active_fsms (x ∷ xs) =
        let rest = active_fsms xs in
        if not x.action
          && (x.action_subaction_id == subaction_index)
          && leb x.frame (fl.to_u16 s.frame_index)
        then x ∷ rest
        else rest

    -- `self.frame_speed_modifier` and `self.frame_index` in the next frame.
    unfoldable pub next_variables : List (WiirdFrameSpeedModifier F) → Variables F
    unfolding active_fsms sort_fsms last_fsm
    next_variables fsms =
        let speed = elim (last_fsm (sort_fsms (active_fsms fsms))) as (λ _. F) [
          | none ↦ s.frame_speed_modifier
          | some x ↦ x.frame_speed
        ] in
        record s { frame_speed_modifier = speed; frame_index = fl.add s.frame_index speed }

  -- What `step` does before the scripts are run.
  unfoldable pub next_frame :
      (subaction_index : ℕ) → List (WiirdFrameSpeedModifier F) → Runner F → ℕ → Runner F
  unfolding next_variables
  next_frame subaction_index fsms r count =
      let s = r.state in
      let vars = next_variables subaction_index s.vars fsms in
      let body = record s.body {
        animation_index = fl.add s.body.animation_index vars.frame_speed_modifier;
      } in
      record r { state = record s { vars = vars; body = body }; frame_count = count }

  module _ (t : Scripts F) (order : List (CallEveryFrame F) → List (CallEveryFrame F))
      (fuel : ℕ) where
    unfoldable pub new :
        (subaction_name : String) (subaction_scripts : List (Located F))
        (init_hack_script : Block F) (model_visibility : ModelVisibility)
        → Option (Outcome (Runner F))
    unfolding new_state script_stacks run_init first_ledge_grab invisible_bones
    new subaction_name subaction_scripts init_hack_script model_visibility =
        and_then
          (some (
            run_init init_hack_script
              (new_state fl (first_ledge_grab subaction_name) (invisible_bones model_visibility))))
          λ s.
            step_script fl t order fuel
              (record { call_stacks = script_stacks subaction_scripts; state = s; frame_count = 0 })

    unfoldable pub step :
        (subaction_index : ℕ)
        → List (WiirdFrameSpeedModifier F)
        → Runner F
        → Option (Outcome (Runner F))
    unfolding next_frame next_count
    step subaction_index fsms r =
        and_then (some (next_count r.frame_count))
          λ count. step_script fl t order fuel (next_frame subaction_index fsms r count)
