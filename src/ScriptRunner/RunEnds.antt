-- ===== src/ScriptRunner/RunEnds.antt =====
-- A runner of src/script_runner.rs from `new` on: no frame of it runs for ever.
use Prim.Native.String.{String}
use mathlib.Core.Path.{subst}
use brawllib_rs.Prelude.{Bool, false, ℕ, ◌+◌, ◌<◌, ◌≡◌, refl, Option, none, some, List, []}
use brawllib_rs.Outcome.{
  Outcome, ok, panic, Post, returns, panics, Post-then, Post-bind, Ends, and_then,
}
use brawllib_rs.ScriptAst.Tree.{EventAst, Block, empty, cons}
use brawllib_rs.ScriptRunner.Numbers.{Floats}
use brawllib_rs.ScriptRunner.BoxLaws.{IsBoxes, step_boxes-IsBoxes}
use brawllib_rs.ScriptRunner.Frame.{no_boxes-IsBoxes}
use brawllib_rs.ScriptRunner.StepVariables.{step_variables}
use brawllib_rs.ScriptRunner.State.{Located, Scripts, CallEveryFrame, State}
use brawllib_rs.ScriptRunner.StepBody.{step_body}
use brawllib_rs.ScriptRunner.StepFlow.{StepEventResult, step_flow}
use brawllib_rs.ScriptRunner.Visibility.{ModelVisibility, invisible_bones}
use brawllib_rs.ScriptRunner.StepStack.{step_event}
use brawllib_rs.ScriptRunner.StepScript.{Runner, frame_stacks, step_script}
use brawllib_rs.ScriptRunner.Work.{Bounds, gotos_room, IsBounded}
use brawllib_rs.ScriptRunner.FrameEnds.{stacks_work, IsFrame, step_script-Ends}
use brawllib_rs.ScriptRunner.NewState.{first_ledge_grab, new_state}
use brawllib_rs.ScriptRunner.Run.{
  WiirdFrameSpeedModifier, script_stacks, run_init, next_count, new, next_frame, step,
}

module _ {F : Type 0} (fl : Floats F) where
  step_event-IsBoxes :
      (t : Scripts F) (external : Bool) (first : Option ℕ) (e : EventAst F) (s : State F)
      → IsBoxes s.boxes
      → Post
          (λ (p : StepEventResult F × State F). IsBoxes p.1.boxes)
          (step_event fl t external first e s)
  unfolding step_event
  step_event-IsBoxes t external first e s b = Post-then (step_variables fl s.vars e) λ vars.
      Post-bind (step_boxes-IsBoxes fl s.vars e s.boxes b) λ boxes b'.
        Post-then (step_body fl s.vars e s.body)
          λ body. Post-then (step_flow t fl s.vars external first e s.flow) λ p. returns b'

  run_init-IsBoxes :
      (events : Block F) (s : State F)
      → IsBoxes s.boxes
      → Post (λ (s' : State F). IsBoxes s'.boxes) (run_init fl events s)
  unfolding run_init
  run_init-IsBoxes empty s b = returns b
  run_init-IsBoxes (cons e events) s b =
      Post-bind (step_event-IsBoxes _ false none e s b) λ p b'. run_init-IsBoxes events p.1 b'

  module _ (B : Bounds) (t : Scripts F) (h : IsBounded B t)
      (order : List (CallEveryFrame F) → List (CallEveryFrame F)) (subaction_name : String)
      (subaction_scripts : List (Located F)) (init_hack_script : Block F)
      (model_visibility : ModelVisibility) (subaction_index : ℕ)
      (fsms : List (WiirdFrameSpeedModifier F)) where
    -- The work of a frame.
    abbrev pub frame_work : Runner F → ℕ
    frame_work r = stacks_work B (frame_stacks fl t order r) + gotos_room B t []

    abbrev pub initial : State F → Runner F
    initial s = record {
      call_stacks = script_stacks fl subaction_scripts;
      state = s;
      frame_count = 0;
    }

    -- Enough fuel for the first frame, and for the next one.
    abbrev pub StartsWith : ℕ → Type 0
    StartsWith fuel =
        (s : State F)
        → run_init fl init_hack_script
            (new_state fl (first_ledge_grab subaction_name) (invisible_bones model_visibility))
          ≡ ok s
        → frame_work (initial s) < fuel

    abbrev pub StepsWith : Runner F → ℕ → Type 0
    StepsWith r fuel =
        (count : ℕ)
        → next_count r.frame_count ≡ ok count
        → frame_work (next_frame fl subaction_index fsms r count) < fuel

    -- A runner that `new` gives, and one that it steps to, each with enough fuel.
    pub data IsRun : Runner F → Type 0 where
      begins :
          {r : Runner F} (fuel : ℕ)
          → StartsWith fuel
          → new fl t order fuel subaction_name subaction_scripts init_hack_script model_visibility
            ≡ some (ok r)
          → IsRun r
      steps :
          {r next : Runner F} (fuel : ℕ)
          → IsRun r
          → StepsWith r fuel
          → step fl t order fuel subaction_index fsms r ≡ some (ok next)
          → IsRun next

    started-Ends :
        (fuel : ℕ) (m : Outcome (State F))
        → Post (λ (s : State F). IsBoxes s.boxes) m
        → ((s : State F) → m ≡ ok s → frame_work (initial s) < fuel)
        → Ends (IsFrame) (and_then (some m) λ s. step_script fl t order fuel (initial s))
    started-Ends fuel (ok s) (returns b) enough =
        step_script-Ends B fl t h order fuel (initial s) b (enough s refl)
    started-Ends fuel panic panics enough = (panic, refl, panics)

    new-Ends :
        (fuel : ℕ)
        → StartsWith fuel
        → Ends
            (IsFrame)
            (new fl t order fuel subaction_name subaction_scripts init_hack_script model_visibility)
    unfolding new new_state
    new-Ends fuel enough =
        let s = new_state fl (first_ledge_grab subaction_name) (invisible_bones model_visibility) in
        started-Ends fuel (run_init fl init_hack_script s)
          (run_init-IsBoxes init_hack_script s (no_boxes-IsBoxes fl)) enough

    counted-Ends :
        (fuel : ℕ) (r : Runner F) (m : Outcome ℕ)
        → IsBoxes r.state.boxes
        → ((count : ℕ)
            → m ≡ ok count
            → frame_work (next_frame fl subaction_index fsms r count) < fuel)
        → Ends (IsFrame) (
            and_then
              (some m)
              λ count. step_script fl t order fuel (next_frame fl subaction_index fsms r count))
    unfolding next_frame
    counted-Ends fuel r (ok count) b enough =
        step_script-Ends B fl t h order fuel (next_frame fl subaction_index fsms r count) b
          (enough count refl)
    counted-Ends fuel r panic b enough = (panic, refl, panics)

    step-Ends :
        (fuel : ℕ) (r : Runner F)
        → IsFrame r
        → StepsWith r fuel
        → Ends (IsFrame) (step fl t order fuel subaction_index fsms r)
    unfolding step
    step-Ends fuel r frame enough = counted-Ends fuel r (next_count r.frame_count) frame.1 enough

    ended :
        {r : Runner F} {m : Option (Outcome (Runner F))}
        → Ends IsFrame m
        → m ≡ some (ok r)
        → IsFrame r
    ended {r} (ok q, e, returns frame) same =
        let eq : q ≡ r = cc in subst (λ (x : Runner F). IsFrame x) eq frame
    ended (panic, e, panics) same = cc

    IsRun-IsFrame : {r : Runner F} → IsRun r → IsFrame r
    IsRun-IsFrame (begins fuel enough same) = ended (new-Ends fuel enough) same
    IsRun-IsFrame (steps {r} fuel run enough same) =
        ended (step-Ends fuel r (IsRun-IsFrame run) enough) same

    -- Where every script has a cost above its work, which the calls of subroutines count, `new` does not
    -- run for ever, and neither does `step` in any frame of the runner that it gives: each ends with more
    -- fuel than the work of its frame. If it does not panic, it leaves four call stacks at most, seven
    -- slots and ten sets, every collision box in the slot of its id.
    pub IsRun-Ends :
        (first fuel : ℕ) (r : Runner F)
        → StartsWith first
        → IsRun r
        → StepsWith r fuel
        → Ends IsFrame (
            new fl t order first subaction_name subaction_scripts init_hack_script model_visibility)
          × Ends IsFrame (step fl t order fuel subaction_index fsms r)
    IsRun-Ends first fuel r starts run enough =
        (new-Ends first starts, step-Ends fuel r (IsRun-IsFrame run) enough)
