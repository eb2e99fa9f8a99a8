-- ===== src/ScriptRunner/FrameEnds.antt =====
-- A frame of src/script_runner.rs ends.
use native.Mathlib.Nat.{le_refl}
use brawllib_rs.Prelude.{
  ℕ, ◌+◌, ◌<◌, ◌≤◌, ◌≡◌, refl, Option, some, List, [], ◌∷◌, length, take, arith,
}
use brawllib_rs.Outcome.{Outcome, ok, panic, returns, panics, Ends, and_then, Ends-and_then}
use brawllib_rs.ScriptRunner.Numbers.{Floats}
use brawllib_rs.ScriptRunner.BoxLaws.{IsBoxes}
use brawllib_rs.ScriptRunner.Frame.{begin_frame-IsBoxes}
use brawllib_rs.ScriptRunner.State.{
  Located, Scripts, CallStack, CallEveryFrame, ChangeSubaction, State,
}
use brawllib_rs.ScriptRunner.StepFlow.{is_in}
use brawllib_rs.ScriptRunner.StepScript.{
  Runner, reset_state, check_interrupts, end_frame, run_stacks, frame_stacks, run_frame,
  step_script,
}
use brawllib_rs.ScriptRunner.Work.{Bounds, calls_work, room, gotos_room, IsBounded}
use brawllib_rs.ScriptRunner.StackEnds.{left, run_calls-Ends}

-- Between two frames: four call stacks at most, and the slots of the collision boxes.
abbrev pub IsFrame : {F : Type 0} → Runner F → Type 0
IsFrame r = (length r.call_stacks ≤ 4) × IsBoxes r.state.boxes

module _ (B : Bounds) {F : Type 0} where
  unfoldable pub stacks_work : List (CallStack F) → ℕ
  stacks_work [] = 0
  stacks_work (stack ∷ stacks) = calls_work B stack.calls + stacks_work stacks

  room-le_all : (xs : List (Located F)) (visited : List ℕ) → room B xs visited ≤ room B xs []
  unfolding room is_in
  room-le_all [] visited = omega arith
  room-le_all (x ∷ xs) visited = ground (arith, room-le_all xs visited)

  gotos_room-le_all :
      (t : Scripts F) (visited : List ℕ) → gotos_room B t visited ≤ gotos_room B t []
  unfolding gotos_room
  gotos_room-le_all t visited =
      omega (arith, room-le_all t.fighter_scripts visited, room-le_all t.common_scripts visited)

  module _ (fl : Floats F) (t : Scripts F) (h : IsBounded B t) where
    abbrev AllRun : ℕ → List (CallStack F) × State F → Type 0
    AllRun n (stacks, s) = (length stacks ≡ n) × IsBoxes s.boxes

    -- Every stack is run to its end.
    run_stacks-Ends :
        (fuel : ℕ) (stacks : List (CallStack F)) (s : State F)
        → IsBoxes s.boxes
        → stacks_work stacks + gotos_room B t [] < fuel
        → Ends (AllRun (length stacks)) (run_stacks fl t fuel stacks s)
    unfolding run_stacks stacks_work
    run_stacks-Ends fuel [] s b enough = (_, refl, returns (refl, b))
    run_stacks-Ends fuel (stack ∷ stacks) s b enough =
        let whole = gotos_room-le_all t s.flow.visited_gotos in
        Ends-and_then
          (run_calls-Ends B fl t h (left B fl t h stack.calls s) fuel stack.calls stack.wait_until s
            b (le_refl _) (omega (arith, whole, enough)))
          λ p k.
            Ends-and_then (run_stacks-Ends fuel stacks p.1 k.1 (omega (arith, enough)))
              λ q l. (_, refl, returns (omega (arith, l.0), l.1))

    take_four : {A : Type 0} (xs : List A) → length (take 4 xs) ≤ 4
    take_four [] = omega arith
    take_four (a ∷ []) = omega arith
    take_four (a ∷ b ∷ []) = omega arith
    take_four (a ∷ b ∷ c ∷ []) = omega arith
    take_four (a ∷ b ∷ c ∷ d ∷ xs) = omega arith

    checked-Ends :
        (m : Outcome ChangeSubaction) (k : ChangeSubaction → Option (Outcome (Runner F)))
        → ((c : ChangeSubaction) → Ends IsFrame (k c))
        → Ends IsFrame (and_then (some m) k)
    checked-Ends (ok c) k go = go c
    checked-Ends panic k go = (panic, refl, panics)

    module _ (order : List (CallEveryFrame F) → List (CallEveryFrame F)) where
      run_frame-Ends :
          (fuel count : ℕ) (stacks : List (CallStack F)) (s : State F)
          → IsBoxes s.boxes
          → stacks_work stacks + gotos_room B t [] < fuel
          → Ends IsFrame (run_frame fl t order fuel count stacks s)
      unfolding run_frame
      run_frame-Ends fuel count stacks s b enough =
          Ends-and_then (run_stacks-Ends fuel stacks s b enough) λ p k.
            let r : Runner F = record {
              call_stacks = take 4 p.0;
              state = end_frame fl p.1;
              frame_count = count;
            } in
            (ok r, refl, returns {a = r} (take_four p.0, k.1))

      -- A frame ends, whatever its scripts loop over and lead to, if no subroutine calls itself: with
      -- more fuel than the work of its call stacks and of the scripts that can be gone to. If it does
      -- not panic, it leaves four call stacks at most and keeps the slots of the collision boxes.
      pub step_script-Ends :
          (fuel : ℕ) (r : Runner F)
          → IsBoxes r.state.boxes
          → stacks_work (frame_stacks fl t order r) + gotos_room B t [] < fuel
          → Ends IsFrame (step_script fl t order fuel r)
      unfolding step_script run_frame reset_state
      step_script-Ends fuel r b enough =
          let s = reset_state r.state in
          checked-Ends (check_interrupts fl s.vars s.body.interrupts s.body.change_subaction)
            (λ change.
              run_frame fl t order fuel r.frame_count (frame_stacks fl t order r)
                (record s { body = record s.body { change_subaction = change } }))
            λ change.
              run_frame-Ends fuel r.frame_count (frame_stacks fl t order r)
                (record s { body = record s.body { change_subaction = change } })
                (begin_frame-IsBoxes fl r.state.boxes b) enough
