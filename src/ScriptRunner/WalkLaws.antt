-- ===== src/ScriptRunner/WalkLaws.antt =====
-- The loop of `step_script` in src/script_runner.rs over a call stack walks the tree of a script.
use brawllib_rs.Prelude.{
  ℕ, suc, ◌+◌, ◌≡◌, refl, Bool, true, false, not, Option, none, List, ◌∷◌, ◌++◌, replicate,
}
use brawllib_rs.ScriptAst.Tree.{Block, ElseBranch, no_else, else_block}
use brawllib_rs.ScriptRunner.Numbers.{Floats}
use brawllib_rs.ScriptRunner.State.{Scripts, Call, State, plain_call}
use brawllib_rs.ScriptRunner.StepStack.{
  event_at, first_of, script_call, result_calls, result_wait, result_flow, end_calls, run_calls,
}
use brawllib_rs.ScriptRunner.Walk.{
  Exit, ended, gone, goes, leaves, IsDue, Walks, ends, skips, steps, loops, calls, branches, enters,
  Repeats, never, again, Chooses, alone, either,
}
use brawllib_rs.ScriptRunner.Position.{
  drop_block, event_at-drop_block, event_at-empty, first_at, first_at-suc,
}
use brawllib_rs.ScriptRunner.Reaches.{
  Reaches, Reaches-refl, Reaches-trans, call_at, here, skip-Reaches, event-Reaches, next-Reaches,
  end-Reaches,
}

module _ {F : Type 0} (fl : Floats F) (t : Scripts F) (wait : F) where
  module _ (block : Block F) (home : Option ℕ) (else_branch : ElseBranch F) (sub : Bool)
      (cs : List (Call F)) where
    -- The call comes to the end of its block, or is replaced and the other one left.
    data ToEnd (x i : Bool) (j : ℕ) (run : Bool) (s : State F) : Exit → State F → Type 0 where
      over :
          (n : ℕ) {run' : Bool} {s' : State F}
          → event_at block n ≡ none
          → Reaches fl t wait
              (here fl t wait block home else_branch sub cs x i j run)
              s
              (here fl t wait block home else_branch sub cs x i n run')
              s'
          → IsDue fl t wait s'
          → ToEnd x i j run s (ended run') s'
      away :
          {s' : State F}
          → Reaches fl t wait (here fl t wait block home else_branch sub cs x i j run) s cs s'
          → ToEnd x i j run s gone s'

    extends-ToEnd :
        {x i : Bool} {j k : ℕ} {run run₁ : Bool} {exit : Exit} {s s₁ s' : State F}
        → Reaches fl t wait
            (here fl t wait block home else_branch sub cs x i j run)
            s
            (here fl t wait block home else_branch sub cs x i k run₁)
            s₁
        → ToEnd x i k run₁ s₁ exit s'
        → ToEnd x i j run s exit s'
    extends-ToEnd reach (over n at rest due) = over n at (Reaches-trans fl t wait reach rest) due
    extends-ToEnd reach (away rest) = away (Reaches-trans fl t wait reach rest)

    away-Reaches :
        {x i : Bool} {j : ℕ} {run : Bool} {s s' : State F}
        → ToEnd x i j run s gone s'
        → Reaches fl t wait (here fl t wait block home else_branch sub cs x i j run) s cs s'
    away-Reaches (away reach) = reach

  -- A block without an else branch that is at its end is left.
  leave-Reaches :
      (block : Block F) (home : Option ℕ) (sub : Bool) (cs : List (Call F)) {x i run : Bool}
      {exit : Exit} {s s' : State F}
      → ToEnd block home no_else sub cs x i 0 run s exit s'
      → Reaches fl t wait (call_at fl t wait block home no_else sub x i 0 run ∷ cs) s cs s'
  unfolding end_calls
  leave-Reaches block home sub cs (over n at reach due) =
      Reaches-trans fl t wait reach (end-Reaches fl t wait block home no_else sub cs due at)
  leave-Reaches block home sub cs (away reach) = reach

  -- An else branch begins at the end of the block before it.
  else-Reaches :
      (block other : Block F) (cs : List (Call F)) {x run run₁ : Bool} {s s₁ s' : State F}
      → ToEnd block none (else_block other) false cs x true 0 run s (ended run₁) s₁
      → Reaches fl t wait
          (call_at fl t wait other none no_else false x true 0 (not run₁) ∷ cs)
          s₁
          cs
          s'
      → Reaches fl t wait
          (call_at fl t wait block none (else_block other) false x true 0 run ∷ cs)
          s
          cs
          s'
  unfolding end_calls
  else-Reaches block other cs (over n at reach due) rest = Reaches-trans fl t wait reach (
      Reaches-trans fl t wait (end-Reaches fl t wait block none (else_block other) false cs due at)
        rest)

  mutual
    unfolding result_wait result_flow result_calls end_calls drop_block first_of script_call
        plain_call

    Walks-ToEnd :
        (block : Block F) (home : Option ℕ) (else_branch : ElseBranch F) (sub : Bool)
        (cs : List (Call F)) (j : ℕ) {x i run : Bool} {exit : Exit} {first : Option ℕ}
        {rest : Block F} {s s' : State F}
        → Walks fl t wait x i first run rest s exit s'
        → drop_block j block ≡ rest
        → first_at home j ≡ first
        → ToEnd block home else_branch sub cs x i j run s exit s'
    Walks-ToEnd block home else_branch sub cs j (ends due) h f =
        over j (event_at-empty j block h) (Reaches-refl fl t wait _ _) due
    Walks-ToEnd block home else_branch sub cs j (skips due r w) h f =
        let (at, left) = event_at-drop_block j block h in
        let end = Walks-ToEnd block home else_branch sub cs (suc j) w left (first_at-suc home j) in
        extends-ToEnd block home else_branch sub cs
          (skip-Reaches fl t wait block home else_branch sub cs due at r) end
    Walks-ToEnd block home else_branch sub cs j (steps due r leads w) h f =
        let (at, left) = event_at-drop_block j block h in
        let end = Walks-ToEnd block home else_branch sub cs (suc j) w left (first_at-suc home j) in
        extends-ToEnd block home else_branch sub cs
          (next-Reaches fl t wait block home else_branch sub cs due at f r leads) end
    Walks-ToEnd block home else_branch sub cs j (loops due r rounds w) h f =
        let (at, left) = event_at-drop_block j block h in
        let end = Walks-ToEnd block home else_branch sub cs (suc j) w left (first_at-suc home j) in
        extends-ToEnd block home else_branch sub cs
          (Reaches-trans fl t wait
            (event-Reaches fl t wait block home else_branch sub cs due at f r refl)
            (Repeats-Reaches _ rounds))
          end
    Walks-ToEnd block home else_branch sub cs j (calls due r once w) h f =
        let (at, left) = event_at-drop_block j block h in
        let end = Walks-ToEnd block home else_branch sub cs (suc j) w left (first_at-suc home j) in
        extends-ToEnd block home else_branch sub cs
          (Reaches-trans fl t wait
            (event-Reaches fl t wait block home else_branch sub cs due at f r refl)
            (Repeats-Reaches _ once))
          end
    Walks-ToEnd block home else_branch sub cs j (branches due r chosen w) h f =
        let (at, left) = event_at-drop_block j block h in
        let end = Walks-ToEnd block home else_branch sub cs (suc j) w left (first_at-suc home j) in
        extends-ToEnd block home else_branch sub cs
          (Reaches-trans fl t wait
            (event-Reaches fl t wait block home else_branch sub cs due at f r refl)
            (Chooses-Reaches _ chosen))
          end
    Walks-ToEnd block home else_branch sub cs j (enters due r inner w) h f =
        let (at, left) = event_at-drop_block j block h in
        let end = Walks-ToEnd block home else_branch sub cs (suc j) w left (first_at-suc home j) in
        let called = Walks-ToEnd _ _ no_else true _ 0 inner refl refl in
        extends-ToEnd block home else_branch sub cs
          (Reaches-trans fl t wait
            (event-Reaches fl t wait block home else_branch sub cs due at f r refl)
            (leave-Reaches _ _ true _ called))
          end
    Walks-ToEnd block home else_branch sub cs j (goes due r inner) h f =
        let (at, left) = event_at-drop_block j block h in
        let called = Walks-ToEnd _ _ no_else false cs 0 inner refl refl in
        away (
          Reaches-trans fl t wait
            (event-Reaches fl t wait block home else_branch sub cs due at f r refl)
            (leave-Reaches _ _ false cs called))

    Repeats-Reaches :
        {x : Bool} {n : ℕ} {block : Block F} {s s' : State F} (ds : List (Call F))
        → Repeats fl t wait x n block s s'
        → Reaches fl t wait (replicate n (plain_call block none x) ++ ds) s ds s'
    Repeats-Reaches ds never = Reaches-refl fl t wait ds _
    Repeats-Reaches ds (again w rounds) =
        Reaches-trans fl t wait
          (leave-Reaches _ _ false _ (Walks-ToEnd _ none no_else false _ 0 w refl refl))
          (Repeats-Reaches ds rounds)

    Chooses-Reaches :
        {x run : Bool} {then_branch : Block F} {else_branch : ElseBranch F} {s s' : State F}
        (ds : List (Call F))
        → Chooses fl t wait x then_branch else_branch run s s'
        → Reaches fl t wait
            (call_at fl t wait then_branch none else_branch false x true 0 run ∷ ds)
            s
            ds
            s'
    Chooses-Reaches ds (alone w) =
        leave-Reaches _ _ false _ (Walks-ToEnd _ none no_else false ds 0 w refl refl)
    Chooses-Reaches ds (either w v) =
        else-Reaches _ _ ds (Walks-ToEnd _ none _ false ds 0 w refl refl)
          (leave-Reaches _ none false ds (Walks-ToEnd _ none no_else false ds 0 v refl refl))
    Chooses-Reaches ds (leaves w) =
        away-Reaches _ none _ false ds (Walks-ToEnd _ none _ false ds 0 w refl refl)

  -- The loop runs the tree of a script whose events do not wait as the walk over it says: in some rounds, with whatever calls are below and whatever fuel is left, it leaves the call
  -- of the script with the state that the walk ends in.
  pub Walks-run_calls :
      (block : Block F) (home : Option ℕ) (x : Bool) (cs : List (Call F)) (exit : Exit)
      (s s' : State F)
      → Walks fl t wait x false home true block s exit s'
      → (rounds : ℕ) × ((fuel : ℕ)
          → run_calls fl t (rounds + fuel) (plain_call block home x ∷ cs) wait s
            ≡ run_calls fl t fuel cs wait s')
  unfolding drop_block plain_call
  Walks-run_calls block home x cs exit s s' w =
      let reach =
        leave-Reaches block home false cs (Walks-ToEnd block home no_else false cs 0 w refl refl) in
      (reach.rounds, reach.runs)
