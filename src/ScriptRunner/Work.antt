-- ===== src/ScriptRunner/Work.antt =====
-- A measure of what the loop of `step_script` in src/script_runner.rs has left to do, for scripts whose
-- subroutines do not call themselves.
use brawllib_rs.Prelude.{
  ℕ, zero, suc, ◌+◌, ◌<◌, ◌≡◌, refl, Bool, true, false, Option, some, List, [], ◌∷◌, ◌++◌,
  replicate, All, if◌then◌else◌, arith,
}
use brawllib_rs.ScriptAst.Tree.{
  EventAst, Block, empty, cons, ElseBranch, no_else, else_block, finite, infinite,
}
use brawllib_rs.ScriptRunner.State.{Located, SectionScriptAst, Scripts, Call, plain_call}
use brawllib_rs.ScriptRunner.StepFlow.{
  StepEventResult, new_for_loop, new_call, new_if_statement, goto, subroutine, is_in,
}
use brawllib_rs.ScriptRunner.StepStack.{event_at, rounds_of}

-- More than the work of a script that is called at an offset, by a caller that is external or not; more
-- than that of a section script; and more than that of a script that is gone to.
pub record Bounds : Type 0 where
  pub cost : (external : Bool) (offset : ℕ) → ℕ
  pub section_cost : ℕ
  pub goto_cost : ℕ

-- `n` times `a`
abbrev pub times : ℕ → ℕ → ℕ
times zero a = 0
times (suc n) a = a + times n a

module _ (B : Bounds) where
  -- Only an event that is not external leads to a section script.
  abbrev pub section_work : Bool → ℕ
  section_work external = if external then 0 else B.section_cost

  unfoldable mutual
    unfolding rounds_of

    -- The rounds of the loop that the blocks take which an event leads to.
    pub event_work : {F : Type 0} → Bool → EventAst F → ℕ
    event_work x (EventAst.for_loop iterations block) = elim iterations [
      | finite n ↦ times (rounds_of n) (suc (block_work x block))
      | infinite ↦ block_work x block + 1
    ]
    event_work x (EventAst.subroutine o) = B.cost x o.offset + section_work x
    event_work x (EventAst.goto o) = section_work x
    event_work x (EventAst.if_statement test then_branch else_branch) =
        block_work x then_branch + else_work x else_branch + 1
    event_work x _ = 0

    pub block_work : {F : Type 0} → Bool → Block F → ℕ
    block_work x empty = 0
    block_work x (cons e events) = suc (event_work x e + block_work x events)

    pub else_work : {F : Type 0} → Bool → ElseBranch F → ℕ
    else_work x no_else = 0
    else_work x (else_block block) = suc (block_work x block)

  module _ {F : Type 0} where
    -- The events of a block from the one at an index on.
    unfoldable pub rest_work : Bool → Block F → ℕ → ℕ
    rest_work x empty i = 0
    rest_work x (cons e events) zero = block_work x (cons e events)
    rest_work x (cons e events) (suc i) = rest_work x events i

    unfoldable pub call_work : Call F → ℕ
    unfolding rest_work
    call_work c = suc (rest_work c.external c.block c.index + else_work c.external c.else_branch)

    unfoldable pub calls_work : List (Call F) → ℕ
    unfolding call_work
    calls_work [] = 0
    calls_work (c ∷ cs) = call_work c + calls_work cs

    -- What is left to go to: each script that has not been gone to.
    unfoldable pub room : List (Located F) → List ℕ → ℕ
    unfolding is_in
    room [] visited = 0
    room (x ∷ xs) visited =
        (if is_in x.script.offset visited then 0 else B.goto_cost) + room xs visited

    unfoldable pub gotos_room : Scripts F → List ℕ → ℕ
    unfolding room
    gotos_room t visited = room t.fighter_scripts visited + room t.common_scripts visited

    -- The bounds are such: a script costs more than the rounds that it takes.
    pub record IsBounded (t : Scripts F) : Type 0 where
      pub fighter_calls :
          All
            (λ (x : Located F). block_work false x.script.block < B.cost false x.script.offset)
            t.fighter_scripts
      pub common_calls :
          All
            (λ (x : Located F). block_work true x.script.block < B.cost true x.script.offset)
            t.common_scripts
      pub sections :
          All
            (λ (x : SectionScriptAst F). block_work true x.script.script.block < B.section_cost)
            t.section_scripts
      pub fighter_gotos :
          All (λ (x : Located F). block_work false x.script.block < B.goto_cost) t.fighter_scripts
      pub common_gotos :
          All (λ (x : Located F). block_work true x.script.block < B.goto_cost) t.common_scripts

    -- The work of the calls that a result makes.
    unfoldable pub result_work : Bool → StepEventResult F → ℕ
    unfolding rounds_of
    result_work x (new_for_loop block iterations) =
        times (rounds_of iterations) (suc (block_work x block))
    result_work x (new_call block) = block_work x block + 1
    result_work x (new_if_statement then_branch else_branch execute) =
        block_work x then_branch + else_work x else_branch + 1
    result_work x (goto s external) = block_work external s.script.block + 1
    result_work x (subroutine s external) = block_work external s.script.block + 1
    result_work x _ = 0

    pub rest_work_start : (x : Bool) (b : Block F) → rest_work x b 0 ≡ block_work x b
    unfolding rest_work block_work
    rest_work_start x empty = refl
    rest_work_start x (cons e events) = refl

    -- An event that is passed is done.
    pub rest_work-event_at :
        (x : Bool) (b : Block F) (i : ℕ) {e : EventAst F}
        → event_at b i ≡ some e
        → rest_work x b i ≡ suc (event_work x e + rest_work x b (suc i))
    unfolding event_at rest_work block_work
    rest_work-event_at x empty i h = cc
    rest_work-event_at x (cons f events) zero {e} h =
        let same : f ≡ e = cc in rw (rest_work_start x events, same) refl
    rest_work-event_at x (cons f events) (suc i) h = rest_work-event_at x events i h

    pub call_work-plain_call :
        (b : Block F) (home : Option ℕ) (x : Bool)
        → call_work (plain_call b home x) ≡ suc (block_work x b)
    unfolding call_work plain_call else_work
    call_work-plain_call b home x = rw (rest_work_start x b) (omega arith)

    pub calls_work-replicate :
        (n : ℕ) (c : Call F) (cs : List (Call F))
        → calls_work (replicate n c ++ cs) ≡ times n (call_work c) + calls_work cs
    unfolding calls_work
    calls_work-replicate zero c cs = omega arith
    calls_work-replicate (suc n) c cs = omega (arith, calls_work-replicate n c cs)
