-- ===== src/ScriptAst/Grammar.antt =====
-- The tree that a well nested list of events stands for, as a grammar that does not mention the loop
-- of `process_block` of src/script_ast/mod.rs.
use brawllib_rs.Prelude.{ℕ, ◌≡◌, List, ◌∷◌}
use brawllib_rs.Outcome.{ok}
use brawllib_rs.Script.Argument.{Event}
use brawllib_rs.ScriptAst.Expression.{Expression}
use brawllib_rs.ScriptAst.Tree.{EventAst, Block, ElseBranch, no_else, else_block, Iterations}
use brawllib_rs.ScriptAst.Arms.{
  Opener, plain, opens, end_loop, end_condition, nesting_of, event_ast,
}

-- The events of a block and those that come after them.
mutual
  pub data Spells {F : Type 0} (as_f32 : ℕ → F)
      : List (Event F) → Block F → List (Event F) → Type 0 where
    done : {events : List (Event F)} → Spells as_f32 events Block.empty events
    event :
        {first : Event F} {e : EventAst F} {events after : List (Event F)} {block : Block F}
        → nesting_of first ≡ plain
        → event_ast as_f32 first ≡ ok e
        → Spells as_f32 events block after
        → Spells as_f32 (first ∷ events) (Block.cons e block) after
    for_loop :
        {first last : Event F} {n : Iterations} {events more after : List (Event F)}
        {body block : Block F}
        → nesting_of first ≡ opens (Opener.loop n)
        → Spells as_f32 events body (last ∷ more)
        → nesting_of last ≡ end_loop
        → Spells as_f32 more block after
        → Spells as_f32 (first ∷ events) (Block.cons (EventAst.for_loop n body) block) after
    if_statement :
        {first : Event F} {t : Expression F} {events more after : List (Event F)}
        {body block : Block F} {other : ElseBranch F}
        → nesting_of first ≡ opens (Opener.condition t)
        → Branches as_f32 events body other more
        → Spells as_f32 more block after
        → Spells as_f32
            (first ∷ events)
            (Block.cons (EventAst.if_statement t body other) block)
            after

  -- The events after a condition, up to the end of all its branches.
  pub data Branches {F : Type 0} (as_f32 : ℕ → F)
      : List (Event F) → Block F → ElseBranch F → List (Event F) → Type 0 where
    no_more :
        {last : Event F} {events after : List (Event F)} {body : Block F}
        → Spells as_f32 events body (last ∷ after)
        → nesting_of last ≡ end_condition
        → Branches as_f32 events body no_else after
    otherwise :
        {middle last : Event F} {events more after : List (Event F)} {body other : Block F}
        → Spells as_f32 events body (middle ∷ more)
        → nesting_of middle ≡ opens Opener.otherwise
        → Spells as_f32 more other (last ∷ after)
        → nesting_of last ≡ end_condition
        → Branches as_f32 events body (else_block other) after
    otherwise_if :
        {middle : Event F} {t : Expression F} {events more after : List (Event F)}
        {body body' : Block F} {other : ElseBranch F}
        → Spells as_f32 events body (middle ∷ more)
        → nesting_of middle ≡ opens (Opener.otherwise_if t)
        → Branches as_f32 more body' other after
        → Branches as_f32 events body
            (else_block (Block.cons (EventAst.if_statement t body' other) Block.empty))
            after
