-- ===== src/ScriptAst/Tests.antt =====
-- The parser of src/script_ast/mod.rs on a script with a loop in the else of a condition.
use mathlib.Core.Logic.{◌↔◌}
use brawllib_rs.Prelude.{ℕ, ◌+◌, ◌*◌, ◌^◌, ◌≤◌, ◌≡◌, ◌≢◌, refl, false, some, List, [], ◌∷◌, arith}
use brawllib_rs.Outcome.{Ends, ok}
use brawllib_rs.Script.Requirement.{Requirement}
use brawllib_rs.Script.Argument.{Argument, value, scalar, requirement, Event, Script}
use brawllib_rs.ScriptAst.Shapes.{bits, one_scalar}
use brawllib_rs.ScriptAst.HitBoxes.{FloatValue, HitBoxArguments, SpecialHitBoxArguments}
use brawllib_rs.ScriptAst.HitBoxArms.{create_special_hit_box}
use brawllib_rs.ScriptAst.Expression.{Expression, from_args, test_of}
use brawllib_rs.ScriptAst.Tree.{EventAst, Block, else_block, Iterations, iterations_of, ScriptAst}
use brawllib_rs.ScriptAst.Arms.{
  nesting_of, begin_loop, bare, begin_test, or_unknown, other_arms, event_ast,
}
use brawllib_rs.ScriptAst.ControlArms.{flow, test, async_wait}
use brawllib_rs.ScriptAst.Parse.{script_ast}
use brawllib_rs.ScriptAst.Grammar.{Spells, done, event, for_loop, if_statement, otherwise}
use brawllib_rs.ScriptAst.Spelling.{script_ast-Spells}
use brawllib_rs.ScriptAst.Leaves.{count}
use brawllib_rs.ScriptAst.Sizes.{script_ast-Ends}
use brawllib_rs.ScriptAst.Ends.{Returns, IsSafe, script_ast-Returns}
use brawllib_rs.ScriptAst.Safe.{IsAccepted, event_ast-IsSafe}
use brawllib_rs.ScriptAst.HitBoxLaws.{
  plain_hit_box, flags, place, hit_box_arguments_lem, create_special_hit_box_sound,
}

abbrev as_f32 : ℕ → ℕ
as_f32 v = v

abbrev code_of : ℕ → List (Argument ℕ) → Event ℕ
code_of code args = record { namespace = 0; code = code; unk1 = 0; arguments = args }

-- If in the air, wait; else, three times, nothing.
abbrev sample : Script ℕ
sample = record {
  events =
      code_of 0x0A (requirement false Requirement.in_air ∷ [])
      ∷ code_of 0x01 (scalar 7 ∷ [])
      ∷ code_of 0x0E []
      ∷ code_of 0x04 (value 3 ∷ [])
      ∷ code_of 0x02 []
      ∷ code_of 0x05 []
      ∷ code_of 0x0F []
      ∷ [];
  offset = 0x40;
}

abbrev sample_block : Block ℕ
sample_block =
    Block.cons
      (EventAst.if_statement (Expression.nullary Requirement.in_air)
        (Block.cons (EventAst.sync_wait 7) Block.empty)
        (else_block (
          Block.cons (EventAst.for_loop (Iterations.finite 3) (Block.cons EventAst.nop Block.empty))
            Block.empty)))
      Block.empty

sample-Spells : Spells as_f32 sample.events sample_block []
unfolding nesting_of begin_loop bare begin_test test from_args test_of iterations_of event_ast
    or_unknown other_arms flow one_scalar async_wait
sample-Spells =
    if_statement refl
      (otherwise (event refl refl done) refl (for_loop refl (event refl refl done) refl done) refl)
      done

script_ast-Spells_example :
    script_ast as_f32 sample ≡ some (ok (record { block = sample_block; offset = 0x40 }))
script_ast-Spells_example = script_ast-Spells as_f32 sample sample-Spells

script_ast-Ends_example :
    Ends (λ (ast : ScriptAst ℕ). count ast.block ≤ 7) (script_ast as_f32 sample)
script_ast-Ends_example = script_ast-Ends as_f32 sample

-- A grab box with the id 256, which the assertion refuses, and one with the id 3.
abbrev grab : ℕ → Event ℕ
grab id = record {
  namespace = 0x06;
  code = 0x0A;
  unk1 = 0;
  arguments =
      value id ∷ value 1 ∷ scalar 2 ∷ scalar 0 ∷ scalar 0 ∷ scalar 0 ∷ value 5 ∷ value 3 ∷ [];
}

event_ast-IsSafe_example :
    IsSafe as_f32 (grab 3) ↔ ((grab 3).namespace ≡ 0x06 → IsAccepted 0x0A (grab 3).arguments)
event_ast-IsSafe_example = event_ast-IsSafe as_f32 (grab 3)

-- An event that adds damage, without its arguments.
added-not-IsSafe :
    ¬ IsSafe as_f32 (record { namespace = 0x06; code = 0x14; unk1 = 0; arguments = [] })
added-not-IsSafe safe = (((event_ast-IsSafe as_f32 _).0 safe) refl).1 refl

sample-IsSafe : (e : Event ℕ) → e.namespace ≡ 0 → IsSafe as_f32 e
sample-IsSafe e zero_namespace = (event_ast-IsSafe as_f32 e).1 λ six. absurd (omega arith)

script_ast-Returns_example :
    Returns (λ (ast : ScriptAst ℕ). ast.offset ≡ 0x40) (script_ast as_f32 sample)
script_ast-Returns_example = script_ast-Returns as_f32 sample (
  sample-IsSafe _ refl,
  (
    sample-IsSafe _ refl,
    (
      sample-IsSafe _ refl,
      (
        sample-IsSafe _ refl,
        (sample-IsSafe _ refl, (sample-IsSafe _ refl, (sample-IsSafe _ refl, tt))),
      ),
    ),
  ),
)

abbrev box : HitBoxArguments ℕ
box =
    plain_hit_box (FloatValue.constant 5) 0x00030102 361 0x00000064 0x0000001E 5 0 0 0 0 1 1
      0x381E0263

hit_box_arguments_lem_example :
    (place box ≡ 0x00030102)
    × (box.wdsk * 2 ^ 16 + box.kbg ≡ 0x64)
    × (box.shield_damage * 2 ^ 16 + box.bkb ≡ 0x1E)
    × (flags box ≡ 0x381E0263)
hit_box_arguments_lem_example =
    hit_box_arguments_lem (FloatValue.constant 5) 0x00030102 361 0x00000064 0x0000001E 5 0 0 0 0 1 1
      0x381E0263 (omega arith) (omega arith) (omega arith) (omega arith)

create_special_hit_box_sound_example :
    (x : SpecialHitBoxArguments ℕ) × (create_special_hit_box as_f32 (
        value 0x00030102
        ∷ value 5
        ∷ value 361
        ∷ value 0x64
        ∷ value 0x1E
        ∷ scalar 5
        ∷ scalar 0
        ∷ scalar 0
        ∷ scalar 0
        ∷ scalar 0
        ∷ scalar 1
        ∷ scalar 1
        ∷ value 0x381E0263
        ∷ value 0
        ∷ value 0
        ∷ [])
      ≡ some (EventAst.create_special_hit_box x))
    × (x.hitbox_args.sound ≢ box.sound)
unfolding bits
create_special_hit_box_sound_example =
    create_special_hit_box_sound (FloatValue.constant 5) 0x00030102 361 0x64 0x1E 5 0 0 0 0 1 1
      0x381E0263 as_f32 5 0 0 (omega arith)
