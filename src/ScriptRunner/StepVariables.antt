-- ===== src/ScriptRunner/StepVariables.antt =====
-- The arms of `step_event` in src/script_runner.rs that change variables, or what constants are
-- computed from.
use brawllib_rs.Prelude.{ℕ, true, false}
use brawllib_rs.Outcome.{Outcome, ok, ◌>>=◌}
use brawllib_rs.VariableAst.Ast.{VariableAst}
use brawllib_rs.ScriptAst.HitBoxes.{FloatValue}
use brawllib_rs.ScriptAst.Tree.{EventAst}
use brawllib_rs.ScriptRunner.Numbers.{Floats, add_i32, sub_i32}
use brawllib_rs.ScriptRunner.Variables.{
  Variables, get_variable_int, get_variable_float, get_float_value, set_variable_int,
  set_variable_float, set_variable_bool,
}

module _ {F : Type 0} (fl : Floats F) (s : Variables F) where
  -- The arms that compute an i32 or an f32 from the old value.
  unfoldable pub change_int : VariableAst → (ℕ → Outcome ℕ) → Outcome (Variables F)
  change_int v f = do old ← get_variable_int fl s v; new ← f old; set_variable_int fl s v new

  unfoldable pub change_float : FloatValue F → VariableAst → (F → F → F) → Outcome (Variables F)
  change_float x v f = do
    value ← get_float_value fl s x
    old ← get_variable_float fl s v
    set_variable_float fl s v (f old value)

  -- Every other event leaves the variables as they are.
  unfoldable pub step_variables : EventAst F → Outcome (Variables F)
  unfolding change_int change_float
  step_variables (EventAst.int_variable_set x v) = set_variable_int fl s v x
  step_variables (EventAst.int_variable_add x v) = change_int v λ old. add_i32 old x
  step_variables (EventAst.int_variable_subtract x v) = change_int v λ old. sub_i32 old x
  step_variables (EventAst.int_variable_increment v) = change_int v λ old. add_i32 old 1
  step_variables (EventAst.int_variable_decrement v) = change_int v λ old. sub_i32 old 1
  step_variables (EventAst.float_variable_set x v) =
      get_float_value fl s x >>= λ value. set_variable_float fl s v value
  step_variables (EventAst.float_variable_add x v) = change_float x v fl.add
  step_variables (EventAst.float_variable_subtract x v) = change_float x v fl.sub
  step_variables (EventAst.float_variable_multiply x v) = change_float x v fl.mul
  step_variables (EventAst.float_variable_divide x v) = change_float x v fl.div
  step_variables (EventAst.bool_variable_set_true v) = set_variable_bool fl s v true
  step_variables (EventAst.bool_variable_set_false v) = set_variable_bool fl s v false
  step_variables (EventAst.set_animation_and_timer_frame x) = ok (record s { frame_index = x })
  step_variables (EventAst.frame_speed_modifier multiplier unk) =
      ok (record s { frame_speed_modifier = multiplier })
  step_variables _ = ok s
