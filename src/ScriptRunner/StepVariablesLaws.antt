-- ===== src/ScriptRunner/StepVariablesLaws.antt =====
-- What the events that change variables in src/script_runner.rs do to the abstract view of them.
use brawllib_rs.Prelude.{ℕ, ◌≡◌, ◌≢◌, refl, true, false}
use brawllib_rs.Outcome.{Outcome, ok, panic, ◌>>=◌}
use brawllib_rs.VariableAst.Constants.{InternalConstantInt}
use brawllib_rs.VariableAst.Ast.{VariableAst, internal_constant_int, ast_data_type}
use brawllib_rs.ScriptAst.HitBoxes.{FloatValue}
use brawllib_rs.ScriptAst.Tree.{EventAst}
use brawllib_rs.ScriptRunner.Numbers.{Floats, add_i32, sub_i32}
use brawllib_rs.ScriptRunner.Variables.{Variables, constant, get_float_value, set_variable_int}
use brawllib_rs.ScriptRunner.Stored.{
  Value, lookup, as_int, as_float, of_int, of_float, of_bool, Updates,
}
use brawllib_rs.ScriptRunner.Store.{
  set_variable_int-Updates, set_variable_float-Updates, set_variable_bool-Updates, get_variable_lem,
}
use brawllib_rs.ScriptRunner.StepVariables.{change_int, change_float, step_variables}

-- A variable and its new value, or a panic in computing it; a constant and the f32 that it is now
-- computed from; or no change at all.
pub data Edit (F : Type 0) : Type 0 where
  keep : Edit F
  edit : VariableAst → Outcome (Value F) → Edit F
  tick : InternalConstantInt → F → Edit F

module _ {F : Type 0} (fl : Floats F) (s : Variables F) where
  abbrev pub Performs : Edit F → Outcome (Variables F) → Type 0
  Performs keep m = m ≡ ok s
  Performs (edit v (ok x)) m = (t : Variables F) × (m ≡ ok t) × Updates fl s v x t
  Performs (edit v panic) m = m ≡ panic
  Performs (tick c x) m =
      (t : Variables F) × (m ≡ ok t)
      × (constant fl t c ≡ fl.to_i32 x)
      × ((w : VariableAst) → internal_constant_int c ≢ w → lookup fl t w ≡ lookup fl s w)

  -- The value of an argument.
  abbrev argument_of : FloatValue F → F
  argument_of (FloatValue.constant x) = x
  argument_of (FloatValue.variable v) = as_float fl (lookup fl s v)

  -- A new value from the old one, as an i32 or as an f32.
  abbrev edit_int : VariableAst → (ℕ → Outcome ℕ) → Edit F
  edit_int v f = edit v (f (as_int fl (lookup fl s v)) >>= λ x. ok (of_int fl (ast_data_type v) x))

  abbrev edit_float : VariableAst → (F → F) → Edit F
  edit_float v f = edit v (ok (of_float fl (ast_data_type v) (f (as_float fl (lookup fl s v)))))

  abbrev pub edit_of : EventAst F → Edit F
  edit_of (EventAst.int_variable_set x v) = edit_int v λ old. ok x
  edit_of (EventAst.int_variable_add x v) = edit_int v λ old. add_i32 old x
  edit_of (EventAst.int_variable_subtract x v) = edit_int v λ old. sub_i32 old x
  edit_of (EventAst.int_variable_increment v) = edit_int v λ old. add_i32 old 1
  edit_of (EventAst.int_variable_decrement v) = edit_int v λ old. sub_i32 old 1
  edit_of (EventAst.float_variable_set x v) = edit_float v λ old. argument_of x
  edit_of (EventAst.float_variable_add x v) = edit_float v λ old. fl.add old (argument_of x)
  edit_of (EventAst.float_variable_subtract x v) = edit_float v λ old. fl.sub old (argument_of x)
  edit_of (EventAst.float_variable_multiply x v) = edit_float v λ old. fl.mul old (argument_of x)
  edit_of (EventAst.float_variable_divide x v) = edit_float v λ old. fl.div old (argument_of x)
  edit_of (EventAst.bool_variable_set_true v) = edit v (ok (of_bool fl (ast_data_type v) true))
  edit_of (EventAst.bool_variable_set_false v) = edit v (ok (of_bool fl (ast_data_type v) false))
  edit_of (EventAst.set_animation_and_timer_frame x) = tick InternalConstantInt.current_frame x
  edit_of (EventAst.frame_speed_modifier multiplier unk) =
      tick InternalConstantInt.current_frame_speed multiplier
  edit_of _ = keep

  set_int-Performs :
      (v : VariableAst) (m : Outcome ℕ)
      → Performs
          (edit v (m >>= λ x. ok (of_int fl (ast_data_type v) x)))
          (m >>= λ x. set_variable_int fl s v x)
  set_int-Performs v (ok x) = set_variable_int-Updates fl s v x
  set_int-Performs v panic = refl

  change_int-Performs :
      (v : VariableAst) (f : ℕ → Outcome ℕ) → Performs (edit_int v f) (change_int fl s v f)
  unfolding change_int
  change_int-Performs v f =
      rw ((get_variable_lem fl s v).0) (set_int-Performs v (f (as_int fl (lookup fl s v))))

  get_float_value_lem : (x : FloatValue F) → get_float_value fl s x ≡ ok (argument_of x)
  unfolding get_float_value
  get_float_value_lem (FloatValue.constant x) = refl
  get_float_value_lem (FloatValue.variable v) = (get_variable_lem fl s v).1

  change_float-Performs :
      (x : FloatValue F) (v : VariableAst) (f : F → F → F)
      → Performs (edit_float v λ old. f old (argument_of x)) (change_float fl s x v f)
  unfolding change_float
  change_float-Performs x v f =
      rw (get_float_value_lem x, (get_variable_lem fl s v).1)
        (set_variable_float-Updates fl s v (f (as_float fl (lookup fl s v)) (argument_of x)))

  frame_index_others :
      (x : F) (w : VariableAst)
      → internal_constant_int InternalConstantInt.current_frame ≢ w
      → lookup fl (record s { frame_index = x }) w ≡ lookup fl s w
  unfolding constant
  frame_index_others x (internal_constant_int InternalConstantInt.current_frame) ne =
      absurd (ne refl)
  frame_index_others x (internal_constant_int _) ne = refl
  frame_index_others x _ ne = refl

  frame_speed_others :
      (x : F) (w : VariableAst)
      → internal_constant_int InternalConstantInt.current_frame_speed ≢ w
      → lookup fl (record s { frame_speed_modifier = x }) w ≡ lookup fl s w
  unfolding constant
  frame_speed_others x (internal_constant_int InternalConstantInt.current_frame_speed) ne =
      absurd (ne refl)
  frame_speed_others x (internal_constant_int _) ne = refl
  frame_speed_others x _ ne = refl

  -- Each event that changes a variable gives it the value that is computed from the old one and the
  -- argument, as the abstract view has them, and stored as the type of the variable asks for, if the
  -- variable can be set: it has a name, or an address inside its vector. No other variable changes, nor
  -- do the lengths of the vectors. The two events that set the frame and the speed of frames change the
  -- one constant that is computed from it. The variables are accessed without a panic but for a sum or
  -- a difference of i32 that overflows, and all other events leave them as they are.
  pub step_variables-Performs : (e : EventAst F) → Performs (edit_of e) (step_variables fl s e)
  unfolding step_variables constant
  step_variables-Performs (EventAst.int_variable_set x v) = set_variable_int-Updates fl s v x
  step_variables-Performs (EventAst.int_variable_add x v) =
      change_int-Performs v λ old. add_i32 old x
  step_variables-Performs (EventAst.int_variable_subtract x v) =
      change_int-Performs v λ old. sub_i32 old x
  step_variables-Performs (EventAst.int_variable_increment v) =
      change_int-Performs v λ old. add_i32 old 1
  step_variables-Performs (EventAst.int_variable_decrement v) =
      change_int-Performs v λ old. sub_i32 old 1
  step_variables-Performs (EventAst.float_variable_set x v) =
      rw (get_float_value_lem x) (set_variable_float-Updates fl s v (argument_of x))
  step_variables-Performs (EventAst.float_variable_add x v) = change_float-Performs x v fl.add
  step_variables-Performs (EventAst.float_variable_subtract x v) = change_float-Performs x v fl.sub
  step_variables-Performs (EventAst.float_variable_multiply x v) = change_float-Performs x v fl.mul
  step_variables-Performs (EventAst.float_variable_divide x v) = change_float-Performs x v fl.div
  step_variables-Performs (EventAst.bool_variable_set_true v) =
      set_variable_bool-Updates fl s v true
  step_variables-Performs (EventAst.bool_variable_set_false v) =
      set_variable_bool-Updates fl s v false
  step_variables-Performs (EventAst.set_animation_and_timer_frame x) =
      (_, refl, refl, frame_index_others x)
  step_variables-Performs (EventAst.frame_speed_modifier multiplier unk) =
      (_, refl, refl, frame_speed_others multiplier)
  step_variables-Performs _ = refl
