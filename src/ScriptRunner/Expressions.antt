-- ===== src/ScriptRunner/Expressions.antt =====
-- `evaluate_expression` of src/script_runner.rs, and the results that it has.
use brawllib_rs.Prelude.{ℕ, Bool, true, false, not, ◌==◌}
use brawllib_rs.Outcome.{Outcome, ok, panic, ◌>>=◌}
use brawllib_rs.Script.Requirement.{Requirement}
use brawllib_rs.Script.Argument.{VariableDataType, int, float, bool}
use brawllib_rs.VariableAst.Ast.{VariableAst, ast_data_type}
use brawllib_rs.ScriptAst.Expression.{Expression, ComparisonOperator}
use brawllib_rs.ScriptRunner.Numbers.{Floats, lt_i32, le_i32}
use brawllib_rs.ScriptRunner.Variables.{
  Variables, get_variable_int_inner, get_variable_float_inner, get_variable_bool_inner,
}

pub data ExprResult (F : Type 0) : Type 0 where
  of_int : ℕ → ExprResult F
  of_float : F → ExprResult F
  of_bool : Bool → ExprResult F

-- The requirements that hold of the fighter that the scripts are run for; of the others nothing is
-- known, and they are taken as false.
unfoldable pub requirement_holds : Requirement → Bool
requirement_holds Requirement.character_exists = true
requirement_holds Requirement.on_ground = true
requirement_holds Requirement.in_air = false
requirement_holds Requirement.facing_right = true
requirement_holds Requirement.hasnt_tethered3_times = true
requirement_holds Requirement.is_not_in_damaging_lens = true
requirement_holds _ = false

module _ {F : Type 0} (fl : Floats F) where
  -- `ExprResult::unwrap_bool`
  unfoldable pub unwrap_bool : ExprResult F → Bool
  unwrap_bool (of_bool result) = result
  unwrap_bool (of_int value) = not (value == 0)
  unwrap_bool (of_float value) = not (fl.eq value fl.zero)

  -- The match of each comparison: two numbers, as f32 if one of them is. The operator is given by what
  -- it is on f32 and on i32.
  unfoldable pub compare :
      (on_float : F → F → Bool) (on_int : ℕ → ℕ → Bool) (left right : ExprResult F) → Outcome Bool
  compare on_float on_int (of_float left) (of_float right) = ok (on_float left right)
  compare on_float on_int (of_int left) (of_float right) = ok (on_float (fl.of_i32 left) right)
  compare on_float on_int (of_float left) (of_int right) = ok (on_float left (fl.of_i32 right))
  compare on_float on_int (of_int left) (of_int right) = ok (on_int left right)
  compare on_float on_int _ _ = panic

  -- `match &binary.operator { .. }`, with the evaluation of both sides: `||` and `&&` evaluate the
  -- right side only if they need it.
  unfoldable pub binary : ComparisonOperator → (left right : Outcome (ExprResult F)) → Outcome Bool
  unfolding compare unwrap_bool
  binary ComparisonOperator.less_than left right =
      left >>= λ l. right >>= λ r. compare fl.lt lt_i32 l r
  binary ComparisonOperator.less_than_or_equal left right =
      left >>= λ l. right >>= λ r. compare fl.le le_i32 l r
  binary ComparisonOperator.equal left right =
      left >>= λ l. right >>= λ r. compare fl.eq (λ a b. a == b) l r
  binary ComparisonOperator.not_equal left right =
      left >>= λ l. right >>= λ r. compare (λ a b. not (fl.eq a b)) (λ a b. not (a == b)) l r
  binary ComparisonOperator.greater_than_or_equal left right =
      left >>= λ l. right >>= λ r. compare (λ a b. fl.le b a) (λ a b. le_i32 b a) l r
  binary ComparisonOperator.greater_than left right =
      left >>= λ l. right >>= λ r. compare (λ a b. fl.lt b a) (λ a b. lt_i32 b a) l r
  binary ComparisonOperator.or left right = left >>= λ l. elim (unwrap_bool l) [
    | true ↦ ok true
    | false ↦ right >>= λ r. ok (unwrap_bool r)
  ]
  binary ComparisonOperator.and left right = left >>= λ l. elim (unwrap_bool l) [
    | true ↦ right >>= λ r. ok (unwrap_bool r)
    | false ↦ ok false
  ]
  binary (ComparisonOperator.unknown_arg _) left right = ok false

  -- The arm of a variable: one whose type is unknown is taken as false.
  unfoldable pub variable_result : Variables F → VariableAst → Outcome (ExprResult F)
  variable_result s v = elim (ast_data_type v) [
    | int ↦ get_variable_int_inner fl s v >>= λ x. ok (of_int x)
    | float ↦ get_variable_float_inner fl s v >>= λ x. ok (of_float x)
    | bool ↦ get_variable_bool_inner fl s v >>= λ b. ok (of_bool b)
    | VariableDataType.unknown _ ↦ ok (of_bool false)
  ]

  -- The value of a requirement with an argument, which `BoolIsTrue` alone evaluates.
  unfoldable pub unary : Requirement → Outcome (ExprResult F) → Outcome Bool
  unfolding unwrap_bool
  unary Requirement.bool_is_true value = value >>= λ v. ok (unwrap_bool v)
  unary requirement value = ok (requirement_holds requirement)

  -- `evaluate_expression`: it changes nothing.
  unfoldable pub evaluate_expression : Variables F → Expression F → Outcome (ExprResult F)
  unfolding unwrap_bool binary variable_result unary
  evaluate_expression s (Expression.nullary requirement) =
      ok (of_bool (requirement_holds requirement))
  evaluate_expression s (Expression.unary requirement tested) =
      unary requirement (evaluate_expression s tested) >>= λ b. ok (of_bool b)
  evaluate_expression s (Expression.binary left right operator) =
      binary operator (evaluate_expression s left) (evaluate_expression s right) >>= λ b.
      ok (of_bool b)
  evaluate_expression s (Expression.not e) =
      evaluate_expression s e >>= λ r. ok (of_bool (not (unwrap_bool r)))
  evaluate_expression s (Expression.variable v) = variable_result s v
  evaluate_expression s (Expression.value x) = ok (of_int x)
  evaluate_expression s (Expression.scalar x) = ok (of_float x)
