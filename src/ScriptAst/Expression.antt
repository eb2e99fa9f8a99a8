-- ===== src/ScriptAst/Expression.antt =====
-- `Expression` of src/script_ast/mod.rs: the conditions of an event, and how its arguments give one.
use brawllib_rs.Prelude.{ℕ, Bool, Option, none, some, ◌==◌, if◌then◌else◌}
use brawllib_rs.ScriptAst.Options.{◌>>=◌}
use brawllib_rs.VariableAst.Ast.{VariableAst, variable_ast}
use brawllib_rs.Script.Requirement.{Requirement}
use brawllib_rs.Script.Argument.{Argument}

pub data ComparisonOperator : Type 0 where
  less_than less_than_or_equal equal not_equal greater_than_or_equal : ComparisonOperator
  greater_than and or : ComparisonOperator
  unknown_arg : ℕ → ComparisonOperator

-- `ComparisonOperator::from_arg`
unfoldable pub comparison_operator : ℕ → ComparisonOperator
comparison_operator v =
    if v == 0
    then ComparisonOperator.less_than
    else if v == 1
    then ComparisonOperator.less_than_or_equal
    else if v == 2
    then ComparisonOperator.equal
    else if v == 3
    then ComparisonOperator.not_equal
    else if v == 4
    then ComparisonOperator.greater_than_or_equal
    else if v == 5
    then ComparisonOperator.greater_than
    else ComparisonOperator.unknown_arg v

pub data Expression (F : Type 0) : Type 0 where
  nullary : Requirement → Expression F
  unary : (requirement : Requirement) (value : Expression F) → Expression F
  binary : (left right : Expression F) (operator : ComparisonOperator) → Expression F
  not : Expression F → Expression F
  variable : VariableAst → Expression F
  value : ℕ → Expression F
  scalar : F → Expression F

pub record Interrupt (F : Type 0) : Type 0 where
  pub interrupt_id : Option ℕ
  pub action : ℕ
  pub test : Expression F

module _ {F : Type 0} where
  -- A scalar, a variable or a value; nothing else may be compared.
  unfoldable pub operand : Argument F → Option (Expression F)
  operand (Argument.scalar v) = some (Expression.scalar v)
  operand (Argument.variable v) = some (Expression.variable (variable_ast v))
  operand (Argument.value v) = some (Expression.value v)
  operand _ = none

  -- `match requirement { .. }` of a comparison.
  unfoldable pub comparison :
      Requirement → (left right : Expression F) (v2 : ℕ) → Option (Expression F)
  comparison Requirement.comparison left right v2 =
      some (Expression.binary left right (comparison_operator v2))
  comparison Requirement.always left right v2 = some (Expression.nullary Requirement.always)
  comparison _ left right v2 = none

  -- `let test = match (v1, v2, v3) { .. }`
  unfoldable pub test_of : Requirement → (v1 v2 v3 : Option (Argument F)) → Option (Expression F)
  unfolding operand comparison
  test_of requirement none none none = some (Expression.nullary requirement)
  test_of requirement (some v1) none none = do
    compared ← operand v1
    some (Expression.unary requirement compared)
  test_of requirement (some v1) (some (Argument.value v2)) (some v3) = do
    left ← operand v1
    right ← operand v3
    comparison requirement left right v2
  test_of requirement _ _ _ = none

  -- `Expression::from_args`
  unfoldable pub from_args :
      Requirement → (flip : Bool) (v1 v2 v3 : Option (Argument F)) → Option (Expression F)
  from_args requirement flip v1 v2 v3 = do
    test ← test_of requirement v1 v2 v3
    some (if flip then Expression.not test else test)
