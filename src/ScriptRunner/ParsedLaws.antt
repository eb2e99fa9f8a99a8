-- ===== src/ScriptRunner/ParsedLaws.antt =====
-- The tests that `Expression::from_args` of src/script_ast/mod.rs makes are evaluated by
-- src/script_runner.rs without a panic, but for comparisons with a variable that is not a number.
use mathlib.Core.Path.{subst}
use brawllib_rs.Prelude.{ℕ, ◌≡◌, Bool, true, false, Option, none, some, if◌then◌else◌}
use brawllib_rs.Outcome.{ok}
use brawllib_rs.Script.Requirement.{Requirement}
use brawllib_rs.Script.Argument.{Argument, value}
use brawllib_rs.VariableAst.Laws.{ast_data_type-variable_ast}
use brawllib_rs.ScriptAst.Options.{◌>>=◌}
use brawllib_rs.ScriptAst.Expression.{
  Expression, ComparisonOperator, comparison_operator, operand, comparison, test_of, from_args,
}
use brawllib_rs.ScriptRunner.Numbers.{Floats}
use brawllib_rs.ScriptRunner.Variables.{Variables}
use brawllib_rs.ScriptRunner.Expressions.{ExprResult, evaluate_expression}
use brawllib_rs.ScriptRunner.ExpressionLaws.{
  IsNumber, IsNumeric, Accepts, IsTyped, evaluate_expression-Evaluates,
}

module _ {F : Type 0} where
  -- No variable of another type than int and float is compared.
  abbrev IsComparableArgument : Argument F → Type 0
  IsComparableArgument (Argument.variable v) = IsNumber v.data_type
  IsComparableArgument _ = Unit

  abbrev pub IsComparable : (v1 v3 : Option (Argument F)) → Type 0
  IsComparable (some a) (some b) = IsComparableArgument a × IsComparableArgument b
  IsComparable _ _ = Unit

  abbrev AllOf : (Expression F → Type 0) → Option (Expression F) → Type 0
  AllOf P none = Unit
  AllOf P (some e) = P e

  operand-IsTyped : (a : Argument F) → AllOf IsTyped (operand a)
  unfolding operand
  operand-IsTyped (Argument.scalar v) = tt
  operand-IsTyped (Argument.variable v) = tt
  operand-IsTyped (Argument.value v) = tt
  operand-IsTyped _ = tt

  operand-IsNumeric : (a : Argument F) → IsComparableArgument a → AllOf IsNumeric (operand a)
  unfolding operand
  operand-IsNumeric (Argument.scalar v) h = tt
  operand-IsNumeric (Argument.variable v) h = rw (ast_data_type-variable_ast v) h
  operand-IsNumeric (Argument.value v) h = tt
  operand-IsNumeric _ h = tt

  IsNumeric-Accepts : (o : ComparisonOperator) (e : Expression F) → IsNumeric e → Accepts o e
  IsNumeric-Accepts ComparisonOperator.and e h = tt
  IsNumeric-Accepts ComparisonOperator.or e h = tt
  IsNumeric-Accepts (ComparisonOperator.unknown_arg v) e h = tt
  IsNumeric-Accepts _ e h = h

  comparison-IsTyped :
      (requirement : Requirement) (l r : Expression F) (v2 : ℕ)
      → IsTyped l
      → IsTyped r
      → IsNumeric l
      → IsNumeric r
      → AllOf IsTyped (comparison requirement l r v2)
  unfolding comparison
  comparison-IsTyped Requirement.comparison l r v2 tl tr nl nr = (
    tl,
    tr,
    IsNumeric-Accepts (comparison_operator v2) l nl,
    IsNumeric-Accepts (comparison_operator v2) r nr,
  )
  comparison-IsTyped Requirement.always l r v2 tl tr nl nr = tt
  comparison-IsTyped _ l r v2 tl tr nl nr = tt

  both-IsTyped :
      (requirement : Requirement) (v2 : ℕ) (l r : Option (Expression F))
      → AllOf IsTyped l
      → AllOf IsTyped r
      → AllOf IsNumeric l
      → AllOf IsNumeric r
      → AllOf IsTyped (l >>= λ left. r >>= λ right. comparison requirement left right v2)
  both-IsTyped requirement v2 none r tl tr nl nr = tt
  both-IsTyped requirement v2 (some l) none tl tr nl nr = tt
  both-IsTyped requirement v2 (some l) (some r) tl tr nl nr =
      comparison-IsTyped requirement l r v2 tl tr nl nr

  one-IsTyped :
      (requirement : Requirement) (e : Option (Expression F))
      → AllOf IsTyped e
      → AllOf IsTyped (e >>= λ compared. some (Expression.unary requirement compared))
  one-IsTyped requirement none h = tt
  one-IsTyped requirement (some e) h = h

  test_of-IsTyped :
      (requirement : Requirement) (v1 v2 v3 : Option (Argument F))
      → IsComparable v1 v3
      → AllOf IsTyped (test_of requirement v1 v2 v3)
  unfolding test_of
  test_of-IsTyped requirement none none none h = tt
  test_of-IsTyped requirement (some v1) none none h =
      one-IsTyped requirement (operand v1) (operand-IsTyped v1)
  test_of-IsTyped requirement (some v1) (some (value v2)) (some v3) h =
      both-IsTyped requirement v2 (operand v1) (operand v3) (operand-IsTyped v1)
        (operand-IsTyped v3) (operand-IsNumeric v1 h.0) (operand-IsNumeric v3 h.1)
  test_of-IsTyped requirement _ _ _ h = tt

  flipped-IsTyped :
      (flip : Bool) (e : Option (Expression F))
      → AllOf IsTyped e
      → AllOf IsTyped (e >>= λ test. some (if flip then Expression.not test else test))
  flipped-IsTyped flip none h = tt
  flipped-IsTyped true (some e) h = h
  flipped-IsTyped false (some e) h = h

  from_args-IsTyped :
      (requirement : Requirement) (flip : Bool) (v1 v2 v3 : Option (Argument F))
      → IsComparable v1 v3
      → AllOf IsTyped (from_args requirement flip v1 v2 v3)
  unfolding from_args
  from_args-IsTyped requirement flip v1 v2 v3 h =
      flipped-IsTyped flip (test_of requirement v1 v2 v3) (test_of-IsTyped requirement v1 v2 v3 h)

  -- A test that is parsed from the arguments of an event is evaluated without a panic, whatever the
  -- variables hold, unless its first and third argument are compared and one of them is a variable
  -- that is neither an int nor a float.
  pub from_args_evaluates :
      (fl : Floats F) (s : Variables F) (requirement : Requirement) (flip : Bool)
      (v1 v2 v3 : Option (Argument F)) {e : Expression F}
      → IsComparable v1 v3
      → from_args requirement flip v1 v2 v3 ≡ some e
      → (r : ExprResult F) × (evaluate_expression fl s e ≡ ok r)
  from_args_evaluates fl s requirement flip v1 v2 v3 {e} h parsed =
      let typed : AllOf IsTyped (some e) =
        subst (AllOf IsTyped) parsed (from_args-IsTyped requirement flip v1 v2 v3 h) in
      let (r, same, _) = evaluate_expression-Evaluates fl s e typed in (r, same)
