-- ===== src/ScriptRunner/ExpressionLaws.antt =====
-- The expressions that `evaluate_expression` of src/script_runner.rs evaluates without a panic: those
-- that compare numbers only, which are all that the parser makes but for variables of another type.
use brawllib_rs.Prelude.{ℕ, ◌≡◌, refl, Bool, true, false, not, ◌==◌}
use brawllib_rs.Outcome.{Outcome, ok}
use brawllib_rs.Script.Requirement.{Requirement}
use brawllib_rs.Script.Argument.{VariableDataType, int, float, bool}
use brawllib_rs.VariableAst.Ast.{
  VariableAst, internal_constant_int, longterm_access_int, longterm_access_float,
  longterm_access_bool, random_access_int, random_access_float, random_access_bool, ast_data_type,
}
use brawllib_rs.ScriptAst.Expression.{Expression, ComparisonOperator}
use brawllib_rs.ScriptRunner.Numbers.{Floats, lt_i32, le_i32}
use brawllib_rs.ScriptRunner.Variables.{
  Variables, get_variable_int_inner, get_variable_float_inner, get_variable_bool_inner,
}
use brawllib_rs.ScriptRunner.Expressions.{
  ExprResult, of_int, of_float, of_bool, unwrap_bool, compare, binary, variable_result, unary,
  evaluate_expression,
}

abbrev pub IsNumber : VariableDataType → Type 0
IsNumber int = Unit
IsNumber float = Unit
IsNumber _ = ⊥

module _ {F : Type 0} where
  -- An expression whose value is a number, and such a value.
  abbrev pub IsNumeric : Expression F → Type 0
  IsNumeric (Expression.variable v) = IsNumber (ast_data_type v)
  IsNumeric (Expression.value x) = Unit
  IsNumeric (Expression.scalar x) = Unit
  IsNumeric _ = ⊥

  abbrev pub IsNumericResult : ExprResult F → Type 0
  IsNumericResult (of_bool b) = ⊥
  IsNumericResult _ = Unit

  -- What the operator asks of both sides.
  abbrev pub Accepts : ComparisonOperator → Expression F → Type 0
  Accepts ComparisonOperator.and e = Unit
  Accepts ComparisonOperator.or e = Unit
  Accepts (ComparisonOperator.unknown_arg v) e = Unit
  Accepts _ e = IsNumeric e

  abbrev pub IsTyped : Expression F → Type 0
  IsTyped (Expression.unary requirement e) = IsTyped e
  IsTyped (Expression.binary left right operator) =
      IsTyped left × IsTyped right × Accepts operator left × Accepts operator right
  IsTyped (Expression.not e) = IsTyped e
  IsTyped _ = Unit

module _ {F : Type 0} (fl : Floats F) (s : Variables F) where
  abbrev pub Evaluates : Expression F → Outcome (ExprResult F) → Type 0
  Evaluates e m = (r : ExprResult F) × (m ≡ ok r) × (IsNumeric e → IsNumericResult r)

  variable_result-Evaluates :
      (v : VariableAst) → Evaluates (Expression.variable v) (variable_result fl s v)
  unfolding variable_result ast_data_type get_variable_int_inner get_variable_float_inner
      get_variable_bool_inner
  variable_result-Evaluates (internal_constant_int v) = (_, refl, λ n. tt)
  variable_result-Evaluates (longterm_access_int v) = (_, refl, λ n. tt)
  variable_result-Evaluates (random_access_int v) = (_, refl, λ n. tt)
  variable_result-Evaluates (longterm_access_float v) = (_, refl, λ n. tt)
  variable_result-Evaluates (random_access_float v) = (_, refl, λ n. tt)
  variable_result-Evaluates (longterm_access_bool v) = (_, refl, λ n. n)
  variable_result-Evaluates (random_access_bool v) = (_, refl, λ n. n)
  variable_result-Evaluates (VariableAst.unknown m int a) = (_, refl, λ n. tt)
  variable_result-Evaluates (VariableAst.unknown m float a) = (_, refl, λ n. tt)
  variable_result-Evaluates (VariableAst.unknown m bool a) = (_, refl, λ n. n)
  variable_result-Evaluates (VariableAst.unknown m (VariableDataType.unknown k) a) =
      (_, refl, λ n. n)

  abbrev Returns : Outcome Bool → Type 0
  Returns m = (b : Bool) × (m ≡ ok b)

  choose-Returns :
      (b : Bool) (x y : Outcome Bool)
      → Returns x
      → Returns y
      → Returns (elim b [ true ↦ x | false ↦ y ])
  choose-Returns true x y h k = h
  choose-Returns false x y h k = k

  compare-Returns :
      (f : F → F → Bool) (g : ℕ → ℕ → Bool) (l r : ExprResult F)
      → IsNumericResult l
      → IsNumericResult r
      → Returns (compare fl f g l r)
  unfolding compare
  compare-Returns f g (of_int l) (of_int r) h k = (_, refl)
  compare-Returns f g (of_int l) (of_float r) h k = (_, refl)
  compare-Returns f g (of_float l) (of_int r) h k = (_, refl)
  compare-Returns f g (of_float l) (of_float r) h k = (_, refl)
  compare-Returns f g (of_bool l) r h k = absurd h
  compare-Returns f g (of_int l) (of_bool r) h k = absurd k
  compare-Returns f g (of_float l) (of_bool r) h k = absurd k

  -- Both sides evaluated, an operator that accepts them returns.
  binary-Returns :
      (operator : ComparisonOperator) (left right : Expression F) (l r : ExprResult F)
      → Accepts operator left
      → Accepts operator right
      → (IsNumeric left → IsNumericResult l)
      → (IsNumeric right → IsNumericResult r)
      → Returns (binary fl operator (ok l) (ok r))
  unfolding binary unwrap_bool
  binary-Returns ComparisonOperator.less_than left right l r a b h k =
      compare-Returns fl.lt lt_i32 l r (h a) (k b)
  binary-Returns ComparisonOperator.less_than_or_equal left right l r a b h k =
      compare-Returns fl.le le_i32 l r (h a) (k b)
  binary-Returns ComparisonOperator.equal left right l r a b h k =
      compare-Returns fl.eq (λ x y. x == y) l r (h a) (k b)
  binary-Returns ComparisonOperator.not_equal left right l r a b h k =
      compare-Returns (λ x y. not (fl.eq x y)) (λ x y. not (x == y)) l r (h a) (k b)
  binary-Returns ComparisonOperator.greater_than_or_equal left right l r a b h k =
      compare-Returns (λ x y. fl.le y x) (λ x y. le_i32 y x) l r (h a) (k b)
  binary-Returns ComparisonOperator.greater_than left right l r a b h k =
      compare-Returns (λ x y. fl.lt y x) (λ x y. lt_i32 y x) l r (h a) (k b)
  binary-Returns ComparisonOperator.or left right l r a b h k =
      choose-Returns (unwrap_bool fl l) (ok true) (ok (unwrap_bool fl r)) (_, refl) (_, refl)
  binary-Returns ComparisonOperator.and left right l r a b h k =
      choose-Returns (unwrap_bool fl l) (ok (unwrap_bool fl r)) (ok false) (_, refl) (_, refl)
  binary-Returns (ComparisonOperator.unknown_arg v) left right l r a b h k = (false, refl)

  unary-Returns :
      (requirement : Requirement) (r : ExprResult F) → Returns (unary fl requirement (ok r))
  unfolding unary
  unary-Returns Requirement.bool_is_true r = (_, refl)
  unary-Returns _ r = (_, refl)

  -- An expression in which `<`, `<=`, `==`, `!=`, `>=` and `>` have numbers on both sides is evaluated
  -- without a panic, whatever the variables hold; a variable that is an int or a float, a value and a
  -- scalar are evaluated to a number.
  pub evaluate_expression-Evaluates :
      (e : Expression F) → IsTyped e → Evaluates e (evaluate_expression fl s e)
  unfolding evaluate_expression
  evaluate_expression-Evaluates (Expression.nullary requirement) typed = (_, refl, λ n. n)
  evaluate_expression-Evaluates (Expression.unary requirement e) typed =
      let (r, same, _) = evaluate_expression-Evaluates e typed in
      let (b, returned) = unary-Returns requirement r in
      (of_bool b, rw (same, returned) refl, λ n. n)
  evaluate_expression-Evaluates (Expression.binary left right operator) (tl, tr, al, ar) =
      let (l, l_same, ln) = evaluate_expression-Evaluates left tl in
      let (r, r_same, rn) = evaluate_expression-Evaluates right tr in
      let (b, returned) = binary-Returns operator left right l r al ar ln rn in
      (of_bool b, rw (l_same, r_same, returned) refl, λ n. n)
  evaluate_expression-Evaluates (Expression.not e) typed =
      let (r, same, _) = evaluate_expression-Evaluates e typed in
      (of_bool (not (unwrap_bool fl r)), rw same refl, λ n. n)
  evaluate_expression-Evaluates (Expression.variable v) typed = variable_result-Evaluates v
  evaluate_expression-Evaluates (Expression.value x) typed = (_, refl, λ n. tt)
  evaluate_expression-Evaluates (Expression.scalar x) typed = (_, refl, λ n. tt)
