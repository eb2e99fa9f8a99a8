-- ===== src/ScriptRunner/Store.antt =====
-- Setting a variable of a `ScriptRunner` in src/script_runner.rs is an update of the abstract view, and
-- reading one is a lookup in it: no call meets a variable of another type.
use brawllib_rs.Prelude.{ℕ, ◌≡◌, refl, Bool, not, ◌==◌, if◌then◌else◌}
use brawllib_rs.Outcome.{Outcome, ok}
use brawllib_rs.Script.Argument.{VariableDataType, int, float, bool}
use brawllib_rs.VariableAst.Ast.{
  VariableAst, internal_constant_int, longterm_access_int, longterm_access_float,
  longterm_access_bool, random_access_int, random_access_float, random_access_bool, ast_data_type,
}
use brawllib_rs.ScriptRunner.Numbers.{Floats}
use brawllib_rs.ScriptRunner.Variables.{
  Variables, get_variable_int_inner, get_variable_float_inner, get_variable_bool_inner,
  set_variable_int_inner, set_variable_float_inner, set_variable_bool_inner, get_variable_int,
  get_variable_float, set_variable_int, set_variable_float,
}
use brawllib_rs.ScriptRunner.Stored.{lookup, as_int, as_float, of_int, of_float, Updates}
use brawllib_rs.ScriptRunner.Variables.{set_variable_bool}
use brawllib_rs.ScriptRunner.Stored.{picked, of_bool}
use brawllib_rs.ScriptRunner.Setters.{
  same-Updates, longterm_int-Updates, random_int-Updates, longterm_float-Updates,
  random_float-Updates, longterm_bool-Updates, random_bool-Updates,
}

module _ {F : Type 0} (fl : Floats F) (s : Variables F) where
  -- What is set is an i32, an f32 or a bool, as the variable asks for.
  picked-Updates :
      (v : VariableAst) (x : ℕ) (y : F) (b : Bool)
      → (t : Variables F) × ((elim (ast_data_type v) as (λ _. Outcome (Variables F)) [
        | int ↦ set_variable_int_inner fl s v x
        | float ↦ set_variable_float_inner fl s v y
        | bool ↦ set_variable_bool_inner fl s v b
        | VariableDataType.unknown _ ↦ ok s
      ])
          ≡ ok t)
        × Updates fl s v (picked (ast_data_type v) x y b) t
  unfolding ast_data_type set_variable_int_inner set_variable_float_inner set_variable_bool_inner
  picked-Updates (internal_constant_int v) x y b = (_, refl, same-Updates fl s _ _ λ h. h)
  picked-Updates (longterm_access_int v) x y b = (_, refl, longterm_int-Updates fl s v x)
  picked-Updates (random_access_int v) x y b = (_, refl, random_int-Updates fl s v x)
  picked-Updates (longterm_access_float v) x y b = (_, refl, longterm_float-Updates fl s v y)
  picked-Updates (random_access_float v) x y b = (_, refl, random_float-Updates fl s v y)
  picked-Updates (longterm_access_bool v) x y b = (_, refl, longterm_bool-Updates fl s v b)
  picked-Updates (random_access_bool v) x y b = (_, refl, random_bool-Updates fl s v b)
  picked-Updates (VariableAst.unknown m int a) x y b = (_, refl, same-Updates fl s _ _ λ h. h)
  picked-Updates (VariableAst.unknown m float a) x y b = (_, refl, same-Updates fl s _ _ λ h. h)
  picked-Updates (VariableAst.unknown m bool a) x y b = (_, refl, same-Updates fl s _ _ λ h. h)
  picked-Updates (VariableAst.unknown m (VariableDataType.unknown k) a) x y b =
      (_, refl, same-Updates fl s _ _ λ h. h)

  -- Setting a variable does not panic, whatever its type, and updates that variable alone.
  pub set_variable_int-Updates :
      (v : VariableAst) (x : ℕ)
      → (t : Variables F) × (set_variable_int fl s v x ≡ ok t)
        × Updates fl s v (of_int fl (ast_data_type v) x) t
  unfolding set_variable_int
  set_variable_int-Updates v x = picked-Updates v x (fl.of_i32 x) (not (x == 0))

  pub set_variable_float-Updates :
      (v : VariableAst) (x : F)
      → (t : Variables F) × (set_variable_float fl s v x ≡ ok t)
        × Updates fl s v (of_float fl (ast_data_type v) x) t
  unfolding set_variable_float
  set_variable_float-Updates v x = picked-Updates v (fl.to_i32 x) x (not (fl.eq x fl.zero))

  pub set_variable_bool-Updates :
      (v : VariableAst) (b : Bool)
      → (t : Variables F) × (set_variable_bool fl s v b ≡ ok t)
        × Updates fl s v (of_bool fl (ast_data_type v) b) t
  unfolding set_variable_bool
  set_variable_bool-Updates v b =
      picked-Updates v (if b then 1 else 0) (if b then fl.one else fl.zero) b

  pub get_variable_int-lookup :
      (v : VariableAst) → get_variable_int fl s v ≡ ok (as_int fl (lookup fl s v))
  unfolding get_variable_int ast_data_type get_variable_int_inner get_variable_float_inner
      get_variable_bool_inner
  get_variable_int-lookup (internal_constant_int v) = refl
  get_variable_int-lookup (longterm_access_int v) = refl
  get_variable_int-lookup (random_access_int v) = refl
  get_variable_int-lookup (longterm_access_float v) = refl
  get_variable_int-lookup (random_access_float v) = refl
  get_variable_int-lookup (longterm_access_bool v) = refl
  get_variable_int-lookup (random_access_bool v) = refl
  get_variable_int-lookup (VariableAst.unknown m int a) = refl
  get_variable_int-lookup (VariableAst.unknown m float a) = refl
  get_variable_int-lookup (VariableAst.unknown m bool a) = refl
  get_variable_int-lookup (VariableAst.unknown m (VariableDataType.unknown k) a) = refl

  pub get_variable_float-lookup :
      (v : VariableAst) → get_variable_float fl s v ≡ ok (as_float fl (lookup fl s v))
  unfolding get_variable_float ast_data_type get_variable_int_inner get_variable_float_inner
      get_variable_bool_inner
  get_variable_float-lookup (internal_constant_int v) = refl
  get_variable_float-lookup (longterm_access_int v) = refl
  get_variable_float-lookup (random_access_int v) = refl
  get_variable_float-lookup (longterm_access_float v) = refl
  get_variable_float-lookup (random_access_float v) = refl
  get_variable_float-lookup (longterm_access_bool v) = refl
  get_variable_float-lookup (random_access_bool v) = refl
  get_variable_float-lookup (VariableAst.unknown m int a) = refl
  get_variable_float-lookup (VariableAst.unknown m float a) = refl
  get_variable_float-lookup (VariableAst.unknown m bool a) = refl
  get_variable_float-lookup (VariableAst.unknown m (VariableDataType.unknown k) a) = refl

  -- Reading a variable as an i32 or as an f32, whatever its type, does not panic, and gives the value
  -- that the view has for it, converted.
  pub get_variable_lem :
      (v : VariableAst)
      → (get_variable_int fl s v ≡ ok (as_int fl (lookup fl s v)))
        × (get_variable_float fl s v ≡ ok (as_float fl (lookup fl s v)))
  get_variable_lem v = (get_variable_int-lookup v, get_variable_float-lookup v)
