-- ===== src/ScriptRunner/Setters.antt =====
-- The updates that the setters of src/script_runner.rs do, one for each table of variables.
use brawllib_rs.Prelude.{ℕ, ◌≡◌, ◌≢◌, refl, ap, ◌∙◌, Bool}
use brawllib_rs.VariableAst.Tables.{
  LongtermAccessInt, LongtermAccessFloat, LongtermAccessBool, RandomAccessInt, RandomAccessFloat,
  RandomAccessBool,
}
use brawllib_rs.VariableAst.Ast.{
  VariableAst, longterm_access_int, longterm_access_float, longterm_access_bool, random_access_int,
  random_access_float, random_access_bool,
}
use brawllib_rs.ScriptRunner.Numbers.{Floats}
use brawllib_rs.ScriptRunner.Ints.{set_longterm_int, set_random_int}
use brawllib_rs.ScriptRunner.Floats.{set_longterm_float, set_random_float}
use brawllib_rs.ScriptRunner.Bools.{set_longterm_bool, set_random_bool}
use brawllib_rs.ScriptRunner.IntLaws.{
  get_longterm_int-set, get_longterm_int-set_ne, length-set_longterm_int, get_random_int-set,
  get_random_int-set_ne, length-set_random_int,
}
use brawllib_rs.ScriptRunner.FloatLaws.{
  get_longterm_float-set, get_longterm_float-set_ne, length-set_longterm_float,
  get_random_float-set, get_random_float-set_ne, length-set_random_float,
}
use brawllib_rs.ScriptRunner.BoolLaws.{
  get_longterm_bool-set, get_longterm_bool-set_ne, length-set_longterm_bool, get_random_bool-set,
  get_random_bool-set_ne, length-set_random_bool,
}
use brawllib_rs.ScriptRunner.Variables.{Variables, constant}
use brawllib_rs.ScriptRunner.Stored.{Value, an_int, a_float, a_bool, lookup, IsStored, Updates}

module _ {F : Type 0} (fl : Floats F) (s : Variables F) where
  -- A variable that is not stored, and a state that stays the same.
  pub same-Updates : (v : VariableAst) (x : Value F) → (IsStored s v → ⊥) → Updates fl s v x s
  same-Updates v x h = record {
    stored = λ stored. absurd (h stored);
    frame = λ w ne. refl;
    sized = λ sized. sized;
  }

  module _ (v : LongtermAccessInt) (x : ℕ) where
    abbrev pub longterm_int_set : Variables F
    longterm_int_set = record s { longterm_ints = set_longterm_int s.longterm_ints v x }

    longterm_int_frame :
        (w : VariableAst) → longterm_access_int v ≢ w → lookup fl longterm_int_set w ≡ lookup fl s w
    unfolding constant
    longterm_int_frame (longterm_access_int w) ne =
        ap an_int (get_longterm_int-set_ne s.longterm_ints v w x λ e. ne (ap longterm_access_int e))
    longterm_int_frame _ ne = refl

    pub longterm_int-Updates : Updates fl s (longterm_access_int v) (an_int x) longterm_int_set
    longterm_int-Updates = record {
      stored = λ h. ap an_int (get_longterm_int-set s.longterm_ints v x h);
      frame = longterm_int_frame;
      sized = λ sized. record {
        longterm_int = length-set_longterm_int s.longterm_ints v x ∙ sized.longterm_int;
        longterm_float = sized.longterm_float;
        longterm_bool = sized.longterm_bool;
        random_int = sized.random_int;
        random_float = sized.random_float;
        random_bool = sized.random_bool;
      };
    }

  module _ (v : RandomAccessInt) (x : ℕ) where
    abbrev pub random_int_set : Variables F
    random_int_set = record s { random_ints = set_random_int s.random_ints v x }

    random_int_frame :
        (w : VariableAst) → random_access_int v ≢ w → lookup fl random_int_set w ≡ lookup fl s w
    unfolding constant
    random_int_frame (random_access_int w) ne =
        ap an_int (get_random_int-set_ne s.random_ints v w x λ e. ne (ap random_access_int e))
    random_int_frame _ ne = refl

    pub random_int-Updates : Updates fl s (random_access_int v) (an_int x) random_int_set
    random_int-Updates = record {
      stored = λ h. ap an_int (get_random_int-set s.random_ints v x h);
      frame = random_int_frame;
      sized = λ sized. record {
        longterm_int = sized.longterm_int;
        longterm_float = sized.longterm_float;
        longterm_bool = sized.longterm_bool;
        random_int = length-set_random_int s.random_ints v x ∙ sized.random_int;
        random_float = sized.random_float;
        random_bool = sized.random_bool;
      };
    }

  module _ (v : LongtermAccessFloat) (x : F) where
    abbrev pub longterm_float_set : Variables F
    longterm_float_set = record s { longterm_floats = set_longterm_float s.longterm_floats v x }

    longterm_float_frame :
        (w : VariableAst)
        → longterm_access_float v ≢ w
        → lookup fl longterm_float_set w ≡ lookup fl s w
    unfolding constant
    longterm_float_frame (longterm_access_float w) ne = ap a_float (
        get_longterm_float-set_ne fl.zero s.longterm_floats v w x
          λ e. ne (ap longterm_access_float e))
    longterm_float_frame _ ne = refl

    pub longterm_float-Updates :
        Updates fl s (longterm_access_float v) (a_float x) longterm_float_set
    longterm_float-Updates = record {
      stored = λ h. ap a_float (get_longterm_float-set fl.zero s.longterm_floats v x h);
      frame = longterm_float_frame;
      sized = λ sized. record {
        longterm_int = sized.longterm_int;
        longterm_float = length-set_longterm_float s.longterm_floats v x ∙ sized.longterm_float;
        longterm_bool = sized.longterm_bool;
        random_int = sized.random_int;
        random_float = sized.random_float;
        random_bool = sized.random_bool;
      };
    }

  module _ (v : RandomAccessFloat) (x : F) where
    abbrev pub random_float_set : Variables F
    random_float_set = record s { random_floats = set_random_float s.random_floats v x }

    random_float_frame :
        (w : VariableAst) → random_access_float v ≢ w → lookup fl random_float_set w ≡ lookup fl s w
    unfolding constant
    random_float_frame (random_access_float w) ne =
        ap a_float
          (get_random_float-set_ne fl.zero s.random_floats v w x λ e. ne (ap random_access_float e))
    random_float_frame _ ne = refl

    pub random_float-Updates : Updates fl s (random_access_float v) (a_float x) random_float_set
    random_float-Updates = record {
      stored = λ h. ap a_float (get_random_float-set fl.zero s.random_floats v x h);
      frame = random_float_frame;
      sized = λ sized. record {
        longterm_int = sized.longterm_int;
        longterm_float = sized.longterm_float;
        longterm_bool = sized.longterm_bool;
        random_int = sized.random_int;
        random_float = length-set_random_float s.random_floats v x ∙ sized.random_float;
        random_bool = sized.random_bool;
      };
    }

  module _ (v : LongtermAccessBool) (x : Bool) where
    abbrev pub longterm_bool_set : Variables F
    longterm_bool_set = record s { longterm_bools = set_longterm_bool s.longterm_bools v x }

    longterm_bool_frame :
        (w : VariableAst)
        → longterm_access_bool v ≢ w
        → lookup fl longterm_bool_set w ≡ lookup fl s w
    unfolding constant
    longterm_bool_frame (longterm_access_bool w) ne =
        ap a_bool
          (get_longterm_bool-set_ne s.longterm_bools v w x λ e. ne (ap longterm_access_bool e))
    longterm_bool_frame _ ne = refl

    pub longterm_bool-Updates : Updates fl s (longterm_access_bool v) (a_bool x) longterm_bool_set
    longterm_bool-Updates = record {
      stored = λ h. ap a_bool (get_longterm_bool-set s.longterm_bools v x h);
      frame = longterm_bool_frame;
      sized = λ sized. record {
        longterm_int = sized.longterm_int;
        longterm_float = sized.longterm_float;
        longterm_bool = length-set_longterm_bool s.longterm_bools v x ∙ sized.longterm_bool;
        random_int = sized.random_int;
        random_float = sized.random_float;
        random_bool = sized.random_bool;
      };
    }

  module _ (v : RandomAccessBool) (x : Bool) where
    abbrev pub random_bool_set : Variables F
    random_bool_set = record s { random_bools = set_random_bool s.random_bools v x }

    random_bool_frame :
        (w : VariableAst) → random_access_bool v ≢ w → lookup fl random_bool_set w ≡ lookup fl s w
    unfolding constant
    random_bool_frame (random_access_bool w) ne =
        ap a_bool (get_random_bool-set_ne s.random_bools v w x λ e. ne (ap random_access_bool e))
    random_bool_frame _ ne = refl

    pub random_bool-Updates : Updates fl s (random_access_bool v) (a_bool x) random_bool_set
    random_bool-Updates = record {
      stored = λ h. ap a_bool (get_random_bool-set s.random_bools v x h);
      frame = random_bool_frame;
      sized = λ sized. record {
        longterm_int = sized.longterm_int;
        longterm_float = sized.longterm_float;
        longterm_bool = sized.longterm_bool;
        random_int = sized.random_int;
        random_float = sized.random_float;
        random_bool = length-set_random_bool s.random_bools v x ∙ sized.random_bool;
      };
    }
