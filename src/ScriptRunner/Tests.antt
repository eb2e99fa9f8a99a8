-- ===== src/ScriptRunner/Tests.antt =====
-- The script runner of src/script_runner.rs on a fighter whose variables are all 0, with f32 taken as ℕ.
use brawllib_rs.Prelude.{
  ℕ, ◌+◌, ◌-◌, ◌*◌, ◌/◌, ◌%◌, ◌^◌, ◌≡◌, ◌⊎◌, refl, true, false, none, some, [], ◌∷◌, ltb, leb, ◌==◌,
}
use brawllib_rs.Outcome.{ok, panic, index}
use brawllib_rs.Script.Requirement.{Requirement}
use brawllib_rs.Script.Argument.{value}
use brawllib_rs.VariableAst.Tables.{LongtermAccessBool, RandomAccessInt}
use brawllib_rs.VariableAst.Ast.{
  VariableAst, longterm_access_bool, random_access_int, ast_data_type,
}
use brawllib_rs.ScriptAst.Kinds.{GrabTarget}
use brawllib_rs.ScriptAst.Expression.{
  Expression, ComparisonOperator, comparison_operator, operand, comparison, test_of, from_args,
}
use brawllib_rs.ScriptAst.Tree.{EventAst}
use brawllib_rs.ScriptRunner.Numbers.{Floats, lt_i32}
use brawllib_rs.ScriptRunner.Ints.{LongtermInts, RandomInts}
use brawllib_rs.ScriptRunner.Floats.{LongtermFloats, RandomFloats}
use brawllib_rs.ScriptRunner.Bools.{LongtermBools, RandomBools}
use brawllib_rs.ScriptRunner.Variables.{Variables}
use brawllib_rs.ScriptRunner.StepVariables.{step_variables}
use brawllib_rs.ScriptRunner.StepVariablesLaws.{Performs, edit_of, step_variables-Performs}
use brawllib_rs.ScriptRunner.Expressions.{ExprResult, evaluate_expression}
use brawllib_rs.ScriptRunner.ExpressionLaws.{Evaluates, evaluate_expression-Evaluates}
use brawllib_rs.ScriptRunner.ParsedLaws.{from_args_evaluates}
use brawllib_rs.ScriptRunner.CollisionBox.{ScriptCollisionBox, grab, from_grabbox, grab_box_values}
use brawllib_rs.ScriptRunner.HitBoxes.{Boxes, step_boxes, create_grab, holds_grab}
use brawllib_rs.ScriptRunner.Frame.{
  no_boxes, interpolated, forgotten, begin_frame, new, frame, event, IsReached-IsBoxes,
}
use brawllib_rs.ScriptRunner.BoxLaws.{IsBoxes}
use brawllib_rs.ScriptRunner.BoxRange.{IsInside, step_boxes-Returns}

abbrev pub numbers : Floats ℕ
numbers = record {
  zero = 0;
  one = 1;
  of_i32 = λ x. x;
  to_i32 = λ x. x;
  to_u16 = λ x. x % 2 ^ 16;
  add = λ x y. x + y;
  sub = λ x y. x - y;
  mul = λ x y. x * y;
  div = λ x y. x / y;
  lt = ltb;
  le = leb;
  eq = λ x y. x == y;
}

abbrev no_longterm_ints : LongtermInts
no_longterm_ints = record {
  jumps_used = 0;
  wall_jump_count = 0;
  wall_jump_interval = 0;
  footstool_count = 0;
  fall_time = 0;
  swim_time = 0;
  lip_stick_refresh = 0;
  curry_remaining_time = 0;
  curry_angle2 = 0;
  star_remaining_time = 0;
  mushroom_remaining_time = 0;
  lightning_remaining_time = 0;
  size_flag = 0;
  metal_block_remaining_time = 0;
  combo_count = 0;
  bubble_time = 0;
  attacks_performed = 0;
  costume_id = 0;
  hitstun_frames_remaining = 0;
  meteor_cancel_window = 0;
  missed_techs = 0;
  tether_count = 0;
  temp1 = 0;
  temp2 = 0;
  longterm_access_int = 0 ∷ 0 ∷ [];
}

abbrev no_random_ints : RandomInts
no_random_ints = record {
  throw_data_param1 = 0;
  throw_data_param2 = 0;
  throw_data_param3 = 0;
  random_access_int = 0 ∷ 0 ∷ [];
}

abbrev no_longterm_floats : LongtermFloats ℕ
no_longterm_floats = record {
  special_landing_lag = 0;
  special_fall_mobility_multiplier = 0;
  shield_charge = 0;
  curry_angle1 = 0;
  curry_randomness = 0;
  longterm_access_float = 0 ∷ 0 ∷ [];
}

abbrev no_random_floats : RandomFloats ℕ
no_random_floats = record { enable_turn_when_below_zero = 0; random_access_float = 0 ∷ 0 ∷ [] }

abbrev no_longterm_bools : LongtermBools
no_longterm_bools = record {
  is_dead = false;
  cannot_die = false;
  automatic_footstool = false;
  has_final = false;
  has_final_aura = false;
  has_curry = false;
  has_hammer = false;
  hit_by_paralyze = false;
  has_screw_attack = false;
  stamina_dead = false;
  has_tag = false;
  can_not_ledge_grab = false;
  can_not_teeter = false;
  velocity_ignore_hitstun = false;
  deflection = false;
  longterm_access_bool = false ∷ false ∷ [];
}

abbrev no_random_bools : RandomBools
no_random_bools = record {
  character_float = false;
  enable_fast_fall = false;
  shorthop = false;
  enable_action_transition = false;
  specials_movement = false;
  enable_glide = false;
  enable_jab_loop = false;
  enable_auto_jab = false;
  enable_jab_end = false;
  landing_lag = false;
  random_access_bool = false ∷ false ∷ [];
}

abbrev fighter : Variables ℕ
fighter = record {
  frame_index = 3;
  frame_speed_modifier = 1;
  longterm_ints = no_longterm_ints;
  longterm_floats = no_longterm_floats;
  longterm_bools = no_longterm_bools;
  random_ints = no_random_ints;
  random_floats = no_random_floats;
  random_bools = no_random_bools;
}

-- A variable with a name, and one with an address.
abbrev tag : VariableAst
tag = longterm_access_bool LongtermAccessBool.has_tag

abbrev second : VariableAst
second = random_access_int (RandomAccessInt.address 1)

-- The variable is 0 before.
abbrev add : EventAst ℕ
add = EventAst.int_variable_add 7 second

step_variables-Performs_example :
    Performs numbers fighter (edit_of numbers fighter add) (step_variables numbers fighter add)
step_variables-Performs_example = step_variables-Performs numbers fighter add

-- One variable is compared with 5, and the other tested.
abbrev compared : Expression ℕ
compared =
    Expression.binary
      (Expression.binary (Expression.variable second) (Expression.value 5)
        ComparisonOperator.less_than)
      (Expression.variable tag) ComparisonOperator.or

evaluate_expression-Evaluates_example :
    Evaluates numbers fighter compared (evaluate_expression numbers fighter compared)
unfolding ast_data_type
evaluate_expression-Evaluates_example =
    evaluate_expression-Evaluates numbers fighter compared ((tt, tt, tt, tt), tt, tt, tt)

abbrev parsed : Expression ℕ
parsed =
    Expression.not
      (Expression.binary (Expression.value 5) (Expression.value 3) ComparisonOperator.greater_than)

parsed_lem :
    from_args Requirement.comparison true (some (value 5)) (some (value 5)) (some (value 3))
    ≡ some parsed
unfolding from_args test_of operand comparison comparison_operator
parsed_lem = refl

from_args_evaluates_example :
    (r : ExprResult ℕ) × (evaluate_expression numbers fighter parsed ≡ ok r)
from_args_evaluates_example =
    from_args_evaluates numbers fighter Requirement.comparison true (some (value 5))
      (some (value 5)) (some (value 3)) {e = parsed} (tt, tt) parsed_lem

-- A grab box in the third slot, and the event that puts another one there.
abbrev grab_box : ScriptCollisionBox ℕ
grab_box = record {
  bone_index = 4;
  hitbox_id = 2;
  x_offset = 0;
  y_offset = 0;
  z_offset = 0;
  size = 5;
  values = grab (record {
    hitbox_id = 2;
    size = 5;
    set_action = 1;
    target = GrabTarget.grounded_only;
    unk = none;
  });
  interpolate = false;
}

abbrev pub boxes : Boxes ℕ
boxes = record {
  hitboxes = none ∷ none ∷ some grab_box ∷ none ∷ none ∷ none ∷ none ∷ [];
  hitbox_sets_rehit =
      false ∷ false ∷ false ∷ false ∷ false ∷ false ∷ false ∷ false ∷ false ∷ false ∷ [];
}

pub boxes-IsBoxes : IsBoxes boxes
boxes-IsBoxes = record {
  slots = refl;
  sets = refl;
  placed = (tt, (tt, (refl, (tt, (tt, (tt, (tt, tt)))))));
}

abbrev new_grab : EventAst ℕ
new_grab = EventAst.create_grab_box (record {
  hitbox_id = 2;
  bone_index = 7;
  size = 4;
  x_offset = 1;
  y_offset = 2;
  z_offset = 3;
  set_action = 1;
  target = GrabTarget.grounded_only;
  unk = some 1;
})

step_boxes-Returns_example :
    (IsInside new_grab
      × (t : Boxes ℕ) × (step_boxes numbers fighter new_grab boxes ≡ ok t)
      × IsBoxes t)
    ⊎ ((IsInside new_grab → ⊥) × (step_boxes numbers fighter new_grab boxes ≡ panic))
step_boxes-Returns_example = step_boxes-Returns numbers fighter boxes boxes-IsBoxes new_grab

-- A new runner after the first frame has begun and the event has made its box.
abbrev first : Boxes ℕ
first = record {
  hitboxes =
      none
      ∷ none
      ∷ some (record {
        bone_index = 7;
        hitbox_id = 2;
        x_offset = 1;
        y_offset = 2;
        z_offset = 3;
        size = 4;
        values = grab (record {
          hitbox_id = 2;
          size = 4;
          set_action = 1;
          target = GrabTarget.grounded_only;
          unk = some 1;
        });
        interpolate = false;
      })
      ∷ none
      ∷ none
      ∷ none
      ∷ none
      ∷ [];
  hitbox_sets_rehit = boxes.hitbox_sets_rehit;
}

first-same : step_boxes numbers fighter new_grab (begin_frame no_boxes) ≡ ok first
unfolding step_boxes create_grab index lt_i32 begin_frame no_boxes interpolated forgotten holds_grab
    from_grabbox grab_box_values
first-same = refl

IsReached-IsBoxes_example : IsBoxes first
IsReached-IsBoxes_example =
    IsReached-IsBoxes numbers (event fighter new_grab first-same (frame new))
