-- ===== src/ScriptRunner/NewState.antt =====
-- The state that `ScriptRunner::new` of src/script_runner.rs begins with.
use Prim.Native.String.{String}
use text.Mathlib.Text as Text
use brawllib_rs.Prelude.{ℕ, Bool, true, false, none, List, [], ◌∷◌, replicate, if◌then◌else◌}
use brawllib_rs.ScriptAst.Kinds.{EdgeSlide, HurtBoxState}
use brawllib_rs.ScriptAst.Switches.{LedgeGrabEnable, ArmorType, DisableMovement}
use brawllib_rs.ScriptRunner.Numbers.{Floats}
use brawllib_rs.ScriptRunner.Ints.{LongtermInts, RandomInts}
use brawllib_rs.ScriptRunner.Floats.{LongtermFloats, RandomFloats}
use brawllib_rs.ScriptRunner.Bools.{LongtermBools, RandomBools}
use brawllib_rs.ScriptRunner.Variables.{Variables}
use brawllib_rs.ScriptRunner.Frame.{no_boxes}
use brawllib_rs.ScriptRunner.State.{ChangeSubaction, VelModify, Body, State}

-- The names of the subactions in which a ledge is grabbed from the start.
abbrev any_name : String → List String → Bool
any_name name [] = false
any_name name (x ∷ xs) = if Text.◌==◌ name x then true else any_name name xs

unfoldable pub first_ledge_grab : String → LedgeGrabEnable
first_ledge_grab name =
    if any_name name (
      "JumpF" ∷ "JumpB" ∷ "JumpAerialF" ∷ "JumpAerialB" ∷ "FallF" ∷ "FallB" ∷ "Fall" ∷ "FallAerialF"
      ∷ "FallAerialB" ∷ "FallAerial" ∷ "FallSpecialF" ∷ "FallSpecialB" ∷ "FallSpecial" ∷ [])
    then LedgeGrabEnable.enable_in_front
    else LedgeGrabEnable.disable

unfoldable pub new_longterm_ints : LongtermInts
new_longterm_ints = record {
  jumps_used = 0;
  wall_jump_count = 0;
  wall_jump_interval = 0;
  footstool_count = 0;
  fall_time = 0;
  swim_time = 0;
  lip_stick_refresh = 0;
  curry_remaining_time = 0;
  curry_angle2 = 0;
  star_remaining_time = 0;
  mushroom_remaining_time = 0;
  lightning_remaining_time = 0;
  size_flag = 0;
  metal_block_remaining_time = 0;
  combo_count = 0;
  bubble_time = 0;
  attacks_performed = 0;
  costume_id = 0;
  hitstun_frames_remaining = 0;
  meteor_cancel_window = 0;
  missed_techs = 0;
  tether_count = 0;
  temp1 = 0;
  temp2 = 0;
  longterm_access_int = replicate 0x500 0;
}

unfoldable pub new_longterm_bools : LongtermBools
new_longterm_bools = record {
  is_dead = false;
  cannot_die = false;
  automatic_footstool = false;
  has_final = false;
  has_final_aura = false;
  has_curry = false;
  has_hammer = false;
  hit_by_paralyze = false;
  has_screw_attack = false;
  stamina_dead = false;
  has_tag = false;
  can_not_ledge_grab = false;
  can_not_teeter = false;
  velocity_ignore_hitstun = false;
  deflection = false;
  longterm_access_bool = replicate 0x500 false;
}

unfoldable pub new_random_ints : RandomInts
new_random_ints = record {
  throw_data_param1 = 0;
  throw_data_param2 = 0;
  throw_data_param3 = 0;
  random_access_int = replicate 0x100 0;
}

unfoldable pub new_random_bools : RandomBools
new_random_bools = record {
  character_float = false;
  enable_fast_fall = false;
  shorthop = false;
  enable_action_transition = false;
  specials_movement = false;
  enable_glide = false;
  enable_jab_loop = false;
  enable_auto_jab = false;
  enable_jab_end = false;
  landing_lag = false;
  random_access_bool = replicate 0x100 false;
}

module _ {F : Type 0} (fl : Floats F) where
  -- The variables of a new runner.
  unfoldable pub new_longterm_floats : LongtermFloats F
  new_longterm_floats = record {
    special_landing_lag = fl.zero;
    special_fall_mobility_multiplier = fl.zero;
    shield_charge = fl.zero;
    curry_angle1 = fl.zero;
    curry_randomness = fl.zero;
    longterm_access_float = replicate 0x500 fl.zero;
  }

  unfoldable pub new_random_floats : RandomFloats F
  new_random_floats = record {
    enable_turn_when_below_zero = fl.zero;
    random_access_float = replicate 0x100 fl.zero;
  }

  unfoldable pub new_variables : Variables F
  unfolding new_longterm_ints new_longterm_floats new_longterm_bools new_random_ints
      new_random_floats new_random_bools
  new_variables = record {
    frame_index = fl.zero;
    frame_speed_modifier = fl.one;
    longterm_ints = new_longterm_ints;
    longterm_floats = new_longterm_floats;
    longterm_bools = new_longterm_bools;
    random_ints = new_random_ints;
    random_floats = new_random_floats;
    random_bools = new_random_bools;
  }

  unfoldable pub new_body : LedgeGrabEnable → (invisible_bones : List ℕ) → Body F
  new_body ledge_grab_enable invisible = record {
    animation_index = fl.zero;
    interruptible = false;
    hurtbox_state_all = HurtBoxState.normal;
    hurtbox_states = [];
    ledge_grab_enable = ledge_grab_enable;
    tag_display = true;
    x = fl.zero;
    y = fl.zero;
    x_vel = fl.zero;
    y_vel = fl.zero;
    x_vel_modify = VelModify.none;
    y_vel_modify = VelModify.none;
    disable_movement = DisableMovement.enable;
    armor_type = ArmorType.none;
    armor_tolerance = fl.zero;
    damage = fl.zero;
    airbourne = false;
    edge_slide = EdgeSlide.slide_off;
    reverse_direction = false;
    change_subaction = ChangeSubaction.continue;
    invisible_bones = invisible;
    interrupts = [];
    bad_interrupts = [];
    slope_contour_stand = none;
    slope_contour_full = none;
    rumble = none;
    rumble_loop = none;
    grab_interrupt_damage = none;
    throw = none;
    throw_activate = false;
  }

  unfoldable pub new_state : LedgeGrabEnable → (invisible_bones : List ℕ) → State F
  unfolding new_variables new_body no_boxes
  new_state ledge_grab_enable invisible = record {
    vars = new_variables;
    boxes = no_boxes;
    body = new_body ledge_grab_enable invisible;
    flow = record { call_every_frame = []; visited_gotos = [] };
  }
