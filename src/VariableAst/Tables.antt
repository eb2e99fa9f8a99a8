-- ===== src/VariableAst/Tables.antt =====
-- The variables of src/script_ast/variable_ast.rs that have a name, by the address that each has.
use brawllib_rs.Prelude.{ℕ, ◌==◌, if◌then◌else◌}

pub data LongtermAccessInt : Type 0 where
  jumps_used wall_jump_count wall_jump_interval footstool_count fall_time : LongtermAccessInt
  swim_time lip_stick_refresh curry_remaining_time curry_angle2 : LongtermAccessInt
  star_remaining_time mushroom_remaining_time lightning_remaining_time : LongtermAccessInt
  size_flag metal_block_remaining_time combo_count bubble_time : LongtermAccessInt
  attacks_performed costume_id hitstun_frames_remaining meteor_cancel_window : LongtermAccessInt
  missed_techs tether_count temp1 temp2 : LongtermAccessInt
  address : ℕ → LongtermAccessInt

-- `LongtermAccessInt::new`
unfoldable pub longterm_access_int : ℕ → LongtermAccessInt
longterm_access_int v =
    if v == 1
    then LongtermAccessInt.jumps_used
    else if v == 3
    then LongtermAccessInt.wall_jump_count
    else if v == 4
    then LongtermAccessInt.wall_jump_interval
    else if v == 5
    then LongtermAccessInt.footstool_count
    else if v == 13
    then LongtermAccessInt.fall_time
    else if v == 20
    then LongtermAccessInt.swim_time
    else if v == 24
    then LongtermAccessInt.lip_stick_refresh
    else if v == 25
    then LongtermAccessInt.curry_remaining_time
    else if v == 26
    then LongtermAccessInt.curry_angle2
    else if v == 30
    then LongtermAccessInt.star_remaining_time
    else if v == 33
    then LongtermAccessInt.mushroom_remaining_time
    else if v == 34
    then LongtermAccessInt.lightning_remaining_time
    else if v == 35
    then LongtermAccessInt.size_flag
    else if v == 37
    then LongtermAccessInt.metal_block_remaining_time
    else if v == 44
    then LongtermAccessInt.combo_count
    else if v == 46
    then LongtermAccessInt.bubble_time
    else if v == 53
    then LongtermAccessInt.attacks_performed
    else if v == 54
    then LongtermAccessInt.costume_id
    else if v == 56
    then LongtermAccessInt.hitstun_frames_remaining
    else if v == 57
    then LongtermAccessInt.meteor_cancel_window
    else if v == 61
    then LongtermAccessInt.missed_techs
    else if v == 62
    then LongtermAccessInt.tether_count
    else if v == 64
    then LongtermAccessInt.temp1
    else if v == 65
    then LongtermAccessInt.temp2
    else LongtermAccessInt.address v

pub data LongtermAccessFloat : Type 0 where
  special_landing_lag special_fall_mobility_multiplier shield_charge : LongtermAccessFloat
  curry_angle1 curry_randomness : LongtermAccessFloat
  address : ℕ → LongtermAccessFloat

-- `LongtermAccessFloat::new`
unfoldable pub longterm_access_float : ℕ → LongtermAccessFloat
longterm_access_float v =
    if v == 0
    then LongtermAccessFloat.special_landing_lag
    else if v == 1
    then LongtermAccessFloat.special_fall_mobility_multiplier
    else if v == 3
    then LongtermAccessFloat.shield_charge
    else if v == 7
    then LongtermAccessFloat.curry_angle1
    else if v == 8
    then LongtermAccessFloat.curry_randomness
    else LongtermAccessFloat.address v

pub data LongtermAccessBool : Type 0 where
  is_dead cannot_die automatic_footstool has_final has_final_aura has_curry : LongtermAccessBool
  has_hammer hit_by_paralyze has_screw_attack stamina_dead has_tag : LongtermAccessBool
  can_not_ledge_grab can_not_teeter velocity_ignore_hitstun deflection : LongtermAccessBool
  address : ℕ → LongtermAccessBool

-- `LongtermAccessBool::new`
unfoldable pub longterm_access_bool : ℕ → LongtermAccessBool
longterm_access_bool v =
    if v == 0
    then LongtermAccessBool.is_dead
    else if v == 1
    then LongtermAccessBool.cannot_die
    else if v == 5
    then LongtermAccessBool.automatic_footstool
    else if v == 8
    then LongtermAccessBool.has_final
    else if v == 9
    then LongtermAccessBool.has_final_aura
    else if v == 10
    then LongtermAccessBool.has_curry
    else if v == 11
    then LongtermAccessBool.has_hammer
    else if v == 17
    then LongtermAccessBool.hit_by_paralyze
    else if v == 19
    then LongtermAccessBool.has_screw_attack
    else if v == 24
    then LongtermAccessBool.stamina_dead
    else if v == 27
    then LongtermAccessBool.has_tag
    else if v == 36
    then LongtermAccessBool.can_not_ledge_grab
    else if v == 57
    then LongtermAccessBool.can_not_teeter
    else if v == 61
    then LongtermAccessBool.velocity_ignore_hitstun
    else if v == 65
    then LongtermAccessBool.deflection
    else LongtermAccessBool.address v

pub data RandomAccessInt : Type 0 where
  throw_data_param1 throw_data_param2 throw_data_param3 : RandomAccessInt
  address : ℕ → RandomAccessInt

-- `RandomAccessInt::new`
unfoldable pub random_access_int : ℕ → RandomAccessInt
random_access_int v =
    if v == 2
    then RandomAccessInt.throw_data_param1
    else if v == 3
    then RandomAccessInt.throw_data_param2
    else if v == 4
    then RandomAccessInt.throw_data_param3
    else RandomAccessInt.address v

pub data RandomAccessFloat : Type 0 where
  enable_turn_when_below_zero : RandomAccessFloat
  address : ℕ → RandomAccessFloat

-- `RandomAccessFloat::new`
unfoldable pub random_access_float : ℕ → RandomAccessFloat
random_access_float v =
    if v == 4 then RandomAccessFloat.enable_turn_when_below_zero else RandomAccessFloat.address v

pub data RandomAccessBool : Type 0 where
  character_float enable_fast_fall shorthop enable_action_transition : RandomAccessBool
  specials_movement enable_glide enable_jab_loop enable_auto_jab : RandomAccessBool
  enable_jab_end enable_landing_lag : RandomAccessBool
  address : ℕ → RandomAccessBool

-- `RandomAccessBool::new`
unfoldable pub random_access_bool : ℕ → RandomAccessBool
random_access_bool v =
    if v == 0
    then RandomAccessBool.character_float
    else if v == 2
    then RandomAccessBool.enable_fast_fall
    else if v == 6
    then RandomAccessBool.shorthop
    else if v == 16
    then RandomAccessBool.enable_action_transition
    else if v == 18
    then RandomAccessBool.specials_movement
    else if v == 19
    then RandomAccessBool.enable_glide
    else if v == 20
    then RandomAccessBool.enable_jab_loop
    else if v == 22
    then RandomAccessBool.enable_auto_jab
    else if v == 25
    then RandomAccessBool.enable_jab_end
    else if v == 30
    then RandomAccessBool.enable_landing_lag
    else RandomAccessBool.address v
