-- ===== src/VariableAst/TableLaws.antt =====
-- The named variables of src/script_ast/variable_ast.rs have addresses of their own, but for three
-- names that no address stands for.
use brawllib_rs.Prelude.{ℕ, ◌≡◌, Option, none, some, arith}
use brawllib_rs.VariableAst.Constants.{InternalConstantInt, internal_constant_int}
use brawllib_rs.VariableAst.Tables.{
  LongtermAccessInt, longterm_access_int, LongtermAccessFloat, longterm_access_float,
  LongtermAccessBool, longterm_access_bool, RandomAccessInt, random_access_int, RandomAccessFloat,
  random_access_float, RandomAccessBool, random_access_bool,
}

abbrev pub internal_constant_int_address : InternalConstantInt → Option ℕ
internal_constant_int_address InternalConstantInt.current_frame = some 0
internal_constant_int_address InternalConstantInt.damage = some 2
internal_constant_int_address InternalConstantInt.character_x_position = some 3
internal_constant_int_address InternalConstantInt.character_y_position = some 4
internal_constant_int_address InternalConstantInt.character_direction = some 8
internal_constant_int_address InternalConstantInt.character_direction_opposite = some 9
internal_constant_int_address InternalConstantInt.vertical_character_velocity = some 23
internal_constant_int_address InternalConstantInt.current_frame_speed = some 24
internal_constant_int_address InternalConstantInt.horizontal_character_velocity = some 28
internal_constant_int_address InternalConstantInt.knockback = some 38
internal_constant_int_address InternalConstantInt.surface_traction = some 39
internal_constant_int_address InternalConstantInt.x_velocity = some 1000
internal_constant_int_address InternalConstantInt.launch_speed = some 1005
internal_constant_int_address InternalConstantInt.right_velocity = some 1006
internal_constant_int_address InternalConstantInt.left_velocity = some 1007
internal_constant_int_address InternalConstantInt.up_velocity = some 1008
internal_constant_int_address InternalConstantInt.down_velocity = some 1009
internal_constant_int_address InternalConstantInt.control_stick_x_axis = some 1010
internal_constant_int_address InternalConstantInt.control_stick_x_axis_relative = some 1011
internal_constant_int_address InternalConstantInt.control_stick_x_axis_relative_reverse = some 1012
internal_constant_int_address InternalConstantInt.control_stick_x_axis_absolute = some 1013
internal_constant_int_address InternalConstantInt.control_stick_x_axis_reverse = some 1014
internal_constant_int_address InternalConstantInt.control_stick_x_axis_reverse2 = some 1017
internal_constant_int_address InternalConstantInt.control_stick_y_axis = some 1018
internal_constant_int_address InternalConstantInt.control_stick_y_axis_absolute = some 1019
internal_constant_int_address InternalConstantInt.control_stick_y_axis_reverse = some 1020
internal_constant_int_address InternalConstantInt.control_stick_y_axis2 = some 1021
internal_constant_int_address InternalConstantInt.previous_control_stick_x_axis = some 1022
internal_constant_int_address InternalConstantInt.previous_control_stick_x_axis_relative = some 1023
internal_constant_int_address InternalConstantInt.previous_control_stick_x_axis_relative_reverse =
    some 1024
internal_constant_int_address InternalConstantInt.previous_control_stick_x_axis_absolute = some 1025
internal_constant_int_address InternalConstantInt.previous_control_stick_y_axis = some 1026
internal_constant_int_address InternalConstantInt.previous_control_stick_y_axis_absolute = some 1027
internal_constant_int_address InternalConstantInt.previous_control_stick_y_axis_reverse = some 1028
internal_constant_int_address InternalConstantInt.crawl_control_stick_x_offset_max = some 3134
internal_constant_int_address InternalConstantInt.crawl_control_stick_x_offset_min = some 3136
internal_constant_int_address InternalConstantInt.current_subaction = some 20000
internal_constant_int_address InternalConstantInt.current_action = some 20001
internal_constant_int_address InternalConstantInt.previous_action = some 20003
internal_constant_int_address InternalConstantInt.held_item = some 20009
internal_constant_int_address InternalConstantInt.effect_of_attack = some 21004
internal_constant_int_address InternalConstantInt.frames_since_normal = some 21010
internal_constant_int_address InternalConstantInt.frames_since_special = some 21012
internal_constant_int_address InternalConstantInt.frames_since_jump = some 21014
internal_constant_int_address InternalConstantInt.frames_since_shield = some 21016
internal_constant_int_address InternalConstantInt.frames_since_shield2 = some 21018
internal_constant_int_address InternalConstantInt.turn_run_frame_timer = some 23001
internal_constant_int_address InternalConstantInt.jump_start_timer = some 23002
internal_constant_int_address InternalConstantInt.max_jump_count = some 23003
internal_constant_int_address InternalConstantInt.glide_start_timer = some 23004
internal_constant_int_address InternalConstantInt.term_vel_frame_timer = some 23007
internal_constant_int_address InternalConstantInt.previous_control_stick_x_axis_reverse = none
internal_constant_int_address InternalConstantInt.previous_control_stick_x_axis_reverse2 = none
internal_constant_int_address InternalConstantInt.previous_control_stick_y_axis2 = none
internal_constant_int_address (InternalConstantInt.address v) = some v

pub internal_constant_int_address-internal_constant_int :
    (v : ℕ) → internal_constant_int_address (internal_constant_int v) ≡ some v
unfolding internal_constant_int
internal_constant_int_address-internal_constant_int v = ground arith

abbrev pub longterm_access_int_address : LongtermAccessInt → Option ℕ
longterm_access_int_address LongtermAccessInt.jumps_used = some 1
longterm_access_int_address LongtermAccessInt.wall_jump_count = some 3
longterm_access_int_address LongtermAccessInt.wall_jump_interval = some 4
longterm_access_int_address LongtermAccessInt.footstool_count = some 5
longterm_access_int_address LongtermAccessInt.fall_time = some 13
longterm_access_int_address LongtermAccessInt.swim_time = some 20
longterm_access_int_address LongtermAccessInt.lip_stick_refresh = some 24
longterm_access_int_address LongtermAccessInt.curry_remaining_time = some 25
longterm_access_int_address LongtermAccessInt.curry_angle2 = some 26
longterm_access_int_address LongtermAccessInt.star_remaining_time = some 30
longterm_access_int_address LongtermAccessInt.mushroom_remaining_time = some 33
longterm_access_int_address LongtermAccessInt.lightning_remaining_time = some 34
longterm_access_int_address LongtermAccessInt.size_flag = some 35
longterm_access_int_address LongtermAccessInt.metal_block_remaining_time = some 37
longterm_access_int_address LongtermAccessInt.combo_count = some 44
longterm_access_int_address LongtermAccessInt.bubble_time = some 46
longterm_access_int_address LongtermAccessInt.attacks_performed = some 53
longterm_access_int_address LongtermAccessInt.costume_id = some 54
longterm_access_int_address LongtermAccessInt.hitstun_frames_remaining = some 56
longterm_access_int_address LongtermAccessInt.meteor_cancel_window = some 57
longterm_access_int_address LongtermAccessInt.missed_techs = some 61
longterm_access_int_address LongtermAccessInt.tether_count = some 62
longterm_access_int_address LongtermAccessInt.temp1 = some 64
longterm_access_int_address LongtermAccessInt.temp2 = some 65
longterm_access_int_address (LongtermAccessInt.address v) = some v

pub longterm_access_int_address-longterm_access_int :
    (v : ℕ) → longterm_access_int_address (longterm_access_int v) ≡ some v
unfolding longterm_access_int
longterm_access_int_address-longterm_access_int v = ground arith

abbrev pub longterm_access_float_address : LongtermAccessFloat → Option ℕ
longterm_access_float_address LongtermAccessFloat.special_landing_lag = some 0
longterm_access_float_address LongtermAccessFloat.special_fall_mobility_multiplier = some 1
longterm_access_float_address LongtermAccessFloat.shield_charge = some 3
longterm_access_float_address LongtermAccessFloat.curry_angle1 = some 7
longterm_access_float_address LongtermAccessFloat.curry_randomness = some 8
longterm_access_float_address (LongtermAccessFloat.address v) = some v

pub longterm_access_float_address-longterm_access_float :
    (v : ℕ) → longterm_access_float_address (longterm_access_float v) ≡ some v
unfolding longterm_access_float
longterm_access_float_address-longterm_access_float v = ground arith

abbrev pub longterm_access_bool_address : LongtermAccessBool → Option ℕ
longterm_access_bool_address LongtermAccessBool.is_dead = some 0
longterm_access_bool_address LongtermAccessBool.cannot_die = some 1
longterm_access_bool_address LongtermAccessBool.automatic_footstool = some 5
longterm_access_bool_address LongtermAccessBool.has_final = some 8
longterm_access_bool_address LongtermAccessBool.has_final_aura = some 9
longterm_access_bool_address LongtermAccessBool.has_curry = some 10
longterm_access_bool_address LongtermAccessBool.has_hammer = some 11
longterm_access_bool_address LongtermAccessBool.hit_by_paralyze = some 17
longterm_access_bool_address LongtermAccessBool.has_screw_attack = some 19
longterm_access_bool_address LongtermAccessBool.stamina_dead = some 24
longterm_access_bool_address LongtermAccessBool.has_tag = some 27
longterm_access_bool_address LongtermAccessBool.can_not_ledge_grab = some 36
longterm_access_bool_address LongtermAccessBool.can_not_teeter = some 57
longterm_access_bool_address LongtermAccessBool.velocity_ignore_hitstun = some 61
longterm_access_bool_address LongtermAccessBool.deflection = some 65
longterm_access_bool_address (LongtermAccessBool.address v) = some v

pub longterm_access_bool_address-longterm_access_bool :
    (v : ℕ) → longterm_access_bool_address (longterm_access_bool v) ≡ some v
unfolding longterm_access_bool
longterm_access_bool_address-longterm_access_bool v = ground arith

abbrev pub random_access_int_address : RandomAccessInt → Option ℕ
random_access_int_address RandomAccessInt.throw_data_param1 = some 2
random_access_int_address RandomAccessInt.throw_data_param2 = some 3
random_access_int_address RandomAccessInt.throw_data_param3 = some 4
random_access_int_address (RandomAccessInt.address v) = some v

pub random_access_int_address-random_access_int :
    (v : ℕ) → random_access_int_address (random_access_int v) ≡ some v
unfolding random_access_int
random_access_int_address-random_access_int v = ground arith

abbrev pub random_access_float_address : RandomAccessFloat → Option ℕ
random_access_float_address RandomAccessFloat.enable_turn_when_below_zero = some 4
random_access_float_address (RandomAccessFloat.address v) = some v

pub random_access_float_address-random_access_float :
    (v : ℕ) → random_access_float_address (random_access_float v) ≡ some v
unfolding random_access_float
random_access_float_address-random_access_float v = ground arith

abbrev pub random_access_bool_address : RandomAccessBool → Option ℕ
random_access_bool_address RandomAccessBool.character_float = some 0
random_access_bool_address RandomAccessBool.enable_fast_fall = some 2
random_access_bool_address RandomAccessBool.shorthop = some 6
random_access_bool_address RandomAccessBool.enable_action_transition = some 16
random_access_bool_address RandomAccessBool.specials_movement = some 18
random_access_bool_address RandomAccessBool.enable_glide = some 19
random_access_bool_address RandomAccessBool.enable_jab_loop = some 20
random_access_bool_address RandomAccessBool.enable_auto_jab = some 22
random_access_bool_address RandomAccessBool.enable_jab_end = some 25
random_access_bool_address RandomAccessBool.enable_landing_lag = some 30
random_access_bool_address (RandomAccessBool.address v) = some v

pub random_access_bool_address-random_access_bool :
    (v : ℕ) → random_access_bool_address (random_access_bool v) ≡ some v
unfolding random_access_bool
random_access_bool_address-random_access_bool v = ground arith
