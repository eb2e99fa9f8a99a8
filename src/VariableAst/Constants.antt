-- ===== src/VariableAst/Constants.antt =====
-- The internal constants of src/script_ast/variable_ast.rs that have a name, by the address of each.
use brawllib_rs.Prelude.{ℕ, ◌==◌, if◌then◌else◌}

pub data InternalConstantInt : Type 0 where
  current_frame damage character_x_position character_y_position : InternalConstantInt
  character_direction character_direction_opposite : InternalConstantInt
  vertical_character_velocity current_frame_speed : InternalConstantInt
  horizontal_character_velocity knockback surface_traction x_velocity : InternalConstantInt
  launch_speed right_velocity left_velocity up_velocity down_velocity : InternalConstantInt
  control_stick_x_axis control_stick_x_axis_relative : InternalConstantInt
  control_stick_x_axis_relative_reverse control_stick_x_axis_absolute : InternalConstantInt
  control_stick_x_axis_reverse control_stick_x_axis_reverse2 : InternalConstantInt
  control_stick_y_axis control_stick_y_axis_absolute : InternalConstantInt
  control_stick_y_axis_reverse control_stick_y_axis2 : InternalConstantInt
  previous_control_stick_x_axis previous_control_stick_x_axis_relative : InternalConstantInt
  previous_control_stick_x_axis_relative_reverse : InternalConstantInt
  previous_control_stick_x_axis_absolute : InternalConstantInt
  previous_control_stick_x_axis_reverse : InternalConstantInt
  previous_control_stick_x_axis_reverse2 previous_control_stick_y_axis : InternalConstantInt
  previous_control_stick_y_axis_absolute : InternalConstantInt
  previous_control_stick_y_axis_reverse previous_control_stick_y_axis2 : InternalConstantInt
  crawl_control_stick_x_offset_max crawl_control_stick_x_offset_min : InternalConstantInt
  current_subaction current_action previous_action held_item : InternalConstantInt
  effect_of_attack frames_since_normal frames_since_special : InternalConstantInt
  frames_since_jump frames_since_shield frames_since_shield2 : InternalConstantInt
  turn_run_frame_timer jump_start_timer max_jump_count glide_start_timer : InternalConstantInt
  term_vel_frame_timer : InternalConstantInt
  address : ℕ → InternalConstantInt

internal_constant_int_high : ℕ → InternalConstantInt
internal_constant_int_high v =
    if v == 1020
    then InternalConstantInt.control_stick_y_axis_reverse
    else if v == 1021
    then InternalConstantInt.control_stick_y_axis2
    else if v == 1022
    then InternalConstantInt.previous_control_stick_x_axis
    else if v == 1023
    then InternalConstantInt.previous_control_stick_x_axis_relative
    else if v == 1024
    then InternalConstantInt.previous_control_stick_x_axis_relative_reverse
    else if v == 1025
    then InternalConstantInt.previous_control_stick_x_axis_absolute
    else if v == 1026
    then InternalConstantInt.previous_control_stick_y_axis
    else if v == 1027
    then InternalConstantInt.previous_control_stick_y_axis_absolute
    else if v == 1028
    then InternalConstantInt.previous_control_stick_y_axis_reverse
    else if v == 3134
    then InternalConstantInt.crawl_control_stick_x_offset_max
    else if v == 3136
    then InternalConstantInt.crawl_control_stick_x_offset_min
    else if v == 20000
    then InternalConstantInt.current_subaction
    else if v == 20001
    then InternalConstantInt.current_action
    else if v == 20003
    then InternalConstantInt.previous_action
    else if v == 20009
    then InternalConstantInt.held_item
    else if v == 21004
    then InternalConstantInt.effect_of_attack
    else if v == 21010
    then InternalConstantInt.frames_since_normal
    else if v == 21012
    then InternalConstantInt.frames_since_special
    else if v == 21014
    then InternalConstantInt.frames_since_jump
    else if v == 21016
    then InternalConstantInt.frames_since_shield
    else if v == 21018
    then InternalConstantInt.frames_since_shield2
    else if v == 23001
    then InternalConstantInt.turn_run_frame_timer
    else if v == 23002
    then InternalConstantInt.jump_start_timer
    else if v == 23003
    then InternalConstantInt.max_jump_count
    else if v == 23004
    then InternalConstantInt.glide_start_timer
    else if v == 23007
    then InternalConstantInt.term_vel_frame_timer
    else InternalConstantInt.address v

-- `InternalConstantInt::new`, in two halves
unfoldable pub internal_constant_int : ℕ → InternalConstantInt
unfolding internal_constant_int_high
internal_constant_int v =
    if v == 0
    then InternalConstantInt.current_frame
    else if v == 2
    then InternalConstantInt.damage
    else if v == 3
    then InternalConstantInt.character_x_position
    else if v == 4
    then InternalConstantInt.character_y_position
    else if v == 8
    then InternalConstantInt.character_direction
    else if v == 9
    then InternalConstantInt.character_direction_opposite
    else if v == 23
    then InternalConstantInt.vertical_character_velocity
    else if v == 24
    then InternalConstantInt.current_frame_speed
    else if v == 28
    then InternalConstantInt.horizontal_character_velocity
    else if v == 38
    then InternalConstantInt.knockback
    else if v == 39
    then InternalConstantInt.surface_traction
    else if v == 1000
    then InternalConstantInt.x_velocity
    else if v == 1005
    then InternalConstantInt.launch_speed
    else if v == 1006
    then InternalConstantInt.right_velocity
    else if v == 1007
    then InternalConstantInt.left_velocity
    else if v == 1008
    then InternalConstantInt.up_velocity
    else if v == 1009
    then InternalConstantInt.down_velocity
    else if v == 1010
    then InternalConstantInt.control_stick_x_axis
    else if v == 1011
    then InternalConstantInt.control_stick_x_axis_relative
    else if v == 1012
    then InternalConstantInt.control_stick_x_axis_relative_reverse
    else if v == 1013
    then InternalConstantInt.control_stick_x_axis_absolute
    else if v == 1014
    then InternalConstantInt.control_stick_x_axis_reverse
    else if v == 1017
    then InternalConstantInt.control_stick_x_axis_reverse2
    else if v == 1018
    then InternalConstantInt.control_stick_y_axis
    else if v == 1019
    then InternalConstantInt.control_stick_y_axis_absolute
    else internal_constant_int_high v
