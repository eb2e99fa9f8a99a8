-- ===== src/Script/Requirement.antt =====
-- `Requirement` of src/script.rs: the conditions that an event may test.
use brawllib_rs.Prelude.{ℕ, ◌/◌, ◌%◌, ◌^◌, Bool, ◌==◌, if◌then◌else◌}

pub data Requirement : Type 0 where
  character_exists animation_end animation_has_looped on_ground in_air : Requirement
  holding_a_ledge on_a_passable_floor comparison bool_is_true facing_right : Requirement
  facing_left hitbox_connects touching_a_floor_wall_or_ceiling is_throwing_someone : Requirement
  button_tap entering_or_is_in_hit_lag article_exists is_overstepping_an_edge : Requirement
  has_a_floor_below_the_player change_in_air_ground_state article_available : Requirement
  current_triggered_status_id holding_item holding_item_of_type : Requirement
  light_item_is_in_grab_range heavy_item_is_in_grab_range : Requirement
  item_of_type_is_in_grabbing_range turning_with_item in_water roll_a_die : Requirement
  subaction_exists button_mashing_or_status_expired_sleep_bury_freeze : Requirement
  is_not_in_damaging_lens button_press button_release button_held : Requirement
  button_not_pressed stick_direction_pressed stick_direction_not_pressed : Requirement
  is_being_thrown_by_someone1 is_being_thrown_by_someone2 hasnt_tethered3_times : Requirement
  has_passed_over_an_edge_forward has_passed_over_an_edge_backward : Requirement
  is_holding_someone_in_grab hitbox_has_connected pick_up_item sdi_input : Requirement
  shield_input_press shield_input_held taunt_input_press taunt_input_held : Requirement
  hit_by_cape_effect thread_is_null always in_walljump in_wall_cling : Requirement
  in_footstool_range is_falling_or_hit_down has_smash_ball can_pickup_another_item : Requirement
  f_smash_shortcut tap_jump_on : Requirement
  unknown : ℕ → Requirement

-- `match value & 0xFFFF { ... }`, in two halves.
requirement_high : ℕ → Requirement
requirement_high v =
    if v == 0x002E
    then button_mashing_or_status_expired_sleep_bury_freeze
    else if v == 0x002F
    then is_not_in_damaging_lens
    else if v == 0x0030
    then button_press
    else if v == 0x0031
    then button_release
    else if v == 0x0032
    then button_held
    else if v == 0x0033
    then button_not_pressed
    else if v == 0x0034
    then stick_direction_pressed
    else if v == 0x0035
    then stick_direction_not_pressed
    else if v == 0x0037
    then is_being_thrown_by_someone1
    else if v == 0x0038
    then is_being_thrown_by_someone2
    else if v == 0x0039
    then hasnt_tethered3_times
    else if v == 0x003A
    then has_passed_over_an_edge_forward
    else if v == 0x003B
    then has_passed_over_an_edge_backward
    else if v == 0x003C
    then is_holding_someone_in_grab
    else if v == 0x003D
    then hitbox_has_connected
    else if v == 0x0047
    then pick_up_item
    else if v == 0x004C
    then hit_by_cape_effect
    else if v == 0x004D
    then sdi_input
    else if v == 0x004E
    then shield_input_press
    else if v == 0x004F
    then shield_input_held
    else if v == 0x0050
    then taunt_input_press
    else if v == 0x0051
    then taunt_input_held
    else if v == 0x0060
    then thread_is_null
    else if v == 0x00FF
    then always
    else if v == 0x2711
    then in_walljump
    else if v == 0x2712
    then in_wall_cling
    else if v == 0x2713
    then in_footstool_range
    else if v == 0x2716
    then is_falling_or_hit_down
    else if v == 0x2717
    then has_smash_ball
    else if v == 0x2719
    then can_pickup_another_item
    else if v == 0x271D
    then f_smash_shortcut
    else if v == 0x2725
    then tap_jump_on
    else unknown v

unfoldable pub requirement : ℕ → Requirement
unfolding requirement_high
requirement v =
    if v == 0x0000
    then character_exists
    else if v == 0x0001
    then animation_end
    else if v == 0x0002
    then animation_has_looped
    else if v == 0x0003
    then on_ground
    else if v == 0x0004
    then in_air
    else if v == 0x0005
    then holding_a_ledge
    else if v == 0x0006
    then on_a_passable_floor
    else if v == 0x0007
    then comparison
    else if v == 0x0008
    then bool_is_true
    else if v == 0x0009
    then facing_right
    else if v == 0x000A
    then facing_left
    else if v == 0x000B
    then hitbox_connects
    else if v == 0x000C
    then touching_a_floor_wall_or_ceiling
    else if v == 0x000D
    then is_throwing_someone
    else if v == 0x000F
    then button_tap
    else if v == 0x0014
    then entering_or_is_in_hit_lag
    else if v == 0x0015
    then article_exists
    else if v == 0x0016
    then is_overstepping_an_edge
    else if v == 0x0017
    then has_a_floor_below_the_player
    else if v == 0x001B
    then change_in_air_ground_state
    else if v == 0x001C
    then article_available
    else if v == 0x001D
    then current_triggered_status_id
    else if v == 0x001F
    then holding_item
    else if v == 0x0020
    then holding_item_of_type
    else if v == 0x0021
    then light_item_is_in_grab_range
    else if v == 0x0022
    then heavy_item_is_in_grab_range
    else if v == 0x0023
    then item_of_type_is_in_grabbing_range
    else if v == 0x0024
    then turning_with_item
    else if v == 0x002A
    then in_water
    else if v == 0x002B
    then roll_a_die
    else if v == 0x002C
    then subaction_exists
    else requirement_high v

-- `Requirement::new`: whether the test is inverted, and the requirement.
unfoldable pub new_requirement : ℕ → Bool × Requirement
unfolding requirement
new_requirement value = (value / 2 ^ 31 == 1, requirement (value % 2 ^ 16))
