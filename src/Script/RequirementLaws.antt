-- ===== src/Script/RequirementLaws.antt =====
-- Every code of `Requirement::new` in src/script.rs stands for a requirement of its own.
use brawllib_rs.Prelude.{ℕ, ◌≡◌, arith}
use brawllib_rs.Script.Requirement.{Requirement, requirement}

-- The code of a requirement in a script.
abbrev pub code_of : Requirement → ℕ
code_of Requirement.character_exists = 0x0000
code_of Requirement.animation_end = 0x0001
code_of Requirement.animation_has_looped = 0x0002
code_of Requirement.on_ground = 0x0003
code_of Requirement.in_air = 0x0004
code_of Requirement.holding_a_ledge = 0x0005
code_of Requirement.on_a_passable_floor = 0x0006
code_of Requirement.comparison = 0x0007
code_of Requirement.bool_is_true = 0x0008
code_of Requirement.facing_right = 0x0009
code_of Requirement.facing_left = 0x000A
code_of Requirement.hitbox_connects = 0x000B
code_of Requirement.touching_a_floor_wall_or_ceiling = 0x000C
code_of Requirement.is_throwing_someone = 0x000D
code_of Requirement.button_tap = 0x000F
code_of Requirement.entering_or_is_in_hit_lag = 0x0014
code_of Requirement.article_exists = 0x0015
code_of Requirement.is_overstepping_an_edge = 0x0016
code_of Requirement.has_a_floor_below_the_player = 0x0017
code_of Requirement.change_in_air_ground_state = 0x001B
code_of Requirement.article_available = 0x001C
code_of Requirement.current_triggered_status_id = 0x001D
code_of Requirement.holding_item = 0x001F
code_of Requirement.holding_item_of_type = 0x0020
code_of Requirement.light_item_is_in_grab_range = 0x0021
code_of Requirement.heavy_item_is_in_grab_range = 0x0022
code_of Requirement.item_of_type_is_in_grabbing_range = 0x0023
code_of Requirement.turning_with_item = 0x0024
code_of Requirement.in_water = 0x002A
code_of Requirement.roll_a_die = 0x002B
code_of Requirement.subaction_exists = 0x002C
code_of Requirement.button_mashing_or_status_expired_sleep_bury_freeze = 0x002E
code_of Requirement.is_not_in_damaging_lens = 0x002F
code_of Requirement.button_press = 0x0030
code_of Requirement.button_release = 0x0031
code_of Requirement.button_held = 0x0032
code_of Requirement.button_not_pressed = 0x0033
code_of Requirement.stick_direction_pressed = 0x0034
code_of Requirement.stick_direction_not_pressed = 0x0035
code_of Requirement.is_being_thrown_by_someone1 = 0x0037
code_of Requirement.is_being_thrown_by_someone2 = 0x0038
code_of Requirement.hasnt_tethered3_times = 0x0039
code_of Requirement.has_passed_over_an_edge_forward = 0x003A
code_of Requirement.has_passed_over_an_edge_backward = 0x003B
code_of Requirement.is_holding_someone_in_grab = 0x003C
code_of Requirement.hitbox_has_connected = 0x003D
code_of Requirement.pick_up_item = 0x0047
code_of Requirement.hit_by_cape_effect = 0x004C
code_of Requirement.sdi_input = 0x004D
code_of Requirement.shield_input_press = 0x004E
code_of Requirement.shield_input_held = 0x004F
code_of Requirement.taunt_input_press = 0x0050
code_of Requirement.taunt_input_held = 0x0051
code_of Requirement.thread_is_null = 0x0060
code_of Requirement.always = 0x00FF
code_of Requirement.in_walljump = 0x2711
code_of Requirement.in_wall_cling = 0x2712
code_of Requirement.in_footstool_range = 0x2713
code_of Requirement.is_falling_or_hit_down = 0x2716
code_of Requirement.has_smash_ball = 0x2717
code_of Requirement.can_pickup_another_item = 0x2719
code_of Requirement.f_smash_shortcut = 0x271D
code_of Requirement.tap_jump_on = 0x2725
code_of (Requirement.unknown v) = v

-- The code is read back from the requirement that it stands for, so that no two codes stand for
-- the same.
code_of-requirement : (v : ℕ) → code_of (requirement v) ≡ v
unfolding requirement
code_of-requirement v = ground arith
