-- ===== src/ScriptRunner/Ints.antt =====
-- The int variables of a `ScriptRunner` in src/script_runner.rs, with the arms of
-- `get_variable_int_inner` and `set_variable_int_inner` for them.
use brawllib_rs.Prelude.{ℕ, List}
use brawllib_rs.ScriptRunner.Vectors.{read, put}
use brawllib_rs.VariableAst.Tables.{LongtermAccessInt, RandomAccessInt}

pub record LongtermInts : Type 0 where
  pub jumps_used : ℕ
  pub wall_jump_count : ℕ
  pub wall_jump_interval : ℕ
  pub footstool_count : ℕ
  pub fall_time : ℕ
  pub swim_time : ℕ
  pub lip_stick_refresh : ℕ
  pub curry_remaining_time : ℕ
  pub curry_angle2 : ℕ
  pub star_remaining_time : ℕ
  pub mushroom_remaining_time : ℕ
  pub lightning_remaining_time : ℕ
  pub size_flag : ℕ
  pub metal_block_remaining_time : ℕ
  pub combo_count : ℕ
  pub bubble_time : ℕ
  pub attacks_performed : ℕ
  pub costume_id : ℕ
  pub hitstun_frames_remaining : ℕ
  pub meteor_cancel_window : ℕ
  pub missed_techs : ℕ
  pub tether_count : ℕ
  pub temp1 : ℕ
  pub temp2 : ℕ
  pub longterm_access_int : List ℕ

unfoldable pub get_longterm_int : LongtermInts → LongtermAccessInt → ℕ
get_longterm_int s LongtermAccessInt.jumps_used = s.jumps_used
get_longterm_int s LongtermAccessInt.wall_jump_count = s.wall_jump_count
get_longterm_int s LongtermAccessInt.wall_jump_interval = s.wall_jump_interval
get_longterm_int s LongtermAccessInt.footstool_count = s.footstool_count
get_longterm_int s LongtermAccessInt.fall_time = s.fall_time
get_longterm_int s LongtermAccessInt.swim_time = s.swim_time
get_longterm_int s LongtermAccessInt.lip_stick_refresh = s.lip_stick_refresh
get_longterm_int s LongtermAccessInt.curry_remaining_time = s.curry_remaining_time
get_longterm_int s LongtermAccessInt.curry_angle2 = s.curry_angle2
get_longterm_int s LongtermAccessInt.star_remaining_time = s.star_remaining_time
get_longterm_int s LongtermAccessInt.mushroom_remaining_time = s.mushroom_remaining_time
get_longterm_int s LongtermAccessInt.lightning_remaining_time = s.lightning_remaining_time
get_longterm_int s LongtermAccessInt.size_flag = s.size_flag
get_longterm_int s LongtermAccessInt.metal_block_remaining_time = s.metal_block_remaining_time
get_longterm_int s LongtermAccessInt.combo_count = s.combo_count
get_longterm_int s LongtermAccessInt.bubble_time = s.bubble_time
get_longterm_int s LongtermAccessInt.attacks_performed = s.attacks_performed
get_longterm_int s LongtermAccessInt.costume_id = s.costume_id
get_longterm_int s LongtermAccessInt.hitstun_frames_remaining = s.hitstun_frames_remaining
get_longterm_int s LongtermAccessInt.meteor_cancel_window = s.meteor_cancel_window
get_longterm_int s LongtermAccessInt.missed_techs = s.missed_techs
get_longterm_int s LongtermAccessInt.tether_count = s.tether_count
get_longterm_int s LongtermAccessInt.temp1 = s.temp1
get_longterm_int s LongtermAccessInt.temp2 = s.temp2
get_longterm_int s (LongtermAccessInt.address a) = read 0 s.longterm_access_int a

unfoldable pub set_longterm_int : LongtermInts → LongtermAccessInt → ℕ → LongtermInts
set_longterm_int s LongtermAccessInt.jumps_used x = record s { jumps_used = x }
set_longterm_int s LongtermAccessInt.wall_jump_count x = record s { wall_jump_count = x }
set_longterm_int s LongtermAccessInt.wall_jump_interval x = record s { wall_jump_interval = x }
set_longterm_int s LongtermAccessInt.footstool_count x = record s { footstool_count = x }
set_longterm_int s LongtermAccessInt.fall_time x = record s { fall_time = x }
set_longterm_int s LongtermAccessInt.swim_time x = record s { swim_time = x }
set_longterm_int s LongtermAccessInt.lip_stick_refresh x = record s { lip_stick_refresh = x }
set_longterm_int s LongtermAccessInt.curry_remaining_time x = record s { curry_remaining_time = x }
set_longterm_int s LongtermAccessInt.curry_angle2 x = record s { curry_angle2 = x }
set_longterm_int s LongtermAccessInt.star_remaining_time x = record s { star_remaining_time = x }
set_longterm_int s LongtermAccessInt.mushroom_remaining_time x = record s {
  mushroom_remaining_time = x;
}
set_longterm_int s LongtermAccessInt.lightning_remaining_time x = record s {
  lightning_remaining_time = x;
}
set_longterm_int s LongtermAccessInt.size_flag x = record s { size_flag = x }
set_longterm_int s LongtermAccessInt.metal_block_remaining_time x = record s {
  metal_block_remaining_time = x;
}
set_longterm_int s LongtermAccessInt.combo_count x = record s { combo_count = x }
set_longterm_int s LongtermAccessInt.bubble_time x = record s { bubble_time = x }
set_longterm_int s LongtermAccessInt.attacks_performed x = record s { attacks_performed = x }
set_longterm_int s LongtermAccessInt.costume_id x = record s { costume_id = x }
set_longterm_int s LongtermAccessInt.hitstun_frames_remaining x = record s {
  hitstun_frames_remaining = x;
}
set_longterm_int s LongtermAccessInt.meteor_cancel_window x = record s { meteor_cancel_window = x }
set_longterm_int s LongtermAccessInt.missed_techs x = record s { missed_techs = x }
set_longterm_int s LongtermAccessInt.tether_count x = record s { tether_count = x }
set_longterm_int s LongtermAccessInt.temp1 x = record s { temp1 = x }
set_longterm_int s LongtermAccessInt.temp2 x = record s { temp2 = x }
set_longterm_int s (LongtermAccessInt.address a) x = record s {
  longterm_access_int = put s.longterm_access_int a x;
}

pub record RandomInts : Type 0 where
  pub throw_data_param1 : ℕ
  pub throw_data_param2 : ℕ
  pub throw_data_param3 : ℕ
  pub random_access_int : List ℕ

unfoldable pub get_random_int : RandomInts → RandomAccessInt → ℕ
get_random_int s RandomAccessInt.throw_data_param1 = s.throw_data_param1
get_random_int s RandomAccessInt.throw_data_param2 = s.throw_data_param2
get_random_int s RandomAccessInt.throw_data_param3 = s.throw_data_param3
get_random_int s (RandomAccessInt.address a) = read 0 s.random_access_int a

unfoldable pub set_random_int : RandomInts → RandomAccessInt → ℕ → RandomInts
set_random_int s RandomAccessInt.throw_data_param1 x = record s { throw_data_param1 = x }
set_random_int s RandomAccessInt.throw_data_param2 x = record s { throw_data_param2 = x }
set_random_int s RandomAccessInt.throw_data_param3 x = record s { throw_data_param3 = x }
set_random_int s (RandomAccessInt.address a) x = record s {
  random_access_int = put s.random_access_int a x;
}
