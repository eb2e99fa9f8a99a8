-- ===== src/ScriptRunner/Bools.antt =====
-- The bool variables of a `ScriptRunner` in src/script_runner.rs, with the arms of
-- `get_variable_bool_inner` and `set_variable_bool_inner` for them.
use brawllib_rs.Prelude.{Bool, false, List}
use brawllib_rs.ScriptRunner.Vectors.{read, put}
use brawllib_rs.VariableAst.Tables.{LongtermAccessBool, RandomAccessBool}

pub record LongtermBools : Type 0 where
  pub is_dead : Bool
  pub cannot_die : Bool
  pub automatic_footstool : Bool
  pub has_final : Bool
  pub has_final_aura : Bool
  pub has_curry : Bool
  pub has_hammer : Bool
  pub hit_by_paralyze : Bool
  pub has_screw_attack : Bool
  pub stamina_dead : Bool
  pub has_tag : Bool
  pub can_not_ledge_grab : Bool
  pub can_not_teeter : Bool
  pub velocity_ignore_hitstun : Bool
  pub deflection : Bool
  pub longterm_access_bool : List Bool

unfoldable pub get_longterm_bool : LongtermBools → LongtermAccessBool → Bool
get_longterm_bool s LongtermAccessBool.is_dead = s.is_dead
get_longterm_bool s LongtermAccessBool.cannot_die = s.cannot_die
get_longterm_bool s LongtermAccessBool.automatic_footstool = s.automatic_footstool
get_longterm_bool s LongtermAccessBool.has_final = s.has_final
get_longterm_bool s LongtermAccessBool.has_final_aura = s.has_final_aura
get_longterm_bool s LongtermAccessBool.has_curry = s.has_curry
get_longterm_bool s LongtermAccessBool.has_hammer = s.has_hammer
get_longterm_bool s LongtermAccessBool.hit_by_paralyze = s.hit_by_paralyze
get_longterm_bool s LongtermAccessBool.has_screw_attack = s.has_screw_attack
get_longterm_bool s LongtermAccessBool.stamina_dead = s.stamina_dead
get_longterm_bool s LongtermAccessBool.has_tag = s.has_tag
get_longterm_bool s LongtermAccessBool.can_not_ledge_grab = s.can_not_ledge_grab
get_longterm_bool s LongtermAccessBool.can_not_teeter = s.can_not_teeter
get_longterm_bool s LongtermAccessBool.velocity_ignore_hitstun = s.velocity_ignore_hitstun
get_longterm_bool s LongtermAccessBool.deflection = s.deflection
get_longterm_bool s (LongtermAccessBool.address a) = read false s.longterm_access_bool a

unfoldable pub set_longterm_bool : LongtermBools → LongtermAccessBool → Bool → LongtermBools
set_longterm_bool s LongtermAccessBool.is_dead x = record s { is_dead = x }
set_longterm_bool s LongtermAccessBool.cannot_die x = record s { cannot_die = x }
set_longterm_bool s LongtermAccessBool.automatic_footstool x = record s { automatic_footstool = x }
set_longterm_bool s LongtermAccessBool.has_final x = record s { has_final = x }
set_longterm_bool s LongtermAccessBool.has_final_aura x = record s { has_final_aura = x }
set_longterm_bool s LongtermAccessBool.has_curry x = record s { has_curry = x }
set_longterm_bool s LongtermAccessBool.has_hammer x = record s { has_hammer = x }
set_longterm_bool s LongtermAccessBool.hit_by_paralyze x = record s { hit_by_paralyze = x }
set_longterm_bool s LongtermAccessBool.has_screw_attack x = record s { has_screw_attack = x }
set_longterm_bool s LongtermAccessBool.stamina_dead x = record s { stamina_dead = x }
set_longterm_bool s LongtermAccessBool.has_tag x = record s { has_tag = x }
set_longterm_bool s LongtermAccessBool.can_not_ledge_grab x = record s { can_not_ledge_grab = x }
set_longterm_bool s LongtermAccessBool.can_not_teeter x = record s { can_not_teeter = x }
set_longterm_bool s LongtermAccessBool.velocity_ignore_hitstun x = record s {
  velocity_ignore_hitstun = x;
}
set_longterm_bool s LongtermAccessBool.deflection x = record s { deflection = x }
set_longterm_bool s (LongtermAccessBool.address a) x = record s {
  longterm_access_bool = put s.longterm_access_bool a x;
}

pub record RandomBools : Type 0 where
  pub character_float : Bool
  pub enable_fast_fall : Bool
  pub shorthop : Bool
  pub enable_action_transition : Bool
  pub specials_movement : Bool
  pub enable_glide : Bool
  pub enable_jab_loop : Bool
  pub enable_auto_jab : Bool
  pub enable_jab_end : Bool
  pub landing_lag : Bool
  pub random_access_bool : List Bool

unfoldable pub get_random_bool : RandomBools → RandomAccessBool → Bool
get_random_bool s RandomAccessBool.character_float = s.character_float
get_random_bool s RandomAccessBool.enable_fast_fall = s.enable_fast_fall
get_random_bool s RandomAccessBool.shorthop = s.shorthop
get_random_bool s RandomAccessBool.enable_action_transition = s.enable_action_transition
get_random_bool s RandomAccessBool.specials_movement = s.specials_movement
get_random_bool s RandomAccessBool.enable_glide = s.enable_glide
get_random_bool s RandomAccessBool.enable_jab_loop = s.enable_jab_loop
get_random_bool s RandomAccessBool.enable_auto_jab = s.enable_auto_jab
get_random_bool s RandomAccessBool.enable_jab_end = s.enable_jab_end
get_random_bool s RandomAccessBool.enable_landing_lag = s.landing_lag
get_random_bool s (RandomAccessBool.address a) = read false s.random_access_bool a

unfoldable pub set_random_bool : RandomBools → RandomAccessBool → Bool → RandomBools
set_random_bool s RandomAccessBool.character_float x = record s { character_float = x }
set_random_bool s RandomAccessBool.enable_fast_fall x = record s { enable_fast_fall = x }
set_random_bool s RandomAccessBool.shorthop x = record s { shorthop = x }
set_random_bool s RandomAccessBool.enable_action_transition x = record s {
  enable_action_transition = x;
}
set_random_bool s RandomAccessBool.specials_movement x = record s { specials_movement = x }
set_random_bool s RandomAccessBool.enable_glide x = record s { enable_glide = x }
set_random_bool s RandomAccessBool.enable_jab_loop x = record s { enable_jab_loop = x }
set_random_bool s RandomAccessBool.enable_auto_jab x = record s { enable_auto_jab = x }
set_random_bool s RandomAccessBool.enable_jab_end x = record s { enable_jab_end = x }
set_random_bool s RandomAccessBool.enable_landing_lag x = record s { landing_lag = x }
set_random_bool s (RandomAccessBool.address a) x = record s {
  random_access_bool = put s.random_access_bool a x;
}
