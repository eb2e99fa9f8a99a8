-- ===== src/ScriptAst/LeafTables.antt =====
-- The arms of a namespace of src/script_ast/mod.rs that never panic make one event.
use brawllib_rs.Prelude.{ℕ}
use brawllib_rs.ScriptAst.Shapes.{Arguments}
use brawllib_rs.ScriptAst.Leaves.{
  count_event, IsLeaf, IsLeaf-if, no_arguments-IsLeaf, one_value-IsLeaf, one_scalar-IsLeaf,
  one_bool-IsLeaf, one_variable-IsLeaf, one_offset-IsLeaf, two_values-IsLeaf, value_offset-IsLeaf,
  value_scalar-IsLeaf, value_bool-IsLeaf, value_variable-IsLeaf, float_variable-IsLeaf,
}
use brawllib_rs.ScriptAst.ControlArms.{
  flow, loop_rest, threads, interrupts, allow_interrupts, timing,
}
use brawllib_rs.ScriptAst.StateArms.{
  postures, edges, controller, slopes, articles, fighter, armor, movement, physics, sounds,
}
use brawllib_rs.ScriptAst.GraphicArms.{models, effects}
use brawllib_rs.ScriptAst.OtherArms.{wind, camera, flashes, variables, items}
use brawllib_rs.ScriptAst.Arms.{other_arms}
use brawllib_rs.ScriptAst.LeafArms.{
  none-IsLeaf, test-IsLeaf, async_wait-IsLeaf, case-IsLeaf, change_subaction-IsLeaf,
  frame_speed_modifier-IsLeaf, controller_unk-IsLeaf, generate_article-IsLeaf, set_velocity-IsLeaf,
  add_velocity-IsLeaf, graphic_effect-IsLeaf, random_external_effect-IsLeaf, external_effect-IsLeaf,
  screen_tint-IsLeaf, sword_glow-IsLeaf, aesthetic_wind_effect-IsLeaf, camera_closeup-IsLeaf,
  flash_effect_overlay-IsLeaf, color_of_overlay-IsLeaf, flash_effect_light-IsLeaf,
  color_of_light-IsLeaf, item_pickup-IsLeaf, item_throw-IsLeaf, item_throw_short-IsLeaf,
  create_interrupt-IsLeaf, create_plain_interrupt-IsLeaf, interrupt_add_requirement-IsLeaf,
}

module _ {F : Type 0} where
  flow-IsLeaf : (code : ℕ) (args : Arguments F) → IsLeaf (flow code args)
  unfolding flow count_event
  flow-IsLeaf code args =
      search
        (
          IsLeaf-if,
          none-IsLeaf F,
          no_arguments-IsLeaf,
          one_scalar-IsLeaf,
          one_offset-IsLeaf,
          two_values-IsLeaf,
          async_wait-IsLeaf,
          case-IsLeaf,
          test-IsLeaf,
        )
        depth 24

  loop_rest-IsLeaf : (code : ℕ) (args : Arguments F) → IsLeaf (loop_rest code args)
  unfolding loop_rest count_event
  loop_rest-IsLeaf code args = search (IsLeaf-if, none-IsLeaf F, no_arguments-IsLeaf) depth 24

  threads-IsLeaf : (code : ℕ) (args : Arguments F) → IsLeaf (threads code args)
  unfolding threads count_event
  threads-IsLeaf code args =
      search (IsLeaf-if, none-IsLeaf F, one_value-IsLeaf, two_values-IsLeaf, value_offset-IsLeaf)
        depth 24

  interrupts-IsLeaf : (code : ℕ) (args : Arguments F) → IsLeaf (interrupts code args)
  unfolding interrupts count_event
  interrupts-IsLeaf code args =
      search
        (
          IsLeaf-if,
          none-IsLeaf F,
          one_value-IsLeaf,
          two_values-IsLeaf,
          create_interrupt-IsLeaf,
          create_plain_interrupt-IsLeaf,
          interrupt_add_requirement-IsLeaf,
          test-IsLeaf,
        )
        depth 24

  allow_interrupts-IsLeaf : (code : ℕ) (args : Arguments F) → IsLeaf (allow_interrupts code args)
  unfolding allow_interrupts count_event
  allow_interrupts-IsLeaf code args =
      search (IsLeaf-if, none-IsLeaf F, no_arguments-IsLeaf) depth 24

  timing-IsLeaf : (code : ℕ) (args : Arguments F) → IsLeaf (timing code args)
  unfolding timing count_event
  timing-IsLeaf code args =
      search
        (
          IsLeaf-if,
          none-IsLeaf F,
          one_scalar-IsLeaf,
          change_subaction-IsLeaf,
          frame_speed_modifier-IsLeaf,
        )
        depth 24

  postures-IsLeaf : (code : ℕ) (args : Arguments F) → IsLeaf (postures code args)
  unfolding postures count_event
  postures-IsLeaf code args = search (IsLeaf-if, none-IsLeaf F, no_arguments-IsLeaf) depth 24

  edges-IsLeaf : (code : ℕ) (args : Arguments F) → IsLeaf (edges code args)
  unfolding edges count_event
  edges-IsLeaf code args = search (IsLeaf-if, none-IsLeaf F, one_value-IsLeaf) depth 24

  controller-IsLeaf : (code : ℕ) (args : Arguments F) → IsLeaf (controller code args)
  unfolding controller count_event
  controller-IsLeaf code args =
      search
        (IsLeaf-if, none-IsLeaf F, no_arguments-IsLeaf, two_values-IsLeaf, controller_unk-IsLeaf)
        depth 24

  slopes-IsLeaf : (code : ℕ) (args : Arguments F) → IsLeaf (slopes code args)
  unfolding slopes count_event
  slopes-IsLeaf code args =
      search (IsLeaf-if, none-IsLeaf F, one_value-IsLeaf, two_values-IsLeaf) depth 24

  articles-IsLeaf : (code : ℕ) (args : Arguments F) → IsLeaf (articles code args)
  unfolding articles count_event
  articles-IsLeaf code args =
      search
        (IsLeaf-if, none-IsLeaf F, one_value-IsLeaf, value_bool-IsLeaf, generate_article-IsLeaf)
        depth 24

  fighter-IsLeaf : (code : ℕ) (args : Arguments F) → IsLeaf (fighter code args)
  unfolding fighter count_event
  fighter-IsLeaf code args =
      search
        (
          IsLeaf-if,
          none-IsLeaf F,
          no_arguments-IsLeaf,
          one_value-IsLeaf,
          one_bool-IsLeaf,
          two_values-IsLeaf,
        )
        depth 24

  armor-IsLeaf : (code : ℕ) (args : Arguments F) → IsLeaf (armor code args)
  unfolding armor count_event
  armor-IsLeaf code args =
      search (IsLeaf-if, none-IsLeaf F, one_scalar-IsLeaf, value_scalar-IsLeaf) depth 24

  movement-IsLeaf : (code : ℕ) (args : Arguments F) → IsLeaf (movement code args)
  unfolding movement count_event
  movement-IsLeaf code args =
      search (IsLeaf-if, none-IsLeaf F, one_value-IsLeaf, set_velocity-IsLeaf, add_velocity-IsLeaf)
        depth 24

  physics-IsLeaf : (code : ℕ) (args : Arguments F) → IsLeaf (physics code args)
  unfolding physics count_event
  physics-IsLeaf code args = search (IsLeaf-if, none-IsLeaf F, no_arguments-IsLeaf) depth 24

  sounds-IsLeaf : (code : ℕ) (args : Arguments F) → IsLeaf (sounds code args)
  unfolding sounds count_event
  sounds-IsLeaf code args = search (IsLeaf-if, none-IsLeaf F, one_value-IsLeaf) depth 24

  models-IsLeaf : (code : ℕ) (args : Arguments F) → IsLeaf (models code args)
  unfolding models count_event
  models-IsLeaf code args = search (IsLeaf-if, none-IsLeaf F, two_values-IsLeaf) depth 24

  effects-IsLeaf : (code : ℕ) (args : Arguments F) → IsLeaf (effects code args)
  unfolding effects count_event
  effects-IsLeaf code args =
      search
        (
          IsLeaf-if,
          none-IsLeaf F,
          one_value-IsLeaf,
          two_values-IsLeaf,
          graphic_effect-IsLeaf,
          random_external_effect-IsLeaf,
          external_effect-IsLeaf,
          screen_tint-IsLeaf,
          sword_glow-IsLeaf,
        )
        depth 24

  wind-IsLeaf : (code : ℕ) (args : Arguments F) → IsLeaf (wind code args)
  unfolding wind count_event
  wind-IsLeaf code args =
      search (IsLeaf-if, none-IsLeaf F, one_value-IsLeaf, aesthetic_wind_effect-IsLeaf) depth 24

  camera-IsLeaf : (code : ℕ) (args : Arguments F) → IsLeaf (camera code args)
  unfolding camera count_event
  camera-IsLeaf code args =
      search
        (IsLeaf-if, none-IsLeaf F, no_arguments-IsLeaf, one_value-IsLeaf, camera_closeup-IsLeaf)
        depth 24

  flashes-IsLeaf : (code : ℕ) (args : Arguments F) → IsLeaf (flashes code args)
  unfolding flashes count_event
  flashes-IsLeaf code args =
      search
        (
          IsLeaf-if,
          none-IsLeaf F,
          no_arguments-IsLeaf,
          flash_effect_overlay-IsLeaf,
          color_of_overlay-IsLeaf,
          flash_effect_light-IsLeaf,
          color_of_light-IsLeaf,
        )
        depth 24

  variables-IsLeaf : (code : ℕ) (args : Arguments F) → IsLeaf (variables code args)
  unfolding variables count_event
  variables-IsLeaf code args =
      search
        (
          IsLeaf-if,
          none-IsLeaf F,
          one_variable-IsLeaf,
          value_variable-IsLeaf,
          float_variable-IsLeaf,
        )
        depth 24

  items-IsLeaf : (code : ℕ) (args : Arguments F) → IsLeaf (items code args)
  unfolding items count_event
  items-IsLeaf code args =
      search
        (
          IsLeaf-if,
          none-IsLeaf F,
          no_arguments-IsLeaf,
          one_value-IsLeaf,
          one_bool-IsLeaf,
          value_scalar-IsLeaf,
          item_pickup-IsLeaf,
          item_throw-IsLeaf,
          item_throw_short-IsLeaf,
        )
        depth 24

  pub other_arms-IsLeaf :
      (namespace code : ℕ) (args : Arguments F) → IsLeaf (other_arms namespace code args)
  unfolding other_arms
  other_arms-IsLeaf namespace code args =
      search
        (
          IsLeaf-if,
          none-IsLeaf F,
          flow-IsLeaf,
          loop_rest-IsLeaf,
          threads-IsLeaf,
          interrupts-IsLeaf,
          allow_interrupts-IsLeaf,
          timing-IsLeaf,
          postures-IsLeaf,
          edges-IsLeaf,
          controller-IsLeaf,
          slopes-IsLeaf,
          articles-IsLeaf,
          fighter-IsLeaf,
          armor-IsLeaf,
          movement-IsLeaf,
          physics-IsLeaf,
          sounds-IsLeaf,
          models-IsLeaf,
          effects-IsLeaf,
          wind-IsLeaf,
          camera-IsLeaf,
          flashes-IsLeaf,
          variables-IsLeaf,
          items-IsLeaf,
        )
        depth 32
