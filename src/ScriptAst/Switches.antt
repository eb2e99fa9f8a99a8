-- ===== src/ScriptAst/Switches.antt =====
-- The enumerations of src/script_ast/mod.rs that switch a part of the fighter on and off, and the
-- types of interrupts.
use brawllib_rs.Prelude.{ℕ, Bool, true, false, ◌==◌, if◌then◌else◌}

pub data LedgeGrabEnable : Type 0 where
  disable enable_in_front enable_in_front_and_behind : LedgeGrabEnable
  unknown : ℕ → LedgeGrabEnable

-- `LedgeGrabEnable::new`
unfoldable pub ledge_grab_enable : ℕ → LedgeGrabEnable
ledge_grab_enable v =
    if v == 0
    then LedgeGrabEnable.disable
    else if v == 1
    then LedgeGrabEnable.enable_in_front
    else if v == 2
    then LedgeGrabEnable.enable_in_front_and_behind
    else LedgeGrabEnable.unknown v

-- `LedgeGrabEnable::enabled`
unfoldable pub enabled : LedgeGrabEnable → Bool
enabled LedgeGrabEnable.enable_in_front = true
enabled LedgeGrabEnable.enable_in_front_and_behind = true
enabled _ = false

pub data ArmorType : Type 0 where
  none super_armor heavy_armor_knockback_based heavy_armor_damage_based : ArmorType
  unknown : ℕ → ArmorType

-- `ArmorType::new`
unfoldable pub armor_type : ℕ → ArmorType
armor_type v =
    if v == 0
    then ArmorType.none
    else if v == 1
    then ArmorType.super_armor
    else if v == 2
    then ArmorType.heavy_armor_knockback_based
    else if v == 3
    then ArmorType.heavy_armor_damage_based
    else ArmorType.unknown v

pub data DisableMovement : Type 0 where
  enable disable_vertical disable_horizontal : DisableMovement
  unknown : ℕ → DisableMovement

-- `DisableMovement::new`
unfoldable pub disable_movement : ℕ → DisableMovement
disable_movement v =
    if v == 0
    then DisableMovement.enable
    else if v == 1
    then DisableMovement.disable_vertical
    else if v == 2
    then DisableMovement.disable_horizontal
    else DisableMovement.unknown v

pub data InterruptType : Type 0 where
  main ground_special ground_item ground_catch ground_attack ground_escape : InterruptType
  ground_guard ground_jump ground_other air_landing cliff_catch air_special : InterruptType
  air_item_throw air_lasso air_dodge air_attack air_treadjump air_walljump : InterruptType
  air_jump pass_through_plat : InterruptType
  unknown : ℕ → InterruptType

-- `InterruptType::new`
unfoldable pub interrupt_type : ℕ → InterruptType
interrupt_type v =
    if v == 0
    then InterruptType.main
    else if v == 1
    then InterruptType.ground_special
    else if v == 2
    then InterruptType.ground_item
    else if v == 3
    then InterruptType.ground_catch
    else if v == 4
    then InterruptType.ground_attack
    else if v == 5
    then InterruptType.ground_escape
    else if v == 6
    then InterruptType.ground_guard
    else if v == 7
    then InterruptType.ground_jump
    else if v == 8
    then InterruptType.ground_other
    else if v == 9
    then InterruptType.air_landing
    else if v == 10
    then InterruptType.cliff_catch
    else if v == 11
    then InterruptType.air_special
    else if v == 12
    then InterruptType.air_item_throw
    else if v == 13
    then InterruptType.air_lasso
    else if v == 14
    then InterruptType.air_dodge
    else if v == 15
    then InterruptType.air_attack
    else if v == 16
    then InterruptType.air_treadjump
    else if v == 17
    then InterruptType.air_walljump
    else if v == 18
    then InterruptType.air_jump
    else if v == 19
    then InterruptType.pass_through_plat
    else InterruptType.unknown v
