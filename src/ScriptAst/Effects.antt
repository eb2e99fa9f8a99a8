-- ===== src/ScriptAst/Effects.antt =====
-- The arguments of the movement, effect and camera events of src/script_ast/mod.rs.
use brawllib_rs.Prelude.{ℕ, Bool, Option}

pub record SetOrAddVelocity (F : Type 0) : Type 0 where
  pub x_vel : F
  pub y_vel : F
  pub x_set : Bool
  pub y_set : Bool

pub record GraphicEffect (F : Type 0) : Type 0 where
  pub graphic : ℕ
  pub bone : ℕ
  pub x_offset : F
  pub y_offset : F
  pub z_offset : F
  pub x_rotation : F
  pub y_rotation : F
  pub z_rotation : F
  pub scale : F
  pub random_x_offset : F
  pub random_y_offset : F
  pub random_z_offset : F
  pub random_x_rotation : F
  pub random_y_rotation : F
  pub random_z_rotation : F
  pub terminate_with_animation : Bool

pub record ExternalGraphicEffectRandomize (F : Type 0) : Type 0 where
  pub random_x_offset : F
  pub random_y_offset : F
  pub random_z_offset : F
  pub random_x_rotation : F
  pub random_y_rotation : F
  pub random_z_rotation : F

pub record ExternalGraphicEffect (F : Type 0) : Type 0 where
  pub file : ℕ
  pub graphic : ℕ
  pub bone : ℕ
  pub x_offset : F
  pub y_offset : F
  pub z_offset : F
  pub x_rotation : F
  pub y_rotation : F
  pub z_rotation : F
  pub scale : F
  pub randomize : Option (ExternalGraphicEffectRandomize F)
  pub terminate_with_animation : Bool

pub record LimitedScreenTint : Type 0 where
  pub transition_in_time : ℕ
  pub red : ℕ
  pub green : ℕ
  pub blue : ℕ
  pub alpha : ℕ
  pub frame_count : ℕ
  pub transition_out_time : ℕ

pub record UnlimitedScreenTint : Type 0 where
  pub tint_id : ℕ
  pub transition_in_time : ℕ
  pub red : ℕ
  pub green : ℕ
  pub blue : ℕ
  pub alpha : ℕ

pub record SwordGlow (F : Type 0) : Type 0 where
  pub color : ℕ
  pub blur_length : ℕ
  pub point1_bone : ℕ
  pub point1_x_offset : F
  pub point1_y_offset : F
  pub point1_z_offset : F
  pub point2_bone : ℕ
  pub point2_x_offset : F
  pub point2_y_offset : F
  pub point2_z_offset : F
  pub delete_after_subaction : Bool
  pub graphic_id : ℕ
  pub bone_id : ℕ
  pub x_offset : F
  pub y_offset : F
  pub z_offset : F
  pub x_rotation : F
  pub y_rotation : F
  pub z_rotation : F
  pub glow_length : F

pub record AestheticWindEffect (F : Type 0) : Type 0 where
  pub unk1 : ℕ
  pub unk2 : F
  pub stength : F
  pub speed : F
  pub size : F
  pub unk3 : F
  pub unk4 : F
  pub unk5 : F
  pub unk6 : F
  pub unk7 : F
  pub unk8 : ℕ

pub record CameraCloseup (F : Type 0) : Type 0 where
  pub zoom_time : ℕ
  pub unk : ℕ
  pub distance : F
  pub x_angle : F
  pub y_angle : F
