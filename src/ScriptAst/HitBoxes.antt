-- ===== src/ScriptAst/HitBoxes.antt =====
-- The arguments of the hitbox, grab and throw events of src/script_ast/mod.rs. An i32 is kept by
-- its 32 bits and an i16 by its 16 bits; f32 is the type F.
use brawllib_rs.Prelude.{ℕ, Bool, Option}
use brawllib_rs.VariableAst.Ast.{VariableAst}
use brawllib_rs.ScriptAst.Kinds.{AngleFlip, GrabTarget, ThrowUse}
use brawllib_rs.ScriptAst.HitBoxKinds.{HitBoxEffect, HitBoxSound, HitBoxSseType}

pub data FloatValue (F : Type 0) : Type 0 where
  variable : VariableAst → FloatValue F
  constant : F → FloatValue F

pub record HitBoxArguments (F : Type 0) : Type 0 where
  pub bone_index : ℕ
  pub hitbox_id : ℕ
  pub set_id : ℕ
  pub damage : FloatValue F
  pub trajectory : ℕ
  pub wdsk : ℕ
  pub kbg : ℕ
  pub shield_damage : ℕ
  pub bkb : ℕ
  pub size : F
  pub x_offset : F
  pub y_offset : F
  pub z_offset : F
  pub tripping_rate : F
  pub hitlag_mult : F
  pub sdi_mult : F
  pub effect : HitBoxEffect
  pub unk1 : Bool
  pub sound_level : ℕ
  pub unk2 : Bool
  pub sound : HitBoxSound
  pub unk3 : ℕ
  pub ground : Bool
  pub aerial : Bool
  pub unk4 : ℕ
  pub sse_type : HitBoxSseType
  pub clang : Bool
  pub unk5 : Bool
  pub direct : Bool
  pub unk6 : ℕ

pub record SpecialHitBoxArguments (F : Type 0) : Type 0 where
  pub hitbox_args : HitBoxArguments F
  pub rehit_rate : ℕ
  pub angle_flipping : AngleFlip
  pub unk1 : Bool
  pub stretches_to_bone : Bool
  pub unk2 : Bool
  pub can_hit1 : Bool
  pub can_hit2 : Bool
  pub can_hit3 : Bool
  pub can_hit4 : Bool
  pub can_hit5 : Bool
  pub can_hit6 : Bool
  pub can_hit7 : Bool
  pub can_hit8 : Bool
  pub can_hit9 : Bool
  pub can_hit10 : Bool
  pub can_hit11 : Bool
  pub can_hit12 : Bool
  pub can_hit13 : Bool
  pub enabled : Bool
  pub unk3 : ℕ
  pub can_be_shielded : Bool
  pub can_be_reflected : Bool
  pub can_be_absorbed : Bool
  pub unk4 : ℕ
  pub remain_grabbed : Bool
  pub ignore_invincibility : Bool
  pub freeze_frame_disable : Bool
  pub unk5 : Bool
  pub flinchless : Bool

pub record MoveHitBox (F : Type 0) : Type 0 where
  pub hitbox_id : ℕ
  pub new_bone : ℕ
  pub new_x_offset : F
  pub new_y_offset : F
  pub new_z_offset : F

pub record GrabBoxArguments (F : Type 0) : Type 0 where
  pub hitbox_id : ℕ
  pub bone_index : ℕ
  pub size : F
  pub x_offset : F
  pub y_offset : F
  pub z_offset : F
  pub set_action : ℕ
  pub target : GrabTarget
  pub unk : Option ℕ

pub record SpecifyThrow (F : Type 0) : Type 0 where
  pub throw_use : ThrowUse
  pub bone : ℕ
  pub damage : ℕ
  pub trajectory : ℕ
  pub kbg : ℕ
  pub wdsk : ℕ
  pub bkb : ℕ
  pub effect : HitBoxEffect
  pub unk0 : F
  pub unk1 : F
  pub unk2 : F
  pub unk3 : ℕ
  pub sfx : HitBoxSound
  pub grab_target : GrabTarget
  pub unk4 : Bool
  pub unk5 : Bool
  pub i_frames : ℕ

pub record ApplyThrow : Type 0 where
  pub unk0 : ℕ
  pub bone : ℕ
  pub unk1 : VariableAst
  pub unk2 : VariableAst
  pub unk3 : VariableAst
