-- ===== src/ScriptRunner/CollisionBox.antt =====
-- The collision boxes of src/script_runner.rs and src/high_level_fighter.rs, and how the arguments of
-- an event make one.
use brawllib_rs.Prelude.{ℕ, ◌%◌, ◌^◌, Bool, true, false, Option}
use brawllib_rs.ScriptAst.Kinds.{AngleFlip, GrabTarget}
use brawllib_rs.ScriptAst.HitBoxKinds.{HitBoxEffect, HitBoxSound, HitBoxSseType}
use brawllib_rs.ScriptAst.HitBoxes.{HitBoxArguments, SpecialHitBoxArguments, GrabBoxArguments}

pub record HitBoxValues (F : Type 0) : Type 0 where
  pub hitbox_id : ℕ
  pub set_id : ℕ
  pub damage : F
  pub trajectory : ℕ
  pub wdsk : ℕ
  pub kbg : ℕ
  pub shield_damage : ℕ
  pub bkb : ℕ
  pub size : F
  pub tripping_rate : F
  pub hitlag_mult : F
  pub sdi_mult : F
  pub effect : HitBoxEffect
  pub sound_level : ℕ
  pub sound : HitBoxSound
  pub ground : Bool
  pub aerial : Bool
  pub sse_type : HitBoxSseType
  pub clang : Bool
  pub direct : Bool
  pub rehit_rate : ℕ
  pub angle_flipping : AngleFlip
  pub stretches_to_bone : Bool
  pub can_hit1 : Bool
  pub can_hit2 : Bool
  pub can_hit3 : Bool
  pub can_hit4 : Bool
  pub can_hit5 : Bool
  pub can_hit6 : Bool
  pub can_hit7 : Bool
  pub can_hit8 : Bool
  pub can_hit9 : Bool
  pub can_hit10 : Bool
  pub can_hit11 : Bool
  pub can_hit12 : Bool
  pub can_hit13 : Bool
  pub enabled : Bool
  pub can_be_shielded : Bool
  pub can_be_reflected : Bool
  pub can_be_absorbed : Bool
  pub remain_grabbed : Bool
  pub ignore_invincibility : Bool
  pub freeze_frame_disable : Bool
  pub flinchless : Bool

pub record GrabBoxValues (F : Type 0) : Type 0 where
  pub hitbox_id : ℕ
  pub size : F
  pub set_action : ℕ
  pub target : GrabTarget
  pub unk : Option ℕ

pub data CollisionBoxValues (F : Type 0) : Type 0 where
  hit : HitBoxValues F → CollisionBoxValues F
  grab : GrabBoxValues F → CollisionBoxValues F

pub record ScriptCollisionBox (F : Type 0) : Type 0 where
  pub bone_index : ℕ
  pub hitbox_id : ℕ
  pub x_offset : F
  pub y_offset : F
  pub z_offset : F
  pub size : F
  pub values : CollisionBoxValues F
  pub interpolate : Bool

module _ {F : Type 0} where
  -- `CollisionBoxValues::from_hitbox`
  unfoldable pub hit_box_values : HitBoxArguments F → F → CollisionBoxValues F
  hit_box_values args damage = hit (record {
    hitbox_id = args.hitbox_id;
    set_id = args.set_id;
    damage = damage;
    trajectory = args.trajectory;
    wdsk = args.wdsk;
    kbg = args.kbg;
    shield_damage = args.shield_damage;
    bkb = args.bkb;
    size = args.size;
    tripping_rate = args.tripping_rate;
    hitlag_mult = args.hitlag_mult;
    sdi_mult = args.sdi_mult;
    effect = args.effect;
    sound_level = args.sound_level;
    sound = args.sound;
    ground = args.ground;
    aerial = args.aerial;
    sse_type = args.sse_type;
    clang = args.clang;
    direct = args.direct;
    rehit_rate = 0;
    angle_flipping = AngleFlip.away_from_attacker;
    stretches_to_bone = false;
    can_hit1 = true;
    can_hit2 = true;
    can_hit3 = true;
    can_hit4 = true;
    can_hit5 = true;
    can_hit6 = true;
    can_hit7 = true;
    can_hit8 = true;
    can_hit9 = true;
    can_hit10 = true;
    can_hit11 = true;
    can_hit12 = true;
    can_hit13 = true;
    enabled = true;
    can_be_shielded = true;
    can_be_reflected = false;
    can_be_absorbed = false;
    remain_grabbed = false;
    ignore_invincibility = false;
    freeze_frame_disable = false;
    flinchless = false;
  })

  -- `CollisionBoxValues::from_special_hitbox`
  unfoldable pub special_hit_box_values : SpecialHitBoxArguments F → F → CollisionBoxValues F
  special_hit_box_values special_args damage = hit (record {
    hitbox_id = special_args.hitbox_args.hitbox_id;
    set_id = special_args.hitbox_args.set_id;
    damage = damage;
    trajectory = special_args.hitbox_args.trajectory;
    wdsk = special_args.hitbox_args.wdsk;
    kbg = special_args.hitbox_args.kbg;
    shield_damage = special_args.hitbox_args.shield_damage;
    bkb = special_args.hitbox_args.bkb;
    size = special_args.hitbox_args.size;
    tripping_rate = special_args.hitbox_args.tripping_rate;
    hitlag_mult = special_args.hitbox_args.hitlag_mult;
    sdi_mult = special_args.hitbox_args.sdi_mult;
    effect = special_args.hitbox_args.effect;
    sound_level = special_args.hitbox_args.sound_level;
    sound = special_args.hitbox_args.sound;
    ground = special_args.hitbox_args.ground;
    aerial = special_args.hitbox_args.aerial;
    sse_type = special_args.hitbox_args.sse_type;
    clang = special_args.hitbox_args.clang;
    direct = special_args.hitbox_args.direct;
    rehit_rate = special_args.rehit_rate;
    angle_flipping = special_args.angle_flipping;
    stretches_to_bone = special_args.stretches_to_bone;
    can_hit1 = special_args.can_hit1;
    can_hit2 = special_args.can_hit2;
    can_hit3 = special_args.can_hit3;
    can_hit4 = special_args.can_hit4;
    can_hit5 = special_args.can_hit5;
    can_hit6 = special_args.can_hit6;
    can_hit7 = special_args.can_hit7;
    can_hit8 = special_args.can_hit8;
    can_hit9 = special_args.can_hit9;
    can_hit10 = special_args.can_hit10;
    can_hit11 = special_args.can_hit11;
    can_hit12 = special_args.can_hit12;
    can_hit13 = special_args.can_hit13;
    enabled = special_args.enabled;
    can_be_shielded = special_args.can_be_shielded;
    can_be_reflected = special_args.can_be_reflected;
    can_be_absorbed = special_args.can_be_absorbed;
    remain_grabbed = special_args.remain_grabbed;
    ignore_invincibility = special_args.ignore_invincibility;
    freeze_frame_disable = special_args.freeze_frame_disable;
    flinchless = special_args.flinchless;
  })

  -- `CollisionBoxValues::from_grabbox`
  unfoldable pub grab_box_values : GrabBoxArguments F → CollisionBoxValues F
  grab_box_values args = grab (record {
    hitbox_id = args.hitbox_id;
    size = args.size;
    set_action = args.set_action;
    target = args.target;
    unk = args.unk;
  })

  -- `ScriptCollisionBox::from_hitbox`
  unfoldable pub from_hitbox :
      HitBoxArguments F → (interpolate : Bool) → (damage : F) → ScriptCollisionBox F
  from_hitbox args interpolate damage = record {
    bone_index = args.bone_index;
    hitbox_id = args.hitbox_id;
    x_offset = args.x_offset;
    y_offset = args.y_offset;
    z_offset = args.z_offset;
    size = args.size;
    values = hit_box_values args damage;
    interpolate = interpolate;
  }

  -- `ScriptCollisionBox::from_special_hitbox`
  unfoldable pub from_special_hitbox :
      SpecialHitBoxArguments F → (interpolate : Bool) → (damage : F) → ScriptCollisionBox F
  from_special_hitbox args interpolate damage = record {
    bone_index = args.hitbox_args.bone_index;
    hitbox_id = args.hitbox_args.hitbox_id;
    x_offset = args.hitbox_args.x_offset;
    y_offset = args.hitbox_args.y_offset;
    z_offset = args.hitbox_args.z_offset;
    size = args.hitbox_args.size;
    values = special_hit_box_values args damage;
    interpolate = interpolate;
  }

  -- `ScriptCollisionBox::from_grabbox`
  unfoldable pub from_grabbox : GrabBoxArguments F → (interpolate : Bool) → ScriptCollisionBox F
  from_grabbox args interpolate = record {
    bone_index = args.bone_index % 2 ^ 16;
    hitbox_id = args.hitbox_id % 2 ^ 8;
    x_offset = args.x_offset;
    y_offset = args.y_offset;
    z_offset = args.z_offset;
    size = args.size;
    values = grab_box_values args;
    interpolate = interpolate;
  }

  unfoldable pub is_hit : ScriptCollisionBox F → Bool
  is_hit box = elim box.values [ hit _ ↦ true | grab _ ↦ false ]

  unfoldable pub is_grab : ScriptCollisionBox F → Bool
  is_grab box = elim box.values [ hit _ ↦ false | grab _ ↦ true ]
