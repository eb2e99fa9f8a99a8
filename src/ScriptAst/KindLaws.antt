-- ===== src/ScriptAst/KindLaws.antt =====
-- The effects, the sounds and the types of hitboxes of src/script_ast/mod.rs keep the value that they
-- are made from.
use brawllib_rs.Prelude.{ℕ, ◌≡◌, arith}
use brawllib_rs.ScriptAst.HitBoxKinds.{
  HitBoxEffect, HitBoxSound, HitBoxSseType, hit_box_effect, hit_box_sound, hit_box_sse_type,
}

-- The value of each.
abbrev pub hit_box_effect_value : HitBoxEffect → ℕ
hit_box_effect_value HitBoxEffect.normal = 0
hit_box_effect_value HitBoxEffect.none = 1
hit_box_effect_value HitBoxEffect.slash = 2
hit_box_effect_value HitBoxEffect.electric = 3
hit_box_effect_value HitBoxEffect.freezing = 4
hit_box_effect_value HitBoxEffect.flame = 5
hit_box_effect_value HitBoxEffect.coin = 6
hit_box_effect_value HitBoxEffect.reverse = 7
hit_box_effect_value HitBoxEffect.trip = 8
hit_box_effect_value HitBoxEffect.sleep = 9
hit_box_effect_value HitBoxEffect.bury = 11
hit_box_effect_value HitBoxEffect.stun = 12
hit_box_effect_value HitBoxEffect.flower = 14
hit_box_effect_value HitBoxEffect.grass = 17
hit_box_effect_value HitBoxEffect.water = 18
hit_box_effect_value HitBoxEffect.darkness = 19
hit_box_effect_value HitBoxEffect.paralyze = 20
hit_box_effect_value HitBoxEffect.aura = 21
hit_box_effect_value HitBoxEffect.plunge = 22
hit_box_effect_value HitBoxEffect.down = 23
hit_box_effect_value HitBoxEffect.flinchless = 24
hit_box_effect_value (HitBoxEffect.unknown v) = v

pub hit_box_effect_value-hit_box_effect : (v : ℕ) → hit_box_effect_value (hit_box_effect v) ≡ v
unfolding hit_box_effect
hit_box_effect_value-hit_box_effect v = ground arith

-- The value of each.
abbrev pub hit_box_sound_value : HitBoxSound → ℕ
hit_box_sound_value HitBoxSound.unique = 0
hit_box_sound_value HitBoxSound.punch = 1
hit_box_sound_value HitBoxSound.kick = 2
hit_box_sound_value HitBoxSound.slash = 3
hit_box_sound_value HitBoxSound.coin = 4
hit_box_sound_value HitBoxSound.home_run_bat = 5
hit_box_sound_value HitBoxSound.paper = 6
hit_box_sound_value HitBoxSound.shock = 7
hit_box_sound_value HitBoxSound.burn = 8
hit_box_sound_value HitBoxSound.splash = 9
hit_box_sound_value HitBoxSound.explosion = 11
hit_box_sound_value HitBoxSound.thud = 13
hit_box_sound_value HitBoxSound.slam = 14
hit_box_sound_value HitBoxSound.thwomp = 15
hit_box_sound_value HitBoxSound.magic_zap = 16
hit_box_sound_value HitBoxSound.shell = 17
hit_box_sound_value HitBoxSound.slap = 18
hit_box_sound_value HitBoxSound.pan = 19
hit_box_sound_value HitBoxSound.club = 20
hit_box_sound_value HitBoxSound.racket = 21
hit_box_sound_value HitBoxSound.aura = 22
hit_box_sound_value HitBoxSound.ness_bat = 27
hit_box_sound_value (HitBoxSound.unknown v) = v

pub hit_box_sound_value-hit_box_sound : (v : ℕ) → hit_box_sound_value (hit_box_sound v) ≡ v
unfolding hit_box_sound
hit_box_sound_value-hit_box_sound v = ground arith

-- The value of each.
abbrev pub hit_box_sse_type_value : HitBoxSseType → ℕ
hit_box_sse_type_value HitBoxSseType.none = 0
hit_box_sse_type_value HitBoxSseType.head = 1
hit_box_sse_type_value HitBoxSseType.body = 2
hit_box_sse_type_value HitBoxSseType.butt = 3
hit_box_sse_type_value HitBoxSseType.hand = 4
hit_box_sse_type_value HitBoxSseType.elbow = 5
hit_box_sse_type_value HitBoxSseType.foot = 6
hit_box_sse_type_value HitBoxSseType.knee = 7
hit_box_sse_type_value HitBoxSseType.throwing = 8
hit_box_sse_type_value HitBoxSseType.weapon = 9
hit_box_sse_type_value HitBoxSseType.sword = 10
hit_box_sse_type_value HitBoxSseType.hammer = 11
hit_box_sse_type_value HitBoxSseType.explosive = 12
hit_box_sse_type_value HitBoxSseType.spin = 13
hit_box_sse_type_value HitBoxSseType.bite = 14
hit_box_sse_type_value HitBoxSseType.magic = 15
hit_box_sse_type_value HitBoxSseType.pk = 16
hit_box_sse_type_value HitBoxSseType.bow = 17
hit_box_sse_type_value HitBoxSseType.ness_bat = 19
hit_box_sse_type_value HitBoxSseType.umbrella = 20
hit_box_sse_type_value HitBoxSseType.pimin = 21
hit_box_sse_type_value HitBoxSseType.water = 22
hit_box_sse_type_value HitBoxSseType.whip = 23
hit_box_sse_type_value HitBoxSseType.tail = 24
hit_box_sse_type_value HitBoxSseType.energy = 25
hit_box_sse_type_value (HitBoxSseType.unknown v) = v

pub hit_box_sse_type_value-hit_box_sse_type :
    (v : ℕ) → hit_box_sse_type_value (hit_box_sse_type v) ≡ v
unfolding hit_box_sse_type
hit_box_sse_type_value-hit_box_sse_type v = ground arith
