-- ===== src/ScriptAst/HitBoxKinds.antt =====
-- The effects, the sounds and the types of hitboxes in src/script_ast/mod.rs.
use brawllib_rs.Prelude.{ℕ, ◌==◌, if◌then◌else◌}

pub data HitBoxEffect : Type 0 where
  normal none slash electric freezing flame coin reverse trip sleep bury stun : HitBoxEffect
  flower grass water darkness paralyze aura plunge down flinchless : HitBoxEffect
  unknown : ℕ → HitBoxEffect

-- `HitBoxEffect::new`
unfoldable pub hit_box_effect : ℕ → HitBoxEffect
hit_box_effect v =
    if v == 0
    then HitBoxEffect.normal
    else if v == 1
    then HitBoxEffect.none
    else if v == 2
    then HitBoxEffect.slash
    else if v == 3
    then HitBoxEffect.electric
    else if v == 4
    then HitBoxEffect.freezing
    else if v == 5
    then HitBoxEffect.flame
    else if v == 6
    then HitBoxEffect.coin
    else if v == 7
    then HitBoxEffect.reverse
    else if v == 8
    then HitBoxEffect.trip
    else if v == 9
    then HitBoxEffect.sleep
    else if v == 11
    then HitBoxEffect.bury
    else if v == 12
    then HitBoxEffect.stun
    else if v == 14
    then HitBoxEffect.flower
    else if v == 17
    then HitBoxEffect.grass
    else if v == 18
    then HitBoxEffect.water
    else if v == 19
    then HitBoxEffect.darkness
    else if v == 20
    then HitBoxEffect.paralyze
    else if v == 21
    then HitBoxEffect.aura
    else if v == 22
    then HitBoxEffect.plunge
    else if v == 23
    then HitBoxEffect.down
    else if v == 24
    then HitBoxEffect.flinchless
    else HitBoxEffect.unknown v

pub data HitBoxSound : Type 0 where
  unique punch kick slash coin home_run_bat paper shock burn splash explosion thud : HitBoxSound
  slam thwomp magic_zap shell slap pan club racket aura ness_bat : HitBoxSound
  unknown : ℕ → HitBoxSound

-- `HitBoxSound::new`
unfoldable pub hit_box_sound : ℕ → HitBoxSound
hit_box_sound v =
    if v == 0
    then HitBoxSound.unique
    else if v == 1
    then HitBoxSound.punch
    else if v == 2
    then HitBoxSound.kick
    else if v == 3
    then HitBoxSound.slash
    else if v == 4
    then HitBoxSound.coin
    else if v == 5
    then HitBoxSound.home_run_bat
    else if v == 6
    then HitBoxSound.paper
    else if v == 7
    then HitBoxSound.shock
    else if v == 8
    then HitBoxSound.burn
    else if v == 9
    then HitBoxSound.splash
    else if v == 11
    then HitBoxSound.explosion
    else if v == 13
    then HitBoxSound.thud
    else if v == 14
    then HitBoxSound.slam
    else if v == 15
    then HitBoxSound.thwomp
    else if v == 16
    then HitBoxSound.magic_zap
    else if v == 17
    then HitBoxSound.shell
    else if v == 18
    then HitBoxSound.slap
    else if v == 19
    then HitBoxSound.pan
    else if v == 20
    then HitBoxSound.club
    else if v == 21
    then HitBoxSound.racket
    else if v == 22
    then HitBoxSound.aura
    else if v == 27
    then HitBoxSound.ness_bat
    else HitBoxSound.unknown v

pub data HitBoxSseType : Type 0 where
  none head body butt hand elbow foot knee throwing weapon sword hammer : HitBoxSseType
  explosive spin bite magic pk bow ness_bat umbrella pimin water whip tail : HitBoxSseType
  energy : HitBoxSseType
  unknown : ℕ → HitBoxSseType

-- `HitBoxSseType::new`
unfoldable pub hit_box_sse_type : ℕ → HitBoxSseType
hit_box_sse_type v =
    if v == 0
    then HitBoxSseType.none
    else if v == 1
    then HitBoxSseType.head
    else if v == 2
    then HitBoxSseType.body
    else if v == 3
    then HitBoxSseType.butt
    else if v == 4
    then HitBoxSseType.hand
    else if v == 5
    then HitBoxSseType.elbow
    else if v == 6
    then HitBoxSseType.foot
    else if v == 7
    then HitBoxSseType.knee
    else if v == 8
    then HitBoxSseType.throwing
    else if v == 9
    then HitBoxSseType.weapon
    else if v == 10
    then HitBoxSseType.sword
    else if v == 11
    then HitBoxSseType.hammer
    else if v == 12
    then HitBoxSseType.explosive
    else if v == 13
    then HitBoxSseType.spin
    else if v == 14
    then HitBoxSseType.bite
    else if v == 15
    then HitBoxSseType.magic
    else if v == 16
    then HitBoxSseType.pk
    else if v == 17
    then HitBoxSseType.bow
    else if v == 19
    then HitBoxSseType.ness_bat
    else if v == 20
    then HitBoxSseType.umbrella
    else if v == 21
    then HitBoxSseType.pimin
    else if v == 22
    then HitBoxSseType.water
    else if v == 23
    then HitBoxSseType.whip
    else if v == 24
    then HitBoxSseType.tail
    else if v == 25
    then HitBoxSseType.energy
    else HitBoxSseType.unknown v
