-- ===== src/ScriptAst/Kinds.antt =====
-- The small enumerations of src/script_ast/mod.rs, made from the value of an argument.
use brawllib_rs.Prelude.{ℕ, Bool, true, false, ◌==◌, if◌then◌else◌}

pub data EdgeSlide : Type 0 where
  slide_off stay_on airbourne : EdgeSlide
  unknown : ℕ → EdgeSlide

-- `EdgeSlide::new`
unfoldable pub edge_slide : ℕ → EdgeSlide
edge_slide v =
    if v == 0
    then EdgeSlide.slide_off
    else if v == 1
    then EdgeSlide.stay_on
    else if v == 5
    then EdgeSlide.airbourne
    else EdgeSlide.unknown v

pub data HurtBoxState : Type 0 where
  normal invincible intangible_flashing intangible_no_flashing : HurtBoxState
  intangible_quick_flashing : HurtBoxState
  unknown : ℕ → HurtBoxState

-- `HurtBoxState::new`
unfoldable pub hurt_box_state : ℕ → HurtBoxState
hurt_box_state v =
    if v == 0
    then HurtBoxState.normal
    else if v == 1
    then HurtBoxState.invincible
    else if v == 2
    then HurtBoxState.intangible_flashing
    else if v == 3
    then HurtBoxState.intangible_no_flashing
    else if v == 4
    then HurtBoxState.intangible_quick_flashing
    else HurtBoxState.unknown v

-- `HurtBoxState::is_normal`
unfoldable pub is_normal : HurtBoxState → Bool
is_normal HurtBoxState.normal = true
is_normal _ = false

-- `HurtBoxState::is_invincible`
unfoldable pub is_invincible : HurtBoxState → Bool
is_invincible HurtBoxState.invincible = true
is_invincible _ = false

-- `HurtBoxState::is_intangible`
unfoldable pub is_intangible : HurtBoxState → Bool
is_intangible HurtBoxState.intangible_flashing = true
is_intangible HurtBoxState.intangible_no_flashing = true
is_intangible HurtBoxState.intangible_quick_flashing = true
is_intangible _ = false

pub data AngleFlip : Type 0 where
  away_from_attacker attacker_dir attacker_dir_reverse face_zaxis : AngleFlip
  unknown : ℕ → AngleFlip

-- `AngleFlip::new`
unfoldable pub angle_flip : ℕ → AngleFlip
angle_flip v =
    if v == 0
    then AngleFlip.away_from_attacker
    else if v == 2
    then AngleFlip.away_from_attacker
    else if v == 5
    then AngleFlip.away_from_attacker
    else if v == 1
    then AngleFlip.attacker_dir
    else if v == 3
    then AngleFlip.attacker_dir
    else if v == 4
    then AngleFlip.attacker_dir_reverse
    else if v == 6
    then AngleFlip.face_zaxis
    else if v == 7
    then AngleFlip.face_zaxis
    else AngleFlip.unknown v

pub data DefensiveCollisionType : Type 0 where
  block reflect : DefensiveCollisionType
  unknown : ℕ → DefensiveCollisionType

-- `DefensiveCollisionType::new`
unfoldable pub defensive_collision_type : ℕ → DefensiveCollisionType
defensive_collision_type v =
    if v == 2
    then DefensiveCollisionType.block
    else if v == 3
    then DefensiveCollisionType.reflect
    else DefensiveCollisionType.unknown v

pub data DefensiveCollisionDirection : Type 0 where
  front front_and_back : DefensiveCollisionDirection
  unknown : ℕ → DefensiveCollisionDirection

-- `DefensiveCollisionDirection::new`
unfoldable pub defensive_collision_direction : ℕ → DefensiveCollisionDirection
defensive_collision_direction v =
    if v == 1
    then DefensiveCollisionDirection.front
    else if v == 2
    then DefensiveCollisionDirection.front_and_back
    else DefensiveCollisionDirection.unknown v

pub data GrabTarget : Type 0 where
  none grounded_only aerial_only aerial_and_grounded : GrabTarget
  unknown : ℕ → GrabTarget

-- `GrabTarget::new`
unfoldable pub grab_target : ℕ → GrabTarget
grab_target v =
    if v == 0
    then GrabTarget.none
    else if v == 1
    then GrabTarget.grounded_only
    else if v == 2
    then GrabTarget.aerial_only
    else if v == 3
    then GrabTarget.aerial_and_grounded
    else GrabTarget.unknown v

-- `GrabTarget::grounded`
unfoldable pub grounded : GrabTarget → Bool
grounded GrabTarget.grounded_only = true
grounded GrabTarget.aerial_and_grounded = true
grounded _ = false

-- `GrabTarget::aerial`
unfoldable pub aerial : GrabTarget → Bool
aerial GrabTarget.aerial_only = true
aerial GrabTarget.aerial_and_grounded = true
aerial _ = false

pub data ThrowUse : Type 0 where
  throw grab_interrupt : ThrowUse
  unknown : ℕ → ThrowUse

-- `ThrowUse::new`
unfoldable pub throw_use : ℕ → ThrowUse
throw_use v =
    if v == 0
    then ThrowUse.throw
    else if v == 1
    then ThrowUse.grab_interrupt
    else ThrowUse.unknown v
