-- ===== src/Gameplay/Types.antt =====
-- gameplay/fighter.h and core/config.h: the fighter record, its parts, and the constants.
use fury_clash.Prelude.{ℕ, ℤ, pos, Bool, true, false, List}
use fury_clash.Floats.{Floats, whole}

pub record Rect (F : Type 0) : Type 0 where
  pub x : F
  pub y : F
  pub w : F
  pub h : F

-- An enum of C holds any `int`, and the client casts bytes of the network to this one.
abbrev pub LoadoutType : Type 0
LoadoutType = ℤ

abbrev pub loadout_none : LoadoutType
loadout_none = pos 0

abbrev pub loadout_fire : LoadoutType
loadout_fire = pos 1

abbrev pub loadout_frost : LoadoutType
loadout_frost = pos 2

pub record HitProperties (F : Type 0) : Type 0 where
  pub damage : ℤ
  pub chip_damage : ℤ
  pub hitstun : ℤ
  pub blockstun : ℤ
  pub knockback_x : F
  pub knockback_y : F
  pub launches : ℤ

pub data FighterState : Type 0 where
  idle walk_fwd walk_back crouch jump_neutral jump_fwd jump_back attack hit block knockdown wakeup :
      FighterState
  state_count : FighterState

-- Counters that only grow from 0 (`state_frame`, `combo_counter`) and indices are natural numbers.
pub record Fighter (F : Type 0) : Type 0 where
  pub fighter_id : ℤ
  pub player_slot : ℤ
  pub x : F
  pub y : F
  pub vx : F
  pub vy : F
  pub facing : ℤ
  pub state : FighterState
  pub state_frame : ℕ
  pub hitstun : ℤ
  pub blockstun : ℤ
  pub combo_counter : ℕ
  pub move_id : ℕ
  pub health : ℤ
  pub max_health : ℤ
  pub super_meter : F
  pub anim_id : ℤ
  pub anim_frame : ℤ
  pub hitboxes : List (Rect F)
  pub hitbox_count : ℕ
  pub hurtbox : Rect F
  pub hit_props : HitProperties F
  pub prev_input : ℕ
  pub loadout : LoadoutType
  pub damage_pct : ℤ

-- `f->state == FS_IDLE || f->state == FS_WALK_FWD || f->state == FS_WALK_BACK`
abbrev pub is_grounded : FighterState → Bool
is_grounded idle = true
is_grounded walk_fwd = true
is_grounded walk_back = true
is_grounded _ = false

abbrev pub is_jumping : FighterState → Bool
is_jumping jump_neutral = true
is_jumping jump_fwd = true
is_jumping jump_back = true
is_jumping _ = false

abbrev pub is_attack : FighterState → Bool
is_attack attack = true
is_attack _ = false

-- `FS_BLOCK` or `FS_CROUCH`, the states in which a hit is blocked
abbrev pub is_guard : FighterState → Bool
is_guard block = true
is_guard crouch = true
is_guard _ = false

abbrev pub max_health : ℤ
max_health = pos 1000

abbrev pub rounds_to_win : ℕ
rounds_to_win = 2

-- FC_ROUND_TIME_SEC * FC_TICK_RATE
abbrev pub round_frames : ℤ
round_frames = pos 5940

module _ (fl : Floats) where
  abbrev pub gravity : fl.Float
  gravity = whole fl 1800

  abbrev pub ground_y : fl.Float
  ground_y = whole fl 540

  abbrev pub stage_left : fl.Float
  stage_left = whole fl 50

  abbrev pub stage_right : fl.Float
  stage_right = whole fl 1230

  -- FC_TICK_DT is the double 1.0 / 60
  abbrev pub tick_dt : fl.Double
  tick_dt = fl.ddiv (fl.double_of_int (pos 1)) (fl.double_of_int (pos 60))
