-- ===== src/Gameplay/Fighter.antt =====
-- gameplay/fighter.c: the state machine of one fighter. `fighter_tick` is cut at its blank lines
-- into the functions below, and calls them in the order of the source.
pub mod Sound
use fury_clash.Prelude.{
  ℕ, ◌+◌, ◌-◌, ◌/◌, ◌%◌, ◌^◌, bit_and, ℤ, pos, negsuc, ◌-ℤ◌, ltb_ℤ, eqb_ℤ, ltb, leb, ◌==◌, Bool,
  not, ◌&&◌, ◌||◌, replicate, set, get_elem?, Option, none, some, if◌then◌else◌,
}
use fury_clash.Floats.{Floats, whole, minus}
use fury_clash.Gameplay.Types.{
  Rect, HitProperties, Fighter, FighterState, idle, walk_fwd, walk_back, jump_neutral, jump_fwd,
  jump_back, attack, hit, is_grounded, is_jumping, is_attack, max_health, ground_y,
}
use fury_clash.Gameplay.Data.{MoveData, FighterData, fighter_data_get}
use fury_clash.Gameplay.Physics.{physics_apply_gravity, physics_move, physics_clamp_to_stage}

-- `(input >> k) & 1`
abbrev pub bit : ℕ → ℕ → Bool
bit k input = ((input / 2 ^ k) % 2) == 1

-- `input & ~prev` on `uint16_t`
abbrev pub just_pressed : ℕ → ℕ → ℕ
just_pressed input prev = bit_and input (65535 - prev)

abbrev pub jump_move_first : ℕ
jump_move_first = 3

module _ (fl : Floats) where
  open fl use {Float, lit, of_int, sub, mul, neg, add, flt, fle}

  abbrev pub zero_rect : Rect Float
  zero_rect = record { x = whole fl 0; y = whole fl 0; w = whole fl 0; h = whole fl 0 }

  abbrev pub zero_props : HitProperties Float
  zero_props = record {
    damage = pos 0;
    chip_damage = pos 0;
    hitstun = pos 0;
    blockstun = pos 0;
    knockback_x = whole fl 0;
    knockback_y = whole fl 0;
    launches = pos 0;
  }

  -- after the `memset` the function reads nothing of the old record
  unfoldable pub fighter_init : ℤ → ℤ → Fighter Float
  fighter_init id slot = record {
    fighter_id = id;
    player_slot = slot;
    x = if eqb_ℤ slot (pos 0) then whole fl 300 else whole fl 980;
    y = ground_y fl;
    vx = whole fl 0;
    vy = whole fl 0;
    facing = if eqb_ℤ slot (pos 0) then pos 1 else negsuc 0;
    state = idle;
    state_frame = 0;
    hitstun = pos 0;
    blockstun = pos 0;
    combo_counter = 0;
    move_id = 0;
    health = max_health;
    max_health = max_health;
    super_meter = whole fl 0;
    anim_id = pos 0;
    anim_frame = pos 0;
    hitboxes = replicate 4 zero_rect;
    hitbox_count = 0;
    hurtbox = record { x = minus fl 30; y = minus fl 160; w = whole fl 60; h = whole fl 160 };
    hit_props = zero_props;
    prev_input = 0;
    loadout = pos 0;
    damage_pct = pos 0;
  }

  unfoldable pub update_facing : Fighter Float → Fighter Float → Fighter Float
  update_facing f opponent =
      if is_grounded f.state
      then record f { facing = if fle (whole fl 0) (sub opponent.x f.x) then pos 1 else negsuc 0 }
      else f

  unfoldable pub is_airborne : Fighter Float → Bool
  is_airborne f = flt f.y (sub (ground_y fl) (lit (pos 10) 1))

  -- landing while performing an air attack
  unfoldable pub cancel_air_attack : Bool → Fighter Float → Fighter Float
  cancel_air_attack airborne f =
      if not airborne && is_attack f.state && leb jump_move_first f.move_id
      then record f { state = idle; state_frame = 0; hitbox_count = 0; vx = whole fl 0 }
      else f

  -- the hitbox of the active window, then the end of the move
  unfoldable pub attack_window : Bool → Fighter Float → MoveData Float → Fighter Float
  attack_window airborne f mv =
      let g =
        if leb mv.startup f.state_frame && ltb f.state_frame (mv.startup + mv.active)
        then record f {
          hitboxes = set f.hitboxes 0 mv.hitbox;
          hitbox_count = 1;
          hit_props = mv.hit;
        }
        else record f { hitbox_count = 0 } in
      if leb mv.total_frames g.state_frame
      then record g {
        state = if airborne then jump_neutral else idle;
        state_frame = 0;
        hitbox_count = 0;
      }
      else g

  -- The tables hold `move_count` moves, so `none` of the inner read does not occur.
  unfoldable pub run_attack : Bool → Fighter Float → Option (FighterData Float) → Fighter Float
  unfolding attack_window
  run_attack airborne f none = f
  run_attack airborne f (some fd) =
      if ltb f.move_id fd.move_count
      then elim (get_elem? fd.moves f.move_id) [ none ↦ f | some mv ↦ attack_window airborne f mv ]
      else f

  -- `state_frame++; prev_input = input;`
  unfoldable pub finish_tick : ℕ → Fighter Float → Fighter Float
  finish_tick input f = record f { state_frame = f.state_frame + 1; prev_input = input }

  abbrev pub jump_vy_of : Option (FighterData Float) → Float
  jump_vy_of none = lit (negsuc 8999) 1
  jump_vy_of (some fd) = fd.jump_vy

  abbrev pub jump_vx_of : Option (FighterData Float) → Float
  jump_vx_of none = lit (pos 1800) 1
  jump_vx_of (some fd) = fd.jump_vx

  unfoldable pub launch_jump : Bool → Bool → Fighter Float → Fighter Float
  launch_jump move_fwd press_side f =
      let fd = fighter_data_get fl f.fighter_id in
      let jvx = jump_vx_of fd in
      let g = record f { vy = jump_vy_of fd; state_frame = 0 } in
      if move_fwd
      then record g { state = jump_fwd; vx = mul jvx (of_int f.facing) }
      else if press_side
      then record g { state = jump_back; vx = mul (neg jvx) (of_int f.facing) }
      else record g { state = jump_neutral; vx = whole fl 0 }

  unfoldable pub walk : Bool → Bool → Fighter Float → Fighter Float
  walk move_fwd press_side f =
      if move_fwd
      then record f { state = walk_fwd; vx = mul (lit (pos 2000) 1) (of_int f.facing) }
      else if press_side
      then record f { state = walk_back; vx = mul (lit (negsuc 1499) 1) (of_int f.facing) }
      else record f { state = idle; vx = whole fl 0 }

  -- ground movement and jump launch
  unfoldable pub ground_move : ℕ → Fighter Float → Fighter Float
  unfolding launch_jump walk
  ground_move input f =
      let press_fwd = bit 3 input in
      let press_back = bit 2 input in
      let move_fwd = if ltb_ℤ (pos 0) f.facing then press_fwd else press_back in
      if is_grounded f.state
      then (if bit 0 input
          then launch_jump move_fwd (press_fwd || press_back) f
          else walk move_fwd (press_fwd || press_back) f)
      else f

  abbrev pub start_air_attack : ℕ → Fighter Float → Option (FighterData Float) → Fighter Float
  start_air_attack mid f none = f
  start_air_attack mid f (some fd) =
      if ltb mid fd.move_count
      then record f { state = attack; move_id = mid; state_frame = 0; hitbox_count = 0 }
      else f

  -- `just` is the just-pressed bits
  unfoldable pub jump_punch : Bool → ℕ → Fighter Float → Fighter Float
  jump_punch airborne just f =
      if airborne && is_jumping f.state && (bit 4 just || bit 5 just)
      then start_air_attack (if bit 5 just then 4 else 3) f (fighter_data_get fl f.fighter_id)
      else f

  -- from the physics on, with no stun left
  unfoldable pub act : ℕ → Fighter Float → Fighter Float
  act input f =
      let airborne = is_airborne f in
      let g = cancel_air_attack airborne f in
      if is_attack g.state
      then finish_tick input (run_attack airborne g (fighter_data_get fl g.fighter_id))
      else (finish_tick input
          (jump_punch airborne (just_pressed input g.prev_input) (ground_move input g)))

  unfoldable pub move_body : Fighter Float → Fighter Float
  move_body f = physics_clamp_to_stage fl (physics_move fl (physics_apply_gravity fl f))

  unfoldable pub fighter_tick : Fighter Float → ℕ → Fighter Float → Fighter Float
  fighter_tick f input opponent =
      if ltb_ℤ (pos 0) f.hitstun
      then record f { hitstun = f.hitstun -ℤ pos 1 }
      else if ltb_ℤ (pos 0) f.blockstun
      then record f { blockstun = f.blockstun -ℤ pos 1 }
      else act input (move_body (update_facing f opponent))

  -- `if (f->health < 0) f->health = 0;`
  abbrev pub floor_health : ℤ → ℤ
  floor_health h = if ltb_ℤ h (pos 0) then pos 0 else h

  unfoldable pub fighter_apply_hit : Fighter Float → HitProperties Float → Bool → Fighter Float
  fighter_apply_hit f hp blocked =
      if blocked
      then record f {
        health = floor_health (f.health -ℤ hp.chip_damage);
        blockstun = hp.blockstun;
        vx = mul (neg hp.knockback_x) (lit (pos 3) 1);
      }
      else record f {
        health = floor_health (f.health -ℤ hp.damage);
        hitstun = hp.hitstun;
        vx = neg hp.knockback_x;
        vy = hp.knockback_y;
        combo_counter = f.combo_counter + 1;
        state = hit;
        state_frame = 0;
      }
