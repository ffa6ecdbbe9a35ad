-- ===== src/Gameplay/Simulation/Meters.antt =====
-- The simulation never calls gameplay/super.c: the meters stay empty.
use fury_clash.Prelude.{
  ℕ, ◌≡◌, refl, ◌≤ℤ◌, +ℤ_parts, ltb, ltb_ℤ, ℤ, pos, Bool, ◌&&◌, ◌||◌, List, Option, none, some,
  get_elem?, if_ind, arith,
}
use fury_clash.Floats.{Floats, whole}
use fury_clash.Gameplay.Types.{Fighter, LoadoutType, is_jumping, is_attack}
use fury_clash.Gameplay.Data.{FighterData, MoveData, fighter_data_get}
use fury_clash.Gameplay.Physics.{
  physics_apply_gravity, physics_move, land, physics_clamp_to_stage, physics_push_apart,
}
use fury_clash.Gameplay.Fighter.{
  fighter_init, fighter_tick, fighter_apply_hit, act, move_body, update_facing, cancel_air_attack,
  finish_tick, ground_move, jump_punch, start_air_attack, attack_window, run_attack, is_airborne,
  bit,
}
use fury_clash.Gameplay.Hitbox.{hitbox_resolve}
use fury_clash.Gameplay.Simulation.{
  SimState, apply_loadout, try_hit, fight_step, simulation_init, simulation_tick,
}
use fury_clash.Gameplay.Simulation.Runs.{run, run_inv}

module _ (fl : Floats) where
  open fl use {Float}

  -- an empty meter and a positive maximum of the health
  abbrev pub IsDrawable : Fighter Float → Type 0
  IsDrawable f = (f.super_meter ≡ whole fl 0) × (pos 1 ≤ℤ f.max_health)

  abbrev BothDrawable : Fighter Float × Fighter Float → Type 0
  BothDrawable p = IsDrawable p.0 × IsDrawable p.1

  move_body-IsDrawable : (f : Fighter Float) → IsDrawable f → IsDrawable (move_body fl f)
  unfolding move_body physics_apply_gravity physics_move land physics_clamp_to_stage
  move_body-IsDrawable f h = ground arith

  update_facing-IsDrawable :
      (f o : Fighter Float) → IsDrawable f → IsDrawable (update_facing fl f o)
  unfolding update_facing
  update_facing-IsDrawable f o h = ground arith

  cancel-IsDrawable :
      (air : Bool) (f : Fighter Float) → IsDrawable f → IsDrawable (cancel_air_attack fl air f)
  unfolding cancel_air_attack
  cancel-IsDrawable air f h = ground arith

  ground_move-IsDrawable :
      (i : ℕ) (f : Fighter Float) → IsDrawable f → IsDrawable (ground_move fl i f)
  unfolding ground_move
  ground_move-IsDrawable i f h = ground arith

  start-IsDrawable :
      (mid : ℕ) (f : Fighter Float) (fd : Option (FighterData Float))
      → IsDrawable f
      → IsDrawable (start_air_attack fl mid f fd)
  start-IsDrawable mid f none h = h
  start-IsDrawable mid f (some fd) h = if_ind IsDrawable (ltb mid fd.move_count) (λ _. h) (λ _. h)

  jump_punch-IsDrawable :
      (air : Bool) (just : ℕ) (f : Fighter Float)
      → IsDrawable f
      → IsDrawable (jump_punch fl air just f)
  unfolding jump_punch
  jump_punch-IsDrawable air just f h =
      if_ind IsDrawable (air && is_jumping f.state && (bit 4 just || bit 5 just))
        (λ _. start-IsDrawable _ f (fighter_data_get fl f.fighter_id) h) (λ _. h)

  attack_window-IsDrawable :
      (air : Bool) (f : Fighter Float) (mv : MoveData Float)
      → IsDrawable f
      → IsDrawable (attack_window fl air f mv)
  unfolding attack_window
  attack_window-IsDrawable air f mv h = ground arith

  run_attack-IsDrawable :
      (air : Bool) (f : Fighter Float) (fd : Option (FighterData Float))
      → IsDrawable f
      → IsDrawable (run_attack fl air f fd)
  unfolding run_attack
  run_attack-IsDrawable air f none h = h
  run_attack-IsDrawable air f (some fd) h =
      if_ind IsDrawable (ltb f.move_id fd.move_count)
        (λ _.
          elim (get_elem? fd.moves f.move_id)
            as (λ o. IsDrawable (elim o [ none ↦ f | some mv ↦ attack_window fl air f mv ])) [
              | none ↦ h
              | some mv ↦ attack_window-IsDrawable air f mv h
            ])
        (λ _. h)

  act-IsDrawable : (i : ℕ) (f : Fighter Float) → IsDrawable f → IsDrawable (act fl i f)
  unfolding act finish_tick
  act-IsDrawable i f h =
      let g = cancel_air_attack fl (is_airborne fl f) f in
      let hg = cancel-IsDrawable (is_airborne fl f) f h in
      if_ind IsDrawable (is_attack g.state)
        (λ _. run_attack-IsDrawable _ g (fighter_data_get fl g.fighter_id) hg)
        (λ _. jump_punch-IsDrawable _ _ _ (ground_move-IsDrawable i g hg))

  fighter_tick-IsDrawable :
      (f : Fighter Float) (i : ℕ) (o : Fighter Float)
      → IsDrawable f
      → IsDrawable (fighter_tick fl f i o)
  unfolding fighter_tick
  fighter_tick-IsDrawable f i o h =
      if_ind IsDrawable (ltb_ℤ (pos 0) f.hitstun) (λ _. h)
        (λ _.
          if_ind IsDrawable (ltb_ℤ (pos 0) f.blockstun) (λ _. h)
            (λ _. act-IsDrawable i _ (move_body-IsDrawable _ (update_facing-IsDrawable f o h))))

  try_hit-IsDrawable :
      (a d : Fighter Float) → IsDrawable a → IsDrawable d → BothDrawable (try_hit fl a d)
  unfolding try_hit hitbox_resolve fighter_apply_hit
  try_hit-IsDrawable a d ha hd = ground arith

  push-IsDrawable :
      (a d : Fighter Float) → IsDrawable a → IsDrawable d → BothDrawable (physics_push_apart fl a d)
  unfolding physics_push_apart physics_clamp_to_stage
  push-IsDrawable a d ha hd = ground arith

  fight_step-IsDrawable :
      (a b : Fighter Float) (i j : ℕ)
      → IsDrawable a
      → IsDrawable b
      → BothDrawable (fight_step fl a b i j)
  unfolding fight_step
  fight_step-IsDrawable a b i j ha hb =
      let a1 = fighter_tick-IsDrawable a i b ha in
      let b1 = fighter_tick-IsDrawable b j (fighter_tick fl a i b) hb in
      let once = try_hit-IsDrawable _ _ a1 b1 in
      let twice = try_hit-IsDrawable _ _ once.1 once.0 in push-IsDrawable _ _ twice.1 twice.0

  tick-IsDrawable :
      (s : SimState Float) (i j : ℕ)
      → IsDrawable s.p1 × IsDrawable s.p2
      → IsDrawable (simulation_tick fl s i j).p1 × IsDrawable (simulation_tick fl s i j).p2
  unfolding simulation_tick
  tick-IsDrawable s i j h =
      if_ind (λ (t : SimState Float). IsDrawable t.p1 × IsDrawable t.p2) s.round.match_over (λ _. h)
        (λ _. fight_step-IsDrawable s.p1 s.p2 i j h.0 h.1)

  loadout-IsDrawable :
      (lt : LoadoutType) (f : Fighter Float) → IsDrawable f → IsDrawable (apply_loadout fl lt f)
  unfolding apply_loadout
  loadout-IsDrawable lt f h = ground (arith, +ℤ_parts f.max_health (pos 20))

  -- in every fight
  pub fight-IsDrawable :
      (c1 c2 : ℤ) (l1 l2 : LoadoutType) (ins : List (ℕ × ℕ))
      → let s = run fl (simulation_init fl c1 c2 l1 l2) ins in IsDrawable s.p1 × IsDrawable s.p2
  unfolding simulation_init fighter_init
  fight-IsDrawable c1 c2 l1 l2 ins =
      run_inv fl (λ s. IsDrawable s.p1 × IsDrawable s.p2) tick-IsDrawable _ ins
        (loadout-IsDrawable l1 _ (refl, omega arith), loadout-IsDrawable l2 _ (refl, omega arith))
