-- ===== src/Gameplay/Simulation/Sound.antt =====
-- The invariant of both fighters through gameplay/hitbox.c and gameplay/simulation.c.
use fury_clash.Prelude.{
  ℕ, ◌≡◌, ℤ, pos, negsuc, ◌≤ℤ◌, ◌*ℤ◌, quot_ℤ, +ℤ_parts, true, false, if_ind, arith,
}
use fury_clash.Floats.{Floats}
use fury_clash.Gameplay.Types.{Fighter, is_guard, FighterState, LoadoutType}
use fury_clash.Gameplay.Physics.{physics_push_apart, physics_clamp_to_stage}
use fury_clash.Gameplay.Fighter.{fighter_tick}
use fury_clash.Gameplay.Fighter.Sound.{
  IsSound, is_reached, fighter_tick-IsSound, fighter_init-IsSound, apply_hit-IsSound,
}
use fury_clash.Gameplay.Hitbox.{hitbox_check, hitbox_resolve, scale_hit}
use fury_clash.Gameplay.Simulation.{
  SimState, apply_loadout, try_hit, fight_step, simulation_init, simulation_tick,
}

-- `hp.damage * damage_pct / 100` has no sign of its own.
scaled_nonneg : (a b : ℤ) → pos 0 ≤ℤ a → pos 0 ≤ℤ b → pos 0 ≤ℤ quot_ℤ (a *ℤ b) 100
unfolding quot_ℤ ◌*ℤ◌
scaled_nonneg (pos a) (pos b) p q = ground arith
scaled_nonneg (negsuc a) b p q = absurd (omega arith)
scaled_nonneg (pos a) (negsuc b) p q = absurd (omega arith)

is_guard-is_reached : (s : FighterState) → is_reached s ≡ true → is_guard s ≡ false
is_guard-is_reached s h = ground arith

abbrev pub BothSound : {F : Type 0} → Fighter F × Fighter F → Type 0
BothSound p = IsSound p.0 × IsSound p.1

module _ (fl : Floats) where
  open fl use {Float}

  resolve-IsSound :
      (a d : Fighter Float) → IsSound a → IsSound d → BothSound (hitbox_resolve fl a d)
  unfolding hitbox_resolve scale_hit
  resolve-IsSound a d va vd = (
    ground arith,
    rw (is_guard-is_reached d.state vd.reached) (
        apply_hit-IsSound fl d _ (scaled_nonneg a.hit_props.damage a.damage_pct va.hurts va.scaled)
          vd),
  )

  try_hit-IsSound : (a d : Fighter Float) → IsSound a → IsSound d → BothSound (try_hit fl a d)
  unfolding try_hit
  try_hit-IsSound a d va vd =
      if_ind BothSound (hitbox_check fl a d) (λ _. resolve-IsSound a d va vd) (λ _. (va, vd))

  push-IsSound :
      (a d : Fighter Float) → IsSound a → IsSound d → BothSound (physics_push_apart fl a d)
  unfolding physics_push_apart physics_clamp_to_stage
  push-IsSound a d va vd = (ground arith, ground arith)

  pub fight_step-IsSound :
      (a b : Fighter Float) (i j : ℕ) → IsSound a → IsSound b → BothSound (fight_step fl a b i j)
  unfolding fight_step
  fight_step-IsSound a b i j va vb =
      let wa = fighter_tick-IsSound fl a i b va in
      let wb = fighter_tick-IsSound fl b j (fighter_tick fl a i b) vb in
      let h = try_hit-IsSound _ _ wa wb in
      let k = try_hit-IsSound _ _ h.1 h.0 in push-IsSound _ _ k.1 k.0

  loadout-IsSound :
      (lt : LoadoutType) (f : Fighter Float) → IsSound f → IsSound (apply_loadout fl lt f)
  unfolding apply_loadout
  loadout-IsSound lt f v =
      ground (arith, +ℤ_parts f.health (pos 20), +ℤ_parts f.max_health (pos 20))

  pub simulation_init-IsSound :
      (i j : ℤ) (l m : LoadoutType) → let s = simulation_init fl i j l m in BothSound (s.p1, s.p2)
  unfolding simulation_init
  simulation_init-IsSound i j l m = (
    loadout-IsSound l _ (fighter_init-IsSound fl i (pos 0)),
    loadout-IsSound m _ (fighter_init-IsSound fl j (pos 1)),
  )

  -- A tick of the simulation keeps the invariant of both fighters, whatever the inputs.
  pub simulation_tick-IsSound :
      (s : SimState Float) (i j : ℕ)
      → IsSound s.p1
      → IsSound s.p2
      → let t = simulation_tick fl s i j in IsSound t.p1 × IsSound t.p2
  unfolding simulation_tick
  simulation_tick-IsSound s i j v w =
      if_ind (λ (t : SimState Float). IsSound t.p1 × IsSound t.p2) s.round.match_over (λ _. (v, w))
        (λ _. fight_step-IsSound s.p1 s.p2 i j v w)
