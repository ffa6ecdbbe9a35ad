-- ===== src/Gameplay/Simulation.antt =====
-- gameplay/simulation.c. `g_sim` is passed on as a value, so `simulation_save` and
-- `simulation_restore`, which copy it, are the passing of that value.
pub mod Sound
pub mod Runs
pub mod Meters
use fury_clash.Prelude.{ℕ, ◌+◌, ◌%◌, ◌^◌, ℤ, pos, ◌+ℤ◌, eqb_ℤ, Option, none, some, if◌then◌else◌}
use fury_clash.Floats.{Floats}
use fury_clash.Gameplay.Types.{Fighter, LoadoutType, loadout_fire, loadout_frost}
use fury_clash.Gameplay.Physics.{physics_push_apart}
use fury_clash.Gameplay.Fighter.{fighter_init, fighter_tick}
use fury_clash.Gameplay.Hitbox.{hitbox_check, hitbox_resolve}
use fury_clash.Gameplay.Round.{RoundState, round_init, round_tick}

-- `fighters[0]` and `fighters[1]` are `p1` and `p2`.
pub record SimState (F : Type 0) : Type 0 where
  pub p1 : Fighter F
  pub p2 : Fighter F
  pub round : RoundState
  pub frame : ℕ

module _ (fl : Floats) where
  open fl use {Float}

  -- the body of the loop over the two fighters
  unfoldable pub apply_loadout : LoadoutType → Fighter Float → Fighter Float
  apply_loadout lt f =
      let g = record f { loadout = lt; damage_pct = pos 100 } in
      if eqb_ℤ lt loadout_fire
      then record g { damage_pct = pos 120 }
      else if eqb_ℤ lt loadout_frost
      then record g { health = g.health +ℤ pos 20; max_health = g.max_health +ℤ pos 20 }
      else g

  unfoldable pub simulation_init : ℤ → ℤ → LoadoutType → LoadoutType → SimState Float
  simulation_init id1 id2 lt1 lt2 = record {
    p1 = apply_loadout lt1 (fighter_init fl id1 (pos 0));
    p2 = apply_loadout lt2 (fighter_init fl id2 (pos 1));
    round = round_init;
    frame = 0;
  }

  -- `if (hitbox_check(a, d)) hitbox_resolve(a, d);`
  unfoldable pub try_hit : Fighter Float → Fighter Float → Fighter Float × Fighter Float
  try_hit a d = if hitbox_check fl a d then hitbox_resolve fl a d else (a, d)

  -- the two fighters through one tick
  unfoldable pub fight_step : Fighter Float → Fighter Float → ℕ → ℕ → Fighter Float × Fighter Float
  fight_step f1 f2 input1 input2 =
      let g1 = fighter_tick fl f1 input1 f2 in
      let g2 = fighter_tick fl f2 input2 g1 in
      let (h1, h2) = try_hit g1 g2 in let (k2, k1) = try_hit h2 h1 in physics_push_apart fl k1 k2

  unfoldable pub simulation_tick : SimState Float → ℕ → ℕ → SimState Float
  simulation_tick s input1 input2 =
      let (f1, f2) = fight_step s.p1 s.p2 input1 input2 in
      if s.round.match_over then s else record {
        p1 = f1;
        p2 = f2;
        round = round_tick s.round f1.health f2.health;
        frame = (s.frame + 1) % 2 ^ 32;
      }

  unfoldable pub simulation_get_fighter : SimState Float → ℤ → Option (Fighter Float)
  simulation_get_fighter s slot =
      if eqb_ℤ slot (pos 0) then some s.p1 else if eqb_ℤ slot (pos 1) then some s.p2 else none
