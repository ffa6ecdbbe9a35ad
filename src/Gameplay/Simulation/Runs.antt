-- ===== src/Gameplay/Simulation/Runs.antt =====
-- Whole fights: the simulation over a sequence of both players' inputs, from any characters and
-- loadouts.
use fury_clash.Prelude.{ℕ, ◌≤◌, ◌≡◌, ℤ, pos, ltb_ℤ, false, List, [], ◌∷◌, if_ind, arith}
use fury_clash.Floats.{Floats}
use fury_clash.Gameplay.Types.{Fighter, LoadoutType, hit}
use fury_clash.Gameplay.Physics.{
  physics_apply_gravity, physics_move, land, physics_clamp_to_stage, physics_push_apart,
}
use fury_clash.Gameplay.Fighter.{
  fighter_tick, fighter_apply_hit, act, move_body, update_facing, cancel_air_attack, finish_tick,
  ground_move, jump_punch,
}
use fury_clash.Gameplay.Fighter.Sound.{IsSound}
use fury_clash.Gameplay.Hitbox.{hitbox_resolve}
use fury_clash.Gameplay.Round.{RoundState, round_init, round_tick, award, check_match}
use fury_clash.Gameplay.Simulation.{SimState, try_hit, fight_step, simulation_init, simulation_tick}
use fury_clash.Gameplay.Simulation.Sound.{simulation_tick-IsSound, simulation_init-IsSound}

-- Nobody calls `round_start_next`: the first round is the only one.
record InFirstRound (rs : RoundState) : Type 0 where
  going : rs.match_over ≡ false
  most_1 : rs.p1_rounds_won ≤ 1
  most_2 : rs.p2_rounds_won ≤ 1
  open_1 : rs.round_over ≡ false → rs.p1_rounds_won ≡ 0
  open_2 : rs.round_over ≡ false → rs.p2_rounds_won ≡ 0

round_tick-InFirstRound :
    (rs : RoundState) (h1 h2 : ℤ) → InFirstRound rs → InFirstRound (round_tick rs h1 h2)
unfolding round_tick award check_match
round_tick-InFirstRound rs h1 h2 v = ground arith

abbrev IsHit : {F : Type 0} → Fighter F → Type 0
IsHit f = f.state ≡ hit

module _ (fl : Floats) where
  open fl use {Float}

  abbrev pub run : SimState Float → List (ℕ × ℕ) → SimState Float
  run s [] = s
  run s ((i, j) ∷ ins) = run (simulation_tick fl s i j) ins

  -- What every tick keeps, every fight keeps.
  pub run_inv {κ} :
      (P : SimState Float → Type κ)
      → ((s : SimState Float) (i j : ℕ) → P s → P (simulation_tick fl s i j))
      → (s : SimState Float) (ins : List (ℕ × ℕ)) → P s
      → P (run s ins)
  run_inv P keep s [] h = h
  run_inv P keep s ((i, j) ∷ ins) h = run_inv P keep (simulation_tick fl s i j) ins (keep s i j h)

  abbrev TwoSound : SimState Float → Type 0
  TwoSound s = IsSound s.p1 × IsSound s.p2

  -- After any fight from `simulation_init`, with any inputs, characters and loadouts, each
  -- fighter's health is between 0 and its maximum, at most one of its four hitboxes is active, it
  -- faces left or right, its move is in the table, and its state is none of FS_CROUCH, FS_BLOCK,
  -- FS_KNOCKDOWN and FS_WAKEUP.
  pub fight-IsSound :
      (c1 c2 : ℤ) (l1 l2 : LoadoutType) (ins : List (ℕ × ℕ))
      → let s = run (simulation_init fl c1 c2 l1 l2) ins in IsSound s.p1 × IsSound s.p2
  fight-IsSound c1 c2 l1 l2 ins =
      run_inv TwoSound (λ s i j h. simulation_tick-IsSound fl s i j h.0 h.1) _ ins
        (simulation_init-IsSound fl c1 c2 l1 l2)

  tick-InFirstRound :
      (s : SimState Float) (i j : ℕ)
      → InFirstRound s.round
      → InFirstRound (simulation_tick fl s i j).round
  unfolding simulation_tick
  tick-InFirstRound s i j v =
      if_ind (λ (t : SimState Float). InFirstRound t.round) s.round.match_over (λ _. v)
        (λ _. round_tick-InFirstRound s.round _ _ v)

  init-InFirstRound :
      (c1 c2 : ℤ) (l1 l2 : LoadoutType) → InFirstRound (simulation_init fl c1 c2 l1 l2).round
  unfolding simulation_init round_init
  init-InFirstRound c1 c2 l1 l2 = ground arith

  -- However long the players fight, the simulation never reports the match as over, and neither
  -- player ever has two rounds.
  pub match_never_over :
      (c1 c2 : ℤ) (l1 l2 : LoadoutType) (ins : List (ℕ × ℕ))
      → let rs = (run (simulation_init fl c1 c2 l1 l2) ins).round in
        (rs.match_over ≡ false) × (rs.p1_rounds_won ≤ 1) × (rs.p2_rounds_won ≤ 1)
  match_never_over c1 c2 l1 l2 ins =
      let v =
        run_inv (λ s. InFirstRound s.round) tick-InFirstRound _ ins
          (init-InFirstRound c1 c2 l1 l2) in
      (v.going, v.most_1, v.most_2)

  move_body_hit : (f : Fighter Float) → f.state ≡ hit → (move_body fl f).state ≡ hit
  unfolding move_body physics_apply_gravity physics_move land physics_clamp_to_stage
  move_body_hit f h = ground arith

  update_facing_hit : (f o : Fighter Float) → f.state ≡ hit → (update_facing fl f o).state ≡ hit
  unfolding update_facing
  update_facing_hit f o h = ground arith

  act_hit : (i : ℕ) (f : Fighter Float) → f.state ≡ hit → (act fl i f).state ≡ hit
  unfolding act cancel_air_attack finish_tick ground_move jump_punch
  act_hit i f h = ground arith

  fighter_tick_hit :
      (f : Fighter Float) (i : ℕ) (o : Fighter Float)
      → f.state ≡ hit
      → (fighter_tick fl f i o).state ≡ hit
  unfolding fighter_tick
  fighter_tick_hit f i o h =
      if_ind IsHit (ltb_ℤ (pos 0) f.hitstun) (λ _. h)
        (λ _.
          if_ind IsHit (ltb_ℤ (pos 0) f.blockstun) (λ _. h)
            (λ _. act_hit i _ (move_body_hit _ (update_facing_hit f o h))))

  -- A hit on either side leaves a fighter in FS_HIT there.
  try_hit_hit :
      (a d : Fighter Float)
      → (a.state ≡ hit → (try_hit fl a d).0.state ≡ hit)
        × (d.state ≡ hit → (try_hit fl a d).1.state ≡ hit)
  unfolding try_hit hitbox_resolve fighter_apply_hit
  try_hit_hit a d = ground arith

  push_hit :
      (a d : Fighter Float)
      → (a.state ≡ hit → (physics_push_apart fl a d).0.state ≡ hit)
        × (d.state ≡ hit → (physics_push_apart fl a d).1.state ≡ hit)
  unfolding physics_push_apart physics_clamp_to_stage
  push_hit a d = ground arith

  fight_step_hit :
      (a b : Fighter Float) (i j : ℕ)
      → (a.state ≡ hit → (fight_step fl a b i j).0.state ≡ hit)
        × (b.state ≡ hit → (fight_step fl a b i j).1.state ≡ hit)
  unfolding fight_step
  fight_step_hit a b i j = (
    λ h. (push_hit _ _).0 ((try_hit_hit _ _).1 ((try_hit_hit _ _).0 (fighter_tick_hit a i b h))),
    λ h. (push_hit _ _).1 ((try_hit_hit _ _).0 ((try_hit_hit _ _).1 (fighter_tick_hit b j _ h))),
  )

  tick_hit_1 :
      (s : SimState Float) (i j : ℕ) → s.p1.state ≡ hit → (simulation_tick fl s i j).p1.state ≡ hit
  unfolding simulation_tick
  tick_hit_1 s i j h =
      if_ind (λ (t : SimState Float). t.p1.state ≡ hit) s.round.match_over (λ _. h)
        (λ _. (fight_step_hit s.p1 s.p2 i j).0 h)

  tick_hit_2 :
      (s : SimState Float) (i j : ℕ) → s.p2.state ≡ hit → (simulation_tick fl s i j).p2.state ≡ hit
  unfolding simulation_tick
  tick_hit_2 s i j h =
      if_ind (λ (t : SimState Float). t.p2.state ≡ hit) s.round.match_over (λ _. h)
        (λ _. (fight_step_hit s.p1 s.p2 i j).1 h)

  -- Once P1 is in FS_HIT, P1 stays in FS_HIT for the rest of the fight, whatever both players press,
  -- and never walks, jumps or attacks again.
  pub hit_forever_p1 :
      (s : SimState Float) (ins : List (ℕ × ℕ)) → s.p1.state ≡ hit → (run s ins).p1.state ≡ hit
  hit_forever_p1 s ins h = run_inv (λ t. t.p1.state ≡ hit) tick_hit_1 s ins h

  -- Once P2 is in FS_HIT, P2 stays in FS_HIT for the rest of the fight, whatever both players press.
  hit_forever_p2 :
      (s : SimState Float) (ins : List (ℕ × ℕ)) → s.p2.state ≡ hit → (run s ins).p2.state ≡ hit
  hit_forever_p2 s ins h = run_inv (λ t. t.p2.state ≡ hit) tick_hit_2 s ins h
