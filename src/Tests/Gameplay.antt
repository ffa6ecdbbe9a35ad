-- ===== src/Tests/Gameplay.antt =====
-- Rounds, fights and combos with whole numbers for `float`.
use fury_clash.Prelude.{
  ◌≡◌, refl, inl, ◌≤◌, ◌⊎◌, ◌↔◌, ℤ, pos, negsuc, ◌≤ℤ◌, ◌-ℤ◌, true, false, some, [], ◌∷◌, arith,
}
use fury_clash.Gameplay.Types.{loadout_fire, loadout_frost, hit}
use fury_clash.Gameplay.Round.{RoundState, round_init, round_tick, award, check_match}
use fury_clash.Gameplay.Round.Bout.{
  Reach, start, after, tick, ticks, bout_bounds, round_tick_awards, ticks_end,
}
use fury_clash.Gameplay.Simulation.{SimState, simulation_init}
use fury_clash.Gameplay.Fighter.Sound.{IsSound}
use fury_clash.Gameplay.Simulation.Runs.{run, fight-IsSound, match_never_over, hit_forever_p1}
use fury_clash.Gameplay.Combo.{combo_of, combo_damage_scaled, combo_damage_bounds}
use fury_clash.Gameplay.Motion.{input_to_numpad, mirrored, input_to_numpad-mirrored}
use fury_clash.Tests.Machines.{whole_numbers}

-- after a first round that P1 won by a knock-out
abbrev one_won : RoundState
one_won = record {
  p1_rounds_won = 1;
  p2_rounds_won = 0;
  frame_timer = pos 5939;
  round_number = 1;
  round_over = true;
  match_over = false;
  winner_slot = pos 0;
}

one_won-Reach : Reach one_won
unfolding round_init round_tick award check_match ◌-ℤ◌
one_won-Reach = after start (tick round_init (pos 700) (pos 0) refl)

bout_bounds_example :
    (one_won.round_number ≤ 3)
    × (one_won.p1_rounds_won ≤ 2)
    × (one_won.p2_rounds_won ≤ 2)
    × ((one_won.match_over ≡ true) ↔ ((one_won.p1_rounds_won ≡ 2) ⊎ (one_won.p2_rounds_won ≡ 2)))
bout_bounds_example = bout_bounds one_won-Reach

-- the last frame of a round
abbrev last_frame : RoundState
last_frame = record {
  p1_rounds_won = 0;
  p2_rounds_won = 1;
  frame_timer = pos 1;
  round_number = 2;
  round_over = false;
  match_over = false;
  winner_slot = negsuc 0;
}

level_over : (round_tick last_frame (pos 300) (pos 300)).round_over ≡ true
unfolding round_tick award check_match ◌-ℤ◌
level_over = refl

round_tick_awards_example :
    ((round_tick last_frame (pos 300) (pos 300)).winner_slot ≡ pos 1)
    × ((round_tick last_frame (pos 300) (pos 300)).p1_rounds_won ≡ 0)
    × ((round_tick last_frame (pos 300) (pos 300)).p2_rounds_won ≡ 2)
round_tick_awards_example =
    round_tick_awards last_frame (pos 300) (pos 300) refl (omega arith) (omega arith)
      (inl (omega arith)) level_over

ticks_end_example : (ticks last_frame ((pos 10, pos 10) ∷ (pos 10, pos 9) ∷ [])).round_over ≡ true
ticks_end_example =
    ticks_end last_frame 2 ((pos 10, pos 10) ∷ (pos 10, pos 9) ∷ []) (omega arith) (omega arith)
      (omega arith)

abbrev opening : SimState ℤ
opening = simulation_init whole_numbers (pos 0) (pos 0) loadout_fire loadout_frost

fight-IsSound_example :
    IsSound (run whole_numbers opening ((8, 4) ∷ (17, 0) ∷ [])).p1
    × IsSound (run whole_numbers opening ((8, 4) ∷ (17, 0) ∷ [])).p2
fight-IsSound_example =
    fight-IsSound whole_numbers (pos 0) (pos 0) loadout_fire loadout_frost ((8, 4) ∷ (17, 0) ∷ [])

match_never_over_example :
    ((run whole_numbers opening ((8, 4) ∷ [])).round.match_over ≡ false)
    × ((run whole_numbers opening ((8, 4) ∷ [])).round.p1_rounds_won ≤ 1)
    × ((run whole_numbers opening ((8, 4) ∷ [])).round.p2_rounds_won ≤ 1)
match_never_over_example =
    match_never_over whole_numbers (pos 0) (pos 0) loadout_fire loadout_frost ((8, 4) ∷ [])

-- both fighters have just been hit
abbrev struck : SimState ℤ
struck = record opening {
  p1 = record (opening.p1) { state = hit };
  p2 = record (opening.p2) { state = hit };
}

hit_forever_p1_example : (run whole_numbers struck ((1, 0) ∷ (16, 0) ∷ [])).p1.state ≡ hit
hit_forever_p1_example = hit_forever_p1 whole_numbers struck ((1, 0) ∷ (16, 0) ∷ []) refl

combo_damage_bounds_example :
    (d : ℤ) × (combo_damage_scaled (combo_of (true ∷ false ∷ false ∷ [])) (pos 80) ≡ some d)
    × (pos 40 ≤ℤ d)
    × (d ≤ℤ pos 80)
combo_damage_bounds_example = combo_damage_bounds (true ∷ false ∷ false ∷ []) 80 (omega arith)

input_to_numpad-mirrored_example :
    input_to_numpad 6 (negsuc 0) ≡ input_to_numpad (mirrored 6) (pos 1)
input_to_numpad-mirrored_example = input_to_numpad-mirrored 6 (negsuc 0) refl
