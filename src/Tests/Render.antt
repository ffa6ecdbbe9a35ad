-- ===== src/Tests/Render.antt =====
-- Whole numbers as floats, and what the game draws over them.
use fury_clash.Prelude.{
  ℕ, zero, suc, All, ◌+◌, ◌-◌, ◌/◌, ◌≤◌, ◌≡◌, refl, ℤ, pos, negsuc, ◌+ℤ◌, ◌-ℤ◌, ◌*ℤ◌, quot_ℤ, leb_ℤ,
  true, false, [], ◌∷◌, drop, some, arith,
}
use fury_clash.Floats.{IsIeee}
use fury_clash.Gameplay.Types.{Rect}
use fury_clash.Tests.Machines.{whole_numbers, input_log, slow_kernel}
use fury_clash.Tests.Network.{ready}
use fury_clash.Gameplay.Types.{loadout_fire, loadout_frost}
use fury_clash.Gameplay.Simulation.{simulation_init}
use fury_clash.Gameplay.Simulation.Runs.{run}
use fury_clash.Lobby.{Lobby, ls_role, lobby_init}
use fury_clash.Lobby.Touch.{lobby_handle_touch}
use fury_clash.Render.{fills, rect}
use fury_clash.Render.Lobby.{render_lobby, render_role, draw_button, draw_heading, draw_url}
use fury_clash.Render.Hud.{hud_render}
use fury_clash.Render.Buttons.{covers, touch_missed}
use fury_clash.Render.Bars.{IsWithin, hud-IsWithin}

quotient_1 : (m n : ℕ) → m ≤ n → 1 ≤ n → m / n ≤ 1
quotient_1 m n h k = grind arith

part_whole :
    (n : ℕ) (q : ℤ)
    → leb_ℤ (pos 0) q ≡ true
    → leb_ℤ q (pos 1) ≡ true
    → (leb_ℤ (pos 0) (pos n *ℤ q) ≡ true) × (leb_ℤ (pos n *ℤ q) (pos n) ≡ true)
unfolding ◌*ℤ◌
part_whole n (pos zero) a b = ground arith
part_whole n (pos (suc zero)) a b = ground arith
part_whole n (pos (suc (suc k))) a b = ground arith
part_whole n (negsuc k) a b = ground arith

remainder_whole :
    (m n : ℕ) (p : ℤ)
    → n ≤ m
    → leb_ℤ (pos 0) p ≡ true
    → leb_ℤ p (pos n) ≡ true
    → (leb_ℤ (pos (m - n)) (pos m -ℤ p) ≡ true) × (leb_ℤ (pos m -ℤ p) (pos m) ≡ true)
unfolding ◌-ℤ◌
remainder_whole m n (pos k) h a b = ground arith
remainder_whole m n (negsuc k) h a b = ground arith

sum_whole :
    (m n : ℕ) (p : ℤ)
    → leb_ℤ (pos 0) p ≡ true
    → leb_ℤ p (pos n) ≡ true
    → leb_ℤ (pos m +ℤ p) (pos (m + n)) ≡ true
unfolding ◌+ℤ◌
sum_whole m n (pos k) a b = ground arith
sum_whole m n (negsuc k) a b = ground arith

back_whole :
    (m n : ℕ) (p : ℤ)
    → n ≤ m
    → leb_ℤ (pos 0) p ≡ true
    → leb_ℤ p (pos n) ≡ true
    → leb_ℤ ((pos m -ℤ p) +ℤ p) (pos m) ≡ true
unfolding ◌+ℤ◌ ◌-ℤ◌
back_whole m n (pos k) h a b = ground arith
back_whole m n (negsuc k) h a b = ground arith

whole_ieee : IsIeee whole_numbers
unfolding quot_ℤ ◌+ℤ◌ ◌-ℤ◌ ◌*ℤ◌
whole_ieee = record {
  exact_lit = λ n h. ground arith;
  exact_sum = λ m n h. ground arith;
  exact_difference = λ m n h k. ground arith;
  exact_product = λ m n h. ground arith;
  exact_half = λ n h. ground arith;
  le_of_int = λ m n h. ground arith;
  fraction = λ m n h k. (ground arith, ground (arith, quotient_1 m n h k));
  part = λ n q h a b. part_whole n q a b;
  remainder = λ m n p h k a b. remainder_whole m n p h a b;
  sum_part = λ m n p h a b. sum_whole m n p a b;
  put_back = λ m n p h k a b. back_whole m n p h a b;
}

abbrev choosing_role : Lobby
choosing_role = record lobby_init { sub = ls_role }

role_missed :
    All
      (λ r. covers whole_numbers r (pos 460) (pos 350) ≡ false)
      (drop 1 (
        fills (
          render_lobby whole_numbers
            (ready.client).state
            (ready.client).opponent_loadout
            700
            choosing_role)))
unfolding render_lobby render_role draw_button draw_heading draw_url lobby_init ◌+ℤ◌
role_missed = (refl, (refl, (refl, tt)))

-- between Create Room and Join Room
touch_missed_example :
    lobby_handle_touch whole_numbers slow_kernel input_log
      (pos 460)
      (pos 350)
      (choosing_role, ready)
    ≡ some (choosing_role, ready)
touch_missed_example =
    touch_missed whole_numbers whole_ieee slow_kernel input_log (pos 460) (pos 350) 700
      choosing_role ready role_missed

hud-IsWithin_example :
    let s =
      run whole_numbers
        (simulation_init whole_numbers (pos 0) (pos 0) loadout_fire loadout_frost)
        ((8, 4) ∷ (17, 0) ∷ []) in
    (b1 b2 : Rect ℤ) × (fills (hud_render whole_numbers s.p1 s.p2)
      ≡ rect whole_numbers 20 20 570 18
        ∷ b1
        ∷ rect whole_numbers 20 42 570 8
        ∷ rect whole_numbers 20 42 0 8
        ∷ rect whole_numbers 690 20 570 18
        ∷ b2
        ∷ rect whole_numbers 690 42 570 8
        ∷ rect whole_numbers 690 42 0 8
        ∷ [])
    × IsWithin whole_numbers b1 (rect whole_numbers 20 20 570 18)
    × IsWithin whole_numbers b2 (rect whole_numbers 690 20 570 18)
hud-IsWithin_example =
    hud-IsWithin whole_numbers whole_ieee (pos 0) (pos 0) loadout_fire loadout_frost
      ((8, 4) ∷ (17, 0) ∷ [])
