-- ===== src/Tests/Dodge.antt =====
-- The prototype with a counter for its random numbers.
use fury_clash.Prelude.{
  ℕ, ℤ, refl, ◌+◌, ◌*◌, ◌%◌, ◌^◌, ◌*ℤ◌, quot_ℤ, pos_part, pos, false, [], arith,
}
use fury_clash.Dodge.{Random, Run, Game, game_reset}
use fury_clash.Dodge.Update.{up, pressed, dodge_event, game_update}
use fury_clash.Dodge.Screen.{IsMetric, IsKept, reset, update, input, Played-IsKept}
use fury_clash.Floats.{Floats}
use fury_clash.Tests.Machines.{whole_numbers}

abbrev counter : Random
counter = record { Seed = ℕ; rand = λ s. (s * 7 % 32768, s + 1); rand_max = 32767 }

-- all zero bytes
abbrev blank : Game ℤ
blank = record {
  px = pos 0;
  py = pos 0;
  pvx = pos 0;
  pvy = pos 0;
  alive = false;
  stars = [];
  rocks = [];
  particles = [];
  difficulty = pos 0;
  score = pos 0;
  high_score = pos 0;
  spawn_timer = pos 0;
  key_up = false;
  key_down = false;
  key_left = false;
  key_right = false;
}

-- hundredths for `float`
abbrev hundredths : Floats
hundredths = record whole_numbers {
  lit = λ m k. quot_ℤ (m *ℤ pos 100) (10 ^ k);
  of_int = λ n. n *ℤ pos 100;
  mul = λ x y. quot_ℤ (x *ℤ y) 100;
  div = λ x y. quot_ℤ (x *ℤ pos 100) (pos_part y);
}

hundredths-IsMetric : IsMetric hundredths
unfolding quot_ℤ ◌*ℤ◌
hundredths-IsMetric = record {
  irreflexive = λ x. ground arith;
  wide = refl;
  high = refl;
  middle = (refl, refl);
  low_start = (refl, refl);
}

abbrev played : Run hundredths counter
played =
    game_update hundredths counter (pos 1)
      (dodge_event hundredths counter (pressed up) (game_reset hundredths counter (blank, 5)))

Played-IsKept_example : IsKept hundredths counter played.0
Played-IsKept_example =
    Played-IsKept hundredths counter played hundredths-IsMetric
      (update (pos 1) (input (pressed up) (reset (blank, 5))))
