-- ===== src/Gameplay/Round.antt =====
-- gameplay/round.c
pub mod Bout
use fury_clash.Prelude.{
  ℕ, ◌+◌, ℤ, pos, negsuc, ◌-ℤ◌, ltb_ℤ, leb_ℤ, leb, Bool, true, false, ◌&&◌, ◌||◌, if◌then◌else◌,
}
use fury_clash.Gameplay.Types.{rounds_to_win, round_frames}

-- The flags are 0 or 1 in the source. `winner_slot` is -1, 0 or 1.
pub record RoundState : Type 0 where
  pub p1_rounds_won : ℕ
  pub p2_rounds_won : ℕ
  pub frame_timer : ℤ
  pub round_number : ℕ
  pub round_over : Bool
  pub match_over : Bool
  pub winner_slot : ℤ

unfoldable pub round_init : RoundState
round_init = record {
  p1_rounds_won = 0;
  p2_rounds_won = 0;
  frame_timer = round_frames;
  round_number = 1;
  round_over = false;
  match_over = false;
  winner_slot = negsuc 0;
}

-- who takes the round
unfoldable pub award : RoundState → ℤ → ℤ → RoundState
award rs p1_hp p2_hp =
    let p1_ko = leb_ℤ p1_hp (pos 0) in
    let p2_ko = leb_ℤ p2_hp (pos 0) in
    if p1_ko && p2_ko
    then record rs {
      winner_slot = negsuc 0;
      p1_rounds_won = rs.p1_rounds_won + 1;
      p2_rounds_won = rs.p2_rounds_won + 1;
    }
    else if p2_ko || ltb_ℤ p2_hp p1_hp
    then record rs { winner_slot = pos 0; p1_rounds_won = rs.p1_rounds_won + 1 }
    else record rs { winner_slot = pos 1; p2_rounds_won = rs.p2_rounds_won + 1 }

unfoldable pub check_match : RoundState → RoundState
check_match rs =
    if leb rounds_to_win rs.p1_rounds_won || leb rounds_to_win rs.p2_rounds_won
    then record rs { match_over = true }
    else rs

unfoldable pub round_tick : RoundState → ℤ → ℤ → RoundState
unfolding award check_match
round_tick rs p1_hp p2_hp =
    let t = record rs { frame_timer = rs.frame_timer -ℤ pos 1 } in
    if rs.round_over
    then rs
    else if leb_ℤ p1_hp (pos 0) || leb_ℤ p2_hp (pos 0) || leb_ℤ t.frame_timer (pos 0)
    then check_match (award (record t { round_over = true }) p1_hp p2_hp)
    else t

unfoldable pub round_start_next : RoundState → RoundState
round_start_next rs = record rs {
  round_over = false;
  winner_slot = negsuc 0;
  frame_timer = round_frames;
  round_number = rs.round_number + 1;
}
