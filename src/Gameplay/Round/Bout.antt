-- ===== src/Gameplay/Round/Bout.antt =====
-- A match as a sequence of rounds: ticks of the round logic, and `round_start_next` between two
-- rounds of a match that is not over.
use fury_clash.Prelude.{
  ℕ, zero, suc, ◌+◌, ◌-◌, ◌≤◌, ◌<◌, ◌≡◌, refl, ◌↔◌, ◌⊎◌, inl, inr, ℤ, pos, ◌≤ℤ◌, ◌<ℤ◌, -ℤ_parts,
  ltb_ℤ, true, false, List, [], ◌∷◌, length, if◌then◌else◌, arith,
}
use fury_clash.Gameplay.Round.{
  RoundState, round_init, award, check_match, round_tick, round_start_next,
}

pub data Step : RoundState → RoundState → Type 0 where
  tick : (rs : RoundState) (h1 h2 : ℤ) → rs.match_over ≡ false → Step rs (round_tick rs h1 h2)
  next :
      (rs : RoundState)
      → rs.round_over ≡ true
      → rs.match_over ≡ false
      → Step rs (round_start_next rs)

pub data Reach : RoundState → Type 0 where
  start : Reach round_init
  after : {rs rs' : RoundState} → Reach rs → Step rs rs' → Reach rs'

-- the rounds that have been decided
abbrev pub decided : RoundState → ℕ
decided rs = elim rs.round_over [ true ↦ rs.round_number | false ↦ rs.round_number - 1 ]

pub record InBout (rs : RoundState) : Type 0 where
  pub numbered : 1 ≤ rs.round_number
  pub scored : decided rs ≤ rs.p1_rounds_won + rs.p2_rounds_won
  pub most_1 : rs.p1_rounds_won ≤ 2
  pub most_2 : rs.p2_rounds_won ≤ 2
  pub going : rs.match_over ≡ false → (rs.p1_rounds_won ≤ 1) × (rs.p2_rounds_won ≤ 1)
  pub won : rs.match_over ≡ true → (rs.p1_rounds_won ≡ 2) ⊎ (rs.p2_rounds_won ≡ 2)
  pub third : rs.round_number ≤ 3
  pub closed : rs.match_over ≡ true → rs.round_over ≡ true

round_init-InBout : InBout round_init
unfolding round_init
round_init-InBout = ground arith

round_tick-InBout :
    (rs : RoundState) (h1 h2 : ℤ) → rs.match_over ≡ false → InBout rs → InBout (round_tick rs h1 h2)
unfolding round_tick award check_match
round_tick-InBout rs h1 h2 m v = ground arith

round_start_next-InBout :
    (rs : RoundState)
    → rs.round_over ≡ true
    → rs.match_over ≡ false
    → InBout rs
    → InBout (round_start_next rs)
unfolding round_start_next
round_start_next-InBout rs o m v = ground arith

Step-InBout : {rs rs' : RoundState} → Step rs rs' → InBout rs → InBout rs'
Step-InBout (tick rs h1 h2 m) v = round_tick-InBout rs h1 h2 m v
Step-InBout (next rs o m) v = round_start_next-InBout rs o m v

pub Reach-InBout : {rs : RoundState} → Reach rs → InBout rs
Reach-InBout start = round_init-InBout
Reach-InBout (after r s) = Step-InBout s (Reach-InBout r)

-- In every match played with `round_start_next` between the rounds, nobody wins more than two
-- rounds, there is no fourth round, and the match is over exactly when somebody has won two.
pub bout_bounds :
    {rs : RoundState}
    → Reach rs
    → (rs.round_number ≤ 3)
      × (rs.p1_rounds_won ≤ 2)
      × (rs.p2_rounds_won ≤ 2)
      × ((rs.match_over ≡ true) ↔ ((rs.p1_rounds_won ≡ 2) ⊎ (rs.p2_rounds_won ≡ 2)))
bout_bounds {rs} r = ground (arith, Reach-InBout r)

-- When a tick ends a round in which the healths are not negative and not both 0, P1 wins it if P1
-- has strictly more health, and P2 in every other case, a tie on time included; the winner alone
-- scores.
pub round_tick_awards :
    (rs : RoundState) (h1 h2 : ℤ)
    → rs.round_over ≡ false
    → pos 0 ≤ℤ h1
    → pos 0 ≤ℤ h2
    → (pos 0 <ℤ h1) ⊎ (pos 0 <ℤ h2)
    → (round_tick rs h1 h2).round_over ≡ true
    → let t = round_tick rs h1 h2 in
      let more = ltb_ℤ h2 h1 in
      (t.winner_slot ≡ (if more then pos 0 else pos 1))
      × (t.p1_rounds_won ≡ rs.p1_rounds_won + (if more then 1 else 0))
      × (t.p2_rounds_won ≡ rs.p2_rounds_won + (if more then 0 else 1))
unfolding round_tick award check_match
round_tick_awards rs h1 h2 o a b c e = ground arith

-- the ticks of one round, with the healths that each sees
abbrev pub ticks : RoundState → List (ℤ × ℤ) → RoundState
ticks rs [] = rs
ticks rs ((h1, h2) ∷ hs) = ticks (round_tick rs h1 h2) hs

round_tick_over : (rs : RoundState) (h1 h2 : ℤ) → rs.round_over ≡ true → round_tick rs h1 h2 ≡ rs
unfolding round_tick
round_tick_over rs h1 h2 o = rw o

ticks_over : (rs : RoundState) (hs : List (ℤ × ℤ)) → rs.round_over ≡ true → ticks rs hs ≡ rs
ticks_over rs [] o = refl
ticks_over rs ((h1, h2) ∷ hs) o = rw (round_tick_over rs h1 h2 o) (ticks_over rs hs o)

round_tick_counts :
    (rs : RoundState) (h1 h2 : ℤ) (n : ℕ)
    → rs.frame_timer ≤ℤ pos (suc n)
    → ((round_tick rs h1 h2).round_over ≡ true)
      ⊎ (((round_tick rs h1 h2).frame_timer ≤ℤ pos n) × (0 < n))
unfolding round_tick award check_match
round_tick_counts rs h1 h2 n h = ground (arith, -ℤ_parts rs.frame_timer (pos 1))

-- A round ends in time: once the timer shows at most `n` frames, `n` further ticks end it, whatever
-- the healths are.
pub ticks_end :
    (rs : RoundState) (n : ℕ) (hs : List (ℤ × ℤ))
    → rs.frame_timer ≤ℤ pos n
    → 0 < n
    → n ≤ length hs
    → (ticks rs hs).round_over ≡ true
ticks_end rs zero hs t p l = absurd (omega arith)
ticks_end rs (suc n) [] t p l = absurd (omega arith)
ticks_end rs (suc n) ((h1, h2) ∷ hs) t p l = elim (round_tick_counts rs h1 h2 n t) [
  | inl over ↦ rw (ticks_over (round_tick rs h1 h2) hs over) over
  | inr (t', p') ↦ ticks_end (round_tick rs h1 h2) n hs t' p' (omega arith)
]
