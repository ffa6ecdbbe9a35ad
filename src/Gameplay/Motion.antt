-- ===== src/Gameplay/Motion.antt =====
-- gameplay/special_moves.c: the direction history and the motions that it tells.
use fury_clash.Prelude.{
  ℕ, zero, suc, ◌+◌, ◌-◌, ◌*◌, ◌/◌, ◌%◌, ◌^◌, ◌≡◌, refl, ap, ◌==◌, ℤ, pos, ltb_ℤ, Bool, true, false,
  ◌&&◌, ◌||◌, List, [], ◌∷◌, replicate, set, get_elem?, Option, some, ◌>>=◌, if◌then◌else◌, arith,
}

-- a bit of the input, set
abbrev pub bit_set : ℕ → ℕ → Bool
bit_set input n = (input / 2 ^ n % 2) == 1

-- the direction on a keypad, as seen by a fighter that looks to the right
unfoldable pub input_to_numpad : ℕ → ℤ → ℕ
input_to_numpad input facing =
    let right = ltb_ℤ (pos 0) facing in
    let up = bit_set input 0 in
    let down = bit_set input 1 in
    let back = if right then bit_set input 2 else bit_set input 3 in
    let fwd = if right then bit_set input 3 else bit_set input 2 in
    if down && fwd
    then 3
    else if down && back
    then 1
    else if up && fwd
    then 9
    else if up && back
    then 7
    else if down
    then 2
    else if up
    then 8
    else if fwd
    then 6
    else if back
    then 4
    else 5

pub data MotionCmd : Type 0 where
  mc_none mc_qcf mc_qcb mc_dp mc_rdp mc_charge_f mc_charge_u mc_360 : MotionCmd

pub record MotionDetector : Type 0 where
  pub dir_history : List ℕ
  pub head : ℕ
  pub charge_left_frames : ℕ
  pub charge_down_frames : ℕ

unfoldable pub motion_detector_init : MotionDetector
motion_detector_init = record {
  dir_history = replicate 30 5;
  head = 0;
  charge_left_frames = 0;
  charge_down_frames = 0;
}

unfoldable pub motion_detector_push : ℕ → ℤ → MotionDetector → MotionDetector
motion_detector_push input facing md =
    let np = input_to_numpad input facing in
    record {
      dir_history = set md.dir_history md.head np;
      head = (md.head + 1) % 30;
      charge_left_frames = if np == 4 || np == 1 || np == 7 then md.charge_left_frames + 1 else 0;
      charge_down_frames = if np == 2 || np == 1 || np == 3 then md.charge_down_frames + 1 else 0;
    }

-- The loop: `todo` frames to go from the `i`-th last one back; `left` is what is not yet matched of
-- the sequence, its last direction first. `none` is an access outside the history.
unfoldable pub matches : MotionDetector → ℕ → ℕ → List ℕ → Option Bool
matches md todo i [] = some true
matches md zero i (d ∷ left) = some false
matches md (suc todo) i (d ∷ left) = get_elem? md.dir_history ((md.head + 30 - 1 - i) % 30) >>= λ x.
    let hit = matches md todo (i + 1) left in
    let miss = matches md todo (i + 1) (d ∷ left) in if x == d then hit else miss

-- `seq` stands with its last direction first.
unfoldable pub find_sequence : MotionDetector → List ℕ → ℕ → Option Bool
find_sequence md seq window = matches md window 0 seq

-- the charge, where no motion is found
unfoldable pub check_charge : MotionDetector → Option MotionCmd
check_charge md =
    let before = get_elem? md.dir_history ((md.head + 30 - 2) % 30) >>= λ x.
    some (if x == 6 then mc_charge_f else mc_none) in
    if md.charge_left_frames == 0 then before else some mc_none

unfoldable pub motion_detector_check : MotionDetector → Option MotionCmd
motion_detector_check md = do
  qcf ← find_sequence md (6 ∷ 3 ∷ 2 ∷ []) 12
  dp ← find_sequence md (3 ∷ 2 ∷ 6 ∷ []) 15
  qcb ← find_sequence md (4 ∷ 1 ∷ 2 ∷ []) 12
  rdp ← find_sequence md (1 ∷ 2 ∷ 4 ∷ []) 15
  charge ← check_charge md
  some (
      if qcf
      then mc_qcf
      else if dp
      then mc_dp
      else if qcb
      then mc_qcb
      else if rdp
      then mc_rdp
      else charge)

-- the left and right bits swapped
abbrev pub mirrored : ℕ → ℕ
mirrored input = input % 2 ^ 2 + input / 2 ^ 2 % 2 * 2 ^ 3 + input / 2 ^ 3 % 2 * 2 ^ 2

bits-mirrored :
    (i : ℕ)
    → (bit_set (mirrored i) 0 ≡ bit_set i 0)
      × (bit_set (mirrored i) 1 ≡ bit_set i 1)
      × (bit_set (mirrored i) 2 ≡ bit_set i 3)
      × (bit_set (mirrored i) 3 ≡ bit_set i 2)
bits-mirrored i = (
  ap (λ n. n == 1) (omega arith),
  ap (λ n. n == 1) (omega arith),
  ap (λ n. n == 1) (omega arith),
  ap (λ n. n == 1) (omega arith),
)

-- A fighter that looks to the left reads an input as one that looks to the right reads its mirror
-- image.
pub input_to_numpad-mirrored :
    (input : ℕ) (facing : ℤ)
    → ltb_ℤ (pos 0) facing ≡ false
    → input_to_numpad input facing ≡ input_to_numpad (mirrored input) (pos 1)
unfolding input_to_numpad
input_to_numpad-mirrored input facing h =
    let (b0, b1, b2, b3) = bits-mirrored input in rw (h, b0, b1, b2, b3) refl
