-- ===== src/Gameplay/Data.antt =====
-- gameplay/fighter_data.c: the hardcoded move table.
use Prim.Native.String.{String}
use fury_clash.Prelude.{
  ℕ, ℤ, pos, negsuc, leb_ℤ, List, [], ◌∷◌, Option, none, get_elem?, if◌then◌else◌,
}
use fury_clash.Floats.{Floats, whole, minus}
use fury_clash.Gameplay.Types.{Rect, HitProperties}

pub record MoveData (F : Type 0) : Type 0 where
  pub move_id : String
  pub total_frames : ℕ
  pub startup : ℕ
  pub active : ℕ
  pub recovery : ℕ
  pub hit : HitProperties F
  pub hitbox : Rect F

pub record FighterData (F : Type 0) : Type 0 where
  pub name : String
  pub walk_speed : ℤ
  pub back_walk_speed : ℤ
  pub jump_vy : F
  pub jump_vx : F
  pub moves : List (MoveData F)
  pub move_count : ℕ

module _ (fl : Floats) where
  open fl use {Float, lit}

  -- the initialiser of a `HitProperties`
  abbrev pub hit_properties : ℕ → ℕ → ℕ → ℕ → Float → Float → HitProperties Float
  hit_properties d c hs bs kx ky = record {
    damage = pos d;
    chip_damage = pos c;
    hitstun = pos hs;
    blockstun = pos bs;
    knockback_x = kx;
    knockback_y = ky;
    launches = pos 0;
  }

  abbrev pub rect : ℕ → ℕ → ℕ → ℕ → Rect Float
  rect x up w h = record { x = whole fl x; y = minus fl up; w = whole fl w; h = whole fl h }

  abbrev pub move_data : String → ℕ → ℕ → ℕ → ℕ → HitProperties Float → Rect Float → MoveData Float
  move_data id total start act rec h box = record {
    move_id = id;
    total_frames = total;
    startup = start;
    active = act;
    recovery = rec;
    hit = h;
    hitbox = box;
  }

  abbrev zero_f : Float
  zero_f = lit (pos 0) 1

  unfoldable pub ryu_moves : List (MoveData Float)
  ryu_moves =
      move_data "stand_LP" 16 4 3 9 (hit_properties 40 8 2 12 (lit (pos 5) 1) zero_f)
        (rect 10 80 50 20)
      ∷ move_data "stand_HP" 28 8 4 16 (hit_properties 80 8 4 18 (lit (pos 35) 1) zero_f)
          (rect 20 100 60 30)
      ∷ move_data "qcf_LP" 35 12 8 15
          (hit_properties 100 10 6 20 (lit (pos 40) 1) (lit (negsuc 19) 1)) (rect 30 90 80 30)
      ∷ move_data "jump_LP" 22 6 6 10 (hit_properties 50 8 3 12 (lit (pos 15) 1) zero_f)
          (rect 5 80 60 50)
      ∷ move_data "jump_HP" 32 9 5 18 (hit_properties 90 10 4 18 (lit (pos 35) 1) zero_f)
          (rect 10 90 65 60)
      ∷ []

  unfoldable pub fighters : List (FighterData Float)
  fighters =
      record {
        name = "ryu";
        walk_speed = pos 200;
        back_walk_speed = pos 160;
        jump_vy = minus fl 900;
        jump_vx = whole fl 180;
        moves = ryu_moves;
        move_count = 5;
      }
      ∷ record {
        name = "ken";
        walk_speed = pos 220;
        back_walk_speed = pos 170;
        jump_vy = minus fl 920;
        jump_vx = whole fl 200;
        moves = ryu_moves;
        move_count = 5;
      }
      ∷ []

  -- `none` is NULL.
  unfoldable pub fighter_data_get : ℤ → Option (FighterData Float)
  unfolding fighters
  fighter_data_get (pos n) = if leb_ℤ (pos 2) (pos n) then none else get_elem? fighters n
  fighter_data_get (negsuc n) = none
