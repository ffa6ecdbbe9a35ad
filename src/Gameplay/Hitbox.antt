-- ===== src/Gameplay/Hitbox.antt =====
-- gameplay/hitbox.c
use fury_clash.Prelude.{
  ◌*ℤ◌, quot_ℤ, ◌==◌, Bool, true, false, ◌&&◌, List, [], ◌∷◌, take, if◌then◌else◌,
}
use fury_clash.Floats.{Floats}
use fury_clash.Gameplay.Types.{Rect, HitProperties, Fighter, is_guard}
use fury_clash.Gameplay.Fighter.{fighter_apply_hit}

module _ (fl : Floats) where
  open fl use {Float, of_int, add, mul, flt}

  unfoldable pub rects_overlap :
      Float → Float → Float → Float → Float → Float → Float → Float → Bool
  rects_overlap ax ay aw ah bx by bw bh =
      flt ax (add bx bw) && flt bx (add ax aw) && flt ay (add by bh) && flt by (add ay ah)

  -- the hitbox in world space, mirrored with the facing, against the hurtbox
  unfoldable pub box_hits : Fighter Float → Fighter Float → Rect Float → Bool
  unfolding rects_overlap
  box_hits attacker defender hb =
      rects_overlap (add attacker.x (mul hb.x (of_int attacker.facing))) (add attacker.y hb.y) hb.w
        hb.h (add defender.x defender.hurtbox.x) (add defender.y defender.hurtbox.y)
        defender.hurtbox.w defender.hurtbox.h

  unfoldable pub any_box_hits : Fighter Float → Fighter Float → List (Rect Float) → Bool
  unfolding box_hits
  any_box_hits attacker defender [] = false
  any_box_hits attacker defender (hb ∷ rest) =
      let later = any_box_hits attacker defender rest in
      if box_hits attacker defender hb then true else later

  -- The loop over the first `hitbox_count` boxes; the array has four.
  unfoldable pub hitbox_check : Fighter Float → Fighter Float → Bool
  unfolding any_box_hits
  hitbox_check attacker defender =
      if attacker.hitbox_count == 0
      then false
      else any_box_hits attacker defender (take attacker.hitbox_count attacker.hitboxes)

  -- the damage scaled by the attacker's loadout
  unfoldable pub scale_hit : Fighter Float → HitProperties Float
  scale_hit attacker =
      let hp = attacker.hit_props in
      record hp {
        damage = quot_ℤ (hp.damage *ℤ attacker.damage_pct) 100;
        chip_damage = quot_ℤ (hp.chip_damage *ℤ attacker.damage_pct) 100;
      }

  -- the attacker and the defender after the hit
  unfoldable pub hitbox_resolve : Fighter Float → Fighter Float → Fighter Float × Fighter Float
  hitbox_resolve attacker defender = (
    record attacker { hitbox_count = 0 },
    fighter_apply_hit fl defender (scale_hit attacker) (is_guard defender.state),
  )
