-- ===== src/Gameplay/Fighter/Sound.antt =====
-- The invariant of one fighter, through the pieces of gameplay/fighter.c and gameplay/physics.c.
use fury_clash.Prelude.{
  ℕ, ◌≤◌, ◌≡◌, refl, ◌⊎◌, inl, inr, ℤ, pos, negsuc, ◌≤ℤ◌, -ℤ_parts, Bool, true, false, ltb_ℤ,
  length, length-set, Option, none, some, get_elem?, All, List, [], ◌∷◌, suc, zero, Option-cases,
  if_ind, arith,
}
use mathlib.Core.Path.{subst}
use mathlib.Core.Option.{some-injective}
use fury_clash.Floats.{Floats}
use fury_clash.Gameplay.Types.{
  Fighter, FighterState, is_attack, HitProperties, crouch, attack, block, knockdown, wakeup,
  state_count,
}
use fury_clash.Gameplay.Data.{MoveData, FighterData, fighter_data_get, ryu_moves, fighters}
use fury_clash.Gameplay.Physics.{physics_apply_gravity, land, physics_move, physics_clamp_to_stage}
use fury_clash.Gameplay.Fighter.{
  fighter_init, update_facing, cancel_air_attack, run_attack, attack_window, finish_tick,
  ground_move, jump_punch, is_airborne, act, move_body, fighter_tick, fighter_apply_hit,
}

-- the states that some input leads to
abbrev pub is_reached : FighterState → Bool
is_reached crouch = false
is_reached block = false
is_reached knockdown = false
is_reached wakeup = false
is_reached state_count = false
is_reached _ = true

pub record IsSound {F : Type 0} (f : Fighter F) : Type 0 where
  pub alive : pos 0 ≤ℤ f.health
  pub capped : f.health ≤ℤ f.max_health
  pub boxes : length f.hitboxes ≡ 4
  pub active : f.hitbox_count ≤ 1
  pub move : f.move_id ≤ 4
  pub faces : (f.facing ≡ pos 1) ⊎ (f.facing ≡ negsuc 0)
  pub reached : is_reached f.state ≡ true
  pub unblocked : f.blockstun ≡ pos 0
  pub hurts : pos 0 ≤ℤ f.hit_props.damage
  pub chips : pos 0 ≤ℤ f.hit_props.chip_damage
  pub scaled : pos 0 ≤ℤ f.damage_pct
  pub aerial : f.state ≡ attack → 3 ≤ f.move_id

module _ (fl : Floats) where
  open fl use {Float}

  abbrev Harmless : MoveData Float → Type 0
  Harmless mv = (pos 0 ≤ℤ mv.hit.damage) × (pos 0 ≤ℤ mv.hit.chip_damage)

  abbrev IsTable : FighterData Float → Type 0
  IsTable fd = All Harmless fd.moves

  get_elem?-Harmless :
      (ms : List (MoveData Float)) (i : ℕ) {mv : MoveData Float}
      → All Harmless ms
      → get_elem? ms i ≡ some mv
      → Harmless mv
  get_elem?-Harmless [] i h e = cc
  get_elem?-Harmless (m ∷ ms) zero h e = ground arith
  get_elem?-Harmless (m ∷ ms) (suc i) h e = get_elem?-Harmless ms i h.1 e

  fighter_data_get-IsTable :
      (id : ℤ) (fd : FighterData Float) → fighter_data_get fl id ≡ some fd → IsTable fd
  unfolding fighter_data_get fighters ryu_moves
  fighter_data_get-IsTable (pos zero) fd e =
      subst (λ d. IsTable d) (some-injective _ _ e) (omega arith)
  fighter_data_get-IsTable (pos (suc zero)) fd e =
      subst (λ d. IsTable d) (some-injective _ _ e) (omega arith)
  fighter_data_get-IsTable (pos (suc (suc n))) fd e = ground arith
  fighter_data_get-IsTable (negsuc n) fd e = cc

  update_facing-IsSound : (f o : Fighter Float) → IsSound f → IsSound (update_facing fl f o)
  unfolding update_facing
  update_facing-IsSound f o v = ground arith

  gravity-IsSound : (f : Fighter Float) → IsSound f → IsSound (physics_apply_gravity fl f)
  unfolding physics_apply_gravity
  gravity-IsSound f v = ground arith

  move-IsSound : (f : Fighter Float) → IsSound f → IsSound (physics_move fl f)
  unfolding physics_move land
  move-IsSound f v = ground arith

  clamp-IsSound : (f : Fighter Float) → IsSound f → IsSound (physics_clamp_to_stage fl f)
  unfolding physics_clamp_to_stage
  clamp-IsSound f v = ground arith

  cancel-IsSound :
      (air : Bool) (f : Fighter Float) → IsSound f → IsSound (cancel_air_attack fl air f)
  unfolding cancel_air_attack
  cancel-IsSound air f v = ground arith

  ground_move-IsSound : (i : ℕ) (f : Fighter Float) → IsSound f → IsSound (ground_move fl i f)
  unfolding ground_move
  ground_move-IsSound i f v = ground arith

  jump_punch-IsSound :
      (air : Bool) (just : ℕ) (f : Fighter Float) → IsSound f → IsSound (jump_punch fl air just f)
  unfolding jump_punch
  jump_punch-IsSound air just f v = ground arith

  attack_window-IsSound :
      (air : Bool) (f : Fighter Float) (mv : MoveData Float)
      → pos 0 ≤ℤ mv.hit.damage
      → pos 0 ≤ℤ mv.hit.chip_damage
      → IsSound f
      → IsSound (attack_window fl air f mv)
  unfolding attack_window
  attack_window-IsSound air f mv d c v = ground (arith, length-set f.hitboxes 0 mv.hitbox)

  run_attack-IsSound :
      (air : Bool) (f : Fighter Float) (o : Option (FighterData Float))
      → ((fd : FighterData Float) → o ≡ some fd → IsTable fd)
      → IsSound f
      → IsSound (run_attack fl air f o)
  unfolding run_attack
  run_attack-IsSound air f none t v = v
  run_attack-IsSound air f (some fd) t v = elim (Option-cases (get_elem? fd.moves f.move_id)) [
    | inl e ↦ rw (e, run_attack) (ground arith)
    | inr (mv, e) ↦
        let h = get_elem?-Harmless fd.moves f.move_id (t fd refl) e in
        rw (e, run_attack) (ground (arith, attack_window-IsSound air f mv h.0 h.1 v))
  ]

  finish_tick-IsSound : (i : ℕ) (f : Fighter Float) → IsSound f → IsSound (finish_tick fl i f)
  unfolding finish_tick
  finish_tick-IsSound i f v = ground arith

  act-IsSound : (i : ℕ) (f : Fighter Float) → IsSound f → IsSound (act fl i f)
  unfolding act
  act-IsSound i f v =
      let air = is_airborne fl f in
      let g = cancel_air_attack fl air f in
      let vg = cancel-IsSound air f v in
      if_ind IsSound (is_attack g.state)
        (λ _. finish_tick-IsSound i _ (
          run_attack-IsSound air g (fighter_data_get fl g.fighter_id)
            (λ fd e. fighter_data_get-IsTable g.fighter_id fd e) vg))
        (λ _. finish_tick-IsSound i _ (jump_punch-IsSound air _ _ (ground_move-IsSound i g vg)))

  move_body-IsSound : (f : Fighter Float) → IsSound f → IsSound (move_body fl f)
  unfolding move_body
  move_body-IsSound f v = clamp-IsSound _ (move-IsSound _ (gravity-IsSound f v))

  -- One tick of a fighter keeps its invariant, whatever the input and the opponent.
  pub fighter_tick-IsSound :
      (f : Fighter Float) (i : ℕ) (o : Fighter Float) → IsSound f → IsSound (fighter_tick fl f i o)
  unfolding fighter_tick
  fighter_tick-IsSound f i o v =
      if_ind IsSound (ltb_ℤ (pos 0) f.hitstun) (λ _. ground arith)
        (λ _.
          if_ind IsSound (ltb_ℤ (pos 0) f.blockstun) (λ h. ground arith)
            (λ _. act-IsSound i _ (move_body-IsSound _ (update_facing-IsSound f o v))))

  pub fighter_init-IsSound : (id slot : ℤ) → IsSound (fighter_init fl id slot)
  unfolding fighter_init
  fighter_init-IsSound id slot = ground arith

  pub apply_hit-IsSound :
      (f : Fighter Float) (hp : HitProperties Float)
      → pos 0 ≤ℤ hp.damage
      → IsSound f
      → IsSound (fighter_apply_hit fl f hp false)
  unfolding fighter_apply_hit
  apply_hit-IsSound f hp d v = ground (arith, -ℤ_parts f.health hp.damage)
