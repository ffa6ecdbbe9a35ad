-- ===== src/Dodge/Screen.antt =====
-- What the prototype's loop keeps of the player and of the best score.
use mathlib.Core.Bool.{true≢false}
use mathlib.Core.Path.{subst}
use fury_clash.Prelude.{
  ℕ, zero, suc, ◌%◌, ◌≡◌, refl, sym, ◌∙◌, ◌==◌, pos, Bool, true, false, not, List, [], ◌∷◌, if_ind,
  if◌then◌else◌, ◌+◌,
}
use fury_clash.Floats.{Floats, whole}
use fury_clash.Dodge.{
  Random, Rock, Game, Run, particle_free, spawn_particle, explode, spawn_explosion, spawn_trail,
  rock_free, spawn_rock, game_reset,
}
use fury_clash.Dodge.Update.{
  DodgeKey, up, down, left, right, space, DodgeEvent, pressed, released, closed, move_player,
  leave_trail, ramp, spawn_rocks, move_rock, hits, crash, update_rock, update_rocks, update_alive,
  game_update, set_key, restart, dodge_event,
}

-- What the clamp, the start and the best score rely on: no value is below itself (a NaN neither),
-- the edges 16, 584 and 784 are in their order, and the middle of the screen at three quarters of
-- its height lies between them.
pub record IsMetric (fl : Floats) : Type 0 where
  pub irreflexive : (x : fl.Float) → fl.flt x x ≡ false
  pub wide : fl.flt (fl.of_int (pos 784)) (fl.of_int (pos 16)) ≡ false
  pub high : fl.flt (fl.of_int (pos 584)) (fl.of_int (pos 16)) ≡ false
  pub middle :
      let x = fl.div (fl.of_int (pos 800)) (whole fl 2) in
      (fl.flt x (fl.of_int (pos 16)) ≡ false) × (fl.flt (fl.of_int (pos 784)) x ≡ false)
  pub low_start :
      let y = fl.mul (fl.of_int (pos 600)) (fl.lit (pos 75) 2) in
      (fl.flt y (fl.of_int (pos 16)) ≡ false) × (fl.flt (fl.of_int (pos 584)) y ≡ false)

module _ (fl : Floats) (rng : Random) where
  open fl use {Float, of_int, add, mul, flt, fle}
  open rng use {Seed, rand}

  abbrev R : Type 0
  R = Run fl rng

  -- neither below 16 nor above the limit
  abbrev pub IsBetween : ℕ → Float → Type 0
  IsBetween limit v = (flt v (of_int (pos 16)) ≡ false) × (flt (of_int (pos limit)) v ≡ false)

  abbrev pub IsOnScreen : Game Float → Type 0
  IsOnScreen g = IsBetween 784 g.px × IsBetween 584 g.py

  -- the player is on the screen, and once it has crashed the best score is not below the score
  pub record IsKept (g : Game Float) : Type 0 where
    pub placed : IsOnScreen g
    pub scored : g.alive ≡ false → flt g.high_score g.score ≡ false

  -- what the spawning of rocks and particles leaves
  abbrev Same : R → R → Type 0
  Same run run' =
      ((run'.0).px ≡ (run.0).px)
      × ((run'.0).py ≡ (run.0).py)
      × ((run'.0).alive ≡ (run.0).alive)
      × ((run'.0).score ≡ (run.0).score)
      × ((run'.0).high_score ≡ (run.0).high_score)

  unchanged : (a b : R) → Same a b → IsOnScreen a.0 → IsOnScreen b.0
  unchanged a b (x, y, l, p, h) (across, along) =
      (subst (IsBetween 784) (sym x) across, subst (IsBetween 584) (sym y) along)

  Same-trans : (a b c : R) → Same a b → Same b c → Same a c
  Same-trans a b c (x, y, l, p, h) (x', y', l', p', h') = (x' ∙ x, y' ∙ y, l' ∙ l, p' ∙ p, h' ∙ h)

  particle-Same :
      (x y : Float) (r g b : ℕ) (run : R) → Same run (spawn_particle fl rng x y r g b run)
  unfolding spawn_particle
  particle-Same x y r g b (game, s) =
      if_ind (Same (game, s)) (particle_free game.particles) (λ _. (refl, refl, refl, refl, refl))
        (λ _. (refl, refl, refl, refl, refl))

  explode-Same : (n : ℕ) (x y : Float) (run : R) → Same run (explode fl rng n x y run)
  unfolding explode
  explode-Same zero x y run = (refl, refl, refl, refl, refl)
  explode-Same (suc n) x y (game, s) =
      let (n1, s1) = rand s in
      let (n2, s2) = rand s1 in
      let (n3, s3) = rand s2 in
      let r = (200 + n1 % 56) % 256 in
      let g = (80 + n2 % 120) % 256 in
      let b = (20 + n3 % 60) % 256 in
      let mid = spawn_particle fl rng x y r g b (game, s3) in
      Same-trans (game, s) mid (explode fl rng n x y mid) (particle-Same x y r g b (game, s3))
        (explode-Same n x y mid)

  rock-Same : (run : R) → Same run (spawn_rock fl rng run)
  unfolding spawn_rock
  rock-Same (game, s) =
      if_ind (Same (game, s)) (rock_free game.rocks) (λ _. (refl, refl, refl, refl, refl))
        (λ _. (refl, refl, refl, refl, refl))

  trail-Same : (run : R) → Same run (leave_trail fl rng run)
  unfolding leave_trail spawn_trail
  trail-Same (g, s) =
      if_ind (Same (g, s)) (((rand s).0 % 3) == 0) (λ _. particle-Same _ _ _ _ _ (g, _))
        (λ _. (refl, refl, refl, refl, refl))

  rocks-Same : (run : R) → Same run (spawn_rocks fl rng run)
  unfolding spawn_rocks
  rocks-Same (g, s) =
      if_ind (Same (g, s)) (fle g.spawn_timer (whole fl 0)) (λ _. rock-Same (g, s))
        (λ _. (refl, refl, refl, refl, refl))

  module _ (metric : IsMetric fl) where
    open metric use {irreflexive, wide, high, middle, low_start}

    clamped :
        (low top v : Float)
        → flt top low ≡ false
        → let w = if flt v low then low else v in
          let u = if flt top w then top else w in (flt u low ≡ false) × (flt top u ≡ false)
    clamped low top v order =
        let w = if flt v low then low else v in
        let above : flt w low ≡ false =
          if_ind (λ (x : Float). flt x low ≡ false) (flt v low) (λ _. irreflexive low) (λ e. e) in
        if_ind (λ (u : Float). (flt u low ≡ false) × (flt top u ≡ false)) (flt top w)
          (λ _. (order, irreflexive top)) (λ e. (above, e))

    player-IsOnScreen : (dt : Float) (g : Game Float) → IsOnScreen (move_player fl rng dt g)
    unfolding move_player
    player-IsOnScreen dt g = (clamped _ _ _ wide, clamped _ _ _ high)

    crash-IsKept : (g : Game Float) (s : Seed) → IsOnScreen g → IsKept (crash fl rng (g, s)).0
    unfolding crash spawn_explosion
    crash-IsKept g s on =
        let dead : Game Float = record g { alive = false } in
        let burst = explode fl rng 40 g.px g.py (dead, s) in
        let still = unchanged (dead, s) burst (explode-Same 40 g.px g.py (dead, s)) on in
        if_ind IsKept (flt (burst.0).high_score (burst.0).score)
          (λ _. record { placed = still; scored = λ _. irreflexive (burst.0).score })
          (λ e. record { placed = still; scored = λ _. e })

    update_rock-IsKept :
        (dt : Float) (r : Rock Float) (run : R)
        → IsKept run.0
        → IsKept ((update_rock fl rng dt r run).1).0
    unfolding update_rock
    update_rock-IsKept dt r (g, s) k =
        let P = λ (x : Rock Float × R). IsKept (x.1).0 in
        let moved = move_rock fl rng dt r in
        if_ind P (not r.active) (λ _. k)
          (λ _.
            if_ind P (flt (of_int (pos 680)) moved.y) (λ _. k)
              (λ _. if_ind P (hits fl rng moved g) (λ _. crash-IsKept g s k.placed) (λ _. k)))

    update_rocks-IsKept :
        (dt : Float) (rs : List (Rock Float)) (run : R)
        → IsKept run.0
        → IsKept ((update_rocks fl rng dt rs run).1).0
    unfolding update_rocks
    update_rocks-IsKept dt [] run k = k
    update_rocks-IsKept dt (r ∷ rs) run k =
        update_rocks-IsKept dt rs (update_rock fl rng dt r run).1 (update_rock-IsKept dt r run k)

    alive-IsKept :
        (dt : Float) (g : Game Float) (s : Seed)
        → g.alive ≡ true
        → IsKept (update_alive fl rng dt (g, s)).0
    unfolding update_alive ramp move_player
    alive-IsKept dt g s living =
        let moved = move_player fl rng dt g in
        let trailed = leave_trail fl rng (moved, s) in
        let t = trail-Same (moved, s) in
        let grown : R = (ramp fl rng dt trailed.0, trailed.1) in
        let more = spawn_rocks fl rng grown in
        let m = rocks-Same grown in
        let on = unchanged grown more m (unchanged (moved, s) trailed t (player-IsOnScreen dt g)) in
        let still : (more.0).alive ≡ true = m.2 ∙ t.2 ∙ living in
        let k : IsKept more.0 = record {
          placed = on;
          scored = λ dead. absurd (true≢false (sym still ∙ dead));
        } in
        let r = update_rocks-IsKept dt (more.0).rocks more k in
        record { placed = r.placed; scored = r.scored }

    update-IsKept : (dt : Float) (run : R) → IsKept run.0 → IsKept (game_update fl rng dt run).0
    unfolding game_update
    update-IsKept dt (g, s) k =
        if_ind (λ (x : R). IsKept x.0) g.alive (λ living. alive-IsKept dt _ _ living)
          (λ _. record { placed = k.placed; scored = k.scored })

    reset-IsKept : (run : R) → IsKept (game_reset fl rng run).0
    unfolding game_reset
    reset-IsKept (g, s) = record {
      placed = (middle, low_start);
      scored = λ dead. absurd (true≢false dead);
    }

    set_key-IsKept :
        (key : DodgeKey) (v : Bool) (g : Game Float) → IsKept g → IsKept (set_key fl rng key v g)
    set_key-IsKept up v g k = record { placed = k.placed; scored = k.scored }
    set_key-IsKept down v g k = record { placed = k.placed; scored = k.scored }
    set_key-IsKept left v g k = record { placed = k.placed; scored = k.scored }
    set_key-IsKept right v g k = record { placed = k.placed; scored = k.scored }
    set_key-IsKept key v g k = k

    restart-IsKept : (key : DodgeKey) (run : R) → IsKept run.0 → IsKept (restart fl rng key run).0
    restart-IsKept space (g, s) k =
        if_ind (λ (x : R). IsKept x.0) g.alive (λ _. k) (λ _. reset-IsKept (g, s))
    restart-IsKept key run k = k

    event-IsKept : (ev : DodgeEvent) (run : R) → IsKept run.0 → IsKept (dodge_event fl rng ev run).0
    unfolding dodge_event
    event-IsKept (pressed key) (g, s) k =
        restart-IsKept key (set_key fl rng key true g, s) (set_key-IsKept key true g k)
    event-IsKept (released key) (g, s) k = set_key-IsKept key false g k
    event-IsKept closed run k = k

  -- a game from its first reset on
  pub data Played : R → Type 0 where
    reset : (run : R) → Played (game_reset fl rng run)
    update : {run : R} (dt : Float) → Played run → Played (game_update fl rng dt run)
    input : {run : R} (ev : DodgeEvent) → Played run → Played (dodge_event fl rng ev run)

  -- Where no value is below itself and the constants of the screen are in their order: however long
  -- the prototype is played, on any events, random numbers and frame times, the player is neither
  -- left of 16, right of 784, above 16 nor below 584, and after a crash the best score is not below
  -- the score.
  pub Played-IsKept : (run : R) → IsMetric fl → Played run → IsKept run.0
  Played-IsKept _ metric (reset run) = reset-IsKept metric run
  Played-IsKept _ metric (update {run = run} dt p) =
      update-IsKept metric dt run (Played-IsKept run metric p)
  Played-IsKept _ metric (input {run = run} ev p) =
      event-IsKept metric ev run (Played-IsKept run metric p)
