-- ===== src/Dodge/Update.antt =====
-- `game_update` and the events of the prototype's main.c. A key or an event that ends the program
-- changes nothing of the game.
use fury_clash.Prelude.{
  ℕ, ◌-◌, ◌%◌, ◌==◌, pos, Bool, true, false, not, ◌&&◌, List, [], ◌∷◌, if◌then◌else◌,
}
use fury_clash.Floats.{Floats, whole, minus}
use fury_clash.Dodge.{
  Random, Star, Rock, Particle, Game, Run, screen_w, screen_h, player_size, randf, spawn_trail,
  spawn_explosion, spawn_rock, game_reset,
}

pub data DodgeKey : Type 0 where
  up down left right space leave other_key : DodgeKey

pub data DodgeEvent : Type 0 where
  pressed released : DodgeKey → DodgeEvent
  closed : DodgeEvent

module _ (fl : Floats) (rng : Random) where
  open fl use {Float, lit, of_int, add, sub, mul, div, sqrt, flt, fle}
  open rng use {Seed, rand}

  abbrev R : Type 0
  R = Run fl rng

  -- a star that has left the screen comes in again at the top
  unfoldable pub move_star : Float → Star Float → Seed → Star Float × Seed
  move_star dt star s =
      let y = add star.y (mul star.speed dt) in
      let (x, s') = randf fl rng (whole fl 0) (whole fl screen_w) s in
      if flt (of_int (pos screen_h)) y
      then (record star { y = whole fl 0; x = x }, s')
      else (record star { y = y }, s)

  unfoldable pub move_stars : Float → List (Star Float) → Seed → List (Star Float) × Seed
  move_stars dt [] s = ([], s)
  move_stars dt (star ∷ stars) s =
      let (star', s1) = move_star dt star s in
      let (stars', s2) = move_stars dt stars s1 in (star' ∷ stars', s2)

  unfoldable pub move_particle : Float → Particle Float → Particle Float
  move_particle dt p =
      let life = sub p.life dt in
      if p.active
      then record p {
        x = add p.x (mul p.vx dt);
        y = add p.y (mul p.vy dt);
        life = life;
        active = not (fle life (whole fl 0));
      }
      else p

  abbrev pub move_particles : Float → List (Particle Float) → List (Particle Float)
  move_particles dt [] = []
  move_particles dt (p ∷ ps) = move_particle dt p ∷ move_particles dt ps

  -- `if (less) a -= accel; if (more) a += accel;` from 0
  abbrev pub pull : Bool → Bool → Float
  pull less more =
      let accel = whole fl 800 in
      let a = if less then sub (whole fl 0) accel else whole fl 0 in if more then add a accel else a

  -- the new speed along one axis, before it is limited
  abbrev pub drive : Float → Float → Float → Float
  drive v a dt = let w = add v (mul a dt) in sub w (mul (mul w (whole fl 5)) dt)

  -- `v *= max_speed / spd` above the limit
  abbrev pub limit : Float → Float → Float
  limit spd v = if flt (whole fl 320) spd then mul v (div (whole fl 320) spd) else v

  -- between PLAYER_SIZE and the far edge less PLAYER_SIZE
  abbrev pub keep_on : ℕ → Float → Float
  keep_on edge v =
      let low = of_int (pos player_size) in
      let high = of_int (pos (edge - player_size)) in
      let w = if flt v low then low else v in if flt high w then high else w

  unfoldable pub move_player : Float → Game Float → Game Float
  move_player dt g =
      let vx = drive g.pvx (pull g.key_left g.key_right) dt in
      let vy = drive g.pvy (pull g.key_up g.key_down) dt in
      let spd = sqrt (add (mul vx vx) (mul vy vy)) in
      let vx' = limit spd vx in
      let vy' = limit spd vy in
      record g {
        pvx = vx';
        pvy = vy';
        px = keep_on screen_w (add g.px (mul vx' dt));
        py = keep_on screen_h (add g.py (mul vy' dt));
      }

  -- the engine's trail, in one frame of three
  unfoldable pub leave_trail : R → R
  leave_trail (g, s) =
      let (n, s1) = rand s in
      let (off, s2) = randf fl rng (minus fl 4) (whole fl 4) s1 in
      let trailed =
        spawn_trail fl rng (add g.px off) (add g.py (of_int (pos player_size))) (g, s2) in
      if (n % 3) == 0 then trailed else (g, s1)

  unfoldable pub ramp : Float → Game Float → Game Float
  ramp dt g =
      let difficulty = add g.difficulty (mul (lit (pos 4) 2) dt) in
      record g {
        difficulty = difficulty;
        score = add g.score (mul (mul (whole fl 100) dt) difficulty);
        spawn_timer = sub g.spawn_timer dt;
      }

  unfoldable pub spawn_rocks : R → R
  spawn_rocks (g, s) =
      let (g1, s1) = spawn_rock fl rng (g, s) in
      let (wait, s2) = randf fl rng (lit (pos 3) 1) (lit (pos 12) 1) s1 in
      if fle g.spawn_timer (whole fl 0)
      then (record g1 { spawn_timer = div wait g1.difficulty }, s2)
      else (g, s)

  -- a rock that is active, one step on
  unfoldable pub move_rock : Float → Rock Float → Rock Float
  move_rock dt r =
      let dy = sub (of_int (pos 680)) r.y in
      let dx = whole fl 0 in
      let len = sqrt (add (mul dx dx) (mul dy dy)) in
      let ux = if flt (whole fl 0) len then div dx len else dx in
      let uy = if flt (whole fl 0) len then div dy len else dy in
      record r {
        x = add r.x (mul (mul ux r.speed) dt);
        y = add r.y (mul (mul uy r.speed) dt);
        angle = add r.angle (mul r.rot_speed dt);
      }

  -- the boxes of the player and of a rock overlap
  unfoldable pub hits : Rock Float → Game Float → Bool
  hits r g =
      let half_w = mul r.w (lit (pos 45) 2) in
      let half_h = mul r.h (lit (pos 45) 2) in
      let reach = mul (of_int (pos player_size)) (lit (pos 7) 1) in
      flt (sub g.px reach) (add r.x half_w)
      && (flt (sub r.x half_w) (add g.px reach)
          && (flt (sub g.py reach) (add r.y half_h) && flt (sub r.y half_h) (add g.py reach)))

  unfoldable pub crash : R → R
  crash (g, s) =
      let (g1, s1) = spawn_explosion fl rng g.px g.py (record g { alive = false }, s) in
      ((if flt g1.high_score g1.score then record g1 { high_score = g1.score } else g1), s1)

  -- one rock, with the game that it may end
  unfoldable pub update_rock : Float → Rock Float → R → Rock Float × R
  update_rock dt r (g, s) =
      let moved = move_rock dt r in
      let crashed = crash (g, s) in
      if not r.active
      then (r, (g, s))
      else if flt (of_int (pos 680)) moved.y
      then (record moved { active = false }, (g, s))
      else if hits moved g
      then (moved, crashed)
      else (moved, (g, s))

  unfoldable pub update_rocks : Float → List (Rock Float) → R → List (Rock Float) × R
  update_rocks dt [] run = ([], run)
  update_rocks dt (r ∷ rs) run =
      let (r', run1) = update_rock dt r run in
      let (rs', run2) = update_rocks dt rs run1 in (r' ∷ rs', run2)

  -- from the player's movement on
  unfoldable pub update_alive : Float → R → R
  update_alive dt (g, s) =
      let (g1, s1) = leave_trail (move_player dt g, s) in
      let (g2, s2) = spawn_rocks (ramp dt g1, s1) in
      let (rocks, run) = update_rocks dt g2.rocks (g2, s2) in
      (record (run.0) { rocks = rocks }, run.1)

  unfoldable pub game_update : Float → R → R
  game_update dt (g, s) =
      let (stars, s') = move_stars dt g.stars s in
      let drifted = record g { stars = stars; particles = move_particles dt g.particles } in
      let played = update_alive dt (drifted, s') in if g.alive then played else (drifted, s')

  abbrev pub set_key : DodgeKey → Bool → Game Float → Game Float
  set_key up v g = record g { key_up = v }
  set_key down v g = record g { key_down = v }
  set_key left v g = record g { key_left = v }
  set_key right v g = record g { key_right = v }
  set_key _ v g = g

  -- the space key starts again after a crash
  abbrev pub restart : DodgeKey → R → R
  restart space (g, s) = let again = game_reset fl rng (g, s) in if g.alive then (g, s) else again
  restart _ run = run

  unfoldable pub dodge_event : DodgeEvent → R → R
  dodge_event (pressed key) (g, s) = restart key (set_key key true g, s)
  dodge_event (released key) (g, s) = (set_key key false g, s)
  dodge_event closed run = run
