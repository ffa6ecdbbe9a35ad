-- ===== src/Dodge.antt =====
-- The prototype Neon Dodge, main.c at the root of the repository: its state and what it spawns. The
-- C library's `rand` is a parameter; C leaves open in which order the arguments of a call draw from
-- it, and here they draw from left to right.
pub mod Update
pub mod Screen
use fury_clash.Prelude.{
  ℕ, zero, suc, ◌+◌, ◌-◌, ◌*◌, ◌%◌, ◌==◌, ℤ, pos, Bool, true, false, not, List, [], ◌∷◌, replicate,
  if◌then◌else◌,
}
use fury_clash.Floats.{Floats, whole, minus}

-- `rand` and RAND_MAX
pub record Random : Type 1 where
  pub Seed : Type 0
  pub rand : Seed → ℕ × Seed
  pub rand_max : ℕ

pub record Star (F : Type 0) : Type 0 where
  pub x : F
  pub y : F
  pub speed : F
  pub brightness : ℕ

pub record Rock (F : Type 0) : Type 0 where
  pub x : F
  pub y : F
  pub w : F
  pub h : F
  pub speed : F
  pub angle : F
  pub rot_speed : F
  pub active : Bool

pub record Particle (F : Type 0) : Type 0 where
  pub x : F
  pub y : F
  pub vx : F
  pub vy : F
  pub life : F
  pub r : ℕ
  pub g : ℕ
  pub b : ℕ
  pub active : Bool

pub record Game (F : Type 0) : Type 0 where
  pub px : F
  pub py : F
  pub pvx : F
  pub pvy : F
  pub alive : Bool
  pub stars : List (Star F)
  pub rocks : List (Rock F)
  pub particles : List (Particle F)
  pub difficulty : F
  pub score : F
  pub high_score : F
  pub spawn_timer : F
  pub key_up : Bool
  pub key_down : Bool
  pub key_left : Bool
  pub key_right : Bool

abbrev pub screen_w : ℕ
screen_w = 800

abbrev pub screen_h : ℕ
screen_h = 600

abbrev pub max_stars : ℕ
max_stars = 120

abbrev pub max_rocks : ℕ
max_rocks = 24

abbrev pub max_particles : ℕ
max_particles = 200

abbrev pub player_size : ℕ
player_size = 16

module _ {F : Type 0} where
  -- whether a slot is free, and the first free one filled
  abbrev pub particle_free : List (Particle F) → Bool
  particle_free [] = false
  particle_free (p ∷ ps) = if p.active then particle_free ps else true

  abbrev pub put_particle : Particle F → List (Particle F) → List (Particle F)
  put_particle new [] = []
  put_particle new (p ∷ ps) = if p.active then p ∷ put_particle new ps else new ∷ ps

  abbrev pub rock_free : List (Rock F) → Bool
  rock_free [] = false
  rock_free (r ∷ rs) = if r.active then rock_free rs else true

  abbrev pub put_rock : Rock F → List (Rock F) → List (Rock F)
  put_rock new [] = []
  put_rock new (r ∷ rs) = if r.active then r ∷ put_rock new rs else new ∷ rs

module _ (fl : Floats) (rng : Random) where
  open fl use {Float, lit, of_int, add, sub, mul, div}
  open rng use {Seed, rand, rand_max}

  -- the game and the state of `rand`
  abbrev pub Run : Type 0
  Run = Game Float × Seed

  unfoldable pub randf : Float → Float → Seed → Float × Seed
  randf lo hi s =
      let (n, s') = rand s in
      (add lo (mul (div (of_int (pos n)) (of_int (pos rand_max))) (sub hi lo)), s')

  unfoldable pub spawn_particle : Float → Float → ℕ → ℕ → ℕ → Run → Run
  spawn_particle x y r g b (game, s) =
      let (vx, s1) = randf (minus fl 120) (whole fl 120) s in
      let (vy, s2) = randf (minus fl 120) (whole fl 120) s1 in
      let (life, s3) = randf (lit (pos 3) 1) (lit (pos 9) 1) s2 in
      let new : Particle Float = record {
        x = x;
        y = y;
        vx = vx;
        vy = vy;
        life = life;
        r = r;
        g = g;
        b = b;
        active = true;
      } in
      if particle_free game.particles
      then (record game { particles = put_particle new game.particles }, s3)
      else (game, s)

  -- the loop of `spawn_explosion`, with `left` particles to go
  unfoldable pub explode : ℕ → Float → Float → Run → Run
  explode zero x y run = run
  explode (suc left) x y (game, s) =
      let (n1, s1) = rand s in
      let (n2, s2) = rand s1 in
      let (n3, s3) = rand s2 in
      explode left x y (
        spawn_particle x y ((200 + n1 % 56) % 256) ((80 + n2 % 120) % 256) ((20 + n3 % 60) % 256)
          (game, s3))

  unfoldable pub spawn_explosion : Float → Float → Run → Run
  spawn_explosion x y run = explode 40 x y run

  unfoldable pub spawn_trail : Float → Float → Run → Run
  spawn_trail x y run = spawn_particle x y 60 180 255 run

  unfoldable pub init_star : Seed → Star Float × Seed
  init_star s =
      let (x, s1) = randf (whole fl 0) (whole fl screen_w) s in
      let (y, s2) = randf (whole fl 0) (whole fl screen_h) s1 in
      let (speed, s3) = randf (whole fl 20) (whole fl 100) s2 in
      let (n, s4) = rand s3 in
      (record { x = x; y = y; speed = speed; brightness = (100 + n % 156) % 256 }, s4)

  unfoldable pub init_stars : ℕ → Seed → List (Star Float) × Seed
  init_stars zero s = ([], s)
  init_stars (suc left) s =
      let (star, s1) = init_star s in let (stars, s2) = init_stars left s1 in (star ∷ stars, s2)

  -- where a rock of this size comes from
  unfoldable pub rock_place : Float → Float → Seed → (Float × Float) × Seed
  rock_place w h s =
      let (n, s1) = rand s in
      let (top, s2) = randf (minus fl 40) (whole fl screen_w) s1 in
      let (side, s3) = randf (minus fl 40) (mul (whole fl screen_h) (lit (pos 5) 1)) s1 in
      if (n % 3) == 0
      then ((top, fl.neg h), s2)
      else if (n % 3) == 1
      then ((fl.neg w, side), s3)
      else ((whole fl screen_w, side), s3)

  unfoldable pub spawn_rock : Run → Run
  spawn_rock (game, s) =
      let (w, s1) = randf (whole fl 20) (whole fl 50) s in
      let (h, s2) = randf (whole fl 20) (whole fl 50) s1 in
      let (at, s3) = rock_place w h s2 in
      let (speed, s4) = randf (whole fl 80) (whole fl 180) s3 in
      let (angle, s5) = randf (whole fl 0) (whole fl 360) s4 in
      let (rot_speed, s6) = randf (minus fl 180) (whole fl 180) s5 in
      let new : Rock Float = record {
        x = at.0;
        y = at.1;
        w = w;
        h = h;
        speed = mul speed game.difficulty;
        angle = angle;
        rot_speed = rot_speed;
        active = true;
      } in
      if rock_free game.rocks
      then (record game { rocks = put_rock new game.rocks }, s6)
      else (game, s)

  abbrev pub zero_rock : Rock Float
  zero_rock = record {
    x = whole fl 0;
    y = whole fl 0;
    w = whole fl 0;
    h = whole fl 0;
    speed = whole fl 0;
    angle = whole fl 0;
    rot_speed = whole fl 0;
    active = false;
  }

  abbrev pub zero_particle : Particle Float
  zero_particle = record {
    x = whole fl 0;
    y = whole fl 0;
    vx = whole fl 0;
    vy = whole fl 0;
    life = whole fl 0;
    r = 0;
    g = 0;
    b = 0;
    active = false;
  }

  -- all but the high score is set
  unfoldable pub game_reset : Run → Run
  game_reset (game, s) =
      let (stars, s') = init_stars max_stars s in
      (
        record {
          px = div (of_int (pos screen_w)) (whole fl 2);
          py = mul (of_int (pos screen_h)) (lit (pos 75) 2);
          pvx = whole fl 0;
          pvy = whole fl 0;
          alive = true;
          stars = stars;
          rocks = replicate max_rocks zero_rock;
          particles = replicate max_particles zero_particle;
          difficulty = whole fl 1;
          score = whole fl 0;
          high_score = game.high_score;
          spawn_timer = whole fl 0;
          key_up = false;
          key_down = false;
          key_left = false;
          key_right = false;
        },
        s',
      )
