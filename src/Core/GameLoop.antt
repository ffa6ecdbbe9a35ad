-- ===== src/Core/GameLoop.antt =====
-- core/gameloop.c and core/timer.c. The performance counter and its frequency, which SDL gives, are
-- arguments of the functions that read them.
use fury_clash.Prelude.{ℕ, ◌+◌, ◌-◌, ◌%◌, ◌^◌, pos, Bool, true, false, if◌then◌else◌}
use fury_clash.Floats.{Floats}
use fury_clash.Gameplay.Types.{tick_dt}

-- `current_frame` only grows from 0.
pub record GameLoop (D : Type 0) : Type 0 where
  pub accumulator : D
  pub step : D  -- tick_dt
  pub last_counter : ℕ
  pub perf_freq : ℕ
  pub current_frame : ℕ
  pub running : Bool

-- the difference of two Uint64
abbrev pub u64_sub : ℕ → ℕ → ℕ
u64_sub a b = (a + (2 ^ 64 - b)) % 2 ^ 64

pub record Timer : Type 0 where
  pub start : ℕ
  pub freq : ℕ

unfoldable pub timer_init : ℕ → ℕ → Timer
timer_init now freq = record { start = now; freq = freq }

unfoldable pub timer_reset : ℕ → Timer → Timer
timer_reset now t = record t { start = now }

module _ (fl : Floats) where
  open fl use {Float, Double, double_of_int, dlit, dadd, dsub, dmul, ddiv, dlt, dle, narrow}

  unfoldable pub timer_elapsed_ms : ℕ → Timer → Double
  timer_elapsed_ms now t =
      ddiv (dmul (double_of_int (pos (u64_sub now t.start))) (double_of_int (pos 1000)))
        (double_of_int (pos t.freq))

  unfoldable pub gameloop_init : ℕ → ℕ → GameLoop Double
  gameloop_init now freq = record {
    accumulator = double_of_int (pos 0);
    step = tick_dt fl;
    last_counter = now;
    perf_freq = freq;
    current_frame = 0;
    running = true;
  }

  -- at most 0.05 seconds
  abbrev pub clamp_dt : Double → Double
  clamp_dt dt = if dlt (dlit (pos 5) 2) dt then dlit (pos 5) 2 else dt

  -- with `*out_dt`
  unfoldable pub gameloop_begin_frame : ℕ → GameLoop Double → Double × GameLoop Double
  gameloop_begin_frame now gl =
      let dt = clamp_dt (
        ddiv (double_of_int (pos (u64_sub now gl.last_counter)))
          (double_of_int (pos gl.perf_freq))) in
      (dt, record gl { last_counter = now; accumulator = dadd gl.accumulator dt })

  unfoldable pub gameloop_should_tick : GameLoop Double → Bool × GameLoop Double
  gameloop_should_tick gl =
      if dle gl.step gl.accumulator
      then (
        true,
        record gl {
          accumulator = dsub gl.accumulator gl.step;
          current_frame = gl.current_frame + 1;
        },
      )
      else (false, gl)

  unfoldable pub gameloop_render_alpha : GameLoop Double → Float
  gameloop_render_alpha gl = narrow (ddiv gl.accumulator gl.step)
