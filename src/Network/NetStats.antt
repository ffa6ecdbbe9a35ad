-- ===== src/Network/NetStats.antt =====
-- network/net_stats.c, of which net_client.c calls `net_stats_init` only.
use fury_clash.Prelude.{ℤ, pos, ◌+ℤ◌}
use fury_clash.Floats.{Floats, whole}

pub record NetStats (F : Type 0) : Type 0 where
  pub ping_ms : F
  pub jitter_ms : F
  pub rollback_frame_count : ℤ
  pub packets_lost : ℤ

module _ (fl : Floats) where
  open fl use {Float, lit, add, sub, mul, div, fabs}

  unfoldable pub net_stats_init : NetStats Float
  net_stats_init = record {
    ping_ms = whole fl 0;
    jitter_ms = whole fl 0;
    rollback_frame_count = pos 0;
    packets_lost = pos 0;
  }

  unfoldable pub net_stats_record_pong : Float → NetStats Float → NetStats Float
  net_stats_record_pong rtt_ms s =
      let ping = div rtt_ms (whole fl 2) in
      let diff = sub ping s.ping_ms in
      record s {
        jitter_ms = add (mul s.jitter_ms (lit (pos 9) 1)) (mul (fabs diff) (lit (pos 1) 1));
        ping_ms = add (mul s.ping_ms (lit (pos 9) 1)) (mul ping (lit (pos 1) 1));
      }

  unfoldable pub net_stats_record_rollback : ℤ → NetStats Float → NetStats Float
  net_stats_record_rollback frames s = record s {
    rollback_frame_count = s.rollback_frame_count +ℤ frames;
  }
