-- ===== src/Transport/Statistics.antt =====
-- hybrid_transport.c: round-trip times and the statistics of a connection.
pub mod Rtt
use remote_trans.Base.{ℕ, ◌+◌, ◌*◌, ◌/◌, ◌%◌, ◌^◌, ltb, ◌==◌, if◌then◌else◌}
use remote_trans.Floats.{Floats, f0, f1}
use remote_trans.Transport.Types.{Stats, Conn, uint32_max}

-- The three branches in their order; the sum of the moving average is a `uint32_t`.
unfoldable pub sample_min : ℕ → Stats → Stats
sample_min rtt s = if ltb rtt s.rtt_min then record s { rtt_min = rtt } else s

unfoldable pub sample_max : ℕ → Stats → Stats
sample_max rtt s = if ltb s.rtt_max rtt then record s { rtt_max = rtt } else s

unfoldable pub sample_avg : ℕ → Stats → Stats
sample_avg rtt s =
    if s.rtt_avg == 0
    then record s { rtt_avg = rtt }
    else record s { rtt_avg = (s.rtt_avg * 7 + rtt) % 2 ^ 32 / 8 }

unfoldable pub ht_update_rtt : ℕ → Stats → Stats
unfolding sample_min sample_max sample_avg
ht_update_rtt rtt s = sample_avg rtt (sample_max rtt (sample_min rtt s))

abbrev pub empty_stats : Stats
empty_stats = record {
  packets_sent = 0;
  packets_received = 0;
  packets_lost = 0;
  packets_retransmitted = 0;
  bytes_sent = 0;
  bytes_received = 0;
  rtt_avg = 0;
  rtt_min = uint32_max;
  rtt_max = 0;
  packet_loss_rate = f0;
  udp_ratio = f0;
  tcp_ratio = f0;
}

unfoldable pub ht_reset_stats : Conn → Conn
ht_reset_stats c = record c { stats = empty_stats }

-- The copy that the caller receives. The connection's own record is not written.
unfoldable pub ht_get_stats : Floats → Conn → Stats
ht_get_stats fl c =
    if ltb 0 c.stats.packets_sent
    then record c.stats {
      udp_ratio = c.udp_preference;
      tcp_ratio = fl.sub f1 c.udp_preference;
      packet_loss_rate = fl.div (fl.of_nat c.stats.packets_lost) (fl.of_nat c.stats.packets_sent);
    }
    else c.stats
