-- ===== src/Transport/Send.antt =====
-- hybrid_transport.c: `ht_should_use_tcp`, `ht_send_packet` and `ht_send_data`.
pub mod Frame
pub mod Stream
pub mod Completion
use remote_trans.Base.{
  ℕ, zero, suc, ◌+◌, ◌-◌, ◌%◌, ◌^◌, Bool, true, false, not, ◌&&◌, ◌||◌, List, ◌∷◌, ◌++◌, ℤ, pos,
  minus_one, pos_part, is_neg, is_pos, ltb, ◌==◌, if◌then◌else◌, length, take, drop, replicate,
  int_of_bits,
}
use remote_trans.Floats.{Floats, f0, f0_05, f0_2, f0_3, f1, frand_max}
use remote_trans.World.{Timeval, World, reply, after, gettimeofday, rand, malloc, send, sendto}
use remote_trans.Transport.Types.{
  udp_only, tcp_only, Packet, Conn, Step, type_data, ht_max_payload_size,
}
use remote_trans.Transport.Wire.{blank_packet, wire_bytes, seal}
use remote_trans.Transport.Clock.{get_timestamp_ms}

-- The floating-point decision of the hybrid and the automatic mode: the probability, adjusted to
-- the network and clamped, against a random number.
unfoldable pub tcp_probability : Floats → Conn → ℕ
tcp_probability fl c =
    let p = fl.sub f1 c.udp_preference in
    let q = if fl.lt f0_05 c.stats.packet_loss_rate then fl.add p f0_3 else p in
    let r = if ltb 200 c.stats.rtt_avg then fl.add q f0_2 else q in
    let s = if fl.lt f1 r then f1 else r in if fl.lt s f0 then f0 else s

unfoldable pub ht_should_use_tcp : Floats → Conn → World → Bool × World
ht_should_use_tcp fl c w = elim c.mode [
  | tcp_only ↦ (true, w)
  | udp_only ↦ (false, w)
  | _ ↦ (
    fl.lt (fl.div (fl.of_nat (pos_part (reply rand w).ret)) frand_max) (tcp_probability fl c),
    after rand w,
  )
]

-- The `if (bytes_sent > 0)` at the end of `ht_send_packet`. The two counters are `uint64_t`.
unfoldable pub account_sent : Conn → ℤ → World → Step
account_sent c n w =
    if is_pos n
    then record {
      value = n;
      conn = record c {
        stats = record c.stats {
          packets_sent = (c.stats.packets_sent + 1) % 2 ^ 64;
          bytes_sent = (c.stats.bytes_sent + pos_part n) % 2 ^ 64;
        };
        last_activity = (reply gettimeofday w).time;
      };
      world = after gettimeofday w;
    }
    else record { value = n; conn = c; world = w }

-- Whatever it returns, it leaves `seal p` in the caller's packet.
unfoldable pub ht_send_packet : Conn → Packet → Bool → World → Step
ht_send_packet c p use_tcp w =
    let by_tcp = send c.tcp_fd (wire_bytes (seal p)) in
    let by_udp = sendto c.udp_fd (wire_bytes (seal p)) in
    if use_tcp && not (is_neg c.tcp_fd)
    then account_sent c (reply by_tcp w).ret (after by_tcp w)
    else if not use_tcp && not (is_neg c.udp_fd)
    then account_sent c (reply by_udp w).ret (after by_udp w)
    else record { value = minus_one; conn = c; world = w }

-- One channel, and the other if the first fails, as `ht_send_data`, the retransmissions and the
-- heartbeats do.
unfoldable pub send_either : Conn → Packet → Bool → World → Step
send_either c p use_tcp w =
    let first = ht_send_packet c p use_tcp w in
    if is_neg first.value
    then ht_send_packet first.conn (seal p) (not use_tcp) first.world
    else first

-- `conn->send_sequence++`, on a `uint32_t`.
abbrev pub next_sequence : Conn → Conn
next_sequence c = record c { send_sequence = (c.send_sequence + 1) % 2 ^ 32 }

unfoldable pub data_packet : Conn → List ℕ → Timeval → Packet
data_packet c chunk now =
    let p = blank_packet type_data c.send_sequence (get_timestamp_ms now) in
    record p {
      header = record p.header {
        ack_sequence = c.ack_sequence;
        window_size = c.recv_window_size;
        payload_size = length chunk;
      };
      payload = chunk ++ replicate (ht_max_payload_size - length chunk) 0;
    }

-- `malloc` an entry for the packet and link it in at the head.
unfoldable pub remember : Conn → Packet → World → Step
remember c p w =
    if is_neg (reply malloc w).ret
    then record { value = pos 0; conn = c; world = after malloc w }
    else let w' = after malloc w in
      record {
        value = pos 0;
        conn = record c {
          send_buffer =
              record { packet = p; send_time = (reply gettimeofday w').time; retransmit_count = 0 }
              ∷ c.send_buffer;
        };
        world = after gettimeofday w';
      }

-- The packet of the next round of the loop of `ht_send_data`, and its transmission.
abbrev pub chunk_packet : Conn → List ℕ → World → Packet
chunk_packet c chunk w = data_packet c chunk (reply gettimeofday w).time

unfoldable pub transmit : Floats → Conn → List ℕ → World → Step
transmit fl c chunk w =
    let (use_tcp, w') = ht_should_use_tcp fl c (after gettimeofday w) in
    send_either (next_sequence c) (chunk_packet c chunk w) use_tcp w'

-- The body of the loop for one chunk. A negative value is its `break`.
unfoldable pub send_chunk : Floats → Conn → List ℕ → World → Step
send_chunk fl c chunk w =
    let s = transmit fl c chunk w in
    if is_neg s.value then s else remember s.conn (seal (chunk_packet c chunk w)) s.world

-- `while (bytes_sent < size)`, over the bytes that are left; its count is returned as an `int`. Each round but the last sends one byte
-- at least, so `length rest` rounds are enough.
unfoldable pub send_loop : Floats → ℕ → ℕ → List ℕ → Conn → World → Step
send_loop fl zero sent rest c w = record { value = int_of_bits sent; conn = c; world = w }
send_loop fl (suc fuel) sent rest c w =
    let chunk = take ht_max_payload_size rest in
    let s = send_chunk fl c chunk w in
    let more =
      send_loop fl fuel (sent + length chunk) (drop ht_max_payload_size rest) s.conn s.world in
    if length rest == 0
    then record { value = int_of_bits sent; conn = c; world = w }
    else if is_neg s.value
    then record { value = int_of_bits sent; conn = s.conn; world = s.world }
    else more

unfoldable pub ht_send_data : Floats → Conn → List ℕ → World → Step
ht_send_data fl c bytes w =
    if length bytes == 0 || not c.is_connected
    then record { value = minus_one; conn = c; world = w }
    else send_loop fl (length bytes) 0 bytes c w
