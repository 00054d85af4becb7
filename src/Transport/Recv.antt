-- ===== src/Transport/Recv.antt =====
-- hybrid_transport.c: `ht_recv_packet` and `ht_recv_data`. The packet that `ht_recv_packet` fills is
-- the memory of an `ht_packet_t`, which keeps what a shorter message does not overwrite.
pub mod Checks
pub mod Overread
pub mod Delivery
pub mod Stall
use remote_trans.Base.{
  ℕ, ◌+◌, ◌-◌, ◌%◌, ◌^◌, Bool, true, false, not, ◌&&◌, ◌||◌, List, [], ◌∷◌, ◌++◌, ℤ, pos, minus_one,
  pos_part, is_neg, is_pos, ltb, ◌==◌, if◌then◌else◌, length, take, drop, min, int_of_bits,
  take-append_left, ◌≤◌, ◌≡◌,
}
use remote_trans.World.{Reply, World, reply, after, would_block, gettimeofday, recv, recvfrom}
use remote_trans.Transport.Types.{RecvEntry, Conn, ht_magic, sizeof_header, sizeof_packet}
use remote_trans.Transport.Wire.{ht_calculate_checksum, decode, put_checksum}

-- What the kernel stores of a message: no more than the packet has room for.
unfoldable pub overlay : Reply → List ℕ → List ℕ
overlay r buf =
    if is_pos r.ret
    then take sizeof_packet r.bytes ++ drop (length (take sizeof_packet r.bytes)) buf
    else buf

-- One attempt to read: the byte count, or an error that ends the function.
pub record Poll : Type 0 where
  pub value : ℤ
  pub failed : Bool
  pub from_tcp : Bool
  pub buf : List ℕ
  pub world : World

-- `errno` is read also after a result of 0, when it is what an earlier call left.
abbrev pub polled : Bool → Reply → List ℕ → World → Poll
polled tcp r buf w = record {
  value = r.ret;
  failed = not (is_pos r.ret) && not (would_block w.errno);
  from_tcp = tcp && is_pos r.ret;
  buf = overlay r buf;
  world = w;
}

unfoldable pub poll_udp : Conn → List ℕ → World → Poll
poll_udp c buf w =
    if is_neg c.udp_fd
    then record { value = pos 0; failed = false; from_tcp = false; buf = buf; world = w }
    else polled false (reply (recvfrom c.udp_fd) w) buf (after (recvfrom c.udp_fd) w)

unfoldable pub poll_tcp : Conn → Poll → Poll
poll_tcp c u =
    if u.failed || is_pos u.value || is_neg c.tcp_fd
    then u
    else polled true (reply (recv c.tcp_fd) u.world) u.buf (after (recv c.tcp_fd) u.world)

pub record Received : Type 0 where
  pub value : ℤ
  pub from_tcp : Bool
  pub buf : List ℕ
  pub conn : Conn
  pub world : World

-- The first `n` bytes from the start of the packet's memory. The header's `payload_size` is the peer's
-- word for it, and the checksum loop follows it past the end of the structure, into what stands there.
unfoldable pub checksummed : ℕ → List ℕ → World → List ℕ
checksummed n buf w = take n (buf ++ w.behind w.tick)

pub checksummed-within :
    (n : ℕ) (buf : List ℕ) (w : World) → n ≤ length buf → checksummed n buf w ≡ take n buf
unfolding checksummed
checksummed-within n buf w h = take-append_left n buf (w.behind w.tick) h

abbrev pub overread : ℕ → List ℕ → World → World
overread n buf w = if ltb (length buf) n then record w { faulted = true } else w

abbrev pub received : ℤ → Bool → List ℕ → Conn → World → Received
received v tcp buf c w = record { value = v; from_tcp = tcp; buf = buf; conn = c; world = w }

abbrev pub account_received : Conn → ℤ → World → Conn
account_received c n w = record c {
  stats = record c.stats {
    packets_received = (c.stats.packets_received + 1) % 2 ^ 64;
    bytes_received = (c.stats.bytes_received + pos_part n) % 2 ^ 64;
  };
  last_activity = (reply gettimeofday w).time;
}

-- The two checks, then the statistics.
unfoldable pub validate : Conn → Poll → Received
validate c t =
    let h = (decode t.buf).header in
    let size = sizeof_header + h.payload_size in
    let cleared = put_checksum 0 t.buf in
    let w = overread size cleared t.world in
    if not (h.magic == ht_magic)
    then received minus_one t.from_tcp t.buf c t.world
    else if not (h.checksum == ht_calculate_checksum (checksummed size cleared t.world))
    then received minus_one t.from_tcp cleared c w
    else received t.value t.from_tcp (put_checksum h.checksum cleared)
        (account_received c t.value w) (after gettimeofday w)

unfoldable pub ht_recv_packet : Conn → List ℕ → World → Received
ht_recv_packet c buf w =
    let t = poll_tcp c (poll_udp c buf w) in
    if t.failed
    then received minus_one t.from_tcp t.buf c t.world
    else if is_pos t.value
    then validate c t
    else received t.value t.from_tcp t.buf c t.world

-- The walk of `ht_recv_data`: the entries that stay, the bytes that are copied out, and the next
-- expected sequence number. After a removal the walk goes on behind the removed entry.
pub record Drained : Type 0 where
  pub kept : List RecvEntry
  pub out : List ℕ
  pub sequence : ℕ

abbrev pub keep_entry : RecvEntry → Drained → Drained
keep_entry e d = record d { kept = e ∷ d.kept }

abbrev pub copy_out : List ℕ → Drained → Drained
copy_out bs d = record d { out = bs ++ d.out }

abbrev pub is_next : RecvEntry → ℕ → Bool
is_next e sequence = e.received && (e.packet.header.sequence == sequence)

-- What is copied of an entry when `room` bytes are free in the caller's buffer. (A `payload_size`
-- beyond the payload has already faulted in `validate`.)
abbrev pub copied : RecvEntry → ℕ → List ℕ
copied e room = take (min e.packet.header.payload_size room) e.packet.payload

unfoldable pub drain : List RecvEntry → ℕ → ℕ → Drained
drain [] room sequence = record { kept = []; out = []; sequence = sequence }
drain (e ∷ es) room sequence =
    let taken =
      copy_out (copied e room)
        (drain es (room - min e.packet.header.payload_size room) ((sequence + 1) % 2 ^ 32)) in
    let passed = keep_entry e (drain es room sequence) in
    if room == 0
    then record { kept = e ∷ es; out = []; sequence = sequence }
    else if is_next e sequence
    then taken
    else passed

-- The bytes go to the caller's buffer of `buffer_size` bytes; the value is their number as an `int`.
unfoldable pub ht_recv_data : Conn → ℕ → ℤ × List ℕ × Conn
unfolding drain
ht_recv_data c buffer_size =
    if buffer_size == 0 || not c.is_connected
    then (minus_one, [], c)
    else let d = drain c.recv_buffer buffer_size c.recv_sequence in
      (
        int_of_bits (length d.out),
        d.out,
        record c { recv_buffer = d.kept; recv_sequence = d.sequence },
      )
