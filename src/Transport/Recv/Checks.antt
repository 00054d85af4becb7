-- ===== src/Transport/Recv/Checks.antt =====
-- `ht_recv_packet` on every branch: what it accepts, and what it leaves alone when it does not.
use remote_trans.Base.{
  ℕ, ◌+◌, ◌-◌, subst, ◌%◌, ◌^◌, ◌<◌, ◌≡◌, ap, ◌∙◌, true, false, List, ◌++◌, arith, is_pos, length,
  take, drop, length-append, length-take, length-drop, Bool-cases, inl, inr, pos_part,
}
use remote_trans.World.{after, World, reply, Reply, recv, recvfrom}
use remote_trans.Transport.Types.{Conn, ht_magic, sizeof_header, sizeof_packet, Header}
use remote_trans.Transport.Wire.{ht_calculate_checksum, decode, put_checksum}
use remote_trans.Transport.Wire.Checksum.{ht_calculate_checksum-lt}
use remote_trans.Transport.Wire.Codec.{
  length-put_checksum, header-put_checksum, put_checksum-put_checksum,
}
use remote_trans.Transport.Recv.{
  checksummed, Poll, overlay, poll_udp, poll_tcp, validate, ht_recv_packet,
}

length-overwrite :
    (n : ℕ) (bs buf : List ℕ)
    → length buf ≡ n
    → length (take n bs ++ drop (length (take n bs)) buf) ≡ n
length-overwrite n bs buf h = omega (
  arith,
  length-append {0} (take n bs) (drop (length (take n bs)) buf),
  length-take {0} n bs,
  length-drop {0} (length (take n bs)) buf,
)

pub length-overlay :
    (r : Reply) (buf : List ℕ) → length buf ≡ sizeof_packet → length (overlay r buf) ≡ sizeof_packet
unfolding overlay
length-overlay r buf h = elim (Bool-cases (is_pos r.ret)) [
  | inl e ↦ rw e (length-overwrite sizeof_packet r.bytes buf h)
  | inr e ↦ rw e h
]

length-poll_udp :
    (c : Conn) (buf : List ℕ) (w : World)
    → length buf ≡ sizeof_packet
    → length (poll_udp c buf w).buf ≡ sizeof_packet
unfolding poll_udp
length-poll_udp c buf w h = ground (arith, length-overlay (reply (recvfrom c.udp_fd) w) buf h)

length-poll_tcp :
    (c : Conn) (u : Poll) → length u.buf ≡ sizeof_packet → length (poll_tcp c u).buf ≡ sizeof_packet
unfolding poll_tcp
length-poll_tcp c u h = ground (arith, length-overlay (reply (recv c.tcp_fd) u.world) u.buf h)

-- A packet's memory whose header carries the magic number and the checksum of the bytes that the
-- header announces, taken with the checksum field at 0. Where the header announces more than the
-- structure holds, they go on with `behind`, what stands in memory behind it.
pub record IsVerified (buf behind : List ℕ) : Type 0 where
  pub magic : (decode buf).header.magic ≡ ht_magic
  pub checksum :
      (decode buf).header.checksum
      ≡ ht_calculate_checksum
          (take (sizeof_header + (decode buf).header.payload_size) (put_checksum 0 buf ++ behind))

-- What `validate` accepts is verified.
module _ (c : Conn) (t : Poll) (room : length t.buf ≡ sizeof_packet) where
  length-validate : length (validate c t).buf ≡ sizeof_packet
  unfolding validate
  length-validate = ground (
    arith,
    length-put_checksum 0 t.buf,
    length-put_checksum (decode t.buf).header.checksum (put_checksum 0 t.buf),
  )

  -- The memory with the checksum taken out and put back.
  abbrev again : List ℕ
  again = put_checksum (decode t.buf).header.checksum (put_checksum 0 t.buf)

  abbrev header : Header
  header = (decode t.buf).header

  checked :
      is_pos (validate c t).value ≡ true
      → (header.magic ≡ ht_magic)
        × (header.checksum
            ≡ ht_calculate_checksum (
                take
                  (sizeof_header + header.payload_size)
                  (put_checksum 0 t.buf ++ t.world.behind t.world.tick)))
        × ((validate c t).buf ≡ again)
  unfolding validate checksummed
  checked h = ground arith

  header-again : header.checksum < 2 ^ 32 → (decode again).header ≡ header
  header-again small =
      header-put_checksum header.checksum (put_checksum 0 t.buf)
        (omega (arith, length-put_checksum 0 t.buf, room)) small
      ∙ ap (λ (h : Header). record h { checksum = header.checksum })
          (header-put_checksum 0 t.buf (omega (arith, room)) (omega arith))

  cleared_again : put_checksum 0 again ≡ put_checksum 0 t.buf
  cleared_again =
      put_checksum-put_checksum header.checksum (put_checksum 0 t.buf)
        (omega (arith, length-put_checksum 0 t.buf, room)) 0
      ∙ put_checksum-put_checksum 0 t.buf (omega (arith, room)) 0

  validate-IsVerified :
      is_pos (validate c t).value ≡ true
      → IsVerified (validate c t).buf (t.world.behind t.world.tick)
  validate-IsVerified h = rw (checks.2) (record {
    magic = ap (λ (k : Header). k.magic) same ∙ checks.0;
    checksum = rw (cleared_again, same) checks.1;
  })
    where
      checks :
          (header.magic ≡ ht_magic)
          × (header.checksum
              ≡ ht_calculate_checksum (
                  take
                    (sizeof_header + header.payload_size)
                    (put_checksum 0 t.buf ++ t.world.behind t.world.tick)))
          × ((validate c t).buf ≡ again)
      checks = checked h

      same : (decode again).header ≡ header
      same = header-again (omega (arith, checks.1, ht_calculate_checksum-lt _))

  validate-counts :
      is_pos (validate c t).value ≡ true
      → (validate c t).conn.stats ≡ record c.stats {
        packets_received = (c.stats.packets_received + 1) % 2 ^ 64;
        bytes_received = (c.stats.bytes_received + pos_part (validate c t).value) % 2 ^ 64;
      }
  unfolding validate
  validate-counts h = ground arith

  validate-rejects :
      is_pos (validate c t).value ≡ false → is_pos t.value ≡ true → (validate c t).conn ≡ c
  unfolding validate
  validate-rejects h e = ground arith

module _ (c : Conn) (buf : List ℕ) (w : World) (room : length buf ≡ sizeof_packet) where
  abbrev poll : Poll
  poll = poll_tcp c (poll_udp c buf w)

  poll_room : length poll.buf ≡ sizeof_packet
  poll_room = length-poll_tcp c (poll_udp c buf w) (length-poll_udp c buf w room)

  -- What stands behind the packet when it is verified, before the last call.
  behind_poll :
      is_pos (validate c poll).value ≡ true
      → poll.world.behind poll.world.tick ≡ w.behind ((validate c poll).world.tick - 1)
  unfolding validate poll_tcp poll_udp after
  behind_poll h = ground (arith, h)

  recv-eq-validate :
      is_pos (ht_recv_packet c buf w).value ≡ true → ht_recv_packet c buf w ≡ validate c poll
  unfolding ht_recv_packet
  recv-eq-validate h = ground arith

  -- Given memory of a packet's size: with a positive result, the memory is that of a verified packet,
  -- still of its size, and of the statistics only the counts of packets and of bytes received have
  -- changed, by one packet with that many bytes.
  pub recv_accepts :
      is_pos (ht_recv_packet c buf w).value ≡ true
      → let r = ht_recv_packet c buf w in
        IsVerified r.buf (w.behind (r.world.tick - 1))
        × (length r.buf ≡ sizeof_packet)
        × (r.conn.stats ≡ record c.stats {
          packets_received = (c.stats.packets_received + 1) % 2 ^ 64;
          bytes_received = (c.stats.bytes_received + pos_part r.value) % 2 ^ 64;
        })
  recv_accepts h = rw (recv-eq-validate h) (
    subst (IsVerified (validate c poll).buf) (behind_poll accepted)
        (validate-IsVerified c poll poll_room accepted),
    length-validate c poll poll_room,
    validate-counts c poll poll_room accepted,
  )
    where
      accepted : is_pos (validate c poll).value ≡ true
      accepted = rw (recv-eq-validate h) at h

  -- Given memory of a packet's size: without a positive result, be it for want of data, an error, a
  -- wrong magic number or a wrong checksum, the connection is unchanged, and so is the memory's size.
  pub recv_rejects :
      is_pos (ht_recv_packet c buf w).value ≡ false
      → ((ht_recv_packet c buf w).conn ≡ c) × (length (ht_recv_packet c buf w).buf ≡ sizeof_packet)
  unfolding ht_recv_packet
  recv_rejects h =
      ground (arith, poll_room, length-validate c poll poll_room, validate-rejects c poll poll_room)
