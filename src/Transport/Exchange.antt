-- ===== src/Transport/Exchange.antt =====
-- hybrid_transport.c, from `ht_send_packet` at one end to `ht_recv_packet` at the other.
pub mod Corruption
use remote_trans.Base.{
  ℕ, suc, ◌+◌, ◌%◌, ◌^◌, ◌-◌, ◌≤◌, ◌<◌, ◌≡◌, refl, sym, ap, ◌∙◌, Bool, true, false, not, ◌&&◌,
  Option, none, some, List, [], ◌∷◌, ◌++◌, ℤ, pos, negsuc, minus_one, arith, is_pos, length, take,
  drop, take_all, length-append, length-drop, Bool-cases, inl, inr, ◌⊎◌, ltb, if◌then◌else◌,
}
use remote_trans.World.{
  Call, recvfrom, sendto, World, reply, after, gettimeofday, faulted-after, Reply,
}
use remote_trans.Transport.Types.{
  Packet, Conn, ht_magic, ht_max_payload_size, sizeof_header, sizeof_packet,
}
use remote_trans.Transport.Wire.{ht_calculate_checksum, decode, put_checksum, wire_bytes, seal}
use remote_trans.Transport.Wire.Codec.{length-put_checksum}
use remote_trans.Transport.Wire.Seal.{
  IsPacket, header-of_sealed, checksum-of_sealed, restored, payload-of_sealed, length-wire_bytes,
}
use remote_trans.Transport.Send.{ht_send_packet, account_sent}
use remote_trans.Transport.Recv.{
  checksummed, checksummed-within, Poll, Received, overlay, overread, poll_udp, poll_tcp, validate,
  ht_recv_packet, account_received, received,
}

-- The newest datagram that a list of calls, newest first, handed to the kernel.
abbrev pub last_datagram : List Call → Option (List ℕ)
last_datagram [] = none
last_datagram (c ∷ cs) = elim c [ sendto fd bs ↦ some bs | _ ↦ last_datagram cs ]

-- Over an open UDP socket `ht_send_packet` hands the kernel the sealed packet's bytes.
pub last_datagram-send :
    (c : Conn) (p : Packet) (w : World) (n : ℕ)
    → c.udp_fd ≡ pos n
    → last_datagram (ht_send_packet c p false w).world.calls ≡ some (wire_bytes (seal p))
unfolding ht_send_packet account_sent after
last_datagram-send c p w n e = ground arith

-- `validate` on the memory of a sealed packet.
module _ (p : Packet) (v : IsPacket p) (rest : List ℕ) (c : Conn) (t : Poll)
    (mem : t.buf ≡ wire_bytes (seal p) ++ rest) (magic : p.header.magic ≡ ht_magic)
    (room : sizeof_header + p.header.payload_size ≤ length t.buf) where
  validate-sealed :
      let r = validate c t in
      (r.value ≡ t.value)
      × (r.buf ≡ t.buf)
      × (r.from_tcp ≡ t.from_tcp)
      × (r.world.faulted ≡ t.world.faulted)
      × (r.conn.stats ≡ (account_received c t.value t.world).stats)
  unfolding validate seal
  validate-sealed = ground (
    arith,
    faulted-after gettimeofday t.world,
    length-put_checksum 0 t.buf,
    same_header,
    same_checksum,
    same_memory,
  )
    where
      same_header : (decode t.buf).header ≡ (seal p).header
      same_header = rw mem (header-of_sealed p v rest)

      unsealed :
          ht_calculate_checksum
            (take (sizeof_header + p.header.payload_size) (put_checksum 0 t.buf))
          ≡ (seal p).header.checksum
      unsealed = rw mem (checksum-of_sealed p v rest)

      same_checksum :
          ht_calculate_checksum
            (checksummed (sizeof_header + p.header.payload_size) (put_checksum 0 t.buf) t.world)
          ≡ (seal p).header.checksum
      same_checksum =
          ap ht_calculate_checksum (
            checksummed-within (sizeof_header + p.header.payload_size) (put_checksum 0 t.buf)
              t.world (omega (arith, length-put_checksum 0 t.buf, room)))
          ∙ unsealed

      same_memory : put_checksum (seal p).header.checksum (put_checksum 0 t.buf) ≡ t.buf
      same_memory = rw mem (restored p v rest)

-- What a received datagram leaves for `validate`.
pub poll-datagram :
    (d : Conn) (buf bytes : List ℕ) (w : World) (fd n : ℕ)
    → d.udp_fd ≡ pos fd
    → (reply (recvfrom d.udp_fd) w).ret ≡ pos (suc n)
    → (reply (recvfrom d.udp_fd) w).bytes ≡ bytes
    → length bytes ≤ sizeof_packet
    → let t = poll_tcp d (poll_udp d buf w) in
      (t.value ≡ pos (suc n))
      × (t.failed ≡ false)
      × (t.from_tcp ≡ false)
      × (t.buf ≡ bytes ++ drop (length bytes) buf)
      × (t.world.faulted ≡ w.faulted)
unfolding poll_udp poll_tcp overlay
poll-datagram d buf bytes w fd n open_fd ret same fits =
    ground (arith, take_all sizeof_packet bytes fits, faulted-after (recvfrom d.udp_fd) w)

-- A datagram that one connection hands to the kernel, delivered whole to the open UDP socket of
-- another, is accepted there: for a packet with the protocol's magic number, fields in range and at
-- most 1350 bytes of payload, `ht_recv_packet` returns its length, reports that it did not come by
-- TCP, reads back the sealed header and the announced payload, reads nothing out of bounds and
-- counts one packet and its bytes.
pub recv-send :
    (c d : Conn) (p : Packet) (buf bytes : List ℕ) (w u : World) (fd fd' : ℕ)
    → IsPacket p
    → p.header.magic ≡ ht_magic
    → p.header.payload_size ≤ ht_max_payload_size
    → length buf ≡ sizeof_packet
    → c.udp_fd ≡ pos fd
    → d.udp_fd ≡ pos fd'
    → last_datagram (ht_send_packet c p false w).world.calls ≡ some bytes
    → (reply (recvfrom d.udp_fd) u).bytes ≡ bytes
    → (reply (recvfrom d.udp_fd) u).ret ≡ pos (length bytes)
    → let r = ht_recv_packet d buf u in
      (r.value ≡ pos (sizeof_header + p.header.payload_size))
      × (r.from_tcp ≡ false)
      × ((decode r.buf).header ≡ (seal p).header)
      × (take p.header.payload_size (decode r.buf).payload ≡ take p.header.payload_size p.payload)
      × (r.world.faulted ≡ u.faulted)
      × (r.conn.stats ≡ record d.stats {
        packets_received = (d.stats.packets_received + 1) % 2 ^ 64;
        bytes_received =
            (d.stats.bytes_received + (sizeof_header + p.header.payload_size)) % 2 ^ 64;
      })
unfolding ht_recv_packet
recv-send c d p buf bytes w u fd fd' v magic small whole cfd dfd sent brought count = ground (
  arith,
  same_bytes,
  size,
  polled,
  payload-of_sealed p v rest,
  header-of_sealed p v rest,
  validate-sealed p v rest d t at_wire magic fits,
)
  where
    t : Poll
    t = poll_tcp d (poll_udp d buf u)

    rest : List ℕ
    rest = drop (length bytes) buf

    same_bytes : bytes ≡ wire_bytes (seal p)
    same_bytes = cc (last_datagram-send c p w fd cfd)

    size : length bytes ≡ sizeof_header + p.header.payload_size
    size = rw same_bytes (length-wire_bytes p v rest)

    polled :
        (t.value ≡ pos (suc (35 + p.header.payload_size)))
        × (t.failed ≡ false)
        × (t.from_tcp ≡ false)
        × (t.buf ≡ bytes ++ rest)
        × (t.world.faulted ≡ u.faulted)
    polled =
        poll-datagram d buf bytes u fd' (35 + p.header.payload_size) dfd
          (count ∙ ap pos (omega (arith, size))) brought (omega (arith, size))

    at_wire : t.buf ≡ wire_bytes (seal p) ++ rest
    at_wire = polled.3 ∙ ap (λ bs. bs ++ rest) same_bytes

    fits : sizeof_header + p.header.payload_size ≤ length t.buf
    fits = omega (arith, ap length polled.3, length-append {0} bytes rest, size)
