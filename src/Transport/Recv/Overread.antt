-- ===== src/Transport/Recv/Overread.antt =====
-- How far `ht_recv_packet` reads in the packet's memory.
use remote_trans.Base.{
  ℕ, ◌+◌, ◌≡◌, Bool, false, ◌&&◌, List, pos, arith, length, ltb, ◌==◌, suc, ap, ◌∙◌, Bool-cases,
  inl, inr,
}
use remote_trans.World.{World, reply, recvfrom, gettimeofday, faulted-after}
use remote_trans.Transport.Types.{
  Header, Conn, ht_magic, ht_max_payload_size, sizeof_header, sizeof_packet,
}
use remote_trans.Transport.Wire.{ht_calculate_checksum, decode, put_checksum}
use remote_trans.Transport.Wire.Codec.{length-put_checksum}
use remote_trans.Transport.Recv.{
  Poll, overlay, overread, checksummed, poll_udp, poll_tcp, validate, ht_recv_packet,
}
use remote_trans.Transport.Recv.Checks.{length-overlay}

-- The header asks for the checksum of more bytes than the structure has.
abbrev pub overruns : List ℕ → Bool
overruns buf =
    ((decode buf).header.magic == ht_magic)
    && ltb ht_max_payload_size (decode buf).header.payload_size

validate-overruns :
    (c : Conn) (t : Poll)
    → length t.buf ≡ sizeof_packet
    → t.world.faulted ≡ false
    → (validate c t).world.faulted ≡ overruns t.buf
unfolding validate
validate-overruns c t room sound = elim (Bool-cases (h.magic == ht_magic)) [
  | inl e ↦
      elim (Bool-cases
        (h.checksum == ht_calculate_checksum (checksummed size (put_checksum 0 t.buf) t.world))) [
          | inl f ↦
              rw (e, f, faulted-after gettimeofday (overread size (put_checksum 0 t.buf) t.world))
                far
          | inr f ↦ rw (e, f) far
        ]
  | inr e ↦ rw e sound
]
  where
    h : Header
    h = (decode t.buf).header

    size : ℕ
    size = sizeof_header + h.payload_size

    far :
        (overread size (put_checksum 0 t.buf) t.world).faulted
        ≡ ltb ht_max_payload_size h.payload_size
    far = ground (arith, sound, room, length-put_checksum 0 t.buf)

poll-datagram_in :
    (d : Conn) (buf : List ℕ) (u : World) (fd n : ℕ)
    → d.udp_fd ≡ pos fd
    → (reply (recvfrom d.udp_fd) u).ret ≡ pos (suc n)
    → let t = poll_tcp d (poll_udp d buf u) in
      (t.value ≡ pos (suc n))
      × (t.failed ≡ false)
      × (t.buf ≡ overlay (reply (recvfrom d.udp_fd) u) buf)
      × (t.world.faulted ≡ u.faulted)
unfolding poll_udp poll_tcp
poll-datagram_in d buf u fd n open_fd ret = ground (arith, faulted-after (recvfrom d.udp_fd) u)

-- When a datagram has arrived at an open UDP socket, `ht_recv_packet` reads past the end of the
-- packet's memory exactly if the header that is then in it has the protocol's magic number and
-- announces more than 1350 bytes of payload; the checksum is compared only behind that.
pub recv_overreads :
    (d : Conn) (buf : List ℕ) (u : World) (fd n : ℕ)
    → length buf ≡ sizeof_packet
    → u.faulted ≡ false
    → d.udp_fd ≡ pos fd
    → (reply (recvfrom d.udp_fd) u).ret ≡ pos (suc n)
    → (ht_recv_packet d buf u).world.faulted ≡ overruns (overlay (reply (recvfrom d.udp_fd) u) buf)
unfolding ht_recv_packet
recv_overreads d buf u fd n room sound open_fd ret =
    ground (arith, polled, validate-overruns d t room_after (polled.3 ∙ sound))
  where
    t : Poll
    t = poll_tcp d (poll_udp d buf u)

    polled :
        (t.value ≡ pos (suc n))
        × (t.failed ≡ false)
        × (t.buf ≡ overlay (reply (recvfrom d.udp_fd) u) buf)
        × (t.world.faulted ≡ u.faulted)
    polled = poll-datagram_in d buf u fd n open_fd ret

    room_after : length t.buf ≡ sizeof_packet
    room_after = ap length polled.2 ∙ length-overlay (reply (recvfrom d.udp_fd) u) buf room
