-- ===== src/Transport/Tests/Messages.antt =====
-- Tests of packets on the wire.
use remote_trans.Base.{
  ℕ, ap, pos_part, ◌+◌, ◌%◌, ◌^◌, ◌≡◌, ◌≢◌, refl, true, false, List, [], ◌∷◌, ◌++◌, pos, minus_one,
  arith, is_pos, length, take, replicate, length-replicate,
}
use remote_trans.World.{World, after}
use remote_trans.Transport.Types.{sizeof_packet}
use remote_trans.Transport.Wire.{
  ht_calculate_checksum, checksum_from, decode, seal, wire_bytes, encode_header,
}
use remote_trans.Transport.Wire.Checksum.{checksum_detects}
use remote_trans.Transport.Wire.Seal.{IsPacket}
use remote_trans.Transport.Recv.{ht_recv_packet, poll_udp, poll_tcp, overlay}
use remote_trans.Transport.Recv.Checks.{IsVerified, recv_accepts, recv_rejects}
use remote_trans.Transport.Recv.Overread.{recv_overreads}
use remote_trans.Transport.Exchange.{last_datagram-send, recv-send}
use remote_trans.Transport.Exchange.Corruption.{recv-corrupted}
use remote_trans.Transport.Tests.{open_conn, packet, world, going, bringing}

abbrev memory : List ℕ
memory = replicate sizeof_packet 0

memory-length : length memory ≡ sizeof_packet
memory-length = length-replicate {0} {A = ℕ} sizeof_packet 0

packet-IsPacket : IsPacket packet
packet-IsPacket = record {
  header = record {
    magic = omega arith;
    version = omega arith;
    type = omega arith;
    flags = omega arith;
    sequence = omega arith;
    ack_sequence = omega arith;
    window_size = omega arith;
    payload_size = omega arith;
    timestamp = omega arith;
    checksum = omega arith;
    reserved = refl;
  };
  filled = omega arith;
}

abbrev sent : List ℕ
sent = wire_bytes (seal packet)

abbrev arrival : World
arrival = world (bringing sent)

sent-length : length sent ≡ 39
unfolding seal ht_calculate_checksum checksum_from
sent-length = refl

checksum_order : ht_calculate_checksum (1 ∷ 2 ∷ []) ≢ ht_calculate_checksum (2 ∷ 1 ∷ [])
unfolding ht_calculate_checksum checksum_from
checksum_order = λ h. omega (arith, h)

checksum_detects_example :
    ht_calculate_checksum (1 ∷ 2 ∷ 3 ∷ []) ≢ ht_calculate_checksum (1 ∷ 9 ∷ 3 ∷ [])
checksum_detects_example =
    checksum_detects (1 ∷ []) (3 ∷ []) 2 9 (omega arith) (omega arith) (omega arith)

recv-send_example :
    let r = ht_recv_packet open_conn memory arrival in
    (r.value ≡ pos 39)
    × (r.from_tcp ≡ false)
    × ((decode r.buf).header ≡ (seal packet).header)
    × (take 3 (decode r.buf).payload ≡ 1 ∷ 2 ∷ 3 ∷ [])
    × (r.world.faulted ≡ false)
    × (r.conn.stats ≡ record open_conn.stats { packets_received = 1; bytes_received = 39 })
recv-send_example =
    recv-send open_conn open_conn packet memory sent (world going) arrival 3 3 packet-IsPacket refl
      (omega arith) memory-length refl refl
      (last_datagram-send open_conn packet (world going) 3 refl) refl refl

accepted : is_pos (ht_recv_packet open_conn memory arrival).value ≡ true
accepted =
    ap is_pos
      (recv-send open_conn open_conn packet memory sent (world going) arrival 3 3 packet-IsPacket
        refl (omega arith) memory-length refl refl
        (last_datagram-send open_conn packet (world going) 3 refl) refl refl).0

idle : is_pos (ht_recv_packet open_conn memory (world going)).value ≡ false
unfolding ht_recv_packet poll_udp poll_tcp after
idle = refl

recv_accepts_example :
    let r = ht_recv_packet open_conn memory arrival in
    IsVerified r.buf []
    × (length r.buf ≡ sizeof_packet)
    × (r.conn.stats ≡ record open_conn.stats {
      packets_received = 1;
      bytes_received = (0 + pos_part r.value) % 2 ^ 64;
    })
recv_accepts_example = recv_accepts open_conn memory arrival memory-length accepted

-- Nothing arrives.
recv_rejects_example :
    let r = ht_recv_packet open_conn memory (world going) in
    (r.conn ≡ open_conn) × (length r.buf ≡ sizeof_packet)
recv_rejects_example = recv_rejects open_conn memory (world going) memory-length idle

-- The second byte of the payload changes from 2 to 9.
recv-corrupted_example :
    let r = ht_recv_packet open_conn memory (world (bringing (take 37 sent ++ 9 ∷ 3 ∷ []))) in
    (r.value ≡ minus_one) × (r.conn ≡ open_conn)
unfolding seal
recv-corrupted_example =
    recv-corrupted packet open_conn memory (take 37 sent) (3 ∷ []) 2 9
      (world (bringing (take 37 sent ++ 9 ∷ 3 ∷ []))) 3 packet-IsPacket (omega arith) refl
      (omega arith) (omega arith) (omega arith) (omega arith) refl refl refl

-- A header alone, which announces 2000 bytes.
abbrev oversized : List ℕ
oversized = encode_header (record packet.header { payload_size = 2000 })

recv_overreads_example :
    (ht_recv_packet open_conn memory (world (bringing oversized))).world.faulted ≡ true
unfolding decode overlay
recv_overreads_example =
    recv_overreads open_conn memory (world (bringing oversized)) 3 35 memory-length refl refl refl
