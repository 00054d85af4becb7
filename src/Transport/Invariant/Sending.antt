-- ===== src/Transport/Invariant/Sending.antt =====
-- The invariant under `ht_create_connection` and `ht_send_data`.
use remote_trans.Base.{
  ℕ, zero, suc, ◌-◌, ◌^◌, ◌≤◌, ◌<◌, ◌≡◌, refl, some, List, ℤ, pos_part, arith, is_neg, length, take,
  replicate, length-append, length-take, Bool-cases, inl, inr, ◌==◌,
}
use remote_trans.Floats.{Floats}
use remote_trans.World.{World, Timeval, malloc, reply, gettimeofday}
use remote_trans.Transport.Types.{Mode, Packet, Conn, ht_max_payload_size}
use remote_trans.Transport.Wire.{seal, blank_packet}
use remote_trans.Transport.Wire.Seal.{IsPacket, seal-IsPacket}
use remote_trans.Transport.Clock.{get_timestamp_ms}
use remote_trans.Transport.Send.{
  next_sequence, data_packet, chunk_packet, transmit, remember, send_chunk, send_loop, ht_send_data,
}
use remote_trans.Transport.Send.Stream.{transmit-Accounts}
use remote_trans.Transport.Socket.{ht_create_connection}
use remote_trans.Transport.Invariant.{
  Outgoing, IsConn, next_sequence-IsConn, Accounts-IsConn, with_buffer-IsConn,
}

-- A connection that is created is well formed.
pub create_connection-IsConn :
    (ip : List ℕ) (port : ℤ) (mode : Mode) (w : World) {c : Conn}
    → (ht_create_connection ip port mode w).0 ≡ some c
    → IsConn c
unfolding ht_create_connection
create_connection-IsConn ip port mode w h = ground arith

timestamp-lt : (t : Timeval) → get_timestamp_ms t < 2 ^ 32
unfolding get_timestamp_ms
timestamp-lt t = omega arith

data_packet-IsPacket :
    (c : Conn) (chunk : List ℕ) (now : Timeval)
    → IsConn c
    → length chunk ≤ ht_max_payload_size
    → IsPacket (data_packet c chunk now)
unfolding data_packet blank_packet
data_packet-IsPacket c chunk now v h = record {
  header = record {
    magic = omega arith;
    version = omega arith;
    type = omega arith;
    flags = omega arith;
    sequence = v.send_sequence;
    ack_sequence = v.ack_sequence;
    window_size = v.recv_window;
    payload_size = omega arith;
    timestamp = timestamp-lt now;
    checksum = omega arith;
    reserved = refl;
  };
  filled =
      omega (arith, length-append {0} chunk (replicate (ht_max_payload_size - length chunk) 0));
}

sealed-Outgoing :
    (c : Conn) (chunk : List ℕ) (now sent : Timeval) (limit : ℕ)
    → IsConn c
    → length chunk ≤ ht_max_payload_size
    → Outgoing limit
        (record { packet = seal (data_packet c chunk now); send_time = sent; retransmit_count = 0 })
unfolding seal data_packet blank_packet
sealed-Outgoing c chunk now sent limit v h = record {
  packet = seal-IsPacket (data_packet c chunk now) (data_packet-IsPacket c chunk now v h);
  magic = refl;
  small = h;
  tries = omega arith;
}

transmit-IsConn :
    (fl : Floats) (c : Conn) (chunk : List ℕ) (w : World)
    → IsConn c
    → IsConn (transmit fl c chunk w).conn
transmit-IsConn fl c chunk w v =
    Accounts-IsConn (next_sequence c) _ (transmit-Accounts fl c chunk w) (next_sequence-IsConn c v)

remember-IsConn :
    (c : Conn) (p : Packet) (w : World)
    → IsConn c
    → ((sent : Timeval)
        → Outgoing
            (pos_part c.max_retransmit)
            (record { packet = p; send_time = sent; retransmit_count = 0 }))
    → IsConn (remember c p w).conn
unfolding remember
remember-IsConn c p w v h = elim (Bool-cases (is_neg (reply malloc w).ret)) [
  | inl e ↦ rw e v
  | inr e ↦ rw e (with_buffer-IsConn c _ v (h _, v.outgoing))
]

send_chunk-IsConn :
    (fl : Floats) (c : Conn) (chunk : List ℕ) (w : World)
    → IsConn c
    → length chunk ≤ ht_max_payload_size
    → IsConn (send_chunk fl c chunk w).conn
unfolding send_chunk
send_chunk-IsConn fl c chunk w v h = elim (Bool-cases (is_neg (transmit fl c chunk w).value)) [
  | inl e ↦ rw e (transmit-IsConn fl c chunk w v)
  | inr e ↦ rw e (
      remember-IsConn (transmit fl c chunk w).conn (seal (chunk_packet c chunk w)) _
        (transmit-IsConn fl c chunk w v)
        (λ sent. sealed-Outgoing c chunk (reply gettimeofday w).time sent _ v h))
]

send_loop-IsConn :
    (fl : Floats) (fuel n : ℕ) (rest : List ℕ) (c : Conn) (w : World)
    → IsConn c
    → IsConn (send_loop fl fuel n rest c w).conn
unfolding send_loop
send_loop-IsConn fl zero n rest c w v = v
send_loop-IsConn fl (suc fuel) n rest c w v = elim (Bool-cases (length rest == 0)) [
  | inl e ↦ rw e v
  | inr e ↦ elim (Bool-cases (is_neg (send_chunk fl c chunk w).value)) [
    | inl f ↦ rw (e, f) sent
    | inr f ↦ rw (e, f) (send_loop-IsConn fl fuel _ _ _ _ sent)
  ]
]
  where
    chunk : List ℕ
    chunk = take ht_max_payload_size rest

    sent : IsConn (send_chunk fl c chunk w).conn
    sent =
        send_chunk-IsConn fl c chunk w v (omega (arith, length-take {0} ht_max_payload_size rest))

-- `ht_send_data` keeps the connection well formed, for any data and whatever fails.
pub send_data-IsConn :
    (fl : Floats) (c : Conn) (bytes : List ℕ) (w : World)
    → IsConn c
    → IsConn (ht_send_data fl c bytes w).conn
unfolding ht_send_data
send_data-IsConn fl c bytes w v = ground (arith, send_loop-IsConn fl (length bytes) 0 bytes c w v)
