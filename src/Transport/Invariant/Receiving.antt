-- ===== src/Transport/Invariant/Receiving.antt =====
-- The invariant under `ht_process_events` and `ht_recv_data`.
use remote_trans.Base.{
  ℕ, zero, suc, ◌+◌, ◌%◌, ◌^◌, ◌<◌, ◌≡◌, subst, Bool, true, false, some, List, [], ◌∷◌, ◌++◌,
  pos_part, arith, is_pos, All, Bool-cases, ◌-◌, min, inl, inr,
}
use remote_trans.World.{World, after, gettimeofday}
use remote_trans.Transport.Types.{Packet, RecvEntry, Conn, Step}
use remote_trans.Transport.Wire.{decode}
use remote_trans.Transport.Send.{next_sequence}
use remote_trans.Transport.Send.Frame.{Accounts, send_packet-Keeps}
use remote_trans.Transport.Recv.{
  Poll, Received, poll_udp, poll_tcp, validate, ht_recv_packet, drain, ht_recv_data,
}
use remote_trans.Transport.Events.{
  Session, ack_packet, store, on_data, on_ack, on_heartbeat, on_control, dispatch, events_loop,
  ht_process_events,
}
use remote_trans.Transport.Events.Acks.{take_acked-cases, on_ack-found, on_ack-none}
use remote_trans.Transport.Invariant.{Outgoing, IsConn, next_sequence-IsConn, Accounts-IsConn}

validate-Accounts : (c : Conn) (t : Poll) → Accounts c (validate c t).conn
unfolding validate
validate-Accounts c t = ground arith

recv_packet-Accounts :
    (c : Conn) (buf : List ℕ) (w : World) → Accounts c (ht_recv_packet c buf w).conn
unfolding ht_recv_packet
recv_packet-Accounts c buf w = ground (arith, validate-Accounts c (poll_tcp c (poll_udp c buf w)))

-- The receive buffer is no part of the invariant.
store-IsConn : (p : Packet) (s : Session) → IsConn s.conn → IsConn (store p s).conn
unfolding store
store-IsConn p s v = ground arith

on_data-IsConn :
    (p : Packet) (tcp : Bool) (s : Session) → IsConn s.conn → IsConn (on_data p tcp s).conn
unfolding on_data
on_data-IsConn p tcp s v = store-IsConn p _ (
    Accounts-IsConn (next_sequence s.conn) _
      (send_packet-Keeps (next_sequence s.conn) (ack_packet s.conn p s.world) tcp
        (after gettimeofday s.world)).conn
      (next_sequence-IsConn s.conn v))

All-without {ℓ κ} :
    {A : Type ℓ} (P : A → Type κ) (xs : List A) (y : A) (ys : List A)
    → All P (xs ++ y ∷ ys)
    → All P (xs ++ ys)
All-without P [] y ys v = v.1
All-without P (x ∷ xs) y ys v = (v.0, All-without P xs y ys v.1)

on_ack-IsConn : (p : Packet) (s : Session) → IsConn s.conn → IsConn (on_ack p s).conn
on_ack-IsConn p s v = elim (take_acked-cases p.header.ack_sequence s.conn.send_buffer) [
  | inl f ↦ rw (on_ack-found p s f.entry _ f.taken) (record {
    send_sequence = v.send_sequence;
    recv_sequence = v.recv_sequence;
    ack_sequence = v.ack_sequence;
    recv_window = v.recv_window;
    outgoing =
        All-without (Outgoing (pos_part s.conn.max_retransmit)) f.before f.entry f.behind
          (subst (All (Outgoing (pos_part s.conn.max_retransmit))) f.split v.outgoing);
  })
  | inr f ↦ rw (on_ack-none p s f.1) v
]

dispatch-IsConn :
    (p : Packet) (tcp : Bool) (s : Session) → IsConn s.conn → IsConn (dispatch p tcp s).conn
unfolding dispatch on_heartbeat on_control
dispatch-IsConn p tcp s v = ground (arith, on_data-IsConn p tcp s v, on_ack-IsConn p s v)

events_loop-IsConn :
    (fuel processed : ℕ) (buf : List ℕ) (s : Session) {r : Step}
    → IsConn s.conn
    → events_loop fuel processed buf s ≡ some r
    → IsConn r.conn
unfolding events_loop
events_loop-IsConn zero processed buf s v h = cc
events_loop-IsConn (suc fuel) processed buf s {r} v h = elim (Bool-cases (is_pos got.value)) [
  | inl e ↦
      events_loop-IsConn fuel (processed + 1) got.buf next {r = r}
        (dispatch-IsConn (decode got.buf) got.from_tcp
          (record { conn = got.conn; world = got.world }) received)
        (more e)
  | inr e ↦ subst IsConn (over e) received
]
  where
    got : Received
    got = ht_recv_packet s.conn buf s.world

    next : Session
    next = dispatch (decode got.buf) got.from_tcp (record { conn = got.conn; world = got.world })

    more : is_pos got.value ≡ true → events_loop fuel (processed + 1) got.buf next ≡ some r
    more e = ground (arith, h, e)

    over : is_pos got.value ≡ false → got.conn ≡ r.conn
    over e = ground (arith, h, e)

    received : IsConn got.conn
    received = Accounts-IsConn s.conn got.conn (recv_packet-Accounts s.conn buf s.world) v

-- Whatever arrives, `ht_process_events` keeps the connection well formed.
pub process_events-IsConn :
    (fuel : ℕ) (buf : List ℕ) (c : Conn) (w : World) {r : Step}
    → IsConn c
    → ht_process_events fuel buf c w ≡ some r
    → IsConn r.conn
unfolding ht_process_events
process_events-IsConn fuel buf c w {r} v h = elim (Bool-cases c.is_connected) [
  | inl e ↦ events_loop-IsConn fuel 0 buf (record { conn = c; world = w }) v (simp e at h)
  | inr e ↦ subst IsConn (ground (arith, h, e)) v
]

drain-sequence-lt :
    (es : List RecvEntry) (room n : ℕ) → n < 2 ^ 32 → (drain es room n).sequence < 2 ^ 32
unfolding drain
drain-sequence-lt [] room n h = h
drain-sequence-lt (e ∷ es) room n h = ground (
  arith,
  drain-sequence-lt es room n h,
  drain-sequence-lt es (room - min e.packet.header.payload_size room) ((n + 1) % 2 ^ 32)
      (omega arith),
)

-- So does `ht_recv_data`.
pub recv_data-IsConn : (c : Conn) (size : ℕ) → IsConn c → IsConn (ht_recv_data c size).2
unfolding ht_recv_data
recv_data-IsConn c size v =
    ground (arith, drain-sequence-lt c.recv_buffer size c.recv_sequence v.recv_sequence)
