-- ===== src/Transport/Events.antt =====
-- hybrid_transport.c: `ht_process_events`, with a function for each case of its switch.
pub mod Acks
pub mod Termination
use remote_trans.Base.{
  ℕ, zero, suc, ◌+◌, ◌%◌, Bool, true, false, Option, none, some, List, [], ◌∷◌, pos, minus_one,
  is_neg, is_pos, ◌==◌, if◌then◌else◌,
}
use remote_trans.World.{World, reply, after, gettimeofday, malloc}
use remote_trans.Transport.Types.{
  Packet, SendEntry, Conn, Step, type_data, type_ack, type_heartbeat, type_control,
}
use remote_trans.Transport.Wire.{blank_packet, decode}
use remote_trans.Transport.Clock.{get_timestamp_ms, time_diff_ms}
use remote_trans.Transport.Statistics.{ht_update_rtt}
use remote_trans.Transport.Send.{ht_send_packet, next_sequence}
use remote_trans.Transport.Recv.{ht_recv_packet}

-- The state of the loop.
pub record Session : Type 0 where
  pub conn : Conn
  pub world : World

abbrev pub session : Step → Session
session s = record { conn = s.conn; world = s.world }

unfoldable pub ack_packet : Conn → Packet → World → Packet
ack_packet c p w =
    let a = blank_packet type_ack c.send_sequence (get_timestamp_ms (reply gettimeofday w).time) in
    record a { header = record a.header { ack_sequence = p.header.sequence } }

-- `malloc` an entry for a received packet and link it in at the head.
unfoldable pub store : Packet → Session → Session
store p s =
    if is_neg (reply malloc s.world).ret
    then record s { world = after malloc s.world }
    else let w = after malloc s.world in
      record {
        conn = record s.conn {
          recv_buffer =
              record { packet = p; recv_time = (reply gettimeofday w).time; received = true }
              ∷ s.conn.recv_buffer;
        };
        world = after gettimeofday w;
      }

-- HT_TYPE_DATA: acknowledge on the channel that the packet came by, then store it.
unfoldable pub on_data : Packet → Bool → Session → Session
on_data p from_tcp s = store p (
    session (
      ht_send_packet (next_sequence s.conn) (ack_packet s.conn p s.world) from_tcp
        (after gettimeofday s.world)))

-- The first entry with the sequence number, and the list without it.
unfoldable pub take_acked : ℕ → List SendEntry → Option (SendEntry × List SendEntry)
take_acked seq [] = none
take_acked seq (e ∷ es) =
    let rest = take_acked seq es in
    if e.packet.header.sequence == seq
    then some (e, es)
    else elim rest [ none ↦ none | some (a, kept) ↦ some (a, e ∷ kept) ]

-- HT_TYPE_ACK: the round-trip time of the acknowledged packet is a sample.
unfoldable pub on_ack : Packet → Session → Session
on_ack p s = elim (take_acked p.header.ack_sequence s.conn.send_buffer) [
  | none ↦ s
  | some (e, kept) ↦ record {
    conn = record s.conn {
      stats =
          ht_update_rtt (time_diff_ms e.send_time (reply gettimeofday s.world).time) s.conn.stats;
      send_buffer = kept;
    };
    world = after gettimeofday s.world;
  }
]

unfoldable pub on_heartbeat : Session → Session
on_heartbeat s = record {
  conn = record s.conn { last_activity = (reply gettimeofday s.world).time };
  world = after gettimeofday s.world;
}

-- HT_TYPE_CONTROL: bit 0 of the flags is the close flag.
unfoldable pub on_control : Packet → Session → Session
on_control p s =
    if p.header.flags % 2 == 1
    then record s { conn = record s.conn { is_connected = false } }
    else s

unfoldable pub dispatch : Packet → Bool → Session → Session
dispatch p from_tcp s =
    if p.header.type == type_data
    then on_data p from_tcp s
    else if p.header.type == type_ack
    then on_ack p s
    else if p.header.type == type_heartbeat
    then on_heartbeat s
    else if p.header.type == type_control
    then on_control p s
    else s

-- `while (ht_recv_packet(...) > 0)`. `none` means that the fuel ran out.
unfoldable pub events_loop : ℕ → ℕ → List ℕ → Session → Option Step
events_loop zero processed buf s = none
events_loop (suc fuel) processed buf s =
    let r = ht_recv_packet s.conn buf s.world in
    let more =
      events_loop fuel (processed + 1) r.buf
        (dispatch (decode r.buf) r.from_tcp (record { conn = r.conn; world = r.world })) in
    if is_pos r.value
    then more
    else some (record { value = pos processed; conn = r.conn; world = r.world })

-- The local packet is not initialised; `buf` is the memory that it finds.
unfoldable pub ht_process_events : ℕ → List ℕ → Conn → World → Option Step
ht_process_events fuel buf c w =
    if c.is_connected
    then events_loop fuel 0 buf (record { conn = c; world = w })
    else some (record { value = minus_one; conn = c; world = w })
