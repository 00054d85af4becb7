-- ===== src/Transport/Invariant.antt =====
-- The well-formedness of a connection of hybrid_transport.c: the sequence numbers fit their fields,
-- and each packet that waits for its acknowledgement can be put on the wire without reading beyond it
-- and has not been sent again too often.
pub mod Sending
pub mod Receiving
pub mod Timers
pub mod Lifetime
pub mod LossRate
use remote_trans.Base.{ℕ, ◌+◌, ◌%◌, ◌^◌, ◌≤◌, ◌<◌, ◌≡◌, pos_part, arith, All, subst, sym, List}
use remote_trans.Transport.Types.{SendEntry, Conn, ht_magic, ht_max_payload_size}
use remote_trans.Transport.Wire.Seal.{IsPacket}
use remote_trans.Transport.Send.{next_sequence}
use remote_trans.Transport.Send.Frame.{Accounts}

-- `limit` is the number of retransmissions allowed.
pub record Outgoing (limit : ℕ) (e : SendEntry) : Type 0 where
  pub packet : IsPacket e.packet
  pub magic : e.packet.header.magic ≡ ht_magic
  pub small : e.packet.header.payload_size ≤ ht_max_payload_size
  pub tries : e.retransmit_count ≤ limit

pub record IsConn (c : Conn) : Type 0 where
  pub send_sequence : c.send_sequence < 2 ^ 32
  pub recv_sequence : c.recv_sequence < 2 ^ 32
  pub ack_sequence : c.ack_sequence < 2 ^ 32
  pub recv_window : c.recv_window_size < 2 ^ 16
  pub outgoing : All (Outgoing (pos_part c.max_retransmit)) c.send_buffer

pub next_sequence-IsConn : (c : Conn) → IsConn c → IsConn (next_sequence c)
next_sequence-IsConn c v = record {
  send_sequence = omega arith;
  recv_sequence = v.recv_sequence;
  ack_sequence = v.ack_sequence;
  recv_window = v.recv_window;
  outgoing = v.outgoing;
}

-- Accounting touches none of these.
pub Accounts-IsConn : (c d : Conn) → Accounts c d → IsConn c → IsConn d
Accounts-IsConn c d h v = subst IsConn (sym h) same
  where
    same : IsConn (record c { stats = d.stats; last_activity = d.last_activity })
    same = record {
      send_sequence = v.send_sequence;
      recv_sequence = v.recv_sequence;
      ack_sequence = v.ack_sequence;
      recv_window = v.recv_window;
      outgoing = v.outgoing;
    }

-- A changed send buffer.
pub with_buffer-IsConn :
    (c : Conn) (es : List SendEntry)
    → IsConn c
    → All (Outgoing (pos_part c.max_retransmit)) es
    → IsConn (record c { send_buffer = es })
with_buffer-IsConn c es v h = record {
  send_sequence = v.send_sequence;
  recv_sequence = v.recv_sequence;
  ack_sequence = v.ack_sequence;
  recv_window = v.recv_window;
  outgoing = h;
}
