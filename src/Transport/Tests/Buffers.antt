-- ===== src/Transport/Tests/Buffers.antt =====
-- Tests of the send and receive buffers and of the connection's invariant.
use remote_trans.Base.{
  int_of_bits, ℕ, ◌+◌, ◌%◌, ◌^◌, ◌≤◌, ◌≡◌, ◌⊎◌, inr, refl, true, false, some, List, [], ◌∷◌, ◌++◌,
  pos, minus_one, arith, length, take,
}
use remote_trans.Floats.{f0}
use remote_trans.Transport.Invariant.LossRate.{Reachable-loss}
use remote_trans.World.{after}
use remote_trans.Transport.Types.{Packet, Conn, Step, SendEntry, RecvEntry, udp_only, type_ack}
use remote_trans.Transport.Clock.{time_diff_ms}
use remote_trans.Transport.Statistics.{ht_update_rtt}
use remote_trans.Transport.Send.{ht_send_data}
use remote_trans.Transport.Send.Stream.{stream, Numbered, send_data_stream}
use remote_trans.Transport.Send.Completion.{SendsWork, send_data_complete}
use remote_trans.Transport.Recv.{ht_recv_data, drain}
use remote_trans.Transport.Recv.Delivery.{Split, InOrder, payloads, recv_data_delivers}
use remote_trans.Transport.Recv.Stall.{recv_data_stalls, recv_data_one_at_a_time}
use remote_trans.Transport.Events.{ht_process_events, Session, dispatch}
use remote_trans.Transport.Events.Termination.{SilentFrom, process_events_ends}
use remote_trans.Transport.Events.Acks.{Found, Lacks, ack_removes}
use remote_trans.Transport.Socket.{ht_init, ht_create_connection, ht_connect, ht_disconnect}
use remote_trans.Transport.Invariant.{IsConn}
use remote_trans.Transport.Invariant.Lifetime.{
  Reachable, created, connects, sends, waits, disconnects, Reachable-IsConn,
}
use remote_trans.Transport.Timeout.{ht_handle_timeout}
use remote_trans.Transport.Tests.{floats, open_conn, packet, world, going, noon}

going-SendsWork : SendsWork (world going)
going-SendsWork = record { by_tcp = λ n fd bs. refl; by_udp = λ n fd bs. refl }

-- Nothing ever arrives.
going-SilentFrom : SilentFrom 0 (world going)
going-SilentFrom = record { udp = λ n fd h. refl; tcp = λ n fd h. refl }

send_data_stream_example :
    let r = ht_send_data floats open_conn (1 ∷ 2 ∷ 3 ∷ []) (world going) in
    (k : ℕ) × (entries : List SendEntry) × (r.value ≡ int_of_bits k)
    × (k ≤ 3)
    × (r.conn.send_buffer ≡ entries ++ [])
    × (stream entries ≡ take k (1 ∷ 2 ∷ 3 ∷ []))
    × Numbered 7 entries
send_data_stream_example =
    send_data_stream floats open_conn (1 ∷ 2 ∷ 3 ∷ []) (world going) (λ n. refl) (omega arith) refl
      (omega arith)

send_data_complete_example :
    (ht_send_data floats open_conn (1 ∷ 2 ∷ 3 ∷ []) (world going)).value ≡ pos 3
send_data_complete_example =
    send_data_complete floats open_conn (1 ∷ 2 ∷ 3 ∷ []) (world going) going-SendsWork (inr refl)
      refl (omega arith) (omega arith)

abbrev arrived : ℕ → RecvEntry
arrived n = record {
  packet = record packet { header = record packet.header { sequence = n } };
  recv_time = noon;
  received = true;
}

abbrev waiting : List RecvEntry → Conn
waiting es = record open_conn { recv_buffer = es }

-- Of the numbers 0, 2 and 1 from the newest on, only 0 and 1 follow each other.
recv_data_gap :
    ht_recv_data (waiting (arrived 0 ∷ arrived 2 ∷ arrived 1 ∷ [])) 5
    ≡ (pos 5, 1 ∷ 2 ∷ 3 ∷ 1 ∷ 2 ∷ [], record (waiting (arrived 2 ∷ [])) { recv_sequence = 2 })
unfolding ht_recv_data drain
recv_data_gap = refl

recv_data_delivers_example :
    let (value, out, d) = ht_recv_data (waiting (arrived 0 ∷ arrived 2 ∷ arrived 1 ∷ [])) 5 in
    (removed : List RecvEntry) × Split 5 0
      (arrived 0 ∷ arrived 2 ∷ arrived 1 ∷ [])
      d.recv_buffer
      removed
    × InOrder 0 removed
    × (out ≡ take 5 (payloads removed))
    × (value ≡ int_of_bits (length out))
    × (d.recv_sequence ≡ (0 + length removed) % 2 ^ 32)
recv_data_delivers_example =
    recv_data_delivers (waiting (arrived 0 ∷ arrived 2 ∷ arrived 1 ∷ [])) 5
      (omega arith, (omega arith, (omega arith, tt))) (omega arith) refl (omega arith)

-- The peer started to count at 7.
recv_data_stalls_example :
    ht_recv_data (waiting (arrived 8 ∷ arrived 7 ∷ [])) 10
    ≡ (pos 0, [], waiting (arrived 8 ∷ arrived 7 ∷ []))
recv_data_stalls_example =
    recv_data_stalls (waiting (arrived 8 ∷ arrived 7 ∷ [])) 10 refl (omega arith)
      (omega arith, (omega arith, tt))

recv_data_one_at_a_time_example :
    2 ≤ length (ht_recv_data (waiting (arrived 1 ∷ arrived 0 ∷ [])) 10).2.recv_buffer + 1
recv_data_one_at_a_time_example =
    recv_data_one_at_a_time (waiting (arrived 1 ∷ arrived 0 ∷ [])) 10 refl (omega arith)
      ((omega arith, tt), (tt, tt)) (omega arith)

process_events_ends_example : (r : Step) × (ht_process_events 1 [] open_conn (world going) ≡ some r)
process_events_ends_example =
    process_events_ends 0 1 [] open_conn (world going) going-SilentFrom (omega arith) (omega arith)

abbrev unacked : Conn
unacked = record open_conn {
  send_buffer = record { packet = packet; send_time = noon; retransmit_count = 0 } ∷ [];
}

abbrev ack : Packet
ack = record packet {
  header = record packet.header { type = type_ack; ack_sequence = 7; payload_size = 0 };
}

abbrev acknowledging : Session
acknowledging = record { conn = unacked; world = world going }

ack_removes_example :
    ((v : Found 7 unacked.send_buffer) × ((dispatch ack false acknowledging).conn ≡ record unacked {
      stats = ht_update_rtt (time_diff_ms v.entry.send_time noon) unacked.stats;
      send_buffer = v.before ++ v.behind;
    }))
    ⊎ (Lacks 7 unacked.send_buffer × (dispatch ack false acknowledging ≡ acknowledging))
ack_removes_example = ack_removes ack false acknowledging refl

abbrev fresh : Conn
fresh = record open_conn {
  udp_fd = minus_one;
  tcp_fd = minus_one;
  remote_addr = record { ip = 49 ∷ []; port = 3389 };
  send_sequence = 5;
  is_connected = false;
}

-- Created, connected, used, left to wait and closed.
abbrev used : Conn
used =
    (ht_disconnect
      (ht_handle_timeout
        (ht_send_data floats (ht_connect fresh (world going)).conn (1 ∷ 2 ∷ []) (world going)).conn
        (world going)).conn
      (world going)).conn

used-Reachable : Reachable used
unfolding ht_create_connection ht_init after
used-Reachable = disconnects (world going) (
    waits (world going) (
      sends floats (1 ∷ 2 ∷ []) (world going)
        (connects (world going) (created (49 ∷ []) (pos 3389) udp_only (world going) refl))))

Reachable-IsConn_example : IsConn used
Reachable-IsConn_example = Reachable-IsConn used-Reachable

Reachable-loss_example : used.stats.packet_loss_rate ≡ f0
Reachable-loss_example = Reachable-loss used-Reachable
