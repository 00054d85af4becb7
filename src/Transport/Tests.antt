-- ===== src/Transport/Tests.antt =====
-- Concrete connections, packets and systems for the tests of hybrid_transport.c. The modules below
-- use them.
mod Messages
mod Buffers
mod Timers
use remote_trans.Base.{
  ℕ, ◌+◌, Bool, true, false, List, [], ◌∷◌, ℤ, pos, minus_one, replicate, length,
}
use remote_trans.Floats.{Floats, f0_8}
use remote_trans.World.{
  Timeval, Reply, Call, World, sendto, recvfrom, send, recv, gettimeofday, malloc,
}
use remote_trans.Transport.Types.{
  Mode, udp_only, Packet, Header, SendEntry, RecvEntry, Conn, type_data, ht_magic,
}
use remote_trans.Transport.Statistics.{empty_stats}
use remote_trans.Transport.Wire.{blank_packet, seal, wire_bytes}

-- Any arithmetic will do.
abbrev pub floats : Floats
floats = record {
  add = λ x y. x;
  sub = λ x y. x;
  div = λ x y. x;
  lt = λ x y. false;
  of_nat = λ n. n;
  atof = λ bs. 0;
}

abbrev pub noon : Timeval
noon = record { sec = 43200; usec = 500 }

abbrev pub later : ℕ → Timeval
later n = record { sec = 43200 + n; usec = 500 }

-- A call's answer that brings no data.
abbrev pub answer : ℤ → Timeval → Reply
answer n t = record { ret = n; errno = 11; bytes = []; time = t }

abbrev pub world : (ℕ → Call → Reply) → World
world f = record {
  script = f;
  tick = 0;
  errno = 0;
  calls = [];
  faulted = false;
  initialized = false;
  behind = λ n. [];
}

abbrev pub open_conn : Conn
open_conn = record {
  udp_fd = pos 3;
  tcp_fd = pos 4;
  remote_addr = record { ip = 49 ∷ []; port = 3389 };
  mode = udp_only;
  send_sequence = 7;
  recv_sequence = 0;
  ack_sequence = 0;
  send_buffer = [];
  recv_buffer = [];
  send_window_size = 64;
  recv_window_size = 64;
  last_heartbeat = noon;
  last_activity = noon;
  stats = empty_stats;
  is_connected = true;
  is_closing = false;
  retransmit_timeout = pos 100;
  max_retransmit = pos 3;
  udp_preference = f0_8;
}

-- A data packet with the payload 1, 2, 3.
abbrev pub packet : Packet
packet = record {
  header = record {
    magic = ht_magic;
    version = 1;
    type = type_data;
    flags = 0;
    sequence = 7;
    ack_sequence = 0;
    window_size = 64;
    payload_size = 3;
    timestamp = 5;
    checksum = 0;
    reserved = replicate 8 0;
  };
  payload = 1 ∷ 2 ∷ 3 ∷ [];
}

-- A system where sending succeeds, nothing arrives and it is noon.
abbrev pub going : ℕ → Call → Reply
going n c = elim c [
  | send fd bs ↦ answer (pos (length bs)) noon
  | sendto fd bs ↦ answer (pos (length bs)) noon
  | recv fd ↦ answer minus_one noon
  | recvfrom fd ↦ answer minus_one noon
  | _ ↦ answer (pos 5) noon
]

-- The same, but a datagram waits.
abbrev pub bringing : List ℕ → ℕ → Call → Reply
bringing bs n (recvfrom fd) = record { ret = pos (length bs); errno = 0; bytes = bs; time = noon }
bringing bs n c = going n c
