-- ===== src/Transport/Types.antt =====
-- hybrid_transport.h: the protocol's constants and structures.
use remote_trans.Base.{ℕ, ◌^◌, ◌-◌, Bool, List, ℤ}
use remote_trans.World.{Timeval, World}

abbrev pub ht_magic : ℕ
ht_magic = 0x48545250

abbrev pub ht_max_payload_size : ℕ
ht_max_payload_size = 1350

abbrev pub ht_max_sequence : ℕ
ht_max_sequence = 0xFFFFFFFF

abbrev pub ht_retransmit_timeout : ℕ
ht_retransmit_timeout = 100

abbrev pub ht_max_retransmit : ℕ
ht_max_retransmit = 3

abbrev pub ht_window_size : ℕ
ht_window_size = 64

abbrev pub ht_heartbeat_interval : ℕ
ht_heartbeat_interval = 1000

-- `sizeof(ht_packet_header_t)` and `sizeof(ht_packet_t)`: the structures are packed.
abbrev pub sizeof_header : ℕ
sizeof_header = 36

abbrev pub sizeof_packet : ℕ
sizeof_packet = 1386

abbrev pub uint32_max : ℕ
uint32_max = 2 ^ 32 - 1

-- `ht_packet_type_t`. The header's field is a byte that a peer fills in, so these are numbers.
abbrev pub type_data : ℕ
type_data = 1

abbrev pub type_ack : ℕ
type_ack = 2

abbrev pub type_heartbeat : ℕ
type_heartbeat = 4

abbrev pub type_control : ℕ
type_control = 5

pub data Mode : Type 0 where
  udp_only tcp_only hybrid auto : Mode

pub record Header : Type 0 where
  pub magic : ℕ
  pub version : ℕ
  pub type : ℕ
  pub flags : ℕ
  pub sequence : ℕ
  pub ack_sequence : ℕ
  pub window_size : ℕ
  pub payload_size : ℕ
  pub timestamp : ℕ
  pub checksum : ℕ
  pub reserved : List ℕ

pub record Packet : Type 0 where
  pub header : Header
  pub payload : List ℕ

-- The `next` pointers are the order of the lists that hold the entries.
pub record SendEntry : Type 0 where
  pub packet : Packet
  pub send_time : Timeval
  pub retransmit_count : ℕ

pub record RecvEntry : Type 0 where
  pub packet : Packet
  pub recv_time : Timeval
  pub received : Bool

-- The three `float` fields hold bit patterns.
pub record Stats : Type 0 where
  pub packets_sent : ℕ
  pub packets_received : ℕ
  pub packets_lost : ℕ
  pub packets_retransmitted : ℕ
  pub bytes_sent : ℕ
  pub bytes_received : ℕ
  pub rtt_avg : ℕ
  pub rtt_min : ℕ
  pub rtt_max : ℕ
  pub packet_loss_rate : ℕ
  pub udp_ratio : ℕ
  pub tcp_ratio : ℕ

-- `sin_addr` as the text that `inet_pton` accepted, and `sin_port`.
pub record Address : Type 0 where
  pub ip : List ℕ
  pub port : ℕ

pub record Conn : Type 0 where
  pub udp_fd : ℤ
  pub tcp_fd : ℤ
  pub remote_addr : Address
  pub mode : Mode
  pub send_sequence : ℕ
  pub recv_sequence : ℕ
  pub ack_sequence : ℕ
  pub send_buffer : List SendEntry
  pub recv_buffer : List RecvEntry
  pub send_window_size : ℕ
  pub recv_window_size : ℕ
  pub last_heartbeat : Timeval
  pub last_activity : Timeval
  pub stats : Stats
  pub is_connected : Bool
  pub is_closing : Bool
  pub retransmit_timeout : ℤ
  pub max_retransmit : ℤ
  pub udp_preference : ℕ

-- What an operation on a connection leaves: its return value, the connection, the world.
pub record Step : Type 0 where
  pub value : ℤ
  pub conn : Conn
  pub world : World
