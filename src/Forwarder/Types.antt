-- ===== src/Forwarder/Types.antt =====
-- rdp_forwarder.c: a connection pair, the table of pairs, and the configuration.
use remote_trans.Base.{ℕ, Bool, Option, List, ℤ}
use remote_trans.World.{World}
use remote_trans.Transport.Types.{Mode, Conn}

pub data ConnState : Type 0 where
  init connecting connected active client_disconnected target_disconnected reconnecting error
        closing :
      ConnState

-- The values of the C enumeration.
abbrev pub state_number : ConnState → ℕ
state_number init = 0
state_number connecting = 1
state_number connected = 2
state_number active = 3
state_number client_disconnected = 4
state_number target_disconnected = 5
state_number reconnecting = 6
state_number error = 7
state_number closing = 8

-- A null `ht_conn` is `none`. `target_ip` and `last_error` are the characters of the C strings.
pub record Pair : Type 0 where
  pub client_fd : ℤ
  pub target_fd : ℤ
  pub target_ip : List ℕ
  pub last_activity : ℕ
  pub is_active : Bool
  pub bytes_sent : ℕ
  pub bytes_received : ℕ
  pub ht_conn : Option Conn
  pub use_hybrid_transport : Bool
  pub client_disconnected : Bool
  pub target_ready : Bool
  pub disconnect_time : ℕ
  pub reconnect_attempts : ℤ
  pub state : ConnState
  pub state_change_time : ℕ
  pub connection_start_time : ℕ
  pub last_error : List ℕ
  pub error_count : ℤ

-- `config_t`. Strings are their characters, `int` fields are integers, and `udp_preference` is a bit
-- pattern.
pub record Config : Type 0 where
  pub target_ip : List ℕ
  pub target_port : ℤ
  pub listen_port : ℤ
  pub listen_interface : List ℕ
  pub max_clients : ℤ
  pub connection_timeout : ℤ
  pub reconnect_interval : ℤ
  pub verbose_logging : ℤ
  pub buffer_size : ℤ
  pub socket_timeout : ℤ
  pub enable_stats : ℤ
  pub stats_interval : ℤ
  pub log_file : List ℕ
  pub transport_mode : Mode
  pub udp_preference : ℕ
  pub retransmit_timeout : ℤ
  pub max_retransmit : ℤ
  pub heartbeat_interval : ℤ
  pub enable_fast_reconnect : ℤ
  pub keep_target_alive : ℤ
  pub reconnect_delay : ℤ
  pub max_reconnect_attempts : ℤ
  pub connection_pool_size : ℤ

-- `connections` and `connection_count`.
pub record Pool : Type 0 where
  pub connections : List Pair
  pub connection_count : ℕ

-- What an operation on a pair leaves.
pub record Served : Type 0 where
  pub value : ℤ
  pub pair : Pair
  pub world : World
