-- ===== src/Forwarder/Config/Settings.antt =====
-- The settings of a configuration file, as a user of the file sees them.
use remote_trans.Base.{
  ℕ, ◌≡◌, refl, List, [], ◌∷◌, ◌==◌, ℤ, take, codes, if◌then◌else◌, same_text, arith,
}
use remote_trans.Floats.{Floats, f0, f1}
use remote_trans.Transport.Types.{Mode, udp_only, tcp_only, hybrid, auto}
use remote_trans.Forwarder.Types.{Config}
use remote_trans.Forwarder.Config.{
  Key, atoi, assign, target_ip, target_port, listen_port, listen_interface, max_clients,
  connection_timeout, reconnect_interval, verbose_logging, buffer_size, socket_timeout,
  enable_stats, stats_interval, log_file, transport_mode, udp_preference, retransmit_timeout,
  max_retransmit, heartbeat_interval, enable_fast_reconnect, keep_target_alive, reconnect_delay,
  max_reconnect_attempts, connection_pool_size,
}

-- The names under which the settings stand in a file.
abbrev pub name : Key → List ℕ
name target_ip = codes "target_ip"
name target_port = codes "target_port"
name listen_port = codes "listen_port"
name listen_interface = codes "listen_interface"
name max_clients = codes "max_clients"
name connection_timeout = codes "connection_timeout"
name reconnect_interval = codes "reconnect_interval"
name verbose_logging = codes "verbose_logging"
name buffer_size = codes "buffer_size"
name socket_timeout = codes "socket_timeout"
name enable_stats = codes "enable_stats"
name stats_interval = codes "stats_interval"
name log_file = codes "log_file"
name transport_mode = codes "transport_mode"
name udp_preference = codes "udp_preference"
name retransmit_timeout = codes "retransmit_timeout"
name max_retransmit = codes "max_retransmit"
name heartbeat_interval = codes "heartbeat_interval"
name enable_fast_reconnect = codes "enable_fast_reconnect"
name keep_target_alive = codes "keep_target_alive"
name reconnect_delay = codes "reconnect_delay"
name max_reconnect_attempts = codes "max_reconnect_attempts"
name connection_pool_size = codes "connection_pool_size"

pub data Setting : Type 0 where
  number : ℤ → Setting
  text : List ℕ → Setting
  mode : Mode → Setting
  fraction : ℕ → Setting

-- The setting that a configuration has.
abbrev pub setting_of : Key → Config → Setting
setting_of target_ip c = text c.target_ip
setting_of target_port c = number c.target_port
setting_of listen_port c = number c.listen_port
setting_of listen_interface c = text c.listen_interface
setting_of max_clients c = number c.max_clients
setting_of connection_timeout c = number c.connection_timeout
setting_of reconnect_interval c = number c.reconnect_interval
setting_of verbose_logging c = number c.verbose_logging
setting_of buffer_size c = number c.buffer_size
setting_of socket_timeout c = number c.socket_timeout
setting_of enable_stats c = number c.enable_stats
setting_of stats_interval c = number c.stats_interval
setting_of log_file c = text c.log_file
setting_of transport_mode c = mode c.transport_mode
setting_of udp_preference c = fraction c.udp_preference
setting_of retransmit_timeout c = number c.retransmit_timeout
setting_of max_retransmit c = number c.max_retransmit
setting_of heartbeat_interval c = number c.heartbeat_interval
setting_of enable_fast_reconnect c = number c.enable_fast_reconnect
setting_of keep_target_alive c = number c.keep_target_alive
setting_of reconnect_delay c = number c.reconnect_delay
setting_of max_reconnect_attempts c = number c.max_reconnect_attempts
setting_of connection_pool_size c = number c.connection_pool_size

-- What a value means for a setting: a number, a text as far as its field has room, the name of a mode
-- (another word leaves the mode as it is), or a fraction that is kept between 0 and 1.
abbrev within_0_1 : Floats → ℕ → ℕ
within_0_1 fl x = let low = if fl.lt x f0 then f0 else x in if fl.lt f1 low then f1 else low

abbrev mode_named : List ℕ → Setting → Setting
mode_named value old =
    if same_text value (codes "udp")
    then mode udp_only
    else if same_text value (codes "tcp")
    then mode tcp_only
    else if same_text value (codes "hybrid")
    then mode hybrid
    else if same_text value (codes "auto")
    then mode auto
    else old

abbrev pub meaning : Floats → Key → List ℕ → Setting → Setting
meaning fl target_ip v old = text (take 15 v)
meaning fl target_port v old = number (atoi v)
meaning fl listen_port v old = number (atoi v)
meaning fl listen_interface v old = text (take 15 v)
meaning fl max_clients v old = number (atoi v)
meaning fl connection_timeout v old = number (atoi v)
meaning fl reconnect_interval v old = number (atoi v)
meaning fl verbose_logging v old = number (atoi v)
meaning fl buffer_size v old = number (atoi v)
meaning fl socket_timeout v old = number (atoi v)
meaning fl enable_stats v old = number (atoi v)
meaning fl stats_interval v old = number (atoi v)
meaning fl log_file v old = text (take 255 v)
meaning fl transport_mode v old = mode_named v old
meaning fl udp_preference v old = fraction (within_0_1 fl (fl.atof v))
meaning fl retransmit_timeout v old = number (atoi v)
meaning fl max_retransmit v old = number (atoi v)
meaning fl heartbeat_interval v old = number (atoi v)
meaning fl enable_fast_reconnect v old = number (atoi v)
meaning fl keep_target_alive v old = number (atoi v)
meaning fl reconnect_delay v old = number (atoi v)
meaning fl max_reconnect_attempts v old = number (atoi v)
meaning fl connection_pool_size v old = number (atoi v)

abbrev pub index : Key → ℕ
index target_ip = 0
index target_port = 1
index listen_port = 2
index listen_interface = 3
index max_clients = 4
index connection_timeout = 5
index reconnect_interval = 6
index verbose_logging = 7
index buffer_size = 8
index socket_timeout = 9
index enable_stats = 10
index stats_interval = 11
index log_file = 12
index transport_mode = 13
index udp_preference = 14
index retransmit_timeout = 15
index max_retransmit = 16
index heartbeat_interval = 17
index enable_fast_reconnect = 18
index keep_target_alive = 19
index reconnect_delay = 20
index max_reconnect_attempts = 21
index connection_pool_size = 22

-- The setting `k` after the lines of a file, when it has been `old` before: the last line for it counts.
abbrev pub outcome : Floats → Key → List (Key × List ℕ) → Setting → Setting
outcome fl k [] old = old
outcome fl k ((j, value) ∷ es) old =
    outcome fl k es (if index j == index k then meaning fl k value old else old)

-- A line makes its setting, and no other.
pub assign-setting :
    (fl : Floats) (j k : Key) (value : List ℕ) (c : Config)
    → setting_of k (assign fl j value c)
      ≡ (if index j == index k then meaning fl k value (setting_of k c) else setting_of k c)
unfolding assign
assign-setting fl target_ip target_ip value c = refl
assign-setting fl target_ip k value c = refl
assign-setting fl target_port target_port value c = refl
assign-setting fl target_port k value c = refl
assign-setting fl listen_port listen_port value c = refl
assign-setting fl listen_port k value c = refl
assign-setting fl listen_interface listen_interface value c = refl
assign-setting fl listen_interface k value c = refl
assign-setting fl max_clients max_clients value c = refl
assign-setting fl max_clients k value c = refl
assign-setting fl connection_timeout connection_timeout value c = refl
assign-setting fl connection_timeout k value c = refl
assign-setting fl reconnect_interval reconnect_interval value c = refl
assign-setting fl reconnect_interval k value c = refl
assign-setting fl verbose_logging verbose_logging value c = refl
assign-setting fl verbose_logging k value c = refl
assign-setting fl buffer_size buffer_size value c = refl
assign-setting fl buffer_size k value c = refl
assign-setting fl socket_timeout socket_timeout value c = refl
assign-setting fl socket_timeout k value c = refl
assign-setting fl enable_stats enable_stats value c = refl
assign-setting fl enable_stats k value c = refl
assign-setting fl stats_interval stats_interval value c = refl
assign-setting fl stats_interval k value c = refl
assign-setting fl log_file log_file value c = refl
assign-setting fl log_file k value c = refl
assign-setting fl transport_mode transport_mode value c = ground arith
assign-setting fl transport_mode k value c = refl
assign-setting fl udp_preference udp_preference value c = refl
assign-setting fl udp_preference k value c = refl
assign-setting fl retransmit_timeout retransmit_timeout value c = refl
assign-setting fl retransmit_timeout k value c = refl
assign-setting fl max_retransmit max_retransmit value c = refl
assign-setting fl max_retransmit k value c = refl
assign-setting fl heartbeat_interval heartbeat_interval value c = refl
assign-setting fl heartbeat_interval k value c = refl
assign-setting fl enable_fast_reconnect enable_fast_reconnect value c = refl
assign-setting fl enable_fast_reconnect k value c = refl
assign-setting fl keep_target_alive keep_target_alive value c = refl
assign-setting fl keep_target_alive k value c = refl
assign-setting fl reconnect_delay reconnect_delay value c = refl
assign-setting fl reconnect_delay k value c = refl
assign-setting fl max_reconnect_attempts max_reconnect_attempts value c = refl
assign-setting fl max_reconnect_attempts k value c = refl
assign-setting fl connection_pool_size connection_pool_size value c = refl
assign-setting fl connection_pool_size k value c = refl
