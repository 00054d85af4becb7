-- ===== src/Forwarder/Config.antt =====
-- rdp_forwarder.c: `init_config` and `load_config`. The C library's `atoi` is the conversion by
-- `strtol` of a 64-bit Linux, cut to an `int`.
pub mod Settings
pub mod Loading
pub mod Sizes
use remote_trans.Base.{
  ℕ, zero, suc, ◌+◌, ◌-◌, ◌*◌, ◌%◌, ◌^◌, Bool, true, false, ◌&&◌, ◌||◌, Option, none, some, List,
  [], ◌∷◌, ◌==◌, ℤ, pos, negsuc, ltb, leb, min, if◌then◌else◌, take, length, codes, same_text,
  int_of_bits,
}
use remote_trans.Floats.{Floats, f0, f1}
use remote_trans.World.{World}
use remote_trans.Transport.Types.{Mode, udp_only, tcp_only, hybrid, auto}
use remote_trans.Forwarder.Types.{Config}
use remote_trans.Forwarder.Lines.{Line, skipped, invalid, setting, read_line}

abbrev pub init_config : Config
init_config = record {
  target_ip = codes "192.168.192.100";
  target_port = pos 3389;
  listen_port = pos 3389;
  listen_interface = codes "0.0.0.0";
  max_clients = pos 10;
  connection_timeout = pos 300;
  reconnect_interval = pos 5;
  verbose_logging = pos 1;
  buffer_size = pos 8192;
  socket_timeout = pos 30;
  enable_stats = pos 1;
  stats_interval = pos 60;
  log_file = codes "/var/log/rdp_forwarder.log";
  transport_mode = tcp_only;
  udp_preference = f0;
  retransmit_timeout = pos 100;
  max_retransmit = pos 3;
  heartbeat_interval = pos 1000;
  enable_fast_reconnect = pos 0;
  keep_target_alive = pos 1;
  reconnect_delay = pos 100;
  max_reconnect_attempts = pos 5;
  connection_pool_size = pos 2;
}

abbrev pub is_digit : ℕ → Bool
is_digit c = leb 48 c && leb c 57

-- What `isspace` accepts: ' ' and the characters from '\t' to '\r'.
abbrev pub is_space : ℕ → Bool
is_space c = (c == 32) || (leb 9 c && leb c 13)

-- The digits up to the first other character, behind the number `acc`.
abbrev pub scan_digits : ℕ → List ℕ → ℕ
scan_digits acc [] = acc
scan_digits acc (c ∷ cs) =
    let more = scan_digits (acc * 10 + (c - 48)) cs in if is_digit c then more else acc

-- `strtol` stops at the bounds of a `long`, and the cast to `int` keeps the low bits.
abbrev pub to_int : Bool → ℕ → ℤ
to_int negative n =
    if negative then int_of_bits (2 ^ 64 - min n (2 ^ 63)) else int_of_bits (min n (2 ^ 63 - 1))

abbrev pub read_signed : List ℕ → ℤ
read_signed [] = pos 0
read_signed (c ∷ cs) =
    if c == 45
    then to_int true (scan_digits 0 cs)
    else if c == 43
    then to_int false (scan_digits 0 cs)
    else to_int false (scan_digits 0 (c ∷ cs))

abbrev pub skip_spaces : List ℕ → List ℕ
skip_spaces [] = []
skip_spaces (c ∷ cs) = let rest = skip_spaces cs in if is_space c then rest else c ∷ cs

unfoldable pub atoi : List ℕ → ℤ
atoi cs = read_signed (skip_spaces cs)

-- The settings that a file can make.
pub data Key : Type 0 where
  target_ip target_port listen_port listen_interface max_clients connection_timeout
        reconnect_interval verbose_logging buffer_size socket_timeout enable_stats stats_interval
        log_file transport_mode udp_preference retransmit_timeout max_retransmit heartbeat_interval
        enable_fast_reconnect keep_target_alive reconnect_delay max_reconnect_attempts
        connection_pool_size :
      Key

abbrev pub key_text : Key → List ℕ
key_text target_ip = codes "target_ip"
key_text target_port = codes "target_port"
key_text listen_port = codes "listen_port"
key_text listen_interface = codes "listen_interface"
key_text max_clients = codes "max_clients"
key_text connection_timeout = codes "connection_timeout"
key_text reconnect_interval = codes "reconnect_interval"
key_text verbose_logging = codes "verbose_logging"
key_text buffer_size = codes "buffer_size"
key_text socket_timeout = codes "socket_timeout"
key_text enable_stats = codes "enable_stats"
key_text stats_interval = codes "stats_interval"
key_text log_file = codes "log_file"
key_text transport_mode = codes "transport_mode"
key_text udp_preference = codes "udp_preference"
key_text retransmit_timeout = codes "retransmit_timeout"
key_text max_retransmit = codes "max_retransmit"
key_text heartbeat_interval = codes "heartbeat_interval"
key_text enable_fast_reconnect = codes "enable_fast_reconnect"
key_text keep_target_alive = codes "keep_target_alive"
key_text reconnect_delay = codes "reconnect_delay"
key_text max_reconnect_attempts = codes "max_reconnect_attempts"
key_text connection_pool_size = codes "connection_pool_size"

-- In the order of the tests.
abbrev pub all_keys : List Key
all_keys =
    target_ip ∷ target_port ∷ listen_port ∷ listen_interface ∷ max_clients ∷ connection_timeout
    ∷ reconnect_interval ∷ verbose_logging ∷ buffer_size ∷ socket_timeout ∷ enable_stats
    ∷ stats_interval ∷ log_file ∷ transport_mode ∷ udp_preference ∷ retransmit_timeout
    ∷ max_retransmit ∷ heartbeat_interval ∷ enable_fast_reconnect ∷ keep_target_alive
    ∷ reconnect_delay ∷ max_reconnect_attempts ∷ connection_pool_size ∷ []

-- The first test that succeeds.
unfoldable pub find_key : List ℕ → List Key → Option Key
find_key text [] = none
find_key text (k ∷ ks) =
    let rest = find_key text ks in if same_text text (key_text k) then some k else rest

-- Any other text leaves the mode as it is.
abbrev pub mode_of : List ℕ → Mode → Mode
mode_of value m =
    if same_text value (codes "udp")
    then udp_only
    else if same_text value (codes "tcp")
    then tcp_only
    else if same_text value (codes "hybrid")
    then hybrid
    else if same_text value (codes "auto")
    then auto
    else m

abbrev pub at_least_0 : Floats → ℕ → ℕ
at_least_0 fl x = if fl.lt x f0 then f0 else x

abbrev pub at_most_1 : Floats → ℕ → ℕ
at_most_1 fl x = if fl.lt f1 x then f1 else x

-- `strncpy` into a string of `size` bytes whose last byte stays 0.
abbrev pub bounded_copy : ℕ → List ℕ → List ℕ
bounded_copy size value = take (size - 1) value

unfoldable pub assign : Floats → Key → List ℕ → Config → Config
assign fl target_ip v c = record c { target_ip = bounded_copy 16 v }
assign fl target_port v c = record c { target_port = atoi v }
assign fl listen_port v c = record c { listen_port = atoi v }
assign fl listen_interface v c = record c { listen_interface = bounded_copy 16 v }
assign fl max_clients v c = record c { max_clients = atoi v }
assign fl connection_timeout v c = record c { connection_timeout = atoi v }
assign fl reconnect_interval v c = record c { reconnect_interval = atoi v }
assign fl verbose_logging v c = record c { verbose_logging = atoi v }
assign fl buffer_size v c = record c { buffer_size = atoi v }
assign fl socket_timeout v c = record c { socket_timeout = atoi v }
assign fl enable_stats v c = record c { enable_stats = atoi v }
assign fl stats_interval v c = record c { stats_interval = atoi v }
assign fl log_file v c = record c { log_file = bounded_copy 256 v }
assign fl transport_mode v c = record c { transport_mode = mode_of v c.transport_mode }
assign fl udp_preference v c = record c {
  udp_preference = at_most_1 fl (at_least_0 fl (fl.atof v));
}
assign fl retransmit_timeout v c = record c { retransmit_timeout = atoi v }
assign fl max_retransmit v c = record c { max_retransmit = atoi v }
assign fl heartbeat_interval v c = record c { heartbeat_interval = atoi v }
assign fl enable_fast_reconnect v c = record c { enable_fast_reconnect = atoi v }
assign fl keep_target_alive v c = record c { keep_target_alive = atoi v }
assign fl reconnect_delay v c = record c { reconnect_delay = atoi v }
assign fl max_reconnect_attempts v c = record c { max_reconnect_attempts = atoi v }
assign fl connection_pool_size v c = record c { connection_pool_size = atoi v }

-- `fgets` with room for `room` characters: up to and with the first line feed, and what is left.
unfoldable pub fgets : ℕ → List ℕ → List ℕ × List ℕ
fgets zero cs = ([], cs)
fgets (suc room) [] = ([], [])
fgets (suc room) (c ∷ cs) =
    let (line, rest) = fgets room cs in if c == 10 then (c ∷ [], cs) else (c ∷ line, rest)

-- What the string functions see of a buffer.
abbrev pub c_string : List ℕ → List ℕ
c_string [] = []
c_string (c ∷ cs) = let rest = c_string cs in if c == 0 then [] else c ∷ rest

-- An unknown key is only logged.
abbrev pub assign_found : Floats → Option Key → List ℕ → Config → Config
assign_found fl none value cfg = cfg
assign_found fl (some k) value cfg = assign fl k value cfg

abbrev pub set_key : Floats → List ℕ → List ℕ → Config → Config
set_key fl text value cfg = assign_found fl (find_key text all_keys) value cfg

abbrev pub obey : Floats → Line → Config → Config
obey fl skipped cfg = cfg
obey fl invalid cfg = cfg
obey fl (setting key value) cfg = set_key fl key value cfg

-- MAX_CONFIG_LINE is 256, which leaves room for 255 characters. Each round reads one at least, so
-- fuel of their number is enough.
unfoldable pub load_lines : Floats → ℕ → List ℕ → Config → Config
load_lines fl zero cs cfg = cfg
load_lines fl (suc fuel) [] cfg = cfg
load_lines fl (suc fuel) (c ∷ cs) cfg =
    let (line, rest) = fgets 255 (c ∷ cs) in
    load_lines fl fuel rest (obey fl (read_line (c_string line)) cfg)

-- The file's characters, or `none` if it cannot be opened.
unfoldable pub load_config : Floats → Option (List ℕ) → Config → ℤ × Config
load_config fl none cfg = (pos 0, cfg)
load_config fl (some cs) cfg = (pos 1, load_lines fl (length cs) cs cfg)

-- What the arguments behind the program's name give: the file to read, and the configuration to start
-- from. One argument alone is a target; `strcpy` has room for 15 characters of it.
unfoldable pub read_arguments : List (List ℕ) → World → List ℕ × Config × World
read_arguments [] w = (codes "/etc/rdp_forwarder.conf", init_config, w)
read_arguments (a ∷ []) w = (
  codes "/etc/rdp_forwarder.conf",
  record init_config { target_ip = a },
  if ltb 15 (length a) then record w { faulted = true } else w,
)
read_arguments (a ∷ (b ∷ rest)) w =
    (if same_text a (codes "-c") then b else codes "/etc/rdp_forwarder.conf", init_config, w)

-- The configuration that `main` runs with. `files` opens a file.
unfoldable pub configure :
    Floats → List (List ℕ) → (List ℕ → Option (List ℕ)) → World → Config × World
configure fl args files w =
    let (path, cfg, w1) = read_arguments args w in ((load_config fl (files path) cfg).1, w1)
