-- ===== src/Lib.antt =====
-- remote_trans: a remote desktop forwarder (rdp_forwarder.c) on top of a hybrid UDP/TCP transport
-- (hybrid_transport.c, hybrid_transport.h). This library models the transport, and of the forwarder
-- the pairs of connections, their table, the reconnection to the target, the copying of data on both
-- paths, the main loop and the reading of configuration lines.
--
-- The transport keeps one record per connection, `ht_connection_t` in hybrid_transport.h: two
-- descriptors, three sequence numbers, two linked buffers, times, statistics and settings.
-- `ht_create_connection` and `ht_connect` set it up, `ht_send_data` cuts data into packets and keeps
-- each of them for retransmission, `ht_process_events` reads what has arrived, acknowledges data
-- packets into the receive buffer and takes acknowledged packets out of the send buffer,
-- `ht_recv_data` hands over what is next, and `ht_handle_timeout` retransmits, sends heartbeats and
-- ends a connection that is idle.
--
-- The forwarder keeps a table of pairs, `connections` in rdp_forwarder.c, of which the first
-- `connection_count` are in use. A round of the loop of `main` prints statistics, tries to reconnect
-- targets, waits in `select`, admits a client that connects, and gives each pair its turn: a pair that
-- is idle for too long or meets an error is removed by `cleanup_connection`, which moves the later
-- pairs down.
--
-- The files:
--   Base, Base/Lists, Base/Int, Base/Tests: lists, integers and Boolean tests on native numbers.
--   World: the operating system. Every call is answered by an arbitrary script from the call and the
--     number of calls before it, and is recorded; `errno`, the flag `ht_initialized`, a flag that an
--     out-of-bounds read sets, and what such a read finds are part of it.
--   Descriptors: the descriptors that a list of calls opens and closes.
--   Floats: `float` values as bit patterns, their arithmetic a parameter.
--   Transport/Types: the constants and structures of hybrid_transport.h.
--   Transport/Wire: `ht_calculate_checksum` and the packed layout of a packet in memory.
--     Wire/Checksum, Wire/Codec, Wire/Seal: theorems on them.
--   Transport/Clock: `get_timestamp_ms`, `time_diff_ms`.
--   Transport/Statistics, Statistics/Rtt: `ht_update_rtt`, `ht_get_stats`, `ht_reset_stats`.
--   Transport/Send: `ht_should_use_tcp`, `ht_send_packet`, `ht_send_data`.
--     Send/Frame (what sending leaves alone), Send/Stream, Send/Completion.
--   Transport/Recv: `ht_recv_packet`, `ht_recv_data`.
--     Recv/Checks, Recv/Overread, Recv/Delivery, Recv/Stall.
--   Transport/Events: `ht_process_events`. Events/Acks, Events/Termination.
--   Transport/Timeout: `ht_handle_timeout`.
--     Timeout/Sweeping, Timeout/Resending and Timeout/Lost (the walk over the send buffer),
--     Timeout/Activity, Timeout/Idle.
--   Transport/Socket, Socket/Balance, Socket/Connect: `ht_init`, the sockets, `ht_create_connection`, `ht_connect`,
--     `ht_disconnect`, `ht_destroy_connection`.
--   Transport/Exchange, Exchange/Corruption: a packet's way from one end to the other.
--   Transport/Invariant and below: well-formed connections, per operation, and over a whole life.
--   Forwarder/Types: a connection pair and the table of pairs of rdp_forwarder.c.
--   Forwarder/State: `set_connection_state`, `log_connection_error`, `handle_client_disconnect`,
--     `reset_connection_for_reuse`, `is_client_socket_alive`.
--   Forwarder/Pool: `cleanup_connection`, `update_stats`. Pool/Removal, Pool/Sums.
--   Forwarder/Reconnect, Reconnect/Attempts: `connect_to_target`, `create_hybrid_connection`,
--     `try_reconnect_target`.
--   Forwarder/Lines: `trim`, and how `load_config` reads one line. Lines/Trim, Lines/Reading.
--   Forwarder/Config: `init_config`, `load_config`, the arguments of `main`. Config/Settings,
--     Config/Loading, Config/Sizes.
--   Forwarder/Data: `forward_data`. Data/Passed, Data/Delivery, Data/Completion.
--   Forwarder/Hybrid: `forward_data_hybrid`. Hybrid/Keeping, Hybrid/Wired.
--   Forwarder/Wiring: well-formed pairs. Wiring/Frame, Wiring/Reconnecting.
--   Forwarder/Server: the globals, `create_listen_socket`, `init_stats`, `print_stats`; the parts of
--     `main` are in Server/Watching (reconnection, `select`), Server/Admission (`accept` and what
--     follows it), Server/Serving (the loop over the pairs) and Server/Rounds (a round, the start, the
--     end). Admission/Outcome and Admission/Reuse, Serving/Each and Serving/Table, Server/Invariant and
--     below, Server/Completion and below, Closing/Shutdown,
--     Server/Ledger and below (the descriptors that are opened and closed) are theorems on them; Server/Slots,
--     Serving/Follow, Server/Turns, Server/Closing, Server/Scripts and below are lemmas.
--   Forwarder/Tests, Tests/Rounds, Tests/Configuration: tests, and the theorems at concrete values.
--   Transport/Tests and below: tests, and the theorems at concrete values.
--
-- The correspondence: a function of the source is a function of the same name that takes the
-- connection and the world and returns its value, the connection and the world after it (`Step`). A
-- null argument, for which every function returns at once, is not modelled. Integers keep the width
-- of their C type: 32-bit sequence numbers and times wrap, 64-bit counters wrap, and a size that is
-- returned as an `int` is cut to it. How a packed structure lies in memory, little-endian, and what
-- `atoi`, `fgets` and `strcmp` do, belongs to the language and its library: `encode`, `decode`, `atoi`,
-- `fgets`, `c_string` and `same_text` stand for no code of the repository. The linked lists are
-- lists, newest entry first. In `ht_handle_timeout` the list is kept in two parts, since its `prev`
-- pointer stays behind.
--
-- Bounds: the loop of `ht_send_data` runs on fuel, the number of the bytes, and each round takes one
-- byte at least. The loop of `ht_process_events` runs as long as packets arrive: its fuel is an
-- argument, as it is for the loop of `forward_data`, which waits for a full socket without a limit.
-- The serving loop of `main` runs on fuel, the count of pairs in use, since each turn removes a pair
-- or moves on to the next; the writing loop of `forward_data_hybrid` on the number of the bytes. The
-- main loop runs for a number of rounds, until the signal that ends it.
-- The other loops are structural recursion.
--
-- Not modelled: printing, logging and the times read for it; the seed of the random numbers; the
-- names of the states; errors while a configuration file is read. `signal_handler` only clears the flag
-- that ends the main loop: here the number of rounds is given.
pub mod Base
pub mod World
pub mod Descriptors
pub mod Floats
pub mod Transport
pub mod Forwarder
