-- ===== src/Forwarder/Data.antt =====
-- rdp_forwarder.c: `forward_data`, which reads once and writes all that it has read.
pub mod Passed
pub mod Delivery
pub mod Completion
use remote_trans.Base.{
  ℕ, zero, suc, ◌+◌, ◌%◌, ◌^◌, Bool, true, false, not, ◌&&◌, Option, none, some, List, [], ◌∷◌, ℤ,
  pos, negsuc, minus_one, pos_part, is_neg, is_pos, is_set, length, take, drop, ltb, ◌==◌,
  if◌then◌else◌,
}
use remote_trans.World.{World, Reply, reply, after, malloc, time, usleep, send, recv, would_block}
use remote_trans.Forwarder.Types.{Pair, Config, Served, connected, active}
use remote_trans.Forwarder.State.{same_state, set_connection_state, log_connection_error}

abbrev pub served : ℤ → Pair → World → Served
served v p w = record { value = v; pair = p; world = w }

-- The state of the writing loop: whether it has ended well, with the pair and the world.
pub record Written : Type 0 where
  pub ok : Bool
  pub pair : Pair
  pub world : World

-- `while (bytes_sent < bytes_read)`, over the bytes that are left. A full socket is waited for
-- without a limit, so the loop needs fuel. `reason` is the text of the error message.
unfoldable pub write_all : ℕ → ℤ → Bool → List ℕ → List ℕ → Pair → World → Option Written
write_all zero fd client reason rest p w = none
write_all (suc fuel) fd client reason [] p w = some (record { ok = true; pair = p; world = w })
write_all (suc fuel) fd client reason (b ∷ bs) p w =
    let r = reply (send fd (b ∷ bs)) w in
    let w1 = after (send fd (b ∷ bs)) w in
    let (q, w2) = log_connection_error p reason client w1 in
    let again = write_all fuel fd client reason (b ∷ bs) p (after (usleep 1000) w1) in
    let more = write_all fuel fd client reason (drop (pos_part r.ret) (b ∷ bs)) p w1 in
    if is_neg r.ret
    then if would_block w1.errno then again else some (record { ok = false; pair = q; world = w2 })
    else if pos_part r.ret == 0
    then some (record { ok = false; pair = p; world = w1 })
    else more

-- The counters of a pair are `unsigned long`.
abbrev pub count_bytes : Bool → ℕ → Pair → Pair
count_bytes client_to_target n p =
    if client_to_target
    then record p { bytes_sent = (p.bytes_sent + n) % 2 ^ 64 }
    else record p { bytes_received = (p.bytes_received + n) % 2 ^ 64 }

-- What follows a complete write.
unfoldable pub account_forwarded : Bool → ℕ → Pair → World → Served
account_forwarded client_to_target n p w =
    let q = record (count_bytes client_to_target n p) { last_activity = (reply time w).time.sec } in
    let w1 = after time w in
    let (a, w2) = set_connection_state q active none w1 in
    if same_state q.state connected then served (pos n) a w2 else served (pos n) q w1

-- The two ends of a connection: -2 asks for a fast reconnect.
unfoldable pub peer_closed : Config → Bool → Pair → World → Served
peer_closed cfg client_to_target p w =
    let w1 = after time w in
    let quiet = ltb (p.last_activity + 5) (reply time w).time.sec in
    if client_to_target && is_set cfg.enable_fast_reconnect
    then served (if quiet then negsuc 1 else minus_one) p w1
    else served minus_one p w

-- A reply of `recv` with the value `n` has stored `n` bytes; `buffer_size` only bounds that number.
unfoldable pub forward_data : ℕ → Config → ℤ → ℤ → Bool → List ℕ → Pair → World → Option Served
forward_data fuel cfg from_fd to_fd client_to_target reason p w =
    let w1 = after malloc w in
    let r = reply (recv from_fd) w1 in
    let w2 = after (recv from_fd) w1 in
    let (q, w3) = log_connection_error p reason client_to_target w2 in
    let n = pos_part r.ret in
    if is_neg (reply malloc w).ret
    then some (served minus_one p w1)
    else if is_neg r.ret
    then some (if would_block w2.errno then served (pos 0) p w2 else served minus_one q w3)
    else if n == 0
    then some (peer_closed cfg client_to_target p w2)
    else elim (write_all fuel to_fd (not client_to_target) reason (take n r.bytes) p w2) [
      | none ↦ none
      | some a ↦ some (
          if a.ok
          then account_forwarded client_to_target n a.pair a.world
          else served minus_one a.pair a.world)
    ]
