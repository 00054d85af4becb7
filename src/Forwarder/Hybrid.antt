-- ===== src/Forwarder/Hybrid.antt =====
-- rdp_forwarder.c: `forward_data_hybrid`, which moves data between a client's socket and a
-- connection of hybrid_transport.c.
pub mod Keeping
pub mod Wired
use remote_trans.Base.{
  ℕ, zero, suc, ◌+◌, ◌%◌, ◌^◌, Bool, true, false, not, ◌&&◌, Option, none, some, List, [], ◌∷◌, ℤ,
  pos, minus_one, pos_part, is_neg, is_pos, ltb, if◌then◌else◌, length, take, drop,
}
use remote_trans.Floats.{Floats}
use remote_trans.World.{World, reply, after, time, send, recv, would_block}
use remote_trans.Transport.Types.{Conn, Step}
use remote_trans.Transport.Send.{ht_send_data}
use remote_trans.Transport.Recv.{ht_recv_data}
use remote_trans.Transport.Events.{ht_process_events}
use remote_trans.Transport.Timeout.{ht_handle_timeout}
use remote_trans.Forwarder.Types.{Pair, Served}
use remote_trans.Forwarder.State.{log_connection_error}
use remote_trans.Forwarder.Data.{served}

-- What one of the two directions leaves: `ended` is an early return. The connection is taken out of
-- the pair for the time of the call.
pub record Moved : Type 0 where
  pub ended : Bool
  pub value : ℤ
  pub pair : Pair
  pub conn : Conn
  pub world : World

abbrev pub moved : Bool → ℤ → Pair → Conn → World → Moved
moved e v p c w = record { ended = e; value = v; pair = p; conn = c; world = w }

-- Any result of `recv` that is not positive is returned.
unfoldable pub client_to_hybrid : Floats → List ℕ → Conn → Pair → World → Moved
client_to_hybrid fl reason c p w =
    let r = reply (recv p.client_fd) w in
    let w1 = after (recv p.client_fd) w in
    let (q, w2) = log_connection_error p reason true w1 in
    let s = ht_send_data fl c (take (pos_part r.ret) r.bytes) w1 in
    if is_neg r.ret
    then if would_block w1.errno then moved true r.ret p c w1 else moved true r.ret q c w2
    else if not (is_pos r.ret)
    then moved true r.ret p c w1
    else if is_pos s.value
    then moved false s.value (record p { bytes_sent = (p.bytes_sent + pos_part s.value) % 2 ^ 64 })
        s.conn s.world
    else moved false (pos 0) p s.conn s.world

-- What the writing loop leaves: the number of bytes sent, and whether it has returned an error.
pub record Handed : Type 0 where
  pub failed : Bool
  pub sent : ℕ
  pub pair : Pair
  pub world : World

abbrev pub handed : Bool → ℕ → Pair → World → Handed
handed f n p w = record { failed = f; sent = n; pair = p; world = w }

-- `while (bytes_sent < bytes_read)`, over the bytes that are left. A round that goes on has sent a
-- byte at least, so fuel of their number is enough. `errno` is read also after a result of 0.
unfoldable pub hand_over : ℕ → List ℕ → ℕ → List ℕ → Pair → World → Handed
hand_over zero reason sent rest p w = handed false sent p w
hand_over (suc fuel) reason sent [] p w = handed false sent p w
hand_over (suc fuel) reason sent (b ∷ bs) p w =
    let r = reply (send p.client_fd (b ∷ bs)) w in
    let w1 = after (send p.client_fd (b ∷ bs)) w in
    let (q, w2) = log_connection_error p reason true w1 in
    let more =
      hand_over fuel reason (sent + pos_part r.ret) (drop (pos_part r.ret) (b ∷ bs)) p w1 in
    if is_pos r.ret
    then more
    else if would_block w1.errno
    then handed false sent p w1
    else handed true sent q w2

abbrev pub count_received : ℕ → Pair → Pair
count_received n p =
    if ltb 0 n then record p { bytes_received = (p.bytes_received + n) % 2 ^ 64 } else p

-- The buffer has 8192 bytes.
unfoldable pub hybrid_to_client : List ℕ → Conn → Pair → World → Moved
hybrid_to_client reason c p w =
    let (n, bytes, d) = ht_recv_data c 8192 in
    let a = hand_over (length bytes) reason 0 bytes p w in
    if not (is_pos n)
    then moved false (pos 0) p d w
    else if a.failed
    then moved true minus_one a.pair d a.world
    else moved false (pos a.sent) (count_received a.sent a.pair) d a.world

abbrev pub touch : ℤ → Pair → World → Pair × World
touch n p w =
    if is_pos n
    then (record p { last_activity = (reply time w).time.sec }, after time w)
    else (p, w)

-- The connection goes back into the pair.
abbrev pub put_back : ℤ → Pair → Conn → World → Served
put_back v p c w = served v (record p { ht_conn = some c }) w

-- After either direction the events and the timers are handled. `buf` is the memory that
-- `ht_process_events` finds for its packet.
unfoldable pub settle : ℕ → List ℕ → Moved → Option Served
settle fuel buf m =
    let (p, w) = touch m.value m.pair m.world in
    elim (ht_process_events fuel buf m.conn w) [
      | none ↦ none
      | some e ↦
          let t = ht_handle_timeout e.conn e.world in some (put_back m.value p t.conn t.world)
    ]

unfoldable pub move_data : Floats → Bool → List ℕ → Conn → Pair → World → Moved
move_data fl from_client reason c p w =
    if from_client then client_to_hybrid fl reason c p w else hybrid_to_client reason c p w

-- One direction, and then the events unless it has returned.
unfoldable pub forward_over :
    Floats → ℕ → List ℕ → Bool → List ℕ → Conn → Pair → World → Option Served
forward_over fl fuel buf from_client reason c p w =
    let m = move_data fl from_client reason c p w in
    if m.ended then some (put_back m.value m.pair m.conn m.world) else settle fuel buf m

unfoldable pub forward_data_hybrid :
    Floats → ℕ → List ℕ → Bool → List ℕ → Pair → World → Option Served
forward_data_hybrid fl fuel buf from_client reason p w = elim p.ht_conn [
  | none ↦ some (served minus_one p w)
  | some c ↦
      if p.use_hybrid_transport
      then forward_over fl fuel buf from_client reason c p w
      else some (served minus_one p w)
]
