-- ===== src/Forwarder/Server/Serving.antt =====
-- rdp_forwarder.c: the loop of `main` that serves each pair, with the descriptors that `select` has
-- found ready.
pub mod Follow
pub mod Each
pub mod Table
use remote_trans.Base.{
  ℕ, zero, suc, ◌+◌, ◌-◌, Bool, true, false, not, ◌&&◌, ◌||◌, Option, none, some, List, [], ◌∷◌, ℤ,
  pos, negsuc, is_neg, is_pos, is_set, ltb, ltb_ℤ, sub_ℕ, eqb_ℤ, get_elem?, if◌then◌else◌,
}
use remote_trans.World.{World, reply, after, time}
use remote_trans.Forwarder.Types.{Pair, Pool, Config, Served}
use remote_trans.Forwarder.State.{handle_client_disconnect}
use remote_trans.Forwarder.Pool.{cleanup_connection}
use remote_trans.Forwarder.Data.{forward_data}
use remote_trans.Forwarder.Hybrid.{forward_data_hybrid}
use remote_trans.Forwarder.Server.{Env, put_at}

-- What is known of a pair in its turn: `over` skips the rest of the turn, `broken` is
-- `connection_error`.
pub record Turn : Type 0 where
  pub over : Bool
  pub broken : Bool
  pub pair : Pair
  pub world : World

abbrev pub turn : Bool → Bool → Pair → World → Turn
turn o b p w = record { over = o; broken = b; pair = p; world = w }

-- A result below 0 is an error.
abbrev pub judged : Served → Turn
judged s = turn false (is_neg s.value) s.pair s.world

abbrev pub judge : Option Served → Option Turn
judge none = none
judge (some s) = some (judged s)

-- Client to target. -2 is the client's end, when the target is to be kept for a fast reconnect.
unfoldable pub judge_client : Config → Served → Turn
judge_client cfg s =
    let (p, w) = handle_client_disconnect cfg s.pair s.world in
    if eqb_ℤ s.value (negsuc 1) && is_set cfg.enable_fast_reconnect
    then turn true false p w
    else judged s

unfoldable pub client_turn : Env → (ℤ → Bool) → Pair → World → Option Turn
client_turn env ready p w =
    if is_pos p.client_fd && ready p.client_fd
    then elim (forward_data env.fuel env.config p.client_fd p.target_fd true env.reason p w) [
      | none ↦ none
      | some s ↦ some (judge_client env.config s)
    ]
    else some (turn false false p w)

-- Target to client, unless the turn is over or the pair is broken.
unfoldable pub target_turn : Env → (ℤ → Bool) → Turn → Option Turn
target_turn env ready a =
    let p = a.pair in
    if a.over || a.broken || not (is_pos p.target_fd && ready p.target_fd)
    then some a
    else judge (forward_data env.fuel env.config p.target_fd p.client_fd false env.reason p a.world)

unfoldable pub tcp_turn : Env → (ℤ → Bool) → Pair → World → Option Turn
tcp_turn env ready p w = elim (client_turn env ready p w) [
  | none ↦ none
  | some a ↦ target_turn env ready a
]

unfoldable pub hybrid_client_turn : Env → (ℤ → Bool) → Pair → World → Option Turn
hybrid_client_turn env ready p w =
    if is_pos p.client_fd && ready p.client_fd
    then judge (forward_data_hybrid env.floats env.fuel env.buf true env.reason p w)
    else some (turn false false p w)

unfoldable pub hybrid_target_turn : Env → Turn → Option Turn
hybrid_target_turn env a =
    if a.broken
    then some a
    else judge (forward_data_hybrid env.floats env.fuel env.buf false env.reason a.pair a.world)

unfoldable pub hybrid_turn : Env → (ℤ → Bool) → Pair → World → Option Turn
hybrid_turn env ready p w = elim (hybrid_client_turn env ready p w) [
  | none ↦ none
  | some a ↦ hybrid_target_turn env a
]

abbrev pub timed_out : Config → Pair → ℕ → Bool
timed_out cfg p now = ltb_ℤ cfg.connection_timeout (sub_ℕ now p.last_activity)

-- The turn of one pair, up to its removal: a pair that has timed out is removed as a broken one is.
unfoldable pub pair_turn : Env → (ℤ → Bool) → Pair → World → Option Turn
pair_turn env ready p w =
    let w1 = after time w in
    if not p.is_active
    then some (turn true false p w)
    else if timed_out env.config p (reply time w).time.sec
    then some (turn true true p w1)
    else if p.use_hybrid_transport
    then hybrid_turn env ready p w1
    else tcp_turn env ready p w1

-- Where the loop stands.
pub record Place : Type 0 where
  pub index : ℕ
  pub pool : Pool
  pub world : World

abbrev pub place : ℕ → Pool → World → Place
place i t w = record { index = i; pool = t; world = w }

-- A broken pair is removed, and its index comes again.
unfoldable pub end_turn : ℕ → Pool → Turn → Place
end_turn i t a =
    let u = record t { connections = put_at i a.pair t.connections } in
    let (v, w) = cleanup_connection (pos i) u a.world in
    if a.broken then place i v w else place (suc i) u a.world

-- `for (i = 0; i < connection_count; i++)`: each turn brings the index and the count one nearer, so
-- fuel of their difference is enough. `none` means that a loop of a turn ran out of its own fuel.
unfoldable pub serve_from : Env → (ℤ → Bool) → ℕ → Place → Option Place
serve_from env ready zero s = some s
serve_from env ready (suc n) s = elim (get_elem? s.pool.connections s.index) [
  | none ↦ some s
  | some p ↦ elim (pair_turn env ready p s.world) [
    | none ↦ none
    | some a ↦ serve_from env ready n (end_turn s.index s.pool a)
  ]
]

unfoldable pub serve_pairs : Env → (ℤ → Bool) → Pool → World → Option Place
serve_pairs env ready t w = serve_from env ready t.connection_count (place 0 t w)
