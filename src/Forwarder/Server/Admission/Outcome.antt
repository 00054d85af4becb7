-- ===== src/Forwarder/Server/Admission/Outcome.antt =====
-- What becomes of a client that connects.
use remote_trans.Base.{
  ℕ, ◌+◌, ◌%◌, ◌^◌, ◌≡◌, true, false, Option, none, some, [], ◌∷◌, ◌++◌, ℤ, pos, get_elem?, is_neg,
  is_set, ltb_ℤ,
}
use remote_trans.World.{World, Call, close}
use remote_trans.Forwarder.Types.{Pair, Config, connected}
use remote_trans.Forwarder.Pool.Removal.{live}
use remote_trans.Forwarder.Server.{Server, put_at}
use remote_trans.Forwarder.Server.Admission.Reuse.{Reusable, NoneFits}

-- A pair for the client `fd`, connected to the target.
pub record Fresh (cfg : Config) (fd : ℤ) (q : Pair) : Type 0 where
  pub client_fd : q.client_fd ≡ fd
  pub target_fd : is_neg q.target_fd ≡ false
  pub target_ip : q.target_ip ≡ cfg.target_ip
  pub state : q.state ≡ connected
  pub hybrid : q.ht_conn ≡ none
  pub sent : q.bytes_sent ≡ 0
  pub received : q.bytes_received ≡ 0

-- The pair `p` for the new client `fd`: it keeps its target, and counts from 0.
pub record Revived (fd : ℤ) (p q : Pair) : Type 0 where
  pub client_fd : q.client_fd ≡ fd
  pub target_fd : q.target_fd ≡ p.target_fd
  pub hybrid : q.ht_conn ≡ p.ht_conn
  pub used : q.use_hybrid_transport ≡ p.use_hybrid_transport
  pub present : q.client_disconnected ≡ false
  pub sent : q.bytes_sent ≡ 0
  pub received : q.bytes_received ≡ 0

abbrev pub last_call : World → Option Call
last_call w = get_elem? w.calls 0

-- From the globals `s` to the globals `t` and the system `u`, by the descriptor `fd`.
pub data Outcome (cfg : Config) (fd : ℤ) (s t : Server) (u : World) : Type 0 where
  nobody : is_neg fd ≡ true → t ≡ s → Outcome cfg fd s t u
  reused :
      (i : ℕ) (p q : Pair)
      → is_set cfg.enable_fast_reconnect ≡ true
      → Reusable s.pool.connection_count s.pool.connections i p
      → Revived fd p q
      → live t.pool ≡ put_at i q (live s.pool)
      → t.stats ≡ s.stats
      → Outcome cfg fd s t u
  added :
      (q : Pair)
      → NoneFits cfg s.pool
      → ltb_ℤ (pos s.pool.connection_count) cfg.max_clients ≡ true
      → Fresh cfg fd q
      → live t.pool ≡ live s.pool ++ q ∷ []
      → t.stats.total_connections ≡ (s.stats.total_connections + 1) % 2 ^ 64
      → Outcome cfg fd s t u
  failed :
      NoneFits cfg s.pool
      → ltb_ℤ (pos s.pool.connection_count) cfg.max_clients ≡ true
      → live t.pool ≡ live s.pool
      → t.stats ≡ s.stats
      → last_call u ≡ some (close fd)
      → Outcome cfg fd s t u
  rejected :
      NoneFits cfg s.pool
      → ltb_ℤ (pos s.pool.connection_count) cfg.max_clients ≡ false
      → t ≡ s
      → last_call u ≡ some (close fd)
      → Outcome cfg fd s t u
