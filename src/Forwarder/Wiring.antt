-- ===== src/Forwarder/Wiring.antt =====
-- The well-formedness of a pair of rdp_forwarder.c: the fields that say what it is connected to.
pub mod Frame
pub mod Reconnecting
use remote_trans.Base.{ℕ, ◌≡◌, refl, Bool, true, false, Option, none, some, ℤ, is_pos, subst}
use remote_trans.Transport.Types.{Mode, tcp_only, Conn}
use remote_trans.Transport.Invariant.{IsConn}
use remote_trans.Forwarder.Types.{Pair}

pub record Wiring : Type 0 where
  pub client_fd : ℤ
  pub target_fd : ℤ
  pub is_active : Bool
  pub ht_conn : Option Conn
  pub use_hybrid_transport : Bool
  pub client_disconnected : Bool
  pub target_ready : Bool

abbrev pub wiring : Pair → Wiring
wiring p = record {
  client_fd = p.client_fd;
  target_fd = p.target_fd;
  is_active = p.is_active;
  ht_conn = p.ht_conn;
  use_hybrid_transport = p.use_hybrid_transport;
  client_disconnected = p.client_disconnected;
  target_ready = p.target_ready;
}

-- A hybrid connection, if there is one, is well formed.
abbrev pub IsHybrid : Option Conn → Type 0
IsHybrid none = Unit
IsHybrid (some c) = IsConn c

abbrev pub is_some : Option Conn → Bool
is_some none = false
is_some (some c) = true

-- `plain`: in the mode TCP only there is no hybrid connection. `alone`: a client that has gone has no descriptor. `free`: neither has a target that must be
-- connected again, and no hybrid connection.
pub record IsWired (m : Mode) (p : Wiring) : Type 0 where
  pub plain : m ≡ tcp_only → p.ht_conn ≡ none
  pub hybrid : IsHybrid p.ht_conn
  pub active : p.is_active ≡ true
  pub used : p.use_hybrid_transport ≡ true → is_some p.ht_conn ≡ true
  pub alone : p.client_disconnected ≡ true → is_pos p.client_fd ≡ false
  pub free_fd : p.client_disconnected ≡ true → p.target_ready ≡ false → is_pos p.target_fd ≡ false
  pub free_conn : p.client_disconnected ≡ true → p.target_ready ≡ false → p.ht_conn ≡ none

abbrev pub IsPair : Mode → Pair → Type 0
IsPair m p = IsWired m (wiring p)
