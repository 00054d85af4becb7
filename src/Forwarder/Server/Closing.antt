-- ===== src/Forwarder/Server/Closing.antt =====
-- The descriptors that are closed when a pair is removed.
pub mod Shutdown
use remote_trans.Base.{
  ℕ, zero, suc, ◌+◌, ◌≡◌, refl, sym, ap, ◌∙◌, Bool, true, false, not, ◌&&◌, Option, none, some,
  List, [], ◌∷◌, ◌++◌, ℤ, pos, minus_one, arith, is_pos, is_neg, eqb_ℤ, length, take, drop,
  take-append-drop, get_elem?, if◌then◌else◌, if_cases,
}
use remote_trans.World.{World, Call, after, close, gettimeofday}
use remote_trans.Transport.Types.{Packet, Conn, Step}
use remote_trans.Transport.Wire.{seal}
use remote_trans.Transport.Send.{account_sent, next_sequence, ht_send_packet}
use remote_trans.Transport.Socket.{
  step, notify, close_packet, ht_disconnect, ht_destroy_connection, close_open, ht_cleanup,
}
use remote_trans.Forwarder.Types.{ConnState, Pair, Pool, closing}
use remote_trans.Forwarder.State.{set_connection_state, close_positive, end_hybrid}
use remote_trans.Forwarder.Pool.{close_pair, cleanup_connection}
use remote_trans.Forwarder.Pool.Removal.{live, IsPool, cleanup_removes}
use remote_trans.Forwarder.Wiring.{Wiring}
use remote_trans.Forwarder.Wiring.Frame.{set_connection_state-wiring}
use remote_trans.Forwarder.Server.{Server}
use remote_trans.Forwarder.Server.Slots.{
  get_elem?-take, drop-get_elem?, get_elem?-within, cleanup_world,
}
use remote_trans.Forwarder.Server.Rounds.{cleanup_all, shut_down}

-- The calls of `close` on `fd`.
abbrev pub closes : ℤ → List Call → ℕ
closes fd [] = 0
closes fd (close x ∷ cs) = (if eqb_ℤ x fd then 1 else 0) + closes fd cs
closes fd (c ∷ cs) = closes fd cs

-- How many times a pair holds `fd`: a descriptor of a pair counts if it is above 0, one of a hybrid
-- connection if it is not below 0.
abbrev pub positive : ℤ → ℤ → ℕ
positive fd x = if is_pos x && eqb_ℤ x fd then 1 else 0

abbrev unsigned : ℤ → ℤ → ℕ
unsigned fd x = if not (is_neg x) && eqb_ℤ x fd then 1 else 0

abbrev held_by_conn : ℤ → Option Conn → ℕ
held_by_conn fd none = 0
held_by_conn fd (some c) = unsigned fd c.udp_fd + unsigned fd c.tcp_fd

abbrev pub held : ℤ → Pair → ℕ
held fd p = positive fd p.client_fd + positive fd p.target_fd + held_by_conn fd p.ht_conn

abbrev pub held_by_all : ℤ → List Pair → ℕ
held_by_all fd [] = 0
held_by_all fd (p ∷ ps) = held fd p + held_by_all fd ps

module _ (fd : ℤ) where
  set_connection_state-closes :
      (p : Pair) (s : ConnState) (reason : Option (List ℕ)) (w : World)
      → closes fd (set_connection_state p s reason w).1.calls ≡ closes fd w.calls
  unfolding set_connection_state after
  set_connection_state-closes p s reason w = ground arith

  close_positive-closes :
      (x : ℤ) (w : World) → closes fd (close_positive x w).calls ≡ closes fd w.calls + positive fd x
  unfolding after
  close_positive-closes x w = ground arith

  close_open-closes :
      (x : ℤ) (w : World) → closes fd (close_open x w).calls ≡ closes fd w.calls + unsigned fd x
  unfolding after
  close_open-closes x w = ground arith

  send_packet-closes :
      (c : Conn) (p : Packet) (tcp : Bool) (w : World)
      → closes fd (ht_send_packet c p tcp w).world.calls ≡ closes fd w.calls
  unfolding ht_send_packet account_sent after
  send_packet-closes c p tcp w = ground arith

  notify-closes :
      (x : ℤ) (c : Conn) (p : Packet) (tcp : Bool) (w : World)
      → closes fd (notify x c p tcp w).world.calls ≡ closes fd w.calls
  unfolding notify
  notify-closes x c p tcp w = ground (arith, send_packet-closes c p tcp w)

notify-fds :
    (x : ℤ) (c : Conn) (p : Packet) (tcp : Bool) (w : World)
    → let d = (notify x c p tcp w).conn in (d.udp_fd ≡ c.udp_fd) × (d.tcp_fd ≡ c.tcp_fd)
unfolding notify ht_send_packet account_sent
notify-fds x c p tcp w = ground arith

-- The close message is sent without closing anything.
record Unclosed (fd : ℤ) (c : Conn) (w : World) (s : Step) : Type 0 where
  calls : closes fd s.world.calls ≡ closes fd w.calls
  udp : s.conn.udp_fd ≡ c.udp_fd
  tcp : s.conn.tcp_fd ≡ c.tcp_fd

disconnect-Unclosed : (fd : ℤ) (c : Conn) (w : World) → Unclosed fd c w (ht_disconnect c w)
unfolding ht_disconnect after
disconnect-Unclosed fd c w =
    if_cases (Unclosed fd c w) c.is_connected
      (step (pos 0) (record t.conn { is_connected = false }) t.world) (step minus_one c w)
      (λ e. record {
        calls = notify-closes fd _ _ _ true u.world ∙ notify-closes fd _ _ _ false _;
        udp = (notify-fds _ u.conn _ true u.world).0 ∙ (notify-fds _ c1 _ false _).0;
        tcp = (notify-fds _ u.conn _ true u.world).1 ∙ (notify-fds _ c1 _ false _).1;
      })
      (λ e. record { calls = refl; udp = refl; tcp = refl })
  where
    p : Packet
    p = close_packet c w

    c1 : Conn
    c1 = next_sequence (record c { is_closing = true })

    u : Step
    u = notify c1.udp_fd c1 p false (after gettimeofday w)

    t : Step
    t = notify u.conn.tcp_fd u.conn (seal p) true u.world

module _ (fd : ℤ) where
  end_hybrid-closes :
      (o : Option Conn) (w : World)
      → closes fd (end_hybrid o w).calls ≡ closes fd w.calls + held_by_conn fd o
  unfolding end_hybrid ht_destroy_connection
  end_hybrid-closes none w = omega arith
  end_hybrid-closes (some c) w =
      let s = ht_disconnect c w in
      let k = disconnect-Unclosed fd c w in
      omega (
        arith,
        close_open-closes fd s.conn.tcp_fd (close_open s.conn.udp_fd s.world),
        close_open-closes fd s.conn.udp_fd s.world,
        k.calls,
        ap (unsigned fd) k.udp,
        ap (unsigned fd) k.tcp,
      )

  -- The removal of a pair closes what it holds, and nothing else.
  pub close_pair-closes :
      (p : Pair) (w : World) → closes fd (close_pair p w).1.calls ≡ closes fd w.calls + held fd p
  unfolding close_pair
  close_pair-closes p w =
      let r = set_connection_state p closing none w in
      let same = set_connection_state-wiring p closing none w in
      let w2 = close_positive r.0.client_fd r.1 in
      omega (
        arith,
        end_hybrid-closes r.0.ht_conn (close_positive r.0.target_fd w2),
        close_positive-closes fd r.0.target_fd w2,
        close_positive-closes fd r.0.client_fd r.1,
        set_connection_state-closes fd p closing none w,
        ap (λ (x : Wiring). positive fd x.client_fd) same,
        ap (λ (x : Wiring). positive fd x.target_fd) same,
        ap (λ (x : Wiring). held_by_conn fd x.ht_conn) same,
      )
