-- ===== src/Forwarder/Wiring/Reconnecting.antt =====
-- A pair over `try_reconnect_target`.
use remote_trans.Base.{
  ℕ, ◌≡◌, ◌≢◌, refl, sym, Bool, true, false, not, ◌&&◌, ◌||◌, Option, none, some, List, [], ℤ, pos,
  arith, is_neg, is_pos, ◌+ℤ◌, ltb_ℤ, Bool-cases, Option-cases, inl, inr, ◌⊎◌, if◌then◌else◌,
  if_cases, minus_one, subst,
}
use remote_trans.World.{World}
use remote_trans.Transport.Types.{Mode, udp_only, tcp_only, hybrid, auto, Conn, Step}
use remote_trans.Transport.Socket.{set_nonblocking, ht_create_connection, ht_connect}
use remote_trans.Transport.Invariant.{IsConn}
use remote_trans.Transport.Invariant.Sending.{create_connection-IsConn}
use remote_trans.Transport.Invariant.Lifetime.{connect-IsConn}
use remote_trans.Forwarder.Types.{Pair, Config, Served}
use remote_trans.Forwarder.Reconnect.{
  connect_to_target, configure_tcp_socket, configured, create_hybrid_connection, has_hybrid,
  reconnect_tcp, reconnect, try_reconnect_target,
}
use remote_trans.Forwarder.Wiring.{Wiring, wiring, IsWired, IsPair}

create-send_buffer :
    (ip : List ℕ) (port : ℤ) (mode : Mode) (w : World) {c : Conn}
    → (ht_create_connection ip port mode w).0 ≡ some c
    → c.send_buffer ≡ []
unfolding ht_create_connection
create-send_buffer ip port mode w h = ground (arith, h)

configured-IsConn :
    (cfg : Config) (c : Conn) → IsConn c → c.send_buffer ≡ [] → IsConn (configured cfg c)
configured-IsConn cfg c v e = record {
  send_sequence = v.send_sequence;
  recv_sequence = v.recv_sequence;
  ack_sequence = v.ack_sequence;
  recv_window = v.recv_window;
  outgoing = rw e tt;
}

-- The two ways in which `create_hybrid_connection` returns.
data Creation (p : Pair) (h : Served) : Type 0 where
  refused :
      is_neg h.value ≡ true → wiring h.pair ≡ wiring (record p { ht_conn = none }) → Creation p h
  made :
      (c : Conn)
      → IsConn c
      → is_neg h.value ≡ false
      → wiring h.pair ≡ wiring (record p { ht_conn = some c; use_hybrid_transport = true })
      → Creation p h

module _ (cfg : Config) (p : Pair) (ip : List ℕ) (port : ℤ) (w : World) where
  create_hybrid-cases :
      (o : Option Conn)
      → (ht_create_connection ip port cfg.transport_mode w).0 ≡ o
      → Creation p (create_hybrid_connection cfg p ip port w)
  unfolding create_hybrid_connection
  create_hybrid-cases none e = refused (ground (arith, e)) (ground (arith, e))
  create_hybrid-cases (some c) e = elim (Bool-cases (is_neg step.value)) [
    | inl f ↦ refused (ground (arith, e, f)) (ground (arith, e, f))
    | inr f ↦ made step.conn well (ground (arith, e, f)) (ground (arith, e, f))
  ]
    where
      step : Step
      step = ht_connect (configured cfg c) (ht_create_connection ip port cfg.transport_mode w).1

      well : IsConn step.conn
      well = connect-IsConn _ (configured cfg c) _ refl (
          configured-IsConn cfg c (create_connection-IsConn ip port cfg.transport_mode w e)
            (create-send_buffer ip port cfg.transport_mode w e))

  create_hybrid-Creation : Creation p (create_hybrid_connection cfg p ip port w)
  create_hybrid-Creation = create_hybrid-cases _ refl

-- A new descriptor to the target.
reconnect_tcp-IsPair :
    {m : Mode} (cfg : Config) (p : Pair) (w : World)
    → IsPair m p
    → IsPair m (reconnect_tcp cfg p w).pair
unfolding reconnect_tcp
reconnect_tcp-IsPair {m} cfg p w v =
    if_cases (λ (x : Served). IsPair m x.pair) (is_neg made.0)
      (record { value = minus_one; pair = p; world = made.1 })
      (record {
        value = pos 0;
        pair = record p { target_fd = made.0; target_ready = true };
        world = configure_tcp_socket cfg made.0 (set_nonblocking made.0 made.1).1;
      })
      (λ e. v)
      (λ e. record {
        plain = v.plain;
        hybrid = v.hybrid;
        active = v.active;
        used = v.used;
        alone = v.alone;
        free_fd = λ g r. cc;
        free_conn = λ g r. cc;
      })
  where
    made : ℤ × World
    made = connect_to_target cfg.target_ip w

without-IsPair :
    {m : Mode} (p : Pair)
    → IsPair m p
    → p.use_hybrid_transport ≡ false
    → IsPair m (record p { ht_conn = none })
without-IsPair p v u = record {
  plain = λ e. refl;
  hybrid = tt;
  active = v.active;
  used = λ e. cc;
  alone = v.alone;
  free_fd = v.free_fd;
  free_conn = λ e r. refl;
}

-- The hybrid branch of `reconnect`.
abbrev hybrid_first : Config → Served → Served
hybrid_first cfg h =
    if is_neg h.value
    then reconnect_tcp cfg h.pair h.world
    else record { value = pos 0; pair = record h.pair { target_ready = true }; world = h.world }

hybrid_first-IsPair :
    {m : Mode} (cfg : Config) (p : Pair) (h : Served)
    → m ≢ tcp_only
    → IsPair m p
    → p.use_hybrid_transport ≡ false
    → Creation p h
    → IsPair m (hybrid_first cfg h).pair
hybrid_first-IsPair cfg p h d v u (refused n e) =
    rw n
      (reconnect_tcp-IsPair cfg h.pair h.world (subst (IsWired _) (sym e) (without-IsPair p v u)))
hybrid_first-IsPair {m} cfg p h d v u (made c k n e) = rw n (
    subst (λ (x : Wiring). IsWired m (record x { target_ready = true })) (sym e)
      (record {
        plain = λ q. absurd (d q);
        hybrid = k;
        active = v.active;
        used = λ q. refl;
        alone = v.alone;
        free_fd = λ g r. cc;
        free_conn = λ g r. cc;
      }))

module _ (cfg : Config) (p : Pair) (w : World) where
  reconnect-modes :
      (m : Mode)
      → cfg.transport_mode ≡ m
      → (reconnect cfg p w ≡ reconnect_tcp cfg p w)
        ⊎ ((cfg.transport_mode ≢ tcp_only)
            × (reconnect cfg p w
                ≡ hybrid_first cfg
                    (create_hybrid_connection cfg p cfg.target_ip cfg.target_port w)))
  unfolding reconnect
  reconnect-modes tcp_only e = inl (ground (arith, e))
  reconnect-modes udp_only e = inr (λ q. absurd (cc (e, q)), ground (arith, e))
  reconnect-modes hybrid e = inr (λ q. absurd (cc (e, q)), ground (arith, e))
  reconnect-modes auto e = inr (λ q. absurd (cc (e, q)), ground (arith, e))

  reconnect-IsPair :
      IsPair cfg.transport_mode p
      → p.use_hybrid_transport ≡ false
      → IsPair cfg.transport_mode (reconnect cfg p w).pair
  reconnect-IsPair v u = elim (reconnect-modes cfg.transport_mode refl) [
    | inl e ↦
        subst (λ (s : Served). IsPair cfg.transport_mode s.pair) (sym e)
          (reconnect_tcp-IsPair cfg p w v)
    | inr (d, e) ↦
        subst (λ (s : Served). IsPair cfg.transport_mode s.pair) (sym e)
          (hybrid_first-IsPair cfg p _ d v u
            (create_hybrid-Creation cfg p cfg.target_ip cfg.target_port w))
  ]

-- Without a usable connection to the target, a pair does not use a hybrid one.
unused :
    {m : Mode} (p : Pair)
    → IsPair m p
    → p.client_disconnected ≡ true
    → (p.target_ready && (is_pos p.target_fd || has_hybrid p)) ≡ false
    → p.use_hybrid_transport ≡ false
unused p v g h = elim (Bool-cases p.use_hybrid_transport) [
  | inr e ↦ e
  | inl e ↦ absurd (no_conn e (Option-cases p.ht_conn) (Bool-cases p.target_ready))
]
  where
    no_conn :
        p.use_hybrid_transport ≡ true
        → (p.ht_conn ≡ none) ⊎ ((c : Conn) × (p.ht_conn ≡ some c))
        → (p.target_ready ≡ true) ⊎ (p.target_ready ≡ false)
        → ⊥
    no_conn e (inl f) r = absurd (cc (v.used e, f))
    no_conn e (inr f) (inl r) = absurd (ground (arith, h, f.1, r, e))
    no_conn e (inr f) (inr r) = absurd (cc (v.free_conn g r, f.1))

-- `try_reconnect_target` keeps a pair well formed.
pub try_reconnect_target-IsPair :
    (cfg : Config) (p : Pair) (w : World)
    → IsPair cfg.transport_mode p
    → IsPair cfg.transport_mode (try_reconnect_target cfg p w).pair
unfolding try_reconnect_target
try_reconnect_target-IsPair cfg p w v =
    if_cases Good limited (record { value = minus_one; pair = p; world = w })
      (if alive then record { value = pos 0; pair = q; world = w } else reconnect cfg q w) (λ e. v)
      (λ e.
        if_cases Good alive (record { value = pos 0; pair = q; world = w }) (reconnect cfg q w)
          (λ f. v) (λ f. reconnect-IsPair cfg q w v (unused p v (gone e) f)))
  where
    Good : Served → Type 0
    Good s = IsPair cfg.transport_mode s.pair

    q : Pair
    q = record p { reconnect_attempts = p.reconnect_attempts +ℤ pos 1 }

    limited : Bool
    limited =
        not p.client_disconnected || not (ltb_ℤ p.reconnect_attempts cfg.max_reconnect_attempts)

    alive : Bool
    alive = p.target_ready && (is_pos p.target_fd || has_hybrid p)

    gone : limited ≡ false → p.client_disconnected ≡ true
    gone e = ground (arith, e)
