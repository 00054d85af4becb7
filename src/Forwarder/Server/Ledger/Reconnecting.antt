-- ===== src/Forwarder/Server/Ledger/Reconnecting.antt =====
-- The descriptors over a new connection of rdp_forwarder.c to the target, in the mode TCP only.
use remote_trans.Base.{
  ℕ, suc, ◌≡◌, refl, true, false, List, ℤ, pos, minus_one, arith, is_neg, is_pos, if_cases, ◌+ℤ◌,
}
use remote_trans.World.{World, reply, after, socket_stream, inet_pton, connect, close, setsockopt}
use remote_trans.Transport.Types.{tcp_only}
use remote_trans.Forwarder.Types.{Pair, Config, Served}
use remote_trans.Forwarder.Reconnect.{
  served, connect_to_target, configure_tcp_socket, reconnect_tcp, reconnect, try_reconnect_target,
}
use remote_trans.Forwarder.Wiring.{IsPair}
use remote_trans.Forwarder.Server.Admission.{tune}
use remote_trans.Forwarder.Server.Closing.{held}
use remote_trans.Descriptors.{
  one, Synced, Books, Books-nothing, Books-call, Books-quiet, Books-then, Books-as, negative-one,
}
use remote_trans.Forwarder.Server.Ledger.{positive-one}
use remote_trans.Forwarder.Server.Ledger.Quiet.{Quiet}
use remote_trans.Transport.Socket.Balance.{set_nonblocking-Books}

module _ (n : ℕ) where
  configure_tcp_socket-Quiet :
      (cfg : Config) (fd : ℤ) (w : World) → Synced w → Quiet n w (configure_tcp_socket cfg fd w)
  unfolding configure_tcp_socket
  configure_tcp_socket-Quiet cfg fd w v =
      let s1 = Books-quiet n (setsockopt fd) w v refl refl in
      let s2 = Books-quiet n (setsockopt fd) (after (setsockopt fd) w) s1.synced refl refl in
      let w2 = after (setsockopt fd) (after (setsockopt fd) w) in
      let s3 = Books-quiet n (setsockopt fd) w2 s2.synced refl refl in
      let s4 = Books-quiet n (setsockopt fd) (after (setsockopt fd) w2) s3.synced refl refl in
      ground (arith, Books-nothing n w 0 v, s1, s2, s3, s4)

  pub tune-Quiet : (cfg : Config) (fd : ℤ) (w : World) → Synced w → Quiet n w (tune cfg fd w)
  tune-Quiet cfg fd w v =
      let b = set_nonblocking-Books n fd w v in
      Books-then n w _ _ 0 0 0 0 b (configure_tcp_socket-Quiet cfg fd _ b.synced)

module _ (n : ℕ) where
  pub connect_to_target-Books :
      (ip : List ℕ) (w : World)
      → Synced w
      → let (fd, u) = connect_to_target ip w in Books (suc n) w 0 u (one (suc n) fd)
  unfolding connect_to_target
  connect_to_target-Books ip w v = ground (arith, b1, b2, b3, b4, b5)
    where
      m : ℕ
      m = suc n

      fd : ℤ
      fd = (reply socket_stream w).ret

      w1 : World
      w1 = after socket_stream w

      b1 : Books m w 0 w1 (one m fd)
      b1 = Books-call m socket_stream w v

      w2 : World
      w2 = after (inet_pton ip) w1

      b2 : Books m w1 0 w2 0
      b2 = Books-quiet m (inet_pton ip) w1 b1.synced refl refl

      b3 : Books m w2 0 (after (connect fd) w2) 0
      b3 = Books-quiet m (connect fd) w2 b2.synced refl refl

      b4 : Books m w2 (one m fd) (after (close fd) w2) 0
      b4 = Books-call m (close fd) w2 b2.synced

      b5 : Books m (after (connect fd) w2) (one m fd) (after (close fd) (after (connect fd) w2)) 0
      b5 = Books-call m (close fd) (after (connect fd) w2) b3.synced

  reconnect_tcp-Books :
      (cfg : Config) (p : Pair) (w : World)
      → Synced w
      → is_pos p.target_fd ≡ false
      → let s = reconnect_tcp cfg p w in
        Books (suc n) w (held (pos (suc n)) p) s.world (held (pos (suc n)) s.pair)
  unfolding reconnect_tcp
  reconnect_tcp-Books cfg p w v h =
      if_cases (λ (s : Served). Books m w (held (pos m) p) s.world (held (pos m) s.pair))
        (is_neg fd) (served minus_one p u)
        (served (pos 0) (record p { target_fd = fd; target_ready = true }) (tune cfg fd u))
        (λ e. Books-as m w u 0 _ _ _ (omega (arith, negative-one m fd e)) made)
        (λ e.
          Books-as m w _ _ _ _ _ (ground (arith, h, positive-one n fd))
            (Books-then m w u _ 0 _ 0 0 made (tune-Quiet m cfg fd u made.synced)))
    where
      m : ℕ
      m = suc n

      fd : ℤ
      fd = (connect_to_target cfg.target_ip w).0

      u : World
      u = (connect_to_target cfg.target_ip w).1

      made : Books m w 0 u (one m fd)
      made = connect_to_target-Books cfg.target_ip w v

  -- Only the mode TCP only is left of `reconnect`.
  reconnect-plain :
      (cfg : Config) (p : Pair) (w : World)
      → cfg.transport_mode ≡ tcp_only
      → reconnect cfg p w ≡ reconnect_tcp cfg p w
  unfolding reconnect
  reconnect-plain cfg p w e = ground (arith, e)

  pub try_reconnect_target-Books :
      (cfg : Config) (p : Pair) (w : World)
      → cfg.transport_mode ≡ tcp_only
      → IsPair tcp_only p
      → Synced w
      → let s = try_reconnect_target cfg p w in
        Books (suc n) w (held (pos (suc n)) p) s.world (held (pos (suc n)) s.pair)
  unfolding try_reconnect_target
  try_reconnect_target-Books cfg p w m c v = ground (
    arith,
    m,
    c,
    Books-nothing (suc n) w (held (pos (suc n)) p) v,
    reconnect-plain cfg q w m,
    reconnect_tcp-Books cfg q w v,
  )
    where
      q : Pair
      q = record p { reconnect_attempts = p.reconnect_attempts +ℤ pos 1 }
