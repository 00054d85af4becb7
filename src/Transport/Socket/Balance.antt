-- ===== src/Transport/Socket/Balance.antt =====
-- The descriptors that `ht_connect` opens and closes.
use remote_trans.Base.{ℕ, ◌+◌, ◌≡◌, refl, true, ℤ, minus_one, arith, is_neg, if◌then◌else◌}
use remote_trans.World.{
  World, reply, after, gettimeofday, socket_dgram, socket_stream, setsockopt, fcntl_getfl,
  fcntl_setfl, close, connect,
}
use remote_trans.Descriptors.{
  one, Synced, Books, Books-nothing, Books-call, Books-quiet, negative-one,
}
use remote_trans.Transport.Types.{Mode, udp_only, tcp_only, hybrid, auto, Conn}
use remote_trans.Transport.Socket.{
  set_nonblocking, finish_socket, create_udp_socket, create_tcp_socket, close_open, step,
  connect_tcp, connect_udp, ht_connect,
}

-- What a connection holds of the descriptor `n`.
abbrev pub held : ℕ → Conn → ℕ
held n c = one n c.udp_fd + one n c.tcp_fd

module _ (n : ℕ) where
  pub set_nonblocking-Books :
      (fd : ℤ) (w : World) → Synced w → Books n w 0 (set_nonblocking fd w).1 0
  unfolding set_nonblocking
  set_nonblocking-Books fd w v =
      let b = Books-quiet n (fcntl_getfl fd) w v refl refl in
      ground
        (arith, b, Books-quiet n (fcntl_setfl fd) (after (fcntl_getfl fd) w) b.synced refl refl)

  -- A new descriptor is returned or closed.
  finish_socket-Books :
      (fd : ℤ) (w : World)
      → Synced w
      → let (x, u) = finish_socket fd w in Books n w (one n fd) u (one n x)
  unfolding finish_socket
  finish_socket-Books fd w v =
      let b = set_nonblocking-Books fd w v in
      let u = (set_nonblocking fd w).1 in ground (arith, b, Books-call n (close fd) u b.synced)

  create_udp_socket-Books :
      (w : World) → Synced w → let (x, u) = create_udp_socket w in Books n w 0 u (one n x)
  unfolding create_udp_socket
  create_udp_socket-Books w v =
      let fd = (reply socket_dgram w).ret in
      let b = Books-call n socket_dgram w v in
      let b2 = Books-quiet n (setsockopt fd) (after socket_dgram w) b.synced refl refl in
      ground (
        arith,
        b,
        b2,
        negative-one n fd,
        finish_socket-Books fd (after (setsockopt fd) (after socket_dgram w)) b2.synced,
      )

  create_tcp_socket-Books :
      (w : World) → Synced w → let (x, u) = create_tcp_socket w in Books n w 0 u (one n x)
  unfolding create_tcp_socket
  create_tcp_socket-Books w v =
      let fd = (reply socket_stream w).ret in
      let b = Books-call n socket_stream w v in
      let b2 = Books-quiet n (setsockopt fd) (after socket_stream w) b.synced refl refl in
      let w2 = after (setsockopt fd) (after socket_stream w) in
      let b3 = Books-quiet n (setsockopt fd) w2 b2.synced refl refl in
      ground (
        arith,
        b,
        b2,
        b3,
        negative-one n fd,
        finish_socket-Books fd (after (setsockopt fd) w2) b3.synced,
      )

  close_open-Books : (x : ℤ) (w : World) → Synced w → Books n w (one n x) (close_open x w) 0
  close_open-Books x w v =
      ground (arith, negative-one n x, Books-nothing n w 0 v, Books-call n (close x) w v)

  connect_tcp-Books :
      (c : Conn) (w : World)
      → Synced w
      → let s = connect_tcp c w in Books n w (one n c.udp_fd) s.world (held n s.conn)
  unfolding connect_tcp
  connect_tcp-Books c w v = ground (
    arith,
    b,
    negative-one n c.udp_fd,
    negative-one n fd,
    close_open-Books c.udp_fd w1 b.synced,
    b2,
    b3,
    close_open-Books c.udp_fd w3 b3.synced,
    Books-quiet n gettimeofday w3 b3.synced refl refl,
    Books-quiet n gettimeofday w2 b2.synced refl refl,
  )
    where
      fd : ℤ
      fd = (create_tcp_socket w).0

      w1 : World
      w1 = (create_tcp_socket w).1

      b : Books n w 0 w1 (one n fd)
      b = create_tcp_socket-Books w v

      w2 : World
      w2 = after (connect fd) w1

      b2 : Books n w1 0 w2 0
      b2 = Books-quiet n (connect fd) w1 b.synced refl refl

      w3 : World
      w3 = after (close fd) w2

      b3 : Books n w2 (one n fd) w3 0
      b3 = Books-call n (close fd) w2 b2.synced

  -- The modes with both sockets.
  both :
      (c : Conn) (w : World)
      → ht_connect c w ≡ (
          if c.is_connected
          then step minus_one c w
          else let u = connect_udp c w in if is_neg u.value then u else connect_tcp u.conn u.world)
      → is_neg c.udp_fd ≡ true
      → is_neg c.tcp_fd ≡ true
      → Synced w
      → let s = ht_connect c w in Books n w 0 s.world (held n s.conn)
  unfolding connect_udp
  both c w e udp tcp v =
      let b = create_udp_socket-Books w v in
      let d = record c { udp_fd = (create_udp_socket w).0 } in
      ground (
        arith,
        e,
        udp,
        tcp,
        b,
        negative-one n c.udp_fd,
        negative-one n c.tcp_fd,
        Books-nothing n w 0 v,
        connect_tcp-Books d (create_udp_socket w).1 b.synced,
      )

  -- `m` is the mode.
  pub connect-modes :
      (m : Mode) (c : Conn) (w : World)
      → c.mode ≡ m
      → is_neg c.udp_fd ≡ true
      → is_neg c.tcp_fd ≡ true
      → Synced w
      → let s = ht_connect c w in Books n w 0 s.world (held n s.conn)
  unfolding ht_connect connect_udp
  connect-modes udp_only c w e udp tcp v =
      let b = create_udp_socket-Books w v in
      ground (
        arith,
        e,
        udp,
        tcp,
        b,
        negative-one n c.udp_fd,
        negative-one n c.tcp_fd,
        Books-nothing n w 0 v,
        Books-quiet n gettimeofday (create_udp_socket w).1 b.synced refl refl,
      )
  connect-modes tcp_only c w e udp tcp v = ground (
    arith,
    e,
    udp,
    tcp,
    negative-one n c.udp_fd,
    negative-one n c.tcp_fd,
    Books-nothing n w 0 v,
    connect_tcp-Books c w v,
  )
  connect-modes hybrid c w e udp tcp v = both c w (ground (arith, e)) udp tcp v
  connect-modes auto c w e udp tcp v = both c w (ground (arith, e)) udp tcp v
