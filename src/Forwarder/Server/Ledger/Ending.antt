-- ===== src/Forwarder/Server/Ledger/Ending.antt =====
-- The descriptors over the start and the end of `main`.
use remote_trans.Base.{
  ℕ, zero, suc, ◌+◌, ◌≡◌, refl, sym, ap, ◌∙◌, true, some, List, [], ◌∷◌, ◌++◌, ℤ, pos, arith,
  length, take, drop, get_elem?, subst, All, if_cases,
}
use remote_trans.World.{
  World, reply, after, malloc, time, socket_stream, setsockopt, bind, listen, close,
}
use remote_trans.Transport.Types.{tcp_only}
use remote_trans.Transport.Socket.{ht_init, ht_cleanup}
use remote_trans.Forwarder.Types.{Pair, Pool}
use remote_trans.Forwarder.Pool.{cleanup_connection}
use remote_trans.Forwarder.Pool.Removal.{live, IsPool, cleanup_removes}
use remote_trans.Forwarder.Wiring.{IsPair}
use remote_trans.Forwarder.Server.{Server, init_stats, create_listen_socket}
use remote_trans.Forwarder.Server.Slots.{get_elem?-take, get_elem?-within, cleanup_world}
use remote_trans.Forwarder.Server.Rounds.{Running, cleanup_all, shut_down, start}
use remote_trans.Forwarder.Server.Invariant.Admitting.{All-get_elem?}
use remote_trans.Forwarder.Server.Closing.{held, held_by_all}
use remote_trans.Descriptors.{
  one, opened, closed, Synced, Books, Books-nothing, Books-call, Books-quiet, Books-then, Books-as,
}
use remote_trans.Forwarder.Server.Ledger.Closed.{close_pair-Books}

-- A list without one of its pairs.
abbrev without : ℕ → List Pair → List Pair
without i ps = take i ps ++ drop (suc i) ps

All-without :
    (i : ℕ) (ps : List Pair) → All (IsPair tcp_only) ps → All (IsPair tcp_only) (without i ps)
All-without zero [] c = tt
All-without (suc i) [] c = tt
All-without zero (p ∷ ps) c = c.1
All-without (suc i) (p ∷ ps) c = (c.0, All-without i ps c.1)

held_by_all-without :
    (fd : ℤ) (i : ℕ) (ps : List Pair) {p : Pair}
    → get_elem? ps i ≡ some p
    → held_by_all fd ps ≡ held fd p + held_by_all fd (without i ps)
held_by_all-without fd i [] h = cc
held_by_all-without fd zero (q ∷ qs) {p} h = ground (arith, h)
held_by_all-without fd (suc i) (q ∷ qs) {p} h = omega (arith, held_by_all-without fd i qs {p = p} h)

module _ (n : ℕ) where
  cleanup_all-Books :
      (k : ℕ) (t : Pool) (w : World)
      → IsPool t
      → k ≡ t.connection_count
      → All (IsPair tcp_only) (live t)
      → Synced w
      → Books (suc n) w (held_by_all (pos (suc n)) (live t)) (cleanup_all k t w).1 0
  unfolding cleanup_all
  cleanup_all-Books zero t w v h c s =
      Books-as (suc n) w w 0 0 _ _
        (omega (arith, ap (λ j. held_by_all (pos (suc n)) (take j t.connections)) {x = 0} h))
        (Books-nothing (suc n) w 0 s)
  cleanup_all-Books (suc k) t w v h c s =
      Books-as (suc n) w _ _ _ _ _ (omega (arith, sums, ap (held_by_all (pos (suc n))) kept.0)) (
        Books-then (suc n) w removed.1 _ _ _ _ _ one_closed (
          cleanup_all-Books k removed.0 removed.1 (omega (arith, kept.1, kept.2, v))
            (omega (arith, kept.1))
            (subst (All (IsPair tcp_only)) (sym kept.0) (All-without k (live t) c))
            one_closed.synced))
    where
      found : (p : Pair) × (get_elem? t.connections k ≡ some p)
      found = get_elem?-within k t.connections (omega arith)

      removed : Pool × World
      removed = cleanup_connection (pos k) t w

      kept :
          (live removed.0 ≡ take k (live t) ++ drop (suc k) (live t))
          × (removed.0.connection_count + 1 ≡ t.connection_count)
          × (length removed.0.connections ≡ length t.connections)
      kept = cleanup_removes k t w v (omega arith)

      in_use : get_elem? (live t) k ≡ some found.0
      in_use = get_elem?-take k t.connection_count t.connections (omega arith) ∙ found.1

      sums :
          held_by_all (pos (suc n)) (live t)
          ≡ held (pos (suc n)) found.0 + held_by_all (pos (suc n)) (without k (live t))
      sums = held_by_all-without (pos (suc n)) k (live t) in_use

      one_closed : Books (suc n) w (held (pos (suc n)) found.0) removed.1 0
      one_closed =
          subst (λ (u : World). Books (suc n) w (held (pos (suc n)) found.0) u 0)
            (sym (cleanup_world k t w (omega arith) found.1))
            (close_pair-Books n found.0 w ((All-get_elem? k (live t) c in_use).plain refl) s)

  pub shut_down-Books :
      (listen_fd : ℤ) (s : Server) (w : World)
      → IsPool s.pool
      → All (IsPair tcp_only) (live s.pool)
      → Synced w
      → Books
          (suc n)
          w
          (held_by_all (pos (suc n)) (live s.pool) + one (suc n) listen_fd)
          (shut_down listen_fd s w).1
          0
  unfolding shut_down ht_cleanup opened closed
  shut_down-Books listen_fd s w i c v =
      let b = cleanup_all-Books s.pool.connection_count s.pool w i refl c v in
      let b2 =
        Books-then (suc n) w _ _ _ _ _ 0 b (Books-call (suc n) (close listen_fd) _ b.synced) in
      record { script = b2.script; synced = b2.synced; balance = b2.balance }

  create_listen_socket-Books :
      (w : World)
      → Synced w
      → let (fd, u) = create_listen_socket w in Books (suc n) w 0 u (one (suc n) fd)
  unfolding create_listen_socket
  create_listen_socket-Books w v = ground (arith, b1, b2, b3, b4, b5, b6)
    where
      m : ℕ
      m = suc n

      fd : ℤ
      fd = (reply socket_stream w).ret

      w1 : World
      w1 = after socket_stream w

      b1 : Books m w 0 w1 (one m fd)
      b1 = Books-call m socket_stream w v

      w2 : World
      w2 = after (setsockopt fd) w1

      b2 : Books m w1 0 w2 0
      b2 = Books-quiet m (setsockopt fd) w1 b1.synced refl refl

      w3 : World
      w3 = after (bind fd) w2

      b3 : Books m w2 0 w3 0
      b3 = Books-quiet m (bind fd) w2 b2.synced refl refl

      b4 : Books m w3 0 (after (listen fd) w3) 0
      b4 = Books-quiet m (listen fd) w3 b3.synced refl refl

      b5 : Books m w3 (one m fd) (after (close fd) w3) 0
      b5 = Books-call m (close fd) w3 b3.synced

      b6 : Books m (after (listen fd) w3) (one m fd) (after (close fd) (after (listen fd) w3)) 0
      b6 = Books-call m (close fd) (after (listen fd) w3) b4.synced

  ht_init-Books : (w : World) → Synced w → Books (suc n) w 0 (ht_init w).1 0
  unfolding ht_init opened closed
  ht_init-Books w v =
      let b = Books-quiet (suc n) time w v refl refl in
      if_cases (λ (x : ℤ × World). Books (suc n) w 0 x.1 0) w.initialized (pos 0, w)
        (pos 0, record (after time w) { initialized = true }) (λ e. Books-nothing (suc n) w 0 v)
        (λ e. record { script = b.script; synced = b.synced; balance = b.balance })

  pub start-Books :
      (memory : List Pair) (w : World) {fd : ℤ} {x : Running}
      → Synced w
      → start memory w ≡ some (fd, x)
      → Books (suc n) w 0 x.world (one (suc n) fd + held_by_all (pos (suc n)) (live x.server.pool))
  unfolding start ht_init init_stats
  start-Books memory w {fd} {x} v h = ground (arith, h, b1, b2, b3, b4)
    where
      m : ℕ
      m = suc n

      w1 : World
      w1 = (ht_init w).1

      b1 : Books m w 0 w1 0
      b1 = ht_init-Books w v

      w2 : World
      w2 = after malloc w1

      b2 : Books m w1 0 w2 0
      b2 = Books-quiet m malloc w1 b1.synced refl refl

      w3 : World
      w3 = after time w2

      b3 : Books m w2 0 w3 0
      b3 = Books-quiet m time w2 b2.synced refl refl

      b4 : let (r, u) = create_listen_socket w3 in Books m w3 0 u (one m r)
      b4 = create_listen_socket-Books w3 b3.synced
