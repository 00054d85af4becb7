-- ===== src/Forwarder/Server/Closing/Shutdown.antt =====
-- The descriptors that are closed when `main` ends.
use remote_trans.Base.{
  ℕ, zero, suc, ◌+◌, ◌≡◌, refl, sym, ap, ◌∙◌, some, List, [], ◌∷◌, ◌++◌, ℤ, pos, arith, length,
  take, drop, take-append-drop, get_elem?,
}
use remote_trans.World.{World, after, close}
use remote_trans.Transport.Socket.{ht_cleanup}
use remote_trans.Forwarder.Types.{Pair, Pool}
use remote_trans.Forwarder.Pool.{cleanup_connection}
use remote_trans.Forwarder.Pool.Removal.{live, IsPool, cleanup_removes}
use remote_trans.Forwarder.Server.{Server}
use remote_trans.Forwarder.Server.Slots.{
  get_elem?-take, drop-get_elem?, get_elem?-within, cleanup_world,
}
use remote_trans.Forwarder.Server.Rounds.{cleanup_all, shut_down}
use remote_trans.Forwarder.Server.Closing.{closes, held, held_by_all, close_pair-closes}

module _ (fd : ℤ) where
  pub held_by_all-append :
      (xs ys : List Pair) → held_by_all fd (xs ++ ys) ≡ held_by_all fd xs + held_by_all fd ys
  held_by_all-append [] ys = omega arith
  held_by_all-append (x ∷ xs) ys = omega (arith, held_by_all-append xs ys)

  cleanup_all-closes :
      (n : ℕ) (t : Pool) (w : World)
      → IsPool t
      → n ≡ t.connection_count
      → let (u, w1) = cleanup_all n t w in
        (u.connection_count ≡ 0)
        × (closes fd w1.calls ≡ closes fd w.calls + held_by_all fd (live t))
  unfolding cleanup_all
  cleanup_all-closes zero t w v h =
      (sym h, omega (arith, ap (λ k. held_by_all fd (take k t.connections)) {x = 0} h))
  cleanup_all-closes (suc n) t w v h =
      let rest =
        cleanup_all-closes n removed.0 removed.1 (omega (arith, kept.1, kept.2, v))
          (omega (arith, kept.1)) in
      (rest.0, omega (arith, rest.1, one, before, ap (held_by_all fd) kept.0, after_it))
    where
      found : (p : Pair) × (get_elem? t.connections n ≡ some p)
      found = get_elem?-within n t.connections (omega arith)

      removed : Pool × World
      removed = cleanup_connection (pos n) t w

      kept :
          (live removed.0 ≡ take n (live t) ++ drop (suc n) (live t))
          × (removed.0.connection_count + 1 ≡ t.connection_count)
          × (length removed.0.connections ≡ length t.connections)
      kept = cleanup_removes n t w v (omega arith)

      one : closes fd removed.1.calls ≡ closes fd w.calls + held fd found.0
      one =
          ap (λ (x : World). closes fd x.calls) (cleanup_world n t w (omega arith) found.1)
          ∙ close_pair-closes fd found.0 w

      before :
          held_by_all fd (live t)
          ≡ held_by_all fd (take n (live t))
            + (held fd found.0 + held_by_all fd (drop (suc n) (live t)))
      before =
          ap (held_by_all fd) (sym (take-append-drop n (live t)))
          ∙ held_by_all-append (take n (live t)) (drop n (live t))
          ∙ ap (λ ps. held_by_all fd (take n (live t)) + held_by_all fd ps)
              (drop-get_elem? n (live t)
                (get_elem?-take n t.connection_count t.connections (omega arith) ∙ found.1))

      after_it :
          held_by_all fd (take n (live t) ++ drop (suc n) (live t))
          ≡ held_by_all fd (take n (live t)) + held_by_all fd (drop (suc n) (live t))
      after_it = held_by_all-append (take n (live t)) (drop (suc n) (live t))

-- The end of `main` empties the table, and closes each descriptor exactly as often as it was held: by
-- the pairs in use, as a client's or a target's descriptor above 0 or by their hybrid connections, and
-- once more for the listening descriptor. The count must fit the table.
pub shut_down-closes :
    (fd listen_fd : ℤ) (s : Server) (w : World)
    → IsPool s.pool
    → let (t, u) = shut_down listen_fd s w in
      (t.connection_count ≡ 0)
      × (closes fd u.calls
          ≡ closes fd w.calls + held_by_all fd (live s.pool) + closes fd (close listen_fd ∷ []))
unfolding shut_down ht_cleanup after
shut_down-closes fd listen_fd s w v =
    let c = cleanup_all-closes fd s.pool.connection_count s.pool w v refl in
    (c.0, omega (arith, c.1))
