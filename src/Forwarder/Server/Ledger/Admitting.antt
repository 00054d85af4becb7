-- ===== src/Forwarder/Server/Ledger/Admitting.antt =====
-- The descriptors over a client that connects.
use remote_trans.Base.{
  ℕ, zero, suc, ◌+◌, ◌≡◌, refl, ap, ◌∙◌, true, Option, none, some, List, [], ◌∷◌, ◌++◌, ℤ, pos,
  pos_part, arith, is_neg, ltb_ℤ, if_cases, take, length, get_elem?, All,
}
use remote_trans.World.{World, reply, after, time, close, accept}
use remote_trans.Forwarder.Types.{Pair, Config, connecting, connected}
use remote_trans.Forwarder.State.{set_connection_state, reset_connection_for_reuse}
use remote_trans.Forwarder.Pool.Removal.{live}
use remote_trans.Forwarder.Reconnect.{connect_to_target}
use remote_trans.Forwarder.Wiring.{IsPair}
use remote_trans.Forwarder.Wiring.Frame.{set_connection_state-wiring}
use remote_trans.Forwarder.Server.{Server, put_at}
use remote_trans.Forwarder.Server.Slots.{
  get_elem?-take, take-put_at_lem, take-put_at_end, take-put_at_beyond,
}
use remote_trans.Forwarder.Server.Admission.{
  tune, new_pair, put_pair, count_new, admit_new, admit_reused, reusable, admit_at, admit,
  accept_client,
}
use remote_trans.Forwarder.Server.Admission.Reuse.{Reusable, reusable-Reusable}
use remote_trans.Forwarder.Server.Invariant.{IsTable}
use remote_trans.Forwarder.Server.Invariant.Admitting.{All-get_elem?}
use remote_trans.Forwarder.Server.Closing.{held, held_by_all}
use remote_trans.Forwarder.Server.Closing.Shutdown.{held_by_all-append}
use remote_trans.Descriptors.{
  one, Synced, Books, Books-call, Books-quiet, Books-then, Books-trans, Books-as, negative-one,
}
use remote_trans.Forwarder.Server.Ledger.{positive-one}
use remote_trans.Forwarder.Server.Ledger.Quiet.{Quiet, set_connection_state-Quiet}
use remote_trans.Forwarder.Server.Ledger.Reconnecting.{tune-Quiet, connect_to_target-Books}

held_by_all-put_at :
    (fd : ℤ) (i : ℕ) (q : Pair) (ps : List Pair) {p : Pair}
    → get_elem? ps i ≡ some p
    → held_by_all fd (put_at i q ps) + held fd p ≡ held_by_all fd ps + held fd q
held_by_all-put_at fd i q [] h = cc
held_by_all-put_at fd zero q (x ∷ xs) {p} h = ground (arith, h)
held_by_all-put_at fd (suc i) q (x ∷ xs) {p} h =
    omega (arith, held_by_all-put_at fd i q xs {p = p} h)

new_pair-wired :
    (cfg : Config) (fd : ℤ) (w : World)
    → let p = (new_pair cfg fd w).0 in (p.client_fd ≡ fd) × (p.ht_conn ≡ none)
unfolding new_pair set_connection_state
new_pair-wired cfg fd w = (refl, refl)

new_pair-Quiet :
    (n : ℕ) (cfg : Config) (fd : ℤ) (w : World) → Synced w → Quiet n w (new_pair cfg fd w).1
unfolding new_pair
new_pair-Quiet n cfg fd w v =
    let b1 = Books-quiet n time w v refl refl in
    let b2 = Books-quiet n time (after time w) b1.synced refl refl in
    Books-trans n w _ _ 0 0 0 (Books-trans n w _ _ 0 0 0 b1 b2)
      (set_connection_state-Quiet n _ connecting none (after time (after time w)) b2.synced)

module _ (n : ℕ) (cfg : Config) (s : Server) where
  -- The new descriptor `fd` is closed or held.
  abbrev Taken : ℤ → World → Server × World → Type 0
  Taken fd w x =
      Books (suc n) w (one (suc n) fd + held_by_all (pos (suc n)) (live s.pool)) x.1
        (held_by_all (pos (suc n)) (live x.0.pool))

  module _ (size : length s.pool.connections ≡ pos_part cfg.max_clients) where
    admit_new-Taken :
        (fd : ℤ) (w : World)
        → Synced w
        → ltb_ℤ (pos s.pool.connection_count) cfg.max_clients ≡ true
        → Taken fd w (admit_new cfg fd s w)
    unfolding admit_new
    admit_new-Taken fd w v h =
        if_cases (Taken fd w) (is_neg target.0) (put_pair count made.0 s, after (close fd) target.1)
          (count_new (put_pair count done.0 s), done.1)
          (λ e.
            Books-as m w _ _ _ _ _
              (omega (arith, negative-one m target.0 e, ap (held_by_all (pos m)) unchanged))
              (Books-then m w target.1 _ _ _ _ _ b3 (Books-call m (close fd) target.1 b3.synced)))
          (λ e.
            Books-as m w _ _ _ _ _
              (omega (
                arith,
                ap (held_by_all (pos m)) longer,
                held_by_all-append (pos m) (live s.pool) (done.0 ∷ []),
                holds,
              ))
              (Books-then m w target.1 done.1 _ _ _ _ b3 b5))
      where
        m : ℕ
        m = suc n

        count : ℕ
        count = s.pool.connection_count

        made : Pair × World
        made = new_pair cfg fd (tune cfg fd w)

        target : ℤ × World
        target = connect_to_target cfg.target_ip made.1

        done : Pair × World
        done =
            set_connection_state (record made.0 { target_fd = target.0 }) connected none
              (tune cfg target.0 target.1)

        b1 : Quiet m w (tune cfg fd w)
        b1 = tune-Quiet m cfg fd w v

        b2 : Quiet m (tune cfg fd w) made.1
        b2 = new_pair-Quiet m cfg fd (tune cfg fd w) b1.synced

        b3 : Books m w 0 target.1 (one m target.0)
        b3 =
            Books-trans m w made.1 target.1 0 0 _ (Books-trans m w _ made.1 0 0 0 b1 b2)
              (connect_to_target-Books n cfg.target_ip made.1 b2.synced)

        b4 : Quiet m target.1 (tune cfg target.0 target.1)
        b4 = tune-Quiet m cfg target.0 target.1 b3.synced

        b5 : Quiet m target.1 done.1
        b5 =
            Books-trans m target.1 _ done.1 0 0 0 b4
              (set_connection_state-Quiet m _ connected none _ b4.synced)

        unchanged : take count (put_at count made.0 s.pool.connections) ≡ live s.pool
        unchanged = take-put_at_beyond count count made.0 s.pool.connections (omega arith)

        longer :
            take (count + 1) (put_at count done.0 s.pool.connections) ≡ live s.pool ++ done.0 ∷ []
        longer =
            ap (λ k. take k (put_at count done.0 s.pool.connections)) {x = count + 1}
              {y = suc count} (omega arith)
            ∙ take-put_at_end count done.0 s.pool.connections (ground (arith, h, size))

        holds : held (pos m) done.0 ≡ one m fd + one m target.0
        holds = ground (
          arith,
          set_connection_state-wiring (record made.0 { target_fd = target.0 }) connected none
              (tune cfg target.0 target.1),
          new_pair-wired cfg fd (tune cfg fd w),
          positive-one n fd,
          positive-one n target.0,
        )

  admit_reused-Taken :
      (fd : ℤ) (i : ℕ) (p : Pair) (w : World)
      → All (IsPair cfg.transport_mode) (live s.pool)
      → Synced w
      → Reusable s.pool.connection_count s.pool.connections i p
      → Taken fd w (admit_reused cfg fd i p s w)
  unfolding admit_reused reset_connection_for_reuse
  admit_reused-Taken fd i p w c v r =
      Books-as m w _ _ _ _ _
        (ground
          (arith, positive-one n fd, well.alone r.gone, ap (held_by_all (pos m)) table, moved))
        (Books-trans m w w1 (after time w1) 0 0 0 b (Books-quiet m time w1 b.synced refl refl))
    where
      m : ℕ
      m = suc n

      w1 : World
      w1 = tune cfg fd w

      q : Pair
      q = (reset_connection_for_reuse (record p { client_fd = fd }) w1).0

      b : Quiet m w w1
      b = tune-Quiet m cfg fd w v

      at_index : get_elem? (live s.pool) i ≡ some p
      at_index = get_elem?-take i s.pool.connection_count s.pool.connections r.within ∙ r.found

      well : IsPair cfg.transport_mode p
      well = All-get_elem? i (live s.pool) c at_index

      table :
          take s.pool.connection_count (put_at i q s.pool.connections) ≡ put_at i q (live s.pool)
      table = take-put_at_lem s.pool.connection_count i q s.pool.connections

      moved :
          held_by_all (pos m) (put_at i q (live s.pool)) + held (pos m) p
          ≡ held_by_all (pos m) (live s.pool) + held (pos m) q
      moved = held_by_all-put_at (pos m) i q (live s.pool) at_index

  module _ (t : IsTable cfg s.pool) where
    admit_at-Taken :
        (fd : ℤ) (w : World) (o : Option (ℕ × Pair))
        → Synced w
        → reusable cfg s.pool ≡ o
        → Taken fd w (admit_at cfg fd o s w)
    unfolding admit_at
    admit_at-Taken fd w none v e =
        if_cases (Taken fd w) (ltb_ℤ (pos s.pool.connection_count) cfg.max_clients)
          (admit_new cfg fd s w) (s, after (close fd) w) (λ f. admit_new-Taken t.size fd w v f)
          (λ f. Books-as (suc n) w _ _ _ _ _ (omega arith) (Books-call (suc n) (close fd) w v))
    admit_at-Taken fd w (some (i, p)) v e =
        admit_reused-Taken fd i p w t.pairs v (reusable-Reusable cfg s.pool e)

    pub accept_client-Books :
        (listen_fd : ℤ) (w : World)
        → Synced w
        → let (x, u) = accept_client cfg listen_fd s w in
          Books
            (suc n)
            w
            (held_by_all (pos (suc n)) (live s.pool))
            u
            (held_by_all (pos (suc n)) (live x.pool))
    unfolding accept_client
    accept_client-Books listen_fd w v =
        if_cases
          (λ (x : Server × World).
            Books (suc n) w all x.1 (held_by_all (pos (suc n)) (live x.0.pool)))
          (is_neg fd) (s, w1) (admit cfg fd s w1)
          (λ e. Books-as (suc n) w w1 _ _ _ _ (omega (arith, negative-one (suc n) fd e)) b)
          (λ e.
            Books-trans (suc n) w w1 _ all (one (suc n) fd + all) _
              (Books-as (suc n) w w1 0 _ _ _ (omega arith) b)
              (admit_at-Taken fd w1 _ b.synced refl))
      where
        all : ℕ
        all = held_by_all (pos (suc n)) (live s.pool)

        fd : ℤ
        fd = (reply (accept listen_fd) w).ret

        w1 : World
        w1 = after (accept listen_fd) w

        b : Books (suc n) w 0 w1 (one (suc n) fd)
        b = Books-call (suc n) (accept listen_fd) w v
