-- ===== src/Forwarder/Server/Invariant/Admitting.antt =====
-- The globals over a client that connects.
use remote_trans.Base.{
  ℕ, zero, suc, ◌+◌, ◌<◌, ◌≡◌, refl, sym, ap, ◌∙◌, true, false, Option, none, some, List, [], ◌∷◌,
  ◌++◌, ℤ, pos, arith, length, take, get_elem?, is_neg, ltb_ℤ, if_cases, subst, All, All-append,
}
use remote_trans.World.{World, reply, after, close, accept}
use remote_trans.Transport.Types.{Mode}
use remote_trans.Forwarder.Types.{Pair, Config, connected}
use remote_trans.Forwarder.State.{set_connection_state}
use remote_trans.Forwarder.Pool.Removal.{live}
use remote_trans.Forwarder.Reconnect.{connect_to_target}
use remote_trans.Forwarder.Wiring.{IsWired, IsPair}
use remote_trans.Forwarder.Wiring.Frame.{
  set_connection_state-wiring, reset_connection_for_reuse-IsPair,
}
use remote_trans.Forwarder.Server.{Server, put_at}
use remote_trans.Forwarder.Server.Slots.{get_elem?-take, length-put_at, take-put_at_end}
use remote_trans.Forwarder.Server.Admission.{
  tune, new_pair, put_pair, count_new, admit_new, admit_reused, reusable, admit_at, admit,
  accept_client,
}
use remote_trans.Forwarder.Server.Admission.Reuse.{Reusable, reusable-Reusable}
use remote_trans.Forwarder.Server.Invariant.{IsTable}

pub All-get_elem? :
    {m : Mode} (i : ℕ) (ps : List Pair) {p : Pair}
    → All (IsPair m) ps
    → get_elem? ps i ≡ some p
    → IsPair m p
All-get_elem? i [] v h = cc
All-get_elem? zero (q ∷ qs) {p} v h = subst (IsPair _) {x = q} {y = p} (cc h) v.0
All-get_elem? (suc i) (q ∷ qs) v h = All-get_elem? i qs v.1 h

All-put_at :
    {m : Mode} (i n : ℕ) (p : Pair) (ps : List Pair)
    → IsPair m p
    → All (IsPair m) (take n ps)
    → All (IsPair m) (take n (put_at i p ps))
All-put_at i zero p ps k v = tt
All-put_at i (suc n) p [] k v = tt
All-put_at zero (suc n) p (q ∷ qs) k v = (k, v.1)
All-put_at (suc i) (suc n) p (q ∷ qs) k v = (v.0, All-put_at i n p qs k v.1)

new_pair-IsPair : {m : Mode} (cfg : Config) (fd : ℤ) (w : World) → IsPair m (new_pair cfg fd w).0
unfolding new_pair set_connection_state
new_pair-IsPair cfg fd w = record {
  plain = λ e. refl;
  hybrid = tt;
  active = refl;
  used = λ e. cc;
  alone = λ e. cc;
  free_fd = λ e r. cc;
  free_conn = λ e r. refl;
}

new_pair-client :
    (cfg : Config) (fd : ℤ) (w : World) → (new_pair cfg fd w).0.client_disconnected ≡ false
unfolding new_pair set_connection_state
new_pair-client cfg fd w = refl

-- A pair whose client is there may have any target.
targeted-IsPair :
    {m : Mode} (p : Pair) (fd : ℤ)
    → IsPair m p
    → p.client_disconnected ≡ false
    → IsPair m (record p { target_fd = fd })
targeted-IsPair p fd v g = record {
  plain = v.plain;
  hybrid = v.hybrid;
  active = v.active;
  used = v.used;
  alone = v.alone;
  free_fd = λ e r. cc;
  free_conn = v.free_conn;
}

module _ (cfg : Config) (s : Server) (v : IsTable cfg s.pool) where
  put_pair-IsTable :
      (i : ℕ) (p : Pair) → IsPair cfg.transport_mode p → IsTable cfg (put_pair i p s).pool
  put_pair-IsTable i p k = record {
    size = length-put_at i p s.pool.connections ∙ v.size;
    room = omega (arith, length-put_at i p s.pool.connections, v.room);
    pairs = All-put_at i s.pool.connection_count p s.pool.connections k v.pairs;
  }

  count_new-IsTable :
      (p : Pair)
      → IsPair cfg.transport_mode p
      → ltb_ℤ (pos s.pool.connection_count) cfg.max_clients ≡ true
      → IsTable cfg (count_new (put_pair s.pool.connection_count p s)).pool
  count_new-IsTable p k h = record {
    size = length-put_at n p s.pool.connections ∙ v.size;
    room = omega (arith, length-put_at n p s.pool.connections, room);
    pairs =
        subst (All (IsPair cfg.transport_mode)) (sym longer)
          (All-append (IsPair _) (take n s.pool.connections) (p ∷ []) v.pairs (k, tt));
  }
    where
      n : ℕ
      n = s.pool.connection_count

      room : n < length s.pool.connections
      room = ground (arith, h, v.size)

      longer : take (n + 1) (put_at n p s.pool.connections) ≡ take n s.pool.connections ++ p ∷ []
      longer =
          ap (λ m. take m (put_at n p s.pool.connections)) {x = n + 1} {y = suc n} (omega arith)
          ∙ take-put_at_end n p s.pool.connections room

  admit_new-IsTable :
      (fd : ℤ) (w : World)
      → ltb_ℤ (pos s.pool.connection_count) cfg.max_clients ≡ true
      → IsTable cfg (admit_new cfg fd s w).0.pool
  unfolding admit_new
  admit_new-IsTable fd w h =
      if_cases (λ (x : Server × World). IsTable cfg x.0.pool) (is_neg target.0)
        (put_pair s.pool.connection_count made.0 s, after (close fd) target.1)
        (count_new (put_pair s.pool.connection_count done.0 s), done.1)
        (λ e. put_pair-IsTable s.pool.connection_count made.0 (new_pair-IsPair cfg fd _))
        (λ e. count_new-IsTable done.0 ready h)
    where
      made : Pair × World
      made = new_pair cfg fd (tune cfg fd w)

      target : ℤ × World
      target = connect_to_target cfg.target_ip made.1

      done : Pair × World
      done =
          set_connection_state (record made.0 { target_fd = target.0 }) connected none
            (tune cfg target.0 target.1)

      ready : IsPair cfg.transport_mode done.0
      ready =
          subst (IsWired _)
            (sym (
              set_connection_state-wiring (record made.0 { target_fd = target.0 }) connected none
                _))
            (targeted-IsPair made.0 target.0 (new_pair-IsPair cfg fd _) (new_pair-client cfg fd _))

  admit_reused-IsTable :
      (fd : ℤ) (i : ℕ) (p : Pair) (w : World)
      → Reusable s.pool.connection_count s.pool.connections i p
      → IsTable cfg (admit_reused cfg fd i p s w).0.pool
  unfolding admit_reused
  admit_reused-IsTable fd i p w r = put_pair-IsTable i _ (
      reset_connection_for_reuse-IsPair p fd (tune cfg fd w) (
        All-get_elem? i (live s.pool) v.pairs
          (get_elem?-take i s.pool.connection_count s.pool.connections r.within ∙ r.found)))

  admit_at-IsTable :
      (fd : ℤ) (w : World) (o : Option (ℕ × Pair))
      → reusable cfg s.pool ≡ o
      → IsTable cfg (admit_at cfg fd o s w).0.pool
  unfolding admit_at
  admit_at-IsTable fd w none e =
      if_cases (λ (x : Server × World). IsTable cfg x.0.pool)
        (ltb_ℤ (pos s.pool.connection_count) cfg.max_clients) (admit_new cfg fd s w)
        (s, after (close fd) w) (λ f. admit_new-IsTable fd w f) (λ f. v)
  admit_at-IsTable fd w (some (i, p)) e =
      admit_reused-IsTable fd i p w (reusable-Reusable cfg s.pool e)

  pub accept_client-IsTable :
      (listen_fd : ℤ) (w : World) → IsTable cfg (accept_client cfg listen_fd s w).0.pool
  unfolding accept_client
  accept_client-IsTable listen_fd w =
      if_cases (λ (x : Server × World). IsTable cfg x.0.pool) (is_neg fd) (s, w1)
        (admit cfg fd s w1) (λ e. v) (λ e. admit_at-IsTable fd w1 _ refl)
    where
      fd : ℤ
      fd = (reply (accept listen_fd) w).ret

      w1 : World
      w1 = after (accept listen_fd) w
