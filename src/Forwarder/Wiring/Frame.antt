-- ===== src/Forwarder/Wiring/Frame.antt =====
-- The operations of rdp_forwarder.c that leave the connections of a pair as they are, and the end of
-- its client.
use remote_trans.Base.{
  ℕ, zero, suc, ◌≡◌, refl, Bool, true, false, not, Option, none, some, List, [], ◌∷◌, ℤ, pos,
  pos_part, arith, is_pos, is_set, take, drop, Option-cases, inl, inr, if_cases,
}
use remote_trans.World.{World, Reply, reply, after, malloc, time, usleep, send, recv}
use remote_trans.Transport.Types.{Mode}
use remote_trans.Forwarder.Types.{ConnState, Pair, Config, Served}
use remote_trans.Forwarder.State.{
  shut, close_positive, end_hybrid, set_connection_state, log_connection_error,
  handle_client_disconnect, reset_connection_for_reuse,
}
use remote_trans.Forwarder.Data.{Written, write_all, account_forwarded, peer_closed, forward_data}
use remote_trans.Forwarder.Wiring.{wiring, IsPair}

pub set_connection_state-wiring :
    (p : Pair) (s : ConnState) (reason : Option (List ℕ)) (w : World)
    → wiring (set_connection_state p s reason w).0 ≡ wiring p
unfolding set_connection_state
set_connection_state-wiring p s none w = ground arith
set_connection_state-wiring p s (some r) w = ground arith

pub log_connection_error-wiring :
    (p : Pair) (reason : List ℕ) (client : Bool) (w : World)
    → wiring (log_connection_error p reason client w).0 ≡ wiring p
unfolding log_connection_error
log_connection_error-wiring p reason client w = set_connection_state-wiring p _ (some reason) w

write_all-wiring :
    (fuel : ℕ) (fd : ℤ) (client : Bool) (reason rest : List ℕ) (p : Pair) (w : World) {a : Written}
    → write_all fuel fd client reason rest p w ≡ some a
    → wiring a.pair ≡ wiring p
unfolding write_all
write_all-wiring zero fd client reason rest p w h = cc
write_all-wiring (suc fuel) fd client reason [] p w {a} h = ground (arith, h)
write_all-wiring (suc fuel) fd client reason (b ∷ bs) p w {a} h =
    let r = reply (send fd (b ∷ bs)) w in
    let w1 = after (send fd (b ∷ bs)) w in
    ground (
      arith,
      h,
      log_connection_error-wiring p reason client w1,
      write_all-wiring fuel fd client reason (b ∷ bs) p (after (usleep 1000) w1) {a = a},
      write_all-wiring fuel fd client reason (drop (pos_part r.ret) (b ∷ bs)) p w1 {a = a},
    )

account_forwarded-wiring :
    (dir : Bool) (n : ℕ) (p : Pair) (w : World)
    → wiring (account_forwarded dir n p w).pair ≡ wiring p
unfolding account_forwarded set_connection_state
account_forwarded-wiring true n p w = ground arith
account_forwarded-wiring false n p w = ground arith

peer_closed-wiring :
    (cfg : Config) (dir : Bool) (p : Pair) (w : World)
    → wiring (peer_closed cfg dir p w).pair ≡ wiring p
unfolding peer_closed
peer_closed-wiring cfg dir p w = ground arith

-- `forward_data` leaves them as they are, on every path.
pub forward_data-wiring :
    (fuel : ℕ) (cfg : Config) (from_fd to_fd : ℤ) (dir : Bool) (reason : List ℕ) (p : Pair)
    (w : World) {s : Served}
    → forward_data fuel cfg from_fd to_fd dir reason p w ≡ some s
    → wiring s.pair ≡ wiring p
unfolding forward_data
forward_data-wiring fuel cfg from_fd to_fd dir reason p w {s} h =
    elim (Option-cases (write_all fuel to_fd (not dir) reason (take n r.bytes) p w2)) [
      | inl e ↦ ground (
        arith,
        h,
        e,
        log_connection_error-wiring p reason dir w2,
        peer_closed-wiring cfg dir p w2,
      )
      | inr found ↦ written found.0 found.1
    ]
  where
    w1 : World
    w1 = after malloc w

    r : Reply
    r = reply (recv from_fd) w1

    w2 : World
    w2 = after (recv from_fd) w1

    n : ℕ
    n = pos_part r.ret

    written :
        (a : Written)
        → write_all fuel to_fd (not dir) reason (take n r.bytes) p w2 ≡ some a
        → wiring s.pair ≡ wiring p
    written a e = ground (
      arith,
      h,
      e,
      log_connection_error-wiring p reason dir w2,
      peer_closed-wiring cfg dir p w2,
      write_all-wiring fuel to_fd (not dir) reason (take n r.bytes) p w2 {a = a} e,
      account_forwarded-wiring dir n a.pair a.world,
    )

shut-not_pos : (fd : ℤ) → is_pos (shut fd) ≡ false
shut-not_pos fd = ground arith

-- The end of a client keeps a pair well formed.
pub handle_client_disconnect-IsPair :
    {m : Mode} (cfg : Config) (p : Pair) (w : World)
    → IsPair m p
    → IsPair m (handle_client_disconnect cfg p w).0
unfolding handle_client_disconnect
handle_client_disconnect-IsPair {m} cfg p w v =
    if_cases (λ (x : Pair × World). IsPair m x.0) (is_set cfg.keep_target_alive)
      (record q { target_ready = true }, w2)
      (
        record q {
          target_fd = shut p.target_fd;
          ht_conn = none;
          target_ready = false;
          use_hybrid_transport = false;
        },
        end_hybrid p.ht_conn (close_positive p.target_fd w2),
      )
      (λ k. record {
        plain = v.plain;
        hybrid = v.hybrid;
        active = v.active;
        used = v.used;
        alone = λ e. shut-not_pos p.client_fd;
        free_fd = λ e r. cc;
        free_conn = λ e r. cc;
      })
      (λ k. record {
        plain = λ e. refl;
        hybrid = tt;
        active = v.active;
        used = λ e. cc;
        alone = λ e. shut-not_pos p.client_fd;
        free_fd = λ e r. shut-not_pos p.target_fd;
        free_conn = λ e r. refl;
      })
  where
    w1 : World
    w1 = close_positive p.client_fd w

    w2 : World
    w2 = after time w1

    q : Pair
    q = record p {
      client_fd = shut p.client_fd;
      client_disconnected = true;
      disconnect_time = (reply time w1).time.sec;
      reconnect_attempts = pos 0;
    }

pub reset_connection_for_reuse-IsPair :
    {m : Mode} (p : Pair) (fd : ℤ) (w : World)
    → IsPair m p
    → IsPair m (reset_connection_for_reuse (record p { client_fd = fd }) w).0
unfolding reset_connection_for_reuse
reset_connection_for_reuse-IsPair p fd w v = record {
  plain = v.plain;
  hybrid = v.hybrid;
  active = v.active;
  used = v.used;
  alone = λ e. cc;
  free_fd = λ e. cc;
  free_conn = λ e. cc;
}
