-- ===== src/Forwarder/Server/Ledger/Quiet.antt =====
-- The operations of rdp_forwarder.c that open and close nothing.
use remote_trans.Base.{
  ℕ, zero, suc, ◌≡◌, refl, Bool, not, Option, none, some, List, [], ◌∷◌, ℤ, pos_part, arith, take,
  drop, Option-cases, inl, inr,
}
use remote_trans.World.{World, Reply, reply, after, malloc, usleep, send, recv, time}
use remote_trans.Forwarder.Types.{ConnState, Pair, Config, Served, active}
use remote_trans.Forwarder.State.{set_connection_state, log_connection_error}
use remote_trans.Forwarder.Data.{
  Written, write_all, account_forwarded, peer_closed, count_bytes, forward_data,
}
use remote_trans.Descriptors.{Synced, Books, Books-nothing, Books-quiet}

abbrev pub Quiet : ℕ → World → World → Type 0
Quiet n w u = Books n w 0 u 0

module _ (n : ℕ) where
  pub set_connection_state-Quiet :
      (p : Pair) (s : ConnState) (reason : Option (List ℕ)) (w : World)
      → Synced w
      → Quiet n w (set_connection_state p s reason w).1
  unfolding set_connection_state
  set_connection_state-Quiet p s reason w v =
      ground (arith, Books-nothing n w 0 v, Books-quiet n time w v refl refl)

  log_connection_error-Quiet :
      (p : Pair) (reason : List ℕ) (client : Bool) (w : World)
      → Synced w
      → Quiet n w (log_connection_error p reason client w).1
  unfolding log_connection_error
  log_connection_error-Quiet p reason client w v = set_connection_state-Quiet p _ (some reason) w v

  write_all-Quiet :
      (fuel : ℕ) (fd : ℤ) (client : Bool) (reason rest : List ℕ) (p : Pair) (w : World)
      {a : Written}
      → Synced w
      → write_all fuel fd client reason rest p w ≡ some a
      → Quiet n w a.world
  unfolding write_all
  write_all-Quiet zero fd client reason rest p w v h = cc
  write_all-Quiet (suc fuel) fd client reason [] p w {a} v h =
      ground (arith, h, Books-nothing n w 0 v)
  write_all-Quiet (suc fuel) fd client reason (b ∷ bs) p w {a} v h =
      let r = reply (send fd (b ∷ bs)) w in
      let w1 = after (send fd (b ∷ bs)) w in
      let w2 = after (usleep 1000) w1 in
      let b1 = Books-quiet n (send fd (b ∷ bs)) w v refl refl in
      let b2 = Books-quiet n (usleep 1000) w1 b1.synced refl refl in
      ground (
        arith,
        h,
        b1,
        b2,
        log_connection_error-Quiet p reason client w1 b1.synced,
        write_all-Quiet fuel fd client reason (b ∷ bs) p w2 {a = a} b2.synced,
        write_all-Quiet fuel fd client reason (drop (pos_part r.ret) (b ∷ bs)) p w1 {a = a}
            b1.synced,
      )

  account_forwarded-Quiet :
      (dir : Bool) (k : ℕ) (p : Pair) (w : World)
      → Synced w
      → Quiet n w (account_forwarded dir k p w).world
  unfolding account_forwarded
  account_forwarded-Quiet dir k p w v =
      let q = record (count_bytes dir k p) { last_activity = (reply time w).time.sec } in
      let b = Books-quiet n time w v refl refl in
      ground (arith, b, set_connection_state-Quiet q active none (after time w) b.synced)

  peer_closed-Quiet :
      (cfg : Config) (dir : Bool) (p : Pair) (w : World)
      → Synced w
      → Quiet n w (peer_closed cfg dir p w).world
  unfolding peer_closed
  peer_closed-Quiet cfg dir p w v = ground (arith, Books-quiet n time w v refl refl)

  pub forward_data-Quiet :
      (fuel : ℕ) (cfg : Config) (from_fd to_fd : ℤ) (dir : Bool) (reason : List ℕ) (p : Pair)
      (w : World) {s : Served}
      → Synced w
      → forward_data fuel cfg from_fd to_fd dir reason p w ≡ some s
      → Quiet n w s.world
  unfolding forward_data
  forward_data-Quiet fuel cfg from_fd to_fd dir reason p w {s} v h =
      elim (Option-cases (write_all fuel to_fd (not dir) reason (take k r.bytes) p w2)) [
        | inl e ↦ ground (
          arith,
          h,
          e,
          b1,
          b2,
          log_connection_error-Quiet p reason dir w2 b2.synced,
          peer_closed-Quiet cfg dir p w2 b2.synced,
        )
        | inr found ↦ written found.0 found.1
      ]
    where
      w1 : World
      w1 = after malloc w

      r : Reply
      r = reply (recv from_fd) w1

      w2 : World
      w2 = after (recv from_fd) w1

      k : ℕ
      k = pos_part r.ret

      b1 : Quiet n w w1
      b1 = Books-quiet n malloc w v refl refl

      b2 : Quiet n w1 w2
      b2 = Books-quiet n (recv from_fd) w1 b1.synced refl refl

      written :
          (a : Written)
          → write_all fuel to_fd (not dir) reason (take k r.bytes) p w2 ≡ some a
          → Quiet n w s.world
      written a e =
          let c =
            write_all-Quiet fuel to_fd (not dir) reason (take k r.bytes) p w2 {a = a} b2.synced e in
          ground (
            arith,
            h,
            e,
            b1,
            b2,
            log_connection_error-Quiet p reason dir w2 b2.synced,
            peer_closed-Quiet cfg dir p w2 b2.synced,
            c,
            account_forwarded-Quiet dir k a.pair a.world c.synced,
          )
