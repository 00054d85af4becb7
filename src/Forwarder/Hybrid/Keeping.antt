-- ===== src/Forwarder/Hybrid/Keeping.antt =====
-- The well-formedness of a pair's hybrid connection over `forward_data_hybrid`.
use remote_trans.Base.{
  ℕ, ◌⊎◌, minus_one, ◌≡◌, sym, Bool, true, false, some, List, arith, Bool-cases, Option-cases, inl,
  inr, subst, take, pos_part,
}
use remote_trans.Floats.{Floats}
use remote_trans.World.{World, reply, after, recv}
use remote_trans.Transport.Types.{Conn, Step}
use remote_trans.Transport.Events.{ht_process_events}
use remote_trans.Transport.Timeout.{ht_handle_timeout}
use remote_trans.Transport.Invariant.{IsConn}
use remote_trans.Transport.Invariant.Sending.{send_data-IsConn}
use remote_trans.Transport.Invariant.Receiving.{process_events-IsConn, recv_data-IsConn}
use remote_trans.Transport.Invariant.Timers.{handle_timeout-IsConn}
use remote_trans.Forwarder.Types.{Pair, Served}
use remote_trans.Forwarder.Wiring.{IsHybrid}
use remote_trans.Forwarder.Hybrid.{
  Moved, client_to_hybrid, hybrid_to_client, move_data, touch, put_back, settle, forward_over,
  forward_data_hybrid,
}
use remote_trans.Forwarder.Data.{served}

client_to_hybrid-IsConn :
    (fl : Floats) (reason : List ℕ) (c : Conn) (p : Pair) (w : World)
    → IsConn c
    → IsConn (client_to_hybrid fl reason c p w).conn
unfolding client_to_hybrid
client_to_hybrid-IsConn fl reason c p w v =
    let r = reply (recv p.client_fd) w in
    ground
      (arith, send_data-IsConn fl c (take (pos_part r.ret) r.bytes) (after (recv p.client_fd) w) v)

hybrid_to_client-IsConn :
    (reason : List ℕ) (c : Conn) (p : Pair) (w : World)
    → IsConn c
    → IsConn (hybrid_to_client reason c p w).conn
unfolding hybrid_to_client
hybrid_to_client-IsConn reason c p w v = ground (arith, recv_data-IsConn c 8192 v)

move_data-IsConn :
    (fl : Floats) (dir : Bool) (reason : List ℕ) (c : Conn) (p : Pair) (w : World)
    → IsConn c
    → IsConn (move_data fl dir reason c p w).conn
unfolding move_data
move_data-IsConn fl true reason c p w v = client_to_hybrid-IsConn fl reason c p w v
move_data-IsConn fl false reason c p w v = hybrid_to_client-IsConn reason c p w v

settle-IsHybrid :
    (fuel : ℕ) (buf : List ℕ) (m : Moved) {s : Served}
    → IsConn m.conn
    → settle fuel buf m ≡ some s
    → IsHybrid s.pair.ht_conn
unfolding settle
settle-IsHybrid fuel buf m {s} v h =
    elim (Option-cases (ht_process_events fuel buf m.conn (touch m.value m.pair m.world).1)) [
      | inl e ↦ ground (arith, h, e)
      | inr found ↦
          subst (λ (q : Served). IsHybrid q.pair.ht_conn) (done found.0 found.1)
            (handle_timeout-IsConn found.0.conn found.0.world
              (process_events-IsConn fuel buf m.conn _ v found.1))
    ]
  where
    done :
        (e : Step)
        → ht_process_events fuel buf m.conn (touch m.value m.pair m.world).1 ≡ some e
        → let t = ht_handle_timeout e.conn e.world in
          put_back m.value (touch m.value m.pair m.world).0 t.conn t.world ≡ s
    done e found = ground (arith, h, found)

some-pair : (a : Served) {s : Served} → some a ≡ some s → s.pair.ht_conn ≡ a.pair.ht_conn
some-pair a {s} h = cc h

forward_over-IsHybrid :
    (fl : Floats) (fuel : ℕ) (buf : List ℕ) (dir : Bool) (reason : List ℕ) (c : Conn) (p : Pair)
    (w : World) {s : Served}
    → IsConn c
    → forward_over fl fuel buf dir reason c p w ≡ some s
    → IsHybrid s.pair.ht_conn
unfolding forward_over
forward_over-IsHybrid fl fuel buf dir reason c p w {s} v h =
    elim (Bool-cases (move_data fl dir reason c p w).ended) [
      | inl e ↦
          subst IsHybrid (sym (some-pair _ (simp e at h))) (move_data-IsConn fl dir reason c p w v)
      | inr e ↦
          settle-IsHybrid fuel buf (move_data fl dir reason c p w)
            (move_data-IsConn fl dir reason c p w v) (simp e at h)
    ]

-- When `forward_data_hybrid` returns, in either direction and whatever fails, the hybrid connection of
-- the pair is as well formed as it was: its sequence numbers and window fit their fields, and each
-- packet that waits for its acknowledgement can be put on the wire.
pub forward_data_hybrid-IsHybrid :
    (fl : Floats) (fuel : ℕ) (buf : List ℕ) (dir : Bool) (reason : List ℕ) (p : Pair) (w : World)
    {s : Served}
    → IsHybrid p.ht_conn
    → forward_data_hybrid fl fuel buf dir reason p w ≡ some s
    → IsHybrid s.pair.ht_conn
unfolding forward_data_hybrid
forward_data_hybrid-IsHybrid fl fuel buf dir reason p w {s} v h = elim (Option-cases p.ht_conn) [
  | inl e ↦ subst IsHybrid (sym (some-pair (served minus_one p w) {s = s} (ground (arith, h, e)))) v
  | inr found ↦ used found.0 found.1 (Bool-cases p.use_hybrid_transport)
]
  where
    used :
        (c : Conn)
        → p.ht_conn ≡ some c
        → (p.use_hybrid_transport ≡ true) ⊎ (p.use_hybrid_transport ≡ false)
        → IsHybrid s.pair.ht_conn
    used c e (inl u) =
        forward_over-IsHybrid fl fuel buf dir reason c p w {s = s} (subst IsHybrid e v)
          (ground (arith, h, e, u))
    used c e (inr u) =
        subst IsHybrid (sym (some-pair (served minus_one p w) {s = s} (ground (arith, h, e, u)))) v
