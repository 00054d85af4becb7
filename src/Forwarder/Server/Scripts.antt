-- ===== src/Forwarder/Server/Scripts.antt =====
-- The operations of rdp_forwarder.c change no answer of the system that is still to come.
pub mod Setup
use remote_trans.Base.{
  ℕ, zero, suc, ◌≡◌, refl, sym, ap, ◌∙◌, Bool, true, false, not, Option, none, some, List, [], ◌∷◌,
  ℤ, pos, minus_one, pos_part, arith, is_neg, is_set, take, drop, if◌then◌else◌, if_cases,
  Option-cases, inl, inr,
}
use remote_trans.World.{
  World, Reply, reply, after, malloc, usleep, send, recv, close, time, accept, gettimeofday,
}
use remote_trans.Transport.Types.{Packet, Conn, Step, tcp_only}
use remote_trans.Transport.Wire.{seal}
use remote_trans.Transport.Send.{next_sequence}
use remote_trans.Transport.Send.Frame.{send_packet-Keeps}
use remote_trans.Transport.Socket.{
  step, set_nonblocking, notify, close_packet, ht_disconnect, ht_destroy_connection, close_open,
}
use remote_trans.Forwarder.Types.{ConnState, Pair, Config, Served, closing, connected}
use remote_trans.Forwarder.State.{
  set_connection_state, log_connection_error, close_positive, end_hybrid, handle_client_disconnect,
  reset_connection_for_reuse,
}
use remote_trans.Forwarder.Pool.{close_pair}
use remote_trans.Forwarder.Reconnect.{
  connect_to_target, configure_tcp_socket, reconnect_tcp, reconnect, try_reconnect_target,
}
use remote_trans.Forwarder.Data.{Written, write_all, account_forwarded, peer_closed, forward_data}

pub set_connection_state-script :
    (p : Pair) (s : ConnState) (reason : Option (List ℕ)) (w : World)
    → (set_connection_state p s reason w).1.script ≡ w.script
unfolding set_connection_state after
set_connection_state-script p s reason w = ground arith

log_connection_error-script :
    (p : Pair) (reason : List ℕ) (client : Bool) (w : World)
    → (log_connection_error p reason client w).1.script ≡ w.script
unfolding log_connection_error
log_connection_error-script p reason client w = set_connection_state-script p _ (some reason) w

write_all-script :
    (fuel : ℕ) (fd : ℤ) (client : Bool) (reason rest : List ℕ) (p : Pair) (w : World) {a : Written}
    → write_all fuel fd client reason rest p w ≡ some a
    → a.world.script ≡ w.script
unfolding write_all after
write_all-script zero fd client reason rest p w h = cc
write_all-script (suc fuel) fd client reason [] p w {a} h = ground (arith, h)
write_all-script (suc fuel) fd client reason (b ∷ bs) p w {a} h =
    let r = reply (send fd (b ∷ bs)) w in
    let w1 = after (send fd (b ∷ bs)) w in
    ground (
      arith,
      h,
      log_connection_error-script p reason client w1,
      write_all-script fuel fd client reason (b ∷ bs) p (after (usleep 1000) w1) {a = a},
      write_all-script fuel fd client reason (drop (pos_part r.ret) (b ∷ bs)) p w1 {a = a},
    )

account_forwarded-script :
    (dir : Bool) (n : ℕ) (p : Pair) (w : World)
    → (account_forwarded dir n p w).world.script ≡ w.script
unfolding account_forwarded set_connection_state after
account_forwarded-script true n p w = ground arith
account_forwarded-script false n p w = ground arith

peer_closed-script :
    (cfg : Config) (dir : Bool) (p : Pair) (w : World)
    → (peer_closed cfg dir p w).world.script ≡ w.script
unfolding peer_closed after
peer_closed-script cfg dir p w = ground arith

pub forward_data-script :
    (fuel : ℕ) (cfg : Config) (from_fd to_fd : ℤ) (dir : Bool) (reason : List ℕ) (p : Pair)
    (w : World) {s : Served}
    → forward_data fuel cfg from_fd to_fd dir reason p w ≡ some s
    → s.world.script ≡ w.script
unfolding forward_data after
forward_data-script fuel cfg from_fd to_fd dir reason p w {s} h =
    elim (Option-cases (write_all fuel to_fd (not dir) reason (take n r.bytes) p w2)) [
      | inl e ↦ ground (
        arith,
        h,
        e,
        log_connection_error-script p reason dir w2,
        peer_closed-script cfg dir p w2,
      )
      | inr found ↦ written found.0 found.1
    ]
  where
    w1 : World
    w1 = after malloc w

    r : Reply
    r = reply (recv from_fd) w1

    w2 : World
    w2 = after (recv from_fd) w1

    n : ℕ
    n = pos_part r.ret

    written :
        (a : Written)
        → write_all fuel to_fd (not dir) reason (take n r.bytes) p w2 ≡ some a
        → s.world.script ≡ w.script
    written a e = ground (
      arith,
      h,
      e,
      log_connection_error-script p reason dir w2,
      peer_closed-script cfg dir p w2,
      write_all-script fuel to_fd (not dir) reason (take n r.bytes) p w2 {a = a} e,
      account_forwarded-script dir n a.pair a.world,
    )

notify-script :
    (x : ℤ) (c : Conn) (p : Packet) (tcp : Bool) (w : World)
    → (notify x c p tcp w).world.script ≡ w.script
unfolding notify
notify-script x c p tcp w = ground (arith, (send_packet-Keeps c p tcp w).script)

close_open-script : (x : ℤ) (w : World) → (close_open x w).script ≡ w.script
unfolding after
close_open-script x w = ground arith

close_positive-script : (x : ℤ) (w : World) → (close_positive x w).script ≡ w.script
unfolding after
close_positive-script x w = ground arith

disconnect-script : (c : Conn) (w : World) → (ht_disconnect c w).world.script ≡ w.script
unfolding ht_disconnect after
disconnect-script c w =
    if_cases (λ (s : Step). s.world.script ≡ w.script) c.is_connected
      (step (pos 0) (record t.conn { is_connected = false }) t.world) (step minus_one c w)
      (λ e.
        notify-script _ u.conn (seal p) true u.world
        ∙ notify-script _ c1 p false (after gettimeofday w))
      (λ e. refl)
  where
    p : Packet
    p = close_packet c w

    c1 : Conn
    c1 = next_sequence (record c { is_closing = true })

    u : Step
    u = notify c1.udp_fd c1 p false (after gettimeofday w)

    t : Step
    t = notify u.conn.tcp_fd u.conn (seal p) true u.world

end_hybrid-script : (o : Option Conn) (w : World) → (end_hybrid o w).script ≡ w.script
unfolding end_hybrid ht_destroy_connection
end_hybrid-script none w = refl
end_hybrid-script (some c) w =
    let s = ht_disconnect c w in
    close_open-script s.conn.tcp_fd (close_open s.conn.udp_fd s.world)
    ∙ close_open-script s.conn.udp_fd s.world
    ∙ disconnect-script c w

pub close_pair-script : (p : Pair) (w : World) → (close_pair p w).1.script ≡ w.script
unfolding close_pair
close_pair-script p w =
    let r = set_connection_state p closing none w in
    end_hybrid-script r.0.ht_conn _
    ∙ close_positive-script r.0.target_fd _
    ∙ close_positive-script r.0.client_fd r.1
    ∙ set_connection_state-script p closing none w

pub handle_client_disconnect-script :
    (cfg : Config) (p : Pair) (w : World) → (handle_client_disconnect cfg p w).1.script ≡ w.script
unfolding handle_client_disconnect after
handle_client_disconnect-script cfg p w =
    let w2 = after time (close_positive p.client_fd w) in
    ground (
      arith,
      close_positive-script p.client_fd w,
      close_positive-script p.target_fd w2,
      end_hybrid-script p.ht_conn (close_positive p.target_fd w2),
    )
