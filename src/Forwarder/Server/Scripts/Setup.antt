-- ===== src/Forwarder/Server/Scripts/Setup.antt =====
-- The operations that connect: no answer that is still to come changes. A reconnection is looked at
-- in the mode TCP only.
use remote_trans.Base.{
  ℕ, zero, suc, ◌≡◌, refl, ◌∙◌, Option, none, some, List, [], ◌∷◌, ℤ, pos, arith, ◌+ℤ◌,
}
use remote_trans.World.{World, reply, after, time, accept}
use remote_trans.Transport.Types.{tcp_only}
use remote_trans.Transport.Socket.{set_nonblocking}
use remote_trans.Forwarder.Types.{Pair, Pool, Config, connected}
use remote_trans.Forwarder.State.{set_connection_state, reset_connection_for_reuse}
use remote_trans.Forwarder.Reconnect.{
  connect_to_target, configure_tcp_socket, reconnect_tcp, reconnect, try_reconnect_target,
}
use remote_trans.Forwarder.Server.{Server, report_stats, print_stats}
use remote_trans.Forwarder.Server.Watching.{revive, revive_all, reconnect_pass, fd_set}
use remote_trans.Forwarder.Server.Admission.{
  tune, new_pair, admit_new, admit_reused, admit_at, reusable, accept_client,
}
use remote_trans.Forwarder.Server.Scripts.{set_connection_state-script}

connect_to_target-script : (ip : List ℕ) (w : World) → (connect_to_target ip w).1.script ≡ w.script
unfolding connect_to_target after
connect_to_target-script ip w = ground arith

tune-script : (cfg : Config) (fd : ℤ) (w : World) → (tune cfg fd w).script ≡ w.script
unfolding configure_tcp_socket set_nonblocking after
tune-script cfg fd w = ground arith

reconnect_tcp-script :
    (cfg : Config) (p : Pair) (w : World) → (reconnect_tcp cfg p w).world.script ≡ w.script
unfolding reconnect_tcp
reconnect_tcp-script cfg p w =
    let made = connect_to_target cfg.target_ip w in
    ground (arith, connect_to_target-script cfg.target_ip w, tune-script cfg made.0 made.1)

reconnect-script :
    (cfg : Config) (p : Pair) (w : World)
    → cfg.transport_mode ≡ tcp_only
    → (reconnect cfg p w).world.script ≡ w.script
unfolding reconnect
reconnect-script cfg p w e = ground (arith, e, reconnect_tcp-script cfg p w)

try_reconnect-script :
    (cfg : Config) (p : Pair) (w : World)
    → cfg.transport_mode ≡ tcp_only
    → (try_reconnect_target cfg p w).world.script ≡ w.script
unfolding try_reconnect_target
try_reconnect-script cfg p w e =
    let q = record p { reconnect_attempts = p.reconnect_attempts +ℤ pos 1 } in
    ground (arith, e, reconnect-script cfg q w e)

revive-script :
    (cfg : Config) (p : Pair) (w : World)
    → cfg.transport_mode ≡ tcp_only
    → (revive cfg p w).1.script ≡ w.script
unfolding revive after
revive-script cfg p w e = ground (arith, e, try_reconnect-script cfg p (after time w) e)

revive_all-script :
    (cfg : Config) (n : ℕ) (ps : List Pair) (w : World)
    → cfg.transport_mode ≡ tcp_only
    → (revive_all cfg n ps w).1.script ≡ w.script
unfolding revive_all
revive_all-script cfg zero ps w e = refl
revive_all-script cfg (suc n) [] w e = refl
revive_all-script cfg (suc n) (p ∷ ps) w e =
    revive_all-script cfg n ps (revive cfg p w).1 e ∙ revive-script cfg p w e

pub reconnect_pass-script :
    (cfg : Config) (t : Pool) (w : World)
    → cfg.transport_mode ≡ tcp_only
    → (reconnect_pass cfg t w).1.script ≡ w.script
unfolding reconnect_pass
reconnect_pass-script cfg t w e =
    ground (arith, revive_all-script cfg t.connection_count t.connections w e)

pub report_stats-script :
    (cfg : Config) (s : Server) (w : World) → (report_stats cfg s w).1.script ≡ w.script
unfolding report_stats print_stats after
report_stats-script cfg s w = ground arith

pub fd_set-script : (fds : List ℤ) (w : World) → (fd_set fds w).script ≡ w.script
fd_set-script fds w = ground arith

new_pair-script : (cfg : Config) (fd : ℤ) (w : World) → (new_pair cfg fd w).1.script ≡ w.script
unfolding new_pair set_connection_state after
new_pair-script cfg fd w = refl

admit_new-script :
    (cfg : Config) (fd : ℤ) (s : Server) (w : World) → (admit_new cfg fd s w).1.script ≡ w.script
unfolding admit_new after
admit_new-script cfg fd s w =
    let made = new_pair cfg fd (tune cfg fd w) in
    let target = connect_to_target cfg.target_ip made.1 in
    ground (
      arith,
      tune-script cfg fd w,
      new_pair-script cfg fd (tune cfg fd w),
      connect_to_target-script cfg.target_ip made.1,
      tune-script cfg target.0 target.1,
      set_connection_state-script (record made.0 { target_fd = target.0 }) connected none
          (tune cfg target.0 target.1),
    )

admit_at-script :
    (cfg : Config) (fd : ℤ) (o : Option (ℕ × Pair)) (s : Server) (w : World)
    → (admit_at cfg fd o s w).1.script ≡ w.script
unfolding admit_at admit_reused reset_connection_for_reuse after
admit_at-script cfg fd none s w = ground (arith, admit_new-script cfg fd s w)
admit_at-script cfg fd (some (i, p)) s w = tune-script cfg fd w

pub accept_client-script :
    (cfg : Config) (listen_fd : ℤ) (s : Server) (w : World)
    → (accept_client cfg listen_fd s w).1.script ≡ w.script
unfolding accept_client after
accept_client-script cfg listen_fd s w = ground (
  arith,
  admit_at-script cfg (reply (accept listen_fd) w).ret (reusable cfg s.pool) s
      (after (accept listen_fd) w),
)
