-- ===== src/Transport/Tests/Timers.antt =====
-- Tests of time, retransmission and the life of a connection.
use remote_trans.Base.{
  ◌+◌, ℕ, zero, suc, ◌≤◌, ◌≡◌, ◌⊎◌, inl, inr, refl, true, false, List, [], ◌∷◌, ◌++◌, pos,
  minus_one, arith, map,
}
use remote_trans.World.{Call, Reply, send, sendto}
use remote_trans.Transport.Types.{Conn, SendEntry, udp_only}
use remote_trans.Transport.Clock.{time_diff_ms}
use remote_trans.Transport.Statistics.{empty_stats}
use remote_trans.Transport.Statistics.Rtt.{update_all, rtt_bounds}
use remote_trans.Transport.Timeout.{retransmit_due, ht_handle_timeout}
use remote_trans.Transport.Timeout.Sweeping.{intended, sent_again}
use remote_trans.Transport.Timeout.Resending.{Made, retransmit_due_as_meant}
use remote_trans.Transport.Wire.{wire_bytes, seal}
use remote_trans.Transport.Timeout.Lost.{retransmit_due_loses}
use remote_trans.Transport.Timeout.Activity.{DatagramsGo, timeout_drops_active}
use remote_trans.Transport.Timeout.Idle.{NothingGoes, timeout_drops_idle, timeout_keeps_idle}
use remote_trans.Descriptors.{opened, closed}
use remote_trans.Transport.Socket.{ht_connect}
use remote_trans.Transport.Socket.Balance.{held}
use remote_trans.Transport.Socket.Connect.{IsClosed, UsableAs, connect_opens_or_closes}
use remote_trans.Transport.Tests.{open_conn, packet, world, going, noon, later, answer}

rtt_bounds_example :
    let s = update_all (20 ∷ 100 ∷ 40 ∷ []) empty_stats in
    (s.rtt_min ≡ 20) × (s.rtt_max ≡ 100) × (s.rtt_min ≤ s.rtt_avg) × (s.rtt_avg ≤ s.rtt_max)
rtt_bounds_example = rtt_bounds 20 (100 ∷ 40 ∷ []) (omega arith, (omega arith, (omega arith, tt)))

-- Two seconds old at `later 2`.
abbrev entry : ℕ → SendEntry
entry n = record { packet = packet; send_time = noon; retransmit_count = n }

abbrev holding : List SendEntry → Conn
holding es = record open_conn { send_buffer = es }

retransmit_due_as_meant_example :
    let c = holding (entry 3 ∷ entry 0 ∷ []) in
    let s = retransmit_due (later 2) c (world going) in
    (s.conn.send_buffer ≡ intended (later 2) c (entry 3 ∷ entry 0 ∷ []))
    × Made (world going) s.world (send open_conn.tcp_fd (wire_bytes (seal packet)) ∷ [])
unfolding time_diff_ms
retransmit_due_as_meant_example =
    retransmit_due_as_meant (later 2) (holding (entry 3 ∷ entry 0 ∷ [])) (world going)
      (inr (inr ((refl, refl), refl, inr (inl ((refl, refl), tt)))))

-- The other way round.
retransmit_due_loses_example :
    let c = holding (entry 0 ∷ entry 3 ∷ []) in
    ((retransmit_due (later 2) c (world going)).conn.send_buffer ≡ intended (later 2) c [])
    × (intended (later 2) c (entry 0 ∷ entry 3 ∷ [])
        ≡ map (sent_again (later 2)) (entry 0 ∷ []) ++ intended (later 2) c [])
unfolding time_diff_ms
retransmit_due_loses_example =
    retransmit_due_loses (later 2) (holding (entry 0 ∷ entry 3 ∷ [])) (world going) (entry 0 ∷ [])
      (entry 3) [] refl ((refl, refl), tt) (refl, refl) tt

-- The clock shows two seconds after noon, and ten milliseconds more from the second call on.
abbrev tick_tock : ℕ → Call → Reply
tick_tock zero c = answer (pos 36) (later 2)
tick_tock (suc n) c = answer (pos 36) (record { sec = 43202; usec = 10500 })

tick_tock-DatagramsGo : DatagramsGo 3 (world tick_tock)
tick_tock-DatagramsGo zero bs = refl
tick_tock-DatagramsGo (suc n) bs = refl

timeout_drops_active_example :
    ((ht_handle_timeout open_conn (world tick_tock)).value ≡ minus_one)
    × ((ht_handle_timeout open_conn (world tick_tock)).conn.is_connected ≡ false)
unfolding time_diff_ms
timeout_drops_active_example =
    timeout_drops_active open_conn (world tick_tock) 3 refl refl refl tick_tock-DatagramsGo
      (omega arith) (omega arith) (omega arith) (omega arith) (omega arith)

-- No packet leaves, and the clock shows `n` seconds after noon.
abbrev stuck : ℕ → ℕ → Call → Reply
stuck n m (send fd bs) = answer minus_one (later n)
stuck n m (sendto fd bs) = answer minus_one (later n)
stuck n m c = record (going m c) { time = later n }

stuck-NothingGoes : (n : ℕ) → NothingGoes (world (stuck n))
stuck-NothingGoes n = record { by_tcp = λ m fd bs. refl; by_udp = λ m fd bs. refl }

timeout_drops_idle_example :
    ((ht_handle_timeout open_conn (world (stuck 31))).value ≡ minus_one)
    × ((ht_handle_timeout open_conn (world (stuck 31))).conn.is_connected ≡ false)
timeout_drops_idle_example =
    timeout_drops_idle open_conn (world (stuck 31)) refl refl (stuck-NothingGoes 31) (omega arith)
      (omega arith) (omega arith) (omega arith)

timeout_keeps_idle_example :
    ((ht_handle_timeout open_conn (world (stuck 30))).value ≡ pos 0)
    × ((ht_handle_timeout open_conn (world (stuck 30))).conn.is_connected ≡ true)
timeout_keeps_idle_example =
    timeout_keeps_idle open_conn (world (stuck 30)) refl refl (stuck-NothingGoes 30) (omega arith)
      (omega arith) (omega arith) (omega arith)

abbrev closed_conn : Conn
closed_conn = record open_conn { udp_fd = minus_one; tcp_fd = minus_one; is_connected = false }

connect_opens_or_closes_example :
    let s = ht_connect closed_conn (world going) in
    (((s.value ≡ pos 0) × (s.conn.is_connected ≡ true) × UsableAs udp_only s.conn)
      ⊎ ((s.value ≡ minus_one) × IsClosed s.conn))
    × (opened 36 s.world + closed 36 (world going)
        ≡ opened 36 (world going) + closed 36 s.world + held 36 s.conn)
connect_opens_or_closes_example =
    connect_opens_or_closes closed_conn (world going) 36
      (record { udp = refl; tcp = refl; off = refl }) refl
