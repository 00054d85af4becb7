-- ===== src/Forwarder/Server/Ledger/Setting.antt =====
-- The descriptors over the statistics and the set of a round, which open and close nothing.
use remote_trans.Base.{ℕ, refl, true, List, ℤ, arith, if_cases}
use remote_trans.World.{World, after, time}
use remote_trans.Forwarder.Types.{Config}
use remote_trans.Forwarder.Server.{Server, report_stats, print_stats}
use remote_trans.Forwarder.Server.Watching.{fd_set, outside}
use remote_trans.Descriptors.{
  opened, closed, Synced, Books, Books-nothing, Books-quiet, Books-trans, Books-as,
}
use remote_trans.Forwarder.Server.Ledger.Quiet.{Quiet}

module _ (n : ℕ) where
  pub report_stats-Quiet :
      (cfg : Config) (s : Server) (w : World) → Synced w → Quiet n w (report_stats cfg s w).1
  unfolding report_stats print_stats
  report_stats-Quiet cfg s w v =
      let b = Books-quiet n time w v refl refl in
      ground (arith, Books-nothing n w 0 v, b, Books-quiet n time (after time w) b.synced refl refl)

  pub fd_set-Quiet : (fds : List ℤ) (w : World) → Synced w → Quiet n w (fd_set fds w)
  unfolding opened closed
  fd_set-Quiet fds w v =
      if_cases (Quiet n w) (outside fds) (record w { faulted = true }) w
        (λ e. record { script = refl; synced = v; balance = refl }) (λ e. Books-nothing n w 0 v)

  -- A quiet step in front of one that keeps the books.
  pub Quiet-then : (w u x : World) (a b : ℕ) → Quiet n w u → Books n u a x b → Books n w a x b
  Quiet-then w u x a b q p = Books-trans n w u x a a b (Books-as n w u 0 0 a a (omega arith) q) p
