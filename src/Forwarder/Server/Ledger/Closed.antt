-- ===== src/Forwarder/Server/Ledger/Closed.antt =====
-- The descriptors that rdp_forwarder.c closes with a client or a pair, in the mode TCP only.
use remote_trans.Base.{ℕ, suc, ◌≡◌, refl, none, ℤ, pos, arith}
use remote_trans.World.{World, after, close, time}
use remote_trans.Forwarder.Types.{Pair, Config, closing}
use remote_trans.Forwarder.State.{
  set_connection_state, close_positive, end_hybrid, handle_client_disconnect,
}
use remote_trans.Forwarder.Pool.{close_pair}
use remote_trans.Forwarder.Wiring.Frame.{set_connection_state-wiring}
use remote_trans.Forwarder.Server.Closing.{positive, held}
use remote_trans.Descriptors.{Synced, Books, Books-nothing, Books-call, Books-quiet}
use remote_trans.Forwarder.Server.Ledger.{Kept, positive-one}
use remote_trans.Forwarder.Server.Ledger.Quiet.{Quiet, set_connection_state-Quiet}

module _ (n : ℕ) where
  close_positive-Books :
      (x : ℤ) (w : World)
      → Synced w
      → Books (suc n) w (positive (pos (suc n)) x) (close_positive x w) 0
  close_positive-Books x w v =
      ground
        (arith, positive-one n x, Books-nothing (suc n) w 0 v, Books-call (suc n) (close x) w v)

  pub handle_client_disconnect-Kept :
      (cfg : Config) (p : Pair) (w : World)
      → p.ht_conn ≡ none
      → Synced w
      → let (q, u) = handle_client_disconnect cfg p w in Kept n p w q u
  unfolding handle_client_disconnect end_hybrid
  handle_client_disconnect-Kept cfg p w e v = ground (arith, e, b1, b2, b3)
    where
      w1 : World
      w1 = close_positive p.client_fd w

      b1 : Books (suc n) w (positive (pos (suc n)) p.client_fd) w1 0
      b1 = close_positive-Books p.client_fd w v

      b2 : Quiet (suc n) w1 (after time w1)
      b2 = Books-quiet (suc n) time w1 b1.synced refl refl

      b3 :
          Books
            (suc n)
            (after time w1)
            (positive (pos (suc n)) p.target_fd)
            (close_positive p.target_fd (after time w1))
            0
      b3 = close_positive-Books p.target_fd (after time w1) b2.synced

  -- A pair that is removed leaves nothing open.
  pub close_pair-Books :
      (p : Pair) (w : World)
      → p.ht_conn ≡ none
      → Synced w
      → Books (suc n) w (held (pos (suc n)) p) (close_pair p w).1 0
  unfolding close_pair end_hybrid
  close_pair-Books p w e v =
      ground (arith, e, set_connection_state-wiring p closing none w, b1, b2, b3)
    where
      q : Pair
      q = (set_connection_state p closing none w).0

      w1 : World
      w1 = (set_connection_state p closing none w).1

      b1 : Quiet (suc n) w w1
      b1 = set_connection_state-Quiet (suc n) p closing none w v

      b2 : Books (suc n) w1 (positive (pos (suc n)) q.client_fd) (close_positive q.client_fd w1) 0
      b2 = close_positive-Books q.client_fd w1 b1.synced

      b3 :
          Books
            (suc n)
            (close_positive q.client_fd w1)
            (positive (pos (suc n)) q.target_fd)
            (close_positive q.target_fd (close_positive q.client_fd w1))
            0
      b3 = close_positive-Books q.target_fd (close_positive q.client_fd w1) b2.synced
