-- ===== src/Transport/Timeout/Lost.antt =====
-- The walk of `ht_handle_timeout` where it gives up an entry behind retransmitted ones.
use remote_trans.Base.{◌≡◌, false, refl, ap, ◌∙◌, List, [], ◌∷◌, ◌++◌, map, All}
use remote_trans.World.{Timeval, World}
use remote_trans.Transport.Types.{SendEntry, Conn}
use remote_trans.Transport.Timeout.{Sweep, retransmit, give_up, sweep, retransmit_due}
use remote_trans.Transport.Timeout.Sweeping.{
  linked, sent_again, SameSettings, intended, GivenUp, SentAgain, Settled, sweep-again,
  sweep-gives_up, retransmit-same, intended-again, intended-gives_up, sweep-Settled,
}

sweep-append :
    (now : Timeval) (xs ys : List SendEntry) (s : Sweep)
    → sweep now (xs ++ ys) s ≡ sweep now ys (sweep now xs s)
unfolding sweep
sweep-append now [] ys s = refl
sweep-append now (x ∷ xs) ys s = sweep-append now xs ys _

-- Entries that are sent again do not move `prev`.
module _ (now : Timeval) (c : Conn) where
  sweep-SentAgain :
      (es : List SendEntry) (s : Sweep)
      → SameSettings c s.conn
      → All (SentAgain now c) es
      → ((sweep now es s).front ≡ s.front) × SameSettings c (sweep now es s).conn
  unfolding retransmit
  sweep-SentAgain [] s same v = unfold sweep in (refl, same)
  sweep-SentAgain (e ∷ es) s same v =
      rw (sweep-again now c e es s same v.0)
        (sweep-SentAgain es (retransmit now e s) (retransmit-same now c e es s same) v.1)

  intended-append :
      (again : List SendEntry) (e : SendEntry) (rest : List SendEntry)
      → All (SentAgain now c) again
      → GivenUp now c e
      → intended now c (again ++ e ∷ rest) ≡ map (sent_again now) again ++ intended now c rest
  intended-append [] e rest v g = intended-gives_up now c e rest g
  intended-append (d ∷ again) e rest v g =
      intended-again now c d (again ++ e ∷ rest) v.0
      ∙ ap (◌∷◌ (sent_again now d)) (intended-append again e rest v.1 g)

-- When the send buffer begins with entries that are sent again and one that is given up directly
-- behind them, with a settled rest, what is left is only what is intended of the rest. The
-- retransmitted entries, which the walk means to keep in front of it, are gone with the one given up.
pub retransmit_due_loses :
    (now : Timeval) (c : Conn) (w : World) (again : List SendEntry) (e : SendEntry)
    (rest : List SendEntry)
    → c.send_buffer ≡ again ++ e ∷ rest
    → All (SentAgain now c) again
    → GivenUp now c e
    → Settled now c false rest
    → ((retransmit_due now c w).conn.send_buffer ≡ intended now c rest)
      × (intended now c c.send_buffer ≡ map (sent_again now) again ++ intended now c rest)
unfolding retransmit_due give_up
retransmit_due_loses now c w again e rest h v g settled = (
  ap (λ es. linked (sweep now es start)) h
      ∙ ap linked (sweep-append now again (e ∷ rest) start)
      ∙ ap linked (sweep-gives_up now c e rest walked kept.1 g)
      ∙ sweep-Settled now c rest false (give_up walked) kept.1 refl settled
      ∙ ap (λ k. (k ++ []) ++ intended now c rest) kept.0,
  ap (intended now c) h ∙ intended-append now c again e rest v g,
)
  where
    start : Sweep
    start = record { front = []; skipped = []; actions = 0; conn = c; world = w }

    walked : Sweep
    walked = sweep now again start

    kept : (walked.front ≡ []) × SameSettings c walked.conn
    kept = sweep-SentAgain now c again start (refl, refl) v
