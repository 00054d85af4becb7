-- ===== src/Transport/Send/Frame.antt =====
-- What sending one packet leaves alone.
use remote_trans.Base.{◌≤◌, ◌≡◌, Bool, not, ℤ, arith}
use remote_trans.World.{World}
use remote_trans.Transport.Types.{Packet, Conn, Step}
use remote_trans.Transport.Wire.{seal}
use remote_trans.Transport.Send.{account_sent, ht_send_packet, send_either}
use remote_trans.World.{after}

-- Only `stats` and `last_activity` differ.
abbrev pub Accounts : Conn → Conn → Type 0
Accounts c d = d ≡ record c { stats = d.stats; last_activity = d.last_activity }

pub record Keeps (c : Conn) (w : World) (s : Step) : Type 0 where
  pub conn : Accounts c s.conn
  pub script : s.world.script ≡ w.script
  pub faulted : s.world.faulted ≡ w.faulted
  pub forward : w.tick ≤ s.world.tick

account_sent-Keeps : (c : Conn) (n : ℤ) (w : World) → Keeps c w (account_sent c n w)
unfolding account_sent after
account_sent-Keeps c n w = ground arith

pub send_packet-Keeps :
    (c : Conn) (p : Packet) (tcp : Bool) (w : World) → Keeps c w (ht_send_packet c p tcp w)
unfolding ht_send_packet account_sent after
send_packet-Keeps c p tcp w = ground arith

pub send_either-Keeps :
    (c : Conn) (p : Packet) (tcp : Bool) (w : World) → Keeps c w (send_either c p tcp w)
unfolding send_either
send_either-Keeps c p tcp w = ground (
  arith,
  send_packet-Keeps c p tcp w,
  send_packet-Keeps (ht_send_packet c p tcp w).conn (seal p) (not tcp)
      (ht_send_packet c p tcp w).world,
)
