-- ===== src/Transport/Socket/Connect.antt =====
-- `ht_connect`, and the descriptors that it leaves open.
use remote_trans.Base.{
  ℕ, ◌+◌, ◌≡◌, ◌≢◌, ◌⊎◌, inl, inr, refl, ap, ◌∙◌, true, false, pos, minus_one, arith, is_neg,
}
use remote_trans.World.{World}
use remote_trans.Descriptors.{opened, closed, Synced}
use remote_trans.Transport.Socket.Balance.{held, connect-modes}
use remote_trans.Transport.Types.{Mode, udp_only, tcp_only, hybrid, auto, Conn, Step}
use remote_trans.Transport.Socket.{connect_tcp, connect_udp, ht_connect}

-- No descriptor of the connection is open, and it does not count as connected.
pub record IsClosed (c : Conn) : Type 0 where
  pub udp : is_neg c.udp_fd ≡ true
  pub tcp : is_neg c.tcp_fd ≡ true
  pub off : c.is_connected ≡ false

-- The connection can be used as its mode says.
abbrev pub UsableAs : Mode → Conn → Type 0
UsableAs udp_only c = is_neg c.udp_fd ≡ false
UsableAs tcp_only c = is_neg c.tcp_fd ≡ false
UsableAs hybrid c = is_neg c.udp_fd ≡ false
UsableAs auto c = is_neg c.udp_fd ≡ false

abbrev Outcome : Mode → Step → Type 0
Outcome m s =
    ((s.value ≡ pos 0) × (s.conn.is_connected ≡ true) × UsableAs m s.conn)
    ⊎ ((s.value ≡ minus_one) × IsClosed s.conn)

connect_tcp-Outcome :
    (m : Mode) (c : Conn) (w : World)
    → c.mode ≡ m
    → m ≢ udp_only
    → is_neg c.tcp_fd ≡ true
    → c.is_connected ≡ false
    → (m ≡ tcp_only) ⊎ (is_neg c.udp_fd ≡ false)
    → Outcome m (connect_tcp c w)
unfolding connect_tcp
connect_tcp-Outcome udp_only c w e ne tcp off udp = absurd (ne refl)
connect_tcp-Outcome tcp_only c w e ne tcp off udp = ground arith
connect_tcp-Outcome hybrid c w e ne tcp off udp = ground arith
connect_tcp-Outcome auto c w e ne tcp off udp = ground arith

connect_udp_lem :
    (c : Conn) (w : World)
    → let u = connect_udp c w in
      ((u.value ≡ pos 0) × (is_neg u.conn.udp_fd ≡ false)
        ⊎ (u.value ≡ minus_one) × (is_neg u.conn.udp_fd ≡ true))
      × (u.conn.tcp_fd ≡ c.tcp_fd)
      × (u.conn.mode ≡ c.mode)
      × (u.conn.is_connected ≡ c.is_connected)
unfolding connect_udp
connect_udp_lem c w = ground arith

-- The TCP half behind an open UDP socket.
connect_tcp-behind_udp :
    (m : Mode) (c : Conn) (w : World)
    → c.mode ≡ m
    → m ≢ udp_only
    → IsClosed c
    → is_neg (connect_udp c w).conn.udp_fd ≡ false
    → Outcome m (connect_tcp (connect_udp c w).conn (connect_udp c w).world)
connect_tcp-behind_udp m c w e ne v udp =
    connect_tcp-Outcome m (connect_udp c w).conn (connect_udp c w).world
      ((connect_udp_lem c w).2 ∙ e) ne (ap is_neg (connect_udp_lem c w).1 ∙ v.tcp)
      ((connect_udp_lem c w).3 ∙ v.off) (inr udp)

connect-Outcome :
    (m : Mode) (c : Conn) (w : World) → c.mode ≡ m → IsClosed c → Outcome m (ht_connect c w)
unfolding ht_connect
connect-Outcome udp_only c w e v = ground (arith, connect_udp_lem c w)
connect-Outcome tcp_only c w e v =
    ground (arith, connect_tcp-Outcome tcp_only c w e (λ h. cc) v.tcp v.off (inl refl))
connect-Outcome hybrid c w e v = elim ((connect_udp_lem c w).0) [
  | inl u ↦ ground (arith, connect_tcp-behind_udp hybrid c w e (λ h. cc) v u.1)
  | inr u ↦ ground (arith, connect_udp_lem c w)
]
connect-Outcome auto c w e v = elim ((connect_udp_lem c w).0) [
  | inl u ↦ ground (arith, connect_tcp-behind_udp auto c w e (λ h. cc) v u.1)
  | inr u ↦ ground (arith, connect_udp_lem c w)
]

-- On a connection without open descriptors `ht_connect` either returns 0, marks it as connected and
-- leaves open the channel that its mode needs (UDP, but TCP in TCP-only mode), or returns -1 and
-- leaves it without open descriptors and not connected, whichever system calls fail. Each descriptor
-- that it has opened it has closed again, unless the connection holds it in the end: for any `n`, it
-- has been opened once more than closed for each of the two fields that hold it, so that a failure
-- leaks none. (The calls up to then are recorded.)
pub connect_opens_or_closes :
    (c : Conn) (w : World) (n : ℕ)
    → IsClosed c
    → Synced w
    → ((((ht_connect c w).value ≡ pos 0)
          × ((ht_connect c w).conn.is_connected ≡ true)
          × UsableAs c.mode (ht_connect c w).conn)
        ⊎ (((ht_connect c w).value ≡ minus_one) × IsClosed (ht_connect c w).conn))
      × (opened n (ht_connect c w).world + closed n w
          ≡ opened n w + closed n (ht_connect c w).world + held n (ht_connect c w).conn)
connect_opens_or_closes c w n v k = (
  connect-Outcome c.mode c w refl v,
  omega (arith, (connect-modes n c.mode c w refl v.udp v.tcp k).balance),
)
