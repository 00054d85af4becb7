-- ===== src/Transport/Events/Termination.antt =====
-- The end of the loop of `ht_process_events`.
use remote_trans.Base.{
  ℕ, zero, suc, ◌+◌, ◌≤◌, ◌<◌, ◌≡◌, refl, ap, ◌∙◌, Bool, true, false, some, List, ℤ, arith, is_pos,
  Bool-cases, inl, inr, minus_one, ltb, ltb→lt, not_ltb→le,
}
use remote_trans.World.{World, recv, recvfrom, after, gettimeofday}
use remote_trans.Transport.Types.{Packet, Conn, Step}
use remote_trans.Transport.Wire.{decode}
use remote_trans.Transport.Recv.{poll_udp, poll_tcp, validate, ht_recv_packet, Received, Poll}
use remote_trans.Transport.Send.{ht_send_packet, next_sequence}
use remote_trans.Transport.Send.Frame.{send_packet-Keeps}
use remote_trans.Transport.Events.{
  Session, session, ack_packet, store, on_data, on_ack, on_heartbeat, on_control, dispatch,
  events_loop, ht_process_events,
}

-- From the `t`-th call on nothing more arrives.
pub record SilentFrom (t : ℕ) (w : World) : Type 0 where
  pub udp : (n : ℕ) (fd : ℤ) → t ≤ n → is_pos (w.script n (recvfrom fd)).ret ≡ false
  pub tcp : (n : ℕ) (fd : ℤ) → t ≤ n → is_pos (w.script n (recv fd)).ret ≡ false

SilentFrom-script : (t : ℕ) (w u : World) → u.script ≡ w.script → SilentFrom t w → SilentFrom t u
SilentFrom-script t w u e v = record {
  udp = λ n fd h. ap (λ f. is_pos (f n (recvfrom fd)).ret) e ∙ v.udp n fd h;
  tcp = λ n fd h. ap (λ f. is_pos (f n (recv fd)).ret) e ∙ v.tcp n fd h;
}

-- The script is the environment's, and calls are only added.
pub record Onward (w u : World) : Type 0 where
  pub script : u.script ≡ w.script
  pub tick : w.tick ≤ u.tick

poll_udp-Onward : (c : Conn) (buf : List ℕ) (w : World) → Onward w (poll_udp c buf w).world
unfolding poll_udp after
poll_udp-Onward c buf w = ground arith

poll_tcp-Onward : (c : Conn) (u : Poll) → Onward u.world (poll_tcp c u).world
unfolding poll_tcp after
poll_tcp-Onward c u = ground arith

validate-Onward : (c : Conn) (t : Poll) → Onward t.world (validate c t).world
unfolding validate after
validate-Onward c t = ground arith

pub recv_packet-Onward :
    (c : Conn) (buf : List ℕ) (w : World) → Onward w (ht_recv_packet c buf w).world
unfolding ht_recv_packet
recv_packet-Onward c buf w = ground (
  arith,
  poll_udp-Onward c buf w,
  poll_tcp-Onward c (poll_udp c buf w),
  validate-Onward c (poll_tcp c (poll_udp c buf w)),
)

-- A packet is received by a call: the count of calls rises.
validate-counts :
    (c : Conn) (t : Poll)
    → is_pos (validate c t).value ≡ true
    → t.world.tick < (validate c t).world.tick
unfolding validate after
validate-counts c t h = ground arith

recv_packet-counts :
    (c : Conn) (buf : List ℕ) (w : World)
    → is_pos (ht_recv_packet c buf w).value ≡ true
    → w.tick < (ht_recv_packet c buf w).world.tick
unfolding ht_recv_packet
recv_packet-counts c buf w h = ground (
  arith,
  poll_udp-Onward c buf w,
  poll_tcp-Onward c (poll_udp c buf w),
  validate-counts c (poll_tcp c (poll_udp c buf w)),
)

poll_udp-silent :
    (t : ℕ) (c : Conn) (buf : List ℕ) (w : World)
    → SilentFrom t w
    → t ≤ w.tick
    → is_pos (poll_udp c buf w).value ≡ false
unfolding poll_udp
poll_udp-silent t c buf w v h = ground (arith, v.udp w.tick c.udp_fd h)

poll_tcp-silent :
    (t : ℕ) (c : Conn) (u : Poll)
    → SilentFrom t u.world
    → t ≤ u.world.tick
    → is_pos u.value ≡ false
    → is_pos (poll_tcp c u).value ≡ false
unfolding poll_tcp
poll_tcp-silent t c u v h e = ground (arith, v.tcp u.world.tick c.tcp_fd h)

recv_packet-silent :
    (t : ℕ) (c : Conn) (buf : List ℕ) (w : World)
    → SilentFrom t w
    → t ≤ w.tick
    → is_pos (ht_recv_packet c buf w).value ≡ false
unfolding ht_recv_packet
recv_packet-silent t c buf w v h = ground (
  arith,
  poll_udp-silent t c buf w v h,
  poll_udp-Onward c buf w,
  poll_tcp-silent t c (poll_udp c buf w)
      (SilentFrom-script t w (poll_udp c buf w).world (poll_udp-Onward c buf w).script v),
)

store-Onward : (p : Packet) (s : Session) → Onward s.world (store p s).world
unfolding store after
store-Onward p s = ground arith

on_data-Onward : (p : Packet) (tcp : Bool) (s : Session) → Onward s.world (on_data p tcp s).world
unfolding on_data after
on_data-Onward p tcp s = ground (
  arith,
  send_packet-Keeps (next_sequence s.conn) (ack_packet s.conn p s.world) tcp
      (after gettimeofday s.world),
  store-Onward p (
      session (
        ht_send_packet (next_sequence s.conn) (ack_packet s.conn p s.world) tcp
          (after gettimeofday s.world))),
)

on_ack-Onward : (p : Packet) (s : Session) → Onward s.world (on_ack p s).world
unfolding on_ack after
on_ack-Onward p s = ground arith

dispatch-Onward : (p : Packet) (tcp : Bool) (s : Session) → Onward s.world (dispatch p tcp s).world
unfolding dispatch on_heartbeat on_control after
dispatch-Onward p tcp s = ground (arith, on_data-Onward p tcp s, on_ack-Onward p s)

-- One round, with the session that it leaves for the next.
module _ (buf : List ℕ) (s : Session) where
  abbrev got : Received
  got = ht_recv_packet s.conn buf s.world

  abbrev next : Session
  next = dispatch (decode got.buf) got.from_tcp (record { conn = got.conn; world = got.world })

  round-Onward : Onward s.world next.world
  round-Onward = ground (
    arith,
    recv_packet-Onward s.conn buf s.world,
    dispatch-Onward (decode got.buf) got.from_tcp (record { conn = got.conn; world = got.world }),
  )

  round-counts : is_pos got.value ≡ true → s.world.tick < next.world.tick
  round-counts h = ground (
    arith,
    recv_packet-counts s.conn buf s.world h,
    dispatch-Onward (decode got.buf) got.from_tcp (record { conn = got.conn; world = got.world }),
  )

  -- It was not silent yet.
  round-early : (t : ℕ) → SilentFrom t s.world → is_pos got.value ≡ true → s.world.tick < t
  round-early t v h = elim (Bool-cases (ltb s.world.tick t)) [
    | inl e ↦ ltb→lt _ _ e
    | inr e ↦ absurd (cc (recv_packet-silent t s.conn buf s.world v (not_ltb→le _ _ e)))
  ]

events_loop-ends :
    (t fuel processed : ℕ) (buf : List ℕ) (s : Session)
    → SilentFrom t s.world
    → 0 < fuel
    → t < s.world.tick + fuel
    → (r : Step) × (events_loop fuel processed buf s ≡ some r)
unfolding events_loop
events_loop-ends t zero processed buf s v h enough = absurd (omega arith)
events_loop-ends t (suc fuel) processed buf s v h enough =
    elim (Bool-cases (is_pos (got buf s).value)) [
      | inl e ↦ rw e (
          events_loop-ends t fuel (processed + 1) (got buf s).buf (next buf s)
            (SilentFrom-script t s.world (next buf s).world (round-Onward buf s).script v)
            (omega (arith, round-early buf s t v e)) (omega (arith, round-counts buf s e)))
      | inr e ↦ rw e (_, refl)
    ]

-- If nothing more arrives from the `t`-th system call on, `ht_process_events` returns, within a
-- number of rounds that exceeds the calls left until then.
pub process_events_ends :
    (t fuel : ℕ) (buf : List ℕ) (c : Conn) (w : World)
    → SilentFrom t w
    → 0 < fuel
    → t < w.tick + fuel
    → (r : Step) × (ht_process_events fuel buf c w ≡ some r)
unfolding ht_process_events
process_events_ends t fuel buf c w v h enough = elim (Bool-cases c.is_connected) [
  | inl e ↦ (loop.0, simp e loop.1)
  | inr e ↦ (record { value = minus_one; conn = c; world = w }, simp e)
]
  where
    loop : (r : Step) × (events_loop fuel 0 buf (record { conn = c; world = w }) ≡ some r)
    loop = events_loop-ends t fuel 0 buf (record { conn = c; world = w }) v h enough
