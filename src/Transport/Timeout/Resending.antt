-- ===== src/Transport/Timeout/Resending.antt =====
-- The walk of `ht_handle_timeout` over the send buffer: what it leaves, and what it sends.
use remote_trans.Base.{
  ◌≡◌, refl, sym, ap, subst, ◌∙◌, Bool, true, false, not, List, [], ◌∷◌, ◌++◌, ℤ, arith,
  append_assoc, inl, inr, if◌then◌else◌, is_neg, is_pos, minus_one, if_cases, ◌&&◌, Bool-cases,
}
use remote_trans.World.{Timeval, World, Call, after, gettimeofday, send, sendto}
use remote_trans.Transport.Types.{Packet, SendEntry, Conn, Step}
use remote_trans.Transport.Wire.Seal.{seal-seal}
use remote_trans.Transport.Wire.{wire_bytes, seal}
use remote_trans.Transport.Send.{account_sent, ht_send_packet, send_either}
use remote_trans.Transport.Send.Frame.{send_either-Keeps}
use remote_trans.Transport.Timeout.{
  Sweep, retransmit, give_up, pass, sweep_entry, sweep, retransmit_due,
}
use remote_trans.Transport.Timeout.Sweeping.{
  overdue, has_tries, intended, Settled, SameSettings, is_due-same, may_retransmit-same,
  sweep-Settled,
}

-- The calls of the first list are among those of the second, in the same order.
pub data Among : List Call → List Call → Type 0 where
  nothing : Among [] []
  other : (c : Call) {xs ys : List Call} → Among xs ys → Among xs (c ∷ ys)
  this : (c : Call) {xs ys : List Call} → Among xs ys → Among (c ∷ xs) (c ∷ ys)

Among-append : {xs ys us vs : List Call} → Among xs ys → Among us vs → Among (xs ++ us) (ys ++ vs)
Among-append nothing k = k
Among-append (other c h) k = other c (Among-append h k)
Among-append (this c h) k = this c (Among-append h k)

Among-nothing : (xs : List Call) → Among [] xs
Among-nothing [] = nothing
Among-nothing (x ∷ xs) = other x (Among-nothing xs)

-- The first call that a retransmission makes: by TCP if that socket is open, else by UDP.
abbrev pub first_call : Conn → Packet → List Call
first_call c p =
    if not (is_neg c.tcp_fd)
    then send c.tcp_fd (wire_bytes (seal p)) ∷ []
    else if not (is_neg c.udp_fd)
    then sendto c.udp_fd (wire_bytes (seal p)) ∷ []
    else []

-- Those of a list, the newest first.
abbrev pub resent : Timeval → Conn → List SendEntry → List Call
resent now c [] = []
resent now c (e ∷ es) =
    resent now c es ++ (if overdue now c e && has_tries c e then first_call c e.packet else [])

-- From `w` to `u` the calls `xs` are made, and others.
pub record Made (w u : World) (xs : List Call) : Type 0 where
  pub made : List Call
  pub calls : u.calls ≡ made ++ w.calls
  pub among : Among xs made

Made-nothing : (w : World) → Made w w []
Made-nothing w = record { made = []; calls = refl; among = nothing }

Made-call : (c : Call) (w : World) → Made w (after c w) (c ∷ [])
unfolding after
Made-call c w = record { made = c ∷ []; calls = refl; among = this c nothing }

Made-then : (w u v : World) (xs ys : List Call) → Made w u xs → Made u v ys → Made w v (ys ++ xs)
Made-then w u v xs ys p q = record {
  made = q.made ++ p.made;
  calls = q.calls ∙ ap (◌++◌ q.made) p.calls ∙ sym (append_assoc q.made p.made w.calls);
  among = Among-append q.among p.among;
}

Made-some : (w u : World) (xs : List Call) → Made w u xs → Made w u []
Made-some w u xs p = record { made = p.made; calls = p.calls; among = Among-nothing p.made }

account_sent-Made : (c : Conn) (n : ℤ) (w : World) → Made w (account_sent c n w).world []
unfolding account_sent
account_sent-Made c n w = elim (Bool-cases (is_pos n)) [
  | inl e ↦ rw e (Made-some w _ _ (Made-call gettimeofday w))
  | inr e ↦ rw e (Made-nothing w)
]

-- One call, and what is accounted for it.
sent-Made :
    (c : Conn) (n : ℤ) (x : Call) (w : World) → Made w (account_sent c n (after x w)).world (x ∷ [])
sent-Made c n x w =
    Made-then w (after x w) _ _ _ (Made-call x w) (account_sent-Made c n (after x w))

send_packet-tcp :
    (c : Conn) (p : Packet) (w : World)
    → is_neg c.tcp_fd ≡ false
    → Made w (ht_send_packet c p true w).world (first_call c p)
unfolding ht_send_packet
send_packet-tcp c p w e = rw e (sent-Made c _ (send c.tcp_fd (wire_bytes (seal p))) w)

send_packet-udp :
    (c : Conn) (p : Packet) (w : World)
    → is_neg c.udp_fd ≡ false
    → Made w (ht_send_packet c p false w).world (sendto c.udp_fd (wire_bytes (seal p)) ∷ [])
unfolding ht_send_packet
send_packet-udp c p w e = rw e (sent-Made c _ (sendto c.udp_fd (wire_bytes (seal p))) w)

send_packet-shut :
    (c : Conn) (p : Packet) (w : World)
    → is_neg c.tcp_fd ≡ true
    → ht_send_packet c p true w ≡ record { value = minus_one; conn = c; world = w }
unfolding ht_send_packet
send_packet-shut c p w e = rw e refl

send_packet-no_udp :
    (c : Conn) (p : Packet) (w : World)
    → is_neg c.udp_fd ≡ true
    → ht_send_packet c p false w ≡ record { value = minus_one; conn = c; world = w }
unfolding ht_send_packet
send_packet-no_udp c p w e = rw e refl

send_packet-Made :
    (c : Conn) (p : Packet) (tcp : Bool) (w : World) → Made w (ht_send_packet c p tcp w).world []
send_packet-Made c p true w = elim (Bool-cases (is_neg c.tcp_fd)) [
  | inl e ↦ rw (send_packet-shut c p w e) (Made-nothing w)
  | inr e ↦ Made-some w _ _ (send_packet-tcp c p w e)
]
send_packet-Made c p false w = elim (Bool-cases (is_neg c.udp_fd)) [
  | inl e ↦ rw (send_packet-no_udp c p w e) (Made-nothing w)
  | inr e ↦ Made-some w _ _ (send_packet-udp c p w e)
]

-- Without an open TCP socket.
send_udp-Made :
    (c : Conn) (p : Packet) (w : World)
    → is_neg c.tcp_fd ≡ true
    → Made w (ht_send_packet c (seal p) false w).world (first_call c p)
send_udp-Made c p w e = elim (Bool-cases (is_neg c.udp_fd)) [
  | inl f ↦ rw (e, f) (send_packet-Made c (seal p) false w)
  | inr f ↦
      rw (e, f)
        (subst
          (λ q.
            Made w (ht_send_packet c (seal p) false w).world (sendto c.udp_fd (wire_bytes q) ∷ []))
          (seal-seal p) (send_packet-udp c (seal p) w f))
]

send_either-Made :
    (c : Conn) (p : Packet) (w : World) → Made w (send_either c p true w).world (first_call c p)
unfolding send_either
send_either-Made c p w = elim (Bool-cases (is_neg c.tcp_fd)) [
  | inl e ↦
      subst
        (λ (x : Step).
          Made w (if is_neg x.value then ht_send_packet x.conn (seal p) false x.world else x).world
            (first_call c p))
        (sym (send_packet-shut c p w e)) (send_udp-Made c p w e)
  | inr e ↦
      if_cases (λ (x : Step). Made w x.world (first_call c p)) (is_neg first.value)
        (ht_send_packet first.conn (seal p) false first.world) first
        (λ f.
          Made-then w first.world _ _ [] (send_packet-tcp c p w e)
            (send_packet-Made first.conn (seal p) false first.world))
        (λ f. send_packet-tcp c p w e)
]
  where
    first : Step
    first = ht_send_packet c p true w

-- The descriptors and settings that the walk reads.
record Steady (c d : Conn) : Type 0 where
  settings : SameSettings c d
  udp : d.udp_fd ≡ c.udp_fd
  tcp : d.tcp_fd ≡ c.tcp_fd

sweep_entry-Steady :
    (now : Timeval) (e : SendEntry) (c : Conn) (s : Sweep)
    → Steady c s.conn
    → Steady c (sweep_entry now e s).conn
unfolding sweep_entry retransmit give_up pass
sweep_entry-Steady now e c s v = ground (arith, v, send_either-Keeps s.conn e.packet true s.world)

first_call-same : (c d : Conn) (p : Packet) → Steady c d → first_call d p ≡ first_call c p
first_call-same c d p v = rw (v.tcp, v.udp) refl

abbrev again_calls : Timeval → Conn → SendEntry → List Call
again_calls now c e = if overdue now c e && has_tries c e then first_call c e.packet else []

sweep_entry-Made :
    (now : Timeval) (e : SendEntry) (c : Conn) (s : Sweep)
    → Steady c s.conn
    → Made s.world (sweep_entry now e s).world (again_calls now c e)
unfolding sweep_entry retransmit give_up pass
sweep_entry-Made now e c s v = elim (Bool-cases (overdue now c e)) [
  | inl d ↦ elim (Bool-cases (has_tries c e)) [
    | inl t ↦
        rw (is_due-same now c s.conn e v.settings, d, may_retransmit-same c s.conn e v.settings, t)
          (subst (Made s.world _) (first_call-same c s.conn e.packet v)
            (send_either-Made s.conn e.packet s.world))
    | inr t ↦
        rw (is_due-same now c s.conn e v.settings, d, may_retransmit-same c s.conn e v.settings, t)
          (Made-nothing s.world)
  ]
  | inr d ↦ rw (is_due-same now c s.conn e v.settings, d) (Made-nothing s.world)
]

sweep-Made :
    (now : Timeval) (c : Conn) (es : List SendEntry) (s : Sweep)
    → Steady c s.conn
    → Made s.world (sweep now es s).world (resent now c es)
unfolding sweep
sweep-Made now c [] s v = Made-nothing s.world
sweep-Made now c (e ∷ es) s v =
    Made-then s.world (sweep_entry now e s).world _ _ _ (sweep_entry-Made now e c s v)
      (sweep-Made now c es (sweep_entry now e s) (sweep_entry-Steady now e c s v))

-- If no entry is given up directly behind a retransmitted one, `ht_handle_timeout`'s walk leaves the
-- send buffer as intended: the entries not sent for longer than the limit that have been sent again
-- less often than allowed are kept with the new time and one more retransmission counted, those that
-- have been sent that often are dropped, the others stay, all in their order. Each of the first is
-- handed to the system once more, sealed and in the order of the buffer, by TCP if that socket is open
-- and else by UDP; where neither is open it is counted without being sent.
pub retransmit_due_as_meant :
    (now : Timeval) (c : Conn) (w : World)
    → Settled now c false c.send_buffer
    → ((retransmit_due now c w).conn.send_buffer ≡ intended now c c.send_buffer)
      × Made w (retransmit_due now c w).world (resent now c c.send_buffer)
unfolding retransmit_due
retransmit_due_as_meant now c w v = (
  sweep-Settled now c c.send_buffer false start (refl, refl) refl v,
  sweep-Made now c c.send_buffer start (record { settings = (refl, refl); udp = refl; tcp = refl }),
)
  where
    start : Sweep
    start = record { front = []; skipped = []; actions = 0; conn = c; world = w }
