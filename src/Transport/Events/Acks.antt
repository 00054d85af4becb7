-- ===== src/Transport/Events/Acks.antt =====
-- What an acknowledgement does to the send buffer.
use remote_trans.Base.{
  ℕ, ◌≡◌, ◌≢◌, ◌⊎◌, inl, inr, refl, ap, ◌∙◌, Bool, none, some, List, [], ◌∷◌, ◌++◌, arith, All,
  Bool-cases, ◌==◌, ==→eq, eq→==,
}
use remote_trans.World.{reply, gettimeofday}
use remote_trans.Transport.Types.{Packet, SendEntry}
use remote_trans.Transport.Clock.{time_diff_ms}
use remote_trans.Transport.Statistics.{ht_update_rtt}
use remote_trans.Transport.Events.{Session, take_acked, on_ack, dispatch}
use remote_trans.Transport.Types.{type_ack}

-- No entry carries the number.
abbrev pub Lacks : ℕ → List SendEntry → Type 0
Lacks n = All (λ e. e.packet.header.sequence ≢ n)

-- The first entry with the number, and the list around it.
pub record Found (n : ℕ) (es : List SendEntry) : Type 0 where
  pub before : List SendEntry
  pub entry : SendEntry
  pub behind : List SendEntry
  pub split : es ≡ before ++ entry ∷ behind
  pub first : Lacks n before
  pub number : entry.packet.header.sequence ≡ n
  pub taken : take_acked n es ≡ some (entry, before ++ behind)

Found-here :
    (n : ℕ) (e : SendEntry) (es : List SendEntry) → e.packet.header.sequence ≡ n → Found n (e ∷ es)
unfolding take_acked
Found-here n e es h = record {
  before = [];
  entry = e;
  behind = es;
  split = refl;
  first = tt;
  number = h;
  taken = rw (eq→== _ _ h);
}

Found-later :
    (n : ℕ) (e : SendEntry) (es : List SendEntry)
    → e.packet.header.sequence ≢ n
    → Found n es
    → Found n (e ∷ es)
unfolding take_acked
Found-later n e es h v = record {
  before = e ∷ v.before;
  entry = v.entry;
  behind = v.behind;
  split = ap (◌∷◌ e) v.split;
  first = (h, v.first);
  number = v.number;
  taken = ground (arith, v.taken);
}

-- Either the list holds the number, or the search finds nothing.
pub take_acked-cases :
    (n : ℕ) (es : List SendEntry) → Found n es ⊎ (Lacks n es × (take_acked n es ≡ none))
unfolding take_acked
take_acked-cases n [] = inr (tt, refl)
take_acked-cases n (e ∷ es) = elim (Bool-cases (e.packet.header.sequence == n)) [
  | inl h ↦ inl (Found-here n e es (==→eq _ _ h))
  | inr h ↦ elim (take_acked-cases n es) [
    | inl v ↦ inl (Found-later n e es (ground arith) v)
    | inr v ↦ inr ((ground arith, v.0), ground (arith, v.1))
  ]
]

dispatch-ack :
    (p : Packet) (tcp : Bool) (s : Session)
    → p.header.type ≡ type_ack
    → dispatch p tcp s ≡ on_ack p s
unfolding dispatch
dispatch-ack p tcp s h = rw h

pub on_ack-found :
    (p : Packet) (s : Session) (e : SendEntry) (kept : List SendEntry)
    → take_acked p.header.ack_sequence s.conn.send_buffer ≡ some (e, kept)
    → (on_ack p s).conn ≡ record s.conn {
      stats =
          ht_update_rtt (time_diff_ms e.send_time (reply gettimeofday s.world).time) s.conn.stats;
      send_buffer = kept;
    }
unfolding on_ack
on_ack-found p s e kept h = rw (h, on_ack)

pub on_ack-none :
    (p : Packet) (s : Session)
    → take_acked p.header.ack_sequence s.conn.send_buffer ≡ none
    → on_ack p s ≡ s
unfolding on_ack
on_ack-none p s h = rw (h, on_ack)

-- An acknowledgement of a number that the send buffer holds removes the first entry with it and no
-- other, keeps the order, takes the time since the entry was sent as a round-trip sample, and
-- changes nothing else in the connection. One of an unknown number changes nothing at all.
pub ack_removes :
    (p : Packet) (tcp : Bool) (s : Session)
    → p.header.type ≡ type_ack
    → ((v : Found p.header.ack_sequence s.conn.send_buffer) × ((dispatch p tcp s).conn
          ≡ record s.conn {
            stats =
                ht_update_rtt
                  (time_diff_ms v.entry.send_time (reply gettimeofday s.world).time)
                  s.conn.stats;
            send_buffer = v.before ++ v.behind;
          }))
      ⊎ (Lacks p.header.ack_sequence s.conn.send_buffer × (dispatch p tcp s ≡ s))
ack_removes p tcp s h = elim (take_acked-cases p.header.ack_sequence s.conn.send_buffer) [
  | inl v ↦ inl (v, rw (dispatch-ack p tcp s h) (on_ack-found p s v.entry _ v.taken))
  | inr v ↦ inr (v.0, dispatch-ack p tcp s h ∙ on_ack-none p s v.1)
]
