-- ===== src/Transport/Recv/Stall.antt =====
-- The limits of what one call of `ht_recv_data` hands over.
use remote_trans.Base.{
  ℕ, ◌+◌, ◌-◌, ◌%◌, ◌^◌, ◌≤◌, ◌<◌, ◌≡◌, ◌≢◌, refl, ◌∙◌, true, List, [], ◌∷◌, pos, arith, length,
  min, Bool-cases, inl, inr, All,
}
use remote_trans.Transport.Types.{RecvEntry, Conn}
use remote_trans.Transport.Recv.{is_next, drain, ht_recv_data}
use remote_trans.Transport.Recv.Delivery.{is_next-means, recv_data-eq-walk}

-- No entry carries the number.
abbrev pub Lacks : ℕ → List RecvEntry → Type 0
Lacks n = All (λ e. e.packet.header.sequence ≢ n)

drain-Lacks :
    (es : List RecvEntry) (room n : ℕ)
    → Lacks n es
    → drain es room n ≡ record { kept = es; out = []; sequence = n }
unfolding drain
drain-Lacks [] room n v = refl
drain-Lacks (e ∷ es) room n v = ground (arith, drain-Lacks es room n v.1)

-- Sequence numbers that fall from the head on: in-order arrivals, which are linked in at the head.
abbrev pub Falls : List RecvEntry → Type 0
Falls [] = Unit {0}
Falls (e ∷ es) = All (λ d. d.packet.header.sequence < e.packet.header.sequence) es × Falls es

-- The number that follows an entry's is not further down a falling list.
Falls-Lacks-suc :
    (e : RecvEntry) (es : List RecvEntry) (n : ℕ)
    → e.packet.header.sequence ≡ n
    → n < 2 ^ 32 - 1
    → All (λ d. d.packet.header.sequence < e.packet.header.sequence) es
    → Lacks ((n + 1) % 2 ^ 32) es
Falls-Lacks-suc e [] n h small v = tt
Falls-Lacks-suc e (d ∷ es) n h small v = (omega (arith, v.0), Falls-Lacks-suc e es n h small v.1)

drain-Falls :
    (es : List RecvEntry) (room n : ℕ)
    → Falls es
    → n < 2 ^ 32 - 1
    → length es ≤ length (drain es room n).kept + 1
unfolding drain
drain-Falls [] room n v small = omega arith
drain-Falls (e ∷ es) room n v small = elim (Bool-cases (is_next e n)) [
  | inl hit ↦ ground (
    arith,
    drain-Lacks es (room - min e.packet.header.payload_size room) ((n + 1) % 2 ^ 32)
        (Falls-Lacks-suc e es n (is_next-means e n hit).1 small v.0),
    hit,
  )
  | inr miss ↦ ground (arith, drain-Falls es room n v.1 small, miss)
]

-- When no buffered entry carries the expected sequence number, an open connection's `ht_recv_data`
-- returns 0 for a buffer that is not empty, hands over nothing and changes nothing, whatever else
-- has arrived.
pub recv_data_stalls :
    (c : Conn) (size : ℕ)
    → c.is_connected ≡ true
    → 0 < size
    → Lacks c.recv_sequence c.recv_buffer
    → ht_recv_data c size ≡ (pos 0, [], c)
recv_data_stalls c size open_conn some v =
    recv_data-eq-walk c size open_conn some ∙ rw (drain-Lacks c.recv_buffer size c.recv_sequence v)

-- When the buffered packets have arrived in the order of their sequence numbers, so that the numbers
-- fall from the newest on, and the expected number is not about to wrap, a call on an open
-- connection with a buffer that is not empty removes at most one of them, however many
-- are due.
pub recv_data_one_at_a_time :
    (c : Conn) (size : ℕ)
    → c.is_connected ≡ true
    → 0 < size
    → Falls c.recv_buffer
    → c.recv_sequence < 2 ^ 32 - 1
    → length c.recv_buffer ≤ length (ht_recv_data c size).2.recv_buffer + 1
recv_data_one_at_a_time c size open_conn some v small =
    rw (recv_data-eq-walk c size open_conn some)
      (drain-Falls c.recv_buffer size c.recv_sequence v small)
