-- ===== src/Transport/Recv/Delivery.antt =====
-- `ht_recv_data`: which entries leave the receive buffer, and which bytes the caller gets.
use remote_trans.Base.{
  int_of_bits, ℕ, zero, suc, subst, ◌+◌, ◌-◌, ◌%◌, ◌^◌, ◌≤◌, ◌<◌, ◌≡◌, refl, sym, ap, ap₂, ◌∙◌,
  true, false, List, [], ◌∷◌, ◌++◌, arith, length, take, min, length-take, take-nil, take-append,
  take-take-min, Bool-cases, inl, inr, ◌==◌, All,
}
use remote_trans.Transport.Types.{RecvEntry, Conn}
use remote_trans.Transport.Recv.{
  Drained, copied, copy_out, keep_entry, is_next, drain, ht_recv_data,
}

-- The entry has arrived and carries the number `n`.
abbrev pub Carries : ℕ → RecvEntry → Type 0
Carries n e = (e.received ≡ true) × (e.packet.header.sequence ≡ n)

-- A list in two parts that keep its order, what stays and what is removed, when `n` is the expected
-- number and the caller has room for `room` bytes: while there is room, an entry is removed exactly if
-- it carries the number expected by then.
pub data Split : ℕ → ℕ → List RecvEntry → List RecvEntry → List RecvEntry → Type 0 where
  end : {room n : ℕ} → Split room n [] [] []
  full : {n : ℕ} (es : List RecvEntry) → Split 0 n es es []
  stays :
      (e : RecvEntry) {room n : ℕ} {es ks rs : List RecvEntry}
      → 0 < room
      → ¬ (Carries n e)
      → Split room n es ks rs
      → Split room n (e ∷ es) (e ∷ ks) rs
  leaves :
      (e : RecvEntry) {room n : ℕ} {es ks rs : List RecvEntry}
      → 0 < room
      → Carries n e
      → Split (room - e.packet.header.payload_size) ((n + 1) % 2 ^ 32) es ks rs
      → Split room n (e ∷ es) ks (e ∷ rs)

-- The payload that an entry's header announces, and those of a list in its order.
abbrev pub payload_of : RecvEntry → List ℕ
payload_of e = take e.packet.header.payload_size e.packet.payload

abbrev pub payloads : List RecvEntry → List ℕ
payloads [] = []
payloads (e ∷ es) = payload_of e ++ payloads es

-- Received entries with consecutive 32-bit sequence numbers from `n` on.
abbrev pub InOrder : ℕ → List RecvEntry → Type 0
InOrder n [] = Unit {0}
InOrder n (e ∷ es) =
    (e.received ≡ true) × (e.packet.header.sequence ≡ n) × InOrder ((n + 1) % 2 ^ 32) es

-- The announced payload is there.
abbrev pub IsFilled : RecvEntry → Type 0
IsFilled e = e.packet.header.payload_size ≤ length e.packet.payload

pub record Delivered (es : List RecvEntry) (room n : ℕ) (d : Drained) : Type 0 where
  pub removed : List RecvEntry
  pub split : Split room n es d.kept removed
  pub order : InOrder n removed
  pub out : d.out ≡ take room (payloads removed)
  pub next : d.sequence ≡ (n + length removed) % 2 ^ 32

copied-append :
    (e : RecvEntry) (room : ℕ) (bs : List ℕ)
    → IsFilled e
    → copied e room ++ take (room - min e.packet.header.payload_size room) bs
      ≡ take room (payload_of e ++ bs)
copied-append e room bs v =
    ap₂ ◌++◌ (sym (take-take-min room e.packet.header.payload_size e.packet.payload)) (
      ap (λ m. take m bs)
        (omega (arith, v, length-take {0} e.packet.header.payload_size e.packet.payload)))
    ∙ sym (take-append room (payload_of e) bs)

pub is_next-means :
    (e : RecvEntry) (n : ℕ)
    → is_next e n ≡ true
    → (e.received ≡ true) × (e.packet.header.sequence ≡ n)
is_next-means e n h = ground arith

Delivered-end :
    (room n : ℕ) → n < 2 ^ 32 → Delivered [] room n (record { kept = []; out = []; sequence = n })
Delivered-end room n small = record {
  removed = [];
  split = end;
  order = tt;
  out = sym (take-nil room);
  next = omega arith;
}

Delivered-full :
    (es : List RecvEntry) (n : ℕ)
    → n < 2 ^ 32
    → Delivered es 0 n (record { kept = es; out = []; sequence = n })
Delivered-full es n small = record {
  removed = [];
  split = full es;
  order = tt;
  out = refl;
  next = omega arith;
}

Delivered-taken :
    (e : RecvEntry) (es : List RecvEntry) (room n : ℕ) (d : Drained)
    → IsFilled e
    → 0 < room
    → is_next e n ≡ true
    → Delivered es (room - min e.packet.header.payload_size room) ((n + 1) % 2 ^ 32) d
    → Delivered (e ∷ es) room n (copy_out (copied e room) d)
Delivered-taken e es room n d v free hit rest = record {
  removed = e ∷ rest.removed;
  split =
      leaves e free (is_next-means e n hit)
        (subst (λ m. Split m ((n + 1) % 2 ^ 32) es d.kept rest.removed) (omega arith) rest.split);
  order = ((is_next-means e n hit).0, (is_next-means e n hit).1, rest.order);
  out = ap (◌++◌ (copied e room)) rest.out ∙ copied-append e room _ v;
  next = rest.next ∙ omega arith;
}

Delivered-passed :
    (e : RecvEntry) (es : List RecvEntry) (room n : ℕ) (d : Drained)
    → 0 < room
    → is_next e n ≡ false
    → Delivered es room n d
    → Delivered (e ∷ es) room n (keep_entry e d)
Delivered-passed e es room n d free miss rest = record {
  removed = rest.removed;
  split = stays e free (λ (v : Carries n e). ground (arith, miss, v)) rest.split;
  order = rest.order;
  out = rest.out;
  next = rest.next;
}

free : (room : ℕ) → (suc room == 0) ≡ false
free room = ground arith

drain-Delivered :
    (es : List RecvEntry) (room n : ℕ)
    → All IsFilled es
    → n < 2 ^ 32
    → Delivered es room n (drain es room n)
unfolding drain
drain-Delivered [] room n v small = Delivered-end room n small
drain-Delivered (e ∷ es) zero n v small = Delivered-full (e ∷ es) n small
drain-Delivered (e ∷ es) (suc room) n v small = elim (Bool-cases (is_next e n)) [
  | inl hit ↦
      rw (free room, hit)
        (Delivered-taken e es (suc room) n _ v.0 (omega arith) hit
          (drain-Delivered es _ _ v.1 (omega arith)))
  | inr miss ↦
      rw (free room, miss)
        (Delivered-passed e es (suc room) n _ (omega arith) miss
          (drain-Delivered es (suc room) n v.1 small))
]

module _ (c : Conn) (size : ℕ) (open_conn : c.is_connected ≡ true) (some : 0 < size) where
  abbrev walk : Drained
  walk = drain c.recv_buffer size c.recv_sequence

  pub recv_data-eq-walk : ht_recv_data c size ≡ (
    int_of_bits (length walk.out),
    walk.out,
    record c { recv_buffer = walk.kept; recv_sequence = walk.sequence },
  )
  unfolding ht_recv_data
  recv_data-eq-walk = ground arith

-- On an open connection with a buffer of `size` bytes, `ht_recv_data` goes through the receive buffer
-- once and, while the caller's buffer has room, removes exactly the entries that carry the number
-- expected by then: first the expected sequence number, then each time the following one. It keeps the
-- other entries in their order, and moves the expected number on by the number of the entries removed.
-- The bytes that it returns are the first `size` bytes of the payloads of those entries, and its
-- value is the number of these bytes as an `int`. (The buffered payloads have the size that their
-- header says.)
pub recv_data_delivers :
    (c : Conn) (size : ℕ)
    → All IsFilled c.recv_buffer
    → c.recv_sequence < 2 ^ 32
    → c.is_connected ≡ true
    → 0 < size
    → let (value, out, d) = ht_recv_data c size in
      (removed : List RecvEntry) × Split size c.recv_sequence c.recv_buffer d.recv_buffer removed
      × InOrder c.recv_sequence removed
      × (out ≡ take size (payloads removed))
      × (value ≡ int_of_bits (length out))
      × (d.recv_sequence ≡ (c.recv_sequence + length removed) % 2 ^ 32)
recv_data_delivers c size v small open_conn some =
    rw (recv_data-eq-walk c size open_conn some) (r.removed, r.split, r.order, r.out, refl, r.next)
  where
    r : Delivered c.recv_buffer size c.recv_sequence (drain c.recv_buffer size c.recv_sequence)
    r = drain-Delivered c.recv_buffer size c.recv_sequence v small
