-- ===== src/Transport/Send/Stream.antt =====
-- `ht_send_data`: which bytes it accepts, and in which packets they are kept for retransmission.
use remote_trans.Base.{
  int_of_bits, ℕ, zero, suc, ◌+◌, ◌%◌, ◌^◌, ◌≤◌, ◌<◌, ◌≡◌, subst, ◌⊎◌, inl, inr, refl, sym, ap, ap₂,
  ◌∙◌, true, false, List, [], ◌∷◌, ◌++◌, pos, arith, is_neg, length, take, drop, length-append,
  append_assoc, append-nil, take-append_all, take-append-take, length-take, length-drop, Bool-cases,
  ◌==◌,
}
use remote_trans.Floats.{Floats}
use remote_trans.World.{World, malloc, reply, gettimeofday, after, script-after}
use remote_trans.Transport.Types.{Packet, Conn, Step, SendEntry, ht_max_payload_size}
use remote_trans.Transport.Wire.{seal, blank_packet}
use remote_trans.Transport.Send.{
  ht_should_use_tcp, remember, next_sequence, transmit, chunk_packet, send_chunk, send_loop,
  ht_send_data, data_packet,
}
use remote_trans.Transport.Send.Frame.{Accounts, send_either-Keeps}

-- The payload that an entry's header announces, and the payloads of a buffer whose newest entry is
-- the first, oldest first.
abbrev pub payload_of : SendEntry → List ℕ
payload_of e = take e.packet.header.payload_size e.packet.payload

abbrev pub stream : List SendEntry → List ℕ
stream [] = []
stream (e ∷ es) = stream es ++ payload_of e

-- Consecutive 32-bit sequence numbers from `n` on, the newest entry first.
abbrev pub Numbered : ℕ → List SendEntry → Type 0
Numbered n [] = Unit {0}
Numbered n (e ∷ es) = (e.packet.header.sequence ≡ (n + length es) % 2 ^ 32) × Numbered n es

stream-snoc :
    (es : List SendEntry) (e : SendEntry) → stream (es ++ e ∷ []) ≡ payload_of e ++ stream es
stream-snoc [] e = sym (append-nil (payload_of e))
stream-snoc (d ∷ es) e =
    ap (λ bs. bs ++ payload_of d) (stream-snoc es e)
    ∙ append_assoc (payload_of e) (stream es) (payload_of d)

Numbered-snoc :
    (n : ℕ) (es : List SendEntry) (e : SendEntry)
    → e.packet.header.sequence ≡ n
    → n < 2 ^ 32
    → Numbered ((n + 1) % 2 ^ 32) es
    → Numbered n (es ++ e ∷ [])
Numbered-snoc n [] e h small v = (omega arith, tt)
Numbered-snoc n (d ∷ es) e h small v =
    (omega (arith, v.0, length-append {0} es (e ∷ [])), Numbered-snoc n es e h small v.1)

should_use_tcp-script :
    (fl : Floats) (c : Conn) (w : World) → ((ht_should_use_tcp fl c w).1.script ≡ w.script)
unfolding ht_should_use_tcp after
should_use_tcp-script fl c w = ground arith

-- `malloc` never fails.
abbrev pub MallocWorks : World → Type 0
MallocWorks w = (n : ℕ) → is_neg (w.script n malloc).ret ≡ false

-- One round of the loop: either both channels fail and nothing is kept, or the chunk is kept as the
-- newest entry. The sequence number advances in both cases.
record Chunk (c : Conn) (chunk : List ℕ) (w : World) (s : Step) : Type 0 where
  script : s.world.script ≡ w.script
  advanced : s.conn.send_sequence ≡ (c.send_sequence + 1) % 2 ^ 32
  kept :
      ((is_neg s.value ≡ true) × (s.conn.send_buffer ≡ c.send_buffer))
      ⊎ ((e : SendEntry) × (is_neg s.value ≡ false)
          × (s.conn.send_buffer ≡ e ∷ c.send_buffer)
          × (e.packet.header.sequence ≡ c.send_sequence)
          × (payload_of e ≡ chunk))

transmit-script :
    (fl : Floats) (c : Conn) (chunk : List ℕ) (w : World)
    → (transmit fl c chunk w).world.script ≡ w.script
unfolding transmit
transmit-script fl c chunk w = ground (
  arith,
  script-after gettimeofday w,
  should_use_tcp-script fl c (after gettimeofday w),
  send_either-Keeps (next_sequence c) (chunk_packet c chunk w)
      (ht_should_use_tcp fl c (after gettimeofday w)).0
      (ht_should_use_tcp fl c (after gettimeofday w)).1,
)

pub transmit-Accounts :
    (fl : Floats) (c : Conn) (chunk : List ℕ) (w : World)
    → Accounts (next_sequence c) (transmit fl c chunk w).conn
unfolding transmit
transmit-Accounts fl c chunk w =
    (send_either-Keeps (next_sequence c) (chunk_packet c chunk w)
      (ht_should_use_tcp fl c (after gettimeofday w)).0
      (ht_should_use_tcp fl c (after gettimeofday w)).1).conn

-- The entry that `remember` adds if `malloc` works.
abbrev entry : Packet → World → SendEntry
entry p w = record {
  packet = p;
  send_time = (reply gettimeofday (after malloc w)).time;
  retransmit_count = 0;
}

remember_lem :
    (c : Conn) (p : Packet) (w : World)
    → is_neg (reply malloc w).ret ≡ false
    → let s = remember c p w in
      (s.value ≡ pos 0)
      × (s.world.script ≡ w.script)
      × (s.conn ≡ record c { send_buffer = entry p w ∷ c.send_buffer })
unfolding remember after
remember_lem c p w h = ground arith

sealed_sequence :
    (c : Conn) (chunk : List ℕ) (w : World)
    → (seal (chunk_packet c chunk w)).header.sequence ≡ c.send_sequence
unfolding seal data_packet blank_packet
sealed_sequence c chunk w = refl

sealed_payload :
    (c : Conn) (chunk : List ℕ) (w : World)
    → let p = seal (chunk_packet c chunk w) in take p.header.payload_size p.payload ≡ chunk
unfolding seal data_packet blank_packet
sealed_payload c chunk w = take-append_all chunk _ (length chunk) refl

module _ (fl : Floats) (c : Conn) (chunk : List ℕ) (w : World) (mw : MallocWorks w) where
  abbrev sent : Step
  sent = transmit fl c chunk w

  works : is_neg (reply malloc sent.world).ret ≡ false
  works =
      ap (λ f. is_neg (f sent.world.tick malloc).ret) (transmit-script fl c chunk w)
      ∙ mw sent.world.tick

  send_chunk-Chunk : Chunk c chunk w (send_chunk fl c chunk w)
  unfolding send_chunk
  send_chunk-Chunk = elim (Bool-cases (is_neg sent.value)) [
    | inl e ↦ rw e (record {
      script = transmit-script fl c chunk w;
      advanced = ground (arith, transmit-Accounts fl c chunk w);
      kept = inl (e, ground (arith, transmit-Accounts fl c chunk w));
    })
    | inr e ↦ rw e (record {
      script = ground (arith, transmit-script fl c chunk w, stored);
      advanced = ground (arith, transmit-Accounts fl c chunk w, stored);
      kept = inr (
        entry (seal (chunk_packet c chunk w)) sent.world,
        rw (stored.0),
        ground (arith, transmit-Accounts fl c chunk w, stored),
        sealed_sequence c chunk w,
        sealed_payload c chunk w,
      );
    })
  ]
    where
      stored :
          let s = remember sent.conn (seal (chunk_packet c chunk w)) sent.world in
          (s.value ≡ pos 0)
          × (s.world.script ≡ sent.world.script)
          × (s.conn ≡ record sent.conn {
            send_buffer = entry (seal (chunk_packet c chunk w)) sent.world ∷ sent.conn.send_buffer;
          })
      stored = remember_lem sent.conn (seal (chunk_packet c chunk w)) sent.world works

-- What the loop has done from `sent` bytes on, with `rest` still to send: `k` more bytes.
pub record Sent (c : Conn) (sent : ℕ) (rest : List ℕ) (s : Step) : Type 0 where
  pub k : ℕ
  pub entries : List SendEntry
  pub value : s.value ≡ int_of_bits (sent + k)
  pub within : k ≤ length rest
  pub buffer : s.conn.send_buffer ≡ entries ++ c.send_buffer
  pub bytes : stream entries ≡ take k rest
  pub numbered : Numbered c.send_sequence entries

Sent-nothing :
    (c d : Conn) (sent : ℕ) (rest : List ℕ) (w : World)
    → d.send_buffer ≡ c.send_buffer
    → Sent c sent rest (record { value = int_of_bits sent; conn = d; world = w })
Sent-nothing c d sent rest w e = record {
  k = 0;
  entries = [];
  value = ap int_of_bits (omega arith);
  within = omega arith;
  buffer = e;
  bytes = refl;
  numbered = tt;
}

-- A kept chunk in front of what the later rounds do.
Sent-cons :
    (c d : Conn) (e : SendEntry) (sent : ℕ) (rest : List ℕ) (s : Step)
    → c.send_sequence < 2 ^ 32
    → d.send_sequence ≡ (c.send_sequence + 1) % 2 ^ 32
    → d.send_buffer ≡ e ∷ c.send_buffer
    → e.packet.header.sequence ≡ c.send_sequence
    → payload_of e ≡ take ht_max_payload_size rest
    → Sent d (sent + length (take ht_max_payload_size rest)) (drop ht_max_payload_size rest) s
    → Sent c sent rest s
Sent-cons c d e start rest s small next kept seq same v = record {
  k = length (take n rest) + v.k;
  entries = v.entries ++ e ∷ [];
  value = v.value ∙ ap int_of_bits (omega arith);
  within = omega (arith, v.within, length-take {0} n rest, length-drop {0} n rest);
  buffer =
      v.buffer ∙ ap (◌++◌ v.entries) kept ∙ sym (append_assoc v.entries (e ∷ []) c.send_buffer);
  bytes = stream-snoc v.entries e ∙ ap₂ ◌++◌ same v.bytes ∙ take-append-take n v.k rest;
  numbered =
      Numbered-snoc c.send_sequence v.entries e seq small
        (subst (λ m. Numbered m v.entries) next v.numbered);
}
  where
    n : ℕ
    n = ht_max_payload_size

module _ (fl : Floats) where
  send_loop-Sent :
      (fuel sent : ℕ) (rest : List ℕ) (c : Conn) (w : World)
      → MallocWorks w
      → c.send_sequence < 2 ^ 32
      → Sent c sent rest (send_loop fl fuel sent rest c w)
  unfolding send_loop
  send_loop-Sent zero n rest c w mw small = Sent-nothing c c n rest w refl
  send_loop-Sent (suc fuel) n rest c w mw small = elim (Bool-cases (length rest == 0)) [
    | inl e ↦ rw e (Sent-nothing c c n rest w refl)
    | inr e ↦ elim round.kept [
      | inl h ↦ rw (e, h.0) (Sent-nothing c s.conn n rest s.world h.1)
      | inr h ↦
          rw (e, h.1)
            (Sent-cons c s.conn h.0 n rest _ small round.advanced h.2 h.3 h.4 (
              send_loop-Sent fuel (n + length chunk) (drop ht_max_payload_size rest) s.conn s.world
                (subst (λ f. (m : ℕ) → is_neg (f m malloc).ret ≡ false) (sym round.script) mw)
                (omega (arith, round.advanced))))
    ]
  ]
    where
      chunk : List ℕ
      chunk = take ht_max_payload_size rest

      s : Step
      s = send_chunk fl c chunk w

      round : Chunk c chunk w s
      round = send_chunk-Chunk fl c chunk w mw

-- The guard of `ht_send_data` passes.
pub send_data-eq-loop :
    (fl : Floats) (c : Conn) (bytes : List ℕ) (w : World)
    → c.is_connected ≡ true
    → 0 < length bytes
    → ht_send_data fl c bytes w ≡ send_loop fl (length bytes) 0 bytes c w
unfolding ht_send_data
send_data-eq-loop fl c bytes w open_conn some = ground arith

-- With `malloc` working, on an open connection and for data that is not empty, `ht_send_data`
-- returns, as an `int`, a number `k` of at most the size of the data, and has put in front of the send buffer
-- entries whose payloads, oldest first, are the first `k` bytes of the data, and whose sequence
-- numbers count on from the connection's modulo 2^32.
pub send_data_stream :
    (fl : Floats) (c : Conn) (bytes : List ℕ) (w : World)
    → MallocWorks w
    → c.send_sequence < 2 ^ 32
    → c.is_connected ≡ true
    → 0 < length bytes
    → (k : ℕ) × (entries : List SendEntry) × ((ht_send_data fl c bytes w).value ≡ int_of_bits k)
      × (k ≤ length bytes)
      × ((ht_send_data fl c bytes w).conn.send_buffer ≡ entries ++ c.send_buffer)
      × (stream entries ≡ take k bytes)
      × Numbered c.send_sequence entries
send_data_stream fl c bytes w mw small open_conn some =
    rw (send_data-eq-loop fl c bytes w open_conn some) (
      v.k,
      v.entries,
      v.value ∙ ap int_of_bits (omega arith),
      v.within,
      v.buffer,
      v.bytes,
      v.numbered,
    )
  where
    v : Sent c 0 bytes (send_loop fl (length bytes) 0 bytes c w)
    v = send_loop-Sent fl (length bytes) 0 bytes c w mw small
