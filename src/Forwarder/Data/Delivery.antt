-- ===== src/Forwarder/Data/Delivery.antt =====
-- What `forward_data` passes on, as the kernel has taken it.
use remote_trans.Base.{
  ℕ, zero, suc, ◌≡◌, refl, sym, ap, ◌∙◌, subst, Bool, true, false, not, Option, none, some, List,
  [], ◌∷◌, ℤ, pos, pos_part, arith, is_neg, is_pos, take, drop, append-nil, Bool-cases, inl, inr,
  ◌==◌,
}
use remote_trans.World.{World, Reply, reply, after, malloc, time, usleep, send, recv, would_block}
use remote_trans.Forwarder.Types.{ConnState, Pair, Config, Served, connected, active}
use remote_trans.Forwarder.State.{same_state, set_connection_state}
use remote_trans.Forwarder.Data.{
  Written, write_all, account_forwarded, peer_closed, count_bytes, forward_data,
}
use remote_trans.Forwarder.Data.Passed.{
  Passed, Passed-nothing, Passed-call, Passed-then, Passed-quietly, Passed-part, Passed-again,
}

set_connection_state-Passed :
    (fd : ℤ) (p : Pair) (s : ConnState) (reason : Option (List ℕ)) (w : World)
    → Passed fd w (set_connection_state p s reason w).1 []
unfolding set_connection_state
set_connection_state-Passed fd p s reason w = elim (Bool-cases (same_state p.state s)) [
  | inl e ↦ rw e (Passed-nothing fd w)
  | inr e ↦ rw e (Passed-call fd time w)
]

-- A loop that ends well has had all its bytes taken, and has not touched the pair.
write_all-Passed :
    (fuel : ℕ) (fd : ℤ) (client : Bool) (reason rest : List ℕ) (p : Pair) (w : World) {a : Written}
    → write_all fuel fd client reason rest p w ≡ some a
    → a.ok ≡ true
    → Passed fd w a.world rest × (a.pair ≡ p)
unfolding write_all
write_all-Passed zero fd client reason rest p w h k = cc
write_all-Passed (suc fuel) fd client reason [] p w {a} h k =
    subst (λ (x : Written). Passed fd w x.world [] × (x.pair ≡ p)) ended (Passed-nothing fd w, refl)
  where
    ended : record { ok = true; pair = p; world = w } ≡ a
    ended = ground (arith, h)
write_all-Passed (suc fuel) fd client reason (b ∷ bs) p w {a} h k =
    elim (Bool-cases (is_neg r.ret)) [
      | inl e ↦ elim (Bool-cases (would_block w1.errno)) [
        | inl f ↦
            let v =
              write_all-Passed fuel fd client reason (b ∷ bs) p (after (usleep 1000) w1) {a = a}
                (again e f) k in
            (Passed-again fd (b ∷ bs) w a.world e v.0, v.1)
        | inr f ↦ ground (arith, h, k, e, f)
      ]
      | inr e ↦ elim (Bool-cases (pos_part r.ret == 0)) [
        | inl f ↦ ground (arith, h, k, e, f)
        | inr f ↦
            let v =
              write_all-Passed fuel fd client reason (drop (pos_part r.ret) (b ∷ bs)) p w1 {a = a}
                (more e f) k in
            (Passed-part fd (b ∷ bs) w a.world v.0, v.1)
      ]
    ]
  where
    r : Reply
    r = reply (send fd (b ∷ bs)) w

    w1 : World
    w1 = after (send fd (b ∷ bs)) w

    again :
        is_neg r.ret ≡ true
        → would_block w1.errno ≡ true
        → write_all fuel fd client reason (b ∷ bs) p (after (usleep 1000) w1) ≡ some a
    again e f = ground (arith, h, e, f)

    more :
        is_neg r.ret ≡ false
        → (pos_part r.ret == 0) ≡ false
        → write_all fuel fd client reason (drop (pos_part r.ret) (b ∷ bs)) p w1 ≡ some a
    more e f = ground (arith, h, e, f)

-- What a positive result of `forward_data` comes from.
record Forwarded (fuel : ℕ) (to_fd : ℤ) (dir : Bool) (reason : List ℕ) (p : Pair) (r : Reply)
    (w : World) (s : Served) : Type 0 where
  written : Written
  loop : write_all fuel to_fd (not dir) reason (take (pos_part r.ret) r.bytes) p w ≡ some written
  ended : written.ok ≡ true
  result : account_forwarded dir (pos_part r.ret) written.pair written.world ≡ s

value-peer_closed :
    (cfg : Config) (dir : Bool) (p : Pair) (w : World)
    → is_pos (peer_closed cfg dir p w).value ≡ false
unfolding peer_closed
value-peer_closed cfg dir p w = ground arith

module _ (fuel : ℕ) (cfg : Config) (from_fd to_fd : ℤ) (dir : Bool) (reason : List ℕ) (p : Pair)
    (w : World) where
  abbrev pub read : Reply
  read = reply (recv from_fd) (after malloc w)

  abbrev pub at_read : World
  at_read = after (recv from_fd) (after malloc w)

  forward_data-Forwarded :
      (m : Option Written) {s : Served}
      → write_all fuel to_fd (not dir) reason (take (pos_part read.ret) read.bytes) p at_read ≡ m
      → forward_data fuel cfg from_fd to_fd dir reason p w ≡ some s
      → is_pos s.value ≡ true
      → Forwarded fuel to_fd dir reason p read at_read s
  unfolding forward_data
  forward_data-Forwarded none e h k = ground (arith, e, h, k, value-peer_closed cfg dir p at_read)
  forward_data-Forwarded (some a) {s} e h k = record {
    written = a;
    loop = e;
    ended = ground (arith, e, h, k, value-peer_closed cfg dir p at_read);
    result = ground (arith, e, h, k, value-peer_closed cfg dir p at_read);
  }

-- The counters after `n` bytes in one direction, and nothing more to write.
record Accounted (fd : ℤ) (dir : Bool) (n : ℕ) (p : Pair) (w : World) (s : Served) : Type 0 where
  value : s.value ≡ pos n
  sent : s.pair.bytes_sent ≡ (count_bytes dir n p).bytes_sent
  received : s.pair.bytes_received ≡ (count_bytes dir n p).bytes_received
  passed : Passed fd w s.world []

set_active-counters :
    (p : Pair) (w : World)
    → let q = (set_connection_state p active none w).0 in
      (q.bytes_sent ≡ p.bytes_sent) × (q.bytes_received ≡ p.bytes_received)
unfolding set_connection_state
set_active-counters p w = ground arith

account_forwarded-Accounted :
    (fd : ℤ) (dir : Bool) (n : ℕ) (p : Pair) (w : World)
    → Accounted fd dir n p w (account_forwarded dir n p w)
unfolding account_forwarded
account_forwarded-Accounted fd dir n p w = elim (Bool-cases (same_state q.state connected)) [
  | inl e ↦ rw e (record {
    value = refl;
    sent = (set_active-counters q (after time w)).0;
    received = (set_active-counters q (after time w)).1;
    passed =
        Passed-quietly fd w _ time [] (set_connection_state-Passed fd q active none (after time w))
          refl;
  })
  | inr e ↦
      rw e (record { value = refl; sent = refl; received = refl; passed = Passed-call fd time w })
]
  where
    q : Pair
    q = record (count_bytes dir n p) { last_activity = (reply time w).time.sec }

-- When `forward_data` returns a positive number, that is the number which `recv` has returned; in
-- all its calls of `send` together the kernel has taken, for `to_fd`, exactly the bytes read, each
-- once and in their order; and the pair's counter for the direction has grown by that number modulo
-- 2^64, the other counter not at all.
pub forward_data_delivers :
    (fuel : ℕ) (cfg : Config) (from_fd to_fd : ℤ) (dir : Bool) (reason : List ℕ) (p : Pair)
    (w : World) {s : Served}
    → forward_data fuel cfg from_fd to_fd dir reason p w ≡ some s
    → is_pos s.value ≡ true
    → let r = reply (recv from_fd) (after malloc w) in
      (s.value ≡ pos (pos_part r.ret))
      × Passed to_fd w s.world (take (pos_part r.ret) r.bytes)
      × (s.pair.bytes_sent ≡ (count_bytes dir (pos_part r.ret) p).bytes_sent)
      × (s.pair.bytes_received ≡ (count_bytes dir (pos_part r.ret) p).bytes_received)
forward_data_delivers fuel cfg from_fd to_fd dir reason p w {s} h k = (
  sym (ap (λ (x : Served). x.value) f.result) ∙ acc.value,
  subst (λ (x : Served). Passed to_fd w x.world (take n r.bytes)) f.result whole,
  ap (λ (x : Served). x.pair.bytes_sent) (sym f.result)
      ∙ acc.sent
      ∙ ap (λ q. (count_bytes dir n q).bytes_sent) done.1,
  ap (λ (x : Served). x.pair.bytes_received) (sym f.result)
      ∙ acc.received
      ∙ ap (λ q. (count_bytes dir n q).bytes_received) done.1,
)
  where
    r : Reply
    r = reply (recv from_fd) (after malloc w)

    n : ℕ
    n = pos_part r.ret

    start : World
    start = after (recv from_fd) (after malloc w)

    f : Forwarded fuel to_fd dir reason p r start s
    f = forward_data-Forwarded fuel cfg from_fd to_fd dir reason p w _ refl h k

    done : Passed to_fd start f.written.world (take n r.bytes) × (f.written.pair ≡ p)
    done =
        write_all-Passed fuel to_fd (not dir) reason (take n r.bytes) p start {a = f.written} f.loop
          f.ended

    acc :
        Accounted to_fd dir n f.written.pair f.written.world
          (account_forwarded dir n f.written.pair f.written.world)
    acc = account_forwarded-Accounted to_fd dir n f.written.pair f.written.world

    bytes : List ℕ
    bytes = take n r.bytes

    written :
        Passed to_fd start (account_forwarded dir n f.written.pair f.written.world).world bytes
    written =
        subst (Passed to_fd start _) (append-nil bytes)
          (Passed-then to_fd start f.written.world _ bytes [] done.0 acc.passed)

    whole : Passed to_fd w (account_forwarded dir n f.written.pair f.written.world).world bytes
    whole =
        Passed-quietly to_fd w _ malloc bytes
          (Passed-quietly to_fd (after malloc w) _ (recv from_fd) bytes written refl) refl
