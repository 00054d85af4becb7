-- ===== src/Transport/Send/Completion.antt =====
-- How much `ht_send_data` accepts while sending works.
use remote_trans.Base.{
  ℕ, zero, suc, ◌+◌, ◌≤◌, ◌<◌, ◌≡◌, ◌⊎◌, inl, inr, ap, ◌∙◌, Bool, true, false, List, ℤ, pos, arith,
  is_neg, length, take, length-take, length-drop, Bool-cases, ◌==◌, ◌^◌, int_of_bits,
  int_of_bits-small,
}
use remote_trans.Floats.{Floats}
use remote_trans.World.{World, send, sendto, gettimeofday, after}
use remote_trans.Transport.Types.{Packet, Conn, Step, ht_max_payload_size}
use remote_trans.Transport.Wire.{wire_bytes, seal}
use remote_trans.Transport.Send.{
  account_sent, ht_should_use_tcp, ht_send_packet, send_either, remember, next_sequence, transmit,
  chunk_packet, send_chunk, send_loop, ht_send_data,
}
use remote_trans.Transport.Send.Frame.{send_packet-Keeps, send_either-Keeps}
use remote_trans.Transport.Send.Stream.{send_data-eq-loop}

-- No call of `send` or `sendto` fails.
pub record SendsWork (w : World) : Type 0 where
  pub by_tcp : (n : ℕ) (fd : ℤ) (bs : List ℕ) → is_neg (w.script n (send fd bs)).ret ≡ false
  pub by_udp : (n : ℕ) (fd : ℤ) (bs : List ℕ) → is_neg (w.script n (sendto fd bs)).ret ≡ false

-- One of the two descriptors is open.
abbrev pub HasChannel : Conn → Type 0
HasChannel c = (is_neg c.tcp_fd ≡ false) ⊎ (is_neg c.udp_fd ≡ false)

value-account_sent : (c : Conn) (n : ℤ) (w : World) → (account_sent c n w).value ≡ n
unfolding account_sent
value-account_sent c n w = ground arith

send_packet-tcp :
    (c : Conn) (p : Packet) (w : World)
    → SendsWork w
    → is_neg (ht_send_packet c p true w).value ≡ is_neg c.tcp_fd
unfolding ht_send_packet account_sent
send_packet-tcp c p w v = ground (arith, v.by_tcp w.tick c.tcp_fd (wire_bytes (seal p)))

send_packet-udp :
    (c : Conn) (p : Packet) (w : World)
    → SendsWork w
    → is_neg (ht_send_packet c p false w).value ≡ is_neg c.udp_fd
unfolding ht_send_packet account_sent
send_packet-udp c p w v = ground (arith, v.by_udp w.tick c.udp_fd (wire_bytes (seal p)))

SendsWork-script : (w u : World) → u.script ≡ w.script → SendsWork w → SendsWork u
SendsWork-script w u e v = record {
  by_tcp = λ n fd bs. ap (λ f. is_neg (f n (send fd bs)).ret) e ∙ v.by_tcp n fd bs;
  by_udp = λ n fd bs. ap (λ f. is_neg (f n (sendto fd bs)).ret) e ∙ v.by_udp n fd bs;
}

send_either-succeeds :
    (c : Conn) (p : Packet) (tcp : Bool) (w : World)
    → SendsWork w
    → HasChannel c
    → is_neg (send_either c p tcp w).value ≡ false
unfolding send_either
send_either-succeeds c p true w v h = ground (
  arith,
  send_packet-tcp c p w v,
  send_packet-Keeps c p true w,
  send_packet-udp (ht_send_packet c p true w).conn (seal p) (ht_send_packet c p true w).world
      (SendsWork-script w _ (send_packet-Keeps c p true w).script v),
)
send_either-succeeds c p false w v h = ground (
  arith,
  send_packet-udp c p w v,
  send_packet-Keeps c p false w,
  send_packet-tcp (ht_send_packet c p false w).conn (seal p) (ht_send_packet c p false w).world
      (SendsWork-script w _ (send_packet-Keeps c p false w).script v),
)

-- The descriptors after a round are those before it.
abbrev pub SameChannels : Conn → Conn → Type 0
SameChannels c d = (d.tcp_fd ≡ c.tcp_fd) × (d.udp_fd ≡ c.udp_fd)

remember-keeps :
    (c : Conn) (p : Packet) (w : World)
    → (is_neg (remember c p w).value ≡ false)
      × ((remember c p w).world.script ≡ w.script)
      × SameChannels c (remember c p w).conn
unfolding remember after
remember-keeps c p w = ground arith

module _ (fl : Floats) (c : Conn) (chunk : List ℕ) (w : World) (v : SendsWork w)
    (h : HasChannel c) where
  abbrev chosen : World
  chosen = (ht_should_use_tcp fl c (after gettimeofday w)).1

  chosen-script : chosen.script ≡ w.script
  unfolding ht_should_use_tcp after
  chosen-script = ground arith

  transmit-succeeds :
      (is_neg (transmit fl c chunk w).value ≡ false)
      × ((transmit fl c chunk w).world.script ≡ w.script)
      × SameChannels c (transmit fl c chunk w).conn
  unfolding transmit
  transmit-succeeds = ground (
    arith,
    chosen-script,
    send_either-succeeds (next_sequence c) (chunk_packet c chunk w)
        (ht_should_use_tcp fl c (after gettimeofday w)).0 chosen
        (SendsWork-script w chosen chosen-script v) h,
    send_either-Keeps (next_sequence c) (chunk_packet c chunk w)
        (ht_should_use_tcp fl c (after gettimeofday w)).0 chosen,
  )

  send_chunk-succeeds :
      (is_neg (send_chunk fl c chunk w).value ≡ false)
      × ((send_chunk fl c chunk w).world.script ≡ w.script)
      × SameChannels c (send_chunk fl c chunk w).conn
  unfolding send_chunk
  send_chunk-succeeds = ground (
    arith,
    transmit-succeeds,
    remember-keeps (transmit fl c chunk w).conn (seal (chunk_packet c chunk w))
        (transmit fl c chunk w).world,
  )

module _ (fl : Floats) where
  send_loop-total :
      (fuel n : ℕ) (rest : List ℕ) (c : Conn) (w : World)
      → SendsWork w
      → HasChannel c
      → length rest ≤ fuel
      → (send_loop fl fuel n rest c w).value ≡ int_of_bits (n + length rest)
  unfolding send_loop
  send_loop-total zero n rest c w v h enough = ap int_of_bits (omega arith)
  send_loop-total (suc fuel) n rest c w v h enough = elim (Bool-cases (length rest == 0)) [
    | inl e ↦ rw e (ap int_of_bits (ground arith))
    | inr e ↦
        rw (e, round.0)
          (send_loop-total fuel _ _ s.conn s.world (SendsWork-script w s.world round.1 v) channel
              (ground (arith, length-drop ht_max_payload_size rest))
            ∙ ap int_of_bits (
                omega (
                  arith,
                  length-take {0} ht_max_payload_size rest,
                  length-drop {0} ht_max_payload_size rest,
                )))
  ]
    where
      chunk : List ℕ
      chunk = take ht_max_payload_size rest

      s : Step
      s = send_chunk fl c chunk w

      round : (is_neg s.value ≡ false) × (s.world.script ≡ w.script) × SameChannels c s.conn
      round = send_chunk-succeeds fl c chunk w v h

      channel : HasChannel s.conn
      channel = ground (arith, round)

-- If no call of `send` or `sendto` fails, `ht_send_data` on an open connection with at least one
-- open descriptor returns the size of its data, whatever channel is chosen for each packet. (The data
-- is not empty and has fewer than 2^31 bytes, so that its size is an `int`.)
pub send_data_complete :
    (fl : Floats) (c : Conn) (bytes : List ℕ) (w : World)
    → SendsWork w
    → HasChannel c
    → c.is_connected ≡ true
    → 0 < length bytes
    → length bytes < 2 ^ 31
    → (ht_send_data fl c bytes w).value ≡ pos (length bytes)
send_data_complete fl c bytes w v h open_conn some small =
    rw (send_data-eq-loop fl c bytes w open_conn some) (
      send_loop-total fl (length bytes) 0 bytes c w v h (omega arith)
      ∙ ap int_of_bits (omega arith)
      ∙ int_of_bits-small (length bytes) small)
