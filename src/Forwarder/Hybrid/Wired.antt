-- ===== src/Forwarder/Hybrid/Wired.antt =====
-- A pair over `forward_data_hybrid`.
use remote_trans.Base.{
  ℕ, zero, suc, ◌+◌, ◌≡◌, refl, sym, ap, ◌⊎◌, inl, inr, Bool, true, false, none, some, List, [],
  ◌∷◌, ℤ, pos_part, arith, length, drop, Bool-cases, Option-cases, subst,
}
use remote_trans.Floats.{Floats}
use remote_trans.World.{World, reply, after, recv, send}
use remote_trans.Transport.Types.{Mode, Conn, Step}
use remote_trans.Transport.Recv.{ht_recv_data}
use remote_trans.Transport.Events.{ht_process_events}
use remote_trans.Transport.Timeout.{ht_handle_timeout}
use remote_trans.Forwarder.Types.{Pair, Served}
use remote_trans.Forwarder.Wiring.{Wiring, wiring, IsHybrid, is_some, IsWired, IsPair}
use remote_trans.Forwarder.Wiring.Frame.{log_connection_error-wiring}
use remote_trans.Forwarder.Hybrid.{
  Moved, client_to_hybrid, hybrid_to_client, hand_over, move_data, touch, put_back, settle,
  forward_over, forward_data_hybrid,
}
use remote_trans.Forwarder.Hybrid.Keeping.{forward_data_hybrid-IsHybrid}

client_to_hybrid-wiring :
    (fl : Floats) (reason : List ℕ) (c : Conn) (p : Pair) (w : World)
    → wiring (client_to_hybrid fl reason c p w).pair ≡ wiring p
unfolding client_to_hybrid
client_to_hybrid-wiring fl reason c p w =
    ground (arith, log_connection_error-wiring p reason true (after (recv p.client_fd) w))

hand_over-wiring :
    (fuel : ℕ) (reason : List ℕ) (sent : ℕ) (rest : List ℕ) (p : Pair) (w : World)
    → wiring (hand_over fuel reason sent rest p w).pair ≡ wiring p
unfolding hand_over
hand_over-wiring zero reason sent rest p w = refl
hand_over-wiring (suc fuel) reason sent [] p w = refl
hand_over-wiring (suc fuel) reason sent (b ∷ bs) p w =
    let r = reply (send p.client_fd (b ∷ bs)) w in
    let w1 = after (send p.client_fd (b ∷ bs)) w in
    ground (
      arith,
      log_connection_error-wiring p reason true w1,
      hand_over-wiring fuel reason (sent + pos_part r.ret) (drop (pos_part r.ret) (b ∷ bs)) p w1,
    )

hybrid_to_client-wiring :
    (reason : List ℕ) (c : Conn) (p : Pair) (w : World)
    → wiring (hybrid_to_client reason c p w).pair ≡ wiring p
unfolding hybrid_to_client
hybrid_to_client-wiring reason c p w =
    let bytes = (ht_recv_data c 8192).1 in
    ground (arith, hand_over-wiring (length bytes) reason 0 bytes p w)

move_data-wiring :
    (fl : Floats) (dir : Bool) (reason : List ℕ) (c : Conn) (p : Pair) (w : World)
    → wiring (move_data fl dir reason c p w).pair ≡ wiring p
unfolding move_data
move_data-wiring fl true reason c p w = client_to_hybrid-wiring fl reason c p w
move_data-wiring fl false reason c p w = hybrid_to_client-wiring reason c p w

-- Another connection in the same pair.
record Rewired (p q : Pair) : Type 0 where
  conn : Conn
  wired : wiring q ≡ record (wiring p) { ht_conn = some conn }

put_back-Rewired :
    (p : Pair) (v : ℤ) (q : Pair) (c : Conn) (w : World) {s : Served}
    → wiring q ≡ wiring p
    → put_back v q c w ≡ s
    → Rewired p s.pair
put_back-Rewired p v q c w {s} e h =
    subst (λ (x : Served). Rewired p x.pair) h
      (record { conn = c; wired = ap (λ (x : Wiring). record x { ht_conn = some c }) e })

settle-Rewired :
    (fuel : ℕ) (buf : List ℕ) (p : Pair) (m : Moved) {s : Served}
    → wiring m.pair ≡ wiring p
    → settle fuel buf m ≡ some s
    → Rewired p s.pair
unfolding settle
settle-Rewired fuel buf p m {s} e h = elim (Option-cases (ht_process_events fuel buf m.conn w)) [
  | inl f ↦ ground (arith, h, f)
  | inr found ↦
      put_back-Rewired p m.value (touch m.value m.pair m.world).0 _ _ {s = s} touched
        (done found.0 found.1)
]
  where
    w : World
    w = (touch m.value m.pair m.world).1

    touched : wiring (touch m.value m.pair m.world).0 ≡ wiring p
    touched = ground (arith, e)

    done :
        (r : Step)
        → ht_process_events fuel buf m.conn w ≡ some r
        → let t = ht_handle_timeout r.conn r.world in
          put_back m.value (touch m.value m.pair m.world).0 t.conn t.world ≡ s
    done r found = ground (arith, h, found)

forward_over-Rewired :
    (fl : Floats) (fuel : ℕ) (buf : List ℕ) (dir : Bool) (reason : List ℕ) (c : Conn) (p : Pair)
    (w : World) {s : Served}
    → forward_over fl fuel buf dir reason c p w ≡ some s
    → Rewired p s.pair
unfolding forward_over
forward_over-Rewired fl fuel buf dir reason c p w {s} h = elim (Bool-cases m.ended) [
  | inl e ↦ put_back-Rewired p m.value m.pair m.conn m.world {s = s} same (ground (arith, h, e))
  | inr e ↦ settle-Rewired fuel buf p m {s = s} same (ground (arith, h, e))
]
  where
    m : Moved
    m = move_data fl dir reason c p w

    same : wiring m.pair ≡ wiring p
    same = move_data-wiring fl dir reason c p w

-- Either the pair's connections are untouched, or it had a hybrid connection and has one still.
forward_data_hybrid-cases :
    (fl : Floats) (fuel : ℕ) (buf : List ℕ) (dir : Bool) (reason : List ℕ) (p : Pair) (w : World)
    {s : Served}
    → forward_data_hybrid fl fuel buf dir reason p w ≡ some s
    → (wiring s.pair ≡ wiring p) ⊎ ((is_some p.ht_conn ≡ true) × Rewired p s.pair)
unfolding forward_data_hybrid
forward_data_hybrid-cases fl fuel buf dir reason p w {s} h =
    split (Option-cases p.ht_conn) (Bool-cases p.use_hybrid_transport)
  where
    split :
        (p.ht_conn ≡ none) ⊎ ((c : Conn) × (p.ht_conn ≡ some c))
        → (p.use_hybrid_transport ≡ true) ⊎ (p.use_hybrid_transport ≡ false)
        → (wiring s.pair ≡ wiring p) ⊎ ((is_some p.ht_conn ≡ true) × Rewired p s.pair)
    split (inl e) u = inl (ground (arith, h, e))
    split (inr (c, e)) (inl u) = inr (
      ap is_some e,
      forward_over-Rewired fl fuel buf dir reason c p w {s = s} (ground (arith, h, e, u)),
    )
    split (inr (c, e)) (inr u) = inl (ground (arith, h, e, u))

-- When `forward_data_hybrid` returns, the pair is as well formed as it was.
pub forward_data_hybrid-IsPair :
    {m : Mode} (fl : Floats) (fuel : ℕ) (buf : List ℕ) (dir : Bool) (reason : List ℕ) (p : Pair)
    (w : World) {s : Served}
    → IsPair m p
    → forward_data_hybrid fl fuel buf dir reason p w ≡ some s
    → IsPair m s.pair
forward_data_hybrid-IsPair fl fuel buf dir reason p w {s} v h =
    elim (forward_data_hybrid-cases fl fuel buf dir reason p w h) [
      | inl e ↦ subst (IsWired _) (sym e) v
      | inr (e, r) ↦ subst (IsWired _) (sym r.wired) (record {
        plain = λ q. absurd (cc (e, v.plain q));
        hybrid = subst IsHybrid (ap (λ (x : Wiring). x.ht_conn) r.wired) kept;
        active = v.active;
        used = λ u. refl;
        alone = v.alone;
        free_fd = v.free_fd;
        free_conn = λ g t. absurd (cc (e, v.free_conn g t));
      })
    ]
  where
    kept : IsHybrid s.pair.ht_conn
    kept = forward_data_hybrid-IsHybrid fl fuel buf dir reason p w v.hybrid h
