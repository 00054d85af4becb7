-- ===== src/Forwarder/Reconnect/Attempts.antt =====
-- What becomes of a pair in `try_reconnect_target`, in the mode TCP only.
use remote_trans.Base.{
  ℕ, ◌+◌, ◌≡◌, inl, inr, subst, sym, true, false, not, ◌&&◌, ◌||◌, List, ℤ, pos, minus_one, is_neg,
  is_pos, arith, Bool, Bool-cases, ltb_ℤ, if◌then◌else◌, ◌+ℤ◌,
}
use remote_trans.World.{World, after, socket_stream, inet_pton, connect}
use remote_trans.Transport.Types.{tcp_only}
use remote_trans.Forwarder.Types.{Pair, Config, Served}
use remote_trans.Forwarder.Reconnect.{
  served, connect_to_target, has_hybrid, reconnect_tcp, reconnect, try_reconnect_target,
}

-- What the system answers to the three calls that lead to the target.
abbrev socket_of : World → ℤ
socket_of w = (w.script w.tick socket_stream).ret

-- The target is reached: there is a socket, its address is valid, and `connect` succeeds.
abbrev pub reached : List ℕ → World → Bool
reached ip w =
    not (is_neg (socket_of w))
    && (is_pos (w.script (w.tick + 1) (inet_pton ip)).ret
        && not (is_neg (w.script (w.tick + 2) (connect (socket_of w))).ret))

-- The pair waits for its target: the client has gone, and attempts are left.
abbrev pub wants_target : Config → Pair → Bool
wants_target cfg p = p.client_disconnected && ltb_ℤ p.reconnect_attempts cfg.max_reconnect_attempts

abbrev pub keeps_target : Pair → Bool
keeps_target p = p.target_ready && (is_pos p.target_fd || has_hybrid p)

abbrev pub counted : Pair → Pair
counted p = record p { reconnect_attempts = p.reconnect_attempts +ℤ pos 1 }

-- From the pair `p` and the system `w` to the result `s`.
pub data Attempt (cfg : Config) (p : Pair) (w : World) (s : Served) : Type 0 where
  refused : wants_target cfg p ≡ false → s ≡ served minus_one p w → Attempt cfg p w s
  kept :
      wants_target cfg p ≡ true
      → keeps_target p ≡ true
      → s ≡ served (pos 0) (counted p) w
      → Attempt cfg p w s
  linked :
      wants_target cfg p ≡ true
      → keeps_target p ≡ false
      → reached cfg.target_ip w ≡ true
      → s.value ≡ pos 0
      → s.pair ≡ record (counted p) { target_fd = socket_of w; target_ready = true }
      → Attempt cfg p w s
  failed :
      wants_target cfg p ≡ true
      → keeps_target p ≡ false
      → reached cfg.target_ip w ≡ false
      → s.value ≡ minus_one
      → s.pair ≡ counted p
      → Attempt cfg p w s

connect_to_target-reached :
    (ip : List ℕ) (w : World)
    → (connect_to_target ip w).0 ≡ (if reached ip w then socket_of w else minus_one)
unfolding connect_to_target after
connect_to_target-reached ip w = ground arith

reconnect_tcp-reached :
    (cfg : Config) (p : Pair) (w : World)
    → let s = reconnect_tcp cfg p w in
      (s.value ≡ (if reached cfg.target_ip w then pos 0 else minus_one))
      × (s.pair ≡ (
          if reached cfg.target_ip w
          then record p { target_fd = socket_of w; target_ready = true }
          else p))
unfolding reconnect_tcp
reconnect_tcp-reached cfg p w = ground (arith, connect_to_target-reached cfg.target_ip w)

reconnect-plain :
    (cfg : Config) (p : Pair) (w : World)
    → cfg.transport_mode ≡ tcp_only
    → reconnect cfg p w ≡ reconnect_tcp cfg p w
unfolding reconnect
reconnect-plain cfg p w e = ground (arith, e)

module _ (cfg : Config) (p : Pair) (w : World) (m : cfg.transport_mode ≡ tcp_only) where
  attempted :
      wants_target cfg p ≡ true
      → keeps_target p ≡ false
      → Attempt cfg p w (reconnect cfg (counted p) w)
  attempted e k = elim (Bool-cases (reached cfg.target_ip w)) [
    | inl r ↦ linked e k r (ground (arith, tcp, r, plain)) (ground (arith, tcp, r, plain))
    | inr r ↦ failed e k r (ground (arith, tcp, r, plain)) (ground (arith, tcp, r, plain))
  ]
    where
      plain : reconnect cfg (counted p) w ≡ reconnect_tcp cfg (counted p) w
      plain = reconnect-plain cfg (counted p) w m

      tcp :
          let s = reconnect_tcp cfg (counted p) w in
          (s.value ≡ (if reached cfg.target_ip w then pos 0 else minus_one))
          × (s.pair ≡ (
              if reached cfg.target_ip w
              then record (counted p) { target_fd = socket_of w; target_ready = true }
              else counted p))
      tcp = reconnect_tcp-reached cfg (counted p) w

  refuses : wants_target cfg p ≡ false → try_reconnect_target cfg p w ≡ served minus_one p w
  unfolding try_reconnect_target
  refuses e = ground (arith, e)

  keeps :
      wants_target cfg p ≡ true
      → keeps_target p ≡ true
      → try_reconnect_target cfg p w ≡ served (pos 0) (counted p) w
  unfolding try_reconnect_target
  keeps e k = ground (arith, e, k)

  tries :
      wants_target cfg p ≡ true
      → keeps_target p ≡ false
      → try_reconnect_target cfg p w ≡ reconnect cfg (counted p) w
  unfolding try_reconnect_target
  tries e k = ground (arith, e, k)

  -- In the mode TCP only, `try_reconnect_target` has four ends. While the client is there, or with no
  -- attempt left, it returns -1 and does nothing. Otherwise the attempt is counted, and: a target that
  -- is ready and still there is kept, and it returns 0; or the system gives a socket, a valid address
  -- and a `connect` that succeeds, and it returns 0 with the pair ready on that very socket; or one of
  -- the three calls fails, and it returns -1 with nothing else of the pair changed.
  pub try_reconnect_target-Attempt : Attempt cfg p w (try_reconnect_target cfg p w)
  try_reconnect_target-Attempt = elim (Bool-cases (wants_target cfg p)) [
    | inl e ↦ elim (Bool-cases (keeps_target p)) [
      | inl k ↦ kept e k (keeps e k)
      | inr k ↦ subst (Attempt cfg p w) (sym (tries e k)) (attempted e k)
    ]
    | inr e ↦ refused e (refuses e)
  ]
