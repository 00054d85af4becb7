-- ===== src/Forwarder/Data/Passed.antt =====
-- The bytes that the kernel has taken over a list of calls.
use remote_trans.Base.{
  ℕ, ◌+◌, ◌≡◌, refl, sym, ap, ap₂, ◌∙◌, subst, true, List, [], ◌∷◌, ◌++◌, ℤ, pos, negsuc, pos_part,
  arith, is_neg, eqb_ℤ, if◌then◌else◌, length, take, drop, take-append-drop, append-nil,
  append_assoc, length-append,
}
use remote_trans.World.{World, Call, Reply, reply, after, usleep, send}

-- The bytes that the descriptor `fd` takes when a call is answered.
abbrev pub accepted : ℤ → Call → Reply → List ℕ
accepted fd (send to bs) r = if eqb_ℤ to fd then take (pos_part r.ret) bs else []
accepted fd c r = []

-- The bytes that the calls of a list, newest first, have had taken by the kernel, when the oldest of
-- them was answered as call number `t`.
abbrev pub taken : (ℕ → Call → Reply) → ℤ → ℕ → List Call → List ℕ
taken f fd t [] = []
taken f fd t (c ∷ cs) = taken f fd t cs ++ accepted fd c (f (t + length cs) c)

-- From `w` to `u`, the calls made have had exactly `bs` taken for `fd`.
pub record Passed (fd : ℤ) (w u : World) (bs : List ℕ) : Type 0 where
  pub made : List Call
  pub calls : u.calls ≡ made ++ w.calls
  pub script : u.script ≡ w.script
  pub tick : u.tick ≡ w.tick + length made
  pub bytes : taken w.script fd w.tick made ≡ bs

taken-append :
    (f : ℕ → Call → Reply) (fd : ℤ) (t : ℕ) (new old : List Call)
    → taken f fd t (new ++ old) ≡ taken f fd t old ++ taken f fd (t + length old) new
taken-append f fd t [] old = sym (append-nil (taken f fd t old))
taken-append f fd t (c ∷ new) old =
    ap₂ ◌++◌ (taken-append f fd t new old)
      (ap (λ n. accepted fd c (f n c)) (omega (arith, length-append {0} new old)))
    ∙ append_assoc (taken f fd t old) (taken f fd (t + length old) new) _

pub Passed-nothing : (fd : ℤ) (w : World) → Passed fd w w []
Passed-nothing fd w = record {
  made = [];
  calls = refl;
  script = refl;
  tick = omega arith;
  bytes = refl;
}

pub Passed-call :
    (fd : ℤ) (c : Call) (w : World) → Passed fd w (after c w) (accepted fd c (reply c w))
unfolding after
Passed-call fd c w = record {
  made = c ∷ [];
  calls = refl;
  script = refl;
  tick = refl;
  bytes = ap (λ n. accepted fd c (w.script n c)) (omega arith);
}

pub Passed-then :
    (fd : ℤ) (w u v : World) (xs ys : List ℕ)
    → Passed fd w u xs
    → Passed fd u v ys
    → Passed fd w v (xs ++ ys)
Passed-then fd w u v xs ys p q = record {
  made = q.made ++ p.made;
  calls = q.calls ∙ ap (◌++◌ q.made) p.calls ∙ sym (append_assoc q.made p.made w.calls);
  script = q.script ∙ p.script;
  tick = omega (arith, p.tick, q.tick, length-append {0} q.made p.made);
  bytes =
      taken-append w.script fd w.tick q.made p.made
      ∙ ap₂ ◌++◌ p.bytes (
          ap (λ n. taken w.script fd n q.made) (sym p.tick)
          ∙ ap (λ f. taken f fd u.tick q.made) (sym p.script)
          ∙ q.bytes);
}

pub Passed-quietly :
    (fd : ℤ) (w u : World) (c : Call) (bs : List ℕ)
    → Passed fd (after c w) u bs
    → accepted fd c (reply c w) ≡ []
    → Passed fd w u bs
Passed-quietly fd w u c bs v h =
    subst (λ xs. Passed fd w u (xs ++ bs)) h
      (Passed-then fd w (after c w) u _ bs (Passed-call fd c w) v)

eqb_ℤ-self : (z : ℤ) → eqb_ℤ z z ≡ true
eqb_ℤ-self (pos n) = ground arith
eqb_ℤ-self (negsuc n) = ground arith

-- What one `send` to `fd` has taken.
accepted-send :
    (fd : ℤ) (bs : List ℕ) (r : Reply) → accepted fd (send fd bs) r ≡ take (pos_part r.ret) bs
accepted-send fd bs r = rw (eqb_ℤ-self fd) refl

pos_part-neg : (z : ℤ) → is_neg z ≡ true → pos_part z ≡ 0
pos_part-neg (pos n) h = cc
pos_part-neg (negsuc n) h = refl

-- One more round in front: a part of the bytes is taken, or none while the socket is full.
module _ (fd : ℤ) (bs : List ℕ) (w u : World) where
  abbrev answered : Reply
  answered = reply (send fd bs) w

  pub Passed-part :
      Passed fd (after (send fd bs) w) u (drop (pos_part answered.ret) bs) → Passed fd w u bs
  Passed-part v =
      subst (Passed fd w u)
        (ap (λ xs. xs ++ drop (pos_part answered.ret) bs) (accepted-send fd bs answered)
          ∙ take-append-drop (pos_part answered.ret) bs)
        (Passed-then fd w (after (send fd bs) w) u _ _ (Passed-call fd (send fd bs) w) v)

  pub Passed-again :
      is_neg answered.ret ≡ true
      → Passed fd (after (usleep 1000) (after (send fd bs) w)) u bs
      → Passed fd w u bs
  Passed-again h v =
      Passed-quietly fd w u (send fd bs) bs
        (Passed-quietly fd (after (send fd bs) w) u (usleep 1000) bs v refl)
        (accepted-send fd bs answered ∙ ap (λ n. take n bs) (pos_part-neg answered.ret h))
