-- ===== src/Transport/Timeout/Sweeping.antt =====
-- The walk of `ht_handle_timeout` over the send buffer, against what it means to leave.
use remote_trans.Base.{
  ltb, ltb_ℤ, to_u32, pos, ◌+◌, ◌≡◌, refl, sym, ap, subst, ◌∙◌, Bool, true, false, List, [], ◌∷◌,
  ◌++◌, arith, append-nil, append_assoc, inl, inr, ◌⊎◌, if◌then◌else◌,
}
use remote_trans.World.{Timeval}
use remote_trans.Transport.Types.{SendEntry, Conn}
use remote_trans.Transport.Send.Frame.{send_either-Keeps}
use remote_trans.Transport.Clock.{time_diff_ms}
use remote_trans.Transport.Wire.{seal}
use remote_trans.Transport.Timeout.{
  Sweep, is_due, may_retransmit, retransmitted, retransmit, give_up, pass, sweep_entry, sweep,
}

-- The list that the walk is at: what it has linked so far.
abbrev pub linked : Sweep → List SendEntry
linked s = s.front ++ s.skipped

-- The settings that the walk reads do not change during it.
abbrev pub SameSettings : Conn → Conn → Type 0
SameSettings c d =
    (d.retransmit_timeout ≡ c.retransmit_timeout) × (d.max_retransmit ≡ c.max_retransmit)

retransmit-front :
    (now : Timeval) (e : SendEntry) (s : Sweep) → SameSettings s.conn (retransmit now e s).conn
unfolding retransmit
retransmit-front now e s = ground (arith, send_either-Keeps s.conn e.packet true s.world)

pub sweep_entry-SameSettings :
    (now : Timeval) (e : SendEntry) (s : Sweep) → SameSettings s.conn (sweep_entry now e s).conn
unfolding sweep_entry give_up pass
sweep_entry-SameSettings now e s = ground (arith, retransmit-front now e s)

-- The time since an entry was sent last is over the limit, and it may be sent once more.
abbrev pub overdue : Timeval → Conn → SendEntry → Bool
overdue now c e = ltb (to_u32 c.retransmit_timeout) (time_diff_ms e.send_time now)

abbrev pub has_tries : Conn → SendEntry → Bool
has_tries c e = ltb_ℤ (pos e.retransmit_count) c.max_retransmit

-- An entry once it has been sent again.
abbrev pub sent_again : Timeval → SendEntry → SendEntry
sent_again now e = record {
  packet = seal e.packet;
  send_time = now;
  retransmit_count = e.retransmit_count + 1;
}

-- What the walk means to leave: a due entry is sent again while it may be, and dropped then.
module _ (now : Timeval) (c : Conn) where
  pub intended : List SendEntry → List SendEntry
  intended [] = []
  intended (e ∷ es) =
      let rest = intended es in
      if overdue now c e then if has_tries c e then sent_again now e ∷ rest else rest else e ∷ rest

  abbrev pub GivenUp : SendEntry → Type 0
  GivenUp e = (overdue now c e ≡ true) × (has_tries c e ≡ false)

  abbrev pub SentAgain : SendEntry → Type 0
  SentAgain e = (overdue now c e ≡ true) × (has_tries c e ≡ true)

  -- No entry is given up while `prev` lags behind retransmitted entries (`lag`).
  abbrev pub Settled : Bool → List SendEntry → Type 0
  Settled lag [] = Unit {0}
  Settled lag (e ∷ es) =
      ((overdue now c e ≡ false) × Settled false es)
      ⊎ (SentAgain e × Settled true es)
      ⊎ (GivenUp e × (lag ≡ false) × Settled false es)

-- `lag` says whether entries stand between `prev` and the walk.
abbrev pub Lags : Bool → Sweep → Type 0
Lags true s = Unit {0}
Lags false s = s.skipped ≡ []

sweep_entry-passes :
    (now : Timeval) (e : SendEntry) (s : Sweep)
    → is_due now s.conn e ≡ false
    → sweep_entry now e s ≡ pass e s
unfolding sweep_entry
sweep_entry-passes now e s h = rw h

sweep_entry-retransmits :
    (now : Timeval) (e : SendEntry) (s : Sweep)
    → is_due now s.conn e ≡ true
    → may_retransmit s.conn e ≡ true
    → sweep_entry now e s ≡ retransmit now e s
unfolding sweep_entry
sweep_entry-retransmits now e s h k = rw (h, k)

sweep_entry-gives_up :
    (now : Timeval) (e : SendEntry) (s : Sweep)
    → is_due now s.conn e ≡ true
    → may_retransmit s.conn e ≡ false
    → sweep_entry now e s ≡ give_up s
unfolding sweep_entry
sweep_entry-gives_up now e s h k = rw (h, k)

linked-pass : (e : SendEntry) (s : Sweep) → linked (pass e s) ≡ linked s ++ e ∷ []
unfolding pass
linked-pass e s =
    append-nil (s.front ++ (s.skipped ++ e ∷ [])) ∙ sym (append_assoc s.front s.skipped (e ∷ []))

linked-retransmit :
    (now : Timeval) (e : SendEntry) (s : Sweep)
    → linked (retransmit now e s) ≡ linked s ++ retransmitted now e ∷ []
unfolding retransmit
linked-retransmit now e s = sym (append_assoc s.front s.skipped (retransmitted now e ∷ []))

-- The rest of the walk behind one more linked entry.
one_more :
    (t s : Sweep) (e : SendEntry) (ends rest : List SendEntry)
    → linked t ≡ linked s ++ e ∷ []
    → ends ≡ linked t ++ rest
    → ends ≡ linked s ++ e ∷ rest
one_more t s e ends rest h k = k ∙ ap (λ l. l ++ rest) h ∙ append_assoc (linked s) (e ∷ []) rest

pub is_due-same :
    (now : Timeval) (c d : Conn) (e : SendEntry)
    → SameSettings c d
    → is_due now d e ≡ overdue now c e
unfolding is_due
is_due-same now c d e h = rw (h.0)

pub may_retransmit-same :
    (c d : Conn) (e : SendEntry) → SameSettings c d → may_retransmit d e ≡ has_tries c e
unfolding may_retransmit
may_retransmit-same c d e h = rw (h.1)

-- The three cases of the walk and of what it means to leave.
module _ (now : Timeval) (c : Conn) (e : SendEntry) (es : List SendEntry) where
  intended-passes : overdue now c e ≡ false → intended now c (e ∷ es) ≡ e ∷ intended now c es
  unfolding intended
  intended-passes h = rw h

  pub intended-again :
      SentAgain now c e → intended now c (e ∷ es) ≡ sent_again now e ∷ intended now c es
  unfolding intended
  intended-again h = rw (h.0, h.1)

  pub intended-gives_up : GivenUp now c e → intended now c (e ∷ es) ≡ intended now c es
  unfolding intended
  intended-gives_up h = rw (h.0, h.1)

module _ (now : Timeval) (c : Conn) (e : SendEntry) (es : List SendEntry) (s : Sweep)
    (same : SameSettings c s.conn) where
  sweep-passes : overdue now c e ≡ false → sweep now (e ∷ es) s ≡ sweep now es (pass e s)
  unfolding sweep
  sweep-passes h =
      ap (sweep now es) (sweep_entry-passes now e s (is_due-same now c s.conn e same ∙ h))

  pub sweep-again : SentAgain now c e → sweep now (e ∷ es) s ≡ sweep now es (retransmit now e s)
  unfolding sweep
  sweep-again h = ap (sweep now es) (
      sweep_entry-retransmits now e s (is_due-same now c s.conn e same ∙ h.0)
        (may_retransmit-same c s.conn e same ∙ h.1))

  pub sweep-gives_up : GivenUp now c e → sweep now (e ∷ es) s ≡ sweep now es (give_up s)
  unfolding sweep
  sweep-gives_up h = ap (sweep now es) (
      sweep_entry-gives_up now e s (is_due-same now c s.conn e same ∙ h.0)
        (may_retransmit-same c s.conn e same ∙ h.1))

  pub retransmit-same : SameSettings c (retransmit now e s).conn
  retransmit-same = ((retransmit-front now e s).0 ∙ same.0, (retransmit-front now e s).1 ∙ same.1)

module _ (now : Timeval) (c : Conn) where
  pub sweep-Settled :
      (es : List SendEntry) (lag : Bool) (s : Sweep)
      → SameSettings c s.conn
      → Lags lag s
      → Settled now c lag es
      → linked (sweep now es s) ≡ linked s ++ intended now c es
  unfolding give_up
  sweep-Settled [] lag s same l v = unfold sweep intended in sym (append-nil (linked s))
  sweep-Settled (e ∷ es) lag s same l (inl v) =
      ap linked (sweep-passes now c e es s same v.0)
      ∙ one_more (pass e s) s e _ _ (linked-pass e s)
          (sweep-Settled es false (pass e s) (unfold pass in same) (unfold pass in refl) v.1)
      ∙ ap (◌++◌ (linked s)) (sym (intended-passes now c e es v.0))
  sweep-Settled (e ∷ es) lag s same l (inr (inl v)) =
      ap linked (sweep-again now c e es s same v.0)
      ∙ one_more (retransmit now e s) s (retransmitted now e) _ _ (linked-retransmit now e s)
          (sweep-Settled es true (retransmit now e s) (retransmit-same now c e es s same) tt v.1)
      ∙ ap (◌++◌ (linked s)) (sym (intended-again now c e es v.0))
  sweep-Settled (e ∷ es) lag s same l (inr (inr v)) =
      ap linked (sweep-gives_up now c e es s same v.0)
      ∙ sweep-Settled es false (give_up s) same refl v.2
      ∙ ap (λ k. (s.front ++ k) ++ intended now c es) (sym (subst (λ b. Lags b s) v.1 l))
      ∙ ap (◌++◌ (linked s)) (sym (intended-gives_up now c e es v.0))
