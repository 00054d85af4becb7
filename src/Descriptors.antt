-- ===== src/Descriptors.antt =====
-- The descriptors that a run opens and closes, as its calls show them.
use remote_trans.Base.{
  ℕ, ◌+◌, ◌≡◌, refl, ap, ◌∙◌, true, List, [], ◌∷◌, ℤ, pos, arith, length, eqb_ℤ, is_neg, negsuc,
  if◌then◌else◌,
}
use remote_trans.World.{
  World, Reply, Call, reply, after, close, accept, socket_stream, socket_dgram,
}

-- 1 if `x` is the descriptor `n`.
abbrev pub one : ℕ → ℤ → ℕ
one n x = if eqb_ℤ x (pos n) then 1 else 0

-- The calls whose value is a new descriptor, and the one that ends a descriptor.
abbrev pub opened_by : ℕ → Call → Reply → ℕ
opened_by n (accept fd) r = one n r.ret
opened_by n socket_stream r = one n r.ret
opened_by n socket_dgram r = one n r.ret
opened_by n c r = 0

abbrev pub closed_by : ℕ → Call → ℕ
closed_by n (close x) = one n x
closed_by n c = 0

-- The calls are listed with the newest one first, and numbered from 0.
abbrev opens_in : (ℕ → Call → Reply) → ℕ → List Call → ℕ
opens_in f n [] = 0
opens_in f n (c ∷ cs) = opened_by n c (f (length cs) c) + opens_in f n cs

abbrev closes_in : ℕ → List Call → ℕ
closes_in n [] = 0
closes_in n (c ∷ cs) = closed_by n c + closes_in n cs

-- How often the descriptor `n` has been opened and closed.
unfoldable pub opened : ℕ → World → ℕ
opened n w = opens_in w.script n w.calls

unfoldable pub closed : ℕ → World → ℕ
closed n w = closes_in n w.calls

-- Every call has been recorded.
abbrev pub Synced : World → Type 0
Synced w = w.tick ≡ length w.calls

-- From `w` to `u`: what was held before and has been opened is what has been closed and is held after.
pub record Books (n : ℕ) (w : World) (before : ℕ) (u : World) (behind : ℕ) : Type 0 where
  pub script : u.script ≡ w.script
  pub synced : Synced u
  pub balance : opened n u + closed n w + before ≡ opened n w + closed n u + behind

pub Books-nothing : (n : ℕ) (w : World) (k : ℕ) → Synced w → Books n w k w k
Books-nothing n w k v = record { script = refl; synced = v; balance = refl }

pub Books-call :
    (n : ℕ) (c : Call) (w : World)
    → Synced w
    → Books n w (closed_by n c) (after c w) (opened_by n c (reply c w))
unfolding after opened closed
Books-call n c w v = record {
  script = refl;
  synced = omega (arith, v);
  balance = omega (arith, ap (λ t. opened_by n c (w.script t c)) v);
}

-- A call that opens and closes nothing.
pub Books-quiet :
    (n : ℕ) (c : Call) (w : World)
    → Synced w
    → opened_by n c (reply c w) ≡ 0
    → closed_by n c ≡ 0
    → Books n w 0 (after c w) 0
Books-quiet n c w v o k =
    let b = Books-call n c w v in
    record { script = b.script; synced = b.synced; balance = omega (arith, b.balance, o, k) }

module _ (n : ℕ) (w u x : World) (a b c d : ℕ) where
  pub Books-then : Books n w a u b → Books n u c x d → Books n w (a + c) x (b + d)
  Books-then p q = record {
    script = q.script ∙ p.script;
    synced = q.synced;
    balance = omega (arith, p.balance, q.balance);
  }

pub Books-trans :
    (n : ℕ) (w u x : World) (a b c : ℕ) → Books n w a u b → Books n u b x c → Books n w a x c
Books-trans n w u x a b c p q = record {
  script = q.script ∙ p.script;
  synced = q.synced;
  balance = omega (arith, p.balance, q.balance);
}

-- Other numbers with the same difference.
pub Books-as :
    (n : ℕ) (w u : World) (a b c d : ℕ) → a + d ≡ c + b → Books n w a u b → Books n w c u d
Books-as n w u a b c d h p = record {
  script = p.script;
  synced = p.synced;
  balance = omega (arith, h, p.balance);
}

pub negative-one : (n : ℕ) (x : ℤ) → is_neg x ≡ true → one n x ≡ 0
negative-one n (pos k) e = cc
negative-one n (negsuc k) e = refl

pub opened-nothing : (n : ℕ) (w : World) → w.calls ≡ [] → (opened n w ≡ 0) × (closed n w ≡ 0)
unfolding opened closed
opened-nothing n w h = (ap (opens_in w.script n) h, ap (closes_in n) h)
