-- ===== src/World.antt =====
-- The operating system as the two C files meet it. Every system or library call that can fail or
-- that brings data in is answered by an arbitrary script, from the call and the number of calls
-- before it, and is recorded. `errno` keeps its value over a call that does not fail, as in C.
-- Printing and logging are left out.
use remote_trans.Base.{ℕ, ◌+◌, ◌≡◌, refl, Bool, List, ◌∷◌, ℤ, is_neg, if◌then◌else◌, ◌==◌}

-- `struct timeval`; times are counted from the epoch and are not negative.
pub record Timeval : Type 0 where
  pub sec : ℕ
  pub usec : ℕ

-- What one call answers: its return value, the `errno` that it sets if that is negative, the bytes
-- that it stores, the time that it reads. A negative reply to `malloc` is a null pointer. The reply to
-- `select` stores the numbers of the descriptors that are ready.
pub record Reply : Type 0 where
  pub ret : ℤ
  pub errno : ℕ
  pub bytes : List ℕ
  pub time : Timeval

pub data Call : Type 0 where
  socket_dgram socket_stream gettimeofday time rand malloc : Call
  inet_pton : List ℕ → Call
  setsockopt fcntl_getfl fcntl_setfl close connect bind listen accept : ℤ → Call
  select : List ℤ → Call
  send sendto : ℤ → List ℕ → Call
  recv recvfrom peek : ℤ → Call
  usleep : ℕ → Call

-- `faulted` is set by an access past the end of an object, which C leaves undefined. `initialized` is
-- the static variable `ht_initialized` of hybrid_transport.c. `behind` is what stands in memory behind
-- the structure of a received packet, after so many calls.
pub record World : Type 0 where
  pub script : ℕ → Call → Reply
  pub tick : ℕ
  pub errno : ℕ
  pub calls : List Call
  pub faulted : Bool
  pub initialized : Bool
  pub behind : ℕ → List ℕ

-- What a call answers when it is the next one, and the world after it.
abbrev pub reply : Call → World → Reply
reply c w = w.script w.tick c

unfoldable pub after : Call → World → World
after c w = record w {
  tick = w.tick + 1;
  errno = if is_neg (reply c w).ret then (reply c w).errno else w.errno;
  calls = c ∷ w.calls;
}

-- EAGAIN and EWOULDBLOCK are one number on Linux.
abbrev pub would_block : ℕ → Bool
would_block e = e == 11

abbrev pub einprogress : ℕ
einprogress = 115

pub tick-after : (c : Call) (w : World) → (after c w).tick ≡ w.tick + 1
unfolding after
tick-after c w = refl

pub script-after : (c : Call) (w : World) → (after c w).script ≡ w.script
unfolding after
script-after c w = refl

pub faulted-after : (c : Call) (w : World) → (after c w).faulted ≡ w.faulted
unfolding after
faulted-after c w = refl
