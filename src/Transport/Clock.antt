-- ===== src/Transport/Clock.antt =====
-- hybrid_transport.c: the two time helpers. `tv_sec` and `tv_usec` are 64-bit and far from their
-- limits, so the sums are exact before the cast to `uint32_t`.
use remote_trans.Base.{ℕ, ◌+◌, ◌*◌, ◌/◌, ◌%◌, ◌^◌, ◌-◌, ◌<◌, ◌≤◌, sub_ℕ, ◌+ℤ◌, tdiv, to_u32, arith}
use remote_trans.World.{Timeval}

unfoldable pub get_timestamp_ms : Timeval → ℕ
get_timestamp_ms tv = (tv.sec * 1000 + tv.usec / 1000) % 2 ^ 32

unfoldable pub time_diff_ms : Timeval → Timeval → ℕ
time_diff_ms start end =
    to_u32 (sub_ℕ (end.sec * 1000) (start.sec * 1000) +ℤ tdiv (sub_ℕ end.usec start.usec) 1000)

abbrev pub micros : Timeval → ℕ
micros t = t.sec * 1000000 + t.usec

-- `gettimeofday` normalises its result.
abbrev pub IsTime : Timeval → Type 0
IsTime t = t.usec < 1000000

-- For an interval that does not run backwards and is shorter than 2^32 ms, the result is less than
-- a millisecond away from the exact time.
pub time_diff_ms-near :
    (start end : Timeval)
    → IsTime start
    → IsTime end
    → micros start ≤ micros end
    → micros end < micros start + 4294967295000
    → (time_diff_ms start end * 1000 < micros end - micros start + 1000)
      × (micros end - micros start < time_diff_ms start end * 1000 + 1000)
unfolding time_diff_ms
time_diff_ms-near start end hs he le short = ground arith

-- A clock that has moved back by at least a millisecond makes a huge interval.
pub time_diff_ms-backwards :
    (start end : Timeval)
    → IsTime start
    → IsTime end
    → micros end + 1000 ≤ micros start
    → micros start < micros end + 3600000000
    → 4291367295 ≤ time_diff_ms start end
unfolding time_diff_ms
time_diff_ms-backwards start end hs he le short = ground arith
