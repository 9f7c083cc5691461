-- ===== src/Clock.antt =====
-- `getElapsedUs`, which src/rttEstimatorJacobson.h, src/slideWindowSender.h, src/reliable_sender.cpp
-- and src/reliable_receiver.cpp each define. A `long` is its bit pattern, below 2 ^ 64.
use reliable_packet_transmis.Base.{ℕ, ◌+◌, ◌-◌, ◌*◌, ◌%◌, ◌^◌, ◌≤◌, ◌<◌, ◌≡◌, arith}
use reliable_packet_transmis.Packet.{Timeval}

-- a - b on 64 bits
abbrev pub sub64 : ℕ → ℕ → ℕ
sub64 a b = (a + 2 ^ 64 - b) % 2 ^ 64

unfoldable pub elapsed_us : Timeval → Timeval → ℕ
elapsed_us before after =
    (sub64 after.tv_sec before.tv_sec * 1000 * 1000 + sub64 after.tv_usec before.tv_usec) % 2 ^ 64

-- A time as `gettimeofday` gives it, in microseconds.
abbrev pub to_us : Timeval → ℕ
to_us t = t.tv_sec * 1000000 + t.tv_usec

-- Before the microseconds since the epoch exceed 64 bits, and within a second each.
pub record IsTime (t : Timeval) : Type 0 where
  pub fits : to_us t < 2 ^ 63
  pub within : t.tv_usec < 1000000

-- For two times in order, each below 2 ^ 63 microseconds and with microseconds within a second,
-- the elapsed time is their distance, also where the microseconds borrow from the seconds.
pub elapsed_us_lem :
    (before after : Timeval)
    → IsTime before
    → IsTime after
    → to_us before ≤ to_us after
    → elapsed_us before after + to_us before ≡ to_us after
unfolding elapsed_us
elapsed_us_lem before after hb ha h = omega arith
