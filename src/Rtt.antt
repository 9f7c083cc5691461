-- ===== src/Rtt.antt =====
-- src/rttEstimatorJacobson.h and src/rttEstimatorJacobson.cpp: the estimate of the round trip.
-- The lock makes each method one step. A `double` weight is a fraction, and the products and sums are
-- those of fractions, which the conversion to `unsigned long` rounds down. This is what the code
-- computes for the weights that the program uses, 0.125 and 0.25, and for any others whose
-- denominator is a power of two, as long as the values are small enough for exact products; for 0.125
-- and 0.25 below 2 ^ 50 microseconds. Below that limit 1.1 * t rounds down to 11 * t / 10 as well.
pub mod Bounds
pub mod Convergence
pub mod Examples
use reliable_packet_transmis.Base.{
  ℕ, ◌+◌, ◌-◌, ◌*◌, ◌/◌, ◌%◌, ◌^◌, ltb, if◌then◌else◌, Result, ok, fault, assertion,
}
use reliable_packet_transmis.Packet.{AckPacket, AckType, Timeval}
use reliable_packet_transmis.Clock.{elapsed_us}

pub record Weight : Type 0 where
  pub num : ℕ
  pub den : ℕ

pub record RttEstimator : Type 0 where
  pub cur_timeout_us : ℕ
  pub cur_std_dev_us : ℕ
  pub alpha : Weight
  pub beta : Weight

-- ESTIMATOR_ALPHA and ESTIMATOR_BETA of reliable_sender.cpp
abbrev pub estimator_alpha : Weight
estimator_alpha = record { num = 1; den = 8 }

abbrev pub estimator_beta : Weight
estimator_beta = record { num = 1; den = 4 }

-- (unsigned long) (w * x + (1 - w) * y)
unfoldable pub weigh : Weight → ℕ → ℕ → ℕ
weigh w x y = (w.num * x + (w.den - w.num) * y) / w.den

unfoldable pub init : ℕ → Weight → Weight → RttEstimator
init init_timeout_us alpha beta = record {
  cur_timeout_us = init_timeout_us;
  cur_std_dev_us = init_timeout_us / 4;
  alpha = alpha;
  beta = beta;
}

-- The distance of two `unsigned long`, by the test that the code makes.
abbrev pub distance : ℕ → ℕ → ℕ
distance a b = if ltb a b then b - a else a - b

-- The new state after a sample.
unfoldable pub sample : RttEstimator → ℕ → RttEstimator
unfolding weigh
sample e elapsed = record e {
  cur_std_dev_us = weigh e.beta (distance elapsed e.cur_timeout_us) e.cur_std_dev_us;
  cur_timeout_us = weigh e.alpha elapsed e.cur_timeout_us;
}

-- Any ACK but a regular one stops the process.
update : AckType → RttEstimator → ℕ → Result RttEstimator
update AckType.regular e elapsed = ok (sample e elapsed)
update _ e elapsed = fault assertion

unfoldable pub ack_arrived : RttEstimator → AckPacket → Timeval → Result RttEstimator
unfolding update sample
ack_arrived e packet now = update packet.type e (elapsed_us packet.sent_time now)

unfoldable pub get_current_timeout_us : RttEstimator → ℕ
get_current_timeout_us e = e.cur_timeout_us * 11 / 10 + (4 * e.cur_std_dev_us) % 2 ^ 64
