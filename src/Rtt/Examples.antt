-- ===== src/Rtt/Examples.antt =====
-- The estimator of src/rttEstimatorJacobson.cpp, and the clock, at concrete values.
use reliable_packet_transmis.Base.{List, [], ◌∷◌, ◌≤◌, ◌≡◌, refl, arith, min, ok}
use Prim.Native.Nat.{max}
use reliable_packet_transmis.Packet.{AckPacket, AckType, Timeval}
use reliable_packet_transmis.Clock.{elapsed_us}
use reliable_packet_transmis.Rtt.{
  RttEstimator, init, estimator_alpha, estimator_beta, ack_arrived, distance,
  get_current_timeout_us,
}
use reliable_packet_transmis.Rtt.Convergence.{Arrival}
use reliable_packet_transmis.Rtt.Bounds.{ack_arrived_bounds}

abbrev before : Timeval
before = record { tv_sec = 9; tv_usec = 990000 }

abbrev after : Timeval
after = record { tv_sec = 10; tv_usec = 10000 }

abbrev ack : AckPacket
ack = record {
  type = AckType.regular;
  cumulative_seq_num = 1;
  selective_seq_num = 0;
  sent_time = before;
}

abbrev estimator : RttEstimator
estimator = record {
  cur_timeout_us = 60000;
  cur_std_dev_us = 15000;
  alpha = estimator_alpha;
  beta = estimator_beta;
}

-- 20 ms after an estimate of 60 ms with a deviation of 15 ms
ack_arrived-estimator :
    ack_arrived estimator ack after
    ≡ ok (record estimator { cur_timeout_us = 55000; cur_std_dev_us = 21250 })
unfolding ack_arrived elapsed_us
ack_arrived-estimator = refl

first_timeout : get_current_timeout_us (init 60000 estimator_alpha estimator_beta) ≡ 126000
unfolding get_current_timeout_us init
first_timeout = refl

ack_arrived_bounds_example :
    (e' : RttEstimator) × (ack_arrived estimator ack after ≡ ok e')
    × (min (elapsed_us before after) 60000 ≤ e'.cur_timeout_us)
    × (e'.cur_timeout_us ≤ max (elapsed_us before after) 60000)
    × (min (distance (elapsed_us before after) 60000) 15000 ≤ e'.cur_std_dev_us)
    × (e'.cur_std_dev_us ≤ max (distance (elapsed_us before after) 60000) 15000)
unfolding elapsed_us
ack_arrived_bounds_example =
    ack_arrived_bounds estimator ack after refl
      (record {
        bits = 3;
        power_of_two = refl;
        in_mantissa = omega arith;
        at_most_one = omega arith;
      })
      (record {
        bits = 2;
        power_of_two = refl;
        in_mantissa = omega arith;
        at_most_one = omega arith;
      })
      (omega arith) (omega arith) (omega arith) (omega arith)

-- Two ACKs after 20 ms each.
abbrev two_arrivals : List Arrival
two_arrivals = record { packet = ack; now = after } ∷ record { packet = ack; now = after } ∷ []

abbrev near : RttEstimator
near = record estimator { cur_timeout_us = 20009 }
