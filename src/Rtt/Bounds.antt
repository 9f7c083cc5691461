-- ===== src/Rtt/Bounds.antt =====
-- The estimate follows the samples: it is never outside of what it and the sample span.
use reliable_packet_transmis.Base.{ℕ, ◌^◌, ◌+◌, ◌-◌, ◌*◌, ◌≤◌, ◌<◌, ◌≡◌, arith, min, ok}
use Prim.Native.Nat.{max}
use native.Mathlib.Nat.{le-div_iff_mul-le, div-le_of_le-mul, one-le-pow}
use reliable_packet_transmis.Packet.{AckPacket, AckType, Timeval}
use reliable_packet_transmis.Clock.{elapsed_us}
use reliable_packet_transmis.Rtt.{
  RttEstimator, Weight, weigh, sample, ack_arrived, distance, update,
}

-- A proper fraction that is a `double`, as is its distance from 1.
pub record IsWeight (w : Weight) : Type 0 where
  pub bits : ℕ
  pub power_of_two : w.den ≡ 2 ^ bits
  pub in_mantissa : bits ≤ 53
  pub at_most_one : w.num ≤ w.den

-- The products of the weight with the value and with its distance from 1, and their sum, are exact
-- as `double`.
abbrev pub IsExactFor : Weight → ℕ → Type 0
IsExactFor w x = w.den * x ≤ 2 ^ 53

module _ (n m x y k : ℕ) where
  mean_ge : k ≤ x → k ≤ y → k * (n + m) ≤ n * x + m * y
  mean_ge hx hy = grind arith

  mean_le : x ≤ k → y ≤ k → n * x + m * y ≤ (n + m) * k
  mean_le hx hy = grind arith

-- A weighted mean, rounded down, lies between its two values.
pub weigh_bounds :
    (w : Weight) (x y : ℕ) → IsWeight w → (min x y ≤ weigh w x y) × (weigh w x y ≤ max x y)
unfolding weigh
weigh_bounds w x y v =
    let e : w.num + (w.den - w.num) ≡ w.den = omega arith in
    let positive : 0 < w.den = rw v.power_of_two (one-le-pow v.bits 2 (omega arith)) in
    (
      (le-div_iff_mul-le positive).1
          (rw e at (mean_ge w.num (w.den - w.num) x y (min x y) (omega arith) (omega arith))),
      div-le_of_le-mul w.den
          (rw e at (mean_le w.num (w.den - w.num) x y (max x y) (omega arith) (omega arith))),
    )

-- Let the weights be proper fractions whose denominators are powers of two, at most 2 ^ 53, and
-- let the estimate, the deviation and the round trip that a regular ACK's time stamp shows be at
-- most 2 ^ 53 divided by the denominators that they are weighted with, so that the code's `double`
-- arithmetic is exact. Then the ACK moves the estimate to a value between the old one and that
-- round trip, and the deviation to a value between the old one and the distance of the two; it
-- never fails.
pub ack_arrived_bounds :
    (e : RttEstimator) (packet : AckPacket) (now : Timeval)
    → packet.type ≡ AckType.regular
    → IsWeight e.alpha
    → IsWeight e.beta
    → IsExactFor e.alpha (elapsed_us packet.sent_time now)
    → IsExactFor e.alpha e.cur_timeout_us
    → IsExactFor e.beta (distance (elapsed_us packet.sent_time now) e.cur_timeout_us)
    → IsExactFor e.beta e.cur_std_dev_us
    → let elapsed = elapsed_us packet.sent_time now in
      let d = distance elapsed e.cur_timeout_us in
      (e' : RttEstimator) × (ack_arrived e packet now ≡ ok e')
      × (min elapsed e.cur_timeout_us ≤ e'.cur_timeout_us)
      × (e'.cur_timeout_us ≤ max elapsed e.cur_timeout_us)
      × (min d e.cur_std_dev_us ≤ e'.cur_std_dev_us)
      × (e'.cur_std_dev_us ≤ max d e.cur_std_dev_us)
unfolding ack_arrived
ack_arrived_bounds e packet now t va vb _ _ _ _ =
    let elapsed = elapsed_us packet.sent_time now in
    let a = weigh_bounds e.alpha elapsed e.cur_timeout_us va in
    let b = weigh_bounds e.beta (distance elapsed e.cur_timeout_us) e.cur_std_dev_us vb in
    (sample e elapsed, rw (t, update), a.0, a.1, b.0, b.1)

-- A regular ACK is always taken.
pub ack_arrived-regular :
    (e : RttEstimator) (packet : AckPacket) (now : Timeval)
    → packet.type ≡ AckType.regular
    → ack_arrived e packet now ≡ ok (sample e (elapsed_us packet.sent_time now))
unfolding ack_arrived
ack_arrived-regular e packet now t = rw (t, update)
