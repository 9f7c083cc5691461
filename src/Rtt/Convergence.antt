-- ===== src/Rtt/Convergence.antt =====
-- The estimate of src/rttEstimatorJacobson.cpp settles at a round trip that stays the same.
use reliable_packet_transmis.Base.{ℕ, ◌≡◌, List, [], ◌∷◌, Result, ok, ◌>>=◌}
use reliable_packet_transmis.Packet.{AckPacket, AckType, Timeval}
use reliable_packet_transmis.Clock.{elapsed_us}
use reliable_packet_transmis.Rtt.{RttEstimator, ack_arrived}

-- An ACK with the time of its arrival.
pub record Arrival : Type 0 where
  pub packet : AckPacket
  pub now : Timeval

-- ACKs that arrive one after another.
abbrev pub arrivals : List Arrival → RttEstimator → Result RttEstimator
arrivals [] e = ok e
arrivals (a ∷ more) e = do e ← ack_arrived e a.packet a.now; arrivals more e

-- A regular ACK whose time stamp shows the round trip `us`.
abbrev pub ShowsRoundTrip : ℕ → Arrival → Type 0
ShowsRoundTrip us a = (a.packet.type ≡ AckType.regular) × (elapsed_us a.packet.sent_time a.now ≡ us)
