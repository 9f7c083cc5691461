-- ===== src/ReliableSender/Receptions.antt =====
-- How a thread of `receiveAck` of src/reliable_sender.cpp takes a regular ACK from its datagram.
use reliable_packet_transmis.Base.{ℕ, ◌≡◌, ap, ◌∙◌, eq→==, [], some, set, length, ok}
use reliable_packet_transmis.Packet.{AckPacket, AckType, Timeval, ack_packet_size}
use reliable_packet_transmis.Packet.AckRoundTrip.{
  IsSendableAck, ack_datagram, length-ack_datagram, read_buffer_ack_packet-ack_datagram,
}
use reliable_packet_transmis.Rtt.{get_current_timeout_us}
use reliable_packet_transmis.ReliableSender.Threads.{Receiving, Threads, on_reception, on_ack}
use reliable_packet_transmis.Rtt
use reliable_packet_transmis.Rtt.{RttEstimator}

-- A regular ACK is taken from its datagram, and goes to the estimator.
pub on_reception-ack_datagram :
    (i : ℕ) (old ack : AckPacket) (now : Timeval) (t : Threads) (e : RttEstimator)
    → IsSendableAck ack
    → ack.type ≡ AckType.regular
    → Rtt.ack_arrived t.process.rtt_estimator ack now ≡ ok e
    → on_reception i old (some (ack_datagram ack)) now t
      ≡ ok (
        record t {
          process = record (t.process) { rtt_estimator = e };
          receivers = set t.receivers i (Receiving.accepting ack);
        },
        [],
      )
unfolding on_reception
on_reception-ack_datagram i old ack now t e v regular sampled =
    rw
      (
        eq→== (length (ack_datagram ack)) ack_packet_size (length-ack_datagram ack),
        length-ack_datagram ack,
        read_buffer_ack_packet-ack_datagram old ack v,
      )
      (ap (λ type. on_ack type i ack now t) regular ∙ handled)
  where
    handled :
        on_ack AckType.regular i ack now t
        ≡ ok (
          record t {
            process = record (t.process) { rtt_estimator = e };
            receivers = set t.receivers i (Receiving.accepting ack);
          },
          [],
        )
    handled = rw (on_ack, sampled)

-- The ACK of a handshake is dropped.
pub on_reception-handshake :
    (i : ℕ) (old ack : AckPacket) (now : Timeval) (t : Threads)
    → IsSendableAck ack
    → ack.type ≡ AckType.handshake
    → on_reception i old (some (ack_datagram ack)) now t
      ≡ ok (record t { receivers = set t.receivers i Receiving.testing }, [])
unfolding on_reception on_ack
on_reception-handshake i old ack now t v greets =
    rw
      (
        eq→== (length (ack_datagram ack)) ack_packet_size (length-ack_datagram ack),
        length-ack_datagram ack,
        read_buffer_ack_packet-ack_datagram old ack v,
      )
      (ap (λ type. on_ack type i ack now t) greets)
