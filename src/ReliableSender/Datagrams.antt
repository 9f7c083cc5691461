-- ===== src/ReliableSender/Datagrams.antt =====
-- What the sender's threads send, and what they make of the receiver's ACKs
-- (src/reliable_sender.cpp, with src/packet.c, src/slideWindowSender.cpp and the estimator).
use reliable_packet_transmis.Base.{
  ℕ, ◌+◌, ◌≤◌, ◌≡◌, refl, sym, ap, ◌∙◌, eq→==, List, [], ◌∷◌, ◌++◌, map, ok, arith, length, drop,
  length-append, All, length-drop, take-append,
}
use reliable_packet_transmis.Packet.{
  DataPacket, AckPacket, AckType, Timeval, data_packet_size, ack_packet_size,
}
use reliable_packet_transmis.Packet.DataRoundTrip.{
  IsSendable, data_datagram, length-data_datagram, fill_buffer_data_packet_lem,
}
use reliable_packet_transmis.Packet.AckRoundTrip.{
  IsSendableAck, ack_datagram, length-ack_datagram, read_buffer_ack_packet-ack_datagram,
}
use reliable_packet_transmis.Rtt
use reliable_packet_transmis.Rtt.{RttEstimator}
use reliable_packet_transmis.Sender.{Sender, FileSource}
use reliable_packet_transmis.Sender.Ack
use reliable_packet_transmis.ReliableSender.{Process, send_packets, receive_ack, handle_ack}

-- Packets that can be sent go out as their datagrams, in their order, from any buffer of at least
-- a packet's size that they share, whatever it holds.
pub send_packets_lem :
    (packets : List DataPacket) (buffer : List ℕ)
    → data_packet_size ≤ length buffer
    → All IsSendable packets
    → send_packets buffer packets ≡ ok (map data_datagram packets)
unfolding send_packets
send_packets_lem [] buffer room v = refl
send_packets_lem (p ∷ ps) buffer room (v, vs) = rw (
  fill_buffer_data_packet_lem p buffer v (omega (arith, v.in_datagram)),
  send_packets_lem ps (data_datagram p ++ drop (22 + p.data_size) buffer)
      (omega (
        arith,
        length-append (data_datagram p) (drop (22 + p.data_size) buffer),
        length-drop (22 + p.data_size) buffer,
        length-data_datagram p v,
        v.in_datagram,
      ))
      vs,
  take-append (data_datagram p) (drop (22 + p.data_size) buffer) (22 + p.data_size)
      (sym (length-data_datagram p v)),
)

-- A regular ACK reaches the estimator and the window.
pub receive_ack-ack_datagram :
    (source : FileSource) (p : Process) (old ack : AckPacket) (now : Timeval) (s : Sender)
    (e : RttEstimator)
    → IsSendableAck ack
    → ack.type ≡ AckType.regular
    → Rtt.ack_arrived p.rtt_estimator ack now ≡ ok e
    → Ack.ack_arrived source p.slide_window ack ≡ ok s
    → receive_ack source p old (ack_datagram ack) now
      ≡ ok (record { slide_window = s; rtt_estimator = e })
unfolding receive_ack
receive_ack-ack_datagram source p old ack now s e v regular estimates slides =
    rw
      (
        eq→== (length (ack_datagram ack)) ack_packet_size (length-ack_datagram ack),
        length-ack_datagram ack,
        read_buffer_ack_packet-ack_datagram old ack v,
      )
      (ap (λ t. handle_ack t source p ack now) regular ∙ rw (handle_ack, estimates, slides))

-- The ACK of a handshake that comes late is dropped.
pub receive_ack-handshake :
    (source : FileSource) (p : Process) (old ack : AckPacket) (now : Timeval)
    → IsSendableAck ack
    → ack.type ≡ AckType.handshake
    → receive_ack source p old (ack_datagram ack) now ≡ ok p
unfolding receive_ack
receive_ack-handshake source p old ack now v greets =
    rw
      (
        eq→== (length (ack_datagram ack)) ack_packet_size (length-ack_datagram ack),
        length-ack_datagram ack,
        read_buffer_ack_packet-ack_datagram old ack v,
      )
      (ap (λ t. handle_ack t source p ack now) greets)
