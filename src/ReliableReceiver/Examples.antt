-- ===== src/ReliableReceiver/Examples.antt =====
-- The receiving thread of src/reliable_receiver.cpp at concrete values.
use reliable_packet_transmis.ReliableReceiver.Loop.{
  IsEvent, IsFromSender, InOrder, complete, other, awaited, receive_data_reply_ack_lem,
}
use reliable_packet_transmis.Receiver.Invariant.{IsInPlace, IsPacketOf}
use reliable_packet_transmis.Base.{
  ◌≤◌, List, [], ◌∷◌, true, All, Option, some, none, inl, inr, length, ℕ, ◌<◌, ◌^◌, ◌≢◌, ◌↔◌, ◌≡◌,
  refl, if◌then◌else◌, ok, replicate, take, arith,
}
use reliable_packet_transmis.ReliableReceiver.Malformed.{on_datagram-malformed}
use reliable_packet_transmis.Packet.{DataPacket, DataType}
use reliable_packet_transmis.Packet.DataRoundTrip.{IsSendable, data_datagram}
use reliable_packet_transmis.Packet.AckRoundTrip.{ack_datagram}
use reliable_packet_transmis.Receiver.{Receiver, Reply, init, receive_data_packet, finished}
use reliable_packet_transmis.Receiver.Receive.{init-IsValid, Receives}
use reliable_packet_transmis.Receiver.Examples.{three_bytes, packet_at, midnight, finish-IsPacketOf}
use reliable_packet_transmis.ReliableReceiver.{
  on_datagram, fin_ack_num, receive_data_reply_ack, regular_ack,
}
use reliable_packet_transmis.ReliableReceiver.Datagrams.{arrived, on_datagram_lem}

pub packet_at-IsSendable :
    (t : DataType) (k : ℕ) → t ≢ DataType.invalid → k < 2 ^ 32 → IsSendable (packet_at t k)
packet_at-IsSendable t k known h = record {
  known = known;
  seq_fits = h;
  time_fits = omega arith;
  in_memory = omega arith;
  in_datagram = omega arith;
}

abbrev pub finish : DataPacket
finish = packet_at DataType.finish 2

pub finish-IsSendable : IsSendable finish
finish-IsSendable = packet_at-IsSendable DataType.finish 2 (λ e. cc) (omega arith)

on_datagram_example :
    (r' : Receiver) × (reply : Reply) × Receives 3 three_bytes init
      (arrived finish finish-IsSendable)
      (receive_data_packet init (arrived finish finish-IsSendable))
      r'
      reply
    × (on_datagram init (data_datagram finish)
        ≡ ok (
          r',
          replicate
              (if finished r' then fin_ack_num else 1)
              (ack_datagram (regular_ack reply midnight)),
        ))
on_datagram_example =
    on_datagram_lem finish finish-IsSendable 3 three_bytes (omega arith) init finish-IsPacketOf
      (init-IsValid 3 three_bytes).0

abbrev pub greeting : DataPacket
greeting = packet_at DataType.handshake 0

regular-IsPacketOf : (k : ℕ) → k < 2 → IsPacketOf 3 three_bytes (packet_at DataType.regular k)
regular-IsPacketOf k h = record {
  kind = refl;
  in_range = omega arith;
  bytes_of = refl;
  finish_is_last = λ e. cc;
  last_is_finish = λ e. absurd (omega arith);
}

-- A handshake, the last packet, a time-out, then the three packets in order, with a repetition.
abbrev events : List (Option (List ℕ))
events =
    some (data_datagram greeting)
    ∷ some (data_datagram finish)
    ∷ none
    ∷ some (data_datagram (packet_at DataType.regular 0))
    ∷ some (data_datagram (packet_at DataType.regular 0))
    ∷ some (data_datagram (packet_at DataType.regular 1))
    ∷ some (data_datagram finish)
    ∷ []

pub regular-IsFromSender :
    (k : ℕ) → k < 2 → IsFromSender 3 three_bytes (data_datagram (packet_at DataType.regular k))
regular-IsFromSender k h = record {
  packet = packet_at DataType.regular k;
  laid_out = refl;
  sendable = packet_at-IsSendable DataType.regular k (λ e. cc) (omega arith);
  kind = inr (regular-IsPacketOf k h);
}

pub finish-IsFromSender : IsFromSender 3 three_bytes (data_datagram finish)
finish-IsFromSender = record {
  packet = finish;
  laid_out = refl;
  sendable = finish-IsSendable;
  kind = inr finish-IsPacketOf;
}

pub greeting-IsFromSender : IsFromSender 3 three_bytes (data_datagram greeting)
greeting-IsFromSender = record {
  packet = greeting;
  laid_out = refl;
  sendable = packet_at-IsSendable DataType.handshake 0 (λ e. cc) (omega arith);
  kind = inl refl;
}

events-IsEvent : All (IsEvent 3 three_bytes) events
events-IsEvent = (
  greeting-IsFromSender,
  (
    finish-IsFromSender,
    (
      tt,
      (
        regular-IsFromSender 0 (omega arith),
        (
          regular-IsFromSender 0 (omega arith),
          (regular-IsFromSender 1 (omega arith), (finish-IsFromSender, tt)),
        ),
      ),
    ),
  ),
)

events-InOrder : InOrder 3 three_bytes 0 events
events-InOrder = other _ (
    other _ (
      other _ (
        awaited (packet_at DataType.regular 0)
          (packet_at-IsSendable DataType.regular 0 (λ e. cc) (omega arith))
          (regular-IsPacketOf 0 (omega arith)) refl
          (other _ (
            awaited (packet_at DataType.regular 1)
              (packet_at-IsSendable DataType.regular 1 (λ e. cc) (omega arith))
              (regular-IsPacketOf 1 (omega arith)) refl
              (awaited finish finish-IsSendable finish-IsPacketOf refl
                (complete (omega arith) [])))))))

receive_data_reply_ack_example :
    (r : Receiver) × (sent : List (List ℕ)) × (receive_data_reply_ack init events ≡ ok (r, sent))
    × (finished r ≡ true)
    × IsInPlace 3 three_bytes r.writes
receive_data_reply_ack_example =
    receive_data_reply_ack_lem 3 three_bytes events (omega arith) (omega arith) events-IsEvent
      events-InOrder

abbrev noise : List ℕ
noise = replicate 30 255

on_datagram-malformed_example : (on_datagram init noise ≡ ok (init, [])) ↔ (
    (22 ≤ length noise)
    × (take 2 noise ≢ b'h' ∷ b's' ∷ [])
    × (take 2 noise ≢ b'r' ∷ b'e' ∷ [])
    × (take 2 noise ≢ b'f' ∷ b'i' ∷ []))
on_datagram-malformed_example = on_datagram-malformed init noise (omega arith)
