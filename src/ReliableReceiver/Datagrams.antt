-- ===== src/ReliableReceiver/Datagrams.antt =====
-- What the receiving thread makes of the datagrams that the sender makes
-- (src/reliable_receiver.cpp, with src/packet.c and src/slideWindowReceiver.cpp).
use mathlib.Core.Bool.{false≢true}
use reliable_packet_transmis.Base.{
  ℕ, ◌+◌, ◌-◌, ◌^◌, ◌≤◌, ◌≡◌, ◌≢◌, refl, sym, ap, ◌∙◌, true, if◌then◌else◌, List, ◌++◌, some, ok,
  arith, length, replicate, take, drop, length-append, length-replicate, length-take, take-append,
}
use reliable_packet_transmis.Packet.{
  DataPacket, DataType, AckPacket, AckType, data_packet_size, read_buffer_data_packet,
}
use reliable_packet_transmis.Packet.DataRoundTrip.{
  IsSendable, data_datagram, length-data_datagram, read_buffer_data_packet-data_datagram,
}
use reliable_packet_transmis.Packet.AckRoundTrip.{
  ack_datagram, length-ack_datagram, fill_buffer_ack_packet_lem,
}
use reliable_packet_transmis.Receiver.{Receiver, Reply, is_data, receive_data_packet, finished}
use reliable_packet_transmis.Receiver.Invariant.{IsPacketOf, IsValid}
use reliable_packet_transmis.Receiver.Receive.{Receives, receive_data_packet_lem}
use reliable_packet_transmis.ReliableReceiver.{
  answer, send_ack, on_datagram, receive_buffer, cleared_packet, fin_ack_num, handshake_ack,
  regular_ack,
}

pub answer-is_data :
    (t : DataType) (r r' : Receiver) (packet : DataPacket) (reply : Reply)
    → is_data t ≡ true
    → receive_data_packet r packet ≡ ok (r', reply)
    → answer t r packet ≡ ok (r', some (regular_ack reply packet.sent_time))
unfolding answer
answer-is_data DataType.invalid r r' packet reply t e = absurd (false≢true t)
answer-is_data DataType.handshake r r' packet reply t e = absurd (false≢true t)
answer-is_data DataType.regular r r' packet reply t e = rw e
answer-is_data DataType.finish r r' packet reply t e = rw e

pub answer-handshake :
    (t : DataType) (r : Receiver) (packet : DataPacket)
    → t ≡ DataType.handshake
    → answer t r packet ≡ ok (r, some (handshake_ack packet.sent_time))
unfolding answer
answer-handshake DataType.invalid r packet e = cc
answer-handshake DataType.handshake r packet e = refl
answer-handshake DataType.regular r packet e = cc
answer-handshake DataType.finish r packet e = cc

-- An ACK that is sent goes out as its datagram, four times if the transfer has finished.
pub send_ack_lem :
    (r : Receiver) (ack : AckPacket) (buffer : List ℕ)
    → ack.type ≢ AckType.invalid
    → 26 ≤ length buffer
    → send_ack r (some ack) buffer
      ≡ ok (r, replicate (if finished r then fin_ack_num else 1) (ack_datagram ack))
unfolding send_ack
send_ack_lem r ack buffer known room = rw (
  fill_buffer_ack_packet_lem ack buffer known room,
  take-append (ack_datagram ack) (drop 26 buffer) 26 (sym (length-ack_datagram ack)),
)

abbrev zero_byte : ℕ
zero_byte = 0

module _ (packet : DataPacket) (v : IsSendable packet) where
  abbrev pub zeros : List ℕ
  zeros = replicate (data_packet_size - length (data_datagram packet)) 0

  -- The packet as the receiving thread sees it.
  abbrev pub arrived : DataPacket
  arrived = record packet { data_bytes = take packet.data_size packet.data_bytes ++ zeros }

  length-receive_buffer : length (receive_buffer (data_datagram packet)) ≡ data_packet_size
  length-receive_buffer = omega (
    arith,
    length-append (data_datagram packet) zeros,
    length-replicate (data_packet_size - length (data_datagram packet)) zero_byte,
    length-data_datagram packet v,
    v.in_datagram,
  )

  pub read_arrived :
      read_buffer_data_packet cleared_packet
        (receive_buffer (data_datagram packet))
        (length (data_datagram packet))
      ≡ ok arrived
  read_arrived =
      ap (read_buffer_data_packet cleared_packet (receive_buffer (data_datagram packet)))
        (length-data_datagram packet v)
      ∙ read_buffer_data_packet-data_datagram cleared_packet packet zeros v

  answered :
      (r r' : Receiver) (reply : Reply)
      → is_data packet.type ≡ true
      → receive_data_packet r arrived ≡ ok (r', reply)
      → on_datagram r (data_datagram packet)
        ≡ ok (
          r',
          replicate
              (if finished r' then fin_ack_num else 1)
              (ack_datagram (regular_ack reply packet.sent_time)),
        )
  unfolding on_datagram
  answered r r' reply kind e =
      rw (read_arrived, answer-is_data packet.type r r' arrived reply kind e)
        (send_ack_lem r' (regular_ack reply packet.sent_time)
          (receive_buffer (data_datagram packet)) (λ e. cc) (omega (arith, length-receive_buffer)))

  -- The datagram of a handshake that can be sent is answered with the datagram of a handshake ACK
  -- that has the handshake's time, four times if the receiver has finished, else once, and leaves
  -- the receiver alone.
  pub on_datagram-handshake :
      (r : Receiver)
      → packet.type ≡ DataType.handshake
      → on_datagram r (data_datagram packet)
        ≡ ok (
          r,
          replicate
              (if finished r then fin_ack_num else 1)
              (ack_datagram (handshake_ack packet.sent_time)),
        )
  unfolding on_datagram
  on_datagram-handshake r h =
      rw (read_arrived, answer-handshake packet.type r arrived h)
        (send_ack_lem r (handshake_ack packet.sent_time) (receive_buffer (data_datagram packet))
          (λ e. cc) (omega (arith, length-receive_buffer)))

  pub arrived-IsPacketOf :
      (total : ℕ) (chunk : ℕ → List ℕ)
      → IsPacketOf total chunk packet
      → IsPacketOf total chunk arrived
  arrived-IsPacketOf total chunk p = record {
    kind = p.kind;
    in_range = p.in_range;
    bytes_of =
        take-append (take packet.data_size packet.data_bytes) zeros packet.data_size
          (omega (arith, length-take packet.data_size packet.data_bytes, v.in_memory))
        ∙ p.bytes_of;
    finish_is_last = p.finish_is_last;
    last_is_finish = p.last_is_finish;
  }

  module _ (total : ℕ) (chunk : ℕ → List ℕ) (room : total + 400 ≤ 2 ^ 32) (r : Receiver)
      (p : IsPacketOf total chunk packet) (h : IsValid total chunk r) where
    -- The datagram of a packet of a file of at most 2 ^ 32 - 400 packets, which a valid receiver
    -- gets, is taken without a fault: the receiver treats the packet that was sent, and what goes
    -- out is the datagram of an ACK with its reply's numbers and the packet's time, four times if
    -- it has finished then, else once.
    pub on_datagram_lem :
        (r' : Receiver) × (reply : Reply) × Receives total chunk r arrived
          (receive_data_packet r arrived)
          r'
          reply
        × (on_datagram r (data_datagram packet)
            ≡ ok (
              r',
              replicate
                  (if finished r' then fin_ack_num else 1)
                  (ack_datagram (regular_ack reply packet.sent_time)),
            ))
    on_datagram_lem =
        let (r', reply, c, _, _) =
          receive_data_packet_lem total chunk room r arrived (arrived-IsPacketOf total chunk p) h in
        (r', reply, c, answered r r' reply p.kind c.returns)
