-- ===== src/ReliableReceiver.antt =====
-- src/reliable_receiver.cpp: what a receiving thread does with each datagram. What `recvfrom` gives is
-- an argument: `none` for an error or a time-out, else the bytes, of which the call stores at most
-- DATA_PACKET_SIZE. What goes to `sendto` is a result.
pub mod Datagrams
pub mod Loop
pub mod Threads
pub mod Rounds
pub mod Linear
pub mod Serial
pub mod Files
pub mod Stopping
pub mod Completion
pub mod ThreadExamples
pub mod Setup
pub mod Closing
pub mod Malformed
pub mod Examples
use reliable_packet_transmis.Base.{
  ℕ, zero, suc, ◌+◌, ◌-◌, Bool, true, false, if◌then◌else◌, List, [], ◌∷◌, ◌++◌, Option, none, some,
  Result, ok, fault, ◌>>=◌, length, replicate, take,
}
use reliable_packet_transmis.Packet.{
  DataPacket, DataType, AckPacket, AckType, Timeval, read_buffer_data_packet,
  fill_buffer_ack_packet, data_packet_size,
}
use reliable_packet_transmis.Receiver.{Receiver, Reply, receive_data_packet, finished}

abbrev pub fin_ack_num : ℕ
fin_ack_num = 4

-- A packet that is all zeros: the type 0 is that of a handshake.
abbrev pub cleared_packet : DataPacket
cleared_packet = record {
  type = DataType.handshake;
  seq_num = 0;
  sent_time = record { tv_sec = 0; tv_usec = 0 };
  data_size = 0;
  data_bytes = [];
}

-- The cleared buffer with what was received in front.
abbrev pub receive_buffer : List ℕ → List ℕ
receive_buffer received = received ++ replicate (data_packet_size - length received) 0

-- The ACK that answers a handshake.
abbrev pub handshake_ack : Timeval → AckPacket
handshake_ack time = record {
  type = AckType.handshake;
  cumulative_seq_num = 0;
  selective_seq_num = 0;
  sent_time = time;
}

-- The ACK that answers a packet of the file.
abbrev pub regular_ack : Reply → Timeval → AckPacket
regular_ack reply time = record {
  type = AckType.regular;
  cumulative_seq_num = reply.cumulative_seq_num;
  selective_seq_num = reply.selective_seq_num;
  sent_time = time;
}

-- The answer to a packet of each type; a packet of unknown type has none.
pub answer : DataType → Receiver → DataPacket → Result (Receiver × Option AckPacket)
answer DataType.invalid r packet = ok (r, none)
answer DataType.handshake r packet = ok (r, some (handshake_ack packet.sent_time))
answer _ r packet = do
  (r, reply) ← receive_data_packet r packet
  ok (r, some (regular_ack reply packet.sent_time))

-- The ACK is laid out in the buffer of the packet, and sent once, or several times at the end.
unfoldable pub send_ack : Receiver → Option AckPacket → List ℕ → Result (Receiver × List (List ℕ))
send_ack r none buffer = ok (r, [])
send_ack r (some ack) buffer = do
  (buffer, size) ← fill_buffer_ack_packet ack buffer
  ok (r, replicate (if finished r then fin_ack_num else 1) (take size buffer))

-- One round of the loop, from a datagram on: the new receiver, and the datagrams that are sent.
unfoldable pub on_datagram : Receiver → List ℕ → Result (Receiver × List (List ℕ))
unfolding answer send_ack
on_datagram r received = do
  packet ← read_buffer_data_packet cleared_packet (receive_buffer received) (length received)
  (r, ack) ← answer packet.type r packet
  send_ack r ack (receive_buffer received)

-- `receiveDataReplyAck` over what `recvfrom` gives, until the transfer has finished or the list ends.
unfoldable pub receive_data_reply_ack :
    Receiver → List (Option (List ℕ)) → Result (Receiver × List (List ℕ))
receive_data_reply_ack r [] = ok (r, [])
receive_data_reply_ack r (none ∷ events) =
    let rest = receive_data_reply_ack r events in if finished r then ok (r, []) else rest
receive_data_reply_ack r (some received ∷ events) =
    let rest : Result (Receiver × List (List ℕ)) = (do
      (r', sent) ← on_datagram r received
      (r'', more) ← receive_data_reply_ack r' events
      ok (r'', sent ++ more)) in
    if finished r then ok (r, []) else rest
