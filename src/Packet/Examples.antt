-- ===== src/Packet/Examples.antt =====
-- The packets of src/packet.c at concrete values.
use reliable_packet_transmis.Base.{
  ◌>>=◌, ◌≡◌, refl, [], ◌∷◌, ok, fault, assertion, replicate, take, arith,
}
use reliable_packet_transmis.Packet.{
  DataPacket, DataType, AckPacket, AckType, Timeval, fill_buffer_data_packet,
  read_buffer_data_packet, fill_buffer_ack_packet, read_buffer_ack_packet,
}
use reliable_packet_transmis.Packet.DataRoundTrip.{
  IsSendable, read_buffer_data_packet-fill_buffer_data_packet,
}
use reliable_packet_transmis.Packet.AckRoundTrip.{
  IsSendableAck, read_buffer_ack_packet-fill_buffer_ack_packet,
}

abbrev noon : Timeval
noon = record { tv_sec = 43200; tv_usec = 7 }

abbrev abc_packet : DataPacket
abc_packet = record {
  type = DataType.finish;
  seq_num = 258;
  sent_time = noon;
  data_size = 3;
  data_bytes = b'a' ∷ b'b' ∷ b'c' ∷ 0 ∷ [];
}

abbrev blank_packet : DataPacket
blank_packet = record {
  type = DataType.invalid;
  seq_num = 9;
  sent_time = noon;
  data_size = 9;
  data_bytes = [];
}

abbrev some_ack : AckPacket
some_ack = record {
  type = AckType.regular;
  cumulative_seq_num = 3;
  selective_seq_num = 70000;
  sent_time = noon;
}

abbrev blank_ack : AckPacket
blank_ack = record {
  type = AckType.invalid;
  cumulative_seq_num = 0;
  selective_seq_num = 0;
  sent_time = noon;
}

-- The bytes of a datagram, as the code lays them out.
abc_packet-bytes :
    fill_buffer_data_packet abc_packet (replicate 26 0)
    ≡ ok (
      b'f' ∷ b'i' ∷ 2 ∷ 1 ∷ 0 ∷ 0 ∷ 192 ∷ 168 ∷ 0 ∷ 0 ∷ 0 ∷ 0 ∷ 0 ∷ 0 ∷ 7 ∷ 0 ∷ 0 ∷ 0 ∷ 0 ∷ 0 ∷ 0
          ∷ 0 ∷ b'a' ∷ b'b' ∷ b'c' ∷ 0 ∷ [],
      25,
    )
unfolding fill_buffer_data_packet
abc_packet-bytes = refl

-- A datagram that is shorter than a header stops the process.
short_datagram : read_buffer_data_packet blank_packet (replicate 1472 0) 21 ≡ fault assertion
unfolding read_buffer_data_packet
short_datagram = refl

abc_packet-IsSendable : IsSendable abc_packet
abc_packet-IsSendable = record {
  known = λ e. cc;
  seq_fits = omega arith;
  time_fits = omega arith;
  in_memory = omega arith;
  in_datagram = omega arith;
}

some_ack-IsSendableAck : IsSendableAck some_ack
some_ack-IsSendableAck = record {
  known = λ e. cc;
  cumulative_fits = omega arith;
  selective_fits = omega arith;
  time_fits = omega arith;
}

data_round_trip_example :
    (fill_buffer_data_packet abc_packet (replicate 26 5) >>= λ out.
    read_buffer_data_packet blank_packet out.0 out.1)
    ≡ ok (record abc_packet { data_bytes = b'a' ∷ b'b' ∷ b'c' ∷ 5 ∷ [] })
data_round_trip_example =
    read_buffer_data_packet-fill_buffer_data_packet blank_packet abc_packet (replicate 26 5)
      abc_packet-IsSendable (omega arith)

ack_round_trip_example :
    (fill_buffer_ack_packet some_ack (replicate 1472 5) >>= λ out.
    read_buffer_ack_packet blank_ack (take out.1 out.0) out.1)
    ≡ ok some_ack
ack_round_trip_example =
    read_buffer_ack_packet-fill_buffer_ack_packet blank_ack some_ack (replicate 1472 5)
      some_ack-IsSendableAck (omega arith)
