-- ===== src/ReliableSender/Examples.antt =====
-- The threads of src/reliable_sender.cpp at concrete values.
use reliable_packet_transmis.Base.{
  List, [], ◌∷◌, ℕ, ◌≤◌, Result, fault, some, none, length, All, ◌≡◌, refl, [], ◌∷◌, ok, arith,
  replicate,
}
use reliable_packet_transmis.Packet.{
  data_packet_size, AckPacket, AckType, fill_buffer_data_packet, read_buffer_ack_packet,
}
use reliable_packet_transmis.Clock.{elapsed_us}
use reliable_packet_transmis.Receiver.Examples.{midnight}
use reliable_packet_transmis.ReliableSender.{
  initial_timeout_us, handshake_timeout_us, on_handshake_datagram,
}
use reliable_packet_transmis.ReliableSender.Handshake.{
  Reception, Round, greet, estimate, perform_handshake,
}
use reliable_packet_transmis.ReliableSender.Greeting.{HasRoom, IsHandshake, perform_handshake_lem}

-- The smallest of four round trips, and the limit where all are above it.
initial_timeouts :
    (initial_timeout_us 900 (700 ∷ 800 ∷ 750 ∷ []) ≡ 700) × (initial_timeout_us 90000 [] ≡ 60000)
unfolding initial_timeout_us
initial_timeouts = (refl, refl)

abbrev pub some_ack : AckPacket
some_ack = record {
  type = AckType.handshake;
  cumulative_seq_num = 0;
  selective_seq_num = 0;
  sent_time = midnight;
}

-- The ACK of a handshake of midnight, which arrives `us` microseconds later.
abbrev ack_after : ℕ → Reception
ack_after us = record {
  received = some (b'h' ∷ b's' ∷ replicate 24 0);
  h = record { tv_sec = 0; tv_usec = us };
  now2 = record { tv_sec = 0; tv_usec = us };
}

-- Two rounds: one in which only one ACK comes in time, and one in which the others come.
abbrev pub rounds : List Round
rounds =
    record {
      sent_time = midnight;
      now = midnight;
      buffer = replicate data_packet_size 0;
      placeholder = [];
      receptions =
          ack_after 900
          ∷ record { received = none; h = midnight; now2 = record { tv_sec = 0; tv_usec = 61000 } }
          ∷ ack_after 100
          ∷ [];
    }
    ∷ record {
      sent_time = midnight;
      now = midnight;
      buffer = replicate data_packet_size 0;
      placeholder = [];
      receptions = ack_after 700 ∷ ack_after 800 ∷ ack_after 100 ∷ [];
    }
    ∷ []

abbrev ok_times : Result (List ℕ × List (List ℕ)) → List ℕ × ℕ
ok_times (ok (times, sent)) = (times, length sent)
ok_times (fault why) = ([], 0)

-- Eight datagrams go out, and the ACKs after the time has passed or three were counted are ignored.
greet-rounds : ok_times (greet some_ack [] rounds) ≡ (900 ∷ 700 ∷ 800 ∷ [], 8)
unfolding greet fill_buffer_data_packet on_handshake_datagram read_buffer_ack_packet elapsed_us
greet-rounds = refl

pub rounds-HasRoom : All HasRoom rounds
rounds-HasRoom = (
  record { time_fits = omega arith; room = omega arith },
  (record { time_fits = omega arith; room = omega arith }, tt),
)

perform_handshake_example :
    (times : List ℕ) × (sent : List (List ℕ)) × (greet some_ack [] rounds ≡ ok (times, sent))
    × (perform_handshake some_ack rounds ≡ ok (estimate times, sent))
    × (length times ≤ 3)
    × All IsHandshake sent
    × ((timeout : ℕ)
        → estimate times ≡ some timeout
        → (timeout ≤ handshake_timeout_us) × All (λ time. timeout ≤ time) times)
perform_handshake_example = perform_handshake_lem some_ack rounds rounds-HasRoom
