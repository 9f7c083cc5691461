-- ===== src/ReliableSender/Handshake.antt =====
-- src/reliable_sender.cpp, `performHandshake`: the rounds of the handshake, over what `recvfrom` and
-- `gettimeofday` give in each of them.
use reliable_packet_transmis.Base.{
  ℕ, ltb, ◌==◌, if◌then◌else◌, List, [], ◌∷◌, ◌++◌, Option, none, some, Result, ok, ◌>>=◌, length,
  replicate, take,
}
use reliable_packet_transmis.Packet.{
  DataPacket, DataType, AckPacket, Timeval, fill_buffer_data_packet,
}
use reliable_packet_transmis.Clock.{elapsed_us}
use reliable_packet_transmis.ReliableSender.{
  handshake_num_at_a_time, handshake_duplicate, handshake_timeout_us, initial_timeout_us,
  on_handshake_datagram,
}

-- What one `recvfrom` gives, `none` for an error or a time-out, with the times read after it: `h`, and
-- `now2` for the test of the loop.
pub record Reception : Type 0 where
  pub received : Option (List ℕ)
  pub h : Timeval
  pub now2 : Timeval

-- What a round of the outer loop gets: the two times read before it waits, what the buffer and the
-- packet's `placeholder` hold, and what is received.
pub record Round : Type 0 where
  pub sent_time : Timeval
  pub now : Timeval
  pub buffer : List ℕ
  pub placeholder : List ℕ
  pub receptions : List Reception

abbrev pub handshake_packet : Round → DataPacket
handshake_packet round = record {
  type = DataType.handshake;
  seq_num = 0;
  sent_time = round.sent_time;
  data_size = 0;
  data_bytes = round.placeholder;
}

-- `initTimeoutUs[handshakeAckReceived] = elapsedUs`
abbrev pub collect : List ℕ → Option ℕ → List ℕ
collect times none = times
collect times (some time) = times ++ (time ∷ [])

unfoldable pub receive_time : AckPacket → Option (List ℕ) → Timeval → Result (Option ℕ)
receive_time old none h = ok none
receive_time old (some received) h = on_handshake_datagram old received h

-- The loop that waits for ACKs, until the time has passed, enough times are collected, or the list
-- ends: a list may be too short for the time to pass, so that more runs are allowed than the code has.
unfoldable pub wait_for_acks : AckPacket → Timeval → ℕ → List ℕ → List Reception → Result (List ℕ)
unfolding receive_time
wait_for_acks old now time_pass_us times [] = ok times
wait_for_acks old now time_pass_us times (reception ∷ receptions) =
    let body : Result (List ℕ) = (do
      time ← receive_time old reception.received reception.h
      let rest =
          wait_for_acks old now (elapsed_us now reception.now2) (collect times time) receptions
      if length (collect times time) == handshake_duplicate
          then ok (collect times time)
          else rest) in
    if ltb time_pass_us handshake_timeout_us then body else ok times

-- The outer loop: the times that are collected, and the datagrams that are sent.
unfoldable pub greet : AckPacket → List ℕ → List Round → Result (List ℕ × List (List ℕ))
unfolding wait_for_acks
greet old times [] = ok (times, [])
greet old times (round ∷ rounds) =
    let body : Result (List ℕ × List (List ℕ)) = (do
      (buffer, size) ← fill_buffer_data_packet (handshake_packet round) round.buffer
      times' ← wait_for_acks old round.now 0 times round.receptions
      (final, more) ← greet old times' rounds
      ok (final, replicate handshake_num_at_a_time (take size buffer) ++ more)) in
    if ltb (length times) handshake_duplicate then body else ok (times, [])

-- The estimate, once the times are there.
unfoldable pub estimate : List ℕ → Option ℕ
unfolding initial_timeout_us
estimate [] = none
estimate (first ∷ rest) =
    if length (first ∷ rest) == handshake_duplicate
    then some (initial_timeout_us first rest)
    else none

-- The handshake: the estimate of the round trip, `none` as long as it waits, and what is sent.
unfoldable pub perform_handshake : AckPacket → List Round → Result (Option ℕ × List (List ℕ))
unfolding greet
perform_handshake old rounds = do (times, sent) ← greet old [] rounds; ok (estimate times, sent)
