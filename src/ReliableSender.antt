-- ===== src/ReliableSender.antt =====
-- src/reliable_sender.cpp: the handshake, and what each thread of the sender does in a round. What
-- `recvfrom` gives and the times that `gettimeofday` gives are arguments; what goes to `sendto` is a
-- result.
pub mod Datagrams
pub mod Handshake
pub mod Greeting
pub mod Threads
pub mod Receptions
pub mod Wakeup
pub mod Hung
pub mod LostWakeup
pub mod Burst
pub mod Setup
pub mod Closing
pub mod InvalidHost
pub mod Deletion
pub mod ThreadExamples
pub mod Schedule
pub mod Sound
pub mod SoundRuns
pub mod Examples
use reliable_packet_transmis.Base.{
  ℕ, zero, suc, ◌+◌, ◌-◌, ◌*◌, ◌/◌, Bool, true, false, ltb, ◌==◌, ◌||◌, not, if◌then◌else◌, List,
  [], ◌∷◌, ◌++◌, Option, none, some, Result, ok, fault, ◌>>=◌, length, replicate, take,
}
use reliable_packet_transmis.Packet.{
  DataPacket, DataType, AckPacket, AckType, Timeval, read_buffer_ack_packet,
  fill_buffer_data_packet, data_packet_size, ack_packet_size,
}
use reliable_packet_transmis.Clock.{elapsed_us}
use reliable_packet_transmis.Rtt
use reliable_packet_transmis.Rtt.{
  RttEstimator, estimator_alpha, estimator_beta, get_current_timeout_us,
}
use reliable_packet_transmis.Sender
use reliable_packet_transmis.Sender.{
  Sender, FileSource, finished, has_data_to_send, prepare_data_packets_to_send,
}
use reliable_packet_transmis.Sender.Ack
use reliable_packet_transmis.Sender.Timeout

abbrev pub handshake_num_at_a_time : ℕ
handshake_num_at_a_time = 4

abbrev pub handshake_duplicate : ℕ
handshake_duplicate = 3

abbrev pub handshake_timeout_us : ℕ
handshake_timeout_us = 60 * 1000

-- The objects that the threads share.
pub record Process : Type 0 where
  pub slide_window : Sender
  pub rtt_estimator : RttEstimator

-- The smallest of the collected times, and no more than the fixed limit.
pub smallest : ℕ → List ℕ → ℕ
smallest least [] = if ltb handshake_timeout_us least then handshake_timeout_us else least
smallest least (x ∷ xs) = smallest (if ltb x least then x else least) xs

unfoldable pub initial_timeout_us : ℕ → List ℕ → ℕ
unfolding smallest
initial_timeout_us first rest = smallest first rest

-- The round trip that a datagram shows, if it is the ACK of a handshake.
pub handshake_sample : AckType → AckPacket → Timeval → Option ℕ
handshake_sample AckType.handshake ack now = some (elapsed_us ack.sent_time now)
handshake_sample _ ack now = none

unfoldable pub on_handshake_datagram : AckPacket → List ℕ → Timeval → Result (Option ℕ)
unfolding handshake_sample
on_handshake_datagram old received now =
    if length received == ack_packet_size
    then (do
      ack ← read_buffer_ack_packet old received (length received)
      ok (handshake_sample ack.type ack now))
    else ok none

-- The packets of one round, each laid out in the same buffer and sent as a datagram.
unfoldable pub send_packets : List ℕ → List DataPacket → Result (List (List ℕ))
send_packets buffer [] = ok []
send_packets buffer (packet ∷ packets) = do
  (buffer, size) ← fill_buffer_data_packet packet buffer
  rest ← send_packets buffer packets
  ok (take size buffer ∷ rest)

-- One round of `sendData`: it sends if there is data to send.
unfoldable pub send_data : Process → Timeval → List ℕ → Result (Process × List (List ℕ))
unfolding send_packets
send_data p now buffer =
    if has_data_to_send p.slide_window
    then (do
      let (s, packets) = prepare_data_packets_to_send p.slide_window now
      sent ← send_packets buffer packets
      ok (record p { slide_window = s }, sent))
    else ok (p, [])

-- A regular ACK goes to the estimator, then to the window; any other is dropped.
unfoldable pub handle_ack : AckType → FileSource → Process → AckPacket → Timeval → Result Process
handle_ack AckType.regular source p ack now = do
  e ← Rtt.ack_arrived p.rtt_estimator ack now
  s ← Ack.ack_arrived source p.slide_window ack
  ok (record { slide_window = s; rtt_estimator = e })
handle_ack _ source p ack now = ok p

-- One round of `receiveAck`, from a datagram on. `old` is what the thread's struct held.
unfoldable pub receive_ack : FileSource → Process → AckPacket → List ℕ → Timeval → Result Process
unfolding handle_ack
receive_ack source p old received now =
    if length received == ack_packet_size
    then (do
      ack ← read_buffer_ack_packet old received (length received)
      handle_ack ack.type source p ack now)
    else ok p

-- Whether that round wakes the sending thread.
unfoldable pub ack_notifies : Process → Bool
ack_notifies p = has_data_to_send p.slide_window || finished p.slide_window

-- One round of `checkTimeout`: the new state, whether it wakes the sending thread, and how long the
-- thread then sleeps.
unfoldable pub check_timeout : Process → Timeval → Process × Bool × ℕ
check_timeout p now =
    let threshold = get_current_timeout_us p.rtt_estimator in
    let s = Timeout.check_timeout p.slide_window threshold now in
    (record p { slide_window = s }, has_data_to_send s, threshold / 2)

-- The start of `reliablyTransfer`, from the handshake's result on.
unfoldable pub start : FileSource → ℕ → ℕ → Result Process
start source init_timeout_us bytes_to_send = do
  s ← Sender.init source bytes_to_send true
  ok (record {
    slide_window = s;
    rtt_estimator = Rtt.init init_timeout_us estimator_alpha estimator_beta;
  })
