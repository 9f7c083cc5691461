-- ===== src/Transfer/Examples.antt =====
-- A transfer of a file of three bytes, from its first packet to its last ACK.
use reliable_packet_transmis.Base.{
  ℕ, ◌≤◌, ◌<◌, ◌≡◌, refl, inl, true, false, List, [], ◌∷◌, ◌++◌, some, length, get_elem?, take,
  drop, replicate, ok, arith, Elem,
}
use reliable_packet_transmis.Packet.{
  fill_buffer_data_packet, read_buffer_data_packet, fill_buffer_ack_packet, read_buffer_ack_packet,
  DataPacket, AckPacket, AckType, Timeval, data_packet_size,
}
use reliable_packet_transmis.Packet.DataRoundTrip.{data_datagram}
use reliable_packet_transmis.Packet.AckRoundTrip.{ack_datagram}
use reliable_packet_transmis.Packet.Words.{FitsTimeval}
use reliable_packet_transmis.Receiver.{
  Receiver, new_items, receive_data_packet, init as receiver_init, finished as receiver_finished,
}
use reliable_packet_transmis.Receiver.Invariant.{IsInPlace}
use reliable_packet_transmis.Receiver.Examples.{midnight}
use reliable_packet_transmis.ReliableReceiver.{on_datagram}
use reliable_packet_transmis.Rtt
use reliable_packet_transmis.Clock.{elapsed_us}
use reliable_packet_transmis.Sender.Ack
use reliable_packet_transmis.Rtt.{ack_arrived, estimator_alpha, estimator_beta}
use reliable_packet_transmis.Sender.{
  Item, ItemState, FileSource, loaded_item, finished, has_data_to_send,
  prepare_data_packets_to_send, push_items, init, new_item, last_seq_num_of, last_size_of, uint_max,
}
use reliable_packet_transmis.Sender.Window.{IsFile}
use reliable_packet_transmis.ReliableSender.{Process, send_data, receive_ack, check_timeout, start}
use reliable_packet_transmis.Transfer.{
  System, sends, delivers, acknowledges, Reach, here, next, initial,
}
use reliable_packet_transmis.Transfer.Invariant.{Safe}
use reliable_packet_transmis.Transfer.Progress.{round_trip-advances}
use reliable_packet_transmis.Transfer.Safety.{start-Safe, no_fault, finished_reliably}
use reliable_packet_transmis.Transfer.Content.{
  packets_of, chunk_of, byte_at, content-IsFile, bytes-packets,
}
use reliable_packet_transmis.Transfer.Delivery.{file_delivered}

abbrev pub abc : List ℕ
abc = b'a' ∷ b'b' ∷ b'c' ∷ []

abbrev pub abc_source : FileSource
abc_source offset size = some (take size (drop offset abc))

abbrev pub only_item : ItemState → Item
only_item state = record (loaded_item 0 abc) { state = state }

abbrev pub begun : Process
begun = record {
  slide_window = record {
    bytes_to_send = 3;
    bytes_sent = 0;
    last_packet_seq_num = 0;
    last_packet_size = 3;
    fast_retransmission = true;
    last_ack = 0;
    last_ack_acked_count = 0;
    cur_congestion_window_timeouted = false;
    new_data_ready = true;
    slide_window_left_bound_seq_num = 0;
    slide_window = only_item ItemState.not_sent ∷ [];
    cur_congestion_window = 10;
    cur_congestion_threshold = uint_max;
    congestion_left_bound_seq_num = 10;
  };
  rtt_estimator = record {
    cur_timeout_us = 60000;
    cur_std_dev_us = 15000;
    alpha = estimator_alpha;
    beta = estimator_beta;
  };
}

start-begun : start abc_source 60000 3 ≡ ok begun
unfolding start init new_item push_items last_size_of Rtt.init
start-begun = refl

abbrev blank : List ℕ
blank = replicate data_packet_size 0

abbrev sent_process : Process
sent_process = record begun {
  slide_window = record (begun.slide_window) {
    new_data_ready = false;
    slide_window = only_item ItemState.sent ∷ [];
  };
}

abbrev abc_datagram : List ℕ
abc_datagram = b'f' ∷ b'i' ∷ (replicate 20 0 ++ abc)

send_data-begun : send_data begun midnight blank ≡ ok (sent_process, abc_datagram ∷ [])
unfolding send_data has_data_to_send prepare_data_packets_to_send fill_buffer_data_packet
send_data-begun = refl

abbrev full_receiver : Receiver
full_receiver = record {
  last_packet_seq_num_received = true;
  last_packet_seq_num = 0;
  next_expected_packet_seq_num = 1;
  cur_window_size = 200;
  slide_window = new_items 199 0 1 ++ new_items 1 1 199;
  writes = record { offset = 0; bytes = abc } ∷ [];
}

abbrev abc_ack : List ℕ
abc_ack = b'r' ∷ b'e' ∷ 1 ∷ replicate 23 0

on_datagram-abc : on_datagram receiver_init abc_datagram ≡ ok (full_receiver, replicate 4 abc_ack)
unfolding on_datagram receiver_init new_items read_buffer_data_packet receive_data_packet
    fill_buffer_ack_packet receiver_finished
on_datagram-abc = refl

abbrev old_ack : AckPacket
old_ack = record {
  type = AckType.invalid;
  cumulative_seq_num = 0;
  selective_seq_num = 0;
  sent_time = midnight;
}

abbrev ten_ms : Timeval
ten_ms = record { tv_sec = 0; tv_usec = 10000 }

abbrev acked_process : Process
acked_process = record {
  slide_window = record (sent_process.slide_window) {
    bytes_sent = 3;
    last_ack = 1;
    slide_window_left_bound_seq_num = 1;
    slide_window = [];
  };
  rtt_estimator = record (begun.rtt_estimator) { cur_timeout_us = 53750; cur_std_dev_us = 23750 };
}

receive_ack-abc : receive_ack abc_source sent_process old_ack abc_ack ten_ms ≡ ok acked_process
unfolding receive_ack read_buffer_ack_packet ack_arrived Ack.ack_arrived push_items elapsed_us
receive_ack-abc = refl

abbrev ended : System
ended = record {
  process = acked_process;
  receiver = full_receiver;
  to_receiver = abc_datagram ∷ [];
  to_sender = replicate 4 abc_ack;
}

run : Reach abc_source (initial begun) ended
run =
    next
      (next
        (next here (
          sends midnight blank sent_process (abc_datagram ∷ []) (omega arith) (omega arith)
            send_data-begun))
        (delivers abc_datagram full_receiver (replicate 4 abc_ack) (inl refl) on_datagram-abc))
      (acknowledges abc_ack old_ack ten_ms acked_process (inl refl) receive_ack-abc)

file_delivered_example :
    (receiver_finished full_receiver ≡ true)
    × ((pos : ℕ) → byte_at full_receiver.writes pos ≡ get_elem? (take 3 abc) pos)
unfolding finished
file_delivered_example =
    file_delivered abc_source abc 60000 3 begun ended (λ offset size. refl) (omega arith)
      (omega arith) (omega arith) start-begun run refl

abbrev total : ℕ
total = packets_of 3

abbrev chunk : ℕ → List ℕ
chunk = chunk_of abc 3

abc-IsFile : IsFile abc_source total (last_size_of 3) chunk
abc-IsFile =
    content-IsFile abc 3 (omega arith) (omega arith) (omega arith) abc_source (λ offset size. refl)

begun-Safe : Safe total (last_size_of 3) chunk (initial begun)
begun-Safe =
    start-Safe abc_source total (last_size_of 3) chunk abc-IsFile 60000 3 begun refl refl
      (bytes-packets abc 3 (omega arith) (omega arith) (omega arith)) start-begun

finished_reliably_example :
    (receiver_finished full_receiver ≡ true) × IsInPlace total chunk full_receiver.writes
unfolding finished last_seq_num_of
finished_reliably_example =
    finished_reliably abc_source total (last_size_of 3) chunk abc-IsFile begun-Safe run
      (omega arith) refl

no_fault_example :
    ((now : Timeval) (buffer : List ℕ)
      → FitsTimeval now
      → data_packet_size ≤ length buffer
      → (out : Process × List (List ℕ)) × (send_data acked_process now buffer ≡ ok out))
    × ((datagram : List ℕ)
        → Elem datagram ended.to_receiver
        → (out : Receiver × List (List ℕ)) × (on_datagram full_receiver datagram ≡ ok out))
    × ((datagram : List ℕ) (old : AckPacket) (now : Timeval)
        → Elem datagram ended.to_sender
        → (p : Process) × (receive_ack abc_source acked_process old datagram now ≡ ok p))
no_fault_example = no_fault abc_source total (last_size_of 3) chunk abc-IsFile begun-Safe run

round_trip-advances_example :
    (p₂ : Process) × (sent : List (List ℕ)) × (packet : DataPacket) × (r' : Receiver) × (acks : List
      (List ℕ))
    × (ack : AckPacket) × (p₃ : Process) × (send_data
          (check_timeout begun midnight).0
          midnight
          blank
        ≡ ok (p₂, sent))
    × (packet.seq_num ≡ 0)
    × Elem (data_datagram packet) sent
    × (on_datagram receiver_init (data_datagram packet) ≡ ok (r', acks))
    × Elem (ack_datagram ack) acks
    × (receive_ack abc_source p₂ old_ack (ack_datagram ack) ten_ms ≡ ok p₃)
    × (0 < p₃.slide_window.slide_window_left_bound_seq_num)
    × Safe total
        (last_size_of 3)
        chunk
        (record { process = p₃; receiver = r'; to_receiver = sent ++ []; to_sender = acks ++ [] })
unfolding finished
round_trip-advances_example =
    round_trip-advances abc_source total (last_size_of 3) chunk abc-IsFile (initial begun)
      begun-Safe midnight midnight blank (only_item ItemState.not_sent) (omega arith) (omega arith)
      refl refl refl old_ack ten_ms
