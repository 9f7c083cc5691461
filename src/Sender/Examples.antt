-- ===== src/Sender/Examples.antt =====
-- The sender of src/slideWindowSender.cpp at concrete values: a file of three packets, of which every
-- `read` gives one byte.
use reliable_packet_transmis.Base.{
  Elem, ℕ, ◌||◌, ◌==◌, false, ◌+◌, ◌/◌, ap, ◌≤◌, ◌≡◌, ◌&&◌, not, refl, true, false, if◌then◌else◌,
  [], ◌∷◌, map, some, length, arith, All, ok, mul32,
}
use mathlib.Core.Bool.{false≢true}
use reliable_packet_transmis.Packet.{DataPacket, AckPacket, AckType, Timeval, data_packet_data_size}
use reliable_packet_transmis.Receiver.Examples.{three_bytes, midnight}
use reliable_packet_transmis.Sender.{
  Sender, Item, ItemState, FileSource, loaded_item, init, finished, has_data_to_send, has_pending,
  prepare_data_packets_to_send, last_seq_num_of, last_size_of, uint_max, congestion_window_min,
  shrunk_threshold,
}
use reliable_packet_transmis.Sender.Ack.{ack_arrived}
use reliable_packet_transmis.Sender.Timeout.{is_late, check_timeout}
use reliable_packet_transmis.Sender.Progress.{awaited_packet-resent}
use reliable_packet_transmis.Sender.Debug.{
  debug_prepare_data_packets_to_send, debug_check_timeout, debug_ack_arrived,
}
use reliable_packet_transmis.Sender.FastRetransmit.{second_repetition-resent}
use reliable_packet_transmis.Sender.Release.{debug-release}
use reliable_packet_transmis.Clock.{elapsed_us}
use reliable_packet_transmis.Sender.Window.{IsFile, IsLoaded}
use reliable_packet_transmis.Sender.Invariant.{IsValid}
use reliable_packet_transmis.Sender.Arrival.{ack_arrived_lem, SameSpan}
use reliable_packet_transmis.Sender.Sending.{prepare_data_packets_to_send_lem, pending_seqs, IsSent}
use reliable_packet_transmis.Sender.Expiry.{check_timeout_lem, any_late, expired}
use reliable_packet_transmis.Sender.Start.{init_lem}

-- Packet `k` is the byte 65 + k.
abbrev pub three_packets : FileSource
three_packets offset size = some ((65 + offset / data_packet_data_size) ∷ [])

pub three_packets-IsFile : IsFile three_packets 3 1 three_bytes
three_packets-IsFile = record {
  not_empty = omega arith;
  small = omega arith;
  reads = λ k h.
      let e : mul32 k data_packet_data_size / data_packet_data_size ≡ k = omega arith in
      ap (λ k. some ((65 + k) ∷ [])) e;
  chunk_positive = λ k h. omega arith;
  chunk_fits = λ k. omega arith;
}

abbrev pub item_at : ℕ → ItemState → Item
item_at k state = record (loaded_item k (three_bytes k)) {
  state = state;
  last_sent_time = midnight;
}

-- All three packets are under way, after some repetitions of the last ACK.
abbrev under_way_after : ℕ → Sender
under_way_after repetitions = record {
  bytes_to_send = 3;
  bytes_sent = 0;
  last_packet_seq_num = 2;
  last_packet_size = 1;
  fast_retransmission = true;
  last_ack = 0;
  last_ack_acked_count = repetitions;
  cur_congestion_window_timeouted = false;
  new_data_ready = false;
  slide_window_left_bound_seq_num = 0;
  slide_window =
      item_at 0 ItemState.sent ∷ item_at 1 ItemState.sent ∷ item_at 2 ItemState.sent ∷ [];
  cur_congestion_window = 10;
  cur_congestion_threshold = uint_max;
  congestion_left_bound_seq_num = 10;
}

abbrev pub under_way : Sender
under_way = under_way_after 0

item_at-IsLoaded : (k : ℕ) (state : ItemState) → IsLoaded three_bytes k (item_at k state)
item_at-IsLoaded k state = record {
  numbered = refl;
  sized = refl;
  holds = refl;
  in_memory = omega arith;
}

-- The first two have been sent, the third waits.
abbrev pub one_waits : Sender
one_waits = record under_way {
  new_data_ready = true;
  slide_window =
      item_at 0 ItemState.sent ∷ item_at 1 ItemState.timeout ∷ item_at 2 ItemState.not_sent ∷ [];
}

under_way_after-IsValid : (repetitions : ℕ) → IsValid 3 1 three_bytes (under_way_after repetitions)
unfolding has_pending
under_way_after-IsValid repetitions = record {
  holds = record {
    last = refl;
    last_sized = refl;
    carries = (
      item_at-IsLoaded 0 ItemState.sent,
      (item_at-IsLoaded 1 ItemState.sent, (item_at-IsLoaded 2 ItemState.sent, tt)),
    );
    in_file = omega arith;
    sent = refl;
    to_send = refl;
    paced = omega arith;
  };
  filled = omega arith;
  ready = λ e. absurd (false≢true e);
}

pub under_way-IsValid : IsValid 3 1 three_bytes under_way
under_way-IsValid = under_way_after-IsValid 0

pub one_waits-IsValid : IsValid 3 1 three_bytes one_waits
one_waits-IsValid = record {
  holds = record {
    last = refl;
    last_sized = refl;
    carries = (
      item_at-IsLoaded 0 ItemState.sent,
      (item_at-IsLoaded 1 ItemState.timeout, (item_at-IsLoaded 2 ItemState.not_sent, tt)),
    );
    in_file = omega arith;
    sent = refl;
    to_send = refl;
    paced = omega arith;
  };
  filled = omega arith;
  ready = λ _. refl;
}

-- Both ACK numbers of a packet received: all below 2, and number 1.
abbrev ack_two : AckPacket
ack_two = record {
  type = AckType.regular;
  cumulative_seq_num = 2;
  selective_seq_num = 1;
  sent_time = midnight;
}

abbrev later : Timeval
later = record { tv_sec = 0; tv_usec = 70000 }

ack_arrived_example :
    (s' : Sender) × (ack_arrived three_packets under_way ack_two ≡ ok s')
    × IsValid 3 1 three_bytes s'
    × (s'.slide_window_left_bound_seq_num ≡ 2)
    × (3 ≤ s'.slide_window_left_bound_seq_num + length s'.slide_window)
ack_arrived_example =
    ack_arrived_lem three_packets 3 1 three_bytes three_packets-IsFile under_way ack_two
      under_way-IsValid (omega arith)

prepare_data_packets_to_send_example :
    let (s', packets) = prepare_data_packets_to_send one_waits later in
    IsValid 3 1 three_bytes s'
    × (has_pending s'.cur_congestion_window s'.slide_window ≡ false)
    × (s'.new_data_ready ≡ false)
    × SameSpan one_waits s'
    × (map (λ (p : DataPacket). p.seq_num) packets ≡ 1 ∷ 2 ∷ [])
    × All (IsSent 3 three_bytes 3) packets
unfolding pending_seqs
prepare_data_packets_to_send_example =
    prepare_data_packets_to_send_lem three_packets 3 1 three_bytes three_packets-IsFile one_waits
      later (omega arith) one_waits-IsValid

check_timeout_example :
    let s' = check_timeout under_way 60000 later in
    let late = any_late 60000 later under_way.slide_window in
    IsValid 3 1 three_bytes s'
    × (s'.slide_window_left_bound_seq_num ≡ 0)
    × (s'.slide_window ≡ map (expired 60000 later) under_way.slide_window)
    × (s'.cur_congestion_window ≡ (if late && not false then congestion_window_min else 10))
check_timeout_example =
    check_timeout_lem 3 1 three_bytes (omega arith) under_way 60000 later under_way-IsValid

-- A file of three bytes: one packet.
abbrev abc_file : FileSource
abc_file offset size = some (65 ∷ 66 ∷ 67 ∷ [])

abc_file-IsFile : IsFile abc_file 1 3 (λ k. 65 ∷ 66 ∷ 67 ∷ [])
abc_file-IsFile = record {
  not_empty = omega arith;
  small = omega arith;
  reads = λ k h. refl;
  chunk_positive = λ k h. omega arith;
  chunk_fits = λ k. omega arith;
}

init_example :
    (s : Sender) × (init abc_file 3 true ≡ ok s)
    × IsValid 1 3 (λ k. 65 ∷ 66 ∷ 67 ∷ []) s
    × (s.slide_window_left_bound_seq_num ≡ 0)
unfolding last_seq_num_of last_size_of
init_example = init_lem abc_file 1 3 (λ k. 65 ∷ 66 ∷ 67 ∷ []) abc_file-IsFile 3 true refl refl refl

awaited_packet-resent_example :
    let s' = check_timeout under_way 60000 later in
    (has_data_to_send s' ≡ true)
    × Elem 0 (map (λ (p : DataPacket). p.seq_num) (prepare_data_packets_to_send s' later).1)
unfolding finished is_late elapsed_us
awaited_packet-resent_example =
    awaited_packet-resent three_packets 3 1 three_bytes three_packets-IsFile under_way
      under_way-IsValid 60000 later later (item_at 0 ItemState.sent) (omega arith) refl refl refl

debug-release_example :
    (debug_prepare_data_packets_to_send one_waits later
      ≡ ok (prepare_data_packets_to_send one_waits later))
    × (debug_check_timeout one_waits 60000 later ≡ ok (check_timeout one_waits 60000 later))
    × (debug_ack_arrived three_packets one_waits ack_two
        ≡ ack_arrived three_packets one_waits ack_two)
debug-release_example =
    debug-release three_packets 3 1 three_bytes three_packets-IsFile one_waits one_waits-IsValid
      later 60000 ack_two (omega arith)

-- The ACK of nothing comes again, with the number of a packet that was received out of order.
abbrev still_waiting : AckPacket
still_waiting = record ack_two { cumulative_seq_num = 0; selective_seq_num = 2 }

second_repetition-resent_example :
    (s' : Sender) × (ack_arrived three_packets (under_way_after 1) still_waiting ≡ ok s')
    × ((false || s'.cur_congestion_window == shrunk_threshold 10) ≡ true)
    × Elem 0 (map (λ (p : DataPacket). p.seq_num) (prepare_data_packets_to_send s' later).1)
second_repetition-resent_example =
    second_repetition-resent three_packets 3 1 three_bytes three_packets-IsFile (under_way_after 1)
      still_waiting (item_at 0 ItemState.sent)
      (item_at 1 ItemState.sent ∷ item_at 2 ItemState.sent ∷ []) later (under_way_after-IsValid 1)
      (omega arith) (omega arith) refl refl refl refl refl refl
