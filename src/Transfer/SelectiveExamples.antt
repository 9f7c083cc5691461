-- ===== src/Transfer/SelectiveExamples.antt =====
-- The last of three packets arrives first, and its selective ACK reaches the sender.
use reliable_packet_transmis.Base.{
  sym, ◌∙◌, ℕ, ◌≡◌, refl, inl, inr, true, List, [], ◌∷◌, ◌++◌, set, ok, replicate, arith, All, Elem,
}
use mathlib.Core.Bool.{false≢true}
use reliable_packet_transmis.Packet.{
  AckPacket, AckType, read_buffer_data_packet, word_bytes, timeval_bytes, fill_buffer_ack_packet,
  read_buffer_ack_packet,
}
use reliable_packet_transmis.Clock.{elapsed_us}
use reliable_packet_transmis.Rtt
use reliable_packet_transmis.Sender.Ack
use reliable_packet_transmis.Packet.DataRoundTrip.{data_datagram}
use reliable_packet_transmis.Receiver.{
  Receiver, ItemState, new_items, init, receive_data_packet, finished,
}
use reliable_packet_transmis.Receiver.Invariant.{has, chunk_write}
use reliable_packet_transmis.Receiver.Receive.{init-IsValid}
use reliable_packet_transmis.Receiver.Examples.{three_bytes, midnight, finish-IsPacketOf}
use reliable_packet_transmis.ReliableReceiver.{on_datagram}
use reliable_packet_transmis.ReliableReceiver.Examples.{finish, finish-IsSendable}
use reliable_packet_transmis.Rtt.{RttEstimator, estimator_alpha, estimator_beta}
use reliable_packet_transmis.Sender as SlidingSender
use reliable_packet_transmis.Sender.{Item, push_items}
use reliable_packet_transmis.Sender.Examples.{
  three_packets, three_packets-IsFile, item_at, under_way, under_way-IsValid,
}
use reliable_packet_transmis.ReliableSender.{Process, receive_ack}
use reliable_packet_transmis.Transfer.{System, delivers, acknowledges, Reach, here, next}
use reliable_packet_transmis.Transfer.Invariant.{Safe}
use reliable_packet_transmis.Transfer.Sacked.{Sacked}
use reliable_packet_transmis.Transfer.Selective.{selectively_acknowledged-received}

abbrev estimator : RttEstimator
estimator = record {
  cur_timeout_us = 60000;
  cur_std_dev_us = 15000;
  alpha = estimator_alpha;
  beta = estimator_beta;
}

-- All three packets are under way; the first two are lost.
abbrev sent_system : System
sent_system = record {
  process = record { slide_window = under_way; rtt_estimator = estimator };
  receiver = init;
  to_receiver = data_datagram finish ∷ [];
  to_sender = [];
}

sent_system-Safe : Safe 3 1 three_bytes sent_system
sent_system-Safe = record {
  sender = under_way-IsValid;
  receiver = (init-IsValid 3 three_bytes).0;
  data_wire = (
    record {
      packet = finish;
      laid_out = refl;
      sendable = finish-IsSendable;
      kind = inr (record {
        of_file = finish-IsPacketOf;
        sendable = finish-IsSendable;
        below = omega arith;
      });
    },
    tt,
  );
  ack_wire = tt;
  behind = omega arith;
  ahead = λ k got. absurd (false≢true (sym ((init-IsValid 3 three_bytes).1 k) ∙ got));
}

sent_system-Sacked : Sacked sent_system
sent_system-Sacked = record {
  items = ((λ e. absurd cc), ((λ e. absurd cc), ((λ e. absurd cc), tt)));
  wire = tt;
}

abbrev gap : Receiver
gap = record {
  last_packet_seq_num_received = true;
  last_packet_seq_num = 2;
  next_expected_packet_seq_num = 0;
  cur_window_size = 200;
  slide_window =
      set (new_items 200 0 0) 2 (record { seq_num = 2; state = ItemState.received }) ++ [];
  writes = record { offset = 2900; bytes = 67 ∷ [] } ∷ [];
}

abbrev gap_ack : List ℕ
gap_ack = b'r' ∷ b'e' ∷ 0 ∷ 0 ∷ 0 ∷ 0 ∷ 2 ∷ replicate 19 0

on_datagram-finish : on_datagram init (data_datagram finish) ≡ ok (gap, gap_ack ∷ [])
unfolding on_datagram init new_items data_datagram read_buffer_data_packet word_bytes timeval_bytes
    receive_data_packet fill_buffer_ack_packet finished
on_datagram-finish = refl

abbrev old_ack : AckPacket
old_ack = record {
  type = AckType.invalid;
  cumulative_seq_num = 0;
  selective_seq_num = 0;
  sent_time = midnight;
}

abbrev one_acked : Process
one_acked = record {
  slide_window = record under_way {
    last_ack_acked_count = 1;
    slide_window =
        item_at 0 SlidingSender.ItemState.sent
        ∷ item_at 1 SlidingSender.ItemState.sent
        ∷ item_at 2 SlidingSender.ItemState.acked
        ∷ [];
  };
  rtt_estimator = record estimator { cur_timeout_us = 53750; cur_std_dev_us = 23750 };
}

receive_ack-gap :
    receive_ack three_packets
      (sent_system.process)
      old_ack
      gap_ack
      (record { tv_sec = 0; tv_usec = 10000 })
    ≡ ok one_acked
unfolding receive_ack read_buffer_ack_packet Rtt.ack_arrived Ack.ack_arrived push_items elapsed_us
receive_ack-gap = refl

abbrev acked_system : System
acked_system = record {
  process = one_acked;
  receiver = gap;
  to_receiver = data_datagram finish ∷ [];
  to_sender = gap_ack ∷ [];
}

run : Reach three_packets sent_system acked_system
run =
    next
      (next here (delivers (data_datagram finish) gap (gap_ack ∷ []) (inl refl) on_datagram-finish))
      (acknowledges gap_ack old_ack (record { tv_sec = 0; tv_usec = 10000 }) one_acked (inl refl)
        receive_ack-gap)

selectively_acknowledged-received_example :
    All
      (λ (x : Item).
        x.state ≡ SlidingSender.ItemState.acked
        → (has gap x.seq_num ≡ true) × Elem (chunk_write three_bytes x.seq_num) gap.writes)
      one_acked.slide_window.slide_window
selectively_acknowledged-received_example =
    selectively_acknowledged-received three_packets 3 1 three_bytes three_packets-IsFile
      sent_system-Safe sent_system-Sacked run
