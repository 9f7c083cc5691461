-- ===== src/ReliableSender/ThreadExamples.antt =====
-- The threads of src/reliable_sender.cpp at concrete values: a file of three packets.
use reliable_packet_transmis.Base.{
  ◌≡◌, refl, true, false, List, [], ◌∷◌, ◌++◌, map, some, none, replicate, Elem, ok, fault,
  dangling, All, arith,
}
use reliable_packet_transmis.Packet.{
  DataPacket, DataType, AckPacket, AckType, Timeval, data_packet_size, read_buffer_ack_packet,
}
use reliable_packet_transmis.Packet.DataRoundTrip.{data_datagram}
use reliable_packet_transmis.Packet.AckRoundTrip.{IsSendableAck, ack_datagram}
use reliable_packet_transmis.Clock.{elapsed_us}
use reliable_packet_transmis.Rtt
use reliable_packet_transmis.Receiver.Examples.{three_bytes, midnight, packet_at}
use reliable_packet_transmis.Sender.{
  push_items, Sender, ItemState, finished, has_data_to_send, prepare_data_packets_to_send,
  prepare_items, packet_of,
}
use reliable_packet_transmis.Sender.Ack
use reliable_packet_transmis.Sender.Invariant.{IsValid}
use reliable_packet_transmis.Sender.Sending.{IsSent, pending_seqs}
use reliable_packet_transmis.Sender.Timeout.{is_late}
use reliable_packet_transmis.Sender.Examples.{
  three_packets, three_packets-IsFile, item_at, under_way, under_way-IsValid, one_waits,
  one_waits-IsValid,
}
use reliable_packet_transmis.ReliableSender.{Process, check_timeout}
use reliable_packet_transmis.ReliableSender.Threads.{
  Sending, Receiving, Timing, Threads, Action, started, run, perform,
}
use reliable_packet_transmis.ReliableSender.Schedule.{IsSchedule}
use reliable_packet_transmis.ReliableSender.Wakeup.{sleeping, sleeping_sender-woken}
use reliable_packet_transmis.ReliableSender.Hung.{IsHung}
use reliable_packet_transmis.ReliableSender.LostWakeup.{drowsy, too_early, lost_wakeup}
use reliable_packet_transmis.ReliableSender.Burst.{burst_lem}
use reliable_packet_transmis.ReliableSender.Deletion.{in_burst, deleted_while_sent}
use reliable_packet_transmis.ReliableSender.SoundRuns.{done-acknowledged}

abbrev process : Sender → Process
process s = record {
  slide_window = s;
  rtt_estimator = Rtt.init 10000 Rtt.estimator_alpha Rtt.estimator_beta;
}

abbrev later : Timeval
later = record { tv_sec = 0; tv_usec = 70000 }

abbrev listeners : List Receiving
listeners = Receiving.listening ∷ Receiving.listening ∷ []

-- The ACK of all three packets.
abbrev last_ack : AckPacket
last_ack = record {
  type = AckType.regular;
  cumulative_seq_num = 3;
  selective_seq_num = 2;
  sent_time = midnight;
}

last_ack-IsSendableAck : IsSendableAck last_ack
last_ack-IsSendableAck = record {
  known = λ e. cc;
  cumulative_fits = omega arith;
  selective_fits = omega arith;
  time_fits = omega arith;
}

sleeping_sender-woken_example :
    let p' = (check_timeout (process under_way) later).0 in
    (run three_packets
        (Action.time later
          ∷ Action.time later
          ∷ Action.time later
          ∷ Action.time later
          ∷ Action.time later
          ∷ [])
        (sleeping (process under_way) listeners Timing.testing)
      ≡ ok (record (sleeping p' listeners Timing.testing) { sender = Sending.asking }, []))
    × (has_data_to_send p'.slide_window ≡ true)
    × Elem 0
        (map (λ (d : DataPacket). d.seq_num) (prepare_data_packets_to_send p'.slide_window later).1)
unfolding finished is_late elapsed_us Rtt.get_current_timeout_us Rtt.init
sleeping_sender-woken_example =
    sleeping_sender-woken three_packets 3 1 three_bytes three_packets-IsFile (process under_way)
      listeners later later later later later later (item_at 0 ItemState.sent) under_way-IsValid
      (omega arith) refl refl refl

-- The window when all three packets are acknowledged.
abbrev all_acked : Sender
all_acked = record under_way {
  bytes_sent = 3;
  last_ack = 3;
  last_ack_acked_count = 0;
  slide_window_left_bound_seq_num = 3;
  slide_window = [];
}

all_acked_lem : Ack.ack_arrived three_packets under_way last_ack ≡ ok all_acked
unfolding Ack.ack_arrived Ack.selective Ack.fast_retransmit Ack.cumulate Ack.advance Ack.pop_items
    Ack.grow Ack.pace Ack.fill Ack.count_duplicate push_items
all_acked_lem = refl

lost_wakeup_example :
    (t' : Threads) × (run three_packets
        (too_early last_ack last_ack later []
          ++ (Action.time later ∷ Action.receive 1 last_ack none later ∷ Action.time later ∷ []))
        (drowsy (process under_way))
      ≡ ok (t', []))
    × IsHung t'
unfolding finished
lost_wakeup_example =
    lost_wakeup three_packets (process under_way) all_acked last_ack last_ack later []
      last_ack-IsSendableAck refl all_acked_lem refl
      (Action.time later ∷ Action.receive 1 last_ack none later ∷ Action.time later ∷ [])
      (tt, (tt, (tt, tt)))

burst_example :
    (t' : Threads) × (packets : List DataPacket) × (run three_packets
        (replicate 5 (Action.send later (replicate data_packet_size 0)))
        (record (started (process one_waits)) { sender = Sending.bursting })
      ≡ ok (t', map data_datagram packets))
    × (map (λ (p : DataPacket). p.seq_num) packets ≡ 1 ∷ 2 ∷ [])
    × All (IsSent 3 three_bytes 3) packets
    × IsValid 3 1 three_bytes t'.process.slide_window
    × (has_data_to_send t'.process.slide_window ≡ false)
    × (t'.sender ≡ Sending.bursting)
unfolding has_data_to_send pending_seqs
burst_example =
    burst_lem three_packets 3 1 three_bytes three_packets-IsFile (started (process one_waits)) later
      (replicate data_packet_size 0) one_waits-IsValid (omega arith) (omega arith) refl

deleted_while_sent_example :
    run three_packets
      (Action.receive 0 last_ack (some (ack_datagram last_ack)) later
        ∷ Action.receive 0 last_ack none later
        ∷ Action.send later []
        ∷ [])
      (in_burst (process under_way) (packet_at DataType.regular 1 ∷ []))
    ≡ fault dangling
deleted_while_sent_example =
    deleted_while_sent three_packets 3 1 three_bytes three_packets-IsFile (process under_way)
      (packet_at DataType.regular 1) [] last_ack last_ack later later [] under_way-IsValid
      last_ack-IsSendableAck refl (omega arith) (omega arith)

-- The ACK of all three packets comes, and then `sendData` tests whether the transfer has finished.
abbrev short_run : List Action
short_run =
    Action.receive 0 last_ack none later
    ∷ Action.receive 0 last_ack (some (b'r' ∷ b'e' ∷ 3 ∷ 0 ∷ 0 ∷ 0 ∷ 2 ∷ replicate 19 0)) later
    ∷ Action.receive 0 last_ack none later
    ∷ Action.send later (replicate data_packet_size 0)
    ∷ []

short_run-IsSchedule : IsSchedule three_packets short_run (started (process under_way))
unfolding perform read_buffer_ack_packet Rtt.ack_arrived Rtt.sample elapsed_us Rtt.init finished
    Ack.ack_arrived Ack.selective Ack.fast_retransmit Ack.cumulate Ack.advance Ack.pop_items
    Ack.grow Ack.pace Ack.fill Ack.count_duplicate push_items
short_run-IsSchedule = (tt, (tt, (omega arith, ((omega arith, omega arith), tt))))

-- The threads after it.
abbrev over : Threads
over =
    record (started (record {
      slide_window = all_acked;
      rtt_estimator = record (Rtt.init 10000 Rtt.estimator_alpha Rtt.estimator_beta) {
        cur_timeout_us = 17500;
        cur_std_dev_us = 16875;
      };
    })) {
      sender = Sending.stopped;
      receivers = Receiving.deciding ∷ Receiving.testing ∷ [];
      done = true;
    }

short_run-over : run three_packets short_run (started (process under_way)) ≡ ok (over, [])
unfolding run read_buffer_ack_packet Rtt.ack_arrived Rtt.sample elapsed_us Rtt.init finished
    Ack.ack_arrived Ack.selective Ack.fast_retransmit Ack.cumulate Ack.advance Ack.pop_items
    Ack.grow Ack.pace Ack.fill Ack.count_duplicate push_items
short_run-over = refl

done-acknowledged_example :
    IsValid 3 1 three_bytes all_acked
    × (finished all_acked ≡ true)
    × (all_acked.slide_window_left_bound_seq_num ≡ 3)
done-acknowledged_example =
    done-acknowledged three_packets 3 1 three_bytes three_packets-IsFile (process under_way)
      short_run under_way-IsValid short_run-IsSchedule over [] short_run-over refl

-- `sendData` has prepared packets 1 and 2 when the ACK of all three comes.
abbrev unlucky_run : List Action
unlucky_run =
    Action.send later (replicate data_packet_size 0)
    ∷ Action.send later (replicate data_packet_size 0)
    ∷ Action.send later (replicate data_packet_size 0)
    ∷ Action.send later (replicate data_packet_size 0)
    ∷ short_run

unlucky_run_lem : run three_packets unlucky_run (started (process one_waits)) ≡ fault dangling
unfolding run read_buffer_ack_packet Rtt.ack_arrived Rtt.sample elapsed_us Rtt.init finished
    has_data_to_send prepare_data_packets_to_send prepare_items packet_of Ack.ack_arrived
    Ack.selective Ack.fast_retransmit Ack.cumulate Ack.advance Ack.pop_items Ack.grow Ack.pace
    Ack.fill Ack.count_duplicate push_items
unlucky_run_lem = refl
