-- ===== src/Transfer/RunExamples.antt =====
-- A whole run of src/reliable_sender.cpp at concrete values.
use reliable_packet_transmis.Base.{
  ℕ, ◌≤◌, ◌≡◌, refl, true, false, List, [], ◌∷◌, ◌++◌, Option, none, some, ok, length, replicate,
  arith,
}
use reliable_packet_transmis.Packet.{
  data_packet_size, fill_buffer_data_packet, read_buffer_ack_packet,
}
use reliable_packet_transmis.Clock.{elapsed_us}
use reliable_packet_transmis.Rtt
use reliable_packet_transmis.System.{ℤ, Mode, Call, atoll, count_of, port_of}
use reliable_packet_transmis.System.Arguments.{decimal, decimal_on}
use reliable_packet_transmis.Receiver.Examples.{midnight}
use reliable_packet_transmis.Sender.{
  finished, init, new_item, push_items, last_size_of, has_data_to_send,
  prepare_data_packets_to_send, prepare_items, packet_of, last_seq_num_of,
}
use reliable_packet_transmis.Sender.Ack
use reliable_packet_transmis.ReliableSender.{on_handshake_datagram, Process, start}
use reliable_packet_transmis.ReliableSender.Handshake.{estimate, perform_handshake}
use reliable_packet_transmis.ReliableSender.Examples.{rounds, some_ack}
use reliable_packet_transmis.ReliableSender.Threads.{
  Action, Threads, Sending, Receiving, Timing, run, started, perform,
}
use reliable_packet_transmis.ReliableSender.Schedule.{IsSchedule}
use reliable_packet_transmis.Packet.Words.{FitsTimeval}
use reliable_packet_transmis.Transfer.Content.{packets_of}
use reliable_packet_transmis.Transfer.Completion.{main-transferred}
use reliable_packet_transmis.ReliableSender.Setup as SenderSetup
use reliable_packet_transmis.Transfer.Examples.{abc, abc_source, begun}
use reliable_packet_transmis.Transfer.SetupExamples.{local, free}

abbrev pub greetings : List (List ℕ)
greetings = replicate 8 (b'h' ∷ b's' ∷ replicate 20 0)

pub greeted : perform_handshake some_ack rounds ≡ ok (some 700, greetings)
unfolding perform_handshake estimate fill_buffer_data_packet on_handshake_datagram
    read_buffer_ack_packet elapsed_us
greeted = refl

-- A whole run: the one packet goes out, its ACK comes back, and every thread stops.
abbrev pub reply : List ℕ
reply = b'r' ∷ b'e' ∷ 1 ∷ 0 ∷ 0 ∷ 0 ∷ replicate 20 0

abbrev pub sends : Action
sends = Action.send midnight (replicate data_packet_size 0)

abbrev pub takes : ℕ → Option (List ℕ) → Action
takes i received = Action.receive i some_ack received midnight

abbrev whole : List Action
whole =
    sends
    ∷ sends
    ∷ sends
    ∷ sends
    ∷ sends
    ∷ sends
    ∷ takes 0 none
    ∷ takes 0 (some reply)
    ∷ takes 0 none
    ∷ takes 0 none
    ∷ takes 0 none
    ∷ takes 0 none
    ∷ sends
    ∷ sends
    ∷ takes 0 none
    ∷ takes 1 none
    ∷ Action.time midnight
    ∷ []

abbrev pub starting : Process
starting = record begun {
  rtt_estimator = record (begun.rtt_estimator) { cur_timeout_us = 700; cur_std_dev_us = 175 };
}

pub starting_lem : start abc_source 700 3 ≡ ok starting
unfolding start init new_item push_items last_size_of Rtt.init
starting_lem = refl

-- Where the threads are in the end.
abbrev ended : Threads
ended = record {
  process = record {
    slide_window = record (begun.slide_window) {
      bytes_sent = 3;
      last_ack = 1;
      new_data_ready = false;
      slide_window_left_bound_seq_num = 1;
      slide_window = [];
    };
    rtt_estimator = record (begun.rtt_estimator) { cur_timeout_us = 612; cur_std_dev_us = 306 };
  };
  sender = Sending.stopped;
  receivers = Receiving.stopped ∷ Receiving.stopped ∷ [];
  timer = Timing.stopped;
  done = true;
}

abbrev pub packet_sent : List ℕ
packet_sent = b'f' ∷ b'i' ∷ (replicate 20 0 ++ abc)

whole-ended : run abc_source whole (started starting) ≡ ok (ended, packet_sent ∷ [])
unfolding run Rtt.ack_arrived Rtt.sample elapsed_us finished has_data_to_send
    prepare_data_packets_to_send prepare_items packet_of fill_buffer_data_packet
    read_buffer_ack_packet Ack.ack_arrived Ack.selective Ack.fast_retransmit Ack.cumulate
    Ack.advance Ack.pop_items Ack.grow Ack.pace Ack.fill Ack.count_duplicate push_items
whole-ended = refl

whole-IsSchedule : IsSchedule abc_source whole (started starting)
unfolding perform Rtt.ack_arrived Rtt.sample elapsed_us finished has_data_to_send
    prepare_data_packets_to_send prepare_items packet_of fill_buffer_data_packet
    read_buffer_ack_packet Ack.ack_arrived Ack.selective Ack.fast_retransmit Ack.cumulate
    Ack.advance Ack.pop_items Ack.grow Ack.pace Ack.fill Ack.count_duplicate push_items
whole-IsSchedule =
    let buffer : List ℕ = replicate data_packet_size 0 in
    let fits : FitsTimeval midnight × (data_packet_size ≤ length buffer) =
      (omega arith, omega arith) in
    (
      fits,
      (
        fits,
        (
          fits,
          (
            fits,
            (
              fits,
              (
                fits,
                (tt, (tt, (omega arith, (tt, (tt, (tt, (fits, (fits, (tt, (tt, (tt, tt))))))))))),
              ),
            ),
          ),
        ),
      ),
    )

abbrev whole_events : SenderSetup.Events
whole_events = record { old = some_ack; rounds = rounds; actions = whole }

-- The program returns 0.
abbrev succeeded : SenderSetup.Execution
succeeded = record {
  code = some (ℤ.pos 0);
  calls =
      Call.inet_pton [] (ℤ.pos 1)
      ∷ Call.open_file [] Mode.read_only (ℤ.pos 3)
      ∷ Call.socket (ℤ.pos 4)
      ∷ Call.set_receive_timeout (ℤ.pos 4) 50000
      ∷ Call.bind (ℤ.pos 4) (record { sin_port = 20480; sin_addr = 0 }) (ℤ.pos 0)
      ∷ Call.close (ℤ.pos 3)
      ∷ Call.close (ℤ.pos 4)
      ∷ [];
  receiver_addr = record { sin_port = 20480; sin_addr = 16777343 };
  sent = greetings ++ (packet_sent ∷ []);
}

succeeded_lem :
    SenderSetup.main local free
      ([] ∷ [] ∷ (b'8' ∷ b'0' ∷ []) ∷ [] ∷ decimal 3 ∷ [])
      abc_source
      whole_events
    ≡ ok succeeded
unfolding SenderSetup.main port_of count_of atoll decimal start init push_items last_seq_num_of
    decimal_on
succeeded_lem = rw (greeted, starting_lem, whole-ended) refl

main-transferred_example :
    (t : Threads) × (sent : List (List ℕ)) × (run abc_source whole (started starting)
      ≡ ok (t, sent))
    × (succeeded.sent ≡ greetings ++ sent)
    × (finished t.process.slide_window ≡ true)
    × (t.process.slide_window.slide_window_left_bound_seq_num ≡ packets_of 3)
main-transferred_example =
    main-transferred abc_source abc 3 700 starting whole_events greetings (λ offset size. refl)
      (omega arith) (omega arith) (omega arith) greeted starting_lem whole-IsSchedule local free []
      [] (b'8' ∷ b'0' ∷ []) [] succeeded succeeded_lem refl
