-- ===== src/Transfer/Threads/Examples.antt =====
-- Both programs with their threads step by step at concrete values: a file of one packet.
use reliable_packet_transmis.Base.{
  ℕ, ◌≤◌, ◌≡◌, refl, inl, Bool, true, false, List, [], ◌∷◌, ◌++◌, none, some, get_elem?, take,
  length, replicate, Result, ok, fault, Fault, dangling, ◌>>=◌, OnOk, OnOk-ok, OnOk-self, >>=-OnOk,
  Elem, arith,
}
use reliable_packet_transmis.Packet.{
  data_packet_size, fill_buffer_data_packet, read_buffer_ack_packet, read_buffer_data_packet,
  fill_buffer_ack_packet,
}
use reliable_packet_transmis.Packet.Words.{FitsTimeval}
use reliable_packet_transmis.Receiver.Invariant.{has, chunk_write}
use reliable_packet_transmis.Receiver.Examples.{midnight}
use reliable_packet_transmis.Clock.{elapsed_us}
use reliable_packet_transmis.Rtt
use reliable_packet_transmis.Receiver.{
  init, finished as receiver_finished, new_items, receive_data_packet,
}
use reliable_packet_transmis.Sender.{
  FileSource, finished, push_items, has_data_to_send, prepare_data_packets_to_send, prepare_items,
  packet_of,
}
use reliable_packet_transmis.Sender.Ack
use reliable_packet_transmis.ReliableSender.Threads as SenderThreads
use reliable_packet_transmis.ReliableSender.Threads.{Action, Sending}
use reliable_packet_transmis.ReliableSender.Examples.{rounds-HasRoom, rounds, some_ack}
use reliable_packet_transmis.ReliableReceiver.Threads as ReceiverThreads
use reliable_packet_transmis.ReliableReceiver.Threads.{Turn, Place}
use reliable_packet_transmis.ReliableReceiver.{send_ack}
use reliable_packet_transmis.Transfer.Content.{byte_at, chunk_of}
use reliable_packet_transmis.Transfer.Examples.{abc, abc_source}
use reliable_packet_transmis.Transfer.RunExamples.{
  greetings, greeted, reply, sends, takes, starting, starting_lem, packet_sent,
}
use reliable_packet_transmis.Transfer.Threads.{
  Whole, IsFrom, IsPossible, ThreadStep, sender_acts, receiver_acts, ThreadReach, here, next,
  at_start,
}
use reliable_packet_transmis.ReliableSender.Setup.{joined}
use reliable_packet_transmis.ReliableReceiver.Threads.{all_stopped}
use reliable_packet_transmis.Transfer.Threads.Ended.{threads-end}
use reliable_packet_transmis.Transfer.Threads.Delivery.{
  threads_delivered, threads-only_dangling, threads-acknowledged,
}

data Event : Type 0 where
  of_sender : Action → Event
  of_receiver : Turn → Event

unfoldable play_one : FileSource → Event → Whole → Result Whole
play_one source (of_sender action) a = do
  (t, sent) ← SenderThreads.perform source action a.sending
  ok (record a { sending = t; to_receiver = sent ++ a.to_receiver })
play_one source (of_receiver turn) a = do
  (t, sent) ← ReceiverThreads.perform turn a.receiving
  ok (record a { receiving = t; to_sender = sent ++ a.to_sender })

unfoldable play : FileSource → List Event → Whole → Result Whole
unfolding play_one
play source [] a = ok a
play source (event ∷ events) a = do b ← play_one source event a; play source events b

abbrev IsReal : Event → Whole → Type 0
IsReal (of_sender action) a = IsPossible a.to_sender action
IsReal (of_receiver turn) a = IsFrom a.to_receiver turn.event

abbrev AreReal : FileSource → List Event → Whole → Type 0
AreReal source [] a = Unit
AreReal source (event ∷ events) a =
    IsReal event a × OnOk (AreReal source events) (play_one source event a)

play_one-ThreadStep :
    (source : FileSource) (event : Event) (a : Whole)
    → IsReal event a
    → OnOk (ThreadStep source a) (play_one source event a)
unfolding play_one
play_one-ThreadStep source (of_sender action) a r =
    >>=-OnOk
      (λ (o : SenderThreads.Threads × List (List ℕ)).
        SenderThreads.perform source action a.sending ≡ ok o)
      (ThreadStep source a) (SenderThreads.perform source action a.sending) _ (OnOk-self _)
      (λ o e. sender_acts action o.0 o.1 r e)
play_one-ThreadStep source (of_receiver turn) a r =
    >>=-OnOk
      (λ (o : ReceiverThreads.Threads × List (List ℕ)).
        ReceiverThreads.perform turn a.receiving ≡ ok o)
      (ThreadStep source a) (ReceiverThreads.perform turn a.receiving) _ (OnOk-self _)
      (λ o e. receiver_acts turn o.0 o.1 r e)

play-ThreadReach :
    (source : FileSource) (events : List Event) (a b : Whole)
    → ThreadReach source a b
    → AreReal source events b
    → OnOk (ThreadReach source a) (play source events b)
unfolding play
play-ThreadReach source [] a b r real = r
play-ThreadReach source (event ∷ events) a b r real =
    >>=-OnOk (λ c. play_one source event b ≡ ok c) (ThreadReach source a) (play_one source event b)
      _ (OnOk-self _)
      (λ c e.
        play-ThreadReach source events a c
          (next r (OnOk-ok (ThreadStep source b) _ e (play_one-ThreadStep source event b real.0)))
          (OnOk-ok (AreReal source events) _ e real.1))

abbrev turn : ℕ → Event
turn i = of_receiver (record { thread = i; event = none })

-- The packet goes out; a thread of the receiver stores it and answers; the ACK comes back; `sendData` sees
-- that the transfer has finished.
abbrev whole : List Event
whole =
    of_sender sends
    ∷ of_sender sends
    ∷ of_sender sends
    ∷ of_sender sends
    ∷ of_sender sends
    ∷ of_sender sends
    ∷ turn 1
    ∷ of_receiver (record { thread = 1; event = some packet_sent })
    ∷ of_sender (takes 0 none)
    ∷ turn 1
    ∷ turn 1
    ∷ of_sender (takes 0 (some reply))
    ∷ turn 1
    ∷ of_sender (takes 0 none)
    ∷ of_sender sends
    ∷ of_sender sends
    ∷ []

abbrev IsDone : Whole → Type 0
IsDone b =
    (b.sending.done ≡ true)
    × (b.sending.process.slide_window.slide_window_left_bound_seq_num ≡ 1)
    × (b.sending.sender ≡ Sending.stopped)

whole-IsDone : OnOk IsDone (play abc_source whole (at_start starting greetings))
unfolding play SenderThreads.perform ReceiverThreads.perform receiver_finished init
    read_buffer_data_packet receive_data_packet new_items send_ack fill_buffer_ack_packet
    Rtt.ack_arrived Rtt.sample elapsed_us finished has_data_to_send prepare_data_packets_to_send
    prepare_items packet_of fill_buffer_data_packet read_buffer_ack_packet Ack.ack_arrived
    Ack.selective Ack.fast_retransmit Ack.cumulate Ack.advance Ack.pop_items Ack.grow Ack.pace
    Ack.fill Ack.count_duplicate push_items
whole-IsDone = (refl, refl, refl)

whole-AreReal : AreReal abc_source whole (at_start starting greetings)
unfolding play SenderThreads.perform ReceiverThreads.perform receiver_finished init
    read_buffer_data_packet receive_data_packet new_items send_ack fill_buffer_ack_packet
    Rtt.ack_arrived Rtt.sample elapsed_us finished has_data_to_send prepare_data_packets_to_send
    prepare_items packet_of fill_buffer_data_packet read_buffer_ack_packet Ack.ack_arrived
    Ack.selective Ack.fast_retransmit Ack.cumulate Ack.advance Ack.pop_items Ack.grow Ack.pace
    Ack.fill Ack.count_duplicate push_items
whole-AreReal =
    let fits : FitsTimeval midnight
        × (data_packet_size ≤ length {A = ℕ} (replicate data_packet_size 0)) =
      (omega arith, omega arith) in
    (
      fits,
      (
        fits,
        (
          fits,
          (
            fits,
            (
              fits,
              (
                fits,
                (tt, (inl refl, (tt, (tt, (tt, (inl refl, (tt, (tt, (fits, (fits, tt)))))))))),
              ),
            ),
          ),
        ),
      ),
    )

succeeds : {A : Type 0} → Result A → Bool
succeeds (ok value) = true
succeeds (fault why) = false

outcome :
    {A : Type 0}
    → (P Q : A → Type 0) (m : Result A) → succeeds m ≡ true
    → OnOk P m
    → OnOk Q m
    → (a : A) × P a × Q a
unfolding succeeds
outcome P Q (ok value) e p q = (value, p, q)
outcome P Q (fault why) e p q = absurd cc

whole-succeeds : succeeds (play abc_source whole (at_start starting greetings)) ≡ true
unfolding succeeds play SenderThreads.perform ReceiverThreads.perform receiver_finished init
    read_buffer_data_packet receive_data_packet new_items send_ack fill_buffer_ack_packet
    Rtt.ack_arrived Rtt.sample elapsed_us finished has_data_to_send prepare_data_packets_to_send
    prepare_items packet_of fill_buffer_data_packet read_buffer_ack_packet Ack.ack_arrived
    Ack.selective Ack.fast_retransmit Ack.cumulate Ack.advance Ack.pop_items Ack.grow Ack.pace
    Ack.fill Ack.count_duplicate push_items
whole-succeeds = refl

-- Where the whole run ends.
reached : (b : Whole) × IsDone b × ThreadReach abc_source (at_start starting greetings) b
reached =
    outcome IsDone (ThreadReach abc_source (at_start starting greetings))
      (play abc_source whole (at_start starting greetings)) whole-succeeds whole-IsDone
      (play-ThreadReach abc_source whole (at_start starting greetings) (at_start starting greetings)
        here whole-AreReal)

threads_delivered_example :
    (receiver_finished reached.0.receiving.receiver ≡ true)
    × ((pos : ℕ) → byte_at reached.0.receiving.receiver.writes pos ≡ get_elem? (take 3 abc) pos)
threads_delivered_example =
    threads_delivered abc_source abc 700 3 starting some_ack rounds greetings reached.0
      (λ offset size. refl) (omega arith) (omega arith) (omega arith) rounds-HasRoom greeted
      starting_lem reached.2 (inl reached.1.0)

threads-only_dangling_example :
    ((t : Turn)
      → IsFrom reached.0.to_receiver t.event
      → (o : ReceiverThreads.Threads × List (List ℕ)) × (ReceiverThreads.perform t
            reached.0.receiving
          ≡ ok o))
    × ((action : Action) (why : Fault)
        → IsPossible reached.0.to_sender action
        → SenderThreads.perform abc_source action reached.0.sending ≡ fault why
        → why ≡ dangling)
threads-only_dangling_example =
    threads-only_dangling abc_source abc 700 3 starting some_ack rounds greetings reached.0
      (λ offset size. refl) (omega arith) (omega arith) (omega arith) rounds-HasRoom greeted
      starting_lem reached.2

threads-acknowledged_example :
    (has reached.0.receiving.receiver 0 ≡ true)
    × Elem (chunk_write (chunk_of abc 3) 0) reached.0.receiving.receiver.writes
threads-acknowledged_example =
    threads-acknowledged abc_source abc 700 3 starting some_ack rounds greetings reached.0
      (λ offset size. refl) (omega arith) (omega arith) (omega arith) rounds-HasRoom greeted
      starting_lem reached.2 0 (omega (arith, reached.1.1))

threads-end_example :
    (c : Whole) × ThreadReach abc_source reached.0 c
    × (joined (some c.sending) ≡ true)
    × (all_stopped c.receiving.places ≡ true)
threads-end_example =
    threads-end abc_source abc 700 3 starting some_ack rounds greetings reached.0
      (λ offset size. refl) (omega arith) (omega arith) (omega arith) rounds-HasRoom greeted
      starting_lem reached.2 reached.1.2 midnight
