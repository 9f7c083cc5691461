-- ===== src/Transfer/Threads/Ended.antt =====
-- Once `sendData` has stopped, every thread of both programs can stop, and every `join` returns.
use reliable_packet_transmis.Base.{
  ℕ, zero, suc, ◌^◌, ◌≤◌, ◌<◌, ◌≡◌, refl, sym, ◌∙◌, subst, ap, true, inl, ◌==◌, Bool-cases, inr,
  List, [], ◌∷◌, ◌++◌, none, some, get_elem?, get_elem?-some, get_elem?-set, length, length-set, ok,
  OnOk, OnOk-ok, OnOk-self, >>=-OnOk, All, arith, tests,
}
use mathlib.Core.Option.{some-injective}
use reliable_packet_transmis.Packet.{AckPacket, Timeval}
use reliable_packet_transmis.Receiver.{finished as receiver_finished}
use reliable_packet_transmis.Sender.{FileSource, last_size_of}
use reliable_packet_transmis.Sender.Window.{IsFile}
use reliable_packet_transmis.ReliableSender.{Process, start}
use reliable_packet_transmis.ReliableSender.Handshake.{Round, perform_handshake}
use reliable_packet_transmis.ReliableSender.Greeting.{HasRoom}
use reliable_packet_transmis.ReliableSender.Setup.{joined, receivers_stopped}
use reliable_packet_transmis.ReliableSender.Threads.{Sending, Receiving, Timing}
use reliable_packet_transmis.ReliableReceiver.Threads as ReceiverThreads
use reliable_packet_transmis.ReliableReceiver.Threads.{Turn, all_stopped}
use reliable_packet_transmis.ReliableReceiver.Stopping.{last_turns, last-Stops}
use reliable_packet_transmis.Transfer.Content.{ReadsFile, packets_of, chunk_of}
use reliable_packet_transmis.Transfer.Threads.{
  Whole, IsFrom, ThreadStep, receiver_acts, ThreadReach, here, next, at_start,
}
use reliable_packet_transmis.Transfer.Threads.Invariant.{IsSafe}
use reliable_packet_transmis.Transfer.Threads.Delivery.{file, reached-IsSafe, threads_delivered}
use reliable_packet_transmis.Transfer.Threads.Ending.{Runs, ended-done, steps_left, stop_receiver}
use reliable_packet_transmis.Transfer.Threads.TimerEnding.{time_left, stop_timer}

AllStopped : List Receiving → ℕ → Type 0
AllStopped places k = (j : ℕ) → j < k → get_elem? places j ≡ some Receiving.stopped

receivers_stopped-AllStopped :
    (places : List Receiving) → AllStopped places (length places) → receivers_stopped places ≡ true
unfolding AllStopped
receivers_stopped-AllStopped [] h = refl
receivers_stopped-AllStopped (place ∷ places) h =
    rw (some-injective place Receiving.stopped (h 0 (omega arith)))
      (receivers_stopped-AllStopped places (λ j below. h (suc j) (omega arith)))

at_most_five : (place : Receiving) → steps_left place ≤ 5
at_most_five Receiving.testing = omega arith
at_most_five Receiving.listening = omega arith
at_most_five (Receiving.accepting ack) = omega arith
at_most_five Receiving.deciding = omega arith
at_most_five Receiving.deciding_finished = omega arith
at_most_five Receiving.notifying = omega arith
at_most_five Receiving.stopped = omega arith

at_most_four : (place : Timing) → time_left place ≤ 4
at_most_four Timing.testing = omega arith
at_most_four Timing.measuring = omega arith
at_most_four (Timing.expiring threshold) = omega arith
at_most_four Timing.deciding = omega arith
at_most_four Timing.notifying = omega arith
at_most_four Timing.stopped = omega arith

module _ (source : FileSource) (total last_size : ℕ) (chunk : ℕ → List ℕ)
    (file : IsFile source total last_size chunk) (old : AckPacket) (now : Timeval) (b : Whole) where
  abbrev Leads : Whole → Whole → Type 0
  Leads = Runs source total last_size chunk file old now b

  -- The threads of `receiveAck` stop one after the other.
  stop_receivers :
      (k : ℕ) (a : Whole)
      → ThreadReach source b a
      → IsSafe source total last_size chunk file a
      → a.sending.sender ≡ Sending.stopped
      → k ≤ length a.sending.receivers
      → (c : Whole) × Leads a c
        × (length c.sending.receivers ≡ length a.sending.receivers)
        × AllStopped c.sending.receivers k
  unfolding AllStopped
  stop_receivers zero a r v over enough = (
    a,
    record { run = r; safe = v; over = over; same_receiving = refl },
    refl,
    λ j h. absurd (omega arith),
  )
  stop_receivers (suc k) a r v over enough =
      let (c, runs, same, stopped) = stop_receivers k a r v over (omega arith) in
      let inside : k < length c.sending.receivers = omega (arith, same) in
      let (place, e) = get_elem?-some c.sending.receivers k inside in
      let (d, runs', there) =
        stop_receiver source total last_size chunk file old now b k 5 place c runs.run e runs.safe
          runs.over (at_most_five place) in
      (
        d,
        record {
          run = runs'.run;
          safe = runs'.safe;
          over = runs'.over;
          same_receiving = runs'.same_receiving ∙ runs.same_receiving;
        },
        ap length there ∙ length-set c.sending.receivers k Receiving.stopped ∙ same,
        λ j h.
            ap (λ places. get_elem? places j) there
            ∙ get_elem?-set c.sending.receivers k j Receiving.stopped inside
            ∙ elim (Bool-cases (j == k)) [
              | inl last ↦ rw last refl
              | inr before ↦ rw before (stopped j (omega (tests, before)))
            ],
      )

-- Turns of the receiver in which `recvfrom` times out.
quiet_turns :
    (source : FileSource) (b : Whole) (turns : List Turn) (a : Whole)
    → ThreadReach source b a
    → All (λ turn. turn.event ≡ none) turns
    → OnOk
        (λ (o : ReceiverThreads.Threads × List (List ℕ)).
          (c : Whole) × ThreadReach source b c × (c.sending ≡ a.sending) × (c.receiving ≡ o.0))
        (ReceiverThreads.run turns a.receiving)
unfolding ReceiverThreads.run
quiet_turns source b [] a r quiet = (a, r, refl, refl)
quiet_turns source b (turn ∷ turns) a r (silent, quiet) =
    >>=-OnOk
      (λ (o : ReceiverThreads.Threads × List (List ℕ)).
        ReceiverThreads.perform turn a.receiving ≡ ok o)
      _ (ReceiverThreads.perform turn a.receiving) _
      (OnOk-self (ReceiverThreads.perform turn a.receiving))
      (λ o e.
        let a' : Whole = record a { receiving = o.0; to_sender = o.1 ++ a.to_sender } in
        let st : ThreadStep source a a' =
          receiver_acts turn o.0 o.1 (subst (IsFrom a.to_receiver) (sym silent) tt) e in
        >>=-OnOk _ _ (ReceiverThreads.run turns o.0) _
          (quiet_turns source b turns a' (next r st) quiet) (λ o' h. h))

module _ (source : FileSource) (content : List ℕ) (timeout bytes : ℕ) (p : Process)
    (old : AckPacket) (rounds : List Round) (greetings : List (List ℕ)) (b : Whole)
    (reads : ReadsFile source content) (positive : 0 < bytes) (held : bytes ≤ length content)
    (fits : bytes ≤ 2 ^ 32) (room : All HasRoom rounds)
    (greeted : perform_handshake old rounds ≡ ok (some timeout, greetings))
    (begun : start source timeout bytes ≡ ok p) (run : ThreadReach source (at_start p greetings) b)
    (over : b.sending.sender ≡ Sending.stopped) (now : Timeval) where
  -- Let the handshake of the sender come to a timeout, let it start to send `bytes` bytes, from 1
  -- to 2 ^ 32, of a regular file that holds at least as many, and let the threads of both
  -- processes run, one step of one thread at a time, while the network loses, delays, reorders and
  -- repeats datagrams, with times that fit a `timeval` and buffers that hold what is laid out in
  -- them. From any state so reached in which `sendData` has stopped, further steps lead to where
  -- every thread of both processes has stopped, so that every `join` returns.
  pub threads-end :
      (c : Whole) × ThreadReach source b c
      × (joined (some c.sending) ≡ true)
      × (all_stopped c.receiving.places ≡ true)
  unfolding joined AllStopped
  threads-end =
      let total = packets_of bytes in
      let chunk = chunk_of content bytes in
      let read =
        file source content timeout bytes p old rounds greetings b reads positive held fits room
          greeted begun run in
      let v =
        reached-IsSafe source content timeout bytes p old rounds greetings b reads positive held
          fits room greeted begun run in
      let (delivered, _) =
        threads_delivered source content timeout bytes p old rounds greetings b reads positive held
          fits room greeted begun run
          (inl (ended-done source total (last_size_of bytes) chunk read old now b v over).0) in
      let (c, runs, same, stopped) =
        stop_receivers source total (last_size_of bytes) chunk read old now b
          (length b.sending.receivers) b here v over (omega arith) in
      let (d, runs', receivers, timer) =
        stop_timer source total (last_size_of bytes) chunk read old now b 4 c runs.run runs.safe
          runs.over (at_most_four c.sending.timer) in
      let finished : receiver_finished d.receiving.receiver ≡ true =
        rw (runs'.same_receiving, runs.same_receiving) delivered in
      let (t', sent, e, all, _, _) =
        last-Stops total chunk (omega (arith, read.small)) d.receiving runs'.safe.receiver
          finished in
      let (f, run', same_sending, same_receiving) = OnOk-ok _ _ e (
        quiet_turns source b last_turns d runs'.run
          (refl, (refl, (refl, (refl, (refl, (refl, tt))))))) in
      (
        f,
        run',
        rw
            (
              same_sending,
              runs'.over,
              timer,
              receivers,
              receivers_stopped-AllStopped c.sending.receivers
                  (λ j below. stopped j (omega (arith, same))),
            )
            refl,
        rw same_receiving all,
      )
