-- ===== src/Transfer/Threads/Ending.antt =====
-- How both programs end once `sendData` has stopped.
use reliable_packet_transmis.Base.{
  ℕ, zero, suc, ◌-◌, ◌≤◌, ◌≡◌, refl, sym, ◌∙◌, subst, ap, true, List, [], none, some, get_elem?,
  set, set-get_elem?, set-set, set_there, ok, All-get, arith,
}
use reliable_packet_transmis.Packet.{AckPacket, Timeval}
use reliable_packet_transmis.Sender.{FileSource, finished}
use reliable_packet_transmis.Sender.Window.{IsFile}
use reliable_packet_transmis.ReliableSender.Threads as SenderThreads
use reliable_packet_transmis.ReliableSender.Threads.{
  Sending, Receiving, Timing, Action, receive_step, on_reception, timer_step,
}
use reliable_packet_transmis.ReliableSender.Schedule.{IsPlaced}
use reliable_packet_transmis.ReliableSender.Hung.{no_data}
use reliable_packet_transmis.Transfer.SenderSteps.{Acked-honest}
use reliable_packet_transmis.Transfer.Threads.{
  Whole, system, ThreadStep, sender_acts, ThreadReach, next,
}
use reliable_packet_transmis.Transfer.Threads.Invariant.{IsHeld, IsSafe}
use reliable_packet_transmis.Transfer.Threads.Safety.{Step-IsSafe}

-- Steps that a thread of `receiveAck` has left, at most, once `done` is set and `recvfrom` times out.
abbrev pub steps_left : Receiving → ℕ
steps_left Receiving.testing = 1
steps_left Receiving.listening = 2
steps_left (Receiving.accepting ack) = 5
steps_left Receiving.deciding = 4
steps_left Receiving.deciding_finished = 3
steps_left Receiving.notifying = 2
steps_left Receiving.stopped = 0

none_left : (place : Receiving) → steps_left place ≡ 0 → place ≡ Receiving.stopped
none_left Receiving.testing e = absurd (omega arith)
none_left Receiving.listening e = absurd (omega arith)
none_left (Receiving.accepting ack) e = absurd (omega arith)
none_left Receiving.deciding e = absurd (omega arith)
none_left Receiving.deciding_finished e = absurd (omega arith)
none_left Receiving.notifying e = absurd (omega arith)
none_left Receiving.stopped e = refl

module _ (source : FileSource) (total last_size : ℕ) (chunk : ℕ → List ℕ)
    (file : IsFile source total last_size chunk) (old : AckPacket) (now : Timeval) where
  abbrev pub Safe : Whole → Type 0
  Safe = IsSafe source total last_size chunk file

  pub ended-done :
      (a : Whole)
      → Safe a
      → a.sending.sender ≡ Sending.stopped
      → (a.sending.done ≡ true) × (finished a.sending.process.slide_window ≡ true)
  ended-done a v over =
      let done : a.sending.done ≡ true =
        subst (λ place. IsPlaced place a.sending.done) over v.sender.placed in
      (done, v.sender.done_finished done)

  -- A quiet step of thread `i` of `receiveAck`, once `sendData` has stopped.
  record Nears (i : ℕ) (place : Receiving) (a : Whole) : Type 0 where
    after : SenderThreads.Threads
    returns :
        SenderThreads.perform source (Action.receive i old none now) a.sending ≡ ok (after, [])
    over : after.sender ≡ Sending.stopped
    next_place : Receiving
    there : after.receivers ≡ set a.sending.receivers i next_place
    nearer : steps_left next_place ≤ steps_left place - 1

  quiet-Nears :
      (i : ℕ) (place : Receiving) (a : Whole)
      → get_elem? a.sending.receivers i ≡ some place
      → Safe a
      → a.sending.sender ≡ Sending.stopped
      → Nears i place a
  unfolding SenderThreads.perform receive_step on_reception
  quiet-Nears i Receiving.testing a e v over = record {
    after = record (a.sending) { receivers = set a.sending.receivers i Receiving.stopped };
    returns = rw (e, (ended-done a v over).0) refl;
    over = over;
    next_place = Receiving.stopped;
    there = refl;
    nearer = omega arith;
  }
  quiet-Nears i Receiving.listening a e v over = record {
    after = record (a.sending) { receivers = set a.sending.receivers i Receiving.testing };
    returns = rw e refl;
    over = over;
    next_place = Receiving.testing;
    there = refl;
    nearer = omega arith;
  }
  quiet-Nears i (Receiving.accepting ack) a e v over =
      let acked = Acked-honest source total last_size chunk file (system a) v.safe ack (
        All-get (IsHeld a.receiving.receiver.next_expected_packet_seq_num) a.sending.receivers i
          v.held e) in
      record {
        after = record (a.sending) {
          process = record (a.sending.process) { slide_window = acked.window };
          receivers = set a.sending.receivers i Receiving.deciding;
        };
        returns = rw (e, acked.returns) refl;
        over = over;
        next_place = Receiving.deciding;
        there = refl;
        nearer = omega arith;
      }
  quiet-Nears i Receiving.deciding a e v over = record {
    after = record (a.sending) {
      receivers = set a.sending.receivers i Receiving.deciding_finished;
    };
    returns = rw (e, no_data a.sending.process.slide_window (ended-done a v over).1) refl;
    over = over;
    next_place = Receiving.deciding_finished;
    there = refl;
    nearer = omega arith;
  }
  quiet-Nears i Receiving.deciding_finished a e v over = record {
    after = record (a.sending) { receivers = set a.sending.receivers i Receiving.notifying };
    returns = rw (e, (ended-done a v over).1) refl;
    over = over;
    next_place = Receiving.notifying;
    there = refl;
    nearer = omega arith;
  }
  quiet-Nears i Receiving.notifying a e v over = record {
    after = record (a.sending) {
      sender = SenderThreads.woken a.sending.sender;
      receivers = set a.sending.receivers i Receiving.testing;
    };
    returns = rw e refl;
    over = ap SenderThreads.woken over;
    next_place = Receiving.testing;
    there = refl;
    nearer = omega arith;
  }
  quiet-Nears i Receiving.stopped a e v over = record {
    after = a.sending;
    returns = rw e refl;
    over = over;
    next_place = Receiving.stopped;
    there = sym (set-get_elem? a.sending.receivers i Receiving.stopped e);
    nearer = omega arith;
  }

  -- Steps of the sender only, after which `sendData` still has stopped.
  pub record Runs (b a c : Whole) : Type 0 where
    pub run : ThreadReach source b c
    pub safe : Safe c
    pub over : c.sending.sender ≡ Sending.stopped
    pub same_receiving : c.receiving ≡ a.receiving

  -- A thread of `receiveAck` stops.
  pub stop_receiver :
      (b : Whole) (i n : ℕ) (place : Receiving) (a : Whole)
      → ThreadReach source b a
      → get_elem? a.sending.receivers i ≡ some place
      → Safe a
      → a.sending.sender ≡ Sending.stopped
      → steps_left place ≤ n
      → (c : Whole) × Runs b a c
        × (c.sending.receivers ≡ set a.sending.receivers i Receiving.stopped)
  stop_receiver b i zero place a r e v over enough =
      let still = none_left place (omega arith) in
      (
        a,
        record { run = r; safe = v; over = over; same_receiving = refl },
        sym (set-get_elem? a.sending.receivers i Receiving.stopped (e ∙ ap some still)),
      )
  stop_receiver b i (suc n) place a r e v over enough =
      let q = quiet-Nears i place a e v over in
      let a' : Whole = record a { sending = q.after } in
      let st : ThreadStep source a a' =
        sender_acts (Action.receive i old none now) q.after [] tt q.returns in
      let at =
        ap (λ places. get_elem? places i) q.there
        ∙ set_there a.sending.receivers i place q.next_place e in
      let (c, runs, there) =
        stop_receiver b i n q.next_place a' (next r st) at
          (Step-IsSafe source total last_size chunk file st v) q.over (omega (arith, q.nearer)) in
      (
        c,
        record {
          run = runs.run;
          safe = runs.safe;
          over = runs.over;
          same_receiving = runs.same_receiving;
        },
        there
            ∙ ap (λ places. set places i Receiving.stopped) q.there
            ∙ set-set a.sending.receivers i q.next_place Receiving.stopped,
      )
