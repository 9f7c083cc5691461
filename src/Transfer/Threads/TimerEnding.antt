-- ===== src/Transfer/Threads/TimerEnding.antt =====
-- How the thread of `checkTimeout` ends once `sendData` has stopped.
use reliable_packet_transmis.Base.{ℕ, zero, suc, ◌-◌, ◌≤◌, ◌≡◌, refl, ◌∙◌, ap, List, [], ok, arith}
use reliable_packet_transmis.Packet.{AckPacket, Timeval}
use reliable_packet_transmis.Rtt.{get_current_timeout_us}
use reliable_packet_transmis.Sender.{FileSource}
use reliable_packet_transmis.Sender.Window.{IsFile}
use reliable_packet_transmis.Sender.Timeout as SenderTimeout
use reliable_packet_transmis.ReliableSender.Threads as SenderThreads
use reliable_packet_transmis.ReliableSender.Threads.{
  Sending, Receiving, Timing, Action, receive_step, on_reception, timer_step,
}
use reliable_packet_transmis.ReliableSender.Hung.{no_data}
use reliable_packet_transmis.Transfer.Threads.{Whole, ThreadStep, sender_acts, ThreadReach, next}
use reliable_packet_transmis.Transfer.Threads.Invariant.{IsSafe}
use reliable_packet_transmis.Transfer.Threads.Safety.{Step-IsSafe}
use reliable_packet_transmis.Transfer.Threads.Ending.{ended-done, Runs}

-- The same for `checkTimeout`.
abbrev pub time_left : Timing → ℕ
time_left Timing.testing = 1
time_left Timing.measuring = 4
time_left (Timing.expiring threshold) = 3
time_left Timing.deciding = 2
time_left Timing.notifying = 2
time_left Timing.stopped = 0

module _ (source : FileSource) (total last_size : ℕ) (chunk : ℕ → List ℕ)
    (file : IsFile source total last_size chunk) (old : AckPacket) (now : Timeval) where
  abbrev Safe : Whole → Type 0
  Safe = IsSafe source total last_size chunk file

  -- A step of `checkTimeout`.
  record TimerNears (place : Timing) (a : Whole) : Type 0 where
    after : SenderThreads.Threads
    returns : SenderThreads.perform source (Action.time now) a.sending ≡ ok (after, [])
    over : after.sender ≡ Sending.stopped
    same_receivers : after.receivers ≡ a.sending.receivers
    nearer : time_left after.timer ≤ time_left place - 1

  timer-Nears :
      (place : Timing) (a : Whole)
      → a.sending.timer ≡ place
      → Safe a
      → a.sending.sender ≡ Sending.stopped
      → TimerNears place a
  unfolding SenderThreads.perform timer_step
  timer-Nears Timing.testing a e v over = record {
    after = record (a.sending) { timer = Timing.stopped };
    returns = rw (e, (ended-done source total last_size chunk file old now a v over).0) refl;
    over = over;
    same_receivers = refl;
    nearer = omega arith;
  }
  timer-Nears Timing.measuring a e v over = record {
    after = record (a.sending) {
      timer = Timing.expiring (get_current_timeout_us a.sending.process.rtt_estimator);
    };
    returns = rw e refl;
    over = over;
    same_receivers = refl;
    nearer = omega arith;
  }
  timer-Nears (Timing.expiring threshold) a e v over = record {
    after = record (a.sending) {
      process = record (a.sending.process) {
        slide_window = SenderTimeout.check_timeout a.sending.process.slide_window threshold now;
      };
      timer = Timing.deciding;
    };
    returns = rw e refl;
    over = over;
    same_receivers = refl;
    nearer = omega arith;
  }
  timer-Nears Timing.deciding a e v over = record {
    after = record (a.sending) { timer = Timing.testing };
    returns =
        rw
          (
            e,
            no_data a.sending.process.slide_window
                (ended-done source total last_size chunk file old now a v over).1,
          )
          refl;
    over = over;
    same_receivers = refl;
    nearer = omega arith;
  }
  timer-Nears Timing.notifying a e v over = record {
    after = record (a.sending) {
      sender = SenderThreads.woken a.sending.sender;
      timer = Timing.testing;
    };
    returns = rw e refl;
    over = ap SenderThreads.woken over;
    same_receivers = refl;
    nearer = omega arith;
  }
  timer-Nears Timing.stopped a e v over = record {
    after = a.sending;
    returns = rw e refl;
    over = over;
    same_receivers = refl;
    nearer = omega (arith, ap time_left e);
  }

  -- The thread of `checkTimeout` stops.
  pub stop_timer :
      (b : Whole) (n : ℕ) (a : Whole)
      → ThreadReach source b a
      → Safe a
      → a.sending.sender ≡ Sending.stopped
      → time_left a.sending.timer ≤ n
      → (c : Whole) × Runs source total last_size chunk file old now b a c
        × (c.sending.receivers ≡ a.sending.receivers)
        × (c.sending.timer ≡ Timing.stopped)
  stop_timer b zero a r v over enough = (
    a,
    record { run = r; safe = v; over = over; same_receiving = refl },
    refl,
    no_time a.sending.timer (omega arith),
  )
    where
      no_time : (place : Timing) → time_left place ≡ 0 → place ≡ Timing.stopped
      no_time Timing.testing e = absurd (omega arith)
      no_time Timing.measuring e = absurd (omega arith)
      no_time (Timing.expiring threshold) e = absurd (omega arith)
      no_time Timing.deciding e = absurd (omega arith)
      no_time Timing.notifying e = absurd (omega arith)
      no_time Timing.stopped e = refl
  stop_timer b (suc n) a r v over enough =
      let q = timer-Nears a.sending.timer a refl v over in
      let a' : Whole = record a { sending = q.after } in
      let st : ThreadStep source a a' = sender_acts (Action.time now) q.after [] tt q.returns in
      let (c, runs, receivers, timer) =
        stop_timer b n a' (next r st) (Step-IsSafe source total last_size chunk file st v) q.over
          (omega (arith, q.nearer)) in
      (
        c,
        record {
          run = runs.run;
          safe = runs.safe;
          over = runs.over;
          same_receiving = runs.same_receiving;
        },
        receivers ∙ q.same_receivers,
        timer,
      )
