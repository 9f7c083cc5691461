-- ===== src/ReliableSender/Wakeup.antt =====
-- How a round of `checkTimeout` of src/reliable_sender.cpp wakes the sending thread that waits on
-- `condVar`.
use reliable_packet_transmis.Base.{
  ℕ, ◌≡◌, true, false, ◌||◌, List, [], ◌∷◌, some, get_elem?, Elem, map, ok, arith,
}
use reliable_packet_transmis.Packet.{DataPacket, Timeval}
use reliable_packet_transmis.Packet.Words.{FitsTimeval}
use reliable_packet_transmis.Rtt.{get_current_timeout_us}
use reliable_packet_transmis.Sender.{
  prepare_data_packets_to_send, Sender, Item, FileSource, finished, has_data_to_send, look_for_data,
  is_pending,
}
use reliable_packet_transmis.Sender.Timeout as SenderTimeout
use reliable_packet_transmis.Sender.Timeout.{expire_items, punish_timeout, is_late}
use reliable_packet_transmis.Sender.Window.{IsFile}
use reliable_packet_transmis.Sender.Invariant.{IsValid}
use reliable_packet_transmis.Sender.Progress.{awaited_packet-resent}
use reliable_packet_transmis.ReliableSender.{Process, check_timeout}
use reliable_packet_transmis.ReliableSender.Threads.{
  Sending, Receiving, Timing, Threads, Action, run,
}

-- A check for timeouts counts no bytes, and takes back no data that is ready.
pub check_timeout-finished :
    (s : Sender) (threshold : ℕ) (now : Timeval)
    → finished (SenderTimeout.check_timeout s threshold now) ≡ finished s
unfolding finished SenderTimeout.check_timeout punish_timeout look_for_data
check_timeout-finished s threshold now = ground arith

-- The threads while `sendData` sleeps.
abbrev pub sleeping : Process → List Receiving → Timing → Threads
sleeping p receivers timer = record {
  process = p;
  sender = Sending.asleep;
  receivers = receivers;
  timer = timer;
  done = false;
}

-- A round of `checkTimeout` wakes a thread that sleeps, if there is data to send after its check.
timer_wakes :
    (source : FileSource) (p : Process) (receivers : List Receiving)
    (now₀ now₁ now now₂ now₃ : Timeval)
    → has_data_to_send (check_timeout p now).0.slide_window ≡ true
    → run source
        (Action.time now₀
          ∷ Action.time now₁
          ∷ Action.time now
          ∷ Action.time now₂
          ∷ Action.time now₃
          ∷ [])
        (sleeping p receivers Timing.testing)
      ≡ ok (
        record (sleeping (check_timeout p now).0 receivers Timing.testing) {
          sender = Sending.asking;
        },
        [],
      )
unfolding run check_timeout
timer_wakes source p receivers now₀ now₁ now now₂ now₃ ready = rw ready

-- For a valid window of a transfer that has not finished, whose first item waits to be sent or has
-- been under way for longer than the current timeout, one round of `checkTimeout`, which nothing
-- interrupts, wakes the `sendData` that sleeps; then there is data to send, and the next round of
-- sending, at a time that fits a `timeval`, sends the packet at the left bound of the window.
pub sleeping_sender-woken :
    (source : FileSource) (total last_size : ℕ) (chunk : ℕ → List ℕ)
    (file : IsFile source total last_size chunk) (p : Process) (receivers : List Receiving)
    (now₀ now₁ now now₂ now₃ later : Timeval) (x : Item)
    → IsValid total last_size chunk p.slide_window
    → FitsTimeval later
    → finished p.slide_window ≡ false
    → get_elem? p.slide_window.slide_window 0 ≡ some x
    → (is_pending x.state || is_late (get_current_timeout_us p.rtt_estimator) now x) ≡ true
    → let p' = (check_timeout p now).0 in
      (run source
          (Action.time now₀
            ∷ Action.time now₁
            ∷ Action.time now
            ∷ Action.time now₂
            ∷ Action.time now₃
            ∷ [])
          (sleeping p receivers Timing.testing)
        ≡ ok (record (sleeping p' receivers Timing.testing) { sender = Sending.asking }, []))
      × (has_data_to_send p'.slide_window ≡ true)
      × Elem p.slide_window.slide_window_left_bound_seq_num (
          map
            (λ (d : DataPacket). d.seq_num)
            (prepare_data_packets_to_send p'.slide_window later).1)
unfolding check_timeout
sleeping_sender-woken source total last_size chunk file p receivers now₀ now₁ now now₂ now₃ later x
      v fits going first waits =
    let (ready, resent) =
      awaited_packet-resent source total last_size chunk file p.slide_window v
        (get_current_timeout_us p.rtt_estimator) now later x fits going first waits in
    (timer_wakes source p receivers now₀ now₁ now now₂ now₃ ready, ready, resent)
