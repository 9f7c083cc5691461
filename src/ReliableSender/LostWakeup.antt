-- ===== src/ReliableSender/LostWakeup.antt =====
-- src/reliable_sender.cpp notifies `condVar` without its mutex: the last notification can come too early.
use reliable_packet_transmis.Base.{
  ℕ, ◌≡◌, refl, true, false, List, [], ◌∷◌, ◌++◌, some, none, All, ok,
}
use reliable_packet_transmis.Packet.{AckPacket, AckType, Timeval}
use reliable_packet_transmis.Packet.AckRoundTrip.{IsSendableAck, ack_datagram}
use reliable_packet_transmis.Sender.{Sender, FileSource, finished}
use reliable_packet_transmis.ReliableSender.{Process}
use reliable_packet_transmis.ReliableSender.Threads.{
  Sending, Receiving, Timing, Threads, Action, run,
}
use reliable_packet_transmis.ReliableSender.Wakeup.{sleeping}
use reliable_packet_transmis.ReliableSender.Hung.{IsQuiet, IsHung, run-IsHung, no_data}
use reliable_packet_transmis.ReliableSender.Receptions.{on_reception-ack_datagram}
use reliable_packet_transmis.Sender.Ack
use reliable_packet_transmis.Rtt.Bounds.{ack_arrived-regular}
use reliable_packet_transmis.Rtt.{sample}
use reliable_packet_transmis.Clock.{elapsed_us}

-- The sending thread has seen that there is nothing to send and that the transfer has not finished, and is
-- about to block.
abbrev pub drowsy : Process → Threads
drowsy p = record {
  process = p;
  sender = Sending.falling_asleep;
  receivers = Receiving.listening ∷ Receiving.listening ∷ [];
  timer = Timing.testing;
  done = false;
}

-- The first thread of `receiveAck` takes an ACK and does all that it does for it; then `sendData` blocks.
abbrev pub too_early : AckPacket → AckPacket → Timeval → List ℕ → List Action
too_early old ack now buffer =
    Action.receive 0 old (some (ack_datagram ack)) now
    ∷ Action.receive 0 old none now
    ∷ Action.receive 0 old none now
    ∷ Action.receive 0 old none now
    ∷ Action.receive 0 old none now
    ∷ Action.send now buffer
    ∷ []

-- Let `sendData` have seen that there is nothing to send and that the transfer has not finished,
-- and let it not yet block in `wait`. If a thread of `receiveAck` now takes the regular ACK that
-- finishes the transfer and does all that it does for it, and `sendData` then blocks, it sleeps
-- for as long as no further ACK is received and no spurious wake-up happens, whatever the timer
-- and the other threads do: the transfer has finished, `done` is never set, and no thread is about
-- to notify.
pub lost_wakeup :
    (source : FileSource) (p : Process) (s : Sender) (old ack : AckPacket) (now : Timeval)
    (buffer : List ℕ)
    → IsSendableAck ack
    → ack.type ≡ AckType.regular
    → Ack.ack_arrived source p.slide_window ack ≡ ok s
    → finished s ≡ true
    → (actions : List Action) → All IsQuiet actions
    → (t' : Threads) × (run source (too_early old ack now buffer ++ actions) (drowsy p)
        ≡ ok (t', []))
      × IsHung t'
unfolding run
lost_wakeup source p s old ack now buffer v regular arrived over actions quiet =
    let sampled = ack_arrived-regular p.rtt_estimator ack now regular in
    let e = sample p.rtt_estimator (elapsed_us ack.sent_time now) in
    let p' : Process = record { slide_window = s; rtt_estimator = e } in
    let hung : IsHung (sleeping p' (Receiving.testing ∷ Receiving.listening ∷ []) Timing.testing) =
      record {
        process = p';
        receivers = Receiving.testing ∷ Receiving.listening ∷ [];
        timer = Timing.testing;
        sleeps = refl;
        over = over;
        idle = (tt, (tt, tt));
        no_notice = λ e. cc;
      } in
    let (t', stays, h) = run-IsHung source actions _ quiet hung in
    (
      t',
      rw (
        on_reception-ack_datagram 0 old ack now (drowsy p) e v regular sampled,
        arrived,
        no_data s over,
        over,
        stays,
      ),
      h,
    )
