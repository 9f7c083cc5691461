-- ===== src/Transfer/Threads/Sender.antt =====
-- The steps of `receiveAck` and of `checkTimeout`, and so all of the sender's, keep a transfer safe.
use reliable_packet_transmis.Base.{
  ℕ, ◌≡◌, refl, inl, inr, List, [], Option, none, some, get_elem?, set, OnOk, All-set, All-get,
  All-elem, arith,
}
use reliable_packet_transmis.Packet.{AckPacket, Timeval}
use reliable_packet_transmis.Rtt.Bounds.{ack_arrived-regular}
use reliable_packet_transmis.Sender.{FileSource, finished, has_data_to_send}
use reliable_packet_transmis.Sender.Window.{IsFile}
use reliable_packet_transmis.ReliableSender.Threads.{
  Receiving, Timing, Action, receive_step, on_reception, timer_step, perform,
}
use reliable_packet_transmis.ReliableSender.Receptions.{
  on_reception-ack_datagram, on_reception-handshake,
}
use reliable_packet_transmis.Transfer.SenderSteps.{sender-Safe, expired-Safe, Acked-honest}
use reliable_packet_transmis.Transfer.Threads.{Whole, system, IsFrom, IsPossible}
use reliable_packet_transmis.Transfer.Threads.Invariant.{IsHeld, IsPrepared-mono, IsSafe}
use reliable_packet_transmis.Transfer.Threads.SenderMoves.{
  Kept, at_sender, at_receiver, at_timer, if-Kept, notified-Kept, send_step-Kept,
}

module _ (source : FileSource) (total last_size : ℕ) (chunk : ℕ → List ℕ)
    (file : IsFile source total last_size chunk) (a : Whole)
    (v : IsSafe source total last_size chunk file a) where
  abbrev next : ℕ
  next = a.receiving.receiver.next_expected_packet_seq_num

  -- A datagram from the network reaches a thread of `receiveAck`.
  on_reception-Kept :
      (i : ℕ) (old : AckPacket) (received : Option (List ℕ)) (now : Timeval)
      → IsFrom a.to_sender received
      → OnOk
          (Kept source total last_size chunk file a v)
          (on_reception i old received now a.sending)
  unfolding on_reception
  on_reception-Kept i old none now from =
      at_receiver source total last_size chunk file a v i Receiving.testing tt
  on_reception-Kept i old (some datagram) now from =
      let w = All-elem _ datagram a.to_sender v.safe.ack_wire from in
      rw w.laid_out (elim w.kind [
        | inl greets ↦
            rw (on_reception-handshake i old w.ack now a.sending w.sendable greets)
              (at_receiver source total last_size chunk file a v i Receiving.testing tt)
        | inr (regular, honest) ↦
            rw
              (on_reception-ack_datagram i old w.ack now a.sending _ w.sendable regular
                (ack_arrived-regular a.sending.process.rtt_estimator w.ack now regular))
              (record {
                safe =
                    sender-Safe source total last_size chunk file (system a) v.safe
                      (record (a.sending.process) { rtt_estimator = _ }) [] v.safe.sender
                      (omega arith) v.safe.behind tt;
                more = omega arith;
                prepared = v.prepared;
                held =
                    All-set (IsHeld next) a.sending.receivers i (Receiving.accepting w.ack) v.held
                      honest;
              })
      ])

  receive_step-Kept :
      (place : Option Receiving) (i : ℕ) (old : AckPacket) (received : Option (List ℕ))
      (now : Timeval)
      → IsFrom a.to_sender received
      → ((r : Receiving) → place ≡ some r → IsHeld next r)
      → OnOk
          (Kept source total last_size chunk file a v)
          (receive_step source place i old received now a.sending)
  unfolding receive_step
  receive_step-Kept none i old received now from h =
      at_sender source total last_size chunk file a v a.sending.sender a.sending.done v.prepared
  receive_step-Kept (some Receiving.testing) i old received now from h =
      if-Kept source total last_size chunk file a v a.sending.done _ _
        (at_receiver source total last_size chunk file a v i Receiving.stopped tt)
        (at_receiver source total last_size chunk file a v i Receiving.listening tt)
  receive_step-Kept (some Receiving.listening) i old received now from h =
      on_reception-Kept i old received now from
  receive_step-Kept (some (Receiving.accepting ack)) i old received now from h =
      let acked = Acked-honest source total last_size chunk file (system a) v.safe ack (h _ refl) in
      rw acked.returns (record {
        safe = acked.safe a.sending.process.rtt_estimator;
        more = acked.more;
        prepared = IsPrepared-mono total chunk a.sending.sender acked.more v.prepared;
        held = All-set (IsHeld next) a.sending.receivers i Receiving.deciding v.held tt;
      })
  receive_step-Kept (some Receiving.deciding) i old received now from h =
      if-Kept source total last_size chunk file a v
        (has_data_to_send a.sending.process.slide_window) _ _
        (at_receiver source total last_size chunk file a v i Receiving.notifying tt)
        (at_receiver source total last_size chunk file a v i Receiving.deciding_finished tt)
  receive_step-Kept (some Receiving.deciding_finished) i old received now from h =
      if-Kept source total last_size chunk file a v (finished a.sending.process.slide_window) _ _
        (at_receiver source total last_size chunk file a v i Receiving.notifying tt)
        (at_receiver source total last_size chunk file a v i Receiving.testing tt)
  receive_step-Kept (some Receiving.notifying) i old received now from h =
      notified-Kept source total last_size chunk file a v
        (set a.sending.receivers i Receiving.testing) a.sending.timer
        (All-set (IsHeld next) a.sending.receivers i Receiving.testing v.held tt)
  receive_step-Kept (some Receiving.stopped) i old received now from h =
      at_sender source total last_size chunk file a v a.sending.sender a.sending.done v.prepared

  timer_step-Kept :
      (place : Timing) (now : Timeval)
      → OnOk (Kept source total last_size chunk file a v) (timer_step place now a.sending)
  unfolding timer_step
  timer_step-Kept Timing.testing now =
      if-Kept source total last_size chunk file a v a.sending.done _ _
        (at_timer source total last_size chunk file a v Timing.stopped)
        (at_timer source total last_size chunk file a v Timing.measuring)
  timer_step-Kept Timing.measuring now = at_timer source total last_size chunk file a v _
  timer_step-Kept (Timing.expiring threshold) now =
      let (more, safe) =
        expired-Safe source total last_size chunk file (system a) v.safe threshold now in
      record {
        safe = safe;
        more = more;
        prepared = IsPrepared-mono total chunk a.sending.sender more v.prepared;
        held = v.held;
      }
  timer_step-Kept Timing.deciding now =
      if-Kept source total last_size chunk file a v
        (has_data_to_send a.sending.process.slide_window) _ _
        (at_timer source total last_size chunk file a v Timing.notifying)
        (at_timer source total last_size chunk file a v Timing.testing)
  timer_step-Kept Timing.notifying now =
      notified-Kept source total last_size chunk file a v a.sending.receivers Timing.testing v.held
  timer_step-Kept Timing.stopped now =
      at_timer source total last_size chunk file a v a.sending.timer

  pub perform-Kept :
      (action : Action)
      → IsPossible a.to_sender action
      → OnOk (Kept source total last_size chunk file a v) (perform source action a.sending)
  unfolding perform
  perform-Kept (Action.send now buffer) p =
      send_step-Kept source total last_size chunk file a v a.sending.sender now buffer p.0 p.1
        v.prepared
  perform-Kept (Action.receive i old received now) p =
      receive_step-Kept (get_elem? a.sending.receivers i) i old received now p
        (λ r e. All-get (IsHeld next) a.sending.receivers i v.held e)
  perform-Kept (Action.time now) p = timer_step-Kept a.sending.timer now
  perform-Kept Action.spurious p =
      notified-Kept source total last_size chunk file a v a.sending.receivers a.sending.timer v.held
