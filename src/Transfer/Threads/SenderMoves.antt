-- ===== src/Transfer/Threads/SenderMoves.antt =====
-- What a step of the sender's threads leaves as it is in a transfer, and that the steps of `sendData` keep
-- it safe.
use reliable_packet_transmis.Base.{
  ℕ, ◌≤◌, ◌≡◌, refl, subst, Bool, true, false, if◌then◌else◌, Bool-cases, inl, inr, List, [], ◌∷◌,
  ◌++◌, set, length, OnOk, All, All-set, arith, tests,
}
use reliable_packet_transmis.Packet.{DataPacket, Timeval, data_packet_size}
use reliable_packet_transmis.Packet.Words.{FitsTimeval}
use reliable_packet_transmis.Packet.DataRoundTrip.{data_datagram}
use reliable_packet_transmis.Sender.{
  FileSource, finished, has_data_to_send, prepare_data_packets_to_send,
}
use reliable_packet_transmis.Sender.Window.{IsFile}
use reliable_packet_transmis.Sender.Sending.{IsSent, prepare_data_packets_to_send_lem}
use reliable_packet_transmis.ReliableSender.Threads.{
  Sending, Receiving, Timing, Threads, Outcome, transmit, is_deleted, send_step, woken,
}
use reliable_packet_transmis.ReliableSender.Burst.{transmit_lem}
use reliable_packet_transmis.Transfer.Invariant.{loaded, Safe}
use reliable_packet_transmis.Transfer.SenderSteps.{sender-Safe}
use reliable_packet_transmis.Transfer.Threads.{Whole, system}
use reliable_packet_transmis.Transfer.Threads.Invariant.{
  IsHeld, IsPrepared, IsPrepared-woken, IsSafe,
}

module _ (source : FileSource) (total last_size : ℕ) (chunk : ℕ → List ℕ)
    (file : IsFile source total last_size chunk) (a : Whole)
    (v : IsSafe source total last_size chunk file a) where
  abbrev pub limit : ℕ
  limit = loaded a.sending.process.slide_window

  abbrev pub next : ℕ
  next = a.receiving.receiver.next_expected_packet_seq_num

  -- What holds after a step of the sender.
  pub record Kept (o : Threads × List (List ℕ)) : Type 0 where
    pub safe :
        Safe total last_size chunk
          (record (system a) { process = o.0.process; to_receiver = o.1 ++ a.to_receiver })
    pub more : limit ≤ loaded o.0.process.slide_window
    pub prepared : IsPrepared total chunk (loaded o.0.process.slide_window) o.0.sender
    pub held : All (IsHeld next) o.0.receivers

  -- A step that leaves the window alone and sends nothing.
  pub moved-Kept :
      (sender : Sending) (receivers : List Receiving) (timer : Timing) (done : Bool)
      → IsPrepared total chunk limit sender
      → All (IsHeld next) receivers
      → Kept (
        record {
          process = a.sending.process;
          sender = sender;
          receivers = receivers;
          timer = timer;
          done = done;
        },
        [],
      )
  moved-Kept sender receivers timer done p h = record {
    safe = v.safe;
    more = omega arith;
    prepared = p;
    held = h;
  }

  pub at_sender :
      (sender : Sending) (done : Bool)
      → IsPrepared total chunk limit sender
      → Kept (record (a.sending) { sender = sender; done = done }, [])
  at_sender sender done p = moved-Kept sender a.sending.receivers a.sending.timer done p v.held

  pub at_receiver :
      (i : ℕ) (place : Receiving)
      → IsHeld next place
      → Kept (record (a.sending) { receivers = set a.sending.receivers i place }, [])
  at_receiver i place h =
      moved-Kept a.sending.sender (set a.sending.receivers i place) a.sending.timer a.sending.done
        v.prepared (All-set (IsHeld next) a.sending.receivers i place v.held h)

  pub at_timer : (timer : Timing) → Kept (record (a.sending) { timer = timer }, [])
  at_timer timer =
      moved-Kept a.sending.sender a.sending.receivers timer a.sending.done v.prepared v.held

  pub if-Kept :
      (b : Bool) (x y : Outcome) → OnOk Kept x → OnOk Kept y → OnOk Kept (if b then x else y)
  if-Kept true x y hx hy = hx
  if-Kept false x y hx hy = hy

  -- A round of sending begins.
  prepares-Kept :
      (now : Timeval)
      → FitsTimeval now
      → let (s, packets) = prepare_data_packets_to_send a.sending.process.slide_window now in
        Kept (
          record (a.sending) {
            process = record (a.sending.process) { slide_window = s };
            sender = Sending.sending packets;
          },
          [],
        )
  prepares-Kept now fits =
      let s = a.sending.process.slide_window in
      let (valid, _, _, span, _, packets) =
        prepare_data_packets_to_send_lem source total last_size chunk file s now fits
          v.safe.sender in
      let s' = (prepare_data_packets_to_send s now).0 in
      let same : loaded s ≡ loaded s' = omega (arith, span) in
      record {
        safe =
            sender-Safe source total last_size chunk file (system a) v.safe
              (record (a.sending.process) { slide_window = s' }) [] valid (omega (arith, same))
              (omega (arith, span, v.safe.behind)) tt;
        more = omega (arith, same);
        prepared =
            subst (λ limit. All (IsSent total chunk limit) (prepare_data_packets_to_send s now).1)
              same packets;
        held = v.held;
      }

  -- A prepared packet goes out.
  transmits-Kept :
      (packet : DataPacket) (packets : List DataPacket) (buffer : List ℕ)
      → data_packet_size ≤ length buffer
      → All (IsSent total chunk limit) (packet ∷ packets)
      → OnOk Kept (transmit packet packets buffer a.sending)
  unfolding transmit
  transmits-Kept packet packets buffer room sent =
      elim (Bool-cases (is_deleted a.sending.process.slide_window packet)) [
        | inl gone ↦ rw gone tt
        | inr there ↦
            rw
              (transmit_lem packet packets buffer a.sending room sent.0.sendable
                (omega (tests, there)))
              (record {
                safe =
                    sender-Safe source total last_size chunk file (system a) v.safe
                      a.sending.process (data_datagram packet ∷ []) v.safe.sender (omega arith)
                      v.safe.behind
                      (
                        record {
                          packet = packet;
                          laid_out = refl;
                          sendable = sent.0.sendable;
                          kind = inr sent.0;
                        },
                        tt,
                      );
                more = omega arith;
                prepared = sent.1;
                held = v.held;
              })
      ]

  pub send_step-Kept :
      (place : Sending) (now : Timeval) (buffer : List ℕ)
      → FitsTimeval now
      → data_packet_size ≤ length buffer
      → IsPrepared total chunk limit place
      → OnOk Kept (send_step place now buffer a.sending)
  unfolding send_step
  send_step-Kept Sending.testing now buffer fits room p =
      if-Kept (finished a.sending.process.slide_window) _ _ (at_sender Sending.stopped true tt)
        (at_sender Sending.asking a.sending.done tt)
  send_step-Kept Sending.asking now buffer fits room p =
      if-Kept (has_data_to_send a.sending.process.slide_window) _ _
        (at_sender Sending.bursting a.sending.done tt)
        (at_sender Sending.asking_finished a.sending.done tt)
  send_step-Kept Sending.asking_finished now buffer fits room p =
      if-Kept (finished a.sending.process.slide_window) _ _
        (at_sender Sending.bursting a.sending.done tt)
        (at_sender Sending.falling_asleep a.sending.done tt)
  send_step-Kept Sending.falling_asleep now buffer fits room p =
      at_sender Sending.asleep a.sending.done tt
  send_step-Kept Sending.asleep now buffer fits room p =
      at_sender a.sending.sender a.sending.done v.prepared
  send_step-Kept Sending.bursting now buffer fits room p =
      if-Kept (has_data_to_send a.sending.process.slide_window) _ _
        (at_sender Sending.preparing a.sending.done tt)
        (at_sender Sending.testing a.sending.done tt)
  send_step-Kept Sending.preparing now buffer fits room p = prepares-Kept now fits
  send_step-Kept (Sending.sending []) now buffer fits room p =
      at_sender Sending.bursting a.sending.done tt
  send_step-Kept (Sending.sending (packet ∷ packets)) now buffer fits room p =
      transmits-Kept packet packets buffer room p
  send_step-Kept Sending.stopped now buffer fits room p =
      at_sender a.sending.sender a.sending.done v.prepared

  -- The threads are notified.
  pub notified-Kept :
      (receivers : List Receiving) (timer : Timing)
      → All (IsHeld next) receivers
      → Kept (
        record (a.sending) {
          sender = woken a.sending.sender;
          receivers = receivers;
          timer = timer;
        },
        [],
      )
  notified-Kept receivers timer h =
      moved-Kept (woken a.sending.sender) receivers timer a.sending.done
        (IsPrepared-woken total chunk limit a.sending.sender v.prepared) h
