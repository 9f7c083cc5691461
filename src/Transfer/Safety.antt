-- ===== src/Transfer/Safety.antt =====
-- What every execution of a transfer comes to, whatever the network does and however the threads
-- interleave.
use reliable_packet_transmis.Base.{
  ℕ, ◌+◌, ◌-◌, ◌*◌, ◌^◌, ◌≤◌, ◌<◌, ◌≡◌, refl, inl, true, List, ◌++◌, length, arith, All, Elem, ok,
  ok-unique, sym, ◌∙◌, lt→ltb,
}
use mathlib.Core.Bool.{false≢true}
use reliable_packet_transmis.Packet.{AckPacket, Timeval, data_packet_size, data_packet_data_size}
use reliable_packet_transmis.Packet.Words.{FitsTimeval}
use reliable_packet_transmis.Receiver.{Receiver, FileWrite, finished as receiver_finished}
use reliable_packet_transmis.Receiver.Invariant.{has, chunk_write, IsInPlace}
use reliable_packet_transmis.Receiver.Receive.{init-IsValid}
use reliable_packet_transmis.Receiver.Finished as ReceiverFinished
use reliable_packet_transmis.ReliableReceiver.{on_datagram}
use reliable_packet_transmis.Rtt
use reliable_packet_transmis.Rtt.{estimator_alpha, estimator_beta}
use reliable_packet_transmis.Sender.{Sender, FileSource, finished, last_seq_num_of, last_size_of}
use reliable_packet_transmis.Sender.Window.{IsFile, bytes_below}
use reliable_packet_transmis.Sender.Start
use reliable_packet_transmis.ReliableSender.{Process, send_data, receive_ack, start}
use reliable_packet_transmis.Transfer.{
  System, Step, greets, sends, delivers, acknowledges, checks, Reach, here, next, initial,
}
use reliable_packet_transmis.Transfer.Invariant.{Safe}
use reliable_packet_transmis.Transfer.SenderSteps.{
  send_data-Safe, check_timeout-Safe, receive_ack-Safe,
}
use reliable_packet_transmis.Transfer.ReceiverSteps.{on_datagram-Safe}

module _ (source : FileSource) (total last_size : ℕ) (chunk : ℕ → List ℕ)
    (file : IsFile source total last_size chunk) where
  -- A process that starts to send the file, with a fresh receiver, is safe.
  pub start-Safe :
      (timeout bytes : ℕ) (p : Process)
      → last_seq_num_of bytes + 1 ≡ total
      → last_size_of bytes ≡ last_size
      → bytes ≡ bytes_below chunk total
      → start source timeout bytes ≡ ok p
      → Safe total last_size chunk (initial p)
  unfolding start
  start-Safe timeout bytes p el es eb e =
      let (s, begins, valid, left) =
        Start.init_lem source total last_size chunk file bytes true el es eb in
      let (empty, nothing) = init-IsValid total chunk in
      ok-unique (λ p. Safe total last_size chunk (initial p)) (start source timeout bytes)
        {x = begun s} (rw begins) e
        (record {
          sender = valid;
          receiver = empty;
          data_wire = tt;
          ack_wire = tt;
          behind = omega (arith, left);
          ahead = λ k h. absurd (false≢true (sym (nothing k) ∙ h));
        })
    where
      begun : Sender → Process
      begun s = record {
        slide_window = s;
        rtt_estimator = Rtt.init timeout estimator_alpha estimator_beta;
      }

  -- Every step keeps the transfer safe.
  pub Step-Safe :
      {a b : System} → Step source a b → Safe total last_size chunk a → Safe total last_size chunk b
  Step-Safe {a} (greets packet kind sendable) v = record {
    sender = v.sender;
    receiver = v.receiver;
    data_wire = (
      record { packet = packet; laid_out = refl; sendable = sendable; kind = inl kind },
      v.data_wire,
    );
    ack_wire = v.ack_wire;
    behind = v.behind;
    ahead = v.ahead;
  }
  Step-Safe {a} (sends now buffer p sent fits room e) v =
      let (p', sent', e', safe) =
        send_data-Safe source total last_size chunk file a v now buffer fits room in
      ok-unique
        (λ (o : Process × List (List ℕ)).
          Safe total last_size chunk
            (record a { process = o.0; to_receiver = o.1 ++ a.to_receiver }))
        (send_data a.process now buffer) e' e safe
  Step-Safe {a} (delivers datagram r sent from_wire e) v =
      let (r', sent', e', safe) =
        on_datagram-Safe source total last_size chunk file a v datagram from_wire in
      ok-unique
        (λ (o : Receiver × List (List ℕ)).
          Safe total last_size chunk (record a { receiver = o.0; to_sender = o.1 ++ a.to_sender }))
        (on_datagram a.receiver datagram) e' e safe
  Step-Safe {a} (acknowledges datagram old now p from_wire e) v =
      let (p', e', safe) =
        receive_ack-Safe source total last_size chunk file a v datagram old now from_wire in
      ok-unique (λ p. Safe total last_size chunk (record a { process = p }))
        (receive_ack source a.process old datagram now) e' e safe
  Step-Safe {a} (checks now) v = check_timeout-Safe source total last_size chunk file a v now

  pub Reach-Safe :
      {a b : System}
      → Safe total last_size chunk a
      → Reach source a b
      → Safe total last_size chunk b
  Reach-Safe v here = v
  Reach-Safe v (next r st) = Step-Safe st (Reach-Safe v r)

  module _ {a b : System} (safe : Safe total last_size chunk a) (run : Reach source a b) where
    -- In every state that a transfer of a file of at most 2 ^ 30 packets can reach from a safe
    -- state, no assertion fails and no buffer or deque is left: a round of sending into a buffer
    -- of a packet's size, the delivery of any datagram that was ever sent to the receiver, and the
    -- arrival of any datagram that was ever sent to the sender, all return.
    pub no_fault :
        ((now : Timeval) (buffer : List ℕ)
          → FitsTimeval now
          → data_packet_size ≤ length buffer
          → (out : Process × List (List ℕ)) × (send_data b.process now buffer ≡ ok out))
        × ((datagram : List ℕ)
            → Elem datagram b.to_receiver
            → (out : Receiver × List (List ℕ)) × (on_datagram b.receiver datagram ≡ ok out))
        × ((datagram : List ℕ) (old : AckPacket) (now : Timeval)
            → Elem datagram b.to_sender
            → (p : Process) × (receive_ack source b.process old datagram now ≡ ok p))
    no_fault =
        let v = Reach-Safe safe run in
        (
          λ now buffer fits room.
              let (p, sent, e, _) =
                send_data-Safe source total last_size chunk file b v now buffer fits room in
              ((p, sent), e),
          λ datagram from_wire.
              let (r, sent, e, _) =
                on_datagram-Safe source total last_size chunk file b v datagram from_wire in
              ((r, sent), e),
          λ datagram old now from_wire.
              let (p, e, _) =
                receive_ack-Safe source total last_size chunk file b v datagram old now from_wire in
              (p, e),
        )

    -- In every state that a transfer of a file of at most 2 ^ 30 packets can reach from a safe
    -- state, the receiver has received and written every packet left of the sender's window: the
    -- sender never discards a packet that the receiver has not got.
    pub acknowledged-received :
        (k : ℕ)
        → k < b.process.slide_window.slide_window_left_bound_seq_num
        → (has b.receiver k ≡ true) × Elem (chunk_write chunk k) b.receiver.writes
    acknowledged-received k h =
        let v = Reach-Safe safe run in
        let left : has b.receiver k ≡ true =
          rw (lt→ltb k b.receiver.next_expected_packet_seq_num (omega (arith, v.behind))) in
        (left, v.receiver.holds.stored k left)

    -- When the sender says that it has finished, so has the receiver, whose writes are those of all
    -- packets, at the offsets that the code computes.
    pub finished-together :
        finished b.process.slide_window ≡ true
        → (receiver_finished b.receiver ≡ true)
          × (length b.receiver.writes ≡ total)
          × All
              (λ (w : FileWrite). (k : ℕ) × (k < total) × (w ≡ chunk_write chunk k))
              b.receiver.writes
          × ((k : ℕ) → k < total → Elem (chunk_write chunk k) b.receiver.writes)
    finished-together f =
        let v = Reach-Safe safe run in
        let at_end =
          (Start.finished_iff_acked source total last_size chunk file b.process.slide_window
              v.sender).0
            f in
        let all : (k : ℕ) → k < total → has b.receiver k ≡ true =
          (λ k h. (acknowledged-received k (omega (arith, at_end))).0) in
        let heard =
          v.receiver.holds.last_heard (total - 1) (omega (arith, file.not_empty))
            (all (total - 1) (omega (arith, file.not_empty))) in
        let room : total + 400 ≤ 2 ^ 32 = omega (arith, file.small) in
        let done =
          (ReceiverFinished.finished_iff total chunk room b.receiver v.receiver).1 (heard, all) in
        let (count, honest, every) =
          ReceiverFinished.finished-chunk_writes total chunk room b.receiver v.receiver done in
        (done, count, honest, every)

    -- From a safe state of a transfer of a file, whose last packet begins below 2 ^ 32 bytes, in
    -- any reachable state in which the sender says that it has finished, the receiver has
    -- finished, there are as many writes as packets, each write puts some packet's bytes at 1450
    -- times its number, and every packet's write is among them.
    pub finished_reliably :
        data_packet_data_size * (total - 1) < 2 ^ 32
        → finished b.process.slide_window ≡ true
        → (receiver_finished b.receiver ≡ true) × IsInPlace total chunk b.receiver.writes
    finished_reliably unwrapped f =
        let done = (finished-together f).0 in
        (
          done,
          ReceiverFinished.finished-writes total chunk b.receiver unwrapped
              (Reach-Safe safe run).receiver done,
        )
