-- ===== src/Transfer/Selective.antt =====
-- Selective acknowledgement: what the sender has marked as acknowledged, within its window too, the
-- receiver has got.
use reliable_packet_transmis.Base.{
  ℕ, ◌≡◌, refl, sym, ap, ◌∙◌, Bool, true, ◌&&◌, ◌||◌, ◌==◌, if◌then◌else◌, Bool-cases, inl, inr,
  List, ◌++◌, Result, ok, OnOk-ok, replicate, arith, All, All-append, All-map, All-elem,
  All-replicate, Elem, ok-unique,
}
use reliable_packet_transmis.Packet.{DataPacket, Timeval}
use reliable_packet_transmis.Packet.DataRoundTrip.{IsSendable}
use reliable_packet_transmis.Packet.AckRoundTrip.{IsSendableAck, ack_datagram}
use reliable_packet_transmis.Receiver.{Receiver, Reply, finished, within}
use reliable_packet_transmis.Receiver.Invariant.{has, chunk_write}
use reliable_packet_transmis.Receiver.Receive.{Receives}
use reliable_packet_transmis.ReliableReceiver.{on_datagram, regular_ack, handshake_ack}
use reliable_packet_transmis.ReliableReceiver.Datagrams.{
  on_datagram_lem, on_datagram-handshake, arrived,
}
use reliable_packet_transmis.Sender.{Item, ItemState, FileSource}
use reliable_packet_transmis.Sender.Window.{IsFile}
use reliable_packet_transmis.Sender.Acked.{AckedOnly}
use reliable_packet_transmis.ReliableSender.{Process, send_data, handle_ack, receive_ack}
use reliable_packet_transmis.Transfer.{
  System, Step, greets, sends, delivers, acknowledges, checks, Reach, here, next,
}
use reliable_packet_transmis.Transfer.Invariant.{Safe}
use reliable_packet_transmis.Transfer.Safety.{Reach-Safe}
use reliable_packet_transmis.Transfer.ReceiverSteps.{reply-IsSendableAck}
use reliable_packet_transmis.Transfer.Sacked.{
  IsHonest, Sacked, send_data-AckedOnly, receive_ack-handle_ack, checked-Sacked,
  handle_ack-AckedOnly, Has,
}

gains_itself : (b w : Bool) (k : ℕ) → w ≡ true → (b || (w && k == k)) ≡ true
gains_itself b w k h = ground arith

module _ (source : FileSource) (total last_size : ℕ) (chunk : ℕ → List ℕ)
    (file : IsFile source total last_size chunk) where
  -- A reply names no packet that the receiver has not got.
  reply-IsHonest :
      (r r' : Receiver) (packet : DataPacket) (time : Timeval) (reply : Reply)
      (call : Result (Receiver × Reply))
      → Receives total chunk r packet call r' reply
      → IsSendableAck (regular_ack reply time)
      → IsHonest r' (ack_datagram (regular_ack reply time))
  reply-IsHonest r r' packet time reply call c sendable = record {
    ack = regular_ack reply time;
    laid_out = refl;
    sendable = sendable;
    kind = inr (
      refl,
      λ differ. elim (Bool-cases (within r packet.seq_num)) [
        | inl w ↦
            let named : reply.selective_seq_num ≡ packet.seq_num = c.selective ∙ rw w in
            let got : has r' packet.seq_num ≡ true =
              c.gains packet.seq_num ∙ gains_itself _ _ packet.seq_num w in
            rw named got
        | inr w ↦
            let named : reply.selective_seq_num ≡ r'.next_expected_packet_seq_num =
              c.selective ∙ rw w in
            absurd (differ (c.cumulative ∙ sym named))
      ],
    );
  }

  IsHonest-mono :
      (r r' : Receiver)
      → ((k : ℕ) → Has r k → Has r' k)
      → (datagram : List ℕ) → IsHonest r datagram
      → IsHonest r' datagram
  IsHonest-mono r r' more datagram h = record {
    ack = h.ack;
    laid_out = h.laid_out;
    sendable = h.sendable;
    kind = elim h.kind [
      | inl greeting ↦ inl greeting
      | inr (regular, honest) ↦ inr (regular, λ differ. more _ (honest differ))
    ];
  }

  greeted-Sacked :
      (a : System) (packet : DataPacket) (sendable : IsSendable packet) (copies : ℕ)
      → Sacked a
      → Sacked (record a {
        to_sender = replicate copies (ack_datagram (handshake_ack packet.sent_time)) ++ a.to_sender;
      })
  greeted-Sacked a packet sendable copies h = record {
    items = h.items;
    wire =
        All-append _ _ a.to_sender
          (All-replicate (IsHonest a.receiver) copies _ (record {
            ack = handshake_ack packet.sent_time;
            laid_out = refl;
            sendable = record {
              known = λ e. cc;
              cumulative_fits = omega arith;
              selective_fits = omega arith;
              time_fits = sendable.time_fits;
            };
            kind = inl refl;
          }))
          h.wire;
  }

  received-Sacked :
      (a : System) (packet : DataPacket) (time : Timeval) (r' : Receiver) (reply : Reply)
      (call : Result (Receiver × Reply)) (copies : ℕ)
      → Receives total chunk a.receiver packet call r' reply
      → IsSendableAck (regular_ack reply time)
      → Sacked a
      → Sacked (record a {
        receiver = r';
        to_sender = replicate copies (ack_datagram (regular_ack reply time)) ++ a.to_sender;
      })
  received-Sacked a packet time r' reply call copies c sendable h =
      let more : (k : ℕ) → Has a.receiver k → Has r' k = (λ k got. c.gains k ∙ rw got) in
      record {
        items = All-map _ _ (λ x item acked. more x.seq_num (item acked)) _ h.items;
        wire =
            All-append _ _ a.to_sender
              (All-replicate (IsHonest r') copies _
                (reply-IsHonest a.receiver r' packet time reply call c sendable))
              (All-map _ _ (IsHonest-mono a.receiver r' more) a.to_sender h.wire);
      }

  delivered-Sacked :
      (a : System) (datagram : List ℕ) (r : Receiver) (sent : List (List ℕ))
      → Elem datagram a.to_receiver
      → on_datagram a.receiver datagram ≡ ok (r, sent)
      → Safe total last_size chunk a
      → Sacked a
      → Sacked (record a { receiver = r; to_sender = sent ++ a.to_sender })
  delivered-Sacked a datagram r sent from_wire e v h =
      let w = All-elem _ datagram a.to_receiver v.data_wire from_wire in
      elim w.kind [
        | inl greeting ↦
            ok-unique after (on_datagram a.receiver datagram)
              (ap (on_datagram a.receiver) w.laid_out
                ∙ on_datagram-handshake w.packet w.sendable a.receiver greeting)
              e (greeted-Sacked a w.packet w.sendable (if finished a.receiver then 4 else 1) h)
        | inr packet ↦
            let (r', reply, c, returns) =
              on_datagram_lem w.packet w.sendable total chunk (omega (arith, file.small)) a.receiver
                packet.of_file v.receiver in
            ok-unique after (on_datagram a.receiver datagram)
              (ap (on_datagram a.receiver) w.laid_out ∙ returns) e
              (received-Sacked a (arrived w.packet w.sendable) w.packet.sent_time r' reply _
                (if finished r' then 4 else 1) c
                (reply-IsSendableAck source total last_size chunk file a v w.packet packet
                  (arrived w.packet w.sendable) refl r' reply _ c)
                h)
      ]
    where
      after : Receiver × List (List ℕ) → Type 0
      after o = Sacked (record a { receiver = o.0; to_sender = o.1 ++ a.to_sender })

  -- Every step keeps it.
  Step-Sacked :
      {a b : System} → Step source a b → Safe total last_size chunk a → Sacked a → Sacked b
  Step-Sacked {a} (greets packet kind sendable) v h = record { items = h.items; wire = h.wire }
  Step-Sacked {a} (sends now buffer p sent fits room e) v h = record {
    items =
        OnOk-ok
          (λ (o : Process × List (List ℕ)).
            AckedOnly (Has a.receiver) o.0.slide_window.slide_window)
          (send_data a.process now buffer) e
          (send_data-AckedOnly (Has a.receiver) a.process now buffer h.items);
    wire = h.wire;
  }
  Step-Sacked {a} (delivers datagram r sent from_wire e) v h =
      delivered-Sacked a datagram r sent from_wire e v h
  Step-Sacked {a} (acknowledges datagram old now p from_wire e) v h =
      let w = All-elem _ datagram a.to_sender h.wire from_wire in
      let handled : handle_ack w.ack.type source a.process w.ack now ≡ ok p =
        sym (receive_ack-handle_ack source a.process old w.ack now w.sendable)
        ∙ ap (λ d. receive_ack source a.process old d now) (sym w.laid_out)
        ∙ e in
      record {
        items =
            OnOk-ok (λ (p : Process). AckedOnly (Has a.receiver) p.slide_window.slide_window)
              (handle_ack w.ack.type source a.process w.ack now) handled
              (handle_ack-AckedOnly source total last_size chunk file a w.ack now v w.sendable
                h.items w.kind);
        wire = h.wire;
      }
  Step-Sacked {a} (checks now) v h = checked-Sacked a now h

  pub Reach-Sacked :
      {a b : System} → Safe total last_size chunk a → Sacked a → Reach source a b → Sacked b
  Reach-Sacked v h here = h
  Reach-Sacked v h (next r st) =
      Step-Sacked st (Reach-Safe source total last_size chunk file v r) (Reach-Sacked v h r)

  -- In every state that a transfer of a file of at most 2 ^ 30 packets can reach from a safe state
  -- in which what is marked as acknowledged has been received and no ACK on its way names by two
  -- different numbers a packet that has not been received, every item of the sender's window that
  -- is marked as acknowledged has been received and written by the receiver: no packet is given up
  -- before it is there.
  pub selectively_acknowledged-received :
      {a b : System}
      → Safe total last_size chunk a
      → Sacked a
      → Reach source a b
      → All
          (λ (x : Item).
            x.state ≡ ItemState.acked
            → (has b.receiver x.seq_num ≡ true)
              × Elem (chunk_write chunk x.seq_num) b.receiver.writes)
          b.process.slide_window.slide_window
  selectively_acknowledged-received {b} safe h run =
      let v = Reach-Safe source total last_size chunk file safe run in
      All-map _ _ (λ x item acked. (item acked, v.receiver.holds.stored x.seq_num (item acked)))
        b.process.slide_window.slide_window (Reach-Sacked safe h run).items
