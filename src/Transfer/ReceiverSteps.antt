-- ===== src/Transfer/ReceiverSteps.antt =====
-- What the receiver's threads do in a safe state of a transfer: nothing faults, and the state stays safe.
use reliable_packet_transmis.Base.{
  All-replicate, ℕ, ◌^◌, ◌≤◌, ◌<◌, ◌≡◌, ◌⊎◌, ◌∙◌, refl, sym, ap, inl, inr, Bool, true, ltb, ◌||◌,
  ◌&&◌, ◌==◌, if◌then◌else◌, List, ◌++◌, arith, tests, All-map, All-append, Elem, All-elem, Result,
  ok, Bool-cases, replicate,
}
use mathlib.Core.Bool.{false≢true}
use reliable_packet_transmis.Packet.{DataPacket}
use reliable_packet_transmis.Packet.DataRoundTrip.{IsSendable}
use reliable_packet_transmis.Packet.AckRoundTrip.{IsSendableAck, ack_datagram}
use reliable_packet_transmis.Receiver.{Receiver, Reply, finished, within}
use reliable_packet_transmis.Receiver.Invariant.{has, next-le-total}
use reliable_packet_transmis.Receiver.Receive.{Receives, next-awaited}
use reliable_packet_transmis.ReliableReceiver.{on_datagram, regular_ack, handshake_ack}
use reliable_packet_transmis.ReliableReceiver.Datagrams.{
  on_datagram_lem, on_datagram-handshake, arrived,
}
use reliable_packet_transmis.Sender.{FileSource}
use reliable_packet_transmis.Sender.Window.{IsFile}
use reliable_packet_transmis.Sender.Sending.{IsSent}
use reliable_packet_transmis.Transfer.{System}
use reliable_packet_transmis.Transfer.Invariant.{loaded, IsAck, Safe, IsAck-mono}

choice_lt : (b : Bool) (x y z m : ℕ) → z ≡ (if b then x else y) → x < m → y < m → z < m
choice_lt b x y z m e hx hy = ground arith

module _ (source : FileSource) (total last_size : ℕ) (chunk : ℕ → List ℕ)
    (file : IsFile source total last_size chunk) (a : System)
    (v : Safe total last_size chunk a) where
  -- What a call of the receiver on a packet of the file does to the whole.
  module _ (packet : DataPacket) (sent : IsSent total chunk (loaded a.process.slide_window) packet)
      (seen : DataPacket) (same_seq : seen.seq_num ≡ packet.seq_num) (r' : Receiver) (reply : Reply)
      (call : Result (Receiver × Reply))
      (c : Receives total chunk a.receiver seen call r' reply) where
    abbrev next : ℕ
    next = a.receiver.next_expected_packet_seq_num

    abbrev next' : ℕ
    next' = r'.next_expected_packet_seq_num

    pub forward : next ≤ next'
    forward = elim (Bool-cases (ltb next' next)) [
      | inr ahead ↦ omega tests
      | inl back ↦
          let kept : has a.receiver next' ≡ true = rw back in
          let gained : has r' next' ≡ true = c.gains next' ∙ rw kept in
          absurd (false≢true (sym (next-awaited total chunk r' c.valid) ∙ gained))
    ]

    gained_cases : (b w : Bool) (k s : ℕ) → (b || (w && k == s)) ≡ true → (b ≡ true) ⊎ (k ≡ s)
    gained_cases b w k s h = ground arith

    ahead' : (k : ℕ) → has r' k ≡ true → k < loaded a.process.slide_window
    ahead' k h = elim (gained_cases _ _ k seen.seq_num (sym (c.gains k) ∙ h)) [
      | inl old ↦ v.ahead k old
      | inr new ↦ omega (arith, new, same_seq, sent.below)
    ]

    next'-le-total : next' ≤ total
    next'-le-total = next-le-total total chunk r' c.valid.holds

    selective_fits : reply.selective_seq_num < 2 ^ 32
    selective_fits =
        choice_lt (within a.receiver seen.seq_num) seen.seq_num next' reply.selective_seq_num
          (2 ^ 32) c.selective (omega (arith, same_seq, sent.sendable.seq_fits))
          (omega (arith, next'-le-total, file.small))

    pub reply-IsSendableAck : IsSendableAck (regular_ack reply packet.sent_time)
    reply-IsSendableAck = record {
      known = λ e. cc;
      cumulative_fits = omega (arith, c.cumulative, next'-le-total, file.small);
      selective_fits = selective_fits;
      time_fits = sent.sendable.time_fits;
    }

    pub reply-IsAck : IsAck next' (ack_datagram (regular_ack reply packet.sent_time))
    reply-IsAck = record {
      ack = regular_ack reply packet.sent_time;
      laid_out = refl;
      sendable = reply-IsSendableAck;
      kind = inr (refl, omega (arith, c.cumulative));
    }

    pub received-Safe :
        (copies : ℕ)
        → Safe total last_size chunk (record a {
          receiver = r';
          to_sender =
              replicate copies (ack_datagram (regular_ack reply packet.sent_time)) ++ a.to_sender;
        })
    received-Safe copies = record {
      sender = v.sender;
      receiver = c.valid;
      data_wire = v.data_wire;
      ack_wire =
          All-append _ _ a.to_sender (All-replicate _ copies _ reply-IsAck)
            (All-map _ _ (λ d h. IsAck-mono d forward h) a.to_sender v.ack_wire);
      behind = omega (arith, v.behind, forward);
      ahead = ahead';
    }

  pub greeted-Safe :
      (packet : DataPacket) (sendable : IsSendable packet) (copies : ℕ)
      → Safe total last_size chunk (record a {
        to_sender = replicate copies (ack_datagram (handshake_ack packet.sent_time)) ++ a.to_sender;
      })
  greeted-Safe packet sendable copies = record {
    sender = v.sender;
    receiver = v.receiver;
    data_wire = v.data_wire;
    ack_wire =
        All-append _ _ a.to_sender
          (All-replicate _ copies _ (record {
            ack = handshake_ack packet.sent_time;
            laid_out = refl;
            sendable = record {
              known = λ e. cc;
              cumulative_fits = omega arith;
              selective_fits = omega arith;
              time_fits = sendable.time_fits;
            };
            kind = inl refl;
          }))
          v.ack_wire;
    behind = v.behind;
    ahead = v.ahead;
  }

  -- A round of a receiver's thread, on a datagram from the wire.
  pub on_datagram-Safe :
      (datagram : List ℕ)
      → Elem datagram a.to_receiver
      → (r' : Receiver) × (sent : List (List ℕ)) × (on_datagram a.receiver datagram ≡ ok (r', sent))
        × Safe total last_size chunk (record a { receiver = r'; to_sender = sent ++ a.to_sender })
  on_datagram-Safe datagram from_wire =
      let w = All-elem _ datagram a.to_receiver v.data_wire from_wire in
      elim w.kind [
        | inl greets ↦ (
          a.receiver,
          _,
          ap (on_datagram a.receiver) w.laid_out
              ∙ on_datagram-handshake w.packet w.sendable a.receiver greets,
          greeted-Safe w.packet w.sendable (if finished a.receiver then 4 else 1),
        )
        | inr sent ↦
            let (r', reply, c, e) =
              on_datagram_lem w.packet w.sendable total chunk (omega (arith, file.small)) a.receiver
                sent.of_file v.receiver in
            (
              r',
              _,
              ap (on_datagram a.receiver) w.laid_out ∙ e,
              received-Safe w.packet sent (arrived w.packet w.sendable) refl r' reply _ c
                  (if finished r' then 4 else 1),
            )
      ]
