-- ===== src/ReliableReceiver/Loop.antt =====
-- The loop of a receiving thread, `receiveDataReplyAck` (src/reliable_receiver.cpp), over all that
-- `recvfrom` gives: time-outs, and datagrams that the sender made.
use reliable_packet_transmis.Base.{
  ℕ, ◌+◌, ◌*◌, ◌^◌, ◌≤◌, ◌<◌, ◌≡◌, ◌⊎◌, ◌&&◌, ◌||◌, ◌==◌, refl, sym, ◌∙◌, inl, inr, true, false,
  List, [], ◌∷◌, ltb, ◌-◌, ◌++◌, Option, some, none, ok, arith, tests, All, Bool-cases,
}
use mathlib.Core.Bool.{false≢true}
use reliable_packet_transmis.Packet.{DataPacket, DataType, data_packet_data_size}
use reliable_packet_transmis.Packet.DataRoundTrip.{IsSendable, data_datagram}
use reliable_packet_transmis.Receiver.{Receiver, init, finished, within}
use reliable_packet_transmis.Receiver.Invariant.{has, IsInPlace, IsPacketOf, IsValid, next-le-total}
use reliable_packet_transmis.Receiver.Receive.{next-awaited, init-IsValid}
use reliable_packet_transmis.Receiver.Finished.{finished_iff, finished-writes}
use reliable_packet_transmis.ReliableReceiver.{on_datagram, receive_data_reply_ack}
use reliable_packet_transmis.ReliableReceiver.Datagrams.{on_datagram_lem, on_datagram-handshake}

-- A datagram that the sender of a file makes: a handshake or a packet of the file.
pub record IsFromSender (total : ℕ) (chunk : ℕ → List ℕ) (datagram : List ℕ) : Type 0 where
  pub packet : DataPacket
  pub laid_out : datagram ≡ data_datagram packet
  pub sendable : IsSendable packet
  pub kind : (packet.type ≡ DataType.handshake) ⊎ IsPacketOf total chunk packet

-- What `recvfrom` may give.
abbrev pub IsEvent : ℕ → (ℕ → List ℕ) → Option (List ℕ) → Type 0
IsEvent total chunk none = Unit
IsEvent total chunk (some datagram) = IsFromSender total chunk datagram

-- Among the events, packets `n`, `n + 1` and so on up to the last come in this order, with anything
-- between them.
pub data InOrder (total : ℕ) (chunk : ℕ → List ℕ) : ℕ → List (Option (List ℕ)) → Type 0 where
  complete : {n : ℕ} → total ≤ n → (events : List (Option (List ℕ))) → InOrder total chunk n events
  other :
      {n : ℕ} {events : List (Option (List ℕ))} (event : Option (List ℕ))
      → InOrder total chunk n events
      → InOrder total chunk n (event ∷ events)
  awaited :
      {n : ℕ} {events : List (Option (List ℕ))} (packet : DataPacket)
      → IsSendable packet
      → IsPacketOf total chunk packet
      → packet.seq_num ≡ n
      → InOrder total chunk (n + 1) events
      → InOrder total chunk n (some (data_datagram packet) ∷ events)

module _ (total : ℕ) (chunk : ℕ → List ℕ) (room : total + 400 ≤ 2 ^ 32) where
  -- A round on a datagram from the sender.
  pub record Round (r : Receiver) (datagram : List ℕ) : Type 0 where
    pub receiver : Receiver
    pub sent : List (List ℕ)
    pub returns : on_datagram r datagram ≡ ok (receiver, sent)
    pub valid : IsValid total chunk receiver
    pub keeps : (k : ℕ) → has r k ≡ true → has receiver k ≡ true

  packet_round :
      (r : Receiver) (packet : DataPacket)
      → IsSendable packet
      → IsPacketOf total chunk packet
      → IsValid total chunk r
      → (round : Round r (data_datagram packet)) × ((k : ℕ)
          → has round.receiver k ≡ (has r k || (within r packet.seq_num && k == packet.seq_num)))
  packet_round r packet sendable p v =
      let (r', reply, c, returns) = on_datagram_lem packet sendable total chunk room r p v in
      (
        record {
          receiver = r';
          sent = _;
          returns = returns;
          valid = c.valid;
          keeps = λ k h. c.gains k ∙ rw h;
        },
        c.gains,
      )

  any_round :
      (r : Receiver) (datagram : List ℕ)
      → IsFromSender total chunk datagram
      → IsValid total chunk r
      → Round r datagram
  any_round r datagram d v = elim d.kind [
    | inl greets ↦ rw d.laid_out (record {
      receiver = r;
      sent = _;
      returns = on_datagram-handshake d.packet d.sendable r greets;
      valid = v;
      keeps = λ k h. h;
    })
    | inr p ↦ rw d.laid_out (packet_round r d.packet d.sendable p v).0
  ]

  -- A valid receiver that has all packets below `n` accepts packet `n` if it has not got it.
  pub awaited-within :
      (r : Receiver) (n : ℕ)
      → IsValid total chunk r
      → ((k : ℕ) → k < n → has r k ≡ true)
      → n < total
      → (has r n || (within r n && n == n)) ≡ true
  awaited-within r n v have in_range = elim (Bool-cases (has r n)) [
    | inl there ↦ rw there
    | inr missing ↦
        let next = r.next_expected_packet_seq_num in
        let not_before : next ≤ n = elim (Bool-cases (ltb n next)) [
          | inl left ↦ absurd (false≢true (sym missing ∙ rw left))
          | inr behind ↦ omega (tests, behind)
        ] in
        let not_behind : n ≤ next = elim (Bool-cases (ltb next n)) [
          | inl left ↦
              absurd
                (false≢true (sym (next-awaited total chunk r v) ∙ have next (omega (tests, left))))
          | inr behind ↦ omega (tests, behind)
        ] in
        rw missing (ground (arith, v.holds.sized, next-le-total total chunk r v.holds))
  ]

  pub all-finished :
      (r : Receiver)
      → IsValid total chunk r
      → 0 < total
      → ((k : ℕ) → k < total → has r k ≡ true)
      → finished r ≡ true
  all-finished r v positive all =
      (finished_iff total chunk room r v).1
        (v.holds.last_heard (total - 1) (omega arith) (all (total - 1) (omega arith)), all)

  -- The loop does nothing once the receiver has finished.
  stops :
      (r : Receiver) (events : List (Option (List ℕ)))
      → finished r ≡ true
      → receive_data_reply_ack r events ≡ ok (r, [])
  unfolding receive_data_reply_ack
  stops r [] f = refl
  stops r (none ∷ events) f = rw f
  stops r (some received ∷ events) f = rw f

  -- What the loop comes to when it ends with the transfer.
  pub record Completes (r : Receiver) (events : List (Option (List ℕ))) : Type 0 where
    pub receiver : Receiver
    pub sent : List (List ℕ)
    pub returns : receive_data_reply_ack r events ≡ ok (receiver, sent)
    pub has_finished : finished receiver ≡ true
    pub valid : IsValid total chunk receiver

  Completes-at_once :
      (r : Receiver) (events : List (Option (List ℕ)))
      → IsValid total chunk r
      → finished r ≡ true
      → Completes r events
  Completes-at_once r events v f = record {
    receiver = r;
    sent = [];
    returns = stops r events f;
    has_finished = f;
    valid = v;
  }

  Completes-after :
      (r : Receiver) (datagram : List ℕ) (events : List (Option (List ℕ)))
      → (round : Round r datagram) → finished r ≡ false
      → Completes round.receiver events
      → Completes r (some datagram ∷ events)
  unfolding receive_data_reply_ack
  Completes-after r datagram events round going c = record {
    receiver = c.receiver;
    sent = round.sent ++ c.sent;
    returns = rw (going, round.returns, c.returns);
    has_finished = c.has_finished;
    valid = c.valid;
  }

  module _ (positive : 0 < total) where
    Completes-from :
        (n : ℕ) (events : List (Option (List ℕ))) (r : Receiver)
        → IsValid total chunk r
        → All (IsEvent total chunk) events
        → InOrder total chunk n events
        → ((k : ℕ) → k < n → has r k ≡ true)
        → Completes r events
    unfolding receive_data_reply_ack
    Completes-from n events r v es (complete le _) have =
        Completes-at_once r events v (all-finished r v positive (λ k h. have k (omega arith)))
    Completes-from n (none ∷ events) r v es (other _ o) have = elim (Bool-cases (finished r)) [
      | inl f ↦ Completes-at_once r (none ∷ events) v f
      | inr going ↦
          let c = Completes-from n events r v es.1 o have in
          record {
            receiver = c.receiver;
            sent = c.sent;
            returns = rw going c.returns;
            has_finished = c.has_finished;
            valid = c.valid;
          }
    ]
    Completes-from n (some datagram ∷ events) r v es (other _ o) have =
        elim (Bool-cases (finished r)) [
          | inl f ↦ Completes-at_once r (some datagram ∷ events) v f
          | inr going ↦
              let round = any_round r datagram es.0 v in
              Completes-after r datagram events round going (
                Completes-from n events round.receiver round.valid es.1 o
                  (λ k h. round.keeps k (have k h)))
        ]
    Completes-from n (some datagram ∷ events) r v es (awaited packet sendable p e o) have =
        elim (Bool-cases (finished r)) [
          | inl f ↦ Completes-at_once r (some datagram ∷ events) v f
          | inr going ↦
              let (round, gains) = packet_round r packet sendable p v in
              Completes-after r datagram events round going (
                Completes-from (n + 1) events round.receiver round.valid es.1 o (λ k h.
                  elim (Bool-cases (ltb k n)) [
                    | inl before ↦ round.keeps k (have k (omega (tests, before)))
                    | inr last ↦
                        let same : k ≡ n = omega (tests, last) in
                        rw (same, gains n, e)
                          (awaited-within r n v have (omega (arith, p.in_range, e)))
                  ]))
        ]

-- A receiving thread of a fresh receiver that gets datagrams from the sender of a file of at least
-- one packet, the last of which begins below 2 ^ 32 bytes, with time-outs, losses, repetitions and
-- reordering, but so that packets 0, 1, 2 and so on up to the last occur in this order with
-- anything between them, returns without a fault: the receiver has finished, there are as many
-- writes as packets, each puts some packet's bytes at 1450 times its number, and every packet's
-- write is among them.
pub receive_data_reply_ack_lem :
    (total : ℕ) (chunk : ℕ → List ℕ) (events : List (Option (List ℕ)))
    → 0 < total
    → data_packet_data_size * (total - 1) < 2 ^ 32
    → All (IsEvent total chunk) events
    → InOrder total chunk 0 events
    → (r : Receiver) × (sent : List (List ℕ)) × (receive_data_reply_ack init events ≡ ok (r, sent))
      × (finished r ≡ true)
      × IsInPlace total chunk r.writes
receive_data_reply_ack_lem total chunk events positive unwrapped es o =
    let c =
      Completes-from total chunk (omega arith) positive 0 events init (init-IsValid total chunk).0
        es o (λ k h. absurd (omega arith)) in
    (
      c.receiver,
      c.sent,
      c.returns,
      c.has_finished,
      finished-writes total chunk c.receiver unwrapped c.valid c.has_finished,
    )
