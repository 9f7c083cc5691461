-- ===== src/ReliableSender/Greeting.antt =====
-- The handshake of src/reliable_sender.cpp: it does not fault, sends nothing but handshakes, collects no
-- more times than it has room for, and estimates by the smallest of them.
use reliable_packet_transmis.Base.{
  All-replicate, ℕ, subst, ◌+◌, ◌≤◌, ◌<◌, ◌≡◌, refl, sym, inl, inr, ltb, ◌==◌, if◌then◌else◌,
  Bool-cases, List, [], ◌∷◌, ◌++◌, Option, none, some, ok, length, length-append, replicate, drop,
  take-append, arith, tests, All, All-append,
}
use reliable_packet_transmis.Packet.{
  DataPacket, DataType, AckPacket, Timeval, data_packet_header_size, ack_packet_size,
  read_ack_fields, ack_type, read_buffer_ack_packet,
}
use reliable_packet_transmis.Packet.Words.{FitsTimeval}
use reliable_packet_transmis.Packet.DataRoundTrip.{
  IsSendable, data_datagram, length-data_datagram, fill_buffer_data_packet_lem,
}
use mathlib.Core.Option.{some-injective, none-ne-some}
use reliable_packet_transmis.Clock.{elapsed_us}
use reliable_packet_transmis.ReliableSender.{
  handshake_num_at_a_time, handshake_duplicate, handshake_timeout_us, smallest, initial_timeout_us,
  on_handshake_datagram, handshake_sample,
}
use reliable_packet_transmis.ReliableSender.Handshake.{
  Reception, Round, handshake_packet, collect, receive_time, wait_for_acks, greet, estimate,
  perform_handshake,
}

-- A handshake that can be sent.
pub record IsHandshake (datagram : List ℕ) : Type 0 where
  pub packet : DataPacket
  pub laid_out : datagram ≡ data_datagram packet
  pub sendable : IsSendable packet
  pub kind : packet.type ≡ DataType.handshake

-- A round whose time fits a `timeval` and whose buffer has room for a header.
pub record HasRoom (round : Round) : Type 0 where
  pub time_fits : FitsTimeval round.sent_time
  pub room : data_packet_header_size ≤ length round.buffer

smallest_bounds :
    (least : ℕ) (xs : List ℕ)
    → (smallest least xs ≤ least)
      × (smallest least xs ≤ handshake_timeout_us)
      × All (λ x. smallest least xs ≤ x) xs
unfolding smallest
smallest_bounds least [] = ground arith
smallest_bounds least (x ∷ xs) =
    let first = if ltb x least then x else least in
    let small : (first ≤ least) × (first ≤ x) = ground arith in
    let (a, b, c) = smallest_bounds first xs in
    (omega (arith, a, small), b, (omega (arith, a, small), c))

on_handshake_datagram_returns :
    (old : AckPacket) (received : List ℕ) (h : Timeval)
    → (time : Option ℕ) × (on_handshake_datagram old received h ≡ ok time)
unfolding on_handshake_datagram read_buffer_ack_packet
on_handshake_datagram_returns old received h =
    let ack = read_ack_fields (ack_type received) old received in
    elim (Bool-cases (length received == ack_packet_size)) [
      | inl sized ↦ (handshake_sample ack.type ack h, rw sized)
      | inr other ↦ (none, rw other)
    ]

receive_time_returns :
    (old : AckPacket) (received : Option (List ℕ)) (h : Timeval)
    → (time : Option ℕ) × (receive_time old received h ≡ ok time)
unfolding receive_time
receive_time_returns old none h = (none, refl)
receive_time_returns old (some received) h = on_handshake_datagram_returns old received h

length-collect :
    (times : List ℕ) (time : Option ℕ)
    → (length times ≤ length (collect times time))
      × (length (collect times time) ≤ length times + 1)
length-collect times none = omega arith
length-collect times (some time) = omega (arith, length-append times (time ∷ []))

-- The wait returns, with no more times than there is room for.
wait_for_acks_lem :
    (old : AckPacket) (now : Timeval) (passed : ℕ) (times : List ℕ) (receptions : List Reception)
    → length times < handshake_duplicate
    → (times' : List ℕ) × (wait_for_acks old now passed times receptions ≡ ok times')
      × (length times' ≤ handshake_duplicate)
unfolding wait_for_acks
wait_for_acks_lem old now passed times [] h = (times, refl, omega arith)
wait_for_acks_lem old now passed times (reception ∷ receptions) h =
    let (time, e) = receive_time_returns old reception.received reception.h in
    elim (Bool-cases (ltb passed handshake_timeout_us)) [
      | inr late ↦ (times, rw late, omega arith)
      | inl waits ↦ elim (Bool-cases (length (collect times time) == handshake_duplicate)) [
        | inl full ↦ (collect times time, rw (waits, e, full), omega (tests, full))
        | inr open_still ↦
            let (times', e', few) =
              wait_for_acks_lem old now (elapsed_us now reception.now2) (collect times time)
                receptions (omega (tests, open_still, length-collect times time, h)) in
            (times', rw (waits, e, open_still) e', few)
      ]
    ]

handshake_packet-IsSendable : (round : Round) → HasRoom round → IsSendable (handshake_packet round)
handshake_packet-IsSendable round v = record {
  known = λ e. cc;
  seq_fits = omega arith;
  time_fits = v.time_fits;
  in_memory = omega arith;
  in_datagram = omega arith;
}

greet_lem :
    (old : AckPacket) (times : List ℕ) (rounds : List Round)
    → length times ≤ handshake_duplicate
    → All HasRoom rounds
    → (times' : List ℕ) × (sent : List (List ℕ)) × (greet old times rounds ≡ ok (times', sent))
      × (length times' ≤ handshake_duplicate)
      × All IsHandshake sent
unfolding greet
greet_lem old times [] few v = (times, [], refl, few, tt)
greet_lem old times (round ∷ rounds) few v =
    elim (Bool-cases (ltb (length times) handshake_duplicate)) [
      | inr enough ↦ (times, [], rw enough, few, tt)
      | inl asks ↦
          let packet = handshake_packet round in
          let sendable = handshake_packet-IsSendable round v.0 in
          let fills = fill_buffer_data_packet_lem packet round.buffer sendable v.0.room in
          let takes =
            take-append (data_datagram packet) (drop 22 round.buffer) 22
              (sym (length-data_datagram packet sendable)) in
          let (times', waits, few') =
            wait_for_acks_lem old round.now 0 times round.receptions (omega (tests, asks)) in
          let (final, sent, greets, few'', honest) = greet_lem old times' rounds few' v.1 in
          let own : IsHandshake (data_datagram packet) = record {
            packet = packet;
            laid_out = refl;
            sendable = sendable;
            kind = refl;
          } in
          (
            final,
            replicate handshake_num_at_a_time (data_datagram packet) ++ sent,
            rw (asks, fills, waits, greets, takes),
            few'',
            All-append IsHandshake (replicate handshake_num_at_a_time (data_datagram packet)) sent
                (All-replicate IsHandshake handshake_num_at_a_time (data_datagram packet) own)
                honest,
          )
    ]

estimate-bounds :
    (times : List ℕ) (timeout : ℕ)
    → estimate times ≡ some timeout
    → (timeout ≤ handshake_timeout_us) × All (λ time. timeout ≤ time) times
unfolding initial_timeout_us estimate
estimate-bounds [] timeout e = absurd cc
estimate-bounds (first ∷ rest) timeout e =
    let (a, b, c) = smallest_bounds first rest in
    elim (Bool-cases (length (first ∷ rest) == handshake_duplicate)) [
      | inl full ↦
          subst (λ t. (t ≤ handshake_timeout_us) × All (λ time. t ≤ time) (first ∷ rest))
            (some-injective _ _ (rw full at e)) (b, (a, c))
      | inr other ↦ absurd (none-ne-some _ (rw other at e))
    ]

-- Whatever is received and whenever, if each round's time fits a `timeval` and its buffer holds a
-- header, the handshake returns without a fault; all that it sends are handshakes that can be
-- sent; it collects at most three times; and a timeout that it comes to is at most 60 ms and at
-- most each of the collected times.
pub perform_handshake_lem :
    (old : AckPacket) (rounds : List Round)
    → All HasRoom rounds
    → (times : List ℕ) × (sent : List (List ℕ)) × (greet old [] rounds ≡ ok (times, sent))
      × (perform_handshake old rounds ≡ ok (estimate times, sent))
      × (length times ≤ handshake_duplicate)
      × All IsHandshake sent
      × ((timeout : ℕ)
          → estimate times ≡ some timeout
          → (timeout ≤ handshake_timeout_us) × All (λ time. timeout ≤ time) times)
unfolding perform_handshake
perform_handshake_lem old rounds v =
    let (times, sent, greets, few, honest) = greet_lem old [] rounds (omega arith) v in
    (times, sent, greets, rw greets, few, honest, estimate-bounds times)
