-- ===== src/ReliableReceiver/Files.antt =====
-- The threads of src/reliable_receiver.cpp over datagrams that the sender of a file made, under every
-- schedule.
use reliable_packet_transmis.Base.{
  ℕ, ◌+◌, ◌^◌, ◌≤◌, ◌<◌, ◌≡◌, ◌≢◌, ◌⊎◌, refl, ◌∙◌, true, if◌then◌else◌, Bool-cases, inl, inr, List,
  [], ◌∷◌, ◌++◌, Option, none, some, ok, length, replicate, get_elem?, set, All, All-set, All-map,
  All-get, All-elem, Elem, length-set, arith,
}
use reliable_packet_transmis.Packet.{
  DataPacket, DataType, AckType, data_packet_size, read_buffer_data_packet,
}
use reliable_packet_transmis.Packet.DataRoundTrip.{length-data_datagram}
use reliable_packet_transmis.Packet.AckRoundTrip.{ack_datagram}
use reliable_packet_transmis.Receiver.{
  Receiver, Reply, is_data, receive_data_packet, finished, init,
}
use reliable_packet_transmis.Receiver.Invariant.{chunk_write, IsPacketOf, IsValid}
use reliable_packet_transmis.Receiver.Receive.{Receives, receive_data_packet_lem, init-IsValid}
use reliable_packet_transmis.Receiver.Finished.{finished_iff, finished-chunk_writes}
use reliable_packet_transmis.ReliableReceiver.{
  receive_buffer, cleared_packet, regular_ack, fin_ack_num,
}
use reliable_packet_transmis.ReliableReceiver.Datagrams.{
  arrived, arrived-IsPacketOf, read_arrived, send_ack_lem,
}
use reliable_packet_transmis.ReliableReceiver.Loop.{all-finished, IsFromSender, IsEvent}
use reliable_packet_transmis.ReliableReceiver.Rounds.{room_for_ack}
use reliable_packet_transmis.ReliableReceiver.Threads.{
  Place, Threads, Turn, started, dispatch, step, perform, run, Outcome,
}

module _ (total : ℕ) (chunk : ℕ → List ℕ) where
  -- What is known of a thread at each place, with the receiver as it is.
  abbrev pub IsPlaced : Receiver → Place → Type 0
  IsPlaced r (Place.storing received packet) =
      (length received ≤ data_packet_size) × IsPacketOf total chunk packet
  IsPlaced r (Place.answering received ack) =
      (length received ≤ data_packet_size) × (ack.type ≢ AckType.invalid)
  IsPlaced r Place.stopped = finished r ≡ true
  IsPlaced r _ = Unit

  pub record IsSound (t : Threads) : Type 0 where
    pub valid : IsValid total chunk t.receiver
    pub placed : All (IsPlaced t.receiver) t.places
    pub two : length t.places ≡ 2

  IsPlaced-finished :
      (r r' : Receiver)
      → (finished r ≡ true → finished r' ≡ true)
      → (place : Place) → IsPlaced r place
      → IsPlaced r' place
  IsPlaced-finished r r' f Place.testing p = tt
  IsPlaced-finished r r' f Place.listening p = tt
  IsPlaced-finished r r' f (Place.storing received packet) p = p
  IsPlaced-finished r r' f (Place.answering received ack) p = p
  IsPlaced-finished r r' f Place.stopped p = f p

  moved-IsSound :
      (t : Threads) (i : ℕ) (place : Place)
      → IsSound t
      → IsPlaced t.receiver place
      → IsSound (record t { places = set t.places i place })
  moved-IsSound t i place v p = record {
    valid = v.valid;
    placed = All-set (IsPlaced t.receiver) t.places i place v.placed p;
    two = length-set t.places i place ∙ v.two;
  }

  -- A step that goes through.
  abbrev pub Goes : Outcome → Type 0
  Goes outcome = (o : Threads × List (List ℕ)) × (outcome ≡ ok o) × IsSound o.0

  IsPlaced-dispatch :
      (r : Receiver) (received : List ℕ) (packet : DataPacket) (type : DataType)
      → length received ≤ data_packet_size
      → (type ≡ DataType.handshake) ⊎ (IsPacketOf total chunk packet × (is_data type ≡ true))
      → IsPlaced r (dispatch type received packet)
  IsPlaced-dispatch r received packet DataType.invalid short kind = tt
  IsPlaced-dispatch r received packet DataType.handshake short kind = (short, λ e. cc)
  IsPlaced-dispatch r received packet DataType.regular short (inl e) = absurd cc
  IsPlaced-dispatch r received packet DataType.regular short (inr p) = (short, p.0)
  IsPlaced-dispatch r received packet DataType.finish short (inl e) = absurd cc
  IsPlaced-dispatch r received packet DataType.finish short (inr p) = (short, p.0)

  -- The datagram of the sender is read.
  reads :
      (datagram : List ℕ)
      → IsFromSender total chunk datagram
      → (packet : DataPacket) × (read_buffer_data_packet cleared_packet
            (receive_buffer datagram)
            (length datagram)
          ≡ ok packet)
        × (length datagram ≤ data_packet_size)
        × ((packet.type ≡ DataType.handshake)
            ⊎ (IsPacketOf total chunk packet × (is_data packet.type ≡ true)))
  reads datagram d = rw d.laid_out (
    arrived d.packet d.sendable,
    read_arrived d.packet d.sendable,
    omega (arith, length-data_datagram d.packet d.sendable, d.sendable.in_datagram),
    elim d.kind [
      | inl greets ↦ inl greets
      | inr p ↦ inr (arrived-IsPacketOf d.packet d.sendable total chunk p, p.kind)
    ],
  )

  module _ (room : total + 400 ≤ 2 ^ 32) where
    -- A receiver that has finished stays so.
    pub Receives-finished :
        (r r' : Receiver) (packet : DataPacket) (reply : Reply)
        → IsValid total chunk r
        → (c : Receives total chunk r packet (receive_data_packet r packet) r' reply)
        → finished r ≡ true
        → finished r' ≡ true
    Receives-finished r r' packet reply v c f =
        let (known, all) = (finished_iff total chunk room r v).0 f in
        all-finished total chunk room r' c.valid (omega (arith, v.holds.last_known known))
          (λ k h. c.gains k ∙ rw (all k h) refl)

    step-Goes :
        (place : Option Place) (i : ℕ) (event : Option (List ℕ)) (t : Threads)
        → IsSound t
        → ((p : Place) → place ≡ some p → IsPlaced t.receiver p)
        → IsEvent total chunk event
        → Goes (step place i event t)
    unfolding step
    step-Goes none i event t v k d = ((t, []), refl, v)
    step-Goes (some Place.testing) i event t v k d = elim (Bool-cases (finished t.receiver)) [
      | inl over ↦ rw over (_, refl, moved-IsSound t i Place.stopped v over)
      | inr going ↦ rw going (_, refl, moved-IsSound t i Place.listening v tt)
    ]
    step-Goes (some Place.listening) i none t v k d =
        (_, refl, moved-IsSound t i Place.testing v tt)
    step-Goes (some Place.listening) i (some received) t v k d =
        let (packet, read, short, kind) = reads received d in
        (
          (record t { places = set t.places i (dispatch packet.type received packet) }, []),
          rw read refl,
          moved-IsSound t i (dispatch packet.type received packet) v
              (IsPlaced-dispatch t.receiver received packet packet.type short kind),
        )
    step-Goes (some (Place.storing received packet)) i event t v k d =
        let (short, p) = k (Place.storing received packet) refl in
        let (r', reply, c, _, _) =
          receive_data_packet_lem total chunk room t.receiver packet p v.valid in
        let keeps = Receives-finished t.receiver r' packet reply v.valid c in
        let ack = regular_ack reply packet.sent_time in
        (
          (record { receiver = r'; places = set t.places i (Place.answering received ack) }, []),
          rw c.returns refl,
          record {
            valid = c.valid;
            placed =
                All-set (IsPlaced r') t.places i (Place.answering received ack)
                  (All-map _ _ (IsPlaced-finished t.receiver r' keeps) t.places v.placed)
                  (short, λ e. cc);
            two = length-set t.places i (Place.answering received ack) ∙ v.two;
          },
        )
    step-Goes (some (Place.answering received ack)) i event t v k d =
        let (short, known) = k (Place.answering received ack) refl in
        (
          (
            record t { places = set t.places i Place.testing },
            replicate (if finished t.receiver then fin_ack_num else 1) (ack_datagram ack),
          ),
          rw
              (send_ack_lem t.receiver ack (receive_buffer received) known
                (room_for_ack received short))
              refl,
          moved-IsSound t i Place.testing v tt,
        )
    step-Goes (some Place.stopped) i event t v k d = ((t, []), refl, v)

    pub perform-Goes :
        (turn : Turn) (t : Threads)
        → IsSound t
        → IsEvent total chunk turn.event
        → Goes (perform turn t)
    unfolding perform
    perform-Goes turn t v d =
        step-Goes (get_elem? t.places turn.thread) turn.thread turn.event t v
          (λ p e. All-get (IsPlaced t.receiver) t.places turn.thread v.placed e) d

    pub run-Goes :
        (turns : List Turn) (t : Threads)
        → IsSound t
        → All (λ turn. IsEvent total chunk turn.event) turns
        → Goes (run turns t)
    unfolding run
    run-Goes [] t v d = ((t, []), refl, v)
    run-Goes (turn ∷ turns) t v d =
        let (o, e, h) = perform-Goes turn t v d.0 in
        let (o', e', h') = run-Goes turns o.0 h d.1 in ((o'.0, o.1 ++ o'.1), rw (e, e') refl, h')

    pub started-IsSound : IsSound (started init)
    started-IsSound = record {
      valid = (init-IsValid total chunk).0;
      placed = (tt, (tt, tt));
      two = refl;
    }

    pub stopped-finished :
        (r : Receiver) (places : List Place)
        → All (IsPlaced r) places
        → Elem Place.stopped places
        → finished r ≡ true
    stopped-finished r places placed m = All-elem (IsPlaced r) Place.stopped places placed m

    -- Let the two threads of a fresh receiver of a file of at most 2 ^ 32 - 400 packets run in any
    -- order, step by step, and let each datagram that they get be one that the sender of the file
    -- makes. Then no step faults and the window stays valid; and if a thread has stopped, then the
    -- receiver has finished, there are as many writes as packets, and every packet's bytes are
    -- written at the offset that the code computes.
    pub threads-received :
        (turns : List Turn)
        → All (λ turn. IsEvent total chunk turn.event) turns
        → (t : Threads) × (sent : List (List ℕ)) × (run turns (started init) ≡ ok (t, sent))
          × IsValid total chunk t.receiver
          × (Elem Place.stopped t.places
              → (finished t.receiver ≡ true)
                × (length t.receiver.writes ≡ total)
                × ((k : ℕ) → k < total → Elem (chunk_write chunk k) t.receiver.writes))
    threads-received turns d =
        let (o, e, v) = run-Goes turns (started init) started-IsSound d in
        (
          o.0,
          o.1,
          e,
          v.valid,
          λ m.
              let f = stopped-finished o.0.receiver o.0.places v.placed m in
              let (count, _, every) =
                finished-chunk_writes total chunk room o.0.receiver v.valid f in
              (f, count, every),
        )
