-- ===== src/Transfer/Threads/Receiver.antt =====
-- The steps of the receiver's threads keep a transfer safe.
use reliable_packet_transmis.Base.{
  ℕ, ◌≤◌, ◌≡◌, ◌⊎◌, refl, Bool-cases, inl, inr, List, [], ◌++◌, Option, none, some, get_elem?, set,
  length, OnOk, All, All-map, All-append, All-replicate, All-set, All-get, All-elem, arith,
}
use reliable_packet_transmis.Packet.{DataPacket, DataType, data_packet_size}
use reliable_packet_transmis.Packet.AckRoundTrip.{ack_datagram}
use reliable_packet_transmis.Packet.DataRoundTrip.{data_datagram, length-data_datagram}
use reliable_packet_transmis.Receiver.{finished}
use reliable_packet_transmis.Receiver.Receive.{receive_data_packet_lem}
use reliable_packet_transmis.Sender.{FileSource}
use reliable_packet_transmis.Sender.Window.{IsFile}
use reliable_packet_transmis.ReliableReceiver.{receive_buffer, handshake_ack, regular_ack}
use reliable_packet_transmis.ReliableReceiver.Datagrams.{
  arrived, arrived-IsPacketOf, read_arrived, send_ack_lem,
}
use reliable_packet_transmis.ReliableReceiver.Rounds.{room_for_ack, copies}
use reliable_packet_transmis.ReliableReceiver.Threads.{
  Place, Threads, Turn, dispatch, step, perform,
}
use reliable_packet_transmis.Transfer.Invariant.{loaded, IsData, IsAck, Safe}
use reliable_packet_transmis.Transfer.ReceiverSteps.{received-Safe, forward, reply-IsAck}
use reliable_packet_transmis.Transfer.Threads.{Whole, system, IsFrom}
use reliable_packet_transmis.Transfer.Threads.Invariant.{IsCarried, IsCarried-mono, IsRead, IsSafe}

module _ (source : FileSource) (total last_size : ℕ) (chunk : ℕ → List ℕ)
    (file : IsFile source total last_size chunk) (a : Whole)
    (v : IsSafe source total last_size chunk file a) where
  abbrev limit : ℕ
  limit = loaded a.sending.process.slide_window

  abbrev next : ℕ
  next = a.receiving.receiver.next_expected_packet_seq_num

  -- What holds after a step of the receiver.
  pub record Kept (o : Threads × List (List ℕ)) : Type 0 where
    pub safe :
        Safe total last_size chunk
          (record (system a) { receiver = o.0.receiver; to_sender = o.1 ++ a.to_sender })
    pub further : next ≤ o.0.receiver.next_expected_packet_seq_num
    pub carried :
        All (IsCarried total chunk o.0.receiver.next_expected_packet_seq_num limit) o.0.places

  -- A step that leaves the window alone and sends what the wire may carry.
  spoken-Kept :
      (places : List Place) (sent : List (List ℕ))
      → All (IsCarried total chunk next limit) places
      → All (IsAck next) sent
      → Kept (record { receiver = a.receiving.receiver; places = places }, sent)
  spoken-Kept places sent c h = record {
    safe = record {
      sender = v.safe.sender;
      receiver = v.safe.receiver;
      data_wire = v.safe.data_wire;
      ack_wire = All-append (IsAck next) sent a.to_sender h v.safe.ack_wire;
      behind = v.safe.behind;
      ahead = v.safe.ahead;
    };
    further = omega arith;
    carried = c;
  }

  moved-Kept :
      (i : ℕ) (place : Place)
      → IsCarried total chunk next limit place
      → Kept (record (a.receiving) { places = set a.receiving.places i place }, [])
  moved-Kept i place c =
      spoken-Kept (set a.receiving.places i place) []
        (All-set (IsCarried total chunk next limit) a.receiving.places i place v.carried c) tt

  stays-Kept : Kept (a.receiving, [])
  stays-Kept = spoken-Kept a.receiving.places [] v.carried tt

  -- What a thread makes of a datagram from the network.
  IsCarried-dispatch :
      (type : DataType) (received : List ℕ) (seen : DataPacket)
      → length received ≤ data_packet_size
      → IsAck next (ack_datagram (handshake_ack seen.sent_time))
      → (type ≡ DataType.handshake) ⊎ IsRead total chunk limit seen
      → IsCarried total chunk next limit (dispatch type received seen)
  IsCarried-dispatch DataType.invalid received seen short greets kind = tt
  IsCarried-dispatch DataType.handshake received seen short greets kind = (short, λ e. cc, greets)
  IsCarried-dispatch DataType.regular received seen short greets (inl e) = absurd cc
  IsCarried-dispatch DataType.regular received seen short greets (inr r) = (short, r)
  IsCarried-dispatch DataType.finish received seen short greets (inl e) = absurd cc
  IsCarried-dispatch DataType.finish received seen short greets (inr r) = (short, r)

  heard-Kept :
      (i : ℕ) (received : List ℕ)
      → IsData total chunk limit received
      → OnOk Kept (step (some Place.listening) i (some received) a.receiving)
  unfolding step
  heard-Kept i received w =
      rw (w.laid_out, read_arrived w.packet w.sendable)
        (moved-Kept i
          (dispatch w.packet.type (data_datagram w.packet) (arrived w.packet w.sendable))
          (IsCarried-dispatch w.packet.type (data_datagram w.packet) (arrived w.packet w.sendable)
            (omega (arith, length-data_datagram w.packet w.sendable, w.sendable.in_datagram))
            (record {
              ack = handshake_ack w.packet.sent_time;
              laid_out = refl;
              sendable = record {
                known = λ e. cc;
                cumulative_fits = omega arith;
                selective_fits = omega arith;
                time_fits = w.sendable.time_fits;
              };
              kind = inl refl;
            })
            (elim w.kind [
              | inl greets ↦ inl greets
              | inr sent ↦ inr (record {
                packet = w.packet;
                sent = sent;
                same_seq = refl;
                same_time = refl;
                of_file = arrived-IsPacketOf w.packet w.sendable total chunk sent.of_file;
              })
            ])))

  step-Kept :
      (place : Option Place) (i : ℕ) (event : Option (List ℕ))
      → IsFrom a.to_receiver event
      → ((p : Place) → place ≡ some p → IsCarried total chunk next limit p)
      → OnOk Kept (step place i event a.receiving)
  unfolding step
  step-Kept none i event from c = stays-Kept
  step-Kept (some Place.testing) i event from c =
      elim (Bool-cases (finished a.receiving.receiver)) [
        | inl over ↦ rw over (moved-Kept i Place.stopped tt)
        | inr going ↦ rw going (moved-Kept i Place.listening tt)
      ]
  step-Kept (some Place.listening) i none from c = moved-Kept i Place.testing tt
  step-Kept (some Place.listening) i (some received) from c =
      heard-Kept i received (All-elem _ received a.to_receiver v.safe.data_wire from)
  step-Kept (some (Place.storing received seen)) i event from c =
      let (short, r) = c (Place.storing received seen) refl in
      let (r', reply, call, _, _) =
        receive_data_packet_lem total chunk (omega (arith, file.small)) a.receiving.receiver seen
          r.of_file v.safe.receiver in
      let further =
        forward source total last_size chunk file (system a) v.safe r.packet r.sent seen r.same_seq
          r' reply _ call in
      rw call.returns (record {
        safe =
            received-Safe source total last_size chunk file (system a) v.safe r.packet r.sent seen
              r.same_seq r' reply _ call 0;
        further = further;
        carried =
            All-set (IsCarried total chunk r'.next_expected_packet_seq_num limit) a.receiving.places
              i (Place.answering received (regular_ack reply seen.sent_time))
              (All-map _ _ (λ p h. IsCarried-mono total chunk p further (omega arith) h)
                a.receiving.places v.carried)
              (
                short,
                λ e. cc,
                rw r.same_time (
                    reply-IsAck source total last_size chunk file (system a) v.safe r.packet r.sent
                      seen r.same_seq r' reply _ call),
              );
      })
  step-Kept (some (Place.answering received ack)) i event from c =
      let (short, known, honest) = c (Place.answering received ack) refl in
      rw
        (send_ack_lem a.receiving.receiver ack (receive_buffer received) known
          (room_for_ack received short))
        (spoken-Kept (set a.receiving.places i Place.testing) _
          (All-set (IsCarried total chunk next limit) a.receiving.places i Place.testing v.carried
            tt)
          (All-replicate (IsAck next) (copies a.receiving.receiver) (ack_datagram ack) honest))
  step-Kept (some Place.stopped) i event from c = stays-Kept

  pub perform-Kept :
      (turn : Turn) → IsFrom a.to_receiver turn.event → OnOk Kept (perform turn a.receiving)
  unfolding perform
  perform-Kept turn from =
      step-Kept (get_elem? a.receiving.places turn.thread) turn.thread turn.event from (λ p e.
        All-get (IsCarried total chunk next limit) a.receiving.places turn.thread v.carried e)
