-- ===== src/Transfer/Threads/Invariant.antt =====
-- What holds of both processes at every step of their threads: the transfer is safe, and so is what the
-- threads hold in their hands.
use reliable_packet_transmis.Base.{ℕ, ◌≤◌, ◌≡◌, ◌≢◌, List, length, All, All-map, arith}
use reliable_packet_transmis.Packet.{DataPacket, AckType, data_packet_size}
use reliable_packet_transmis.Packet.AckRoundTrip.{ack_datagram}
use reliable_packet_transmis.Receiver.Invariant.{IsPacketOf}
use reliable_packet_transmis.Sender.{FileSource}
use reliable_packet_transmis.Sender.Window.{IsFile}
use reliable_packet_transmis.Sender.Sending.{IsSent}
use reliable_packet_transmis.ReliableSender.Threads.{Sending, Receiving, woken}
use reliable_packet_transmis.ReliableSender.Sound as SenderSound
use reliable_packet_transmis.ReliableReceiver.Threads.{Place}
use reliable_packet_transmis.ReliableReceiver.Files as ReceiverFiles
use reliable_packet_transmis.Transfer.Invariant.{loaded, IsAck, IsAck-mono, Safe}
use reliable_packet_transmis.Transfer.Threads.{Whole, system}

-- An ACK that a thread of the sender is about to give to the window promises no more than the receiver has.
abbrev pub IsHeld : ℕ → Receiving → Type 0
IsHeld next (Receiving.accepting ack) = ack.cumulative_seq_num ≤ next
IsHeld next _ = Unit

pub IsHeld-mono : {m n : ℕ} (place : Receiving) → m ≤ n → IsHeld m place → IsHeld n place
IsHeld-mono Receiving.testing le h = tt
IsHeld-mono Receiving.listening le h = tt
IsHeld-mono (Receiving.accepting ack) le h = omega arith
IsHeld-mono Receiving.deciding le h = tt
IsHeld-mono Receiving.deciding_finished le h = tt
IsHeld-mono Receiving.notifying le h = tt
IsHeld-mono Receiving.stopped le h = tt

module _ (total : ℕ) (chunk : ℕ → List ℕ) where
  -- The packets that `sendData` has prepared are packets of the file that the sender has loaded.
  abbrev pub IsPrepared : ℕ → Sending → Type 0
  IsPrepared limit (Sending.sending packets) = All (IsSent total chunk limit) packets
  IsPrepared limit _ = Unit

  pub IsPrepared-woken :
      (limit : ℕ) (place : Sending) → IsPrepared limit place → IsPrepared limit (woken place)
  IsPrepared-woken limit Sending.testing h = tt
  IsPrepared-woken limit Sending.asking h = tt
  IsPrepared-woken limit Sending.asking_finished h = tt
  IsPrepared-woken limit Sending.falling_asleep h = tt
  IsPrepared-woken limit Sending.asleep h = tt
  IsPrepared-woken limit Sending.bursting h = tt
  IsPrepared-woken limit Sending.preparing h = tt
  IsPrepared-woken limit (Sending.sending packets) h = h
  IsPrepared-woken limit Sending.stopped h = tt

  IsSent-mono :
      {m n : ℕ} (packet : DataPacket)
      → m ≤ n
      → IsSent total chunk m packet
      → IsSent total chunk n packet
  IsSent-mono packet le h = record {
    of_file = h.of_file;
    sendable = h.sendable;
    below = omega (arith, h.below);
  }

  pub IsPrepared-mono :
      {m n : ℕ} (place : Sending) → m ≤ n → IsPrepared m place → IsPrepared n place
  IsPrepared-mono Sending.testing le h = tt
  IsPrepared-mono Sending.asking le h = tt
  IsPrepared-mono Sending.asking_finished le h = tt
  IsPrepared-mono Sending.falling_asleep le h = tt
  IsPrepared-mono Sending.asleep le h = tt
  IsPrepared-mono Sending.bursting le h = tt
  IsPrepared-mono Sending.preparing le h = tt
  IsPrepared-mono {m} {n} (Sending.sending packets) le h =
      All-map (IsSent total chunk m) (IsSent total chunk n) (λ p s. IsSent-mono p le s) packets h
  IsPrepared-mono Sending.stopped le h = tt

  -- The packet that a thread of the receiver has read is one that the sender has sent.
  pub record IsRead (limit : ℕ) (seen : DataPacket) : Type 0 where
    pub packet : DataPacket
    pub sent : IsSent total chunk limit packet
    pub same_seq : seen.seq_num ≡ packet.seq_num
    pub same_time : seen.sent_time ≡ packet.sent_time
    pub of_file : IsPacketOf total chunk seen

  -- What a thread of the receiver holds.
  abbrev pub IsCarried : ℕ → ℕ → Place → Type 0
  IsCarried next limit (Place.storing received seen) =
      (length received ≤ data_packet_size) × IsRead limit seen
  IsCarried next limit (Place.answering received ack) =
      (length received ≤ data_packet_size)
      × (ack.type ≢ AckType.invalid)
      × IsAck next (ack_datagram ack)
  IsCarried next limit _ = Unit

  pub IsCarried-mono :
      {m n k l : ℕ} (place : Place) → m ≤ n → k ≤ l → IsCarried m k place → IsCarried n l place
  IsCarried-mono Place.testing le more h = tt
  IsCarried-mono Place.listening le more h = tt
  IsCarried-mono (Place.storing received seen) le more (short, r) = (
    short,
    record {
      packet = r.packet;
      sent = IsSent-mono r.packet more r.sent;
      same_seq = r.same_seq;
      same_time = r.same_time;
      of_file = r.of_file;
    },
  )
  IsCarried-mono (Place.answering received ack) le more (short, known, honest) =
      (short, known, IsAck-mono (ack_datagram ack) le honest)
  IsCarried-mono Place.stopped le more h = tt

module _ (source : FileSource) (total last_size : ℕ) (chunk : ℕ → List ℕ)
    (file : IsFile source total last_size chunk) where
  pub record IsSafe (a : Whole) : Type 0 where
    pub safe : Safe total last_size chunk (system a)
    pub sender : SenderSound.IsSound source total last_size chunk file a.sending
    pub receiver : ReceiverFiles.IsSound total chunk a.receiving
    pub prepared : IsPrepared total chunk (loaded a.sending.process.slide_window) a.sending.sender
    pub held : All (IsHeld a.receiving.receiver.next_expected_packet_seq_num) a.sending.receivers
    pub carried :
        All
          (IsCarried total chunk a.receiving.receiver.next_expected_packet_seq_num
            (loaded a.sending.process.slide_window))
          a.receiving.places
