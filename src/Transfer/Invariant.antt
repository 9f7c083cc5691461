-- ===== src/Transfer/Invariant.antt =====
-- What holds of a transfer at every moment: both ends are valid, everything on the wire is what one of
-- the ends sent, the sender is never ahead of the receiver, and the receiver never ahead of what the
-- sender has loaded.
use reliable_packet_transmis.Base.{
  ℕ, ◌+◌, ◌≤◌, ◌<◌, ◌≡◌, ◌⊎◌, inl, inr, true, List, length, arith, All,
}
use reliable_packet_transmis.Packet.{DataPacket, DataType, AckPacket, AckType}
use reliable_packet_transmis.Packet.DataRoundTrip.{IsSendable, data_datagram}
use reliable_packet_transmis.Packet.AckRoundTrip.{IsSendableAck, ack_datagram}
use reliable_packet_transmis.Receiver.Invariant.{IsPacketOf, has}
use reliable_packet_transmis.Receiver.Invariant
use reliable_packet_transmis.Sender.{Sender}
use reliable_packet_transmis.Sender.Invariant as SenderInvariant
use reliable_packet_transmis.Sender.Sending.{IsSent}
use reliable_packet_transmis.Transfer.{System}

-- The end of the sender's window.
abbrev pub loaded : Sender → ℕ
loaded s = s.slide_window_left_bound_seq_num + length s.slide_window

-- A datagram for the receiver: a handshake, or a packet of the file that the sender has loaded.
pub record IsData (total : ℕ) (chunk : ℕ → List ℕ) (limit : ℕ) (datagram : List ℕ) : Type 0 where
  pub packet : DataPacket
  pub laid_out : datagram ≡ data_datagram packet
  pub sendable : IsSendable packet
  pub kind : (packet.type ≡ DataType.handshake) ⊎ IsSent total chunk limit packet

-- A datagram for the sender: the ACK of a handshake, or one that does not promise too much.
pub record IsAck (next : ℕ) (datagram : List ℕ) : Type 0 where
  pub ack : AckPacket
  pub laid_out : datagram ≡ ack_datagram ack
  pub sendable : IsSendableAck ack
  pub kind :
      (ack.type ≡ AckType.handshake)
      ⊎ ((ack.type ≡ AckType.regular) × (ack.cumulative_seq_num ≤ next))

pub record Safe (total last_size : ℕ) (chunk : ℕ → List ℕ) (a : System) : Type 0 where
  pub sender : SenderInvariant.IsValid total last_size chunk a.process.slide_window
  pub receiver : Invariant.IsValid total chunk a.receiver
  pub data_wire : All (IsData total chunk (loaded a.process.slide_window)) a.to_receiver
  pub ack_wire : All (IsAck a.receiver.next_expected_packet_seq_num) a.to_sender
  pub behind :
      a.process.slide_window.slide_window_left_bound_seq_num
      ≤ a.receiver.next_expected_packet_seq_num
  pub ahead : (k : ℕ) → has a.receiver k ≡ true → k < loaded a.process.slide_window

pub IsData-mono :
    (total : ℕ) (chunk : ℕ → List ℕ) (m n : ℕ) (d : List ℕ)
    → m ≤ n
    → IsData total chunk m d
    → IsData total chunk n d
IsData-mono total chunk m n d h v = record {
  packet = v.packet;
  laid_out = v.laid_out;
  sendable = v.sendable;
  kind = elim v.kind [
    | inl e ↦ inl e
    | inr s ↦
        inr (record { of_file = s.of_file; sendable = s.sendable; below = omega (arith, s.below) })
  ];
}

pub IsAck-mono : {m n : ℕ} (d : List ℕ) → m ≤ n → IsAck m d → IsAck n d
IsAck-mono d h v = record {
  ack = v.ack;
  laid_out = v.laid_out;
  sendable = v.sendable;
  kind = elim v.kind [ inl e ↦ inl e | inr (e, l) ↦ inr (e, omega arith) ];
}
