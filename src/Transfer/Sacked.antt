-- ===== src/Transfer/Sacked.antt =====
-- What the items that the sender holds for received have to do with the receiver of a transfer, and that the
-- rounds of the sender keep it.
use reliable_packet_transmis.Base.{
  ℕ, ◌≡◌, ◌≢◌, ◌⊎◌, sym, subst, true, Bool-cases, inl, inr, List, ok, OnOk, >>=-OnOk, >>=-OnOk_any,
  OnOk-ok, length, eq→==, All,
}
use reliable_packet_transmis.Packet.{AckPacket, AckType, Timeval, ack_packet_size}
use reliable_packet_transmis.Packet.AckRoundTrip.{
  IsSendableAck, ack_datagram, length-ack_datagram, read_buffer_ack_packet-ack_datagram,
}
use reliable_packet_transmis.Receiver.{init, Receiver}
use reliable_packet_transmis.Receiver.Invariant.{has}
use reliable_packet_transmis.Rtt
use reliable_packet_transmis.Rtt.{RttEstimator, get_current_timeout_us}
use reliable_packet_transmis.Sender.{
  Sender, FileSource, has_data_to_send, prepare_data_packets_to_send,
}
use reliable_packet_transmis.Sender.Ack
use reliable_packet_transmis.Sender.Window.{IsFile}
use reliable_packet_transmis.Sender.Acked.{
  AckedOnly, prepare_items-AckedOnly, ack_arrived-AckedOnly, check_timeout-AckedOnly,
  init-AckedOnly,
}
use reliable_packet_transmis.ReliableSender.{
  Process, send_packets, send_data, handle_ack, receive_ack, check_timeout, start,
}
use reliable_packet_transmis.Transfer.{System, initial}
use reliable_packet_transmis.Transfer.Invariant.{Safe}

abbrev pub Has : Receiver → ℕ → Type 0
Has r k = has r k ≡ true

-- A datagram for the sender that names, by two different numbers, only a packet that has been received.
pub record IsHonest (r : Receiver) (datagram : List ℕ) : Type 0 where
  pub ack : AckPacket
  pub laid_out : datagram ≡ ack_datagram ack
  pub sendable : IsSendableAck ack
  pub kind :
      (ack.type ≡ AckType.handshake)
      ⊎ ((ack.type ≡ AckType.regular)
          × (ack.cumulative_seq_num ≢ ack.selective_seq_num → Has r ack.selective_seq_num))

pub record Sacked (a : System) : Type 0 where
  pub items : AckedOnly (Has a.receiver) a.process.slide_window.slide_window
  pub wire : All (IsHonest a.receiver) a.to_sender

pub send_data-AckedOnly :
    (P : ℕ → Type 0) (p : Process) (now : Timeval) (buffer : List ℕ)
    → AckedOnly P p.slide_window.slide_window
    → OnOk
        (λ (o : Process × List (List ℕ)). AckedOnly P o.0.slide_window.slide_window)
        (send_data p now buffer)
unfolding send_data prepare_data_packets_to_send
send_data-AckedOnly P p now buffer a = elim (Bool-cases (has_data_to_send p.slide_window)) [
  | inr idle ↦ rw idle a
  | inl busy ↦ rw busy (
      >>=-OnOk_any (λ (o : Process × List (List ℕ)). AckedOnly P o.0.slide_window.slide_window)
        (send_packets buffer (prepare_data_packets_to_send p.slide_window now).1) _
        (λ sent.
          prepare_items-AckedOnly P p.slide_window.last_packet_seq_num now
            p.slide_window.cur_congestion_window p.slide_window.slide_window a))
]

pub receive_ack-handle_ack :
    (source : FileSource) (p : Process) (old ack : AckPacket) (now : Timeval)
    → IsSendableAck ack
    → receive_ack source p old (ack_datagram ack) now ≡ handle_ack ack.type source p ack now
unfolding receive_ack
receive_ack-handle_ack source p old ack now v = rw (
  eq→== (length (ack_datagram ack)) ack_packet_size (length-ack_datagram ack),
  length-ack_datagram ack,
  read_buffer_ack_packet-ack_datagram old ack v,
)

pub checked-Sacked :
    (a : System) (now : Timeval)
    → Sacked a
    → Sacked (record a { process = (check_timeout a.process now).0 })
unfolding check_timeout
checked-Sacked a now h = record {
  items =
      check_timeout-AckedOnly (Has a.receiver) a.process.slide_window
        (get_current_timeout_us a.process.rtt_estimator) now h.items;
  wire = h.wire;
}

-- A transfer that begins has acknowledged nothing.
pub start-Sacked :
    (source : FileSource) (timeout bytes : ℕ) (p : Process)
    → start source timeout bytes ≡ ok p
    → Sacked (initial p)
unfolding start
start-Sacked source timeout bytes p e = record {
  items =
      OnOk-ok (λ (p : Process). AckedOnly (Has init) p.slide_window.slide_window) _ e
        (>>=-OnOk (λ (s : Sender). AckedOnly (Has init) s.slide_window)
          (λ (p : Process). AckedOnly (Has init) p.slide_window.slide_window) _ _
          (init-AckedOnly (Has init) source bytes true) (λ s fresh. fresh));
  wire = tt;
}

module _ (source : FileSource) (total last_size : ℕ) (chunk : ℕ → List ℕ)
    (file : IsFile source total last_size chunk) where
  pub handle_ack-AckedOnly :
      (a : System) (ack : AckPacket) (now : Timeval)
      → Safe total last_size chunk a
      → IsSendableAck ack
      → AckedOnly (Has a.receiver) a.process.slide_window.slide_window
      → (ack.type ≡ AckType.handshake)
        ⊎ ((ack.type ≡ AckType.regular)
            × (ack.cumulative_seq_num ≢ ack.selective_seq_num
                → Has a.receiver ack.selective_seq_num))
      → OnOk
          (λ (p : Process). AckedOnly (Has a.receiver) p.slide_window.slide_window)
          (handle_ack ack.type source a.process ack now)
  unfolding handle_ack
  handle_ack-AckedOnly a ack now v sendable items (inl greeting) = rw greeting items
  handle_ack-AckedOnly a ack now v sendable items (inr (regular, honest)) =
      subst
        (λ t.
          OnOk (λ (p : Process). AckedOnly (Has a.receiver) p.slide_window.slide_window)
            (handle_ack t source a.process ack now))
        (sym regular)
        (>>=-OnOk_any (λ (p : Process). AckedOnly (Has a.receiver) p.slide_window.slide_window)
          (Rtt.ack_arrived a.process.rtt_estimator ack now) _
          (λ e.
            >>=-OnOk (λ (s : Sender). AckedOnly (Has a.receiver) s.slide_window)
              (λ (p : Process). AckedOnly (Has a.receiver) p.slide_window.slide_window)
              (Ack.ack_arrived source a.process.slide_window ack) _
              (ack_arrived-AckedOnly (Has a.receiver) source chunk a.process.slide_window ack
                v.sender.holds.carries sendable.selective_fits items honest)
              (λ s acked. acked)))
