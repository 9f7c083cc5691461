-- ===== src/ReliableSender/Deletion.antt =====
-- An ACK that src/reliable_sender.cpp takes while `sendData` holds prepared packets.
use reliable_packet_transmis.Base.{
  ℕ, ◌+◌, ◌≤◌, ◌<◌, ◌≡◌, true, false, ltb, List, [], ◌∷◌, some, none, length, fault, dangling,
  arith, if◌then◌else◌,
}
use reliable_packet_transmis.Packet.{DataPacket, AckPacket, AckType, Timeval}
use reliable_packet_transmis.Packet.AckRoundTrip.{IsSendableAck, ack_datagram}
use reliable_packet_transmis.Rtt.{sample}
use reliable_packet_transmis.Rtt.Bounds.{ack_arrived-regular}
use reliable_packet_transmis.Clock.{elapsed_us}
use reliable_packet_transmis.Sender.{Sender, FileSource}
use reliable_packet_transmis.Sender.Window.{IsFile}
use reliable_packet_transmis.Sender.Invariant.{IsValid}
use reliable_packet_transmis.Sender.Arrival.{ack_arrived_lem}
use reliable_packet_transmis.ReliableSender.{Process}
use reliable_packet_transmis.ReliableSender.Threads.{
  Sending, Receiving, Timing, Threads, Action, run, is_deleted, transmit,
}
use reliable_packet_transmis.ReliableSender.Receptions.{on_reception-ack_datagram}

-- `sendData` with packets in its hands, while the other threads are idle.
abbrev pub in_burst : Process → List DataPacket → Threads
in_burst p packets = record {
  process = p;
  sender = Sending.sending packets;
  receivers = Receiving.listening ∷ Receiving.listening ∷ [];
  timer = Timing.testing;
  done = false;
}

module _ (source : FileSource) (total last_size : ℕ) (chunk : ℕ → List ℕ)
    (file : IsFile source total last_size chunk) where
  -- Let `sendData` hold a prepared packet of a valid window, and let a regular ACK whose
  -- cumulative number is beyond that packet, but not beyond the window, be taken by a thread of
  -- `receiveAck`. If `sendData` then lays out the packet, it reads bytes that have been deleted.
  pub deleted_while_sent :
      (p : Process) (packet : DataPacket) (packets : List DataPacket) (old ack : AckPacket)
      (now later : Timeval) (buffer : List ℕ)
      → IsValid total last_size chunk p.slide_window
      → IsSendableAck ack
      → ack.type ≡ AckType.regular
      → packet.seq_num < ack.cumulative_seq_num
      → ack.cumulative_seq_num
        ≤ p.slide_window.slide_window_left_bound_seq_num + length p.slide_window.slide_window
      → run source
          (Action.receive 0 old (some (ack_datagram ack)) now
            ∷ Action.receive 0 old none now
            ∷ Action.send later buffer
            ∷ [])
          (in_burst p (packet ∷ packets))
        ≡ fault dangling
  unfolding run transmit
  deleted_while_sent p packet packets old ack now later buffer v sendable regular acked within =
      let (s, arrived, _, left, _) =
        ack_arrived_lem source total last_size chunk file p.slide_window ack v within in
      let sampled = ack_arrived-regular p.rtt_estimator ack now regular in
      rw (
        on_reception-ack_datagram 0 old ack now (in_burst p (packet ∷ packets))
            (sample p.rtt_estimator (elapsed_us ack.sent_time now)) sendable regular sampled,
        arrived,
        gone s left,
      )
    where
      gone :
          (s : Sender)
          → (s.slide_window_left_bound_seq_num ≡ (
              if ltb p.slide_window.slide_window_left_bound_seq_num ack.cumulative_seq_num
              then ack.cumulative_seq_num
              else p.slide_window.slide_window_left_bound_seq_num))
          → is_deleted s packet ≡ true
      gone s left = ground arith
