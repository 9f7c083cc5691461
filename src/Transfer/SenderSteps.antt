-- ===== src/Transfer/SenderSteps.antt =====
-- What the sender's threads do in a safe state of a transfer: nothing faults, and the state stays safe.
use reliable_packet_transmis.Base.{
  ℕ, ◌≤◌, ◌≡◌, ◌∙◌, refl, ap, inl, inr, ltb, if◌then◌else◌, List, [], ◌∷◌, ◌++◌, map, length, arith,
  All, All-map, All-append, Elem, All-elem, ok, Bool-cases, subst,
}
use reliable_packet_transmis.Packet.{DataPacket, AckPacket, Timeval, data_packet_size}
use reliable_packet_transmis.Packet.Words.{FitsTimeval}
use reliable_packet_transmis.Packet.DataRoundTrip.{data_datagram}
use reliable_packet_transmis.Receiver.Invariant.{next-le}
use reliable_packet_transmis.Rtt.{get_current_timeout_us}
use reliable_packet_transmis.Rtt.Bounds.{ack_arrived-regular}
use reliable_packet_transmis.Sender.{FileSource, has_data_to_send, prepare_data_packets_to_send}
use reliable_packet_transmis.Sender.Window.{IsFile}
use reliable_packet_transmis.Sender.Invariant as SenderInvariant
use reliable_packet_transmis.Sender.Sending.{IsSent, prepare_data_packets_to_send_lem}
use reliable_packet_transmis.Sender.Arrival.{ack_arrived_lem}
use reliable_packet_transmis.Sender.Expiry.{check_timeout_lem, length-check_timeout}
use reliable_packet_transmis.ReliableSender.{Process, send_data, receive_ack, check_timeout}
use reliable_packet_transmis.ReliableSender.Datagrams.{
  send_packets_lem, receive_ack-ack_datagram, receive_ack-handshake,
}
use reliable_packet_transmis.Transfer.{System}
use reliable_packet_transmis.Transfer.Invariant.{loaded, IsData, Safe, IsData-mono}
use reliable_packet_transmis.Sender.{Sender}
use reliable_packet_transmis.Sender.Ack
use reliable_packet_transmis.Sender.Timeout as SenderTimeout
use reliable_packet_transmis.Rtt.{RttEstimator}

sent-IsData :
    (total : ℕ) (chunk : ℕ → List ℕ) (limit : ℕ) (ps : List DataPacket)
    → All (IsSent total chunk limit) ps
    → All (IsData total chunk limit) (map data_datagram ps)
sent-IsData total chunk limit [] h = tt
sent-IsData total chunk limit (p ∷ ps) (h, hs) = (
  record { packet = p; laid_out = refl; sendable = h.sendable; kind = inr h },
  sent-IsData total chunk limit ps hs,
)

module _ (source : FileSource) (total last_size : ℕ) (chunk : ℕ → List ℕ)
    (file : IsFile source total last_size chunk) (a : System)
    (v : Safe total last_size chunk a) where
  -- The sender's part of the state changes, and its window loses nothing at its right end.
  pub sender-Safe :
      (p : Process) (sent : List (List ℕ))
      → SenderInvariant.IsValid total last_size chunk p.slide_window
      → loaded a.process.slide_window ≤ loaded p.slide_window
      → p.slide_window.slide_window_left_bound_seq_num ≤ a.receiver.next_expected_packet_seq_num
      → All (IsData total chunk (loaded p.slide_window)) sent
      → Safe total last_size chunk (record a { process = p; to_receiver = sent ++ a.to_receiver })
  sender-Safe p sent valid more behind fresh = record {
    sender = valid;
    receiver = v.receiver;
    data_wire = All-append _ sent a.to_receiver fresh (
        All-map _ _
          (λ d h.
            IsData-mono total chunk (loaded a.process.slide_window) (loaded p.slide_window) d more
              h)
          a.to_receiver v.data_wire);
    ack_wire = v.ack_wire;
    behind = behind;
    ahead = λ k h. omega (arith, v.ahead k h, more);
  }

  -- A round of sending.
  pub send_data-Safe :
      (now : Timeval) (buffer : List ℕ)
      → FitsTimeval now
      → data_packet_size ≤ length buffer
      → (p : Process) × (sent : List (List ℕ)) × (send_data a.process now buffer ≡ ok (p, sent))
        × Safe total last_size chunk (record a { process = p; to_receiver = sent ++ a.to_receiver })
  unfolding send_data
  send_data-Safe now buffer fits room =
      let s = a.process.slide_window in
      elim (Bool-cases (has_data_to_send s)) [
        | inr idle ↦ (a.process, [], rw idle, v)
        | inl busy ↦
            let (valid, _, _, span, _, packets) =
              prepare_data_packets_to_send_lem source total last_size chunk file s now fits
                v.sender in
            let (s', ps) = prepare_data_packets_to_send s now in
            let same : loaded s ≡ loaded s' = omega (arith, span) in
            let sendable = All-map _ _ (λ p h. h.sendable) ps packets in
            (
              record a.process { slide_window = s' },
              map data_datagram ps,
              rw (busy, send_packets_lem ps buffer room sendable),
              sender-Safe (record a.process { slide_window = s' }) (map data_datagram ps) valid
                  (omega (arith, span)) (omega (arith, span, v.behind))
                  (sent-IsData total chunk (loaded s') ps
                    (subst (λ limit. All (IsSent total chunk limit) ps) same packets)),
            )
      ]

  -- A check for timeouts, with any threshold.
  pub expired-Safe :
      (threshold : ℕ) (now : Timeval)
      → let s' = SenderTimeout.check_timeout a.process.slide_window threshold now in
        (loaded a.process.slide_window ≤ loaded s')
        × Safe total last_size chunk
            (record a { process = record (a.process) { slide_window = s' } })
  expired-Safe threshold now =
      let s = a.process.slide_window in
      let (valid, left, _, _) =
        check_timeout_lem total last_size chunk file.small s threshold now v.sender in
      let same = length-check_timeout s threshold now in
      (
        omega (arith, left, same),
        sender-Safe
            (record (a.process) { slide_window = SenderTimeout.check_timeout s threshold now }) []
            valid (omega (arith, left, same)) (omega (arith, left, v.behind)) tt,
      )

  -- A round of the check for timeouts.
  pub check_timeout-Safe :
      (now : Timeval)
      → Safe total last_size chunk (record a { process = (check_timeout a.process now).0 })
  unfolding check_timeout
  check_timeout-Safe now = (expired-Safe (get_current_timeout_us a.process.rtt_estimator) now).1

  abbrev next : ℕ
  next = a.receiver.next_expected_packet_seq_num

  pub next-le-loaded : next ≤ loaded a.process.slide_window
  next-le-loaded = next-le (loaded a.process.slide_window) a.receiver v.ahead

  -- What an ACK that promises no more than the receiver has does to the window, whatever the
  -- estimator.
  pub record Acked (ack : AckPacket) : Type 0 where
    pub window : Sender
    pub returns : Ack.ack_arrived source a.process.slide_window ack ≡ ok window
    pub more : loaded a.process.slide_window ≤ loaded window
    pub left : window.slide_window_left_bound_seq_num ≡ (
        if ltb a.process.slide_window.slide_window_left_bound_seq_num ack.cumulative_seq_num
        then ack.cumulative_seq_num
        else a.process.slide_window.slide_window_left_bound_seq_num)
    pub safe :
        (e : RttEstimator)
        → Safe total last_size chunk
            (record a { process = record { slide_window = window; rtt_estimator = e } })

  pub Acked-honest : (ack : AckPacket) → ack.cumulative_seq_num ≤ next → Acked ack
  Acked-honest ack honest =
      let s = a.process.slide_window in
      let n = s.slide_window_left_bound_seq_num in
      let c = ack.cumulative_seq_num in
      let (s', slides, valid, left, more) =
        ack_arrived_lem source total last_size chunk file s ack v.sender
          (omega (arith, honest, next-le-loaded)) in
      record {
        window = s';
        returns = slides;
        more = more;
        left = left;
        safe = λ e.
            sender-Safe (record { slide_window = s'; rtt_estimator = e }) [] valid more
              (left_behind n c s'.slide_window_left_bound_seq_num left honest v.behind) tt;
      }
    where
      left_behind : (n c m : ℕ) → m ≡ (if ltb n c then c else n) → c ≤ next → n ≤ next → m ≤ next
      left_behind n c m e hc hn = ground arith

  -- A round of a thread that receives ACKs, on a datagram from the wire.
  pub receive_ack-Safe :
      (datagram : List ℕ) (old : AckPacket) (now : Timeval)
      → Elem datagram a.to_sender
      → (p : Process) × (receive_ack source a.process old datagram now ≡ ok p)
        × Safe total last_size chunk (record a { process = p })
  receive_ack-Safe datagram old now from_wire =
      let w = All-elem _ datagram a.to_sender v.ack_wire from_wire in
      elim w.kind [
        | inl greets ↦ (
          a.process,
          ap (λ d. receive_ack source a.process old d now) w.laid_out
              ∙ receive_ack-handshake source a.process old w.ack now w.sendable greets,
          v,
        )
        | inr (regular, honest) ↦
            let acked = Acked-honest w.ack honest in
            (
              record { slide_window = acked.window; rtt_estimator = _ },
              ap (λ d. receive_ack source a.process old d now) w.laid_out
                  ∙ receive_ack-ack_datagram source a.process old w.ack now acked.window _
                      w.sendable regular
                      (ack_arrived-regular a.process.rtt_estimator w.ack now regular) acked.returns,
              acked.safe _,
            )
      ]
