-- ===== src/Transfer/Progress.antt =====
-- One round trip without a loss moves the window of a transfer.
use reliable_packet_transmis.Base.{
  ℕ, ◌≤◌, ◌<◌, ◌≡◌, refl, sym, ◌∙◌, subst, ap, true, false, ltb, ◌||◌, if◌then◌else◌, Bool-cases,
  inl, inr, List, ◌++◌, map, some, get_elem?, length, replicate, Result, ok, All-map, All-elem,
  Elem, Elem-front, Elem-map, map-Elem, lt→ltb, arith, tests,
}
use mathlib.Core.Bool.{false≢true}
use reliable_packet_transmis.Packet.{DataPacket, AckPacket, AckType, Timeval, data_packet_size}
use reliable_packet_transmis.Packet.Words.{FitsTimeval}
use reliable_packet_transmis.Packet.DataRoundTrip.{data_datagram}
use reliable_packet_transmis.Packet.AckRoundTrip.{IsSendableAck, ack_datagram}
use reliable_packet_transmis.Receiver.{Receiver, Reply}
use reliable_packet_transmis.Receiver.Invariant.{has}
use reliable_packet_transmis.Receiver.Receive.{Receives, next-awaited}
use reliable_packet_transmis.ReliableReceiver.{on_datagram, regular_ack}
use reliable_packet_transmis.ReliableReceiver.Datagrams.{on_datagram_lem, arrived}
use reliable_packet_transmis.ReliableReceiver.Loop.{awaited-within}
use reliable_packet_transmis.ReliableReceiver.Rounds.{copies, copied}
use reliable_packet_transmis.Clock.{elapsed_us}
use reliable_packet_transmis.Rtt.{get_current_timeout_us, sample}
use reliable_packet_transmis.Rtt.Bounds.{ack_arrived-regular}
use reliable_packet_transmis.Sender.{
  Item, FileSource, finished, prepare_data_packets_to_send, is_pending,
}
use reliable_packet_transmis.Sender.Timeout.{is_late}
use reliable_packet_transmis.Sender.Window.{IsFile}
use reliable_packet_transmis.Sender.Sending.{IsSent, prepare_data_packets_to_send_lem}
use reliable_packet_transmis.Sender.Progress.{awaited_packet-resent}
use reliable_packet_transmis.Sender.Expiry.{check_timeout_lem}
use reliable_packet_transmis.ReliableSender.{Process, send_data, receive_ack, check_timeout}
use reliable_packet_transmis.ReliableSender.Datagrams.{send_packets_lem, receive_ack-ack_datagram}
use reliable_packet_transmis.Transfer.{System, Step, sends, delivers, acknowledges, checks}
use reliable_packet_transmis.Transfer.Invariant.{loaded, Safe}
use reliable_packet_transmis.Transfer.SenderSteps.{Acked-honest}
use reliable_packet_transmis.Transfer.ReceiverSteps.{reply-IsSendableAck, forward}
use reliable_packet_transmis.Transfer.Safety.{Step-Safe}

module _ (source : FileSource) (total last_size : ℕ) (chunk : ℕ → List ℕ)
    (file : IsFile source total last_size chunk) where
  abbrev left_of : System → ℕ
  left_of a = a.process.slide_window.slide_window_left_bound_seq_num

  -- The receiver that gets the packet at the left bound awaits a later one then.
  beyond_left :
      (a : System)
      → Safe total last_size chunk a
      → (packet : DataPacket) → IsSent total chunk (loaded a.process.slide_window) packet
      → packet.seq_num ≡ left_of a
      → (seen : DataPacket) → seen.seq_num ≡ packet.seq_num
      → (r' : Receiver) (reply : Reply) (call : Result (Receiver × Reply))
      → Receives total chunk a.receiver seen call r' reply
      → left_of a < r'.next_expected_packet_seq_num
  beyond_left a v packet sent at_left seen same r' reply call c =
      let n = left_of a in
      let e : seen.seq_num ≡ n = same ∙ at_left in
      let have : (k : ℕ) → k < n → has a.receiver k ≡ true = (λ k h.
        rw (lt→ltb k a.receiver.next_expected_packet_seq_num (omega (arith, v.behind))) refl) in
      let gained : has r' n ≡ true =
        c.gains n
        ∙ rw e (
            awaited-within total chunk (omega (arith, file.small)) a.receiver n v.receiver have
              (omega (arith, sent.of_file.in_range, at_left))) in
      elim (Bool-cases (ltb n r'.next_expected_packet_seq_num)) [
        | inl beyond ↦ omega (tests, beyond)
        | inr stuck ↦
            let at : r'.next_expected_packet_seq_num ≡ n = omega (
              tests,
              stuck,
              v.behind,
              forward source total last_size chunk file a v packet sent seen same r' reply call c,
            ) in
            absurd
              (false≢true (sym (next-awaited total chunk r' c.valid) ∙ ap (has r') at ∙ gained))
      ]

  -- What the delivery of a packet comes to.
  record Answered (c : System) (packet : DataPacket) : Type 0 where
    receiver : Receiver
    acks : List (List ℕ)
    ack : AckPacket
    returns : on_datagram c.receiver (data_datagram packet) ≡ ok (receiver, acks)
    among : Elem (ack_datagram ack) acks
    safe :
        Safe total last_size chunk
          (record c { receiver = receiver; to_sender = acks ++ c.to_sender })
    sendable : IsSendableAck ack
    regular : ack.type ≡ AckType.regular
    beyond : left_of c < ack.cumulative_seq_num
    honest : ack.cumulative_seq_num ≤ receiver.next_expected_packet_seq_num

  -- The receiver takes the packet at the left bound, and awaits a later one then.
  answered :
      (c : System)
      → Safe total last_size chunk c
      → (packet : DataPacket) → IsSent total chunk (loaded c.process.slide_window) packet
      → packet.seq_num ≡ left_of c
      → Elem (data_datagram packet) c.to_receiver
      → Answered c packet
  answered c v packet sent at_left there =
      let (r', reply, call, returns) =
        on_datagram_lem packet sent.sendable total chunk (omega (arith, file.small)) c.receiver
          sent.of_file v.receiver in
      let seen = arrived packet sent.sendable in
      let ack = regular_ack reply packet.sent_time in
      let beyond = beyond_left c v packet sent at_left seen refl r' reply _ call in
      let step : Step source c _ = delivers (data_datagram packet) r' _ there returns in
      record {
        receiver = r';
        acks = replicate (copies r') (ack_datagram ack);
        ack = ack;
        returns = returns;
        among = copied r' (ack_datagram ack);
        safe = Step-Safe source total last_size chunk file step v;
        sendable =
            reply-IsSendableAck source total last_size chunk file c v packet sent seen refl r' reply
              _ call;
        regular = refl;
        beyond = omega (arith, beyond, call.cumulative);
        honest = omega (arith, call.cumulative);
      }

  -- The sender sends the packet at the left bound.
  module _ (a : System) (v : Safe total last_size chunk a) (checked later : Timeval)
      (buffer : List ℕ) (x : Item) (fits : FitsTimeval later)
      (room : data_packet_size ≤ length buffer) (going : finished a.process.slide_window ≡ false)
      (first : get_elem? a.process.slide_window.slide_window 0 ≡ some x)
      (waits : (is_pending x.state
          || is_late (get_current_timeout_us a.process.rtt_estimator) checked x)
        ≡ true) where
    -- What a check and a round of sending come to.
    record Resent : Type 0 where
      process : Process
      datagrams : List (List ℕ)
      round : send_data (check_timeout a.process checked).0 later buffer ≡ ok (process, datagrams)
      safe :
          Safe total last_size chunk
            (record a { process = process; to_receiver = datagrams ++ a.to_receiver })
      same_left : process.slide_window.slide_window_left_bound_seq_num ≡ left_of a
      packet : DataPacket
      sent : IsSent total chunk (loaded process.slide_window) packet
      at_left : packet.seq_num ≡ left_of a
      there : Elem (data_datagram packet) datagrams

    resent : Resent
    unfolding check_timeout send_data
    resent =
        let s = a.process.slide_window in
        let threshold = get_current_timeout_us a.process.rtt_estimator in
        let p = (check_timeout a.process checked).0 in
        let a₁ : System = record a { process = p } in
        let step₁ : Step source a a₁ = checks checked in
        let v₁ = Step-Safe source total last_size chunk file step₁ v in
        let (_, left, _, _) =
          check_timeout_lem total last_size chunk file.small s threshold checked v.sender in
        let (ready, named) =
          awaited_packet-resent source total last_size chunk file s v.sender threshold checked later
            x fits going first waits in
        let (valid, _, _, span, _, packets) =
          prepare_data_packets_to_send_lem source total last_size chunk file p.slide_window later
            fits v₁.sender in
        let (s', ps) = prepare_data_packets_to_send p.slide_window later in
        let sendable = All-map _ _ (λ p h. h.sendable) ps packets in
        let (packet, among, e) = map-Elem (λ (p : DataPacket). p.seq_num) _ ps named in
        let p' = record p { slide_window = s' } in
        let round : send_data p later buffer ≡ ok (p', map data_datagram ps) =
          rw (ready, send_packets_lem ps buffer room sendable) refl in
        let same : loaded p.slide_window ≡ loaded s' = omega (arith, span) in
        let step₂ : Step source a₁
            (record a₁ { process = p'; to_receiver = map data_datagram ps ++ a.to_receiver }) =
          sends later buffer p' _ fits room round in
        record {
          process = p';
          datagrams = map data_datagram ps;
          round = round;
          safe = Step-Safe source total last_size chunk file step₂ v₁;
          same_left = omega (arith, span, left);
          packet = packet;
          sent =
              subst (λ limit. IsSent total chunk limit packet) same
                (All-elem (IsSent total chunk _) packet ps packets among);
          at_left = omega (arith, e, left);
          there = Elem-map data_datagram packet ps among;
        }

    choose : (n c m : ℕ) → m ≡ (if ltb n c then c else n) → n < c → n < m
    choose n c m e h = ground arith

    -- From a safe state of a transfer of a file of at most 2 ^ 30 packets that the sender has not
    -- finished, let the first item of its window wait to be sent or have been under way for longer
    -- than the timeout when the next check for timeouts comes. Then one check and one round of
    -- sending, at a time that fits a `timeval` and into a buffer of a packet's size, send the
    -- packet at the left bound, among others; the receiver, as it is, takes this packet and
    -- answers; and the round of the sender's thread on an ACK that it has sent then moves the left
    -- bound of the window further. None of these four rounds fails, and the state after them is
    -- safe again.
    pub round_trip-advances :
        (old : AckPacket) (now : Timeval)
        → (p₂ : Process) × (sent : List (List ℕ)) × (packet : DataPacket) × (r' : Receiver)
          × (acks : List (List ℕ)) × (ack : AckPacket) × (p₃ : Process) × (send_data
                (check_timeout a.process checked).0
                later
                buffer
              ≡ ok (p₂, sent))
          × (packet.seq_num ≡ a.process.slide_window.slide_window_left_bound_seq_num)
          × Elem (data_datagram packet) sent
          × (on_datagram a.receiver (data_datagram packet) ≡ ok (r', acks))
          × Elem (ack_datagram ack) acks
          × (receive_ack source p₂ old (ack_datagram ack) now ≡ ok p₃)
          × (a.process.slide_window.slide_window_left_bound_seq_num
              < p₃.slide_window.slide_window_left_bound_seq_num)
          × Safe total last_size chunk (record {
            process = p₃;
            receiver = r';
            to_receiver = sent ++ a.to_receiver;
            to_sender = acks ++ a.to_sender;
          })
    round_trip-advances old now =
        let q = resent in
        let c : System = record a {
          process = q.process;
          to_receiver = q.datagrams ++ a.to_receiver;
        } in
        let o =
          answered c q.safe q.packet q.sent (q.at_left ∙ sym q.same_left)
            (Elem-front (data_datagram q.packet) q.datagrams a.to_receiver q.there) in
        let d : System = record c { receiver = o.receiver; to_sender = o.acks ++ a.to_sender } in
        let acked = Acked-honest source total last_size chunk file d o.safe o.ack o.honest in
        let p₃ : Process = record {
          slide_window = acked.window;
          rtt_estimator = sample q.process.rtt_estimator (elapsed_us o.ack.sent_time now);
        } in
        let taken : receive_ack source q.process old (ack_datagram o.ack) now ≡ ok p₃ =
          receive_ack-ack_datagram source q.process old o.ack now acked.window _ o.sendable
            o.regular (ack_arrived-regular q.process.rtt_estimator o.ack now o.regular)
            acked.returns in
        let step : Step source d _ =
          acknowledges (ack_datagram o.ack) old now p₃
            (Elem-front (ack_datagram o.ack) o.acks a.to_sender o.among) taken in
        let n = q.process.slide_window.slide_window_left_bound_seq_num in
        let further : n < acked.window.slide_window_left_bound_seq_num =
          choose n o.ack.cumulative_seq_num acked.window.slide_window_left_bound_seq_num acked.left
            o.beyond in
        (
          q.process,
          q.datagrams,
          q.packet,
          o.receiver,
          o.acks,
          o.ack,
          p₃,
          q.round,
          q.at_left,
          q.there,
          o.returns,
          o.among,
          taken,
          omega (arith, further, q.same_left),
          Step-Safe source total last_size chunk file step o.safe,
        )
