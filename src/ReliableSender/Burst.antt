-- ===== src/ReliableSender/Burst.antt =====
-- The inner loop of `sendData` (src/reliable_sender.cpp), which lays out and sends the prepared packets
-- one by one, when no other thread comes between.
use reliable_packet_transmis.Base.{
  ℕ, zero, suc, ◌+◌, ◌≤◌, ◌≡◌, refl, sym, ap, ◌∙◌, false, subst, true, Bool-cases, inl, inr, List,
  [], ◌∷◌, map, length, replicate, All, All-map, ok, arith, take-append, drop,
}
use reliable_packet_transmis.Packet.{DataPacket, Timeval, data_packet_size}
use reliable_packet_transmis.Packet.Words.{FitsTimeval}
use reliable_packet_transmis.Packet.DataRoundTrip.{
  IsSendable, data_datagram, length-data_datagram, fill_buffer_data_packet_lem,
}
use reliable_packet_transmis.Sender.{
  Item, Sender, FileSource, has_data_to_send, is_pending, prepare_data_packets_to_send,
}
use reliable_packet_transmis.Sender.Window.{IsFile, Carries}
use reliable_packet_transmis.Sender.Invariant.{IsValid}
use reliable_packet_transmis.Sender.Sending.{IsSent, pending_seqs, prepare_data_packets_to_send_lem}
use reliable_packet_transmis.ReliableSender.Threads.{
  Sending, Threads, Action, run, is_deleted, transmit,
}

length-map {ℓ κ} :
    {A : Type ℓ} {B : Type κ} (f : A → B) (xs : List A) → length (map f xs) ≡ length xs
length-map f [] = refl
length-map f (x ∷ xs) = ap suc (length-map f xs)

has_data_to_send-none : (s : Sender) → s.new_data_ready ≡ false → has_data_to_send s ≡ false
unfolding has_data_to_send
has_data_to_send-none s h = ground arith

-- The packets that wait are not left of the window.
pending_seqs_bound :
    (chunk : ℕ → List ℕ) (n slots : ℕ) (xs : List Item)
    → Carries chunk n xs
    → All (λ k. n ≤ k) (pending_seqs slots xs)
unfolding pending_seqs
pending_seqs_bound chunk n zero xs c = tt
pending_seqs_bound chunk n (suc slots) [] c = tt
pending_seqs_bound chunk n (suc slots) (x ∷ xs) c =
    let rest =
      All-map _ (λ k. n ≤ k) (λ k h. omega arith) _
        (pending_seqs_bound chunk (n + 1) slots xs c.1) in
    elim (Bool-cases (is_pending x.state)) [
      | inl waits ↦ rw waits (omega (arith, c.0.numbered), rest)
      | inr other ↦ rw other rest
    ]

All-of_map :
    (n : ℕ) (packets : List DataPacket)
    → All (λ k. n ≤ k) (map (λ (p : DataPacket). p.seq_num) packets)
    → All (λ (p : DataPacket). n ≤ p.seq_num) packets
All-of_map n [] h = tt
All-of_map n (p ∷ ps) h = (h.0, All-of_map n ps h.1)

-- A packet that is not deleted goes out as its datagram.
pub transmit_lem :
    (p : DataPacket) (ps : List DataPacket) (buffer : List ℕ) (t : Threads)
    → data_packet_size ≤ length buffer
    → IsSendable p
    → t.process.slide_window.slide_window_left_bound_seq_num ≤ p.seq_num
    → transmit p ps buffer t ≡ ok (record t { sender = Sending.sending ps }, data_datagram p ∷ [])
unfolding transmit
transmit_lem p ps buffer t room v kept = rw (
  there,
  fill_buffer_data_packet_lem p buffer v (omega (arith, v.in_datagram)),
  take-append (data_datagram p) (drop (22 + p.data_size) buffer) (22 + p.data_size)
      (sym (length-data_datagram p v)),
)
  where
    there : is_deleted t.process.slide_window p ≡ false
    there = ground arith

-- Packets that are not deleted go out one by one, and then the inner loop tests again.
packets_sent :
    (source : FileSource) (now : Timeval) (buffer : List ℕ) (t : Threads)
    (packets : List DataPacket)
    → data_packet_size ≤ length buffer
    → All IsSendable packets
    → All
        (λ (p : DataPacket). t.process.slide_window.slide_window_left_bound_seq_num ≤ p.seq_num)
        packets
    → run source
        (replicate (suc (length packets)) (Action.send now buffer))
        (record t { sender = Sending.sending packets })
      ≡ ok (record t { sender = Sending.bursting }, map data_datagram packets)
unfolding run
packets_sent source now buffer t [] room v kept = refl
packets_sent source now buffer t (p ∷ ps) room v kept = rw (
  transmit_lem p ps buffer (record t { sender = Sending.sending (p ∷ ps) }) room v.0 kept.0,
  packets_sent source now buffer t ps room v.1 kept.1,
)

module _ (source : FileSource) (total last_size : ℕ) (chunk : ℕ → List ℕ)
    (file : IsFile source total last_size chunk) where
  -- For a valid window with data to send, a time that fits a `timeval` and a buffer of a packet's
  -- size, let `sendData` stand before the test of its inner loop, and let no other thread come
  -- between. One step for the test, one to prepare the packets, one for each packet that waits
  -- within the congestion window, and one more then bring it back to the test, without a fault.
  -- What it has sent are the datagrams of exactly the waiting packets, in their order, each a
  -- packet of the file from within the window; afterwards the window is valid and there is no data
  -- to send.
  pub burst_lem :
      (t : Threads) (now : Timeval) (buffer : List ℕ)
      → IsValid total last_size chunk t.process.slide_window
      → FitsTimeval now
      → data_packet_size ≤ length buffer
      → has_data_to_send t.process.slide_window ≡ true
      → let s = t.process.slide_window in
        let waiting = pending_seqs s.cur_congestion_window s.slide_window in
        (t' : Threads) × (packets : List DataPacket) × (run source
            (replicate (suc (suc (suc (length waiting)))) (Action.send now buffer))
            (record t { sender = Sending.bursting })
          ≡ ok (t', map data_datagram packets))
        × (map (λ (p : DataPacket). p.seq_num) packets ≡ waiting)
        × All
            (IsSent total chunk (s.slide_window_left_bound_seq_num + length s.slide_window))
            packets
        × IsValid total last_size chunk t'.process.slide_window
        × (has_data_to_send t'.process.slide_window ≡ false)
        × (t'.sender ≡ Sending.bursting)
  unfolding run
  burst_lem t now buffer v fits room ready =
      let s = t.process.slide_window in
      let (valid, _, rest, span, seqs, sent) =
        prepare_data_packets_to_send_lem source total last_size chunk file s now fits v in
      let (s', packets) = prepare_data_packets_to_send s now in
      let t' = record t { process = record (t.process) { slide_window = s' } } in
      let sendable = All-map _ IsSendable (λ p (h : IsSent total chunk _ p). h.sendable) _ sent in
      let kept = All-of_map _ packets (
        subst (All (λ k. _ ≤ k)) (sym seqs)
          (pending_seqs_bound chunk _ s.cur_congestion_window s.slide_window v.holds.carries)) in
      let count : length (pending_seqs s.cur_congestion_window s.slide_window) ≡ length packets =
        ap length (sym seqs) ∙ length-map (λ (p : DataPacket). p.seq_num) packets in
      (
        record t' { sender = Sending.bursting },
        packets,
        rw count (
            rw (ready, packets_sent source now buffer t' packets room sendable (rw span.0 kept))
              refl),
        seqs,
        sent,
        valid,
        has_data_to_send-none s' rest,
        refl,
      )
