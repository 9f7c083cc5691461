-- ===== src/Sender/Sending.antt =====
-- `prepareDataPacketsToSend` (src/slideWindowSender.cpp): which packets it hands out, and what the
-- sender is afterwards.
use reliable_packet_transmis.Base.{
  ℕ, zero, suc, ◌+◌, ◌^◌, ◌≤◌, ◌<◌, ◌≡◌, refl, ap, sym, ◌∙◌, false, if◌then◌else◌, List, [], ◌∷◌,
  length, arith, Bool-cases, inl, inr,
}
use reliable_packet_transmis.Packet.{DataPacket, Timeval, data_packet_data_size}
use reliable_packet_transmis.Sender.{Sender, Item, FileSource, has_pending}
use reliable_packet_transmis.Sender.Window.{IsLoaded, Carries, IsFile}
use mathlib.Core.Bool.{false≢true}
use reliable_packet_transmis.Packet.DataRoundTrip.{IsSendable}
use reliable_packet_transmis.Packet.Words.{FitsTimeval}
use reliable_packet_transmis.Receiver.Invariant.{IsPacketOf}
use reliable_packet_transmis.Sender.{
  prepare_items, prepare_data_packets_to_send, packet_of, is_pending,
}
use reliable_packet_transmis.Sender.Window.{prepare_items-Carries, length-prepare_items}
use reliable_packet_transmis.Sender.Invariant.{IsValid, window-Holds}
use reliable_packet_transmis.Sender.Arrival.{SameSpan, flags-Holds}
use reliable_packet_transmis.Base.{All, map}

-- The numbers of the items among the first `slots` that wait to be sent.
unfoldable pub pending_seqs : ℕ → List Item → List ℕ
pending_seqs zero items = []
pending_seqs (suc slots) [] = []
pending_seqs (suc slots) (item ∷ items) =
    let rest = pending_seqs slots items in
    if is_pending item.state then item.seq_num ∷ rest else rest

-- Sending leaves nothing that waits among the first `slots`.
prepare_items-none_pending :
    (last : ℕ) (now : Timeval) (slots : ℕ) (xs : List Item)
    → has_pending slots (prepare_items last now slots xs).1 ≡ false
unfolding prepare_items has_pending
prepare_items-none_pending last now zero xs = refl
prepare_items-none_pending last now (suc slots) [] = refl
prepare_items-none_pending last now (suc slots) (x ∷ xs) =
    ground (arith, prepare_items-none_pending last now slots xs)

prepare_items-seqs :
    (last : ℕ) (now : Timeval) (slots : ℕ) (xs : List Item)
    → map (λ p. p.seq_num) (prepare_items last now slots xs).0 ≡ pending_seqs slots xs
unfolding prepare_items pending_seqs
prepare_items-seqs last now zero xs = refl
prepare_items-seqs last now (suc slots) [] = refl
prepare_items-seqs last now (suc slots) (x ∷ xs) =
    ground (arith, prepare_items-seqs last now slots xs)

-- A packet of the file that can be sent, below a limit.
pub record IsSent (total : ℕ) (chunk : ℕ → List ℕ) (limit : ℕ) (p : DataPacket) : Type 0 where
  pub of_file : IsPacketOf total chunk p
  pub sendable : IsSendable p
  pub below : p.seq_num < limit

module _ (total last : ℕ) (chunk : ℕ → List ℕ) (is_last : last + 1 ≡ total) (small : total ≤ 2 ^ 30)
    (chunk_fits : (k : ℕ) → length (chunk k) ≤ data_packet_data_size) (now : Timeval)
    (fits : FitsTimeval now) where
  packet_of-IsPacketOf :
      (n : ℕ) (item : Item)
      → IsLoaded chunk n item
      → n < total
      → IsPacketOf total chunk (packet_of last now item)
  unfolding packet_of
  packet_of-IsPacketOf n item l h = record {
    kind = ground arith;
    in_range = omega (arith, l.numbered);
    bytes_of = l.holds ∙ ap chunk (sym l.numbered);
    finish_is_last = λ e. ground arith;
    last_is_finish = λ e. ground arith;
  }

  packet_of-IsSendable :
      (n : ℕ) (item : Item)
      → IsLoaded chunk n item
      → n < total
      → IsSendable (packet_of last now item)
  unfolding packet_of
  packet_of-IsSendable n item l h = record {
    known = ground arith;
    seq_fits = omega (arith, l.numbered);
    time_fits = fits;
    in_memory = l.in_memory;
    in_datagram = omega (arith, l.sized, chunk_fits n);
  }

  below :
      {limit : ℕ} (n : ℕ) (item : Item)
      → IsLoaded chunk n item
      → n < limit
      → (packet_of last now item).seq_num < limit
  unfolding packet_of
  below n item l h = omega (arith, l.numbered)

  prepare_items-IsSent :
      (limit n slots : ℕ) (xs : List Item)
      → limit ≤ total
      → n + length xs ≤ limit
      → Carries chunk n xs
      → All (IsSent total chunk limit) (prepare_items last now slots xs).0
  unfolding prepare_items
  prepare_items-IsSent limit n zero xs hl h c = tt
  prepare_items-IsSent limit n (suc slots) [] hl h c = tt
  prepare_items-IsSent limit n (suc slots) (x ∷ xs) hl h c =
      let ih = prepare_items-IsSent limit (n + 1) slots xs hl (omega arith) c.1 in
      elim (Bool-cases (is_pending x.state)) [
        | inl waits ↦ rw waits (
          record {
            of_file = packet_of-IsPacketOf n x c.0 (omega arith);
            sendable = packet_of-IsSendable n x c.0 (omega arith);
            below = below n x c.0 (omega arith);
          },
          ih,
        )
        | inr other ↦ rw other ih
      ]

module _ (source : FileSource) (total last_size : ℕ) (chunk : ℕ → List ℕ)
    (file : IsFile source total last_size chunk) (s : Sender) (now : Timeval)
    (fits : FitsTimeval now) (v : IsValid total last_size chunk s) where
  -- For a valid sender, a round of sending hands out exactly the packets that wait within the
  -- congestion window, in their order, and each of them is a packet of the file from within the
  -- window that fits a datagram; afterwards the sender is valid, nothing within the congestion
  -- window waits, the flag for new data is down, and the window spans the same numbers.
  pub prepare_data_packets_to_send_lem :
      let (s', packets) = prepare_data_packets_to_send s now in
      IsValid total last_size chunk s'
      × (has_pending s'.cur_congestion_window s'.slide_window ≡ false)
      × (s'.new_data_ready ≡ false)
      × SameSpan s s'
      × (map (λ (p : DataPacket). p.seq_num) packets
          ≡ pending_seqs s.cur_congestion_window s.slide_window)
      × All (IsSent total chunk (s.slide_window_left_bound_seq_num + length s.slide_window)) packets
  unfolding prepare_data_packets_to_send
  prepare_data_packets_to_send_lem =
      let n = s.slide_window_left_bound_seq_num in
      let last = s.last_packet_seq_num in
      let w = s.cur_congestion_window in
      let items = (prepare_items last now w s.slide_window).1 in
      let none = prepare_items-none_pending last now w s.slide_window in
      let same = length-prepare_items chunk last now w s.slide_window in
      let h =
        window-Holds total last_size chunk s items v.holds
          (prepare_items-Carries chunk n last now w s.slide_window v.holds.carries) same in
      (
        record {
          holds =
              flags-Holds total last_size chunk (record s { slide_window = items }) false false h;
          filled = omega (arith, same, v.filled);
          ready = λ e. absurd (false≢true (sym none ∙ e));
        },
        none,
        refl,
        (refl, same),
        prepare_items-seqs last now w s.slide_window,
        prepare_items-IsSent total last chunk v.holds.last file.small file.chunk_fits now fits
            (n + length s.slide_window) n w s.slide_window v.holds.in_file (omega arith)
            v.holds.carries,
      )
