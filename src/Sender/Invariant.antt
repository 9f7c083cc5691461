-- ===== src/Sender/Invariant.antt =====
-- What holds of the sender (src/slideWindowSender.cpp) while it sends one file of `total` packets,
-- and that each part of its methods keeps it.
use reliable_packet_transmis.Base.{
  ℕ, ◌+◌, ◌-◌, ◌*◌, ◌^◌, ◌≤◌, ◌<◌, ◌≡◌, refl, ap, sym, true, not, ltb, min, List, [], ◌∷◌, length,
  arith, ◌⊎◌, Bool-cases, inl, inr, sub32, ◌==◌, modify,
}
use reliable_packet_transmis.Sender.{
  Sender, Item, ItemState, shrunk_threshold, has_pending, is_sent, congestion_window_min,
  congestion_threshold_min,
}
use reliable_packet_transmis.Sender.Ack.{
  ack_item, selective, punish, resend_head, count_duplicate, fast_retransmit, grown_window, grow,
}
use reliable_packet_transmis.Sender.Window.{
  Carries, bytes_below, relabel, length-modify-ack_item, modify-ack_item-Carries,
}

-- Congestion control, by the left bound of the window: no sum of it wraps.
pub record IsPaced (s : Sender) : Type 0 where
  pub at_least : congestion_window_min ≤ s.cur_congestion_window
  pub at_most : s.cur_congestion_window ≤ 2 * s.slide_window_left_bound_seq_num + 20
  pub covered : s.cur_congestion_window ≤ s.congestion_left_bound_seq_num
  pub near : s.congestion_left_bound_seq_num ≤ 3 * s.slide_window_left_bound_seq_num + 20
  pub threshold : congestion_threshold_min ≤ s.cur_congestion_threshold

-- What holds at every point of a method.
pub record Holds (total last_size : ℕ) (chunk : ℕ → List ℕ) (s : Sender) : Type 0 where
  pub last : s.last_packet_seq_num + 1 ≡ total
  pub last_sized : s.last_packet_size ≡ last_size
  pub carries : Carries chunk s.slide_window_left_bound_seq_num s.slide_window
  pub in_file : s.slide_window_left_bound_seq_num + length s.slide_window ≤ total
  pub sent : s.bytes_sent ≡ bytes_below chunk s.slide_window_left_bound_seq_num
  pub to_send : s.bytes_to_send ≡ bytes_below chunk total
  pub paced : IsPaced s

-- What holds between two calls: the window holds all that the congestion window and the file allow,
-- and an item that waits to be sent is known to wait.
pub record IsValid (total last_size : ℕ) (chunk : ℕ → List ℕ) (s : Sender) : Type 0 where
  pub holds : Holds total last_size chunk s
  pub filled :
      min s.cur_congestion_window (total - s.slide_window_left_bound_seq_num)
      ≤ length s.slide_window
  pub ready : has_pending s.cur_congestion_window s.slide_window ≡ true → s.new_data_ready ≡ true

pub shrunk_threshold_bounds :
    (w : ℕ) → (20 ≤ shrunk_threshold w) × ((shrunk_threshold w ≤ w) ⊎ (shrunk_threshold w ≡ 20))
unfolding shrunk_threshold
shrunk_threshold_bounds w = ground arith

grown_window_bounds :
    (w t : ℕ)
    → 10 ≤ w
    → 20 ≤ t
    → w < 2 ^ 31 - 20
    → (10 ≤ grown_window w t) × (grown_window w t ≤ 2 * w + 20)
unfolding grown_window
grown_window_bounds w t hw ht room = ground arith

module _ (total last_size : ℕ) (chunk : ℕ → List ℕ) where
  -- The window's states may change at will.
  pub window-Holds :
      (s : Sender) (items : List Item)
      → Holds total last_size chunk s
      → Carries chunk s.slide_window_left_bound_seq_num items
      → length items ≡ length s.slide_window
      → Holds total last_size chunk (record s { slide_window = items })
  window-Holds s items h c e = record {
    last = h.last;
    last_sized = h.last_sized;
    carries = c;
    in_file = omega (arith, h.in_file);
    sent = h.sent;
    to_send = h.to_send;
    paced = record {
      at_least = h.paced.at_least;
      at_most = h.paced.at_most;
      covered = h.paced.covered;
      near = h.paced.near;
      threshold = h.paced.threshold;
    };
  }

module _ (total last_size : ℕ) (chunk : ℕ → List ℕ) (small : total ≤ 2 ^ 30) where
  pub selective-Holds :
      (s : Sender) (cumulative seq : ℕ)
      → Holds total last_size chunk s
      → Holds total last_size chunk (selective s cumulative seq)
  unfolding selective
  selective-Holds s cumulative seq h = elim (Bool-cases (cumulative == seq)) [
    | inl equal ↦ rw equal h
    | inr differ ↦ rw differ (elim (Bool-cases (ltb seq s.slide_window_left_bound_seq_num)) [
      | inl left ↦ rw left h
      | inr right ↦
          let i = sub32 seq s.slide_window_left_bound_seq_num in
          rw right (
            window-Holds total last_size chunk s (modify s.slide_window i ack_item) h
              (modify-ack_item-Carries chunk s.slide_window_left_bound_seq_num s.slide_window i
                h.carries)
              (length-modify-ack_item chunk s.slide_window i))
    ])
  ]

  pub punish-Holds :
      (s : Sender) → Holds total last_size chunk s → Holds total last_size chunk (punish s)
  unfolding punish
  punish-Holds s h = ground (arith, shrunk_threshold_bounds s.cur_congestion_window)

  resend_head-Holds :
      (s : Sender) (items : List Item)
      → s.slide_window ≡ items
      → Holds total last_size chunk s
      → Holds total last_size chunk (resend_head s items)
  unfolding resend_head
  resend_head-Holds s [] e h = h
  resend_head-Holds s (x ∷ xs) e h = elim (Bool-cases (is_sent x.state)) [
    | inl sent ↦
        let c : Carries chunk s.slide_window_left_bound_seq_num (x ∷ xs) = rw e at h.carries in
        let g =
          window-Holds total last_size chunk s (record x { state = ItemState.timeout } ∷ xs) h
            (relabel chunk ItemState.timeout x.last_sent_time c.0, c.1) (sym (ap length e)) in
        rw sent (record {
          last = g.last;
          last_sized = g.last_sized;
          carries = g.carries;
          in_file = g.in_file;
          sent = g.sent;
          to_send = g.to_send;
          paced = record {
            at_least = g.paced.at_least;
            at_most = g.paced.at_most;
            covered = g.paced.covered;
            near = g.paced.near;
            threshold = g.paced.threshold;
          };
        })
    | inr other ↦ rw other h
  ]

  counters-Holds :
      (s : Sender) (ack count : ℕ)
      → Holds total last_size chunk s
      → Holds total last_size chunk (record s { last_ack = ack; last_ack_acked_count = count })
  counters-Holds s ack count h = record {
    last = h.last;
    last_sized = h.last_sized;
    carries = h.carries;
    in_file = h.in_file;
    sent = h.sent;
    to_send = h.to_send;
    paced = record {
      at_least = h.paced.at_least;
      at_most = h.paced.at_most;
      covered = h.paced.covered;
      near = h.paced.near;
      threshold = h.paced.threshold;
    };
  }

  count_duplicate-Holds :
      (s : Sender) → Holds total last_size chunk s → Holds total last_size chunk (count_duplicate s)
  unfolding count_duplicate
  count_duplicate-Holds s h =
      let s' : Sender = record s { last_ack_acked_count = s.last_ack_acked_count + 1 } in
      let h' = counters-Holds s s.last_ack (s.last_ack_acked_count + 1) h in
      elim (Bool-cases (s.last_ack_acked_count + 1 == 2)) [
        | inl second ↦
            rw second
              (resend_head-Holds (punish s') (punish s').slide_window refl (punish-Holds s' h'))
        | inr other ↦ rw other h'
      ]

  pub fast_retransmit-Holds :
      (s : Sender) (cumulative : ℕ)
      → Holds total last_size chunk s
      → Holds total last_size chunk (fast_retransmit s cumulative)
  unfolding fast_retransmit
  fast_retransmit-Holds s cumulative h = elim (Bool-cases (not s.fast_retransmission)) [
    | inl off ↦ rw off h
    | inr on ↦ rw on (elim (Bool-cases (s.last_ack == cumulative)) [
      | inl again ↦ rw again (count_duplicate-Holds s h)
      | inr other ↦ rw other (elim (Bool-cases (ltb s.last_ack cumulative)) [
        | inl newer ↦ rw newer (counters-Holds s cumulative 0 h)
        | inr older ↦ rw older h
      ])
    ])
  ]

  pub grow-Holds :
      (s : Sender) → Holds total last_size chunk s → Holds total last_size chunk (grow s)
  unfolding grow
  grow-Holds s h =
      ground (arith, grown_window_bounds s.cur_congestion_window s.cur_congestion_threshold)
