-- ===== src/Sender/Punished.antt =====
-- What the second repetition of an ACK does in `ackArrived` (src/slideWindowSender.cpp) before the window
-- slides.
use reliable_packet_transmis.Base.{
  ℕ, suc, ◌+◌, ◌-◌, ◌^◌, ◌<◌, ◌≡◌, refl, ap, true, false, ◌||◌, ltb, ◌==◌, Bool-cases, inl, inr,
  List, ◌∷◌, modify, sub32, add32, arith, eq→==,
}
use reliable_packet_transmis.Sender.{Sender, Item, ItemState, is_sent, shrunk_threshold}
use reliable_packet_transmis.Sender.Ack.{ack_item, selective, punish, fast_retransmit}

module _ (s : Sender) (x : Item) (xs : List Item) (head : s.slide_window ≡ x ∷ xs) where
  -- An ACK that awaits the first item does not mark it as acknowledged.
  pub selective-head :
      (seq : ℕ)
      → seq < 2 ^ 32
      → s.slide_window_left_bound_seq_num < 2 ^ 32
      → (ys : List Item) × (selective s s.slide_window_left_bound_seq_num seq
          ≡ record s { slide_window = x ∷ ys })
  unfolding selective
  selective-head seq fits small =
      let n = s.slide_window_left_bound_seq_num in
      let same : s ≡ record s { slide_window = x ∷ xs } =
        ap (λ (items : List Item). record s { slide_window = items }) head in
      elim (Bool-cases (n == seq)) [
        | inl equal ↦ (xs, rw equal same)
        | inr differ ↦ elim (Bool-cases (ltb seq n)) [
          | inl left ↦ (xs, rw (differ, left) same)
          | inr right ↦
              let behind : sub32 seq n ≡ suc (seq - n - 1) =
                behind_first seq n fits small differ right in
              (modify xs (seq - n - 1) ack_item, rw (differ, right, behind, head) refl)
        ]
      ]
    where
      behind_first :
          (seq n : ℕ)
          → seq < 2 ^ 32
          → n < 2 ^ 32
          → (n == seq) ≡ false
          → ltb seq n ≡ false
          → sub32 seq n ≡ suc (seq - n - 1)
      behind_first seq n fits small differ right = ground arith

-- The first item waits to be sent again, and the congestion window has shrunk, unless it had before.
pub record IsPunished (s : Sender) (x : Item) (s' : Sender) : Type 0 where
  pub rest : List Item
  pub first : s'.slide_window ≡ record x { state = ItemState.timeout } ∷ rest
  pub left : s'.slide_window_left_bound_seq_num ≡ s.slide_window_left_bound_seq_num
  pub ready : s'.new_data_ready ≡ true
  pub shrunk :
      (s.cur_congestion_window_timeouted
        || s'.cur_congestion_window == shrunk_threshold s.cur_congestion_window)
      ≡ true
  pub ahead :
      (s.cur_congestion_window_timeouted
        || ltb s'.slide_window_left_bound_seq_num s'.congestion_left_bound_seq_num)
      ≡ true

module _ (s : Sender) (x : Item) (ys : List Item) (sent : is_sent x.state ≡ true)
    (fast : s.fast_retransmission ≡ true) (once : s.last_ack_acked_count ≡ 1)
    (small : s.slide_window_left_bound_seq_num + shrunk_threshold s.cur_congestion_window < 2 ^ 32)
    (positive : 0 < shrunk_threshold s.cur_congestion_window)
    (repeated : s.last_ack ≡ s.slide_window_left_bound_seq_num) where
  -- With the second repetition counted, and the first item to be sent again.
  resent : Sender
  resent = record s {
    last_ack_acked_count = s.last_ack_acked_count + 1;
    slide_window = record x { state = ItemState.timeout } ∷ ys;
    new_data_ready = true;
  }

  second : (s.last_ack_acked_count + 1 == 2) ≡ true
  second = rw once refl

  awaits : (s.last_ack == s.slide_window_left_bound_seq_num) ≡ true
  awaits = eq→== _ _ repeated

  retransmits_before :
      s.cur_congestion_window_timeouted ≡ true
      → fast_retransmit (record s { slide_window = x ∷ ys }) s.slide_window_left_bound_seq_num
        ≡ resent
  unfolding fast_retransmit resent
  retransmits_before before = rw (fast, awaits, second, before, sent) refl

  retransmits_fresh :
      s.cur_congestion_window_timeouted ≡ false
      → fast_retransmit (record s { slide_window = x ∷ ys }) s.slide_window_left_bound_seq_num
        ≡ punish resent
  unfolding fast_retransmit resent
  retransmits_fresh fresh = rw (fast, awaits, second, fresh, sent) refl

  pub fast_retransmit-IsPunished :
      IsPunished s x
        (fast_retransmit (record s { slide_window = x ∷ ys }) s.slide_window_left_bound_seq_num)
  unfolding resent punish
  fast_retransmit-IsPunished = elim (Bool-cases s.cur_congestion_window_timeouted) [
    | inl before ↦ rw (retransmits_before before) (record {
      rest = ys;
      first = refl;
      left = refl;
      ready = refl;
      shrunk = rw before refl;
      ahead = rw before refl;
    })
    | inr fresh ↦
        rw (retransmits_fresh fresh, fresh)
          (record {
            rest = ys;
            first = refl;
            left = refl;
            ready = refl;
            shrunk = eq→== _ _ refl;
            ahead = no_wrap _ _ small positive;
          })
  ]
    where
      no_wrap : (n w : ℕ) → n + w < 2 ^ 32 → 0 < w → ltb n (add32 n w) ≡ true
      no_wrap n w small positive = ground arith
