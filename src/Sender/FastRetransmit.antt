-- ===== src/Sender/FastRetransmit.antt =====
-- Fast retransmission in `ackArrived` (src/slideWindowSender.cpp): the second repetition of an ACK sends
-- the awaited packet again.
use reliable_packet_transmis.Base.{
  ℕ, ◌+◌, ◌-◌, ◌^◌, ◌<◌, ◌≡◌, refl, sym, ap, ◌∙◌, subst, Bool, true, false, ◌||◌, ltb, leb, ◌==◌,
  if◌then◌else◌, Bool-cases, inl, inr, List, ◌∷◌, ◌++◌, map, Elem, ok, ◌>>=◌, OnOk, OnOk-ok,
  >>=-OnOk, >>=-OnOk_any, length, arith,
}
use reliable_packet_transmis.Packet.{DataPacket, AckPacket, Timeval}
use reliable_packet_transmis.Packet.Words.{FitsTimeval}
use reliable_packet_transmis.Sender.{
  Sender, Item, ItemState, FileSource, is_sent, shrunk_threshold, push_items, look_for_data,
  has_pending, prepare_data_packets_to_send,
}
use reliable_packet_transmis.Sender.Ack.{cumulate, grow, fill, ack_arrived}
use reliable_packet_transmis.Sender.Window.{IsFile, Carries}
use reliable_packet_transmis.Sender.Invariant.{IsValid, shrunk_threshold_bounds}
use reliable_packet_transmis.Sender.Arrival.{ack_arrived_lem}
use reliable_packet_transmis.Sender.Sending.{pending_seqs, prepare_data_packets_to_send_lem}
use reliable_packet_transmis.Sender.Progress.{first_sent}
use reliable_packet_transmis.Sender.Punished.{
  selective-head, IsPunished, fast_retransmit-IsPunished,
}

-- What is left of it when `ackArrived` returns.
record IsResent (s : Sender) (x : Item) (s' : Sender) : Type 0 where
  rest : List Item
  first : s'.slide_window ≡ record x { state = ItemState.timeout } ∷ rest
  shrunk :
      (s.cur_congestion_window_timeouted
        || s'.cur_congestion_window == shrunk_threshold s.cur_congestion_window)
      ≡ true

module _ (source : FileSource) (s : Sender) (x : Item) (s₂ : Sender)
    (punished : IsPunished s x s₂) where
  stays : cumulate s₂ s.slide_window_left_bound_seq_num ≡ ok s₂
  unfolding cumulate
  stays = rw (level _ _ punished.left) refl
    where
      level : (m n : ℕ) → m ≡ n → ltb m n ≡ false
      level m n e = ground arith

  -- The window grows only where it had shrunk before.
  grow_lem :
      ((grow s₂).slide_window ≡ s₂.slide_window)
      × ((grow s₂).new_data_ready ≡ true)
      × ((s.cur_congestion_window_timeouted
            || (grow s₂).cur_congestion_window == shrunk_threshold s.cur_congestion_window)
          ≡ true)
  unfolding grow
  grow_lem =
      elim (Bool-cases (leb s₂.congestion_left_bound_seq_num s₂.slide_window_left_bound_seq_num)) [
        | inl grows ↦
            let before = had_before s.cur_congestion_window_timeouted _ _ punished.ahead grows in
            rw grows (refl, punished.ready, rw before refl)
        | inr full ↦ rw full (refl, punished.ready, punished.shrunk)
      ]
    where
      had_before : (b : Bool) (m n : ℕ) → (b || ltb m n) ≡ true → leb n m ≡ true → b ≡ true
      had_before b m n h grows = ground arith

  -- The window after `fill`, with its flag.
  abbrev IsFilled : Sender → Type 0
  IsFilled s' = IsResent s x s' × (s'.new_data_ready ≡ true)

  fill-IsFilled : OnOk IsFilled (fill source (grow s₂))
  unfolding fill
  fill-IsFilled =
      let (items, ready, shrunk) = grow_lem in
      >>=-OnOk_any IsFilled
        (push_items source (grow s₂).last_packet_seq_num (grow s₂).last_packet_size
          (grow s₂).slide_window_left_bound_seq_num
          ((grow s₂).cur_congestion_window - length (grow s₂).slide_window)
          (length (grow s₂).slide_window))
        _
        (λ more. (
          record {
            rest = punished.rest ++ more;
            first = ap (λ (ys : List Item). ys ++ more) (items ∙ punished.first);
            shrunk = shrunk;
          },
          ready,
        ))

  fill-IsResent : OnOk (IsResent s x) (fill source (grow s₂) >>= λ s'. ok (look_for_data s'))
  unfolding look_for_data
  fill-IsResent =
      >>=-OnOk IsFilled (IsResent s x) (fill source (grow s₂)) (λ s'. ok (look_for_data s'))
        fill-IsFilled
        (λ s' (r, ready).
          subst (IsResent s x)
            (sym (
              ap
                (λ (b : Bool). if b then s' else record s' {
                  new_data_ready = has_pending s'.cur_congestion_window s'.slide_window;
                })
                ready))
            r)

module _ (source : FileSource) (total last_size : ℕ) (chunk : ℕ → List ℕ)
    (file : IsFile source total last_size chunk) (s : Sender) (packet : AckPacket) (x : Item)
    (xs : List Item) (later : Timeval) where
  ack_arrived-IsResent :
      IsValid total last_size chunk s
      → packet.selective_seq_num < 2 ^ 32
      → packet.cumulative_seq_num ≡ s.slide_window_left_bound_seq_num
      → s.last_ack ≡ s.slide_window_left_bound_seq_num
      → s.last_ack_acked_count ≡ 1
      → s.fast_retransmission ≡ true
      → s.slide_window ≡ x ∷ xs
      → is_sent x.state ≡ true
      → OnOk (IsResent s x) (ack_arrived source s packet)
  unfolding ack_arrived
  ack_arrived-IsResent v seq_fits awaited repeated once fast head sent =
      let n = s.slide_window_left_bound_seq_num in
      let bounds = shrunk_threshold_bounds s.cur_congestion_window in
      let small : n < 2 ^ 32 = omega (arith, v.holds.in_file, file.small) in
      let room : n + shrunk_threshold s.cur_congestion_window < 2 ^ 32 =
        ground (arith, v.holds.in_file, file.small, v.holds.paced.at_most, bounds) in
      let (ys, selects) = selective-head s x xs head packet.selective_seq_num seq_fits small in
      let punished =
        fast_retransmit-IsPunished s x ys sent fast once room (omega (arith, bounds.0)) repeated in
      rw (awaited, selects, stays source s x _ punished) (fill-IsResent source s x _ punished)

  -- Let a valid sender with fast retransmission, whose first item is under way, get the ACK that
  -- awaits that item for the second time after the first, whatever else the ACK names. Then the
  -- ACK is taken without a fault, the congestion window is its shrunk threshold, unless it had
  -- been shrunk already since the last round of sending, and the next round of sending, at a time
  -- that fits a `timeval`, sends the packet at the left bound of the window again.
  pub second_repetition-resent :
      IsValid total last_size chunk s
      → FitsTimeval later
      → packet.selective_seq_num < 2 ^ 32
      → packet.cumulative_seq_num ≡ s.slide_window_left_bound_seq_num
      → s.last_ack ≡ s.slide_window_left_bound_seq_num
      → s.last_ack_acked_count ≡ 1
      → s.fast_retransmission ≡ true
      → s.slide_window ≡ x ∷ xs
      → is_sent x.state ≡ true
      → (s' : Sender) × (ack_arrived source s packet ≡ ok s')
        × ((s.cur_congestion_window_timeouted
              || s'.cur_congestion_window == shrunk_threshold s.cur_congestion_window)
            ≡ true)
        × Elem s.slide_window_left_bound_seq_num
            (map (λ (p : DataPacket). p.seq_num) (prepare_data_packets_to_send s' later).1)
  second_repetition-resent v fits seq_fits awaited repeated once fast head sent =
      let n = s.slide_window_left_bound_seq_num in
      let (s', arrives, valid, left, _) =
        ack_arrived_lem source total last_size chunk file s packet v (omega (arith, awaited)) in
      let resent : IsResent s x s' =
        OnOk-ok (IsResent s x) _ arrives
          (ack_arrived-IsResent v seq_fits awaited repeated once fast head sent) in
      let same : s'.slide_window_left_bound_seq_num ≡ n = level n _ awaited left in
      let x' : Item = record x { state = ItemState.timeout } in
      let (_, named) =
        first_sent s'.cur_congestion_window x' resent.rest
          (omega (arith, valid.holds.paced.at_least)) refl in
      let numbered : x.seq_num ≡ n =
        (subst (Carries chunk s'.slide_window_left_bound_seq_num) resent.first
          valid.holds.carries).0.numbered
        ∙ same in
      let (_, _, _, _, seqs, _) =
        prepare_data_packets_to_send_lem source total last_size chunk file s' later fits valid in
      (
        s',
        arrives,
        resent.shrunk,
        subst (Elem n) (sym (seqs ∙ ap (pending_seqs s'.cur_congestion_window) resent.first)) (
            subst (λ k. Elem k (pending_seqs s'.cur_congestion_window (x' ∷ resent.rest))) numbered
              named),
      )
    where
      level : (n c : ℕ) {m : ℕ} → c ≡ n → m ≡ (if ltb n c then c else n) → m ≡ n
      level n c e h = ground arith
