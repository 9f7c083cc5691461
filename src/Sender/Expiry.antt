-- ===== src/Sender/Expiry.antt =====
-- `checkTimeout` (src/slideWindowSender.cpp): which items time out, and what the sender is then.
use reliable_packet_transmis.Base.{
  ℕ, ◌-◌, ◌^◌, ◌≤◌, ◌≡◌, refl, ap, ◌∙◌, Bool, false, not, if◌then◌else◌, min, List, [], ◌∷◌, length,
  arith, Bool-cases, inl, inr,
}
use reliable_packet_transmis.Packet.{Timeval}
use reliable_packet_transmis.Sender.{Sender, Item, ItemState, look_for_data, congestion_window_min}
use reliable_packet_transmis.Sender.Timeout.{expire_items, punish_timeout}
use reliable_packet_transmis.Sender.Window.{length-expire_items, expire_items-Carries}
use reliable_packet_transmis.Sender.Timeout.{is_late, check_timeout}
use reliable_packet_transmis.Sender.Invariant.{
  Holds, IsValid, window-Holds, shrunk_threshold_bounds,
}
use reliable_packet_transmis.Sender.Arrival.{SameSpan, look_for_data-IsValid}
use reliable_packet_transmis.Base.{map, ◌||◌, ◌&&◌}

-- What a timeout makes of an item: one that is late waits to be sent again, any other stays.
unfoldable pub expired : ℕ → Timeval → Item → Item
expired threshold_us now item =
    if is_late threshold_us now item then record item { state = ItemState.timeout } else item

unfoldable pub any_late : ℕ → Timeval → List Item → Bool
any_late threshold_us now [] = false
any_late threshold_us now (item ∷ items) =
    is_late threshold_us now item || any_late threshold_us now items

-- The loop treats each item of the window by itself, and notes whether one was late.
pub expire_items-map :
    (threshold_us : ℕ) (now : Timeval) (xs : List Item)
    → expire_items threshold_us now xs
      ≡ (map (expired threshold_us now) xs, any_late threshold_us now xs)
unfolding expire_items expired any_late
expire_items-map threshold_us now [] = refl
expire_items-map threshold_us now (x ∷ xs) =
    let ih = expire_items-map threshold_us now xs in
    elim (Bool-cases (is_late threshold_us now x)) [
      | inl late ↦ rw (late, ih)
      | inr early ↦ rw (early, ih)
    ]

punish_timeout-Holds :
    (total last_size : ℕ) (chunk : ℕ → List ℕ) (small : total ≤ 2 ^ 30) (late : Bool) (s : Sender)
    → Holds total last_size chunk s
    → Holds total last_size chunk (punish_timeout late s)
unfolding punish_timeout
punish_timeout-Holds total last_size chunk small late s h =
    ground (arith, shrunk_threshold_bounds s.cur_congestion_window)

-- The window of congestion only shrinks.
punish_timeout-SameSpan :
    (late : Bool) (s : Sender)
    → SameSpan s (punish_timeout late s)
      × ((punish_timeout late s).slide_window ≡ s.slide_window)
      × ((punish_timeout late s).cur_congestion_window ≡ (
          if late && not s.cur_congestion_window_timeouted
          then congestion_window_min
          else s.cur_congestion_window))
unfolding punish_timeout
punish_timeout-SameSpan late s = ground arith

look_for_data-window :
    (s : Sender) → (look_for_data s).cur_congestion_window ≡ s.cur_congestion_window
unfolding look_for_data
look_for_data-window s = ground arith

length-look_for_data : (s : Sender) → length (look_for_data s).slide_window ≡ length s.slide_window
unfolding look_for_data
length-look_for_data s = ground arith

module _ (total last_size : ℕ) (chunk : ℕ → List ℕ) (small : total ≤ 2 ^ 30) (s : Sender)
    (threshold_us : ℕ) (now : Timeval) (v : IsValid total last_size chunk s) where
  -- A check for timeouts keeps a valid sender of at most 2 ^ 30 packets valid and its left bound;
  -- exactly the late items of the whole window time out, and all others stay; the congestion
  -- window becomes its minimum if there was a late item and it had not been shrunk since the last
  -- round of sending, and stays otherwise.
  pub check_timeout_lem :
      let s' = check_timeout s threshold_us now in
      let late = any_late threshold_us now s.slide_window in
      IsValid total last_size chunk s'
      × (s'.slide_window_left_bound_seq_num ≡ s.slide_window_left_bound_seq_num)
      × (s'.slide_window ≡ map (expired threshold_us now) s.slide_window)
      × (s'.cur_congestion_window ≡ (
          if late && not s.cur_congestion_window_timeouted
          then congestion_window_min
          else s.cur_congestion_window))
  unfolding check_timeout
  check_timeout_lem =
      let out = expire_items threshold_us now s.slide_window in
      let e = expire_items-map threshold_us now s.slide_window in
      let n = s.slide_window_left_bound_seq_num in
      let same = length-expire_items chunk threshold_us now s.slide_window in
      let s₁ : Sender = record s { slide_window = out.0 } in
      let h₁ =
        window-Holds total last_size chunk s out.0 v.holds
          (expire_items-Carries chunk n threshold_us now s.slide_window v.holds.carries) same in
      let h₂ = punish_timeout-Holds total last_size chunk small out.1 s₁ h₁ in
      let (span, items, window) = punish_timeout-SameSpan out.1 s₁ in
      let filled = keeps_filled (punish_timeout out.1 s₁) out.1 out.0 span window same in
      let (valid, items', left) =
        look_for_data-IsValid total last_size chunk (punish_timeout out.1 s₁) h₂ filled in
      (
        valid,
        left ∙ span.0,
        items' ∙ items ∙ ap (λ o. o.0) e,
        look_for_data-window (punish_timeout out.1 s₁)
            ∙ window
            ∙ ap
                (λ (o : List Item × Bool).
                  if o.1 && not s.cur_congestion_window_timeouted
                  then congestion_window_min
                  else s.cur_congestion_window)
                e,
      )
    where
      keeps_filled :
          (t : Sender) (late : Bool) (items : List Item)
          → SameSpan (record s { slide_window = items }) t
          → t.cur_congestion_window ≡ (
              if late && not s.cur_congestion_window_timeouted
              then congestion_window_min
              else s.cur_congestion_window)
          → length items ≡ length s.slide_window
          → min t.cur_congestion_window (total - t.slide_window_left_bound_seq_num)
            ≤ length t.slide_window
      keeps_filled t late items span window same =
          ground (arith, span, window, same, v.filled, v.holds.paced.at_least)

-- A check for timeouts leaves the length of the window.
pub length-check_timeout :
    (s : Sender) (threshold_us : ℕ) (now : Timeval)
    → length (check_timeout s threshold_us now).slide_window ≡ length s.slide_window
unfolding check_timeout
length-check_timeout s threshold_us now =
    let out = expire_items threshold_us now s.slide_window in
    let s₁ : Sender = record s { slide_window = out.0 } in
    omega (
      arith,
      length-look_for_data (punish_timeout out.1 s₁),
      (punish_timeout-SameSpan out.1 s₁).0,
      length-expire_items (λ (k : ℕ). []) threshold_us now s.slide_window,
    )
