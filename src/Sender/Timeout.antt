-- ===== src/Sender/Timeout.antt =====
-- src/slideWindowSender.cpp, `checkTimeout`.
use reliable_packet_transmis.Base.{
  ℕ, Bool, true, false, not, ◌&&◌, ltb, if◌then◌else◌, List, [], ◌∷◌, add32,
}
use reliable_packet_transmis.Packet.{Timeval}
use reliable_packet_transmis.Clock.{elapsed_us}
use reliable_packet_transmis.Sender.{
  Sender, Item, ItemState, is_sent, shrunk_threshold, look_for_data, congestion_window_min,
}

-- Under way for longer than the threshold.
unfoldable pub is_late : ℕ → Timeval → Item → Bool
is_late threshold_us now item =
    is_sent item.state && ltb threshold_us (elapsed_us item.last_sent_time now)

-- The loop over the whole window: the new items, and whether any has timed out.
unfoldable pub expire_items : ℕ → Timeval → List Item → List Item × Bool
unfolding is_late
expire_items threshold_us now [] = ([], false)
expire_items threshold_us now (item ∷ items) =
    let (rest, late) = expire_items threshold_us now items in
    if is_late threshold_us now item
    then (record item { state = ItemState.timeout } ∷ rest, true)
    else (item ∷ rest, late)

-- The congestion window shrinks to its minimum, once for each round of sending.
unfoldable pub punish_timeout : Bool → Sender → Sender
unfolding shrunk_threshold
punish_timeout some_packet_timeout s =
    if not s.cur_congestion_window_timeouted && some_packet_timeout
    then record s {
      cur_congestion_threshold = shrunk_threshold s.cur_congestion_window;
      cur_congestion_window = congestion_window_min;
      congestion_left_bound_seq_num = add32 s.slide_window_left_bound_seq_num congestion_window_min;
      cur_congestion_window_timeouted = true;
    }
    else s

unfoldable pub check_timeout : Sender → ℕ → Timeval → Sender
unfolding expire_items punish_timeout look_for_data
check_timeout s threshold_us now =
    let (items, late) = expire_items threshold_us now s.slide_window in
    look_for_data (punish_timeout late (record s { slide_window = items }))
