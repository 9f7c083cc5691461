-- ===== src/Sender/Ack.antt =====
-- src/slideWindowSender.cpp, `ackArrived`: what an ACK does to the sender, in the order of the code.
use reliable_packet_transmis.Base.{
  ℕ, zero, suc, ◌+◌, ◌-◌, ◌%◌, ◌^◌, true, not, ltb, leb, ◌==◌, if◌then◌else◌, List, [], ◌∷◌, ◌++◌,
  Result, ok, fault, out_of_bounds, ◌>>=◌, length, modify, add32, sub32, mul32,
}
use reliable_packet_transmis.Packet.{AckPacket}
use reliable_packet_transmis.Sender.{
  Sender, Item, ItemState, FileSource, is_sent, shrunk_threshold, push_items, look_for_data,
  fast_retransmission_threshold, congestion_threshold_min,
}

abbrev pub ack_item : Item → Item
ack_item item = record item { state = ItemState.acked }

-- The selective part. Equal numbers mean that the receiver had no room for the packet.
unfoldable pub selective : Sender → ℕ → ℕ → Sender
selective s cumulative seq =
    if cumulative == seq
    then s
    else if ltb seq s.slide_window_left_bound_seq_num
    then s
    else record s {
      slide_window = modify s.slide_window (sub32 seq s.slide_window_left_bound_seq_num) ack_item;
    }

-- The congestion window shrinks, once for each round of sending.
unfoldable pub punish : Sender → Sender
unfolding shrunk_threshold
punish s = if s.cur_congestion_window_timeouted then s else record s {
  cur_congestion_threshold = shrunk_threshold s.cur_congestion_window;
  cur_congestion_window = shrunk_threshold s.cur_congestion_window;
  congestion_left_bound_seq_num =
      add32 s.slide_window_left_bound_seq_num (shrunk_threshold s.cur_congestion_window);
  cur_congestion_window_timeouted = true;
}

unfoldable pub resend_head : Sender → List Item → Sender
resend_head s [] = s
resend_head s (item ∷ items) =
    if is_sent item.state
    then record s {
      slide_window = record item { state = ItemState.timeout } ∷ items;
      new_data_ready = true;
    }
    else s

-- The first item of the window is to be sent again.
unfoldable pub resend_first : Sender → Sender
unfolding resend_head
resend_first s = resend_head s s.slide_window

-- An ACK is repeated. The count is an `int` in the code, for fewer than 2 ^ 31 repetitions in a row.
unfoldable pub count_duplicate : Sender → Sender
unfolding punish resend_first
count_duplicate s =
    let s' = record s { last_ack_acked_count = s.last_ack_acked_count + 1 } in
    if s'.last_ack_acked_count == fast_retransmission_threshold
    then resend_first (punish s')
    else s'

-- Fast retransmission, on the second repetition of an ACK.
unfoldable pub fast_retransmit : Sender → ℕ → Sender
unfolding count_duplicate
fast_retransmit s cumulative =
    if not s.fast_retransmission
    then s
    else if s.last_ack == cumulative
    then count_duplicate s
    else if ltb s.last_ack cumulative
    then record s { last_ack = cumulative; last_ack_acked_count = 0 }
    else s

-- The loop that pops what has been received: `rounds` items, whose sizes are added up.
unfoldable pub pop_items : ℕ → List Item → ℕ → Result (List Item × ℕ)
pop_items zero items sent = ok (items, sent)
pop_items (suc rounds) [] sent = fault out_of_bounds
pop_items (suc rounds) (item ∷ items) sent =
    pop_items rounds items ((sent + item.data_size) % 2 ^ 64)

unfoldable pub advance : Sender → ℕ → Result Sender
unfolding pop_items
advance s cumulative = do
  (items, sent) ←
      pop_items (cumulative - s.slide_window_left_bound_seq_num) s.slide_window s.bytes_sent
  ok (record s {
    slide_window = items;
    bytes_sent = sent;
    slide_window_left_bound_seq_num = cumulative;
  })

-- The cumulative part.
unfoldable pub cumulate : Sender → ℕ → Result Sender
unfolding advance
cumulate s cumulative =
    if ltb s.slide_window_left_bound_seq_num cumulative then advance s cumulative else ok s

-- Doubled up to the threshold, and by a fixed step from there on.
unfoldable pub grown_window : ℕ → ℕ → ℕ
grown_window window threshold =
    if ltb window threshold
    then if leb threshold (mul32 window 2) then threshold else mul32 window 2
    else add32 window congestion_threshold_min

unfoldable pub pace : Sender → ℕ → Sender
pace s window = record s {
  cur_congestion_window = window;
  congestion_left_bound_seq_num = add32 s.slide_window_left_bound_seq_num window;
}

-- Congestion control: the window grows once all that it held has been acknowledged.
unfoldable pub grow : Sender → Sender
unfolding pace
grow s =
    if leb s.congestion_left_bound_seq_num s.slide_window_left_bound_seq_num
    then pace s (grown_window s.cur_congestion_window s.cur_congestion_threshold)
    else s

-- The deque is filled up to the congestion window.
unfoldable pub fill : FileSource → Sender → Result Sender
fill source s = do
  items ←
      push_items source s.last_packet_seq_num s.last_packet_size s.slide_window_left_bound_seq_num
        (s.cur_congestion_window - length s.slide_window) (length s.slide_window)
  ok (record s { slide_window = s.slide_window ++ items })

unfoldable pub ack_arrived : FileSource → Sender → AckPacket → Result Sender
unfolding selective fast_retransmit cumulate grow fill look_for_data
ack_arrived source s packet = do
  let s = selective s packet.cumulative_seq_num packet.selective_seq_num
  s ← cumulate (fast_retransmit s packet.cumulative_seq_num) packet.cumulative_seq_num
  s ← fill source (grow s)
  ok (look_for_data s)
