-- ===== src/Sender/Debug.antt =====
-- src/slideWindowSender.cpp as it is built with _DEBUG: `ensureCorrectness`, and the methods with the
-- checks of it that they make. What is only printed is left out.
use reliable_packet_transmis.Base.{
  ℕ, zero, suc, ◌+◌, ◌-◌, ◌%◌, ◌^◌, Bool, true, false, ltb, ◌==◌, if◌then◌else◌, List, [], ◌∷◌,
  Option, none, some, Result, ok, fault, assertion, out_of_bounds, ◌>>=◌, length, modify, get_elem?,
  add32, sub32,
}
use reliable_packet_transmis.Packet.{DataPacket, AckPacket, Timeval}
use reliable_packet_transmis.Sender.{
  Sender, Item, ItemState, FileSource, is_pending, after_sending, packet_of, look_for_data,
}
use reliable_packet_transmis.Sender.Ack.{ack_item, fast_retransmit, grow, fill}
use reliable_packet_transmis.Sender.Timeout.{is_late, punish_timeout}

-- The number of an item must be that of its position, from the left bound `left`.
unfoldable pub ensure_correctness : ℕ → Item → ℕ → Result (Unit {0})
ensure_correctness left item position =
    if add32 left position == item.seq_num then ok tt else fault assertion

-- The loop of `prepareDataPacketsToSend`, from position `i` on.
unfoldable pub debug_prepare_items :
    ℕ → ℕ → ℕ → Timeval → ℕ → List Item → Result (List DataPacket × List Item)
unfolding ensure_correctness
debug_prepare_items left i last now zero items = ok ([], items)
debug_prepare_items left i last now (suc slots) [] = ok ([], [])
debug_prepare_items left i last now (suc slots) (item ∷ items) =
    let rest = debug_prepare_items left (i + 1) last now slots items in
    let sends : Result (List DataPacket × List Item) = (do
      checked ← ensure_correctness left item i
      (packets, items) ← rest
      ok (
        packet_of last now item ∷ packets,
        record item { state = after_sending item.state; last_sent_time = now } ∷ items,
      )) in
    let passes : Result (List DataPacket × List Item) = (do
      (packets, items) ← rest
      ok (packets, item ∷ items)) in
    if is_pending item.state then sends else passes

unfoldable pub debug_prepare_data_packets_to_send :
    Sender → Timeval → Result (Sender × List DataPacket)
unfolding debug_prepare_items
debug_prepare_data_packets_to_send s now = do
  (packets, items) ←
      debug_prepare_items s.slide_window_left_bound_seq_num 0 s.last_packet_seq_num now
        s.cur_congestion_window s.slide_window
  ok (
    record s {
      slide_window = items;
      new_data_ready = false;
      cur_congestion_window_timeouted = false;
    },
    packets,
  )

-- The loop of `checkTimeout`, from position `i` on.
unfoldable pub debug_expire_items : ℕ → ℕ → ℕ → Timeval → List Item → Result (List Item × Bool)
unfolding ensure_correctness
debug_expire_items left i threshold_us now [] = ok ([], false)
debug_expire_items left i threshold_us now (item ∷ items) = do
  checked ← ensure_correctness left item i
  (rest, late) ← debug_expire_items left (i + 1) threshold_us now items
  ok (
      if is_late threshold_us now item
      then (record item { state = ItemState.timeout } ∷ rest, true)
      else (item ∷ rest, late))

unfoldable pub debug_check_timeout : Sender → ℕ → Timeval → Result Sender
unfolding debug_expire_items
debug_check_timeout s threshold_us now = do
  (items, late) ←
      debug_expire_items s.slide_window_left_bound_seq_num 0 threshold_us now s.slide_window
  ok (look_for_data (punish_timeout late (record s { slide_window = items })))

-- The selective part of `ackArrived`, at `slideWindow[i]`.
unfoldable pub debug_ack_at : Sender → ℕ → Option Item → Result Sender
unfolding ensure_correctness
debug_ack_at s i none = ok s
debug_ack_at s i (some item) = do
  checked ← ensure_correctness s.slide_window_left_bound_seq_num item i
  ok (record s { slide_window = modify s.slide_window i ack_item })

unfoldable pub debug_selective : Sender → ℕ → ℕ → Result Sender
unfolding debug_ack_at
debug_selective s cumulative seq =
    let i = sub32 seq s.slide_window_left_bound_seq_num in
    if cumulative == seq
    then ok s
    else if ltb seq s.slide_window_left_bound_seq_num
    then ok s
    else debug_ack_at s i (get_elem? s.slide_window i)

-- The loop that pops what has been received, from position `i` on.
unfoldable pub debug_pop_items : ℕ → ℕ → ℕ → List Item → ℕ → Result (List Item × ℕ)
unfolding ensure_correctness
debug_pop_items left i zero items sent = ok (items, sent)
debug_pop_items left i (suc rounds) [] sent = fault out_of_bounds
debug_pop_items left i (suc rounds) (item ∷ items) sent = do
  checked ← ensure_correctness left item i
  debug_pop_items left (i + 1) rounds items ((sent + item.data_size) % 2 ^ 64)

-- The cumulative part, with the test for enough data.
unfoldable pub debug_cumulate : Sender → ℕ → Result Sender
unfolding debug_pop_items
debug_cumulate s cumulative =
    let left = s.slide_window_left_bound_seq_num in
    let slid : Result Sender = (do
      (items, sent) ← debug_pop_items left 0 (cumulative - left) s.slide_window s.bytes_sent
      ok (record s {
        slide_window = items;
        bytes_sent = sent;
        slide_window_left_bound_seq_num = cumulative;
      })) in
    if ltb left cumulative
    then if ltb (length s.slide_window) (sub32 cumulative left) then fault assertion else slid
    else ok s

unfoldable pub debug_ack_arrived : FileSource → Sender → AckPacket → Result Sender
unfolding debug_selective debug_cumulate
debug_ack_arrived source s packet = do
  s ← debug_selective s packet.cumulative_seq_num packet.selective_seq_num
  s ← debug_cumulate (fast_retransmit s packet.cumulative_seq_num) packet.cumulative_seq_num
  s ← fill source (grow s)
  ok (look_for_data s)
