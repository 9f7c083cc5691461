-- ===== src/Receiver/Debug.antt =====
-- src/slideWindowReceiver.cpp as it is built with _DEBUG: `ensureCorrectness`, and `receiveDataPacket` with
-- the checks of it. What is only printed is left out.
use reliable_packet_transmis.Base.{
  ℕ, ◌==◌, if◌then◌else◌, List, [], ◌∷◌, Result, ok, fault, assertion, ◌>>=◌, add32,
}
use reliable_packet_transmis.Packet.{DataPacket}
use reliable_packet_transmis.Receiver.{
  Receiver, Item, Reply, is_received, store, within, receive_outside, refill, is_data, note_finish,
}

-- The number of an item must be that of its position, from the number `next` that is awaited.
unfoldable pub ensure_correctness : ℕ → Item → ℕ → Result (Unit {0})
ensure_correctness next item position =
    if add32 next position == item.seq_num then ok tt else fault assertion

-- The loop that pops what has been received off the front.
unfoldable pub debug_slide : List Item → ℕ → Result (List Item × ℕ)
unfolding ensure_correctness
debug_slide [] next = ok ([], next)
debug_slide (item ∷ items) next =
    let rest : Result (List Item × ℕ) = (do
      checked ← ensure_correctness next item 0
      debug_slide items (add32 next 1)) in
    if is_received item.state then rest else ok (item ∷ items, next)

unfoldable pub debug_receive_within : Receiver → DataPacket → Result (Receiver × Reply)
unfolding debug_slide
debug_receive_within r packet = do
  r ← store r packet
  (items, next) ← debug_slide r.slide_window r.next_expected_packet_seq_num
  ok (
    record r { slide_window = items; next_expected_packet_seq_num = next },
    record { cumulative_seq_num = next; selective_seq_num = packet.seq_num },
  )

unfoldable pub debug_receive_data : Receiver → DataPacket → Result (Receiver × Reply)
unfolding debug_receive_within
debug_receive_data r packet = do
  (r, reply) ← if within r packet.seq_num then debug_receive_within r packet else receive_outside r
  ok (refill r, reply)

unfoldable pub debug_receive_data_packet : Receiver → DataPacket → Result (Receiver × Reply)
unfolding debug_receive_data
debug_receive_data_packet r packet =
    if is_data packet.type
    then debug_receive_data (note_finish packet.type packet.seq_num r) packet
    else fault assertion
