-- ===== src/Receiver/Release.antt =====
-- With the checks of _DEBUG, a valid receiver of src/slideWindowReceiver.cpp does what it does without
-- them.
use reliable_packet_transmis.Base.{
  ℕ, ◌+◌, ◌^◌, ◌≤◌, ◌<◌, ◌≡◌, refl, ap, sym, true, Bool-cases, inl, inr, List, [], ◌∷◌, ok, length,
  add32, arith, eq→==,
}
use reliable_packet_transmis.Packet.{DataPacket}
use reliable_packet_transmis.Receiver.{
  Receiver, Item, is_received, slide, within, note_finish, receive_data, receive_data_packet,
}
use reliable_packet_transmis.Receiver.Window.{Consecutive}
use reliable_packet_transmis.Receiver.Invariant.{
  IsPacketOf, IsValid, note_finish-IsValid, next-le-total,
}
use reliable_packet_transmis.Receiver.Store.{store_lem}
use reliable_packet_transmis.Receiver.Debug.{
  ensure_correctness, debug_slide, debug_receive_data, debug_receive_data_packet,
}

ensure_correctness-awaited :
    (next : ℕ) (item : Item)
    → next < 2 ^ 32
    → item.seq_num ≡ next
    → ensure_correctness next item 0 ≡ ok tt
unfolding ensure_correctness
ensure_correctness-awaited next item h e = rw (eq→== (add32 next 0) item.seq_num (omega arith)) refl

debug_slide_lem :
    (items : List Item) (next : ℕ)
    → Consecutive next items
    → next + length items < 2 ^ 32
    → debug_slide items next ≡ ok (slide items next)
unfolding debug_slide slide
debug_slide_lem [] next c h = refl
debug_slide_lem (x ∷ xs) next c h = elim (Bool-cases (is_received x.state)) [
  | inr open_head ↦ rw open_head refl
  | inl received ↦
      let step : next + 1 ≡ add32 next 1 = omega arith in
      rw (received, ensure_correctness-awaited next x (omega arith) c.0)
        (debug_slide_lem xs (add32 next 1) (rw (sym step) c.1) (omega arith))
]

module _ (total : ℕ) (chunk : ℕ → List ℕ) (room : total + 400 ≤ 2 ^ 32) (r : Receiver)
    (packet : DataPacket) (p : IsPacketOf total chunk packet) (v : IsValid total chunk r) where
  debug_receive_data_lem :
      (packet.seq_num + 1 ≡ total → r.last_packet_seq_num_received ≡ true)
      → debug_receive_data r packet ≡ receive_data r packet
  unfolding debug_receive_data receive_data
  debug_receive_data_lem noted = elim (Bool-cases (within r packet.seq_num)) [
    | inr outside ↦ rw outside refl
    | inl inside ↦
        let (stored, s) = store_lem total chunk room r packet p v noted inside in
        rw
          (
            inside,
            s.stores,
            debug_slide_lem stored.slide_window stored.next_expected_packet_seq_num
                s.holds.consecutive
                (omega (arith, next-le-total total chunk stored s.holds, s.holds.short)),
          )
          refl
  ]

module _ (total : ℕ) (chunk : ℕ → List ℕ) (room : total + 400 ≤ 2 ^ 32) (r : Receiver)
    (packet : DataPacket) (p : IsPacketOf total chunk packet) (v : IsValid total chunk r) where
  -- For a valid receiver, and a packet of a file of at most 2 ^ 32 - 400 packets, the check of
  -- _DEBUG never fails: `receiveDataPacket` returns what it returns without it.
  pub debug_receive-release : debug_receive_data_packet r packet ≡ receive_data_packet r packet
  unfolding debug_receive_data_packet receive_data_packet
  debug_receive-release = rw p.kind (
      debug_receive_data_lem total chunk room (note_finish packet.type packet.seq_num r) packet p
        (note_finish-IsValid total chunk r packet p v)
        (λ q.
          ap (λ type. (note_finish type packet.seq_num r).last_packet_seq_num_received)
            (p.last_is_finish q)))
