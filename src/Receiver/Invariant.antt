-- ===== src/Receiver/Invariant.antt =====
-- What holds of the receiver (src/slideWindowReceiver.cpp) while it receives the packets of one
-- file: `total` packets, of which number `k` carries the bytes `chunk k`.
use reliable_packet_transmis.Base.{
  ℕ, ◌+◌, ◌-◌, ◌*◌, ◌^◌, ◌≤◌, ◌<◌, ◌≡◌, refl, ap, sym, Bool, true, ltb, ◌==◌, List, length, mul32,
  arith, All, Elem, tests, Bool-cases, inl, inr, ◌∙◌, lt→ltb, length-append,
}
use reliable_packet_transmis.Packet.{DataPacket, DataType, data_packet_data_size}
use reliable_packet_transmis.Receiver.{
  Receiver, FileWrite, init_window_size, new_items, slide_window, refill, packet_bytes, note_finish,
  is_data,
}
use reliable_packet_transmis.Receiver.Window.{
  Consecutive, HeadOpen, has_in, count_received, length-new_items, new_items-Consecutive,
  Consecutive-append, slide-Slides, HeadOpen-append-new_items, has_in-append-new_items,
  count_received-append-new_items,
}

-- Whether packet `k` has been received.
abbrev pub has : Receiver → ℕ → Bool
has r k = has_in r.next_expected_packet_seq_num r.slide_window k

-- The write of packet `k`, at the offset that the code computes, which wraps at 32 bits.
abbrev pub chunk_write : (ℕ → List ℕ) → ℕ → FileWrite
chunk_write chunk k = record { offset = mul32 k data_packet_data_size; bytes = chunk k }

-- The bytes of packet `k` at their place in the file.
abbrev pub placed : (ℕ → List ℕ) → ℕ → FileWrite
placed chunk k = record { offset = data_packet_data_size * k; bytes = chunk k }

-- Where the last packet begins below 2 ^ 32 bytes, no offset wraps.
pub chunk_write-placed :
    (chunk : ℕ → List ℕ) (total k : ℕ)
    → data_packet_data_size * (total - 1) < 2 ^ 32
    → k < total
    → chunk_write chunk k ≡ placed chunk k
chunk_write-placed chunk total k unwrapped h =
    let e : mul32 k data_packet_data_size ≡ data_packet_data_size * k = omega arith in rw e

-- The file is all in its place: there are as many writes as packets, each puts some packet's bytes at
-- their place, and every packet is among them.
abbrev pub IsInPlace : ℕ → (ℕ → List ℕ) → List FileWrite → Type 0
IsInPlace total chunk writes =
    (length writes ≡ total)
    × All (λ w. (k : ℕ) × (k < total) × (w ≡ placed chunk k)) writes
    × ((k : ℕ) → k < total → Elem (placed chunk k) writes)

-- A packet of the file, as the sender makes it.
pub record IsPacketOf (total : ℕ) (chunk : ℕ → List ℕ) (packet : DataPacket) : Type 0 where
  pub kind : is_data packet.type ≡ true
  pub in_range : packet.seq_num < total
  pub bytes_of : packet_bytes packet ≡ chunk packet.seq_num
  pub finish_is_last : packet.type ≡ DataType.finish → packet.seq_num + 1 ≡ total
  pub last_is_finish : packet.seq_num + 1 ≡ total → packet.type ≡ DataType.finish

-- What holds at every point of `receiveDataPacket`.
pub record Holds (total : ℕ) (chunk : ℕ → List ℕ) (r : Receiver) : Type 0 where
  pub sized : r.cur_window_size ≡ init_window_size
  pub short : length r.slide_window ≤ init_window_size
  pub consecutive : Consecutive r.next_expected_packet_seq_num r.slide_window
  pub bounded : (k : ℕ) → has r k ≡ true → k < total
  pub stored : (k : ℕ) → has r k ≡ true → Elem (chunk_write chunk k) r.writes
  pub honest : All (λ w. (k : ℕ) × (k < total) × (w ≡ chunk_write chunk k)) r.writes
  pub counted : length r.writes ≡ r.next_expected_packet_seq_num + count_received r.slide_window
  pub last_known : r.last_packet_seq_num_received ≡ true → r.last_packet_seq_num + 1 ≡ total
  pub last_heard : (k : ℕ) → k + 1 ≡ total → has r k ≡ true → r.last_packet_seq_num_received ≡ true

-- What holds between two calls: the window is full, and begins with a packet that is awaited.
pub record IsValid (total : ℕ) (chunk : ℕ → List ℕ) (r : Receiver) : Type 0 where
  pub holds : Holds total chunk r
  pub filled : length r.slide_window ≡ init_window_size
  pub head_open : HeadOpen r.slide_window

-- A bound of all that has been received bounds the number of the awaited packet.
pub next-le :
    (limit : ℕ) (r : Receiver)
    → ((k : ℕ) → has r k ≡ true → k < limit)
    → r.next_expected_packet_seq_num ≤ limit
next-le limit r bounded = elim (Bool-cases (r.next_expected_packet_seq_num == 0)) [
  | inl start ↦ omega tests
  | inr later ↦
      let k = r.next_expected_packet_seq_num - 1 in
      let left : ltb k r.next_expected_packet_seq_num ≡ true = lt→ltb _ _ (omega tests) in
      omega (tests, bounded k (rw left))
]

module _ (total : ℕ) (chunk : ℕ → List ℕ) where
  pub next-le-total : (r : Receiver) → Holds total chunk r → r.next_expected_packet_seq_num ≤ total
  next-le-total r h = next-le total r h.bounded

  -- The FINISH packet's number is noted, and nothing else changes.
  pub note_finish-IsValid :
      (r : Receiver) (packet : DataPacket)
      → IsPacketOf total chunk packet
      → IsValid total chunk r
      → IsValid total chunk (note_finish packet.type packet.seq_num r)
  note_finish-IsValid r packet p v = by_type packet.type refl
    where
      by_type :
          (t : DataType) → packet.type ≡ t → IsValid total chunk (note_finish t packet.seq_num r)
      by_type DataType.finish e = record {
        holds = record {
          sized = v.holds.sized;
          short = v.holds.short;
          consecutive = v.holds.consecutive;
          bounded = v.holds.bounded;
          stored = v.holds.stored;
          honest = v.holds.honest;
          counted = v.holds.counted;
          last_known = λ _. p.finish_is_last e;
          last_heard = λ k _ _. refl;
        };
        filled = v.filled;
        head_open = v.head_open;
      }
      by_type _ e = v

  -- Popping what has been received keeps all that holds, and leaves an awaited packet in front.
  pub slide_window-Holds :
      (r : Receiver)
      → total + 400 ≤ 2 ^ 32
      → Holds total chunk r
      → Holds total chunk (slide_window r)
        × HeadOpen (slide_window r).slide_window
        × ((k : ℕ) → has (slide_window r) k ≡ has r k)
  slide_window-Holds r room h =
      let n = r.next_expected_packet_seq_num in
      let s =
        slide-Slides n r.slide_window h.consecutive (omega (arith, next-le-total r h, h.short)) in
      let same : (k : ℕ) → has (slide_window r) k ≡ has r k = s.same_received in
      (
        record {
          sized = h.sized;
          short = omega (arith, s.same_end, s.forward, h.short);
          consecutive = s.consecutive;
          bounded = λ k e. h.bounded k (sym (same k) ∙ e);
          stored = λ k e. h.stored k (sym (same k) ∙ e);
          honest = h.honest;
          counted = h.counted ∙ sym s.same_count;
          last_known = h.last_known;
          last_heard = λ k e seen. h.last_heard k e (sym (same k) ∙ seen);
        },
        s.head_open,
        same,
      )

  -- Filling the window up keeps all that holds, and makes the receiver ready for the next call.
  pub refill-IsValid :
      (r : Receiver)
      → total + 400 ≤ 2 ^ 32
      → Holds total chunk r
      → HeadOpen r.slide_window
      → IsValid total chunk (refill r) × ((k : ℕ) → has (refill r) k ≡ has r k)
  unfolding refill
  refill-IsValid r room h open_head =
      let n = r.next_expected_packet_seq_num in
      let len = length r.slide_window in
      let rounds = r.cur_window_size - len in
      let same : (k : ℕ) → has (refill r) k ≡ has r k =
        (λ k. has_in-append-new_items n k rounds n len r.slide_window) in
      let filled : length (refill r).slide_window ≡ init_window_size = omega (
        arith,
        length-append r.slide_window (new_items rounds n len),
        length-new_items rounds n len,
        h.sized,
        h.short,
      ) in
      (
        record {
          holds = record {
            sized = h.sized;
            short = omega (arith, filled);
            consecutive = Consecutive-append n (n + len) r.slide_window _ refl h.consecutive (
                new_items-Consecutive rounds n len (n + len) refl
                  (omega (arith, next-le-total r h, h.sized, h.short)));
            bounded = λ k e. h.bounded k (sym (same k) ∙ e);
            stored = λ k e. h.stored k (sym (same k) ∙ e);
            honest = h.honest;
            counted =
                h.counted
                ∙ ap (◌+◌ n) (sym (count_received-append-new_items rounds n len r.slide_window));
            last_known = h.last_known;
            last_heard = λ k e seen. h.last_heard k e (sym (same k) ∙ seen);
          };
          filled = filled;
          head_open = HeadOpen-append-new_items rounds n len r.slide_window open_head;
        },
        same,
      )
