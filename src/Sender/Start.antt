-- ===== src/Sender/Start.antt =====
-- The constructor and `finished` (src/slideWindowSender.cpp): how a transfer is split into packets,
-- where it starts and when it is over.
use reliable_packet_transmis.Base.{
  ℕ, zero, suc, ◌+◌, ◌-◌, ◌*◌, ◌^◌, ◌≤◌, ◌<◌, ◌≡◌, refl, ap, sym, ◌∙◌, Bool, true, false, List,
  length, arith, tests, ok, Bool-cases, inl, inr, ◌==◌,
}
use reliable_packet_transmis.Packet.{data_packet_data_size}
use reliable_packet_transmis.Sender.{Sender, FileSource, congestion_window_min}
use reliable_packet_transmis.Sender.Window.{bytes_below, IsFile}
use reliable_packet_transmis.Sender.Load.{push_items-Pushes}
use mathlib.Core.Bool.{false≢true}
use reliable_packet_transmis.Sender.{init, last_seq_num_of, last_size_of, finished, uint_max}
use reliable_packet_transmis.Sender.Invariant.{IsValid}
use reliable_packet_transmis.Base.{◌↔◌, ==→eq, eq→==}

-- A transfer of at least one byte and at most 1450 * 2 ^ 32 is split into full packets and a last
-- one that is neither empty nor larger than the others, and the last number fits 32 bits, although
-- the product in the code wraps at 32 bits.
pub last_packet_lem :
    (bytes : ℕ)
    → 0 < bytes
    → bytes ≤ data_packet_data_size * 2 ^ 32
    → (bytes ≡ data_packet_data_size * last_seq_num_of bytes + last_size_of bytes)
      × (0 < last_size_of bytes)
      × (last_size_of bytes ≤ data_packet_data_size)
      × (last_seq_num_of bytes < 2 ^ 32)
unfolding last_size_of
last_packet_lem bytes positive fits = ground arith

-- The sizes of the packets below `n` do not fall, and grow within the file.
bytes_below_mono :
    (chunk : ℕ → List ℕ) (total n d : ℕ)
    → ((k : ℕ) → k < total → 0 < length (chunk k))
    → n + d ≤ total
    → bytes_below chunk n + d ≤ bytes_below chunk (n + d)
bytes_below_mono chunk total n zero h e = let e' : n + 0 ≡ n = omega arith in rw e' (omega arith)
bytes_below_mono chunk total n (suc d) h e =
    let e' : n + suc d ≡ suc (n + d) = omega arith in
    rw e' (omega (arith, bytes_below_mono chunk total n d h (omega arith), h (n + d) (omega arith)))

module _ (source : FileSource) (total last_size : ℕ) (chunk : ℕ → List ℕ)
    (file : IsFile source total last_size chunk) where
  module _ (s : Sender) (v : IsValid total last_size chunk s) where
    -- A valid sender says that it has finished, by its count of bytes, exactly when its left bound
    -- is the number of packets of the file: when all are acknowledged.
    pub finished_iff_acked : (finished s ≡ true) ↔ (s.slide_window_left_bound_seq_num ≡ total)
    unfolding finished
    finished_iff_acked = (
      λ f. omega (
        tests,
        ==→eq s.bytes_sent s.bytes_to_send f,
        v.holds.sent,
        v.holds.to_send,
        v.holds.in_file,
        mono,
        ap (bytes_below chunk) up,
      ),
      λ e. eq→== _ _ (v.holds.sent ∙ ap (bytes_below chunk) e ∙ sym v.holds.to_send),
    )
      where
        n : ℕ
        n = s.slide_window_left_bound_seq_num

        up : n + (total - n) ≡ total
        up = omega (arith, v.holds.in_file)

        mono : bytes_below chunk n + (total - n) ≤ bytes_below chunk (n + (total - n))
        mono = bytes_below_mono chunk total n (total - n) file.chunk_positive (omega (arith, up))

    -- As long as a valid sender has not finished, its window holds at least the packet that is
    -- awaited.
    pub unfinished-window : finished s ≡ false → 0 < length s.slide_window
    unfolding finished
    unfinished-window f = elim (Bool-cases (s.slide_window_left_bound_seq_num == total)) [
      | inl over ↦ absurd (false≢true (sym f ∙ finished_iff_acked.1 (==→eq _ _ over)))
      | inr going ↦ omega (tests, going, v.filled, v.holds.paced.at_least, v.holds.in_file)
    ]

  -- Constructing a sender for a file that is read as its packets succeeds; the new sender is valid
  -- and awaits packet 0.
  pub init_lem :
      (bytes : ℕ) (fast : Bool)
      → last_seq_num_of bytes + 1 ≡ total
      → last_size_of bytes ≡ last_size
      → bytes ≡ bytes_below chunk total
      → (s : Sender) × (init source bytes fast ≡ ok s)
        × IsValid total last_size chunk s
        × (s.slide_window_left_bound_seq_num ≡ 0)
  unfolding init
  init_lem bytes fast el es eb =
      let (items, p) =
        push_items-Pushes source total (last_seq_num_of bytes) last_size chunk file el 0
          congestion_window_min 0 (omega arith) in
      (
        record {
          bytes_to_send = bytes;
          bytes_sent = 0;
          last_packet_seq_num = last_seq_num_of bytes;
          last_packet_size = last_size_of bytes;
          fast_retransmission = fast;
          last_ack = 0;
          last_ack_acked_count = 0;
          cur_congestion_window_timeouted = false;
          new_data_ready = true;
          slide_window_left_bound_seq_num = 0;
          slide_window = items;
          cur_congestion_window = congestion_window_min;
          cur_congestion_threshold = uint_max;
          congestion_left_bound_seq_num = congestion_window_min;
        },
        rw (es, p.pushes),
        record {
          holds = record {
            last = el;
            last_sized = es;
            carries = p.carries;
            in_file = p.in_file;
            sent = refl;
            to_send = eb;
            paced = omega arith;
          };
          filled = omega (arith, p.enough);
          ready = λ _. refl;
        },
        refl,
      )
