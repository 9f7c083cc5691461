-- ===== src/Sender/Arrival.antt =====
-- `ackArrived` as a whole (src/slideWindowSender.cpp): it does not fault, keeps the sender valid, and
-- moves the left bound to the cumulative number.
use reliable_packet_transmis.Base.{
  ℕ, ◌+◌, ◌-◌, ◌≤◌, ◌≡◌, refl, ap, ◌∙◌, Bool, true, ltb, if◌then◌else◌, min, List, [], ◌∷◌, ◌++◌,
  length, arith, tests, ok, Bool-cases, inl, inr, sub32, length-append,
}
use reliable_packet_transmis.Sender.{Sender, Item, FileSource, look_for_data}
use reliable_packet_transmis.Sender.Ack.{
  selective, punish, resend_head, fast_retransmit, pop_items, cumulate, grow, fill,
}
use reliable_packet_transmis.Sender.Window.{
  bytes_below, IsFile, pop_items-Pops, Carries-append, length-modify-ack_item,
}
use reliable_packet_transmis.Sender.Load.{push_items-Pushes}
use reliable_packet_transmis.Packet.{AckPacket}
use reliable_packet_transmis.Sender.Ack.{ack_arrived}
use reliable_packet_transmis.Sender.Invariant.{
  Holds, IsValid, selective-Holds, fast_retransmit-Holds, grow-Holds,
}

-- The window spans the same numbers.
abbrev pub SameSpan : Sender → Sender → Type 0
SameSpan s s' =
    (s'.slide_window_left_bound_seq_num ≡ s.slide_window_left_bound_seq_num)
    × (length s'.slide_window ≡ length s.slide_window)

pub selective-SameSpan : (s : Sender) (c k : ℕ) → SameSpan s (selective s c k)
unfolding selective
selective-SameSpan s c k = ground (
  arith,
  length-modify-ack_item (λ (j : ℕ). []) s.slide_window (sub32 k s.slide_window_left_bound_seq_num),
)

punish-SameSpan : (s : Sender) → SameSpan s (punish s)
unfolding punish
punish-SameSpan s = ground arith

resend_head-SameSpan :
    (s : Sender) (items : List Item) → s.slide_window ≡ items → SameSpan s (resend_head s items)
unfolding resend_head
resend_head-SameSpan s [] e = (refl, refl)
resend_head-SameSpan s (x ∷ xs) e = ground (arith, ap length e)

pub grow-SameSpan : (s : Sender) → SameSpan s (grow s)
unfolding grow
grow-SameSpan s = ground arith

pub fast_retransmit-SameSpan : (s : Sender) (c : ℕ) → SameSpan s (fast_retransmit s c)
unfolding fast_retransmit
fast_retransmit-SameSpan s c =
    let s' : Sender = record s { last_ack_acked_count = s.last_ack_acked_count + 1 } in
    ground
      (arith, punish-SameSpan s', resend_head-SameSpan (punish s') (punish s').slide_window refl)

module _ (source : FileSource) (total last_size : ℕ) (chunk : ℕ → List ℕ)
    (file : IsFile source total last_size chunk) where
  -- Sliding to a number within the window succeeds.
  pub cumulate_lem :
      (s : Sender) (c : ℕ)
      → Holds total last_size chunk s
      → c ≤ s.slide_window_left_bound_seq_num + length s.slide_window
      → (s' : Sender) × (cumulate s c ≡ ok s')
        × Holds total last_size chunk s'
        × (s'.slide_window_left_bound_seq_num ≡ (
            if ltb s.slide_window_left_bound_seq_num c
            then c
            else s.slide_window_left_bound_seq_num))
        × (s'.slide_window_left_bound_seq_num + length s'.slide_window
            ≡ s.slide_window_left_bound_seq_num + length s.slide_window)
  unfolding cumulate
  cumulate_lem s c h within = elim (Bool-cases (ltb s.slide_window_left_bound_seq_num c)) [
    | inl ahead ↦
        let n = s.slide_window_left_bound_seq_num in
        let (rest, p) =
          pop_items-Pops chunk (c - n) n s.slide_window file.chunk_fits
            (omega (arith, h.in_file, file.small)) (omega arith) h.carries in
        let e : n + (c - n) ≡ c = omega tests in
        (
          record s {
            slide_window = rest;
            bytes_sent = bytes_below chunk (n + (c - n));
            slide_window_left_bound_seq_num = c;
          },
          rw (ahead, ap (pop_items (c - n) s.slide_window) h.sent ∙ p.pops),
          record {
            last = h.last;
            last_sized = h.last_sized;
            carries = rw e at p.carries;
            in_file = omega (tests, p.same_end, h.in_file);
            sent = ap (bytes_below chunk) e;
            to_send = h.to_send;
            paced = record {
              at_least = h.paced.at_least;
              at_most = omega (tests, h.paced.at_most);
              covered = h.paced.covered;
              near = omega (tests, h.paced.near);
              threshold = h.paced.threshold;
            };
          },
          rw ahead,
          omega (tests, p.same_end),
        )
    | inr behind ↦ (s, rw behind, h, rw behind, refl)
  ]

  pub fill_lem :
      (s : Sender)
      → Holds total last_size chunk s
      → (s' : Sender) × (fill source s ≡ ok s')
        × Holds total last_size chunk s'
        × (min s'.cur_congestion_window (total - s'.slide_window_left_bound_seq_num)
            ≤ length s'.slide_window)
        × (s'.slide_window_left_bound_seq_num ≡ s.slide_window_left_bound_seq_num)
        × (length s.slide_window ≤ length s'.slide_window)
  unfolding fill
  fill_lem s h =
      let n = s.slide_window_left_bound_seq_num in
      let len = length s.slide_window in
      let (items, p) =
        push_items-Pushes source total s.last_packet_seq_num last_size chunk file h.last n
          (s.cur_congestion_window - len) len h.in_file in
      let grown = length-append s.slide_window items in
      (
        record s { slide_window = s.slide_window ++ items },
        rw (h.last_sized, p.pushes),
        record {
          last = h.last;
          last_sized = h.last_sized;
          carries = Carries-append chunk n (n + len) s.slide_window items refl h.carries p.carries;
          in_file = omega (arith, grown, p.in_file);
          sent = h.sent;
          to_send = h.to_send;
          paced = record {
            at_least = h.paced.at_least;
            at_most = h.paced.at_most;
            covered = h.paced.covered;
            near = h.paced.near;
            threshold = h.paced.threshold;
          };
        },
        omega (arith, grown, p.enough),
        refl,
        omega (arith, grown),
      )

-- The flags and counters are free.
pub flags-Holds :
    (total last_size : ℕ) (chunk : ℕ → List ℕ) (s : Sender) (ready punished : Bool)
    → Holds total last_size chunk s
    → Holds total last_size chunk
        (record s { new_data_ready = ready; cur_congestion_window_timeouted = punished })
flags-Holds total last_size chunk s ready punished h = record {
  last = h.last;
  last_sized = h.last_sized;
  carries = h.carries;
  in_file = h.in_file;
  sent = h.sent;
  to_send = h.to_send;
  paced = record {
    at_least = h.paced.at_least;
    at_most = h.paced.at_most;
    covered = h.paced.covered;
    near = h.paced.near;
    threshold = h.paced.threshold;
  };
}

-- The traverse at the end makes a filled sender valid: what waits in the window is noticed.
pub look_for_data-IsValid :
    (total last_size : ℕ) (chunk : ℕ → List ℕ) (s : Sender)
    → Holds total last_size chunk s
    → min s.cur_congestion_window (total - s.slide_window_left_bound_seq_num)
      ≤ length s.slide_window
    → IsValid total last_size chunk (look_for_data s)
      × ((look_for_data s).slide_window ≡ s.slide_window)
      × ((look_for_data s).slide_window_left_bound_seq_num ≡ s.slide_window_left_bound_seq_num)
unfolding look_for_data
look_for_data-IsValid total last_size chunk s h f =
    let punished = s.cur_congestion_window_timeouted in
    elim (Bool-cases s.new_data_ready) [
      | inl already ↦ rw already (
        record {
          holds = flags-Holds total last_size chunk s true punished h;
          filled = f;
          ready = λ _. refl;
        },
        refl,
        refl,
      )
      | inr not_yet ↦ rw not_yet (
        record {
          holds = flags-Holds total last_size chunk s _ punished h;
          filled = f;
          ready = λ pending. pending;
        },
        refl,
        refl,
      )
    ]

module _ (source : FileSource) (total last_size : ℕ) (chunk : ℕ → List ℕ)
    (file : IsFile source total last_size chunk) (s : Sender) (packet : AckPacket)
    (v : IsValid total last_size chunk s)
    (within : packet.cumulative_seq_num
      ≤ s.slide_window_left_bound_seq_num + length s.slide_window) where
  -- An ACK whose cumulative number is not beyond the window of a valid sender is taken without a
  -- fault; the sender stays valid; its left bound moves to the cumulative number if that is ahead,
  -- and stays otherwise; the right end of the window does not move to the left.
  pub ack_arrived_lem :
      (s' : Sender) × (ack_arrived source s packet ≡ ok s')
      × IsValid total last_size chunk s'
      × (s'.slide_window_left_bound_seq_num ≡ (
          if ltb s.slide_window_left_bound_seq_num packet.cumulative_seq_num
          then packet.cumulative_seq_num
          else s.slide_window_left_bound_seq_num))
      × (s.slide_window_left_bound_seq_num + length s.slide_window
          ≤ s'.slide_window_left_bound_seq_num + length s'.slide_window)
  unfolding ack_arrived
  ack_arrived_lem =
      let c = packet.cumulative_seq_num in
      let s₁ = selective s c packet.selective_seq_num in
      let s₂ = fast_retransmit s₁ c in
      let h₂ =
        fast_retransmit-Holds total last_size chunk file.small s₁ c
          (selective-Holds total last_size chunk file.small s c packet.selective_seq_num v.holds) in
      let a = selective-SameSpan s c packet.selective_seq_num in
      let b = fast_retransmit-SameSpan s₁ c in
      let (s₃, cumulates, h₃, left₃, end₃) =
        cumulate_lem source total last_size chunk file s₂ c h₂ (omega (arith, a, b, within)) in
      let d = grow-SameSpan s₃ in
      let (s₅, fills, h₅, filled, left₅, end₅) =
        fill_lem source total last_size chunk file (grow s₃)
          (grow-Holds total last_size chunk file.small s₃ h₃) in
      let (valid, window, left) = look_for_data-IsValid total last_size chunk s₅ h₅ filled in
      (
        look_for_data s₅,
        rw (cumulates, fills),
        valid,
        left ∙ left₅ ∙ d.0 ∙ left₃ ∙ ap (λ (m : ℕ). if ltb m c then c else m) (b.0 ∙ a.0),
        omega (arith, ap length window, left, left₅, end₅, d, end₃, a, b),
      )
