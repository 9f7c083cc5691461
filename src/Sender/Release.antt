-- ===== src/Sender/Release.antt =====
-- With the checks of _DEBUG, a valid sender of src/slideWindowSender.cpp does what it does without them.
use mathlib.Core.Option.{some-injective, none-ne-some, some-ne-none}
use reliable_packet_transmis.Base.{
  subst, ℕ, zero, suc, ◌+◌, ◌-◌, ◌^◌, ◌≤◌, ◌<◌, ◌≡◌, refl, ap, true, false, ltb, ◌==◌, Bool-cases,
  inl, inr, List, [], ◌∷◌, Option, none, some, ok, length, modify, get_elem?, add32, sub32, arith,
  eq→==,
}
use reliable_packet_transmis.Packet.{AckPacket, Timeval}
use reliable_packet_transmis.Sender.{
  Sender, Item, FileSource, is_pending, prepare_items, prepare_data_packets_to_send,
}
use reliable_packet_transmis.Sender.Ack.{
  ack_item, selective, fast_retransmit, pop_items, cumulate, ack_arrived,
}
use reliable_packet_transmis.Sender.Timeout.{expire_items, check_timeout}
use reliable_packet_transmis.Sender.Window.{IsFile, IsLoaded, Carries}
use reliable_packet_transmis.Sender.Invariant.{
  Holds, IsValid, selective-Holds, fast_retransmit-Holds,
}
use reliable_packet_transmis.Sender.Arrival.{selective-SameSpan, fast_retransmit-SameSpan}
use reliable_packet_transmis.Sender.Debug.{
  ensure_correctness, debug_prepare_items, debug_prepare_data_packets_to_send, debug_expire_items,
  debug_check_timeout, debug_ack_at, debug_selective, debug_pop_items, debug_cumulate,
  debug_ack_arrived,
}

module _ (chunk : ℕ → List ℕ) (left : ℕ) where
  ensure_correctness-loaded :
      (i : ℕ) (item : Item)
      → left + i < 2 ^ 32
      → IsLoaded chunk (left + i) item
      → ensure_correctness left item i ≡ ok tt
  unfolding ensure_correctness
  ensure_correctness-loaded i item h l = rw (eq→== (add32 left i) item.seq_num same) refl
    where
      same : add32 left i ≡ item.seq_num
      same = omega (arith, l.numbered)

  debug_prepare_items_lem :
      (last : ℕ) (now : Timeval) (i slots : ℕ) (items : List Item)
      → left + i + length items ≤ 2 ^ 32
      → Carries chunk (left + i) items
      → debug_prepare_items left i last now slots items ≡ ok (prepare_items last now slots items)
  unfolding debug_prepare_items prepare_items
  debug_prepare_items_lem last now i zero items h c = refl
  debug_prepare_items_lem last now i (suc slots) [] h c = refl
  debug_prepare_items_lem last now i (suc slots) (x ∷ xs) h c =
      let next : left + i + 1 ≡ left + (i + 1) = omega arith in
      let rest : Carries chunk (left + (i + 1)) xs = rw next at c.1 in
      let ih = debug_prepare_items_lem last now (i + 1) slots xs (omega arith) rest in
      elim (Bool-cases (is_pending x.state)) [
        | inl waits ↦ rw (waits, ensure_correctness-loaded i x (omega arith) c.0, ih) refl
        | inr other ↦ rw (other, ih) refl
      ]

  debug_expire_items_lem :
      (threshold : ℕ) (now : Timeval) (i : ℕ) (items : List Item)
      → left + i + length items ≤ 2 ^ 32
      → Carries chunk (left + i) items
      → debug_expire_items left i threshold now items ≡ ok (expire_items threshold now items)
  unfolding debug_expire_items expire_items
  debug_expire_items_lem threshold now i [] h c = refl
  debug_expire_items_lem threshold now i (x ∷ xs) h c =
      let next : left + i + 1 ≡ left + (i + 1) = omega arith in
      let rest : Carries chunk (left + (i + 1)) xs = rw next at c.1 in
      rw
        (
          ensure_correctness-loaded i x (omega arith) c.0,
          debug_expire_items_lem threshold now (i + 1) xs (omega arith) rest,
        )
        refl

  debug_pop_items_lem :
      (i rounds : ℕ) (items : List Item) (sent : ℕ)
      → left + i + length items ≤ 2 ^ 32
      → Carries chunk (left + i) items
      → debug_pop_items left i rounds items sent ≡ pop_items rounds items sent
  unfolding debug_pop_items pop_items
  debug_pop_items_lem i zero items sent h c = refl
  debug_pop_items_lem i (suc rounds) [] sent h c = refl
  debug_pop_items_lem i (suc rounds) (x ∷ xs) sent h c =
      let next : left + i + 1 ≡ left + (i + 1) = omega arith in
      let rest : Carries chunk (left + (i + 1)) xs = rw next at c.1 in
      rw (ensure_correctness-loaded i x (omega arith) c.0)
        (debug_pop_items_lem (i + 1) rounds xs _ (omega arith) rest)

-- An item of the window has the number of its place.
IsLoaded-at :
    (chunk : ℕ → List ℕ) (n i : ℕ) (items : List Item) (item : Item)
    → Carries chunk n items
    → get_elem? items i ≡ some item
    → IsLoaded chunk (n + i) item × (i < length items)
IsLoaded-at chunk n i [] item c e = absurd (none-ne-some item e)
IsLoaded-at chunk n zero (x ∷ xs) item c e =
    let start : n ≡ n + 0 = omega arith in
    (
      subst (λ k. IsLoaded chunk k item) start
          (subst (IsLoaded chunk n) (some-injective x item e) c.0),
      omega arith,
    )
IsLoaded-at chunk n (suc i) (x ∷ xs) item c e =
    let (l, h) = IsLoaded-at chunk (n + 1) i xs item c.1 e in
    let next : n + 1 + i ≡ n + suc i = omega arith in
    (subst (λ k. IsLoaded chunk k item) next l, omega arith)

modify-none :
    (items : List Item) (i : ℕ) → get_elem? items i ≡ none → modify items i ack_item ≡ items
modify-none [] i e = refl
modify-none (x ∷ xs) zero e = absurd (some-ne-none x e)
modify-none (x ∷ xs) (suc i) e = ap (λ (ys : List Item). x ∷ ys) (modify-none xs i e)

module _ (total last_size : ℕ) (chunk : ℕ → List ℕ) (small : total ≤ 2 ^ 30) (s : Sender)
    (h : Holds total last_size chunk s) where
  debug_ack_at_lem :
      (i : ℕ) (found : Option Item)
      → get_elem? s.slide_window i ≡ found
      → debug_ack_at s i found ≡ ok (record s { slide_window = modify s.slide_window i ack_item })
  unfolding debug_ack_at
  debug_ack_at_lem i none e = rw (modify-none s.slide_window i e) refl
  debug_ack_at_lem i (some item) e =
      let (l, inside) =
        IsLoaded-at chunk s.slide_window_left_bound_seq_num i s.slide_window item h.carries e in
      rw
        (ensure_correctness-loaded chunk s.slide_window_left_bound_seq_num i item
          (omega (arith, h.in_file, small, inside)) l)
        refl

  debug_selective_lem :
      (cumulative seq : ℕ) → debug_selective s cumulative seq ≡ ok (selective s cumulative seq)
  unfolding debug_selective selective
  debug_selective_lem cumulative seq = elim (Bool-cases (cumulative == seq)) [
    | inl equal ↦ rw equal refl
    | inr differ ↦ elim (Bool-cases (ltb seq s.slide_window_left_bound_seq_num)) [
      | inl left ↦ rw (differ, left) refl
      | inr right ↦
          rw (differ, right) (debug_ack_at_lem (sub32 seq s.slide_window_left_bound_seq_num) _ refl)
    ]
  ]

  debug_cumulate_lem :
      (c : ℕ)
      → c ≤ s.slide_window_left_bound_seq_num + length s.slide_window
      → debug_cumulate s c ≡ cumulate s c
  unfolding debug_cumulate cumulate
  debug_cumulate_lem c within =
      let n = s.slide_window_left_bound_seq_num in
      elim (Bool-cases (ltb n c)) [
        | inr behind ↦ rw behind refl
        | inl ahead ↦
            let start : n + 0 ≡ n = omega arith in
            let enough : ltb (length s.slide_window) (sub32 c n) ≡ false =
              no_overrun n c (length s.slide_window) ahead within
                (omega (arith, h.in_file, small)) in
            rw
              (
                ahead,
                enough,
                debug_pop_items_lem chunk n 0 (c - n) s.slide_window s.bytes_sent
                    (omega (arith, h.in_file, small)) (rw start h.carries),
              )
              refl
      ]
    where
      no_overrun :
          (n c l : ℕ) → ltb n c ≡ true → c ≤ n + l → n + l ≤ 2 ^ 30 → ltb l (sub32 c n) ≡ false
      no_overrun n c l ahead within small = ground arith

module _ (source : FileSource) (total last_size : ℕ) (chunk : ℕ → List ℕ)
    (file : IsFile source total last_size chunk) (s : Sender)
    (v : IsValid total last_size chunk s) where
  -- For a valid sender, and an ACK whose cumulative number is not beyond its window, the checks of
  -- _DEBUG never fail: `prepareDataPacketsToSend`, `checkTimeout` and `ackArrived` return what
  -- they return without them.
  pub debug-release :
      (now : Timeval) (threshold_us : ℕ) (packet : AckPacket)
      → packet.cumulative_seq_num ≤ s.slide_window_left_bound_seq_num + length s.slide_window
      → (debug_prepare_data_packets_to_send s now ≡ ok (prepare_data_packets_to_send s now))
        × (debug_check_timeout s threshold_us now ≡ ok (check_timeout s threshold_us now))
        × (debug_ack_arrived source s packet ≡ ack_arrived source s packet)
  unfolding debug_prepare_data_packets_to_send prepare_data_packets_to_send debug_check_timeout
      check_timeout debug_ack_arrived ack_arrived
  debug-release now threshold_us packet within =
      let n = s.slide_window_left_bound_seq_num in
      let c = packet.cumulative_seq_num in
      let start : n + 0 ≡ n = omega arith in
      let carries : Carries chunk (n + 0) s.slide_window = rw start v.holds.carries in
      let room : n + 0 + length s.slide_window ≤ 2 ^ 32 =
        omega (arith, v.holds.in_file, file.small) in
      let s₁ = selective s c packet.selective_seq_num in
      let s₂ = fast_retransmit s₁ c in
      let h₁ =
        selective-Holds total last_size chunk file.small s c packet.selective_seq_num v.holds in
      let h₂ = fast_retransmit-Holds total last_size chunk file.small s₁ c h₁ in
      let span₁ = selective-SameSpan s c packet.selective_seq_num in
      let span₂ = fast_retransmit-SameSpan s₁ c in
      (
        rw
            (debug_prepare_items_lem chunk n s.last_packet_seq_num now 0 s.cur_congestion_window
              s.slide_window room carries)
            refl,
        rw (debug_expire_items_lem chunk n threshold_us now 0 s.slide_window room carries) refl,
        rw
            (
              debug_selective_lem total last_size chunk file.small s v.holds c
                  packet.selective_seq_num,
              debug_cumulate_lem total last_size chunk file.small s₂ h₂ c
                  (omega (arith, within, span₁, span₂)),
            )
            refl,
      )
