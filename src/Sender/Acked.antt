-- ===== src/Sender/Acked.antt =====
-- Which items of the sender's window are marked as acknowledged (src/slideWindowSender.cpp): those that
-- were, and the one that an ACK names.
use reliable_packet_transmis.Base.{
  ℕ, zero, suc, ◌+◌, ◌-◌, ◌^◌, ◌<◌, ◌≡◌, ◌≢◌, refl, sym, ◌∙◌, subst, Bool, true, false, not, ltb,
  ◌==◌, if◌then◌else◌, Bool-cases, inl, inr, List, [], ◌∷◌, Option, some, none, OnOk, >>=-OnOk,
  modify, arith, tests, All, All-append, sub32, add32,
}
use reliable_packet_transmis.Packet.{AckPacket, Timeval}
use reliable_packet_transmis.Sender.{
  init, Sender, Item, ItemState, FileSource, after_sending, is_pending, is_sent, prepare_items,
  push_items, new_item, load, look_for_data,
}
use reliable_packet_transmis.Sender.Ack.{
  ack_item, selective, punish, resend_head, resend_first, count_duplicate, fast_retransmit,
  pop_items, advance, cumulate, grow, fill, ack_arrived,
}
use reliable_packet_transmis.Sender.Timeout.{expire_items, is_late, punish_timeout, check_timeout}
use reliable_packet_transmis.Sender.Window.{Carries}

-- `P` holds of the number of each item that is marked as acknowledged.
abbrev pub AckedOnly : (ℕ → Type 0) → List Item → Type 0
AckedOnly P = All (λ (x : Item). x.state ≡ ItemState.acked → P x.seq_num)

after_sending_open : (state : ItemState) → after_sending state ≢ ItemState.acked
after_sending_open ItemState.not_sent e = absurd cc
after_sending_open ItemState.sent e = absurd cc
after_sending_open ItemState.timeout e = absurd cc
after_sending_open ItemState.resent e = absurd cc
after_sending_open ItemState.acked e = absurd cc

timeout_open : ItemState.timeout ≢ ItemState.acked
timeout_open e = absurd cc

not_sent_open : ItemState.not_sent ≢ ItemState.acked
not_sent_open e = absurd cc

module _ (P : ℕ → Type 0) where
  pub prepare_items-AckedOnly :
      (last : ℕ) (now : Timeval) (slots : ℕ) (xs : List Item)
      → AckedOnly P xs
      → AckedOnly P (prepare_items last now slots xs).1
  unfolding prepare_items
  prepare_items-AckedOnly last now zero xs a = a
  prepare_items-AckedOnly last now (suc slots) [] a = tt
  prepare_items-AckedOnly last now (suc slots) (x ∷ xs) a =
      let ih = prepare_items-AckedOnly last now slots xs a.1 in
      elim (Bool-cases (is_pending x.state)) [
        | inl waits ↦ rw waits ((λ e. absurd (after_sending_open x.state e)), ih)
        | inr other ↦ rw other (a.0, ih)
      ]

  pub expire_items-AckedOnly :
      (threshold : ℕ) (now : Timeval) (xs : List Item)
      → AckedOnly P xs
      → AckedOnly P (expire_items threshold now xs).0
  unfolding expire_items
  expire_items-AckedOnly threshold now [] a = tt
  expire_items-AckedOnly threshold now (x ∷ xs) a =
      let ih = expire_items-AckedOnly threshold now xs a.1 in
      elim (Bool-cases (is_late threshold now x)) [
        | inl late ↦ rw late ((λ e. absurd (timeout_open e)), ih)
        | inr early ↦ rw early (a.0, ih)
      ]

  modify-AckedOnly :
      (chunk : ℕ → List ℕ) (n i : ℕ) (xs : List Item)
      → Carries chunk n xs
      → AckedOnly P xs
      → P (n + i)
      → AckedOnly P (modify xs i ack_item)
  modify-AckedOnly chunk n i [] c a p = tt
  modify-AckedOnly chunk n zero (x ∷ xs) c a p =
      let e : n + 0 ≡ x.seq_num = omega (arith, c.0.numbered) in ((λ _. subst P e p), a.1)
  modify-AckedOnly chunk n (suc i) (x ∷ xs) c a p =
      let e : n + suc i ≡ n + 1 + i = omega arith in
      (a.0, modify-AckedOnly chunk (n + 1) i xs c.1 a.1 (subst P e p))

  selective-AckedOnly :
      (chunk : ℕ → List ℕ) (s : Sender) (c k : ℕ)
      → Carries chunk s.slide_window_left_bound_seq_num s.slide_window
      → k < 2 ^ 32
      → AckedOnly P s.slide_window
      → (c ≢ k → P k)
      → AckedOnly P (selective s c k).slide_window
  unfolding selective
  selective-AckedOnly chunk s c k carries fits a p = elim (Bool-cases (c == k)) [
    | inl same ↦ rw same a
    | inr other ↦ elim (Bool-cases (ltb k s.slide_window_left_bound_seq_num)) [
      | inl left ↦ rw (other, left) a
      | inr inside ↦
          let n = s.slide_window_left_bound_seq_num in
          let e : k ≡ n + sub32 k n = omega (tests, inside) in
          rw (other, inside)
            (modify-AckedOnly chunk n (sub32 k n) s.slide_window carries a
              (subst P e (p (λ q. absurd (omega (tests, other, q))))))
    ]
  ]

  resend_head-AckedOnly :
      (s : Sender) (items : List Item)
      → s.slide_window ≡ items
      → AckedOnly P s.slide_window
      → AckedOnly P (resend_head s items).slide_window
  unfolding resend_head
  resend_head-AckedOnly s [] e a = a
  resend_head-AckedOnly s (x ∷ xs) e a =
      let a' = subst (AckedOnly P) e a in
      elim (Bool-cases (is_sent x.state)) [
        | inl sent ↦ rw sent ((λ e. absurd (timeout_open e)), a'.1)
        | inr other ↦ rw other a
      ]

  pop_items-AckedOnly :
      (rounds : ℕ) (xs : List Item) (sent : ℕ)
      → AckedOnly P xs
      → OnOk (λ (o : List Item × ℕ). AckedOnly P o.0) (pop_items rounds xs sent)
  unfolding pop_items
  pop_items-AckedOnly zero xs sent a = a
  pop_items-AckedOnly (suc rounds) [] sent a = tt
  pop_items-AckedOnly (suc rounds) (x ∷ xs) sent a = pop_items-AckedOnly rounds xs _ a.1

  punish-window : (s : Sender) → (punish s).slide_window ≡ s.slide_window
  unfolding punish
  punish-window s = ground arith

  grow-window : (s : Sender) → (grow s).slide_window ≡ s.slide_window
  unfolding grow
  grow-window s = ground arith

  look_for_data-window : (s : Sender) → (look_for_data s).slide_window ≡ s.slide_window
  unfolding look_for_data
  look_for_data-window s = ground arith

  punish_timeout-window :
      (late : Bool) (s : Sender) → (punish_timeout late s).slide_window ≡ s.slide_window
  unfolding punish_timeout
  punish_timeout-window late s = ground arith

  count_duplicate-AckedOnly :
      (s : Sender) → AckedOnly P s.slide_window → AckedOnly P (count_duplicate s).slide_window
  unfolding count_duplicate resend_first
  count_duplicate-AckedOnly s a =
      let s' : Sender = record s { last_ack_acked_count = s.last_ack_acked_count + 1 } in
      let a' : AckedOnly P (punish s').slide_window =
        subst (AckedOnly P) (sym (punish-window s')) a in
      elim (Bool-cases (s.last_ack_acked_count + 1 == 2)) [
        | inl second ↦
            rw second (resend_head-AckedOnly (punish s') (punish s').slide_window refl a')
        | inr other ↦ rw other a
      ]

  if-AckedOnly :
      (b : Bool) (s t : Sender)
      → AckedOnly P s.slide_window
      → AckedOnly P t.slide_window
      → AckedOnly P (if b then s else t).slide_window
  if-AckedOnly true s t a a' = a
  if-AckedOnly false s t a a' = a'

  fast_retransmit-AckedOnly :
      (s : Sender) (c : ℕ)
      → AckedOnly P s.slide_window
      → AckedOnly P (fast_retransmit s c).slide_window
  unfolding fast_retransmit
  fast_retransmit-AckedOnly s c a = if-AckedOnly (not s.fast_retransmission) s _ a (
      if-AckedOnly (s.last_ack == c) (count_duplicate s) _ (count_duplicate-AckedOnly s a) (
        if-AckedOnly (ltb s.last_ack c) (record s { last_ack = c; last_ack_acked_count = 0 }) s a
          a))

  cumulate-AckedOnly :
      (s : Sender) (c : ℕ)
      → AckedOnly P s.slide_window
      → OnOk (λ (s' : Sender). AckedOnly P s'.slide_window) (cumulate s c)
  unfolding cumulate advance
  cumulate-AckedOnly s c a = elim (Bool-cases (ltb s.slide_window_left_bound_seq_num c)) [
    | inl ahead ↦ rw ahead (
        >>=-OnOk (λ (o : List Item × ℕ). AckedOnly P o.0)
          (λ (s' : Sender). AckedOnly P s'.slide_window) _ _
          (pop_items-AckedOnly (c - s.slide_window_left_bound_seq_num) s.slide_window s.bytes_sent
            a)
          (λ o rest. rest))
    | inr behind ↦ rw behind a
  ]

  load-AckedOnly :
      (seq : ℕ) (bytes : Option (List ℕ))
      → OnOk (λ (x : Item). x.state ≡ ItemState.acked → P x.seq_num) (load seq bytes)
  unfolding load
  load-AckedOnly seq none = tt
  load-AckedOnly seq (some bytes) = λ e. absurd (not_sent_open e)

  new_item-AckedOnly :
      (source : FileSource) (last last_size seq : ℕ)
      → OnOk
          (λ (x : Item). x.state ≡ ItemState.acked → P x.seq_num)
          (new_item source last last_size seq)
  unfolding new_item
  new_item-AckedOnly source last last_size seq = load-AckedOnly seq _

  push_items-AckedOnly :
      (source : FileSource) (last last_size left rounds i : ℕ)
      → OnOk (AckedOnly P) (push_items source last last_size left rounds i)
  unfolding push_items
  push_items-AckedOnly source last last_size left zero i = tt
  push_items-AckedOnly source last last_size left (suc rounds) i =
      elim (Bool-cases (ltb last (add32 left i))) [
        | inl over ↦ rw over tt
        | inr more ↦ rw more (
            >>=-OnOk (λ (x : Item). x.state ≡ ItemState.acked → P x.seq_num) (AckedOnly P) _ _
              (new_item-AckedOnly source last last_size (add32 left i))
              (λ x open_item.
                >>=-OnOk (AckedOnly P) (AckedOnly P) _ _
                  (push_items-AckedOnly source last last_size left rounds (i + 1))
                  (λ xs rest. (open_item, rest))))
      ]

  fill-AckedOnly :
      (source : FileSource) (s : Sender)
      → AckedOnly P s.slide_window
      → OnOk (λ (s' : Sender). AckedOnly P s'.slide_window) (fill source s)
  unfolding fill
  fill-AckedOnly source s a =
      >>=-OnOk (AckedOnly P) (λ (s' : Sender). AckedOnly P s'.slide_window) _ _
        (push_items-AckedOnly source _ _ _ _ _)
        (λ items fresh. All-append _ s.slide_window items a fresh)

  -- After an ACK, only those items are marked as acknowledged that were before, or that it names.
  pub ack_arrived-AckedOnly :
      (source : FileSource) (chunk : ℕ → List ℕ) (s : Sender) (packet : AckPacket)
      → Carries chunk s.slide_window_left_bound_seq_num s.slide_window
      → packet.selective_seq_num < 2 ^ 32
      → AckedOnly P s.slide_window
      → (packet.cumulative_seq_num ≢ packet.selective_seq_num → P packet.selective_seq_num)
      → OnOk (λ (s' : Sender). AckedOnly P s'.slide_window) (ack_arrived source s packet)
  unfolding ack_arrived
  ack_arrived-AckedOnly source chunk s packet carries fits a p =
      let c = packet.cumulative_seq_num in
      let s₁ = selective s c packet.selective_seq_num in
      let a₁ = selective-AckedOnly chunk s c packet.selective_seq_num carries fits a p in
      let a₂ = fast_retransmit-AckedOnly s₁ c a₁ in
      >>=-OnOk (λ (s' : Sender). AckedOnly P s'.slide_window)
        (λ (s' : Sender). AckedOnly P s'.slide_window) _ _
        (cumulate-AckedOnly (fast_retransmit s₁ c) c a₂)
        (λ s₃ a₃.
          >>=-OnOk (λ (s' : Sender). AckedOnly P s'.slide_window)
            (λ (s' : Sender). AckedOnly P s'.slide_window) _ _
            (fill-AckedOnly source (grow s₃) (subst (AckedOnly P) (sym (grow-window s₃)) a₃))
            (λ s₅ a₅. subst (AckedOnly P) (sym (look_for_data-window s₅)) a₅))

  pub check_timeout-AckedOnly :
      (s : Sender) (threshold : ℕ) (now : Timeval)
      → AckedOnly P s.slide_window
      → AckedOnly P (check_timeout s threshold now).slide_window
  unfolding check_timeout
  check_timeout-AckedOnly s threshold now a =
      let out = expire_items threshold now s.slide_window in
      let s₁ : Sender = record s { slide_window = out.0 } in
      subst (AckedOnly P)
        (sym (look_for_data-window (punish_timeout out.1 s₁) ∙ punish_timeout-window out.1 s₁))
        (expire_items-AckedOnly threshold now s.slide_window a)

  -- A new sender has no item that is marked as acknowledged.
  pub init-AckedOnly :
      (source : FileSource) (bytes : ℕ) (fast : Bool)
      → OnOk (λ (s : Sender). AckedOnly P s.slide_window) (init source bytes fast)
  unfolding init
  init-AckedOnly source bytes fast =
      >>=-OnOk (AckedOnly P) (λ (s : Sender). AckedOnly P s.slide_window) _ _
        (push_items-AckedOnly source _ _ _ _ _) (λ items fresh. fresh)
