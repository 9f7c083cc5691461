-- ===== src/Sender/Progress.antt =====
-- The sender of src/slideWindowSender.cpp does not stop before it has finished: the packet that is awaited
-- is sent again.
use mathlib.Core.Bool.{false≢true}
use reliable_packet_transmis.Base.{
  ℕ, zero, suc, ◌<◌, ◌≡◌, refl, sym, ap, ◌∙◌, inl, inr, Bool, true, false, not, ◌&&◌, ◌||◌,
  Bool-cases, subst, List, [], ◌∷◌, some, get_elem?, map, arith, Elem,
}
use mathlib.Core.Option.{some-injective, none-ne-some}
use reliable_packet_transmis.Packet.{DataPacket, Timeval}
use reliable_packet_transmis.Packet.Words.{FitsTimeval}
use reliable_packet_transmis.Sender.{
  Sender, Item, FileSource, finished, has_data_to_send, has_pending, is_pending,
  prepare_data_packets_to_send,
}
use reliable_packet_transmis.Sender.Timeout.{is_late, check_timeout}
use reliable_packet_transmis.Sender.Window.{IsFile, Carries}
use reliable_packet_transmis.Sender.Invariant.{IsValid}
use reliable_packet_transmis.Sender.Sending.{pending_seqs, prepare_data_packets_to_send_lem}
use reliable_packet_transmis.Sender.Expiry.{expired, check_timeout_lem}
use reliable_packet_transmis.Sender.Start.{finished_iff_acked}

head-pending :
    (threshold : ℕ) (now : Timeval) (x : Item)
    → (is_pending x.state || is_late threshold now x) ≡ true
    → (is_pending (expired threshold now x).state ≡ true)
      × ((expired threshold now x).seq_num ≡ x.seq_num)
unfolding expired
head-pending threshold now x h = elim (Bool-cases (is_late threshold now x)) [
  | inl late ↦ rw late (refl, refl)
  | inr early ↦ rw early (or_left _ _ early h, refl)
]
  where
    or_left : (a b : Bool) → b ≡ false → (a || b) ≡ true → a ≡ true
    or_left a b e h = ground arith

-- The first item of the window waits and is within the congestion window.
pub first_sent :
    (slots : ℕ) (x : Item) (xs : List Item)
    → 0 < slots
    → is_pending x.state ≡ true
    → (has_pending slots (x ∷ xs) ≡ true) × Elem x.seq_num (pending_seqs slots (x ∷ xs))
unfolding has_pending pending_seqs
first_sent zero x xs h p = absurd (omega arith)
first_sent (suc slots) x xs h p = rw p (refl, inl refl)

module _ (source : FileSource) (total last_size : ℕ) (chunk : ℕ → List ℕ)
    (file : IsFile source total last_size chunk) (s : Sender)
    (v : IsValid total last_size chunk s) where
  -- If a valid sender has not finished and the first item of its window waits to be sent or has
  -- been under way for longer than the threshold, then after a check for timeouts it has data to
  -- send, and the next round of sending, at a time that fits a `timeval`, sends the packet whose
  -- number is the left bound of the window.
  pub awaited_packet-resent :
      (threshold_us : ℕ) (now later : Timeval) (x : Item)
      → FitsTimeval later
      → finished s ≡ false
      → get_elem? s.slide_window 0 ≡ some x
      → (is_pending x.state || is_late threshold_us now x) ≡ true
      → let s' = check_timeout s threshold_us now in
        (has_data_to_send s' ≡ true)
        × Elem s.slide_window_left_bound_seq_num
            (map (λ (p : DataPacket). p.seq_num) (prepare_data_packets_to_send s' later).1)
  unfolding has_data_to_send
  awaited_packet-resent threshold_us now later x fits going first waits =
      by_window s.slide_window refl
    where
      s' : Sender
      s' = check_timeout s threshold_us now

      goal : Type 0
      goal =
          ((not (finished s') && s'.new_data_ready) ≡ true)
          × Elem s.slide_window_left_bound_seq_num
              (map (λ (p : DataPacket). p.seq_num) (prepare_data_packets_to_send s' later).1)

      still_going :
          IsValid total last_size chunk s'
          → s'.slide_window_left_bound_seq_num ≡ s.slide_window_left_bound_seq_num
          → finished s' ≡ false
      still_going valid left = elim (Bool-cases (finished s')) [
        | inl f ↦ absurd (
            false≢true (
              sym going
              ∙ (finished_iff_acked source total last_size chunk file s v).1
                  (sym left ∙ (finished_iff_acked source total last_size chunk file s' valid).0 f)))
        | inr u ↦ u
      ]

      busy : (a b : Bool) → a ≡ false → b ≡ true → (not a && b) ≡ true
      busy a b ea eb = ground arith

      by_window : (items : List Item) → s.slide_window ≡ items → goal
      by_window [] e = absurd (none-ne-some x (sym (ap (λ w. get_elem? w 0) e) ∙ first))
      by_window (y ∷ ys) e =
          let n = s.slide_window_left_bound_seq_num in
          let x' = expired threshold_us now x in
          let rest = map (expired threshold_us now) ys in
          let same : y ≡ x = some-injective _ _ (sym (ap (λ w. get_elem? w 0) e) ∙ first) in
          let (valid, left, items, _) =
            check_timeout_lem total last_size chunk file.small s threshold_us now v in
          let (pending, seq) = head-pending threshold_us now x waits in
          let items' : s'.slide_window ≡ x' ∷ rest =
            items
            ∙ ap (map (expired threshold_us now)) e
            ∙ ap (λ z. expired threshold_us now z ∷ rest) same in
          let (waiting, named) =
            first_sent s'.cur_congestion_window x' rest (omega (arith, valid.holds.paced.at_least))
              pending in
          let ready : s'.new_data_ready ≡ true =
            valid.ready (ap (has_pending s'.cur_congestion_window) items' ∙ waiting) in
          let numbered : x.seq_num ≡ n =
            sym (ap (λ z. z.seq_num) same)
            ∙ (subst (λ w. Carries chunk n w) e v.holds.carries).0.numbered in
          let (_, _, _, _, seqs, _) =
            prepare_data_packets_to_send_lem source total last_size chunk file s' later fits
              valid in
          (
            busy (finished s') s'.new_data_ready (still_going valid left) ready,
            subst (Elem n) (sym (seqs ∙ ap (pending_seqs s'.cur_congestion_window) items')) (
                subst (λ k. Elem k (pending_seqs s'.cur_congestion_window (x' ∷ rest)))
                  (seq ∙ numbered) named),
          )
