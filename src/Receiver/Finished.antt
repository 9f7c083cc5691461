-- ===== src/Receiver/Finished.antt =====
-- `finished` (src/slideWindowReceiver.cpp): what it means, and what the file then holds.
use reliable_packet_transmis.Base.{
  ℕ, ◌+◌, ◌-◌, ◌^◌, ◌≤◌, ◌<◌, ◌≡◌, ◌↔◌, sym, Bool, true, false, ◌&&◌, ltb, List, length, get_elem?,
  ◌*◌, All-map, subst, arith, All, Elem, tests, Bool-cases, inl, inr, ◌∙◌, ◌⊎◌, lt→ltb, le→not_ltb,
  ==→eq, eq→==, ltb→lt,
}
use mathlib.Core.Bool.{false≢true}
use reliable_packet_transmis.Receiver.{Receiver, finished}
use reliable_packet_transmis.Receiver.Window.{item_received, count_received, count_received_none}
use reliable_packet_transmis.Packet.{data_packet_data_size}
use reliable_packet_transmis.Receiver.Invariant.{
  has, chunk_write, IsInPlace, chunk_write-placed, Holds, IsValid, next-le-total,
}
use reliable_packet_transmis.Receiver.Receive.{next-awaited}

and_split : (a b : Bool) → (a && b) ≡ true → (a ≡ true) × (b ≡ true)
and_split a b h = ground arith

module _ (total : ℕ) (chunk : ℕ → List ℕ) where
  -- The items of a full window are all awaited once everything left of it is the whole file.
  none_left :
      (r : Receiver)
      → Holds total chunk r
      → total ≤ r.next_expected_packet_seq_num
      → count_received r.slide_window ≡ 0
  none_left r h e = count_received_none r.slide_window λ i. none i (Bool-cases _)
    where
      n : ℕ
      n = r.next_expected_packet_seq_num

      none :
          (i : ℕ)
          → (item_received (get_elem? r.slide_window i) ≡ true)
            ⊎ (item_received (get_elem? r.slide_window i) ≡ false)
          → item_received (get_elem? r.slide_window i) ≡ false
      none i (inr f) = f
      none i (inl t) =
          let e' : n + i - n ≡ i = omega arith in
          let seen : has r (n + i) ≡ true = rw (le→not_ltb (n + i) n (omega arith), e') t in
          absurd (omega (arith, h.bounded (n + i) seen))

  module _ (room : total + 400 ≤ 2 ^ 32) (r : Receiver) (v : IsValid total chunk r) where
    -- A valid receiver of a file of at most 2 ^ 32 - 400 packets says that it has finished exactly
    -- when it knows the last packet's number and has received every packet of the file.
    pub finished_iff :
        (finished r ≡ true)
        ↔ ((r.last_packet_seq_num_received ≡ true) × ((k : ℕ) → k < total → has r k ≡ true))
    unfolding finished
    finished_iff = (complete, all_received)
      where
        n : ℕ
        n = r.next_expected_packet_seq_num

        complete :
            finished r ≡ true
            → (r.last_packet_seq_num_received ≡ true) × ((k : ℕ) → k < total → has r k ≡ true)
        complete f =
            let (known, at_end) = and_split _ _ f in
            (
              known,
              λ k h. rw (lt→ltb k n (omega (tests, v.holds.last_known known, ==→eq _ _ at_end))),
            )

        all_received :
            (r.last_packet_seq_num_received ≡ true) × ((k : ℕ) → k < total → has r k ≡ true)
            → finished r ≡ true
        all_received (known, all) = elim (Bool-cases (ltb n total)) [
          | inl before ↦
              absurd
                (false≢true (sym (next-awaited total chunk r v) ∙ all n (ltb→lt n total before)))
          | inr behind ↦ rw (known) (
              eq→== _ _ (
                omega
                  (tests, behind, v.holds.last_known known, next-le-total total chunk r v.holds)))
        ]

    -- The writes of a receiver that has finished, at the offsets that the code computes.
    pub finished-chunk_writes :
        finished r ≡ true
        → (length r.writes ≡ total)
          × All (λ w. (k : ℕ) × (k < total) × (w ≡ chunk_write chunk k)) r.writes
          × ((k : ℕ) → k < total → Elem (chunk_write chunk k) r.writes)
    unfolding finished
    finished-chunk_writes f =
        let (known, at_end) = and_split _ _ f in
        let e : r.next_expected_packet_seq_num ≡ total =
          omega (tests, v.holds.last_known known, ==→eq _ _ at_end) in
        (
          omega (arith, v.holds.counted, none_left r v.holds (omega (arith, e))),
          v.holds.honest,
          λ k h. v.holds.stored k ((finished_iff.0 f).1 k h),
        )

  -- When a valid receiver of a file, whose last packet begins below 2 ^ 32 bytes, has finished,
  -- each packet of the file has been written to its place exactly once: there are as many writes
  -- as packets, each writes some packet's bytes at 1450 times its number, and every packet is
  -- among them.
  pub finished-writes :
      (r : Receiver)
      → data_packet_data_size * (total - 1) < 2 ^ 32
      → IsValid total chunk r
      → finished r ≡ true
      → IsInPlace total chunk r.writes
  finished-writes r unwrapped v f =
      let (count, honest, every) = finished-chunk_writes (omega arith) r v f in
      (
        count,
        All-map _ _
            (λ w ((k, in_range, e) : (k : ℕ) × (k < total) × (w ≡ chunk_write chunk k)).
              (k, in_range, e ∙ chunk_write-placed chunk total k unwrapped in_range))
            r.writes honest,
        λ k h.
            subst (λ w. Elem w r.writes) (chunk_write-placed chunk total k unwrapped h) (every k h),
      )
