-- ===== src/Receiver/Store.antt =====
-- The packet that lies within the buffer: `slideWindow[i]` is there, and its bytes go to the file
-- if they are new (src/slideWindowReceiver.cpp, receiveDataPacket).
use reliable_packet_transmis.Base.{
  ℕ, ◌+◌, ◌-◌, ◌^◌, ◌≤◌, ◌<◌, ◌≡◌, refl, ap, sym, Bool, true, false, ◌||◌, ◌==◌, List, ◌∷◌, some,
  length, get_elem?, set, mul32, sub32, arith, ok, Bool-cases, inl, inr, ◌∙◌, ◌⊎◌, le→not_ltb,
  get_elem?-some, length-set,
}
use reliable_packet_transmis.Packet.{DataPacket, data_packet_data_size}
use reliable_packet_transmis.Receiver.{
  Receiver, Item, ItemState, FileWrite, is_received, store, store_item, within, packet_bytes,
}
use reliable_packet_transmis.Receiver.Window.{
  Consecutive-get, Consecutive-set, has_in-set, count_received-set,
}
use reliable_packet_transmis.Receiver.Invariant.{
  has, chunk_write, IsPacketOf, Holds, IsValid, next-le-total,
}

or_absorb : (b : Bool) (k s : ℕ) → (k ≡ s → b ≡ true) → b ≡ (b || k == s)
or_absorb b k s h = ground arith

or_cases : (b : Bool) (k s : ℕ) → (b || k == s) ≡ true → (b ≡ true) ⊎ (k ≡ s)
or_cases b k s h = ground arith

module _ (total : ℕ) (chunk : ℕ → List ℕ) (room : total + 400 ≤ 2 ^ 32) (r : Receiver)
    (packet : DataPacket) (p : IsPacketOf total chunk packet) (v : IsValid total chunk r)
    (noted : packet.seq_num + 1 ≡ total → r.last_packet_seq_num_received ≡ true) where
  open r use {next_expected_packet_seq_num as n, slide_window as items}
  open packet use {seq_num}

  pub within_bounds : within r seq_num ≡ true → (n ≤ seq_num) × (seq_num < n + 200)
  within_bounds w = ground (arith, next-le-total total chunk r v.holds, v.holds.sized)

  -- What storing a packet within the buffer comes to.
  pub record Stored (r' : Receiver) : Type 0 where
    pub stores : store r packet ≡ ok r'
    pub holds : Holds total chunk r'
    pub gains : (k : ℕ) → has r' k ≡ (has r k || k == seq_num)
    pub same_last : r'.last_packet_seq_num_received ≡ r.last_packet_seq_num_received

  module _ (w : within r seq_num ≡ true) (x : Item)
      (e : get_elem? items (seq_num - n) ≡ some x) where
    index : sub32 seq_num n ≡ seq_num - n
    index = omega (arith, within_bounds w, p.in_range)

    at_item : store r packet ≡ store_item r (seq_num - n) packet (some x)
    unfolding store
    at_item = rw (index, e)

    item_seq_num : x.seq_num ≡ seq_num
    item_seq_num =
        omega (arith, Consecutive-get n (seq_num - n) items v.holds.consecutive e, within_bounds w)

    -- A packet that has been received before changes nothing.
    store_old : is_received x.state ≡ true → Stored r
    unfolding store_item
    store_old old = record {
      stores = at_item ∙ rw (store_item, old);
      holds = v.holds;
      gains = λ k. or_absorb (has r k) k seq_num (λ q. rw q seen);
      same_last = refl;
    }
      where
        seen : has r seq_num ≡ true
        seen = rw (le→not_ltb seq_num n (within_bounds w).0, e) old

    abbrev stored_item : Item
    stored_item = record x { state = ItemState.received }

    abbrev after : Receiver
    after = record r {
      slide_window = set items (seq_num - n) stored_item;
      writes =
          record { offset = mul32 x.seq_num data_packet_data_size; bytes = packet_bytes packet }
          ∷ r.writes;
    }

    in_items : seq_num - n < length items
    in_items = omega (arith, within_bounds w, v.filled)

    written :
        ◌≡◌ {A = FileWrite}
          (record { offset = mul32 x.seq_num data_packet_data_size; bytes = packet_bytes packet })
          (chunk_write chunk seq_num)
    written =
        λ i. record { offset = mul32 (item_seq_num i) data_packet_data_size; bytes = p.bytes_of i }

    after_gains : (k : ℕ) → has after k ≡ (has r k || k == seq_num)
    after_gains k =
        let e' : n + (seq_num - n) ≡ seq_num = omega (arith, within_bounds w) in
        has_in-set n (seq_num - n) k items stored_item in_items refl
        ∙ ap (λ m. has r k || k == m) e'

    after_split : (k : ℕ) → has after k ≡ true → (has r k ≡ true) ⊎ (k ≡ seq_num)
    after_split k h = or_cases (has r k) k seq_num (sym (after_gains k) ∙ h)

    -- A new packet is marked as received, and its bytes are written.
    store_new : is_received x.state ≡ false → Stored after
    unfolding store_item
    store_new new = record {
      stores = at_item ∙ rw (store_item, new);
      holds = record {
        sized = v.holds.sized;
        short = omega (arith, length-set items (seq_num - n) stored_item, v.holds.short);
        consecutive =
            Consecutive-set n (seq_num - n) items stored_item v.holds.consecutive
              (omega (arith, item_seq_num, within_bounds w));
        bounded = λ k h. elim (after_split k h) [
          | inl old ↦ v.holds.bounded k old
          | inr new ↦ rw new p.in_range
        ];
        stored = λ k h. elim (after_split k h) [
          | inl old ↦ inr (v.holds.stored k old)
          | inr new ↦ inl (ap (chunk_write chunk) new ∙ sym written)
        ];
        honest = ((seq_num, p.in_range, written), v.holds.honest);
        counted = omega (
          arith,
          v.holds.counted,
          count_received-set (seq_num - n) items x stored_item e new refl,
        );
        last_known = v.holds.last_known;
        last_heard = λ k e' h. elim (after_split k h) [
          | inl old ↦ v.holds.last_heard k e' old
          | inr new ↦ noted (rw new at e')
        ];
      };
      gains = after_gains;
      same_last = refl;
    }

  -- Storing a packet within the buffer succeeds, and adds it to what has been received.
  pub store_lem : within r seq_num ≡ true → (r' : Receiver) × Stored r'
  store_lem w =
      let (x, e) = get_elem?-some items (seq_num - n) (omega (arith, within_bounds w, v.filled)) in
      elim (Bool-cases (is_received x.state)) [
        | inl old ↦ (r, store_old w x e old)
        | inr new ↦ (after w x e, store_new w x e new)
      ]
