-- ===== src/Sender/Window.antt =====
-- The sender's deque: consecutive numbers, each with its packet's bytes, whatever the states are.
use reliable_packet_transmis.Base.{
  ℕ, zero, suc, ◌+◌, ◌*◌, ◌%◌, ◌^◌, ◌≤◌, ◌<◌, ◌≡◌, refl, ap, ◌∙◌, if◌then◌else◌, List, [], ◌∷◌,
  ◌++◌, some, length, modify, take, arith, ok, Bool-cases, inl, inr, mul32, ◌==◌,
}
use reliable_packet_transmis.Packet.{Timeval, data_packet_data_size}
use reliable_packet_transmis.Sender.{Item, ItemState, FileSource, prepare_items}
use reliable_packet_transmis.Sender.Ack.{ack_item, pop_items}
use reliable_packet_transmis.Sender.Timeout.{expire_items, is_late}

-- An item that holds the bytes of its packet.
pub record IsLoaded (chunk : ℕ → List ℕ) (n : ℕ) (item : Item) : Type 0 where
  pub numbered : item.seq_num ≡ n
  pub sized : item.data_size ≡ length (chunk n)
  pub holds : take item.data_size item.data_bytes ≡ chunk n
  pub in_memory : item.data_size ≤ length item.data_bytes

-- The items are the packets from `n` on.
abbrev pub Carries : (ℕ → List ℕ) → ℕ → List Item → Type 0
Carries chunk n [] = Unit {0}
Carries chunk n (x ∷ xs) = IsLoaded chunk n x × Carries chunk (n + 1) xs

-- The bytes of the packets below `n`.
abbrev pub bytes_below : (ℕ → List ℕ) → ℕ → ℕ
bytes_below chunk zero = 0
bytes_below chunk (suc n) = bytes_below chunk n + length (chunk n)

-- The file as the sender reads it: `total` packets, of which `k` is read as `chunk k`.
pub record IsFile (source : FileSource) (total last_size : ℕ) (chunk : ℕ → List ℕ) : Type 0 where
  pub not_empty : 0 < total
  pub small : total ≤ 2 ^ 30
  pub reads :
      (k : ℕ)
      → k < total
      → source
          (mul32 k data_packet_data_size)
          (if k + 1 == total then last_size else data_packet_data_size)
        ≡ some (chunk k)
  pub chunk_positive : (k : ℕ) → k < total → 0 < length (chunk k)
  pub chunk_fits : (k : ℕ) → length (chunk k) ≤ data_packet_data_size

module _ (chunk : ℕ → List ℕ) where
  -- The state of an item and the time at which it was sent say nothing of what it holds.
  pub relabel :
      {n : ℕ} {x : Item} (state : ItemState) (time : Timeval)
      → IsLoaded chunk n x
      → IsLoaded chunk n (record x { state = state; last_sent_time = time })
  relabel state time l = record {
    numbered = l.numbered;
    sized = l.sized;
    holds = l.holds;
    in_memory = l.in_memory;
  }

  pub length-prepare_items :
      (last : ℕ) (now : Timeval) (slots : ℕ) (xs : List Item)
      → length (prepare_items last now slots xs).1 ≡ length xs
  unfolding prepare_items
  length-prepare_items last now zero xs = refl
  length-prepare_items last now (suc slots) [] = refl
  length-prepare_items last now (suc slots) (x ∷ xs) =
      ground (arith, length-prepare_items last now slots xs)

  pub prepare_items-Carries :
      (n last : ℕ) (now : Timeval) (slots : ℕ) (xs : List Item)
      → Carries chunk n xs
      → Carries chunk n (prepare_items last now slots xs).1
  unfolding prepare_items
  prepare_items-Carries n last now zero xs c = c
  prepare_items-Carries n last now (suc slots) [] c = tt
  prepare_items-Carries n last now (suc slots) (x ∷ xs) c =
      ground (arith, prepare_items-Carries (n + 1) last now slots xs c.1)

  pub length-expire_items :
      (threshold : ℕ) (now : Timeval) (xs : List Item)
      → length (expire_items threshold now xs).0 ≡ length xs
  unfolding expire_items
  length-expire_items threshold now [] = refl
  length-expire_items threshold now (x ∷ xs) = elim (Bool-cases (is_late threshold now x)) [
    | inl late ↦ rw late (ap suc (length-expire_items threshold now xs))
    | inr early ↦ rw early (ap suc (length-expire_items threshold now xs))
  ]

  pub expire_items-Carries :
      (n threshold : ℕ) (now : Timeval) (xs : List Item)
      → Carries chunk n xs
      → Carries chunk n (expire_items threshold now xs).0
  unfolding expire_items
  expire_items-Carries n threshold now [] c = tt
  expire_items-Carries n threshold now (x ∷ xs) c = elim (Bool-cases (is_late threshold now x)) [
    | inl late ↦ rw late (
      relabel ItemState.timeout x.last_sent_time c.0,
      expire_items-Carries (n + 1) threshold now xs c.1,
    )
    | inr early ↦ rw early (c.0, expire_items-Carries (n + 1) threshold now xs c.1)
  ]

  pub length-modify-ack_item : (xs : List Item) (i : ℕ) → length (modify xs i ack_item) ≡ length xs
  length-modify-ack_item [] i = refl
  length-modify-ack_item (x ∷ xs) zero = refl
  length-modify-ack_item (x ∷ xs) (suc i) = ap suc (length-modify-ack_item xs i)

  pub modify-ack_item-Carries :
      (n : ℕ) (xs : List Item) (i : ℕ) → Carries chunk n xs → Carries chunk n (modify xs i ack_item)
  modify-ack_item-Carries n [] i c = tt
  modify-ack_item-Carries n (x ∷ xs) zero c = (relabel ItemState.acked x.last_sent_time c.0, c.1)
  modify-ack_item-Carries n (x ∷ xs) (suc i) c = (c.0, modify-ack_item-Carries (n + 1) xs i c.1)

  pub Carries-append :
      (n k : ℕ) (xs ys : List Item)
      → n + length xs ≡ k
      → Carries chunk n xs
      → Carries chunk k ys
      → Carries chunk n (xs ++ ys)
  Carries-append n k [] ys e cx cy = let e' : n ≡ k = omega arith in rw e' cy
  Carries-append n k (x ∷ xs) ys e cx cy =
      (cx.0, Carries-append (n + 1) k xs ys (omega arith) cx.1 cy)

  pub bytes_below-le :
      (n : ℕ)
      → ((k : ℕ) → length (chunk k) ≤ data_packet_data_size)
      → bytes_below chunk n ≤ data_packet_data_size * n
  bytes_below-le zero h = omega arith
  bytes_below-le (suc n) h = omega (arith, bytes_below-le n h, h n)

  bytes_below-add-one : (n : ℕ) → bytes_below chunk (n + 1) ≡ bytes_below chunk n + length (chunk n)
  bytes_below-add-one n = let e : n + 1 ≡ suc n = omega arith in rw e

  -- Popping as many items as the window holds, or fewer, adds up their packets' bytes.
  pub record Pops (rounds n : ℕ) (xs : List Item) (rest : List Item) : Type 0 where
    pub pops : pop_items rounds xs (bytes_below chunk n) ≡ ok (rest, bytes_below chunk (n + rounds))
    pub carries : Carries chunk (n + rounds) rest
    pub same_end : length rest + rounds ≡ length xs

  pub pop_items-Pops :
      (rounds n : ℕ) (xs : List Item)
      → ((k : ℕ) → length (chunk k) ≤ data_packet_data_size)
      → n + rounds ≤ 2 ^ 30
      → rounds ≤ length xs
      → Carries chunk n xs
      → (rest : List Item) × Pops rounds n xs rest
  unfolding pop_items
  pop_items-Pops zero n xs fits room h c =
      let e : n + 0 ≡ n = omega arith in
      (xs, record { pops = rw e; carries = rw e c; same_end = omega arith })
  pop_items-Pops (suc rounds) n [] fits room h c = absurd (omega arith)
  pop_items-Pops (suc rounds) n (x ∷ xs) fits room h c =
      let (rest, p) = pop_items-Pops rounds (n + 1) xs fits (omega arith) (omega arith) c.1 in
      let e : n + 1 + rounds ≡ n + suc rounds = omega arith in
      let added : (bytes_below chunk n + x.data_size) % 2 ^ 64 ≡ bytes_below chunk (n + 1) =
        omega (arith, bytes_below-le n fits, bytes_below-add-one n, c.0.sized, fits n) in
      (
        rest,
        record {
          pops = rw added (p.pops ∙ ap (λ k. ok (rest, bytes_below chunk k)) e);
          carries = rw e at p.carries;
          same_end = omega (arith, p.same_end);
        },
      )
