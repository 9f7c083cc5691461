-- ===== src/Sender/Load.antt =====
-- The items that `readFile` and the push loops make (src/slideWindowSender.cpp): each holds the
-- bytes of its packet, and the loops stop at the last packet.
use reliable_packet_transmis.Base.{
  ℕ, zero, suc, ◌+◌, ◌-◌, ◌≤◌, ◌<◌, ◌≡◌, refl, false, ltb, min, List, [], ◌∷◌, length, arith, tests,
  ok, Result, replicate, Bool-cases, inl, inr, add32, ◌==◌, take-append, All, length-append,
}
use reliable_packet_transmis.Packet.{data_packet_data_size}
use reliable_packet_transmis.Sender.{
  Item, ItemState, FileSource, push_items, new_item, load, loaded_item,
}
use reliable_packet_transmis.Sender.Window.{IsLoaded, Carries, IsFile}

module _ (source : FileSource) (total last last_size : ℕ) (chunk : ℕ → List ℕ)
    (file : IsFile source total last_size chunk) (is_last : last + 1 ≡ total) where
  loaded_item-IsLoaded : (k : ℕ) → IsLoaded chunk k (loaded_item k (chunk k))
  loaded_item-IsLoaded k = record {
    numbered = refl;
    sized = refl;
    holds = take-append (chunk k) (replicate (data_packet_data_size - length (chunk k)) 0) _ refl;
    in_memory =
        omega
          (arith, length-append (chunk k) (replicate (data_packet_data_size - length (chunk k)) 0));
  }

  same_test : (k : ℕ) → (k == last) ≡ (k + 1 == total)
  same_test k = ground arith

  -- The item for a packet of the file holds that packet's bytes.
  pub new_item_lem :
      (k : ℕ) → k < total → new_item source last last_size k ≡ ok (loaded_item k (chunk k))
  unfolding new_item load
  new_item_lem k h = rw (same_test k, file.reads k h)

  -- What the push loop makes.
  pub record Pushes (rounds n : ℕ) (call : Result (List Item)) (items : List Item) : Type 0 where
    pub pushes : call ≡ ok items
    pub carries : Carries chunk n items
    pub in_file : n + length items ≤ total
    pub enough : length items ≡ min rounds (total - n)
    pub fresh : All (λ item. item.state ≡ ItemState.not_sent) items

  push_items-suc :
      (left rounds i : ℕ) (items : List Item)
      → add32 left i ≡ left + i
      → ltb last (left + i) ≡ false
      → push_items source last last_size left rounds (i + 1) ≡ ok items
      → push_items source last last_size left (suc rounds) i
        ≡ ok (loaded_item (left + i) (chunk (left + i)) ∷ items)
  unfolding push_items
  push_items-suc left rounds i items e inside rest =
      rw (e, inside, new_item_lem (left + i) (omega tests), rest)

  pub push_items-Pushes :
      (left rounds i : ℕ)
      → left + i ≤ total
      → (items : List Item) × Pushes rounds
          (left + i)
          (push_items source last last_size left rounds i)
          items
  unfolding push_items
  push_items-Pushes left zero i h = (
    [],
    record { pushes = refl; carries = tt; in_file = omega arith; enough = omega arith; fresh = tt },
  )
  push_items-Pushes left (suc rounds) i h =
      let e : add32 left i ≡ left + i = omega (arith, file.small) in
      elim (Bool-cases (ltb last (left + i))) [
        | inl beyond ↦ (
          [],
          record {
            pushes = rw (e, beyond);
            carries = tt;
            in_file = omega arith;
            enough = omega tests;
            fresh = tt;
          },
        )
        | inr inside ↦
            let (items, p) = push_items-Pushes left rounds (i + 1) (omega tests) in
            let e' : left + (i + 1) ≡ left + i + 1 = omega arith in
            (
              loaded_item (left + i) (chunk (left + i)) ∷ items,
              record {
                pushes = push_items-suc left rounds i items e inside p.pushes;
                carries = (loaded_item-IsLoaded (left + i), rw e' at p.carries);
                in_file = omega (arith, p.in_file);
                enough = omega (tests, p.enough);
                fresh = (refl, p.fresh);
              },
            )
      ]
