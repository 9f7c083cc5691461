-- ===== src/Receiver/Receive.antt =====
-- `receiveDataPacket` and `finished` as a whole (src/slideWindowReceiver.cpp).
use reliable_packet_transmis.Base.{
  ℕ, ◌+◌, ◌-◌, ◌^◌, ◌≤◌, ◌≡◌, refl, ap, sym, subst, Bool, true, false, ◌||◌, ◌&&◌, ◌==◌,
  if◌then◌else◌, List, [], ◌∷◌, arith, ok, fault, assertion, Bool-cases, inl, inr, ◌∙◌, Result,
}
use mathlib.Core.Bool.{false≢true}
use reliable_packet_transmis.Packet.{DataPacket, DataType}
use reliable_packet_transmis.Receiver.{
  Receiver, Item, Reply, init, within, note_finish, is_data, slide_window, receive_data,
  receive_data_packet, refill,
}
use reliable_packet_transmis.Receiver.Window.{
  has_in, HeadOpen-append-new_items, count_received-append-new_items, HeadOpen,
  new_items-Consecutive, length-new_items, has_in-append-new_items,
}
use reliable_packet_transmis.Receiver.Invariant.{
  has, IsPacketOf, IsValid, note_finish-IsValid, slide_window-Holds, refill-IsValid,
}
use reliable_packet_transmis.Receiver.Store.{store_lem}

or_false_lem : (b : Bool) → b ≡ (b || false)
or_false_lem b = ground arith

abbrev pub is_finish : DataType → Bool
is_finish DataType.finish = true
is_finish _ = false

module _ (total : ℕ) (chunk : ℕ → List ℕ) where
  -- A fresh receiver is valid and has received nothing.
  pub init-IsValid : IsValid total chunk init × ((k : ℕ) → has init k ≡ false)
  unfolding init
  init-IsValid =
      let open_items : (k : ℕ) → has init k ≡ false =
        (λ k. has_in-append-new_items 0 k 200 0 0 [] ∙ ground arith) in
      (
        record {
          holds = record {
            sized = refl;
            short = omega (arith, length-new_items 200 0 0);
            consecutive = new_items-Consecutive 200 0 0 0 refl (omega arith);
            bounded = λ k e. absurd (false≢true (sym (open_items k) ∙ e));
            stored = λ k e. absurd (false≢true (sym (open_items k) ∙ e));
            honest = tt;
            counted = omega (arith, count_received-append-new_items 200 0 0 []);
            last_known = λ e. absurd (false≢true e);
            last_heard = λ k _ e. absurd (false≢true (sym (open_items k) ∙ e));
          };
          filled = length-new_items 200 0 0;
          head_open = HeadOpen-append-new_items 200 0 0 [] tt;
        },
        open_items,
      )

  HeadOpen-awaited : (n : ℕ) (xs : List Item) → HeadOpen xs → has_in n xs n ≡ false
  HeadOpen-awaited n [] h = ground arith
  HeadOpen-awaited n (x ∷ xs) h = let e : n - n ≡ 0 = omega arith in rw e (ground arith)

  -- The awaited packet has not been received.
  pub next-awaited :
      (r : Receiver) → IsValid total chunk r → has r r.next_expected_packet_seq_num ≡ false
  next-awaited r v = HeadOpen-awaited r.next_expected_packet_seq_num r.slide_window v.head_open

  -- What a call on a valid receiver comes to.
  pub record Receives (r : Receiver) (packet : DataPacket) (call : Result (Receiver × Reply))
      (r' : Receiver) (reply : Reply) : Type 0 where
    pub returns : call ≡ ok (r', reply)
    pub valid : IsValid total chunk r'
    pub gains : (k : ℕ) → has r' k ≡ (has r k || (within r packet.seq_num && k == packet.seq_num))
    pub cumulative : reply.cumulative_seq_num ≡ r'.next_expected_packet_seq_num
    pub selective :
        reply.selective_seq_num
        ≡ (if within r packet.seq_num then packet.seq_num else r'.next_expected_packet_seq_num)

  module _ (room : total + 400 ≤ 2 ^ 32) (r : Receiver) (packet : DataPacket)
      (p : IsPacketOf total chunk packet) (v : IsValid total chunk r)
      (noted : packet.seq_num + 1 ≡ total → r.last_packet_seq_num_received ≡ true) where
    inside :
        within r packet.seq_num ≡ true
        → (r' : Receiver) × (reply : Reply) × Receives r packet (receive_data r packet) r' reply
          × (r'.last_packet_seq_num_received ≡ r.last_packet_seq_num_received)
    unfolding receive_data
    inside w =
        let (stored, s) = store_lem total chunk room r packet p v noted w in
        let (holds, head, same) = slide_window-Holds total chunk stored room s.holds in
        let (valid, kept) = refill-IsValid total chunk (slide_window stored) room holds head in
        (
          refill (slide_window stored),
          record {
            cumulative_seq_num = (slide_window stored).next_expected_packet_seq_num;
            selective_seq_num = packet.seq_num;
          },
          record {
            returns = rw (w, s.stores);
            valid = valid;
            gains = λ k. kept k ∙ same k ∙ rw w (s.gains k);
            cumulative = refl;
            selective = rw w;
          },
          s.same_last,
        )

    outside :
        within r packet.seq_num ≡ false
        → (r' : Receiver) × (reply : Reply) × Receives r packet (receive_data r packet) r' reply
          × (r'.last_packet_seq_num_received ≡ r.last_packet_seq_num_received)
    unfolding receive_data
    outside w =
        let (valid, kept) = refill-IsValid total chunk r room v.holds v.head_open in
        (
          refill r,
          record {
            cumulative_seq_num = r.next_expected_packet_seq_num;
            selective_seq_num = r.next_expected_packet_seq_num;
          },
          record {
            returns = rw w;
            valid = valid;
            gains = λ k. kept k ∙ rw w (or_false_lem (has r k));
            cumulative = refl;
            selective = rw w;
          },
          refl,
        )

    receive_data_lem :
        (r' : Receiver) × (reply : Reply) × Receives r packet (receive_data r packet) r' reply
        × (r'.last_packet_seq_num_received ≡ r.last_packet_seq_num_received)
    receive_data_lem = elim (Bool-cases (within r packet.seq_num)) [
      | inl w ↦ inside w
      | inr w ↦ outside w
    ]

  module _ (room : total + 400 ≤ 2 ^ 32) (r : Receiver) (packet : DataPacket)
      (p : IsPacketOf total chunk packet) (v : IsValid total chunk r) where
    -- A packet of a file of at most 2 ^ 32 - 400 packets, given to a valid receiver, is accepted
    -- without a fault; the receiver stays valid; what it has received grows by exactly that
    -- packet, if it is within the window; the cumulative number of the reply is the first that is
    -- still awaited; the selective number is the packet's within the window and equal to the
    -- cumulative one outside; the last number is known afterwards if it was known before or the
    -- packet is a FINISH packet.
    pub receive_data_packet_lem :
        (r' : Receiver) × (reply : Reply) × Receives r packet
          (receive_data_packet r packet)
          r'
          reply
        × (has r' reply.cumulative_seq_num ≡ false)
        × (r'.last_packet_seq_num_received
            ≡ (is_finish packet.type || r.last_packet_seq_num_received))
    unfolding receive_data_packet
    receive_data_packet_lem = by_type packet.type refl
      where
        call : DataType → Result (Receiver × Reply)
        call t =
            if is_data t
            then receive_data (note_finish t packet.seq_num r) packet
            else fault assertion

        last : DataType → Bool
        last t = is_finish t || r.last_packet_seq_num_received

        by_type :
            (t : DataType)
            → packet.type ≡ t
            → (r' : Receiver) × (reply : Reply) × Receives r packet
                (receive_data_packet r packet)
                r'
                reply
              × (has r' reply.cumulative_seq_num ≡ false)
              × (r'.last_packet_seq_num_received
                  ≡ (is_finish packet.type || r.last_packet_seq_num_received))
        by_type DataType.invalid e = absurd (false≢true (rw e at p.kind))
        by_type DataType.handshake e = absurd (false≢true (rw e at p.kind))
        by_type DataType.regular e =
            let (r', reply, c, l) =
              receive_data_lem room r packet p v (λ q. absurd (cc (p.last_is_finish q))) in
            (
              r',
              reply,
              record {
                returns = ap call e ∙ c.returns;
                valid = c.valid;
                gains = c.gains;
                cumulative = c.cumulative;
                selective = c.selective;
              },
              rw c.cumulative (next-awaited r' c.valid),
              l ∙ sym (ap last e),
            )
        by_type DataType.finish e =
            let noted = note_finish DataType.finish packet.seq_num r in
            let (r', reply, c, l) =
              receive_data_lem room noted packet p
                (subst (λ t. IsValid total chunk (note_finish t packet.seq_num r)) e
                  (note_finish-IsValid total chunk r packet p v))
                (λ _. refl) in
            (
              r',
              reply,
              record {
                returns = ap call e ∙ c.returns;
                valid = c.valid;
                gains = c.gains;
                cumulative = c.cumulative;
                selective = c.selective;
              },
              rw c.cumulative (next-awaited r' c.valid),
              l ∙ sym (ap last e),
            )
