-- ===== src/Receiver.antt =====
-- src/slideWindowReceiver.h and src/slideWindowReceiver.cpp: the receiving half of the sliding
-- window. The lock makes each method one step. The file is the sequence of `lseek` and `write` pairs
-- that the program makes, newest first.
pub mod Window
pub mod Invariant
pub mod Store
pub mod Receive
pub mod Finished
pub mod Debug
pub mod Release
pub mod Examples
use reliable_packet_transmis.Base.{
  ℕ, zero, suc, ◌+◌, ◌-◌, Bool, true, false, not, ◌&&◌, ◌||◌, ltb, leb, ◌==◌, if◌then◌else◌, List,
  [], ◌∷◌, ◌++◌, Option, none, some, Result, ok, fault, assertion, out_of_bounds, ◌>>=◌, length,
  get_elem?, set, take, add32, sub32, mul32,
}
use reliable_packet_transmis.Packet.{DataPacket, DataType, data_packet_data_size}

-- ITEM_STATE_RECEIVED and ITEM_STATE_NOT_RECEIVED
pub data ItemState : Type 0 where
  received not_received : ItemState

pub record Item : Type 0 where
  pub seq_num : ℕ
  pub state : ItemState

-- `lseek` to `offset`, then `write` of `bytes`.
pub record FileWrite : Type 0 where
  pub offset : ℕ
  pub bytes : List ℕ

pub record Receiver : Type 0 where
  pub last_packet_seq_num_received : Bool
  pub last_packet_seq_num : ℕ
  pub next_expected_packet_seq_num : ℕ
  pub cur_window_size : ℕ
  pub slide_window : List Item
  pub writes : List FileWrite

-- The fields of the returned `AckPacket` that the receiver sets; the caller sets the two others.
pub record Reply : Type 0 where
  pub cumulative_seq_num : ℕ
  pub selective_seq_num : ℕ

abbrev pub init_window_size : ℕ
init_window_size = 200

abbrev pub is_received : ItemState → Bool
is_received ItemState.received = true
is_received ItemState.not_received = false

-- The loop that pushes items behind the window: `rounds` items from position `i` on.
unfoldable pub new_items : ℕ → ℕ → ℕ → List Item
new_items zero next i = []
new_items (suc rounds) next i =
    record { seq_num = add32 next i; state = ItemState.not_received }
    ∷ new_items rounds next (i + 1)

unfoldable pub init : Receiver
init = record {
  last_packet_seq_num_received = false;
  last_packet_seq_num = 0;
  next_expected_packet_seq_num = 0;
  cur_window_size = init_window_size;
  slide_window = new_items init_window_size 0 0;
  writes = [];
}

unfoldable pub finished : Receiver → Bool
finished r =
    r.last_packet_seq_num_received
    && r.next_expected_packet_seq_num == add32 r.last_packet_seq_num 1

-- A FINISH packet tells the number of the last packet.
abbrev pub note_finish : DataType → ℕ → Receiver → Receiver
note_finish DataType.finish seq r = record r {
  last_packet_seq_num = seq;
  last_packet_seq_num_received = true;
}
note_finish _ seq r = r

-- The negation of the test for a packet that is out of the buffer.
abbrev pub within : Receiver → ℕ → Bool
within r seq = not (
    ltb seq r.next_expected_packet_seq_num
    || leb (add32 r.next_expected_packet_seq_num r.cur_window_size) seq)

abbrev pub packet_bytes : DataPacket → List ℕ
packet_bytes packet = take packet.data_size packet.data_bytes

-- What happens at `slideWindow[i]`: a packet that is not there yet goes to the file.
store_item : Receiver → ℕ → DataPacket → Option Item → Result Receiver
store_item r i packet none = fault out_of_bounds
store_item r i packet (some item) =
    if is_received item.state
    then ok r
    else ok (record r {
      slide_window = set r.slide_window i (record item { state = ItemState.received });
      writes =
          record { offset = mul32 item.seq_num data_packet_data_size; bytes = packet_bytes packet }
          ∷ r.writes;
    })

pub store : Receiver → DataPacket → Result Receiver
unfolding store_item
store r packet =
    let i = sub32 packet.seq_num r.next_expected_packet_seq_num in
    store_item r i packet (get_elem? r.slide_window i)

-- The loop that pops what has been received off the front.
pub slide : List Item → ℕ → List Item × ℕ
slide [] next = ([], next)
slide (item ∷ items) next =
    if is_received item.state then slide items (add32 next 1) else (item ∷ items, next)

abbrev pub slide_window : Receiver → Receiver
slide_window r =
    let (items, next) = slide r.slide_window r.next_expected_packet_seq_num in
    record r { slide_window = items; next_expected_packet_seq_num = next }

-- Buffer control: the window is filled up to its size.
pub refill : Receiver → Receiver
refill r = record r {
  slide_window =
      r.slide_window
      ++ new_items (r.cur_window_size - length r.slide_window) r.next_expected_packet_seq_num
          (length r.slide_window);
}

-- A packet within the buffer.
pub receive_within : Receiver → DataPacket → Result (Receiver × Reply)
unfolding store slide
receive_within r packet = do
  r ← store r packet
  let r = slide_window r
  ok (
    r,
    record {
      cumulative_seq_num = r.next_expected_packet_seq_num;
      selective_seq_num = packet.seq_num;
    },
  )

-- A packet out of the buffer is answered with two equal numbers.
abbrev pub receive_outside : Receiver → Result (Receiver × Reply)
receive_outside r = ok (
  r,
  record {
    cumulative_seq_num = r.next_expected_packet_seq_num;
    selective_seq_num = r.next_expected_packet_seq_num;
  },
)

abbrev pub is_data : DataType → Bool
is_data DataType.regular = true
is_data DataType.finish = true
is_data _ = false

pub receive_data : Receiver → DataPacket → Result (Receiver × Reply)
unfolding receive_within refill
receive_data r packet = do
  (r, reply) ← if within r packet.seq_num then receive_within r packet else receive_outside r
  ok (refill r, reply)

unfoldable pub receive_data_packet : Receiver → DataPacket → Result (Receiver × Reply)
unfolding receive_data
receive_data_packet r packet =
    if is_data packet.type
    then receive_data (note_finish packet.type packet.seq_num r) packet
    else fault assertion
