-- ===== src/Sender.antt =====
-- src/slideWindowSender.h and src/slideWindowSender.cpp: the sending half of the sliding window, its
-- state, its constructor, and what it hands out for sending. `ackArrived` and `checkTimeout` are in
-- the children Ack and Timeout. The lock makes each method one step; the time is an argument.
pub mod Ack
pub mod Timeout
pub mod Window
pub mod Load
pub mod Invariant
pub mod Arrival
pub mod Sending
pub mod Expiry
pub mod Start
pub mod Acked
pub mod Progress
pub mod Punished
pub mod FastRetransmit
pub mod Debug
pub mod Release
pub mod Examples
use reliable_packet_transmis.Base.{
  ℕ, zero, suc, ◌+◌, ◌-◌, ◌*◌, ◌/◌, ◌%◌, ◌^◌, Bool, true, false, not, ◌&&◌, ltb, leb, ◌==◌,
  if◌then◌else◌, List, [], ◌∷◌, ◌++◌, Option, none, some, Result, ok, fault, assertion, ◌>>=◌,
  length, replicate, add32, mul32,
}
use reliable_packet_transmis.Packet.{DataPacket, DataType, Timeval, data_packet_data_size}

-- ITEM_STATE_NOT_SENT, ITEM_STATE_SENT, ITEM_STATE_TIMEOUT, ITEM_STATE_RESENT, ITEM_STATE_ACKED
pub data ItemState : Type 0 where
  not_sent sent timeout resent acked : ItemState

pub record Item : Type 0 where
  pub seq_num : ℕ
  pub state : ItemState
  pub last_sent_time : Timeval
  pub data_size : ℕ
  pub data_bytes : List ℕ

-- The file is a parameter: `source offset size` is what `read` gives after `lseek`, `none` for -1.
abbrev pub FileSource : Type 0
FileSource = ℕ → ℕ → Option (List ℕ)

pub record Sender : Type 0 where
  pub bytes_to_send : ℕ
  pub bytes_sent : ℕ
  pub last_packet_seq_num : ℕ
  pub last_packet_size : ℕ
  pub fast_retransmission : Bool
  pub last_ack : ℕ
  pub last_ack_acked_count : ℕ
  pub cur_congestion_window_timeouted : Bool
  pub new_data_ready : Bool
  pub slide_window_left_bound_seq_num : ℕ
  pub slide_window : List Item
  pub cur_congestion_window : ℕ
  pub cur_congestion_threshold : ℕ
  pub congestion_left_bound_seq_num : ℕ

abbrev pub fast_retransmission_threshold : ℕ
fast_retransmission_threshold = 2

abbrev pub congestion_window_min : ℕ
congestion_window_min = 10

abbrev pub congestion_threshold_min : ℕ
congestion_threshold_min = 20

abbrev pub uint_max : ℕ
uint_max = 2 ^ 32 - 1

abbrev pub zero_time : Timeval
zero_time = record { tv_sec = 0; tv_usec = 0 }

-- What `readFile` puts into an item, which `new` has filled with zeros.
abbrev pub loaded_item : ℕ → List ℕ → Item
loaded_item seq bytes = record {
  seq_num = seq;
  state = ItemState.not_sent;
  last_sent_time = zero_time;
  data_size = length bytes;
  data_bytes = bytes ++ replicate (data_packet_data_size - length bytes) 0;
}

load : ℕ → Option (List ℕ) → Result Item
load seq none = fault assertion
load seq (some bytes) = ok (loaded_item seq bytes)

unfoldable pub read_file : FileSource → ℕ → ℕ → Result Item
unfolding load
read_file source seq size = load seq (source (mul32 seq data_packet_data_size) size)

-- The item for `seq`; the last packet may be shorter.
unfoldable pub new_item : FileSource → ℕ → ℕ → ℕ → Result Item
unfolding read_file
new_item source last last_size seq =
    read_file source seq (if seq == last then last_size else data_packet_data_size)

-- The loop that pushes items behind the window, at most `rounds` from position `i` on, and none
-- beyond the last packet. (The constructor's loop is the one with the left bound 0.)
unfoldable pub push_items : FileSource → ℕ → ℕ → ℕ → ℕ → ℕ → Result (List Item)
push_items source last last_size left zero i = ok []
push_items source last last_size left (suc rounds) i =
    let more : Result (List Item) = (do
      item ← new_item source last last_size (add32 left i)
      items ← push_items source last last_size left rounds (i + 1)
      ok (item ∷ items)) in
    if ltb last (add32 left i) then ok [] else more

-- bytesToSend / DATA_PACKET_DATA_SIZE (- 1), in 64 bits, stored in 32
unfoldable pub last_seq_num_of : ℕ → ℕ
last_seq_num_of bytes =
    if bytes % data_packet_data_size == 0
    then (bytes / data_packet_data_size + 2 ^ 64 - 1) % 2 ^ 64 % 2 ^ 32
    else bytes / data_packet_data_size % 2 ^ 32

-- The product is one of 32 bits, the difference one of 64, stored in an `int`.
unfoldable pub last_size_of : ℕ → ℕ
unfolding last_seq_num_of
last_size_of bytes =
    if bytes % data_packet_data_size == 0
    then data_packet_data_size
    else (bytes + 2 ^ 64 - mul32 (last_seq_num_of bytes) data_packet_data_size) % 2 ^ 64 % 2 ^ 32

unfoldable pub init : FileSource → ℕ → Bool → Result Sender
init source bytes fast = do
  items ← push_items source (last_seq_num_of bytes) (last_size_of bytes) 0 congestion_window_min 0
  ok (record {
    bytes_to_send = bytes;
    bytes_sent = 0;
    last_packet_seq_num = last_seq_num_of bytes;
    last_packet_size = last_size_of bytes;
    fast_retransmission = fast;
    last_ack = 0;
    last_ack_acked_count = 0;
    cur_congestion_window_timeouted = false;
    new_data_ready = true;
    slide_window_left_bound_seq_num = 0;
    slide_window = items;
    cur_congestion_window = congestion_window_min;
    cur_congestion_threshold = uint_max;
    congestion_left_bound_seq_num = congestion_window_min;
  })

unfoldable pub finished : Sender → Bool
finished s = s.bytes_sent == s.bytes_to_send

unfoldable pub has_data_to_send : Sender → Bool
unfolding finished
has_data_to_send s = not (finished s) && s.new_data_ready

-- NOT_SENT or TIMEOUT: to be sent at the next opportunity
abbrev pub is_pending : ItemState → Bool
is_pending ItemState.not_sent = true
is_pending ItemState.timeout = true
is_pending _ = false

-- SENT or RESENT: under way
abbrev pub is_sent : ItemState → Bool
is_sent ItemState.sent = true
is_sent ItemState.resent = true
is_sent _ = false

-- The state of an item that is being sent.
abbrev pub after_sending : ItemState → ItemState
after_sending ItemState.not_sent = ItemState.sent
after_sending _ = ItemState.resent

unfoldable pub packet_of : ℕ → Timeval → Item → DataPacket
packet_of last now item = record {
  type = if item.seq_num == last then DataType.finish else DataType.regular;
  seq_num = item.seq_num;
  sent_time = now;
  data_size = item.data_size;
  data_bytes = item.data_bytes;
}

-- The loop of `prepareDataPacketsToSend` over at most `slots` items.
unfoldable pub prepare_items : ℕ → Timeval → ℕ → List Item → List DataPacket × List Item
unfolding packet_of
prepare_items last now zero items = ([], items)
prepare_items last now (suc slots) [] = ([], [])
prepare_items last now (suc slots) (item ∷ items) =
    let (packets, rest) = prepare_items last now slots items in
    if is_pending item.state
    then (
      packet_of last now item ∷ packets,
      record item { state = after_sending item.state; last_sent_time = now } ∷ rest,
    )
    else (packets, item ∷ rest)

unfoldable pub prepare_data_packets_to_send : Sender → Timeval → Sender × List DataPacket
unfolding prepare_items
prepare_data_packets_to_send s now =
    let (packets, items) =
      prepare_items s.last_packet_seq_num now s.cur_congestion_window s.slide_window in
    (
      record s {
        slide_window = items;
        new_data_ready = false;
        cur_congestion_window_timeouted = false;
      },
      packets,
    )

-- (unsigned) (window * 0.62), but not below the minimum. The product in `double` rounds to the same
-- number as the exact one for every 32-bit window.
unfoldable pub shrunk_threshold : ℕ → ℕ
shrunk_threshold window =
    if ltb (window * 62 / 100) congestion_threshold_min
    then congestion_threshold_min
    else window * 62 / 100

-- The traverse that looks for data to send among the first `slots` items.
unfoldable pub has_pending : ℕ → List Item → Bool
has_pending zero items = false
has_pending (suc slots) [] = false
has_pending (suc slots) (item ∷ items) =
    let rest = has_pending slots items in if is_pending item.state then true else rest

unfoldable pub look_for_data : Sender → Sender
unfolding has_pending
look_for_data s =
    if s.new_data_ready
    then s
    else record s { new_data_ready = has_pending s.cur_congestion_window s.slide_window }
