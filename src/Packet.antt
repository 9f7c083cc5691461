-- ===== src/Packet.antt =====
-- src/packet.h and src/packet.c: the data and ACK packets, and how they are laid out in a buffer.
-- A buffer is a list of bytes. A number lies in it in the order of the target (x86-64): the least
-- significant byte first, `unsigned int` in 4 bytes and the two fields of `timeval` in 8 each.
pub mod Words
pub mod Stores
pub mod DataRoundTrip
pub mod AckRoundTrip
pub mod Examples
use reliable_packet_transmis.Base.{
  ℕ, zero, suc, ◌+◌, ◌-◌, ◌*◌, ◌/◌, ◌%◌, ◌≡◌, List, [], ◌∷◌, ◌++◌, Bool, true, false, ◌&&◌, ltb,
  leb, ◌==◌, if◌then◌else◌, Result, ok, fault, assertion, out_of_bounds, ◌>>=◌, length, take, drop,
}

abbrev pub mtu : ℕ
mtu = 1500

abbrev pub ip_and_udp_header_size : ℕ
ip_and_udp_header_size = 28

abbrev pub data_packet_size : ℕ
data_packet_size = mtu - ip_and_udp_header_size

abbrev pub data_packet_header_size : ℕ
data_packet_header_size = 22

abbrev pub data_packet_data_size : ℕ
data_packet_data_size = data_packet_size - data_packet_header_size

abbrev pub ack_packet_size : ℕ
ack_packet_size = 26

-- The macros DATA_PACKET_TYPE_*. Any other `short` is treated as `invalid`.
pub data DataType : Type 0 where
  invalid handshake regular finish : DataType

-- The macros ACK_PACKET_TYPE_*.
pub data AckType : Type 0 where
  invalid handshake regular : AckType

-- `struct timeval`; the fields are the bit patterns of two 64-bit signed numbers.
pub record Timeval : Type 0 where
  pub tv_sec : ℕ
  pub tv_usec : ℕ

-- `data_bytes` is what lies at the pointer `data`; the packet's own data are its first `data_size`.
pub record DataPacket : Type 0 where
  pub type : DataType
  pub seq_num : ℕ
  pub sent_time : Timeval
  pub data_size : ℕ
  pub data_bytes : List ℕ

pub record AckPacket : Type 0 where
  pub type : AckType
  pub cumulative_seq_num : ℕ
  pub selective_seq_num : ℕ
  pub sent_time : Timeval

-- A store of `bytes` from `pos` on.
pub write_at : List ℕ → ℕ → List ℕ → Result (List ℕ)
write_at buffer pos bytes =
    if leb (pos + length bytes) (length buffer)
    then ok (take pos buffer ++ (bytes ++ drop (pos + length bytes) buffer))
    else fault out_of_bounds

-- The `n` bytes that stand at `pos`.
abbrev pub read_at : List ℕ → ℕ → ℕ → List ℕ
read_at buffer pos n = take n (drop pos buffer)

-- A number in memory, in `n` bytes.
unfoldable pub word_bytes : ℕ → ℕ → List ℕ
word_bytes zero w = []
word_bytes (suc n) w = (w % 256) ∷ word_bytes n (w / 256)

unfoldable pub bytes_word : List ℕ → ℕ
bytes_word [] = 0
bytes_word (b ∷ bs) = b + 256 * bytes_word bs

unfoldable pub timeval_bytes : Timeval → List ℕ
unfolding word_bytes
timeval_bytes t = word_bytes 8 t.tv_sec ++ word_bytes 8 t.tv_usec

unfoldable pub bytes_timeval : List ℕ → Timeval
unfolding bytes_word
bytes_timeval bs = record {
  tv_sec = bytes_word (read_at bs 0 8);
  tv_usec = bytes_word (read_at bs 8 8);
}

-- The two letters that name a type.
data_tag : DataType → Result (List ℕ)
data_tag DataType.handshake = ok (b'h' ∷ b's' ∷ [])
data_tag DataType.regular = ok (b'r' ∷ b'e' ∷ [])
data_tag DataType.finish = ok (b'f' ∷ b'i' ∷ [])
data_tag DataType.invalid = fault assertion

-- memcpy of `n` bytes from `source`.
memcpy : List ℕ → ℕ → List ℕ → ℕ → Result (List ℕ)
memcpy buffer pos source n =
    if leb n (length source) then write_at buffer pos (take n source) else fault out_of_bounds

unfoldable pub fill_buffer_data_packet : DataPacket → List ℕ → Result (List ℕ × ℕ)
unfolding data_tag memcpy write_at timeval_bytes
fill_buffer_data_packet packet buffer = do
  tag ← data_tag packet.type
  buffer ← write_at buffer 0 tag
  buffer ← write_at buffer 2 (word_bytes 4 packet.seq_num)
  buffer ← write_at buffer 6 (timeval_bytes packet.sent_time)
  buffer ← memcpy buffer 22 packet.data_bytes packet.data_size
  ok (buffer, data_packet_header_size + packet.data_size)

-- Two letters at the start of a buffer. A read behind its end gives a byte that is no letter.
unfoldable pub starts_with : List ℕ → ℕ → ℕ → Bool
starts_with (x ∷ y ∷ _) a b = x == a && y == b
starts_with _ a b = false

unfoldable pub data_type : List ℕ → DataType
unfolding starts_with
data_type buffer =
    if starts_with buffer b'h' b's'
    then DataType.handshake
    else if starts_with buffer b'r' b'e'
    then DataType.regular
    else if starts_with buffer b'f' b'i'
    then DataType.finish
    else DataType.invalid

-- A packet of an unknown type leaves all other fields as they were.
unfoldable pub read_fields : DataType → DataPacket → List ℕ → ℕ → DataPacket
read_fields DataType.invalid packet buffer len = record packet { type = DataType.invalid }
read_fields type packet buffer len = record {
  type = type;
  seq_num = bytes_word (read_at buffer 2 4);
  sent_time = bytes_timeval (read_at buffer 6 16);
  data_size = len - data_packet_header_size;
  data_bytes = drop 22 buffer;
}

unfoldable pub read_buffer_data_packet : DataPacket → List ℕ → ℕ → Result DataPacket
unfolding data_type read_fields bytes_timeval
read_buffer_data_packet packet buffer len =
    if leb len data_packet_size && leb data_packet_header_size len
    then ok (read_fields (data_type buffer) packet buffer len)
    else fault assertion

ack_tag : AckType → Result (List ℕ)
ack_tag AckType.handshake = ok (b'h' ∷ b's' ∷ [])
ack_tag AckType.regular = ok (b'r' ∷ b'e' ∷ [])
ack_tag AckType.invalid = fault assertion

unfoldable pub fill_buffer_ack_packet : AckPacket → List ℕ → Result (List ℕ × ℕ)
unfolding ack_tag write_at timeval_bytes
fill_buffer_ack_packet packet buffer = do
  tag ← ack_tag packet.type
  buffer ← write_at buffer 0 tag
  buffer ← write_at buffer 2 (word_bytes 4 packet.cumulative_seq_num)
  buffer ← write_at buffer 6 (word_bytes 4 packet.selective_seq_num)
  buffer ← write_at buffer 10 (timeval_bytes packet.sent_time)
  ok (buffer, ack_packet_size)

pub ack_type : List ℕ → AckType
unfolding starts_with
ack_type buffer =
    if starts_with buffer b'h' b's'
    then AckType.handshake
    else if starts_with buffer b'r' b'e'
    then AckType.regular
    else AckType.invalid

pub read_ack_fields : AckType → AckPacket → List ℕ → AckPacket
read_ack_fields AckType.invalid packet buffer = record packet { type = AckType.invalid }
read_ack_fields type packet buffer = record {
  type = type;
  cumulative_seq_num = bytes_word (read_at buffer 2 4);
  selective_seq_num = bytes_word (read_at buffer 6 4);
  sent_time = bytes_timeval (read_at buffer 10 16);
}

unfoldable pub read_buffer_ack_packet : AckPacket → List ℕ → ℕ → Result AckPacket
unfolding ack_type read_ack_fields bytes_timeval
read_buffer_ack_packet packet buffer len =
    if len == ack_packet_size
    then ok (read_ack_fields (ack_type buffer) packet buffer)
    else fault assertion
