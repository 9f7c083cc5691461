-- ===== src/Packet/DataRoundTrip.antt =====
-- Data packets: what `fillBufferDataPacket` writes is what `readBufferDataPacket` reads.
use reliable_packet_transmis.Base.{
  ℕ, ◌+◌, ◌^◌, ◌≤◌, ◌<◌, ◌≡◌, ◌≢◌, refl, sym, ap, ◌∙◌, List, [], ◌∷◌, ◌++◌, append_assoc, ok, arith,
  length, take, drop, length-append, length-take, le→leb, Result, ◌>>=◌,
}
use reliable_packet_transmis.Packet.{
  DataType, DataPacket, Timeval, memcpy, data_tag, word_bytes, timeval_bytes, bytes_word,
  bytes_timeval, fill_buffer_data_packet, read_buffer_data_packet, data_packet_header_size,
  data_packet_data_size,
}
use reliable_packet_transmis.Packet.Words.{
  length-word_bytes, bytes_word-word_bytes, FitsTimeval, bytes_timeval-timeval_bytes,
}
use reliable_packet_transmis.Packet.Stores.{write_at-next, header_stores, length-timeval_bytes}

-- The fields of a packet that can be sent: they fit the words that hold them, and the data lie
-- within the memory at the pointer and within one datagram.
pub record IsSendable (packet : DataPacket) : Type 0 where
  pub known : packet.type ≢ DataType.invalid
  pub seq_fits : packet.seq_num < 2 ^ 32
  pub time_fits : FitsTimeval packet.sent_time
  pub in_memory : packet.data_size ≤ length packet.data_bytes
  pub in_datagram : packet.data_size ≤ data_packet_data_size

-- The two letters of a type.
unfoldable pub letters : DataType → List ℕ
letters DataType.handshake = b'h' ∷ b's' ∷ []
letters DataType.regular = b'r' ∷ b'e' ∷ []
letters DataType.finish = b'f' ∷ b'i' ∷ []
letters DataType.invalid = 0 ∷ 0 ∷ []

-- The datagram of a packet.
unfoldable pub data_datagram : DataPacket → List ℕ
unfolding letters
data_datagram packet =
    ((letters packet.type ++ word_bytes 4 packet.seq_num) ++ timeval_bytes packet.sent_time)
    ++ take packet.data_size packet.data_bytes

data_tag-letters : (t : DataType) → t ≢ DataType.invalid → data_tag t ≡ ok (letters t)
unfolding data_tag letters
data_tag-letters DataType.invalid h = absurd (h refl)
data_tag-letters DataType.handshake h = refl
data_tag-letters DataType.regular h = refl
data_tag-letters DataType.finish h = refl

length-letters : (t : DataType) → length (letters t) ≡ 2
unfolding letters
length-letters DataType.invalid = refl
length-letters DataType.handshake = refl
length-letters DataType.regular = refl
length-letters DataType.finish = refl

length-data_header :
    (packet : DataPacket)
    → length
        ((letters packet.type ++ word_bytes 4 packet.seq_num) ++ timeval_bytes packet.sent_time)
      ≡ 22
length-data_header packet =
    let a = letters packet.type in
    let b = word_bytes 4 packet.seq_num in
    let c = timeval_bytes packet.sent_time in
    omega (
      arith,
      length-append (a ++ b) c,
      length-append a b,
      length-letters packet.type,
      length-word_bytes 4 packet.seq_num,
      length-timeval_bytes packet.sent_time,
    )

pub length-data_datagram :
    (packet : DataPacket)
    → IsSendable packet
    → length (data_datagram packet) ≡ 22 + packet.data_size
unfolding data_datagram
length-data_datagram packet v = omega (
  arith,
  length-append
      ((letters packet.type ++ word_bytes 4 packet.seq_num) ++ timeval_bytes packet.sent_time)
      (take packet.data_size packet.data_bytes),
  length-data_header packet,
  length-take packet.data_size packet.data_bytes,
)

-- Into any buffer with room for it, a packet is stored as its datagram; the rest of the buffer
-- stays, and the size of the datagram is returned.
pub fill_buffer_data_packet_lem :
    (packet : DataPacket) (buffer : List ℕ)
    → IsSendable packet
    → data_packet_header_size + packet.data_size ≤ length buffer
    → fill_buffer_data_packet packet buffer
      ≡ ok (
        data_datagram packet ++ drop (22 + packet.data_size) buffer,
        data_packet_header_size + packet.data_size,
      )
unfolding fill_buffer_data_packet data_datagram
fill_buffer_data_packet_lem packet buffer v room = rw (data_tag-letters packet.type v.known) (
    header_stores buffer (letters packet.type) (word_bytes 4 packet.seq_num)
      (timeval_bytes packet.sent_time) (sym (length-letters packet.type)) refl refl (omega arith)
      (λ buffer. memcpy buffer 22 packet.data_bytes packet.data_size >>= size)
    ∙ ap (λ m. m >>= size) copy)
  where
    size : List ℕ → Result (List ℕ × ℕ)
    size buffer = ok (buffer, data_packet_header_size + packet.data_size)

    header : List ℕ
    header = (letters packet.type ++ word_bytes 4 packet.seq_num) ++ timeval_bytes packet.sent_time

    copy :
        memcpy (header ++ drop 22 buffer) 22 packet.data_bytes packet.data_size
        ≡ ok (
            (header ++ take packet.data_size packet.data_bytes)
            ++ drop (22 + packet.data_size) buffer)
    copy = rw (
      le→leb packet.data_size (length packet.data_bytes) v.in_memory,
      write_at-next buffer header (take packet.data_size packet.data_bytes) 22
          (22 + packet.data_size) (sym (length-data_header packet))
          (omega (arith, length-take packet.data_size packet.data_bytes)) room,
    )

-- Reading a datagram, with any bytes behind it, takes each field from its place.
read_places :
    (old : DataPacket) (t : DataType) (seq : ℕ) (time : Timeval) (bytes rest : List ℕ) (n : ℕ)
    → t ≢ DataType.invalid
    → n ≤ data_packet_data_size
    → read_buffer_data_packet old
        (((letters t ++ word_bytes 4 seq) ++ timeval_bytes time) ++ (bytes ++ rest))
        (22 + n)
      ≡ ok (record {
        type = t;
        seq_num = bytes_word (word_bytes 4 seq);
        sent_time = bytes_timeval (timeval_bytes time);
        data_size = n;
        data_bytes = bytes ++ rest;
      })
unfolding read_buffer_data_packet timeval_bytes letters
read_places old DataType.invalid seq time bytes rest n known h = absurd (known refl)
read_places old DataType.handshake seq time bytes rest n known h = ground arith
read_places old DataType.regular seq time bytes rest n known h = ground arith
read_places old DataType.finish seq time bytes rest n known h = ground arith

-- The packet read from its datagram, received into a buffer that holds `rest` behind it, has the
-- fields that were written, and its data pointer stands at the data that were written, with `rest`
-- behind them; whatever the reader's struct held.
pub read_buffer_data_packet-data_datagram :
    (old packet : DataPacket) (rest : List ℕ)
    → IsSendable packet
    → read_buffer_data_packet old (data_datagram packet ++ rest) (22 + packet.data_size)
      ≡ ok (record packet { data_bytes = take packet.data_size packet.data_bytes ++ rest })
unfolding data_datagram
read_buffer_data_packet-data_datagram old packet rest v =
    rw
      (append_assoc
        ((letters packet.type ++ word_bytes 4 packet.seq_num) ++ timeval_bytes packet.sent_time)
        (take packet.data_size packet.data_bytes) rest)
      (read_places old packet.type packet.seq_num packet.sent_time
        (take packet.data_size packet.data_bytes) rest packet.data_size v.known v.in_datagram)
    ∙ λ i. ok (record {
      type = packet.type;
      seq_num = bytes_word-word_bytes 4 packet.seq_num v.seq_fits i;
      sent_time = bytes_timeval-timeval_bytes packet.sent_time v.time_fits i;
      data_size = packet.data_size;
      data_bytes = take packet.data_size packet.data_bytes ++ rest;
    })

-- A packet that can be sent, laid out in any buffer with room for it and read again from there
-- with the size that `fillBufferDataPacket` returned, is the same packet: type, number, time and
-- size, and its data, with the rest of the buffer behind them; whatever the reader's struct held
-- before.
pub read_buffer_data_packet-fill_buffer_data_packet :
    (old packet : DataPacket) (buffer : List ℕ)
    → IsSendable packet
    → data_packet_header_size + packet.data_size ≤ length buffer
    → (fill_buffer_data_packet packet buffer >>= λ out. read_buffer_data_packet old out.0 out.1)
      ≡ ok (record packet {
        data_bytes = take packet.data_size packet.data_bytes ++ drop (22 + packet.data_size) buffer;
      })
read_buffer_data_packet-fill_buffer_data_packet old packet buffer v room =
    rw (fill_buffer_data_packet_lem packet buffer v room)
      (read_buffer_data_packet-data_datagram old packet (drop (22 + packet.data_size) buffer) v)
