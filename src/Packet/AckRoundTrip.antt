-- ===== src/Packet/AckRoundTrip.antt =====
-- ACK packets: what `fillBufferAckPacket` writes is what `readBufferAckPacket` reads.
use reliable_packet_transmis.Base.{
  ℕ, ◌^◌, ◌≤◌, ◌<◌, ◌≡◌, ◌≢◌, refl, ◌∙◌, List, [], ◌∷◌, ◌++◌, ok, arith, length, drop, ◌>>=◌, sym,
  length-append, take, take-append,
}
use reliable_packet_transmis.Packet.{
  AckType, AckPacket, Timeval, ack_tag, word_bytes, bytes_word, bytes_timeval, timeval_bytes,
  fill_buffer_ack_packet, read_buffer_ack_packet, ack_packet_size,
}
use reliable_packet_transmis.Packet.Words.{
  length-word_bytes, bytes_word-word_bytes, FitsTimeval, bytes_timeval-timeval_bytes,
}
use reliable_packet_transmis.Packet.Stores.{ack_stores, length-timeval_bytes}

pub record IsSendableAck (packet : AckPacket) : Type 0 where
  pub known : packet.type ≢ AckType.invalid
  pub cumulative_fits : packet.cumulative_seq_num < 2 ^ 32
  pub selective_fits : packet.selective_seq_num < 2 ^ 32
  pub time_fits : FitsTimeval packet.sent_time

unfoldable pub ack_letters : AckType → List ℕ
ack_letters AckType.handshake = b'h' ∷ b's' ∷ []
ack_letters AckType.regular = b'r' ∷ b'e' ∷ []
ack_letters AckType.invalid = 0 ∷ 0 ∷ []

-- The datagram of an ACK.
unfoldable pub ack_datagram : AckPacket → List ℕ
unfolding ack_letters
ack_datagram packet =
    ((ack_letters packet.type ++ word_bytes 4 packet.cumulative_seq_num)
      ++ word_bytes 4 packet.selective_seq_num)
    ++ timeval_bytes packet.sent_time

ack_tag-ack_letters : (t : AckType) → t ≢ AckType.invalid → ack_tag t ≡ ok (ack_letters t)
unfolding ack_tag ack_letters
ack_tag-ack_letters AckType.invalid h = absurd (h refl)
ack_tag-ack_letters AckType.handshake h = refl
ack_tag-ack_letters AckType.regular h = refl

length-ack_letters : (t : AckType) → 2 ≡ length (ack_letters t)
unfolding ack_letters
length-ack_letters AckType.invalid = refl
length-ack_letters AckType.handshake = refl
length-ack_letters AckType.regular = refl

pub length-ack_datagram : (packet : AckPacket) → length (ack_datagram packet) ≡ ack_packet_size
unfolding ack_datagram
length-ack_datagram packet =
    let a = ack_letters packet.type in
    let b = word_bytes 4 packet.cumulative_seq_num in
    let c = word_bytes 4 packet.selective_seq_num in
    let d = timeval_bytes packet.sent_time in
    omega (
      arith,
      length-append ((a ++ b) ++ c) d,
      length-append (a ++ b) c,
      length-append a b,
      length-ack_letters packet.type,
      length-word_bytes 4 packet.cumulative_seq_num,
      length-word_bytes 4 packet.selective_seq_num,
      length-timeval_bytes packet.sent_time,
    )

-- Into any buffer with room for it, an ACK is stored as its datagram; the rest of the buffer stays.
pub fill_buffer_ack_packet_lem :
    (packet : AckPacket) (buffer : List ℕ)
    → packet.type ≢ AckType.invalid
    → ack_packet_size ≤ length buffer
    → fill_buffer_ack_packet packet buffer
      ≡ ok (ack_datagram packet ++ drop 26 buffer, ack_packet_size)
unfolding fill_buffer_ack_packet ack_datagram
fill_buffer_ack_packet_lem packet buffer known room = rw (ack_tag-ack_letters packet.type known) (
    ack_stores buffer (ack_letters packet.type) (word_bytes 4 packet.cumulative_seq_num)
      (timeval_bytes packet.sent_time) (length-ack_letters packet.type) refl refl (omega arith)
      (word_bytes 4 packet.selective_seq_num) (λ buffer. ok (buffer, ack_packet_size)) refl room)

-- Reading a datagram takes each field from its place.
read_places :
    (old : AckPacket) (t : AckType) (cumulative selective : ℕ) (time : Timeval)
    → t ≢ AckType.invalid
    → read_buffer_ack_packet old
        (ack_datagram (record {
          type = t;
          cumulative_seq_num = cumulative;
          selective_seq_num = selective;
          sent_time = time;
        }))
        ack_packet_size
      ≡ ok (record {
        type = t;
        cumulative_seq_num = bytes_word (word_bytes 4 cumulative);
        selective_seq_num = bytes_word (word_bytes 4 selective);
        sent_time = bytes_timeval (timeval_bytes time);
      })
unfolding read_buffer_ack_packet ack_datagram timeval_bytes
read_places old AckType.invalid cumulative selective time known = absurd (known refl)
read_places old AckType.handshake cumulative selective time known = refl
read_places old AckType.regular cumulative selective time known = refl

-- The ACK read from its datagram is the one that was written, whatever the reader's struct held.
pub read_buffer_ack_packet-ack_datagram :
    (old packet : AckPacket)
    → IsSendableAck packet
    → read_buffer_ack_packet old (ack_datagram packet) ack_packet_size ≡ ok packet
read_buffer_ack_packet-ack_datagram old packet v =
    read_places old packet.type packet.cumulative_seq_num packet.selective_seq_num packet.sent_time
      v.known
    ∙ λ i. ok (record {
      type = packet.type;
      cumulative_seq_num = bytes_word-word_bytes 4 packet.cumulative_seq_num v.cumulative_fits i;
      selective_seq_num = bytes_word-word_bytes 4 packet.selective_seq_num v.selective_fits i;
      sent_time = bytes_timeval-timeval_bytes packet.sent_time v.time_fits i;
    })

-- An ACK that can be sent, laid out in any buffer with room for it and read again from the 26
-- bytes that are sent, is the same ACK, whatever the reader's struct held before.
pub read_buffer_ack_packet-fill_buffer_ack_packet :
    (old packet : AckPacket) (buffer : List ℕ)
    → IsSendableAck packet
    → ack_packet_size ≤ length buffer
    → (fill_buffer_ack_packet packet buffer >>= λ out.
        read_buffer_ack_packet old (take out.1 out.0) out.1)
      ≡ ok packet
read_buffer_ack_packet-fill_buffer_ack_packet old packet buffer v room =
    rw
      (
        fill_buffer_ack_packet_lem packet buffer v.known room,
        take-append (ack_datagram packet) (drop 26 buffer) ack_packet_size
            (sym (length-ack_datagram packet)),
      )
      (read_buffer_ack_packet-ack_datagram old packet v)
