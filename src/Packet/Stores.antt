-- ===== src/Packet/Stores.antt =====
-- Where the stores of a packet's fields leave them in the buffer (packet.c).
use reliable_packet_transmis.Base.{
  ℕ, ◌+◌, ◌≤◌, ◌≡◌, refl, List, [], ◌++◌, append_assoc, ok, arith, length, drop, length-append,
  length-drop, take-append, drop-append, drop-drop, le→leb, Result, ◌>>=◌,
}
use reliable_packet_transmis.Packet.{Timeval, write_at, timeval_bytes}

-- A store just behind `front`, which has taken the place of the buffer's first `pos` bytes.
pub write_at-next :
    (buffer front bytes : List ℕ) (pos end : ℕ)
    → pos ≡ length front
    → end ≡ pos + length bytes
    → end ≤ length buffer
    → write_at (front ++ drop pos buffer) pos bytes ≡ ok ((front ++ bytes) ++ drop end buffer)
unfolding write_at
write_at-next buffer front bytes pos end e e' h = rw (
  le→leb (pos + length bytes) (length (front ++ drop pos buffer))
      (omega (arith, length-append front (drop pos buffer), length-drop pos buffer)),
  take-append front (drop pos buffer) pos e,
  ← drop-drop pos (length bytes) (front ++ drop pos buffer),
  drop-append front (drop pos buffer) pos e,
  drop-drop pos (length bytes) buffer,
  ← e',
  ← append_assoc front bytes (drop end buffer),
)

pub length-timeval_bytes : (t : Timeval) → length (timeval_bytes t) ≡ 16
unfolding timeval_bytes
length-timeval_bytes t = refl

module _ (buffer a b c : List ℕ) (la : 2 ≡ length a) (lb : 4 ≡ length b) (lc : 16 ≡ length c)
    (room : 22 ≤ length buffer) where
  pub header_stores :
      {B : Type 0} (k : List ℕ → Result B)
      → (do
        buffer ← write_at buffer 0 a
        buffer ← write_at buffer 2 b
        buffer ← write_at buffer 6 c
        k buffer)
        ≡ k (((a ++ b) ++ c) ++ drop 22 buffer)
  header_stores k = rw (
    write_at-next buffer [] a 0 2 refl (omega arith) (omega arith),
    write_at-next buffer a b 2 6 la (omega arith) (omega arith),
    write_at-next buffer (a ++ b) c 6 22 (omega (arith, length-append a b)) (omega arith) room,
  )

  -- The four stores of an ACK packet.
  pub ack_stores :
      {B : Type 0} (d : List ℕ) (k : List ℕ → Result B)
      → 4 ≡ length d
      → 26 ≤ length buffer
      → (do
        buffer ← write_at buffer 0 a
        buffer ← write_at buffer 2 b
        buffer ← write_at buffer 6 d
        buffer ← write_at buffer 10 c
        k buffer)
        ≡ k ((((a ++ b) ++ d) ++ c) ++ drop 26 buffer)
  ack_stores d k ld room' = rw (
    write_at-next buffer [] a 0 2 refl (omega arith) (omega arith),
    write_at-next buffer a b 2 6 la (omega arith) (omega arith),
    write_at-next buffer (a ++ b) d 6 10 (omega (arith, length-append a b)) (omega arith)
        (omega arith),
    write_at-next buffer ((a ++ b) ++ d) c 10 26
        (omega (arith, length-append a b, length-append (a ++ b) d)) (omega arith) room',
  )
