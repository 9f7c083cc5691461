-- ===== src/Packet/Words.antt =====
-- Numbers in memory: writing one and reading it back, and the room that it takes.
use native.Mathlib.Nat.{pow-suc}
use reliable_packet_transmis.Base.{ℕ, zero, suc, ◌*◌, ◌/◌, ◌^◌, ◌<◌, ◌≡◌, refl, ap, length, arith}
use reliable_packet_transmis.Packet.{Timeval, word_bytes, bytes_word, timeval_bytes, bytes_timeval}

pub length-word_bytes : (n w : ℕ) → length (word_bytes n w) ≡ n
unfolding word_bytes
length-word_bytes zero w = refl
length-word_bytes (suc n) w = ap suc (length-word_bytes n (w / 256))

div-lt : (w m : ℕ) → w < 256 * m → w / 256 < m
div-lt w m h = omega arith

-- What fits into `n` bytes is read back as it was written.
pub bytes_word-word_bytes : (n w : ℕ) → w < 256 ^ n → bytes_word (word_bytes n w) ≡ w
unfolding word_bytes bytes_word
bytes_word-word_bytes zero w h = omega arith
bytes_word-word_bytes (suc n) w h =
    omega
      (arith, bytes_word-word_bytes n (w / 256) (div-lt w (256 ^ n) (omega (arith, pow-suc 256 n))))

-- The fields fit a `timeval`.
abbrev pub FitsTimeval : Timeval → Type 0
FitsTimeval t = (t.tv_sec < 2 ^ 64) × (t.tv_usec < 2 ^ 64)

pub bytes_timeval-timeval_bytes :
    (t : Timeval) → FitsTimeval t → bytes_timeval (timeval_bytes t) ≡ t
unfolding bytes_timeval timeval_bytes
bytes_timeval-timeval_bytes t h = λ i. record {
  tv_sec = bytes_word-word_bytes 8 t.tv_sec (h.0) i;
  tv_usec = bytes_word-word_bytes 8 t.tv_usec (h.1) i;
}
