-- ===== src/System.antt =====
-- What the two programs, src/reliable_sender.cpp and src/reliable_receiver.cpp, share with their
-- surroundings: the system calls that they make with what these return, and the parts of the C
-- library that read their arguments.
pub mod Arguments
pub mod Descriptors
use reliable_packet_transmis.Base.{
  ℕ, zero, suc, ◌+◌, ◌-◌, ◌*◌, ◌/◌, ◌%◌, ◌^◌, ◌≤◌, ◌<◌, min, Bool, true, false, not, ◌&&◌, ◌||◌,
  ltb, leb, ◌==◌, if◌then◌else◌, List, [], ◌∷◌, ◌++◌,
}

pub data ℤ : Type 0 where
  pos : ℕ → ℤ
  negsuc : ℕ → ℤ

abbrev pub is_negative : ℤ → Bool
is_negative (ℤ.pos n) = false
is_negative (ℤ.negsuc n) = true

-- A conversion to an unsigned type of `bits` bits.
abbrev pub to_unsigned : ℕ → ℤ → ℕ
to_unsigned bits (ℤ.pos n) = n % 2 ^ bits
to_unsigned bits (ℤ.negsuc n) = 2 ^ bits - 1 - n % 2 ^ bits

-- `struct sockaddr_in`: the port in network order, and the address as the number that its bytes make.
pub record SockaddrIn : Type 0 where
  pub sin_port : ℕ
  pub sin_addr : ℕ

-- The bytes of a 16-bit number change places.
abbrev pub htons : ℕ → ℕ
htons port = port % 256 * 256 + port / 256

-- INADDR_ANY
abbrev pub inaddr_any : ℕ
inaddr_any = 0

-- Socket timeout: SOCKET_TIMEOUT_US of both programs.
abbrev pub socket_timeout_us : ℕ
socket_timeout_us = 50 * 1000

-- O_RDONLY; O_WRONLY | O_CREAT | O_TRUNC
pub data Mode : Type 0 where
  read_only create_truncate : Mode

-- The text of a `perror`.
pub data Label : Type 0 where
  socket bind inet_pton : Label

-- A system call, or a message to `stderr`, with what it returns.
pub data Call : Type 0 where
  inet_pton : (host : List ℕ) (result : ℤ) → Call
  open_file : (path : List ℕ) (mode : Mode) (result : ℤ) → Call
  socket : (result : ℤ) → Call
  set_receive_timeout : (fd : ℤ) (us : ℕ) → Call
  bind : (fd : ℤ) (address : SockaddrIn) (result : ℤ) → Call
  close : (fd : ℤ) → Call
  perror : Label → Call
  print_usage : Call

-- What the system answers when a program starts.
pub record Answers : Type 0 where
  pub opened : ℤ
  pub created : ℤ
  pub bound : ℤ

-- `atoll` and `atoi` of the C library: blanks, a sign, and digits up to the first other byte. A number out
-- of the range of `long long` becomes the nearest in it.
abbrev pub is_digit : ℕ → Bool
is_digit c = leb b'0' c && leb c b'9'

abbrev pub is_space : ℕ → Bool
is_space c = (c == b' ') || (leb 9 c && leb c 13)

unfoldable pub digits : ℕ → List ℕ → ℕ
digits acc [] = acc
digits acc (c ∷ cs) =
    let rest = digits (acc * 10 + (c - b'0')) cs in if is_digit c then rest else acc

unfoldable pub skip_spaces : List ℕ → List ℕ
skip_spaces [] = []
skip_spaces (c ∷ cs) = let rest = skip_spaces cs in if is_space c then rest else c ∷ cs

abbrev pub negative : ℕ → ℤ
negative zero = ℤ.pos 0
negative (suc n) = ℤ.negsuc n

unfoldable pub signed : List ℕ → ℤ
unfolding digits
signed [] = ℤ.pos 0
signed (c ∷ cs) =
    if c == b'-'
    then negative (min (digits 0 cs) (2 ^ 63))
    else if c == b'+'
    then ℤ.pos (min (digits 0 cs) (2 ^ 63 - 1))
    else ℤ.pos (min (digits 0 (c ∷ cs)) (2 ^ 63 - 1))

unfoldable pub atoll : List ℕ → ℤ
unfolding signed skip_spaces
atoll bytes = signed (skip_spaces bytes)

-- `(unsigned short int) atoi(…)`: `atoi` keeps the low 32 bits, of which the cast keeps 16.
unfoldable pub port_of : List ℕ → ℕ
port_of bytes = to_unsigned 16 (atoll bytes)

-- `uint64_t bytesToSend = atoll(…)`
unfoldable pub count_of : List ℕ → ℕ
count_of bytes = to_unsigned 64 (atoll bytes)
