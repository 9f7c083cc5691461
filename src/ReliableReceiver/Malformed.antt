-- ===== src/ReliableReceiver/Malformed.antt =====
-- Datagrams that the sender never makes, and what a receiving thread does with them
-- (src/reliable_receiver.cpp, src/packet.c).
use reliable_packet_transmis.Base.{
  ℕ, ◌≤◌, ◌<◌, ◌≡◌, ◌≢◌, ◌↔◌, refl, sym, ltb, tests, ◌∙◌, Bool, true, false, ◌==◌, ◌&&◌, leb,
  le→leb, List, [], ◌∷◌, ok, fault, assertion, length, arith, take, if◌then◌else◌, replicate,
  Bool-cases, inl, inr, OnOk, OnOk-ok, >>=-OnOk_any, >>=-OnOk, ◌⊎◌, Option, some,
}
use reliable_packet_transmis.Packet.{
  DataPacket, DataType, AckPacket, data_type, starts_with, read_fields, read_buffer_data_packet,
  fill_buffer_ack_packet, data_packet_size, data_packet_header_size,
}
use reliable_packet_transmis.Receiver.{Receiver, receive_data_packet, finished}
use reliable_packet_transmis.ReliableReceiver.{on_datagram, receive_buffer, send_ack, answer}

-- Something is sent.
abbrev IsAnswered : Receiver × List (List ℕ) → Type 0
IsAnswered o = o.1 ≢ []

replicate-not_empty : (last : Bool) (ack : List ℕ) → replicate (if last then 4 else 1) ack ≢ []
replicate-not_empty true ack h = absurd cc
replicate-not_empty false ack h = absurd cc

send_ack-IsAnswered :
    (r : Receiver) (ack : AckPacket) (buffer : List ℕ)
    → OnOk IsAnswered (send_ack r (some ack) buffer)
unfolding send_ack
send_ack-IsAnswered r ack buffer =
    >>=-OnOk_any IsAnswered (fill_buffer_ack_packet ack buffer) _
      (λ o. replicate-not_empty (finished r) _)

-- There is an ACK to send.
abbrev HasAnswer : Receiver × Option AckPacket → Type 0
HasAnswer o = (ack : AckPacket) × (o.1 ≡ some ack)

-- A packet of a known type has an answer, unless the window takes it for a fault.
answer-HasAnswer :
    (type : DataType) (r : Receiver) (packet : DataPacket)
    → type ≢ DataType.invalid
    → OnOk HasAnswer (answer type r packet)
unfolding answer
answer-HasAnswer DataType.invalid r packet known = absurd (known refl)
answer-HasAnswer DataType.handshake r packet known = (_, refl)
answer-HasAnswer DataType.regular r packet known =
    >>=-OnOk_any HasAnswer (receive_data_packet r packet) _ (λ o. (_, refl))
answer-HasAnswer DataType.finish r packet known =
    >>=-OnOk_any HasAnswer (receive_data_packet r packet) _ (λ o. (_, refl))

both : (x y a b : ℕ) → (x == a && y == b) ≡ true → x ∷ y ∷ [] ≡ a ∷ b ∷ []
both x y a b h = let e : x ≡ a = ground arith in let e' : y ≡ b = ground arith in cc

differs : (x y a b : ℕ) → x ∷ y ∷ [] ≢ a ∷ b ∷ [] → (x == a && y == b) ≡ false
differs x y a b h = elim (Bool-cases (x == a && y == b)) [
  | inl same ↦ absurd (h (both x y a b same))
  | inr other ↦ other
]

-- The type of a datagram is that of its first two bytes.
data_type-invalid :
    (x y : ℕ) (rest : List ℕ)
    → x ∷ y ∷ [] ≢ b'h' ∷ b's' ∷ []
    → x ∷ y ∷ [] ≢ b'r' ∷ b'e' ∷ []
    → x ∷ y ∷ [] ≢ b'f' ∷ b'i' ∷ []
    → data_type (x ∷ y ∷ rest) ≡ DataType.invalid
unfolding data_type starts_with
data_type-invalid x y rest hs re fi =
    rw (differs x y _ _ hs, differs x y _ _ re, differs x y _ _ fi)

-- The letters of a type.
abbrev IsKnown : List ℕ → Type 0
IsKnown letters =
    (letters ≡ b'h' ∷ b's' ∷ []) ⊎ ((letters ≡ b'r' ∷ b'e' ∷ []) ⊎ (letters ≡ b'f' ∷ b'i' ∷ []))

data_type-known :
    (x y : ℕ) (rest : List ℕ) → IsKnown (x ∷ y ∷ []) → data_type (x ∷ y ∷ rest) ≢ DataType.invalid
unfolding data_type starts_with
data_type-known x y rest (inl hs) wrong = absurd cc
data_type-known x y rest (inr (inl re)) wrong = absurd cc
data_type-known x y rest (inr (inr fi)) wrong = absurd cc

read_fields-type :
    (type : DataType) (packet : DataPacket) (buffer : List ℕ) (len : ℕ)
    → (read_fields type packet buffer len).type ≡ type
unfolding read_fields
read_fields-type DataType.invalid packet buffer len = refl
read_fields-type DataType.handshake packet buffer len = refl
read_fields-type DataType.regular packet buffer len = refl
read_fields-type DataType.finish packet buffer len = refl

read-known :
    (packet : DataPacket) (buffer : List ℕ) (len : ℕ)
    → data_type buffer ≢ DataType.invalid
    → OnOk
        (λ (p : DataPacket). p.type ≢ DataType.invalid)
        (read_buffer_data_packet packet buffer len)
unfolding read_buffer_data_packet
read-known packet buffer len known =
    elim (Bool-cases (leb len data_packet_size && leb data_packet_header_size len)) [
      | inl good ↦ rw good (λ h. known (sym (read_fields-type _ packet buffer len) ∙ h))
      | inr bad ↦ rw bad tt
    ]

known-IsAnswered :
    (r : Receiver) (datagram : List ℕ)
    → data_type (receive_buffer datagram) ≢ DataType.invalid
    → OnOk IsAnswered (on_datagram r datagram)
unfolding on_datagram
known-IsAnswered r datagram known =
    >>=-OnOk (λ (p : DataPacket). p.type ≢ DataType.invalid) IsAnswered _ _
      (read-known _ (receive_buffer datagram) (length datagram) known)
      (λ packet of_type.
        >>=-OnOk HasAnswer IsAnswered (answer packet.type r packet) _
          (answer-HasAnswer packet.type r packet of_type)
          (λ o (ack, e). rw e (send_ack-IsAnswered o.0 ack (receive_buffer datagram))))

dropped-unknown :
    (r : Receiver) (x y : ℕ) (rest : List ℕ)
    → on_datagram r (x ∷ y ∷ rest) ≡ ok (r, [])
    → IsKnown (x ∷ y ∷ [])
    → ⊥
dropped-unknown r x y rest e known =
    OnOk-ok IsAnswered (on_datagram r (x ∷ y ∷ rest)) e
      (known-IsAnswered r (x ∷ y ∷ rest) (data_type-known x y _ known)) refl

unknown-dropped :
    (r : Receiver) (datagram : List ℕ)
    → length datagram ≤ data_packet_size
    → data_packet_header_size ≤ length datagram
    → data_type (receive_buffer datagram) ≡ DataType.invalid
    → on_datagram r datagram ≡ ok (r, [])
unfolding on_datagram read_buffer_data_packet
unknown-dropped r datagram h long unknown =
    let fits : leb (length datagram) data_packet_size ≡ true = le→leb _ _ h in
    let header : leb data_packet_header_size (length datagram) ≡ true = le→leb _ _ long in
    rw (fits, header, unknown)

short_fault :
    (r : Receiver) (datagram : List ℕ)
    → length datagram < data_packet_header_size
    → on_datagram r datagram ≡ fault assertion
unfolding on_datagram read_buffer_data_packet
short_fault r datagram short =
    let fits : leb (length datagram) data_packet_size ≡ true = le→leb _ _ (omega arith) in
    let no_header : leb data_packet_header_size (length datagram) ≡ false = ground arith in
    rw (fits, no_header)

long-dropped :
    (r : Receiver) (datagram : List ℕ)
    → on_datagram r datagram ≡ ok (r, [])
    → data_packet_header_size ≤ length datagram
long-dropped r datagram e = elim (Bool-cases (ltb (length datagram) data_packet_header_size)) [
  | inl short ↦
      OnOk-ok (λ _. data_packet_header_size ≤ length datagram) (on_datagram r datagram) e
        (rw (short_fault r datagram (omega (tests, short))) tt)
  | inr long ↦ omega (tests, long)
]

-- A datagram of at most the size of the buffer, whatever it holds, is dropped in any state,
-- without a fault, an answer or an effect on the receiver, exactly when it has at least the size
-- of a header and its first two bytes are neither `hs` nor `re` nor `fi`.
pub on_datagram-malformed :
    (r : Receiver) (datagram : List ℕ)
    → length datagram ≤ data_packet_size
    → (on_datagram r datagram ≡ ok (r, [])) ↔ (
        (data_packet_header_size ≤ length datagram)
        × (take 2 datagram ≢ b'h' ∷ b's' ∷ [])
        × (take 2 datagram ≢ b'r' ∷ b'e' ∷ [])
        × (take 2 datagram ≢ b'f' ∷ b'i' ∷ []))
on_datagram-malformed r [] h =
    (λ e. absurd (omega (arith, long-dropped r [] e)), λ o. absurd (omega (arith, o.0)))
on_datagram-malformed r (x ∷ []) h =
    (λ e. absurd (omega (arith, long-dropped r (x ∷ []) e)), λ o. absurd (omega (arith, o.0)))
on_datagram-malformed r (x ∷ y ∷ rest) h = (
  λ e.
      let dropped = dropped-unknown r x y rest e in
      (
        long-dropped r (x ∷ y ∷ rest) e,
        λ hs. dropped (inl hs),
        λ re. dropped (inr (inl re)),
        λ fi. dropped (inr (inr fi)),
      ),
  λ (long, hs, re, fi). unknown-dropped r (x ∷ y ∷ rest) h long (data_type-invalid x y _ hs re fi),
)
