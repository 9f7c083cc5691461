-- ===== src/ReliableReceiver/Rounds.antt =====
-- A whole round of a thread of src/reliable_receiver.cpp, put together from the parts that the steps of the
-- threads take, and rounds one after the other.
use reliable_packet_transmis.Base.{
  ℕ, ◌-◌, ◌≤◌, length-append, length-replicate, ◌≡◌, refl, true, if◌then◌else◌, Bool-cases, inl,
  inr, List, [], ◌∷◌, ◌++◌, Result, ok, ◌>>=◌, OnOk, OnOk-self, OnOk-map, >>=-OnOk, length,
  append-nil, append_assoc, replicate, Elem, arith,
}
use reliable_packet_transmis.Packet.{
  DataPacket, DataType, data_packet_size, read_buffer_data_packet,
}
use reliable_packet_transmis.Packet.AckRoundTrip.{ack_datagram}
use reliable_packet_transmis.Receiver.{Receiver, Reply, is_data, receive_data_packet, finished}
use reliable_packet_transmis.ReliableReceiver.{
  on_datagram, receive_buffer, cleared_packet, fin_ack_num, handshake_ack, regular_ack,
}
use reliable_packet_transmis.ReliableReceiver.Datagrams.{
  answer-is_data, answer-handshake, send_ack_lem,
}

-- One datagram after the other, without the test for the end.
unfoldable pub serve : Receiver → List (List ℕ) → Result (Receiver × List (List ℕ))
serve r [] = ok (r, [])
serve r (datagram ∷ datagrams) = do
  (r', sent) ← on_datagram r datagram
  (r'', more) ← serve r' datagrams
  ok (r'', sent ++ more)

abbrev Served : Receiver → List (List ℕ) → Receiver × List (List ℕ) → Type 0
Served r datagrams o = serve r datagrams ≡ ok o

-- A datagram more.
pub serve-append :
    (r : Receiver) (front : List (List ℕ)) (datagram : List ℕ)
    → OnOk
        (λ (o : Receiver × List (List ℕ)).
          OnOk
            (λ (o' : Receiver × List (List ℕ)).
              serve r (front ++ (datagram ∷ [])) ≡ ok (o'.0, o.1 ++ o'.1))
            (on_datagram o.0 datagram))
        (serve r front)
unfolding serve
serve-append r [] datagram =
    OnOk-map _ _ (on_datagram r datagram) (OnOk-self (on_datagram r datagram))
      (λ o e. rw (e, append-nil o.1) refl)
serve-append r (first ∷ front) datagram =
    >>=-OnOk (λ (o : Receiver × List (List ℕ)). on_datagram r first ≡ ok o) _ (on_datagram r first)
      _ (OnOk-self (on_datagram r first))
      (λ o e. >>=-OnOk _ _ (serve o.0 front) _ (serve-append o.0 front datagram) (λ o' h.
        OnOk-map _ _ (on_datagram o'.0 datagram) h
          (λ o'' h'. rw (e, h', append_assoc o.1 o'.1 o''.1) refl)))

abbrev pub copies : Receiver → ℕ
copies r = if finished r then fin_ack_num else 1

-- What is sent is there at least once.
pub copied : (r : Receiver) (a : List ℕ) → Elem a (replicate (copies r) a)
copied r a = elim (Bool-cases (finished r)) [
  | inl over ↦ rw over (inl refl)
  | inr going ↦ rw going (inl refl)
]

abbrev zero_byte : ℕ
zero_byte = 0

pub room_for_ack :
    (received : List ℕ) → length received ≤ data_packet_size → 26 ≤ length (receive_buffer received)
room_for_ack received short = omega (
  arith,
  length-append received (replicate (data_packet_size - length received) zero_byte),
  length-replicate (data_packet_size - length received) zero_byte,
)

-- A whole round of a packet of the file, and of a handshake.
pub stored_round :
    (r r' : Receiver) (reply : Reply) (received : List ℕ) (packet : DataPacket)
    → length received ≤ data_packet_size
    → read_buffer_data_packet cleared_packet (receive_buffer received) (length received) ≡ ok packet
    → is_data packet.type ≡ true
    → receive_data_packet r packet ≡ ok (r', reply)
    → on_datagram r received
      ≡ ok (r', replicate (copies r') (ack_datagram (regular_ack reply packet.sent_time)))
unfolding on_datagram
stored_round r r' reply received packet short read kind e =
    rw (read, answer-is_data packet.type r r' packet reply kind e)
      (send_ack_lem r' (regular_ack reply packet.sent_time) (receive_buffer received) (λ e. cc)
        (room_for_ack received short))

pub greeted_round :
    (r : Receiver) (received : List ℕ) (packet : DataPacket)
    → length received ≤ data_packet_size
    → read_buffer_data_packet cleared_packet (receive_buffer received) (length received) ≡ ok packet
    → packet.type ≡ DataType.handshake
    → on_datagram r received
      ≡ ok (r, replicate (copies r) (ack_datagram (handshake_ack packet.sent_time)))
unfolding on_datagram
greeted_round r received packet short read kind =
    rw (read, answer-handshake packet.type r packet kind)
      (send_ack_lem r (handshake_ack packet.sent_time) (receive_buffer received) (λ e. cc)
        (room_for_ack received short))
