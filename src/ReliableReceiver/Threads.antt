-- ===== src/ReliableReceiver/Threads.antt =====
-- The threads of src/reliable_receiver.cpp, each of which runs `receiveDataReplyAck`, as they
-- interleave. A step is one action on what the threads share: the test for `finished`, `recvfrom`, the call
-- of `receiveDataPacket`, and the test for `finished` with the datagrams that go out after it.
use reliable_packet_transmis.Base.{
  ℕ, Bool, true, false, ◌&&◌, if◌then◌else◌, List, [], ◌∷◌, ◌++◌, Option, none, some, Result, ok,
  ◌>>=◌, length, get_elem?, set,
}
use reliable_packet_transmis.Packet.{DataPacket, DataType, AckPacket, read_buffer_data_packet}
use reliable_packet_transmis.Receiver.{Receiver, receive_data_packet, finished}
use reliable_packet_transmis.ReliableReceiver.{
  cleared_packet, receive_buffer, handshake_ack, regular_ack, send_ack,
}

-- Where a thread stands. Its buffer is given by what `recvfrom` has stored in it.
pub data Place : Type 0 where
  -- before the test of the loop
  testing : Place
  -- before `recvfrom`
  listening : Place
  -- with a packet of the file, before `receiveDataPacket`
  storing : (received : List ℕ) (packet : DataPacket) → Place
  -- with the ACK, before it is laid out, `finished` is asked, and the ACK is sent
  answering : (received : List ℕ) (ack : AckPacket) → Place
  stopped : Place

pub record Threads : Type 0 where
  pub receiver : Receiver
  pub places : List Place

-- The two threads as they start.
abbrev pub started : Receiver → Threads
started r = record { receiver = r; places = Place.testing ∷ Place.testing ∷ [] }

abbrev pub Outcome : Type 0
Outcome = Result (Threads × List (List ℕ))

abbrev pub goes_to : ℕ → Place → Threads → Outcome
goes_to i place t = ok (record t { places = set t.places i place }, [])

-- Where a packet of each type leads.
abbrev pub dispatch : DataType → List ℕ → DataPacket → Place
dispatch DataType.invalid received packet = Place.testing
dispatch DataType.handshake received packet =
    Place.answering received (handshake_ack packet.sent_time)
dispatch _ received packet = Place.storing received packet

-- A step of thread `i`, at each place. `event` is what `recvfrom` gives.
unfoldable pub step : Option Place → ℕ → Option (List ℕ) → Threads → Outcome
step none i event t = ok (t, [])
step (some Place.testing) i event t =
    if finished t.receiver then goes_to i Place.stopped t else goes_to i Place.listening t
step (some Place.listening) i none t = goes_to i Place.testing t
step (some Place.listening) i (some received) t = do
  packet ← read_buffer_data_packet cleared_packet (receive_buffer received) (length received)
  goes_to i (dispatch packet.type received packet) t
step (some (Place.storing received packet)) i event t = do
  (r, reply) ← receive_data_packet t.receiver packet
  goes_to i (Place.answering received (regular_ack reply packet.sent_time))
      (record t { receiver = r })
step (some (Place.answering received ack)) i event t = do
  (r, sent) ← send_ack t.receiver (some ack) (receive_buffer received)
  ok (record { receiver = r; places = set t.places i Place.testing }, sent)
step (some Place.stopped) i event t = ok (t, [])

-- Which thread takes a step, and what `recvfrom` gives it.
pub record Turn : Type 0 where
  pub thread : ℕ
  pub event : Option (List ℕ)

unfoldable pub perform : Turn → Threads → Outcome
unfolding step
perform turn t = step (get_elem? t.places turn.thread) turn.thread turn.event t

-- A schedule: the threads after it, and all that was sent.
unfoldable pub run : List Turn → Threads → Outcome
unfolding perform
run [] t = ok (t, [])
run (turn ∷ turns) t = do
  (t', sent) ← perform turn t
  (t'', more) ← run turns t'
  ok (t'', sent ++ more)

-- `join` returns for a thread that has stopped.
abbrev pub has_stopped : Place → Bool
has_stopped Place.stopped = true
has_stopped _ = false

abbrev pub all_stopped : List Place → Bool
all_stopped [] = true
all_stopped (place ∷ places) = has_stopped place && all_stopped places
