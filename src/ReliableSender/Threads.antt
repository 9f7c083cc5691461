-- ===== src/ReliableSender/Threads.antt =====
-- The threads of src/reliable_sender.cpp, `sendData`, `receiveAck` (two of them) and `checkTimeout`, as
-- they interleave. A step is one action on the shared objects: a call that takes a lock, a
-- notification, or the last part of `wait`, which blocks. Only `sendData` ever holds `condVarMutex`, so
-- the mutex keeps no other thread from a step, and a notification reaches only a thread that blocks.
use reliable_packet_transmis.Base.{
  ℕ, Bool, true, false, ltb, ◌==◌, if◌then◌else◌, List, [], ◌∷◌, ◌++◌, Option, none, some, Result,
  ok, fault, dangling, ◌>>=◌, length, take, get_elem?, set,
}
use reliable_packet_transmis.Packet.{
  DataPacket, AckPacket, AckType, Timeval, read_buffer_ack_packet, fill_buffer_data_packet,
  ack_packet_size,
}
use reliable_packet_transmis.Sender.{
  Sender, FileSource, finished, has_data_to_send, prepare_data_packets_to_send,
}
use reliable_packet_transmis.Sender.Ack
use reliable_packet_transmis.Sender.Timeout
use reliable_packet_transmis.Rtt
use reliable_packet_transmis.Rtt.{get_current_timeout_us}
use reliable_packet_transmis.ReliableSender.{Process}

-- Where `sendData` stands.
pub data Sending : Type 0 where
  -- before the test of the outer loop
  testing : Sending
  -- in the predicate of `wait`, before `hasDataToSend` and before `finished`
  asking asking_finished : Sending
  -- the predicate is false, and the thread does not block yet; it blocks
  falling_asleep asleep : Sending
  -- before the test of the inner loop, `hasDataToSend`, and before `prepareDataPacketsToSend`
  bursting preparing : Sending
  -- with packets that are prepared and not yet sent
  sending : List DataPacket → Sending
  stopped : Sending

-- Where a thread of `receiveAck` stands: before the test of `done`, before `recvfrom`, between the estimator's `ackArrived` and the
-- window's, before `hasDataToSend`, before `finished`, before `notify_all`.
pub data Receiving : Type 0 where
  testing listening : Receiving
  accepting : AckPacket → Receiving
  deciding deciding_finished notifying stopped : Receiving

-- Where `checkTimeout` stands: before the test of `done`, before it asks the estimator, with the threshold for the window, before
-- `hasDataToSend`, before `notify_all`.
pub data Timing : Type 0 where
  testing measuring : Timing
  expiring : (threshold : ℕ) → Timing
  deciding notifying stopped : Timing

pub record Threads : Type 0 where
  pub process : Process
  pub sender : Sending
  pub receivers : List Receiving
  pub timer : Timing
  pub done : Bool

-- The four threads as they start.
abbrev pub started : Process → Threads
started p = record {
  process = p;
  sender = Sending.testing;
  receivers = Receiving.testing ∷ Receiving.testing ∷ [];
  timer = Timing.testing;
  done = false;
}

-- `notify_all` wakes the thread that blocks in `wait`; it asks again then.
abbrev pub woken : Sending → Sending
woken Sending.asleep = Sending.asking
woken other = other

abbrev pub notify_all : Threads → Threads
notify_all t = record t { sender = woken t.sender }

abbrev pub Outcome : Type 0
Outcome = Result (Threads × List (List ℕ))

abbrev pub goes_to : Sending → Threads → Outcome
goes_to place t = ok (record t { sender = place }, [])

-- The data pointer of a prepared packet stands in its item, which `ackArrived` deletes when the window
-- slides past it.
abbrev pub is_deleted : Sender → DataPacket → Bool
is_deleted s packet = ltb packet.seq_num s.slide_window_left_bound_seq_num

-- A prepared packet is laid out in the buffer and sent.
unfoldable pub transmit : DataPacket → List DataPacket → List ℕ → Threads → Outcome
transmit packet packets buffer t =
    let copied : Outcome = (do
      (buffer, size) ← fill_buffer_data_packet packet buffer
      ok (record t { sender = Sending.sending packets }, take size buffer ∷ [])) in
    if is_deleted t.process.slide_window packet then fault dangling else copied

-- A step of `sendData`, at each place. `done` is set with the test that ends the outer loop, since
-- nothing undoes `finished`; the lambda of `wait` asks for `finished` also where data is ready, and
-- makes nothing of the answer. `now` is the time for `prepareDataPacketsToSend`.
unfoldable pub send_step : Sending → Timeval → List ℕ → Threads → Outcome
unfolding transmit
send_step Sending.testing now buffer t =
    if finished t.process.slide_window
    then ok (record t { sender = Sending.stopped; done = true }, [])
    else goes_to Sending.asking t
send_step Sending.asking now buffer t =
    if has_data_to_send t.process.slide_window
    then goes_to Sending.bursting t
    else goes_to Sending.asking_finished t
send_step Sending.asking_finished now buffer t =
    if finished t.process.slide_window
    then goes_to Sending.bursting t
    else goes_to Sending.falling_asleep t
send_step Sending.falling_asleep now buffer t = goes_to Sending.asleep t
send_step Sending.asleep now buffer t = ok (t, [])
send_step Sending.bursting now buffer t =
    if has_data_to_send t.process.slide_window
    then goes_to Sending.preparing t
    else goes_to Sending.testing t
send_step Sending.preparing now buffer t =
    let (s, packets) = prepare_data_packets_to_send t.process.slide_window now in
    goes_to (Sending.sending packets)
      (record t { process = record (t.process) { slide_window = s } })
send_step (Sending.sending []) now buffer t = goes_to Sending.bursting t
send_step (Sending.sending (packet ∷ packets)) now buffer t = transmit packet packets buffer t
send_step Sending.stopped now buffer t = ok (t, [])

abbrev pub receiver_goes_to : ℕ → Receiving → Threads → Outcome
receiver_goes_to i place t = ok (record t { receivers = set t.receivers i place }, [])

-- A regular ACK goes to the estimator, and the thread keeps it for the window; any other is dropped, and
-- the thread goes back to its test.
unfoldable pub on_ack : AckType → ℕ → AckPacket → Timeval → Threads → Outcome
on_ack AckType.regular i ack now t = do
  e ← Rtt.ack_arrived t.process.rtt_estimator ack now
  receiver_goes_to i (Receiving.accepting ack)
      (record t { process = record (t.process) { rtt_estimator = e } })
on_ack _ i ack now t = receiver_goes_to i Receiving.testing t

unfoldable pub on_reception : ℕ → AckPacket → Option (List ℕ) → Timeval → Threads → Outcome
unfolding on_ack
on_reception i old none now t = receiver_goes_to i Receiving.testing t
on_reception i old (some received) now t =
    if length received == ack_packet_size
    then (do
      ack ← read_buffer_ack_packet old received (length received)
      on_ack ack.type i ack now t)
    else receiver_goes_to i Receiving.testing t

-- A step of a thread of `receiveAck`, at each place. `received` is what `recvfrom` gives.
unfoldable pub receive_step :
    FileSource → Option Receiving → ℕ → AckPacket → Option (List ℕ) → Timeval → Threads → Outcome
unfolding on_reception
receive_step source none i old received now t = ok (t, [])
receive_step source (some Receiving.testing) i old received now t =
    if t.done
    then receiver_goes_to i Receiving.stopped t
    else receiver_goes_to i Receiving.listening t
receive_step source (some Receiving.listening) i old received now t =
    on_reception i old received now t
receive_step source (some (Receiving.accepting ack)) i old received now t = do
  s ← Ack.ack_arrived source t.process.slide_window ack
  receiver_goes_to i Receiving.deciding
      (record t { process = record (t.process) { slide_window = s } })
receive_step source (some Receiving.deciding) i old received now t =
    if has_data_to_send t.process.slide_window
    then receiver_goes_to i Receiving.notifying t
    else receiver_goes_to i Receiving.deciding_finished t
receive_step source (some Receiving.deciding_finished) i old received now t =
    if finished t.process.slide_window
    then receiver_goes_to i Receiving.notifying t
    else receiver_goes_to i Receiving.testing t
receive_step source (some Receiving.notifying) i old received now t =
    receiver_goes_to i Receiving.testing (notify_all t)
receive_step source (some Receiving.stopped) i old received now t = ok (t, [])

abbrev pub timer_goes_to : Timing → Threads → Outcome
timer_goes_to place t = ok (record t { timer = place }, [])

-- A step of `checkTimeout`, at each place. The sleep at the end of a round is no step.
unfoldable pub timer_step : Timing → Timeval → Threads → Outcome
timer_step Timing.testing now t =
    if t.done then timer_goes_to Timing.stopped t else timer_goes_to Timing.measuring t
timer_step Timing.measuring now t =
    timer_goes_to (Timing.expiring (get_current_timeout_us t.process.rtt_estimator)) t
timer_step (Timing.expiring threshold) now t =
    let s = Timeout.check_timeout t.process.slide_window threshold now in
    timer_goes_to Timing.deciding (record t { process = record (t.process) { slide_window = s } })
timer_step Timing.deciding now t =
    if has_data_to_send t.process.slide_window
    then timer_goes_to Timing.notifying t
    else timer_goes_to Timing.testing t
timer_step Timing.notifying now t = timer_goes_to Timing.testing (notify_all t)
timer_step Timing.stopped now t = ok (t, [])

-- Who takes a step, with what its system calls give. `spurious` is the wake-up that
-- `condition_variable` allows at any time.
pub data Action : Type 0 where
  send : (now : Timeval) (buffer : List ℕ) → Action
  receive : (i : ℕ) (old : AckPacket) (received : Option (List ℕ)) (now : Timeval) → Action
  time : (now : Timeval) → Action
  spurious : Action

unfoldable pub perform : FileSource → Action → Threads → Outcome
unfolding send_step receive_step timer_step
perform source (Action.send now buffer) t = send_step t.sender now buffer t
perform source (Action.receive i old received now) t =
    receive_step source (get_elem? t.receivers i) i old received now t
perform source (Action.time now) t = timer_step t.timer now t
perform source Action.spurious t = ok (notify_all t, [])

-- A schedule: the threads after it, and all that was sent.
unfoldable pub run : FileSource → List Action → Threads → Outcome
unfolding perform
run source [] t = ok (t, [])
run source (action ∷ actions) t = do
  (t', sent) ← perform source action t
  (t'', more) ← run source actions t'
  ok (t'', sent ++ more)
