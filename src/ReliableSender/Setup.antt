-- ===== src/ReliableSender/Setup.antt =====
-- src/reliable_sender.cpp, `createfileToSendFd`, `createTransferSocket`, `reliablyTransfer` and `main`: the
-- system calls around the transfer, and the transfer between them. `_LOCAL_TEST` is not defined.
use reliable_packet_transmis.Base.{
  ℕ, Bool, true, false, ◌&&◌, if◌then◌else◌, List, [], ◌∷◌, ◌++◌, Option, none, some, Result, ok,
  ◌>>=◌,
}
use reliable_packet_transmis.Packet.{AckPacket}
use reliable_packet_transmis.System.{
  ℤ, is_negative, SockaddrIn, htons, inaddr_any, socket_timeout_us, Mode, Label, Call, Answers,
  port_of, count_of,
}
use reliable_packet_transmis.Sender.{FileSource}
use reliable_packet_transmis.ReliableSender.{start}
use reliable_packet_transmis.ReliableSender.Handshake.{Round, perform_handshake}
use reliable_packet_transmis.ReliableSender.Threads.{
  Sending, Receiving, Timing, Threads, Action, started, run,
}

unfoldable pub create_file_to_send_fd : Answers → List ℕ → ℤ × List Call
create_file_to_send_fd answers path =
    let opening = Call.open_file path Mode.read_only answers.opened in
    if is_negative answers.opened
    then (ℤ.negsuc 0, opening ∷ Call.perror Label.socket ∷ [])
    else (answers.opened, opening ∷ [])

-- The address that the socket is bound to.
abbrev pub bind_addr : ℕ → SockaddrIn
bind_addr port = record { sin_port = htons port; sin_addr = inaddr_any }

unfoldable pub create_transfer_socket : Answers → ℕ → ℤ × List Call
create_transfer_socket answers port =
    let fd = answers.created in
    let binding =
      Call.socket fd
      ∷ Call.set_receive_timeout fd socket_timeout_us
      ∷ Call.bind fd (bind_addr port) answers.bound
      ∷ [] in
    if is_negative fd
    then (ℤ.negsuc 0, Call.socket fd ∷ Call.perror Label.socket ∷ [])
    else if is_negative answers.bound
    then (ℤ.negsuc 0, binding ++ (Call.close fd ∷ Call.perror Label.bind ∷ []))
    else (fd, binding)

-- What the threads and the handshake get from outside.
pub record Events : Type 0 where
  pub old : AckPacket
  pub rounds : List Round
  pub actions : List Action

-- The window, the estimator and the threads, once the handshake has come to a timeout: where the
-- threads are in the end, `none` before they start, and what is sent.
unfoldable pub threads_from :
    FileSource
    → ℕ
    → List Action
    → Option ℕ
    → List (List ℕ)
    → Result (Option Threads × List (List ℕ))
threads_from source bytes_to_send actions none greetings = ok (none, greetings)
threads_from source bytes_to_send actions (some init_timeout_us) greetings = do
  p ← start source init_timeout_us bytes_to_send
  (t, sent) ← run source actions (started p)
  ok (some t, greetings ++ sent)

unfoldable pub transfer : FileSource → ℕ → Events → Result (Option Threads × List (List ℕ))
unfolding threads_from
transfer source bytes_to_send events = do
  (timeout, greetings) ← perform_handshake events.old events.rounds
  threads_from source bytes_to_send events.actions timeout greetings

abbrev pub sender_stopped : Sending → Bool
sender_stopped Sending.stopped = true
sender_stopped _ = false

abbrev pub receivers_stopped : List Receiving → Bool
receivers_stopped [] = true
receivers_stopped (Receiving.stopped ∷ places) = receivers_stopped places
receivers_stopped (_ ∷ places) = false

abbrev pub timer_stopped : Timing → Bool
timer_stopped Timing.stopped = true
timer_stopped _ = false

-- Whether each `join` returns.
unfoldable pub joined : Option Threads → Bool
joined none = false
joined (some t) =
    sender_stopped t.sender && (receivers_stopped t.receivers && timer_stopped t.timer)

-- What a run of the program comes to: its return code, `none` as long as it waits; its system calls;
-- the address that it sends to; and the datagrams that it sends there.
pub record Execution : Type 0 where
  pub code : Option ℤ
  pub calls : List Call
  pub receiver_addr : SockaddrIn
  pub sent : List (List ℕ)

abbrev failed : SockaddrIn → List Call → Result Execution
failed address calls =
    ok (record { code = some (ℤ.negsuc 0); calls = calls; receiver_addr = address; sent = [] })

-- From the open file and socket on.
unfoldable pub after_setup :
    ℤ → ℤ → SockaddrIn → List Call → FileSource → ℕ → Events → Result Execution
unfolding transfer joined
after_setup file_fd socket_fd address calls source bytes_to_send events = do
  (t, sent) ← transfer source bytes_to_send events
  ok (
      if joined t
      then (record {
        code = some (ℤ.pos 0);
        calls = calls ++ (Call.close file_fd ∷ Call.close socket_fd ∷ []);
        receiver_addr = address;
        sent = sent;
      })
      else (record { code = none; calls = calls; receiver_addr = address; sent = sent }))

-- `presented` is `inet_pton`: from a text and the address before, what it returns and the address after.
unfoldable pub reliably_transfer :
    (List ℕ → ℕ → ℤ × ℕ)
    → Answers
    → List ℕ
    → ℕ
    → List ℕ
    → FileSource
    → ℕ
    → Events
    → Result Execution
unfolding create_file_to_send_fd create_transfer_socket after_setup
reliably_transfer presented answers host port path source bytes_to_send events =
    let (code, sin_addr) = presented host inaddr_any in
    let address : SockaddrIn = record { sin_port = htons port; sin_addr = sin_addr } in
    let (file_fd, opening) = create_file_to_send_fd answers path in
    let (socket_fd, binding) = create_transfer_socket answers port in
    let asked = Call.inet_pton host code ∷ [] in
    if is_negative code
    then failed address (asked ++ (Call.perror Label.inet_pton ∷ []))
    else if is_negative file_fd
    then failed address (asked ++ opening)
    else if is_negative socket_fd
    then failed address (asked ++ opening ++ binding ++ (Call.close file_fd ∷ []))
    else after_setup file_fd socket_fd address (asked ++ opening ++ binding) source bytes_to_send
        events

-- `main` with its arguments, the name of the program included.
unfoldable pub main :
    (List ℕ → ℕ → ℤ × ℕ) → Answers → List (List ℕ) → FileSource → Events → Result Execution
unfolding reliably_transfer
main presented answers (name ∷ host ∷ port ∷ path ∷ bytes ∷ []) source events =
    reliably_transfer presented answers host (port_of port) path source (count_of bytes) events
main presented answers _ source events =
    failed (record { sin_port = 0; sin_addr = 0 }) (Call.print_usage ∷ [])
