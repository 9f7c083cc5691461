-- ===== src/ReliableReceiver/Setup.antt =====
-- src/reliable_receiver.cpp, `createfileToWriteFd`, `createTransferSocket`, `reliablyReceive` and `main`: the
-- system calls around the transfer, and the threads between them. `_LOCAL_TEST` is not defined.
use reliable_packet_transmis.Base.{
  ℕ, if◌then◌else◌, List, [], ◌∷◌, ◌++◌, Option, none, some, Result, ok, ◌>>=◌,
}
use reliable_packet_transmis.System.{
  ℤ, is_negative, SockaddrIn, htons, inaddr_any, socket_timeout_us, Mode, Label, Call, Answers,
  port_of,
}
use reliable_packet_transmis.Receiver.{FileWrite, init}
use reliable_packet_transmis.ReliableReceiver.Threads.{Turn, started, run, all_stopped}

unfoldable pub create_file_to_write_fd : Answers → List ℕ → ℤ × List Call
create_file_to_write_fd answers path =
    let opening = Call.open_file path Mode.create_truncate answers.opened in
    if is_negative answers.opened
    then (ℤ.negsuc 0, opening ∷ Call.perror Label.socket ∷ [])
    else (answers.opened, opening ∷ [])

unfoldable pub create_transfer_socket : Answers → ℕ → ℤ × List Call
create_transfer_socket answers port =
    let fd = answers.created in
    let bind_addr : SockaddrIn = record { sin_port = htons port; sin_addr = inaddr_any } in
    let binding =
      Call.socket fd
      ∷ Call.set_receive_timeout fd socket_timeout_us
      ∷ Call.bind fd bind_addr answers.bound
      ∷ [] in
    if is_negative fd
    then (ℤ.negsuc 0, Call.socket fd ∷ Call.perror Label.socket ∷ [])
    else if is_negative answers.bound
    then (ℤ.negsuc 0, binding ++ (Call.close fd ∷ Call.perror Label.bind ∷ []))
    else (fd, binding)

-- What a run of the program comes to: its return code, `none` as long as it waits; its system calls;
-- the datagrams that it sends; and what it writes to the file, the newest first.
pub record Execution : Type 0 where
  pub code : Option ℤ
  pub calls : List Call
  pub sent : List (List ℕ)
  pub writes : List FileWrite

abbrev failed : ℤ → List Call → Result Execution
failed code calls = ok (record { code = some code; calls = calls; sent = []; writes = [] })

-- From the open file and socket on.
unfoldable pub after_setup : ℤ → ℤ → List Call → List Turn → Result Execution
after_setup file_fd socket_fd calls turns = do
  (t, sent) ← run turns (started init)
  ok (
      if all_stopped t.places
      then (record {
        code = some (ℤ.pos 0);
        calls = calls ++ (Call.close file_fd ∷ Call.close socket_fd ∷ []);
        sent = sent;
        writes = t.receiver.writes;
      })
      else (record { code = none; calls = calls; sent = sent; writes = t.receiver.writes }))

unfoldable pub run_receiver : Answers → ℕ → List ℕ → List Turn → Result Execution
unfolding create_file_to_write_fd create_transfer_socket after_setup
run_receiver answers port path turns =
    let (file_fd, opening) = create_file_to_write_fd answers path in
    let (socket_fd, binding) = create_transfer_socket answers port in
    if is_negative file_fd
    then failed (ℤ.negsuc 0) opening
    else if is_negative socket_fd
    then failed (ℤ.negsuc 0) (opening ++ binding)
    else after_setup file_fd socket_fd (opening ++ binding) turns

-- `main` with its arguments, the name of the program included.
unfoldable pub main : Answers → List (List ℕ) → List Turn → Result Execution
unfolding run_receiver
main answers (name ∷ port ∷ path ∷ []) turns = run_receiver answers (port_of port) path turns
main answers _ turns = failed (ℤ.pos 1) (Call.print_usage ∷ [])
