-- ===== src/Transfer/SetupExamples.antt =====
-- Runs, that fail early, of src/reliable_sender.cpp and src/reliable_receiver.cpp at concrete values.
use reliable_packet_transmis.Base.{
  ℕ, ◌≡◌, ◌≢◌, ◌%◌, ◌^◌, refl, List, [], ◌∷◌, none, some, ok, arith,
}
use reliable_packet_transmis.System.{
  ℤ, Mode, Label, Call, Answers, atoll, count_of, port_of, inaddr_any,
}
use reliable_packet_transmis.System.Arguments.{decimal, atoll-decimal}
use reliable_packet_transmis.System.Descriptors.{left_open}
use reliable_packet_transmis.ReliableSender.Handshake.{estimate, perform_handshake}
use reliable_packet_transmis.ReliableSender.Examples.{some_ack}
use reliable_packet_transmis.ReliableSender.Setup as SenderSetup
use reliable_packet_transmis.ReliableSender.Closing.{main-left_open}
use reliable_packet_transmis.ReliableSender.InvalidHost.{invalid_host-accepted}
use reliable_packet_transmis.ReliableReceiver.Setup as ReceiverSetup
use reliable_packet_transmis.ReliableReceiver.Closing.{run_receiver-left_open}
use reliable_packet_transmis.Transfer.Examples.{abc_source}

atoll-decimal_example :
    (atoll (decimal 3000) ≡ ℤ.pos 3000)
    × (count_of (decimal 3000) ≡ 3000)
    × (port_of (decimal 3000) ≡ 3000 % 2 ^ 16)
atoll-decimal_example = atoll-decimal 3000 (omega arith)

-- The port is taken, so that the socket cannot be bound.
abbrev taken : Answers
taken = record { opened = ℤ.pos 3; created = ℤ.pos 4; bound = ℤ.negsuc 0 }

-- `inet_pton` of 127.0.0.1.
abbrev pub local : List ℕ → ℕ → ℤ × ℕ
local host address = (ℤ.pos 1, 16777343)

abbrev no_events : SenderSetup.Events
no_events = record { old = some_ack; rounds = []; actions = [] }

abbrev arguments : List (List ℕ)
arguments = [] ∷ [] ∷ (b'8' ∷ b'0' ∷ []) ∷ [] ∷ (b'3' ∷ []) ∷ []

abbrev refused : SenderSetup.Execution
refused = record {
  code = some (ℤ.negsuc 0);
  calls =
      Call.inet_pton [] (ℤ.pos 1)
      ∷ Call.open_file [] Mode.read_only (ℤ.pos 3)
      ∷ Call.socket (ℤ.pos 4)
      ∷ Call.set_receive_timeout (ℤ.pos 4) 50000
      ∷ Call.bind (ℤ.pos 4) (record { sin_port = 20480; sin_addr = 0 }) (ℤ.negsuc 0)
      ∷ Call.close (ℤ.pos 4)
      ∷ Call.perror Label.bind
      ∷ Call.close (ℤ.pos 3)
      ∷ [];
  receiver_addr = record { sin_port = 20480; sin_addr = 16777343 };
  sent = [];
}

refused_lem : SenderSetup.main local taken arguments abc_source no_events ≡ ok refused
unfolding SenderSetup.main port_of atoll
refused_lem = refl

main-left_open_example : left_open refused.calls ≡ []
main-left_open_example =
    main-left_open local taken arguments abc_source no_events refused (ℤ.negsuc 0) refused_lem refl

-- `inet_pton` of a text that is no address.
abbrev unknown : List ℕ → ℕ → ℤ × ℕ
unknown host address = (ℤ.pos 0, address)

abbrev pub free : Answers
free = record { opened = ℤ.pos 3; created = ℤ.pos 4; bound = ℤ.pos 0 }

abbrev astray : SenderSetup.Execution
astray = record {
  code = none;
  calls =
      Call.inet_pton [] (ℤ.pos 0)
      ∷ Call.open_file [] Mode.read_only (ℤ.pos 3)
      ∷ Call.socket (ℤ.pos 4)
      ∷ Call.set_receive_timeout (ℤ.pos 4) 50000
      ∷ Call.bind (ℤ.pos 4) (record { sin_port = 20480; sin_addr = 0 }) (ℤ.pos 0)
      ∷ [];
  receiver_addr = record { sin_port = 20480; sin_addr = 0 };
  sent = [];
}

astray_lem : SenderSetup.main unknown free arguments abc_source no_events ≡ ok astray
unfolding SenderSetup.main port_of atoll perform_handshake estimate
astray_lem = refl

invalid_host-accepted_example :
    (astray.code ≢ some (ℤ.negsuc 0)) × (astray.receiver_addr.sin_addr ≡ inaddr_any)
invalid_host-accepted_example =
    invalid_host-accepted unknown 3 4 0 [] [] (b'8' ∷ b'0' ∷ []) [] (b'3' ∷ []) abc_source no_events
      astray refl astray_lem

abbrev abandoned : ReceiverSetup.Execution
abandoned = record {
  code = some (ℤ.negsuc 0);
  calls =
      Call.open_file [] Mode.create_truncate (ℤ.pos 3)
      ∷ Call.socket (ℤ.pos 4)
      ∷ Call.set_receive_timeout (ℤ.pos 4) 50000
      ∷ Call.bind (ℤ.pos 4) (record { sin_port = 20480; sin_addr = 0 }) (ℤ.negsuc 0)
      ∷ Call.close (ℤ.pos 4)
      ∷ Call.perror Label.bind
      ∷ [];
  sent = [];
  writes = [];
}

abandoned_lem : ReceiverSetup.main taken ([] ∷ (b'8' ∷ b'0' ∷ []) ∷ [] ∷ []) [] ≡ ok abandoned
unfolding ReceiverSetup.main port_of atoll
abandoned_lem = refl

run_receiver-left_open_example : left_open abandoned.calls ≡ 3 ∷ []
unfolding left_open
run_receiver-left_open_example =
    run_receiver-left_open taken [] (b'8' ∷ b'0' ∷ []) [] [] abandoned (ℤ.negsuc 0) abandoned_lem
      refl
