-- ===== src/ReliableReceiver/ThreadExamples.antt =====
-- The threads of src/reliable_receiver.cpp at concrete values.
use reliable_packet_transmis.Base.{
  ℕ, ◌≤◌, ◌≡◌, refl, true, List, [], ◌∷◌, ◌++◌, none, some, ok, OnOk, OnOk-ok, length, All,
  All-append, Elem, arith,
}
use reliable_packet_transmis.System.{ℤ, Answers}
use reliable_packet_transmis.Packet.{
  DataType, data_packet_size, read_buffer_data_packet, word_bytes, timeval_bytes,
  fill_buffer_ack_packet,
}
use reliable_packet_transmis.ReliableReceiver.{send_ack}
use reliable_packet_transmis.Packet.DataRoundTrip.{data_datagram}
use reliable_packet_transmis.Receiver.{finished, init, receive_data_packet, new_items}
use reliable_packet_transmis.Receiver.Invariant.{IsInPlace}
use reliable_packet_transmis.Receiver.Examples.{three_bytes, packet_at}
use reliable_packet_transmis.ReliableReceiver.Examples.{
  finish, greeting, regular-IsFromSender, finish-IsFromSender, greeting-IsFromSender,
}
use reliable_packet_transmis.ReliableReceiver.Loop.{IsEvent}
use reliable_packet_transmis.ReliableReceiver.Threads.{Threads, Turn, started, run}
use reliable_packet_transmis.ReliableReceiver.Rounds.{serve}
use reliable_packet_transmis.ReliableReceiver.Serial.{datagrams, interleaved-serial}
use reliable_packet_transmis.ReliableReceiver.Files.{threads-received}
use reliable_packet_transmis.ReliableReceiver.Stopping.{last_turns}
use reliable_packet_transmis.ReliableReceiver.Completion.{main-received, main-ends}
use reliable_packet_transmis.ReliableReceiver.Setup.{Execution, main}

abbrev turn : ℕ → Turn
turn i = record { thread = i; event = none }

abbrev hears : ℕ → List ℕ → Turn
hears i datagram = record { thread = i; event = some datagram }

-- Packet 0 is read before the last one and stored after it; packet 1 completes the file while the other
-- thread answers a handshake.
abbrev crossing : List Turn
crossing =
    turn 0
    ∷ turn 1
    ∷ hears 0 (data_datagram (packet_at DataType.regular 0))
    ∷ hears 1 (data_datagram finish)
    ∷ turn 1
    ∷ turn 0
    ∷ turn 0
    ∷ turn 1
    ∷ turn 0
    ∷ hears 0 (data_datagram (packet_at DataType.regular 1))
    ∷ turn 1
    ∷ hears 1 (data_datagram greeting)
    ∷ turn 0
    ∷ turn 1
    ∷ []

crossing-IsEvent : All (λ turn. IsEvent 3 three_bytes turn.event) crossing
crossing-IsEvent = (
  tt,
  (
    tt,
    (
      regular-IsFromSender 0 (omega arith),
      (
        finish-IsFromSender,
        (
          tt,
          (
            tt,
            (
              tt,
              (
                tt,
                (
                  tt,
                  (
                    regular-IsFromSender 1 (omega arith),
                    (tt, (greeting-IsFromSender, (tt, (tt, tt)))),
                  ),
                ),
              ),
            ),
          ),
        ),
      ),
    ),
  ),
)

abbrev Finishes : Threads × List (List ℕ) → Type 0
Finishes o = finished o.0.receiver ≡ true

crossing-Finishes : OnOk Finishes (run crossing (started init))
unfolding run finished init data_datagram read_buffer_data_packet word_bytes timeval_bytes
    receive_data_packet new_items send_ack fill_buffer_ack_packet
crossing-Finishes = refl

crossing-short : All (λ datagram. length datagram ≤ data_packet_size) (datagrams crossing)
unfolding data_datagram word_bytes timeval_bytes
crossing-short = (omega arith, (omega arith, (omega arith, (omega arith, tt))))

abbrev IsReached : Type 0
IsReached =
    (t : Threads) × (sent : List (List ℕ)) × (run crossing (started init) ≡ ok (t, sent))
    × (finished t.receiver ≡ true)

reached : IsReached
reached =
    let (t, sent, e, _, _) =
      threads-received 3 three_bytes (omega arith) crossing crossing-IsEvent in
    (t, sent, e, OnOk-ok Finishes _ e crossing-Finishes)

interleaved-serial_example :
    (taken : List (List ℕ)) × (answers : List (List ℕ)) × (serve init taken
      ≡ ok (reached.0.receiver, answers))
    × All (λ datagram. Elem datagram (datagrams crossing)) taken
    × All (λ datagram. Elem datagram answers) reached.1
interleaved-serial_example =
    interleaved-serial init crossing crossing-short reached.0 reached.1 reached.2

ended-IsEvent : All (λ turn. IsEvent 3 three_bytes turn.event) (crossing ++ last_turns)
ended-IsEvent =
    All-append (λ turn. IsEvent 3 three_bytes turn.event) crossing last_turns crossing-IsEvent
      (tt, (tt, (tt, (tt, (tt, (tt, tt))))))

abbrev port : List ℕ
port = b'8' ∷ b'0' ∷ []

abbrev open_all : Answers
open_all = record { opened = ℤ.pos 3; created = ℤ.pos 4; bound = ℤ.pos 0 }

main-ends_example :
    (e : Execution) × (main open_all ([] ∷ port ∷ [] ∷ []) (crossing ++ last_turns) ≡ ok e)
    × (e.code ≡ some (ℤ.pos 0))
    × IsInPlace 3 three_bytes e.writes
main-ends_example =
    main-ends 3 three_bytes (omega arith) crossing crossing-IsEvent 3 4 0 [] port [] reached.0
      reached.1 reached.2 reached.3

abbrev IsEnded : Type 0
IsEnded =
    (e : Execution) × (main open_all ([] ∷ port ∷ [] ∷ []) (crossing ++ last_turns) ≡ ok e)
    × (e.code ≡ some (ℤ.pos 0))

ended : IsEnded
ended =
    let (e, returns, code, _) =
      main-ends 3 three_bytes (omega arith) crossing crossing-IsEvent 3 4 0 [] port [] reached.0
        reached.1 reached.2 reached.3 in
    (e, returns, code)

main-received_example : IsInPlace 3 three_bytes ended.0.writes
main-received_example =
    main-received 3 three_bytes (omega arith) (crossing ++ last_turns) ended-IsEvent open_all []
      port [] ended.0 ended.1 ended.2
