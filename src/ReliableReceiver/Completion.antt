-- ===== src/ReliableReceiver/Completion.antt =====
-- What it means that src/reliable_receiver.cpp returns 0, and that it does once it has finished.
use reliable_packet_transmis.Base.{
  ℕ, ◌+◌, ◌-◌, ◌*◌, ◌^◌, ◌≤◌, ◌<◌, ◌≡◌, refl, subst, Bool, true, ◌&&◌, Bool-cases, inl, inr, List,
  [], ◌∷◌, ◌++◌, some, ok, OnOk, OnOk-ok, length, All, arith,
}
use reliable_packet_transmis.Packet.{data_packet_data_size}
use reliable_packet_transmis.System.{ℤ, Call, Answers, port_of}
use reliable_packet_transmis.Receiver.{finished, init}
use reliable_packet_transmis.Receiver.Invariant.{IsInPlace}
use reliable_packet_transmis.Receiver.Finished.{finished-writes}
use reliable_packet_transmis.ReliableReceiver.Loop.{IsEvent}
use reliable_packet_transmis.ReliableReceiver.Threads.{
  Place, Threads, Turn, started, run, has_stopped, all_stopped,
}
use reliable_packet_transmis.ReliableReceiver.Files.{IsPlaced, IsSound, run-Goes, started-IsSound}
use reliable_packet_transmis.ReliableReceiver.Stopping.{last_turns, finished-stops}
use reliable_packet_transmis.ReliableReceiver.Setup.{
  create_file_to_write_fd, create_transfer_socket, Execution, after_setup, run_receiver, main,
}

has_stopped-stopped : (place : Place) → has_stopped place ≡ true → place ≡ Place.stopped
has_stopped-stopped Place.testing h = absurd cc
has_stopped-stopped Place.listening h = absurd cc
has_stopped-stopped (Place.storing received packet) h = absurd cc
has_stopped-stopped (Place.answering received ack) h = absurd cc
has_stopped-stopped Place.stopped h = refl

module _ (total : ℕ) (chunk : ℕ → List ℕ)
    (unwrapped : data_packet_data_size * (total - 1) < 2 ^ 32) where
  room : total + 400 ≤ 2 ^ 32
  room = omega arith

  joined-finished :
      (t : Threads)
      → IsSound total chunk t
      → all_stopped t.places ≡ true
      → finished t.receiver ≡ true
  joined-finished t v h = of_first t.places v.two v.placed h
    where
      first : (a b : Bool) → (a && b) ≡ true → a ≡ true
      first a b h = ground arith

      of_first :
          (places : List Place)
          → length places ≡ 2
          → All (IsPlaced total chunk t.receiver) places
          → all_stopped places ≡ true
          → finished t.receiver ≡ true
      of_first [] two placed h = absurd (omega arith)
      of_first (place ∷ places) two placed h =
          let e = has_stopped-stopped place (first _ _ h) in
          subst (IsPlaced total chunk t.receiver) e placed.0

  joined-IsInPlace :
      (t : Threads)
      → IsSound total chunk t
      → finished t.receiver ≡ true
      → IsInPlace total chunk t.receiver.writes
  joined-IsInPlace t v f = finished-writes total chunk t.receiver unwrapped v.valid f

  module _ (turns : List Turn) (d : All (λ turn. IsEvent total chunk turn.event) turns) where
    abbrev Receives : Execution → Type 0
    Receives e = e.code ≡ some (ℤ.pos 0) → IsInPlace total chunk e.writes

    after_setup-Receives :
        (file_fd socket_fd : ℤ) (calls : List Call)
        → OnOk Receives (after_setup file_fd socket_fd calls turns)
    unfolding after_setup
    after_setup-Receives file_fd socket_fd calls =
        let (o, e, v) =
          run-Goes total chunk room turns (started init) (started-IsSound total chunk room) d in
        rw e (elim (Bool-cases (all_stopped o.0.places)) [
          | inl over ↦ rw over (λ _. joined-IsInPlace o.0 v (joined-finished o.0 v over))
          | inr waits ↦ rw waits (λ h. absurd cc)
        ])

    abbrev calls_before : Answers → ℕ → List ℕ → List Call
    calls_before answers port path =
        (create_file_to_write_fd answers path).1 ++ (create_transfer_socket answers port).1

    run_receiver-Receives :
        (opened created bound : ℤ) (port : ℕ) (path : List ℕ)
        → let answers : Answers = record { opened = opened; created = created; bound = bound } in
          OnOk Receives (run_receiver answers port path turns)
    unfolding run_receiver
    run_receiver-Receives (ℤ.negsuc n) created bound port path = λ h. absurd cc
    run_receiver-Receives (ℤ.pos f) (ℤ.negsuc n) bound port path = λ h. absurd cc
    run_receiver-Receives (ℤ.pos f) (ℤ.pos s) (ℤ.negsuc n) port path = λ h. absurd cc
    run_receiver-Receives (ℤ.pos f) (ℤ.pos s) (ℤ.pos b) port path =
        after_setup-Receives (ℤ.pos f) (ℤ.pos s)
          (calls_before (record { opened = ℤ.pos f; created = ℤ.pos s; bound = ℤ.pos b }) port path)

    -- Let the two threads of the receiver of a file, whose last packet begins below 2 ^ 32 bytes,
    -- run in any order, step by step, and let each datagram that they get be one that the sender
    -- of the file makes. If `main` of the receiver, run with two arguments, returns 0, then it has
    -- written as many pieces as the file has packets, each of them some packet's bytes at 1450
    -- times its number, and every packet's among them.
    pub main-received :
        (answers : Answers) (name port path : List ℕ) (e : Execution)
        → main answers (name ∷ port ∷ path ∷ []) turns ≡ ok e
        → e.code ≡ some (ℤ.pos 0)
        → IsInPlace total chunk e.writes
    unfolding main
    main-received answers name port path e runs returns =
        OnOk-ok Receives _ runs
          (run_receiver-Receives answers.opened answers.created answers.bound (port_of port) path)
          returns

    after_setup-ends :
        (file_fd socket_fd : ℤ) (calls : List Call) (t : Threads) (sent : List (List ℕ))
        → run turns (started init) ≡ ok (t, sent)
        → finished t.receiver ≡ true
        → (e : Execution) × (after_setup file_fd socket_fd calls (turns ++ last_turns) ≡ ok e)
          × (e.code ≡ some (ℤ.pos 0))
          × IsInPlace total chunk e.writes
    unfolding after_setup
    after_setup-ends file_fd socket_fd calls t sent runs over =
        let (t', more, r, all, last, v) =
          finished-stops total chunk room turns d t sent runs over in
        (
          record {
            code = some (ℤ.pos 0);
            calls = calls ++ (Call.close file_fd ∷ Call.close socket_fd ∷ []);
            sent = sent ++ more;
            writes = t'.receiver.writes;
          },
          rw (r, all) refl,
          refl,
          joined-IsInPlace t' v last,
        )

    -- Let the two threads of such a receiver have come, in any order of their steps and with
    -- datagrams of the sender, to where the receiver has finished. If the file can be opened and
    -- the socket made and bound, then three further turns of each thread, in which `recvfrom`
    -- times out, let `main` return 0, and the file that it has written is complete: as many pieces
    -- as packets, each of them some packet's bytes at 1450 times its number, and every packet's
    -- among them.
    pub main-ends :
        (f s b : ℕ) (name port path : List ℕ) (t : Threads) (sent : List (List ℕ))
        → run turns (started init) ≡ ok (t, sent)
        → finished t.receiver ≡ true
        → let answers : Answers = record { opened = ℤ.pos f; created = ℤ.pos s; bound = ℤ.pos b } in
          (e : Execution) × (main answers (name ∷ port ∷ path ∷ []) (turns ++ last_turns) ≡ ok e)
          × (e.code ≡ some (ℤ.pos 0))
          × IsInPlace total chunk e.writes
    unfolding main run_receiver
    main-ends f s b name port path t sent runs over =
        let answers : Answers = record { opened = ℤ.pos f; created = ℤ.pos s; bound = ℤ.pos b } in
        let (e, returns, code, whole) =
          after_setup-ends (ℤ.pos f) (ℤ.pos s) (calls_before answers (port_of port) path) t sent
            runs over in
        (e, returns, code, whole)
