-- ===== src/Transfer/Threads/Delivery.antt =====
-- What both programs come to in the end, with their threads step by step, in terms of the two files.
use reliable_packet_transmis.Base.{
  ℕ, ◌+◌, ◌^◌, ◌≤◌, ◌<◌, ◌≡◌, ◌⊎◌, inl, inr, refl, true, List, length, get_elem?, take, ok, fault,
  Fault, dangling, ok-unique, Option, some, All, All-map, Elem, arith,
}
use reliable_packet_transmis.Packet.{AckPacket}
use reliable_packet_transmis.Receiver.{finished as receiver_finished}
use reliable_packet_transmis.Receiver.Finished as ReceiverFinished
use reliable_packet_transmis.Sender.{FileSource, last_size_of}
use reliable_packet_transmis.Sender.Window.{IsFile}
use reliable_packet_transmis.ReliableSender.{Process, start}
use reliable_packet_transmis.ReliableSender.Handshake.{Round, perform_handshake}
use reliable_packet_transmis.ReliableSender.Greeting.{IsHandshake, HasRoom, perform_handshake_lem}
use reliable_packet_transmis.ReliableSender.Threads as SenderThreads
use reliable_packet_transmis.ReliableSender.Threads.{Action}
use reliable_packet_transmis.ReliableReceiver.Threads as ReceiverThreads
use reliable_packet_transmis.ReliableReceiver.Threads.{Place, Turn}
use reliable_packet_transmis.Receiver.Invariant.{has, chunk_write}
use reliable_packet_transmis.ReliableReceiver.Files as ReceiverFiles
use reliable_packet_transmis.Transfer.{initial}
use reliable_packet_transmis.Transfer as Coarse
use reliable_packet_transmis.Transfer.Invariant.{loaded, IsData, Safe}
use reliable_packet_transmis.Transfer.Safety.{start-Safe, finished-together, acknowledged-received}
use reliable_packet_transmis.Transfer.Content.{
  ReadsFile, byte_at, packets_of, chunk_of, content-IsFile, bytes-packets, file_content,
}
use reliable_packet_transmis.Transfer.Threads.{Whole, IsFrom, IsPossible, ThreadReach, at_start}
use reliable_packet_transmis.Transfer.Threads.Invariant.{IsSafe}
use reliable_packet_transmis.Transfer.Threads.Safety.{Reach-IsSafe, step-only_dangling}

module _ (source : FileSource) (total last_size : ℕ) (chunk : ℕ → List ℕ)
    (file : IsFile source total last_size chunk) where
  greeting-IsData : (limit : ℕ) (d : List ℕ) → IsHandshake d → IsData total chunk limit d
  greeting-IsData limit d h = record {
    packet = h.packet;
    laid_out = h.laid_out;
    sendable = h.sendable;
    kind = inl h.kind;
  }

  pub at_start-IsSafe :
      (p : Process) (greetings : List (List ℕ))
      → Safe total last_size chunk (initial p)
      → All IsHandshake greetings
      → IsSafe source total last_size chunk file (at_start p greetings)
  at_start-IsSafe p greetings v honest = record {
    safe = record {
      sender = v.sender;
      receiver = v.receiver;
      data_wire = All-map IsHandshake _ (greeting-IsData (loaded p.slide_window)) greetings honest;
      ack_wire = tt;
      behind = v.behind;
      ahead = v.ahead;
    };
    sender = record { valid = v.sender; placed = tt; done_finished = λ d. absurd cc };
    receiver = ReceiverFiles.started-IsSound total chunk (omega (arith, file.small));
    prepared = tt;
    held = (tt, (tt, tt));
    carried = (tt, (tt, tt));
  }

module _ (source : FileSource) (content : List ℕ) (timeout bytes : ℕ) (p : Process)
    (old : AckPacket) (rounds : List Round) (greetings : List (List ℕ)) (b : Whole)
    (reads : ReadsFile source content) (positive : 0 < bytes) (held : bytes ≤ length content)
    (fits : bytes ≤ 2 ^ 32) (room : All HasRoom rounds)
    (greeted : perform_handshake old rounds ≡ ok (some timeout, greetings))
    (begun : start source timeout bytes ≡ ok p)
    (run : ThreadReach source (at_start p greetings) b) where
  abbrev pub file : IsFile source (packets_of bytes) (last_size_of bytes) (chunk_of content bytes)
  file = content-IsFile content bytes positive held fits source reads

  pub reached-IsSafe :
      IsSafe source (packets_of bytes) (last_size_of bytes) (chunk_of content bytes) file b
  reached-IsSafe =
      let total = packets_of bytes in
      let chunk = chunk_of content bytes in
      let safe =
        start-Safe source total (last_size_of bytes) chunk file timeout bytes p refl refl
          (bytes-packets content bytes positive held fits) begun in
      let (_, _, _, e, _, honest, _) = perform_handshake_lem old rounds room in
      let all : All IsHandshake greetings =
        ok-unique (λ (o : Option ℕ × List (List ℕ)). All IsHandshake o.1) _ e greeted honest in
      Reach-IsSafe source total (last_size_of bytes) chunk file
        (at_start-IsSafe source total (last_size_of bytes) chunk file p greetings safe all) run

  -- Let the handshake of the sender come to a timeout, let it start to send `bytes` bytes, from 1
  -- to 2 ^ 32, of a regular file that holds at least as many, and let the threads of both
  -- processes run, one step of one thread at a time, while the network loses, delays, reorders and
  -- repeats datagrams, with times that fit a `timeval` and buffers that hold what is laid out in
  -- them. In any state so reached in which `done` is set, or in which a thread of the receiver has
  -- stopped, the receiver has finished, and its file holds the first `bytes` bytes of the
  -- sender's, each at its place, and nothing more.
  pub threads_delivered :
      (b.sending.done ≡ true) ⊎ Elem Place.stopped b.receiving.places
      → (receiver_finished b.receiving.receiver ≡ true)
        × ((pos : ℕ) → byte_at b.receiving.receiver.writes pos ≡ get_elem? (take bytes content) pos)
  threads_delivered over =
      let v = reached-IsSafe in
      let total = packets_of bytes in
      let chunk = chunk_of content bytes in
      let room : total + 400 ≤ 2 ^ 32 = omega (arith, file.small) in
      let finished : receiver_finished b.receiving.receiver ≡ true = elim over [
        | inl done ↦
            (finished-together source total (last_size_of bytes) chunk file v.safe Coarse.here
              (v.sender.done_finished done)).0
        | inr stopped ↦
            ReceiverFiles.stopped-finished total chunk room b.receiving.receiver b.receiving.places
              v.receiver.placed stopped
      ] in
      let (_, honest, every) =
        ReceiverFinished.finished-chunk_writes total chunk room b.receiving.receiver v.safe.receiver
          finished in
      (
        finished,
        file_content content bytes positive held fits b.receiving.receiver.writes honest every,
      )

  -- Let the handshake of the sender come to a timeout, let it start to send `bytes` bytes, from 1
  -- to 2 ^ 32, of a regular file that holds at least as many, and let the threads of both
  -- processes run, one step of one thread at a time, while the network loses, delays, reorders and
  -- repeats datagrams, with times that fit a `timeval` and buffers that hold what is laid out in
  -- them. In any state so reached every step of the receiver goes through, with any datagram of
  -- the network; and if a step of the sender fails, with any datagram of the network, then the
  -- cause is an access to a deleted object.
  pub threads-only_dangling :
      ((turn : Turn)
        → IsFrom b.to_receiver turn.event
        → (o : ReceiverThreads.Threads × List (List ℕ)) × (ReceiverThreads.perform turn b.receiving
            ≡ ok o))
      × ((action : Action) (why : Fault)
          → IsPossible b.to_sender action
          → SenderThreads.perform source action b.sending ≡ fault why
          → why ≡ dangling)
  threads-only_dangling =
      step-only_dangling source (packets_of bytes) (last_size_of bytes) (chunk_of content bytes)
        file b reached-IsSafe

  -- Let the handshake of the sender come to a timeout, let it start to send `bytes` bytes, from 1
  -- to 2 ^ 32, of a regular file that holds at least as many, and let the threads of both
  -- processes run, one step of one thread at a time, while the network loses, delays, reorders and
  -- repeats datagrams, with times that fit a `timeval` and buffers that hold what is laid out in
  -- them. In any state so reached the receiver has every packet left of the sender's window, and
  -- has written it at its place.
  pub threads-acknowledged :
      (k : ℕ)
      → k < b.sending.process.slide_window.slide_window_left_bound_seq_num
      → (has b.receiving.receiver k ≡ true)
        × Elem (chunk_write (chunk_of content bytes) k) b.receiving.receiver.writes
  threads-acknowledged =
      acknowledged-received source (packets_of bytes) (last_size_of bytes) (chunk_of content bytes)
        file reached-IsSafe.safe Coarse.here
