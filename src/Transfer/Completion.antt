-- ===== src/Transfer/Completion.antt =====
-- What it means that src/reliable_sender.cpp returns 0.
use reliable_packet_transmis.Base.{
  ℕ, ◌^◌, ◌≤◌, ◌<◌, ◌≡◌, ◌⊎◌, ◌≢◌, inl, inr, refl, sym, ap, ◌∙◌, subst, Bool, true, ◌&&◌,
  Bool-cases, List, [], ◌∷◌, ◌++◌, length, Option, some, none, ok, OnOk, OnOk-ok, OnOk-self,
  >>=-OnOk, OrDangling-ok, arith,
}
use reliable_packet_transmis.System.{
  ℤ, SockaddrIn, Call, Answers, is_negative, port_of, htons, inaddr_any,
}
use reliable_packet_transmis.System.Arguments.{decimal, atoll-decimal}
use reliable_packet_transmis.Sender.{FileSource, finished, last_size_of}
use reliable_packet_transmis.Sender.Invariant.{IsValid}
use reliable_packet_transmis.ReliableSender.{Process, start}
use reliable_packet_transmis.ReliableSender.Handshake.{perform_handshake}
use reliable_packet_transmis.ReliableSender.Threads.{Sending, Threads, started, run}
use reliable_packet_transmis.ReliableSender.Schedule.{IsSchedule, IsPlaced}
use reliable_packet_transmis.ReliableSender.Sound.{IsSound}
use reliable_packet_transmis.ReliableSender.SoundRuns.{runs_safely, done-acknowledged}
use reliable_packet_transmis.ReliableSender.Setup.{
  Events, Execution, sender_stopped, joined, transfer, after_setup, reliably_transfer, main,
  create_file_to_send_fd, create_transfer_socket,
}
use reliable_packet_transmis.Transfer.Safety.{start-Safe}
use reliable_packet_transmis.Transfer.Content.{
  ReadsFile, packets_of, chunk_of, content-IsFile, bytes-packets,
}

stopped_sender : (place : Sending) → sender_stopped place ≡ true → place ≡ Sending.stopped
stopped_sender Sending.testing h = absurd cc
stopped_sender Sending.asking h = absurd cc
stopped_sender Sending.asking_finished h = absurd cc
stopped_sender Sending.falling_asleep h = absurd cc
stopped_sender Sending.asleep h = absurd cc
stopped_sender Sending.bursting h = absurd cc
stopped_sender Sending.preparing h = absurd cc
stopped_sender (Sending.sending packets) h = absurd cc
stopped_sender Sending.stopped h = refl

joined_sender : (t : Threads) → joined (some t) ≡ true → t.sender ≡ Sending.stopped
unfolding joined
joined_sender t h = stopped_sender t.sender (first _ _ h)
  where
    first : (a b : Bool) → (a && b) ≡ true → a ≡ true
    first a b h = ground arith

module _ (source : FileSource) (content : List ℕ) (bytes timeout : ℕ) (p : Process)
    (events : Events) (greetings : List (List ℕ)) (reads : ReadsFile source content)
    (positive : 0 < bytes) (held : bytes ≤ length content) (fits : bytes ≤ 2 ^ 32)
    (greeted : perform_handshake events.old events.rounds ≡ ok (some timeout, greetings))
    (begun : start source timeout bytes ≡ ok p)
    (schedule : IsSchedule source events.actions (started p)) where
  -- The threads have run to where everything is acknowledged.
  IsComplete : List (List ℕ) → Type 0
  IsComplete datagrams =
      (t : Threads) × (sent : List (List ℕ)) × (run source events.actions (started p)
        ≡ ok (t, sent))
      × (datagrams ≡ greetings ++ sent)
      × (finished t.process.slide_window ≡ true)
      × (t.process.slide_window.slide_window_left_bound_seq_num ≡ packets_of bytes)

  started-IsValid :
      IsValid (packets_of bytes) (last_size_of bytes) (chunk_of content bytes) p.slide_window
  started-IsValid =
      (start-Safe source (packets_of bytes) (last_size_of bytes) (chunk_of content bytes)
        (content-IsFile content bytes positive held fits source reads) timeout bytes p refl refl
        (bytes-packets content bytes positive held fits) begun).sender

  stopped-IsComplete :
      (t : Threads) (sent : List (List ℕ))
      → run source events.actions (started p) ≡ ok (t, sent)
      → joined (some t) ≡ true
      → IsComplete (greetings ++ sent)
  unfolding IsComplete
  stopped-IsComplete t sent e over =
      let file = content-IsFile content bytes positive held fits source reads in
      let total = packets_of bytes in
      let chunk = chunk_of content bytes in
      let sound : IsSound source total (last_size_of bytes) chunk file t =
        OrDangling-ok
          (λ (o : Threads × List (List ℕ)).
            IsSound source total (last_size_of bytes) chunk file o.0)
          _ e
          (runs_safely source total (last_size_of bytes) chunk file p events.actions started-IsValid
            schedule) in
      let done : t.done ≡ true =
        subst (λ place. IsPlaced place t.done) (joined_sender t over) sound.placed in
      let (_, finished, left) =
        done-acknowledged source total (last_size_of bytes) chunk file p events.actions
          started-IsValid schedule t sent e done in
      (t, sent, e, refl, finished, left)

  -- Where the threads end.
  IsEnd : Option Threads × List (List ℕ) → Type 0
  IsEnd o =
      (t : Threads) × (sent : List (List ℕ)) × (run source events.actions (started p)
        ≡ ok (t, sent))
      × (o ≡ (some t, greetings ++ sent))

  transfer-IsEnd : OnOk IsEnd (transfer source bytes events)
  unfolding IsEnd transfer
  transfer-IsEnd =
      rw (greeted, begun)
        (>>=-OnOk (λ (o : Threads × List (List ℕ)). run source events.actions (started p) ≡ ok o)
          IsEnd (run source events.actions (started p)) _
          (OnOk-self (run source events.actions (started p))) (λ o e. (o.0, o.1, e, refl)))

  -- The program has not returned 0, or everything is acknowledged.
  IsDone : Execution → Type 0
  IsDone e = (e.code ≢ some (ℤ.pos 0)) ⊎ IsComplete e.sent

  not_zero : some (ℤ.negsuc 0) ≢ some (ℤ.pos 0)
  not_zero e = absurd cc

  waiting : (code : ℤ) → none ≢ some code
  waiting code e = absurd cc

  after_setup-IsDone :
      (f s : ℤ) (address : SockaddrIn) (calls : List Call)
      → OnOk IsDone (after_setup f s address calls source bytes events)
  unfolding IsDone IsEnd after_setup
  after_setup-IsDone f s address calls =
      >>=-OnOk IsEnd IsDone (transfer source bytes events) _ transfer-IsEnd (λ o (t, sent, e, same).
        elim (Bool-cases (joined (some t))) [
          | inl over ↦ rw (same, over) (inr (stopped-IsComplete t sent e over))
          | inr going ↦ rw (same, going) (inl (waiting (ℤ.pos 0)))
        ])

  reliably_transfer-IsDone :
      (presented : List ℕ → ℕ → ℤ × ℕ) (answers : Answers) (host : List ℕ) (port : ℕ)
      (path : List ℕ)
      → OnOk IsDone (reliably_transfer presented answers host port path source bytes events)
  unfolding IsDone reliably_transfer
  reliably_transfer-IsDone presented answers host port path =
      let file = create_file_to_send_fd answers path in
      let binding = create_transfer_socket answers port in
      elim (Bool-cases (is_negative (presented host inaddr_any).0)) [
        | inl refused ↦ rw refused (inl not_zero)
        | inr asked ↦ elim (Bool-cases (is_negative file.0)) [
          | inl missing ↦ rw (asked, missing) (inl not_zero)
          | inr opened ↦ elim (Bool-cases (is_negative binding.0)) [
            | inl unbound ↦ rw (asked, opened, unbound) (inl not_zero)
            | inr bound ↦
                rw (asked, opened, bound)
                  (after_setup-IsDone file.0 binding.0
                    (record { sin_port = htons port; sin_addr = (presented host inaddr_any).1 })
                    ((Call.inet_pton host (presented host inaddr_any).0 ∷ [])
                      ++ file.1
                      ++ binding.1))
          ]
        ]
      ]

  -- Let `main` of the sender be run with four arguments, of which the last is the decimal form of
  -- a number of bytes from 1 to 2 ^ 32 that the regular file to be read holds; let the handshake
  -- come to a timeout, let the window and the estimator be made from it, and let the schedule of
  -- the threads bring times that fit a `timeval`, buffers of a packet's size, and no ACK beyond
  -- what was loaded. If `main` returns 0, then the schedule has run to its end, the datagrams of
  -- the handshake and those of the threads are what was sent, the transfer has finished, and all
  -- packets of the file are acknowledged.
  pub main-transferred :
      (presented : List ℕ → ℕ → ℤ × ℕ) (answers : Answers) (name host port path : List ℕ)
      (e : Execution)
      → main presented answers (name ∷ host ∷ port ∷ path ∷ decimal bytes ∷ []) source events ≡ ok e
      → e.code ≡ some (ℤ.pos 0)
      → (t : Threads) × (sent : List (List ℕ)) × (run source events.actions (started p)
          ≡ ok (t, sent))
        × (e.sent ≡ greetings ++ sent)
        × (finished t.process.slide_window ≡ true)
        × (t.process.slide_window.slide_window_left_bound_seq_num ≡ packets_of bytes)
  unfolding main IsDone IsComplete
  main-transferred presented answers name host port path e runs returns =
      let (_, count, _) = atoll-decimal bytes (omega arith) in
      let ends : reliably_transfer presented answers host (port_of port) path source bytes events
          ≡ ok e =
        ap (λ n. reliably_transfer presented answers host (port_of port) path source n events)
          (sym count)
        ∙ runs in
      elim (OnOk-ok IsDone _ ends
        (reliably_transfer-IsDone presented answers host (port_of port) path)) [
          | inl other ↦ absurd (other returns)
          | inr complete ↦ complete
        ]
