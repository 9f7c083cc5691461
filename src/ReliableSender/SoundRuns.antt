-- ===== src/ReliableSender/SoundRuns.antt =====
-- That the steps of `receiveAck` and `checkTimeout` of src/reliable_sender.cpp keep what holds of the
-- threads, and what a whole schedule leads to.
use reliable_packet_transmis.Base.{
  ℕ, ◌≡◌, refl, ◌∙◌, true, ◌==◌, Bool-cases, inl, inr, List, [], ◌∷◌, Option, some, none, get_elem?,
  length, OrDangling, >>=-OrDangling, OrDangling-ok, OrDangling-fault, ok, fault, Fault, dangling,
  assertion, out_of_bounds, ◌≢◌, OnOk-ok,
}
use reliable_packet_transmis.Packet.{
  AckPacket, AckType, Timeval, ack_packet_size, read_buffer_ack_packet,
}
use reliable_packet_transmis.Rtt.Bounds.{ack_arrived-regular}
use reliable_packet_transmis.Sender.{Sender, FileSource, finished, has_data_to_send}
use reliable_packet_transmis.Sender.Ack
use reliable_packet_transmis.Sender.Window.{IsFile}
use reliable_packet_transmis.Sender.Invariant.{IsValid}
use reliable_packet_transmis.Sender.Expiry.{check_timeout_lem}
use reliable_packet_transmis.Sender.Start.{finished_iff_acked}
use reliable_packet_transmis.Sender.Timeout
use reliable_packet_transmis.ReliableSender.{Process}
use reliable_packet_transmis.ReliableSender.Threads.{
  Receiving, Timing, Threads, Action, Outcome, started, perform, run, on_reception, on_ack,
  receive_step, timer_step,
}
use reliable_packet_transmis.ReliableSender.Schedule.{
  IsInWindow, IsAllowed, IsSchedule, woken-IsPlaced,
}
use reliable_packet_transmis.ReliableSender.Sound.{
  IsSound, After, Keeps, same_left-Keeps, Keeps-IsSound, moved-IsSound, if-After, send_step-After,
  ack_arrived-Keeps,
}

module _ (source : FileSource) (total last_size : ℕ) (chunk : ℕ → List ℕ)
    (file : IsFile source total last_size chunk) where
  abbrev pub Safe : Threads → Type 0
  Safe = IsSound source total last_size chunk file

  abbrev pub Leads : Outcome → Type 0
  Leads = After source total last_size chunk file

  on_ack-After :
      (type : AckType) (i : ℕ) (ack : AckPacket)
      → ack.type ≡ type
      → (now : Timeval) (t : Threads) → Safe t
      → Leads (on_ack type i ack now t)
  unfolding on_ack
  on_ack-After AckType.regular i ack regular now t v =
      rw (ack_arrived-regular t.process.rtt_estimator ack now regular)
        (Keeps-IsSound source total last_size chunk file t _ v (v.valid, λ f. f) v.placed refl)
  on_ack-After AckType.invalid i ack other now t v =
      moved-IsSound source total last_size chunk file t _ v refl v.placed refl
  on_ack-After AckType.handshake i ack other now t v =
      moved-IsSound source total last_size chunk file t _ v refl v.placed refl

  on_reception-After :
      (i : ℕ) (old : AckPacket) (received : Option (List ℕ)) (now : Timeval) (t : Threads)
      → Safe t
      → Leads (on_reception i old received now t)
  unfolding on_reception read_buffer_ack_packet
  on_reception-After i old none now t v =
      moved-IsSound source total last_size chunk file t _ v refl v.placed refl
  on_reception-After i old (some received) now t v =
      elim (Bool-cases (length received == ack_packet_size)) [
        | inl sized ↦ rw sized (on_ack-After _ i _ refl now t v)
        | inr other ↦
            rw other (moved-IsSound source total last_size chunk file t _ v refl v.placed refl)
      ]

  receive_step-After :
      (place : Option Receiving) (i : ℕ) (old : AckPacket) (received : Option (List ℕ))
      (now : Timeval) (t : Threads)
      → IsInWindow place t.process.slide_window
      → Safe t
      → Leads (receive_step source place i old received now t)
  unfolding receive_step
  receive_step-After none i old received now t within v = v
  receive_step-After (some Receiving.testing) i old received now t within v =
      if-After source total last_size chunk file t.done _ _
        (moved-IsSound source total last_size chunk file t _ v refl v.placed refl)
        (moved-IsSound source total last_size chunk file t _ v refl v.placed refl)
  receive_step-After (some Receiving.listening) i old received now t within v =
      on_reception-After i old received now t v
  receive_step-After (some (Receiving.accepting ack)) i old received now t within v =
      >>=-OrDangling (Keeps source total last_size chunk file t.process.slide_window)
        (λ (o : Threads × List (List ℕ)). Safe o.0)
        (Ack.ack_arrived source t.process.slide_window ack) _
        (ack_arrived-Keeps source total last_size chunk file t.process.slide_window ack v.valid
          within)
        (λ s e k. Keeps-IsSound source total last_size chunk file t _ v k v.placed refl)
  receive_step-After (some Receiving.deciding) i old received now t within v =
      if-After source total last_size chunk file (has_data_to_send t.process.slide_window) _ _
        (moved-IsSound source total last_size chunk file t _ v refl v.placed refl)
        (moved-IsSound source total last_size chunk file t _ v refl v.placed refl)
  receive_step-After (some Receiving.deciding_finished) i old received now t within v =
      if-After source total last_size chunk file (finished t.process.slide_window) _ _
        (moved-IsSound source total last_size chunk file t _ v refl v.placed refl)
        (moved-IsSound source total last_size chunk file t _ v refl v.placed refl)
  receive_step-After (some Receiving.notifying) i old received now t within v =
      moved-IsSound source total last_size chunk file t _ v refl
        (woken-IsPlaced t.sender t.done v.placed) refl
  receive_step-After (some Receiving.stopped) i old received now t within v = v

  check_timeout-Keeps :
      (s : Sender) (threshold : ℕ) (now : Timeval)
      → IsValid total last_size chunk s
      → Keeps source total last_size chunk file s (Timeout.check_timeout s threshold now)
  check_timeout-Keeps s threshold now v =
      let (valid, left, _, _) =
        check_timeout_lem total last_size chunk file.small s threshold now v in
      same_left-Keeps source total last_size chunk file s _ v valid (λ e. left ∙ e)

  timer_step-After :
      (place : Timing) (now : Timeval) (t : Threads) → Safe t → Leads (timer_step place now t)
  unfolding timer_step
  timer_step-After Timing.testing now t v =
      if-After source total last_size chunk file t.done _ _
        (moved-IsSound source total last_size chunk file t _ v refl v.placed refl)
        (moved-IsSound source total last_size chunk file t _ v refl v.placed refl)
  timer_step-After Timing.measuring now t v =
      moved-IsSound source total last_size chunk file t _ v refl v.placed refl
  timer_step-After (Timing.expiring threshold) now t v =
      Keeps-IsSound source total last_size chunk file t _ v
        (check_timeout-Keeps t.process.slide_window threshold now v.valid) v.placed refl
  timer_step-After Timing.deciding now t v =
      if-After source total last_size chunk file (has_data_to_send t.process.slide_window) _ _
        (moved-IsSound source total last_size chunk file t _ v refl v.placed refl)
        (moved-IsSound source total last_size chunk file t _ v refl v.placed refl)
  timer_step-After Timing.notifying now t v =
      moved-IsSound source total last_size chunk file t _ v refl
        (woken-IsPlaced t.sender t.done v.placed) refl
  timer_step-After Timing.stopped now t v = v

  pub perform-After :
      (action : Action) (t : Threads)
      → IsAllowed action t
      → Safe t
      → Leads (perform source action t)
  unfolding perform
  perform-After (Action.send now buffer) t allowed v =
      send_step-After source total last_size chunk file t.sender now buffer t allowed.0 allowed.1
        v.placed v
  perform-After (Action.receive i old received now) t allowed v =
      receive_step-After (get_elem? t.receivers i) i old received now t allowed v
  perform-After (Action.time now) t allowed v = timer_step-After t.timer now t v
  perform-After Action.spurious t allowed v =
      moved-IsSound source total last_size chunk file t _ v refl
        (woken-IsPlaced t.sender t.done v.placed) refl

  run-After :
      (actions : List Action) (t : Threads)
      → IsSchedule source actions t
      → Safe t
      → Leads (run source actions t)
  unfolding run
  run-After [] t schedule v = v
  run-After (action ∷ actions) t schedule v =
      >>=-OrDangling (λ (o : Threads × List (List ℕ)). Safe o.0)
        (λ (o : Threads × List (List ℕ)). Safe o.0) (perform source action t) _
        (perform-After action t schedule.0 v)
        (λ o e h.
          >>=-OrDangling (λ (o' : Threads × List (List ℕ)). Safe o'.0)
            (λ (o' : Threads × List (List ℕ)). Safe o'.0) (run source actions o.0) _
            (run-After actions o.0
              (OnOk-ok (λ (o : Threads × List (List ℕ)). IsSchedule source actions o.0) _ e
                schedule.1)
              h)
            (λ o' e' h'. h'))

module _ (source : FileSource) (total last_size : ℕ) (chunk : ℕ → List ℕ)
    (file : IsFile source total last_size chunk) (p : Process) (actions : List Action)
    (v : IsValid total last_size chunk p.slide_window)
    (schedule : IsSchedule source actions (started p)) where
  pub runs_safely :
      OrDangling
        (λ (o : Threads × List (List ℕ)). IsSound source total last_size chunk file o.0)
        (run source actions (started p))
  runs_safely =
      run-After source total last_size chunk file actions (started p) schedule
        (record { valid = v; placed = tt; done_finished = λ f. absurd cc })

  -- Let the four threads of the sender of a file of at most 2 ^ 30 packets run, in any order, step
  -- by step, from a valid window, with any datagrams and losses and with spurious wake-ups, but
  -- with times that fit a `timeval`, buffers of a packet's size, and no ACK handed to the window
  -- that promises more than was loaded. If they come to a state in which `done` is set, then in it
  -- the window is valid, the transfer has finished, and all packets are acknowledged.
  pub done-acknowledged :
      (t : Threads) (sent : List (List ℕ))
      → run source actions (started p) ≡ ok (t, sent)
      → t.done ≡ true
      → IsValid total last_size chunk t.process.slide_window
        × (finished t.process.slide_window ≡ true)
        × (t.process.slide_window.slide_window_left_bound_seq_num ≡ total)
  done-acknowledged t sent e d =
      let h =
        OrDangling-ok
          (λ (o : Threads × List (List ℕ)). IsSound source total last_size chunk file o.0) _ e
          runs_safely in
      let over = h.done_finished d in
      (
        h.valid,
        over,
        (finished_iff_acked source total last_size chunk file t.process.slide_window h.valid).0
            over,
      )

  fault_is_dangling : (why : Fault) → run source actions (started p) ≡ fault why → why ≡ dangling
  fault_is_dangling why e =
      OrDangling-fault
        (λ (o : Threads × List (List ℕ)). IsSound source total last_size chunk file o.0) _ why e
        runs_safely

  -- Under the same conditions on a schedule of the four threads, no assertion fails and no buffer
  -- or deque is left: if a schedule does not go through to its end, the cause is an access to a
  -- deleted object.
  pub run-only_dangling :
      (run source actions (started p) ≢ fault assertion)
      × (run source actions (started p) ≢ fault out_of_bounds)
  run-only_dangling = (
    λ e. assertion_differs (fault_is_dangling assertion e),
    λ e. out_of_bounds_differs (fault_is_dangling out_of_bounds e),
  )
    where
      assertion_differs : assertion ≢ dangling
      assertion_differs e = absurd cc

      out_of_bounds_differs : out_of_bounds ≢ dangling
      out_of_bounds_differs e = absurd cc
