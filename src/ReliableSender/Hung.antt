-- ===== src/ReliableSender/Hung.antt =====
-- What stays as it is in src/reliable_sender.cpp when the sending thread waits on `condVar` after the
-- transfer has finished.
use reliable_packet_transmis.Base.{
  ℕ, ◌≡◌, ◌≢◌, refl, ◌∙◌, true, false, List, [], ◌∷◌, Option, some, none, get_elem?, All, All-get,
  All-set, set, ok,
}
use reliable_packet_transmis.Packet.{AckPacket, Timeval}
use reliable_packet_transmis.Rtt.{get_current_timeout_us}
use reliable_packet_transmis.Sender.{Sender, FileSource, finished, has_data_to_send}
use reliable_packet_transmis.Sender.Timeout as SenderTimeout
use reliable_packet_transmis.Sender.Timeout.{expire_items, punish_timeout, is_late}
use reliable_packet_transmis.ReliableSender.{Process}
use reliable_packet_transmis.ReliableSender.Threads.{
  Receiving, Timing, Threads, Action, perform, run, receive_step, on_reception, timer_step,
}
use reliable_packet_transmis.ReliableSender.Wakeup.{sleeping, check_timeout-finished}

-- What cannot wake the sending thread: all but an ACK and a spurious wake-up. A thread of `receiveAck`
-- gets nothing from `recvfrom`.
abbrev pub IsQuiet : Action → Type 0
IsQuiet (Action.send now buffer) = Unit
IsQuiet (Action.receive i old none now) = Unit
IsQuiet (Action.receive i old (some received) now) = ⊥
IsQuiet (Action.time now) = Unit
IsQuiet Action.spurious = ⊥

-- A thread of `receiveAck` that is in its test or waits for a datagram.
abbrev pub IsIdle : Receiving → Type 0
IsIdle Receiving.testing = Unit
IsIdle Receiving.listening = Unit
IsIdle _ = ⊥

-- The transfer has finished, but the sending thread sleeps, and no thread is about to notify it.
pub record IsHung (t : Threads) : Type 0 where
  pub process : Process
  pub receivers : List Receiving
  pub timer : Timing
  pub sleeps : t ≡ sleeping process receivers timer
  pub over : finished process.slide_window ≡ true
  pub idle : All IsIdle receivers
  pub no_notice : timer ≢ Timing.notifying

pub no_data : (s : Sender) → finished s ≡ true → has_data_to_send s ≡ false
unfolding has_data_to_send finished
no_data s f = rw f

-- A thread of `receiveAck` that gets nothing only goes round its loop.
receivers_quiet :
    (source : FileSource) (place : Option Receiving) (p : Process) (receivers : List Receiving)
    (timer : Timing) (i : ℕ) (old : AckPacket) (now : Timeval)
    → All IsIdle receivers
    → ((r : Receiving) → place ≡ some r → IsIdle r)
    → (receivers' : List Receiving) × (receive_step source place i old none now
          (sleeping p receivers timer)
        ≡ ok (sleeping p receivers' timer, []))
      × All IsIdle receivers'
unfolding receive_step on_reception
receivers_quiet source none p receivers timer i old now idle l = (receivers, refl, idle)
receivers_quiet source (some Receiving.testing) p receivers timer i old now idle l = (
  set receivers i Receiving.listening,
  refl,
  All-set IsIdle receivers i Receiving.listening idle tt,
)
receivers_quiet source (some Receiving.listening) p receivers timer i old now idle l =
    (set receivers i Receiving.testing, refl, All-set IsIdle receivers i Receiving.testing idle tt)
receivers_quiet source (some (Receiving.accepting ack)) p receivers timer i old now idle l =
    elim (l _ refl) [ ]
receivers_quiet source (some Receiving.deciding) p receivers timer i old now idle l =
    elim (l _ refl) [ ]
receivers_quiet source (some Receiving.deciding_finished) p receivers timer i old now idle l =
    elim (l _ refl) [ ]
receivers_quiet source (some Receiving.notifying) p receivers timer i old now idle l =
    elim (l _ refl) [ ]
receivers_quiet source (some Receiving.stopped) p receivers timer i old now idle l =
    elim (l _ refl) [ ]

timer_quiet :
    (p : Process) (receivers : List Receiving) (timer : Timing) (now : Timeval)
    → finished p.slide_window ≡ true
    → All IsIdle receivers
    → timer ≢ Timing.notifying
    → (t' : Threads) × (timer_step timer now (sleeping p receivers timer) ≡ ok (t', [])) × IsHung t'
unfolding timer_step
timer_quiet p receivers Timing.testing now over idle quiet = (
  sleeping p receivers Timing.measuring,
  refl,
  record {
    process = p;
    receivers = receivers;
    timer = Timing.measuring;
    sleeps = refl;
    over = over;
    idle = idle;
    no_notice = λ e. cc;
  },
)
timer_quiet p receivers Timing.measuring now over idle quiet = (
  sleeping p receivers (Timing.expiring (get_current_timeout_us p.rtt_estimator)),
  refl,
  record {
    process = p;
    receivers = receivers;
    timer = Timing.expiring (get_current_timeout_us p.rtt_estimator);
    sleeps = refl;
    over = over;
    idle = idle;
    no_notice = λ e. cc;
  },
)
timer_quiet p receivers (Timing.expiring threshold) now over idle quiet =
    let p' : Process = record p {
      slide_window = SenderTimeout.check_timeout p.slide_window threshold now;
    } in
    (
      sleeping p' receivers Timing.deciding,
      refl,
      record {
        process = p';
        receivers = receivers;
        timer = Timing.deciding;
        sleeps = refl;
        over = check_timeout-finished p.slide_window threshold now ∙ over;
        idle = idle;
        no_notice = λ e. cc;
      },
    )
timer_quiet p receivers Timing.deciding now over idle quiet = (
  sleeping p receivers Timing.testing,
  rw (no_data p.slide_window over),
  record {
    process = p;
    receivers = receivers;
    timer = Timing.testing;
    sleeps = refl;
    over = over;
    idle = idle;
    no_notice = λ e. cc;
  },
)
timer_quiet p receivers Timing.notifying now over idle quiet = absurd (quiet refl)
timer_quiet p receivers Timing.stopped now over idle quiet = (
  sleeping p receivers Timing.stopped,
  refl,
  record {
    process = p;
    receivers = receivers;
    timer = Timing.stopped;
    sleeps = refl;
    over = over;
    idle = idle;
    no_notice = quiet;
  },
)

quiet_step :
    (source : FileSource) (action : Action) (t : Threads)
    → IsQuiet action
    → IsHung t
    → (t' : Threads) × (perform source action t ≡ ok (t', [])) × IsHung t'
unfolding perform
quiet_step source (Action.send now buffer) t q h = (t, rw h.sleeps, h)
quiet_step source (Action.receive i old none now) t q h =
    let (receivers', e, idle) =
      receivers_quiet source (get_elem? h.receivers i) h.process h.receivers h.timer i old now
        h.idle (λ r e. All-get IsIdle h.receivers i h.idle e) in
    (
      sleeping h.process receivers' h.timer,
      rw h.sleeps e,
      record {
        process = h.process;
        receivers = receivers';
        timer = h.timer;
        sleeps = refl;
        over = h.over;
        idle = idle;
        no_notice = h.no_notice;
      },
    )
quiet_step source (Action.receive i old (some received) now) t q h = elim q [ ]
quiet_step source (Action.time now) t q h =
    let (t', e, h') = timer_quiet h.process h.receivers h.timer now h.over h.idle h.no_notice in
    (t', rw h.sleeps e, h')
quiet_step source Action.spurious t q h = elim q [ ]

pub run-IsHung :
    (source : FileSource) (actions : List Action) (t : Threads)
    → All IsQuiet actions
    → IsHung t
    → (t' : Threads) × (run source actions t ≡ ok (t', [])) × IsHung t'
unfolding run
run-IsHung source [] t q h = (t, refl, h)
run-IsHung source (action ∷ actions) t q h =
    let (t', e, h') = quiet_step source action t q.0 h in
    let (t'', e', h'') = run-IsHung source actions t' q.1 h' in (t'', rw (e, e'), h'')
