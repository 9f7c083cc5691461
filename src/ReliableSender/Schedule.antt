-- ===== src/ReliableSender/Schedule.antt =====
-- What a schedule of the threads of src/reliable_sender.cpp may bring.
use reliable_packet_transmis.Base.{
  Bool, true, ◌≡◌, ℕ, ◌+◌, ◌≤◌, List, [], ◌∷◌, Option, some, get_elem?, length, OnOk, All,
}
use reliable_packet_transmis.Packet.{data_packet_size}
use reliable_packet_transmis.Packet.Words.{FitsTimeval}
use reliable_packet_transmis.Packet.DataRoundTrip.{IsSendable}
use reliable_packet_transmis.Sender.{Sender, FileSource}
use reliable_packet_transmis.ReliableSender.Threads.{
  Sending, Receiving, Threads, Action, woken, perform,
}

-- What holds where `sendData` stands: the packets that it has prepared fit a datagram, and it has stopped
-- only if `done` is set.
abbrev pub IsPlaced : Sending → Bool → Type 0
IsPlaced (Sending.sending packets) done = All IsSendable packets
IsPlaced Sending.stopped done = done ≡ true
IsPlaced _ done = Unit

-- The ACK that a thread is about to hand to the window promises no more than was loaded.
abbrev pub IsInWindow : Option Receiving → Sender → Type 0
IsInWindow (some (Receiving.accepting ack)) s =
    ack.cumulative_seq_num ≤ s.slide_window_left_bound_seq_num + length s.slide_window
IsInWindow _ s = Unit

-- What an action may bring when the threads are in a state.
abbrev pub IsAllowed : Action → Threads → Type 0
IsAllowed (Action.send now buffer) t = FitsTimeval now × (data_packet_size ≤ length buffer)
IsAllowed (Action.receive i old received now) t =
    IsInWindow (get_elem? t.receivers i) t.process.slide_window
IsAllowed (Action.time now) t = Unit
IsAllowed Action.spurious t = Unit

-- Each action of a schedule is allowed when its turn comes.
abbrev pub IsSchedule : FileSource → List Action → Threads → Type 0
IsSchedule source [] t = Unit
IsSchedule source (action ∷ actions) t =
    IsAllowed action t
    × OnOk (λ (o : Threads × List (List ℕ)). IsSchedule source actions o.0)
        (perform source action t)

pub woken-IsPlaced :
    (place : Sending) (done : Bool) → IsPlaced place done → IsPlaced (woken place) done
woken-IsPlaced Sending.testing done v = v
woken-IsPlaced Sending.asking done v = v
woken-IsPlaced Sending.asking_finished done v = v
woken-IsPlaced Sending.falling_asleep done v = v
woken-IsPlaced Sending.asleep done v = v
woken-IsPlaced Sending.bursting done v = v
woken-IsPlaced Sending.preparing done v = v
woken-IsPlaced (Sending.sending packets) done v = v
woken-IsPlaced Sending.stopped done v = v
