-- ===== src/Transfer/Threads.antt =====
-- The two processes with the network between them, their threads step by step: the threads of
-- src/reliable_sender.cpp and those of src/reliable_receiver.cpp, each as they interleave in their
-- process. The network keeps all that was ever sent, and may give any of it to any `recvfrom`, or
-- nothing.
pub mod Invariant
pub mod SenderMoves
pub mod Sender
pub mod Receiver
pub mod Safety
pub mod Delivery
pub mod Ending
pub mod TimerEnding
pub mod Ended
pub mod Examples
use reliable_packet_transmis.Base.{
  ℕ, ◌≤◌, ◌≡◌, List, [], ◌++◌, Option, none, some, ok, length, Elem,
}
use reliable_packet_transmis.Packet.{data_packet_size}
use reliable_packet_transmis.Packet.Words.{FitsTimeval}
use reliable_packet_transmis.Receiver.{init}
use reliable_packet_transmis.Sender.{FileSource}
use reliable_packet_transmis.ReliableSender.{Process}
use reliable_packet_transmis.ReliableSender.Threads as SenderThreads
use reliable_packet_transmis.ReliableSender.Threads.{Action}
use reliable_packet_transmis.ReliableReceiver.Threads as ReceiverThreads
use reliable_packet_transmis.ReliableReceiver.Threads.{Turn}
use reliable_packet_transmis.Transfer.{System}

pub record Whole : Type 0 where
  pub sending : SenderThreads.Threads
  pub receiving : ReceiverThreads.Threads
  -- the datagrams on their way to the receiver, and those to the sender
  pub to_receiver : List (List ℕ)
  pub to_sender : List (List ℕ)

-- The shared objects and the network, without the threads.
abbrev pub system : Whole → System
system a = record {
  process = a.sending.process;
  receiver = a.receiving.receiver;
  to_receiver = a.to_receiver;
  to_sender = a.to_sender;
}

-- What `recvfrom` gives comes from the network.
abbrev pub IsFrom : List (List ℕ) → Option (List ℕ) → Type 0
IsFrom wire none = Unit
IsFrom wire (some datagram) = Elem datagram wire

-- What the system calls of an action of the sender may give.
abbrev pub IsPossible : List (List ℕ) → Action → Type 0
IsPossible wire (Action.send now buffer) = FitsTimeval now × (data_packet_size ≤ length buffer)
IsPossible wire (Action.receive i old received now) = IsFrom wire received
IsPossible wire (Action.time now) = Unit
IsPossible wire Action.spurious = Unit

pub data ThreadStep (source : FileSource) (a : Whole) : Whole → Type 0 where
  -- a step of a thread of the sender, or a spurious wake-up
  sender_acts :
      (action : Action) (t : SenderThreads.Threads) (sent : List (List ℕ))
      → IsPossible a.to_sender action
      → SenderThreads.perform source action a.sending ≡ ok (t, sent)
      → ThreadStep source a (record a { sending = t; to_receiver = sent ++ a.to_receiver })
  -- a step of a thread of the receiver
  receiver_acts :
      (turn : Turn) (t : ReceiverThreads.Threads) (sent : List (List ℕ))
      → IsFrom a.to_receiver turn.event
      → ReceiverThreads.perform turn a.receiving ≡ ok (t, sent)
      → ThreadStep source a (record a { receiving = t; to_sender = sent ++ a.to_sender })

pub data ThreadReach (source : FileSource) (a : Whole) : Whole → Type 0 where
  here : ThreadReach source a a
  next : {b c : Whole} → ThreadReach source a b → ThreadStep source b c → ThreadReach source a c

-- All threads at their start, when the handshake has sent its datagrams.
abbrev pub at_start : Process → List (List ℕ) → Whole
at_start p greetings = record {
  sending = SenderThreads.started p;
  receiving = ReceiverThreads.started init;
  to_receiver = greetings;
  to_sender = [];
}
