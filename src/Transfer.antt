-- ===== src/Transfer.antt =====
-- A sender process (src/reliable_sender.cpp) and a receiver process (src/reliable_receiver.cpp) with an
-- unreliable network between them. Their threads interleave: a step is one round of one thread. The
-- network keeps all that was ever sent, and may deliver any of it at any time: late, out of order,
-- more than once, or never.
pub mod Invariant
pub mod SenderSteps
pub mod ReceiverSteps
pub mod Safety
pub mod Progress
pub mod Threads
pub mod Content
pub mod Delivery
pub mod Completion
pub mod SetupExamples
pub mod RunExamples
pub mod Sacked
pub mod Selective
pub mod SelectiveExamples
pub mod Examples
use reliable_packet_transmis.Base.{ℕ, ◌≤◌, ◌≡◌, List, [], ◌∷◌, ◌++◌, ok, length, Elem}
use reliable_packet_transmis.Packet.{DataPacket, DataType, AckPacket, Timeval, data_packet_size}
use reliable_packet_transmis.Packet.Words.{FitsTimeval}
use reliable_packet_transmis.Packet.DataRoundTrip.{IsSendable, data_datagram}
use reliable_packet_transmis.Receiver.{Receiver, init}
use reliable_packet_transmis.ReliableReceiver.{on_datagram}
use reliable_packet_transmis.Sender.{FileSource}
use reliable_packet_transmis.ReliableSender.{Process, send_data, receive_ack, check_timeout, start}

pub record System : Type 0 where
  pub process : Process
  pub receiver : Receiver
  -- the datagrams on their way to the receiver, and those to the sender
  pub to_receiver : List (List ℕ)
  pub to_sender : List (List ℕ)

pub data Step (source : FileSource) (a : System) : System → Type 0 where
  -- a handshake, which the sender may have repeated
  greets :
      (packet : DataPacket)
      → packet.type ≡ DataType.handshake
      → IsSendable packet
      → Step source a (record a { to_receiver = data_datagram packet ∷ a.to_receiver })
  -- a round of the sending thread
  sends :
      (now : Timeval) (buffer : List ℕ) (p : Process) (sent : List (List ℕ))
      → FitsTimeval now
      → data_packet_size ≤ length buffer
      → send_data a.process now buffer ≡ ok (p, sent)
      → Step source a (record a { process = p; to_receiver = sent ++ a.to_receiver })
  -- a round of a receiver's thread, on a datagram that the network delivers
  delivers :
      (datagram : List ℕ) (r : Receiver) (sent : List (List ℕ))
      → Elem datagram a.to_receiver
      → on_datagram a.receiver datagram ≡ ok (r, sent)
      → Step source a (record a { receiver = r; to_sender = sent ++ a.to_sender })
  -- a round of one of the sender's threads that receive ACKs
  acknowledges :
      (datagram : List ℕ) (old : AckPacket) (now : Timeval) (p : Process)
      → Elem datagram a.to_sender
      → receive_ack source a.process old datagram now ≡ ok p
      → Step source a (record a { process = p })
  -- a round of the thread that checks for timeouts
  checks : (now : Timeval) → Step source a (record a { process = (check_timeout a.process now).0 })

pub data Reach (source : FileSource) (a : System) : System → Type 0 where
  here : Reach source a a
  next : {b c : System} → Reach source a b → Step source b c → Reach source a c

-- The system after the handshake: nothing is under way.
abbrev pub initial : Process → System
initial p = record { process = p; receiver = init; to_receiver = []; to_sender = [] }
