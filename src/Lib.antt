-- ===== src/Lib.antt =====
-- A reliable transfer of a file over UDP: reliable_sender sends the first bytes of a file to a host,
-- reliable_receiver writes them to a file. This library models the code under src/ and proves that
-- the transfer is correct.
--
-- The parts, and the files that model them:
--   Packet     src/packet.h, src/packet.c: the two kinds of packets and their layout in a buffer
--   Clock      getElapsedUs, which four files define
--   Rtt        src/rttEstimatorJacobson.h, .cpp: the estimate of the round trip
--   Receiver   src/slideWindowReceiver.h, .cpp: which packets have been received; what is written
--   Sender     src/slideWindowSender.h, .cpp: which packets are under way, congestion control; its
--              children Ack and Timeout are ackArrived and checkTimeout
--   System     what both programs share with their surroundings: system calls, arguments
--   ReliableReceiver   src/reliable_receiver.cpp: a round of a receiving thread; its child Threads is how
--              the threads interleave, and Setup what surrounds them, from main on
--   ReliableSender     src/reliable_sender.cpp: the threads for sending, for receiving ACKs and for
--              timeouts; its child Handshake is performHandshake, Threads how the threads
--              interleave, and Setup what surrounds them, from main on
--   Transfer   the two processes with a network between them, as a relation of steps: a step is a
--              round of a thread in Transfer itself, and a single step of a thread in its child
--              Threads
--   Base       shared names: tests, lists, results, 32-bit arithmetic
--
-- State and operations. A class is a record with the fields of the class (less its lock and its file
-- descriptor), a method a function from the record to the new record and the result. Each public
-- method holds the lock of its object from start to end, so it is one step. The current time, what
-- `recvfrom` gives and what `read` gives are arguments; what goes to `sendto` and the pairs of `lseek`
-- and `write` are results. An assertion that fails, an access outside of a buffer or a deque, and an
-- access to a deleted object are the cases of `Fault`. Sequence numbers and windows wrap at 32 bits, byte
-- counts and times at 64, where the code's do. A `double` appears in the weights 0.125 and 0.25 and in
-- the factors 0.62, 1.1 and 0.5; each product is written as an exact fraction, rounded down, which is
-- what the code computes for 32-bit windows and for times below 2 ^ 50 microseconds;
-- other weights, which the estimator takes as well, are exact only as Rtt/Bounds says.
--
-- The transfer. In Transfer a step is a round of one thread: a round of sendData, of receiveDataReplyAck, of
-- receiveAck, of checkTimeout, or a handshake that is sent. The network is the collection of all that
-- was ever sent; a step of a receiving thread may take any of it, so datagrams are lost, delayed,
-- reordered and repeated, but not altered or invented. A round is taken as a whole, although the code
-- does not hold a lock between the calls of a round: an ACK that is sent later is one that the network
-- delays, and the finishing ACK may then go out another number of times.
-- Transfer/Threads puts the threads of both processes, step by step, on the same network, with the
-- handshake before them.
--
-- The threads. ReliableReceiver/Threads and ReliableSender/Threads have the threads of each process step by
-- step. In the receiver a step is the test for the end, `recvfrom`, the call of `receiveDataPacket`, or
-- the ACK with its own test for the end. In the sender there are also where each stands between two
-- calls on the shared objects, `condVar` with its waiting thread, `done`, and the packets that
-- `sendData` has prepared and not yet sent, whose bytes belong to the items that an ACK deletes. A
-- schedule is a list of actions: who takes the next step, with what its system calls give.
--
-- The surroundings. Setup has main and what it calls with the system calls that they make, in order,
-- each with its result; what the system answers is an argument. Whether a call fails is the sign of
-- its result. The runs of both programs are composed from the parts above: opening, the handshake, the
-- threads, joining them, closing.
--
-- Bounds. No function uses fuel: each loop goes over a list or counts rounds that the code fixes. The
-- theorems about a sender assume at most 2 ^ 30 packets, so that no sum of congestion control wraps;
-- those about bytes assume at most 2 ^ 32 of them, and those about the places of packets in the file
-- that the last packet begins below 2 ^ 32 bytes, since the file offset of the code wraps there.
--
-- Hypotheses about what is not in the repository: `ReadsFile` says that `read` after `lseek` gives the
-- file's bytes from the offset on, as many as asked for or up to the end, as it does for a regular
-- file that nobody changes meanwhile; `FitsTimeval` says that a time fits the 16 bytes of a `timeval`.
--
-- Not modelled: sleeping; a plain `bool` that a thread sees late, since the threads read `done` as it was
-- last written; memory management, but for the prepared packets; what is only printed or counted
-- under _DEBUG, _PRINT_* and _PROFILING. The checks of _DEBUG are in Sender/Debug and Receiver/Debug.
pub mod Base
pub mod System
pub mod Packet
pub mod Clock
pub mod Rtt
pub mod Receiver
pub mod Sender
pub mod ReliableReceiver
pub mod ReliableSender
pub mod Transfer
