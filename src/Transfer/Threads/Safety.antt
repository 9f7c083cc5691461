-- ===== src/Transfer/Threads/Safety.antt =====
-- What every execution of both processes comes to, with their threads step by step.
use reliable_packet_transmis.Base.{
  ℕ, ◌≤◌, ◌≡◌, refl, inl, inr, List, Option, none, some, get_elem?, ok, fault, dangling, Fault,
  ok-unique, OnOk-ok, OrDangling, OrDangling-ok, OrDangling-fault, All-map, All-elem, All-get,
  arith,
}
use reliable_packet_transmis.Sender.{Sender, FileSource}
use reliable_packet_transmis.Sender.Window.{IsFile}
use reliable_packet_transmis.ReliableSender.Threads as SenderThreads
use reliable_packet_transmis.ReliableSender.Threads.{Receiving, Action}
use reliable_packet_transmis.ReliableSender.Schedule.{IsInWindow, IsAllowed}
use reliable_packet_transmis.ReliableSender.Sound as SenderSound
use reliable_packet_transmis.ReliableSender.SoundRuns.{perform-After}
use reliable_packet_transmis.ReliableReceiver.Threads as ReceiverThreads
use reliable_packet_transmis.ReliableReceiver.Threads.{Turn}
use reliable_packet_transmis.ReliableReceiver.Loop.{IsEvent}
use reliable_packet_transmis.ReliableReceiver.Files as ReceiverFiles
use reliable_packet_transmis.Transfer.Invariant.{loaded}
use reliable_packet_transmis.Transfer.SenderSteps.{next-le-loaded}
use reliable_packet_transmis.Transfer.Threads.{
  Whole, system, IsFrom, IsPossible, ThreadStep, sender_acts, receiver_acts, ThreadReach, here,
  next,
}
use reliable_packet_transmis.Transfer.Threads.Invariant.{
  IsHeld, IsHeld-mono, IsCarried-mono, IsSafe,
}
use reliable_packet_transmis.Transfer.Threads.SenderMoves
use reliable_packet_transmis.Transfer.Threads.Sender as SenderSteps
use reliable_packet_transmis.Transfer.Threads.Receiver as ReceiverSteps

module _ (source : FileSource) (total last_size : ℕ) (chunk : ℕ → List ℕ)
    (file : IsFile source total last_size chunk) where
  IsHeld-IsInWindow :
      (place : Option Receiving) (s : Sender) (expected : ℕ)
      → expected ≤ loaded s
      → ((r : Receiving) → place ≡ some r → IsHeld expected r)
      → IsInWindow place s
  IsHeld-IsInWindow none s expected le h = tt
  IsHeld-IsInWindow (some Receiving.testing) s expected le h = tt
  IsHeld-IsInWindow (some Receiving.listening) s expected le h = tt
  IsHeld-IsInWindow (some (Receiving.accepting ack)) s expected le h =
      let honest : ack.cumulative_seq_num ≤ expected = h (Receiving.accepting ack) refl in
      omega arith
  IsHeld-IsInWindow (some Receiving.deciding) s expected le h = tt
  IsHeld-IsInWindow (some Receiving.deciding_finished) s expected le h = tt
  IsHeld-IsInWindow (some Receiving.notifying) s expected le h = tt
  IsHeld-IsInWindow (some Receiving.stopped) s expected le h = tt

  module _ (a : Whole) (v : IsSafe source total last_size chunk file a) where
    possible-IsAllowed :
        (action : Action) → IsPossible a.to_sender action → IsAllowed action a.sending
    possible-IsAllowed (Action.send now buffer) p = p
    possible-IsAllowed (Action.receive i old received now) p =
        let expected = a.receiving.receiver.next_expected_packet_seq_num in
        IsHeld-IsInWindow (get_elem? a.sending.receivers i) a.sending.process.slide_window expected
          (next-le-loaded source total last_size chunk file (system a) v.safe)
          (λ r e. All-get (IsHeld expected) a.sending.receivers i v.held e)
    possible-IsAllowed (Action.time now) p = tt
    possible-IsAllowed Action.spurious p = tt

    wire-IsEvent :
        (event : Option (List ℕ)) → IsFrom a.to_receiver event → IsEvent total chunk event
    wire-IsEvent none from = tt
    wire-IsEvent (some datagram) from =
        let w = All-elem _ datagram a.to_receiver v.safe.data_wire from in
        record {
          packet = w.packet;
          laid_out = w.laid_out;
          sendable = w.sendable;
          kind = elim w.kind [ inl greets ↦ inl greets | inr sent ↦ inr sent.of_file ];
        }

    abbrev AfterSender : SenderThreads.Threads × List (List ℕ) → Type 0
    AfterSender o = SenderSound.IsSound source total last_size chunk file o.0

    sender_step :
        (action : Action)
        → IsPossible a.to_sender action
        → OrDangling AfterSender (SenderThreads.perform source action a.sending)
    sender_step action p =
        perform-After source total last_size chunk file action a.sending
          (possible-IsAllowed action p) v.sender

    receiver_step :
        (turn : Turn)
        → IsFrom a.to_receiver turn.event
        → ReceiverFiles.Goes total chunk (ReceiverThreads.perform turn a.receiving)
    receiver_step turn from =
        ReceiverFiles.perform-Goes total chunk (omega (arith, file.small)) turn a.receiving
          v.receiver (wire-IsEvent turn.event from)

  pub Step-IsSafe :
      {a b : Whole}
      → ThreadStep source a b
      → IsSafe source total last_size chunk file a
      → IsSafe source total last_size chunk file b
  Step-IsSafe {a} (sender_acts action t sent p e) v =
      let k =
        OnOk-ok (SenderMoves.Kept source total last_size chunk file a v) _ e
          (SenderSteps.perform-Kept source total last_size chunk file a v action p) in
      record {
        safe = k.safe;
        sender = OrDangling-ok (AfterSender a v) _ e (sender_step a v action p);
        receiver = v.receiver;
        prepared = k.prepared;
        held = k.held;
        carried =
            All-map _ _ (λ place h. IsCarried-mono total chunk place (omega arith) k.more h)
              a.receiving.places v.carried;
      }
  Step-IsSafe {a} (receiver_acts turn t sent from e) v =
      let k =
        OnOk-ok (ReceiverSteps.Kept source total last_size chunk file a v) _ e
          (ReceiverSteps.perform-Kept source total last_size chunk file a v turn from) in
      let (o, r, h) = receiver_step a v turn from in
      record {
        safe = k.safe;
        sender = v.sender;
        receiver =
            ok-unique
              (λ (o : ReceiverThreads.Threads × List (List ℕ)).
                ReceiverFiles.IsSound total chunk o.0)
              _ r e h;
        prepared = v.prepared;
        held = All-map _ _ (λ place h. IsHeld-mono place k.further h) a.sending.receivers v.held;
        carried = k.carried;
      }

  pub Reach-IsSafe :
      {a b : Whole}
      → IsSafe source total last_size chunk file a
      → ThreadReach source a b
      → IsSafe source total last_size chunk file b
  Reach-IsSafe v here = v
  Reach-IsSafe v (next r st) = Step-IsSafe st (Reach-IsSafe v r)

  -- In a safe state the receiver's steps go through, and a step of the sender fails only at a
  -- deleted object.
  pub step-only_dangling :
      (b : Whole)
      → IsSafe source total last_size chunk file b
      → ((turn : Turn)
          → IsFrom b.to_receiver turn.event
          → (o : ReceiverThreads.Threads × List (List ℕ)) × (ReceiverThreads.perform turn
                b.receiving
              ≡ ok o))
        × ((action : Action) (why : Fault)
            → IsPossible b.to_sender action
            → SenderThreads.perform source action b.sending ≡ fault why
            → why ≡ dangling)
  step-only_dangling b v = (
    λ turn from. let (o, e, _) = receiver_step b v turn from in (o, e),
    λ action why p e.
        OrDangling-fault (AfterSender b v) (SenderThreads.perform source action b.sending) why e
          (sender_step b v action p),
  )
