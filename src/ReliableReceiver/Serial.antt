-- ===== src/ReliableReceiver/Serial.antt =====
-- The threads of src/reliable_receiver.cpp do what one thread does that takes one datagram after the
-- other: a schedule has a serial run with the same window and the same ACKs.
use reliable_packet_transmis.Base.{
  ℕ, ◌≤◌, ◌≡◌, refl, inl, List, [], ◌∷◌, ◌++◌, Option, none, some, ok, OnOk-ok, length, All,
  All-elem, Elem, Elem-front, Elem-rest,
}
use reliable_packet_transmis.Packet.{data_packet_size}
use reliable_packet_transmis.Receiver.{Receiver}
use reliable_packet_transmis.ReliableReceiver.Threads.{Threads, Turn, started, run}
use reliable_packet_transmis.ReliableReceiver.Rounds.{serve}
use reliable_packet_transmis.ReliableReceiver.Linear.{IsGiven, IsLinear, run-IsLinear}

abbrev heard : Option (List ℕ) → List (List ℕ)
heard none = []
heard (some datagram) = datagram ∷ []

-- All that `recvfrom` gives in a schedule.
abbrev pub datagrams : List Turn → List (List ℕ)
datagrams [] = []
datagrams (turn ∷ turns) = heard turn.event ++ datagrams turns

event-IsGiven :
    (From : List ℕ → Type 0) (event : Option (List ℕ))
    → ((d : List ℕ) → Elem d (heard event) → From d × (length d ≤ data_packet_size))
    → IsGiven From event
event-IsGiven From none f = tt
event-IsGiven From (some received) f = f received (inl refl)

pub turns-IsGiven :
    (From : List ℕ → Type 0) (turns : List Turn)
    → ((d : List ℕ) → Elem d (datagrams turns) → From d × (length d ≤ data_packet_size))
    → All (λ turn. IsGiven From turn.event) turns
turns-IsGiven From [] f = tt
turns-IsGiven From (turn ∷ turns) f = (
  event-IsGiven From turn.event (λ d m. f d (Elem-front d (heard turn.event) (datagrams turns) m)),
  turns-IsGiven From turns (λ d m. f d (Elem-rest d (heard turn.event) (datagrams turns) m)),
)

-- Let the two threads of a receiver, in any state of its window, run in any order, step by step,
-- and get any datagrams that fit the buffer. If no step faults, then there is a list of datagrams,
-- all of them received, such that whole rounds on these, one after the other, lead to the same
-- window, and every datagram that the threads have sent is an answer of these rounds.
pub interleaved-serial :
    (r : Receiver) (turns : List Turn)
    → All (λ datagram. length datagram ≤ data_packet_size) (datagrams turns)
    → (t : Threads) (sent : List (List ℕ)) → run turns (started r) ≡ ok (t, sent)
    → (taken : List (List ℕ)) × (answers : List (List ℕ)) × (serve r taken
        ≡ ok (t.receiver, answers))
      × All (λ datagram. Elem datagram (datagrams turns)) taken
      × All (λ datagram. Elem datagram answers) sent
unfolding serve
interleaved-serial r turns short t sent e =
    let From : List ℕ → Type 0 = λ datagram. Elem datagram (datagrams turns) in
    let start : IsLinear r From (started r) [] = record {
      taken = [];
      answers = [];
      serves = refl;
      from = tt;
      answered = tt;
      kept = (tt, (tt, tt));
    } in
    let l =
      OnOk-ok (λ (o : Threads × List (List ℕ)). IsLinear r From o.0 o.1) _ e
        (run-IsLinear r From turns (started r) [] start
          (turns-IsGiven From turns (λ d m. (m, All-elem _ d (datagrams turns) short m)))) in
    (l.taken, l.answers, l.serves, l.from, l.answered)
