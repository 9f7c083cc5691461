-- ===== src/ReliableReceiver/Stopping.antt =====
-- The threads of src/reliable_receiver.cpp end once the transfer has finished.
use reliable_packet_transmis.Base.{
  ℕ, zero, suc, ◌+◌, ◌-◌, ◌^◌, ◌≤◌, ◌≡◌, refl, sym, ◌∙◌, ap, true, if◌then◌else◌, List, [], ◌∷◌,
  ◌++◌, none, some, ok, length, replicate, get_elem?, set, set-get_elem?, set-set, get_elem?-some,
  set_there, ok-unique, OnOk, OnOk-ok, OnOk-self, OnOk-map, >>=-OnOk, append_assoc, All, All-get,
  arith,
}
use reliable_packet_transmis.Receiver.{finished, init}
use reliable_packet_transmis.Receiver.Receive.{receive_data_packet_lem}
use reliable_packet_transmis.ReliableReceiver.{receive_buffer, regular_ack, fin_ack_num}
use reliable_packet_transmis.Packet.AckRoundTrip.{ack_datagram}
use reliable_packet_transmis.ReliableReceiver.Datagrams.{send_ack_lem}
use reliable_packet_transmis.ReliableReceiver.Loop.{IsEvent}
use reliable_packet_transmis.ReliableReceiver.Rounds.{room_for_ack}
use reliable_packet_transmis.ReliableReceiver.Threads.{
  Place, Threads, Turn, started, step, perform, run, all_stopped,
}
use reliable_packet_transmis.ReliableReceiver.Files.{
  IsPlaced, IsSound, perform-Goes, run-Goes, started-IsSound, Receives-finished,
}

-- Steps that a thread has left, at most, once the receiver has finished.
abbrev steps_left : Place → ℕ
steps_left Place.testing = 1
steps_left Place.listening = 2
steps_left (Place.storing received packet) = 3
steps_left (Place.answering received ack) = 2
steps_left Place.stopped = 0

-- A turn of a thread in which `recvfrom` times out.
abbrev quiet : ℕ → Turn
quiet i = record { thread = i; event = none }

-- Three turns of each thread.
abbrev pub last_turns : List Turn
last_turns = replicate 3 (quiet 0) ++ replicate 3 (quiet 1)

none_left : (place : Place) → steps_left place ≡ 0 → place ≡ Place.stopped
none_left Place.testing e = absurd (omega arith)
none_left Place.listening e = absurd (omega arith)
none_left (Place.storing received packet) e = absurd (omega arith)
none_left (Place.answering received ack) e = absurd (omega arith)
none_left Place.stopped e = refl

-- One schedule after another.
pub run-append :
    (front rest : List Turn) (t : Threads)
    → OnOk
        (λ (o : Threads × List (List ℕ)).
          OnOk
            (λ (o' : Threads × List (List ℕ)). run (front ++ rest) t ≡ ok (o'.0, o.1 ++ o'.1))
            (run rest o.0))
        (run front t)
unfolding run
run-append [] rest t = OnOk-map _ _ (run rest t) (OnOk-self (run rest t)) (λ o e. e)
run-append (turn ∷ front) rest t =
    >>=-OnOk (λ (o : Threads × List (List ℕ)). perform turn t ≡ ok o) _ (perform turn t) _
      (OnOk-self (perform turn t))
      (λ o e. >>=-OnOk _ _ (run front o.0) _ (run-append front rest o.0) (λ o' h.
        OnOk-map _ _ (run rest o'.0) h (λ o'' h'. rw (e, h', append_assoc o.1 o'.1 o''.1) refl)))

module _ (total : ℕ) (chunk : ℕ → List ℕ) (room : total + 400 ≤ 2 ^ 32) where
  -- A quiet turn of a thread of a receiver that has finished.
  record Nears (i : ℕ) (place : Place) (t : Threads) : Type 0 where
    after : Threads
    sent : List (List ℕ)
    returns : perform (quiet i) t ≡ ok (after, sent)
    over : finished after.receiver ≡ true
    next : Place
    there : after.places ≡ set t.places i next
    nearer : steps_left next ≤ steps_left place - 1

  quiet-Nears :
      (i : ℕ) (place : Place) (t : Threads)
      → get_elem? t.places i ≡ some place
      → IsSound total chunk t
      → finished t.receiver ≡ true
      → Nears i place t
  unfolding perform step
  quiet-Nears i Place.testing t e v f = record {
    after = record t { places = set t.places i Place.stopped };
    sent = [];
    returns = rw (e, f) refl;
    over = f;
    next = Place.stopped;
    there = refl;
    nearer = omega arith;
  }
  quiet-Nears i Place.listening t e v f = record {
    after = record t { places = set t.places i Place.testing };
    sent = [];
    returns = rw e refl;
    over = f;
    next = Place.testing;
    there = refl;
    nearer = omega arith;
  }
  quiet-Nears i (Place.storing received packet) t e v f =
      let (short, p) = All-get (IsPlaced total chunk t.receiver) t.places i v.placed e in
      let (r', reply, c, _, _) =
        receive_data_packet_lem total chunk room t.receiver packet p v.valid in
      let place = Place.answering received (regular_ack reply packet.sent_time) in
      record {
        after = record { receiver = r'; places = set t.places i place };
        sent = [];
        returns = rw (e, c.returns) refl;
        over = Receives-finished total chunk room t.receiver r' packet reply v.valid c f;
        next = place;
        there = refl;
        nearer = omega arith;
      }
  quiet-Nears i (Place.answering received ack) t e v f =
      let (short, known) = All-get (IsPlaced total chunk t.receiver) t.places i v.placed e in
      record {
        after = record t { places = set t.places i Place.testing };
        sent = replicate (if finished t.receiver then fin_ack_num else 1) (ack_datagram ack);
        returns =
            rw
              (
                e,
                send_ack_lem t.receiver ack (receive_buffer received) known
                    (room_for_ack received short),
              )
              refl;
        over = f;
        next = Place.testing;
        there = refl;
        nearer = omega arith;
      }
  quiet-Nears i Place.stopped t e v f = record {
    after = t;
    sent = [];
    returns = rw e refl;
    over = f;
    next = Place.stopped;
    there = sym (set-get_elem? t.places i Place.stopped e);
    nearer = omega arith;
  }

  -- A thread that has the steps that it needs stops.
  abbrev Stops : ℕ → ℕ → Threads → Type 0
  Stops i n t =
      (o : Threads × List (List ℕ)) × (run (replicate n (quiet i)) t ≡ ok o)
      × IsSound total chunk o.0
      × (finished o.0.receiver ≡ true)
      × (o.0.places ≡ set t.places i Place.stopped)

  quiet-Stops :
      (i n : ℕ) (place : Place) (t : Threads)
      → get_elem? t.places i ≡ some place
      → IsSound total chunk t
      → finished t.receiver ≡ true
      → steps_left place ≤ n
      → Stops i n t
  unfolding run
  quiet-Stops i zero place t e v f enough =
      let still = none_left place (omega arith) in
      ((t, []), refl, v, f, sym (set-get_elem? t.places i Place.stopped (e ∙ ap some still)))
  quiet-Stops i (suc n) place t e v f enough =
      let q = quiet-Nears i place t e v f in
      let (o, r, h) = perform-Goes total chunk room (quiet i) t v tt in
      let sound =
        ok-unique (λ (o : Threads × List (List ℕ)). IsSound total chunk o.0) (perform (quiet i) t) r
          q.returns h in
      let at = ap (λ places. get_elem? places i) q.there ∙ set_there t.places i place q.next e in
      let (o', r', h', f', p') =
        quiet-Stops i n q.next q.after at sound q.over (omega (arith, q.nearer)) in
      (
        (o'.0, q.sent ++ o'.1),
        rw (q.returns, r') refl,
        h',
        f',
        p' ∙ rw q.there (set-set t.places i q.next Place.stopped),
      )

  -- Three quiet turns of each thread end both.
  pub last-Stops :
      (t : Threads)
      → IsSound total chunk t
      → finished t.receiver ≡ true
      → (t' : Threads) × (sent : List (List ℕ)) × (run last_turns t ≡ ok (t', sent))
        × (all_stopped t'.places ≡ true)
        × (finished t'.receiver ≡ true)
        × IsSound total chunk t'
  last-Stops t v f =
      let (first, there) = get_elem?-some t.places 0 (omega (arith, v.two)) in
      let (second, beside) = get_elem?-some t.places 1 (omega (arith, v.two)) in
      let (o, e, h, f', p) = quiet-Stops 0 3 first t there v f (enough first) in
      let (o', e', h', f'', p') =
        quiet-Stops 1 3 second o.0 (rw p (second_stays t.places second beside)) h f'
          (enough second) in
      (
        o'.0,
        o.1 ++ o'.1,
        OnOk-ok _ _ e'
            (OnOk-ok _ _ e (run-append (replicate 3 (quiet 0)) (replicate 3 (quiet 1)) t)),
        rw (p', p) (both_stopped t.places v.two),
        f'',
        h',
      )
    where
      enough : (place : Place) → steps_left place ≤ 3
      enough Place.testing = omega arith
      enough Place.listening = omega arith
      enough (Place.storing received packet) = omega arith
      enough (Place.answering received ack) = omega arith
      enough Place.stopped = omega arith

      second_stays :
          (places : List Place) (place : Place)
          → get_elem? places 1 ≡ some place
          → get_elem? (set places 0 Place.stopped) 1 ≡ some place
      second_stays [] place e = e
      second_stays (x ∷ places) place e = e

      both_stopped :
          (places : List Place)
          → length places ≡ 2
          → all_stopped (set (set places 0 Place.stopped) 1 Place.stopped) ≡ true
      both_stopped [] e = absurd (omega arith)
      both_stopped (x ∷ []) e = absurd (omega arith)
      both_stopped (x ∷ y ∷ []) e = refl
      both_stopped (x ∷ y ∷ z ∷ places) e = absurd (omega arith)

  -- XX
  pub finished-stops :
      (turns : List Turn)
      → All (λ turn. IsEvent total chunk turn.event) turns
      → (t : Threads) (sent : List (List ℕ)) → run turns (started init) ≡ ok (t, sent)
      → finished t.receiver ≡ true
      → (t' : Threads) × (more : List (List ℕ)) × (run (turns ++ last_turns) (started init)
          ≡ ok (t', sent ++ more))
        × (all_stopped t'.places ≡ true)
        × (finished t'.receiver ≡ true)
        × IsSound total chunk t'
  finished-stops turns d t sent e f =
      let (o, r, v) =
        run-Goes total chunk room turns (started init) (started-IsSound total chunk room) d in
      let sound = ok-unique (λ (o : Threads × List (List ℕ)). IsSound total chunk o.0) _ r e v in
      let (t', more, r', all, over, w) = last-Stops t sound f in
      (
        t',
        more,
        OnOk-ok _ _ r' (OnOk-ok _ _ e (run-append turns last_turns (started init))),
        all,
        over,
        w,
      )
