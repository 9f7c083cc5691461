-- ===== src/ReliableReceiver/Linear.antt =====
-- The steps of the threads of src/reliable_receiver.cpp next to a serial run: each step keeps what is known
-- of it.
use reliable_packet_transmis.Base.{
  ℕ, ◌≤◌, ◌≡◌, ◌≢◌, refl, subst, true, Bool-cases, inl, inr, List, [], ◌∷◌, ◌++◌, Option, none,
  some, ok, OnOk, OnOk-ok, OnOk-self, >>=-OnOk, length, append-nil, append_assoc, get_elem?, set,
  All, All-append, All-set, All-map, All-get, All-replicate, Elem, Elem-front, Elem-rest,
}
use reliable_packet_transmis.Packet.{
  DataPacket, DataType, AckType, data_packet_size, read_buffer_data_packet,
}
use reliable_packet_transmis.Packet.AckRoundTrip.{ack_datagram}
use reliable_packet_transmis.Receiver.{Receiver, Reply, is_data, receive_data_packet, finished}
use reliable_packet_transmis.ReliableReceiver.{
  on_datagram, receive_buffer, cleared_packet, handshake_ack, regular_ack,
}
use reliable_packet_transmis.ReliableReceiver.Datagrams.{send_ack_lem}
use reliable_packet_transmis.ReliableReceiver.Threads.{
  Place, Threads, Turn, dispatch, step, perform, run, Outcome,
}
use reliable_packet_transmis.ReliableReceiver.Rounds.{
  serve, serve-append, copies, copied, room_for_ack, stored_round, greeted_round,
}

-- What is known of a thread at each place, when `answers` have gone out in the serial run.
abbrev pub IsKept : (List ℕ → Type 0) → List (List ℕ) → Place → Type 0
IsKept From answers (Place.storing received packet) =
    From received
    × (length received ≤ data_packet_size)
    × (read_buffer_data_packet cleared_packet (receive_buffer received) (length received)
        ≡ ok packet)
    × (is_data packet.type ≡ true)
IsKept From answers (Place.answering received ack) =
    (ack.type ≢ AckType.invalid)
    × (length received ≤ data_packet_size)
    × Elem (ack_datagram ack) answers
IsKept From answers _ = Unit

IsKept-append :
    (From : List ℕ → Type 0) (answers more : List (List ℕ)) (place : Place)
    → IsKept From answers place
    → IsKept From (answers ++ more) place
IsKept-append From answers more Place.testing k = tt
IsKept-append From answers more Place.listening k = tt
IsKept-append From answers more (Place.storing received packet) k = k
IsKept-append From answers more (Place.answering received ack) k =
    (k.0, k.1, Elem-front (ack_datagram ack) answers more k.2)
IsKept-append From answers more Place.stopped k = tt

-- What `recvfrom` may give: bytes of which `From` holds, as many as the buffer has room for.
abbrev pub IsGiven : (List ℕ → Type 0) → Option (List ℕ) → Type 0
IsGiven From none = Unit
IsGiven From (some received) = From received × (length received ≤ data_packet_size)

module _ (init : Receiver) (From : List ℕ → Type 0) where
  -- A serial run that has led to the same window and has sent all that the threads have sent.
  pub record IsLinear (t : Threads) (sent : List (List ℕ)) : Type 0 where
    pub taken : List (List ℕ)
    pub answers : List (List ℕ)
    pub serves : serve init taken ≡ ok (t.receiver, answers)
    pub from : All From taken
    pub answered : All (λ datagram. Elem datagram answers) sent
    pub kept : All (IsKept From answers) t.places

  -- A step that leaves the window alone and sends what has been answered.
  spoken-IsLinear :
      (t : Threads) (sent more : List (List ℕ)) (l : IsLinear t sent) (i : ℕ) (place : Place)
      → IsKept From l.answers place
      → All (λ datagram. Elem datagram l.answers) more
      → IsLinear (record t { places = set t.places i place }) (sent ++ more)
  spoken-IsLinear t sent more l i place k m = record {
    taken = l.taken;
    answers = l.answers;
    serves = l.serves;
    from = l.from;
    answered = All-append _ sent more l.answered m;
    kept = All-set (IsKept From l.answers) t.places i place l.kept k;
  }

  moved-IsLinear :
      (t : Threads) (sent : List (List ℕ)) (l : IsLinear t sent) (i : ℕ) (place : Place)
      → IsKept From l.answers place
      → IsLinear (record t { places = set t.places i place }) (sent ++ [])
  moved-IsLinear t sent l i place k = spoken-IsLinear t sent [] l i place k tt

  waits-IsLinear : (t : Threads) (sent : List (List ℕ)) → IsLinear t sent → IsLinear t (sent ++ [])
  waits-IsLinear t sent l = rw (append-nil sent) l

  taken-IsLinear :
      (t : Threads) (sent : List (List ℕ)) (l : IsLinear t sent) (i : ℕ) (place : Place)
      (received : List ℕ) (r' : Receiver) (more : List (List ℕ))
      → From received
      → on_datagram t.receiver received ≡ ok (r', more)
      → IsKept From (l.answers ++ more) place
      → IsLinear (record { receiver = r'; places = set t.places i place }) (sent ++ [])
  taken-IsLinear t sent l i place received r' more from e k = record {
    taken = l.taken ++ (received ∷ []);
    answers = l.answers ++ more;
    serves = OnOk-ok _ _ e (OnOk-ok _ _ l.serves (serve-append init l.taken received));
    from = All-append From l.taken _ l.from (from, tt);
    answered =
        All-append _ sent []
          (All-map _ _ (λ datagram m. Elem-front datagram l.answers more m) sent l.answered) tt;
    kept =
        All-set (IsKept From (l.answers ++ more)) t.places i place
          (All-map _ _ (IsKept-append From l.answers more) t.places l.kept) k;
  }

  dispatched-IsLinear :
      (type : DataType) (t : Threads) (sent : List (List ℕ)) (l : IsLinear t sent) (i : ℕ)
      (received : List ℕ) (packet : DataPacket)
      → packet.type ≡ type
      → From received
      → length received ≤ data_packet_size
      → read_buffer_data_packet cleared_packet (receive_buffer received) (length received)
        ≡ ok packet
      → IsLinear (record t { places = set t.places i (dispatch type received packet) }) (sent ++ [])
  dispatched-IsLinear DataType.invalid t sent l i received packet kind from short read =
      moved-IsLinear t sent l i Place.testing tt
  dispatched-IsLinear DataType.handshake t sent l i received packet kind from short read =
      let ack = handshake_ack packet.sent_time in
      taken-IsLinear t sent l i (Place.answering received ack) received t.receiver _ from
        (greeted_round t.receiver received packet short read kind)
        (
          λ e. cc,
          short,
          Elem-rest (ack_datagram ack) l.answers _ (copied t.receiver (ack_datagram ack)),
        )
  dispatched-IsLinear DataType.regular t sent l i received packet kind from short read =
      moved-IsLinear t sent l i (Place.storing received packet) (from, short, read, rw kind refl)
  dispatched-IsLinear DataType.finish t sent l i received packet kind from short read =
      moved-IsLinear t sent l i (Place.storing received packet) (from, short, read, rw kind refl)

  abbrev Goes : List (List ℕ) → Outcome → Type 0
  Goes sent = OnOk (λ (o : Threads × List (List ℕ)). IsLinear o.0 (sent ++ o.1))

  step-IsLinear :
      (place : Option Place) (i : ℕ) (event : Option (List ℕ)) (t : Threads) (sent : List (List ℕ))
      (l : IsLinear t sent)
      → ((p : Place) → place ≡ some p → IsKept From l.answers p)
      → IsGiven From event
      → Goes sent (step place i event t)
  unfolding step
  step-IsLinear none i event t sent l k g = waits-IsLinear t sent l
  step-IsLinear (some Place.testing) i event t sent l k g =
      elim (Bool-cases (finished t.receiver)) [
        | inl over ↦ rw over (moved-IsLinear t sent l i Place.stopped tt)
        | inr going ↦ rw going (moved-IsLinear t sent l i Place.listening tt)
      ]
  step-IsLinear (some Place.listening) i none t sent l k g =
      moved-IsLinear t sent l i Place.testing tt
  step-IsLinear (some Place.listening) i (some received) t sent l k g =
      >>=-OnOk
        (λ (packet : DataPacket).
          read_buffer_data_packet cleared_packet (receive_buffer received) (length received)
          ≡ ok packet)
        (λ (o : Threads × List (List ℕ)). IsLinear o.0 (sent ++ o.1))
        (read_buffer_data_packet cleared_packet (receive_buffer received) (length received)) _
        (OnOk-self
          (read_buffer_data_packet cleared_packet (receive_buffer received) (length received)))
        (λ packet read.
          dispatched-IsLinear packet.type t sent l i received packet refl g.0 g.1 read)
  step-IsLinear (some (Place.storing received packet)) i event t sent l k g =
      let (from, short, read, kind) = k (Place.storing received packet) refl in
      >>=-OnOk (λ (o : Receiver × Reply). receive_data_packet t.receiver packet ≡ ok o) _ _ _
        (OnOk-self (receive_data_packet t.receiver packet))
        (λ o e.
          let ack = regular_ack o.1 packet.sent_time in
          taken-IsLinear t sent l i (Place.answering received ack) received o.0 _ from
            (stored_round t.receiver o.0 o.1 received packet short read kind e)
            (
              λ e. cc,
              short,
              Elem-rest (ack_datagram ack) l.answers _ (copied o.0 (ack_datagram ack)),
            ))
  step-IsLinear (some (Place.answering received ack)) i event t sent l k g =
      let (known, short, there) = k (Place.answering received ack) refl in
      rw (send_ack_lem t.receiver ack (receive_buffer received) known (room_for_ack received short))
        (spoken-IsLinear t sent _ l i Place.testing tt
          (All-replicate _ (copies t.receiver) (ack_datagram ack) there))
  step-IsLinear (some Place.stopped) i event t sent l k g = waits-IsLinear t sent l

  perform-IsLinear :
      (turn : Turn) (t : Threads) (sent : List (List ℕ))
      → IsLinear t sent
      → IsGiven From turn.event
      → Goes sent (perform turn t)
  unfolding perform
  perform-IsLinear turn t sent l g =
      step-IsLinear (get_elem? t.places turn.thread) turn.thread turn.event t sent l
        (λ p e. All-get (IsKept From l.answers) t.places turn.thread l.kept e) g

  pub run-IsLinear :
      (turns : List Turn) (t : Threads) (sent : List (List ℕ))
      → IsLinear t sent
      → All (λ turn. IsGiven From turn.event) turns
      → Goes sent (run turns t)
  unfolding run
  run-IsLinear [] t sent l g = waits-IsLinear t sent l
  run-IsLinear (turn ∷ turns) t sent l g =
      >>=-OnOk (λ (o : Threads × List (List ℕ)). IsLinear o.0 (sent ++ o.1)) _ (perform turn t) _
        (perform-IsLinear turn t sent l g.0)
        (λ o h.
          >>=-OnOk (λ (o' : Threads × List (List ℕ)). IsLinear o'.0 ((sent ++ o.1) ++ o'.1)) _
            (run turns o.0) _ (run-IsLinear turns o.0 (sent ++ o.1) h g.1)
            (λ o' h'. subst (IsLinear o'.0) (append_assoc sent o.1 o'.1) h'))
