-- ===== src/Receiver/Examples.antt =====
-- The receiver of src/slideWindowReceiver.cpp at concrete values: a file of three packets of a byte each.
use reliable_packet_transmis.Receiver.Debug.{debug_receive_data_packet}
use reliable_packet_transmis.Receiver.Release.{debug_receive-release}
use reliable_packet_transmis.Base.{
  ℕ, ◌+◌, ◌≡◌, ◌||◌, refl, Bool, true, false, List, [], ◌∷◌, arith, Result, ok, ◌>>=◌, ltb, ltb→lt,
  tests, sym, ap, inl, ◌∙◌,
}
use reliable_packet_transmis.Packet.{DataPacket, DataType, Timeval}
use reliable_packet_transmis.Receiver.{
  Receiver, Reply, init, new_items, receive_data_packet, finished,
}
use reliable_packet_transmis.Receiver.Window.{
  length-new_items, new_items-Consecutive, has_in-append-new_items, count_received-append-new_items,
  HeadOpen-append-new_items,
}
use reliable_packet_transmis.Receiver.Invariant.{has, chunk_write, IsInPlace, IsPacketOf, IsValid}
use reliable_packet_transmis.Receiver.Receive.{
  init-IsValid, Receives, receive_data_packet_lem, is_finish,
}
use reliable_packet_transmis.Receiver.Finished.{finished-writes}

abbrev pub midnight : Timeval
midnight = record { tv_sec = 0; tv_usec = 0 }

abbrev pub three_bytes : ℕ → List ℕ
three_bytes k = (65 + k) ∷ []

abbrev pub packet_at : DataType → ℕ → DataPacket
packet_at type k = record {
  type = type;
  seq_num = k;
  sent_time = midnight;
  data_size = 1;
  data_bytes = (65 + k) ∷ 0 ∷ [];
}

pub finish-IsPacketOf : IsPacketOf 3 three_bytes (packet_at DataType.finish 2)
finish-IsPacketOf = record {
  kind = refl;
  in_range = omega arith;
  bytes_of = refl;
  finish_is_last = λ _. refl;
  last_is_finish = λ _. refl;
}

-- Three packets out of order, and a fourth that comes twice: the cumulative numbers of the replies
-- are 0, 1, 3 and 3.
abbrev replies : Result (List ℕ × Bool)
unfolding init receive_data_packet finished
replies = do
  (r, a) ← receive_data_packet init (packet_at DataType.finish 2)
  (r, b) ← receive_data_packet r (packet_at DataType.regular 0)
  (r, c) ← receive_data_packet r (packet_at DataType.regular 1)
  (r, d) ← receive_data_packet r (packet_at DataType.regular 1)
  ok (
    a.cumulative_seq_num ∷ b.cumulative_seq_num ∷ c.cumulative_seq_num ∷ d.cumulative_seq_num ∷ [],
    finished r,
  )

replies-out_of_order : replies ≡ ok (0 ∷ 1 ∷ 3 ∷ 3 ∷ [], true)
unfolding replies init receive_data_packet finished new_items
replies-out_of_order = refl

receive_data_packet_example :
    (r' : Receiver) × (reply : Reply) × Receives 3 three_bytes init
      (packet_at DataType.finish 2)
      (receive_data_packet init (packet_at DataType.finish 2))
      r'
      reply
    × (has r' reply.cumulative_seq_num ≡ false)
    × (r'.last_packet_seq_num_received
        ≡ (is_finish (packet_at DataType.finish 2).type || init.last_packet_seq_num_received))
receive_data_packet_example =
    receive_data_packet_lem 3 three_bytes (omega arith) init (packet_at DataType.finish 2)
      finish-IsPacketOf (init-IsValid 3 three_bytes).0

-- A receiver that has finished a file of one packet.
abbrev done : Receiver
done = record {
  last_packet_seq_num_received = true;
  last_packet_seq_num = 0;
  next_expected_packet_seq_num = 1;
  cur_window_size = 200;
  slide_window = new_items 200 1 0;
  writes = record { offset = 0; bytes = 65 ∷ [] } ∷ [];
}

done-IsValid : IsValid 1 three_bytes done
done-IsValid =
    let open_items : (k : ℕ) → has done k ≡ ltb k 1 =
      (λ k. has_in-append-new_items 1 k 200 1 0 [] ∙ ground arith) in
    let first : (k : ℕ) → has done k ≡ true → k ≡ 0 =
      (λ k e. omega (tests, ltb→lt k 1 (sym (open_items k) ∙ e))) in
    record {
      holds = record {
        sized = refl;
        short = omega (arith, length-new_items 200 1 0);
        consecutive = new_items-Consecutive 200 1 0 1 refl (omega arith);
        bounded = λ k e. omega (arith, first k e);
        stored = λ k e. inl (ap (chunk_write three_bytes) (first k e));
        honest = ((0, omega arith, refl), tt);
        counted = omega (arith, count_received-append-new_items 200 1 0 []);
        last_known = λ _. refl;
        last_heard = λ _ _ _. refl;
      };
      filled = length-new_items 200 1 0;
      head_open = HeadOpen-append-new_items 200 1 0 [] tt;
    }

finished-writes_example : IsInPlace 1 three_bytes done.writes
unfolding finished
finished-writes_example = finished-writes 1 three_bytes done (omega arith) done-IsValid refl

debug_receive-release_example :
    debug_receive_data_packet init (packet_at DataType.finish 2)
    ≡ receive_data_packet init (packet_at DataType.finish 2)
debug_receive-release_example =
    debug_receive-release 3 three_bytes (omega arith) init (packet_at DataType.finish 2)
      finish-IsPacketOf (init-IsValid 3 three_bytes).0
