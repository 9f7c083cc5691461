-- ===== src/ReliableSender/Sound.antt =====
-- What holds of the threads of src/reliable_sender.cpp under every schedule, and that the steps of
-- `sendData` keep it.
use reliable_packet_transmis.Base.{
  ℕ, ◌+◌, ◌≤◌, ◌≡◌, refl, sym, ◌∙◌, subst, Bool, true, false, ltb, if◌then◌else◌, Bool-cases, inl,
  inr, List, [], ◌∷◌, length, OrDangling, All, All-map, arith,
}
use reliable_packet_transmis.Packet.{data_packet_size, DataPacket, AckPacket, Timeval}
use reliable_packet_transmis.Packet.Words.{FitsTimeval}
use reliable_packet_transmis.Packet.DataRoundTrip.{IsSendable, fill_buffer_data_packet_lem}
use reliable_packet_transmis.Sender.{
  Sender, FileSource, finished, has_data_to_send, prepare_data_packets_to_send,
}
use reliable_packet_transmis.Sender.Ack
use reliable_packet_transmis.Sender.Window.{IsFile}
use reliable_packet_transmis.Sender.Invariant.{IsValid}
use reliable_packet_transmis.Sender.Arrival.{ack_arrived_lem}
use reliable_packet_transmis.Sender.Sending.{IsSent, prepare_data_packets_to_send_lem}
use reliable_packet_transmis.Sender.Start.{finished_iff_acked}
use reliable_packet_transmis.ReliableSender.{Process}
use reliable_packet_transmis.ReliableSender.Threads.{
  Sending, Threads, Outcome, transmit, is_deleted, send_step,
}
use reliable_packet_transmis.ReliableSender.Schedule.{IsPlaced}

module _ (source : FileSource) (total last_size : ℕ) (chunk : ℕ → List ℕ)
    (file : IsFile source total last_size chunk) where
  pub record IsSound (t : Threads) : Type 0 where
    pub valid : IsValid total last_size chunk t.process.slide_window
    pub placed : IsPlaced t.sender t.done
    pub done_finished : t.done ≡ true → finished t.process.slide_window ≡ true

  abbrev pub After : Outcome → Type 0
  After = OrDangling (λ (o : Threads × List (List ℕ)). IsSound o.0)

  -- What a call on the window may do to it.
  abbrev pub Keeps : Sender → Sender → Type 0
  Keeps s s' = IsValid total last_size chunk s' × (finished s ≡ true → finished s' ≡ true)

  pub same_left-Keeps :
      (s s' : Sender)
      → IsValid total last_size chunk s
      → IsValid total last_size chunk s'
      → (s.slide_window_left_bound_seq_num ≡ total → s'.slide_window_left_bound_seq_num ≡ total)
      → Keeps s s'
  same_left-Keeps s s' v v' same = (
    v',
    λ f.
        (finished_iff_acked source total last_size chunk file s' v').1
          (same ((finished_iff_acked source total last_size chunk file s v).0 f)),
  )

  pub Keeps-IsSound :
      (t t' : Threads)
      → IsSound t
      → Keeps t.process.slide_window t'.process.slide_window
      → IsPlaced t'.sender t'.done
      → t'.done ≡ t.done
      → IsSound t'
  Keeps-IsSound t t' v k prepared same = record {
    valid = k.0;
    placed = prepared;
    done_finished = λ d. k.1 (v.done_finished (sym same ∙ d));
  }

  -- A step that leaves the shared objects and `done` alone.
  pub moved-IsSound :
      (t t' : Threads)
      → IsSound t
      → t'.process ≡ t.process
      → IsPlaced t'.sender t'.done
      → t'.done ≡ t.done
      → IsSound t'
  moved-IsSound t t' v e prepared same =
      Keeps-IsSound t t' v
        (subst (λ (p : Process). Keeps t.process.slide_window p.slide_window) (sym e)
          (v.valid, λ f. f))
        prepared same

  prepare-Keeps :
      (s : Sender) (now : Timeval)
      → FitsTimeval now
      → IsValid total last_size chunk s
      → Keeps s (prepare_data_packets_to_send s now).0
  prepare-Keeps s now fits v =
      let (valid, _, _, span, _, _) =
        prepare_data_packets_to_send_lem source total last_size chunk file s now fits v in
      same_left-Keeps s _ v valid (λ e. span.0 ∙ e)

  pub ack_arrived-Keeps :
      (s : Sender) (ack : AckPacket)
      → IsValid total last_size chunk s
      → ack.cumulative_seq_num ≤ s.slide_window_left_bound_seq_num + length s.slide_window
      → OrDangling (Keeps s) (Ack.ack_arrived source s ack)
  ack_arrived-Keeps s ack v within =
      let (s', e, valid, left, _) =
        ack_arrived_lem source total last_size chunk file s ack v within in
      let stays =
        same_left-Keeps s s' v valid
          (λ at_end. left ∙ at_the_end _ _ at_end (omega (arith, v.holds.in_file, within))) in
      subst (OrDangling (Keeps s)) (sym e) stays
    where
      at_the_end : (n c : ℕ) → n ≡ total → c ≤ total → (if ltb n c then c else n) ≡ total
      at_the_end n c e h = ground arith

  -- A round of sending prepares packets that fit a datagram.
  prepared-Sendable :
      (s : Sender) (now : Timeval)
      → FitsTimeval now
      → IsValid total last_size chunk s
      → All IsSendable (prepare_data_packets_to_send s now).1
  prepared-Sendable s now fits v =
      let (_, _, _, _, _, sent) =
        prepare_data_packets_to_send_lem source total last_size chunk file s now fits v in
      All-map _ IsSendable (λ p (h : IsSent total chunk _ p). h.sendable) _ sent

  transmit-After :
      (packet : DataPacket) (packets : List DataPacket) (buffer : List ℕ) (t : Threads)
      → data_packet_size ≤ length buffer
      → All IsSendable (packet ∷ packets)
      → IsSound t
      → After (transmit packet packets buffer t)
  unfolding transmit
  transmit-After packet packets buffer t room sendable v =
      elim (Bool-cases (is_deleted t.process.slide_window packet)) [
        | inl gone ↦ rw gone tt
        | inr there ↦
            rw
              (
                there,
                fill_buffer_data_packet_lem packet buffer sendable.0
                    (omega (arith, sendable.0.in_datagram)),
              )
              (moved-IsSound t _ v refl sendable.1 refl)
      ]

  pub if-After : (b : Bool) (x y : Outcome) → After x → After y → After (if b then x else y)
  if-After true x y hx hy = hx
  if-After false x y hx hy = hy

  pub send_step-After :
      (place : Sending) (now : Timeval) (buffer : List ℕ) (t : Threads)
      → FitsTimeval now
      → data_packet_size ≤ length buffer
      → IsPlaced place t.done
      → IsSound t
      → After (send_step place now buffer t)
  unfolding send_step
  send_step-After Sending.testing now buffer t fits room prepared v =
      elim (Bool-cases (finished t.process.slide_window)) [
        | inl f ↦ rw f (record { valid = v.valid; placed = refl; done_finished = λ _. f })
        | inr going ↦ rw going (moved-IsSound t _ v refl tt refl)
      ]
  send_step-After Sending.asking now buffer t fits room prepared v =
      if-After (has_data_to_send t.process.slide_window) _ _ (moved-IsSound t _ v refl tt refl)
        (moved-IsSound t _ v refl tt refl)
  send_step-After Sending.asking_finished now buffer t fits room prepared v =
      if-After (finished t.process.slide_window) _ _ (moved-IsSound t _ v refl tt refl)
        (moved-IsSound t _ v refl tt refl)
  send_step-After Sending.falling_asleep now buffer t fits room prepared v =
      moved-IsSound t _ v refl tt refl
  send_step-After Sending.asleep now buffer t fits room prepared v = v
  send_step-After Sending.bursting now buffer t fits room prepared v =
      if-After (has_data_to_send t.process.slide_window) _ _ (moved-IsSound t _ v refl tt refl)
        (moved-IsSound t _ v refl tt refl)
  send_step-After Sending.preparing now buffer t fits room prepared v =
      Keeps-IsSound t _ v (prepare-Keeps t.process.slide_window now fits v.valid)
        (prepared-Sendable t.process.slide_window now fits v.valid) refl
  send_step-After (Sending.sending []) now buffer t fits room prepared v =
      moved-IsSound t _ v refl tt refl
  send_step-After (Sending.sending (packet ∷ packets)) now buffer t fits room prepared v =
      transmit-After packet packets buffer t room prepared v
  send_step-After Sending.stopped now buffer t fits room prepared v = v
