-- ===== src/ReliableSender/InvalidHost.antt =====
-- A host that is no address, given to src/reliable_sender.cpp.
use reliable_packet_transmis.Base.{
  ℕ, ◌≡◌, ◌≢◌, refl, inl, inr, Bool-cases, List, [], ◌∷◌, none, some, ok, OnOk, OnOk-ok,
  >>=-OnOk_any,
}
use reliable_packet_transmis.System.{
  ℤ, htons, inaddr_any, socket_timeout_us, Mode, Call, port_of, count_of,
}
use reliable_packet_transmis.Sender.{FileSource}
use reliable_packet_transmis.ReliableSender.Setup.{
  Events, Execution, transfer, joined, after_setup, bind_addr, main,
}

-- The run has not failed, and it has sent everything to INADDR_ANY.
abbrev GoesOn : Execution → Type 0
GoesOn e = (e.code ≢ some (ℤ.negsuc 0)) × (e.receiver_addr.sin_addr ≡ inaddr_any)

zero_differs : some (ℤ.pos 0) ≢ some (ℤ.negsuc 0)
zero_differs e = absurd cc

waiting_differs : none ≢ some (ℤ.negsuc 0)
waiting_differs e = absurd cc

after_setup-GoesOn :
    (f s : ℤ) (port : ℕ) (calls : List Call) (source : FileSource) (bytes : ℕ) (events : Events)
    → OnOk GoesOn (
        after_setup f s
          (record { sin_port = port; sin_addr = inaddr_any })
          calls
          source
          bytes
          events)
unfolding after_setup
after_setup-GoesOn f s port calls source bytes events =
    >>=-OnOk_any GoesOn (transfer source bytes events) _ (λ o. elim (Bool-cases (joined o.0)) [
      | inl over ↦ rw over (zero_differs, refl)
      | inr waits ↦ rw waits (waiting_differs, refl)
    ])

-- If the host is no address, so that `inet_pton` returns 0 and writes nothing, and the file and
-- the socket can be opened, then `main` of the sender with four arguments does not fail: what it
-- sends goes to the address 0.0.0.0.
pub invalid_host-accepted :
    (presented : List ℕ → ℕ → ℤ × ℕ) (f s b : ℕ) (name host port path bytes : List ℕ)
    (source : FileSource) (events : Events) (e : Execution)
    → presented host inaddr_any ≡ (ℤ.pos 0, inaddr_any)
    → main presented
        (record { opened = ℤ.pos f; created = ℤ.pos s; bound = ℤ.pos b })
        (name ∷ host ∷ port ∷ path ∷ bytes ∷ [])
        source
        events
      ≡ ok e
    → (e.code ≢ some (ℤ.negsuc 0)) × (e.receiver_addr.sin_addr ≡ inaddr_any)
unfolding main
invalid_host-accepted presented f s b name host port path bytes source events e invalid runs =
    OnOk-ok GoesOn _ runs (
      rw invalid (
        after_setup-GoesOn (ℤ.pos f) (ℤ.pos s) (htons (port_of port))
          (Call.inet_pton host (ℤ.pos 0)
            ∷ Call.open_file path Mode.read_only (ℤ.pos f)
            ∷ Call.socket (ℤ.pos s)
            ∷ Call.set_receive_timeout (ℤ.pos s) socket_timeout_us
            ∷ Call.bind (ℤ.pos s) (bind_addr (port_of port)) (ℤ.pos b)
            ∷ [])
          source (count_of bytes) events))
