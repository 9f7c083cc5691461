-- ===== src/ReliableSender/Closing.antt =====
-- What src/reliable_sender.cpp leaves open when it returns.
use mathlib.Core.Option.{none-ne-some}
use reliable_packet_transmis.Base.{
  ℕ, ◌≡◌, refl, sym, ◌∙◌, false, ◌⊎◌, inl, inr, Bool-cases, List, [], ◌∷◌, none, some, ok, OnOk,
  OnOk-ok, >>=-OnOk_any,
}
use reliable_packet_transmis.System.{
  ℤ, is_negative, SockaddrIn, Mode, Call, Answers, port_of, count_of, inaddr_any, socket_timeout_us,
}
use reliable_packet_transmis.System.Descriptors.{left_open, same_fd, one_removed, both_removed}
use reliable_packet_transmis.Sender.{FileSource}
use reliable_packet_transmis.ReliableSender.Setup.{
  Events, Execution, transfer, joined, after_setup, reliably_transfer, main, bind_addr,
}

-- The program has closed what it opened, or it has not returned.
abbrev IsClean : Execution → Type 0
IsClean e = (left_open e.calls ≡ []) ⊎ (e.code ≡ none)

after_setup-IsClean :
    (f s : ℕ) (address bound_to : SockaddrIn) (host path : List ℕ) (code bound : ℤ) (us : ℕ)
    (source : FileSource) (bytes : ℕ) (events : Events)
    → OnOk IsClean (
        after_setup
          (ℤ.pos f)
          (ℤ.pos s)
          address
          (Call.inet_pton host code
            ∷ Call.open_file path Mode.read_only (ℤ.pos f)
            ∷ Call.socket (ℤ.pos s)
            ∷ Call.set_receive_timeout (ℤ.pos s) us
            ∷ Call.bind (ℤ.pos s) bound_to bound
            ∷ [])
          source
          bytes
          events)
unfolding after_setup left_open
after_setup-IsClean f s address bound_to host path code bound us source bytes events =
    >>=-OnOk_any IsClean (transfer source bytes events) _ (λ o. elim (Bool-cases (joined o.0)) [
      | inl over ↦ rw over (inl (both_removed f s))
      | inr waits ↦ rw waits (inr refl)
    ])

module _ (presented : List ℕ → ℕ → ℤ × ℕ) (host : List ℕ) (port : ℕ) (path : List ℕ)
    (source : FileSource) (bytes : ℕ) (events : Events) where
  accepted-IsClean :
      (opened created bound : ℤ)
      → is_negative (presented host inaddr_any).0 ≡ false
      → OnOk IsClean (
          reliably_transfer presented
            (record { opened = opened; created = created; bound = bound })
            host
            port
            path
            source
            bytes
            events)
  unfolding reliably_transfer left_open
  accepted-IsClean (ℤ.negsuc n) created bound accepted = rw accepted (inl refl)
  accepted-IsClean (ℤ.pos f) (ℤ.negsuc n) bound accepted = rw accepted (inl (one_removed f))
  accepted-IsClean (ℤ.pos f) (ℤ.pos s) (ℤ.negsuc n) accepted =
      rw accepted (inl (rw (same_fd s) (one_removed f)))
  accepted-IsClean (ℤ.pos f) (ℤ.pos s) (ℤ.pos b) accepted = rw accepted (
      after_setup-IsClean f s _ (bind_addr port) host path _ (ℤ.pos b) socket_timeout_us source
        bytes events)

  reliably_transfer-IsClean :
      (answers : Answers)
      → OnOk IsClean (reliably_transfer presented answers host port path source bytes events)
  unfolding reliably_transfer left_open
  reliably_transfer-IsClean answers =
      elim (Bool-cases (is_negative (presented host inaddr_any).0)) [
        | inl refused ↦ rw refused (inl refl)
        | inr accepted ↦ accepted-IsClean answers.opened answers.created answers.bound accepted
      ]

main-IsClean :
    (presented : List ℕ → ℕ → ℤ × ℕ) (answers : Answers) (args : List (List ℕ))
    (source : FileSource) (events : Events)
    → OnOk IsClean (main presented answers args source events)
unfolding main left_open
main-IsClean presented answers [] source events = inl refl
main-IsClean presented answers (a ∷ []) source events = inl refl
main-IsClean presented answers (a ∷ b ∷ []) source events = inl refl
main-IsClean presented answers (a ∷ b ∷ c ∷ []) source events = inl refl
main-IsClean presented answers (a ∷ b ∷ c ∷ d ∷ []) source events = inl refl
main-IsClean presented answers (name ∷ host ∷ port ∷ path ∷ bytes ∷ []) source events =
    reliably_transfer-IsClean presented host (port_of port) path source (count_of bytes) events
      answers
main-IsClean presented answers (a ∷ b ∷ c ∷ d ∷ e ∷ f ∷ rest) source events = inl refl

-- Whatever its arguments, whatever the system answers and whatever happens during the transfer:
-- when `main` of the sender returns, with any code, it has closed every file and socket that it
-- has opened.
pub main-left_open :
    (presented : List ℕ → ℕ → ℤ × ℕ) (answers : Answers) (args : List (List ℕ))
    (source : FileSource) (events : Events) (e : Execution) (code : ℤ)
    → main presented answers args source events ≡ ok e
    → e.code ≡ some code
    → left_open e.calls ≡ []
main-left_open presented answers args source events e code runs returns =
    elim (OnOk-ok IsClean _ runs (main-IsClean presented answers args source events)) [
      | inl closed ↦ closed
      | inr waits ↦ absurd (none-ne-some code (sym waits ∙ returns))
    ]
