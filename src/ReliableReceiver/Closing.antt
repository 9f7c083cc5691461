-- ===== src/ReliableReceiver/Closing.antt =====
-- What src/reliable_receiver.cpp leaves open when it returns.
use mathlib.Core.Option.{none-ne-some}
use reliable_packet_transmis.Base.{
  ℕ, ◌≡◌, refl, sym, ◌∙◌, Bool, true, false, ◌||◌, if◌then◌else◌, ◌⊎◌, inl, inr, Bool-cases, List,
  [], ◌∷◌, none, some, ok, OnOk, OnOk-ok, >>=-OnOk_any,
}
use reliable_packet_transmis.System.{ℤ, is_negative, Mode, Call, Answers, port_of}
use reliable_packet_transmis.System.Descriptors.{left_open, both_removed, same_fd}
use reliable_packet_transmis.Receiver.{init}
use reliable_packet_transmis.ReliableReceiver.Threads.{Turn, started, run, all_stopped}
use reliable_packet_transmis.ReliableReceiver.Setup.{Execution, run_receiver, main}

-- What stays open: the file, if no socket could be made or bound.
abbrev pub leaked : Answers → List ℕ → List ℕ
leaked answers path =
    if is_negative answers.created || is_negative answers.bound
    then left_open (Call.open_file path Mode.create_truncate answers.opened ∷ [])
    else []

abbrev Leaks : List ℕ → Execution → Type 0
Leaks fds e = (left_open e.calls ≡ fds) ⊎ (e.code ≡ none)

run_receiver-Leaks :
    (opened created bound : ℤ) (port : ℕ) (path : List ℕ) (turns : List Turn)
    → let answers : Answers = record { opened = opened; created = created; bound = bound } in
      OnOk (Leaks (leaked answers path)) (run_receiver answers port path turns)
unfolding run_receiver left_open
run_receiver-Leaks (ℤ.negsuc n) created bound port path turns =
    inl (none_open (is_negative created || is_negative bound))
  where
    none_open : (b : Bool) → ◌≡◌ {A = List ℕ} [] (if b then [] else [])
    none_open true = refl
    none_open false = refl
run_receiver-Leaks (ℤ.pos f) (ℤ.negsuc n) bound port path turns = inl refl
run_receiver-Leaks (ℤ.pos f) (ℤ.pos s) (ℤ.negsuc n) port path turns = inl (rw (same_fd s) refl)
run_receiver-Leaks (ℤ.pos f) (ℤ.pos s) (ℤ.pos b) port path turns =
    >>=-OnOk_any (Leaks []) (run turns (started init)) _ (λ o.
      elim (Bool-cases (all_stopped o.0.places)) [
        | inl over ↦ rw over (inl (both_removed f s))
        | inr waits ↦ rw waits (inr refl)
      ])

-- When `main` of the receiver, run with two arguments, returns, the file that it has opened for
-- writing is still open if no socket could be made or bound, and nothing is open otherwise.
pub run_receiver-left_open :
    (answers : Answers) (name port path : List ℕ) (turns : List Turn) (e : Execution) (code : ℤ)
    → main answers (name ∷ port ∷ path ∷ []) turns ≡ ok e
    → e.code ≡ some code
    → left_open e.calls ≡ (
        if is_negative answers.created || is_negative answers.bound
        then left_open (Call.open_file path Mode.create_truncate answers.opened ∷ [])
        else [])
unfolding main
run_receiver-left_open answers name port path turns e code runs returns =
    elim (OnOk-ok (Leaks (leaked answers path)) _ runs
      (run_receiver-Leaks answers.opened answers.created answers.bound (port_of port) path turns)) [
        | inl same ↦ same
        | inr waits ↦ absurd (none-ne-some code (sym waits ∙ returns))
      ]
