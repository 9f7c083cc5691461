-- ===== src/System/Descriptors.antt =====
-- Which file descriptors the system calls of a program leave open.
use reliable_packet_transmis.Base.{ℕ, ◌≡◌, true, arith, ◌==◌, if◌then◌else◌, List, [], ◌∷◌}
use reliable_packet_transmis.System.{ℤ, Call}

abbrev pub remove : ℕ → List ℕ → List ℕ
remove fd [] = []
remove fd (x ∷ xs) = let rest = x ∷ remove fd xs in if x == fd then xs else rest

-- A descriptor is held from the call that returns it to its `close`.
abbrev after_call : Call → List ℕ → List ℕ
after_call (Call.open_file path mode (ℤ.pos fd)) held = fd ∷ held
after_call (Call.socket (ℤ.pos fd)) held = fd ∷ held
after_call (Call.close (ℤ.pos fd)) held = remove fd held
after_call _ held = held

abbrev held_after : List ℕ → List Call → List ℕ
held_after held [] = held
held_after held (call ∷ calls) = held_after (after_call call held) calls

unfoldable pub left_open : List Call → List ℕ
left_open calls = held_after [] calls

pub same_fd : (fd : ℕ) → (fd == fd) ≡ true
same_fd fd = ground arith

pub one_removed : (f : ℕ) → remove f (f ∷ []) ≡ []
one_removed f = ground arith

-- Two descriptors that are closed in the order in which they were opened.
pub both_removed : (f s : ℕ) → remove s (remove f (s ∷ f ∷ [])) ≡ []
both_removed f s = ground arith
