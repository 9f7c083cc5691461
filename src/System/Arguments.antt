-- ===== src/System/Arguments.antt =====
-- The numbers on the command lines of src/reliable_sender.cpp and src/reliable_receiver.cpp: a decimal
-- number is read as its value.
use reliable_packet_transmis.Base.{
  ℕ, zero, suc, ◌+◌, ◌-◌, ◌*◌, ◌/◌, ◌%◌, ◌^◌, ◌≤◌, ◌<◌, ◌≡◌, refl, sym, ap, ◌∙◌, min, true, false,
  ltb, ◌==◌, if◌then◌else◌, List, [], ◌∷◌, ◌++◌, append-nil, append_assoc, arith, Bool-cases, inl,
  inr, ltb→lt, not_ltb→le,
}
use reliable_packet_transmis.System.{ℤ, digits, is_digit, is_space, atoll, port_of, count_of}

-- The decimal digits of a number; `fuel` is at least the number.
unfoldable pub decimal_on : ℕ → ℕ → List ℕ
decimal_on zero n = (b'0' + n) ∷ []
decimal_on (suc fuel) n =
    let rest = decimal_on fuel (n / 10) in
    if ltb n 10 then (b'0' + n) ∷ [] else rest ++ ((b'0' + n % 10) ∷ [])

unfoldable pub decimal : ℕ → List ℕ
decimal n = decimal_on n n

digits-digit :
    (acc d : ℕ) (cs : List ℕ) → d < 10 → digits acc ((b'0' + d) ∷ cs) ≡ digits (acc * 10 + d) cs
unfolding digits
digits-digit acc d cs h = rw (digit d h, value d) refl
  where
    digit : (d : ℕ) → d < 10 → is_digit (b'0' + d) ≡ true
    digit d h = ground arith

    value : (d : ℕ) → (b'0' + d) - b'0' ≡ d
    value d = omega arith

digits-one : (n : ℕ) (cs : List ℕ) → n < 10 → digits 0 ((b'0' + n) ∷ cs) ≡ digits n cs
digits-one n cs h =
    let starts : 0 * 10 + n ≡ n = omega arith in
    digits-digit 0 n cs h ∙ ap (λ acc. digits acc cs) starts

digits-decimal_on :
    (fuel n : ℕ) (cs : List ℕ) → n ≤ fuel → digits 0 (decimal_on fuel n ++ cs) ≡ digits n cs
unfolding decimal_on
digits-decimal_on zero n cs h = digits-one n cs (omega arith)
digits-decimal_on (suc fuel) n cs h = elim (Bool-cases (ltb n 10)) [
  | inl one ↦ rw one (digits-one n cs (ltb→lt n 10 one))
  | inr more ↦
      let ten = not_ltb→le n 10 more in
      let whole : n / 10 * 10 + n % 10 ≡ n = omega arith in
      rw (
        more,
        append_assoc (decimal_on fuel (n / 10)) ((b'0' + n % 10) ∷ []) cs,
        digits-decimal_on fuel (n / 10) ((b'0' + n % 10) ∷ cs) (omega arith),
        digits-digit (n / 10) (n % 10) cs (omega arith),
        whole,
      )
]

-- A number begins with a digit.
decimal_on-first :
    (fuel n : ℕ)
    → n ≤ fuel
    → (c : ℕ) × (cs : List ℕ) × (decimal_on fuel n ≡ c ∷ cs) × (b'0' ≤ c) × (c ≤ b'9')
unfolding decimal_on
decimal_on-first zero n h = (b'0' + n, [], refl, omega arith, omega arith)
decimal_on-first (suc fuel) n h = elim (Bool-cases (ltb n 10)) [
  | inl one ↦ let small = ltb→lt n 10 one in (b'0' + n, [], rw one refl, omega arith, omega arith)
  | inr more ↦
      let ten = not_ltb→le n 10 more in
      let (c, cs, e, low, high) = decimal_on-first fuel (n / 10) (omega arith) in
      (c, cs ++ ((b'0' + n % 10) ∷ []), rw (more, e), low, high)
]

-- A text that begins with a digit is read without a sign.
atoll-digits :
    (c : ℕ) (cs : List ℕ)
    → b'0' ≤ c
    → c ≤ b'9'
    → atoll (c ∷ cs) ≡ ℤ.pos (min (digits 0 (c ∷ cs)) (2 ^ 63 - 1))
unfolding atoll
atoll-digits c cs low high = rw (no_space c low high, no_minus c low high, no_plus c low high) refl
  where
    no_space : (c : ℕ) → b'0' ≤ c → c ≤ b'9' → is_space c ≡ false
    no_space c low high = ground arith

    no_minus : (c : ℕ) → b'0' ≤ c → c ≤ b'9' → (c == b'-') ≡ false
    no_minus c low high = ground arith

    no_plus : (c : ℕ) → b'0' ≤ c → c ≤ b'9' → (c == b'+') ≡ false
    no_plus c low high = ground arith

-- The decimal digits of a number below 2 ^ 63 are read back by `atoll` as that number, by the
-- sender as that number of bytes, and by both programs as the port that is its low 16 bits.
pub atoll-decimal :
    (n : ℕ)
    → n < 2 ^ 63
    → (atoll (decimal n) ≡ ℤ.pos n)
      × (count_of (decimal n) ≡ n)
      × (port_of (decimal n) ≡ n % 2 ^ 16)
unfolding decimal count_of port_of digits
atoll-decimal n h =
    let (c, cs, e, low, high) = decimal_on-first n n (omega arith) in
    let value : digits 0 (decimal_on n n) ≡ n =
      ap (digits 0) (sym (append-nil (decimal_on n n))) ∙ digits-decimal_on n n [] (omega arith) in
    let read : atoll (decimal_on n n) ≡ ℤ.pos n =
      ap atoll e
      ∙ atoll-digits c cs low high
      ∙ ap (λ (bytes : List ℕ). ℤ.pos (min (digits 0 bytes) (2 ^ 63 - 1))) (sym e)
      ∙ ap ℤ.pos (ap (λ m. min m (2 ^ 63 - 1)) value ∙ within n h) in
    (read, rw (read, wraps n h), rw read refl)
  where
    within : (n : ℕ) → n < 2 ^ 63 → min n (2 ^ 63 - 1) ≡ n
    within n h = omega arith

    wraps : (n : ℕ) → n < 2 ^ 63 → n % 2 ^ 64 ≡ n
    wraps n h = omega arith
