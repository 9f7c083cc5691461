-- ===== src/Base/Results.antt =====
-- What a call can come to: a value, or one of the ways in which the program goes wrong.
use mathlib.Core.Path.{◌≡◌, refl, sym, ap, subst, ◌∙◌}

pub data Fault : Type 0 where
  -- an `assert` that fails stops the process
  assertion : Fault
  -- an access outside a buffer or a deque: undefined behaviour
  out_of_bounds : Fault
  -- an access to an object that has been deleted: undefined behaviour
  dangling : Fault

pub data Result {ℓ} (A : Type ℓ) : Type ℓ where
  ok : A → Result A
  fault : Fault → Result A

infixl 5 ◌>>=◌
abbrev pub ◌>>=◌ {ℓ κ} : {A : Type ℓ} {B : Type κ} → Result A → (A → Result B) → Result B
ok value >>= rest = rest value
fault why >>= rest = fault why

ok_or {ℓ} : {A : Type ℓ} → A → Result A → A
ok_or d (ok a) = a
ok_or d (fault why) = d

-- What is known of the value that a call returns holds of any value that it is said to return.
pub ok-unique {ℓ κ} :
    {A : Type ℓ} (P : A → Type κ) (m : Result A) {x y : A} → m ≡ ok x → m ≡ ok y → P x → P y
unfolding ok_or
ok-unique P m {x} {y} ex ey = subst P (ap (ok_or x) (sym ex ∙ ey))

-- What holds of the value if a call returns one.
abbrev pub OnOk {ℓ κ} : {A : Type ℓ} → (A → Type κ) → Result A → Type κ
OnOk P (ok value) = P value
OnOk P (fault why) = Unit

pub >>=-OnOk {ℓ κ ι} :
    {A B : Type ℓ} (P : A → Type κ) (Q : B → Type ι) (m : Result A) (rest : A → Result B)
    → OnOk P m
    → ((a : A) → P a → OnOk Q (rest a))
    → OnOk Q (m >>= rest)
>>=-OnOk P Q (ok value) rest p next = next value p
>>=-OnOk P Q (fault why) rest p next = tt

pub >>=-OnOk_any {ℓ κ} :
    {A B : Type ℓ} (Q : B → Type κ) (m : Result A) (rest : A → Result B)
    → ((a : A) → OnOk Q (rest a))
    → OnOk Q (m >>= rest)
>>=-OnOk_any Q (ok value) rest next = next value
>>=-OnOk_any Q (fault why) rest next = tt

pub OnOk-ok {ℓ κ} : {A : Type ℓ} (P : A → Type κ) (m : Result A) {x : A} → m ≡ ok x → OnOk P m → P x
OnOk-ok P m e h = subst (OnOk P) e h

pub OnOk-map {ℓ κ ι} :
    {A : Type ℓ} (P : A → Type κ) (Q : A → Type ι) (m : Result A)
    → OnOk P m
    → ((a : A) → P a → OnOk Q (ok a))
    → OnOk Q m
OnOk-map P Q (ok value) h f = f value h
OnOk-map P Q (fault why) h f = tt

pub OnOk-self {ℓ} : {A : Type ℓ} (m : Result A) → OnOk (λ (a : A). m ≡ ok a) m
OnOk-self (ok value) = refl
OnOk-self (fault why) = tt

-- What holds of the value that a call returns, where the only fault is an access to a deleted object.
abbrev pub OrDangling {ℓ} : {A : Type ℓ} → (A → Type 0) → Result A → Type 0
OrDangling P (ok value) = P value
OrDangling P (fault Fault.dangling) = Unit
OrDangling P (fault Fault.assertion) = ⊥
OrDangling P (fault Fault.out_of_bounds) = ⊥

pub >>=-OrDangling {ℓ} :
    {A B : Type ℓ} (P : A → Type 0) (Q : B → Type 0) (m : Result A) (rest : A → Result B)
    → OrDangling P m
    → ((a : A) → m ≡ ok a → P a → OrDangling Q (rest a))
    → OrDangling Q (m >>= rest)
>>=-OrDangling P Q (ok value) rest p next = next value refl p
>>=-OrDangling P Q (fault Fault.dangling) rest p next = tt
>>=-OrDangling P Q (fault Fault.assertion) rest p next = p
>>=-OrDangling P Q (fault Fault.out_of_bounds) rest p next = p

pub OrDangling-ok {ℓ} :
    {A : Type ℓ} (P : A → Type 0) (m : Result A) {x : A} → m ≡ ok x → OrDangling P m → P x
OrDangling-ok P m e h = subst (OrDangling P) e h

pub OrDangling-fault {ℓ} :
    {A : Type ℓ} (P : A → Type 0) (m : Result A) (why : Fault)
    → m ≡ fault why
    → OrDangling P m
    → why ≡ Fault.dangling
OrDangling-fault P m Fault.dangling e h = refl
OrDangling-fault P m Fault.assertion e h = elim (subst (OrDangling P) e h) [ ]
OrDangling-fault P m Fault.out_of_bounds e h = elim (subst (OrDangling P) e h) [ ]
