-- ===== src/Receiver/Window.antt =====
-- The receiver's deque of items: consecutive numbers, and which of them have been received.
use reliable_packet_transmis.Base.{
  ℕ, zero, suc, ◌+◌, ◌-◌, ◌^◌, ◌≤◌, ◌<◌, ◌≡◌, refl, ap, Bool, true, false, ◌||◌, ltb, ◌==◌,
  if◌then◌else◌, List, [], ◌∷◌, ◌++◌, Option, none, some, length, get_elem?, set, add32, arith,
  tests, ◌∙◌, lt→ltb, get_elem?-set, get_elem?-cons, Bool-cases, inl, inr,
}
use reliable_packet_transmis.Receiver.{Item, is_received, new_items, slide}

-- The items carry the numbers from `n` on.
abbrev pub Consecutive : ℕ → List Item → Type 0
Consecutive n [] = Unit {0}
Consecutive n (x ∷ xs) = (x.seq_num ≡ n) × Consecutive (n + 1) xs

-- The first item, if there is one, has not been received.
abbrev pub HeadOpen : List Item → Type 0
HeadOpen [] = Unit {0}
HeadOpen (x ∷ xs) = is_received x.state ≡ false

abbrev pub item_received : Option Item → Bool
item_received none = false
item_received (some x) = is_received x.state

-- Whether number `k` has been received: it lies left of the window, or its item says so.
abbrev pub has_in : ℕ → List Item → ℕ → Bool
has_in n xs k = if ltb k n then true else item_received (get_elem? xs (k - n))

abbrev pub count_received : List Item → ℕ
count_received [] = 0
count_received (x ∷ xs) = (if is_received x.state then 1 else 0) + count_received xs

pub length-new_items : (rounds n i : ℕ) → length (new_items rounds n i) ≡ rounds
unfolding new_items
length-new_items zero n i = refl
length-new_items (suc rounds) n i = ap suc (length-new_items rounds n (i + 1))

pub new_items-Consecutive :
    (rounds n i k : ℕ) → n + i ≡ k → k + rounds ≤ 2 ^ 32 → Consecutive k (new_items rounds n i)
unfolding new_items
new_items-Consecutive zero n i k e h = tt
new_items-Consecutive (suc rounds) n i k e h =
    (omega arith, new_items-Consecutive rounds n (i + 1) (k + 1) (omega arith) (omega arith))

pub Consecutive-append :
    (n k : ℕ) (xs ys : List Item)
    → n + length xs ≡ k
    → Consecutive n xs
    → Consecutive k ys
    → Consecutive n (xs ++ ys)
Consecutive-append n k [] ys e cx cy = let e' : n ≡ k = omega arith in rw e' cy
Consecutive-append n k (x ∷ xs) ys e cx cy =
    (cx.0, Consecutive-append (n + 1) k xs ys (omega arith) cx.1 cy)

pub Consecutive-get :
    (n i : ℕ) (xs : List Item) {x : Item}
    → Consecutive n xs
    → get_elem? xs i ≡ some x
    → x.seq_num ≡ n + i
Consecutive-get n i [] c e = cc
Consecutive-get n zero (y ∷ xs) c e = ground arith
Consecutive-get n (suc i) (y ∷ xs) c e = omega (arith, Consecutive-get (n + 1) i xs c.1 e)

pub Consecutive-set :
    (n i : ℕ) (xs : List Item) (x : Item)
    → Consecutive n xs
    → x.seq_num ≡ n + i
    → Consecutive n (set xs i x)
Consecutive-set n i [] x c e = tt
Consecutive-set n zero (y ∷ xs) x c e = (omega arith, c.1)
Consecutive-set n (suc i) (y ∷ xs) x c e = (c.0, Consecutive-set (n + 1) i xs x c.1 (omega arith))

-- Receiving an open item makes its number received, and no other.
pub has_in-set :
    (n i k : ℕ) (xs : List Item) (x : Item)
    → i < length xs
    → is_received x.state ≡ true
    → has_in n (set xs i x) k ≡ (has_in n xs k || k == n + i)
has_in-set n i k xs x h r = elim (Bool-cases (ltb k n)) [
  | inl left ↦ rw left
  | inr inside ↦ rw inside (rw (get_elem?-set xs i (k - n) x h) (ground arith))
]

has_in-cons_left :
    (n k : ℕ) (x : Item) (xs : List Item)
    → is_received x.state ≡ true
    → k ≤ n
    → has_in (n + 1) xs k ≡ has_in n (x ∷ xs) k
has_in-cons_left n k x xs r h =
    let e : k - n ≡ 0 = omega arith in rw (lt→ltb k (n + 1) (omega arith), e) (ground arith)

-- A received item at the front can be dropped.
pub has_in-cons :
    (n k : ℕ) (x : Item) (xs : List Item)
    → is_received x.state ≡ true
    → has_in (n + 1) xs k ≡ has_in n (x ∷ xs) k
has_in-cons n k x xs r = elim (Bool-cases (ltb n k)) [
  | inl right ↦
      rw (get_elem?-cons x xs (k - n) (omega tests))
        (let e : k - (n + 1) ≡ k - n - 1 = omega arith in rw e (ground arith))
  | inr left ↦ has_in-cons_left n k x xs r (omega tests)
]

pub count_received-set :
    (i : ℕ) (xs : List Item) (x y : Item)
    → get_elem? xs i ≡ some x
    → is_received x.state ≡ false
    → is_received y.state ≡ true
    → count_received (set xs i y) ≡ count_received xs + 1
count_received-set i [] x y e hx hy = cc
count_received-set zero (z ∷ xs) x y e hx hy = ground arith
count_received-set (suc i) (z ∷ xs) x y e hx hy =
    ground (arith, count_received-set i xs x y e hx hy)

-- What the slide loop leaves.
pub record Slides (n : ℕ) (xs : List Item) (out : List Item × ℕ) : Type 0 where
  pub consecutive : Consecutive out.1 out.0
  pub same_end : out.1 + length out.0 ≡ n + length xs
  pub forward : n ≤ out.1
  pub head_open : HeadOpen out.0
  pub same_count : out.1 + count_received out.0 ≡ n + count_received xs
  pub same_received : (k : ℕ) → has_in out.1 out.0 k ≡ has_in n xs k

pub slide-Slides :
    (n : ℕ) (xs : List Item) → Consecutive n xs → n + length xs < 2 ^ 32 → Slides n xs (slide xs n)
unfolding slide
slide-Slides n [] c h = record {
  consecutive = tt;
  same_end = refl;
  forward = omega arith;
  head_open = tt;
  same_count = refl;
  same_received = λ k. refl;
}
slide-Slides n (x ∷ xs) c h = elim (Bool-cases (is_received x.state)) [
  | inl popped ↦
      let e : add32 n 1 ≡ n + 1 = omega arith in
      let ih = slide-Slides (n + 1) xs c.1 (omega arith) in
      rw (popped, e)
        (record {
          consecutive = ih.consecutive;
          same_end = omega (arith, ih.same_end);
          forward = omega (arith, ih.forward);
          head_open = ih.head_open;
          same_count = rw popped (omega (arith, ih.same_count));
          same_received = λ k. ih.same_received k ∙ has_in-cons n k x xs popped;
        })
  | inr stays ↦ rw stays (record {
    consecutive = c;
    same_end = refl;
    forward = omega arith;
    head_open = stays;
    same_count = refl;
    same_received = λ k. refl;
  })
]

new_items-open : (rounds n i j : ℕ) → item_received (get_elem? (new_items rounds n i) j) ≡ false
unfolding new_items
new_items-open zero n i j = refl
new_items-open (suc rounds) n i zero = refl
new_items-open (suc rounds) n i (suc j) = new_items-open rounds n (i + 1) j

item_received-append :
    (xs ys : List Item) (j : ℕ)
    → ((k : ℕ) → item_received (get_elem? ys k) ≡ false)
    → item_received (get_elem? (xs ++ ys) j) ≡ item_received (get_elem? xs j)
item_received-append [] ys j h = h j
item_received-append (x ∷ xs) ys zero h = refl
item_received-append (x ∷ xs) ys (suc j) h = item_received-append xs ys j h

-- New items have not been received.
pub has_in-append-new_items :
    (n k rounds m i : ℕ) (xs : List Item) → has_in n (xs ++ new_items rounds m i) k ≡ has_in n xs k
has_in-append-new_items n k rounds m i xs =
    rw (item_received-append xs (new_items rounds m i) (k - n) (new_items-open rounds m i))

pub count_received-append-new_items :
    (rounds m i : ℕ) (xs : List Item)
    → count_received (xs ++ new_items rounds m i) ≡ count_received xs
unfolding new_items
count_received-append-new_items zero m i [] = refl
count_received-append-new_items (suc rounds) m i [] =
    omega (arith, count_received-append-new_items rounds m (i + 1) [])
count_received-append-new_items rounds m i (x ∷ xs) =
    omega (arith, count_received-append-new_items rounds m i xs)

pub HeadOpen-append-new_items :
    (rounds m i : ℕ) (xs : List Item) → HeadOpen xs → HeadOpen (xs ++ new_items rounds m i)
unfolding new_items
HeadOpen-append-new_items zero m i [] h = tt
HeadOpen-append-new_items (suc rounds) m i [] h = refl
HeadOpen-append-new_items rounds m i (x ∷ xs) h = h

pub count_received_none :
    (xs : List Item) → ((i : ℕ) → item_received (get_elem? xs i) ≡ false) → count_received xs ≡ 0
count_received_none [] h = refl
count_received_none (x ∷ xs) h = rw (h 0) (omega (arith, count_received_none xs (λ i. h (suc i))))
