-- ===== src/Timer/Order.antt =====
-- The order of the timer queue of net/mgx_socket_time.cpp, its size and its head time.
use my_gx.Base.{
  ℕ, suc, ◌+◌, ◌-◌, ◌≤◌, ◌<◌, List, [], ◌∷◌, ltb, leb, if◌then◌else◌, ◌≡◌, refl, arith, length, inl,
  inr, Bool-cases,
}
use my_gx.Timer.{
  Timer, TimerQueue, emplace, earliest, get_earliest_time, update_head, enqueue, add_to_timer_queue,
  erase_first, delete_from_timer_queue,
}

-- All keys are at least `k`.
abbrev pub AllFrom : ℕ → List (ℕ × Timer) → Type 0
AllFrom k [] = Unit {0}
AllFrom k ((j, t) ∷ q) = (k ≤ j) × AllFrom k q

abbrev pub IsSorted : List (ℕ × Timer) → Type 0
IsSorted [] = Unit {0}
IsSorted ((k, t) ∷ q) = AllFrom k q × IsSorted q

pub record Inv (q : TimerQueue) : Type 0 where
  pub counted : q.size ≡ length q.entries
  pub sorted : IsSorted q.entries
  pub head : q.head_time ≡ earliest q.entries q.head_time

pub AllFrom-mono : (j k : ℕ) (q : List (ℕ × Timer)) → j ≤ k → AllFrom k q → AllFrom j q
AllFrom-mono j k [] h a = tt
AllFrom-mono j k ((i, t) ∷ q) h (hi, a) = (omega arith, AllFrom-mono j k q h a)

pub emplace-AllFrom :
    (i k : ℕ) (t : Timer) (q : List (ℕ × Timer)) → i ≤ k → AllFrom i q → AllFrom i (emplace k t q)
unfolding emplace
emplace-AllFrom i k t [] h a = (h, tt)
emplace-AllFrom i k t ((j, u) ∷ q) h (hj, a) = ground (arith, emplace-AllFrom i k t q h a)

pub emplace-IsSorted :
    (k : ℕ) (t : Timer) (q : List (ℕ × Timer)) → IsSorted q → IsSorted (emplace k t q)
unfolding emplace
emplace-IsSorted k t [] s = (tt, tt)
emplace-IsSorted k t ((j, u) ∷ q) (a, s) = elim (Bool-cases (leb j k)) [
  | inl before ↦ rw before (emplace-AllFrom j k t q (ground arith) a, emplace-IsSorted k t q s)
  | inr behind ↦ rw behind ((ground arith, AllFrom-mono k j q (ground arith) a), (a, s))
]

pub length-emplace :
    (k : ℕ) (t : Timer) (q : List (ℕ × Timer)) → length (emplace k t q) ≡ suc (length q)
unfolding emplace
length-emplace k t [] = refl
length-emplace k t ((j, u) ∷ q) = ground (arith, length-emplace k t q)

-- A queue that is not empty has a first key, whatever else is given.
pub earliest-cons : (q : List (ℕ × Timer)) (m n : ℕ) → 0 < length q → earliest q m ≡ earliest q n
unfolding earliest
earliest-cons [] m n h = absurd (omega arith)
earliest-cons ((k, t) ∷ q) m n h = refl

pub update_head-Inv :
    (q : TimerQueue)
    → q.size ≡ length q.entries
    → IsSorted q.entries
    → 0 < length q.entries
    → Inv (update_head q)
unfolding update_head
update_head-Inv q c s h = record {
  counted = c;
  sorted = s;
  head = unfold get_earliest_time in earliest-cons q.entries _ _ h;
}

pub enqueue-update-Inv :
    (k : ℕ) (t : Timer) (q : TimerQueue)
    → q.size ≡ length q.entries
    → IsSorted q.entries
    → Inv (update_head (enqueue k t q))
unfolding enqueue
enqueue-update-Inv k t q c s =
    update_head-Inv (record q { entries = emplace k t q.entries; size = q.size + 1 })
      (omega (arith, c, length-emplace k t q.entries)) (emplace-IsSorted k t q.entries s)
      (omega (arith, length-emplace k t q.entries))

add-Inv :
    (now wait : ℕ) (t : Timer) (q : TimerQueue) → Inv q → Inv (add_to_timer_queue now wait t q)
unfolding add_to_timer_queue
add-Inv now wait t q v = enqueue-update-Inv (now + wait) t q v.counted v.sorted

erase_first-AllFrom : (k c : ℕ) (q : List (ℕ × Timer)) → AllFrom k q → AllFrom k (erase_first c q).0
unfolding erase_first
erase_first-AllFrom k c [] a = tt
erase_first-AllFrom k c ((j, t) ∷ q) (h, a) = ground (arith, erase_first-AllFrom k c q a)

erase_first-IsSorted : (c : ℕ) (q : List (ℕ × Timer)) → IsSorted q → IsSorted (erase_first c q).0
unfolding erase_first
erase_first-IsSorted c [] s = tt
erase_first-IsSorted c ((j, t) ∷ q) (a, s) =
    ground (arith, erase_first-AllFrom j c q a, erase_first-IsSorted c q s)

length-erase_first :
    (c : ℕ) (q : List (ℕ × Timer))
    → length (erase_first c q).0 + (if (erase_first c q).1 then 1 else 0) ≡ length q
unfolding erase_first
length-erase_first c [] = refl
length-erase_first c ((j, t) ∷ q) = ground (arith, length-erase_first c q)

earliest-nil : (q : List (ℕ × Timer)) (m : ℕ) → length q ≡ 0 → m ≡ earliest q m
unfolding earliest
earliest-nil [] m h = refl
earliest-nil ((k, t) ∷ q) m h = absurd (omega arith)

delete-Inv : (c : ℕ) (q : TimerQueue) → Inv q → Inv (delete_from_timer_queue c q)
unfolding delete_from_timer_queue
delete-Inv c q v =
    let left = (erase_first c q.entries).0 in
    let size = if (erase_first c q.entries).1 then q.size - 1 else q.size in
    let q' : TimerQueue = record { entries = left; size = size; head_time = q.head_time } in
    let counted : size ≡ length left = ground (arith, v.counted, length-erase_first c q.entries) in
    let sorted = erase_first-IsSorted c q.entries v.sorted in
    elim (Bool-cases (ltb 0 size)) [
      | inl some_left ↦ rw some_left (update_head-Inv q' counted sorted (ground arith))
      | inr empty ↦ rw empty (record {
        counted = counted;
        sorted = sorted;
        head = earliest-nil left q.head_time (ground arith);
      })
    ]

-- Adding a timer and deleting one keep the queue in order of time, its size and its head time right.
pub add_delete-Inv :
    (now wait c : ℕ) (t : Timer) (q : TimerQueue)
    → Inv q
    → Inv (add_to_timer_queue now wait t q) × Inv (delete_from_timer_queue c q)
add_delete-Inv now wait c t q v = (add-Inv now wait t q v, delete-Inv c q v)
