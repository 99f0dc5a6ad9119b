-- ===== src/Timer/Over.antt =====
-- The timers that are over: the loop of monitor_timer_th_func in net/mgx_socket_time.cpp that calls
-- get_over_time_timer until it returns nullptr.
use my_gx.Base.{
  ℕ, zero, suc, ◌+◌, ◌-◌, ◌≤◌, ◌<◌, List, [], ◌∷◌, false, none, some, ltb, leb, ◌==◌, ◌||◌,
  if◌then◌else◌, ◌≡◌, refl, sym, ap, ◌∙◌, arith, length, inl, inr, Bool-cases,
}
use my_gx.Timer.{
  Timer, TimerQueue, emplace, earliest, get_earliest_time, update_head, enqueue,
  get_over_time_timer, over_time_timers, erase_begin, begin_timer,
}
use my_gx.Timer.Order.{Inv, enqueue-update-Inv}

-- The entries that are due at `cur`, and those that are not, of a queue in order.
unfoldable pub due : ℕ → List (ℕ × Timer) → List Timer
due cur [] = []
due cur ((k, t) ∷ q) = if leb k cur then t ∷ due cur q else []

pub later : ℕ → List (ℕ × Timer) → List (ℕ × Timer)
later cur [] = []
later cur ((k, t) ∷ q) = if leb k cur then later cur q else (k, t) ∷ q

-- Timers put back at the time `k`, one after another.
pub put_back : ℕ → List Timer → List (ℕ × Timer) → List (ℕ × Timer)
put_back k [] q = q
put_back k (t ∷ ts) q = put_back k ts (emplace k t q)

-- A timer put back at a time that is not due goes behind those that are.
due-emplace :
    (cur k : ℕ) (t : Timer) (q : List (ℕ × Timer)) → cur < k → due cur (emplace k t q) ≡ due cur q
unfolding due emplace
due-emplace cur k t [] h = ground arith
due-emplace cur k t ((j, u) ∷ q) h = ground (arith, due-emplace cur k t q h)

later-emplace :
    (cur k : ℕ) (t : Timer) (q : List (ℕ × Timer))
    → cur < k
    → later cur (emplace k t q) ≡ emplace k t (later cur q)
unfolding later emplace
later-emplace cur k t [] h = ground arith
later-emplace cur k t ((j, u) ∷ q) h = ground (arith, later-emplace cur k t q h)

get_over_none :
    (cur wait n m : ℕ) (es : List (ℕ × Timer))
    → Inv (record { entries = es; size = n; head_time = m })
    → due cur es ≡ []
    → get_over_time_timer cur wait (record { entries = es; size = n; head_time = m })
      ≡ (none, record { entries = es; size = n; head_time = m })
unfolding get_over_time_timer get_earliest_time earliest due
get_over_none cur wait n m [] v e = ground (arith, v.counted)
get_over_none cur wait n m ((k, t) ∷ es) v e = ground (arith, v.counted)

-- The queue after a timer that was the first one has been put back.
abbrev again : ℕ → ℕ → ℕ → Timer → List (ℕ × Timer) → TimerQueue
again k n m t es = update_head (enqueue k t (record { entries = es; size = n - 1; head_time = m }))

get_over_some :
    (cur wait k n m : ℕ) (t : Timer) (es : List (ℕ × Timer))
    → Inv (record { entries = (k, t) ∷ es; size = n; head_time = m })
    → k ≤ cur
    → get_over_time_timer cur wait (record { entries = (k, t) ∷ es; size = n; head_time = m })
      ≡ (some t, again (cur + wait) n m t es)
unfolding get_over_time_timer get_earliest_time earliest begin_timer erase_begin
get_over_some cur wait k n m t es v h =
    let not_over : (n == 0 || ltb cur k) ≡ false = ground (arith, v.counted) in rw not_over refl

again-Inv :
    (cur wait k n m : ℕ) (t : Timer) (es : List (ℕ × Timer))
    → Inv (record { entries = (k, t) ∷ es; size = n; head_time = m })
    → Inv (again (cur + wait) n m t es)
again-Inv cur wait k n m t es v =
    enqueue-update-Inv (cur + wait) t (record { entries = es; size = n - 1; head_time = m })
      (omega (arith, v.counted)) v.sorted.1

-- What the loop does with a queue: it takes what is due, puts it back, and keeps the invariant.
abbrev pub Taken : ℕ → ℕ → ℕ → TimerQueue → Type 0
Taken fuel cur wait q =
    (q' : TimerQueue) × (over_time_timers fuel cur wait q ≡ some (due cur q.entries, q'))
    × (q'.entries ≡ put_back (cur + wait) (due cur q.entries) (later cur q.entries))
    × Inv q'

-- One round before the others.
over_time_timers-step :
    (fuel cur wait : ℕ) (q q' q'' : TimerQueue) (t : Timer) (ts : List Timer)
    → get_over_time_timer cur wait q ≡ (some t, q')
    → over_time_timers fuel cur wait q' ≡ some (ts, q'')
    → over_time_timers (suc fuel) cur wait q ≡ some (t ∷ ts, q'')
unfolding over_time_timers
over_time_timers-step fuel cur wait q q' q'' t ts e r =
    rw (over_time_timers, ap (λ p. p.0) e) (rw (ap (λ p. p.1) e) (rw r refl))

over_time_timers-stop :
    (fuel cur wait : ℕ) (q : TimerQueue)
    → get_over_time_timer cur wait q ≡ (none, q)
    → over_time_timers (suc fuel) cur wait q ≡ some ([], q)
unfolding over_time_timers
over_time_timers-stop fuel cur wait q e =
    rw (over_time_timers, ap (λ p. p.0) e) (ap (λ p. some ([], p.1)) e)

nil_due : (cur : ℕ) → due cur [] ≡ []
unfolding due
nil_due cur = refl

nil_later : (cur : ℕ) → later cur [] ≡ []
unfolding later
nil_later cur = refl

none_due :
    (fuel cur wait n m : ℕ) (es : List (ℕ × Timer))
    → Inv (record { entries = es; size = n; head_time = m })
    → due cur es ≡ []
    → later cur es ≡ es
    → Taken (suc fuel) cur wait (record { entries = es; size = n; head_time = m })
unfolding put_back
none_due fuel cur wait n m es v d l =
    let q : TimerQueue = record { entries = es; size = n; head_time = m } in
    (
      q,
      rw d (over_time_timers-stop fuel cur wait q (get_over_none cur wait n m es v d)),
      rw d (sym l),
      v,
    )

due-cons :
    (cur k : ℕ) (t : Timer) (es : List (ℕ × Timer))
    → k ≤ cur
    → due cur ((k, t) ∷ es) ≡ t ∷ due cur es
unfolding due
due-cons cur k t es h = ground arith

later-cons :
    (cur k : ℕ) (t : Timer) (es : List (ℕ × Timer))
    → k ≤ cur
    → later cur ((k, t) ∷ es) ≡ later cur es
unfolding later
later-cons cur k t es h = ground arith

entries-again :
    (k n m : ℕ) (t : Timer) (es : List (ℕ × Timer)) → (again k n m t es).entries ≡ emplace k t es
unfolding update_head enqueue
entries-again k n m t es = refl

one_due :
    (fuel cur wait k n m : ℕ) (t : Timer) (es : List (ℕ × Timer))
    → Inv (record { entries = (k, t) ∷ es; size = n; head_time = m })
    → k ≤ cur
    → 0 < wait
    → Taken fuel cur wait (again (cur + wait) n m t es)
    → Taken (suc fuel) cur wait (record { entries = (k, t) ∷ es; size = n; head_time = m })
unfolding put_back
one_due fuel cur wait k n m t es v h w (q', runs, kept, v') =
    let q : TimerQueue = record { entries = (k, t) ∷ es; size = n; head_time = m } in
    let next = cur + wait in
    let placed = entries-again next n m t es in
    let d = ap (due cur) placed ∙ due-emplace cur next t es (omega arith) in
    let l = ap (later cur) placed ∙ later-emplace cur next t es (omega arith) in
    (
      q',
      rw (due-cons cur k t es h) (
          over_time_timers-step fuel cur wait q (again next n m t es) q' t (due cur es)
            (get_over_some cur wait k n m t es v h) (runs ∙ ap (λ ts. some (ts, q')) d)),
      rw (due-cons cur k t es h) (
          rw (later-cons cur k t es h) (
            kept
            ∙ ap (λ ts. put_back next ts (later cur (again next n m t es).entries)) d
            ∙ ap (put_back next (due cur es)) l)),
      v',
    )

length-due-again :
    (cur wait k n m : ℕ) (t : Timer) (es : List (ℕ × Timer))
    → k ≤ cur
    → 0 < wait
    → suc (length (due cur (again (cur + wait) n m t es).entries)) ≡ length (due cur ((k, t) ∷ es))
length-due-again cur wait k n m t es h w = rw (due-cons cur k t es h) (
    ap (λ ts. suc (length ts))
      (ap (due cur) (entries-again (cur + wait) n m t es)
        ∙ due-emplace cur (cur + wait) t es (omega arith)))

none_over :
    (cur k : ℕ) (t : Timer) (es : List (ℕ × Timer)) → leb k cur ≡ false → due cur ((k, t) ∷ es) ≡ []
unfolding due
none_over cur k t es e = rw e refl

all_later :
    (cur k : ℕ) (t : Timer) (es : List (ℕ × Timer))
    → leb k cur ≡ false
    → later cur ((k, t) ∷ es) ≡ (k, t) ∷ es
unfolding later
all_later cur k t es e = rw e refl

over_all :
    (fuel cur wait n m : ℕ) (es : List (ℕ × Timer))
    → Inv (record { entries = es; size = n; head_time = m })
    → 0 < wait
    → length (due cur es) < fuel
    → Taken fuel cur wait (record { entries = es; size = n; head_time = m })
over_all zero cur wait n m es v w f = absurd (omega arith)
over_all (suc fuel) cur wait n m [] v w f =
    none_due fuel cur wait n m [] v (nil_due cur) (nil_later cur)
over_all (suc fuel) cur wait n m ((k, t) ∷ es) v w f = elim (Bool-cases (leb k cur)) [
  | inl over ↦
      let q1 = again (cur + wait) n m t es in
      one_due fuel cur wait k n m t es v (ground arith) w (
        over_all fuel cur wait q1.size q1.head_time q1.entries (again-Inv cur wait k n m t es v) w
          (omega (arith, length-due-again cur wait k n m t es (ground arith) w, f)))
  | inr not_over ↦
      none_due fuel cur wait n m ((k, t) ∷ es) v (none_over cur k t es not_over)
        (all_later cur k t es not_over)
]

-- The heartbeat loop, with as much fuel as there are timers due and one more, ends: it returns
-- exactly the timers that are due, in order, each once, and leaves them in the queue at their next
-- time behind the others; the queue stays in order. The waiting time must not be 0.
pub over_time_timers_end :
    (fuel cur wait : ℕ) (q : TimerQueue)
    → Inv q
    → 0 < wait
    → length (due cur q.entries) < fuel
    → Taken fuel cur wait q
over_time_timers_end fuel cur wait q v w f =
    over_all fuel cur wait q.size q.head_time q.entries v w f
