-- ===== src/Monitor/Heartbeat.antt =====
-- The connections that a round of monitor_timer_th_func in net/mgx_socket_time.cpp looks at.
use my_gx.Base.{
  ℕ, ◌+◌, ◌*◌, ◌≤◌, ◌<◌, List, [], ◌∷◌, ◌++◌, true, some, length, ltb, ◌==◌, ◌&&◌, ◌≡◌, ◌≢◌, refl,
  sym, ap, subst, ◌∙◌, arith, inl, inr, ◌⊎◌, Bool-cases,
}
use mathlib.Core.Option.{some-injective}
use my_gx.Timer.{Timer, TimerQueue, over_time_timers}
use my_gx.Timer.Order.{Inv}
use my_gx.Timer.Over.{due, over_time_timers_end}
use my_gx.Pool.{Pool}
use my_gx.Pool.Inv.{occ}
use my_gx.Pool.Kept.{insert_recy-others, insert_recy-there}
use my_gx.Monitor.{is_silent, check_timer, check_timers, monitor_round}

-- A ping of the connection has come within three waiting times.
abbrev pub IsAlive : ℕ → ℕ → ℕ → Pool → Type 0
IsAlive cur wait a p = cur ≤ (p.conn a).last_ping_time + wait * 3

-- Untouched from `p` to `q`: its record, and its place in the recovery set.
pub record Untouched (a : ℕ) (p q : Pool) : Type 0 where
  pub same : q.conn a ≡ p.conn a
  pub place : occ a q.recy_conn_set ≡ occ a p.recy_conn_set

is_silent-late :
    (cur wait : ℕ) (t : Timer) (p : Pool)
    → is_silent cur wait t p ≡ true
    → (p.conn t.pconn).last_ping_time + wait * 3 < cur
unfolding is_silent
is_silent-late cur wait t p h = ground (arith, h)

check_timer-Untouched :
    (now cur wait a : ℕ) (t : Timer) (p : Pool)
    → IsAlive cur wait a p
    → Untouched a p (check_timer now cur wait t p)
unfolding check_timer
check_timer-Untouched now cur wait a t p alive = elim (Bool-cases (is_silent cur wait t p)) [
  | inr quiet ↦ rw quiet (record { same = refl; place = refl })
  | inl silent ↦
      let other : a ≢ t.pconn = λ e.
        omega (
          arith,
          is_silent-late cur wait t p silent,
          alive,
          ap (λ b. (p.conn b).last_ping_time) e,
        ) in
      let (same, place) = insert_recy-others now a t.pconn p other in
      rw silent (record { same = same; place = place })
]

check_timers-Untouched :
    (now cur wait a : ℕ) (ts : List Timer) (p : Pool)
    → IsAlive cur wait a p
    → Untouched a p (check_timers now cur wait ts p)
unfolding check_timers
check_timers-Untouched now cur wait a [] p alive = record { same = refl; place = refl }
check_timers-Untouched now cur wait a (t ∷ ts) p alive =
    let one = check_timer-Untouched now cur wait a t p alive in
    let rest =
      check_timers-Untouched now cur wait a ts (check_timer now cur wait t p)
        (omega (arith, alive, ap (λ d. d.last_ping_time) one.same)) in
    record { same = rest.same ∙ one.same; place = rest.place ∙ one.place }

-- With a well-formed timer queue, a waiting time that is not 0 and one more than there are timers due
-- as fuel, a round ends, and it leaves alone every connection from which a ping has come within three
-- waiting times.
pub monitor_round_spares :
    (fuel now cur wait : ℕ) (p : Pool)
    → Inv p.timers
    → 0 < wait
    → length (due cur p.timers.entries) < fuel
    → (q : Pool) × (monitor_round fuel now cur wait p ≡ some q)
      × ((a : ℕ) → IsAlive cur wait a p → Untouched a p q)
unfolding monitor_round
monitor_round_spares fuel now cur wait p v w f =
    elim (Bool-cases (ltb 0 p.timers.size && ltb p.timers.head_time cur)) [
      | inr early ↦ rw early (p, refl, λ a h. record { same = refl; place = refl })
      | inl late ↦
          let (t, runs, _, _) = over_time_timers_end fuel cur wait p.timers v w f in
          let ts = due cur p.timers.entries in
          rw (late, runs)
            (
              check_timers now cur wait ts (record p { timers = t }),
              refl,
              λ a h.
                  let u = check_timers-Untouched now cur wait a ts (record p { timers = t }) h in
                  record { same = u.same; place = u.place },
            )
    ]

-- What is in the recovery set stays there.
check_timer-stays :
    (now cur wait a : ℕ) (t : Timer) (p : Pool)
    → 0 < occ a p.recy_conn_set
    → 0 < occ a (check_timer now cur wait t p).recy_conn_set
unfolding check_timer
check_timer-stays now cur wait a t p h = elim (Bool-cases (is_silent cur wait t p)) [
  | inr quiet ↦ rw quiet h
  | inl silent ↦ rw silent (elim (Bool-cases (a == t.pconn)) [
    | inl same ↦ let e : a ≡ t.pconn = ground arith in rw e (insert_recy-there now t.pconn p)
    | inr other ↦
        let ne : a ≢ t.pconn = ground arith in
        let place = (insert_recy-others now a t.pconn p ne).1 in rw place h
  ])
]

check_timers-stays :
    (now cur wait a : ℕ) (ts : List Timer) (p : Pool)
    → 0 < occ a p.recy_conn_set
    → 0 < occ a (check_timers now cur wait ts p).recy_conn_set
unfolding check_timers
check_timers-stays now cur wait a [] p h = h
check_timers-stays now cur wait a (t ∷ ts) p h =
    check_timers-stays now cur wait a ts (check_timer now cur wait t p)
      (check_timer-stays now cur wait a t p h)

-- A timer gives up the connection of another one, or leaves it as it is.
check_timer-either :
    (now cur wait a : ℕ) (t : Timer) (p : Pool)
    → (0 < occ a (check_timer now cur wait t p).recy_conn_set)
      ⊎ ((check_timer now cur wait t p).conn a ≡ p.conn a)
unfolding check_timer
check_timer-either now cur wait a t p = elim (Bool-cases (is_silent cur wait t p)) [
  | inr quiet ↦ rw quiet (inr refl)
  | inl silent ↦ rw silent (elim (Bool-cases (a == t.pconn)) [
    | inl same ↦ let e : a ≡ t.pconn = ground arith in inl (rw e (insert_recy-there now t.pconn p))
    | inr other ↦
        let ne : a ≢ t.pconn = ground arith in inr (insert_recy-others now a t.pconn p ne).0
  ])
]

-- The timer is of the present use of its connection, from which no ping has come for more than three
-- waiting times.
abbrev pub IsLost : ℕ → ℕ → Timer → Pool → Type 0
IsLost cur wait t p =
    (t.cur_seq ≡ (p.conn t.pconn).m_cur_seq) × ((p.conn t.pconn).last_ping_time + wait * 3 < cur)

check_timer-there :
    (now cur wait : ℕ) (t : Timer) (p : Pool)
    → IsLost cur wait t p
    → 0 < occ t.pconn (check_timer now cur wait t p).recy_conn_set
unfolding check_timer is_silent
check_timer-there now cur wait t p (seq, ping) =
    let silent : is_silent cur wait t p ≡ true = ground arith in
    rw silent (insert_recy-there now t.pconn p)

check_timers-drops :
    (now cur wait : ℕ) (before later : List Timer) (t : Timer) (p : Pool)
    → IsLost cur wait t p
    → 0 < occ t.pconn (check_timers now cur wait (before ++ t ∷ later) p).recy_conn_set
unfolding check_timers
check_timers-drops now cur wait [] later t p lost =
    check_timers-stays now cur wait t.pconn later (check_timer now cur wait t p)
      (check_timer-there now cur wait t p lost)
check_timers-drops now cur wait (u ∷ before) later t p (seq, ping) =
    elim (check_timer-either now cur wait t.pconn u p) [
      | inl there ↦
          check_timers-stays now cur wait t.pconn (before ++ t ∷ later)
            (check_timer now cur wait u p) there
      | inr same ↦ check_timers-drops now cur wait before later t (check_timer now cur wait u p) (
        omega (arith, seq, ap (λ d. d.m_cur_seq) same),
        omega (arith, ping, ap (λ d. d.last_ping_time) same),
      )
    ]

monitor_round-late :
    (fuel now cur wait : ℕ) (ts : List Timer) (queue : TimerQueue) (p : Pool)
    → 0 < p.timers.size
    → p.timers.head_time < cur
    → over_time_timers fuel cur wait p.timers ≡ some (ts, queue)
    → monitor_round fuel now cur wait p
      ≡ some (check_timers now cur wait ts (record p { timers = queue }))
unfolding monitor_round
monitor_round-late fuel now cur wait ts queue p some_timer late runs =
    let looks : (ltb 0 p.timers.size && ltb p.timers.head_time cur) ≡ true = ground arith in
    rw (looks, runs) refl

-- After a round that looks at the timers (the queue is well formed and not empty, its head time is past,
-- and the fuel is enough), a connection is in the recovery set if one of its timers is due and of its
-- present use, and no ping has come from it for more than three waiting times.
pub monitor_round_drops :
    (fuel now cur wait : ℕ) (before later : List Timer) (t : Timer) (p q : Pool)
    → Inv p.timers
    → 0 < wait
    → length (due cur p.timers.entries) < fuel
    → 0 < p.timers.size
    → p.timers.head_time < cur
    → due cur p.timers.entries ≡ before ++ t ∷ later
    → IsLost cur wait t p
    → monitor_round fuel now cur wait p ≡ some q
    → 0 < occ t.pconn q.recy_conn_set
monitor_round_drops fuel now cur wait before later t p q v w f some_timer late split lost ran =
    let (queue, runs, _, _) = over_time_timers_end fuel cur wait p.timers v w f in
    let end = check_timers now cur wait (before ++ t ∷ later) (record p { timers = queue }) in
    let ends : monitor_round fuel now cur wait p ≡ some end =
      monitor_round-late fuel now cur wait (before ++ t ∷ later) queue p some_timer late
        (runs ∙ ap (λ ts. some (ts, queue)) split) in
    subst (λ r. 0 < occ t.pconn r.recy_conn_set) (some-injective _ _ (sym ends ∙ ran))
      (check_timers-drops now cur wait before later t (record p { timers = queue }) lost)
