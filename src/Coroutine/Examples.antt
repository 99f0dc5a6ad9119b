-- ===== src/Coroutine/Examples.antt =====
-- Tests and instances for misc/mgx_coroutine_scheduler.cpp.
use my_gx.Base.{ℕ, zero, suc, ◌++◌, List, [], ◌∷◌, none, ◌≡◌, refl, arith}
use my_gx.Pool.Inv.{occ}
use my_gx.Coroutine.{
  yields, sleeps, Burst, Scheduler, resume, construct, construct_all, schedule,
  get_epoll_wait_timeout_ms,
}
use my_gx.Coroutine.Places.{Placed, sleepers}
use my_gx.Coroutine.Reach.{none_yet, then_step, constructed, from_ready, Steps-Placed}
use my_gx.Coroutine.Fair.{schedule_all, schedule_all-resumes}

abbrev new_scheduler : Scheduler
new_scheduler = record {
  m_co_ready_list = [];
  m_co_sleep_rbtree = [];
  watched = [];
  cnt = 0;
  status = λ a. none;
  resumed = [];
}

abbrev three : Scheduler
three = construct_all 3 new_scheduler

-- The first burst sleeps, later ones yield.
abbrev bursts : ℕ → Burst
bursts zero = record { constructs = 1; act = sleeps 20 }
bursts (suc n) = record { constructs = 0; act = yields }

abbrev lists : Scheduler → List ℕ × List (ℕ × ℕ)
lists s = (s.m_co_ready_list, s.m_co_sleep_rbtree)

after_two_calls :
    lists (schedule_all bursts ((100, []) ∷ (110, []) ∷ []) three) ≡ (3 ∷ 4 ∷ 2 ∷ [], (120, 1) ∷ [])
unfolding schedule_all schedule construct_all
after_two_calls = refl

-- With a coroutine in the ready list epoll_wait still waits for the whole default time.
ready_waits : get_epoll_wait_timeout_ms 100 three ≡ 200
unfolding get_epoll_wait_timeout_ms construct_all
ready_waits = refl

new_scheduler-Placed : Placed new_scheduler
unfolding occ sleepers
new_scheduler-Placed = record {
  in_ready = λ a. refl;
  in_sleep = λ a. refl;
  in_watched = λ a. omega arith;
  fresh = λ a h. refl;
}

Steps-Placed_example : Placed (
    resume 5
      (record { constructs = 2; act = sleeps 3 })
      1
      (record (construct new_scheduler) { m_co_ready_list = [] }))
unfolding construct
Steps-Placed_example =
    Steps-Placed new_scheduler _
      (then_step _ _ (then_step _ _ none_yet constructed)
        (from_ready 5 (record { constructs = 2; act = sleeps 3 }) 1 [] refl))
      new_scheduler-Placed

schedule_all-resumes_example :
    (before : List ℕ) × (after : List ℕ) × ((schedule_all bursts
        ((100, []) ∷ (110, []) ∷ [])
        three).resumed
      ≡ before ++ (2 ∷ after))
unfolding construct_all
schedule_all-resumes_example =
    schedule_all-resumes bursts (1 ∷ []) 2 (3 ∷ []) ((100, []) ∷ (110, []) ∷ []) three refl
      (omega arith)
