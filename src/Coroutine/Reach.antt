-- ===== src/Coroutine/Reach.antt =====
-- Whatever the coroutines of misc/mgx_coroutine.cpp do, in any order of resumes.
use my_gx.Base.{ℕ, ◌<◌, List, ◌∷◌, ◌≡◌, arith}
use my_gx.Pool.Inv.{occ}
use my_gx.Coroutine.{
  Burst, Scheduler, resume, construct, construct_all, take_over, remove_event_wait_epoll,
}
use my_gx.Coroutine.Places.{Placed, occ-without}
use my_gx.Coroutine.Running.{Runs, construct-Placed, construct_all-Runs, end_burst-Placed}
use my_gx.Coroutine.Step.{take_ready-Runs, take_sleeper-Runs, take_watched-Runs}

-- The steps that schedule puts together, and the construction of a coroutine outside of all of them.
pub data Step (s : Scheduler) : Scheduler → Type 0 where
  constructed : Step s (construct s)
  from_ready :
      (now : ℕ) (burst : Burst) (co : ℕ) (rest : List ℕ)
      → s.m_co_ready_list ≡ co ∷ rest
      → Step s (resume now burst co (record s { m_co_ready_list = rest }))
  from_sleep :
      (now : ℕ) (burst : Burst) (k co : ℕ) (q : List (ℕ × ℕ))
      → s.m_co_sleep_rbtree ≡ (k, co) ∷ q
      → Step s (resume now burst co s)
  from_epoll :
      (now : ℕ) (burst : Burst) (co : ℕ) → 0 < occ co s.watched → Step s (resume now burst co s)
  epoll_error : (co : ℕ) → Step s (remove_event_wait_epoll co s)

pub data Steps (s : Scheduler) : Scheduler → Type 0 where
  none_yet : Steps s s
  then_step : (t u : Scheduler) → Steps s t → Step t u → Steps s u

resume-Placed :
    (now : ℕ) (burst : Burst) (co : ℕ) (s : Scheduler)
    → Runs co (take_over co s)
    → Placed (resume now burst co s)
unfolding resume
resume-Placed now burst co s r =
    end_burst-Placed now burst.act co (construct_all burst.constructs (take_over co s))
      (construct_all-Runs burst.constructs co (take_over co s) r)

error-Placed : (co : ℕ) (s : Scheduler) → Placed s → Placed (remove_event_wait_epoll co s)
unfolding remove_event_wait_epoll
error-Placed co s p = record {
  in_ready = p.in_ready;
  in_sleep = p.in_sleep;
  in_watched = λ a. omega (arith, occ-without a co s.watched, p.in_watched a);
  fresh = p.fresh;
}

Step-Placed : (s t : Scheduler) → Step s t → Placed s → Placed t
Step-Placed s _ constructed p = construct-Placed s p
Step-Placed s _ (from_ready now burst co rest e) p =
    resume-Placed now burst co (record s { m_co_ready_list = rest }) (take_ready-Runs co rest s p e)
Step-Placed s _ (from_sleep now burst k co q e) p =
    resume-Placed now burst co s (take_sleeper-Runs k co q s p e)
Step-Placed s _ (from_epoll now burst co h) p =
    resume-Placed now burst co s (take_watched-Runs co s p h)
Step-Placed s _ (epoll_error co) p = error-Placed co s p

-- Whatever coroutines do when they are resumed, and in whatever order the scheduler takes them from
-- the ready list, the sleepers and epoll: a coroutine that is ready stands once in the ready list, one
-- that sleeps once among the sleepers, one that waits at most once in the interest list, and none
-- stands anywhere else, so that none is resumed while it runs or after its end.
pub Steps-Placed : (s t : Scheduler) → Steps s t → Placed s → Placed t
Steps-Placed s _ none_yet p = p
Steps-Placed s _ (then_step t u before step) p = Step-Placed t u step (Steps-Placed s t before p)
