-- ===== src/Coroutine/Step.antt =====
-- The bursts of coroutines as steps of a transition system: misc/mgx_coroutine.cpp and
-- misc/mgx_coroutine_scheduler.cpp.
use my_gx.Base.{
  ℕ, ◌+◌, ◌<◌, List, [], ◌∷◌, ◌++◌, Option, none, some, ==_self, ==_ne, ◌≡◌, refl, sym, ap, ◌∙◌,
  subst, arith,
}
use my_gx.Pool.Inv.{occ}
use my_gx.Coroutine.{
  Status, ready, waiting, sleeping, running, exited, Scheduler, without_first, put_status,
  remove_first_sleep_rbtree, remove_event_wait_epoll, go_on, take_over,
}
use my_gx.Coroutine.Places.{
  Placed, sleepers, is_ready, is_waiting, is_sleeping, placed, placed_le, set_status_here,
  occ-cons_here, occ-cons_away, occ-without,
}
use my_gx.Coroutine.Running.{Runs, still_fresh}

ready_status : (o : Option Status) → 0 < is_ready o → o ≡ some ready
ready_status (some ready) h = refl
ready_status (some waiting) h = absurd (omega (arith, h))
ready_status (some sleeping) h = absurd (omega (arith, h))
ready_status (some running) h = absurd (omega (arith, h))
ready_status (some exited) h = absurd (omega (arith, h))
ready_status none h = absurd (omega (arith, h))

waiting_status : (o : Option Status) → 0 < is_waiting o → o ≡ some waiting
waiting_status (some waiting) h = refl
waiting_status (some ready) h = absurd (omega (arith, h))
waiting_status (some sleeping) h = absurd (omega (arith, h))
waiting_status (some running) h = absurd (omega (arith, h))
waiting_status (some exited) h = absurd (omega (arith, h))
waiting_status none h = absurd (omega (arith, h))

sleeping_status : (o : Option Status) → 0 < is_sleeping o → o ≡ some sleeping
sleeping_status (some sleeping) h = refl
sleeping_status (some waiting) h = absurd (omega (arith, h))
sleeping_status (some ready) h = absurd (omega (arith, h))
sleeping_status (some running) h = absurd (omega (arith, h))
sleeping_status (some exited) h = absurd (omega (arith, h))
sleeping_status none h = absurd (omega (arith, h))

-- A coroutine at the front of the ready list takes over.
pub take_ready-Runs :
    (co : ℕ) (rest : List ℕ) (s : Scheduler)
    → Placed s
    → s.m_co_ready_list ≡ co ∷ rest
    → Runs co (take_over co (record s { m_co_ready_list = rest }))
unfolding take_over go_on put_status
take_ready-Runs co rest s p e =
    let there : occ co s.m_co_ready_list ≡ occ co rest + 1 =
      ap (occ co) e ∙ occ-cons_here co rest in
    let was : s.status co ≡ some ready = ready_status _ (omega (arith, there, p.in_ready co)) in
    let s' = record s { m_co_ready_list = rest; resumed = s.resumed ++ (co ∷ []) } in
    subst (λ o. Runs co (put_status co (some running) (go_on o co s'))) (sym was)
      (record {
        places = record {
          in_ready =
              placed is_ready co s.status (some running) (λ a. occ a s.m_co_ready_list) _
                (λ a ne. sym (ap (occ a) e ∙ occ-cons_away co a rest ne))
                (omega (arith, there, p.in_ready co, ap is_ready was)) p.in_ready;
          in_sleep =
              placed is_sleeping co s.status (some running) _ _ (λ a ne. refl)
                (p.in_sleep co ∙ ap is_sleeping was) p.in_sleep;
          in_watched =
              placed_le is_waiting co s.status (some running) _ _ (λ a ne. refl)
                (omega (arith, p.in_watched co, ap is_waiting was)) p.in_watched;
          fresh = still_fresh s co ready (some running) p was;
        };
        runs = set_status_here co (some running) s.status;
      })

-- The first sleeper takes over, and removes its entry.
pub take_sleeper-Runs :
    (k co : ℕ) (q : List (ℕ × ℕ)) (s : Scheduler)
    → Placed s
    → s.m_co_sleep_rbtree ≡ (k, co) ∷ q
    → Runs co (take_over co s)
unfolding take_over go_on put_status remove_first_sleep_rbtree sleepers without_first
take_sleeper-Runs k co q s p e =
    let there : occ co (sleepers s.m_co_sleep_rbtree) ≡ occ co (sleepers q) + 1 =
      ap (λ t. occ co (sleepers t)) e ∙ occ-cons_here co (sleepers q) in
    let was : s.status co ≡ some sleeping =
      sleeping_status _ (omega (arith, there, p.in_sleep co)) in
    let left : without_first s.m_co_sleep_rbtree ≡ q = ap without_first e in
    let s' = record s { resumed = s.resumed ++ (co ∷ []) } in
    subst (λ o. Runs co (put_status co (some running) (go_on o co s'))) (sym was)
      (record {
        places = record {
          in_ready =
              placed is_ready co s.status (some running) _ _ (λ a ne. refl)
                (p.in_ready co ∙ ap is_ready was) p.in_ready;
          in_sleep =
              placed is_sleeping co s.status (some running)
                (λ a. occ a (sleepers s.m_co_sleep_rbtree)) _
                (λ a ne.
                  ap (λ t. occ a (sleepers t)) left
                  ∙ sym (ap (λ t. occ a (sleepers t)) e ∙ occ-cons_away co a (sleepers q) ne))
                (omega (
                  arith,
                  there,
                  p.in_sleep co,
                  ap is_sleeping was,
                  ap (λ t. occ co (sleepers t)) left,
                ))
                p.in_sleep;
          in_watched =
              placed_le is_waiting co s.status (some running) _ _ (λ a ne. refl)
                (omega (arith, p.in_watched co, ap is_waiting was)) p.in_watched;
          fresh = still_fresh s co sleeping (some running) p was;
        };
        runs = set_status_here co (some running) s.status;
      })

-- A coroutine that epoll reports takes over, and ends its watch.
pub take_watched-Runs :
    (co : ℕ) (s : Scheduler) → Placed s → 0 < occ co s.watched → Runs co (take_over co s)
unfolding take_over go_on put_status remove_event_wait_epoll
take_watched-Runs co s p h =
    let was : s.status co ≡ some waiting = waiting_status _ (omega (arith, h, p.in_watched co)) in
    let s' = record s { resumed = s.resumed ++ (co ∷ []) } in
    subst (λ o. Runs co (put_status co (some running) (go_on o co s'))) (sym was)
      (record {
        places = record {
          in_ready =
              placed is_ready co s.status (some running) _ _ (λ a ne. refl)
                (p.in_ready co ∙ ap is_ready was) p.in_ready;
          in_sleep =
              placed is_sleeping co s.status (some running) _ _ (λ a ne. refl)
                (p.in_sleep co ∙ ap is_sleeping was) p.in_sleep;
          in_watched =
              placed_le is_waiting co s.status (some running) (λ a. occ a s.watched) _
                (λ a ne. ground (arith, occ-without a co s.watched, ==_ne a co ne))
                (ground (
                  arith,
                  occ-without co co s.watched,
                  ==_self co,
                  p.in_watched co,
                  ap is_waiting was,
                ))
                p.in_watched;
          fresh = still_fresh s co waiting (some running) p was;
        };
        runs = set_status_here co (some running) s.status;
      })
