-- ===== src/Coroutine/Running.antt =====
-- What a coroutine of misc/mgx_coroutine.cpp does in a burst to the places of the scheduler.
use my_gx.Base.{ℕ, zero, suc, ◌+◌, ◌<◌, Option, none, some, ◌≡◌, ◌≢◌, refl, sym, ap, ◌∙◌, arith}
use my_gx.Pool.Inv.{occ}
use my_gx.Coroutine.{
  Status, ready, waiting, sleeping, running, Act, yields, waits, exits, sleeps, Scheduler,
  set_status, construct, put_status, push_back_ready_list, insert_sleep_rbtree,
  add_event_wait_epoll, construct_all, end_burst,
}
use my_gx.Coroutine.Places.{
  Placed, sleepers, is_ready, is_waiting, is_sleeping, placed, placed_le, set_status_away,
  occ-snoc_here, occ-snoc_away, occ-cons_here, occ-cons_away, occ-emplace_sleeper,
}

-- A coroutine that runs, and all others at their places.
pub record Runs (co : ℕ) (s : Scheduler) : Type 0 where
  pub places : Placed s
  pub runs : s.status co ≡ some running

pub construct-Placed : (s : Scheduler) → Placed s → Placed (construct s)
unfolding construct put_status push_back_ready_list
construct-Placed s p =
    let co = s.cnt + 1 in
    let new : s.status co ≡ none = p.fresh co (omega arith) in
    record {
      in_ready =
          placed is_ready co s.status (some ready) (λ a. occ a s.m_co_ready_list) _
            (λ a ne. occ-snoc_away co a s.m_co_ready_list ne)
            (omega (arith, occ-snoc_here co s.m_co_ready_list, p.in_ready co, ap is_ready new))
            p.in_ready;
      in_sleep =
          placed is_sleeping co s.status (some ready) _ _ (λ a ne. refl)
            (p.in_sleep co ∙ ap is_sleeping new) p.in_sleep;
      in_watched =
          placed_le is_waiting co s.status (some ready) _ _ (λ a ne. refl)
            (omega (arith, p.in_watched co, ap is_waiting new)) p.in_watched;
      fresh = λ a h.
          set_status_away co a (some ready) s.status (omega (arith, h))
          ∙ p.fresh a (omega (arith, h));
    }

construct-status :
    (s : Scheduler) (co : ℕ)
    → Placed s
    → s.status co ≡ some running
    → (construct s).status co ≡ some running
unfolding construct put_status push_back_ready_list
construct-status s co p h =
    set_status_away (s.cnt + 1) co (some ready) s.status
      (λ e. cc (sym h ∙ ap s.status e ∙ p.fresh (s.cnt + 1) (omega arith)))
    ∙ h

pub construct_all-Runs : (n co : ℕ) (s : Scheduler) → Runs co s → Runs co (construct_all n s)
unfolding construct_all
construct_all-Runs zero co s r = r
construct_all-Runs (suc n) co s r =
    construct_all-Runs n co (construct s) (record {
      places = construct-Placed s r.places;
      runs = construct-status s co r.places r.runs;
    })

-- A number above the count is not that of a coroutine that is there.
pub above :
    (s : Scheduler) (co a : ℕ) (st : Status) → Placed s → s.status co ≡ some st → s.cnt < a → a ≢ co
above s co a st p h k e = absurd (cc (sym h ∙ ap s.status (sym e) ∙ p.fresh a k))

pub still_fresh :
    (s : Scheduler) (co : ℕ) (old : Status) (st : Option Status)
    → Placed s
    → s.status co ≡ some old
    → (a : ℕ) → s.cnt < a
    → set_status co st s.status a ≡ none
still_fresh s co old st p h a k =
    set_status_away co a st s.status (above s co a old p h k) ∙ p.fresh a k

pub end_burst-Placed :
    (now : ℕ) (act : Act) (co : ℕ) (s : Scheduler) → Runs co s → Placed (end_burst now act co s)
unfolding end_burst put_status push_back_ready_list add_event_wait_epoll insert_sleep_rbtree
end_burst-Placed now yields co s r =
    let p = r.places in
    record {
      in_ready =
          placed is_ready co s.status (some ready) (λ a. occ a s.m_co_ready_list) _
            (λ a ne. occ-snoc_away co a s.m_co_ready_list ne)
            (omega (arith, occ-snoc_here co s.m_co_ready_list, p.in_ready co, ap is_ready r.runs))
            p.in_ready;
      in_sleep =
          placed is_sleeping co s.status (some ready) _ _ (λ a ne. refl)
            (p.in_sleep co ∙ ap is_sleeping r.runs) p.in_sleep;
      in_watched =
          placed_le is_waiting co s.status (some ready) _ _ (λ a ne. refl)
            (omega (arith, p.in_watched co, ap is_waiting r.runs)) p.in_watched;
      fresh = still_fresh s co running (some ready) p r.runs;
    }
end_burst-Placed now waits co s r =
    let p = r.places in
    record {
      in_ready =
          placed is_ready co s.status (some waiting) _ _ (λ a ne. refl)
            (p.in_ready co ∙ ap is_ready r.runs) p.in_ready;
      in_sleep =
          placed is_sleeping co s.status (some waiting) _ _ (λ a ne. refl)
            (p.in_sleep co ∙ ap is_sleeping r.runs) p.in_sleep;
      in_watched =
          placed_le is_waiting co s.status (some waiting) (λ a. occ a s.watched) _
            (λ a ne. occ-snoc_away co a s.watched ne)
            (omega (arith, occ-snoc_here co s.watched, p.in_watched co, ap is_waiting r.runs))
            p.in_watched;
      fresh = still_fresh s co running (some waiting) p r.runs;
    }
end_burst-Placed now (sleeps ms) co s r =
    let p = r.places in
    let q = s.m_co_sleep_rbtree in
    record {
      in_ready =
          placed is_ready co s.status (some sleeping) _ _ (λ a ne. refl)
            (p.in_ready co ∙ ap is_ready r.runs) p.in_ready;
      in_sleep =
          placed is_sleeping co s.status (some sleeping) (λ a. occ a (sleepers q)) _
            (λ a ne. occ-emplace_sleeper a (now + ms) co q ∙ occ-cons_away co a (sleepers q) ne)
            (omega (
              arith,
              occ-emplace_sleeper co (now + ms) co q,
              occ-cons_here co (sleepers q),
              p.in_sleep co,
              ap is_sleeping r.runs,
            ))
            p.in_sleep;
      in_watched =
          placed_le is_waiting co s.status (some sleeping) _ _ (λ a ne. refl)
            (omega (arith, p.in_watched co, ap is_waiting r.runs)) p.in_watched;
      fresh = still_fresh s co running (some sleeping) p r.runs;
    }
end_burst-Placed now exits co s r =
    let p = r.places in
    record {
      in_ready =
          placed is_ready co s.status none _ _ (λ a ne. refl) (p.in_ready co ∙ ap is_ready r.runs)
            p.in_ready;
      in_sleep =
          placed is_sleeping co s.status none _ _ (λ a ne. refl)
            (p.in_sleep co ∙ ap is_sleeping r.runs) p.in_sleep;
      in_watched =
          placed_le is_waiting co s.status none _ _ (λ a ne. refl)
            (omega (arith, p.in_watched co, ap is_waiting r.runs)) p.in_watched;
      fresh = still_fresh s co running none p r.runs;
    }
