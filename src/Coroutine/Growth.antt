-- ===== src/Coroutine/Growth.antt =====
-- How the ready list of misc/mgx_coroutine_scheduler.cpp grows in a burst.
use my_gx.Base.{
  ℕ, zero, suc, ◌+◌, List, [], ◌∷◌, ◌++◌, append_assoc, append-nil, Option, none, some, ◌≡◌, refl,
  sym, ap, ◌∙◌,
}
use my_gx.Coroutine.{
  Status, ready, waiting, sleeping, running, exited, Act, yields, waits, exits, sleeps, Scheduler,
  construct, put_status, push_back_ready_list, insert_sleep_rbtree, remove_first_sleep_rbtree,
  add_event_wait_epoll, remove_event_wait_epoll, construct_all, go_on, end_burst, take_over,
}

-- The ready list and the log of resumes only grow behind.
pub record Grows (s t : Scheduler) : Type 0 where
  pub later : List ℕ
  pub list : t.m_co_ready_list ≡ s.m_co_ready_list ++ later
  pub runs : List ℕ
  pub log : t.resumed ≡ s.resumed ++ runs

pub Grows-refl : (s : Scheduler) → Grows s s
Grows-refl s = record {
  later = [];
  list = sym (append-nil s.m_co_ready_list);
  runs = [];
  log = sym (append-nil s.resumed);
}

pub Grows-trans : (s t u : Scheduler) → Grows s t → Grows t u → Grows s u
Grows-trans s t u p q = record {
  later = p.later ++ q.later;
  list = q.list ∙ ap (λ l. l ++ q.later) p.list ∙ append_assoc s.m_co_ready_list p.later q.later;
  runs = p.runs ++ q.runs;
  log = q.log ∙ ap (λ l. l ++ q.runs) p.log ∙ append_assoc s.resumed p.runs q.runs;
}

pub construct_all-Grows : (n : ℕ) (s : Scheduler) → Grows s (construct_all n s)
unfolding construct_all construct put_status push_back_ready_list
construct_all-Grows zero s = Grows-refl s
construct_all-Grows (suc n) s =
    Grows-trans s (construct s) (construct_all n (construct s))
      (record {
        later = (s.cnt + 1) ∷ [];
        list = refl;
        runs = [];
        log = sym (append-nil s.resumed);
      })
      (construct_all-Grows n (construct s))

pub end_burst-Grows :
    (now : ℕ) (act : Act) (co : ℕ) (s : Scheduler) → Grows s (end_burst now act co s)
unfolding end_burst put_status push_back_ready_list add_event_wait_epoll insert_sleep_rbtree
end_burst-Grows now yields co s = record {
  later = co ∷ [];
  list = refl;
  runs = [];
  log = sym (append-nil s.resumed);
}
end_burst-Grows now waits co s = record {
  later = [];
  list = sym (append-nil s.m_co_ready_list);
  runs = [];
  log = sym (append-nil s.resumed);
}
end_burst-Grows now exits co s = record {
  later = [];
  list = sym (append-nil s.m_co_ready_list);
  runs = [];
  log = sym (append-nil s.resumed);
}
end_burst-Grows now (sleeps ms) co s = record {
  later = [];
  list = sym (append-nil s.m_co_ready_list);
  runs = [];
  log = sym (append-nil s.resumed);
}

go_on_kept :
    (o : Option Status) (co : ℕ) (s : Scheduler)
    → ((go_on o co s).m_co_ready_list ≡ s.m_co_ready_list) × ((go_on o co s).resumed ≡ s.resumed)
unfolding go_on remove_first_sleep_rbtree remove_event_wait_epoll
go_on_kept (some sleeping) co s = (refl, refl)
go_on_kept (some waiting) co s = (refl, refl)
go_on_kept (some ready) co s = (refl, refl)
go_on_kept (some running) co s = (refl, refl)
go_on_kept (some exited) co s = (refl, refl)
go_on_kept none co s = (refl, refl)

pub take_over_kept :
    (co : ℕ) (s : Scheduler)
    → ((take_over co s).m_co_ready_list ≡ s.m_co_ready_list)
      × ((take_over co s).resumed ≡ s.resumed ++ (co ∷ []))
unfolding take_over put_status
take_over_kept co s = go_on_kept (s.status co) co (record s { resumed = s.resumed ++ (co ∷ []) })

pub take_over-Grows : (co : ℕ) (s : Scheduler) → Grows s (take_over co s)
take_over-Grows co s =
    let (list, log) = take_over_kept co s in
    record {
      later = [];
      list = list ∙ sym (append-nil s.m_co_ready_list);
      runs = co ∷ [];
      log = log;
    }
