-- ===== src/Coroutine/Fair.antt =====
-- The order in which schedule of misc/mgx_coroutine_scheduler.cpp takes coroutines from the ready list.
use my_gx.Base.{
  ℕ, ◌+◌, List, [], ◌∷◌, ◌++◌, append_assoc, Bool, true, false, leb, ◌≡◌, sym, ap, ◌∙◌, subst,
  Bool-cases, inl, inr, arith, length,
}
use my_gx.Coroutine.{
  Burst, Scheduler, remove_event_wait_epoll, construct_all, end_burst, take_over, resume,
  resume_next, wake_first, run_front, run_events, schedule,
}
use my_gx.Coroutine.Growth.{
  Grows, Grows-refl, Grows-trans, construct_all-Grows, end_burst-Grows, take_over-Grows,
  take_over_kept,
}

-- The rest of a burst, after its coroutine took over.
resume_rest-Grows :
    (now : ℕ) (burst : Burst) (co : ℕ) (s : Scheduler)
    → Grows (take_over co s) (resume now burst co s)
unfolding resume
resume_rest-Grows now burst co s =
    let t = take_over co s in
    let u = construct_all burst.constructs t in
    Grows-trans t u (end_burst now burst.act co u) (construct_all-Grows burst.constructs t)
      (end_burst-Grows now burst.act co u)

resume-Grows : (now : ℕ) (burst : Burst) (co : ℕ) (s : Scheduler) → Grows s (resume now burst co s)
resume-Grows now burst co s =
    Grows-trans s (take_over co s) (resume now burst co s) (take_over-Grows co s)
      (resume_rest-Grows now burst co s)

module _ (bursts : ℕ → Burst) where
  wake_first-Grows :
      (now : ℕ) (q : List (ℕ × ℕ)) (s : Scheduler) → Grows s (wake_first bursts now q s)
  unfolding wake_first resume_next
  wake_first-Grows now [] s = Grows-refl s
  wake_first-Grows now ((sleep_ms, co) ∷ q) s = elim (Bool-cases (leb sleep_ms now)) [
    | inl due ↦ rw due (resume-Grows now (bursts (length s.resumed)) co s)
    | inr early ↦ rw early (Grows-refl s)
  ]

  run_events-Grows :
      (now : ℕ) (events : List (ℕ × Bool)) (s : Scheduler)
      → Grows s (run_events bursts now events s)
  unfolding run_events resume_next remove_event_wait_epoll
  run_events-Grows now [] s = Grows-refl s
  run_events-Grows now ((co, true) ∷ events) s =
      let g = run_events-Grows now events (remove_event_wait_epoll co s) in
      record { later = g.later; list = g.list; runs = g.runs; log = g.log }
  run_events-Grows now ((co, false) ∷ events) s =
      let t = resume now (bursts (length s.resumed)) co s in
      Grows-trans s t (run_events bursts now events t)
        (resume-Grows now (bursts (length s.resumed)) co s) (run_events-Grows now events t)

-- What a call of schedule does to a ready list with `co` at its front.
pub record Pass (co : ℕ) (rest : List ℕ) (s t : Scheduler) : Type 0 where
  pub later : List ℕ
  pub list : t.m_co_ready_list ≡ rest ++ later
  pub before : List ℕ
  pub after : List ℕ
  pub log : t.resumed ≡ s.resumed ++ (before ++ (co ∷ after))

module _ (bursts : ℕ → Burst) where
  front-Pass :
      (now co : ℕ) (rest : List ℕ) (s : Scheduler)
      → Pass co rest s (resume_next bursts now co (record s { m_co_ready_list = rest }))
  unfolding resume_next
  front-Pass now co rest s =
      let s' = record s { m_co_ready_list = rest } in
      let burst = bursts (length s.resumed) in
      let (list, log) = take_over_kept co s' in
      let h = resume_rest-Grows now burst co s' in
      record {
        later = h.later;
        list = h.list ∙ ap (λ l. l ++ h.later) list;
        before = [];
        after = h.runs;
        log = h.log ∙ ap (λ l. l ++ h.runs) log ∙ append_assoc s.resumed (co ∷ []) h.runs;
      }

  schedule-Pass :
      (now : ℕ) (events : List (ℕ × Bool)) (co : ℕ) (rest : List ℕ) (s : Scheduler)
      → s.m_co_ready_list ≡ co ∷ rest
      → Pass co rest s (schedule bursts now events s)
  unfolding schedule run_front
  schedule-Pass now events co rest s e =
      let t = wake_first bursts now s.m_co_sleep_rbtree s in
      let g = wake_first-Grows bursts now s.m_co_sleep_rbtree s in
      let queue : t.m_co_ready_list ≡ co ∷ (rest ++ g.later) = g.list ∙ ap (λ l. l ++ g.later) e in
      let u = resume_next bursts now co (record t { m_co_ready_list = rest ++ g.later }) in
      let p = front-Pass now co (rest ++ g.later) t in
      let h = run_events-Grows bursts now events u in
      subst (λ l. Pass co rest s (run_events bursts now events (run_front bursts now l t)))
        (sym queue)
        (record {
          later = g.later ++ (p.later ++ h.later);
          list = h.list ∙ ap (λ l. l ++ h.later) p.list ∙ simp append_assoc;
          before = g.runs ++ p.before;
          after = p.after ++ h.runs;
          log =
              h.log
              ∙ ap (λ l. l ++ h.runs) (p.log ∙ ap (λ l. l ++ (p.before ++ (co ∷ p.after))) g.log)
              ∙ simp append_assoc;
        })

  -- Calls of schedule, each at its time and with its events.
  unfoldable pub schedule_all : List (ℕ × List (ℕ × Bool)) → Scheduler → Scheduler
  schedule_all [] s = s
  schedule_all ((now, events) ∷ calls) s = schedule_all calls (schedule bursts now events s)

  -- A coroutine with `length xs` others before it in the ready list is resumed in the calls of schedule
  -- up to the next one after as many, whatever the coroutines do, and whatever epoll reports.
  pub schedule_all-resumes :
      (xs : List ℕ) (co : ℕ) (ys : List ℕ) (calls : List (ℕ × List (ℕ × Bool))) (s : Scheduler)
      → s.m_co_ready_list ≡ xs ++ (co ∷ ys)
      → length calls ≡ length xs + 1
      → (before : List ℕ) × (after : List ℕ) × ((schedule_all calls s).resumed
          ≡ s.resumed ++ (before ++ (co ∷ after)))
  unfolding schedule_all
  schedule_all-resumes xs co ys [] s e h = absurd (omega (arith, h))
  schedule_all-resumes [] co ys ((now, events) ∷ []) s e h =
      let p = schedule-Pass now events co ys s e in (p.before, p.after, p.log)
  schedule_all-resumes [] co ys ((now, events) ∷ call ∷ calls) s e h = absurd (omega (arith, h))
  schedule_all-resumes (x ∷ xs) co ys ((now, events) ∷ calls) s e h =
      let p = schedule-Pass now events x (xs ++ (co ∷ ys)) s e in
      let t = schedule bursts now events s in
      let (before, after, log) =
        schedule_all-resumes xs co (ys ++ p.later) calls t
          (p.list ∙ append_assoc xs (co ∷ ys) p.later) (omega (arith, h)) in
      (
        (p.before ++ (x ∷ p.after)) ++ before,
        after,
        log ∙ ap (λ l. l ++ (before ++ (co ∷ after))) p.log ∙ simp append_assoc,
      )
