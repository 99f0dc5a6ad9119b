-- ===== src/Coroutine.antt =====
-- Coroutines and their scheduler: misc/mgx_coroutine.cpp and misc/mgx_coroutine_scheduler.cpp. A
-- coroutine is its m_id. What it does from a resume to its next switch is an argument, and so are the
-- time and what epoll_wait answers; the switch of stacks itself is assembly.
pub mod Places
pub mod Running
pub mod Step
pub mod Reach
pub mod Growth
pub mod Fair
mod Examples
use my_gx.Base.{
  ℕ, zero, suc, ◌+◌, ◌-◌, List, [], ◌∷◌, ◌++◌, Bool, true, false, Option, none, some, leb, ltb,
  ◌==◌, if◌then◌else◌, length,
}

-- COROUTINE_STATUS
pub data Status : Type 0 where
  ready waiting sleeping running exited : Status

-- How a burst of a coroutine ends: yield(true), the wait for a descriptor that the coroutine sockets
-- do around yield(false), msleep, or the end of its function.
pub data Act : Type 0 where
  yields waits exits : Act
  sleeps : ℕ → Act

-- The coroutines that it constructs before, by their number.
pub record Burst : Type 0 where
  pub constructs : ℕ
  pub act : Act

pub record Scheduler : Type 0 where
  pub m_co_ready_list : List ℕ
  -- A multimap, in its order.
  pub m_co_sleep_rbtree : List (ℕ × ℕ)
  -- The coroutines whose m_wait_fd epoll watches.
  pub watched : List ℕ
  -- Mgx_coroutine::cnt
  pub cnt : ℕ
  -- `none` is a coroutine that is not constructed yet, or deleted.
  pub status : ℕ → Option Status
  -- The coroutines that were resumed so far.
  pub resumed : List ℕ

unfoldable pub set_status : ℕ → Option Status → (ℕ → Option Status) → ℕ → Option Status
set_status co st f a = if a == co then st else f a

unfoldable pub push_back_ready_list : ℕ → Scheduler → Scheduler
push_back_ready_list co s = record s { m_co_ready_list = s.m_co_ready_list ++ (co ∷ []) }

-- `emplace` of a multimap: behind the keys that are not greater.
unfoldable pub emplace_sleeper : ℕ → ℕ → List (ℕ × ℕ) → List (ℕ × ℕ)
emplace_sleeper k co [] = (k, co) ∷ []
emplace_sleeper k co ((j, d) ∷ q) =
    if leb j k then (j, d) ∷ emplace_sleeper k co q else (k, co) ∷ (j, d) ∷ q

unfoldable pub insert_sleep_rbtree : ℕ → ℕ → Scheduler → Scheduler
unfolding emplace_sleeper
insert_sleep_rbtree ms co s = record s {
  m_co_sleep_rbtree = emplace_sleeper ms co s.m_co_sleep_rbtree;
}

unfoldable pub without_first : List (ℕ × ℕ) → List (ℕ × ℕ)
without_first [] = []
without_first (e ∷ q) = q

unfoldable pub remove_first_sleep_rbtree : Scheduler → Scheduler
unfolding without_first
remove_first_sleep_rbtree s = record s { m_co_sleep_rbtree = without_first s.m_co_sleep_rbtree }

-- epoll_ctl for m_wait_fd, with EPOLL_CTL_ADD and EPOLL_CTL_DEL.
unfoldable pub add_event_wait_epoll : ℕ → Scheduler → Scheduler
add_event_wait_epoll co s = record s { watched = s.watched ++ (co ∷ []) }

unfoldable pub without : ℕ → List ℕ → List ℕ
without co [] = []
without co (d ∷ q) = if co == d then q else d ∷ without co q

unfoldable pub remove_event_wait_epoll : ℕ → Scheduler → Scheduler
unfolding without
remove_event_wait_epoll co s = record s { watched = without co s.watched }

unfoldable pub put_status : ℕ → Option Status → Scheduler → Scheduler
unfolding set_status
put_status co st s = record s { status = set_status co st s.status }

-- The constructor, and as many calls of it as a burst has.
unfoldable pub construct : Scheduler → Scheduler
unfolding put_status push_back_ready_list
construct s =
    push_back_ready_list (s.cnt + 1)
      (put_status (s.cnt + 1) (some ready) (record s { cnt = s.cnt + 1 }))

unfoldable pub construct_all : ℕ → Scheduler → Scheduler
unfolding construct
construct_all zero s = s
construct_all (suc n) s = construct_all n (construct s)

-- What a coroutine does when it goes on, by what it was doing.
unfoldable pub go_on : Option Status → ℕ → Scheduler → Scheduler
unfolding remove_first_sleep_rbtree remove_event_wait_epoll
go_on (some sleeping) co s = remove_first_sleep_rbtree s
go_on (some waiting) co s = remove_event_wait_epoll co s
go_on (some ready) co s = s
go_on (some running) co s = s
go_on (some exited) co s = s
go_on none co s = s

-- The end of a burst at the time `now`. An exited coroutine is deleted by schedule.
unfoldable pub end_burst : ℕ → Act → ℕ → Scheduler → Scheduler
unfolding push_back_ready_list add_event_wait_epoll insert_sleep_rbtree put_status
end_burst now yields co s = put_status co (some ready) (push_back_ready_list co s)
end_burst now waits co s = put_status co (some waiting) (add_event_wait_epoll co s)
end_burst now (sleeps ms) co s = put_status co (some sleeping) (insert_sleep_rbtree (now + ms) co s)
end_burst now exits co s = put_status co none s

-- The coroutine takes the processor.
unfoldable pub take_over : ℕ → Scheduler → Scheduler
unfolding go_on put_status
take_over co s =
    put_status co (some running)
      (go_on (s.status co) co (record s { resumed = s.resumed ++ (co ∷ []) }))

-- resume, and `delete co` after it.
unfoldable pub resume : ℕ → Burst → ℕ → Scheduler → Scheduler
unfolding take_over construct_all end_burst
resume now burst co s = end_burst now burst.act co (construct_all burst.constructs (take_over co s))

-- The three parts of schedule, where `bursts n` is the burst of the n-th resume.
module _ (bursts : ℕ → Burst) where
  unfoldable pub resume_next : ℕ → ℕ → Scheduler → Scheduler
  unfolding resume
  resume_next now co s = resume now (bursts (length s.resumed)) co s

  unfoldable pub wake_first : ℕ → List (ℕ × ℕ) → Scheduler → Scheduler
  unfolding resume_next
  wake_first now [] s = s
  wake_first now ((sleep_ms, co) ∷ q) s = if leb sleep_ms now then resume_next now co s else s

  unfoldable pub run_front : ℕ → List ℕ → Scheduler → Scheduler
  unfolding resume_next
  run_front now [] s = s
  run_front now (co ∷ rest) s = resume_next now co (record s { m_co_ready_list = rest })

  -- The events of epoll_wait: a coroutine, and whether EPOLLERR is set.
  unfoldable pub run_events : ℕ → List (ℕ × Bool) → Scheduler → Scheduler
  unfolding resume_next remove_event_wait_epoll
  run_events now [] s = s
  run_events now ((co, true) ∷ events) s = run_events now events (remove_event_wait_epoll co s)
  run_events now ((co, false) ∷ events) s = run_events now events (resume_next now co s)

  unfoldable pub schedule : ℕ → List (ℕ × Bool) → Scheduler → Scheduler
  unfolding wake_first run_front run_events
  schedule now events s =
      let t = wake_first now s.m_co_sleep_rbtree s in
      run_events now events (run_front now t.m_co_ready_list t)

abbrev pub default_timeout_ms : ℕ
default_timeout_ms = 200

-- get_epoll_wait_timeout_ms at the time `now`.
unfoldable pub get_epoll_wait_timeout_ms : ℕ → Scheduler → ℕ
get_epoll_wait_timeout_ms now s = elim s.m_co_sleep_rbtree [
  | [] ↦ default_timeout_ms
  | e ∷ q ↦ elim s.m_co_ready_list [
    | [] ↦
        if ltb now e.0
        then (if ltb (e.0 - now) default_timeout_ms then e.0 - now else default_timeout_ms)
        else default_timeout_ms
    | c ∷ l ↦ default_timeout_ms
  ]
]
