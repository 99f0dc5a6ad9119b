-- ===== src/ThreadPool/Step.antt =====
-- The interleavings of producers and threads in misc/mgx_thread_pool.cpp.
use my_gx.Base.{
  Bool, ℕ, ◌+◌, ◌≤◌, ◌<◌, List, [], ◌∷◌, ◌++◌, true, false, none, some, length, length-append, ltb,
  if_false, ◌≡◌, ◌≢◌, refl, sym, ap, subst, ◌∙◌, arith, inl, inr, Bool-cases,
}
use mathlib.Core.Option.{some-injective}
use my_gx.Conn.{MsgBuf}
use my_gx.ThreadPool.{
  ThPool, create, insert_msg, signal_to_th, wake, interrupt, test_size, pop_msg, take_msg,
  count_running, finish, shut_down,
}

-- One access to the shared state, other than of a producer's push. `signals` says whether signals may
-- interrupt threads in sem_wait.
pub data Step (signals : Bool) (s t : ThPool) : Type 0 where
  posts : 0 < s.unposted → t ≡ signal_to_th s → Step signals s t
  wakes : 0 < s.th_pool_sem → 0 < s.waiting → t ≡ wake s → Step signals s t
  interrupts : signals ≡ true → 0 < s.waiting → t ≡ interrupt s → Step signals s t
  tests : 0 < s.woken → t ≡ test_size s → Step signals s t
  takes : 0 < s.at_lock → take_msg s ≡ some t → Step signals s t
  counts :
      (before later : List MsgBuf) (m : MsgBuf)
      → s.starting ≡ before ++ m ∷ later
      → t ≡ count_running before m later s
      → Step signals s t
  finishes :
      (before later : List MsgBuf) (m : MsgBuf)
      → s.running ≡ before ++ m ∷ later
      → t ≡ finish before later s
      → Step signals s t
  shuts_down : t ≡ shut_down s → Step signals s t

pub data Run (signals : Bool) (s : ThPool) : ThPool → Type 0 where
  start : Run signals s s
  step : {t u : ThPool} → Run signals s t → Step signals t u → Run signals s u
  push : {t : ThPool} (m : MsgBuf) → Run signals s t → Run signals s (insert_msg m t)

-- What is on its way to a message: posts to come, the semaphore, and threads that have passed it.
abbrev pub claims : ThPool → ℕ
claims s = s.unposted + s.th_pool_sem + s.woken + s.at_lock

pub record Inv (signals : Bool) (th_cnt : ℕ) (s : ThPool) : Type 0 where
  pub counted : s.m_msg_queue_size ≡ length s.m_msg_queue
  pub busy : s.m_running_cnt ≡ length s.running
  pub threads :
      s.waiting + s.woken + s.at_lock + s.ended + length s.starting + length s.running ≡ th_cnt
  -- Without signals, every claim has its message, and every message its claim unless the pool is shut
  -- down.
  pub claimed : signals ≡ false → claims s ≤ length s.m_msg_queue
  pub complete : signals ≡ false → s.m_shutdown ≡ false → claims s ≡ length s.m_msg_queue

create-Inv : (b : Bool) (th_cnt : ℕ) → Inv b th_cnt (create th_cnt)
unfolding create
create-Inv b th_cnt = record {
  counted = refl;
  busy = refl;
  threads = omega arith;
  claimed = λ w. omega arith;
  complete = λ w e. refl;
}

insert_msg-Inv : (b : Bool) (n : ℕ) (m : MsgBuf) (s : ThPool) → Inv b n s → Inv b n (insert_msg m s)
unfolding insert_msg
insert_msg-Inv b n m s v =
    let longer = length-append s.m_msg_queue (m ∷ []) in
    record {
      counted = omega (arith, v.counted, longer);
      busy = v.busy;
      threads = v.threads;
      claimed = λ w. omega (arith, v.claimed w, longer);
      complete = λ w e. omega (arith, v.complete w e, longer);
    }

pub take_msg-up : (s : ThPool) → s.m_shutdown ≡ false → take_msg s ≡ pop_msg s.m_msg_queue s
unfolding take_msg
take_msg-up s up = if_false s.m_shutdown _ _ up

pop_msg-Inv :
    (b : Bool) (n : ℕ) (queue : List MsgBuf) (s t : ThPool)
    → Inv b n s
    → 0 < s.at_lock
    → queue ≡ s.m_msg_queue
    → s.m_shutdown ≡ false
    → pop_msg queue s ≡ some t
    → Inv b n t
unfolding pop_msg
pop_msg-Inv b n [] s t v h q up e = cc
pop_msg-Inv b n (m ∷ queue) s t v h q up e =
    let shorter = ap length q in
    let longer = length-append s.starting (m ∷ []) in
    subst (Inv b n) (some-injective _ _ e) (record {
      counted = omega (arith, v.counted, shorter);
      busy = v.busy;
      threads = omega (arith, v.threads, longer, h);
      claimed = λ w. omega (arith, v.claimed w, shorter, h);
      complete = λ w f. omega (arith, v.complete w up, shorter, h);
    })

take_msg-Inv :
    (b : Bool) (n : ℕ) (s t : ThPool) → Inv b n s → 0 < s.at_lock → take_msg s ≡ some t → Inv b n t
unfolding take_msg
take_msg-Inv b n s t v h e = elim (Bool-cases s.m_shutdown) [
  | inl down ↦ subst (Inv b n) (some-injective _ _ (rw down at e)) (record {
    counted = v.counted;
    busy = v.busy;
    threads = omega (arith, v.threads, h);
    claimed = λ w. omega (arith, v.claimed w, h);
    complete = λ w f. absurd (ground (arith, down, f));
  })
  | inr up ↦ pop_msg-Inv b n s.m_msg_queue s t v h refl up (sym (take_msg-up s up) ∙ e)
]

test_size-Inv : (b : Bool) (n : ℕ) (s : ThPool) → Inv b n s → 0 < s.woken → Inv b n (test_size s)
unfolding test_size
test_size-Inv b n s v h = elim (Bool-cases (ltb 0 s.m_msg_queue_size)) [
  | inl some_msg ↦ rw some_msg (record {
    counted = v.counted;
    busy = v.busy;
    threads = omega (arith, v.threads, h);
    claimed = λ w. omega (arith, v.claimed w, h);
    complete = λ w e. omega (arith, v.complete w e, h);
  })
  | inr no_msg ↦ rw no_msg (record {
    counted = v.counted;
    busy = v.busy;
    threads = omega (arith, v.threads, h);
    claimed = λ w. omega (arith, v.claimed w, h);
    complete = λ w e. absurd (ground (arith, no_msg, v.counted, v.claimed w, h));
  })
]

finish-Inv :
    (b : Bool) (n : ℕ) (before later : List MsgBuf) (m : MsgBuf) (s : ThPool)
    → Inv b n s
    → s.running ≡ before ++ m ∷ later
    → Inv b n (finish before later s)
unfolding finish
finish-Inv b n before later m s v e =
    let shorter = ap length e ∙ length-append before (m ∷ later) in
    let rest = length-append before later in
    record {
      counted = v.counted;
      busy = omega (arith, v.busy, shorter, rest);
      threads = omega (arith, v.threads, shorter, rest);
      claimed = v.claimed;
      complete = v.complete;
    }

count_running-Inv :
    (b : Bool) (n : ℕ) (before later : List MsgBuf) (m : MsgBuf) (s : ThPool)
    → Inv b n s
    → s.starting ≡ before ++ m ∷ later
    → Inv b n (count_running before m later s)
unfolding count_running
count_running-Inv b n before later m s v e =
    let shorter = ap length e ∙ length-append before (m ∷ later) in
    let rest = length-append before later in
    let longer = length-append s.running (m ∷ []) in
    record {
      counted = v.counted;
      busy = omega (arith, v.busy, longer);
      threads = omega (arith, v.threads, shorter, rest, longer);
      claimed = v.claimed;
      complete = v.complete;
    }

Step-Inv : (b : Bool) (n : ℕ) (s t : ThPool) → Step b s t → Inv b n s → Inv b n t
unfolding signal_to_th wake interrupt shut_down
Step-Inv b n s t (posts h e) v = rw e (record {
  counted = v.counted;
  busy = v.busy;
  threads = v.threads;
  claimed = λ w. omega (arith, v.claimed w, h);
  complete = λ w f. omega (arith, v.complete w f, h);
})
Step-Inv b n s t (wakes h w e) v = rw e (record {
  counted = v.counted;
  busy = v.busy;
  threads = omega (arith, v.threads, w);
  claimed = λ w. omega (arith, v.claimed w, h);
  complete = λ w f. omega (arith, v.complete w f, h);
})
Step-Inv b n s t (interrupts sig h e) v = rw e (record {
  counted = v.counted;
  busy = v.busy;
  threads = omega (arith, v.threads, h);
  claimed = λ w. absurd (cc (sig, w));
  complete = λ w f. absurd (cc (sig, w));
})
Step-Inv b n s t (tests h e) v = rw e (test_size-Inv b n s v h)
Step-Inv b n s t (takes h e) v = take_msg-Inv b n s t v h e
Step-Inv b n s t (counts before later m r e) v = rw e (count_running-Inv b n before later m s v r)
Step-Inv b n s t (finishes before later m r e) v = rw e (finish-Inv b n before later m s v r)
Step-Inv b n s t (shuts_down e) v = rw e (record {
  counted = v.counted;
  busy = v.busy;
  threads = v.threads;
  claimed = v.claimed;
  complete = λ w f. cc;
})

Run-Inv : (b : Bool) (n : ℕ) (s t : ThPool) → Run b s t → Inv b n s → Inv b n t
Run-Inv b n s t start v = v
Run-Inv b n s t (step {t = m} r st) v = Step-Inv b n m t st (Run-Inv b n s m r v)
Run-Inv b n s t (push {t = m} msg r) v = insert_msg-Inv b n msg m (Run-Inv b n s m r v)

pop_msg-defined : (queue : List MsgBuf) (s : ThPool) → 0 < length queue → pop_msg queue s ≢ none
unfolding pop_msg
pop_msg-defined [] s h = absurd (omega arith)
pop_msg-defined (m ∷ queue) s h = λ e. cc

-- Whatever the interleaving of producers, threads and a shutdown after create, and whether or not
-- signals interrupt threads in sem_wait: the size of the queue is right, and m_running_cnt counts the
-- threads that have counted themselves. As long as no signal interrupts sem_wait, a thread that it
-- let through finds the queue not empty, and one that has the lock never takes the front of an empty
-- queue.
pub Run-safe :
    (signals : Bool) (th_cnt : ℕ) (s : ThPool)
    → Run signals (create th_cnt) s
    → (s.m_msg_queue_size ≡ length s.m_msg_queue)
      × (s.m_running_cnt ≡ length s.running)
      × (signals ≡ false → 0 < s.woken → 0 < s.m_msg_queue_size)
      × (signals ≡ false → 0 < s.at_lock → take_msg s ≢ none)
unfolding take_msg
Run-safe signals th_cnt s r =
    let v = Run-Inv signals th_cnt (create th_cnt) s r (create-Inv signals th_cnt) in
    (
      v.counted,
      v.busy,
      λ w h. omega (arith, v.counted, v.claimed w, h),
      λ w h. elim (Bool-cases s.m_shutdown) [
        | inl down ↦ rw down (λ e. cc)
        | inr up ↦ λ e.
            pop_msg-defined s.m_msg_queue s (omega (arith, v.claimed w, h))
              (sym (take_msg-up s up) ∙ e)
      ],
    )

empty_queue : (queue : List MsgBuf) → length queue ≡ 0 → queue ≡ []
empty_queue [] e = refl
empty_queue (m ∷ queue) e = absurd (omega arith)

-- No message is forgotten as long as no signal interrupts sem_wait: before a shutdown, when all posts
-- are made, the semaphore is at 0, and no thread is between sem_wait and the lock, the queue is
-- empty.
pub Run-drained :
    (th_cnt : ℕ) (s : ThPool)
    → Run false (create th_cnt) s
    → s.m_shutdown ≡ false
    → claims s ≡ 0
    → s.m_msg_queue ≡ []
Run-drained th_cnt s r up none_left =
    let v = Run-Inv false th_cnt (create th_cnt) s r (create-Inv false th_cnt) in
    empty_queue s.m_msg_queue (omega (arith, v.complete refl up, none_left))
