-- ===== src/ThreadPool/Order.antt =====
-- In which order the threads of misc/mgx_thread_pool.cpp take the messages, and what becomes of the
-- threads after destory_all has set m_shutdown.
use my_gx.Base.{
  length, drop, ◌+◌, ◌-◌, ◌≤◌, List, [], ◌∷◌, ◌++◌, append_assoc, append-nil, Bool, true, false,
  some, ltb, if◌then◌else◌, ◌≡◌, refl, sym, ap, subst, ◌∙◌, arith, inl, inr, Bool-cases,
}
use mathlib.Core.Option.{some-injective}
use my_gx.Conn.{MsgBuf}
use my_gx.ThreadPool.{
  ThPool, insert_msg, signal_to_th, wake, interrupt, count_running, test_size, pop_msg, take_msg,
  finish, shut_down,
}
use my_gx.ThreadPool.Step.{
  Step, posts, wakes, interrupts, tests, takes, counts, finishes, shuts_down, Run, start, step,
  push, claims, take_msg-up,
}

drop_all : (l : List MsgBuf) → drop (length l) l ≡ []
drop_all [] = refl
drop_all (m ∷ l) = drop_all l

drop-length-append : (l k : List MsgBuf) → drop (length l) (l ++ k) ≡ k
drop-length-append [] k = refl
drop-length-append (m ∷ l) k = drop-length-append l k

-- What a step hands to a thread: what stands behind what threads have had before.
abbrev pub taken_by : {b : Bool} {s t : ThPool} → Step b s t → List MsgBuf
taken_by {s = s} {t = t} (takes h e) = drop (length s.starting) t.starting
taken_by _ = []

-- The messages that producers pushed in a run, and those that threads took, in order.
pub pushed : {b : Bool} {s t : ThPool} → Run b s t → List MsgBuf
pushed start = []
pushed (step r st) = pushed r
pushed (push m r) = pushed r ++ m ∷ []

pub taken : {b : Bool} {s t : ThPool} → Run b s t → List MsgBuf
taken start = []
taken (step r st) = taken r ++ taken_by st
taken (push m r) = taken r

pop_msg-front :
    (queue : List MsgBuf) (s t : ThPool)
    → pop_msg queue s ≡ some t
    → drop (length s.starting) t.starting ++ t.m_msg_queue ≡ queue
unfolding pop_msg
pop_msg-front [] s t e = cc
pop_msg-front (m ∷ queue) s t e =
    ap (λ u. drop (length s.starting) u.starting ++ u.m_msg_queue) (sym (some-injective _ _ e))
    ∙ ap (λ l. l ++ queue) (drop-length-append s.starting (m ∷ []))

if_true : {A : Type 0} (b : Bool) (x y : A) → b ≡ true → (if b then x else y) ≡ x
if_true true x y e = refl
if_true false x y e = cc

take_msg-down :
    (s : ThPool)
    → s.m_shutdown ≡ true
    → take_msg s ≡ some (record s { at_lock = s.at_lock - 1; ended = s.ended + 1 })
unfolding take_msg
take_msg-down s down = if_true s.m_shutdown _ _ down

test_size-queue : (s : ThPool) → (test_size s).m_msg_queue ≡ s.m_msg_queue
unfolding test_size
test_size-queue s = elim (Bool-cases (ltb 0 s.m_msg_queue_size)) [
  | inl some_msg ↦ rw some_msg refl
  | inr no_msg ↦ rw no_msg refl
]

take_msg-queue :
    (s t : ThPool)
    → take_msg s ≡ some t
    → drop (length s.starting) t.starting ++ t.m_msg_queue ≡ s.m_msg_queue
take_msg-queue s t e = elim (Bool-cases s.m_shutdown) [
  | inl down ↦
      let kept = some-injective _ _ (sym (take_msg-down s down) ∙ e) in
      ap (λ u. drop (length s.starting) u.starting ++ u.m_msg_queue) (sym kept)
      ∙ ap (λ l. l ++ s.m_msg_queue) (drop_all s.starting)
  | inr up ↦ pop_msg-front s.m_msg_queue s t (sym (take_msg-up s up) ∙ e)
]

Step-queue :
    (b : Bool) (s t : ThPool) (st : Step b s t) → taken_by st ++ t.m_msg_queue ≡ s.m_msg_queue
unfolding signal_to_th wake interrupt test_size count_running finish shut_down
Step-queue b s t (posts h e) = ap (λ u. u.m_msg_queue) e
Step-queue b s t (wakes h w e) = ap (λ u. u.m_msg_queue) e
Step-queue b s t (interrupts w h e) = ap (λ u. u.m_msg_queue) e
Step-queue b s t (tests h e) = ap (λ u. u.m_msg_queue) e ∙ test_size-queue s
Step-queue b s t (takes h e) = take_msg-queue s t e
Step-queue b s t (counts before later m r e) = ap (λ u. u.m_msg_queue) e
Step-queue b s t (finishes before later m r e) = ap (λ u. u.m_msg_queue) e
Step-queue b s t (shuts_down e) = ap (λ u. u.m_msg_queue) e

-- Threads take the messages in the order in which they were pushed, each once, whether or not signals
-- interrupt them: what threads were handed, and what is still in the queue behind it, are what was
-- in the queue and what was pushed.
pub taken-in_order :
    (signals : Bool) (s t : ThPool) (r : Run signals s t)
    → taken r ++ t.m_msg_queue ≡ s.m_msg_queue ++ pushed r
unfolding taken pushed insert_msg
taken-in_order b s t start = sym (append-nil s.m_msg_queue)
taken-in_order b s t (step {t = m} r st) =
    append_assoc (taken r) (taken_by st) t.m_msg_queue
    ∙ ap (λ q. taken r ++ q) (Step-queue b m t st)
    ∙ taken-in_order b s m r
taken-in_order b s t (push {t = m} msg r) =
    sym (append_assoc (taken r) m.m_msg_queue (msg ∷ []))
    ∙ ap (λ q. q ++ msg ∷ []) (taken-in_order b s m r)
    ∙ append_assoc s.m_msg_queue (pushed r) (msg ∷ [])

-- Steps with no push among them, and no signal that interrupts sem_wait.
pub data Quiet (s : ThPool) : ThPool → Type 0 where
  quiet : Quiet s s
  and_then : {t u : ThPool} → Quiet s t → Step false t u → Quiet s u

Step-ended :
    (s t : ThPool)
    → Step false s t
    → s.m_shutdown ≡ true
    → (t.ended + claims t ≤ s.ended + claims s) × (t.m_shutdown ≡ true)
unfolding signal_to_th wake interrupt test_size count_running finish shut_down
Step-ended s t (posts h e) down = rw e (omega (arith, h), down)
Step-ended s t (wakes h w e) down = rw e (omega (arith, h), down)
Step-ended s t (interrupts w h e) down = absurd (cc w)
Step-ended s t (tests h e) down = rw e (elim (Bool-cases (ltb 0 s.m_msg_queue_size)) [
  | inl some_msg ↦ rw some_msg (omega (arith, h), down)
  | inr no_msg ↦ rw no_msg (omega (arith, h), down)
])
Step-ended s t (takes h e) down =
    let left = some-injective _ _ (sym (take_msg-down s down) ∙ e) in
    subst (λ u. (u.ended + claims u ≤ s.ended + claims s) × (u.m_shutdown ≡ true)) left
      (omega (arith, h), down)
Step-ended s t (counts before later m r e) down = rw e (omega arith, down)
Step-ended s t (finishes before later m r e) down = rw e (omega arith, down)
Step-ended s t (shuts_down e) down = rw e (omega arith, refl)

-- After a shutdown, with no further push and as long as no signal interrupts sem_wait, no more threads
-- leave th_func than had left it and than posts were on their way: those that wait in sem_wait
-- beyond that stay there.
pub Quiet-ended :
    (s t : ThPool)
    → Quiet s t
    → s.m_shutdown ≡ true
    → (t.ended + claims t ≤ s.ended + claims s) × (t.m_shutdown ≡ true)
Quiet-ended s t quiet down = (omega arith, down)
Quiet-ended s t (and_then {t = m} r st) down =
    let (before, down') = Quiet-ended s m r down in
    let (after, down'') = Step-ended m t st down' in (omega (arith, before, after), down'')
