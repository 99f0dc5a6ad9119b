-- ===== src/ThreadPool.antt =====
-- The thread pool of misc/mgx_thread_pool.cpp: its message queue, its semaphore, and where its threads
-- stand in th_func. An operation is one access to the shared state: the semaphore, the queue under
-- m_mutex, or an atomic counter.
pub mod Step
pub mod Order
mod Examples
use my_gx.Base.{
  ℕ, ◌+◌, ◌-◌, List, [], ◌∷◌, ◌++◌, Bool, true, false, Option, none, some, ltb, if◌then◌else◌,
}
use my_gx.Conn.{MsgBuf}

pub record ThPool : Type 0 where
  pub m_msg_queue : List MsgBuf
  pub m_msg_queue_size : ℕ
  -- The value of m_th_pool_sem.
  pub th_pool_sem : ℕ
  pub m_shutdown : Bool
  pub m_running_cnt : ℕ
  -- Calls of insert_msg_to_queue_and_signal that have pushed and not yet posted.
  pub unposted : ℕ
  -- The threads in sem_wait, between it and the test of the queue's size, between that test and
  -- the lock, and those that have left th_func.
  pub waiting : ℕ
  pub woken : ℕ
  pub at_lock : ℕ
  pub ended : ℕ
  -- The messages that threads have taken, up to `m_running_cnt++`, and those that they work on.
  pub starting : List MsgBuf
  pub running : List MsgBuf

-- create, once all threads run.
pub create : ℕ → ThPool
create th_cnt = record {
  m_msg_queue = [];
  m_msg_queue_size = 0;
  th_pool_sem = 0;
  m_shutdown = false;
  m_running_cnt = 0;
  unposted = 0;
  waiting = th_cnt;
  woken = 0;
  at_lock = 0;
  ended = 0;
  starting = [];
  running = [];
}

-- The part of insert_msg_to_queue_and_signal under the lock.
pub insert_msg : MsgBuf → ThPool → ThPool
insert_msg buf s = record s {
  m_msg_queue = s.m_msg_queue ++ buf ∷ [];
  m_msg_queue_size = s.m_msg_queue_size + 1;
  unposted = s.unposted + 1;
}

-- sem_post; the warning of signal_to_th is left out.
pub signal_to_th : ThPool → ThPool
signal_to_th s = record s { th_pool_sem = s.th_pool_sem + 1; unposted = s.unposted - 1 }

-- sem_wait takes one from the semaphore.
pub wake : ThPool → ThPool
wake s = record s { th_pool_sem = s.th_pool_sem - 1; waiting = s.waiting - 1; woken = s.woken + 1 }

-- sem_wait fails with EINTR after a signal: its result is not looked at, so the thread goes on.
pub interrupt : ThPool → ThPool
interrupt s = record s { waiting = s.waiting - 1; woken = s.woken + 1 }

-- `if(m_msg_queue_size > 0)`
pub test_size : ThPool → ThPool
test_size s =
    if ltb 0 s.m_msg_queue_size
    then record s { woken = s.woken - 1; at_lock = s.at_lock + 1 }
    else record s { woken = s.woken - 1; waiting = s.waiting + 1 }

-- front and pop; `none` is front of an empty queue, which C++ leaves undefined.
pub pop_msg : List MsgBuf → ThPool → Option ThPool
pop_msg [] s = none
pop_msg (m ∷ queue) s = some (record s {
  m_msg_queue = queue;
  m_msg_queue_size = s.m_msg_queue_size - 1;
  at_lock = s.at_lock - 1;
  starting = s.starting ++ m ∷ [];
})

-- What a thread does under the lock.
pub take_msg : ThPool → Option ThPool
take_msg s =
    let popped = pop_msg s.m_msg_queue s in
    if s.m_shutdown
    then some (record s { at_lock = s.at_lock - 1; ended = s.ended + 1 })
    else popped

-- `m_running_cnt++`, by the thread that has taken `m`; `before` and `later` are what others have taken.
pub count_running : List MsgBuf → MsgBuf → List MsgBuf → ThPool → ThPool
count_running before m later s = record s {
  starting = before ++ later;
  m_running_cnt = s.m_running_cnt + 1;
  running = s.running ++ m ∷ [];
}

-- A thread is done with a message; `before` and `later` are those of the other threads.
pub finish : List MsgBuf → List MsgBuf → ThPool → ThPool
finish before later s = record s {
  running = before ++ later;
  m_running_cnt = s.m_running_cnt - 1;
  waiting = s.waiting + 1;
}

-- destory_all before it joins the threads.
pub shut_down : ThPool → ThPool
shut_down s = record s { m_shutdown = true }
