-- ===== src/ThreadPool/Examples.antt =====
-- Instances for the thread pool of misc/mgx_thread_pool.cpp.
use my_gx.Base.{ℕ, ◌+◌, ◌≤◌, ◌<◌, [], ◌∷◌, ◌++◌, true, false, none, length, ◌≡◌, ◌≢◌, refl, arith}
use my_gx.Conn.{MsgBuf}
use my_gx.ThreadPool.{
  ThPool, create, insert_msg, signal_to_th, wake, interrupt, test_size, take_msg, pop_msg,
  shut_down,
}
use my_gx.ThreadPool.Step.{
  posts, wakes, interrupts, tests, takes, Run, start, step, push, claims, Run-safe, Run-drained,
}
use my_gx.ThreadPool.Order.{quiet, and_then, pushed, taken, taken-in_order, Quiet-ended}

abbrev message : ℕ → MsgBuf
message n = record { pconn = n; cur_seq = 1; bytes = [] }

-- Two messages are pushed, one is posted, and a thread takes it.
abbrev two_pushed : Run true (create 3) (insert_msg (message 2) (insert_msg (message 1) (create 3)))
two_pushed = push (message 2) (push (message 1) start)

abbrev posted : ThPool
posted = signal_to_th (insert_msg (message 2) (insert_msg (message 1) (create 3)))

run : Run true (create 3) (test_size (wake posted))
unfolding create insert_msg signal_to_th wake
run =
    step
      (step (step two_pushed (posts (omega arith) refl)) (wakes (omega arith) (omega arith) refl))
      (tests (omega arith) refl)

Run-safe_example :
    ((test_size (wake posted)).m_msg_queue_size ≡ length (test_size (wake posted)).m_msg_queue)
    × ((test_size (wake posted)).m_running_cnt ≡ length (test_size (wake posted)).running)
    × (true ≡ false
        → 0 < (test_size (wake posted)).woken
        → 0 < (test_size (wake posted)).m_msg_queue_size)
    × (true ≡ false
        → 0 < (test_size (wake posted)).at_lock
        → take_msg (test_size (wake posted)) ≢ none)
Run-safe_example = Run-safe true 3 (test_size (wake posted)) run

taken-in_order_example :
    taken run ++ (test_size (wake posted)).m_msg_queue ≡ (create 3).m_msg_queue ++ pushed run
taken-in_order_example = taken-in_order true (create 3) (test_size (wake posted)) run

-- One message is pushed, and a thread works on it.
abbrev working : ThPool
working = record {
  m_msg_queue = [];
  m_msg_queue_size = 0;
  th_pool_sem = 0;
  m_shutdown = false;
  m_running_cnt = 0;
  unposted = 0;
  waiting = 2;
  woken = 0;
  at_lock = 0;
  ended = 0;
  starting = message 1 ∷ [];
  running = [];
}

working_run : Run false (create 3) working
unfolding create insert_msg signal_to_th wake test_size take_msg pop_msg
working_run =
    step
      (step
        (step (step (push (message 1) start) (posts (omega arith) refl))
          (wakes (omega arith) (omega arith) refl))
        (tests (omega arith) refl))
      (takes (omega arith) refl)

Run-drained_example : working.m_msg_queue ≡ []
Run-drained_example = Run-drained 3 working working_run refl refl

-- A pool of three idle threads is shut down while one message is being announced.
abbrev shut : ThPool
shut = shut_down (insert_msg (message 4) (create 3))

Quiet-ended_example :
    ((signal_to_th shut).ended + claims (signal_to_th shut) ≤ shut.ended + claims shut)
    × ((signal_to_th shut).m_shutdown ≡ true)
unfolding shut_down insert_msg create
Quiet-ended_example =
    Quiet-ended shut (signal_to_th shut) (and_then quiet (posts (omega arith) refl)) refl

-- One message is announced; a post lets one thread through the test of the size and a signal another
-- one; when the first has taken the message, the second finds nothing to take.
abbrev second : ThPool
second = record working { waiting = 1; at_lock = 1 }

second_run : Run true (create 3) second
unfolding create insert_msg signal_to_th wake interrupt test_size take_msg pop_msg
second_run =
    step
      (step
        (step
          (step
            (step (step (push (message 1) start) (posts (omega arith) refl))
              (wakes (omega arith) (omega arith) refl))
            (interrupts refl (omega arith) refl))
          (tests (omega arith) refl))
        (tests (omega arith) refl))
      (takes (omega arith) refl)

nothing_there : take_msg second ≡ none
unfolding take_msg pop_msg
nothing_there = refl
