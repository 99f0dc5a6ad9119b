-- ===== src/Timer/Examples.antt =====
-- Tests and instances for the timers of net/mgx_socket_time.cpp.
use my_gx.Base.{ℕ, [], ◌∷◌, refl, arith}
use my_gx.Timer.{Timer, TimerQueue, add_to_timer_queue, delete_from_timer_queue, over_time_timers}
use my_gx.Timer.Order.{Inv, add_delete-Inv}
use my_gx.Timer.Over.{Taken, due, over_time_timers_end}

abbrev timer : ℕ → Timer
timer c = record { pconn = c; cur_seq = 1 }

abbrev queue : TimerQueue
queue = record {
  entries = (20, timer 1) ∷ (30, timer 2) ∷ (50, timer 3) ∷ [];
  size = 3;
  head_time = 20;
}

queue-Inv : Inv queue
unfolding my_gx.Timer.earliest
queue-Inv = record {
  counted = refl;
  sorted = ((omega arith, (omega arith, tt)), ((omega arith, tt), (tt, tt)));
  head = refl;
}

add_delete-Inv_example :
    Inv (add_to_timer_queue 15 20 (timer 9) queue) × Inv (delete_from_timer_queue 2 queue)
add_delete-Inv_example = add_delete-Inv 15 20 2 (timer 9) queue queue-Inv

over_time_timers_end_example : Taken 3 40 20 queue
unfolding due
over_time_timers_end_example =
    over_time_timers_end 3 40 20 queue queue-Inv (omega arith) (omega arith)
