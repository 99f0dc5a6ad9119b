-- ===== src/Monitor/Examples.antt =====
-- Instances for monitor_timer_th_func of net/mgx_socket_time.cpp.
use my_gx.Base.{ℕ, ◌*◌, ◌<◌, [], ◌∷◌, true, some, ◌≡◌, refl, arith}
use my_gx.Timer.{Timer, earliest}
use my_gx.Timer.Order.{Inv}
use my_gx.Timer.Over.{due}
use my_gx.Pool.{Pool, blank}
use my_gx.Pool.Inv.{occ}
use my_gx.Monitor.{monitor_round}
use my_gx.Monitor.Heartbeat.{IsAlive, Untouched, monitor_round_spares, monitor_round_drops}

abbrev timer : ℕ → Timer
timer c = record { pconn = c; cur_seq = 1 }

-- The connection 0 has never sent a ping, the connection 1 did at the time 90.
abbrev pool : Pool
pool = record {
  conn = λ a. record blank { m_cur_seq = 1; last_ping_time = a * 90 };
  next = 2;
  pconns_queue = 0 ∷ 1 ∷ [];
  pconns_free_queue = [];
  recy_conn_set = [];
  total_conns_cnt = 2;
  free_conns_cnt = 0;
  total_recy_conns_cnt = 0;
  recy_conn_wait_time = 60;
  enabled_heartbeat = true;
  timers = record { entries = (95, timer 1) ∷ (96, timer 0) ∷ []; size = 2; head_time = 95 };
  closed = [];
}

pool-Inv : Inv pool.timers
unfolding earliest
pool-Inv = record { counted = refl; sorted = ((omega arith, tt), (tt, tt)); head = refl }

monitor_round_spares_example :
    (q : Pool) × (monitor_round 3 101 100 10 pool ≡ some q)
    × ((a : ℕ) → IsAlive 100 10 a pool → Untouched a pool q)
unfolding due
monitor_round_spares_example =
    monitor_round_spares 3 101 100 10 pool pool-Inv (omega arith) (omega arith)

abbrev after_round :
    (q : Pool) × (monitor_round 3 101 100 10 pool ≡ some q)
    × ((a : ℕ) → IsAlive 100 10 a pool → Untouched a pool q)
unfolding due
after_round = monitor_round_spares 3 101 100 10 pool pool-Inv (omega arith) (omega arith)

monitor_round_drops_example : 0 < occ 0 after_round.0.recy_conn_set
unfolding due blank
monitor_round_drops_example =
    monitor_round_drops 3 101 100 10 (timer 1 ∷ []) [] (timer 0) pool after_round.0 pool-Inv
      (omega arith) (omega arith) (omega arith) (omega arith) refl (refl, omega arith) after_round.1
