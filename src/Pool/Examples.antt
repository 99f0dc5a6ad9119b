-- ===== src/Pool/Examples.antt =====
-- Tests and instances for the connection pool of net/mgx_socket_conn.cpp.
use my_gx.Base.{◌+◌, ◌*◌, [], ◌∷◌, true, ◌≢◌, refl, arith, inr}
use my_gx.Timer.{TimerQueue}
use my_gx.Pool.{
  Pool, blank, conn_pool_init, get_conn, close_conn, insert_recy_conn_queue, recy_loop, recy_round,
}
use my_gx.Pool.Inv.{Inv, InUse, occ}
use my_gx.Pool.Step.{Reach, here, next, closes, Reach-Inv, AllFree}
use my_gx.Pool.Seq.{steps, stale_seq}
use my_gx.Pool.Recovery.{Done, recy_loop_ends}

abbrev no_timers : TimerQueue
no_timers = record { entries = []; size = 0; head_time = 0 }

abbrev empty : Pool
empty = record {
  conn = λ a. blank;
  next = 0;
  pconns_queue = [];
  pconns_free_queue = [];
  recy_conn_set = [];
  total_conns_cnt = 0;
  free_conns_cnt = 0;
  total_recy_conns_cnt = 0;
  recy_conn_wait_time = 60;
  enabled_heartbeat = true;
  timers = no_timers;
  closed = [];
}

empty-AllFree : AllFree empty
unfolding occ
empty-AllFree = record {
  same = refl;
  all_made = refl;
  no_recy = refl;
  recy_count = refl;
  once = λ a. omega arith;
}

-- Three connections: 0 is free, 1 in recovery, 2 in use.
abbrev pool : Pool
pool = record empty {
  next = 3;
  pconns_queue = 0 ∷ 1 ∷ 2 ∷ [];
  pconns_free_queue = 0 ∷ [];
  recy_conn_set = 1 ∷ [];
  total_conns_cnt = 3;
  free_conns_cnt = 1;
  total_recy_conns_cnt = 1;
}

pool-Inv : Inv pool
unfolding occ
pool-Inv = record {
  free_count = refl;
  recy_count = refl;
  total_count = refl;
  all_made = refl;
  once = λ a. ground arith;
}

in_use : InUse 2 pool
unfolding occ
in_use = record { made = omega arith; busy = refl }

abbrev run : Reach pool (close_conn 2 pool)
run = next here (closes 2 in_use refl)

Reach-Inv_example : Inv (close_conn 2 pool)
Reach-Inv_example = Reach-Inv pool (close_conn 2 pool) run pool-Inv

not-InUse : ¬ InUse 2 (close_conn 2 pool)
unfolding occ my_gx.Pool.close_conn my_gx.Pool.close_fd my_gx.Pool.free_conn
not-InUse u = omega (arith, u.busy)

stale_seq_example : ((close_conn 2 pool).conn 2).m_cur_seq ≢ (pool.conn 2).m_cur_seq
unfolding blank steps
stale_seq_example =
    stale_seq 2 pool (close_conn 2 pool) run pool-Inv (omega arith) (omega arith) (omega arith)
      (inr (in_use, not-InUse))

recy_loop_ends_example : Done (1 ∷ []) pool (recy_loop (8 + 1) (λ i. i * 10) 0 (1 ∷ []) pool)
unfolding blank
recy_loop_ends_example =
    recy_loop_ends (λ i. i * 10) 8 80 pool (λ j h. omega arith) (omega arith, tt) pool-Inv
