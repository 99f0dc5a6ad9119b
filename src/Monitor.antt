-- ===== src/Monitor.antt =====
-- The thread that looks for missing heartbeats: monitor_timer_th_func of net/mgx_socket_time.cpp, one
-- round of its loop. It reads the time once; insert_recy_conn_queue reads it again.
pub mod Heartbeat
mod Examples
use my_gx.Base.{
  ℕ, ◌+◌, ◌*◌, List, [], ◌∷◌, Bool, Option, none, some, ltb, ◌==◌, ◌&&◌, if◌then◌else◌,
}
use my_gx.Timer.{Timer, TimerQueue, over_time_timers}
use my_gx.Pool.{Pool, insert_recy_conn_queue}

-- The two tests on a timer that is over: it is of the present use of the connection, and no ping has
-- come for three waiting times.
pub is_silent : ℕ → ℕ → Timer → Pool → Bool
is_silent cur wait t p =
    t.cur_seq == (p.conn t.pconn).m_cur_seq && ltb ((p.conn t.pconn).last_ping_time + wait * 3) cur

pub check_timer : ℕ → ℕ → ℕ → Timer → Pool → Pool
check_timer now cur wait t p =
    if is_silent cur wait t p then insert_recy_conn_queue now t.pconn p else p

-- The loop over the timers that are over.
pub check_timers : ℕ → ℕ → ℕ → List Timer → Pool → Pool
check_timers now cur wait [] p = p
check_timers now cur wait (t ∷ ts) p = check_timers now cur wait ts (check_timer now cur wait t p)

-- One round, without the sleep, with fuel for the loop that collects the timers.
pub monitor_round : ℕ → ℕ → ℕ → ℕ → Pool → Option Pool
monitor_round fuel now cur wait p =
    let over = over_time_timers fuel cur wait p.timers in
    if ltb 0 p.timers.size && ltb p.timers.head_time cur
    then elim over [
      | none ↦ none
      | some (ts, q) ↦ some (check_timers now cur wait ts (record p { timers = q }))
    ]
    else some p
