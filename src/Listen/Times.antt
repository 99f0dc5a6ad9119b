-- ===== src/Listen/Times.antt =====
-- The waiting time of the heartbeat timers, in read_conf of net/mgx_socket.cpp.
use my_gx.Base.{ℕ, ◌≤◌, some, leb, codes, ◌≡◌, refl, Bool-cases, inl, inr, arith}
use my_gx.Conf.{Configs, ℤ, pos, negsuc, get_int}
use my_gx.Listen.{NetConf, at_least_five, read_conf}

-- A waiting time of at least five seconds.
pub record IsWait (z : ℤ) : Type 0 where
  pub wait : ℕ
  pub is : z ≡ pos wait
  pub long : 5 ≤ wait

at_least_five-IsWait : (z : ℤ) → IsWait (at_least_five z)
unfolding at_least_five
at_least_five-IsWait (pos n) = elim (Bool-cases (leb n 5)) [
  | inl short ↦ rw short (record { wait = 5; is = refl; long = omega arith })
  | inr long ↦ rw long (record { wait = n; is = refl; long = ground (arith, long) })
]
at_least_five-IsWait (negsuc n) = record { wait = 5; is = refl; long = omega arith }

-- Where the network's part of the configuration has numbers, or nothing, read_conf reads it, and whatever
-- it says of HeartWaitTime, the timers wait for at least five seconds.
pub read_conf-IsWait :
    (configs : Configs) (listen_cnt worker_conns recy heartbeat wait : ℤ)
    → get_int (codes "ListenPortCount") (pos 1) configs ≡ some listen_cnt
    → get_int (codes "WorkerConnections") (pos 1024) configs ≡ some worker_conns
    → get_int (codes "RecyConnectionWaitTime") (pos 80) configs ≡ some recy
    → get_int (codes "Heartbeat") (pos 0) configs ≡ some heartbeat
    → get_int (codes "HeartWaitTime") (pos 30) configs ≡ some wait
    → (conf : NetConf) × (read_conf configs ≡ some conf)
      × (conf.m_listen_cnt ≡ listen_cnt)
      × IsWait conf.m_heart_wait_time
unfolding read_conf
read_conf-IsWait configs listen_cnt worker_conns recy heartbeat wait e1 e2 e3 e4 e5 = (
  record {
    m_listen_cnt = listen_cnt;
    m_worker_conns = worker_conns;
    m_recy_conn_wait_time = recy;
    m_enabled_heartbeat = heartbeat;
    m_heart_wait_time = at_least_five wait;
  },
  rw (e1, e2, e3, e4, e5) refl,
  refl,
  at_least_five-IsWait wait,
)
